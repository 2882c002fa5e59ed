-- ===== src/Prelude/Bits/Fields.antt =====
-- Fields of words: a low part below a power of two and what stands above it.
use Prim.Native.Nat.{ℕ, zero, suc, ◌+◌, ◌-◌, ◌*◌, ◌/◌, ◌%◌, ◌^◌, ◌<◌, bit_and, bit_or}
use mathlib.Core.Path.{◌≡◌, refl, ap, ◌∙◌}
use native.Mathlib.Nat.{pow-suc}
use native.Mathlib.Omega.{arith}
use hydrangea.Prelude.Bits.{bit_or-half, bit_and-half, zero-bit_or, bit_and-zero, pow-pos}

bit_or-zero_below : (m x : ℕ) → x < m → bit_or x 0 ≡ x
bit_or-zero_below zero x h = elim h [ ]
bit_or-zero_below (suc m) zero h = zero-bit_or 0
bit_or-zero_below (suc m) (suc x) h =
    omega (arith, bit_or-half (suc x) 0, bit_or-zero_below m (suc x / 2) (omega arith))

pub bit_or-zero : (x : ℕ) → bit_or x 0 ≡ x
bit_or-zero x = bit_or-zero_below (suc x) x (omega arith)

bit_or_comm_below : (m x y : ℕ) → x < m → bit_or x y ≡ bit_or y x
bit_or_comm_below zero x y h = elim h [ ]
bit_or_comm_below (suc m) zero y h = omega (arith, zero-bit_or y, bit_or-zero y)
bit_or_comm_below (suc m) (suc x) y h = omega (
  arith,
  bit_or-half (suc x) y,
  bit_or-half y (suc x),
  bit_or_comm_below m (suc x / 2) (y / 2) (omega arith),
)

pub bit_or_comm : (x y : ℕ) → bit_or x y ≡ bit_or y x
bit_or_comm x y = bit_or_comm_below (suc x) x y (omega arith)

-- A factor 2 of the upper part, taken out.
twice : (q k : ℕ) → q * 2 ^ suc k ≡ q * 2 ^ k * 2
twice q k = ap (λ t. q * t) (pow-suc 2 k) ∙ assoc q (2 ^ k)
  where
    assoc : (a b : ℕ) → a * (b * 2) ≡ a * b * 2
    assoc zero b = omega arith
    assoc (suc a) b = omega (arith, assoc a b)

-- `(q << k) | r` for a field `r` of `k` bits
pub bit_or-field : (k q r : ℕ) → r < 2 ^ k → bit_or (q * 2 ^ k) r ≡ q * 2 ^ k + r
bit_or-field zero q r h = let e : r ≡ 0 = omega arith in rw e (omega (arith, bit_or-zero (q * 1)))
bit_or-field (suc k) q r h =
    let half : q * 2 ^ suc k / 2 ≡ q * 2 ^ k = omega (arith, twice q k) in
    let rest : bit_or (q * 2 ^ suc k / 2) (r / 2) ≡ q * 2 ^ k + r / 2 =
      rw half (bit_or-field k q (r / 2) (omega (arith, pow-suc 2 k))) in
    omega (arith, bit_or-half (q * 2 ^ suc k) r, rest, twice q k)

-- Flags in the field below 2 ^ k.
pub bit_or-flags :
    (k q r f : ℕ) → r < 2 ^ k → f < 2 ^ k → bit_or (q * 2 ^ k + r) f ≡ q * 2 ^ k + bit_or r f
bit_or-flags zero q r f hr hf =
    let e : r ≡ 0 = omega arith in
    let e' : f ≡ 0 = omega arith in
    rw (e, e') (omega (arith, bit_or-zero (q * 1 + 0), bit_or-zero 0))
bit_or-flags (suc k) q r f hr hf =
    let half : (q * 2 ^ suc k + r) / 2 ≡ q * 2 ^ k + r / 2 = omega (arith, twice q k) in
    let rest : bit_or ((q * 2 ^ suc k + r) / 2) (f / 2) ≡ q * 2 ^ k + bit_or (r / 2) (f / 2) =
      rw half (
        bit_or-flags k q (r / 2) (f / 2) (omega (arith, pow-suc 2 k))
          (omega (arith, pow-suc 2 k))) in
    omega (arith, bit_or-half (q * 2 ^ suc k + r) f, bit_or-half r f, rest, twice q k)

-- A mask of the low `k` bits takes the field below 2 ^ k.
pub bit_and-low : (k q r : ℕ) → r < 2 ^ k → bit_and (q * 2 ^ k + r) (2 ^ k - 1) ≡ r
bit_and-low zero q r h = omega (arith, bit_and-zero (q * 1 + r))
bit_and-low (suc k) q r h =
    let half : (q * 2 ^ suc k + r) / 2 ≡ q * 2 ^ k + r / 2 = omega (arith, twice q k) in
    let mask : (2 ^ suc k - 1) / 2 ≡ 2 ^ k - 1 = omega (arith, pow-suc 2 k, pow-pos k) in
    let rest : bit_and ((q * 2 ^ suc k + r) / 2) ((2 ^ suc k - 1) / 2) ≡ r / 2 =
      rw (half, mask) (bit_and-low k q (r / 2) (omega (arith, pow-suc 2 k))) in
    omega (
      arith,
      bit_and-half (q * 2 ^ suc k + r) (2 ^ suc k - 1),
      rest,
      twice q k,
      pow-suc 2 k,
      pow-pos k,
    )

-- A mask whose low `k` bits are clear takes nothing of the field below 2 ^ k.
pub bit_and-high :
    (k q r m : ℕ) → r < 2 ^ k → bit_and (q * 2 ^ k + r) (m * 2 ^ k) ≡ bit_and q m * 2 ^ k
bit_and-high zero q r m h =
    let e : q * 1 + r ≡ q = omega arith in
    let e' : m * 1 ≡ m = omega arith in rw (e, e') (omega arith)
bit_and-high (suc k) q r m h =
    let half : (q * 2 ^ suc k + r) / 2 ≡ q * 2 ^ k + r / 2 = omega (arith, twice q k) in
    let mask : m * 2 ^ suc k / 2 ≡ m * 2 ^ k = omega (arith, twice m k) in
    let rest : bit_and ((q * 2 ^ suc k + r) / 2) (m * 2 ^ suc k / 2) ≡ bit_and q m * 2 ^ k =
      rw (half, mask) (bit_and-high k q (r / 2) m (omega (arith, pow-suc 2 k))) in
    omega (
      arith,
      bit_and-half (q * 2 ^ suc k + r) (m * 2 ^ suc k),
      rest,
      twice q k,
      twice m k,
      twice (bit_and q m) k,
    )

-- A mask whose low `k` bits are clear, set in a word.
pub bit_or-high :
    (k q r m : ℕ) → r < 2 ^ k → bit_or (q * 2 ^ k + r) (m * 2 ^ k) ≡ bit_or q m * 2 ^ k + r
bit_or-high zero q r m h =
    let e : q * 1 + r ≡ q = omega arith in
    let e' : m * 1 ≡ m = omega arith in rw (e, e') (omega arith)
bit_or-high (suc k) q r m h =
    let half : (q * 2 ^ suc k + r) / 2 ≡ q * 2 ^ k + r / 2 = omega (arith, twice q k) in
    let mask : m * 2 ^ suc k / 2 ≡ m * 2 ^ k = omega (arith, twice m k) in
    let rest : bit_or ((q * 2 ^ suc k + r) / 2) (m * 2 ^ suc k / 2) ≡ bit_or q m * 2 ^ k + r / 2 =
      rw (half, mask) (bit_or-high k q (r / 2) m (omega (arith, pow-suc 2 k))) in
    omega (
      arith,
      bit_or-half (q * 2 ^ suc k + r) (m * 2 ^ suc k),
      rest,
      twice q k,
      twice m k,
      twice (bit_or q m) k,
    )

-- All bits of a word of `n` bits set.
pub bit_or-ones : (n q : ℕ) → q < 2 ^ n → bit_or q (2 ^ n - 1) ≡ 2 ^ n - 1
bit_or-ones zero q h = let e : q ≡ 0 = omega arith in rw e refl
bit_or-ones (suc n) q h =
    let mask : (2 ^ suc n - 1) / 2 ≡ 2 ^ n - 1 = omega (arith, pow-suc 2 n, pow-pos n) in
    let rest : bit_or (q / 2) ((2 ^ suc n - 1) / 2) ≡ 2 ^ n - 1 =
      rw mask (bit_or-ones n (q / 2) (omega (arith, pow-suc 2 n))) in
    omega (arith, bit_or-half q (2 ^ suc n - 1), rest, pow-suc 2 n, pow-pos n)

-- The masks 0xFF and 0xFFF, and 0xFFFFF000.
pub bit_and-byte : (x : ℕ) → bit_and x 0xFF ≡ x % 256
bit_and-byte x =
    let e : x ≡ x / 256 * 256 + x % 256 = omega arith in
    ap (λ z. bit_and z 0xFF) e ∙ bit_and-low 8 (x / 256) (x % 256) (omega arith)

pub bit_and-offset : (x : ℕ) → bit_and x 0xFFF ≡ x % 4096
bit_and-offset x =
    let e : x ≡ x / 4096 * 4096 + x % 4096 = omega arith in
    ap (λ z. bit_and z 0xFFF) e ∙ bit_and-low 12 (x / 4096) (x % 4096) (omega arith)

pub bit_and-page : (x : ℕ) → x < 2 ^ 32 → bit_and x 0xFFFF_F000 ≡ x / 4096 * 4096
bit_and-page x h =
    let e : x ≡ x / 4096 * 4096 + x % 4096 = omega arith in
    let e' : x / 4096 ≡ 0 * 2 ^ 20 + x / 4096 = omega arith in
    let whole : bit_and (x / 4096) (2 ^ 20 - 1) ≡ x / 4096 =
      ap (λ z. bit_and z (2 ^ 20 - 1)) e' ∙ bit_and-low 20 0 (x / 4096) (omega arith) in
    let above = bit_and-high 12 (x / 4096) (x % 4096) (2 ^ 20 - 1) (omega arith) in
    ap (λ z. bit_and z 0xFFFF_F000) e ∙ above ∙ ap (λ z. z * 4096) whole
