-- ===== src/Prelude/Bits.antt =====
-- Bits of words: `bit_or`, `bit_and` and powers of two, read digit by digit.
pub mod Fields
use Prim.Native.Nat.{
  ℕ, zero, suc, ◌+◌, ◌-◌, ◌*◌, ◌/◌, ◌%◌, ◌^◌, ◌≤◌, ◌<◌, min, max, bit_and, bit_or, digits,
  bit_and-bitwise, bit_or-bitwise,
}
use mathlib.Core.Path.{◌≡◌, refl, ap, ◌∙◌}
use mathlib.Core.Logic.{◌≢◌}
use native.Mathlib.Nat.{pow-suc}
use native.Mathlib.Decide.{ℕ_discrete}
use native.Mathlib.Omega.{arith}

-- the digit of weight 2 ^ k
abbrev pub bit : ℕ → ℕ → ℕ
bit x zero = x % 2
bit x (suc k) = bit (x / 2) k

-- The digit recursion that the native operations stand for, on a count of digits that is large enough.
module _ (z : ℕ → ℕ) (f : ℕ → ℕ → ℕ) where
  spare_digit : (n x y : ℕ) → x ≤ n → digits z f (suc n) x y ≡ digits z f n x y
  spare_digit zero zero y h = refl
  spare_digit zero (suc x) y h = elim h [ ]
  spare_digit (suc n) zero y h = refl
  spare_digit (suc n) (suc x) y h =
      ap (λ d. d * 2 + f (suc x % 2) (y % 2)) (spare_digit n (suc x / 2) (y / 2) (omega arith))

  spare_digits : (m n x y : ℕ) → x ≤ n → n ≤ m → digits z f m x y ≡ digits z f n x y
  spare_digits zero n x y h k = let e : n ≡ 0 = omega arith in rw e
  spare_digits (suc m) n x y h k = elim (ℕ_discrete n (suc m)) [
    | yes e ↦ rw e
    | no ne ↦ spare_digit m x y (omega arith) ∙ spare_digits m n x y h (omega arith)
  ]

  -- One digit, and the operation on the halves.
  digits_half :
      (x y : ℕ)
      → digits z f (suc x) (suc x) y
        ≡ digits z f (suc x / 2) (suc x / 2) (y / 2) * 2 + f (suc x % 2) (y % 2)
  digits_half x y =
      ap (λ d. d * 2 + f (suc x % 2) (y % 2))
        (spare_digits x (suc x / 2) (suc x / 2) (y / 2) (omega arith) (omega arith))

pub zero-bit_and : (y : ℕ) → bit_and 0 y ≡ 0
zero-bit_and y = bit_and-bitwise 0 y

pub bit_and-half : (x y : ℕ) → bit_and x y ≡ bit_and (x / 2) (y / 2) * 2 + min (x % 2) (y % 2)
bit_and-half zero y = omega (arith, zero-bit_and y, zero-bit_and (y / 2))
bit_and-half (suc x) y =
    let halves = bit_and-bitwise (suc x / 2) (y / 2) in
    omega (arith, bit_and-bitwise (suc x) y, halves, digits_half (λ d. zero) min x y)

pub zero-bit_or : (y : ℕ) → bit_or 0 y ≡ y
zero-bit_or y = bit_or-bitwise 0 y

pub bit_or-half : (x y : ℕ) → bit_or x y ≡ bit_or (x / 2) (y / 2) * 2 + max (x % 2) (y % 2)
bit_or-half zero y = omega (arith, zero-bit_or y, zero-bit_or (y / 2))
bit_or-half (suc x) y =
    let halves = bit_or-bitwise (suc x / 2) (y / 2) in
    omega (arith, bit_or-bitwise (suc x) y, halves, digits_half (λ d. d) max x y)

bit_and-zero_below : (m x : ℕ) → x < m → bit_and x 0 ≡ 0
bit_and-zero_below zero x h = elim h [ ]
bit_and-zero_below (suc m) zero h = zero-bit_and 0
bit_and-zero_below (suc m) (suc x) h =
    omega (arith, bit_and-half (suc x) 0, bit_and-zero_below m (suc x / 2) (omega arith))

pub bit_and-zero : (x : ℕ) → bit_and x 0 ≡ 0
bit_and-zero x = bit_and-zero_below (suc x) x (omega arith)

pub bit-le-one : (x k : ℕ) → bit x k ≤ 1
bit-le-one x zero = omega arith
bit-le-one x (suc k) = bit-le-one (x / 2) k

pub bit-bit_or : (a b k : ℕ) → bit (bit_or a b) k ≡ max (bit a k) (bit b k)
bit-bit_or a b zero = omega (arith, bit_or-half a b)
bit-bit_or a b (suc k) =
    let half : bit_or a b / 2 ≡ bit_or (a / 2) (b / 2) = omega (arith, bit_or-half a b) in
    rw half (bit-bit_or (a / 2) (b / 2) k)

pub bit-bit_and : (a b k : ℕ) → bit (bit_and a b) k ≡ min (bit a k) (bit b k)
bit-bit_and a b zero = omega (arith, bit_and-half a b)
bit-bit_and a b (suc k) =
    let half : bit_and a b / 2 ≡ bit_and (a / 2) (b / 2) = omega (arith, bit_and-half a b) in
    rw half (bit-bit_and (a / 2) (b / 2) k)

pub pow-pos : (k : ℕ) → 0 < 2 ^ k
pow-pos zero = omega arith
pow-pos (suc k) = omega (arith, pow-suc 2 k, pow-pos k)

pub pow-lt-pow : (j n : ℕ) → j < n → 2 ^ j < 2 ^ n
pow-lt-pow j zero h = absurd (omega arith)
pow-lt-pow zero (suc n) h = omega (arith, pow-suc 2 n, pow-pos n)
pow-lt-pow (suc j) (suc n) h = omega (arith, pow-suc 2 j, pow-suc 2 n, pow-lt-pow j n (omega arith))

half_pow : (k : ℕ) → 2 ^ suc k / 2 ≡ 2 ^ k
half_pow k = omega (arith, pow-suc 2 k)

pub bit-zero : (k : ℕ) → bit 0 k ≡ 0
bit-zero zero = refl
bit-zero (suc k) = bit-zero k

pub bit-pow_self : (k : ℕ) → bit (2 ^ k) k ≡ 1
bit-pow_self zero = refl
bit-pow_self (suc k) = rw (half_pow k) (bit-pow_self k)

pub bit-pow_ne : (j k : ℕ) → j ≢ k → bit (2 ^ j) k ≡ 0
bit-pow_ne zero zero h = absurd (h refl)
bit-pow_ne zero (suc k) h = bit-zero k
bit-pow_ne (suc j) zero h = omega (arith, pow-suc 2 j)
bit-pow_ne (suc j) (suc k) h = rw (half_pow j) (bit-pow_ne j k (λ e. h (ap suc e)))

-- `w & (1 << j)`
pub bit_and-pow : (w j : ℕ) → bit_and w (2 ^ j) ≡ bit w j * 2 ^ j
bit_and-pow w zero = omega (arith, bit_and-half w 1, bit_and-zero (w / 2))
bit_and-pow w (suc j) =
    let rest : bit_and (w / 2) (2 ^ suc j / 2) ≡ bit (w / 2) j * 2 ^ j =
      rw (half_pow j) (bit_and-pow (w / 2) j) in
    let twice : bit (w / 2) j * 2 ^ suc j ≡ bit (w / 2) j * (2 ^ j * 2) =
      ap (λ t. bit (w / 2) j * t) (pow-suc 2 j) in
    omega (arith, bit_and-half w (2 ^ suc j), rest, twice, pow-suc 2 j)

-- the complement of a word of `n` bits
pub bit-complement : (n x k : ℕ) → x < 2 ^ n → k < n → bit (2 ^ n - 1 - x) k ≡ 1 - bit x k
bit-complement zero x k hx hk = absurd (omega arith)
bit-complement (suc n) x zero hx hk = omega (arith, pow-suc 2 n)
bit-complement (suc n) x (suc k) hx hk =
    let half : (2 ^ suc n - 1 - x) / 2 ≡ 2 ^ n - 1 - x / 2 = omega (arith, pow-suc 2 n) in
    rw half (bit-complement n (x / 2) k (omega (arith, pow-suc 2 n)) (omega arith))

-- A word of `n` bits that is not all ones has a zero among them.
pub zero_bit : (n x : ℕ) → x < 2 ^ n → x ≢ 2 ^ n - 1 → (k : ℕ) × (k < n) × (bit x k ≡ 0)
zero_bit zero x hx hn = absurd (omega arith)
zero_bit (suc n) x hx hn = elim (ℕ_discrete (x % 2) 0) [
  | yes e ↦ (0, omega arith, e)
  | no e ↦
      let (k, hk, hb) =
        zero_bit n (x / 2) (omega (arith, pow-suc 2 n)) (omega (arith, pow-suc 2 n)) in
      (suc k, omega arith, hb)
]

-- bits bound a word: `a | b` of `n`-bit words has `n` bits
pub bit_or-lt : (n a b : ℕ) → a < 2 ^ n → b < 2 ^ n → bit_or a b < 2 ^ n
bit_or-lt zero a b ha hb =
    let e : a ≡ 0 = omega arith in let e' : b ≡ 0 = omega arith in rw (e, e') (omega arith)
bit_or-lt (suc n) a b ha hb =
    let rest =
      bit_or-lt n (a / 2) (b / 2) (omega (arith, pow-suc 2 n)) (omega (arith, pow-suc 2 n)) in
    omega (arith, bit_or-half a b, pow-suc 2 n)

pub bit_and-le : (n a b : ℕ) → a ≤ n → bit_and a b ≤ a
bit_and-le zero a b h = let e : a ≡ 0 = omega arith in rw e (omega (arith, zero-bit_and b))
bit_and-le (suc n) zero b h = omega (arith, zero-bit_and b)
bit_and-le (suc n) (suc a) b h =
    omega (arith, bit_and-half (suc a) b, bit_and-le n (suc a / 2) (b / 2) (omega arith))
