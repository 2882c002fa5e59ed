-- ===== src/Libk/Search/Numbers.antt =====
-- What `itoa` writes in base 10 and `atoi` reads back.
use native.Mathlib.Decide.{ℕ_discrete, dec_lt}
use hydrangea.Prelude.{
  ℕ, zero, suc, ◌+◌, ◌-◌, ◌*◌, ◌/◌, ◌%◌, ◌^◌, ◌≤◌, ◌<◌, ◌≡◌, ◌⊎◌, inl, inr, refl, ap, sym, ◌∙◌,
  arith, some, update, lt→ltb, le→not_ltb, eq→==, ne→not_==, update_ne,
}
use hydrangea.Libk.Bytes.{Memory}
use hydrangea.Libk.Search.{
  write_digits, swap_from, itoa, digit_char, read_digits, skip_blanks, atoi,
}

-- `v` without its `k` lowest decimal digits, and the digit behind these.
abbrev pub shift : (v k : ℕ) → ℕ
shift v zero = v
shift v (suc k) = shift (v / 10) k

abbrev pub digit : (v k : ℕ) → ℕ
digit v zero = v % 10
digit v (suc k) = digit (v / 10) k

shift-digit : (v k : ℕ) → shift v k ≡ 10 * shift v (suc k) + digit v k
shift-digit v zero = omega arith
shift-digit v (suc k) = shift-digit (v / 10) k

digit-lt : (v k : ℕ) → digit v k < 10
digit-lt v zero = omega arith
digit-lt v (suc k) = digit-lt (v / 10) k

shift-le : (v k : ℕ) → shift v k ≤ v
shift-le v zero = omega arith
shift-le v (suc k) = omega (arith, shift-le (v / 10) k)

shift_grows : (v k n : ℕ) → shift v k ≡ 0 → k ≤ n → shift v n ≡ 0
shift_grows v zero n e h = rw e (omega (arith, shift-le 0 n))
shift_grows v (suc k) zero e h = absurd (omega arith)
shift_grows v (suc k) (suc n) e h = shift_grows (v / 10) k n e (omega arith)

-- `len` digits of `v`, the lowest first, from `p` on, and nothing else changed.
Written : (m m' : Memory) (v p len : ℕ) → Type 0
Written m m' v p len =
    ((k : ℕ) → k < len → m' (p + k) ≡ digit v k + 48)
    × ((a : ℕ) → (a < p) ⊎ (p + len ≤ a) → m' a ≡ m a)

Written-suc :
    (m m' : Memory) (v p len : ℕ)
    → Written (update m p (digit_char (v % 10))) m' (v / 10) (suc p) len
    → Written m m' v p (suc len)
unfolding Written
Written-suc m m' v p len (digits, rest) = (
  all,
  λ a out. elim out [
    | inl o ↦ rest a (inl (omega arith)) ∙ ground arith
    | inr o ↦ rest a (inr (omega arith)) ∙ ground arith
  ],
)
  where
    all : (k : ℕ) → k < suc len → m' (p + k) ≡ digit v k + 48
    all zero l =
        let here : p + 0 ≡ p = omega arith in rw here (rest p (inl (omega arith)) ∙ ground arith)
    all (suc k) l =
        let at : p + suc k ≡ suc p + k = omega arith in rw at (digits k (omega (arith, l)))

write_digits-Written :
    (m : Memory) (v result i fuel : ℕ)
    → shift v fuel ≡ 0
    → 0 < fuel
    → (m' : Memory) × (len : ℕ) × (write_digits m v result 10 i fuel ≡ some (m', i + len))
      × (0 < len)
      × (len ≤ fuel)
      × (shift v len ≡ 0)
      × Written m m' v (result + i) len
unfolding write_digits Written
write_digits-Written m v result i zero e f = absurd (omega arith)
write_digits-Written m v result i (suc n) e f =
    let m1 = update m (result + i) (digit_char (v % 10)) in
    let here : m1 (result + i) ≡ v % 10 + 48 = ground arith in
    elim (ℕ_discrete (v / 10) 0) [
      | yes done ↦
          let one : suc i ≡ i + 1 = omega arith in
          (
            m1,
            1,
            rw (eq→== (v / 10) 0 done) (ap (λ j. some (m1, j)) one),
            omega arith,
            omega arith,
            done,
            (
              (λ k l.
                  let k0 : k ≡ 0 = omega (arith, l) in
                  let at : result + i + 0 ≡ result + i = omega arith in rw k0 (rw at here)),
              λ a out. elim out [ inl o ↦ ground arith | inr o ↦ ground arith ],
            ),
          )
      | no more ↦
          let some_fuel : 0 < n = elim (ℕ_discrete n 0) [
            | yes z ↦ absurd (more (ap (λ t. shift (v / 10) t) (sym z) ∙ e))
            | no nz ↦ omega arith
          ] in
          let (m', len, got, pos, short, end, (digits, rest)) =
            write_digits-Written m1 (v / 10) result (suc i) n e some_fuel in
          let index : suc i + len ≡ i + suc len = omega arith in
          (
            m',
            suc len,
            rw (ne→not_== (v / 10) 0 more) (got ∙ ap (λ j. some (m', j)) index),
            omega arith,
            omega (arith, short),
            end,
            Written-suc m m' v (result + i) len (
              (λ k l.
                  let at : result + suc i + k ≡ suc (result + i) + k = omega arith in
                  rw (← at) (digits k l)),
              λ a out. rest a (elim out [ inl o ↦ inl (omega arith) | inr o ↦ inr (omega arith) ]),
            ),
          )
    ]

swap_from_lem :
    (m : Memory) (p j i fuel : ℕ)
    → 0 < fuel
    → i < j + fuel
    → (m' : Memory) × (swap_from m p j i fuel ≡ some m')
      × ((q : ℕ) → j ≤ q → q ≤ i → m' (p + q) ≡ m (p + (i + j - q)))
      × ((a : ℕ) → (a < p + j) ⊎ (p + i < a) → m' a ≡ m a)
unfolding swap_from
swap_from_lem m p j i zero f0 f = absurd (omega arith)
swap_from_lem m p j i (suc n) f0 f = elim (dec_lt j i) [
  | no done ↦ (
    m,
    rw (le→not_ltb j i (omega arith)) refl,
    (λ q l h. ap (λ t. m (p + t)) {x = q} {y = i + j - q} (omega arith)),
    λ a out. refl,
  )
  | yes more ↦
      let m1 = update (update m (p + j) (m (p + i))) (p + i) (m (p + j)) in
      let (m', got, inner, outer) =
        swap_from_lem m1 p (suc j) (i - 1) n (omega arith) (omega arith) in
      (
        m',
        rw (lt→ltb j i more) got,
        (λ q l h. elim (ℕ_discrete q j) [
          | yes e ↦
              let to : i + j - j ≡ i = omega arith in
              rw (e, to) (outer (p + j) (inl (omega arith)) ∙ ground arith)
          | no nj ↦ elim (ℕ_discrete q i) [
            | yes e ↦
                let to : i + j - i ≡ j = omega arith in
                rw (e, to) (outer (p + i) (inr (omega arith)) ∙ ground arith)
            | no ni ↦
                let to : i - 1 + suc j - q ≡ i + j - q = omega arith in
                inner q (omega arith) (omega arith) ∙ ap (λ t. m1 (p + t)) to ∙ ground arith
          ]
        ]),
        λ a out. elim out [
          | inl o ↦ outer a (inl (omega arith)) ∙ ground arith
          | inr o ↦ outer a (inr (omega arith)) ∙ ground arith
        ],
      )
]

-- The digits of `v` from the `k`-th one down, read behind the number that stands in front of them.
read_digits_lem :
    (m : Memory) (p v k result fuel : ℕ)
    → ((t : ℕ) → t < k → m (p + t) ≡ digit v (k - 1 - t) + 48)
    → m (p + k) ≡ 0
    → result ≡ shift v k
    → v < 2 ^ 31
    → k < fuel
    → read_digits m p result fuel ≡ some v
unfolding read_digits
read_digits_lem m p v k result zero digits end e small f = absurd (omega arith)
read_digits_lem m p v zero result (suc n) digits end e small f =
    let here : p + 0 ≡ p = omega arith in
    let last : m p ≡ 0 = ap m (sym here) ∙ end in rw last (ap some e)
read_digits_lem m p v (suc k) result (suc n) digits end e small f =
    let here : p + 0 ≡ p = omega arith in
    let index : suc k - 1 - 0 ≡ k = omega arith in
    let first : m p ≡ digit v k + 48 =
      ap m (sym here) ∙ digits 0 (omega arith) ∙ ap (λ t. digit v t + 48) index in
    let range = digit-lt v k in
    let d : (m p + 2 ^ 16 - 48) % 2 ^ 16 ≡ digit v k = omega (arith, first, range) in
    let split = shift-digit v k in
    let next : (10 * result + digit v k) % 2 ^ 32 ≡ shift v k =
      omega (arith, split, e, shift-le v k) in
    let rest =
      read_digits_lem m (suc p) v k ((10 * result + digit v k) % 2 ^ 32) n
        (λ t l.
          let at : suc p + t ≡ p + suc t = omega arith in
          let same : suc k - 1 - suc t ≡ k - 1 - t = omega arith in
          ap m at ∙ digits (suc t) (omega arith) ∙ ap (λ z. digit v z + 48) same)
        (ap m {x = suc p + k} {y = p + suc k} (omega arith) ∙ end) next small (omega arith) in
    rw (d, le→not_ltb 9 (digit v k) (omega (arith, range))) rest

skip_no_blank : (m : Memory) (p n : ℕ) → ¬ (m p ≡ 32) → skip_blanks m p (suc n) ≡ some p
unfolding skip_blanks
skip_no_blank m p n ne = rw (ne→not_== (m p) 32 ne) refl

atoi_lem :
    (m : Memory) (str v len fuel : ℕ)
    → ((t : ℕ) → t < len → m (str + t) ≡ digit v (len - 1 - t) + 48)
    → m (str + len) ≡ 0
    → 0 < len
    → shift v len ≡ 0
    → v < 2 ^ 31
    → len < fuel
    → atoi m str fuel ≡ some v
unfolding atoi
atoi_lem m str v len zero digits end pos none_left small f = absurd (omega arith)
atoi_lem m str v len (suc n) digits end pos none_left small f =
    let here : str + 0 ≡ str = omega arith in
    let first : m str ≡ digit v (len - 1 - 0) + 48 = ap m (sym here) ∙ digits 0 pos in
    let read = read_digits_lem m str v len 0 (suc n) digits end (sym none_left) small f in
    let skip = skip_no_blank m str n (λ e. omega (arith, e, first)) in
    let no_minus = ne→not_== (m str) 45 (λ e. omega (arith, e, first)) in
    let no_plus = ne→not_== (m str) 43 (λ e. omega (arith, e, first)) in
    rw (skip, atoi) (rw (no_minus, no_plus) (rw read (rw no_minus refl)))

-- What `itoa` writes in base 10 for a number below 2^31, `atoi` reads back as that number; 10 rounds
-- for each loop of `itoa`, and one more for those of `atoi`, are enough fuel.
pub atoi-itoa :
    (m : Memory) (v result fuel : ℕ)
    → v < 2 ^ 31
    → 10 ≤ fuel
    → (m' : Memory) × (itoa m v result 10 fuel ≡ some m') × (atoi m' result (suc fuel) ≡ some v)
unfolding itoa Written
atoi-itoa m v result fuel small f =
    let enough = shift_grows v 10 fuel (omega arith) f in
    let (m1, len, wrote, pos, short, end, (digits, _)) =
      write_digits-Written m v result 0 fuel enough (omega arith) in
    let m2 = update m1 (result + len) 0 in
    let count : 0 + len ≡ len = omega arith in
    let start : result + 0 ≡ result = omega arith in
    let (m3, swapped, reversed, outside) =
      swap_from_lem m2 result 0 (len - 1) fuel (omega (arith, f)) (omega (arith, short, pos)) in
    (
      m3,
      rw (wrote, itoa) (rw count swapped),
      atoi_lem m3 result v len (suc fuel)
          (λ t l.
            let to : len - 1 + 0 - t ≡ len - 1 - t = omega arith in
            let at : result + 0 + (len - 1 - t) ≡ result + (len - 1 - t) = omega arith in
            reversed t (omega arith) (omega (arith, l))
            ∙ ap (λ k. m2 (result + k)) to
            ∙ update_ne m1 (result + len) 0 (result + (len - 1 - t)) (λ e. omega (arith, e, pos))
            ∙ ap m1 (sym at)
            ∙ digits (len - 1 - t) (omega (arith, pos)))
          (outside (result + len) (inr (omega (arith, pos)))
            ∙ rw (eq→== (result + len) (result + len) refl) refl)
          pos end small (omega (arith, short)),
    )
