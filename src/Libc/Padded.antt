-- ===== src/Libc/Padded.antt =====
-- What strncpy writes, and what strncmp takes for equal.
use mathlib.Core.Path.{subst}
use native.Mathlib.Decide.{dec_lt}
use hydrangea.Prelude.{
  ℕ, zero, suc, ◌+◌, ◌-◌, ◌^◌, ◌≤◌, ◌<◌, ◌≡◌, ◌≢◌, ◌⊎◌, inl, inr, refl, ap, sym, ◌∙◌, arith, some,
  List, [], ◌∷◌, ◌++◌, length, get_or, update, eq→==, ne→not_==, update_ne,
}
use hydrangea.Libk.Bytes.{Memory}
use hydrangea.Libk.Str.Laws.{Holds, Holds-update}
use hydrangea.Libc.Counted.{dec, pad, strncpy, strncmp}

-- `m'` has the bytes that `f` gives in the `n` places from `d` on, and those of `m` elsewhere.
abbrev pub Written : (m m' : Memory) (d n : ℕ) (f : ℕ → ℕ) → Type 0
Written m m' d n f =
    ((i : ℕ) → i < n → m' (d + i) ≡ f i) × ((a : ℕ) → (a < d) ⊎ (d + n ≤ a) → m' a ≡ m a)

-- One byte, and then the ones behind it.
Written-suc :
    (m m' : Memory) (d n v : ℕ) (f : ℕ → ℕ)
    → Written (update m d v) m' (suc d) n (λ i. f (suc i))
    → f 0 ≡ v
    → Written m m' d (suc n) f
Written-suc m m' d n v f (ins, out) e = (
  all,
  λ a o. elim o [
    | inl l ↦ out a (inl (omega arith)) ∙ update_ne m d v a (λ e. omega (arith, e, l))
    | inr l ↦ out a (inr (omega arith)) ∙ update_ne m d v a (λ e. omega (arith, e, l))
  ],
)
  where
    all : (i : ℕ) → i < suc n → m' (d + i) ≡ f i
    all zero l =
        let here : d + 0 ≡ d = omega arith in
        ap m' here ∙ out d (inl (omega arith)) ∙ ground (arith, e)
    all (suc i) l = ap m' {x = d + suc i} {y = suc d + i} (omega arith) ∙ ins i (omega arith)

Written-cons :
    (m m' : Memory) (d n v : ℕ) (f : ℕ → ℕ)
    → 0 < n
    → Written (update m d v) m' (suc d) (n - 1) (λ i. f (suc i))
    → f 0 ≡ v
    → Written m m' d n f
Written-cons m m' d n v f pos w e =
    let count : suc (n - 1) ≡ n = omega (arith, pos) in
    subst (λ k. Written m m' d k f) count (Written-suc m m' d (n - 1) v f w e)

Written-none : (m : Memory) (d n : ℕ) (f : ℕ → ℕ) → n ≡ 0 → Written m m d n f
Written-none m d n f e = (λ i l. absurd (omega (arith, e, l)), λ a o. refl)

pad-last : (m : Memory) (d n f : ℕ) → n ≡ 1 → pad m d n (suc f) ≡ some m
unfolding pad
pad-last m d n f e = rw e refl

pad-step :
    (m : Memory) (d n f : ℕ)
    → 1 < n
    → n < 2 ^ 32
    → pad m d n (suc f) ≡ pad (update m d 0) (suc d) (n - 1) f
unfolding pad
pad-step m d n f l small =
    let less : dec n ≡ n - 1 = omega (arith, l, small) in
    rw less (rw (ne→not_== (n - 1) 0 (λ e. omega (arith, e, l))) refl)

pad-Written :
    (m : Memory) (d n fuel : ℕ)
    → 0 < n
    → n < 2 ^ 32
    → n ≤ fuel
    → (m' : Memory) × (pad m d n fuel ≡ some m') × Written m m' d (n - 1) (λ i. 0)
pad-Written m d n zero pos small f = absurd (omega arith)
pad-Written m d n (suc fuel) pos small f = elim (dec_lt 1 n) [
  | no last ↦ (
    m,
    pad-last m d n fuel (omega (arith, last, pos)),
    Written-none m d (n - 1) (λ i. 0) (omega (arith, last)),
  )
  | yes more ↦
      let (m', run, written) =
        pad-Written (update m d 0) (suc d) (n - 1) fuel (omega (arith, more)) (omega (arith, small))
          (omega (arith, f)) in
      (
        m',
        pad-step m d n fuel more small ∙ run,
        Written-cons m m' d (n - 1) 0 (λ i. 0) (omega (arith, more)) written refl,
      )
]

strncpy-end :
    (m : Memory) (d s n f : ℕ)
    → m s ≡ 0
    → strncpy m d s n (suc f) ≡ pad (update m d (m s)) (suc d) n f
unfolding strncpy
strncpy-end m d s n f e = rw (eq→== (m s) 0 e) refl

strncpy-full :
    (m : Memory) (d s n f : ℕ) → m s ≢ 0 → n ≡ 1 → strncpy m d s n (suc f) ≡ some (update m d (m s))
unfolding strncpy
strncpy-full m d s n f ne e = rw (ne→not_== (m s) 0 ne) (rw e refl)

strncpy-step :
    (m : Memory) (d s n f : ℕ)
    → m s ≢ 0
    → 1 < n
    → n < 2 ^ 32
    → strncpy m d s n (suc f) ≡ strncpy (update m d (m s)) (suc d) (suc s) (n - 1) f
unfolding strncpy
strncpy-step m d s n f ne l small =
    let less : dec n ≡ n - 1 = omega (arith, l, small) in
    rw (ne→not_== (m s) 0 ne) (rw less (rw (ne→not_== (n - 1) 0 (λ e. omega (arith, e, l))) refl))

-- strncpy of a terminated string, with a count that is not 0, writes its first n bytes, followed by zeros
-- up to n bytes in all, and nothing else, if the string lies outside these bytes; fuel above n is enough.
pub strncpy-Written :
    (m : Memory) (s1 s2 n fuel : ℕ) (xs : List ℕ)
    → Holds m s2 xs
    → (s1 + n ≤ s2) ⊎ (s2 + length xs < s1)
    → 0 < n
    → n < 2 ^ 32
    → n < fuel
    → (m' : Memory) × (strncpy m s1 s2 n fuel ≡ some m') × Written m m' s1 n (λ i. get_or xs i 0)
strncpy-Written m d s n zero xs h apart pos small f = absurd (omega arith)
strncpy-Written m d s n (suc fuel) [] h apart pos small f =
    let (m', run, written) =
      pad-Written (update m d (m s)) (suc d) n fuel pos small (omega arith) in
    (
      m',
      strncpy-end m d s n fuel h ∙ run,
      Written-cons m m' d n (m s) (λ i. get_or [] i 0) pos written (sym h),
    )
strncpy-Written m d s n (suc fuel) (x ∷ xs) (e, ne, h) apart pos small f =
    let live : m s ≢ 0 = λ z. ne (sym e ∙ z) in
    elim (dec_lt 1 n) [
      | no last ↦
          let one : n ≡ 1 = omega (arith, last, pos) in
          let m' = update m d (m s) in
          (
            m',
            strncpy-full m d s n fuel live one,
            Written-cons m m' d n (m s) (λ i. get_or (x ∷ xs) i 0) pos
                (Written-none m' (suc d) (n - 1) (λ i. get_or xs i 0) (omega (arith, one))) (sym e),
          )
      | yes more ↦
          let held =
            Holds-update m d (m s) (suc s) xs
              (elim apart [ inl l ↦ inl (omega (arith, l)) | inr l ↦ inr (omega (arith, l)) ]) h in
          let (m', run, written) =
            strncpy-Written (update m d (m s)) (suc d) (suc s) (n - 1) fuel xs held
              (elim apart [ inl l ↦ inl (omega (arith, l, more)) | inr l ↦ inr (omega (arith, l)) ])
              (omega (arith, more)) (omega (arith, small)) (omega (arith, f)) in
          (
            m',
            strncpy-step m d s n fuel live more small ∙ run,
            Written-cons m m' d n (m s) (λ i. get_or (x ∷ xs) i 0) pos written (sym e),
          )
    ]

-- strncmp takes two terminated strings for equal if one is the start of the other, whatever the count
-- and in either order.
pub strncmp-append :
    (m : Memory) (s1 s2 n : ℕ) (xs ys : List ℕ)
    → Holds m s1 xs
    → Holds m s2 (xs ++ ys)
    → (strncmp m s1 s2 n ≡ 0) × (strncmp m s2 s1 n ≡ 0)
unfolding strncmp
strncmp-append m a b zero xs ys h k = (refl, refl)
strncmp-append m a b (suc n) [] ys h k = ground (arith, h)
strncmp-append m a b (suc n) (x ∷ xs) ys (e, ne, h) (e', ne', k) =
    let (one, two) = strncmp-append m (suc a) (suc b) n xs ys h k in ground (arith, one, two, e, e')
