-- ===== src/Libk/Str/Sets.antt =====
-- strspn, strcspn and strtok of libk/string.c: splitting a string at the bytes of a set.
use hydrangea.Prelude.{
  ℕ, zero, suc, ◌+◌, ◌%◌, ◌^◌, ◌<◌, ◌≡◌, ◌≢◌, inl, inr, ap, ◌∙◌, arith, Bool, true, false, not,
  Bool-cases, ◌==◌, if◌then◌else◌, List, [], ◌∷◌, ◌++◌, length, Option, some, Option-cases,
}
use hydrangea.Libk.Bytes.{Memory}
use hydrangea.Libk.Str.{find_char, if_found, span_from, strspn, cspan_from, strcspn}
use hydrangea.Libk.Str.Laws.{Holds, find, address_of, find_char-find}

-- Whether a byte is one of a list.
abbrev pub has : List ℕ → ℕ → Bool
has [] c = false
has (y ∷ ys) c = if y == c then true else has ys c

-- The number of bytes before the first one that `stop` holds of.
abbrev pub run : (ℕ → Bool) → List ℕ → ℕ
run stop [] = 0
run stop (x ∷ xs) = if stop x then 0 else suc (run stop xs)

find-has :
    (c : ℕ) (ys : List ℕ) (q : ℕ)
    → c ≢ 0
    → 0 < q
    → (address_of q (find c (ys ++ (0 ∷ []))) == 0) ≡ not (has ys c)
find-has c [] q ne l = ground arith
find-has c (y ∷ ys) q ne l =
    let rest = find-has c ys (suc q) ne (omega arith) in
    elim (Option-cases (find c (ys ++ (0 ∷ [])))) [
      | inl none_found ↦ ground arith
      | inr (i, found) ↦ ground arith
    ]

-- The choice that the loops make by `strchr`, over the set's list.
if_found-has :
    (m : Memory) (q c bound : ℕ) (ys : List ℕ) (a b : Option ℕ)
    → Holds m q ys
    → 0 < q
    → c ≢ 0
    → length ys < bound
    → if_found (find_char m q c bound) a b ≡ (if has ys c then a else b)
if_found-has m q c bound ys a b k l ne g =
    let test = find-has c ys q ne l in
    rw (find_char-find m q c bound ys k g)
      (elim (Bool-cases (has ys c)) [ inl e ↦ ground arith | inr e ↦ ground arith ])

span_from-run :
    (m : Memory) (p q bound ret fuel : ℕ) (xs ys : List ℕ)
    → Holds m p xs
    → Holds m q ys
    → 0 < q
    → length ys < bound
    → ret + length xs < 2 ^ 32
    → length xs < fuel
    → span_from m p q bound ret fuel ≡ some (ret + run (λ c. not (has ys c)) xs)
unfolding span_from
span_from-run m p q bound ret zero xs ys h k l g small f = absurd (omega (arith, f))
span_from-run m p q bound ret (suc n) [] ys h k l g small f = ground arith
span_from-run m p q bound ret (suc n) (x ∷ xs) ys (e, ne, h) k l g small f =
    let rest =
      span_from-run m (suc p) q bound ((ret + 1) % 2 ^ 32) n xs ys h k l g (omega arith)
        (omega arith) in
    let R = span_from m (suc p) q bound ((ret + 1) % 2 ^ 32) n in
    let test : (m p == 0) ≡ false = ground arith in
    let step : span_from m p q bound ret (suc n) ≡ (if has ys x then R else some ret) =
      rw test (rw e (if_found-has m q x bound ys R (some ret) k l ne g)) in
    elim (Bool-cases (has ys x)) [ inl t ↦ ground (arith, rest) | inr t ↦ ground (arith, rest) ]

cspan_from-run :
    (m : Memory) (p q bound ret fuel : ℕ) (xs ys : List ℕ)
    → Holds m p xs
    → Holds m q ys
    → 0 < q
    → length ys < bound
    → ret + length xs < 2 ^ 32
    → length xs < fuel
    → cspan_from m p q bound ret fuel ≡ some (ret + run (has ys) xs)
unfolding cspan_from
cspan_from-run m p q bound ret zero xs ys h k l g small f = absurd (omega (arith, f))
cspan_from-run m p q bound ret (suc n) [] ys h k l g small f = ground arith
cspan_from-run m p q bound ret (suc n) (x ∷ xs) ys (e, ne, h) k l g small f =
    let rest =
      cspan_from-run m (suc p) q bound ((ret + 1) % 2 ^ 32) n xs ys h k l g (omega arith)
        (omega arith) in
    let R = cspan_from m (suc p) q bound ((ret + 1) % 2 ^ 32) n in
    let test : (m p == 0) ≡ false = ground arith in
    let step : cspan_from m p q bound ret (suc n) ≡ (if has ys x then some ret else R) =
      rw test (rw e (if_found-has m q x bound ys (some ret) R k l ne g)) in
    elim (Bool-cases (has ys x)) [ inl t ↦ ground (arith, rest) | inr t ↦ ground (arith, rest) ]

-- On terminated strings shorter than 2^32, `strspn` counts the bytes before the first one that is not
-- in the set, and `strcspn` those before the first one that is; a round more than the longer string's
-- length is enough fuel.
pub strspn-run :
    (m : Memory) (str1 str2 fuel : ℕ) (xs ys : List ℕ)
    → Holds m str1 xs
    → Holds m str2 ys
    → 0 < str2
    → length xs < 2 ^ 32
    → length xs < fuel
    → length ys < fuel
    → (strspn m str1 str2 fuel ≡ some (run (λ c. not (has ys c)) xs))
      × (strcspn m str1 str2 fuel ≡ some (run (has ys) xs))
unfolding strspn strcspn
strspn-run m p q fuel xs ys h k l small f g =
    let zero_plus : (n : ℕ) → ◌≡◌ {A = Option ℕ} (some (0 + n)) (some n) =
      λ n. ap some {x = 0 + n} {y = n} (omega arith) in
    (
      span_from-run m p q fuel 0 fuel xs ys h k l g (omega arith) f ∙ zero_plus _,
      cspan_from-run m p q fuel 0 fuel xs ys h k l g (omega arith) f ∙ zero_plus _,
    )
