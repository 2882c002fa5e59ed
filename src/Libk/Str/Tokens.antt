-- ===== src/Libk/Str/Tokens.antt =====
-- strtok of libk/string.c: the tokens that repeated calls give.
use mathlib.Core.Path.{subst}
use hydrangea.Prelude.{
  ℕ, zero, suc, ◌+◌, ◌^◌, ◌≤◌, ◌<◌, ◌≡◌, ◌≢◌, inl, inr, refl, ap, sym, arith, Bool, true, false,
  not, Bool-cases, ◌==◌, ne→not_==, eq→==, if◌then◌else◌, List, [], ◌∷◌, length, take, drop,
  length-drop, some, update,
}
use hydrangea.Libk.Bytes.{Memory}
use hydrangea.Libk.Str.{cut, strtok}
use hydrangea.Libk.Str.Laws.{Holds, Holds-update}
use hydrangea.Libk.Str.Sets.{has, run, strspn-run}

cut_nothing : (m : Memory) (p t : ℕ) → t ≡ 0 → cut m p (p + t) ≡ (0, m, 0)
unfolding cut
cut_nothing m p t z = let test : (p + t == p) ≡ true = ground arith in rw test refl

-- What `m` holds `t` bytes into a string.
data At (m : Memory) (p t : ℕ) (xs : List ℕ) : Type 0 where
  ends : drop t xs ≡ [] → t ≡ length xs → m (p + t) ≡ 0 → At m p t xs
  goes_on :
      (c : ℕ) (cs : List ℕ)
      → drop t xs ≡ c ∷ cs
      → m (p + t) ≢ 0
      → Holds m (suc (p + t)) cs
      → At m p t xs

Holds-At : (m : Memory) (p t : ℕ) (xs : List ℕ) → Holds m p xs → t ≤ length xs → At m p t xs
Holds-At m p zero [] h l = ends refl refl (ground arith)
Holds-At m p (suc t) [] h l = absurd (omega (arith, l))
Holds-At m p zero (x ∷ xs) (e, ne, h) l =
    goes_on x xs refl (ground arith)
      (subst (λ q. Holds m q xs) {x = suc p} {y = suc (p + 0)} (omega arith) h)
Holds-At m p (suc t) (x ∷ xs) (e, ne, h) l = elim (Holds-At m (suc p) t xs h (omega arith)) [
  | ends a b c ↦ ends a (ap suc b) (ground (arith, c))
  | goes_on c cs a b k ↦
      goes_on c cs a (ground (arith, b))
        (subst (λ q. Holds m q cs) {x = suc (suc p + t)} {y = suc (p + suc t)} (omega arith) k)
]

Holds-drop :
    (m : Memory) (p n : ℕ) (xs : List ℕ)
    → Holds m p xs
    → n ≤ length xs
    → Holds m (p + n) (drop n xs)
Holds-drop m p zero xs h l = subst (λ q. Holds m q xs) {x = p} {y = p + 0} (omega arith) h
Holds-drop m p (suc n) [] h l = absurd (omega (arith, l))
Holds-drop m p (suc n) (x ∷ xs) (e, ne, h) l =
    subst (λ q. Holds m q (drop n xs)) {x = suc p + n} {y = p + suc n} (omega arith)
      (Holds-drop m (suc p) n xs h (omega arith))

-- A terminator written into a string cuts it there.
Holds-take :
    (m : Memory) (p t : ℕ) (xs : List ℕ)
    → Holds m p xs
    → t ≤ length xs
    → Holds (update m (p + t) 0) p (take t xs)
Holds-take m p zero xs h l = ground arith
Holds-take m p (suc t) [] h l = absurd (omega (arith, l))
Holds-take m p (suc t) (x ∷ xs) (e, ne, h) l = (
  ground arith,
  ne,
  subst (λ q. Holds (update m q 0) (suc p) (take t xs)) {x = suc p + t} {y = p + suc t}
      (omega arith) (Holds-take m (suc p) t xs h (omega arith)),
)

take_all : (t : ℕ) (xs : List ℕ) → t ≡ length xs → take t xs ≡ xs
take_all zero [] e = refl
take_all zero (x ∷ xs) e = absurd (omega (arith, e))
take_all (suc t) [] e = refl
take_all (suc t) (x ∷ xs) e = ap (λ l. x ∷ l) (take_all t xs (omega arith))

-- The static `i` of `strtok` before the bytes `xs`, the first of which was the delimiter cut off.
abbrev pub Saved : Memory → ℕ → List ℕ → Type 0
Saved m i [] = i ≡ 0
Saved m i (c ∷ cs) = (i ≢ 0) × Holds m i cs

-- A token at `p`: the first `t` bytes of `xs`, terminated, with the rest saved.
abbrev pub Token : (p t : ℕ) → List ℕ → ℕ × Memory × ℕ → Type 0
Token p t xs (token, m, saved) = (token ≡ p) × Holds m p (take t xs) × Saved m saved (drop t xs)

cut-Token :
    (m : Memory) (p t : ℕ) (xs : List ℕ)
    → Holds m p xs
    → 0 < t
    → t ≤ length xs
    → Token p t xs (cut m p (p + t))
unfolding cut
cut-Token m p t xs h some_byte l =
    let test : (p + t == p) ≡ false = ground arith in
    elim (Holds-At m p t xs h l) [
      | ends a b c ↦
          rw (test, eq→== _ _ c, a) (refl, subst (Holds m p) (sym (take_all t xs b)) h, refl)
      | goes_on c cs a b k ↦
          rw (test, ne→not_== _ _ b, a)
            (
              refl,
              Holds-take m p t xs h l,
              (
                λ z. absurd (omega (arith, z)),
                Holds-update m (p + t) 0 (p + t + 1) cs (inl (omega arith))
                    (subst (λ q. Holds m q cs) {x = suc (p + t)} {y = p + t + 1} (omega arith) k),
              ),
            )
    ]

run_le : (stop : ℕ → Bool) (xs : List ℕ) → run stop xs ≤ length xs
run_le stop [] = omega arith
run_le stop (x ∷ xs) =
    let rest = run_le stop xs in
    elim (Bool-cases (stop x)) [ inl e ↦ ground arith | inr e ↦ ground arith ]

-- Where a call of `strtok` starts.
abbrev pub start : (saved str : ℕ) → ℕ
start saved str = if str == 0 then saved else str

-- `strtok` of a terminated string shorter than 2^32, given or saved, skips the delimiters and returns
-- the bytes up to the next one as a terminated token, with what follows saved for the next call; if no
-- byte is left it returns NULL and saves nothing. A round more than the longer string's length is
-- enough fuel.
pub strtok-Token :
    (m : Memory) (saved str delim fuel : ℕ) (xs ys : List ℕ)
    → 0 < start saved str
    → Holds m (start saved str) xs
    → Holds m delim ys
    → 0 < delim
    → length xs < 2 ^ 32
    → length xs < fuel
    → length ys < fuel
    → let skipped = run (λ c. not (has ys c)) xs in
      let left = drop skipped xs in
      let taken = run (has ys) left in
      (r : ℕ × Memory × ℕ) × (strtok m saved str delim fuel ≡ some r)
      × (taken ≡ 0 → r ≡ (0, m, 0))
      × (0 < taken → Token (start saved str + skipped) taken left r)
unfolding strtok
strtok-Token m saved str delim fuel xs ys s h k l small f g =
    let i = start saved str in
    let n = run (λ c. not (has ys c)) xs in
    let inside = run_le (λ c. not (has ys c)) xs in
    let left = drop n xs in
    let shorter : length left ≤ length xs = omega (arith, length-drop n xs) in
    let here = Holds-drop m i n xs h inside in
    let (skips, _) = strspn-run m i delim fuel xs ys h k l small f g in
    let (_, takes) =
      strspn-run m (i + n) delim fuel left ys here k l (omega arith) (omega arith) g in
    let t = run (has ys) left in
    let test : (i == 0) ≡ false = ground arith in
    (
      cut m (i + n) (i + n + t),
      rw (test, skips, takes, strtok) refl,
      λ z. cut_nothing m (i + n) t z,
      λ some_byte. cut-Token m (i + n) t left here some_byte (run_le (has ys) left),
    )
