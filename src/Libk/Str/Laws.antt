-- ===== src/Libk/Str/Laws.antt =====
-- The string functions of libk/string.c on terminated strings.
use mathlib.Core.Path.{ap₂, subst}
use native.Mathlib.Decide.{ℕ_discrete}
use hydrangea.Prelude.{
  ℕ, zero, suc, ◌+◌, ◌%◌, ◌^◌, ◌≤◌, ◌<◌, ◌≡◌, ◌≢◌, ◌⊎◌, inl, inr, refl, ap, ◌∙◌, arith, false, ◌==◌,
  if◌then◌else◌, List, [], ◌∷◌, ◌++◌, length, Option, none, some, update, eq→==, get_or, drop,
  Option-cases,
}
use hydrangea.Libk.Bytes.{Memory, memcpy}
use hydrangea.Libk.Bytes.Laws.{moved, memcpy-moved}
use hydrangea.Libk.Str.{count_from, strlen, strcpy, compare_from, strcmp, strcat, strchr, find_char}

-- `m` holds the terminated string `xs` at the address `p`.
abbrev pub Holds : Memory → ℕ → List ℕ → Type 0
Holds m p [] = m p ≡ 0
Holds m p (x ∷ xs) = (m p ≡ x) × (x ≢ 0) × Holds m (suc p) xs

count_from_lem :
    (m : Memory) (p len fuel : ℕ) (xs : List ℕ)
    → Holds m p xs
    → len + length xs < 2 ^ 32
    → length xs < fuel
    → count_from m p len fuel ≡ some (len + length xs)
unfolding count_from
count_from_lem m p len zero xs h l f = absurd (omega (arith, f))
count_from_lem m p len (suc n) [] h l f =
    rw (eq→== _ _ h) (ap some {x = len} {y = len + 0} (omega arith))
count_from_lem m p len (suc n) (x ∷ xs) (e, ne, h) l f =
    let rest = count_from_lem m (suc p) ((len + 1) % 2 ^ 32) n xs h (omega arith) (omega arith) in
    let test : (m p == 0) ≡ false = ground arith in
    rw test (
      rest ∙ ap some {x = (len + 1) % 2 ^ 32 + length xs} {y = len + suc (length xs)} (omega arith))

-- `strlen` of a terminated string is its length; a round more than that is enough fuel.
pub strlen_lem :
    (m : Memory) (str fuel : ℕ) (xs : List ℕ)
    → Holds m str xs
    → length xs < 2 ^ 31
    → length xs < fuel
    → strlen m str fuel ≡ some (length xs)
unfolding strlen
strlen_lem m p fuel xs h l f =
    count_from_lem m p 0 fuel xs h (omega arith) f
    ∙ ap some {x = 0 + length xs} {y = length xs} (omega arith)

pub Holds-update :
    (m : Memory) (d v p : ℕ) (xs : List ℕ)
    → (d < p) ⊎ (p + length xs < d)
    → Holds m p xs
    → Holds (update m d v) p xs
Holds-update m d v p [] apart h = elim apart [ inl l ↦ ground arith | inr l ↦ ground arith ]
Holds-update m d v p (x ∷ xs) apart (e, ne, h) = (
  elim apart [ inl l ↦ ground arith | inr l ↦ ground arith ],
  ne,
  Holds-update m d v (suc p) xs
      (elim apart [ inl l ↦ inl (omega arith) | inr l ↦ inr (omega arith) ]) h,
)

-- `strcpy` of a terminated string copies its bytes and the terminator as `memcpy` does, if the string
-- does not reach into the destination from below; a round for each byte is enough fuel.
pub strcpy-memcpy :
    (m : Memory) (dest src fuel : ℕ) (xs : List ℕ)
    → Holds m src xs
    → (dest ≤ src) ⊎ (src + length xs < dest)
    → length xs < fuel
    → strcpy m dest src fuel ≡ some (memcpy m dest src (suc (length xs)))
unfolding strcpy memcpy
strcpy-memcpy m d s zero xs h apart f = absurd (omega (arith, f))
strcpy-memcpy m d s (suc n) [] h apart f = rw (eq→== _ _ h) refl
strcpy-memcpy m d s (suc n) (x ∷ xs) (e, ne, h) apart f =
    let test : (m s == 0) ≡ false = ground arith in
    let still =
      Holds-update m d (m s) (suc s) xs
        (elim apart [ inl l ↦ inl (omega arith) | inr l ↦ inr (omega arith) ]) h in
    rw test (
      strcpy-memcpy (update m d (m s)) (suc d) (suc s) n xs still
        (elim apart [ inl l ↦ inl (omega arith) | inr l ↦ inr (omega arith) ]) (omega arith))

compare_from_lem :
    (m : Memory) (d s i fuel : ℕ) (xs ys : List ℕ)
    → Holds m (d + i) xs
    → Holds m (s + i) ys
    → length xs < fuel
    → (xs ≡ ys → compare_from m d s i fuel ≡ some 0)
      × (xs ≢ ys → compare_from m d s i fuel ≡ some 1)
unfolding compare_from
compare_from_lem m d s i zero xs ys h k f = absurd (omega (arith, f))
compare_from_lem m d s i (suc n) [] [] h k f = (λ e. ground arith, λ ne. absurd (ne refl))
compare_from_lem m d s i (suc n) [] (y ∷ ys) h (e, ne, k) f =
    (λ e. absurd (omega (arith, ap length e)), λ differ. ground arith)
compare_from_lem m d s i (suc n) (x ∷ xs) [] (e, ne, h) k f =
    (λ e. absurd (omega (arith, ap length e)), λ differ. ground arith)
compare_from_lem m d s i (suc n) (x ∷ xs) (y ∷ ys) (e, ne, h) (e', ne', k) f =
    let (to, from) =
      compare_from_lem m d s (suc i) n xs ys (next d xs h) (next s ys k) (omega arith) in
    (
      λ same.
          let rest = to (ap (drop 1) same) in
          let first : x ≡ y = ap (λ l. get_or l 0 0) same in ground arith,
      λ differ. elim (ℕ_discrete x y) [
        | yes eq ↦ let rest = from (λ tails. differ (ap₂ ◌∷◌ eq tails)) in ground arith
        | no other ↦ ground arith
      ],
    )
  where
    next : (p : ℕ) (l : List ℕ) → Holds m (suc (p + i)) l → Holds m (p + suc i) l
    next p l g = subst (λ q. Holds m q l) {x = suc (p + i)} {y = p + suc i} (omega arith) g

-- `strcmp` of two terminated strings returns 0 if they are equal and 1 if not; a round more than the
-- first one's length is enough fuel.
pub strcmp_lem :
    (m : Memory) (dest src fuel : ℕ) (xs ys : List ℕ)
    → Holds m dest xs
    → Holds m src ys
    → length xs < fuel
    → (xs ≡ ys → strcmp m dest src fuel ≡ some 0) × (xs ≢ ys → strcmp m dest src fuel ≡ some 1)
unfolding strcmp
strcmp_lem m d s fuel xs ys h k f = compare_from_lem m d s 0 fuel xs ys (at d xs h) (at s ys k) f
  where
    at : (p : ℕ) (l : List ℕ) → Holds m p l → Holds m (p + 0) l
    at p l g = subst (λ q. Holds m q l) {x = p} {y = p + 0} (omega arith) g

pub Holds-ext :
    (m m' : Memory) (p p' : ℕ) (xs : List ℕ)
    → ((i : ℕ) → i ≤ length xs → m' (p' + i) ≡ m (p + i))
    → Holds m p xs
    → Holds m' p' xs
Holds-ext m m' p p' [] same h = ground (arith, same 0)
Holds-ext m m' p p' (x ∷ xs) same (e, ne, h) = (
  ground (arith, same 0),
  ne,
  Holds-ext m m' (suc p) (suc p') xs (λ i l. ground (arith, same (suc i))) h,
)

Holds-append :
    (m m' : Memory) (p : ℕ) (xs ys : List ℕ)
    → Holds m p xs
    → ((i : ℕ) → i < length xs → m' (p + i) ≡ m (p + i))
    → Holds m' (p + length xs) ys
    → Holds m' p (xs ++ ys)
Holds-append m m' p [] ys h same k = subst (λ q. Holds m' q ys) {x = p + 0} {y = p} (omega arith) k
Holds-append m m' p (x ∷ xs) ys (e, ne, h) same k = (
  ground (arith, same 0),
  ne,
  Holds-append m m' (suc p) xs ys h (λ i l. ground (arith, same (suc i)))
      (subst (λ q. Holds m' q ys) {x = p + suc (length xs)} {y = suc p + length xs} (omega arith)
        k),
)

-- `strcat` of two terminated strings, the second of which lies outside the bytes written, returns, and
-- leaves the concatenation of the two at `dest`; a round more than the longer one's length is enough
-- fuel.
pub strcat-append :
    (m : Memory) (dest src fuel : ℕ) (xs ys : List ℕ)
    → Holds m dest xs
    → Holds m src ys
    → length xs < 2 ^ 31
    → (dest + length xs ≤ src) ⊎ (src + length ys < dest + length xs)
    → length xs < fuel
    → length ys < fuel
    → (m' : Memory) × (strcat m dest src fuel ≡ some m') × Holds m' dest (xs ++ ys)
unfolding strcat
strcat-append m d s fuel xs ys h k small apart f g =
    let n = length xs in
    let all = memcpy m (d + n) s (suc (length ys)) in
    let near : (d + n ≤ s) ⊎ (s + suc (length ys) ≤ d + n) = elim apart [
      | inl l ↦ inl l
      | inr l ↦ inr (omega arith)
    ] in
    let at : (q : ℕ) → all q ≡ moved m (d + n) s (suc (length ys)) q =
      λ q. memcpy-moved m (d + n) s (suc (length ys)) q near in
    (
      all,
      rw (strlen_lem m d fuel xs h small f, strcat) (strcpy-memcpy m (d + n) s fuel ys k apart g),
      Holds-append m all d xs ys h (λ i l. ground (arith, at (d + i)))
          (Holds-ext m all s (d + n) ys (λ i l. ground (arith, at (d + n + i))) k),
    )

-- The first position of the byte `c` in a list.
abbrev pub find : ℕ → List ℕ → Option ℕ
find c [] = none
find c (x ∷ xs) =
    if x == c then some 0 else elim (find c xs) [ none ↦ none | some i ↦ some (suc i) ]

-- The address of that position in a list at `p`, or NULL.
abbrev pub address_of : ℕ → Option ℕ → ℕ
address_of p none = 0
address_of p (some i) = p + i

-- The loop of `strchr` finds the first byte `c` of a terminated string, the terminator included, or returns NULL if
-- there is none; a round more than the length is enough fuel.
pub find_char-find :
    (m : Memory) (str c fuel : ℕ) (xs : List ℕ)
    → Holds m str xs
    → length xs < fuel
    → find_char m str c fuel ≡ some (address_of str (find c (xs ++ (0 ∷ []))))
unfolding find_char
find_char-find m p c zero xs h f = absurd (omega (arith, f))
find_char-find m p c (suc n) [] h f = ground arith
find_char-find m p c (suc n) (x ∷ xs) (e, ne, h) f =
    let rest = find_char-find m (suc p) c n xs h (omega arith) in
    elim (Option-cases (find c (xs ++ (0 ∷ [])))) [
      | inl none_found ↦ ground arith
      | inr (i, found) ↦ ground arith
    ]

-- So does `strchr` for the number that it makes a character.
pub strchr-find :
    (m : Memory) (str c fuel : ℕ) (xs : List ℕ)
    → Holds m str xs
    → length xs < fuel
    → strchr m str c fuel ≡ some (address_of str (find (c % 2 ^ 8) (xs ++ (0 ∷ []))))
unfolding strchr
strchr-find m str c fuel xs h f = find_char-find m str (c % 2 ^ 8) fuel xs h f
