-- ===== src/Libk/Str.antt =====
-- strlen, strcpy, strcmp, strcat, strchr, strspn, strcspn and strtok of libk/string.c. A loop that runs
-- to a terminator is bounded by `fuel` rounds, with `none` once they are used up: any number above the
-- length of the string is enough. NULL is 0.
pub mod Laws
pub mod Sets
pub mod Tokens
use hydrangea.Prelude.{
  ℕ, zero, suc, ◌+◌, ◌%◌, ◌^◌, Bool, Option, none, some, ◌==◌, if◌then◌else◌, not, update,
}
use hydrangea.Libk.Bytes.{Memory}

-- The loop of `strlen`; `len` is an `int`.
unfoldable pub count_from : Memory → (str len fuel : ℕ) → Option ℕ
count_from m p len zero = none
count_from m p len (suc n) =
    let rest = count_from m (suc p) ((len + 1) % 2 ^ 32) n in if m p == 0 then some len else rest

unfoldable pub strlen : Memory → (str fuel : ℕ) → Option ℕ
unfolding count_from
strlen m str fuel = count_from m str 0 fuel

-- `strcpy`: the memory afterwards.
unfoldable pub strcpy : Memory → (dest src fuel : ℕ) → Option Memory
strcpy m d s zero = none
strcpy m d s (suc n) =
    let m' = update m d (m s) in
    let rest = strcpy m' (suc d) (suc s) n in if m s == 0 then some m' else rest

-- The loop of `strcmp` from `i` on.
unfoldable pub compare_from : Memory → (dest src i fuel : ℕ) → Option ℕ
compare_from m d s i zero = none
compare_from m d s i (suc n) =
    let rest = compare_from m d s (suc i) n in
    if m (d + i) == m (s + i) then (if m (s + i) == 0 then some 0 else rest) else some 1

unfoldable pub strcmp : Memory → (dest src fuel : ℕ) → Option ℕ
unfolding compare_from
strcmp m dest src fuel = compare_from m dest src 0 fuel

-- `strcat`: the memory afterwards.
unfoldable pub strcat : Memory → (dest src fuel : ℕ) → Option Memory
strcat m dest src fuel = elim (strlen m dest fuel) [
  | none ↦ none
  | some len ↦ strcpy m (dest + len) src fuel
]

-- The loop of `strchr` for the character `c`
unfoldable pub find_char : Memory → (str c fuel : ℕ) → Option ℕ
find_char m p c zero = none
find_char m p c (suc n) =
    let rest = find_char m (suc p) c n in
    if m p == c then some p else if m p == 0 then some 0 else rest

-- `strchr`, of a number that is made a `char`
unfoldable pub strchr : Memory → (str c fuel : ℕ) → Option ℕ
strchr m str c fuel = find_char m str (c % 2 ^ 8) fuel

-- What `strspn` and `strcspn` do with the result of `strchr`: `found` unless it is NULL. They
-- give it a `char` from memory.
abbrev pub if_found : Option ℕ → (found other : Option ℕ) → Option ℕ
if_found none found other = none
if_found (some r) found other = if r == 0 then other else found

-- The loop of `strspn` with `ret` counted so far; `bound` rounds are given to `strchr`.
unfoldable pub span_from : Memory → (str1 str2 bound ret fuel : ℕ) → Option ℕ
span_from m p q bound ret zero = none
span_from m p q bound ret (suc n) =
    let rest = span_from m (suc p) q bound ((ret + 1) % 2 ^ 32) n in
    if m p == 0 then some ret else if_found (find_char m q (m p) bound) rest (some ret)

unfoldable pub strspn : Memory → (str1 str2 fuel : ℕ) → Option ℕ
unfolding span_from
strspn m str1 str2 fuel = span_from m str1 str2 fuel 0 fuel

-- The loop of `strcspn`
unfoldable pub cspan_from : Memory → (str1 str2 bound ret fuel : ℕ) → Option ℕ
cspan_from m p q bound ret zero = none
cspan_from m p q bound ret (suc n) =
    let rest = cspan_from m (suc p) q bound ((ret + 1) % 2 ^ 32) n in
    if m p == 0 then some ret else if_found (find_char m q (m p) bound) (some ret) rest

unfoldable pub strcspn : Memory → (str1 str2 fuel : ℕ) → Option ℕ
unfolding cspan_from
strcspn m str1 str2 fuel = cspan_from m str1 str2 fuel 0 fuel

-- The end of `strtok`: the token from `str` to `i`, what memory holds then, and the new static `i`.
unfoldable pub cut : Memory → (str i : ℕ) → ℕ × Memory × ℕ
cut m str i =
    if i == str then (0, m, 0) else if m i == 0 then (str, m, 0) else (str, update m i 0, i + 1)

-- `strtok`, with the static `i` as `saved`: the token or NULL, the memory and the new `saved`.
unfoldable pub strtok : Memory → (saved str delim fuel : ℕ) → Option (ℕ × Memory × ℕ)
strtok m saved str delim fuel =
    let i = if str == 0 then saved else str in
    if i == 0 then some (0, m, 0) else elim (strspn m i delim fuel) [
      | none ↦ none
      | some skipped ↦ elim (strcspn m (i + skipped) delim fuel) [
        | none ↦ none
        | some taken ↦ some (cut m (i + skipped) (i + skipped + taken))
      ]
    ]
