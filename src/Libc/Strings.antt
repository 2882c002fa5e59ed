-- ===== src/Libc/Strings.antt =====
-- memcpy to strtok of libc/string/string.c, as far as libk/string.c has functions of these names.
-- Memory and fuel are those of `Libk`.
use hydrangea.Prelude.{
  ℕ, zero, suc, ◌+◌, ◌-◌, ◌%◌, ◌^◌, Bool, Option, none, some, ltb, ◌==◌, if◌then◌else◌, update,
  ◌>>=◌,
}
use hydrangea.Libk.Bytes.{Memory, minus_one}

unfoldable pub memcpy : Memory → (s1 s2 n : ℕ) → Memory
memcpy m d s zero = m
memcpy m d s (suc n) = memcpy (update m d (m s)) (suc d) (suc s) n

-- The two calls of `memcpy` in `memmove`, through an array that starts at the address `tmp`.
unfoldable pub memmove : Memory → (tmp s1 s2 n : ℕ) → Memory
memmove m tmp s1 s2 n = memcpy (memcpy m tmp s2 n) s1 tmp n

-- A `char` is signed: 128 to 255 stand for the numbers below 0.
abbrev pub char_lt : (a b : ℕ) → Bool
char_lt a b = ltb ((a + 128) % 256) ((b + 128) % 256)

unfoldable pub memcmp : Memory → (s1 s2 n : ℕ) → ℕ
memcmp m p1 p2 zero = 0
memcmp m p1 p2 (suc n) =
    let rest = memcmp m (suc p1) (suc p2) n in
    if char_lt (m p1) (m p2) then minus_one else if char_lt (m p2) (m p1) then 1 else rest

unfoldable pub strcpy : Memory → (s1 s2 fuel : ℕ) → Option Memory
strcpy m d s zero = none
strcpy m d s (suc n) =
    let m' = update m d (m s) in
    let rest = strcpy m' (suc d) (suc s) n in if m s == 0 then some m' else rest

-- The loop of `strlen`; `len` is an `int`.
unfoldable pub count_from : Memory → (s len fuel : ℕ) → Option ℕ
count_from m p len zero = none
count_from m p len (suc n) =
    let rest = count_from m (suc p) ((len + 1) % 2 ^ 32) n in if m p == 0 then some len else rest

unfoldable pub strlen : Memory → (s fuel : ℕ) → Option ℕ
unfolding count_from
strlen m s fuel = count_from m s 0 fuel

unfoldable pub strcat : Memory → (s1 s2 fuel : ℕ) → Option Memory
strcat m s1 s2 fuel = elim (strlen m s1 fuel) [
  | none ↦ none
  | some len ↦ strcpy m (s1 + len) s2 fuel
]

-- The loop of `strcmp` from `i` on.
unfoldable pub compare_from : Memory → (s1 s2 i fuel : ℕ) → Option ℕ
compare_from m a b i zero = none
compare_from m a b i (suc n) =
    let rest = compare_from m a b (suc i) n in
    if m (a + i) == m (b + i) then (if m (b + i) == 0 then some 0 else rest) else some 1

unfoldable pub strcmp : Memory → (s1 s2 fuel : ℕ) → Option ℕ
unfolding compare_from
strcmp m s1 s2 fuel = compare_from m s1 s2 0 fuel

unfoldable pub strcoll : Memory → (s1 s2 fuel : ℕ) → Option ℕ
strcoll m s1 s2 fuel = strcmp m s1 s2 fuel

-- `strxfrm`: the number it returns, and the memory.
unfoldable pub strxfrm : Memory → (s1 s2 n fuel : ℕ) → Option (ℕ × Memory)
strxfrm m s1 s2 n fuel = elim (strlen m s2 fuel) [
  | none ↦ none
  | some len ↦
      let s2_len = len + 1 in some (len, memcpy m s1 s2 (if ltb n s2_len then n else s2_len))
]

-- A `char`, which has a sign, as an `int` of 32 bits
abbrev pub as_int : (char : ℕ) → ℕ
as_int char = if ltb char 128 then char else char + (2 ^ 32 - 256)

unfoldable pub strchr : Memory → (s c fuel : ℕ) → Option ℕ
strchr m p c zero = none
strchr m p c (suc n) =
    let rest = strchr m (suc p) c n in
    if as_int (m p) == c then some p else if m p == 0 then some 0 else rest

-- What `strspn` and `strcspn` do with the result of `strchr`: `found` unless it is NULL.
abbrev pub if_found : Option ℕ → (found other : Option ℕ) → Option ℕ
if_found none found other = none
if_found (some r) found other = if r == 0 then other else found

-- The loops of `strspn` and `strcspn`, with `ret` counted so far
unfoldable pub span_from : Memory → (s1 s2 bound ret fuel : ℕ) → Option ℕ
span_from m p q bound ret zero = none
span_from m p q bound ret (suc n) =
    let rest = span_from m (suc p) q bound ((ret + 1) % 2 ^ 32) n in
    if m p == 0 then some ret else if_found (strchr m q (as_int (m p)) bound) rest (some ret)

unfoldable pub strspn : Memory → (s1 s2 fuel : ℕ) → Option ℕ
unfolding span_from
strspn m s1 s2 fuel = span_from m s1 s2 fuel 0 fuel

unfoldable pub cspan_from : Memory → (s1 s2 bound ret fuel : ℕ) → Option ℕ
cspan_from m p q bound ret zero = none
cspan_from m p q bound ret (suc n) =
    let rest = cspan_from m (suc p) q bound ((ret + 1) % 2 ^ 32) n in
    if m p == 0 then some ret else if_found (strchr m q (as_int (m p)) bound) (some ret) rest

unfoldable pub strcspn : Memory → (s1 s2 fuel : ℕ) → Option ℕ
unfolding cspan_from
strcspn m s1 s2 fuel = cspan_from m s1 s2 fuel 0 fuel

-- The end of `strtok`: the token from `s1` to `i`, what memory holds then, and the new static `i`.
unfoldable pub cut : Memory → (s1 i : ℕ) → ℕ × Memory × ℕ
cut m s1 i =
    if i == s1 then (0, m, 0) else if m i == 0 then (s1, m, 0) else (s1, update m i 0, i + 1)

-- `strtok`, with the static `i` as `saved`: the token or NULL, the memory and the new `saved`.
unfoldable pub strtok : Memory → (saved s1 s2 fuel : ℕ) → Option (ℕ × Memory × ℕ)
strtok m saved s1 s2 fuel =
    let i = if s1 == 0 then saved else s1 in
    let token : Option (ℕ × Memory × ℕ) = do
      skipped ← strspn m i s2 fuel
      taken ← strcspn m (i + skipped) s2 fuel
      some (cut m (i + skipped) (i + skipped + taken))
    in if i == 0 then some (0, m, 0) else token

-- The loop of `strstr` from the address `p` on, with `n` places to try.
unfoldable pub search_from : Memory → (p s2 size n : ℕ) → ℕ
search_from m p s2 size zero = 0
search_from m p s2 size (suc n) =
    let rest = search_from m (suc p) s2 size n in if memcmp m p s2 size == 0 then p else rest

unfoldable pub strstr : Memory → (s1 s2 fuel : ℕ) → Option ℕ
strstr m s1 s2 fuel = do
  n1 ← strlen m s1 fuel
  n2 ← strlen m s2 fuel
  some (if ltb n1 n2 then 0 else search_from m s1 s2 n2 ((n1 - n2 + 1) % 2 ^ 32))

-- The loop of `memset` from `i` on, with `n` rounds to go.
unfoldable pub fill : Memory → (s c i n : ℕ) → Memory
fill m s c i zero = m
fill m s c i (suc n) = fill (update m (s + i) c) s c (suc i) n

unfoldable pub memset : Memory → (s c n : ℕ) → Memory
memset m s c n = fill m s (c % 2 ^ 8) 0 n
