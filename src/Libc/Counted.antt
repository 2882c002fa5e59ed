-- ===== src/Libc/Counted.antt =====
-- strncpy, strncat, strncmp, memchr, strpbrk and strrchr of libc/string/string.c. A `size_t` that is
-- counted down is a 32-bit word; a loop that has used up its fuel is `none`.
use hydrangea.Prelude.{
  ℕ, zero, suc, ◌+◌, ◌-◌, ◌%◌, ◌^◌, Bool, true, false, Option, none, some, ◌==◌, ◌||◌,
  if◌then◌else◌, update, ◌>>=◌,
}
use hydrangea.Libk.Bytes.{Memory}
use hydrangea.Libc.Strings.{as_int}

-- `--n`
abbrev pub dec : ℕ → ℕ
dec n = (n + 2 ^ 32 - 1) % 2 ^ 32

-- `while (--n) *d++ = 0`
unfoldable pub pad : Memory → (d n fuel : ℕ) → Option Memory
pad m d n zero = none
pad m d n (suc f) =
    let rest = pad (update m d 0) (suc d) (dec n) f in if dec n == 0 then some m else rest

unfoldable pub strncpy : Memory → (s1 s2 n fuel : ℕ) → Option Memory
strncpy m d s n zero = none
strncpy m d s n (suc f) =
    let m' = update m d (m s) in
    let padded = pad m' (suc d) n f in
    let rest = strncpy m' (suc d) (suc s) (dec n) f in
    if m s == 0 then padded else if dec n == 0 then some m' else rest

-- The loop of `strncat`: the memory, and where the terminator goes.
unfoldable pub append_from : Memory → (d s n fuel : ℕ) → Option (Memory × ℕ)
append_from m d s n zero = none
append_from m d s n (suc f) =
    let m' = update m d (m s) in
    let rest = append_from m' (suc d) (suc s) (dec n) f in
    if m s == 0 then some (m', d) else if dec n == 0 then some (m', suc d) else rest

-- `while (*d != 0) d++`
unfoldable pub string_end : Memory → (d fuel : ℕ) → Option ℕ
string_end m d zero = none
string_end m d (suc f) = let rest = string_end m (suc d) f in if m d == 0 then some d else rest

unfoldable pub strncat : Memory → (s1 s2 n fuel : ℕ) → Option Memory
strncat m s1 s2 n fuel = do
  d ← string_end m s1 fuel
  (m', last) ← append_from m d s2 n fuel
  some (update m' last 0)

-- `strncmp` from the addresses on, with `n` characters left
unfoldable pub strncmp : Memory → (s1 s2 n : ℕ) → ℕ
strncmp m a b zero = 0
strncmp m a b (suc n) =
    let rest = strncmp m (suc a) (suc b) n in
    if m a == 0 || m b == 0 then 0 else if m a == m b then rest else 1

unfoldable pub memchr : Memory → (s c n fuel : ℕ) → Option ℕ
memchr m p c n zero = none
memchr m p c n (suc f) =
    let rest = memchr m (suc p) c (dec n) f in
    if as_int (m p) == c then some p else if dec n == 0 then some 0 else rest

-- The inner loop of `strpbrk`: whether the character `c` is in the string at `p`.
unfoldable pub is_one_of : Memory → (p c fuel : ℕ) → Option Bool
is_one_of m p c zero = none
is_one_of m p c (suc f) =
    let rest = is_one_of m (suc p) c f in
    if m p == 0 then some false else if m p == c then some true else rest

unfoldable pub strpbrk : Memory → (s1 s2 bound fuel : ℕ) → Option ℕ
strpbrk m p q bound zero = none
strpbrk m p q bound (suc f) =
    let rest = strpbrk m (suc p) q bound f in
    let here : Option ℕ = do found ← is_one_of m q (m p) bound; if found then some p else rest
    in if m p == 0 then some 0 else here

-- The loop of `strrchr` at the index `i`
unfoldable pub last_from : Memory → (s c ret i fuel : ℕ) → Option ℕ
last_from m s c ret i zero = none
last_from m s c ret i (suc f) =
    let rest = last_from m s c (if as_int (m (s + i)) == c then s + i else ret) (suc i) f in
    if m (s + i) == 0 then some ret else rest

unfoldable pub strrchr : Memory → (s c fuel : ℕ) → Option ℕ
strrchr m s c fuel = last_from m s c 0 0 fuel
