-- ===== src/Libk/Search.antt =====
-- strstr, itoa and atoi of libk/string.c. An `int` is its 32-bit word; a loop that has used up its fuel
-- is `none`.
pub mod First
pub mod Numbers
use hydrangea.Prelude.{
  ℕ, zero, suc, ◌+◌, ◌-◌, ◌*◌, ◌/◌, ◌%◌, ◌^◌, Option, none, some, ltb, ◌==◌, if◌then◌else◌, update,
}
use hydrangea.Libk.Bytes.{Memory, memcmp}
use hydrangea.Libk.Str.{strlen}

-- The loop of `strstr` from the address `p` on, with `n` places to try.
unfoldable pub search_from : Memory → (p str2 size n : ℕ) → ℕ
search_from m p str2 size zero = 0
search_from m p str2 size (suc n) =
    let rest = search_from m (suc p) str2 size n in if memcmp m p str2 size == 0 then p else rest

unfoldable pub strstr : Memory → (str1 str2 fuel : ℕ) → Option ℕ
strstr m str1 str2 fuel = elim (strlen m str1 fuel) [
  | none ↦ none
  | some n1 ↦ elim (strlen m str2 fuel) [
    | none ↦ none
    | some n2 ↦ some (if ltb n1 n2 then 0 else search_from m str1 str2 n2 ((n1 - n2 + 1) % 2 ^ 32))
  ]
]

-- A digit as `itoa` writes it.
abbrev pub digit_char : ℕ → ℕ
digit_char d = if ltb d 10 then d + 48 else d + 97 - 10

-- The first loop of `itoa`, of a value that is not negative, at the index `i`: the memory and the index
-- behind the digits.
unfoldable pub write_digits : Memory → (value result base i fuel : ℕ) → Option (Memory × ℕ)
write_digits m value result base i zero = none
write_digits m value result base i (suc n) =
    let m = update m (result + i) (digit_char (value % base)) in
    let rest = write_digits m (value / base) result base (suc i) n in
    if value / base == 0 then some (m, suc i) else rest

-- The last loop of `itoa`, which swaps the bytes from `j` up and `i` down.
unfoldable pub swap_from : Memory → (result j i fuel : ℕ) → Option Memory
swap_from m result j i zero = none
swap_from m result j i (suc n) =
    let m' = update (update m (result + j) (m (result + i))) (result + i) (m (result + j)) in
    let rest = swap_from m' result (suc j) (i - 1) n in if ltb j i then rest else some m

-- `itoa` of a value below 2^31, for a base from 2 on.
unfoldable pub itoa : Memory → (value result base fuel : ℕ) → Option Memory
itoa m value result base fuel = elim (write_digits m value result base 0 fuel) [
  | none ↦ none
  | some (m, i) ↦ swap_from (update m (result + i) 0) result 0 (i - 1) fuel
]

-- The last loop of `atoi`
unfoldable pub read_digits : Memory → (str result fuel : ℕ) → Option ℕ
read_digits m p result zero = none
read_digits m p result (suc n) =
    let d = (m p + 2 ^ 16 - 48) % 2 ^ 16 in
    let rest = read_digits m (suc p) ((10 * result + d) % 2 ^ 32) n in
    if ltb 9 d then some result else rest

-- The blanks in front
unfoldable pub skip_blanks : Memory → (str fuel : ℕ) → Option ℕ
skip_blanks m p zero = none
skip_blanks m p (suc n) = let rest = skip_blanks m (suc p) n in if m p == 32 then rest else some p

-- `atoi`; bytes are below 128.
unfoldable pub atoi : Memory → (str fuel : ℕ) → Option ℕ
atoi m str fuel = elim (skip_blanks m str fuel) [
  | none ↦ none
  | some p ↦
      elim (read_digits m (if m p == 45 then suc p else if m p == 43 then suc p else p) 0 fuel) [
        | none ↦ none
        | some r ↦ some (if m p == 45 then (2 ^ 32 - r) % 2 ^ 32 else r)
      ]
]
