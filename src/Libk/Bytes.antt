-- ===== src/Libk/Bytes.antt =====
-- memcmp, memcpy, memmove and memset of libk/string.c. Memory is a function from addresses to bytes,
-- and a pointer is an address; no object reaches the end of the address space. An `int` is its 32-bit
-- word, so that -1 is 2^32 - 1.
pub mod Laws
use hydrangea.Prelude.{
  ℕ, zero, suc, ◌+◌, ◌-◌, ◌%◌, ◌^◌, Bool, true, false, ltb, if◌then◌else◌, update,
}

abbrev pub Memory : Type 0
Memory = ℕ → ℕ

-- the `int` -1
abbrev pub minus_one : ℕ
minus_one = 2 ^ 32 - 1

-- `memcmp`
unfoldable pub memcmp : Memory → (ptr1 ptr2 size : ℕ) → ℕ
memcmp m p1 p2 zero = 0
memcmp m p1 p2 (suc n) =
    let rest = memcmp m (suc p1) (suc p2) n in
    if ltb (m p1) (m p2) then minus_one else if ltb (m p2) (m p1) then 1 else rest

-- `memcpy`
unfoldable pub memcpy : Memory → (dest src size : ℕ) → Memory
memcpy m d s zero = m
memcpy m d s (suc n) = memcpy (update m d (m s)) (suc d) (suc s) n

-- The upward loop of `memmove` from `i` on, with `n` rounds to go.
pub copy_up : Memory → (d s i n : ℕ) → Memory
copy_up m d s i zero = m
copy_up m d s i (suc n) = copy_up (update m (d + i) (m (s + i))) d s (suc i) n

-- The downward loop of `memmove`, from `i` on.
pub copy_down : Memory → (d s i : ℕ) → Memory
copy_down m d s zero = m
copy_down m d s (suc i) = copy_down (update m (d + i) (m (s + i))) d s i

pub memmove : Memory → (dest src size : ℕ) → Memory
unfolding copy_up copy_down
memmove m dest src size =
    if ltb dest src then copy_up m dest src 0 size else copy_down m dest src size

-- The loop of `memset` from `i` on, with `n` rounds to go.
pub fill : Memory → (dest value i n : ℕ) → Memory
fill m dest value i zero = m
fill m dest value i (suc n) = fill (update m (dest + i) value) dest value (suc i) n

-- `memset`; a negative `n`, which as a word is 2^31 or more, fills nothing.
pub memset : Memory → (dest value n : ℕ) → Memory
unfolding fill
memset m dest value n = if ltb n (2 ^ 31) then fill m dest (value % 2 ^ 8) 0 n else m
