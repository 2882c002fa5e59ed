-- ===== src/Ds/OrderedList.antt =====
-- kernel/ds/ordered_list.c: an array of pointers kept in the comparator's order. `items` is the memory
-- from the array's address on, word by word: the code checks no index against `max_size`.
pub mod Insert
pub mod Remove
use hydrangea.Prelude.{
  ℕ, zero, suc, ◌+◌, ◌-◌, ◌%◌, ◌^◌, Bool, true, false, ◌&&◌, ltb, leb, ◌==◌, if◌then◌else◌, update,
}
use hydrangea.Ds.Comparator.{Comparator, above}

-- `ordered_list_t`
pub record OrderedList : Type 0 where
  pub items : ℕ → ℕ
  pub size : ℕ
  pub max_size : ℕ

-- `memset(items, 0, max_size * sizeof(void *))`
abbrev pub cleared : (ℕ → ℕ) → ℕ → ℕ → ℕ
cleared memory max_size i = if ltb i max_size then 0 else memory i

-- `ol_create`; `memory` is what lies from the address on that `pmalloc` returns.
unfoldable pub ol_create : (memory : ℕ → ℕ) (max_size : ℕ) → OrderedList
ol_create memory max_size = record {
  items = cleared memory max_size;
  size = 0;
  max_size = max_size;
}

-- `ol_place_at`; `memory` is what lies from `addr` on.
unfoldable pub ol_place_at : (memory : ℕ → ℕ) (max_size : ℕ) → OrderedList
ol_place_at memory max_size = record {
  items = cleared memory max_size;
  size = 0;
  max_size = max_size;
}

-- The first loop of `ol_insert` from `i` on. `size - i` rounds suffice: at `i == size` the test fails.
pub find_slot : Comparator → (item : ℕ) → (items : ℕ → ℕ) → (size i rounds : ℕ) → ℕ
find_slot cmp item items size i zero = i
find_slot cmp item items size i (suc n) = elim ((cmp item (items i) == above) && ltb i size) [
  | true ↦ find_slot cmp item items size (suc i) n
  | false ↦ i
]

-- The second loop: the items behind `i` move up by one, with `tmp` going in first.
pub shift_up : (items : ℕ → ℕ) → (tmp i rounds : ℕ) → ℕ → ℕ
shift_up items tmp i zero = items
shift_up items tmp i (suc n) = shift_up (update items (suc i) tmp) (items (suc i)) (suc i) n

unfoldable pub ol_insert : OrderedList → ℕ → Comparator → OrderedList
unfolding find_slot shift_up
ol_insert ol item cmp =
    let i = find_slot cmp item ol.items ol.size 0 ol.size in
    let size = (ol.size + 1) % 2 ^ 32 in
    if i == ol.size
    then record ol { items = update ol.items ol.size item; size = size }
    else record ol {
      items = shift_up (update ol.items i item) (ol.items i) i (ol.size - i);
      size = size;
    }

-- `ol_find`, NULL for an index out of range
unfoldable pub ol_find : OrderedList → ℕ → ℕ
ol_find ol index = if leb ol.size index then 0 else ol.items index

-- The loop of `ol_remove`
pub shift_down : (items : ℕ → ℕ) → (index rounds : ℕ) → ℕ → ℕ
shift_down items index zero = items
shift_down items index (suc n) = shift_down (update items index (items (suc index))) (suc index) n

unfoldable pub ol_remove : OrderedList → ℕ → OrderedList
unfolding shift_down
ol_remove ol index = record ol {
  items = shift_down ol.items index (ol.size - index);
  size = (ol.size + 2 ^ 32 - 1) % 2 ^ 32;
}
