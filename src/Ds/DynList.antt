-- ===== src/Ds/DynList.antt =====
-- kernel/ds/list.c: a growing array of pointers. `items` are the words of the array that `data`
-- points to; `beyond i` is what memory holds `i` words behind its end, which the code reads where its
-- index checks let it. `grow items n` is `krealloc` to `n` words: `none` is its NULL.

pub mod Laws
pub mod Delete
use hydrangea.Prelude.{
  ℕ, zero, suc, ◌+◌, ◌-◌, ◌*◌, ◌%◌, ◌^◌, Bool, true, false, Option, none, some, List, [], ◌∷◌, ltb,
  ◌==◌, if◌then◌else◌, get_or, set, length,
}

-- `list_t`; an element is a pointer, 0 for NULL.
pub record DynList : Type 0 where
  pub items : List ℕ
  pub used : ℕ
  pub size : ℕ

-- `list_init`: `block` is what `kmalloc(size * sizeof(void *))` returns.
unfoldable pub list_init : (block : List ℕ) (size : ℕ) → DynList
list_init block size = record { items = block; used = 0; size = size }

-- `make_list`
unfoldable pub make_list : (block : List ℕ) (size : ℕ) → DynList
unfolding list_init
make_list block size = list_init block size

-- The store at the end of `list_push`, and the index that it returns.
pub append_item : DynList → ℕ → ℕ × DynList
append_item l element =
    (l.used, record l { items = set l.items l.used element; used = (l.used + 1) % 2 ^ 32 })

abbrev pub Grow : Type 0
Grow = List ℕ → ℕ → Option (List ℕ)

-- `list_push`; `none` is the write through the NULL that a failed `krealloc` leaves.
unfoldable pub list_push : Grow → DynList → ℕ → Option (ℕ × DynList)
unfolding append_item
list_push grow l element =
    let size = l.size * 2 % 2 ^ 32 in
    if l.used == l.size
    then elim (grow l.items size) [
      | none ↦ none
      | some items ↦ some (append_item (record l { items = items; size = size }) element)
    ]
    else some (append_item l element)

module _ (beyond : ℕ → ℕ) where
  -- `data[i]`
  abbrev pub read_word : List ℕ → ℕ → ℕ
  read_word items i = if ltb i (length items) then get_or items i 0 else beyond (i - length items)

  -- The loop of `list_delete` from `i` on, with `n` rounds to go.
  pub shift_down : List ℕ → (i n : ℕ) → List ℕ
  shift_down items i zero = items
  shift_down items i (suc n) = shift_down (set items i (read_word items (suc i))) (suc i) n

  -- `list_delete`: the status, 1 for an index out of range.
  unfoldable pub list_delete : DynList → ℕ → ℕ × DynList
  unfolding shift_down
  list_delete l index = if ltb l.used index then (1, l) else (
    0,
    record l {
      items = shift_down l.items index (l.used - index);
      used = (l.used + 2 ^ 32 - 1) % 2 ^ 32;
    },
  )

  -- `list_get`
  unfoldable pub list_get : DynList → ℕ → ℕ
  list_get l index = if ltb l.used index then 0 else read_word l.items index
