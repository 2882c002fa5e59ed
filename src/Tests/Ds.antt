-- ===== src/Tests/Ds.antt =====
-- The arrays and the tree of kernel/ds at small inputs.
use mathlib.Core.Option.{some-injective}
use hydrangea.Prelude.{
  ℕ, ◌-◌, ◌<◌, ◌≡◌, refl, List, [], ◌∷◌, ◌++◌, ◌||◌, arith, take, Option, some, zero, suc, length,
  length-append, ap, ◌==◌, if◌then◌else◌,
}
use hydrangea.Ds.Comparator.{default_comparator, default_comparator-Ranks}
use hydrangea.Ds.DynList.Laws.{Grows, list_push-append}
use hydrangea.Ds.DynList.{DynList, list_push, list_get}
use hydrangea.Ds.DynList.Laws
use hydrangea.Ds.OrderedList.{OrderedList, ol_insert}
use hydrangea.Ds.OrderedList.Insert.{elements, insert, ol_insert-insert}
use hydrangea.Ds.Bst.{Tree, leaf, node, single, bst_add, bst_find}
use hydrangea.Ds.Bst.Order.{IsSearch, has, bst_add-IsSearch}

abbrev rank : ℕ → ℕ
rank x = x

-- 5 and 6 in an array of two words, full
abbrev pair : DynList
pair = record { items = 5 ∷ 6 ∷ []; used = 2; size = 2 }

-- An allocator that fills up with zeros.
abbrev pad : ℕ → List ℕ
pad zero = []
pad (suc n) = 0 ∷ pad n

abbrev grow_by_zeros : List ℕ → ℕ → Option (List ℕ)
grow_by_zeros items n = some (items ++ pad (n - length items))

length-pad : (n : ℕ) → length (pad n) ≡ n
length-pad zero = refl
length-pad (suc n) = ap suc (length-pad n)

take_front : (xs ys : List ℕ) → take (length xs) (xs ++ ys) ≡ xs
take_front [] ys = refl
take_front (x ∷ xs) ys = ap (λ l. x ∷ l) (take_front xs ys)

grow_by_zeros-Grows : Grows grow_by_zeros
grow_by_zeros-Grows = record {
  keeps = λ items bigger n got le.
      let e = some-injective _ _ got in
      (
        rw (← e) (
            omega
              (arith, length-append items (pad (n - length items)), length-pad (n - length items))),
        rw (← e) (take_front items (pad (n - length items))),
      );
}

pair-IsValid : Laws.IsValid pair
pair-IsValid = omega arith

abbrev grown : DynList
grown = record { items = 5 ∷ 6 ∷ 7 ∷ 0 ∷ []; used = 3; size = 4 }

-- The third push doubles the array.
push_grows : list_push grow_by_zeros pair 7 ≡ some (2, grown)
unfolding list_push
push_grows = refl

list_push-append_example :
    (2 ≡ pair.used) × (take 3 grown.items ≡ 5 ∷ 6 ∷ 7 ∷ []) × Laws.IsValid grown
list_push-append_example =
    list_push-append grow_by_zeros pair grown 7 2 grow_by_zeros-Grows pair-IsValid (omega arith)
      push_grows

-- Just behind a full array `list_get` reads what memory holds there.
get_behind : list_get (λ i. 99) pair 2 ≡ 99
unfolding list_get
get_behind = refl

-- 3 and 8 in order
abbrev sorted_pair : OrderedList
sorted_pair = record { items = λ i. if i == 0 then 3 else 8; size = 2; max_size = 4 }

ol_insert-insert_example :
    let ol = ol_insert sorted_pair 5 default_comparator in
    (elements ol ≡ insert default_comparator 5 (3 ∷ 8 ∷ []))
    × (ol.size ≡ 3)
    × ((j : ℕ) → 2 < j → ol.items j ≡ sorted_pair.items j)
ol_insert-insert_example = ol_insert-insert sorted_pair 5 default_comparator (omega arith)

-- 4 below 5, and 8 with 7 to its left
abbrev tree : Tree
tree = node (single 4) 5 (node (single 7) 8 leaf)

tree-IsSearch : IsSearch rank tree
tree-IsSearch = omega arith

bst_add-IsSearch_example :
    IsSearch rank (bst_add tree 6 default_comparator)
    × ((n : ℕ) → has rank n (bst_add tree 6 default_comparator) ≡ ((6 == n) || has rank n tree))
bst_add-IsSearch_example = bst_add-IsSearch default_comparator-Ranks tree 6 refl tree-IsSearch

found_single : bst_find tree 7 default_comparator ≡ single 7
unfolding bst_find default_comparator
found_single = refl
