-- ===== src/Fs/Descriptors/Shift.antt =====
-- What closing a file does to the descriptors of the others.
use hydrangea.Prelude.{
  ℕ, zero, suc, ◌-◌, ◌≤◌, ◌<◌, ◌≡◌, refl, ap, sym, ◌∙◌, arith, List, [], ◌∷◌, ◌++◌, length, take,
  drop, get_or, le→not_ltb, lt→ltb, length-take,
}
use hydrangea.Ds.DynList.{DynList, Grow, list_get, list_delete}
use hydrangea.Ds.DynList.Laws.{IsValid, elements}
use hydrangea.Ds.DynList.Delete.{list_delete-drop}
use hydrangea.Fs.Descriptors.{
  OpenFiles, gft_entry, gft_dec_ref_count, gft_get_ref_count, gft_delete, fd_close, fd_to_node,
}

get_or-take : (xs : List ℕ) (n i : ℕ) → i < n → get_or (take n xs) i 0 ≡ get_or xs i 0
get_or-take xs zero i h = absurd (omega arith)
get_or-take [] (suc n) i h = refl
get_or-take (x ∷ xs) (suc n) zero h = refl
get_or-take (x ∷ xs) (suc n) (suc i) h = get_or-take xs n i (omega arith)

-- Behind an element that is taken out, the next ones move up.
get_or-without :
    (xs : List ℕ) (i j : ℕ)
    → i ≤ j
    → i < length xs
    → get_or (take i xs ++ drop (suc i) xs) j 0 ≡ get_or xs (suc j) 0
get_or-without [] i j h l = absurd (omega (arith, l))
get_or-without (x ∷ xs) zero j h l = refl
get_or-without (x ∷ xs) (suc i) zero h l = absurd (omega arith)
get_or-without (x ∷ xs) (suc i) (suc j) h l = get_or-without xs i j (omega arith) (omega arith)

list_get-elements :
    (beyond : ℕ → ℕ) (l : DynList) (i : ℕ)
    → IsValid l
    → i < l.used
    → list_get beyond l i ≡ get_or (elements l) i 0
unfolding list_get
list_get-elements beyond l i v h =
    let inside = le→not_ltb l.used i (omega arith) in
    let stored = lt→ltb i (length l.items) (omega (arith, v.storage, v.used_le)) in
    rw (inside, stored) (sym (get_or-take l.items l.used i h))

used-list_delete :
    (beyond : ℕ → ℕ) (l : DynList) (i : ℕ)
    → IsValid l
    → i < l.used
    → (list_delete beyond l i).1.used ≡ l.used - 1
unfolding list_delete
used-list_delete beyond l i v h =
    let inside = le→not_ltb l.used i (omega arith) in
    rw inside (omega (arith, v.used_le, v.size_small))

-- Deleting the element at `i` makes the element at `j + 1` the one at `j`, for `j` from `i` on.
list_get-list_delete :
    (beyond : ℕ → ℕ) (l : DynList) (i j : ℕ)
    → IsValid l
    → i ≤ j
    → suc j < l.used
    → list_get beyond (list_delete beyond l i).1 j ≡ list_get beyond l (suc j)
list_get-list_delete beyond l i j v h inside =
    let (_, rest, v') = list_delete-drop beyond l i v (omega arith) in
    let size : length (elements l) ≡ l.used =
      omega (arith, length-take l.used l.items, v.storage, v.used_le) in
    let fewer = used-list_delete beyond l i v (omega arith) in
    list_get-elements beyond (list_delete beyond l i).1 j v' (omega (arith, fewer))
    ∙ ap (λ xs. get_or xs j 0) rest
    ∙ get_or-without (elements l) i j h (omega (arith, size))
    ∙ sym (list_get-elements beyond l (suc j) v inside)

module _ (beyond : ℕ → ℕ) (grow : Grow) (kmalloc : ℕ → ℕ) where
  -- Closing the only descriptor of a file takes the file's entry out of the global table and moves the
  -- entries behind it up by one, but the other descriptors keep their index: a descriptor of an entry
  -- further on, that is not the last one, then leads to the file of the entry behind its own.
  pub fd_close-fd_to_node :
      (s : OpenFiles) (fd other : ℕ)
      → IsValid s.gft
      → let i = (s.descriptors fd).gft_index in
        let j = (s.descriptors other).gft_index in
        (s.entries (gft_entry beyond s i)).ref_count ≡ 1
        → i < j
        → suc j < s.gft.used
        → fd_to_node beyond grow kmalloc (fd_close beyond grow kmalloc s fd).1 other
          ≡ (s.entries (gft_entry beyond s (suc j))).node
  unfolding fd_close gft_dec_ref_count gft_get_ref_count gft_delete fd_to_node
  fd_close-fd_to_node s fd other v once before inside =
      let i = (s.descriptors fd).gft_index in
      let j = (s.descriptors other).gft_index in
      let moved = list_get-list_delete beyond s.gft i j v (omega arith) inside in
      ground (arith, moved, once)
