-- ===== src/Ds/Bst/Removal.antt =====
-- `BST_remove` of BST.c: right where the node found has no children, and what it does to the tree
-- where the node has one child or two.
use mathlib.Core.Path.{subst}
use hydrangea.Prelude.{
  ℕ, ◌<◌, ◌≡◌, refl, inl, inr, ap, sym, ◌∙◌, true, false, not, ◌||◌, ◌&&◌, arith, ◌==◌,
}
use hydrangea.Ds.Comparator.{Comparator, Ranks}
use hydrangea.Ds.Bst.{Tree, leaf, node, is_leaf, single, leftmost, unlink, bst_remove, bst_find}
use hydrangea.Ds.Bst.Order.{
  AllKeys, IsSearch, has, trichotomy, find_above, find_below, find_same, not_has_above,
  not_has_below,
}

abbrev left_of : Tree → Tree
left_of leaf = leaf
left_of (node l k r) = l

abbrev right_of : Tree → Tree
right_of leaf = leaf
right_of (node l k r) = r

module _ {cmp : Comparator} {rank : ℕ → ℕ} (r : Ranks cmp rank) where
  remove_above :
      (a : Tree) (k : ℕ) (b : Tree) (key : ℕ)
      → rank k < rank key
      → bst_remove (node a k b) key cmp ≡ node a k (bst_remove b key cmp)
  unfolding bst_remove
  remove_above a k leaf key h = rw (r.above_of_lt key k h)
  remove_above a k (node c k' d) key h = rw (r.above_of_lt key k h)

  remove_below :
      (a : Tree) (k : ℕ) (b : Tree) (key : ℕ)
      → rank key < rank k
      → bst_remove (node a k b) key cmp ≡ node (bst_remove a key cmp) k b
  unfolding bst_remove
  remove_below leaf k b key h = rw (r.below_of_lt key k h)
  remove_below (node c k' d) k b key h = rw (r.below_of_lt key k h)

  remove_same :
      (a : Tree) (k : ℕ) (b : Tree) (key : ℕ)
      → rank key ≡ rank k
      → bst_remove (node a k b) key cmp ≡ unlink a k b (bst_remove b key cmp)
  unfolding bst_remove
  remove_same a k b key h = rw (r.same_of_eq key k h)

  -- Removing a key that is not in a search tree changes nothing.
  pub bst_remove_absent :
      (t : Tree) (key : ℕ)
      → IsSearch rank t
      → has rank (rank key) t ≡ false
      → bst_remove t key cmp ≡ t
  unfolding bst_remove
  bst_remove_absent leaf key s h = refl
  bst_remove_absent (node a k b) key (la, gb, sa, sb) h = elim (trichotomy (rank k) (rank key)) [
    | inl lt ↦ remove_above a k b key lt ∙ ap (node a k) (bst_remove_absent b key sb (ground arith))
    | inr (inl gt) ↦
        remove_below a k b key gt ∙ ap (λ t. node t k b) (bst_remove_absent a key sa (ground arith))
    | inr (inr eq) ↦ absurd (ground arith)
  ]

  AllKeys-leftmost : (P : ℕ → Type 0) (t : Tree) (k : ℕ) → P k → AllKeys P t → P (leftmost t k)
  AllKeys-leftmost P leaf k p all = p
  AllKeys-leftmost P (node a k' b) k p (pk, pa, pb) = AllKeys-leftmost P a k' pk pa

  AllKeys-unlink :
      (P : ℕ → Type 0) (a : Tree) (k : ℕ) (b rest : Tree)
      → P k
      → AllKeys P a
      → AllKeys P b
      → AllKeys P rest
      → AllKeys P (unlink a k b rest)
  unfolding unlink
  AllKeys-unlink P leaf k leaf rest p pa pb pr = tt
  AllKeys-unlink P leaf k (node c k' d) rest p pa pb pr = tt
  AllKeys-unlink P (node c k' d) k leaf rest p pa pb pr = tt
  AllKeys-unlink P (node c k' d) k (node e k'' f) rest p pa (q, qe, qf) pr =
      (AllKeys-leftmost P e k'' q qe, pa, pr)

  AllKeys-bst_remove :
      (P : ℕ → Type 0) (t : Tree) (key : ℕ) → AllKeys P t → AllKeys P (bst_remove t key cmp)
  unfolding bst_remove
  AllKeys-bst_remove P leaf key all = tt
  AllKeys-bst_remove P (node a k b) key (pk, pa, pb) = elim (trichotomy (rank k) (rank key)) [
    | inl lt ↦ rw (remove_above a k b key lt) (pk, pa, AllKeys-bst_remove P b key pb)
    | inr (inl gt) ↦ rw (remove_below a k b key gt) (pk, AllKeys-bst_remove P a key pa, pb)
    | inr (inr eq) ↦
        rw (remove_same a k b key (sym eq))
          (AllKeys-unlink P a k b (bst_remove b key cmp) pk pa pb (AllKeys-bst_remove P b key pb))
  ]

  leaf_not_single : (key k : ℕ) → bst_find leaf key cmp ≡ single k → ⊥
  unfolding bst_find
  leaf_not_single key k f = cc

  -- In a search tree whose node for the key has no children, `BST_remove` keeps the search order and
  -- takes out exactly the key's rank.
  pub bst_remove_childless :
      (t : Tree) (key k : ℕ)
      → IsSearch rank t
      → bst_find t key cmp ≡ single k
      → IsSearch rank (bst_remove t key cmp)
        × ((n : ℕ) → has rank n (bst_remove t key cmp) ≡ (not (rank key == n) && has rank n t))
  unfolding unlink
  bst_remove_childless leaf key k s f = absurd (leaf_not_single key k f)
  bst_remove_childless (node a k' b) key k (la, gb, sa, sb) f =
      elim (trichotomy (rank k') (rank key)) [
        | inl lt ↦
            let (ordered, keys) =
              bst_remove_childless b key k sb (sym (find_above r a k' b key lt) ∙ f) in
            rw (remove_above a k' b key lt) (
              (la, AllKeys-bst_remove (λ x. rank k' < rank x) b key gb, sa, ordered),
              λ n. ground (arith, keys n, not_has_above r n (rank k') a),
            )
        | inr (inl gt) ↦
            let (ordered, keys) =
              bst_remove_childless a key k sa (sym (find_below r a k' b key gt) ∙ f) in
            rw (remove_below a k' b key gt) (
              (AllKeys-bst_remove (λ x. rank x < rank k') a key la, gb, ordered, sb),
              λ n. ground (arith, keys n, not_has_below r n (rank k') b),
            )
        | inr (inr eq) ↦
            let e = sym (find_same r a k' b key (sym eq)) ∙ f in
            rw (ap left_of e, ap right_of e)
              (rw (remove_same leaf k' leaf key (sym eq)) (tt, λ n. ground arith))
      ]

  -- Where the node found has one child at most, `BST_remove` returns NULL in its place: the child and
  -- all keys below it are lost.
  pub bst_remove_one_child :
      (a : Tree) (k : ℕ) (b : Tree) (key : ℕ)
      → rank key ≡ rank k
      → (is_leaf a || is_leaf b) ≡ true
      → bst_remove (node a k b) key cmp ≡ leaf
  unfolding unlink
  bst_remove_one_child leaf k leaf key e h = remove_same leaf k leaf key e
  bst_remove_one_child leaf k (node c k' d) key e h = remove_same leaf k (node c k' d) key e
  bst_remove_one_child (node c k' d) k leaf key e h = remove_same (node c k' d) k leaf key e
  bst_remove_one_child (node c k' d) k (node c' k'' d') key e h = cc

  repeated_key :
      (a c : Tree) (k' : ℕ) (d : Tree) → IsSearch rank (node a (leftmost c k') (node c k' d)) → ⊥
  repeated_key a c k' d (la, (first, left, right), sa, sb) =
      let smallest : rank (leftmost c k') < rank (leftmost c k') =
        AllKeys-leftmost (λ x. rank (leftmost c k') < rank x) c k' first left in
      omega (arith, smallest)

  two_children :
      (a : Tree) (k : ℕ) (c : Tree) (k' : ℕ) (d : Tree) (key : ℕ)
      → IsSearch rank (node a k (node c k' d))
      → rank key ≡ rank k
      → is_leaf a ≡ false
      → bst_remove (node a k (node c k' d)) key cmp ≡ node a (leftmost c k') (node c k' d)
  unfolding unlink
  two_children leaf k c k' d key s e ne = cc
  two_children (node f m g) k c k' d key (la, gb, sa, sb) e ne =
      let absent = not_has_below r (rank key) (rank k) (node c k' d) (omega arith) gb in
      remove_same (node f m g) k (node c k' d) key e
      ∙ ap (node (node f m g) (leftmost c k')) (bst_remove_absent (node c k' d) key sb absent)

  -- Where the node found has two children, `BST_remove` writes the successor's key into it and leaves
  -- the successor's node in place, so that the tree is no search tree any more.
  pub bst_remove_two_children :
      (a : Tree) (k : ℕ) (c : Tree) (k' : ℕ) (d : Tree) (key : ℕ)
      → IsSearch rank (node a k (node c k' d))
      → rank key ≡ rank k
      → is_leaf a ≡ false
      → (bst_remove (node a k (node c k' d)) key cmp ≡ node a (leftmost c k') (node c k' d))
        × ¬ IsSearch rank (bst_remove (node a k (node c k' d)) key cmp)
  bst_remove_two_children a k c k' d key s e ne =
      let root = two_children a k c k' d key s e ne in
      (root, subst (λ t. ¬ IsSearch rank t) (sym root) (λ s'. repeated_key a c k' d s'))
