-- ===== src/Ds/Bst/Order.antt =====
-- The search order of BST.c: adding keeps it, and finding decides which keys are in the tree.
use native.Mathlib.Decide.{dec_lt}
use hydrangea.Prelude.{
  ℕ, ◌≤◌, ◌<◌, ◌≡◌, refl, ◌⊎◌, inl, inr, sym, ◌∙◌, Bool, false, not, ◌||◌, arith, ◌==◌,
  if◌then◌else◌,
}
use hydrangea.Ds.Comparator.{Comparator, Ranks}
use hydrangea.Ds.Bst.{Tree, leaf, node, is_leaf, single, bst_add, bst_find}

abbrev pub AllKeys : (ℕ → Type 0) → Tree → Type 0
AllKeys P leaf = Unit
AllKeys P (node l k r) = P k × AllKeys P l × AllKeys P r

-- Smaller ranks to the left of a node, greater ones to the right, throughout.
abbrev pub IsSearch : (ℕ → ℕ) → Tree → Type 0
IsSearch rank leaf = Unit
IsSearch rank (node l k r) =
    AllKeys (λ x. rank x < rank k) l
    × AllKeys (λ x. rank k < rank x) r
    × IsSearch rank l
    × IsSearch rank r

-- Whether some node of the tree, wherever it hangs, has rank `n`.
abbrev pub has : (ℕ → ℕ) → ℕ → Tree → Bool
has rank n leaf = false
has rank n (node l k r) = (rank k == n) || has rank n l || has rank n r

-- The subtree that a new key goes into: a fresh node in place of NULL.
abbrev pub grow : Comparator → Tree → ℕ → Tree
grow cmp t key = if is_leaf t then single key else bst_add t key cmp

-- Two ranks compare in one of three ways.
pub trichotomy : (x y : ℕ) → (x < y) ⊎ (y < x) ⊎ (x ≡ y)
trichotomy x y = elim (dec_lt x y) [
  | yes p ↦ inl p
  | no p ↦ elim (dec_lt y x) [ yes q ↦ inr (inl q) | no q ↦ inr (inr (omega arith)) ]
]

module _ {cmp : Comparator} {rank : ℕ → ℕ} (r : Ranks cmp rank) where
  pub add_above :
      (a : Tree) (k : ℕ) (b : Tree) (key : ℕ)
      → rank k < rank key
      → bst_add (node a k b) key cmp ≡ node a k (grow cmp b key)
  unfolding bst_add
  add_above a k b key h = rw (r.above_of_lt key k h)

  pub add_below :
      (a : Tree) (k : ℕ) (b : Tree) (key : ℕ)
      → rank key < rank k
      → bst_add (node a k b) key cmp ≡ node (grow cmp a key) k b
  unfolding bst_add
  add_below a k b key h = rw (r.below_of_lt key k h)

  pub add_same :
      (a : Tree) (k : ℕ) (b : Tree) (key : ℕ)
      → rank key ≡ rank k
      → bst_add (node a k b) key cmp ≡ node a k b
  unfolding bst_add
  add_same a k b key h = rw (r.same_of_eq key k h)

  AllKeys-grow :
      (P : ℕ → Type 0) (t : Tree) (key : ℕ) → P key → AllKeys P t → AllKeys P (grow cmp t key)
  AllKeys-grow P leaf key p all = (p, tt, tt)
  AllKeys-grow P (node a k b) key p (pk, pa, pb) = elim (trichotomy (rank k) (rank key)) [
    | inl lt ↦ rw (add_above a k b key lt) (pk, pa, AllKeys-grow P b key p pb)
    | inr (inl gt) ↦ rw (add_below a k b key gt) (pk, AllKeys-grow P a key p pa, pb)
    | inr (inr eq) ↦ rw (add_same a k b key (sym eq)) (pk, pa, pb)
  ]

  IsSearch-grow : (t : Tree) (key : ℕ) → IsSearch rank t → IsSearch rank (grow cmp t key)
  IsSearch-grow leaf key s = (tt, tt, tt, tt)
  IsSearch-grow (node a k b) key (la, gb, sa, sb) = elim (trichotomy (rank k) (rank key)) [
    | inl lt ↦
        rw (add_above a k b key lt)
          (la, AllKeys-grow (λ x. rank k < rank x) b key lt gb, sa, IsSearch-grow b key sb)
    | inr (inl gt) ↦
        rw (add_below a k b key gt)
          (AllKeys-grow (λ x. rank x < rank k) a key gt la, gb, IsSearch-grow a key sa, sb)
    | inr (inr eq) ↦ rw (add_same a k b key (sym eq)) (la, gb, sa, sb)
  ]

  has-grow :
      (t : Tree) (key n : ℕ) → has rank n (grow cmp t key) ≡ ((rank key == n) || has rank n t)
  has-grow leaf key n = ground arith
  has-grow (node a k b) key n = elim (trichotomy (rank k) (rank key)) [
    | inl lt ↦ rw (add_above a k b key lt) (ground (arith, has-grow b key n))
    | inr (inl gt) ↦ rw (add_below a k b key gt) (ground (arith, has-grow a key n))
    | inr (inr eq) ↦ rw (add_same a k b key (sym eq)) (ground arith)
  ]

  -- `BST_add` to a tree that has a node keeps the search order and adds exactly the new key's rank.
  pub bst_add-IsSearch :
      (t : Tree) (key : ℕ)
      → is_leaf t ≡ false
      → IsSearch rank t
      → IsSearch rank (bst_add t key cmp)
        × ((n : ℕ) → has rank n (bst_add t key cmp) ≡ ((rank key == n) || has rank n t))
  bst_add-IsSearch leaf key ne s = cc
  bst_add-IsSearch (node a k b) key ne s =
      (IsSearch-grow (node a k b) key s, has-grow (node a k b) key)

  pub find_above :
      (a : Tree) (k : ℕ) (b : Tree) (key : ℕ)
      → rank k < rank key
      → bst_find (node a k b) key cmp ≡ bst_find b key cmp
  unfolding bst_find
  find_above a k leaf key h = rw (r.above_of_lt key k h)
  find_above a k (node c k' d) key h = rw (r.above_of_lt key k h)

  pub find_below :
      (a : Tree) (k : ℕ) (b : Tree) (key : ℕ)
      → rank key < rank k
      → bst_find (node a k b) key cmp ≡ bst_find a key cmp
  unfolding bst_find
  find_below leaf k b key h = rw (r.below_of_lt key k h)
  find_below (node c k' d) k b key h = rw (r.below_of_lt key k h)

  pub find_same :
      (a : Tree) (k : ℕ) (b : Tree) (key : ℕ)
      → rank key ≡ rank k
      → bst_find (node a k b) key cmp ≡ node a k b
  unfolding bst_find
  find_same a k b key h = rw (r.same_of_eq key k h)

  pub not_has_above :
      (n m : ℕ) (t : Tree) → m ≤ n → AllKeys (λ x. rank x < m) t → has rank n t ≡ false
  not_has_above n m leaf h all = refl
  not_has_above n m (node a k b) h (pk, pa, pb) =
      ground (arith, not_has_above n m a h pa, not_has_above n m b h pb)

  pub not_has_below :
      (n m : ℕ) (t : Tree) → n ≤ m → AllKeys (λ x. m < rank x) t → has rank n t ≡ false
  not_has_below n m leaf h all = refl
  not_has_below n m (node a k b) h (pk, pa, pb) =
      ground (arith, not_has_below n m a h pa, not_has_below n m b h pb)

  -- The root of what a search returned has the rank looked for.
  abbrev pub Hits : ℕ → Tree → Type 0
  Hits n leaf = Unit
  Hits n (node a k b) = rank k ≡ n

  -- `BST_find` in a search tree returns a node exactly when the key's rank is somewhere in the tree,
  -- and then a node of that rank.
  pub bst_find-has :
      (t : Tree) (key : ℕ)
      → IsSearch rank t
      → (is_leaf (bst_find t key cmp) ≡ not (has rank (rank key) t))
        × Hits (rank key) (bst_find t key cmp)
  unfolding bst_find
  bst_find-has leaf key s = (refl, tt)
  bst_find-has (node a k b) key (la, gb, sa, sb) = elim (trichotomy (rank k) (rank key)) [
    | inl lt ↦
        let (found, hit) = bst_find-has b key sb in
        rw (find_above a k b key lt)
          (found ∙ ground (arith, not_has_above (rank key) (rank k) a (omega arith) la), hit)
    | inr (inl gt) ↦
        let (found, hit) = bst_find-has a key sa in
        rw (find_below a k b key gt)
          (found ∙ ground (arith, not_has_below (rank key) (rank k) b (omega arith) gb), hit)
    | inr (inr eq) ↦ rw (find_same a k b key (sym eq)) (ground arith, eq)
  ]
