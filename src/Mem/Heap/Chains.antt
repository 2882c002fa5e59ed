-- ===== src/Mem/Heap/Chains.antt =====
-- The doubly linked lists of heap.c, as the list of their nodes' addresses.
use hydrangea.Prelude.{
  ℕ, ◌≡◌, ◌≢◌, refl, arith, Bool, true, false, ◌==◌, if◌then◌else◌, List, [], ◌∷◌, ◌++◌,
}
use hydrangea.Mem.Heap.{Node}

-- From `p` on `nodes` holds the list of the nodes `qs`, the first one's `prev` being `before`.
abbrev pub Chain : (ℕ → Node) → (before p : ℕ) → List ℕ → Type 0
Chain nodes before p [] = p ≡ 0
Chain nodes before p (q ∷ qs) =
    (p ≡ q) × (q ≢ 0) × ((nodes q).prev ≡ before) × Chain nodes q (nodes q).next qs

abbrev pub is_nil : List ℕ → Bool
is_nil [] = true
is_nil (q ∷ qs) = false

pub is_nil-append : (xs : List ℕ) (a : ℕ) (ys : List ℕ) → is_nil (xs ++ (a ∷ ys)) ≡ false
is_nil-append [] a ys = refl
is_nil-append (x ∷ xs) a ys = refl

-- The links of a node in the middle: each is NULL exactly at its end of the list.
pub Chain-next :
    (nodes : ℕ → Node) (before p a : ℕ) (xs ys : List ℕ)
    → Chain nodes before p (xs ++ (a ∷ ys))
    → ((nodes a).next == 0) ≡ is_nil ys
Chain-next nodes before p a [] [] (e, ne, b, c) = ground arith
Chain-next nodes before p a [] (y ∷ ys) (e, ne, b, (e', ne', b', c)) = ground arith
Chain-next nodes before p a (x ∷ xs) ys (e, ne, b, c) = Chain-next nodes x (nodes x).next a xs ys c

pub Chain-prev :
    (nodes : ℕ → Node) (before p a : ℕ) (xs ys : List ℕ)
    → Chain nodes before p (xs ++ (a ∷ ys))
    → ((nodes a).prev == 0) ≡ (if is_nil xs then before == 0 else false)
Chain-prev nodes before p a [] ys (e, ne, b, c) = ground arith
Chain-prev nodes before p a (x ∷ []) ys (e, ne, b, c) =
    let rest = Chain-prev nodes x (nodes x).next a [] ys c in ground arith
Chain-prev nodes before p a (x ∷ x' ∷ xs) ys (e, ne, b, c) =
    let rest = Chain-prev nodes x (nodes x).next a (x' ∷ xs) ys c in ground arith
