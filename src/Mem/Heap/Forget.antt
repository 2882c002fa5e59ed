-- ===== src/Mem/Heap/Forget.antt =====
-- `heap_forget_allocated_block` and what it does to `heap_free`.
use mathlib.Core.Path.{subst}
use hydrangea.Prelude.{
  ℕ, zero, suc, ◌<◌, ◌≡◌, ◌≢◌, refl, sym, arith, ltb, ◌==◌, eq→==, true, false, ◌||◌, Bool-cases,
  ◌⊎◌, inl, inr, List, [], ◌∷◌, ◌++◌, length, All,
}
use hydrangea.Mem.Pmm.{pmalloc}
use hydrangea.Mem.Heap.{
  Node, Heap, node_bytes, returns, null_access, find_block, forget_node,
  heap_forget_allocated_block, find_above, heap_free,
}
use hydrangea.Mem.Heap.Chains.{Chain, is_nil, is_nil-append, Chain-next, Chain-prev}

find_block-Chain :
    (nodes : ℕ → Node) (addr before p fuel a : ℕ) (xs ys : List ℕ)
    → Chain nodes before p (xs ++ (a ∷ ys))
    → All (λ q. (nodes q).addr ≢ addr) xs
    → (nodes a).addr ≡ addr
    → length xs < fuel
    → find_block nodes addr p fuel ≡ returns a
unfolding find_block
find_block-Chain nodes addr before p zero a xs ys c o e f = absurd (omega (arith, f))
find_block-Chain nodes addr before p (suc n) a [] ys (s, ne, b, c) o e f = ground arith
find_block-Chain nodes addr before p (suc n) a (x ∷ xs) ys (s, ne, b, c) (o, os) e f =
    let rest = find_block-Chain nodes addr x (nodes x).next n a xs ys c os e (omega arith) in
    let more = Chain-next nodes before x x [] (xs ++ (a ∷ ys)) (refl, ne, b, c) in
    let inner = is_nil-append xs a ys in ground arith

forget_node_null :
    (h : Heap) (p : ℕ)
    → (((h.nodes p).next == 0) || ((h.nodes p).prev == 0)) ≡ true
    → forget_node h p ≡ null_access
unfolding forget_node
forget_node_null h p t = ground arith

-- The first and the last block of the list of allocated blocks have no neighbour on one side, and
-- `heap_forget_allocated_block` follows NULL there; a round for each block is enough fuel.
pub heap_forget_allocated_block_null :
    (h : Heap) (addr fuel a : ℕ) (xs ys : List ℕ)
    → Chain h.nodes 0 h.alloc_ll (xs ++ (a ∷ ys))
    → All (λ q. (h.nodes q).addr ≢ addr) xs
    → (h.nodes a).addr ≡ addr
    → (is_nil xs || is_nil ys) ≡ true
    → length xs < fuel
    → heap_forget_allocated_block h addr fuel ≡ null_access
unfolding heap_forget_allocated_block
heap_forget_allocated_block_null h addr fuel a xs ys c o e ends f =
    let after = Chain-next h.nodes 0 h.alloc_ll a xs ys c in
    let before = Chain-prev h.nodes 0 h.alloc_ll a xs ys c in
    let no_link : (((h.nodes a).next == 0) || ((h.nodes a).prev == 0)) ≡ true = ground arith in
    rw
      (
        find_block-Chain h.nodes addr 0 h.alloc_ll fuel a xs ys c o e f,
        heap_forget_allocated_block,
        eq→== _ _ e,
      )
      (forget_node_null h a no_link)

find_above-Chain :
    (nodes : ℕ → Node) (ptr before p fuel : ℕ) (qs : List ℕ)
    → Chain nodes before p qs
    → length qs < fuel
    → (find_above nodes ptr p fuel ≡ null_access)
      ⊎ ((q : ℕ) × (find_above nodes ptr p fuel ≡ returns q))
unfolding find_above
find_above-Chain nodes ptr before p zero qs c f = absurd (omega (arith, f))
find_above-Chain nodes ptr before p (suc n) [] c f = inl (ground arith)
find_above-Chain nodes ptr before p (suc n) (q ∷ qs) (s, ne, b, c) f =
    let test : (p == 0) ≡ false = ground arith in
    elim (Bool-cases (ltb (nodes p).addr ptr)) [
      | inl below ↦
          rw (test, below)
            (subst
              (λ t.
                (find_above nodes ptr (nodes t).next n ≡ null_access)
                ⊎ ((q : ℕ) × (find_above nodes ptr (nodes t).next n ≡ returns q)))
              (sym s) (find_above-Chain nodes ptr q (nodes q).next n qs c (omega arith)))
      | inr here ↦ rw (test, here) (inr (p, refl))
    ]

-- `heap_free` of the first or the last of the allocated blocks follows NULL, whatever the free list
-- holds: such a block is never given back. A round more than there are nodes is enough fuel.
pub heap_free_null :
    (h : Heap) (ptr fuel a : ℕ) (qs xs ys : List ℕ)
    → Chain h.nodes 0 h.free_ll qs
    → Chain h.nodes 0 h.alloc_ll (xs ++ (a ∷ ys))
    → All (λ q. (h.nodes q).addr ≢ ptr) xs
    → (h.nodes a).addr ≡ ptr
    → (is_nil xs || is_nil ys) ≡ true
    → length qs < fuel
    → length xs < fuel
    → heap_free h ptr fuel ≡ null_access
unfolding heap_free
heap_free_null h ptr fuel a qs xs ys free c o e ends f g =
    let forgets =
      heap_forget_allocated_block_null (record h { pmm = (pmalloc h.pmm node_bytes).1 }) ptr fuel a
        xs ys c o e ends g in
    elim (find_above-Chain h.nodes ptr 0 h.free_ll fuel qs free f) [
      | inl nothing ↦ rw (nothing, heap_free) refl
      | inr (above, found) ↦ rw (found, heap_free, forgets) refl
    ]
