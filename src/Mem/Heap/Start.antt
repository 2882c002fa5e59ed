-- ===== src/Mem/Heap/Start.antt =====
-- The heap that `heap_create` makes, and its first block.
use hydrangea.Prelude.{ℕ, ◌<◌, ◌≡◌, ◌≢◌, refl, ap, ◌∙◌, le→not_ltb, arith, [], ◌∷◌}
use hydrangea.Mem.Pmm.{Pmm, pmalloc}
use hydrangea.Mem.Heap.{
  Node, Heap, heap_bytes, node_bytes, returns, null_access, heap_create, heap_alloc, heap_free,
}
use hydrangea.Mem.Heap.Fit.{fit}
use hydrangea.Mem.Heap.Alloc.{IsValid, IsFresh, heap_alloc-Taken, next_node}
use hydrangea.Mem.Heap.Forget.{heap_free_null}

-- The address that `heap_create` puts the first node at.
abbrev pub first_node : Pmm → ℕ
first_node pmm = (pmalloc (pmalloc pmm heap_bytes).1 node_bytes).0

-- `heap_create` makes a valid heap with one free block, if `pmalloc` does not give NULL for its node.
pub heap_create-IsValid :
    (pmm : Pmm) (nodes : ℕ → Node) (start size max_size usr : ℕ)
    → first_node pmm ≢ 0
    → IsValid (heap_create pmm nodes start size max_size usr) (first_node pmm ∷ []) []
unfolding heap_create
heap_create-IsValid pmm nodes start size max_size usr ne = record {
  free_chain = (refl, ne, ground arith, ground arith);
  used_chain = refl;
  used_distinct = tt;
  apart = (tt, tt);
}

created_node :
    (pmm : Pmm) (nodes : ℕ → Node) (start size max_size usr : ℕ)
    → let b = (heap_create pmm nodes start size max_size usr).nodes (first_node pmm) in
      (b.addr ≡ start) × (b.size ≡ size)
unfolding heap_create
created_node pmm nodes start size max_size usr = (ground arith, ground arith)

fit_first : (nodes : ℕ → Node) (size q : ℕ) → size < (nodes q).size → fit nodes size (q ∷ []) ≡ q
fit_first nodes size q l = rw (le→not_ltb (nodes q).size size (omega (arith, l))) refl

-- The first block that a new heap gives out lies at the heap's start; as long as it is the only one,
-- `heap_free` cannot take it back: it follows NULL.
pub heap_free_only :
    (pmm : Pmm) (nodes : ℕ → Node) (start size max_size usr n fuel : ℕ)
    → first_node pmm ≢ 0
    → IsFresh (heap_create pmm nodes start size max_size usr) (first_node pmm ∷ []) []
    → n < size
    → 1 < fuel
    → (h' : Heap) × (heap_alloc (heap_create pmm nodes start size max_size usr) n fuel
        ≡ returns (start, h'))
      × (heap_free h' start fuel ≡ null_access)
heap_free_only pmm nodes start size max_size usr n fuel ne fresh smaller enough =
    let h = heap_create pmm nodes start size max_size usr in
    let q = first_node pmm in
    let (at, bytes) = created_node pmm nodes start size max_size usr in
    let room : n < (h.nodes q).size = rw bytes smaller in
    let found : fit h.nodes n (q ∷ []) ≡ q = fit_first h.nodes n q room in
    let valid = heap_create-IsValid pmm nodes start size max_size usr ne in
    let (h', gives, t) =
      heap_alloc-Taken h n fuel (q ∷ []) [] valid fresh (omega (arith, enough))
        (omega (arith, enough)) (rw found ne) (rw found room) in
    let v = t.valid in
    let (block, _) = t.block in
    let address : (h.nodes (fit h.nodes n (q ∷ []))).addr ≡ start =
      ap (λ x. (h.nodes x).addr) found ∙ at in
    (
      h',
      gives ∙ ap (λ x. returns (x, h')) address,
      heap_free_null h' start fuel (next_node h) (q ∷ []) [] [] v.free_chain v.used_chain tt
          (block ∙ address) refl (omega (arith, enough)) (omega (arith, enough)),
    )
