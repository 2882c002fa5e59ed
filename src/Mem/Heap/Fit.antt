-- ===== src/Mem/Heap/Fit.antt =====
-- The first fit of heap.c, and `heap_alloc` when no block fits.
use hydrangea.Prelude.{
  ℕ, zero, suc, ◌<◌, ◌≡◌, refl, ap, ◌∙◌, arith, ltb, if◌then◌else◌, List, [], ◌∷◌, length, All,
}
use hydrangea.Mem.Heap.{Node, Heap, returns, first_fit, heap_first_fit, heap_alloc}
use hydrangea.Mem.Heap.Chains.{Chain}

-- The first node of a list whose block holds `size` bytes, or 0.
abbrev pub fit : (ℕ → Node) → ℕ → List ℕ → ℕ
fit nodes size [] = 0
fit nodes size (q ∷ qs) = if ltb (nodes q).size size then fit nodes size qs else q

first_fit-fit :
    (nodes : ℕ → Node) (size before p fuel : ℕ) (qs : List ℕ)
    → Chain nodes before p qs
    → length qs < fuel
    → first_fit nodes size p fuel ≡ returns (fit nodes size qs)
unfolding first_fit
first_fit-fit nodes size before p zero qs c f = absurd (omega (arith, f))
first_fit-fit nodes size before p (suc n) [] c f = ground arith
first_fit-fit nodes size before p (suc n) (q ∷ qs) (e, ne, b, c) f =
    let rest = first_fit-fit nodes size q (nodes q).next n qs c (omega arith) in ground arith

-- On a free list, `heap_first_fit` returns the first block that is large enough, or NULL if there is
-- none; a round more than there are nodes is enough fuel.
pub heap_first_fit-fit :
    (h : Heap) (size fuel : ℕ) (qs : List ℕ)
    → Chain h.nodes 0 h.free_ll qs
    → length qs < fuel
    → heap_first_fit h size fuel ≡ returns (fit h.nodes size qs)
unfolding heap_first_fit
heap_first_fit-fit h size fuel qs c f = first_fit-fit h.nodes size 0 h.free_ll fuel qs c f

fit_none :
    (nodes : ℕ → Node) (size : ℕ) (qs : List ℕ)
    → All (λ q. (nodes q).size < size) qs
    → fit nodes size qs ≡ 0
fit_none nodes size [] a = refl
fit_none nodes size (q ∷ qs) (l, a) = let rest = fit_none nodes size qs a in ground arith

-- If every block of the free list is too small, `heap_alloc` returns NULL and leaves the heap.
pub heap_alloc_none :
    (h : Heap) (size fuel : ℕ) (qs : List ℕ)
    → Chain h.nodes 0 h.free_ll qs
    → length qs < fuel
    → All (λ q. (h.nodes q).size < size) qs
    → heap_alloc h size fuel ≡ returns (0, h)
unfolding heap_alloc
heap_alloc_none h size fuel qs c f a =
    let nothing : heap_first_fit h size fuel ≡ returns 0 =
      heap_first_fit-fit h size fuel qs c f ∙ ap returns (fit_none h.nodes size qs a) in
    rw (nothing, heap_alloc) refl
