-- ===== src/Tests/Heap.antt =====
-- The heap of heap.c just after its creation.
use hydrangea.Prelude.{ℕ, ◌≡◌, arith, ◌==◌, if◌then◌else◌, [], ◌∷◌}
use hydrangea.Mem.Pmm.{Pmm, pmalloc}
use hydrangea.Mem.Heap.{Node, Heap, returns, heap_create, heap_alloc}
use hydrangea.Mem.Heap.Alloc.{IsValid, IsFresh, Taken, heap_alloc-Taken}
use hydrangea.Mem.Heap.Start.{heap_create-IsValid}

abbrev boot : Pmm
boot = record { placement_addr = 0x200000; bitmap = λ i. 0; memory_size = 0 }

abbrev no_nodes : ℕ → Node
no_nodes p = record { addr = 0; size = 0; prev = 0; next = 0 }

abbrev heap : Heap
heap = heap_create boot no_nodes 0x800000 0x100000 0x100000 0

abbrev first : ℕ
first = 0x200018

abbrev second : ℕ
second = 0x200028

heap-IsValid : IsValid heap (first ∷ []) []
unfolding heap_create pmalloc
heap-IsValid =
    heap_create-IsValid boot no_nodes 0x800000 0x100000 0x100000 0 (λ e. omega (arith, e))

fresh : IsFresh heap (first ∷ []) []
unfolding heap_create pmalloc
fresh = record {
  not_null = λ e. omega (arith, e);
  not_free = (λ e. omega (arith, e), tt);
  not_used = tt;
}

heap_alloc-Taken_example :
    (h' : Heap) × (heap_alloc heap 100 5 ≡ returns (0x800000, h'))
    × Taken heap h' first second 100 (first ∷ []) []
unfolding heap_create pmalloc
heap_alloc-Taken_example =
    heap_alloc-Taken heap 100 5 (first ∷ []) [] heap-IsValid fresh (omega arith) (omega arith)
      (λ e. omega (arith, e)) (omega arith)

-- A heap with one free block, at node 1, and one allocated block, at node 2.
abbrev one_used : Heap
one_used = record heap {
  free_ll = 1;
  alloc_ll = 2;
  nodes = λ p.
      if p == 1
      then record { addr = 50; size = 10; prev = 0; next = 0 }
      else record { addr = 10; size = 5; prev = 0; next = 0 };
}
