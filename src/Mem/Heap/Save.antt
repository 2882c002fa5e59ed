-- ===== src/Mem/Heap/Save.antt =====
-- `heap_save_allocated_block` and `heap_alloc` of heap.c on the lists of nodes.
use hydrangea.Prelude.{
  ℕ, zero, suc, ◌≤◌, ◌<◌, ◌≡◌, ◌≢◌, refl, arith, eq→==, ◌==◌, update, false, List, [], ◌∷◌, ◌++◌,
  length, All,
}
use hydrangea.Mem.Pmm.{pmalloc}
use hydrangea.Mem.Heap.{Node, Heap, node_bytes, returns, last_node, heap_save_allocated_block}
use hydrangea.Mem.Heap.Chains.{Chain}

abbrev pub Distinct : List ℕ → Type 0
Distinct [] = Unit
Distinct (q ∷ qs) = All (λ r. r ≢ q) qs × Distinct qs

-- The nodes after `new` has been linked behind the node `last`.
abbrev pub linked : (ℕ → Node) → (last new addr size : ℕ) → ℕ → Node
linked nodes last new addr size =
    update (update nodes last (record (nodes last) { next = new })) new
      (record { addr = addr; size = size; prev = last; next = 0 })

-- The last node of the list `qs`, found, and the list with `new` behind it.
record Found (nodes : ℕ → Node) (before p fuel new addr size : ℕ) (qs : List ℕ) : Type 0 where
  last : ℕ
  found : last_node nodes p fuel ≡ returns last
  inside : (q : ℕ) → All (λ r. r ≢ q) qs → last ≢ q
  chain : Chain (linked nodes last new addr size) before p (qs ++ (new ∷ []))

last_node-Found :
    (nodes : ℕ → Node) (before p fuel new addr size x : ℕ) (xs : List ℕ)
    → Chain nodes before p (x ∷ xs)
    → Distinct (x ∷ xs)
    → All (λ q. q ≢ new) (x ∷ xs)
    → new ≢ 0
    → length xs < fuel
    → Found nodes before p fuel new addr size (x ∷ xs)
unfolding last_node
last_node-Found nodes before p zero new addr size x xs c d o fresh f = absurd (omega (arith, f))
last_node-Found nodes before p (suc n) new addr size x [] (s, ne, b, c) d (o, os) fresh f = record {
  last = x;
  found = ground arith;
  inside = λ q (h, _). h;
  chain = (s, ne, ground arith, (ground arith, fresh, ground arith, ground arith));
}
last_node-Found nodes before p (suc n) new addr size x (y ∷ ys) (s, ne, b, c) (d, ds) (o, os) fresh
      f =
    let rest =
      last_node-Found nodes x (nodes x).next n new addr size y ys c ds os fresh (omega arith) in
    let other : rest.last ≢ x = rest.inside x d in
    let (next, ne', _, _) = c in
    let same : linked nodes rest.last new addr size x ≡ nodes x = ground arith in
    record {
      last = rest.last;
      found = let found = rest.found in ground arith;
      inside = λ q (_, h). rest.inside q h;
      chain = (s, ne, rw same b, rw same (rest.chain));
    }

-- The heap with a block of `size` bytes at `addr` put on record in the node `new`: the list of
-- allocated blocks, which held `qs`, is longer by it, and no other block has changed.
pub record Recorded (h h' : Heap) (new addr size : ℕ) (qs : List ℕ) : Type 0 where
  pub chain : Chain h'.nodes 0 h'.alloc_ll (qs ++ (new ∷ []))
  pub at : ((h'.nodes new).addr ≡ addr) × ((h'.nodes new).size ≡ size)
  pub kept :
      (q : ℕ)
      → q ≢ new
      → ((h'.nodes q).addr ≡ (h.nodes q).addr) × ((h'.nodes q).size ≡ (h.nodes q).size)
  pub others : (q : ℕ) → q ≢ new → All (λ r. r ≢ q) qs → h'.nodes q ≡ h.nodes q
  pub same_free : h'.free_ll ≡ h.free_ll

-- `heap_save_allocated_block` returns, with the block recorded behind the others, if the node that
-- `pmalloc` gives is not NULL and not one of the list; a round for each block is enough fuel.
pub heap_save_allocated_block-Recorded :
    (h : Heap) (addr size fuel : ℕ) (qs : List ℕ)
    → Chain h.nodes 0 h.alloc_ll qs
    → Distinct qs
    → All (λ q. q ≢ (pmalloc h.pmm node_bytes).0) qs
    → (pmalloc h.pmm node_bytes).0 ≢ 0
    → length qs ≤ fuel
    → (h' : Heap) × (heap_save_allocated_block h addr size fuel ≡ returns h')
      × Recorded h h' (pmalloc h.pmm node_bytes).0 addr size qs
unfolding heap_save_allocated_block
heap_save_allocated_block-Recorded h addr size fuel [] c d o fresh f =
    let new = (pmalloc h.pmm node_bytes).0 in
    (
      record h {
        alloc_ll = new;
        nodes = update h.nodes new (record { addr = addr; size = size; prev = 0; next = 0 });
        pmm = (pmalloc h.pmm node_bytes).1;
      },
      rw (eq→== _ _ c) refl,
      record {
        chain = (refl, fresh, ground arith, ground arith);
        at = (ground arith, ground arith);
        kept = λ q ne. (ground arith, ground arith);
        others = λ q ne _. ground arith;
        same_free = refl;
      },
    )
heap_save_allocated_block-Recorded h addr size fuel (x ∷ xs) c d o fresh f =
    let new = (pmalloc h.pmm node_bytes).0 in
    let end =
      last_node-Found h.nodes 0 h.alloc_ll fuel new addr size x xs c d o fresh (omega arith) in
    let (s, ne, _, _) = c in
    let some_block : (h.alloc_ll == 0) ≡ false = ground arith in
    (
      record h {
        nodes = linked h.nodes end.last new addr size;
        pmm = (pmalloc h.pmm node_bytes).1;
      },
      rw (some_block, end.found, heap_save_allocated_block) refl,
      record {
        chain = end.chain;
        at = (ground arith, ground arith);
        kept = λ q other. (ground arith, ground arith);
        others = λ q other out. let apart : end.last ≢ q = end.inside q out in ground arith;
        same_free = refl;
      },
    )
