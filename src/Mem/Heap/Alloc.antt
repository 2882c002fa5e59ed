-- ===== src/Mem/Heap/Alloc.antt =====
-- `heap_alloc` of heap.c keeps both lists, and what it takes from the free block it found.
use mathlib.Core.Path.{subst}
use hydrangea.Prelude.{
  ℕ, ◌+◌, ◌-◌, ◌%◌, ◌^◌, ◌<◌, ◌≡◌, ◌≢◌, refl, sym, ap, ◌∙◌, arith, ltb, lt→ltb, ne→not_==, update,
  Bool-cases, inl, inr, List, [], ◌∷◌, ◌++◌, length, All,
}
use hydrangea.Mem.Pmm.{pmalloc}
use hydrangea.Mem.Heap.{Node, Heap, node_bytes, returns, take_block, heap_alloc}
use hydrangea.Mem.Heap.Chains.{Chain}
use hydrangea.Mem.Heap.Fit.{fit, heap_first_fit-fit}
use hydrangea.Mem.Heap.Save.{Distinct, Recorded, heap_save_allocated_block-Recorded}

-- The node `n` is none of a list.
abbrev pub Outside : ℕ → List ℕ → Type 0
Outside n qs = All (λ r. r ≢ n) qs

-- The two lists of a heap, on nodes that differ.
pub record IsValid (h : Heap) (free used : List ℕ) : Type 0 where
  pub free_chain : Chain h.nodes 0 h.free_ll free
  pub used_chain : Chain h.nodes 0 h.alloc_ll used
  pub used_distinct : Distinct used
  pub apart : All (λ q. Outside q used) free

-- The node that `pmalloc` gives next.
abbrev pub next_node : Heap → ℕ
next_node h = (pmalloc h.pmm node_bytes).0

pub record IsFresh (h : Heap) (free used : List ℕ) : Type 0 where
  pub not_null : next_node h ≢ 0
  pub not_free : Outside (next_node h) free
  pub not_used : Outside (next_node h) used

Chain-links :
    (nodes nodes' : ℕ → Node) (before p : ℕ) (qs : List ℕ)
    → All (λ q. ((nodes' q).prev ≡ (nodes q).prev) × ((nodes' q).next ≡ (nodes q).next)) qs
    → Chain nodes before p qs
    → Chain nodes' before p qs
Chain-links nodes nodes' before p [] a c = c
Chain-links nodes nodes' before p (q ∷ qs) ((e, e'), a) (s, ne, b, c) =
    (s, ne, e ∙ b, rw e' (Chain-links nodes nodes' q (nodes q).next qs a c))

All-fit :
    (P : ℕ → Type 0) (nodes : ℕ → Node) (size : ℕ) (qs : List ℕ)
    → fit nodes size qs ≢ 0
    → All P qs
    → P (fit nodes size qs)
All-fit P nodes size [] ne a = absurd (ne refl)
All-fit P nodes size (q ∷ qs) ne (p, a) = elim (Bool-cases (ltb (nodes q).size size)) [
  | inl small ↦ rw small (All-fit P nodes size qs (λ z. ne (rw small z)) a)
  | inr large ↦ rw large p
]

All-map : (P Q : ℕ → Type 0) (qs : List ℕ) → ((q : ℕ) → P q → Q q) → All P qs → All Q qs
All-map P Q [] f a = tt
All-map P Q (q ∷ qs) f (p, a) = (f q p, All-map P Q qs f a)

All-zip : (P Q : ℕ → Type 0) (qs : List ℕ) → All P qs → All Q qs → All (λ q. P q × Q q) qs
All-zip P Q [] a b = tt
All-zip P Q (q ∷ qs) (p, a) (p', b) = ((p, p'), All-zip P Q qs a b)

All-intro : (P : ℕ → Type 0) (qs : List ℕ) → ((q : ℕ) → P q) → All P qs
All-intro P [] f = tt
All-intro P (q ∷ qs) f = (f q, All-intro P qs f)

All-append : (P : ℕ → Type 0) (qs : List ℕ) (n : ℕ) → All P qs → P n → All P (qs ++ (n ∷ []))
All-append P [] n a p = (p, tt)
All-append P (q ∷ qs) n (x, a) p = (x, All-append P qs n a p)

Distinct-append : (qs : List ℕ) (n : ℕ) → Distinct qs → Outside n qs → Distinct (qs ++ (n ∷ []))
Distinct-append [] n d o = (tt, tt)
Distinct-append (q ∷ qs) n (x, d) (ne, o) =
    (All-append (λ r. r ≢ q) qs n x (λ e. ne (sym e)), Distinct-append qs n d o)

-- What a `heap_alloc` of `size` bytes from a larger block, the one of the node `q`, leaves.
pub record Taken (h h' : Heap) (q new size : ℕ) (free used : List ℕ) : Type 0 where
  pub valid : IsValid h' free (used ++ (new ∷ []))
  pub block : ((h'.nodes new).addr ≡ (h.nodes q).addr) × ((h'.nodes new).size ≡ size)
  pub rest :
      ((h'.nodes q).addr ≡ ((h.nodes q).addr + size) % 2 ^ 32)
      × ((h'.nodes q).size ≡ (h.nodes q).size - size)
  pub kept :
      (r : ℕ)
      → r ≢ new
      → r ≢ q
      → ((h'.nodes r).addr ≡ (h.nodes r).addr) × ((h'.nodes r).size ≡ (h.nodes r).size)

-- `take_block` of a block that is larger.
abbrev shrunk : Heap → (p size : ℕ) → Heap
shrunk h p size =
    let b = h.nodes p in
    record h {
      nodes = update h.nodes p (record b { addr = (b.addr + size) % 2 ^ 32; size = b.size - size });
    }

take_block-shrunk :
    (h : Heap) (p size : ℕ) → size < (h.nodes p).size → take_block h p size ≡ shrunk h p size
unfolding take_block
take_block-shrunk h p size l = rw (lt→ltb _ _ l) refl

shrunk_links :
    (h : Heap) (p size x : ℕ)
    → (((shrunk h p size).nodes x).prev ≡ (h.nodes x).prev)
      × (((shrunk h p size).nodes x).next ≡ (h.nodes x).next)
shrunk_links h p size x = (ground arith, ground arith)

shrunk-IsValid :
    (h m : Heap) (q size : ℕ) (free used : List ℕ)
    → IsValid h free used
    → IsFresh h free used
    → Recorded h m (next_node h) (h.nodes q).addr size used
    → IsValid (shrunk m q size) free (used ++ (next_node h ∷ []))
shrunk-IsValid h m q size free used v f r =
    let new = next_node h in
    let free_kept : All
        (λ x.
          (((shrunk m q size).nodes x).prev ≡ (h.nodes x).prev)
          × (((shrunk m q size).nodes x).next ≡ (h.nodes x).next))
        free =
      All-map (λ x. Outside x used × (x ≢ new)) _ free
        (λ x (out, ne).
          let e = r.others x ne out in
          let (a, b) = shrunk_links m q size x in (a ∙ ap Node.prev e, b ∙ ap Node.next e))
        (All-zip (λ x. Outside x used) (λ x. x ≢ new) free v.apart f.not_free) in
    record {
      free_chain =
          subst (λ p. Chain (shrunk m q size).nodes 0 p free) (sym r.same_free)
            (Chain-links h.nodes (shrunk m q size).nodes 0 h.free_ll free free_kept v.free_chain);
      used_chain =
          Chain-links m.nodes (shrunk m q size).nodes 0 m.alloc_ll (used ++ (new ∷ []))
            (All-intro _ (used ++ (new ∷ [])) (λ x. shrunk_links m q size x)) r.chain;
      used_distinct = Distinct-append used new v.used_distinct f.not_used;
      apart =
          All-map (λ x. Outside x used × (x ≢ new)) _ free
            (λ x (out, ne). All-append (λ y. y ≢ x) used new out (λ e. ne (sym e)))
            (All-zip (λ x. Outside x used) (λ x. x ≢ new) free v.apart f.not_free);
    }

shrunk-Taken :
    (h m : Heap) (q size : ℕ) (free used : List ℕ)
    → IsValid h free used
    → IsFresh h free used
    → Recorded h m (next_node h) (h.nodes q).addr size used
    → q ≢ next_node h
    → Outside q used
    → Taken h (shrunk m q size) q (next_node h) size free used
shrunk-Taken h m q size free used v f r other out =
    let new = next_node h in
    let same : m.nodes q ≡ h.nodes q = r.others q other out in
    let (at, bytes) = r.at in
    record {
      valid = shrunk-IsValid h m q size free used v f r;
      block = (ground arith, ground arith);
      rest = (rw same (ground arith), rw same (ground arith));
      kept = λ x ne ne'. let (a, b) = r.kept x ne in (ground arith, ground arith);
    }

-- In a valid heap whose next node is fresh, `heap_alloc` of less than the block found by first fit
-- returns that block's address. The heap stays valid with one allocated block more, of that address and
-- size, the free block loses these bytes at its start, and no other block changes. A round more than
-- either list has nodes is enough fuel.
pub heap_alloc-Taken :
    (h : Heap) (size fuel : ℕ) (free used : List ℕ)
    → IsValid h free used
    → IsFresh h free used
    → length free < fuel
    → length used < fuel
    → fit h.nodes size free ≢ 0
    → size < (h.nodes (fit h.nodes size free)).size
    → (h' : Heap) × (heap_alloc h size fuel ≡ returns ((h.nodes (fit h.nodes size free)).addr, h'))
      × Taken h h' (fit h.nodes size free) (next_node h) size free used
unfolding heap_alloc
heap_alloc-Taken h size fuel free used v f enough enough' ne smaller =
    let q = fit h.nodes size free in
    let addr = (h.nodes q).addr in
    let other = All-fit (λ x. x ≢ next_node h) h.nodes size free ne f.not_free in
    let out = All-fit (λ x. Outside x used) h.nodes size free ne v.apart in
    let (m, saved, r) =
      heap_save_allocated_block-Recorded h addr size fuel used v.used_chain v.used_distinct
        f.not_used f.not_null (omega arith) in
    let larger : size < (m.nodes q).size = rw (r.others q other out) smaller in
    (
      shrunk m q size,
      rw
          (
            heap_first_fit-fit h size fuel free v.free_chain enough,
            heap_alloc,
            ne→not_== _ _ ne,
            saved,
          )
          (ap (λ x. returns (addr, x)) (take_block-shrunk m q size larger)),
      shrunk-Taken h m q size free used v f r other out,
    )
