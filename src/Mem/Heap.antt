-- ===== src/Mem/Heap.antt =====
-- kernel/mem/heap.c: the kernel heap, with its lists of free and of allocated blocks as nodes in
-- memory. `nodes p` is the node at the address `p`, and 0 is NULL: to follow it is the outcome
-- `null_access`. A traversal takes `fuel` rounds at most, and one for each node is enough.
pub mod Chains
pub mod Fit
pub mod Start
pub mod Forget
pub mod Save
pub mod Alloc
use hydrangea.Prelude.{
  ℕ, zero, suc, ◌+◌, ◌-◌, ◌%◌, ◌^◌, Bool, true, false, ◌||◌, ltb, ◌==◌, if◌then◌else◌, update,
}
use hydrangea.Mem.Pmm.{Pmm, pmalloc}
use hydrangea.Libk.Bytes.{Memory, memcpy}

-- `free_ll_t`, which is `alloc_ll_t` as well.
pub record Node : Type 0 where
  pub addr : ℕ
  pub size : ℕ
  pub prev : ℕ
  pub next : ℕ

-- `heap_t`, with the nodes in memory and the placement allocator that new nodes come from.
pub record Heap : Type 0 where
  pub start : ℕ
  pub size : ℕ
  pub max_size : ℕ
  pub usr : ℕ
  pub free_ll : ℕ
  pub alloc_ll : ℕ
  pub nodes : ℕ → Node
  pub pmm : Pmm

pub data Access {ℓ} (A : Type ℓ) : Type ℓ where
  returns : A → Access A
  null_access : Access A
  out_of_fuel : Access A

-- `sizeof(heap_t)` and `sizeof(free_ll_t)`
abbrev pub heap_bytes : ℕ
heap_bytes = 24

abbrev pub node_bytes : ℕ
node_bytes = 16

-- `heap_create`; `nodes` is what memory holds before. The result's own address is not used.
unfoldable pub heap_create : Pmm → (nodes : ℕ → Node) → (start size max_size usr : ℕ) → Heap
heap_create pmm nodes start size max_size usr =
    let (_, pmm) = pmalloc pmm heap_bytes in
    let (first, pmm) = pmalloc pmm node_bytes in
    record {
      start = start;
      size = size;
      max_size = max_size;
      usr = usr;
      free_ll = first;
      alloc_ll = 0;
      nodes = update nodes first (record { addr = start; size = size; prev = 0; next = 0 });
      pmm = pmm;
    }

-- The last node of a list, from the node `p` on.
unfoldable pub last_node : (ℕ → Node) → (p fuel : ℕ) → Access ℕ
last_node nodes p zero = out_of_fuel
last_node nodes p (suc n) =
    let rest = last_node nodes (nodes p).next n in if (nodes p).next == 0 then returns p else rest

-- `heap_save_allocated_block`
unfoldable pub heap_save_allocated_block : Heap → (addr size fuel : ℕ) → Access Heap
heap_save_allocated_block h addr size fuel =
    let (new, pmm) = pmalloc h.pmm node_bytes in
    let block : ℕ → Node = λ prev. record { addr = addr; size = size; prev = prev; next = 0 } in
    if h.alloc_ll == 0
    then returns (record h { alloc_ll = new; nodes = update h.nodes new (block 0); pmm = pmm })
    else elim (last_node h.nodes h.alloc_ll fuel) [
      | returns last ↦
          let linked = update h.nodes last (record (h.nodes last) { next = new }) in
          returns (record h { nodes = update linked new (block last); pmm = pmm })
      | null_access ↦ null_access
      | out_of_fuel ↦ out_of_fuel
    ]

-- The search of `heap_forget_allocated_block`, at the node `p`.
unfoldable pub find_block : (ℕ → Node) → (addr p fuel : ℕ) → Access ℕ
find_block nodes addr p zero = out_of_fuel
find_block nodes addr p (suc n) =
    let rest = find_block nodes addr (nodes p).next n in
    if p == 0
    then null_access
    else if ((nodes p).addr == addr) || ((nodes p).next == 0)
    then returns p
    else rest

-- Takes the node `p` out of its list; both neighbours are written through.
unfoldable pub forget_node : Heap → (p : ℕ) → Access (ℕ × Heap)
forget_node h p =
    let after = (h.nodes p).next in
    let back = update h.nodes after (record (h.nodes after) { prev = (h.nodes p).prev }) in
    let before = (back p).prev in
    let forth = update back before (record (back before) { next = (back p).next }) in
    if (after == 0) || (before == 0)
    then null_access
    else returns ((forth p).size, record h { nodes = forth })

-- `heap_forget_allocated_block`: the size, or -1 as a word.
unfoldable pub heap_forget_allocated_block : Heap → (addr fuel : ℕ) → Access (ℕ × Heap)
heap_forget_allocated_block h addr fuel = elim (find_block h.nodes addr h.alloc_ll fuel) [
  | returns p ↦ if (h.nodes p).addr == addr then forget_node h p else returns (2 ^ 32 - 1, h)
  | null_access ↦ null_access
  | out_of_fuel ↦ out_of_fuel
]

-- `heap_first_fit`, at the node `p`.
unfoldable pub first_fit : (ℕ → Node) → (size p fuel : ℕ) → Access ℕ
first_fit nodes size p zero = out_of_fuel
first_fit nodes size p (suc n) =
    let rest = first_fit nodes size (nodes p).next n in
    if p == 0 then returns 0 else if ltb (nodes p).size size then rest else returns p

unfoldable pub heap_first_fit : Heap → (size fuel : ℕ) → Access ℕ
heap_first_fit h size fuel = first_fit h.nodes size h.free_ll fuel

-- The end of `heap_alloc`: the free block `p` shrinks by `size`, or leaves the list.
unfoldable pub take_block : Heap → (p size : ℕ) → Heap
take_block h p size =
    let b = h.nodes p in
    let shrunk = record b { addr = (b.addr + size) % 2 ^ 32; size = b.size - size } in
    let forth = update h.nodes b.prev (record (h.nodes b.prev) { next = b.next }) in
    let nodes = if b.prev == 0 then h.nodes else forth in
    let after = (nodes p).next in
    let back = update nodes after (record (nodes after) { prev = (nodes p).prev }) in
    if ltb size b.size then record h { nodes = update h.nodes p shrunk } else record h {
      free_ll = if b.prev == 0 then b.next else h.free_ll;
      nodes = if after == 0 then nodes else back;
    }

-- `heap_alloc`: the address, 0 if no free block is large enough.
unfoldable pub heap_alloc : Heap → (size fuel : ℕ) → Access (ℕ × Heap)
heap_alloc h size fuel = elim (heap_first_fit h size fuel) [
  | returns p ↦
      let addr = (h.nodes p).addr in
      if p == 0 then returns (0, h) else elim (heap_save_allocated_block h addr size fuel) [
        | returns h' ↦ returns (addr, take_block h' p size)
        | null_access ↦ null_access
        | out_of_fuel ↦ out_of_fuel
      ]
  | null_access ↦ null_access
  | out_of_fuel ↦ out_of_fuel
]

-- The first loop of `heap_free`: the first free node that does not lie below `ptr`.
unfoldable pub find_above : (ℕ → Node) → (ptr p fuel : ℕ) → Access ℕ
find_above nodes ptr p zero = out_of_fuel
find_above nodes ptr p (suc n) =
    let rest = find_above nodes ptr (nodes p).next n in
    if p == 0 then null_access else if ltb (nodes p).addr ptr then rest else returns p

-- The middle of `heap_free`: the new node goes into the list before the node `above`.
unfoldable pub link_before : Heap → (new ptr size above : ℕ) → Heap
link_before h new ptr size above =
    let prev = (h.nodes above).prev in
    let nodes =
      update h.nodes new (record { addr = ptr; size = size; prev = prev; next = above }) in
    let before = (nodes above).prev in
    let forth = update nodes before (record (nodes before) { next = new }) in
    let nodes = if before == 0 then nodes else forth in
    record h {
      free_ll = if before == 0 then new else h.free_ll;
      nodes = update nodes above (record (nodes above) { prev = new });
    }

-- Merges the node `new` with the one behind it if they touch.
unfoldable pub merge_next : (ℕ → Node) → (new : ℕ) → ℕ → Node
merge_next nodes new =
    let b = nodes new in
    let c = nodes b.next in
    if (b.addr + b.size) % 2 ^ 32 == c.addr
    then update nodes new (record b { size = (b.size + c.size) % 2 ^ 32; next = c.next })
    else nodes

-- Merges it with the one before it, which the code follows without a test.
unfoldable pub merge_prev : (ℕ → Node) → (new : ℕ) → Access (ℕ → Node)
merge_prev nodes new =
    let b = nodes new in
    let a = nodes b.prev in
    let joined = record a { size = (a.size + b.size) % 2 ^ 32; next = b.next } in
    if b.prev == 0
    then null_access
    else if (a.addr + a.size) % 2 ^ 32 == b.addr
    then returns (update nodes b.prev joined)
    else returns nodes

-- `heap_free`
unfoldable pub heap_free : Heap → (ptr fuel : ℕ) → Access Heap
heap_free h ptr fuel = elim (find_above h.nodes ptr h.free_ll fuel) [
  | returns above ↦
      let (new, pmm) = pmalloc h.pmm node_bytes in
      elim (heap_forget_allocated_block (record h { pmm = pmm }) ptr fuel) [
        | returns (size, h') ↦
            let linked = link_before h' new ptr size above in
            elim (merge_prev (merge_next linked.nodes new) new) [
              | returns nodes ↦ returns (record linked { nodes = nodes })
              | null_access ↦ null_access
              | out_of_fuel ↦ out_of_fuel
            ]
        | null_access ↦ null_access
        | out_of_fuel ↦ out_of_fuel
      ]
  | null_access ↦ null_access
  | out_of_fuel ↦ out_of_fuel
]

-- `kmalloc` and `kfree`, on the heap that `kheap` points to.
unfoldable pub kmalloc : Heap → (size fuel : ℕ) → Access (ℕ × Heap)
unfolding heap_alloc
kmalloc h size fuel = heap_alloc h size fuel

unfoldable pub kfree : Heap → (ptr fuel : ℕ) → Access Heap
unfolding heap_free
kfree h ptr fuel = heap_free h ptr fuel

-- `krealloc`: the new address or NULL, the heap, and the memory that the blocks lie in.
unfoldable pub krealloc : Heap → Memory → (ptr new_size fuel : ℕ) → Access (ℕ × Heap × Memory)
krealloc h m ptr new_size fuel = elim (ptr == 0) [
  | true ↦ returns (0, h, m)
  | false ↦ elim (kmalloc h new_size fuel) [
    | returns (new, h') ↦ elim (new == 0) [
      | true ↦ returns (0, h', m)
      | false ↦ elim (kfree h' ptr fuel) [
        | returns h'' ↦ returns (new, h'', memcpy m new ptr new_size)
        | null_access ↦ null_access
        | out_of_fuel ↦ out_of_fuel
      ]
    ]
    | null_access ↦ null_access
    | out_of_fuel ↦ out_of_fuel
  ]
]
