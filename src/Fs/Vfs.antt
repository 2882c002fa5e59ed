-- ===== src/Fs/Vfs.antt =====
-- kernel/fs/vfs.c without mounting. Nodes and files are structures in memory, functions from addresses;
-- names are terminated strings in a memory of bytes; NULL is 0. `kmalloc n` is the address that the
-- `n`-th allocation gives, and what has been given back is listed. A loop that has used up its fuel,
-- and a followed NULL, is `none`.
pub mod Find
pub mod Add
use Prim.Native.Nat.{bit_and, bit_or}
use hydrangea.Prelude.{
  ℕ, zero, suc, ◌+◌, ◌-◌, ◌*◌, ◌/◌, ◌%◌, ◌^◌, Bool, true, false, Option, none, some, List, [], ◌∷◌,
  ◌==◌, if◌then◌else◌, update, not, ◌>>=◌,
}
use hydrangea.Libk.Bytes.{Memory}
use hydrangea.Libk.Str.{strcpy, strcmp, strcat, strtok}

-- `vfs_node_t`
pub record VfsNode : Type 0 where
  pub name : ℕ
  pub parent : ℕ
  pub childs : ℕ
  pub file : ℕ
  pub next : ℕ
  pub prev : ℕ

-- `vfs_file_t`; its functions are addresses.
pub record VfsFile : Type 0 where
  pub name : ℕ
  pub type : ℕ
  pub permissions : ℕ
  pub uid : ℕ
  pub gid : ℕ
  pub inode : ℕ
  pub size : ℕ
  pub fs : ℕ
  pub read_file : ℕ
  pub write_file : ℕ
  pub open_file : ℕ
  pub close_file : ℕ
  pub readdir : ℕ
  pub finddir : ℕ
  pub ptr : ℕ

-- Memory, `vfs_root`, the static `i` of `strtok`, the allocations counted and what was given back.
pub record Vfs : Type 0 where
  pub nodes : ℕ → VfsNode
  pub files : ℕ → VfsFile
  pub bytes : Memory
  pub vfs_root : ℕ
  pub strtok_i : ℕ
  pub allocations : ℕ
  pub freed : List ℕ

-- Where the string literals of vfs.c lie: ".", "..", "/" and " ".
pub record Literals : Type 0 where
  pub dot : ℕ
  pub dotdot : ℕ
  pub slash : ℕ
  pub space : ℕ

abbrev pub vfs_file : ℕ
vfs_file = 0x0

abbrev pub vfs_dir : ℕ
vfs_dir = 0x1

abbrev pub vfs_cdev : ℕ
vfs_cdev = 0x2

abbrev pub vfs_bdev : ℕ
vfs_bdev = 0x3

abbrev pub vfs_mtpt : ℕ
vfs_mtpt = 0x6

-- Writes through a pointer to a node or a file.
abbrev pub set_node : Vfs → ℕ → VfsNode → Vfs
set_node s p n = record s { nodes = update s.nodes p n }

abbrev pub set_file : Vfs → ℕ → VfsFile → Vfs
set_file s p f = record s { files = update s.files p f }

-- `kfree`
abbrev pub kfree : Vfs → ℕ → Vfs
kfree s p = record s { freed = p ∷ s.freed }

-- The permissions of a new node: reading for all, writing for the owner, and the marks of a directory.
unfoldable pub new_permissions : (type : ℕ) → ℕ
new_permissions type =
    let p =
      if type == vfs_dir
      then bit_or (bit_or (bit_or (bit_or 0 (2 ^ 14)) 0x040) 0x008) 0x001
      else 0 in
    bit_or (bit_or (bit_or (bit_or p 0x100) 0x080) 0x020) 0x004

-- `vfs_create_node`. `memset` clears `sizeof(node)` bytes, which are the first field of the node; the
-- other fields that are not set keep what memory holds.
unfoldable pub vfs_create_node : (kmalloc : ℕ → ℕ) → Vfs → (name type fuel : ℕ) → Option (ℕ × Vfs)
vfs_create_node kmalloc s name type fuel =
    let node = kmalloc s.allocations in
    let buffer = kmalloc (s.allocations + 1) in
    let file = kmalloc (s.allocations + 2) in
    elim (strcpy s.bytes buffer name fuel) [
      | none ↦ none
      | some bytes ↦
          let new_node = record (s.nodes node) {
            name = buffer;
            file = file;
            childs = 0;
            next = 0;
          } in
          let new_file = record (s.files file) {
            name = buffer;
            type = type;
            permissions = new_permissions type;
          } in
          some (
            node,
            record (set_file (set_node s node new_node) file new_file) {
              bytes = bytes;
              allocations = s.allocations + 3;
            },
          )
    ]

-- The loop of `vfs_add_child` to the last child.
unfoldable pub last_child : (ℕ → VfsNode) → (child fuel : ℕ) → Option ℕ
last_child nodes child zero = none
last_child nodes child (suc n) =
    let rest = last_child nodes (nodes child).next n in
    if (nodes child).next == 0 then some child else rest

-- `vfs_add_child` of a parent without children, and with some.
unfoldable pub add_first : (kmalloc : ℕ → ℕ) → Vfs → (parent name type fuel : ℕ) → Option (ℕ × Vfs)
add_first kmalloc s parent name type fuel = elim (vfs_create_node kmalloc s name type fuel) [
  | none ↦ none
  | some (new, s) ↦
      let s = set_node s parent (record (s.nodes parent) { childs = new }) in
      some (new, set_node s new (record (s.nodes new) { parent = parent }))
]

unfoldable pub add_last :
    (kmalloc : ℕ → ℕ) → Vfs → (parent child name type fuel : ℕ) → Option (ℕ × Vfs)
add_last kmalloc s parent child name type fuel = elim (vfs_create_node kmalloc s name type fuel) [
  | none ↦ none
  | some (new, s) ↦
      let s = set_node s child (record (s.nodes child) { next = new }) in
      some (new, set_node s new (record (s.nodes new) { parent = parent; prev = child }))
]

unfoldable pub vfs_add_child :
    (kmalloc : ℕ → ℕ) → Vfs → (parent name type fuel : ℕ) → Option (ℕ × Vfs)
vfs_add_child kmalloc s parent name type fuel =
    let later : Option (ℕ × Vfs) = elim (last_child s.nodes (s.nodes parent).childs fuel) [
      | none ↦ none
      | some child ↦ add_last kmalloc s parent child name type fuel
    ] in
    if parent == 0
    then some (0, s)
    else if (s.nodes parent).childs == 0
    then add_first kmalloc s parent name type fuel
    else later

-- The loop of `vfs_get_child`: `index` steps, or up to NULL.
unfoldable pub nth_child : (ℕ → VfsNode) → (child index : ℕ) → ℕ
nth_child nodes child zero = child
nth_child nodes child (suc n) =
    let next = (nodes child).next in
    let rest = nth_child nodes next n in if next == 0 then 0 else rest

unfoldable pub vfs_get_child : Vfs → Literals → (parent index fuel : ℕ) → Option ℕ
vfs_get_child s lit parent index fuel =
    let childs = (s.nodes parent).childs in
    let child = nth_child s.nodes childs index in
    let node = s.nodes child in
    let named : Option ℕ = elim (strcmp s.bytes node.name lit.dot fuel) [
      | none ↦ none
      | some dot ↦ elim (strcmp s.bytes node.name lit.dotdot fuel) [
        | none ↦ none
        | some dotdot ↦ some (
            if dot == 0
            then node.parent
            else if dotdot == 0
            then (s.nodes node.parent).parent
            else child)
      ]
    ] in
    if childs == 0 then some 0 else if child == 0 then none else named

-- The loop of `vfs_get_child_by_name` from `child` on, and the test after it.
unfoldable pub child_named : Vfs → (child name bound fuel : ℕ) → Option ℕ
child_named s child name bound zero = none
child_named s child name bound (suc n) =
    let next = (s.nodes child).next in
    let rest = child_named s next name bound n in
    elim (strcmp s.bytes (s.nodes child).name name bound) [
      | none ↦ none
      | some differ ↦ if differ == 0 then some child else if next == 0 then some 0 else rest
    ]

unfoldable pub vfs_get_child_by_name : Vfs → Literals → (parent name fuel : ℕ) → Option ℕ
vfs_get_child_by_name s lit parent name fuel =
    let childs = (s.nodes parent).childs in
    let search : Option ℕ = if childs == 0 then some 0 else child_named s childs name fuel fuel in
    elim (strcmp s.bytes name lit.dot fuel) [
      | none ↦ none
      | some dot ↦ elim (strcmp s.bytes name lit.dotdot fuel) [
        | none ↦ none
        | some dotdot ↦
            if dot == 0
            then some parent
            else if dotdot == 0
            then some (s.nodes parent).parent
            else search
      ]
    ]
