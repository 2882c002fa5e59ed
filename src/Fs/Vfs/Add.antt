-- ===== src/Fs/Vfs/Add.antt =====
-- What `vfs_add_child` of vfs.c makes of the list of children.
use hydrangea.Prelude.{
  ℕ, suc, ◌+◌, ◌≤◌, ◌<◌, ◌≡◌, ◌≢◌, ◌⊎◌, List, [], ◌∷◌, length, ◌==◌, if◌then◌else◌,
}
use hydrangea.Libk.Bytes.{Memory}
use hydrangea.Libk.Str.Laws.{Holds}
use hydrangea.Fs.Vfs.{VfsNode, Vfs, set_node, set_file, new_permissions}

-- The children are other nodes than `new`, and their names lie outside the `size` bytes at `buffer`.
abbrev pub Apart : (ℕ → VfsNode) → (new buffer size : ℕ) → List (ℕ × List ℕ) → Type 0
Apart nodes new buffer size [] = Unit
Apart nodes new buffer size ((x, xs) ∷ kids) =
    ((x ≢ new) × (((nodes x).name + length xs < buffer) ⊎ (buffer + size ≤ (nodes x).name)))
    × Apart nodes new buffer size kids

-- Memory and nodes with the child `new`, called `ys`, linked behind the child `l`.
Linked : (nodes nodes' : ℕ → VfsNode) (m m' : Memory) (l new buffer : ℕ) (ys : List ℕ) → Type 0
Linked nodes nodes' m m' l new buffer ys =
    ((x : ℕ)
      → x ≢ new
      → ((nodes' x).name ≡ (nodes x).name)
        × ((nodes' x).next ≡ (if x == l then new else (nodes x).next)))
    × ((p : ℕ) (xs : List ℕ)
        → (p + length xs < buffer) ⊎ (buffer + suc (length ys) ≤ p)
        → Holds m p xs
        → Holds m' p xs)
    × ((nodes' new).next ≡ 0)
    × Holds m' (nodes' new).name ys
    × (new ≢ 0)

-- The state after `vfs_create_node`, with what memory holds then.
created : (kmalloc : ℕ → ℕ) → Vfs → (type : ℕ) → Memory → Vfs
created kmalloc s type bytes =
    let node = kmalloc s.allocations in
    let buffer = kmalloc (s.allocations + 1) in
    let file = kmalloc (s.allocations + 2) in
    let new_node = record (s.nodes node) { name = buffer; file = file; childs = 0; next = 0 } in
    let new_file = record (s.files file) {
      name = buffer;
      type = type;
      permissions = new_permissions type;
    } in
    record (set_file (set_node s node new_node) file new_file) {
      bytes = bytes;
      allocations = s.allocations + 3;
    }

-- The states after the new node has been linked as the only child, and behind the child `last`.
linked_first : Vfs → (parent new : ℕ) → Vfs
linked_first s parent new =
    let s = set_node s parent (record (s.nodes parent) { childs = new }) in
    set_node s new (record (s.nodes new) { parent = parent })

linked_last : Vfs → (parent last new : ℕ) → Vfs
linked_last s parent last new =
    let s = set_node s last (record (s.nodes last) { next = new }) in
    set_node s new (record (s.nodes new) { parent = parent; prev = last })
