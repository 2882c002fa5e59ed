-- ===== src/Fs/Path.antt =====
-- Paths in kernel/fs/vfs.c: lookup, creation along a path, the path of a node, giving nodes back, and
-- the text of the permissions. `strtok` is that of libk/string.c, over the same memory.
use Prim.Native.Nat.{bit_and}
use hydrangea.Prelude.{
  ℕ, zero, suc, ◌+◌, ◌^◌, Option, none, some, ◌==◌, if◌then◌else◌, update, ◌>>=◌,
}
use hydrangea.Libk.Bytes.{Memory}
use hydrangea.Libk.Str.{strcpy, strcmp, strcat, strtok}
use hydrangea.Fs.Vfs.{
  Vfs, Literals, set_node, set_file, kfree, vfs_file, vfs_dir, vfs_mtpt, vfs_add_child,
  vfs_get_child_by_name,
}

-- `strtok`, whose static variable is part of the state.
unfoldable pub next_token : Vfs → (str delim fuel : ℕ) → Option (ℕ × Vfs)
next_token s str delim fuel = elim (strtok s.bytes s.strtok_i str delim fuel) [
  | none ↦ none
  | some (token, bytes, i) ↦ some (token, record s { bytes = bytes; strtok_i = i })
]

-- `kmalloc(256)` and `strcpy` into it
unfoldable pub copy_path : (kmalloc : ℕ → ℕ) → Vfs → (path fuel : ℕ) → Option (ℕ × Vfs)
copy_path kmalloc s path fuel =
    let ap = kmalloc s.allocations in
    elim (strcpy s.bytes ap path fuel) [
      | none ↦ none
      | some bytes ↦ some (ap, record s { bytes = bytes; allocations = s.allocations + 1 })
    ]

-- The loop of `vfs_node_from_path` at `node`, with the next token.
unfoldable pub walk : Vfs → Literals → (node token bound fuel : ℕ) → Option (ℕ × Vfs)
walk s lit node token bound zero = none
walk s lit node token bound (suc n) =
    elim (if token == 0 then some 0 else vfs_get_child_by_name s lit node token bound) [
      | none ↦ none
      | some child ↦
          let more : Option (ℕ × Vfs) = do
            (next, s) ← next_token s 0 lit.slash bound
            walk s lit child next bound n
          in if token == 0 then some (node, s) else if child == 0 then some (0, s) else more
    ]

-- `vfs_node_from_path`
unfoldable pub vfs_node_from_path :
    (kmalloc : ℕ → ℕ) → Vfs → Literals → (root path fuel : ℕ) → Option (ℕ × Vfs)
vfs_node_from_path kmalloc s lit root path fuel = do
  (ap, s) ← copy_path kmalloc s path fuel
  (token, s) ← next_token s ap lit.slash fuel
  walk s lit (if s.bytes path == 47 then s.vfs_root else root) token fuel fuel

-- `vfs_free_child_nodes` and `vfs_free_node`: all siblings from `n` on with what is below them. What is
-- given back is read once more for the next sibling.
unfoldable pub free_from : Vfs → (n fuel : ℕ) → Option Vfs
free_from s n zero = none
free_from s n (suc fuel) =
    let node = s.nodes n in
    let all : Option Vfs = do
      s ← free_from (kfree (kfree s node.name) node.file) node.childs fuel
      let s = kfree (set_node s n (record (s.nodes n) { childs = 0 })) n
      free_from s (s.nodes n).next fuel
    in if n == 0 then some s else all

unfoldable pub vfs_free_child_nodes : Vfs → (node fuel : ℕ) → Option Vfs
vfs_free_child_nodes s node fuel = do
  s ← free_from s (s.nodes node).childs fuel
  some (set_node s node (record (s.nodes node) { childs = 0 }))

unfoldable pub vfs_free_node : Vfs → (node fuel : ℕ) → Option Vfs
vfs_free_node s node fuel = do
  s ← vfs_free_child_nodes (kfree (kfree s (s.nodes node).name) (s.nodes node).file) node fuel
  some (kfree s node)

-- The loop of `vfs_make_node` at `node`; the tokens after the first one end at blanks.
unfoldable pub make_along :
    (kmalloc : ℕ → ℕ) → Vfs → Literals → (node token type bound fuel : ℕ) → Option (ℕ × Vfs)
make_along kmalloc s lit node token type bound zero = none
make_along kmalloc s lit node token type bound (suc n) =
    let step : Option (ℕ × Vfs) = do
      child ← vfs_get_child_by_name s lit node token bound
      (child, s) ←
          (if child == 0 then vfs_add_child kmalloc s node token type bound else some (child, s))
      (next, s) ← next_token s 0 lit.space bound
      make_along kmalloc s lit child next type bound n
    in if token == 0 then some (node, s) else step

-- `vfs_make_node`
unfoldable pub vfs_make_node :
    (kmalloc : ℕ → ℕ) → Vfs → Literals → (root path type inode fuel : ℕ) → Option (ℕ × Vfs)
vfs_make_node kmalloc s lit root path type inode fuel = do
  (ap, s) ← copy_path kmalloc s path fuel
  (token, s) ← next_token s ap lit.slash fuel
  (node, s) ← make_along kmalloc s lit root token type fuel fuel
  let file = (s.nodes node).file
  let s = set_file s file (record (s.files file) { type = type; inode = inode })
  s ← (if type == vfs_file then vfs_free_child_nodes s node fuel else some s)
  some (node, s)

-- The loop of `vfs_abs_path_to`; the copy is given back in every round.
unfoldable pub path_up :
    (kmalloc : ℕ → ℕ) → Vfs → Literals → (node path bound fuel : ℕ) → Option Vfs
path_up kmalloc s lit node path bound zero = none
path_up kmalloc s lit node path bound (suc n) =
    let parent = (s.nodes node).parent in
    let up : Option Vfs = do
      (bak, s) ← copy_path kmalloc s path bound
      bytes ← strcpy s.bytes path (s.nodes parent).name bound
      at_root ← strcmp bytes path lit.slash bound
      bytes ← (if at_root == 0 then some bytes else strcat bytes path lit.slash bound)
      bytes ← strcat bytes path bak bound
      path_up kmalloc (kfree (record s { bytes = bytes }) bak) lit parent path bound n
    in if parent == node then some s else up

-- `vfs_abs_path_to`
unfoldable pub vfs_abs_path_to :
    (kmalloc : ℕ → ℕ) → Vfs → Literals → (node fuel : ℕ) → Option (ℕ × Vfs)
vfs_abs_path_to kmalloc s lit node fuel =
    let path : Option (ℕ × Vfs) = do
      (path, s) ← copy_path kmalloc s (s.nodes node).name fuel
      s ← path_up kmalloc s lit node path fuel fuel
      some (path, s)
    in if node == 0 then some (0, s) else path

-- `vfs_is_dir` and `vfs_is_mtpt`, as 0 or 1
unfoldable pub vfs_is_dir : Vfs → (node : ℕ) → ℕ
vfs_is_dir s node = if (s.files (s.nodes node).file).type == vfs_dir then 1 else 0

unfoldable pub vfs_is_mtpt : Vfs → (node : ℕ) → ℕ
vfs_is_mtpt s node = if (s.files (s.nodes node).file).type == vfs_mtpt then 1 else 0

-- One character of `vfs_drwxrwxrwx`
unfoldable pub mark : (permissions mask letter : ℕ) → ℕ
mark permissions mask letter = if bit_and permissions mask == 0 then 45 else letter

-- `vfs_drwxrwxrwx`
unfoldable pub vfs_drwxrwxrwx : Memory → (out permissions : ℕ) → Memory
vfs_drwxrwxrwx m out p =
    let m = update m out (mark p (2 ^ 14) 100) in
    let m = update m (out + 1) (mark p 0x100 114) in
    let m = update m (out + 2) (mark p 0x080 119) in
    let m = update m (out + 3) (mark p 0x040 120) in
    let m = update m (out + 4) (mark p 0x020 114) in
    let m = update m (out + 5) (mark p 0x010 119) in
    let m = update m (out + 6) (mark p 0x008 120) in
    let m = update m (out + 7) (mark p 0x004 114) in
    let m = update m (out + 8) (mark p 0x002 119) in update m (out + 9) (mark p 0x001 120)
