-- ===== src/Fs/Files.antt =====
-- Files behind the nodes: vfs_read and its kin of kernel/fs/vfs.c, kernel/fs/tmpfs/tmpfs.c,
-- kernel/fs/initrd/initrd.c and kernel/fs/devfs/devfs.c.
pub mod Octal
pub mod Tmpfs
use hydrangea.Prelude.{
  ℕ, zero, suc, ◌+◌, ◌-◌, ◌*◌, ◌/◌, ◌%◌, ◌^◌, Bool, true, false, Option, none, some, List, [], ◌∷◌,
  ◌==◌, ltb, leb, if◌then◌else◌, update, not, ◌&&◌, ◌>>=◌,
}
use hydrangea.Libk.Bytes.{Memory, memcpy}
use hydrangea.Libk.Str.{strlen}
use hydrangea.Fs.Vfs.{
  VfsNode, VfsFile, Vfs, Literals, set_node, set_file, vfs_file, vfs_dir, vfs_cdev, vfs_bdev,
  vfs_add_child,
}
use hydrangea.Fs.Path.{vfs_make_node, vfs_node_from_path}

-- A call through a pointer of a file, where it is set: `call` is the function there.
unfoldable pub vfs_call {ℓ} : {A : Type ℓ} → (pointer : ℕ) → (call unset : A) → A
vfs_call pointer call unset = if pointer == 0 then unset else call

-- `vfs_read` and `vfs_write`; `table` has the functions by their addresses.
unfoldable pub vfs_read :
    (table : ℕ → Vfs → ℕ → ℕ → ℕ → ℕ → Option (ℕ × Vfs))
    → Vfs
    → (file offset size buffer : ℕ) → Option (ℕ × Vfs)
vfs_read table s file offset size buffer =
    let f = (s.files file).read_file in vfs_call f (table f s file offset size buffer) (some (0, s))

unfoldable pub vfs_write :
    (table : ℕ → Vfs → ℕ → ℕ → ℕ → ℕ → Option (ℕ × Vfs))
    → Vfs
    → (file offset size buffer : ℕ) → Option (ℕ × Vfs)
vfs_write table s file offset size buffer =
    let f = (s.files file).write_file in
    vfs_call f (table f s file offset size buffer) (some (0, s))

-- `initrd_read` and `tmpfs_vfs_read`, which are the same: what is copied is cut at the end of the file.
unfoldable pub initrd_read : Vfs → (node offset size buffer : ℕ) → ℕ × Vfs
initrd_read s node offset size buffer =
    let file = s.files node in
    let size = if ltb file.size ((offset + size) % 2 ^ 32) then file.size - offset else size in
    if leb file.size offset
    then (0, s)
    else (size, record s { bytes = memcpy s.bytes buffer (file.inode + offset) size })

unfoldable pub tmpfs_vfs_read : Vfs → (node offset size buffer : ℕ) → ℕ × Vfs
tmpfs_vfs_read s node offset size buffer =
    let file = s.files node in
    let size = if ltb file.size ((offset + size) % 2 ^ 32) then file.size - offset else size in
    if leb file.size offset
    then (0, s)
    else (size, record s { bytes = memcpy s.bytes buffer (file.inode + offset) size })

-- `tmpfs_vfs_write`; `krealloc` gives the new address and what memory holds then.
unfoldable pub tmpfs_vfs_write :
    (kmalloc : ℕ → ℕ)
    → (krealloc : Memory → (ptr size : ℕ) → ℕ × Memory) → Vfs
    → (node offset size buffer : ℕ) → ℕ × Vfs
tmpfs_vfs_write kmalloc krealloc s node offset size buffer =
    let file = s.files node in
    let inode = if file.inode == 0 then kmalloc s.allocations else file.inode in
    let s = if file.inode == 0 then record s { allocations = s.allocations + 1 } else s in
    let (moved_to, grown) = krealloc s.bytes inode size in
    let inode' = if ltb file.size size then moved_to else inode in
    let bytes = if ltb file.size size then grown else s.bytes in
    let file = record file { inode = inode'; size = (file.size + size) % 2 ^ 32 } in
    (size, record (set_file s node file) { bytes = memcpy bytes (inode' + offset) buffer size })

-- The loop of `tar_get_size` with `j` digits to go.
unfoldable pub add_digits : Memory → (input j size count : ℕ) → ℕ
add_digits m input zero size count = size
add_digits m input (suc j) size count =
    let digit = (m (input + j) + 2 ^ 32 - 48) % 2 ^ 32 in
    add_digits m input j ((size + digit * count % 2 ^ 32) % 2 ^ 32) (count * 8 % 2 ^ 32)

unfoldable pub tar_get_size : Memory → (input : ℕ) → ℕ
tar_get_size m input = add_digits m input 11 0 1

-- Where the fields of `tar_header_t` lie.
abbrev pub header_size : ℕ
header_size = 124

abbrev pub header_typeflag : ℕ
header_typeflag = 156

-- The address of the next header in `tar_parse`.
unfoldable pub next_header : (addr size : ℕ) → ℕ
next_header addr size =
    let addr = (addr + (size / 512 + 1) * 512) % 2 ^ 32 in
    if size % 512 == 0 then addr else (addr + 512) % 2 ^ 32

-- The four bytes of a word in memory, at `header->offset`.
unfoldable pub write_word : Memory → (p value : ℕ) → Memory
write_word m p value =
    let m = update m p (value % 2 ^ 8) in
    let m = update m (p + 1) (value / 2 ^ 8 % 2 ^ 8) in
    let m = update m (p + 2) (value / 2 ^ 16 % 2 ^ 8) in update m (p + 3) (value / 2 ^ 24 % 2 ^ 8)

-- The loop of `tar_parse` at the header at `addr`, with `i` files so far; `read` is `initrd_read`'s
-- address. The field `offset` lies 160 bytes behind the header's start.
unfoldable pub parse_from :
    (kmalloc : ℕ → ℕ) → Vfs → Literals → (read node addr i bound fuel : ℕ) → Option (ℕ × Vfs)
parse_from kmalloc s lit read node addr i bound zero = none
parse_from kmalloc s lit read node addr i bound (suc n) =
    let type = if s.bytes (addr + header_typeflag) == 53 then vfs_dir else vfs_file in
    let entry : Option (ℕ × Vfs) = do
      (new, s) ← vfs_make_node kmalloc s lit node (addr + 2) type (addr + 512) bound
      let file = (s.nodes new).file
      let size = tar_get_size s.bytes (addr + header_size)
      let s = set_file s file (record (s.files file) { read_file = read; size = size })
      let s = record s { bytes = write_word s.bytes (addr + 160) addr }
      parse_from kmalloc s lit read node (next_header addr size) ((i + 1) % 2 ^ 32) bound n
    in elim (strlen s.bytes addr bound) [
      | none ↦ none
      | some len ↦ if len == 0 then some (i, s) else entry
    ]

unfoldable pub tar_parse :
    (kmalloc : ℕ → ℕ) → Vfs → Literals → (read node addr fuel : ℕ) → Option (ℕ × Vfs)
tar_parse kmalloc s lit read node addr fuel = parse_from kmalloc s lit read node addr 0 fuel fuel

-- `devfs_node_t`
pub record Device : Type 0 where
  pub name : ℕ
  pub type : ℕ
  pub open_file : ℕ
  pub close_file : ℕ
  pub read_file : ℕ
  pub write_file : ℕ
  pub device_specific : ℕ

-- `devfs_init` and `tmpfs_init`: the status, the root found, and the state. `mounted` is the root so
-- far.
unfoldable pub devfs_init :
    (kmalloc : ℕ → ℕ) → Vfs → Literals → (mounted path fuel : ℕ) → Option (ℕ × ℕ × Vfs)
devfs_init kmalloc s lit mounted path fuel =
    let found : Option (ℕ × ℕ × Vfs) = do
      (root, s) ← vfs_node_from_path kmalloc s lit s.vfs_root path fuel
      some (0, root, s)
    in if mounted == 0 then found else some (1, mounted, s)

unfoldable pub devfs_register_dev :
    (kmalloc : ℕ → ℕ) → Vfs → (root : ℕ) → Device → (fuel : ℕ) → Option (ℕ × Vfs)
devfs_register_dev kmalloc s root dev fuel =
    let added : Option (ℕ × Vfs) = do
      (node, s) ← vfs_add_child kmalloc s root dev.name dev.type fuel
      let file = (s.nodes node).file
      some (
        0,
        set_file s file (record (s.files file) {
          open_file = dev.open_file;
          read_file = dev.read_file;
          write_file = dev.write_file;
          close_file = dev.close_file;
          inode = dev.device_specific;
        }),
      )
    in if root == 0
      then some (1, s)
      else if not (dev.type == vfs_cdev) && not (dev.type == vfs_bdev)
      then some (2, s)
      else added
