-- ===== src/Fs/Ext2/Dir/Listing.antt =====
-- The entries that ext2_readdir gives, one after the other.
use hydrangea.Prelude.{
  ℕ, zero, suc, ◌+◌, ◌%◌, ◌^◌, ◌≤◌, ◌<◌, ◌≡◌, ◌≢◌, refl, sym, ◌∙◌, arith, Option, none, some, List,
  [], ◌∷◌, length, block, ne→not_==, lt→ltb,
}
use hydrangea.Libk.Bytes.{Memory}
use hydrangea.Drivers.Disk.{Drive}
use hydrangea.Fs.Ext2.{Fs, word_16, word_32, ext2_get_inode}
use hydrangea.Fs.Ext2.Dir.{Dirent, Dir, ext2_make_dirent, ext2_readdir}

-- An entry as it lies in a block: the inode's number, the entry's size, its type and its name.
pub record Entry : Type 0 where
  pub inode_number : ℕ
  pub entry_size : ℕ
  pub type : ℕ
  pub name : List ℕ

-- The entries lie one after the other from `p` to the end of the block at `size`, and all are in use.
abbrev pub Listed : Memory → (p size : ℕ) → List Entry → Type 0
Listed m p size [] = p ≡ size
Listed m p size (e ∷ es) =
    (p < size)
    × (word_32 m p ≡ e.inode_number)
    × (e.inode_number ≢ 0)
    × (word_16 m (p + 4) ≡ e.entry_size)
    × (m (p + 6) ≡ length e.name)
    × (m (p + 7) ≡ e.type)
    × (block m (p + 8) (length e.name) ≡ e.name)
    × Listed m (p + e.entry_size) size es

-- What `ext2_readdir` says of an entry: its name, its type, and the size and permissions of its inode.
abbrev pub described : Drive → Fs → Entry → Dirent
described drive fs e =
    let inode = ext2_get_inode drive fs e.inode_number in
    record {
      inode_number = e.inode_number;
      size = inode.size;
      type = e.type;
      permissions = inode.type_permissions;
      name = e.name;
    }

abbrev pub all_described : Drive → Fs → List Entry → List Dirent
all_described drive fs [] = []
all_described drive fs (e ∷ es) = described drive fs e ∷ all_described drive fs es

-- `n` calls of `ext2_readdir`: the entries, and the directory.
unfoldable pub read_entries : Drive → Fs → Dir → (n : ℕ) → Option (List Dirent × Dir)
read_entries drive fs dir zero = some ([], dir)
read_entries drive fs dir (suc n) = elim (ext2_readdir drive fs dir 2) [
  | none ↦ none
  | some (none, dir') ↦ none
  | some (some ent, dir') ↦ elim (read_entries drive fs dir' n) [
    | none ↦ none
    | some (ents, last) ↦ some (ent ∷ ents, last)
  ]
]

readdir-entry :
    (drive : Drive) (fs : Fs) (dir : Dir) (e : Entry) (es : List Entry)
    → dir.so_far ≡ dir.next
    → fs.ext2.block_size < 2 ^ 31
    → Listed dir.block_buffer dir.next fs.ext2.block_size (e ∷ es)
    → ext2_readdir drive fs dir 2
      ≡ some (
        some (described drive fs e),
        record dir {
          next = (dir.next + e.entry_size) % 2 ^ 32;
          so_far = (dir.so_far + e.entry_size) % 2 ^ 32;
          ent = described drive fs e;
        },
      )
unfolding ext2_readdir ext2_make_dirent
readdir-entry drive fs dir e es at small (in_block, nr, used, size, len, type, name, rest) =
    let here = lt→ltb dir.so_far fs.ext2.block_size (omega (arith, at, in_block)) in
    let live = ne→not_== e.inode_number 0 used in
    rw here (rw nr (rw live (rw size (rw len (rw type (rw name refl))))))

Listed-le : (m : Memory) (p size : ℕ) (es : List Entry) → Listed m p size es → p ≤ size
Listed-le m p size [] h = omega (arith, h)
Listed-le m p size (e ∷ es) h = let start = h.0 in omega (arith, start)

-- From the start of a block of at most 2 GiB whose entries are all in use, as many calls of ext2_readdir
-- as there are entries give them in order, each with its name and type and the size and permissions of
-- its inode, and leave the directory at the end of the block.
pub ext2_readdir-Listed :
    (drive : Drive) (fs : Fs) (dir : Dir) (es : List Entry)
    → dir.so_far ≡ dir.next
    → fs.ext2.block_size < 2 ^ 31
    → Listed dir.block_buffer dir.next fs.ext2.block_size es
    → (last : Dir) × (read_entries drive fs dir (length es)
        ≡ some (all_described drive fs es, last))
      × (last.so_far ≡ fs.ext2.block_size)
      × (last.bp_index ≡ dir.bp_index)
unfolding read_entries
ext2_readdir-Listed drive fs dir [] at small l = (dir, refl, at ∙ l, refl)
ext2_readdir-Listed drive fs dir (e ∷ es) at small l =
    let (in_block, nr, used, size, len, type, name, rest) = l in
    let first = readdir-entry drive fs dir e es at small l in
    let le = Listed-le dir.block_buffer (dir.next + e.entry_size) fs.ext2.block_size es rest in
    let moved : (dir.next + e.entry_size) % 2 ^ 32 ≡ dir.next + e.entry_size =
      omega (arith, le, small) in
    let moved' : (dir.so_far + e.entry_size) % 2 ^ 32 ≡ dir.next + e.entry_size =
      omega (arith, le, small, at) in
    let dir' = record dir {
      next = (dir.next + e.entry_size) % 2 ^ 32;
      so_far = (dir.so_far + e.entry_size) % 2 ^ 32;
      ent = described drive fs e;
    } in
    let (last, run, end, same) =
      ext2_readdir-Listed drive fs dir' es (moved' ∙ sym moved) small (rw moved rest) in
    (last, rw (first, read_entries) (rw run refl), end, same)
