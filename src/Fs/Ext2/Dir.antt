-- ===== src/Fs/Ext2/Dir.antt =====
-- ext2_opendir, ext2_readdir and ext2_type_translate of kernel/fs/ext2fs/ext2.c. `next` is the offset
-- of the next entry within the block in the directory's buffer.
pub mod Listing
use Prim.Native.Nat.{bit_and}
use hydrangea.Prelude.{
  ℕ, zero, suc, ◌+◌, ◌*◌, ◌%◌, ◌^◌, Option, none, some, List, ltb, ◌==◌, if◌then◌else◌, block,
}
use hydrangea.Libk.Bytes.{Memory}
use hydrangea.Drivers.Disk.{Drive, ata_read_b}
use hydrangea.Fs.Vfs.{vfs_file, vfs_dir, vfs_cdev, vfs_bdev}
use hydrangea.Fs.Ext2.{Fs, Inode, word_16, word_32, ext2_get_inode, ext2_get_block_offset}

-- `struct dirent`; the name is without its terminator.
pub record Dirent : Type 0 where
  pub inode_number : ℕ
  pub size : ℕ
  pub type : ℕ
  pub permissions : ℕ
  pub name : List ℕ

-- `DIR`
pub record Dir : Type 0 where
  pub inode_number : ℕ
  pub block_buffer : Memory
  pub bp_index : ℕ
  pub so_far : ℕ
  pub next : ℕ
  pub ent : Dirent

-- `ext2_opendir`; `fresh` is what `kmalloc` gives for the structure, of which memset clears 4 bytes, the
-- size of a pointer. `none` is NULL.
unfoldable pub ext2_opendir : Drive → Fs → (fresh : Dir) (inode_number : ℕ) → Option Dir
ext2_opendir drive fs fresh nr =
    let inode = ext2_get_inode drive fs nr in
    let block_size = fs.ext2.block_size in
    let offset = fs.p_offset + inode.direct_block_pointer 0 * block_size % 2 ^ 32 in
    if bit_and inode.type_permissions 0x4000 == 0
    then none
    else some (record fresh {
      inode_number = nr;
      block_buffer = ata_read_b drive offset block_size;
      next = 0;
      so_far = 0;
    })

-- `ext2_make_dirent` of the entry at `next`
unfoldable pub ext2_make_dirent : Drive → Fs → Dir → Dir
ext2_make_dirent drive fs dir =
    let m = dir.block_buffer in
    let e = dir.next in
    let inode_number = word_32 m e in
    let entry_size = word_16 m (e + 4) in
    let inode = ext2_get_inode drive fs inode_number in
    record dir {
      next = (e + entry_size) % 2 ^ 32;
      so_far = (dir.so_far + entry_size) % 2 ^ 32;
      ent = record {
        inode_number = inode_number;
        size = inode.size;
        type = m (e + 7);
        permissions = inode.type_permissions;
        name = block m (e + 8) (m (e + 6));
      };
    }

-- `ext2_readdir`: the entry, `none` for NULL, and the directory; 2 rounds are enough unless the size of
-- a block is 0.
unfoldable pub ext2_readdir : Drive → Fs → Dir → (fuel : ℕ) → Option (Option Dirent × Dir)
ext2_readdir drive fs dir zero = none
ext2_readdir drive fs dir (suc n) =
    let made = ext2_make_dirent drive fs dir in
    let bp_index = (dir.bp_index + 1) % 2 ^ 32 in
    let b_offset = ext2_get_block_offset drive fs dir.inode_number bp_index in
    let rest =
      ext2_readdir drive fs
        (record dir {
          bp_index = bp_index;
          block_buffer = ata_read_b drive (fs.p_offset + b_offset) fs.ext2.block_size;
          next = 0;
          so_far = 0;
        })
        n in
    if ltb dir.so_far fs.ext2.block_size
    then (if word_32 dir.block_buffer dir.next == 0
        then some (none, dir)
        else some (some made.ent, made))
    else if b_offset == 0
    then some (none, record dir { bp_index = bp_index })
    else rest

-- `ext2_type_translate`, with the types of vfs.h
unfoldable pub ext2_type_translate : (type : ℕ) → ℕ
ext2_type_translate type =
    if type == 2
    then vfs_dir
    else if type == 3
    then vfs_cdev
    else if type == 4
    then vfs_bdev
    else if type == 5
    then 0x5
    else if type == 6
    then 0x7
    else if type == 7
    then 0x4
    else vfs_file
