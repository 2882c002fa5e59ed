-- ===== src/Fs/Ext2/Files.antt =====
-- ext2_readfile, ext2_vfs_read and ext2_type_translate of kernel/fs/ext2fs/ext2.c. Buffers do not
-- overlap the structures of the file system.
pub mod Blocks
use Prim.Native.Nat.{bit_and}
use hydrangea.Prelude.{
  ℕ, zero, suc, ◌+◌, ◌-◌, ◌/◌, ◌%◌, ◌^◌, ltb, ◌==◌, ◌||◌, Bool, true, false, if◌then◌else◌, update,
}
use hydrangea.Libk.Bytes.{Memory}
use hydrangea.Drivers.Disk.{Drive, ata_read_b, copy_in}
use hydrangea.Fs.Ext2.{Fs, Inode, ext2_get_inode, ext2_get_block_offset}

-- `ATA_read_b` into a buffer in memory
abbrev pub read_into : Drive → Memory → (offset size buffer : ℕ) → Memory
read_into drive m offset size buffer = copy_in m buffer size (ata_read_b drive offset size)

-- The loop of `ext2_readfile` from the block `blk` on, with `n` rounds to go; `false` if a block has no
-- offset.
unfoldable pub read_blocks :
    Drive
    → Fs
    → Memory
    → (inode_number block_start block_end start_offset end_offset buffer blk n : ℕ) → Bool × Memory
read_blocks drive fs m nr block_start block_end start_offset end_offset buffer blk zero = (true, m)
read_blocks drive fs m nr block_start block_end start_offset end_offset buffer blk (suc n) =
    let b_offset = ext2_get_block_offset drive fs nr blk in
    let b_size = fs.ext2.block_size in
    let m' =
      if blk == block_start
      then read_into drive m (fs.p_offset + b_offset + start_offset) (b_size - start_offset) buffer
      else if blk == block_end
      then read_into drive m (fs.p_offset + b_offset + end_offset) end_offset buffer
      else m in
    let rest =
      read_blocks drive fs m' nr block_start block_end start_offset end_offset buffer (suc blk) n in
    if b_offset == 0 then (false, m) else rest

unfoldable pub ext2_readfile :
    Drive → Fs → Memory → (inode_number offset size buffer : ℕ) → ℕ × Memory
ext2_readfile drive fs m nr offset size buffer =
    let inode = ext2_get_inode drive fs nr in
    let block_size = fs.ext2.block_size in
    let end = (offset + size) % 2 ^ 64 in
    let end = if ltb inode.size end then inode.size else end in
    let block_start = offset / block_size in
    let block_end = end / block_size in
    let start_offset = offset % block_size in
    let end_offset = end % block_size in
    let b_offset = ext2_get_block_offset drive fs nr block_start in
    let (all_read, m') =
      read_blocks drive fs m nr block_start block_end start_offset end_offset buffer block_start
        (block_end - block_start) in
    if size == 0
    then (0, m)
    else if bit_and inode.type_permissions 0x8000 == 0
    then (0, m)
    else if inode.size == 0 || ltb inode.size size
    then (0, m)
    else if block_start == block_end
    then (size, read_into drive m (fs.p_offset + b_offset + start_offset) size buffer)
    else if all_read
    then (size, update m' (buffer + inode.size) 0)
    else (0, m')

-- `ext2_vfs_read` of a node with this file system and inode
unfoldable pub ext2_vfs_read : Drive → Fs → Memory → (inode offset size buffer : ℕ) → ℕ × Memory
ext2_vfs_read drive fs m inode offset size buffer =
    ext2_readfile drive fs m inode offset size buffer
