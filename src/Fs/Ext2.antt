-- ===== src/Fs/Ext2.antt =====
-- kernel/fs/ext2fs/ext2.c: a partition of a disk, its inodes and their blocks. Structures are read
-- from the bytes of the disk; a product of two 32-bit fields is a 32-bit word. The groups and the sizes
-- of a valid superblock are not 0.
pub mod Files
pub mod Dir
use hydrangea.Prelude.{
  ℕ, zero, suc, ◌+◌, ◌-◌, ◌*◌, ◌/◌, ◌%◌, ◌^◌, ltb, ◌==◌, not, ◌&&◌, if◌then◌else◌,
}
use hydrangea.Libk.Bytes.{Memory}
use hydrangea.Drivers.Disk.{Drive, ata_read_b}

-- The little-endian words at `p`
abbrev pub word_16 : Memory → (p : ℕ) → ℕ
word_16 m p = m p + 2 ^ 8 * m (p + 1)

abbrev pub word_32 : Memory → (p : ℕ) → ℕ
word_32 m p = word_16 m p + 2 ^ 16 * word_16 m (p + 2)

-- The fields of `ext2_superblock_t` that the code reads
pub record Superblock : Type 0 where
  pub inodes_count : ℕ
  pub blocks_count : ℕ
  pub log2_block_size_minus_10 : ℕ
  pub blocks_per_group : ℕ
  pub inodes_per_group : ℕ
  pub ext2_signature : ℕ
  pub fs_state : ℕ
  pub error_handling_method : ℕ
  pub inode_size : ℕ

unfoldable pub read_superblock : Memory → Superblock
read_superblock m = record {
  inodes_count = word_32 m 0;
  blocks_count = word_32 m 4;
  log2_block_size_minus_10 = word_32 m 24;
  blocks_per_group = word_32 m 32;
  inodes_per_group = word_32 m 40;
  ext2_signature = word_16 m 56;
  fs_state = word_16 m 58;
  error_handling_method = word_16 m 60;
  inode_size = word_16 m 88;
}

-- `ext2_t`, with `inode_table_starting_block_addr` for each group
pub record Ext2 : Type 0 where
  pub superblock : Superblock
  pub inode_table : ℕ → ℕ
  pub groups_count : ℕ
  pub block_size : ℕ

-- `fs_t`; the drive is an argument of the functions.
pub record Fs : Type 0 where
  pub p_offset : ℕ
  pub partition_number : ℕ
  pub ext2 : Ext2

pub record Inode : Type 0 where
  pub type_permissions : ℕ
  pub size : ℕ
  pub direct_block_pointer : ℕ → ℕ
  pub singly_indirect_block_pointer : ℕ

unfoldable pub read_inode : Memory → Inode
read_inode m = record {
  type_permissions = word_16 m 0;
  size = word_32 m 4;
  direct_block_pointer = λ i. word_32 m (40 + 4 * i);
  singly_indirect_block_pointer = word_32 m 88;
}

unfoldable pub ext2_get_inode_offset : Ext2 → (inode_number : ℕ) → ℕ
ext2_get_inode_offset e inode_number =
    let nth = (inode_number + 2 ^ 32 - 1) % 2 ^ 32 in
    let group = nth / e.superblock.inodes_per_group in
    let index = nth % e.superblock.inodes_per_group in
    e.inode_table group * e.block_size % 2 ^ 32 + index * e.superblock.inode_size

-- The number of groups that hold `count` things, `per_group` in each.
unfoldable pub groups_for : (count per_group : ℕ) → ℕ
groups_for count per_group = count / per_group + (if count % per_group == 0 then 0 else 1)

pub data InitResult : Type 0 where
  bad_signature : InitResult
  panicked : InitResult
  mounted : Fs → InitResult

unfoldable pub partition_start : Drive → (partition_number : ℕ) → ℕ
partition_start drive nr = word_32 (drive 0 1) (446 + 16 * nr + 8) * 512 % 2 ^ 32

unfoldable pub ext2_init : Drive → (partition_number : ℕ) → InitResult
ext2_init drive nr =
    let offset = partition_start drive nr in
    let sb = read_superblock (ata_read_b drive (offset + 1024) 236) in
    let block_size = 1024 * 2 ^ sb.log2_block_size_minus_10 % 2 ^ 32 in
    let a = groups_for sb.blocks_count sb.blocks_per_group in
    let b = groups_for sb.inodes_count sb.inodes_per_group in
    let groups_count = if ltb b a then a else b in
    let gd_offset = if block_size == 1024 then 2048 else block_size in
    let gd = ata_read_b drive (offset + gd_offset) (groups_count * 32 % 2 ^ 32) in
    if not (sb.ext2_signature == 0xEF53)
    then bad_signature
    else if sb.fs_state == 2 && sb.error_handling_method == 3
    then panicked
    else mounted (record {
      p_offset = offset;
      partition_number = nr;
      ext2 = record {
        superblock = sb;
        inode_table = λ g. word_32 gd (32 * g + 8);
        groups_count = groups_count;
        block_size = block_size;
      };
    })

unfoldable pub ext2_get_inode : Drive → Fs → (inode_number : ℕ) → Inode
ext2_get_inode drive fs nr =
    let offset = ext2_get_inode_offset fs.ext2 nr in
    read_inode (ata_read_b drive (fs.p_offset + offset) fs.ext2.superblock.inode_size)

-- The `uint32_t` that ATA_read_b reads at `offset`
unfoldable pub block_pointer_at : Drive → (offset : ℕ) → ℕ
block_pointer_at drive offset = word_32 (ata_read_b drive offset 4) 0

unfoldable pub ext2_get_sbptr_offset : Drive → Fs → (inode_number index : ℕ) → ℕ
ext2_get_sbptr_offset drive fs nr index =
    let inode = ext2_get_inode drive fs nr in
    let block_size = fs.ext2.block_size in
    let offset =
      fs.p_offset + (inode.singly_indirect_block_pointer * block_size + index) % 2 ^ 32 in
    fs.p_offset + block_pointer_at drive offset * block_size % 2 ^ 32

unfoldable pub ext2_get_dbptr_offset : Drive → Fs → (inode_number index_1 index_2 : ℕ) → ℕ
ext2_get_dbptr_offset drive fs nr index_1 index_2 =
    let block_size = fs.ext2.block_size in
    let block_ptr_1 = block_pointer_at drive (ext2_get_sbptr_offset drive fs nr index_1) in
    let block_ptr_2 = block_pointer_at drive ((block_ptr_1 * block_size + index_2) % 2 ^ 32) in
    fs.p_offset + block_ptr_2 * block_size % 2 ^ 32

unfoldable pub ext2_get_tbptr_offset : Drive → Fs → (inode_number index_1 index_2 index_3 : ℕ) → ℕ
ext2_get_tbptr_offset drive fs nr index_1 index_2 index_3 =
    let block_size = fs.ext2.block_size in
    let block_ptr_1 = block_pointer_at drive (ext2_get_dbptr_offset drive fs nr index_1 index_2) in
    let block_ptr_2 = block_pointer_at drive ((block_ptr_1 * block_size + index_3) % 2 ^ 32) in
    fs.p_offset + block_ptr_2 * block_size % 2 ^ 32

-- `ext2_get_block_offset`; its result is a `uint32_t`.
unfoldable pub ext2_get_block_offset : Drive → Fs → (inode_number block_nbr : ℕ) → ℕ
ext2_get_block_offset drive fs nr block_nbr =
    let block_size = fs.ext2.block_size in
    let ppb = block_size / 4 in
    let inode = ext2_get_inode drive fs nr in
    let square = ppb * ppb % 2 ^ 32 in
    let cube = square * ppb % 2 ^ 32 in
    let double = (block_nbr + 2 ^ 32 - 12 + 2 ^ 32 - ppb) % 2 ^ 32 in
    let triple = (double + 2 ^ 32 - square) % 2 ^ 32 in
    if ltb block_nbr 12
    then inode.direct_block_pointer block_nbr * block_size % 2 ^ 32
    else if ltb block_nbr ((12 + ppb) % 2 ^ 32)
    then ext2_get_sbptr_offset drive fs nr ((block_nbr - 12) * 4 % 2 ^ 32) % 2 ^ 32
    else if ltb block_nbr ((12 + ppb + square) % 2 ^ 32)
    then ext2_get_dbptr_offset drive fs nr (double / ppb) (double % ppb) % 2 ^ 32
    else if ltb block_nbr ((12 + ppb + square + cube) % 2 ^ 32)
    then ext2_get_tbptr_offset drive fs nr (triple / square) (triple % square / ppb)
        (triple % square % ppb)
      % 2 ^ 32
    else 0
