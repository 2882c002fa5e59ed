-- ===== src/Fs.antt =====
-- kernel/fs: the tree of nodes (vfs.c), files and descriptors, and ext2.
pub mod Vfs
pub mod Path
pub mod Files
pub mod Descriptors
pub mod Ext2
