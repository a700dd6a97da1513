-- ===== src/Fs/SwiftFs.antt =====
-- src/kernel/fs/swiftfs2.c, the file system on the disk: its block cache, the mount state, the block
-- allocator, the inodes and the files.
pub mod Cache
pub mod State
pub mod Bytes
pub mod Blocks
pub mod Inodes
pub mod Bmap
pub mod Files
pub mod Paths
pub mod Dirs
pub mod Names
pub mod Ops
