-- ===== src/Fs.antt =====
-- src/kernel/fs
pub mod Pipe
pub mod Vfs
pub mod SwiftFs
