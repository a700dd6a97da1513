-- ===== src/User.antt =====
-- src/kernel/user and src/kernel/elf.c, and the allocator of src/userland
pub mod Vma
pub mod Memory
pub mod Elf
pub mod Malloc
