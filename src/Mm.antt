-- ===== src/Mm.antt =====
-- src/kernel/mm, and src/kernel/arch/x86_64/vmm.c and idt.c
pub mod Pmm
pub mod Kheap
pub mod Vmm
pub mod Fault
