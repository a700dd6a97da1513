-- ===== src/Lib.antt =====
-- A verification library for the kernel of SwiftBSD: its memory allocators, the memory areas and memory
-- calls of a process, its page tables, its processes, pipes and file descriptors, and its file system.
--
-- How the parts of the program interact. The system call handler (src/kernel/user/syscall_handler.c) works
-- on the table of memory areas and the descriptors of the current process (src/kernel/sched/process.h). For
-- memory it calls the page tables (src/kernel/arch/x86_64/vmm.c) and the page allocator
-- (src/kernel/mm/pmm.c); for files it calls src/kernel/fs/vfs.c, which holds the pipes and hands the other
-- calls to the file systems that are registered with it, of which src/kernel/fs/swiftfs2.c is the one on the
-- disk. Pipes, bitmaps and group descriptors come from the kernel heap (src/kernel/mm/kheap.c).
--
-- Prelude: shared names, Boolean tests, arrays as functions of an index with `update`, counted loops, words
-- of 32 and 64 bits.
--
-- Bitmap: the bit arrays of src/kernel/mm/pmm.c and src/kernel/fs/swiftfs2.c (bitmap_set, bit_set and so on
-- have the same code), their laws, and the number of clear bits.
--
-- Mm.Pmm: src/kernel/mm/pmm.c. The bitmap and its counters are the record Pmm; pmm_init reads the memory map
-- as a list of tags; page_alloc, page_free, pmm_free_count, pmm_total_mem as in the source.
-- Mm.Pmm.Owners is the view of a client that holds pages.
--
-- Mm.Vmm: src/kernel/arch/x86_64/vmm.c. Memory is the words at its addresses; get_or_alloc_table,
-- vmm_map_in_cr3, vmm_map, vmm_unmap and vmm_pt_lookup in Mm.Vmm, vmm_alloc_page, vmm_clone_pml4 and
-- vmm_unmap_user in Mm.Vmm.Clone. Mm.Vmm.Tables has the translation that the processor makes with the four levels
-- of tables, to a page and the permissions on it, and what it is to be a tree of them.
--
-- Mm.Fault: exception_handler of src/kernel/arch/x86_64/idt.c, with the accesses that it makes through the page
-- tables. What vfs_lseek and vfs_read leave in memory is an argument.
--
-- Mm.Kheap: src/kernel/mm/kheap.c. The linked list of headers in the pool is a list of blocks with their
-- addresses; kheap_init, kmalloc and kfree with its joining of neighbours.
--
-- User.Vma: struct vma of src/kernel/sched/process.h and vma_alloc_slot, vma_find, vma_hint, vma_split,
-- vma_compat and vma_try_merge of src/kernel/user/syscall_handler.c. User.Vma.View says what backs an
-- address. User.Memory: SC_BRK, SC_MMAP, SC_MUNMAP, SC_MSYNC and SC_MPROTECT, with vma_writeback_dirty and
-- vma_unmap_pages, over the record Machine of what they use of the page tables, the page allocator and the
-- files. The loops of SC_MUNMAP and SC_MPROTECT set their own index back and take fuel; `none` means that it
-- ran out. On a table of one area they look at each of the 64 slots once and at no more than two of them
-- again, so 67 rounds are enough.
--
-- User.Elf: elf64_load of src/kernel/elf.c, which maps the segments of an image and the stack and copies the bytes
-- through the page tables.
--
-- User.Malloc: src/userland/malloc.h, the allocator of the user programs, over the bytes of memory, with sbrk of
-- src/userland/syscall.h.
--
-- Fs.Pipe: struct pipe and pipe_read_op, pipe_write_op, pipe_close_op, pipe_write_close_op of
-- src/kernel/fs/vfs.c. The ring buffer of 4096 bytes is a function of the index, its positions wrap at
-- 2^32. A call that waits with sched_yield is handed back as waiting with what it has moved, and its next
-- round is a further step, so that the interleavings of processes are sequences of steps.
--
-- Fs.Vfs: the descriptor table of src/kernel/fs/vfs.c: vfs_init, vfs_register, fd_alloc, vfs_open, vfs_read,
-- vfs_write, vfs_close, vfs_fstat, vfs_lseek, vfs_pipe, vfs_dup, vfs_dup2. Pipes are in a store and
-- descriptors refer to them, so that descriptors can share one. Registered file systems and the serial line
-- are parameters.
--
-- Fs.SwiftFs: src/kernel/fs/swiftfs2.c. Cache is the block cache (read_block, write_block, cache_lookup,
-- cache_get, cache_mark_dirty, cache_flush_all), whose abstract view is the bytes of each block. State is
-- the mount state. Blocks is the block allocator (bitmap_for_group, bitmap_sync, block_alloc, block_free),
-- Inodes the inode table (inode_block_and_offset, inode_read, inode_write, inode_alloc, inode_free), Bmap is
-- bmap_read, Files the calls on open files, Paths path_next and path_walk, Dirs dir_add_entry, Names
-- swiftfs2_open and swiftfs2_mkdir, Names.Unlink swiftfs2_unlink and swiftfs2_ls, Ops the
-- operations that are registered with src/kernel/fs/vfs.c. An inode in memory is the bytes
-- of the packed struct; Bytes reads and writes its fields. The loops on a file take its number of bytes as
-- fuel, since each round moves one at least; the loops on a directory take one round for each block that
-- bmap_read can map (12 + 1024) and one more, and those on a block 4097 rounds, one for each byte and one more.
-- The scans of dir_add_entry and swiftfs2_unlink have a result of their own for a scan that does not end.
--
-- Sched: src/kernel/sched/sched.c with struct process. The table and the variables are the record Sched;
-- slot_alloc, pid_alloc, proc_index, sched_init, sched_run and sched_irq_return are in Sched, proc_create,
-- build_irq_frame, proc_fork, proc_exit and a round of proc_wait in Sched.Calls. Sched.Reach has the steps of
-- the table from sched_init on. The page tables and the page allocator are the record Pages.
--
-- Not modelled: the mount and the synchronisation of src/kernel/fs/swiftfs2.c; the system calls other than those
-- on memory, exec among them; the processor's cache of translations and the permissions in the upper three levels
-- of page tables, the devices
-- (src/kernel/hal), the interrupt tables and assembly, the module loader, the other files of src/userland and the tool
-- tools/mkfs.swiftfs2.c. The disk and the serial line answer as their drivers promise; the results of
-- ahci_read and ahci_write, which src/kernel/fs/swiftfs2.c does not look at, are left out.
pub mod Prelude
pub mod Bitmap
pub mod Mm
pub mod Fs
pub mod User
pub mod Sched
