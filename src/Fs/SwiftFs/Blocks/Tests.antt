-- ===== src/Fs/SwiftFs/Blocks/Tests.antt =====
-- Tests of the block allocator of src/kernel/fs/swiftfs2.c, on one group whose blocks are all taken but one.
use swift_bsd.Prelude.{◌≡◌, refl, sym, true, false, none, arith, find_first}
use swift_bsd.Bitmap.{bit_test, bit_test-full, bit_clear, bit_set}
use swift_bsd.Bitmap.Count.{clear_bits-zero}
use swift_bsd.Mm.Kheap.{kheap_init, kmalloc, kmalloc_loop, take_block}
use swift_bsd.Fs.SwiftFs.Cache.{empty_entry, read_block, cache_mark_dirty, mark_at, cache_lookup}
use swift_bsd.Fs.SwiftFs.State.{SwiftFs}
use swift_bsd.Fs.SwiftFs.Blocks.{
  block_alloc, alloc_loop, alloc_group, alloc_in, alloc_bit, take_bit, block_free, free_in,
  give_bit, bitmap_for_group, bitmap_in, load_bitmap,
}
use swift_bsd.Fs.SwiftFs.Blocks.Inv.{IsValid, total}
use swift_bsd.Fs.SwiftFs.Blocks.Alloc.{Allocation, block_alloc-Allocation}
use swift_bsd.Fs.SwiftFs.Blocks.Free.{Release, block_free-Release}

abbrev full_fs : SwiftFs
full_fs = record {
  free_blocks = 0;
  free_inodes = 0;
  nr_groups = 1;
  gd = (λ g. record {
    block_bitmap_block = 2;
    inode_table_block = 3;
    free_blocks_count = 0;
    free_inodes_count = 0;
  });
  bitmaps = (λ g. none);
  curr_group = 0;
  fds = (λ i. record { inode = 0; pos = 0; flags = 0; dirty = false });
  mounted = true;
  cache = record { entries = (λ i. empty_entry); next = 0; disk = (λ b k. 255) };
  heap = kheap_init 0x1000 8192;
}

full_fs-IsValid : IsValid full_fs
unfolding total
full_fs-IsValid = record {
  size = omega arith;
  bytes = λ g p i. omega arith;
  counted = λ g p. sym (clear_bits-zero 32768 (λ k. 255) (λ p q. bit_test-full (λ k. 255) p refl));
  summed = refl;
}

abbrev one_free : SwiftFs
one_free = block_free 100 full_fs

one_free-IsValid : IsValid one_free
one_free-IsValid = (block_free-Release full_fs 100 full_fs-IsValid).0

finds_it : (block_alloc one_free).0 ≡ 100
unfolding block_alloc alloc_loop alloc_group alloc_in alloc_bit take_bit block_free free_in give_bit
    bitmap_for_group bitmap_in load_bitmap kheap_init kmalloc kmalloc_loop take_block read_block
    cache_mark_dirty mark_at cache_lookup find_first bit_test bit_clear bit_set
finds_it = refl

block_alloc-Allocation_example :
    IsValid (block_alloc one_free).1 × Allocation one_free (block_alloc one_free)
block_alloc-Allocation_example = block_alloc-Allocation one_free one_free-IsValid

block_free-Release_example :
    IsValid (block_free 100 full_fs) × Release full_fs 100 (block_free 100 full_fs)
block_free-Release_example = block_free-Release full_fs 100 full_fs-IsValid
