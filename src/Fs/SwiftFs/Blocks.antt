-- ===== src/Fs/SwiftFs/Blocks.antt =====
-- The block allocator of src/kernel/fs/swiftfs2.c: bitmap_for_group, bitmap_sync, block_alloc, block_free.
-- Its bit_set, bit_test and bit_clear are those of Bitmap. A group number is not negative here.
pub mod Inv
pub mod Alloc
pub mod Free
mod Tests
use swift_bsd.Prelude.{
  ℕ, zero, suc, ◌+◌, ◌-◌, ◌*◌, ◌/◌, ◌%◌, ◌^◌, Bool, true, false, Option, none, some, not, ◌==◌, ltb,
  leb, if◌then◌else◌, update, find_first, add32, add64, sub64,
}
use swift_bsd.Bitmap.{bit_set, bit_clear, bit_test}
use swift_bsd.Mm.Kheap.{KheapList, kmalloc}
use swift_bsd.Fs.SwiftFs.Cache.{Data, Cache, read_block, write_block, cache_mark_dirty}
use swift_bsd.Fs.SwiftFs.State.{SwiftFs, Gd, Loaded, blocks_per_group}

abbrev pub group_of_block : ℕ → ℕ
group_of_block block = block / blocks_per_group

abbrev pub block_in_group : ℕ → ℕ
block_in_group block = block % blocks_per_group

abbrev pub group_start_block : ℕ → ℕ
group_start_block group = group * blocks_per_group % 2 ^ 32

-- a bitmap that kmalloc has given memory for is read from the disk
unfoldable pub load_bitmap : ℕ → Option (ℕ × KheapList) → SwiftFs → Option Loaded × SwiftFs
unfolding read_block
load_bitmap g none fs = (none, fs)
load_bitmap g (some (addr, heap)) fs =
    let bm : Loaded = record {
      addr = addr;
      bytes = read_block (fs.gd g).block_bitmap_block fs.cache;
    } in
    (some bm, record fs { bitmaps = update fs.bitmaps g (some bm); heap = heap })

unfoldable pub bitmap_in : ℕ → Option Loaded → SwiftFs → Option Loaded × SwiftFs
unfolding load_bitmap
bitmap_in g (some bm) fs = (some bm, fs)
bitmap_in g none fs = load_bitmap g (kmalloc fs.heap 4096) fs

-- `none` is the null pointer
unfoldable pub bitmap_for_group : ℕ → SwiftFs → Option Loaded × SwiftFs
unfolding bitmap_in
bitmap_for_group g fs = if leb fs.nr_groups g then (none, fs) else bitmap_in g (fs.bitmaps g) fs

unfoldable pub bitmap_sync_at : ℕ → Option Loaded → SwiftFs → SwiftFs
bitmap_sync_at g none fs = fs
bitmap_sync_at g (some bm) fs = record fs {
  cache = write_block (fs.gd g).block_bitmap_block bm.bytes fs.cache;
}

unfoldable pub bitmap_sync : ℕ → SwiftFs → SwiftFs
unfolding bitmap_sync_at
bitmap_sync g fs = bitmap_sync_at g (fs.bitmaps g) fs

-- the group descriptor, the bitmap and the counters after block `b` of group `g` is taken
unfoldable pub take_bit : ℕ → ℕ → Loaded → SwiftFs → SwiftFs
take_bit g b bm fs = record fs {
  bitmaps = update fs.bitmaps g (some (record bm { bytes = bit_set bm.bytes b }));
  gd = update fs.gd g (record (fs.gd g) { free_blocks_count = (fs.gd g).free_blocks_count - 1 });
  free_blocks = sub64 fs.free_blocks 1;
  curr_group = g;
  cache = cache_mark_dirty (fs.gd g).block_bitmap_block 0 fs.cache;
}

-- the scan of a bitmap
unfoldable pub alloc_bit : ℕ → Loaded → Option ℕ → SwiftFs → Option ℕ × SwiftFs
unfolding take_bit
alloc_bit g bm none fs = (none, fs)
alloc_bit g bm (some b) fs = (some (add32 (group_start_block g) b), take_bit g b bm fs)

unfoldable pub alloc_in : ℕ → Option Loaded × SwiftFs → Option ℕ × SwiftFs
unfolding alloc_bit
alloc_in g (none, fs) = (none, fs)
alloc_in g (some bm, fs) =
    alloc_bit g bm (find_first blocks_per_group 0 (λ b. not (bit_test bm.bytes b))) fs

-- one group: `none` for the `continue`s and for a scan without a clear bit
unfoldable pub alloc_group : ℕ → SwiftFs → Option ℕ × SwiftFs
unfolding alloc_in bitmap_for_group
alloc_group g fs =
    if (fs.gd g).free_blocks_count == 0 then (none, fs) else alloc_in g (bitmap_for_group g fs)

abbrev pub or_next : Option ℕ × SwiftFs → (SwiftFs → ℕ × SwiftFs) → ℕ × SwiftFs
or_next (some block, fs) next = (block, fs)
or_next (none, fs) next = next fs

unfoldable pub alloc_loop : ℕ → ℕ → ℕ → SwiftFs → ℕ × SwiftFs
unfolding alloc_group
alloc_loop zero gi start fs = (0, fs)
alloc_loop (suc n) gi start fs =
    or_next (alloc_group ((start + gi) % fs.nr_groups) fs) (λ t. alloc_loop n (gi + 1) start t)

-- the new block; 0 when there is none
unfoldable pub block_alloc : SwiftFs → ℕ × SwiftFs
unfolding alloc_loop
block_alloc fs = alloc_loop fs.nr_groups 0 fs.curr_group fs

unfoldable pub give_bit : ℕ → ℕ → Loaded → SwiftFs → SwiftFs
give_bit g b bm fs = record fs {
  bitmaps = update fs.bitmaps g (some (record bm { bytes = bit_clear bm.bytes b }));
  gd =
      update fs.gd g (record (fs.gd g) { free_blocks_count = add32 (fs.gd g).free_blocks_count 1 });
  free_blocks = add64 fs.free_blocks 1;
  cache = cache_mark_dirty (fs.gd g).block_bitmap_block 0 fs.cache;
}

unfoldable pub free_in : ℕ → ℕ → Option Loaded × SwiftFs → SwiftFs
unfolding give_bit
free_in g b (none, fs) = fs
free_in g b (some bm, fs) = if not (bit_test bm.bytes b) then fs else give_bit g b bm fs

unfoldable pub block_free : ℕ → SwiftFs → SwiftFs
unfolding free_in bitmap_for_group
block_free block fs =
    if block == 0
    then fs
    else free_in (group_of_block block) (block_in_group block)
        (bitmap_for_group (group_of_block block) fs)
