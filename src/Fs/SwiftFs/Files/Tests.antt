-- ===== src/Fs/SwiftFs/Files/Tests.antt =====
-- Tests of the calls on open files of src/kernel/fs/swiftfs2.c: descriptor 2 is inode 1, a file of five bytes
-- in block 7.
use swift_bsd.Prelude.{
  ◌*◌, ◌≡◌, refl, false, true, none, some, [], ◌∷◌, arith, if◌then◌else◌, ◌==◌, find_first,
}
use swift_bsd.Fs.Pipe.{copy_out}
use swift_bsd.Fs.SwiftFs.Cache.{
  empty_entry, clear_cache, cache_get, cache_get_at, cache_lookup, evict, load, read_block,
  write_block,
}
use swift_bsd.Fs.SwiftFs.Cache.View.{clear_cache-IsCoherent}
use swift_bsd.Fs.SwiftFs.State.{SwiftFs}
use swift_bsd.Fs.SwiftFs.Bytes.{get_le}
use swift_bsd.Fs.SwiftFs.Inodes.{inode_read, inode_at, inode_block_and_offset}
use swift_bsd.Fs.SwiftFs.Bmap.{bmap_read, bmap_direct}
use swift_bsd.Fs.SwiftFs.Files.{swiftfs2_read, read_at, read_loop}
use swift_bsd.Fs.SwiftFs.Files.Reading.{ReadResult, swiftfs2_read-Result}

abbrev one_file : SwiftFs
one_file = record {
  free_blocks = 0;
  free_inodes = 0;
  nr_groups = 1;
  gd = (λ g. record {
    block_bitmap_block = 2;
    inode_table_block = 3;
    free_blocks_count = 0;
    free_inodes_count = 0;
  });
  bitmaps = (λ g. none);
  curr_group = 0;
  fds = (λ i. record { inode = (if i == 2 then 1 else 0); pos = 1; flags = 2; dirty = false });
  mounted = true;
  cache = clear_cache (record {
    entries = (λ i. empty_entry);
    next = 0;
    disk = (λ b k. if b == 7 then k * 2 else if k == 134 then 5 else if k == 158 then 7 else 0);
  });
  heap = [];
}

reads_to_the_end : (swiftfs2_read 2 9 one_file).0 ≡ some (2 ∷ 4 ∷ 6 ∷ 8 ∷ [])
unfolding swiftfs2_read read_at read_loop inode_read inode_at inode_block_and_offset bmap_read
    bmap_direct get_le cache_get cache_get_at cache_lookup evict load read_block write_block
    clear_cache copy_out find_first
reads_to_the_end = refl

swiftfs2_read-Result_example : ReadResult 9 one_file (swiftfs2_read 2 9 one_file)
swiftfs2_read-Result_example =
    swiftfs2_read-Result 2 9 one_file (clear_cache-IsCoherent _) (omega arith) (omega arith)
