-- ===== src/Fs/SwiftFs/Dirs/Tests.antt =====
-- Tests of dir_add_entry of src/kernel/fs/swiftfs2.c.
use swift_bsd.Prelude.{◌≡◌, refl, Bool, none, some, [], ◌∷◌, arith, true, false}
use swift_bsd.Fs.Pipe.{copy_in}
use swift_bsd.Fs.SwiftFs.Cache.{empty_entry, clear_cache}
use swift_bsd.Fs.SwiftFs.State.{SwiftFs}
use swift_bsd.Fs.SwiftFs.Bytes.{get_le, put_le}
use swift_bsd.Fs.SwiftFs.Inodes.{zeros}
use swift_bsd.Fs.SwiftFs.Paths.{dir_fuel, scan_block, same_name}
use swift_bsd.Fs.SwiftFs.Dirs.{
  add_loop, first_entry, reuse_entry, put_entry, put_free, find_slot, at,
}
use swift_bsd.Fs.SwiftFs.Dirs.Total.{add_loop-total}

abbrev no_blocks : SwiftFs
no_blocks = record {
  free_blocks = 0;
  free_inodes = 0;
  nr_groups = 0;
  gd = (λ g. record {
    block_bitmap_block = 2;
    inode_table_block = 3;
    free_blocks_count = 0;
    free_inodes_count = 0;
  });
  bitmaps = (λ g. none);
  curr_group = 0;
  fds = (λ i. record { inode = 0; pos = 0; flags = 0; dirty = false });
  mounted = true;
  cache = clear_cache (record { entries = (λ i. empty_entry); next = 0; disk = (λ b k. 0) });
  heap = [];
}

-- "ab" in a new block, and "c" in the free entry that is left
first_name : scan_block 10 (first_entry 7 1 (97 ∷ 98 ∷ []) zeros) (97 ∷ 98 ∷ []) 0 ≡ some 7
unfolding scan_block first_entry put_entry put_free copy_in get_le put_le same_name
first_name = refl

second_slot : find_slot 10 12 (first_entry 7 1 (97 ∷ 98 ∷ []) zeros) 0 ≡ at 12
unfolding find_slot first_entry put_entry put_free copy_in get_le put_le
second_slot = refl

second_name :
    scan_block 10 (reuse_entry 9 1 (99 ∷ []) 12 (first_entry 7 1 (97 ∷ 98 ∷ []) zeros)) (99 ∷ []) 0
    ≡ some 9
unfolding scan_block reuse_entry first_entry put_entry put_free copy_in get_le put_le same_name
second_name = refl

add_loop-total_example :
    (r : Bool × SwiftFs) × (add_loop dir_fuel 1 7 1 (97 ∷ []) zeros 0 no_blocks ≡ some r)
add_loop-total_example =
    add_loop-total dir_fuel 1 7 1 (97 ∷ []) zeros 0 no_blocks (omega arith) (omega arith)
