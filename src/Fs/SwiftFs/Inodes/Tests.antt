-- ===== src/Fs/SwiftFs/Inodes/Tests.antt =====
-- Tests of the inode table of src/kernel/fs/swiftfs2.c, on one group with its table at block 3.
use swift_bsd.Prelude.{◌+◌, false, true, none, [], arith}
use swift_bsd.Fs.SwiftFs.Cache.{empty_entry, clear_cache}
use swift_bsd.Fs.SwiftFs.Cache.View.{clear_cache-IsCoherent}
use swift_bsd.Fs.SwiftFs.State.{SwiftFs}
use swift_bsd.Fs.SwiftFs.Inodes.{Inode, inode_write}
use swift_bsd.Fs.SwiftFs.Inodes.Table.{Stored, TablesApart, inode_write-Stored}

abbrev one_group : SwiftFs
one_group = record {
  free_blocks = 0;
  free_inodes = 0;
  nr_groups = 1;
  gd = (λ g. record {
    block_bitmap_block = 2;
    inode_table_block = 3;
    free_blocks_count = 0;
    free_inodes_count = 0;
  });
  bitmaps = (λ g. none);
  curr_group = 0;
  fds = (λ i. record { inode = 0; pos = 0; flags = 0; dirty = false });
  mounted = true;
  cache = clear_cache (record { entries = (λ i. empty_entry); next = 0; disk = (λ b k. 0) });
  heap = [];
}

tables : TablesApart one_group
unfolding TablesApart
tables g p = (omega arith, λ h q ne. absurd (ne (omega arith)))

abbrev sample : Inode
sample k = k + 1

inode_write-Stored_example : Stored one_group 33 sample (inode_write 33 sample one_group)
inode_write-Stored_example =
    inode_write-Stored one_group 33 sample (clear_cache-IsCoherent _) tables (omega arith)
