-- ===== src/Fs/SwiftFs/Inodes.antt =====
-- The inodes of src/kernel/fs/swiftfs2.c: inode_block_and_offset, inode_read, inode_write, inode_alloc,
-- inode_free and bmap_read. An inode in memory is the bytes of `swiftfs2_inode_t`, a packed struct, and its
-- fields are read and written at their offsets.
pub mod Table
mod Tests
use swift_bsd.Prelude.{
  ℕ, zero, suc, ◌+◌, ◌-◌, ◌*◌, ◌/◌, ◌%◌, ◌^◌, Bool, true, false, Option, none, some, not, ◌==◌,
  ◌&&◌, ltb, leb, if◌then◌else◌, update, add32, add64, sub64,
}
use swift_bsd.Fs.SwiftFs.Cache.{Data, Cache, cache_get, cache_mark_dirty, modify}
use swift_bsd.Fs.SwiftFs.State.{SwiftFs, Gd, Loaded, inodes_per_group}
use swift_bsd.Fs.SwiftFs.Bytes.{get_le, put_le, copy_into}
use swift_bsd.Fs.SwiftFs.Blocks.{bitmap_for_group, block_alloc}

abbrev pub Inode : Type 0
Inode = Data

-- `sizeof(swiftfs2_inode_t)`
abbrev pub sizeof_inode : ℕ
sizeof_inode = 106

abbrev pub mode : Inode → ℕ
mode inode = get_le 2 inode 0

abbrev pub size : Inode → ℕ
size inode = get_le 8 inode 6

abbrev pub block_count : Inode → ℕ
block_count inode = get_le 4 inode 26

abbrev pub direct_at : ℕ → ℕ
direct_at i = 30 + 4 * i

abbrev pub direct : Inode → ℕ → ℕ
direct inode i = get_le 4 inode (direct_at i)

abbrev pub indirect : Inode → ℕ
indirect inode = get_le 4 inode 78

abbrev pub double_indirect : Inode → ℕ
double_indirect inode = get_le 4 inode 82

abbrev pub zeros : Data
zeros k = 0

-- the block of the inode table and the offset in it
unfoldable pub inode_block_and_offset : ℕ → SwiftFs → ℕ × ℕ
inode_block_and_offset ino fs =
    let local = ino % inodes_per_group in
    (add32 (fs.gd (ino / inodes_per_group)).inode_table_block (local / 32), local % 32 * 128)

-- `memcpy(inode, data + offset, sizeof(swiftfs2_inode_t))`
unfoldable pub inode_at : Data → ℕ → Inode
inode_at bytes offset k = if ltb k sizeof_inode then bytes (offset + k) else 0

unfoldable pub inode_read : ℕ → SwiftFs → Inode × SwiftFs
unfolding inode_block_and_offset inode_at
inode_read ino fs =
    let (block, offset) = inode_block_and_offset ino fs in
    let (i, cache) = cache_get block 0 fs.cache in
    (inode_at (cache.entries i).bytes offset, record fs { cache = cache })

unfoldable pub inode_write : ℕ → Inode → SwiftFs → SwiftFs
unfolding inode_block_and_offset
inode_write ino inode fs =
    let (block, offset) = inode_block_and_offset ino fs in
    record fs { cache = modify block (λ bytes. copy_into bytes offset inode sizeof_inode) fs.cache }

-- the counters after an inode of group `gi` is taken
abbrev pub count_taken : ℕ → SwiftFs → SwiftFs
count_taken gi t = record t {
  gd = update t.gd gi (record (t.gd gi) { free_inodes_count = (t.gd gi).free_inodes_count - 1 });
  free_inodes = sub64 t.free_inodes 1;
}

-- one inode of the scan of a group: it is taken if its mode is zero
unfoldable pub claim_inode : ℕ → ℕ → ℕ → Inode × SwiftFs → Option ℕ × SwiftFs
unfolding inode_write
claim_inode gi ino new_mode (inode, fs) =
    if mode inode == 0
    then (some ino, count_taken gi (inode_write ino (put_le 2 zeros 0 new_mode) fs))
    else (none, fs)

abbrev pub otherwise : Option ℕ × SwiftFs → (SwiftFs → Option ℕ × SwiftFs) → Option ℕ × SwiftFs
otherwise (some ino, fs) next = (some ino, fs)
otherwise (none, fs) next = next fs

-- the scan of `n` inodes of group `gi` from `ino` on; inode 0 is passed over
unfoldable pub scan_inodes : ℕ → ℕ → ℕ → ℕ → SwiftFs → Option ℕ × SwiftFs
unfolding claim_inode inode_read
scan_inodes gi new_mode zero ino fs = (none, fs)
scan_inodes gi new_mode (suc n) ino fs =
    otherwise (if ino == 0 then (none, fs) else claim_inode gi ino new_mode (inode_read ino fs))
      (λ t. scan_inodes gi new_mode n (ino + 1) t)

unfoldable pub inode_group_at : ℕ → ℕ → Option Loaded × SwiftFs → Option ℕ × SwiftFs
unfolding scan_inodes
inode_group_at gi new_mode (none, fs) = (none, fs)
inode_group_at gi new_mode (some bm, fs) =
    scan_inodes gi new_mode inodes_per_group (gi * inodes_per_group) fs

unfoldable pub inode_group : ℕ → ℕ → SwiftFs → Option ℕ × SwiftFs
unfolding inode_group_at
inode_group gi new_mode fs =
    if (fs.gd gi).free_inodes_count == 0
    then (none, fs)
    else inode_group_at gi new_mode (bitmap_for_group gi fs)

unfoldable pub inode_groups : ℕ → ℕ → ℕ → SwiftFs → Option ℕ × SwiftFs
unfolding inode_group
inode_groups new_mode zero gi fs = (none, fs)
inode_groups new_mode (suc n) gi fs =
    otherwise (inode_group gi new_mode fs) (λ t. inode_groups new_mode n (gi + 1) t)

abbrev pub or_zero : Option ℕ × SwiftFs → ℕ × SwiftFs
or_zero (some ino, fs) = (ino, fs)
or_zero (none, fs) = (0, fs)

-- the new inode; 0 when there is none
unfoldable pub inode_alloc : ℕ → SwiftFs → ℕ × SwiftFs
unfolding inode_groups
inode_alloc new_mode fs = or_zero (inode_groups new_mode fs.nr_groups 0 fs)

unfoldable pub inode_free : ℕ → SwiftFs → SwiftFs
unfolding inode_write
inode_free ino fs =
    if ino == 0
    then fs
    else let t = inode_write ino zeros fs in
      let g = ino / inodes_per_group in
      record t {
        gd =
            update t.gd g
              (record (t.gd g) { free_inodes_count = add32 (t.gd g).free_inodes_count 1 });
        free_inodes = add64 t.free_inodes 1;
      }
