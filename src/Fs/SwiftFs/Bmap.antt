-- ===== src/Fs/SwiftFs/Bmap.antt =====
-- bmap_read of src/kernel/fs/swiftfs2.c: the block of the disk that holds a block of a file. The entries of
-- the indirect block are numbers of 32 bits.
use swift_bsd.Prelude.{ℕ, ◌-◌, ◌*◌, Bool, not, ◌==◌, ◌&&◌, ltb, if◌then◌else◌}
use swift_bsd.Fs.SwiftFs.Cache.{cache_get, modify}
use swift_bsd.Fs.SwiftFs.State.{SwiftFs}
use swift_bsd.Fs.SwiftFs.Bytes.{get_le, put_le}
use swift_bsd.Fs.SwiftFs.Blocks.{block_alloc}
use swift_bsd.Fs.SwiftFs.Inodes.{Inode, direct, direct_at, indirect, zeros}

-- a block number, with the inode and the file system afterwards
pub record Mapped : Type 0 where
  pub block : ℕ
  pub inode : Inode
  pub fs : SwiftFs

abbrev pub direct_count : ℕ
direct_count = 12

abbrev pub indirect_ents : ℕ
indirect_ents = 1024

unfoldable pub bmap_direct : Inode → ℕ → Bool → SwiftFs → Mapped
bmap_direct inode lblock create fs =
    let (block, t) = block_alloc fs in
    if direct inode lblock == 0 && create
    then record { block = block; inode = put_le 4 inode (direct_at lblock) block; fs = t }
    else record { block = direct inode lblock; inode = inode; fs = fs }

-- a new indirect block, set to zero
unfoldable pub clear_block : ℕ → SwiftFs → SwiftFs
clear_block block fs = record fs { cache = modify block (λ bytes. zeros) fs.cache }

-- the entry of an indirect block that is there
unfoldable pub bmap_entry : Inode → ℕ → Bool → SwiftFs → Mapped
bmap_entry inode entry create fs =
    let (i, cache) = cache_get (indirect inode) 0 fs.cache in
    let found = get_le 4 (cache.entries i).bytes (4 * entry) in
    let (block, t) = block_alloc (record fs { cache = cache }) in
    if found == 0 && create
    then record {
      block = block;
      inode = inode;
      fs = record t {
        cache = modify (indirect inode) (λ bytes. put_le 4 bytes (4 * entry) block) t.cache;
      };
    }
    else record { block = found; inode = inode; fs = record fs { cache = cache } }

unfoldable pub bmap_indirect : Inode → ℕ → Bool → SwiftFs → Mapped
unfolding clear_block bmap_entry
bmap_indirect inode entry create fs =
    let (block, t) = block_alloc fs in
    let linked = put_le 4 inode 78 block in
    if indirect inode == 0
    then if not create
      then record { block = 0; inode = inode; fs = fs }
      else if block == 0
      then record { block = 0; inode = linked; fs = t }
      else bmap_entry linked entry create (clear_block (indirect linked) t)
    else bmap_entry inode entry create fs

unfoldable pub bmap_read : Inode → ℕ → Bool → SwiftFs → Mapped
unfolding bmap_direct bmap_indirect
bmap_read inode lblock create fs =
    if ltb lblock direct_count
    then bmap_direct inode lblock create fs
    else if ltb (lblock - direct_count) indirect_ents
    then bmap_indirect inode (lblock - direct_count) create fs
    else record { block = 0; inode = inode; fs = fs }
