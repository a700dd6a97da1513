-- ===== src/Fs/SwiftFs/State.antt =====
-- The static state of src/kernel/fs/swiftfs2.c and the types of src/kernel/fs/swiftfs2.h. The counters of
-- the superblock are fields of the state; its other fields do not change after the mount.
use swift_bsd.Prelude.{ℕ, Bool, Option}
use swift_bsd.Mm.Kheap.{KheapList}
use swift_bsd.Fs.SwiftFs.Cache.{Data, Cache}

abbrev pub blocks_per_group : ℕ
blocks_per_group = 32768

abbrev pub inodes_per_group : ℕ
inodes_per_group = 4096

-- `swiftfs2_gd_t`
pub record Gd : Type 0 where
  pub block_bitmap_block : ℕ
  pub inode_table_block : ℕ
  pub free_blocks_count : ℕ
  pub free_inodes_count : ℕ

-- a bitmap in memory: the address that kmalloc gave, and its bytes
pub record Loaded : Type 0 where
  pub addr : ℕ
  pub bytes : Data

-- `swiftfs2_fd_t`
pub record SwiftFd : Type 0 where
  pub inode : ℕ
  pub pos : ℕ
  pub flags : ℕ
  pub dirty : Bool

-- the mount state: g_nr_groups, g_gd, g_bitmaps, g_curr_group, g_fds, g_mounted, the cache, and the kernel
-- heap that the bitmaps come from
pub record SwiftFs : Type 0 where
  pub free_blocks : ℕ
  pub free_inodes : ℕ
  pub nr_groups : ℕ
  pub gd : ℕ → Gd
  pub bitmaps : ℕ → Option Loaded
  pub curr_group : ℕ
  pub fds : ℕ → SwiftFd
  pub mounted : Bool
  pub cache : Cache
  pub heap : KheapList
