-- ===== src/Fs/SwiftFs/Cache.antt =====
-- The block cache of src/kernel/fs/swiftfs2.c: read_block, write_block, cache_lookup, cache_get,
-- cache_mark_dirty and cache_flush_all. The disk behind ahci_read and ahci_write is the bytes of each
-- file system block; their results, which this code does not look at, are left out. A pointer into an
-- entry's data is the entry's index.
pub mod View
pub mod Miss
pub mod Get
pub mod Modify
pub mod Flush
mod Tests
use swift_bsd.Prelude.{
  ℕ, zero, suc, ◌+◌, ◌%◌, ◌<◌, Bool, true, false, Option, none, some, ◌==◌, ◌&&◌, if◌then◌else◌,
  update, find_first, for_loop,
}

-- the bytes of one block, by offset
abbrev pub Data : Type 0
Data = ℕ → ℕ

abbrev pub cache_size : ℕ
cache_size = 64

-- `cache_entry_t`
pub record CacheEntry : Type 0 where
  pub block : ℕ
  pub group : ℕ
  pub bytes : Data
  pub dirty : Bool
  pub valid : Bool

-- g_cache and g_cache_next, and the disk
pub record Cache : Type 0 where
  pub entries : ℕ → CacheEntry
  pub next : ℕ
  pub disk : ℕ → Data

unfoldable pub read_block : ℕ → Cache → Data
read_block block c = c.disk block

unfoldable pub write_block : ℕ → Data → Cache → Cache
write_block block bytes c = record c { disk = update c.disk block bytes }

abbrev pub set_entry : ℕ → CacheEntry → Cache → Cache
set_entry i e c = record c { entries = update c.entries i e }

-- `g_cache[i].valid && g_cache[i].block == block && g_cache[i].group == group`
abbrev pub caches : CacheEntry → ℕ → ℕ → Bool
caches e block group = e.valid && e.block == block && e.group == group

unfoldable pub cache_lookup : ℕ → ℕ → Cache → Option ℕ
cache_lookup block group c = find_first cache_size 0 (λ i. caches (c.entries i) block group)

-- the write back of an entry that is replaced
unfoldable pub evict : ℕ → Cache → Cache
unfolding write_block
evict i c = if (c.entries i).dirty then write_block (c.entries i).block (c.entries i).bytes c else c

unfoldable pub load : ℕ → ℕ → ℕ → Cache → Cache
unfolding read_block
load i block group c =
    set_entry i
      (record {
        block = block;
        group = group;
        bytes = read_block block c;
        dirty = false;
        valid = true;
      })
      c

unfoldable pub cache_get_at : Option ℕ → ℕ → ℕ → Cache → ℕ × Cache
unfolding evict load
cache_get_at (some i) block group c = (i, c)
cache_get_at none block group c =
    (c.next, load c.next block group (evict c.next (record c { next = (c.next + 1) % cache_size })))

-- cache_get: the index of the entry that holds the block
unfoldable pub cache_get : ℕ → ℕ → Cache → ℕ × Cache
unfolding cache_get_at
cache_get block group c = cache_get_at (cache_lookup block group c) block group c

unfoldable pub mark_at : Option ℕ → Cache → Cache
mark_at none c = c
mark_at (some i) c = set_entry i (record (c.entries i) { dirty = true }) c

unfoldable pub cache_mark_dirty : ℕ → ℕ → Cache → Cache
unfolding mark_at
cache_mark_dirty block group c = mark_at (cache_lookup block group c) c

-- a write through the pointer that cache_get returns, and cache_mark_dirty
unfoldable pub modify : ℕ → (Data → Data) → Cache → Cache
modify block f c =
    let (i, d) = cache_get block 0 c in
    cache_mark_dirty block 0
      (set_entry i (record (d.entries i) { bytes = f (d.entries i).bytes }) d)

unfoldable pub flush_entry : ℕ → Cache → Cache
unfolding write_block
flush_entry i c =
    if (c.entries i).valid && (c.entries i).dirty
    then set_entry i (record (c.entries i) { dirty = false })
        (write_block (c.entries i).block (c.entries i).bytes c)
    else c

unfoldable pub cache_flush_all : Cache → Cache
unfolding flush_entry
cache_flush_all c = for_loop flush_entry 0 cache_size c

-- `memset(g_cache, 0, sizeof(g_cache))`
abbrev pub empty_entry : CacheEntry
empty_entry = record { block = 0; group = 0; bytes = (λ k. 0); dirty = false; valid = false }

-- the cache as swiftfs2_mount sets it up
unfoldable pub clear_cache : Cache → Cache
clear_cache c = record { entries = (λ i. empty_entry); next = 0; disk = c.disk }
