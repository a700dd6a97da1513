-- ===== src/Fs/SwiftFs/Cache/Tests.antt =====
-- Tests of the block cache of src/kernel/fs/swiftfs2.c.
use swift_bsd.Prelude.{◌+◌, ◌*◌, ◌≡◌, refl, some, arith, find_first}
use swift_bsd.Fs.SwiftFs.Cache.{
  Data, Cache, clear_cache, empty_entry, cache_get, cache_get_at, cache_lookup, cache_mark_dirty,
  mark_at, modify, cache_flush_all, write_block, read_block, evict, load,
}
use swift_bsd.Fs.SwiftFs.Cache.View.{IsCoherent, clear_cache-IsCoherent}
use swift_bsd.Fs.SwiftFs.Cache.Get.{Got, cache_get-Got}
use swift_bsd.Fs.SwiftFs.Cache.Modify.{Modified, modify-Modified}
use swift_bsd.Fs.SwiftFs.Cache.Flush.{Flushed, cache_flush_all-Flushed}

-- block b of the disk holds b * 10 everywhere
abbrev mounted : Cache
mounted = clear_cache (record { entries = (λ i. empty_entry); next = 9; disk = (λ b k. b * 10) })

abbrev plus_one : Data → Data
plus_one f k = f k + 1

abbrev one_dirty : Cache
one_dirty = modify 5 plus_one mounted

-- the next miss replaces the dirty entry
abbrev before_eviction : Cache
before_eviction = record one_dirty { next = 0 }

one_dirty-IsCoherent : IsCoherent one_dirty
one_dirty-IsCoherent = (modify-Modified mounted 5 plus_one (clear_cache-IsCoherent _)).coherent

before_eviction-IsCoherent : IsCoherent before_eviction
before_eviction-IsCoherent =
    let v = one_dirty-IsCoherent in
    record {
      next_in = omega arith;
      group_zero = v.group_zero;
      dirty_valid = v.dirty_valid;
      once = v.once;
      clean = v.clean;
    }

dirty_bytes : cache_lookup 5 0 one_dirty ≡ some 0
unfolding cache_lookup modify cache_get cache_get_at evict load read_block write_block
    cache_mark_dirty mark_at clear_cache find_first
dirty_bytes = refl

evicted_bytes : (cache_get 7 0 before_eviction).1.disk 5 3 ≡ 51
unfolding cache_lookup modify cache_get cache_get_at evict load read_block write_block
    cache_mark_dirty mark_at clear_cache find_first
evicted_bytes = refl

cache_get-Got_example :
    Got before_eviction 7 (cache_get 7 0 before_eviction).0 (cache_get 7 0 before_eviction).1
cache_get-Got_example = cache_get-Got before_eviction 7 before_eviction-IsCoherent

modify-Modified_example : Modified one_dirty 6 plus_one (modify 6 plus_one one_dirty)
modify-Modified_example = modify-Modified one_dirty 6 plus_one one_dirty-IsCoherent

cache_flush_all-Flushed_example : Flushed one_dirty (cache_flush_all one_dirty)
cache_flush_all-Flushed_example = cache_flush_all-Flushed one_dirty one_dirty-IsCoherent
