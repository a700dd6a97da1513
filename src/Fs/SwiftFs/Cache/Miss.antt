-- ===== src/Fs/SwiftFs/Cache/Miss.antt =====
-- What a miss of cache_get does to the entries and the disk.
use swift_bsd.Prelude.{ℕ, ◌+◌, ◌%◌, ◌≡◌, ◌≢◌, arith, true, false}
use swift_bsd.Fs.SwiftFs.Cache.{cache_size, Cache, evict, load, write_block, read_block}
use swift_bsd.Fs.SwiftFs.Cache.View.{}

abbrev step_next : Cache → Cache
step_next c = record c { next = (c.next + 1) % cache_size }

-- the cache after a miss
abbrev pub missed : ℕ → Cache → Cache
missed b c = load c.next b 0 (evict c.next (step_next c))

module _ (c : Cache) (b : ℕ) where
  pub missed-next : (missed b c).next ≡ (c.next + 1) % cache_size
  unfolding evict load write_block read_block
  missed-next = ground arith

  pub missed-same : (j : ℕ) → j ≢ c.next → (missed b c).entries j ≡ c.entries j
  unfolding evict load write_block read_block
  missed-same j ne = ground arith

  pub missed-new : (missed b c).entries c.next ≡ record {
    block = b;
    group = 0;
    bytes = (evict c.next (step_next c)).disk b;
    dirty = false;
    valid = true;
  }
  unfolding evict load write_block read_block
  missed-new = ground arith

  pub missed-back :
      (c.entries c.next).dirty ≡ true
      → (missed b c).disk (c.entries c.next).block ≡ (c.entries c.next).bytes
  unfolding evict load write_block read_block
  missed-back e = ground arith

  pub missed-disk : (c.entries c.next).dirty ≡ false → (missed b c).disk ≡ c.disk
  unfolding evict load write_block read_block
  missed-disk e = ground arith

  pub missed-else : (k : ℕ) → k ≢ (c.entries c.next).block → (missed b c).disk k ≡ c.disk k
  unfolding evict load write_block read_block
  missed-else k ne = ground arith

  pub missed-bytes : ((missed b c).entries c.next).bytes ≡ (missed b c).disk b
  unfolding evict load write_block read_block
  missed-bytes = ground arith
