-- ===== src/Fs/SwiftFs/Blocks/Inv.antt =====
-- What the block allocator keeps: each group's counter is the number of clear bits of its bitmap, and the
-- superblock's is their sum.
use swift_bsd.Prelude.{
  ℕ, zero, suc, ◌+◌, ◌*◌, ◌^◌, ◌≤◌, ◌<◌, ◌≡◌, refl, sym, ap, ◌∙◌, inl, inr, arith, Option, none,
  some, ◌==◌, leb, update, Bool-cases, Option-cases,
}
use swift_bsd.Bitmap.{IsBytes}
use swift_bsd.Bitmap.Count.{clear_bits, clear_bits-bound}
use swift_bsd.Mm.Kheap.{KheapList, kmalloc}
use swift_bsd.Fs.SwiftFs.Cache.{Data, Cache, read_block, cache_mark_dirty, mark_at, cache_lookup}
use swift_bsd.Fs.SwiftFs.State.{SwiftFs, Gd, Loaded, blocks_per_group}
use swift_bsd.Fs.SwiftFs.Blocks.{load_bitmap, bitmap_in, bitmap_for_group}

abbrev pub bits_of : Option Loaded → Data → Data
bits_of none disk = disk
bits_of (some bm) disk = bm.bytes

-- the bitmap of a group: the one in memory, or else the one on the disk
abbrev pub group_bits : SwiftFs → ℕ → Data
group_bits fs g = bits_of (fs.bitmaps g) (fs.cache.disk (fs.gd g).block_bitmap_block)

unfoldable pub total : ℕ → (ℕ → Gd) → ℕ
total zero gd = 0
total (suc n) gd = (gd n).free_blocks_count + total n gd

pub record IsValid (fs : SwiftFs) : Type 0 where
  pub size : fs.nr_groups * 32768 ≤ 2 ^ 32
  pub bytes : (g : ℕ) → g < fs.nr_groups → IsBytes (group_bits fs g)
  pub counted :
      (g : ℕ)
      → g < fs.nr_groups
      → (fs.gd g).free_blocks_count ≡ clear_bits blocks_per_group (group_bits fs g)
  pub summed : fs.free_blocks ≡ total fs.nr_groups fs.gd

-- Two states with the same bitmaps and counters.
pub record Kept (fs t : SwiftFs) : Type 0 where
  pub nr_groups : t.nr_groups ≡ fs.nr_groups
  pub gd : t.gd ≡ fs.gd
  pub free_blocks : t.free_blocks ≡ fs.free_blocks
  pub bits : (g : ℕ) → group_bits t g ≡ group_bits fs g

pub Kept-refl : (fs : SwiftFs) → Kept fs fs
Kept-refl fs = record { nr_groups = refl; gd = refl; free_blocks = refl; bits = λ g. refl }

pub Kept-trans : {a b c : SwiftFs} → Kept a b → Kept b c → Kept a c
Kept-trans p q = record {
  nr_groups = q.nr_groups ∙ p.nr_groups;
  gd = q.gd ∙ p.gd;
  free_blocks = q.free_blocks ∙ p.free_blocks;
  bits = λ g. q.bits g ∙ p.bits g;
}

pub Kept-IsValid : {fs t : SwiftFs} → Kept fs t → IsValid fs → IsValid t
Kept-IsValid {fs} {t} k v = record {
  size = rw k.nr_groups v.size;
  bytes = λ g p. rw (k.bits g) (v.bytes g (omega (arith, k.nr_groups)));
  counted = λ g p.
      ap (λ d. (d g).free_blocks_count) k.gd
      ∙ v.counted g (omega (arith, k.nr_groups))
      ∙ sym (ap (clear_bits blocks_per_group) (k.bits g));
  summed =
      k.free_blocks
      ∙ v.summed
      ∙ sym (ap (λ n. total n fs.gd) k.nr_groups)
      ∙ sym (ap (total t.nr_groups) k.gd);
}

-- what bitmap_for_group gives
pub record Fetched (g : ℕ) (fs : SwiftFs) (r : Option Loaded × SwiftFs) : Type 0 where
  pub kept : Kept fs r.1
  pub found : (bm : Loaded) → r.0 ≡ some bm → (g < fs.nr_groups) × (group_bits fs g ≡ bm.bytes)

load_bitmap-Fetched :
    (g : ℕ) (m : Option (ℕ × KheapList)) (fs : SwiftFs)
    → g < fs.nr_groups
    → fs.bitmaps g ≡ none
    → Fetched g fs (load_bitmap g m fs)
unfolding load_bitmap read_block
load_bitmap-Fetched g none fs p e = record {
  kept = Kept-refl fs;
  found = λ bm f. absurd (ground arith);
}
load_bitmap-Fetched g (some (addr, heap)) fs p e = record {
  kept = record {
    nr_groups = refl;
    gd = refl;
    free_blocks = refl;
    bits = λ k. elim (Bool-cases (g == k)) [
      | inl same ↦ let same_group : g ≡ k = ground arith in ground (arith, e)
      | inr other ↦ ground arith
    ];
  };
  found = λ bm f. (p, ground (arith, e));
}

bitmap_in-Fetched :
    (g : ℕ) (b : Option Loaded) (fs : SwiftFs)
    → g < fs.nr_groups
    → fs.bitmaps g ≡ b
    → Fetched g fs (bitmap_in g b fs)
unfolding bitmap_in
bitmap_in-Fetched g none fs p e = load_bitmap-Fetched g (kmalloc fs.heap 4096) fs p e
bitmap_in-Fetched g (some bm) fs p e = record {
  kept = Kept-refl fs;
  found = λ c f. (p, ground (arith, e));
}

pub bitmap_for_group-Fetched : (g : ℕ) (fs : SwiftFs) → Fetched g fs (bitmap_for_group g fs)
unfolding bitmap_for_group
bitmap_for_group-Fetched g fs = elim (Bool-cases (leb fs.nr_groups g)) [
  | inl out ↦ rw out (record { kept = Kept-refl fs; found = λ bm f. absurd (ground arith) })
  | inr inside ↦ rw inside (bitmap_in-Fetched g (fs.bitmaps g) fs (ground arith) refl)
]

pub cache_mark_dirty-disk : (b : ℕ) (c : Cache) → (cache_mark_dirty b 0 c).disk ≡ c.disk
unfolding cache_mark_dirty mark_at
cache_mark_dirty-disk b c = elim (Option-cases (cache_lookup b 0 c)) [
  | inl e ↦ rw e refl
  | inr (i, e) ↦ rw e refl
]

-- The sum of the counters, with one of them changed.
pub total-other : (n g : ℕ) (gd : ℕ → Gd) (e : Gd) → n ≤ g → total n (update gd g e) ≡ total n gd
unfolding total
total-other zero g gd e h = refl
total-other (suc n) g gd e h = ground (arith, total-other n g gd e)

pub total-update :
    (n g : ℕ) (gd : ℕ → Gd) (e : Gd)
    → g < n
    → total n (update gd g e) + (gd g).free_blocks_count ≡ total n gd + e.free_blocks_count
unfolding total
total-update zero g gd e h = absurd (omega arith)
total-update (suc n) g gd e h = elim (Bool-cases (g == n)) [
  | inl same ↦ let at : g ≡ n = ground arith in ground (arith, total-other n g gd e)
  | inr other ↦ ground (arith, total-update n g gd e)
]

pub total-has : (n g : ℕ) (gd : ℕ → Gd) → g < n → (gd g).free_blocks_count ≤ total n gd
unfolding total
total-has zero g gd h = absurd (omega arith)
total-has (suc n) g gd h = elim (Bool-cases (g == n)) [
  | inl same ↦ let at : g ≡ n = ground arith in ground arith
  | inr other ↦ ground (arith, total-has n g gd)
]

total-bound :
    (n : ℕ) (gd : ℕ → Gd)
    → ((g : ℕ) → g < n → (gd g).free_blocks_count ≤ 32768)
    → total n gd ≤ n * 32768
unfolding total
total-bound zero gd h = omega arith
total-bound (suc n) gd h =
    omega (arith, h n (omega arith), total-bound n gd (λ g p. h g (omega arith)))

pub free_blocks-bound : {fs : SwiftFs} → IsValid fs → fs.free_blocks ≤ 2 ^ 32
free_blocks-bound {fs} v = omega (
  arith,
  v.summed,
  v.size,
  total-bound fs.nr_groups fs.gd
      (λ g p. omega (arith, v.counted g p, clear_bits-bound blocks_per_group (group_bits fs g))),
)
