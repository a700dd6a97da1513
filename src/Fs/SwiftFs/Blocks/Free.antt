-- ===== src/Fs/SwiftFs/Blocks/Free.antt =====
-- block_free: what it does to the bitmap and the counters, and that it undoes block_alloc.
use swift_bsd.Prelude.{
  ℕ, ◌+◌, ◌<◌, ◌≡◌, refl, sym, ap, ◌∙◌, inl, inr, ◌⊎◌, arith, true, false, Option, none, some, ◌==◌,
  ◌&&◌, if◌then◌else◌, update, add32, subst, Bool-cases,
}
use swift_bsd.Bitmap.{IsBytes, bit_clear, bit_test, bit_clear-IsBytes, bit_test-bit_clear}
use swift_bsd.Bitmap.Count.{clear_bits, clear_bits-bit_clear, clear_bits-bound}
use swift_bsd.Fs.SwiftFs.State.{SwiftFs, Loaded, blocks_per_group}
use swift_bsd.Fs.SwiftFs.Blocks.{
  group_of_block, block_in_group, bitmap_for_group, give_bit, free_in, block_free,
}
use swift_bsd.Fs.SwiftFs.Blocks.Inv.{
  IsValid, Kept, Kept-refl, Kept-IsValid, Fetched, bitmap_for_group-Fetched, group_bits,
  cache_mark_dirty-disk, total, total-update, free_blocks-bound,
}

-- Block `b` of group `g`, which was taken, is free in `t`, and nothing else changes.
pub record Freed (fs : SwiftFs) (g b : ℕ) (t : SwiftFs) : Type 0 where
  pub was_taken : bit_test (group_bits fs g) b ≡ true
  pub bits :
      (h k : ℕ)
      → h < fs.nr_groups
      → bit_test (group_bits t h) k
        ≡ (if g == h && b == k then false else bit_test (group_bits fs h) k)
  pub more : t.free_blocks ≡ fs.free_blocks + 1

module _ {fs : SwiftFs} (v : IsValid fs) {g b : ℕ} (bm : Loaded) (p : g < fs.nr_groups)
    (at : group_bits fs g ≡ bm.bytes) (q : b < blocks_per_group)
    (set : bit_test bm.bytes b ≡ true) where
  given_bits :
      (h : ℕ)
      → group_bits (give_bit g b bm fs) h
        ≡ (if g == h then bit_clear bm.bytes b else group_bits fs h)
  unfolding give_bit
  given_bits h = elim (Bool-cases (g == h)) [
    | inl same ↦ ground arith
    | inr other ↦ rw (cache_mark_dirty-disk (fs.gd g).block_bitmap_block fs.cache) (ground arith)
  ]

  is_bytes : IsBytes bm.bytes
  is_bytes = subst IsBytes at (v.bytes g p)

  count : (fs.gd g).free_blocks_count ≡ clear_bits blocks_per_group bm.bytes
  count = v.counted g p ∙ ap (clear_bits blocks_per_group) at

  one_more :
      clear_bits blocks_per_group (bit_clear bm.bytes b) ≡ clear_bits blocks_per_group bm.bytes + 1
  one_more = clear_bits-bit_clear bm.bytes b is_bytes blocks_per_group q set

  given_gd :
      (give_bit g b bm fs).gd
      ≡ update fs.gd g
          (record (fs.gd g) { free_blocks_count = add32 (fs.gd g).free_blocks_count 1 })
  unfolding give_bit
  given_gd = refl

  given_groups : (give_bit g b bm fs).nr_groups ≡ fs.nr_groups
  unfolding give_bit
  given_groups = refl

  exact : add32 (fs.gd g).free_blocks_count 1 ≡ (fs.gd g).free_blocks_count + 1
  exact = omega (arith, count, clear_bits-bound blocks_per_group bm.bytes)

  given_free : (give_bit g b bm fs).free_blocks ≡ fs.free_blocks + 1
  unfolding give_bit
  given_free = omega (arith, free_blocks-bound v)

  give_bit-Freed : Freed fs g b (give_bit g b bm fs)
  give_bit-Freed = record {
    was_taken = ap (λ d. bit_test d b) at ∙ set;
    bits = λ h k r. ap (λ d. bit_test d k) (given_bits h) ∙ (elim (Bool-cases (g == h)) [
      | inl same ↦
          let e : g ≡ h = ground arith in
          rw same (
            bit_test-bit_clear bm.bytes b is_bytes k
            ∙ ap (λ o. if b == k then false else o)
                (ap (λ d. bit_test d k) (sym at ∙ ap (group_bits fs) e)))
      | inr other ↦ rw other refl
    ]);
    more = given_free;
  }

  give_bit-IsValid : IsValid (give_bit g b bm fs)
  give_bit-IsValid = record {
    size = rw given_groups v.size;
    bytes = λ h r. rw (given_bits h) (elim (Bool-cases (g == h)) [
      | inl same ↦ rw same (bit_clear-IsBytes bm.bytes b is_bytes)
      | inr other ↦ rw other (v.bytes h (omega (arith, given_groups)))
    ]);
    counted = λ h r. elim (Bool-cases (g == h)) [
      | inl same ↦
          let there : group_bits (give_bit g b bm fs) h ≡ bit_clear bm.bytes b =
            given_bits h ∙ rw same refl in
          let now : ((give_bit g b bm fs).gd h).free_blocks_count
              ≡ add32 (fs.gd g).free_blocks_count 1 =
            ap (λ d. (d h).free_blocks_count) given_gd ∙ rw same refl in
          now ∙ omega (arith, count, one_more, exact) ∙ sym (ap (clear_bits blocks_per_group) there)
      | inr other ↦
          let there : group_bits (give_bit g b bm fs) h ≡ group_bits fs h =
            given_bits h ∙ rw other refl in
          let now : ((give_bit g b bm fs).gd h).free_blocks_count ≡ (fs.gd h).free_blocks_count =
            ap (λ d. (d h).free_blocks_count) given_gd ∙ rw other refl in
          now
          ∙ v.counted h (omega (arith, given_groups))
          ∙ sym (ap (clear_bits blocks_per_group) there)
    ];
    summed =
        let sum =
          total-update fs.nr_groups g fs.gd
            (record (fs.gd g) { free_blocks_count = add32 (fs.gd g).free_blocks_count 1 }) p in
        let after : (give_bit g b bm fs).free_blocks
            ≡ total fs.nr_groups (
                update fs.gd g
                  (record (fs.gd g) { free_blocks_count = add32 (fs.gd g).free_blocks_count 1 })) =
          omega (arith, sum, given_free, v.summed, exact) in
        after
        ∙ sym (
            ap (λ n. total n (give_bit g b bm fs).gd) given_groups
            ∙ ap (total fs.nr_groups) given_gd);
  }

Freed-Kept : {fs s t : SwiftFs} {g b : ℕ} → Kept fs s → Freed s g b t → Freed fs g b t
Freed-Kept {fs} {s} {t} {g} {b} k h = record {
  was_taken = ap (λ d. bit_test d b) (sym (k.bits g)) ∙ h.was_taken;
  bits = λ i j r.
      h.bits i j (omega (arith, k.nr_groups))
      ∙ ap (λ d. if g == i && b == j then false else bit_test d j) (k.bits i);
  more = h.more ∙ ap (λ n. n + 1) k.free_blocks;
}

-- what block_free comes to: no change, or a block that is free now
pub Release : SwiftFs → ℕ → SwiftFs → Type 0
Release fs block t = Kept fs t ⊎ Freed fs (group_of_block block) (block_in_group block) t

free_in-Release :
    {fs : SwiftFs} (block : ℕ)
    → IsValid fs
    → (r : Option Loaded × SwiftFs) → Fetched (group_of_block block) fs r
    → IsValid (free_in (group_of_block block) (block_in_group block) r)
      × Release fs block (free_in (group_of_block block) (block_in_group block) r)
unfolding free_in Release
free_in-Release block v (none, s) f = (Kept-IsValid f.kept v, inl f.kept)
free_in-Release block v (some bm, s) f =
    let (p, at) = f.found bm refl in
    let valid = Kept-IsValid f.kept v in
    elim (Bool-cases (bit_test bm.bytes (block_in_group block))) [
      | inl set ↦
          let inside : group_of_block block < s.nr_groups = omega (arith, p, f.kept.nr_groups) in
          let there = f.kept.bits (group_of_block block) ∙ at in
          rw set (
            give_bit-IsValid valid bm inside there (omega arith) set,
            inr (Freed-Kept f.kept (give_bit-Freed valid bm inside there (omega arith) set)),
          )
      | inr clear ↦ rw clear (valid, inl f.kept)
    ]

-- On bitmaps and counters that agree, block_free changes none of them, or clears the block's bit, which was
-- set, and no other, and counts one free block more. The counters agree with the bitmaps afterwards.
pub block_free-Release :
    (fs : SwiftFs) (block : ℕ)
    → IsValid fs
    → IsValid (block_free block fs) × Release fs block (block_free block fs)
unfolding block_free Release
block_free-Release fs block v = elim (Bool-cases (block == 0)) [
  | inl null ↦ rw null (v, inl (Kept-refl fs))
  | inr some_block ↦ rw some_block (
      free_in-Release block v (bitmap_for_group (group_of_block block) fs)
        (bitmap_for_group-Fetched _ fs))
]
