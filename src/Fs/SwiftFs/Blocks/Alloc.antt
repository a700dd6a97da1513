-- ===== src/Fs/SwiftFs/Blocks/Alloc.antt =====
-- block_alloc: the block that it hands out was free, and is marked and counted as taken.
use swift_bsd.Prelude.{
  ℕ, zero, suc, ◌+◌, ◌-◌, ◌*◌, ◌%◌, ◌<◌, ◌≡◌, refl, sym, ap, ◌∙◌, inl, inr, ◌⊎◌, arith, true, false,
  Option, none, some, not, ◌==◌, ◌&&◌, if◌then◌else◌, update, find_first, find_first-Found, Found,
  subst, Bool-cases, not→false,
}
use swift_bsd.Bitmap.{IsBytes, bit_set, bit_test, bit_set-IsBytes, bit_test-bit_set}
use swift_bsd.Bitmap.Count.{clear_bits, clear_bits-bit_set}
use swift_bsd.Fs.SwiftFs.State.{SwiftFs, Loaded, blocks_per_group}
use swift_bsd.Fs.SwiftFs.Blocks.{
  bitmap_for_group, take_bit, alloc_bit, alloc_in, alloc_group, alloc_loop, or_next, block_alloc,
}
use swift_bsd.Fs.SwiftFs.Blocks.Inv.{
  IsValid, Kept, Kept-refl, Kept-trans, Kept-IsValid, Fetched, bitmap_for_group-Fetched, group_bits,
  cache_mark_dirty-disk, total, total-update, total-has, free_blocks-bound,
}

-- Block `b` of group `g`, which was free, is taken in `t`, and nothing else changes.
pub record Taken (fs : SwiftFs) (g b : ℕ) (t : SwiftFs) : Type 0 where
  pub group_in : g < fs.nr_groups
  pub bit_in : b < blocks_per_group
  pub was_free : bit_test (group_bits fs g) b ≡ false
  pub bits :
      (h k : ℕ)
      → h < fs.nr_groups
      → bit_test (group_bits t h) k
        ≡ (if g == h && b == k then true else bit_test (group_bits fs h) k)
  pub fewer : t.free_blocks + 1 ≡ fs.free_blocks

-- what block_alloc comes to: no block and no change, or a block that was free
pub Allocation : SwiftFs → ℕ × SwiftFs → Type 0
Allocation fs (block, t) =
    (block ≡ 0) × Kept fs t ⊎ ((g : ℕ) × (b : ℕ) × (block ≡ g * 32768 + b) × Taken fs g b t)

module _ {fs : SwiftFs} (v : IsValid fs) {g b : ℕ} (bm : Loaded) (p : g < fs.nr_groups)
    (at : group_bits fs g ≡ bm.bytes) (q : b < blocks_per_group)
    (clear : bit_test bm.bytes b ≡ false) where
  taken_bits :
      (h : ℕ)
      → group_bits (take_bit g b bm fs) h ≡ (if g == h then bit_set bm.bytes b else group_bits fs h)
  unfolding take_bit
  taken_bits h = elim (Bool-cases (g == h)) [
    | inl same ↦ ground arith
    | inr other ↦ rw (cache_mark_dirty-disk (fs.gd g).block_bitmap_block fs.cache) (ground arith)
  ]

  is_bytes : IsBytes bm.bytes
  is_bytes = subst IsBytes at (v.bytes g p)

  count : (fs.gd g).free_blocks_count ≡ clear_bits blocks_per_group bm.bytes
  count = v.counted g p ∙ ap (clear_bits blocks_per_group) at

  one_less :
      clear_bits blocks_per_group (bit_set bm.bytes b) + 1 ≡ clear_bits blocks_per_group bm.bytes
  one_less = clear_bits-bit_set bm.bytes b is_bytes blocks_per_group q clear

  taken_gd :
      (take_bit g b bm fs).gd
      ≡ update fs.gd g (record (fs.gd g) { free_blocks_count = (fs.gd g).free_blocks_count - 1 })
  unfolding take_bit
  taken_gd = refl

  taken_groups : (take_bit g b bm fs).nr_groups ≡ fs.nr_groups
  unfolding take_bit
  taken_groups = refl

  taken_free : (take_bit g b bm fs).free_blocks + 1 ≡ fs.free_blocks
  unfolding take_bit
  taken_free =
      omega
        (arith, v.summed, total-has fs.nr_groups g fs.gd p, count, one_less, free_blocks-bound v)

  take_bit-Taken : Taken fs g b (take_bit g b bm fs)
  take_bit-Taken = record {
    group_in = p;
    bit_in = q;
    was_free = ap (λ d. bit_test d b) at ∙ clear;
    bits = λ h k r. ap (λ d. bit_test d k) (taken_bits h) ∙ (elim (Bool-cases (g == h)) [
      | inl same ↦
          let e : g ≡ h = ground arith in
          rw same (
            bit_test-bit_set bm.bytes b is_bytes k
            ∙ ap (λ o. if b == k then true else o)
                (ap (λ d. bit_test d k) (sym at ∙ ap (group_bits fs) e)))
      | inr other ↦ rw other refl
    ]);
    fewer = taken_free;
  }

  take_bit-IsValid : IsValid (take_bit g b bm fs)
  take_bit-IsValid = record {
    size = rw taken_groups v.size;
    bytes = λ h r. rw (taken_bits h) (elim (Bool-cases (g == h)) [
      | inl same ↦ rw same (bit_set-IsBytes bm.bytes b is_bytes)
      | inr other ↦ rw other (v.bytes h (omega (arith, taken_groups)))
    ]);
    counted = λ h r. elim (Bool-cases (g == h)) [
      | inl same ↦
          let e : g ≡ h = ground arith in
          let there : group_bits (take_bit g b bm fs) h ≡ bit_set bm.bytes b =
            taken_bits h ∙ rw same refl in
          let now : ((take_bit g b bm fs).gd h).free_blocks_count
              ≡ (fs.gd g).free_blocks_count - 1 =
            ap (λ d. (d h).free_blocks_count) taken_gd ∙ rw same refl in
          now ∙ omega (arith, count, one_less) ∙ sym (ap (clear_bits blocks_per_group) there)
      | inr other ↦
          let there : group_bits (take_bit g b bm fs) h ≡ group_bits fs h =
            taken_bits h ∙ rw other refl in
          let now : ((take_bit g b bm fs).gd h).free_blocks_count ≡ (fs.gd h).free_blocks_count =
            ap (λ d. (d h).free_blocks_count) taken_gd ∙ rw other refl in
          now
          ∙ v.counted h (omega (arith, taken_groups))
          ∙ sym (ap (clear_bits blocks_per_group) there)
    ];
    summed =
        let sum =
          total-update fs.nr_groups g fs.gd
            (record (fs.gd g) { free_blocks_count = (fs.gd g).free_blocks_count - 1 }) p in
        let after : (take_bit g b bm fs).free_blocks
            ≡ total fs.nr_groups (
                update fs.gd g
                  (record (fs.gd g) { free_blocks_count = (fs.gd g).free_blocks_count - 1 })) =
          omega (arith, sum, taken_free, v.summed, count, one_less) in
        after
        ∙ sym (
            ap (λ n. total n (take_bit g b bm fs).gd) taken_groups
            ∙ ap (total fs.nr_groups) taken_gd);
  }

-- A bitmap that is kept may be read before the block is taken.
Taken-Kept : {fs s t : SwiftFs} {g b : ℕ} → Kept fs s → Taken s g b t → Taken fs g b t
Taken-Kept {fs} {s} {t} {g} {b} k h = record {
  group_in = omega (arith, h.group_in, k.nr_groups);
  bit_in = h.bit_in;
  was_free = ap (λ d. bit_test d b) (sym (k.bits g)) ∙ h.was_free;
  bits = λ i j r.
      h.bits i j (omega (arith, k.nr_groups))
      ∙ ap (λ d. if g == i && b == j then true else bit_test d j) (k.bits i);
  fewer = h.fewer ∙ k.free_blocks;
}

-- what one group gives
Step : SwiftFs → Option ℕ × SwiftFs → Type 0
Step fs (none, t) = Kept fs t × IsValid t
Step fs (some block, t) = IsValid t × ((g : ℕ) × (b : ℕ) × (block ≡ g * 32768 + b) × Taken fs g b t)

alloc_bit-Step :
    {fs s : SwiftFs} (g : ℕ) (bm : Loaded)
    → IsValid s
    → Kept fs s
    → g < s.nr_groups
    → group_bits s g ≡ bm.bytes
    → (r : Option ℕ) → find_first blocks_per_group 0 (λ b. not (bit_test bm.bytes b)) ≡ r
    → Step fs (alloc_bit g bm r s)
unfolding alloc_bit Step
alloc_bit-Step g bm v k p at none e = (k, v)
alloc_bit-Step {fs} {s} g bm v k p at (some b) e =
    let f : Found blocks_per_group 0 (λ b. not (bit_test bm.bytes b)) b =
      find_first-Found _ _ _ e in
    let clear : bit_test bm.bytes b ≡ false = not→false _ f.passes in
    let inside : b < blocks_per_group = omega (arith, f.high) in
    (
      take_bit-IsValid v bm p at inside clear,
      (g, b, omega (arith, v.size), Taken-Kept k (take_bit-Taken v bm p at inside clear)),
    )

alloc_in-Step :
    {fs : SwiftFs} (g : ℕ)
    → IsValid fs
    → (r : Option Loaded × SwiftFs) → Fetched g fs r
    → Step fs (alloc_in g r)
unfolding alloc_in Step
alloc_in-Step g v (none, s) f = (f.kept, Kept-IsValid f.kept v)
alloc_in-Step g v (some bm, s) f =
    let (p, at) = f.found bm refl in
    alloc_bit-Step g bm (Kept-IsValid f.kept v) f.kept (omega (arith, f.kept.nr_groups))
      (f.kept.bits g ∙ at) _ refl

alloc_group-Step : {fs : SwiftFs} (g : ℕ) → IsValid fs → Step fs (alloc_group g fs)
unfolding alloc_group Step
alloc_group-Step {fs} g v = elim (Bool-cases ((fs.gd g).free_blocks_count == 0)) [
  | inl full ↦ rw full (Kept-refl fs, v)
  | inr some_free ↦
      rw some_free (alloc_in-Step g v (bitmap_for_group g fs) (bitmap_for_group-Fetched g fs))
]

Result : SwiftFs → ℕ × SwiftFs → Type 0
Result fs r = IsValid r.1 × Allocation fs r

or_next-Result :
    {fs s : SwiftFs} (r : Option ℕ × SwiftFs) (next : SwiftFs → ℕ × SwiftFs)
    → Kept fs s
    → Step s r
    → ((t : SwiftFs) → Kept fs t → IsValid t → Result fs (next t))
    → Result fs (or_next r next)
unfolding Step Result Allocation
or_next-Result (none, t) next k (kept, valid) rest = rest t (Kept-trans k kept) valid
or_next-Result (some block, t) next k (valid, (g, b, at, taken)) rest =
    (valid, inr (g, b, at, Taken-Kept k taken))

alloc_loop-Result :
    (n gi start : ℕ) {fs s : SwiftFs} → Kept fs s → IsValid s → Result fs (alloc_loop n gi start s)
unfolding alloc_loop Result Allocation
alloc_loop-Result zero gi start k v = (v, inl (refl, k))
alloc_loop-Result (suc n) gi start {fs} {s} k v =
    or_next-Result (alloc_group ((start + gi) % s.nr_groups) s) (λ t. alloc_loop n (gi + 1) start t)
      k (alloc_group-Step _ v) (λ t kept valid. alloc_loop-Result n (gi + 1) start kept valid)

-- On bitmaps and counters that agree, block_alloc returns 0 and changes none of them, or returns a block that
-- was free: its bit is set, no other bit of any group changes, and one block less is free. The counters
-- agree with the bitmaps afterwards.
pub block_alloc-Allocation :
    (fs : SwiftFs) → IsValid fs → IsValid (block_alloc fs).1 × Allocation fs (block_alloc fs)
unfolding block_alloc Result
block_alloc-Allocation fs v = alloc_loop-Result fs.nr_groups 0 fs.curr_group (Kept-refl fs) v
