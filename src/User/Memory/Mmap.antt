-- ===== src/User/Memory/Mmap.antt =====
-- SC_MMAP of src/kernel/user/syscall_handler.c with no address given.
use swift_bsd.Prelude.{
  as_int, ◌/◌, not→true, not→false, ==_refl, find_first-none, increment, ap, ℕ, suc, ◌+◌, ◌≤◌, ◌<◌,
  ◌≡◌, ◌≢◌, ◌⊎◌, inl, inr, true, false, not, arith, ◌^◌, ◌%◌, ◌==◌, if◌then◌else◌, add64, sub64,
  page_up, ℤ, is_negative, Bool-cases, Option-cases, refl, update, find_first, find_first-Found,
  Found, for_loop, for_loop-keeps,
}
use swift_bsd.User.Vma.{Vma, Space, vma_max, covers, vma_alloc_slot, vma_hint, hint_step}
use swift_bsd.User.Vma.View.{Backing, Backs, Apart, IsDisjoint}
use swift_bsd.User.Memory.{failed, mmap_call}

-- Every area in use ends at or below `top`.
abbrev pub EndsBelow : ℕ → Space → Type 0
EndsBelow top s = (i : ℕ) → i < vma_max → (s.vmas i).used ≡ true → (s.vmas i).end ≤ top

-- what the search for a free address knows of the first `k` slots
record Proposed (s : Space) (top k h : ℕ) : Type 0 where
  low : 0x40000000 ≤ h
  high : h ≤ top
  above : (i : ℕ) → i < k → (s.vmas i).used ≡ true → (s.vmas i).end ≤ h

hint_step-Proposed :
    {s : Space} {top h : ℕ} (k : ℕ)
    → EndsBelow top s
    → k < vma_max
    → Proposed s top k h
    → Proposed s top (suc k) (hint_step s k h)
unfolding hint_step
hint_step-Proposed {s} {top} {h} k ends k_in now = record {
  low = ground (arith, now.low);
  high = ground (arith, now.high, ends k);
  above = λ i i_in used. elim (Bool-cases (i == k)) [
    | inl last ↦
        let e : i ≡ k = ground arith in
        ground (arith, ap (λ j. (s.vmas j).used) e, ap (λ j. (s.vmas j).end) e)
    | inr before ↦ ground (arith, now.above i)
  ];
}

vma_hint-Proposed :
    (s : Space) (top : ℕ)
    → EndsBelow top s
    → 0x40000000 ≤ top
    → Proposed s top vma_max (for_loop (hint_step s) 0 vma_max 0x40000000)
vma_hint-Proposed s top ends room =
    for_loop-keeps (λ k h. Proposed s top k h) (hint_step s) vma_max 0 0x40000000
      (λ k h low high now. hint_step-Proposed k ends high now) refl
      (record { low = omega arith; high = room; above = λ i i_in used. absurd (omega arith) })

-- The address that vma_hint proposes is a multiple of the page size, at least 0x40000000, and no area
-- in use reaches beyond it.
pub vma_hint_lem :
    (s : Space) (top : ℕ)
    → EndsBelow top s
    → 0x40000000 ≤ top
    → top ≤ 2 ^ 63
    → (vma_hint s % 4096 ≡ 0)
      × (0x40000000 ≤ vma_hint s)
      × (vma_hint s < top + 4096)
      × ((i : ℕ) → i < vma_max → (s.vmas i).used ≡ true → (s.vmas i).end ≤ vma_hint s)
unfolding vma_hint
vma_hint_lem s top ends room small =
    let h = vma_hint-Proposed s top ends room in
    (
      omega arith,
      omega (arith, h.low, h.high),
      omega (arith, h.high),
      λ i i_in used. omega (arith, h.high, h.above i i_in used),
    )

-- What a successful call has done to the table `s`: the pages at `at` have the backing asked for,
-- every address that had one keeps it, and areas stay apart.
pub record Mapped (length prot flags : ℕ) (fd : ℤ) (offset : ℕ) (s : Space) (at : ℕ) (t : Space)
    : Type 0 where
  pub aligned : at % 4096 ≡ 0
  pub maps :
      (x : ℕ)
      → at ≤ x
      → x < at + length
      → Backs t x (record {
        prot = prot;
        flags = flags;
        fd = fd;
        offset = if is_negative fd then 0 else add64 offset (sub64 x at);
      })
  pub keeps : (x : ℕ) (b : Backing) → Backs s x b → Backs t x b
  pub disjoint : IsDisjoint t

module _ (s : Space) (v : Vma) (i : ℕ) (i_in : i < vma_max) (unused : (s.vmas i).used ≡ false)
    (far : (j : ℕ) → j < vma_max → (s.vmas j).used ≡ true → (s.vmas j).end ≤ v.start) where
  abbrev filled : ℕ → Vma
  filled = update s.vmas i v

  filled-Apart_new : (j : ℕ) → j < vma_max → i ≢ j → Apart v (s.vmas j)
  filled-Apart_new j j_in ne x c = ground (arith, far j)

  filled-Apart_old : (j : ℕ) → j < vma_max → i ≢ j → Apart (s.vmas j) v
  filled-Apart_old j j_in ne x c = ground (arith, far j)

  filled-Apart :
      IsDisjoint s → (j k : ℕ) → j < vma_max → k < vma_max → j ≢ k → Apart (filled j) (filled k)
  filled-Apart d j k j_in k_in ne = elim (Bool-cases (i == j)) [
    | inl new ↦
        let other : (i == k) ≡ false = ground arith in
        rw (new, other) (filled-Apart_new k k_in (ground arith))
    | inr old ↦ elim (Bool-cases (i == k)) [
      | inl new ↦ rw (old, new) (filled-Apart_old j j_in (ground arith))
      | inr old' ↦ rw (old, old') (d j k j_in k_in ne)
    ]
  ]

  filled-keeps :
      (count : ℤ) (x : ℕ) (b : Backing)
      → Backs s x b
      → Backs (record s { vmas = filled; vma_count = count }) x b
  filled-keeps count x b (j, j_in, c, e) =
      let ne : i ≢ j = λ q. cc (unused, ap (λ k. covers (s.vmas k) x) q, c) in
      let other : (i == j) ≡ false = ground arith in (j, j_in, rw other c, rw other e)

-- SC_MMAP with no address, of a length from 1 to 2^62, on a table whose areas are apart and end at or below 2^62:
-- if some slot is free, the call maps fresh pages at an aligned address, keeps the backing of every mapped address,
-- and leaves the areas apart; protection and flags of the pages are both the low half of arg3, the file is its
-- high half, and the offset is what stands 16 bytes behind the start of arg3. If no slot is free, it fails and
-- changes nothing.
pub mmap_call-Mapped :
    (length arg3 beyond : ℕ) (s : Space)
    → length ≢ 0
    → length ≤ 2 ^ 62
    → EndsBelow (2 ^ 62) s
    → IsDisjoint s
    → let (at, t) = mmap_call 0 length arg3 beyond s in
      Mapped length (arg3 % 2 ^ 32) (arg3 % 2 ^ 32) (as_int (arg3 / 2 ^ 32)) beyond s at t
      ⊎ ((at ≡ failed) × (t ≡ s) × ((i : ℕ) → i < vma_max → (s.vmas i).used ≡ true))
unfolding mmap_call vma_alloc_slot
mmap_call-Mapped length arg3 beyond s ne bound ends disjoint =
    elim (Option-cases (find_first vma_max 0 (λ i. not (s.vmas i).used))) [
      | inl full ↦
          rw (nonzero, full)
            (inr (
              refl,
              refl,
              λ i i_in. not→true _ (find_first-none _ _ _ full i (omega arith) (omega arith)),
            ))
      | inr (i, found) ↦
          let f : Found vma_max 0 (λ k. not (s.vmas k).used) i = find_first-Found _ _ _ found in
          rw (nonzero, found) (inl (placed i (omega (arith, f.high)) (not→false _ f.passes)))
    ]
  where
    nonzero : (length == 0) ≡ false
    nonzero = ground arith

    hint :
        (vma_hint s % 4096 ≡ 0)
        × (0x40000000 ≤ vma_hint s)
        × (vma_hint s < 2 ^ 62 + 4096)
        × ((i : ℕ) → i < vma_max → (s.vmas i).used ≡ true → (s.vmas i).end ≤ vma_hint s)
    hint = vma_hint_lem s (2 ^ 62) ends (omega arith) (omega arith)

    v : Vma
    v = record {
      start = vma_hint s;
      end = add64 (vma_hint s) (page_up length);
      prot = arg3 % 2 ^ 32;
      flags = arg3 % 2 ^ 32;
      fd = as_int (arg3 / 2 ^ 32);
      foff = if is_negative (as_int (arg3 / 2 ^ 32)) then 0 else beyond;
      used = true;
    }

    v-covers : (x : ℕ) → vma_hint s ≤ x → x < vma_hint s + length → covers v x ≡ true
    v-covers x low high = ground (arith, hint.2)

    placed :
        (i : ℕ)
        → i < vma_max
        → (s.vmas i).used ≡ false
        → Mapped length
            (arg3 % 2 ^ 32)
            (arg3 % 2 ^ 32)
            (as_int (arg3 / 2 ^ 32))
            beyond
            s
            (vma_hint s)
            (record s { vmas = update s.vmas i v; vma_count = increment s.vma_count })
    placed i i_in unused = record {
      aligned = hint.0;
      maps = λ x low high.
          (i, i_in, rw (==_refl i) (v-covers x low high), rw (==_refl i) (ground arith));
      keeps = filled-keeps s v i i_in unused hint.3 (increment s.vma_count);
      disjoint = filled-Apart s v i i_in unused hint.3 disjoint;
    }
