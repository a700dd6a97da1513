-- ===== src/User/Memory/Munmap.antt =====
-- SC_MUNMAP of src/kernel/user/syscall_handler.c on a process with one memory area.
use swift_bsd.Prelude.{
  ◌∙◌, ℕ, zero, suc, ◌+◌, ◌≤◌, ◌<◌, ◌≡◌, ◌≢◌, inl, inr, true, false, some, arith, leb, ltb, ◌==◌,
  ◌||◌, same_int_refl, ==_refl, Bool-cases, refl, find_first-at,
}
use swift_bsd.User.Vma.{
  Vma, Space, vma_max, vma_alloc_slot, vma_compat, vma_split, split_at, left_part, right_part, join,
  joins, merge_up, vma_try_merge,
}
use swift_bsd.User.Memory.{
  Machine, misses, range_end, clip, drop_vma, unmap_slot, munmap_loop, munmap_call,
}

-- Slot 0 holds the only area in use.
pub record IsAlone (s : Space) : Type 0 where
  pub first : (s.vmas 0).used ≡ true
  pub rest : (i : ℕ) → 0 < i → (s.vmas i).used ≡ false

alloc-one : (s : Space) → IsAlone s → vma_alloc_slot s ≡ some 1
unfolding vma_alloc_slot
alloc-one s h =
    find_first-at vma_max 0 1 _ (omega arith) (omega arith) (rw (h.rest 1 (omega arith)))
      (λ k p q. let e : k ≡ 0 = omega arith in rw (e, h.first))

split-one :
    (s : Space) (at : ℕ)
    → IsAlone s
    → (s.vmas 0).start < at
    → at < (s.vmas 0).end
    → vma_split 0 at s ≡ some (1, split_at 0 at 1 s)
unfolding vma_split
split-one s at h above below =
    let inside : (leb at (s.vmas 0).start || leb (s.vmas 0).end at) ≡ false = ground arith in
    rw (inside, alloc-one s h)

-- The parts of a split fit together again, whether they are in use or not.
parts-joins : (v : Vma) (at : ℕ) → joins (left_part v at) (right_part v at) ≡ true
unfolding vma_compat
parts-joins v at = simp (==_refl, same_int_refl) (ground arith)

module _ {W : Type 0} (M : Machine W) (addr end : ℕ) where
  -- The loop passes over slots that are not in use.
  munmap_loop-unused :
      (fuel i : ℕ) (s : Space) (w : W)
      → ((j : ℕ) → i ≤ j → (s.vmas j).used ≡ false)
      → i ≤ vma_max
      → vma_max < i + fuel
      → munmap_loop M fuel addr end i s w ≡ some (0, s, w)
  unfolding munmap_loop
  munmap_loop-unused zero i s w unused inside enough = absurd (omega arith)
  munmap_loop-unused (suc fuel) i s w unused inside enough = elim (Bool-cases (leb vma_max i)) [
    | inl done ↦ rw (done, munmap_loop)
    | inr more ↦
        let next : munmap_loop M fuel addr end (i + 1) s w ≡ some (0, s, w) =
          munmap_loop-unused fuel (i + 1) s w (λ j p. unused j (omega arith)) (ground arith)
            (omega arith) in
        rw (more, munmap_loop) (rw (unused i (omega arith), munmap_loop) next)
  ]

  -- The loop takes a slot in the range off the table.
  munmap_loop-hit :
      (fuel i j : ℕ) (s t : Space) (w : W)
      → i < vma_max
      → misses (s.vmas i) addr end ≡ false
      → clip i addr end s ≡ some (j, t)
      → munmap_loop M (suc fuel) addr end i s w
        ≡ munmap_loop M fuel addr end (j + 1) (unmap_slot M j t w).0 (unmap_slot M j t w).1
  unfolding munmap_loop
  munmap_loop-hit fuel i j s t w inside hit cut =
      let more : leb vma_max i ≡ false = ground arith in
      rw (more, munmap_loop) (rw (hit, munmap_loop) (rw (cut, munmap_loop) refl))

module _ {W : Type 0} (M : Machine W) (s : Space) (w : W) (alone : IsAlone s)
    (addr length : ℕ) where
  abbrev finish : ℕ
  finish = range_end addr length

  clip-tail :
      (s.vmas 0).start < addr
      → addr < (s.vmas 0).end
      → (s.vmas 0).end ≤ finish
      → clip 0 addr finish s ≡ some (1, split_at 0 addr 1 s)
  unfolding clip
  clip-tail above below all =
      let before : ltb (s.vmas 0).start addr ≡ true = ground arith in
      let whole : ltb finish (s.vmas 0).end ≡ false = ground arith in
      rw (before, split-one s addr alone above below, whole)

  -- the table once the end of the area is split off, dropped, and merged again
  abbrev rejoined : Space
  rejoined = join 0 1 (drop_vma 1 (split_at 0 addr 1 s))

  unmap_slot-tail : (unmap_slot M 1 (split_at 0 addr 1 s) w).0 ≡ rejoined
  unfolding unmap_slot vma_try_merge vma_compat merge_up
  unmap_slot-tail = rw (alone.first, parts-joins (s.vmas 0) addr)

  rejoined-first : rejoined.vmas 0 ≡ s.vmas 0
  rejoined-first = refl

  rejoined-rest : (j : ℕ) → 0 < j → (rejoined.vmas j).used ≡ false
  rejoined-rest j pos_j = ground (arith, alone.rest j)

  -- If slot 0 holds the only area of a process, SC_MUNMAP of the end of it does not unmap it: for a range that begins
  -- inside the area and reaches to its end or beyond, the call returns 0 and the area in slot 0 is
  -- as it was, so the table still covers every address of the range. Fuel of 66 rounds is enough.
  pub munmap_call-keeps_tail :
      (fuel : ℕ)
      → 66 ≤ fuel
      → length ≢ 0
      → (s.vmas 0).start < addr
      → addr < (s.vmas 0).end
      → (s.vmas 0).end ≤ finish
      → (t : Space) × (w' : W) × (munmap_call M fuel addr length s w ≡ some (0, t, w'))
        × (t.vmas 0 ≡ s.vmas 0)
  unfolding munmap_call
  munmap_call-keeps_tail zero enough ne above below all = absurd (omega arith)
  munmap_call-keeps_tail (suc fuel) enough ne above below all =
      let nonzero : (length == 0) ≡ false = ground arith in
      let hit : misses (s.vmas 0) addr finish ≡ false = ground (arith, alone.first) in
      let u = unmap_slot M 1 (split_at 0 addr 1 s) w in
      let end_of : munmap_loop M fuel addr finish 2 rejoined u.1 ≡ some (0, rejoined, u.1) =
        munmap_loop-unused M addr finish fuel 2 rejoined u.1 (λ j p. rejoined-rest j (omega arith))
          (omega arith) (omega arith) in
      let step =
        munmap_loop-hit M addr finish fuel 0 1 s (split_at 0 addr 1 s) w (omega arith) hit
          (clip-tail above below all) in
      (rejoined, u.1, rw nonzero (step ∙ rw unmap_slot-tail end_of), rejoined-first)

  clip-head :
      addr ≤ (s.vmas 0).start
      → (s.vmas 0).start < finish
      → finish < (s.vmas 0).end
      → clip 0 addr finish s ≡ some (0, split_at 0 finish 1 s)
  unfolding clip
  clip-head before above below =
      let from_start : ltb (s.vmas 0).start addr ≡ false = ground arith in
      let part : ltb finish (s.vmas 0).end ≡ true = ground arith in
      rw (from_start, part, split-one s finish alone above below)

  -- the table once the front of the area is split off, dropped, and merged again
  abbrev lost : Space
  lost = join 0 1 (drop_vma 0 (split_at 0 finish 1 s))

  unmap_slot-head : (unmap_slot M 0 (split_at 0 finish 1 s) w).0 ≡ lost
  unfolding unmap_slot vma_try_merge vma_compat merge_up
  unmap_slot-head = rw (alone.first, parts-joins (s.vmas 0) finish)

  lost-all : (j : ℕ) → (lost.vmas j).used ≡ false
  lost-all j = ground (arith, alone.rest j)

  -- If slot 0 holds the only area of a process, SC_MUNMAP of the front of it takes the whole area off the table: for a
  -- range that begins at or before the area and ends inside it, the call returns 0 and no slot is in
  -- use, so the addresses behind the range are no longer mapped either. Fuel of 67 rounds is enough.
  pub munmap_call-loses_rest :
      (fuel : ℕ)
      → 67 ≤ fuel
      → length ≢ 0
      → addr ≤ (s.vmas 0).start
      → (s.vmas 0).start < finish
      → finish < (s.vmas 0).end
      → (t : Space) × (w' : W) × (munmap_call M fuel addr length s w ≡ some (0, t, w'))
        × ((i : ℕ) → (t.vmas i).used ≡ false)
  unfolding munmap_call
  munmap_call-loses_rest zero enough ne before above below = absurd (omega arith)
  munmap_call-loses_rest (suc fuel) enough ne before above below =
      let nonzero : (length == 0) ≡ false = ground arith in
      let hit : misses (s.vmas 0) addr finish ≡ false = ground (arith, alone.first) in
      let u = unmap_slot M 0 (split_at 0 finish 1 s) w in
      let end_of : munmap_loop M fuel addr finish 1 lost u.1 ≡ some (0, lost, u.1) =
        munmap_loop-unused M addr finish fuel 1 lost u.1 (λ j p. lost-all j) (omega arith)
          (omega arith) in
      let step =
        munmap_loop-hit M addr finish fuel 0 0 s (split_at 0 finish 1 s) w (omega arith) hit
          (clip-head before above below) in
      (lost, u.1, rw nonzero (step ∙ rw unmap_slot-head end_of), lost-all)
