-- ===== src/User/Vma/Split.antt =====
-- vma_split of src/kernel/user/syscall_handler.c.
use swift_bsd.Prelude.{
  sym, ◌∙◌, ℕ, ◌≤◌, ◌<◌, ◌≡◌, ◌≢◌, ◌↔◌, inl, inr, true, false, not, some, arith, ◌^◌, ltb, ◌==◌,
  ◌||◌, add64, sub64, find_first, find_first-Found, Found, Bool-cases, Option-cases, ap,
}
use swift_bsd.User.Vma.{
  Vma, Space, vma_max, covers, vma_alloc_slot, vma_split, split_at, left_part, right_part,
}
use swift_bsd.User.Vma.View.{Backing, backing, Backs, IsOrdered}

-- what a split that succeeds found out
pub record CanSplit (idx at : ℕ) (s : Space) (r : ℕ) (t : Space) : Type 0 where
  pub above : (s.vmas idx).start < at
  pub below : at < (s.vmas idx).end
  pub slot : r < vma_max
  pub unused : (s.vmas r).used ≡ false
  pub result : t ≡ split_at idx at r s

pub vma_split-CanSplit :
    (idx at : ℕ) (s : Space) {r : ℕ} {t : Space}
    → vma_split idx at s ≡ some (r, t)
    → CanSplit idx at s r t
unfolding vma_split vma_alloc_slot
vma_split-CanSplit idx at s {r} {t} e =
    elim (Option-cases (find_first vma_max 0 (λ i. not (s.vmas i).used))) [
      | inl full ↦ absurd (ground arith)
      | inr (k, found) ↦
          let f : Found vma_max 0 (λ i. not (s.vmas i).used) k =
            find_first-Found vma_max 0 _ found in
          let same : k ≡ r = ground arith in
          record {
            above = ground arith;
            below = ground arith;
            slot = omega (arith, f.high);
            unused = ground (arith, f.passes);
            result = ground arith;
          }
    ]

module _ (v : Vma) (at : ℕ) (above : v.start < at) (below : at < v.end)
    (small : v.end < 2 ^ 64) where
  right-offset :
      (x : ℕ)
      → at ≤ x
      → x < v.end
      → add64 (add64 v.foff (sub64 at v.start)) (sub64 x at) ≡ add64 v.foff (sub64 x v.start)
  right-offset x low high = omega arith

  right-backing :
      (x : ℕ) → covers (right_part v at) x ≡ true → backing (right_part v at) x ≡ backing v x
  right-backing x c = ground (arith, right-offset x)

  covers-parts : (x : ℕ) → covers v x ≡ (covers (left_part v at) x || covers (right_part v at) x)
  covers-parts x = ground arith

module _ (s : Space) {idx at r : ℕ} (ordered : IsOrdered s) (idx_in : idx < vma_max)
    (used : (s.vmas idx).used ≡ true) (above : (s.vmas idx).start < at)
    (below : at < (s.vmas idx).end) (slot : r < vma_max) (unused : (s.vmas r).used ≡ false) where
  other_slot : idx ≢ r
  other_slot e = cc (used, unused, ap (λ k. (s.vmas k).used) e)

  slot_left : (split_at idx at r s).vmas idx ≡ left_part (s.vmas idx) at
  slot_left = ground arith

  slot_right : (split_at idx at r s).vmas r ≡ right_part (s.vmas idx) at
  slot_right = ground (arith, other_slot)

  slot_other : (i : ℕ) → idx ≢ i → r ≢ i → (split_at idx at r s).vmas i ≡ s.vmas i
  slot_other i p q = ground arith

  split-Backs_to : (x : ℕ) (b : Backing) → Backs (split_at idx at r s) x b → Backs s x b
  split-Backs_to x b (i, i_in, c, e) = elim (Bool-cases (idx == i)) [
    | inl left ↦
        let same : idx ≡ i = ground arith in
        let c' = rw (← same, slot_left) at c in
        let e' = rw (← same, slot_left) at e in
        (
          idx,
          idx_in,
          ground (arith, covers-parts (s.vmas idx) at above below (ordered idx).1 x),
          e',
        )
    | inr not_left ↦ elim (Bool-cases (r == i)) [
      | inl right ↦
          let same : r ≡ i = ground arith in
          let c' = rw (← same, slot_right) at c in
          let e' = rw (← same, slot_right) at e in
          (
            idx,
            idx_in,
            ground (arith, covers-parts (s.vmas idx) at above below (ordered idx).1 x),
            sym (right-backing (s.vmas idx) at above below (ordered idx).1 x c') ∙ e',
          )
      | inr neither ↦
          let same = slot_other i (ground arith) (ground arith) in
          (i, i_in, rw same at c, rw same at e)
    ]
  ]

  split-Backs_from : (x : ℕ) (b : Backing) → Backs s x b → Backs (split_at idx at r s) x b
  split-Backs_from x b (i, i_in, c, e) = elim (Bool-cases (idx == i)) [
    | inl here ↦
        let same : i ≡ idx = ground arith in
        let c' = rw same at c in
        let e' = rw same at e in
        elim (Bool-cases (ltb x at)) [
          | inl left ↦ (idx, idx_in, rw slot_left (ground arith), rw slot_left e')
          | inr right ↦
              let cr : covers (right_part (s.vmas idx) at) x ≡ true = ground arith in
              (
                r,
                slot,
                rw slot_right cr,
                rw slot_right (right-backing (s.vmas idx) at above below (ordered idx).1 x cr ∙ e'),
              )
        ]
    | inr elsewhere ↦
        let not_r : r ≢ i = λ q. cc (unused, ap (λ k. covers (s.vmas k) x) q, c) in
        let same = slot_other i (ground arith) not_r in (i, i_in, rw same c, rw same e)
  ]

-- When vma_split succeeds on a slot in use, every address keeps its protection, flags, file and file
-- offset: the new table backs an address with exactly what the old one did.
pub vma_split-Backs :
    (idx at : ℕ) (s : Space) {r : ℕ} {t : Space}
    → IsOrdered s
    → idx < vma_max
    → (s.vmas idx).used ≡ true
    → vma_split idx at s ≡ some (r, t)
    → (x : ℕ) (b : Backing) → Backs t x b ↔ Backs s x b
vma_split-Backs idx at s {r} {t} ordered idx_in used e x b =
    let c = vma_split-CanSplit idx at s e in
    rw c.result (
      split-Backs_to s ordered idx_in used c.above c.below c.slot c.unused x b,
      split-Backs_from s ordered idx_in used c.above c.below c.slot c.unused x b,
    )
