-- ===== src/Mm/Vmm/Fork.antt =====
-- clone_pt_cow of src/kernel/arch/x86_64/vmm.c: the pages that a process shares with its copy.
use swift_bsd.Prelude.{
  subst, ℕ, ◌-◌, ◌*◌, ◌/◌, ◌%◌, ◌<◌, ◌≡◌, ◌≢◌, refl, sym, ap, ◌∙◌, inl, inr, arith, true, false,
  ◌==◌, ◌&&◌, Bool-cases, contrary,
}
use swift_bsd.Bitmap.{bit_test}
use swift_bsd.Mm.Pmm.{Pmm, page_alloc}
use swift_bsd.Mm.Pmm.Inv.{IsValid}
use swift_bsd.Mm.Pmm.Alloc.{Allocation, page, exhausted, page_alloc-Allocation}
use swift_bsd.Mm.Vmm.{Vmm, is_present, is_write, is_user, frame, slot, fill_table}
use swift_bsd.Mm.Vmm.Clone.{
  zeroed, vmm_alloc_page, cow, shared_entry, kept_entry, share_table, clone_pt_cow, if_page,
}

fill_table-slot :
    (t : ℕ) (f words : ℕ → ℕ) (i : ℕ) → i < 512 → fill_table t f words (slot t i) ≡ f i
unfolding fill_table
fill_table-slot t f words i small =
    let place : (slot t i - t) / 8 ≡ i = omega arith in ground (arith, ap f place)

fill_table-apart :
    (t : ℕ) (f words : ℕ → ℕ) (a : ℕ)
    → t % 4096 ≡ 0
    → a / 4096 ≢ t / 4096
    → fill_table t f words a ≡ words a
unfolding fill_table
fill_table-apart t f words a aligned apart = ground (arith, apart, aligned)

cow-frame : (e : ℕ) → frame (cow e) ≡ frame e
cow-frame e = elim (Bool-cases (is_user e && is_write e)) [
  | inl both ↦ rw both (ground (arith, both))
  | inr other ↦ rw other refl
]

cow-is_present : (e : ℕ) → is_present (cow e) ≡ is_present e
cow-is_present e = elim (Bool-cases (is_user e && is_write e)) [
  | inl both ↦ rw both (ground (arith, both))
  | inr other ↦ rw other refl
]

cow-read_only : (e : ℕ) → (is_user (cow e) && is_write (cow e)) ≡ false
cow-read_only e = elim (Bool-cases (is_user e && is_write e)) [
  | inl both ↦ rw both (ground (arith, both))
  | inr other ↦ rw other other
]

-- What an entry of the table and the entry of the copy are, against what the entry was: an absent one is absent in
-- both; one that is there is the same in both, leads to the same page, and cannot be written by a user.
pub record IsShared (e parent child : ℕ) : Type 0 where
  pub absent : is_present e ≡ false → (child ≡ 0) × (parent ≡ e)
  pub same : is_present e ≡ true → child ≡ parent
  pub leads : is_present e ≡ true → (frame parent ≡ frame e) × (is_present parent ≡ true)
  pub read_only : is_present e ≡ true → (is_user parent && is_write parent) ≡ false

entry-IsShared : (e : ℕ) → IsShared e (kept_entry e) (shared_entry e)
entry-IsShared e = record {
  absent = λ h. rw h (refl, refl);
  same = λ h. rw h refl;
  leads = λ h. rw h (cow-frame e, cow-is_present e ∙ h);
  read_only = λ h. rw h (cow-read_only e);
}

shared_from : (e : ℕ) {x y : ℕ} → x ≡ kept_entry e → y ≡ shared_entry e → IsShared e x y
shared_from e {x} {y} hx hy =
    subst (λ w. IsShared e w y) (sym hx)
      (subst (λ w. IsShared e (kept_entry e) w) (sym hy) (entry-IsShared e))

-- What clone_pt_cow leaves.
pub record IsClone (s : Vmm) (parent child : ℕ) (s' : Vmm) : Type 0 where
  pub entries :
      (i : ℕ)
      → i < 512
      → IsShared (s.words (slot parent i)) (s'.words (slot parent i)) (s'.words (slot child i))
  pub rest : (a : ℕ) → a / 4096 ≢ parent / 4096 → a / 4096 ≢ child / 4096 → s'.words a ≡ s.words a
  pub valid : IsValid s'.pmm

module _ (s : Vmm) (parent : ℕ) (aligned : parent % 4096 ≡ 0)
    (taken : bit_test s.pmm.bitmap (parent / 4096) ≡ true) where
  module _ (p : ℕ) (free : bit_test s.pmm.bitmap p ≡ false) (pmm : Pmm) (v : IsValid pmm) where
    abbrev cleared : Vmm
    cleared = record s { pmm = pmm; words = fill_table (p * 4096) (λ i. 0) s.words }

    other_page : parent / 4096 ≢ p
    other_page e = contrary (sym taken ∙ ap (bit_test s.pmm.bitmap) e ∙ free)

    cleared_parent : (i : ℕ) → i < 512 → cleared.words (slot parent i) ≡ s.words (slot parent i)
    cleared_parent i small =
        fill_table-apart (p * 4096) (λ k. 0) s.words (slot parent i) (omega arith)
          (λ e. other_page (omega (arith, e, aligned, small)))

    share_table-IsClone : IsClone s parent (p * 4096) (share_table parent (p * 4096) cleared)
    unfolding share_table
    share_table-IsClone = record {
      entries = λ i small.
          let before = cleared_parent i small in
          let mine =
            fill_table-apart (p * 4096) (λ k. shared_entry (cleared.words (slot parent k)))
              (fill_table parent (λ k. kept_entry (cleared.words (slot parent k))) cleared.words)
              (slot parent i) (omega arith) (λ e. other_page (omega (arith, e, aligned, small)))
            ∙ fill_table-slot parent (λ k. kept_entry (cleared.words (slot parent k))) cleared.words
                i small
            ∙ ap kept_entry before in
          let its =
            fill_table-slot (p * 4096) (λ k. shared_entry (cleared.words (slot parent k)))
              (fill_table parent (λ k. kept_entry (cleared.words (slot parent k))) cleared.words) i
              small
            ∙ ap shared_entry before in
          shared_from (s.words (slot parent i)) mine its;
      rest = λ a off_parent off_child.
          let off : a / 4096 ≢ p * 4096 / 4096 = off_child in
          fill_table-apart (p * 4096) (λ k. shared_entry (cleared.words (slot parent k)))
            (fill_table parent (λ k. kept_entry (cleared.words (slot parent k))) cleared.words) a
            (omega arith) off
          ∙ fill_table-apart parent (λ k. kept_entry (cleared.words (slot parent k))) cleared.words
              a aligned off_parent
          ∙ fill_table-apart (p * 4096) (λ k. 0) s.words a (omega arith) off;
      valid = v;
    }

  zeroed-IsClone :
      (a : ℕ × Pmm)
      → Allocation s.pmm a
      → let r = if_page (zeroed s a) (λ child t. (child, share_table parent child t)) in
        r.0 ≢ 0 → IsClone s parent r.0 r.1
  unfolding zeroed
  zeroed-IsClone (addr, pmm) (page p _ _ at low free first bits count v last) ne =
      elim (Bool-cases (addr == 0)) [
        | inl none_left ↦ absurd (ne (rw none_left refl))
        | inr some_page ↦ rw some_page (
            rw some_page (
              subst
                (λ n. IsClone s parent n (
                  share_table parent n
                    (record s { pmm = pmm; words = fill_table n (λ i. 0) s.words })))
                (sym at) (share_table-IsClone p free pmm v)))
      ]
  zeroed-IsClone _ (exhausted all) ne = absurd (ne refl)

  -- With a valid page allocator, if clone_pt_cow gets a page for the copy of a table in a taken page, every entry of
  -- the table is the same in both tables and leads where it led, but cannot be written by a user in either; absent
  -- entries are absent; and no other word of memory changes.
  pub clone_pt_cow-IsClone :
      IsValid s.pmm
      → (clone_pt_cow parent s).0 ≢ 0
      → IsClone s parent (clone_pt_cow parent s).0 (clone_pt_cow parent s).1
  unfolding clone_pt_cow vmm_alloc_page
  clone_pt_cow-IsClone valid = zeroed-IsClone (page_alloc s.pmm) (page_alloc-Allocation s.pmm valid)
