-- ===== src/Mm/Fault/Areas.antt =====
-- A write to a page that is not there, of exception_handler of src/kernel/arch/x86_64/idt.c, inside a memory area
-- or not.
use swift_bsd.Prelude.{
  ℕ, ◌+◌, ◌*◌, ◌/◌, ◌%◌, ◌^◌, ◌≤◌, ◌<◌, ◌≡◌, ◌≢◌, refl, sym, ap, ◌∙◌, arith, ℤ, Bool, true, false,
  some, ◌==◌, leb, if◌then◌else◌, contrary, equal_test, unequal_test, subst,
}
use swift_bsd.Bitmap.{bit_test}
use swift_bsd.Mm.Pmm.{Pmm, page_alloc, max_pages}
use swift_bsd.Mm.Pmm.Inv.{IsValid}
use swift_bsd.Mm.Pmm.Alloc.{Allocation, page, exhausted, page_alloc-Allocation}
use swift_bsd.Mm.Vmm.{Vmm, frame, slot, fill_table, vmm_map, vmm_map_in_cr3}
use swift_bsd.Mm.Vmm.Clone.{zeroed, vmm_alloc_page}
use swift_bsd.Mm.Vmm.Tables.{Leaf, asked, leaf_equal, IsTree, IsOther}
use swift_bsd.Mm.Vmm.Same.{IsTree-free, IsTree-tables, translate-tables}
use swift_bsd.Mm.Vmm.Mapped.{
  resolve, same_page, indices, IsMapped, pdpt_of, pd_of, pt_of, vmm_map_in_cr3-IsMapped,
}
use swift_bsd.User.Vma.{Vma}
use swift_bsd.Mm.Fault.{exception_handler, page_fault, zero_fault, map_new, resumed}
use swift_bsd.Mm.Fault.Copy.{IsTree-after, new-IsOther, old-IsOther, own_page, frame_page}

outside_page :
    (addr p : ℕ) (words : ℕ → ℕ) (a : ℕ)
    → addr ≡ p * 4096
    → a / 4096 ≢ p
    → fill_table addr (λ i. 0) words a ≡ words a
unfolding fill_table
outside_page addr p words a at ne = ground (arith, at, ne)

inside_page :
    (addr p : ℕ) (words : ℕ → ℕ) (x : ℕ)
    → addr ≡ p * 4096
    → x < 4096
    → fill_table addr (λ i. 0) words (p * 4096 + x) ≡ 0
unfolding fill_table
inside_page addr p words x at small = ground (arith, at, small)

-- PG_PRESENT | PG_WRITE | PG_NX, and PG_USER for a fault of a user
abbrev zero_flags : Bool → ℕ
zero_flags user = 3 + 2 ^ 63 + (if user then 4 else 0)

-- page `p`, which may be written but not executed
abbrev pub zero_leaf : ℕ → Bool → Leaf
zero_leaf p user = record { page = p * 4096; write = true; user = user; nx = true }

asked-zero : (p : ℕ) (user : Bool) → asked (p * 4096) (zero_flags user) ≡ zero_leaf p user
asked-zero p true =
    leaf_equal (asked (p * 4096) (zero_flags true)) (zero_leaf p true) (omega arith) refl refl refl
asked-zero p false =
    leaf_equal (asked (p * 4096) (zero_flags false)) (zero_leaf p false) (omega arith) refl refl
      refl

zeroed-page :
    (s : Vmm) (addr : ℕ) (pmm : Pmm)
    → addr ≢ 0
    → zeroed s (addr, pmm)
      ≡ (addr, record s { pmm = pmm; words = fill_table addr (λ i. 0) s.words })
unfolding zeroed
zeroed-page s addr pmm ne = let some_page = unequal_test addr 0 ne in rw some_page refl

map_new-page :
    (at flags addr : ℕ) (t : Vmm)
    → addr ≢ 0
    → map_new at flags (λ u. u) (addr, t) ≡ resumed (vmm_map_in_cr3 t.cr3 at addr flags t)
unfolding vmm_map
map_new-page at flags addr t ne = let some_page = unequal_test addr 0 ne in rw some_page refl

-- A write from 0x1000000 on to a page that is not there comes to the branch that ignores the areas.
zeroes :
    (read_page : ℤ → ℕ → ℕ → Vmm → Vmm) (vmas : ℕ → Vma) (error cr2 : ℕ) (s : Vmm)
    → error % 2 ≡ 0
    → error / 2 % 2 ≡ 1
    → 0x1000000 ≤ cr2
    → exception_handler read_page vmas 14 error cr2 s ≡ zero_fault (error / 4 % 2 == 1) cr2 s
unfolding exception_handler page_fault
zeroes read_page vmas error cr2 s absent write high =
    let gone : (error % 2 == 1) ≡ false = ground arith in
    let by_write : (error / 2 % 2 == 1) ≡ true = equal_test _ _ write in
    let above : leb 0x1000000 cr2 ≡ true = ground arith in rw (gone, by_write, above) refl

-- What a fault that maps a page of zeros at `cr2` leaves: from there a page that was free can be written, by a user
-- if `user` says so, but not executed, and all its words are 0; every other address leads to what it led to; and a
-- page that is taken and no table holds what it held.
pub record IsZeroed (s : Vmm) (level : ℕ → ℕ) (user : Bool) (cr2 : ℕ) (s' : Vmm) : Type 0 where
  pub new_page : ℕ
  pub was_free : bit_test s.pmm.bitmap new_page ≡ false
  pub leads : resolve s.cr3 s'.words cr2 ≡ some (zero_leaf new_page user)
  pub elsewhere :
      (a : ℕ) → same_page a cr2 ≡ false → resolve s.cr3 s'.words a ≡ resolve s.cr3 s.words a
  pub zeros : (x : ℕ) → x < 4096 → s'.words (new_page * 4096 + x) ≡ 0
  pub shared :
      (q x : ℕ)
      → IsOther s.pmm level q
      → x < 4096
      → s'.words (q * 4096 + x) ≡ s.words (q * 4096 + x)

module _ (s : Vmm) (level owner : ℕ → ℕ) (tree : IsTree s.words s.pmm level owner)
    (valid : IsValid s.pmm) (top : level s.cr3 ≡ 4) (cr2 : ℕ) (user : Bool) where
  module _ (addr p : ℕ) (pmm : Pmm) (at : addr ≡ p * 4096) (free : bit_test s.pmm.bitmap p ≡ false)
      (bits : (q : ℕ)
        → bit_test pmm.bitmap q ≡ (if p == q then true else bit_test s.pmm.bitmap q)) where
    -- the state with the new page, before it is mapped
    abbrev cleared : Vmm
    cleared = record s { pmm = pmm; words = fill_table addr (λ i. 0) s.words }

    tables_kept : (u j : ℕ) → 0 < level u → j < 512 → cleared.words (slot u j) ≡ s.words (slot u j)
    tables_kept u j table small = outside_page addr p s.words (slot u j) at (λ e.
        let page_at : u ≡ p * 4096 = omega (arith, e, (tree.aligned u table).0, small) in
        omega (arith, ap level page_at, table, IsTree-free tree p free))

    cleared-IsTree : IsTree cleared.words pmm level owner
    cleared-IsTree =
        IsTree-tables (IsTree-after s level owner tree valid top cr2 pmm p free bits) cleared.words
          tables_kept

    resolve-cleared : (a : ℕ) → resolve s.cr3 cleared.words a ≡ resolve s.cr3 s.words a
    unfolding indices
    resolve-cleared a = translate-tables tree cleared.words tables_kept 3 s.cr3 (indices a) top

    cleared-IsZeroed :
        (u : Vmm)
        → IsMapped cleared level s.cr3 (frame cr2) (zero_leaf p user) u
        → IsZeroed s level user cr2 u
    cleared-IsZeroed u m = record {
      new_page = p;
      was_free = free;
      leads =
          m.maps cr2
          ∙ ap (λ b. if b then some (zero_leaf p user) else resolve s.cr3 cleared.words cr2)
              (own_page cr2);
      elsewhere = λ a other.
          m.maps a
          ∙ ap (λ b. if b then some (zero_leaf p user) else resolve s.cr3 cleared.words a)
              (frame_page a cr2 ∙ other)
          ∙ resolve-cleared a;
      zeros = λ x small.
          m.contents p x (new-IsOther s level owner tree valid top cr2 pmm p free bits) small
          ∙ inside_page addr p s.words x at small;
      shared = λ q x other small.
          m.contents q x (old-IsOther s level owner tree valid top cr2 pmm p free bits q other)
            small
          ∙ outside_page addr p s.words (q * 4096 + x) at (λ e.
            let same : q ≡ p = omega (arith, e, small) in
            contrary (sym other.taken ∙ ap (bit_test s.pmm.bitmap) same ∙ free));
    }

  -- what the branch comes to with the outcome of the page allocator
  abbrev Zeroed : ℕ × Pmm → Type 0
  Zeroed a =
      (s' : Vmm) × (map_new (frame cr2) (zero_flags user) (λ t. t) (zeroed s a) ≡ resumed s')
      × IsZeroed s level user cr2 s'

  zeroed-Zeroed :
      (a : ℕ × Pmm)
      → Allocation s.pmm a
      → a.0 ≢ 0
      → (pdpt_of s.cr3 (frame cr2) (zeroed s a).1).0 ≢ 0
      → (pd_of s.cr3 (frame cr2) (zeroed s a).1).0 ≢ 0
      → (pt_of s.cr3 (frame cr2) (zeroed s a).1).0 ≢ 0
      → Zeroed a
  zeroed-Zeroed (addr, pmm) (page p _ _ at low free first bits count v last) ne g3 g2 g1 =
      let given = zeroed-page s addr pmm ne in
      let t : Vmm = cleared addr p pmm at free bits in
      let u : Vmm = vmm_map_in_cr3 s.cr3 (frame cr2) addr (zero_flags user) t in
      let small : p < max_pages = omega (arith, low, valid.last_in) in
      let m =
        vmm_map_in_cr3-IsMapped t level owner s.cr3 (frame cr2) addr (zero_flags user)
          (omega (arith, at, small)) (cleared-IsTree addr p pmm at free bits) v top
          (λ z. g3 (ap (λ r. (pdpt_of s.cr3 (frame cr2) r.1).0) given ∙ z))
          (λ z. g2 (ap (λ r. (pd_of s.cr3 (frame cr2) r.1).0) given ∙ z))
          (λ z. g1 (ap (λ r. (pt_of s.cr3 (frame cr2) r.1).0) given ∙ z)) in
      let asked_for = ap (λ n. asked n (zero_flags user)) at ∙ asked-zero p user in
      let mapped = subst (λ l. IsMapped t level s.cr3 (frame cr2) l u) asked_for m in
      (
        u,
        ap (λ r. map_new (frame cr2) (zero_flags user) (λ t. t) r) given
            ∙ map_new-page (frame cr2) (zero_flags user) addr t ne,
        cleared-IsZeroed addr p pmm at free bits u mapped,
      )
  zeroed-Zeroed _ (exhausted all) ne g3 g2 g1 = absurd (ne refl)

  zero_fault-IsZeroed :
      (page_alloc s.pmm).0 ≢ 0
      → (pdpt_of s.cr3 (frame cr2) (vmm_alloc_page s).1).0 ≢ 0
      → (pd_of s.cr3 (frame cr2) (vmm_alloc_page s).1).0 ≢ 0
      → (pt_of s.cr3 (frame cr2) (vmm_alloc_page s).1).0 ≢ 0
      → (s' : Vmm) × (zero_fault user cr2 s ≡ resumed s') × IsZeroed s level user cr2 s'
  unfolding zero_fault vmm_alloc_page
  zero_fault-IsZeroed = zeroed-Zeroed (page_alloc s.pmm) (page_alloc-Allocation s.pmm valid)

-- In a tree of page tables, if there is a page to map and one for each table that is not there, exception_handler
-- resumes from a fault by a write from 0x1000000 on to a page that is not there with a page of zeros: the address
-- leads to a page that was free, whose words are all 0 and which by its entry may be written and not executed, and
-- by a user if the fault was one of a user; every other page leads to what it led to; and a page that is taken and
-- no table holds what it held. So it is for all memory areas and files, also where an area with a file covers the
-- address.
pub exception_handler-IsZeroed :
    (s : Vmm) (level owner : ℕ → ℕ)
    → IsTree s.words s.pmm level owner
    → IsValid s.pmm
    → level s.cr3 ≡ 4
    → (cr2 : ℕ) (read_page : ℤ → ℕ → ℕ → Vmm → Vmm) (vmas : ℕ → Vma) (error : ℕ) → error % 2 ≡ 0
    → error / 2 % 2 ≡ 1
    → 0x1000000 ≤ cr2
    → (page_alloc s.pmm).0 ≢ 0
    → (pdpt_of s.cr3 (frame cr2) (vmm_alloc_page s).1).0 ≢ 0
    → (pd_of s.cr3 (frame cr2) (vmm_alloc_page s).1).0 ≢ 0
    → (pt_of s.cr3 (frame cr2) (vmm_alloc_page s).1).0 ≢ 0
    → (s' : Vmm) × (exception_handler read_page vmas 14 error cr2 s ≡ resumed s')
      × IsZeroed s level (error / 4 % 2 == 1) cr2 s'
exception_handler-IsZeroed s level owner tree valid top cr2 read_page vmas error absent write high
      g4 g3 g2 g1 =
    let user : Bool = error / 4 % 2 == 1 in
    let (s', e, zero) = zero_fault-IsZeroed s level owner tree valid top cr2 user g4 g3 g2 g1 in
    (s', zeroes read_page vmas error cr2 s absent write high ∙ e, zero)
