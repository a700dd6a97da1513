-- ===== src/Mm/Fault/Copy.antt =====
-- The copy of a page on a write, of exception_handler of src/kernel/arch/x86_64/idt.c.
use swift_bsd.Prelude.{
  if_true, ℤ, ℕ, ◌+◌, ◌*◌, ◌/◌, ◌%◌, ◌^◌, ◌≤◌, ◌<◌, ◌≡◌, ◌≢◌, refl, sym, ap, ◌∙◌, arith, true,
  false, Option, none, some, ◌==◌, leb, if◌then◌else◌, contrary, unequal_test, equal_test, for_loop,
  subst, ==_refl,
}
use swift_bsd.Bitmap.{bit_test}
use swift_bsd.Mm.Pmm.{Pmm, page_alloc, max_pages}
use swift_bsd.Mm.Pmm.Inv.{IsValid}
use swift_bsd.Mm.Pmm.Alloc.{Allocation, page, exhausted, page_alloc-Allocation}
use swift_bsd.Mm.Vmm.{Vmm, frame, vmm_map_in_cr3}
use swift_bsd.Mm.Vmm.Tables.{Leaf, asked, leaf_equal, IsTree, IsOther}
use swift_bsd.Mm.Vmm.Same.{IsTree-free}
use swift_bsd.Mm.Vmm.Mapped.{
  resolve, same_page, IsMapped, pdpt_of, pd_of, pt_of, vmm_map_in_cr3-IsMapped, vmm_map_in_cr3-cr3,
}
use swift_bsd.User.Vma.{Vma}
use swift_bsd.Mm.Fault.PutBack.{After, resolve-After, physical-After, put_back-After}
use swift_bsd.Mm.Fault.{
  exception_handler, page_fault, physical, physical_in, read_word, read_word_at, write_word,
  private_flags, move_page, copy_to, copy_fault, resumed,
}

-- the page of number `p`, which a user may read and write but not execute
abbrev pub private_leaf : ℕ → Leaf
private_leaf p = record { page = p * 4096; write = true; user = true; nx = true }

-- The flags of a copied page ask for that.
asked-private : (p : ℕ) → asked (p * 4096) private_flags ≡ private_leaf p
asked-private p =
    leaf_equal (asked (p * 4096) private_flags) (private_leaf p) (omega arith) refl refl refl

pub own_page : (a : ℕ) → same_page a (frame a) ≡ true
own_page a = equal_test _ _ (omega arith)

pub frame_page : (a b : ℕ) → same_page a (frame b) ≡ same_page a b
frame_page a b = ap (λ n. a / 4096 % 2 ^ 36 == n % 2 ^ 36) (omega arith)

read_word_at-words :
    (o : Option ℕ) (s t : Vmm) → s.words ≡ t.words → read_word_at o s ≡ read_word_at o t
read_word_at-words none s t e = refl
read_word_at-words (some a) s t e = ap (λ w. w a) e

-- A write from 0x1000000 on to a page that is there has the page copied.
copies :
    (read_page : ℤ → ℕ → ℕ → Vmm → Vmm) (vmas : ℕ → Vma) (error cr2 : ℕ) (s : Vmm)
    → error % 2 ≡ 1
    → error / 2 % 2 ≡ 1
    → 0x1000000 ≤ cr2
    → exception_handler read_page vmas 14 error cr2 s ≡ copy_fault cr2 s
unfolding exception_handler page_fault
copies read_page vmas error cr2 s present write high =
    let here : (error % 2 == 1) ≡ true = equal_test _ _ present in
    let by_write : (error / 2 % 2 == 1) ≡ true = equal_test _ _ write in
    let above : leb 0x1000000 cr2 ≡ true = ground arith in rw (here, by_write, above) refl

-- What a fault that copies the page of `cr2` leaves: from there a page that was free can be read and written by a
-- user now, but not executed, and holds what was seen there; every other address leads to what it led to; and a page
-- that is taken and no table, as one that another process uses, holds what it held.
pub record IsCopied (s : Vmm) (level : ℕ → ℕ) (cr2 : ℕ) (s' : Vmm) : Type 0 where
  pub new_page : ℕ
  pub was_free : bit_test s.pmm.bitmap new_page ≡ false
  pub leads : resolve s.cr3 s'.words cr2 ≡ some (private_leaf new_page)
  pub elsewhere :
      (a : ℕ) → same_page a cr2 ≡ false → resolve s.cr3 s'.words a ≡ resolve s.cr3 s.words a
  pub contents :
      (i : ℕ) → i < 512 → read_word (frame cr2 + 8 * i) s' ≡ read_word (frame cr2 + 8 * i) s
  pub shared :
      (q x : ℕ)
      → IsOther s.pmm level q
      → x < 4096
      → s'.words (q * 4096 + x) ≡ s.words (q * 4096 + x)

module _ (s : Vmm) (level owner : ℕ → ℕ) (tree : IsTree s.words s.pmm level owner)
    (valid : IsValid s.pmm) (top : level s.cr3 ≡ 4) (cr2 : ℕ) where
  -- what stays true when page `p` alone is taken
  module _ (pmm : Pmm) (p : ℕ) (free : bit_test s.pmm.bitmap p ≡ false)
      (bits : (q : ℕ)
        → bit_test pmm.bitmap q ≡ (if p == q then true else bit_test s.pmm.bitmap q)) where
    pub IsTree-after : IsTree s.words pmm level owner
    IsTree-after = record {
      aligned = λ t h.
          ((tree.aligned t h).0, bits (t / 4096) ∙ if_true (p == t / 4096) _ (tree.aligned t h).1);
      child = tree.child;
    }

    pub new-IsOther : IsOther pmm level p
    new-IsOther = record {
      no_table = IsTree-free tree p free;
      taken = bits p ∙ ap (λ b. if b then true else bit_test s.pmm.bitmap p) (==_refl p);
    }

    pub old-IsOther : (q : ℕ) → IsOther s.pmm level q → IsOther pmm level q
    old-IsOther q other = record {
      no_table = other.no_table;
      taken = bits q ∙ if_true (p == q) (bit_test s.pmm.bitmap q) other.taken;
    }

    abbrev taken_state : Vmm
    taken_state = record s { pmm = pmm }

    abbrev leaf : Leaf
    leaf = private_leaf p

    module _ (small : p < max_pages) (u : Vmm)
        (m : IsMapped taken_state level s.cr3 (frame cr2) leaf u) (cr3_kept : u.cr3 ≡ s.cr3) where
      bounce : ℕ → ℕ
      bounce i = read_word (frame cr2 + 8 * i) taken_state

      new_leads :
          (a : ℕ)
          → same_page a (frame cr2) ≡ true
          → physical_in (resolve u.cr3 u.words a) a ≡ some (p * 4096 + a % 4096)
      new_leads a same =
          ap (λ r. physical_in (resolve r u.words a) a) cr3_kept
          ∙ ap (λ o. physical_in o a)
              (m.maps a ∙ ap (λ b. if b then some leaf else resolve s.cr3 s.words a) same)

      abbrev final : Vmm
      final = for_loop (λ i t. write_word (frame cr2 + 8 * i) (bounce i) t) 0 512 u

      abbrev Done : Type 0
      Done =
          After u m.level_after m.owner_after m.tree (ap m.level_after cr3_kept ∙ m.top) (frame cr2)
            p (omega arith) (m.others p new-IsOther) new_leads bounce 512 final

      done : Done
      done =
          put_back-After u m.level_after m.owner_after m.tree (ap m.level_after cr3_kept ∙ m.top)
            (frame cr2) p (omega arith) (m.others p new-IsOther) new_leads bounce

      final_resolve : (a : ℕ) → resolve s.cr3 final.words a ≡ resolve s.cr3 u.words a
      final_resolve a =
          ap (λ r. resolve r final.words a) (sym (done.cr3 ∙ cr3_kept))
          ∙ resolve-After u m.level_after m.owner_after m.tree (ap m.level_after cr3_kept ∙ m.top)
              (frame cr2) p (omega arith) (m.others p new-IsOther) new_leads bounce 512 final done a
          ∙ ap (λ r. resolve r u.words a) cr3_kept

      final-IsCopied : IsCopied s level cr2 final
      unfolding bounce read_word physical
      final-IsCopied = record {
        new_page = p;
        was_free = free;
        leads =
            final_resolve cr2
            ∙ m.maps cr2
            ∙ ap (λ b. if b then some leaf else resolve s.cr3 s.words cr2) (own_page cr2);
        elsewhere = λ a other.
            final_resolve a
            ∙ m.maps a
            ∙ ap (λ b. if b then some leaf else resolve s.cr3 s.words a) (frame_page a cr2 ∙ other);
        contents = λ i small_i.
            ap (λ o. read_word_at o final)
              (physical-After u m.level_after m.owner_after m.tree
                (ap m.level_after cr3_kept ∙ m.top) (frame cr2) p (omega arith)
                (m.others p new-IsOther) new_leads bounce 512 final done i small_i)
            ∙ done.copied i small_i
            ∙ read_word_at-words (physical (frame cr2 + 8 * i) s) taken_state s refl;
        shared = λ q x other small_x.
            done.rest (q * 4096 + x) (λ e.
              let at : q ≡ p = omega (arith, e, small_x) in
              contrary (sym other.taken ∙ ap (bit_test s.pmm.bitmap) at ∙ free))
            ∙ m.contents q x (old-IsOther q other) small_x;
      }

  copy_to-IsCopied :
      (a : ℕ × Pmm)
      → Allocation s.pmm a
      → a.0 ≢ 0
      → (pdpt_of s.cr3 (frame cr2) (record s { pmm = a.1 })).0 ≢ 0
      → (pd_of s.cr3 (frame cr2) (record s { pmm = a.1 })).0 ≢ 0
      → (pt_of s.cr3 (frame cr2) (record s { pmm = a.1 })).0 ≢ 0
      → (s' : Vmm) × (copy_to (frame cr2) s a ≡ resumed s') × IsCopied s level cr2 s'
  unfolding bounce move_page
  copy_to-IsCopied (addr, pmm) (page p _ _ at low free first bits count v last) ne g3 g2 g1 =
      let small : p < max_pages = omega (arith, low, valid.last_in) in
      let t : Vmm = record s { pmm = pmm } in
      let u : Vmm = vmm_map_in_cr3 s.cr3 (frame cr2) addr private_flags t in
      let m : IsMapped t level s.cr3 (frame cr2) (asked addr private_flags) u =
        vmm_map_in_cr3-IsMapped t level owner s.cr3 (frame cr2) addr private_flags
          (omega (arith, at, small)) (IsTree-after pmm p free bits) v top g3 g2 g1 in
      let asked_for = ap (λ n. asked n private_flags) at ∙ asked-private p in
      let mapped = subst (λ l. IsMapped t level s.cr3 (frame cr2) l u) asked_for m in
      let kept = vmm_map_in_cr3-cr3 t s.cr3 (frame cr2) addr private_flags in
      (
        final pmm p free bits small u mapped kept,
        rw (unequal_test addr 0 ne) refl,
        final-IsCopied pmm p free bits small u mapped kept,
      )
  copy_to-IsCopied _ (exhausted all) ne g3 g2 g1 = absurd (ne refl)

  copy_fault-IsCopied :
      (page_alloc s.pmm).0 ≢ 0
      → (pdpt_of s.cr3 (frame cr2) (record s { pmm = (page_alloc s.pmm).1 })).0 ≢ 0
      → (pd_of s.cr3 (frame cr2) (record s { pmm = (page_alloc s.pmm).1 })).0 ≢ 0
      → (pt_of s.cr3 (frame cr2) (record s { pmm = (page_alloc s.pmm).1 })).0 ≢ 0
      → (s' : Vmm) × (copy_fault cr2 s ≡ resumed s') × IsCopied s level cr2 s'
  unfolding copy_fault
  copy_fault-IsCopied = copy_to-IsCopied (page_alloc s.pmm) (page_alloc-Allocation s.pmm valid)

  -- In a tree of page tables, if there is a page for the copy and one for each table that is not there,
  -- exception_handler resumes from a fault by a write from 0x1000000 on to a page that is there with the page
  -- copied: the address leads to a page that was free, which by its entry a user may read and write but not execute
  -- and which holds what was seen there; every other page leads to what it led to, with the same permissions in its
  -- entry; and a page that is taken and no table holds what it held.
  pub exception_handler-IsCopied :
      (read_page : ℤ → ℕ → ℕ → Vmm → Vmm) (vmas : ℕ → Vma) (error : ℕ)
      → error % 2 ≡ 1
      → error / 2 % 2 ≡ 1
      → 0x1000000 ≤ cr2
      → (page_alloc s.pmm).0 ≢ 0
      → (pdpt_of s.cr3 (frame cr2) (record s { pmm = (page_alloc s.pmm).1 })).0 ≢ 0
      → (pd_of s.cr3 (frame cr2) (record s { pmm = (page_alloc s.pmm).1 })).0 ≢ 0
      → (pt_of s.cr3 (frame cr2) (record s { pmm = (page_alloc s.pmm).1 })).0 ≢ 0
      → (s' : Vmm) × (exception_handler read_page vmas 14 error cr2 s ≡ resumed s')
        × IsCopied s level cr2 s'
  exception_handler-IsCopied read_page vmas error present write high g4 g3 g2 g1 =
      let (s', e, copied) = copy_fault-IsCopied g4 g3 g2 g1 in
      (s', copies read_page vmas error cr2 s present write high ∙ e, copied)
