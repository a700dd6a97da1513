-- ===== src/User/Elf/Keeps.antt =====
-- What the steps of elf64_load of src/kernel/elf.c keep, and what a step that fails leaves.
use swift_bsd.Prelude.{
  subst, if◌then◌else◌, sym, ap, contrary, test_equal, if_true, ◌-◌, add64, ℕ, zero, suc, ◌+◌, ◌*◌,
  ◌/◌, ◌≡◌, refl, ◌∙◌, inl, inr, Bool, true, false, Option, none, some, ◌==◌, ◌&&◌, Bool-cases,
  for_loop-keeps,
}
use swift_bsd.Bitmap.{bit_test}
use swift_bsd.Fs.SwiftFs.Cache.{Data}
use swift_bsd.Mm.Pmm.{Pmm, page_alloc}
use swift_bsd.Mm.Pmm.Inv.{IsValid}
use swift_bsd.Mm.Pmm.Alloc.{Allocation, page, exhausted, page_alloc-Allocation}
use swift_bsd.Mm.Vmm.{
  Vmm, is_present, is_huge, frame, slot, fill_table, index, is_low, split_entry, put_table,
  get_or_alloc_table, next_table, put_leaf, leaf_entry, vmm_map_in_cr3, vmm_map,
}
use swift_bsd.Mm.Vmm.Clone.{zeroed, each_entry, and_then}
use swift_bsd.Mm.Fault.{private_flags}
use swift_bsd.User.Elf.{
  Phdr, phdr, page_alloc_zero, map_at, map_zero, vm_flags, segment_page, map_segment, write_byte_at,
  write_byte, copied_size, copy_segment, load_segment, map_stack,
}

-- The page allocator is valid, every page that was taken is so still, and the tables in use are the same.
pub record Keeps (s t : Vmm) : Type 0 where
  pub valid : IsValid t.pmm
  pub taken : (q : ℕ) → bit_test s.pmm.bitmap q ≡ true → bit_test t.pmm.bitmap q ≡ true
  pub cr3 : t.cr3 ≡ s.cr3

zeroed-none :
    (s : Vmm) (addr : ℕ) (pmm : Pmm)
    → (addr == 0) ≡ true
    → zeroed s (addr, pmm) ≡ (0, record s { pmm = pmm })
unfolding zeroed
zeroed-none s addr pmm z = rw z refl

zeroed-page :
    (s : Vmm) (addr : ℕ) (pmm : Pmm)
    → (addr == 0) ≡ false
    → zeroed s (addr, pmm)
      ≡ (addr, record s { pmm = pmm; words = fill_table addr (λ i. 0) s.words })
unfolding zeroed
zeroed-page s addr pmm nz = rw nz refl

map_at-none :
    (at flags : ℕ) (s : Vmm) (addr : ℕ) (pmm : Pmm)
    → (addr == 0) ≡ true
    → map_at at flags (zeroed s (addr, pmm)) ≡ (false, record s { pmm = pmm })
unfolding map_at
map_at-none at flags s addr pmm z = ap (map_at at flags) (zeroed-none s addr pmm z)

choose_page : (b : Bool) (x y : Bool × Vmm) → b ≡ false → (if b then x else y) ≡ y
choose_page b x y h = rw h refl

map_at-page :
    (at flags : ℕ) (s : Vmm) (addr : ℕ) (pmm : Pmm)
    → (addr == 0) ≡ false
    → map_at at flags (zeroed s (addr, pmm)) ≡ (
      true,
      vmm_map at addr flags (record s { pmm = pmm; words = fill_table addr (λ i. 0) s.words }),
    )
unfolding map_at
map_at-page at flags s addr pmm nz =
    ap (map_at at flags) (zeroed-page s addr pmm nz) ∙ choose_page (addr == 0) _ _ nz

-- In some state that keeps the same, page_alloc returns 0, and the page allocator of `t` is as that call left it.
pub record Missing (s t : Vmm) : Type 0 where
  pub at_failure : Vmm
  pub keeps : Keeps s at_failure
  pub no_page : (page_alloc at_failure.pmm).0 ≡ 0
  pub left : t.pmm ≡ (page_alloc at_failure.pmm).1

module _ (base : Vmm) where
  -- A change of memory alone, and of the allocator by page_alloc.
  Keeps-words : (s : Vmm) (words : ℕ → ℕ) → Keeps base s → Keeps base (record s { words = words })
  Keeps-words s words k = record { valid = k.valid; taken = k.taken; cr3 = k.cr3 }

  Keeps-alloc :
      (s : Vmm) (words : ℕ → ℕ) (a : ℕ × Pmm)
      → Allocation s.pmm a
      → Keeps base s
      → Keeps base (record s { pmm = a.1; words = words })
  Keeps-alloc s words (addr, pmm) (page p _ _ at low free first bits count v last) k = record {
    valid = v;
    taken = λ q was. bits q ∙ if_true (p == q) (bit_test s.pmm.bitmap q) (k.taken q was);
    cr3 = k.cr3;
  }
  Keeps-alloc s words _ (exhausted all) k = record { valid = k.valid; taken = k.taken; cr3 = k.cr3 }

  zeroed-Keeps :
      (s : Vmm) (a : ℕ × Pmm) → Allocation s.pmm a → Keeps base s → Keeps base (zeroed s a).1
  unfolding zeroed
  zeroed-Keeps s (addr, pmm) got k = elim (Bool-cases (addr == 0)) [
    | inl e ↦ rw e (Keeps-alloc s s.words (addr, pmm) got k)
    | inr e ↦ rw e (Keeps-alloc s _ (addr, pmm) got k)
  ]

  put_table-Keeps :
      (at : ℕ) (user : Bool) (f : ℕ → ℕ) (s : Vmm) (a : ℕ × Pmm)
      → Allocation s.pmm a
      → Keeps base s
      → Keeps base (put_table at user f s a).1
  unfolding put_table
  put_table-Keeps at user f s (addr, pmm) got k = elim (Bool-cases (addr == 0)) [
    | inl e ↦ rw e (Keeps-alloc s s.words (addr, pmm) got k)
    | inr e ↦ rw e (Keeps-alloc s _ (addr, pmm) got k)
  ]

  get_or_alloc_table-Keeps :
      (t i : ℕ) (is_pd user : Bool) (s : Vmm)
      → Keeps base s
      → Keeps base (get_or_alloc_table t i is_pd user s).1
  unfolding get_or_alloc_table
  get_or_alloc_table-Keeps t i is_pd user s k =
      elim (Bool-cases (is_present (s.words (slot t i)))) [
        | inr absent ↦ rw absent (
            put_table-Keeps (slot t i) user (λ n. 0) s (page_alloc s.pmm)
              (page_alloc-Allocation s.pmm k.valid) k)
        | inl there ↦ elim (Bool-cases (is_pd && is_huge (s.words (slot t i)))) [
          | inl huge ↦
              rw (there, huge)
                (put_table-Keeps (slot t i) user (split_entry (s.words (slot t i))) s
                  (page_alloc s.pmm) (page_alloc-Allocation s.pmm k.valid) k)
          | inr plain ↦ rw (there, plain) k
        ]
      ]

  put_leaf-Keeps : (i leaf : ℕ) (r : ℕ × Vmm) → Keeps base r.1 → Keeps base (put_leaf i leaf r)
  unfolding put_leaf
  put_leaf-Keeps i leaf (pt, s) k = elim (Bool-cases (pt == 0)) [
    | inl e ↦ rw e k
    | inr e ↦ rw e (Keeps-words s _ k)
  ]

  next_table-Keeps :
      (i : ℕ) (is_pd user : Bool) (r : ℕ × Vmm)
      → Keeps base r.1
      → Keeps base (next_table i is_pd user r).1
  unfolding next_table
  next_table-Keeps i is_pd user (t, s) k = get_or_alloc_table-Keeps t i is_pd user s k

  vmm_map-Keeps :
      (virt phys flags : ℕ) (s : Vmm) → Keeps base s → Keeps base (vmm_map virt phys flags s)
  unfolding vmm_map vmm_map_in_cr3
  vmm_map-Keeps virt phys flags s k = put_leaf-Keeps (index 0 virt) (leaf_entry phys flags) _ (
      next_table-Keeps (index 1 virt) true (is_low virt) _ (
        next_table-Keeps (index 2 virt) false (is_low virt) _
          (next_table-Keeps (index 3 virt) false (is_low virt) (s.cr3, s) k)))

  -- what stays after a step, and that one that fails asked page_alloc for a page and got none
  pub record Goes (r : Bool × Vmm) : Type 0 where
    pub keeps : Keeps base r.1
    pub missing : r.0 ≡ false → Missing base r.1

  map_at-Goes :
      (at flags : ℕ) (s : Vmm) (a : ℕ × Pmm)
      → page_alloc s.pmm ≡ a
      → Allocation s.pmm a
      → Keeps base s
      → Goes (map_at at flags (zeroed s a))
  map_at-Goes at flags s (addr, pmm) e got k = elim (Bool-cases (addr == 0)) [
    | inl z ↦ subst Goes (sym (map_at-none at flags s addr pmm z)) (record {
      keeps = Keeps-alloc s s.words (addr, pmm) got k;
      missing = λ h. record {
        at_failure = s;
        keeps = k;
        no_page = ap (λ r. r.0) e ∙ test_equal addr 0 z;
        left = sym (ap (λ r. r.1) e);
      };
    })
    | inr nz ↦ subst Goes (sym (map_at-page at flags s addr pmm nz)) (record {
      keeps = vmm_map-Keeps at addr flags _ (Keeps-alloc s _ (addr, pmm) got k);
      missing = λ h. absurd (contrary h);
    })
  ]

  map_zero-Goes : (at flags : ℕ) (s : Vmm) → Keeps base s → Goes (map_zero at flags s)
  unfolding map_zero page_alloc_zero
  map_zero-Goes at flags s k =
      map_at-Goes at flags s (page_alloc s.pmm) refl (page_alloc-Allocation s.pmm k.valid) k

  done : (s : Vmm) → Keeps base s → Goes (true, s)
  done s k = record { keeps = k; missing = λ h. absurd (contrary h) }

  pub and_then-Goes :
      (r : Bool × Vmm) (next : Vmm → Bool × Vmm)
      → Goes r
      → ((t : Vmm) → Keeps base t → Goes (next t))
      → Goes (and_then r next)
  and_then-Goes (true, s) next g each = each s g.keeps
  and_then-Goes (false, s) next g each = g

  pub each_entry-Goes :
      (n i : ℕ) (body : ℕ → Vmm → Bool × Vmm) (s : Vmm)
      → ((j : ℕ) (t : Vmm) → Keeps base t → Goes (body j t))
      → Keeps base s
      → Goes (each_entry n i body s)
  unfolding each_entry
  each_entry-Goes zero i body s each k = done s k
  each_entry-Goes (suc n) i body s each k =
      and_then-Goes (body i s) (λ t. each_entry n (i + 1) body t) (each i s k)
        (λ t m. each_entry-Goes n (i + 1) body t each m)

  write_byte_at-Keeps :
      (o : Option ℕ) (b : ℕ) (s : Vmm) → Keeps base s → Keeps base (write_byte_at o b s)
  write_byte_at-Keeps none b s k = k
  write_byte_at-Keeps (some a) b s k = Keeps-words s _ k

  copy_segment-Keeps :
      (image : Data) (p : Phdr) (s : Vmm) → Keeps base s → Keeps base (copy_segment image p s)
  unfolding copy_segment write_byte
  copy_segment-Keeps image p s k =
      for_loop-keeps (λ _ t. Keeps base t) _ (copied_size p) 0 s
        (λ j t low high m. write_byte_at-Keeps _ _ t m) refl k

  map_segment-Goes : (p : Phdr) (s : Vmm) → Keeps base s → Goes (map_segment p s)
  unfolding map_segment segment_page
  map_segment-Goes p s k =
      each_entry-Goes ((add64 p.p_vaddr p.p_memsz - frame p.p_vaddr + 0xFFF) / 0x1000) 0
        (segment_page p) s
        (λ j t m. map_zero-Goes (frame p.p_vaddr + j * 0x1000) (vm_flags p.p_flags) t m) k

  pub load_segment-Goes :
      (image : Data) (i : ℕ) (s : Vmm) → Keeps base s → Goes (load_segment image i s)
  unfolding load_segment
  load_segment-Goes image i s k =
      let p = phdr image i in
      elim (Bool-cases (p.p_type == 1)) [
        | inr other ↦ rw other (done s k)
        | inl load ↦ rw load (
            and_then-Goes (map_segment p s) (λ t. (true, copy_segment image p t))
              (map_segment-Goes p s k) (λ t m. done _ (copy_segment-Keeps image p t m)))
      ]

  pub map_stack-Goes : (s : Vmm) → Keeps base s → Goes (map_stack s)
  unfolding map_stack
  map_stack-Goes s k =
      let stack_page : ℕ → Vmm → Bool × Vmm = λ virt t. map_zero virt private_flags t in
      let first = map_zero-Goes 0x7F000000 private_flags s k in
      let second =
        and_then-Goes (stack_page 0x7F000000 s) (stack_page 0x7F001000) first
          (λ t m. map_zero-Goes 0x7F001000 private_flags t m) in
      let third =
        and_then-Goes (and_then (stack_page 0x7F000000 s) (stack_page 0x7F001000))
          (stack_page 0x7F002000) second (λ t m. map_zero-Goes 0x7F002000 private_flags t m) in
      and_then-Goes
        (and_then (and_then (stack_page 0x7F000000 s) (stack_page 0x7F001000))
          (stack_page 0x7F002000))
        (stack_page 0x7F004000) third (λ t m. map_zero-Goes 0x7F004000 private_flags t m)
