-- ===== src/Mm/Vmm.antt =====
-- src/kernel/arch/x86_64/vmm.c, the page tables. Memory is the words at its addresses, which are those of
-- physical memory too; the page allocator is that of src/kernel/mm/pmm.c. What the processor's cache of
-- translations holds is left out, with invlpg and the log lines. An `|` of parts that share no bits is a sum.
pub mod Clone
pub mod Tables
pub mod Same
pub mod Walk
pub mod Filler
pub mod Grow
pub mod Map
pub mod Leaves
pub mod Mapped
pub mod Unmapped
pub mod Fork
pub mod Tests
use swift_bsd.Prelude.{
  ℕ, ◌+◌, ◌-◌, ◌*◌, ◌/◌, ◌%◌, ◌^◌, Bool, true, false, not, Option, none, some, ◌==◌, ◌&&◌, ltb, leb,
  if◌then◌else◌, update,
}
use swift_bsd.Mm.Pmm.{Pmm, page_alloc, page_free}

pub record Vmm : Type 0 where
  pub words : ℕ → ℕ
  pub pmm : Pmm
  pub cr3 : ℕ
  pub page_pml4 : ℕ

-- the tests of PG_PRESENT, PG_WRITE, PG_USER, PG_HUGE and PG_NX
abbrev pub is_present : ℕ → Bool
is_present e = e % 2 == 1

abbrev pub is_write : ℕ → Bool
is_write e = e / 2 % 2 == 1

abbrev pub is_user : ℕ → Bool
is_user e = e / 4 % 2 == 1

abbrev pub is_huge : ℕ → Bool
is_huge e = e / 128 % 2 == 1

abbrev pub is_nx : ℕ → Bool
is_nx e = e / 2 ^ 63 % 2 == 1

-- `e & ~0xFFF`
abbrev pub frame : ℕ → ℕ
frame e = e / 4096 * 4096

-- the index of an address in a table of level 0 (the lowest) to 3: pt_lookup, pd_lookup, pdpt_lookup,
-- pml4_lookup
abbrev pub index : ℕ → ℕ → ℕ
index level virt = virt / (4096 * 512 ^ level) % 512

abbrev pub slot : ℕ → ℕ → ℕ
slot table i = table + 8 * i

-- all 512 words of the page at `table`
unfoldable pub fill_table : ℕ → (ℕ → ℕ) → (ℕ → ℕ) → ℕ → ℕ
fill_table table entry words a =
    if leb table a && ltb a (table + 4096) then entry ((a - table) / 8) else words a

-- PG_PRESENT, PG_WRITE and, for a user's table, PG_USER
abbrev pub table_flags : Bool → ℕ
table_flags user = if user then 7 else 3

-- entry `i` of the table that a huge page is split into: PG_HUGE is taken out, and PG_NX stands in the upper
-- part
abbrev pub split_entry : ℕ → ℕ → ℕ
split_entry huge i = huge / 2 ^ 21 * 2 ^ 21 + i * 4096 + (huge % 512 - 128)

-- a new table in an entry, filled with `entry`; 0 when there is no page
unfoldable pub put_table : ℕ → Bool → (ℕ → ℕ) → Vmm → ℕ × Pmm → ℕ × Vmm
unfolding fill_table
put_table at user entry s (paddr, pmm) = if paddr == 0 then (0, record s { pmm = pmm }) else (
  paddr,
  record s {
    pmm = pmm;
    words = update (fill_table paddr entry s.words) at (paddr + table_flags user);
  },
)

unfoldable pub get_or_alloc_table : ℕ → ℕ → Bool → Bool → Vmm → ℕ × Vmm
unfolding put_table page_alloc
get_or_alloc_table parent i is_pd user s =
    let e = s.words (slot parent i) in
    if is_present e
    then (if is_pd && is_huge e
        then put_table (slot parent i) user (split_entry e) s (page_alloc s.pmm)
        else (frame e, s))
    else put_table (slot parent i) user (λ k. 0) s (page_alloc s.pmm)

-- `e |= PG_NX`
abbrev pub set_nx : ℕ → ℕ
set_nx e = if is_nx e then e else e + 2 ^ 63

-- `(phys & ~0xFFF) | PG_PRESENT | (flags & 0xFFF)`, and PG_NX
abbrev pub leaf_entry : ℕ → ℕ → ℕ
leaf_entry phys flags =
    let e = frame phys + (flags % 4096 / 2 * 2 + 1) in if is_nx flags then set_nx e else e

abbrev pub is_low : ℕ → Bool
is_low virt = ltb (index 3 virt) 256

unfoldable pub put_leaf : ℕ → ℕ → ℕ × Vmm → Vmm
put_leaf i leaf (pt, s) =
    if pt == 0 then s else record s { words = update s.words (slot pt i) leaf }

unfoldable pub next_table : ℕ → Bool → Bool → ℕ × Vmm → ℕ × Vmm
unfolding get_or_alloc_table
next_table i is_pd user (table, s) = get_or_alloc_table table i is_pd user s

unfoldable pub vmm_map_in_cr3 : ℕ → ℕ → ℕ → ℕ → Vmm → Vmm
unfolding put_leaf next_table
vmm_map_in_cr3 cr3 virt phys flags s =
    let user = is_low virt in
    let pdpt = next_table (index 3 virt) false user (cr3, s) in
    let pd = next_table (index 2 virt) false user pdpt in
    put_leaf (index 0 virt) (leaf_entry phys flags) (next_table (index 1 virt) true user pd)

unfoldable pub vmm_map : ℕ → ℕ → ℕ → Vmm → Vmm
unfolding vmm_map_in_cr3
vmm_map virt phys flags s = vmm_map_in_cr3 s.cr3 virt phys flags s

-- the address of the entry of level 0 for `virt`, below the tables of the kernel's page_pml4; PG_HUGE is not
-- looked at
unfoldable pub leaf_slot : ℕ → Vmm → Option ℕ
leaf_slot virt s =
    let e4 = s.words (slot s.page_pml4 (index 3 virt)) in
    let e3 = s.words (slot (frame e4) (index 2 virt)) in
    let e2 = s.words (slot (frame e3) (index 1 virt)) in
    if not (is_present e4)
    then none
    else if not (is_present e3)
    then none
    else if not (is_present e2)
    then none
    else some (slot (frame e2) (index 0 virt))

abbrev pub present_slot : Option ℕ → Vmm → Option ℕ
present_slot none s = none
present_slot (some at) s = if is_present (s.words at) then some at else none

-- the address that vmm_pt_lookup returns; `none` is the null pointer
unfoldable pub vmm_pt_lookup : ℕ → Vmm → Option ℕ
unfolding leaf_slot
vmm_pt_lookup virt s = present_slot (leaf_slot virt s) s

unfoldable pub unmap_at : Option ℕ → Vmm → Vmm
unfolding page_free
unmap_at none s = s
unmap_at (some at) s = record s {
  pmm = if is_user (s.words at) then page_free s.pmm (frame (s.words at)) else s.pmm;
  words = update s.words at 0;
}

unfoldable pub vmm_unmap : ℕ → Vmm → Vmm
unfolding unmap_at leaf_slot
vmm_unmap virt s = unmap_at (leaf_slot virt s) s
