-- ===== src/Mm/Vmm/Tests.antt =====
-- vmm.c on a machine with nine pages of memory, whose kernel and first table of level 3 stand in the first two.
use swift_bsd.Prelude.{
  List, ℕ, ◌≡◌, ◌/◌, true, refl, arith, ◌∷◌, [], if◌then◌else◌, inl, inr, ap, ◌∙◌, Bool-cases, none,
  ◌==◌, find_first, for_loop,
}
use swift_bsd.Bitmap.{bit_test, bit_set, bit_clear}
use swift_bsd.Mm.Pmm.{Pmm, Tag, mmap, pmm_init, page_alloc, take_page}
use swift_bsd.Mm.Pmm.Inv.{IsValid}
use swift_bsd.Mm.Pmm.Init.{pmm_init_lem}
use swift_bsd.Mm.Vmm.{
  Vmm, fill_table, put_table, get_or_alloc_table, next_table, put_leaf, vmm_map_in_cr3, vmm_unmap,
  is_huge,
}
use swift_bsd.Mm.Vmm.Tables.{IsTree, asked}
use swift_bsd.Mm.Vmm.Unmapped.{entry_1, vmm_unmap-resolve}
use swift_bsd.Mm.Vmm.Clone.{clone_pt_cow, vmm_alloc_page, zeroed}
use swift_bsd.Mm.Vmm.Fork.{IsClone, clone_pt_cow-IsClone}
use swift_bsd.Mm.Vmm.Mapped.{
  resolve, same_page, IsMapped, vmm_map_in_cr3-IsMapped, pdpt_of, pd_of, pt_of,
}

abbrev tags : List Tag
tags = mmap (record { addr = 0; len = 0x9000; kind = 1 } ∷ []) ∷ []

unfoldable pub pages : Pmm
pages = pmm_init tags 0x1800

pages-IsValid : IsValid pages
unfolding pages
pages-IsValid = (pmm_init_lem tags 0x1800 (omega arith, (λ p h. refl), tt) (omega arith)).0

abbrev pub root : ℕ
root = 0x1000

unfoldable pub machine : Vmm
machine = record { words = λ a. 0; pmm = pages; cr3 = root; page_pml4 = root }

pub machine-IsValid : IsValid machine.pmm
unfolding machine
machine-IsValid = pages-IsValid

abbrev pub level : ℕ → ℕ
level u = if u == root then 4 else 0

abbrev pub owner : ℕ → ℕ
owner u = 0

root_taken : bit_test pages.bitmap 1 ≡ true
unfolding pages pmm_init for_loop bit_test bit_set bit_clear
root_taken = refl

pub machine-IsTree : IsTree machine.words machine.pmm level owner
unfolding machine
machine-IsTree = record {
  aligned = λ t h. elim (Bool-cases (t == root)) [
    | inl same ↦
        let e : t ≡ root = ground arith in
        (omega (arith, e), ap (λ w. bit_test pages.bitmap (w / 4096)) e ∙ root_taken)
    | inr other ↦ absurd (ground (arith, h))
  ];
  child = λ t l i lt small present normal. absurd (ground (arith, present));
}

-- a page of the user's stack
abbrev pub virt : ℕ
virt = 0x7F001000

first_table : (pdpt_of root virt machine).0 ≡ 0x2000
unfolding machine pages pmm_init page_alloc find_first for_loop bit_test bit_set bit_clear
    get_or_alloc_table put_table
first_table = refl

second_table : (pd_of root virt machine).0 ≡ 0x3000
unfolding machine pages pmm_init page_alloc take_page find_first for_loop bit_test bit_set bit_clear
    get_or_alloc_table put_table fill_table next_table
second_table = refl

third_table : (pt_of root virt machine).0 ≡ 0x4000
unfolding machine pages pmm_init page_alloc take_page find_first for_loop bit_test bit_set bit_clear
    get_or_alloc_table put_table fill_table next_table
third_table = refl

vmm_map_in_cr3-IsMapped_example :
    IsMapped machine level root virt (asked 0x8000 7) (vmm_map_in_cr3 root virt 0x8000 7 machine)
vmm_map_in_cr3-IsMapped_example =
    vmm_map_in_cr3-IsMapped machine level owner root virt 0x8000 7 (omega arith) machine-IsTree
      machine-IsValid refl (omega (arith, first_table)) (omega (arith, second_table))
      (omega (arith, third_table))

unfoldable pub mapped : Vmm
mapped = vmm_map_in_cr3 root virt 0x8000 5 machine

pub mapping : IsMapped machine level root virt (asked 0x8000 5) mapped
unfolding mapped
mapping =
    vmm_map_in_cr3-IsMapped machine level owner root virt 0x8000 5 (omega arith) machine-IsTree
      machine-IsValid refl (omega (arith, first_table)) (omega (arith, second_table))
      (omega (arith, third_table))

pub mapped_root : mapped.page_pml4 ≡ root
unfolding mapped machine pages pmm_init page_alloc take_page find_first for_loop bit_test bit_set
    bit_clear vmm_map_in_cr3 put_leaf get_or_alloc_table put_table fill_table next_table
mapped_root = refl

mapped_word : entry_1 virt mapped ≡ 0x4007
unfolding mapped machine pages pmm_init page_alloc take_page find_first for_loop bit_test bit_set
    bit_clear vmm_map_in_cr3 put_leaf get_or_alloc_table put_table fill_table next_table
mapped_word = refl

vmm_unmap-resolve_example :
    resolve mapped.page_pml4 (vmm_unmap virt mapped).words 0x7F002000
    ≡ (if same_page 0x7F002000 virt then none else resolve mapped.page_pml4 mapped.words 0x7F002000)
vmm_unmap-resolve_example =
    vmm_unmap-resolve mapped mapping.level_after mapping.owner_after mapping.tree
      (ap mapping.level_after mapped_root ∙ mapping.top) virt (ap is_huge mapped_word) 0x7F002000

-- the table of level 0 on the way of `virt`
table_is_taken : bit_test mapped.pmm.bitmap 4 ≡ true
unfolding mapped machine pages pmm_init page_alloc take_page find_first for_loop bit_test bit_set
    bit_clear vmm_map_in_cr3 put_leaf get_or_alloc_table put_table fill_table next_table
table_is_taken = refl

clone_gets_page : (clone_pt_cow 0x4000 mapped).0 ≡ 0x5000
unfolding clone_pt_cow vmm_alloc_page zeroed mapped machine pages pmm_init page_alloc take_page
    find_first for_loop bit_test bit_set bit_clear vmm_map_in_cr3 put_leaf get_or_alloc_table
    put_table fill_table next_table
clone_gets_page = refl

clone_pt_cow-IsClone_example :
    IsClone mapped 0x4000 (clone_pt_cow 0x4000 mapped).0 (clone_pt_cow 0x4000 mapped).1
clone_pt_cow-IsClone_example =
    clone_pt_cow-IsClone mapped 0x4000 refl table_is_taken mapping.valid
      (omega (arith, clone_gets_page))
