-- ===== src/Mm/Fault/Tests.antt =====
-- A write to a page that is mapped for reading only, and one to a page that is not mapped, on the machine of Mm.Vmm.Tests.
use swift_bsd.Prelude.{ℕ, ◌≡◌, refl, arith, ap, ◌∙◌, ℤ, pos, true, false, find_first, for_loop}
use swift_bsd.Bitmap.{bit_test, bit_set, bit_clear}
use swift_bsd.Mm.Pmm.{page_alloc, take_page, pmm_init}
use swift_bsd.Mm.Vmm.{
  Vmm, frame, vmm_map_in_cr3, put_leaf, get_or_alloc_table, put_table, fill_table, next_table,
}
use swift_bsd.Mm.Vmm.Mapped.{pdpt_of, pd_of, pt_of}
use swift_bsd.Mm.Vmm.Tests.{
  level, owner, machine-IsTree, machine-IsValid, virt, root, machine, mapped, mapping, pages,
}
use swift_bsd.User.Vma.{Vma}
use swift_bsd.Mm.Fault.{exception_handler, resumed}
use swift_bsd.Mm.Fault.Areas.{IsZeroed, exception_handler-IsZeroed}
use swift_bsd.Mm.Vmm.Clone.{vmm_alloc_page, zeroed}
use swift_bsd.Mm.Fault.Copy.{IsCopied, exception_handler-IsCopied}

no_areas : ℕ → Vma
no_areas i = record { start = 0; end = 0; prot = 0; flags = 0; fd = pos 0; foff = 0; used = false }

no_files : ℤ → ℕ → ℕ → Vmm → Vmm
no_files fd offset page s = s

abbrev before : Vmm
before = record mapped { pmm = (page_alloc mapped.pmm).1 }

fifth_page : (page_alloc mapped.pmm).0 ≡ 0x5000
unfolding mapped machine pages pmm_init page_alloc take_page find_first for_loop bit_test bit_set
    bit_clear vmm_map_in_cr3 put_leaf get_or_alloc_table put_table fill_table next_table
fifth_page = refl

mapped_cr3 : mapped.cr3 ≡ root
unfolding mapped machine pages pmm_init page_alloc take_page find_first for_loop bit_test bit_set
    bit_clear vmm_map_in_cr3 put_leaf get_or_alloc_table put_table fill_table next_table
mapped_cr3 = refl

first_table : (pdpt_of mapped.cr3 (frame virt) before).0 ≡ 0x2000
unfolding mapped machine pages pmm_init page_alloc take_page find_first for_loop bit_test bit_set
    bit_clear vmm_map_in_cr3 put_leaf get_or_alloc_table put_table fill_table next_table
first_table = refl

second_table : (pd_of mapped.cr3 (frame virt) before).0 ≡ 0x3000
unfolding mapped machine pages pmm_init page_alloc take_page find_first for_loop bit_test bit_set
    bit_clear vmm_map_in_cr3 put_leaf get_or_alloc_table put_table fill_table next_table
second_table = refl

third_table : (pt_of mapped.cr3 (frame virt) before).0 ≡ 0x4000
unfolding mapped machine pages pmm_init page_alloc take_page find_first for_loop bit_test bit_set
    bit_clear vmm_map_in_cr3 put_leaf get_or_alloc_table put_table fill_table next_table
third_table = refl

exception_handler-IsCopied_example :
    (s' : Vmm) × (exception_handler no_files no_areas 14 7 virt mapped ≡ resumed s')
    × IsCopied mapped mapping.level_after virt s'
exception_handler-IsCopied_example =
    exception_handler-IsCopied mapped mapping.level_after mapping.owner_after mapping.tree
      mapping.valid (ap mapping.level_after mapped_cr3 ∙ mapping.top) virt no_files no_areas 7 refl
      refl (omega arith) (omega (arith, fifth_page)) (omega (arith, first_table))
      (omega (arith, second_table)) (omega (arith, third_table))

-- an area of file 3
file_area : ℕ → Vma
file_area i = record {
  start = 0x7F000000;
  end = 0x7F002000;
  prot = 3;
  flags = 1;
  fd = pos 3;
  foff = 0;
  used = true;
}

abbrev given : Vmm
given = (vmm_alloc_page machine).1

second_page : (page_alloc machine.pmm).0 ≡ 0x2000
unfolding machine pages pmm_init page_alloc find_first for_loop bit_test bit_set bit_clear
second_page = refl

zero_table_3 : (pdpt_of machine.cr3 (frame virt) given).0 ≡ 0x3000
unfolding machine pages pmm_init page_alloc take_page find_first for_loop bit_test bit_set bit_clear
    get_or_alloc_table put_table fill_table next_table vmm_alloc_page zeroed
zero_table_3 = refl

zero_table_2 : (pd_of machine.cr3 (frame virt) given).0 ≡ 0x4000
unfolding machine pages pmm_init page_alloc take_page find_first for_loop bit_test bit_set bit_clear
    get_or_alloc_table put_table fill_table next_table vmm_alloc_page zeroed
zero_table_2 = refl

zero_table_1 : (pt_of machine.cr3 (frame virt) given).0 ≡ 0x5000
unfolding machine pages pmm_init page_alloc take_page find_first for_loop bit_test bit_set bit_clear
    get_or_alloc_table put_table fill_table next_table vmm_alloc_page zeroed
zero_table_1 = refl

machine_top : level machine.cr3 ≡ 4
unfolding machine
machine_top = refl

exception_handler-IsZeroed_example :
    (s' : Vmm) × (exception_handler no_files file_area 14 6 virt machine ≡ resumed s')
    × IsZeroed machine level true virt s'
exception_handler-IsZeroed_example =
    exception_handler-IsZeroed machine level owner machine-IsTree machine-IsValid machine_top virt
      no_files file_area 6 refl refl (omega arith) (omega (arith, second_page))
      (omega (arith, zero_table_3)) (omega (arith, zero_table_2)) (omega (arith, zero_table_1))
