-- ===== src/Mm/Fault.antt =====
-- exception_handler of src/kernel/arch/x86_64/idt.c, for page faults. The processor gives the error code and the
-- address (cr2), and its accesses go through the tables of cr3: one to an address that leads nowhere, which would
-- fault again, reads 0 and writes nothing here. `read_page fd offset page` is what vfs_lseek and vfs_read leave.
pub mod PutBack
pub mod Copy
pub mod Areas
mod Tests
use swift_bsd.Prelude.{
  ℕ, ◌+◌, ◌-◌, ◌*◌, ◌/◌, ◌%◌, ◌^◌, Bool, true, false, not, Option, none, some, ◌==◌, ◌&&◌, ◌||◌,
  leb, if◌then◌else◌, update, for_loop, find_first, ℤ, is_negative, add64, sub64,
}
use swift_bsd.Mm.Pmm.{Pmm, page_alloc}
use swift_bsd.Mm.Vmm.{Vmm, frame, vmm_map, vmm_map_in_cr3}
use swift_bsd.Mm.Vmm.Tables.{Leaf}
use swift_bsd.Mm.Vmm.Clone.{vmm_alloc_page}
use swift_bsd.Mm.Vmm.Mapped.{resolve}
use swift_bsd.User.Vma.{Vma, vma_max, covers}

abbrev pub physical_in : Option Leaf → ℕ → Option ℕ
physical_in none virt = none
physical_in (some l) virt = some (l.page + virt % 4096)

-- where an access to a virtual address goes
unfoldable pub physical : ℕ → Vmm → Option ℕ
physical virt s = physical_in (resolve s.cr3 s.words virt) virt

abbrev pub read_word_at : Option ℕ → Vmm → ℕ
read_word_at none s = 0
read_word_at (some a) s = s.words a

abbrev pub write_word_at : Option ℕ → ℕ → Vmm → Vmm
write_word_at none w s = s
write_word_at (some a) w s = record s { words = update s.words a w }

unfoldable pub read_word : ℕ → Vmm → ℕ
unfolding physical
read_word virt s = read_word_at (physical virt s) s

unfoldable pub write_word : ℕ → ℕ → Vmm → Vmm
unfolding physical
write_word virt w s = write_word_at (physical virt s) w s

-- what the handler comes to: it returns to the process, or halts for good
pub data Handled : Type 0 where
  resumed : Vmm → Handled
  halted : Vmm → Handled

-- PG_PRESENT | PG_WRITE | PG_USER | PG_NX
abbrev pub private_flags : ℕ
private_flags = 7 + 2 ^ 63

-- the 512 words of the page are copied through a buffer, which is filled before the page is mapped anew
unfoldable pub move_page : ℕ → ℕ → Vmm → Vmm
unfolding read_word write_word vmm_map_in_cr3
move_page page phys s =
    let bounce : ℕ → ℕ = λ i. read_word (page + 8 * i) s in
    for_loop (λ i t. write_word (page + 8 * i) (bounce i) t) 0 512
      (vmm_map_in_cr3 s.cr3 page phys private_flags s)

abbrev pub copy_to : ℕ → Vmm → ℕ × Pmm → Handled
unfolding move_page
copy_to page s (phys, pmm) =
    let t : Vmm = record s { pmm = pmm } in
    if phys == 0 then halted t else resumed (move_page page phys t)

-- a write to a page that is there
unfoldable pub copy_fault : ℕ → Vmm → Handled
unfolding copy_to move_page page_alloc
copy_fault cr2 s = copy_to (frame cr2) s (page_alloc s.pmm)

abbrev pub map_new : ℕ → ℕ → (Vmm → Vmm) → ℕ × Vmm → Handled
unfolding vmm_map
map_new page flags filled (phys, s) =
    if phys == 0 then halted s else resumed (filled (vmm_map page phys flags s))

-- a write to a page that is not there
unfoldable pub zero_fault : Bool → ℕ → Vmm → Handled
unfolding map_new vmm_alloc_page vmm_map
zero_fault user cr2 s =
    map_new (frame cr2) (3 + 2 ^ 63 + (if user then 4 else 0)) (λ t. t) (vmm_alloc_page s)

-- PG_PRESENT | PG_USER, PG_WRITE and PG_NX
abbrev pub area_flags : Bool → Vma → ℕ
area_flags write v =
    5
    + (if write && v.prot / 2 % 2 == 1 then 2 else 0)
    + (if v.prot / 4 % 2 == 1 then 0 else 2 ^ 63)

module _ (read_page : ℤ → ℕ → ℕ → Vmm → Vmm) where
  abbrev pub fill_from : Vma → ℕ → Vmm → Vmm
  fill_from v page t =
      if is_negative v.fd then t else read_page v.fd (add64 v.foff (sub64 page v.start)) page t

  -- a page of the area that covers the address
  abbrev pub demand : (ℕ → Vma) → Bool → ℕ → Option ℕ → Vmm → Handled
  unfolding map_new vmm_alloc_page vmm_map
  demand vmas write cr2 none s = halted s
  demand vmas write cr2 (some i) s =
      map_new (frame cr2) (area_flags write (vmas i)) (fill_from (vmas i) (frame cr2))
        (vmm_alloc_page s)

  unfoldable pub page_fault : (ℕ → Vma) → ℕ → ℕ → Vmm → Handled
  unfolding copy_fault zero_fault demand vmm_alloc_page vmm_map find_first
  page_fault vmas error cr2 s =
      let present = error % 2 == 1 in
      let write = error / 2 % 2 == 1 in
      let user = error / 4 % 2 == 1 in
      if present && write && leb 0x1000000 cr2
      then copy_fault cr2 s
      else if not present && write && leb 0x1000000 cr2
      then zero_fault user cr2 s
      else if not present && leb 0x1000000 cr2
      then demand vmas write cr2 (find_first vma_max 0 (λ i. covers (vmas i) cr2)) s
      else halted s

  -- every other exception halts
  unfoldable pub exception_handler : (ℕ → Vma) → ℕ → ℕ → ℕ → Vmm → Handled
  unfolding page_fault
  exception_handler vmas vector error cr2 s =
      if vector == 14 then page_fault vmas error cr2 s else halted s
