-- ===== src/User/Elf.antt =====
-- src/kernel/elf.c. The image is the bytes of `image`, in memory that the loader does not write; the segments are
-- written through the page tables in use, as far as they end below 2^64 - 0x1000. The log lines are left out.
mod Keeps
mod Header
mod Tests
use swift_bsd.Prelude.{
  ℕ, ◌+◌, ◌-◌, ◌*◌, ◌/◌, ◌%◌, ◌^◌, Bool, true, false, not, Option, none, some, ◌==◌, ◌&&◌, ltb,
  if◌then◌else◌, update, for_loop, add64,
}
use swift_bsd.Fs.SwiftFs.Bytes.{get_le}
use swift_bsd.Fs.SwiftFs.Cache.{Data}
use swift_bsd.Mm.Pmm.{page_alloc}
use swift_bsd.Mm.Vmm.{Vmm, frame, vmm_map}
use swift_bsd.Mm.Vmm.Clone.{zeroed, each_entry, and_then}
use swift_bsd.Mm.Fault.{physical, private_flags}

-- the fields of elf64_hdr_t that are read
abbrev pub e_entry : Data → ℕ
e_entry image = get_le 8 image 24

abbrev pub e_phoff : Data → ℕ
e_phoff image = get_le 8 image 32

abbrev pub e_phnum : Data → ℕ
e_phnum image = get_le 2 image 56

-- the four checks: the magic number, the class, the type and the machine
unfoldable pub is_accepted : Data → Bool
unfolding get_le
is_accepted image =
    get_le 4 image 0 == 0x464C457F
    && image 4 == 2
    && get_le 2 image 16 == 2
    && get_le 2 image 18 == 62

-- elf64_phdr_t, less p_paddr and p_align
pub record Phdr : Type 0 where
  pub p_type : ℕ
  pub p_flags : ℕ
  pub p_offset : ℕ
  pub p_vaddr : ℕ
  pub p_filesz : ℕ
  pub p_memsz : ℕ

-- `phdr[i]`
unfoldable pub phdr : Data → ℕ → Phdr
unfolding get_le
phdr image i =
    let at = e_phoff image + 56 * i in
    record {
      p_type = get_le 4 image at;
      p_flags = get_le 4 image (at + 4);
      p_offset = get_le 8 image (at + 8);
      p_vaddr = get_le 8 image (at + 16);
      p_filesz = get_le 8 image (at + 32);
      p_memsz = get_le 8 image (at + 40);
    }

unfoldable pub page_alloc_zero : Vmm → ℕ × Vmm
unfolding page_alloc zeroed
page_alloc_zero s = zeroed s (page_alloc s.pmm)

abbrev pub map_at : ℕ → ℕ → ℕ × Vmm → Bool × Vmm
unfolding vmm_map
map_at page flags (phys, s) = if phys == 0 then (false, s) else (true, vmm_map page phys flags s)

-- a new page of zeros, or `false` when there is none
unfoldable pub map_zero : ℕ → ℕ → Vmm → Bool × Vmm
unfolding page_alloc_zero map_at vmm_map
map_zero page flags s = map_at page flags (page_alloc_zero s)

-- `vm_flags` is an int: PG_NX, which is put in for a segment that cannot be executed, does not fit in it
abbrev pub vm_flags : ℕ → ℕ
vm_flags pflags =
    (5 + (if pflags / 2 % 2 == 1 then 2 else 0) + (if pflags % 2 == 1 then 0 else 2 ^ 63)) % 2 ^ 32

-- page `k` of a segment
unfoldable pub segment_page : Phdr → ℕ → Vmm → Bool × Vmm
unfolding map_zero
segment_page p k s = map_zero (frame p.p_vaddr + k * 0x1000) (vm_flags p.p_flags) s

-- the pages from `vaddr & ~0xFFF` to `end`
unfoldable pub map_segment : Phdr → Vmm → Bool × Vmm
unfolding segment_page each_entry
map_segment p s =
    each_entry ((add64 p.p_vaddr p.p_memsz - frame p.p_vaddr + 0xFFF) / 0x1000) 0 (segment_page p) s

-- one byte of the word at a physical address
abbrev pub set_byte : ℕ → ℕ → ℕ → ℕ
set_byte w k b = w - w / 2 ^ (8 * k) % 256 * 2 ^ (8 * k) + b * 2 ^ (8 * k)

abbrev pub write_byte_at : Option ℕ → ℕ → Vmm → Vmm
write_byte_at none b s = s
write_byte_at (some a) b s = record s {
  words = update s.words (a / 8 * 8) (set_byte (s.words (a / 8 * 8)) (a % 8) b);
}

-- a write to a virtual address
unfoldable pub write_byte : ℕ → ℕ → Vmm → Vmm
unfolding physical
write_byte virt b s = write_byte_at (physical virt s) b s

-- `copy`: the bytes that the file has of the segment
abbrev pub copied_size : Phdr → ℕ
copied_size p = if ltb p.p_filesz p.p_memsz then p.p_filesz else p.p_memsz

unfoldable pub copy_segment : Data → Phdr → Vmm → Vmm
unfolding write_byte
copy_segment image p s =
    for_loop (λ j t. write_byte (p.p_vaddr + j) (image (p.p_offset + j)) t) 0 (copied_size p) s

-- a round of the loop over the program headers; only PT_LOAD is looked at
unfoldable pub load_segment : Data → ℕ → Vmm → Bool × Vmm
unfolding phdr map_segment copy_segment
load_segment image i s =
    let p = phdr image i in
    let mapped = and_then (map_segment p s) (λ t. (true, copy_segment image p t)) in
    if not (p.p_type == 1) then (true, s) else mapped

-- three pages of stack, and behind a gap of one page the page of the arguments
unfoldable pub map_stack : Vmm → Bool × Vmm
unfolding map_zero
map_stack s =
    let page : ℕ → Vmm → Bool × Vmm = λ virt t. map_zero virt private_flags t in
    and_then (and_then (and_then (page 0x7F000000 s) (page 0x7F001000)) (page 0x7F002000))
      (page 0x7F004000)

abbrev pub entered : Data → Bool × Vmm → Option ℕ × Vmm
entered image (true, s) = (some (e_entry image), s)
entered image (false, s) = (none, s)

-- `none` is -1
unfoldable pub elf64_load : Data → Vmm → Option ℕ × Vmm
unfolding is_accepted load_segment map_stack each_entry get_le
elf64_load image s =
    let segments = each_entry (e_phnum image) 0 (load_segment image) s in
    if not (is_accepted image) then (none, s) else entered image (and_then segments map_stack)
