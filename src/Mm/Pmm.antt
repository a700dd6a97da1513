-- ===== src/Mm/Pmm.antt =====
-- src/kernel/mm/pmm.c, the allocator of physical pages. The multiboot information, which the boot
-- loader leaves in memory, is the list of its tags up to the tag of type 0; `_bss_end + KHEAP_SIZE`
-- is an argument. The log lines are left out.
pub mod Inv
pub mod Alloc
pub mod Owners
pub mod Regions
pub mod Init
mod Tests
use swift_bsd.Prelude.{
  ℕ, ◌+◌, ◌-◌, ◌*◌, ◌/◌, ◌≡◌, Bool, Option, none, some, List, [], ◌∷◌, not, ◌==◌, ltb, leb,
  if◌then◌else◌, find_first, for_loop, add64, sub64, mul64,
}
use swift_bsd.Bitmap.{Bitmap, bit_set, bit_clear, bit_test}

abbrev pub page_size : ℕ
page_size = 4096

-- 512 MB of pages
abbrev pub max_pages : ℕ
max_pages = 131072

-- the static variables of the file
pub record Pmm : Type 0 where
  pub bitmap : Bitmap
  pub last_phys_page : ℕ
  pub free_page_count : ℕ
  pub total_mem : ℕ

-- `struct multiboot_mmap_entry`, less its padding
pub record MmapEntry : Type 0 where
  pub addr : ℕ
  pub len : ℕ
  pub kind : ℕ

-- a tag of type 6, with its entries, or one of another type
pub data Tag : Type 0 where
  mmap : List MmapEntry → Tag
  other : Tag

-- the two writes that go with a free page found or given back
unfoldable pub take_page : ℕ → Pmm → Pmm
take_page i s = record s {
  bitmap = bit_set s.bitmap i;
  free_page_count = sub64 s.free_page_count 1;
}

pub give_page : ℕ → Pmm → Pmm
give_page p s = record s {
  bitmap = bit_clear s.bitmap p;
  free_page_count = add64 s.free_page_count 1;
}

pub page_alloc_at : Pmm → Option ℕ → ℕ × Pmm
page_alloc_at s none = (0, s)
page_alloc_at s (some i) = (mul64 i page_size, take_page i s)

unfoldable pub page_alloc : Pmm → ℕ × Pmm
unfolding page_alloc_at
page_alloc s = page_alloc_at s (find_first s.last_phys_page 0 (λ i. not (bit_test s.bitmap i)))

unfoldable pub page_free : Pmm → ℕ → Pmm
page_free s addr =
    let p = addr / page_size in
    if leb max_pages p then s else if bit_test s.bitmap p then give_page p s else s

-- the first page of an entry, rounded up, and the page after its last, cut off at the bitmap's end
abbrev pub first_page : MmapEntry → ℕ
first_page e = add64 e.addr (page_size - 1) / page_size

abbrev pub end_page : MmapEntry → ℕ
end_page e = let pe = add64 e.addr e.len / page_size in if ltb max_pages pe then max_pages else pe

pub add_region : MmapEntry → Pmm → Pmm
add_region e s =
    let t = record s { total_mem = add64 s.total_mem e.len } in
    let u = for_loop give_page (first_page e) (end_page e - first_page e) t in
    record u {
      last_phys_page = if ltb u.last_phys_page (end_page e) then end_page e else u.last_phys_page;
    }

pub add_entries : List MmapEntry → Pmm → Pmm
add_entries [] s = s
add_entries (e ∷ es) s = add_entries es (if e.kind == 1 then add_region e s else s)

pub add_tags : List Tag → Pmm → Pmm
add_tags [] s = s
add_tags (mmap es ∷ ts) s = add_tags ts (add_entries es s)
add_tags (other ∷ ts) s = add_tags ts s

-- every page is taken, up to the end of the bitmap
pub all_taken : Pmm
all_taken = record {
  bitmap = λ i. if ltb i (max_pages / 8) then 0xFF else 0;
  last_phys_page = 0;
  free_page_count = 0;
  total_mem = 0;
}

-- the pages of the kernel and its heap
pub reserve_page : ℕ → Pmm → Pmm
reserve_page i s = if bit_test s.bitmap i then s else take_page i s

abbrev pub kernel_end_page : ℕ → ℕ
kernel_end_page kernel_end = add64 kernel_end (page_size - 1) / page_size

unfoldable pub pmm_init : List Tag → ℕ → Pmm
unfolding all_taken add_tags add_entries add_region reserve_page give_page take_page
pmm_init tags kernel_end =
    for_loop reserve_page 0 (kernel_end_page kernel_end) (add_tags tags all_taken)

pub pmm_free_count : Pmm → ℕ
pmm_free_count s = s.free_page_count

pub pmm_total_mem : Pmm → ℕ
pmm_total_mem s = s.total_mem
