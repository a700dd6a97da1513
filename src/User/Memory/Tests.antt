-- ===== src/User/Memory/Tests.antt =====
-- The memory calls on a process with one area of four pages, on a machine that logs what they ask.
use swift_bsd.Prelude.{
  as_int, ◌*◌, ◌+◌, ◌^◌, ◌%◌, ◌/◌, find_first, ℕ, ◌<◌, ◌≡◌, ◌↔◌, ◌⊎◌, true, false, none, some,
  arith, List, [], ◌∷◌, refl, pos, negsuc, if◌then◌else◌, ◌==◌,
}
use swift_bsd.User.Vma.{Vma, Space, vma_max, vma_split, split_at, vma_alloc_slot, vma_try_merge}
use swift_bsd.User.Vma.View.{Backs}
use swift_bsd.User.Vma.Split.{vma_split-Backs}
use swift_bsd.User.Vma.Merge.{vma_try_merge-Backs}
use swift_bsd.User.Memory.{Machine, failed, mmap_call, munmap_call}
use swift_bsd.User.Memory.Mmap.{Mapped, mmap_call-Mapped}
use swift_bsd.User.Memory.Munmap.{IsAlone, munmap_call-keeps_tail, munmap_call-loses_rest}

-- a machine that keeps the list of the pages unmapped
abbrev logger : Machine (List ℕ)
logger = record {
  page_alloc = λ w. (0x5000, w);
  vmm_map = λ v p f w. w;
  vmm_unmap = λ p w. p ∷ w;
  vmm_pt_lookup = λ p w. none;
  set_pt = λ p e w. w;
  vfs_lseek = λ fd pos w. w;
  vfs_write = λ fd bytes w. w;
  copy_page = λ p w. [];
}

abbrev area : Vma
area = record {
  start = 0x40000000;
  end = 0x40004000;
  prot = 3;
  flags = 2;
  fd = negsuc 0;
  foff = 0;
  used = true;
}

abbrev no_area : Vma
no_area = record { start = 0; end = 0; prot = 0; flags = 0; fd = pos 0; foff = 0; used = false }

abbrev one_area : Space
one_area = record {
  vmas = λ i. if i == 0 then area else no_area;
  vma_count = pos 1;
  heap_start = 0x10000000;
  heap_break = 0x10000000;
}

one_area-IsAlone : IsAlone one_area
one_area-IsAlone = record { first = refl; rest = λ i h. ground arith }

munmap_call-keeps_tail_example :
    (t : Space) × (w' : List ℕ) × (munmap_call logger 80 0x40002000 0x2000 one_area []
      ≡ some (0, t, w'))
    × (t.vmas 0 ≡ area)
munmap_call-keeps_tail_example =
    munmap_call-keeps_tail logger one_area [] one_area-IsAlone 0x40002000 0x2000 80 (omega arith)
      (omega arith) (omega arith) (omega arith) (omega arith)

munmap_call-loses_rest_example :
    (t : Space) × (w' : List ℕ) × (munmap_call logger 80 0x40000000 0x1000 one_area []
      ≡ some (0, t, w'))
    × ((i : ℕ) → (t.vmas i).used ≡ false)
munmap_call-loses_rest_example =
    munmap_call-loses_rest logger one_area [] one_area-IsAlone 0x40000000 0x1000 80 (omega arith)
      (omega arith) (omega arith) (omega arith) (omega arith)

-- an argument with 1 in its low half and 5 in its high half
abbrev one_and_five : ℕ
one_and_five = 5 * 2 ^ 32 + 1

mmap_call-Mapped_example :
    let (at, t) = mmap_call 0 0x1800 one_and_five 0x3000 one_area in
    Mapped 0x1800
      (one_and_five % 2 ^ 32)
      (one_and_five % 2 ^ 32)
      (as_int (one_and_five / 2 ^ 32))
      0x3000
      one_area
      at
      t
    ⊎ ((at ≡ failed) × (t ≡ one_area) × ((i : ℕ) → i < vma_max → (one_area.vmas i).used ≡ true))
mmap_call-Mapped_example =
    mmap_call-Mapped 0x1800 one_and_five 0x3000 one_area (omega arith) (omega arith)
      (λ i i_in used. ground arith) (λ i j i_in j_in ne x c. ground arith)

vma_split-Backs_example :
    Backs
      (split_at 0 0x40001000 1 one_area)
      0x40002008
      (record { prot = 3; flags = 2; fd = negsuc 0; offset = 0 })
    ↔ Backs one_area 0x40002008 (record { prot = 3; flags = 2; fd = negsuc 0; offset = 0 })
unfolding vma_split vma_alloc_slot find_first
vma_split-Backs_example =
    vma_split-Backs 0 0x40001000 one_area (λ i. ground arith) (omega arith) refl refl 0x40002008
      (record { prot = 3; flags = 2; fd = negsuc 0; offset = 0 })

-- the two parts beside each other
abbrev two_parts : Space
two_parts = split_at 0 0x40001000 1 one_area

vma_try_merge-Backs_example :
    Backs
      (vma_try_merge 1 two_parts)
      0x40002008
      (record { prot = 3; flags = 2; fd = negsuc 0; offset = 0 })
    ↔ Backs two_parts 0x40002008 (record { prot = 3; flags = 2; fd = negsuc 0; offset = 0 })
vma_try_merge-Backs_example =
    vma_try_merge-Backs 1 two_parts (λ i. ground arith) (omega arith) refl 0x40002008
      (record { prot = 3; flags = 2; fd = negsuc 0; offset = 0 })
