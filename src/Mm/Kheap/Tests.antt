-- ===== src/Mm/Kheap/Tests.antt =====
-- kheap.c on a pool of 256 bytes at 0x1000.
use swift_bsd.Prelude.{ℕ, ◌≤◌, ◌≡◌, true, false, arith, refl, some, [], ◌∷◌}
use swift_bsd.Mm.Kheap.{
  Block, KheapList, align_size, kheap_init, kmalloc, kmalloc_loop, take_block, kfree, mark_free,
  coalesce,
}
use swift_bsd.Mm.Kheap.Malloc.{Outcome, kmalloc-Outcome}
use swift_bsd.Mm.Kheap.Free.{Returned, kfree-Returned, kfree-leaves_adjacent}

abbrev used : ℕ → ℕ → Block
used a n = record { addr = a; size = n; free = false }

abbrev free_one : ℕ → ℕ → Block
free_one a n = record { addr = a; size = n; free = true }

-- a free block, one in use, and the rest
abbrev heap : KheapList
heap = free_one 0x1000 16 ∷ used 0x1028 8 ∷ free_one 0x1048 160 ∷ []

kmalloc-three :
    kmalloc (kheap_init 0x1000 256) 13 ≡ some (0x1018, used 0x1000 16 ∷ free_one 0x1028 192 ∷ [])
unfolding kheap_init kmalloc kmalloc_loop take_block
kmalloc-three = refl

kfree-heap : kfree heap 0x1040 ≡ some (free_one 0x1000 48 ∷ free_one 0x1048 160 ∷ [])
unfolding kfree mark_free coalesce
kfree-heap = refl

-- A request within seven bytes of 2^64 wraps round to nothing, and gets the first free block.
kmalloc-wraps :
    kmalloc heap 0xFFFF_FFFF_FFFF_FFFA
    ≡ some (
      0x1018,
      record { addr = 0x1000; size = 16; free = false } ∷ used 0x1028 8 ∷ free_one 0x1048 160 ∷ [],
    )
unfolding kmalloc kmalloc_loop take_block
kmalloc-wraps = refl

kmalloc-Outcome_example :
    Outcome 0x1000 0x1100 (align_size 100) heap (kmalloc heap 100) × (100 ≤ align_size 100)
kmalloc-Outcome_example =
    kmalloc-Outcome 0x1000 0x1100 100 heap (omega arith) (omega arith) (omega arith)

kfree-Returned_example :
    (heap' : KheapList) × (kfree heap 0x1040 ≡ some heap')
    × Returned 0x1000 0x1100 heap 0x1040 8 heap'
kfree-Returned_example = kfree-Returned 0x1000 0x1100 0x1040 8 heap (omega arith) refl

kfree-leaves_adjacent_example :
    (d e : Block) × (ds : KheapList) × (kfree heap 0x1040 ≡ some (d ∷ e ∷ ds))
    × (d.free ≡ true)
    × (e.free ≡ true)
kfree-leaves_adjacent_example =
    kfree-leaves_adjacent (free_one 0x1000 16) (used 0x1028 8) (free_one 0x1048 160) [] refl refl
      (omega arith)
