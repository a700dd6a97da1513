-- ===== src/Mm/Kheap.antt =====
-- src/kernel/mm/kheap.c, the allocator of kernel memory. The list of headers that runs through
-- `heap_pool` is a list of blocks, each with the address of its header; the pool's address and size
-- (KHEAP_SIZE of kernel.h) are arguments.
pub mod Inv
pub mod Malloc
pub mod Free
mod Tests
use swift_bsd.Prelude.{
  ℕ, ◌+◌, ◌-◌, ◌*◌, ◌/◌, Bool, true, false, Option, none, some, List, [], ◌∷◌, ◌==◌, ltb, leb, ◌&&◌,
  if◌then◌else◌, add64,
}

-- `struct heap_block` at its address; `next` is the next element of the list.
pub record Block : Type 0 where
  pub addr : ℕ
  pub size : ℕ
  pub free : Bool

-- `sizeof(struct heap_block)`
abbrev pub header_size : ℕ
header_size = 24

abbrev pub KheapList : Type 0
KheapList = List Block

-- `(size + ALIGN - 1) & ~(ALIGN - 1)` on size_t
abbrev pub align_size : ℕ → ℕ
align_size size = add64 size 7 / 8 * 8

unfoldable pub kheap_init : ℕ → ℕ → KheapList
kheap_init pool kheap_size =
    record { addr = pool; size = kheap_size - header_size; free = true } ∷ []

-- the block that is taken, cut in two if the rest holds more than a header
unfoldable pub take_block : ℕ → Block → KheapList → KheapList
take_block size b bs =
    if ltb (add64 size header_size) b.size
    then record b { size = size; free = false }
      ∷ record {
        addr = b.addr + header_size + size;
        size = b.size - size - header_size;
        free = true;
      }
      ∷ bs
    else record b { free = false } ∷ bs

abbrev pub push_block {ℓ} : {A : Type ℓ} → Block → Option (A × KheapList) → Option (A × KheapList)
push_block b none = none
push_block b (some (p, bs)) = some (p, b ∷ bs)

-- the loop of kmalloc, first fit; `none` is the null pointer
unfoldable pub kmalloc_loop : ℕ → KheapList → Option (ℕ × KheapList)
kmalloc_loop size [] = none
kmalloc_loop size (b ∷ bs) =
    let rest = kmalloc_loop size bs in
    if b.free && leb size b.size
    then some (b.addr + header_size, take_block size b bs)
    else push_block b rest

unfoldable pub kmalloc : KheapList → ℕ → Option (ℕ × KheapList)
kmalloc heap size = kmalloc_loop (align_size size) heap

-- `b->free = 1` through the pointer; `none` if no header of the list stands there, where the C
-- program writes into memory that is not a header
unfoldable pub mark_free : ℕ → KheapList → Option KheapList
mark_free ptr [] = none
mark_free ptr (b ∷ bs) =
    let rest = mark_free ptr bs in
    if b.addr + header_size == ptr
    then some (record b { free = true } ∷ bs)
    else elim rest [ none ↦ none | some cs ↦ some (b ∷ cs) ]

-- the loop of kfree: a block takes in the free block behind it, and the walk goes on behind both
unfoldable pub coalesce : KheapList → KheapList
coalesce [] = []
coalesce (b ∷ []) = b ∷ []
coalesce (b ∷ c ∷ bs) =
    let merged = record b { size = b.size + (header_size + c.size) } ∷ coalesce bs in
    let apart = b ∷ coalesce (c ∷ bs) in if b.free && c.free then merged else apart

unfoldable pub kfree : KheapList → ℕ → Option KheapList
kfree heap ptr =
    if ptr == 0
    then some heap
    else elim (mark_free ptr heap) [ none ↦ none | some h ↦ some (coalesce h) ]
