-- ===== src/Mm/Pmm/Tests.antt =====
-- pmm.c on a machine with nine pages of memory, whose kernel ends in the second one.
use swift_bsd.Prelude.{
  ◌*◌, List, update, ℕ, ◌<◌, ◌≡◌, ◌≢◌, ◌/◌, true, false, not, refl, arith, ◌∷◌, [], leb, ◌&&◌,
  find_first, for_loop, List,
}
use swift_bsd.Bitmap.{bit_test, bit_set, bit_clear}
use swift_bsd.Mm.Pmm.{Pmm, Tag, mmap, other, max_pages, page_size, pmm_init, page_alloc}
use swift_bsd.Mm.Pmm.Inv.{IsValid}
use swift_bsd.Mm.Pmm.Alloc.{Allocation, page_alloc-Allocation}
use swift_bsd.Mm.Pmm.Owners.{Client, start, next, alloc, page_alloc-fresh}
use swift_bsd.Mm.Pmm.Init.{covered, pmm_init_lem}
use swift_bsd.Mm.Pmm.Regions.{entries_of}

-- a region of type 1, one that is in use, and the boot loader's own tag
abbrev tags : List Tag
tags =
    other
    ∷ mmap (
        record { addr = 0; len = 0x9000; kind = 1 }
        ∷ record { addr = 0x9000; len = 0x1000; kind = 2 }
        ∷ [])
    ∷ []

machine : Pmm
machine = pmm_init tags 0x1800

pmm_init_lem_example :
    IsValid machine
    × ((q : ℕ)
        → q < max_pages
        → bit_test machine.bitmap q ≡ not (covered (entries_of tags) q && leb 0x1800 (q * 4096)))
unfolding machine
pmm_init_lem_example =
    pmm_init_lem tags 0x1800 (omega arith, (λ p h. refl), (omega arith, (λ p h. refl), tt))
      (omega arith)

machine-IsValid : IsValid machine
machine-IsValid = pmm_init_lem_example.0

machine-page_alloc : (page_alloc machine).0 ≡ 0x2000
unfolding machine pmm_init page_alloc find_first for_loop bit_test bit_set bit_clear
machine-page_alloc = refl

page_alloc-Allocation_example : Allocation machine (page_alloc machine)
page_alloc-Allocation_example = page_alloc-Allocation machine machine-IsValid

page_alloc-fresh_example :
    let c : Client = record {
      mem = (page_alloc machine).1;
      owned = update (λ _. false) ((page_alloc machine).0 / page_size) true;
    } in
    ((page_alloc c.mem).0 ≢ 0 → c.owned ((page_alloc c.mem).0 / page_size) ≡ false)
    × ((p : ℕ) → c.owned p ≡ true → bit_test c.mem.bitmap p ≡ true)
page_alloc-fresh_example =
    page_alloc-fresh machine machine-IsValid
      (next start (alloc (omega (arith, machine-page_alloc))))
