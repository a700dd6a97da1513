-- ===== src/Mm/Pmm/Alloc.antt =====
-- page_alloc and page_free of src/kernel/mm/pmm.c.
use swift_bsd.Prelude.{
  not→true, not→false, ℕ, ◌+◌, ◌<◌, ◌≡◌, ◌≢◌, arith, ◌/◌, ◌*◌, true, false, not, inl, inr,
  Option-cases, find_first, find_first-Found, find_first-none, Found, if◌then◌else◌, ◌==◌, refl,
  Bool-cases, leb, mul64,
}
use swift_bsd.Bitmap.{bit_test, bit_test-bit_set, bit_test-bit_clear, bit_set}
use swift_bsd.Mm.Pmm.{Pmm, max_pages, page_size, take_page, give_page, page_alloc, page_free}
use swift_bsd.Mm.Pmm.Inv.{IsValid, take_page-IsValid, give_page-IsValid, clear_bits-le}

-- The two outcomes of an allocation: the lowest free page, which alone changes its state, or none.
pub data Allocation (s : Pmm) : ℕ × Pmm → Type 0 where
  page :
      (p addr : ℕ) (s' : Pmm)
      → addr ≡ p * page_size
      → p < s.last_phys_page
      → bit_test s.bitmap p ≡ false
      → ((q : ℕ) → q < p → bit_test s.bitmap q ≡ true)
      → ((q : ℕ) → bit_test s'.bitmap q ≡ (if p == q then true else bit_test s.bitmap q))
      → s'.free_page_count + 1 ≡ s.free_page_count
      → IsValid s'
      → s'.last_phys_page ≡ s.last_phys_page
      → Allocation s (addr, s')
  exhausted : ((q : ℕ) → q < s.last_phys_page → bit_test s.bitmap q ≡ true) → Allocation s (0, s)

page_alloc-Allocation_page :
    {s : Pmm} {i : ℕ}
    → IsValid s
    → Found s.last_phys_page 0 (λ k. not (bit_test s.bitmap k)) i
    → Allocation s (mul64 i page_size, take_page i s)
unfolding take_page
page_alloc-Allocation_page {s} {i} v f =
    let free : bit_test s.bitmap i ≡ false = not→false _ f.passes in
    let v' : IsValid (take_page i s) =
      take_page-IsValid i v (omega (arith, v.last_in, f.high)) free in
    page i (mul64 i page_size) (take_page i s) (omega (arith, f.high, v.last_in))
      (omega (arith, f.high)) free (λ q h. not→true _ (f.first q (omega arith) h))
      (bit_test-bit_set s.bitmap i v.bytes)
      (omega (
        arith,
        v.counted,
        clear_bits-le max_pages s.bitmap,
        v'.counted,
        clear_bits-le max_pages (bit_set s.bitmap i),
      ))
      v' refl

-- page_alloc hands out the lowest page below the last one that is free, marks that page alone, and
-- lowers the counter by one; if there is none it returns 0 and changes nothing. The invariant is
-- kept.
pub page_alloc-Allocation : (s : Pmm) → IsValid s → Allocation s (page_alloc s)
unfolding page_alloc
page_alloc-Allocation s v =
    elim (Option-cases (find_first s.last_phys_page 0 (λ i. not (bit_test s.bitmap i)))) [
      | inl e ↦
          rw e
            (exhausted (λ q h. not→true _ (find_first-none _ _ _ e q (omega arith) (omega arith))))
      | inr (i, e) ↦ rw e (page_alloc-Allocation_page v (find_first-Found _ _ _ e))
    ]

-- page_free of an address inside the bitmap leaves its page free and every other page as it was,
-- and raises the counter by one only if the page was taken. The invariant is kept.
pub page_free_lem :
    (s : Pmm) (addr : ℕ)
    → IsValid s
    → addr / page_size < max_pages
    → let s' = page_free s addr in
      ((q : ℕ)
        → bit_test s'.bitmap q ≡ (if addr / page_size == q then false else bit_test s.bitmap q))
      × (s'.free_page_count
          ≡ s.free_page_count + (if bit_test s.bitmap (addr / page_size) then 1 else 0))
      × IsValid s'
unfolding page_free
page_free_lem s addr v h = elim (Bool-cases (bit_test s.bitmap (addr / page_size))) [
  | inl taken ↦
      let small : leb max_pages (addr / page_size) ≡ false = ground arith in
      let v' : IsValid (give_page (addr / page_size) s) =
        give_page-IsValid (addr / page_size) v h taken in
      rw (small, taken) (given taken, counter taken v', v')
  | inr free ↦
      let small : leb max_pages (addr / page_size) ≡ false = ground arith in
      rw (small, free) ((λ q. ground arith), omega arith, v)
]
  where
    given :
        bit_test s.bitmap (addr / page_size) ≡ true
        → (q : ℕ)
        → bit_test (give_page (addr / page_size) s).bitmap q
          ≡ (if addr / page_size == q then false else bit_test s.bitmap q)
    given t q = unfold give_page in bit_test-bit_clear s.bitmap (addr / page_size) v.bytes q

    counter :
        bit_test s.bitmap (addr / page_size) ≡ true
        → IsValid (give_page (addr / page_size) s)
        → (give_page (addr / page_size) s).free_page_count ≡ s.free_page_count + 1
    counter t v' = unfold give_page in omega (arith, v.counted, clear_bits-le max_pages s.bitmap)

Allocation-free :
    {s : Pmm} {r : ℕ × Pmm}
    → IsValid s
    → r.0 ≢ 0
    → Allocation s r
    → ((q : ℕ) → bit_test (page_free r.1 r.0).bitmap q ≡ bit_test s.bitmap q)
      × ((page_free r.1 r.0).free_page_count ≡ s.free_page_count)
      × IsValid (page_free r.1 r.0)
Allocation-free {s} v ne (page p addr s' at low was_free first bits count v' last) =
    let e : addr / page_size ≡ p = omega arith in
    let f = page_free_lem s' addr v' (omega (arith, v.last_in)) in
    (λ q. ground (arith, f.0 q, bits q, e), ground (arith, f.1, bits p, e), f.2)
Allocation-free v ne (exhausted all) = absurd (ne refl)

-- Giving back the page that page_alloc has just handed out restores every bit and the counter.
pub page_free-page_alloc :
    (s : Pmm)
    → IsValid s
    → (page_alloc s).0 ≢ 0
    → let (addr, s') = page_alloc s in
      ((q : ℕ) → bit_test (page_free s' addr).bitmap q ≡ bit_test s.bitmap q)
      × ((page_free s' addr).free_page_count ≡ s.free_page_count)
      × IsValid (page_free s' addr)
page_free-page_alloc s v ne = Allocation-free v ne (page_alloc-Allocation s v)
