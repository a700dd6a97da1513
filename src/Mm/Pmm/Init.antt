-- ===== src/Mm/Pmm/Init.antt =====
-- pmm_init of src/kernel/mm/pmm.c: which pages are free when the kernel has started.
use swift_bsd.Prelude.{
  ap, ◌*◌, ◌^◌, ℕ, ◌+◌, ◌≤◌, ◌<◌, ◌≡◌, arith, Bool, true, false, not, ◌==◌, refl, List, [], ◌∷◌,
  ltb, leb, ◌&&◌, ◌||◌, ◌∙◌, sym,
}
use swift_bsd.Bitmap.{bit_test}
use swift_bsd.Mm.Pmm.{Tag, MmapEntry, max_pages, first_page, end_page, kernel_end_page, pmm_init}
use swift_bsd.Mm.Pmm.Inv.{IsValid}
use swift_bsd.Mm.Pmm.Regions.{has_page, offers, Apart, entries_of, has_page-lt, pmm_init-bits}

-- whether an entry is of type 1 and covers the whole of a page, and whether one of a list does
abbrev pub covers_whole : MmapEntry → ℕ → Bool
covers_whole e p = e.kind == 1 && leb e.addr (p * 4096) && leb (p * 4096 + 4096) (e.addr + e.len)

abbrev pub covered : List MmapEntry → ℕ → Bool
covered [] p = false
covered (e ∷ es) p = covers_whole e p || covered es p

-- No page is covered twice, and no entry comes near the end of the addresses.
abbrev pub Separate : List MmapEntry → Type 0
Separate [] = Unit {0}
Separate (e ∷ es) =
    (e.addr + e.len + 4095 < 2 ^ 64)
    × ((p : ℕ) → covers_whole e p ≡ true → covered es p ≡ false)
    × Separate es

has_page-eq-covers_whole :
    (e : MmapEntry) (p : ℕ)
    → e.addr + e.len + 4095 < 2 ^ 64
    → p < max_pages
    → has_page e p ≡ covers_whole e p
has_page-eq-covers_whole e p fits small =
    let starts : leb (first_page e) p ≡ leb e.addr (p * 4096) = ground (arith, fits) in
    let ends : ltb p (end_page e) ≡ leb (p * 4096 + 4096) (e.addr + e.len) =
      ground (arith, fits, small) in
    ap (λ b. e.kind == 1 && b && ltb p (end_page e)) starts
    ∙ ap (λ b. e.kind == 1 && leb e.addr (p * 4096) && b) ends

offers-eq-covered :
    (es : List MmapEntry) (p : ℕ) → Separate es → p < max_pages → offers es p ≡ covered es p
offers-eq-covered [] p separate small = refl
offers-eq-covered (e ∷ es) p (fits, once, rest) small =
    ap (λ b. b || offers es p) (has_page-eq-covers_whole e p fits small)
    ∙ ap (λ b. covers_whole e p || b) (offers-eq-covered es p rest small)

Separate-Apart : (es : List MmapEntry) → Separate es → Apart es
Separate-Apart [] separate = tt
Separate-Apart (e ∷ es) (fits, once, rest) = (
  (λ p h.
      let small : p < max_pages = has_page-lt e p h in
      offers-eq-covered es p rest small
      ∙ once p (sym (has_page-eq-covers_whole e p fits small) ∙ h)),
  Separate-Apart es rest,
)

-- The entries of the memory map cover no page twice and end before the last 4095 addresses, and the kernel ends
-- inside the bitmap: then after pmm_init the invariant holds, and a page is free exactly if an entry of type 1
-- covers the whole of it and it starts at or behind the end of the kernel and its heap.
pub pmm_init_lem :
    (tags : List Tag) (kernel_end : ℕ)
    → Separate (entries_of tags)
    → kernel_end ≤ max_pages * 4096
    → let s = pmm_init tags kernel_end in
      IsValid s
      × ((p : ℕ)
          → p < max_pages
          → bit_test s.bitmap p ≡ not (covered (entries_of tags) p && leb kernel_end (p * 4096)))
pmm_init_lem tags kernel_end separate inside =
    let es = entries_of tags in
    let (valid, bits) =
      pmm_init-bits tags kernel_end (Separate-Apart es separate) (omega (arith, inside)) in
    (
      valid,
      λ p small.
          let behind : leb (kernel_end_page kernel_end) p ≡ leb kernel_end (p * 4096) =
            ground (arith, inside) in
          bits p small
          ∙ ap (λ b. not (b && leb (kernel_end_page kernel_end) p))
              (offers-eq-covered es p separate small)
          ∙ ap (λ b. not (covered es p && b)) behind,
    )
