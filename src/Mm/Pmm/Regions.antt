-- ===== src/Mm/Pmm/Regions.antt =====
-- pmm_init of src/kernel/mm/pmm.c, in terms of the pages that its loops count.
use swift_bsd.Prelude.{
  ℕ, ◌+◌, ◌-◌, ◌≤◌, ◌<◌, ◌≡◌, arith, Bool, true, false, not, inl, inr, add64, if◌then◌else◌, ◌==◌,
  refl, Bool-cases, List, [], ◌∷◌, ◌++◌, ltb, leb, ◌&&◌, ◌||◌, suc, for_loop, for_loop-keeps, ◌∙◌,
  sym,
}
use swift_bsd.Bitmap.{bit_test, bit_test-full, bit_test-bit_set, bit_test-bit_clear}
use swift_bsd.Bitmap.Count.{clear_bits-zero}
use swift_bsd.Mm.Pmm.{
  Pmm, Tag, mmap, other, MmapEntry, max_pages, first_page, end_page, give_page, take_page,
  add_region, add_entries, add_tags, all_taken, reserve_page, kernel_end_page, pmm_init,
}
use swift_bsd.Mm.Pmm.Inv.{IsValid, take_page-IsValid, give_page-IsValid}

-- whether an entry offers a page, and whether one of a list does
abbrev pub has_page : MmapEntry → ℕ → Bool
has_page e p = e.kind == 1 && leb (first_page e) p && ltb p (end_page e)

abbrev pub offers : List MmapEntry → ℕ → Bool
offers [] p = false
offers (e ∷ es) p = has_page e p || offers es p

-- No page is offered twice.
abbrev pub Apart : List MmapEntry → Type 0
Apart [] = Unit {0}
Apart (e ∷ es) = ((p : ℕ) → has_page e p ≡ true → offers es p ≡ false) × Apart es

abbrev pub entries_of : List Tag → List MmapEntry
entries_of [] = []
entries_of (mmap es ∷ ts) = es ++ entries_of ts
entries_of (other ∷ ts) = entries_of ts

add_entries-append :
    (es fs : List MmapEntry) (s : Pmm)
    → add_entries (es ++ fs) s ≡ add_entries fs (add_entries es s)
unfolding add_entries
add_entries-append [] fs s = refl
add_entries-append (e ∷ es) fs s =
    add_entries-append es fs (if e.kind == 1 then add_region e s else s)

add_tags-eq-add_entries : (ts : List Tag) (s : Pmm) → add_tags ts s ≡ add_entries (entries_of ts) s
unfolding add_tags add_entries
add_tags-eq-add_entries [] s = refl
add_tags-eq-add_entries (mmap es ∷ ts) s =
    add_tags-eq-add_entries ts (add_entries es s) ∙ sym (add_entries-append es (entries_of ts) s)
add_tags-eq-add_entries (other ∷ ts) s = add_tags-eq-add_entries ts s

-- `t` is `s` with the pages from `lo` to below `hi` freed
record Freed (s t : Pmm) (lo hi : ℕ) : Type 0 where
  valid : IsValid t
  bits :
      (q : ℕ) → bit_test t.bitmap q ≡ (if leb lo q && ltb q hi then false else bit_test s.bitmap q)

Freed-step :
    {s t : Pmm} {lo : ℕ} (k : ℕ)
    → lo ≤ k
    → k < max_pages
    → bit_test s.bitmap k ≡ true
    → Freed s t lo k
    → Freed s (give_page k t) lo (suc k)
unfolding give_page
Freed-step {s} {t} {lo} k low high taken f =
    let now : bit_test t.bitmap k ≡ true = ground (arith, f.bits k) in
    record {
      valid = give_page-IsValid k f.valid high now;
      bits = λ q. ground (arith, bit_test-bit_clear t.bitmap k f.valid.bytes q, f.bits q);
    }

module _ (s : Pmm) (lo n : ℕ) (v : IsValid s)
    (inside : (q : ℕ) → lo ≤ q → q < lo + n → q < max_pages)
    (taken : (q : ℕ) → lo ≤ q → q < lo + n → bit_test s.bitmap q ≡ true) where
  give_range-Freed : Freed s (for_loop give_page lo n s) lo (lo + n)
  give_range-Freed =
      for_loop-keeps (λ k t. Freed s t lo k) give_page n lo s
        (λ k t low high f. Freed-step k low (inside k low high) (taken k low high) f) refl
        (record { valid = v; bits = λ q. ground arith })

add_region-Freed :
    (s : Pmm) (e : MmapEntry)
    → IsValid s
    → (e.kind == 1) ≡ true
    → ((q : ℕ) → has_page e q ≡ true → bit_test s.bitmap q ≡ true)
    → IsValid (add_region e s)
      × ((q : ℕ)
          → bit_test (add_region e s).bitmap q
            ≡ (if has_page e q then false else bit_test s.bitmap q))
unfolding add_region
add_region-Freed s e v one taken = (
  record {
    bytes = f.valid.bytes;
    last_in = ground (arith, f.valid.last_in);
    counted = f.valid.counted;
  },
  λ q. ground (arith, f.bits q),
)
  where
    t : Pmm
    t = record s { total_mem = add64 s.total_mem e.len }

    vt : IsValid t
    vt = record { bytes = v.bytes; last_in = v.last_in; counted = v.counted }

    f :
        Freed t
          (for_loop give_page (first_page e) (end_page e - first_page e) t)
          (first_page e)
          (first_page e + (end_page e - first_page e))
    f =
        give_range-Freed t (first_page e) (end_page e - first_page e) vt (λ q l h. ground arith)
          (λ q l h. ground (arith, taken q))

add_entries-Freed :
    (es : List MmapEntry) (s : Pmm)
    → IsValid s
    → Apart es
    → ((q : ℕ) → offers es q ≡ true → bit_test s.bitmap q ≡ true)
    → IsValid (add_entries es s)
      × ((q : ℕ)
          → bit_test (add_entries es s).bitmap q
            ≡ (if offers es q then false else bit_test s.bitmap q))
unfolding add_entries
add_entries-Freed [] s v apart taken = (v, λ q. refl)
add_entries-Freed (e ∷ es) s v apart taken = elim (Bool-cases (e.kind == 1)) [
  | inl one ↦
      let r = add_region-Freed s e v one (λ q h. taken q (ground arith)) in
      let rest =
        add_entries-Freed es (add_region e s) r.0 apart.1
          (λ q h. ground (arith, r.1 q, taken q, apart.0 q)) in
      rw one (rest.0, λ q. ground (arith, rest.1 q, r.1 q, apart.0 q))
  | inr not_one ↦
      let rest = add_entries-Freed es s v apart.1 (λ q h. taken q (ground arith)) in
      rw not_one (rest.0, λ q. ground (arith, rest.1 q))
]

-- `t` is `s` with the pages below `k` taken
record Reserved (s t : Pmm) (k : ℕ) : Type 0 where
  valid : IsValid t
  bits : (q : ℕ) → bit_test t.bitmap q ≡ (if ltb q k then true else bit_test s.bitmap q)

reserve_page-Reserved :
    {s t : Pmm} (k : ℕ) → k < max_pages → Reserved s t k → Reserved s (reserve_page k t) (suc k)
unfolding reserve_page
reserve_page-Reserved {s} {t} k h r = elim (Bool-cases (bit_test t.bitmap k)) [
  | inl taken ↦
      rw taken (record { valid = r.valid; bits = λ q. ground (arith, r.bits q, r.bits k) })
  | inr free ↦ rw free (record {
    valid = take_page-IsValid k r.valid h free;
    bits = λ q.
        unfold take_page in ground (arith, bit_test-bit_set t.bitmap k r.valid.bytes q, r.bits q);
  })
]

all_taken-bits : (q : ℕ) → q < max_pages → bit_test all_taken.bitmap q ≡ true
unfolding all_taken
all_taken-bits q h = bit_test-full _ q (ground arith)

all_taken-IsValid : IsValid all_taken
unfolding all_taken
all_taken-IsValid = record {
  bytes = λ i. ground arith;
  last_in = omega arith;
  counted = sym (clear_bits-zero max_pages _ all_taken-bits);
}

pub has_page-lt : (e : MmapEntry) (q : ℕ) → has_page e q ≡ true → q < max_pages
has_page-lt e q h = ground arith

offers-lt : (es : List MmapEntry) (q : ℕ) → offers es q ≡ true → q < max_pages
offers-lt [] q h = absurd (cc)
offers-lt (e ∷ es) q h = elim (Bool-cases (has_page e q)) [
  | inl here ↦ has_page-lt e q here
  | inr not_here ↦ offers-lt es q (ground arith)
]

-- The same in terms of the pages that the loops count.
pub pmm_init-bits :
    (tags : List Tag) (kernel_end : ℕ)
    → Apart (entries_of tags)
    → kernel_end_page kernel_end ≤ max_pages
    → let s = pmm_init tags kernel_end in
      IsValid s
      × ((q : ℕ)
          → q < max_pages
          → bit_test s.bitmap q
            ≡ not (offers (entries_of tags) q && leb (kernel_end_page kernel_end) q))
unfolding pmm_init
pmm_init-bits tags kernel_end apart inside =
    (done.valid, λ q h. ground (arith, done.bits q, filled.1 q, all_taken-bits q))
  where
    es : List MmapEntry
    es = entries_of tags

    filled :
        IsValid (add_entries es all_taken)
        × ((q : ℕ)
            → bit_test (add_entries es all_taken).bitmap q
              ≡ (if offers es q then false else bit_test all_taken.bitmap q))
    filled =
        add_entries-Freed es all_taken all_taken-IsValid apart
          (λ q h. all_taken-bits q (offers-lt es q h))

    s₀ : Pmm
    s₀ = add_entries es all_taken

    end : ℕ
    end = kernel_end_page kernel_end

    done : Reserved s₀ (for_loop reserve_page 0 end (add_tags tags all_taken)) end
    done = rw add_tags-eq-add_entries (
        for_loop-keeps (λ k t. Reserved s₀ t k) reserve_page end 0 s₀
          (λ k t low high r. reserve_page-Reserved k (omega arith) r) (omega arith)
          (record { valid = filled.0; bits = λ q. ground arith }))
