-- ===== src/Mm/Vmm/Map.antt =====
-- get_or_alloc_table, seen through the whole tree of page tables.
use swift_bsd.Prelude.{
  both_true, ℕ, suc, ◌/◌, ◌<◌, ◌≡◌, ◌≢◌, refl, sym, ap, ◌∙◌, inl, inr, arith, Bool, true, false,
  ◌==◌, ◌&&◌, if◌then◌else◌, Bool-cases,
}
use swift_bsd.Bitmap.{bit_test}
use swift_bsd.Mm.Pmm.{Pmm, page_alloc}
use swift_bsd.Mm.Pmm.Inv.{IsValid}
use swift_bsd.Mm.Pmm.Alloc.{Allocation, page, exhausted, page_alloc-Allocation}
use swift_bsd.Mm.Vmm.{
  Vmm, is_present, is_huge, frame, slot, split_entry, put_table, get_or_alloc_table,
}
use swift_bsd.Mm.Vmm.Tables.{IsTree, Reached}
use swift_bsd.Mm.Vmm.Same.{IsTree-free}
use swift_bsd.Mm.Vmm.Filler.{Filler, empty, split}
use swift_bsd.Mm.Vmm.Grow.{grown, grown-Reached}

is_zero : (l : ℕ) → (l == 0) ≡ true → l ≡ 0
is_zero l h = ground arith

module _ (s : Vmm) (level owner : ℕ → ℕ) (tree : IsTree s.words s.pmm level owner)
    (valid : IsValid s.pmm) (t l i : ℕ) (lt : level t ≡ suc (suc l)) (small : i < 512)
    (user : Bool) where
  abbrev Got : ℕ × Vmm → Type 0
  Got r = Reached s.words s.pmm level t l i r.0 r.1.words r.1.pmm × IsValid r.1.pmm

  reached_old :
      is_present (s.words (slot t i)) ≡ true
      → (l == 0 && is_huge (s.words (slot t i))) ≡ false
      → Got (frame (s.words (slot t i)), s)
  reached_old there plain = (
    record {
      level_after = level;
      owner_after = owner;
      tree = tree;
      kept = λ u h. refl;
      same = λ k u v h. refl;
      entries = λ u j h g e. refl;
      here = (tree.child t l i lt small there plain).0;
      present = there;
      normal = plain;
      leads = refl;
      others = λ q h. h;
      contents = λ q x h small. refl;
    },
    valid,
  )

  reached_new :
      (f : ℕ → ℕ)
      → Filler l (s.words (slot t i)) f
      → (a : ℕ × Pmm) → Allocation s.pmm a
      → (put_table (slot t i) user f s a).0 ≢ 0
      → Got (put_table (slot t i) user f s a)
  unfolding put_table grown
  reached_new f filler (addr, pmm) (page p _ _ at low free first bits count v last) ne =
      elim (Bool-cases (addr == 0)) [
        | inl zero_page ↦ absurd (ne (rw zero_page refl))
        | inr some_page ↦
            let taken : (q : ℕ)
                → bit_test pmm.bitmap q
                  ≡ (if addr / 4096 == q then true else bit_test s.pmm.bitmap q) =
              λ q.
                bits q
                ∙ ap (λ n. if n == q then true else bit_test s.pmm.bitmap q) (omega (arith, at)) in
            rw some_page (
              grown-Reached s.words s.pmm pmm level owner tree t l i lt small addr
                  (ap level at ∙ IsTree-free tree p free) (omega (arith, at)) taken
                  (ap (bit_test s.pmm.bitmap) (omega (arith, at)) ∙ free) user f filler,
              v,
            )
      ]
  reached_new f filler _ (exhausted all) ne = absurd (ne refl)

  -- If get_or_alloc_table gives a table, that table stands below the entry, the page tables are still a tree, and
  -- each of them says of every address what it said: also where a huge page was split.
  pub get_or_alloc_table-Reached :
      (is_pd : Bool)
      → is_pd ≡ (l == 0)
      → (get_or_alloc_table t i is_pd user s).0 ≢ 0
      → Got (get_or_alloc_table t i is_pd user s)
  unfolding get_or_alloc_table
  get_or_alloc_table-Reached is_pd lowest ne = elim (Bool-cases (is_present (s.words (slot t i)))) [
    | inr absent ↦ rw absent (
        reached_new (λ k. 0) (empty absent (λ k. refl)) (page_alloc s.pmm)
          (page_alloc-Allocation s.pmm valid) (λ z. ne (rw absent z)))
    | inl there ↦ elim (Bool-cases (is_pd && is_huge (s.words (slot t i)))) [
      | inr plain ↦
          rw (there, plain)
            (reached_old there (ap (λ b. b && is_huge (s.words (slot t i))) (sym lowest) ∙ plain))
      | inl huge ↦
          let (low, large) =
            both_true _ _ (ap (λ b. b && is_huge (s.words (slot t i))) (sym lowest) ∙ huge) in
          rw (there, huge)
            (reached_new (split_entry (s.words (slot t i)))
              (split (is_zero l low) there large (λ k. refl)) (page_alloc s.pmm)
              (page_alloc-Allocation s.pmm valid) (λ z. ne (rw (there, huge) z)))
    ]
  ]
