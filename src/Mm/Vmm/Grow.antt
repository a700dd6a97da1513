-- ===== src/Mm/Vmm/Grow.antt =====
-- A new table in the tree of page tables: an entry that was absent, or a huge page that is split.
use swift_bsd.Prelude.{
  if_true, ◌*◌, ◌+◌, contrary, unequal_test, contrary, unequal_test, test_equal, test_unequal,
  equal_test, ℕ, zero, suc, ◌+◌, ◌-◌, ◌/◌, ◌%◌, ◌<◌, ◌≡◌, ◌≢◌, refl, sym, ap, ◌∙◌, inl, inr, arith,
  Bool, true, false, ◌==◌, ◌&&◌, ltb, leb, if◌then◌else◌, update, Bool-cases, subst,
}
use swift_bsd.Bitmap.{bit_test}
use swift_bsd.Mm.Pmm.{Pmm}
use swift_bsd.Mm.Vmm.{is_present, is_huge, frame, slot, fill_table, table_flags}
use swift_bsd.Mm.Vmm.Tables.{
  Indices, translate, IsTree, IsOther, Reached, slots_apart, translate-below,
}
use swift_bsd.Mm.Vmm.Same.{leaf_same, below_same}
use swift_bsd.Mm.Vmm.Filler.{Filler, stand_in, no_child}

module _ (words : ℕ → ℕ) (pmm after : Pmm) (level owner : ℕ → ℕ)
    (tree : IsTree words pmm level owner) (t l i : ℕ) (lt : level t ≡ suc (suc l)) (small : i < 512)
    (paddr : ℕ) (fresh : level paddr ≡ 0) (page : paddr % 4096 ≡ 0)
    (taken : (q : ℕ)
      → bit_test after.bitmap q ≡ (if paddr / 4096 == q then true else bit_test pmm.bitmap q))
    (free : bit_test pmm.bitmap (paddr / 4096) ≡ false) (user : Bool) (f : ℕ → ℕ)
    (filler : Filler l (words (slot t i)) f) where
  unfoldable pub grown : ℕ → ℕ
  grown = update (fill_table paddr f words) (slot t i) (paddr + table_flags user)

  pub level_grown : ℕ → ℕ
  level_grown u = if u == paddr then suc l else level u

  pub owner_grown : ℕ → ℕ
  owner_grown u = if u == paddr then slot t i else owner u

  t_page : t % 4096 ≡ 0
  t_page = (tree.aligned t (omega (arith, lt))).0

  other_table : (u : ℕ) → 0 < level u → u ≢ paddr
  other_table u h e = absurd (omega (arith, ap level e, fresh))

  pub at_slot : grown (slot t i) ≡ paddr + table_flags user
  unfolding grown
  at_slot = ground arith

  in_new : (x : ℕ) → x < 512 → grown (slot paddr x) ≡ f x
  unfolding grown fill_table
  in_new x h =
      let apart : slot t i ≢ slot paddr x =
        λ e. other_table t (omega (arith, lt)) (slots_apart t paddr i x t_page page small h e).0 in
      let place : (slot paddr x - paddr) / 8 ≡ x = omega arith in ground (arith, apart, ap f place)

  pub elsewhere :
      (u j : ℕ) → 0 < level u → j < 512 → slot t i ≢ slot u j → grown (slot u j) ≡ words (slot u j)
  unfolding grown fill_table
  elsewhere u j h small_j apart =
      let u_page = (tree.aligned u h).0 in
      let ne = other_table u h in
      let outside : (leb paddr (slot u j) && ltb (slot u j) (paddr + 4096)) ≡ false =
        ground (arith, ne, u_page) in
      rw outside (ground (arith, apart))

  new_word : (l == 0 && is_huge (paddr + table_flags user)) ≡ false
  new_word = elim (Bool-cases user) [
    | inl u ↦ rw u (ground (arith, page))
    | inr k ↦ rw k (ground (arith, page))
  ]

  new_present : is_present (paddr + table_flags user) ≡ true
  new_present = elim (Bool-cases user) [
    | inl u ↦ rw u (ground (arith, page))
    | inr k ↦ rw k (ground (arith, page))
  ]

  new_frame : frame (paddr + table_flags user) ≡ paddr
  new_frame = elim (Bool-cases user) [
    | inl u ↦ rw u (omega (arith, page))
    | inr k ↦ rw k (omega (arith, page))
  ]

  -- The new table says of each address what its entry said before.
  through_new :
      (v : Indices)
      → v.at (suc l) ≡ i
      → translate l grown paddr v.at ≡ translate (suc l) words t v.at
  through_new v same =
      stand_in l words grown t paddr f v in_new
        (subst (λ j. Filler l (words (slot t j)) f) (sym same) filler)

  through_slot :
      (v : Indices)
      → v.at (suc l) ≡ i
      → translate (suc l) grown t v.at ≡ translate (suc l) words t v.at
  through_slot v same =
      let word : grown (slot t (v.at (suc l))) ≡ paddr + table_flags user =
        ap (λ j. grown (slot t j)) same ∙ at_slot in
      translate-below l grown t v.at (ap is_present word ∙ new_present)
        (ap (λ w. l == 0 && is_huge w) word ∙ new_word)
      ∙ ap (λ w. translate l grown w v.at) (ap frame word ∙ new_frame)
      ∙ through_new v same

  at_new :
      (k u : ℕ) (v : Indices)
      → l ≡ k
      → t ≡ u
      → v.at (suc k) ≡ i
      → translate (suc k) grown u v.at ≡ translate (suc k) words u v.at
  at_new k u v same_level same_table same =
      subst (λ m. translate (suc m) grown u v.at ≡ translate (suc m) words u v.at) same_level
        (subst (λ w. translate (suc l) grown w v.at ≡ translate (suc l) words w v.at) same_table
          (through_slot v (ap (λ m. v.at (suc m)) same_level ∙ same)))

  -- A table of the tree says of each address what it said before.
  pub translate-grown :
      (k u : ℕ) (v : Indices)
      → level u ≡ suc k
      → translate k grown u v.at ≡ translate k words u v.at
  translate-grown zero u v lu =
      let apart : slot t i ≢ slot u (v.at 0) = λ e.
        let same =
          (slots_apart t u i (v.at 0) t_page (tree.aligned u (omega (arith, lu))).0 small
            (v.small 0) e).0 in
        absurd (omega (arith, ap level same, lt, lu)) in
      leaf_same words grown u v (elsewhere u (v.at 0) (omega (arith, lu)) (v.small 0) apart)
  translate-grown (suc k) u v lu = elim (Bool-cases (slot t i == slot u (v.at (suc k)))) [
    | inl here ↦
        let both =
          slots_apart t u i (v.at (suc k)) t_page (tree.aligned u (omega (arith, lu))).0 small
            (v.small (suc k)) (test_equal _ _ here) in
        let deep : suc (suc l) ≡ suc (suc k) = sym lt ∙ ap level both.0 ∙ lu in
        at_new k u v (omega (arith, deep)) both.0 (sym both.1)
    | inr apart ↦
        below_same words grown k u v
          (elsewhere u (v.at (suc k)) (omega (arith, lu)) (v.small (suc k))
            (test_unequal _ _ apart))
          (λ present normal.
            translate-grown k (frame (words (slot u (v.at (suc k))))) v
              (tree.child u k (v.at (suc k)) lu (v.small (suc k)) present normal).0)
  ]

  pub level_new : level_grown paddr ≡ suc l
  level_new = unfold level_grown in ground arith

  owner_new : owner_grown paddr ≡ slot t i
  owner_new = unfold owner_grown in ground arith

  pub level_old : (u : ℕ) → 0 < level u → level_grown u ≡ level u
  level_old u h = let ne = other_table u h in unfold level_grown in ground (arith, ne)

  owner_old : (u : ℕ) → 0 < level u → owner_grown u ≡ owner u
  owner_old u h = let ne = other_table u h in unfold owner_grown in ground (arith, ne)

  old_level : (u : ℕ) → (u == paddr) ≡ false → level u ≡ level_grown u
  old_level u h = unfold level_grown in ap (λ b. if b then suc l else level u) (sym h)

  aligned_grown :
      (u : ℕ) → 0 < level_grown u → (u % 4096 ≡ 0) × (bit_test after.bitmap (u / 4096) ≡ true)
  unfolding level_grown
  aligned_grown u h = elim (Bool-cases (u == paddr)) [
    | inl new ↦
        let e : u ≡ paddr = test_equal u paddr new in
        (
          ap (λ w. w % 4096) e ∙ page,
          ap (λ w. bit_test after.bitmap (w / 4096)) e
              ∙ taken (paddr / 4096)
              ∙ ap (λ b. if b then true else bit_test pmm.bitmap (paddr / 4096))
                  (equal_test (paddr / 4096) (paddr / 4096) refl),
        )
    | inr old ↦
        let was = tree.aligned u (omega (arith, h, old_level u old)) in
        (
          was.0,
          taken (u / 4096)
              ∙ if_true (paddr / 4096 == u / 4096) (bit_test pmm.bitmap (u / 4096)) was.1,
        )
  ]

  Child : ℕ → ℕ → ℕ → Type 0
  Child u m j =
      is_present (grown (slot u j)) ≡ true
      → (m == 0 && is_huge (grown (slot u j))) ≡ false
      → (level_grown (frame (grown (slot u j))) ≡ suc m)
        × (owner_grown (frame (grown (slot u j))) ≡ slot u j)

  child_of_new :
      (m j : ℕ) → suc l ≡ suc (suc m) → j < 512 → is_present (grown (slot paddr j)) ≡ true → ⊥
  child_of_new m j deep small_j present =
      no_child l m (words (slot t i)) f j filler deep
        (sym (ap is_present (in_new j small_j)) ∙ present)

  Child-slot : (u m j : ℕ) → level u ≡ suc (suc m) → slot t i ≡ slot u j → t ≡ u → Child u m j
  unfolding Child
  Child-slot u m j lu here same present normal =
      let leads : frame (grown (slot u j)) ≡ paddr =
        ap (λ a. frame (grown a)) (sym here) ∙ ap frame at_slot ∙ new_frame in
      (
        ap level_grown leads ∙ level_new ∙ omega (arith, lt, lu, ap level same),
        ap owner_grown leads ∙ owner_new ∙ here,
      )

  Child-apart :
      (u m j : ℕ)
      → level u ≡ suc (suc m)
      → j < 512
      → grown (slot u j) ≡ words (slot u j)
      → Child u m j
  unfolding Child
  Child-apart u m j lu small_j same present normal =
      let was =
        tree.child u m j lu small_j (sym (ap is_present same) ∙ present)
          (sym (ap (λ w. m == 0 && is_huge w) same) ∙ normal) in
      let positive : 0 < level (frame (words (slot u j))) = omega (arith, was.0) in
      (
        ap (λ w. level_grown (frame w)) same ∙ level_old _ positive ∙ was.0,
        ap (λ w. owner_grown (frame w)) same ∙ owner_old _ positive ∙ was.1,
      )

  Child-old : (u m j : ℕ) → level u ≡ suc (suc m) → j < 512 → Child u m j
  Child-old u m j lu small_j = elim (Bool-cases (slot t i == slot u j)) [
    | inl here ↦
        let e : slot t i ≡ slot u j = test_equal _ _ here in
        Child-slot u m j lu e
          (slots_apart t u i j t_page (tree.aligned u (omega (arith, lu))).0 small small_j e).0
    | inr apart ↦
        Child-apart u m j lu small_j
          (elsewhere u j (omega (arith, lu)) small_j (test_unequal _ _ apart))
  ]

  -- With the new table the tables are still a tree.
  pub grown-IsTree : IsTree grown after level_grown owner_grown
  unfolding Child
  grown-IsTree = record {
    aligned = aligned_grown;
    child = λ u m j lu small_j present normal. elim (Bool-cases (u == paddr)) [
      | inl new ↦
          let e : u ≡ paddr = test_equal u paddr new in
          absurd (
            child_of_new m j (sym level_new ∙ ap level_grown (sym e) ∙ lu) small_j
              (ap (λ w. is_present (grown (slot w j))) (sym e) ∙ present))
      | inr old ↦ Child-old u m j (old_level u old ∙ lu) small_j present normal
    ];
  }

  apart_from_new : (q : ℕ) → IsOther pmm level q → q * 4096 ≢ paddr
  apart_from_new q other e =
      contrary (sym other.taken ∙ ap (bit_test pmm.bitmap) (omega (arith, e)) ∙ free)

  others : (q : ℕ) → IsOther pmm level q → IsOther after level_grown q
  unfolding level_grown
  others q other = record {
    no_table =
        ap (λ b. if b then suc l else level (q * 4096))
          (unequal_test (q * 4096) paddr (apart_from_new q other))
        ∙ other.no_table;
    taken = taken q ∙ if_true (paddr / 4096 == q) (bit_test pmm.bitmap q) other.taken;
  }

  contents :
      (q x : ℕ) → IsOther pmm level q → x < 4096 → grown (q * 4096 + x) ≡ words (q * 4096 + x)
  unfolding grown fill_table
  contents q x other small_x =
      let ne = apart_from_new q other in
      let apart : slot t i ≢ q * 4096 + x = λ e.
        let at : t ≡ q * 4096 = omega (arith, e, t_page) in
        omega (arith, ap level at, lt, other.no_table) in
      let outside : (leb paddr (q * 4096 + x) && ltb (q * 4096 + x) (paddr + 4096)) ≡ false =
        ground (arith, ne) in
      rw outside (ground (arith, apart))

  pub grown-Reached : Reached words pmm level t l i paddr grown after
  grown-Reached = record {
    level_after = level_grown;
    owner_after = owner_grown;
    tree = grown-IsTree;
    kept = level_old;
    same = translate-grown;
    entries = elsewhere;
    here = level_new;
    present = ap is_present at_slot ∙ new_present;
    normal = ap (λ w. l == 0 && is_huge w) at_slot ∙ new_word;
    leads = ap frame at_slot ∙ new_frame;
    others = others;
    contents = contents;
  }
