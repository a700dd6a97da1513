-- ===== src/Mm/Vmm/Walk.antt =====
-- A write of one entry of level 0, seen through the whole tree.
use swift_bsd.Prelude.{
  test_equal, equal_test, unequal_test, contrary, ℕ, zero, suc, ◌≤◌, ◌<◌, ◌≡◌, ◌≢◌, sym, ap, ◌∙◌,
  inl, inr, ◌⊎◌, arith, Bool, true, false, Option, none, some, ◌==◌, ◌&&◌, if◌then◌else◌, update,
  Bool-cases,
}
use swift_bsd.Mm.Pmm.{Pmm}
use swift_bsd.Mm.Vmm.{is_present, is_huge, frame, slot}
use swift_bsd.Mm.Vmm.Tables.{
  Leaf, small_leaf, huge_leaf, Indices, translate, IsTree, slots_apart, translate-absent,
  translate-huge, translate-below,
}

-- the indices agree from level 0 to level l
abbrev pub agree : ℕ → (ℕ → ℕ) → (ℕ → ℕ) → Bool
agree zero at to = at 0 == to 0
agree (suc l) at to = at (suc l) == to (suc l) && agree l at to

-- what an entry of level 0 says
abbrev pub read_entry : ℕ → Option Leaf
read_entry e = if is_present e then some (small_leaf e) else none

both_equal : (a b c d : ℕ) → (a == b && c == d) ≡ true → (a ≡ b) × (c ≡ d)
both_equal a b c d h = ground arith

both_hold : (a b c d : ℕ) → a ≡ b → c ≡ d → (a == b && c == d) ≡ true
both_hold a b c d e f = ground (arith, e, f)

slots_differ : (t p i j : ℕ) → (slot p j == slot t i) ≡ false → (t == p && i == j) ≡ false
slots_differ t p i j h = ground (arith, h)

both_differ : (a b c d : ℕ) → (a == b && c == d) ≡ false → a ≡ b → c ≡ d → ⊥
both_differ a b c d h e f = ground arith

if_off :
    (a b c : Bool) (x y : Option Leaf) → (a && b) ≡ false → (if a && (b && c) then x else y) ≡ y
if_off a b c x y h = ground arith

if_assoc :
    (a b c : Bool) (x y : Option Leaf)
    → (if (a && b) && c then x else y) ≡ (if a && (b && c) then x else y)
if_assoc a b c x y = ground arith

module _ (words : ℕ → ℕ) (pmm : Pmm) (level owner : ℕ → ℕ) (tree : IsTree words pmm level owner)
    (to : Indices) (path : ℕ → ℕ) (leaf : ℕ) where
  -- the tables from level l down to level 0 on the way of the address `to`
  pub record OnPath (l : ℕ) : Type 0 where
    pub is_table : (k : ℕ) → k ≤ l → level (path k) ≡ suc k
    pub leads :
        (k : ℕ)
        → k < l
        → (is_present (words (slot (path (suc k)) (to.at (suc k)))) ≡ true)
          × ((k == 0 && is_huge (words (slot (path (suc k)) (to.at (suc k))))) ≡ false)
          × (frame (words (slot (path (suc k)) (to.at (suc k)))) ≡ path k)

  unfoldable pub written : ℕ → ℕ
  written = update words (slot (path 0) (to.at 0)) leaf

  translate-written_zero :
      OnPath 0
      → (t : ℕ) (v : Indices) → level t ≡ 1
      → translate 0 written t v.at
        ≡ (if t == path 0 && agree 0 v.at to.at then read_entry leaf else translate 0 words t v.at)
  unfolding translate written
  translate-written_zero on t v lt =
      let ht = (tree.aligned t (omega arith)).0 in
      let hp = (tree.aligned (path 0) (omega (arith, on.is_table 0 (omega arith)))).0 in
      elim (Bool-cases (slot (path 0) (to.at 0) == slot t (v.at 0))) [
        | inl here ↦
            let both =
              slots_apart (path 0) t (to.at 0) (v.at 0) hp ht (to.small 0) (v.small 0)
                (test_equal _ _ here) in
            let hit = both_hold t (path 0) (v.at 0) (to.at 0) (sym both.0) (sym both.1) in
            ap read_entry (ap (λ b. if b then leaf else words (slot t (v.at 0))) here)
            ∙ sym (ap (λ b. if b then read_entry leaf else translate 0 words t v.at) hit)
        | inr apart ↦
            let miss = slots_differ t (path 0) (v.at 0) (to.at 0) apart in
            ap read_entry (ap (λ b. if b then leaf else words (slot t (v.at 0))) apart)
            ∙ sym (ap (λ b. if b then read_entry leaf else translate 0 words t v.at) miss)
      ]

  below : (l : ℕ) → OnPath (suc l) → OnPath l
  below l on = record {
    is_table = λ k h. on.is_table k (omega arith);
    leads = λ k h. on.leads k (omega arith);
  }

  -- the entry at which a table of a higher level is left does not change
  entry_same :
      (l : ℕ)
      → level (path 0) ≡ 1
      → (t i : ℕ) → level t ≡ suc (suc l)
      → i < 512
      → written (slot t i) ≡ words (slot t i)
  unfolding written
  entry_same l zero_level t i lt small =
      let ht = (tree.aligned t (omega (arith, lt))).0 in
      let hp = (tree.aligned (path 0) (omega (arith, zero_level))).0 in
      let apart : slot (path 0) (to.at 0) ≢ slot t i = λ e.
        let same = (slots_apart (path 0) t (to.at 0) i hp ht (to.small 0) small e).0 in
        absurd (omega (arith, ap level same, lt, zero_level)) in
      ground (arith, apart)

  -- A table is entered from one entry only.
  one_entry :
      (l : ℕ)
      → OnPath (suc l)
      → (t i : ℕ) → level t ≡ suc (suc l)
      → i < 512
      → is_present (words (slot t i)) ≡ true
      → (l == 0 && is_huge (words (slot t i))) ≡ false
      → (frame (words (slot t i)) == path l) ≡ (t == path (suc l) && i == to.at (suc l))
  one_entry l on t i lt small present normal =
      let p = path (suc l) in
      let lp = on.is_table (suc l) (omega arith) in
      let (there, plain, leads) = on.leads l (omega arith) in
      let mine = tree.child t l i lt small present normal in
      let its = tree.child p l (to.at (suc l)) lp (to.small (suc l)) there plain in
      let ht = (tree.aligned t (omega (arith, lt))).0 in
      let hp = (tree.aligned p (omega (arith, lp))).0 in
      elim (Bool-cases (t == p && i == to.at (suc l))) [
        | inl same ↦
            let both = both_equal t p i (to.at (suc l)) same in
            let at : frame (words (slot t i)) ≡ path l =
              ap (λ u. frame (words (slot u i))) both.0
              ∙ ap (λ j. frame (words (slot p j))) both.1
              ∙ leads in
            equal_test _ _ at ∙ sym same
        | inr apart ↦
            unequal_test _ _ (λ at.
              let slots = sym mine.1 ∙ ap owner (at ∙ sym leads) ∙ its.1 in
              let both = slots_apart t p i (to.at (suc l)) ht hp small (to.small (suc l)) slots in
              both_differ t p i (to.at (suc l)) apart both.0 both.1)
            ∙ sym apart
      ]

  -- The entry that the way to `to` takes is one that leads to a table.
  off_path :
      (l : ℕ)
      → OnPath (suc l)
      → (t i : ℕ)
      → (is_present (words (slot t i)) ≡ false) ⊎ ((l == 0 && is_huge (words (slot t i))) ≡ true)
      → (t == path (suc l) && i == to.at (suc l)) ≡ false
  off_path l on t i h = elim (Bool-cases (t == path (suc l) && i == to.at (suc l))) [
    | inr apart ↦ apart
    | inl same ↦
        let both = both_equal t (path (suc l)) i (to.at (suc l)) same in
        let (there, plain, leads) = on.leads l (omega arith) in
        let word : words (slot t i) ≡ words (slot (path (suc l)) (to.at (suc l))) =
          ap (λ u. words (slot u i)) both.0 ∙ ap (λ j. words (slot (path (suc l)) j)) both.1 in
        absurd (elim h [
          | inl absent ↦ contrary (sym (ap is_present word ∙ there) ∙ absent)
          | inr huge ↦ contrary (sym huge ∙ ap (λ w. l == 0 && is_huge w) word ∙ plain)
        ])
  ]

  pub translate-written :
      (l : ℕ)
      → OnPath l
      → (t : ℕ) (v : Indices) → level t ≡ suc l
      → translate l written t v.at
        ≡ (if t == path l && agree l v.at to.at then read_entry leaf else translate l words t v.at)
  translate-written zero on t v lt = translate-written_zero on t v lt
  translate-written (suc l) on t v lt =
      let i : ℕ = v.at (suc l) in
      let e : ℕ = words (slot t i) in
      let same : written (slot t i) ≡ e =
        entry_same l (on.is_table 0 (omega arith)) t i lt (v.small (suc l)) in
      elim (Bool-cases (is_present e)) [
        | inr absent ↦
            translate-absent l written t v.at (ap is_present same ∙ absent)
            ∙ sym (translate-absent l words t v.at absent)
            ∙ sym (
                if_off (t == path (suc l)) (i == to.at (suc l)) (agree l v.at to.at)
                  (read_entry leaf) (translate (suc l) words t v.at)
                  (off_path l on t i (inl absent)))
        | inl present ↦ elim (Bool-cases (l == 0 && is_huge e)) [
          | inl huge ↦
              translate-huge l written t v.at (ap is_present same ∙ present)
                (ap (λ w. l == 0 && is_huge w) same ∙ huge)
              ∙ ap (λ w. some (huge_leaf w (v.at 0))) same
              ∙ sym (translate-huge l words t v.at present huge)
              ∙ sym (
                  if_off (t == path (suc l)) (i == to.at (suc l)) (agree l v.at to.at)
                    (read_entry leaf) (translate (suc l) words t v.at)
                    (off_path l on t i (inr huge)))
          | inr normal ↦
              let table = tree.child t l i lt (v.small (suc l)) present normal in
              translate-below l written t v.at (ap is_present same ∙ present)
                (ap (λ w. l == 0 && is_huge w) same ∙ normal)
              ∙ ap (λ w. translate l written (frame w) v.at) same
              ∙ translate-written l (below l on) (frame e) v table.0
              ∙ ap
                  (λ b.
                    if b && agree l v.at to.at
                    then read_entry leaf
                    else translate l words (frame e) v.at)
                  (one_entry l on t i lt (v.small (suc l)) present normal)
              ∙ ap
                  (λ w.
                    if (t == path (suc l) && i == to.at (suc l)) && agree l v.at to.at
                    then read_entry leaf
                    else w)
                  (sym (translate-below l words t v.at present normal))
              ∙ if_assoc (t == path (suc l)) (i == to.at (suc l)) (agree l v.at to.at)
                  (read_entry leaf) (translate (suc l) words t v.at)
        ]
      ]

  -- After the write the tables are still a tree.
  pub written-IsTree : level (path 0) ≡ 1 → IsTree written pmm level owner
  written-IsTree zero_level = record {
    aligned = tree.aligned;
    child = λ t l i lt small present normal.
        let same = entry_same l zero_level t i lt small in
        let was =
          tree.child t l i lt small (sym (ap is_present same) ∙ present)
            (sym (ap (λ w. l == 0 && is_huge w) same) ∙ normal) in
        (ap (λ w. level (frame w)) same ∙ was.0, ap (λ w. owner (frame w)) same ∙ was.1);
  }
