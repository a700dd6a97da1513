-- ===== src/Mm/Vmm/Tables.antt =====
-- The tree of page tables, and the translation that the processor makes with it.
use swift_bsd.Prelude.{
  Bool, ◌^◌, ◌*◌, ◌+◌, ℕ, zero, suc, ◌/◌, ◌%◌, ◌<◌, ◌≡◌, ◌≢◌, refl, arith, true, false, not, Option,
  none, some, ◌==◌, ◌&&◌, if◌then◌else◌,
}
use swift_bsd.Bitmap.{bit_test}
use swift_bsd.Mm.Pmm.{Pmm}
use swift_bsd.Mm.Vmm.{is_present, is_huge, frame, slot}

-- the indices of an address, from level 0 on
pub record Indices : Type 0 where
  pub at : ℕ → ℕ
  pub small : (l : ℕ) → at l < 512

-- where the processor takes an access, and what the last entry on the way permits; the flags of the tables above it
-- are left out
pub record Leaf : Type 0 where
  pub page : ℕ
  pub write : Bool
  pub user : Bool
  pub nx : Bool

-- an entry of level 0: the page is in bits 12 to 51, the permissions are bits 1, 2 and 63
abbrev pub small_leaf : ℕ → Leaf
small_leaf e = record {
  page = e % 2 ^ 52 / 4096 * 4096;
  write = e / 2 % 2 == 1;
  user = e / 4 % 2 == 1;
  nx = e / 2 ^ 63 % 2 == 1;
}

-- page `k` of a huge page, whose entry has the address in bits 21 to 51
abbrev pub huge_leaf : ℕ → ℕ → Leaf
huge_leaf e k = record {
  page = e % 2 ^ 52 / 2 ^ 21 * 2 ^ 21 + k * 4096;
  write = e / 2 % 2 == 1;
  user = e / 4 % 2 == 1;
  nx = e / 2 ^ 63 % 2 == 1;
}

-- the page at a physical address, with the permissions of the flags of vmm_map
abbrev pub asked : ℕ → ℕ → Leaf
asked phys flags = record {
  page = phys / 4096 * 4096;
  write = flags / 2 % 2 == 1;
  user = flags / 4 % 2 == 1;
  nx = flags / 2 ^ 63 % 2 == 1;
}

pub leaf_equal :
    (l m : Leaf) → l.page ≡ m.page → l.write ≡ m.write → l.user ≡ m.user → l.nx ≡ m.nx → l ≡ m
leaf_equal l m p w u n = λ i. record { page = p i; write = w i; user = u i; nx = n i }

-- what a table of level `l` says of an address: an entry of level 0, or of level 1 if that is a huge page
unfoldable pub translate : ℕ → (ℕ → ℕ) → ℕ → (ℕ → ℕ) → Option Leaf
translate zero words table at =
    let e = words (slot table (at 0)) in if is_present e then some (small_leaf e) else none
translate (suc l) words table at =
    let e = words (slot table (at (suc l))) in
    let below = translate l words (frame e) at in
    if not (is_present e)
    then none
    else if l == 0 && is_huge e
    then some (huge_leaf e (at 0))
    else below

-- `level t` is one more than the level of the table at `t`, and 0 if there is none; `owner t` is the address of
-- the entry that leads to it.
pub record IsTree (words : ℕ → ℕ) (pmm : Pmm) (level owner : ℕ → ℕ) : Type 0 where
  pub aligned : (t : ℕ) → 0 < level t → (t % 4096 ≡ 0) × (bit_test pmm.bitmap (t / 4096) ≡ true)
  pub child :
      (t l i : ℕ)
      → level t ≡ suc (suc l)
      → i < 512
      → is_present (words (slot t i)) ≡ true
      → (l == 0 && is_huge (words (slot t i))) ≡ false
      → (level (frame (words (slot t i))) ≡ suc l) × (owner (frame (words (slot t i))) ≡ slot t i)

-- a page that is taken and is no table
pub record IsOther (pmm : Pmm) (level : ℕ → ℕ) (q : ℕ) : Type 0 where
  pub no_table : level (q * 4096) ≡ 0
  pub taken : bit_test pmm.bitmap q ≡ true

-- what a search for table `r` from entry `i` of table `t` leaves, if that entry leads to level `l`: the table is
-- there, and every table of the tree says what it said
pub record Reached (words : ℕ → ℕ) (pmm : Pmm) (level : ℕ → ℕ) (t l i r : ℕ) (words' : ℕ → ℕ)
    (pmm' : Pmm) : Type 0 where
  pub level_after : ℕ → ℕ
  pub owner_after : ℕ → ℕ
  pub tree : IsTree words' pmm' level_after owner_after
  pub kept : (u : ℕ) → 0 < level u → level_after u ≡ level u
  pub same :
      (k u : ℕ) (v : Indices)
      → level u ≡ suc k
      → translate k words' u v.at ≡ translate k words u v.at
  pub entries :
      (u j : ℕ) → 0 < level u → j < 512 → slot t i ≢ slot u j → words' (slot u j) ≡ words (slot u j)
  pub here : level_after r ≡ suc l
  pub present : is_present (words' (slot t i)) ≡ true
  pub normal : (l == 0 && is_huge (words' (slot t i))) ≡ false
  pub leads : frame (words' (slot t i)) ≡ r
  pub others : (q : ℕ) → IsOther pmm level q → IsOther pmm' level_after q
  pub contents :
      (q x : ℕ) → IsOther pmm level q → x < 4096 → words' (q * 4096 + x) ≡ words (q * 4096 + x)

-- Two tables of the tree have no word in common.
pub slots_apart :
    (t u i j : ℕ)
    → t % 4096 ≡ 0
    → u % 4096 ≡ 0
    → i < 512
    → j < 512
    → slot t i ≡ slot u j
    → (t ≡ u) × (i ≡ j)
slots_apart t u i j ht hu hi hj e = (omega arith, omega arith)

module _ (l : ℕ) (words : ℕ → ℕ) (t : ℕ) (at : ℕ → ℕ) where
  pub translate-absent :
      is_present (words (slot t (at (suc l)))) ≡ false → translate (suc l) words t at ≡ none
  unfolding translate
  translate-absent e = rw e refl

  pub translate-huge :
      is_present (words (slot t (at (suc l)))) ≡ true
      → (l == 0 && is_huge (words (slot t (at (suc l))))) ≡ true
      → translate (suc l) words t at ≡ some (huge_leaf (words (slot t (at (suc l)))) (at 0))
  unfolding translate
  translate-huge e h = rw e (rw h refl)

  pub translate-below :
      is_present (words (slot t (at (suc l)))) ≡ true
      → (l == 0 && is_huge (words (slot t (at (suc l))))) ≡ false
      → translate (suc l) words t at ≡ translate l words (frame (words (slot t (at (suc l))))) at
  unfolding translate
  translate-below e h = rw e (rw h refl)
