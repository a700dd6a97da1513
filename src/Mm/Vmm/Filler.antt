-- ===== src/Mm/Vmm/Filler.antt =====
-- What a new table of page tables is filled with.
use swift_bsd.Prelude.{
  ◌≤◌, ◌+◌, ◌*◌, ◌/◌, ◌%◌, ◌^◌, ◌==◌, ap, some, ℕ, zero, suc, ◌<◌, ◌≡◌, refl, arith, true, false,
}
use swift_bsd.Mm.Vmm.{is_present, is_huge, slot, split_entry}
use swift_bsd.Mm.Vmm.Tables.{Indices, translate, small_leaf, huge_leaf, leaf_equal}

-- What the new table is filled with stands for what was there: nothing, or a huge page.
pub data Filler (l e : ℕ) (f : ℕ → ℕ) : Type 0 where
  empty : is_present e ≡ false → ((k : ℕ) → f k ≡ 0) → Filler l e f
  split :
      l ≡ 0
      → is_present e ≡ true
      → is_huge e ≡ true
      → ((k : ℕ) → f k ≡ split_entry e k)
      → Filler l e f

zero_absent : is_present 0 ≡ false
zero_absent = refl

split_present :
    (e k : ℕ) → is_present e ≡ true → is_huge e ≡ true → is_present (split_entry e k) ≡ true
split_present e k h g = ground arith

-- An entry that a huge page is split into leads to that page of it, with the same permissions.
split_leaf : (e k : ℕ) → is_huge e ≡ true → k < 512 → small_leaf (split_entry e k) ≡ huge_leaf e k
split_leaf e k h small =
    let huge : 128 ≤ e % 512 = ground (arith, h) in
    let page : split_entry e k % 2 ^ 52 / 4096 * 4096 ≡ e % 2 ^ 52 / 2 ^ 21 * 2 ^ 21 + k * 4096 =
      omega (arith, huge, small) in
    let write : split_entry e k / 2 % 2 ≡ e / 2 % 2 = omega (arith, huge, small) in
    let user : split_entry e k / 4 % 2 ≡ e / 4 % 2 = omega (arith, huge, small) in
    let nx : split_entry e k / 2 ^ 63 % 2 ≡ e / 2 ^ 63 % 2 = omega (arith, huge, small) in
    leaf_equal (small_leaf (split_entry e k)) (huge_leaf e k) page (ap (λ n. n == 1) write)
      (ap (λ n. n == 1) user) (ap (λ n. n == 1) nx)

-- A table at `p` filled with what stands for the entry of `t` says the same as that entry.
pub stand_in :
    (l : ℕ) (words new : ℕ → ℕ) (t p : ℕ) (f : ℕ → ℕ) (v : Indices)
    → ((x : ℕ) → x < 512 → new (slot p x) ≡ f x)
    → Filler l (words (slot t (v.at (suc l)))) f
    → translate l new p v.at ≡ translate (suc l) words t v.at
unfolding translate
stand_in zero words new t p f v filled (empty absent zeros) =
    rw (absent, filled (v.at 0) (v.small 0), zeros (v.at 0)) refl
stand_in (suc l) words new t p f v filled (empty absent zeros) =
    rw (absent, filled (v.at (suc l)) (v.small (suc l)), zeros (v.at (suc l))) refl
stand_in zero words new t p f v filled (split low present huge entries) =
    let e : ℕ = words (slot t (v.at 1)) in
    rw
      (
        filled (v.at 0) (v.small 0),
        entries (v.at 0),
        split_present e (v.at 0) present huge,
        present,
        huge,
      )
      (ap some (split_leaf e (v.at 0) huge (v.small 0)))
stand_in (suc l) words new t p f v filled (split low present huge entries) =
    absurd (omega (arith, low))

pub no_child :
    (l m e : ℕ) (f : ℕ → ℕ) (j : ℕ)
    → Filler l e f
    → suc l ≡ suc (suc m)
    → is_present (f j) ≡ true
    → ⊥
no_child l m e f j (empty absent zeros) deep present = ground (arith, zeros j)
no_child l m e f j (split low there huge entries) deep present = omega (arith, low, deep)
