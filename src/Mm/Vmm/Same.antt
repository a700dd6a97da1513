-- ===== src/Mm/Vmm/Same.antt =====
-- When the tables say the same after a change of memory.
use swift_bsd.Prelude.{
  ℕ, zero, suc, ◌*◌, ◌/◌, ◌<◌, ◌≡◌, refl, sym, ap, ◌∙◌, inl, inr, arith, true, false, some, ◌==◌,
  ◌&&◌, ltb, Bool-cases, contrary,
}
use swift_bsd.Bitmap.{bit_test}
use swift_bsd.Mm.Pmm.{Pmm}
use swift_bsd.Mm.Vmm.{is_present, is_huge, frame, slot}
use swift_bsd.Mm.Vmm.Tables.{
  huge_leaf, Indices, translate, IsTree, translate-absent, translate-huge, translate-below,
}

module _ (words new : ℕ → ℕ) where
  pub leaf_same :
      (u : ℕ) (v : Indices)
      → new (slot u (v.at 0)) ≡ words (slot u (v.at 0))
      → translate 0 new u v.at ≡ translate 0 words u v.at
  unfolding translate
  leaf_same u v e = rw e refl

  -- An entry that is the same says the same, if the table below it does.
  pub below_same :
      (k u : ℕ) (v : Indices)
      → new (slot u (v.at (suc k))) ≡ words (slot u (v.at (suc k)))
      → (is_present (words (slot u (v.at (suc k)))) ≡ true
          → (k == 0 && is_huge (words (slot u (v.at (suc k))))) ≡ false
          → translate k new (frame (words (slot u (v.at (suc k))))) v.at
            ≡ translate k words (frame (words (slot u (v.at (suc k))))) v.at)
      → translate (suc k) new u v.at ≡ translate (suc k) words u v.at
  below_same k u v same under =
      let e : ℕ = words (slot u (v.at (suc k))) in
      elim (Bool-cases (is_present e)) [
        | inr absent ↦
            translate-absent k new u v.at (ap is_present same ∙ absent)
            ∙ sym (translate-absent k words u v.at absent)
        | inl present ↦ elim (Bool-cases (k == 0 && is_huge e)) [
          | inl huge ↦
              translate-huge k new u v.at (ap is_present same ∙ present)
                (ap (λ w. k == 0 && is_huge w) same ∙ huge)
              ∙ ap (λ w. some (huge_leaf w (v.at 0))) same
              ∙ sym (translate-huge k words u v.at present huge)
          | inr normal ↦
              translate-below k new u v.at (ap is_present same ∙ present)
                (ap (λ w. k == 0 && is_huge w) same ∙ normal)
              ∙ ap (λ w. translate k new (frame w) v.at) same
              ∙ under present normal
              ∙ sym (translate-below k words u v.at present normal)
        ]
      ]

-- No table stands at a page that is free.
pub IsTree-free :
    {words : ℕ → ℕ} {pmm : Pmm} {level owner : ℕ → ℕ}
    → IsTree words pmm level owner
    → (p : ℕ) → bit_test pmm.bitmap p ≡ false
    → level (p * 4096) ≡ 0
IsTree-free {pmm} {level} tree p free = elim (Bool-cases (ltb 0 (level (p * 4096)))) [
  | inr no_table ↦ ground (arith, no_table)
  | inl a_table ↦
      let taken = (tree.aligned (p * 4096) (ground (arith, a_table))).1 in
      let at : p * 4096 / 4096 ≡ p = omega arith in
      absurd (contrary (sym taken ∙ ap (bit_test pmm.bitmap) at ∙ free))
]

-- The tables are a tree wherever their own words are the same.
pub IsTree-tables :
    {words : ℕ → ℕ} {pmm : Pmm} {level owner : ℕ → ℕ}
    → IsTree words pmm level owner
    → (new : ℕ → ℕ) → ((u j : ℕ) → 0 < level u → j < 512 → new (slot u j) ≡ words (slot u j))
    → IsTree new pmm level owner
IsTree-tables {level} {owner} tree new kept = record {
  aligned = tree.aligned;
  child = λ t l i lt small present normal.
      let same = kept t i (omega (arith, lt)) small in
      let was =
        tree.child t l i lt small (sym (ap is_present same) ∙ present)
          (sym (ap (λ w. l == 0 && is_huge w) same) ∙ normal) in
      (ap (λ w. level (frame w)) same ∙ was.0, ap (λ w. owner (frame w)) same ∙ was.1);
}

-- The tables say the same wherever their own words are the same.
pub translate-tables :
    {words : ℕ → ℕ} {pmm : Pmm} {level owner : ℕ → ℕ}
    → IsTree words pmm level owner
    → (new : ℕ → ℕ) → ((u j : ℕ) → 0 < level u → j < 512 → new (slot u j) ≡ words (slot u j))
    → (k u : ℕ) (v : Indices) → level u ≡ suc k
    → translate k new u v.at ≡ translate k words u v.at
translate-tables {words} tree new kept zero u v lu =
    leaf_same words new u v (kept u (v.at 0) (omega (arith, lu)) (v.small 0))
translate-tables {words} tree new kept (suc k) u v lu =
    below_same words new k u v (kept u (v.at (suc k)) (omega (arith, lu)) (v.small (suc k)))
      (λ present normal.
        translate-tables tree new kept k (frame (words (slot u (v.at (suc k))))) v
          (tree.child u k (v.at (suc k)) lu (v.small (suc k)) present normal).0)
