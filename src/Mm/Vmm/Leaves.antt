-- ===== src/Mm/Vmm/Leaves.antt =====
-- What the entry that vmm_map_in_cr3 of src/kernel/arch/x86_64/vmm.c writes says.
use swift_bsd.Prelude.{
  ◌*◌, ◌+◌, unequal_test, unequal_test, ℕ, ◌/◌, ◌%◌, ◌^◌, ◌<◌, ◌≡◌, refl, ap, ◌∙◌, inl, inr, arith,
  true, false, some, none, sym, equal_test, ◌==◌, if◌then◌else◌, Bool-cases,
}
use swift_bsd.Mm.Vmm.{is_present, is_nx, frame, set_nx, leaf_entry}
use swift_bsd.Mm.Vmm.Tables.{small_leaf, asked, leaf_equal}
use swift_bsd.Mm.Vmm.Walk.{read_entry}

leaf_x :
    (phys flags : ℕ)
    → phys < 2 ^ 52
    → is_nx flags ≡ false
    → read_entry (frame phys + (flags % 4096 / 2 * 2 + 1)) ≡ some (asked phys flags)
leaf_x phys flags small x =
    let e : ℕ = frame phys + (flags % 4096 / 2 * 2 + 1) in
    let there : is_present e ≡ true = equal_test _ _ (omega arith) in
    let page : e % 2 ^ 52 / 4096 * 4096 ≡ phys / 4096 * 4096 = omega (arith, small) in
    let write : e / 2 % 2 ≡ flags / 2 % 2 = omega arith in
    let user : e / 4 % 2 ≡ flags / 4 % 2 = omega arith in
    let none_left : e / 2 ^ 63 % 2 ≡ 0 = omega (arith, small) in
    ap (λ b. if b then some (small_leaf e) else none) there
    ∙ ap some (
        leaf_equal (small_leaf e) (asked phys flags) page (ap (λ n. n == 1) write)
          (ap (λ n. n == 1) user) (ap (λ n. n == 1) none_left ∙ sym x))

set_nx_adds : (e : ℕ) → e < 2 ^ 63 → set_nx e ≡ e + 2 ^ 63
set_nx_adds e small =
    let clear : is_nx e ≡ false = unequal_test _ _ (λ h. omega (arith, h, small)) in rw clear refl

leaf_nx :
    (phys flags : ℕ)
    → phys < 2 ^ 52
    → is_nx flags ≡ true
    → read_entry (set_nx (frame phys + (flags % 4096 / 2 * 2 + 1))) ≡ some (asked phys flags)
leaf_nx phys flags small nx =
    let low : ℕ = frame phys + (flags % 4096 / 2 * 2 + 1) in
    let e : ℕ = low + 2 ^ 63 in
    let there : is_present e ≡ true = equal_test _ _ (omega arith) in
    let page : e % 2 ^ 52 / 4096 * 4096 ≡ phys / 4096 * 4096 = omega (arith, small) in
    let write : e / 2 % 2 ≡ flags / 2 % 2 = omega arith in
    let user : e / 4 % 2 ≡ flags / 4 % 2 = omega arith in
    let is_left : e / 2 ^ 63 % 2 ≡ 1 = omega (arith, small) in
    ap read_entry (set_nx_adds low (omega (arith, small)))
    ∙ ap (λ b. if b then some (small_leaf e) else none) there
    ∙ ap some (
        leaf_equal (small_leaf e) (asked phys flags) page (ap (λ n. n == 1) write)
          (ap (λ n. n == 1) user) (ap (λ n. n == 1) is_left ∙ sym nx))

-- The entry that is written leads to the page at `phys`, with the permissions of the flags.
pub leaf_there :
    (phys flags : ℕ) → phys < 2 ^ 52 → read_entry (leaf_entry phys flags) ≡ some (asked phys flags)
leaf_there phys flags small = elim (Bool-cases (is_nx flags)) [
  | inl nx ↦
      ap read_entry (ap (λ b. if b then set_nx low else low) nx) ∙ leaf_nx phys flags small nx
  | inr x ↦ ap read_entry (ap (λ b. if b then set_nx low else low) x) ∙ leaf_x phys flags small x
]
  where
    low : ℕ
    low = frame phys + (flags % 4096 / 2 * 2 + 1)
