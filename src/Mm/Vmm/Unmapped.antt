-- ===== src/Mm/Vmm/Unmapped.antt =====
-- vmm_pt_lookup and vmm_unmap, seen through the whole tree of page tables.
use swift_bsd.Prelude.{
  test_equal, ==_refl, ℕ, zero, suc, ◌≤◌, ◌<◌, ◌≡◌, refl, ap, ◌∙◌, inl, inr, arith, true, false,
  not, Option, none, some, ◌==◌, ◌&&◌, if◌then◌else◌, update, Bool-cases,
}
use swift_bsd.Mm.Vmm.{
  Vmm, is_present, is_huge, frame, slot, index, leaf_slot, present_slot, vmm_pt_lookup, unmap_at,
  vmm_unmap,
}
use swift_bsd.Mm.Vmm.Tables.{
  Leaf, small_leaf, huge_leaf, translate, IsTree, translate-absent, translate-below,
}
use swift_bsd.Mm.Vmm.Walk.{agree, translate-written, written, read_entry}
use swift_bsd.Mm.Vmm.Mapped.{way, indices, same_page, agree-same_page, resolve}

-- the entries of levels 3, 2 and 1 on the way of an address
abbrev entry_3 : ℕ → Vmm → ℕ
entry_3 virt s = s.words (slot s.page_pml4 (index 3 virt))

abbrev entry_2 : ℕ → Vmm → ℕ
entry_2 virt s = s.words (slot (frame (entry_3 virt s)) (index 2 virt))

abbrev pub entry_1 : ℕ → Vmm → ℕ
entry_1 virt s = s.words (slot (frame (entry_2 virt s)) (index 1 virt))

-- where the entry at an address leads
abbrev pub entry_at : (ℕ → ℕ) → Option ℕ → Option Leaf
entry_at words none = none
entry_at words (some at) = some (small_leaf (words at))

entry_at-present_slot :
    (s : Vmm) (at : ℕ) → entry_at s.words (present_slot (some at) s) ≡ read_entry (s.words at)
entry_at-present_slot s at = elim (Bool-cases (is_present (s.words at))) [
  | inl there ↦ rw there refl
  | inr absent ↦ rw absent refl
]

-- Below no huge page vmm_pt_lookup finds the entry that the tables of page_pml4 lead the address to, and null if
-- they lead it to none.
pub vmm_pt_lookup-resolve :
    (s : Vmm) (virt : ℕ)
    → is_huge (entry_1 virt s) ≡ false
    → entry_at s.words (vmm_pt_lookup virt s) ≡ resolve s.page_pml4 s.words virt
unfolding vmm_pt_lookup leaf_slot translate
vmm_pt_lookup-resolve s virt small = elim (Bool-cases (is_present (entry_3 virt s))) [
  | inr absent ↦ rw absent refl
  | inl there_3 ↦ elim (Bool-cases (is_present (entry_2 virt s))) [
    | inr absent ↦ rw (there_3, absent) refl
    | inl there_2 ↦ elim (Bool-cases (is_present (entry_1 virt s))) [
      | inr absent ↦ rw (there_3, there_2, absent) refl
      | inl there_1 ↦
          rw (there_3, there_2, there_1, small)
            (entry_at-present_slot s (slot (frame (entry_1 virt s)) (index 0 virt)))
    ]
  ]
]

agree_below :
    (l : ℕ) (a b : ℕ → ℕ)
    → agree (suc l) a b ≡ true
    → (a (suc l) ≡ b (suc l)) × (agree l a b ≡ true)
agree_below l a b h = ground (arith)

agree_lowest : (l : ℕ) (a b : ℕ → ℕ) → agree l a b ≡ true → a 0 ≡ b 0
agree_lowest zero a b h = test_equal (a 0) (b 0) h
agree_lowest (suc l) a b h = agree_lowest l a b (agree_below l a b h).1

-- what an entry of level `l + 1` says, where `under` is what the table it leads to says
abbrev entry_says : ℕ → ℕ → ℕ → Option Leaf → Option Leaf
entry_says l e k under =
    if not (is_present e) then none else if l == 0 && is_huge e then some (huge_leaf e k) else under

-- The tables say the same of two addresses whose indices agree.
translate-agree :
    (l : ℕ) (words : ℕ → ℕ) (t : ℕ) (a b : ℕ → ℕ)
    → agree l a b ≡ true
    → translate l words t a ≡ translate l words t b
unfolding translate
translate-agree zero words t a b h =
    ap (λ i. read_entry (words (slot t i))) (test_equal (a 0) (b 0) h)
translate-agree (suc l) words t a b h =
    let (top, under) = agree_below l a b h in
    ap (λ i. entry_says l (words (slot t i)) (a 0) (translate l words (frame (words (slot t i))) a))
      top
    ∙ ap
        (λ k.
          entry_says l (words (slot t (b (suc l)))) k
            (translate l words (frame (words (slot t (b (suc l))))) a))
        (agree_lowest l a b under)
    ∙ ap (λ o. entry_says l (words (slot t (b (suc l)))) (b 0) o)
        (translate-agree l words (frame (words (slot t (b (suc l))))) a b under)

module _ (s : Vmm) (level owner : ℕ → ℕ) (tree : IsTree s.words s.pmm level owner)
    (top : level s.page_pml4 ≡ 4) (virt : ℕ) (small : is_huge (entry_1 virt s) ≡ false) where
  -- what vmm_unmap is to leave
  abbrev Unmapped : (ℕ → ℕ) → Type 0
  Unmapped words =
      ((a : ℕ)
        → resolve s.page_pml4 words a
          ≡ (if same_page a virt then none else resolve s.page_pml4 s.words a))

  nothing_there : resolve s.page_pml4 s.words virt ≡ none → Unmapped s.words
  nothing_there gone = λ a. elim (Bool-cases (same_page a virt)) [
    | inl same ↦ rw same (
        translate-agree 3 s.words s.page_pml4 (λ l. index l a) (λ l. index l virt)
          (agree-same_page a virt ∙ same)
        ∙ gone)
    | inr other ↦ rw other refl
  ]

  abbrev path : ℕ → ℕ
  path = way (frame (entry_1 virt s)) (frame (entry_2 virt s)) (frame (entry_3 virt s)) s.page_pml4

  -- An entry that is there leads down a level.
  module _ (there_3 : is_present (entry_3 virt s) ≡ true)
      (there_2 : is_present (entry_2 virt s) ≡ true)
      (there_1 : is_present (entry_1 virt s) ≡ true) where
    level_3 : level (frame (entry_3 virt s)) ≡ 3
    level_3 = (tree.child s.page_pml4 2 (index 3 virt) top (omega arith) there_3 refl).0

    level_2 : level (frame (entry_2 virt s)) ≡ 2
    level_2 =
        (tree.child (frame (entry_3 virt s)) 1 (index 2 virt) level_3 (omega arith) there_2 refl).0

    level_1 : level (frame (entry_1 virt s)) ≡ 1
    level_1 =
        (tree.child (frame (entry_2 virt s)) 0 (index 1 virt) level_2 (omega arith) there_1 small).0

    levels : (k : ℕ) → k ≤ 3 → level (path k) ≡ suc k
    unfolding way
    levels zero h = level_1
    levels (suc zero) h = level_2
    levels (suc (suc zero)) h = level_3
    levels (suc (suc (suc zero))) h = top
    levels (suc (suc (suc (suc k)))) h = absurd (omega (arith, h))

    leads_down :
        (k : ℕ)
        → k < 3
        → let w = s.words (slot (path (suc k)) (index (suc k) virt)) in
          (is_present w ≡ true) × ((k == 0 && is_huge w) ≡ false) × (frame w ≡ path k)
    unfolding way
    leads_down zero h = (there_1, small, refl)
    leads_down (suc zero) h = (there_2, refl, refl)
    leads_down (suc (suc zero)) h = (there_3, refl, refl)
    leads_down (suc (suc (suc k))) h = absurd (omega (arith, h))

    cleared : Unmapped (update s.words (slot (frame (entry_1 virt s)) (index 0 virt)) 0)
    unfolding written way indices
    cleared = λ a.
        translate-written s.words s.pmm level owner tree (indices virt) path 0 3
          (record { is_table = levels; leads = leads_down }) s.page_pml4 (indices a) top
        ∙ ap
            (λ b.
              if b && agree 3 (λ l. index l a) (λ l. index l virt)
              then none
              else resolve s.page_pml4 s.words a)
            (==_refl s.page_pml4)
        ∙ ap (λ b. if b then none else resolve s.page_pml4 s.words a) (agree-same_page a virt)

  -- If the tables of page_pml4 are a tree and lead the address to no huge page, then vmm_unmap leaves no entry for
  -- the page of the address in them, and every other page leads to what it led to in them.
  pub vmm_unmap-resolve :
      (a : ℕ)
      → resolve s.page_pml4 (vmm_unmap virt s).words a
        ≡ (if same_page a virt then none else resolve s.page_pml4 s.words a)
  unfolding vmm_unmap unmap_at leaf_slot
  vmm_unmap-resolve = elim (Bool-cases (is_present (entry_3 virt s))) [
    | inr absent ↦
        rw absent
          (nothing_there (translate-absent 2 s.words s.page_pml4 (λ l. index l virt) absent))
    | inl there_3 ↦ elim (Bool-cases (is_present (entry_2 virt s))) [
      | inr absent ↦
          rw (there_3, absent)
            (nothing_there (
              translate-below 2 s.words s.page_pml4 (λ l. index l virt) there_3 refl
              ∙ translate-absent 1 s.words (frame (entry_3 virt s)) (λ l. index l virt) absent))
      | inl there_2 ↦ elim (Bool-cases (is_present (entry_1 virt s))) [
        | inr absent ↦
            rw (there_3, there_2, absent)
              (nothing_there (
                translate-below 2 s.words s.page_pml4 (λ l. index l virt) there_3 refl
                ∙ translate-below 1 s.words (frame (entry_3 virt s)) (λ l. index l virt) there_2
                    refl
                ∙ translate-absent 0 s.words (frame (entry_2 virt s)) (λ l. index l virt) absent))
        | inl there_1 ↦ rw (there_3, there_2, there_1) (cleared there_3 there_2 there_1)
      ]
    ]
  ]
