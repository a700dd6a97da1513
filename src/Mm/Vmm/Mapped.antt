-- ===== src/Mm/Vmm/Mapped.antt =====
-- vmm_map_in_cr3, seen through the whole tree of page tables.
use swift_bsd.Prelude.{
  ◌*◌, ◌+◌, unequal_test, update_other, unequal_test, ==_refl, ℕ, zero, suc, ◌/◌, ◌%◌, ◌^◌, ◌≤◌,
  ◌<◌, ◌≡◌, ◌≢◌, refl, ap, ◌∙◌, inl, inr, arith, Bool, true, false, Option, some, ◌==◌, ◌&&◌,
  if◌then◌else◌, update, Bool-cases,
}
use swift_bsd.Mm.Pmm.{page_alloc, Pmm}
use swift_bsd.Mm.Pmm.Inv.{IsValid}
use swift_bsd.Mm.Vmm.{
  split_entry, put_table, Vmm, is_present, is_huge, frame, slot, index, is_low, leaf_entry,
  get_or_alloc_table, next_table, put_leaf, vmm_map_in_cr3,
}
use swift_bsd.Mm.Vmm.Tables.{Leaf, asked, Indices, translate, IsTree, IsOther, Reached, slots_apart}
use swift_bsd.Mm.Vmm.Walk.{agree, translate-written, written, written-IsTree, read_entry}
use swift_bsd.Mm.Vmm.Map.{get_or_alloc_table-Reached}
use swift_bsd.Mm.Vmm.Leaves.{leaf_there}

-- the tables on the way of an address, from level 0 up
unfoldable pub way : ℕ → ℕ → ℕ → ℕ → ℕ → ℕ
way p0 p1 p2 root zero = p0
way p0 p1 p2 root (suc zero) = p1
way p0 p1 p2 root (suc (suc zero)) = p2
way p0 p1 p2 root (suc (suc (suc k))) = root

unfoldable pub indices : ℕ → Indices
indices virt = record { at = λ l. index l virt; small = λ l. omega arith }

-- An entry of a table of another level stays as it is.
entry_kept :
    {words words' : ℕ → ℕ} {pmm pmm' : Pmm} {level owner : ℕ → ℕ} {t l i r : ℕ}
    → IsTree words pmm level owner
    → Reached words pmm level t l i r words' pmm'
    → level t ≡ suc (suc l)
    → i < 512
    → (u k j : ℕ) → level u ≡ suc k
    → j < 512
    → suc l ≢ k
    → words' (slot u j) ≡ words (slot u j)
entry_kept {level} {t} {l} {i} tree reached lt small u k j lu small_j other =
    let ht = (tree.aligned t (omega (arith, lt))).0 in
    let hu = (tree.aligned u (omega (arith, lu))).0 in
    reached.entries u j (omega (arith, lu)) small_j
      (λ e. other (omega (arith, ap level (slots_apart t u i j ht hu small small_j e).0, lt, lu)))

-- the two addresses are in one page, in the 48 bits that are translated
abbrev pub same_page : ℕ → ℕ → Bool
same_page a b = a / 4096 % 2 ^ 36 == b / 4096 % 2 ^ 36

pub agree-same_page : (a b : ℕ) → agree 3 (λ l. index l a) (λ l. index l b) ≡ same_page a b
agree-same_page a b = ground arith

module _ (words w2 w1 w0 : ℕ → ℕ) (pmm m2 m1 m0 : Pmm) (level owner : ℕ → ℕ)
    (tree : IsTree words pmm level owner) (root : ℕ) (top : level root ≡ 4) (to : Indices)
    (p2 p1 p0 : ℕ) (r2 : Reached words pmm level root 2 (to.at 3) p2 w2 m2)
    (r1 : Reached w2 m2 r2.level_after p2 1 (to.at 2) p1 w1 m1)
    (r0 : Reached w1 m1 r1.level_after p1 0 (to.at 1) p0 w0 m0) where
  root_2 : r2.level_after root ≡ 4
  root_2 = r2.kept root (omega (arith, top)) ∙ top

  root_1 : r1.level_after root ≡ 4
  root_1 = r1.kept root (omega (arith, root_2)) ∙ root_2

  p2_1 : r1.level_after p2 ≡ 3
  p2_1 = r1.kept p2 (omega (arith, r2.here)) ∙ r2.here

  levels : (k : ℕ) → k ≤ 3 → r0.level_after (way p0 p1 p2 root k) ≡ suc k
  unfolding way
  levels zero h = r0.here
  levels (suc zero) h = r0.kept p1 (omega (arith, r1.here)) ∙ r1.here
  levels (suc (suc zero)) h = r0.kept p2 (omega (arith, p2_1)) ∙ p2_1
  levels (suc (suc (suc zero))) h = r0.kept root (omega (arith, root_1)) ∙ root_1
  levels (suc (suc (suc (suc k)))) h = absurd (omega (arith, h))

  root_entry : w0 (slot root (to.at 3)) ≡ w2 (slot root (to.at 3))
  root_entry =
      entry_kept r1.tree r0 r1.here (to.small 1) root 3 (to.at 3) root_1 (to.small 3)
        (λ e. omega (arith, e))
      ∙ entry_kept r2.tree r1 r2.here (to.small 2) root 3 (to.at 3) root_2 (to.small 3)
          (λ e. omega (arith, e))

  middle_entry : w0 (slot p2 (to.at 2)) ≡ w1 (slot p2 (to.at 2))
  middle_entry =
      entry_kept r1.tree r0 r1.here (to.small 1) p2 2 (to.at 2) p2_1 (to.small 2)
        (λ e. omega (arith, e))

  passed :
      (k : ℕ) (w : ℕ → ℕ) (t r : ℕ)
      → w0 (slot t (to.at (suc k))) ≡ w (slot t (to.at (suc k)))
      → is_present (w (slot t (to.at (suc k)))) ≡ true
      → (k == 0 && is_huge (w (slot t (to.at (suc k))))) ≡ false
      → frame (w (slot t (to.at (suc k)))) ≡ r
      → (is_present (w0 (slot t (to.at (suc k)))) ≡ true)
        × ((k == 0 && is_huge (w0 (slot t (to.at (suc k))))) ≡ false)
        × (frame (w0 (slot t (to.at (suc k)))) ≡ r)
  passed k w t r e there plain leads =
      (ap is_present e ∙ there, ap (λ x. k == 0 && is_huge x) e ∙ plain, ap frame e ∙ leads)

  leads_down :
      (k : ℕ)
      → k < 3
      → let w = w0 (slot (way p0 p1 p2 root (suc k)) (to.at (suc k))) in
        (is_present w ≡ true) × ((k == 0 && is_huge w) ≡ false) × (frame w ≡ way p0 p1 p2 root k)
  unfolding way
  leads_down zero h = (r0.present, r0.normal, r0.leads)
  leads_down (suc zero) h = passed 1 w1 p2 p1 middle_entry r1.present r1.normal r1.leads
  leads_down (suc (suc zero)) h = passed 2 w2 root p2 root_entry r2.present r2.normal r2.leads
  leads_down (suc (suc (suc k))) h = absurd (omega (arith, h))

  pub translate-mapped :
      (leaf : ℕ)
      → (v : Indices)
      → translate 3 (update w0 (slot p0 (to.at 0)) leaf) root v.at
        ≡ (if agree 3 v.at to.at then read_entry leaf else translate 3 words root v.at)
  unfolding written way
  translate-mapped leaf v =
      translate-written w0 m0 r0.level_after r0.owner_after r0.tree to (way p0 p1 p2 root) leaf 3
        (record { is_table = levels; leads = leads_down }) root v (levels 3 (omega arith))
      ∙ ap (λ b. if b && agree 3 v.at to.at then read_entry leaf else translate 3 w0 root v.at)
          (==_refl root)
      ∙ ap (λ o. if agree 3 v.at to.at then read_entry leaf else o)
          (r0.same 3 root v root_1 ∙ r1.same 3 root v root_2 ∙ r2.same 3 root v top)

  pub mapped-IsTree :
      (leaf : ℕ) → IsTree (update w0 (slot p0 (to.at 0)) leaf) m0 r0.level_after r0.owner_after
  unfolding written way
  mapped-IsTree leaf =
      written-IsTree w0 m0 r0.level_after r0.owner_after r0.tree to (way p0 p1 p2 root) leaf r0.here

  -- A page that was taken and no table is so still, and holds what it held.
  pub others : (q : ℕ) → IsOther pmm level q → IsOther m0 r0.level_after q
  others q other = r0.others q (r1.others q (r2.others q other))

  pub contents :
      (leaf q x : ℕ)
      → IsOther pmm level q
      → x < 4096
      → update w0 (slot p0 (to.at 0)) leaf (q * 4096 + x) ≡ words (q * 4096 + x)
  contents leaf q x other small_x =
      let on_2 = r2.others q other in
      let on_1 = r1.others q on_2 in
      let on_0 = r0.others q on_1 in
      let page = (r0.tree.aligned p0 (omega (arith, r0.here))).0 in
      let small = to.small 0 in
      let apart : slot p0 (to.at 0) ≢ q * 4096 + x = λ e.
        let at : p0 ≡ q * 4096 = omega (arith, e, page, small) in
        omega (arith, ap r0.level_after at, r0.here, on_0.no_table) in
      update_other w0 (slot p0 (to.at 0)) (q * 4096 + x) leaf apart
      ∙ r0.contents q x on_1 small_x
      ∙ r1.contents q x on_2 small_x
      ∙ r2.contents q x other small_x

  pub root_kept : r0.level_after root ≡ 4
  root_kept = r0.kept root (omega (arith, root_1)) ∙ root_1

-- what the tables below `root` say of an address
abbrev pub resolve : ℕ → (ℕ → ℕ) → ℕ → Option Leaf
resolve root words virt = translate 3 words root (λ l. index l virt)

-- The page of `virt` leads to `leaf` now, every other page leads to what it led to, the tables are a tree again,
-- and a page that was taken and no table is so still and holds what it held.
pub record IsMapped (s : Vmm) (level : ℕ → ℕ) (root virt : ℕ) (leaf : Leaf) (s' : Vmm)
    : Type 0 where
  pub level_after : ℕ → ℕ
  pub owner_after : ℕ → ℕ
  pub tree : IsTree s'.words s'.pmm level_after owner_after
  pub valid : IsValid s'.pmm
  pub top : level_after root ≡ 4
  pub others : (q : ℕ) → IsOther s.pmm level q → IsOther s'.pmm level_after q
  pub contents :
      (q x : ℕ)
      → IsOther s.pmm level q
      → x < 4096
      → s'.words (q * 4096 + x) ≡ s.words (q * 4096 + x)
  pub maps :
      (a : ℕ)
      → resolve root s'.words a ≡ (if same_page a virt then some leaf else resolve root s.words a)

-- the three tables on the way of `virt`, with the state after each
abbrev pub pdpt_of : ℕ → ℕ → Vmm → ℕ × Vmm
pdpt_of root virt s = get_or_alloc_table root (index 3 virt) false (is_low virt) s

abbrev pub pd_of : ℕ → ℕ → Vmm → ℕ × Vmm
pd_of root virt s = next_table (index 2 virt) false (is_low virt) (pdpt_of root virt s)

abbrev pub pt_of : ℕ → ℕ → Vmm → ℕ × Vmm
pt_of root virt s = next_table (index 1 virt) true (is_low virt) (pd_of root virt s)

-- If each of the three tables is there or gets a page, vmm_map_in_cr3 in a tree of page tables makes the page of
-- `virt` lead to the page of `phys` (below 2^52), by an entry that is writable, open to the user and not to be
-- executed as `flags` say; every other page leads to what it led to, with the same permissions in its entry, also
-- where a huge page was split; and the tables are a tree again, with a valid page allocator.
pub vmm_map_in_cr3-IsMapped :
    (s : Vmm) (level owner : ℕ → ℕ) (root virt phys flags : ℕ)
    → phys < 2 ^ 52
    → IsTree s.words s.pmm level owner
    → IsValid s.pmm
    → level root ≡ 4
    → (pdpt_of root virt s).0 ≢ 0
    → (pd_of root virt s).0 ≢ 0
    → (pt_of root virt s).0 ≢ 0
    → IsMapped s level root virt (asked phys flags) (vmm_map_in_cr3 root virt phys flags s)
unfolding vmm_map_in_cr3 next_table put_leaf indices
vmm_map_in_cr3-IsMapped s level owner root virt phys flags in_range tree valid top given_pdpt
      given_pd given_pt =
    let to = indices virt in
    let user : Bool = is_low virt in
    let (r2, v2) =
      get_or_alloc_table-Reached s level owner tree valid root 2 (index 3 virt) top (to.small 3)
        user false refl given_pdpt in
    let (p2, s2) = pdpt_of root virt s in
    let (r1, v1) =
      get_or_alloc_table-Reached s2 r2.level_after r2.owner_after r2.tree v2 p2 1 (index 2 virt)
        r2.here (to.small 2) user false refl given_pd in
    let (p1, s1) = pd_of root virt s in
    let (r0, v0) =
      get_or_alloc_table-Reached s1 r1.level_after r1.owner_after r1.tree v1 p1 0 (index 1 virt)
        r1.here (to.small 1) user true refl given_pt in
    let (p0, s0) = pt_of root virt s in
    let leaf = leaf_entry phys flags in
    let there = leaf_there phys flags in_range in
    rw (unequal_test p0 0 given_pt) (record {
      level_after = r0.level_after;
      owner_after = r0.owner_after;
      tree =
          mapped-IsTree s.words s2.words s1.words s0.words s.pmm s2.pmm s1.pmm s0.pmm level owner
            tree root top to p2 p1 p0 r2 r1 r0 leaf;
      valid = v0;
      top =
          root_kept s.words s2.words s1.words s0.words s.pmm s2.pmm s1.pmm s0.pmm level owner tree
            root top to p2 p1 p0 r2 r1 r0;
      others =
          others s.words s2.words s1.words s0.words s.pmm s2.pmm s1.pmm s0.pmm level owner tree root
            top to p2 p1 p0 r2 r1 r0;
      contents =
          contents s.words s2.words s1.words s0.words s.pmm s2.pmm s1.pmm s0.pmm level owner tree
            root top to p2 p1 p0 r2 r1 r0 leaf;
      maps = λ a.
          translate-mapped s.words s2.words s1.words s0.words s.pmm s2.pmm s1.pmm s0.pmm level owner
            tree root top to p2 p1 p0 r2 r1 r0 leaf (indices a)
          ∙ ap (λ b. if b then read_entry leaf else resolve root s.words a) (agree-same_page a virt)
          ∙ ap (λ o. if same_page a virt then o else resolve root s.words a) there;
    })

put_table-cr3 :
    (at : ℕ) (user : Bool) (f : ℕ → ℕ) (s : Vmm) (a : ℕ × Pmm)
    → (put_table at user f s a).1.cr3 ≡ s.cr3
unfolding put_table
put_table-cr3 at user f s (paddr, pmm) = elim (Bool-cases (paddr == 0)) [
  | inl e ↦ rw e refl
  | inr e ↦ rw e refl
]

get_or_alloc_table-cr3 :
    (t i : ℕ) (is_pd user : Bool) (s : Vmm) → (get_or_alloc_table t i is_pd user s).1.cr3 ≡ s.cr3
unfolding get_or_alloc_table
get_or_alloc_table-cr3 t i is_pd user s = elim (Bool-cases (is_present (s.words (slot t i)))) [
  | inr absent ↦ rw absent (put_table-cr3 (slot t i) user (λ k. 0) s (page_alloc s.pmm))
  | inl there ↦ elim (Bool-cases (is_pd && is_huge (s.words (slot t i)))) [
    | inl huge ↦
        rw (there, huge)
          (put_table-cr3 (slot t i) user (split_entry (s.words (slot t i))) s (page_alloc s.pmm))
    | inr plain ↦ rw (there, plain) refl
  ]
]

-- The tables in use stay the same ones.
pub vmm_map_in_cr3-cr3 :
    (s : Vmm) (root virt phys flags : ℕ) → (vmm_map_in_cr3 root virt phys flags s).cr3 ≡ s.cr3
unfolding vmm_map_in_cr3 next_table put_leaf
vmm_map_in_cr3-cr3 s root virt phys flags =
    let user : Bool = is_low virt in
    let (p2, s2) = pdpt_of root virt s in
    let (p1, s1) = pd_of root virt s in
    let (p0, s0) = pt_of root virt s in
    let same : s0.cr3 ≡ s.cr3 =
      get_or_alloc_table-cr3 p1 (index 1 virt) true user s1
      ∙ get_or_alloc_table-cr3 p2 (index 2 virt) false user s2
      ∙ get_or_alloc_table-cr3 root (index 3 virt) false user s in
    elim (Bool-cases (p0 == 0)) [ inl e ↦ rw e same | inr e ↦ rw e same ]
