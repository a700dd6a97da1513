-- ===== src/Mm/Vmm/Clone.antt =====
-- vmm_alloc_page, vmm_clone_pml4 and vmm_unmap_user of src/kernel/arch/x86_64/vmm.c. The nested loops over the
-- tables of the three upper levels are one recursion on the level.
use swift_bsd.Prelude.{
  ℕ, zero, suc, ◌+◌, ◌-◌, Bool, true, false, not, ◌==◌, ◌&&◌, if◌then◌else◌, update, for_loop,
}
use swift_bsd.Mm.Pmm.{Pmm, page_alloc, page_free}
use swift_bsd.Mm.Vmm.{
  Vmm, is_present, is_write, is_user, is_huge, frame, slot, fill_table, table_flags,
}

unfoldable pub zeroed : Vmm → ℕ × Pmm → ℕ × Vmm
unfolding fill_table
zeroed s (paddr, pmm) =
    if paddr == 0
    then (0, record s { pmm = pmm })
    else (paddr, record s { pmm = pmm; words = fill_table paddr (λ i. 0) s.words })

unfoldable pub vmm_alloc_page : Vmm → ℕ × Vmm
unfolding page_alloc zeroed
vmm_alloc_page s = zeroed s (page_alloc s.pmm)

-- `e & ~PG_WRITE` in a user's entry
abbrev pub cow : ℕ → ℕ
cow e = if is_user e && is_write e then e - 2 else e

abbrev pub shared_entry : ℕ → ℕ
shared_entry e = if not (is_present e) then 0 else cow e

abbrev pub kept_entry : ℕ → ℕ
kept_entry e = if not (is_present e) then e else cow e

-- the loop that makes both tables of level 0 copy on write
unfoldable pub share_table : ℕ → ℕ → Vmm → Vmm
unfolding fill_table
share_table parent child s = record s {
  words =
      fill_table child (λ i. shared_entry (s.words (slot parent i)))
        (fill_table parent (λ i. kept_entry (s.words (slot parent i))) s.words);
}

abbrev pub if_page : ℕ × Vmm → (ℕ → Vmm → ℕ × Vmm) → ℕ × Vmm
if_page (child, s) use_page = if child == 0 then (0, s) else use_page child s

unfoldable pub clone_pt_cow : ℕ → Vmm → ℕ × Vmm
unfolding vmm_alloc_page share_table
clone_pt_cow parent s = if_page (vmm_alloc_page s) (λ child t. (child, share_table parent child t))

abbrev pub upper_entry : Bool → ℕ → ℕ
upper_entry user e =
    if not (is_present e) then 0 else if is_huge e then e else frame e + table_flags user

unfoldable pub clone_table_rw : ℕ → Bool → Vmm → ℕ × Vmm
unfolding vmm_alloc_page fill_table
clone_table_rw parent user s = if_page (vmm_alloc_page s) (λ child t. (
  child,
  record t { words = fill_table child (λ i. upper_entry user (t.words (slot parent i))) t.words },
))

unfoldable pub set_word : ℕ → ℕ → Vmm → Vmm
set_word at e s = record s { words = update s.words at e }

-- `true` when the loop went to its end, `false` when a page could not be had
abbrev pub and_then : Bool × Vmm → (Vmm → Bool × Vmm) → Bool × Vmm
and_then (true, s) next = next s
and_then (false, s) next = (false, s)

unfoldable pub each_entry : ℕ → ℕ → (ℕ → Vmm → Bool × Vmm) → Vmm → Bool × Vmm
each_entry zero i body s = (true, s)
each_entry (suc n) i body s = and_then (body i s) (λ t. each_entry n (i + 1) body t)

abbrev pub with_child : ℕ × Vmm → (ℕ → Vmm → Bool × Vmm) → Bool × Vmm
with_child (child, s) next = if child == 0 then (false, s) else next child s

-- what is done with a table once a copy of it is there
abbrev pub link_child : ℕ → ℕ → Vmm → Vmm
link_child at child s = record s { words = update s.words at (frame child + 7) }

-- entry `i` of a table whose entries lead to tables of level `suc level`, or to those of level 0
unfoldable pub clone_entry : ℕ → ℕ → ℕ → ℕ → Vmm → Bool × Vmm
unfolding set_word clone_pt_cow clone_table_rw share_table each_entry
clone_entry zero parent child i s =
    let e = s.words (slot parent i) in
    let copied =
      with_child (clone_pt_cow (frame e) s)
        (λ pt t. (true, share_table (frame e) pt (link_child (slot child i) pt t))) in
    if not (is_present e)
    then (true, set_word (slot child i) 0 s)
    else if is_huge e
    then (true, set_word (slot child i) e s)
    else copied
clone_entry (suc level) parent child i s =
    let e = s.words (slot parent i) in
    let copied = with_child (clone_table_rw (frame e) true s) (λ table t.
      each_entry 512 0 (clone_entry level (frame e) table) (link_child (slot child i) table t)) in
    if not (is_present e)
    then (true, set_word (slot child i) 0 s)
    else if is_huge e
    then (true, set_word (slot child i) e s)
    else copied

abbrev pub cloned : ℕ → Bool × Vmm → ℕ × Vmm
cloned child (true, s) = (child, s)
cloned child (false, s) = (0, s)

-- the copy of a pml4; 0 when a page could not be had
unfoldable pub vmm_clone_pml4 : ℕ → Vmm → ℕ × Vmm
unfolding vmm_alloc_page each_entry clone_entry set_word
vmm_clone_pml4 parent s = if_page (vmm_alloc_page s) (λ child t. cloned child (
    each_entry 256 0 (clone_entry 2 parent child)
      (for_loop (λ i u. set_word (slot child i) (u.words (slot parent i)) u) 256 256 t)))

unfoldable pub give_back : ℕ → Vmm → Vmm
give_back e s = record s { pmm = page_free s.pmm (frame e) }

-- entry `i` of a table of level `level`: the pages of a user and the tables below are freed; PG_HUGE is not
-- looked at
unfoldable pub unmap_entry : ℕ → ℕ → ℕ → Vmm → Vmm
unfolding give_back
unmap_entry zero table i s =
    let e = s.words (slot table i) in
    if not (is_present e) then s else if is_user e then give_back e s else s
unmap_entry (suc level) table i s =
    let e = s.words (slot table i) in
    let freed = give_back e (for_loop (unmap_entry level (frame e)) 0 512 s) in
    if not (is_present e) then s else freed

unfoldable pub unmap_top : ℕ → Vmm → Vmm
unfolding unmap_entry
unmap_top i s =
    let at = slot s.cr3 i in
    let t = unmap_entry 3 s.cr3 i s in
    if not (is_present (s.words at)) then s else record t { words = update t.words at 0 }

unfoldable pub vmm_unmap_user : Vmm → Vmm
unfolding unmap_top
vmm_unmap_user s = for_loop unmap_top 0 256 s
