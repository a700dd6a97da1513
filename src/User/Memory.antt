-- ===== src/User/Memory.antt =====
-- The memory calls of src/kernel/user/syscall_handler.c: SC_BRK, SC_MMAP, SC_MUNMAP, SC_MSYNC and
-- SC_MPROTECT, with vma_writeback_dirty and vma_unmap_pages. What they call in vmm.c, pmm.c and
-- vfs.c is an interface over the state of those parts.
--
-- A loop over pages runs as often as `p < end` allows, which supposes that `end + 0xFFF` does not
-- wrap. The loops over the table set their own index back, so they take fuel; `none` means that it
-- ran out.
pub mod Mmap
pub mod Munmap
mod Tests
use swift_bsd.Prelude.{
  as_int, ℕ, zero, suc, ◌+◌, ◌-◌, ◌*◌, ◌/◌, ◌%◌, ◌^◌, ◌<◌, Bool, true, false, not, Option, none,
  some, List, ◌==◌, ltb, leb, ◌&&◌, ◌||◌, if◌then◌else◌, for_loop, update, add64, sub64, page_up,
  page_down, ℤ, pos, increment, decrement, is_negative, bit_and, bit_or,
}
use swift_bsd.User.Vma.{
  Vma, Space, set_vma, vma_max, covers, vma_alloc_slot, vma_hint, vma_split, vma_try_merge,
}

-- What the calls use of the page tables, the page allocator and the files.
pub record Machine (W : Type 0) : Type 0 where
  pub page_alloc : W → ℕ × W
  pub vmm_map : ℕ → ℕ → ℕ → W → W
  pub vmm_unmap : ℕ → W → W
  -- the entry that vmm_pt_lookup points at, and the write through that pointer
  pub vmm_pt_lookup : ℕ → W → Option ℕ
  pub set_pt : ℕ → ℕ → W → W
  pub vfs_lseek : ℤ → ℕ → W → W
  pub vfs_write : ℤ → List ℕ → W → W
  -- the 4096 bytes at a virtual address
  pub copy_page : ℕ → W → List ℕ

abbrev pub pg_present : ℕ
pg_present = 1

abbrev pub pg_write : ℕ
pg_write = 2

abbrev pub pg_user : ℕ
pg_user = 4

abbrev pub pg_accessed : ℕ
pg_accessed = 0x20

abbrev pub pg_dirty : ℕ
pg_dirty = 0x40

abbrev pub pg_nx : ℕ
pg_nx = 2 ^ 63

-- (uint64_t)-1, also MAP_FAILED
abbrev pub failed : ℕ
failed = 2 ^ 64 - 1

-- `x & mask`, as a condition
abbrev pub has_bits : ℕ → ℕ → Bool
has_bits x mask = not (bit_and x mask == 0)

-- for (p = start; p < end; p += 0x1000) body(p)
unfoldable pub for_pages : {W : Type 0} → (ℕ → W → W) → ℕ → ℕ → W → W
for_pages body start end w =
    for_loop (λ k. body (start + k * 0x1000)) 0 ((end - start + 0xFFF) / 0x1000) w

-- the bounds of a call's range: addr + ((length + 0xFFF) & ~0xFFF)
abbrev pub range_end : ℕ → ℕ → ℕ
range_end addr length = add64 addr (page_up length)

-- `!v->used || addr >= v->end || end <= v->start`
abbrev pub misses : Vma → ℕ → ℕ → Bool
misses v addr end = not v.used || leb v.end addr || leb end v.start

-- The part of slot `i` inside the range gets a slot of its own, which is returned. A missing slot
-- for the part behind the range is passed over.
unfoldable pub clip_end : ℕ → ℕ → Space → Space
clip_end i end s =
    if ltb end (s.vmas i).end then elim (vma_split i end s) [ none ↦ s | some (r, s') ↦ s' ] else s

unfoldable pub clip : ℕ → ℕ → ℕ → Space → Option (ℕ × Space)
unfolding clip_end
clip i addr end s =
    if ltb (s.vmas i).start addr
    then elim (vma_split i addr s) [ none ↦ none | some (r, s') ↦ some (r, clip_end r end s') ]
    else some (i, clip_end i end s)

-- `v->used = 0; vma_count--`
abbrev pub drop_vma : ℕ → Space → Space
drop_vma i s = record s {
  vmas = update s.vmas i (record (s.vmas i) { used = false });
  vma_count = decrement s.vma_count;
}

-- SC_MMAP. `mmap_args` points at arg3 itself: `flags` is its low half, as is `prot`, and `fd` its high half;
-- `beyond` is what the stack holds at `offset`, 16 bytes behind the start of arg3.
unfoldable pub mmap_call : ℕ → ℕ → ℕ → ℕ → Space → ℕ × Space
mmap_call addr length arg3 beyond s = if length == 0 then (failed, s) else elim (vma_alloc_slot s) [
  | none ↦ (failed, s)
  | some i ↦
      let at = if addr == 0 then vma_hint s else addr in
      let fd = as_int (arg3 / 2 ^ 32) in
      let v : Vma = record {
        start = at;
        end = add64 at (page_up length);
        prot = arg3 % 2 ^ 32;
        flags = arg3 % 2 ^ 32;
        fd = fd;
        foff = if is_negative fd then 0 else beyond;
        used = true;
      } in
      (at, record s { vmas = update s.vmas i v; vma_count = increment s.vma_count })
]

module _ {W : Type 0} (M : Machine W) where
  -- one page of vma_writeback_dirty
  unfoldable pub writeback_page : Vma → ℕ → W → W
  writeback_page v p w = elim (M.vmm_pt_lookup p w) [
    | none ↦ w
    | some pte ↦
        if has_bits pte pg_dirty
        then M.set_pt p (bit_and pte (2 ^ 64 - 1 - pg_dirty)) (
            M.vfs_write v.fd (M.copy_page p w)
              (M.vfs_lseek v.fd (add64 v.foff (sub64 p v.start)) w))
        else w
  ]

  unfoldable pub vma_writeback_dirty : ℕ → ℕ → Vma → W → W
  unfolding writeback_page
  vma_writeback_dirty start end v w =
      if is_negative v.fd || not (has_bits v.flags 1)
      then w
      else for_pages (writeback_page v) start end w

  unfoldable pub vma_unmap_pages : ℕ → ℕ → W → W
  vma_unmap_pages start end w = for_pages M.vmm_unmap start end w

  -- what SC_MUNMAP does to the slot that clip returns
  unfoldable pub unmap_slot : ℕ → Space → W → Space × W
  unmap_slot i s w =
      let v = s.vmas i in
      (
        vma_try_merge i (drop_vma i s),
        vma_unmap_pages v.start v.end (vma_writeback_dirty v.start v.end v w),
      )

  -- the loop of SC_MUNMAP from slot `i` on, with the value that the call returns
  unfoldable pub munmap_loop : ℕ → ℕ → ℕ → ℕ → Space → W → Option (ℕ × Space × W)
  munmap_loop zero addr end i s w = none
  munmap_loop (suc fuel) addr end i s w = elim (leb vma_max i) [
    | true ↦ some (0, s, w)
    | false ↦ elim (misses (s.vmas i) addr end) [
      | true ↦ munmap_loop fuel addr end (i + 1) s w
      | false ↦ elim (clip i addr end s) [
        | none ↦ some (failed, s, w)
        | some (j, t) ↦ let u = unmap_slot j t w in munmap_loop fuel addr end (j + 1) u.0 u.1
      ]
    ]
  ]

  unfoldable pub munmap_call : ℕ → ℕ → ℕ → Space → W → Option (ℕ × Space × W)
  munmap_call fuel addr length s w =
      if length == 0 then some (0, s, w) else munmap_loop fuel addr (range_end addr length) 0 s w

  -- the page table entry that SC_MPROTECT writes over a present one
  abbrev pub protected_pte : ℕ → ℕ → ℕ
  protected_pte prot pte =
      let keep = bit_and pte (bit_or pg_accessed pg_dirty) in
      let base = bit_or (bit_or pg_present pg_user) keep in
      let writable = if has_bits prot 2 then bit_or base pg_write else base in
      let flags = if has_bits prot 4 then writable else bit_or writable pg_nx in
      bit_or (bit_and pte 0x0000FFFFFFFFF000) flags

  unfoldable pub protect_page : ℕ → ℕ → W → W
  protect_page prot p w = elim (M.vmm_pt_lookup p w) [
    | none ↦ w
    | some pte ↦ if has_bits pte pg_present then M.set_pt p (protected_pte prot pte) w else w
  ]

  unfoldable pub protect_slot : ℕ → ℕ → Space → W → Space × W
  protect_slot prot i s w =
      let v = s.vmas i in
      (
        vma_try_merge i (set_vma i (record v { prot = prot }) s),
        for_pages (protect_page prot) v.start v.end w,
      )

  unfoldable pub mprotect_loop : ℕ → ℕ → ℕ → ℕ → ℕ → Space → W → Option (ℕ × Space × W)
  mprotect_loop prot zero addr end i s w = none
  mprotect_loop prot (suc fuel) addr end i s w = elim (leb vma_max i) [
    | true ↦ some (0, s, w)
    | false ↦ elim (misses (s.vmas i) addr end) [
      | true ↦ mprotect_loop prot fuel addr end (i + 1) s w
      | false ↦ elim (clip i addr end s) [
        | none ↦ some (failed, s, w)
        | some (j, t) ↦
            let u = protect_slot prot j t w in mprotect_loop prot fuel addr end (j + 1) u.0 u.1
      ]
    ]
  ]

  unfoldable pub mprotect_call : ℕ → ℕ → ℕ → ℕ → Space → W → Option (ℕ × Space × W)
  mprotect_call fuel addr length prot s w =
      if length == 0
      then some (0, s, w)
      else mprotect_loop prot fuel addr (range_end addr length) 0 s w

  -- one slot of SC_MSYNC
  unfoldable pub msync_slot : ℕ → ℕ → Space → ℕ → W → W
  msync_slot addr end s i w =
      let v = s.vmas i in
      if misses v addr end
      then w
      else vma_writeback_dirty (if ltb v.start addr then addr else v.start)
          (if ltb end v.end then end else v.end) v w

  unfoldable pub msync_call : ℕ → ℕ → Space → W → ℕ × W
  unfolding msync_slot
  msync_call addr length s w =
      if length == 0
      then (0, w)
      else (0, for_loop (msync_slot addr (range_end addr length) s) 0 vma_max w)

  -- the pages that SC_BRK adds, until one cannot be had
  unfoldable pub grow : ℕ → ℕ → W → Bool × W
  grow zero v w = (true, w)
  grow (suc pages) v w =
      let r = M.page_alloc w in
      let rest =
        grow pages (v + 0x1000)
          (M.vmm_map v r.0 (bit_or (bit_or (bit_or pg_present pg_write) pg_user) pg_nx) r.1) in
      if r.0 == 0 then (false, r.1) else rest

  unfoldable pub set_break : ℕ → Space → Bool × W → ℕ × Space × W
  set_break new_brk s (true, w) = (new_brk, record s { heap_break = new_brk }, w)
  set_break new_brk s (false, w) = (failed, s, w)

  -- SC_BRK
  unfoldable pub brk_call : ℕ → Space → W → ℕ × Space × W
  unfolding grow set_break
  brk_call new_brk s w =
      let old_page = page_down s.heap_break in
      let new_page = page_up new_brk in
      if new_brk == 0
      then (s.heap_break, s, w)
      else if ltb new_brk s.heap_start
      then (failed, s, w)
      else if ltb old_page new_page
      then set_break new_brk s (grow ((new_page - old_page) / 0x1000) old_page w)
      else set_break new_brk s (true, for_pages M.vmm_unmap new_page old_page w)
