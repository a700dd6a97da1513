-- ===== src/User/Vma.antt =====
-- The table of memory areas of a process: `struct vma` of src/kernel/sched/process.h, and the helpers
-- vma_alloc_slot, vma_find, vma_hint, vma_split, vma_compat and vma_try_merge of
-- src/kernel/user/syscall_handler.c. An `int` result of -1 is `none`.
pub mod View
pub mod Split
pub mod Merge
use swift_bsd.Prelude.{
  ℕ, zero, suc, ◌+◌, ◌-◌, ◌<◌, Bool, true, false, not, Option, none, some, ◌==◌, ltb, leb, ◌&&◌,
  ◌||◌, if◌then◌else◌, find_first, for_loop, update, add64, sub64, page_up, ℤ, pos, increment,
  decrement, is_negative, same_int,
}

abbrev pub vma_max : ℕ
vma_max = 64

-- `struct vma`; prot and flags are 32-bit patterns, and `used` is a truth value
pub record Vma : Type 0 where
  pub start : ℕ
  pub end : ℕ
  pub prot : ℕ
  pub flags : ℕ
  pub fd : ℤ
  pub foff : ℕ
  pub used : Bool

-- the fields of `struct process` that concern its memory
pub record Space : Type 0 where
  pub vmas : ℕ → Vma
  pub vma_count : ℤ
  pub heap_start : ℕ
  pub heap_break : ℕ

abbrev pub set_vma : ℕ → Vma → Space → Space
set_vma i v s = record s { vmas = update s.vmas i v }

-- `addr >= v.start && addr < v.end`, in a slot in use
abbrev pub covers : Vma → ℕ → Bool
covers v x = v.used && leb v.start x && ltb x v.end

unfoldable pub vma_alloc_slot : Space → Option ℕ
vma_alloc_slot s = find_first vma_max 0 (λ i. not (s.vmas i).used)

unfoldable pub vma_find : Space → ℕ → Option ℕ
vma_find s addr = find_first vma_max 0 (λ i. covers (s.vmas i) addr)

-- the greatest end of an area in use above 0x40000000, rounded up
unfoldable pub hint_step : Space → ℕ → ℕ → ℕ
hint_step s i hint = if (s.vmas i).used && ltb hint (s.vmas i).end then (s.vmas i).end else hint

unfoldable pub vma_hint : Space → ℕ
unfolding hint_step
vma_hint s = page_up (for_loop (hint_step s) 0 vma_max 0x40000000)

-- the two areas that a split makes of one
abbrev pub left_part : Vma → ℕ → Vma
left_part v at = record v { end = at }

abbrev pub right_part : Vma → ℕ → Vma
right_part v at = record v { start = at; foff = add64 v.foff (sub64 at v.start) }

abbrev pub split_at : ℕ → ℕ → ℕ → Space → Space
split_at idx at right s = record s {
  vmas = update (update s.vmas right (right_part (s.vmas idx) at)) idx (left_part (s.vmas idx) at);
  vma_count = increment s.vma_count;
}

-- The slot found is not in use; `idx` is, wherever the handler calls this function.
unfoldable pub vma_split : ℕ → ℕ → Space → Option (ℕ × Space)
vma_split idx at s =
    if leb at (s.vmas idx).start || leb (s.vmas idx).end at then none else elim (vma_alloc_slot s) [
      | none ↦ none
      | some right ↦ some (right, split_at idx at right s)
    ]

unfoldable pub vma_compat : Vma → Vma → Bool
vma_compat a b =
    a.prot == b.prot
    && a.flags == b.flags
    && same_int a.fd b.fd
    && (is_negative a.fd || b.foff == add64 a.foff (sub64 a.end a.start))

-- `a->end = b->end; b->used = 0; vma_count--` for the slots `ia` and `ib`
abbrev pub join : ℕ → ℕ → Space → Space
join ia ib s =
    let a = s.vmas ia in
    let b = s.vmas ib in
    record s {
      vmas = update (update s.vmas ia (record a { end = b.end })) ib (record b { used = false });
      vma_count = decrement s.vma_count;
    }

abbrev pub joins : Vma → Vma → Bool
joins a b = a.end == b.start && vma_compat a b

-- the neighbours `idx - 1` and `idx + 1` in turn, and the first that fits
unfoldable pub merge_up : ℕ → Space → Space
merge_up idx s =
    if ltb (idx + 1) vma_max && (s.vmas (idx + 1)).used && joins (s.vmas idx) (s.vmas (idx + 1))
    then join idx (idx + 1) s
    else s

unfoldable pub vma_try_merge : ℕ → Space → Space
vma_try_merge zero s = merge_up zero s
vma_try_merge (suc k) s =
    if (s.vmas k).used && joins (s.vmas k) (s.vmas (suc k))
    then join k (suc k) s
    else merge_up (suc k) s
