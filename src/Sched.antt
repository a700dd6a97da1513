-- ===== src/Sched.antt =====
-- src/kernel/sched/sched.c: the process table, the choice of the next process, fork, exit and wait. The
-- words that the code writes on kernel stacks are a function of the address; vmm_clone_pml4 and page_alloc
-- are an interface over the state of the page tables and of the page allocator.
pub mod Calls
pub mod Pids
pub mod Turn
pub mod Frame
pub mod Reach
mod Tests
use swift_bsd.Prelude.{
  ℕ, zero, suc, ◌+◌, ◌-◌, ◌*◌, ◌%◌, ◌^◌, Bool, true, false, not, Option, none, some, List, [], ◌∷◌,
  ◌==◌, ltb, leb, ◌&&◌, ◌||◌, if◌then◌else◌, find_first, update, add64, ℤ, pos, increment,
  decrement,
}
use swift_bsd.Fs.Vfs.{File, vfs_init}
use swift_bsd.User.Vma.{Vma, Space, vma_max}

abbrev pub max_procs : ℕ
max_procs = 64

abbrev pub kstack_size : ℕ
kstack_size = 4096

-- PROC_READY, PROC_ZOMBIE and PROC_WAITING; `fresh` is the 0 of a slot that was never used
pub data ProcState : Type 0 where
  fresh : ProcState
  ready : ProcState
  zombie : ProcState
  waiting : ProcState

abbrev pub is_ready : ProcState → Bool
is_ready fresh = false
is_ready ready = true
is_ready zombie = false
is_ready waiting = false

abbrev pub is_zombie : ProcState → Bool
is_zombie fresh = false
is_zombie ready = false
is_zombie zombie = true
is_zombie waiting = false

-- `struct process`
pub record Process : Type 0 where
  pub used : Bool
  pub pid : ℕ
  pub state : ProcState
  pub exit_code : ℤ
  pub parent : ℕ
  pub frame : ℕ
  pub cr3 : ℕ
  pub kstack : ℕ
  pub space : Space
  pub fds : ℕ → File

-- procs, current_idx, next_pid, nr_procs, the table g_fds points at (by its process), the registers that the
-- code sets, and the variables of the assembly
pub record Sched (W : Type 0) : Type 0 where
  pub procs : ℕ → Process
  pub current_idx : ℕ
  pub next_pid : ℕ
  pub nr_procs : ℤ
  pub fds_of : ℕ
  pub active_cr3 : ℕ
  pub syscall_kernel_rsp : ℕ
  pub syscall_frame_ptr : ℕ
  pub user_rsp_save : ℕ
  pub words : ℕ → ℕ
  pub world : W

-- what fork uses of the page tables and the page allocator
pub record Pages (W : Type 0) : Type 0 where
  pub page_pml4 : ℕ
  pub vmm_clone_pml4 : ℕ → W → ℕ × W
  pub page_alloc : W → ℕ × W

-- `for (p = kstack; p < kstack + KSTACK_SIZE; p++) *p = 0;`
unfoldable pub clear_stack : ℕ → (ℕ → ℕ) → ℕ → ℕ
clear_stack kstack words a = if leb kstack a && ltb a (kstack + kstack_size) then 0 else words a

-- words from an address on
unfoldable pub put_words : ℕ → List ℕ → (ℕ → ℕ) → ℕ → ℕ
put_words a [] words = words
put_words a (x ∷ xs) words = put_words (a + 8) xs (update words a x)

-- `next_pid++; if (next_pid <= 0) next_pid = 1;` on an int, which wraps to a negative number
abbrev pub pid_after : ℕ → ℕ
pid_after pid = if leb (2 ^ 31) (pid + 1) then 1 else pid + 1

-- the loop that looks for a ready process: the index where it stops, and whether it gave up
unfoldable pub next_ready : ℕ → ℕ → (ℕ → Process) → ℕ × Bool
next_ready zero i procs = ((i + 1) % max_procs, true)
next_ready (suc n) i procs =
    let rest = next_ready n ((i + 1) % max_procs) procs in
    if (procs ((i + 1) % max_procs)).used && is_ready (procs ((i + 1) % max_procs)).state
    then ((i + 1) % max_procs, false)
    else rest

module _ {W : Type 0} where
  unfoldable pub slot_alloc : Sched W → Option ℕ
  slot_alloc s = find_first max_procs 0 (λ i. not (s.procs i).used)

  abbrev pub has_pid : Sched W → ℕ → ℕ → Bool
  has_pid s pid i = (s.procs i).used && (s.procs i).pid == pid

  unfoldable pub proc_index : ℕ → Sched W → Option ℕ
  proc_index pid s = find_first max_procs 0 (has_pid s pid)

  abbrev pub pid_at : Option ℕ → ℕ → Sched W → Option ℕ × Sched W → Option ℕ × Sched W
  pid_at none pid s rest = (some pid, s)
  pid_at (some i) pid s rest = rest

  unfoldable pub pid_loop : ℕ → Sched W → Option ℕ × Sched W
  unfolding proc_index
  pid_loop zero s = (none, s)
  pid_loop (suc n) s =
      let t = record s { next_pid = pid_after s.next_pid } in
      pid_at (proc_index s.next_pid t) s.next_pid t (pid_loop n t)

  -- 65536 tries
  unfoldable pub pid_alloc : Sched W → Option ℕ × Sched W
  unfolding pid_loop
  pid_alloc s = pid_loop 65536 s

  unfoldable pub sched_init : Sched W → Sched W
  sched_init s = record s {
    procs = (λ i. if ltb i max_procs then record (s.procs i) { used = false } else s.procs i);
    current_idx = 0;
    next_pid = 1;
    nr_procs = pos 0;
  }

  unfoldable pub set_kernel_stack : ℕ → Sched W → Sched W
  set_kernel_stack kstack s = record s { syscall_kernel_rsp = add64 kstack kstack_size }

  abbrev pub set_proc : ℕ → Process → Sched W → Sched W
  set_proc i p s = record s { procs = update s.procs i p }

  -- the state with the tables and registers of the current process
  unfoldable pub sched_run : Sched W → Sched W
  unfolding set_kernel_stack
  sched_run s =
      let p = s.procs s.current_idx in
      set_kernel_stack p.kstack (record s {
        fds_of = s.current_idx;
        active_cr3 = if p.cr3 == 0 then s.active_cr3 else p.cr3;
      })

  abbrev pub save_frame : ℕ → Sched W → Sched W
  save_frame frame s =
      let i = s.current_idx in
      if (s.procs i).used then set_proc i (record (s.procs i) { frame = frame }) s else s

  unfoldable pub switch_to : ℕ → ℕ × Bool → Sched W → ℕ × Sched W
  unfolding sched_run
  switch_to frame (i, gave_up) s =
      let t = record s { current_idx = i } in
      if gave_up || i == s.current_idx then (frame, t) else ((s.procs i).frame, sched_run t)

  -- the frame to return to, and the state
  unfoldable pub sched_irq_return : ℕ → Sched W → ℕ × Sched W
  unfolding next_ready switch_to
  sched_irq_return frame s =
      let t = save_frame frame s in switch_to frame (next_ready max_procs t.current_idx t.procs) t
