-- ===== src/Sched/Calls.antt =====
-- The life of a process in src/kernel/sched/sched.c: proc_create, build_irq_frame and proc_fork, proc_exit,
-- proc_wait.
use swift_bsd.Prelude.{
  ℕ, ◌+◌, ◌-◌, ◌*◌, Bool, true, false, Option, none, some, List, [], ◌∷◌, ◌==◌, ltb, ◌&&◌,
  if◌then◌else◌, find_first, update, ℤ, pos, increment, decrement,
}
use swift_bsd.Fs.Vfs.{vfs_init}
use swift_bsd.User.Vma.{Space, vma_max}
use swift_bsd.Sched.{
  ready, zombie, is_zombie, Sched, Pages, max_procs, kstack_size, clear_stack, put_words,
  slot_alloc, pid_alloc, set_proc,
}

abbrev pub irq_frame_at : ℕ → ℕ
irq_frame_at child_kstack = child_kstack + kstack_size - 15 * 8 - 2 * 8

-- the frame of proc_create
abbrev pub first_words : ℕ → ℕ → List ℕ
first_words entry rsp =
    0 ∷ 0 ∷ 0 ∷ 0 ∷ 0 ∷ 0 ∷ 0 ∷ 0 ∷ 0 ∷ 0 ∷ 0 ∷ 0 ∷ 0 ∷ 0 ∷ 0 ∷ 0 ∷ 0 ∷ entry ∷ 0x23 ∷ 0x202 ∷ rsp
    ∷ 0x1B ∷ []

-- the memory of a new process
abbrev pub new_space : Space → Space
new_space space = record {
  vmas = (λ i. if ltb i vma_max then record (space.vmas i) { used = false } else space.vmas i);
  vma_count = pos 0;
  heap_start = 0x10000000;
  heap_break = 0x10000000;
}

-- what a round of proc_wait comes to: a child that has ended with its exit code, -1, or another round
-- after sched_yield
pub data Waited : Type 0 where
  reaped : ℕ → ℤ → Waited
  no_child : Waited
  yields : Waited

module _ {W : Type 0} where
  -- the words of build_irq_frame, from the frame that the system call entry left
  abbrev pub irq_words : Sched W → ℕ → List ℕ
  irq_words s rax_val =
      let slot : ℕ → ℕ = λ at. s.words (s.syscall_frame_ptr + at) in
      rax_val
      ∷ 0
      ∷ slot 32
      ∷ slot 40
      ∷ slot 56
      ∷ slot 48
      ∷ 0
      ∷ slot 24
      ∷ slot 16
      ∷ slot 8
      ∷ slot 0
      ∷ 0
      ∷ 0
      ∷ 0
      ∷ 0
      ∷ 0
      ∷ 0
      ∷ slot 32
      ∷ 0x23
      ∷ 0x202
      ∷ s.user_rsp_save
      ∷ 0x1B
      ∷ []

  unfoldable pub build_irq_frame : ℕ → ℕ → Sched W → ℕ × Sched W
  unfolding put_words
  build_irq_frame rax_val child_kstack s = (
    irq_frame_at child_kstack,
    record s { words = put_words (irq_frame_at child_kstack) (irq_words s rax_val) s.words },
  )

  unfoldable pub new_process : ℕ → ℕ → ℕ → ℕ → ℕ → ℕ → Sched W → Sched W
  unfolding vfs_init put_words clear_stack
  new_process idx pid entry rsp cr3 kstack s =
      let old = s.procs idx in
      let frame = kstack + kstack_size - 22 * 8 in
      record s {
        words = put_words frame (first_words entry rsp) (clear_stack kstack s.words);
        procs = update s.procs idx (record {
          used = true;
          pid = pid;
          state = ready;
          exit_code = pos 0;
          parent = 1;
          frame = frame;
          cr3 = cr3;
          kstack = kstack;
          space = new_space old.space;
          fds = vfs_init old.fds;
        });
        fds_of = idx;
        nr_procs = increment s.nr_procs;
      }

  abbrev pub with_pid : Option ℕ × Sched W → (ℕ → Sched W → Option ℕ × Sched W) → Option ℕ × Sched W
  with_pid (none, s) next = (none, s)
  with_pid (some pid, s) next = next pid s

  abbrev pub with_slot : Option ℕ → Sched W → (ℕ → Option ℕ × Sched W) → Option ℕ × Sched W
  with_slot none s next = (none, s)
  with_slot (some idx) s next = next idx

  -- `none` is -1
  unfoldable pub proc_create : ℕ → ℕ → ℕ → ℕ → Sched W → Option ℕ × Sched W
  unfolding slot_alloc pid_alloc new_process
  proc_create entry rsp cr3 kstack s = with_slot (slot_alloc s) s (λ idx.
      with_pid (pid_alloc s) (λ pid t. (some pid, new_process idx pid entry rsp cr3 kstack t)))

  unfoldable pub child_process : ℕ → ℕ → ℕ → ℕ → ℕ → Sched W → Sched W
  child_process idx pid child_cr3 kstack child_frame s =
      let from = s.procs s.current_idx in
      record s {
        procs = update s.procs idx (record from {
          used = true;
          pid = pid;
          state = ready;
          exit_code = pos 0;
          parent = from.pid;
          cr3 = child_cr3;
          kstack = kstack;
          frame = child_frame;
        });
        nr_procs = increment s.nr_procs;
      }

  unfoldable pub fork_with : ℕ → ℕ → Sched W → Option ℕ × Sched W
  unfolding slot_alloc pid_alloc child_process build_irq_frame
  fork_with child_cr3 kstack s =
      let (child_frame, t) = build_irq_frame 0 kstack s in
      with_slot (slot_alloc t) t (λ idx.
        with_pid (pid_alloc t)
          (λ pid u. (some pid, child_process idx pid child_cr3 kstack child_frame u)))

  unfoldable pub proc_fork : Pages W → Sched W → Option ℕ × Sched W
  unfolding fork_with
  proc_fork pages s =
      let cr3 = (s.procs s.current_idx).cr3 in
      let parent_cr3 = if cr3 == 0 then pages.page_pml4 else cr3 in
      let (child_cr3, w) = pages.vmm_clone_pml4 parent_cr3 s.world in
      let (kstack, x) = pages.page_alloc w in
      if child_cr3 == 0
      then (none, record s { world = w })
      else if kstack == 0
      then (none, record s { world = x })
      else fork_with child_cr3 kstack (record s { world = x })

  -- proc_exit up to the loop that waits for the timer
  unfoldable pub proc_exit : ℤ → Sched W → Sched W
  proc_exit code s =
      let i = s.current_idx in
      set_proc i (record (s.procs i) { exit_code = code; state = zombie }) s

  abbrev pub is_dead_child : Sched W → ℕ → Bool
  is_dead_child s i =
      let my_pid = (s.procs s.current_idx).pid in
      (s.procs i).used && is_zombie (s.procs i).state && (s.procs i).parent == my_pid

  abbrev pub is_child : Sched W → ℕ → Bool
  is_child s i = (s.procs i).used && (s.procs i).parent == (s.procs s.current_idx).pid

  abbrev pub wait_for : Option ℕ → Option ℕ → Sched W → Waited × Sched W
  wait_for (some i) child s = (
    reaped (s.procs i).pid (s.procs i).exit_code,
    record s {
      procs = update s.procs i (record (s.procs i) { used = false });
      nr_procs = decrement s.nr_procs;
    },
  )
  wait_for none none s = (no_child, s)
  wait_for none (some i) s = (yields, s)

  unfoldable pub proc_wait : Sched W → Waited × Sched W
  proc_wait s =
      wait_for (find_first max_procs 0 (is_dead_child s)) (find_first max_procs 0 (is_child s)) s
