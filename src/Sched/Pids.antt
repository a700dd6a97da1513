-- ===== src/Sched/Pids.antt =====
-- pid_alloc and the process table: no two processes in use have the same pid.
use swift_bsd.Prelude.{
  ℕ, zero, suc, ◌<◌, ◌≡◌, ◌≢◌, inl, inr, refl, ap, ◌∙◌, arith, Bool, true, false, Option, none,
  some, ◌==◌, if◌then◌else◌, update, find_first-none, Option-cases,
}
use swift_bsd.Sched.{
  Process, Sched, Pages, max_procs, slot_alloc, has_pid, proc_index, pid_after, pid_loop, pid_alloc,
}
use swift_bsd.Sched.Calls.{
  new_process, child_process, with_pid, with_slot, proc_create, fork_with, build_irq_frame,
  proc_fork,
}

module _ {W : Type 0} where
  -- No two processes in use have the same pid.
  unfoldable pub UniquePids : Sched W → Type 0
  UniquePids s =
      (i j : ℕ)
      → i < max_procs
      → j < max_procs
      → (s.procs i).used ≡ true
      → (s.procs j).used ≡ true
      → (s.procs i).pid ≡ (s.procs j).pid
      → i ≡ j

  pub Unused : Sched W → ℕ → Type 0
  Unused s pid = (i : ℕ) → i < max_procs → (s.procs i).used ≡ true → (s.procs i).pid ≢ pid

  proc_index-none : (pid : ℕ) (s : Sched W) → proc_index pid s ≡ none → Unused s pid
  unfolding proc_index Unused
  proc_index-none pid s e i p used at =
      let miss : has_pid s pid i ≡ false = find_first-none _ _ _ e i (omega arith) (omega arith) in
      absurd (ground arith)

  -- what pid_alloc gives
  pub Pid : Sched W → Option ℕ × Sched W → Type 0
  Pid s (none, t) = t.procs ≡ s.procs
  Pid s (some pid, t) = (t.procs ≡ s.procs) × Unused s pid

  pid_loop-Pid : (n : ℕ) (s : Sched W) → Pid s (pid_loop n s)
  unfolding pid_loop Pid Unused
  pid_loop-Pid zero s = refl
  pid_loop-Pid (suc n) s =
      let t : Sched W = record s { next_pid = pid_after s.next_pid } in
      elim (Option-cases (proc_index s.next_pid t)) [
        | inl free ↦ rw free (refl, proc_index-none s.next_pid t free)
        | inr (i, taken) ↦ rw taken (pid_loop-Pid n t)
      ]

  pub pid_alloc-Pid : (s : Sched W) → Pid s (pid_alloc s)
  unfolding pid_alloc
  pid_alloc-Pid s = pid_loop-Pid 65536 s

  -- A new process in a slot, with a pid that no process in use has.
  add-UniquePids :
      (s t : Sched W) (pid idx : ℕ) (p : Process)
      → UniquePids s
      → Unused s pid
      → p.pid ≡ pid
      → t.procs ≡ update s.procs idx p
      → UniquePids t
  unfolding UniquePids Unused
  add-UniquePids s t pid idx p v unused at e i j hi hj ui uj same =
      let ei : t.procs i ≡ update s.procs idx p i = ap (λ f. f i) e in
      let ej : t.procs j ≡ update s.procs idx p j = ap (λ f. f j) e in
      ground (arith, ei, ej, v i j hi hj, unused i hi, unused j hj)

  -- what a call that makes a process comes to: the table as it was, or with one process more
  pub Made : Sched W → Option ℕ × Sched W → Type 0
  Made s (none, t) = t.procs ≡ s.procs
  Made s (some pid, t) =
      Unused s pid × ((idx : ℕ) × (p : Process) × (p.pid ≡ pid) × (t.procs ≡ update s.procs idx p))

  with_pid-Made :
      (s : Sched W) (r : Option ℕ × Sched W) (idx : ℕ) (make : ℕ → Sched W → Sched W)
      (p : ℕ → Sched W → Process)
      → Pid s r
      → ((pid : ℕ) (t : Sched W) → (make pid t).procs ≡ update t.procs idx (p pid t))
      → ((pid : ℕ) (t : Sched W) → (p pid t).pid ≡ pid)
      → Made s (with_pid r (λ pid t. (some pid, make pid t)))
  unfolding Made Pid
  with_pid-Made s (none, t) idx make p h made pid_of = h
  with_pid-Made s (some pid, t) idx make p (same, unused) made pid_of =
      (unused, (idx, p pid t, pid_of pid t, made pid t ∙ ap (λ f. update f idx (p pid t)) same))

  with_slot-Made :
      (s : Sched W) (slot : Option ℕ) (next : ℕ → Option ℕ × Sched W)
      → ((idx : ℕ) → Made s (next idx))
      → Made s (with_slot slot s next)
  unfolding Made
  with_slot-Made s none next h = refl
  with_slot-Made s (some idx) next h = h idx

  pub Made-UniquePids :
      (s : Sched W) (r : Option ℕ × Sched W) → UniquePids s → Made s r → UniquePids r.1
  unfolding Made UniquePids
  Made-UniquePids s (none, t) v e i j hi hj ui uj same =
      let at : (k : ℕ) → t.procs k ≡ s.procs k = λ k. ap (λ f. f k) e in
      ground (arith, at i, at j, v i j hi hj)
  Made-UniquePids s (some pid, t) v (unused, (idx, p, at, made)) i j hi hj ui uj same =
      add-UniquePids s t pid idx p v unused at made i j hi hj ui uj same

  pub proc_create-Made :
      (entry rsp cr3 kstack : ℕ) (s : Sched W) → Made s (proc_create entry rsp cr3 kstack s)
  unfolding proc_create new_process
  proc_create-Made entry rsp cr3 kstack s = with_slot-Made s (slot_alloc s) _ (λ idx.
      with_pid-Made s (pid_alloc s) idx (λ pid t. new_process idx pid entry rsp cr3 kstack t) _
        (pid_alloc-Pid s) (λ pid t. refl) (λ pid t. refl))

  fork_with-Made : (child_cr3 kstack : ℕ) (s : Sched W) → Made s (fork_with child_cr3 kstack s)
  unfolding fork_with child_process build_irq_frame Made Pid Unused
  fork_with-Made child_cr3 kstack s =
      let t : Sched W = (build_irq_frame 0 kstack s).1 in
      let frame : ℕ = (build_irq_frame 0 kstack s).0 in
      with_slot-Made t (slot_alloc t) _ (λ idx.
        with_pid-Made t (pid_alloc t) idx (λ pid u. child_process idx pid child_cr3 kstack frame u)
          _ (pid_alloc-Pid t) (λ pid u. refl) (λ pid u. refl))

  fork_with-Made_world :
      (child_cr3 kstack : ℕ) (s : Sched W) (w : W)
      → Made s (fork_with child_cr3 kstack (record s { world = w }))
  unfolding Made Unused
  fork_with-Made_world child_cr3 kstack s w =
      fork_with-Made child_cr3 kstack (record s { world = w })

  if-Made :
      (s : Sched W) (b : Bool) (x y : Option ℕ × Sched W)
      → Made s x
      → Made s y
      → Made s (if b then x else y)
  if-Made s true x y hx hy = hx
  if-Made s false x y hx hy = hy

  no_process : (s : Sched W) (w : W) → Made s (none, record s { world = w })
  unfolding Made
  no_process s w = refl

  pub proc_fork-Made : (pages : Pages W) (s : Sched W) → Made s (proc_fork pages s)
  unfolding proc_fork
  proc_fork-Made pages s =
      let cr3 = (s.procs s.current_idx).cr3 in
      let cloned : ℕ × W =
        pages.vmm_clone_pml4 (if cr3 == 0 then pages.page_pml4 else cr3) s.world in
      let stack : ℕ × W = pages.page_alloc cloned.1 in
      if-Made s (cloned.0 == 0) _ _ (no_process s cloned.1) (
        if-Made s (stack.0 == 0) _ _ (no_process s stack.1)
          (fork_with-Made_world cloned.0 stack.0 s stack.1))
