-- ===== src/Sched/Reach.antt =====
-- The life of the process table as steps: what src/kernel/sched/sched.c does with it from sched_init on.
use swift_bsd.Prelude.{
  ℕ, ◌≡◌, inl, inr, sym, ◌∙◌, arith, Bool, true, Option, none, some, ◌==◌, ◌||◌, Bool-cases, ℤ,
}
use swift_bsd.Sched.{
  Sched, Pages, sched_init, save_frame, switch_to, sched_run, set_kernel_stack, sched_irq_return,
}
use swift_bsd.Sched.Calls.{proc_create, proc_fork, proc_exit, proc_wait, wait_for}
use swift_bsd.Sched.Pids.{UniquePids, Made-UniquePids, proc_create-Made, proc_fork-Made}

-- the states of the process table that the operations lead to, in any order
pub data Reached {W : Type 0} (pages : Pages W) : Sched W → Type 0 where
  boot : (s : Sched W) → Reached pages (sched_init s)
  create :
      (entry rsp cr3 kstack : ℕ) (s : Sched W)
      → Reached pages s
      → Reached pages (proc_create entry rsp cr3 kstack s).1
  fork : (s : Sched W) → Reached pages s → Reached pages (proc_fork pages s).1
  exit : (code : ℤ) (s : Sched W) → Reached pages s → Reached pages (proc_exit code s)
  wait : (s : Sched W) → Reached pages s → Reached pages (proc_wait s).1
  turn : (frame : ℕ) (s : Sched W) → Reached pages s → Reached pages (sched_irq_return frame s).1

module _ {W : Type 0} where
  -- Processes may only go out of use, and keep their pids.
  same_pids :
      (s t : Sched W)
      → UniquePids s
      → ((i : ℕ)
          → (t.procs i).used ≡ true
          → ((s.procs i).used ≡ true) × ((t.procs i).pid ≡ (s.procs i).pid))
      → UniquePids t
  unfolding UniquePids
  same_pids s t v same i j hi hj ui uj e =
      let (wi, pi) = same i ui in let (wj, pj) = same j uj in v i j hi hj wi wj (sym pi ∙ e ∙ pj)

  sched_init-UniquePids : (s : Sched W) → UniquePids (sched_init s)
  unfolding sched_init UniquePids
  sched_init-UniquePids s i j hi hj ui uj e = absurd (ground arith)

  proc_exit-UniquePids : (code : ℤ) (s : Sched W) → UniquePids s → UniquePids (proc_exit code s)
  unfolding proc_exit
  proc_exit-UniquePids code s v = same_pids s (proc_exit code s) v (λ i u.
      elim (Bool-cases (s.current_idx == i)) [ inl same ↦ ground arith | inr other ↦ ground arith ])

  wait_for-UniquePids :
      (s : Sched W) (dead child : Option ℕ) → UniquePids s → UniquePids (wait_for dead child s).1
  wait_for-UniquePids s (some k) child v =
      same_pids s (wait_for (some k) child s).1 v (λ i u. ground arith)
  wait_for-UniquePids s none none v = v
  wait_for-UniquePids s none (some k) v = v

  switch_to-UniquePids :
      (frame : ℕ) (r : ℕ × Bool) (s : Sched W) → UniquePids s → UniquePids (switch_to frame r s).1
  unfolding switch_to sched_run set_kernel_stack UniquePids
  switch_to-UniquePids frame (i, gave_up) s v = elim (Bool-cases (gave_up || i == s.current_idx)) [
    | inl stays ↦ rw stays v
    | inr goes ↦ rw goes v
  ]

  save_frame-UniquePids : (frame : ℕ) (s : Sched W) → UniquePids s → UniquePids (save_frame frame s)
  save_frame-UniquePids frame s v = same_pids s (save_frame frame s) v (λ i u. ground arith)

  -- In every state that the operations reach from sched_init on, no two processes in use have the same pid.
  pub Reached-UniquePids : (pages : Pages W) (s : Sched W) → Reached pages s → UniquePids s
  unfolding proc_wait sched_irq_return
  Reached-UniquePids pages _ (boot s) = sched_init-UniquePids s
  Reached-UniquePids pages _ (create entry rsp cr3 kstack s r) =
      Made-UniquePids s _ (Reached-UniquePids pages s r) (proc_create-Made entry rsp cr3 kstack s)
  Reached-UniquePids pages _ (fork s r) =
      Made-UniquePids s _ (Reached-UniquePids pages s r) (proc_fork-Made pages s)
  Reached-UniquePids pages _ (exit code s r) =
      proc_exit-UniquePids code s (Reached-UniquePids pages s r)
  Reached-UniquePids pages _ (wait s r) = wait_for-UniquePids s _ _ (Reached-UniquePids pages s r)
  Reached-UniquePids pages _ (turn frame s r) =
      switch_to-UniquePids frame _ (save_frame frame s)
        (save_frame-UniquePids frame s (Reached-UniquePids pages s r))
