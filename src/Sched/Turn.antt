-- ===== src/Sched/Turn.antt =====
-- sched_irq_return: the turns of the processes.
use swift_bsd.Prelude.{
  ℕ, zero, suc, ◌+◌, ◌%◌, ◌≤◌, ◌<◌, ◌≡◌, ◌≢◌, ◌⊎◌, inl, inr, refl, sym, ap, ◌∙◌, arith, Bool, true,
  false, ◌==◌, ◌&&◌, add64, Bool-cases, subst,
}
use swift_bsd.Sched.{
  Process, Sched, is_ready, max_procs, kstack_size, next_ready, save_frame, switch_to, sched_run,
  set_kernel_stack, sched_irq_return,
}

abbrev pub runnable : Process → Bool
runnable p = p.used && is_ready p.state

-- the process `k` places behind index `i` in the circle
abbrev pub behind : ℕ → ℕ → ℕ
behind i k = (i + k) % max_procs

-- what the search through `n` processes finds
Search : ℕ → ℕ → (ℕ → Process) → ℕ × Bool → Type 0
Search n i procs r =
    ((k : ℕ) × (0 < k)
      × (k ≤ n)
      × (r ≡ (behind i k, false))
      × (runnable (procs (behind i k)) ≡ true)
      × ((m : ℕ) → 0 < m → m < k → runnable (procs (behind i m)) ≡ false))
    ⊎ ((r.1 ≡ true) × ((m : ℕ) → 0 < m → m ≤ n → runnable (procs (behind i m)) ≡ false))

shift :
    (i k : ℕ) (procs : ℕ → Process)
    → runnable (procs (behind i 1)) ≡ false
    → ((m : ℕ) → 0 < m → m < k → runnable (procs (behind (behind i 1) m)) ≡ false)
    → (m : ℕ) → 0 < m
    → m < suc k
    → runnable (procs (behind i m)) ≡ false
shift i k procs miss before zero low high = absurd (omega arith)
shift i k procs miss before (suc zero) low high = miss
shift i k procs miss before (suc (suc m)) low high =
    let step : behind (behind i 1) (suc m) ≡ behind i (suc (suc m)) = omega arith in
    subst (λ j. runnable (procs j) ≡ false) step (before (suc m) (omega arith) (omega arith))

next_ready-Search : (n i : ℕ) (procs : ℕ → Process) → Search n i procs (next_ready n i procs)
unfolding next_ready Search
next_ready-Search zero i procs = inr (refl, λ m p q. absurd (omega arith))
next_ready-Search (suc n) i procs = elim (Bool-cases (runnable (procs (behind i 1)))) [
  | inl hit ↦ rw hit (inl (1, omega arith, omega arith, refl, hit, λ m p q. absurd (omega arith)))
  | inr miss ↦ rw miss (elim (next_ready-Search n (behind i 1) procs) [
    | inl (k, low, high, at, hit, before) ↦
        let step : behind (behind i 1) k ≡ behind i (suc k) = omega arith in
        inl (
          suc k,
          omega arith,
          omega arith,
          at ∙ ap (λ j. (j, false)) step,
          subst (λ j. runnable (procs j) ≡ true) step hit,
          shift i k procs miss before,
        )
    | inr (gave_up, all) ↦ inr (
      gave_up,
      λ m low high. shift i (suc n) procs miss (λ j p q. all j p (omega arith)) m low (omega arith),
    )
  ])
]

module _ {W : Type 0} where
  -- The first process behind the current one that can run has the turn, or there is none.
  pub Turn : Sched W → ℕ → ℕ × Sched W → Type 0
  Turn s frame r =
      ((k : ℕ) × (0 < k)
        × (k < max_procs)
        × (runnable (s.procs (behind s.current_idx k)) ≡ true)
        × ((m : ℕ) → 0 < m → m < k → runnable (s.procs (behind s.current_idx m)) ≡ false)
        × (r.1.current_idx ≡ behind s.current_idx k)
        × (r.0 ≡ (s.procs (behind s.current_idx k)).frame)
        × (r.1.fds_of ≡ behind s.current_idx k)
        × (r.1.syscall_kernel_rsp ≡ add64 (s.procs (behind s.current_idx k)).kstack kstack_size))
      ⊎ ((r.0 ≡ frame)
          × ((m : ℕ) → 0 < m → m < max_procs → runnable (s.procs (behind s.current_idx m)) ≡ false))

  save_frame-current : (frame : ℕ) (s : Sched W) → (save_frame frame s).current_idx ≡ s.current_idx
  save_frame-current frame s = ground arith

  save_frame-same :
      (frame : ℕ) (s : Sched W) (j : ℕ)
      → j ≢ s.current_idx
      → (save_frame frame s).procs j ≡ s.procs j
  save_frame-same frame s j ne = ground arith

  switch_to-other :
      (frame : ℕ) (t : Sched W) (j : ℕ)
      → j ≢ t.current_idx
      → switch_to frame (j, false) t ≡ ((t.procs j).frame, sched_run (record t { current_idx = j }))
  unfolding switch_to sched_run set_kernel_stack
  switch_to-other frame t j ne = ground arith

  switch_to-same : (frame : ℕ) (t : Sched W) → (switch_to frame (t.current_idx, false) t).0 ≡ frame
  unfolding switch_to sched_run set_kernel_stack
  switch_to-same frame t = ground arith

  switch_to-gave_up : (frame : ℕ) (t : Sched W) (i : ℕ) → (switch_to frame (i, true) t).0 ≡ frame
  unfolding switch_to
  switch_to-gave_up frame t i = refl

  module _ (frame : ℕ) (s t : Sched W) (p : s.current_idx < max_procs)
      (e : t.current_idx ≡ s.current_idx)
      (same : (j : ℕ) → j ≢ s.current_idx → t.procs j ≡ s.procs j) where
    place : (m : ℕ) → behind t.current_idx m ≡ behind s.current_idx m
    place m = ap (λ c. behind c m) e

    same_behind :
        (m : ℕ)
        → 0 < m
        → m < max_procs
        → t.procs (behind t.current_idx m) ≡ s.procs (behind s.current_idx m)
    same_behind m low high =
        ap t.procs (place m) ∙ same (behind s.current_idx m) (λ at. absurd (omega arith))

    not_before :
        (n : ℕ)
        → n ≤ max_procs
        → ((m : ℕ) → 0 < m → m < n → runnable (t.procs (behind t.current_idx m)) ≡ false)
        → (m : ℕ) → 0 < m
        → m < n
        → runnable (s.procs (behind s.current_idx m)) ≡ false
    not_before n q before m low high =
        ap runnable (sym (same_behind m low (omega arith))) ∙ before m low high

    switched :
        (k : ℕ)
        → 0 < k
        → k < max_procs
        → switch_to frame (behind t.current_idx k, false) t ≡ (
          (t.procs (behind t.current_idx k)).frame,
          sched_run (record t { current_idx = behind t.current_idx k }),
        )
    switched k low high =
        switch_to-other frame t (behind t.current_idx k) (λ at. absurd (omega arith))

    switch_to-Turn :
        (r : ℕ × Bool)
        → Search max_procs t.current_idx t.procs r
        → Turn s frame (switch_to frame r t)
    unfolding Turn Search sched_run set_kernel_stack
    switch_to-Turn (i, gave_up) (inl (k, low, high, at, hit, before)) =
        subst (λ q. Turn s frame (switch_to frame q t)) (sym at)
          (elim (Bool-cases (k == max_procs)) [
            | inl all ↦
                let last : k ≡ max_procs = ground arith in
                let circle : behind t.current_idx k ≡ t.current_idx = omega arith in
                inr (
                  subst (λ j. (switch_to frame (j, false) t).0 ≡ frame) (sym circle)
                      (switch_to-same frame t),
                  not_before max_procs (omega arith) (λ m p q. before m p (omega arith)),
                )
            | inr some_less ↦
                let less : k < max_procs = ground arith in
                let there = same_behind k low less in
                inl (
                  k,
                  low,
                  less,
                  ap runnable (sym there) ∙ hit,
                  not_before k (omega arith) before,
                  ap (λ r. r.1.current_idx) (switched k low less) ∙ place k,
                  ap (λ r. r.0) (switched k low less) ∙ ap (λ q. q.frame) there,
                  ap (λ r. r.1.fds_of) (switched k low less) ∙ place k,
                  ap (λ r. r.1.syscall_kernel_rsp) (switched k low less)
                      ∙ ap (λ q. add64 q.kstack kstack_size) there,
                )
          ])
    switch_to-Turn (i, gave_up) (inr (gave, all)) =
        subst (λ q. Turn s frame (switch_to frame (i, q) t)) (sym gave)
          (inr (
            switch_to-gave_up frame t i,
            not_before max_procs (omega arith) (λ m low high. all m low (omega arith)),
          ))

  -- sched_irq_return gives the turn to the first process behind the current one, in the circle of slots, that
  -- is in use and ready: it returns that process's frame and makes its index, descriptors and kernel stack the
  -- current ones. If no other process is in use and ready it returns the frame it was given.
  pub sched_irq_return-Turn :
      (frame : ℕ) (s : Sched W)
      → s.current_idx < max_procs
      → Turn s frame (sched_irq_return frame s)
  unfolding sched_irq_return
  sched_irq_return-Turn frame s p =
      let t = save_frame frame s in
      switch_to-Turn frame s t p (save_frame-current frame s) (save_frame-same frame s)
        (next_ready max_procs t.current_idx t.procs)
        (next_ready-Search max_procs t.current_idx t.procs)
