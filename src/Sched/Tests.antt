-- ===== src/Sched/Tests.antt =====
-- Tests of src/kernel/sched/sched.c.
use swift_bsd.Prelude.{ℕ, ◌+◌, ◌≡◌, refl, true, false, arith, pos, if◌then◌else◌, ◌==◌, ◌||◌}
use swift_bsd.Fs.Vfs.{serial_ops}
use swift_bsd.User.Vma.{Space}
use swift_bsd.Sched.{
  Process, Sched, Pages, ready, zombie, sched_init, sched_irq_return, next_ready, switch_to,
  sched_run, set_kernel_stack,
}
use swift_bsd.Sched.Calls.{proc_create, proc_fork, build_irq_frame, new_process}
use swift_bsd.Sched.Frame.{build_irq_frame-past_stack}
use swift_bsd.Sched.Pids.{UniquePids}
use swift_bsd.Sched.Turn.{Turn, sched_irq_return-Turn}
use swift_bsd.Sched.Reach.{boot, create, fork, Reached-UniquePids}

abbrev no_memory : Space
no_memory = record {
  vmas =
      (λ i. record { start = 0; end = 0; prot = 0; flags = 0; fd = pos 0; foff = 0; used = false });
  vma_count = pos 0;
  heap_start = 0;
  heap_break = 0;
}

abbrev ready_process : ℕ → Process
ready_process i = record {
  used = true;
  pid = i + 1;
  state = ready;
  exit_code = pos 0;
  parent = 1;
  frame = 100 + i;
  cr3 = 0;
  kstack = 4096;
  space = no_memory;
  fds = (λ k. record { ops = serial_ops; priv = 0; pos = 0; flags = 0; refcount = 0 });
}

-- slots 0 and 5 hold processes that are ready, slot 3 one that has ended
abbrev three : Sched ℕ
three = record {
  procs = (λ i.
      if i == 3
      then record (ready_process i) { state = zombie }
      else record (ready_process i) { used = i == 0 || i == 5 });
  current_idx = 0;
  next_pid = 4;
  nr_procs = pos 3;
  fds_of = 0;
  active_cr3 = 0;
  syscall_kernel_rsp = 0;
  syscall_frame_ptr = 0;
  user_rsp_save = 0;
  words = (λ a. 0);
  world = 0;
}

abbrev pages : Pages ℕ
pages = record {
  page_pml4 = 8;
  vmm_clone_pml4 = (λ cr3 w. (w + 4096, w + 1));
  page_alloc = (λ w. (w + 4096, w + 1));
}

turn_of_five : (sched_irq_return 7 three).1.current_idx ≡ 5
unfolding sched_irq_return next_ready switch_to sched_run set_kernel_stack
turn_of_five = refl

sched_irq_return-Turn_example : Turn three 7 (sched_irq_return 7 three)
sched_irq_return-Turn_example = sched_irq_return-Turn 7 three (omega arith)

abbrev booted : Sched ℕ
booted = sched_init three

abbrev first : Sched ℕ
first = (proc_create 0x400000 0x800000 8 4096 booted).1

Reached-UniquePids_example : UniquePids (proc_fork pages first).1
Reached-UniquePids_example =
    Reached-UniquePids pages (proc_fork pages first).1
      (fork first (create 0x400000 0x800000 8 4096 booted (boot three)))

build_irq_frame-past_stack_example :
    ((build_irq_frame 0 4096 three).1.words 8192 ≡ three.words 32)
    × ((new_process 1 2 0x400000 0x800000 8 4096 three).words 8192 ≡ three.words 8192)
build_irq_frame-past_stack_example =
    build_irq_frame-past_stack three 4096 0 1 2 0x400000 0x800000 8 8192 (omega arith)
