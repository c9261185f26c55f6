-- ===== src/Scheduler/Tests.antt =====
-- Runs of the scheduler over a ring of three threads, the second of which is blocked.
use destin_x.Prelude.{ℕ, ◌≡◌, refl, false, [], ◌∷◌, arith, ◌==◌, if◌then◌else◌}
use destin_x.Thread.{ThreadState, Thread, Kernel}
use destin_x.Thread.Queue.{IsRing}
use destin_x.Scheduler.{scheduler_handler}
use destin_x.Scheduler.Search.{choose, state_of}
use destin_x.Scheduler.Switch.{Preempted, scheduler_handler-Preempted}

abbrev thread_at : ℕ → ThreadState → ℕ → ℕ → Thread
thread_at sp st v n = record {
  rsp = sp;
  tid = 0;
  state = st;
  kernel_stack_top = 0;
  process = 0;
  prev = v;
  next = n;
  next_blocked = 0;
}

abbrev busy : Kernel
busy = record {
  thread = λ t.
      if t == 1
      then thread_at 0 ThreadState.running 3 2
      else if t == 2
      then thread_at 20 ThreadState.blocked 1 3
      else if t == 3
      then thread_at 30 ThreadState.ready 2 1
      else thread_at 0 ThreadState.dead 0 0;
  process = λ p. record { cr3 = 0; ustacks_infos = 0; mmap_infos = 0 };
  current_thread = 1;
  ready_list_head = 1;
  dead_list_head = 0;
  us_list_head = 0;
  mmap_list_head = 0;
  cr3 = 0;
  task_switched = false;
  tss_rsp0 = 0;
  kernel_rsp = 0;
}

busy-IsRing : IsRing busy (1 ∷ 2 ∷ 3 ∷ [])
busy-IsRing = ground arith

skips_blocked : choose (state_of busy) (2 ∷ 3 ∷ []) 1 ≡ 3
unfolding choose
skips_blocked = refl

scheduler_handler-Preempted_example :
    Preempted busy 1 10
      (choose (state_of busy) (2 ∷ 3 ∷ []) 1)
      (1 ∷ 2 ∷ 3 ∷ [])
      (scheduler_handler 3 10 busy)
scheduler_handler-Preempted_example =
    scheduler_handler-Preempted 3 10 busy [] (2 ∷ 3 ∷ []) 2 (3 ∷ []) busy-IsRing refl refl
      (omega arith)
