-- ===== src/Mutex/Tests.antt =====
-- Two threads and one mutex: the first takes it, the second waits, the first hands it over.
use destin_x.Prelude.{ℕ, refl, false, [], ◌∷◌, arith, ◌==◌, if◌then◌else◌}
use destin_x.Thread.{ThreadState, Thread, Kernel}
use destin_x.Scheduler
use destin_x.Scheduler.{Handled, scheduler_handler}
use destin_x.Scheduler.Blocked.{KeepsBlocked, scheduler_handler-KeepsBlocked, runnable-blocked}
use destin_x.Mutex.{Mutex, LockResult, mutex_init, mutex_lock, mutex_unlock}
use destin_x.Mutex
use destin_x.Mutex.Waiters.{IsWaiting, Locked, mutex_lock-Locked}
use destin_x.Mutex.Wake.{Unlocked, mutex_unlock-Unlocked}
use destin_x.Mutex.System.{System, Step, Run, AtMostOne, mutual_exclusion}

abbrev thread_at : ThreadState → ℕ → Thread
thread_at st n = record {
  rsp = 0;
  tid = 0;
  state = st;
  kernel_stack_top = 0;
  process = 0;
  prev = n;
  next = n;
  next_blocked = 0;
}

abbrev pair : ThreadState → ThreadState → Kernel
pair one two = record {
  thread = λ t.
      if t == 1
      then thread_at one 2
      else if t == 2
      then thread_at two 1
      else thread_at ThreadState.dead 0;
  process = λ p. record { cr3 = 0; ustacks_infos = 0; mmap_infos = 0 };
  current_thread = 1;
  ready_list_head = 1;
  dead_list_head = 0;
  us_list_head = 0;
  mmap_list_head = 0;
  cr3 = 0;
  task_switched = false;
  tss_rsp0 = 0;
  kernel_rsp = 0;
}

abbrev before : Kernel
before = pair ThreadState.running ThreadState.ready

-- The mutex with thread 2 waiting, and the kernel in that state.
abbrev wanted : Mutex
wanted = record { locked = 1; blocked_head = 2; blocked_tail = 2 }

abbrev later : Kernel
later = record (pair ThreadState.running ThreadState.blocked) {
  thread = λ t. if t == 1 then thread_at ThreadState.running 1 else thread_at ThreadState.blocked 0;
}

abbrev taken : Mutex
taken = record { locked = 1; blocked_head = 0; blocked_tail = 0 }

nobody-IsWaiting : IsWaiting taken before []
nobody-IsWaiting = record {
  head = refl;
  tail = refl;
  links = tt;
  distinct = tt;
  not_null = refl;
  blocked = λ q i. ground (arith, i);
  locked = λ e. refl;
}

second-IsWaiting : IsWaiting wanted later (2 ∷ [])
second-IsWaiting = record {
  head = refl;
  tail = refl;
  links = (refl, tt);
  distinct = (refl, tt);
  not_null = refl;
  blocked = λ q i. ground (arith, i);
  locked = λ e. absurd (omega (arith, e));
}

mutex_lock-Locked_example : Locked taken before [] (mutex_lock taken before)
mutex_lock-Locked_example = mutex_lock-Locked taken before [] nobody-IsWaiting (omega arith) refl

mutex_unlock-Unlocked_example :
    Unlocked wanted later (2 ∷ []) (mutex_unlock wanted later).0 (mutex_unlock wanted later).1
mutex_unlock-Unlocked_example = mutex_unlock-Unlocked wanted later (2 ∷ []) second-IsWaiting

scheduler_handler-KeepsBlocked_example : KeepsBlocked later (scheduler_handler 3 10 later)
scheduler_handler-KeepsBlocked_example = scheduler_handler-KeepsBlocked 3 10 later

abbrev kernel_of : Handled → Kernel
kernel_of (Handled.returns sp k) = k
kernel_of (Handled.hangs k) = k
kernel_of Handled.out_of_fuel = before

abbrev waited : LockResult → Mutex × Kernel
waited (LockResult.acquired m k) = (m, k)
waited (LockResult.yields m k) = (m, k)

abbrev switched : Kernel
switched = kernel_of (scheduler_handler 3 10 before)

abbrev pending : Mutex × Kernel
pending = waited (mutex_lock taken switched)

abbrev start : System
start = record { mutex = mutex_init wanted; kernel = before; inside = []; critical = [] }

first_locks : Step start (record { mutex = taken; kernel = before; inside = []; critical = 1 ∷ [] })
unfolding mutex_lock mutex_init
first_locks =
    Step.locks (mutex_init wanted) taken before before [] [] (omega arith)
      (runnable-blocked ThreadState.running refl) refl

second_runs :
    Step
      (record { mutex = taken; kernel = before; inside = []; critical = 1 ∷ [] })
      (record { mutex = taken; kernel = switched; inside = []; critical = 1 ∷ [] })
unfolding scheduler_handler Scheduler.dispatch Scheduler.leave Scheduler.find_next Scheduler.enter
    Scheduler.switch_process
second_runs = Step.switches taken before switched [] (1 ∷ []) 3 10 0 refl

second_waits :
    Step
      (record { mutex = taken; kernel = switched; inside = []; critical = 1 ∷ [] })
      (record { mutex = pending.0; kernel = pending.1; inside = 2 ∷ []; critical = 1 ∷ [] })
unfolding scheduler_handler Scheduler.dispatch Scheduler.leave Scheduler.find_next Scheduler.enter
    Scheduler.switch_process mutex_lock Mutex.wait
second_waits =
    Step.waits taken pending.0 switched pending.1 [] (1 ∷ []) (omega arith)
      (runnable-blocked ThreadState.running refl) refl

first_unlocks :
    Step
      (record { mutex = taken; kernel = before; inside = []; critical = 1 ∷ [] })
      (record {
        mutex = (mutex_unlock taken before).0;
        kernel = (mutex_unlock taken before).1;
        inside = [];
        critical = [];
      })
unfolding Mutex.System.without
first_unlocks = Step.unlocks taken before [] (1 ∷ []) refl

mutual_exclusion_example : AtMostOne pending.0 (1 ∷ [])
mutual_exclusion_example =
    mutual_exclusion wanted before
      (record { mutex = pending.0; kernel = pending.1; inside = 2 ∷ []; critical = 1 ∷ [] })
      (Run.more _ _ _ (Run.more _ _ _ (Run.more _ _ _ (Run.done start) first_locks) second_runs)
        second_waits)
