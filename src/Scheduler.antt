-- ===== src/Scheduler.antt =====
-- The scheduler, kernel/scheduler/scheduler.c: `scheduler_handler` chooses the thread that runs
-- after a timer interrupt or a `yield`. `init_kernel_gs_base` writes a constant to a register of
-- the processor and is left out; the assembly that sets the TS bit of `cr0` is `task_switched`.
pub mod Search
pub mod Switch
pub mod Wakeup
pub mod Blocked
mod Tests
use destin_x.Prelude.{
  ℕ, zero, suc, ◌+◌, ◌-◌, ◌*◌, ◌/◌, ◌%◌, ◌^◌, ◌≤◌, ◌<◌, ◌≡◌, ◌≢◌, ◌↔◌, ◌⊎◌, refl, sym, ap, ◌∙◌, inl,
  inr, Bool, true, false, not, ◌&&◌, ◌||◌, Option, none, some, List, [], ◌∷◌, ◌++◌, map, arith, ltb,
  leb, ◌==◌, if◌then◌else◌, update, add64, sub64, Bool-cases, Option-cases, ==_iff, ==_self, ltb→lt,
  lt→ltb, length, get_elem?, length-append, bit_and, bit_or, bit_xor, has, ◌∈◌, ◌∉◌, has-append,
}
use destin_x.Thread.{
  ThreadState, Thread, Process, Kernel, set_thread, set_state, set_next, next_of, dequeue_thread,
}

-- How a call ends: it returns the stack pointer to load, or loops for ever (`for(;;);`), or the fuel of the search ran out.
pub data Handled : Type 0 where
  returns : ℕ → Kernel → Handled
  hangs : Kernel → Handled
  out_of_fuel : Handled

abbrev pub runnable : ThreadState → Bool
runnable ThreadState.ready = true
runnable ThreadState.running = true
runnable ThreadState.blocked = false
runnable ThreadState.dead = false

abbrev pub stopped : ThreadState → Bool
stopped ThreadState.ready = false
stopped ThreadState.running = false
stopped ThreadState.blocked = true
stopped ThreadState.dead = true

-- The `while` loop: `some (some t)` if it ends at `t`, `some none` if it comes round to `start`.
unfoldable pub find_next : ℕ → ℕ → ℕ → Kernel → Option (Option ℕ)
find_next zero start t k = none
find_next (suc fuel) start t k =
    let n = next_of k t in
    let rest = find_next fuel start n k in
    if runnable (k.thread t).state then some (some t) else if n == start then some none else rest

-- What becomes of the thread that was running.
unfoldable pub leave : ThreadState → ℕ → ℕ → Kernel → Kernel
leave ThreadState.dead old old_rsp k =
    let k1 = dequeue_thread old k in
    record (set_next old k1.dead_list_head k1) { dead_list_head = old }
leave ThreadState.blocked old old_rsp k =
    dequeue_thread old (set_thread old (record (k.thread old) { rsp = old_rsp }) k)
leave ThreadState.ready old old_rsp k =
    set_thread old (record (k.thread old) { rsp = old_rsp; state = ThreadState.ready }) k
leave ThreadState.running old old_rsp k =
    set_thread old (record (k.thread old) { rsp = old_rsp; state = ThreadState.ready }) k

-- The lists of areas and the address space follow the process. A process at address 0 is none.
unfoldable pub switch_process : ℕ → ℕ → Kernel → Kernel
switch_process old_process next_process k =
    let saved : Kernel = if old_process == 0 then k else record k {
      process = update k.process old_process (record (k.process old_process) {
        ustacks_infos = k.us_list_head;
        mmap_infos = k.mmap_list_head;
      });
    } in
    let p = saved.process next_process in
    let entered : Kernel = record saved {
      us_list_head = p.ustacks_infos;
      mmap_list_head = p.mmap_infos;
      cr3 = if saved.cr3 == p.cr3 then saved.cr3 else p.cr3;
    } in
    let none_left : Kernel = record saved { us_list_head = 0; mmap_list_head = 0 } in
    let switched : Kernel = if next_process == 0 then none_left else entered in
    if old_process == next_process then k else switched

-- The switch to the chosen thread.
unfoldable pub enter : ℕ → ℕ → Kernel → Handled
enter old next k =
    let k1 : Kernel = record (set_state next ThreadState.running k) { current_thread = next } in
    let k2 = switch_process (k1.thread old).process (k1.thread next).process k1 in
    let top = (k2.thread k2.current_thread).kernel_stack_top in
    returns (k2.thread next).rsp (record k2 { tss_rsp0 = top; kernel_rsp = top })

-- The search from `start` on, and what follows it.
unfoldable pub dispatch : ℕ → ℕ → ℕ → ℕ → Kernel → Handled
dispatch fuel old old_rsp start k =
    if start == 0 then returns old_rsp k else elim (find_next fuel start start k) [
      | none ↦ out_of_fuel
      | some none ↦
          if stopped (k.thread old).state
          then hangs k
          else returns old_rsp (set_state old ThreadState.running k)
      | some (some next) ↦ enter old next k
    ]

unfoldable pub scheduler_handler : ℕ → ℕ → Kernel → Handled
scheduler_handler fuel old_rsp k =
    let old = k.current_thread in
    let k1 = leave (k.thread old).state old old_rsp (record k { task_switched = true }) in
    let start = if stopped (k1.thread old).state then k1.ready_list_head else next_of k old in
    if (k.ready_list_head == 0) || (next_of k k.ready_list_head == k.ready_list_head)
    then returns old_rsp k
    else dispatch fuel old old_rsp start k1

-- `thread_exit`: the state, and the `yield` that calls `scheduler_handler` with the saved stack pointer.
unfoldable pub thread_exit : ℕ → ℕ → Kernel → Handled
thread_exit fuel rsp k = scheduler_handler fuel rsp (set_state k.current_thread ThreadState.dead k)
