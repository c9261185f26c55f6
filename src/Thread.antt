-- ===== src/Thread.antt =====
-- Threads and the ready queue, kernel/scheduler/thread.c: a circular doubly linked list of the
-- threads through their `next` and `prev` fields. Threads and processes are reached by address.
pub mod Ring
pub mod Create
pub mod Frame
pub mod Spawn
pub mod Queue
mod Tests
use destin_x.Prelude.{
  ℕ, zero, suc, ◌+◌, ◌-◌, ◌*◌, ◌/◌, ◌%◌, ◌^◌, ◌≤◌, ◌<◌, ◌≡◌, ◌≢◌, ◌↔◌, ◌⊎◌, refl, sym, ap, ◌∙◌, inl,
  inr, Bool, true, false, not, ◌&&◌, ◌||◌, Option, none, some, List, [], ◌∷◌, ◌++◌, map, arith, ltb,
  leb, ◌==◌, if◌then◌else◌, update, add64, sub64, Bool-cases, Option-cases, ==_iff, ==_self, ltb→lt,
  lt→ltb, length, get_elem?, length-append, bit_and, bit_or, bit_xor, has, ◌∈◌, ◌∉◌, has-append,
}

-- `thread_state_t`
pub data ThreadState : Type 0 where
  ready running blocked dead : ThreadState

pub record Thread : Type 0 where
  pub rsp : ℕ
  pub tid : ℕ
  pub state : ThreadState
  pub kernel_stack_top : ℕ
  pub process : ℕ
  pub prev : ℕ
  pub next : ℕ
  pub next_blocked : ℕ

pub record Process : Type 0 where
  pub cr3 : ℕ
  pub ustacks_infos : ℕ
  pub mmap_infos : ℕ

-- The globals of the scheduler, `cr3`, and what the processor reads of the task state.
pub record Kernel : Type 0 where
  pub thread : ℕ → Thread
  pub process : ℕ → Process
  pub current_thread : ℕ
  pub ready_list_head : ℕ
  pub dead_list_head : ℕ
  pub us_list_head : ℕ
  pub mmap_list_head : ℕ
  pub cr3 : ℕ
  pub task_switched : Bool
  pub tss_rsp0 : ℕ
  pub kernel_rsp : ℕ

abbrev pub set_thread : ℕ → Thread → Kernel → Kernel
set_thread t x k = record k { thread = update k.thread t x }

abbrev pub set_next : ℕ → ℕ → Kernel → Kernel
set_next t q k = set_thread t (record (k.thread t) { next = q }) k

abbrev pub set_prev : ℕ → ℕ → Kernel → Kernel
set_prev t q k = set_thread t (record (k.thread t) { prev = q }) k

abbrev pub set_state : ℕ → ThreadState → Kernel → Kernel
set_state t x k = set_thread t (record (k.thread t) { state = x }) k

abbrev pub next_of : Kernel → ℕ → ℕ
next_of k t = (k.thread t).next

abbrev pub prev_of : Kernel → ℕ → ℕ
prev_of k t = (k.thread t).prev

unfoldable pub enqueue_thread : ℕ → Kernel → Kernel
enqueue_thread t k =
    let head = k.ready_list_head in
    let tail = prev_of k head in
    if head == 0
    then record (set_prev t t (set_next t t k)) { ready_list_head = t }
    else set_prev head t (set_next t head (set_prev t tail (set_next tail t k)))

unfoldable pub dequeue_thread : ℕ → Kernel → Kernel
dequeue_thread t k =
    let k1 = set_next (prev_of k t) (next_of k t) k in
    let k2 = set_prev (next_of k1 t) (prev_of k1 t) k1 in
    let k3 : Kernel =
      if k2.ready_list_head == t then record k2 { ready_list_head = next_of k2 t } else k2 in
    let alone : Kernel = record k { ready_list_head = 0 } in
    let out : Kernel = if next_of k t == t then alone else k3 in set_next t 0 (set_prev t 0 out)
