-- ===== src/Mutex.antt =====
-- The mutex, kernel/sync/mutex.c. The threads that wait form a queue through `next_blocked`. The spinlock
-- around each function makes it one step.
pub mod Waiters
pub mod Wake
pub mod System
mod Tests
use destin_x.Prelude.{
  ℕ, zero, suc, ◌+◌, ◌-◌, ◌*◌, ◌/◌, ◌%◌, ◌^◌, ◌≤◌, ◌<◌, ◌≡◌, ◌≢◌, ◌↔◌, ◌⊎◌, refl, sym, ap, ◌∙◌, inl,
  inr, Bool, true, false, not, ◌&&◌, ◌||◌, Option, none, some, List, [], ◌∷◌, ◌++◌, map, arith, ltb,
  leb, ◌==◌, if◌then◌else◌, update, add64, sub64, Bool-cases, Option-cases, ==_iff, ==_self, ltb→lt,
  lt→ltb, length, get_elem?, length-append, bit_and, bit_or, bit_xor, has, ◌∈◌, ◌∉◌, has-append,
}
use destin_x.Thread.{ThreadState, Thread, Kernel, set_thread, enqueue_thread}

pub record Mutex : Type 0 where
  pub locked : ℕ
  pub blocked_head : ℕ
  pub blocked_tail : ℕ

-- How `mutex_lock` goes on after the spinlock: it returns with the mutex, or calls `yield`.
pub data LockResult : Type 0 where
  acquired : Mutex → Kernel → LockResult
  yields : Mutex → Kernel → LockResult

unfoldable pub mutex_init : Mutex → Mutex
mutex_init m = record { locked = 0; blocked_head = 0; blocked_tail = 0 }

abbrev pub next_blocked_of : Kernel → ℕ → ℕ
next_blocked_of k t = (k.thread t).next_blocked

abbrev pub set_next_blocked : ℕ → ℕ → Kernel → Kernel
set_next_blocked t q k = set_thread t (record (k.thread t) { next_blocked = q }) k

-- The current thread is blocked and put at the end of the queue.
unfoldable pub wait : Mutex → Kernel → LockResult
wait m k =
    let t = k.current_thread in
    let k1 =
      set_thread t (record (k.thread t) { state = ThreadState.blocked; next_blocked = 0 }) k in
    if m.blocked_head == 0
    then yields (record m { blocked_head = t; blocked_tail = t }) k1
    else yields (record m { blocked_tail = t }) (set_next_blocked m.blocked_tail t k1)

unfoldable pub mutex_lock : Mutex → Kernel → LockResult
mutex_lock m k = if m.locked == 0 then acquired (record m { locked = 1 }) k else wait m k

-- The first waiting thread is made ready and keeps the mutex locked.
unfoldable pub wake : Mutex → Kernel → Mutex × Kernel
wake m k =
    let w = m.blocked_head in
    let h = next_blocked_of k w in
    let k1 = set_thread w (record (k.thread w) { state = ThreadState.ready; next_blocked = 0 }) k in
    (
      record m { blocked_head = h; blocked_tail = if h == 0 then 0 else m.blocked_tail },
      enqueue_thread w k1,
    )

unfoldable pub mutex_unlock : Mutex → Kernel → Mutex × Kernel
mutex_unlock m k = if m.blocked_head == 0 then (record m { locked = 0 }, k) else wake m k
