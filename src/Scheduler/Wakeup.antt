-- ===== src/Scheduler/Wakeup.antt =====
-- A thread that an interrupt handler takes off its wait: it is made ready and put into the ready queue.
use destin_x.Prelude.{ℕ, ◌≡◌, ◌≢◌, ◌∙◌, List, [], ◌∷◌, ◌++◌, arith, ◌∉◌}
use destin_x.Thread.{ThreadState, Kernel, set_state, enqueue_thread, next_of, prev_of}
use destin_x.Thread.Queue.{IsRing, enqueue_thread-IsRing}
use destin_x.Mutex.Waiters.{state_of}
use destin_x.Mutex.Wake.{state-enqueue, Walk-frame}

next-set_state :
    (k : Kernel) (t : ℕ) (x : ThreadState) (q : ℕ) → next_of (set_state t x k) q ≡ next_of k q
next-set_state k t x q = ground arith

prev-set_state :
    (k : Kernel) (t : ℕ) (x : ThreadState) (q : ℕ) → prev_of (set_state t x k) q ≡ prev_of k q
prev-set_state k t x q = ground arith

-- The ring does not depend on a state.
set_state-IsRing :
    (k : Kernel) (t : ℕ) (x : ThreadState) (xs : List ℕ) → IsRing k xs → IsRing (set_state t x k) xs
set_state-IsRing k t x [] r = r
set_state-IsRing k t x (h ∷ ts) (at, null, d, w) =
    let k' = set_state t x k in
    (
      at,
      null,
      d,
      Walk-frame (next_of k) (prev_of k) (next_of k') (prev_of k') h ts h
          (λ q. (next-set_state k t x q, prev-set_state k t x q)) w,
    )

pub state-set_state : (k : Kernel) (t : ℕ) (x : ThreadState) → state_of (set_state t x k) t ≡ x
state-set_state k t x = ground arith

pub wakeup-IsRing :
    (k : Kernel) (t : ℕ) (xs : List ℕ)
    → t ≢ 0
    → IsRing k xs
    → t ∉ xs
    → (state_of (enqueue_thread t (set_state t ThreadState.ready k)) t ≡ ThreadState.ready)
      × IsRing (enqueue_thread t (set_state t ThreadState.ready k)) (xs ++ (t ∷ []))
wakeup-IsRing k t xs ne ring out =
    let readied = set_state t ThreadState.ready k in
    (
      (state-enqueue t readied t).0 ∙ state-set_state k t ThreadState.ready,
      enqueue_thread-IsRing readied t xs (set_state-IsRing k t ThreadState.ready xs ring) ne out,
    )
