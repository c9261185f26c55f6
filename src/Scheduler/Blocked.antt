-- ===== src/Scheduler/Blocked.antt =====
-- A blocked thread stays blocked, whatever the scheduler does.
use destin_x.Prelude.{
  ℕ, zero, suc, ◌≡◌, ◌≢◌, refl, sym, ap, ◌∙◌, inl, inr, true, false, ◌||◌, none, some, arith, ◌==◌,
  if◌then◌else◌, Bool-cases, Option-cases,
}
use mathlib.Core.Bool.{false≢true}
use destin_x.Thread.{ThreadState, Thread, Kernel, next_of, set_thread, set_state, dequeue_thread}
use destin_x.Scheduler.{
  Handled, runnable, stopped, find_next, leave, switch_process, enter, dispatch, scheduler_handler,
  thread_exit,
}
use destin_x.Scheduler.Search.{state_of}
use destin_x.Scheduler.Switch.{thread-switch_process}

abbrev next_blocked_of : Kernel → ℕ → ℕ
next_blocked_of k q = (k.thread q).next_blocked

-- The blocked threads of `k` are blocked in `k'`, with the same link in the queue of their mutex.
abbrev pub Keeps : Kernel → Kernel → Type 0
Keeps k k' =
    (q : ℕ)
    → state_of k q ≡ ThreadState.blocked
    → (state_of k' q ≡ ThreadState.blocked) × (next_blocked_of k' q ≡ next_blocked_of k q)

-- The same for every way in which a call ends.
abbrev pub KeepsBlocked : Kernel → Handled → Type 0
KeepsBlocked k (Handled.returns sp k') = Keeps k k'
KeepsBlocked k (Handled.hangs k') = Keeps k k'
KeepsBlocked k Handled.out_of_fuel = Unit {0}

Keeps-trans : (k k1 k2 : Kernel) → Keeps k k1 → Keeps k1 k2 → Keeps k k2
Keeps-trans k k1 k2 a b q e = let (e1, n1) = a q e in let (e2, n2) = b q e1 in (e2, n2 ∙ n1)

KeepsBlocked-trans :
    (k k1 : Kernel) (out : Handled) → Keeps k k1 → KeepsBlocked k1 out → KeepsBlocked k out
KeepsBlocked-trans k k1 (Handled.returns sp k') a b = Keeps-trans k k1 k' a b
KeepsBlocked-trans k k1 (Handled.hangs k') a b = Keeps-trans k k1 k' a b
KeepsBlocked-trans k k1 Handled.out_of_fuel a b = tt

state-dequeue :
    (t : ℕ) (k : Kernel) (q : ℕ)
    → (state_of (dequeue_thread t k) q ≡ state_of k q)
      × (next_blocked_of (dequeue_thread t k) q ≡ next_blocked_of k q)
unfolding dequeue_thread
state-dequeue t k q = ground arith

-- The search chooses a runnable thread.
find_next-runnable :
    (fuel start t n : ℕ) (k : Kernel)
    → find_next fuel start t k ≡ some (some n)
    → runnable (state_of k n) ≡ true
unfolding find_next
find_next-runnable zero start t n k e = ground (arith, e)
find_next-runnable (suc fuel) start t n k e = elim (Bool-cases (runnable (k.thread t).state)) [
  | inl go ↦ let same : t ≡ n = ground (arith, rw go at e) in rw same at go
  | inr stop ↦ elim (Bool-cases (next_of k t == start)) [
    | inl round ↦ ground (arith, rw (stop, round) at e)
    | inr more ↦ find_next-runnable fuel start (next_of k t) n k (rw (stop, more) at e)
  ]
]

pub runnable-blocked : (s : ThreadState) → runnable s ≡ true → s ≢ ThreadState.blocked
runnable-blocked s e b = false≢true (sym (ap runnable b) ∙ e)

-- A blocked thread is not one whose state is another.
far :
    (k : Kernel) (p q : ℕ)
    → runnable (state_of k p) ≡ true
    → state_of k q ≡ ThreadState.blocked
    → p ≢ q
far k p q run b e = runnable-blocked (state_of k p) run (ap (state_of k) e ∙ b)

leave-Keeps :
    (s : ThreadState) (old rsp : ℕ) (k : Kernel) → state_of k old ≡ s → Keeps k (leave s old rsp k)
unfolding leave
leave-Keeps ThreadState.ready old rsp k e q b =
    let pq = far k old q (ap runnable e) b in ground (arith, pq, b)
leave-Keeps ThreadState.running old rsp k e q b =
    let pq = far k old q (ap runnable e) b in ground (arith, pq, b)
leave-Keeps ThreadState.blocked old rsp k e q b =
    let k1 = set_thread old (record (k.thread old) { rsp = rsp }) k in
    let (x, y) = state-dequeue old k1 q in (x ∙ ground (arith, b), y ∙ ground arith)
leave-Keeps ThreadState.dead old rsp k e q b =
    let (x, y) = state-dequeue old k q in (ground (arith, x, b), ground (arith, y))

enter-Keeps :
    (old next : ℕ) (k : Kernel)
    → runnable (state_of k next) ≡ true
    → KeepsBlocked k (enter old next k)
unfolding enter
enter-Keeps old next k run q b =
    let k1 : Kernel = record (set_state next ThreadState.running k) { current_thread = next } in
    let same : (r : ℕ)
        → (switch_process (k1.thread old).process (k1.thread next).process k1).thread r
          ≡ k1.thread r =
      λ r.
        ap (λ (f : ℕ → Thread). f r)
          (thread-switch_process (k1.thread old).process (k1.thread next).process k1) in
    let nq = far k next q run b in
    (
      ap (λ (x : Thread). x.state) (same q) ∙ ground (arith, nq, b),
      ap (λ (x : Thread). x.next_blocked) (same q) ∙ ground (arith, nq),
    )

runnable_of_going : (s : ThreadState) → stopped s ≡ false → runnable s ≡ true
runnable_of_going ThreadState.ready e = refl
runnable_of_going ThreadState.running e = refl
runnable_of_going ThreadState.blocked e = sym e
runnable_of_going ThreadState.dead e = sym e

resume-Keeps :
    (old : ℕ) (k : Kernel)
    → runnable (state_of k old) ≡ true
    → Keeps k (set_state old ThreadState.running k)
resume-Keeps old k run q b = let pq = far k old q run b in ground (arith, pq, b)

dispatch-Keeps :
    (fuel old rsp start : ℕ) (k : Kernel) → KeepsBlocked k (dispatch fuel old rsp start k)
unfolding dispatch
dispatch-Keeps fuel old rsp start k = elim (Bool-cases (start == 0)) [
  | inl z ↦ rw z (λ q b. (b, refl))
  | inr nz ↦ elim (Option-cases (find_next fuel start start k)) [
    | inl out ↦ rw (nz, out) tt
    | inr (none, e) ↦ elim (Bool-cases (stopped (k.thread old).state)) [
      | inl st ↦ rw (nz, e, st) (λ q b. (b, refl))
      | inr go ↦ rw (nz, e, go) (resume-Keeps old k (runnable_of_going _ go))
    ]
    | inr (some next, e) ↦
        rw (nz, e) (enter-Keeps old next k (find_next-runnable fuel start start next k e))
  ]
]

-- However `scheduler_handler` ends, each thread that was blocked is still blocked and keeps its
-- place in the queue of its mutex.
pub scheduler_handler-KeepsBlocked :
    (fuel rsp : ℕ) (k : Kernel) → KeepsBlocked k (scheduler_handler fuel rsp k)
unfolding scheduler_handler
scheduler_handler-KeepsBlocked fuel rsp k =
    let old = k.current_thread in
    let k0 : Kernel = record k { task_switched = true } in
    let k1 = leave (k.thread old).state old rsp k0 in
    let start = if stopped (k1.thread old).state then k1.ready_list_head else next_of k old in
    elim (Bool-cases
      ((k.ready_list_head == 0) || (next_of k k.ready_list_head == k.ready_list_head))) [
        | inl alone ↦ rw alone (λ q b. (b, refl))
        | inr more ↦ rw more (
            KeepsBlocked-trans k k1 (dispatch fuel old rsp start k1)
              (leave-Keeps (k.thread old).state old rsp k0 refl)
              (dispatch-Keeps fuel old rsp start k1))
      ]

pub thread_exit-KeepsBlocked :
    (fuel rsp : ℕ) (k : Kernel)
    → state_of k k.current_thread ≢ ThreadState.blocked
    → KeepsBlocked k (thread_exit fuel rsp k)
unfolding thread_exit
thread_exit-KeepsBlocked fuel rsp k going =
    let t = k.current_thread in
    let k1 = set_state t ThreadState.dead k in
    let keeps : Keeps k k1 = λ q b.
      let tq : t ≢ q = λ e. going (ap (state_of k) e ∙ b) in
      (ground (arith, tq, b), ground (arith, tq)) in
    KeepsBlocked-trans k k1 (scheduler_handler fuel rsp k1) keeps
      (scheduler_handler-KeepsBlocked fuel rsp k1)
