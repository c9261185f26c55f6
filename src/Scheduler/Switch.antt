-- ===== src/Scheduler/Switch.antt =====
-- Which thread `scheduler_handler` switches to, and what the switch does.
use destin_x.Prelude.{
  ℕ, ◌+◌, ◌<◌, ◌≡◌, ◌≢◌, refl, sym, ap, ◌∙◌, true, false, Option, some, List, [], ◌∷◌, ◌++◌, arith,
  ◌==◌, if◌then◌else◌, update, ==_self, length, length-append, ◌∉◌,
}
use destin_x.Links.{if_ne, ne_of_mem, not-mem-append, not-mem_of_middle}
use destin_x.Thread.{ThreadState, Thread, Kernel, next_of, prev_of}
use destin_x.Thread.Ring.{Distinct, Walk, Walk-append}
use destin_x.Thread.Queue.{IsRing}
use destin_x.Scheduler.{
  Handled, returns, stopped, find_next, leave, switch_process, enter, dispatch, scheduler_handler,
}
use destin_x.Scheduler.Search.{
  choose, state_of, find_next_lem, IsRing-Walk, IsRing-frame, Walk-frame, first_runnable_or_last,
}

-- The outcome of a switch to `next` from the state `k`: it runs on its own kernel stack from
-- where it was left, and no other thread and no link changes.
pub record Entered (k : Kernel) (next : ℕ) (out : Handled) : Type 0 where
  pub k' : Kernel
  pub result : out ≡ returns (k.thread next).rsp k'
  pub current : k'.current_thread ≡ next
  pub state : (q : ℕ) → state_of k' q ≡ (if next == q then ThreadState.running else state_of k q)
  pub rsp : (q : ℕ) → (k'.thread q).rsp ≡ (k.thread q).rsp
  pub next_same : (q : ℕ) → next_of k' q ≡ next_of k q
  pub prev_same : (q : ℕ) → prev_of k' q ≡ prev_of k q
  pub head : k'.ready_list_head ≡ k.ready_list_head
  pub stack :
      (k'.tss_rsp0 ≡ (k.thread next).kernel_stack_top)
      × (k'.kernel_rsp ≡ (k.thread next).kernel_stack_top)

pub thread-switch_process : (a b : ℕ) (k : Kernel) → (switch_process a b k).thread ≡ k.thread
unfolding switch_process
thread-switch_process a b k = ground arith

current-switch_process :
    (a b : ℕ) (k : Kernel)
    → ((switch_process a b k).current_thread ≡ k.current_thread)
      × ((switch_process a b k).ready_list_head ≡ k.ready_list_head)
unfolding switch_process
current-switch_process a b k = ground arith

enter-Entered : (old next : ℕ) (k : Kernel) → Entered k next (enter old next k)
unfolding enter
enter-Entered old next k =
    let k1 : Kernel = record k {
      thread = update k.thread next (record (k.thread next) { state = ThreadState.running });
      current_thread = next;
    } in
    let a = (k1.thread old).process in
    let b = (k1.thread next).process in
    let k2 = switch_process a b k1 in
    let same : (q : ℕ) → k2.thread q ≡ k1.thread q =
      λ q. ap (λ (f : ℕ → Thread). f q) (thread-switch_process a b k1) in
    let (cur, head) = current-switch_process a b k1 in
    let top = (k2.thread k2.current_thread).kernel_stack_top in
    let top_eq : top ≡ (k.thread next).kernel_stack_top =
      rw cur (ap (λ (x : Thread). x.kernel_stack_top) (same next) ∙ ground arith) in
    record {
      k' = record k2 { tss_rsp0 = top; kernel_rsp = top };
      result =
          ap (λ (x : ℕ). returns x (record k2 { tss_rsp0 = top; kernel_rsp = top }))
            (ap (λ (x : Thread). x.rsp) (same next) ∙ ground arith);
      current = cur;
      state = λ q. ap (λ (x : Thread). x.state) (same q) ∙ ground arith;
      rsp = λ q. ap (λ (x : Thread). x.rsp) (same q) ∙ ground arith;
      next_same = λ q. ap (λ (x : Thread). x.next) (same q) ∙ ground arith;
      prev_same = λ q. ap (λ (x : Thread). x.prev) (same q) ∙ ground arith;
      head = head;
      stack = (top_eq, top_eq);
    }

-- The ring has another thread than the current one.
abbrev pub Others : List ℕ → List ℕ → ℕ → List ℕ → Type 0
Others xs ys r rs = ys ++ xs ≡ r ∷ rs

-- A thread that goes on being runnable: its stack pointer is saved and it is made ready.
abbrev made_ready : ℕ → ℕ → Kernel → Kernel
made_ready old old_rsp k = record k {
  thread = update k.thread old (record (k.thread old) { rsp = old_rsp; state = ThreadState.ready });
}

left_ready :
    (st : ThreadState) (k : Kernel) (old old_rsp : ℕ)
    → stopped st ≡ false
    → leave st old old_rsp k ≡ made_ready old old_rsp k
unfolding leave
left_ready ThreadState.ready k old old_rsp go_on = refl
left_ready ThreadState.running k old old_rsp go_on = refl
left_ready ThreadState.blocked k old old_rsp go_on = cc
left_ready ThreadState.dead k old old_rsp go_on = cc

-- The outcome of a preemption of `old`, which `next` follows.
pub record Preempted (k : Kernel) (old old_rsp next : ℕ) (ring : List ℕ) (out : Handled)
    : Type 0 where
  pub k' : Kernel
  pub result : out ≡ returns (k'.thread next).rsp k'
  pub current : k'.current_thread ≡ next
  pub ring_same : IsRing k' ring
  pub saved : (k'.thread old).rsp ≡ old_rsp
  pub states :
      (q : ℕ)
      → state_of k' q ≡ (
          if next == q
          then ThreadState.running
          else if old == q
          then ThreadState.ready
          else state_of k q)
  pub others : (q : ℕ) → old ≢ q → (k'.thread q).rsp ≡ (k.thread q).rsp

-- With another thread in the ring the handler saves the old one and dispatches.
scheduler_handler_ready :
    (fuel old_rsp : ℕ) (k : Kernel)
    → k.ready_list_head ≢ 0
    → next_of k k.ready_list_head ≢ k.ready_list_head
    → stopped (state_of k k.current_thread) ≡ false
    → scheduler_handler fuel old_rsp k
      ≡ dispatch fuel k.current_thread old_rsp
          (next_of k k.current_thread)
          (made_ready k.current_thread old_rsp (record k { task_switched = true }))
unfolding scheduler_handler
scheduler_handler_ready fuel old_rsp k nonempty more go_on =
    let old = k.current_thread in
    let k0 : Kernel = record k { task_switched = true } in
    let l = left_ready (state_of k old) k0 old old_rsp go_on in
    let e1 : (k.ready_list_head == 0) ≡ false = ground (arith, nonempty) in
    let e2 : (next_of k k.ready_list_head == k.ready_list_head) ≡ false = ground (arith, more) in
    rw (e1, e2, l) (rw (==_self old))

dispatch-Entered :
    (fuel old old_rsp start next : ℕ) (k : Kernel)
    → start ≢ 0
    → find_next fuel start start k ≡ some (some next)
    → Entered k next (dispatch fuel old old_rsp start k)
unfolding dispatch
dispatch-Entered fuel old old_rsp start next k ne found =
    let e : (start == 0) ≡ false = ground (arith, ne) in rw (e, found) (enter-Entered old next k)

head_more :
    (k : Kernel) (h t : ℕ) (ts : List ℕ)
    → IsRing k (h ∷ t ∷ ts)
    → (k.ready_list_head ≢ 0) × (next_of k k.ready_list_head ≢ k.ready_list_head)
head_more k h t ts (at, null, d, w) = (
  rw at (λ e. ne_of_mem 0 h (h ∷ t ∷ ts) null (rw (==_self h)) (sym e)),
  rw (at, w.0.0) (λ e. ne_of_mem h t (t ∷ ts) d.0 (rw (==_self t)) (sym e)),
)

-- A ring with two threads or more has a head that is followed by another thread.
two_threads :
    (k : Kernel) (old r : ℕ) (xs ys rs : List ℕ)
    → IsRing k (xs ++ (old ∷ ys))
    → ys ++ xs ≡ r ∷ rs
    → (k.ready_list_head ≢ 0) × (next_of k k.ready_list_head ≢ k.ready_list_head)
two_threads k old r [] [] rs ring e = cc
two_threads k old r [] (y ∷ ys) rs ring e = head_more k old y ys ring
two_threads k old r (h ∷ []) ys rs ring e = head_more k h old ys ring
two_threads k old r (h ∷ x ∷ xs) ys rs ring e = head_more k h x (xs ++ (old ∷ ys)) ring

ring_not_null :
    (k : Kernel) (old : ℕ) (xs ys : List ℕ) (r : ℕ) (rs : List ℕ)
    → IsRing k (xs ++ (old ∷ ys))
    → ys ++ xs ≡ r ∷ rs
    → r ≢ 0
ring_not_null k old xs ys r rs ring rest = ne_of_null (null_of xs ring)
  where
    null_of : (xs : List ℕ) → IsRing k (xs ++ (old ∷ ys)) → 0 ∉ (xs ++ (old ∷ ys))
    null_of [] (at, null, d, w) = null
    null_of (h ∷ xs) (at, null, d, w) = null

    ne_of_null : 0 ∉ (xs ++ (old ∷ ys)) → r ≢ 0
    ne_of_null null e =
        let (nx, _, ny, _) = not-mem_of_middle 0 xs old ys null in
        let out : 0 ∉ (r ∷ rs) = rw rest at (not-mem-append 0 ys xs ny nx) in
        ne_of_mem 0 r (r ∷ rs) out (rw (==_self r)) (sym e)

module _ (k : Kernel) (old old_rsp : ℕ) where
  abbrev readied : Kernel
  readied = made_ready old old_rsp (record k { task_switched = true })

  next-readied : (q : ℕ) → next_of readied q ≡ next_of k q
  next-readied q = ground arith

  prev-readied : (q : ℕ) → prev_of readied q ≡ prev_of k q
  prev-readied q = ground arith

  state-readied :
      (q : ℕ) → state_of readied q ≡ (if old == q then ThreadState.ready else state_of k q)
  state-readied q = ground arith

  rsp-readied : (q : ℕ) → (readied.thread q).rsp ≡ (if old == q then old_rsp else (k.thread q).rsp)
  rsp-readied q = ground arith

  -- The search from the thread behind `old` finds the chosen one.
  find_next-readied :
      (fuel r : ℕ) (rs : List ℕ)
      → Walk (next_of k) (prev_of k) old (r ∷ rs) old
      → old ∉ (r ∷ rs)
      → Distinct (r ∷ rs)
      → length rs + 1 < fuel
      → find_next fuel r r readied ≡ some (some (choose (state_of k) (r ∷ rs) old))
  find_next-readied fuel r rs w out d enough =
      find_next_lem fuel r r (rs ++ (old ∷ [])) readied
        (Walk-frame (next_of k) (prev_of k) _ _ r (rs ++ (old ∷ [])) r next-readied prev-readied
          (Walk-append (next_of k) (prev_of k) r rs old [] r w.1 w.0))
        (not-mem-append r rs (old ∷ []) d.0 (ground (arith, out)))
        (omega (arith, length-append {0} rs (old ∷ []), enough))
      ∙ ap (λ (o : Option ℕ). some o)
          (first_runnable_or_last (state_of k) (state_of readied) (r ∷ rs) old
            (λ q i. state-readied q ∙ if_ne old q _ _ (ne_of_mem old q (r ∷ rs) out i))
            (ground arith))

  Preempted-readied :
      (next : ℕ) (ring : List ℕ) (out : Handled)
      → IsRing k ring
      → Entered readied next out
      → Preempted k old old_rsp next ring out
  Preempted-readied next ring out r e = record {
    k' = e.k';
    result = e.result ∙ ap (λ (x : ℕ). returns x e.k') (sym (e.rsp next));
    current = e.current;
    ring_same =
        IsRing-frame k e.k' ring e.head (λ q. e.next_same q ∙ next-readied q)
          (λ q. e.prev_same q ∙ prev-readied q) r;
    saved = e.rsp old ∙ rsp-readied old ∙ rw (==_self old);
    states = λ q. e.state q ∙ rw (state-readied q);
    others = λ q ne. e.rsp q ∙ rsp-readied q ∙ if_ne old q _ _ ne;
  }

-- When the current thread goes on being runnable and is not alone in the ring, the handler saves
-- it, makes it ready and switches to the first runnable thread behind it in the ring, which is
-- the thread itself only if no other one is runnable. The ring stays as it is.
pub scheduler_handler-Preempted :
    (fuel old_rsp : ℕ) (k : Kernel) (xs ys : List ℕ) (r : ℕ) (rs : List ℕ)
    → IsRing k (xs ++ (k.current_thread ∷ ys))
    → ys ++ xs ≡ r ∷ rs
    → stopped (state_of k k.current_thread) ≡ false
    → length rs + 1 < fuel
    → Preempted k k.current_thread old_rsp
        (choose (state_of k) (r ∷ rs) k.current_thread)
        (xs ++ (k.current_thread ∷ ys))
        (scheduler_handler fuel old_rsp k)
scheduler_handler-Preempted fuel old_rsp k xs ys r rs ring rest go_on enough =
    let old = k.current_thread in
    let (nonempty, more) = two_threads k old r xs ys rs ring rest in
    let (w0, out0, d0) = IsRing-Walk k old xs ys ring in
    let w : Walk (next_of k) (prev_of k) old (r ∷ rs) old = rw rest at w0 in
    let out : old ∉ (r ∷ rs) = rw rest at out0 in
    let d : Distinct (r ∷ rs) = rw rest at d0 in
    let next = choose (state_of k) (r ∷ rs) old in
    let found = find_next-readied k old old_rsp fuel r rs w out d enough in
    let not_null : r ≢ 0 = ring_not_null k old xs ys r rs ring rest in
    let run : scheduler_handler fuel old_rsp k
        ≡ dispatch fuel old old_rsp r (readied k old old_rsp) =
      scheduler_handler_ready fuel old_rsp k nonempty more go_on
      ∙ ap (λ (n : ℕ). dispatch fuel old old_rsp n (readied k old old_rsp)) (w.0.0) in
    Preempted-readied k old old_rsp next (xs ++ (old ∷ ys)) (scheduler_handler fuel old_rsp k) ring
      (rw run (dispatch-Entered fuel old old_rsp r next (readied k old old_rsp) not_null found))
