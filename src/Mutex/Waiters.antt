-- ===== src/Mutex/Waiters.antt =====
-- The queue of the threads that wait for a mutex, first come first served.
use destin_x.Prelude.{
  ℕ, ◌≡◌, ◌≢◌, ◌⊎◌, refl, sym, ◌∙◌, inl, inr, true, false, List, [], ◌∷◌, ◌++◌, arith, ◌==◌,
  if◌then◌else◌, Bool-cases, ==_iff, ==_self, ◌∈◌, ◌∉◌, has-append,
}
use destin_x.Links.{first, last, last-ne, if_ne, ne_of_mem, not-mem-append}
use destin_x.Thread.{ThreadState, Kernel, set_thread, next_of, prev_of}
use destin_x.Thread.Ring.{Distinct}
use destin_x.Thread.Queue.{Distinct-snoc}
use destin_x.Mutex.{Mutex, LockResult, next_blocked_of, set_next_blocked, wait, mutex_lock}

abbrev pub state_of : Kernel → ℕ → ThreadState
state_of k t = (k.thread t).state

-- The links lead through the list to null.
abbrev pub Follows : (ℕ → ℕ) → List ℕ → Type 0
Follows n [] = Unit {0}
Follows n (x ∷ xs) = (n x ≡ first xs) × Follows n xs

-- The threads `ws` wait for the mutex, in this order, and only for a locked one.
pub record IsWaiting (m : Mutex) (k : Kernel) (ws : List ℕ) : Type 0 where
  pub head : m.blocked_head ≡ first ws
  pub tail : m.blocked_tail ≡ last 0 ws
  pub links : Follows (next_blocked_of k) ws
  pub distinct : Distinct ws
  pub not_null : 0 ∉ ws
  pub blocked : (q : ℕ) → q ∈ ws → state_of k q ≡ ThreadState.blocked
  pub locked : m.locked ≡ 0 → ws ≡ []

-- The mutex was taken, or the caller is blocked behind the other waiting threads.
abbrev pub Locked : Mutex → Kernel → List ℕ → LockResult → Type 0
Locked m k ws (LockResult.acquired m' k') =
    (m.locked ≡ 0) × (m'.locked ≡ 1) × (k' ≡ k) × IsWaiting m' k ws
Locked m k ws (LockResult.yields m' k') =
    (m.locked ≢ 0)
    × (m'.locked ≡ m.locked)
    × IsWaiting m' k' (ws ++ (k.current_thread ∷ []))
    × (k'.ready_list_head ≡ k.ready_list_head)
    × (k'.current_thread ≡ k.current_thread)
    × ((q : ℕ) → (next_of k' q ≡ next_of k q) × (prev_of k' q ≡ prev_of k q))
    × ((q : ℕ) → k.current_thread ≢ q → state_of k' q ≡ state_of k q)

pub Follows-frame :
    (n n' : ℕ → ℕ) (ws : List ℕ) → Follows n ws → ((q : ℕ) → q ∈ ws → n' q ≡ n q) → Follows n' ws
Follows-frame n n' [] f same = tt
Follows-frame n n' (w ∷ ws) f same =
    (same w (rw (==_self w)) ∙ f.0, Follows-frame n n' ws f.1 (λ q i. same q (ground (arith, i))))

-- One more thread behind the last one.
Follows-snoc :
    (n n' : ℕ → ℕ) (w : ℕ) (ws : List ℕ) (t : ℕ)
    → Follows n (w ∷ ws)
    → Distinct (w ∷ ws)
    → n' (last w ws) ≡ t
    → n' t ≡ 0
    → ((q : ℕ) → q ∈ (w ∷ ws) → last w ws ≢ q → n' q ≡ n q)
    → Follows n' ((w ∷ ws) ++ (t ∷ []))
Follows-snoc n n' w [] t f d end null same = (end, (null, tt))
Follows-snoc n n' w (x ∷ ws) t f d end null same = (
  same w (rw (==_self w)) (last-ne w x ws d.0) ∙ f.0,
  Follows-snoc n n' x ws t f.1 d.1 end null (λ q i. same q (ground (arith, i))),
)

last-snoc : (b : ℕ) (ws : List ℕ) (t : ℕ) → last b (ws ++ (t ∷ [])) ≡ t
last-snoc b [] t = refl
last-snoc b (w ∷ ws) t = last-snoc w ws t

-- The state in which `wait` leaves the caller.
module _ (m : Mutex) (k : Kernel) (w : ℕ) (ws : List ℕ) (v : IsWaiting m k (w ∷ ws))
    (ne : k.current_thread ≢ 0) (new : k.current_thread ∉ (w ∷ ws)) where
  abbrev t : ℕ
  t = k.current_thread

  waiting : Kernel
  waiting =
      set_next_blocked m.blocked_tail t
        (set_thread t (record (k.thread t) { state = ThreadState.blocked; next_blocked = 0 }) k)

  wait_behind : wait m k ≡ LockResult.yields (record m { blocked_tail = t }) waiting
  unfolding wait waiting
  wait_behind =
      rw (v.head, if_ne w 0 _ _ (λ e. ne_of_mem 0 w (w ∷ ws) v.not_null (rw (==_self w)) (sym e)))

  tail_ne : t ≢ m.blocked_tail
  tail_ne = rw (v.tail) (λ e. last-ne t w ws new (sym e))

  next_blocked-waiting :
      (q : ℕ)
      → next_blocked_of waiting q
        ≡ (if m.blocked_tail == q then t else if t == q then 0 else next_blocked_of k q)
  unfolding waiting
  next_blocked-waiting q = ground (arith, tail_ne)

  state-waiting :
      (q : ℕ) → state_of waiting q ≡ (if t == q then ThreadState.blocked else state_of k q)
  unfolding waiting
  state-waiting q = ground (arith, tail_ne)

  links-waiting : (q : ℕ) → (next_of waiting q ≡ next_of k q) × (prev_of waiting q ≡ prev_of k q)
  unfolding waiting
  links-waiting q = ground (arith, tail_ne)

  head-waiting : waiting.ready_list_head ≡ k.ready_list_head
  unfolding waiting
  head-waiting = refl

  current-waiting : waiting.current_thread ≡ t
  unfolding waiting
  current-waiting = refl

  blocked_cases :
      (l : List ℕ)
      → ((q : ℕ) → q ∈ l → state_of k q ≡ ThreadState.blocked)
      → (q : ℕ) → q ∈ (l ++ (t ∷ []))
      → ((t == q) ≡ true) ⊎ ((t == q) ≡ false)
      → (if t == q then ThreadState.blocked else state_of k q) ≡ ThreadState.blocked
  blocked_cases l all q i (inl e) = rw e
  blocked_cases l all q i (inr e) = rw e (all q (ground (arith, i, e, has-append q l (t ∷ []))))

  waiting-IsWaiting :
      m.locked ≢ 0 → IsWaiting (record m { blocked_tail = t }) waiting ((w ∷ ws) ++ (t ∷ []))
  waiting-IsWaiting held = record {
    head = v.head;
    tail = sym (last-snoc w ws t);
    links =
        Follows-snoc (next_blocked_of k) _ w ws t v.links v.distinct
          (next_blocked-waiting (last w ws) ∙ rw (v.tail, ==_self (last w ws)))
          (next_blocked-waiting t
            ∙ if_ne m.blocked_tail t _ _ (λ e. tail_ne (sym e))
            ∙ rw (==_self t))
          (λ q i l.
            next_blocked-waiting q
            ∙ if_ne m.blocked_tail q _ _ (rw (v.tail) l)
            ∙ if_ne t q _ _ (ne_of_mem t q (w ∷ ws) new i));
    distinct = Distinct-snoc (w ∷ ws) t v.distinct new;
    not_null = not-mem-append 0 (w ∷ ws) (t ∷ []) v.not_null (ground (arith, ne));
    blocked = λ q i. state-waiting q ∙ blocked_cases (w ∷ ws) v.blocked q i (Bool-cases (t == q));
    locked = λ e. absurd (held e);
  }

  wait-Locked : m.locked ≢ 0 → Locked m k (w ∷ ws) (wait m k)
  wait-Locked held = rw wait_behind (
    held,
    refl,
    waiting-IsWaiting held,
    head-waiting,
    current-waiting,
    links-waiting,
    λ q tq. state-waiting q ∙ if_ne t q _ _ tq,
  )

wait_first :
    (m : Mutex) (k : Kernel)
    → IsWaiting m k []
    → k.current_thread ≢ 0
    → m.locked ≢ 0
    → Locked m k [] (wait m k)
unfolding wait
wait_first m k v ne held = rw (v.head) (
  held,
  refl,
  record {
    head = refl;
    tail = refl;
    links = (ground arith, tt);
    distinct = (refl, tt);
    not_null = ground (arith, ne);
    blocked = λ q i. ground (arith, i);
    locked = λ e. absurd (held e);
  },
  refl,
  refl,
  λ q. ground arith,
  λ q tq. ground (arith, tq),
)

wait_any :
    (m : Mutex) (k : Kernel) (ws : List ℕ)
    → IsWaiting m k ws
    → k.current_thread ≢ 0
    → k.current_thread ∉ ws
    → m.locked ≢ 0
    → Locked m k ws (wait m k)
wait_any m k [] v ne new held = wait_first m k v ne held
wait_any m k (w ∷ ws) v ne new held = wait-Locked m k w ws v ne new held

-- `mutex_lock` takes a free mutex at once. On a locked one it blocks the caller, puts it behind
-- all the threads that wait already, and changes no link of the ready queue and no other thread's state.
pub mutex_lock-Locked :
    (m : Mutex) (k : Kernel) (ws : List ℕ)
    → IsWaiting m k ws
    → k.current_thread ≢ 0
    → k.current_thread ∉ ws
    → Locked m k ws (mutex_lock m k)
unfolding mutex_lock
mutex_lock-Locked m k ws v ne new = elim (Bool-cases (m.locked == 0)) [
  | inl e ↦ rw e (
      let z = (==_iff m.locked 0).0 e in
      (
        z,
        refl,
        refl,
        record {
          head = v.head;
          tail = v.tail;
          links = v.links;
          distinct = v.distinct;
          not_null = v.not_null;
          blocked = v.blocked;
          locked = λ one. absurd (omega (arith, one));
        },
      ))
  | inr e ↦ rw e (wait_any m k ws v ne new (ground (arith, e)))
]
