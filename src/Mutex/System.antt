-- ===== src/Mutex/System.antt =====
-- Threads that use one mutex while the scheduler switches between them: at most one of them is
-- between `mutex_lock` and `mutex_unlock`.
use destin_x.Prelude.{
  ℕ, ◌≡◌, ◌≢◌, ◌⊎◌, refl, sym, ap, ◌∙◌, inl, inr, List, [], ◌∷◌, ◌++◌, arith, ◌==◌, if◌then◌else◌,
  Bool-cases, has, ◌∈◌, ◌∉◌, has-append,
}
use mathlib.Core.Bool.{false≢true}
use destin_x.Thread.{ThreadState, Kernel}
use destin_x.Scheduler.{Handled, scheduler_handler, thread_exit}
use destin_x.Scheduler.Blocked.{
  Keeps, KeepsBlocked, scheduler_handler-KeepsBlocked, thread_exit-KeepsBlocked,
}
use destin_x.Mutex.{Mutex, LockResult, next_blocked_of, mutex_init, mutex_lock, mutex_unlock}
use destin_x.Mutex.Waiters.{state_of, Follows-frame, IsWaiting, Locked, mutex_lock-Locked}
use destin_x.Mutex.Wake.{Unlocked, mutex_unlock-Unlocked}

-- Where the threads are: `inside` have called `yield` in `mutex_lock` and have not run since, and `mutex_lock` has
-- returned to those of `critical`, which have not called `mutex_unlock` since.
pub record System : Type 0 where
  pub mutex : Mutex
  pub kernel : Kernel
  pub inside : List ℕ
  pub critical : List ℕ

unfoldable pub without : ℕ → List ℕ → List ℕ
without t [] = []
without t (x ∷ xs) = let rest = without t xs in if x == t then rest else x ∷ rest

-- One step of a run: what the current thread does, or a switch to another thread. Only a thread to which
-- `mutex_lock` has returned unlocks the mutex. A `yield` returns to a thread only when it is not blocked.
pub data Step : System → System → Type 0 where
  locks :
      (m m' : Mutex) (k k' : Kernel) (is cs : List ℕ)
      → k.current_thread ≢ 0
      → state_of k k.current_thread ≢ ThreadState.blocked
      → mutex_lock m k ≡ LockResult.acquired m' k'
      → Step
          (record { mutex = m; kernel = k; inside = is; critical = cs })
          (record { mutex = m'; kernel = k'; inside = is; critical = k.current_thread ∷ cs })
  waits :
      (m m' : Mutex) (k k' : Kernel) (is cs : List ℕ)
      → k.current_thread ≢ 0
      → state_of k k.current_thread ≢ ThreadState.blocked
      → mutex_lock m k ≡ LockResult.yields m' k'
      → Step
          (record { mutex = m; kernel = k; inside = is; critical = cs })
          (record { mutex = m'; kernel = k'; inside = k.current_thread ∷ is; critical = cs })
  returns :
      (m : Mutex) (k : Kernel) (is cs : List ℕ)
      → k.current_thread ∈ is
      → state_of k k.current_thread ≢ ThreadState.blocked
      → Step
          (record { mutex = m; kernel = k; inside = is; critical = cs })
          (record {
            mutex = m;
            kernel = k;
            inside = without k.current_thread is;
            critical = k.current_thread ∷ cs;
          })
  unlocks :
      (m : Mutex) (k : Kernel) (is cs : List ℕ)
      → k.current_thread ∈ cs
      → Step
          (record { mutex = m; kernel = k; inside = is; critical = cs })
          (record {
            mutex = (mutex_unlock m k).0;
            kernel = (mutex_unlock m k).1;
            inside = is;
            critical = without k.current_thread cs;
          })
  switches :
      (m : Mutex) (k k' : Kernel) (is cs : List ℕ) (fuel rsp sp : ℕ)
      → scheduler_handler fuel rsp k ≡ Handled.returns sp k'
      → Step
          (record { mutex = m; kernel = k; inside = is; critical = cs })
          (record { mutex = m; kernel = k'; inside = is; critical = cs })
  exits :
      (m : Mutex) (k k' : Kernel) (is cs : List ℕ) (fuel rsp sp : ℕ)
      → state_of k k.current_thread ≢ ThreadState.blocked
      → thread_exit fuel rsp k ≡ Handled.returns sp k'
      → Step
          (record { mutex = m; kernel = k; inside = is; critical = cs })
          (record { mutex = m; kernel = k'; inside = is; critical = cs })

pub data Run : System → System → Type 0 where
  done : (s : System) → Run s s
  more : (s s1 s2 : System) → Run s s1 → Step s1 s2 → Run s s2

-- The mutex is free and nobody has it, or it is locked and one thread has it.
abbrev pub Held : Mutex → List ℕ → Type 0
Held m os = ((m.locked ≡ 0) × (os ≡ [])) ⊎ ((m.locked ≢ 0) × ((o : ℕ) × (os ≡ o ∷ [])))

-- `granted` is a thread that `mutex_unlock` has given the mutex and that has not run since, and `ws` wait.
pub record Exclusive (m : Mutex) (k : Kernel) (is cs : List ℕ) : Type 0 where
  pub ws : List ℕ
  pub granted : List ℕ
  pub waiting : IsWaiting m k ws
  pub held : Held m (cs ++ granted)
  pub from : (t : ℕ) → t ∈ is → (t ∈ ws) ⊎ (t ∈ granted)

-- At most one thread is between `mutex_lock` and `mutex_unlock`, and only while the mutex is locked.
abbrev pub AtMostOne : Mutex → List ℕ → Type 0
AtMostOne m cs = (cs ≡ []) ⊎ ((m.locked ≢ 0) × ((o : ℕ) × (cs ≡ o ∷ [])))

-- A thread that is not blocked does not wait.
not_waiting :
    (m : Mutex) (k : Kernel) (ws : List ℕ) (t : ℕ)
    → IsWaiting m k ws
    → state_of k t ≢ ThreadState.blocked
    → t ∉ ws
not_waiting m k ws t v going = elim (Bool-cases (has t ws)) [
  | inl i ↦ absurd (going (v.blocked t i))
  | inr out ↦ out
]

-- Two lists that make up one thread.
append-one :
    (cs gs : List ℕ) (o : ℕ)
    → cs ++ gs ≡ o ∷ []
    → ((cs ≡ []) × (gs ≡ o ∷ [])) ⊎ ((cs ≡ o ∷ []) × (gs ≡ []))
append-one [] gs o e = inl (refl, e)
append-one (c ∷ []) [] o e = inr (e, refl)
append-one (c ∷ []) (g ∷ gs) o e = absurd (ground (arith, e))
append-one (c ∷ d ∷ cs) gs o e = absurd (ground (arith, e))

append-none : (cs gs : List ℕ) → cs ++ gs ≡ [] → (cs ≡ []) × (gs ≡ [])
append-none [] gs e = (refl, e)
append-none (c ∷ cs) gs e = absurd (ground (arith, e))

mem-without : (t u : ℕ) (xs : List ℕ) → u ∈ without t xs → (u ∈ xs) × (t ≢ u)
unfolding without
mem-without t u [] i = absurd (false≢true i)
mem-without t u (x ∷ xs) i = ground (arith, mem-without t u xs)

abbrev AfterLock : Kernel → (is cs : List ℕ) → LockResult → Type 0
AfterLock k is cs (LockResult.acquired m' k') = Exclusive m' k' is (k.current_thread ∷ cs)
AfterLock k is cs (LockResult.yields m' k') = Exclusive m' k' (k.current_thread ∷ is) cs

lock-Exclusive :
    (m : Mutex) (k : Kernel) (is cs : List ℕ) (out : LockResult) (v : Exclusive m k is cs)
    → Locked m k v.ws out
    → AfterLock k is cs out
lock-Exclusive m k is cs (LockResult.acquired m' k') v (free, taken, same, w) = record {
  ws = v.ws;
  granted = v.granted;
  waiting = rw same w;
  held = elim v.held [
    | inl (z, empty) ↦
        inr (
          omega (arith, taken),
          (k.current_thread, ap (λ (l : List ℕ). k.current_thread ∷ l) empty),
        )
    | inr (nz, one) ↦ absurd (nz free)
  ];
  from = v.from;
}
lock-Exclusive m k is cs (LockResult.yields m' k') v (held, same, w, _, _, _, _) = record {
  ws = v.ws ++ (k.current_thread ∷ []);
  granted = v.granted;
  waiting = w;
  held = elim v.held [
    | inl (z, empty) ↦ absurd (held z)
    | inr (nz, one) ↦ inr (λ e. nz (sym same ∙ e), one)
  ];
  from = λ t i. ground (arith, i, v.from t, has-append t v.ws (k.current_thread ∷ []));
}

-- A thread that runs again behind its `yield` has been given the mutex.
granted_one :
    (m : Mutex) (k : Kernel) (is cs : List ℕ) (v : Exclusive m k is cs)
    → k.current_thread ∈ v.granted
    → (m.locked ≢ 0) × (cs ≡ []) × (v.granted ≡ k.current_thread ∷ [])
granted_one m k is cs v given = elim v.held [
  | inl (z, e) ↦
      let gone : k.current_thread ∈ [] = rw (append-none cs v.granted e).1 at given in
      absurd (false≢true gone)
  | inr (nz, (o, e)) ↦ elim (append-one cs v.granted o e) [
    | inl (none_there, one) ↦
        let it : o ≡ k.current_thread = ground (arith, rw one at given) in
        (nz, none_there, one ∙ ap (λ (x : ℕ). x ∷ []) it)
    | inr (_, empty) ↦
        let gone : k.current_thread ∈ [] = rw empty at given in absurd (false≢true gone)
  ]
]

return-Exclusive :
    (m : Mutex) (k : Kernel) (is cs : List ℕ)
    → k.current_thread ∈ is
    → state_of k k.current_thread ≢ ThreadState.blocked
    → Exclusive m k is cs
    → Exclusive m k (without k.current_thread is) (k.current_thread ∷ cs)
return-Exclusive m k is cs i going v = elim (v.from k.current_thread i) [
  | inl queued ↦ absurd (going (v.waiting.blocked k.current_thread queued))
  | inr given ↦
      let t = k.current_thread in
      let (nz, none_there, one) = granted_one m k is cs v given in
      record {
        ws = v.ws;
        granted = [];
        waiting = v.waiting;
        held = inr (nz, (t, ap (λ (l : List ℕ). t ∷ (l ++ [])) none_there));
        from = λ u w.
            let (there, other) = mem-without t u is w in
            elim (v.from u there) [
              | inl queued ↦ inl queued
              | inr given2 ↦
                  let at : u ∈ (t ∷ []) = rw one at given2 in absurd (other (ground (arith, at)))
            ];
      }
]

unlock_cases :
    (m : Mutex) (k : Kernel) (ws is : List ℕ) (m' : Mutex) (k' : Kernel)
    → IsWaiting m k ws
    → ((t : ℕ) → t ∈ is → t ∈ ws)
    → m.locked ≢ 0
    → Unlocked m k ws m' k'
    → Exclusive m' k' is []
unlock_cases m k [] is m' k' v from held (free, same, v') = record {
  ws = [];
  granted = [];
  waiting = v';
  held = inl (free, refl);
  from = λ t i. inl (from t i);
}
unlock_cases m k (w ∷ ws) is m' k' v from held (same, v', _, _, _, _) = record {
  ws = ws;
  granted = w ∷ [];
  waiting = v';
  held = inr (λ e. held (sym same ∙ e), (w, refl));
  from = λ t i. let at = from t i in ground (arith, at);
}

without_self : (t : ℕ) → without t (t ∷ []) ≡ []
unfolding without
without_self t = ground arith

unlock-Exclusive :
    (m : Mutex) (k : Kernel) (is cs : List ℕ)
    → k.current_thread ∈ cs
    → Exclusive m k is cs
    → Exclusive (mutex_unlock m k).0 (mutex_unlock m k).1 is (without k.current_thread cs)
unlock-Exclusive m k is cs i v = elim v.held [
  | inl (z, e) ↦
      let gone : k.current_thread ∈ [] = rw (append-none cs v.granted e).0 at i in
      absurd (false≢true gone)
  | inr (nz, (o, e)) ↦ elim (append-one cs v.granted o e) [
    | inl (none_there, _) ↦
        let gone : k.current_thread ∈ [] = rw none_there at i in absurd (false≢true gone)
    | inr (one, empty) ↦
        let it : o ≡ k.current_thread = ground (arith, rw one at i) in
        let left : without k.current_thread cs ≡ [] =
          rw (one, it) (without_self k.current_thread) in
        let queued : (t : ℕ) → t ∈ is → t ∈ v.ws = λ t there. elim (v.from t there) [
          | inl w ↦ w
          | inr given ↦ let gone : t ∈ [] = rw empty at given in absurd (false≢true gone)
        ] in
        rw left (
          unlock_cases m k v.ws is _ _ v.waiting queued nz
            (mutex_unlock-Unlocked m k v.ws v.waiting))
  ]
]

switch-Exclusive :
    (m : Mutex) (k k' : Kernel) (is cs : List ℕ)
    → Keeps k k'
    → Exclusive m k is cs
    → Exclusive m k' is cs
switch-Exclusive m k k' is cs keeps e =
    let v = e.waiting in
    record {
      ws = e.ws;
      granted = e.granted;
      waiting = record {
        head = v.head;
        tail = v.tail;
        links =
            Follows-frame (next_blocked_of k) _ e.ws v.links (λ q i. (keeps q (v.blocked q i)).1);
        distinct = v.distinct;
        not_null = v.not_null;
        blocked = λ q i. (keeps q (v.blocked q i)).0;
        locked = v.locked;
      };
      held = e.held;
      from = e.from;
    }

returned-Keeps :
    (k k' : Kernel) (sp : ℕ) (out : Handled)
    → KeepsBlocked k out
    → out ≡ Handled.returns sp k'
    → Keeps k k'
returned-Keeps k k' sp out keeps e =
    let at : KeepsBlocked k (Handled.returns sp k') = rw e at keeps in at

abbrev Inv : System → Type 0
Inv s = Exclusive s.mutex s.kernel s.inside s.critical

after_lock :
    (m : Mutex) (k : Kernel) (is cs : List ℕ)
    → k.current_thread ≢ 0
    → state_of k k.current_thread ≢ ThreadState.blocked
    → Exclusive m k is cs
    → AfterLock k is cs (mutex_lock m k)
after_lock m k is cs ne going v = lock-Exclusive m k is cs (mutex_lock m k) v (
    mutex_lock-Locked m k v.ws v.waiting ne (not_waiting m k v.ws k.current_thread v.waiting going))

Step-Exclusive : (s s' : System) → Step s s' → Inv s → Inv s'
Step-Exclusive _ _ (Step.locks m m' k k' is cs ne going e) v =
    let at : AfterLock k is cs (mutex_lock m k) = after_lock m k is cs ne going v in rw e at at
Step-Exclusive _ _ (Step.waits m m' k k' is cs ne going e) v =
    let at : AfterLock k is cs (mutex_lock m k) = after_lock m k is cs ne going v in rw e at at
Step-Exclusive _ _ (Step.returns m k is cs i going) v = return-Exclusive m k is cs i going v
Step-Exclusive _ _ (Step.unlocks m k is cs i) v = unlock-Exclusive m k is cs i v
Step-Exclusive _ _ (Step.switches m k k' is cs fuel rsp sp e) v =
    switch-Exclusive m k k' is cs
      (returned-Keeps k k' sp _ (scheduler_handler-KeepsBlocked fuel rsp k) e) v
Step-Exclusive _ _ (Step.exits m k k' is cs fuel rsp sp going e) v =
    switch-Exclusive m k k' is cs
      (returned-Keeps k k' sp _ (thread_exit-KeepsBlocked fuel rsp k going) e) v

Run-Exclusive : (s s' : System) → Run s s' → Inv s → Inv s'
Run-Exclusive s _ (Run.done _) v = v
Run-Exclusive s s' (Run.more _ s1 _ r st) v = Step-Exclusive s1 s' st (Run-Exclusive s s1 r v)

init-Exclusive : (m : Mutex) (k : Kernel) → Exclusive (mutex_init m) k [] []
unfolding mutex_init
init-Exclusive m k = record {
  ws = [];
  granted = [];
  waiting = record {
    head = refl;
    tail = refl;
    links = tt;
    distinct = tt;
    not_null = refl;
    blocked = λ q i. absurd (false≢true i);
    locked = λ e. refl;
  };
  held = inl (refl, refl);
  from = λ t i. absurd (false≢true i);
}

Held-AtMostOne : (m : Mutex) (cs gs : List ℕ) → Held m (cs ++ gs) → AtMostOne m cs
Held-AtMostOne m cs gs (inl (z, e)) = inl (append-none cs gs e).0
Held-AtMostOne m cs gs (inr (nz, (o, e))) = elim (append-one cs gs o e) [
  | inl (none_there, _) ↦ inl none_there
  | inr (one, _) ↦ inr (nz, (o, one))
]

-- After `mutex_init`, in every sequence of calls of `mutex_lock`, which return at once or behind their `yield`, of
-- `mutex_unlock` by a thread to which `mutex_lock` has returned, and of switches and exits through
-- `scheduler_handler`, in which no `yield` returns to a thread that is still blocked: at most one thread is between
-- `mutex_lock` and `mutex_unlock`, and the mutex is locked while one is.
pub mutual_exclusion :
    (m : Mutex) (k : Kernel) (s : System)
    → Run (record { mutex = mutex_init m; kernel = k; inside = []; critical = [] }) s
    → AtMostOne s.mutex s.critical
mutual_exclusion m k s r =
    let v = Run-Exclusive _ s r (init-Exclusive m k) in
    Held-AtMostOne s.mutex s.critical v.granted v.held
