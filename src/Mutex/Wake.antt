-- ===== src/Mutex/Wake.antt =====
-- `mutex_unlock` hands the mutex to the thread that has waited longest.
use destin_x.Prelude.{
  ℕ, ◌≡◌, ◌≢◌, refl, sym, ap, ◌∙◌, List, [], ◌∷◌, ◌++◌, arith, ◌==◌, if◌then◌else◌, ==_self, ◌∈◌,
  ◌∉◌,
}
use destin_x.Links.{first, last, if_ne, ne_of_mem}
use destin_x.Thread.{ThreadState, Kernel, set_thread, next_of, prev_of, enqueue_thread}
use destin_x.Thread.Ring.{Walk}
use destin_x.Thread.Queue.{IsRing, enqueue_thread-IsRing}
use destin_x.Mutex.{Mutex, next_blocked_of, wake, mutex_unlock}
use destin_x.Mutex.Waiters.{state_of, Follows-frame, IsWaiting}

-- Nobody waits and the mutex becomes free, or the first thread that waits becomes ready, joins the
-- ready queue at its end, and the mutex stays locked for it.
abbrev pub Unlocked : Mutex → Kernel → List ℕ → Mutex → Kernel → Type 0
Unlocked m k [] m' k' = (m'.locked ≡ 0) × (k' ≡ k) × IsWaiting m' k' []
Unlocked m k (w ∷ ws) m' k' =
    (m'.locked ≡ m.locked)
    × IsWaiting m' k' ws
    × (state_of k' w ≡ ThreadState.ready)
    × ((q : ℕ) → w ≢ q → state_of k' q ≡ state_of k q)
    × (k'.current_thread ≡ k.current_thread)
    × ((xs : List ℕ) → IsRing k xs → w ∉ xs → IsRing k' (xs ++ (w ∷ [])))

-- `enqueue_thread` changes only links and the head of the queue.
pub state-enqueue :
    (t : ℕ) (k : Kernel) (q : ℕ)
    → (state_of (enqueue_thread t k) q ≡ state_of k q)
      × (next_blocked_of (enqueue_thread t k) q ≡ next_blocked_of k q)
unfolding enqueue_thread
state-enqueue t k q = ground arith

pub current-enqueue : (t : ℕ) (k : Kernel) → (enqueue_thread t k).current_thread ≡ k.current_thread
unfolding enqueue_thread
current-enqueue t k = ground arith

pub Walk-frame :
    (n v n' v' : ℕ → ℕ) (a : ℕ) (xs : List ℕ) (b : ℕ)
    → ((q : ℕ) → (n' q ≡ n q) × (v' q ≡ v q))
    → Walk n v a xs b
    → Walk n' v' a xs b
Walk-frame n v n' v' a [] b same w = ((same a).0 ∙ w.0, (same b).1 ∙ w.1)
Walk-frame n v n' v' a (x ∷ xs) b same w =
    (((same a).0 ∙ w.0.0, (same x).1 ∙ w.0.1), Walk-frame n v n' v' x xs b same w.1)

tail_cases :
    (t w : ℕ) (ws : List ℕ)
    → t ≡ last 0 (w ∷ ws)
    → 0 ∉ ws
    → (if first ws == 0 then 0 else t) ≡ last 0 ws
tail_cases t w [] e out = refl
tail_cases t w (x ∷ ws) e out =
    if_ne x 0 _ _ (λ z. ne_of_mem 0 x (x ∷ ws) out (rw (==_self x)) (sym z)) ∙ e

module _ (m : Mutex) (k : Kernel) (w : ℕ) (ws : List ℕ) (v : IsWaiting m k (w ∷ ws)) where
  readied : Kernel
  readied = set_thread w (record (k.thread w) { state = ThreadState.ready; next_blocked = 0 }) k

  state-readied :
      (q : ℕ) → state_of readied q ≡ (if w == q then ThreadState.ready else state_of k q)
  unfolding readied
  state-readied q = ground arith

  next_blocked-readied :
      (q : ℕ) → next_blocked_of readied q ≡ (if w == q then 0 else next_blocked_of k q)
  unfolding readied
  next_blocked-readied q = ground arith

  links-readied : (q : ℕ) → (next_of readied q ≡ next_of k q) × (prev_of readied q ≡ prev_of k q)
  unfolding readied
  links-readied q = ground arith

  woken : Mutex
  woken = record m {
    blocked_head = first ws;
    blocked_tail = if first ws == 0 then 0 else m.blocked_tail;
  }

  wake_first : wake m k ≡ (woken, enqueue_thread w readied)
  unfolding wake woken readied
  wake_first =
      let head : m.blocked_head ≡ w = v.head in
      let rest : (k.thread w).next_blocked ≡ first ws = v.links.0 in rw (head, rest)

  not_null_rest : 0 ∉ ws
  not_null_rest = ground (arith, v.not_null)

  null_first : 0 ≢ w
  null_first = ne_of_mem 0 w (w ∷ ws) v.not_null (rw (==_self w))

  other : (q : ℕ) → q ∈ ws → w ≢ q
  other q i = ne_of_mem w q ws v.distinct.0 i

  woken-IsWaiting : IsWaiting woken (enqueue_thread w readied) ws
  unfolding woken
  woken-IsWaiting = record {
    head = refl;
    tail = tail_cases m.blocked_tail w ws v.tail not_null_rest;
    links =
        Follows-frame (next_blocked_of k) _ ws v.links.1 (λ q i.
          (state-enqueue w readied q).1 ∙ next_blocked-readied q ∙ if_ne w q _ _ (other q i));
    distinct = v.distinct.1;
    not_null = not_null_rest;
    blocked = λ q i.
        (state-enqueue w readied q).0
        ∙ state-readied q
        ∙ if_ne w q _ _ (other q i)
        ∙ v.blocked q (ground (arith, i));
    locked = λ e. absurd (null_first (sym (ap first (v.locked e))));
  }

  readied-IsRing : (xs : List ℕ) → IsRing k xs → IsRing readied xs
  unfolding readied
  readied-IsRing [] r = r
  readied-IsRing (h ∷ ts) (at, null, d, walk) =
      (at, null, d, Walk-frame _ _ _ _ h ts h links-readied walk)

  unlock_first : mutex_unlock m k ≡ (woken, enqueue_thread w readied)
  unfolding mutex_unlock
  unlock_first = if_ne m.blocked_head 0 _ _ (rw (v.head) (λ e. null_first (sym e))) ∙ wake_first

  current-readied : readied.current_thread ≡ k.current_thread
  unfolding readied
  current-readied = refl

  locked-woken : woken.locked ≡ m.locked
  unfolding woken
  locked-woken = refl

  woken-Unlocked : Unlocked m k (w ∷ ws) woken (enqueue_thread w readied)
  woken-Unlocked = (
    locked-woken,
    woken-IsWaiting,
    (state-enqueue w readied w).0 ∙ state-readied w ∙ rw (==_self w),
    λ q wq. (state-enqueue w readied q).0 ∙ state-readied q ∙ if_ne w q _ _ wq,
    current-enqueue w readied ∙ current-readied,
    λ xs r out.
        enqueue_thread-IsRing readied w xs (readied-IsRing xs r) (λ e. null_first (sym e)) out,
  )

-- `mutex_unlock` frees the mutex when nobody waits. Otherwise it makes the thread that has waited
-- longest ready, takes it out of the queue and, when it is not in the ready ring, puts it behind the last thread
-- of that ring; the mutex stays locked for it, and no other thread changes its state.
pub mutex_unlock-Unlocked :
    (m : Mutex) (k : Kernel) (ws : List ℕ)
    → IsWaiting m k ws
    → Unlocked m k ws (mutex_unlock m k).0 (mutex_unlock m k).1
unfolding mutex_unlock
mutex_unlock-Unlocked m k [] v = rw (v.head) (
  refl,
  refl,
  record {
    head = refl;
    tail = v.tail;
    links = tt;
    distinct = tt;
    not_null = refl;
    blocked = v.blocked;
    locked = λ e. refl;
  },
)
mutex_unlock-Unlocked m k (w ∷ ws) v = rw (unlock_first m k w ws v) (woken-Unlocked m k w ws v)
