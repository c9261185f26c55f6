-- ===== src/Scheduler/Search.antt =====
-- The search for the next thread goes once round the ring.
use destin_x.Prelude.{
  ℕ, zero, suc, ◌<◌, ◌≡◌, ◌≢◌, sym, ◌∙◌, inl, inr, true, Option, none, some, List, [], ◌∷◌, ◌++◌,
  arith, if◌then◌else◌, Bool-cases, ==_self, length, ◌∈◌, ◌∉◌,
}
use mathlib.Core.List.{append-nil}
use destin_x.Links.{if_ne, ne_of_mem, not-mem_of_append, not-mem-append}
use destin_x.Thread.{ThreadState, Kernel, next_of, prev_of}
use destin_x.Thread.Ring.{Distinct, Walk, Walk-append, Walk-split}
use destin_x.Thread.Queue.{IsRing, Distinct-middle}
use destin_x.Scheduler.{runnable, find_next}

-- The first runnable thread of a list.
unfoldable pub first_runnable : (ℕ → ThreadState) → List ℕ → Option ℕ
first_runnable st [] = none
first_runnable st (x ∷ xs) = if runnable (st x) then some x else first_runnable st xs

-- The first runnable thread of a list, or else the given one.
unfoldable pub choose : (ℕ → ThreadState) → List ℕ → ℕ → ℕ
choose st [] d = d
choose st (x ∷ xs) d = if runnable (st x) then x else choose st xs d

abbrev pub state_of : Kernel → ℕ → ThreadState
state_of k t = (k.thread t).state

-- With fuel for one round the search returns the first runnable thread from `t` on.
pub find_next_lem :
    (fuel start t : ℕ) (xs : List ℕ) (k : Kernel)
    → Walk (next_of k) (prev_of k) t xs start
    → start ∉ xs
    → length xs < fuel
    → find_next fuel start t k ≡ some (first_runnable (state_of k) (t ∷ xs))
unfolding find_next first_runnable
find_next_lem zero start t xs k w out enough = absurd (omega arith)
find_next_lem (suc fuel) start t [] k w out enough = ground (arith, w)
find_next_lem (suc fuel) start t (x ∷ xs) k w out enough =
    let ih = find_next_lem fuel start x xs k w.1 (ground (arith, out)) (omega arith) in
    let nx : x ≢ start = λ e. ne_of_mem start x (x ∷ xs) out (rw (==_self x)) (sym e) in
    elim (Bool-cases (runnable (k.thread t).state)) [
      | inl go_on ↦ rw go_on
      | inr wait ↦ rw (wait, w.0.0) (if_ne x start _ _ nx ∙ ih)
    ]

Distinct-insert :
    (xs : List ℕ) (x : ℕ) (ys : List ℕ)
    → Distinct (xs ++ ys)
    → x ∉ (xs ++ ys)
    → Distinct (xs ++ (x ∷ ys))
Distinct-insert [] x ys d out = (out, d)
Distinct-insert (z ∷ xs) x ys d out =
    let (zx, zy) = not-mem_of_append z xs ys d.0 in
    (
      not-mem-append z xs (x ∷ ys) zx (ground (arith, zy, out)),
      Distinct-insert xs x ys d.1 (ground (arith, out)),
    )

Distinct-swap : (xs ys : List ℕ) → Distinct (xs ++ ys) → Distinct (ys ++ xs)
Distinct-swap [] ys d = rw append-nil d
Distinct-swap (x ∷ xs) ys d =
    let (ox, oy) = not-mem_of_append x xs ys d.0 in
    Distinct-insert ys x xs (Distinct-swap xs ys d.1) (not-mem-append x ys xs oy ox)

-- Seen from any of its threads a ring is a walk round the others.
pub IsRing-Walk :
    (k : Kernel) (t : ℕ) (xs ys : List ℕ)
    → IsRing k (xs ++ (t ∷ ys))
    → Walk (next_of k) (prev_of k) t (ys ++ xs) t × (t ∉ (ys ++ xs)) × Distinct (ys ++ xs)
IsRing-Walk k t [] ys (at, null, d, w) = (rw append-nil w, rw append-nil d.0, rw append-nil d.1)
IsRing-Walk k t (h ∷ xs) ys (at, null, d, w) =
    let (w1, w2) = Walk-split (next_of k) (prev_of k) h xs t ys h w in
    let (rest, _, _, tx, ty) = Distinct-middle (h ∷ xs) t ys d in
    (
      Walk-append (next_of k) (prev_of k) t ys h xs t w2 w1,
      not-mem-append t ys (h ∷ xs) ty tx,
      Distinct-swap (h ∷ xs) ys rest,
    )

pub Walk-frame :
    (n v n' v' : ℕ → ℕ) (a : ℕ) (xs : List ℕ) (b : ℕ)
    → ((q : ℕ) → n' q ≡ n q)
    → ((q : ℕ) → v' q ≡ v q)
    → Walk n v a xs b
    → Walk n' v' a xs b
Walk-frame n v n' v' a [] b en ev w = (en a ∙ w.0, ev b ∙ w.1)
Walk-frame n v n' v' a (x ∷ xs) b en ev w =
    ((en a ∙ w.0.0, ev x ∙ w.0.1), Walk-frame n v n' v' x xs b en ev w.1)

-- A ring is kept by what changes no link.
pub IsRing-frame :
    (k k' : Kernel) (xs : List ℕ)
    → k'.ready_list_head ≡ k.ready_list_head
    → ((q : ℕ) → next_of k' q ≡ next_of k q)
    → ((q : ℕ) → prev_of k' q ≡ prev_of k q)
    → IsRing k xs
    → IsRing k' xs
IsRing-frame k k' [] eh en ev r = eh ∙ r
IsRing-frame k k' (h ∷ ts) eh en ev (at, null, d, w) =
    (eh ∙ at, null, d, Walk-frame (next_of k) (prev_of k) _ _ h ts h en ev w)

pub first_runnable_or_last :
    (st st' : ℕ → ThreadState) (xs : List ℕ) (d : ℕ)
    → ((q : ℕ) → q ∈ xs → st' q ≡ st q)
    → runnable (st' d) ≡ true
    → first_runnable st' (xs ++ (d ∷ [])) ≡ some (choose st xs d)
unfolding first_runnable choose
first_runnable_or_last st st' [] d same last_one = rw last_one
first_runnable_or_last st st' (x ∷ xs) d same last_one =
    let ih = first_runnable_or_last st st' xs d (λ q i. same q (ground (arith, i))) last_one in
    rw (same x (rw (==_self x)), ih) (ground arith)
