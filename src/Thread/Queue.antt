-- ===== src/Thread/Queue.antt =====
-- The ready queue is a ring: `enqueue_thread` and `dequeue_thread` against a list of threads.
use destin_x.Prelude.{
  ℕ, ◌≡◌, ◌≢◌, refl, sym, ◌∙◌, inl, inr, List, [], ◌∷◌, ◌++◌, arith, ◌==◌, if◌then◌else◌,
  Bool-cases, ==_iff, ==_self, has, ◌∈◌, ◌∉◌,
}
use mathlib.Core.List.{append-nil}
use mathlib.Core.Bool.{false≢true}
use destin_x.Links.{
  last, if_ne, last-ne, ne_of_mem, not-mem-append, not-mem_of_append, not-mem_of_middle,
}
use destin_x.Thread.{Kernel, next_of, prev_of, enqueue_thread, dequeue_thread}
use destin_x.Thread.Ring.{Distinct, Walk, Walk-last, Walk-append, Walk-split, Walk-redirect}

-- The ring at the head holds the threads `xs` in order, starting from the head.
abbrev pub IsRing : Kernel → List ℕ → Type 0
IsRing k [] = k.ready_list_head ≡ 0
IsRing k (h ∷ ts) =
    (k.ready_list_head ≡ h)
    × (0 ∉ (h ∷ ts))
    × Distinct (h ∷ ts)
    × Walk (next_of k) (prev_of k) h ts h

pub Distinct-middle :
    (xs : List ℕ) (t : ℕ) (ys : List ℕ)
    → Distinct (xs ++ (t ∷ ys))
    → Distinct (xs ++ ys) × Distinct xs × Distinct ys × (t ∉ xs) × (t ∉ ys)
Distinct-middle [] t ys d = (d.1, tt, d.1, refl, d.0)
Distinct-middle (x ∷ xs) t ys d =
    let (a, b, c, e, f) = Distinct-middle xs t ys d.1 in
    let (ox, tx, oy, oxy) = not-mem_of_middle x xs t ys d.0 in
    ((oxy, a), (ox, b), c, ground (arith, tx, e), f)

pub Distinct-snoc : (xs : List ℕ) (t : ℕ) → Distinct xs → t ∉ xs → Distinct (xs ++ (t ∷ []))
Distinct-snoc [] t d out = (refl, tt)
Distinct-snoc (x ∷ xs) t d out =
    (not-mem-append x xs (t ∷ []) d.0 (ground arith), Distinct-snoc xs t d.1 (ground arith))

module _ (k : Kernel) (t h : ℕ) (ne : h ≢ 0) (at : k.ready_list_head ≡ h) where
  enqueued : Kernel
  unfolding enqueue_thread
  enqueued = enqueue_thread t k

  next-enqueued :
      (q : ℕ)
      → next_of enqueued q ≡ (if t == q then h else if prev_of k h == q then t else next_of k q)
  unfolding enqueued
  next-enqueued q = ground (arith, ne, at)

  prev-enqueued :
      (q : ℕ)
      → prev_of enqueued q ≡ (if h == q then t else if t == q then prev_of k h else prev_of k q)
  unfolding enqueued
  prev-enqueued q = ground (arith, ne, at)

  head-enqueued : enqueued.ready_list_head ≡ h
  unfolding enqueued
  head-enqueued = ground (arith, ne, at)

-- `enqueue_thread` of a thread that is not in the ring puts it behind the last thread.
pub enqueue_thread-IsRing :
    (k : Kernel) (t : ℕ) (xs : List ℕ)
    → IsRing k xs
    → t ≢ 0
    → t ∉ xs
    → IsRing (enqueue_thread t k) (xs ++ (t ∷ []))
unfolding enqueue_thread enqueued
enqueue_thread-IsRing k t [] r ne new = ground (arith, ne)
enqueue_thread-IsRing k t (h ∷ ts) (at, null, d, w) ne new =
    let nh : h ≢ 0 = λ e. ne_of_mem 0 h (h ∷ ts) null (rw (==_self h)) (sym e) in
    let ht : h ≢ t = λ e. ne_of_mem t h (h ∷ ts) new (rw (==_self h)) (sym e) in
    let tail : prev_of k h ≡ last h ts = (Walk-last (next_of k) (prev_of k) h ts h w).0 in
    let tl : t ≢ last h ts = λ e. last-ne t h ts new (sym e) in
    (
      head-enqueued k t h nh at,
      not-mem-append 0 (h ∷ ts) (t ∷ []) null (ground (arith, ne)),
      Distinct-snoc (h ∷ ts) t d new,
      Walk-append _ _ h ts t [] h
          (Walk-redirect (next_of k) (prev_of k) _ _ h ts h t w d
            (λ q i l.
              next-enqueued k t h nh at q
              ∙ if_ne t q _ _ (ne_of_mem t q (h ∷ ts) new i)
              ∙ if_ne (prev_of k h) q _ _ (rw tail l))
            (λ q i.
              prev-enqueued k t h nh at q
              ∙ if_ne h q _ _ (ne_of_mem h q ts d.0 i)
              ∙ if_ne t q _ _ (ne_of_mem t q ts (not-mem_of_append t (h ∷ []) ts new).1 i))
            (next-enqueued k t h nh at (last h ts)
              ∙ if_ne t (last h ts) _ _ tl
              ∙ rw (tail, ==_self (last h ts)))
            (prev-enqueued k t h nh at t ∙ if_ne h t _ _ ht ∙ rw (==_self t) tail))
          (
            next-enqueued k t h nh at t ∙ rw (==_self t),
            prev-enqueued k t h nh at h ∙ rw (==_self h),
          ),
    )

mem_of_tail : (q r : ℕ) (rs : List ℕ) → q ∈ rs → q ∈ (r ∷ rs)
mem_of_tail q r rs i = ground (arith, i)

last-mem : (x : ℕ) (xs : List ℕ) → last x xs ∈ (x ∷ xs)
last-mem x [] = rw (==_self x)
last-mem x (y ∷ ys) = mem_of_tail (last y ys) x (y ∷ ys) (last-mem y ys)

Distinct-apart : (xs ys : List ℕ) (a b : ℕ) → Distinct (xs ++ ys) → a ∈ xs → b ∈ ys → a ≢ b
Distinct-apart [] ys a b d i j = absurd (false≢true i)
Distinct-apart (x ∷ xs) ys a b d i j = elim (Bool-cases (x == a)) [
  | inl e ↦ ne_of_mem a b ys (rw ((==_iff x a).0 e) at (not-mem_of_append x xs ys d.0).1) j
  | inr e ↦ Distinct-apart xs ys a b d.1 (rw e at i) j
]

not-mem_of_front : (y : ℕ) (xs ys : List ℕ) (h : ℕ) → Distinct (h ∷ (xs ++ ys)) → y ∈ ys → y ∉ xs
not-mem_of_front y xs ys h d j = elim (Bool-cases (has y xs)) [
  | inl i ↦ absurd (Distinct-apart xs ys y y d.1 i j refl)
  | inr out ↦ out
]

module _ (k : Kernel) (t : ℕ) (ne : next_of k t ≢ t) (ne' : prev_of k t ≢ t) where
  dequeued : Kernel
  unfolding dequeue_thread
  dequeued = dequeue_thread t k

  next-dequeued :
      (q : ℕ) → t ≢ q → next_of dequeued q ≡ (if prev_of k t == q then next_of k t else next_of k q)
  unfolding dequeued
  next-dequeued q tq = ground (arith, ne, ne', tq)

  prev-dequeued :
      (q : ℕ) → t ≢ q → prev_of dequeued q ≡ (if next_of k t == q then prev_of k t else prev_of k q)
  unfolding dequeued
  prev-dequeued q tq = ground (arith, ne, ne', tq)

  head-dequeued :
      dequeued.ready_list_head ≡ (if k.ready_list_head == t then next_of k t else k.ready_list_head)
  unfolding dequeued
  head-dequeued = ground (arith, ne, ne')

  -- The ring that is left when the head goes.
  dequeued_head : (r : ℕ) (rs : List ℕ) → IsRing k (t ∷ r ∷ rs) → IsRing dequeued (r ∷ rs)
  dequeued_head r rs (at, null, d, w) =
      let (pv, _) = Walk-last (next_of k) (prev_of k) r rs t w.1 in
      let far : (q : ℕ) → q ∈ (r ∷ rs) → t ≢ q = λ q i. ne_of_mem t q (r ∷ rs) d.0 i in
      (
        head-dequeued ∙ rw (at, ==_self t) w.0.0,
        (not-mem_of_append 0 (t ∷ []) (r ∷ rs) null).1,
        d.1,
        Walk-redirect (next_of k) (prev_of k) _ _ r rs t r w.1 d.1
            (λ q i l. next-dequeued q (far q i) ∙ if_ne (prev_of k t) q _ _ (rw pv l))
            (λ q i.
              prev-dequeued q (far q (in_tail q r rs i))
              ∙ if_ne (next_of k t) q _ _ (rw (w.0.0) (ne_of_mem r q rs d.1.0 i)))
            (next-dequeued (last r rs) (λ e. last-ne t r rs d.0 (sym e))
              ∙ rw (pv, ==_self (last r rs)) (w.0.0))
            (prev-dequeued r (far r (rw (==_self r))) ∙ rw (w.0.0, ==_self r) pv),
      )
    where
      in_tail : (q r : ℕ) (rs : List ℕ) → q ∈ rs → q ∈ (r ∷ rs)
      in_tail q r rs i = ground (arith, i)

  -- The walk up to the removed thread leads on to the one behind it.
  redirected :
      (h : ℕ) (xs : List ℕ) (c : ℕ)
      → Walk (next_of k) (prev_of k) h xs t
      → Distinct (h ∷ xs)
      → t ∉ (h ∷ xs)
      → prev_of k t ≡ last h xs
      → next_of k t ≡ c
      → c ∉ xs
      → t ≢ c
      → Walk (next_of dequeued) (prev_of dequeued) h xs c
  redirected h xs c w d out pv nx cx tc =
      Walk-redirect (next_of k) (prev_of k) _ _ h xs t c w d
        (λ q i l.
          next-dequeued q (ne_of_mem t q (h ∷ xs) out i) ∙ if_ne (prev_of k t) q _ _ (rw pv l))
        (λ q i.
          prev-dequeued q (ne_of_mem t q (h ∷ xs) out (mem_of_tail q h xs i))
          ∙ if_ne (next_of k t) q _ _ (rw nx (ne_of_mem c q xs cx i)))
        (next-dequeued (last h xs) (ne_of_mem t (last h xs) (h ∷ xs) out (last-mem h xs))
          ∙ rw (pv, ==_self (last h xs)) nx)
        (prev-dequeued c tc ∙ rw (nx, ==_self c) pv)

  -- The ring that is left when a thread behind the head goes.
  dequeued_later :
      (h : ℕ) (xs ys : List ℕ) → IsRing k (h ∷ (xs ++ (t ∷ ys))) → IsRing dequeued (h ∷ (xs ++ ys))
  dequeued_later h xs ys (at, null, d, w) =
      let (dd, dx, dy, tx, ty) = Distinct-middle (h ∷ xs) t ys d in
      let (w1, w2) = Walk-split (next_of k) (prev_of k) h xs t ys h w in
      let pv = (Walk-last (next_of k) (prev_of k) h xs t w1).0 in
      let ht : h ≢ t = λ e. ne_of_mem t h (h ∷ xs) tx (rw (==_self h)) (sym e) in
      (
        head-dequeued ∙ if_ne k.ready_list_head t _ _ (rw at ht) ∙ at,
        (not-mem_of_middle 0 (h ∷ xs) t ys null).3,
        dd,
        walk ys dd dx dy ty w2 w1 pv tx,
      )
    where
      walk :
          (ys : List ℕ)
          → Distinct (h ∷ (xs ++ ys))
          → Distinct (h ∷ xs)
          → Distinct ys
          → t ∉ ys
          → Walk (next_of k) (prev_of k) t ys h
          → Walk (next_of k) (prev_of k) h xs t
          → prev_of k t ≡ last h xs
          → t ∉ (h ∷ xs)
          → Walk (next_of dequeued) (prev_of dequeued) h (xs ++ ys) h
      walk [] dd dx dy ty w2 w1 pv tx = rw append-nil (redirected h xs h w1 dx tx pv w2.0 dx.0 ht)
        where
          ht : t ≢ h
          ht = ne_of_mem t h (h ∷ xs) tx (rw (==_self h))
      walk (y ∷ ys) dd dx dy ty w2 w1 pv tx =
          let hy : h ≢ y =
            Distinct-apart (h ∷ xs) (y ∷ ys) h y dd (rw (==_self h)) (rw (==_self y)) in
          let yx : y ∉ xs = not-mem_of_front y xs (y ∷ ys) h dd (rw (==_self y)) in
          let ht : t ≢ h = ne_of_mem t h (h ∷ xs) tx (rw (==_self h)) in
          let (lv, ln) = Walk-last (next_of k) (prev_of k) y ys h w2.1 in
          let keep : (q : ℕ) → q ∈ (y ∷ ys) → next_of dequeued q ≡ next_of k q = λ q i.
            next-dequeued q (ne_of_mem t q (y ∷ ys) ty i)
            ∙ if_ne (prev_of k t) q _ _
                (rw pv (Distinct-apart (h ∷ xs) (y ∷ ys) (last h xs) q dd (last-mem h xs) i)) in
          Walk-append _ _ h xs y ys h
            (redirected h xs y w1 dx tx pv w2.0.0 yx (ne_of_mem t y (y ∷ ys) ty (rw (==_self y))))
            (Walk-redirect (next_of k) (prev_of k) _ _ y ys h h w2.1 dy (λ q i l. keep q i)
              (λ q i.
                prev-dequeued q (ne_of_mem t q (y ∷ ys) ty (mem_of_tail q y ys i))
                ∙ if_ne (next_of k t) q _ _ (rw (w2.0.0) (ne_of_mem y q ys dy.0 i)))
              (keep (last y ys) (last-mem y ys) ∙ ln)
              (prev-dequeued h ht ∙ if_ne (next_of k t) h _ _ (rw (w2.0.0) (λ e. hy (sym e))) ∙ lv))

dequeue_only : (k : Kernel) (t : ℕ) → next_of k t ≡ t → (dequeue_thread t k).ready_list_head ≡ 0
unfolding dequeue_thread
dequeue_only k t e = ground arith

next_ne :
    (k : Kernel) (t h : ℕ) (xs ys : List ℕ)
    → Walk (next_of k) (prev_of k) t ys h
    → t ∉ (h ∷ xs)
    → t ∉ ys
    → next_of k t ≢ t
next_ne k t h xs [] w tx ty e = ne_of_mem t h (h ∷ xs) tx (rw (==_self h)) (sym e ∙ w.0)
next_ne k t h xs (y ∷ ys) w tx ty e = ne_of_mem t y (y ∷ ys) ty (rw (==_self y)) (sym e ∙ w.0.0)

-- `dequeue_thread` of a thread of the ring takes out that thread and keeps the order of the
-- others; the queue is empty when it was the only one, and its next thread becomes the head when
-- it was the head.
pub dequeue_thread-IsRing :
    (k : Kernel) (t : ℕ) (xs ys : List ℕ)
    → IsRing k (xs ++ (t ∷ ys))
    → IsRing (dequeue_thread t k) (xs ++ ys)
dequeue_thread-IsRing k t [] [] (at, null, d, w) = dequeue_only k t w.0
dequeue_thread-IsRing k t [] (y ∷ ys) r =
    let (at, null, d, w) = r in
    let pv = (Walk-last (next_of k) (prev_of k) y ys t w.1).0 in
    unfold dequeued in
    dequeued_head k t (rw (w.0.0) (λ e. ne_of_mem t y (y ∷ ys) d.0 (rw (==_self y)) (sym e)))
      (rw pv (last-ne t y ys d.0)) y ys r
dequeue_thread-IsRing k t (h ∷ xs) ys r =
    let (at, null, d, w) = r in
    let (w1, w2) = Walk-split (next_of k) (prev_of k) h xs t ys h w in
    let (_, _, _, tx, ty) = Distinct-middle (h ∷ xs) t ys d in
    let pv = (Walk-last (next_of k) (prev_of k) h xs t w1).0 in
    unfold dequeued in
    dequeued_later k t (next_ne k t h xs ys w2 tx ty) (rw pv (last-ne t h xs tx)) h xs ys r
