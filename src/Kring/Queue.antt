-- ===== src/Kring/Queue.antt =====
-- A ring holds a queue of characters.
use destin_x.Prelude.{
  ℕ, ◌+◌, ◌^◌, ◌≤◌, ◌<◌, ◌≡◌, ◌≢◌, refl, sym, ap, ◌∙◌, true, false, List, [], ◌∷◌, ◌++◌, arith, ltb,
  if◌then◌else◌, add64, ==_self, length, length-append,
}
use mathlib.Core.List.{append-nil}
use destin_x.Links.{if_ne}
use destin_x.Printf.{take}
use destin_x.Kring.{
  LogEntry, Ring, Kring, kring_write, position, set_entry, store, write_ring, kring_buf_max,
}

-- From index `p` on the entries are ready and hold these characters.
abbrev pub Stored : (ℕ → LogEntry) → ℕ → List ℕ → Type 0
Stored entries p [] = Unit {0}
Stored entries p (x ∷ xs) =
    (entries (position p) ≡ record { c = x; ready = 1 }) × Stored entries (p + 1) xs

-- The characters `xs` wait in the ring, the oldest first. Indices have not wrapped round at 2^64.
pub record Holds (r : Ring) (xs : List ℕ) : Type 0 where
  pub fits : length xs ≤ kring_buf_max
  pub ends : r.head ≡ r.tail + length xs
  pub small : r.head < 2 ^ 63
  pub stored : Stored r.entries r.tail xs

-- Entries out of reach may change.
pub Stored-frame :
    (f g : ℕ → LogEntry) (p : ℕ) (xs : List ℕ)
    → ((q : ℕ) → p ≤ q → q < p + length xs → g (position q) ≡ f (position q))
    → Stored f p xs
    → Stored g p xs
Stored-frame f g p [] same s = tt
Stored-frame f g p (x ∷ xs) same s = (
  same p (omega arith) (omega arith) ∙ s.0,
  Stored-frame f g (p + 1) xs (λ q lo hi. same q (omega (arith, lo)) (omega (arith, hi))) s.1,
)

pub Stored-append :
    (f : ℕ → LogEntry) (p q : ℕ) (xs ys : List ℕ)
    → q ≡ p + length xs
    → Stored f p xs
    → Stored f q ys
    → Stored f p (xs ++ ys)
Stored-append f p q [] ys e s t = let pq : q ≡ p = omega (arith, e) in rw pq at t
Stored-append f p q (x ∷ xs) ys e s t =
    (s.0, Stored-append f (p + 1) q xs ys (omega (arith, e)) s.1 t)

-- Two indices less than 4096 apart have different places.
pub position-ne : (p q : ℕ) → p < q → q < p + 4096 → position p ≢ position q
position-ne p q lt near e = absurd (omega (arith, e))

store_head :
    (p : ℕ) (cs : List ℕ) (r : Ring)
    → ((store p cs r).head ≡ r.head)
      × ((store p cs r).tail ≡ r.tail)
      × ((store p cs r).present ≡ r.present)
unfolding store
store_head p [] r = (refl, refl, refl)
store_head p (c ∷ cs) r = store_head (add64 p 1) cs _

store_step :
    (p c : ℕ) (cs : List ℕ) (r : Ring)
    → p + 1 < 2 ^ 64
    → store p (c ∷ cs) r ≡ store (p + 1) cs (set_entry (position p) (record { c = c; ready = 1 }) r)
unfolding store
store_step p c cs r small = let step : add64 p 1 ≡ p + 1 = omega arith in rw step refl

store_nothing : (p : ℕ) (r : Ring) (a : ℕ) → (store p [] r).entries a ≡ r.entries a
unfolding store
store_nothing p r a = refl

-- Storing changes only the places of the new characters.
store_other :
    (p : ℕ) (cs : List ℕ) (r : Ring) (q : ℕ)
    → p + length cs < 2 ^ 64
    → ((j : ℕ) → p ≤ j → j < p + length cs → position j ≢ position q)
    → (store p cs r).entries (position q) ≡ r.entries (position q)
store_other p [] r q small apart = store_nothing p r (position q)
store_other p (c ∷ cs) r q small apart =
    ap (λ (t : Ring). t.entries (position q)) (store_step p c cs r (omega (arith, small)))
    ∙ store_other (p + 1) cs _ q (omega (arith, small))
        (λ j lo hi. apart j (omega (arith, lo)) (omega (arith, hi)))
    ∙ if_ne (position p) (position q) _ _ (apart p (omega arith) (omega arith))

store-Stored :
    (p : ℕ) (cs : List ℕ) (r : Ring)
    → p + length cs < 2 ^ 64
    → length cs ≤ 4096
    → Stored (store p cs r).entries p cs
store-Stored p [] r small few = tt
store-Stored p (c ∷ cs) r small few =
    let r1 = set_entry (position p) (record { c = c; ready = 1 }) r in
    let step : store p (c ∷ cs) r ≡ store (p + 1) cs r1 =
      store_step p c cs r (omega (arith, small)) in
    (
      ap (λ (t : Ring). t.entries (position p)) step
          ∙ store_other (p + 1) cs r1 p (omega (arith, small))
              (λ j lo hi e. position-ne p j (omega (arith, lo)) (omega (arith, hi, few)) (sym e))
          ∙ rw (==_self (position p)),
      Stored-frame (store (p + 1) cs r1).entries (store p (c ∷ cs) r).entries (p + 1) cs
          (λ q lo hi. ap (λ (t : Ring). t.entries (position q)) step)
          (store-Stored (p + 1) cs r1 (omega (arith, small)) (omega (arith, few))),
    )

appended :
    (s xs : List ℕ) (r : Ring)
    → Holds r xs
    → length xs + length s ≤ kring_buf_max
    → r.head + length s < 2 ^ 63
    → Stored (store r.head s (record r { head = r.head + length s })).entries r.tail (xs ++ s)
appended s xs r h room small =
    let r1 : Ring = record r { head = r.head + length s } in
    Stored-append (store r.head s r1).entries r.tail r.head xs s h.ends
      (Stored-frame r.entries (store r.head s r1).entries r.tail xs
        (λ q lo hi. store_other r.head s r1 q (omega arith) (λ j jlo jhi e.
          position-ne q j (omega (arith, hi, jlo, h.ends)) (omega (arith, lo, jhi, h.ends, room))
            (sym e)))
        h.stored)
      (store-Stored r.head s r1 (omega arith) (omega (arith, room)))

-- Writing puts the characters behind those that wait, when there is room for all of them.
pub write_ring-Holds :
    (s xs : List ℕ) (r : Ring)
    → Holds r xs
    → length xs + length s ≤ kring_buf_max
    → r.head + length s < 2 ^ 63
    → Holds (write_ring s r) (xs ++ s)
unfolding write_ring
write_ring-Holds s xs r h room small =
    let whole : ltb kring_buf_max (length s) ≡ false = ground (arith, room) in
    let step : add64 r.head (length s) ≡ r.head + length s = omega arith in
    let r1 : Ring = record r { head = r.head + length s } in
    let (hd, tl, pr) = store_head r.head s r1 in
    rw (whole, step)
      (record {
        fits = omega (arith, length-append xs s, room);
        ends = hd ∙ omega (arith, length-append xs s, tl, h.ends);
        small = omega (arith, hd, small);
        stored = rw tl (appended s xs r h room small);
      })

pub present-write_ring : (s : List ℕ) (r : Ring) → (write_ring s r).present ≡ r.present
unfolding write_ring
present-write_ring s r =
    let s' = if ltb kring_buf_max (length s) then take kring_buf_max s else s in
    (store_head r.head s' (record r { head = add64 r.head (length s') })).2

tail-write_ring : (s : List ℕ) (r : Ring) → (write_ring s r).tail ≡ r.tail
unfolding write_ring
tail-write_ring s r =
    let s' = if ltb kring_buf_max (length s) then take kring_buf_max s else s in
    (store_head r.head s' (record r { head = add64 r.head (length s') })).1

-- What a write does to a ring: nothing for an empty string.
abbrev pub WriteTo : List ℕ → Ring → Ring → Type 0
WriteTo [] r r' = r' ≡ r
WriteTo (c ∷ cs) r r' = r' ≡ write_ring (c ∷ cs) r

pub ring_or_same :
    (s xs : List ℕ) (r r' : Ring)
    → Holds r xs
    → length xs + length s ≤ kring_buf_max
    → r.head + length s < 2 ^ 63
    → WriteTo s r r'
    → Holds r' (xs ++ s) × (r'.present ≡ r.present) × (r'.tail ≡ r.tail)
ring_or_same [] xs r r' h room small e = rw (e, append-nil xs) (h, refl, refl)
ring_or_same (c ∷ cs) xs r r' h room small e = rw e (
  write_ring-Holds (c ∷ cs) xs r h room small,
  present-write_ring (c ∷ cs) r,
  tail-write_ring (c ∷ cs) r,
)

pub to_write_ring :
    (s : List ℕ) (k : Kring)
    → k.write_kring.present ≡ true
    → WriteTo s k.write_kring (kring_write s 1 k).write_kring
      × ((kring_write s 1 k).read_kring ≡ k.read_kring)
unfolding kring_write
to_write_ring [] k on = (refl, refl)
to_write_ring (c ∷ cs) k on = ground (arith, on)

pub to_read_ring :
    (s : List ℕ) (k : Kring)
    → k.read_kring.present ≡ true
    → WriteTo s k.read_kring (kring_write s 0 k).read_kring
      × ((kring_write s 0 k).write_kring ≡ k.write_kring)
unfolding kring_write
to_read_ring [] k on = (refl, refl)
to_read_ring (c ∷ cs) k on = ground (arith, on)
