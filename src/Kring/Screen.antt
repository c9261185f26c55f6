-- ===== src/Kring/Screen.antt =====
-- What waits in the write ring reaches the screen.
use destin_x.Prelude.{
  ℕ, zero, suc, ◌+◌, ◌-◌, ◌^◌, ◌≤◌, ◌<◌, ◌≡◌, ◌≢◌, refl, ◌∙◌, true, false, Option, some, List, [],
  ◌∷◌, ◌++◌, arith, ltb, ◌==◌, add64, sub64, lt→ltb, length, length-append,
}
use mathlib.Core.List.{append-nil, append_assoc}
use destin_x.Links.{if_ne}
use destin_x.Kring.{
  Ring, Kring, position, set_entry, drop_mark, flush_loop, kring_write, kring_flush_to_screen,
  kring_buf_max,
}
use destin_x.Kring.Queue.{Stored, Stored-frame, Holds, position-ne, ring_or_same, to_write_ring}

-- The loop has returned: the ring is empty, and the screen has these characters.
pub record Flushed (r : Ring) (screen : List ℕ) (out : Option (Ring × List ℕ)) : Type 0 where
  pub r' : Ring
  pub result : out ≡ some (r', screen)
  pub empty : r'.tail ≡ r'.head
  pub head : r'.head ≡ r.head

-- The ring after its oldest character is taken.
abbrev advanced : Ring → Ring
advanced r =
    record (set_entry (position r.tail) (record (r.entries (position r.tail)) { ready = 0 }) r) {
      tail = r.tail + 1;
    }

flush_one :
    (fuel : ℕ) (r : Ring) (x : ℕ) (xs screen : List ℕ)
    → Holds r (x ∷ xs)
    → flush_loop (suc fuel) r screen ≡ flush_loop fuel (advanced r) (screen ++ (x ∷ []))
unfolding flush_loop
flush_one fuel r x xs screen h =
    let near : sub64 r.head r.tail ≤ 4096 = omega (arith, h.ends, h.fits, h.small) in
    let lag : ltb kring_buf_max (sub64 r.head r.tail) ≡ false = ground (arith, near) in
    let some_left : r.tail ≢ r.head = omega (arith, h.ends) in
    let left : (r.tail == r.head) ≡ false = ground (arith, some_left) in
    let step : add64 r.tail 1 ≡ r.tail + 1 = omega (arith, h.ends, h.small) in
    let e : r.entries (position r.tail) ≡ record { c = x; ready = 1 } = h.stored.0 in
    rw (lag, left, step, e) refl

flush_none :
    (fuel : ℕ) (r : Ring) (screen : List ℕ)
    → Holds r []
    → flush_loop (suc fuel) r screen ≡ some (r, screen)
unfolding flush_loop
flush_none fuel r screen h =
    let near : sub64 r.head r.tail ≤ 4096 = omega (arith, h.ends, h.small) in
    let lag : ltb kring_buf_max (sub64 r.head r.tail) ≡ false = ground (arith, near) in
    let same : r.tail ≡ r.head = omega (arith, h.ends) in
    let left : (r.tail == r.head) ≡ true = ground (arith, same) in rw (lag, left) refl

advanced-Holds : (r : Ring) (x : ℕ) (xs : List ℕ) → Holds r (x ∷ xs) → Holds (advanced r) xs
advanced-Holds r x xs h = record {
  fits = omega (arith, h.fits);
  ends = omega (arith, h.ends);
  small = h.small;
  stored =
      Stored-frame r.entries (advanced r).entries (r.tail + 1) xs
        (λ q lo hi.
          if_ne (position r.tail) (position q) _ _
            (position-ne r.tail q (omega (arith, lo)) (omega (arith, hi, h.fits))))
        h.stored.1;
}

pub flush_loop-Flushed :
    (fuel : ℕ) (r : Ring) (xs screen : List ℕ)
    → Holds r xs
    → length xs < fuel
    → Flushed r (screen ++ xs) (flush_loop fuel r screen)
flush_loop-Flushed zero r xs screen h enough = absurd (omega arith)
flush_loop-Flushed (suc fuel) r [] screen h enough = record {
  r' = r;
  result = flush_none fuel r screen h ∙ rw (append-nil screen);
  empty = omega (arith, h.ends);
  head = refl;
}
flush_loop-Flushed (suc fuel) r (x ∷ xs) screen h enough =
    let f =
      flush_loop-Flushed fuel (advanced r) xs (screen ++ (x ∷ [])) (advanced-Holds r x xs h)
        (omega arith) in
    record {
      r' = f.r';
      result = flush_one fuel r x xs screen h ∙ f.result ∙ rw (append_assoc screen (x ∷ []) xs);
      empty = f.empty;
      head = f.head;
    }

Holds-Flushed :
    (fuel : ℕ) (k : Kring) (xs screen : List ℕ)
    → k.write_kring.present ≡ true
    → Flushed k.write_kring (screen ++ xs) (flush_loop fuel k.write_kring screen)
    → (k' : Kring) × (kring_flush_to_screen fuel k screen ≡ some (k', screen ++ xs))
      × (k'.write_kring.tail ≡ k'.write_kring.head)
      × (k'.read_kring ≡ k.read_kring)
unfolding kring_flush_to_screen
Holds-Flushed fuel k xs screen on f =
    (record k { write_kring = f.r' }, rw (f.result, on) refl, f.empty, refl)

written :
    (k : Kring) (xs s : List ℕ)
    → k.write_kring.present ≡ true
    → Holds k.write_kring xs
    → length xs + length s ≤ kring_buf_max
    → k.write_kring.head + length s < 2 ^ 63
    → Holds (kring_write s 1 k).write_kring (xs ++ s)
      × ((kring_write s 1 k).write_kring.present ≡ true)
      × ((kring_write s 1 k).read_kring ≡ k.read_kring)
written k xs s on h room small =
    let (e, same) = to_write_ring s k on in
    let (hs, on', _) =
      ring_or_same s xs k.write_kring (kring_write s 1 k).write_kring h room small e in
    (hs, on' ∙ on, same)

-- What `kring_write` puts into the write ring reaches the screen: with the characters `xs` waiting
-- and room for `s`, the next `kring_flush_to_screen` prints `xs` and then `s`, empties the ring and does not
-- touch the other one.
pub kring_flush_to_screen-kring_write :
    (fuel : ℕ) (k : Kring) (xs s screen : List ℕ)
    → k.write_kring.present ≡ true
    → Holds k.write_kring xs
    → length xs + length s ≤ kring_buf_max
    → k.write_kring.head + length s < 2 ^ 63
    → length xs + length s < fuel
    → (k' : Kring) × (kring_flush_to_screen fuel (kring_write s 1 k) screen
        ≡ some (k', screen ++ (xs ++ s)))
      × (k'.write_kring.tail ≡ k'.write_kring.head)
      × (k'.read_kring ≡ k.read_kring)
kring_flush_to_screen-kring_write fuel k xs s screen on h room small enough =
    let w = kring_write s 1 k in
    let (h', on', same) = written k xs s on h room small in
    let (k', run, done, read) = Holds-Flushed fuel w (xs ++ s) screen on' (
      flush_loop-Flushed fuel w.write_kring (xs ++ s) screen h'
        (omega (arith, length-append xs s, enough))) in
    (k', run, done, read ∙ same)

-- The skip, as the first thing the loop does.
flush_skip :
    (fuel : ℕ) (r : Ring) (screen : List ℕ)
    → r.tail + kring_buf_max < r.head
    → r.head < 2 ^ 63
    → flush_loop (suc fuel) r screen
      ≡ flush_loop (suc fuel) (record r { tail = r.head - kring_buf_max }) (screen ++ drop_mark)
unfolding flush_loop
flush_skip fuel r screen late small =
    let behind : 4096 < sub64 r.head r.tail = omega (arith, late, small) in
    let lag : ltb kring_buf_max (sub64 r.head r.tail) ≡ true = lt→ltb _ _ behind in
    let there : sub64 r.head kring_buf_max ≡ r.head - kring_buf_max = omega (arith, late, small) in
    let near : sub64 r.head (r.head - kring_buf_max) ≤ 4096 = omega (arith, late, small) in
    let lag' : ltb kring_buf_max (sub64 r.head (r.head - kring_buf_max)) ≡ false =
      ground (arith, near) in
    rw (lag, there, lag') refl

-- A reader that is more than the 4096 places behind has lost the oldest characters: the screen
-- gets the mark `[drop]` as the source spells it and the last 4096 characters, and the ring is empty.
pub kring_flush_to_screen_late :
    (fuel : ℕ) (k : Kring) (xs screen : List ℕ)
    → k.write_kring.present ≡ true
    → length xs ≡ kring_buf_max
    → k.write_kring.tail + kring_buf_max < k.write_kring.head
    → k.write_kring.head < 2 ^ 63
    → Stored k.write_kring.entries (k.write_kring.head - kring_buf_max) xs
    → kring_buf_max < fuel
    → (k' : Kring) × (kring_flush_to_screen fuel k screen ≡ some (k', screen ++ (drop_mark ++ xs)))
      × (k'.write_kring.tail ≡ k'.write_kring.head)
      × (k'.read_kring ≡ k.read_kring)
kring_flush_to_screen_late zero k xs screen on full late small st enough = absurd (omega arith)
kring_flush_to_screen_late (suc fuel) k xs screen on full late small st enough =
    let r = k.write_kring in
    let h : Holds (record r { tail = r.head - kring_buf_max }) xs = record {
      fits = omega (arith, full);
      ends = omega (arith, full, late);
      small = small;
      stored = st;
    } in
    let f =
      flush_loop-Flushed (suc fuel) (record r { tail = r.head - kring_buf_max }) xs
        (screen ++ drop_mark) h (omega (arith, full, enough)) in
    Holds-Flushed (suc fuel) k (drop_mark ++ xs) screen on (record {
      r' = f.r';
      result =
          flush_skip fuel r screen late small
          ∙ f.result
          ∙ rw (append_assoc screen drop_mark xs) refl;
      empty = f.empty;
      head = f.head;
    })
