-- ===== src/Kring/Lines.antt =====
-- A reader gets a line from the read ring.
use destin_x.Prelude.{
  ℕ, zero, suc, ◌+◌, ◌<◌, ◌≡◌, refl, ap, Bool, true, false, not, ◌&&◌, List, [], ◌∷◌, ◌++◌, arith,
  ◌==◌, if◌then◌else◌, add64, length,
}
use destin_x.Links.{if_ne}
use destin_x.Kring.{LogEntry, Ring, Kring, position, set_entry, read_loop, kring_flush_to_rbuf}
use destin_x.Kring.Queue.{Stored-frame, Holds, position-ne}

abbrev pub no_newline : List ℕ → Bool
no_newline [] = true
no_newline (c ∷ cs) = not (c == 10) && no_newline cs

-- The ring after its oldest character is read.
abbrev read_one : Ring → Ring
read_one r =
    record (set_entry (position r.tail) (record (r.entries (position r.tail)) { ready = 0 }) r) {
      tail = r.tail + 1;
    }

read_one-Holds : (r : Ring) (x : ℕ) (xs : List ℕ) → Holds r (x ∷ xs) → Holds (read_one r) xs
read_one-Holds r x xs h = record {
  fits = omega (arith, h.fits);
  ends = omega (arith, h.ends);
  small = h.small;
  stored =
      Stored-frame r.entries (read_one r).entries (r.tail + 1) xs
        (λ q lo hi.
          if_ne (position r.tail) (position q) _ _
            (position-ne r.tail q (omega (arith, lo)) (omega (arith, hi, h.fits))))
        h.stored.1;
}

read_step :
    (rounds : ℕ) (r : Ring) (x : ℕ) (xs : List ℕ)
    → Holds r (x ∷ xs)
    → read_loop (suc rounds) r ≡ (
        if x == 10
        then (x ∷ [], read_one r)
        else (x ∷ (read_loop rounds (read_one r)).0, (read_loop rounds (read_one r)).1))
unfolding read_loop
read_step rounds r x xs h =
    let step : add64 r.tail 1 ≡ r.tail + 1 = omega (arith, h.ends, h.small) in
    let e : (r.entries (position r.tail)).c ≡ x = ap (λ (t : LogEntry). t.c) h.stored.0 in
    rw (step, e) refl

read_loop_lem :
    (rounds : ℕ) (r : Ring) (line rest : List ℕ)
    → Holds r (line ++ (10 ∷ rest))
    → no_newline line ≡ true
    → length line < rounds
    → ((read_loop rounds r).0 ≡ line ++ (10 ∷ [])) × Holds (read_loop rounds r).1 rest
read_loop_lem zero r line rest h p enough = absurd (omega arith)
read_loop_lem (suc rounds) r [] rest h p enough =
    rw (read_step rounds r 10 rest h) (refl, read_one-Holds r 10 rest h)
read_loop_lem (suc rounds) r (x ∷ line) rest h p enough =
    let ih =
      read_loop_lem rounds (read_one r) line rest (read_one-Holds r x (line ++ (10 ∷ rest)) h)
        (ground (arith, p)) (omega arith) in
    let ne : (x == 10) ≡ false = ground (arith, p) in
    rw (read_step rounds r x (line ++ (10 ∷ rest)) h, ne) (ap (λ (t : List ℕ). x ∷ t) ih.0, ih.1)

-- When a line and its newline wait in the read ring and the buffer has room for them, `kring_flush_to_rbuf` stores exactly
-- the line with its newline, and what was behind it goes on waiting.
pub kring_flush_to_rbuf_lem :
    (count : ℕ) (k : Kring) (line rest : List ℕ)
    → Holds k.read_kring (line ++ (10 ∷ rest))
    → no_newline line ≡ true
    → length line < count
    → ((kring_flush_to_rbuf count k).0 ≡ line ++ (10 ∷ []))
      × Holds (kring_flush_to_rbuf count k).1.read_kring rest
      × ((kring_flush_to_rbuf count k).1.write_kring ≡ k.write_kring)
unfolding kring_flush_to_rbuf
kring_flush_to_rbuf_lem count k line rest h p enough =
    let (a, b) = read_loop_lem count k.read_kring line rest h p enough in (a, b, refl)
