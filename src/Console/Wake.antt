-- ===== src/Console/Wake.antt =====
-- A thread that waits for a line is woken by the return key.
use destin_x.Prelude.{
  ℕ, zero, suc, ◌+◌, ◌^◌, ◌≤◌, ◌<◌, ◌≡◌, ◌≢◌, refl, ap, ◌∙◌, inl, inr, Bool, true, false, ◌&&◌,
  List, [], ◌∷◌, ◌++◌, arith, ◌==◌, Bool-cases, ==_iff, length, ◌∉◌,
}
use destin_x.Thread.{ThreadState, set_state, enqueue_thread}
use destin_x.Thread.Queue.{IsRing}
use destin_x.Mutex.{mutex_lock}
use destin_x.Mutex.Waiters.{state_of}
use destin_x.Kring.{Ring, Kring, LogEntry, position, check_from, check_for_n, kring_buf_max}
use destin_x.Kring.Queue.{Holds, Stored}
use destin_x.Keyboard.{Keyboard, keyboard_handler}
use destin_x.Keyboard.Typing.{Listening, return_key}
use destin_x.Scheduler.Wakeup.{state-set_state, wakeup-IsRing}
use destin_x.Console.{Console, Reading, terminal_read, read_locked}

abbrev is_newline : LogEntry → Bool
is_newline e = (e.c == 10) && (e.ready == 1)

check_from-found :
    (rounds i q : ℕ) (r : Ring)
    → i ≤ q
    → q < i + rounds
    → is_newline (r.entries q) ≡ true
    → check_from rounds i r ≡ true
unfolding check_from
check_from-found zero i q r lo hi e = absurd (omega (arith, lo, hi))
check_from-found (suc rounds) i q r lo hi e = elim (Bool-cases (i == q)) [
  | inl same ↦
      let at : is_newline (r.entries i) ≡ true =
        ap (λ (j : ℕ). is_newline (r.entries j)) ((==_iff i q).0 same) ∙ e in
      rw at refl
  | inr other ↦
      let ih =
        check_from-found rounds (i + 1) q r (ground (arith, lo, other)) (omega (arith, hi)) e in
      ground (arith, ih)
]

-- The newline behind the characters that wait.
Stored-newline :
    (entries : ℕ → LogEntry) (p : ℕ) (xs : List ℕ)
    → Stored entries p (xs ++ (10 ∷ []))
    → (q : ℕ) × (q < kring_buf_max) × (is_newline (entries q) ≡ true)
Stored-newline entries p [] (e, _) = (position p, omega arith, rw e refl)
Stored-newline entries p (x ∷ xs) (_, s) = Stored-newline entries (p + 1) xs s

newline_waits :
    (k : Kring) (xs : List ℕ) → Holds k.read_kring (xs ++ (10 ∷ [])) → check_for_n k ≡ true
unfolding check_for_n
newline_waits k xs h =
    let (q, small, e) = Stored-newline k.read_kring.entries k.read_kring.tail xs h.stored in
    check_from-found kring_buf_max 0 q k.read_kring (omega arith) (omega (arith, small)) e

-- What the return key does to the scheduler.
return_wakes :
    (k : Keyboard) (t : ℕ)
    → k.read_blocked_thread ≡ t
    → t ≢ 0
    → ((keyboard_handler 28 k).kernel ≡ enqueue_thread t (set_state t ThreadState.ready k.kernel))
      × ((keyboard_handler 28 k).read_blocked_thread ≡ 0)
unfolding keyboard_handler
return_wakes k t e ne =
    let some_reader : (k.read_blocked_thread == 0) ≡ false = ground (arith, e, ne) in
    rw some_reader
      (ap (λ (r : ℕ). enqueue_thread r (set_state r ThreadState.ready k.kernel)) e, refl)

blocked_reader :
    (count : ℕ) (c : Console)
    → count ≢ 0
    → c.term_read_mutex.locked ≡ 0
    → check_for_n c.keyboard.kring ≡ false
    → (c' : Console) × (terminal_read count c ≡ Reading.waits_for_line c')
      × (c'.keyboard.read_blocked_thread ≡ c.keyboard.kernel.current_thread)
      × (state_of c'.keyboard.kernel c.keyboard.kernel.current_thread ≡ ThreadState.blocked)
unfolding terminal_read mutex_lock read_locked
blocked_reader count c some_room free no_line =
    let t = c.keyboard.kernel.current_thread in
    let nz : (count == 0) ≡ false = ground (arith, some_room) in
    let c' : Console = record {
      keyboard = record c.keyboard {
        read_blocked_thread = t;
        kernel = set_state t ThreadState.blocked c.keyboard.kernel;
      };
      term_read_mutex = record c.term_read_mutex { locked = 1 };
    } in
    (c', rw (nz, free, no_line) refl, refl, state-set_state c.keyboard.kernel t ThreadState.blocked)

-- `terminal_read` of a thread that gets the mutex while no line waits blocks the thread and names it as the reader; and
-- when such a thread is the reader and is not in the ready queue, the return key takes it off, makes it
-- ready, puts it at the end of the ready queue, and `check_for_n` finds the line.
pub terminal_read-keyboard_handler :
    (count : ℕ) (c : Console) (k : Keyboard) (typed xs : List ℕ)
    → count ≢ 0
    → c.term_read_mutex.locked ≡ 0
    → check_for_n c.keyboard.kring ≡ false
    → c.keyboard.kernel.current_thread ≢ 0
    → k.read_blocked_thread ≡ c.keyboard.kernel.current_thread
    → Listening k typed
    → length typed < kring_buf_max
    → k.kring.read_kring.tail + kring_buf_max < 2 ^ 63
    → IsRing k.kernel xs
    → c.keyboard.kernel.current_thread ∉ xs
    → ((c' : Console) × (terminal_read count c ≡ Reading.waits_for_line c')
        × (c'.keyboard.read_blocked_thread ≡ c.keyboard.kernel.current_thread)
        × (state_of c'.keyboard.kernel c.keyboard.kernel.current_thread ≡ ThreadState.blocked))
      × ((keyboard_handler 28 k).read_blocked_thread ≡ 0)
      × (state_of (keyboard_handler 28 k).kernel c.keyboard.kernel.current_thread
          ≡ ThreadState.ready)
      × IsRing (keyboard_handler 28 k).kernel (xs ++ (c.keyboard.kernel.current_thread ∷ []))
      × (check_for_n (keyboard_handler 28 k).kring ≡ true)
terminal_read-keyboard_handler count c k typed xs some_room free no_line ne reader l room small ring
      out =
    let t = c.keyboard.kernel.current_thread in
    let (e, none_left) = return_wakes k t reader ne in
    let (state', ring') = wakeup-IsRing k.kernel t xs ne ring out in
    (
      blocked_reader count c some_room free no_line,
      none_left,
      rw e state',
      rw e ring',
      newline_waits (keyboard_handler 28 k).kring typed
          (return_key typed k l (omega (arith, room)) small),
    )
