-- ===== src/Console.antt =====
-- The console, drivers/video/console.c. `terminal_read` is cut at its two calls of `yield`: the one in
-- `mutex_lock` and its own.
pub mod Wake
mod Tests
use destin_x.Prelude.{
  ℕ, zero, suc, ◌+◌, ◌-◌, ◌*◌, ◌/◌, ◌%◌, ◌^◌, ◌≤◌, ◌<◌, ◌≡◌, ◌≢◌, ◌↔◌, ◌⊎◌, refl, sym, ap, ◌∙◌, inl,
  inr, Bool, true, false, not, ◌&&◌, ◌||◌, Option, none, some, List, [], ◌∷◌, ◌++◌, map, arith, ltb,
  leb, ◌==◌, if◌then◌else◌, update, add64, sub64, Bool-cases, Option-cases, ==_iff, ==_self, ltb→lt,
  lt→ltb, length, get_elem?, length-append, bit_and, bit_or, bit_xor, has, ◌∈◌, ◌∉◌, has-append,
}
use destin_x.Thread.{ThreadState, Kernel, set_state}
use destin_x.Kring.{Kring, kring_write, kring_flush_to_rbuf, check_for_n}
use destin_x.Keyboard.{Keyboard}
use destin_x.Mutex.{Mutex, LockResult, mutex_lock, mutex_unlock}

pub record Console : Type 0 where
  pub keyboard : Keyboard
  pub term_read_mutex : Mutex

-- How a part of `terminal_read` ends: it returns with the characters in `buf`, or yields.
pub data Reading : Type 0 where
  returns : List ℕ → Console → Reading
  waits_for_mutex waits_for_line : Console → Reading

unfoldable pub terminal_write : List ℕ → Kring → ℕ × Kring
terminal_write buf k = (length buf % 2 ^ 32, kring_write buf 1 k)

-- From `kring_flush_to_rbuf` on, which is also where the thread goes on after its `yield`.
unfoldable pub read_line : (count : ℕ) → Console → Reading
read_line count c =
    let (buf, kring) = kring_flush_to_rbuf count c.keyboard.kring in
    let (m, kernel) = mutex_unlock c.term_read_mutex c.keyboard.kernel in
    Reading.returns buf (record {
      keyboard = record c.keyboard { kring = kring; kernel = kernel };
      term_read_mutex = m;
    })

-- With the mutex held: the test for a line.
unfoldable pub read_locked : (count : ℕ) → Console → Reading
read_locked count c =
    let t = c.keyboard.kernel.current_thread in
    let line = read_line count c in
    if not (check_for_n c.keyboard.kring)
    then Reading.waits_for_line (record c {
      keyboard = record c.keyboard {
        read_blocked_thread = t;
        kernel = set_state t ThreadState.blocked c.keyboard.kernel;
      };
    })
    else line

abbrev pub after_lock : (count : ℕ) → Console → LockResult → Reading
after_lock count c (LockResult.acquired m k) =
    read_locked count (record { keyboard = record c.keyboard { kernel = k }; term_read_mutex = m })
after_lock count c (LockResult.yields m k) =
    Reading.waits_for_mutex
      (record { keyboard = record c.keyboard { kernel = k }; term_read_mutex = m })

unfoldable pub terminal_read : (count : ℕ) → Console → Reading
terminal_read count c =
    let locked = after_lock count c (mutex_lock c.term_read_mutex c.keyboard.kernel) in
    if count == 0 then Reading.returns [] c else locked
