-- ===== src/Kring.antt =====
-- The rings between `kprintf`, the keyboard, the screen and the readers, drivers/video/kring.c. The screen is the
-- list of the characters given to `kputchar_direct`. A function is one step: it runs under a spinlock, or
-- is the only one that moves its index.
pub mod Queue
pub mod Screen
pub mod Lines
mod Tests
use destin_x.Prelude.{
  ℕ, zero, suc, ◌+◌, ◌-◌, ◌*◌, ◌/◌, ◌%◌, ◌^◌, ◌≤◌, ◌<◌, ◌≡◌, ◌≢◌, ◌↔◌, ◌⊎◌, refl, sym, ap, ◌∙◌, inl,
  inr, Bool, true, false, not, ◌&&◌, ◌||◌, Option, none, some, List, [], ◌∷◌, ◌++◌, map, arith, ltb,
  leb, ◌==◌, if◌then◌else◌, update, add64, sub64, Bool-cases, Option-cases, ==_iff, ==_self, ltb→lt,
  lt→ltb, length, get_elem?, length-append, bit_and, bit_or, bit_xor, has, ◌∈◌, ◌∉◌, has-append,
}
use destin_x.Printf.{take}

pub record LogEntry : Type 0 where
  pub c : ℕ
  pub ready : ℕ

-- One of the two rings: `present` tells whether its pointer is set.
pub record Ring : Type 0 where
  pub present : Bool
  pub entries : ℕ → LogEntry
  pub head : ℕ
  pub tail : ℕ

pub record Kring : Type 0 where
  pub write_kring : Ring
  pub read_kring : Ring

abbrev pub kring_buf_max : ℕ
kring_buf_max = 4096

-- `x & KRING_BUF_MASK`: the mask is 2^12 - 1.
abbrev pub position : ℕ → ℕ
position x = x % kring_buf_max

abbrev pub set_entry : ℕ → LogEntry → Ring → Ring
set_entry pos e r = record r { entries = update r.entries pos e }

-- The loop of `kring_write` from `start_head + i` on.
unfoldable pub store : (start_head : ℕ) → List ℕ → Ring → Ring
store start_head [] r = r
store start_head (c ∷ cs) r =
    store (add64 start_head 1) cs (set_entry (position start_head) (record { c = c; ready = 1 }) r)

-- `s` is the list of the `len` characters at the pointer.
unfoldable pub write_ring : List ℕ → Ring → Ring
write_ring s r =
    let s' = if ltb kring_buf_max (length s) then take kring_buf_max s else s in
    store r.head s' (record r { head = add64 r.head (length s') })

unfoldable pub kring_write : List ℕ → (mode : ℕ) → Kring → Kring
kring_write s mode k =
    if length s == 0
    then k
    else if not (mode == 0) && k.write_kring.present
    then record k { write_kring = write_ring s k.write_kring }
    else if (mode == 0) && k.read_kring.present
    then record k { read_kring = write_ring s k.read_kring }
    else k

-- `"[drop]"`, as it is spelled in the source.
abbrev pub drop_mark : List ℕ
drop_mark = b'[' ∷ b'd' ∷ b'r' ∷ b'o' ∷ b'p' ∷ b']' ∷ []

-- A reader that is too far behind skips to the oldest characters that are still there.
abbrev pub catch_up : Ring → List ℕ → Ring × List ℕ
catch_up r screen =
    if ltb kring_buf_max (sub64 r.head r.tail)
    then (record r { tail = sub64 r.head kring_buf_max }, screen ++ drop_mark)
    else (r, screen)

-- The loop of `kring_flush_to_screen`; `none` means that the fuel ran out.
unfoldable pub flush_loop : ℕ → Ring → List ℕ → Option (Ring × List ℕ)
flush_loop zero r screen = none
flush_loop (suc fuel) r screen =
    let r1 = (catch_up r screen).0 in
    let screen1 = (catch_up r screen).1 in
    let e = r1.entries (position r1.tail) in
    let r2 : Ring = record (set_entry (position r1.tail) (record e { ready = 0 }) r1) {
      tail = add64 r1.tail 1;
    } in
    let next = flush_loop fuel r2 (screen1 ++ (e.c ∷ [])) in
    if r1.tail == r1.head
    then some (r1, screen1)
    else if e.ready == 0
    then some (r1, screen1)
    else next

-- `backspace` and `lfb_swap`, which copies the frame to the screen, are left out.
unfoldable pub kring_flush_to_screen : ℕ → Kring → List ℕ → Option (Kring × List ℕ)
kring_flush_to_screen fuel k screen =
    let flushed : Option (Kring × List ℕ) = elim (flush_loop fuel k.write_kring screen) [
      | none ↦ none
      | some (r, out) ↦ some (record k { write_kring = r }, out)
    ] in
    if k.write_kring.present then flushed else some (k, screen)

-- The loop of `kring_flush_to_rbuf` with the rounds left: the characters stored in `buf`.
unfoldable pub read_loop : ℕ → Ring → List ℕ × Ring
read_loop zero r = ([], r)
read_loop (suc rounds) r =
    let e = r.entries (position r.tail) in
    let r1 : Ring = record (set_entry (position r.tail) (record e { ready = 0 }) r) {
      tail = add64 r.tail 1;
    } in
    let rest = read_loop rounds r1 in if e.c == 10 then (e.c ∷ [], r1) else (e.c ∷ rest.0, rest.1)

unfoldable pub kring_flush_to_rbuf : (count : ℕ) → Kring → List ℕ × Kring
kring_flush_to_rbuf count k =
    let out = read_loop count k.read_kring in (out.0, record k { read_kring = out.1 })

-- The search of `check_for_n` with the entries left.
unfoldable pub check_from : ℕ → ℕ → Ring → Bool
check_from zero i r = false
check_from (suc rounds) i r =
    let rest = check_from rounds (i + 1) r in
    if ((r.entries i).c == 10) && ((r.entries i).ready == 1) then true else rest

unfoldable pub check_for_n : Kring → Bool
check_for_n k = check_from kring_buf_max 0 k.read_kring
