-- ===== src/Keyboard.antt =====
-- The keyboard, arch/x86_64/drivers/keyboard/keyboard.c. The byte
-- that the handler reads from port 0x60 is its argument.
pub mod Keys
pub mod Typing
mod Tests
use destin_x.Prelude.{
  ℕ, zero, suc, ◌+◌, ◌-◌, ◌*◌, ◌/◌, ◌%◌, ◌^◌, ◌≤◌, ◌<◌, ◌≡◌, ◌≢◌, ◌↔◌, ◌⊎◌, refl, sym, ap, ◌∙◌, inl,
  inr, Bool, true, false, not, ◌&&◌, ◌||◌, Option, none, some, List, [], ◌∷◌, ◌++◌, map, arith, ltb,
  leb, ◌==◌, if◌then◌else◌, update, add64, sub64, Bool-cases, Option-cases, ==_iff, ==_self, ltb→lt,
  lt→ltb, length, get_elem?, length-append, bit_and, bit_or, bit_xor, has, ◌∈◌, ◌∉◌, has-append,
}
use destin_x.Thread.{ThreadState, Kernel, set_state, enqueue_thread}
use destin_x.Kring.{Ring, Kring, LogEntry, position, set_entry, kring_write}
use destin_x.Keyboard.Keys.{lowercase_of, uppercase_of, extended_of}

pub record Keyboard : Type 0 where
  pub shift : Bool
  pub capslock : Bool
  pub ext : Bool
  pub backspace : Bool
  pub kring : Kring
  pub screen : List ℕ
  pub kernel : Kernel
  pub read_blocked_thread : ℕ

unfoldable pub init_keyboard : Keyboard → Keyboard
init_keyboard k = record k { shift = false; capslock = false; ext = false; backspace = false }

abbrev pub write_both : List ℕ → Kring → Kring
write_both key k = kring_write key 1 (kring_write key 0 k)

-- `read_blocked_thread` goes on when a line is there.
abbrev pub wake_reader : Keyboard → Keyboard
wake_reader k = if k.read_blocked_thread == 0 then k else record k {
  kernel =
      enqueue_thread k.read_blocked_thread
        (set_state k.read_blocked_thread ThreadState.ready k.kernel);
  read_blocked_thread = 0;
}

-- `if (tail == head--) tail--;`
abbrev pub drop_last : Ring → Ring
drop_last r =
    if r.tail == r.head
    then record r { head = sub64 r.head 1; tail = sub64 r.tail 1 }
    else record r { head = sub64 r.head 1 }

abbrev pub set_ready : Ring → Ring
set_ready r = set_entry (position r.head) (record (r.entries (position r.head)) { ready = 1 }) r

abbrev pub erase : Kring → Kring
erase k = record k {
  read_kring = drop_last k.read_kring;
  write_kring = drop_last (set_ready k.write_kring);
}

-- The keys that write nothing: escape, control, alt and the function keys.
abbrev pub is_silent : ℕ → Bool
is_silent scan_code =
    (scan_code == 1)
    || ((scan_code == 29)
        || ((scan_code == 56)
            || ((leb 59 scan_code && leb scan_code 68)
                || ((scan_code == 87) || (scan_code == 88)))))

-- The default case for a key that goes down.
abbrev pub type_key : ℕ → Keyboard → Keyboard
type_key scan_code k =
    let plain =
      if (not k.shift && not k.capslock) || (k.shift && k.capslock)
      then lowercase_of scan_code
      else uppercase_of scan_code in
    if k.ext
    then record k { ext = false; kring = write_both (extended_of scan_code) k.kring }
    else record k { kring = write_both plain k.kring }

-- `press` is set for a key that goes up.
unfoldable pub keyboard_handler : (raw_code : ℕ) → Keyboard → Keyboard
keyboard_handler raw_code k =
    let scan_code = raw_code % 128 in
    let press = leb 128 raw_code in
    if raw_code == 0xE0
    then record k { ext = true }
    else if is_silent scan_code
    then k
    else if scan_code == 14
    then (if press
        then k
        else record k { backspace = true; kring = erase k.kring; screen = k.screen ++ (8 ∷ []) })
    else if scan_code == 28
    then (if press then k else wake_reader (record k { kring = write_both (10 ∷ []) k.kring }))
    else if scan_code == 42
    then record k { shift = not press }
    else if scan_code == 58
    then (if press then record k { capslock = not k.capslock } else k)
    else if press
    then k
    else type_key scan_code k
