-- ===== src/Keyboard/Typing.antt =====
-- A typed line reaches its reader.
use destin_x.Prelude.{
  ℕ, ◌+◌, ◌%◌, ◌^◌, ◌≤◌, ◌<◌, ◌≡◌, ◌⊎◌, refl, sym, ap, ◌∙◌, inl, inr, Bool, true, false, not, ◌&&◌,
  ◌||◌, List, [], ◌∷◌, ◌++◌, arith, ltb, leb, ◌==◌, if◌then◌else◌, Bool-cases, ltb→lt, length,
  length-append,
}
use mathlib.Core.List.{append-nil, append_assoc}
use destin_x.Kring.{Kring, kring_write, kring_buf_max, kring_flush_to_rbuf}
use destin_x.Kring.Queue.{Holds, ring_or_same, to_read_ring}
use destin_x.Kring.Lines.{no_newline, kring_flush_to_rbuf_lem}
use destin_x.Keyboard.{Keyboard, keyboard_handler, is_silent, write_both, wake_reader, type_key}
use destin_x.Keyboard.Keys.{lowercase_of, uppercase_of}

-- A key that goes down and writes its name: not one of the keys with a case of their own.
abbrev pub is_plain : ℕ → Bool
is_plain code =
    ltb code 128
    && (not (is_silent code)
        && (not (code == 14) && (not (code == 28) && (not (code == 42) && not (code == 58)))))

abbrev pub All_plain : List ℕ → Bool
All_plain [] = true
All_plain (c ∷ cs) = is_plain c && All_plain cs

-- What the keys write with shift and capslock as they are.
abbrev pub name_of : Bool → ℕ → List ℕ
name_of upper code = if upper then uppercase_of code else lowercase_of code

abbrev pub names : Bool → List ℕ → List ℕ
names upper [] = []
names upper (c ∷ cs) = name_of upper c ++ names upper cs

abbrev pub type_all : List ℕ → Keyboard → Keyboard
type_all [] k = k
type_all (c ∷ cs) k = type_all cs (keyboard_handler c k)

-- Capital letters: shift or capslock, but not both.
abbrev pub is_upper : Keyboard → Bool
is_upper k = not ((not k.shift && not k.capslock) || (k.shift && k.capslock))

-- Both rings are there, no extended key has begun, and `xs` waits in the read ring.
pub record Listening (k : Keyboard) (xs : List ℕ) : Type 0 where
  pub read_on : k.kring.read_kring.present ≡ true
  pub not_ext : k.ext ≡ false
  pub holds : Holds k.kring.read_kring xs

type_plain :
    (code : ℕ) (k : Keyboard)
    → k.ext ≡ false
    → (((not k.shift && not k.capslock) || (k.shift && k.capslock)) ≡ true)
      ⊎ (((not k.shift && not k.capslock) || (k.shift && k.capslock)) ≡ false)
    → type_key code k ≡ record k { kring = write_both (name_of (is_upper k) code) k.kring }
type_plain code k e (inl low) = simp (e, low) refl
type_plain code k e (inr high) = simp (e, high) refl

-- One key.
key_plain :
    (code : ℕ) (k : Keyboard)
    → is_plain code ≡ true
    → k.ext ≡ false
    → keyboard_handler code k ≡ record k { kring = write_both (name_of (is_upper k) code) k.kring }
unfolding keyboard_handler
key_plain code k p e =
    let small : code < 128 = ltb→lt code 128 (ground (arith, p)) in
    let scan : code % 128 ≡ code = omega (arith, small) in
    let down : leb 128 code ≡ false = ground (arith, small) in
    let not_e0 : (code == 0xE0) ≡ false = ground (arith, small) in
    let quiet : is_silent code ≡ false = ground (arith, p) in
    let c14 : (code == 14) ≡ false = ground (arith, p) in
    let c28 : (code == 28) ≡ false = ground (arith, p) in
    let c42 : (code == 42) ≡ false = ground (arith, p) in
    let c58 : (code == 58) ≡ false = ground (arith, p) in
    rw (not_e0, scan, quiet, c14, c28, c42, c58, down)
      (type_plain code k e
        (Bool-cases ((not k.shift && not k.capslock) || (k.shift && k.capslock))))

screen_keeps : (s : List ℕ) (g : Kring) → (kring_write s 1 g).read_kring ≡ g.read_kring
unfolding kring_write
screen_keeps s g = ground arith

both_read :
    (s xs : List ℕ) (g : Kring)
    → g.read_kring.present ≡ true
    → Holds g.read_kring xs
    → length xs + length s ≤ kring_buf_max
    → g.read_kring.head + length s < 2 ^ 63
    → Holds (write_both s g).read_kring (xs ++ s)
      × ((write_both s g).read_kring.present ≡ true)
      × ((write_both s g).read_kring.tail ≡ g.read_kring.tail)
both_read s xs g on h room small =
    let (e, same) = to_read_ring s g on in
    let (hs, on', tl) =
      ring_or_same s xs g.read_kring (kring_write s 0 g).read_kring h room small e in
    rw (screen_keeps s (kring_write s 0 g)) (hs, on' ∙ on, tl)

Listening-key :
    (s xs : List ℕ) (k : Keyboard)
    → Listening k xs
    → length xs + length s ≤ kring_buf_max
    → k.kring.read_kring.tail + kring_buf_max < 2 ^ 63
    → Listening (record k { kring = write_both s k.kring }) (xs ++ s)
      × ((write_both s k.kring).read_kring.tail ≡ k.kring.read_kring.tail)
Listening-key s xs k l room small =
    let (h, on, tl) =
      both_read s xs k.kring l.read_on l.holds room (omega (arith, l.holds.ends, room, small)) in
    (record { read_on = on; not_ext = l.not_ext; holds = h }, tl)

typed :
    (codes xs : List ℕ) (k : Keyboard)
    → Listening k xs
    → All_plain codes ≡ true
    → length xs + length (names (is_upper k) codes) ≤ kring_buf_max
    → k.kring.read_kring.tail + kring_buf_max < 2 ^ 63
    → Listening (type_all codes k) (xs ++ names (is_upper k) codes)
      × ((type_all codes k).kring.read_kring.tail ≡ k.kring.read_kring.tail)
typed [] xs k l p room small = rw (append-nil xs) (l, refl)
typed (c ∷ cs) xs k l p room small =
    let s = name_of (is_upper k) c in
    let k1 : Keyboard = record k { kring = write_both s k.kring } in
    let len = length-append s (names (is_upper k) cs) in
    let (l1, t1) = Listening-key s xs k l (omega (arith, room, len)) small in
    let (l2, t2) =
      typed cs (xs ++ s) k1 l1 (ground (arith, p)) (omega (arith, room, len, length-append xs s))
        (omega (arith, t1, small)) in
    let key : keyboard_handler c k ≡ k1 = key_plain c k (ground (arith, p)) l.not_ext in
    (
      rw (key, sym (append_assoc xs s (names (is_upper k) cs))) l2,
      ap (λ (t : Keyboard). (type_all cs t).kring.read_kring.tail) key ∙ t2 ∙ t1,
    )

wake_kring : (k : Keyboard) → (wake_reader k).kring ≡ k.kring
wake_kring k = ground arith

-- The return key also wakes a reader, which changes no ring.
pub return_key :
    (xs : List ℕ) (k : Keyboard)
    → Listening k xs
    → length xs + 1 ≤ kring_buf_max
    → k.kring.read_kring.tail + kring_buf_max < 2 ^ 63
    → Holds (keyboard_handler 28 k).kring.read_kring (xs ++ (10 ∷ []))
unfolding keyboard_handler
return_key xs k l room small =
    let (l1, _) = Listening-key (10 ∷ []) xs k l room small in
    rw (wake_kring (record k { kring = write_both (10 ∷ []) k.kring })) l1.holds

-- A line typed on plain keys and ended by the return key is what the next `kring_flush_to_rbuf`
-- stores: the names of the keys in order, in capitals with shift or capslock but not both, and the newline, when
-- the rings are set up, nothing waits, no name holds a newline, and the line fits the ring and the
-- buffer.
pub kring_flush_to_rbuf-keyboard_handler :
    (codes : List ℕ) (k : Keyboard) (count : ℕ)
    → Listening k []
    → All_plain codes ≡ true
    → no_newline (names (is_upper k) codes) ≡ true
    → length (names (is_upper k) codes) < kring_buf_max
    → length (names (is_upper k) codes) < count
    → k.kring.read_kring.tail + kring_buf_max < 2 ^ 63
    → (kring_flush_to_rbuf count (keyboard_handler 28 (type_all codes k)).kring).0
      ≡ names (is_upper k) codes ++ (10 ∷ [])
kring_flush_to_rbuf-keyboard_handler codes k count l p nn room enough small =
    let line = names (is_upper k) codes in
    let (l1, t1) = typed codes [] k l p (omega (arith, room)) small in
    let h =
      return_key line (type_all codes k) l1 (omega (arith, room)) (omega (arith, t1, small)) in
    (kring_flush_to_rbuf_lem count (keyboard_handler 28 (type_all codes k)).kring line [] h nn
      enough).0
