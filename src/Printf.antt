-- ===== src/Printf.antt =====
-- Formatted output: `kprintf` and the number printing of drivers/video/lfb.c, and `serial_print` of
-- arch/x86_64/drivers/video/serial.c. Text is a list of characters, a format is what stands before its zero
-- byte, and the variable arguments are a list.
pub mod Number
pub mod Supplied
pub mod Buffer
pub mod Same
mod Tests
use destin_x.Prelude.{
  ℕ, zero, suc, ◌+◌, ◌-◌, ◌*◌, ◌/◌, ◌%◌, ◌^◌, ◌≤◌, ◌<◌, ◌≡◌, ◌≢◌, ◌↔◌, ◌⊎◌, refl, sym, ap, ◌∙◌, inl,
  inr, Bool, true, false, not, ◌&&◌, ◌||◌, Option, none, some, List, [], ◌∷◌, ◌++◌, map, arith, ltb,
  leb, ◌==◌, if◌then◌else◌, update, add64, sub64, Bool-cases, Option-cases, ==_iff, ==_self, ltb→lt,
  lt→ltb, length, get_elem?, length-append, bit_and, bit_or, bit_xor, has, ◌∈◌, ◌∉◌, has-append,
}

-- A variable argument: a string, or an integer in a 64-bit register.
pub data Argument : Type 0 where
  string : List ℕ → Argument
  word : ℕ → Argument

-- How a call ends: with the output, with `p` behind the end of the format (it ends in a `%`), or with an
-- argument that is missing or of the other kind.
pub data Printed (S : Type 0) : Type 0 where
  done : S → Printed S
  overrun : Printed S
  bad_arguments : Printed S

-- `digits[d]`
abbrev pub digit : ℕ → ℕ
digit d = if ltb d 10 then d + b'0' else d + 87

-- The loop that stores digits from the lowest one on, `rounds` of them at most; they are read
-- backwards, so the list has the highest digit first. What is left of the number comes with it.
unfoldable pub put_digits : ℕ → (num base : ℕ) → List ℕ → ℕ × List ℕ
put_digits zero num base out = (num, out)
put_digits (suc rounds) num base out =
    let rest = put_digits rounds (num / base) base (digit (num % base) ∷ out) in
    if num == 0 then (0, out) else rest

abbrev pub take : ℕ → List ℕ → List ℕ
take zero xs = []
take (suc n) [] = []
take (suc n) (x ∷ xs) = x ∷ take n xs

-- The characters that `local_putnum` stores.
unfoldable pub local_putnum : (max_len num base : ℕ) → List ℕ
local_putnum max_len num base =
    if (num == 0) && ltb 0 max_len then b'0' ∷ [] else take max_len (put_digits 64 num base []).1

-- `serial_put_number` and `kputnum_direct` have 32 places, enough for 32 bits.
unfoldable pub serial_put_number : (num base : ℕ) → List ℕ
serial_put_number num base = if num == 0 then b'0' ∷ [] else (put_digits 32 num base []).1

-- `int i` from an argument: whether it is negative, and `-i` or `i` as 32 bits.
abbrev pub is_negative : ℕ → Bool
is_negative w = leb (2 ^ 31) (w % 2 ^ 32)

abbrev pub magnitude : ℕ → ℕ
magnitude w = if is_negative w then (2 ^ 32 - w % 2 ^ 32) % 2 ^ 32 else w % 2 ^ 32

-- `(uint64_t)i` of an `int`.
abbrev pub sign_extend : ℕ → ℕ
sign_extend i = if leb (2 ^ 31) i then i + (2 ^ 64 - 2 ^ 32) else i

-- `local_buf` up to `idx`, and what was handed to `kring_write` before.
pub record Output : Type 0 where
  pub chunks : List (List ℕ)
  pub buf : List ℕ

abbrev pub buf_max : ℕ
buf_max = 256

abbrev pub flush : Output → Output
flush o = record { chunks = o.chunks ++ (o.buf ∷ []); buf = [] }

abbrev pub check_and_flush : Output → Output
check_and_flush o = if leb (buf_max - 1) (length o.buf) then flush o else o

abbrev pub put : ℕ → Output → Output
put c o = record o { buf = o.buf ++ (c ∷ []) }

unfoldable pub put_string : List ℕ → Output → Output
put_string [] o = o
put_string (c ∷ cs) o = put_string cs (put c (check_and_flush o))

abbrev pub put_number : (num base : ℕ) → Output → Output
put_number num base o =
    let o1 : Output = if ltb (buf_max - 35) (length o.buf) then flush o else o in
    record o1 { buf = o1.buf ++ local_putnum (buf_max - 1) num base }

unfoldable pub put_decimal : ℕ → Output → Output
put_decimal w o =
    let sign = if is_negative w then put b'-' (check_and_flush o) else o in
    put_number (sign_extend (magnitude w)) 10 sign

unfoldable pub put_hex : ℕ → Output → Output
put_hex num o = put_number num 16 (put b'x' (check_and_flush (put b'0' (check_and_flush o))))

-- `*(p+1) == 'l' && *(p+2) == 'x'`
abbrev pub starts_lx : List ℕ → Bool
starts_lx [] = false
starts_lx (c ∷ []) = false
starts_lx (c ∷ d ∷ rest) = (c == b'l') && (d == b'x')

-- What follows a `%`: the characters to skip, the arguments left and the output.
abbrev pub Converted : Type 0 → Type 0
Converted S = Option (ℕ × List Argument × S)

abbrev pub map_args : {S : Type 0} → List Argument → Option S → Converted S
map_args args none = none
map_args args (some o) = some (0, args, o)

-- The conversions of an argument as a string and as a number.
abbrev pub with_string : {S : Type 0} → List Argument → (List ℕ → Option S) → Converted S
with_string [] f = none
with_string (Argument.word w ∷ args) f = none
with_string (Argument.string s ∷ args) f = map_args args (f s)

abbrev pub with_word : {S : Type 0} → ℕ → List Argument → (ℕ → S) → Converted S
with_word skip [] f = none
with_word skip (Argument.string s ∷ args) f = none
with_word skip (Argument.word w ∷ args) f = some (skip, args, f w)

-- The `switch` of `kprintf`.
unfoldable pub convert : (c : ℕ) (rest : List ℕ) → List Argument → Output → Converted Output
convert c rest args o =
    if c == b's'
    then with_string args (λ s. some (put_string s o))
    else if c == b'd'
    then with_word 0 args (λ w. put_decimal w o)
    else if c == b'x'
    then with_word 0 args (λ w. put_hex (w % 2 ^ 32) o)
    else if c == b'l'
    then (if starts_lx rest
        then with_word 2 args (λ w. put_hex (w % 2 ^ 64) o)
        else some (0, args, o))
    else if c == b'p'
    then with_word 0 args (λ w. put_hex (w % 2 ^ 64) o)
    else if c == b'%'
    then some (0, args, put b'%' o)
    else some (0, args, o)

abbrev pub proceed : {S : Type 0} → Converted S → (ℕ → List Argument → S → Printed S) → Printed S
proceed none k = Printed.bad_arguments
proceed (some (skip, args, o)) k = k skip args o

-- The loop over the format, with the characters still to skip.
module _ {S : Type 0} (plain : ℕ → S → S) (before : S → S)
    (conversion : ℕ → List ℕ → List Argument → S → Converted S) where
  unfoldable pub format_loop : ℕ → List ℕ → List Argument → S → Printed S
  format_loop (suc skip) [] args o = Printed.done o
  format_loop (suc skip) (c ∷ cs) args o = format_loop skip cs args o
  format_loop zero [] args o = Printed.done o
  format_loop zero (c ∷ []) args o =
      if c == b'%' then Printed.overrun else Printed.done (plain c (before o))
  format_loop zero (c ∷ d ∷ rest) args o =
      let next = format_loop zero (d ∷ rest) args (plain c (before o)) in
      let converted =
        proceed (conversion d rest args (before o))
          (λ skip args' o'. format_loop skip rest args' o') in
      if c == b'%' then converted else next

abbrev pub empty_output : Output
empty_output = record { chunks = []; buf = [] }

-- The strings that `kprintf` hands to `kring_write`, the last one from `buf`.
unfoldable pub kprintf : List ℕ → List Argument → Printed Output
kprintf format args = format_loop put check_and_flush convert 0 format args empty_output

abbrev pub serial_decimal : ℕ → List ℕ → List ℕ
serial_decimal w out =
    (if is_negative w then out ++ (b'-' ∷ []) else out) ++ serial_put_number (magnitude w) 10

abbrev pub serial_hex : (num : ℕ) → List ℕ → List ℕ
serial_hex num out = out ++ (b'0' ∷ b'x' ∷ serial_put_number num 16)

-- The 64-bit number of `%llx` has a loop of its own, with 16 places.
abbrev pub serial_long : (val : ℕ) → List ℕ → List ℕ
serial_long val out =
    out ++ (b'0' ∷ b'x' ∷ (if val == 0 then b'0' ∷ [] else (put_digits 16 val 16 []).1))

abbrev pub append_text : List ℕ → Option (List ℕ) → Option (List ℕ)
append_text o none = none
append_text o (some t) = some (o ++ t)

-- The `switch` of `serial_print`; `nested` is its call of itself on a string argument.
unfoldable pub serial_convert :
    (nested : List ℕ → Option (List ℕ)) (c : ℕ) (rest : List ℕ)
    → List Argument
    → List ℕ
    → Converted (List ℕ)
serial_convert nested c rest args o =
    if c == b's'
    then with_string args (λ s. append_text o (nested s))
    else if c == b'd'
    then with_word 0 args (λ w. serial_decimal w o)
    else if c == b'x'
    then with_word 0 args (λ w. serial_hex (w % 2 ^ 32) o)
    else if c == b'l'
    then (if starts_lx rest
        then with_word 2 args (λ w. serial_long (w % 2 ^ 64) o)
        else some (0, args, o))
    else if c == b'p'
    then with_word 0 args (λ w. serial_hex (w % 2 ^ 32) o)
    else if c == b'%'
    then some (0, args, o ++ (b'%' ∷ []))
    else some (0, args, o)

abbrev pub serial_loop :
    (nested : List ℕ → Option (List ℕ)) → List ℕ → List Argument → Printed (List ℕ)
serial_loop nested format args =
    format_loop (λ c o. o ++ (c ∷ [])) (λ o. o) (serial_convert nested) 0 format args []

abbrev pub printed_text : Printed (List ℕ) → Option (List ℕ)
printed_text (Printed.done o) = some o
printed_text Printed.overrun = none
printed_text Printed.bad_arguments = none

-- A string argument is printed as a format without arguments.
unfoldable pub serial_nested : List ℕ → Option (List ℕ)
serial_nested s = printed_text (serial_loop (λ t. none) s [])

-- The characters that `serial_print` writes to the port.
unfoldable pub serial_print : List ℕ → List Argument → Printed (List ℕ)
serial_print format args = serial_loop serial_nested format args
