-- ===== src/Printf/Tests.antt =====
-- Formats with each conversion.
use destin_x.Prelude.{ℕ, ◌-◌, ◌^◌, ◌≤◌, ◌≡◌, ◌≢◌, refl, true, List, [], ◌∷◌, arith, length}
use destin_x.Printf.{
  Argument, Printed, Output, local_putnum, put_digits, kprintf, serial_print, take, magnitude,
  sign_extend,
}
use destin_x.Printf
use destin_x.Printf.Number.{value_from, no_zero_first, local_putnum_lem}
use destin_x.Printf.Supplied.{is_supplied}
use destin_x.Printf.Buffer.{Bounded, kprintf-Bounded}
use destin_x.Printf.Same.{SameText, kprintf-serial_print}

-- `"%s=%d %x"`
abbrev format : List ℕ
format = b'%' ∷ b's' ∷ b'=' ∷ b'%' ∷ b'd' ∷ b' ' ∷ b'%' ∷ b'x' ∷ []

-- `"id"`, -42 and 255
abbrev args : List Argument
args = Argument.string (b'i' ∷ b'd' ∷ []) ∷ Argument.word (2 ^ 32 - 42) ∷ Argument.word 255 ∷ []

prints :
    serial_print format args
    ≡ Printed.done (b'i' ∷ b'd' ∷ b'=' ∷ b'-' ∷ b'4' ∷ b'2' ∷ b' ' ∷ b'0' ∷ b'x' ∷ b'f' ∷ b'f' ∷ [])
unfolding serial_print Printf.serial_convert Printf.serial_nested Printf.format_loop
    Printf.serial_put_number put_digits
prints = refl

-- A format that ends in `%` is read past its end.
ends_in_percent : serial_print (b'%' ∷ []) [] ≡ Printed.overrun
unfolding serial_print Printf.serial_convert Printf.format_loop
ends_in_percent = refl

-- A string argument with `%d` asks for an argument that nobody passed.
string_with_percent :
    serial_print (b'%' ∷ b's' ∷ []) (Argument.string (b'%' ∷ b'd' ∷ []) ∷ [])
    ≡ Printed.bad_arguments
unfolding serial_print Printf.serial_convert Printf.serial_nested Printf.format_loop
string_with_percent = refl

-- The smallest `int` is printed by `kprintf` as a number of 20 digits.
smallest : length (local_putnum 255 (sign_extend (magnitude (2 ^ 31))) 10) ≡ 20
unfolding local_putnum put_digits
smallest = refl

local_putnum_lem_example :
    (value_from 16 0 (local_putnum 255 0xBEEF 16) ≡ 0xBEEF)
    × (length (local_putnum 255 0xBEEF 16) ≤ 4)
    × (◌≢◌ {A = ℕ} 0xBEEF 0 → no_zero_first (local_putnum 255 0xBEEF 16) ≡ true)
local_putnum_lem_example =
    local_putnum_lem 255 0xBEEF 16 4 (omega arith) (omega arith) (omega arith) (omega arith)
      (omega arith) (omega arith)

supplied : is_supplied 0 format args ≡ true
unfolding is_supplied
supplied = refl

kprintf-Bounded_example : (o : Output) × (kprintf format args ≡ Printed.done o) × Bounded o
kprintf-Bounded_example = kprintf-Bounded format args supplied

kprintf-serial_print_example : SameText (kprintf format args) (serial_print format args)
kprintf-serial_print_example =
    kprintf-serial_print format args refl (refl, (omega arith, (omega arith, tt)))
