-- ===== src/Lfb/Tests.antt =====
-- A screen of two lines of four characters, with the cursor at its last place.
use destin_x.Prelude.{ℕ, ◌≡◌, refl, false, some, [], ◌∷◌, arith}
use destin_x.Str.Copy.{within}
use destin_x.Lfb.{Framebuffer, kputchar_direct, num_digits}
use destin_x.Lfb.Draw.{IsShape}
use destin_x.Lfb.Cursor.{IsCursor, SameScreen, kputchar_direct-IsCursor}

abbrev screen : Framebuffer
screen = record {
  buffer = 0x10000;
  width = 32;
  height = 32;
  pitch = 128;
  size = 4096;
  font = λ a. 0x55;
  char_width = 8;
  char_height = 16;
  cursor_x = 24;
  cursor_y = 16;
  mem = λ a. 0;
}

kputchar_direct-IsCursor_example :
    IsCursor (kputchar_direct b'x' screen)
    × IsShape (kputchar_direct b'x' screen)
    × SameScreen screen (kputchar_direct b'x' screen)
    × ((a : ℕ)
        → within screen.buffer screen.size a ≡ false
        → (kputchar_direct b'x' screen).mem a ≡ 0)
kputchar_direct-IsCursor_example =
    kputchar_direct-IsCursor b'x' screen
      (record {
        size = refl;
        small = omega arith;
        fits = omega arith;
        words = refl;
        room = omega arith;
        char_width = refl;
        char_height = refl;
        columns = refl;
        some_column = omega arith;
        some_line = omega arith;
        low = omega arith;
      })
      (record { column = refl; line = refl; right = omega arith; low = omega arith })

digits_of_305 : num_digits 5 305 10 ≡ some (b'5' ∷ b'0' ∷ b'3' ∷ [])
unfolding num_digits
digits_of_305 = refl
