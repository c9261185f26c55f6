-- ===== src/Lfb.antt =====
-- Characters on the screen, drivers/video/lfb.c: the copy of the frame in memory, the cursor and the scrolling. The font is
-- given as bytes. `int` coordinates are their 32-bit unsigned values, which `putpixel` compares.
pub mod Draw
pub mod Cursor
mod Tests
use destin_x.Prelude.{
  ℕ, zero, suc, ◌+◌, ◌-◌, ◌*◌, ◌/◌, ◌%◌, ◌^◌, ◌≤◌, ◌<◌, ◌≡◌, ◌≢◌, ◌↔◌, ◌⊎◌, refl, sym, ap, ◌∙◌, inl,
  inr, Bool, true, false, not, ◌&&◌, ◌||◌, Option, none, some, List, [], ◌∷◌, ◌++◌, map, arith, ltb,
  leb, ◌==◌, if◌then◌else◌, update, add64, sub64, Bool-cases, Option-cases, ==_iff, ==_self, ltb→lt,
  lt→ltb, length, get_elem?, length-append, bit_and, bit_or, bit_xor, has, ◌∈◌, ◌∉◌, has-append,
}
use destin_x.Str.{Memory, memcpy, memset}
use destin_x.Printf.{digit}

pub record Framebuffer : Type 0 where
  pub buffer : ℕ
  pub width : ℕ
  pub height : ℕ
  pub pitch : ℕ
  pub size : ℕ
  pub font : ℕ → ℕ
  pub char_width : ℕ
  pub char_height : ℕ
  pub cursor_x : ℕ
  pub cursor_y : ℕ
  pub mem : Memory

-- `uint32_t` sums and differences wrap.
abbrev pub add32 : ℕ → ℕ → ℕ
add32 a b = (a + b) % 2 ^ 32

abbrev pub sub32 : ℕ → ℕ → ℕ
sub32 a b = (a + 2 ^ 32 - b) % 2 ^ 32

-- The four bytes of a `uint32_t`, the lowest first.
abbrev pub store32 : (a x : ℕ) → Memory → Memory
store32 a x mem =
    update
      (update (update (update mem a (x % 256)) (a + 1) (x / 256 % 256)) (a + 2) (x / 2 ^ 16 % 256))
      (a + 3) (x / 2 ^ 24 % 256)

abbrev pub set_mem : Memory → Framebuffer → Framebuffer
set_mem mem l = record l { mem = mem }

unfoldable pub lfb_scroll : Framebuffer → Framebuffer
lfb_scroll l =
    let line_size = l.pitch * l.char_height % 2 ^ 32 in
    let move_size = sub32 l.size line_size in
    let copied = (memcpy l.buffer (add64 l.buffer line_size) move_size l.mem).1 in
    set_mem (memset (add64 l.buffer move_size) 0 line_size copied).1 l

unfoldable pub putpixel : (x y color : ℕ) → Framebuffer → Framebuffer
putpixel x y color l =
    if leb l.width x || leb l.height y
    then l
    else set_mem (store32 (l.buffer + 4 * ((y * (l.pitch / 4) + x) % 2 ^ 32)) color l.mem) l

-- Whether column `j` is set in a row of a glyph: `(glyph[i] >> (7 - j)) & 1`.
abbrev pub is_set : (row j : ℕ) → Bool
is_set row j = row / 2 ^ (7 - j) % 2 == 1

-- The loop over the columns of row `i`, from column `j` on.
unfoldable pub draw_row : (rounds j i x y row fg bg : ℕ) → Framebuffer → Framebuffer
draw_row zero j i x y row fg bg l = l
draw_row (suc rounds) j i x y row fg bg l =
    draw_row rounds (j + 1) i x y row fg bg
      (putpixel (add32 x j) (add32 y i) (if is_set row j then fg else bg) l)

-- The loop over the rows, from row `i` on; `glyph` is where the character starts in the font.
unfoldable pub draw_rows : (rounds i x y glyph fg bg : ℕ) → Framebuffer → Framebuffer
draw_rows zero i x y glyph fg bg l = l
draw_rows (suc rounds) i x y glyph fg bg l =
    draw_rows rounds (i + 1) x y glyph fg bg
      (draw_row l.char_width 0 i x y (l.font (glyph + i)) fg bg l)

-- `c` is the character as a `uint8_t`.
unfoldable pub draw_char_at : (x y c fg bg : ℕ) → Framebuffer → Framebuffer
draw_char_at x y c fg bg l = draw_rows l.char_height 0 x y (c * l.char_height) fg bg l

abbrev pub set_cursor : (x y : ℕ) → Framebuffer → Framebuffer
set_cursor x y l = record l { cursor_x = x; cursor_y = y }

-- A character in white on black.
abbrev pub draw : (c : ℕ) → Framebuffer → Framebuffer
draw c l = draw_char_at l.cursor_x l.cursor_y c 0xFFFFFFFF 0 l

-- The cursor one place back, on the line before when it stands at the start of a line.
abbrev pub step_back : Framebuffer → Framebuffer
step_back l =
    if l.cursor_x == 0
    then set_cursor (sub32 l.width l.char_width) (sub32 l.cursor_y l.char_height) l
    else set_cursor (sub32 l.cursor_x l.char_width) l.cursor_y l

-- The end of `kputchar_direct`: a new line at the right edge, and scrolling at the lower one.
unfoldable pub next_line : Framebuffer → Framebuffer
next_line l =
    if ltb l.width (add32 l.cursor_x l.char_width)
    then set_cursor 0 (add32 l.cursor_y l.char_height) l
    else l

unfoldable pub scroll_up : Framebuffer → Framebuffer
scroll_up l =
    let l1 = lfb_scroll l in
    if ltb l.height (add32 l.cursor_y l.char_height)
    then set_cursor l1.cursor_x (sub32 l1.cursor_y l1.char_height) l1
    else l

-- The character itself, by its three cases.
unfoldable pub put_new_line : Framebuffer → Framebuffer
put_new_line l = set_cursor 0 (add32 l.cursor_y l.char_height) l

unfoldable pub put_backspace : Framebuffer → Framebuffer
put_backspace l = draw 32 (step_back l)

unfoldable pub put_drawn : (c : ℕ) → Framebuffer → Framebuffer
put_drawn c l = let l1 = draw c l in set_cursor (add32 l1.cursor_x l1.char_width) l1.cursor_y l1

unfoldable pub kputchar_direct : (c : ℕ) → Framebuffer → Framebuffer
kputchar_direct c l =
    if (c == 8) && ((l.cursor_x == 0) && (l.cursor_y == 0))
    then l
    else scroll_up (
        next_line
          (if c == 10 then put_new_line l else if c == 8 then put_backspace l else put_drawn c l))

abbrev pub kputchar : (c : ℕ) → Framebuffer → Framebuffer
kputchar = kputchar_direct

-- The digits of `kputnum_direct`, the last one first; `none` means that the fuel ran out.
unfoldable pub num_digits : (fuel num base : ℕ) → Option (List ℕ)
num_digits zero num base = none
num_digits (suc fuel) num base =
    let rest : Option (List ℕ) = elim (num_digits fuel (num / base) base) [
      | none ↦ none
      | some ds ↦ some (digit (num % base) ∷ ds)
    ] in
    if num == 0 then some [] else rest

-- `while (i > 0) kputchar_direct(buf[--i]);`
unfoldable pub put_reversed : List ℕ → Framebuffer → Framebuffer
put_reversed [] l = l
put_reversed (c ∷ cs) l = kputchar_direct c (put_reversed cs l)

unfoldable pub kputnum_direct : (fuel num base : ℕ) → Framebuffer → Option Framebuffer
kputnum_direct fuel num base l =
    let shown : Option Framebuffer = elim (num_digits fuel num base) [
      | none ↦ none
      | some ds ↦ some (put_reversed ds l)
    ] in
    if num == 0 then some (kputchar_direct b'0' l) else shown
