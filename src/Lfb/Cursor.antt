-- ===== src/Lfb/Cursor.antt =====
-- The cursor stays on the screen, and nothing outside the copy of the frame is written.
use destin_x.Prelude.{
  ℕ, ◌+◌, ◌-◌, ◌%◌, ◌^◌, ◌≤◌, ◌<◌, ◌≡◌, ◌≢◌, ◌⊎◌, refl, ap, ◌∙◌, inl, inr, false, ◌&&◌, arith, ltb,
  ◌==◌, if◌then◌else◌, Bool-cases, ==_iff, ltb→lt,
}
use destin_x.Str.{Memory}
use destin_x.Str.Copy.{within}
use destin_x.Lfb.Draw.{IsShape, Outside, draw-Drawn, line_fits, lfb_scroll-Drawn}
use destin_x.Lfb.{
  Framebuffer, add32, sub32, set_mem, set_cursor, draw, step_back, next_line, scroll_up,
  put_new_line, put_backspace, put_drawn, kputchar_direct,
}

-- The cursor stands on a place for a character.
pub record IsCursor (l : Framebuffer) : Type 0 where
  pub column : l.cursor_x % 8 ≡ 0
  pub line : l.cursor_y % 16 ≡ 0
  pub right : l.cursor_x + 8 ≤ l.width
  pub low : l.cursor_y + 16 ≤ l.height

-- The same screen with another cursor and another memory.
abbrev pub moved : (x y : ℕ) → Memory → Framebuffer → Framebuffer
moved x y m l = set_cursor x y (set_mem m l)

-- The second screen has the buffer, the sizes and the font of the first.
abbrev pub SameScreen : Framebuffer → Framebuffer → Type 0
SameScreen l l' = l' ≡ moved l'.cursor_x l'.cursor_y l'.mem l

moved-IsShape : (x y : ℕ) (m : Memory) (l : Framebuffer) → IsShape l → IsShape (moved x y m l)
moved-IsShape x y m l h = record {
  size = h.size;
  small = h.small;
  fits = h.fits;
  words = h.words;
  room = h.room;
  char_width = h.char_width;
  char_height = h.char_height;
  columns = h.columns;
  some_column = h.some_column;
  some_line = h.some_line;
  low = h.low;
}

-- A place of the grid at most one step off the screen, on the right or below.
abbrev IsNear : (x y : ℕ) → Framebuffer → Type 0
IsNear x y l =
    (x % 8 ≡ 0)
    × (y % 16 ≡ 0)
    × (x ≤ l.width)
    × (y ≤ l.height)
    × ((x + 8 ≤ l.width) ⊎ (y + 16 ≤ l.height))

-- The screen after the character, before the ends of the line and of the screen are tested.
abbrev Stepped : Framebuffer → Framebuffer → Type 0
Stepped l l' = (x : ℕ) × (y : ℕ) × (m : Memory) × (l' ≡ moved x y m l) × Outside l m × IsNear x y l

-- All sums of the cursor stay below 2^32.
narrow : (l : Framebuffer) → IsShape l → l.width < 2 ^ 31
narrow l h = omega (arith, line_fits l h, h.room, h.small)

new_line-Stepped : (l : Framebuffer) → IsShape l → IsCursor l → Stepped l (put_new_line l)
unfolding put_new_line
new_line-Stepped l h k =
    let below : add32 l.cursor_y l.char_height ≡ l.cursor_y + 16 =
      ap (λ (t : ℕ). add32 l.cursor_y t) h.char_height ∙ omega (arith, k.low, h.low) in
    (
      0,
      l.cursor_y + 16,
      l.mem,
      ap (λ (y : ℕ). moved 0 y l.mem l) below,
      λ a out. refl,
      (refl, omega (arith, k.line), omega arith, k.low, inl h.some_column),
    )

drawn-Stepped : (c : ℕ) (l : Framebuffer) → IsShape l → IsCursor l → Stepped l (put_drawn c l)
unfolding put_drawn
drawn-Stepped c l h k =
    let (m, e, o) = draw-Drawn c l h in
    let next : add32 l.cursor_x l.char_width ≡ l.cursor_x + 8 =
      ap (λ (t : ℕ). add32 l.cursor_x t) h.char_width ∙ omega (arith, k.right, narrow l h) in
    (
      l.cursor_x + 8,
      l.cursor_y,
      m,
      ap (λ (l1 : Framebuffer). set_cursor (add32 l1.cursor_x l1.char_width) l1.cursor_y l1) e
          ∙ ap (λ (x : ℕ). moved x l.cursor_y m l) next,
      o,
      (omega (arith, k.column), k.line, k.right, omega (arith, k.low), inr k.low),
    )

-- One place back, when the cursor is not at the start of the screen.
back :
    (l : Framebuffer)
    → IsShape l
    → IsCursor l
    → (l.cursor_x ≡ 0 → l.cursor_y ≢ 0)
    → (x : ℕ) × (y : ℕ) × (step_back l ≡ moved x y l.mem l)
      × (x % 8 ≡ 0)
      × (y % 16 ≡ 0)
      × (x + 8 ≤ l.width)
      × (y + 16 ≤ l.height)
back l h k not_first = elim (Bool-cases (l.cursor_x == 0)) [
  | inl start ↦
      let some_line = not_first ((==_iff l.cursor_x 0).0 start) in
      let x : sub32 l.width l.char_width ≡ l.width - 8 =
        ap (λ (t : ℕ). sub32 l.width t) h.char_width ∙ omega (arith, h.some_column, narrow l h) in
      let above : 16 ≤ l.cursor_y = omega (arith, some_line, k.line) in
      let y : sub32 l.cursor_y l.char_height ≡ l.cursor_y - 16 =
        ap (λ (t : ℕ). sub32 l.cursor_y t) h.char_height ∙ omega (arith, above, k.low, h.low) in
      (
        l.width - 8,
        l.cursor_y - 16,
        rw start (λ i. moved (x i) (y i) l.mem l),
        omega (arith, h.columns, h.some_column),
        omega (arith, k.line, above),
        omega (arith, h.some_column),
        omega (arith, above, k.low),
      )
  | inr later ↦
      let some_column : 8 ≤ l.cursor_x =
        let ne : l.cursor_x ≢ 0 = ground (arith, later) in omega (arith, ne, k.column) in
      let x : sub32 l.cursor_x l.char_width ≡ l.cursor_x - 8 =
        ap (λ (t : ℕ). sub32 l.cursor_x t) h.char_width
        ∙ omega (arith, some_column, k.right, narrow l h) in
      (
        l.cursor_x - 8,
        l.cursor_y,
        rw later (λ i. moved (x i) l.cursor_y l.mem l),
        omega (arith, k.column, some_column),
        k.line,
        omega (arith, some_column, k.right),
        k.low,
      )
]

backspace-Stepped :
    (l : Framebuffer)
    → IsShape l
    → IsCursor l
    → (l.cursor_x ≡ 0 → l.cursor_y ≢ 0)
    → Stepped l (put_backspace l)
unfolding put_backspace
backspace-Stepped l h k not_first =
    let (x, y, e, columns, lines, right, low) = back l h k not_first in
    let (m, e2, o) = draw-Drawn 32 (moved x y l.mem l) (moved-IsShape x y l.mem l h) in
    (
      x,
      y,
      m,
      ap (draw 32) e ∙ e2,
      o,
      (columns, lines, omega (arith, right), omega (arith, low), inl right),
    )

-- The cursor fits on its line, and at most the screen is one line too short.
abbrev OnLine : Framebuffer → Framebuffer → Type 0
OnLine l l' =
    (x : ℕ) × (y : ℕ) × (m : Memory) × (l' ≡ moved x y m l)
    × Outside l m
    × ((x % 8 ≡ 0) × (y % 16 ≡ 0) × (x + 8 ≤ l.width) × (y ≤ l.height))

next_line-OnLine : (l l' : Framebuffer) → IsShape l → Stepped l l' → OnLine l (next_line l')
unfolding next_line
next_line-OnLine l l' h (x, y, m, e, o, (columns, lines, right, low, near)) =
    let sum : add32 x l.char_width ≡ x + 8 =
      ap (λ (t : ℕ). add32 x t) h.char_width ∙ omega (arith, right, narrow l h) in
    elim (Bool-cases (ltb l.width (add32 x l.char_width))) [
      | inl over ↦
          let above : y + 16 ≤ l.height = elim near [
            | inl fits ↦
                let off : l.width < add32 x l.char_width = ltb→lt _ _ over in
                absurd (omega (arith, fits, off, sum))
            | inr fits ↦ fits
          ] in
          let below : add32 y l.char_height ≡ y + 16 =
            ap (λ (t : ℕ). add32 y t) h.char_height ∙ omega (arith, above, h.low) in
          (
            0,
            y + 16,
            m,
            rw (e, over) (ap (λ (t : ℕ). moved 0 t m l) below),
            o,
            (refl, omega (arith, lines), h.some_column, above),
          )
      | inr fits ↦
          let room : x + 8 ≤ l.width = ground (arith, fits, sum) in
          (x, y, m, rw (e, fits) refl, o, (columns, lines, room, low))
    ]

-- The screen with its cursor at a place of the grid.
abbrev Placed : Framebuffer → Framebuffer → Type 0
Placed l l' =
    (x : ℕ) × (y : ℕ) × (m : Memory) × (l' ≡ moved x y m l)
    × Outside l m
    × ((x % 8 ≡ 0) × (y % 16 ≡ 0) × (x + 8 ≤ l.width) × (y + 16 ≤ l.height))

scroll_up-Placed : (l l' : Framebuffer) → IsShape l → OnLine l l' → Placed l (scroll_up l')
unfolding scroll_up
scroll_up-Placed l l' h (x, y, m, e, o, (columns, lines, right, low)) =
    let sum : add32 y l.char_height ≡ y + 16 =
      ap (λ (t : ℕ). add32 y t) h.char_height ∙ omega (arith, low, h.low) in
    elim (Bool-cases (ltb l.height (add32 y l.char_height))) [
      | inl over ↦
          let off : l.height < add32 y l.char_height = ltb→lt _ _ over in
          let above : 16 ≤ y = omega (arith, off, sum, h.some_line, lines) in
          let up : sub32 y l.char_height ≡ y - 16 =
            ap (λ (t : ℕ). sub32 y t) h.char_height ∙ omega (arith, above, low, h.low) in
          let (m2, e2, o2) = lfb_scroll-Drawn (moved x y m l) (moved-IsShape x y m l h) in
          (
            x,
            y - 16,
            m2,
            rw (e, over)
                (ap (λ (s : Framebuffer). set_cursor s.cursor_x (sub32 s.cursor_y s.char_height) s)
                    e2
                  ∙ ap (λ (t : ℕ). moved x t m2 l) up),
            λ a out. o2 a out ∙ o a out,
            (columns, omega (arith, lines, above), right, omega (arith, above, low)),
          )
      | inr fits ↦
          let room : y + 16 ≤ l.height = ground (arith, fits, sum) in
          (x, y, m, rw (e, fits) refl, o, (columns, lines, right, room))
    ]

put-Stepped :
    (c : ℕ) (l : Framebuffer)
    → IsShape l
    → IsCursor l
    → ((c == 8) && ((l.cursor_x == 0) && (l.cursor_y == 0))) ≡ false
    → Stepped l
        (if c == 10 then put_new_line l else if c == 8 then put_backspace l else put_drawn c l)
put-Stepped c l h k on = elim (Bool-cases (c == 10)) [
  | inl line ↦ rw line (new_line-Stepped l h k)
  | inr other ↦ elim (Bool-cases (c == 8)) [
    | inl erase ↦
        rw (other, erase) (backspace-Stepped l h k (λ x y. ground (arith, on, erase, x, y)))
    | inr plain ↦ rw (other, plain) (drawn-Stepped c l h k)
  ]
]

put-Placed : (c : ℕ) (l : Framebuffer) → IsShape l → IsCursor l → Placed l (kputchar_direct c l)
unfolding kputchar_direct
put-Placed c l h k =
    let put =
      if c == 10 then put_new_line l else if c == 8 then put_backspace l else put_drawn c l in
    elim (Bool-cases ((c == 8) && ((l.cursor_x == 0) && (l.cursor_y == 0)))) [
      | inl first ↦
          rw first
            (l.cursor_x, l.cursor_y, l.mem, refl, λ a out. refl, (k.column, k.line, k.right, k.low))
      | inr on ↦
          let stepped = put-Stepped c l h k on in
          rw on (scroll_up-Placed l (next_line put) h (next_line-OnLine l put h stepped))
    ]

-- `kputchar_direct` keeps the cursor on the screen, at a place of the grid of characters, changes no field
-- but the cursor and the memory, and writes only into the copy of the frame; the screen holds pixels of four bytes and has a width that is a
-- multiple of 8.
pub kputchar_direct-IsCursor :
    (c : ℕ) (l : Framebuffer)
    → IsShape l
    → IsCursor l
    → IsCursor (kputchar_direct c l)
      × IsShape (kputchar_direct c l)
      × SameScreen l (kputchar_direct c l)
      × ((a : ℕ) → within l.buffer l.size a ≡ false → (kputchar_direct c l).mem a ≡ l.mem a)
kputchar_direct-IsCursor c l h k =
    let (x, y, m, e, o, (columns, lines, right, low)) = put-Placed c l h k in
    rw e (
      record { column = columns; line = lines; right = right; low = low },
      moved-IsShape x y m l h,
      refl,
      o,
    )
