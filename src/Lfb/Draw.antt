-- ===== src/Lfb/Draw.antt =====
-- What is drawn stays in the copy of the frame.
use destin_x.Prelude.{
  ℕ, zero, suc, ◌+◌, ◌-◌, ◌*◌, ◌/◌, ◌%◌, ◌^◌, ◌≤◌, ◌<◌, ◌≡◌, refl, ap, ◌∙◌, inl, inr, false, ◌||◌,
  arith, leb, if◌then◌else◌, add64, Bool-cases,
}
use destin_x.Str.{Memory, memcpy, memset}
use destin_x.Str.Copy.{within, memcpy_lem, memset_lem}
use destin_x.Lfb.{
  Framebuffer, add32, sub32, store32, set_mem, lfb_scroll, putpixel, is_set, draw_row, draw_rows,
  draw_char_at, draw,
}

-- The shape of the screen: whole pixels in a line, and room for the font's characters of 8 by 16 in a
-- buffer of less than 2 GiB.
pub record IsShape (l : Framebuffer) : Type 0 where
  pub size : l.size ≡ l.height * l.pitch
  pub small : l.size < 2 ^ 31
  pub fits : l.buffer + l.size < 2 ^ 64
  pub words : l.pitch % 4 ≡ 0
  pub room : 4 * l.width ≤ l.pitch
  pub char_width : l.char_width ≡ 8
  pub char_height : l.char_height ≡ 16
  pub columns : l.width % 8 ≡ 0
  pub some_column : 8 ≤ l.width
  pub some_line : 16 ≤ l.height
  pub low : l.height < 2 ^ 31

-- `m` is the memory of `l` outside the buffer.
abbrev pub Outside : Framebuffer → Memory → Type 0
Outside l m = (a : ℕ) → within l.buffer l.size a ≡ false → m a ≡ l.mem a

-- Only the buffer has changed.
abbrev pub Drawn : Framebuffer → Framebuffer → Type 0
Drawn l l' = (m : Memory) × (l' ≡ set_mem m l) × Outside l m

Drawn-then : (l l1 l2 : Framebuffer) → Drawn l l1 → Drawn l1 l2 → Drawn l l2
Drawn-then l l1 l2 (m1, e1, o1) (m2, e2, o2) = (
  m2,
  e2 ∙ ap (set_mem m2) e1,
  λ a out.
      o2 a (ap (λ (x : Framebuffer). within x.buffer x.size a) e1 ∙ out)
      ∙ ap (λ (x : Framebuffer). x.mem a) e1
      ∙ o1 a out,
)

cell_below : (y h p x : ℕ) → y < h → x < p → y * p + x < h * p
cell_below y zero p x hy hx = absurd (omega (arith, hy))
cell_below zero (suc h) p x hy hx = omega (arith, hx)
cell_below (suc y) (suc h) p x hy hx =
    let ih = cell_below y h p x (omega (arith, hy)) hx in omega (arith, ih)

-- The four bytes of a pixel of the screen.
pixel_inside :
    (l : Framebuffer) (x y : ℕ)
    → IsShape l
    → x < l.width
    → y < l.height
    → 4 * ((y * (l.pitch / 4) + x) % 2 ^ 32) + 4 ≤ l.size
pixel_inside l x y h hx hy =
    let words = h.words in
    let room = h.room in
    let below = cell_below y l.height (l.pitch / 4) x hy (omega (arith, hx, words, room)) in
    let quarter : l.pitch ≡ l.pitch / 4 * 4 = omega (arith, words) in
    let total = ap (λ (t : ℕ). l.height * t) quarter in omega (arith, below, total, h.size, h.small)

store32-Outside :
    (l : Framebuffer) (at color : ℕ)
    → at + 4 ≤ l.size
    → Outside l (store32 (l.buffer + at) color l.mem)
store32-Outside l at color fits a out = ground (arith, fits, out)

putpixel-Drawn : (x y color : ℕ) (l : Framebuffer) → IsShape l → Drawn l (putpixel x y color l)
unfolding putpixel
putpixel-Drawn x y color l h = elim (Bool-cases (leb l.width x || leb l.height y)) [
  | inl off ↦ rw off (l.mem, refl, λ a out. refl)
  | inr on ↦
      let at = 4 * ((y * (l.pitch / 4) + x) % 2 ^ 32) in
      let inside = pixel_inside l x y h (ground (arith, on)) (ground (arith, on)) in
      rw on (store32 (l.buffer + at) color l.mem, refl, store32-Outside l at color inside)
]

-- The shape does not depend on the memory.
Drawn-IsShape : (l l' : Framebuffer) → Drawn l l' → IsShape l → IsShape l'
Drawn-IsShape l l' (m, e, _) h = rw e (record {
  size = h.size;
  small = h.small;
  fits = h.fits;
  words = h.words;
  room = h.room;
  char_width = h.char_width;
  char_height = h.char_height;
  columns = h.columns;
  some_column = h.some_column;
  some_line = h.some_line;
  low = h.low;
})

draw_row-Drawn :
    (rounds j i x y row fg bg : ℕ) (l : Framebuffer)
    → IsShape l
    → Drawn l (draw_row rounds j i x y row fg bg l)
unfolding draw_row
draw_row-Drawn zero j i x y row fg bg l h = (l.mem, refl, λ a out. refl)
draw_row-Drawn (suc rounds) j i x y row fg bg l h =
    let color = if is_set row j then fg else bg in
    let l1 = putpixel (add32 x j) (add32 y i) color l in
    let d = putpixel-Drawn (add32 x j) (add32 y i) color l h in
    Drawn-then l l1 (draw_row rounds (j + 1) i x y row fg bg l1) d
      (draw_row-Drawn rounds (j + 1) i x y row fg bg l1 (Drawn-IsShape l l1 d h))

draw_rows-Drawn :
    (rounds i x y glyph fg bg : ℕ) (l : Framebuffer)
    → IsShape l
    → Drawn l (draw_rows rounds i x y glyph fg bg l)
unfolding draw_rows
draw_rows-Drawn zero i x y glyph fg bg l h = (l.mem, refl, λ a out. refl)
draw_rows-Drawn (suc rounds) i x y glyph fg bg l h =
    let row = l.font (glyph + i) in
    let l1 = draw_row l.char_width 0 i x y row fg bg l in
    let d = draw_row-Drawn l.char_width 0 i x y row fg bg l h in
    Drawn-then l l1 (draw_rows rounds (i + 1) x y glyph fg bg l1) d
      (draw_rows-Drawn rounds (i + 1) x y glyph fg bg l1 (Drawn-IsShape l l1 d h))

pub draw-Drawn : (c : ℕ) (l : Framebuffer) → IsShape l → Drawn l (draw c l)
unfolding draw_char_at
draw-Drawn c l h =
    draw_rows-Drawn l.char_height 0 l.cursor_x l.cursor_y (c * l.char_height) 0xFFFFFFFF 0 l h

lines_fit : (d p : ℕ) → p * 16 ≤ (16 + d) * p
lines_fit d p = omega arith

pub line_fits : (l : Framebuffer) → IsShape l → l.pitch * 16 ≤ l.size
line_fits l h =
    let tall : l.height ≡ 16 + (l.height - 16) = omega (arith, h.some_line) in
    let total = ap (λ (t : ℕ). t * l.pitch) tall in
    omega (arith, h.size, total, lines_fit (l.height - 16) l.pitch)

scrolled-Outside :
    (l : Framebuffer) (line move : ℕ)
    → move + line ≡ l.size
    → l.buffer + l.size < 2 ^ 64
    → Outside l
        (memset (add64 l.buffer move) 0 line (memcpy l.buffer (add64 l.buffer line) move l.mem).1).1
scrolled-Outside l line move all fits a out =
    let dest : add64 l.buffer move ≡ l.buffer + move = omega (arith, all, fits) in
    let src : add64 l.buffer line ≡ l.buffer + line = omega (arith, all, fits) in
    let copied = (memcpy l.buffer (l.buffer + line) move l.mem).1 in
    let set = (memset_lem (l.buffer + move) 0 line copied (omega (arith, all, fits))).1 a in
    let copy =
      (memcpy_lem l.buffer (l.buffer + line) move l.mem (omega (arith, all, fits))
          (omega (arith, all, fits)) (inl (omega arith))).1
        a in
    let off1 : within (l.buffer + move) line a ≡ false = ground (arith, all, out) in
    let off2 : within l.buffer move a ≡ false = ground (arith, all, out) in
    rw (dest, src) (set ∙ rw off1 (copy ∙ rw off2 refl))

pub lfb_scroll-Drawn : (l : Framebuffer) → IsShape l → Drawn l (lfb_scroll l)
unfolding lfb_scroll
lfb_scroll-Drawn l h =
    let fits = line_fits l h in
    let line : l.pitch * l.char_height % 2 ^ 32 ≡ l.pitch * 16 =
      ap (λ (t : ℕ). l.pitch * t % 2 ^ 32) h.char_height ∙ omega (arith, fits, h.small) in
    rw line (
      _,
      refl,
      scrolled-Outside l (l.pitch * 16) (sub32 l.size (l.pitch * 16)) (omega (arith, fits, h.small))
          (omega (arith, h.fits)),
    )
