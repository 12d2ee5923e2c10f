-- ===== src/Framebuffer.antt =====
-- The screen (src/drivers/fb32.c, src/drivers/fb32.h), and the cookie that writes text to it
-- (src/kernel.c).
--
-- An `int` is its word of 32 bits and a `char` a byte. The memory of the screen is a function from
-- the address of a pixel to its 32 bits, and the generated font a function from a glyph and a row
-- to the byte there.
pub mod Glyph
pub mod Cursor
mod Steps
pub mod Line
pub mod Fractals
mod Tests
use ukulele.Base.{
  ℕ, zero, suc, ◌+◌, ◌-◌, ◌*◌, ◌/◌, ◌%◌, ◌^◌, bit_and, Bool, ◌||◌, ◌&&◌, not, Option, ◌==◌, ltb,
  u32, if◌then◌else◌, some, none,
}
use ukulele.Libk.Int.{slt, int_of_char, long_of_int, sub32}
use ukulele.Libk.Stdio.{Ssize, count, CookieIoFunctions}

pub record FbPoint : Type 0 where
  pub x : ℕ
  pub y : ℕ

pub record FbConfig : Type 0 where
  pub address : ℕ
  pub width : ℕ
  pub height : ℕ
  pub pitch : ℕ

abbrev pub foreground : ℕ
foreground = 2 ^ 32 - 1

abbrev pub background : ℕ
background = 0

abbrev pub font_char_height : ℕ
font_char_height = 8

abbrev pub font_char_width : ℕ
font_char_width = 8

abbrev pub Pixels : Type 0
Pixels = ℕ → ℕ

unfoldable pub pixel32 : FbConfig → ℕ → ℕ → ℕ
pixel32 fb x y =
    (fb.address + long_of_int (u32 (fb.pitch * y)) + long_of_int (u32 (4 * x))) % 2 ^ 64

abbrev pub set_pixel : Pixels → ℕ → ℕ → ℕ → ℕ
set_pixel m p color q = if p == q then color else m q

abbrev pub abs : ℕ → ℕ
abs x = if slt x 0 then sub32 0 x else x

-- What the loop reads and never changes.
pub record LineTo : Type 0 where
  pub dx : ℕ
  pub dy : ℕ
  pub sx : ℕ
  pub sy : ℕ
  pub to : FbPoint

-- The loop, for up to `fuel` rounds.
pub line_loop : ℕ → FbConfig → LineTo → ℕ → ℕ → ℕ → Pixels → Option Pixels
line_loop zero fb l x0 y0 err m = none
line_loop (suc fuel) fb l x0 y0 err m =
    let drawn = set_pixel m (pixel32 fb x0 y0) foreground in
    let e2 = u32 (2 * err) in
    let move_x = not (slt e2 l.dy) in
    let move_y = not (slt l.dx e2) in
    let err1 = if move_x then u32 (err + l.dy) else err in
    let x = if move_x then u32 (x0 + l.sx) else x0 in
    let err2 = if move_y then u32 (err1 + l.dx) else err1 in
    let y = if move_y then u32 (y0 + l.sy) else y0 in
    let rest = line_loop fuel fb l x y err2 drawn in
    if x0 == l.to.x && y0 == l.to.y then some drawn else rest

pub line_to : FbPoint → FbPoint → LineTo
line_to from to = record {
  dx = abs (sub32 to.x from.x);
  dy = sub32 0 (abs (sub32 to.y from.y));
  sx = if slt from.x to.x then 1 else 2 ^ 32 - 1;
  sy = if slt from.y to.y then 1 else 2 ^ 32 - 1;
  to = to;
}

pub framebuffer_draw_line : ℕ → FbConfig → FbPoint → FbPoint → Pixels → Option Pixels
framebuffer_draw_line fuel fb from to m =
    let l = line_to from to in line_loop fuel fb l from.x from.y (u32 (l.dx + l.dy)) m

-- The next value of the `static unsigned r` of `urand`.
abbrev pub urand : ℕ → ℕ
urand r = u32 (u32 (r * 1103515245) + 12345)

-- `corners[k % 3]`, of a screen whose width and height are not negative.
pub corner : FbConfig → ℕ → FbPoint
corner fb k =
    if k % 3 == 0
    then record { x = 0; y = 0 }
    else if k % 3 == 1
    then record { x = fb.width; y = 0 }
    else record { x = fb.width / 2; y = fb.height }

-- The state of `framebuffer_dofractals`: that of `urand`, the current point and the screen.
pub record Fractal : Type 0 where
  pub r : ℕ
  pub curr : FbPoint
  pub pixels : Pixels

-- The first point, and `n` rounds of the loop that never ends.
pub fractal_start : FbConfig → ℕ → Pixels → Fractal
fractal_start fb r m =
    let r1 = urand r in
    let r2 = urand r1 in
    record { r = r2; curr = record { x = r1 % fb.width; y = r2 % fb.height }; pixels = m }

pub fractal_loop : FbConfig → ℕ → Fractal → Fractal
fractal_loop fb zero s = s
fractal_loop fb (suc n) s =
    let r = urand s.r in
    let target = corner fb (r / 2 ^ 20) in
    fractal_loop fb n (record {
      r = r;
      curr = record { x = u32 (s.curr.x + target.x) / 2; y = u32 (s.curr.y + target.y) / 2 };
      pixels = set_pixel s.pixels (pixel32 fb s.curr.x s.curr.y) foreground;
    })

pub framebuffer_dofractals : FbConfig → ℕ → ℕ → Pixels → Fractal
framebuffer_dofractals fb n r m = fractal_loop fb n (fractal_start fb r m)

-- `row >> 1` of a signed `char`.
abbrev pub shift_row : ℕ → ℕ
shift_row row = row / 2 + row / 128 * 128

-- The loops of `framebuffer_write_at`: the rest of a row from column `x` on, and the rest of the
-- rows from row `y` on.
pub row_loop : ℕ → FbConfig → FbPoint → ℕ → ℕ → ℕ → Pixels → Pixels
row_loop zero fb p y x row m = m
row_loop (suc n) fb p y x row m =
    let color : ℕ = if bit_and row 1 == 0 then background else foreground in
    row_loop n fb p y (x + 1) (shift_row row)
      (set_pixel m (pixel32 fb (u32 (p.x + x)) (u32 (p.y + y))) color)

pub glyph_loop : ℕ → FbConfig → FbPoint → (ℕ → ℕ) → ℕ → Pixels → Pixels
glyph_loop zero fb p fchar y m = m
glyph_loop (suc n) fb p fchar y m =
    glyph_loop n fb p fchar (y + 1) (row_loop font_char_width fb p y 0 (fchar y) m)

module _ (font_8x8 : ℕ → ℕ → ℕ) where
  pub framebuffer_write_at : FbConfig → ℕ → FbPoint → Pixels → Pixels
  framebuffer_write_at fb c p m =
      if slt (int_of_char c) 32 || slt 126 (int_of_char c)
      then m
      else glyph_loop font_char_height fb p (font_8x8 (c - 32)) 0 m

-- `struct fb_cookie`, with the memory of the screen.
pub record FbCookie : Type 0 where
  pub config : FbConfig
  pub x : ℕ
  pub y : ℕ
  pub pixels : Pixels

-- The cursor moves on behind a character.
unfoldable pub advance : FbCookie → ℕ → FbCookie
advance fbc print =
    let x = u32 (fbc.x + 8) in
    let y = u32 (fbc.y + 8) in
    let line : FbCookie = record fbc { x = 0; y = if slt fbc.config.height y then 0 else y } in
    if print == 10 || slt fbc.config.width x then line else record fbc { x = x }

module _ (font_8x8 : ℕ → ℕ → ℕ) where
  pub print_char : FbCookie → ℕ → FbCookie
  print_char fbc print =
      let at : FbPoint = record { x = fbc.x; y = fbc.y } in
      advance (record fbc { pixels = framebuffer_write_at font_8x8 fbc.config print at fbc.pixels })
        print

  -- The loop of `fb_cookie_write`, for `c` more bytes from `buf + i` on.
  pub print_loop : ℕ → (ℕ → ℕ) → ℕ → FbCookie → FbCookie
  print_loop zero buf i fbc = fbc
  print_loop (suc c) buf i fbc = print_loop c buf (i + 1) (print_char fbc (buf i))

  pub fb_cookie_write : ℕ → (ℕ → ℕ) → ℕ → FbCookie → FbCookie × Ssize
  fb_cookie_write cookie buf nbytes fbc = (print_loop nbytes buf 0 fbc, count nbytes)

  pub fb_io : CookieIoFunctions FbCookie
  fb_io = record { reader = none; writer = some fb_cookie_write }
