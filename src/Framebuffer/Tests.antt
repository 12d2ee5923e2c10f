-- ===== src/Framebuffer/Tests.antt =====
-- Characters on a small screen, and the theorems about them there.
use ukulele.Base.{
  Option, none, some, ℕ, ◌+◌, ◌-◌, ◌*◌, ◌≡◌, refl, arith, bit_and, ◌==◌, if◌then◌else◌,
}
use ukulele.Framebuffer.{
  Pixels, framebuffer_dofractals, framebuffer_draw_line, line_to, line_loop, FbPoint, FbConfig,
  FbCookie, framebuffer_write_at, glyph_loop, row_loop, pixel32, fb_cookie_write, foreground,
}
use ukulele.Framebuffer.Glyph.{IsArea, GlyphSet, spot, color, framebuffer_write_at_lem}
use ukulele.Framebuffer.Line.{Returned, IsLine, framebuffer_draw_line_lem}
use ukulele.Framebuffer.Fractals.{IsDrawn, framebuffer_dofractals_lem}
use ukulele.Framebuffer.Cursor.{fb_cookie_write-below}

-- 16 by 16 pixels at 4096, with nothing between the rows.
abbrev screen : FbConfig
screen = record { address = 4096; width = 16; height = 16; pitch = 64 }

abbrev stripes : ℕ → ℕ → ℕ
stripes c row = if bit_and row 1 == 0 then 0x0f else 0xff

screen-IsArea : IsArea screen 16 16
screen-IsArea = record { rows = omega arith; small = omega arith; fits = omega arith }

taller-IsArea : IsArea screen 8 24
taller-IsArea = record { rows = omega arith; small = omega arith; fits = omega arith }

abbrev origin : FbPoint
origin = record { x = 0; y = 0 }

-- The last pixel of the second row is lit.
write_at_runs :
    framebuffer_write_at stripes screen 65 origin (λ _. 5) (spot screen 7 1) ≡ foreground
unfolding framebuffer_write_at glyph_loop row_loop pixel32
write_at_runs = refl

framebuffer_write_at_lem_example :
    GlyphSet screen origin screen-IsArea
      (omega arith)
      (omega arith)
      (stripes 33)
      0
      (λ _. 5)
      (framebuffer_write_at stripes screen 65 origin (λ _. 5))
framebuffer_write_at_lem_example =
    framebuffer_write_at_lem screen origin screen-IsArea (omega arith) (omega arith) stripes 65
      (λ _. 5) (omega arith) (omega arith)

abbrev last_line : FbCookie
last_line = record { config = screen; x = 8; y = 8; pixels = λ _. 5 }

-- A newline and then a letter.
abbrev newline_letter : ℕ → ℕ
newline_letter i = if i == 0 then 10 else 65

fb_cookie_write-below_example :
    (fb_cookie_write stripes 0 newline_letter 2 last_line).0.pixels (4096 + 64 * 16)
    ≡ color (stripes (65 - 32) 0) 0
fb_cookie_write-below_example =
    fb_cookie_write-below stripes 0 newline_letter last_line taller-IsArea refl (omega arith) refl
      (omega arith) (omega arith)

abbrev far_point : FbPoint
far_point = record { x = 3; y = 12 }

framebuffer_draw_line_lem_example :
    Returned
      (IsLine screen far_point origin (λ _. 5))
      (framebuffer_draw_line 16 screen far_point origin (λ _. 5))
framebuffer_draw_line_lem_example =
    framebuffer_draw_line_lem 16 screen far_point origin (λ _. 5) (omega arith) (omega arith)
      (omega arith) (omega arith) (omega arith)

abbrev color_at : ℕ → Option Pixels → ℕ
color_at q none = 0
color_at q (some m) = m q

-- A pixel between the ends is lit.
draw_line_runs :
    color_at (spot screen 1 4) (framebuffer_draw_line 16 screen far_point origin (λ _. 5))
    ≡ foreground
unfolding framebuffer_draw_line line_to line_loop pixel32
draw_line_runs = refl

framebuffer_dofractals_lem_example :
    IsDrawn screen (λ _. 5) (framebuffer_dofractals screen 1000 0 (λ _. 5))
framebuffer_dofractals_lem_example =
    framebuffer_dofractals_lem screen 1000 0 (λ _. 5) screen-IsArea (omega arith) (omega arith)
      (omega arith) (omega arith)
