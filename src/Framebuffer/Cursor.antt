-- ===== src/Framebuffer/Cursor.antt =====
-- The cursor of `fb_cookie_write`, and where it goes wrong.
use ukulele.Base.{
  ℕ, ◌+◌, ◌-◌, ◌*◌, ◌^◌, ◌≤◌, ◌<◌, ◌≡◌, refl, ap, ◌∙◌, arith, false, ◌||◌, ◌==◌, u32, Bool-cases,
  inl, inr,
}
use ukulele.Libk.Int.{slt}
use ukulele.Framebuffer.{
  FbPoint, FbCookie, Pixels, framebuffer_write_at, advance, print_char, print_loop, fb_cookie_write,
}
use ukulele.Framebuffer.Glyph.{IsArea, spot, color, framebuffer_write_at_lem}

advance-pixels : (fbc : FbCookie) (print : ℕ) → (advance fbc print).pixels ≡ fbc.pixels
unfolding advance
advance-pixels fbc print =
    elim (Bool-cases (print == 10 || slt fbc.config.width (u32 (fbc.x + 8)))) [
      | inl y ↦ rw y refl
      | inr n ↦ rw n refl
    ]

-- A newline on the last line puts the cursor below the screen.
newline_below :
    (font_8x8 : ℕ → ℕ → ℕ) (fbc : FbCookie)
    → fbc.config.height < 2 ^ 31
    → fbc.y + 8 ≡ fbc.config.height
    → print_char font_8x8 fbc 10 ≡ record fbc { x = 0; y = fbc.config.height }
unfolding print_char advance framebuffer_write_at
newline_below font_8x8 fbc short last =
    let y : u32 (fbc.y + 8) ≡ fbc.config.height = omega arith in
    let stays : slt fbc.config.height fbc.config.height ≡ false = ground arith in rw (y, stays) refl

-- With the cursor on the last line of the screen, a newline and then a printable character draw the
-- character below the screen: the first word of memory behind the screen's last row gets the
-- character's first pixel. (A row has room for at least 8 pixels, and the memory for 8 more rows.)
pub fb_cookie_write-below :
    (font_8x8 : ℕ → ℕ → ℕ) (cookie : ℕ) (buf : ℕ → ℕ) (fbc : FbCookie)
    → IsArea fbc.config 8 (fbc.config.height + 8)
    → fbc.y + 8 ≡ fbc.config.height
    → fbc.config.height < 2 ^ 31
    → buf 0 ≡ 10
    → 32 ≤ buf 1
    → buf 1 ≤ 126
    → (fb_cookie_write font_8x8 cookie buf 2 fbc).0.pixels
        (fbc.config.address + fbc.config.pitch * fbc.config.height)
      ≡ color (font_8x8 (buf 1 - 32) 0) 0
unfolding fb_cookie_write print_loop print_char
fb_cookie_write-below font_8x8 cookie buf fbc area last short newline low high =
    let at : FbPoint = record { x = 0; y = fbc.config.height } in
    let glyph =
      framebuffer_write_at_lem fbc.config at area (omega arith) (omega arith) font_8x8 (buf 1)
        fbc.pixels low high in
    let pixels : Pixels = framebuffer_write_at font_8x8 fbc.config (buf 1) at fbc.pixels in
    let next : FbCookie = record fbc { x = 0; y = fbc.config.height; pixels = pixels } in
    let here : spot fbc.config (0 + 0) (fbc.config.height + 0)
        ≡ fbc.config.address + fbc.config.pitch * fbc.config.height =
      omega arith in
    rw (newline, newline_below font_8x8 fbc short last)
      (ap (λ (m : Pixels). m (fbc.config.address + fbc.config.pitch * fbc.config.height))
          (advance-pixels next (buf 1))
        ∙ rw here at (glyph.drawn 0 0 (omega arith) (omega arith) (omega arith)))
