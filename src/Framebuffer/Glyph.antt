-- ===== src/Framebuffer/Glyph.antt =====
-- `framebuffer_write_at`: the pixels of a character.
use ukulele.Base.{
  ℕ, zero, suc, ◌+◌, ◌-◌, ◌*◌, ◌^◌, ◌≤◌, ◌<◌, ◌≡◌, ◌≢◌, inl, inr, refl, ap, ◌∙◌, arith, bit_and,
  true, false, ◌==◌, ==_iff, u32, Bool-cases, if◌then◌else◌, ◌||◌,
}
use native.Mathlib.Nat.{mul-le-mul_left, mul-le-mul_right, mul-suc}
use ukulele.Base.Bits.{bit, bit_and_ones}
use ukulele.Libk.Int.{slt, int_of_char, long_of_int}
use ukulele.Framebuffer.{
  FbPoint, FbConfig, Pixels, pixel32, set_pixel, shift_row, row_loop, glyph_loop,
  framebuffer_write_at, foreground, background,
}

-- Memory in which `height` rows have room for `width` pixels each.
pub record IsArea (fb : FbConfig) (width height : ℕ) : Type 0 where
  pub rows : 4 * width ≤ fb.pitch
  pub small : fb.pitch * height < 2 ^ 31
  pub fits : fb.address + fb.pitch * height ≤ 2 ^ 64

-- The address of a pixel.
abbrev pub spot : FbConfig → ℕ → ℕ → ℕ
spot fb x y = fb.address + fb.pitch * y + 4 * x

abbrev pub color : ℕ → ℕ → ℕ
color row i = if bit row i == 0 then background else foreground

bit-shift_row : (row j : ℕ) → j < 7 → bit (shift_row row) j ≡ bit row (suc j)
bit-shift_row row zero h = omega arith
bit-shift_row row (suc zero) h = omega arith
bit-shift_row row (suc (suc zero)) h = omega arith
bit-shift_row row (suc (suc (suc zero))) h = omega arith
bit-shift_row row (suc (suc (suc (suc zero)))) h = omega arith
bit-shift_row row (suc (suc (suc (suc (suc zero))))) h = omega arith
bit-shift_row row (suc (suc (suc (suc (suc (suc zero)))))) h = omega arith
bit-shift_row row (suc (suc (suc (suc (suc (suc (suc j))))))) h = absurd (omega arith)

color-shift_row : (row j : ℕ) → j < 7 → color (shift_row row) j ≡ color row (suc j)
color-shift_row row j h =
    ap (λ (b : ℕ). if b == 0 then background else foreground) (bit-shift_row row j h)

-- The row of a line lies before the end of the screen.
pub row_within :
    (fb : FbConfig) {height : ℕ} (y : ℕ) → y < height → fb.pitch * y + fb.pitch ≤ fb.pitch * height
row_within fb y h = omega (arith, mul-le-mul_left {m = suc y} fb.pitch h, mul-suc fb.pitch y)

-- Later rows lie behind it.
row_later : (fb : FbConfig) (y y' : ℕ) → y < y' → fb.pitch * y + fb.pitch ≤ fb.pitch * y'
row_later fb y y' h = omega (arith, mul-le-mul_left {m = suc y} fb.pitch h, mul-suc fb.pitch y)

pub pixel32-spot :
    (fb : FbConfig) {width height : ℕ} (x y : ℕ)
    → IsArea fb width height
    → x < width
    → y < height
    → pixel32 fb x y ≡ spot fb x y
unfolding pixel32
pixel32-spot fb x y s h k =
    let within = row_within fb y k in
    let r = s.rows in
    let b = s.small in
    let f = s.fits in
    let e1 : u32 (fb.pitch * y) ≡ fb.pitch * y = omega arith in
    let e2 : u32 (4 * x) ≡ 4 * x = omega arith in
    let l1 : long_of_int (fb.pitch * y) ≡ fb.pitch * y = ground arith in
    let l2 : long_of_int (4 * x) ≡ 4 * x = ground arith in rw (e1, e2, l1, l2) (omega arith)

spot-ne :
    (fb : FbConfig) {width height : ℕ} (x y x' y' : ℕ)
    → IsArea fb width height
    → x < width
    → y < y'
    → spot fb x y ≢ spot fb x' y'
spot-ne fb x y x' y' s h k e = let r = s.rows in omega (arith, row_later fb y y' k, e)

module _ (fb : FbConfig) (p : FbPoint) {width height : ℕ} (s : IsArea fb width height)
    (right : p.x + 8 ≤ width) (bottom : p.y + 8 ≤ height) where
  abbrev at : ℕ → ℕ → ℕ
  at i j = spot fb (p.x + i) (p.y + j)

  pixel32-at : (x y : ℕ) → x < 8 → y < 8 → pixel32 fb (u32 (p.x + x)) (u32 (p.y + y)) ≡ at x y
  pixel32-at x y h k =
      let r = s.rows in
      let b = s.small in
      let wide : height ≤ fb.pitch * height =
        omega (arith, mul-le-mul_right {m = 1} {n = fb.pitch} height (omega arith)) in
      let tall : fb.pitch ≤ fb.pitch * height =
        omega (arith, mul-le-mul_left {m = 1} {n = height} fb.pitch (omega arith)) in
      let ex : u32 (p.x + x) ≡ p.x + x = omega arith in
      let ey : u32 (p.y + y) ≡ p.y + y = omega arith in
      rw (ex, ey) (pixel32-spot fb (p.x + x) (p.y + y) s (omega arith) (omega arith))

  -- The pixels of a row from column `x` on have been set.
  record RowSet (x y row : ℕ) (m m' : Pixels) : Type 0 where
    drawn : (i : ℕ) → x + i < 8 → m' (at (x + i) y) ≡ color row i
    kept : (q : ℕ) → ((i : ℕ) → x ≤ i → i < 8 → q ≢ at i y) → m' q ≡ m q

  -- The first pixel is set, and later ones do not touch it.
  first-RowSet :
      (x y row : ℕ) (m m' : Pixels)
      → x < 8
      → RowSet (x + 1) y (shift_row row) (set_pixel m (at x y) (color row 0)) m'
      → RowSet x y row m m'
  first-RowSet x y row m m' h rest = record {
    drawn = λ i k. elim (Bool-cases (i == 0)) [
      | inl y' ↦
          let zero_i : i ≡ 0 = (==_iff i 0).0 y' in
          let same : x + i ≡ x = omega (arith, zero_i) in
          let on : (at x y == at x y) ≡ true = ground arith in
          rw (same, zero_i) (rest.kept (at x y) (λ j a b e. omega (arith, e)) ∙ rw on refl)
      | inr n ↦
          let later : x + 1 + (i - 1) ≡ x + i = ground (arith, n) in
          let next : suc (i - 1) ≡ i = ground (arith, n) in
          rw later at (rest.drawn (i - 1) (omega (arith, next)))
          ∙ color-shift_row row (i - 1) (omega (arith, next))
          ∙ ap (λ (j : ℕ). color row j) next
    ];
    kept = λ q k.
        let off : (at x y == q) ≡ false = ground (arith, k x (omega arith) h) in
        rest.kept q (λ i a b. k i (omega arith) b) ∙ rw off refl;
  }

  row_loop-RowSet :
      (n x y row : ℕ) (m : Pixels)
      → x + n ≡ 8
      → y < 8
      → RowSet x y row m (row_loop n fb p y x row m)
  unfolding row_loop
  row_loop-RowSet zero x y row m e h = record {
    drawn = λ i k. absurd (omega arith);
    kept = λ q k. refl;
  }
  row_loop-RowSet (suc n) x y row m e h =
      let here = pixel32-at x y (omega arith) h in
      let low : bit_and row 1 ≡ bit row 0 = bit_and_ones 1 row in
      let rest =
        row_loop-RowSet n (x + 1) y (shift_row row) (set_pixel m (at x y) (color row 0))
          (omega arith) h in
      rw (here, low) (first-RowSet x y row m _ (omega arith) rest)

  -- The rows of a character from row `y` on have been set.
  pub record GlyphSet (fchar : ℕ → ℕ) (y : ℕ) (m m' : Pixels) : Type 0 where
    pub drawn : (i j : ℕ) → i < 8 → y ≤ j → j < 8 → m' (at i j) ≡ color (fchar j) i
    pub kept : (q : ℕ) → ((i j : ℕ) → i < 8 → y ≤ j → j < 8 → q ≢ at i j) → m' q ≡ m q

  glyph_loop-GlyphSet :
      (n y : ℕ) (fchar : ℕ → ℕ) (m : Pixels)
      → y + n ≡ 8
      → GlyphSet fchar y m (glyph_loop n fb p fchar y m)
  unfolding glyph_loop
  glyph_loop-GlyphSet zero y fchar m e = record {
    drawn = λ i j h k l. absurd (omega arith);
    kept = λ q k. refl;
  }
  glyph_loop-GlyphSet (suc n) y fchar m e =
      let row = row_loop-RowSet 8 0 y (fchar y) m refl (omega arith) in
      let rest =
        glyph_loop-GlyphSet n (y + 1) fchar (row_loop 8 fb p y 0 (fchar y) m) (omega arith) in
      record {
        drawn = λ i j h k l. elim (Bool-cases (j == y)) [
          | inl y' ↦
              let e' : j ≡ y = (==_iff j y).0 y' in
              let from_0 : 0 + i ≡ i = omega arith in
              let drawn = rw from_0 at (row.drawn i (omega arith)) in
              rw e' (
                rest.kept (at i y) (λ i' j' a b c.
                  spot-ne fb (p.x + i) (p.y + y) (p.x + i') (p.y + j') s (omega arith)
                    (omega arith))
                ∙ drawn)
          | inr n' ↦ rest.drawn i j h (ground (arith, n')) l
        ];
        kept = λ q k.
            rest.kept q (λ i j a b c. k i j a (omega arith) c)
            ∙ row.kept q (λ i a b. k i y b (omega arith) (omega arith));
      }

  -- In memory with room for rows of pixels, a printable character at a point with room for it there
  -- is drawn by `framebuffer_write_at`: the pixel at column `i` and row `j` of its 8 by 8 square is
  -- lit if bit `i` of row `j` of the glyph is 1 and dark if not, and no other pixel changes.
  pub framebuffer_write_at_lem :
      (font_8x8 : ℕ → ℕ → ℕ) (c : ℕ) (m : Pixels)
      → 32 ≤ c
      → c ≤ 126
      → GlyphSet (font_8x8 (c - 32)) 0 m (framebuffer_write_at font_8x8 fb c p m)
  unfolding framebuffer_write_at
  framebuffer_write_at_lem font_8x8 c m h k =
      let printable : (slt (int_of_char c) 32 || slt 126 (int_of_char c)) ≡ false = ground arith in
      rw printable (glyph_loop-GlyphSet 8 0 (font_8x8 (c - 32)) m refl)
