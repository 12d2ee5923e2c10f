-- ===== src/Framebuffer/Line.antt =====
-- `framebuffer_draw_line`: the loop ends, and stays between the two points.
use ukulele.Base.{
  ℕ, zero, suc, min, max, ◌+◌, ◌-◌, ◌*◌, ◌^◌, ◌≤◌, ◌<◌, ◌≡◌, ◌≢◌, refl, ap, ◌∙◌, arith, Bool, true,
  false, ◌&&◌, ltb, leb, ◌==◌, ==_iff, u32, Option, some, Bool-cases, inl, inr,
}
use ukulele.Libk.Int.{slt, sub32}
use ukulele.Framebuffer.{
  FbPoint, FbConfig, Pixels, pixel32, set_pixel, foreground, abs, LineTo, line_loop, line_to,
  framebuffer_draw_line,
}
use ukulele.Framebuffer.Steps.{
  along, distance, direction, InRange, along-suc, along-eq, along-end, along_zero, along-between,
  InRange-distance, IsError, test_x, test_y, step_x, step_y, round-IsError,
}

pub data Returned (P : Pixels → Type 0) : Option Pixels → Type 0 where
  returned : {m : Pixels} → P m → Returned P (some m)

Returned-mono :
    {P Q : Pixels → Type 0} {o : Option Pixels}
    → Returned P o
    → ((m : Pixels) → P m → Q m)
    → Returned Q o
Returned-mono (returned h) k = returned (k _ h)

module _ (adx ady : ℕ) (hx : adx < 2 ^ 28) (hy : ady < 2 ^ 28) where
  module _ (fb : FbConfig) (up right : Bool) (x y : ℕ) (rx : InRange right x adx)
      (ry : InRange up y ady) where
    abbrev line : LineTo
    line = record {
      dx = adx;
      dy = sub32 0 ady;
      sx = direction right;
      sy = direction up;
      to = record { x = along right x adx; y = along up y ady };
    }

    abbrev pixel : ℕ → ℕ → ℕ
    pixel i j = pixel32 fb (along right x i) (along up y j)

    -- The rest of the line from step `i` in x and `j` in y on.
    record Stroke (i j : ℕ) (m m' : Pixels) : Type 0 where
      kept : (q : ℕ) → ((i j : ℕ) → i ≤ adx → j ≤ ady → q ≢ pixel i j) → m' q ≡ m q
      stays : (q : ℕ) → m q ≡ foreground → m' q ≡ foreground
      first : m' (pixel i j) ≡ foreground
      last : m' (pixel adx ady) ≡ foreground

    same_pixel :
        (i j : ℕ) (m : Pixels) → set_pixel m (pixel i j) foreground (pixel i j) ≡ foreground
    same_pixel i j m =
        let on : (pixel i j == pixel i j) ≡ true = (==_iff (pixel i j) (pixel i j)).1 refl in
        rw on refl

    set_pixel-stays :
        (p q : ℕ) (m : Pixels) → m q ≡ foreground → set_pixel m p foreground q ≡ foreground
    set_pixel-stays p q m h = elim (Bool-cases (p == q)) [ inl y ↦ rw y refl | inr n ↦ rw n h ]

    set_pixel-kept :
        (i j : ℕ) (m : Pixels)
        → i ≤ adx
        → j ≤ ady
        → (q : ℕ) → ((i j : ℕ) → i ≤ adx → j ≤ ady → q ≢ pixel i j)
        → set_pixel m (pixel i j) foreground q ≡ m q
    set_pixel-kept i j m hi hj q off =
        let ne : (pixel i j == q) ≡ false = ground (arith, off i j hi hj) in rw ne refl

    Stroke-end :
        (i j : ℕ) (m : Pixels)
        → i ≤ adx
        → j ≤ ady
        → (i == adx && j == ady) ≡ true
        → Stroke i j m (set_pixel m (pixel i j) foreground)
    Stroke-end i j m hi hj end =
        let x_end : adx ≡ i = ground (arith, end) in
        let y_end : ady ≡ j = ground (arith, end) in
        record {
          kept = set_pixel-kept i j m hi hj;
          stays = λ q h. set_pixel-stays (pixel i j) q m h;
          first = same_pixel i j m;
          last =
              ap (λ (k : ℕ). set_pixel m (pixel i j) foreground (pixel k ady)) x_end
              ∙ ap (λ (k : ℕ). set_pixel m (pixel i j) foreground (pixel i k)) y_end
              ∙ same_pixel i j m;
        }

    Stroke-next :
        (i j i' j' : ℕ) (m : Pixels) {o : Option Pixels}
        → i ≤ adx
        → j ≤ ady
        → Returned (Stroke i' j' (set_pixel m (pixel i j) foreground)) o
        → Returned (Stroke i j m) o
    Stroke-next i j i' j' m hi hj (returned s) = returned (record {
      kept = λ q off. s.kept q off ∙ set_pixel-kept i j m hi hj q off;
      stays = λ q h. s.stays q (set_pixel-stays (pixel i j) q m h);
      first = s.stays (pixel i j) (same_pixel i j m);
      last = s.last;
    })

    line_loop-Returned :
        (fuel i j err e : ℕ) (m : Pixels)
        → i ≤ adx
        → j ≤ ady
        → adx - i + (ady - j) < fuel
        → IsError adx ady hx hy i j err e
        → Returned (Stroke i j m) (line_loop fuel fb line (along right x i) (along up y j) err m)
    unfolding line_loop
    line_loop-Returned zero i j err e m hi hj f b = absurd (omega arith)
    line_loop-Returned (suc fuel) i j err e m hi hj f b =
        let ends_x = along-eq right x adx i rx hi in
        let ends_y = along-eq up y ady j ry hj in
        let drawn = set_pixel m (pixel i j) foreground in
        rw (ends_x, ends_y)
          (elim (Bool-cases (i == adx && j == ady)) [
            | inl end ↦ rw end (returned (Stroke-end i j m hi hj end))
            | inr more ↦ rw more (
                rw (test_x adx ady hx hy b, test_y adx ady hx hy b)
                  (elim (Bool-cases (leb (2 ^ 32) (2 * e + ady))) [
                    | inl mx ↦
                        let next_i = step_x adx ady hx hy b mx hi hj more in
                        let to_x = along-suc right x adx i rx next_i in
                        elim (Bool-cases (leb (2 * e) (2 ^ 32 + adx))) [
                          | inl my ↦
                              let next_j = step_y adx ady hx hy b my hi hj more in
                              let to_y = along-suc up y ady j ry next_j in
                              let next =
                                line_loop-Returned fuel (suc i) (suc j) _ _ drawn next_i next_j
                                  (omega arith) (round-IsError adx ady hx hy true true b mx my) in
                              rw (mx, my, to_x, to_y) (Stroke-next i j (suc i) (suc j) m hi hj next)
                          | inr sy ↦
                              let next =
                                line_loop-Returned fuel (suc i) j _ _ drawn next_i hj (omega arith)
                                  (round-IsError adx ady hx hy true false b mx sy) in
                              rw (mx, sy, to_x) (Stroke-next i j (suc i) j m hi hj next)
                        ]
                    | inr sx ↦ elim (Bool-cases (leb (2 * e) (2 ^ 32 + adx))) [
                      | inl my ↦
                          let next_j = step_y adx ady hx hy b my hi hj more in
                          let to_y = along-suc up y ady j ry next_j in
                          let next =
                            line_loop-Returned fuel i (suc j) _ _ drawn hi next_j (omega arith)
                              (round-IsError adx ady hx hy false true b sx my) in
                          rw (sx, my, to_y) (Stroke-next i j i (suc j) m hi hj next)
                      | inr sy ↦ absurd (ground (arith, sx, sy))
                    ]
                  ]))
          ])

-- The line is drawn from one point to the other, and nothing else.
pub record IsLine (fb : FbConfig) (from to : FbPoint) (m m' : Pixels) : Type 0 where
  pub kept :
      (q : ℕ)
      → ((x y : ℕ)
          → min from.x to.x ≤ x
          → x ≤ max from.x to.x
          → min from.y to.y ≤ y
          → y ≤ max from.y to.y
          → q ≢ pixel32 fb x y)
      → m' q ≡ m q
  pub first : m' (pixel32 fb from.x from.y) ≡ foreground
  pub last : m' (pixel32 fb to.x to.y) ≡ foreground

line_to-eq :
    (from to : FbPoint)
    → from.x < 2 ^ 28
    → from.y < 2 ^ 28
    → to.x < 2 ^ 28
    → to.y < 2 ^ 28
    → line_to from to ≡ record {
      dx = distance from.x to.x;
      dy = sub32 0 (distance from.y to.y);
      sx = direction (ltb from.x to.x);
      sy = direction (ltb from.y to.y);
      to = to;
    }
unfolding line_to
line_to-eq from to a b c d =
    let x_less : slt from.x to.x ≡ ltb from.x to.x = ground arith in
    let y_less : slt from.y to.y ≡ ltb from.y to.y = ground arith in
    let x_abs : abs (sub32 to.x from.x) ≡ distance from.x to.x = ground arith in
    let y_abs : abs (sub32 to.y from.y) ≡ distance from.y to.y = ground arith in
    rw (x_less, y_less, x_abs, y_abs) refl

-- For two points with coordinates below 2^28 that are not negative, `framebuffer_draw_line` returns:
-- the sum of the distances in x and in y, and one, is enough rounds of its loop. The pixels of both
-- points are then lit, and no pixel outside of the rectangle between the points has changed.
pub framebuffer_draw_line_lem :
    (fuel : ℕ) (fb : FbConfig) (from to : FbPoint) (m : Pixels)
    → from.x < 2 ^ 28
    → from.y < 2 ^ 28
    → to.x < 2 ^ 28
    → to.y < 2 ^ 28
    → distance from.x to.x + distance from.y to.y < fuel
    → Returned (IsLine fb from to m) (framebuffer_draw_line fuel fb from to m)
unfolding framebuffer_draw_line
framebuffer_draw_line_lem fuel fb from to m a b c d enough =
    let adx = distance from.x to.x in
    let ady = distance from.y to.y in
    let hx : adx < 2 ^ 28 = ground arith in
    let hy : ady < 2 ^ 28 = ground arith in
    let start : IsError adx ady hx hy 0 0 (u32 (adx + sub32 0 ady)) (2 ^ 31 + adx - ady) = record {
      word = ground arith;
      low = ground arith;
      high = ground arith;
      balance = ground arith;
    } in
    let right = ltb from.x to.x in
    let up = ltb from.y to.y in
    let stroke =
      line_loop-Returned adx ady hx hy fb up right from.x from.y (InRange-distance from.x to.x a c)
        (InRange-distance from.y to.y b d) fuel 0 0 (u32 (adx + sub32 0 ady)) (2 ^ 31 + adx - ady) m
        (omega arith) (omega arith) (omega arith) start in
    let x0 = along_zero right from.x in
    let y0 = along_zero up from.y in
    let x1 = along-end from.x to.x in
    let y1 = along-end from.y to.y in
    rw (line_to-eq from to a b c d) (
      Returned-mono (rw (x0, y0, x1, y1) at stroke) λ m' s. record {
        kept = λ q off. s.kept q λ i j hi hj.
            let bx = along-between from.x to.x i hi in
            let by = along-between from.y to.y j hj in
            off (along right from.x i) (along up from.y j) bx.0 bx.1 by.0 by.1;
        first = rw (x0, y0) at s.first;
        last = rw (x1, y1) at s.last;
      })
