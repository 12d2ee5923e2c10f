-- ===== src/Framebuffer/Fractals.antt =====
-- `framebuffer_dofractals`: however long it runs, it draws inside the screen.
use ukulele.Base.{
  ℕ, zero, suc, ◌+◌, ◌*◌, ◌∙◌, ◌⊎◌, ◌/◌, ◌%◌, ◌^◌, ◌≤◌, ◌<◌, ◌≡◌, ◌≢◌, refl, arith, false, ◌==◌,
  Bool-cases, inl, inr,
}
use native.Mathlib.Nat.{mod-lt}
use ukulele.Framebuffer.Glyph.{IsArea, pixel32-spot, row_within}
use ukulele.Framebuffer.{
  FbPoint, FbConfig, Pixels, pixel32, urand, corner, Fractal, fractal_start, fractal_loop,
  framebuffer_dofractals,
}

abbrev pub IsInside : FbConfig → FbPoint → Type 0
IsInside fb p = (p.x < fb.width) × (p.y < fb.height)

corner-le : (fb : FbConfig) (k : ℕ) → ((corner fb k).x ≤ fb.width) × ((corner fb k).y ≤ fb.height)
unfolding corner
corner-le fb k = elim (Bool-cases (k % 3 == 0)) [
  | inl first ↦ rw first (omega arith, omega arith)
  | inr more ↦ rw more (elim (Bool-cases (k % 3 == 1)) [
    | inl second ↦ rw second (omega arith, omega arith)
    | inr third ↦ rw third (omega arith, omega arith)
  ])
]

-- What is not drawn is as before.
record IsKept (fb : FbConfig) (m : Pixels) (s : Fractal) : Type 0 where
  inside : IsInside fb s.curr
  kept :
      (q : ℕ) → ((x y : ℕ) → x < fb.width → y < fb.height → q ≢ pixel32 fb x y) → s.pixels q ≡ m q

-- The point is inside, the words that are no pixel are as before, and so is all memory outside the
-- framebuffer.
pub record IsDrawn (fb : FbConfig) (m : Pixels) (s : Fractal) : Type 0 where
  pub inside : IsInside fb s.curr
  pub others :
      (q : ℕ)
      → ((x y : ℕ) → x < fb.width → y < fb.height → q ≢ fb.address + fb.pitch * y + 4 * x)
      → s.pixels q ≡ m q
  pub outside :
      (q : ℕ) → (q < fb.address) ⊎ (fb.address + fb.pitch * fb.height < q + 4) → s.pixels q ≡ m q

fractal_loop-IsKept :
    (fb : FbConfig) (n : ℕ) (m : Pixels) (s : Fractal)
    → fb.width < 2 ^ 30
    → fb.height < 2 ^ 30
    → IsKept fb m s
    → IsKept fb m (fractal_loop fb n s)
unfolding fractal_loop
fractal_loop-IsKept fb zero m s w h k = k
fractal_loop-IsKept fb (suc n) m s w h k =
    let target = corner-le fb (urand s.r / 2 ^ 20) in
    let here = k.inside in
    fractal_loop-IsKept fb n m _ w h (record {
      inside = (omega (arith, target.0, here.0), omega (arith, target.1, here.1));
      kept = λ q off.
          let ne : (pixel32 fb s.curr.x s.curr.y == q) ≡ false =
            ground (arith, off s.curr.x s.curr.y here.0 here.1) in
          rw ne (k.kept q off);
    })

-- On a screen that is not empty, of less than 2^30 pixels in width and in height, whose rows have
-- room for the pixels and whose memory is less than 2 GiB, `framebuffer_dofractals` changes no
-- memory but that of the screen, however many rounds of its endless loop have run: every word that
-- is written is one of the pixels, each of them 4 bytes from the address of the framebuffer plus
-- the pitch for each line and 4 for each column. The point stays inside the screen.
pub framebuffer_dofractals_lem :
    (fb : FbConfig) (n r : ℕ) (m : Pixels)
    → IsArea fb fb.width fb.height
    → 0 < fb.width
    → fb.width < 2 ^ 30
    → 0 < fb.height
    → fb.height < 2 ^ 30
    → IsDrawn fb m (framebuffer_dofractals fb n r m)
unfolding framebuffer_dofractals fractal_start
framebuffer_dofractals_lem fb n r m area w w' h h' =
    let k = fractal_loop-IsKept fb n m (fractal_start fb r m) w' h' (record {
      inside = (mod-lt (urand r) w, mod-lt (urand (urand r)) h);
      kept = λ q off. refl;
    }) in
    record {
      inside = k.inside;
      others = λ q off.
          k.kept q λ x y x_in y_in e. off x y x_in y_in (e ∙ pixel32-spot fb x y area x_in y_in);
      outside = λ q off. k.kept q λ x y x_in y_in e.
          let at = pixel32-spot fb x y area x_in y_in in
          let row = row_within fb y y_in in
          let rows = area.rows in
          elim off [
            | inl below ↦ omega (arith, at, e, below)
            | inr above ↦ omega (arith, at, e, above, row, rows, x_in)
          ];
    }
