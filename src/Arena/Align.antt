-- ===== src/Arena/Align.antt =====
-- `align_p2`: the next multiple of a power of two.
use ukulele.Base.{ℕ, suc, ◌+◌, ◌-◌, ◌*◌, ◌/◌, ◌^◌, ◌<◌, ◌≤◌, ◌≡◌, refl, arith, dec_le, u32}
use native.Mathlib.Nat.{
  mod-add-div, mod-lt, mul_comm, mul-le-mul_right, suc-mul, add-mul-mod_self_right,
}
use ukulele.Arena.{align_p2}

-- A multiple of `a` that is `size` rounded up.
pub record RoundedUp (a size n : ℕ) : Type 0 where
  pub above : size ≤ n
  pub below : n < size + a
  pub quotient : ℕ
  pub multiple : n ≡ quotient * a

pub align_p2-RoundedUp :
    (size p2 : ℕ) → 0 < 2 ^ p2 → size + 2 ^ p2 ≤ 2 ^ 32 → RoundedUp (2 ^ p2) size (align_p2 size p2)
unfolding align_p2
align_p2-RoundedUp size p2 pos h =
    let a = 2 ^ p2 in
    let q = (size + a - 1) / a in
    let small : u32 size ≡ size = omega arith in
    let fits : u32 (size + a - 1) ≡ size + a - 1 = omega arith in
    let whole = mod-add-div (size + a - 1) a in
    let part = mod-lt (size + a - 1) pos in
    let turn = mul_comm a q in
    rw (small, fits)
      (record {
        above = omega (arith, whole, part, turn);
        below = omega (arith, whole, part, turn);
        quotient = q;
        multiple = refl;
      })

-- A multiple below another one is below it by a whole alignment.
pub multiple-gap : (a q c n m : ℕ) → n ≡ q * a → m ≡ c * a → n < m → n + a ≤ m
multiple-gap a q c n m e f h = elim (dec_le (suc q) c) [
  | yes y ↦
      let wide : suc q * a ≡ q * a + a = suc-mul q a in
      omega (arith, e, f, wide, mul-le-mul_right a y)
  | no y ↦
      let le : c ≤ q = omega (arith, y) in absurd (omega (arith, e, f, h, mul-le-mul_right a le))
]

-- The size is cut to 32 bits first.
pub align_p2-cut : (size k p2 : ℕ) → align_p2 (size + k * 2 ^ 32) p2 ≡ align_p2 size p2
unfolding align_p2
align_p2-cut size k p2 = rw (add-mul-mod_self_right size k (2 ^ 32)) refl
