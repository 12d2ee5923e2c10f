-- ===== src/Base/Bits/Step.antt =====
-- One binary digit of `bit_and` and `bit_or`: the native operations stand for a recursion on
-- digits with fuel, and the fuel is dropped here.
use mathlib.Core.Path.{◌≡◌, refl}
use native.Mathlib.Omega.{arith}
use native.Mathlib.Nat.{le_refl}
use Prim.Native.Nat.{
  ℕ, zero, suc, ◌+◌, ◌*◌, ◌/◌, ◌%◌, ◌≤◌, min, max, bit_and, bit_or, digits, bit_and-bitwise,
  bit_or-bitwise,
}

module _ (rest : ℕ → ℕ) (op : ℕ → ℕ → ℕ) where
  -- Fuel beyond the first operand changes nothing.
  digits_enough : (w v k l : ℕ) → w ≤ k → w ≤ l → digits rest op l w v ≡ digits rest op k w v
  digits_enough zero v zero zero hk hl = refl
  digits_enough zero v (suc k) zero hk hl = refl
  digits_enough zero v zero (suc l) hk hl = refl
  digits_enough zero v (suc k) (suc l) hk hl = refl
  digits_enough (suc w) v zero l hk hl = absurd (omega arith)
  digits_enough (suc w) v (suc k) zero hk hl = absurd (omega arith)
  digits_enough (suc w) v (suc k) (suc l) hk hl =
      let shorter = digits_enough (suc w / 2) (v / 2) k l (omega arith) (omega arith) in
      omega (arith, shorter)

pub bit_and_step : (w v : ℕ) → bit_and w v ≡ min (w % 2) (v % 2) + 2 * bit_and (w / 2) (v / 2)
bit_and_step zero v = simp bit_and-bitwise (omega arith)
bit_and_step (suc w) v =
    let same =
      digits_enough (λ _. 0) min (suc w / 2) (v / 2) (suc w / 2) w (le_refl _) (omega arith) in
    simp bit_and-bitwise (omega (arith, same))

pub bit_or_step : (w v : ℕ) → bit_or w v ≡ max (w % 2) (v % 2) + 2 * bit_or (w / 2) (v / 2)
bit_or_step zero v = simp bit_or-bitwise (omega arith)
bit_or_step (suc w) v =
    let same =
      digits_enough (λ x. x) max (suc w / 2) (v / 2) (suc w / 2) w (le_refl _) (omega arith) in
    simp bit_or-bitwise (omega (arith, same))
