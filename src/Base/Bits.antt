-- ===== src/Base/Bits.antt =====
-- The binary digits of a number, and the native bit operations digit by digit.
pub mod Step
use mathlib.Core.Path.{◌≡◌, refl, ap}
use mathlib.Core.Logic.{◌≢◌}
use native.Mathlib.Omega.{arith}
use native.Mathlib.Nat.{pow-suc, one-le-pow, div-div-eq-div-mul, mul_left_comm}
use Prim.Native.Nat.{
  ℕ, zero, suc, ◌+◌, ◌-◌, ◌*◌, ◌/◌, ◌%◌, ◌^◌, ◌≤◌, ◌<◌, min, max, bit_and, bit_or, bit_and-bitwise,
}
use Step.{bit_or_step, bit_and_step}

-- Digit `j` of `w`, `(w >> j) & 1`.
abbrev pub bit : ℕ → ℕ → ℕ
bit w zero = w % 2
bit w (suc j) = bit (w / 2) j

pub bit-lt : (w j : ℕ) → bit w j < 2
bit-lt w zero = omega arith
bit-lt w (suc j) = bit-lt (w / 2) j

pub bit-bit_and : (a b j : ℕ) → bit (bit_and a b) j ≡ min (bit a j) (bit b j)
bit-bit_and a b zero = omega (arith, bit_and_step a b)
bit-bit_and a b (suc j) =
    let half : bit_and a b / 2 ≡ bit_and (a / 2) (b / 2) = omega (arith, bit_and_step a b) in
    rw half (bit-bit_and (a / 2) (b / 2) j)

pub bit-bit_or : (a b j : ℕ) → bit (bit_or a b) j ≡ max (bit a j) (bit b j)
bit-bit_or a b zero = omega (arith, bit_or_step a b)
bit-bit_or a b (suc j) =
    let half : bit_or a b / 2 ≡ bit_or (a / 2) (b / 2) = omega (arith, bit_or_step a b) in
    rw half (bit-bit_or (a / 2) (b / 2) j)

pub bit-zero : (j : ℕ) → bit 0 j ≡ 0
bit-zero zero = refl
bit-zero (suc j) = bit-zero j

-- Digits above the highest are 0.
pub bit_above : (n w j : ℕ) → w < 2 ^ n → n ≤ j → bit w j ≡ 0
bit_above zero w j h k = let e : w ≡ 0 = omega arith in rw e (bit-zero j)
bit_above (suc n) w zero h k = absurd (omega arith)
bit_above (suc n) w (suc j) h k = bit_above n (w / 2) j (omega (arith, pow-suc 2 n)) (omega arith)

pub bit-pow_self : (k : ℕ) → bit (2 ^ k) k ≡ 1
bit-pow_self zero = refl
bit-pow_self (suc k) =
    let half : 2 ^ suc k / 2 ≡ 2 ^ k = omega (arith, pow-suc 2 k) in rw half (bit-pow_self k)

pub bit-pow_ne : (k j : ℕ) → k ≢ j → bit (2 ^ k) j ≡ 0
bit-pow_ne zero zero h = absurd (h refl)
bit-pow_ne zero (suc j) h = bit-zero j
bit-pow_ne (suc k) zero h = omega (arith, pow-suc 2 k)
bit-pow_ne (suc k) (suc j) h =
    let half : 2 ^ suc k / 2 ≡ 2 ^ k = omega (arith, pow-suc 2 k) in
    rw half (bit-pow_ne k j (λ e. h (ap suc e)))

-- `~x` in `n` bits.
pub bit-complement : (n x j : ℕ) → x < 2 ^ n → j < n → bit (2 ^ n - 1 - x) j ≡ 1 - bit x j
bit-complement zero x j h k = absurd (omega arith)
bit-complement (suc n) x zero h k = omega (arith, pow-suc 2 n)
bit-complement (suc n) x (suc j) h k =
    let half : (2 ^ suc n - 1 - x) / 2 ≡ 2 ^ n - 1 - x / 2 = omega (arith, pow-suc 2 n) in
    rw half (bit-complement n (x / 2) j (omega (arith, pow-suc 2 n)) (omega arith))

-- `(1 << n) - 1` has its lowest `n` digits set.
pub bit_ones : (n j : ℕ) → j < n → bit (2 ^ n - 1) j ≡ 1
bit_ones zero j k = absurd (omega arith)
bit_ones (suc n) zero k = omega (arith, pow-suc 2 n, one-le-pow n 2 (omega arith))
bit_ones (suc n) (suc j) k =
    let half : (2 ^ suc n - 1) / 2 ≡ 2 ^ n - 1 =
      omega (arith, pow-suc 2 n, one-le-pow n 2 (omega arith)) in
    rw half (bit_ones n j (omega arith))

-- Numbers of `n` bits with the same digits are equal.
pub eq_of_bits : (n a b : ℕ) → a < 2 ^ n → b < 2 ^ n → ((j : ℕ) → j < n → bit a j ≡ bit b j) → a ≡ b
eq_of_bits zero a b ha hb same = omega arith
eq_of_bits (suc n) a b ha hb same = omega (
  arith,
  same 0 (omega arith),
  eq_of_bits n (a / 2) (b / 2) (omega (arith, pow-suc 2 n)) (omega (arith, pow-suc 2 n))
      (λ j h. same (suc j) (omega arith)),
)

zero-bit_and : (b : ℕ) → bit_and 0 b ≡ 0
zero-bit_and b = simp bit_and-bitwise

bit_and-zero_below : (n a : ℕ) → a < 2 ^ n → bit_and a 0 ≡ 0
bit_and-zero_below zero a h = let e : a ≡ 0 = omega arith in rw e
bit_and-zero_below (suc n) a h =
    omega (arith, bit_and_step a 0, bit_and-zero_below n (a / 2) (omega (arith, pow-suc 2 n)))

pub bit_and-lt : (n a b : ℕ) → a < 2 ^ n → bit_and a b < 2 ^ n
bit_and-lt zero a b h = let e : a ≡ 0 = omega arith in rw e (omega (arith, zero-bit_and b))
bit_and-lt (suc n) a b h = omega (
  arith,
  pow-suc 2 n,
  bit_and_step a b,
  bit_and-lt n (a / 2) (b / 2) (omega (arith, pow-suc 2 n)),
)

n-lt-pow : (n : ℕ) → n < 2 ^ n
n-lt-pow zero = omega arith
n-lt-pow (suc n) = omega (arith, pow-suc 2 n, n-lt-pow n)

pub mod-double : (a m : ℕ) → 0 < m → a % (2 * m) ≡ a / 2 % m * 2 + a % 2
mod-double a m h = grind arith

-- A mask of `k` low digits is the remainder by `2 ^ k`.
pub bit_and_ones : (k a : ℕ) → bit_and a (2 ^ k - 1) ≡ a % 2 ^ k
bit_and_ones zero a = omega (arith, bit_and-zero_below a a (n-lt-pow a))
bit_and_ones (suc k) a =
    let half : (2 ^ suc k - 1) / 2 ≡ 2 ^ k - 1 =
      omega (arith, pow-suc 2 k, one-le-pow k 2 (omega arith)) in
    let low : (2 ^ suc k - 1) % 2 ≡ 1 = omega (arith, pow-suc 2 k, one-le-pow k 2 (omega arith)) in
    let twice : 2 ^ suc k ≡ 2 * 2 ^ k = omega (arith, pow-suc 2 k) in
    rw (bit_and_step a (2 ^ suc k - 1), half, low, bit_and_ones k (a / 2), twice)
      (omega (arith, mod-double a (2 ^ k) (one-le-pow k 2 (omega arith))))

pub bit_or-lt : (n a b : ℕ) → a < 2 ^ n → b < 2 ^ n → bit_or a b < 2 ^ n
bit_or-lt zero a b ha hb =
    let ea : a ≡ 0 = omega arith in let eb : b ≡ 0 = omega arith in rw (ea, eb) (omega arith)
bit_or-lt (suc n) a b ha hb = omega (
  arith,
  pow-suc 2 n,
  bit_or_step a b,
  bit_or-lt n (a / 2) (b / 2) (omega (arith, pow-suc 2 n)) (omega (arith, pow-suc 2 n)),
)

-- The number of set digits among the lowest `n`.
unfoldable pub popcount : ℕ → ℕ → ℕ
popcount zero w = 0
popcount (suc n) w = w % 2 + popcount n (w / 2)

popcount-eq : (n w v : ℕ) → ((j : ℕ) → j < n → bit v j ≡ bit w j) → popcount n v ≡ popcount n w
unfolding popcount
popcount-eq zero w v same = refl
popcount-eq (suc n) w v same =
    omega (
      arith,
      same 0 (omega arith),
      popcount-eq n (w / 2) (v / 2) (λ j h. same (suc j) (omega arith)),
    )

-- Clearing one set digit takes one from the count.
pub popcount_cleared :
    (n w v b : ℕ)
    → b < n
    → bit w b ≡ 1
    → bit v b ≡ 0
    → ((j : ℕ) → j < n → b ≢ j → bit v j ≡ bit w j)
    → popcount n w ≡ popcount n v + 1
unfolding popcount
popcount_cleared zero w v b h set clear same = absurd (omega arith)
popcount_cleared (suc n) w v zero h set clear same =
    omega (arith, popcount-eq n (w / 2) (v / 2) (λ j k. same (suc j) (omega arith) (omega arith)))
popcount_cleared (suc n) w v (suc b) h set clear same = omega (
  arith,
  same 0 (omega arith) (omega arith),
  popcount_cleared n (w / 2) (v / 2) b (omega arith) set clear
      (λ j k ne. same (suc j) (omega arith) (omega arith)),
)

-- No digit above the first `m` set: at most `m` are.
pub popcount-le : (n w m : ℕ) → ((j : ℕ) → j < n → m ≤ j → bit w j ≡ 0) → popcount n w ≤ m
unfolding popcount
popcount-le zero w m none_above = omega arith
popcount-le (suc n) w zero none_above = omega (
  arith,
  none_above 0 (omega arith) (omega arith),
  popcount-le n (w / 2) zero (λ j h k. none_above (suc j) (omega arith) (omega arith)),
)
popcount-le (suc n) w (suc m) none_above =
    omega (arith, popcount-le n (w / 2) m (λ j h k. none_above (suc j) (omega arith) (omega arith)))

pub popcount_le_width : (n w : ℕ) → popcount n w ≤ n
popcount_le_width n w = popcount-le n w n (λ j h k. absurd (omega arith))

pub popcount-zero : (n : ℕ) → popcount n 0 ≡ 0
unfolding popcount
popcount-zero zero = refl
popcount-zero (suc n) = omega (arith, popcount-zero n)

-- A number of `n` digits with no digit set is 0.
pub zero_of_popcount : (n w : ℕ) → w < 2 ^ n → popcount n w ≡ 0 → w ≡ 0
unfolding popcount
zero_of_popcount zero w h e = omega arith
zero_of_popcount (suc n) w h e =
    omega (arith, zero_of_popcount n (w / 2) (omega (arith, pow-suc 2 n)) (omega arith))

-- `w >> k`.
pub bit_shifted : (k w j : ℕ) → bit (w / 2 ^ k) j ≡ bit w (k + j)
bit_shifted zero w j =
    let e : w / 2 ^ 0 ≡ w = omega arith in let e' : 0 + j ≡ j = omega arith in rw (e, e')
bit_shifted (suc k) w j =
    let e : 2 ^ suc k ≡ 2 * 2 ^ k = omega (arith, pow-suc 2 k) in
    let e' : suc k + j ≡ suc (k + j) = omega arith in
    rw (e, e', ← div-div-eq-div-mul w 2 (2 ^ k)) (bit_shifted k (w / 2) j)

-- With exactly the first `m` digits set, the count is `m`.
pub popcount_exact :
    (n w m : ℕ)
    → ((j : ℕ) → j < n → j < m → bit w j ≡ 1)
    → ((j : ℕ) → j < n → m ≤ j → bit w j ≡ 0)
    → popcount n w ≡ min m n
unfolding popcount
popcount_exact zero w m on off = omega arith
popcount_exact (suc n) w zero on off = omega (
  arith,
  off 0 (omega arith) (omega arith),
  popcount_exact n (w / 2) zero (λ j h k. absurd (omega arith))
      (λ j h k. off (suc j) (omega arith) (omega arith)),
)
popcount_exact (suc n) w (suc m) on off = omega (
  arith,
  on 0 (omega arith) (omega arith),
  popcount_exact n (w / 2) m (λ j h k. on (suc j) (omega arith) (omega arith))
      (λ j h k. off (suc j) (omega arith) (omega arith)),
)

-- A mask of the digits from `k` up to `n`.
pub bit_and_mask : (k n a : ℕ) → k ≤ n → bit_and a (2 ^ n - 2 ^ k) ≡ a % 2 ^ n / 2 ^ k * 2 ^ k
bit_and_mask zero n a h = rw (bit_and_ones n a) (omega arith)
bit_and_mask (suc k) zero a h = absurd (omega arith)
bit_and_mask (suc k) (suc n) a h =
    let half : (2 ^ suc n - 2 ^ suc k) / 2 ≡ 2 ^ n - 2 ^ k =
      omega (arith, pow-suc 2 n, pow-suc 2 k) in
    let low : (2 ^ suc n - 2 ^ suc k) % 2 ≡ 0 = omega (arith, pow-suc 2 n, pow-suc 2 k) in
    let wide : 2 ^ suc n ≡ 2 * 2 ^ n = omega (arith, pow-suc 2 n) in
    let narrow : 2 ^ suc k ≡ 2 * 2 ^ k = omega (arith, pow-suc 2 k) in
    let lower : (a / 2 % 2 ^ n * 2 + a % 2) / 2 ≡ a / 2 % 2 ^ n = omega arith in
    let split = div-div-eq-div-mul (a / 2 % 2 ^ n * 2 + a % 2) 2 (2 ^ k) in
    rw
      (
        bit_and_step a (2 ^ suc n - 2 ^ suc k),
        half,
        low,
        bit_and_mask k n (a / 2) (omega arith),
        wide,
        narrow,
      )
      (rw (mod-double a (2 ^ n) (one-le-pow n 2 (omega arith)), ← split, lower)
        (omega (arith, mul_left_comm 2 (a / 2 % 2 ^ n / 2 ^ k) (2 ^ k))))
