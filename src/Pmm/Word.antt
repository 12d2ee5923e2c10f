-- ===== src/Pmm/Word.antt =====
-- One word of a control block: the digit operations of `pmm_ctrl_alloc` and `pmm_free_page`.
use ukulele.Base.{
  ℕ, zero, suc, ◌/◌, ◌%◌, ◌^◌, ◌<◌, bit_and, bit_or, ◌≡◌, ◌≢◌, ap, arith, ◌==◌, Bool-cases, inl,
  inr,
}
use ukulele.Base.Bits.{
  bit, bit-lt, bit-zero, bit-bit_and, bit-bit_or, bit-pow_self, bit-pow_ne, bit-complement,
  bit_and-lt, bit_or-lt, eq_of_bits,
}
use native.Mathlib.Nat.{pow-suc, one-le-pow, pow-le-pow_right}
use ukulele.Pmm.{shl_one, complement, ctz_digits, ctz}

-- `w` and `v` differ in digit `b` alone, which is set in `w` and clear in `v`.
pub record WordFlip (w v b : ℕ) : Type 0 where
  pub low : b < 64
  pub was_set : bit w b ≡ 1
  pub is_clear : bit v b ≡ 0
  pub same : (j : ℕ) → j < 64 → b ≢ j → bit v j ≡ bit w j

pow-lt_word : (b : ℕ) → b < 64 → 2 ^ b < 2 ^ 64
pow-lt_word b h = omega (
  arith,
  pow-suc 2 b,
  pow-le-pow_right {n = 2} (omega arith) {i = suc b} {j = 64} h,
  one-le-pow b 2 (omega arith),
)

pub shl_one-pow : (b : ℕ) → b < 64 → shl_one b ≡ 2 ^ b
shl_one-pow b h = omega (arith, pow-lt_word b h)

bit-complement_self : (b : ℕ) → b < 64 → bit (complement (2 ^ b)) b ≡ 0
bit-complement_self b h =
    omega (arith, bit-complement 64 (2 ^ b) b (pow-lt_word b h) h, bit-pow_self b)

bit-complement_ne : (b j : ℕ) → b < 64 → j < 64 → b ≢ j → bit (complement (2 ^ b)) j ≡ 1
bit-complement_ne b j h k ne =
    omega (arith, bit-complement 64 (2 ^ b) j (pow-lt_word b h) k, bit-pow_ne b j ne)

-- `w & ~(1ULL << b)` clears digit `b`.
pub clear-WordFlip :
    (w b : ℕ) → b < 64 → bit w b ≡ 1 → WordFlip w (bit_and w (complement (shl_one b))) b
clear-WordFlip w b h set = rw (shl_one-pow b h) (record {
  low = h;
  was_set = set;
  is_clear = omega (arith, bit-bit_and w (complement (2 ^ b)) b, bit-complement_self b h);
  same = λ j k ne.
      omega (arith, bit-bit_and w (complement (2 ^ b)) j, bit-complement_ne b j h k ne, bit-lt w j);
})

-- `w | (1ULL << b)` sets digit `b`.
pub set-WordFlip : (w b : ℕ) → b < 64 → bit w b ≡ 0 → WordFlip (bit_or w (shl_one b)) w b
set-WordFlip w b h clear = rw (shl_one-pow b h) (record {
  low = h;
  was_set = omega (arith, bit-bit_or w (2 ^ b) b, bit-pow_self b);
  is_clear = clear;
  same = λ j k ne. omega (arith, bit-bit_or w (2 ^ b) j, bit-pow_ne b j ne);
})

pub clear-lt : (w b : ℕ) → w < 2 ^ 64 → bit_and w (complement (shl_one b)) < 2 ^ 64
clear-lt w b h = bit_and-lt 64 w (complement (shl_one b)) h

pub set-lt : (w b : ℕ) → w < 2 ^ 64 → bit_or w (shl_one b) < 2 ^ 64
set-lt w b h = bit_or-lt 64 w (shl_one b) h (omega arith)

-- The test `w & (1ULL << b)` reads digit `b`.
pub mask_of_clear : (w b : ℕ) → w < 2 ^ 64 → b < 64 → bit w b ≡ 0 → bit_and w (shl_one b) ≡ 0
mask_of_clear w b small h clear = rw (shl_one-pow b h) (
    eq_of_bits 64 (bit_and w (2 ^ b)) 0 (bit_and-lt 64 w (2 ^ b) small) (omega arith) (λ j k.
      elim (Bool-cases (b == j)) [
        | inl e ↦
            let eq : b ≡ j = ground arith in
            rw (← eq) (omega (arith, bit-bit_and w (2 ^ b) b, bit-zero b))
        | inr ne ↦ omega (arith, bit-bit_and w (2 ^ b) j, bit-pow_ne b j (ground arith), bit-zero j)
      ]))

pub mask_of_set : (w b : ℕ) → b < 64 → bit w b ≡ 1 → bit_and w (shl_one b) ≢ 0
mask_of_set w b h set e =
    let z : bit_and w (2 ^ b) ≡ 0 = rw (shl_one-pow b h) at e in
    let e' : bit (bit_and w (2 ^ b)) b ≡ bit 0 b = ap (λ n. bit n b) z in
    omega (arith, e', bit-bit_and w (2 ^ b) b, bit-pow_self b, bit-zero b)

-- What `ctz` finds in a word of `n` digits that is not 0.
pub record LowestSet (n w b : ℕ) : Type 0 where
  pub low : b < n
  pub is_set : bit w b ≡ 1
  pub clear_below : (j : ℕ) → j < b → bit w j ≡ 0

LowestSet-half : (n w b : ℕ) → w % 2 ≡ 0 → LowestSet n (w / 2) b → LowestSet (suc n) w (suc b)
LowestSet-half n w b even found = record {
  low = omega arith;
  is_set = found.is_set;
  clear_below = below;
}
  where
    below : (j : ℕ) → j < suc b → bit w j ≡ 0
    below zero h = even
    below (suc j) h = found.clear_below j (omega arith)

ctz_digits-LowestSet : (n w : ℕ) → w < 2 ^ n → w ≢ 0 → LowestSet n w (ctz_digits n w)
unfolding ctz_digits
ctz_digits-LowestSet zero w h ne = absurd (omega arith)
ctz_digits-LowestSet (suc n) w h ne = elim (Bool-cases (w % 2 == 1)) [
  | inl odd ↦ rw odd (record {
    low = omega arith;
    is_set = ground arith;
    clear_below = λ j k. absurd (omega arith);
  })
  | inr even ↦
      let even' : w % 2 ≡ 0 = ground arith in
      rw even (
        LowestSet-half n w (ctz_digits n (w / 2)) even'
          (ctz_digits-LowestSet n (w / 2) (omega (arith, pow-suc 2 n)) (omega arith)))
]

-- `__builtin_ctzl` of a 64-bit word that is not 0.
pub ctz-LowestSet : (w : ℕ) → w < 2 ^ 64 → w ≢ 0 → LowestSet 64 w (ctz w)
unfolding ctz
ctz-LowestSet w h ne = ctz_digits-LowestSet 64 w h ne
