-- ===== src/Framebuffer/Steps.antt =====
-- The steps of `framebuffer_draw_line`: they go from one coordinate to the other, and the error says
-- which are due.
use ukulele.Base.{
  ℕ, suc, min, max, ◌+◌, ◌-◌, ◌*◌, ◌%◌, ◌^◌, ◌≤◌, ◌<◌, ◌≡◌, ap, ◌∙◌, arith, Bool, true, false, not,
  ◌&&◌, ltb, leb, ◌==◌, ==_iff, u32, Bool-cases, inl, inr, if◌then◌else◌,
}
use native.Mathlib.Nat.{mul-le-mul_left, mul-suc, mul_comm}
use ukulele.Libk.Int.{slt, sub32}

-- The coordinate after `i` steps, up or down.
abbrev pub along : Bool → ℕ → ℕ → ℕ
along up a i = if up then a + i else a - i

abbrev pub distance : ℕ → ℕ → ℕ
distance a b = if ltb a b then b - a else a - b

abbrev pub direction : Bool → ℕ
direction up = if up then 1 else 2 ^ 32 - 1

-- The steps stay in range.
abbrev pub InRange : Bool → ℕ → ℕ → Type 0
InRange true a n = a + n < 2 ^ 28
InRange false a n = (a < 2 ^ 28) × (n ≤ a)

pub along-suc :
    (up : Bool) (a n i : ℕ)
    → InRange up a n
    → i < n
    → u32 (along up a i + direction up) ≡ along up a (suc i)
along-suc true a n i r h = omega arith
along-suc false a n i r h = omega (arith, r.0, r.1)

pub along-eq :
    (up : Bool) (a n i : ℕ) → InRange up a n → i ≤ n → (along up a i == along up a n) ≡ (i == n)
along-eq true a n i r h = ground arith
along-eq false a n i r h = ground (arith, r.0, r.1)

pub along-end : (a b : ℕ) → along (ltb a b) a (distance a b) ≡ b
along-end a b = ground arith

pub InRange-distance : (a b : ℕ) → a < 2 ^ 28 → b < 2 ^ 28 → InRange (ltb a b) a (distance a b)
InRange-distance a b h k = elim (Bool-cases (ltb a b)) [
  | inl y ↦ rw y (ground (arith, y))
  | inr n ↦ rw n (h, omega arith)
]

pub along_zero : (up : Bool) (a : ℕ) → along up a 0 ≡ a
along_zero true a = omega arith
along_zero false a = omega arith

pub along-between :
    (a b i : ℕ)
    → i ≤ distance a b
    → (min a b ≤ along (ltb a b) a i) × (along (ltb a b) a i ≤ max a b)
along-between a b i h = (ground (arith, h), ground (arith, h))

-- The error `err` stands for `e - 2 ^ 31`.
module _ (adx ady : ℕ) (hx : adx < 2 ^ 28) (hy : ady < 2 ^ 28) where
  pub record IsError (i j err e : ℕ) : Type 0 where
    pub word : err ≡ (e + 2 ^ 31) % 2 ^ 32
    pub low : 2 ^ 31 ≤ e + 2 * ady
    pub high : e ≤ 2 ^ 31 + 2 * adx
    pub balance : 2 ^ 31 + adx * suc j ≡ e + ady * suc i

  module _ {i j err e : ℕ} (b : IsError i j err e) where
    pub test_x : not (slt (u32 (2 * err)) (sub32 0 ady)) ≡ leb (2 ^ 32) (2 * e + ady)
    test_x = ground (arith, b.word, b.low, b.high)

    pub test_y : not (slt adx (u32 (2 * err))) ≡ leb (2 * e) (2 ^ 32 + adx)
    test_y = ground (arith, b.word, b.low, b.high)

    -- No step goes past the end.
    pub step_x :
        leb (2 ^ 32) (2 * e + ady) ≡ true
        → i ≤ adx
        → j ≤ ady
        → (i == adx && j == ady) ≡ false
        → i < adx
    step_x h hi hj n = elim (Bool-cases (i == adx)) [
      | inl y ↦
          let at_end : i ≡ adx = (==_iff i adx).0 y in
          let short : j < ady = ground (arith, rw y at n, hj) in
          let bal = b.balance in
          let product = mul-le-mul_left {m = suc j} {n = ady} adx short in
          let q : ady * suc i ≡ ady * adx + ady =
            ap (λ (t : ℕ). ady * suc t) at_end ∙ mul-suc ady adx in
          let c = mul_comm ady adx in ground (arith, h, bal, product, q, c)
      | inr ne ↦ ground (arith, ne, hi)
    ]

    pub step_y :
        leb (2 * e) (2 ^ 32 + adx) ≡ true
        → i ≤ adx
        → j ≤ ady
        → (i == adx && j == ady) ≡ false
        → j < ady
    step_y h hi hj n = elim (Bool-cases (j == ady)) [
      | inl y ↦
          let at_end : j ≡ ady = (==_iff j ady).0 y in
          let short : i < adx = ground (arith, rw y at n, hi) in
          let bal = b.balance in
          let product = mul-le-mul_left {m = suc i} {n = adx} ady short in
          let q : adx * suc j ≡ adx * ady + adx =
            ap (λ (t : ℕ). adx * suc t) at_end ∙ mul-suc adx ady in
          let c = mul_comm ady adx in ground (arith, h, bal, product, q, c)
      | inr ne ↦ ground (arith, ne, hj)
    ]

  -- The error after a round that moves in x, in y, or both.
  pub round-IsError :
      (mx my : Bool) {i j err e : ℕ}
      → IsError i j err e
      → leb (2 ^ 32) (2 * e + ady) ≡ mx
      → leb (2 * e) (2 ^ 32 + adx) ≡ my
      → IsError
          (if mx then suc i else i)
          (if my then suc j else j)
          (if my
            then u32 ((if mx then u32 (err + sub32 0 ady) else err) + adx)
            else (if mx then u32 (err + sub32 0 ady) else err))
          ((if my then e + adx else e) - (if mx then ady else 0))
  round-IsError true true {i} {j} b h k = record {
    word = ground (arith, b.word, b.low, b.high, h, k);
    low = ground (arith, h);
    high = ground (arith, b.high, k);
    balance = ground (arith, h, b.balance, mul-suc ady (suc i), mul-suc adx (suc j));
  }
  round-IsError true false {i} {j} b h k = record {
    word = ground (arith, b.word, b.low, b.high, h);
    low = ground (arith, h);
    high = omega (arith, b.high);
    balance = ground (arith, h, b.balance, mul-suc ady (suc i));
  }
  round-IsError false true {i} {j} b h k = record {
    word = ground (arith, b.word, b.low, b.high, k);
    low = omega (arith, b.low);
    high = ground (arith, k);
    balance = ground (arith, b.balance, mul-suc adx (suc j));
  }
  round-IsError false false b h k = absurd (ground (arith, h, k))
