-- ===== src/Pmm/Block.antt =====
-- A control block as a set of page indices.
use ukulele.Base.{
  ℕ, zero, suc, ◌+◌, ◌-◌, ◌*◌, ◌/◌, ◌%◌, ◌^◌, ◌≤◌, ◌<◌, ◌≡◌, ◌≢◌, refl, List, [], ◌∷◌, arith,
  length, get_or, set, All,
}
use mathlib.Core.Path.{ap₂, subst}
use native.Mathlib.Decide.{dec_lt}
use ukulele.Base.Bits.{
  bit, bit-zero, eq_of_bits, popcount, popcount_cleared, popcount-le, popcount_le_width,
  popcount_exact,
}
use ukulele.Pmm.Word.{WordFlip}

-- Digit `j` of the block: page `j` is free.
abbrev pub block_bit : List ℕ → ℕ → ℕ
block_bit ws j = bit (get_or ws (j / 64) 0) (j % 64)

-- The number of free pages that the block records.
abbrev pub weight : List ℕ → ℕ
weight [] = 0
weight (w ∷ ws) = popcount 64 w + weight ws

abbrev pub IsWord : ℕ → Type 0
IsWord w = w < 2 ^ 64

pub block_bit-nil : (j : ℕ) → block_bit [] j ≡ 0
block_bit-nil j = bit-zero (j % 64)

pub block_bit_head : (w : ℕ) (ws : List ℕ) (j : ℕ) → j < 64 → block_bit (w ∷ ws) j ≡ bit w j
block_bit_head w ws j h =
    let q : j / 64 ≡ 0 = omega arith in let r : j % 64 ≡ j = omega arith in rw (q, r)

pub block_bit_tail : (w : ℕ) (ws : List ℕ) (j : ℕ) → block_bit (w ∷ ws) (64 + j) ≡ block_bit ws j
block_bit_tail w ws j =
    let q : (64 + j) / 64 ≡ suc (j / 64) = omega arith in
    let r : (64 + j) % 64 ≡ j % 64 = omega arith in rw (q, r)

-- The blocks differ in page `k` alone, which is free in `ws` and in use in `vs`.
pub record Flip (ws vs : List ℕ) (k : ℕ) : Type 0 where
  pub within : k < 64 * length ws
  pub was_set : block_bit ws k ≡ 1
  pub is_clear : block_bit vs k ≡ 0
  pub same : (j : ℕ) → k ≢ j → block_bit vs j ≡ block_bit ws j
  pub counted : weight ws ≡ weight vs + 1
  pub lengths : length vs ≡ length ws

-- Every page index stands in the head word or in the tail.
pub index_cases {ℓ} :
    (P : ℕ → Type ℓ) → ((j : ℕ) → j < 64 → P j) → ((j : ℕ) → P (64 + j)) → (j : ℕ) → P j
index_cases P low high j = elim (dec_lt j 64) [
  | yes h ↦ low j h
  | no h ↦ let e : 64 + (j - 64) ≡ j = omega arith in subst P e (high (j - 64))
]

module _ {ws vs : List ℕ} {k : ℕ} (w : ℕ) where
  pub Flip-there : Flip ws vs k → Flip (w ∷ ws) (w ∷ vs) (64 + k)
  Flip-there f = record {
    within = omega (arith, f.within);
    was_set = rw (block_bit_tail w ws k) f.was_set;
    is_clear = rw (block_bit_tail w vs k) f.is_clear;
    same =
        index_cases (λ j. 64 + k ≢ j → block_bit (w ∷ vs) j ≡ block_bit (w ∷ ws) j)
          (λ j h ne. rw (block_bit_head w vs j h, block_bit_head w ws j h))
          (λ j ne. rw (block_bit_tail w vs j, block_bit_tail w ws j) (f.same j (omega arith)));
    counted = omega (arith, f.counted);
    lengths = omega (arith, f.lengths);
  }

pub Flip-here : {w v b : ℕ} (ws : List ℕ) → WordFlip w v b → Flip (w ∷ ws) (v ∷ ws) b
Flip-here {w} {v} {b} ws f = record {
  within = omega (arith, f.low);
  was_set = rw (block_bit_head w ws b f.low) f.was_set;
  is_clear = rw (block_bit_head v ws b f.low) f.is_clear;
  same =
      index_cases (λ j. b ≢ j → block_bit (v ∷ ws) j ≡ block_bit (w ∷ ws) j)
        (λ j h ne. rw (block_bit_head v ws j h, block_bit_head w ws j h) (f.same j h ne))
        (λ j ne. rw (block_bit_tail v ws j, block_bit_tail w ws j));
  counted = omega (arith, popcount_cleared 64 w v b f.low f.was_set f.is_clear f.same);
  lengths = refl;
}

-- Setting a digit of word `i`.
pub Flip-set :
    (ws : List ℕ) (i v b : ℕ)
    → i < length ws
    → WordFlip v (get_or ws i 0) b
    → Flip (set ws i v) ws (64 * i + b)
Flip-set [] i v b h f = absurd (omega arith)
Flip-set (w ∷ ws) zero v b h f = let e : 64 * 0 + b ≡ b = omega arith in rw e (Flip-here ws f)
Flip-set (w ∷ ws) (suc i) v b h f =
    let e : 64 * suc i + b ≡ 64 + (64 * i + b) = omega arith in
    rw e (Flip-there w (Flip-set ws i v b (omega arith) f))

pub All-set : (ws : List ℕ) (i v : ℕ) → All IsWord ws → IsWord v → All IsWord (set ws i v)
All-set [] i v h k = tt
All-set (w ∷ ws) zero v h k = (k, h.1)
All-set (w ∷ ws) (suc i) v h k = (h.0, All-set ws i v h.1 k)

pub get_or-IsWord : (ws : List ℕ) (i : ℕ) → All IsWord ws → IsWord (get_or ws i 0)
get_or-IsWord [] i h = omega arith
get_or-IsWord (w ∷ ws) zero h = h.0
get_or-IsWord (w ∷ ws) (suc i) h = get_or-IsWord ws i h.1

-- Blocks of the same length with the same digits are equal.
pub eq_of_block_bits :
    (ws vs : List ℕ)
    → length ws ≡ length vs
    → All IsWord ws
    → All IsWord vs
    → ((j : ℕ) → block_bit ws j ≡ block_bit vs j)
    → ws ≡ vs
eq_of_block_bits [] [] e h k same = refl
eq_of_block_bits [] (v ∷ vs) e h k same = absurd (omega arith)
eq_of_block_bits (w ∷ ws) [] e h k same = absurd (omega arith)
eq_of_block_bits (w ∷ ws) (v ∷ vs) e h k same =
    ap₂ ◌∷◌ (eq_of_bits 64 w v h.0 k.0 heads) (eq_of_block_bits ws vs (omega arith) h.1 k.1 tails)
  where
    heads : (j : ℕ) → j < 64 → bit w j ≡ bit v j
    heads j low = rw (← block_bit_head w ws j low, ← block_bit_head v vs j low) (same j)

    tails : (j : ℕ) → block_bit ws j ≡ block_bit vs j
    tails j = rw (← block_bit_tail w ws j, ← block_bit_tail v vs j) (same (64 + j))

-- With no page free from index `m` on, at most `m` are.
pub weight-le : (ws : List ℕ) (m : ℕ) → ((j : ℕ) → m ≤ j → block_bit ws j ≡ 0) → weight ws ≤ m
weight-le [] m spare = omega arith
weight-le (w ∷ ws) m spare = omega (arith, head, popcount_le_width 64 w, weight-le ws (m - 64) tail)
  where
    head : popcount 64 w ≤ m
    head = popcount-le 64 w m λ j low h. rw (← block_bit_head w ws j low) (spare j h)

    tail : (j : ℕ) → m - 64 ≤ j → block_bit ws j ≡ 0
    tail j h = rw (← block_bit_tail w ws j) (spare (64 + j) (omega arith))

-- With exactly the pages below `m` free, `m` pages are, as far as the block goes.
pub weight_exact :
    (ws : List ℕ) (m : ℕ)
    → m ≤ 64 * length ws
    → ((j : ℕ) → j < m → block_bit ws j ≡ 1)
    → ((j : ℕ) → m ≤ j → block_bit ws j ≡ 0)
    → weight ws ≡ m
weight_exact [] m room on off = omega arith
weight_exact (w ∷ ws) m room on off = omega (
  arith,
  popcount_exact 64 w m (λ j h k. rw (← block_bit_head w ws j h) (on j k))
      (λ j h k. rw (← block_bit_head w ws j h) (off j k)),
  weight_exact ws (m - 64) (omega arith)
      (λ j k. rw (← block_bit_tail w ws j) (on (64 + j) (omega arith)))
      (λ j k. rw (← block_bit_tail w ws j) (off (64 + j) (omega arith))),
)
