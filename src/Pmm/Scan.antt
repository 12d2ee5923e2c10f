-- ===== src/Pmm/Scan.antt =====
-- `pmm_ctrl_alloc` takes the lowest free page of a block.
use ukulele.Base.{
  ℕ, ◌+◌, ◌*◌, ◌%◌, ◌^◌, ◌≤◌, ◌<◌, ◌≡◌, ◌≢◌, List, [], ◌∷◌, arith, ◌==◌, length, All, Returns,
  returns, Returns-bind, ap, Bool-cases, inl, inr, bit_and,
}
use ukulele.Base.Bits.{bit-zero, popcount, popcount-zero, zero_of_popcount}
use ukulele.Pmm.{complement, shl_one, ctz, ctrl_alloc}
use ukulele.Pmm.Word.{ctz-LowestSet, clear-WordFlip, clear-lt}
use ukulele.Pmm.Block.{
  block_bit, block_bit_head, block_bit_tail, weight, IsWord, Flip, Flip-here, Flip-there,
  index_cases,
}

-- What a scan from word `i` on has done: page `index`, counted from that word, is taken.
pub record Taken (i : ℕ) (ws : List ℕ) (out : List ℕ × ℕ) : Type 0 where
  pub index : ℕ
  pub result : out.1 ≡ 64 * i + index
  pub flip : Flip ws out.0 index
  pub words : All IsWord out.0
  pub first : (j : ℕ) → j < index → block_bit ws j ≡ 0

module _ (i : ℕ) (ws : List ℕ) where
  Taken-there : (out : List ℕ × ℕ) → Taken (i + 1) ws out → Taken i (0 ∷ ws) (0 ∷ out.0, out.1)
  Taken-there out t = record {
    index = 64 + t.index;
    result = omega (arith, t.result);
    flip = Flip-there 0 t.flip;
    words = (omega arith, t.words);
    first =
        index_cases (λ j. j < 64 + t.index → block_bit (0 ∷ ws) j ≡ 0)
          (λ j low h. rw (block_bit_head 0 ws j low) (bit-zero j))
          (λ j h. rw (block_bit_tail 0 ws j) (t.first j (omega arith)));
  }

  Taken-here :
      (w : ℕ)
      → IsWord w
      → All IsWord ws
      → i < 512
      → w ≢ 0
      → Taken i (w ∷ ws) (bit_and w (complement (shl_one (ctz w))) ∷ ws, (64 * i + ctz w) % 2 ^ 16)
  Taken-here w small words room ne =
      let found = ctz-LowestSet w small ne in
      record {
        index = ctz w;
        result = omega (arith, found.low);
        flip = Flip-here ws (clear-WordFlip w (ctz w) found.low found.is_set);
        words = (clear-lt w (ctz w) small, words);
        first =
            λ j h. rw (block_bit_head w ws j (omega (arith, found.low))) (found.clear_below j h);
      }

-- A block with a free page has one taken, so the panic is not met.
pub ctrl_alloc-Taken :
    (i : ℕ) (ws : List ℕ)
    → All IsWord ws
    → i + length ws ≤ 512
    → 0 < weight ws
    → Returns (Taken i ws) (ctrl_alloc i ws)
unfolding ctrl_alloc
ctrl_alloc-Taken i [] words room some_free = absurd (omega arith)
ctrl_alloc-Taken i (w ∷ ws) words room some_free = elim (Bool-cases (w == 0)) [
  | inl empty ↦
      let e : w ≡ 0 = ground arith in
      rw (empty, e)
        (Returns-bind _
          (ctrl_alloc-Taken (i + 1) ws words.1 (omega arith)
            (omega (arith, ap (popcount 64) e, popcount-zero 64)))
          (λ out t. returns (Taken-there i ws out t)))
  | inr full ↦ rw full (returns (Taken-here i ws w words.0 words.1 (omega arith) (ground arith)))
]

-- A block that counts no free page has none.
pub clear_of_weight : (ws : List ℕ) → All IsWord ws → weight ws ≡ 0 → (j : ℕ) → block_bit ws j ≡ 0
clear_of_weight [] words e = λ j. bit-zero (j % 64)
clear_of_weight (w ∷ ws) words e =
    index_cases (λ j. block_bit (w ∷ ws) j ≡ 0)
      (λ j low.
        let z : w ≡ 0 = zero_of_popcount 64 w words.0 (omega arith) in
        rw (block_bit_head w ws j low, z) (bit-zero j))
      (λ j. rw (block_bit_tail w ws j) (clear_of_weight ws words.1 (omega arith) j))
