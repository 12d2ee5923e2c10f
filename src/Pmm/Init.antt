-- ===== src/Pmm/Init.antt =====
-- `pmm_ctrl_initialise` marks exactly the pages of its region free.
use ukulele.Base.{
  ℕ, zero, suc, ◌+◌, ◌-◌, ◌/◌, ◌%◌, ◌^◌, ◌≤◌, ◌<◌, ◌≡◌, ◌≢◌, refl, ◌⊎◌, ◌∙◌, List, arith, true,
  ◌==◌, length, get_or, set, replicate, All, length-set, length-replicate, get_or-set_self,
  get_or-set_ne, get_or-replicate, All-replicate, Bool-cases, inl, inr, Returns, returns, dec_lt,
}
use ukulele.Base.Bits.{bit, bit-zero, bit_ones, bit_above, bit_shifted}
use native.Mathlib.Nat.{div-le_self}
use ukulele.Page.{is_page_aligned}
use ukulele.Pmm.{all_ones, pmm_ctrl_entries, fill, ctrl_initialise}
use ukulele.Pmm.Block.{block_bit, IsWord, All-set}

length-fill : (n i : ℕ) (ws : List ℕ) → length (fill n i ws) ≡ length ws
unfolding fill
length-fill zero i ws = refl
length-fill (suc n) i ws = length-fill n (i + 1) (set ws i all_ones) ∙ length-set ws i all_ones

All-fill : (n i : ℕ) (ws : List ℕ) → All IsWord ws → All IsWord (fill n i ws)
unfolding fill
All-fill zero i ws h = h
All-fill (suc n) i ws h =
    All-fill n (i + 1) (set ws i all_ones) (All-set ws i all_ones h (omega arith))

fill_outside :
    (n i j : ℕ) (ws : List ℕ) → (j < i) ⊎ (i + n ≤ j) → get_or (fill n i ws) j 0 ≡ get_or ws j 0
unfolding fill
fill_outside zero i j ws h = refl
fill_outside (suc n) i j ws h =
    fill_outside n (i + 1) j (set ws i all_ones) (ground arith)
    ∙ get_or-set_ne ws i j all_ones 0 (omega arith)

fill_inside :
    (n i j : ℕ) (ws : List ℕ)
    → i ≤ j
    → j < i + n
    → j < length ws
    → get_or (fill n i ws) j 0 ≡ all_ones
unfolding fill
fill_inside zero i j ws low high room = absurd (omega arith)
fill_inside (suc n) i j ws low high room = elim (dec_lt i j) [
  | yes h ↦
      fill_inside n (i + 1) j (set ws i all_ones) (omega arith) (omega arith)
        (omega (arith, length-set ws i all_ones))
  | no h ↦
      let e : j ≡ i = omega arith in
      fill_outside n (i + 1) j (set ws i all_ones) (inl (omega arith))
      ∙ rw e (get_or-set_self ws i all_ones 0 (omega arith))
]

-- The block that records exactly the pages below `pages` as free.
pub record Exactly (pages : ℕ) (ws : List ℕ) : Type 0 where
  pub size : length ws ≡ pmm_ctrl_entries
  pub words : All IsWord ws
  pub on : (j : ℕ) → j < pages → block_bit ws j ≡ 1
  pub off : (j : ℕ) → pages ≤ j → block_bit ws j ≡ 0

-- The digits of a word whose lowest `extra` are set.
last_word-on : (extra j : ℕ) → j < extra → extra < 64 → bit (all_ones / 2 ^ (64 - extra)) j ≡ 1
last_word-on extra j h k =
    bit_shifted (64 - extra) all_ones j ∙ bit_ones 64 (64 - extra + j) (omega arith)

last_word-off : (extra j : ℕ) → extra ≤ j → extra < 64 → bit (all_ones / 2 ^ (64 - extra)) j ≡ 0
last_word-off extra j h k =
    bit_shifted (64 - extra) all_ones j
    ∙ bit_above 64 all_ones (64 - extra + j) (omega arith) (omega arith)

-- The two writes of the function, to a block of zero words.
module _ (pages : ℕ) (ws : List ℕ) (room : pages < 2 ^ 15) (size : length ws ≡ pmm_ctrl_entries)
    (words : All IsWord ws) (zeros : (i : ℕ) → get_or ws i 0 ≡ 0) where
  abbrev full : List ℕ
  full = fill (pages / 64) 0 ws

  full_word : (j : ℕ) → j < pages / 64 → get_or full j 0 ≡ all_ones
  full_word j h = fill_inside (pages / 64) 0 j ws (omega arith) (omega arith) (omega arith)

  empty_word : (j : ℕ) → pages / 64 ≤ j → get_or full j 0 ≡ 0
  empty_word j h = fill_outside (pages / 64) 0 j ws (inr (omega arith)) ∙ zeros j

  whole_words : pages % 64 ≡ 0 → Exactly pages full
  whole_words even = record {
    size = length-fill (pages / 64) 0 ws ∙ size;
    words = All-fill (pages / 64) 0 ws words;
    on = λ j h. rw (full_word (j / 64) (omega arith)) (bit_ones 64 (j % 64) (omega arith));
    off = λ j h. rw (empty_word (j / 64) (omega arith)) (bit-zero (j % 64));
  }

  part_word :
      pages % 64 ≢ 0 → Exactly pages (set full (pages / 64) (all_ones / 2 ^ (64 - pages % 64)))
  part_word odd = record {
    size = length-set full (pages / 64) last ∙ length-fill (pages / 64) 0 ws ∙ size;
    words = All-set full (pages / 64) last (All-fill (pages / 64) 0 ws words) small;
    on = on;
    off = off;
  }
    where
      last : ℕ
      last = all_ones / 2 ^ (64 - pages % 64)

      small : IsWord last
      small = omega (arith, div-le_self all_ones (2 ^ (64 - pages % 64)))

      at_last : get_or (set full (pages / 64) last) (pages / 64) 0 ≡ last
      at_last =
          get_or-set_self full (pages / 64) last 0 (omega (arith, length-fill (pages / 64) 0 ws))

      off_last :
          (j : ℕ) → pages / 64 ≢ j → get_or (set full (pages / 64) last) j 0 ≡ get_or full j 0
      off_last j ne = get_or-set_ne full (pages / 64) j last 0 ne

      on : (j : ℕ) → j < pages → block_bit (set full (pages / 64) last) j ≡ 1
      on j h = elim (Bool-cases (pages / 64 == j / 64)) [
        | inl e ↦
            let e' : j / 64 ≡ pages / 64 = ground arith in
            rw (e', at_last) (last_word-on (pages % 64) (j % 64) (omega arith) (omega arith))
        | inr ne ↦
            let ne' : pages / 64 ≢ j / 64 = ground arith in
            rw (off_last (j / 64) ne', full_word (j / 64) (omega arith))
              (bit_ones 64 (j % 64) (omega arith))
      ]

      off : (j : ℕ) → pages ≤ j → block_bit (set full (pages / 64) last) j ≡ 0
      off j h = elim (Bool-cases (pages / 64 == j / 64)) [
        | inl e ↦
            let e' : j / 64 ≡ pages / 64 = ground arith in
            rw (e', at_last) (last_word-off (pages % 64) (j % 64) (omega arith) (omega arith))
        | inr ne ↦
            let ne' : pages / 64 ≢ j / 64 = ground arith in
            rw (off_last (j / 64) ne', empty_word (j / 64) (omega arith)) (bit-zero (j % 64))
      ]

-- A block of up to 2 ^ 15 - 1 pages is set up with just these free.
pub ctrl_initialise-Exactly :
    (ctrl pages : ℕ)
    → is_page_aligned ctrl ≡ true
    → pages < 2 ^ 15
    → Returns (Exactly pages) (ctrl_initialise ctrl pages)
unfolding ctrl_initialise
ctrl_initialise-Exactly ctrl pages aligned room = elim (Bool-cases (pages % 64 == 0)) [
  | inl even ↦
      rw (aligned, even) (returns (whole_words pages zeroed room size words zeros (ground arith)))
  | inr odd ↦
      rw (aligned, odd) (returns (part_word pages zeroed room size words zeros (ground arith)))
]
  where
    zeroed : List ℕ
    zeroed = replicate pmm_ctrl_entries 0

    size : length zeroed ≡ pmm_ctrl_entries
    size = length-replicate {A = ℕ} pmm_ctrl_entries 0

    words : All IsWord zeroed
    words = All-replicate IsWord pmm_ctrl_entries 0 (omega arith)

    zeros : (i : ℕ) → get_or zeroed i 0 ≡ 0
    zeros i = get_or-replicate pmm_ctrl_entries i 0
