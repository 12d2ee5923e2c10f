-- ===== src/Pmm/Full.antt =====
-- `pmm_add` with every entry in use: nothing is added.
use ukulele.Base.{
  ℕ, zero, suc, ◌+◌, ◌/◌, ◌%◌, ◌<◌, ◌≡◌, refl, [], ◌∷◌, none, arith, true, ltb, All, Bool-cases,
  inl, inr, ok, Returns, returns,
}
use ukulele.Page.{page_size, round_down, is_page_aligned_iff}
use ukulele.Pmm.{
  max_block_size_bytes, min_block_size_bytes, Pmm, place, after_place, add_blocks, add,
}

-- Every entry of the allocator is in use.
abbrev pub IsFull : Pmm → Type 0
IsFull = All (λ p. p.active ≡ true)

place-IsFull :
    (hhdm : ℕ) (ps : Pmm) (start size : ℕ) → IsFull ps → place hhdm ps start size ≡ ok none
unfolding place
place-IsFull hhdm [] start size full = refl
place-IsFull hhdm (p ∷ ps) start size full =
    rw (full.0, place-IsFull hhdm ps start size full.1) refl

add_blocks-IsFull :
    (hhdm fuel : ℕ) {ps : Pmm} (start size : ℕ)
    → 0 < fuel
    → IsFull ps
    → start % page_size ≡ 0
    → Returns (λ out. out.0 ≡ ps) (add_blocks hhdm fuel ps start size)
unfolding add_blocks after_place
add_blocks-IsFull hhdm zero start size h full aligned = absurd (omega arith)
add_blocks-IsFull hhdm (suc fuel) {ps} start size h full aligned =
    let at = (is_page_aligned_iff start).1 aligned in
    elim (Bool-cases (ltb max_block_size_bytes (round_down size page_size))) [
      | inl large ↦
          simp (at, large, place-IsFull hhdm ps start max_block_size_bytes full) (returns refl)
      | inr fit ↦ elim (Bool-cases (ltb (round_down size page_size) min_block_size_bytes)) [
        | inl little ↦ simp (at, fit, little) (returns refl)
        | inr enough ↦
            simp (at, fit, enough, place-IsFull hhdm ps start (round_down size page_size) full)
              (returns refl)
      ]
    ]

-- A `pmm_add` of a page-aligned range with every entry in use returns and adds nothing.
pub add-IsFull :
    (hhdm : ℕ) {ps : Pmm} (start size : ℕ)
    → IsFull ps
    → start % page_size ≡ 0
    → Returns (λ out. out.0 ≡ ps) (add hhdm ps start size)
unfolding add
add-IsFull hhdm start size full aligned =
    add_blocks-IsFull hhdm (size / max_block_size_bytes + 1) start size (omega arith) full aligned
