-- ===== src/Page.antt =====
-- Pages of memory: src/include/page.h, the rounding macros of src/include/macros.h that work on
-- any multiple, and the pointer conversion of src/memory/pmm.h.
use ukulele.Base.{ℕ, ◌*◌, ◌/◌, ◌%◌, ◌≡◌, ◌↔◌, bit_and, Bool, true, ◌==◌, add64, arith}
use ukulele.Base.Bits.{bit_and_ones}

abbrev pub page_size : ℕ
page_size = 4096

abbrev pub round_down : ℕ → ℕ → ℕ
round_down val mult = val / mult * mult

-- The test of `require_page_aligned`, which panics where it fails.
unfoldable pub is_page_aligned : ℕ → Bool
is_page_aligned p = bit_and p 0xfff == 0

-- `HHDM_POINTER (page)`, for the offset that the bootloader gave.
abbrev pub hhdm_pointer : ℕ → ℕ → ℕ
hhdm_pointer hhdm page = add64 page hhdm

pub is_page_aligned_iff : (p : ℕ) → (is_page_aligned p ≡ true) ↔ (p % page_size ≡ 0)
unfolding is_page_aligned
is_page_aligned_iff p = ground (arith, bit_and_ones 12 p)
