-- ===== src/Vaddress/Tests.antt =====
-- Runs of the address space allocator, and its theorems at concrete regions.
use ukulele.Base.{
  ℕ, ◌+◌, ◌*◌, ◌≡◌, refl, [], ◌∷◌, arith, not, ◌&&◌, ◌⊎◌, Outcome, ok, Returns, returns,
}
use ukulele.Vaddress.{AddressRegion, VaddressSpace, allocate, free}
use ukulele.Vaddress.Ranges.{inside, covered}
use ukulele.Vaddress.Nodes.{HasPage, entry_total}
use ukulele.Vaddress.Valid.{IsValid, SameSpace}
use ukulele.Vaddress.Allocate.{Fresh, Refused, allocate_lem}
use ukulele.Vaddress.Free.{Covers, free_lem, free_wrong_part}

-- A page allocator that never runs out.
abbrev pages : ℕ → Outcome (ℕ × ℕ)
pages n = ok (n + 1, 4096 * (n + 1))

abbrev low : AddressRegion
low = record { node = 32784; begin = 4096; end = 8192 }

abbrev high : AddressRegion
high = record { node = 32808; begin = 12288; end = 20480 }

abbrev two_regions : VaddressSpace ℕ
two_regions = record {
  store = record { storage = record { page = 32768; entries = 2 } ∷ []; unused = []; pmm = 8 };
  allocated = low ∷ high ∷ [];
  space_begin = 4096;
  space_end = 65536;
}

two_regions-IsValid : IsValid two_regions
unfolding entry_total
two_regions-IsValid = record { sorted = omega arith; bounded = omega arith; counted = refl }

abbrev one_region : VaddressSpace ℕ
one_region = record {
  store = record { storage = record { page = 32768; entries = 1 } ∷ []; unused = []; pmm = 8 };
  allocated = high ∷ [];
  space_begin = 4096;
  space_end = 65536;
}

one_region-IsValid : IsValid one_region
unfolding entry_total
one_region-IsValid = record { sorted = omega arith; bounded = omega arith; counted = refl }

pages-HasPage : (n : ℕ) → HasPage pages n
unfolding HasPage
pages-HasPage n = returns (omega arith)

allocate_lem_example :
    Returns
      (λ out. Fresh two_regions 4096 out ⊎ Refused two_regions 4096 out)
      (allocate pages 0 two_regions 4096)
allocate_lem_example = allocate_lem pages 0 two_regions 4096 two_regions-IsValid (pages-HasPage 8)

free_lem_example :
    Returns
      (λ v'.
        IsValid v'
        × SameSpace two_regions v'
        × ((a : ℕ)
            → covered v'.allocated a
              ≡ (covered two_regions.allocated a && not (inside 13000 (13000 + 1000) a))))
      (free pages 0 two_regions 13000 1000)
unfolding Covers
free_lem_example =
    free_lem pages 0 13000 1000 two_regions two_regions-IsValid (pages-HasPage 8) (omega arith)
      (omega arith)

free_wrong_part_example :
    Returns
      (λ v'.
        (a : ℕ)
        → covered v'.allocated a ≡ (covered (high ∷ []) a && not (inside (12288 + 4096) 20480 a)))
      (free pages 0 one_region 12288 4096)
free_wrong_part_example =
    free_wrong_part pages 0 12288 4096 one_region high [] refl one_region-IsValid (omega arith)
      (omega arith) (omega arith)
