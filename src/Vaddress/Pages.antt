-- ===== src/Vaddress/Pages.antt =====
-- The physical page allocator as the one that an address space gets its pages from.
use ukulele.Base.{ℕ, ◌<◌, ◌≢◌, arith, inl, inr, Returns-mono}
use ukulele.Pmm.{Pmm, allocate_page}
use ukulele.Pmm.Valid
use ukulele.Pmm.Alloc.{Allocated, allocate_page_lem}
use ukulele.Vaddress.Nodes.{HasPage}

-- A valid physical allocator with a free page has one to give.
HasPage-free_total :
    {pmm : Pmm} → Valid.IsValid pmm → 0 < Valid.free_total pmm → HasPage allocate_page pmm
unfolding HasPage
HasPage-free_total {pmm} v free = Returns-mono (allocate_page_lem v) λ out a. given out a.0
  where
    given : (out : Pmm × ℕ) → Allocated pmm out → out.1 ≢ 0
    given out (inl g) = g.not_null
    given out (inr x) = absurd (omega (arith, x.counted, free))
