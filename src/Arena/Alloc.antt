-- ===== src/Arena/Alloc.antt =====
-- `arena_pmm_alloc`: where its blocks lie.
use ukulele.Base.{
  ℕ, dec_lt, ◌+◌, ◌*◌, ◌^◌, ◌<◌, ◌≤◌, ◌≡◌, ◌≢◌, refl, true, false, ==_iff, ok, Returns-value, inl,
  inr, arith, ltb, leb, ◌==◌, u32, Bool-cases, Outcome, Returns, returns,
}
use native.Mathlib.Nat.{add-mul}
use ukulele.Page.{page_size, hhdm_pointer}
use ukulele.Allocator.{Blk, null_blk}
use ukulele.Arena.{ArenaPmm, align_p2, header_size, place, on_page, another_page, arena_pmm_alloc}
use ukulele.Arena.Align.{RoundedUp, align_p2-RoundedUp, align_p2-cut, multiple-gap}

module _ {P : Type 0} where
  -- The alignment divides the page size and leaves room for the header; the offset is aligned and
  -- within the page.
  pub record IsArena (arena : ArenaPmm P) : Type 0 where
    pub parts : ℕ
    pub divides : page_size ≡ parts * 2 ^ arena.p2align
    pub header_fits : header_size ≤ 2 ^ arena.p2align
    pub within : arena.current_offset ≤ page_size
    pub turns : ℕ
    pub aligned : arena.current_offset ≡ turns * 2 ^ arena.p2align

  -- A block in the current page, behind all that was in use there: the offset ends at its end.
  pub record InPage (size : ℕ) (arena : ArenaPmm P) (out : ArenaPmm P × Blk) : Type 0 where
    pub offset : ℕ
    pub pointer : out.1.ptr ≡ out.0.current_page + offset
    pub behind : arena.current_offset ≤ offset
    pub large_enough : size ≤ out.1.size
    pub ends : out.0.current_offset ≡ offset + out.1.size
    pub same_page : out.0.current_page ≡ arena.current_page
    pub valid : IsArena out.0

  place-InPage :
      (size n : ℕ) (arena : ArenaPmm P)
      → IsArena arena
      → RoundedUp (2 ^ arena.p2align) size n
      → arena.current_offset + n ≤ page_size
      → InPage size arena (place n arena)
  unfolding place
  place-InPage size n arena i r fits =
      let narrow : u32 (arena.current_offset + n) ≡ arena.current_offset + n =
        omega (arith, fits) in
      let total : arena.current_offset + n ≡ (i.turns + r.quotient) * 2 ^ arena.p2align =
        omega (arith, i.aligned, r.multiple, add-mul i.turns r.quotient (2 ^ arena.p2align)) in
      rw narrow (record {
        offset = arena.current_offset;
        pointer = refl;
        behind = omega arith;
        large_enough = r.above;
        ends = refl;
        same_page = refl;
        valid = record {
          parts = i.parts;
          divides = i.divides;
          header_fits = i.header_fits;
          within = fits;
          turns = i.turns + r.quotient;
          aligned = total;
        };
      })

  a-le-page : (arena : ArenaPmm P) → IsArena arena → 2 ^ arena.p2align ≤ page_size
  a-le-page arena i = omega (
    arith,
    multiple-gap (2 ^ arena.p2align) 0 i.parts 0 page_size (omega arith) i.divides (omega arith),
  )

  -- The header takes up one alignment.
  header-le :
      (arena : ArenaPmm P)
      → IsArena arena
      → (h : ℕ) → RoundedUp (2 ^ arena.p2align) header_size h
      → h ≤ 2 ^ arena.p2align
  header-le arena i h r = elim (dec_lt (2 ^ arena.p2align) h) [
    | yes y ↦
        let gap =
          multiple-gap (2 ^ arena.p2align) 1 r.quotient (2 ^ arena.p2align) h (omega arith)
            r.multiple y in
        absurd (omega (arith, gap, r.below, i.header_fits))
    | no n ↦ omega (arith, n)
  ]

  -- A new page begins with its header, rounded up to the alignment.
  on_page-IsArena :
      (hdr : ℕ) (arena : ArenaPmm P)
      → IsArena arena
      → IsArena (on_page hdr arena) × ((on_page hdr arena).current_offset ≤ 2 ^ arena.p2align)
  unfolding on_page
  on_page-IsArena hdr arena i =
      let le = a-le-page arena i in
      let r =
        align_p2-RoundedUp header_size arena.p2align (omega (arith, i.header_fits))
          (omega (arith, le)) in
      let one = header-le arena i _ r in
      (
        record {
          parts = i.parts;
          divides = i.divides;
          header_fits = i.header_fits;
          within = omega (arith, one, le);
          turns = r.quotient;
          aligned = r.multiple;
        },
        one,
      )

  module _ (allocate_page : P → Outcome (P × ℕ)) (hhdm : ℕ) where
    -- The block lies in the page that the page allocator has given, behind the link at its start,
    -- and the page is the arena's current one, to which the page before is linked.
    pub record InNewPage (size : ℕ) (arena : ArenaPmm P) (out : ArenaPmm P × Blk) : Type 0 where
      pub page : ℕ
      pub given : allocate_page arena.pmm ≡ ok (out.0.pmm, page)
      pub not_null : page ≢ 0
      pub current : out.0.current_page ≡ hhdm_pointer hhdm page
      pub linked : out.0.next arena.current_page ≡ out.0.current_page
      pub other_links : (q : ℕ) → q ≢ arena.current_page → out.0.next q ≡ arena.next q
      pub offset : ℕ
      pub pointer : out.1.ptr ≡ hhdm_pointer hhdm page + offset
      pub behind_link : header_size ≤ offset
      pub large_enough : size ≤ out.1.size
      pub ends : out.0.current_offset ≡ offset + out.1.size
      pub valid : IsArena out.0

    -- What `arena_pmm_alloc` comes to: no block, a block in the current page, or one in a new page.
    pub data Result (size : ℕ) (arena : ArenaPmm P) (out : ArenaPmm P × Blk) : Type 0 where
      refused :
          out.1 ≡ null_blk
          → out.0.current_page ≡ arena.current_page
          → out.0.current_offset ≡ arena.current_offset
          → Result size arena out
      same_page :
          InPage size arena out
          → out.0.pmm ≡ arena.pmm
          → out.0.next ≡ arena.next
          → Result size arena out
      new_page : InNewPage size arena out → Result size arena out

    InNewPage-another :
        (size n page : ℕ) (arena : ArenaPmm P) (pmm : P)
        → IsArena arena
        → RoundedUp (2 ^ arena.p2align) size n
        → n < page_size
        → allocate_page arena.pmm ≡ ok (pmm, page)
        → page ≢ 0
        → InNewPage size arena
            (place n (on_page (hhdm_pointer hhdm page) (record arena { pmm = pmm })))
    unfolding place on_page
    InNewPage-another size n page arena pmm i r fits given ne =
        let arena' : ArenaPmm P = record arena { pmm = pmm } in
        let valid : IsArena arena' = record {
          parts = i.parts;
          divides = i.divides;
          header_fits = i.header_fits;
          within = i.within;
          turns = i.turns;
          aligned = i.aligned;
        } in
        let hdr = hhdm_pointer hhdm page in
        let fresh = on_page-IsArena hdr arena' valid in
        let room =
          multiple-gap (2 ^ arena.p2align) r.quotient i.parts n page_size r.multiple i.divides
            fits in
        let in_page =
          place-InPage size n (on_page hdr arena') fresh.0 r (omega (arith, fresh.1, room)) in
        let header =
          align_p2-RoundedUp header_size arena.p2align (omega (arith, i.header_fits))
            (omega (arith, a-le-page arena i)) in
        let self : (arena.current_page == arena.current_page) ≡ true =
          (==_iff arena.current_page arena.current_page).1 refl in
        record {
          page = page;
          given = given;
          not_null = ne;
          current = refl;
          linked = rw self refl;
          other_links = λ q other.
              let off : (q == arena.current_page) ≡ false = ground (arith, other) in rw off refl;
          offset = in_page.offset;
          pointer = in_page.pointer;
          behind_link = omega (arith, header.above, in_page.behind);
          large_enough = in_page.large_enough;
          ends = in_page.ends;
          valid = in_page.valid;
        }

    new_page-Result :
        (size n : ℕ) (arena : ArenaPmm P)
        → IsArena arena
        → (out : P × ℕ) → allocate_page arena.pmm ≡ ok out
        → RoundedUp (2 ^ arena.p2align) size n
        → n < page_size
        → Returns (Result size arena) (another_page allocate_page hhdm n arena)
    unfolding another_page
    new_page-Result size n arena i out given r fits = rw given (elim (Bool-cases (out.1 == 0)) [
      | inl y ↦ rw y (returns (refused refl refl refl))
      | inr x ↦ rw x (
          returns (
            new_page
              (InNewPage-another size n out.1 arena out.0 i r fits given (ground (arith, x)))))
    ])

    -- In an arena whose alignment is at least 8 and divides the page size, with a page allocator
    -- that returns, `arena_pmm_alloc` of a size that is at least a page below 2 ^ 32 returns. Either
    -- it refuses and the arena's offset and page are as before. Or the block is at least as large as
    -- asked for, and the next block begins behind it: it lies within the current page, behind the
    -- earlier blocks, and no page has been taken; or it lies behind the link at the start of the
    -- page that the page allocator has just given, which is the current page now and to which the
    -- page before is linked. The arena stays well-formed.
    pub arena_pmm_alloc_lem :
        (size : ℕ) (arena : ArenaPmm P)
        → IsArena arena
        → Returns (λ _. Unit {0}) (allocate_page arena.pmm)
        → size + page_size ≤ 2 ^ 32
        → Returns (Result size arena) (arena_pmm_alloc allocate_page hhdm arena size)
    unfolding arena_pmm_alloc place
    arena_pmm_alloc_lem size arena i h w =
        let le = a-le-page arena i in
        let n = align_p2 size arena.p2align in
        let r =
          align_p2-RoundedUp size arena.p2align (omega (arith, i.header_fits))
            (omega (arith, le, w)) in
        let given = Returns-value h in
        elim (Bool-cases (leb page_size n)) [
          | inl y ↦ rw y (returns (refused refl refl refl))
          | inr x ↦ rw x (elim (Bool-cases (ltb page_size (arena.current_offset + n))) [
            | inl y ↦ rw y (new_page-Result size n arena i given.0 given.1 r (ground arith))
            | inr z ↦
                rw z (returns (same_page (place-InPage size n arena i r (ground arith)) refl refl))
          ])
        ]

  -- A size that is larger by a multiple of 2 ^ 32 gives the same result: the block of a request of
  -- 4 GiB and some bytes is as small as that of these bytes alone.
  pub arena_pmm_alloc-cut :
      (allocate_page : P → Outcome (P × ℕ)) (hhdm size k : ℕ) (arena : ArenaPmm P)
      → arena_pmm_alloc allocate_page hhdm arena (size + k * 2 ^ 32)
        ≡ arena_pmm_alloc allocate_page hhdm arena size
  unfolding arena_pmm_alloc
  arena_pmm_alloc-cut allocate_page hhdm size k arena = rw (align_p2-cut size k arena.p2align) refl
