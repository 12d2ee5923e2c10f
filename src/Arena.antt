-- ===== src/Arena.antt =====
-- The arena allocator over the physical pages (src/memory/arena_allocator.c).
--
-- The page allocator is a parameter, as it is of the address space. `next` holds the header of
-- every page, which is whatever the page held before until the arena writes it.
pub mod Align
pub mod Alloc
pub mod Tests
use ukulele.Base.{
  ℕ, zero, suc, ◌+◌, ◌-◌, ◌*◌, ◌/◌, ◌%◌, ◌^◌, Option, none, some, Bool, ltb, leb, ◌==◌, u32, sub64,
  if◌then◌else◌, Outcome, ok, panic, out_of_fuel, ◌>>=◌,
}
use ukulele.Page.{page_size, hhdm_pointer}
use ukulele.Allocator.{Blk, null_blk, AllocatorVtbl}

pub record ArenaPmm (P : Type 0) : Type 0 where
  pub self : ℕ
  pub current_page : ℕ
  pub current_offset : ℕ
  pub p2align : ℕ
  pub next : ℕ → ℕ
  pub pmm : P

-- `sizeof` of a `struct arena_pmm`, and of its page header.
abbrev pub arena_size : ℕ
arena_size = 32

abbrev pub header_size : ℕ
header_size = 8

-- On `unsigned`, for a shift by less than 32.
unfoldable pub align_p2 : ℕ → ℕ → ℕ
align_p2 val p2 = u32 (u32 val + 2 ^ p2 - 1) / 2 ^ p2 * 2 ^ p2

-- The header's link is the page's own first word.
abbrev pub link : (ℕ → ℕ) → ℕ → ℕ → ℕ → ℕ
link next page to a = if a == page then to else next a

-- The end of `arena_pmm_alloc`, for the size rounded up.
pub place : {P : Type 0} → ℕ → ArenaPmm P → ArenaPmm P × Blk
place size arena = (
  record arena { current_offset = u32 (arena.current_offset + size) },
  record { ptr = arena.current_page + arena.current_offset; size = size },
)

-- The arena goes on to the page at `hdr`.
pub on_page : {P : Type 0} → ℕ → ArenaPmm P → ArenaPmm P
on_page hdr arena = record arena {
  current_page = hdr;
  current_offset = align_p2 header_size arena.p2align;
  next = link arena.next arena.current_page hdr;
}

module _ {P : Type 0} (allocate_page : P → Outcome (P × ℕ)) (hhdm : ℕ) where
  -- `none` is the allocator without a table.
  pub make_arena_pmm_allocator : (ℕ → ℕ) → P → ℕ → Outcome (P × Option (ArenaPmm P))
  unfolding align_p2
  make_arena_pmm_allocator next pmm p2align = allocate_page pmm >>= λ (pmm', page).
      let arena = hhdm_pointer hhdm page in
      if page == 0
      then ok (pmm', none)
      else ok (
        pmm',
        some (record {
          self = arena;
          current_page = arena;
          current_offset = align_p2 arena_size p2align;
          p2align = p2align;
          next = link next arena 0;
          pmm = pmm';
        }),
      )

  -- "Out of space, get another page"
  pub another_page : ℕ → ArenaPmm P → Outcome (ArenaPmm P × Blk)
  unfolding place on_page
  another_page size arena = allocate_page arena.pmm >>= λ (pmm', page).
      let hdr = hhdm_pointer hhdm page in
      if page == 0
      then ok (record arena { pmm = pmm' }, null_blk)
      else ok (place size (on_page hdr (record arena { pmm = pmm' })))

  pub arena_pmm_alloc : ArenaPmm P → ℕ → Outcome (ArenaPmm P × Blk)
  unfolding another_page place
  arena_pmm_alloc arena size0 =
      let size = align_p2 size0 arena.p2align in
      if leb page_size size
      then ok (arena, null_blk)
      else if ltb page_size (arena.current_offset + size)
      then another_page size arena
      else ok (place size arena)

  -- The loop over the pages from `page` on.
  pub del_loop : (P → ℕ → Outcome P) → ℕ → (ℕ → ℕ) → ℕ → P → Outcome P
  del_loop free_page zero next page pmm = out_of_fuel
  del_loop free_page (suc fuel) next page pmm =
      let rest = free_page pmm (sub64 page hhdm) >>= del_loop free_page fuel next (next page) in
      if page == 0 then ok pmm else rest

  pub arena_pmm_del : (P → ℕ → Outcome P) → ℕ → ArenaPmm P → Outcome P
  unfolding del_loop
  arena_pmm_del free_page fuel arena = del_loop free_page fuel arena.next arena.self arena.pmm

  -- `arena_pmm_vtbl`. The arena's own words stand beside the bytes of the blocks.
  pub arena_pmm_vtbl : AllocatorVtbl (ArenaPmm P)
  unfolding arena_pmm_alloc
  arena_pmm_vtbl = record {
    alloc = some (λ w size. arena_pmm_alloc w.self size >>= λ (arena, blk).
        ok (record { self = arena; memory = w.memory }, blk));
    realloc = none;
    free = none;
  }
