-- ===== src/Arena/Tests.antt =====
-- The arena on a page allocator that never runs out.
use ukulele.Base.{
  ℕ, ◌+◌, ◌*◌, ◌^◌, ◌≡◌, refl, arith, Outcome, ok, Returns, returns, ◌>>=◌, none, some,
}
use ukulele.Allocator.{Blk, World, AllocatorVtbl}
use ukulele.Arena.{ArenaPmm, arena_pmm_alloc, align_p2, arena_pmm_vtbl, place}
use ukulele.Arena.Alloc.{IsArena, Result, arena_pmm_alloc_lem, arena_pmm_alloc-cut}

abbrev pub pages : ℕ → Outcome (ℕ × ℕ)
pages n = ok (n + 1, 4096 * (n + 1))

-- An arena with 64 bytes left in its page, in blocks of 16.
abbrev nearly_full : ArenaPmm ℕ
nearly_full = record {
  self = 4096;
  current_page = 4096;
  current_offset = 4032;
  p2align = 4;
  next = λ _. 0;
  pmm = 1;
}

nearly_full-IsArena : IsArena nearly_full
nearly_full-IsArena = record {
  parts = 256;
  divides = refl;
  header_fits = omega arith;
  within = omega arith;
  turns = 252;
  aligned = refl;
}

arena_pmm_alloc_lem_example :
    Returns (Result pages 0 100 nearly_full) (arena_pmm_alloc pages 0 nearly_full 100)
arena_pmm_alloc_lem_example =
    arena_pmm_alloc_lem pages 0 100 nearly_full nearly_full-IsArena (returns tt) (omega arith)

-- The size is cut to 32 bits before it is rounded up.
align_runs : align_p2 (2 ^ 32 + 5) 4 ≡ 16
unfolding align_p2
align_runs = refl

arena_pmm_alloc-cut_example :
    arena_pmm_alloc pages 0 nearly_full (5 + 1 * 2 ^ 32) ≡ arena_pmm_alloc pages 0 nearly_full 5
arena_pmm_alloc-cut_example = arena_pmm_alloc-cut pages 0 5 1 nearly_full

-- An arena of whose page the first 160 bytes are taken, with byte `q` at every address `q`.
abbrev pub world : World (ArenaPmm ℕ)
world = record {
  self = record {
    self = 4096;
    current_page = 4096;
    current_offset = 160;
    p2align = 4;
    next = λ _. 0;
    pmm = 1;
  };
  memory = λ q. q;
}

abbrev pub after : World (ArenaPmm ℕ)
after = record { self = record world.self { current_offset = 176 }; memory = world.memory }

-- The block of 16 bytes that the arena gives for 8.
abbrev pub small : Blk
small = record { ptr = 4256; size = 16 }

abbrev pub arena : AllocatorVtbl (ArenaPmm ℕ)
arena = arena_pmm_vtbl pages 0

pub small_given : arena_pmm_alloc pages 0 world.self 8 ≡ ok (after.self, small)
unfolding arena_pmm_alloc place align_p2
small_given = refl

pub arena_alloc :
    arena.alloc
    ≡ some (λ w size. arena_pmm_alloc pages 0 w.self size >>= λ (a, blk).
        ok (record { self = a; memory = w.memory }, blk))
unfolding arena_pmm_vtbl
arena_alloc = refl

pub arena_no_realloc : arena.realloc ≡ none
unfolding arena_pmm_vtbl
arena_no_realloc = refl

pub arena_no_free : arena.free ≡ none
unfolding arena_pmm_vtbl
arena_no_free = refl
