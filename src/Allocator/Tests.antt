-- ===== src/Allocator/Tests.antt =====
-- The arena of the kernel as the allocator of `krealloc`, and the theorems there.
use ukulele.Base.{◌≡◌, ◌≢◌, refl, inr, arith, ok, Returns}
use ukulele.Arena.Tests.{
  world, after, small, arena, small_given, arena_alloc, arena_no_realloc, arena_no_free,
}
use ukulele.Allocator.{Blk, null_blk, doalloc, kalloc, krealloc}
use ukulele.Allocator.Realloc.{Copied, Apart, krealloc_lem, krealloc_overruns}

-- A block of 64 bytes, which gets smaller.
abbrev old : Blk
old = record { ptr = 4192; size = 64 }

given : doalloc arena world 8 ≡ ok (after, small)
unfolding doalloc
given = rw arena_alloc (rw small_given refl)

kalloc_zero : kalloc arena world 0 ≡ ok (world, null_blk)
unfolding kalloc
kalloc_zero = refl

krealloc_lem_example :
    ((small.ptr ≡ 0) → krealloc arena world old 8 ≡ ok (after, null_blk))
    × ((small.ptr ≢ 0)
        → Apart old small
        → Returns
            (λ out.
              (out.1 ≡ small)
              × (out.0.self ≡ after.self)
              × Copied after.memory out.0.memory old small)
            (krealloc arena world old 8))
krealloc_lem_example =
    krealloc_lem arena arena_no_realloc arena_no_free world old 8 (omega arith) (omega arith) after
      small given

krealloc_overruns_example : Returns (λ out. out.0.memory 4272 ≡ 4208) (krealloc arena world old 8)
krealloc_overruns_example =
    krealloc_overruns arena arena_no_realloc arena_no_free world old 8 (omega arith) (omega arith)
      after small given (omega arith) (inr (omega arith)) (omega arith)
