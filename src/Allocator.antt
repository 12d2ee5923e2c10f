-- ===== src/Allocator.antt =====
-- The allocator interface of the kernel (src/memory/allocator.c, src/memory/allocator.h).
--
-- An allocator's `self` is a state of any type `S`; the bytes of memory stand beside it, since
-- `krealloc` copies them. A null function pointer of the table is `none`.
pub mod Realloc
mod Tests
use ukulele.Base.{ℕ, Option, none, some, Outcome, ok, panic, ◌>>=◌, ◌==◌, if◌then◌else◌}
use ukulele.Libk.Str.{Memory, memcpy}

pub record Blk : Type 0 where
  pub ptr : ℕ
  pub size : ℕ

abbrev pub null_blk : Blk
null_blk = record { ptr = 0; size = 0 }

pub record World (S : Type 0) : Type 0 where
  pub self : S
  pub memory : Memory

pub record AllocatorVtbl (S : Type 0) : Type 0 where
  pub alloc : Option (World S → ℕ → Outcome (World S × Blk))
  pub realloc : Option (World S → Blk → ℕ → Outcome (World S × Blk))
  pub free : Option (World S → Blk → Outcome (World S))

module _ {S : Type 0} (vtbl : AllocatorVtbl S) where
  pub doalloc : World S → ℕ → Outcome (World S × Blk)
  doalloc w size = elim vtbl.alloc [ none ↦ panic | some f ↦ f w size ]

  pub dofree : World S → Blk → Outcome (World S)
  dofree w blk = elim vtbl.free [ none ↦ ok w | some f ↦ f w blk ]

  pub kalloc : World S → ℕ → Outcome (World S × Blk)
  unfolding doalloc
  kalloc w size = if size == 0 then ok (w, null_blk) else doalloc w size

  pub kfree : World S → Blk → Outcome (World S)
  unfolding dofree
  kfree w mem = if mem.ptr == 0 then ok w else dofree w mem

  -- The copy and the release at the end of `krealloc`, once a new block is there.
  pub move_to : Blk → World S × Blk → Outcome (World S × Blk)
  unfolding dofree
  move_to mem (w, blk) =
      let copied : World S = record {
        self = w.self;
        memory = memcpy w.memory blk.ptr mem.ptr mem.size;
      } in
      if blk.ptr == 0 then ok (w, null_blk) else (dofree copied mem >>= λ w'. ok (w', blk))

  pub krealloc : World S → Blk → ℕ → Outcome (World S × Blk)
  unfolding doalloc kfree move_to
  krealloc w mem size =
      if size == 0
      then (kfree w mem >>= λ w'. ok (w', null_blk))
      else if mem.ptr == 0
      then doalloc w size
      else elim vtbl.realloc [ some f ↦ f w mem size | none ↦ doalloc w size >>= move_to mem ]
