-- ===== src/Allocator/Realloc.antt =====
-- The fallback of `krealloc`: allocate, copy, free.
use ukulele.Base.{
  ℕ, ◌+◌, ◌-◌, ◌≤◌, ◌<◌, ◌≡◌, ◌≢◌, refl, ap, ◌∙◌, ◌⊎◌, none, arith, ok, Returns, returns,
  Returns-mono, ◌==◌, true, false,
}
use ukulele.Libk.Str.{Memory, memcpy}
use ukulele.Libk.Str.Copy.{inside, memcpy_lem}
use ukulele.Allocator.{Blk, null_blk, World, AllocatorVtbl, doalloc, dofree, move_to, krealloc}

-- What the copy into a block does to memory: the old bytes stand in it, all of them, and no other
-- byte changes.
pub record Copied (m m' : Memory) (mem blk : Blk) : Type 0 where
  pub bytes : (i : ℕ) → i < mem.size → m' (blk.ptr + i) ≡ m (mem.ptr + i)
  pub others : (q : ℕ) → inside blk.ptr mem.size q ≡ false → m' q ≡ m q

-- The bytes of the new block do not begin inside the old one.
abbrev pub Apart : Blk → Blk → Type 0
Apart mem blk = (blk.ptr ≤ mem.ptr) ⊎ (mem.ptr + mem.size ≤ blk.ptr)

Copied-memcpy :
    (m : Memory) (mem blk : Blk)
    → Apart mem blk
    → Copied m (memcpy m blk.ptr mem.ptr mem.size) mem blk
Copied-memcpy m mem blk apart = record {
  bytes = λ i h.
      let e : mem.ptr + (blk.ptr + i - blk.ptr) ≡ mem.ptr + i = omega arith in
      memcpy_lem m blk.ptr mem.ptr mem.size (blk.ptr + i) apart ∙ ground (arith, ap m e);
  others = λ q h. memcpy_lem m blk.ptr mem.ptr mem.size q apart ∙ rw h;
}

module _ {S : Type 0} (vtbl : AllocatorVtbl S) (no_realloc : vtbl.realloc ≡ none)
    (free_none : vtbl.free ≡ none) (w : World S) (mem : Blk) (size : ℕ) (some_size : size ≢ 0)
    (some_block : mem.ptr ≢ 0) (w' : World S) (blk : Blk)
    (allocated : doalloc vtbl w size ≡ ok (w', blk)) where
  krealloc-move_to : krealloc vtbl w mem size ≡ move_to vtbl mem (w', blk)
  unfolding krealloc
  krealloc-move_to =
      let e : (size == 0) ≡ false = ground arith in
      let e' : (mem.ptr == 0) ≡ false = ground arith in rw (e, e', no_realloc, allocated) refl

  -- With an allocator that has neither a `realloc` nor a `free` of its own, as the arena has
  -- neither, and whose `alloc` returns, `krealloc` of a block to a size other than 0 returns. If the
  -- new block is null, so is the result, and memory is as `alloc` left it. Otherwise, if the new
  -- block does not begin inside the old one, the result is the new block: it begins with all bytes
  -- of the old block, also where it is smaller, and no byte is written but the first `mem.size` from
  -- its start.
  pub krealloc_lem :
      ((blk.ptr ≡ 0) → krealloc vtbl w mem size ≡ ok (w', null_blk))
      × ((blk.ptr ≢ 0)
          → Apart mem blk
          → Returns
              (λ out.
                (out.1 ≡ blk) × (out.0.self ≡ w'.self) × Copied w'.memory out.0.memory mem blk)
              (krealloc vtbl w mem size))
  unfolding move_to dofree
  krealloc_lem = (
    λ null. let e : (blk.ptr == 0) ≡ true = ground (arith, null) in krealloc-move_to ∙ rw e refl,
    λ got apart.
        let e : (blk.ptr == 0) ≡ false = ground arith in
        rw krealloc-move_to
          (rw (e, free_none) (returns (refl, refl, Copied-memcpy w'.memory mem blk apart))),
  )

  -- Where the new block is smaller than the old one, it is overrun: the byte just behind it is
  -- overwritten with the old block's byte of that place.
  pub krealloc_overruns :
      blk.ptr ≢ 0
      → Apart mem blk
      → blk.size < mem.size
      → Returns
          (λ out. out.0.memory (blk.ptr + blk.size) ≡ w'.memory (mem.ptr + blk.size))
          (krealloc vtbl w mem size)
  krealloc_overruns got apart smaller =
      Returns-mono (krealloc_lem.1 got apart) (λ out moved. moved.2.bytes blk.size smaller)
