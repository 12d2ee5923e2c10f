-- ===== src/Kernel/Round.antt =====
-- One round of the loop of `print_meminfo`.
use ukulele.Base.{
  ℕ, ltb, ◌⊎◌, ◌+◌, ◌%◌, ◌^◌, max, ◌<◌, ◌≡◌, inl, inr, refl, arith, [], ◌∷◌, String, true, false,
  ◌==◌, ==_iff, if◌then◌else◌, Bool-cases, add64, Returns, returns, Returns-bind, subst,
}
use ukulele.Page.{page_size}
use ukulele.Libk.Str.{Memory}
use ukulele.Pmm.Valid.{claimed, IsValid}
use ukulele.Kernel.{MemmapEntry, MemInfo, meminfo_line, meminfo_entry, add_usable}
use ukulele.Kernel.Map.{
  bytes_of, largest_of, HasEntry, here, in_entry, Grown, Grown-none, add-Grown,
}

-- One round, up to its last test and to its end.
pub record Counted {W : Type 0} (usable : ℕ) (e : MemmapEntry) (i j : MemInfo W) : Type 0 where
  pub grown : Grown usable e i.pmm j.pmm
  pub free_memory :
      i.free_memory < 2 ^ 64 → j.free_memory ≡ (i.free_memory + bytes_of usable (e ∷ [])) % 2 ^ 64
  pub reclaimable : j.reclaimable ≡ i.reclaimable
  pub largest_size : j.largest_size ≡ max i.largest_size (largest_of usable (e ∷ []))
  pub largest_addr :
      ((j.largest_size ≡ i.largest_size) × (j.largest_addr ≡ i.largest_addr))
      ⊎ HasEntry usable j.largest_addr j.largest_size (e ∷ [])

pub record Round {W : Type 0} (usable bootloader_reclaimable : ℕ) (e : MemmapEntry)
    (i j : MemInfo W) : Type 0 where
  pub grown : Grown usable e i.pmm j.pmm
  pub free_memory :
      i.free_memory < 2 ^ 64 → j.free_memory ≡ (i.free_memory + bytes_of usable (e ∷ [])) % 2 ^ 64
  pub reclaimable :
      i.reclaimable < 2 ^ 64
      → j.reclaimable ≡ (i.reclaimable + bytes_of bootloader_reclaimable (e ∷ [])) % 2 ^ 64
  pub largest_size : j.largest_size ≡ max i.largest_size (largest_of usable (e ∷ []))
  pub largest_addr :
      ((j.largest_size ≡ i.largest_size) × (j.largest_addr ≡ i.largest_addr))
      ⊎ HasEntry usable j.largest_addr j.largest_size (e ∷ [])

module _ {W : Type 0} (m : Memory) (literal : String → ℕ) (beyond : ℕ → ℕ)
    (usable bootloader_reclaimable hhdm : ℕ) (aligned : hhdm % page_size ≡ 0) where
  add_usable-Counted :
      (i : MemInfo W) (e : MemmapEntry)
      → (e.type == usable) ≡ true
      → IsValid i.pmm
      → (e.base % page_size ≡ 0) × (e.base + e.length < 2 ^ 64)
      → ((a : ℕ) → in_entry usable e a ≡ true → claimed i.pmm a ≡ false)
      → Returns
          (Counted usable e i)
          (add_usable m literal beyond usable bootloader_reclaimable hhdm i e)
  unfolding add_usable bytes_of largest_of
  add_usable-Counted i e y v region fresh =
      let is_usable = (==_iff e.type usable).0 y in
      Returns-bind _
        (add-Grown hhdm aligned e v region.0 region.1 (λ a h. fresh a (ground (arith, y, h))))
        (λ out g. returns (record {
          grown = subst (λ t. Grown t e i.pmm out.0) is_usable g;
          free_memory = λ small. ground (arith, y);
          reclaimable = refl;
          largest_size = ground (arith, y);
          largest_addr = elim (Bool-cases (ltb i.largest_size e.length)) [
            | inl larger ↦ rw larger (inr (here is_usable refl refl))
            | inr smaller ↦ rw smaller (inl (refl, refl))
          ];
        }))

  Counted-none :
      (i : MemInfo W) (e : MemmapEntry)
      → (e.type == usable) ≡ false
      → IsValid i.pmm
      → Counted usable e i i
  unfolding bytes_of largest_of
  Counted-none i e n v = record {
    grown = Grown-none usable e i.pmm v n;
    free_memory = λ small. ground (arith, n, small);
    reclaimable = refl;
    largest_size = ground (arith, n);
    largest_addr = inl (refl, refl);
  }

  Round-end :
      (i j : MemInfo W) (e : MemmapEntry)
      → Counted usable e i j
      → Round usable bootloader_reclaimable e i (
          if e.type == bootloader_reclaimable
          then record j { reclaimable = add64 j.reclaimable e.length }
          else j)
  unfolding bytes_of
  Round-end i j e c = elim (Bool-cases (e.type == bootloader_reclaimable)) [
    | inl y ↦ rw y (record {
      grown = c.grown;
      free_memory = c.free_memory;
      reclaimable = λ small. ground (arith, y, c.reclaimable);
      largest_size = c.largest_size;
      largest_addr = c.largest_addr;
    })
    | inr n ↦ rw n (record {
      grown = c.grown;
      free_memory = c.free_memory;
      reclaimable = λ small. ground (arith, n, small, c.reclaimable);
      largest_size = c.largest_size;
      largest_addr = c.largest_addr;
    })
  ]

  -- The printed line changes the streams only.
  Round-line :
      (i j : MemInfo W) (e : MemmapEntry)
      → Round usable bootloader_reclaimable e (meminfo_line m literal beyond i e) j
      → Round usable bootloader_reclaimable e i j
  unfolding meminfo_line
  Round-line i j e r = record {
    grown = r.grown;
    free_memory = r.free_memory;
    reclaimable = r.reclaimable;
    largest_size = r.largest_size;
    largest_addr = r.largest_addr;
  }

  pub meminfo_entry-Round :
      (i : MemInfo W) (e : MemmapEntry)
      → IsValid i.pmm
      → (e.type ≡ usable → (e.base % page_size ≡ 0) × (e.base + e.length < 2 ^ 64))
      → ((a : ℕ) → in_entry usable e a ≡ true → claimed i.pmm a ≡ false)
      → Returns
          (Round usable bootloader_reclaimable e i)
          (meminfo_entry m literal beyond usable bootloader_reclaimable hhdm i e)
  unfolding meminfo_entry meminfo_line
  meminfo_entry-Round i e v region fresh =
      let line = meminfo_line m literal beyond i e in
      elim (Bool-cases (e.type == usable)) [
        | inl y ↦ rw y (
            Returns-bind _
              (add_usable-Counted line e y v (region ((==_iff e.type usable).0 y)) fresh)
              (λ j c. returns (Round-line i _ e (Round-end line j e c))))
        | inr n ↦
            rw n (returns (Round-line i _ e (Round-end line line e (Counted-none line e n v))))
      ]
