-- ===== src/Kernel/Meminfo.antt =====
-- `print_meminfo`: the page allocator that the memory map sets up.
use ukulele.Base.{
  ℕ, ◌⊎◌, ◌+◌, ◌%◌, ◌^◌, max, ◌<◌, ◌≡◌, ◌≢◌, inl, inr, refl, sym, ◌∙◌, arith, List, [], ◌∷◌, String,
  true, false, ==_iff, length, All, Bool-cases, Returns, returns, Returns-bind, Returns-mono,
}
use ukulele.Page.{page_size}
use ukulele.Libk.Str.{Memory}
use ukulele.Libk.Stdio.{Io}
use ukulele.Libk.Printf.Print.{printf}
use ukulele.Pmm.Valid.{claimed, IsValid, unmanaged, used, page_state}
use ukulele.Pmm.Full.{IsFull}
use ukulele.Pmm.New.{IsEmpty, new-IsEmpty}
use ukulele.Kernel.{
  MemmapEntry, MemmapResponse, MemInfo, rounds, meminfo_loop, meminfo_end, print_meminfo,
}
use ukulele.Pmm.{Pmm, count_pages}
use ukulele.Kernel.Map.{
  bytes_of, largest_of, HasEntry, here, there, in_entry, in_map, AreRegions, IsCovered,
}
use ukulele.Kernel.Round.{Round, meminfo_entry-Round}

-- What the loop of `print_meminfo` makes of the entries `es`.
pub record Loaded {W : Type 0} (usable bootloader_reclaimable : ℕ) (es : List MemmapEntry)
    (i j : MemInfo W) : Type 0 where
  pub valid : IsValid j.pmm
  pub covered : All (λ e. e.type ≡ usable → IsCovered j.pmm e) es
  pub outside : (a : ℕ) → in_map usable es a ≡ false → page_state j.pmm a ≡ page_state i.pmm a
  pub inside : (a : ℕ) → in_map usable es a ≡ true → page_state j.pmm a ≢ used
  pub full_kept : IsFull i.pmm → IsFull j.pmm
  pub free_memory :
      i.free_memory < 2 ^ 64 → j.free_memory ≡ (i.free_memory + bytes_of usable es) % 2 ^ 64
  pub reclaimable :
      i.reclaimable < 2 ^ 64
      → j.reclaimable ≡ (i.reclaimable + bytes_of bootloader_reclaimable es) % 2 ^ 64
  pub largest_size : j.largest_size ≡ max i.largest_size (largest_of usable es)
  pub largest_addr :
      ((j.largest_size ≡ i.largest_size) × (j.largest_addr ≡ i.largest_addr))
      ⊎ HasEntry usable j.largest_addr j.largest_size es

-- The allocator that has been set up, and the lines that are printed at the end.
pub record IsSetUp {W : Type 0} (m : Memory) (usable bootloader_reclaimable : ℕ)
    (es : List MemmapEntry) (out : Io W × Pmm) : Type 0 where
  pub valid : IsValid out.1
  pub covered : All (λ e. e.type ≡ usable → IsCovered out.1 e) es
  pub outside : (a : ℕ) → in_map usable es a ≡ false → page_state out.1 a ≡ unmanaged
  pub inside : (a : ℕ) → page_state out.1 a ≢ used
  pub before : Io W
  pub largest_addr : ℕ
  pub at_largest :
      (largest_of usable es ≡ 0) ⊎ HasEntry usable largest_addr (largest_of usable es) es
  pub shown :
      out.0
      ≡ (printf m
          (printf m
            (printf m before "\n\tfree %zu reclaim %zu\n"
              (bytes_of usable es % 2 ^ 64 ∷ bytes_of bootloader_reclaimable es % 2 ^ 64 ∷ [])).0
            "\tlargest %zu at %zx\n"
            (largest_of usable es ∷ largest_addr ∷ [])).0
          "\tPMM total: %zu free: %zu used: %zu overhead: %zu\n"
          ((count_pages out.1).total
            ∷ (count_pages out.1).free
            ∷ (count_pages out.1).used
            ∷ (count_pages out.1).overhead
            ∷ [])).0

first_of :
    {usable : ℕ} {e : MemmapEntry} {es : List MemmapEntry} {base length base' length' : ℕ}
    → length' ≡ length
    → base' ≡ base
    → HasEntry usable base length (e ∷ [])
    → HasEntry usable base' length' (e ∷ es)
first_of l b (here t b' l') = here t (b' ∙ sym b) (l' ∙ sym l)
first_of l b (there x) = elim x [ ]

module _ {W : Type 0} (m : Memory) (literal : String → ℕ) (beyond : ℕ → ℕ)
    (usable bootloader_reclaimable hhdm : ℕ) (aligned : hhdm % page_size ≡ 0) where
  -- What was covered stays so while entries that do not overlap it are loaded.
  covered_still :
      (e : MemmapEntry) (es : List MemmapEntry) (j k : MemInfo W)
      → ((a : ℕ) → in_entry usable e a ≡ true → in_map usable es a ≡ false)
      → Loaded usable bootloader_reclaimable es j k
      → e.type ≡ usable
      → IsCovered j.pmm e
      → IsCovered k.pmm e
  covered_still e es j k apart l y c = record {
    done = c.done;
    within = c.within;
    state = λ a h.
        let w = c.within in
        let is_usable = (==_iff e.type usable).1 y in
        l.outside a (apart a (ground (arith, h, is_usable))) ∙ c.state a h;
    complete = elim c.complete [ inl small ↦ inl small | inr full ↦ inr (l.full_kept full) ];
  }

  Loaded-cons :
      (e : MemmapEntry) (es : List MemmapEntry) (i j k : MemInfo W)
      → ((a : ℕ) → in_entry usable e a ≡ true → in_map usable es a ≡ false)
      → Round usable bootloader_reclaimable e i j
      → Loaded usable bootloader_reclaimable es j k
      → Loaded usable bootloader_reclaimable (e ∷ es) i k
  unfolding in_map bytes_of largest_of
  Loaded-cons e es i j k apart r l = record {
    valid = l.valid;
    covered = (λ y. covered_still e es j k apart l y (r.grown.covered y), l.covered);
    outside = λ a h. l.outside a (ground (arith, h)) ∙ r.grown.other a (ground (arith, h));
    inside = λ a h. elim (Bool-cases (in_map usable es a)) [
      | inl later ↦ l.inside a later
      | inr n ↦ λ u. r.grown.inside a (ground (arith, h, n)) (sym (l.outside a n) ∙ u)
    ];
    full_kept = λ full. l.full_kept (r.grown.full_kept full);
    free_memory = λ small.
        let first = r.free_memory small in
        omega (arith, first, l.free_memory (omega (arith, first)));
    reclaimable = λ small.
        let first = r.reclaimable small in
        omega (arith, first, l.reclaimable (omega (arith, first)));
    largest_size = omega (arith, l.largest_size, r.largest_size);
    largest_addr = elim l.largest_addr [
      | inr later ↦ inr (there later)
      | inl same ↦ elim r.largest_addr [
        | inr first ↦ inr (first_of same.0 same.1 first)
        | inl before ↦ inl (same.0 ∙ before.0, same.1 ∙ before.1)
      ]
    ];
  }

  meminfo_loop-Loaded :
      (es : List MemmapEntry) (i : MemInfo W)
      → IsValid i.pmm
      → AreRegions usable es
      → ((a : ℕ) → in_map usable es a ≡ true → claimed i.pmm a ≡ false)
      → Returns
          (Loaded usable bootloader_reclaimable es i)
          (meminfo_loop m literal beyond usable bootloader_reclaimable hhdm (length es) es i)
  unfolding meminfo_loop in_map bytes_of largest_of
  meminfo_loop-Loaded [] i v regions fresh = returns (record {
    valid = v;
    covered = tt;
    outside = λ a h. refl;
    inside = λ a h. absurd (ground (arith, h));
    full_kept = λ full. full;
    free_memory = λ small. omega (arith, small);
    reclaimable = λ small. omega (arith, small);
    largest_size = omega arith;
    largest_addr = inl (refl, refl);
  })
  meminfo_loop-Loaded (e ∷ es) i v regions fresh =
      Returns-bind _
        (meminfo_entry-Round m literal beyond usable bootloader_reclaimable hhdm aligned i e v
          regions.0 (λ a h. fresh a (ground (arith, h))))
        (λ j r.
          Returns-mono
            (meminfo_loop-Loaded es j r.grown.valid regions.2 (λ a h.
              elim (Bool-cases (claimed j.pmm a)) [
                | inl c ↦ elim (r.grown.claims a c) [
                  | inl old ↦ absurd (cc (old, fresh a (ground (arith, h))))
                  | inr new_claim ↦ absurd (cc (h, regions.1 a new_claim))
                ]
                | inr c ↦ c
              ]))
            (λ k l. Loaded-cons e es i j k regions.1 r l))

  meminfo_end-IsSetUp :
      (es : List MemmapEntry) (start i : MemInfo W)
      → IsEmpty start.pmm
      → start.free_memory ≡ 0
      → start.reclaimable ≡ 0
      → start.largest_size ≡ 0
      → Loaded usable bootloader_reclaimable es start i
      → IsSetUp m usable bootloader_reclaimable es (meminfo_end m i)
  unfolding meminfo_end
  meminfo_end-IsSetUp es start i empty no_memory none_reclaimable no_size l =
      let free_sum : i.free_memory ≡ bytes_of usable es % 2 ^ 64 =
        omega (arith, no_memory, l.free_memory (omega (arith, no_memory))) in
      let reclaimable_sum : i.reclaimable ≡ bytes_of bootloader_reclaimable es % 2 ^ 64 =
        omega (arith, none_reclaimable, l.reclaimable (omega (arith, none_reclaimable))) in
      let size : i.largest_size ≡ largest_of usable es = omega (arith, no_size, l.largest_size) in
      record {
        valid = l.valid;
        covered = l.covered;
        outside = λ a h. l.outside a h ∙ empty.unmanaged a;
        inside = λ a. elim (Bool-cases (in_map usable es a)) [
          | inl y ↦ l.inside a y
          | inr n ↦ λ u. cc (sym (empty.unmanaged a) ∙ sym (l.outside a n) ∙ u)
        ];
        before = i.io;
        largest_addr = i.largest_addr;
        at_largest = elim l.largest_addr [
          | inl same ↦ inl (omega (arith, size, same.0, no_size))
          | inr found ↦ inr (rw size at found)
        ];
        shown = rw (free_sum, reclaimable_sum, size) refl;
      }

  -- The page-aligned control page `rwpmmpg`, and a response of fewer than 2 ^ 31 entries, of which
  -- the usable ones begin at a page, lie below 2 ^ 64 and do not overlap: `print_meminfo` returns,
  -- with an allocator that meets its invariant. It has taken in each usable entry, up to less than
  -- 64 pages of it or up to the point where all its own entries were in use: the first page of each
  -- 128 MiB is a control block and every other page is free. No page is in use, and no address
  -- outside the usable entries is managed. The last three lines are printed with these numbers: the
  -- sum of the lengths of the usable and that of the reclaimable entries, modulo 2 ^ 64; the largest
  -- length of a usable entry with the base of such an entry, or 0 with some number where there is
  -- none or all are empty; and the four counts of the resulting allocator.
  pub print_meminfo_lem :
      (rwpmmpg largest_addr : ℕ) (response : MemmapResponse) (io : Io W)
      → rwpmmpg % page_size ≡ 0
      → response.entry_count ≡ length response.entries
      → length response.entries < 2 ^ 31
      → AreRegions usable response.entries
      → Returns (IsSetUp m usable bootloader_reclaimable response.entries) (
          print_meminfo m literal beyond usable bootloader_reclaimable hhdm rwpmmpg largest_addr
            response io)
  unfolding print_meminfo
  print_meminfo_lem rwpmmpg largest_addr response io on_page count few regions =
      let all : rounds response.entry_count ≡ length response.entries =
        ground (arith, count, few) in
      rw all (
        Returns-bind _ (new-IsEmpty rwpmmpg on_page) λ pmm empty.
          Returns-bind _
            (meminfo_loop-Loaded response.entries _ empty.valid regions (λ a h. empty.unclaimed a))
            (λ i l. returns (meminfo_end-IsSetUp response.entries _ i empty refl refl refl l)))
