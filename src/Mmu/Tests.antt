-- ===== src/Mmu/Tests.antt =====
-- Runs of the page tables over the physical page allocator, and their theorems at concrete tables.
use ukulele.Base.{
  ℕ, zero, suc, ◌+◌, ◌*◌, ◌/◌, ◌%◌, ◌^◌, ◌≤◌, ◌≡◌, inl, inr, refl, sym, ap, ◌∙◌, arith, none, true,
  false, ◌==◌, ==_iff, if◌then◌else◌, Bool-cases, Outcome, ok, ◌>>=◌, Returns, returns, replicate,
}
use ukulele.Pmm.{Pmm, zero_entry, allocate_page, free_page, owns}
use ukulele.Pmm.Valid.{unmanaged, page_state, free_total}
use ukulele.Pmm.Tests.{low_memory, boot, boot-IsValid}
use ukulele.Mmu.{
  write, assign, remove, PageMapPart, MmuFlags, Mmu, convert_flags, remove_1, current_top,
}
use ukulele.Mmu.Words.{convert_flags_lem}
use ukulele.Mmu.Tree.{IsTable, IsTree, translation}
use ukulele.Mmu.Grow.{Kept, Owned}
use ukulele.Mmu.Assign.{IsMappable, lower, Assigned, assign_1_lem}
use ukulele.Mmu.Entry as Entry
use ukulele.Mmu.Entry.{AreMappable}
use ukulele.Mmu.Extend.{tables_below}
use ukulele.Mmu.Ranges.{RangeAssigned, assign_lem, remove-assign}
use ukulele.Mmu.Lookup.{lookup, found, lookup_lem}
use ukulele.Mmu.Faults.{remove_1-absent}
use ukulele.Mmu.Source.{IsReady, allocate_page-IsSource}

-- An empty top table at 4096, and 63 free pages.
abbrev pub bare : Mmu Pmm
bare = record { word = λ _. 0; pmm = boot }

abbrev pub only_root : ℕ → ℕ
only_root q = if q == 4096 then 0 else 4

abbrev top : PageMapPart
top = record { page = 0; depth = 0 }

abbrev writable : MmuFlags
writable = record { user = false; exec = false; write = true; cache_write_through = false }

rest-unmanaged : (n a : ℕ) → page_state (replicate n zero_entry) a ≡ unmanaged
unfolding page_state
rest-unmanaged zero a = refl
rest-unmanaged (suc n) a = rest-unmanaged n a

boot-IsReady : IsReady boot
unfolding page_state
boot-IsReady = record {
  valid = boot-IsValid;
  bounded = λ a m. elim (Bool-cases (owns low_memory a)) [
    | inl y ↦ ground (arith, y)
    | inr n ↦ absurd (m (rw n (rest-unmanaged 167 a)))
  ];
}

root-alone : (t : ℕ) → IsTable only_root t → t ≡ 4096
root-alone t h = ground (arith, h)

bare-IsTree : IsTree only_root bare.word 4096
bare-IsTree = record {
  at_root = refl;
  aligned = λ t h. omega (arith, root-alone t h);
  not_null = λ t h e. omega (arith, root-alone t h, e);
  below = λ t i h k on. cc;
  small = λ t i h k on. cc;
  unique = λ t i t' i' h h' k k' on on'. cc;
}

root-managed : page_state boot 4096 ≡ unmanaged
unfolding page_state
root-managed = refl

pub bare-Kept : Kept allocate_page-IsSource 4096 only_root bare
bare-Kept = record {
  tree = bare-IsTree;
  in_order = boot-IsReady;
  not_free = λ q f. elim (Bool-cases (q == 4096)) [
    | inl y ↦
        let e = (==_iff q 4096).0 y in
        absurd (cc (sym f.in_state ∙ ap (page_state boot) e ∙ root-managed))
    | inr n ↦ ground (arith, n)
  ];
}

bare-Owned : Owned allocate_page-IsSource 4096 only_root bare
unfolding Owned
bare-Owned x h k = absurd (ground (arith, root-alone x h, k))

pages_left : 3 ≤ free_total boot
unfolding free_total
pages_left = omega arith

code-IsMappable : IsMappable 0x400000
code-IsMappable = lower refl (omega arith)

bare-unmapped : translation 4 bare.word 4096 0 0x400000 ≡ none
unfolding translation
bare-unmapped = refl

is_top : current_top 4096 top ≡ record { page = 4096; depth = 0 }
unfolding current_top
is_top = refl

-- What a call that returns has returned.
result : {A : Type 0} {P : A → Type 0} {m : Outcome A} → Returns P m → (a : A) × P a
result (returns {a} h) = (a, h)

-- The tables after the page has been mapped.
mapped :
    (s : Mmu Pmm) × Assigned allocate_page-IsSource 4096 4096 top is_top only_root bare 0x400000
      0x200000
      (convert_flags writable)
      s
mapped = result (
    assign_1_lem allocate_page-IsSource 4096 4096 top is_top only_root bare writable 0x200000
      bare-Kept pages_left code-IsMappable refl (omega arith))

lookup_lem_example :
    lookup 4096 4 (record { page = 4096; depth = 0 }) 0x400000 mapped.0
    ≡ ok (found (translation 4 mapped.0.word 4096 0 0x400000))
lookup_lem_example = lookup_lem mapped.1.level' 4096 4096 mapped.0 mapped.1.kept.tree 0x400000

remove_1-absent_example :
    remove_1 allocate_page free_page 4096 top 0x400000 bare
    ≡ ok (record bare { word = write bare.word (8 * (0x400000 / 4096 % 512)) 0 })
remove_1-absent_example =
    remove_1-absent allocate_page free_page 4096 4096 top is_top refl bare code-IsMappable refl refl
      refl

-- Three pages, the first below 2 MiB and two above.
across-AreMappable : AreMappable 0x1ff000 0x3000
across-AreMappable = Entry.lower refl refl (omega arith) (omega arith)

enough_pages : tables_below 0 0x1ff000 (0x1ff000 + 0x3000) ≤ free_total boot
unfolding free_total
enough_pages = omega arith

abbrev AcrossAssigned : Mmu Pmm → Type 0
AcrossAssigned =
    RangeAssigned allocate_page-IsSource 4096 4096 top is_top only_root bare 0x1ff000 0x3000
      0x200000 (convert_flags writable)

assign_lem_example :
    Returns AcrossAssigned
      (assign allocate_page free_page 4096 top writable 0x1ff000 0x3000 0x200000 bare)
assign_lem_example =
    assign_lem allocate_page-IsSource 4096 4096 top is_top only_root bare writable 0x200000
      bare-Kept enough_pages across-AreMappable refl (omega arith)

nothing_mapped : (q : ℕ) → translation 4 bare.word 4096 0 q ≡ none
unfolding translation
nothing_mapped q = refl

remove-assign_example :
    Returns
      (λ s'. (w : ℕ) → translation 4 s'.word 4096 0 w ≡ translation 4 bare.word 4096 0 w)
      (assign allocate_page free_page 4096 top writable 0x1ff000 0x3000 0x200000 bare
        >>= remove allocate_page free_page 4096 top 0x1ff000 0x3000)
remove-assign_example =
    remove-assign allocate_page-IsSource 4096 4096 top is_top only_root bare writable 0x200000
      bare-Kept bare-Owned enough_pages across-AreMappable refl (omega arith)
      (λ q al ge lt. nothing_mapped q)

convert_flags_lem_example : convert_flags writable ≡ 1 + 2 + 0 + 0 + 2 ^ 63
convert_flags_lem_example = convert_flags_lem writable
