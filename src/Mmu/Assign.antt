-- ===== src/Mmu/Assign.antt =====
-- `mmu_assign_1`: the page is mapped, and nothing else is mapped otherwise.
use ukulele.Base.{
  ℕ, ◌+◌, ◌-◌, ◌%◌, ◌^◌, ◌≤◌, ◌<◌, ◌≡◌, refl, ◌∙◌, arith, Option, some, true, inl, inr, Bool-cases,
  bit_or, if◌then◌else◌, Outcome, Returns, Returns-mono,
}
use ukulele.Mmu.{PageMapPart, MmuFlags, Mmu, convert_flags, current_top, assign_1}
use ukulele.Mmu.Path.{slot}
use ukulele.Mmu.Tree.{IsTable, translation, IsSource}
use ukulele.Mmu.Grow.{Leads, Kept, Owned}
use ukulele.Mmu.Leaf.{same_page}
use ukulele.Mmu.Change.{in_pages, page_of}
use ukulele.Mmu.Extend.{tables_below}
use ukulele.Mmu.Entry as Entry
use ukulele.Mmu.Entry.{AreMappable}
use ukulele.Mmu.Ranges.{assign_lem}

-- A page below the end of the lower half, or in the upper half below the last 512 GiB.
pub data IsMappable (v : ℕ) : Type 0 where
  lower : v % 4096 ≡ 0 → v + 4096 < 2 ^ 47 → IsMappable v
  upper : v % 4096 ≡ 0 → 2 ^ 64 - 2 ^ 47 ≤ v → v < 2 ^ 64 - 2 ^ 39 → IsMappable v

pub IsMappable-aligned : {v : ℕ} → IsMappable v → v % 4096 ≡ 0
IsMappable-aligned (lower al h) = al
IsMappable-aligned (upper al h k) = al

pub IsMappable-lt : {v : ℕ} → IsMappable v → v < 2 ^ 64 - 2 ^ 39
IsMappable-lt (lower al h) = omega arith
IsMappable-lt (upper al h k) = omega arith

pub IsMappable-AreMappable : {v : ℕ} → IsMappable v → AreMappable v 4096
IsMappable-AreMappable (lower al h) = Entry.lower al refl (omega arith) h
IsMappable-AreMappable (upper al h k) = Entry.upper al refl (omega arith) h (omega arith)

-- The range of one page is the page.
pub in_pages-same_page : (v w : ℕ) → v % 4096 ≡ 0 → in_pages v (v + 4096) w ≡ same_page v w
unfolding in_pages same_page
in_pages-same_page v w al = ground arith

pub page_of-same_page : (v w : ℕ) → same_page v w ≡ true → page_of v w ≡ v
unfolding same_page
page_of-same_page v w h = ground (arith, h)

one_page-choice :
    (v page w : ℕ) (old : Option ℕ)
    → (if same_page v w then some (page_of v w - v + page) else old)
      ≡ (if same_page v w then some page else old)
one_page-choice v page w old = elim (Bool-cases (same_page v w)) [
  | inr n ↦ rw n refl
  | inl y ↦
      let e : page_of v w - v + page ≡ page = omega (arith, page_of-same_page v w y) in
      rw (y, e) refl
]

one_page-tables : (v : ℕ) → v % 4096 ≡ 0 → tables_below 0 v (v + 4096) ≡ 3
one_page-tables v al = omega arith

module _ {P : Type 0} {allocate_page : P → Outcome (P × ℕ)} {free_page : P → ℕ → Outcome P}
    {ready : P → Type 0} {count : P → ℕ} {fresh held : P → ℕ → Type 0}
    (source : IsSource allocate_page free_page ready count fresh held) (cr3 root : ℕ)
    (top : PageMapPart) (is_top : current_top cr3 top ≡ record { page = root; depth = 0 }) where
  -- The page of `v` is mapped to `page` by the tables from `root` on, and all else as before.
  pub record Assigned (level : ℕ → ℕ) (s : Mmu P) (v page flags : ℕ) (s' : Mmu P) : Type 0 where
    pub level' : ℕ → ℕ
    pub kept : Kept source root level' s'
    pub old_tables : (x : ℕ) → IsTable level x → level' x ≡ level x
    pub counted : count s.pmm ≤ count s'.pmm + 3
    pub owned : Owned source root level s → Owned source root level' s'
    pub last : ℕ
    pub leads : Leads s'.word v 0 root last
    pub entry : s'.word (slot last 3 v) ≡ bit_or page flags
    pub maps :
        (w : ℕ)
        → translation 4 s'.word root 0 w
          ≡ (if same_page v w then some page else translation 4 s.word root 0 w)

  -- In page tables that make up a tree, with three pages left in the allocator, `mmu_assign_1` of a
  -- page to a page-aligned address returns, for an address that is in the lower half and not its
  -- last page, or in the upper half and not in the last 512 GiB. The address's page is mapped to
  -- the page with the given flags, every other address is translated as before, the tables are
  -- still a tree, and at most three pages have been taken.
  pub assign_1_lem :
      (level : ℕ → ℕ) (s : Mmu P) (flags : MmuFlags) (page : ℕ) {v : ℕ}
      → Kept source root level s
      → 3 ≤ count s.pmm
      → IsMappable v
      → page % 4096 ≡ 0
      → page < 2 ^ 52
      → Returns
          (Assigned level s v page (convert_flags flags))
          (assign_1 allocate_page free_page cr3 top flags page v s)
  unfolding assign_1
  assign_1_lem level s flags page {v} h c m al small =
      let v_al = IsMappable-aligned m in
      let tables = one_page-tables v v_al in
      Returns-mono
        (assign_lem source cr3 root top is_top level s flags page h (omega (arith, c, tables))
          (IsMappable-AreMappable m) al (omega arith))
        λ s' a.
          let e = a.entries v v_al (omega arith) (omega arith) in
          let first : v - v + page ≡ page = omega arith in
          record {
            level' = a.level';
            kept = a.kept;
            old_tables = a.old_tables;
            counted = omega (arith, a.counted, tables);
            owned = a.owned;
            last = e.0;
            leads = e.1;
            entry = rw first at e.2;
            maps = λ w. rw (in_pages-same_page v w v_al) at (a.maps w) ∙ one_page-choice v page w _;
          }
