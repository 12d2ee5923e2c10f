-- ===== src/Mmu/Remove.antt =====
-- `mmu_remove_1`: the page is mapped no longer, and nothing else is mapped otherwise.
use ukulele.Base.{
  ℕ, ◌^◌, ◌≤◌, ◌<◌, ◌≡◌, sym, ◌∙◌, ◌%◌, Bool-cases, inl, inr, none, if◌then◌else◌, Outcome, ◌>>=◌,
  Returns, Returns-bind, Returns-mono,
}
use ukulele.Mmu.{PageMapPart, MmuFlags, Mmu, current_top, assign_1, remove_1}
use ukulele.Mmu.Tree.{translation, IsSource}
use ukulele.Mmu.Grow.{Leads, Kept, Owned}
use ukulele.Mmu.Leaf.{same_page, agree-same_page, translation-same_page}
use ukulele.Mmu.Change.{Leads-page}
use ukulele.Mmu.Ranges.{remove_lem}
use ukulele.Mmu.Assign.{
  IsMappable, IsMappable-aligned, IsMappable-AreMappable, in_pages-same_page, assign_1_lem,
}

module _ {P : Type 0} {allocate_page : P → Outcome (P × ℕ)} {free_page : P → ℕ → Outcome P}
    {ready : P → Type 0} {count : P → ℕ} {fresh held : P → ℕ → Type 0}
    (source : IsSource allocate_page free_page ready count fresh held) (cr3 root : ℕ)
    (top : PageMapPart) (is_top : current_top cr3 top ≡ record { page = root; depth = 0 }) where
  -- The page of `v` is not mapped by the tables from `root` on, and all else is as before.
  pub record Removed (word : ℕ → ℕ) (s : Mmu P) (v : ℕ) (s' : Mmu P) : Type 0 where
    pub level' : ℕ → ℕ
    pub kept : Kept source root level' s'
    pub owned : Owned source root level' s'
    pub counted : count s.pmm ≤ count s'.pmm
    pub maps :
        (w : ℕ)
        → translation 4 s'.word root 0 w
          ≡ (if same_page v w then none else translation 4 word root 0 w)

  -- In page tables that make up a tree, all of whose tables but the root come from the allocator,
  -- `mmu_remove_1` of a page-aligned address for which every table is there returns, for an address
  -- that is in the lower half and not its last page, or in the upper half and not in the last
  -- 512 GiB. The address's page is not mapped any more, every other address is translated as before,
  -- the tables are still such a tree, and the allocator has no fewer pages.
  pub remove_1_lem :
      (level : ℕ → ℕ) (s : Mmu P) {v b : ℕ}
      → Kept source root level s
      → Owned source root level s
      → Leads s.word v 0 root b
      → IsMappable v
      → Returns (Removed s.word s v) (remove_1 allocate_page free_page cr3 top v s)
  unfolding remove_1
  remove_1_lem level s {v} {b} h o leads m =
      let al = IsMappable-aligned m in
      Returns-mono
        (remove_lem source cr3 root top is_top level s h o
          (λ q ge lt. (b, Leads-page q al ge lt leads)) (IsMappable-AreMappable m))
        λ s' r. record {
          level' = r.level';
          kept = r.kept;
          owned = r.owned;
          counted = r.counted;
          maps = λ w. rw (in_pages-same_page v w al) at (r.maps w);
        }

  -- In such page tables, with three pages left in the allocator, `mmu_assign_1` and then
  -- `mmu_remove_1` of an address that was not mapped return, and every address is translated as
  -- before the two calls. (The conditions on the address and the page are those of
  -- `mmu_assign_1`.)
  pub remove_1-assign_1 :
      (level : ℕ → ℕ) (s : Mmu P) (flags : MmuFlags) (page : ℕ) {v : ℕ}
      → Kept source root level s
      → Owned source root level s
      → 3 ≤ count s.pmm
      → IsMappable v
      → page % 4096 ≡ 0
      → page < 2 ^ 52
      → translation 4 s.word root 0 v ≡ none
      → Returns
          (λ s'. (w : ℕ) → translation 4 s'.word root 0 w ≡ translation 4 s.word root 0 w)
          (assign_1 allocate_page free_page cr3 top flags page v s
            >>= remove_1 allocate_page free_page cr3 top v)
  remove_1-assign_1 level s flags page {v} h o c m al small unmapped =
      Returns-bind _ (assign_1_lem source cr3 root top is_top level s flags page h c m al small)
        λ s1 a. Returns-mono (remove_1_lem a.level' s1 a.kept (a.owned o) a.leads m) λ s2 r w.
          elim (Bool-cases (same_page v w)) [
            | inl y ↦
                let none_before =
                  translation-same_page 4 s.word root 0 v w (agree-same_page v w ∙ y) in
                rw y at (r.maps w) ∙ sym unmapped ∙ none_before
            | inr n ↦ rw n at (r.maps w) ∙ rw n at (a.maps w)
          ]
