-- ===== src/Mmu/Ranges.antt =====
-- `mmu_assign` and `mmu_remove`: a range of pages is mapped or unmapped, and nothing else changes.
use ukulele.Base.{
  ℕ, ◌+◌, ◌-◌, ◌*◌, ◌/◌, ◌%◌, ◌^◌, ◌≤◌, ◌<◌, ◌≡◌, refl, sym, ◌∙◌, arith, none, some, true, bit_or,
  add64, sub64, leb, ltb, if◌then◌else◌, inl, inr, Bool-cases, Outcome, ◌>>=◌, Returns,
  Returns-bind, Returns-mono,
}
use ukulele.Page.{page_size}
use ukulele.Mmu.{
  PageMapPart, MmuFlags, Mmu, Visit, is_present, phys_address, convert_flags, current_top,
  node_reserve, node_leaf, node_gc, assign_linear, clear, write, assign, assign_1, remove, remove_1,
  levels,
}
use ukulele.Mmu.Words.{AreFlags, convert_flags-AreFlags, phys_address-bit_or, is_present-bit_or}
use ukulele.Mmu.Path.{slot}
use ukulele.Mmu.Cover.{walk}
use ukulele.Mmu.Entry.{AreMappable, AreMappable-IsRange, AreMappable-fits, apply_nodes_entry-range}
use ukulele.Mmu.Tree.{IsTable, translation, IsSource}
use ukulele.Mmu.Grow.{Leads, Kept, Owned}
use ukulele.Mmu.Leaf.{same_page, agree-same_page, translation-same_page}
use ukulele.Mmu.Change.{in_pages, page_of, Leads-upper, change-Returns}
use ukulele.Mmu.Extend.{Walk-Extended, tables_below}
use ukulele.Mmu.Collect.{Walk-Swept}
use ukulele.Mmu.Sweep.{Swept-outside}

-- A last table for every address, on the way where there is one.
total :
    (word : ℕ → ℕ) (root start end : ℕ)
    → ((v : ℕ) → start ≤ v → v < end → (b : ℕ) × Leads word v 0 root b)
    → (v : ℕ) → (b : ℕ) × (start ≤ v → v < end → Leads word v 0 root b)
total word root start end ways v = elim (Bool-cases (leb start v)) [
  | inr n ↦ (0, λ a z. absurd (ground (arith, n, a)))
  | inl y ↦ elim (Bool-cases (ltb v end)) [
    | inr n ↦ (0, λ a z. absurd (ground (arith, n, z)))
    | inl y' ↦ let way = ways v (ground (arith, y)) (ground (arith, y')) in (way.0, λ a z. way.1)
  ]
]

module _ {P : Type 0} {allocate_page : P → Outcome (P × ℕ)} {free_page : P → ℕ → Outcome P}
    {ready : P → Type 0} {count : P → ℕ} {fresh held : P → ℕ → Type 0}
    (source : IsSource allocate_page free_page ready count fresh held) (cr3 root : ℕ)
    (top : PageMapPart) (is_top : current_top cr3 top ≡ record { page = root; depth = 0 }) where
  -- The pages from `v` on are mapped to those from `page` on, and all else is as before.
  pub record RangeAssigned (level : ℕ → ℕ) (s : Mmu P) (v size page flags : ℕ) (s' : Mmu P)
      : Type 0 where
    pub level' : ℕ → ℕ
    pub kept : Kept source root level' s'
    pub old_tables : (x : ℕ) → IsTable level x → level' x ≡ level x
    pub counted : count s.pmm ≤ count s'.pmm + tables_below 0 v (v + size)
    pub owned : Owned source root level s → Owned source root level' s'
    pub ways : (q : ℕ) → v ≤ q → q < v + size → (b : ℕ) × Leads s'.word q 0 root b
    pub entries :
        (q : ℕ)
        → q % 4096 ≡ 0
        → v ≤ q
        → q < v + size
        → (b : ℕ) × Leads s'.word q 0 root b × (s'.word (slot b 3 q) ≡ bit_or (q - v + page) flags)
    pub maps :
        (w : ℕ)
        → translation 4 s'.word root 0 w ≡ (
            if in_pages v (v + size) w
            then some (page_of v w - v + page)
            else translation 4 s.word root 0 w)

  assigned-value :
      (page v flags p : ℕ)
      → AreFlags flags
      → page % 4096 ≡ 0
      → v % 4096 ≡ 0
      → p % 4096 ≡ 0
      → v ≤ p
      → p - v + page < 2 ^ 52
      → (if is_present (bit_or (p - v + page) flags)
          then some (phys_address (bit_or (p - v + page) flags))
          else none)
        ≡ some (p - v + page)
  assigned-value page v flags p fl al val pal le small =
      let on = is_present-bit_or (p - v + page) flags fl.set_present in
      let phys = phys_address-bit_or (p - v + page) flags (omega arith) small fl.no_address in
      rw (on, phys) refl

  assign_linear-eq :
      (page v flags p entry : ℕ) (s : Mmu P)
      → v ≤ p
      → p < 2 ^ 64
      → p - v + page < 2 ^ 64
      → assign_linear page v flags p entry s
        ≡ record s { word = write s.word entry (bit_or (p - v + page) flags) }
  unfolding assign_linear
  assign_linear-eq page v flags p entry s le lt small =
      let e : add64 (sub64 p v) page ≡ p - v + page = omega arith in rw e refl

  -- In page tables that make up a tree, with a page in the allocator for each table that the range
  -- touches, `mmu_assign` of a range of whole pages returns. (The range lies in the lower half and
  -- does not reach its end, or in the upper half below the last 512 GiB, and the physical pages lie
  -- below 2^52.) The pages of the range are mapped to the physical ones in order, every other
  -- address is translated as before, each entry has the given flags, the tables are still a tree, and
  -- no more than those pages have been taken.
  pub assign_lem :
      (level : ℕ → ℕ) (s : Mmu P) (flags : MmuFlags) (page : ℕ) {v size : ℕ}
      → Kept source root level s
      → tables_below 0 v (v + size) ≤ count s.pmm
      → AreMappable v size
      → page % 4096 ≡ 0
      → page + size ≤ 2 ^ 52
      → Returns
          (RangeAssigned level s v size page (convert_flags flags))
          (assign allocate_page free_page cr3 top flags v size page s)
  unfolding assign Owned
  assign_lem level s flags page {v} {size} h c m al small =
      let range = AreMappable-IsRange m in
      let root_al = h.tree.aligned root (omega (arith, h.tree.at_root)) in
      let blocks = walk 3 0 refl range in
      let enter = apply_nodes_entry-range {P = P} cr3 root top is_top root_al m in
      let leaf : Visit P = node_leaf levels (assign_linear page v (convert_flags flags)) in
      rw (enter (node_reserve allocate_page levels) s) (
        Returns-bind _
          (Walk-Extended source root levels root level s blocks (omega arith) (omega arith) h
            h.tree.at_root c)
          λ s1 x.
            let g = x.grown in
            let tables = total s1.word root v (v + size) x.ways in
            let root_level = g.old_tables root (omega (arith, h.tree.at_root)) ∙ h.tree.at_root in
            rw (enter leaf s1) (
              Returns-mono
                (change-Returns g.level' s1 root g.kept.tree (λ q. (tables q).0) v (v + size)
                  range.start_aligned range.end_aligned (AreMappable-fits m) (λ q. (tables q).1)
                  (λ p. bit_or (p - v + page) (convert_flags flags)) (λ p. some (p - v + page))
                  (assign_linear page v (convert_flags flags))
                  (λ p entry s' ge lt.
                    assign_linear-eq page v (convert_flags flags) p entry s' ge
                      (omega (arith, range.below_top)) (omega arith))
                  (λ p pal ge lt.
                    assigned-value page v (convert_flags flags) p (convert_flags-AreFlags flags) al
                      range.start_aligned pal ge (omega arith))
                  blocks)
                λ s2 d.
                  let way = λ (q : ℕ) (ge : v ≤ q) (lt : q < v + size).
                    Leads-upper g.level' s1.word s2.word root g.kept.tree d.upper_kept root_level
                      ((tables q).1 ge lt) in
                  record {
                    level' = g.level';
                    kept = record {
                      tree = d.tree_kept;
                      in_order = rw d.same_pmm g.kept.in_order;
                      not_free = rw d.same_pmm g.kept.not_free;
                    };
                    old_tables = g.old_tables;
                    counted = rw d.same_pmm g.counted;
                    owned = rw d.same_pmm g.owned;
                    ways = λ q ge lt. ((tables q).0, way q ge lt);
                    entries = λ q qal ge lt. ((tables q).0, way q ge lt, d.entries q qal ge lt);
                    maps = λ w. rw (g.same 4 root 0 w refl (λ e. h.tree.at_root)) at (d.maps w);
                  }))

  -- The pages from `v` on are not mapped, and all else is as before.
  pub record RangeRemoved (level word : ℕ → ℕ) (s : Mmu P) (v size : ℕ) (s' : Mmu P) : Type 0 where
    pub level' : ℕ → ℕ
    pub kept : Kept source root level' s'
    pub owned : Owned source root level' s'
    pub counted : count s.pmm ≤ count s'.pmm
    pub outside : (q : ℕ) → 3 < level (q / 4096 * 4096) → s'.word q ≡ s.word q
    pub level_kept : (x : ℕ) → 3 < level x → 3 < level' x
    pub maps :
        (w : ℕ)
        → translation 4 s'.word root 0 w
          ≡ (if in_pages v (v + size) w then none else translation 4 word root 0 w)

  pub remove_lem :
      (level : ℕ → ℕ) (s : Mmu P) {v size : ℕ}
      → Kept source root level s
      → Owned source root level s
      → ((q : ℕ) → v ≤ q → q < v + size → (b : ℕ) × Leads s.word q 0 root b)
      → AreMappable v size
      → Returns
          (RangeRemoved level s.word s v size)
          (remove allocate_page free_page cr3 top v size s)
  unfolding remove Owned clear
  remove_lem level s {v} {size} h o ways m =
      let range = AreMappable-IsRange m in
      let root_al = h.tree.aligned root (omega (arith, h.tree.at_root)) in
      let blocks = walk 3 0 refl range in
      let enter = apply_nodes_entry-range {P = P} cr3 root top is_top root_al m in
      let tables = total s.word root v (v + size) ways in
      let gc : Visit P = node_gc free_page levels in
      rw (enter (node_leaf levels clear) s) (
        Returns-bind _
          (change-Returns level s root h.tree (λ q. (tables q).0) v (v + size) range.start_aligned
            range.end_aligned (AreMappable-fits m) (λ q. (tables q).1) (λ p. 0) (λ p. none) clear
            (λ p entry s' ge lt. refl) (λ p pal ge lt. refl) blocks)
          λ s1 d.
            let kept : Kept source root level s1 = record {
              tree = d.tree_kept;
              in_order = rw d.same_pmm h.in_order;
              not_free = rw d.same_pmm h.not_free;
            } in
            rw (enter gc s1) (
              Returns-mono
                (Walk-Swept source root levels root level s1 blocks (omega arith) (omega arith) kept
                  (rw d.same_pmm o) h.tree.at_root)
                λ s2 w. record {
                  level' = w.level';
                  kept = w.kept;
                  owned = w.owned;
                  counted = rw d.same_pmm at w.counted;
                  outside = λ q far. w.outside q far ∙ d.outside q far;
                  level_kept = Swept-outside source root level 0 s1 s2 w;
                  maps = λ x. w.same 4 root 0 x refl (λ e. w.kept.tree.at_root) ∙ d.maps x;
                }))

  unmapped_before :
      (word : ℕ → ℕ) (v size w : ℕ)
      → AreMappable v size
      → ((q : ℕ) → q % 4096 ≡ 0 → v ≤ q → q < v + size → translation 4 word root 0 q ≡ none)
      → in_pages v (v + size) w ≡ true
      → translation 4 word root 0 w ≡ none
  unfolding in_pages same_page
  unmapped_before word v size w m none_before h =
      let range = AreMappable-IsRange m in
      let q = page_of v w in
      let al = range.start_aligned in
      let fits = AreMappable-fits m in
      let page : same_page q w ≡ true = ground (arith, h) in
      let whole : q % 4096 ≡ 0 = omega arith in
      let inside : q < v + size = ground (arith, h, range.end_aligned) in
      sym (translation-same_page 4 word root 0 q w (agree-same_page q w ∙ page))
      ∙ none_before q whole (omega arith) inside

  -- In such page tables, `mmu_assign` and then `mmu_remove` of a range none of whose pages was mapped
  -- return, and every address is translated as before the two calls. (The conditions on the range,
  -- the pages and the allocator are those of `mmu_assign`.)
  pub remove-assign :
      (level : ℕ → ℕ) (s : Mmu P) (flags : MmuFlags) (page : ℕ) {v size : ℕ}
      → Kept source root level s
      → Owned source root level s
      → tables_below 0 v (v + size) ≤ count s.pmm
      → AreMappable v size
      → page % 4096 ≡ 0
      → page + size ≤ 2 ^ 52
      → ((q : ℕ) → q % 4096 ≡ 0 → v ≤ q → q < v + size → translation 4 s.word root 0 q ≡ none)
      → Returns
          (λ s'. (w : ℕ) → translation 4 s'.word root 0 w ≡ translation 4 s.word root 0 w)
          (assign allocate_page free_page cr3 top flags v size page s
            >>= remove allocate_page free_page cr3 top v size)
  remove-assign level s flags page {v} {size} h o c m al small none_before =
      Returns-bind _ (assign_lem level s flags page h c m al small) λ s1 a.
        Returns-mono (remove_lem a.level' s1 a.kept (a.owned o) a.ways m) λ s2 r w.
          elim (Bool-cases (in_pages v (v + size) w)) [
            | inl y ↦ rw y at (r.maps w) ∙ sym (unmapped_before s.word v size w m none_before y)
            | inr n ↦ rw n at (r.maps w) ∙ rw n at (a.maps w)
          ]

  pub assign_1-assign :
      (flags : MmuFlags) (page v : ℕ) (s : Mmu P)
      → assign_1 allocate_page free_page cr3 top flags page v s
        ≡ assign allocate_page free_page cr3 top flags v page_size page s
  unfolding assign_1
  assign_1-assign flags page v s = refl

  pub remove_1-remove :
      (v : ℕ) (s : Mmu P)
      → remove_1 allocate_page free_page cr3 top v s
        ≡ remove allocate_page free_page cr3 top v page_size s
  unfolding remove_1
  remove_1-remove v s = refl

-- `mmu_top_page` is the table of `cr3`.
pub current_top-null :
    (cr3 : ℕ) → current_top cr3 (record { page = 0; depth = 0 }) ≡ record { page = cr3; depth = 0 }
unfolding current_top
current_top-null cr3 = refl
