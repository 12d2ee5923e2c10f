-- ===== src/Mmu/Sweep.antt =====
-- A table that has become empty is given back: the second half of `node_callback_gc`.
use ukulele.Base.{
  ℕ, ◌+◌, ◌*◌, ◌/◌, ltb, ◌≤◌, ◌<◌, ◌≡◌, ◌≢◌, ◌⊎◌, inl, inr, refl, sym, ap, ◌∙◌, arith, true, false,
  ◌==◌, ==_iff, Bool-cases, Outcome, Returns, returns, Returns-bind,
}
use ukulele.Mmu.{Mmu, entry_address, is_present, phys_address, write, any_present, release_if_empty}
use ukulele.Mmu.Blocks.{table_index}
use ukulele.Mmu.Path.{slot}
use ukulele.Mmu.Tree.{IsTable, translation, TakenBack, IsSource}
use ukulele.Mmu.Reserve.{entry_address-inj, table_index-lt}
use ukulele.Mmu.Grow.{Kept, Owned, child-level}
use ukulele.Mmu.Unlink.{level_without, cut-IsTree, cut-translation}

module _ {P : Type 0} {allocate_page : P → Outcome (P × ℕ)} {free_page : P → ℕ → Outcome P}
    {ready : P → Type 0} {count : P → ℕ} {fresh held : P → ℕ → Type 0}
    (source : IsSource allocate_page free_page ready count fresh held) (root : ℕ) where
  -- Empty tables of levels above `k` are given back; no address is translated otherwise.
  pub record Swept (level : ℕ → ℕ) (k : ℕ) (s s' : Mmu P) : Type 0 where
    pub level' : ℕ → ℕ
    pub kept : Kept source root level' s'
    pub owned : Owned source root level' s'
    pub counted : count s.pmm ≤ count s'.pmm
    pub upper_levels : (x : ℕ) → level x ≤ k → level' x ≡ level x
    pub upper_entries :
        (x i : ℕ) → level x < k → i < 512 → s'.word (entry_address x i) ≡ s.word (entry_address x i)
    pub outside : (q : ℕ) → 3 < level (q / 4096 * 4096) → s'.word q ≡ s.word q
    pub tables_left : (x : ℕ) → IsTable level' x → level' x ≡ level x
    pub same :
        (n x depth v : ℕ)
        → depth + n ≡ 4
        → (depth ≤ 3 → level' x ≡ depth)
        → translation n s'.word x depth v ≡ translation n s.word x depth v

  pub Swept-refl :
      (level : ℕ → ℕ) (k : ℕ) (s : Mmu P)
      → Kept source root level s
      → Owned source root level s
      → Swept level k s s
  Swept-refl level k s h o = record {
    level' = level;
    kept = h;
    owned = o;
    counted = omega arith;
    upper_levels = λ x l. refl;
    upper_entries = λ x i l j. refl;
    outside = λ q far. refl;
    tables_left = λ x tx. refl;
    same = λ n x depth v e l. refl;
  }

  module _ (level : ℕ → ℕ) (s : Mmu P) (t depth v : ℕ) (h : Kept source root level s)
      (o : Owned source root level s) (l : level t ≡ depth) (d : depth < 3)
      (on : is_present (s.word (slot t depth v)) ≡ true) where
    abbrev child : ℕ
    child = phys_address (s.word (slot t depth v))

    tables_left :
        (x : ℕ)
        → IsTable (level_without level child) x
        → (x ≢ child) × (level_without level child x ≡ level x)
    tables_left x h' = elim (Bool-cases (x == child)) [
      | inl y ↦ absurd (ground (arith, h', y))
      | inr n ↦ ((λ q. cc (sym n ∙ (==_iff x child).1 q)), rw n refl)
    ]

    not_free_left : (q : ℕ) → fresh s.pmm q ⊎ (q ≡ child) → 3 < level_without level child q
    not_free_left q (inl f) = let old = h.not_free q f in ground (arith, old)
    not_free_left q (inr e) = ground (arith, e)

    Swept-released :
        any_present s.word child 512 ≡ false
        → (pmm : P) → TakenBack ready count fresh held s.pmm child pmm
        → Swept level depth s (record { word = write s.word (slot t depth v) 0; pmm = pmm })
    unfolding Owned
    Swept-released empty pmm b =
        let i = table_index depth v in
        let low : level t < 3 = omega (arith, l, d) in
        let lc = child-level source root level s t depth v h l d on in
        let left = λ (x : ℕ) (tx : IsTable (level_without level child) x). tables_left x tx in
        record {
          level' = level_without level child;
          kept = record {
            tree = cut-IsTree level s.word root t i h.tree low (table_index-lt depth v) on empty;
            in_order = b.ready';
            not_free = λ q f. not_free_left q (b.fresh_before q f);
          };
          owned = λ x tx pos.
              let x_left = left x tx in
              b.held_still x (o x (omega (arith, tx, x_left.1)) (omega (arith, pos, x_left.1)))
                x_left.0;
          counted = omega (arith, b.counted);
          upper_levels = λ x lx.
              let ne : x ≢ child = λ q. omega (arith, lx, lc, ap level q) in ground (arith, ne);
          upper_entries = λ x j lx k.
              let ne : entry_address t i ≢ entry_address x j = λ q.
                let inj =
                  entry_address-inj t i x j (h.tree.aligned t (omega (arith, l, d)))
                    (h.tree.aligned x (omega (arith, lx, d))) (table_index-lt depth v) k q in
                omega (arith, lx, l, ap level inj.0) in
              ground (arith, ne);
          outside = λ q far.
              let ne : q / 4096 * 4096 ≢ t = λ e. omega (arith, far, low, ap level e) in
              let al = h.tree.aligned t (omega (arith, low)) in
              let index = table_index-lt depth v in
              let off : (slot t depth v == q) ≡ false = ground (arith, al, ne, index) in
              rw off refl;
          tables_left = λ x tx. (left x tx).1;
          same = λ n x depth' w e lx.
              cut-translation level s.word root t i h.tree low (table_index-lt depth v) on empty n x
                depth' w e λ dl. sym (left x (omega (arith, lx dl, dl))).1 ∙ lx dl;
        }

    -- The end of the callback: the table below the entry is given back if it is empty.
    pub release-Swept :
        Returns (Swept level depth s) (release_if_empty free_page child (slot t depth v) s)
    unfolding release_if_empty Owned
    release-Swept = elim (Bool-cases (any_present s.word child 512)) [
      | inl full ↦ rw full (returns (Swept-refl level depth s h o))
      | inr empty ↦
          let lc = child-level source root level s t depth v h l d on in
          let table : IsTable level child = omega (arith, lc, d) in
          rw empty (
            Returns-bind _
              (source.frees s.pmm child h.in_order (o child table (omega (arith, lc)))
                (h.tree.not_null child table))
              λ pmm b. returns (Swept-released empty pmm b))
    ]

  -- No page becomes a table.
  pub Swept-outside :
      (level : ℕ → ℕ) (k : ℕ) (s s' : Mmu P) (w : Swept level k s s') (x : ℕ)
      → 3 < level x
      → 3 < w.level' x
  Swept-outside level k s s' w x far = elim (Bool-cases (ltb 3 (w.level' x))) [
    | inl y ↦ ground (arith, y)
    | inr n ↦ absurd (omega (arith, far, w.tables_left x (ground (arith, n)), not_lt n))
  ]
    where
      not_lt : {a : ℕ} → ltb 3 a ≡ false → a ≤ 3
      not_lt h = ground (arith, h)

  pub Swept-trans :
      (level : ℕ → ℕ) (k : ℕ) (s s' s'' : Mmu P) (w : Swept level (k + 1) s s')
      → Swept w.level' k s' s''
      → Swept level k s s''
  Swept-trans level k s s' s'' w w' = record {
    level' = w'.level';
    kept = w'.kept;
    owned = w'.owned;
    counted = omega (arith, w.counted, w'.counted);
    upper_levels = λ x lx.
        let first = w.upper_levels x (omega arith) in
        w'.upper_levels x (omega (arith, first, lx)) ∙ first;
    upper_entries = λ x i lx j.
        let first = w.upper_levels x (omega (arith, lx)) in
        w'.upper_entries x i (omega (arith, first, lx)) j
        ∙ w.upper_entries x i (omega (arith, lx)) j;
    outside = λ q far.
        w'.outside q (Swept-outside level (k + 1) s s' w (q / 4096 * 4096) far) ∙ w.outside q far;
    tables_left =
        λ x tx. let last = w'.tables_left x tx in last ∙ w.tables_left x (omega (arith, last, tx));
    same = λ n x depth v e lx.
        w'.same n x depth v e lx
        ∙ w.same n x depth v e λ d. sym (w'.tables_left x (omega (arith, lx d, d))) ∙ lx d;
  }
