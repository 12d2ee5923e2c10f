-- ===== src/Mmu/Grow.antt =====
-- A table that is added below an entry: `allocate` and the first half of `node_callback_reserve`.
use ukulele.Base.{
  ℕ, ◌+◌, ◌≤◌, ◌<◌, ◌≡◌, inl, inr, refl, sym, ap, ◌∙◌, arith, true, false, Bool-cases, Outcome,
  ◌==◌, ==_iff, Returns, returns, Returns-bind,
}
use ukulele.Mmu.{
  Mmu, clear_page, NodeCommandLoc, entry_address, is_present, phys_address, allocate, ensure,
}
use ukulele.Mmu.Blocks.{loc_at, table_index}
use ukulele.Mmu.Path.{slot}
use ukulele.Mmu.Tree.{IsTable, IsTree, translation, Given, IsSource}
use ukulele.Mmu.Reserve.{
  link_table, level_with, linked-phys, linked-present, linked-IsTree, linked-translation,
  linked-other, level_linked-table, table_index-lt,
}

-- The tables from one at a depth down to the last one for an address.
pub data Leads (word : ℕ → ℕ) (v : ℕ) : ℕ → ℕ → ℕ → Type 0 where
  bottom : {depth t b : ℕ} → depth ≡ 3 → t ≡ b → Leads word v depth t b
  down :
      {depth t b : ℕ}
      → depth < 3
      → is_present (word (slot t depth v)) ≡ true
      → Leads word v (depth + 1) (phys_address (word (slot t depth v))) b
      → Leads word v depth t b

module _ {P : Type 0} {allocate_page : P → Outcome (P × ℕ)} {free_page : P → ℕ → Outcome P}
    {ready : P → Type 0} {count : P → ℕ} {fresh held : P → ℕ → Type 0}
    (source : IsSource allocate_page free_page ready count fresh held) (root : ℕ) where
  -- The tables are a tree, the allocator is in order, and no table is free in it.
  pub record Kept (level : ℕ → ℕ) (s : Mmu P) : Type 0 where
    pub tree : IsTree level s.word root
    pub in_order : ready s.pmm
    pub not_free : (q : ℕ) → fresh s.pmm q → 3 < level q

  -- Every table below the root comes from the allocator.
  unfoldable pub Owned : (ℕ → ℕ) → Mmu P → Type 0
  Owned level s = (x : ℕ) → IsTable level x → 0 < level x → held s.pmm x

  -- Tables have been added for which `k` pages are enough; nothing else has changed.
  pub record Grown (level : ℕ → ℕ) (s s' : Mmu P) (k : ℕ) : Type 0 where
    pub level' : ℕ → ℕ
    pub kept : Kept level' s'
    pub old_tables : (x : ℕ) → IsTable level x → level' x ≡ level x
    pub counted : count s.pmm ≤ count s'.pmm + k
    pub owned : Owned level s → Owned level' s'
    pub same :
        (n x depth v : ℕ)
        → depth + n ≡ 4
        → (depth ≤ 3 → level x ≡ depth)
        → translation n s'.word x depth v ≡ translation n s.word x depth v
    pub old_entries :
        (x j : ℕ)
        → IsTable level x
        → j < 512
        → is_present (s.word (entry_address x j)) ≡ true
        → s'.word (entry_address x j) ≡ s.word (entry_address x j)

  Grown-refl : (level : ℕ → ℕ) (s : Mmu P) (k : ℕ) → Kept level s → Grown level s s k
  Grown-refl level s k h = record {
    level' = level;
    kept = h;
    old_tables = λ x t. refl;
    counted = omega arith;
    owned = λ o. o;
    same = λ n x depth v e l. refl;
    old_entries = λ x j t l on. refl;
  }

  pub Grown-trans :
      (level : ℕ → ℕ) (s s' s'' : Mmu P) (k k' : ℕ) (g : Grown level s s' k)
      → Grown g.level' s' s'' k'
      → Grown level s s'' (k + k')
  Grown-trans level s s' s'' k k' g g' = record {
    level' = g'.level';
    kept = g'.kept;
    old_tables = λ x t. g'.old_tables x (omega (arith, g.old_tables x t, t)) ∙ g.old_tables x t;
    counted = omega (arith, g.counted, g'.counted);
    owned = λ o. g'.owned (g.owned o);
    same = λ n x depth v e l.
        g'.same n x depth v e (λ h. g.old_tables x (omega (arith, l h, h)) ∙ l h)
        ∙ g.same n x depth v e l;
    old_entries = λ x j t l on.
        let first = g.old_entries x j t l on in
        g'.old_entries x j (omega (arith, g.old_tables x t, t)) l (ap is_present first ∙ on)
        ∙ first;
  }

  -- The table below the entry for `v` of the table `t`.
  pub record Ensured (level : ℕ → ℕ) (s : Mmu P) (t depth v end : ℕ) (out : Mmu P × NodeCommandLoc)
      : Type 0 where
    pub grown : Grown level s out.0 1
    pub present : is_present (out.0.word (slot t depth v)) ≡ true
    pub location : out.1 ≡ loc_at (phys_address (out.0.word (slot t depth v))) (depth + 1) v end

  allocate-Given :
      (s : Mmu P)
      → ready s.pmm
      → 0 < count s.pmm
      → Returns
          (λ out.
            Given ready count fresh held s.pmm (out.0.pmm, out.1)
            × (out.0.word ≡ clear_page s.word out.1))
          (allocate allocate_page s)
  unfolding allocate
  allocate-Given s r c = Returns-bind _ (source.allocates s.pmm r c) λ out g.
      let some_page : (out.1 == 0) ≡ false = ground (arith, g.not_null) in
      rw some_page (returns (g, refl))

  -- The new table is linked in.
  Grown-linked :
      (level : ℕ → ℕ) (s : Mmu P) (t i : ℕ) (pmm : P) (p : ℕ)
      → Kept level s
      → level t < 3
      → i < 512
      → is_present (s.word (entry_address t i)) ≡ false
      → Given ready count fresh held s.pmm (pmm, p)
      → Grown level s (record { word = link_table s.word (entry_address t i) p; pmm = pmm }) 1
  unfolding Owned
  Grown-linked level s t i pmm p h l k off g =
      let new = h.not_free p g.was_fresh in
      let table =
        level_linked-table level s.word root t i p h.tree l k off g.aligned g.bounded g.not_null
          new in
      record {
        level' = level_with level t p;
        kept = record {
          tree =
              linked-IsTree level s.word root t i p h.tree l k off g.aligned g.bounded g.not_null
                new;
          in_order = g.ready';
          not_free = λ q f.
              let before = g.fresh_before q f in
              let old = h.not_free q before.0 in let other = before.1 in ground (arith, old, other);
        };
        old_tables = table;
        counted = omega (arith, g.counted);
        owned = λ o x tx pos. elim (Bool-cases (x == p)) [
          | inl y ↦ let e = (==_iff x p).0 y in rw e g.held_page
          | inr n ↦ g.held_still x (o x (rw n at tx) (rw n at pos))
        ];
        same =
            linked-translation level s.word root t i p h.tree l k off g.aligned g.bounded g.not_null
              new;
        old_entries = λ x j tx kj on.
            linked-other level s.word root t i p h.tree l k off g.aligned g.bounded g.not_null new x
              j tx kj λ e. cc (sym on ∙ ap (λ (z : ℕ). is_present (s.word z)) e ∙ off);
      }

  pub ensure-Ensured :
      (level : ℕ → ℕ) (s : Mmu P) (t depth v end : ℕ)
      → Kept level s
      → level t ≡ depth
      → depth < 3
      → 0 < count s.pmm
      → Returns (Ensured level s t depth v end) (
          ensure allocate_page
            (loc_at (phys_address (s.word (slot t depth v))) (depth + 1) v end)
            (slot t depth v)
            s)
  unfolding ensure
  ensure-Ensured level s t depth v end h l d c =
      elim (Bool-cases (is_present (s.word (slot t depth v)))) [
        | inl on ↦
            rw on
              (returns (record { grown = Grown-refl level s 1 h; present = on; location = refl }))
        | inr off ↦ rw off (
            Returns-bind _ (allocate-Given s h.in_order c) λ out g.
              let new = h.not_free out.1 g.0.was_fresh in
              let l3 : level t < 3 = omega (arith, l, d) in
              let at_phys =
                linked-phys level s.word root t (table_index depth v) out.1 h.tree l3
                  (table_index-lt depth v) off g.0.aligned g.0.bounded g.0.not_null new in
              rw g.1 (
                returns (record {
                  grown =
                      Grown-linked level s t (table_index depth v) out.0.pmm out.1 h l3
                        (table_index-lt depth v) off g.0;
                  present =
                      linked-present level s.word root t (table_index depth v) out.1 h.tree l3
                        (table_index-lt depth v) off g.0.aligned g.0.bounded g.0.not_null new;
                  location = ap (λ (z : ℕ). loc_at z (depth + 1) v end) (sym at_phys);
                })))
      ]

  -- The child of an entry that is present.
  pub child-level :
      (level : ℕ → ℕ) (s : Mmu P) (t depth v : ℕ)
      → Kept level s
      → level t ≡ depth
      → depth < 3
      → is_present (s.word (slot t depth v)) ≡ true
      → level (phys_address (s.word (slot t depth v))) ≡ depth + 1
  child-level level s t depth v h l d on = omega (
    arith,
    h.tree.below t (table_index depth v) (omega (arith, l)) (table_index-lt depth v) on,
    l,
  )
