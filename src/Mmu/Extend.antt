-- ===== src/Mmu/Extend.antt =====
-- `node_callback_reserve` for a range: every table on the way to each of its pages is there.
use ukulele.Base.{
  ℕ, zero, suc, ◌+◌, ◌-◌, ◌/◌, ◌≤◌, ◌<◌, ◌≡◌, refl, ap, ◌∙◌, arith, ltb, inl, inr, Bool-cases,
  Outcome, Returns, returns, Returns-bind, Returns-mono,
}
use ukulele.Mmu.{
  Mmu, NodeCommandLoc, entry_address, is_present, phys_address, apply_nodes, node_reserve,
}
use ukulele.Mmu.Blocks.{loc_at, table_index}
use ukulele.Mmu.Path.{slot}
use ukulele.Mmu.Cut.{block, IsCut, InBlock, cutting, single}
use ukulele.Mmu.Walk.{
  Walk, last, next, Below, page, down, apply_nodes-Cutting, apply_nodes-Single, same_index,
}
use ukulele.Mmu.Tree.{IsSource}
use ukulele.Mmu.Reserve.{table_index-lt}
use ukulele.Mmu.Grow as Grow
use ukulele.Mmu.Grow.{Leads, Kept, Grown, Grown-trans, Ensured, ensure-Ensured, child-level}

-- The blocks that a range touches.
abbrev touched : ℕ → ℕ → ℕ → ℕ
touched depth start end = (end - 1) / block depth - start / block depth + 1

-- The tables below one at a depth for a range of pages.
abbrev pub tables_below : ℕ → ℕ → ℕ → ℕ
tables_below zero start end = touched 0 start end + (touched 1 start end + touched 2 start end)
tables_below (suc zero) start end = touched 1 start end + touched 2 start end
tables_below (suc (suc zero)) start end = touched 2 start end
tables_below (suc (suc (suc d))) start end = 0

tables_below-InBlock :
    (depth start end : ℕ)
    → depth < 3
    → InBlock depth start end
    → tables_below depth start end ≡ 1 + tables_below (depth + 1) start end
tables_below-InBlock zero start end d b = omega (arith, b)
tables_below-InBlock (suc zero) start end d b = omega (arith, b)
tables_below-InBlock (suc (suc zero)) start end d b = omega (arith, b)
tables_below-InBlock (suc (suc (suc n))) start end d b = absurd (omega arith)

tables_below-deep : (depth start end : ℕ) → 3 ≤ depth → tables_below depth start end ≡ 0
tables_below-deep zero start end h = absurd (omega arith)
tables_below-deep (suc zero) start end h = absurd (omega arith)
tables_below-deep (suc (suc zero)) start end h = absurd (omega arith)
tables_below-deep (suc (suc (suc d))) start end h = refl

tables_below-IsCut :
    (depth : ℕ) {start cut end : ℕ}
    → depth < 3
    → IsCut depth start cut end
    → tables_below depth start end
      ≡ 1 + tables_below (depth + 1) start cut + tables_below depth cut end
tables_below-IsCut zero d c = omega (arith, c.first, c.after_start, c.before_end, c.on_block)
tables_below-IsCut (suc zero) d c = omega (arith, c.first, c.after_start, c.before_end, c.on_block)
tables_below-IsCut (suc (suc zero)) d c =
    omega (arith, c.first, c.after_start, c.before_end, c.on_block)
tables_below-IsCut (suc (suc (suc n))) d c = absurd (omega arith)

module _ {P : Type 0} {allocate_page : P → Outcome (P × ℕ)} {free_page : P → ℕ → Outcome P}
    {ready : P → Type 0} {count : P → ℕ} {fresh held : P → ℕ → Type 0}
    (source : IsSource allocate_page free_page ready count fresh held) (root : ℕ) where
  Leads-Grown :
      {level : ℕ → ℕ} {s s' : Mmu P} {k : ℕ}
      → Kept source root level s
      → Grown source root level s s' k
      → {v depth t b : ℕ} → level t ≡ depth
      → Leads s.word v depth t b
      → Leads s'.word v depth t b
  Leads-Grown h g l (Grow.bottom e same) = Grow.bottom e same
  Leads-Grown {level} {s} h g {v} {depth} {t} l (Grow.down lt on below) =
      let i = table_index depth v in
      let at = g.old_entries t i (omega (arith, l, lt)) (table_index-lt depth v) on in
      let child = h.tree.below t i (omega (arith, l)) (table_index-lt depth v) on in
      Grow.down lt (ap is_present at ∙ on) (rw at (Leads-Grown h g (omega (arith, child, l)) below))

  -- The tables on the ways from `t` to the pages of the range are there.
  pub record Extended (level : ℕ → ℕ) (s : Mmu P) (t depth start end k : ℕ) (s' : Mmu P)
      : Type 0 where
    pub grown : Grown source root level s s' k
    pub ways : (v : ℕ) → start ≤ v → v < end → (b : ℕ) × Leads s'.word v depth t b

  Extended-trans :
      (level : ℕ → ℕ) (s s1 s2 : Mmu P) (t depth start cut end k k' : ℕ)
      → level t ≡ depth
      → depth ≤ 3
      → (x : Extended level s t depth start cut k s1)
      → Extended x.grown.level' s1 t depth cut end k' s2
      → Extended level s t depth start end (k + k') s2
  Extended-trans level s s1 s2 t depth start cut end k k' l d x y = record {
    grown = Grown-trans source root level s s1 s2 k k' x.grown y.grown;
    ways = λ v a z. elim (Bool-cases (ltb v cut)) [
      | inl before ↦
          let way = x.ways v a (ground (arith, before)) in
          let lt = x.grown.old_tables t (omega (arith, l, d)) ∙ l in
          (way.0, Leads-Grown x.grown.kept y.grown lt way.1)
      | inr after ↦ y.ways v (ground (arith, after)) z
    ];
  }

  -- The way through a table that is there, and on.
  Extended-below :
      (level : ℕ → ℕ) (s : Mmu P) (t depth start end k : ℕ)
      → level t ≡ depth
      → depth < 3
      → InBlock depth start end
      → (out : Mmu P × NodeCommandLoc) (en : Ensured source root level s t depth start end out)
        (s' : Mmu P)
      → Extended en.grown.level' out.0
          (phys_address (out.0.word (slot t depth start)))
          (depth + 1)
          start
          end
          k
          s'
      → Extended level s t depth start end (1 + k) s'
  Extended-below level s t depth start end k l d b out en s' x =
      let lt = en.grown.old_tables t (omega (arith, l, d)) ∙ l in
      let kept_entry =
        x.grown.old_entries t (table_index depth start) (omega (arith, lt, d))
          (table_index-lt depth start) en.present in
      record {
        grown = Grown-trans source root level s out.0 s' 1 k en.grown x.grown;
        ways = λ v a z.
            let same : slot t depth v ≡ slot t depth start =
              ap (λ (i : ℕ). entry_address t i) (same_index depth v (omega arith) b a z) in
            let way = x.ways v a z in
            (
              way.0,
              Grow.down d
                  (ap (λ (q : ℕ). is_present (s'.word q)) same
                    ∙ ap is_present kept_entry
                    ∙ en.present)
                  (rw (same, kept_entry) way.1),
            );
      }

  -- At the last level of tables there is nothing more to do.
  Extended-last :
      (level : ℕ → ℕ) (s : Mmu P) (t depth start end : ℕ)
      → depth < 3
      → 3 ≤ depth + 1
      → InBlock depth start end
      → (out : Mmu P × NodeCommandLoc) → Ensured source root level s t depth start end out
      → Extended level s t depth start end 1 out.0
  Extended-last level s t depth start end d last_level b out en = record {
    grown = en.grown;
    ways = λ v a z.
        let same : slot t depth v ≡ slot t depth start =
          ap (λ (i : ℕ). entry_address t i) (same_index depth v (omega arith) b a z) in
        (
          phys_address (out.0.word (slot t depth v)),
          Grow.down d (ap (λ (q : ℕ). is_present (out.0.word q)) same ∙ en.present)
              (Grow.bottom (omega arith) refl),
        );
  }

  mutual
    unfolding node_reserve

    pub Walk-Extended :
        {depth start end : ℕ} (fuel t : ℕ) (level : ℕ → ℕ) (s : Mmu P)
        → Walk depth start end
        → depth < 3
        → 3 ≤ depth + fuel
        → Kept source root level s
        → level t ≡ depth
        → tables_below depth start end ≤ count s.pmm
        → Returns
            (Extended level s t depth start end (tables_below depth start end))
            (apply_nodes (loc_at t depth start end) (node_reserve allocate_page fuel) s)
    Walk-Extended {depth} {start} {end} fuel t level s (last r b w) d f h l c =
        rw
          (
            apply_nodes-Single (node_reserve allocate_page fuel) t depth start end s
                (single t start end depth r b),
            tables_below-InBlock depth start end d b,
          )
          (below-Extended fuel t level s w d b f h l
            (rw (tables_below-InBlock depth start end d b) at c))
    Walk-Extended {depth} {start} {end} fuel t level s (next {cut = cut} r k w rest) d f h l c =
        let sum = tables_below-IsCut depth d k in
        rw
          (
            apply_nodes-Cutting (node_reserve allocate_page fuel) t depth start cut end
                (cutting t start cut end depth r k) s,
            sum,
          )
          (Returns-bind _ (below-Extended fuel t level s w d k.first f h l (omega (arith, c, sum)))
            λ s1 x.
              let lt = x.grown.old_tables t (omega (arith, l, d)) ∙ l in
              Returns-mono
                (Walk-Extended fuel t x.grown.level' s1 rest d f x.grown.kept lt
                  (omega (arith, c, sum, x.grown.counted)))
                λ s2 y. Extended-trans level s s1 s2 t depth start cut end _ _ l (omega arith) x y)

    pub below-Extended :
        {depth start end : ℕ} (fuel t : ℕ) (level : ℕ → ℕ) (s : Mmu P)
        → Below depth start end
        → depth < 3
        → InBlock depth start end
        → 3 ≤ depth + fuel
        → Kept source root level s
        → level t ≡ depth
        → 1 + tables_below (depth + 1) start end ≤ count s.pmm
        → Returns (Extended level s t depth start end (1 + tables_below (depth + 1) start end)) (
            node_reserve allocate_page fuel
              (loc_at (phys_address (s.word (slot t depth start))) (depth + 1) start end)
              (slot t depth start)
              s)
    below-Extended zero t level s w d b f h l c = absurd (omega arith)
    below-Extended (suc fuel) t level s (page three al size) d b f h l c = absurd (omega arith)
    below-Extended {depth} {start} {end} (suc fuel) t level s (down low w) d b f h l c =
        Returns-bind _
          (ensure-Ensured source root level s t depth start end h l low (omega (arith, c)))
          λ out en. elim (Bool-cases (ltb (depth + 1) 3)) [
            | inr stop ↦
                let none_left : 1 + tables_below (depth + 1) start end ≡ 1 =
                  ap (λ (n : ℕ). 1 + n)
                    (tables_below-deep (depth + 1) start end (ground (arith, stop))) in
                rw (en.location, stop, none_left)
                  (returns
                    (Extended-last level s t depth start end low (ground (arith, stop)) b out en))
            | inl go ↦
                let g = en.grown in
                let child = phys_address (out.0.word (slot t depth start)) in
                let lt = g.old_tables t (omega (arith, l, d)) ∙ l in
                let lc =
                  child-level source root g.level' out.0 t depth start g.kept lt low en.present in
                rw (en.location, go)
                  (Returns-mono
                    (Walk-Extended fuel child g.level' out.0 w (ground (arith, go)) (omega arith)
                      g.kept lc (omega (arith, g.counted, c)))
                    λ s' x. Extended-below level s t depth start end _ l low b out en s' x)
          ]
