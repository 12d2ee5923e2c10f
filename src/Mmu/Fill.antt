-- ===== src/Mmu/Fill.antt =====
-- `node_callback_leaf` for a range of pages: the callback is called for each page, in order.
use ukulele.Base.{
  ℕ, zero, suc, ◌+◌, ◌%◌, ◌≤◌, ◌<◌, ◌≡◌, ap, arith, leb, true, false, Returns, returns,
  Returns-bind,
}
use ukulele.Mmu.{Mmu, entry_address, is_present, phys_address, apply_nodes, node_leaf}
use ukulele.Mmu.Blocks.{loc_at, table_index}
use ukulele.Mmu.Path.{slot}
use ukulele.Mmu.Cut.{InBlock, cutting, single}
use ukulele.Mmu.Walk.{
  Walk, last, next, Below, page, down, apply_nodes-Cutting, apply_nodes-Single, same_index,
}
use ukulele.Mmu.Tree.{IsTree}
use ukulele.Mmu.Reserve.{table_index-lt}
use ukulele.Mmu.Grow as Grow
use ukulele.Mmu.Grow.{Leads}

pub Leads-bottom : {word : ℕ → ℕ} {v depth t b : ℕ} → Leads word v depth t b → depth ≡ 3 → t ≡ b
Leads-bottom (Grow.bottom e same) h = same
Leads-bottom (Grow.down lt on below) h = absurd (omega arith)

pub Leads-present :
    {word : ℕ → ℕ} {v depth t b : ℕ}
    → Leads word v depth t b
    → depth < 3
    → is_present (word (slot t depth v)) ≡ true
Leads-present (Grow.bottom e same) h = absurd (omega arith)
Leads-present (Grow.down lt on below) h = on

pub Leads-below :
    {word : ℕ → ℕ} {v depth t b : ℕ}
    → Leads word v depth t b
    → depth < 3
    → Leads word v (depth + 1) (phys_address (word (slot t depth v))) b
Leads-below (Grow.bottom e same) h = absurd (omega arith)
Leads-below (Grow.down lt on below) h = below

module _ {P : Type 0} (level word : ℕ → ℕ) (root : ℕ) (tree : IsTree level word root)
    (end_table : ℕ → ℕ) (callback : ℕ → ℕ → Mmu P → Mmu P) (from to : ℕ)
    (Inv : ℕ → Mmu P → Type 0) where
  -- What holds with the pages before `p` done goes on to hold, and upper tables are as at first.
  pub record IsStep : Type 0 where
    pub upper :
        (p : ℕ) (s : Mmu P)
        → Inv p s
        → (x i : ℕ) → level x < 3
        → i < 512
        → s.word (entry_address x i) ≡ word (entry_address x i)
    pub step :
        (p : ℕ) (s : Mmu P)
        → p % 4096 ≡ 0
        → from ≤ p
        → p < to
        → Inv p s
        → Inv (p + 4096) (callback p (slot (end_table p) 3 p) s)

  module _ (is : IsStep) where
    -- The ways to the pages of a range lead through a table.
    unfoldable pub Through : ℕ → ℕ → ℕ → ℕ → Type 0
    Through depth t start end = (v : ℕ) → start ≤ v → v < end → Leads word v depth t (end_table v)

    mutual
      unfolding node_leaf Through

      pub Walk-Inv :
          {depth start end : ℕ} (fuel t : ℕ) (s : Mmu P)
          → Walk depth start end
          → 4 ≤ depth + fuel
          → level t ≡ depth
          → Through depth t start end
          → from ≤ start
          → end ≤ to
          → Inv start s
          → Returns (Inv end) (apply_nodes (loc_at t depth start end) (node_leaf fuel callback) s)
      Walk-Inv {depth} {start} {end} fuel t s (last r b w) f l through h k i =
          rw
            (apply_nodes-Single (node_leaf fuel callback) t depth start end s
              (single t start end depth r b))
            (below-Inv fuel t s w r.not_deep b r.not_empty f l through h k i)
      Walk-Inv {depth} {start} {end} fuel t s (next {cut = cut} r c w rest) f l through h k i =
          rw
            (apply_nodes-Cutting (node_leaf fuel callback) t depth start cut end
              (cutting t start cut end depth r c) s)
            (Returns-bind _
              (below-Inv fuel t s w r.not_deep c.first c.after_start f l
                (λ v a z. through v a (omega (arith, z, c.before_end))) h
                (omega (arith, k, c.before_end)) i)
              λ s' i'.
                Walk-Inv fuel t s' rest f l (λ v a z. through v (omega (arith, a, c.after_start)) z)
                  (omega (arith, h, c.after_start)) k i')

      pub below-Inv :
          {depth start end : ℕ} (fuel t : ℕ) (s : Mmu P)
          → Below depth start end
          → depth ≤ 3
          → InBlock depth start end
          → start < end
          → 4 ≤ depth + fuel
          → level t ≡ depth
          → Through depth t start end
          → from ≤ start
          → end ≤ to
          → Inv start s
          → Returns (Inv end) (
              node_leaf fuel callback
                (loc_at (phys_address (s.word (slot t depth start))) (depth + 1) start end)
                (slot t depth start)
                s)
      below-Inv zero t s w d b lt f l through h k i = absurd (omega arith)
      below-Inv {depth} {start} (suc fuel) t s (page three al size) d b lt f l through h k i =
          let stop : leb (depth + 1) 3 ≡ false = ground arith in
          let here = Leads-bottom (through start (omega arith) lt) three in
          rw (stop, size, three, here) (returns (is.step start s al h (omega arith) i))
      below-Inv {depth} {start} {end} (suc fuel) t s (down low w) d b lt f l through h k i =
          let go : leb (depth + 1) 3 ≡ true = ground arith in
          let in_table = table_index-lt depth start in
          let kept = is.upper start s i t (table_index depth start) (omega (arith, l)) in_table in
          let child = phys_address (word (slot t depth start)) in
          let level_child =
            tree.below t (table_index depth start) (omega (arith, l)) in_table
              (Leads-present (through start (omega arith) lt) low) in
          rw (go, kept)
            (Walk-Inv fuel child s w (omega arith) (omega (arith, level_child, l))
              (λ v a z.
                let same : slot t depth v ≡ slot t depth start =
                  ap (λ (x : ℕ). entry_address t x) (same_index depth v d b a z) in
                rw same at (Leads-below (through v a z) low))
              h k i)
