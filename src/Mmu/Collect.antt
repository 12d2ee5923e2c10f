-- ===== src/Mmu/Collect.antt =====
-- `node_callback_gc` for a range: tables that have become empty are given back.
use ukulele.Base.{
  ℕ, zero, suc, ◌+◌, ◌*◌, ◌/◌, ◌≤◌, ◌<◌, ◌≡◌, sym, ap, ◌∙◌, arith, ltb, true, inl, inr, Bool-cases,
  Outcome, Returns, returns, Returns-bind, Returns-mono,
}
use ukulele.Mmu.{Mmu, is_present, phys_address, apply_nodes, node_gc}
use ukulele.Mmu.Blocks.{loc_at, table_index}
use ukulele.Mmu.Path.{slot}
use ukulele.Mmu.Cut.{cutting, single}
use ukulele.Mmu.Walk.{Walk, last, next, Below, page, down, apply_nodes-Cutting, apply_nodes-Single}
use ukulele.Mmu.Tree.{IsSource}
use ukulele.Mmu.Reserve.{table_index-lt}
use ukulele.Mmu.Grow.{Kept, Owned, child-level}
use ukulele.Mmu.Sweep.{Swept, Swept-refl, Swept-trans, Swept-outside, release-Swept}

module _ {P : Type 0} {allocate_page : P → Outcome (P × ℕ)} {free_page : P → ℕ → Outcome P}
    {ready : P → Type 0} {count : P → ℕ} {fresh held : P → ℕ → Type 0}
    (source : IsSource allocate_page free_page ready count fresh held) (root : ℕ) where
  -- One block and then the others.
  Swept-then :
      (level : ℕ → ℕ) (k : ℕ) (s s' s'' : Mmu P) (w : Swept source root level k s s')
      → Swept source root w.level' k s' s''
      → Swept source root level k s s''
  Swept-then level k s s' s'' w w' = record {
    level' = w'.level';
    kept = w'.kept;
    owned = w'.owned;
    counted = omega (arith, w.counted, w'.counted);
    upper_levels = λ x lx.
        let first = w.upper_levels x lx in w'.upper_levels x (omega (arith, first, lx)) ∙ first;
    upper_entries = λ x i lx j.
        let first = w.upper_levels x (omega (arith, lx)) in
        w'.upper_entries x i (omega (arith, first, lx)) j ∙ w.upper_entries x i lx j;
    outside = λ q far.
        w'.outside q (Swept-outside source root level k s s' w (q / 4096 * 4096) far)
        ∙ w.outside q far;
    tables_left = λ x tx.
        let last_level = w'.tables_left x tx in
        last_level ∙ w.tables_left x (omega (arith, last_level, tx));
    same = λ n x depth v e lx.
        w'.same n x depth v e lx
        ∙ w.same n x depth v e λ d. sym (w'.tables_left x (omega (arith, lx d, d))) ∙ lx d;
  }

  mutual
    unfolding node_gc

    pub Walk-Swept :
        {depth start end : ℕ} (fuel t : ℕ) (level : ℕ → ℕ) (s : Mmu P)
        → Walk depth start end
        → depth < 3
        → 3 ≤ depth + fuel
        → Kept source root level s
        → Owned source root level s
        → level t ≡ depth
        → Returns
            (Swept source root level depth s)
            (apply_nodes (loc_at t depth start end) (node_gc free_page fuel) s)
    Walk-Swept {depth} {start} {end} fuel t level s (last r b w) d f h o l =
        rw
          (apply_nodes-Single (node_gc free_page fuel) t depth start end s
            (single t start end depth r b))
          (below-Swept fuel t level s w d f h o l)
    Walk-Swept {depth} {start} {end} fuel t level s (next {cut = cut} r k w rest) d f h o l =
        rw
          (apply_nodes-Cutting (node_gc free_page fuel) t depth start cut end
            (cutting t start cut end depth r k) s)
          (Returns-bind _ (below-Swept fuel t level s w d f h o l) λ s1 x.
            let lt = x.upper_levels t (omega (arith, l)) ∙ l in
            Returns-mono (Walk-Swept fuel t x.level' s1 rest d f x.kept x.owned lt)
              λ s2 y. Swept-then level depth s s1 s2 x y)

    pub below-Swept :
        {depth start end : ℕ} (fuel t : ℕ) (level : ℕ → ℕ) (s : Mmu P)
        → Below depth start end
        → depth < 3
        → 3 ≤ depth + fuel
        → Kept source root level s
        → Owned source root level s
        → level t ≡ depth
        → Returns (Swept source root level depth s) (
            node_gc free_page fuel
              (loc_at (phys_address (s.word (slot t depth start))) (depth + 1) start end)
              (slot t depth start)
              s)
    below-Swept zero t level s w d f h o l = absurd (omega arith)
    below-Swept (suc fuel) t level s (page three al size) d f h o l = absurd (omega arith)
    below-Swept {depth} {start} {end} (suc fuel) t level s (down low w) d f h o l =
        elim (Bool-cases (is_present (s.word (slot t depth start)))) [
          | inr off ↦ rw off (returns (Swept-refl source root level depth s h o))
          | inl on ↦
              let c = phys_address (s.word (slot t depth start)) in
              let lc = child-level source root level s t depth start h l low on in
              elim (Bool-cases (ltb (depth + 1) 3)) [
                | inr stop ↦
                    rw (on, stop) (release-Swept source root level s t depth start h o l low on)
                | inl go ↦
                    rw (on, go)
                      (Returns-bind _
                        (Walk-Swept fuel c level s w (ground (arith, go)) (omega arith) h o lc)
                        λ s' x.
                          let lt' : x.level' t ≡ depth = x.upper_levels t (omega (arith, l)) ∙ l in
                          let same_entry : s'.word (slot t depth start)
                              ≡ s.word (slot t depth start) =
                            x.upper_entries t (table_index depth start) (omega (arith, l))
                              (table_index-lt depth start) in
                          let on' : is_present (s'.word (slot t depth start)) ≡ true =
                            ap is_present same_entry ∙ on in
                          let released =
                            release-Swept source root x.level' s' t depth start x.kept x.owned lt'
                              low on' in
                          Returns-mono (rw same_entry at released)
                            λ s'' y. Swept-trans source root level depth s s' s'' x y)
              ]
        ]
