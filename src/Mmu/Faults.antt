-- ===== src/Mmu/Faults.antt =====
-- Where the page tables go wrong: addresses that were never mapped.
use ukulele.Base.{
  ℕ, zero, suc, ap, ◌∙◌, ok, ◌/◌, ◌+◌, ◌-◌, ◌*◌, ◌%◌, ◌^◌, ◌≤◌, ◌<◌, ◌≡◌, refl, arith, true, leb,
  Outcome,
}
use ukulele.Mmu.{
  PageMapPart, Mmu, current_top, apply_nodes, node_leaf, node_gc, clear, remove, remove_1, levels,
  write,
}
use ukulele.Mmu.Blocks.{loc_at}
use ukulele.Mmu.Path.{slot}
use ukulele.Mmu.Cut.{IsRange, InBlock, Single, single}
use ukulele.Mmu.Walk.{apply_nodes-Single}
use ukulele.Mmu.Entry.{apply_nodes_entry-range}
use ukulele.Mmu.Assign.{IsMappable, IsMappable-aligned, IsMappable-lt, IsMappable-AreMappable}

-- A page of one table, at each depth.
module _ (t v : ℕ) (al : v % 4096 ≡ 0) (low : v < 2 ^ 64 - 2 ^ 39) where
  one_page-IsRange :
      (depth : ℕ) → depth ≤ 3 → IsRange depth v (v + 4096) × InBlock depth v (v + 4096)
  one_page-IsRange zero d = (
    record {
      not_deep = omega arith;
      not_empty = omega arith;
      below_top = omega arith;
      one_table = omega arith;
      start_aligned = al;
      end_aligned = omega arith;
    },
    omega arith,
  )
  one_page-IsRange (suc zero) d = (
    record {
      not_deep = omega arith;
      not_empty = omega arith;
      below_top = omega arith;
      one_table = omega arith;
      start_aligned = al;
      end_aligned = omega arith;
    },
    omega arith,
  )
  one_page-IsRange (suc (suc zero)) d = (
    record {
      not_deep = omega arith;
      not_empty = omega arith;
      below_top = omega arith;
      one_table = omega arith;
      start_aligned = al;
      end_aligned = omega arith;
    },
    omega arith,
  )
  one_page-IsRange (suc (suc (suc zero))) d = (
    record {
      not_deep = omega arith;
      not_empty = omega arith;
      below_top = omega arith;
      one_table = omega arith;
      start_aligned = al;
      end_aligned = omega arith;
    },
    omega arith,
  )
  one_page-IsRange (suc (suc (suc (suc n)))) d = absurd (omega arith)

  one_page : (depth : ℕ) → depth ≤ 3 → Single t depth v (v + 4096)
  one_page depth d = let r = one_page-IsRange depth d in single t v (v + 4096) depth r.0 r.1

module _ {P : Type 0} {v : ℕ} (m : IsMappable v) (s : Mmu P) where
  -- Below an entry that is 0 the walk goes on in the page at the physical address 0.
  deeper :
      (n t depth : ℕ)
      → depth < 3
      → s.word (slot t depth v) ≡ 0
      → apply_nodes (loc_at t depth v (v + 4096)) (node_leaf (suc n) clear) s
        ≡ apply_nodes (loc_at 0 (depth + 1) v (v + 4096)) (node_leaf n clear) s
  unfolding node_leaf
  deeper n t depth d h =
      let one = one_page t v (IsMappable-aligned m) (IsMappable-lt m) depth (omega (arith, d)) in
      let go : leb (depth + 1) 3 ≡ true = ground (arith, d) in
      rw (apply_nodes-Single (node_leaf (suc n) clear) t depth v (v + 4096) s one, h, go) refl

  -- The entry of the last level is cleared there.
  last_cleared :
      apply_nodes (loc_at 0 3 v (v + 4096)) (node_leaf 1 clear) s
      ≡ ok (record s { word = write s.word (slot 0 3 v) 0 })
  unfolding node_leaf clear
  last_cleared =
      let one = one_page 0 v (IsMappable-aligned m) (IsMappable-lt m) 3 (omega arith) in
      rw (apply_nodes-Single (node_leaf 1 clear) 0 3 v (v + 4096) s one) refl

module _ {P : Type 0} (allocate_page : P → Outcome (P × ℕ)) (free_page : P → ℕ → Outcome P)
    (cr3 root : ℕ) (top : PageMapPart)
    (is_top : current_top cr3 top ≡ record { page = root; depth = 0 }) (r : root % 4096 ≡ 0) where
  -- Where the entry of the top table for the page is 0, `mmu_remove_1` does not stop at it, but
  -- takes the physical page 0 for the next table. If that page has 0 at the address's indices of
  -- the next two levels, it is taken for these tables too, and `mmu_remove_1` sets the word of
  -- physical memory at 8 times the address's lowest index to 0. It returns, and nothing else
  -- changes. (The address is page-aligned, in the lower half and not its last page, or in the upper
  -- half and not in the last 512 GiB.)
  pub remove_1-absent :
      (s : Mmu P) {v : ℕ}
      → IsMappable v
      → s.word (slot root 0 v) ≡ 0
      → s.word (slot 0 1 v) ≡ 0
      → s.word (slot 0 2 v) ≡ 0
      → remove_1 allocate_page free_page cr3 top v s
        ≡ ok (record s { word = write s.word (8 * (v / 4096 % 512)) 0 })
  unfolding remove_1 remove node_gc
  remove_1-absent s {v} m h h1 h2 =
      let are = IsMappable-AreMappable m in
      let s' : Mmu P = record s { word = write s.word (slot 0 3 v) 0 } in
      let leaf = node_leaf levels clear in
      let gc = node_gc free_page levels in
      let walk =
        apply_nodes_entry-range {P = P} cr3 root top is_top r are leaf s
        ∙ deeper m s 3 root 0 (omega arith) h
        ∙ deeper m s 2 0 1 (omega arith) h1
        ∙ deeper m s 1 0 2 (omega arith) h2
        ∙ last_cleared m s in
      let absent : s'.word (slot root 0 v) ≡ 0 = ground (arith, h) in
      let one = one_page root v (IsMappable-aligned m) (IsMappable-lt m) 0 (omega arith) in
      let collect =
        apply_nodes_entry-range {P = P} cr3 root top is_top r are gc s'
        ∙ apply_nodes-Single gc root 0 v (v + 4096) s' one in
      let cleared_at : ℕ → Outcome (Mmu P) = λ a. ok (record s { word = write s.word a 0 }) in
      let place : slot 0 3 v ≡ 8 * (v / 4096 % 512) = omega arith in
      rw (walk, collect, absent) (ap cleared_at place)
