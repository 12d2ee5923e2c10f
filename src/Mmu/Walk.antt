-- ===== src/Mmu/Walk.antt =====
-- The walk over a range of several entries, entry by entry.
use ukulele.Base.{
  ℕ, zero, suc, ◌+◌, ◌-◌, ◌%◌, ◌^◌, ◌≤◌, ◌<◌, ◌≡◌, refl, sym, ap, ◌∙◌, arith, ltb, true, Outcome,
  ◌>>=◌,
}
use mathlib.Core.Path.{fun_ext}
use ukulele.Mmu.{
  NodeCommandLoc, Mmu, Visit, end_idx, child_loc, entry_address, phys_address, apply_loop,
  apply_nodes,
}
use ukulele.Mmu.Blocks.{loc_at, table_index}
use ukulele.Mmu.Path.{slot, loc_eq, child_loc-part, bind-ok}
use ukulele.Mmu.Cut.{IsRange, IsCut, InBlock, Cutting, Single}

child_loc-same :
    (t depth start cut end i entry : ℕ)
    → Cutting t depth start cut end
    → table_index depth start < i
    → i < end_idx (loc_at t depth start end)
    → child_loc (loc_at t depth start end) i entry ≡ child_loc (loc_at t depth cut end) i entry
child_loc-same t depth start cut end i entry c h k =
    let from = c.same_from i entry h k in
    let till = c.same_till i entry h k in
    let part =
      child_loc-part (loc_at t depth start end) i entry
      ∙ sym (child_loc-part (loc_at t depth cut end) i entry) in
    λ x. record { part = part x; start = from x; end = till x }

module _ {P : Type 0} (visit : Visit P) (t depth start cut end : ℕ)
    (c : Cutting t depth start cut end) where
  apply_loop-same :
      (n i : ℕ) (s : Mmu P)
      → table_index depth start < i
      → i + n ≤ end_idx (loc_at t depth start end)
      → apply_loop n i (loc_at t depth start end) visit s
        ≡ apply_loop n i (loc_at t depth cut end) visit s
  unfolding apply_loop
  apply_loop-same zero i s h k = refl
  apply_loop-same (suc n) i s h k =
      let entry = entry_address t i in
      let child = child_loc-same t depth start cut end i (s.word entry) c h (omega arith) in
      let rest = fun_ext (λ s'. apply_loop-same n (i + 1) s' (omega arith) (omega arith)) in
      ap
        (λ (l : NodeCommandLoc).
          visit l entry s >>= apply_loop n (i + 1) (loc_at t depth start end) visit)
        child
      ∙ ap
          (λ (f : Mmu P → Outcome (Mmu P)).
            visit (child_loc (loc_at t depth cut end) i (s.word entry)) entry s >>= f)
          rest

  tail :
      (s : Mmu P)
      → apply_nodes (loc_at t depth cut end) visit s
        ≡ apply_loop
            (end_idx (loc_at t depth start end) - (table_index depth start + 1))
            (table_index depth start + 1)
            (loc_at t depth cut end)
            visit
            s
  unfolding apply_nodes
  tail s =
      let small : ltb (end_idx (loc_at t depth start end)) (2 ^ 31) ≡ true = ground (arith, c.to) in
      rw (c.same_to, c.after, small) refl

  -- The first entry is visited, and then the rest of the range.
  pub apply_nodes-Cutting :
      (s : Mmu P)
      → apply_nodes (loc_at t depth start end) visit s ≡ (
          visit
            (loc_at (phys_address (s.word (slot t depth start))) (depth + 1) start cut)
            (slot t depth start)
            s
          >>= apply_nodes (loc_at t depth cut end) visit)
  unfolding apply_nodes apply_loop
  apply_nodes-Cutting s =
      let i = table_index depth start in
      let last = end_idx (loc_at t depth start end) in
      let entry = s.word (slot t depth start) in
      let small : ltb last (2 ^ 31) ≡ true = ground (arith, c.to) in
      let rounds : last - i ≡ suc (last - (i + 1)) = omega (arith, c.more) in
      let child : child_loc (loc_at t depth start end) i entry
          ≡ loc_at (phys_address entry) (depth + 1) start cut =
        loc_eq _ _ _ _ _ (child_loc-part (loc_at t depth start end) i entry) (c.child_from entry)
          (c.child_to entry) in
      rw (c.from, small, rounds, child)
        (ap
          (λ (f : Mmu P → Outcome (Mmu P)).
            visit (loc_at (phys_address entry) (depth + 1) start cut) (slot t depth start) s >>= f)
          (fun_ext λ s'.
            apply_loop-same (last - (i + 1)) (i + 1) s' (omega arith) (omega (arith, c.more))
            ∙ sym (tail s')))

module _ {P : Type 0} (visit : Visit P) (t depth start end : ℕ) where
  -- The only entry is visited.
  pub apply_nodes-Single :
      (s : Mmu P)
      → Single t depth start end
      → apply_nodes (loc_at t depth start end) visit s
        ≡ visit
            (loc_at (phys_address (s.word (slot t depth start))) (depth + 1) start end)
            (slot t depth start)
            s
  unfolding apply_nodes apply_loop
  apply_nodes-Single s o =
      let i = table_index depth start in
      let small : ltb (i + 1) (2 ^ 31) ≡ true = ground arith in
      let once : i + 1 - i ≡ suc zero = omega arith in
      let entry = s.word (slot t depth start) in
      let child : child_loc (loc_at t depth start end) i entry
          ≡ loc_at (phys_address entry) (depth + 1) start end =
        loc_eq _ _ _ _ _ (child_loc-part (loc_at t depth start end) i entry) (o.child_from entry)
          (o.child_to entry) in
      rw (o.from, o.to, small, once, child) (bind-ok _)

-- A range, block by block, and each block on the level below, down to the pages.
mutual
  pub data Walk : ℕ → ℕ → ℕ → Type 0 where
    last :
        {depth start end : ℕ}
        → IsRange depth start end
        → InBlock depth start end
        → Below depth start end
        → Walk depth start end
    next :
        {depth start cut end : ℕ}
        → IsRange depth start end
        → IsCut depth start cut end
        → Below depth start cut
        → Walk depth cut end
        → Walk depth start end

  pub data Below : ℕ → ℕ → ℕ → Type 0 where
    page :
        {depth start end : ℕ}
        → depth ≡ 3
        → start % 4096 ≡ 0
        → end ≡ start + 4096
        → Below depth start end
    down : {depth start end : ℕ} → depth < 3 → Walk (depth + 1) start end → Below depth start end

-- Addresses of one block have one entry.
pub same_index :
    (depth : ℕ) {start end : ℕ} (v : ℕ)
    → depth ≤ 3
    → InBlock depth start end
    → start ≤ v
    → v < end
    → table_index depth v ≡ table_index depth start
same_index zero v d b h k = omega (arith, b)
same_index (suc zero) v d b h k = omega (arith, b)
same_index (suc (suc zero)) v d b h k = omega (arith, b)
same_index (suc (suc (suc zero))) v d b h k = omega (arith, b)
same_index (suc (suc (suc (suc n)))) v d b h k = absurd (omega arith)
