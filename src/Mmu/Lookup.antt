-- ===== src/Mmu/Lookup.antt =====
-- `mmu_lookup_step`, step by step, finds the translation of an address.
use ukulele.Base.{
  ℕ, zero, suc, ◌+◌, ◌/◌, ◌^◌, ◌≤◌, ◌<◌, ◌≡◌, ◌≢◌, refl, sym, ◌∙◌, arith, Option, none, some, true,
  false, bit_and, ltb, ◌==◌, ==_iff, if◌then◌else◌, Bool-cases, inl, inr, Outcome, ok, ◌>>=◌,
}
use ukulele.Base.Bits.{bit_and_ones}
use ukulele.Page.{is_page_aligned_iff}
use ukulele.Mmu.{
  PageMapPart, Mmu, is_present, phys_address, reg_page_size, depth_shift_size, current_top,
  extract_page_map_index, lookup_step, depth_memory, depth_invalid,
}
use ukulele.Mmu.Blocks.{table_index}
use ukulele.Mmu.Path.{slot}
use ukulele.Mmu.Tree.{IsTable, IsTree, translation}
use ukulele.Mmu.Reserve.{table_index-lt}

-- Up to `n` steps, until memory is reached or the address is found not to be mapped.
pub lookup : {P : Type 0} → ℕ → ℕ → PageMapPart → ℕ → Mmu P → Outcome PageMapPart
lookup cr3 zero part v s = ok part
lookup cr3 (suc n) part v s =
    let next = lookup_step cr3 part v s >>= λ part'. lookup cr3 n part' v s in
    if ltb part.depth depth_memory then next else ok part

-- What the steps end with.
pub found : Option ℕ → PageMapPart
found none = record { page = 0; depth = depth_invalid }
found (some page) = record { page = page; depth = depth_memory }

index-eq :
    (page depth v : ℕ)
    → extract_page_map_index (record { page = page; depth = depth }) v ≡ table_index depth v
index-eq page depth v = bit_and_ones 9 (v / 2 ^ depth_shift_size depth)

top_itself :
    (cr3 t depth : ℕ)
    → t ≢ 0
    → current_top cr3 (record { page = t; depth = depth }) ≡ record { page = t; depth = depth }
unfolding current_top
top_itself cr3 t depth h = let ne : (t == 0) ≡ false = ground (arith, h) in rw ne refl

module _ {P : Type 0} (level : ℕ → ℕ) (root cr3 : ℕ) (s : Mmu P)
    (tree : IsTree level s.word root) where
  -- Large pages do not stand above the last level.
  last_level :
      (t depth v : ℕ)
      → level t ≡ depth
      → depth ≤ 3
      → is_present (s.word (slot t depth v)) ≡ true
      → (bit_and (s.word (slot t depth v)) reg_page_size == 0) ≡ false
      → depth ≡ 3
  last_level t depth v l d on large = elim (Bool-cases (ltb depth 3)) [
    | inl low ↦
        let low_level : level t < 3 = ground (arith, l, low) in
        let clear = tree.small t (table_index depth v) low_level (table_index-lt depth v) on in
        cc (sym large ∙ (==_iff (bit_and (s.word (slot t depth v)) reg_page_size) 0).1 clear)
    | inr high ↦ ground (arith, d, high)
  ]

  lookup-none :
      (n v : ℕ)
      → lookup cr3 n (record { page = 0; depth = depth_invalid }) v s
        ≡ ok (record { page = 0; depth = depth_invalid })
  unfolding lookup
  lookup-none zero v = refl
  lookup-none (suc n) v = refl

  -- One step from a table.
  step :
      (t depth v : ℕ)
      → level t ≡ depth
      → depth ≤ 3
      → lookup_step cr3 (record { page = t; depth = depth }) v s
        ≡ ok (
            if is_present (s.word (slot t depth v))
            then record { page = phys_address (s.word (slot t depth v)); depth = depth + 1 }
            else record { page = 0; depth = depth_invalid })
  unfolding lookup_step
  step t depth v l d =
      let table : IsTable level t = omega (arith, l, d) in
      let enter = top_itself cr3 t depth (tree.not_null t table) in
      let al = (is_page_aligned_iff t).1 (tree.aligned t table) in
      let shallow : ltb depth 4 ≡ true = ground arith in
      rw (enter, al, shallow, index-eq t depth v)
        (elim (Bool-cases (is_present (s.word (slot t depth v)))) [
          | inr off ↦ rw off refl
          | inl on ↦
              rw on (elim (Bool-cases (bit_and (s.word (slot t depth v)) reg_page_size == 0)) [
                | inl plain ↦ rw plain refl
                | inr large ↦
                    let at_last : depth ≡ 3 = last_level t depth v l d on large in
                    rw (large, at_last) refl
              ])
        ])

  -- From a table on the steps end with the translation.
  lookup-translation :
      (n t depth v : ℕ)
      → depth + n ≡ 4
      → (depth ≤ 3 → level t ≡ depth)
      → lookup cr3 n (record { page = t; depth = depth }) v s
        ≡ ok (found (translation n s.word t depth v))
  unfolding lookup translation found
  lookup-translation zero t depth v e h = let deep : depth ≡ 4 = omega arith in rw deep refl
  lookup-translation (suc n) t depth v e h =
      let l = h (omega arith) in
      let shallow : ltb depth 4 ≡ true = ground arith in
      rw (shallow, step t depth v l (omega arith))
        (elim (Bool-cases (is_present (s.word (slot t depth v)))) [
          | inr off ↦ rw off (lookup-none n v)
          | inl on ↦ rw on (
              lookup-translation n (phys_address (s.word (slot t depth v))) (depth + 1) v
                (omega arith)
                λ d. omega (
                  arith,
                  tree.below t (table_index depth v) (omega (arith, l)) (table_index-lt depth v) on,
                  l,
                ))
        ])

  -- In page tables that make up a tree, four calls of `mmu_lookup_step` from the top end with the
  -- page of an address, at the depth of memory, if the tables map it, and with the invalid depth
  -- otherwise; none of them panics.
  pub lookup_lem :
      (v : ℕ)
      → lookup cr3 4 (record { page = root; depth = 0 }) v s
        ≡ ok (found (translation 4 s.word root 0 v))
  lookup_lem v = lookup-translation 4 root 0 v refl λ d. tree.at_root
