-- ===== src/Mmu/Same.antt =====
-- Memory outside the page tables changes: the translation of every address stays.
use ukulele.Base.{ℕ, zero, suc, ◌+◌, ◌≤◌, ◌<◌, ◌≡◌, refl, ◌∙◌, arith, Bool-cases, inl, inr}
use ukulele.Mmu.{entry_address, is_present, phys_address}
use ukulele.Mmu.Blocks.{table_index}
use ukulele.Mmu.Path.{slot}
use ukulele.Mmu.Reserve.{table_index-lt}
use ukulele.Mmu.Tree.{IsTable, IsTree, translation}

module _ (level word word' : ℕ → ℕ) (root : ℕ) (tree : IsTree level word root) where
  -- From a table on, the translation needs the entries of tables of its level and the next ones.
  pub translation-same :
      (n t depth v : ℕ)
      → ((x i : ℕ)
          → IsTable level x
          → depth ≤ level x
          → i < 512
          → word' (entry_address x i) ≡ word (entry_address x i))
      → n + depth ≡ 4
      → (depth < 4 → level t ≡ depth)
      → translation n word' t depth v ≡ translation n word t depth v
  unfolding translation
  translation-same zero t depth v same total l = refl
  translation-same (suc n) t depth v same total l =
      let at : level t ≡ depth = l (omega (arith, total)) in
      let i = table_index depth v in
      let e = same t i (omega (arith, at, total)) (omega (arith, at)) (table_index-lt depth v) in
      rw e (elim (Bool-cases (is_present (word (slot t depth v)))) [
        | inl on ↦ rw on (
            translation-same n (phys_address (word (slot t depth v))) (depth + 1) v
              (λ x j table deep k. same x j table (omega (arith, deep)) k) (omega (arith, total))
              λ shallow.
                tree.below t i (omega (arith, at, shallow)) (table_index-lt depth v) on
                ∙ omega (arith, at))
        | inr off ↦ rw off refl
      ])
