-- ===== src/Kernel/LowerHalf.antt =====
-- `clear_map_lower_half`: no address of the lower half is mapped any more.
use ukulele.Base.{
  ℕ, zero, suc, ◌+◌, ◌/◌, ◌%◌, ◌^◌, ◌≤◌, ◌<◌, ◌≡◌, ◌≢◌, refl, sym, ap, ◌∙◌, arith, none, true, leb,
  ltb, ◌&&◌, ◌==◌, ==_iff, if◌then◌else◌, Bool-cases, inl, inr, Outcome,
}
use ukulele.Mmu.{Mmu, entry_address, is_present, phys_address, write}
use ukulele.Mmu.Reserve.{entry_address-inj}
use ukulele.Mmu.Tree.{IsTable, IsTree, IsSource, translation}
use ukulele.Mmu.Grow.{Kept}
use ukulele.Mmu.Same.{translation-same}
use ukulele.Kernel.{clear_entries, clear_map_lower_half}

-- What the loop leaves at an entry of the table, and elsewhere.
clear_entries-entry :
    (n i pml4 j : ℕ) (word : ℕ → ℕ)
    → clear_entries n i pml4 word (entry_address pml4 j)
      ≡ (if leb i j && ltb j (i + n) then 0 else word (entry_address pml4 j))
unfolding clear_entries
clear_entries-entry zero i pml4 j word = ground arith
clear_entries-entry (suc n) i pml4 j word =
    let rest = clear_entries-entry n (i + 1) pml4 j (write word (entry_address pml4 i) 0) in
    ground (arith, rest)

clear_entries-other :
    (n i pml4 q : ℕ) (word : ℕ → ℕ)
    → ((j : ℕ) → i ≤ j → j < i + n → entry_address pml4 j ≢ q)
    → clear_entries n i pml4 word q ≡ word q
unfolding clear_entries
clear_entries-other zero i pml4 q word h = refl
clear_entries-other (suc n) i pml4 q word h =
    let here : write word (entry_address pml4 i) 0 q ≡ word q =
      let ne = h i (omega arith) (omega arith) in ground (arith, ne) in
    clear_entries-other n (i + 1) pml4 q (write word (entry_address pml4 i) 0)
      (λ j a z. h j (omega (arith, a)) (omega (arith, z)))
    ∙ here

module _ (level word : ℕ → ℕ) (root : ℕ) (tree : IsTree level word root) where
  abbrev cleared : ℕ → ℕ
  cleared = clear_entries 256 0 root word

  -- The entries of every table below the root are as they were.
  below_root :
      (t i : ℕ)
      → IsTable level t
      → t ≢ root
      → i < 512
      → cleared (entry_address t i) ≡ word (entry_address t i)
  below_root t i table ne k = clear_entries-other 256 0 root (entry_address t i) word λ j a z e.
      ne (
        sym
          (entry_address-inj root j t i (tree.aligned root (omega (arith, tree.at_root)))
            (tree.aligned t table) (omega (arith, z)) k e).0)

  -- An entry that is still present was there before.
  still :
      (t i : ℕ)
      → IsTable level t
      → i < 512
      → is_present (cleared (entry_address t i)) ≡ true
      → cleared (entry_address t i) ≡ word (entry_address t i)
  still t i table k on = elim (Bool-cases (t == root)) [
    | inl y ↦
        let e : t ≡ root = (==_iff t root).0 y in
        elim (Bool-cases (ltb i 256)) [
          | inl low ↦
              let z : cleared (entry_address t i) ≡ 0 =
                rw e (clear_entries-entry 256 0 root i word ∙ ground (arith, low)) in
              cc (sym on ∙ ap is_present z)
          | inr high ↦ rw e (clear_entries-entry 256 0 root i word ∙ ground (arith, high))
        ]
    | inr n ↦ below_root t i table (λ e. cc (sym n ∙ (==_iff t root).1 e)) k
  ]

  cleared-IsTree : IsTree level cleared root
  cleared-IsTree = record {
    at_root = tree.at_root;
    aligned = tree.aligned;
    not_null = tree.not_null;
    below = λ t i h k on.
        let e = still t i (omega (arith, h)) k on in
        ap (λ z. level (phys_address z)) e ∙ tree.below t i h k (sym (ap is_present e) ∙ on);
    small = λ t i h k on.
        let e = still t i (omega (arith, h)) k on in
        rw e (tree.small t i h k (sym (ap is_present e) ∙ on));
    unique = λ t i t' i' h h' k k' on on' q.
        let e = still t i (omega (arith, h)) k on in
        let e' = still t' i' (omega (arith, h')) k' on' in
        tree.unique t i t' i' h h' k k' (sym (ap is_present e) ∙ on) (sym (ap is_present e') ∙ on')
          (sym (ap phys_address e) ∙ q ∙ ap phys_address e');
  }

  translation-cleared :
      (v : ℕ)
      → translation 4 cleared root 0 v
        ≡ (if ltb (v / 2 ^ 39 % 512) 256 then none else translation 4 word root 0 v)
  unfolding translation
  translation-cleared v =
      let i = v / 2 ^ 39 % 512 in
      let top = clear_entries-entry 256 0 root i word in
      elim (Bool-cases (ltb i 256)) [
        | inl low ↦
            let e : cleared (entry_address root i) ≡ 0 = top ∙ ground (arith, low) in
            rw (e, low) refl
        | inr high ↦
            let e : cleared (entry_address root i) ≡ word (entry_address root i) =
              top ∙ ground (arith, high) in
            rw (e, high)
              (elim (Bool-cases (is_present (word (entry_address root i)))) [
                | inl on ↦ rw on (
                    translation-same level word cleared root tree 3
                      (phys_address (word (entry_address root i))) 1 v
                      (λ x j table deep k.
                        below_root x j table (λ q. omega (arith, deep, tree.at_root, ap level q)) k)
                      refl
                      λ shallow.
                        tree.below root i (omega (arith, tree.at_root)) (omega arith) on
                        ∙ omega (arith, tree.at_root))
                | inr off ↦ rw off refl
              ])
      ]

module _ {P : Type 0} {allocate_page : P → Outcome (P × ℕ)} {free_page : P → ℕ → Outcome P}
    {ready : P → Type 0} {count : P → ℕ} {fresh held : P → ℕ → Type 0}
    (source : IsSource allocate_page free_page ready count fresh held) where
  -- In page tables that make up a tree with the root in `cr3`, `clear_map_lower_half` leaves such
  -- a tree, over the same allocator. The addresses that one of the first 256 entries of the root
  -- stands for, the whole lower half among them, are not mapped, and every other address is
  -- translated as before.
  pub clear_map_lower_half_lem :
      (cr3 : ℕ) (level : ℕ → ℕ) (s : Mmu P)
      → Kept source cr3 level s
      → Kept source cr3 level (clear_map_lower_half cr3 s)
        × ((v : ℕ)
            → translation 4 (clear_map_lower_half cr3 s).word cr3 0 v
              ≡ (if ltb (v / 2 ^ 39 % 512) 256 then none else translation 4 s.word cr3 0 v))
  unfolding clear_map_lower_half
  clear_map_lower_half_lem cr3 level s h = (
    record {
      tree = cleared-IsTree level s.word cr3 h.tree;
      in_order = h.in_order;
      not_free = h.not_free;
    },
    translation-cleared level s.word cr3 h.tree,
  )
