-- ===== src/Mmu/Reserve.antt =====
-- A new table below an entry: the tree grows, and no address is translated otherwise.
use ukulele.Base.{
  ℕ, zero, suc, ◌+◌, ◌/◌, ◌%◌, ◌^◌, ◌≤◌, ◌<◌, ◌≡◌, ◌≢◌, inl, inr, refl, sym, ap, ◌∙◌, arith, none,
  true, false, ◌==◌, bit_and, bit_or, if◌then◌else◌, Bool-cases, ==_iff,
}
use ukulele.Mmu.{
  entry_address, is_present, phys_address, write, clear_page, pm_perms, reg_page_size,
}
use ukulele.Base.Bits.{bit_and_mask}
use ukulele.Mmu.Words.{phys_address-bit_or, is_present-bit_or}
use ukulele.Base.Bits.Step.{bit_or_step}
use ukulele.Mmu.Blocks.{table_index}
use ukulele.Mmu.Tree.{IsTable, IsTree, translation}

-- Two entries at the same address are the same entry of the same table.
pub entry_address-inj :
    (t i t' i' : ℕ)
    → t % 4096 ≡ 0
    → t' % 4096 ≡ 0
    → i < 512
    → i' < 512
    → entry_address t i ≡ entry_address t' i'
    → (t ≡ t') × (i ≡ i')
entry_address-inj t i t' i' al al' h h' e = omega arith

pub table_index-lt : (depth v : ℕ) → table_index depth v < 512
table_index-lt depth v = omega arith

-- The memory with an empty table at `p` that an entry leads to, and the levels.
abbrev pub link_table : (ℕ → ℕ) → ℕ → ℕ → ℕ → ℕ
link_table word entry p = write (clear_page word p) entry (bit_or p pm_perms)

abbrev pub level_with : (ℕ → ℕ) → ℕ → ℕ → ℕ → ℕ
level_with level t p x = if x == p then suc (level t) else level x

-- The new entry is not that of a large page.
page_size_clear : (p : ℕ) → p % 4096 ≡ 0 → bit_and (bit_or p pm_perms) reg_page_size ≡ 0
page_size_clear p h = omega (
  arith,
  bit_and_mask 7 8 (bit_or p pm_perms) (omega arith),
  bit_or_step p 7,
  bit_or_step (p / 2) 3,
  bit_or_step (p / 2 / 2) 1,
  bit_or_step (p / 2 / 2 / 2) 0,
  bit_or_step (p / 2 / 2 / 2 / 2) 0,
  bit_or_step (p / 2 / 2 / 2 / 2 / 2) 0,
  bit_or_step (p / 2 / 2 / 2 / 2 / 2 / 2) 0,
  bit_or_step (p / 2 / 2 / 2 / 2 / 2 / 2 / 2) 0,
)

module _ (level word : ℕ → ℕ) (root t i p : ℕ) (tree : IsTree level word root) (above : level t < 3)
    (in_table : i < 512) (absent : is_present (word (entry_address t i)) ≡ false)
    (p_aligned : p % 4096 ≡ 0) (p_small : p < 2 ^ 52) (p_not_null : p ≢ 0)
    (p_fresh : 3 < level p) where
  abbrev linked : ℕ → ℕ
  linked = link_table word (entry_address t i) p

  abbrev level_linked : ℕ → ℕ
  level_linked = level_with level t p

  apart : (x : ℕ) → IsTable level x → x ≢ p
  apart x h e = omega (arith, p_fresh, ap level e)

  linked-at : linked (entry_address t i) ≡ bit_or p pm_perms
  linked-at = ground arith

  linked-page : (j : ℕ) → j < 512 → linked (entry_address p j) ≡ 0
  linked-page j h =
      let ne = apart t (omega (arith, above)) in
      let al = tree.aligned t (omega (arith, above)) in ground (arith, ne, al, p_aligned, in_table)

  pub linked-other :
      (x j : ℕ)
      → IsTable level x
      → j < 512
      → entry_address x j ≢ entry_address t i
      → linked (entry_address x j) ≡ word (entry_address x j)
  linked-other x j h k ne =
      let off = apart x h in let al = tree.aligned x h in ground (arith, off, al, p_aligned)

  pub linked-phys : phys_address (linked (entry_address t i)) ≡ p
  linked-phys = ap phys_address linked-at ∙ phys_address-bit_or p pm_perms p_aligned p_small refl

  pub linked-present : is_present (linked (entry_address t i)) ≡ true
  linked-present = ap is_present linked-at ∙ is_present-bit_or p pm_perms refl

  pub linked-level : level_linked (phys_address (linked (entry_address t i))) ≡ suc (level t)
  linked-level = rw linked-phys (ground arith)

  -- An entry that is present now is the new one or an old one of another place.
  data Origin (x j : ℕ) : Type 0 where
    made : x ≡ t → j ≡ i → Origin x j
    old :
        IsTable level x
        → level_linked x ≡ level x
        → linked (entry_address x j) ≡ word (entry_address x j)
        → is_present (word (entry_address x j)) ≡ true
        → Origin x j

  origin :
      (x j : ℕ)
      → IsTable level_linked x
      → j < 512
      → is_present (linked (entry_address x j)) ≡ true
      → Origin x j
  origin x j h k on = elim (Bool-cases (x == p)) [
    | inl y ↦
        let e : x ≡ p = ground arith in
        let zero_entry : linked (entry_address x j) ≡ 0 =
          ap (λ (z : ℕ). linked (entry_address z j)) e ∙ linked-page j k in
        cc (sym on ∙ ap is_present zero_entry)
    | inr n ↦
        let same : level_linked x ≡ level x = rw n refl in
        let table : IsTable level x = omega (arith, h, same) in
        elim (Bool-cases (entry_address x j == entry_address t i)) [
          | inl y ↦
              let inj =
                entry_address-inj x j t i (tree.aligned x table)
                  (tree.aligned t (omega (arith, above))) k in_table (ground arith) in
              made inj.0 inj.1
          | inr m ↦
              let e = linked-other x j table k (λ z. ground arith) in
              old table same e (sym (ap is_present e) ∙ on)
        ]
  ]

  pub level_linked-table : (x : ℕ) → IsTable level x → level_linked x ≡ level x
  level_linked-table x h = let off = apart x h in ground (arith, off)

  t-IsTable : IsTable level t
  t-IsTable = omega (arith, above)

  old-phys :
      (x j : ℕ)
      → level x < 3
      → j < 512
      → is_present (word (entry_address x j)) ≡ true
      → phys_address (word (entry_address x j)) ≢ p
  old-phys x j h k on e = omega (arith, p_fresh, tree.below x j h k on, ap level e, h)

  old-level :
      (x j : ℕ)
      → level x < 3
      → j < 512
      → is_present (word (entry_address x j)) ≡ true
      → level_linked (phys_address (word (entry_address x j))) ≡ suc (level x)
  old-level x j h k on =
      level_linked-table (phys_address (word (entry_address x j)))
        (omega (arith, tree.below x j h k on, h))
      ∙ tree.below x j h k on

  linked-below :
      (x j : ℕ)
      → level_linked x < 3
      → j < 512
      → Origin x j
      → level_linked (phys_address (linked (entry_address x j))) ≡ suc (level_linked x)
  linked-below x j h k (made ex ej) =
      rw (ex, ej) (linked-level ∙ ap suc (sym (level_linked-table t t-IsTable)))
  linked-below x j h k (old table same e on) =
      ap (λ z. level_linked (phys_address z)) e
      ∙ old-level x j (omega (arith, h, same)) k on
      ∙ ap suc (sym same)

  linked-small :
      (x j : ℕ)
      → level_linked x < 3
      → j < 512
      → Origin x j
      → bit_and (linked (entry_address x j)) reg_page_size ≡ 0
  linked-small x j h k (made ex ej) = rw (ex, ej, linked-at) (page_size_clear p p_aligned)
  linked-small x j h k (old table same e on) =
      ap (λ (z : ℕ). bit_and z reg_page_size) e ∙ tree.small x j (omega (arith, h, same)) k on

  linked_unique :
      (x j x' j' : ℕ)
      → level_linked x < 3
      → level_linked x' < 3
      → j < 512
      → j' < 512
      → Origin x j
      → Origin x' j'
      → phys_address (linked (entry_address x j)) ≡ phys_address (linked (entry_address x' j'))
      → entry_address x j ≡ entry_address x' j'
  linked_unique x j x' j' h h' k k' (made ex ej) (made ex' ej') e = rw (ex, ej, ex', ej') refl
  linked_unique x j x' j' h h' k k' (made ex ej) (old table' same' e' on') e = absurd (
      old-phys x' j' (omega (arith, h', same')) k' on' (
        sym (ap phys_address e')
        ∙ sym e
        ∙ ap (λ (z : ℕ). phys_address (linked z)) (rw (ex, ej) refl)
        ∙ linked-phys))
  linked_unique x j x' j' h h' k k' (old table same e on) (made ex' ej') q = absurd (
      old-phys x j (omega (arith, h, same)) k on (
        sym (ap phys_address e)
        ∙ q
        ∙ ap (λ (z : ℕ). phys_address (linked z)) (rw (ex', ej') refl)
        ∙ linked-phys))
  linked_unique x j x' j' h h' k k' (old table same e on) (old table' same' e' on') q =
      tree.unique x j x' j' (omega (arith, h, same)) (omega (arith, h', same')) k k' on on'
        (sym (ap phys_address e) ∙ q ∙ ap phys_address e')

  -- The tables with the new one are a tree.
  pub linked-IsTree : IsTree level_linked linked root
  linked-IsTree = record {
    at_root = level_linked-table root (omega (arith, tree.at_root)) ∙ tree.at_root;
    aligned = λ x h. elim (Bool-cases (x == p)) [
      | inl y ↦ omega (arith, p_aligned, (==_iff x p).0 y)
      | inr n ↦ tree.aligned x (rw n at h)
    ];
    not_null = λ x h e. elim (Bool-cases (x == p)) [
      | inl y ↦ p_not_null (sym ((==_iff x p).0 y) ∙ e)
      | inr n ↦ tree.not_null x (rw n at h) e
    ];
    below = λ x j h k on. linked-below x j h k (origin x j (omega (arith, h)) k on);
    small = λ x j h k on. linked-small x j h k (origin x j (omega (arith, h)) k on);
    unique = λ x j x' j' h h' k k' on on' e.
        linked_unique x j x' j' h h' k k' (origin x j (omega (arith, h)) k on)
          (origin x' j' (omega (arith, h')) k' on') e;
  }

  -- Through the new table nothing is mapped.
  linked-empty : (n depth v : ℕ) → 0 < n → translation n linked p depth v ≡ none
  unfolding translation
  linked-empty zero depth v h = absurd (omega arith)
  linked-empty (suc n) depth v h =
      rw (linked-page (table_index depth v) (table_index-lt depth v)) refl

  -- No address is translated otherwise than before.
  pub linked-translation :
      (n x depth v : ℕ)
      → depth + n ≡ 4
      → (depth ≤ 3 → level x ≡ depth)
      → translation n linked x depth v ≡ translation n word x depth v
  unfolding translation
  linked-translation zero x depth v e h = refl
  linked-translation (suc n) x depth v e h =
      let at_level = h (omega arith) in
      let table : IsTable level x = omega (arith, at_level) in
      let j = table_index depth v in
      elim (Bool-cases (entry_address x j == entry_address t i)) [
        | inl y ↦
            let same : entry_address x j ≡ entry_address t i =
              (==_iff (entry_address x j) (entry_address t i)).0 y in
            let inj =
              entry_address-inj x j t i (tree.aligned x table) (tree.aligned t t-IsTable)
                (table_index-lt depth v) in_table same in
            let deep : 0 < n = omega (arith, above, ap level inj.0, at_level) in
            rw (same, absent, linked-present, linked-phys) (linked-empty n (depth + 1) v deep)
        | inr m ↦
            let e' = linked-other x j table (table_index-lt depth v) (λ z. ground arith) in
            rw e' (elim (Bool-cases (is_present (word (entry_address x j)))) [
              | inr off ↦ rw off refl
              | inl on ↦ rw on (
                  linked-translation n (phys_address (word (entry_address x j))) (depth + 1) v
                    (omega arith)
                    λ shallow. omega (
                      arith,
                      tree.below x j (omega (arith, at_level)) (table_index-lt depth v) on,
                      at_level,
                    ))
            ])
      ]
