-- ===== src/Mmu/Unlink.antt =====
-- An empty table is taken out of the tree, and no address is translated otherwise.
use ukulele.Base.{
  ℕ, zero, suc, ◌+◌, ◌≤◌, ◌<◌, ◌≡◌, ◌≢◌, inl, inr, refl, sym, ap, ◌∙◌, arith, none, true, false,
  ◌==◌, ==_iff, if◌then◌else◌, Bool-cases,
}
use ukulele.Mmu.{entry_address, is_present, phys_address, write, any_present}
use ukulele.Mmu.Blocks.{table_index}
use ukulele.Mmu.Tree.{IsTable, IsTree, translation}
use ukulele.Mmu.Reserve.{entry_address-inj, table_index-lt}

-- The test of the whole table is one of each entry.
pub not-any_present :
    (word : ℕ → ℕ) (c n i : ℕ)
    → any_present word c n ≡ false
    → i < n
    → is_present (word (entry_address c i)) ≡ false
unfolding any_present
not-any_present word c zero i h k = absurd (omega arith)
not-any_present word c (suc n) i h k = elim (Bool-cases (i == n)) [
  | inl y ↦ let e : i ≡ n = (==_iff i n).0 y in rw e (ground (arith, h))
  | inr m ↦ not-any_present word c n i (ground (arith, h)) (ground (arith, m, k))
]

-- The levels when the page `c` is a table no longer.
abbrev pub level_without : (ℕ → ℕ) → ℕ → ℕ → ℕ
level_without level c x = if x == c then 4 else level x

module _ (level word : ℕ → ℕ) (root t i : ℕ) (tree : IsTree level word root) (above : level t < 3)
    (in_table : i < 512) (there : is_present (word (entry_address t i)) ≡ true)
    (empty : any_present word (phys_address (word (entry_address t i))) 512 ≡ false) where
  abbrev cut : ℕ → ℕ
  cut = write word (entry_address t i) 0

  abbrev gone : ℕ
  gone = phys_address (word (entry_address t i))

  gone-level : level gone ≡ suc (level t)
  gone-level = tree.below t i above in_table there

  -- An entry that is present still is one of another place, whose table is not the one taken out.
  record Left (x j : ℕ) : Type 0 where
    table : IsTable level x
    same_level : level_without level gone x ≡ level x
    same_entry : cut (entry_address x j) ≡ word (entry_address x j)
    elsewhere : entry_address x j ≢ entry_address t i
    on : is_present (word (entry_address x j)) ≡ true

  left :
      (x j : ℕ)
      → level_without level gone x < 3
      → j < 512
      → is_present (cut (entry_address x j)) ≡ true
      → Left x j
  left x j h k on = elim (Bool-cases (x == gone)) [
    | inl y ↦ absurd (ground (arith, h, y))
    | inr n ↦
        let same : level_without level gone x ≡ level x = rw n refl in
        elim (Bool-cases (entry_address t i == entry_address x j)) [
          | inl y ↦ let e : cut (entry_address x j) ≡ 0 = rw y refl in cc (sym on ∙ ap is_present e)
          | inr m ↦
              let e : cut (entry_address x j) ≡ word (entry_address x j) = rw m refl in
              record {
                table = omega (arith, h, same);
                same_level = same;
                same_entry = e;
                elsewhere =
                    λ q. cc (sym m ∙ (==_iff (entry_address t i) (entry_address x j)).1 (sym q));
                on = sym (ap is_present e) ∙ on;
              }
        ]
  ]

  not_gone :
      (x j : ℕ) → level x < 3 → j < 512 → Left x j → phys_address (word (entry_address x j)) ≢ gone
  not_gone x j h k l q = l.elsewhere (tree.unique x j t i h above k in_table l.on there q)

  kept_table : (x : ℕ) → x ≢ gone → level_without level gone x ≡ level x
  kept_table x h = ground (arith, h)

  pub cut-IsTree : IsTree (level_without level gone) cut root
  cut-IsTree = record {
    at_root =
        kept_table root (λ q. omega (arith, gone-level, tree.at_root, ap level q)) ∙ tree.at_root;
    aligned = λ x h. elim (Bool-cases (x == gone)) [
      | inl y ↦ absurd (ground (arith, h, y))
      | inr n ↦ tree.aligned x (rw n at h)
    ];
    not_null = λ x h. elim (Bool-cases (x == gone)) [
      | inl y ↦ absurd (ground (arith, h, y))
      | inr n ↦ tree.not_null x (rw n at h)
    ];
    below = λ x j h k on.
        let l = left x j h k on in
        let low : level x < 3 = omega (arith, h, l.same_level) in
        ap (λ z. level_without level gone (phys_address z)) l.same_entry
        ∙ kept_table (phys_address (word (entry_address x j))) (not_gone x j low k l)
        ∙ tree.below x j low k l.on
        ∙ ap suc (sym l.same_level);
    small = λ x j h k on.
        let l = left x j h k on in
        let e = l.same_entry in rw e (tree.small x j (omega (arith, h, l.same_level)) k l.on);
    unique = λ x j x' j' h h' k k' on on' q.
        let l = left x j h k on in
        let l' = left x' j' h' k' on' in
        tree.unique x j x' j' (omega (arith, h, l.same_level)) (omega (arith, h', l'.same_level)) k
          k' l.on l'.on (sym (ap phys_address l.same_entry) ∙ q ∙ ap phys_address l'.same_entry);
  }

  -- The table that is taken out mapped nothing.
  gone-translation : (n depth v : ℕ) → 0 < n → translation n word gone depth v ≡ none
  unfolding translation
  gone-translation zero depth v h = absurd (omega arith)
  gone-translation (suc n) depth v h =
      rw (not-any_present word gone 512 (table_index depth v) empty (table_index-lt depth v)) refl

  pub cut-translation :
      (n x depth v : ℕ)
      → depth + n ≡ 4
      → (depth ≤ 3 → level x ≡ depth)
      → translation n cut x depth v ≡ translation n word x depth v
  unfolding translation
  cut-translation zero x depth v e h = refl
  cut-translation (suc n) x depth v e h =
      let l = h (omega arith) in
      let j = table_index depth v in
      elim (Bool-cases (entry_address t i == entry_address x j)) [
        | inl y ↦
            let same : entry_address x j ≡ entry_address t i =
              sym ((==_iff (entry_address t i) (entry_address x j)).0 y) in
            let inj =
              entry_address-inj x j t i (tree.aligned x (omega (arith, l)))
                (tree.aligned t (omega (arith, above))) (table_index-lt depth v) in_table same in
            let deep : 0 < n = omega (arith, above, ap level inj.0, l) in
            let off : cut (entry_address x j) ≡ 0 = rw y refl in
            rw (off, same, there) (sym (gone-translation n (depth + 1) v deep))
        | inr m ↦
            let e' : cut (entry_address x j) ≡ word (entry_address x j) = rw m refl in
            rw e' (elim (Bool-cases (is_present (word (entry_address x j)))) [
              | inr off ↦ rw off refl
              | inl on ↦ rw on (
                  cut-translation n (phys_address (word (entry_address x j))) (depth + 1) v
                    (omega arith)
                    λ shallow.
                      omega
                        (arith, tree.below x j (omega (arith, l)) (table_index-lt depth v) on, l))
            ])
      ]
