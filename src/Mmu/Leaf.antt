-- ===== src/Mmu/Leaf.antt =====
-- An entry at the end of the walk, and what a change of it does to the translation of every address.
use ukulele.Base.{
  ◌/◌, ℕ, zero, suc, ◌+◌, ◌%◌, ◌^◌, ◌≤◌, ◌<◌, ◌≡◌, ◌≢◌, inl, inr, refl, sym, ap, ◌∙◌, arith, Option,
  none, some, Bool, true, ◌&&◌, if◌then◌else◌, Bool-cases, ◌==◌, ==_iff,
}
use ukulele.Mmu.{entry_address, is_present, phys_address, write}
use ukulele.Mmu.Blocks.{table_index}
use ukulele.Mmu.Path.{slot}
use ukulele.Mmu.Tree.{IsTable, IsTree, translation}
use ukulele.Mmu.Reserve.{entry_address-inj, table_index-lt}
use ukulele.Mmu.Grow.{Leads, bottom, down}

-- The addresses have the same entries from a depth on.
unfoldable pub agree : ℕ → ℕ → ℕ → ℕ → Bool
agree zero depth v w = true
agree (suc n) depth v w = table_index depth v == table_index depth w && agree n (depth + 1) v w

module _ (level word : ℕ → ℕ) (root v x : ℕ) (tree : IsTree level word root) where
  pub Leads-level : {depth t b : ℕ} → Leads word v depth t b → level t ≡ depth → level b ≡ 3
  Leads-level (bottom e same) l = ap level (sym same) ∙ l ∙ e
  Leads-level {depth} {t} (down lt on next) l = Leads-level next (
      omega (
        arith,
        tree.below t (table_index depth v) (omega (arith, l)) (table_index-lt depth v) on,
        l,
      ))

  module _ (b : ℕ) (last : level b ≡ 3) where
    abbrev pub changed : ℕ → ℕ
    changed = write word (slot b 3 v) x

    -- Entries of other tables are as before.
    changed-other :
        (t i : ℕ)
        → IsTable level t
        → i < 512
        → t ≢ b
        → changed (entry_address t i) ≡ word (entry_address t i)
    changed-other t i h k ne =
        let inj =
          entry_address-inj b (table_index 3 v) t i (tree.aligned b (omega (arith, last)))
            (tree.aligned t h) (table_index-lt 3 v) k in
        ground (arith, inj, ne)

    not_last : (t : ℕ) → level t < 3 → t ≢ b
    not_last t h e = omega (arith, last, ap level e, h)

    pub upper :
        (t i : ℕ) → level t < 3 → i < 512 → changed (entry_address t i) ≡ word (entry_address t i)
    upper t i h k = changed-other t i (omega arith) k (not_last t h)

    pub changed-IsTree : IsTree level changed root
    changed-IsTree = record {
      at_root = tree.at_root;
      aligned = tree.aligned;
      not_null = tree.not_null;
      below = λ t i h k on.
          ap (λ z. level (phys_address z)) (upper t i h k)
          ∙ tree.below t i h k (sym (ap is_present (upper t i h k)) ∙ on);
      small = λ t i h k on. let e = upper t i h k in rw e (tree.small t i h k (rw e at on));
      unique = λ t i t' i' h h' k k' on on' q.
          let e = upper t i h k in
          let e' = upper t' i' h' k' in
          tree.unique t i t' i' h h' k k' (sym (ap is_present e) ∙ on)
            (sym (ap is_present e') ∙ on') (sym (ap phys_address e) ∙ q ∙ ap phys_address e');
    }

    -- What the entry maps its address to.
    abbrev new_page : Option ℕ
    new_page = if is_present x then some (phys_address x) else none

    -- From a table that is not on the way, every address is translated as before.
    off_path :
        (n : ℕ) {depth t : ℕ}
        → Leads word v depth t b
        → depth + n ≡ 4
        → level t ≡ depth
        → (t' w : ℕ) → level t' ≡ depth
        → t' ≢ t
        → translation n changed t' depth w ≡ translation n word t' depth w
    unfolding translation
    off_path zero l e lt t' w lt' ne = refl
    off_path (suc n) {depth} (bottom three same) e lt t' w lt' ne =
        let zero_left : n ≡ 0 = omega arith in
        let other : t' ≢ b = λ q. ne (q ∙ sym same) in
        let at =
          changed-other t' (table_index depth w) (omega (arith, lt')) (table_index-lt depth w)
            other in
        rw (at, zero_left) refl
    off_path (suc n) {depth} {t} (down d on next) e lt t' w lt' ne =
        let i = table_index depth w in
        let at = upper t' i (omega (arith, lt')) (table_index-lt depth w) in
        rw at (elim (Bool-cases (is_present (word (entry_address t' i)))) [
          | inr off ↦ rw off refl
          | inl on' ↦
              let lc =
                tree.below t (table_index depth v) (omega (arith, lt)) (table_index-lt depth v)
                  on in
              let lc' = tree.below t' i (omega (arith, lt')) (table_index-lt depth w) on' in
              rw on' (
                off_path n next (omega arith) (omega (arith, lc, lt))
                  (phys_address (word (entry_address t' i))) w (omega (arith, lc', lt'))
                  λ q.
                    ne
                      (entry_address-inj t' i t (table_index depth v)
                        (tree.aligned t' (omega (arith, lt'))) (tree.aligned t (omega (arith, lt)))
                        (table_index-lt depth w) (table_index-lt depth v)
                        (tree.unique t' i t (table_index depth v) (omega (arith, lt'))
                          (omega (arith, lt)) (table_index-lt depth w) (table_index-lt depth v) on'
                          on q)).0)
        ])

    at_last :
        (w : ℕ)
        → translation 1 changed b 3 w
          ≡ (if agree 1 3 v w then new_page else translation 1 word b 3 w)
    unfolding translation agree
    at_last w = elim (Bool-cases (table_index 3 v == table_index 3 w)) [
      | inl y ↦
          let i = (==_iff (table_index 3 v) (table_index 3 w)).0 y in
          let at : changed (slot b 3 w) ≡ x = ground (arith, i) in rw (at, y) refl
      | inr m ↦
          let at : changed (slot b 3 w) ≡ word (slot b 3 w) = ground (arith, m) in rw (at, m) refl
    ]

    -- From a table on the way, the addresses of the page have the new entry, the others are
    -- translated as before.
    pub on_path :
        (n : ℕ) {depth t : ℕ}
        → Leads word v depth t b
        → depth + n ≡ 4
        → depth ≤ 3
        → level t ≡ depth
        → (w : ℕ)
        → translation n changed t depth w
          ≡ (if agree n depth v w then new_page else translation n word t depth w)
    unfolding translation agree
    on_path zero l e h lt w = absurd (omega arith)
    on_path (suc n) {depth} {t} (bottom three same) e h lt w =
        let zero_left : n ≡ 0 = omega arith in rw (zero_left, three, same) (at_last w)
    on_path (suc n) {depth} {t} (down d on next) e h lt w =
        let j = table_index depth w in
        let at = upper t j (omega (arith, lt, d)) (table_index-lt depth w) in
        let lc =
          tree.below t (table_index depth v) (omega (arith, lt)) (table_index-lt depth v) on in
        rw at (elim (Bool-cases (table_index depth v == j)) [
          | inl y ↦
              let i : j ≡ table_index depth v = sym ((==_iff (table_index depth v) j).0 y) in
              let here : word (entry_address t j) ≡ word (slot t depth v) =
                ap (λ (z : ℕ). word (entry_address t z)) i in
              let on_w : is_present (word (entry_address t j)) ≡ true = ap is_present here ∙ on in
              let child : phys_address (word (entry_address t j))
                  ≡ phys_address (word (slot t depth v)) =
                ap phys_address here in
              rw (y, on_w, child)
                (on_path n next (omega arith) (omega arith) (omega (arith, lc, lt)) w)
          | inr m ↦ rw m (elim (Bool-cases (is_present (word (entry_address t j)))) [
            | inr off ↦ rw off refl
            | inl on' ↦
                let lc' = tree.below t j (omega (arith, lt)) (table_index-lt depth w) on' in
                rw on' (
                  off_path n next (omega arith) (omega (arith, lc, lt))
                    (phys_address (word (entry_address t j))) w (omega (arith, lc', lt))
                    λ q.
                      let inj =
                        entry_address-inj t j t (table_index depth v)
                          (tree.aligned t (omega (arith, lt))) (tree.aligned t (omega (arith, lt)))
                          (table_index-lt depth w) (table_index-lt depth v)
                          (tree.unique t j t (table_index depth v) (omega (arith, lt))
                            (omega (arith, lt)) (table_index-lt depth w) (table_index-lt depth v)
                            on' on q) in
                      cc (sym m ∙ (==_iff (table_index depth v) j).1 (sym inj.1)))
          ])
        ])

    -- The way to the entry is still there.
    pub changed-Leads :
        {depth t : ℕ} → Leads word v depth t b → level t ≡ depth → Leads changed v depth t b
    changed-Leads (bottom e same) l = bottom e same
    changed-Leads {depth} {t} (down d on next) l =
        let at = upper t (table_index depth v) (omega (arith, l, d)) (table_index-lt depth v) in
        let lc =
          tree.below t (table_index depth v) (omega (arith, l)) (table_index-lt depth v) on in
        down d (ap is_present at ∙ on) (rw at (changed-Leads next (omega (arith, lc, l))))

-- Two addresses are of the same page if their lowest 48 digits are, but for the last 12.
unfoldable pub same_page : ℕ → ℕ → Bool
same_page v w = v / 4096 % 2 ^ 36 == w / 4096 % 2 ^ 36

pub agree-same_page : (v w : ℕ) → agree 4 0 v w ≡ same_page v w
unfolding agree same_page
agree-same_page v w = ground arith

-- Addresses with the same entries have the same translation.
pub translation-same_page :
    (n : ℕ) (word : ℕ → ℕ) (t depth v w : ℕ)
    → agree n depth v w ≡ true
    → translation n word t depth v ≡ translation n word t depth w
unfolding translation agree
translation-same_page zero word t depth v w h = refl
translation-same_page (suc n) word t depth v w h =
    elim (Bool-cases (table_index depth v == table_index depth w)) [
      | inl y ↦
          let i = (==_iff (table_index depth v) (table_index depth w)).0 y in
          let entry : word (slot t depth v) ≡ word (slot t depth w) =
            ap (λ (z : ℕ). word (entry_address t z)) i in
          let rest =
            translation-same_page n word (phys_address (word (slot t depth w))) (depth + 1) v w
              (rw y at h) in
          rw (entry, rest) refl
      | inr n' ↦ cc (rw n' at h)
    ]
