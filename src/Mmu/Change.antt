-- ===== src/Mmu/Change.antt =====
-- What the entries of a range of pages, changed one after the other, do to the translation of every
-- address.
use ukulele.Base.{
  ℕ, zero, suc, ◌+◌, ◌-◌, ◌*◌, ◌/◌, ◌%◌, ◌^◌, ◌≤◌, ◌<◌, ◌≡◌, ◌≢◌, refl, sym, ap, ◌∙◌, arith, Option,
  none, some, Bool, true, false, ◌&&◌, leb, ltb, ◌==◌, ==_iff, if◌then◌else◌, Bool-cases, inl, inr,
  Returns,
}
use ukulele.Mmu.{Mmu, entry_address, is_present, phys_address, write, apply_nodes, node_leaf}
use ukulele.Mmu.Blocks.{loc_at, table_index}
use ukulele.Mmu.Path.{slot}
use ukulele.Mmu.Walk.{Walk}
use ukulele.Mmu.Fill.{IsStep, Through, Walk-Inv}
use ukulele.Mmu.Tree.{IsTree, translation}
use ukulele.Mmu.Reserve.{table_index-lt, entry_address-inj}
use ukulele.Mmu.Grow as Grow
use ukulele.Mmu.Grow.{Leads}
use ukulele.Mmu.Leaf.{
  same_page, agree-same_page, agree, upper, Leads-level, changed-IsTree, on_path,
}

-- The ways through tables whose upper entries are the same.
pub Leads-upper :
    (level word word' : ℕ → ℕ) (root : ℕ) {v depth t b : ℕ}
    → IsTree level word root
    → ((x i : ℕ) → level x < 3 → i < 512 → word' (entry_address x i) ≡ word (entry_address x i))
    → level t ≡ depth
    → Leads word v depth t b
    → Leads word' v depth t b
Leads-upper level word word' root tree same l (Grow.bottom e q) = Grow.bottom e q
Leads-upper level word word' root {v} {depth} {t} tree same l (Grow.down lt on below) =
    let i = table_index depth v in
    let at = same t i (omega (arith, l)) (table_index-lt depth v) in
    let child = tree.below t i (omega (arith, l)) (table_index-lt depth v) on in
    Grow.down lt (ap is_present at ∙ on)
      (rw at (Leads-upper level word word' root tree same (omega (arith, child, l)) below))

page_index :
    (depth v q : ℕ)
    → depth < 3
    → v % 4096 ≡ 0
    → v ≤ q
    → q < v + 4096
    → table_index depth v ≡ table_index depth q
page_index zero v q d al ge lt = omega arith
page_index (suc zero) v q d al ge lt = omega arith
page_index (suc (suc zero)) v q d al ge lt = omega arith
page_index (suc (suc (suc n))) v q d al ge lt = absurd (omega arith)

-- The way to an address is that to its page.
pub Leads-page :
    {word : ℕ → ℕ} {v depth t b : ℕ} (q : ℕ)
    → v % 4096 ≡ 0
    → v ≤ q
    → q < v + 4096
    → Leads word v depth t b
    → Leads word q depth t b
Leads-page q al ge lt (Grow.bottom e same) = Grow.bottom e same
Leads-page {word} {v} {depth} {t} q al ge lt (Grow.down low on below) =
    let same : slot t depth v ≡ slot t depth q =
      ap (λ (i : ℕ). entry_address t i) (page_index depth v q low al ge lt) in
    Grow.down low (rw same at on) (rw same at (Leads-page q al ge lt below))

-- Only one way leads to an entry of a last table.
Leads-same :
    (level word : ℕ → ℕ) (root : ℕ) {v w depth t t' b : ℕ}
    → IsTree level word root
    → level t ≡ depth
    → level t' ≡ depth
    → Leads word v depth t b
    → Leads word w depth t' b
    → (n : ℕ) → depth + n ≡ 3
    → table_index 3 v ≡ table_index 3 w
    → (t ≡ t') × (agree (suc n) depth v w ≡ true)
unfolding agree
Leads-same level word root {v} {w} {depth} tree l l' (Grow.bottom e q) (Grow.bottom e' q') n d i =
    let none_left : n ≡ 0 = omega arith in
    let index = (==_iff (table_index 3 v) (table_index 3 w)).1 i in
    (q ∙ sym q', rw (none_left, e, index) refl)
Leads-same level word root tree l l' (Grow.bottom e q) (Grow.down lt on below) n d i =
    absurd (omega arith)
Leads-same level word root tree l l' (Grow.down lt on below) (Grow.bottom e q) n d i =
    absurd (omega arith)
Leads-same level word root tree l l' (Grow.down lt on below) (Grow.down lt' on' below') zero d i =
    absurd (omega arith)
Leads-same level word root {v} {w} {depth} {t} {t'} tree l l' (Grow.down lt on below)
      (Grow.down lt' on' below') (suc n) d i =
    let j = table_index depth v in
    let k = table_index depth w in
    let low : level t < 3 = omega (arith, l) in
    let low' : level t' < 3 = omega (arith, l') in
    let in_table = table_index-lt depth v in
    let in_table' = table_index-lt depth w in
    let child = tree.below t j low in_table on in
    let child' = tree.below t' k low' in_table' on' in
    let deeper =
      Leads-same level word root tree (omega (arith, child, l)) (omega (arith, child', l')) below
        below' n (omega arith) i in
    let slots = tree.unique t j t' k low low' in_table in_table' on on' deeper.0 in
    let inj =
      entry_address-inj t j t' k (tree.aligned t (omega arith)) (tree.aligned t' (omega arith))
        in_table in_table' slots in
    let index = (==_iff j k).1 inj.1 in (inj.0, rw index deeper.1)

-- The address is of a page from `start` on and before `end`, up to its lowest 48 digits.
unfoldable pub in_pages : ℕ → ℕ → ℕ → Bool
in_pages start end w =
    let k : ℕ = w / 4096 % 2 ^ 36 in
    let first : ℕ = start / 4096 % 2 ^ 36 in leb first k && ltb k (first + (end - start) / 4096)

-- The page of the range that the address is of.
abbrev pub page_of : ℕ → ℕ → ℕ
page_of start w = start + (w / 4096 % 2 ^ 36 - start / 4096 % 2 ^ 36) * 4096

module _ (start p w : ℕ) (al : start % 4096 ≡ 0) (pal : p % 4096 ≡ 0) (le : start ≤ p)
    (fits : start / 4096 % 2 ^ 36 + (p - start) / 4096 < 2 ^ 36) where
  here : same_page p w ≡ true → (in_pages start (p + 4096) w ≡ true) × (page_of start w ≡ p)
  unfolding same_page in_pages
  here h = (ground (arith, h), ground (arith, h))

  elsewhere : same_page p w ≡ false → in_pages start (p + 4096) w ≡ in_pages start p w
  unfolding same_page in_pages
  elsewhere h = ground (arith, h)

-- An entry of a table of the last level is in that table's page.
in_table-outside :
    {P : Type 0} (level : ℕ → ℕ) (s : Mmu P) (p q t : ℕ)
    → t % 4096 ≡ 0
    → level t ≡ 3
    → (v : ℕ) → 3 < level (q / 4096 * 4096)
    → write s.word (slot t 3 p) v q ≡ s.word q
in_table-outside level s p q t al l v far =
    let ne : q / 4096 * 4096 ≢ t = λ e. omega (arith, far, l, ap level e) in
    let index = table_index-lt 3 p in
    let off : (slot t 3 p == q) ≡ false = ground (arith, al, ne, index) in rw off refl

module _ {P : Type 0} (level : ℕ → ℕ) (s0 : Mmu P) (root : ℕ) (tree : IsTree level s0.word root)
    (end_table : ℕ → ℕ) (start end : ℕ) (al : start % 4096 ≡ 0) (end_al : end % 4096 ≡ 0)
    (fits : start / 4096 % 2 ^ 36 + (end - start) / 4096 ≤ 2 ^ 36)
    (leads : (v : ℕ) → start ≤ v → v < end → Leads s0.word v 0 root (end_table v)) (value : ℕ → ℕ)
    (maps_to : ℕ → Option ℕ) where
  -- The pages before `p` have their new entries.
  pub record Changed (p : ℕ) (s : Mmu P) : Type 0 where
    pub tree_kept : IsTree level s.word root
    pub same_pmm : s.pmm ≡ s0.pmm
    pub upper_kept :
        (x i : ℕ) → level x < 3 → i < 512 → s.word (entry_address x i) ≡ s0.word (entry_address x i)
    pub outside : (q : ℕ) → 3 < level (q / 4096 * 4096) → s.word q ≡ s0.word q
    pub entries :
        (q : ℕ) → q % 4096 ≡ 0 → start ≤ q → q < p → s.word (slot (end_table q) 3 q) ≡ value q
    pub maps :
        (w : ℕ)
        → translation 4 s.word root 0 w ≡ (
            if in_pages start p w
            then maps_to (page_of start w)
            else translation 4 s0.word root 0 w)

  Changed-start : Changed start s0
  unfolding in_pages
  Changed-start = record {
    tree_kept = tree;
    same_pmm = refl;
    upper_kept = λ x i l k. refl;
    outside = λ q far. refl;
    entries = λ q qal a z. absurd (omega arith);
    maps = λ w. let none_yet : in_pages start start w ≡ false = ground arith in rw none_yet refl;
  }

  -- Two pages of the range have different entries.
  apart :
      (p q : ℕ)
      → p % 4096 ≡ 0
      → q % 4096 ≡ 0
      → start ≤ p
      → p < end
      → start ≤ q
      → q < p
      → (slot (end_table p) 3 p == slot (end_table q) 3 q) ≡ false
  unfolding same_page
  apart p q pal qal ge lt a before =
      let way = leads p ge lt in
      let way' = leads q a (omega arith) in
      let last = Leads-level level s0.word root p 0 tree way tree.at_root in
      let last' = Leads-level level s0.word root q 0 tree way' tree.at_root in
      elim (Bool-cases (slot (end_table p) 3 p == slot (end_table q) 3 q)) [
        | inr n ↦ n
        | inl y ↦
            let inj =
              entry_address-inj (end_table p) (table_index 3 p) (end_table q) (table_index 3 q)
                (tree.aligned (end_table p) (omega (arith, last)))
                (tree.aligned (end_table q) (omega (arith, last'))) (table_index-lt 3 p)
                (table_index-lt 3 q)
                ((==_iff (slot (end_table p) 3 p) (slot (end_table q) 3 q)).0 y) in
            let same =
              Leads-same level s0.word root tree tree.at_root tree.at_root way
                (rw (sym inj.0) at way') 3 refl inj.1 in
            let pages =
              (==_iff (p / 4096 % 2 ^ 36) (q / 4096 % 2 ^ 36)).0
                (sym (agree-same_page p q) ∙ same.1) in
            absurd (omega arith)
      ]

  -- The next entry is changed.
  Changed-next :
      (p : ℕ) (s : Mmu P)
      → p % 4096 ≡ 0
      → start ≤ p
      → p < end
      → (if is_present (value p) then some (phys_address (value p)) else none) ≡ maps_to p
      → Changed p s
      → Changed (p + 4096) (record s { word = write s.word (slot (end_table p) 3 p) (value p) })
  Changed-next p s pal ge lt gives c =
      let root_level = tree.at_root in
      let way =
        Leads-upper level s0.word s.word root tree c.upper_kept root_level (leads p ge lt) in
      let last = Leads-level level s.word root p (value p) c.tree_kept way root_level in
      record {
        tree_kept = changed-IsTree level s.word root p (value p) c.tree_kept (end_table p) last;
        same_pmm = c.same_pmm;
        upper_kept = λ x i l k.
            upper level s.word root p (value p) c.tree_kept (end_table p) last x i l k
            ∙ c.upper_kept x i l k;
        outside = λ q far.
            in_table-outside level s p q (end_table p)
              (c.tree_kept.aligned (end_table p) (omega (arith, last))) last (value p) far
            ∙ c.outside q far;
        entries = λ q qal a z. elim (Bool-cases (q == p)) [
          | inl y ↦
              let e = (==_iff q p).0 y in
              let on : (slot (end_table p) 3 p == slot (end_table p) 3 p) ≡ true =
                (==_iff (slot (end_table p) 3 p) (slot (end_table p) 3 p)).1 refl in
              rw (e, on) refl
          | inr n ↦
              let before : q < p = ground (arith, n) in
              let off = apart p q pal qal ge lt a before in rw off (c.entries q qal a before)
        ];
        maps = λ w.
            let all =
              on_path level s.word root p (value p) c.tree_kept (end_table p) last 4 way refl
                (omega arith) root_level w in
            rw (agree-same_page p w, gives, c.maps w) at all ∙ choice p w pal ge lt;
      }
    where
      choice :
          (p w : ℕ)
          → p % 4096 ≡ 0
          → start ≤ p
          → p < end
          → (if same_page p w
              then maps_to p
              else (if in_pages start p w
                  then maps_to (page_of start w)
                  else translation 4 s0.word root 0 w))
            ≡ (if in_pages start (p + 4096) w
                then maps_to (page_of start w)
                else translation 4 s0.word root 0 w)
      choice p w pal ge lt = elim (Bool-cases (same_page p w)) [
        | inl y ↦ let h = here start p w al pal ge (omega arith) y in rw (y, h.0, h.1) refl
        | inr n ↦ let e = elsewhere start p w al pal ge (omega arith) n in rw (n, e) refl
      ]

  -- The callback for a whole range.
  pub change-Returns :
      (callback : ℕ → ℕ → Mmu P → Mmu P)
      → ((p entry : ℕ) (s : Mmu P)
          → start ≤ p
          → p < end
          → callback p entry s ≡ record s { word = write s.word entry (value p) })
      → ((p : ℕ)
          → p % 4096 ≡ 0
          → start ≤ p
          → p < end
          → (if is_present (value p) then some (phys_address (value p)) else none) ≡ maps_to p)
      → Walk 0 start end
      → Returns (Changed end) (apply_nodes (loc_at root 0 start end) (node_leaf 4 callback) s0)
  unfolding Through
  change-Returns callback writes gives w =
      let step : IsStep level s0.word root tree end_table callback start end Changed = record {
        upper = λ p s c. c.upper_kept;
        step = λ p s pal ge lt c.
            rw (writes p (slot (end_table p) 3 p) s ge lt)
              (Changed-next p s pal ge lt (gives p pal ge lt) c);
      } in
      Walk-Inv level s0.word root tree end_table callback start end Changed step 4 root s0 w
        (omega arith) tree.at_root leads (omega arith) (omega arith) Changed-start
