-- ===== src/Mmu/Tree.antt =====
-- The abstract view of the page tables: a map from virtual addresses to physical pages, and when
-- the tables make up a tree.
use ukulele.Base.{
  ℕ, zero, suc, ◌+◌, ◌%◌, ◌^◌, ◌≤◌, ◌<◌, ◌≡◌, ◌≢◌, ◌⊎◌, Option, none, some, true, bit_and,
  if◌then◌else◌, Outcome, Returns,
}
use ukulele.Mmu.{entry_address, is_present, phys_address, reg_page_size}
use ukulele.Mmu.Path.{slot}

-- The page of an address, through `n` levels of tables from one at a depth on.
unfoldable pub translation : ℕ → (ℕ → ℕ) → ℕ → ℕ → ℕ → Option ℕ
translation zero word page depth v = some page
translation (suc n) word page depth v =
    let entry = word (slot page depth v) in
    let below = translation n word (phys_address entry) (depth + 1) v in
    if is_present entry then below else none

-- The pages of the tables at depths 0 to 3 have these as their level, all others a higher one.
abbrev pub IsTable : (ℕ → ℕ) → ℕ → Type 0
IsTable level t = level t ≤ 3

-- The tables below a root: the entries of one level lead to tables of the next, no two entries to
-- the same one, and none is of a large page.
pub record IsTree (level word : ℕ → ℕ) (root : ℕ) : Type 0 where
  pub at_root : level root ≡ 0
  pub aligned : (t : ℕ) → IsTable level t → t % 4096 ≡ 0
  pub not_null : (t : ℕ) → IsTable level t → t ≢ 0
  pub below :
      (t i : ℕ)
      → level t < 3
      → i < 512
      → is_present (word (entry_address t i)) ≡ true
      → level (phys_address (word (entry_address t i))) ≡ suc (level t)
  pub small :
      (t i : ℕ)
      → level t < 3
      → i < 512
      → is_present (word (entry_address t i)) ≡ true
      → bit_and (word (entry_address t i)) reg_page_size ≡ 0
  pub unique :
      (t i t' i' : ℕ)
      → level t < 3
      → level t' < 3
      → i < 512
      → i' < 512
      → is_present (word (entry_address t i)) ≡ true
      → is_present (word (entry_address t' i')) ≡ true
      → phys_address (word (entry_address t i)) ≡ phys_address (word (entry_address t' i'))
      → entry_address t i ≡ entry_address t' i'

module _ {P : Type 0} (ready : P → Type 0) (count : P → ℕ) (fresh held : P → ℕ → Type 0) where
  -- A page that was free has been given out.
  pub record Given (p : P) (out : P × ℕ) : Type 0 where
    pub not_null : out.1 ≢ 0
    pub aligned : out.1 % 4096 ≡ 0
    pub bounded : out.1 < 2 ^ 52
    pub was_fresh : fresh p out.1
    pub ready' : ready out.0
    pub counted : count p ≡ count out.0 + 1
    pub fresh_before : (q : ℕ) → fresh out.0 q → fresh p q × (q ≢ out.1)
    pub held_page : held out.0 out.1
    pub held_still : (q : ℕ) → held p q → held out.0 q

  -- A page has been given back.
  pub record TakenBack (p : P) (a : ℕ) (p' : P) : Type 0 where
    pub ready' : ready p'
    pub counted : count p' ≡ count p + 1
    pub fresh_before : (q : ℕ) → fresh p' q → fresh p q ⊎ (q ≡ a)
    pub held_still : (q : ℕ) → held p q → q ≢ a → held p' q

-- What the page tables rely on of the allocator: pages that are free in it, pages that it has given
-- out, and how many are left.
pub record IsSource {P : Type 0} (allocate_page : P → Outcome (P × ℕ))
    (free_page : P → ℕ → Outcome P) (ready : P → Type 0) (count : P → ℕ)
    (fresh held : P → ℕ → Type 0) : Type 0 where
  pub allocates :
      (p : P) → ready p → 0 < count p → Returns (Given ready count fresh held p) (allocate_page p)
  pub frees :
      (p : P) (a : ℕ)
      → ready p
      → held p a
      → a ≢ 0
      → Returns (TakenBack ready count fresh held p a) (free_page p a)
