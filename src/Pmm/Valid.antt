-- ===== src/Pmm/Valid.antt =====
-- The invariant of the page allocator, and its abstract view: a state for every address.
use ukulele.Base.{
  ℕ, ◌+◌, ◌-◌, ◌*◌, ◌/◌, ◌%◌, ◌^◌, ◌≤◌, ◌<◌, ◌≡◌, refl, [], ◌∷◌, arith, Bool, true, false, ◌&&◌,
  ◌||◌, ltb, leb, ◌==◌, if◌then◌else◌, length, All, Bool-cases, inl, inr,
}
use ukulele.Page.{page_size}
use ukulele.Pmm.{pmm_entries, pmm_ctrl_entries, CtrlPtr, Pmm, owns}
use ukulele.Pmm.Block.{block_bit, weight, IsWord, weight-le}

-- A page index of the entry for an address that it owns.
abbrev pub page_index : CtrlPtr → ℕ → ℕ
page_index p a = (a - p.physical_start) / page_size

-- The address lies in the entry's pages or in its control page, just below them.
abbrev pub claims : CtrlPtr → ℕ → Bool
claims p a =
    p.active
    && leb p.physical_start (a + page_size)
    && ltb a (p.physical_start + page_size * p.max_pages)

abbrev pub claimed : Pmm → ℕ → Bool
claimed [] a = false
claimed (p ∷ ps) a = claims p a || claimed ps a

pub record IsEntry (p : CtrlPtr) : Type 0 where
  pub words : All IsWord p.ctrl
  pub size : length p.ctrl ≡ pmm_ctrl_entries
  pub spare : (j : ℕ) → p.max_pages ≤ j → block_bit p.ctrl j ≡ 0
  pub counted : p.free_pages ≡ weight p.ctrl
  pub limit : p.max_pages < 2 ^ 15
  pub above : page_size ≤ p.physical_start
  pub aligned : p.physical_start % page_size ≡ 0
  pub fits : p.physical_start + page_size * p.max_pages < 2 ^ 64

-- Each active entry is sound, and no two claim an address.
abbrev pub AreEntries : Pmm → Type 0
AreEntries [] = Unit
AreEntries (p ∷ ps) =
    (p.active ≡ true → IsEntry p)
    × ((a : ℕ) → claims p a ≡ true → claimed ps a ≡ false)
    × AreEntries ps

pub record IsValid (pmm : Pmm) : Type 0 where
  pub entries : AreEntries pmm
  pub size : length pmm ≡ pmm_entries

pub data PageState : Type 0 where
  unmanaged free used : PageState

abbrev pub state_in : CtrlPtr → ℕ → PageState
state_in p a = if block_bit p.ctrl (page_index p a) == 0 then used else free

-- What the allocator knows of the page of an address.
unfoldable pub page_state : Pmm → ℕ → PageState
page_state [] a = unmanaged
page_state (p ∷ ps) a = if owns p a then state_in p a else page_state ps a

-- The number of free pages.
unfoldable pub free_total : Pmm → ℕ
free_total [] = 0
free_total (p ∷ ps) = (if p.active then p.free_pages else 0) + free_total ps

-- The addresses lie in the same page.
abbrev pub same_page : ℕ → ℕ → Bool
same_page a b = a / page_size == b / page_size

module _ {p : CtrlPtr} (e : IsEntry p) where
  pub owns-claims : (a : ℕ) → owns p a ≡ true → claims p a ≡ true
  owns-claims a h = ground (arith, e.fits)

  -- Ownership goes by whole pages.
  pub owns-same_page : (a b : ℕ) → same_page a b ≡ true → owns p a ≡ true → owns p b ≡ true
  owns-same_page a b s h = ground (arith, e.fits, e.aligned)

  -- One address is owned and the other is not: they lie in different pages.
  pub other_page : (a b : ℕ) → owns p a ≡ true → owns p b ≡ false → same_page a b ≡ false
  other_page a b h k = ground (arith, owns-same_page a b)

pub owns-active : (p : CtrlPtr) (a : ℕ) → owns p a ≡ true → p.active ≡ true
owns-active p a h = ground arith

-- Where the others claim the page, the entry before them does not own it.
pub not_owned :
    (p : CtrlPtr) (ps : Pmm) (a : ℕ) → AreEntries (p ∷ ps) → claimed ps a ≡ true → owns p a ≡ false
not_owned p ps a es c = elim (Bool-cases (owns p a)) [
  | inl own ↦
      let clash : claimed ps a ≡ false = es.1 a (owns-claims (es.0 (owns-active p a own)) a own) in
      cc
  | inr off ↦ off
]

module _ {p : CtrlPtr} (e : IsEntry p) where
  pub free_pages-le : p.free_pages ≤ p.max_pages
  free_pages-le = omega (arith, e.counted, weight-le p.ctrl p.max_pages e.spare)

-- What nobody claims is not managed.
pub unclaimed :
    (ps : Pmm) (a : ℕ) → AreEntries ps → claimed ps a ≡ false → page_state ps a ≡ unmanaged
unfolding page_state
unclaimed [] a es c = refl
unclaimed (p ∷ ps) a es c = elim (Bool-cases (owns p a)) [
  | inl own ↦ let claim = owns-claims (es.0 (owns-active p a own)) a own in ground arith
  | inr off ↦ rw off (unclaimed ps a es.2 (ground arith))
]
