-- ===== src/Pmm/Update.antt =====
-- A change of the state of one page, in the entry that owns it and in the whole allocator.
use ukulele.Base.{
  ℕ, suc, ◌+◌, ◌/◌, ◌<◌, ◌≡◌, ◌≢◌, refl, ap, ◌∷◌, arith, true, false, ◌==◌, if◌then◌else◌, length,
  Bool-cases, inl, inr,
}
use ukulele.Page.{page_size}
use ukulele.Pmm.{CtrlPtr, Pmm, owns}
use ukulele.Pmm.Block.{block_bit, Flip}
use ukulele.Pmm.Valid.{
  page_index, claims, claimed, IsEntry, AreEntries, PageState, free, used, state_in, page_state,
  same_page, owns-claims, other_page, owns-active, not_owned,
}

-- The entries manage the same pages.
pub record SameShape (p q : CtrlPtr) : Type 0 where
  pub start : q.physical_start ≡ p.physical_start
  pub pages : q.max_pages ≡ p.max_pages
  pub active : q.active ≡ p.active
  pub address : q.ctrl_address ≡ p.ctrl_address

module _ {p q : CtrlPtr} (s : SameShape p q) where
  pub claims-SameShape : (a : ℕ) → claims q a ≡ claims p a
  claims-SameShape a = rw (s.start, s.pages, s.active)

  pub owns-SameShape : (a : ℕ) → owns q a ≡ owns p a
  owns-SameShape a = rw (s.start, s.pages, s.active)

-- `page` is page `k` of the entry.
pub record IsPage (p : CtrlPtr) (k page : ℕ) : Type 0 where
  pub on : p.active ≡ true
  pub below : k < p.max_pages
  pub place : page / page_size ≡ p.physical_start / page_size + k

module _ {p : CtrlPtr} {k page : ℕ} (e : IsEntry p) (at : IsPage p k page) where
  pub owns-IsPage : owns p page ≡ true
  owns-IsPage = ground (arith, at.on, e.fits, e.aligned, at.below, at.place)

  pub page_index_inside : (a : ℕ) → owns p a ≡ true → (page_index p a == k) ≡ same_page a page
  page_index_inside a h = ground (arith, e.fits, e.aligned, at.below, at.place)

  pub page_index-IsPage : page_index p page ≡ k
  page_index-IsPage = ground (arith, page_index_inside page owns-IsPage)

  pub state_of_set : block_bit p.ctrl k ≡ 1 → state_in p page ≡ free
  state_of_set set = rw (page_index-IsPage, set)

  module _ {q : CtrlPtr} (s : SameShape p q) where
    same_index : (a : ℕ) → page_index q a ≡ page_index p a
    same_index a = rw s.start

    index_of_page : (a : ℕ) → owns p a ≡ true → same_page a page ≡ true → page_index q a ≡ k
    index_of_page a h hit = ground (arith, page_index_inside a h, same_index a)

    index_off_page : (a : ℕ) → owns p a ≡ true → same_page a page ≡ false → k ≢ page_index p a
    index_off_page a h miss = ground (arith, page_index_inside a h)

    -- Taking page `k`.
    pub state_taken :
        Flip p.ctrl q.ctrl k
        → (a : ℕ) → owns p a ≡ true
        → state_in q a ≡ (if same_page a page then used else state_in p a)
    state_taken f a h = elim (Bool-cases (same_page a page)) [
      | inl hit ↦ rw (hit, index_of_page a h hit, f.is_clear)
      | inr miss ↦ rw (miss, same_index a, f.same (page_index p a) (index_off_page a h miss))
    ]

    -- Giving page `k` back.
    pub state_released :
        Flip q.ctrl p.ctrl k
        → (a : ℕ) → owns p a ≡ true
        → state_in q a ≡ (if same_page a page then free else state_in p a)
    state_released f a h = elim (Bool-cases (same_page a page)) [
      | inl hit ↦ rw (hit, index_of_page a h hit, f.was_set)
      | inr miss ↦ rw (miss, same_index a, f.same (page_index p a) (index_off_page a h miss))
    ]

-- The page of `page` has gone to state `s`, and nothing else of the view has changed.
pub record Updated (ps qs : Pmm) (page : ℕ) (s : PageState) : Type 0 where
  pub entries : AreEntries qs
  pub claims_kept : (a : ℕ) → claimed qs a ≡ claimed ps a
  pub page_claimed : claimed ps page ≡ true
  pub state : (a : ℕ) → page_state qs a ≡ (if same_page a page then s else page_state ps a)
  pub size : length qs ≡ length ps

module _ {p q : CtrlPtr} {ps : Pmm} {k page : ℕ} {t : PageState} where
  pub Updated-here :
      AreEntries (p ∷ ps)
      → IsPage p k page
      → IsEntry q
      → SameShape p q
      → ((a : ℕ) → owns p a ≡ true → state_in q a ≡ (if same_page a page then t else state_in p a))
      → Updated (p ∷ ps) (q ∷ ps) page t
  unfolding page_state
  Updated-here es at eq s view = record {
    entries = (λ _. eq, λ a c. es.1 a (rw (← claims-SameShape s a) c), es.2);
    claims_kept = λ a. rw (claims-SameShape s a);
    page_claimed = rw (owns-claims (es.0 at.on) page (owns-IsPage (es.0 at.on) at));
    state = λ a. elim (Bool-cases (owns p a)) [
      | inl own ↦ rw (owns-SameShape s a, own) (view a own)
      | inr off ↦ rw (owns-SameShape s a, off, off_page a off)
    ];
    size = refl;
  }
    where
      off_page : (a : ℕ) → owns p a ≡ false → same_page a page ≡ false
      off_page a off =
          let apart = other_page (es.0 at.on) page a (owns-IsPage (es.0 at.on) at) off in
          ground arith

module _ {p : CtrlPtr} {ps qs : Pmm} {page : ℕ} {t : PageState} where
  pub Updated-there : AreEntries (p ∷ ps) → Updated ps qs page t → Updated (p ∷ ps) (p ∷ qs) page t
  unfolding page_state
  Updated-there es u = record {
    entries = (es.0, λ a c. rw (u.claims_kept a) (es.1 a c), u.entries);
    claims_kept = λ a. rw (u.claims_kept a);
    page_claimed = ground (arith, u.page_claimed);
    state = λ a. elim (Bool-cases (owns p a)) [
      | inl own ↦ rw (
        own,
        other_page (es.0 (owns-active p a own)) a page own (not_owned p ps page es u.page_claimed),
      )
      | inr off ↦ rw off (u.state a)
    ];
    size = ap suc u.size;
  }
