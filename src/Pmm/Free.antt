-- ===== src/Pmm/Free.antt =====
-- `pmm_free_page`: what it gives back, and its two panics.
use ukulele.Base.{
  ℕ, ◌+◌, ◌*◌, ◌/◌, ◌%◌, ◌<◌, ◌≡◌, ◌≢◌, refl, ◌∙◌, [], ◌∷◌, arith, true, false, ◌==◌, get_or, set,
  Bool-cases, inl, inr, ok, panic, Returns, returns, Returns-bind, Returns-mono, u16, subst, bit_or,
}
use ukulele.Base.Bits.{bit-lt}
use ukulele.Pmm.{CtrlPtr, Pmm, owns, shl_one, give_back, free_in, free_page}
use ukulele.Pmm.Word.{set-WordFlip, set-lt, mask_of_clear, mask_of_set}
use ukulele.Pmm.Block.{block_bit, Flip, Flip-set, All-set, get_or-IsWord}
use ukulele.Pmm.Valid.{
  page_index, IsEntry, AreEntries, IsValid, free, used, state_in, page_state, free_total,
  owns-active, free_pages-le,
}
use ukulele.Pmm.Update.{SameShape, IsPage, state_released, Updated, Updated-here, Updated-there}

-- What `give_back` has done for an address of the entry.
pub record GaveBack (p : CtrlPtr) (a : ℕ) (q : CtrlPtr) : Type 0 where
  pub shape : SameShape p q
  pub entry : IsEntry q
  pub flip : Flip q.ctrl p.ctrl (page_index p a)
  pub counted : q.free_pages ≡ p.free_pages + 1

module _ (p : CtrlPtr) (a : ℕ) (e : IsEntry p) (own : owns p a ≡ true) where
  page_index-lt : page_index p a < p.max_pages
  page_index-lt = ground (arith, e.fits, e.aligned)

  IsPage_owned : IsPage p (page_index p a) a
  IsPage_owned = record {
    on = owns-active p a own;
    below = page_index-lt;
    place = ground (arith, e.fits, e.aligned);
  }

  -- `give_back` at a page in use.
  module _ (clear : block_bit p.ctrl (page_index p a) ≡ 0) where
    abbrev pub given_word : ℕ
    given_word = bit_or (get_or p.ctrl (page_index p a / 64) 0) (shl_one (page_index p a % 64))

    abbrev pub given : CtrlPtr
    given = record p {
      ctrl = set p.ctrl (page_index p a / 64) given_word;
      free_pages = u16 (p.free_pages + 1);
    }

    Flip-given : Flip given.ctrl p.ctrl (page_index p a)
    Flip-given =
        let e' : 64 * (page_index p a / 64) + page_index p a % 64 ≡ page_index p a = omega arith in
        subst (Flip given.ctrl p.ctrl) e' (
          Flip-set p.ctrl (page_index p a / 64) given_word (page_index p a % 64)
            (omega (arith, e.size, page_index-lt, e.limit))
            (set-WordFlip (get_or p.ctrl (page_index p a / 64) 0) (page_index p a % 64)
              (omega arith) clear))

    pub GaveBack-given : GaveBack p a given
    GaveBack-given = record {
      shape = record { start = refl; pages = refl; active = refl; address = refl };
      entry = record {
        words =
            All-set p.ctrl (page_index p a / 64) given_word e.words
              (set-lt _ (page_index p a % 64) (get_or-IsWord p.ctrl (page_index p a / 64) e.words));
        size = omega (arith, e.size, Flip-given.lengths);
        spare = λ j k. omega (arith, e.spare j k, Flip-given.same j (omega (arith, page_index-lt)));
        counted = omega (arith, e.counted, e.limit, free_pages-le e, Flip-given.counted);
        limit = e.limit;
        above = e.above;
        aligned = e.aligned;
        fits = e.fits;
      };
      flip = Flip-given;
      counted = omega (arith, e.limit, free_pages-le e);
    }

    pub give_back-ok : give_back p a ≡ ok given
    unfolding give_back
    give_back-ok = rw (
        mask_of_clear (get_or p.ctrl (page_index p a / 64) 0) (page_index p a % 64)
          (get_or-IsWord p.ctrl (page_index p a / 64) e.words) (omega arith) clear)

  give_back-panic : block_bit p.ctrl (page_index p a) ≡ 1 → give_back p a ≡ panic
  unfolding give_back
  give_back-panic full = ground (
    arith,
    mask_of_set (get_or p.ctrl (page_index p a / 64) 0) (page_index p a % 64) (omega arith) full,
  )

-- The page of `a`, which was in use, is free now, and that is all that has changed.
pub record Released (ps : Pmm) (a : ℕ) (qs : Pmm) : Type 0 where
  pub update : Updated ps qs a free
  pub counted : free_total qs ≡ free_total ps + 1

module _ (p : CtrlPtr) (ps : Pmm) (a : ℕ) (es : AreEntries (p ∷ ps)) where
  Released-here : owns p a ≡ true → (q : CtrlPtr) → GaveBack p a q → Released (p ∷ ps) a (q ∷ ps)
  unfolding free_total
  Released-here own q g =
      let on = owns-active p a own in
      let e = es.0 on in
      let at = IsPage_owned p a e own in
      record {
        update = Updated-here es at g.entry g.shape (state_released e at g.shape g.flip);
        counted = rw (g.shape.active, on) (omega (arith, g.counted));
      }

  Released-there : (qs : Pmm) → Released ps a qs → Released (p ∷ ps) a (p ∷ qs)
  unfolding free_total
  Released-there qs r = record {
    update = Updated-there es r.update;
    counted = omega (arith, r.counted);
  }

bit_of_used : (p : CtrlPtr) (a : ℕ) → state_in p a ≡ used → block_bit p.ctrl (page_index p a) ≡ 0
bit_of_used p a u = ground arith

bit_of_unused : (p : CtrlPtr) (a : ℕ) → state_in p a ≢ used → block_bit p.ctrl (page_index p a) ≡ 1
bit_of_unused p a u =
    ground (arith, bit-lt (get_or p.ctrl (page_index p a / 64) 0) (page_index p a % 64))

free_in-Released :
    (ps : Pmm) (a : ℕ)
    → AreEntries ps
    → page_state ps a ≡ used
    → Returns (Released ps a) (free_in ps a)
unfolding free_in page_state
free_in-Released [] a es u = absurd (cc)
free_in-Released (p ∷ ps) a es u = elim (Bool-cases (owns p a)) [
  | inl own ↦
      let e = es.0 (owns-active p a own) in
      let clear : block_bit p.ctrl (page_index p a) ≡ 0 = bit_of_used p a (rw own at u) in
      rw (own, give_back-ok p a e own clear)
        (returns (Released-here p ps a es own _ (GaveBack-given p a e own clear)))
  | inr off ↦ rw off (
      Returns-bind _ (free_in-Released ps a es.2 (rw off at u))
        (λ qs r. returns (Released-there p ps a es qs r)))
]

free_in-panic : (ps : Pmm) (a : ℕ) → AreEntries ps → page_state ps a ≢ used → free_in ps a ≡ panic
unfolding free_in page_state
free_in-panic [] a es u = refl
free_in-panic (p ∷ ps) a es u = elim (Bool-cases (owns p a)) [
  | inl own ↦
      let full : block_bit p.ctrl (page_index p a) ≡ 1 = bit_of_unused p a (rw own at u) in
      rw (own, give_back-panic p a (es.0 (owns-active p a own)) own full)
  | inr off ↦ rw (off, free_in-panic ps a es.2 (rw off at u))
]

-- In a valid allocator `pmm_free_page` of an address other than 0 gives the address's page back
-- if the page is in use: the invariant is kept, the page is free, the state of every other page
-- is unchanged, and the count of free pages is one higher. It panics if the page is free (a
-- double free) or not managed at all (a bad free). Of the address 0 it does nothing.
pub free_page_lem :
    {pmm : Pmm} (a : ℕ)
    → IsValid pmm
    → (free_page pmm 0 ≡ ok pmm)
      × (a ≢ 0
          → page_state pmm a ≡ used
          → Returns (λ qs. Released pmm a qs × IsValid qs) (free_page pmm a))
      × (a ≢ 0 → page_state pmm a ≢ used → free_page pmm a ≡ panic)
unfolding free_page
free_page_lem {pmm} a v = (
  refl,
  λ ne u. rw (not_null ne) (
      Returns-mono (free_in-Released pmm a v.entries u)
        (λ qs r. (r, record { entries = r.update.entries; size = r.update.size ∙ v.size }))),
  λ ne u. rw (not_null ne) (free_in-panic pmm a v.entries u),
)
  where
    not_null : a ≢ 0 → (a == 0) ≡ false
    not_null ne = ground arith
