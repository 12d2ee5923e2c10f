-- ===== src/Pmm/Alloc.antt =====
-- `pmm_allocate_page`: the page that it returns, and when it fails.
use ukulele.Base.{
  ℕ, ◌+◌, ◌-◌, ◌*◌, ◌%◌, ◌^◌, ◌≤◌, ◌<◌, ◌≡◌, ◌≢◌, refl, ◌⊎◌, List, [], ◌∷◌, arith, true, false,
  if◌then◌else◌, Bool-cases, inl, inr, Returns, returns, Returns-bind, Returns-mono, ◌∙◌, dec_lt,
  add64, u16,
}
use ukulele.Page.{page_size}
use ukulele.Pmm.{CtrlPtr, Pmm, owns, has_space, take_page, allocate_page}
use ukulele.Pmm.Block.{weight, Flip}
use ukulele.Pmm.Scan.{Taken, ctrl_alloc-Taken, clear_of_weight}
use ukulele.Pmm.Valid.{
  page_index, IsEntry, AreEntries, IsValid, free, used, state_in, page_state, free_total,
  owns-active, not_owned, free_pages-le,
}
use ukulele.Pmm.Update.{
  SameShape, IsPage, owns-IsPage, state_of_set, state_taken, Updated, Updated-here, Updated-there,
}

-- What `take_page` has done at an entry with a free page.
pub record TookPage (p : CtrlPtr) (out : CtrlPtr × ℕ) : Type 0 where
  pub index : ℕ
  pub page : IsPage p index out.1
  pub aligned : out.1 % page_size ≡ 0
  pub above : page_size ≤ out.1
  pub shape : SameShape p out.0
  pub entry : IsEntry out.0
  pub flip : Flip p.ctrl out.0.ctrl index
  pub counted : p.free_pages ≡ out.0.free_pages + 1

module _ {p : CtrlPtr} (on : p.active ≡ true) (e : IsEntry p) (some_free : 0 < p.free_pages) where
  Taken-index-lt : {out : List ℕ × ℕ} (t : Taken 0 p.ctrl out) → t.index < p.max_pages
  Taken-index-lt t = elim (dec_lt t.index p.max_pages) [
    | yes h ↦ h
    | no h ↦ absurd (omega (arith, e.spare t.index (omega arith), t.flip.was_set))
  ]

  TookPage-Taken :
      (out : List ℕ × ℕ)
      → Taken 0 p.ctrl out
      → TookPage p (
        record p { ctrl = out.0; free_pages = u16 (p.free_pages + 2 ^ 16 - 1) },
        add64 p.physical_start (page_size * out.1),
      )
  TookPage-Taken out t =
      let h = Taken-index-lt t in
      record {
        index = t.index;
        page = record { on = on; below = h; place = omega (arith, e.fits, e.aligned, t.result) };
        aligned = omega (arith, e.fits, e.aligned, t.result);
        above = omega (arith, e.fits, e.above, t.result);
        shape = record { start = refl; pages = refl; active = refl; address = refl };
        entry = record {
          words = t.words;
          size = omega (arith, e.size, t.flip.lengths);
          spare = λ j k. omega (arith, e.spare j k, t.flip.same j (omega arith));
          counted = omega (arith, e.counted, t.flip.counted, e.limit, free_pages-le e);
          limit = e.limit;
          above = e.above;
          aligned = e.aligned;
          fits = e.fits;
        };
        flip = t.flip;
        counted = omega (arith, e.limit, free_pages-le e);
      }

  pub take_page-TookPage : Returns (TookPage p) (take_page p)
  unfolding take_page
  take_page-TookPage =
      Returns-bind _
        (ctrl_alloc-Taken 0 p.ctrl e.words (omega (arith, e.size)) (omega (arith, e.counted)))
        (λ out t. returns (TookPage-Taken out t))

-- The allocator has granted `out.1`, a page that was free: it is in use now, and that is all
-- that has changed.
pub record Granted (ps : Pmm) (out : Pmm × ℕ) : Type 0 where
  pub not_null : out.1 ≢ 0
  pub aligned : out.1 % page_size ≡ 0
  pub was_free : page_state ps out.1 ≡ free
  pub update : Updated ps out.0 out.1 used
  pub counted : free_total ps ≡ free_total out.0 + 1

-- Nothing is free, and the allocator is as it was.
pub record Exhausted (ps : Pmm) (out : Pmm × ℕ) : Type 0 where
  pub null : out.1 ≡ 0
  pub kept : out.0 ≡ ps
  pub none_free : (a : ℕ) → page_state ps a ≢ free
  pub counted : free_total ps ≡ 0

abbrev pub Allocated : Pmm → Pmm × ℕ → Type 0
Allocated ps out = Granted ps out ⊎ Exhausted ps out

-- An entry without space has no free page.
full_state :
    (p : CtrlPtr)
    → (p.active ≡ true → IsEntry p)
    → has_space p ≡ false
    → (a : ℕ) → owns p a ≡ true
    → state_in p a ≡ used
full_state p e full a own =
    let on = owns-active p a own in
    let empty : weight p.ctrl ≡ 0 = ground (arith, (e on).counted) in
    rw (clear_of_weight p.ctrl (e on).words empty (page_index p a))

module _ (p : CtrlPtr) (ps : Pmm) (es : AreEntries (p ∷ ps)) where
  pub Granted-here :
      (on : p.active ≡ true) (out : CtrlPtr × ℕ)
      → TookPage p out
      → Granted (p ∷ ps) (out.0 ∷ ps, out.1)
  unfolding page_state free_total
  Granted-here on out t =
      let e = es.0 on in
      let own : owns p out.1 ≡ true = owns-IsPage e t.page in
      record {
        not_null = omega (arith, t.above);
        aligned = t.aligned;
        was_free = rw own (state_of_set e t.page t.flip.was_set);
        update = Updated-here es t.page t.entry t.shape (state_taken e t.page t.shape t.flip);
        counted = rw (t.shape.active, on) (omega (arith, t.counted));
      }

  pub Allocated-there :
      has_space p ≡ false
      → (out : Pmm × ℕ) → Allocated ps out
      → Allocated (p ∷ ps) (p ∷ out.0, out.1)
  unfolding page_state free_total
  Allocated-there full out (inl g) = inl (record {
    not_null = g.not_null;
    aligned = g.aligned;
    was_free = rw (not_owned p ps out.1 es g.update.page_claimed) g.was_free;
    update = Updated-there es g.update;
    counted = omega (arith, g.counted);
  })
  Allocated-there full out (inr x) = inr (record {
    null = x.null;
    kept = rw x.kept;
    none_free = nothing_free;
    counted = ground (arith, x.counted, no_pages);
  })
    where
      nothing_free : (a : ℕ) → page_state (p ∷ ps) a ≢ free
      nothing_free a h = elim (Bool-cases (owns p a)) [
        | inl own ↦ ground (arith, full_state p es.0 full a own)
        | inr off ↦ x.none_free a (rw off at h)
      ]

      no_pages : (if p.active then p.free_pages else 0) ≡ 0
      no_pages = ground arith

pub Exhausted-nil : Exhausted [] ([], 0)
unfolding page_state free_total
Exhausted-nil = record { null = refl; kept = refl; none_free = λ a h. cc; counted = refl }

pub allocate_page-entries : (ps : Pmm) → AreEntries ps → Returns (Allocated ps) (allocate_page ps)
unfolding allocate_page page_state free_total
allocate_page-entries [] es = returns (inr Exhausted-nil)
allocate_page-entries (p ∷ ps) es = elim (Bool-cases (has_space p)) [
  | inl space ↦
      let on : p.active ≡ true = ground arith in
      rw space (
        Returns-bind _ (take_page-TookPage on (es.0 on) (ground arith))
          (λ out t. returns (inl (Granted-here p ps es on out t))))
  | inr full ↦ rw full (
      Returns-bind _ (allocate_page-entries ps es.2)
        (λ out a. returns (Allocated-there p ps es full out a)))
]

-- In a valid allocator `pmm_allocate_page` does not panic and keeps the invariant. If it returns
-- an address, that is of a whole page other than 0 which was free and is in use now, the state of
-- every other page is unchanged, and the count of free pages is one lower. If it returns 0, no
-- page was free and nothing has changed.
pub allocate_page_lem :
    {pmm : Pmm}
    → IsValid pmm
    → Returns (λ out. Allocated pmm out × IsValid out.0) (allocate_page pmm)
allocate_page_lem {pmm} v =
    Returns-mono (allocate_page-entries pmm v.entries) λ out a. (a, kept out a)
  where
    kept : (out : Pmm × ℕ) → Allocated pmm out → IsValid out.0
    kept out (inl g) = record { entries = g.update.entries; size = g.update.size ∙ v.size }
    kept out (inr x) = rw x.kept v
