-- ===== src/Pmm/Restore.antt =====
-- Freeing a page that was just allocated undoes the allocation.
use ukulele.Base.{
  ℕ, ◌≡◌, ◌≢◌, refl, sym, ap, ◌∙◌, [], ◌∷◌, arith, true, false, Bool-cases, inl, inr, ok, Returns,
  returns, Returns-bind, Returns-mono, ◌==◌,
}
use ukulele.Pmm.{CtrlPtr, Pmm, owns, has_space, allocate_page, give_back, free_in, free_page}
use ukulele.Pmm.Block.{block_bit, eq_of_block_bits}
use ukulele.Pmm.Valid.{page_index, IsEntry, AreEntries, IsValid, not_owned}
use ukulele.Pmm.Update.{owns-IsPage, owns-SameShape, page_index-IsPage}
use ukulele.Pmm.Alloc.{
  TookPage, take_page-TookPage, Allocated, Granted-here, Allocated-there, Exhausted-nil,
}
use ukulele.Pmm.Free.{GaveBack, GaveBack-given, give_back-ok, given}

module _ {p : CtrlPtr} {out : CtrlPtr × ℕ} (e : IsEntry p) (t : TookPage p out) where
  taken_index : page_index out.0 out.1 ≡ t.index
  taken_index = rw t.shape.start (page_index-IsPage e t.page)

  taken-owns : owns out.0 out.1 ≡ true
  taken-owns = owns-SameShape t.shape out.1 ∙ owns-IsPage e t.page

  restored_bits :
      (r : CtrlPtr) → GaveBack out.0 out.1 r → (j : ℕ) → block_bit r.ctrl j ≡ block_bit p.ctrl j
  restored_bits r g j = elim (Bool-cases (t.index == j)) [
    | inl hit ↦
        let e' : j ≡ t.index = ground arith in
        rw e' (rw taken_index at g.flip.was_set ∙ sym t.flip.was_set)
    | inr miss ↦
        let ne : t.index ≢ j = ground arith in
        let ne' : page_index out.0 out.1 ≢ j = rw taken_index ne in
        sym (g.flip.same j ne') ∙ t.flip.same j ne
  ]

  restored_block : (r : CtrlPtr) → GaveBack out.0 out.1 r → r.ctrl ≡ p.ctrl
  restored_block r g =
      eq_of_block_bits r.ctrl p.ctrl (g.entry.size ∙ sym e.size) g.entry.words e.words
        (restored_bits r g)

  restored_entry : (r : CtrlPtr) → GaveBack out.0 out.1 r → r ≡ p
  restored_entry r g = ground (
    arith,
    restored_block r g,
    g.shape.start ∙ t.shape.start,
    g.shape.pages ∙ t.shape.pages,
    g.shape.active ∙ t.shape.active,
    g.shape.address ∙ t.shape.address,
    g.counted,
    t.counted,
  )

  give_back-restores : give_back out.0 out.1 ≡ ok p
  give_back-restores =
      let clear : block_bit out.0.ctrl (page_index out.0 out.1) ≡ 0 =
        rw taken_index t.flip.is_clear in
      give_back-ok out.0 out.1 t.entry taken-owns clear
      ∙ ap ok (
          restored_entry (given out.0 out.1 t.entry taken-owns clear)
            (GaveBack-given out.0 out.1 t.entry taken-owns clear))

abbrev Restores : Pmm → Pmm × ℕ → Type 0
Restores ps out = out.1 ≢ 0 → free_in out.0 out.1 ≡ ok ps

-- The page is given back at the entry that it was taken from.
Restores-there :
    (p : CtrlPtr) (ps : Pmm) (out : Pmm × ℕ)
    → AreEntries (p ∷ ps)
    → Allocated ps out
    → Restores ps out
    → Restores (p ∷ ps) (p ∷ out.0, out.1)
unfolding free_in
Restores-there p ps out es (inl g) r ne = simp (not_owned p ps out.1 es g.update.page_claimed, r ne)
Restores-there p ps out es (inr x) r ne = absurd (ne x.null)

allocate_page-Restores :
    (ps : Pmm)
    → AreEntries ps
    → Returns (λ out. Allocated ps out × Restores ps out) (allocate_page ps)
unfolding allocate_page free_in
allocate_page-Restores [] es = returns (inr Exhausted-nil, λ ne. absurd (ne refl))
allocate_page-Restores (p ∷ ps) es = elim (Bool-cases (has_space p)) [
  | inl space ↦
      let on : p.active ≡ true = ground arith in
      simp space (
        Returns-bind _ (take_page-TookPage on (es.0 on) (ground arith)) (λ out t. returns (
          inl (Granted-here p ps es on out t),
          λ ne. simp (taken-owns (es.0 on) t, give_back-restores (es.0 on) t),
        )))
  | inr full ↦ simp full (
      Returns-bind _ (allocate_page-Restores ps es.2) (λ out a.
        returns (Allocated-there p ps es full out a.0, Restores-there p ps out es a.0 a.1)))
]

-- In a valid allocator a page that `pmm_allocate_page` has just returned can be freed, and that
-- gives the allocator as it was before, the control block included.
pub free_page-allocate_page :
    {pmm : Pmm}
    → IsValid pmm
    → Returns (λ out. out.1 ≢ 0 → free_page out.0 out.1 ≡ ok pmm) (allocate_page pmm)
unfolding free_page
free_page-allocate_page {pmm} v =
    Returns-mono (allocate_page-Restores pmm v.entries) (λ out a ne. rw (not_null ne) (a.1 ne))
  where
    not_null : {n : ℕ} → n ≢ 0 → (n == 0) ≡ false
    not_null ne = ground arith
