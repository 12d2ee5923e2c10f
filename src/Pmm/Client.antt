-- ===== src/Pmm/Client.antt =====
-- The allocator in use: a kernel that allocates pages, and frees pages that it holds.
use ukulele.Base.{
  ℕ, ◌+◌, ◌%◌, ◌≡◌, ◌≢◌, refl, sym, ap, List, [], ◌∷◌, arith, length, All, inl, inr, Outcome, ok,
  Returns, Returns-ok, Returns-mono, subst,
}
use ukulele.Page.{page_size}
use ukulele.Pmm.{Pmm, allocate_page, free_page}
use ukulele.Pmm.Valid.{IsValid, free, used, page_state, free_total}
use ukulele.Pmm.Alloc.{Allocated, Granted, allocate_page_lem}
use ukulele.Pmm.Free.{Released, free_page_lem}

-- `xs` with one item taken out is `ys`.
pub data Without (x : ℕ) : List ℕ → List ℕ → Type 0 where
  here : {xs : List ℕ} → Without x (x ∷ xs) xs
  there : {y : ℕ} {xs ys : List ℕ} → Without x xs ys → Without x (y ∷ xs) (y ∷ ys)

-- The allocator, and the pages that it has handed out and not got back.
pub record System : Type 0 where
  pub pmm : Pmm
  pub held : List ℕ

pub data Step (s : System) : System → Type 0 where
  grant :
      {qs : Pmm} {page : ℕ}
      → allocate_page s.pmm ≡ ok (qs, page)
      → page ≢ 0
      → Step s (record { pmm = qs; held = page ∷ s.held })
  refuse :
      {qs : Pmm} → allocate_page s.pmm ≡ ok (qs, 0) → Step s (record { pmm = qs; held = s.held })
  release :
      {qs : Pmm} {page : ℕ} {rest : List ℕ}
      → Without page s.held rest
      → free_page s.pmm page ≡ ok qs
      → Step s (record { pmm = qs; held = rest })

pub data Reach (s : System) : System → Type 0 where
  start : Reach s s
  step : {t u : System} → Reach s t → Step t u → Reach s u

-- A held page is a whole page, in use, and not the null page.
pub record IsHeld (pmm : Pmm) (page : ℕ) : Type 0 where
  pub aligned : page % page_size ≡ 0
  pub not_null : page ≢ 0
  pub in_use : page_state pmm page ≡ used

abbrev pub Distinct : List ℕ → Type 0
Distinct [] = Unit
Distinct (x ∷ xs) = All (λ y. x ≢ y) xs × Distinct xs

-- No page is held twice, and every free page is accounted for.
pub record IsSound (total : ℕ) (s : System) : Type 0 where
  pub valid : IsValid s.pmm
  pub held_in_use : All (IsHeld s.pmm) s.held
  pub distinct : Distinct s.held
  pub conserved : free_total s.pmm + length s.held ≡ total

Without-All {ℓ} :
    {x : ℕ} {xs ys : List ℕ} (P : ℕ → Type ℓ) → Without x xs ys → All P xs → P x × All P ys
Without-All P here h = (h.0, h.1)
Without-All P (there w) h = let r = Without-All P w h.1 in (r.0, (h.0, r.1))

Without-Distinct :
    {x : ℕ} {xs ys : List ℕ} → Without x xs ys → Distinct xs → All (λ y. x ≢ y) ys × Distinct ys
Without-Distinct here d = d
Without-Distinct (there {y} w) d =
    let r = Without-Distinct w d.1 in
    let apart = Without-All (λ z. y ≢ z) w d.0 in ((λ e. apart.0 (sym e), r.0), (apart.1, r.1))

length-Without : {x : ℕ} {xs ys : List ℕ} → Without x xs ys → length xs ≡ length ys + 1
length-Without here = omega arith
length-Without (there w) = omega (arith, length-Without w)

All-map : {P Q : ℕ → Type 0} (xs : List ℕ) → ((x : ℕ) → P x → Q x) → All P xs → All Q xs
All-map [] f h = tt
All-map (x ∷ xs) f h = (f x h.0, All-map xs f h.1)

All-both : (P Q : ℕ → Type 0) (xs : List ℕ) → All P xs → All Q xs → All (λ x. P x × Q x) xs
All-both P Q [] h k = tt
All-both P Q (x ∷ xs) h k = ((h.0, k.0), All-both P Q xs h.1 k.1)

-- What a step knows of the allocator's answer.
answer : {A : Type 0} {P : A → Type 0} {m : Outcome A} {a : A} → m ≡ ok a → Returns P m → P a
answer {P} e r = Returns-ok (subst (Returns P) e r)

module _ {pmm qs : Pmm} {page : ℕ} where
  IsHeld-Granted : Granted pmm (qs, page) → (y : ℕ) → IsHeld pmm y → IsHeld qs y × (page ≢ y)
  IsHeld-Granted g y h = (
    record {
      aligned = h.aligned;
      not_null = h.not_null;
      in_use = ground (arith, g.update.state y, h.in_use);
    },
    λ e. cc (g.was_free, h.in_use, ap (page_state pmm) e),
  )

  IsHeld-Released :
      Released pmm page qs
      → page % page_size ≡ 0
      → (y : ℕ) → IsHeld pmm y × (page ≢ y)
      → IsHeld qs y
  IsHeld-Released r whole y h = record {
    aligned = h.0.aligned;
    not_null = h.0.not_null;
    in_use = ground (arith, r.update.state y, h.0.in_use, h.0.aligned, h.1);
  }

module _ (n : ℕ) (s : System) (i : IsSound n s) where
  grant-IsSound :
      (qs : Pmm) (page : ℕ)
      → page ≢ 0
      → Allocated s.pmm (qs, page) × IsValid qs
      → IsSound n (record { pmm = qs; held = page ∷ s.held })
  grant-IsSound qs page ne (inr x, v) = absurd (ne x.null)
  grant-IsSound qs page ne (inl g, v) = record {
    valid = v;
    held_in_use = (
      record { aligned = g.aligned; not_null = ne; in_use = ground (arith, g.update.state page) },
      All-map s.held (λ y h. (IsHeld-Granted g y h).0) i.held_in_use,
    );
    distinct = (All-map s.held (λ y h. (IsHeld-Granted g y h).1) i.held_in_use, i.distinct);
    conserved = omega (arith, g.counted, i.conserved);
  }

  refuse-IsSound :
      (qs : Pmm)
      → Allocated s.pmm (qs, 0) × IsValid qs
      → IsSound n (record { pmm = qs; held = s.held })
  refuse-IsSound qs (inl g, v) = absurd (g.not_null refl)
  refuse-IsSound qs (inr x, v) = rw x.kept i

  release-IsSound :
      (qs : Pmm) (page : ℕ) (rest : List ℕ)
      → Without page s.held rest
      → Released s.pmm page qs × IsValid qs
      → IsSound n (record { pmm = qs; held = rest })
  release-IsSound qs page rest w (r, v) =
      let held = Without-All (IsHeld s.pmm) w i.held_in_use in
      let apart = Without-Distinct w i.distinct in
      record {
        valid = v;
        held_in_use =
            All-map rest (IsHeld-Released r held.0.aligned)
              (All-both (IsHeld s.pmm) (λ y. page ≢ y) rest held.1 apart.0);
        distinct = apart.1;
        conserved = omega (arith, r.counted, i.conserved, length-Without w);
      }

  -- A held page can be freed: neither panic is met.
  release-Returns :
      (page : ℕ) (rest : List ℕ)
      → Without page s.held rest
      → Returns (λ qs. Released s.pmm page qs × IsValid qs) (free_page s.pmm page)
  release-Returns page rest w =
      let held = Without-All (IsHeld s.pmm) w i.held_in_use in
      (free_page_lem page i.valid).1 held.0.not_null held.0.in_use

Step-IsSound : (n : ℕ) {s t : System} → Step s t → IsSound n s → IsSound n t
Step-IsSound n {s} (grant {qs} {page} e ne) i =
    grant-IsSound n s i qs page ne (answer e (allocate_page_lem i.valid))
Step-IsSound n {s} (refuse {qs} e) i =
    refuse-IsSound n s i qs (answer e (allocate_page_lem i.valid))
Step-IsSound n {s} (release {qs} {page} {rest} w e) i =
    release-IsSound n s i qs page rest w (answer e (release-Returns n s i page rest w))

-- Whatever a kernel allocates and frees, the invariant holds at every moment: the allocator is
-- valid, each held page is a whole page in use, no page is held twice, and the free pages and the
-- held ones together are as many as at the start.
pub Reach-IsSound : (n : ℕ) {s t : System} → IsSound n s → Reach s t → IsSound n t
Reach-IsSound n i start = i
Reach-IsSound n i (step r st) = Step-IsSound n st (Reach-IsSound n i r)

-- At any moment of such a run both calls return: an allocation does not panic, and neither does
-- the freeing of a page that is held, which makes the page free again.
pub calls_return :
    (n : ℕ) {s t : System} (page : ℕ) (rest : List ℕ)
    → IsSound n s
    → Reach s t
    → Returns (λ out. IsValid out.0) (allocate_page t.pmm)
      × (Without page t.held rest
          → Returns (λ qs. page_state qs page ≡ free) (free_page t.pmm page))
calls_return n {t} page rest i r =
    let now = Reach-IsSound n i r in
    (
      Returns-mono (allocate_page_lem now.valid) (λ out a. a.1),
      λ w.
          Returns-mono (release-Returns n t now page rest w)
            (λ qs a. let e = a.0.update.state page in ground arith),
    )
