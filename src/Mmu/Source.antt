-- ===== src/Mmu/Source.antt =====
-- The page tables over the physical page allocator: `pmm_allocate_page` and `pmm_free_page` keep
-- what the tables rely on.
use ukulele.Base.{
  ℕ, ◌/◌, ◌%◌, ◌^◌, ◌<◌, ◌≡◌, ◌≢◌, inl, inr, refl, sym, ap, ◌∙◌, arith, false, ◌==◌, ==_iff,
  Bool-cases, Returns-mono,
}
use ukulele.Page.{page_size}
use ukulele.Pmm.{Pmm, allocate_page, free_page}
use ukulele.Pmm.Valid.{IsValid, PageState, unmanaged, free, used, page_state, free_total, same_page}
use ukulele.Pmm.Update.{Updated}
use ukulele.Pmm.Alloc.{Granted, allocate_page_lem}
use ukulele.Pmm.Free.{Released, free_page_lem}
use ukulele.Mmu.Tree.{Given, TakenBack, IsSource}

-- The allocator is valid and manages memory that an entry of a page table can name.
pub record IsReady (p : Pmm) : Type 0 where
  pub valid : IsValid p
  pub bounded : (a : ℕ) → page_state p a ≢ unmanaged → a < 2 ^ 52

pub record IsPageIn (state : PageState) (p : Pmm) (a : ℕ) : Type 0 where
  pub in_state : page_state p a ≡ state
  pub aligned : a % 4096 ≡ 0

module _ {p q : Pmm} {a : ℕ} {t : PageState} (u : Updated p q a t) where
  state-here : page_state q a ≡ t
  state-here =
      let e = u.state a in let y = (==_iff (a / page_size) (a / page_size)).1 refl in rw y at e

  state-other : (b : ℕ) → a % 4096 ≡ 0 → b % 4096 ≡ 0 → b ≢ a → page_state q b ≡ page_state p b
  state-other b al bl ne =
      let e = u.state b in let n : same_page b a ≡ false = ground (arith, ne, al, bl) in rw n at e

  IsReady-Updated : IsReady p → page_state p a ≢ unmanaged → IsValid q → IsReady q
  IsReady-Updated r managed v = record {
    valid = v;
    bounded = λ b m. elim (Bool-cases (same_page b a)) [
      | inl y ↦ omega (arith, r.bounded a managed, (==_iff (b / page_size) (a / page_size)).0 y)
      | inr n ↦ let e = u.state b in r.bounded b λ x. m (rw n at e ∙ x)
    ];
  }

free_not_used : free ≢ used
free_not_used e = cc e

Given-Granted :
    (p : Pmm) (out : Pmm × ℕ)
    → IsReady p
    → Granted p out
    → IsValid out.0
    → Given IsReady free_total (IsPageIn free) (IsPageIn used) p out
Given-Granted p out r g v =
    let managed : page_state p out.1 ≢ unmanaged = λ e. cc (sym g.was_free ∙ e) in
    let other = state-other g.update in
    let here = state-here g.update in
    let same : (q : ℕ) → q ≡ out.1 → page_state out.0 q ≡ used =
      λ q e. ap (page_state out.0) e ∙ here in
    record {
      not_null = g.not_null;
      aligned = g.aligned;
      bounded = r.bounded out.1 managed;
      was_fresh = record { in_state = g.was_free; aligned = g.aligned };
      ready' = IsReady-Updated g.update r managed v;
      counted = g.counted;
      fresh_before = λ q f.
          let ne : q ≢ out.1 = λ e. cc (sym f.in_state ∙ same q e) in
          (
            record {
              in_state = sym (other q g.aligned f.aligned ne) ∙ f.in_state;
              aligned = f.aligned;
            },
            ne,
          );
      held_page = record { in_state = here; aligned = g.aligned };
      held_still = λ q h.
          let ne : q ≢ out.1 = λ e. cc (sym g.was_free ∙ ap (page_state p) (sym e) ∙ h.in_state) in
          record { in_state = other q g.aligned h.aligned ne ∙ h.in_state; aligned = h.aligned };
    }

TakenBack-Released :
    (p : Pmm) (a : ℕ) (q : Pmm)
    → IsReady p
    → IsPageIn used p a
    → Released p a q
    → IsValid q
    → TakenBack IsReady free_total (IsPageIn free) (IsPageIn used) p a q
TakenBack-Released p a q r h x v =
    let managed : page_state p a ≢ unmanaged = λ e. cc (sym h.in_state ∙ e) in
    let other = state-other x.update in
    record {
      ready' = IsReady-Updated x.update r managed v;
      counted = x.counted;
      fresh_before = λ b f. elim (Bool-cases (b == a)) [
        | inl y ↦ inr ((==_iff b a).0 y)
        | inr n ↦
            let ne : b ≢ a = ground (arith, n) in
            inl (record {
              in_state = sym (other b h.aligned f.aligned ne) ∙ f.in_state;
              aligned = f.aligned;
            })
      ];
      held_still = λ b k ne. record {
        in_state = other b h.aligned k.aligned ne ∙ k.in_state;
        aligned = k.aligned;
      };
    }

-- `pmm_allocate_page` and `pmm_free_page` give the page tables what they rely on: in a valid
-- allocator whose memory lies below 2^52, a page is given out whenever one is left, it was free,
-- and pages that were given out stay so; and a page that is in use can be given back.
pub allocate_page-IsSource :
    IsSource allocate_page free_page IsReady free_total (IsPageIn free) (IsPageIn used)
allocate_page-IsSource = record {
  allocates = λ p r left. Returns-mono (allocate_page_lem r.valid) λ out a. elim a.0 [
    | inl g ↦ Given-Granted p out r g a.1
    | inr x ↦ absurd (omega (arith, x.counted, left))
  ];
  frees = λ p a r h ne.
      Returns-mono ((free_page_lem a r.valid).1 ne h.in_state)
        λ q x. TakenBack-Released p a q r h x.0 x.1;
}
