-- ===== src/Pmm/Place.antt =====
-- One block of `pmm_add`: the entry that it sets up, and where it goes.
use ukulele.Base.{
  ℕ, ◌+◌, ◌*◌, ◌/◌, ◌%◌, ◌^◌, ◌≤◌, ◌<◌, ◌≡◌, refl, ap, suc, [], ◌∷◌, Option, none, some, arith,
  Bool, true, false, ◌&&◌, ◌||◌, ltb, leb, if◌then◌else◌, length, All, Bool-cases, inl, inr, ok,
  Returns, returns, Returns-bind, add64, sub64, u16,
}
use ukulele.Page.{page_size, is_page_aligned_iff}
use ukulele.Pmm.{max_block_size_bytes, CtrlPtr, Pmm, owns, setup_entry, place}
use ukulele.Pmm.Block.{block_bit, weight_exact}
use ukulele.Pmm.Init.{ctrl_initialise-Exactly}
use ukulele.Pmm.Valid.{
  page_index, claims, claimed, IsEntry, AreEntries, unmanaged, free, state_in, page_state,
  free_total, owns-active, owns-claims, unclaimed,
}

-- The address lies in the `n` bytes from `start` on.
abbrev pub in_range : ℕ → ℕ → ℕ → Bool
in_range start n a = leb start a && ltb a (start + n)

-- What `pmm_add` can make a block of.
pub record IsRegion (start n : ℕ) : Type 0 where
  pub start_aligned : start % page_size ≡ 0
  pub size_aligned : n % page_size ≡ 0
  pub least : 2 * page_size ≤ n
  pub most : n ≤ max_block_size_bytes
  pub fits : start + n < 2 ^ 64

-- The entry of a new block: its first page is the control block, all others are free.
record IsFresh (start n : ℕ) (q : CtrlPtr) : Type 0 where
  on : q.active ≡ true
  entry : IsEntry q
  begins : q.physical_start ≡ start + page_size
  pages : page_size * q.max_pages + page_size ≡ n
  all_free : (j : ℕ) → j < q.max_pages → block_bit q.ctrl j ≡ 1
  counted : q.free_pages ≡ q.max_pages

module _ (hhdm start n : ℕ) (aligned : hhdm % page_size ≡ 0) (r : IsRegion start n) where
  setup_entry-IsFresh : Returns (IsFresh start n) (setup_entry hhdm start n)
  unfolding setup_entry
  setup_entry-IsFresh =
      Returns-bind _
        (ctrl_initialise-Exactly (add64 start hhdm) (u16 (sub64 n page_size / page_size))
          ((is_page_aligned_iff (add64 start hhdm)).1 (omega arith)) (omega arith))
        (λ ws e. returns (record {
          on = refl;
          entry = record {
            words = e.words;
            size = e.size;
            spare = e.off;
            counted = omega (
              arith,
              e.size,
              weight_exact ws (u16 (sub64 n page_size / page_size)) (omega (arith, e.size)) e.on
                  e.off,
            );
            limit = omega arith;
            above = omega arith;
            aligned = omega arith;
            fits = omega arith;
          };
          begins = omega arith;
          pages = omega arith;
          all_free = e.on;
          counted = refl;
        }))

module _ {start n : ℕ} {q : CtrlPtr} (f : IsFresh start n q) where
  claims-IsFresh : (a : ℕ) → claims q a ≡ in_range start n a
  claims-IsFresh a = ground (arith, f.on, f.begins, f.pages)

  owns-IsFresh : (a : ℕ) → owns q a ≡ (in_range start n a && leb (start + page_size) a)
  owns-IsFresh a = ground (arith, f.on, f.begins, f.pages, f.entry.fits)

  state_in-IsFresh : (a : ℕ) → owns q a ≡ true → state_in q a ≡ free
  state_in-IsFresh a own =
      let below : page_index q a < q.max_pages = ground (arith, f.entry.fits) in
      rw (f.all_free (page_index q a) below)

-- The block has gone to the first inactive entry.
pub record Placed (ps qs : Pmm) (start n : ℕ) : Type 0 where
  pub entries : AreEntries qs
  pub claims_grown : (a : ℕ) → claimed qs a ≡ (in_range start n a || claimed ps a)
  pub state :
      (a : ℕ)
      → page_state qs a ≡ (
          if in_range start n a
          then (if ltb a (start + page_size) then unmanaged else free)
          else page_state ps a)
  pub size : length qs ≡ length ps
  pub counted : page_size * free_total qs + page_size ≡ page_size * free_total ps + n

-- Either there was room, or every entry is in use.
pub data Placing (ps : Pmm) (start n : ℕ) : Option Pmm → Type 0 where
  placed : {qs : Pmm} → Placed ps qs start n → Placing ps start n (some qs)
  full : All (λ p. p.active ≡ true) ps → Placing ps start n none

abbrev pub IsUnclaimed : Pmm → ℕ → ℕ → Type 0
IsUnclaimed ps start n = (a : ℕ) → in_range start n a ≡ true → claimed ps a ≡ false

module _ (p : CtrlPtr) (ps : Pmm) (start n : ℕ) (es : AreEntries (p ∷ ps))
    (new : IsUnclaimed (p ∷ ps) start n) where
  Placed-here :
      p.active ≡ false → (q : CtrlPtr) → IsFresh start n q → Placed (p ∷ ps) (q ∷ ps) start n
  unfolding page_state free_total
  Placed-here idle q f = record {
    entries = (λ _. f.entry, λ a c. ground (arith, claims-IsFresh f a, new a), es.2);
    claims_grown = λ a. ground (arith, claims-IsFresh f a);
    state = λ a. ground (arith, owns-IsFresh f a, state_in-IsFresh f a, new a, unclaimed ps a es.2);
    size = refl;
    counted = ground (arith, f.on, f.counted, f.pages);
  }

  Placed-there : (qs : Pmm) → Placed ps qs start n → Placed (p ∷ ps) (p ∷ qs) start n
  unfolding page_state free_total
  Placed-there qs d = record {
    entries = (es.0, λ a c. ground (arith, d.claims_grown a, new a, es.1 a c), d.entries);
    claims_grown = λ a. ground (arith, d.claims_grown a);
    state = λ a. elim (Bool-cases (owns p a)) [
      | inl own ↦
          let claim = owns-claims (es.0 (owns-active p a own)) a own in ground (arith, new a)
      | inr off ↦ rw off (d.state a)
    ];
    size = ap suc d.size;
    counted = omega (arith, d.counted);
  }

-- A region that nobody claims is placed in the first inactive entry, or there is none.
pub place-Placing :
    (hhdm : ℕ) (ps : Pmm) (start n : ℕ)
    → hhdm % page_size ≡ 0
    → IsRegion start n
    → AreEntries ps
    → IsUnclaimed ps start n
    → Returns (Placing ps start n) (place hhdm ps start n)
unfolding place
place-Placing hhdm [] start n aligned r es new = returns (full tt)
place-Placing hhdm (p ∷ ps) start n aligned r es new = elim (Bool-cases p.active) [
  | inl on ↦ simp on (
      Returns-bind _ (place-Placing hhdm ps start n aligned r es.2 (λ a h. ground (arith, new a h)))
        (there on))
  | inr idle ↦ simp idle (
      Returns-bind _ (setup_entry-IsFresh hhdm start n aligned r)
        (λ q f. returns (placed (Placed-here p ps start n es new idle q f))))
]
  where
    there :
        p.active ≡ true
        → (found : Option Pmm) → Placing ps start n found
        → Returns
            (Placing (p ∷ ps) start n)
            (ok (elim found [ none ↦ none | some qs ↦ some (p ∷ qs) ]))
    there on (some qs) (placed d) = returns (placed (Placed-there p ps start n es new qs d))
    there on none (full all) = returns (full (on, all))
