-- ===== src/Kernel/Map.antt =====
-- A memory map, and what `pmm_add` makes of one of its entries.
use ukulele.Base.{
  ℕ, ◌+◌, ◌-◌, ◌%◌, ◌^◌, max, ◌≤◌, ◌<◌, ◌≡◌, ◌≢◌, ◌⊎◌, inl, inr, refl, sym, ◌∙◌, arith, List, [],
  ◌∷◌, Option, Bool, true, false, ◌&&◌, ◌||◌, ltb, ◌==◌, ==_iff, if◌then◌else◌, Bool-cases, Returns,
  Returns-mono, Returns-when,
}
use ukulele.Page.{page_size}
use ukulele.Pmm.{Pmm, Warning, max_block_size_bytes, min_block_size_bytes, add}
use ukulele.Pmm.Valid.{claimed, IsValid, PageState, unmanaged, free, used, page_state, unclaimed}
use ukulele.Pmm.Full.{IsFull, add-IsFull}
use ukulele.Pmm.Place.{in_range, IsUnclaimed}
use ukulele.Pmm.Add.{Ends, whole, remnant, no_entry, added_state, add_lem}
use ukulele.Kernel.{MemmapEntry}

-- The sum and the largest of the lengths of the entries of a type, and whether an address lies in
-- one of them.
unfoldable pub bytes_of : ℕ → List MemmapEntry → ℕ
bytes_of type [] = 0
bytes_of type (e ∷ es) = (if e.type == type then e.length else 0) + bytes_of type es

unfoldable pub largest_of : ℕ → List MemmapEntry → ℕ
largest_of type [] = 0
largest_of type (e ∷ es) = max (if e.type == type then e.length else 0) (largest_of type es)

-- An entry of the type with this base and length.
pub data HasEntry (type base length : ℕ) : List MemmapEntry → Type 0 where
  here :
      {e : MemmapEntry} {es : List MemmapEntry}
      → e.type ≡ type
      → e.base ≡ base
      → e.length ≡ length
      → HasEntry type base length (e ∷ es)
  there :
      {e : MemmapEntry} {es : List MemmapEntry}
      → HasEntry type base length es
      → HasEntry type base length (e ∷ es)

abbrev pub in_entry : ℕ → MemmapEntry → ℕ → Bool
in_entry type e a = e.type == type && in_range e.base e.length a

unfoldable pub in_map : ℕ → List MemmapEntry → ℕ → Bool
in_map type [] a = false
in_map type (e ∷ es) a = in_entry type e a || in_map type es a

-- The entries of the type are whole pages from the start on, lie below 2 ^ 64 and do not overlap.
abbrev pub AreRegions : ℕ → List MemmapEntry → Type 0
AreRegions type [] = Unit
AreRegions type (e ∷ es) =
    (e.type ≡ type → (e.base % page_size ≡ 0) × (e.base + e.length < 2 ^ 64))
    × ((a : ℕ) → in_entry type e a ≡ true → in_map type es a ≡ false)
    × AreRegions type es

-- A prefix of the entry's memory is in the allocator: the first page of each 128 MiB is a control
-- block, every other page is free. Less than 64 pages are left, or the allocator is full.
pub record IsCovered (pmm : Pmm) (e : MemmapEntry) : Type 0 where
  pub done : ℕ
  pub within : done ≤ e.length
  pub state :
      (a : ℕ)
      → in_range e.base done a ≡ true
      → page_state pmm a
        ≡ (if ltb ((a - e.base) % max_block_size_bytes) page_size then unmanaged else free)
  pub complete : (e.length < done + min_block_size_bytes) ⊎ IsFull pmm

-- What one more region does to an allocator: `pmm_add` of memory that nobody claims.
pub record Grown (type : ℕ) (e : MemmapEntry) (ps qs : Pmm) : Type 0 where
  pub valid : IsValid qs
  pub covered : e.type ≡ type → IsCovered qs e
  pub claims : (a : ℕ) → claimed qs a ≡ true → (claimed ps a ≡ true) ⊎ (in_entry type e a ≡ true)
  pub other : (a : ℕ) → in_entry type e a ≡ false → page_state qs a ≡ page_state ps a
  pub inside : (a : ℕ) → in_entry type e a ≡ true → page_state qs a ≢ used
  pub full_kept : IsFull ps → IsFull qs

covered-Ends :
    {qs : Pmm} {start size done : ℕ} {w : Option Warning}
    → Ends qs start size done w
    → (size < done + min_block_size_bytes) ⊎ IsFull qs
covered-Ends (whole e) = inl (omega arith)
covered-Ends (remnant e e' h) = inl (omega arith)
covered-Ends (no_entry e e' h all) = inr all

abbrev prefix_state : (start a : ℕ) → PageState
prefix_state start a =
    if ltb ((a - start) % max_block_size_bytes) page_size then unmanaged else free

prefix_state-unused : (start a : ℕ) → prefix_state start a ≢ used
prefix_state-unused start a =
    elim (Bool-cases (ltb ((a - start) % max_block_size_bytes) page_size)) [
      | inl y ↦ rw y (λ e. cc e)
      | inr n ↦ rw n (λ e. cc e)
    ]

-- Memory that nobody claimed is not in use after `pmm_add`.
added_state-unused :
    (ps : Pmm) (start done a : ℕ) → page_state ps a ≡ unmanaged → added_state ps start done a ≢ used
added_state-unused ps start done a before = elim (Bool-cases (in_range start done a)) [
  | inl y ↦ rw y (prefix_state-unused start a)
  | inr n ↦ rw (n, before) (λ e. cc e)
]

-- An entry of another type changes nothing.
pub Grown-none :
    (type : ℕ) (e : MemmapEntry) (ps : Pmm)
    → IsValid ps
    → (e.type == type) ≡ false
    → Grown type e ps ps
Grown-none type e ps v n = record {
  valid = v;
  covered = λ y. absurd (ground (arith, n, y));
  claims = λ a h. inl h;
  other = λ a h. refl;
  inside = λ a h. absurd (ground (arith, n, h));
  full_kept = λ full. full;
}

module _ (hhdm : ℕ) (aligned : hhdm % page_size ≡ 0) where
  pub add-Grown :
      {ps : Pmm} (e : MemmapEntry)
      → IsValid ps
      → e.base % page_size ≡ 0
      → e.base + e.length < 2 ^ 64
      → IsUnclaimed ps e.base e.length
      → Returns (λ out. Grown e.type e ps out.0) (add hhdm ps e.base e.length)
  add-Grown {ps} e v at fits fresh =
      let is_type = (==_iff e.type e.type).1 refl in
      Returns-mono
        (Returns-when (add_lem hhdm e.base e.length v aligned at fits fresh)
          (λ full. add-IsFull hhdm e.base e.length full at))
        (λ out ((a, v'), same). record {
          valid = v';
          covered = λ y. record {
            done = a.done;
            within = a.within;
            state = λ x h. let s = a.state x in rw h at s;
            complete = covered-Ends a.ends;
          };
          claims =
              λ x h. let c = a.claims_grown x in let w = a.within in ground (arith, c, h, is_type);
          other = λ x h. let c = a.state x in let w = a.within in ground (arith, c, h, is_type);
          inside = λ x h u.
              let claim = fresh x (ground (arith, h)) in
              added_state-unused ps e.base a.done x (unclaimed ps x v.entries claim)
                (sym (a.state x) ∙ u);
          full_kept = λ full. rw (same full) full;
        })
