-- ===== src/Vaddress/Allocate.antt =====
-- `vaddress_allocate`: the range that it returns, and when it returns none.
use ukulele.Base.{
  ℕ, ◌+◌, ◌^◌, ◌≤◌, ◌<◌, ◌≡◌, ◌⊎◌, refl, ap, suc, List, [], ◌∷◌, Option, none, some, arith, leb,
  length, true, false, ◌||◌, Outcome, Returns, returns, Returns-bind, Bool-cases, inl, inr, add64,
  sub64,
}
use ukulele.Vaddress.{AddressRegion, Store, VaddressSpace, gap_end, extend, from_extend, allocate}
use ukulele.Vaddress.Ranges.{IsSorted, IsSorted-gap, inside, covered, gap_end-between, covered-gap}
use ukulele.Vaddress.Valid.{IsValid, SameSpace}
use ukulele.Vaddress.Nodes.{HasPage, NodeTaken, find_free_node-NodeTaken}

-- A fresh range at `out.1` has been added to the covered addresses.
pub record Placed (lo hi size : ℕ) (rs : List AddressRegion) (out : List AddressRegion × ℕ)
    : Type 0 where
  pub sorted : IsSorted lo out.0 hi
  pub above : lo ≤ out.1
  pub below : out.1 + size ≤ hi
  pub was_free : (x : ℕ) → inside out.1 (out.1 + size) x ≡ true → covered rs x ≡ false
  pub covers : (x : ℕ) → covered out.0 x ≡ (inside out.1 (out.1 + size) x || covered rs x)

-- Every gap behind a region is too small.
pub NoGap : ℕ → ℕ → List AddressRegion → Type 0
NoGap hi size [] = Unit
NoGap hi size (r ∷ rs) = (gap_end rs hi < r.end + size) × NoGap hi size rs

-- What the loop comes to.
Extended : ℕ → ℕ → ℕ → List AddressRegion → Option (List AddressRegion × ℕ) → Type 0
Extended lo hi size rs none = NoGap hi size rs
Extended lo hi size rs (some out) = Placed lo hi size rs out × (length out.0 ≡ length rs)

-- The region grows into the gap behind it.
Placed-grow :
    (lo hi size : ℕ) (r : AddressRegion) (rs : List AddressRegion)
    → IsSorted lo (r ∷ rs) hi
    → r.end + size ≤ gap_end rs hi
    → Placed lo hi size (r ∷ rs) (record r { end = r.end + size } ∷ rs, r.end)
Placed-grow lo hi size r rs s h =
    let next = gap_end-between r.end hi rs s.2 in
    record {
      sorted = (s.0, omega (arith, s.1), IsSorted-gap r.end (r.end + size) hi rs h s.2);
      above = omega (arith, s.0, s.1);
      below = omega (arith, next.1);
      was_free = λ x i. ground (arith, covered-gap r.end hi x rs s.2 (ground arith));
      covers = λ x. ground (arith, s.1);
    }

-- The range is found further on.
Placed-later :
    (lo hi size : ℕ) (r : AddressRegion) (rs : List AddressRegion) (out : List AddressRegion × ℕ)
    → IsSorted lo (r ∷ rs) hi
    → Placed r.end hi size rs out
    → Placed lo hi size (r ∷ rs) (r ∷ out.0, out.1)
Placed-later lo hi size r rs out s p = record {
  sorted = (s.0, s.1, p.sorted);
  above = omega (arith, s.0, s.1, p.above);
  below = p.below;
  was_free = λ x i. ground (arith, p.was_free x i, p.above);
  covers = λ x. ground (arith, p.covers x);
}

Extended-later :
    (lo hi size : ℕ) (r : AddressRegion) (rs : List AddressRegion)
    (o : Option (List AddressRegion × ℕ))
    → IsSorted lo (r ∷ rs) hi
    → gap_end rs hi < r.end + size
    → Extended r.end hi size rs o
    → Extended lo hi size (r ∷ rs) (elim o [ none ↦ none | some (rs', a) ↦ some (r ∷ rs', a) ])
unfolding Extended NoGap
Extended-later lo hi size r rs none s n e = (n, e)
Extended-later lo hi size r rs (some (rs', a)) s n e =
    (Placed-later lo hi size r rs (rs', a) s e.0, ap suc e.1)

extend-Extended :
    (lo hi size : ℕ) (rs : List AddressRegion)
    → hi < 2 ^ 64
    → IsSorted lo rs hi
    → Extended lo hi size rs (extend rs hi size)
unfolding extend Extended NoGap
extend-Extended lo hi size [] w s = tt
extend-Extended lo hi size (r ∷ rs) w s =
    let next = gap_end-between r.end hi rs s.2 in
    elim (Bool-cases (leb size (sub64 (gap_end rs hi) r.end))) [
      | inl y ↦
          let fits : r.end + size ≤ gap_end rs hi = ground (arith, next.0, next.1) in
          let e : add64 r.end size ≡ r.end + size = omega (arith, next.1) in
          rw (y, e) (Placed-grow lo hi size r rs s fits, refl)
      | inr n ↦ rw n (
          Extended-later lo hi size r rs (extend rs hi size) s (ground (arith, next.0, next.1))
            (extend-Extended r.end hi size rs w s.2))
    ]

module _ {P : Type 0} where
  -- The range at `out.1` was free and is covered now.
  pub record Fresh (v : VaddressSpace P) (size : ℕ) (out : VaddressSpace P × ℕ) : Type 0 where
    pub valid : IsValid out.0
    pub same : SameSpace v out.0
    pub placed : Placed v.space_begin v.space_end size v.allocated (out.0.allocated, out.1)

  -- No gap is large enough, and nothing has changed.
  pub record Refused (v : VaddressSpace P) (size : ℕ) (out : VaddressSpace P × ℕ) : Type 0 where
    pub null : out.1 ≡ 0
    pub kept : out.0 ≡ v
    pub no_head : gap_end v.allocated v.space_end < v.space_begin + size
    pub no_gap : NoGap v.space_end size v.allocated

  Fresh-head :
      (v : VaddressSpace P) (size : ℕ)
      → IsValid v
      → v.space_begin + size ≤ gap_end v.allocated v.space_end
      → (out : Store P × ℕ) → NodeTaken v.store out
      → Fresh v size (
        record v {
          store = out.0;
          allocated =
              record { node = out.1; begin = v.space_begin; end = v.space_begin + size }
              ∷ v.allocated;
        },
        v.space_begin,
      )
  Fresh-head v size i fits out t =
      let sorted' =
        IsSorted-gap v.space_begin (v.space_begin + size) v.space_end v.allocated fits i.sorted in
      let ends = gap_end-between v.space_begin v.space_end v.allocated i.sorted in
      record {
        valid = record {
          sorted = (omega arith, omega arith, sorted');
          bounded = i.bounded;
          counted = omega (arith, t.counted, i.counted);
        };
        same = record { same_begin = refl; same_end = refl };
        placed = record {
          sorted = (omega arith, omega arith, sorted');
          above = omega arith;
          below = omega (arith, ends.1);
          was_free = λ x h.
              covered-gap v.space_begin v.space_end x v.allocated i.sorted (ground (arith, fits));
          covers = λ x. refl;
        };
      }

  later :
      (v : VaddressSpace P) (size : ℕ)
      → IsValid v
      → gap_end v.allocated v.space_end < v.space_begin + size
      → (o : Option (List AddressRegion × ℕ))
      → Extended v.space_begin v.space_end size v.allocated o
      → Returns (λ out. Fresh v size out ⊎ Refused v size out) (from_extend v o)
  unfolding Extended from_extend
  later v size i n none e =
      returns (inr (record { null = refl; kept = refl; no_head = n; no_gap = e }))
  later v size i n (some out) e = returns (
      inl (record {
        valid = record {
          sorted = e.0.sorted;
          bounded = i.bounded;
          counted = omega (arith, e.1, i.counted);
        };
        same = record { same_begin = refl; same_end = refl };
        placed = e.0;
      }))

  -- In a valid address space, with a page at hand, `vaddress_allocate` returns. Either the result
  -- is the start of a range of the given size inside the space no address of which was covered,
  -- just this range is covered in addition now, and the invariant holds; or the result is 0,
  -- nothing has changed, and every gap is too small.
  pub allocate_lem :
      (allocate_page : P → Outcome (P × ℕ)) (hhdm : ℕ) (v : VaddressSpace P) (size : ℕ)
      → IsValid v
      → HasPage allocate_page v.store.pmm
      → Returns (λ out. Fresh v size out ⊎ Refused v size out) (allocate allocate_page hhdm v size)
  unfolding allocate
  allocate_lem allocate_page hhdm v size i h =
      let ends = gap_end-between v.space_begin v.space_end v.allocated i.sorted in
      let bound = i.bounded in
      elim (Bool-cases (leb size (sub64 (gap_end v.allocated v.space_end) v.space_begin))) [
        | inl y ↦
            let fits : v.space_begin + size ≤ gap_end v.allocated v.space_end =
              ground (arith, ends.0, ends.1) in
            let e : add64 v.space_begin size ≡ v.space_begin + size = omega (arith, ends.1) in
            rw (y, e)
              (Returns-bind _ (find_free_node-NodeTaken allocate_page hhdm v.store h)
                λ out t. returns (inl (Fresh-head v size i fits out t)))
        | inr n ↦ rw n (
            later v size i (ground (arith, ends.0, ends.1)) _
              (extend-Extended v.space_begin v.space_end size v.allocated i.bounded i.sorted))
      ]
