-- ===== src/Vaddress/Ranges.antt =====
-- The abstract view of the list of regions: the addresses that it covers.
use ukulele.Base.{
  ℕ, ◌≤◌, ◌<◌, ◌≡◌, refl, List, [], ◌∷◌, arith, Bool, true, false, ◌&&◌, ◌||◌, ltb, leb,
}
use ukulele.Vaddress.{AddressRegion, gap_end}

-- The regions stand in order between two bounds and do not overlap.
abbrev pub IsSorted : ℕ → List AddressRegion → ℕ → Type 0
IsSorted lo [] hi = lo ≤ hi
IsSorted lo (r ∷ rs) hi = (lo ≤ r.begin) × (r.begin ≤ r.end) × IsSorted r.end rs hi

-- The address is in the range from `begin` up to, but not including, `end`.
abbrev pub inside : ℕ → ℕ → ℕ → Bool
inside begin end a = leb begin a && ltb a end

abbrev pub covered : List AddressRegion → ℕ → Bool
covered [] a = false
covered (r ∷ rs) a = inside r.begin r.end a || covered rs a

pub IsSorted-weaken :
    (lo lo' hi : ℕ) (rs : List AddressRegion) → lo' ≤ lo → IsSorted lo rs hi → IsSorted lo' rs hi
IsSorted-weaken lo lo' hi [] h s = omega (arith, h, s)
IsSorted-weaken lo lo' hi (r ∷ rs) h s = (omega (arith, s.0), s.1, s.2)

pub gap_end-between :
    (lo hi : ℕ) (rs : List AddressRegion)
    → IsSorted lo rs hi
    → (lo ≤ gap_end rs hi) × (gap_end rs hi ≤ hi)
gap_end-between lo hi [] s = (s, omega arith)
gap_end-between lo hi (r ∷ rs) s =
    let end = gap_end-between r.end hi rs s.2 in (s.0, omega (arith, s, end.0, end.1))

-- Nothing is covered up to the end of the first gap.
pub covered-gap :
    (lo hi x : ℕ) (rs : List AddressRegion)
    → IsSorted lo rs hi
    → x < gap_end rs hi
    → covered rs x ≡ false
covered-gap lo hi x [] s h = refl
covered-gap lo hi x (r ∷ rs) s h =
    let next = gap_end-between r.end hi rs s.2 in
    ground (arith, covered-gap r.end hi x rs s.2 (omega (arith, s.1, next.0)))

-- The lower bound may be anything up to the end of the first gap.
pub IsSorted-gap :
    (lo lo' hi : ℕ) (rs : List AddressRegion)
    → lo' ≤ gap_end rs hi
    → IsSorted lo rs hi
    → IsSorted lo' rs hi
IsSorted-gap lo lo' hi [] h s = h
IsSorted-gap lo lo' hi (r ∷ rs) h s = (h, s.1, s.2)

-- What is covered is above the lower bound.
pub covered-above :
    (lo hi x : ℕ) (rs : List AddressRegion) → IsSorted lo rs hi → covered rs x ≡ true → lo ≤ x
covered-above lo hi x (r ∷ rs) s h = ground (arith, covered-above r.end hi x rs s.2, s.0, s.1)
covered-above lo hi x [] s h = absurd (cc)
