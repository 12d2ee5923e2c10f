-- ===== src/Pmm/Count.antt =====
-- `pmm_count_pages`: the statistics add up.
use ukulele.Base.{
  ℕ, ◌+◌, ◌-◌, ◌*◌, ◌^◌, ◌<◌, ◌≡◌, [], ◌∷◌, arith, true, if◌then◌else◌, length, Bool-cases, inl,
  inr,
}
use ukulele.Pmm.{CtrlPtr, Pmm, Stat, count_entry, count_from, count_pages}
use ukulele.Pmm.Valid.{IsEntry, AreEntries, IsValid, free_total, free_pages-le}

-- The pages in use, and the control blocks.
pub used_total : Pmm → ℕ
used_total [] = 0
used_total (p ∷ ps) = (if p.active then p.max_pages - p.free_pages else 0) + used_total ps

pub block_total : Pmm → ℕ
block_total [] = 0
block_total (p ∷ ps) = (if p.active then 1 else 0) + block_total ps

-- The counters can take `n` more entries without wrapping.
record HasRoom (s : Stat) (n : ℕ) : Type 0 where
  free : s.free + 2 ^ 15 * n < 2 ^ 64
  used : s.used + 2 ^ 15 * n < 2 ^ 64
  total : s.total + 2 ^ 15 * n < 2 ^ 64
  overhead : s.overhead + 2 ^ 15 * n < 2 ^ 64

record Counted (s : Stat) (ps : Pmm) (t : Stat) : Type 0 where
  free : t.free ≡ s.free + free_total ps
  used : t.used ≡ s.used + used_total ps
  overhead : t.overhead ≡ s.overhead + block_total ps
  total : t.total ≡ s.total + free_total ps + used_total ps + block_total ps

module _ (s : Stat) (p : CtrlPtr) (ps : Pmm) (e : p.active ≡ true → IsEntry p)
    (room : HasRoom s (length (p ∷ ps))) where
  count_entry-HasRoom : HasRoom (count_entry s p) (length ps)
  unfolding count_entry
  count_entry-HasRoom = elim (Bool-cases p.active) [
    | inl on ↦ let h = free_pages-le (e on) in simp on (omega (arith, room.free, (e on).limit))
    | inr off ↦ simp off (omega arith)
  ]

  Counted-cons : (t : Stat) → Counted (count_entry s p) ps t → Counted s (p ∷ ps) t
  unfolding count_entry free_total used_total block_total
  Counted-cons t c = elim (Bool-cases p.active) [
    | inl on ↦ let h = free_pages-le (e on) in let small = (e on).limit in ground (arith, c)
    | inr off ↦ ground (arith, c)
  ]

count_from-Counted :
    (s : Stat) (ps : Pmm) → AreEntries ps → HasRoom s (length ps) → Counted s ps (count_from s ps)
unfolding count_from
count_from-Counted s [] es room = unfold free_total used_total block_total in omega arith
count_from-Counted s (p ∷ ps) es room =
    Counted-cons s p ps es.0 room (count_from (count_entry s p) ps)
      (count_from-Counted (count_entry s p) ps es.2 (count_entry-HasRoom s p ps es.0 room))

-- In a valid allocator no counter of `pmm_count_pages` wraps: the free pages are those of the
-- entries, the used ones are the rest of their pages, the overhead is a page for each control
-- block and one for the allocator itself, and the three make up the total.
pub count_pages_lem :
    {pmm : Pmm}
    → IsValid pmm
    → let s = count_pages pmm in
      (s.free ≡ free_total pmm)
      × (s.used ≡ used_total pmm)
      × (s.overhead ≡ block_total pmm + 1)
      × (s.total ≡ s.free + s.used + s.overhead)
unfolding count_pages
count_pages_lem {pmm} v = omega (
  arith,
  count_from-Counted (record { free = 0; total = 1; used = 0; overhead = 1 }) pmm v.entries
      (omega (arith, v.size)),
)
