-- ===== src/Mmu/Entry.antt =====
-- `apply_nodes_entry` for a range of whole pages: its checks hold.
use ukulele.Base.{
  ℕ, ◌+◌, ◌-◌, ◌*◌, ◌/◌, ◌%◌, ◌^◌, ◌≤◌, ◌<◌, ◌≡◌, refl, arith, true, bit_and, add64, ltb, ◌==◌,
  ==_iff,
}
use ukulele.Page.{is_page_aligned_iff}
use ukulele.Mmu.{
  PageMapPart, Mmu, Visit, is_canonical_address, current_top, entry_checks, apply_nodes,
  apply_nodes_entry, higher_half_min,
}
use ukulele.Base.Bits.{bit_and_mask}
use ukulele.Mmu.Blocks.{loc_at}
use ukulele.Mmu.Cut.{IsRange}

-- Whole pages in the lower half but its last one, or in the upper half below the last 512 GiB.
pub data AreMappable (v size : ℕ) : Type 0 where
  lower : v % 4096 ≡ 0 → size % 4096 ≡ 0 → 0 < size → v + size < 2 ^ 47 → AreMappable v size
  upper :
      v % 4096 ≡ 0
      → size % 4096 ≡ 0
      → 0 < size
      → 2 ^ 64 - 2 ^ 47 ≤ v
      → v + size ≤ 2 ^ 64 - 2 ^ 39
      → AreMappable v size

pub AreMappable-IsRange : {v size : ℕ} → AreMappable v size → IsRange 0 v (v + size)
AreMappable-IsRange (lower al sal some_page top) = record {
  not_deep = omega arith;
  not_empty = omega arith;
  below_top = omega arith;
  one_table = omega arith;
  start_aligned = al;
  end_aligned = omega arith;
}
AreMappable-IsRange (upper al sal some_page low top) = record {
  not_deep = omega arith;
  not_empty = omega arith;
  below_top = omega arith;
  one_table = omega arith;
  start_aligned = al;
  end_aligned = omega arith;
}

pub AreMappable-fits :
    {v size : ℕ} → AreMappable v size → v / 4096 % 2 ^ 36 + (v + size - v) / 4096 ≤ 2 ^ 36
AreMappable-fits (lower al sal some_page top) = omega arith
AreMappable-fits (upper al sal some_page low top) = omega arith

-- The halves of the first and the last address of the range.
half : (v : ℕ) → v < 2 ^ 64 → bit_and v higher_half_min ≡ v / 2 ^ 47 * 2 ^ 47
half v h = omega (arith, bit_and_mask 47 64 v (omega arith))

is_canonical-AreMappable : {v size : ℕ} → AreMappable v size → is_canonical_address v ≡ true
unfolding is_canonical_address
is_canonical-AreMappable {v} (lower al sal some_page top) =
    let e : bit_and v higher_half_min ≡ 0 = omega (arith, half v (omega arith)) in rw e refl
is_canonical-AreMappable {v} (upper al sal some_page low top) =
    let e : bit_and v higher_half_min ≡ higher_half_min = omega (arith, half v (omega arith)) in
    rw e refl

same_half-AreMappable :
    {v size : ℕ}
    → AreMappable v size
    → (bit_and v higher_half_min == bit_and (v + size) higher_half_min) ≡ true
same_half-AreMappable {v} {size} (lower al sal some_page top) =
    (==_iff (bit_and v higher_half_min) (bit_and (v + size) higher_half_min)).1
      (omega (arith, half v (omega arith), half (v + size) (omega arith)))
same_half-AreMappable {v} {size} (upper al sal some_page low top) =
    (==_iff (bit_and v higher_half_min) (bit_and (v + size) higher_half_min)).1
      (omega (arith, half v (omega arith), half (v + size) (omega arith)))

module _ {P : Type 0} (cr3 root : ℕ) (top : PageMapPart)
    (is_top : current_top cr3 top ≡ record { page = root; depth = 0 }) (r : root % 4096 ≡ 0)
    {v size : ℕ} (m : AreMappable v size) where
  pub apply_nodes_entry-range :
      (visit : Visit P) (s : Mmu P)
      → apply_nodes_entry cr3 (record { part = top; start = v; end = add64 v size }) visit s
        ≡ apply_nodes (loc_at root 0 v (v + size)) visit s
  unfolding apply_nodes_entry entry_checks
  apply_nodes_entry-range visit s =
      let range = AreMappable-IsRange m in
      let e : add64 v size ≡ v + size = omega (arith, range.below_top, range.not_empty) in
      let a1 = (is_page_aligned_iff root).1 r in
      let a2 = (is_page_aligned_iff v).1 range.start_aligned in
      let a3 = (is_page_aligned_iff (v + size)).1 range.end_aligned in
      let a4 : ltb v (v + size) ≡ true = ground (arith, range.not_empty) in
      rw (is_top, e, a1, a2, a3, a4, is_canonical-AreMappable m, same_half-AreMappable m) refl
