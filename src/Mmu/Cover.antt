-- ===== src/Mmu/Cover.antt =====
-- Every range of whole pages that one table covers is walked block by block.
use ukulele.Base.{ℕ, zero, suc, ◌+◌, ◌-◌, ◌*◌, ◌/◌, ◌<◌, ◌≡◌, ap, ◌∙◌, arith}
use native.Mathlib.Nat.{add-zero}
use ukulele.Mmu.Cut.{IsRange, IsCut, InBlock, block}
use ukulele.Mmu.Walk.{Walk, last, next, Below, page, down}

IsRange-down :
    (depth : ℕ) {start end : ℕ}
    → IsRange depth start end
    → InBlock depth start end
    → depth < 3
    → IsRange (depth + 1) start end
IsRange-down zero r b h = record {
  not_deep = omega arith;
  not_empty = r.not_empty;
  below_top = r.below_top;
  one_table = omega (arith, r.one_table, b);
  start_aligned = r.start_aligned;
  end_aligned = r.end_aligned;
}
IsRange-down (suc zero) r b h = record {
  not_deep = omega arith;
  not_empty = r.not_empty;
  below_top = r.below_top;
  one_table = omega (arith, r.one_table, b);
  start_aligned = r.start_aligned;
  end_aligned = r.end_aligned;
}
IsRange-down (suc (suc zero)) r b h = record {
  not_deep = omega arith;
  not_empty = r.not_empty;
  below_top = r.below_top;
  one_table = omega (arith, r.one_table, b);
  start_aligned = r.start_aligned;
  end_aligned = r.end_aligned;
}
IsRange-down (suc (suc (suc d))) r b h = absurd (omega arith)

-- The block that a range begins in ends here.
abbrev first_cut : ℕ → ℕ → ℕ
first_cut depth start = (start / block depth + 1) * block depth

record CutOff (depth start end k : ℕ) : Type 0 where
  is_cut : IsCut depth start (first_cut depth start) end
  before : IsRange depth start (first_cut depth start)
  after : IsRange depth (first_cut depth start) end
  left : (end - 1) / block depth ≡ first_cut depth start / block depth + k

cut_off :
    (depth k : ℕ) {start end : ℕ}
    → IsRange depth start end
    → (end - 1) / block depth ≡ start / block depth + suc k
    → CutOff depth start end k
cut_off zero k r e =
    let lt = r.not_empty in
    let top = r.below_top in
    let same = r.one_table in
    let from = r.start_aligned in
    let to = r.end_aligned in
    record {
      is_cut = record {
        first = omega arith;
        after_start = omega arith;
        before_end = omega arith;
        on_block = omega arith;
      };
      before = record {
        not_deep = omega arith;
        not_empty = omega arith;
        below_top = omega arith;
        one_table = omega arith;
        start_aligned = from;
        end_aligned = omega arith;
      };
      after = record {
        not_deep = omega arith;
        not_empty = omega arith;
        below_top = top;
        one_table = omega arith;
        start_aligned = omega arith;
        end_aligned = to;
      };
      left = omega arith;
    }
cut_off (suc zero) k r e =
    let lt = r.not_empty in
    let top = r.below_top in
    let same = r.one_table in
    let from = r.start_aligned in
    let to = r.end_aligned in
    record {
      is_cut = record {
        first = omega arith;
        after_start = omega arith;
        before_end = omega arith;
        on_block = omega arith;
      };
      before = record {
        not_deep = omega arith;
        not_empty = omega arith;
        below_top = omega arith;
        one_table = omega arith;
        start_aligned = from;
        end_aligned = omega arith;
      };
      after = record {
        not_deep = omega arith;
        not_empty = omega arith;
        below_top = top;
        one_table = omega arith;
        start_aligned = omega arith;
        end_aligned = to;
      };
      left = omega arith;
    }
cut_off (suc (suc zero)) k r e =
    let lt = r.not_empty in
    let top = r.below_top in
    let same = r.one_table in
    let from = r.start_aligned in
    let to = r.end_aligned in
    record {
      is_cut = record {
        first = omega arith;
        after_start = omega arith;
        before_end = omega arith;
        on_block = omega arith;
      };
      before = record {
        not_deep = omega arith;
        not_empty = omega arith;
        below_top = omega arith;
        one_table = omega arith;
        start_aligned = from;
        end_aligned = omega arith;
      };
      after = record {
        not_deep = omega arith;
        not_empty = omega arith;
        below_top = top;
        one_table = omega arith;
        start_aligned = omega arith;
        end_aligned = to;
      };
      left = omega arith;
    }
cut_off (suc (suc (suc zero))) k r e =
    let lt = r.not_empty in
    let top = r.below_top in
    let same = r.one_table in
    let from = r.start_aligned in
    let to = r.end_aligned in
    record {
      is_cut = record {
        first = omega arith;
        after_start = omega arith;
        before_end = omega arith;
        on_block = omega arith;
      };
      before = record {
        not_deep = omega arith;
        not_empty = omega arith;
        below_top = omega arith;
        one_table = omega arith;
        start_aligned = from;
        end_aligned = omega arith;
      };
      after = record {
        not_deep = omega arith;
        not_empty = omega arith;
        below_top = top;
        one_table = omega arith;
        start_aligned = omega arith;
        end_aligned = to;
      };
      left = omega arith;
    }
cut_off (suc (suc (suc (suc d)))) k r e = absurd (omega (arith, r.not_deep))

page_block :
    (depth : ℕ) {start end : ℕ}
    → depth + 0 ≡ 3
    → IsRange depth start end
    → InBlock depth start end
    → Below depth start end
page_block depth e r b =
    let three : depth ≡ 3 = omega arith in
    let shift : block depth ≡ 4096 = ap block three in
    page three r.start_aligned
      (omega (arith, r.start_aligned, r.end_aligned, r.not_empty, rw shift at b))

blocks :
    (depth : ℕ) {start end : ℕ}
    → IsRange depth start end
    → (end - 1) / block depth
      ≡ start / block depth + ((end - 1) / block depth - start / block depth)
blocks zero r = omega (arith, r.not_empty)
blocks (suc zero) r = omega (arith, r.not_empty)
blocks (suc (suc zero)) r = omega (arith, r.not_empty)
blocks (suc (suc (suc zero))) r = omega (arith, r.not_empty)
blocks (suc (suc (suc (suc d)))) r = absurd (omega (arith, r.not_deep))

Walk-blocks :
    (depth : ℕ)
    → ((start end : ℕ) → IsRange depth start end → InBlock depth start end → Below depth start end)
    → (k : ℕ) {start end : ℕ} → IsRange depth start end
    → (end - 1) / block depth ≡ start / block depth + k
    → Walk depth start end
Walk-blocks depth below zero {start} {end} r e =
    let b : InBlock depth start end = e ∙ add-zero (start / block depth) in
    last r b (below start end r b)
Walk-blocks depth below (suc k) {start} r e =
    let c = cut_off depth k r e in
    next r c.is_cut (below start (first_cut depth start) c.before c.is_cut.first)
      (Walk-blocks depth below k c.after c.left)

-- Every range is walked.
pub walk :
    (n depth : ℕ) {start end : ℕ} → depth + n ≡ 3 → IsRange depth start end → Walk depth start end
walk zero depth {start} {end} e r =
    Walk-blocks depth (λ a c s b. page_block depth e s b)
      ((end - 1) / block depth - start / block depth) r (blocks depth r)
walk (suc n) depth {start} {end} e r =
    Walk-blocks depth
      (λ a c s b.
        down (omega arith)
          (walk n (depth + 1) (omega arith) (IsRange-down depth s b (omega arith))))
      ((end - 1) / block depth - start / block depth) r (blocks depth r)
