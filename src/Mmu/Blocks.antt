-- ===== src/Mmu/Blocks.antt =====
-- `apply_nodes`: the entries that it visits, and the block of the range that each one gets.
use ukulele.Base.{ℕ, zero, suc, ◌+◌, ◌-◌, ◌*◌, ◌/◌, ◌%◌, ◌^◌, ◌≤◌, ◌<◌, ◌≡◌, min, max, arith, add64}
use ukulele.Mmu.Words.{round_down-mask}
use ukulele.Mmu.{NodeCommandLoc, depth_shift_size, start_idx, end_idx, child_loc}

-- A range that one table at depth `d` covers, below the last 512 GiB of the address space.
pub record IsCovered (loc : NodeCommandLoc) : Type 0 where
  pub depth : loc.part.depth ≤ 3
  pub not_empty : loc.start < loc.end
  pub below_top : loc.end ≤ 2 ^ 64 - 2 ^ 39
  pub one_table :
      (loc.end - 1) / 2 ^ (depth_shift_size loc.part.depth + 9)
      ≡ loc.start / 2 ^ (depth_shift_size loc.part.depth + 9)

-- The indices and the blocks, in plain arithmetic.
pub record Plain (loc : NodeCommandLoc) (b : ℕ) : Type 0 where
  pub first : start_idx loc ≡ loc.start / b % 512
  pub last : end_idx loc ≡ (loc.end - 1) / b % 512 + 1
  pub ordered : start_idx loc < end_idx loc
  pub child_start :
      (i entry : ℕ)
      → i ≤ 511
      → (child_loc loc i entry).start ≡ max loc.start (loc.start / (512 * b) * (512 * b) + i * b)
  pub child_end :
      (i entry : ℕ)
      → i ≤ (loc.end - 1) / b % 512
      → (child_loc loc i entry).end ≡ min loc.end (loc.start / (512 * b) * (512 * b) + (i + 1) * b)

module _ (page start end : ℕ) (lt : start < end) (top : end ≤ 2 ^ 64 - 2 ^ 39) where
  pub Plain-0 :
      (end - 1) / 2 ^ 48 ≡ start / 2 ^ 48
      → Plain
          (record { part = record { page = page; depth = 0 }; start = start; end = end })
          (2 ^ 39)
  unfolding start_idx end_idx child_loc
  Plain-0 same =
      let lo = round_down-mask 39 start (omega arith) (omega arith) in
      let base = round_down-mask 48 start (omega arith) (omega arith) in
      let up : add64 end (2 ^ 39 - 1) ≡ end + (2 ^ 39 - 1) = omega arith in
      let hi = round_down-mask 39 (end + (2 ^ 39 - 1)) (omega arith) (omega arith) in
      record {
        first = rw (lo, base) (omega arith);
        last = rw (up, hi, base) (omega arith);
        ordered = rw (lo, up, hi, base) (omega arith);
        child_start = λ i entry h. rw base (omega arith);
        child_end = λ i entry h. rw base (omega arith);
      }

  pub Plain-1 :
      (end - 1) / 2 ^ 39 ≡ start / 2 ^ 39
      → Plain
          (record { part = record { page = page; depth = 1 }; start = start; end = end })
          (2 ^ 30)
  unfolding start_idx end_idx child_loc
  Plain-1 same =
      let lo = round_down-mask 30 start (omega arith) (omega arith) in
      let base = round_down-mask 39 start (omega arith) (omega arith) in
      let up : add64 end (2 ^ 30 - 1) ≡ end + (2 ^ 30 - 1) = omega arith in
      let hi = round_down-mask 30 (end + (2 ^ 30 - 1)) (omega arith) (omega arith) in
      record {
        first = rw (lo, base) (omega arith);
        last = rw (up, hi, base) (omega arith);
        ordered = rw (lo, up, hi, base) (omega arith);
        child_start = λ i entry h. rw base (omega arith);
        child_end = λ i entry h. rw base (omega arith);
      }

  pub Plain-2 :
      (end - 1) / 2 ^ 30 ≡ start / 2 ^ 30
      → Plain
          (record { part = record { page = page; depth = 2 }; start = start; end = end })
          (2 ^ 21)
  unfolding start_idx end_idx child_loc
  Plain-2 same =
      let lo = round_down-mask 21 start (omega arith) (omega arith) in
      let base = round_down-mask 30 start (omega arith) (omega arith) in
      let up : add64 end (2 ^ 21 - 1) ≡ end + (2 ^ 21 - 1) = omega arith in
      let hi = round_down-mask 21 (end + (2 ^ 21 - 1)) (omega arith) (omega arith) in
      record {
        first = rw (lo, base) (omega arith);
        last = rw (up, hi, base) (omega arith);
        ordered = rw (lo, up, hi, base) (omega arith);
        child_start = λ i entry h. rw base (omega arith);
        child_end = λ i entry h. rw base (omega arith);
      }

  pub Plain-3 :
      (end - 1) / 2 ^ 21 ≡ start / 2 ^ 21
      → Plain
          (record { part = record { page = page; depth = 3 }; start = start; end = end })
          (2 ^ 12)
  unfolding start_idx end_idx child_loc
  Plain-3 same =
      let lo = round_down-mask 12 start (omega arith) (omega arith) in
      let base = round_down-mask 21 start (omega arith) (omega arith) in
      let up : add64 end (2 ^ 12 - 1) ≡ end + (2 ^ 12 - 1) = omega arith in
      let hi = round_down-mask 12 (end + (2 ^ 12 - 1)) (omega arith) (omega arith) in
      record {
        first = rw (lo, base) (omega arith);
        last = rw (up, hi, base) (omega arith);
        ordered = rw (lo, up, hi, base) (omega arith);
        child_start = λ i entry h. rw base (omega arith);
        child_end = λ i entry h. rw base (omega arith);
      }

-- The loop splits the range over the entries of the table: each gets a part of it that is not
-- empty and whose addresses have this index in the table, the parts follow on one another from the
-- start of the range to its end, and each is covered by one table of the next depth.
pub record Split (loc : NodeCommandLoc) (b : ℕ) : Type 0 where
  pub some_entry : start_idx loc < end_idx loc
  pub in_table : end_idx loc ≤ 512
  pub not_empty :
      (i entry : ℕ)
      → start_idx loc ≤ i
      → i < end_idx loc
      → (child_loc loc i entry).start < (child_loc loc i entry).end
  pub index :
      (i entry v : ℕ)
      → start_idx loc ≤ i
      → i < end_idx loc
      → (child_loc loc i entry).start ≤ v
      → v < (child_loc loc i entry).end
      → v / b % 512 ≡ i
  pub from_start : (entry : ℕ) → (child_loc loc (start_idx loc) entry).start ≡ loc.start
  pub contiguous :
      (i entry entry' : ℕ)
      → start_idx loc ≤ i
      → i + 1 < end_idx loc
      → (child_loc loc i entry).end ≡ (child_loc loc (i + 1) entry').start
  pub to_end : (i entry : ℕ) → i + 1 ≡ end_idx loc → (child_loc loc i entry).end ≡ loc.end
  pub one_table_below :
      (i entry : ℕ)
      → start_idx loc ≤ i
      → i < end_idx loc
      → ((child_loc loc i entry).end - 1) / b ≡ (child_loc loc i entry).start / b

module _ (loc : NodeCommandLoc) (lt : loc.start < loc.end) where
  Split-0 : (loc.end - 1) / 2 ^ 48 ≡ loc.start / 2 ^ 48 → Plain loc (2 ^ 39) → Split loc (2 ^ 39)
  Split-0 same p =
      let first = p.first in
      let last = p.last in
      record {
        some_entry = p.ordered;
        in_table = omega arith;
        not_empty = λ i e h k.
            omega (arith, p.child_start i e (omega arith), p.child_end i e (omega arith));
        index = λ i e v h k m n.
            omega (arith, p.child_start i e (omega arith), p.child_end i e (omega arith));
        from_start = λ e. omega (arith, p.child_start (start_idx loc) e (omega arith));
        contiguous = λ i e e' h k.
            omega (arith, p.child_end i e (omega arith), p.child_start (i + 1) e' (omega arith));
        to_end = λ i e h. omega (arith, p.child_end i e (omega arith));
        one_table_below = λ i e h k.
            omega (arith, p.child_start i e (omega arith), p.child_end i e (omega arith));
      }

  Split-1 : (loc.end - 1) / 2 ^ 39 ≡ loc.start / 2 ^ 39 → Plain loc (2 ^ 30) → Split loc (2 ^ 30)
  Split-1 same p =
      let first = p.first in
      let last = p.last in
      record {
        some_entry = p.ordered;
        in_table = omega arith;
        not_empty = λ i e h k.
            omega (arith, p.child_start i e (omega arith), p.child_end i e (omega arith));
        index = λ i e v h k m n.
            omega (arith, p.child_start i e (omega arith), p.child_end i e (omega arith));
        from_start = λ e. omega (arith, p.child_start (start_idx loc) e (omega arith));
        contiguous = λ i e e' h k.
            omega (arith, p.child_end i e (omega arith), p.child_start (i + 1) e' (omega arith));
        to_end = λ i e h. omega (arith, p.child_end i e (omega arith));
        one_table_below = λ i e h k.
            omega (arith, p.child_start i e (omega arith), p.child_end i e (omega arith));
      }

  Split-2 : (loc.end - 1) / 2 ^ 30 ≡ loc.start / 2 ^ 30 → Plain loc (2 ^ 21) → Split loc (2 ^ 21)
  Split-2 same p =
      let first = p.first in
      let last = p.last in
      record {
        some_entry = p.ordered;
        in_table = omega arith;
        not_empty = λ i e h k.
            omega (arith, p.child_start i e (omega arith), p.child_end i e (omega arith));
        index = λ i e v h k m n.
            omega (arith, p.child_start i e (omega arith), p.child_end i e (omega arith));
        from_start = λ e. omega (arith, p.child_start (start_idx loc) e (omega arith));
        contiguous = λ i e e' h k.
            omega (arith, p.child_end i e (omega arith), p.child_start (i + 1) e' (omega arith));
        to_end = λ i e h. omega (arith, p.child_end i e (omega arith));
        one_table_below = λ i e h k.
            omega (arith, p.child_start i e (omega arith), p.child_end i e (omega arith));
      }

  Split-3 : (loc.end - 1) / 2 ^ 21 ≡ loc.start / 2 ^ 21 → Plain loc (2 ^ 12) → Split loc (2 ^ 12)
  Split-3 same p =
      let first = p.first in
      let last = p.last in
      record {
        some_entry = p.ordered;
        in_table = omega arith;
        not_empty = λ i e h k.
            omega (arith, p.child_start i e (omega arith), p.child_end i e (omega arith));
        index = λ i e v h k m n.
            omega (arith, p.child_start i e (omega arith), p.child_end i e (omega arith));
        from_start = λ e. omega (arith, p.child_start (start_idx loc) e (omega arith));
        contiguous = λ i e e' h k.
            omega (arith, p.child_end i e (omega arith), p.child_start (i + 1) e' (omega arith));
        to_end = λ i e h. omega (arith, p.child_end i e (omega arith));
        one_table_below = λ i e h k.
            omega (arith, p.child_start i e (omega arith), p.child_end i e (omega arith));
      }

abbrev pub loc_at : ℕ → ℕ → ℕ → ℕ → NodeCommandLoc
loc_at page depth start end = record {
  part = record { page = page; depth = depth };
  start = start;
  end = end;
}

loc_at-Split :
    (depth page start end : ℕ)
    → IsCovered (loc_at page depth start end)
    → Split (loc_at page depth start end) (2 ^ depth_shift_size depth)
loc_at-Split zero page start end c =
    Split-0 (loc_at page 0 start end) c.not_empty c.one_table
      (Plain-0 page start end c.not_empty c.below_top c.one_table)
loc_at-Split (suc zero) page start end c =
    Split-1 (loc_at page 1 start end) c.not_empty c.one_table
      (Plain-1 page start end c.not_empty c.below_top c.one_table)
loc_at-Split (suc (suc zero)) page start end c =
    Split-2 (loc_at page 2 start end) c.not_empty c.one_table
      (Plain-2 page start end c.not_empty c.below_top c.one_table)
loc_at-Split (suc (suc (suc zero))) page start end c =
    Split-3 (loc_at page 3 start end) c.not_empty c.one_table
      (Plain-3 page start end c.not_empty c.below_top c.one_table)
loc_at-Split (suc (suc (suc (suc d)))) page start end c = absurd (omega (arith, c.depth))

-- Of a range that one table covers, below the last 512 GiB of the address space, `apply_nodes`
-- visits entries inside the table, and splits the range over them: the parts are not empty, begin
-- with the start of the range, follow on one another and stop with its end; every address of a part
-- has the entry's index in the table, and one table of the next depth covers the part.
pub child_loc-Split :
    (loc : NodeCommandLoc) → IsCovered loc → Split loc (2 ^ depth_shift_size loc.part.depth)
child_loc-Split loc c = loc_at-Split loc.part.depth loc.part.page loc.start loc.end c

-- The entry that stands for an address in a table at a depth.
abbrev pub table_index : ℕ → ℕ → ℕ
table_index depth v = v / 2 ^ depth_shift_size depth % 512
