-- ===== src/Mmu/Cut.antt =====
-- A range of several entries of a table: the block of the first entry, and the rest.
use ukulele.Base.{ℕ, zero, suc, ◌+◌, ◌-◌, ◌*◌, ◌/◌, ◌%◌, ◌^◌, ◌≤◌, ◌<◌, ◌≡◌, arith}
use ukulele.Mmu.{depth_shift_size, start_idx, end_idx, child_loc}
use ukulele.Mmu.Blocks.{loc_at, table_index, Plain-0, Plain-1, Plain-2, Plain-3}

abbrev pub block : ℕ → ℕ
block depth = 2 ^ depth_shift_size depth

-- A range of whole pages that one table at a depth covers, below the last 512 GiB.
pub record IsRange (depth start end : ℕ) : Type 0 where
  pub not_deep : depth ≤ 3
  pub not_empty : start < end
  pub below_top : end ≤ 2 ^ 64 - 2 ^ 39
  pub one_table : (end - 1) / (512 * block depth) ≡ start / (512 * block depth)
  pub start_aligned : start % 4096 ≡ 0
  pub end_aligned : end % 4096 ≡ 0

-- The range is that of one entry.
abbrev pub InBlock : ℕ → ℕ → ℕ → Type 0
InBlock depth start end = (end - 1) / block depth ≡ start / block depth

-- The first entry's part ends with its block at `cut`.
pub record IsCut (depth start cut end : ℕ) : Type 0 where
  pub first : InBlock depth start cut
  pub after_start : start < cut
  pub before_end : cut < end
  pub on_block : cut % block depth ≡ 0

-- What the loop makes of a range with a first block up to `cut`.
pub record Cutting (t depth start cut end : ℕ) : Type 0 where
  pub from : start_idx (loc_at t depth start end) ≡ table_index depth start
  pub to : end_idx (loc_at t depth start end) ≤ 512
  pub after : start_idx (loc_at t depth cut end) ≡ table_index depth start + 1
  pub same_to : end_idx (loc_at t depth cut end) ≡ end_idx (loc_at t depth start end)
  pub more : table_index depth start + 1 < end_idx (loc_at t depth start end)
  pub child_from :
      (entry : ℕ)
      → (child_loc (loc_at t depth start end) (table_index depth start) entry).start ≡ start
  pub child_to :
      (entry : ℕ) → (child_loc (loc_at t depth start end) (table_index depth start) entry).end ≡ cut
  pub same_from :
      (i entry : ℕ)
      → table_index depth start < i
      → i < end_idx (loc_at t depth start end)
      → (child_loc (loc_at t depth start end) i entry).start
        ≡ (child_loc (loc_at t depth cut end) i entry).start
  pub same_till :
      (i entry : ℕ)
      → table_index depth start < i
      → i < end_idx (loc_at t depth start end)
      → (child_loc (loc_at t depth start end) i entry).end
        ≡ (child_loc (loc_at t depth cut end) i entry).end

module _ (t start cut end : ℕ) where
  Cutting-0 : IsRange 0 start end → IsCut 0 start cut end → Cutting t 0 start cut end
  Cutting-0 r c =
      let lt = c.before_end in
      let top = r.below_top in
      let same = r.one_table in
      let first = c.first in
      let on_block = c.on_block in
      let after = c.after_start in
      let p = Plain-0 t start end (omega arith) top (omega arith) in
      let q = Plain-0 t cut end lt top (omega arith) in
      record {
        from = p.first;
        to = omega (arith, p.last);
        after = omega (arith, q.first);
        same_to = omega (arith, p.last, q.last);
        more = omega (arith, p.last);
        child_from = λ x. omega (arith, p.child_start (table_index 0 start) x (omega arith));
        child_to = λ x. omega (arith, p.child_end (table_index 0 start) x (omega arith));
        same_from = λ i x h k. omega (
          arith,
          p.last,
          p.child_start i x (omega (arith, p.last)),
          q.child_start i x (omega (arith, p.last)),
        );
        same_till = λ i x h k. omega (
          arith,
          p.last,
          p.child_end i x (omega (arith, p.last)),
          q.child_end i x (omega (arith, p.last)),
        );
      }

  Cutting-1 : IsRange 1 start end → IsCut 1 start cut end → Cutting t 1 start cut end
  Cutting-1 r c =
      let lt = c.before_end in
      let top = r.below_top in
      let same = r.one_table in
      let first = c.first in
      let on_block = c.on_block in
      let after = c.after_start in
      let p = Plain-1 t start end (omega arith) top (omega arith) in
      let q = Plain-1 t cut end lt top (omega arith) in
      record {
        from = p.first;
        to = omega (arith, p.last);
        after = omega (arith, q.first);
        same_to = omega (arith, p.last, q.last);
        more = omega (arith, p.last);
        child_from = λ x. omega (arith, p.child_start (table_index 1 start) x (omega arith));
        child_to = λ x. omega (arith, p.child_end (table_index 1 start) x (omega arith));
        same_from = λ i x h k. omega (
          arith,
          p.last,
          p.child_start i x (omega (arith, p.last)),
          q.child_start i x (omega (arith, p.last)),
        );
        same_till = λ i x h k. omega (
          arith,
          p.last,
          p.child_end i x (omega (arith, p.last)),
          q.child_end i x (omega (arith, p.last)),
        );
      }

  Cutting-2 : IsRange 2 start end → IsCut 2 start cut end → Cutting t 2 start cut end
  Cutting-2 r c =
      let lt = c.before_end in
      let top = r.below_top in
      let same = r.one_table in
      let first = c.first in
      let on_block = c.on_block in
      let after = c.after_start in
      let p = Plain-2 t start end (omega arith) top (omega arith) in
      let q = Plain-2 t cut end lt top (omega arith) in
      record {
        from = p.first;
        to = omega (arith, p.last);
        after = omega (arith, q.first);
        same_to = omega (arith, p.last, q.last);
        more = omega (arith, p.last);
        child_from = λ x. omega (arith, p.child_start (table_index 2 start) x (omega arith));
        child_to = λ x. omega (arith, p.child_end (table_index 2 start) x (omega arith));
        same_from = λ i x h k. omega (
          arith,
          p.last,
          p.child_start i x (omega (arith, p.last)),
          q.child_start i x (omega (arith, p.last)),
        );
        same_till = λ i x h k. omega (
          arith,
          p.last,
          p.child_end i x (omega (arith, p.last)),
          q.child_end i x (omega (arith, p.last)),
        );
      }

  Cutting-3 : IsRange 3 start end → IsCut 3 start cut end → Cutting t 3 start cut end
  Cutting-3 r c =
      let lt = c.before_end in
      let top = r.below_top in
      let same = r.one_table in
      let first = c.first in
      let on_block = c.on_block in
      let after = c.after_start in
      let p = Plain-3 t start end (omega arith) top (omega arith) in
      let q = Plain-3 t cut end lt top (omega arith) in
      record {
        from = p.first;
        to = omega (arith, p.last);
        after = omega (arith, q.first);
        same_to = omega (arith, p.last, q.last);
        more = omega (arith, p.last);
        child_from = λ x. omega (arith, p.child_start (table_index 3 start) x (omega arith));
        child_to = λ x. omega (arith, p.child_end (table_index 3 start) x (omega arith));
        same_from = λ i x h k. omega (
          arith,
          p.last,
          p.child_start i x (omega (arith, p.last)),
          q.child_start i x (omega (arith, p.last)),
        );
        same_till = λ i x h k. omega (
          arith,
          p.last,
          p.child_end i x (omega (arith, p.last)),
          q.child_end i x (omega (arith, p.last)),
        );
      }

  pub cutting :
      (depth : ℕ)
      → IsRange depth start end
      → IsCut depth start cut end
      → Cutting t depth start cut end
  cutting zero r c = Cutting-0 r c
  cutting (suc zero) r c = Cutting-1 r c
  cutting (suc (suc zero)) r c = Cutting-2 r c
  cutting (suc (suc (suc zero))) r c = Cutting-3 r c
  cutting (suc (suc (suc (suc d)))) r c = absurd (omega (arith, r.not_deep))

-- What the loop makes of a range in one block.
pub record Single (t depth start end : ℕ) : Type 0 where
  pub from : start_idx (loc_at t depth start end) ≡ table_index depth start
  pub to : end_idx (loc_at t depth start end) ≡ table_index depth start + 1
  pub child_from :
      (entry : ℕ)
      → (child_loc (loc_at t depth start end) (table_index depth start) entry).start ≡ start
  pub child_to :
      (entry : ℕ) → (child_loc (loc_at t depth start end) (table_index depth start) entry).end ≡ end

module _ (t start end : ℕ) where
  Single-0 : IsRange 0 start end → InBlock 0 start end → Single t 0 start end
  Single-0 r b =
      let lt = r.not_empty in
      let top = r.below_top in
      let p = Plain-0 t start end lt top (omega arith) in
      record {
        from = p.first;
        to = omega (arith, p.last);
        child_from = λ x. omega (arith, p.child_start (table_index 0 start) x (omega arith));
        child_to = λ x. omega (arith, p.child_end (table_index 0 start) x (omega arith));
      }

  Single-1 : IsRange 1 start end → InBlock 1 start end → Single t 1 start end
  Single-1 r b =
      let lt = r.not_empty in
      let top = r.below_top in
      let p = Plain-1 t start end lt top (omega arith) in
      record {
        from = p.first;
        to = omega (arith, p.last);
        child_from = λ x. omega (arith, p.child_start (table_index 1 start) x (omega arith));
        child_to = λ x. omega (arith, p.child_end (table_index 1 start) x (omega arith));
      }

  Single-2 : IsRange 2 start end → InBlock 2 start end → Single t 2 start end
  Single-2 r b =
      let lt = r.not_empty in
      let top = r.below_top in
      let p = Plain-2 t start end lt top (omega arith) in
      record {
        from = p.first;
        to = omega (arith, p.last);
        child_from = λ x. omega (arith, p.child_start (table_index 2 start) x (omega arith));
        child_to = λ x. omega (arith, p.child_end (table_index 2 start) x (omega arith));
      }

  Single-3 : IsRange 3 start end → InBlock 3 start end → Single t 3 start end
  Single-3 r b =
      let lt = r.not_empty in
      let top = r.below_top in
      let p = Plain-3 t start end lt top (omega arith) in
      record {
        from = p.first;
        to = omega (arith, p.last);
        child_from = λ x. omega (arith, p.child_start (table_index 3 start) x (omega arith));
        child_to = λ x. omega (arith, p.child_end (table_index 3 start) x (omega arith));
      }

  pub single :
      (depth : ℕ) → IsRange depth start end → InBlock depth start end → Single t depth start end
  single zero r b = Single-0 r b
  single (suc zero) r b = Single-1 r b
  single (suc (suc zero)) r b = Single-2 r b
  single (suc (suc (suc zero))) r b = Single-3 r b
  single (suc (suc (suc (suc d)))) r b = absurd (omega (arith, r.not_deep))
