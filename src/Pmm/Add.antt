-- ===== src/Pmm/Add.antt =====
-- `pmm_add`: which pages a range of memory adds, and which part of it is refused.
use ukulele.Base.{
  ℕ, zero, suc, ◌+◌, ◌-◌, ◌*◌, ◌/◌, ◌%◌, ◌^◌, ◌≤◌, ◌<◌, ◌≡◌, refl, ◌∙◌, Option, none, some, arith,
  true, ◌||◌, ltb, if◌then◌else◌, length, All, Bool-cases, inl, inr, Outcome, ok, Returns, returns,
  Returns-bind, Returns-mono, add64, min,
}
use ukulele.Page.{page_size, is_page_aligned, is_page_aligned_iff, round_down}
use ukulele.Pmm.{
  max_block_size_bytes, min_block_size_bytes, Pmm, Warning, too_small, out_of_resources,
  after_place, add_blocks, add,
}
use ukulele.Pmm.Valid.{claimed, AreEntries, IsValid, PageState, unmanaged, free, page_state}
use ukulele.Pmm.Place.{
  in_range, IsRegion, IsUnclaimed, Placed, Placing, placed, full, place-Placing,
}

-- The state of an address after `done` bytes from `start` on have been added: the first page of
-- each block of up to 128 MiB is its control block, and the pages behind that are free.
abbrev pub added_state : Pmm → ℕ → ℕ → ℕ → PageState
added_state ps start done a =
    if in_range start done a
    then (if ltb ((a - start) % max_block_size_bytes) page_size then unmanaged else free)
    else page_state ps a

-- Why the allocator has stopped after `done` of `size` bytes, and what it has reported.
pub data Ends (qs : Pmm) (start size done : ℕ) : Option Warning → Type 0 where
  whole : done ≡ round_down size page_size → Ends qs start size done none
  remnant :
      {s n : ℕ}
      → s ≡ start + done
      → n ≡ round_down (size - done) page_size
      → n < min_block_size_bytes
      → Ends qs start size done (some (too_small s n))
  no_entry :
      {s n : ℕ}
      → s ≡ start + done
      → n ≡ min (round_down (size - done) page_size) max_block_size_bytes
      → min_block_size_bytes ≤ n
      → All (λ p. p.active ≡ true) qs
      → Ends qs start size done (some (out_of_resources s n))

pub record Added (ps : Pmm) (start size : ℕ) (out : Pmm × Option Warning) : Type 0 where
  pub done : ℕ
  pub within : done ≤ size
  pub on_page : done % page_size ≡ 0
  pub entries : AreEntries out.0
  pub claims_grown : (a : ℕ) → claimed out.0 a ≡ (in_range start done a || claimed ps a)
  pub state : (a : ℕ) → page_state out.0 a ≡ added_state ps start done a
  pub size_kept : length out.0 ≡ length ps
  pub ends : Ends out.0 start size done out.1

Ends-later :
    {start size done : ℕ} {w : Option Warning} (qs : Pmm)
    → max_block_size_bytes < round_down size page_size
    → done ≤ round_down size page_size - max_block_size_bytes
    → done % page_size ≡ 0
    → Ends qs
        (start + max_block_size_bytes)
        (round_down size page_size - max_block_size_bytes)
        done
        w
    → Ends qs start size (max_block_size_bytes + done) w
Ends-later qs large within even (whole e) = whole (omega arith)
Ends-later qs large within even (remnant e e' h) = remnant (omega arith) (omega arith) h
Ends-later qs large within even (no_entry e e' h all) = no_entry (omega arith) (omega arith) h all

module _ (ps : Pmm) (start size : ℕ) (es : AreEntries ps) where
  -- Nothing is added.
  Added-none : (w : Option Warning) → Ends ps start size 0 w → Added ps start size (ps, w)
  Added-none w end = record {
    done = 0;
    within = omega arith;
    on_page = omega arith;
    entries = es;
    claims_grown = λ a. ground arith;
    state = λ a. ground arith;
    size_kept = refl;
    ends = end;
  }

  -- One block takes in the whole range.
  Added-one :
      (qs : Pmm)
      → round_down size page_size ≤ max_block_size_bytes
      → Placed ps qs start (round_down size page_size)
      → Added ps start size (qs, none)
  Added-one qs fits d = record {
    done = round_down size page_size;
    within = omega arith;
    on_page = omega arith;
    entries = d.entries;
    claims_grown = d.claims_grown;
    state = λ a. ground (arith, d.state a);
    size_kept = d.size;
    ends = whole refl;
  }

  -- A full block, and what is added behind it.
  Added-more :
      (qs : Pmm) (out : Pmm × Option Warning)
      → max_block_size_bytes < round_down size page_size
      → Placed ps qs start max_block_size_bytes
      → Added qs
          (start + max_block_size_bytes)
          (round_down size page_size - max_block_size_bytes)
          out
      → Added ps start size out
  Added-more qs out large d m = record {
    done = max_block_size_bytes + m.done;
    within = omega (arith, m.within);
    on_page = omega (arith, m.on_page);
    entries = m.entries;
    claims_grown = λ a. ground (arith, m.claims_grown a, d.claims_grown a);
    state = λ a. ground (arith, m.state a, d.state a);
    size_kept = m.size_kept ∙ d.size;
    ends = Ends-later out.0 (omega arith) m.within m.on_page m.ends;
  }

module _ (hhdm : ℕ) (aligned : hhdm % page_size ≡ 0) where
  add_blocks-Added :
      (fuel : ℕ) (ps : Pmm) (start size : ℕ)
      → start % page_size ≡ 0
      → start + size < 2 ^ 64
      → size / max_block_size_bytes < fuel
      → AreEntries ps
      → IsUnclaimed ps start size
      → Returns (Added ps start size) (add_blocks hhdm fuel ps start size)
  unfolding add_blocks
  add_blocks-Added zero ps start size on_page fits enough es new = absurd (omega arith)
  add_blocks-Added (suc fuel) ps start size on_page fits enough es new =
      elim (Bool-cases (ltb max_block_size_bytes (round_down size page_size))) [
        | inl large ↦
            simp (ok_start, large)
              (Returns-bind _
                (place-Placing hhdm ps start max_block_size_bytes aligned
                  (region max_block_size_bytes (omega arith) (omega arith) (omega arith)
                    (ground arith))
                  es (λ a h. ground (arith, new a)))
                (split (ground arith) _ (λ qs d.
                  let next : add64 start max_block_size_bytes ≡ start + max_block_size_bytes =
                    ground arith in
                  rw next (
                    add_blocks-Added fuel qs (start + max_block_size_bytes)
                      (round_down size page_size - max_block_size_bytes) (omega arith)
                      (ground arith) (ground arith) d.entries
                      (λ a h. ground (arith, d.claims_grown a, new a))))))
        | inr fit ↦ elim (Bool-cases (ltb (round_down size page_size) min_block_size_bytes)) [
          | inl little ↦
              simp (ok_start, fit, little)
                (returns (
                  Added-none ps start size es _
                    (remnant (omega arith) (omega arith) (ground arith))))
          | inr large_enough ↦
              simp (ok_start, fit, large_enough)
                (Returns-bind _
                  (place-Placing hhdm ps start (round_down size page_size) aligned
                    (region (round_down size page_size) (omega arith) (ground arith) (ground arith)
                      (omega arith))
                    es (λ a h. ground (arith, new a)))
                  (last (ground arith) (ground arith)))
        ]
      ]
    where
      ok_start : is_page_aligned start ≡ true
      ok_start = (is_page_aligned_iff start).1 on_page

      region :
          (n : ℕ)
          → n % page_size ≡ 0
          → 2 * page_size ≤ n
          → n ≤ max_block_size_bytes
          → n ≤ size
          → IsRegion start n
      region n even least most within = record {
        start_aligned = on_page;
        size_aligned = even;
        least = least;
        most = most;
        fits = omega arith;
      }

      last :
          round_down size page_size ≤ max_block_size_bytes
          → min_block_size_bytes ≤ round_down size page_size
          → (found : Option Pmm) → Placing ps start (round_down size page_size) found
          → Returns
              (Added ps start size)
              (after_place ps start (round_down size page_size) (λ qs. ok (qs, none)) found)
      last fit enough (some qs) (placed d) = returns (Added-one ps start size es qs fit d)
      last fit enough none (full all) =
          returns (Added-none ps start size es _ (no_entry (omega arith) (omega arith) enough all))

      split :
          max_block_size_bytes < round_down size page_size
          → (rest : Pmm → Outcome (Pmm × Option Warning))
          → ((qs : Pmm)
              → Placed ps qs start max_block_size_bytes
              → Returns
                  (Added qs
                    (start + max_block_size_bytes)
                    (round_down size page_size - max_block_size_bytes))
                  (rest qs))
          → (found : Option Pmm) → Placing ps start max_block_size_bytes found
          → Returns (Added ps start size) (after_place ps start max_block_size_bytes rest found)
      split large rest more (some qs) (placed d) =
          Returns-mono (more qs d) (λ out m. Added-more ps start size es qs out large d m)
      split large rest more none (full all) =
          returns
            (Added-none ps start size es _ (no_entry (omega arith) (omega arith) (omega arith) all))

-- `pmm_add` of a page-aligned range that lies below 2 ^ 64 and that no entry claims, in a valid
-- allocator with the direct map page-aligned, neither panics nor runs out of fuel, and keeps the
-- invariant. It adds a prefix of the range: within it the first page of each 128 MiB is a control
-- block and every other page is free, outside it no page changes state. The prefix is the range
-- rounded down to pages, or the call reports the rest: less than 64 pages are left, or every
-- entry is in use.
pub add_lem :
    {pmm : Pmm} (hhdm start size : ℕ)
    → IsValid pmm
    → hhdm % page_size ≡ 0
    → start % page_size ≡ 0
    → start + size < 2 ^ 64
    → IsUnclaimed pmm start size
    → Returns (λ out. Added pmm start size out × IsValid out.0) (add hhdm pmm start size)
unfolding add
add_lem {pmm} hhdm start size v aligned on_page fits new =
    Returns-mono
      (add_blocks-Added hhdm aligned (size / max_block_size_bytes + 1) pmm start size on_page fits
        (omega arith) v.entries new)
      (λ out a. (a, record { entries = a.entries; size = a.size_kept ∙ v.size }))
