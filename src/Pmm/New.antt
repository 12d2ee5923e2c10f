-- ===== src/Pmm/New.antt =====
-- `pmm_new`: an allocator that manages nothing.
use ukulele.Base.{
  ℕ, zero, suc, ◌%◌, ◌≡◌, refl, false, Returns, returns, replicate, length-replicate,
}
use ukulele.Page.{page_size, is_page_aligned_iff}
use ukulele.Pmm.{pmm_entries, Pmm, zero_entry, new}
use ukulele.Pmm.Valid.{claimed, AreEntries, IsValid, unmanaged, page_state}

AreEntries-replicate : (n : ℕ) → AreEntries (replicate n zero_entry)
AreEntries-replicate zero = tt
AreEntries-replicate (suc n) = (λ on. cc, λ a c. cc, AreEntries-replicate n)

claimed-replicate : (n a : ℕ) → claimed (replicate n zero_entry) a ≡ false
claimed-replicate zero a = refl
claimed-replicate (suc n) a = claimed-replicate n a

page_state-replicate : (n a : ℕ) → page_state (replicate n zero_entry) a ≡ unmanaged
unfolding page_state
page_state-replicate zero a = refl
page_state-replicate (suc n) a = page_state-replicate n a

-- What `pmm_new` returns: a valid allocator that claims and manages no address.
pub record IsEmpty (pmm : Pmm) : Type 0 where
  pub valid : IsValid pmm
  pub unclaimed : (a : ℕ) → claimed pmm a ≡ false
  pub unmanaged : (a : ℕ) → page_state pmm a ≡ unmanaged

-- `pmm_new` on a page-aligned control page returns an allocator that meets the invariant and claims
-- and manages no address.
pub new-IsEmpty :
    (control_page : ℕ) → control_page % page_size ≡ 0 → Returns IsEmpty (new control_page)
unfolding new
new-IsEmpty control_page aligned = rw ((is_page_aligned_iff control_page).1 aligned) (
    returns (record {
      valid = record {
        entries = AreEntries-replicate pmm_entries;
        size = length-replicate pmm_entries zero_entry;
      };
      unclaimed = claimed-replicate pmm_entries;
      unmanaged = page_state-replicate pmm_entries;
    }))
