-- ===== src/Mmu/Path.antt =====
-- Where the entry for an address stands, and the location that the walk gets there.
use ukulele.Base.{ℕ, ◌+◌, ◌≡◌, refl, Outcome, ok, panic, out_of_fuel, ◌>>=◌}
use ukulele.Mmu.{NodeCommandLoc, child_loc, entry_address, phys_address}
use ukulele.Mmu.Blocks.{loc_at, table_index}

pub bind-ok : {A : Type 0} (m : Outcome A) → (m >>= λ a. ok a) ≡ m
bind-ok (ok a) = refl
bind-ok panic = refl
bind-ok out_of_fuel = refl

-- Where the entry for an address stands.
abbrev pub slot : ℕ → ℕ → ℕ → ℕ
slot page depth v = entry_address page (table_index depth v)

pub loc_eq :
    (l : NodeCommandLoc) (page depth start end : ℕ)
    → l.part ≡ record { page = page; depth = depth }
    → l.start ≡ start
    → l.end ≡ end
    → l ≡ loc_at page depth start end
loc_eq l page depth start end a b c = λ i. record { part = a i; start = b i; end = c i }

pub child_loc-part :
    (loc : NodeCommandLoc) (i entry : ℕ)
    → (child_loc loc i entry).part
      ≡ record { page = phys_address entry; depth = loc.part.depth + 1 }
unfolding child_loc
child_loc-part loc i entry = refl
