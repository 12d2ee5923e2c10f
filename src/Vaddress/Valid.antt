-- ===== src/Vaddress/Valid.antt =====
-- The invariant of an address space.
use ukulele.Base.{◌+◌, ◌^◌, ◌<◌, ◌≡◌, length}
use ukulele.Vaddress.{VaddressSpace}
use ukulele.Vaddress.Ranges.{IsSorted}
use ukulele.Vaddress.Nodes.{entry_total}

-- The regions are in order inside the space, and every node that a block has handed out is in one
-- of the two lists.
pub record IsValid {P : Type 0} (v : VaddressSpace P) : Type 0 where
  pub sorted : IsSorted v.space_begin v.allocated v.space_end
  pub bounded : v.space_end < 2 ^ 64
  pub counted : entry_total v.store.storage ≡ length v.store.unused + length v.allocated

-- An operation leaves the space itself alone.
pub record SameSpace {P : Type 0} (v v' : VaddressSpace P) : Type 0 where
  pub same_begin : v'.space_begin ≡ v.space_begin
  pub same_end : v'.space_end ≡ v.space_end
