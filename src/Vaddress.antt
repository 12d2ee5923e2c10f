-- ===== src/Vaddress.antt =====
-- The allocator of virtual address space (src/memory/vaddress.c, src/memory/vaddress_space.h).
--
-- A list of the source is the list of its nodes in order, each with the address of its storage;
-- `unused` keeps the addresses alone. The page allocator is a parameter: its state and its call,
-- which returns the address 0 if it has no page.
pub mod Nodes
pub mod Ranges
pub mod Valid
pub mod Allocate
pub mod Free
mod Pages
mod Print
mod Tests
use ukulele.Base.{
  ℕ, zero, suc, ◌+◌, ◌-◌, ◌*◌, ◌%◌, ◌^◌, List, [], ◌∷◌, Option, none, some, Bool, ◌&&◌, ltb, leb,
  ◌==◌, if◌then◌else◌, add64, sub64, Outcome, ok, panic, ◌>>=◌,
}
use ukulele.Page.{hhdm_pointer}

abbrev pub regions_per_block : ℕ
regions_per_block = 100

pub record AddressRegion : Type 0 where
  pub node : ℕ
  pub begin : ℕ
  pub end : ℕ

-- A page of nodes, of which the first `entries` have been handed out.
pub record StorageBlock : Type 0 where
  pub page : ℕ
  pub entries : ℕ

-- Where `entry[i]` stands in a `struct storage_block`.
abbrev pub entry_address : ℕ → ℕ → ℕ
entry_address page i = page + 16 + 24 * i

-- The fields of a `struct vaddress_space` that the search for a node works on.
pub record Store (P : Type 0) : Type 0 where
  pub storage : List StorageBlock
  pub unused : List ℕ
  pub pmm : P

pub record VaddressSpace (P : Type 0) : Type 0 where
  pub store : Store P
  pub allocated : List AddressRegion
  pub space_begin : ℕ
  pub space_end : ℕ

-- The loop over the blocks: the first with room gives its next entry.
pub find_entry : List StorageBlock → Option (List StorageBlock × ℕ)
find_entry [] = none
find_entry (b ∷ bs) =
    let rest = find_entry bs in
    if ltb b.entries regions_per_block
    then some (record b { entries = b.entries + 1 } ∷ bs, entry_address b.page b.entries)
    else elim rest [ none ↦ none | some (bs', node) ↦ some (b ∷ bs', node) ]

-- The end of the gap before the given regions.
abbrev pub gap_end : List AddressRegion → ℕ → ℕ
gap_end [] space_end = space_end
gap_end (r ∷ rs) space_end = r.begin

-- The loop of `vaddress_allocate`: the first region with room behind it grows.
pub extend : List AddressRegion → ℕ → ℕ → Option (List AddressRegion × ℕ)
extend [] space_end size = none
extend (r ∷ rs) space_end size =
    let rest = extend rs space_end size in
    if leb size (sub64 (gap_end rs space_end) r.end)
    then some (record r { end = add64 r.end size } ∷ rs, r.end)
    else elim rest [ none ↦ none | some (rs', a) ↦ some (r ∷ rs', a) ]

-- The end of that loop. The address 0 stands for a failed allocation.
pub from_extend :
    {P : Type 0} → VaddressSpace P → Option (List AddressRegion × ℕ) → Outcome (VaddressSpace P × ℕ)
from_extend v none = ok (v, 0)
from_extend v (some (rs, a)) = ok (record v { allocated = rs }, a)

-- A region is kept, and the loop goes on.
abbrev pub keep :
    {P : Type 0}
    → AddressRegion
    → Outcome (Store P × List AddressRegion)
    → Outcome (Store P × List AddressRegion)
keep r rest = rest >>= λ (st, rs). ok (st, r ∷ rs)

module _ {P : Type 0} (allocate_page : P → Outcome (P × ℕ)) (hhdm : ℕ) where
  pub new_page : P → Outcome (P × ℕ)
  new_page pmm = allocate_page pmm >>= λ (pmm', phys).
      if phys == 0 then panic else ok (pmm', hhdm_pointer hhdm phys)

  pub new : P → ℕ → ℕ → Outcome (ℕ × VaddressSpace P)
  unfolding new_page
  new pmm begin end = new_page pmm >>= λ (pmm', page). ok (
    page,
    record {
      store = record { storage = []; unused = []; pmm = pmm' };
      allocated = [];
      space_begin = begin;
      space_end = end;
    },
  )

  -- The search when the free list is empty, at the end of the loop over the blocks.
  pub from_block : Store P → Option (List StorageBlock × ℕ) → Outcome (Store P × ℕ)
  unfolding new_page
  from_block st (some (blocks, node)) = ok (record st { storage = blocks }, node)
  from_block st none = new_page st.pmm >>= λ (pmm', page). ok (
    record st { storage = record { page = page; entries = 1 } ∷ st.storage; pmm = pmm' },
    entry_address page 0,
  )

  -- The head of the free list if there is one.
  pub take_node : Store P → List ℕ → Outcome (Store P × ℕ)
  unfolding from_block find_entry
  take_node st (node ∷ rest) = ok (record st { unused = rest }, node)
  take_node st [] = from_block st (find_entry st.storage)

  pub find_free_node : Store P → Outcome (Store P × ℕ)
  unfolding take_node
  find_free_node st = take_node st st.unused

  pub allocate : VaddressSpace P → ℕ → Outcome (VaddressSpace P × ℕ)
  unfolding find_free_node extend from_extend
  allocate v size =
      if leb size (sub64 (gap_end v.allocated v.space_end) v.space_begin)
      then (find_free_node v.store >>= λ (st, node). ok (
        record v {
          store = st;
          allocated =
              record { node = node; begin = v.space_begin; end = add64 v.space_begin size }
              ∷ v.allocated;
        },
        v.space_begin,
      ))
      else from_extend v (extend v.allocated v.space_end size)

  -- The loop of `vaddress_free` for the range from `address` to `address_end`.
  pub free_loop : ℕ → ℕ → Store P → List AddressRegion → Outcome (Store P × List AddressRegion)
  unfolding find_free_node
  free_loop address address_end st [] = ok (st, [])
  free_loop address address_end st (r ∷ rs) =
      let next = λ (st' : Store P). free_loop address address_end st' rs in
      if ltb address_end r.begin
      then ok (st, r ∷ rs)
      else if ltb r.end address
      then keep r (next st)
      else if leb address r.begin && leb r.end address_end
      then next (record st { unused = r.node ∷ st.unused })
      else if leb address r.begin
      then keep (record r { end = address_end }) (next st)
      else if leb r.end address_end
      then keep (record r { end = address }) (next st)
      else (find_free_node st >>= λ (st', node).
          keep (record r { end = address })
            (keep (record { node = node; begin = address_end; end = r.end }) (next st')))

  pub free : VaddressSpace P → ℕ → ℕ → Outcome (VaddressSpace P)
  unfolding free_loop
  free v address size = free_loop address (add64 address size) v.store v.allocated >>= λ (st, rs).
      ok (record v { store = st; allocated = rs })
