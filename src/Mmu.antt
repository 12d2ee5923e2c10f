-- ===== src/Mmu.antt =====
-- The page tables (src/drivers/mmu.c, src/drivers/mmu.h, src/drivers/mmu_reg.h).
--
-- Memory is a function from a physical address to the 64-bit word there; a table is the 512 words
-- of its page, and a pointer to an entry is the entry's physical address. The page allocator is a
-- parameter, and so is the register `cr3`.
mod Words
pub mod Blocks
pub mod Path
pub mod Cut
pub mod Walk
pub mod Cover
pub mod Fill
pub mod Change
pub mod Extend
pub mod Collect
pub mod Tree
pub mod Reserve
pub mod Grow
pub mod Leaf
pub mod Assign
pub mod Unlink
pub mod Sweep
pub mod Same
pub mod Remove
pub mod Entry
pub mod Ranges
pub mod Lookup
pub mod Faults
pub mod Source
pub mod Tests
use ukulele.Base.{
  ℕ, zero, suc, ◌+◌, ◌-◌, ◌*◌, ◌/◌, ◌%◌, ◌^◌, min, max, bit_and, bit_or, List, [], ◌∷◌, Bool, true,
  false, not, ◌&&◌, ◌||◌, ltb, leb, ◌==◌, u32, add64, sub64, get_or, if◌then◌else◌, Outcome, ok,
  panic, out_of_fuel, ◌>>=◌,
}
use ukulele.Page.{page_size, is_page_aligned}

abbrev pub reg_present : ℕ
reg_present = 0x01

abbrev pub reg_page_size : ℕ
reg_page_size = 0x80

abbrev pub reg_phys_address_mask : ℕ
reg_phys_address_mask = 0x000ffffffffff000

abbrev pub page_map_entry_count : ℕ
page_map_entry_count = 512

abbrev pub higher_half_min : ℕ
higher_half_min = 0xffff800000000000

-- `enum mmu_page_map_depth`.
abbrev pub depth_bottom : ℕ
depth_bottom = 3

abbrev pub depth_memory : ℕ
depth_memory = 4

abbrev pub depth_invalid : ℕ
depth_invalid = 5

-- `PM_PERMS`: user, write, present.
abbrev pub pm_perms : ℕ
pm_perms = 0x07

abbrev pub depth_shift_size : ℕ → ℕ
depth_shift_size depth = get_or (39 ∷ 30 ∷ 21 ∷ 12 ∷ []) depth 0

pub record MmuFlags : Type 0 where
  pub user : Bool
  pub exec : Bool
  pub write : Bool
  pub cache_write_through : Bool

unfoldable pub convert_flags : MmuFlags → ℕ
convert_flags flags =
    let f0 : ℕ = reg_present in
    let f1 : ℕ = if flags.user then bit_or f0 0x04 else f0 in
    let f2 : ℕ = if flags.cache_write_through then bit_or f1 0x08 else f1 in
    let f3 : ℕ = if flags.write then bit_or f2 0x02 else f2 in
    if not flags.exec then bit_or f3 (2 ^ 63) else f3

unfoldable pub is_canonical_address : ℕ → Bool
is_canonical_address address =
    let high = bit_and address higher_half_min in high == 0 || high == higher_half_min

pub record PageMapPart : Type 0 where
  pub page : ℕ
  pub depth : ℕ

pub record NodeCommandLoc : Type 0 where
  pub part : PageMapPart
  pub start : ℕ
  pub end : ℕ

pub record Mmu (P : Type 0) : Type 0 where
  pub word : ℕ → ℕ
  pub pmm : P

-- `&table->entry[i]`.
abbrev pub entry_address : ℕ → ℕ → ℕ
entry_address page i = page + 8 * i

abbrev pub is_present : ℕ → Bool
is_present entry = not (bit_and entry reg_present == 0)

abbrev pub phys_address : ℕ → ℕ
phys_address entry = bit_and entry reg_phys_address_mask

-- For a power of two `2 ^ shift`.
abbrev pub round_down_p2 : ℕ → ℕ → ℕ
round_down_p2 val shift = bit_and val (2 ^ 64 - 2 ^ shift)

abbrev pub round_up_p2 : ℕ → ℕ → ℕ
round_up_p2 val shift = round_down_p2 (add64 val (2 ^ shift - 1)) shift

abbrev pub base_address : NodeCommandLoc → ℕ → ℕ
base_address loc shift = round_down_p2 loc.start (shift + 9)

-- `int` indices: of a negative one no round is made.
unfoldable pub start_idx : NodeCommandLoc → ℕ
start_idx loc =
    let shift = depth_shift_size loc.part.depth in
    u32 (sub64 (round_down_p2 loc.start shift) (base_address loc shift) / 2 ^ shift)

unfoldable pub end_idx : NodeCommandLoc → ℕ
end_idx loc =
    let shift = depth_shift_size loc.part.depth in
    u32 (sub64 (round_up_p2 loc.end shift) (base_address loc shift) / 2 ^ shift)

-- The block of entry `i` that lies in the range.
unfoldable pub child_loc : NodeCommandLoc → ℕ → ℕ → NodeCommandLoc
child_loc loc i entry =
    let shift = depth_shift_size loc.part.depth in
    let base = base_address loc shift in
    record {
      part = record { page = phys_address entry; depth = loc.part.depth + 1 };
      start = max loc.start (add64 ((i * 2 ^ shift) % 2 ^ 64) base);
      end = min loc.end (add64 (((i + 1) * 2 ^ shift) % 2 ^ 64) base);
    }

-- A word of memory is written.
abbrev pub write : (ℕ → ℕ) → ℕ → ℕ → ℕ → ℕ
write word a v q = if a == q then v else word q

-- `memset (HHDM_POINTER (page), 0, PAGE_SIZE)`.
abbrev pub clear_page : (ℕ → ℕ) → ℕ → ℕ → ℕ
clear_page word page q = if leb page q && ltb q (page + page_size) then 0 else word q

-- The test of `node_callback_gc` over the first `n` entries of a table.
pub any_present : (ℕ → ℕ) → ℕ → ℕ → Bool
any_present word page zero = false
any_present word page (suc n) = is_present (word (entry_address page n)) || any_present word page n

-- The checks of `apply_nodes_entry`.
pub entry_checks : NodeCommandLoc → Bool
entry_checks loc =
    is_page_aligned loc.part.page
    && is_page_aligned loc.start
    && is_page_aligned loc.end
    && leb loc.part.depth depth_bottom
    && ltb loc.start loc.end
    && is_canonical_address loc.start
    && bit_and loc.start higher_half_min == bit_and loc.end higher_half_min

abbrev pub levels : ℕ
levels = 4

abbrev pub extract_page_map_index : PageMapPart → ℕ → ℕ
extract_page_map_index top address = bit_and (address / 2 ^ depth_shift_size top.depth) 511

pub current_top : ℕ → PageMapPart → PageMapPart
current_top cr3 top = if top.page == 0 then record { page = cr3; depth = 0 } else top

-- A `node_callback` with its context.
abbrev pub Visit : Type 0 → Type 0
Visit P = NodeCommandLoc → ℕ → Mmu P → Outcome (Mmu P)

module _ {P : Type 0} where
  abbrev pub set_entry : ℕ → ℕ → Mmu P → Mmu P
  set_entry entry v s = record s { word = write s.word entry v }

  -- `rounds` rounds of the loop of `apply_nodes` from entry `i` on.
  pub apply_loop : ℕ → ℕ → NodeCommandLoc → Visit P → Mmu P → Outcome (Mmu P)
  apply_loop zero i loc visit s = ok s
  apply_loop (suc rounds) i loc visit s =
      let entry = entry_address loc.part.page i in
      visit (child_loc loc i (s.word entry)) entry s >>= apply_loop rounds (i + 1) loc visit

  pub apply_nodes : NodeCommandLoc → Visit P → Mmu P → Outcome (Mmu P)
  apply_nodes loc visit s =
      let rounds = if ltb (end_idx loc) (2 ^ 31) then end_idx loc - start_idx loc else 0 in
      apply_loop rounds (start_idx loc) loc visit s

  -- `leaf_callback_assign_linear`, and `leaf_callback_clear`.
  pub assign_linear : ℕ → ℕ → ℕ → ℕ → ℕ → Mmu P → Mmu P
  assign_linear p_base v_base flags virt_addr entry s =
      set_entry entry (bit_or (add64 (sub64 virt_addr v_base) p_base) flags) s

  pub clear : ℕ → ℕ → Mmu P → Mmu P
  clear virt_addr entry s = set_entry entry 0 s

  -- `node_callback_leaf` at up to `levels` levels.
  pub node_leaf : ℕ → (ℕ → ℕ → Mmu P → Mmu P) → Visit P
  node_leaf zero callback loc entry s = out_of_fuel
  node_leaf (suc levels) callback loc entry s =
      let below = apply_nodes loc (node_leaf levels callback) s in
      if leb loc.part.depth depth_bottom then below else ok (callback loc.start entry s)

  module _ (allocate_page : P → Outcome (P × ℕ)) where
    pub allocate : Mmu P → Outcome (Mmu P × ℕ)
    allocate s = allocate_page s.pmm >>= λ (pmm, page).
        if page == 0 then panic else ok (record { word = clear_page s.word page; pmm = pmm }, page)

    -- The first half of `node_callback_reserve`: there is a table below the entry.
    pub ensure : NodeCommandLoc → ℕ → Mmu P → Outcome (Mmu P × NodeCommandLoc)
    ensure loc entry s =
        let new = allocate s >>= λ (s', next). ok (
          set_entry entry (bit_or next pm_perms) s',
          record loc { part = record { page = next; depth = loc.part.depth } },
        ) in
        if is_present (s.word entry) then ok (s, loc) else new

    pub node_reserve : ℕ → Visit P
    node_reserve zero loc entry s = out_of_fuel
    node_reserve (suc levels) loc entry s = ensure loc entry s >>= λ (s', loc').
        let below = apply_nodes loc' (node_reserve levels) s' in
        if ltb loc'.part.depth depth_bottom then below else ok s'

  module _ (free_page : P → ℕ → Outcome P) where
    -- The second half of `node_callback_gc`: a table with no entry is given back.
    pub release_if_empty : ℕ → ℕ → Mmu P → Outcome (Mmu P)
    release_if_empty page entry s =
        let empty = set_entry entry 0 s in
        if any_present s.word page page_map_entry_count
        then ok s
        else (free_page empty.pmm page >>= λ pmm. ok (record empty { pmm = pmm }))

    pub node_gc : ℕ → Visit P
    node_gc zero loc entry s = out_of_fuel
    node_gc (suc levels) loc entry s =
        let below = apply_nodes loc (node_gc levels) s in
        let swept = if ltb loc.part.depth depth_bottom then below else ok s in
        if is_present (s.word entry) then swept >>= release_if_empty loc.part.page entry else ok s

  module _ (cr3 : ℕ) where
    pub apply_nodes_entry : NodeCommandLoc → Visit P → Mmu P → Outcome (Mmu P)
    apply_nodes_entry loc visit s =
        let loc' : NodeCommandLoc = record loc { part = current_top cr3 loc.part } in
        if entry_checks loc' then apply_nodes loc' visit s else panic

    pub lookup_step : PageMapPart → ℕ → Mmu P → Outcome PageMapPart
    lookup_step top0 address s =
        let top = current_top cr3 top0 in
        let entry = s.word (entry_address top.page (extract_page_map_index top address)) in
        let phys = phys_address entry in
        if not (is_page_aligned top.page)
        then panic
        else if not (ltb top.depth depth_memory)
        then panic
        else if not (is_present entry)
        then ok (record { page = 0; depth = depth_invalid })
        else if not (bit_and entry reg_page_size == 0)
        then ok (record { page = phys; depth = depth_memory })
        else ok (record { page = phys; depth = top.depth + 1 })

  module _ (allocate_page : P → Outcome (P × ℕ)) (free_page : P → ℕ → Outcome P) (cr3 : ℕ) where
    pub assign : PageMapPart → MmuFlags → ℕ → ℕ → ℕ → Mmu P → Outcome (Mmu P)
    assign top flags address size page s =
        let loc : NodeCommandLoc = record {
          part = top;
          start = address;
          end = add64 address size;
        } in
        apply_nodes_entry cr3 loc (node_reserve allocate_page levels) s
        >>= apply_nodes_entry cr3 loc
            (node_leaf levels (assign_linear page address (convert_flags flags)))

    pub assign_1 : PageMapPart → MmuFlags → ℕ → ℕ → Mmu P → Outcome (Mmu P)
    assign_1 top flags page address s = assign top flags address page_size page s

    pub remove : PageMapPart → ℕ → ℕ → Mmu P → Outcome (Mmu P)
    remove top address size s =
        let loc : NodeCommandLoc = record {
          part = top;
          start = address;
          end = add64 address size;
        } in
        apply_nodes_entry cr3 loc (node_leaf levels clear) s
        >>= apply_nodes_entry cr3 loc (node_gc free_page levels)

    pub remove_1 : PageMapPart → ℕ → Mmu P → Outcome (Mmu P)
    remove_1 top address s = remove top address page_size s
