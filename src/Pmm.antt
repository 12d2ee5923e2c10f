-- ===== src/Pmm.antt =====
-- The physical page allocator (src/memory/pmm.c and src/memory/pmm.h).
--
-- A `struct pmm` is the list of its 168 entries. A control block lives in the first page of the
-- region that its entry manages and is reached through that entry's `ctrl` alone, so the entry
-- holds the block's 512 words beside the block's address. The reports of `pmm_add` go to the
-- caller as values of `Warning`, that of `pmm_allocate_page` that no page is free is left out;
-- `panic` never returns.
mod Word
mod Block
mod Scan
pub mod Valid
pub mod Update
mod Init
pub mod Place
pub mod Add
pub mod Full
pub mod Alloc
pub mod Free
pub mod New
pub mod Count
pub mod Restore
pub mod Client
pub mod Tests
use ukulele.Base.{
  ℕ, zero, suc, ◌+◌, ◌-◌, ◌*◌, ◌/◌, ◌%◌, ◌^◌, bit_and, bit_or, List, [], ◌∷◌, Option, none, some,
  Bool, true, false, not, ◌&&◌, ltb, leb, ◌==◌, if◌then◌else◌, u16, add64, sub64, Outcome, ok,
  panic, out_of_fuel, ◌>>=◌, get_or, set, replicate,
}
use ukulele.Page.{page_size, round_down, is_page_aligned, hhdm_pointer}

abbrev pub pmm_entries : ℕ
pmm_entries = 168

abbrev pub pmm_ctrl_entries : ℕ
pmm_ctrl_entries = 512

abbrev pub max_block_size_pages : ℕ
max_block_size_pages = pmm_ctrl_entries * 64

abbrev pub max_block_size_bytes : ℕ
max_block_size_bytes = max_block_size_pages * page_size

abbrev pub min_block_size_bytes : ℕ
min_block_size_bytes = 64 * page_size

-- `(uint64_t)-1`, `1ULL << k` and `~x`.
abbrev pub all_ones : ℕ
all_ones = 2 ^ 64 - 1

abbrev pub shl_one : ℕ → ℕ
shl_one k = 2 ^ k % 2 ^ 64

abbrev pub complement : ℕ → ℕ
complement x = all_ones - x

pub record CtrlPtr : Type 0 where
  pub physical_start : ℕ
  pub ctrl_address : ℕ
  pub ctrl : List ℕ
  pub max_pages : ℕ
  pub free_pages : ℕ
  pub active : Bool

abbrev pub Pmm : Type 0
Pmm = List CtrlPtr

pub data Warning : Type 0 where
  too_small : ℕ → ℕ → Warning
  out_of_resources : ℕ → ℕ → Warning

-- What a page of zero bytes reads as.
abbrev pub zero_entry : CtrlPtr
zero_entry = record {
  physical_start = 0;
  ctrl_address = 0;
  ctrl = [];
  max_pages = 0;
  free_pages = 0;
  active = false;
}

pub new : ℕ → Outcome Pmm
new control_page =
    if is_page_aligned control_page then ok (replicate pmm_entries zero_entry) else panic

-- The loop that sets the first `n` words of a block.
fill : ℕ → ℕ → List ℕ → List ℕ
fill zero i entry = entry
fill (suc n) i entry = fill n (i + 1) (set entry i all_ones)

pub ctrl_initialise : ℕ → ℕ → Outcome (List ℕ)
unfolding fill
ctrl_initialise ctrl pages =
    let full_entries = pages / 64 in
    let extra_bits = pages % 64 in
    let full = fill full_entries 0 (replicate pmm_ctrl_entries 0) in
    if is_page_aligned ctrl
    then ok
        (if extra_bits == 0 then full else set full full_entries (all_ones / 2 ^ (64 - extra_bits)))
    else panic

pub setup_entry : ℕ → ℕ → ℕ → Outcome CtrlPtr
unfolding ctrl_initialise
setup_entry hhdm start size =
    let ctrl_address = hhdm_pointer hhdm start in
    let pages = sub64 size page_size / page_size in
    ctrl_initialise ctrl_address (u16 pages) >>= λ ctrl. ok (record {
      physical_start = add64 start page_size;
      ctrl_address = ctrl_address;
      ctrl = ctrl;
      max_pages = u16 pages;
      free_pages = u16 pages;
      active = true;
    })

-- The loop of `pmm_add` up to the first inactive entry; `none` if there is none.
pub place : ℕ → Pmm → ℕ → ℕ → Outcome (Option Pmm)
unfolding setup_entry
place hhdm [] start size = ok none
place hhdm (p ∷ ps) start size =
    let rest = place hhdm ps start size in
    if p.active
    then rest >>= (λ found. ok (elim found [ none ↦ none | some qs ↦ some (p ∷ qs) ]))
    else (setup_entry hhdm start size >>= λ q. ok (some (q ∷ ps)))

-- The end of `pmm_add`: `rest` is what is done with a range that remains.
pub after_place :
    Pmm
    → ℕ
    → ℕ
    → (Pmm → Outcome (Pmm × Option Warning))
    → Option Pmm
    → Outcome (Pmm × Option Warning)
after_place pmm start size rest none = ok (pmm, some (out_of_resources start size))
after_place pmm start size rest (some qs) = rest qs

-- A round of `pmm_add` places at most one block. Something remains exactly if the range is split.
pub add_blocks : ℕ → ℕ → Pmm → ℕ → ℕ → Outcome (Pmm × Option Warning)
unfolding place after_place
add_blocks hhdm zero pmm start size = out_of_fuel
add_blocks hhdm (suc fuel) pmm start size0 =
    let size = round_down size0 page_size in
    let rest = λ (qs : Pmm).
      add_blocks hhdm fuel qs (add64 start max_block_size_bytes) (size - max_block_size_bytes) in
    if not (is_page_aligned start)
    then panic
    else if ltb max_block_size_bytes size
    then place hhdm pmm start max_block_size_bytes
      >>= after_place pmm start max_block_size_bytes rest
    else if ltb size min_block_size_bytes
    then ok (pmm, some (too_small start size))
    else (place hhdm pmm start size >>= after_place pmm start size (λ qs. ok (qs, none)))

pub add : ℕ → Pmm → ℕ → ℕ → Outcome (Pmm × Option Warning)
unfolding add_blocks
add hhdm pmm start size = add_blocks hhdm (size / max_block_size_bytes + 1) pmm start size

-- `__builtin_ctzl`: the number of zero digits below the lowest set digit.
pub ctz_digits : ℕ → ℕ → ℕ
ctz_digits zero w = 0
ctz_digits (suc n) w = if w % 2 == 1 then 0 else suc (ctz_digits n (w / 2))

pub ctz : ℕ → ℕ
unfolding ctz_digits
ctz w = ctz_digits 64 w

-- From word `i` of the block on. Returns the block with the digit cleared, and the page's index.
pub ctrl_alloc : ℕ → List ℕ → Outcome (List ℕ × ℕ)
unfolding ctz
ctrl_alloc i [] = panic
ctrl_alloc i (w ∷ ws) =
    let rest = ctrl_alloc (i + 1) ws in
    if w == 0
    then (rest >>= λ (ws', idx). ok (w ∷ ws', idx))
    else ok (bit_and w (complement (shl_one (ctz w))) ∷ ws, u16 (64 * i + ctz w))

abbrev has_space : CtrlPtr → Bool
has_space p = p.active && not (p.free_pages == 0)

-- The body of `pmm_allocate_page` at an entry with space.
pub take_page : CtrlPtr → Outcome (CtrlPtr × ℕ)
unfolding ctrl_alloc
take_page p = ctrl_alloc 0 p.ctrl >>= λ (words, idx). ok (
  record p { ctrl = words; free_pages = u16 (p.free_pages + 2 ^ 16 - 1) },
  add64 p.physical_start (page_size * idx),
)

-- The address 0 stands for a failed allocation.
pub allocate_page : Pmm → Outcome (Pmm × ℕ)
unfolding take_page
allocate_page [] = ok ([], 0)
allocate_page (p ∷ ps) =
    let rest = allocate_page ps in
    if has_space p
    then (take_page p >>= λ (q, page). ok (q ∷ ps, page))
    else (rest >>= λ (qs, page). ok (p ∷ qs, page))

-- The test of `pmm_free_page`: the address lies in the entry's pages.
abbrev pub owns : CtrlPtr → ℕ → Bool
owns p a =
    p.active && leb p.physical_start a && ltb a (add64 p.physical_start (page_size * p.max_pages))

-- The body of `pmm_free_page` at the entry that holds the address.
pub give_back : CtrlPtr → ℕ → Outcome CtrlPtr
give_back p physical =
    let pageindex = (physical - p.physical_start) / page_size in
    let entry = pageindex / 64 in
    let mask = shl_one (pageindex % 64) in
    let word = get_or p.ctrl entry 0 in
    if bit_and word mask == 0
    then ok (record p {
      ctrl = set p.ctrl entry (bit_or word mask);
      free_pages = u16 (p.free_pages + 1);
    })
    else panic

pub free_in : Pmm → ℕ → Outcome Pmm
unfolding give_back
free_in [] physical = panic
free_in (p ∷ ps) physical =
    let rest = free_in ps physical in
    if owns p physical
    then (give_back p physical >>= λ q. ok (q ∷ ps))
    else (rest >>= λ qs. ok (p ∷ qs))

pub free_page : Pmm → ℕ → Outcome Pmm
unfolding free_in
free_page pmm physical = if physical == 0 then ok pmm else free_in pmm physical

pub record Stat : Type 0 where
  pub free : ℕ
  pub total : ℕ
  pub used : ℕ
  pub overhead : ℕ

-- One round of the loop of `pmm_count_pages`. `max_pages - free_pages` is done in `int`.
pub count_entry : Stat → CtrlPtr → Stat
count_entry s p =
    if p.active
    then record {
      free = add64 s.free p.free_pages;
      total = add64 s.total (1 + p.max_pages);
      used = add64 s.used (sub64 p.max_pages p.free_pages);
      overhead = add64 s.overhead 1;
    }
    else s

pub count_from : Stat → Pmm → Stat
unfolding count_entry
count_from s [] = s
count_from s (p ∷ ps) = count_from (count_entry s p) ps

pub count_pages : Pmm → Stat
unfolding count_from
count_pages pmm = count_from (record { free = 0; total = 1; used = 0; overhead = 1 }) pmm
