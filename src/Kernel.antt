-- ===== src/Kernel.antt =====
-- The kernel's start (src/kernel.c).
--
-- The answers of the boot loader are arguments, and so are the numbers of limine.h. `W` is the
-- world that the cookies of the streams act on.
mod Map
mod Round
pub mod Meminfo
mod LowerHalf
mod Dump
mod Tests
use ukulele.Base.{
  ℕ, zero, suc, ◌+◌, ◌^◌, ◌%◌, List, [], ◌∷◌, String, Option, none, some, ltb, ◌==◌, length, get_or,
  add64, u32, if◌then◌else◌, Outcome, ok, ◌>>=◌,
}
use ukulele.Libk.Str.{Memory}
use ukulele.Libk.Stdio.{Io}
use ukulele.Libk.Printf.Print.{fprintf, printf}
use ukulele.Mmu.{Mmu, entry_address, write}
use ukulele.Pmm.{Pmm, Warning, too_small, out_of_resources, new, add, count_pages, Stat}

abbrev pub limine_mmap_typename : List String
limine_mmap_typename =
    "Usable" ∷ "Reserved" ∷ "Acpi Reclaimable" ∷ "Acpi NVS" ∷ "Bad Memory"
    ∷ "Bootloader Reclaimable" ∷ "Kernel and Modules" ∷ "Framebuffer" ∷ []

-- `struct limine_memmap_entry` and `struct limine_memmap_response`; `address` is the response's.
pub record MemmapEntry : Type 0 where
  pub base : ℕ
  pub length : ℕ
  pub type : ℕ

pub record MemmapResponse : Type 0 where
  pub address : ℕ
  pub revision : ℕ
  pub entry_count : ℕ
  pub entries : List MemmapEntry

-- The local variables of `print_meminfo`, with the streams.
pub record MemInfo (W : Type 0) : Type 0 where
  pub io : Io W
  pub pmm : Pmm
  pub free_memory : ℕ
  pub reclaimable : ℕ
  pub largest_addr : ℕ
  pub largest_size : ℕ

-- An `int` that counts rounds: of a negative one no round is made.
abbrev pub rounds : ℕ → ℕ
rounds n = if ltb (u32 n) (2 ^ 31) then u32 n else 0

-- The string that is printed for a type: `literal` is the address of a constant, `beyond` what is
-- read as an address behind the end of the table.
pub type_name : (String → ℕ) → (ℕ → ℕ) → ℕ → ℕ
type_name literal beyond type =
    if ltb type (length limine_mmap_typename)
    then literal (get_or limine_mmap_typename type "")
    else beyond type

module _ {W : Type 0} (m : Memory) where
  pub print_pmm_stats : Io W → Pmm → Io W
  print_pmm_stats io pmm =
      let stat = count_pages pmm in
      (printf m io "PMM total: %zu free: %zu used: %zu overhead: %zu\n"
        (stat.total ∷ stat.free ∷ stat.used ∷ stat.overhead ∷ [])).0

  -- The lines after the loop.
  pub meminfo_end : MemInfo W → Io W × Pmm
  meminfo_end i =
      let io1 =
        (printf m i.io "\n\tfree %zu reclaim %zu\n" (i.free_memory ∷ i.reclaimable ∷ [])).0 in
      let io2 = (printf m io1 "\tlargest %zu at %zx\n" (i.largest_size ∷ i.largest_addr ∷ [])).0 in
      let stat = count_pages i.pmm in
      let io3 =
        (printf m io2 "\tPMM total: %zu free: %zu used: %zu overhead: %zu\n"
          (stat.total ∷ stat.free ∷ stat.used ∷ stat.overhead ∷ [])).0 in
      (io3, i.pmm)

module _ {W : Type 0} (m : Memory) (literal : String → ℕ) (beyond : ℕ → ℕ) where
  -- The reports of `pmm_add`.
  pub report : Io W → Option Warning → Io W
  report io none = io
  report io (some (too_small start size)) =
      (fprintf m io io.stderr "Warning: Memory block %zx+%zx not allocated (%s)\n"
        (start ∷ size ∷ literal "too small" ∷ [])).0
  report io (some (out_of_resources start size)) =
      (fprintf m io io.stderr "Warning: Memory block %zx+%zx not allocated (%s)\n"
        (start ∷ size ∷ literal "out of resources" ∷ [])).0

  -- The line that is printed for an entry.
  pub meminfo_line : MemInfo W → MemmapEntry → MemInfo W
  meminfo_line i e = record i {
    io =
        (printf m i.io "\t%016zx+%16zx : %s\n"
          (e.base ∷ e.length ∷ type_name literal beyond e.type ∷ [])).0;
  }

  -- The numbers of the two types that `print_meminfo` tests for, and the direct map.
  module _ (usable bootloader_reclaimable hhdm : ℕ) where
    -- The body of the test for usable memory.
    pub add_usable : MemInfo W → MemmapEntry → Outcome (MemInfo W)
    unfolding report
    add_usable i e =
        let larger = ltb i.largest_size e.length in
        add hhdm i.pmm e.base e.length >>= λ (pmm, warning). ok (record {
          io = report i.io warning;
          pmm = pmm;
          free_memory = add64 i.free_memory e.length;
          reclaimable = i.reclaimable;
          largest_addr = if larger then e.base else i.largest_addr;
          largest_size = if larger then e.length else i.largest_size;
        })

    -- A round of the loop.
    pub meminfo_entry : MemInfo W → MemmapEntry → Outcome (MemInfo W)
    unfolding add_usable meminfo_line
    meminfo_entry i e =
        let line = meminfo_line i e in
        let added = if e.type == usable then add_usable line e else ok line in
        added >>= λ j. ok (
          if e.type == bootloader_reclaimable
          then record j { reclaimable = add64 j.reclaimable e.length }
          else j)

    pub meminfo_loop : ℕ → List MemmapEntry → MemInfo W → Outcome (MemInfo W)
    unfolding meminfo_entry
    meminfo_loop zero es i = ok i
    meminfo_loop (suc n) [] i = ok i
    meminfo_loop (suc n) (e ∷ es) i = meminfo_entry i e >>= meminfo_loop n es

    -- `largest_addr` starts with whatever its place in memory holds.
    pub print_meminfo : ℕ → ℕ → MemmapResponse → Io W → Outcome (Io W × Pmm)
    unfolding meminfo_loop meminfo_end
    print_meminfo rwpmmpg largest_addr response io =
        let head =
          (printf m io "Memmap resp: %p rev: %zi count: %zu\n"
            (response.address ∷ response.revision ∷ response.entry_count ∷ [])).0 in
        new rwpmmpg >>= λ pmm.
        meminfo_loop (rounds response.entry_count) response.entries (record {
          io = head;
          pmm = pmm;
          free_memory = 0;
          reclaimable = 0;
          largest_addr = largest_addr;
          largest_size = 0;
        })
        >>= λ i. ok (meminfo_end m i)

-- `n` rounds of the loop of `clear_map_lower_half` from entry `i` on.
pub clear_entries : ℕ → ℕ → ℕ → (ℕ → ℕ) → ℕ → ℕ
clear_entries zero i pml4 word = word
clear_entries (suc n) i pml4 word =
    clear_entries n (i + 1) pml4 (write word (entry_address pml4 i) 0)

-- The table of `cr3` is reached through the direct map.
pub clear_map_lower_half : {P : Type 0} → ℕ → Mmu P → Mmu P
unfolding clear_entries
clear_map_lower_half cr3 s = record s { word = clear_entries 256 0 cr3 s.word }
