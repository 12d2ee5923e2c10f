-- ===== src/Kernel/Tests.antt =====
-- The kernel's start on a small machine, and its theorems there.
use ukulele.Base.{ℕ, ◌%◌, ◌/◌, ◌^◌, ◌≡◌, refl, [], ◌∷◌, arith, none, ltb, if◌then◌else◌, Returns}
use ukulele.Libk.Str.{Memory}
use ukulele.Libk.Stdio.{initial_io}
use ukulele.Kernel.{MemmapEntry, MemmapResponse, print_meminfo, clear_map_lower_half}
use ukulele.Kernel.Map.{in_map, AreRegions}
use ukulele.Kernel.Meminfo.{IsSetUp, print_meminfo_lem}
use ukulele.Kernel.LowerHalf.{clear_map_lower_half_lem}
use ukulele.Mmu.Tree.{translation}
use ukulele.Mmu.Grow.{Kept}
use ukulele.Mmu.Source.{allocate_page-IsSource}
use ukulele.Mmu.Tests.{bare, only_root, bare-Kept}

-- The types 0 and 5 are those of usable and of reclaimable memory.
abbrev low : MemmapEntry
low = record { base = 0x1000; length = 0x9e000; type = 0 }

abbrev reserved : MemmapEntry
reserved = record { base = 0x9f000; length = 0x61000; type = 1 }

abbrev loader : MemmapEntry
loader = record { base = 0x100000; length = 0x100000; type = 5 }

abbrev high : MemmapEntry
high = record { base = 0x200000; length = 0x10000000; type = 0 }

abbrev memmap : MemmapResponse
memmap = record {
  address = 0x5000;
  revision = 1;
  entry_count = 4;
  entries = low ∷ reserved ∷ loader ∷ high ∷ [];
}

memmap-AreRegions : AreRegions 0 memmap.entries
unfolding in_map
memmap-AreRegions = (
  λ e. (refl, omega arith),
  λ a h. ground (arith, h),
  (
    λ e. absurd (omega (arith, e)),
    λ a h. absurd (ground (arith, h)),
    (
      λ e. absurd (omega (arith, e)),
      λ a h. absurd (ground (arith, h)),
      (λ e. (refl, omega arith), λ a h. refl, tt),
    ),
  ),
)

abbrev no_strings : Memory
no_strings _ = 0

print_meminfo_lem_example :
    Returns
      (IsSetUp no_strings 0 5 memmap.entries)
      (print_meminfo no_strings (λ _. 0) (λ _. 0) 0 5 0 0x3000 0 memmap (initial_io tt))
print_meminfo_lem_example =
    print_meminfo_lem no_strings (λ _. 0) (λ _. 0) 0 5 0 refl 0x3000 0 memmap (initial_io tt) refl
      refl (omega arith) memmap-AreRegions

clear_map_lower_half_lem_example :
    Kept allocate_page-IsSource 4096 only_root (clear_map_lower_half 4096 bare)
    × ((v : ℕ)
        → translation 4 (clear_map_lower_half 4096 bare).word 4096 0 v
          ≡ (if ltb (v / 2 ^ 39 % 512) 256 then none else translation 4 bare.word 4096 0 v))
clear_map_lower_half_lem_example =
    clear_map_lower_half_lem allocate_page-IsSource 4096 only_root bare bare-Kept
