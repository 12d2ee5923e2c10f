-- ===== src/Pmm/Tests.antt =====
-- A run of the page allocator, and its theorems at the states of that run.
use ukulele.Base.{
  ℕ, ◌+◌, ◌-◌, ◌^◌, ◌≡◌, ◌≢◌, refl, [], ◌∷◌, none, some, arith, true, ok, panic, Returns,
  Returns-ok, subst, replicate,
}
use ukulele.Page.{is_page_aligned}
use ukulele.Pmm.{
  pmm_entries, CtrlPtr, Pmm, too_small, zero_entry, new, setup_entry, fill, add, ctz, allocate_page,
  free_page, count_pages,
}
use ukulele.Pmm.Valid.{IsValid, free, used, page_state, free_total}
use ukulele.Pmm.New.{IsEmpty, new-IsEmpty}
use ukulele.Pmm.Add.{Added, add_lem}
use ukulele.Pmm.Alloc.{Allocated, allocate_page_lem}
use ukulele.Pmm.Free.{Released, free_page_lem}
use ukulele.Pmm.Count.{used_total, block_total, count_pages_lem}
use ukulele.Pmm.Restore.{free_page-allocate_page}
use ukulele.Pmm.Client.{
  System, IsSound, grant, Reach, start, step, Without, Reach-IsSound, calls_return,
}

abbrev empty : Pmm
empty = replicate pmm_entries zero_entry

-- 64 pages at 1 MiB: a control block and 63 pages.
abbrev pub low_memory : CtrlPtr
low_memory = record {
  physical_start = 0x101000;
  ctrl_address = 0x100000;
  ctrl = (2 ^ 63 - 1) ∷ replicate 511 0;
  max_pages = 63;
  free_pages = 63;
  active = true;
}

abbrev pub boot : Pmm
boot = low_memory ∷ replicate 167 zero_entry

-- The same after one page has been taken.
abbrev busy : Pmm
busy =
    record low_memory { ctrl = (2 ^ 63 - 2) ∷ replicate 511 0; free_pages = 62 }
    ∷ replicate 167 zero_entry

abbrev page : ℕ
page = 0x101000

new_runs : new 0x5000 ≡ ok empty
unfolding new is_page_aligned
new_runs = refl

add_runs : add 0 empty 0x100000 0x40000 ≡ ok (boot, none)
unfolding add setup_entry is_page_aligned fill
add_runs = refl

add_small : add 0 boot 0x200000 0x3f000 ≡ ok (boot, some (too_small 0x200000 0x3f000))
unfolding add is_page_aligned
add_small = refl

allocate_runs : allocate_page boot ≡ ok (busy, 0x101000)
unfolding allocate_page ctz
allocate_runs = refl

free_runs : free_page busy 0x101000 ≡ ok boot
unfolding free_page
free_runs = refl

double_free : free_page boot page ≡ panic
unfolding free_page
double_free = refl

empty-IsEmpty : IsEmpty empty
empty-IsEmpty = Returns-ok (subst (Returns IsEmpty) new_runs (new-IsEmpty 0x5000 refl))

add_lem_example :
    Returns (λ out. Added empty 0x100000 0x40000 out × IsValid out.0) (add 0 empty 0x100000 0x40000)
add_lem_example =
    add_lem 0 0x100000 0x40000 empty-IsEmpty.valid refl refl (omega arith)
      (λ a h. empty-IsEmpty.unclaimed a)

pub boot-IsValid : IsValid boot
boot-IsValid =
    (Returns-ok (
      subst (Returns (λ out. Added empty 0x100000 0x40000 out × IsValid out.0)) add_runs
        add_lem_example)).1

allocate_page_lem_example : Returns (λ out. Allocated boot out × IsValid out.0) (allocate_page boot)
allocate_page_lem_example = allocate_page_lem boot-IsValid

busy-IsValid : IsValid busy
busy-IsValid =
    (Returns-ok (
      subst (Returns (λ out. Allocated boot out × IsValid out.0)) allocate_runs
        allocate_page_lem_example)).1

free_page_lem_example :
    (free_page busy 0 ≡ ok busy)
    × (page ≢ 0
        → page_state busy page ≡ used
        → Returns (λ qs. Released busy page qs × IsValid qs) (free_page busy page))
    × (page ≢ 0 → page_state busy page ≢ used → free_page busy page ≡ panic)
free_page_lem_example = free_page_lem page busy-IsValid

count_pages_lem_example :
    let s = count_pages busy in
    (s.free ≡ free_total busy)
    × (s.used ≡ used_total busy)
    × (s.overhead ≡ block_total busy + 1)
    × (s.total ≡ s.free + s.used + s.overhead)
count_pages_lem_example = count_pages_lem busy-IsValid

free_page-allocate_page_example :
    Returns (λ out. out.1 ≢ 0 → free_page out.0 out.1 ≡ ok boot) (allocate_page boot)
free_page-allocate_page_example = free_page-allocate_page boot-IsValid

abbrev at_boot : System
at_boot = record { pmm = boot; held = [] }

abbrev at_work : System
at_work = record { pmm = busy; held = page ∷ [] }

at_boot-IsSound : IsSound 63 at_boot
unfolding free_total
at_boot-IsSound = record { valid = boot-IsValid; held_in_use = tt; distinct = tt; conserved = refl }

to_work : Reach at_boot at_work
to_work = step start (grant allocate_runs (omega arith))

Reach-IsSound_example : IsSound 63 at_work
Reach-IsSound_example = Reach-IsSound 63 at_boot-IsSound to_work

calls_return_example :
    Returns (λ out. IsValid out.0) (allocate_page busy)
    × (Without page (page ∷ []) []
        → Returns (λ qs. page_state qs page ≡ free) (free_page busy page))
calls_return_example = calls_return 63 page [] at_boot-IsSound to_work
