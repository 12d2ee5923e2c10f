-- ===== src/Vaddress/Print.antt =====
-- `vaddress_print`: its lines, and its test that no node is lost.
use ukulele.Base.{
  ℕ, ◌+◌, ◌%◌, ◌^◌, ◌<◌, ◌≡◌, ◌≢◌, refl, arith, List, [], ◌∷◌, false, ◌==◌, ==_iff, u32, length,
  if◌then◌else◌, Outcome, ok, panic, Returns, returns,
}
use ukulele.Libk.Str.{Memory}
use ukulele.Libk.Stdio.{Io}
use ukulele.Libk.Printf.Print.{printf}
use ukulele.Vaddress.{AddressRegion, StorageBlock, VaddressSpace}
use ukulele.Vaddress.Nodes.{entry_total}
use ukulele.Vaddress.Valid.{IsValid}

-- The loop over the blocks: how many there are, and how many nodes they have handed out. An `int`
-- is its word of 32 bits.
pub count_blocks : List StorageBlock → ℕ → ℕ → ℕ × ℕ
count_blocks [] blocks regions = (blocks, regions)
count_blocks (b ∷ bs) blocks regions =
    count_blocks bs (u32 (blocks + 1)) (u32 (regions + b.entries))

-- The loop over the free list.
pub count_unused : List ℕ → ℕ → ℕ
count_unused [] regions_unused = regions_unused
count_unused (node ∷ rest) regions_unused = count_unused rest (u32 (regions_unused + 1))

module _ {W : Type 0} (m : Memory) where
  -- The loop over the regions, which prints them.
  pub print_regions : List AddressRegion → ℕ → Io W → Io W × ℕ
  print_regions [] regions_used io = (io, regions_used)
  print_regions (r ∷ rs) regions_used io =
      print_regions rs (u32 (regions_used + 1)) (printf m io "\t%p-%p\n" (r.begin ∷ r.end ∷ [])).0

  -- The lines before those of the regions.
  pub print_header : {P : Type 0} → VaddressSpace P → ℕ × ℕ → Io W → Io W
  print_header v counts io =
      let io1 = (printf m io "vaddr %p-%p\n" (v.space_begin ∷ v.space_end ∷ [])).0 in
      (printf m io1 "\tstorage blocks: %i nodes: %i\n" (counts.0 ∷ counts.1 ∷ [])).0

  -- All lines, and the assertion.
  pub vaddress_print : {P : Type 0} → VaddressSpace P → Io W → Outcome (Io W)
  unfolding count_blocks count_unused print_regions print_header
  vaddress_print v io =
      let counts = count_blocks v.store.storage 0 0 in
      let regions_unused = count_unused v.store.unused 0 in
      let listed = print_regions v.allocated 0 (print_header v counts io) in
      let io' =
        (printf m listed.0 "\tnodes used: %i unused: %i\n" (listed.1 ∷ regions_unused ∷ [])).0 in
      if counts.1 == u32 (listed.1 + regions_unused) then ok io' else panic

count_blocks-regions :
    (bs : List StorageBlock) (blocks regions : ℕ)
    → (count_blocks bs blocks regions).1 % 2 ^ 32 ≡ (regions + entry_total bs) % 2 ^ 32
unfolding count_blocks entry_total
count_blocks-regions [] blocks regions = omega arith
count_blocks-regions (b ∷ bs) blocks regions =
    omega (arith, count_blocks-regions bs (u32 (blocks + 1)) (u32 (regions + b.entries)))

count_blocks-lt :
    (bs : List StorageBlock) (blocks regions : ℕ)
    → regions < 2 ^ 32
    → (count_blocks bs blocks regions).1 < 2 ^ 32
unfolding count_blocks
count_blocks-lt [] blocks regions h = h
count_blocks-lt (b ∷ bs) blocks regions h =
    count_blocks-lt bs (u32 (blocks + 1)) (u32 (regions + b.entries)) (omega arith)

count_unused-length : (ns : List ℕ) (n : ℕ) → count_unused ns n % 2 ^ 32 ≡ (n + length ns) % 2 ^ 32
unfolding count_unused
count_unused-length [] n = omega arith
count_unused-length (x ∷ ns) n = omega (arith, count_unused-length ns (u32 (n + 1)))

print_regions-length :
    {W : Type 0} (m : Memory) (rs : List AddressRegion) (n : ℕ) (io : Io W)
    → (print_regions m rs n io).1 % 2 ^ 32 ≡ (n + length rs) % 2 ^ 32
unfolding print_regions
print_regions-length m [] n io = omega arith
print_regions-length m (r ∷ rs) n io = omega (
  arith,
  print_regions-length m rs (u32 (n + 1)) (printf m io "\t%p-%p\n" (r.begin ∷ r.end ∷ [])).0,
)

-- `vaddress_print` of an address space all of whose nodes are in one of the two lists returns.
-- Where their number is another, and both are below 2 ^ 32, it panics.
pub vaddress_print_lem :
    {W P : Type 0} (m : Memory) (v : VaddressSpace P) (io : Io W)
    → (IsValid v → Returns (λ io'. Unit) (vaddress_print m v io))
      × (entry_total v.store.storage ≢ length v.store.unused + length v.allocated
          → entry_total v.store.storage < 2 ^ 32
          → length v.store.unused + length v.allocated < 2 ^ 32
          → vaddress_print m v io ≡ panic)
unfolding vaddress_print
vaddress_print_lem m v io =
    let counts = count_blocks v.store.storage 0 0 in
    let listed = print_regions m v.allocated 0 (print_header m v counts io) in
    let regions = count_blocks-regions v.store.storage 0 0 in
    let small = count_blocks-lt v.store.storage 0 0 (omega arith) in
    let unused = count_unused-length v.store.unused 0 in
    let used = print_regions-length m v.allocated 0 (print_header m v counts io) in
    (
      λ h.
          let e : counts.1 ≡ u32 (listed.1 + count_unused v.store.unused 0) =
            omega (arith, regions, small, unused, used, h.counted) in
          rw ((==_iff counts.1 (u32 (listed.1 + count_unused v.store.unused 0))).1 e) (returns tt),
      λ lost total_small lists_small.
          let ne : (counts.1 == u32 (listed.1 + count_unused v.store.unused 0)) ≡ false =
            ground (arith, regions, small, unused, used, lost, total_small, lists_small) in
          rw ne refl,
    )
