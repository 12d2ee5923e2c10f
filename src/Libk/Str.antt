-- ===== src/Libk/Str.antt =====
-- The string functions of src/libk/string.c, and the two scans of src/libk/string_x86.s that take
-- the place of the weak C ones in the x86 build.
--
-- Memory is a function from addresses to bytes. Addresses are plain numbers: the C functions are
-- called on objects, so no pointer wraps.
pub mod Length
pub mod Copy
mod Tests
use ukulele.Base.{
  ℕ, zero, suc, ◌+◌, ◌-◌, ◌%◌, ◌^◌, Bool, true, false, Option, none, some, ltb, leb, ◌==◌,
  if◌then◌else◌,
}

abbrev pub Memory : Type 0
Memory = ℕ → ℕ

abbrev pub store : Memory → ℕ → ℕ → Memory
store m p v q = if p == q then v else m q

-- `while (*str++) len++;`
pub strlen_loop : ℕ → Memory → ℕ → ℕ → Option ℕ
strlen_loop zero m str len = none
strlen_loop (suc fuel) m str len =
    let rest = strlen_loop fuel m (str + 1) (len + 1) in if m str == 0 then some len else rest

-- `none` means that the fuel ran out.
pub strlen : ℕ → Memory → ℕ → Option ℕ
unfolding strlen_loop
strlen fuel m str = strlen_loop fuel m str 0

-- `while (n --> 0 && *str++) len++;`
unfoldable pub strnlen_loop : Memory → ℕ → ℕ → ℕ → ℕ
strnlen_loop m str zero len = len
strnlen_loop m str (suc n) len =
    let rest = strnlen_loop m (str + 1) n (len + 1) in if m str == 0 then len else rest

unfoldable pub strnlen : Memory → ℕ → ℕ → ℕ
unfolding strnlen_loop
strnlen m str n = strnlen_loop m str n 0

-- `repne scasb` with 0 in `al`: `rdi` after at most `rcx` bytes, past the first 0 byte.
pub repne_scasb : Memory → ℕ → ℕ → ℕ
repne_scasb m rdi zero = rdi
repne_scasb m rdi (suc rcx) =
    let rest = repne_scasb m (rdi + 1) rcx in if m rdi == 0 then rdi + 1 else rest

-- `strnlen` of string_x86.s.
pub strnlen_x86 : Memory → ℕ → ℕ → ℕ
unfolding repne_scasb
strnlen_x86 m str n = repne_scasb m str n - str

-- `strlen` of string_x86.s jumps there with the largest count.
pub strlen_x86 : Memory → ℕ → ℕ
unfolding strnlen_x86
strlen_x86 m str = strnlen_x86 m str (2 ^ 64 - 1)

unfoldable pub memcpy : Memory → ℕ → ℕ → ℕ → Memory
memcpy m d s zero = m
memcpy m d s (suc count) = memcpy (store m d (m s)) (d + 1) (s + 1) count

-- The byte is `ch` converted to `char`.
pub memset : Memory → ℕ → ℕ → ℕ → Memory
memset m d ch zero = m
memset m d ch (suc count) = memset (store m d (ch % 2 ^ 8)) (d + 1) ch count

pub memmove : Memory → ℕ → ℕ → ℕ → Memory
unfolding memcpy
memmove m d s count =
    let offset = d - s in
    let overlap = count - offset in
    if leb d s
    then memcpy m d s count
    else if leb (s + count) d
    then memcpy m d s count
    else memcpy (memcpy m (d + offset) (s + offset) overlap) d s offset

-- The inner loop of `strstr`: does the text at `h` begin with the needle?
pub matches_at : ℕ → Memory → ℕ → ℕ → Option Bool
matches_at zero m h needle = none
matches_at (suc fuel) m h needle =
    let rest = matches_at fuel m (h + 1) (needle + 1) in
    if m needle == 0 then some true else if m needle == m h then rest else some false

-- The outer loop. A null pointer is `some none`.
pub strstr : ℕ → ℕ → Memory → ℕ → ℕ → Option (Option ℕ)
unfolding matches_at
strstr inner zero m h needle = none
strstr inner (suc fuel) m h needle =
    let rest = strstr inner fuel m (h + 1) needle in
    if m h == 0 then some none else elim (matches_at inner m h needle) [
      | none ↦ none
      | some true ↦ some (some h)
      | some false ↦ rest
    ]
