-- ===== src/Tar/Entry.antt =====
-- The walk over the entries of an archive.
use ukulele.Base.{ℕ, ◌+◌, ◌^◌, ◌≤◌, ◌<◌, ◌≡◌, arith}
use ukulele.Libk.Str.{Memory}
use ukulele.Tar.{
  tar_type_reg, file_size_offset, file_size_length, typeflag_offset, next_entry, file_contents,
}
use ukulele.Tar.Octal.{read_octal_padded, read_octal-lt}

-- Where the size field begins with the digit 0, `tar_next_entry` returns the entry it was given:
-- the walk over the archive does not move on.
pub next_entry_stuck :
    (strnlen : Memory → ℕ → ℕ → ℕ) (m : Memory) (head : ℕ)
    → head < 2 ^ 64
    → m (head + file_size_offset) ≡ b'0'
    → next_entry strnlen m head ≡ head
unfolding next_entry
next_entry_stuck strnlen m head fits e =
    omega (arith, read_octal_padded strnlen m (head + file_size_offset) file_size_length e)

-- Where a regular file below 2 GiB has contents and does not reach the end of memory,
-- `tar_next_entry` returns an address inside these contents, since it does not count the block of
-- the header.
pub next_entry_inside :
    (strnlen : Memory → ℕ → ℕ → ℕ) (m : Memory) (head : ℕ)
    → m (head + typeflag_offset) ≡ tar_type_reg
    → 0 < (file_contents strnlen m head).size
    → (file_contents strnlen m head).size < 2 ^ 31
    → head + 2 ^ 32 < 2 ^ 64
    → let f = file_contents strnlen m head in
      (f.contents ≤ next_entry strnlen m head) × (next_entry strnlen m head < f.contents + f.size)
unfolding file_contents next_entry
next_entry_inside strnlen m head regular some_bytes small fits =
    ground (arith, read_octal-lt strnlen m (head + file_size_offset) file_size_length)
