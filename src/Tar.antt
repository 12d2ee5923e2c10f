-- ===== src/Tar.antt =====
-- Files in a tar archive (src/tar.c, src/include/tar.h).
--
-- The archive stands in memory. `strnlen` is a parameter, since the C one and the x86 one of
-- src/libk count differently. `int` arithmetic is on 32-bit patterns, modulo 2 ^ 32.
pub mod Octal
pub mod Entry
mod Tests
use ukulele.Base.{
  ℕ, zero, suc, ◌+◌, ◌-◌, ◌*◌, ◌/◌, ◌%◌, ◌^◌, List, [], ◌∷◌, Bool, ltb, ◌==◌, if◌then◌else◌, u32,
  add64,
}
use ukulele.Libk.Str.{Memory}

abbrev pub tar_block_size : ℕ
tar_block_size = 512

abbrev pub tar_type_reg : ℕ
tar_type_reg = b'0'

-- Where the fields stand in `struct tar_header`.
abbrev pub file_size_offset : ℕ
file_size_offset = 124

abbrev pub file_size_length : ℕ
file_size_length = 12

abbrev pub typeflag_offset : ℕ
typeflag_offset = 156

pub record MmFile : Type 0 where
  pub contents : ℕ
  pub size : ℕ

-- `c - '0'` of a signed `char`.
abbrev pub digit : ℕ → ℕ
digit c = if ltb c 128 then u32 (c + 2 ^ 32 - b'0') else u32 (c + 2 ^ 32 - 256 - b'0')

-- The loop of `tar_read_octal`, with `len` rounds left.
pub read_loop : Memory → ℕ → ℕ → ℕ → ℕ
read_loop m str zero val = val
read_loop m str (suc len) val = read_loop m str len (u32 (val * 8 + digit (m str)))

module _ (strnlen : Memory → ℕ → ℕ → ℕ) where
  pub read_octal : Memory → ℕ → ℕ → ℕ
  unfolding read_loop
  read_octal m str len = read_loop m str (strnlen m str len) 0

  pub next_entry : Memory → ℕ → ℕ
  next_entry m head =
      let bytes = read_octal m (head + file_size_offset) file_size_length in
      let blocks = u32 (bytes + tar_block_size + 2 ^ 32 - 1) / tar_block_size in
      add64 head (u32 (blocks * tar_block_size))

  pub file_contents : Memory → ℕ → MmFile
  file_contents m head =
      if m (head + typeflag_offset) == tar_type_reg
      then record {
        contents = add64 head tar_block_size;
        size = read_octal m (head + file_size_offset) file_size_length;
      }
      else record { contents = 0; size = 0 }
