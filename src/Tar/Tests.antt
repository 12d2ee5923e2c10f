-- ===== src/Tar/Tests.antt =====
-- Two archives, and the theorems at them.
use ukulele.Base.{◌+◌, ◌≡◌, refl, arith, ◌≤◌, ◌<◌, u32, replicate}
use ukulele.Libk.Str.{Memory, store, strnlen}
use ukulele.Tar.{digit, read_octal, next_entry, file_contents}
use ukulele.Tar.Octal.{octal_value, read_octal_lem, read_octal_padded}
use ukulele.Tar.Entry.{next_entry_stuck, next_entry_inside}

-- A regular file at 4096 whose size field is "017", that is 15 bytes.
abbrev padded : Memory
padded = store (store (store (store (λ _. 0) 4220 b'0') 4221 b'1') 4222 b'7') 4252 b'0'

-- The same with the size field "17".
abbrev unpadded : Memory
unpadded = store (store (store (λ _. 0) 4220 b'1') 4221 b'7') 4252 b'0'

padded_runs : (read_octal strnlen padded 4220 12 ≡ 0) × (next_entry strnlen padded 4096 ≡ 4096)
unfolding read_octal strnlen next_entry
padded_runs = (refl, refl)

-- 15 is read as 9.
unpadded_runs : file_contents strnlen unpadded 4096 ≡ record { contents = 4608; size = 9 }
unfolding read_octal strnlen file_contents
unpadded_runs = refl

read_octal_lem_example :
    read_octal strnlen unpadded 4220 12
    ≡ u32 (octal_value 0 (replicate (strnlen unpadded 4220 12) (digit b'1')))
read_octal_lem_example = read_octal_lem strnlen unpadded 4220 12

read_octal_padded_example : read_octal strnlen padded 4220 12 ≡ 0
read_octal_padded_example = read_octal_padded strnlen padded 4220 12 refl

next_entry_stuck_example : next_entry strnlen padded 4096 ≡ 4096
next_entry_stuck_example = next_entry_stuck strnlen padded 4096 (omega arith) refl

unpadded_size : (file_contents strnlen unpadded 4096).size ≡ 9
unfolding read_octal strnlen file_contents
unpadded_size = refl

next_entry_inside_example :
    let f = file_contents strnlen unpadded 4096 in
    (f.contents ≤ next_entry strnlen unpadded 4096)
    × (next_entry strnlen unpadded 4096 < f.contents + f.size)
next_entry_inside_example =
    next_entry_inside strnlen unpadded 4096 refl (omega (arith, unpadded_size))
      (omega (arith, unpadded_size)) (omega arith)
