-- ===== src/Libk/Printf/Tests.antt =====
-- Runs of `vfprintf`, and the theorems about it at concrete arguments.
use ukulele.Base.{
  ℕ, zero, suc, ◌+◌, ◌-◌, ◌<◌, ◌≢◌, ◌≡◌, List, [], ◌∷◌, ◌++◌, none, some, refl, arith, get_or, u32,
  true, false,
}
use ukulele.Libk.Int.{sub32}
use ukulele.Libk.Str.{Memory}
use ukulele.Libk.Stdio.{count, CookieIoFunctions, Io, initial_io, fwrite, end_of_file}
use ukulele.Libk.Printf.Convert.{
  Printing, ◌>>=◌, fwrite_e, pad_loop, print_num_10, print_char, print_string,
}
use ukulele.Libk.Printf.Format.{vfprintf, format_char, other}
use ukulele.Libk.Printf.Digits.{Numeral}
use ukulele.Libk.Printf.Numbers.{print_num_10_lem}
use ukulele.Libk.Printf.Strings.{print_char_255, print_string_short}
use ukulele.Libk.Printf.Plain.{put_all, plain_result, vfprintf_plain}

-- The first `n` bytes of a buffer.
bytes : (ℕ → ℕ) → ℕ → List ℕ
bytes buffer zero = []
bytes buffer (suc n) = buffer 0 ∷ bytes (λ i. buffer (i + 1)) n

-- A cookie that keeps what is written.
abbrev log : CookieIoFunctions (List ℕ)
log = record {
  reader = none;
  writer = some (λ cookie buffer n written. (written ++ bytes buffer n, count n));
}

abbrev io_log : Io (List ℕ)
io_log = record (initial_io []) {
  streams = record { cookie = 5; io_functions = log; eof = false; error = false } ∷ [];
}

abbrev with_args : List ℕ → Printing (List ℕ)
with_args args = record { io = io_log; args = args }

-- The string "tar" at the address 16.
abbrev tar_text : Memory
tar_text a = get_or (116 ∷ 97 ∷ 114 ∷ []) (a - 16) 0

print_num_10_lem_example :
    (n : ℕ) × (buffer : List ℕ) × (print_num_10 (some 0) 2026 (with_args [])
      ≡ fwrite_e (some 0) (λ i. get_or buffer i 0) n (with_args []))
    × Numeral 10 2026 n buffer
print_num_10_lem_example = print_num_10_lem (some 0) (with_args []) 2026 (omega arith)

print_char_255_example :
    ((print_char (some 0) (with_args (255 ∷ []))).0.io ≡ (fwrite io_log (λ _. 255) 1 1 (some 0)).0)
    × ((print_char (some 0) (with_args (255 ∷ []))).1 ≡ none)
print_char_255_example = print_char_255 (some 0) io_log 255 [] refl

tar_text_long : (i : ℕ) → i < 2 → tar_text (16 + i) ≢ 0
tar_text_long zero h = λ e. omega (arith, e)
tar_text_long (suc zero) h = λ e. omega (arith, e)
tar_text_long (suc (suc i)) h = absurd (omega (arith, h))

print_string_short_example :
    print_string
      (some 0)
      tar_text
      (record { precision = 2; width = 3; length = 0; zero_pad = false; has_precision = true })
      (with_args (16 ∷ []))
    ≡ (pad_loop (some 0) 3 2 32 0 (with_args []) >>= λ s1 _.
        fwrite_e (some 0) (λ i. tar_text (16 + i)) (sub32 2 (3 - 2)) s1 >>= λ s2 n.
        (s2, some (u32 (3 - 2 + n))))
print_string_short_example =
    print_string_short (some 0) tar_text io_log 16 2 3 0 false [] (omega arith) (omega arith)
      tar_text_long

abbrev ok_text : List ℕ
ok_text = b'o' ∷ b'k' ∷ []

y_unknown : format_char b'y' ≡ other
unfolding format_char
y_unknown = refl

vfprintf_plain_example :
    (vfprintf tar_text (some 0) ok_text (with_args [])
      ≡ plain_result 2 (put_all (some 0) ok_text (with_args [])))
    × (vfprintf tar_text (some 0) (ok_text ++ b'%' ∷ []) (with_args [])
        ≡ ((put_all (some 0) ok_text (with_args [])).0, end_of_file))
    × (vfprintf tar_text (some 0) (ok_text ++ b'%' ∷ b'y' ∷ b'd' ∷ []) (with_args [])
        ≡ ((put_all (some 0) ok_text (with_args [])).0, end_of_file))
vfprintf_plain_example =
    vfprintf_plain tar_text (some 0) ok_text b'y' (b'd' ∷ []) (with_args [])
      (λ e. omega (arith, e), (λ e. omega (arith, e), tt)) y_unknown
