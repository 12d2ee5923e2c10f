-- ===== src/Libk/Str/Tests.antt =====
-- Runs of the string functions, and their theorems at concrete strings.
use ukulele.Base.{ℕ, zero, suc, ◌+◌, ◌≡◌, ◌≢◌, refl, none, some, arith, inr, ◌<◌}
use ukulele.Libk.Str.{Memory, store, strlen, strnlen, strnlen_x86, memset, memmove, strstr}
use ukulele.Libk.Str.Length.{IsString, strlen_lem, strnlen-strnlen_x86}
use ukulele.Libk.Str.Copy.{memmove_lem, memmove_corrupts}

-- "ab" at address 10, zeros elsewhere.
abbrev ab : Memory
ab = store (store (λ _. 0) 10 b'a') 11 b'b'

-- Byte `q` at every address `q`.
abbrev ramp : Memory
ramp q = q

strlen_runs : strlen 9 ab 10 ≡ some 2
unfolding strlen
strlen_runs = refl

strnlen_runs : (strnlen ab 10 8 ≡ 2) × (strnlen_x86 ab 10 8 ≡ 3) × (strnlen ab 10 1 ≡ 1)
unfolding strnlen strnlen_x86
strnlen_runs = (refl, refl, refl)

memset_runs : (memset ramp 3 0x141 2 4 ≡ 0x41) × (memset ramp 3 0x141 2 5 ≡ 5)
unfolding memset
memset_runs = (refl, refl)

strstr_runs : (strstr 9 9 ab 10 11 ≡ some (some 11)) × (strstr 9 9 ab 10 20 ≡ some (some 10))
unfolding strstr
strstr_runs = (refl, refl)

-- The empty text is not found in the empty text.
strstr_empty : strstr 9 9 ab 20 20 ≡ some none
unfolding strstr
strstr_empty = refl

ab-IsString : IsString ab 10 2
ab-IsString = record { body = body; ended = refl }
  where
    body : (i : ℕ) → i < 2 → ab (10 + i) ≢ 0
    body zero h = omega arith
    body (suc zero) h = omega arith
    body (suc (suc i)) h = absurd (omega arith)

strlen_of_string : strlen 3 ab 10 ≡ some 2
strlen_of_string = strlen_lem 3 2 ab-IsString (omega arith)

strnlen-strnlen_x86_example : (strnlen ab 10 8 ≡ 2) × (strnlen_x86 ab 10 8 ≡ 3)
strnlen-strnlen_x86_example = strnlen-strnlen_x86 8 2 ab-IsString

memmove_lem_example : memmove ramp 102 100 4 105 ≡ 103
memmove_lem_example = memmove_lem ramp 102 100 4 105 (inr (omega arith))

memmove_corrupts_example : memmove ramp 101 100 3 103 ≡ 101
memmove_corrupts_example = memmove_corrupts ramp 100 1 3 (omega arith) (omega arith)
