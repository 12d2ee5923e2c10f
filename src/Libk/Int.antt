-- ===== src/Libk/Int.antt =====
-- The signed integers of C as words: an `int` is its word of 32 bits, a `signed char` its word of
-- 8 bits. Overflow is taken to wrap around.
use ukulele.Base.{ℕ, ◌+◌, ◌-◌, ◌%◌, ◌^◌, Bool, ltb, if◌then◌else◌}

-- `a < b` of two `int`.
abbrev pub slt : ℕ → ℕ → Bool
slt a b = ltb ((a + 2 ^ 31) % 2 ^ 32) ((b + 2 ^ 31) % 2 ^ 32)

-- `signed char` to `int`.
abbrev pub int_of_char : ℕ → ℕ
int_of_char c = if ltb c 128 then c else c + 2 ^ 32 - 2 ^ 8

-- `int` to `long`, and to `size_t`.
abbrev pub long_of_int : ℕ → ℕ
long_of_int n = if ltb n (2 ^ 31) then n else n + 2 ^ 64 - 2 ^ 32

abbrev pub sub32 : ℕ → ℕ → ℕ
sub32 a b = (a + 2 ^ 32 - b) % 2 ^ 32
