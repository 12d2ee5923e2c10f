-- ===== src/Libk/Stdio/Tests.antt =====
-- The theorem about `fopencookie` with two streams in use.
use ukulele.Base.{ℕ, ◌+◌, ◌∷◌, none, some, refl, ◌≡◌, false}
use ukulele.Libk.Stdio.{
  count, CookieIoFunctions, Io, initial_io, fopencookie, find_closed, take_stream,
}

-- A cookie that counts the bytes.
abbrev counter : CookieIoFunctions ℕ
counter = record { reader = none; writer = some (λ cookie buffer n total. (total + n, count n)) }

-- Stream 0 is in use.
abbrev one_open : Io ℕ
one_open = record (initial_io 0) {
  streams =
      record { cookie = 5; io_functions = counter; eof = false; error = false }
      ∷ (initial_io 0).streams;
}

fopencookie_run : (fopencookie one_open 7 counter).1 ≡ some 1
unfolding fopencookie find_closed take_stream
fopencookie_run = refl
