-- ===== src/Libk/Stdio/Streams.antt =====
-- `fopencookie`: which stream it takes; and a stream whose writes succeed.
use ukulele.Base.{
  ℕ, suc, ◌+◌, ◌*◌, ◌%◌, ◌^◌, ap, ◌∙◌, if◌then◌else◌, ◌-◌, ◌<◌, ◌≤◌, ◌≡◌, ◌≢◌, inl, inr, refl, sym,
  List, [], ◌∷◌, Option, none, some, arith, ◌==◌, false, Bool-cases, length, get_or, All,
  get_or-set_self, get_or-set_ne,
}
use ukulele.Libk.Stdio.{
  File, CookieIoFunctions, Io, closed_file, file, find_closed, take_stream, fopencookie, enosr,
  eopnotsupp, fwrite, after_write, Ssize, count,
}

module _ {W : Type 0} where
  -- What the search from number `i` on comes to.
  Search : List (File W) → ℕ → Option ℕ → Type 0
  Search fs i none = All (λ (f : File W). f.cookie ≢ 0) fs
  Search fs i (some k) =
      (i ≤ k) × (k < i + length fs) × ((get_or fs (k - i) closed_file).cookie ≡ 0)

  Search-later :
      (f : File W) (fs : List (File W)) (i : ℕ) (o : Option ℕ)
      → f.cookie ≢ 0
      → Search fs (i + 1) o
      → Search (f ∷ fs) i o
  unfolding Search
  Search-later f fs i none ne h = (ne, h)
  Search-later f fs i (some k) ne h =
      let e : k - i ≡ suc (k - (i + 1)) = omega (arith, h.0) in
      (omega (arith, h.0), omega (arith, h.1), rw e h.2)

  find_closed-Search : (fs : List (File W)) (i : ℕ) → Search fs i (find_closed fs i)
  unfolding find_closed Search
  find_closed-Search [] i = tt
  find_closed-Search (f ∷ fs) i = elim (Bool-cases (f.cookie == 0)) [
    | inl y ↦
        let e : i - i ≡ 0 = omega arith in rw y (omega arith, omega arith, rw e (ground arith))
    | inr n ↦ rw n (
        Search-later f fs i (find_closed fs (i + 1)) (λ z. ground arith)
          (find_closed-Search fs (i + 1)))
  ]

  -- Stream `k` was closed, and is the new one now.
  pub record Opened (io : Io W) (cookie : ℕ) (functions : CookieIoFunctions W) (k : ℕ) (io' : Io W)
      : Type 0 where
    pub in_range : k < length io.streams
    pub was_closed : (file io k).cookie ≡ 0
    pub opened :
        file io' k
        ≡ record { cookie = cookie; io_functions = functions; eof = false; error = false }
    pub others : (j : ℕ) → j ≢ k → file io' j ≡ file io j
    pub same_world : io'.world ≡ io.world
    pub no_error : io'.errno ≡ 0

  -- What `fopencookie` comes to.
  pub OpenResult : Io W → ℕ → CookieIoFunctions W → Io W × Option ℕ → Type 0
  OpenResult io cookie functions (io', none) =
      All (λ (f : File W). f.cookie ≢ 0) io.streams × (io' ≡ record io { errno = enosr })
  OpenResult io cookie functions (io', some k) = Opened io cookie functions k io'

  take_stream-OpenResult :
      (io : Io W) (cookie : ℕ) (functions : CookieIoFunctions W) (o : Option ℕ)
      → Search io.streams 0 o
      → OpenResult io cookie functions (take_stream io cookie functions o)
  unfolding take_stream OpenResult Search
  take_stream-OpenResult io cookie functions none h = (h, refl)
  take_stream-OpenResult io cookie functions (some k) h =
      let at_k : k - 0 ≡ k = omega arith in
      record {
        in_range = omega (arith, h.1);
        was_closed = rw at_k at h.2;
        opened = get_or-set_self io.streams k _ closed_file (omega (arith, h.1));
        others = λ j ne. get_or-set_ne io.streams k j _ closed_file (λ e. ne (sym e));
        same_world = refl;
        no_error = refl;
      }

  -- `fopencookie` returns a stream whose cookie was null, which gets the cookie and the functions
  -- with both flags clear, and leaves all other streams as they were; or it returns NULL, no
  -- stream has a null cookie, and just `errno` is set.
  pub fopencookie_lem :
      (io : Io W) (cookie : ℕ) (functions : CookieIoFunctions W)
      → OpenResult io cookie functions (fopencookie io cookie functions)
  unfolding fopencookie
  fopencookie_lem io cookie functions =
      take_stream-OpenResult io cookie functions _ (find_closed-Search io.streams 0)

  -- A stream whose function writes all of the bytes.
  pub fwrite-count :
      (io : Io W) (buf : ℕ → ℕ) (len i : ℕ) {write : ℕ → (ℕ → ℕ) → ℕ → W → W × Ssize} {w : W}
      → (file io i).io_functions.writer ≡ some write
      → 0 < len
      → len < 2 ^ 64
      → write (file io i).cookie buf len io.world ≡ (w, count len)
      → fwrite io buf 1 len (some i) ≡ (record io { errno = 0; world = w }, len)
  unfolding fwrite after_write
  fwrite-count io buf len i {write} {w} writes some_byte short all =
      let whole : 1 * len % 2 ^ 64 ≡ len = omega arith in
      let ne : (len == 0) ≡ false = ground arith in
      let by : Option (ℕ → (ℕ → ℕ) → ℕ → W → W × Ssize) → Io W × ℕ = λ f. elim f [
        | none ↦ (record io { errno = eopnotsupp }, 0)
        | some write' ↦
            let nbytes : ℕ = 1 * len % 2 ^ 64 in
            let io' : Io W = record io { errno = 0 } in
            if nbytes == 0
            then (io', 0)
            else after_write io' i (write' (file io i).cookie buf nbytes io.world)
      ] in
      ap by writes ∙ rw (whole, ne, all, ne) refl
