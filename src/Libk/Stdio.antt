-- ===== src/Libk/Stdio.antt =====
-- The streams of src/libk/stdio.c over the functions of a cookie.
--
-- A `FILE*` is an index into `streams`, with `none` for NULL. `W` is the world that a cookie's
-- functions act on. A buffer is a function from an index to the byte there, and an `int` is its
-- word of 32 bits.
pub mod Streams
mod Tests
use ukulele.Libk.Str.{strlen_x86}
use ukulele.Base.{
  ℕ, zero, suc, ◌+◌, ◌-◌, ◌*◌, ◌%◌, ◌^◌, List, [], ◌∷◌, Option, none, some, Bool, true, false, ◌==◌,
  u32, if◌then◌else◌, length, get_or, set, replicate,
}

-- A `ssize_t` result; of a negative one the streams read the sign only.
pub data Ssize : Type 0 where
  count : ℕ → Ssize
  negative : Ssize

pub record CookieIoFunctions (W : Type 0) : Type 0 where
  pub reader : Option (ℕ → ℕ → ℕ → W → W × Ssize)
  pub writer : Option (ℕ → (ℕ → ℕ) → ℕ → W → W × Ssize)

pub record File (W : Type 0) : Type 0 where
  pub cookie : ℕ
  pub io_functions : CookieIoFunctions W
  pub eof : Bool
  pub error : Bool

pub record Io (W : Type 0) : Type 0 where
  pub errno : ℕ
  pub stdout : Option ℕ
  pub stderr : Option ℕ
  pub streams : List (File W)
  pub world : W

abbrev pub end_of_file : ℕ
end_of_file = 4294967295

abbrev pub max_open_streams : ℕ
max_open_streams = 8

abbrev pub enostr : ℕ
enostr = 3

abbrev pub eopnotsupp : ℕ
eopnotsupp = 2

abbrev pub eio : ℕ
eio = 1

abbrev pub enosr : ℕ
enosr = 4

module _ {W : Type 0} where
  abbrev pub closed_file : File W
  closed_file = record {
    cookie = 0;
    io_functions = record { reader = none; writer = none };
    eof = false;
    error = false;
  }

  -- Before any stream is opened.
  abbrev pub initial_io : W → Io W
  initial_io w = record {
    errno = 0;
    stdout = none;
    stderr = none;
    streams = replicate max_open_streams closed_file;
    world = w;
  }

  abbrev pub file : Io W → ℕ → File W
  file io i = get_or io.streams i closed_file

  abbrev pub set_file : Io W → ℕ → File W → Io W
  set_file io i f = record io { streams = set io.streams i f }

  -- `stream->error = true; errno = EIO;`
  abbrev pub io_error : Io W → ℕ → Io W
  io_error io i = record (set_file io i (record (file io i) { error = true })) { errno = eio }

  -- The end of `fread`, after the call of the cookie's function.
  pub after_read : Io W → ℕ → W × Ssize → Io W × ℕ
  after_read io i (w, negative) = (io_error (record io { world = w }) i, 0)
  after_read io i (w, count n) =
      let io' : Io W = record io { world = w } in
      if n == 0 then (set_file io' i (record (file io i) { eof = true }), 0) else (io', n)

  pub fread : Io W → ℕ → ℕ → ℕ → Option ℕ → Io W × ℕ
  unfolding after_read
  fread io buffer size items none = (record io { errno = enostr }, 0)
  fread io buffer size items (some i) = elim (file io i).io_functions.reader [
    | none ↦ (record io { errno = eopnotsupp }, 0)
    | some read ↦
        let nbytes : ℕ = (size * items) % 2 ^ 64 in
        let io' : Io W = record io { errno = 0 } in
        if nbytes == 0
        then (io', 0)
        else after_read io' i (read (file io i).cookie buffer nbytes io.world)
  ]

  -- The end of `fwrite`, after the call of the cookie's function.
  pub after_write : Io W → ℕ → W × Ssize → Io W × ℕ
  after_write io i (w, negative) = (io_error (record io { world = w }) i, 0)
  after_write io i (w, count n) =
      let io' : Io W = record io { world = w } in if n == 0 then (io_error io' i, 0) else (io', n)

  pub fwrite : Io W → (ℕ → ℕ) → ℕ → ℕ → Option ℕ → Io W × ℕ
  unfolding after_write
  fwrite io buffer size items none = (record io { errno = enostr }, 0)
  fwrite io buffer size items (some i) = elim (file io i).io_functions.writer [
    | none ↦ (record io { errno = eopnotsupp }, 0)
    | some write ↦
        let nbytes : ℕ = (size * items) % 2 ^ 64 in
        let io' : Io W = record io { errno = 0 } in
        if nbytes == 0
        then (io', 0)
        else after_write io' i (write (file io i).cookie buffer nbytes io.world)
  ]

  -- The loop of `fopencookie` over the streams, from number `i` on.
  pub find_closed : List (File W) → ℕ → Option ℕ
  find_closed [] i = none
  find_closed (f ∷ fs) i =
      let rest = find_closed fs (i + 1) in if f.cookie == 0 then some i else rest

  -- The body of that loop, for the stream that is found, and the end.
  pub take_stream : Io W → ℕ → CookieIoFunctions W → Option ℕ → Io W × Option ℕ
  take_stream io cookie functions none = (record io { errno = enosr }, none)
  take_stream io cookie functions (some i) =
      let f : File W = record {
        cookie = cookie;
        io_functions = functions;
        eof = false;
        error = false;
      } in
      (set_file (record io { errno = 0 }) i f, some i)

  pub fopencookie : Io W → ℕ → CookieIoFunctions W → Io W × Option ℕ
  unfolding find_closed take_stream
  fopencookie io cookie functions = take_stream io cookie functions (find_closed io.streams 0)

  -- `strlen` is the assembly one that the build links.
  unfoldable pub fputs : Io W → (ℕ → ℕ) → Option ℕ → Io W × ℕ
  unfolding fwrite
  fputs io str stream =
      let len = strlen_x86 str 0 in
      let out = fwrite io str 1 len stream in (out.0, if out.1 == 0 then end_of_file else u32 out.1)

  unfoldable pub fputc : Io W → ℕ → Option ℕ → Io W × ℕ
  fputc io c stream =
      let out = fwrite io (λ _. c % 2 ^ 8) 1 1 stream in
      (out.0, if out.1 == 0 then end_of_file else c)

  unfoldable pub puts : Io W → (ℕ → ℕ) → Io W × ℕ
  unfolding fputs fputc
  puts io str =
      let ret = fputs io str io.stdout in
      let line = fputc ret.0 10 io.stdout in
      if ret.1 == end_of_file
      then (ret.0, end_of_file)
      else if line.1 == end_of_file
      then (line.0, end_of_file)
      else (line.0, u32 (1 + ret.1))

  pub clearerr : Io W → Option ℕ → Io W
  clearerr io none = io
  clearerr io (some i) = set_file io i (record (file io i) { eof = false; error = false })

  pub ferror : Io W → Option ℕ → Bool
  ferror io none = true
  ferror io (some i) = (file io i).error

  pub feof : Io W → Option ℕ → Bool
  feof io none = true
  feof io (some i) = (file io i).eof
