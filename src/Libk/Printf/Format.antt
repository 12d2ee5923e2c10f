-- ===== src/Libk/Printf/Format.antt =====
-- The format strings of src/libk/vfprintf.c: `parse_format_str` and `vfprintf`.
--
-- A format string is the list of its characters before the terminator.
use ukulele.Base.{
  ℕ, zero, suc, ◌+◌, ◌-◌, ◌*◌, ◌%◌, ◌^◌, List, [], ◌∷◌, Option, none, some, true, ◌&&◌, ◌||◌, leb,
  ◌==◌, u32, length, if◌then◌else◌,
}
use ukulele.Libk.Int.{int_of_char}
use ukulele.Libk.Str.{Memory}
use ukulele.Libk.Stdio.{end_of_file}
use ukulele.Libk.Printf.Convert.{
  FmtSpecifier, no_specifier, Printing, Step, ◌>>=◌, va_arg, fputc_e, print_unsigned, print_signed,
  print_string, print_hex, print_char,
}

pub data FormatState : Type 0 where
  flag : FormatState
  width : FormatState
  precision : FormatState

-- The cases of the switch.
pub data FormatChar : Type 0 where
  signed : FormatChar
  unsigned : FormatChar
  hex : FormatChar
  char : FormatChar
  string : FormatChar
  pointer : FormatChar
  percent : FormatChar
  short : FormatChar
  long : FormatChar
  size : FormatChar
  digit_zero : FormatChar
  digit : FormatChar
  dot : FormatChar
  float : FormatChar
  other : FormatChar

unfoldable pub format_char : ℕ → FormatChar
format_char c =
    if c == b'd' || c == b'i'
    then signed
    else if c == b'u'
    then unsigned
    else if c == b'x'
    then hex
    else if c == b'c'
    then char
    else if c == b's'
    then string
    else if c == b'p'
    then pointer
    else if c == b'%'
    then percent
    else if c == b'h'
    then short
    else if c == b'l'
    then long
    else if c == b'z' || c == b'j' || c == b't'
    then size
    else if c == b'0'
    then digit_zero
    else if leb b'1' c && leb c b'9'
    then digit
    else if c == b'.'
    then dot
    else if c == b'f' || c == b'e' || c == b'g' || c == b'a'
    then float
    else other

-- The digit 0: the first one is a flag.
pub read_zero : FmtSpecifier → FormatState → FmtSpecifier × FormatState
read_zero afmt flag = (record afmt { zero_pad = true }, width)
read_zero afmt width = (record afmt { width = (afmt.width * 10) % 2 ^ 8 }, width)
read_zero afmt precision = (record afmt { precision = u32 (afmt.precision * 10) }, precision)

-- Another digit.
pub read_digit : FmtSpecifier → FormatState → ℕ → FmtSpecifier × FormatState
read_digit afmt flag d = (record afmt { width = (afmt.width * 10 + d) % 2 ^ 8 }, width)
read_digit afmt width d = (record afmt { width = (afmt.width * 10 + d) % 2 ^ 8 }, width)
read_digit afmt precision d = (record afmt { precision = u32 (afmt.precision * 10 + d) }, precision)

-- The specifier of `%p`.
abbrev pub pointer_specifier : FmtSpecifier → FmtSpecifier
pointer_specifier afmt = record afmt { width = 16; length = 2; zero_pad = true }

module _ {W : Type 0} (m : Memory) (stream : Option ℕ) where
  -- The result is the number of characters printed, and the rest of the format string.
  abbrev pub printed : List ℕ → Step W ℕ → Step W (ℕ × List ℕ)
  printed fmt r = r >>= λ s n. (s, some (n, fmt))

  -- The body of the loop for a character `c`, with what follows it in the string and the next
  -- round.
  unfoldable pub convert :
      FormatChar
      → ℕ
      → List ℕ
      → FmtSpecifier
      → FormatState
      → Printing W
      → (FmtSpecifier → FormatState → Step W (ℕ × List ℕ))
      → Step W (ℕ × List ℕ)
  convert signed c fmt afmt state s next = printed fmt (print_signed stream afmt s)
  convert unsigned c fmt afmt state s next = printed fmt (print_unsigned stream afmt s)
  convert hex c fmt afmt state s next = printed fmt (print_hex stream afmt s)
  convert char c fmt afmt state s next = printed fmt (print_char stream s)
  convert string c fmt afmt state s next = printed fmt (print_string stream m afmt s)
  convert pointer c fmt afmt state s next =
      printed fmt (print_hex stream (pointer_specifier afmt) s)
  convert percent c fmt afmt state s next = printed fmt (fputc_e stream b'%' s)
  convert short c fmt afmt state s next =
      next (record afmt { length = (afmt.length + 255) % 2 ^ 8 }) state
  convert long c fmt afmt state s next =
      next (record afmt { length = (afmt.length + 1) % 2 ^ 8 }) state
  convert size c fmt afmt state s next = next (record afmt { length = 1 }) state
  convert digit_zero c fmt afmt state s next = let out = read_zero afmt state in next out.0 out.1
  convert digit c fmt afmt state s next =
      let out = read_digit afmt state (c - b'0') in next out.0 out.1
  convert dot c fmt afmt state s next = next (record afmt { has_precision = true }) precision
  convert float c fmt afmt state s next = printed fmt (fputc_e stream b'?' (va_arg s).0)
  convert other c fmt afmt state s next = (s, none)

  -- The end of the string is a character of no case.
  unfoldable pub parse_format_str :
      List ℕ → FmtSpecifier → FormatState → Printing W → Step W (ℕ × List ℕ)
  parse_format_str [] afmt state s = (s, none)
  parse_format_str (c ∷ fmt) afmt state s =
      convert (format_char c) c fmt afmt state s λ afmt' state'. parse_format_str fmt afmt' state' s

  -- The loop of `vfprintf`; each round takes a character at least, so that the length of the
  -- string is enough fuel.
  unfoldable pub vfprintf_loop : ℕ → List ℕ → ℕ → Printing W → Step W ℕ
  vfprintf_loop zero fmt written s = (s, some written)
  vfprintf_loop (suc fuel) [] written s = (s, some written)
  vfprintf_loop (suc fuel) (c ∷ fmt) written s =
      let plain = fputc_e stream (int_of_char c) s >>= λ s' _.
      vfprintf_loop fuel fmt (u32 (written + 1)) s' in
      let formatted = parse_format_str fmt no_specifier flag s >>= λ s' (n, rest).
      vfprintf_loop fuel rest (u32 (written + n)) s' in
      if c == b'%' then formatted else plain

  -- EOF if the output failed.
  unfoldable pub vfprintf : List ℕ → Printing W → Printing W × ℕ
  unfolding vfprintf_loop
  vfprintf fmt s =
      let out = vfprintf_loop (length fmt) fmt 0 s in
      (out.0, elim out.1 [ none ↦ end_of_file | some n ↦ n ])
