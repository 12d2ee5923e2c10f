-- ===== src/Libk/Printf/Convert.antt =====
-- The conversions of src/libk/vfprintf.c: one argument is printed as its specifier says.
--
-- The arguments are 64-bit words that `va_arg` takes from the front; past the last one, where C
-- says nothing, it is 0 here. A call that jumps to the error exit has the result `none`, next to
-- what it has done by then. `strnlen` is that of string_x86.s.
use ukulele.Base.{
  ℕ, zero, suc, ◌+◌, ◌-◌, ◌/◌, ◌%◌, ◌^◌, List, [], ◌∷◌, Option, none, some, Bool, false, ◌&&◌, ltb,
  ◌==◌, u32, if◌then◌else◌, get_or, set, replicate,
}
use ukulele.Libk.Int.{slt, int_of_char, long_of_int, sub32}
use ukulele.Libk.Str.{Memory, strnlen_x86}
use ukulele.Libk.Stdio.{Io, fwrite, fputc, end_of_file}

-- `precision` is an `int`; `width` and `length` are `signed char`.
pub record FmtSpecifier : Type 0 where
  pub precision : ℕ
  pub width : ℕ
  pub length : ℕ
  pub zero_pad : Bool
  pub has_precision : Bool

abbrev pub no_specifier : FmtSpecifier
no_specifier = record {
  precision = 0;
  width = 0;
  length = 0;
  zero_pad = false;
  has_precision = false;
}

pub record Printing (W : Type 0) : Type 0 where
  pub io : Io W
  pub args : List ℕ

-- A step of the output: the state that it leaves, and its result unless it fails.
abbrev pub Step : Type 0 → Type 0 → Type 0
Step W A = Printing W × Option A

infixl 5 ◌>>=◌
abbrev pub ◌>>=◌ : {W A B : Type 0} → Step W A → (Printing W → A → Step W B) → Step W B
(s, none) >>= f = (s, none)
(s, some a) >>= f = f s a

-- The loop of `digit_count_base_10` and `digit_count_base_16`.
unfoldable pub digit_count_loop : ℕ → ℕ → ℕ → ℕ → ℕ
digit_count_loop base zero value count = count
digit_count_loop base (suc fuel) value count =
    let rest = digit_count_loop base fuel (value / base) (count + 1) in
    if value == 0 then count else rest

unfoldable pub digit_count : ℕ → ℕ → ℕ
digit_count base value = if value == 0 then 1 else digit_count_loop base 64 value 0

-- The loops that fill the buffer from its end: `n` digits are left.
unfoldable pub fill_digits : ℕ → (ℕ → ℕ) → ℕ → ℕ → List ℕ → List ℕ
fill_digits base symbol zero value buffer = buffer
fill_digits base symbol (suc n) value buffer =
    fill_digits base symbol n (value / base) (set buffer n (symbol (value % base)))

abbrev pub decimal_digit : ℕ → ℕ
decimal_digit d = 48 + d

-- The table `hex`.
abbrev pub hex_digit : ℕ → ℕ
hex_digit d = if ltb d 10 then 48 + d else 87 + d

-- `switch (afmt.length)`: `int` for -2, -1 and 0, 64 bits for 1 and 2, an error otherwise.
abbrev pub va_arg_sized : ℕ → ℕ → (ℕ → ℕ) → Option ℕ
va_arg_sized length word narrow =
    if length == 254
    then some (narrow (u32 word))
    else if length == 255
    then some (narrow (u32 word))
    else if length == 0
    then some (narrow (u32 word))
    else if length == 1
    then some word
    else if length == 2
    then some word
    else none

abbrev pub pad_char : FmtSpecifier → ℕ
pad_char afmt = if afmt.zero_pad then 48 else 32

module _ {W : Type 0} where
  abbrev pub va_arg : Printing W → Printing W × ℕ
  va_arg s = elim s.args [ [] ↦ (s, 0) | x ∷ xs ↦ (record s { args = xs }, x) ]

  -- A specifier of another length jumps out before it takes its argument.
  abbrev pub va_arg_step : ℕ → (ℕ → ℕ) → Printing W → Step W ℕ
  va_arg_step length narrow s =
      let out = va_arg s in
      elim (va_arg_sized length out.1 narrow) [ none ↦ (s, none) | some v ↦ (out.0, some v) ]

  module _ (stream : Option ℕ) where
    pub fwrite_e : (ℕ → ℕ) → ℕ → Printing W → Step W ℕ
    fwrite_e c len s =
        let out = fwrite s.io c 1 (long_of_int len) stream in
        let s' : Printing W = record s { io = out.0 } in
        if slt (u32 out.1) len then (s', none) else (s', some (u32 out.1))

    unfoldable pub fputc_e : ℕ → Printing W → Step W ℕ
    fputc_e c s =
        let out = fputc s.io c stream in
        let s' : Printing W = record s { io = out.0 } in
        if out.1 == end_of_file then (s', none) else (s', some 1)

    unfoldable pub print_num_10 : ℕ → Printing W → Step W ℕ
    print_num_10 value s =
        let length = digit_count 10 value in
        let buffer = fill_digits 10 decimal_digit length value (replicate 32 0) in
        fwrite_e (λ i. get_or buffer i 0) length s

    unfoldable pub print_num_16 : ℕ → Printing W → Step W ℕ
    print_num_16 value s =
        let length = digit_count 16 value in
        let buffer = fill_digits 16 hex_digit length value (replicate 32 0) in
        fwrite_e (λ i. get_or buffer i 0) length s

    -- `while (afmt.width > digits)`, for a width above 0, which is the fuel; the result is the
    -- number of rounds, which have each taken 1 from the width.
    unfoldable pub pad_loop : ℕ → ℕ → ℕ → ℕ → Printing W → Step W ℕ
    pad_loop zero digits pad printed s = (s, some printed)
    pad_loop (suc width) digits pad printed s =
        let next = fputc_e pad s >>= λ s' _. pad_loop width digits pad (printed + 1) s' in
        if slt digits (suc width) then next else (s, some printed)

    -- `if (afmt.width > 0)` with its loop.
    unfoldable pub pad : ℕ → ℕ → ℕ → Printing W → Step W ℕ
    pad width digits char s =
        if slt 0 (int_of_char width) then pad_loop width digits char 0 s else (s, some 0)

    pub print_unsigned : FmtSpecifier → Printing W → Step W ℕ
    unfolding pad print_num_10
    print_unsigned afmt s = va_arg_step afmt.length (λ v. v) s >>= λ s1 value.
        pad afmt.width (digit_count 10 value) (pad_char afmt) s1 >>= λ s2 printed.
        print_num_10 value s2 >>= λ s3 n. (s3, some (u32 (printed + n)))

    -- The sign, and the absolute value.
    pub print_sign : ℕ → Printing W → Step W (ℕ × ℕ)
    unfolding fputc_e
    print_sign value s =
        if ltb value (2 ^ 63)
        then (s, some (0, value))
        else (fputc_e 45 s >>= λ s' _. (s', some (1, 2 ^ 64 - value)))

    pub print_signed : FmtSpecifier → Printing W → Step W ℕ
    unfolding pad print_num_10 print_sign
    print_signed afmt s = va_arg_step afmt.length long_of_int s >>= λ s1 v.
        print_sign v s1 >>= λ s2 (sign, value).
        let width : ℕ = if slt 0 (int_of_char afmt.width) then afmt.width - sign else 0 in
        pad width (digit_count 10 value) (pad_char afmt) s2 >>= λ s3 padded.
        print_num_10 value s3 >>= λ s4 n. (s4, some (u32 (sign + padded + n)))

    unfoldable pub print_string : Memory → FmtSpecifier → Printing W → Step W ℕ
    print_string m afmt s =
        let out = va_arg s in
        let str = out.1 in
        let max : ℕ = if afmt.has_precision then afmt.precision else 2147483647 in
        let chars = u32 (strnlen_x86 m str (long_of_int max)) in
        pad afmt.width chars 32 out.0 >>= λ s1 printed.
        let precision = sub32 afmt.precision printed in
        let chars' = if afmt.has_precision && slt precision chars then precision else chars in
        fwrite_e (λ i. m (str + i)) chars' s1 >>= λ s2 n. (s2, some (u32 (printed + n)))

    pub print_hex : FmtSpecifier → Printing W → Step W ℕ
    unfolding pad print_num_16
    print_hex afmt s = va_arg_step afmt.length (λ v. v) s >>= λ s1 value.
        pad afmt.width (digit_count 16 value) (pad_char afmt) s1 >>= λ s2 printed.
        print_num_16 value s2 >>= λ s3 n. (s3, some (u32 (printed + n)))

    unfoldable pub print_char : Printing W → Step W ℕ
    print_char s = let out = va_arg s in fputc_e (int_of_char (out.1 % 2 ^ 8)) out.0
