-- ===== src/Libk/Printf/Strings.antt =====
-- `print_char` and `print_string`: where they go wrong.
use ukulele.Base.{
  ℕ, zero, suc, ◌+◌, ◌-◌, ◌%◌, ◌^◌, ◌<◌, ◌≡◌, ◌≢◌, ◌⊎◌, refl, ap, List, ◌∷◌, Option, none, some,
  arith, Bool, true, ltb, ◌==◌, u32, if◌then◌else◌, Bool-cases, inl, inr,
}
use ukulele.Libk.Int.{slt, int_of_char, sub32}
use ukulele.Libk.Str.{Memory, strnlen_x86}
use ukulele.Libk.Str.Length.{strnlen_x86-long}
use ukulele.Libk.Stdio.{Io, fwrite, fputc, end_of_file}
use ukulele.Libk.Printf.Convert.{
  Printing, Step, ◌>>=◌, fputc_e, fwrite_e, pad, pad_loop, print_char, print_string,
}

some-inj : (a n : ℕ) → some a ≡ some n → a ≡ n
some-inj a n e = cc

module _ {W : Type 0} (stream : Option ℕ) where
  fputc_e-end_of_file :
      (s : Printing W)
      → ((fputc_e stream end_of_file s).0.io ≡ (fwrite s.io (λ _. 255) 1 1 stream).0)
        × ((fputc_e stream end_of_file s).1 ≡ none)
  unfolding fputc_e fputc
  fputc_e-end_of_file s = elim (Bool-cases ((fwrite s.io (λ _. 255) 1 1 stream).1 == 0)) [
    | inl y ↦ rw y (refl, refl)
    | inr n ↦ rw n (refl, refl)
  ]

  -- `%c` of the byte 255 fails on every stream: it writes the byte, and takes the `int` that
  -- `fputc` returns for the mark of a failure.
  pub print_char_255 :
      (io : Io W) (x : ℕ) (xs : List ℕ)
      → x % 2 ^ 8 ≡ 255
      → ((print_char stream (record { io = io; args = x ∷ xs })).0.io
          ≡ (fwrite io (λ _. 255) 1 1 stream).0)
        × ((print_char stream (record { io = io; args = x ∷ xs })).1 ≡ none)
  unfolding print_char
  print_char_255 io x xs h =
      let e : int_of_char (x % 2 ^ 8) ≡ end_of_file = rw h refl in
      rw e (fputc_e-end_of_file (record { io = io; args = xs }))

  -- The step fails, or has the result `n`.
  Padded : ℕ → Step W ℕ → Type 0
  Padded n r = (r.1 ≡ none) ⊎ (r.1 ≡ some n)

  Padded-bind :
      (n : ℕ) (r : Step W ℕ) (f : Printing W → ℕ → Step W ℕ)
      → ((s : Printing W) (a : ℕ) → Padded n (f s a))
      → Padded n (r >>= f)
  unfolding Padded
  Padded-bind n (s, none) f h = inl refl
  Padded-bind n (s, some a) f h = h s a

  -- The rounds of the loop make up the width.
  pad_loop-Padded :
      (width digits char printed : ℕ) (s : Printing W)
      → width < 128
      → digits < 128
      → Padded (printed + (width - digits)) (pad_loop stream width digits char printed s)
  unfolding pad_loop Padded
  pad_loop-Padded zero digits char printed s w d = inr (ap some (omega arith))
  pad_loop-Padded (suc width) digits char printed s w d =
      elim (Bool-cases (slt digits (suc width))) [
        | inl y ↦
            let e : printed + 1 + (width - digits) ≡ printed + (suc width - digits) =
              ground arith in
            rw y (
              Padded-bind (printed + (suc width - digits)) (fputc_e stream char s) _
                λ s' a. rw⁻¹ e (pad_loop-Padded width digits char (printed + 1) s' (omega arith) d))
        | inr n ↦ rw n (inr (ap some (ground arith)))
      ]

  -- What follows a padding of `n` characters can count on their number.
  bind-Padded :
      (n : ℕ) (r : Step W ℕ) (f : Printing W → ℕ → Step W ℕ)
      → Padded n r
      → (r >>= f) ≡ (r >>= λ s _. f s n)
  unfolding Padded
  bind-Padded n (s, none) f h = refl
  bind-Padded n (s, some a) f (inl e) = absurd (cc)
  bind-Padded n (s, some a) f (inr e) = ap (f s) (some-inj a n e)

  -- `%w.ps` of a text with at least `p` characters, for `p` below `w` and both below 128: the
  -- padding of `w - p` spaces is taken off the precision too, so that the text is written with the
  -- length `p - (w - p)`, which wraps around where `2 * p` is below `w`.
  pub print_string_short :
      (m : Memory) (io : Io W) (str p w len : ℕ) (zero_pad : Bool) (xs : List ℕ)
      → p < w
      → w < 128
      → ((i : ℕ) → i < p → m (str + i) ≢ 0)
      → print_string stream m
          (record {
            precision = p;
            width = w;
            length = len;
            zero_pad = zero_pad;
            has_precision = true;
          })
          (record { io = io; args = str ∷ xs })
        ≡ (pad_loop stream w p 32 0 (record { io = io; args = xs }) >>= λ s1 _.
            fwrite_e stream (λ i. m (str + i)) (sub32 p (w - p)) s1 >>= λ s2 n.
            (s2, some (u32 (w - p + n))))
  unfolding print_string pad
  print_string_short m io str p w len zero_pad xs lt small chars =
      let text : strnlen_x86 m str p ≡ p = strnlen_x86-long m str p chars in
      let small_p : ltb p 2147483648 ≡ true = ground arith in
      let narrow : p % 2 ^ 32 ≡ p = omega arith in
      let small_w : ltb w 128 ≡ true = ground arith in
      let wide : slt 0 w ≡ true = ground arith in
      let cut : slt (sub32 p (w - p)) p ≡ true = ground arith in
      let rounds : 0 + (w - p) ≡ w - p = omega arith in
      let padded =
        rw rounds at
          (pad_loop-Padded w p 32 0 (record { io = io; args = xs }) small (omega arith)) in
      let write = λ (s1 : Printing W) (printed : ℕ).
        fwrite_e stream (λ i. m (str + i)) (if slt (sub32 p printed) p then sub32 p printed else p)
          s1
        >>= λ s2 n. (s2, some (u32 (printed + n))) in
      rw (small_p, text, narrow, small_w, wide)
        (rw cut at (
          bind-Padded (w - p) (pad_loop stream w p 32 0 (record { io = io; args = xs })) write
            padded))
