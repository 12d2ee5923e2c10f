-- ===== src/Libk/Printf/Fuel.antt =====
-- The loop of `vfprintf` ends: the length of the format string is enough fuel.
use ukulele.Base.{
  ℕ, zero, suc, ◌+◌, ◌≤◌, ◌≡◌, refl, List, [], ◌∷◌, Option, none, some, arith, ◌==◌, u32,
  Bool-cases, inl, inr, length,
}
use ukulele.Libk.Int.{int_of_char}
use ukulele.Libk.Str.{Memory}
use ukulele.Libk.Printf.Convert.{FmtSpecifier, no_specifier, Printing, Step, ◌>>=◌, fputc_e}
use ukulele.Libk.Printf.Format.{
  FormatState, FormatChar, signed, unsigned, hex, char, string, pointer, percent, short, long, size,
  digit_zero, digit, dot, float, other, flag, format_char, printed, convert, parse_format_str,
  vfprintf_loop,
}

-- What is left of the string is no longer than `n`.
Leaves : {W : Type 0} → ℕ → Step W (ℕ × List ℕ) → Type 0
Leaves n (s, none) = Unit
Leaves n (s, some (k, rest)) = length rest ≤ n

-- Two continuations that agree on what the step leaves.
bind_cong :
    {W : Type 0} (n : ℕ) (r : Step W (ℕ × List ℕ)) (f g : Printing W → ℕ × List ℕ → Step W ℕ)
    → Leaves n r
    → ((s : Printing W) (k : ℕ) (rest : List ℕ) → length rest ≤ n → f s (k, rest) ≡ g s (k, rest))
    → (r >>= f) ≡ (r >>= g)
unfolding Leaves
bind_cong n (s, none) f g l h = refl
bind_cong n (s, some (k, rest)) f g l h = h s k rest l

step_cong :
    {W : Type 0} (r : Step W ℕ) (f g : Printing W → ℕ → Step W ℕ)
    → ((s : Printing W) (k : ℕ) → f s k ≡ g s k)
    → (r >>= f) ≡ (r >>= g)
step_cong (s, none) f g h = refl
step_cong (s, some k) f g h = h s k

module _ {W : Type 0} (m : Memory) (stream : Option ℕ) where
  printed-Leaves :
      (n : ℕ) (fmt : List ℕ) (r : Step W ℕ) → length fmt ≤ n → Leaves n (printed m stream fmt r)
  unfolding Leaves
  printed-Leaves n fmt (s, none) h = tt
  printed-Leaves n fmt (s, some k) h = h

  convert-Leaves :
      (k : FormatChar) (c : ℕ) (fmt : List ℕ) (afmt : FmtSpecifier) (state : FormatState)
      (s : Printing W) (next : FmtSpecifier → FormatState → Step W (ℕ × List ℕ))
      → ((a : FmtSpecifier) (t : FormatState) → Leaves (length fmt) (next a t))
      → Leaves (length fmt) (convert m stream k c fmt afmt state s next)
  unfolding convert Leaves
  convert-Leaves signed c fmt afmt state s next h = printed-Leaves (length fmt) fmt _ (omega arith)
  convert-Leaves unsigned c fmt afmt state s next h =
      printed-Leaves (length fmt) fmt _ (omega arith)
  convert-Leaves hex c fmt afmt state s next h = printed-Leaves (length fmt) fmt _ (omega arith)
  convert-Leaves char c fmt afmt state s next h = printed-Leaves (length fmt) fmt _ (omega arith)
  convert-Leaves string c fmt afmt state s next h = printed-Leaves (length fmt) fmt _ (omega arith)
  convert-Leaves pointer c fmt afmt state s next h = printed-Leaves (length fmt) fmt _ (omega arith)
  convert-Leaves percent c fmt afmt state s next h = printed-Leaves (length fmt) fmt _ (omega arith)
  convert-Leaves short c fmt afmt state s next h = h _ _
  convert-Leaves long c fmt afmt state s next h = h _ _
  convert-Leaves size c fmt afmt state s next h = h _ _
  convert-Leaves digit_zero c fmt afmt state s next h = h _ _
  convert-Leaves digit c fmt afmt state s next h = h _ _
  convert-Leaves dot c fmt afmt state s next h = h _ _
  convert-Leaves float c fmt afmt state s next h = printed-Leaves (length fmt) fmt _ (omega arith)
  convert-Leaves other c fmt afmt state s next h = tt

  Leaves-mono : (n k : ℕ) (r : Step W (ℕ × List ℕ)) → n ≤ k → Leaves n r → Leaves k r
  unfolding Leaves
  Leaves-mono n k (s, none) h l = tt
  Leaves-mono n k (s, some (j, rest)) h l = omega (arith, l)

  parse_format_str-Leaves :
      (fmt : List ℕ) (afmt : FmtSpecifier) (state : FormatState) (s : Printing W)
      → Leaves (length fmt) (parse_format_str m stream fmt afmt state s)
  unfolding parse_format_str Leaves
  parse_format_str-Leaves [] afmt state s = tt
  parse_format_str-Leaves (c ∷ fmt) afmt state s =
      Leaves-mono (length fmt) (suc (length fmt)) (parse_format_str m stream (c ∷ fmt) afmt state s)
        (omega arith)
        (convert-Leaves (format_char c) c fmt afmt state s _
          λ a t. parse_format_str-Leaves fmt a t s)

  -- With at least as much fuel as the format string has characters, the loop of `vfprintf` does
  -- not depend on the fuel.
  pub vfprintf_loop-fuel :
      (f g : ℕ) (fmt : List ℕ) (written : ℕ) (s : Printing W)
      → length fmt ≤ f
      → length fmt ≤ g
      → vfprintf_loop m stream f fmt written s ≡ vfprintf_loop m stream g fmt written s
  unfolding vfprintf_loop
  vfprintf_loop-fuel zero zero fmt written s h k = refl
  vfprintf_loop-fuel zero (suc g) [] written s h k = refl
  vfprintf_loop-fuel zero (suc g) (c ∷ fmt) written s h k = absurd (omega (arith, h))
  vfprintf_loop-fuel (suc f) zero [] written s h k = refl
  vfprintf_loop-fuel (suc f) zero (c ∷ fmt) written s h k = absurd (omega (arith, k))
  vfprintf_loop-fuel (suc f) (suc g) [] written s h k = refl
  vfprintf_loop-fuel (suc f) (suc g) (c ∷ fmt) written s h k = elim (Bool-cases (c == b'%')) [
    | inl y ↦ rw y (
        bind_cong (length fmt) (parse_format_str m stream fmt no_specifier flag s) _ _
          (parse_format_str-Leaves fmt no_specifier flag s)
          λ s' n rest l.
            vfprintf_loop-fuel f g rest (u32 (written + n)) s' (omega (arith, l, h))
              (omega (arith, l, k)))
    | inr n ↦ rw n (
        step_cong (fputc_e stream (int_of_char c) s) _ _ λ s' _.
          vfprintf_loop-fuel f g fmt (u32 (written + 1)) s' (omega (arith, h)) (omega (arith, k)))
  ]
