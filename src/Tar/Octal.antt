-- ===== src/Tar/Octal.antt =====
-- What `tar_read_octal` reads.
use ukulele.Base.{
  ℕ, zero, suc, ◌+◌, ◌*◌, ◌^◌, ◌<◌, ◌≡◌, refl, ap, ◌∙◌, arith, u32, List, [], ◌∷◌, replicate,
}
use ukulele.Libk.Str.{Memory}
use ukulele.Tar.{digit, read_loop, read_octal}

-- The number that a list of octal digits stands for, read on from `val`.
pub octal_value : ℕ → List ℕ → ℕ
octal_value val [] = val
octal_value val (d ∷ ds) = octal_value (val * 8 + d) ds

octal_value-u32 :
    (ds : List ℕ) (a b : ℕ) → u32 a ≡ u32 b → u32 (octal_value a ds) ≡ u32 (octal_value b ds)
unfolding octal_value
octal_value-u32 [] a b e = e
octal_value-u32 (d ∷ ds) a b e = octal_value-u32 ds (a * 8 + d) (b * 8 + d) (omega arith)

read_loop-octal_value :
    (m : Memory) (str len val : ℕ)
    → val < 2 ^ 32
    → read_loop m str len val ≡ u32 (octal_value val (replicate len (digit (m str))))
unfolding read_loop octal_value
read_loop-octal_value m str zero val h = omega arith
read_loop-octal_value m str (suc len) val h =
    read_loop-octal_value m str len (u32 (val * 8 + digit (m str))) (omega arith)
    ∙ octal_value-u32 (replicate len (digit (m str))) (u32 (val * 8 + digit (m str)))
        (val * 8 + digit (m str)) (omega arith)

module _ (strnlen : Memory → ℕ → ℕ → ℕ) (m : Memory) (str len : ℕ) where
  -- `tar_read_octal` never moves on from the first character: it returns, modulo 2 ^ 32, the
  -- octal number whose digits are all that character's, as many as the text has characters.
  pub read_octal_lem :
      read_octal strnlen m str len
      ≡ u32 (octal_value 0 (replicate (strnlen m str len) (digit (m str))))
  unfolding read_octal
  read_octal_lem = read_loop-octal_value m str (strnlen m str len) 0 (omega arith)

octal_value-zeros : (n : ℕ) → octal_value 0 (replicate n 0) ≡ 0
unfolding octal_value
octal_value-zeros zero = refl
octal_value-zeros (suc n) = octal_value-zeros n

-- A field that is padded with leading zeros reads as 0, whatever its other digits are.
pub read_octal_padded :
    (strnlen : Memory → ℕ → ℕ → ℕ) (m : Memory) (str len : ℕ)
    → m str ≡ b'0'
    → read_octal strnlen m str len ≡ 0
read_octal_padded strnlen m str len e =
    read_octal_lem strnlen m str len
    ∙ ap (λ c. u32 (octal_value 0 (replicate (strnlen m str len) (digit c)))) e
    ∙ ap u32 (octal_value-zeros (strnlen m str len))

pub read_octal-lt :
    (strnlen : Memory → ℕ → ℕ → ℕ) (m : Memory) (str len : ℕ)
    → read_octal strnlen m str len < 2 ^ 32
read_octal-lt strnlen m str len = omega (arith, read_octal_lem strnlen m str len)
