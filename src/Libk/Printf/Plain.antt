-- ===== src/Libk/Printf/Plain.antt =====
-- `vfprintf` of a format string that begins with plain characters.
use ukulele.Base.{
  ℕ, suc, ◌+◌, ◌^◌, ◌<◌, ◌≡◌, ◌≢◌, refl, ap, List, [], ◌∷◌, ◌++◌, Option, none, some, arith, ◌==◌,
  u32, length, All, false,
}
use ukulele.Libk.Int.{int_of_char}
use ukulele.Libk.Str.{Memory}
use ukulele.Libk.Stdio.{end_of_file}
use ukulele.Libk.Printf.Convert.{Printing, Step, ◌>>=◌, fputc_e}
use ukulele.Libk.Printf.Format.{
  other, format_char, convert, parse_format_str, vfprintf_loop, vfprintf,
}

-- The characters are put out one by one, up to the first failure.
pub put_all : {W : Type 0} → Option ℕ → List ℕ → Printing W → Step W Unit
put_all stream [] s = (s, some tt)
put_all stream (c ∷ cs) s = fputc_e stream (int_of_char c) s >>= λ s' _. put_all stream cs s'

-- The number of characters, or EOF where one could not be put out.
pub plain_result : {W : Type 0} → ℕ → Step W Unit → Printing W × ℕ
plain_result n (s, none) = (s, end_of_file)
plain_result n (s, some u) = (s, u32 n)

bind_next :
    {W : Type 0} (r : Step W ℕ) (next : Printing W → Step W ℕ) (text : Printing W → Step W Unit)
    (k : Printing W → Unit → Step W ℕ)
    → ((s : Printing W) → next s ≡ (text s >>= k))
    → (r >>= λ s _. next s) ≡ ((r >>= λ s _. text s) >>= k)
bind_next (s, none) next text k h = refl
bind_next (s, some n) next text k h = h s

append_nil : {A : Type 0} (cs : List A) → cs ++ [] ≡ cs
append_nil [] = refl
append_nil (c ∷ cs) = ap (λ rest. c ∷ rest) (append_nil cs)

-- The result of `vfprintf`: EOF if the output failed.
abbrev finish : {W : Type 0} → Step W ℕ → Printing W × ℕ
finish out = (out.0, elim out.1 [ none ↦ end_of_file | some n ↦ n ])

finish-some :
    {W : Type 0} (r : Step W Unit) (k : Printing W → Unit → Step W ℕ) (n : ℕ)
    → ((s : Printing W) (u : Unit) → k s u ≡ (s, some (u32 n)))
    → finish (r >>= k) ≡ plain_result n r
unfolding plain_result
finish-some (s, none) k n h = refl
finish-some (s, some u) k n h = rw (h s u) refl

finish-none :
    {W : Type 0} (r : Step W Unit) (k : Printing W → Unit → Step W ℕ)
    → ((s : Printing W) (u : Unit) → k s u ≡ (s, none))
    → finish (r >>= k) ≡ (r.0, end_of_file)
finish-none (s, none) k h = refl
finish-none (s, some u) k h = rw (h s u) refl

module _ {W : Type 0} (m : Memory) (stream : Option ℕ) where
  vfprintf_loop-plain :
      (cs rest : List ℕ) (written : ℕ) (s : Printing W)
      → written < 2 ^ 32
      → All (λ c. c ≢ b'%') cs
      → vfprintf_loop m stream (length (cs ++ rest)) (cs ++ rest) written s ≡ (
          put_all stream cs s >>= λ s' _.
          vfprintf_loop m stream (length rest) rest (u32 (written + length cs)) s')
  unfolding vfprintf_loop put_all
  vfprintf_loop-plain [] rest written s small plain =
      let e : u32 (written + 0) ≡ written = omega (arith, small) in rw e refl
  vfprintf_loop-plain (c ∷ cs) rest written s small plain =
      let n : (c == b'%') ≡ false = ground (arith, plain.0) in
      let e : u32 (u32 (written + 1) + length cs) ≡ u32 (written + suc (length cs)) = omega arith in
      rw n (
        bind_next (fputc_e stream (int_of_char c) s) _ (put_all stream cs) _ λ s'.
          let h = vfprintf_loop-plain cs rest (u32 (written + 1)) s' (omega arith) plain.1 in
          rw e at h)

  unknown_fails :
      (c : ℕ) (rest : List ℕ) (fuel written : ℕ) (s : Printing W)
      → format_char c ≡ other
      → vfprintf_loop m stream (suc fuel) (b'%' ∷ c ∷ rest) written s ≡ (s, none)
  unfolding vfprintf_loop parse_format_str convert
  unknown_fails c rest fuel written s unknown = rw unknown refl

  percent_fails :
      (fuel written : ℕ) (s : Printing W)
      → vfprintf_loop m stream (suc fuel) (b'%' ∷ []) written s ≡ (s, none)
  unfolding vfprintf_loop parse_format_str
  percent_fails fuel written s = refl

  -- A format string without the character `%` is put out character by character, and the result
  -- is their number modulo 2 ^ 32, or EOF at the first failure. Where `%` and a character that
  -- stands for no conversion follow, or `%` and the end of the string, the same is put out, nothing
  -- of the rest, and the result is EOF.
  pub vfprintf_plain :
      (cs : List ℕ) (c : ℕ) (rest : List ℕ) (s : Printing W)
      → All (λ x. x ≢ b'%') cs
      → format_char c ≡ other
      → (vfprintf m stream cs s ≡ plain_result (length cs) (put_all stream cs s))
        × (vfprintf m stream (cs ++ b'%' ∷ []) s ≡ ((put_all stream cs s).0, end_of_file))
        × (vfprintf m stream (cs ++ b'%' ∷ c ∷ rest) s ≡ ((put_all stream cs s).0, end_of_file))
  unfolding vfprintf vfprintf_loop
  vfprintf_plain cs c rest s plain unknown =
      let whole = vfprintf_loop-plain cs [] 0 s (omega arith) plain in
      let alone = rw (append_nil cs) at whole in
      let sum : 0 + length cs ≡ length cs = omega arith in
      let before : ℕ = u32 (0 + length cs) in
      (
        rw (alone, sum) (finish-some (put_all stream cs s) _ (length cs) λ s' u. refl),
        rw (vfprintf_loop-plain cs (b'%' ∷ []) 0 s (omega arith) plain)
            (finish-none (put_all stream cs s) _ λ s' u. percent_fails 0 before s'),
        rw (vfprintf_loop-plain cs (b'%' ∷ c ∷ rest) 0 s (omega arith) plain) (
            finish-none (put_all stream cs s) _
              λ s' u. unknown_fails c rest (length (c ∷ rest)) before s' unknown),
      )
