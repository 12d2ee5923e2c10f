-- ===== src/Kernel/Dump.antt =====
-- `xxd`: a dump of memory in hexadecimal digits and characters.
use ukulele.Base.{
  ℕ, zero, suc, ◌+◌, ◌-◌, ◌*◌, ◌/◌, ◌%◌, ◌^◌, ◌<◌, ◌≡◌, refl, ◌∙◌, arith, List, [], ◌∷◌, Bool, true,
  ltb, leb, ◌==◌, ◌&&◌, if◌then◌else◌, length, get_or, characters,
}
use ukulele.Libk.Str.{Memory}
use ukulele.Libk.Stdio.{Io, fputc}
use ukulele.Libk.Printf.Print.{printf}

abbrev pub hex : List ℕ
hex = characters "0123456789abcdef"

module _ {W : Type 0} where
  abbrev pub putchar : Io W → ℕ → Io W
  putchar io c = (fputc io c io.stdout).0

  -- The first inner loop, from column `j` on: two digits for a byte, and a space after each second
  -- byte.
  pub xxd_digits : Memory → ℕ → ℕ → ℕ → Io W → Io W
  xxd_digits m p zero j io = io
  xxd_digits m p (suc columns) j io =
      let c = m (p + j) % 2 ^ 8 in
      let high = putchar io (get_or hex (c / 16) 0) in
      let low = putchar high (get_or hex (c % 16) 0) in
      xxd_digits m p columns (j + 1) (if j % 2 == 0 then low else putchar low b' ')

  -- The second one: the character itself, or a dot.
  pub xxd_characters : Memory → ℕ → ℕ → ℕ → Io W → Io W
  xxd_characters m p zero j io = io
  xxd_characters m p (suc columns) j io =
      let c = m (p + j) % 2 ^ 8 in
      xxd_characters m p columns (j + 1) (putchar io (if leb b' ' c && ltb c 128 then c else b'.'))

  -- The outer loop. Neither count is negative.
  pub xxd : Memory → ℕ → ℕ → ℕ → Io W → Io W
  unfolding xxd_digits xxd_characters
  xxd m p zero columns io = io
  xxd m p (suc lines) columns io =
      let start = (printf m io "%p: " (p ∷ [])).0 in
      let digits = putchar (xxd_digits m p columns 0 start) b' ' in
      xxd m (p + columns) lines columns (putchar (xxd_characters m p columns 0 digits) 10)

-- What a digit stands for.
pub digit_value : ℕ → ℕ
digit_value c = if ltb c b'a' then c - b'0' else 10 + (c - b'a')

counts_up : ℕ → List ℕ → Bool
counts_up k [] = true
counts_up k (c ∷ cs) = digit_value c == k && counts_up (k + 1) cs

counts_up-get_or :
    (k : ℕ) (cs : List ℕ) (i : ℕ)
    → counts_up k cs ≡ true
    → i < length cs
    → digit_value (get_or cs i 0) ≡ k + i
unfolding counts_up
counts_up-get_or k [] i h lt = absurd (omega arith)
counts_up-get_or k (c ∷ cs) zero h lt = ground (arith, h)
counts_up-get_or k (c ∷ cs) (suc i) h lt =
    counts_up-get_or (k + 1) cs i (ground (arith, h)) (omega arith) ∙ omega arith

hex-counts_up : counts_up 0 hex ≡ true
unfolding characters counts_up digit_value
hex-counts_up = refl

hex-length : length hex ≡ 16
unfolding characters
hex-length = refl

-- The two digits that `xxd` prints for a byte stand for the byte.
pub hex-byte :
    (c : ℕ)
    → c < 2 ^ 8
    → digit_value (get_or hex (c / 16) 0) * 16 + digit_value (get_or hex (c % 16) 0) ≡ c
hex-byte c h =
    let high = counts_up-get_or 0 hex (c / 16) hex-counts_up (omega (arith, hex-length)) in
    let low = counts_up-get_or 0 hex (c % 16) hex-counts_up (omega (arith, hex-length)) in
    omega (arith, high, low)
