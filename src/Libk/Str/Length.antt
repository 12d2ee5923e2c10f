-- ===== src/Libk/Str/Length.antt =====
-- `strlen` and `strnlen`, in C and in assembly.
use ukulele.Base.{
  ℕ, zero, suc, ◌+◌, ◌-◌, ◌^◌, ◌<◌, ◌≡◌, ◌≢◌, some, arith, ◌==◌, min, true, false, ap, ◌∙◌,
}
use ukulele.Libk.Str.{
  Memory, strlen_loop, strlen, strnlen_loop, strnlen, repne_scasb, strnlen_x86, strlen_x86,
}

-- A C string of `n` bytes stands at `str`.
pub record IsString (m : Memory) (str n : ℕ) : Type 0 where
  pub body : (i : ℕ) → i < n → m (str + i) ≢ 0
  pub ended : m (str + n) ≡ 0

module _ {m : Memory} {str : ℕ} where
  first_byte : {n : ℕ} → 0 < n → IsString m str n → (m str == 0) ≡ false
  first_byte h s = let e : m (str + 0) ≡ m str = ap m (omega arith) in ground (arith, s.body 0 h)

  last_byte : IsString m str 0 → (m str == 0) ≡ true
  last_byte s = let e : m (str + 0) ≡ m str = ap m (omega arith) in ground (arith, s.ended)

  IsString-rest : {n : ℕ} → IsString m str (suc n) → IsString m (str + 1) n
  IsString-rest {n} s = record {
    body = λ i h.
        let e : m (str + suc i) ≡ m (str + 1 + i) = ap m (omega arith) in
        rw (← e) (s.body (suc i) (omega arith));
    ended = let e : m (str + suc n) ≡ m (str + 1 + n) = ap m (omega arith) in rw (← e) s.ended;
  }

strlen_loop-IsString :
    (fuel : ℕ) {m : Memory} {str : ℕ} (n len : ℕ)
    → IsString m str n
    → n < fuel
    → strlen_loop fuel m str len ≡ some (len + n)
unfolding strlen_loop
strlen_loop-IsString zero n len s h = absurd (omega arith)
strlen_loop-IsString (suc fuel) zero len s h = rw (last_byte s) (ap some (omega arith))
strlen_loop-IsString (suc fuel) (suc n) len s h =
    rw (first_byte (omega arith) s) (
      strlen_loop-IsString fuel n (len + 1) (IsString-rest s) (omega arith) ∙ ap some (omega arith))

-- With more fuel than the string has bytes, `strlen` returns its length.
pub strlen_lem :
    (fuel n : ℕ) {m : Memory} {str : ℕ} → IsString m str n → n < fuel → strlen fuel m str ≡ some n
unfolding strlen
strlen_lem fuel n s h = strlen_loop-IsString fuel n 0 s h ∙ ap some (omega arith)

strnlen_loop-IsString :
    (max : ℕ) {m : Memory} {str : ℕ} (n len : ℕ)
    → IsString m str n
    → strnlen_loop m str max len ≡ len + min n max
unfolding strnlen_loop
strnlen_loop-IsString zero n len s = omega arith
strnlen_loop-IsString (suc max) zero len s = rw (last_byte s) (omega arith)
strnlen_loop-IsString (suc max) (suc n) len s =
    rw (first_byte (omega arith) s)
      (strnlen_loop-IsString max n (len + 1) (IsString-rest s) ∙ omega arith)

repne_scasb-IsString :
    (max : ℕ) {m : Memory} {str : ℕ} (n : ℕ)
    → IsString m str n
    → repne_scasb m str max ≡ str + min (n + 1) max
unfolding repne_scasb
repne_scasb-IsString zero n s = omega arith
repne_scasb-IsString (suc max) zero s = rw (last_byte s) (omega arith)
repne_scasb-IsString (suc max) (suc n) s =
    rw (first_byte (omega arith) s) (repne_scasb-IsString max n (IsString-rest s) ∙ omega arith)

repne_scasb-long :
    (m : Memory) (str n : ℕ) → ((i : ℕ) → i < n → m (str + i) ≢ 0) → repne_scasb m str n ≡ str + n
unfolding repne_scasb
repne_scasb-long m str zero h = omega arith
repne_scasb-long m str (suc n) h =
    let at : m (str + 0) ≡ m str = ap m (omega arith) in
    let first : (m str == 0) ≡ false = ground (arith, at, h 0 (omega arith)) in
    let rest =
      repne_scasb-long m (str + 1) n
        (λ i l e. h (suc i) (omega (arith, l)) (ap m (omega arith) ∙ e)) in
    rw first (omega (arith, rest))

-- Of a text of at least `n` characters the assembly `strnlen` with the limit `n` returns `n`.
pub strnlen_x86-long :
    (m : Memory) (str n : ℕ) → ((i : ℕ) → i < n → m (str + i) ≢ 0) → strnlen_x86 m str n ≡ n
unfolding strnlen_x86
strnlen_x86-long m str n h = omega (arith, repne_scasb-long m str n h)

-- Of a string of `n` bytes the C `strnlen` returns `n` or the limit, whichever is less. The
-- assembly that replaces it counts the terminator too: it returns `n + 1` or the limit.
pub strnlen-strnlen_x86 :
    (max n : ℕ) {m : Memory} {str : ℕ}
    → IsString m str n
    → (strnlen m str max ≡ min n max) × (strnlen_x86 m str max ≡ min (n + 1) max)
unfolding strnlen strnlen_x86
strnlen-strnlen_x86 max n s =
    omega (arith, strnlen_loop-IsString max n 0 s, repne_scasb-IsString max n s)

-- The assembly `strlen` counts the terminator.
pub strlen_x86_lem :
    {m : Memory} {str n : ℕ} → IsString m str n → n < 2 ^ 64 - 1 → strlen_x86 m str ≡ suc n
unfolding strlen_x86
strlen_x86_lem {m} {str} {n} s h = (strnlen-strnlen_x86 (2 ^ 64 - 1) n s).1 ∙ omega (arith, h)
