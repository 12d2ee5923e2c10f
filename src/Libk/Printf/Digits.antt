-- ===== src/Libk/Printf/Digits.antt =====
-- The digits that `print_num_10` and `print_num_16` put in their buffer.
use ukulele.Base.{
  ℕ, zero, suc, ◌+◌, ◌-◌, ◌*◌, ◌/◌, ◌%◌, ◌^◌, ◌<◌, ◌≤◌, ◌≡◌, ◌≢◌, ◌⊎◌, min, inl, inr, refl, sym,
  ◌∙◌, List, arith, ◌==◌, Bool-cases, length, get_or, set, replicate, length-set, get_or-set_self,
  get_or-set_ne, length-replicate, if◌then◌else◌, ltb,
}
use native.Mathlib.Nat.{
  mul_comm, mod-add-div, mod-lt, div-le_self, pow-suc, div-lt_iff_lt-mul, mul-le-mul_left,
}
use ukulele.Libk.Printf.Convert.{digit_count_loop, digit_count, fill_digits}

-- The value of a digit's character.
unfoldable pub digit_value : ℕ → ℕ
digit_value c = if ltb c 97 then c - 48 else c - 87

-- The character is one of the digits 0 to 9, or of the lower-case letters that follow them in a
-- larger base.
abbrev pub IsDigit : ℕ → ℕ → Type 0
IsDigit base c = ((48 ≤ c) × (c < 48 + min base 10)) ⊎ ((97 ≤ c) × (c < 87 + base))

-- The number that the first `n` characters of a buffer spell.
pub read_number : ℕ → List ℕ → ℕ → ℕ
read_number base buffer zero = 0
read_number base buffer (suc n) = read_number base buffer n * base + digit_value (get_or buffer n 0)

-- `n` digits are enough for the value.
pub Fits : ℕ → ℕ → ℕ → Type 0
Fits base zero value = value ≡ 0
Fits base (suc n) value = Fits base n (value / base)

module _ (base : ℕ) where
  divided : (v : ℕ) → v / base * base + v % base ≡ v
  divided v = omega (arith, mod-add-div v base, mul_comm base (v / base))

  -- The loop writes below `n` only.
  fill_digits-above :
      (symbol : ℕ → ℕ) (n v : ℕ) (buffer : List ℕ) (j : ℕ)
      → n ≤ j
      → get_or (fill_digits base symbol n v buffer) j 0 ≡ get_or buffer j 0
  unfolding fill_digits
  fill_digits-above symbol zero v buffer j h = refl
  fill_digits-above symbol (suc n) v buffer j h =
      fill_digits-above symbol n (v / base) (set buffer n (symbol (v % base))) j (omega arith)
      ∙ get_or-set_ne buffer n j (symbol (v % base)) 0 (λ e. omega arith)

  -- What the loop writes spells the value, if the digits are enough.
  read_number-fill_digits :
      (symbol : ℕ → ℕ)
      → ((d : ℕ) → d < base → digit_value (symbol d) ≡ d)
      → 2 ≤ base
      → (n v : ℕ) (buffer : List ℕ) → n ≤ length buffer
      → Fits base n v
      → read_number base (fill_digits base symbol n v buffer) n ≡ v
  unfolding fill_digits read_number Fits
  read_number-fill_digits symbol inv two zero v buffer h f = sym f
  read_number-fill_digits symbol inv two (suc n) v buffer h f =
      let buffer' = set buffer n (symbol (v % base)) in
      let high =
        read_number-fill_digits symbol inv two n (v / base) buffer'
          (omega (arith, length-set buffer n (symbol (v % base)))) f in
      let low =
        fill_digits-above symbol n (v / base) buffer' n (omega arith)
        ∙ get_or-set_self buffer n (symbol (v % base)) 0 (omega arith) in
      rw (high, low, inv (v % base) (mod-lt v (omega arith))) (divided v)

  -- It writes digits only.
  fill_digits-IsDigit :
      (symbol : ℕ → ℕ)
      → ((d : ℕ) → d < base → IsDigit base (symbol d))
      → 2 ≤ base
      → (n v : ℕ) (buffer : List ℕ) → n ≤ length buffer
      → (i : ℕ) → i < n
      → IsDigit base (get_or (fill_digits base symbol n v buffer) i 0)
  unfolding fill_digits
  fill_digits-IsDigit symbol digit two zero v buffer h i lt = absurd (omega arith)
  fill_digits-IsDigit symbol digit two (suc n) v buffer h i lt =
      let buffer' = set buffer n (symbol (v % base)) in
      elim (Bool-cases (i == n)) [
        | inl y ↦
            let e : i ≡ n = ground (arith, y) in
            let low =
              fill_digits-above symbol n (v / base) buffer' n (omega arith)
              ∙ get_or-set_self buffer n (symbol (v % base)) 0 (omega arith) in
            rw (e, low) (digit (v % base) (mod-lt v (omega arith)))
        | inr m ↦
            fill_digits-IsDigit symbol digit two n (v / base) buffer'
              (omega (arith, length-set buffer n (symbol (v % base)))) i (ground (arith, m))
      ]

  shrinks : (c v k : ℕ) → 0 < c → c ≤ base → v < c ^ suc k → v / base < c ^ k
  shrinks c v k pos le h =
      (div-lt_iff_lt-mul {k = base} {x = v} {y = c ^ k} (omega arith)).1
        (omega (arith, h, pow-suc c k, mul-le-mul_left (c ^ k) le))

  Fits-pow : (n v : ℕ) → 8 ≤ base → v < 8 ^ n → Fits base n v
  unfolding Fits
  Fits-pow zero v h l = omega (arith, l)
  Fits-pow (suc n) v h l = Fits-pow n (v / base) h (shrinks 8 v n (omega arith) h l)

  least :
      (k v : ℕ)
      → v ≢ 0
      → ((n : ℕ) → Fits base n (v / base) → k ≤ n)
      → (n : ℕ) → Fits base n v
      → suc k ≤ n
  unfolding Fits
  least k v ne h zero f = absurd (ne f)
  least k v ne h (suc n) f = omega (arith, h n f)

  -- The loop counts the least number of digits that fit.
  digit_count_loop-Fits :
      2 ≤ base
      → (fuel v count : ℕ) → v < 2 ^ fuel
      → (k : ℕ) × (digit_count_loop base fuel v count ≡ count + k)
        × Fits base k v
        × ((n : ℕ) → Fits base n v → k ≤ n)
  unfolding digit_count_loop Fits
  digit_count_loop-Fits two zero v count h = (0, omega arith, omega arith, λ n f. omega arith)
  digit_count_loop-Fits two (suc fuel) v count h = elim (Bool-cases (v == 0)) [
    | inl y ↦ rw y (0, omega arith, ground arith, λ n f. omega arith)
    | inr x ↦
        let rest =
          digit_count_loop-Fits two fuel (v / base) (count + 1)
            (shrinks 2 v fuel (omega arith) two h) in
        rw x (suc rest.0, omega (arith, rest.1), rest.2, least rest.0 v (ground arith) rest.3)
  ]

-- The first `n` characters of the buffer are the numeral of `v`, without leading zeros.
pub record Numeral (base v n : ℕ) (buffer : List ℕ) : Type 0 where
  pub size : length buffer ≡ 32
  pub not_empty : 1 ≤ n
  pub bounded : n ≤ 22
  pub digits : (i : ℕ) → i < n → IsDigit base (get_or buffer i 0)
  pub spells : read_number base buffer n ≡ v
  pub least : (m : ℕ) → 1 ≤ m → Fits base m v → n ≤ m

length-fill_digits :
    (base : ℕ) (symbol : ℕ → ℕ) (n v : ℕ) (buffer : List ℕ)
    → length (fill_digits base symbol n v buffer) ≡ length buffer
unfolding fill_digits
length-fill_digits base symbol zero v buffer = refl
length-fill_digits base symbol (suc n) v buffer =
    length-fill_digits base symbol n (v / base) _ ∙ length-set buffer n (symbol (v % base))

module _ (base : ℕ) (symbol : ℕ → ℕ) where
  Fits-one : 0 < base → (v : ℕ) → v ≡ 0 → Fits base 1 v
  unfolding Fits
  Fits-one h v e = omega (arith, div-le_self v base)

  positive : (k v : ℕ) → v ≢ 0 → Fits base k v → 1 ≤ k
  unfolding Fits
  positive zero v ne f = absurd (ne f)
  positive (suc k) v ne f = omega arith

  -- The count of digits fits, is never 0, and is the least such.
  digit_count-Fits :
      8 ≤ base
      → (v : ℕ) → v < 2 ^ 64
      → Fits base (digit_count base v) v
        × (1 ≤ digit_count base v)
        × ((m : ℕ) → 1 ≤ m → Fits base m v → digit_count base v ≤ m)
  unfolding digit_count
  digit_count-Fits h v w = elim (Bool-cases (v == 0)) [
    | inl y ↦ rw y (Fits-one (omega arith) v (ground arith), omega arith, λ m l f. l)
    | inr x ↦
        let loop = digit_count_loop-Fits base (omega arith) 64 v 0 w in
        let e : digit_count_loop base 64 v 0 ≡ loop.0 = omega (arith, loop.1) in
        rw (x, e) (loop.2, positive loop.0 v (ground arith) loop.2, λ m l f. loop.3 m f)
  ]

  pub digits-Numeral :
      ((d : ℕ) → d < base → digit_value (symbol d) ≡ d)
      → ((d : ℕ) → d < base → IsDigit base (symbol d))
      → 8 ≤ base
      → (v : ℕ) → v < 2 ^ 64
      → Numeral base v
          (digit_count base v)
          (fill_digits base symbol (digit_count base v) v (replicate 32 0))
  digits-Numeral inv digit h v w =
      let n = digit_count base v in
      let c = digit_count-Fits h v w in
      let bound : n ≤ 22 = c.2 22 (omega arith) (Fits-pow base 22 v h (omega arith)) in
      let room : length (replicate {A = ℕ} 32 0) ≡ 32 = length-replicate {A = ℕ} 32 0 in
      record {
        size = length-fill_digits base symbol n v (replicate 32 0) ∙ room;
        not_empty = c.1;
        bounded = bound;
        digits =
            fill_digits-IsDigit base symbol digit (omega arith) n v (replicate 32 0)
              (omega (arith, bound, room));
        spells =
            read_number-fill_digits base symbol inv (omega arith) n v (replicate 32 0)
              (omega (arith, bound, room)) c.0;
        least = c.2;
      }
