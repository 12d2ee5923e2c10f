-- ===== src/Libk/Printf/Numbers.antt =====
-- `print_num_10` and `print_num_16`: what they write.
use ukulele.Base.{ℕ, ◌^◌, ◌<◌, ◌≡◌, refl, List, Option, arith, get_or, inl, inr, ltb, Bool-cases}
use ukulele.Libk.Printf.Convert.{
  digit_count, decimal_digit, hex_digit, Printing, fwrite_e, print_num_10, print_num_16,
}
use ukulele.Libk.Printf.Digits.{digit_value, IsDigit, Numeral, digits-Numeral}

decimal_inv : (d : ℕ) → d < 10 → digit_value (decimal_digit d) ≡ d
unfolding digit_value
decimal_inv d h = ground arith

hex_inv : (d : ℕ) → d < 16 → digit_value (hex_digit d) ≡ d
unfolding digit_value
hex_inv d h = ground arith

decimal_digit-IsDigit : (d : ℕ) → d < 10 → IsDigit 10 (decimal_digit d)
decimal_digit-IsDigit d h = inl (omega arith, omega arith)

hex_digit-IsDigit : (d : ℕ) → d < 16 → IsDigit 16 (hex_digit d)
hex_digit-IsDigit d h = elim (Bool-cases (ltb d 10)) [
  | inl y ↦ inl (ground (arith, y), ground (arith, y))
  | inr n ↦ inr (ground (arith, n), ground (arith, n))
]

module _ {W : Type 0} (stream : Option ℕ) (s : Printing W) where
  -- Of a 64-bit value `print_num_10` writes the decimal numeral, in one call: characters from 0 to
  -- 9 that spell the value, at least one and no more than are needed, which fit into the buffer of 32 bytes.
  pub print_num_10_lem :
      (v : ℕ)
      → v < 2 ^ 64
      → (n : ℕ) × (buffer : List ℕ) × (print_num_10 stream v s
          ≡ fwrite_e stream (λ i. get_or buffer i 0) n s)
        × Numeral 10 v n buffer
  unfolding print_num_10
  print_num_10_lem v w = (
    digit_count 10 v,
    _,
    refl,
    digits-Numeral 10 decimal_digit decimal_inv decimal_digit-IsDigit (omega arith) v w,
  )

  -- Of a 64-bit value `print_num_16` writes the hexadecimal numeral, in one call: characters from
  -- 0 to 9 and a to f that spell the value, at least one and no more than are needed, which fit into the buffer of 32
  -- bytes.
  pub print_num_16_lem :
      (v : ℕ)
      → v < 2 ^ 64
      → (n : ℕ) × (buffer : List ℕ) × (print_num_16 stream v s
          ≡ fwrite_e stream (λ i. get_or buffer i 0) n s)
        × Numeral 16 v n buffer
  unfolding print_num_16
  print_num_16_lem v w = (
    digit_count 16 v,
    _,
    refl,
    digits-Numeral 16 hex_digit hex_inv hex_digit-IsDigit (omega arith) v w,
  )
