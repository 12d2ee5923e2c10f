-- ===== src/Serial/Tests.antt =====
-- Runs of the serial driver on a port in memory, and its theorems there.
use ukulele.Base.{
  ℕ, ◌+◌, ◌≡◌, refl, arith, List, [], ◌∷◌, ◌++◌, true, false, ◌==◌, none, some, replicate, bit_and,
  not, if◌then◌else◌, get_or, zero, suc, ◌<◌, ◌≢◌,
}
use ukulele.Libk.Str.Length.{IsString}
use ukulele.Libk.Stdio.{Io, closed_file, puts}
use ukulele.Serial.{set_div_latch, set_up, test_loopback, serial_detect, serial_io}
use ukulele.Serial.Uart.{Uart, IsUart, is_latched, is_loopback, has_data}
use ukulele.Serial.Detect.{ready, serial_detect_lem}
use ukulele.Serial.Output.{text, IsSerial, puts-serial}

abbrev take_byte : Uart → List ℕ → Uart × ℕ
take_byte u [] = (u, 0)
take_byte u (v ∷ vs) = (record u { received = vs }, v)

abbrev in_byte : Uart → ℕ → Uart × ℕ
in_byte u a =
    if a == 0x3ff
    then (u, u.scratch)
    else if a == 0x3fb
    then (u, u.line_control)
    else if a == 0x3fd
    then (u, if has_data u.received then 1 else 0)
    else if a == 0x3f8
    then take_byte u u.received
    else (u, 0)

abbrev out_data : Uart → ℕ → Uart
out_data u v =
    if is_latched u
    then record u { divisor_low = v }
    else if is_loopback u
    then record u { received = u.received ++ (v ∷ []) }
    else record u { sent = u.sent ++ (v ∷ []) }

abbrev out_byte : Uart → ℕ → ℕ → Uart
out_byte u a v =
    if a == 0x3ff
    then record u { scratch = v }
    else if a == 0x3fb
    then record u { line_control = v }
    else if a == 0x3fc
    then record u { modem_control = v }
    else if a == 0x3fa
    then record u { fifo_control = v; received = if bit_and v 2 == 0 then u.received else [] }
    else if a == 0x3f9
    then (if is_latched u then record u { divisor_high = v } else record u { interrupt_enable = v })
    else if a == 0x3f8
    then out_data u v
    else u

first-IsUart : IsUart in_byte out_byte 0x3f8 (λ u. u)
first-IsUart = record {
  scratch_write = λ u v. refl;
  scratch_read = λ u. (refl, refl);
  line_write = λ u v. refl;
  line_read = λ u. (refl, refl);
  modem_write = λ u v. refl;
  fifo_write = λ u v. refl;
  interrupt_write = λ u v h. rw h refl;
  divisor_low_write = λ u v h. rw h refl;
  divisor_high_write = λ u v h. rw h refl;
  loopback_write = λ u v h k. rw (h, k) refl;
  data_write = λ u v h k. rw (h, k) refl;
  data_read = λ u v vs h e. rw e (refl, refl);
  status_read = λ u. (refl, status u.received);
}
  where
    status : (vs : List ℕ) → not (bit_and (if has_data vs then 1 else 0) 1 == 0) ≡ has_data vs
    status [] = refl
    status (v ∷ vs) = refl

-- As some firmware leaves it.
abbrev found : Uart
found = record {
  interrupt_enable = 15;
  divisor_low = 1;
  divisor_high = 0;
  fifo_control = 0;
  line_control = 0x83;
  modem_control = 0;
  scratch = 0;
  received = 7 ∷ [];
  sent = [];
}

detect_runs : serial_detect in_byte out_byte 0 found ≡ (ready [], true)
unfolding serial_detect test_loopback set_up set_div_latch
detect_runs = refl

-- No port answers at the second address.
detect_absent : serial_detect in_byte out_byte 1 found ≡ (found, false)
unfolding serial_detect
detect_absent = refl

serial_detect_lem_example :
    ((serial_detect in_byte out_byte 0 found).0 ≡ ready [])
    × ((serial_detect in_byte out_byte 0 found).1 ≡ true)
serial_detect_lem_example = serial_detect_lem 0 found first-IsUart

-- The first stream writes to the port whose number stands at 4096.
abbrev io : Io Uart
io = record {
  errno = 0;
  stdout = some 0;
  stderr = none;
  streams =
      record {
        cookie = 4096;
        io_functions = serial_io in_byte out_byte (λ _. 0);
        eof = false;
        error = false;
      }
      ∷ replicate 7 closed_file;
  world = ready [];
}

io-IsSerial : IsSerial 0 first-IsUart (λ _. 0) 0 io
io-IsSerial = record { writes = refl; to_port = refl }

-- "abc", and 0 bytes behind it.
abbrev abc : ℕ → ℕ
abc i = get_or (97 ∷ 98 ∷ 99 ∷ []) i 0

abc-IsString : IsString abc 0 3
abc-IsString = record { body = λ i h. letter i h; ended = refl }
  where
    letter : (i : ℕ) → i < 3 → abc (0 + i) ≢ 0
    letter zero h e = omega (arith, e)
    letter (suc zero) h e = omega (arith, e)
    letter (suc (suc zero)) h e = omega (arith, e)
    letter (suc (suc (suc i))) h e = absurd (omega arith)

puts-serial_example :
    ((puts io abc).0.world ≡ ready (([] ++ (text abc 0 3 ++ (0 ∷ []))) ++ (10 ∷ [])))
    × ((puts io abc).1 ≡ 2 + 3)
puts-serial_example =
    puts-serial 0 first-IsUart (λ _. 0) 0 io abc 3 [] refl io-IsSerial abc-IsString (omega arith)
      refl
