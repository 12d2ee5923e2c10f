-- ===== src/Serial/Detect.antt =====
-- `serial_detect`: when a port is found, and how it is then set up.
use ukulele.Base.{
  ℕ, ◌+◌, ◌-◌, ◌*◌, ◌%◌, ◌^◌, ◌≡◌, refl, ap, ◌∙◌, arith, bit_and, bit_or, List, [], ◌∷◌, Bool, true,
  false, not, ◌==◌, ==_iff, Bool-cases, inl, inr,
}
use ukulele.Base.Bits.{bit, bit-bit_and, bit-bit_or, bit_and_mask, bit-lt}
use ukulele.Serial.{
  serial_address, reg_scratch, line_ctrl_div_latch, scratch_test_byte, set_div_latch, set_up,
  test_loopback, serial_detect,
}
use ukulele.Serial.Uart.{Uart, IsUart, is_latched}

-- The line control with the divisor latch set, or not.
abbrev latch : Bool → ℕ → ℕ
latch true v = bit_or v line_ctrl_div_latch
latch false v = bit_and v (2 ^ 32 - 1 - line_ctrl_div_latch) % 2 ^ 8

abbrev is_latched_word : ℕ → Bool
is_latched_word v = not (bit_and v line_ctrl_div_latch == 0)

top_bit : (v : ℕ) → bit_and v line_ctrl_div_latch ≡ bit v 7 * 128
top_bit v = omega (arith, bit_and_mask 7 8 v (omega arith))

latch-is_latched : (enabled : Bool) (v : ℕ) → is_latched_word (latch enabled v) ≡ enabled
latch-is_latched true v =
    let top : bit (bit_or v line_ctrl_div_latch) 7 ≡ 1 =
      omega (arith, bit-bit_or v line_ctrl_div_latch 7, bit-lt v 7) in
    ground (arith, top_bit (bit_or v line_ctrl_div_latch), top)
latch-is_latched false v =
    let x = bit_and v (2 ^ 32 - 1 - line_ctrl_div_latch) in
    let top : bit x 7 ≡ 0 = omega (arith, bit-bit_and v (2 ^ 32 - 1 - line_ctrl_div_latch) 7) in
    let same : bit (x % 2 ^ 8) 7 ≡ bit x 7 = omega arith in
    ground (arith, top_bit (x % 2 ^ 8), top, same)

-- A port that has been set up, with the bytes that were sent before.
abbrev pub ready : List ℕ → Uart
ready sent = record {
  interrupt_enable = 0;
  divisor_low = 12;
  divisor_high = 0;
  fifo_control = 0x87;
  line_control = 0x03;
  modem_control = 0x03;
  scratch = scratch_test_byte;
  received = [];
  sent = sent;
}

module _ {M : Type 0} {io_port_read : M → ℕ → M × ℕ} {io_port_write : M → ℕ → ℕ → M} where
  module _ {port : ℕ} {view : M → Uart} (is : IsUart io_port_read io_port_write port view) where
    set_div_latch_lem :
        (enabled : Bool) (m : M)
        → view (set_div_latch io_port_read io_port_write port enabled m)
          ≡ record (view m) { line_control = latch enabled (view m).line_control }
    unfolding set_div_latch
    set_div_latch_lem true m =
        let r = is.line_read m in
        let v = (view m).line_control in
        elim (Bool-cases (latch true v == v)) [
          | inl y ↦ let e = (==_iff (latch true v) v).0 y in rw (r.1, y, e) r.0
          | inr n ↦
              rw (r.1, n, is.line_write (io_port_read m (port + 3)).0 (latch true v), r.0) refl
        ]
    set_div_latch_lem false m =
        let r = is.line_read m in
        let v = (view m).line_control in
        elim (Bool-cases (latch false v == v)) [
          | inl y ↦ let e = (==_iff (latch false v) v).0 y in rw (r.1, y, e) r.0
          | inr n ↦
              rw (r.1, n, is.line_write (io_port_read m (port + 3)).0 (latch false v), r.0) refl
        ]

    set_up_lem :
        (m : M)
        → view (set_up io_port_read io_port_write port m)
          ≡ record (ready (view m).sent) { modem_control = 0x13; scratch = (view m).scratch }
    unfolding set_up
    set_up_lem m0 =
        let read = io_port_read in
        let write = io_port_write in
        let m1 = set_div_latch io_port_read io_port_write port false m0 in
        let e1 = set_div_latch_lem false m0 in
        let open1 = latch-is_latched false (view m0).line_control in
        let m2 = io_port_write m1 (port + 1) 0 in
        let e2 = is.interrupt_write m1 0 (ap is_latched e1 ∙ open1) in
        let m3 = set_div_latch io_port_read io_port_write port true m2 in
        let e3 = set_div_latch_lem true m2 in
        let closed3 : is_latched (view m3) ≡ true =
          ap is_latched e3 ∙ latch-is_latched true (view m2).line_control in
        let e4 = is.divisor_low_write m3 12 closed3 in
        let m4 = io_port_write m3 (port + 0) 12 in
        let e5 = is.divisor_high_write m4 0 (ap is_latched e4 ∙ closed3) in
        let m5 = io_port_write m4 (port + 1) 0 in
        let e6 = is.line_write m5 3 in
        let m6 = io_port_write m5 (port + 3) 3 in
        let e7 = is.fifo_write m6 0x87 in
        let m7 = io_port_write m6 (port + 2) 0x87 in
        let e8 = is.modem_write m7 0x13 in rw (e8, e7, e6, e5, e4, e3, e2, e1) refl

    test_loopback_lem :
        (m : M) (sent : List ℕ)
        → view m ≡ record (ready sent) { modem_control = 0x13 }
        → (view (test_loopback io_port_read io_port_write port m).0 ≡ ready sent)
          × ((test_loopback io_port_read io_port_write port m).1 ≡ true)
    unfolding test_loopback
    test_loopback_lem m sent e =
        let echo = is.loopback_write m 0x69 (ap is_latched e) (rw e refl) in
        let m1 = io_port_write m port 0x69 in
        let here : view m1 ≡ record (ready sent) { modem_control = 0x13; received = 0x69 ∷ [] } =
          echo ∙ rw e refl in
        let r = is.data_read m1 0x69 [] (ap is_latched here) (rw here refl) in
        let done = is.modem_write (io_port_read m1 port).0 3 in
        (rw (r.1, done, r.0, here) refl, rw r.1 refl)

  -- Where the port of a number is an NS16550 at which nothing arrives, `serial_detect` finds it and
  -- leaves it set up: the divisor for 9600 baud, 8 bits without parity, the FIFO on and empty,
  -- interrupts and the loopback off, whatever the registers held before. No byte goes out.
  pub serial_detect_lem :
      (n : ℕ) (m : M) {view : M → Uart}
      → IsUart io_port_read io_port_write (serial_address n) view
      → (view (serial_detect io_port_read io_port_write n m).0 ≡ ready (view m).sent)
        × ((serial_detect io_port_read io_port_write n m).1 ≡ true)
  unfolding serial_detect
  serial_detect_lem n m {view} is =
      let m1 = io_port_write m (serial_address n + reg_scratch) scratch_test_byte in
      let w = is.scratch_write m scratch_test_byte in
      let r = is.scratch_read m1 in
      let answer : (io_port_read m1 (serial_address n + reg_scratch)).1 ≡ scratch_test_byte =
        r.1 ∙ ap (λ (u : Uart). u.scratch) w in
      let m2 = (io_port_read m1 (serial_address n + reg_scratch)).0 in
      let before : view m2 ≡ record (view m) { scratch = scratch_test_byte } = r.0 ∙ w in
      let up = set_up_lem is m2 ∙ rw before refl in
      rw answer (
        test_loopback_lem is (set_up io_port_read io_port_write (serial_address n) m2) (view m).sent
          up)
