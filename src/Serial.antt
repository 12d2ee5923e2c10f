-- ===== src/Serial.antt =====
-- The serial ports (src/drivers/serial.c, src/drivers/serial.h), and the cookie that writes to them
-- (src/kernel.c).
--
-- The two port instructions are parameters over the state `M` of the machine. A `char` and a
-- `uint8_t` are bytes; the result of `serial_read` is the word of its `int`.
pub mod Uart
pub mod Detect
pub mod Output
mod Tests
use ukulele.Base.{
  ℕ, zero, suc, ◌+◌, ◌-◌, ◌/◌, ◌%◌, ◌^◌, bit_and, bit_or, List, [], ◌∷◌, Bool, true, false, not,
  ◌==◌, get_or, none, some, if◌then◌else◌,
}
use ukulele.Libk.Stdio.{Ssize, count, CookieIoFunctions}

abbrev pub serial_address : ℕ → ℕ
serial_address n = get_or (0x3f8 ∷ 0x2f8 ∷ 0x3e8 ∷ 0x2e8 ∷ []) n 0

abbrev pub reg_baud_low : ℕ
reg_baud_low = 0

abbrev pub reg_baud_high : ℕ
reg_baud_high = 1

abbrev pub reg_interrupt_enable : ℕ
reg_interrupt_enable = 1

abbrev pub reg_fifo_control : ℕ
reg_fifo_control = 2

abbrev pub reg_line_control : ℕ
reg_line_control = 3

abbrev pub reg_modem_control : ℕ
reg_modem_control = 4

abbrev pub reg_line_status : ℕ
reg_line_status = 5

abbrev pub reg_scratch : ℕ
reg_scratch = 7

-- `FIFO_CTRL_ENABLE`, `FIFO_CTRL_CLEAR_RX`, `FIFO_CTRL_CLEAR_TX` and `FIFO_CTRL_TRIGGER_08`.
abbrev pub fifo_ctrl : ℕ
fifo_ctrl = 0x87

abbrev pub line_ctrl_div_latch : ℕ
line_ctrl_div_latch = 0x80

abbrev pub line_ctrl_8n1 : ℕ
line_ctrl_8n1 = 0x03

-- `MODEM_CTRL_DTR` and `MODEM_CTRL_RTS`.
abbrev pub modem_ctrl : ℕ
modem_ctrl = 0x03

abbrev pub modem_ctrl_loopback : ℕ
modem_ctrl_loopback = 0x10

abbrev pub line_status_data_ready : ℕ
line_status_data_ready = 0x01

abbrev pub max_baud_rate : ℕ
max_baud_rate = 115200

abbrev pub baud_rate : ℕ
baud_rate = 9600

abbrev pub scratch_test_byte : ℕ
scratch_test_byte = 0xab

abbrev pub loop_test_byte : ℕ
loop_test_byte = 0x69

module _ {M : Type 0} (io_port_read : M → ℕ → M × ℕ) (io_port_write : M → ℕ → ℕ → M) where
  pub set_div_latch : ℕ → Bool → M → M
  set_div_latch port enabled m =
      let line_control : ℕ = port + reg_line_control in
      let read = io_port_read m line_control in
      let set = bit_or read.1 line_ctrl_div_latch in
      let clear = bit_and read.1 (2 ^ 32 - 1 - line_ctrl_div_latch) % 2 ^ 8 in
      let new = if enabled then set else clear in
      if new == read.1 then read.0 else io_port_write read.0 line_control new

  -- What `serial_detect` does once the scratch register has answered, up to the loopback test.
  pub set_up : ℕ → M → M
  set_up port m0 =
      let m1 = set_div_latch port false m0 in
      let m2 = io_port_write m1 (port + reg_interrupt_enable) 0 in
      let m3 = set_div_latch port true m2 in
      let m4 = io_port_write m3 (port + reg_baud_low) (bit_and (max_baud_rate / baud_rate) 0xff) in
      let m5 = io_port_write m4 (port + reg_baud_high) (max_baud_rate / baud_rate / 2 ^ 8) in
      let m6 = io_port_write m5 (port + reg_line_control) line_ctrl_8n1 in
      let m7 = io_port_write m6 (port + reg_fifo_control) fifo_ctrl in
      io_port_write m7 (port + reg_modem_control) (bit_or modem_ctrl modem_ctrl_loopback)

  -- The loopback test, and what follows.
  pub test_loopback : ℕ → M → M × Bool
  test_loopback port m =
      let read = io_port_read (io_port_write m port loop_test_byte) port in
      if read.1 == loop_test_byte
      then (io_port_write read.0 (port + reg_modem_control) modem_ctrl, true)
      else (read.0, false)

  pub serial_detect : ℕ → M → M × Bool
  serial_detect n m =
      let port : ℕ = serial_address n in
      let read =
        io_port_read (io_port_write m (port + reg_scratch) scratch_test_byte)
          (port + reg_scratch) in
      if read.1 == scratch_test_byte
      then test_loopback port (set_up port read.0)
      else (read.0, false)

  pub serial_write : ℕ → ℕ → M → M
  serial_write n c m = io_port_write m (serial_address n) c

  pub serial_read : ℕ → M → M × ℕ
  serial_read n m =
      let port : ℕ = serial_address n in
      let line = io_port_read m (port + reg_line_status) in
      if not (bit_and line.1 line_status_data_ready == 0)
      then io_port_read line.0 port
      else (line.0, 2 ^ 32 - 1)

  -- The loop of `serial_cookie_write`, for `c` more bytes from `buf` on.
  pub write_loop : ℕ → ℕ → (ℕ → ℕ) → ℕ → M → M
  write_loop zero port buf i m = m
  write_loop (suc c) port buf i m = write_loop c port buf (i + 1) (serial_write port (buf i) m)

  -- `int_at` reads the `int` that a cookie points to.
  pub serial_cookie_write : (ℕ → ℕ) → ℕ → (ℕ → ℕ) → ℕ → M → M × Ssize
  serial_cookie_write int_at cookie buf nbytes m =
      (write_loop nbytes (int_at cookie) buf 0 m, count nbytes)

  pub serial_io : (ℕ → ℕ) → CookieIoFunctions M
  serial_io int_at = record { reader = none; writer = some (serial_cookie_write int_at) }
