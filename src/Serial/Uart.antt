-- ===== src/Serial/Uart.antt =====
-- What the driver relies on of a serial port: the registers of the NS16550.
use ukulele.Base.{
  ℕ, ◌+◌, ◌≡◌, bit_and, List, [], ◌∷◌, ◌++◌, Bool, true, false, not, ◌==◌, if◌then◌else◌,
}
use ukulele.Serial.{
  reg_baud_low, reg_baud_high, reg_interrupt_enable, reg_fifo_control, reg_line_control,
  reg_modem_control, reg_line_status, reg_scratch, line_ctrl_div_latch, modem_ctrl_loopback,
  line_status_data_ready,
}

-- The registers, the bytes that are to be read, and those that have gone out on the line.
pub record Uart : Type 0 where
  pub interrupt_enable : ℕ
  pub divisor_low : ℕ
  pub divisor_high : ℕ
  pub fifo_control : ℕ
  pub line_control : ℕ
  pub modem_control : ℕ
  pub scratch : ℕ
  pub received : List ℕ
  pub sent : List ℕ

abbrev pub is_latched : Uart → Bool
is_latched u = not (bit_and u.line_control line_ctrl_div_latch == 0)

abbrev pub is_loopback : Uart → Bool
is_loopback u = not (bit_and u.modem_control modem_ctrl_loopback == 0)

abbrev pub has_data : List ℕ → Bool
has_data [] = false
has_data (v ∷ vs) = true

-- The port at an address is an NS16550 at which nothing arrives on the line.
pub record IsUart {M : Type 0} (io_port_read : M → ℕ → M × ℕ) (io_port_write : M → ℕ → ℕ → M)
    (port : ℕ) (view : M → Uart) : Type 0 where
  pub scratch_write :
      (m : M) (v : ℕ)
      → view (io_port_write m (port + reg_scratch) v) ≡ record (view m) { scratch = v }
  pub scratch_read :
      (m : M)
      → (view (io_port_read m (port + reg_scratch)).0 ≡ view m)
        × ((io_port_read m (port + reg_scratch)).1 ≡ (view m).scratch)
  pub line_write :
      (m : M) (v : ℕ)
      → view (io_port_write m (port + reg_line_control) v) ≡ record (view m) { line_control = v }
  pub line_read :
      (m : M)
      → (view (io_port_read m (port + reg_line_control)).0 ≡ view m)
        × ((io_port_read m (port + reg_line_control)).1 ≡ (view m).line_control)
  pub modem_write :
      (m : M) (v : ℕ)
      → view (io_port_write m (port + reg_modem_control) v) ≡ record (view m) { modem_control = v }
  pub fifo_write :
      (m : M) (v : ℕ)
      → view (io_port_write m (port + reg_fifo_control) v) ≡ record (view m) {
        fifo_control = v;
        received = if bit_and v 2 == 0 then (view m).received else [];
      }
  pub interrupt_write :
      (m : M) (v : ℕ)
      → is_latched (view m) ≡ false
      → view (io_port_write m (port + reg_interrupt_enable) v)
        ≡ record (view m) { interrupt_enable = v }
  pub divisor_low_write :
      (m : M) (v : ℕ)
      → is_latched (view m) ≡ true
      → view (io_port_write m (port + reg_baud_low) v) ≡ record (view m) { divisor_low = v }
  pub divisor_high_write :
      (m : M) (v : ℕ)
      → is_latched (view m) ≡ true
      → view (io_port_write m (port + reg_baud_high) v) ≡ record (view m) { divisor_high = v }
  pub loopback_write :
      (m : M) (v : ℕ)
      → is_latched (view m) ≡ false
      → is_loopback (view m) ≡ true
      → view (io_port_write m port v) ≡ record (view m) { received = (view m).received ++ (v ∷ []) }
  pub data_write :
      (m : M) (v : ℕ)
      → is_latched (view m) ≡ false
      → is_loopback (view m) ≡ false
      → view (io_port_write m port v) ≡ record (view m) { sent = (view m).sent ++ (v ∷ []) }
  pub data_read :
      (m : M) (v : ℕ) (vs : List ℕ)
      → is_latched (view m) ≡ false
      → (view m).received ≡ v ∷ vs
      → (view (io_port_read m port).0 ≡ record (view m) { received = vs })
        × ((io_port_read m port).1 ≡ v)
  pub status_read :
      (m : M)
      → (view (io_port_read m (port + reg_line_status)).0 ≡ view m)
        × (not (bit_and (io_port_read m (port + reg_line_status)).1 line_status_data_ready == 0)
            ≡ has_data (view m).received)
