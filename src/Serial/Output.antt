-- ===== src/Serial/Output.antt =====
-- `serial_cookie_write` and `serial_read`: the bytes that go out on a serial port, also through a
-- stream, and the ones that come in.
use ukulele.Base.{
  ℕ, zero, suc, ◌+◌, ◌-◌, ◌^◌, ◌<◌, ◌≡◌, refl, sym, ap, ◌∙◌, arith, List, [], ◌∷◌, ◌++◌, false,
  ◌==◌, u32, some, Option,
}
use mathlib.Core.List.{append-nil, append_assoc}
use ukulele.Libk.Str.Length.{IsString, strlen_x86_lem}
use ukulele.Libk.Stdio.{Io, CookieIoFunctions, file, fwrite, fputs, fputc, puts}
use ukulele.Libk.Stdio.Streams.{fwrite-count}
use ukulele.Serial.{
  serial_address, serial_write, write_loop, serial_cookie_write, serial_io, serial_read,
}
use ukulele.Serial.Uart.{Uart, IsUart, is_latched, is_loopback, has_data}
use ukulele.Serial.Detect.{ready}

-- `c` bytes of a buffer from `i` on.
pub text : (ℕ → ℕ) → ℕ → ℕ → List ℕ
text buf i zero = []
text buf i (suc c) = buf i ∷ text buf (i + 1) c

-- The last byte of a longer text.
text-snoc : (buf : ℕ → ℕ) (i n : ℕ) → text buf i (suc n) ≡ text buf i n ++ (buf (i + n) ∷ [])
unfolding text
text-snoc buf i zero = ap (λ (a : ℕ). buf a ∷ []) (omega arith)
text-snoc buf i (suc n) =
    ap (λ (bytes : List ℕ). buf i ∷ bytes)
      (text-snoc buf (i + 1) n ∙ ap (λ (a : ℕ). text buf (i + 1) n ++ (buf a ∷ [])) (omega arith))

text-end : (buf : ℕ → ℕ) (n : ℕ) → buf (0 + n) ≡ 0 → text buf 0 (suc n) ≡ text buf 0 n ++ (0 ∷ [])
text-end buf n e = text-snoc buf 0 n ∙ ap (λ (c : ℕ). text buf 0 n ++ (c ∷ [])) e

module _ {M : Type 0} {io_port_read : M → ℕ → M × ℕ} {io_port_write : M → ℕ → ℕ → M} (n : ℕ)
    {view : M → Uart} (is : IsUart io_port_read io_port_write (serial_address n) view) where
  -- The loop sends the bytes in order.
  write_loop_lem :
      (c : ℕ) (buf : ℕ → ℕ) (i : ℕ) (m : M) (sent : List ℕ)
      → view m ≡ ready sent
      → view (write_loop io_port_read io_port_write c n buf i m) ≡ ready (sent ++ text buf i c)
  unfolding write_loop serial_write text
  write_loop_lem zero buf i m sent e = e ∙ ap ready (sym (append-nil sent))
  write_loop_lem (suc c) buf i m sent e =
      let step = is.data_write m (buf i) (ap is_latched e) (ap is_loopback e) in
      let next : view (io_port_write m (serial_address n) (buf i)) ≡ ready (sent ++ (buf i ∷ [])) =
        step ∙ rw e refl in
      write_loop_lem c buf (i + 1) (io_port_write m (serial_address n) (buf i))
        (sent ++ (buf i ∷ [])) next
      ∙ ap ready (append_assoc sent (buf i ∷ []) (text buf (i + 1) c))

  module _ (int_at : ℕ → ℕ) (i : ℕ) where
    -- The stream with this number writes to the port.
    pub record IsSerial (io : Io M) : Type 0 where
      pub writes : (file io i).io_functions ≡ serial_io io_port_read io_port_write int_at
      pub to_port : int_at (file io i).cookie ≡ n

    fwrite-serial :
        (io : Io M) (buf : ℕ → ℕ) (len : ℕ) {stream : Option ℕ}
        → stream ≡ some i
        → IsSerial io
        → 0 < len
        → len < 2 ^ 64
        → fwrite io buf 1 len stream ≡ (
          record io {
            errno = 0;
            world = write_loop io_port_read io_port_write len n buf 0 io.world;
          },
          len,
        )
    unfolding serial_io serial_cookie_write
    fwrite-serial io buf len {stream} to h some_byte short =
        let writer = ap (λ (f : CookieIoFunctions M). f.writer) h.writes in
        ap (λ (t : Option ℕ). fwrite io buf 1 len t) to
        ∙ fwrite-count io buf len i writer (omega arith) short (rw h.to_port refl)

    -- `puts` to a stream on a port that has been set up sends the bytes of the string in order,
    -- then its terminator, since the assembly `strlen` counts that too, and then a newline. It
    -- returns the number of bytes; the string is shorter than 2 GiB.
    pub puts-serial :
        (io : Io M) (str : ℕ → ℕ) (len : ℕ) (sent : List ℕ)
        → io.stdout ≡ some i
        → IsSerial io
        → IsString str 0 len
        → len < 2 ^ 31 - 2
        → view io.world ≡ ready sent
        → (view (puts io str).0.world ≡ ready ((sent ++ (text str 0 len ++ (0 ∷ []))) ++ (10 ∷ [])))
          × ((puts io str).1 ≡ 2 + len)
    unfolding puts fputs fputc text
    puts-serial io str len sent out h string short e =
        let count = strlen_x86_lem string (omega (arith, short)) in
        let first = fwrite-serial io str (suc len) out h (omega arith) (omega arith) in
        let io1 : Io M = record io {
          errno = 0;
          world = write_loop io_port_read io_port_write (suc len) n str 0 io.world;
        } in
        let kept : IsSerial io1 = record { writes = h.writes; to_port = h.to_port } in
        let second = fwrite-serial io1 (λ _. 10) 1 out kept (omega arith) (omega arith) in
        let ne : (suc len == 0) ≡ false = ground arith in
        let word : u32 (suc len) ≡ suc len = omega arith in
        let no_eof : (suc len == 4294967295) ≡ false = ground arith in
        let total : u32 (1 + (suc len)) ≡ 2 + len = omega arith in
        let line =
          write_loop_lem (suc len) str 0 io.world sent e
          ∙ ap (λ (bytes : List ℕ). ready (sent ++ bytes)) (text-end str len string.ended) in
        let end =
          write_loop_lem 1 (λ _. 10) 0 io1.world (sent ++ (text str 0 len ++ (0 ∷ []))) line in
        rw (count, first, second, ne, word, no_eof) (end, total)

  -- `serial_read` returns the oldest byte that has come in and takes it off, or -1 where none has.
  pub serial_read_lem :
      (m : M)
      → is_latched (view m) ≡ false
      → ((view m).received ≡ []
          → (view (serial_read io_port_read io_port_write n m).0 ≡ view m)
            × ((serial_read io_port_read io_port_write n m).1 ≡ 2 ^ 32 - 1))
        × ((v : ℕ) (vs : List ℕ)
            → (view m).received ≡ v ∷ vs
            → (view (serial_read io_port_read io_port_write n m).0
                ≡ record (view m) { received = vs })
              × ((serial_read io_port_read io_port_write n m).1 ≡ v))
  unfolding serial_read
  serial_read_lem m unlatched =
      let line = is.status_read m in
      let m1 = (io_port_read m (serial_address n + 5)).0 in
      (
        λ e. let off = line.1 ∙ ap has_data e in rw off (line.0, refl),
        λ v vs e.
            let on = line.1 ∙ ap has_data e in
            let r =
              is.data_read m1 v vs (ap is_latched line.0 ∙ unlatched)
                (ap (λ (u : Uart). u.received) line.0 ∙ e) in
            rw on (r.0 ∙ rw line.0 refl, r.1),
      )
