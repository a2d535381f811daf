-- ===== src/Ps2/Defs.antt =====
-- The functions of sa1101ps2.c. What the status register shows is an argument of each function, and
-- the kernel's calls answer 0 for success.
use jornada.Common.{
  ℕ, zero, suc, ◌%◌, Bool, true, false, not, ◌&&◌, ◌||◌, List, [], ◌∷◌, if◌then◌else◌, ◌==◌, get_or,
  set, map,
}
use jornada.Common.Ring.{next}

-- `struct ps2if`. `tx_enabled` is whether IRQ_SA1101_TPTXINT is enabled, `rx_claimed` and `tx_claimed`
-- are the interrupts that are held, `control` is PS2CR_ENA of the control register, and `sent` has the
-- bytes that were written to the data register, the latest first.
pub record Port : Type 0 where
  pub buf : List ℕ
  pub head : ℕ
  pub tail : ℕ
  pub is_open : Bool
  pub tx_enabled : Bool
  pub rx_claimed : Bool
  pub tx_claimed : Bool
  pub control : Bool
  pub sent : List ℕ

-- `sizeof(ps2if->buf)` is `2 ^ 2`.
abbrev pub buf_bits : ℕ
buf_bits = 2

-- `txe` is PS2STAT_TXE of the status.
unfoldable pub ps2_txint : Bool → Port → Port
ps2_txint txe p =
    if p.head == p.tail
    then record p { tx_enabled = false }
    else if txe
    then record p { sent = get_or p.buf p.tail 0 ∷ p.sent; tail = next buf_bits p.tail }
    else p

-- Where the transmitter is not ready: the byte goes to the buffer if that has room.
unfoldable pub put_byte : ℕ → Port → Port
put_byte val p =
    let woken = if p.head == p.tail then record p { tx_enabled = true } else p in
    let head = next buf_bits p.head in
    if not (head == p.tail) then record woken { buf = set p.buf p.head val; head = head } else woken

unfoldable pub ps2_write : Bool → ℕ → Port → Port
ps2_write txe val p = if txe then record p { sent = val ∷ p.sent } else put_byte val p

-- A byte of the port with PS2STAT_RXP of its status.
pub record Frame : Type 0 where
  pub rxp : Bool
  pub data_byte : ℕ

-- What `serio_interrupt` gets: the byte, and SERIO_PARITY.
pub record Delivery : Type 0 where
  pub scancode : ℕ
  pub parity_error : Bool

-- `hweight8` is the kernel's count of the bits of a byte.
module _ (hweight8 : ℕ → ℕ) where
  -- One turn of the loop of `ps2_rxint`: `flag ^= SERIO_PARITY` for a byte of odd weight.
  unfoldable pub receive : Frame → Delivery
  receive f =
      let scancode = f.data_byte % 256 in
      let flag = if f.rxp then false else true in
      record {
        scancode = scancode;
        parity_error = if hweight8 scancode % 2 == 1 then not flag else flag;
      }

  -- The bytes that wait in the port; the answer says whether there was any.
  unfoldable pub ps2_rxint : List Frame → List Delivery × Bool
  ps2_rxint [] = ([], false)
  ps2_rxint (f ∷ fs) = (receive f ∷ map receive fs, true)

-- The answer of the function and the port.
unfoldable pub ps2_open : ℕ → ℕ → Port → ℕ × Port
ps2_open rx tx p =
    if not (rx == 0)
    then (rx, p)
    else if not (tx == 0)
    then (tx, record p { rx_claimed = false })
    else (
      0,
      record p {
        rx_claimed = true;
        tx_claimed = true;
        tx_enabled = true;
        is_open = true;
        control = true;
      },
    )

unfoldable pub ps2_close : Port → Port
ps2_close p = record p { control = false; is_open = false; tx_claimed = false; rx_claimed = false }

-- `while (maxread--)`: how many reads of the port are made, where `reads` has what they give.
unfoldable pub ps2_clear_input : ℕ → List ℕ → ℕ
ps2_clear_input zero reads = 0
ps2_clear_input (suc maxread) [] = 0
ps2_clear_input (suc maxread) (r ∷ reads) =
    let rest = suc (ps2_clear_input maxread reads) in if r % 256 == 255 then 1 else rest

-- The two lines that `ps2_test_one` reads back.
pub record Lines : Type 0 where
  pub clock : Bool
  pub data_line : Bool

-- Whether the test of the interface passes: the lines with the clock forced, with none, with the data
-- forced.
unfoldable pub ps2_test : Lines → Lines → Lines → Bool
ps2_test forced_clock free forced_data =
    let first = not forced_clock.clock && forced_clock.data_line in
    let second = free.clock && free.data_line in
    let third = forced_data.clock && not forced_data.data_line in first && (second && third)

-- What `ps2_probe` holds at its end: its two structures, and whether the port is registered.
pub record Probed : Type 0 where
  pub ret : ℕ
  pub structures : ℕ
  pub registered : Bool

-- `got_port` and `got_serio` are the answers of `kmalloc`; `enomem` and `enodev` are the errors.
unfoldable pub ps2_probe : ℕ → ℕ → Bool → Bool → Bool → Probed
ps2_probe enomem enodev got_port got_serio tested =
    if not got_port || not got_serio
    then record { ret = enomem; structures = 0; registered = false }
    else if not tested
    then record { ret = enodev; structures = 0; registered = false }
    else record { ret = 0; structures = 2; registered = true }
