-- ===== src/Psmouse/Stream.antt =====
-- The byte stream of psmouse-base.c: `psmouse_interrupt` and `psmouse_set_state`.
use jornada.Common.{
  ℕ, ◌+◌, Bool, true, false, not, ◌&&◌, ◌||◌, List, [], ◌∷◌, ◌++◌, if◌then◌else◌, ◌==◌, get_or, set,
  u8, u32,
}
use jornada.Psmouse.Packet.{
  Protocol, is_synaptics, Report, Verdict, bad_data, good_data, full_packet, psmouse_process_byte,
}

-- enum psmouse_state, without the wrap-around of the first name
pub data MouseState : Type 0 where
  ignoring initializing cmd_mode activated : MouseState

abbrev pub is_ignoring : MouseState → Bool
is_ignoring ignoring = true
is_ignoring _ = false

abbrev pub is_initializing : MouseState → Bool
is_initializing initializing = true
is_initializing _ = false

abbrev pub is_activated : MouseState → Bool
is_activated activated = true
is_activated _ = false

-- The fields of `struct psmouse` that the stream is read by. `expecting` is `ps2dev.flags`, true where
-- an acknowledgement or a response is awaited.
pub record Mouse : Type 0 where
  pub state : MouseState
  pub type : Protocol
  pub pktsize : ℕ
  pub pktcnt : ℕ
  pub packet : List ℕ
  pub out_of_sync : ℕ
  pub resetafter : ℕ
  pub expecting : Bool

-- One interrupt: the byte, SERIO_PARITY or SERIO_TIMEOUT, whether `ps2_handle_ack` or
-- `ps2_handle_response` take the byte where one is awaited, and whether half a second has passed
-- since the last byte.
pub record Input : Type 0 where
  pub byte : ℕ
  pub damaged : Bool
  pub taken : Bool
  pub late : Bool

-- What an interrupt does besides the new state: reports, `serio_reconnect`, `ps2_cmd_aborted`.
pub record Effect : Type 0 where
  pub reported : List Report
  pub reconnect : Bool
  pub aborted : Bool

abbrev pub no_effect : Effect
no_effect = record { reported = []; reconnect = false; aborted = false }

-- `psmouse->protocol_handler`, from the number of bytes and the packet.
abbrev pub Handler : Type 0
Handler = Mouse → Verdict × List Report × List ℕ

abbrev pub byte_handler : Handler
byte_handler m = psmouse_process_byte m.type m.pktcnt m.pktsize m.packet

abbrev pub ret_bat : ℕ
ret_bat = 0xaa

abbrev pub ret_id : ℕ
ret_id = 0x00

unfoldable pub psmouse_set_state : Mouse → MouseState → Mouse
psmouse_set_state m s = record m { state = s; pktcnt = 0; out_of_sync = 0; expecting = false }

-- The `switch` on the handler's verdict.
unfoldable pub on_verdict : Mouse → Verdict → List Report → Mouse × Effect
on_verdict m bad_data rs =
    let out = u32 (m.out_of_sync + 1) in
    if out == m.resetafter
    then (
      record m { pktcnt = 0; out_of_sync = out; state = ignoring },
      record { reported = rs; reconnect = true; aborted = false },
    )
    else (
      record m { pktcnt = 0; out_of_sync = out },
      record { reported = rs; reconnect = false; aborted = false },
    )
on_verdict m full_packet rs = (
  record m { pktcnt = 0; out_of_sync = 0 },
  record { reported = rs; reconnect = false; aborted = false },
)
on_verdict m good_data rs = (m, record { reported = rs; reconnect = false; aborted = false })

unfoldable pub handle : Handler → Mouse → Mouse × Effect
handle handler m =
    let (verdict, rs, packet) = handler m in on_verdict (record m { packet = packet }) verdict rs

-- A byte that belongs to a packet.
unfoldable pub accept : Handler → Mouse → ℕ → Mouse × Effect
accept handler m byte =
    let stored = record m { packet = set m.packet m.pktcnt byte; pktcnt = u8 (m.pktcnt + 1) } in
    let first = get_or stored.packet 0 0 in
    let second = get_or stored.packet 1 0 in
    if first == ret_bat && stored.pktcnt == 1
    then (stored, no_effect)
    else if first == ret_bat && stored.pktcnt == 2 && second == ret_id
    then (
      record stored { state = ignoring },
      record { reported = []; reconnect = true; aborted = false },
    )
    else if first == ret_bat && stored.pktcnt == 2 && is_synaptics stored.type
    then (record stored { pktcnt = 0 }, no_effect)
    else handle handler stored

unfoldable pub psmouse_interrupt : Handler → Mouse → Input → Mouse × Effect
psmouse_interrupt handler m i =
    let fresh = record m { pktcnt = 0 } in
    if is_ignoring m.state
    then (m, no_effect)
    else if i.damaged
    then (m, record { reported = []; reconnect = false; aborted = true })
    else if (m.expecting && i.taken) || is_initializing m.state
    then (m, no_effect)
    else if is_activated m.state && not (m.pktcnt == 0) && i.late
    then accept handler fresh i.byte
    else accept handler m i.byte

-- A run of interrupts, with all that is reported.
unfoldable pub run : Handler → Mouse → List Input → Mouse × List Report
run handler m [] = (m, [])
run handler m (i ∷ is) =
    let (m', e) = psmouse_interrupt handler m i in
    let (m'', rs) = run handler m' is in (m'', e.reported ++ rs)
