-- ===== src/Psmouse/Packet.antt =====
-- The packets of psmouse-base.c: `psmouse_process_byte`.
use jornada.Common.{
  ℕ, ◌-◌, ◌%◌, Bool, true, false, ◌&&◌, ◌||◌, List, [], ◌∷◌, ◌++◌, if◌then◌else◌, ◌==◌, ltb, get_or,
  set,
}
use jornada.Common.Int.{ℤ, pos, sub_ℕ}
use jornada.Common.Bits.{bit, set_bit}

-- The protocols that `psmouse->type` names, in the order of their numbers.
pub data Protocol : Type 0 where
  ps2 ps2pp thinkps genps imps imex synaptics alps : Protocol

abbrev pub is_imps : Protocol → Bool
is_imps imps = true
is_imps _ = false

abbrev pub is_imex : Protocol → Bool
is_imex imex = true
is_imex _ = false

abbrev pub is_genps : Protocol → Bool
is_genps genps = true
is_genps _ = false

abbrev pub is_thinkps : Protocol → Bool
is_thinkps thinkps = true
is_thinkps _ = false

abbrev pub is_synaptics : Protocol → Bool
is_synaptics synaptics = true
is_synaptics _ = false

pub data Axis : Type 0 where
  rel_x rel_y rel_wheel : Axis

pub data Button : Type 0 where
  btn_left btn_middle btn_right btn_side btn_extra : Button

-- What goes to the input layer, in order.
pub data Report : Type 0 where
  rel : Axis → ℤ → Report
  key : Button → Bool → Report

-- -(signed char) b
abbrev pub minus_signed_char : ℕ → ℤ
minus_signed_char b = if ltb b 128 then sub_ℕ 0 b else sub_ℕ (256 - b) 0

-- `(packet[0] << 4) & 0x100` and `(packet[0] << 3) & 0x100`: bit 4 and bit 5 of the first byte.
abbrev pub sign_of : Bool → ℕ
sign_of b = if b then 256 else 0

abbrev pub wheel_reports : Protocol → ℕ → List Report
wheel_reports p b = if is_imps p || is_genps p then rel rel_wheel (minus_signed_char b) ∷ [] else []

-- `(packet[3] & 8) - (packet[3] & 7)`
abbrev pub explorer_reports : Protocol → ℕ → List Report
explorer_reports p b =
    if is_imex p
    then rel rel_wheel (sub_ℕ (if bit b 3 then 8 else 0) (b % 8))
      ∷ key btn_side (bit b 4)
      ∷ key btn_extra (bit b 5)
      ∷ []
    else []

abbrev pub netmouse_reports : Protocol → ℕ → List Report
netmouse_reports p b =
    if is_genps p then key btn_side (bit b 6) ∷ key btn_extra (bit b 7) ∷ [] else []

abbrev pub thinking_reports : Protocol → ℕ → List Report
thinking_reports p b = if is_thinkps p then key btn_extra (bit b 3) ∷ [] else []

-- `packet[1] |= (packet[0] & 0x40) << 1`
abbrev pub second_byte : Protocol → ℕ → ℕ → ℕ
second_byte p b0 b1 = if is_thinkps p && bit b0 6 then set_bit b1 7 else b1

abbrev pub motion_x : ℕ → ℕ → ℤ
motion_x b0 b1 = if b1 == 0 then pos 0 else sub_ℕ b1 (sign_of (bit b0 4))

abbrev pub motion_y : ℕ → ℕ → ℤ
motion_y b0 b2 = if b2 == 0 then pos 0 else sub_ℕ (sign_of (bit b0 5)) b2

-- The reports of a full packet. A byte past those received is the old content of the array.
unfoldable pub reports : Protocol → List ℕ → List Report
reports p packet =
    let b0 = get_or packet 0 0 in
    let b1 = second_byte p b0 (get_or packet 1 0) in
    let b2 = get_or packet 2 0 in
    let b3 = get_or packet 3 0 in
    wheel_reports p b3
    ++ (explorer_reports p b3
        ++ (netmouse_reports p b0
            ++ (thinking_reports p b0
                ++ (key btn_left (bit b0 0)
                    ∷ key btn_middle (bit b0 2)
                    ∷ key btn_right (bit b0 1)
                    ∷ rel rel_x (motion_x b0 b1)
                    ∷ rel rel_y (motion_y b0 b2)
                    ∷ []))))

-- psmouse_ret_t
pub data Verdict : Type 0 where
  bad_data good_data full_packet : Verdict

-- The verdict, what is reported, and the packet as it is left.
unfoldable pub psmouse_process_byte : Protocol → ℕ → ℕ → List ℕ → Verdict × List Report × List ℕ
psmouse_process_byte p pktcnt pktsize packet =
    if ltb pktcnt pktsize then (good_data, [], packet) else (
      full_packet,
      reports p packet,
      set packet 1 (second_byte p (get_or packet 0 0) (get_or packet 1 0)),
    )
