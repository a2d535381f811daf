-- ===== src/Ohci/Length.antt =====
-- `dl_transfer_length` of linux/kernel/drivers/usb/host/usb-ohci.c: the length of a transfer from the TDs that
-- the controller has finished.
use jornada.Common.{
  ℕ, ◌+◌, ◌-◌, ◌/◌, ◌%◌, ◌^◌, Bool, true, false, not, ◌&&◌, ◌||◌, List, [], ◌∷◌, if◌then◌else◌,
  ◌==◌, ltb, get_or, set, u32,
}
use jornada.Common.Bits.{bit}
use jornada.Ohci.Transfer.{PipeType, pipe_control, Urb, Filled}

-- The fields of the request that change: its length, and for each packet of an isochronous one its length
-- and the condition code of its status.
pub record Progress : Type 0 where
  pub actual_length : ℕ
  pub frames : List (ℕ × ℕ)

abbrev is_control : PipeType → Bool
is_control pipe_control = true
is_control _ = false

-- The packet of an isochronous TD. `disable_spd` is USB_DISABLE_SPD, and 9 the code of a short packet.
unfoldable pub frame_length : (disable_spd : Bool) → Urb → Filled → Progress → Progress
frame_length disable_spd u t p =
    let cc = t.psw / 4096 % 16 in
    let dlen = if u.out then (get_or u.packets t.index (0, 0)).1 else t.psw % 1024 in
    let status = if not disable_spd && cc == 9 then 0 else cc in
    if ltb cc 14
    then record {
      actual_length = u32 (p.actual_length + dlen);
      frames = set p.frames t.index (dlen, status);
    }
    else p

-- `t` is the TD as the controller leaves it, bit 16 of its `info` TD_ISO, and `td_length` the number of the
-- request's TDs.
unfoldable pub dl_transfer_length :
    (disable_spd : Bool) → Urb → PipeType → (td_length : ℕ) → Filled → Progress → Progress
unfolding frame_length
dl_transfer_length disable_spd u pipe td_length t p =
    if bit t.info 16
    then frame_length disable_spd u t p
    else if is_control pipe && (t.index == 0 || t.index == td_length - 1)
    then p
    else if t.be == 0
    then p
    else if t.cbp == 0
    then record p { actual_length = u32 (p.actual_length + t.be + 2 ^ 32 - t.data_dma + 1) }
    else record p { actual_length = u32 (p.actual_length + t.cbp + 2 ^ 32 - t.data_dma) }

-- For the TDs of a request, the latest first.
unfoldable pub transfer_length :
    (disable_spd : Bool) → Urb → PipeType → (td_length : ℕ) → List Filled → Progress → Progress
unfolding dl_transfer_length
transfer_length disable_spd u pipe td_length [] p = p
transfer_length disable_spd u pipe td_length (t ∷ ts) p =
    dl_transfer_length disable_spd u pipe td_length t
      (transfer_length disable_spd u pipe td_length ts p)
