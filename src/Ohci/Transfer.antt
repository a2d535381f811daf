-- ===== src/Ohci/Transfer.antt =====
-- The transfers of linux/kernel/drivers/usb/host/usb-ohci.c: how many transfer descriptors (TDs)
-- `sohci_submit_urb` takes for a request, and how `td_fill` and `td_submit_urb` fill and queue them. The
-- numbers are those of usb-ohci.h.
use jornada.Common.{
  ℕ, zero, suc, ◌+◌, ◌-◌, ◌*◌, ◌/◌, ◌%◌, Bool, true, false, not, ◌&&◌, List, [], ◌∷◌, Option, none,
  some, if◌then◌else◌, ◌==◌, ltb, leb, length, get_or, set, u16, u32,
}
use jornada.Common.Bits.{lor}

pub data PipeType : Type 0 where
  pipe_isochronous : PipeType
  pipe_interrupt : PipeType
  pipe_control : PipeType
  pipe_bulk : PipeType

-- The fields of a `struct urb` that a transfer reads. `zero_packet` is USB_ZERO_PACKET; the packets of an
-- isochronous request are pairs of an offset and a length.
pub record Urb : Type 0 where
  pub out : Bool
  pub transfer_buffer_length : ℕ
  pub zero_packet : Bool
  pub packets : List (ℕ × ℕ)
  pub start_frame : ℕ

-- Whether a bulk request ends with an empty packet.
abbrev pub wants_empty : ℕ → Urb → Bool
wants_empty maxps u =
    u.zero_packet
    && (u.out && (not (u.transfer_buffer_length == 0) && u.transfer_buffer_length % maxps == 0))

-- `size` of `sohci_submit_urb`; none for -EINVAL. The division of -1 by 4096 is 0 in C.
unfoldable pub td_count : ℕ → Urb → PipeType → Option ℕ
td_count maxps u pipe_bulk =
    let size =
      (if u.transfer_buffer_length == 0 then 0 else (u.transfer_buffer_length - 1) / 4096) + 1 in
    some (if wants_empty maxps u then size + 1 else size)
td_count maxps u pipe_isochronous = if length u.packets == 0 then none else some (length u.packets)
td_count maxps u pipe_control =
    some (if u.transfer_buffer_length == 0 then 2 else (u.transfer_buffer_length - 1) / 4096 + 3)
td_count maxps u pipe_interrupt = some 1

-- A TD as `td_fill` leaves it: the TD, the one that it links to, and what the controller reads.
pub record Filled : Type 0 where
  pub td : ℕ
  pub next_td : ℕ
  pub info : ℕ
  pub cbp : ℕ
  pub be : ℕ
  pub psw : ℕ
  pub data_dma : ℕ
  pub index : ℕ

-- What `td_fill` changes: the dummy TD at the tail of the endpoint's queue, the TDs of the request, those
-- that are filled, the latest first, and the last isochronous frame.
pub record Queue : Type 0 where
  pub tail : ℕ
  pub tds : List ℕ
  pub filled : List Filled
  pub last_iso : ℕ

abbrev is_iso : PipeType → Bool
is_iso pipe_isochronous = true
is_iso _ = false

-- `a | b`, on words of 32 bits.
unfoldable pub bits_or : ℕ → ℕ → ℕ
bits_or = lor 32

unfoldable pub psw_word : ℕ → ℕ
psw_word start = lor 16 (start % 4096) 0xE000

-- The old dummy is filled, and the TD of the request becomes the next dummy.
unfoldable pub td_fill : PipeType → (info buffer len index : ℕ) → Queue → Queue
td_fill pipe info buffer len index q =
    let next = get_or q.tds index 0 in
    let start = if len == 0 then 0 else buffer in
    let f : Filled = record {
      td = q.tail;
      next_td = next;
      info = info;
      cbp = if is_iso pipe then start / 4096 * 4096 else start;
      be = if start == 0 then 0 else u32 (start + len - 1);
      psw = psw_word start;
      data_dma = buffer;
      index = index % 256;
    } in
    if leb (length q.tds) index then q else record q {
      tail = next;
      tds = set q.tds index q.tail;
      filled = f ∷ q.filled;
      last_iso = if is_iso pipe then u16 info else q.last_iso;
    }

abbrev pub td_cc : ℕ
td_cc = 0xf0000000

abbrev pub td_r : ℕ
td_r = 0x00040000

abbrev pub dp_in : ℕ
dp_in = 0x00100000

abbrev pub dp_out : ℕ
dp_out = 0x00080000

abbrev pub data0 : ℕ
data0 = 0x02000000

abbrev pub data1 : ℕ
data1 = 0x03000000

abbrev pub td_iso : ℕ
td_iso = 0x00010000

-- TD_T_TOGGLE is 0; the first TD has the toggle that is given.
abbrev pub toggled : (info toggle cnt : ℕ) → ℕ
toggled info toggle cnt = bits_or info (if cnt == 0 then toggle else 0)

-- Where a loop over a buffer stands.
pub record Cursor : Type 0 where
  pub buffer : ℕ
  pub data_len : ℕ
  pub cnt : ℕ
  pub queue : Queue

-- The loop over the pieces of 4096 bytes of a bulk request.
unfoldable pub bulk_loop : (info toggle : ℕ) → ℕ → Cursor → Cursor
unfolding td_fill
bulk_loop info toggle zero c = c
bulk_loop info toggle (suc f) c =
    let rest = bulk_loop info toggle f (record {
      buffer = u32 (c.buffer + 4096);
      data_len = c.data_len - 4096;
      cnt = c.cnt + 1;
      queue = td_fill pipe_bulk (toggled info toggle c.cnt) c.buffer 4096 c.cnt c.queue;
    }) in
    if ltb 4096 c.data_len then rest else c

-- The loop over the packets of an isochronous request.
unfoldable pub iso_loop : (buffer start_frame : ℕ) → List (ℕ × ℕ) → ℕ → Queue → ℕ × Queue
unfolding td_fill
iso_loop buffer start_frame [] cnt q = (cnt, q)
iso_loop buffer start_frame ((offset, len) ∷ packets) cnt q =
    iso_loop buffer start_frame packets (cnt + 1) (
      td_fill pipe_isochronous (bits_or (bits_or td_cc td_iso) (u16 (start_frame + cnt)))
        (u32 (buffer + offset)) len cnt q)

-- After the loop of a bulk request: its last piece, and the empty packet if it wants one.
unfoldable pub bulk_end : (maxps info toggle : ℕ) → Urb → Cursor → ℕ × Queue
unfolding td_fill
bulk_end maxps info toggle u c =
    let q = td_fill pipe_bulk (toggled info toggle c.cnt) c.buffer c.data_len c.cnt c.queue in
    if wants_empty maxps u
    then (c.cnt + 2, td_fill pipe_bulk (toggled info toggle (c.cnt + 1)) 0 0 (c.cnt + 1) q)
    else (c.cnt + 1, q)

-- All but the last piece of a bulk request.
abbrev pub bulk_pieces : (mapped toggle : ℕ) → Urb → Queue → Cursor
bulk_pieces mapped toggle u q =
    bulk_loop (bits_or td_cc (if u.out then dp_out else dp_in)) toggle u.transfer_buffer_length
      (record {
        buffer = if u.transfer_buffer_length == 0 then 0 else mapped;
        data_len = u.transfer_buffer_length;
        cnt = 0;
        queue = q;
      })

-- `td_submit_urb`: `mapped` and `setup` are the mapped addresses of the buffer and of the setup packet, `old_toggle`
-- the toggle bit of the endpoint. Answers `cnt` with the queue.
unfoldable pub td_submit :
    (maxps mapped setup : ℕ) (old_toggle : Bool) → Urb → PipeType → Queue → ℕ × Queue
unfolding bulk_loop bulk_end iso_loop td_fill
td_submit maxps mapped setup old_toggle u pipe_bulk q =
    let toggle = if old_toggle then 0 else data0 in
    let last = if u.out then bits_or td_cc dp_out else bits_or (bits_or td_cc td_r) dp_in in
    bulk_end maxps last toggle u (bulk_pieces mapped toggle u q)
td_submit maxps mapped setup old_toggle u pipe_interrupt q =
    let toggle = if old_toggle then 0 else data0 in
    let buffer = if u.transfer_buffer_length == 0 then 0 else mapped in
    let info = if u.out then bits_or td_cc dp_out else bits_or (bits_or td_cc td_r) dp_in in
    (1, td_fill pipe_interrupt (bits_or info toggle) buffer u.transfer_buffer_length 0 q)
td_submit maxps mapped setup old_toggle u pipe_control q =
    let buffer = if u.transfer_buffer_length == 0 then 0 else mapped in
    let len = u.transfer_buffer_length in
    let asked = td_fill pipe_control (bits_or td_cc data0) setup 8 0 q in
    let moved =
      td_fill pipe_control
        (bits_or (bits_or (bits_or td_cc td_r) (if u.out then dp_out else dp_in)) data1) buffer len
        1 asked in
    let status = bits_or (bits_or td_cc (if u.out then dp_in else dp_out)) data1 in
    if ltb 0 len
    then (3, td_fill pipe_control status buffer 0 2 moved)
    else (2, td_fill pipe_control status buffer 0 1 asked)
td_submit maxps mapped setup old_toggle u pipe_isochronous q =
    let buffer = if u.transfer_buffer_length == 0 then 0 else mapped in
    iso_loop buffer u.start_frame u.packets 0 q
