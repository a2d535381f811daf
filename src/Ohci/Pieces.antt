-- ===== src/Ohci/Pieces.antt =====
-- The TDs that linux/kernel/drivers/usb/host/usb-ohci.c fills: their links, and the bytes of a bulk
-- request that they cover.
use jornada.Common.{
  ℕ, zero, suc, ◌+◌, ◌/◌, ◌^◌, ◌≡◌, ◌≤◌, ◌<◌, Bool, true, false, List, [], ◌∷◌, some, if◌then◌else◌,
  ◌==◌, ltb, leb, length, u32, arith, Bool-cases, inl, inr, refl, length-set,
}
use jornada.Common.Bits.{bit}
use jornada.Ohci.Transfer.{
  PipeType, pipe_isochronous, pipe_interrupt, pipe_control, pipe_bulk, Urb, Filled, Queue, Cursor,
  wants_empty, td_count, td_fill, bulk_loop, iso_loop, bulk_end, td_submit, toggled, data0, td_cc,
  td_r, dp_in, dp_out, data1, bits_or, bulk_pieces,
}

-- The TDs, the latest first, lead by their links from the first dummy to the last.
abbrev pub Links : ℕ → List Filled → ℕ → Type 0
Links first [] last = last ≡ first
Links first (f ∷ fs) last = (f.next_td ≡ last) × Links first fs f.td

abbrev pub IsLinked : ℕ → Queue → Type 0
IsLinked first q = Links first q.filled q.tail

td_fill-IsLinked :
    (first : ℕ) (pipe : PipeType) (info buffer len index : ℕ) (q : Queue)
    → IsLinked first q
    → IsLinked first (td_fill pipe info buffer len index q)
unfolding td_fill
td_fill-IsLinked first pipe info buffer len index q h =
    elim (Bool-cases (leb (length q.tds) index)) [ inl e ↦ rw e h | inr e ↦ rw e (refl, h) ]

bulk_loop-IsLinked :
    (first info toggle f : ℕ) (c : Cursor)
    → IsLinked first c.queue
    → IsLinked first (bulk_loop info toggle f c).queue
unfolding bulk_loop
bulk_loop-IsLinked first info toggle zero c h = h
bulk_loop-IsLinked first info toggle (suc f) c h = elim (Bool-cases (ltb 4096 c.data_len)) [
  | inl e ↦ rw e (
      bulk_loop-IsLinked first info toggle f _ (
        td_fill-IsLinked first pipe_bulk (toggled info toggle c.cnt) c.buffer 4096 c.cnt c.queue h))
  | inr e ↦ rw e h
]

bulk_end-IsLinked :
    (first maxps info toggle : ℕ) (u : Urb) (c : Cursor)
    → IsLinked first c.queue
    → IsLinked first (bulk_end maxps info toggle u c).1
unfolding bulk_end
bulk_end-IsLinked first maxps info toggle u c h =
    let q = td_fill pipe_bulk (toggled info toggle c.cnt) c.buffer c.data_len c.cnt c.queue in
    let piece : IsLinked first q =
      td_fill-IsLinked first pipe_bulk (toggled info toggle c.cnt) c.buffer c.data_len c.cnt c.queue
        h in
    elim (Bool-cases (wants_empty maxps u)) [
      | inl e ↦ rw e (
          td_fill-IsLinked first pipe_bulk (toggled info toggle (c.cnt + 1)) 0 0 (c.cnt + 1) q
            piece)
      | inr e ↦ rw e piece
    ]

iso_loop-IsLinked :
    (first buffer start_frame : ℕ) (packets : List (ℕ × ℕ)) (cnt : ℕ) (q : Queue)
    → IsLinked first q
    → IsLinked first (iso_loop buffer start_frame packets cnt q).1
unfolding iso_loop
iso_loop-IsLinked first buffer start_frame [] cnt q h = h
iso_loop-IsLinked first buffer start_frame ((offset, len) ∷ packets) cnt q h =
    iso_loop-IsLinked first buffer start_frame packets (cnt + 1) _
      (td_fill-IsLinked first pipe_isochronous _ (u32 (buffer + offset)) len cnt q h)

-- Each submission.
td_submit-IsLinked :
    (first maxps mapped setup : ℕ) (old_toggle : Bool) (u : Urb) (pipe : PipeType) (q : Queue)
    → IsLinked first q
    → IsLinked first (td_submit maxps mapped setup old_toggle u pipe q).1
unfolding td_submit
td_submit-IsLinked first maxps mapped setup old_toggle u pipe_bulk q h =
    let toggle = if old_toggle then 0 else data0 in
    bulk_end-IsLinked first maxps _ toggle u (bulk_pieces mapped toggle u q)
      (bulk_loop-IsLinked first _ toggle u.transfer_buffer_length _ h)
td_submit-IsLinked first maxps mapped setup old_toggle u pipe_isochronous q h =
    iso_loop-IsLinked first _ u.start_frame u.packets 0 q h
td_submit-IsLinked first maxps mapped setup old_toggle u pipe_control q h =
    let len = u.transfer_buffer_length in
    let buffer = if len == 0 then 0 else mapped in
    let asked = td_fill pipe_control (bits_or td_cc data0) setup 8 0 q in
    let asked_linked : IsLinked first asked =
      td_fill-IsLinked first pipe_control (bits_or td_cc data0) setup 8 0 q h in
    let info = bits_or (bits_or (bits_or td_cc td_r) (if u.out then dp_out else dp_in)) data1 in
    let status = bits_or (bits_or td_cc (if u.out then dp_in else dp_out)) data1 in
    let moved = td_fill pipe_control info buffer len 1 asked in
    let moved_linked : IsLinked first moved =
      td_fill-IsLinked first pipe_control info buffer len 1 asked asked_linked in
    elim (Bool-cases (ltb 0 len)) [
      | inl e ↦ rw e (td_fill-IsLinked first pipe_control status buffer 0 2 moved moved_linked)
      | inr e ↦ rw e (td_fill-IsLinked first pipe_control status buffer 0 1 asked asked_linked)
    ]
td_submit-IsLinked first maxps mapped setup old_toggle u pipe_interrupt q h =
    td_fill-IsLinked first pipe_interrupt _ _ u.transfer_buffer_length 0 q h

-- The TDs of a bulk request, the latest first, take the bytes from the first address up to the last, each
-- from where the one before it ends, at most 4096 at a time; they are not isochronous, and keep their address.
abbrev pub Covers : ℕ → List Filled → ℕ → Type 0
Covers from [] upto = upto ≡ from
Covers from (f ∷ fs) upto =
    (f.be + 1 ≡ upto)
    × (f.cbp < upto)
    × (upto ≤ f.cbp + 4096)
    × (f.data_dma ≡ f.cbp)
    × (bit f.info 16 ≡ false)
    × Covers from fs f.cbp

-- A cursor with bytes left, and with TDs for them.
record IsOnTheWay (from upto : ℕ) (c : Cursor) : Type 0 where
  covered : Covers from c.queue.filled c.buffer
  ahead : c.buffer + c.data_len ≡ upto
  bytes : 0 < c.data_len
  mapped : 0 < c.buffer
  word : upto ≤ 2 ^ 32
  room : c.cnt + (c.data_len + 4095) / 4096 ≤ length c.queue.tds

td_fill-Covers :
    (from info buffer len index : ℕ) (q : Queue)
    → Covers from q.filled buffer
    → 0 < buffer
    → 0 < len
    → len ≤ 4096
    → buffer + len ≤ 2 ^ 32
    → index < length q.tds
    → bit info 16 ≡ false
    → Covers from (td_fill pipe_bulk info buffer len index q).filled (buffer + len)
      × (length (td_fill pipe_bulk info buffer len index q).tds ≡ length q.tds)
unfolding td_fill
td_fill-Covers from info buffer len index q h pos some' short word room plain =
    let inside : leb (length q.tds) index ≡ false = ground (arith, room) in
    let bytes : (len == 0) ≡ false = ground (arith, some') in
    let address : (buffer == 0) ≡ false = ground (arith, pos) in
    rw (inside, bytes, address)
      ((omega arith, omega arith, omega arith, refl, plain, h), length-set q.tds index q.tail)

bulk_loop-IsOnTheWay :
    (from upto info toggle f : ℕ) (c : Cursor)
    → c.data_len ≤ f
    → IsOnTheWay from upto c
    → ((cnt : ℕ) → bit (toggled info toggle cnt) 16 ≡ false)
    → IsOnTheWay from upto (bulk_loop info toggle f c)
      × ((bulk_loop info toggle f c).data_len ≤ 4096)
unfolding bulk_loop
bulk_loop-IsOnTheWay from upto info toggle zero c h w plain = absurd (omega (arith, h, w.bytes))
bulk_loop-IsOnTheWay from upto info toggle (suc f) c h w plain =
    elim (Bool-cases (ltb 4096 c.data_len)) [
      | inr last ↦ rw last (w, ground (arith, last))
      | inl more ↦
          let long : 4096 < c.data_len = ground (arith, more) in
          let (covered, kept) =
            td_fill-Covers from (toggled info toggle c.cnt) c.buffer 4096 c.cnt c.queue w.covered
              w.mapped (omega arith) (omega arith) (omega (arith, w.ahead, w.word))
              (omega (arith, w.room)) (plain c.cnt) in
          let wrap : u32 (c.buffer + 4096) ≡ c.buffer + 4096 = omega (arith, w.ahead, w.word) in
          rw (more, wrap)
            (bulk_loop-IsOnTheWay from upto info toggle f _ (omega arith)
              (record {
                covered = covered;
                ahead = omega (arith, w.ahead);
                bytes = omega arith;
                mapped = omega arith;
                word = w.word;
                room = omega (arith, w.room, kept);
              })
              plain)
    ]

bulk_end-Covers :
    (from upto maxps info toggle : ℕ) (u : Urb) (c : Cursor)
    → IsOnTheWay from upto c
    → c.data_len ≤ 4096
    → wants_empty maxps u ≡ false
    → ((cnt : ℕ) → bit (toggled info toggle cnt) 16 ≡ false)
    → Covers from (bulk_end maxps info toggle u c).1.filled upto
unfolding bulk_end
bulk_end-Covers from upto maxps info toggle u c w short full plain =
    let last =
      td_fill-Covers from (toggled info toggle c.cnt) c.buffer c.data_len c.cnt c.queue w.covered
        w.mapped w.bytes short (omega (arith, w.ahead, w.word)) (omega (arith, w.room, w.bytes))
        (plain c.cnt) in
    rw (full, ← w.ahead) last.0

-- The word of a bulk TD is not that of an isochronous one.
bulk_info-plain :
    (out old_toggle is_first : Bool)
    → let toggle = if is_first then (if old_toggle then 0 else data0) else 0 in
      (bit (bits_or (bits_or td_cc (if out then dp_out else dp_in)) toggle) 16 ≡ false)
      × (bit
            (bits_or
              (if out then bits_or td_cc dp_out else bits_or (bits_or td_cc td_r) dp_in)
              toggle)
            16
          ≡ false)
unfolding bits_or
bulk_info-plain true true true = (refl, refl)
bulk_info-plain true true false = (refl, refl)
bulk_info-plain true false true = (refl, refl)
bulk_info-plain true false false = (refl, refl)
bulk_info-plain false true true = (refl, refl)
bulk_info-plain false true false = (refl, refl)
bulk_info-plain false false true = (refl, refl)
bulk_info-plain false false false = (refl, refl)

-- For a bulk request of at least one byte at a mapped address within 32 bits, without an empty
-- packet at its end, and with as many TDs as `td_count` says, the filled TDs cover its bytes from
-- the first to the last, each from where the one before it ends, at most 4096 bytes at a time.
pub td_submit-Covers :
    (maxps mapped setup : ℕ) (old_toggle : Bool) (u : Urb) (q : Queue)
    → 0 < mapped
    → 0 < u.transfer_buffer_length
    → mapped + u.transfer_buffer_length ≤ 2 ^ 32
    → wants_empty maxps u ≡ false
    → q.filled ≡ []
    → td_count maxps u pipe_bulk ≡ some (length q.tds)
    → Covers mapped
        (td_submit maxps mapped setup old_toggle u pipe_bulk q).1.filled
        (mapped + u.transfer_buffer_length)
unfolding td_submit td_count
td_submit-Covers maxps mapped setup old_toggle u q pos some' word full fresh count =
    let toggle = if old_toggle then 0 else data0 in
    let len = u.transfer_buffer_length in
    let upto : ℕ = mapped + len in
    let bytes : (len == 0) ≡ false = ground (arith, some') in
    let room : (len + 4095) / 4096 ≤ length q.tds = ground (arith, count, full, bytes, some') in
    let c : Cursor = record {
      buffer = if len == 0 then 0 else mapped;
      data_len = len;
      cnt = 0;
      queue = q;
    } in
    let begin : IsOnTheWay mapped upto c = record {
      covered = rw (bytes, fresh) refl;
      ahead = rw bytes refl;
      bytes = some';
      mapped = rw bytes pos;
      word = word;
      room = omega (arith, room);
    } in
    let (way, short) =
      bulk_loop-IsOnTheWay mapped upto _ toggle len c (omega arith) begin
        (λ cnt. (bulk_info-plain u.out old_toggle (cnt == 0)).0) in
    bulk_end-Covers mapped upto maxps _ toggle u (bulk_pieces mapped toggle u q) way short full
      (λ cnt. (bulk_info-plain u.out old_toggle (cnt == 0)).1)
