-- ===== src/Ohci/Counts.antt =====
-- The TDs of a request of linux/kernel/drivers/usb/host/usb-ohci.c: as many are filled as were taken, they
-- form the tail of the queue, and those of a bulk request cover its buffer.
use jornada.Common.{
  ℕ, zero, suc, ◌+◌, ◌-◌, ◌/◌, ◌≡◌, ◌≢◌, ◌≤◌, ◌⊎◌, ◌↔◌, Bool, List, [], ◌∷◌, some, if◌then◌else◌,
  ◌==◌, ltb, length, u32, arith, Bool-cases, inl, inr, refl, ap, ◌∙◌,
}
use jornada.Ohci.Transfer.{
  PipeType, pipe_isochronous, pipe_interrupt, pipe_control, pipe_bulk, Urb, Queue, Cursor,
  wants_empty, td_count, td_fill, bulk_loop, iso_loop, bulk_end, td_submit, data0, bulk_pieces,
}

-- The loop of a bulk request ends: one turn for each 4096 bytes before the last piece.
bulk_loop-cnt :
    (info toggle f : ℕ) (c : Cursor)
    → c.data_len ≤ f
    → (bulk_loop info toggle f c).cnt
      ≡ c.cnt + (if c.data_len == 0 then 0 else (c.data_len - 1) / 4096)
unfolding bulk_loop
bulk_loop-cnt info toggle zero c h = ground arith
bulk_loop-cnt info toggle (suc f) c h = elim (Bool-cases (ltb 4096 c.data_len)) [
  | inl more ↦ rw more (bulk_loop-cnt info toggle f _ (ground (arith, more)) ∙ ground (arith, more))
  | inr last ↦ rw last (ground (arith, last))
]

iso_loop-cnt :
    (buffer start_frame : ℕ) (packets : List (ℕ × ℕ)) (cnt : ℕ) (q : Queue)
    → (iso_loop buffer start_frame packets cnt q).0 ≡ cnt + length packets
unfolding iso_loop
iso_loop-cnt buffer start_frame [] cnt q = omega arith
iso_loop-cnt buffer start_frame ((offset, len) ∷ packets) cnt q = omega (
  arith,
  iso_loop-cnt buffer start_frame packets (cnt + 1)
      (td_fill pipe_isochronous _ (u32 (buffer + offset)) len cnt q),
)

bulk_end-cnt :
    (maxps info toggle : ℕ) (u : Urb) (c : Cursor)
    → (bulk_end maxps info toggle u c).0 ≡ c.cnt + (if wants_empty maxps u then 2 else 1)
unfolding bulk_end
bulk_end-cnt maxps info toggle u c = elim (Bool-cases (wants_empty maxps u)) [
  | inl e ↦ rw e refl
  | inr e ↦ rw e refl
]

bulk_pieces-cnt :
    (mapped toggle : ℕ) (u : Urb) (q : Queue)
    → (bulk_pieces mapped toggle u q).cnt
      ≡ (if u.transfer_buffer_length == 0 then 0 else (u.transfer_buffer_length - 1) / 4096)
bulk_pieces-cnt mapped toggle u q =
    bulk_loop-cnt _ toggle u.transfer_buffer_length _ (omega arith) ∙ omega arith

-- How many TDs a submission fills.
abbrev filled_count : ℕ → Urb → PipeType → ℕ
filled_count maxps u pipe_bulk =
    (if u.transfer_buffer_length == 0 then 0 else (u.transfer_buffer_length - 1) / 4096)
    + (if wants_empty maxps u then 2 else 1)
filled_count maxps u pipe_isochronous = length u.packets
filled_count maxps u pipe_control = if ltb 0 u.transfer_buffer_length then 3 else 2
filled_count maxps u pipe_interrupt = 1

td_submit-cnt :
    (maxps mapped setup : ℕ) (old_toggle : Bool) (u : Urb) (pipe : PipeType) (q : Queue)
    → (td_submit maxps mapped setup old_toggle u pipe q).0 ≡ filled_count maxps u pipe
unfolding td_submit
td_submit-cnt maxps mapped setup old_toggle u pipe_bulk q =
    let toggle = if old_toggle then 0 else data0 in
    bulk_end-cnt maxps _ toggle u (bulk_pieces mapped toggle u q)
    ∙ ap (λ (n : ℕ). n + (if wants_empty maxps u then 2 else 1)) (bulk_pieces-cnt mapped toggle u q)
td_submit-cnt maxps mapped setup old_toggle u pipe_isochronous q =
    iso_loop-cnt _ u.start_frame u.packets 0 q ∙ omega arith
td_submit-cnt maxps mapped setup old_toggle u pipe_control q =
    elim (Bool-cases (ltb 0 u.transfer_buffer_length)) [ inl e ↦ rw e refl | inr e ↦ rw e refl ]
td_submit-cnt maxps mapped setup old_toggle u pipe_interrupt q = refl

filled_count-td_count :
    (maxps : ℕ) (u : Urb) (pipe : PipeType) (size : ℕ)
    → td_count maxps u pipe ≡ some size
    → (filled_count maxps u pipe ≡ size)
      ↔ ((pipe ≢ pipe_control) ⊎ (u.transfer_buffer_length ≤ 4096))
unfolding td_count
filled_count-td_count maxps u pipe_bulk size e = (λ _. inl (cc), λ _. ground arith)
filled_count-td_count maxps u pipe_isochronous size e = (λ _. inl (cc), λ _. ground arith)
filled_count-td_count maxps u pipe_control size e = (λ h. inr (ground arith), λ h. ground arith)
filled_count-td_count maxps u pipe_interrupt size e = (λ _. inl (cc), λ _. ground arith)

-- Where `sohci_submit_urb` takes TDs for a request, `td_submit_urb` counts as many exactly if the
-- request is not a control transfer or has at most 4096 bytes.
pub td_submit-td_count :
    (maxps mapped setup : ℕ) (old_toggle : Bool) (u : Urb) (pipe : PipeType) (q : Queue) (size : ℕ)
    → td_count maxps u pipe ≡ some size
    → ((td_submit maxps mapped setup old_toggle u pipe q).0 ≡ size)
      ↔ ((pipe ≢ pipe_control) ⊎ (u.transfer_buffer_length ≤ 4096))
td_submit-td_count maxps mapped setup old_toggle u pipe q size e =
    let cnt = td_submit-cnt maxps mapped setup old_toggle u pipe q in
    rw cnt (filled_count-td_count maxps u pipe size e)
