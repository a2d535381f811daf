-- ===== src/Ohci/Transferred.antt =====
-- From the TDs of a bulk request to the length that linux/kernel/drivers/usb/host/usb-ohci.c reports for it.
use jornada.Common.{
  ℕ, ◌+◌, ◌-◌, ◌^◌, ◌≡◌, ◌≤◌, ◌<◌, Bool, false, List, [], ◌∷◌, ◌++◌, some, ◌==◌, length, arith,
  refl, map, ◌∙◌,
}
use jornada.Common.Bits.{bit}
use jornada.Ohci.Transfer.{Urb, Filled, Queue, pipe_bulk, wants_empty, td_count, td_submit}
use jornada.Ohci.Pieces.{Covers, td_submit-Covers}
use jornada.Ohci.Length.{Progress, dl_transfer_length, transfer_length}

-- The controller has moved all of a TD: its pointer is 0.
abbrev pub all_moved : Filled → Filled
all_moved t = record t { cbp = 0 }

-- It stopped at an address inside a TD.
abbrev pub stopped_at : ℕ → Filled → Filled
stopped_at address t = record t { cbp = address }

abbrev nothing_yet : Progress
nothing_yet = record { actual_length = 0; frames = [] }

-- The length of a bulk request after some of its TDs.
abbrev pub moved : (disable_spd : Bool) → Urb → (td_length : ℕ) → List Filled → ℕ
moved disable_spd u td_length ts =
    (transfer_length disable_spd u pipe_bulk td_length ts nothing_yet).actual_length

Covers-le : (from : ℕ) (ts : List Filled) (upto : ℕ) → Covers from ts upto → from ≤ upto
Covers-le from [] upto c = omega (arith, c)
Covers-le from (t ∷ ts) upto (_, lt, _, _, _, c) = omega (arith, lt, Covers-le from ts t.cbp c)

module _ (disable_spd : Bool) (u : Urb) (td_length : ℕ) where
  dl_transfer_length-all :
      (t : Filled) (p : Progress) (at upto : ℕ)
      → bit t.info 16 ≡ false
      → t.be + 1 ≡ upto
      → t.data_dma ≡ at
      → at < upto
      → 0 < at
      → upto ≤ 2 ^ 32
      → p.actual_length + (upto - at) < 2 ^ 32
      → (dl_transfer_length disable_spd u pipe_bulk td_length (all_moved t) p).actual_length
        ≡ p.actual_length + (upto - at)
  unfolding dl_transfer_length
  dl_transfer_length-all t p at upto plain be dma lt pos word small =
      let some' : (t.be == 0) ≡ false = ground (arith, be, lt, pos) in
      rw (plain, some') (omega (arith, be, dma, lt, word, small))

  dl_transfer_length-stopped :
      (t : Filled) (p : Progress) (at address : ℕ)
      → bit t.info 16 ≡ false
      → (t.be == 0) ≡ false
      → t.data_dma ≡ at
      → at ≤ address
      → 0 < address
      → p.actual_length + (address - at) < 2 ^ 32
      → (dl_transfer_length disable_spd u pipe_bulk td_length
          (stopped_at address t)
          p).actual_length
        ≡ p.actual_length + (address - at)
  unfolding dl_transfer_length
  dl_transfer_length-stopped t p at address plain bytes dma le some' small =
      let not_null : (address == 0) ≡ false = ground (arith, some') in
      rw (plain, bytes, not_null) (omega (arith, dma, le, small))

  -- TDs that cover bytes and are all moved give the number of these bytes.
  transfer_length-all :
      (from : ℕ) (ts : List Filled) (upto : ℕ)
      → Covers from ts upto
      → 0 < from
      → upto ≤ 2 ^ 32
      → moved disable_spd u td_length (map all_moved ts) ≡ upto - from
  unfolding transfer_length
  transfer_length-all from [] upto c pos word = omega (arith, c)
  transfer_length-all from (t ∷ ts) upto (be, lt, _, dma, plain, c) pos word =
      let older =
        transfer_length disable_spd u pipe_bulk td_length (map all_moved ts) nothing_yet in
      let le = Covers-le from ts t.cbp c in
      let before = transfer_length-all from ts t.cbp c pos (omega (arith, lt, word)) in
      dl_transfer_length-all t older t.cbp upto plain be dma lt (omega (arith, le, pos)) word
        (omega (arith, before, le, lt, word, pos))
      ∙ omega (arith, before, le, lt)

  -- And where the latest stopped, the number of the bytes before that address.
  transfer_length-stopped :
      (from : ℕ) (t : Filled) (ts : List Filled) (upto address : ℕ)
      → Covers from (t ∷ ts) upto
      → 0 < from
      → upto ≤ 2 ^ 32
      → t.cbp ≤ address
      → address < upto
      → moved disable_spd u td_length (stopped_at address t ∷ map all_moved ts) ≡ address - from
  unfolding transfer_length
  transfer_length-stopped from t ts upto address (be, lt, _, dma, plain, c) pos word here inside =
      let older =
        transfer_length disable_spd u pipe_bulk td_length (map all_moved ts) nothing_yet in
      let le = Covers-le from ts t.cbp c in
      let before = transfer_length-all from ts t.cbp c pos (omega (arith, lt, word)) in
      dl_transfer_length-stopped t older t.cbp address plain (ground (arith, be, lt, le, pos)) dma
        here (omega (arith, here, le, pos)) (omega (arith, before, here, le, inside, word))
      ∙ omega (arith, before, here, le)

-- The TDs up to one that they cover bytes with cover those up to its end.
Covers-right :
    (from : ℕ) (later : List Filled) (t : Filled) (ts : List Filled) (upto : ℕ)
    → Covers from (later ++ (t ∷ ts)) upto
    → Covers from (t ∷ ts) (t.be + 1) × (t.be + 1 ≤ upto)
Covers-right from [] t ts upto (be, lt, most, dma, plain, c) =
    ((refl, omega (arith, be, lt), omega (arith, be, most), dma, plain, c), omega (arith, be))
Covers-right from (s ∷ later) t ts upto (_, lt, _, _, _, c) =
    let (covers, le) = Covers-right from later t ts s.cbp c in (covers, omega (arith, le, lt))

-- For a bulk request of at least one byte at a mapped address within 32 bits, without an empty
-- packet at its end, and with as many TDs as `td_count` says: when the controller has moved all of
-- each TD, `dl_transfer_length` adds up to the length of the request; when it has moved all of the
-- TDs before some one and stopped at an address inside that one, to the number of the bytes before
-- that address.
pub transfer_length-td_submit :
    (disable_spd : Bool) (maxps mapped setup : ℕ) (old_toggle : Bool) (u : Urb) (q : Queue)
    (later : List Filled) (t : Filled) (ts : List Filled) (address : ℕ)
    → 0 < mapped
    → 0 < u.transfer_buffer_length
    → mapped + u.transfer_buffer_length ≤ 2 ^ 32
    → wants_empty maxps u ≡ false
    → q.filled ≡ []
    → td_count maxps u pipe_bulk ≡ some (length q.tds)
    → (td_submit maxps mapped setup old_toggle u pipe_bulk q).1.filled ≡ later ++ (t ∷ ts)
    → t.cbp ≤ address
    → address ≤ t.be
    → (moved disable_spd u (length q.tds) (map all_moved (later ++ (t ∷ ts)))
        ≡ u.transfer_buffer_length)
      × (moved disable_spd u (length q.tds) (stopped_at address t ∷ map all_moved ts)
          ≡ address - mapped)
transfer_length-td_submit disable_spd maxps mapped setup old_toggle u q later t ts address pos some'
      word full fresh count split here inside =
    let upto : ℕ = mapped + u.transfer_buffer_length in
    let covers : Covers mapped (later ++ (t ∷ ts)) upto =
      rw (← split)
        (td_submit-Covers maxps mapped setup old_toggle u q pos some' word full fresh count) in
    let (to_here, le) = Covers-right mapped later t ts upto covers in
    (
      transfer_length-all disable_spd u (length q.tds) mapped (later ++ (t ∷ ts)) upto covers pos
            word
          ∙ omega arith,
      transfer_length-stopped disable_spd u (length q.tds) mapped t ts (t.be + 1) address to_here
          pos (omega (arith, le, word)) here (omega (arith, inside)),
    )
