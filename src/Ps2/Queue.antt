-- ===== src/Ps2/Queue.antt =====
-- The bytes that sa1101ps2.c sends: the ring and its interrupt refine a short queue.
use jornada.Common.{
  ℕ, zero, suc, ◌<◌, ◌≡◌, Bool, true, false, List, [], ◌∷◌, ◌++◌, if◌then◌else◌, ◌==◌, ltb, set,
  length, arith, Bool-cases, inl, inr, refl, ap, ◌∙◌, sym, length-set, lt→ltb, le→ltb,
}
use jornada.Common.Ring.{
  next, contents, contents-set, length-contents, between, between-lt, between-Reaches, between-full,
  between-room, between-step, between-empty,
}
use jornada.Ps2.Defs.{Port, ps2_txint, ps2_write, put_byte}

-- What a port promises: a queue of at most three bytes, and the bytes that went out, the latest first.
pub record Sender : Type 0 where
  pub queue : List ℕ
  pub out : List ℕ

-- What happens to a port: a write of a byte, or an interrupt of the transmitter; each with whether the
-- transmitter is empty.
pub data Event : Type 0 where
  write : Bool → ℕ → Event
  sent_one : Bool → Event

-- The oldest byte goes out.
abbrev pub send_oldest : List ℕ → List ℕ → Sender
send_oldest [] out = record { queue = []; out = out }
send_oldest (b ∷ bs) out = record { queue = bs; out = b ∷ out }

abbrev pub promised : Sender → Event → Sender
promised s (write true v) = record s { out = v ∷ s.out }
promised s (write false v) =
    if ltb (length s.queue) 3 then record s { queue = s.queue ++ (v ∷ []) } else s
promised s (sent_one true) = send_oldest s.queue s.out
promised s (sent_one false) = s

abbrev pub promises : Sender → List Event → Sender
promises s [] = s
promises s (e ∷ es) = promises (promised s e) es

unfoldable pub step : Port → Event → Port
step p (write txe v) = ps2_write txe v p
step p (sent_one txe) = ps2_txint txe p

unfoldable pub run : Port → List Event → Port
run p [] = p
run p (e ∷ es) = run (step p e) es

-- The buffer has its size, and the indices are in it.
pub record IsValid (p : Port) : Type 0 where
  pub sized : length p.buf ≡ 4
  pub head_in : p.head < 4
  pub tail_in : p.tail < 4

abbrev pub waiting : Port → ℕ
waiting p = between 2 p.tail p.head

abbrev pub view : Port → Sender
view p = record { queue = contents 2 p.buf p.tail (waiting p); out = p.sent }

put_byte_lem :
    (v : ℕ) (p : Port)
    → IsValid p
    → IsValid (put_byte v p) × (view (put_byte v p) ≡ promised (view p) (write false v))
unfolding put_byte
put_byte_lem v p ok =
    let (old, new) =
      contents-set 2 p.buf p.tail (waiting p) p.head v (omega arith) ok.sized ok.tail_in ok.head_in
        (between-lt 2 p.tail p.head ok.tail_in ok.head_in)
        (between-Reaches 2 p.tail p.head ok.tail_in) in
    let size = length-contents 2 p.buf p.tail (waiting p) in
    let len = length-set p.buf p.head v ∙ ok.sized in
    elim (Bool-cases (next 2 p.head == p.tail)) [
      | inl e ↦
          let full = between-full 2 p.tail p.head (omega arith) ok.tail_in ok.head_in e in
          let no_room =
            le→ltb (length (contents 2 p.buf p.tail (waiting p))) 3 (omega (arith, size, full)) in
          elim (Bool-cases (p.head == p.tail)) [
            | inl w ↦
                rw (e, w, no_room)
                  (record { sized = ok.sized; head_in = ok.head_in; tail_in = ok.tail_in }, refl)
            | inr w ↦ rw (e, w, no_room) (ok, refl)
          ]
      | inr e ↦
          let (room, inside, more) =
            between-room 2 p.tail p.head (omega arith) ok.tail_in ok.head_in e in
          let has_room =
            lt→ltb (length (contents 2 p.buf p.tail (waiting p))) 3 (omega (arith, size, room)) in
          let written = ap (contents 2 (set p.buf p.head v) p.tail) more ∙ new in
          elim (Bool-cases (p.head == p.tail)) [
            | inl w ↦
                rw (e, w, has_room)
                  (
                    record { sized = len; head_in = inside; tail_in = ok.tail_in },
                    ap (λ q. record { queue = q; out = p.sent }) written,
                  )
            | inr w ↦
                rw (e, w, has_room)
                  (
                    record { sized = len; head_in = inside; tail_in = ok.tail_in },
                    ap (λ q. record { queue = q; out = p.sent }) written,
                  )
          ]
    ]

txint_lem :
    (p : Port)
    → IsValid p
    → IsValid (ps2_txint true p) × (view (ps2_txint true p) ≡ promised (view p) (sent_one true))
unfolding ps2_txint contents
txint_lem p ok = elim (Bool-cases (p.head == p.tail)) [
  | inl e ↦
      let none_wait = between-empty 2 p.tail p.head e in
      rw (e, none_wait)
        (record { sized = ok.sized; head_in = ok.head_in; tail_in = ok.tail_in }, refl)
  | inr e ↦
      let (inside, fewer) = between-step 2 p.tail p.head (omega arith) ok.tail_in ok.head_in e in
      rw (e, fewer) (record { sized = ok.sized; head_in = ok.head_in; tail_in = inside }, refl)
]

step-refines :
    (p : Port) (e : Event)
    → IsValid p
    → IsValid (step p e) × (view (step p e) ≡ promised (view p) e)
unfolding step ps2_write ps2_txint contents
step-refines p (write true v) ok =
    (record { sized = ok.sized; head_in = ok.head_in; tail_in = ok.tail_in }, refl)
step-refines p (write false v) ok = put_byte_lem v p ok
step-refines p (sent_one true) ok = txint_lem p ok
step-refines p (sent_one false) ok = elim (Bool-cases (p.head == p.tail)) [
  | inl e ↦ rw e (record { sized = ok.sized; head_in = ok.head_in; tail_in = ok.tail_in }, refl)
  | inr e ↦ rw e (ok, refl)
]

-- For a port whose buffer and indices are valid, any writes and interrupts keep them valid, and act
-- on the bytes that wait and the bytes that went out as on a queue of at most three bytes: a write
-- that finds the transmitter empty sends its byte at once, another goes to the end of the queue if
-- that has fewer than three bytes and is dropped otherwise, and an interrupt that finds the
-- transmitter empty sends the oldest byte.
pub run-refines :
    (p : Port) (es : List Event)
    → IsValid p
    → IsValid (run p es) × (view (run p es) ≡ promises (view p) es)
unfolding run
run-refines p [] ok = (ok, refl)
run-refines p (e ∷ es) ok =
    let (ok', one) = step-refines p e ok in
    let (ok'', rest) = run-refines (step p e) es ok' in (ok'', rest ∙ ap (λ s. promises s es) one)

-- The interrupt is enabled while bytes wait.
abbrev pub IsAwake : Port → Type 0
IsAwake p = (p.head == p.tail) ≡ false → p.tx_enabled ≡ true

step-IsAwake : (p : Port) (e : Event) → IsAwake p → IsAwake (step p e)
unfolding step ps2_write put_byte ps2_txint
step-IsAwake p (write true v) a = a
step-IsAwake p (write false v) a = ground arith
step-IsAwake p (sent_one txe) a = elim (Bool-cases (p.head == p.tail)) [
  | inl e ↦ rw e (λ h. absurd (ground (arith, e, h)))
  | inr e ↦ elim (Bool-cases txe) [ inl t ↦ rw (e, t) (λ h. a e) | inr t ↦ rw (e, t) (λ h. a e) ]
]

abbrev pub turned : List ℕ → List ℕ → List ℕ
turned [] out = out
turned (b ∷ bs) out = turned bs (b ∷ out)

abbrev pub interrupts : ℕ → List Event
interrupts zero = []
interrupts (suc n) = sent_one true ∷ interrupts n

promises-interrupts :
    (q out : List ℕ)
    → promises (record { queue = q; out = out }) (interrupts (length q))
      ≡ record { queue = []; out = turned q out }
promises-interrupts [] out = refl
promises-interrupts (b ∷ bs) out = promises-interrupts bs (b ∷ out)

-- For a port whose buffer and indices are valid, as many interrupts that find the transmitter empty
-- as bytes wait leave none, and send the bytes in the order in which they waited.
run-drains :
    (p : Port)
    → IsValid p
    → view (run p (interrupts (waiting p)))
      ≡ record { queue = []; out = turned (contents 2 p.buf p.tail (waiting p)) p.sent }
run-drains p ok =
    let q = contents 2 p.buf p.tail (waiting p) in
    let size = length-contents 2 p.buf p.tail (waiting p) in
    (run-refines p (interrupts (waiting p)) ok).1
    ∙ ap (λ n. promises (view p) (interrupts n)) (sym size)
    ∙ promises-interrupts q p.sent
