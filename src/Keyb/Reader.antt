-- ===== src/Keyb/Reader.antt =====
-- The reader of /dev/psaux: `read_aux` against the bytes that the interrupts of the mouse bring.
use jornada.Common.{
  ℕ, suc, ◌+◌, ◌-◌, ◌^◌, ◌≤◌, ◌<◌, ◌≡◌, ◌≢◌, Bool, true, false, List, [], ◌∷◌, ◌++◌, ◌==◌, length,
  arith, Bool-cases, inl, inr, refl, ap, ◌∙◌, sym, length-append, eq→==, ne→==,
}
use mathlib.Core.List.{append-nil, append_assoc}
use jornada.Keyb.Aux.{
  Queue, Wake, Reading, bytes, eagain, erestartsys, asleep, interrupt, signal, finish, queue_empty,
  copy_out, handle_mouse_event, enqueue, drain, handle_mse_event, sleep, deliver, read_aux,
}
use jornada.Common.Ring.{next, contents, length-contents}
use jornada.Keyb.Ring.{IsValid, pending, waiting}
use jornada.Keyb.Fifo.{handle_mouse_event_lem, copy_out_lem, room_lem, full_lem}

-- The device is open and expects no reply.
abbrev pub Listening : Queue → Type 0
Listening q = (q.aux_count ≢ 0) × (q.mouse_reply_expected ≡ 0)

-- A byte that finds a device that listens, with room, is added.
handle_mouse_event-added :
    (k aux_ack c : ℕ) (q : Queue)
    → k ≤ 32
    → IsValid k q
    → Listening q
    → waiting k q + 1 < 2 ^ k
    → let q' = handle_mouse_event k aux_ack c q in
      (IsValid k q' × Listening q')
      × ((pending k q' ≡ pending k q ++ (c ∷ [])) × (waiting k q' ≡ suc (waiting k q)))
unfolding handle_mouse_event enqueue
handle_mouse_event-added k aux_ack c q le v (opened, quiet) room =
    let (v', after) = handle_mouse_event_lem k aux_ack c q le v in
    let op = ne→== q.aux_count 0 opened in
    let qu = eq→== q.mouse_reply_expected 0 quiet in
    elim (Bool-cases (next k q.head == q.tail)) [
      | inl e ↦ absurd (ground (arith, full_lem k q le v e, room))
      | inr e ↦
          let (roomy, (inside, more)) = room_lem k q le v e in
          let v'' = rw (qu, op, e) at v' in
          let after' = rw (qu, op, e, roomy) at after in
          rw (qu, op, e) ((v'', (opened, quiet)), (after', more))
    ]

length-zero : (xs : List ℕ) → length xs ≤ 0 → xs ≡ []
length-zero [] h = refl
length-zero (x ∷ xs) h = absurd (omega arith)

-- When the device is open, expects no reply and has room for the bytes in the port, at most 10,000 of
-- them, the interrupt empties the port and puts its bytes, in order, after those that waited.
drain_lem :
    (k aux_ack work : ℕ) (port : List ℕ) (q : Queue)
    → k ≤ 32
    → IsValid k q
    → Listening q
    → waiting k q + length port < 2 ^ k
    → length port ≤ work
    → let (left, q') = drain k aux_ack work port q in
      IsValid k q' × ((left ≡ []) × (pending k q' ≡ pending k q ++ port))
unfolding drain
drain_lem k aux_ack work [] q le v l room w = (v, (refl, sym (append-nil (pending k q))))
drain_lem k aux_ack work (c ∷ port) q le v l room w =
    let q' = handle_mouse_event k aux_ack c q in
    let ((v', l'), (added, more)) =
      handle_mouse_event-added k aux_ack c q le v l (omega (arith, room)) in
    elim (Bool-cases (work - 1 == 0)) [
      | inl e ↦ let nil = length-zero port (ground (arith, w, e)) in rw (e, nil) (v', (refl, added))
      | inr e ↦
          let (v'', (none_left, after)) =
            drain_lem k aux_ack (work - 1) port q' le v' l' (omega (arith, more, room))
              (omega (arith, w)) in
          rw e (
            v'',
            (
              none_left,
              after ∙ ap (λ bs. bs ++ port) added ∙ append_assoc (pending k q) (c ∷ []) port,
            ),
          )
    ]

-- A part as long as the whole is the whole.
whole : (xs ys zs : List ℕ) → xs ++ ys ≡ zs → length zs ≤ length xs → xs ≡ zs
whole xs ys zs e h =
    let long = length-append xs ys in
    let nil = length-zero ys (omega (arith, long, ap length e, h)) in
    sym (append-nil xs) ∙ ap (λ ys. xs ++ ys) (sym nil) ∙ e

-- With a valid empty queue of an open device that expects no reply, when an interrupt finds bytes in
-- the port, at most 10,000 and fewer than the size of the queue, a reader that then asks for as many
-- bytes gets exactly these bytes in order, whether it blocks or not.
pub read_aux-handle_mse_event :
    (k aux_ack : ℕ) (nonblock : Bool) (wakes : List Wake) (port : List ℕ) (q : Queue)
    → k ≤ 32
    → IsValid k q
    → Listening q
    → queue_empty q ≡ true
    → 0 < length port
    → length port < 2 ^ k
    → length port ≤ 10000
    → let q' = (handle_mse_event k aux_ack port q).1 in
      (read_aux k aux_ack nonblock wakes (length port) q').0 ≡ bytes port
unfolding handle_mse_event read_aux deliver contents
read_aux-handle_mse_event k aux_ack nonblock wakes port q le v l em some_bytes fits few =
    let idle : waiting k q ≡ 0 = ground (arith, em) in
    let (v', (left, after)) =
      drain_lem k aux_ack 10000 port q le v l (omega (arith, idle, fits)) few in
    let q' = (drain k aux_ack 10000 port q).1 in
    let arrived : pending k q' ≡ port = rw idle at after in
    let size = length-contents k q'.buf q'.tail (waiting k q') in
    let many : waiting k q' ≡ length port = sym size ∙ ap length arrived in
    let stocked : queue_empty q' ≡ false = ground (arith, many, some_bytes) in
    let (v'', (split, count)) = copy_out_lem k (length port) q' le v' in
    rw stocked (
      ap bytes (
        whole (copy_out k (length port) q').0 _ port (split ∙ arrived)
          (omega (arith, count, many))))

drain-IsValid :
    (k aux_ack work : ℕ) (port : List ℕ) (q : Queue)
    → k ≤ 32
    → IsValid k q
    → IsValid k (drain k aux_ack work port q).1
unfolding drain
drain-IsValid k aux_ack work [] q le v = v
drain-IsValid k aux_ack work (c ∷ port) q le v =
    let (v', after) = handle_mouse_event_lem k aux_ack c q le v in
    elim (Bool-cases (work - 1 == 0)) [
      | inl e ↦ rw e v'
      | inr e ↦
          rw e (drain-IsValid k aux_ack (work - 1) port (handle_mouse_event k aux_ack c q) le v')
    ]

abbrev is_bytes : Reading → Bool
is_bytes (bytes cs) = true
is_bytes eagain = false
is_bytes erestartsys = false
is_bytes asleep = false

abbrev taken : Reading → List ℕ
taken (bytes cs) = cs
taken eagain = []
taken erestartsys = []
taken asleep = []

-- What a reader that is woken without an error finds.
Stocked : ℕ → Queue → Type 0
Stocked k q = IsValid k q × (queue_empty q ≡ false)

sleep-Stocked :
    (k aux_ack : ℕ) (wakes : List Wake) (q : Queue) (cs : List ℕ)
    → k ≤ 32
    → IsValid k q
    → (sleep k aux_ack wakes q).0 ≡ bytes cs
    → Stocked k (sleep k aux_ack wakes q).1
unfolding sleep Stocked handle_mse_event
sleep-Stocked k aux_ack [] q cs le v e = elim (Bool-cases (queue_empty q)) [
  | inl em ↦ absurd (ground (arith, ap is_bytes (rw em at e)))
  | inr em ↦ (v, em)
]
sleep-Stocked k aux_ack (signal ∷ ws) q cs le v e = elim (Bool-cases (queue_empty q)) [
  | inl em ↦ absurd (ground (arith, ap is_bytes (rw em at e)))
  | inr em ↦ (v, em)
]
sleep-Stocked k aux_ack (interrupt port ∷ ws) q cs le v e = elim (Bool-cases (queue_empty q)) [
  | inl em ↦
      let q' = (drain k aux_ack 10000 port q).1 in
      rw em (
        sleep-Stocked k aux_ack ws q' cs le (drain-IsValid k aux_ack 10000 port q le v)
          (rw em at e))
  | inr em ↦ rw em (v, em)
]

deliver-progress :
    (k aux_ack count : ℕ) (q : Queue) (cs : List ℕ)
    → k ≤ 32
    → Stocked k q
    → 0 < count
    → (deliver k aux_ack count q).0 ≡ bytes cs
    → 0 < length cs
unfolding deliver Stocked
deliver-progress k aux_ack count q cs le (v, em) pos e =
    let (v', (split, size)) = copy_out_lem k count q le v in
    let got : (copy_out k count q).0 ≡ cs = ap taken e in
    let some_wait : 0 < waiting k q = ground (arith, em, v.head_in) in
    omega (arith, size, ap length got, pos)

finish-progress :
    (k aux_ack count : ℕ) (r : Reading) (q : Queue) (cs : List ℕ)
    → k ≤ 32
    → ((woken : List ℕ) → r ≡ bytes woken → Stocked k q)
    → 0 < count
    → (finish k aux_ack count r q).0 ≡ bytes cs
    → 0 < length cs
unfolding finish
finish-progress k aux_ack count (bytes woken) q cs le st pos e =
    deliver-progress k aux_ack count q cs le (st woken refl) pos e
finish-progress k aux_ack count eagain q cs le st pos e = absurd (ground (arith, ap is_bytes e))
finish-progress k aux_ack count erestartsys q cs le st pos e =
    absurd (ground (arith, ap is_bytes e))
finish-progress k aux_ack count asleep q cs le st pos e = absurd (ground (arith, ap is_bytes e))

-- When the mouse queue is valid and its size is at most `2 ^ 32`, a read of at least one byte that
-- answers bytes answers at least one of them: it never reports the end of the file.
read_aux-progress :
    (k aux_ack : ℕ) (nonblock : Bool) (wakes : List Wake) (count : ℕ) (q : Queue) (cs : List ℕ)
    → k ≤ 32
    → IsValid k q
    → 0 < count
    → (read_aux k aux_ack nonblock wakes count q).0 ≡ bytes cs
    → 0 < length cs
unfolding read_aux Stocked
read_aux-progress k aux_ack nonblock wakes count q cs le v pos e =
    elim (Bool-cases (queue_empty q)) [
      | inr em ↦ deliver-progress k aux_ack count q cs le (v, em) pos (rw em at e)
      | inl em ↦ elim (Bool-cases nonblock) [
        | inl nb ↦ absurd (ground (arith, ap is_bytes (rw (em, nb) at e)))
        | inr nb ↦
            let (r, q') = sleep k aux_ack wakes q in
            finish-progress k aux_ack count r q' cs le
              (λ woken h. sleep-Stocked k aux_ack wakes q woken le v h) pos (rw (em, nb) at e)
      ]
    ]
