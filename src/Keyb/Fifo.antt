-- ===== src/Keyb/Fifo.antt =====
-- The mouse queue of j820_keyb.c as a queue of bytes: what an interrupt puts in and what a reader
-- takes out.
use jornada.Common.{
  ℕ, zero, suc, ◌+◌, ◌^◌, ◌≤◌, ◌<◌, ◌≡◌, Bool, true, false, not, ◌&&◌, ◌||◌, [], ◌∷◌, ◌++◌,
  if◌then◌else◌, ◌==◌, ltb, set, length, arith, Bool-cases, inl, inr, refl, ap, ◌∙◌, length-set,
  min, sym,
}
use jornada.Keyb.Aux.{Queue, enqueue, get_from_queue, queue_empty, copy_out, handle_mouse_event}
use jornada.Keyb.Ring.{IsValid, pending, waiting}
use jornada.Common.Ring.{next, contents, contents-set, next_lem}

waiting-lt : (k : ℕ) (q : Queue) → IsValid k q → waiting k q < 2 ^ k
waiting-lt k q v = ground (arith, v.head_in, v.tail_in)

pub full_lem :
    (k : ℕ) (q : Queue)
    → k ≤ 32
    → IsValid k q
    → (next k q.head == q.tail) ≡ true
    → ltb (waiting k q + 1) (2 ^ k) ≡ false
full_lem k q le v e =
    let step = next_lem k q.head le v.head_in in ground (arith, step, v.head_in, v.tail_in, e)

pub room_lem :
    (k : ℕ) (q : Queue)
    → k ≤ 32
    → IsValid k q
    → (next k q.head == q.tail) ≡ false
    → (ltb (waiting k q + 1) (2 ^ k) ≡ true)
      × ((next k q.head < 2 ^ k)
          × (waiting k (record q { head = next k q.head }) ≡ suc (waiting k q)))
room_lem k q le v e =
    let step = next_lem k q.head le v.head_in in ground (arith, step, v.head_in, v.tail_in, e)

-- When the queue is valid, a byte from the mouse goes to the end of the bytes that wait if the device
-- is open and fewer than `2 ^ k - 1` bytes wait; otherwise the bytes that wait are as before. The
-- queue stays valid.
enqueue_lem :
    (k : ℕ) (c : ℕ) (q : Queue)
    → k ≤ 32
    → IsValid k q
    → IsValid k (enqueue k c q)
      × (pending k (enqueue k c q) ≡ (
          if not (q.aux_count == 0) && ltb (waiting k q + 1) (2 ^ k)
          then pending k q ++ (c ∷ [])
          else pending k q))
unfolding enqueue
enqueue_lem k c q le v =
    let (old, new) =
      contents-set k q.buf q.tail (waiting k q) q.head c le v.sized v.tail_in v.head_in
        (waiting-lt k q v) (ground (arith, v.tail_in)) in
    let len = length-set q.buf q.head c ∙ v.sized in
    elim (Bool-cases (q.aux_count == 0)) [
      | inl closed ↦ rw closed (v, refl)
      | inr opened ↦ elim (Bool-cases (next k q.head == q.tail)) [
        | inl e ↦
            rw (opened, e, full_lem k q le v e)
              (record { sized = len; head_in = v.head_in; tail_in = v.tail_in }, old)
        | inr e ↦
            let (room, (inside, more)) = room_lem k q le v e in
            rw (opened, e, room)
              (
                record { sized = len; head_in = inside; tail_in = v.tail_in },
                ap (contents k (set q.buf q.head c) q.tail) more ∙ new,
              )
      ]
    ]

if-not_&& {ℓ} :
    {A : Type ℓ} (closed room : Bool) (x y : A)
    → (if not closed && room then y else x) ≡ (if closed || not room then x else y)
if-not_&& true room x y = refl
if-not_&& false true x y = refl
if-not_&& false false x y = refl

-- When the mouse queue is valid and its size is at most `2 ^ 32`, a byte from the mouse leaves the
-- bytes that wait as they are if a reply is expected and it is the acknowledgement, or if the device
-- is closed, or if `2 ^ k - 1` bytes wait; otherwise it goes to their end. The queue stays valid.
pub handle_mouse_event_lem :
    (k aux_ack c : ℕ) (q : Queue)
    → k ≤ 32
    → IsValid k q
    → let q' = handle_mouse_event k aux_ack c q in
      IsValid k q'
      × (pending k q' ≡ (
          if (not (q.mouse_reply_expected == 0) && (c == aux_ack))
            || (q.aux_count == 0)
            || not (ltb (waiting k q + 1) (2 ^ k))
          then pending k q
          else pending k q ++ (c ∷ [])))
unfolding handle_mouse_event
handle_mouse_event_lem k aux_ack c q le v =
    let cleared : IsValid k (record q { mouse_reply_expected = 0 }) = record {
      sized = v.sized;
      head_in = v.head_in;
      tail_in = v.tail_in;
    } in
    let (v', e') = enqueue_lem k c (record q { mouse_reply_expected = 0 }) le cleared in
    let (v'', e'') = enqueue_lem k c q le v in
    elim (Bool-cases (q.mouse_reply_expected == 0)) [
      | inl none_expected ↦
          rw none_expected (
            v'',
            e'' ∙ if-not_&& (q.aux_count == 0) (ltb (waiting k q + 1) (2 ^ k)) (pending k q) _,
          )
      | inr expected ↦ elim (Bool-cases (c == aux_ack)) [
        | inl ack ↦
            rw (expected, ack)
              (record { sized = v.sized; head_in = v.head_in; tail_in = v.tail_in }, refl)
        | inr other ↦
            rw (expected, other)
              (
                v',
                e' ∙ if-not_&& (q.aux_count == 0) (ltb (waiting k q + 1) (2 ^ k)) (pending k q) _,
              )
      ]
    ]

-- With bytes waiting, the oldest goes out and the others stay.
get_from_queue_lem :
    (k : ℕ) (q : Queue)
    → k ≤ 32
    → IsValid k q
    → queue_empty q ≡ false
    → let (c, q') = get_from_queue k q in
      IsValid k q' × ((pending k q ≡ c ∷ pending k q') × (waiting k q ≡ suc (waiting k q')))
unfolding get_from_queue contents
get_from_queue_lem k q le v e =
    let step = next_lem k q.tail le v.tail_in in
    let inside : next k q.tail < 2 ^ k = ground (arith, step, v.tail_in) in
    let fewer : waiting k q ≡ suc (waiting k (record q { tail = next k q.tail })) =
      ground (arith, step, v.head_in, v.tail_in, e) in
    (
      record { sized = v.sized; head_in = v.head_in; tail_in = inside },
      (ap (contents k q.buf q.tail) fewer, fewer),
    )

-- When the mouse queue is valid and its size is at most `2 ^ 32`, the loop of `read_aux` takes bytes
-- from the front in their order, as many as the reader asks for and as wait, and leaves the others.
-- The queue stays valid.
pub copy_out_lem :
    (k i : ℕ) (q : Queue)
    → k ≤ 32
    → IsValid k q
    → let (cs, q') = copy_out k i q in
      IsValid k q' × ((cs ++ pending k q' ≡ pending k q) × (length cs ≡ min i (waiting k q)))
unfolding copy_out
copy_out_lem k zero q le v = (v, (refl, omega arith))
copy_out_lem k (suc i) q le v = elim (Bool-cases (queue_empty q)) [
  | inl e ↦ rw e (v, (refl, ground (arith, e)))
  | inr e ↦
      let (v', (front, fewer)) = get_from_queue_lem k q le v e in
      let (v'', (rest, count)) = copy_out_lem k i (get_from_queue k q).1 le v' in
      rw e (
        v'',
        (ap (λ bs. (get_from_queue k q).0 ∷ bs) rest ∙ sym front, omega (arith, count, fewer)),
      )
]
