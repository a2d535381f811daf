-- ===== src/Keyb/Aux.antt =====
-- The mouse port of j820_keyb.c: the queue of bytes between the interrupt and the readers of
-- /dev/psaux, and the routines that fill, drain and share it.
use jornada.Common.{ℕ, zero, suc, ◌-◌, Bool, not, List, [], ◌∷◌, if◌then◌else◌, ◌==◌, get_or, set}
use jornada.Common.Ring.{next}

-- `queue`, `mouse_reply_expected` and `aux_count`; AUX_BUF_SIZE is `2 ^ k`.
pub record Queue : Type 0 where
  pub buf : List ℕ
  pub head : ℕ
  pub tail : ℕ
  pub mouse_reply_expected : ℕ
  pub aux_count : ℕ

abbrev pub queue_empty : Queue → Bool
queue_empty q = q.head == q.tail

module _ (k : ℕ) where
  -- The byte goes to the buffer; it counts only where the queue has room.
  unfoldable pub enqueue : ℕ → Queue → Queue
  enqueue scancode q =
      if not (q.aux_count == 0)
      then (let written = record q { buf = set q.buf q.head scancode } in
          if not (next k q.head == q.tail)
          then record written { head = next k q.head }
          else written)
      else q

  unfoldable pub get_from_queue : Queue → ℕ × Queue
  get_from_queue q = (get_or q.buf q.tail 0, record q { tail = next k q.tail })

  -- `while (i > 0 && !queue_empty())`: the bytes for the user.
  unfoldable pub copy_out : ℕ → Queue → List ℕ × Queue
  copy_out zero q = ([], q)
  copy_out (suc i) q =
      let (c, q') = get_from_queue q in
      let (cs, q'') = copy_out i q' in if queue_empty q then ([], q) else (c ∷ cs, q'')

-- What ends a sleep of the reader: an interrupt with the bytes of the port, or a signal. A signal
-- comes only while a reader sleeps, and the copies to the user's buffer succeed.
pub data Wake : Type 0 where
  interrupt : List ℕ → Wake
  signal : Wake

-- What `read_aux` does: it answers bytes, or an error, or it sleeps past the wakes that are given.
pub data Reading : Type 0 where
  bytes : List ℕ → Reading
  eagain : Reading
  erestartsys : Reading
  asleep : Reading

-- `aux_ack` is AUX_ACK, of the kernel's pc_keyb.h.
module _ (k : ℕ) (aux_ack : ℕ) where
  unfoldable pub handle_mouse_event : ℕ → Queue → Queue
  handle_mouse_event scancode q =
      if not (q.mouse_reply_expected == 0)
      then (if scancode == aux_ack
          then record q { mouse_reply_expected = q.mouse_reply_expected - 1 }
          else enqueue k scancode (record q { mouse_reply_expected = 0 }))
      else enqueue k scancode q

  -- The inner loop: `port` has the bytes that KBDDATA still gives before KBDSTAT_RXF clears, and
  -- `work` is at least 1 on entry. Answers the bytes that are left in the port.
  unfoldable pub drain : ℕ → List ℕ → Queue → List ℕ × Queue
  drain work [] q = ([], q)
  drain work (c ∷ port) q =
      let q' = handle_mouse_event c q in
      let rest = drain (work - 1) port q' in if work - 1 == 0 then (port, q') else rest

  unfoldable pub handle_mse_event : List ℕ → Queue → List ℕ × Queue
  handle_mse_event port q = drain 10000 port q

  -- `repeat:`, for an empty queue; whether the reader was woken, by a signal or not.
  unfoldable pub sleep : List Wake → Queue → Reading × Queue
  sleep [] q = (if queue_empty q then asleep else bytes [], q)
  sleep (signal ∷ ws) q = (if queue_empty q then erestartsys else bytes [], q)
  sleep (interrupt port ∷ ws) q =
      let (left, q') = handle_mse_event port q in
      let rest = sleep ws q' in if queue_empty q then rest else (bytes [], q)

  -- The end of `read_aux`, once the queue may hold bytes.
  unfoldable pub deliver : ℕ → Queue → Reading × Queue
  deliver count q = let (cs, q') = copy_out k count q in (bytes cs, q')

  -- What follows the sleep, by what ended it.
  unfoldable pub finish : ℕ → Reading → Queue → Reading × Queue
  finish count (bytes _) q = deliver count q
  finish count eagain q = (eagain, q)
  finish count erestartsys q = (erestartsys, q)
  finish count asleep q = (asleep, q)

  unfoldable pub read_aux : Bool → List Wake → ℕ → Queue → Reading × Queue
  read_aux nonblock wakes count q =
      if queue_empty q
      then (if nonblock then (eagain, q) else (let (r, q') = sleep wakes q in finish count r q'))
      else deliver count q
