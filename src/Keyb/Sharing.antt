-- ===== src/Keyb/Sharing.antt =====
-- The openers of /dev/psaux in j820_keyb.c: `open_aux` and `release_aux`, with the writes to the mouse
-- that wait for the port.
use jornada.Common.{
  ℕ, ◌+◌, ◌-◌, ◌≡◌, ◌≢◌, Bool, true, false, not, List, [], ◌∷◌, if◌then◌else◌, ◌==◌, arith,
  Bool-cases, inl, inr, refl, ◌∙◌, u8,
}
use jornada.Keyb.Aux.{Queue, enqueue, handle_mouse_event, drain, handle_mse_event}

-- What one turn of the loop of `ms_wait` sees: the bytes in the port, and whether it takes a byte.
pub record Look : Type 0 where
  pub port : List ℕ
  pub txe : Bool

-- The device: the queue with its count, whether the interrupt is claimed, whether the port is enabled,
-- and the bytes written to it, the latest first.
pub record Device : Type 0 where
  pub queue : Queue
  pub claimed : Bool
  pub enabled : Bool
  pub written : List ℕ

-- What the waits of one `aux_write_ack` see, before the write and after it.
pub record Waits : Type 0 where
  pub before : List Look
  pub after : List Look

module _ (k : ℕ) (aux_ack : ℕ) where
  -- A list of KBC_TIMEOUT looks is the whole wait.
  unfoldable pub ms_wait : List Look → Queue → Queue
  ms_wait [] q = q
  ms_wait (l ∷ looks) q =
      let q' = (handle_mse_event k aux_ack l.port q).1 in
      let rest = ms_wait looks q' in if l.txe then q' else rest

  unfoldable pub aux_write_dev : List Look → ℕ → Device → Device
  aux_write_dev looks val d = record d { queue = ms_wait looks d.queue; written = val ∷ d.written }

  unfoldable pub aux_write_ack : Waits → ℕ → Device → Device
  aux_write_ack w val d =
      let q = ms_wait w.before d.queue in
      let expecting = record q { mouse_reply_expected = u8 (q.mouse_reply_expected + 1) } in
      record d { queue = ms_wait w.after expecting; written = val ∷ d.written }

  -- `granted` is whether `request_irq` gives the interrupt; `aux_enable` is AUX_ENABLE_DEV. Answers
  -- whether the open succeeds.
  unfoldable pub open_aux : Bool → Waits → ℕ → Device → Bool × Device
  open_aux granted w aux_enable d =
      let q = d.queue in
      let one_more = record q { aux_count = q.aux_count + 1 } in
      let flushed = record one_more { head = 0; tail = 0 } in
      let ready = record d {
        queue = flushed;
        claimed = true;
        enabled = true;
        written = 0xf4 ∷ d.written;
      } in
      if not (q.aux_count == 0)
      then (true, record d { queue = one_more })
      else if not granted
      then (false, record d { queue = record flushed { aux_count = q.aux_count } })
      else (true, aux_write_ack w aux_enable ready)

  -- `aux_disable` is AUX_DISABLE_DEV; the count is above 0, since the file was opened.
  unfoldable pub release_aux : Waits → ℕ → Device → Device
  release_aux w aux_disable d =
      let q = d.queue in
      let one_less = record q { aux_count = q.aux_count - 1 } in
      let closed = aux_write_ack w aux_disable (record d { queue = one_less }) in
      if not (q.aux_count - 1 == 0)
      then record d { queue = one_less }
      else record closed { enabled = false; claimed = false }

-- The bytes that come in leave the count of openers as it is.
handle_mouse_event-aux_count :
    (k aux_ack c : ℕ) (q : Queue) → (handle_mouse_event k aux_ack c q).aux_count ≡ q.aux_count
unfolding handle_mouse_event enqueue
handle_mouse_event-aux_count k aux_ack c q = ground arith

drain-aux_count :
    (k aux_ack work : ℕ) (port : List ℕ) (q : Queue)
    → (drain k aux_ack work port q).1.aux_count ≡ q.aux_count
unfolding drain
drain-aux_count k aux_ack work [] q = refl
drain-aux_count k aux_ack work (c ∷ port) q =
    let q' = handle_mouse_event k aux_ack c q in
    let one = handle_mouse_event-aux_count k aux_ack c q in
    elim (Bool-cases (work - 1 == 0)) [
      | inl e ↦ rw e one
      | inr e ↦ rw e (drain-aux_count k aux_ack (work - 1) port q' ∙ one)
    ]

ms_wait-aux_count :
    (k aux_ack : ℕ) (looks : List Look) (q : Queue)
    → (ms_wait k aux_ack looks q).aux_count ≡ q.aux_count
unfolding ms_wait handle_mse_event
ms_wait-aux_count k aux_ack [] q = refl
ms_wait-aux_count k aux_ack (l ∷ looks) q =
    let q' = (drain k aux_ack 10000 l.port q).1 in
    let one = drain-aux_count k aux_ack 10000 l.port q in
    elim (Bool-cases l.txe) [
      | inl e ↦ rw e one
      | inr e ↦ rw e (ms_wait-aux_count k aux_ack looks q' ∙ one)
    ]

aux_write_ack-aux_count :
    (k aux_ack : ℕ) (w : Waits) (val : ℕ) (d : Device)
    → (aux_write_ack k aux_ack w val d).queue.aux_count ≡ d.queue.aux_count
unfolding aux_write_ack
aux_write_ack-aux_count k aux_ack w val d =
    let q = ms_wait k aux_ack w.before d.queue in
    let expecting = record q { mouse_reply_expected = u8 (q.mouse_reply_expected + 1) } in
    ms_wait-aux_count k aux_ack w.after expecting ∙ ms_wait-aux_count k aux_ack w.before d.queue

aux_write_ack-keeps :
    (k aux_ack : ℕ) (w : Waits) (val : ℕ) (d : Device)
    → ((aux_write_ack k aux_ack w val d).claimed ≡ d.claimed)
      × ((aux_write_ack k aux_ack w val d).enabled ≡ d.enabled)
unfolding aux_write_ack
aux_write_ack-keeps k aux_ack w val d = (refl, refl)

-- The interrupt is claimed, and the port enabled, exactly while the device has an opener.
pub record IsShared (d : Device) : Type 0 where
  pub claims : d.claimed ≡ not (d.queue.aux_count == 0)
  pub enables : d.enabled ≡ not (d.queue.aux_count == 0)

-- When the interrupt is claimed and the port enabled exactly while there is an opener, that stays so
-- after an open, whether it succeeds or not, and the count of openers grows by one if it succeeds
-- and stays otherwise.
open_aux-IsShared :
    (k aux_ack : ℕ) (granted : Bool) (w : Waits) (aux_enable : ℕ) (d : Device)
    → IsShared d
    → let (opened, d') = open_aux k aux_ack granted w aux_enable d in
      IsShared d'
      × (d'.queue.aux_count ≡ (if opened then d.queue.aux_count + 1 else d.queue.aux_count))
unfolding open_aux
open_aux-IsShared k aux_ack granted w aux_enable d s = elim (Bool-cases (d.queue.aux_count == 0)) [
  | inr e ↦
      let more : (d.queue.aux_count + 1 == 0) ≡ false = ground arith in
      rw e (
        record { claims = ground (arith, s.claims, e); enables = ground (arith, s.enables, e) },
        refl,
      )
  | inl e ↦ elim (Bool-cases granted) [
    | inr g ↦ rw (e, g) (record { claims = s.claims; enables = s.enables }, refl)
    | inl g ↦
        let flushed : Queue = record d.queue {
          aux_count = d.queue.aux_count + 1;
          head = 0;
          tail = 0;
        } in
        let ready : Device = record d {
          queue = flushed;
          claimed = true;
          enabled = true;
          written = 0xf4 ∷ d.written;
        } in
        let first = aux_write_ack-aux_count k aux_ack w aux_enable ready in
        let (claimed, enabled) = aux_write_ack-keeps k aux_ack w aux_enable ready in
        rw (e, g)
          (
            record {
              claims = ground (arith, first, claimed);
              enables = ground (arith, first, enabled);
            },
            first,
          )
  ]
]

-- When the interrupt is claimed and the port enabled exactly while there is an opener, and there is
-- one, that stays so after a release, and the count of openers falls by one.
release_aux-IsShared :
    (k aux_ack : ℕ) (w : Waits) (aux_disable : ℕ) (d : Device)
    → IsShared d
    → d.queue.aux_count ≢ 0
    → let d' = release_aux k aux_ack w aux_disable d in
      IsShared d' × (d'.queue.aux_count + 1 ≡ d.queue.aux_count)
unfolding release_aux
release_aux-IsShared k aux_ack w aux_disable d s open_before =
    let last =
      aux_write_ack-aux_count k aux_ack w aux_disable
        (record d { queue = record d.queue { aux_count = d.queue.aux_count - 1 } }) in
    elim (Bool-cases (d.queue.aux_count - 1 == 0)) [
      | inr e ↦ rw e (
        record {
          claims = ground (arith, s.claims, e, open_before);
          enables = ground (arith, s.enables, e, open_before);
        },
        omega arith,
      )
      | inl e ↦ rw e (
        record { claims = ground (arith, last, e); enables = ground (arith, last, e) },
        ground (arith, last, e, open_before),
      )
    ]
