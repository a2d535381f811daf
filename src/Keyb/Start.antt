-- ===== src/Keyb/Start.antt =====
-- The start of the mouse driver and `aux_poll`, from linux/kernel/drivers/char/j820_keyb.c.
use jornada.Common.{
  ℕ, ◌+◌, ◌-◌, ◌^◌, ◌≡◌, Bool, true, false, not, Option, none, some, List, [], ◌∷◌, if◌then◌else◌,
  ◌==◌, arith, refl, Bool-cases, inl, inr, ◌∙◌, replicate, u8,
}
use jornada.Keyb.Aux.{Queue, queue_empty, enqueue, handle_mouse_event, drain, handle_mse_event}
use jornada.Keyb.Sharing.{Look, Device, Waits, ms_wait, aux_write_ack}
use jornada.Keyb.Writing.{detect_auxiliary_port}

-- Whether the file can be read without waiting: POLLIN | POLLRDNORM.
abbrev pub aux_poll : Queue → Bool
aux_poll q = not (queue_empty q)

-- The words of the kernel's pc_keyb.h, AUX_SET_SAMPLE, AUX_SET_RES and AUX_SET_SCALE21, and its error numbers.
pub record Words : Type 0 where
  pub set_sample : ℕ
  pub set_res : ℕ
  pub set_scale21 : ℕ
  pub ebusy : ℕ
  pub eio : ℕ

-- What the start leaves: its answer, whether it holds the region, whether /dev/psaux is registered, and the device.
pub record Started : Type 0 where
  pub ret : ℕ
  pub region : Bool
  pub registered : Bool
  pub device : Device

module _ (k : ℕ) (aux_ack : ℕ) (w : Words) where
  -- Each byte with what the waits around it see.
  unfoldable pub send_all : List (Waits × ℕ) → Device → Device
  send_all [] d = d
  send_all ((looks, val) ∷ bytes) d = send_all bytes (aux_write_ack k aux_ack looks val d)

  -- What the mouse is sent at the start.
  abbrev pub settings : (ℕ → Waits) → List (Waits × ℕ)
  settings looks =
      (looks 0, w.set_sample)
      ∷ (looks 1, 100)
      ∷ (looks 2, w.set_res)
      ∷ (looks 3, 3)
      ∷ (looks 4, w.set_scale21)
      ∷ []

  -- The port is enabled and 0xf4 is sent, where the BIOS has not detected a device.
  abbrev pub after_detection : Bool → Device → Device
  after_detection known d =
      if known then d else record d { enabled = true; written = 0xf4 ∷ d.written }

  -- `memset` and the lines after it. The memory is granted.
  abbrev pub new_queue : Queue → Queue
  new_queue q = record q { buf = replicate (2 ^ k) 0; head = 0; tail = 0 }

  -- `free` is whether `request_mem_region` gives the region. None where the detection does not end.
  unfoldable pub psaux_init :
      Bool → Bool → List Bool → List Bool → (ℕ → Waits) → Device → Option Started
  psaux_init free known turns stats looks d =
      let d' = after_detection known d in
      let ready = record d' { queue = new_queue d'.queue } in
      if not free
      then some (record { ret = w.ebusy; region = false; registered = false; device = d })
      else elim (detect_auxiliary_port known turns stats) [
        | none ↦ none
        | some false ↦
            some (record { ret = w.eio; region = false; registered = false; device = d' })
        | some true ↦ some (record {
          ret = 0;
          region = true;
          registered = true;
          device = send_all (settings looks) ready;
        })
      ]

-- The queue as it was, with no opener.
record Unopened (q q' : Queue) : Type 0 where
  closed : q'.aux_count ≡ 0
  same_head : q'.head ≡ q.head
  same_tail : q'.tail ≡ q.tail

handle_mouse_event-Unopened :
    (k aux_ack c : ℕ) (q : Queue) → q.aux_count ≡ 0 → Unopened q (handle_mouse_event k aux_ack c q)
unfolding handle_mouse_event enqueue
handle_mouse_event-Unopened k aux_ack c q e = record {
  closed = ground (arith, e);
  same_head = ground (arith, e);
  same_tail = ground (arith, e);
}

Unopened-trans : (a b c : Queue) → Unopened a b → Unopened b c → Unopened a c
Unopened-trans a b c u v = record {
  closed = v.closed;
  same_head = v.same_head ∙ u.same_head;
  same_tail = v.same_tail ∙ u.same_tail;
}

drain-Unopened :
    (k aux_ack work : ℕ) (port : List ℕ) (q : Queue)
    → q.aux_count ≡ 0
    → Unopened q ((drain k aux_ack work port q).1)
unfolding drain
drain-Unopened k aux_ack work [] q e = record { closed = e; same_head = refl; same_tail = refl }
drain-Unopened k aux_ack work (c ∷ port) q e =
    let q' = handle_mouse_event k aux_ack c q in
    let one : Unopened q q' = handle_mouse_event-Unopened k aux_ack c q e in
    elim (Bool-cases (work - 1 == 0)) [
      | inl stop ↦ rw stop one
      | inr on ↦ rw on (
          Unopened-trans q q' ((drain k aux_ack (work - 1) port q').1) one
            (drain-Unopened k aux_ack (work - 1) port q' one.closed))
    ]

ms_wait-Unopened :
    (k aux_ack : ℕ) (looks : List Look) (q : Queue)
    → q.aux_count ≡ 0
    → Unopened q (ms_wait k aux_ack looks q)
unfolding ms_wait handle_mse_event
ms_wait-Unopened k aux_ack [] q e = record { closed = e; same_head = refl; same_tail = refl }
ms_wait-Unopened k aux_ack (l ∷ looks) q e =
    let q' = (drain k aux_ack 10000 l.port q).1 in
    let one : Unopened q q' = drain-Unopened k aux_ack 10000 l.port q e in
    elim (Bool-cases l.txe) [
      | inl stop ↦ rw stop one
      | inr on ↦ rw on (
          Unopened-trans q q' (ms_wait k aux_ack looks q') one
            (ms_wait-Unopened k aux_ack looks q' one.closed))
    ]

aux_write_ack-Unopened :
    (k aux_ack : ℕ) (looks : Waits) (val : ℕ) (d : Device)
    → d.queue.aux_count ≡ 0
    → Unopened d.queue ((aux_write_ack k aux_ack looks val d).queue)
unfolding aux_write_ack
aux_write_ack-Unopened k aux_ack looks val d e =
    let q = ms_wait k aux_ack looks.before d.queue in
    let one : Unopened d.queue q = ms_wait-Unopened k aux_ack looks.before d.queue e in
    let expecting = record q { mouse_reply_expected = u8 (q.mouse_reply_expected + 1) } in
    let two = ms_wait-Unopened k aux_ack looks.after expecting one.closed in
    record {
      closed = two.closed;
      same_head = two.same_head ∙ one.same_head;
      same_tail = two.same_tail ∙ one.same_tail;
    }

send_all-Unopened :
    (k aux_ack : ℕ) (w : Words) (bytes : List (Waits × ℕ)) (d : Device)
    → d.queue.aux_count ≡ 0
    → Unopened d.queue ((send_all k aux_ack w bytes d).queue)
unfolding send_all
send_all-Unopened k aux_ack w [] d e = record { closed = e; same_head = refl; same_tail = refl }
send_all-Unopened k aux_ack w ((looks, val) ∷ bytes) d e =
    let d' = aux_write_ack k aux_ack looks val d in
    let one : Unopened d.queue d'.queue = aux_write_ack-Unopened k aux_ack looks val d e in
    Unopened-trans d.queue d'.queue ((send_all k aux_ack w bytes d').queue) one
      (send_all-Unopened k aux_ack w bytes d' one.closed)

settings-written :
    (k aux_ack : ℕ) (w : Words) (looks : ℕ → Waits) (d : Device)
    → (send_all k aux_ack w (settings k aux_ack w looks) d).written
      ≡ w.set_scale21 ∷ 3 ∷ w.set_res ∷ 100 ∷ w.set_sample ∷ d.written
unfolding send_all aux_write_ack
settings-written k aux_ack w looks d = refl

aux_poll-Unopened : (q q' : Queue) → Unopened q q' → q.head ≡ q.tail → aux_poll q' ≡ false
aux_poll-Unopened q q' u e =
    let same : q'.head ≡ q'.tail = omega (arith, u.same_head, u.same_tail, e) in
    ground (arith, same)

-- Where the region is free, the device is found and nobody has opened it, the start succeeds: the five settings are
-- sent in order, and the replies of the mouse do not enter the queue, so that a poll finds nothing to read.
psaux_init-found :
    (k aux_ack : ℕ) (w : Words) (known : Bool) (turns stats : List Bool) (looks : ℕ → Waits)
    (d : Device)
    → d.queue.aux_count ≡ 0
    → (found : detect_auxiliary_port known turns stats ≡ some true)
    → (s : Started) × (psaux_init k aux_ack w true known turns stats looks d ≡ some s)
      × (s.ret ≡ 0)
      × (s.registered ≡ true)
      × (s.device.written
          ≡ w.set_scale21
            ∷ 3
            ∷ w.set_res
            ∷ 100
            ∷ w.set_sample
            ∷ (after_detection k aux_ack w known d).written)
      × (aux_poll s.device.queue ≡ false)
unfolding psaux_init
psaux_init-found k aux_ack w known turns stats looks d e found =
    let d' = after_detection k aux_ack w known d in
    let ready = record d' { queue = new_queue k aux_ack w d'.queue } in
    let e' : ready.queue.aux_count ≡ 0 = ground (arith, e) in
    let u : Unopened ready.queue (send_all k aux_ack w (settings k aux_ack w looks) ready).queue =
      send_all-Unopened k aux_ack w (settings k aux_ack w looks) ready e' in
    rw found (
      record {
        ret = 0;
        region = true;
        registered = true;
        device = send_all k aux_ack w (settings k aux_ack w looks) ready;
      },
      refl,
      refl,
      refl,
      settings-written k aux_ack w looks ready,
      aux_poll-Unopened ready.queue
          ((send_all k aux_ack w (settings k aux_ack w looks) ready).queue) u refl,
    )
