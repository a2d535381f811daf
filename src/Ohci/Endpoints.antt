-- ===== src/Ohci/Endpoints.antt =====
-- `ep_add_ed` of linux/kernel/drivers/usb/host/usb-ohci.c, which finds the endpoint of a request and starts it when
-- it is new. The table of a device's endpoints is left to the caller: the endpoint is an argument.
use jornada.Common.{
  ℕ, ◌+◌, ◌*◌, ◌^◌, ◌≡◌, ◌≢◌, ◌⊎◌, Bool, true, false, ◌&&◌, ◌||◌, Option, none, some, if◌then◌else◌,
  ◌==◌, arith, Bool-cases, inl, inr, refl, ap, sym, ◌∙◌,
}
use jornada.Common.Bits.{bit}
use jornada.Ohci.Transfer.{PipeType, pipe_isochronous, pipe_interrupt, pipe_control, bits_or}
use jornada.Ohci.Submit.{Endpoint, unusable, unlinked, linked}

-- The fields of `struct ed` that the call reads or writes. In `state`, 0 is ED_NEW, 1 ED_UNLINK, 2 ED_OPER, and
-- the bits 2 and 3 are ED_DEL and ED_URB_DEL.
pub record Ed : Type 0 where
  pub info : ℕ
  pub head : ℕ
  pub tail : ℕ
  pub state : ℕ
  pub kind : PipeType
  pub int_period : ℕ
  pub int_load : ℕ

-- What the kernel's macros read from a pipe, and its largest packet.
pub record Pipe : Type 0 where
  pub device : ℕ
  pub endpoint : ℕ
  pub kind : PipeType
  pub out : Bool
  pub slow : Bool
  pub maxpacket : ℕ

-- Whether the call gives the endpoint, the endpoint, the device's count of endpoints, and how many TDs the call
-- has taken and not given back.
pub record Added : Type 0 where
  pub found : Bool
  pub ed : Ed
  pub ed_cnt : ℕ
  pub taken : ℕ

unfoldable pub is_dying : Ed → Bool
is_dying e = bit e.state 2 || bit e.state 3

abbrev is_isochronous : PipeType → Bool
is_isochronous pipe_isochronous = true
is_isochronous _ = false

abbrev is_control : PipeType → Bool
is_control pipe_control = true
is_control _ = false

abbrev is_interrupt : PipeType → Bool
is_interrupt pipe_interrupt = true
is_interrupt _ = false

-- `hwINFO`
unfoldable pub info_word : Pipe → ℕ
info_word p =
    bits_or
      (bits_or
        (bits_or
          (bits_or (bits_or p.device (p.endpoint * 2 ^ 7))
            (if is_isochronous p.kind then 0x8000 else 0))
          (if is_control p.kind then 0 else if p.out then 0x800 else 0x1000))
        (if p.slow then 2 ^ 13 else 0))
      (p.maxpacket * 2 ^ 16)

-- A new endpoint, for the address of its dummy TD.
unfoldable pub started : Pipe → ℕ → Ed → Ed
started p td e = record e { tail = td; head = td; state = 1; kind = p.kind }

-- What is set for every request.
unfoldable pub renewed : Pipe → (interval load : ℕ) → Ed → Ed
unfolding info_word
renewed p interval load e =
    if is_interrupt e.kind && e.state == 1
    then record e { info = info_word p; int_period = interval; int_load = load }
    else record e { info = info_word p }

-- Where there is no memory. 2 ^ 14 is OHCI_ED_SKIP.
abbrev pub out_of_memory : Ed → (ed_cnt : ℕ) → Added
out_of_memory e ed_cnt = record {
  found = false;
  ed = record e { info = 2 ^ 14 };
  ed_cnt = ed_cnt;
  taken = 0;
}

-- A new endpoint: `td` is what `td_alloc` gives, and `hashed` whether `hash_add_ed` succeeds.
unfoldable pub add_new :
    Pipe → (interval load : ℕ) (td : Option ℕ) (hashed : Bool) → Ed → (ed_cnt : ℕ) → Added
unfolding started renewed
add_new p interval load none hashed e ed_cnt = out_of_memory e ed_cnt
add_new p interval load (some dummy) false e ed_cnt = out_of_memory e ed_cnt
add_new p interval load (some dummy) true e ed_cnt = record {
  found = true;
  ed = renewed p interval load (started p dummy (record e { info = 2 ^ 14 }));
  ed_cnt = ed_cnt + 1;
  taken = 1;
}

unfoldable pub ep_add_ed :
    Pipe → (interval load : ℕ) (td : Option ℕ) (hashed : Bool) → Ed → (ed_cnt : ℕ) → Added
unfolding is_dying add_new renewed
ep_add_ed p interval load td hashed e ed_cnt =
    if is_dying e
    then record { found = false; ed = e; ed_cnt = ed_cnt; taken = 0 }
    else if e.state == 0
    then add_new p interval load td hashed e ed_cnt
    else record { found = true; ed = renewed p interval load e; ed_cnt = ed_cnt; taken = 0 }

-- The endpoint as `sohci_submit_urb` looks at it.
unfoldable pub seen : Ed → Endpoint
seen e =
    if e.state == 0 || bit e.state 2 then unusable else if e.state == 2 then linked else unlinked

-- What holds of an endpoint that is given: it is of use, and its queue is empty if it was new and as it was
-- otherwise; the new ones hold one TD and are counted.
pub record IsGiven (e : Ed) (td : Option ℕ) (ed_cnt : ℕ) (a : Added) : Type 0 where
  pub of_use : seen a.ed ≢ unusable
  pub counted : a.ed_cnt ≡ ed_cnt + a.taken
  pub queued :
      ((e.state ≡ 0) × (a.taken ≡ 1) × (some a.ed.tail ≡ td) × (a.ed.head ≡ a.ed.tail))
      ⊎ ((e.state ≢ 0)
          × (a.taken ≡ 0)
          × (a.ed.tail ≡ e.tail)
          × (a.ed.head ≡ e.head)
          × (a.ed.state ≡ e.state))

-- What holds otherwise.
pub record IsRefused (e : Ed) (ed_cnt : ℕ) (a : Added) : Type 0 where
  pub reason : (is_dying e ≡ true) ⊎ (e.state ≡ 0)
  pub nothing_taken : a.taken ≡ 0
  pub count_kept : a.ed_cnt ≡ ed_cnt
  pub queue_kept : (a.ed.tail ≡ e.tail) × (a.ed.head ≡ e.head) × (a.ed.state ≡ e.state)

renewed-kept :
    (p : Pipe) (interval load : ℕ) (e : Ed)
    → ((renewed p interval load e).state ≡ e.state)
      × ((renewed p interval load e).tail ≡ e.tail)
      × ((renewed p interval load e).head ≡ e.head)
unfolding renewed
renewed-kept p interval load e = elim (Bool-cases (is_interrupt e.kind && e.state == 1)) [
  | inl t ↦ rw t (refl, refl, refl)
  | inr t ↦ rw t (refl, refl, refl)
]

seen-state :
    (e : Ed) (state : ℕ)
    → e.state ≡ state
    → (state == 0) ≡ false
    → bit state 2 ≡ false
    → seen e ≢ unusable
unfolding seen
seen-state e state same old alive h = elim (Bool-cases (state == 2)) [
  | inl t ↦ let l : seen e ≡ linked = rw (same, old, alive, t) refl in cc (h, l)
  | inr t ↦ let l : seen e ≡ unlinked = rw (same, old, alive, t) refl in cc (h, l)
]

module _ (p : Pipe) (interval load : ℕ) (ed_cnt : ℕ) where
  out_of_memory-IsRefused : (e : Ed) → e.state ≡ 0 → IsRefused e ed_cnt (out_of_memory e ed_cnt)
  out_of_memory-IsRefused e new = record {
    reason = inr new;
    nothing_taken = refl;
    count_kept = refl;
    queue_kept = (refl, refl, refl);
  }

  started-IsGiven :
      (dummy : ℕ) (e : Ed)
      → e.state ≡ 0
      → IsGiven e (some dummy) ed_cnt (record {
        found = true;
        ed = renewed p interval load (started p dummy (record e { info = 2 ^ 14 }));
        ed_cnt = ed_cnt + 1;
        taken = 1;
      })
  unfolding started
  started-IsGiven dummy e new =
      let (state, tail, head) =
        renewed-kept p interval load (started p dummy (record e { info = 2 ^ 14 })) in
      record {
        of_use =
            seen-state (renewed p interval load (started p dummy (record e { info = 2 ^ 14 }))) 1
              state refl refl;
        counted = refl;
        queued = inl (new, refl, ap some tail, head ∙ sym tail);
      }

  add_new_lem :
      (td : Option ℕ) (hashed : Bool) (e : Ed)
      → e.state ≡ 0
      → let a = add_new p interval load td hashed e ed_cnt in
        ((a.found ≡ true) × IsGiven e td ed_cnt a) ⊎ ((a.found ≡ false) × IsRefused e ed_cnt a)
  unfolding add_new
  add_new_lem none hashed e new = inr (refl, out_of_memory-IsRefused e new)
  add_new_lem (some dummy) false e new = inr (refl, out_of_memory-IsRefused e new)
  add_new_lem (some dummy) true e new = inl (refl, started-IsGiven dummy e new)

  old-IsGiven :
      (td : Option ℕ) (e : Ed)
      → is_dying e ≡ false
      → (e.state == 0) ≡ false
      → IsGiven e td ed_cnt
          (record { found = true; ed = renewed p interval load e; ed_cnt = ed_cnt; taken = 0 })
  unfolding is_dying
  old-IsGiven td e alive old =
      let (state, tail, head) = renewed-kept p interval load e in
      record {
        of_use = seen-state (renewed p interval load e) e.state state old (ground (arith, alive));
        counted = omega arith;
        queued = inr (ground (arith, old), refl, tail, head, state);
      }

-- `ep_add_ed` either gives the endpoint, which `sohci_submit_urb` then does not reject: a new one is
-- counted and has a queue of one new TD, its dummy, and another one keeps its state and its queue.
-- Or it gives none, because the endpoint is about to be deleted or is new, and then its state, its
-- queue and the count are as before and no TD is kept.
pub ep_add_ed_lem :
    (p : Pipe) (interval load : ℕ) (td : Option ℕ) (hashed : Bool) (e : Ed) (ed_cnt : ℕ)
    → let a = ep_add_ed p interval load td hashed e ed_cnt in
      ((a.found ≡ true) × IsGiven e td ed_cnt a) ⊎ ((a.found ≡ false) × IsRefused e ed_cnt a)
unfolding ep_add_ed
ep_add_ed_lem p interval load td hashed e ed_cnt = elim (Bool-cases (is_dying e)) [
  | inl dying ↦ rw dying (
      inr (
        refl,
        record {
          reason = inl dying;
          nothing_taken = refl;
          count_kept = refl;
          queue_kept = (refl, refl, refl);
        },
      ))
  | inr alive ↦ elim (Bool-cases (e.state == 0)) [
    | inr old ↦ rw (alive, old) (inl (refl, old-IsGiven p interval load ed_cnt td e alive old))
    | inl new ↦
        let zero_state : e.state ≡ 0 = ground (arith, new) in
        rw (alive, new) (add_new_lem p interval load ed_cnt td hashed e zero_state)
  ]
]
