-- ===== src/Ohci/Submit.antt =====
-- `sohci_submit_urb` of linux/kernel/drivers/usb/host/usb-ohci.c and `urb_free_priv`, which its error paths call, as
-- steps on what a request holds. The start frame and the packets of an isochronous request are not part of it.
use jornada.Common.{
  ℕ, zero, suc, ◌+◌, ◌-◌, Bool, true, false, not, ◌&&◌, Option, none, some, if◌then◌else◌, ltb,
}
use jornada.Ohci.Transfer.{
  PipeType, pipe_isochronous, pipe_interrupt, pipe_control, pipe_bulk, Urb, td_count,
}

pub data Answer : Type 0 where
  submitted : Answer
  enodev : Answer
  einval : Answer
  eshutdown : Answer
  enomem : Answer
  no_bandwidth : Answer

-- The state of the endpoint, as `ep_add_ed` leaves it: ED_NEW or one with ED_DEL, another, or ED_OPER.
pub data Endpoint : Type 0 where
  unusable : Endpoint
  unlinked : Endpoint
  linked : Endpoint

-- What the call finds: the device and its controller, whether `kmalloc` and each `td_alloc` succeed, whether
-- bandwidth was claimed before, and whether there is enough of it.
pub record World : Type 0 where
  pub has_bus : Bool
  pub to_root_hub : Bool
  pub disabled : Bool
  pub has_priv : Bool
  pub td_allocs : ℕ → Bool
  pub has_bandwidth : Bool
  pub enough_bandwidth : Bool

-- What the steps change: the references to the device, the private parts and the TDs that are allocated, whether the
-- request has a private part in `hcpriv` and whether it is pending, the claims of bandwidth, and the endpoint that
-- `ep_add_ed` gave.
pub record Held : Type 0 where
  pub dev_use : ℕ
  pub privs : ℕ
  pub tds : ℕ
  pub hcpriv : Bool
  pub pending : Bool
  pub claims : ℕ
  pub endpoint : Option Endpoint

-- An answer, a request that `rh_submit_urb` gets, or a read through the `urb` of a TD that was never filled.
pub data Outcome : Type 0 where
  answered : Answer → Held → Outcome
  handed_over : Held → Outcome
  wild : Held → Outcome

abbrev pub usb_inc_dev_use : Held → Held
usb_inc_dev_use s = record s { dev_use = s.dev_use + 1 }

abbrev pub usb_dec_dev_use : Held → Held
usb_dec_dev_use s = record s { dev_use = s.dev_use - 1 }

abbrev pub kmalloc : Held → Held
kmalloc s = record s { privs = s.privs + 1 }

abbrev pub kfree : Held → Held
kfree s = record s { privs = s.privs - 1 }

abbrev pub td_alloc : Held → Held
td_alloc s = record s { tds = s.tds + 1 }

abbrev pub td_free : Held → Held
td_free s = record s { tds = s.tds - 1 }

abbrev pub usb_claim_bandwidth : Held → Held
usb_claim_bandwidth s = record s { claims = s.claims + 1 }

-- "for (i = 0; i <= last; i++)", with a TD in every place.
unfoldable pub free_tds : ℕ → Held → Held
free_tds zero s = s
free_tds (suc n) s = free_tds n (td_free s)

-- For a private part of the length `n`; `filled` is whether `td_fill` has set the `urb` of its first TD, which is read
-- where there is one.
unfoldable pub urb_free_priv : (filled : Bool) → (n : ℕ) → Held → Option Held
urb_free_priv filled n s = if ltb 0 n && not filled then none else some (kfree (free_tds n s))

-- The loop of `td_alloc` from `i` on: whether it got all, the length it leaves, and the state.
unfoldable pub alloc_tds : (ℕ → Bool) → ℕ → ℕ → Held → Bool × ℕ × Held
alloc_tds allocs i zero s = (true, i, s)
alloc_tds allocs i (suc n) s =
    let rest = alloc_tds allocs (i + 1) n (td_alloc s) in if allocs i then rest else (false, i, s)

abbrev pub periodic : PipeType → Bool
periodic pipe_isochronous = true
periodic pipe_interrupt = true
periodic pipe_control = false
periodic pipe_bulk = false

-- An error path after the private part is there, before a TD is filled.
unfoldable pub undone : Answer → ℕ → Held → Outcome
undone answer n s = elim (urb_free_priv false n s) [
  | none ↦ wild s
  | some s' ↦ answered answer (usb_dec_dev_use s')
]

-- The end of a call: the private part is the request's, and the endpoint is linked if it is not already.
abbrev pub finished : PipeType → Held → Held
finished pipe s =
    let s' = if periodic pipe then usb_claim_bandwidth s else s in
    record s' { hcpriv = true; pending = true; endpoint = some linked }

-- After the allocations, for `size` TDs.
unfoldable pub submit_tds : World → PipeType → Endpoint → ℕ → Held → Outcome
submit_tds w pipe unusable size s = undone einval size s
submit_tds w pipe ed size s =
    if periodic pipe && (not w.has_bandwidth && not w.enough_bandwidth)
    then undone no_bandwidth size s
    else answered submitted (finished pipe s)

unfoldable pub submit_sized : World → PipeType → Endpoint → ℕ → Held → Outcome
submit_sized w pipe ed size s =
    let (all, n, s') = alloc_tds w.td_allocs 0 size (kmalloc s) in
    if not w.has_priv
    then answered enomem (usb_dec_dev_use s)
    else if not all
    then undone enomem n s'
    else submit_tds w pipe ed size s'

unfoldable pub sohci_submit_urb : World → (maxps : ℕ) → Urb → PipeType → Held → Outcome
sohci_submit_urb w maxps u pipe s =
    let s' = usb_inc_dev_use s in
    if not w.has_bus
    then answered enodev s
    else if s.hcpriv
    then answered einval s
    else if w.to_root_hub
    then handed_over s'
    else if w.disabled
    then answered eshutdown (usb_dec_dev_use s')
    else elim s'.endpoint [
      | none ↦ answered enomem (usb_dec_dev_use s')
      | some ed ↦ elim (td_count maxps u pipe) [
        | none ↦ answered einval (usb_dec_dev_use s')
        | some size ↦ submit_sized w pipe ed size s'
      ]
    ]
