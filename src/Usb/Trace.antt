-- ===== src/Usb/Trace.antt =====
-- What holds of the state machine of usb_ctl.c over any events.
use jornada.Common.{
  ◌≡◌, ◌≢◌, ◌⊎◌, inl, inr, sym, Bool, true, false, none, List, [], ◌∷◌, arith, ◌↔◌,
}
use jornada.Usb.Machine.{
  SmState, default, addr, addr_suspend, config, config_suspend, Event, suspend, reset, resume,
  address, configure, device_state_machine, sm_state_to_device_state, Core, Note, callback,
  endpoints, enter, usbctl_next_state_on_event, opened,
}
use mathlib.Core.List.{Memᴰ}

-- The device state that clients see is the one of the machine's state.
abbrev pub Agrees : Core → Type 0
Agrees c = c.state ≡ sm_state_to_device_state c.sm_state

unfoldable pub run : Core → List Event → Core
run c [] = c
run c (e ∷ es) = run (usbctl_next_state_on_event c e).core es

pub step-Agrees : (c : Core) (e : Event) → Agrees c → Agrees (usbctl_next_state_on_event c e).core
unfolding usbctl_next_state_on_event enter device_state_machine sm_state_to_device_state
step-Agrees c e h = ground arith

-- If the announced device state is that of the machine, it is so after any events.
run-Agrees : (c : Core) (es : List Event) → Agrees c → Agrees (run c es)
unfolding run
run-Agrees c [] h = h
run-Agrees c (e ∷ es) h = run-Agrees (usbctl_next_state_on_event c e).core es (step-Agrees c e h)

-- A bus reset brings every state to the default state.
pub reset-default : (c : Core) → (usbctl_next_state_on_event c reset).core.sm_state ≡ default
unfolding usbctl_next_state_on_event enter device_state_machine sm_state_to_device_state
reset-default c = ground arith

-- When the announced device state is that of the machine, a suspend that is accepted is undone by
-- the resume after it.
suspend-resume :
    (c : Core)
    → Agrees c
    → (usbctl_next_state_on_event c suspend).next ≢ none
    → (usbctl_next_state_on_event (usbctl_next_state_on_event c suspend).core resume).core ≡ c
unfolding usbctl_next_state_on_event enter device_state_machine sm_state_to_device_state
suspend-resume c h ok = ground arith

abbrev pub calls_back : List Note → Bool
calls_back [] = false
calls_back (callback ∷ _) = true
calls_back (endpoints _ ∷ notes) = calls_back notes

-- When the announced device state is that of the machine, an event calls the callback exactly when
-- there is one, the machine is in the address state, and the event is `configure`.
pub callback_exactly :
    (c : Core) (e : Event)
    → Agrees c
    → (calls_back (usbctl_next_state_on_event c e).notes ≡ true)
      ↔ ((c.has_callback ≡ true) × (c.sm_state ≡ addr) × (e ≡ configure))
unfolding usbctl_next_state_on_event enter device_state_machine sm_state_to_device_state
callback_exactly c e h = (λ called. ground arith, λ all. ground arith)

-- The device has a bus address, and may be suspended.
abbrev pub has_address : SmState → Bool
has_address addr = true
has_address addr_suspend = true
has_address config = true
has_address config_suspend = true
has_address _ = false

abbrev pub is_configured : SmState → Bool
is_configured config = true
is_configured config_suspend = true
is_configured _ = false

step_address :
    (c : Core) (e : Event)
    → has_address (usbctl_next_state_on_event c e).core.sm_state ≡ true
    → (has_address c.sm_state ≡ true) ⊎ (e ≡ address)
unfolding usbctl_next_state_on_event enter device_state_machine sm_state_to_device_state
step_address c e h = ground arith

step_configured :
    (c : Core) (e : Event)
    → is_configured (usbctl_next_state_on_event c e).core.sm_state ≡ true
    → (is_configured c.sm_state ≡ true) ⊎ ((e ≡ configure) × (has_address c.sm_state ≡ true))
unfolding usbctl_next_state_on_event enter device_state_machine sm_state_to_device_state
step_configured c e h = ground arith

run_address :
    (c : Core) (es : List Event)
    → has_address (run c es).sm_state ≡ true
    → (has_address c.sm_state ≡ true) ⊎ Memᴰ address es
unfolding run
run_address c [] h = inl h
run_address c (e ∷ es) h = elim (run_address (usbctl_next_state_on_event c e).core es h) [
  | inr later ↦ inr (Memᴰ.tail later)
  | inl now ↦ elim (step_address c e now) [
    | inl before ↦ inl before
    | inr is ↦ inr (Memᴰ.head (sym is))
  ]
]

-- `address` among the events, and `configure` after it.
abbrev pub AddressThenConfigure : List Event → Type 0
AddressThenConfigure [] = ⊥
AddressThenConfigure (e ∷ es) = ((e ≡ address) × Memᴰ configure es) ⊎ AddressThenConfigure es

run_configured :
    (c : Core) (es : List Event)
    → is_configured (run c es).sm_state ≡ true
    → (is_configured c.sm_state ≡ true)
      ⊎ ((has_address c.sm_state ≡ true) × Memᴰ configure es)
      ⊎ AddressThenConfigure es
unfolding run
run_configured c [] h = inl h
run_configured c (e ∷ es) h = elim (run_configured (usbctl_next_state_on_event c e).core es h) [
  | inl now ↦ elim (step_configured c e now) [
    | inl before ↦ inl before
    | inr (is, at) ↦ inr (inl (at, Memᴰ.head (sym is)))
  ]
  | inr (inl (now, later)) ↦ elim (step_address c e now) [
    | inl before ↦ inr (inl (before, Memᴰ.tail later))
    | inr is ↦ inr (inr (inl (is, later)))
  ]
  | inr (inr later) ↦ inr (inr (inr later))
]

-- A device that was just opened is configured after some events only if there is an `address` event
-- among them and a later `configure`.
pub configured_needs :
    (cb : Bool) (es : List Event)
    → is_configured (run (opened cb) es).sm_state ≡ true
    → AddressThenConfigure es
configured_needs cb es h = elim (run_configured (opened cb) es h) [
  | inl no_way ↦ cc
  | inr (inl no_way) ↦ cc (no_way.0)
  | inr (inr found) ↦ found
]
