-- ===== src/Usb/Tests.antt =====
-- Runs of usb_ctl.c's machine, of its interrupt handler and of its interface.
use jornada.Common.{◌≡◌, refl, true, List, [], ◌∷◌, ◌==◌}
use jornada.Usb.Machine.{
  addr, Event, reset, resume, address, configure, addressed, Core, usbctl_next_state_on_event,
  opened, device_state_machine, enter, sm_state_to_device_state,
}
use jornada.Usb.Trace.{run, is_configured, AddressThenConfigure, configured_needs}
use jornada.Usb.Interrupt.{Hardware, udc_int_hndlr}
use jornada.Usb.Service.{udc_int_hndlr-serves, count, serves_ep0, serves_ep1, serves_ep2, flips}

abbrev at_addr : Core
at_addr = record { sm_state = addr; state = addressed; has_callback = true }

abbrev bring_up : List Event
bring_up = resume ∷ reset ∷ address ∷ configure ∷ []

bring_up-configured : is_configured (run (opened true) bring_up).sm_state ≡ true
unfolding run usbctl_next_state_on_event enter device_state_machine sm_state_to_device_state
bring_up-configured = refl

configured_needs_example : AddressThenConfigure bring_up
configured_needs_example = configured_needs true bring_up bring_up-configured

-- Each write takes at once, but the third one for the suspend mask.
abbrev hardware : Hardware
hardware = record {
  resume_masked = λ i. true;
  suspend_unmasked = λ i. true;
  suspend_masked = λ i. i == 2;
  resume_unmasked = λ i. true;
}

-- The status has the bits of endpoints 0 and 2 and of a suspend.
udc_int_hndlr-serves_example :
    let actions = (udc_int_hndlr hardware at_addr 13).1 in
    (count serves_ep0 actions ≡ 1)
    × (count (serves_ep1 13) actions ≡ 0)
    × (count (serves_ep2 13) actions ≡ 1)
    × (count (flips 13) actions ≡ 1)
udc_int_hndlr-serves_example = udc_int_hndlr-serves hardware at_addr 13 refl
