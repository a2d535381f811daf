-- ===== src/Usb/Interrupt.antt =====
-- The interrupt handler of usb_ctl.c. What it does to the hardware and to the endpoints, which are in
-- other files, is the list of its actions; the status register and the read-backs are its inputs.
-- The bits are those of SA-1100.h: UDCCR has UDD 0, RESIM 2, SUSIM 6 and REM 7; UDCSR has EIR 0,
-- RIR 1, TIR 2, SUSIR 3, RESIR 4 and RSTIR 5.
use jornada.Common.{
  ℕ, zero, suc, ◌+◌, Bool, Option, none, some, List, [], ◌∷◌, ◌++◌, if◌then◌else◌, ◌==◌,
}
use jornada.Common.Bits.{bit}
use jornada.Usb.Machine.{SmState, suspend, reset, resume, Core, Note, usbctl_next_state_on_event}

pub data Action : Type 0 where
  ep0_reset ep1_reset ep2_reset : Action
  -- one bit of UDCCR is set, or cleared
  ccr_set ccr_clear : ℕ → Action
  -- UDC_flip of UDCSR: the pending sources of the word are cleared
  csr_flip : ℕ → Action
  -- core_kicker puts the address and the packet sizes back
  restore_registers : Action
  ep0_int_hndlr : Action
  ep1_int_hndlr ep2_int_hndlr : ℕ → Action
  note : Note → Action

abbrev pub rem : ℕ
rem = 7

abbrev pub susim : ℕ
susim = 6

abbrev pub resim : ℕ
resim = 2

abbrev pub udd : ℕ
udd = 0

-- What the read-backs of the four `while (1)` loops show: whether the `i`-th write of the loop took,
-- or a reset came.
pub record Hardware : Type 0 where
  pub resume_masked : ℕ → Bool
  pub suspend_unmasked : ℕ → Bool
  pub suspend_masked : ℕ → Bool
  pub resume_unmasked : ℕ → Bool

-- One such loop: writes until the read-back shows the bit, and 50 times at most.
unfoldable pub retry : ℕ → ℕ → Action → (ℕ → Bool) → List Action
retry zero i act took = []
retry (suc fuel) i act took =
    let rest = retry fuel (i + 1) act took in
    act ∷ (if took i then [] else if i + 1 == 50 then [] else rest)

abbrev pub tries : ℕ
tries = 50

unfoldable pub enable_resume_mask_suspend : Hardware → List Action
unfolding retry
enable_resume_mask_suspend hw =
    retry tries 0 (ccr_set susim) hw.suspend_masked
    ++ retry tries 0 (ccr_clear resim) hw.resume_unmasked

unfoldable pub enable_suspend_mask_resume : Hardware → List Action
unfolding retry
enable_suspend_mask_resume hw =
    retry tries 0 (ccr_set resim) hw.resume_masked
    ++ retry tries 0 (ccr_clear susim) hw.suspend_unmasked

abbrev pub core_kicker : List Action
core_kicker = ccr_set udd ∷ ccr_clear udd ∷ restore_registers ∷ []

abbrev pub notes_of : List Note → List Action
notes_of [] = []
notes_of (n ∷ ns) = note n ∷ notes_of ns

-- On a transition the endpoints are put back to idle.
abbrev pub flush : Option SmState → List Action
flush none = []
flush (some _) = ep0_reset ∷ ep1_reset ∷ ep2_reset ∷ []

-- The branch of a reset, which returns early.
unfoldable pub on_reset : Core → ℕ → Core × List Action
on_reset c status =
    let r = usbctl_next_state_on_event c reset in
    (
      r.core,
      notes_of r.notes
          ++ (flush r.next
              ++ (ccr_set rem ∷ ccr_clear susim ∷ ccr_clear resim ∷ csr_flip status ∷ [])),
    )

unfoldable pub on_resume : Hardware → Core → ℕ → Core × List Action
on_resume hw c status =
    let r = usbctl_next_state_on_event c resume in
    if bit status 4
    then (r.core, notes_of r.notes ++ (core_kicker ++ enable_suspend_mask_resume hw))
    else (c, [])

unfoldable pub on_suspend : Hardware → Core → ℕ → Core × List Action
on_suspend hw c status =
    let r = usbctl_next_state_on_event c suspend in
    if bit status 3 then (r.core, notes_of r.notes ++ enable_resume_mask_suspend hw) else (c, [])

unfoldable pub dispatch_endpoints : ℕ → List Action
dispatch_endpoints status =
    (if bit status 0 then ep0_int_hndlr ∷ [] else [])
    ++ ((if bit status 1 then ep1_int_hndlr status ∷ [] else [])
        ++ (if bit status 2 then ep2_int_hndlr status ∷ [] else []))

unfoldable pub udc_int_hndlr : Hardware → Core → ℕ → Core × List Action
udc_int_hndlr hw c status =
    let (c₁, resumed) = on_resume hw c status in
    let (c₂, halted) = on_suspend hw c₁ status in
    if bit status 5 then on_reset c status else (
      c₂,
      ccr_clear rem ∷ (resumed ++ (halted ++ (csr_flip status ∷ dispatch_endpoints status))),
    )
