-- ===== src/Usb/Service.antt =====
-- Which sources the interrupt handler of usb_ctl.c serves.
use jornada.Common.{
  ℕ, zero, suc, ◌+◌, ◌≤◌, ◌<◌, ◌≡◌, inl, inr, refl, Bool, true, false, Option, none, some, List, [],
  ◌∷◌, ◌++◌, arith, if◌then◌else◌, ◌==◌, length, ne→==, Bool-cases, ◌∙◌,
}
use jornada.Common.Bits.{bit}
use native.Mathlib.Decide.{ℕ_discrete}
use jornada.Usb.Machine.{
  SmState, suspend, reset, resume, default, Core, Note, Reaction, usbctl_next_state_on_event,
}
use jornada.Usb.Trace.{Agrees, step-Agrees, reset-default}
use jornada.Usb.Interrupt.{
  Action, ep0_reset, ep1_reset, ep2_reset, ccr_set, ccr_clear, csr_flip, restore_registers,
  ep0_int_hndlr, ep1_int_hndlr, ep2_int_hndlr, note, Hardware, retry, tries, susim, resim, notes_of,
  enable_resume_mask_suspend, enable_suspend_mask_resume, flush, on_reset, on_resume, on_suspend,
  dispatch_endpoints, udc_int_hndlr,
}

-- How much an action that counts occurs.
abbrev pub count : (Action → ℕ) → List Action → ℕ
count f [] = 0
count f (a ∷ rest) = f a + count f rest

count-append : (f : Action → ℕ) (xs ys : List Action) → count f (xs ++ ys) ≡ count f xs + count f ys
count-append f [] ys = omega arith
count-append f (a ∷ xs) ys = omega (arith, count-append f xs ys)

count-three :
    (f : Action → ℕ) (xs ys zs : List Action)
    → count f (xs ++ (ys ++ zs)) ≡ count f xs + count f ys + count f zs
count-three f xs ys zs = omega (arith, count-append f xs (ys ++ zs), count-append f ys zs)

-- A count that neither UDCCR nor an announcement adds to.
record IsQuiet (f : Action → ℕ) : Type 0 where
  sets : (k : ℕ) → f (ccr_set k) ≡ 0
  clears : (k : ℕ) → f (ccr_clear k) ≡ 0
  restores : f restore_registers ≡ 0
  announces : (n : Note) → f (note n) ≡ 0

count-retry :
    (f : Action → ℕ) (fuel i : ℕ) (act : Action) (took : ℕ → Bool)
    → f act ≡ 0
    → count f (retry fuel i act took) ≡ 0
unfolding retry
count-retry f zero i act took h = refl
count-retry f (suc fuel) i act took h = ground (arith, count-retry f fuel (i + 1) act took h)

module _ (f : Action → ℕ) (q : IsQuiet f) where
  count-notes_of : (ns : List Note) → count f (notes_of ns) ≡ 0
  count-notes_of [] = refl
  count-notes_of (n ∷ ns) = omega (arith, q.announces n, count-notes_of ns)

  count-on_resume : (hw : Hardware) (c : Core) (status : ℕ) → count f (on_resume hw c status).1 ≡ 0
  unfolding on_resume enable_suspend_mask_resume
  count-on_resume hw c status = elim (Bool-cases (bit status 4)) [
    | inl e ↦ rw e (
        rw
          (
            count-append,
            count-append,
            count-append,
            count-notes_of,
            count-retry f tries 0 (ccr_set resim) hw.resume_masked (q.sets resim),
            count-retry f tries 0 (ccr_clear susim) hw.suspend_unmasked (q.clears susim),
          )
          (omega (arith, q.sets 0, q.clears 0, q.restores)))
    | inr e ↦ rw e
  ]

  count-on_suspend :
      (hw : Hardware) (c : Core) (status : ℕ) → count f (on_suspend hw c status).1 ≡ 0
  unfolding on_suspend enable_resume_mask_suspend
  count-on_suspend hw c status = elim (Bool-cases (bit status 3)) [
    | inl e ↦ rw e (
        rw (
          count-append,
          count-append,
          count-notes_of,
          count-retry f tries 0 (ccr_set susim) hw.suspend_masked (q.sets susim),
          count-retry f tries 0 (ccr_clear resim) hw.resume_unmasked (q.clears resim),
        ))
    | inr e ↦ rw e
  ]

  count-handler :
      (hw : Hardware) (c : Core) (status : ℕ)
      → bit status 5 ≡ false
      → count f (udc_int_hndlr hw c status).1
        ≡ f (csr_flip status) + count f (dispatch_endpoints status)
  unfolding udc_int_hndlr
  count-handler hw c status e =
      let first : Core × List Action = on_resume hw c status in
      let second : Core × List Action = on_suspend hw first.0 status in
      rw e (
        omega (
          arith,
          q.clears 7,
          count-on_resume hw c status,
          count-on_suspend hw first.0 status,
          count-three f first.1 second.1 (csr_flip status ∷ dispatch_endpoints status),
        ))

  count-reset :
      (hw : Hardware) (c : Core) (status : ℕ)
      → f ep0_reset ≡ 0
      → f ep1_reset ≡ 0
      → f ep2_reset ≡ 0
      → bit status 5 ≡ true
      → count f (udc_int_hndlr hw c status).1 ≡ f (csr_flip status)
  unfolding udc_int_hndlr on_reset
  count-reset hw c status r0 r1 r2 e =
      let r : Reaction = usbctl_next_state_on_event c reset in
      rw e (
        omega (
          arith,
          q.sets 7,
          q.clears 6,
          q.clears 2,
          r0,
          r1,
          r2,
          count-notes_of r.notes,
          count-flush r.next,
          count-three f (notes_of r.notes) (flush r.next)
              (ccr_set 7 ∷ ccr_clear 6 ∷ ccr_clear 2 ∷ csr_flip status ∷ []),
        ))
    where
      count-flush : (o : Option SmState) → count f (flush o) ≡ 0
      count-flush none = refl
      count-flush (some _) = omega (arith, r0, r1, r2)

-- How often something is done with the status of the interrupt; with another word it counts twice, so that a count of
-- 1 means that it is done once, and with that status.
abbrev pub flips : ℕ → Action → ℕ
flips status (csr_flip w) = if w == status then 1 else 2
flips status _ = 0

abbrev pub serves_ep0 : Action → ℕ
serves_ep0 ep0_int_hndlr = 1
serves_ep0 _ = 0

abbrev pub serves_ep1 : ℕ → Action → ℕ
serves_ep1 status (ep1_int_hndlr w) = if w == status then 1 else 2
serves_ep1 status _ = 0

abbrev pub serves_ep2 : ℕ → Action → ℕ
serves_ep2 status (ep2_int_hndlr w) = if w == status then 1 else 2
serves_ep2 status _ = 0

serves_ep0-IsQuiet : IsQuiet serves_ep0
serves_ep0-IsQuiet = omega arith

serves_ep1-IsQuiet : (status : ℕ) → IsQuiet (serves_ep1 status)
serves_ep1-IsQuiet status = omega arith

serves_ep2-IsQuiet : (status : ℕ) → IsQuiet (serves_ep2 status)
serves_ep2-IsQuiet status = omega arith

flips-IsQuiet : (status : ℕ) → IsQuiet (flips status)
flips-IsQuiet status = omega arith

flips_once : (status : ℕ) → flips status (csr_flip status) ≡ 1
flips_once status = ground arith

endpoints_served :
    (status : ℕ)
    → let actions = dispatch_endpoints status in
      (count serves_ep0 actions ≡ (if bit status 0 then 1 else 0))
      × (count (serves_ep1 status) actions ≡ (if bit status 1 then 1 else 0))
      × (count (serves_ep2 status) actions ≡ (if bit status 2 then 1 else 0))
      × (count (flips status) actions ≡ 0)
unfolding dispatch_endpoints
endpoints_served status = ground arith

-- On an interrupt without a reset, the handler serves each of the three endpoints once, the two bulk
-- endpoints with the status of the interrupt, if its source is pending and not otherwise, and writes
-- exactly that status to clear the pending sources, once.
pub udc_int_hndlr-serves :
    (hw : Hardware) (c : Core) (status : ℕ)
    → bit status 5 ≡ false
    → let actions = (udc_int_hndlr hw c status).1 in
      (count serves_ep0 actions ≡ (if bit status 0 then 1 else 0))
      × (count (serves_ep1 status) actions ≡ (if bit status 1 then 1 else 0))
      × (count (serves_ep2 status) actions ≡ (if bit status 2 then 1 else 0))
      × (count (flips status) actions ≡ 1)
udc_int_hndlr-serves hw c status e = (
  omega (
    arith,
    count-handler serves_ep0 serves_ep0-IsQuiet hw c status e,
    (endpoints_served status).0,
  ),
  omega (
    arith,
    count-handler (serves_ep1 status) (serves_ep1-IsQuiet status) hw c status e,
    (endpoints_served status).1,
  ),
  omega (
    arith,
    count-handler (serves_ep2 status) (serves_ep2-IsQuiet status) hw c status e,
    (endpoints_served status).2,
  ),
  omega (
    arith,
    count-handler (flips status) (flips-IsQuiet status) hw c status e,
    flips_once status,
    (endpoints_served status).3,
  ),
)

-- On an interrupt with a reset, no endpoint is served, whatever else is pending, the pending sources
-- are cleared once, and the machine is in the default state.
udc_int_hndlr-reset :
    (hw : Hardware) (c : Core) (status : ℕ)
    → bit status 5 ≡ true
    → let (c', actions) = udc_int_hndlr hw c status in
      (c'.sm_state ≡ default)
      × (count serves_ep0 actions ≡ 0)
      × (count (serves_ep1 status) actions ≡ 0)
      × (count (serves_ep2 status) actions ≡ 0)
      × (count (flips status) actions ≡ 1)
unfolding udc_int_hndlr on_reset
udc_int_hndlr-reset hw c status e = (
  rw e (reset-default c),
  count-reset serves_ep0 serves_ep0-IsQuiet hw c status refl refl refl e,
  count-reset (serves_ep1 status) (serves_ep1-IsQuiet status) hw c status refl refl refl e,
  count-reset (serves_ep2 status) (serves_ep2-IsQuiet status) hw c status refl refl refl e,
  count-reset (flips status) (flips-IsQuiet status) hw c status refl refl refl e
      ∙ flips_once status,
)

retry_from :
    (act : Action) (took : ℕ → Bool) (fuel i n : ℕ)
    → i ≤ n
    → n < i + fuel
    → i + fuel ≡ 50
    → took n ≡ true
    → ((j : ℕ) → i ≤ j → j < n → took j ≡ false)
    → length (retry fuel i act took) + i ≡ n + 1
unfolding retry
retry_from act took zero i n lo hi sum at before = absurd (omega arith)
retry_from act took (suc fuel) i n lo hi sum at before = elim (ℕ_discrete i n) [
  | yes here ↦ let e : took i ≡ true = rw here at in rw e (omega arith)
  | no later ↦
      let e : took i ≡ false = before i (omega arith) (omega arith) in
      let more : (i + 1 == 50) ≡ false = ne→== (i + 1) 50 (omega arith) in
      rw (e, more)
        (omega (
          arith,
          retry_from act took fuel (i + 1) n (omega arith) (omega arith) (omega arith) at
              (λ j l h. before j (omega arith) h),
        ))
]

-- A write of an interrupt mask is repeated up to the first read-back that shows it, if one of the first
-- 50 does.
retry_lem :
    (act : Action) (took : ℕ → Bool) (n : ℕ)
    → n < 50
    → took n ≡ true
    → ((i : ℕ) → i < n → took i ≡ false)
    → length (retry tries 0 act took) ≡ n + 1
retry_lem act took n lt at before =
    omega (arith, retry_from act took tries 0 n (omega arith) lt refl at (λ j l h. before j h))

-- The device state that is announced stays that of the machine across an interrupt.
udc_int_hndlr-Agrees :
    (hw : Hardware) (c : Core) (status : ℕ) → Agrees c → Agrees (udc_int_hndlr hw c status).0
unfolding udc_int_hndlr on_reset on_resume on_suspend
udc_int_hndlr-Agrees hw c status h = ground (
  arith,
  step-Agrees c reset h,
  step-Agrees c resume h,
  step-Agrees c suspend h,
  step-Agrees (usbctl_next_state_on_event c resume).core suspend,
)
