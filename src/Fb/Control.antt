-- ===== src/Fb/Control.antt =====
-- The states of the controller of sa1100fb.c, and the requests that are merged.
use jornada.Common.{
  ◌≡◌, ◌≢◌, ◌⊎◌, Bool, true, false, none, List, arith, Bool-cases, Option-cases, [], ◌∷◌, inl, inr,
  refl,
}
use jornada.Fb.Defs.{
  Ctrlr, c_startup, c_disable, c_enable, c_disable_clkchange, c_enable_clkchange, c_reenable,
  c_disable_pm, c_enable_pm, Info, sa1100fb_schedule_work, set_ctrlr_state, sa1100fb_task,
  sa1100fb_suspend, sa1100fb_resume,
}

abbrev pub IsOn : Info → Type 0
IsOn f = (f.hardware.lccr0.len ≡ true) × (f.lcd ≡ true)

abbrev pub IsOff : Info → Type 0
IsOff f = (f.hardware.lccr0.len ≡ false) × (f.lcd ≡ false)

-- The controller and the LCD are as the state says.
abbrev pub IsSettled : Info → Type 0
IsSettled f =
    (f.state ≡ c_startup)
    ⊎ ((f.state ≡ c_enable) × IsOn f)
    ⊎ ((f.state ≡ c_disable) × IsOff f × (f.backlight ≡ false))
    ⊎ ((f.state ≡ c_disable_pm) × IsOff f × (f.backlight ≡ false))
    ⊎ ((f.state ≡ c_disable_clkchange) × IsOff f)

set_ctrlr_state-IsSettled :
    (req : Ctrlr) (f : Info) → IsSettled f → IsSettled (set_ctrlr_state req f)
unfolding set_ctrlr_state
set_ctrlr_state-IsSettled c_disable f h = ground arith
set_ctrlr_state-IsSettled c_disable_pm f h = ground arith
set_ctrlr_state-IsSettled c_enable f h = ground arith
set_ctrlr_state-IsSettled c_reenable f h = ground arith
set_ctrlr_state-IsSettled c_disable_clkchange f h = ground arith
set_ctrlr_state-IsSettled c_enable_clkchange f h = ground arith
set_ctrlr_state-IsSettled c_enable_pm f h = ground arith
set_ctrlr_state-IsSettled c_startup f h = ground arith

-- What reaches the controller: a request for its task, the task, and the calls that do not go through the task.
pub data Event : Type 0 where
  schedule : Ctrlr → Event
  task : Event
  suspend resume : Bool → Event
  direct : Ctrlr → Event

abbrev pub handle : Event → Info → Info
handle (schedule s) f = sa1100fb_schedule_work s f
handle task f = sa1100fb_task f
handle (suspend off) f = sa1100fb_suspend off f
handle (resume on) f = sa1100fb_resume on f
handle (direct s) f = set_ctrlr_state s f

abbrev pub run : List Event → Info → Info
run [] f = f
run (e ∷ es) f = run es (handle e f)

handle-IsSettled : (e : Event) (f : Info) → IsSettled f → IsSettled (handle e f)
unfolding sa1100fb_schedule_work sa1100fb_task sa1100fb_suspend sa1100fb_resume
handle-IsSettled (schedule s) f h = ground arith
handle-IsSettled task f h = elim (Option-cases f.task_state) [
  | inl e ↦ rw e h
  | inr (s, e) ↦ rw e (set_ctrlr_state-IsSettled s (record f { task_state = none }) h)
]
handle-IsSettled (suspend off) f h = elim (Bool-cases off) [
  | inl e ↦ rw e (set_ctrlr_state-IsSettled c_disable_pm f h)
  | inr e ↦ rw e h
]
handle-IsSettled (resume on) f h = elim (Bool-cases on) [
  | inl e ↦ rw e (set_ctrlr_state-IsSettled c_enable_pm f h)
  | inr e ↦ rw e h
]
handle-IsSettled (direct s) f h = set_ctrlr_state-IsSettled s f h

-- When the controller is as its state says, it is so after any requests, runs of the task, suspends,
-- resumes and direct changes of the state: in C_ENABLE the controller and the LCD are on; in
-- C_DISABLE and C_DISABLE_PM both and the backlight are off; in C_DISABLE_CLKCHANGE the controller
-- and the LCD are off; and there is no other state but C_STARTUP.
pub run-IsSettled : (es : List Event) (f : Info) → IsSettled f → IsSettled (run es f)
run-IsSettled [] f h = h
run-IsSettled (e ∷ es) f h = run-IsSettled es (handle e f) (handle-IsSettled e f h)

-- Each request is served before the next one is made.
abbrev pub apart : Ctrlr → Ctrlr → Info → Info
apart a b f = run (schedule a ∷ task ∷ schedule b ∷ task ∷ []) f

abbrev pub together : Ctrlr → Ctrlr → Info → Info
together a b f = run (schedule a ∷ schedule b ∷ task ∷ []) f

-- What a state of the controller looks like from outside.
abbrev pub Same : Info → Info → Type 0
Same a b =
    (a.state ≡ b.state) × (a.hardware ≡ b.hardware) × (a.lcd ≡ b.lcd) × (a.backlight ≡ b.backlight)

enable_reenable_from :
    (old : Ctrlr) (f : Info)
    → f.task_state ≡ none
    → f.state ≡ old
    → old ≢ c_enable
    → Same (together c_enable c_reenable f) (apart c_enable c_reenable f)
unfolding sa1100fb_schedule_work sa1100fb_task set_ctrlr_state
enable_reenable_from c_startup f n e off = ground arith
enable_reenable_from c_disable f n e off = ground arith
enable_reenable_from c_disable_clkchange f n e off = ground arith
enable_reenable_from c_enable_clkchange f n e off = ground arith
enable_reenable_from c_reenable f n e off = ground arith
enable_reenable_from c_disable_pm f n e off = ground arith
enable_reenable_from c_enable_pm f n e off = ground arith
enable_reenable_from c_enable f n e off = absurd (off refl)

-- With no request that waits and a controller that is not enabled, an enable and a re-enable that
-- are merged into one run of the task leave the state, the registers, the LCD and the backlight as
-- the two served one after the other.
together-enable_reenable :
    (f : Info)
    → f.task_state ≡ none
    → f.state ≢ c_enable
    → Same (together c_enable c_reenable f) (apart c_enable c_reenable f)
together-enable_reenable f n off = enable_reenable_from f.state f n refl off

-- With no request that waits, an enabled controller and its LCD and backlight on, a disable and an
-- enable that are merged into one run of the task leave the state, the registers, the LCD and the
-- backlight as the two served one after the other.
together-disable_enable :
    (f : Info)
    → f.task_state ≡ none
    → f.state ≡ c_enable
    → IsOn f
    → f.backlight ≡ true
    → Same (together c_disable c_enable f) (apart c_disable c_enable f)
unfolding sa1100fb_schedule_work sa1100fb_task set_ctrlr_state
together-disable_enable f none_waits on up light = ground arith

-- With no request that waits and a disabled controller, a disable and an enable that are merged into
-- one run of the task change nothing, while served one after the other they enable the controller.
together-lost :
    (f : Info)
    → f.task_state ≡ none
    → f.state ≡ c_disable
    → (together c_disable c_enable f ≡ f) × ((apart c_disable c_enable f).state ≡ c_enable)
unfolding sa1100fb_schedule_work sa1100fb_task set_ctrlr_state
together-lost f none_waits off = ground arith

-- When the controller is as its state says, a suspend and the resume after it leave a disabled
-- controller as it was, and bring any other to C_ENABLE, with the controller, the LCD and the
-- backlight on and LCCR3 as requested.
pub resume-suspend :
    (f : Info)
    → IsSettled f
    → let f' = sa1100fb_resume true (sa1100fb_suspend true f) in
      ((f.state ≡ c_disable) × (f' ≡ f))
      ⊎ ((f.state ≢ c_disable)
          × (f'.state ≡ c_enable)
          × IsOn f'
          × (f'.backlight ≡ true)
          × (f'.hardware.lccr3 ≡ f.regs.lccr3))
unfolding sa1100fb_suspend sa1100fb_resume set_ctrlr_state
resume-suspend f h = ground arith
