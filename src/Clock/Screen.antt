-- ===== src/Clock/Screen.antt =====
-- The notifications of cpu-sa1100.c, as the frame buffer of sa1100fb.c takes them.
use jornada.Common.{
  ℕ, ◌≡◌, ◌⊎◌, Bool, true, false, some, List, [], ◌∷◌, arith, Bool-cases, inl, inr, refl, ltb,
}
use jornada.Fb.Defs.{Info, set_ctrlr_state}
use jornada.Fb.Control.{IsSettled}
use jornada.Fb.Mode.{Macros, freq_prechange, freq_postchange}
use jornada.Clock.Defs.{
  DramRegs, Action, set_ppcr, prechange, postchange, find_speed, sa11x0_ppcr_to_freq, change_clock,
}
use jornada.Clock.Safety.{up, down, change_clock-up, change_clock-down}

-- `sa1100fb_freq_transition` at each notification.
abbrev pub notify : Macros → ℕ → Action → Info → Info
notify m pixclock (prechange cur new) f = freq_prechange f
notify m pixclock (postchange cur new) f = freq_postchange m pixclock new f
notify m pixclock _ f = f

abbrev pub notify_all : Macros → ℕ → List Action → Info → Info
notify_all m pixclock [] f = f
notify_all m pixclock (a ∷ acts) f = notify_all m pixclock acts (notify m pixclock a f)

-- Whether an action needs a controller that is off: the writes to the clock and to the memory.
abbrev pub is_write : Action → Bool
is_write (prechange cur new) = false
is_write (postchange cur new) = false
is_write _ = true

-- The controller is off at each write.
abbrev pub AreDark : Macros → ℕ → List Action → Info → Type 0
AreDark m pixclock [] f = true ≡ true
AreDark m pixclock (a ∷ acts) f =
    ((is_write a ≡ false) ⊎ (f.hardware.lccr0.len ≡ false))
    × AreDark m pixclock acts (notify m pixclock a f)

prechange-off : (f : Info) → IsSettled f → (freq_prechange f).hardware.lccr0.len ≡ false
unfolding freq_prechange set_ctrlr_state
prechange-off f h = ground arith

-- Where the table has settings of the memory for the new frequency and the frame buffer is as its
-- state says, the LCD controller is off at each write of a change to the clock and to the memory,
-- and the frame buffer has been told of the change before and after the writes, once.
pub change_clock-AreDark :
    (m : Macros) (pixclock cur ppcr : ℕ) (settings : List DramRegs) (s : DramRegs) (f : Info)
    → IsSettled f
    → find_speed settings (sa11x0_ppcr_to_freq ppcr) ≡ some s
    → (acts : List Action) × (change_clock settings cur ppcr ≡ some acts)
      × AreDark m pixclock acts f
      × (notify_all m pixclock acts f
          ≡ freq_postchange m pixclock (sa11x0_ppcr_to_freq ppcr) (freq_prechange f))
unfolding change_clock
change_clock-AreDark m pixclock cur ppcr settings s f h e =
    let new = sa11x0_ppcr_to_freq ppcr in
    let off = prechange-off f h in
    elim (Bool-cases (ltb cur new)) [
      | inl u ↦ (
        up cur ppcr s,
        change_clock-up settings cur ppcr s (ground (arith, u)) e,
        (
          inl refl,
          (inr off, (inr off, (inr off, (inr off, (inr off, (inr off, (inl refl, refl))))))),
        ),
        refl,
      )
      | inr u ↦ elim (Bool-cases (ltb new cur)) [
        | inl d ↦ (
          down cur ppcr s,
          change_clock-down settings cur ppcr s (ground (arith, d)) e,
          (
            inl refl,
            (inr off, (inr off, (inr off, (inr off, (inr off, (inr off, (inl refl, refl))))))),
          ),
          refl,
        )
        | inr d ↦ (
          prechange cur new ∷ set_ppcr ppcr ∷ postchange cur new ∷ [],
          rw (u, d) refl,
          (inl refl, (inr off, (inl refl, refl))),
          refl,
        )
      ]
    ]
