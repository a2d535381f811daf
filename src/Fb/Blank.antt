-- ===== src/Fb/Blank.antt =====
-- Blanking the screen in sa1100fb.c, with the task that serves the request.
use jornada.Common.{
  ℕ, zero, suc, ◌+◌, ◌≡◌, ◌<◌, Bool, true, false, none, List, arith, refl, ◌∙◌, ap, length, get_or,
  if◌then◌else◌, le→ltb,
}
use jornada.Fb.Defs.{
  Ctrlr, c_disable, c_enable, Info, sa1100fb_schedule_work, set_ctrlr_state, sa1100fb_task,
}
use jornada.Fb.Control.{IsOn}
use jornada.Fb.Mode.{sa1100fb_blank, blanked, unblanked, clear_palette, sa1100fb_setpalettereg}
use jornada.Fb.Colour.{cleared, clear_palette_lem}

-- The fields that a palette register is no part of.
abbrev pub Elsewhere : Info → Info → Type 0
Elsewhere a b = (a.state ≡ b.state) × (a.task_state ≡ b.task_state)

clear_palette-Elsewhere : (n i : ℕ) (f : Info) → Elsewhere (clear_palette i n f) f
unfolding clear_palette sa1100fb_setpalettereg
clear_palette-Elsewhere zero i f = (refl, refl)
clear_palette-Elsewhere (suc n) i f =
    ground (arith, clear_palette-Elsewhere n (i + 1) (sa1100fb_setpalettereg i 0 0 0 f).1)

disabled :
    (old : Ctrlr) (f : Info)
    → f.task_state ≡ none
    → f.state ≡ old
    → let f' = sa1100fb_task (sa1100fb_schedule_work c_disable f) in
      (f'.state ≡ c_disable) × (f'.task_state ≡ none) × (f'.palette_cpu ≡ f.palette_cpu)
unfolding sa1100fb_schedule_work sa1100fb_task set_ctrlr_state
disabled old f n e = ground arith

enabled :
    (f : Info)
    → f.task_state ≡ none
    → f.state ≡ c_disable
    → let f' = sa1100fb_task (sa1100fb_schedule_work c_enable f) in
      (f'.state ≡ c_enable) × IsOn f' × (f'.backlight ≡ true)
unfolding sa1100fb_schedule_work sa1100fb_task set_ctrlr_state
enabled f n e = ground arith

-- With no request that waits, after the screen was blanked and the task has run the controller is
-- disabled and every palette register is 0 but for the mode bits of the first one, if there is a
-- palette, and as it was otherwise; after it was unblanked and the task has run again, the
-- controller is enabled, with the LCD and the backlight on.
unblanked-blanked :
    (pseudocolor : Bool) (set_cmap : List ℕ → List ℕ) (j : ℕ) (f : Info)
    → f.task_state ≡ none
    → j < length f.palette_cpu
    → let dark = sa1100fb_task (sa1100fb_blank pseudocolor set_cmap blanked f) in
      let bright = sa1100fb_task (sa1100fb_blank pseudocolor set_cmap unblanked dark) in
      (dark.state ≡ c_disable)
      × (get_or dark.palette_cpu j 0
          ≡ (if pseudocolor then cleared f.bits_per_pixel j else get_or f.palette_cpu j 0))
      × (bright.state ≡ c_enable)
      × IsOn bright
      × (bright.backlight ≡ true)
unfolding sa1100fb_blank
unblanked-blanked false set_cmap j f n h =
    let (st, idle, pal) = disabled f.state f n refl in
    let (on, up, light) = enabled (sa1100fb_task (sa1100fb_schedule_work c_disable f)) idle st in
    (st, ap (λ p. get_or p j 0) pal, on, up, light)
unblanked-blanked true set_cmap j f n h =
    let f₁ = clear_palette 0 (length f.palette_cpu) f in
    let (same, waits) = clear_palette-Elsewhere (length f.palette_cpu) 0 f in
    let (st, idle, pal) = disabled f₁.state f₁ (waits ∙ n) refl in
    let f₂ = sa1100fb_task (sa1100fb_schedule_work c_disable f₁) in
    let (on, up, light) = enabled (record f₂ { palette_cpu = set_cmap f₂.palette_cpu }) idle st in
    let (_, clear) = clear_palette_lem (length f.palette_cpu) 0 j f (omega arith) h in
    (st, ap (λ p. get_or p j 0) pal ∙ clear ∙ (rw (le→ltb j 0 (omega arith)) refl), on, up, light)
