-- ===== src/Fb/Modes.antt =====
-- The modes of sa1100fb.c: what is checked, how a mode reaches the controller, and the change of the clock.
use jornada.Common.{
  ℕ, ◌≡◌, ◌≢◌, ◌⊎◌, ◌↔◌, ◌≤◌, Bool, true, false, Option, none, some, arith, ◌+◌, ◌&&◌, ◌==◌,
  if◌then◌else◌, Bool-cases, inl, inr, refl,
}
use jornada.Common.Bits.{lor, but_not}
use jornada.Fb.Defs.{
  Ctrlr, c_startup, c_disable, c_enable, c_disable_clkchange, c_enable_clkchange, c_reenable,
  c_disable_pm, c_enable_pm, LcdReg, Info, sa1100fb_schedule_work, set_ctrlr_state, sa1100fb_task,
}
use jornada.Fb.Control.{IsOn}
use jornada.Fb.Mode.{
  Var, Board, Macros, sa1100fb_check_var, new_regs, same_regs, sa1100fb_activate_var, get_pcd,
  freq_prechange, freq_postchange, sa1100fb_probe, Held, failed,
}

-- When the smallest resolution is not above the largest of the board, a check accepts a mode exactly
-- when it has 4, 8 or 16 bits per pixel, and leaves a mode whose two resolutions are within these
-- limits and not above the virtual ones, with the same number of bits, whether it accepts it or not.
check_var_lem :
    (min_xres min_yres : ℕ) (b : Board) (v : Var)
    → min_xres ≤ b.max_xres
    → min_yres ≤ b.max_yres
    → let (good, w) = sa1100fb_check_var min_xres min_yres b v in
      ((good ≡ true) ↔ ((v.bits_per_pixel ≡ 4) ⊎ (v.bits_per_pixel ≡ 8) ⊎ (v.bits_per_pixel ≡ 16)))
      × ((min_xres ≤ w.xres) × (w.xres ≤ b.max_xres) × (w.xres ≤ w.xres_virtual))
      × ((min_yres ≤ w.yres) × (w.yres ≤ b.max_yres) × (w.yres ≤ w.yres_virtual))
      × (w.bits_per_pixel ≡ v.bits_per_pixel)
unfolding sa1100fb_check_var
check_var_lem mx my b v hx hy = ground arith

-- A mode that was checked passes the check again, unchanged.
check_var-check_var :
    (min_xres min_yres : ℕ) (b : Board) (v : Var)
    → min_xres ≤ b.max_xres
    → min_yres ≤ b.max_yres
    → let once = sa1100fb_check_var min_xres min_yres b v in
      sa1100fb_check_var min_xres min_yres b once.1 ≡ once
unfolding sa1100fb_check_var
check_var-check_var mx my b v hx hy = ground arith

same_regs_lem : (a b : LcdReg) → same_regs a b ≡ true → a ≡ b
same_regs_lem a b h = ground arith

reenabled :
    (f : Info)
    → f.state ≡ c_enable
    → let f' = set_ctrlr_state c_reenable f in
      (f'.hardware ≡ record f.regs { lccr0 = record f.regs.lccr0 { len = true } })
      × (f'.state ≡ c_enable)
      × (f'.lcd ≡ f.lcd)
      × (f'.backlight ≡ f.backlight)
unfolding set_ctrlr_state
reenabled f on = ground arith

-- With the controller enabled and no request that waits, after a mode was activated and the task has
-- run, the registers of the controller are those of the mode, the controller is still enabled, and
-- the LCD and the backlight are as they were.
pub task-activate_var :
    (m : Macros) (b : Board) (clock palette_dma : ℕ) (v : Var) (f : Info)
    → f.task_state ≡ none
    → f.state ≡ c_enable
    → let f' = sa1100fb_task (sa1100fb_activate_var m b clock palette_dma v f) in
      (f'.hardware ≡ new_regs m b clock palette_dma v)
      × (f'.state ≡ c_enable)
      × (f'.lcd ≡ f.lcd)
      × (f'.backlight ≡ f.backlight)
unfolding sa1100fb_task sa1100fb_activate_var sa1100fb_schedule_work set_ctrlr_state new_regs
task-activate_var m b clock palette_dma v f n on =
    let r = new_regs m b clock palette_dma v in
    elim (Bool-cases (same_regs f.hardware r)) [
      | inl e ↦ rw (e, n) (same_regs_lem f.hardware r e, on, refl, refl)
      | inr e ↦ rw (e, n) (reenabled (record f { task_state = none; regs = r }) on)
    ]

-- What a change of the clock, with the registers `r` for the new one, makes of the controller.
abbrev pub Changed : LcdReg → Info → Info → Type 0
Changed r f f' =
    (((f.state ≡ c_disable) ⊎ (f.state ≡ c_disable_pm))
      × (f'.state ≡ f.state)
      × (f'.hardware ≡ f.hardware)
      × (f'.lcd ≡ f.lcd))
    ⊎ ((f.state ≢ c_disable)
        × (f.state ≢ c_disable_pm)
        × (f'.state ≡ c_enable)
        × IsOn f'
        × (f'.hardware.lccr3 ≡ r.lccr3))

set_ctrlr_state-Changed :
    (old : Ctrlr) (r : LcdReg) (f : Info)
    → f.state ≡ old
    → Changed r f (
        set_ctrlr_state c_enable_clkchange
          (record (set_ctrlr_state c_disable_clkchange f) { regs = r }))
unfolding set_ctrlr_state
set_ctrlr_state-Changed c_startup r f e = ground arith
set_ctrlr_state-Changed c_disable r f e = ground arith
set_ctrlr_state-Changed c_enable r f e = ground arith
set_ctrlr_state-Changed c_disable_clkchange r f e = ground arith
set_ctrlr_state-Changed c_enable_clkchange r f e = ground arith
set_ctrlr_state-Changed c_reenable r f e = ground arith
set_ctrlr_state-Changed c_disable_pm r f e = ground arith
set_ctrlr_state-Changed c_enable_pm r f e = ground arith

prechange-regs : (f : Info) → (set_ctrlr_state c_disable_clkchange f).regs ≡ f.regs
unfolding set_ctrlr_state
prechange-regs f = ground arith

-- A change of the clock leaves a controller that is disabled, or disabled by a suspend, with its
-- state, its registers and its LCD; any other is enabled after it, with its LCD on and the pixel
-- clock of the new frequency in LCCR3.
postchange-prechange :
    (m : Macros) (pixclock clock : ℕ) (f : Info)
    → let f' = freq_postchange m pixclock clock (freq_prechange f) in
      let lccr3 = lor 32 (but_not 32 f.regs.lccr3 255) (m.pix_clk_div (get_pcd pixclock clock)) in
      Changed (record f.regs { lccr3 = lccr3 }) f f'
unfolding freq_postchange freq_prechange
postchange-prechange m pixclock clock f = rw (prechange-regs f) (
    set_ctrlr_state-Changed f.state
      (record f.regs {
        lccr3 = lor 32 (but_not 32 f.regs.lccr3 255) (m.pix_clk_div (get_pcd pixclock clock));
      })
      f refl)

abbrev pub is_none : Option ℕ → Bool
is_none none = true
is_none (some _) = false

-- Whatever is held before a probe: a probe whose region is taken changes nothing. Any other
-- registers one frame buffer, holds the region, the driver's data and one structure, memory of a
-- screen and interrupt more, has two notifiers more, and answers 0, exactly if every answer is good.
-- If one is not, it answers that one's error, the region, the structures, the frame buffers and the
-- notifiers are as before and there is no driver's data; but the memory of the screen is not given
-- back where the structure and the memory were there, nor the interrupt where it was granted too.
pub sa1100fb_probe_lem :
    (ebusy enomem : ℕ) (got_info got_memory : Bool) (irq_ret : ℕ) (fb_error : Option ℕ) (h : Held)
    → let (ret, h') = sa1100fb_probe ebusy enomem got_info got_memory irq_ret fb_error h in
      let mapped = got_info && got_memory in
      let granted = mapped && irq_ret == 0 in
      let good = granted && is_none fb_error in
      let leaked : Held = record h {
        memories = if mapped then h.memories + 1 else h.memories;
        interrupts = if granted then h.interrupts + 1 else h.interrupts;
        drvdata = false;
      } in
      ((h.region ≡ true) × (ret ≡ ebusy) × (h' ≡ h))
      ⊎ ((h.region ≡ false)
          × (good ≡ true)
          × (ret ≡ 0)
          × (h' ≡ record {
            region = true;
            structures = h.structures + 1;
            memories = h.memories + 1;
            interrupts = h.interrupts + 1;
            drvdata = true;
            registered = h.registered + 1;
            notifiers = h.notifiers + 2;
          }))
      ⊎ ((h.region ≡ false)
          × (good ≡ false)
          × (((mapped ≡ false) × (ret ≡ enomem))
              ⊎ ((mapped ≡ true) × (irq_ret ≢ 0) × (ret ≡ irq_ret))
              ⊎ ((granted ≡ true) × (fb_error ≡ some ret)))
          × (h' ≡ leaked))
unfolding sa1100fb_probe failed
sa1100fb_probe_lem eb en i m irq e h = ground arith
