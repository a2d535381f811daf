-- ===== src/Fb/Defs.antt =====
-- The controller of sa1100fb.c: its state, the requests and the task that serves them. The header of the
-- 2.6 driver is not in the repository; the structures are those of the 2.4 header,
-- linux/kernel/drivers/video/sa1100fb.h. The lines that are for other machines are left out.
use jornada.Common.{
  ℕ, Bool, true, false, not, ◌&&◌, ◌||◌, Option, none, some, List, if◌then◌else◌, ◌==◌, ltb, get_or,
  set,
}
use jornada.Common.Bits.{land, lor}

-- The constants C_STARTUP to C_ENABLE_PM, states and requests.
pub data Ctrlr : Type 0 where
  c_startup c_disable c_enable c_disable_clkchange c_enable_clkchange c_reenable c_disable_pm
        c_enable_pm :
      Ctrlr

abbrev pub is_startup : Ctrlr → Bool
is_startup c_startup = true
is_startup _ = false

abbrev pub is_disable : Ctrlr → Bool
is_disable c_disable = true
is_disable _ = false

abbrev pub is_enable : Ctrlr → Bool
is_enable c_enable = true
is_enable _ = false

abbrev pub is_disable_clkchange : Ctrlr → Bool
is_disable_clkchange c_disable_clkchange = true
is_disable_clkchange _ = false

abbrev pub is_reenable : Ctrlr → Bool
is_reenable c_reenable = true
is_reenable _ = false

abbrev pub is_disable_pm : Ctrlr → Bool
is_disable_pm c_disable_pm = true
is_disable_pm _ = false

-- The bits of LCCR0: LEN, LDM, color, Dual, Act and the others.
pub record Lccr0 : Type 0 where
  pub len : Bool
  pub ldm : Bool
  pub color : Bool
  pub dual : Bool
  pub act : Bool
  pub others : ℕ

-- The registers of the controller.
pub record LcdReg : Type 0 where
  pub lccr0 : Lccr0
  pub lccr1 : ℕ
  pub lccr2 : ℕ
  pub lccr3 : ℕ
  pub dbar1 : ℕ
  pub dbar2 : ℕ

-- `struct sa1100fb_info`: `regs` are its `reg_lccr0` to `dbar2`. Then what it moves: the registers, the power of the
-- LCD and of the backlight, and whether GPIO 2 to 5 and 6 to 9 are the LCD's.
pub record Info : Type 0 where
  pub state : Ctrlr
  pub task_state : Option Ctrlr
  pub regs : LcdReg
  pub palette_cpu : List ℕ
  pub bits_per_pixel : ℕ
  pub hardware : LcdReg
  pub lcd : Bool
  pub backlight : Bool
  pub ldd_low : Bool
  pub ldd_high : Bool

-- -1 where no request waits.
abbrev pub merged : Option Ctrlr → Ctrlr → Option Ctrlr
merged pending state =
    let enabling : Bool = elim pending [ none ↦ false | some p ↦ is_enable p ] in
    let disabling : Bool = elim pending [ none ↦ false | some p ↦ is_disable p ] in
    let state₁ = if enabling && is_reenable state then none else some state in
    if disabling && is_enable state then some c_reenable else state₁

unfoldable pub sa1100fb_schedule_work : Ctrlr → Info → Info
sa1100fb_schedule_work state f = elim (merged f.task_state state) [
  | none ↦ f
  | some s ↦ record f { task_state = some s }
]

abbrev pub palette_pbs : ℕ → ℕ
palette_pbs bits_per_pixel =
    if bits_per_pixel == 8 then 4096 else if bits_per_pixel == 16 then 8192 else 0

abbrev pub sa1100fb_setup_gpio : Info → Info
sa1100fb_setup_gpio f =
    let r = f.regs.lccr0 in
    let wide = ltb 8 f.bits_per_pixel || (r.dual && not r.act) in
    let taken = r.color && (r.dual || r.act) in
    record f { ldd_low = taken || f.ldd_low; ldd_high = (taken && wide) || f.ldd_high }

abbrev pub sa1100fb_enable_controller : Info → Info
sa1100fb_enable_controller f =
    let first = lor 16 (land 16 (get_or f.palette_cpu 0 0) 53247) (palette_pbs f.bits_per_pixel) in
    record f {
      palette_cpu = set f.palette_cpu 0 first;
      hardware = record f.regs { lccr0 = record f.regs.lccr0 { len = true } };
    }

abbrev pub sa1100fb_disable_controller : Info → Info
sa1100fb_disable_controller f = record f {
  hardware = record f.hardware { lccr0 = record f.hardware.lccr0 { ldm = false; len = false } };
}

abbrev pub lcd_power : Bool → Info → Info
lcd_power on f = record f { lcd = on }

abbrev pub backlight_power : Bool → Info → Info
backlight_power on f = record f { backlight = on }

-- The branches of the switch, each with the state that was found.
abbrev pub disable_for_clock : Ctrlr → Info → Info
disable_for_clock old f =
    if not (is_disable old) && not (is_disable_pm old)
    then sa1100fb_disable_controller (lcd_power false (record f { state = c_disable_clkchange }))
    else f

abbrev pub disable_to : Ctrlr → Ctrlr → Info → Info
disable_to state old f =
    let dark = lcd_power false (backlight_power false (record f { state = state })) in
    if not (is_disable old)
    then (if not (is_disable_clkchange old) then sa1100fb_disable_controller dark else dark)
    else f

abbrev pub enable_after_clock : Ctrlr → Info → Info
enable_after_clock old f =
    if is_disable_clkchange old
    then lcd_power true (sa1100fb_enable_controller (record f { state = c_enable }))
    else f

abbrev pub reenable : Ctrlr → Info → Info
reenable old f =
    if is_enable old
    then sa1100fb_enable_controller (sa1100fb_setup_gpio (sa1100fb_disable_controller f))
    else f

abbrev pub enable_from : Ctrlr → Info → Info
enable_from old f =
    if not (is_enable old)
    then backlight_power true (
        lcd_power true
          (sa1100fb_enable_controller (sa1100fb_setup_gpio (record f { state = c_enable }))))
    else f

abbrev pub switch : Ctrlr → Ctrlr → Info → Info
switch c_disable_clkchange old f = disable_for_clock old f
switch c_disable_pm old f = disable_to c_disable_pm old f
switch c_disable old f = disable_to c_disable old f
switch c_enable_clkchange old f = enable_after_clock old f
switch c_reenable old f = reenable old f
switch c_enable_pm old f = if not (is_disable_pm old) then f else enable_from old f
switch c_enable old f = enable_from old f
switch c_startup old f = f

unfoldable pub set_ctrlr_state : Ctrlr → Info → Info
set_ctrlr_state state f =
    switch (if is_startup f.state && is_reenable state then c_enable else state) f.state f

unfoldable pub sa1100fb_task : Info → Info
sa1100fb_task f =
    let f' = record f { task_state = none } in
    elim f.task_state [ none ↦ f' | some s ↦ set_ctrlr_state s f' ]

-- `level_off` is SUSPEND_DISABLE or SUSPEND_POWER_DOWN, `level_on` is RESUME_ENABLE.
unfoldable pub sa1100fb_suspend : Bool → Info → Info
sa1100fb_suspend level_off f = if level_off then set_ctrlr_state c_disable_pm f else f

unfoldable pub sa1100fb_resume : Bool → Info → Info
sa1100fb_resume level_on f = if level_on then set_ctrlr_state c_enable_pm f else f
