-- ===== src/Clock/Tests.antt =====
-- Changes of the clock of cpu-sa1100.c, with the settings of the memory for two speeds.
use jornada.Common.{ℕ, ◌≡◌, refl, none, some, List, [], ◌∷◌, inl, true, false, replicate}
use jornada.Fb.Defs.{Info, Lccr0, LcdReg, c_startup}
use jornada.Fb.Mode.{Macros, freq_prechange, freq_postchange}
use jornada.Clock.Defs.{DramRegs, Action, find_speed, sa11x0_ppcr_to_freq, change_clock}
use jornada.Clock.Safety.{Promised, change_clock-Promised}
use jornada.Clock.Screen.{AreDark, notify_all, change_clock-AreDark}

abbrev slow : DramRegs
slow = record { speed = 59000; mdcnfg = 1; mdcas0 = 2; mdcas1 = 3; mdcas2 = 4 }

abbrev fast : DramRegs
fast = record { speed = 191700; mdcnfg = 5; mdcas0 = 6; mdcas1 = 7; mdcas2 = 8 }

abbrev settings : List DramRegs
settings = slow ∷ fast ∷ []

found : find_speed settings (sa11x0_ppcr_to_freq 9) ≡ some fast
unfolding sa11x0_ppcr_to_freq
found = refl

change_clock-Promised_example :
    (acts : List Action) × (change_clock settings 59000 9 ≡ some acts)
    × Promised 59000 (sa11x0_ppcr_to_freq 9) acts
change_clock-Promised_example = change_clock-Promised settings 59000 9 fast found

abbrev lccr0 : Lccr0
lccr0 = record { len = true; ldm = true; color = true; dual = true; act = false; others = 0 }

abbrev registers : LcdReg
registers = record { lccr0 = lccr0; lccr1 = 1; lccr2 = 2; lccr3 = 3; dbar1 = 4; dbar2 = 5 }

abbrev fresh : Info
fresh = record {
  state = c_startup;
  task_state = none;
  regs = registers;
  palette_cpu = replicate 16 0;
  bits_per_pixel = 8;
  hardware = registers;
  lcd = true;
  backlight = true;
  ldd_low = true;
  ldd_high = true;
}

abbrev keep : ℕ → ℕ
keep n = n

abbrev macros : Macros
macros = record {
  lccr0_flags = 512;
  dis_wdth = keep;
  hor_snch_wdth = keep;
  beg_ln_del = keep;
  end_ln_del = keep;
  dis_hght = keep;
  vrt_snch_wdth = keep;
  beg_frm_del = keep;
  end_frm_del = keep;
  pix_clk_div = keep;
  hor_snch_h = 0;
  hor_snch_l = 2097152;
  vrt_snch_h = 0;
  vrt_snch_l = 1048576;
}

change_clock-AreDark_example :
    (acts : List Action) × (change_clock settings 59000 9 ≡ some acts)
    × AreDark macros 171521 acts fresh
    × (notify_all macros 171521 acts fresh
        ≡ freq_postchange macros 171521 (sa11x0_ppcr_to_freq 9) (freq_prechange fresh))
change_clock-AreDark_example =
    change_clock-AreDark macros 171521 59000 9 settings fast fresh (inl refl) found
