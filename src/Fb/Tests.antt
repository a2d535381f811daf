-- ===== src/Fb/Tests.antt =====
-- The frame buffer of sa1100fb.c with its screen on or off, a mode, and the answers of its probe.
use jornada.Common.{
  ℕ, ◌*◌, ◌≡◌, ◌≢◌, ◌⊎◌, refl, true, false, Option, none, some, List, [], ◌∷◌, inl, inr, replicate,
}
use jornada.Fb.Defs.{
  c_disable, c_enable, c_startup, Lccr0, LcdReg, Info, sa1100fb_task, sa1100fb_suspend,
  sa1100fb_resume,
}
use jornada.Fb.Mode.{Rgb, Var, Board, Macros, sa1100fb_activate_var, new_regs, Held, sa1100fb_probe}
use jornada.Fb.Control.{
  IsOn, IsSettled, Event, schedule, task, suspend, resume, run, run-IsSettled, resume-suspend,
}
use jornada.Fb.Modes.{task-activate_var, is_none, sa1100fb_probe_lem}

abbrev lccr0 : Lccr0
lccr0 = record { len = true; ldm = true; color = true; dual = true; act = false; others = 0 }

abbrev registers : LcdReg
registers = record { lccr0 = lccr0; lccr1 = 1; lccr2 = 2; lccr3 = 3; dbar1 = 4; dbar2 = 5 }

abbrev lit : Info
lit = record {
  state = c_enable;
  task_state = none;
  regs = registers;
  palette_cpu = replicate 16 3855;
  bits_per_pixel = 8;
  hardware = registers;
  lcd = true;
  backlight = true;
  ldd_low = true;
  ldd_high = true;
}

abbrev dark : Info
dark = record lit {
  state = c_disable;
  hardware = record registers { lccr0 = record lccr0 { len = false; ldm = false } };
  lcd = false;
  backlight = false;
}

abbrev fresh : Info
fresh = record dark { state = c_startup }

abbrev events : List Event
events = schedule c_enable ∷ suspend true ∷ task ∷ resume true ∷ schedule c_disable ∷ task ∷ []

run-IsSettled_example : IsSettled (run events fresh)
run-IsSettled_example = run-IsSettled events fresh (inl refl)

resume-suspend_example :
    let f' = sa1100fb_resume true (sa1100fb_suspend true lit) in
    ((lit.state ≡ c_disable) × (f' ≡ lit))
    ⊎ ((lit.state ≢ c_disable)
        × (f'.state ≡ c_enable)
        × IsOn f'
        × (f'.backlight ≡ true)
        × (f'.hardware.lccr3 ≡ lit.regs.lccr3))
resume-suspend_example = resume-suspend lit (inr (inl (refl, (refl, refl))))

abbrev rgb : Rgb
rgb = record {
  red = record { offset = 0; length = 8 };
  green = record { offset = 0; length = 8 };
  blue = record { offset = 0; length = 8 };
  transp = record { offset = 0; length = 0 };
}

abbrev board : Board
board = record {
  max_xres = 640;
  max_yres = 480;
  rgb_8 = rgb;
  rgb_16 = rgb;
  lccr0 = lccr0;
  lccr3 = 0;
  screen_dma = 4096;
}

abbrev mode : Var
mode = record {
  xres = 800;
  yres = 32;
  xres_virtual = 0;
  yres_virtual = 0;
  bits_per_pixel = 16;
  rgb = rgb;
  pixclock = 171521;
  hsync_len = 5;
  left_margin = 61;
  right_margin = 9;
  vsync_len = 3;
  upper_margin = 3;
  lower_margin = 0;
  hor_high_act = true;
  vert_high_act = false;
}

abbrev keep : ℕ → ℕ
keep n = n

abbrev shifted : ℕ → ℕ
shifted n = n * 256

abbrev macros : Macros
macros = record {
  lccr0_flags = 512;
  dis_wdth = keep;
  hor_snch_wdth = shifted;
  beg_ln_del = shifted;
  end_ln_del = shifted;
  dis_hght = keep;
  vrt_snch_wdth = shifted;
  beg_frm_del = shifted;
  end_frm_del = shifted;
  pix_clk_div = keep;
  hor_snch_h = 0;
  hor_snch_l = 2097152;
  vrt_snch_h = 0;
  vrt_snch_l = 1048576;
}

task-activate_var_example :
    let f' = sa1100fb_task (sa1100fb_activate_var macros board 206400 64 mode lit) in
    (f'.hardware ≡ new_regs macros board 206400 64 mode)
    × (f'.state ≡ c_enable)
    × (f'.lcd ≡ lit.lcd)
    × (f'.backlight ≡ lit.backlight)
task-activate_var_example = task-activate_var macros board 206400 64 mode lit refl refl

abbrev granted : ℕ
granted = 0

abbrev refused : Option ℕ
refused = some 22

-- Nobody holds the region; another frame buffer is registered.
abbrev held : Held
held = record {
  region = false;
  structures = 1;
  memories = 1;
  interrupts = 0;
  drvdata = false;
  registered = 1;
  notifiers = 0;
}

sa1100fb_probe_lem_example :
    let (ret, h') = sa1100fb_probe 16 12 true true granted refused held in
    let leaked : Held = record held { memories = 2; interrupts = 1; drvdata = false } in
    ((held.region ≡ true) × (ret ≡ 16) × (h' ≡ held))
    ⊎ ((held.region ≡ false)
        × (is_none refused ≡ true)
        × (ret ≡ 0)
        × (h' ≡ record {
          region = true;
          structures = 2;
          memories = 2;
          interrupts = 1;
          drvdata = true;
          registered = 2;
          notifiers = 2;
        }))
    ⊎ ((held.region ≡ false)
        × (is_none refused ≡ false)
        × (((true ≡ false) × (ret ≡ 12))
            ⊎ ((true ≡ true) × (granted ≢ 0) × (ret ≡ granted))
            ⊎ ((true ≡ true) × (refused ≡ some ret)))
        × (h' ≡ leaked))
sa1100fb_probe_lem_example = sa1100fb_probe_lem 16 12 true true granted refused held
