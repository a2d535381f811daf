-- ===== src/Fb/Mode.antt =====
-- The mode of the display in sa1100fb.c: what a mode may be, the registers that it needs, and the colours. The macros
-- of SA-1100.h that place a value in a register are fields of `Macros`.
use jornada.Common.{
  ℕ, zero, suc, ◌+◌, ◌-◌, ◌*◌, ◌/◌, ◌%◌, ◌^◌, Bool, true, false, not, ◌&&◌, ◌||◌, Option, none,
  some, List, if◌then◌else◌, ◌==◌, ltb, set, length, max, u32,
}
use jornada.Common.Bits.{land, lor, but_not}
use jornada.Fb.Defs.{
  c_disable, c_enable, c_reenable, c_disable_clkchange, c_enable_clkchange, Lccr0, LcdReg, Info,
  palette_pbs, sa1100fb_schedule_work, set_ctrlr_state,
}

-- `struct fb_bitfield`
pub record Bitfield : Type 0 where
  pub offset : ℕ
  pub length : ℕ

-- `struct sa1100fb_rgb`
pub record Rgb : Type 0 where
  pub red : Bitfield
  pub green : Bitfield
  pub blue : Bitfield
  pub transp : Bitfield

-- `struct fb_var_screeninfo`
pub record Var : Type 0 where
  pub xres : ℕ
  pub yres : ℕ
  pub xres_virtual : ℕ
  pub yres_virtual : ℕ
  pub bits_per_pixel : ℕ
  pub rgb : Rgb
  pub pixclock : ℕ
  pub hsync_len : ℕ
  pub left_margin : ℕ
  pub right_margin : ℕ
  pub vsync_len : ℕ
  pub upper_margin : ℕ
  pub lower_margin : ℕ
  pub hor_high_act : Bool
  pub vert_high_act : Bool

-- What the board fixes, of `struct sa1100fb_info`.
pub record Board : Type 0 where
  pub max_xres : ℕ
  pub max_yres : ℕ
  pub rgb_8 : Rgb
  pub rgb_16 : Rgb
  pub lccr0 : Lccr0
  pub lccr3 : ℕ
  pub screen_dma : ℕ

-- `min_xres` and `min_yres` are MIN_XRES and MIN_YRES; none for -EINVAL, with the mode that is left.
unfoldable pub sa1100fb_check_var : ℕ → ℕ → Board → Var → Bool × Var
sa1100fb_check_var min_xres min_yres b v =
    let x₀ = if ltb v.xres min_xres then min_xres else v.xres in
    let y₀ = if ltb v.yres min_yres then min_yres else v.yres in
    let x = if ltb b.max_xres x₀ then b.max_xres else x₀ in
    let y = if ltb b.max_yres y₀ then b.max_yres else y₀ in
    let v' = record v {
      xres = x;
      yres = y;
      xres_virtual = max v.xres_virtual x;
      yres_virtual = max v.yres_virtual y;
    } in
    if (v.bits_per_pixel == 4) || (v.bits_per_pixel == 8)
    then (true, record v' { rgb = b.rgb_8 })
    else if v.bits_per_pixel == 16
    then (true, record v' { rgb = b.rgb_16 })
    else (false, v')

unfoldable pub sa1100fb_display_dma_period : Var → ℕ
sa1100fb_display_dma_period v = u32 (u32 (v.pixclock * 8) * 16) / v.bits_per_pixel

unfoldable pub get_pcd : ℕ → ℕ → ℕ
get_pcd pixclock cpuclock = u32 (u32 (cpuclock / 100 * pixclock) / 10000000 + 1)

pub record Macros : Type 0 where
  pub lccr0_flags : ℕ
  pub dis_wdth : ℕ → ℕ
  pub hor_snch_wdth : ℕ → ℕ
  pub beg_ln_del : ℕ → ℕ
  pub end_ln_del : ℕ → ℕ
  pub dis_hght : ℕ → ℕ
  pub vrt_snch_wdth : ℕ → ℕ
  pub beg_frm_del : ℕ → ℕ
  pub end_frm_del : ℕ → ℕ
  pub pix_clk_div : ℕ → ℕ
  pub hor_snch_h : ℕ
  pub hor_snch_l : ℕ
  pub vrt_snch_h : ℕ
  pub vrt_snch_l : ℕ

-- `clock` is the answer of `cpufreq_get`.
unfoldable pub new_regs : Macros → Board → ℕ → ℕ → Var → LcdReg
new_regs m b clock palette_dma v =
    let yres = if b.lccr0.dual then v.yres / 2 else v.yres in
    let hor = if v.hor_high_act then m.hor_snch_h else m.hor_snch_l in
    let vert = if v.vert_high_act then m.vrt_snch_h else m.vrt_snch_l in
    let pcd = get_pcd v.pixclock clock in
    record {
      lccr0 = record b.lccr0 {
        len = true;
        ldm = true;
        others = lor 32 b.lccr0.others m.lccr0_flags;
      };
      lccr1 = u32 (
          m.dis_wdth v.xres
          + m.hor_snch_wdth v.hsync_len
          + m.beg_ln_del v.left_margin
          + m.end_ln_del v.right_margin);
      lccr2 = u32 (
          m.dis_hght yres
          + m.vrt_snch_wdth v.vsync_len
          + m.beg_frm_del v.upper_margin
          + m.end_frm_del v.lower_margin);
      lccr3 = lor 32 (lor 32 (lor 32 (m.pix_clk_div pcd) b.lccr3) hor) vert;
      dbar1 = palette_dma;
      dbar2 = u32 (b.screen_dma + u32 (u32 (v.bits_per_pixel * v.xres) * v.yres) / 16);
    }

abbrev pub same_bool : Bool → Bool → Bool
same_bool true x = x
same_bool false x = not x

abbrev pub same_lccr0 : Lccr0 → Lccr0 → Bool
same_lccr0 a b =
    same_bool a.len b.len
    && (same_bool a.ldm b.ldm
        && (same_bool a.color b.color
            && (same_bool a.dual b.dual && (same_bool a.act b.act && (a.others == b.others)))))

abbrev pub same_regs : LcdReg → LcdReg → Bool
same_regs a b =
    same_lccr0 a.lccr0 b.lccr0
    && ((a.lccr1 == b.lccr1)
        && ((a.lccr2 == b.lccr2)
            && ((a.lccr3 == b.lccr3) && ((a.dbar1 == b.dbar1) && (a.dbar2 == b.dbar2)))))

unfoldable pub sa1100fb_activate_var : Macros → Board → ℕ → ℕ → Var → Info → Info
sa1100fb_activate_var m b clock palette_dma v f =
    let f' = record f { regs = new_regs m b clock palette_dma v } in
    if same_regs f.hardware f'.regs then f' else sa1100fb_schedule_work c_reenable f'

-- `sa1100fb_freq_transition` for CPUFREQ_PRECHANGE and for CPUFREQ_POSTCHANGE, where `clock` is the new one.
unfoldable pub freq_prechange : Info → Info
freq_prechange f = set_ctrlr_state c_disable_clkchange f

unfoldable pub freq_postchange : Macros → ℕ → ℕ → Info → Info
freq_postchange m pixclock clock f =
    let lccr3 = lor 32 (but_not 32 f.regs.lccr3 255) (m.pix_clk_div (get_pcd pixclock clock)) in
    set_ctrlr_state c_enable_clkchange (record f { regs = record f.regs { lccr3 = lccr3 } })

-- The channel, where the field is at most 16 bits wide.
unfoldable pub chan_to_field : ℕ → Bitfield → ℕ
chan_to_field chan bf = u32 (chan % 2 ^ 16 / 2 ^ (16 - bf.length) * 2 ^ bf.offset)

abbrev pub colour : ℕ → ℕ → ℕ → ℕ
colour red green blue =
    lor 32 (lor 32 (land 32 (red / 16) 3840) (land 32 (green / 256) 240)) (land 32 (blue / 4096) 15)

-- The answer is 1 for a register that is not there; `palette_size` is the length of the palette.
unfoldable pub sa1100fb_setpalettereg : ℕ → ℕ → ℕ → ℕ → Info → ℕ × Info
sa1100fb_setpalettereg regno red green blue f =
    let c = colour red green blue in
    let val = if regno == 0 then lor 32 c (palette_pbs f.bits_per_pixel) else c in
    if ltb regno (length f.palette_cpu)
    then (0, record f { palette_cpu = set f.palette_cpu regno (val % 2 ^ 16) })
    else (1, f)

-- The levels of `sa1100fb_blank`: VESA_POWERDOWN and the two suspends, VESA_NO_BLANKING, any other.
pub data Level : Type 0 where
  blanked unblanked other : Level

-- `for (i = 0; i < palette_size; i++)`, where `i + n` is the size.
unfoldable pub clear_palette : ℕ → ℕ → Info → Info
clear_palette i zero f = f
clear_palette i (suc n) f = clear_palette (i + 1) n (sa1100fb_setpalettereg i 0 0 0 f).1

-- `pseudocolor` is whether the visual has a palette; `set_cmap` is what `fb_set_cmap` makes of the palette.
unfoldable pub sa1100fb_blank : Bool → (List ℕ → List ℕ) → Level → Info → Info
sa1100fb_blank pseudocolor set_cmap blanked f =
    sa1100fb_schedule_work c_disable
      (if pseudocolor then clear_palette 0 (length f.palette_cpu) f else f)
sa1100fb_blank pseudocolor set_cmap unblanked f =
    sa1100fb_schedule_work c_enable
      (if pseudocolor then record f { palette_cpu = set_cmap f.palette_cpu } else f)
sa1100fb_blank pseudocolor set_cmap other f = f

-- What the steps of `sa1100fb_probe` take: the region of the controller, structures, memories of a screen, interrupts,
-- the driver's data, registered frame buffers, and notifiers of the clock.
pub record Held : Type 0 where
  pub region : Bool
  pub structures : ℕ
  pub memories : ℕ
  pub interrupts : ℕ
  pub drvdata : Bool
  pub registered : ℕ
  pub notifiers : ℕ

abbrev pub request_mem_region : Held → Held
request_mem_region h = record h { region = true }

abbrev pub release_mem_region : Held → Held
release_mem_region h = record h { region = false }

abbrev pub sa1100fb_init_fbinfo : Held → Held
sa1100fb_init_fbinfo h = record h { structures = h.structures + 1 }

abbrev pub kfree : Held → Held
kfree h = record h { structures = h.structures - 1 }

abbrev pub sa1100fb_map_video_memory : Held → Held
sa1100fb_map_video_memory h = record h { memories = h.memories + 1 }

abbrev pub request_irq : Held → Held
request_irq h = record h { interrupts = h.interrupts + 1 }

-- `some_data` is whether the data is not NULL.
abbrev pub dev_set_drvdata : (some_data : Bool) → Held → Held
dev_set_drvdata some_data h = record h { drvdata = some_data }

abbrev pub register_framebuffer : Held → Held
register_framebuffer h = record h { registered = h.registered + 1 }

abbrev pub cpufreq_register_notifier : Held → Held
cpufreq_register_notifier h = record h { notifiers = h.notifiers + 1 }

-- From the label `failed` on; `fbi` is whether there is a structure.
unfoldable pub failed : (fbi : Bool) → Held → Held
failed fbi h = let h' = dev_set_drvdata false h in release_mem_region (if fbi then kfree h' else h')

-- The answers: whether the structure and the memory are there, and what `request_irq` and `register_framebuffer`
-- say, where an error is negative for the latter. The region is granted if nobody holds it.
unfoldable pub sa1100fb_probe : ℕ → ℕ → Bool → Bool → ℕ → Option ℕ → Held → ℕ × Held
sa1100fb_probe ebusy enomem got_info got_memory irq_ret fb_error h =
    let h₁ = request_mem_region h in
    let h₂ = sa1100fb_init_fbinfo h₁ in
    let h₃ = sa1100fb_map_video_memory h₂ in
    let h₄ = request_irq h₃ in
    let h₅ = dev_set_drvdata true h₄ in
    if h.region
    then (ebusy, h)
    else if not got_info
    then (enomem, failed false h₁)
    else if not got_memory
    then (enomem, failed true h₂)
    else if not (irq_ret == 0)
    then (irq_ret, failed true h₃)
    else elim fb_error [
      | some e ↦ (e, failed true h₅)
      | none ↦ (0, cpufreq_register_notifier (cpufreq_register_notifier (register_framebuffer h₅)))
    ]
