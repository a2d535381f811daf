-- ===== src/Ucb/Tests.antt =====
-- A codec of ucb1x00-core.c with one handler, for its third interrupt.
use jornada.Common.{◌≡◌, refl, some, [], ◌∷◌, arith, inl, replicate, set}
use jornada.Common.Bits.{bit}
use jornada.Ucb.Defs.{Ucb, no_hook, enable, write, io_direction, ucb1x00_irq}
use jornada.Ucb.Shadow.{
  Constants, adc_enable, perform, control_after, IsTracked, replay, users_after, perform-IsTracked,
}
use jornada.Ucb.Irqs.{due, ucb1x00_irq_lem}

abbrev hooked : Ucb
hooked = record {
  io_dir = 5;
  io_out = 0;
  adc_cr = 0;
  irq_ris_enbl = 0;
  irq_fal_enbl = 0;
  irq_handler = set (replicate 16 no_hook) 2 (record { fn = some 7; devid = some 3 });
  log = write io_direction 5 ∷ enable ∷ [];
}

abbrev constants : Constants
constants = record { adc_ena = 32768; sync_ena = 1; adc_start = 128 }

abbrev enabled : Ucb
enabled = perform constants adc_enable hooked

hooked-IsTracked : IsTracked hooked
hooked-IsTracked = record {
  direction = refl;
  outputs = refl;
  rising = refl;
  falling = refl;
  control = inl refl;
  not_lost = refl;
}

perform-IsTracked_example :
    IsTracked enabled
    × ((replay enabled.log).users ≡ users_after adc_enable (replay hooked.log).users)
    × ((replay enabled.log).control ≡ control_after constants adc_enable hooked)
perform-IsTracked_example =
    perform-IsTracked constants adc_enable hooked hooked-IsTracked (λ e. omega (arith))

ucb1x00_irq_lem_example : (ucb1x00_irq 6 hooked).0 ≡ due 0 (bit 6) hooked.irq_handler
ucb1x00_irq_lem_example = ucb1x00_irq_lem 6 hooked
