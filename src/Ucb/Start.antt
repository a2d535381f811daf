-- ===== src/Ucb/Start.antt =====
-- Starting ucb1x00-core.c: the conversions it waits for, the search for its interrupt and its probe. The
-- kernel's and the bus's answers are arguments, 0 for success.
use jornada.Common.{
  ℕ, ◌+◌, ◌-◌, ◌≡◌, ◌≢◌, ◌⊎◌, Bool, true, false, not, ◌&&◌, Option, none, some, List, [], ◌∷◌, ◌++◌,
  if◌then◌else◌, ◌==◌, arith, refl, ap,
}
use jornada.Common.Bits.{lor}
use jornada.Ucb.Defs.{
  ie_rising, ie_falling, ie_clear, adc_control, Access, enable, write, conversion, Ucb,
  ucb1x00_adc_read,
}
use jornada.Ucb.Shadow.{replay, reset}

-- `on` is the answer of `probe_irq_on`, `reads` what the data register gives and `off` the answer of
-- `probe_irq_off`; none where the wait does not end. `ie_adc`, `adc_ena` and `start` are constants of the chip.
unfoldable pub ucb1x00_detect_irq :
    ℕ → ℕ → ℕ → ℕ → ℕ → List (Bool × ℕ) → ℕ → Option (ℕ × List Access)
ucb1x00_detect_irq ie_adc adc_ena start no_irq on reads off =
    if on == 0 then some (no_irq, []) else elim (conversion reads) [
      | none ↦ none
      | some _ ↦ some (
        off,
        write ie_clear 0
            ∷ write ie_clear 65535
            ∷ write ie_falling 0
            ∷ write ie_rising 0
            ∷ write adc_control 0
            ∷ write adc_control (lor 32 adc_ena start)
            ∷ write adc_control adc_ena
            ∷ write ie_clear 0
            ∷ write ie_clear 65535
            ∷ write ie_falling ie_adc
            ∷ write ie_rising ie_adc
            ∷ [],
      )
    ]

-- The answers that a probe gets: the id of the chip, whether there is memory, the interrupt that was
-- found, and what `request_irq` and `class_device_register` say.
pub record Answers : Type 0 where
  pub id : ℕ
  pub got_memory : Bool
  pub irq : ℕ
  pub irq_ret : ℕ
  pub class_ret : ℕ

-- What the driver has: how often it asked for the clock, its structure, its interrupt, its device.
pub record Held : Type 0 where
  pub clock : ℕ
  pub structure : Bool
  pub interrupt : Bool
  pub registered : Bool

-- UCB_ID_1200, UCB_ID_1300, NO_IRQ, ENODEV and ENOMEM.
pub record Codes : Type 0 where
  pub id_1200 : ℕ
  pub id_1300 : ℕ
  pub no_irq : ℕ
  pub enodev : ℕ
  pub enomem : ℕ

abbrev pub err_disable : Held → Held
err_disable h = record h { clock = h.clock - 1 }

abbrev pub err_free : Held → Held
err_free h = err_disable (record h { structure = false })

unfoldable pub ucb1x00_probe : Codes → Answers → Held → ℕ × Held
ucb1x00_probe k a h =
    let up = record h { clock = h.clock + 1 } in
    let made = record up { structure = true } in
    let requested = record made { interrupt = true } in
    if not (a.id == k.id_1200) && not (a.id == k.id_1300)
    then (k.enodev, err_disable up)
    else if not a.got_memory
    then (k.enomem, err_disable up)
    else if a.irq == k.no_irq
    then (k.enodev, err_free made)
    else if not (a.irq_ret == 0)
    then (a.irq_ret, err_free made)
    else if not (a.class_ret == 0)
    then (a.class_ret, err_free (record requested { interrupt = false }))
    else (0, err_disable (record requested { registered = true }))

-- `ucb1x00_remove` and the release of the device that it brings.
unfoldable pub ucb1x00_remove : Held → Held
ucb1x00_remove h = record h { registered = false; structure = false; interrupt = false }

abbrev pub nothing : Held
nothing = record { clock = 0; structure = false; interrupt = false; registered = false }

-- With error codes that are not 0, a probe that succeeds found one of the two chips and holds
-- everything but the clock, which the removal gives back; a probe that fails holds nothing.
ucb1x00_probe_lem :
    (k : Codes) (a : Answers)
    → k.enodev ≢ 0
    → k.enomem ≢ 0
    → let (ret, h) = ucb1x00_probe k a nothing in
      ((ret ≡ 0)
        × (h ≡ record { clock = 0; structure = true; interrupt = true; registered = true })
        × (ucb1x00_remove h ≡ nothing)
        × ((a.id ≡ k.id_1200) ⊎ (a.id ≡ k.id_1300)))
      ⊎ ((ret ≢ 0) × (h ≡ nothing))
unfolding ucb1x00_probe ucb1x00_remove
ucb1x00_probe_lem k a d m = ground arith

-- The reads of a conversion that is not done.
abbrev pub busy : List ℕ → List (Bool × ℕ)
busy [] = []
busy (v ∷ vs) = (false, v) ∷ busy vs

conversion-append :
    (vs : List ℕ) (v : ℕ) (more : List (Bool × ℕ))
    → conversion (busy vs ++ ((true, v) ∷ more)) ≡ some v
unfolding conversion
conversion-append [] v more = refl
conversion-append (x ∷ vs) v more = conversion-append vs v more

-- When the data register shows any values without the valid bit and then one with it, the wait of a
-- conversion ends with that value; and where `probe_irq_on` gives a mask, so does the wait of the
-- search for the interrupt, which answers what `probe_irq_off` found and leaves the interrupt
-- enables of the chip at 0.
waits_lem :
    (vs : List ℕ) (v : ℕ) (more : List (Bool × ℕ))
    (sync_ena start channel ie_adc adc_ena no_irq on off : ℕ) (adc_dat : ℕ → ℕ) (sync : Bool)
    (u : Ucb)
    → on ≢ 0
    → ((ucb1x00_adc_read sync_ena start adc_dat channel sync (busy vs ++ ((true, v) ∷ more)) u).0
        ≡ some (adc_dat v))
      × ((log : List Access) × (ucb1x00_detect_irq ie_adc adc_ena start no_irq on
              (busy vs ++ ((true, v) ∷ more))
              off
            ≡ some (off, log))
          × (replay (log ++ (enable ∷ [])) ≡ record reset { users = 1 }))
unfolding ucb1x00_adc_read ucb1x00_detect_irq
waits_lem vs v more sync_ena start channel ie_adc adc_ena no_irq on off adc_dat sync u h =
    let e : (on == 0) ≡ false = ground arith in
    let ends = conversion-append vs v more in
    (
      ap (λ (c : Option ℕ). elim c as (λ _. Option ℕ) [ none ↦ none | some w ↦ some (adc_dat w) ])
          ends,
      (rw (e, ends) (_, refl, refl)),
    )
