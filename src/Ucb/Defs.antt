-- ===== src/Ucb/Defs.antt =====
-- The functions of ucb1x00-core.c on a chip that is up. What a function does to the chip is the list of
-- its accesses; ucb1x00.h, with the register access and the constants, is not in the repository.
use jornada.Common.{
  ℕ, ◌+◌, ◌/◌, Bool, true, false, not, Option, none, some, List, [], ◌∷◌, if◌then◌else◌, ◌==◌, ltb,
  get_or, set,
}
use jornada.Common.Bits.{bit, set_bit, clear_bit, lor, but_not}

-- The registers that are written.
pub data Register : Type 0 where
  io_data io_direction ie_rising ie_falling ie_clear adc_control : Register

pub data Access : Type 0 where
  enable disable : Access
  write : Register → ℕ → Access

-- `struct ucb1x00_irq`: the handler, if one is hooked, and its device.
pub record Hook : Type 0 where
  pub fn : Option ℕ
  pub devid : Option ℕ

-- `struct ucb1x00`, with the accesses made so far, the latest first.
pub record Ucb : Type 0 where
  pub io_dir : ℕ
  pub io_out : ℕ
  pub adc_cr : ℕ
  pub irq_ris_enbl : ℕ
  pub irq_fal_enbl : ℕ
  pub irq_handler : List Hook
  pub log : List Access

abbrev pub no_hook : Hook
no_hook = record { fn = none; devid = none }

-- `inputs` is the parameter `in`.
unfoldable pub ucb1x00_io_set_dir : ℕ → ℕ → Ucb → Ucb
ucb1x00_io_set_dir inputs outputs u =
    let dir = but_not 32 (lor 32 u.io_dir outputs) inputs in
    record u { io_dir = dir; log = write io_direction dir ∷ u.log }

unfoldable pub ucb1x00_io_write : ℕ → ℕ → Ucb → Ucb
ucb1x00_io_write sets clears u =
    let out = but_not 32 (lor 32 u.io_out sets) clears in
    record u { io_out = out; log = write io_data out ∷ u.log }

-- `adc_ena` is UCB_ADC_ENA.
unfoldable pub ucb1x00_adc_enable : ℕ → Ucb → Ucb
ucb1x00_adc_enable adc_ena u =
    let cr = lor 32 u.adc_cr adc_ena in
    record u { adc_cr = cr; log = write adc_control cr ∷ enable ∷ u.log }

unfoldable pub ucb1x00_adc_disable : ℕ → Ucb → Ucb
ucb1x00_adc_disable adc_ena u =
    let cr = but_not 32 u.adc_cr adc_ena in
    record u { adc_cr = cr; log = disable ∷ write adc_control cr ∷ u.log }

-- The loop of `ucb1x00_adc_read`, where `reads` has what the chip answers, with UCB_ADC_DAT_VAL of
-- each: the value that ends it, if one does.
unfoldable pub conversion : List (Bool × ℕ) → Option ℕ
conversion [] = none
conversion ((valid, v) ∷ reads) = let rest = conversion reads in if valid then some v else rest

-- `adc_dat` is UCB_ADC_DAT; `sync_ena` and `start` are constants of the chip.
unfoldable pub ucb1x00_adc_read :
    ℕ → ℕ → (ℕ → ℕ) → ℕ → Bool → List (Bool × ℕ) → Ucb → Option ℕ × Ucb
ucb1x00_adc_read sync_ena start adc_dat adc_channel sync reads u =
    let channel = if sync then lor 32 adc_channel sync_ena else adc_channel in
    let cr = lor 32 u.adc_cr channel in
    (
      elim (conversion reads) [ none ↦ none | some v ↦ some (adc_dat v) ],
      record u { log = write adc_control (lor 32 cr start) ∷ write adc_control cr ∷ u.log },
    )

-- A call of a handler: the index, the handler, its device.
pub record Call : Type 0 where
  pub index : ℕ
  pub handler : ℕ
  pub device : Option ℕ

-- The loop of `ucb1x00_irq`, from index `i` on: it ends where `isr` is 0 or the handlers are through, which for the
-- table of 16 handlers is the bound of the source.
unfoldable pub dispatch : ℕ → ℕ → List Hook → List Call
dispatch i isr [] = []
dispatch i isr (h ∷ hs) =
    let rest = dispatch (i + 1) (isr / 2) hs in
    if isr == 0
    then []
    else if bit isr 0
    then elim h.fn [
      | none ↦ rest
      | some f ↦ record { index = i; handler = f; device = h.devid } ∷ rest
    ]
    else rest

unfoldable pub ucb1x00_irq : ℕ → Ucb → List Call × Ucb
ucb1x00_irq isr u = (
  dispatch 0 isr u.irq_handler,
  record u { log = disable ∷ write ie_clear 0 ∷ write ie_clear isr ∷ enable ∷ u.log },
)

-- 0, EINVAL, EBUSY and ENOENT.
pub data Result : Type 0 where
  ok einval ebusy enoent : Result

unfoldable pub ucb1x00_hook_irq : ℕ → ℕ → Option ℕ → Ucb → Result × Ucb
ucb1x00_hook_irq idx fn devid u =
    let free_slot = record u {
      irq_handler = set u.irq_handler idx (record { fn = some fn; devid = devid });
    } in
    if ltb idx 16
    then elim (get_or u.irq_handler idx no_hook).fn [ none ↦ (ok, free_slot) | some _ ↦ (ebusy, u) ]
    else (einval, u)

-- `rising` and `falling` are the two bits of `edges`.
unfoldable pub ucb1x00_enable_irq : ℕ → Bool → Bool → Ucb → Ucb
ucb1x00_enable_irq idx rising falling u =
    let ris = set_bit u.irq_ris_enbl idx in
    let fal = set_bit u.irq_fal_enbl idx in
    let u₀ = record u { log = enable ∷ u.log } in
    let u₁ =
      if rising then record u₀ { irq_ris_enbl = ris; log = write ie_rising ris ∷ u₀.log } else u₀ in
    let u₂ =
      if falling
      then record u₁ { irq_fal_enbl = fal; log = write ie_falling fal ∷ u₁.log }
      else u₁ in
    if ltb idx 16 then record u₂ { log = disable ∷ u₂.log } else u

unfoldable pub ucb1x00_disable_irq : ℕ → Bool → Bool → Ucb → Ucb
ucb1x00_disable_irq idx rising falling u =
    let ris = clear_bit u.irq_ris_enbl idx in
    let fal = clear_bit u.irq_fal_enbl idx in
    let u₀ = record u { log = enable ∷ u.log } in
    let u₁ =
      if rising then record u₀ { irq_ris_enbl = ris; log = write ie_rising ris ∷ u₀.log } else u₀ in
    let u₂ =
      if falling
      then record u₁ { irq_fal_enbl = fal; log = write ie_falling fal ∷ u₁.log }
      else u₁ in
    if ltb idx 16 then record u₂ { log = disable ∷ u₂.log } else u

abbrev pub same_device : Option ℕ → Option ℕ → Bool
same_device none none = true
same_device (some a) (some b) = a == b
same_device _ _ = false

unfoldable pub ucb1x00_free_irq : ℕ → Option ℕ → Ucb → Result × Ucb
ucb1x00_free_irq idx devid u =
    let ris = clear_bit u.irq_ris_enbl idx in
    let fal = clear_bit u.irq_fal_enbl idx in
    let freed = record u {
      irq_ris_enbl = ris;
      irq_fal_enbl = fal;
      irq_handler = set u.irq_handler idx no_hook;
      log = disable ∷ write ie_falling fal ∷ write ie_rising ris ∷ enable ∷ u.log;
    } in
    if not (ltb idx 16)
    then (einval, u)
    else if same_device (get_or u.irq_handler idx no_hook).devid devid
    then (ok, freed)
    else (enoent, u)
