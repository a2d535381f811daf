-- ===== src/Sa1101/Defs.antt =====
-- The functions of sa1101.c. An interrupt is numbered from `start`, which is IRQ_SA1101_START: bit `irq - start` of
-- the first register of each kind, or bit `irq - start - 32` of the second.
use jornada.Common.{
  ℕ, zero, suc, ◌+◌, ◌-◌, ◌/◌, ◌%◌, Bool, true, false, not, ◌&&◌, Option, none, some, List, [], ◌∷◌,
  ◌++◌, if◌then◌else◌, ◌==◌, ltb,
}
use jornada.Common.Bits.{bit, set_bit, clear_bit}

-- INTENABLE0, INTENABLE1, INTPOL0 and INTPOL1.
pub record Chip : Type 0 where
  pub enable0 : ℕ
  pub enable1 : ℕ
  pub pol0 : ℕ
  pub pol1 : ℕ

-- `for (; stat; i++, stat >>= 1)`, with at most `fuel` turns: the interrupts that are passed on, or none
-- where the turns do not do.
unfoldable pub scan : ℕ → ℕ → ℕ → Option (List ℕ)
scan zero i stat = if stat == 0 then some [] else none
scan (suc fuel) i stat =
    let rest = scan fuel (i + 1) (stat / 2) in
    if stat == 0
    then some []
    else elim rest [ none ↦ none | some irqs ↦ some (if stat % 2 == 1 then i ∷ irqs else irqs) ]

abbrev pub joined : Option (List ℕ) → Option (List ℕ) → Option (List ℕ)
joined (some a) (some b) = some (a ++ b)
joined _ _ = none

-- The loop of `sa1101_irq_handler` on what the two status registers show, turn by turn, to the first time that both are
-- clear.
unfoldable pub handle_turns : ℕ → List (ℕ × ℕ) → Option (List ℕ)
handle_turns start [] = none
handle_turns start ((stat0, stat1) ∷ reads) =
    let rest = handle_turns start reads in
    if (stat0 == 0) && (stat1 == 0)
    then some []
    else joined (joined (scan 32 start stat0) (scan 32 (start + 32) stat1)) rest

-- What the handler does: the chain interrupt was bad, or interrupts are passed on; and whether it leaves the chain
-- interrupt masked, as it is from its start.
pub data Outcome : Type 0 where
  bad_irq : Outcome
  passed : List ℕ → Outcome

unfoldable pub sa1101_irq_handler : ℕ → List (ℕ × ℕ) → Option (Outcome × Bool)
sa1101_irq_handler start [] = none
sa1101_irq_handler start ((stat0, stat1) ∷ reads) =
    if (stat0 == 0) && (stat1 == 0)
    then some (bad_irq, true)
    else elim (handle_turns start ((stat0, stat1) ∷ reads)) [
      | none ↦ none
      | some irqs ↦ some (passed irqs, false)
    ]

unfoldable pub mask_low_irq : ℕ → ℕ → Chip → Chip
mask_low_irq start irq c = record c { enable0 = clear_bit c.enable0 (irq - start) }

unfoldable pub unmask_low_irq : ℕ → ℕ → Chip → Chip
unmask_low_irq start irq c = record c { enable0 = set_bit c.enable0 (irq - start) }

unfoldable pub mask_high_irq : ℕ → ℕ → Chip → Chip
mask_high_irq start irq c = record c { enable1 = clear_bit c.enable1 (irq - start - 32) }

unfoldable pub unmask_high_irq : ℕ → ℕ → Chip → Chip
unmask_high_irq start irq c = record c { enable1 = set_bit c.enable1 (irq - start - 32) }

-- The chip that `sa1101_init_irq` gives to an interrupt: the low one for the first 32.
abbrev pub by_chip {ℓ} : {A : Type ℓ} → ℕ → ℕ → A → A → A
by_chip start irq low high = if ltb irq (start + 32) then low else high

-- IRQT_PROBE, or the two edges of the flags.
pub data Flags : Type 0 where
  probe : Flags
  edges : Bool → Bool → Flags

abbrev pub polarity : Flags → ℕ → ℕ → Option ℕ
polarity probe n pol = some pol
polarity (edges true true) n pol = none
polarity (edges false false) n pol = none
polarity (edges true false) n pol = some (clear_bit pol n)
polarity (edges false true) n pol = some (set_bit pol n)

-- The answer is false for -EINVAL.
unfoldable pub type_low_irq : ℕ → ℕ → Flags → Chip → Bool × Chip
type_low_irq start irq flags c = elim (polarity flags (irq - start) c.pol0) [
  | none ↦ (false, c)
  | some p ↦ (true, record c { pol0 = p })
]

unfoldable pub type_high_irq : ℕ → ℕ → Flags → Chip → Bool × Chip
type_high_irq start irq flags c = elim (polarity flags (irq - start - 32) c.pol1) [
  | none ↦ (false, c)
  | some p ↦ (true, record c { pol1 = p })
]

-- The loop of the two retrigger functions: `seen` has what the status shows after each try. The answer says whether
-- the interrupt was seen, after how many tries.
unfoldable pub tries : ℕ → List Bool → Bool × ℕ
tries zero seen = (false, 0)
tries (suc n) [] = let (found, k) = tries n [] in (found, k + 1)
tries (suc n) (s ∷ seen) = let (found, k) = tries n seen in if s then (true, 1) else (found, k + 1)

-- `i ^ mask` for one bit.
abbrev pub flip_bit : ℕ → ℕ → ℕ
flip_bit w k = if bit w k then clear_bit w k else set_bit w k

-- What is written to the polarity register by `k` tries, the latest first.
abbrev pub writes : ℕ → ℕ → ℕ → List ℕ
writes zero pol n = []
writes (suc k) pol n = pol ∷ flip_bit pol n ∷ writes k pol n

unfoldable pub retrigger_low_irq : ℕ → ℕ → List Bool → Chip → Bool × List ℕ
retrigger_low_irq start irq seen c =
    let (found, k) = tries 8 seen in (found, writes k c.pol0 (irq - start))

unfoldable pub retrigger_high_irq : ℕ → ℕ → List Bool → Chip → Bool × List ℕ
retrigger_high_irq start irq seen c =
    let (found, k) = tries 8 seen in (found, writes k c.pol1 (irq - start - 32))

-- `s0_ready` and `s1_ready` are the two interrupts that the errata sheet sets apart.
unfoldable pub sa1101_init_irq : ℕ → ℕ → ℕ → Chip
sa1101_init_irq start s0_ready s1_ready = record {
  enable0 = 0;
  enable1 = 0;
  pol0 = 0;
  pol1 = set_bit (set_bit 0 (s0_ready - start - 32)) (s1_ready - start - 32);
}

-- What one child of the bus holds: its structure, its resource, its registration.
pub record Child : Type 0 where
  pub structure : Bool
  pub resource : Bool
  pub registered : Bool

unfoldable pub sa1101_init_one_child : ℕ → Bool → ℕ → ℕ → ℕ × Child
sa1101_init_one_child enomem got_memory res_ret dev_ret =
    let nothing : Child = record { structure = false; resource = false; registered = false } in
    if not got_memory
    then (enomem, nothing)
    else if not (res_ret == 0)
    then (res_ret, nothing)
    else if not (dev_ret == 0)
    then (dev_ret, nothing)
    else (0, record { structure = true; resource = true; registered = true })
