-- ===== src/Ucb/Shadow.antt =====
-- The copies that ucb1x00-core.c keeps of the registers of the chip, and the clock that it turns on for
-- its accesses.
use jornada.Common.{
  ℕ, ◌+◌, ◌-◌, ◌≡◌, ◌<◌, ◌⊎◌, inl, inr, Bool, true, false, not, ◌&&◌, ◌||◌, Option, List, [], ◌∷◌,
  if◌then◌else◌, ◌==◌, arith, refl,
}
use jornada.Common.Bits.{bit, lor, but_not, bit-lor, bit-but_not}
use jornada.Ucb.Defs.{
  Register, io_data, io_direction, ie_rising, ie_falling, ie_clear, adc_control, Access, enable,
  disable, write, Ucb, ucb1x00_io_set_dir, ucb1x00_io_write, ucb1x00_adc_enable,
  ucb1x00_adc_disable, ucb1x00_adc_read, ucb1x00_irq, ucb1x00_hook_irq, ucb1x00_enable_irq,
  ucb1x00_disable_irq, ucb1x00_free_irq,
}

-- The chip, as its accesses leave it: the registers with a copy, how often its clock is asked for, and
-- whether a register was written while it was not.
pub record Chip : Type 0 where
  pub direction : ℕ
  pub outputs : ℕ
  pub rising : ℕ
  pub falling : ℕ
  pub control : ℕ
  pub users : ℕ
  pub lost : Bool

abbrev pub reset : Chip
reset = record {
  direction = 0;
  outputs = 0;
  rising = 0;
  falling = 0;
  control = 0;
  users = 0;
  lost = false;
}

abbrev pub store : Register → ℕ → Chip → Chip
store io_direction v c = record c { direction = v }
store io_data v c = record c { outputs = v }
store ie_rising v c = record c { rising = v }
store ie_falling v c = record c { falling = v }
store ie_clear v c = c
store adc_control v c = record c { control = v }

abbrev pub accessed : Access → Chip → Chip
accessed enable c = record c { users = c.users + 1 }
accessed disable c = record c { users = c.users - 1 }
accessed (write r v) c = if c.users == 0 then record c { lost = true } else store r v c

abbrev pub replay : List Access → Chip
replay [] = reset
replay (a ∷ log) = accessed a (replay log)

-- A call of one of the functions.
pub data Operation : Type 0 where
  io_set_dir io_write : ℕ → ℕ → Operation
  adc_enable adc_disable : Operation
  adc_read : ℕ → Bool → Operation
  irq : ℕ → Operation
  hook_irq : ℕ → ℕ → Option ℕ → Operation
  enable_irq disable_irq : ℕ → Bool → Bool → Operation
  free_irq : ℕ → Option ℕ → Operation

-- The constants of ucb1x00.h.
pub record Constants : Type 0 where
  pub adc_ena : ℕ
  pub sync_ena : ℕ
  pub adc_start : ℕ

abbrev pub perform : Constants → Operation → Ucb → Ucb
perform k (io_set_dir i o) u = ucb1x00_io_set_dir i o u
perform k (io_write s c) u = ucb1x00_io_write s c u
perform k adc_enable u = ucb1x00_adc_enable k.adc_ena u
perform k adc_disable u = ucb1x00_adc_disable k.adc_ena u
perform k (adc_read channel sync) u =
    (ucb1x00_adc_read k.sync_ena k.adc_start (λ v. v) channel sync [] u).1
perform k (irq isr) u = (ucb1x00_irq isr u).1
perform k (hook_irq idx fn devid) u = (ucb1x00_hook_irq idx fn devid u).1
perform k (enable_irq idx r f) u = ucb1x00_enable_irq idx r f u
perform k (disable_irq idx r f) u = ucb1x00_disable_irq idx r f u
perform k (free_irq idx devid) u = (ucb1x00_free_irq idx devid u).1

-- The calls that are for a chip whose clock runs already.
abbrev pub needs_clock : Operation → Bool
needs_clock (io_set_dir i o) = true
needs_clock (io_write s c) = true
needs_clock (adc_read channel sync) = true
needs_clock adc_disable = true
needs_clock _ = false

-- The control register of the converter holds its copy `cr`, with the channel and the start bit of a conversion if one
-- was started since the copy was written.
abbrev pub IsConverting : (cr control : ℕ) → Type 0
IsConverting cr control =
    (control ≡ cr) ⊎ ((channel : ℕ) × ((start : ℕ) × (control ≡ lor 32 (lor 32 cr channel) start)))

-- The copy after a call.
abbrev pub adc_cr_after : Constants → Operation → Ucb → ℕ
adc_cr_after k adc_enable u = lor 32 u.adc_cr k.adc_ena
adc_cr_after k adc_disable u = but_not 32 u.adc_cr k.adc_ena
adc_cr_after k _ u = u.adc_cr

-- The register of the converter after a call: the new copy where the converter is enabled or disabled, the copy with
-- the channel and the start bit where a conversion is started, and what it was otherwise.
abbrev pub control_after : Constants → Operation → Ucb → ℕ
control_after k adc_enable u = lor 32 u.adc_cr k.adc_ena
control_after k adc_disable u = but_not 32 u.adc_cr k.adc_ena
control_after k (adc_read channel sync) u =
    lor 32 (lor 32 u.adc_cr (if sync then lor 32 channel k.sync_ena else channel)) k.adc_start
control_after k _ u = (replay u.log).control

-- The registers of the pins and of the interrupts hold the copies, and no write was lost.
abbrev AreCopies : Ucb → Type 0
AreCopies u =
    let c = replay u.log in
    (c.direction ≡ u.io_dir)
    × (c.outputs ≡ u.io_out)
    × (c.rising ≡ u.irq_ris_enbl)
    × (c.falling ≡ u.irq_fal_enbl)
    × (c.lost ≡ false)

-- All registers with a copy do.
pub record IsTracked (u : Ucb) : Type 0 where
  pub direction : (replay u.log).direction ≡ u.io_dir
  pub outputs : (replay u.log).outputs ≡ u.io_out
  pub rising : (replay u.log).rising ≡ u.irq_ris_enbl
  pub falling : (replay u.log).falling ≡ u.irq_fal_enbl
  pub control : IsConverting u.adc_cr (replay u.log).control
  pub not_lost : (replay u.log).lost ≡ false

-- How a call changes the number of users of the clock.
abbrev pub users_after : Operation → ℕ → ℕ
users_after adc_enable n = n + 1
users_after adc_disable n = n - 1
users_after _ n = n

perform-AreCopies :
    (k : Constants) (op : Operation) (u : Ucb)
    → AreCopies u
    → (needs_clock op ≡ true → 0 < (replay u.log).users)
    → AreCopies (perform k op u)
      × ((replay (perform k op u).log).users ≡ users_after op (replay u.log).users)
unfolding ucb1x00_io_set_dir ucb1x00_io_write ucb1x00_adc_enable ucb1x00_adc_disable
    ucb1x00_adc_read ucb1x00_irq ucb1x00_hook_irq ucb1x00_enable_irq ucb1x00_disable_irq
    ucb1x00_free_irq
perform-AreCopies k (io_set_dir i o) u t c = ground (arith, c refl)
perform-AreCopies k (io_write i o) u t c = ground (arith, c refl)
perform-AreCopies k adc_enable u t c = ground arith
perform-AreCopies k adc_disable u t c = ground (arith, c refl)
perform-AreCopies k (adc_read ch sync) u t c = ground (arith, c refl)
perform-AreCopies k (irq isr) u t c = ground arith
perform-AreCopies k (hook_irq idx fn devid) u t c = ground arith
perform-AreCopies k (enable_irq idx r f) u t c = ground arith
perform-AreCopies k (disable_irq idx r f) u t c = ground arith
perform-AreCopies k (free_irq idx devid) u t c = ground arith

perform-control :
    (k : Constants) (op : Operation) (u : Ucb)
    → (replay u.log).lost ≡ false
    → (needs_clock op ≡ true → 0 < (replay u.log).users)
    → ((replay (perform k op u).log).control ≡ control_after k op u)
      × ((perform k op u).adc_cr ≡ adc_cr_after k op u)
unfolding ucb1x00_io_set_dir ucb1x00_io_write ucb1x00_adc_enable ucb1x00_adc_disable
    ucb1x00_adc_read ucb1x00_irq ucb1x00_hook_irq ucb1x00_enable_irq ucb1x00_disable_irq
    ucb1x00_free_irq
perform-control k (io_set_dir i o) u t c = ground (arith, c refl)
perform-control k (io_write i o) u t c = ground (arith, c refl)
perform-control k adc_enable u t c = ground arith
perform-control k adc_disable u t c = ground (arith, c refl)
perform-control k (adc_read ch sync) u t c = ground (arith, c refl)
perform-control k (irq isr) u t c = ground arith
perform-control k (hook_irq idx fn devid) u t c = ground arith
perform-control k (enable_irq idx r f) u t c = ground arith
perform-control k (disable_irq idx r f) u t c = ground arith
perform-control k (free_irq idx devid) u t c = ground arith

perform-IsConverting :
    (k : Constants) (op : Operation) (u : Ucb)
    → IsConverting u.adc_cr (replay u.log).control
    → IsConverting (adc_cr_after k op u) (control_after k op u)
perform-IsConverting k (io_set_dir i o) u v = v
perform-IsConverting k (io_write i o) u v = v
perform-IsConverting k adc_enable u v = inl refl
perform-IsConverting k adc_disable u v = inl refl
perform-IsConverting k (adc_read ch sync) u v =
    inr ((if sync then lor 32 ch k.sync_ena else ch), (k.adc_start, refl))
perform-IsConverting k (irq isr) u v = v
perform-IsConverting k (hook_irq idx fn devid) u v = v
perform-IsConverting k (enable_irq idx r f) u v = v
perform-IsConverting k (disable_irq idx r f) u v = v
perform-IsConverting k (free_irq idx devid) u v = v

-- When the registers of the chip hold the copies that the driver keeps of them, the control register
-- of the converter holds its copy or is in a conversion with it, and no write was lost, a call of
-- any function of the driver leaves that so, if the clock of the chip runs already for the calls
-- that need it. An enabling or a disabling of the converter writes the control register, with the
-- enable bit set or cleared in it, and adds or drops one user of the clock; a read of the converter
-- leaves the copy with the channel and the start bit in the register; no other call changes the
-- register or the users.
pub perform-IsTracked :
    (k : Constants) (op : Operation) (u : Ucb)
    → IsTracked u
    → (needs_clock op ≡ true → 0 < (replay u.log).users)
    → IsTracked (perform k op u)
      × ((replay (perform k op u).log).users ≡ users_after op (replay u.log).users)
      × ((replay (perform k op u).log).control ≡ control_after k op u)
perform-IsTracked k op u t clock =
    let ((d, o, r, f, kept), users) =
      perform-AreCopies k op u (t.direction, t.outputs, t.rising, t.falling, t.not_lost) clock in
    let (control, cr) = perform-control k op u t.not_lost clock in
    (
      record {
        direction = d;
        outputs = o;
        rising = r;
        falling = f;
        control = rw (control, cr) (perform-IsConverting k op u t.control);
        not_lost = kept;
      },
      users,
      control,
    )

-- The inputs have priority over the outputs for each of the 32 bits of the direction, and the
-- cleared pins over those that are set.
pins_lem :
    (a b j : ℕ) (u : Ucb)
    → j < 32
    → (bit (ucb1x00_io_set_dir a b u).io_dir j ≡ (not (bit a j) && (bit b j || bit u.io_dir j)))
      × (bit (ucb1x00_io_write a b u).io_out j ≡ (not (bit b j) && (bit a j || bit u.io_out j)))
unfolding ucb1x00_io_set_dir ucb1x00_io_write
pins_lem a b j u h = ground (
  arith,
  bit-but_not 32 (lor 32 u.io_dir b) a j h,
  bit-lor 32 u.io_dir b j h,
  bit-but_not 32 (lor 32 u.io_out a) b j h,
  bit-lor 32 u.io_out a j h,
)
