-- ===== src/Clock/Safety.antt =====
-- The order of the writes in cpu-sa1100.c: the timings of the memory are never those of a lower speed than the clock's.
use jornada.Common.{
  ℕ, ◌≡◌, ◌≤◌, ◌<◌, ◌⊎◌, Bool, true, false, some, List, [], ◌∷◌, ◌==◌, ltb, arith, Bool-cases, inl,
  inr, refl, lt→ltb, le→ltb,
}
use jornada.Clock.Defs.{
  DramRegs, Action, half_clock, set_mdcas0, set_mdcas1, set_mdcas2, set_mdcnfg, set_ppcr, prechange,
  postchange, find_speed, sa11x0_ppcr_to_freq, sa1100_update_dram_timings, change_clock,
}

-- The clock of the processor, the speed that the settings in each of the four registers of the memory are for, and
-- whether the clock of the memory is halved.
pub record Speeds : Type 0 where
  pub core : ℕ
  pub mdcas0 : ℕ
  pub mdcas1 : ℕ
  pub mdcas2 : ℕ
  pub mdcnfg : ℕ
  pub halved : Bool

-- The write of MDCNFG sets the clock of the memory along with its settings.
abbrev pub after : Action → Speeds → Speeds
after (set_mdcas0 s) v = record v { mdcas0 = s.speed }
after (set_mdcas1 s) v = record v { mdcas1 = s.speed }
after (set_mdcas2 s) v = record v { mdcas2 = s.speed }
after (set_mdcnfg s) v = record v { mdcnfg = s.speed; halved = false }
after half_clock v = record v { halved = true }
after (set_ppcr p) v = record v { core = sa11x0_ppcr_to_freq p }
after _ v = v

abbrev pub after_all : List Action → Speeds → Speeds
after_all [] v = v
after_all (a ∷ acts) v = after_all acts (after a v)

-- No register of the memory is set up for less than the clock, and while they are not all set up for one speed the
-- clock of the memory is halved.
abbrev pub IsSafe : Speeds → Type 0
IsSafe v =
    (v.core ≤ v.mdcas0)
    × (v.core ≤ v.mdcas1)
    × (v.core ≤ v.mdcas2)
    × (v.core ≤ v.mdcnfg)
    × ((v.halved ≡ true) ⊎ ((v.mdcas0 ≡ v.mdcnfg) × (v.mdcas1 ≡ v.mdcnfg) × (v.mdcas2 ≡ v.mdcnfg)))

-- So it is at all times.
abbrev pub AreSafe : List Action → Speeds → Type 0
AreSafe [] v = IsSafe v
AreSafe (a ∷ acts) v = IsSafe v × AreSafe acts (after a v)

-- Everything is at one speed.
abbrev pub all_at : ℕ → Speeds
all_at speed = record {
  core = speed;
  mdcas0 = speed;
  mdcas1 = speed;
  mdcas2 = speed;
  mdcnfg = speed;
  halved = false;
}

find_speed_lem :
    (settings : List DramRegs) (new : ℕ) (s : DramRegs)
    → find_speed settings new ≡ some s
    → s.speed ≡ new
find_speed_lem [] new s e = absurd (ground (arith, e))
find_speed_lem (t ∷ settings) new s e = elim (Bool-cases (new == t.speed)) [
  | inl h ↦ let first : t ≡ s = ground (arith, h, e) in ground (arith, h, first)
  | inr h ↦ find_speed_lem settings new s (ground (arith, h, e))
]

-- What a change does to a higher and to a lower speed, where the settings are `s`.
abbrev pub up : ℕ → ℕ → DramRegs → List Action
up cur ppcr s =
    prechange cur (sa11x0_ppcr_to_freq ppcr)
    ∷ half_clock
    ∷ set_mdcas2 s
    ∷ set_mdcas1 s
    ∷ set_mdcas0 s
    ∷ set_mdcnfg s
    ∷ set_ppcr ppcr
    ∷ postchange cur (sa11x0_ppcr_to_freq ppcr)
    ∷ []

abbrev pub down : ℕ → ℕ → DramRegs → List Action
down cur ppcr s =
    prechange cur (sa11x0_ppcr_to_freq ppcr)
    ∷ set_ppcr ppcr
    ∷ half_clock
    ∷ set_mdcas0 s
    ∷ set_mdcas1 s
    ∷ set_mdcas2 s
    ∷ set_mdcnfg s
    ∷ postchange cur (sa11x0_ppcr_to_freq ppcr)
    ∷ []

pub change_clock-up :
    (settings : List DramRegs) (cur ppcr : ℕ) (s : DramRegs)
    → cur < sa11x0_ppcr_to_freq ppcr
    → find_speed settings (sa11x0_ppcr_to_freq ppcr) ≡ some s
    → change_clock settings cur ppcr ≡ some (up cur ppcr s)
unfolding change_clock sa1100_update_dram_timings
change_clock-up settings cur ppcr s h e = rw (e, lt→ltb cur (sa11x0_ppcr_to_freq ppcr) h) refl

pub change_clock-down :
    (settings : List DramRegs) (cur ppcr : ℕ) (s : DramRegs)
    → sa11x0_ppcr_to_freq ppcr < cur
    → find_speed settings (sa11x0_ppcr_to_freq ppcr) ≡ some s
    → change_clock settings cur ppcr ≡ some (down cur ppcr s)
unfolding change_clock sa1100_update_dram_timings
change_clock-down settings cur ppcr s h e =
    rw
      (
        e,
        le→ltb cur (sa11x0_ppcr_to_freq ppcr) (omega (arith, h)),
        lt→ltb (sa11x0_ppcr_to_freq ppcr) cur h,
      )
      refl

-- What is promised of a change: it is safe, and ends with the clock and all four registers of the memory at the new speed.
abbrev pub Promised : ℕ → ℕ → List Action → Type 0
Promised cur new acts = AreSafe acts (all_at cur) × (after_all acts (all_at cur) ≡ all_at new)

-- Where the table has settings of the memory for the new frequency, a change of the clock is made,
-- and from a memory that is set up for the present frequency at no time is any of the four registers
-- of the memory set up for less than the clock: a change upwards writes all of them before the
-- clock, one downwards after it, and while they do not all stand for one frequency the clock of the
-- memory is halved. At the end the clock and all four are at the new frequency.
pub change_clock-Promised :
    (settings : List DramRegs) (cur ppcr : ℕ) (s : DramRegs)
    → find_speed settings (sa11x0_ppcr_to_freq ppcr) ≡ some s
    → (acts : List Action) × (change_clock settings cur ppcr ≡ some acts)
      × Promised cur (sa11x0_ppcr_to_freq ppcr) acts
unfolding change_clock
change_clock-Promised settings cur ppcr s e =
    let same : s.speed ≡ sa11x0_ppcr_to_freq ppcr =
      find_speed_lem settings (sa11x0_ppcr_to_freq ppcr) s e in
    elim (Bool-cases (ltb cur (sa11x0_ppcr_to_freq ppcr))) [
      | inl h ↦ (
        up cur ppcr s,
        change_clock-up settings cur ppcr s (ground (arith, h)) e,
        ground (arith, same, h),
      )
      | inr h ↦ elim (Bool-cases (ltb (sa11x0_ppcr_to_freq ppcr) cur)) [
        | inl l ↦ (
          down cur ppcr s,
          change_clock-down settings cur ppcr s (ground (arith, l)) e,
          ground (arith, same, l),
        )
        | inr l ↦ (
          prechange cur (sa11x0_ppcr_to_freq ppcr)
              ∷ set_ppcr ppcr
              ∷ postchange cur (sa11x0_ppcr_to_freq ppcr)
              ∷ [],
          rw (h, l) refl,
          ground (arith, h, l),
        )
      ]
    ]
