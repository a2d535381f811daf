-- ===== src/Clock/Defs.antt =====
-- The frequencies of generic.c, and `sa1100_target` of cpu-sa1100.c with the timings of the memory. What it does is the
-- list of its actions; a panic is none.
use jornada.Common.{
  ℕ, suc, ◌-◌, ◌*◌, ◌/◌, ◌^◌, not, ◌&&◌, Option, none, some, List, [], ◌∷◌, ◌++◌, if◌then◌else◌,
  ◌==◌, ltb, get_or,
}

-- `cclk_frequency_100khz`
abbrev pub frequencies : List ℕ
frequencies =
    590 ∷ 737 ∷ 885 ∷ 1032 ∷ 1180 ∷ 1327 ∷ 1475 ∷ 1622 ∷ 1769 ∷ 1917 ∷ 2064 ∷ 2212 ∷ 2359 ∷ 2507
    ∷ 2654 ∷ 2802 ∷ []

-- The first frequency that is not below, or the number of frequencies.
abbrev pub first_from : List ℕ → ℕ → ℕ
first_from [] khz = 0
first_from (f ∷ fs) khz = let rest = first_from fs khz in if ltb f khz then suc rest else 0

unfoldable pub sa11x0_freq_to_ppcr : ℕ → ℕ
sa11x0_freq_to_ppcr khz = first_from frequencies (khz / 100)

unfoldable pub sa11x0_ppcr_to_freq : ℕ → ℕ
sa11x0_ppcr_to_freq idx = if ltb idx 16 then get_or frequencies idx 0 * 100 else 0

-- `struct cpufreq_policy`, as far as the two functions read it.
pub record Policy : Type 0 where
  pub min_freq : ℕ
  pub max_freq : ℕ

pub data Relation : Type 0 where
  relation_l relation_h : Relation

-- The settings of the memory for a speed.
pub record DramRegs : Type 0 where
  pub speed : ℕ
  pub mdcnfg : ℕ
  pub mdcas0 : ℕ
  pub mdcas1 : ℕ
  pub mdcas2 : ℕ

-- A write to the registers of the memory (the settings it is from), or to PPCR; or a call of the notifiers.
pub data Action : Type 0 where
  half_clock : Action
  set_mdcas0 set_mdcas1 set_mdcas2 set_mdcnfg : DramRegs → Action
  set_ppcr : ℕ → Action
  prechange postchange : ℕ → ℕ → Action

-- `while (settings->speed != 0)`, on a table without its last entry.
abbrev pub find_speed : List DramRegs → ℕ → Option DramRegs
find_speed [] new_speed = none
find_speed (s ∷ settings) new_speed =
    let rest = find_speed settings new_speed in if new_speed == s.speed then some s else rest

unfoldable pub sa1100_update_dram_timings : List DramRegs → ℕ → ℕ → Option (List Action)
sa1100_update_dram_timings settings current_speed new_speed = elim (find_speed settings new_speed) [
  | none ↦ none
  | some s ↦
      if ltb current_speed new_speed
      then some (half_clock ∷ set_mdcas2 s ∷ set_mdcas1 s ∷ set_mdcas0 s ∷ set_mdcnfg s ∷ [])
      else some (half_clock ∷ set_mdcas0 s ∷ set_mdcas1 s ∷ set_mdcas2 s ∷ set_mdcnfg s ∷ [])
]

-- `new_ppcr--` on 32 bits.
abbrev pub less_one : ℕ → ℕ
less_one p = if p == 0 then 2 ^ 32 - 1 else p - 1

unfoldable pub new_ppcr : Policy → ℕ → Relation → ℕ
new_ppcr policy target_freq relation_l =
    let p = sa11x0_freq_to_ppcr target_freq in
    if ltb policy.max_freq (sa11x0_ppcr_to_freq p) then less_one p else p
new_ppcr policy target_freq relation_h =
    let p = sa11x0_freq_to_ppcr target_freq in
    if ltb target_freq (sa11x0_ppcr_to_freq p)
      && not (ltb (sa11x0_ppcr_to_freq (less_one p)) policy.min_freq)
    then less_one p
    else p

-- The part of `sa1100_target` from the first notification on.
unfoldable pub change_clock : List DramRegs → ℕ → ℕ → Option (List Action)
change_clock settings cur ppcr =
    let new = sa11x0_ppcr_to_freq ppcr in
    let timings = sa1100_update_dram_timings settings cur new in
    if ltb cur new
    then elim timings [
      | none ↦ none
      | some t ↦ some (prechange cur new ∷ t ++ (set_ppcr ppcr ∷ postchange cur new ∷ []))
    ]
    else if ltb new cur
    then elim timings [
      | none ↦ none
      | some t ↦ some (prechange cur new ∷ set_ppcr ppcr ∷ t ++ (postchange cur new ∷ []))
    ]
    else some (prechange cur new ∷ set_ppcr ppcr ∷ postchange cur new ∷ [])

-- `cur` is the answer of `sa11x0_getspeed`.
unfoldable pub sa1100_target : List DramRegs → Policy → ℕ → ℕ → Relation → Option (List Action)
sa1100_target settings policy cur target_freq relation =
    change_clock settings cur (new_ppcr policy target_freq relation)
