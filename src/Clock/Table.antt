-- ===== src/Clock/Table.antt =====
-- The table of frequencies of generic.c, and what happens above its last entry.
use jornada.Common.{
  ℕ, zero, suc, ◌/◌, ◌≡◌, ◌⊎◌, ◌≤◌, ◌<◌, Bool, true, not, ◌&&◌, none, List, [], ◌∷◌, ltb, arith,
  get_or, length, Bool-cases, inl, inr, refl, lt→ltb, le→ltb,
}
use jornada.Clock.Defs.{
  DramRegs, Policy, Relation, relation_l, relation_h, find_speed, frequencies, first_from,
  sa11x0_freq_to_ppcr, sa11x0_ppcr_to_freq, sa1100_update_dram_timings, new_ppcr, change_clock,
  sa1100_target,
}

-- The entries before the one that is found are below.
first_from-below : (fs : List ℕ) (khz j : ℕ) → j < first_from fs khz → get_or fs j 0 < khz
first_from-below [] khz j h = absurd (omega arith)
first_from-below (f ∷ fs) khz zero h = ground (arith, h)
first_from-below (f ∷ fs) khz (suc j) h = first_from-below fs khz j (ground (arith, h))

-- The one that is found is not.
first_from-reached :
    (fs : List ℕ) (khz : ℕ)
    → (first_from fs khz ≡ length fs) ⊎ (khz ≤ get_or fs (first_from fs khz) 0)
first_from-reached [] khz = inl refl
first_from-reached (f ∷ fs) khz = elim (Bool-cases (ltb f khz)) [
  | inl b ↦ elim (first_from-reached fs khz) [
    | inl e ↦ rw b (inl (omega (arith, e)))
    | inr e ↦ rw b (inr e)
  ]
  | inr b ↦ rw b (inr (ground (arith, b)))
]

-- Every entry is at most `bound`.
abbrev pub all_le : List ℕ → ℕ → Bool
all_le [] bound = true
all_le (f ∷ fs) bound = not (ltb bound f) && all_le fs bound

first_from-past :
    (fs : List ℕ) (bound khz : ℕ)
    → all_le fs bound ≡ true
    → bound < khz
    → first_from fs khz ≡ length fs
first_from-past [] bound khz all h = refl
first_from-past (f ∷ fs) bound khz all h = ground (arith, first_from-past fs bound khz)

-- The index is of the first frequency that is not below the request in units of 100 kHz, or 16
-- where all are below.
freq_to_ppcr_lem :
    (khz j : ℕ)
    → j < sa11x0_freq_to_ppcr khz
    → (get_or frequencies j 0 < khz / 100)
      × ((sa11x0_freq_to_ppcr khz ≡ 16)
          ⊎ (khz / 100 ≤ get_or frequencies (sa11x0_freq_to_ppcr khz) 0))
unfolding sa11x0_freq_to_ppcr
freq_to_ppcr_lem khz j h =
    (first_from-below frequencies (khz / 100) j h, first_from-reached frequencies (khz / 100))

no_freq : sa11x0_ppcr_to_freq 16 ≡ 0
unfolding sa11x0_ppcr_to_freq
no_freq = refl

new_ppcr-past :
    (policy : Policy) (target_freq : ℕ) (relation : Relation)
    → 280300 ≤ target_freq
    → new_ppcr policy target_freq relation ≡ 16
unfolding new_ppcr sa11x0_freq_to_ppcr
new_ppcr-past policy target_freq relation_l t =
    rw
      (
        first_from-past frequencies 2802 (target_freq / 100) refl (omega arith),
        no_freq,
        le→ltb policy.max_freq 0 (omega arith),
      )
      refl
new_ppcr-past policy target_freq relation_h t =
    rw
      (
        first_from-past frequencies 2802 (target_freq / 100) refl (omega arith),
        no_freq,
        le→ltb target_freq 0 (omega arith),
      )
      refl

-- With a table that has no settings for the frequency 0, a request for 280.3 MHz or more, which is
-- above the last entry of the table of frequencies, panics from any frequency that is not 0,
-- whatever the policy and the relation.
sa1100_target-past :
    (settings : List DramRegs) (policy : Policy) (cur target_freq : ℕ) (relation : Relation)
    → find_speed settings 0 ≡ none
    → 0 < cur
    → 280300 ≤ target_freq
    → sa1100_target settings policy cur target_freq relation ≡ none
unfolding sa1100_target change_clock sa1100_update_dram_timings
sa1100_target-past settings policy cur target_freq relation e h t =
    rw
      (
        new_ppcr-past policy target_freq relation t,
        no_freq,
        e,
        le→ltb cur 0 (omega arith),
        lt→ltb 0 cur h,
      )
      refl
