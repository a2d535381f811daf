-- ===== src/Sa1101/Chips.antt =====
-- The two interrupt chips of sa1101.c, and the children of its bus.
use jornada.Common.{
  ℕ, ◌+◌, ◌-◌, ◌≡◌, ◌≢◌, ◌⊎◌, ◌↔◌, ◌≤◌, Bool, true, false, List, [], ◌∷◌, arith, Bool-cases, inl,
  inr, refl, zero, suc, ltb, length, get_or,
}
use jornada.Common.Bits.{bit, bit-set_self, bit-set_ne, bit-clear_self, bit-clear_ne}
use jornada.Sa1101.Defs.{
  Chip, Flags, by_chip, edges, probe, mask_low_irq, unmask_low_irq, mask_high_irq, unmask_high_irq,
  type_low_irq, type_high_irq, tries, writes, retrigger_low_irq, retrigger_high_irq,
  sa1101_init_one_child,
}

-- Whether an interrupt is enabled, and whether it is on the falling edge.
abbrev pub enabled : ℕ → Chip → ℕ → Bool
enabled start c irq =
    by_chip start irq (bit c.enable0 (irq - start)) (bit c.enable1 (irq - start - 32))

abbrev pub falling : ℕ → Chip → ℕ → Bool
falling start c irq = by_chip start irq (bit c.pol0 (irq - start)) (bit c.pol1 (irq - start - 32))

abbrev pub mask : ℕ → ℕ → Chip → Chip
mask start irq = by_chip start irq (mask_low_irq start irq) (mask_high_irq start irq)

abbrev pub unmask : ℕ → ℕ → Chip → Chip
unmask start irq = by_chip start irq (unmask_low_irq start irq) (unmask_high_irq start irq)

abbrev pub set_type : ℕ → ℕ → Flags → Chip → Bool × Chip
set_type start irq = by_chip start irq (type_low_irq start irq) (type_high_irq start irq)

-- The bits of two interrupts of one chip differ.
low_ne : (start a b : ℕ) → start ≤ a → start ≤ b → a ≢ b → (a - start) ≢ (b - start)
low_ne start a b ha hb ne = λ e. ne (omega (arith, e, ha, hb))

high_ne :
    (start a b : ℕ) → start + 32 ≤ a → start + 32 ≤ b → a ≢ b → (a - start - 32) ≢ (b - start - 32)
high_ne start a b ha hb ne = λ e. ne (omega (arith, e, ha, hb))

-- Masking and unmasking an interrupt, on the chip that it belongs to, turns it off and on, and no
-- other.
mask_lem :
    (start a b : ℕ) (c : Chip)
    → start ≤ a
    → start ≤ b
    → a ≢ b
    → (enabled start (mask start a c) a ≡ false)
      × (enabled start (unmask start a c) a ≡ true)
      × (enabled start (mask start a c) b ≡ enabled start c b)
      × (enabled start (unmask start a c) b ≡ enabled start c b)
unfolding mask_low_irq mask_high_irq unmask_low_irq unmask_high_irq
mask_lem start a b c ha hb ne = elim (Bool-cases (ltb a (start + 32))) [
  | inl la ↦ elim (Bool-cases (ltb b (start + 32))) [
    | inl lb ↦
        let d = low_ne start a b ha hb ne in
        rw (la, lb)
          (
            bit-clear_self c.enable0 (a - start),
            bit-set_self c.enable0 (a - start),
            bit-clear_ne c.enable0 (a - start) (b - start) d,
            bit-set_ne c.enable0 (a - start) (b - start) d,
          )
    | inr lb ↦
        rw (la, lb)
          (bit-clear_self c.enable0 (a - start), bit-set_self c.enable0 (a - start), refl, refl)
  ]
  | inr la ↦ elim (Bool-cases (ltb b (start + 32))) [
    | inl lb ↦
        rw (la, lb)
          (
            bit-clear_self c.enable1 (a - start - 32),
            bit-set_self c.enable1 (a - start - 32),
            refl,
            refl,
          )
    | inr lb ↦
        let d = high_ne start a b (ground (arith, la)) (ground (arith, lb)) ne in
        rw (la, lb)
          (
            bit-clear_self c.enable1 (a - start - 32),
            bit-set_self c.enable1 (a - start - 32),
            bit-clear_ne c.enable1 (a - start - 32) (b - start - 32) d,
            bit-set_ne c.enable1 (a - start - 32) (b - start - 32) d,
          )
  ]
]

-- The type of an interrupt is refused for both edges and for none, without a change; else the
-- polarity is that of the edge.
set_type_lem :
    (start irq : ℕ) (flags : Flags) (c : Chip)
    → let (good, c') = set_type start irq flags c in
      (((good ≡ false) × ((flags ≡ edges true true) ⊎ (flags ≡ edges false false)) × (c' ≡ c))
        ⊎ ((good ≡ true) × (flags ≡ probe) × (c' ≡ c))
        ⊎ ((good ≡ true) × (flags ≡ edges true false) × (falling start c' irq ≡ false))
        ⊎ ((good ≡ true) × (flags ≡ edges false true) × (falling start c' irq ≡ true)))
unfolding type_low_irq type_high_irq
set_type_lem start irq probe c = elim (Bool-cases (ltb irq (start + 32))) [
  | inl l ↦ rw l (inr (inl (refl, refl, refl)))
  | inr l ↦ rw l (inr (inl (refl, refl, refl)))
]
set_type_lem start irq (edges true true) c = elim (Bool-cases (ltb irq (start + 32))) [
  | inl l ↦ rw l (inl (refl, inl refl, refl))
  | inr l ↦ rw l (inl (refl, inl refl, refl))
]
set_type_lem start irq (edges false false) c = elim (Bool-cases (ltb irq (start + 32))) [
  | inl l ↦ rw l (inl (refl, inr refl, refl))
  | inr l ↦ rw l (inl (refl, inr refl, refl))
]
set_type_lem start irq (edges true false) c = elim (Bool-cases (ltb irq (start + 32))) [
  | inl l ↦ rw l (inr (inr (inl (refl, refl, bit-clear_self c.pol0 (irq - start)))))
  | inr l ↦ rw l (inr (inr (inl (refl, refl, bit-clear_self c.pol1 (irq - start - 32)))))
]
set_type_lem start irq (edges false true) c = elim (Bool-cases (ltb irq (start + 32))) [
  | inl l ↦ rw l (inr (inr (inr (refl, refl, bit-set_self c.pol0 (irq - start)))))
  | inr l ↦ rw l (inr (inr (inr (refl, refl, bit-set_self c.pol1 (irq - start - 32)))))
]

tries_lem :
    (n : ℕ) (seen : List Bool)
    → let (found, k) = tries n seen in (k ≤ n) × ((found ≡ true) ⊎ (k ≡ n))
unfolding tries
tries_lem zero seen = ground arith
tries_lem (suc n) [] = ground (arith, tries_lem n [])
tries_lem (suc n) (s ∷ seen) = ground (arith, tries_lem n seen)

length-writes : (k pol n : ℕ) → length (writes k pol n) ≡ k + k
length-writes zero pol n = refl
length-writes (suc k) pol n = omega (arith, length-writes k pol n)

writes-restores : (k pol n : ℕ) → get_or (writes k pol n) 0 pol ≡ pol
writes-restores zero pol n = refl
writes-restores (suc k) pol n = refl

-- A retrigger ends after 8 tries at most, and after fewer only when the interrupt was seen; the
-- polarity is restored. The two chips do so alike.
retrigger_lem :
    (start irq : ℕ) (seen : List Bool) (c : Chip)
    → let (found, ws) = retrigger_low_irq start irq seen c in
      let (found', ws') = retrigger_high_irq start irq seen c in
      ((length ws ≤ 16) × ((found ≡ true) ⊎ (length ws ≡ 16)) × (get_or ws 0 c.pol0 ≡ c.pol0))
      × ((found' ≡ found) × (length ws' ≡ length ws) × (get_or ws' 0 c.pol1 ≡ c.pol1))
unfolding retrigger_low_irq retrigger_high_irq
retrigger_lem start irq seen c =
    let (few, outcome) = tries_lem 8 seen in
    let k = (tries 8 seen).1 in
    let size = length-writes k c.pol0 (irq - start) in
    let size' = length-writes k c.pol1 (irq - start - 32) in
    (
      (
        omega (arith, few, size),
        (elim outcome [ inl t ↦ inl t | inr e ↦ inr (omega (arith, e, size)) ]),
        writes-restores k c.pol0 (irq - start),
      ),
      (refl, omega (arith, size, size'), writes-restores k c.pol1 (irq - start - 32)),
    )

-- With an error code that is not 0, a child of the bus that is not registered holds nothing, and
-- the answer is 0 exactly if it is.
init_one_child_lem :
    (enomem : ℕ) (got_memory : Bool) (res_ret dev_ret : ℕ)
    → enomem ≢ 0
    → let (ret, h) = sa1101_init_one_child enomem got_memory res_ret dev_ret in
      ((ret ≡ 0) ↔ (h.registered ≡ true))
      × (h.structure ≡ h.registered)
      × (h.resource ≡ h.registered)
unfolding sa1101_init_one_child
init_one_child_lem enomem m r d h = ground arith
