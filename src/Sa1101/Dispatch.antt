-- ===== src/Sa1101/Dispatch.antt =====
-- The chained handler of sa1101.c: its loops end, and pass on every interrupt that is pending.
use jornada.Common.{
  ℕ, zero, suc, ◌+◌, ◌/◌, ◌^◌, ◌≡◌, ◌≢◌, ◌⊎◌, ◌<◌, Bool, false, ◌&&◌, some, List, [], ◌∷◌, ◌++◌,
  if◌then◌else◌, ◌==◌, arith, Bool-cases, inl, inr, refl, sym, ap, ◌∙◌,
}
use jornada.Common.Bits.{bit, pow_two-suc}
use jornada.Sa1101.Defs.{scan, handle_turns, passed, sa1101_irq_handler}

-- The interrupts of a word, from its lowest bit on, the first of them numbered `i`.
abbrev pub raised : ℕ → ℕ → (ℕ → Bool) → List ℕ
raised zero i pending = []
raised (suc n) i pending =
    let rest = raised n (i + 1) (λ j. pending (suc j)) in if pending 0 then i ∷ rest else rest

raised-none : (n i : ℕ) → raised n i (bit 0) ≡ []
raised-none zero i = refl
raised-none (suc n) i = raised-none n (i + 1)

-- As many turns as the word has bits are enough, and pass on each pending interrupt in the order
-- of the bits.
scan_lem : (n i stat : ℕ) → stat < 2 ^ n → scan n i stat ≡ some (raised n i (bit stat))
unfolding scan
scan_lem zero i stat h = let e : stat ≡ 0 = omega arith in rw e refl
scan_lem (suc n) i stat h = elim (Bool-cases (stat == 0)) [
  | inl z ↦
      let e : stat ≡ 0 = ground (arith, z) in
      rw z (ap some (sym (raised-none n (i + 1)) ∙ ap (λ w. raised (suc n) i (bit w)) (sym e)))
  | inr z ↦
      let rest = scan_lem n (i + 1) (stat / 2) (omega (arith, h, pow_two-suc n)) in
      rw (z, rest) refl
]

-- The statuses of the turns that the loop makes: 32 bits each, and one of them not clear.
pub data AreBusy : List (ℕ × ℕ) → Type 0 where
  last : AreBusy []
  turn :
      {s0 s1 : ℕ} {reads : List (ℕ × ℕ)}
      → s0 < 2 ^ 32
      → s1 < 2 ^ 32
      → ((s0 ≢ 0) ⊎ (s1 ≢ 0))
      → AreBusy reads
      → AreBusy ((s0, s1) ∷ reads)

-- Every interrupt of every turn, in order.
abbrev pub all_raised : ℕ → List (ℕ × ℕ) → List ℕ
all_raised start [] = []
all_raised start ((s0, s1) ∷ reads) =
    (raised 32 start (bit s0) ++ raised 32 (start + 32) (bit s1)) ++ all_raised start reads

handle_turns_lem :
    (start : ℕ) (reads more : List (ℕ × ℕ))
    → AreBusy reads
    → handle_turns start (reads ++ ((0, 0) ∷ more)) ≡ some (all_raised start reads)
unfolding handle_turns
handle_turns_lem start [] more b = refl
handle_turns_lem start ((s0, s1) ∷ reads) more (turn lt0 lt1 some_bit b) =
    let busy : ((s0 == 0) && (s1 == 0)) ≡ false = ground (arith, some_bit) in
    rw
      (
        busy,
        scan_lem 32 start s0 lt0,
        scan_lem 32 (start + 32) s1 lt1,
        handle_turns_lem start reads more b,
      )
      refl

-- When the two status registers show 32 bits at each turn, not all clear until the first turn at
-- which they are, the chained handler ends there, each of its scans within 32 steps, unmasks its
-- interrupt, and passes on each pending interrupt of each turn once, in the order of the turns and
-- of the bits.
pub irq_handler_lem :
    (start s0 s1 : ℕ) (reads more : List (ℕ × ℕ))
    → AreBusy ((s0, s1) ∷ reads)
    → sa1101_irq_handler start (((s0, s1) ∷ reads) ++ ((0, 0) ∷ more))
      ≡ some (passed (all_raised start ((s0, s1) ∷ reads)), false)
unfolding sa1101_irq_handler
irq_handler_lem start s0 s1 reads more (turn lt0 lt1 some_bit b) =
    let busy : ((s0 == 0) && (s1 == 0)) ≡ false = ground (arith, some_bit) in
    rw (busy, handle_turns_lem start ((s0, s1) ∷ reads) more (turn lt0 lt1 some_bit b)) refl
