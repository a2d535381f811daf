-- ===== src/Pcmcia/Irqs.antt =====
-- The card interrupts of soc_common.c: `soc_pcmcia_request_irqs` and `soc_pcmcia_free_irqs`.
use jornada.Common.{
  &&_true, ℕ, ◌≡◌, ◌≢◌, inl, inr, refl, Bool, true, false, not, ◌&&◌, List, [], ◌∷◌, if◌then◌else◌,
  ◌==◌, arith, Bool-cases,
}

-- One row of the board's table: the socket that it belongs to, its interrupt, and what `request_irq`
-- returns for it, 0 for success.
pub record Irq : Type 0 where
  pub sock : ℕ
  pub irq : ℕ
  pub answer : ℕ

-- The interrupts that are held, latest first.
abbrev pub Held : Type 0
Held = List ℕ

-- `free_irq`: the latest hold of the interrupt goes.
unfoldable pub release : ℕ → Held → Held
release n [] = []
release n (h ∷ hs) = let rest = h ∷ release n hs in if n == h then hs else rest

-- `while (i--) if (irqs[i].sock == skt->nr) free_irq(...)`, over the rows before `i`, latest first.
unfoldable pub undo : ℕ → List Irq → Held → Held
unfolding release
undo nr [] held = held
undo nr (i ∷ is) held = undo nr is (if i.sock == nr then release i.irq held else held)

-- `back` has the rows that were passed, latest first.
unfoldable pub request_from : ℕ → List Irq → List Irq → Held → ℕ × Held
request_from nr back [] held = (0, held)
request_from nr back (i ∷ is) held =
    let skipped = request_from nr (i ∷ back) is held in
    let claimed = request_from nr (i ∷ back) is (i.irq ∷ held) in
    if not (i.sock == nr)
    then skipped
    else if i.answer == 0
    then claimed
    else (i.answer, undo nr back held)

unfoldable pub soc_pcmcia_request_irqs : ℕ → List Irq → Held → ℕ × Held
soc_pcmcia_request_irqs nr irqs held = request_from nr [] irqs held

-- The rows before the current one, from the first; freed in the order of the table.
unfoldable pub soc_pcmcia_free_irqs : ℕ → List Irq → Held → Held
soc_pcmcia_free_irqs nr [] held = held
soc_pcmcia_free_irqs nr (i ∷ is) held =
    soc_pcmcia_free_irqs nr is (if i.sock == nr then release i.irq held else held)

-- The interrupts of the socket among some rows, put before others.
abbrev pub mine : ℕ → List Irq → Held → Held
mine nr [] held = held
mine nr (i ∷ is) held = if i.sock == nr then i.irq ∷ mine nr is held else mine nr is held

-- Every row of the socket is one that `request_irq` grants.
abbrev pub is_granted : ℕ → List Irq → Bool
is_granted nr [] = true
is_granted nr (i ∷ is) = (if i.sock == nr then i.answer == 0 else true) && is_granted nr is

-- The table's rows put in front of others, the last of them first.
abbrev pub passed : List Irq → List Irq → List Irq
passed [] back = back
passed (i ∷ is) back = passed is (i ∷ back)

release_head : (n : ℕ) (hs : Held) → release n (n ∷ hs) ≡ hs
unfolding release
release_head n hs = ground arith

undo-mine : (nr : ℕ) (back : List Irq) (held : Held) → undo nr back (mine nr back held) ≡ held
unfolding undo
undo-mine nr [] held = refl
undo-mine nr (i ∷ is) held = elim (Bool-cases (i.sock == nr)) [
  | inl e ↦ rw (e, release_head i.irq (mine nr is held)) (undo-mine nr is held)
  | inr e ↦ rw e (undo-mine nr is held)
]

-- The loop, where every row that is left is granted.
request_from-granted :
    (nr : ℕ) (back is : List Irq) (held : Held)
    → is_granted nr is ≡ true
    → request_from nr back is (mine nr back held) ≡ (0, mine nr (passed is back) held)
unfolding request_from
request_from-granted nr back [] held g = refl
request_from-granted nr back (i ∷ is) held g = elim (Bool-cases (i.sock == nr)) [
  | inr e ↦ let ih = request_from-granted nr (i ∷ back) is held (rw e at g) in rw e (rw e at ih)
  | inl e ↦
      let (a, rest) = &&_true (i.answer == 0) (is_granted nr is) (rw e at g) in
      let ih = request_from-granted nr (i ∷ back) is held rest in rw (e, a) (rw e at ih)
]

-- The loop, where some row that is left is refused: it answers an error, and gives all of it back.
request_from-refused :
    (nr : ℕ) (back is : List Irq) (held : Held)
    → is_granted nr is ≡ false
    → let (ret, after) = request_from nr back is (mine nr back held) in (ret ≢ 0) × (after ≡ held)
unfolding request_from
request_from-refused nr back [] held g = ground arith
request_from-refused nr back (i ∷ is) held g = elim (Bool-cases (i.sock == nr)) [
  | inr e ↦ let ih = request_from-refused nr (i ∷ back) is held (rw e at g) in rw e (rw e at ih)
  | inl e ↦ elim (Bool-cases (i.answer == 0)) [
    | inl a ↦
        let ih = request_from-refused nr (i ∷ back) is held (rw (e, a) at g) in
        rw (e, a) (rw e at ih)
    | inr a ↦ rw (e, a) (λ z. ground arith, undo-mine nr back held)
  ]
]

-- When every row of the socket is granted its interrupt, `soc_pcmcia_request_irqs` answers 0, and
-- what is held has gained the interrupts of the socket's rows and no others, the last row's first.
soc_pcmcia_request_irqs-granted :
    (nr : ℕ) (irqs : List Irq) (held : Held)
    → is_granted nr irqs ≡ true
    → soc_pcmcia_request_irqs nr irqs held ≡ (0, mine nr (passed irqs []) held)
unfolding soc_pcmcia_request_irqs
soc_pcmcia_request_irqs-granted nr irqs held g = request_from-granted nr [] irqs held g

-- When some row of the socket is refused its interrupt, `soc_pcmcia_request_irqs` answers an error,
-- and what is held is as it was before the call.
pub soc_pcmcia_request_irqs-refused :
    (nr : ℕ) (irqs : List Irq) (held : Held)
    → is_granted nr irqs ≡ false
    → let (ret, after) = soc_pcmcia_request_irqs nr irqs held in (ret ≢ 0) × (after ≡ held)
unfolding soc_pcmcia_request_irqs
soc_pcmcia_request_irqs-refused nr irqs held g = request_from-refused nr [] irqs held g
