-- ===== src/Ucb/Irqs.antt =====
-- The interrupts of ucb1x00-core.c: which handlers run, and how they are hooked and freed.
use jornada.Common.{
  ℕ, suc, ◌+◌, ◌/◌, ◌≡◌, ◌≢◌, ◌<◌, ◌≤◌, Bool, true, false, Option, none, some, List, [], ◌∷◌,
  if◌then◌else◌, ◌==◌, ltb, arith, get_or, set, Bool-cases, inl, inr, refl, length, Option-cases,
  lt→ltb, get_or-set_self, get_or-set_ne, set-set, set-get_or, ◌⊎◌, ap, ◌∙◌, sym,
}
use jornada.Common.Bits.{bit, bit-clear_self, bit-clear_ne}
use jornada.Ucb.Defs.{
  Hook, Call, Ucb, ok, einval, enoent, no_hook, same_device, dispatch, ucb1x00_irq,
  ucb1x00_hook_irq, ucb1x00_free_irq,
}

-- The calls for a status word: every handler whose bit is set, in the order of the bits.
abbrev pub due : ℕ → (ℕ → Bool) → List Hook → List Call
due i pending [] = []
due i pending (h ∷ hs) =
    let rest = due (i + 1) (λ j. pending (suc j)) hs in
    elim h.fn [
      | none ↦ rest
      | some f ↦
          if pending 0 then record { index = i; handler = f; device = h.devid } ∷ rest else rest
    ]

due-none : (i : ℕ) (hs : List Hook) → due i (bit 0) hs ≡ []
due-none i [] = refl
due-none i (h ∷ hs) = elim (Option-cases h.fn) [
  | inl e ↦ rw e (due-none (i + 1) hs)
  | inr (f, e) ↦ rw e (due-none (i + 1) hs)
]

dispatch_lem : (i isr : ℕ) (hs : List Hook) → dispatch i isr hs ≡ due i (bit isr) hs
unfolding dispatch
dispatch_lem i isr [] = refl
dispatch_lem i isr (h ∷ hs) =
    let rest = dispatch_lem (i + 1) (isr / 2) hs in
    elim (Bool-cases (isr == 0)) [
      | inl z ↦
          let isr0 : isr ≡ 0 = ground (arith, z) in
          rw z (sym (due-none i (h ∷ hs)) ∙ ap (λ w. due i (bit w) (h ∷ hs)) (sym isr0))
      | inr z ↦ elim (Option-cases h.fn) [
        | inl e ↦ ground (arith, e, z, rest)
        | inr (f, e) ↦ ground (arith, e, z, rest)
      ]
    ]

-- The loop of the interrupt handler, which ends as soon as no status bit is left, calls what a full
-- walk of the table calls: each handler whose bit is set in the status, once, in the order of the
-- bits, with its index and its device.
pub ucb1x00_irq_lem : (isr : ℕ) (u : Ucb) → (ucb1x00_irq isr u).0 ≡ due 0 (bit isr) u.irq_handler
unfolding ucb1x00_irq
ucb1x00_irq_lem isr u = dispatch_lem 0 isr u.irq_handler

same_device_self : (d : Option ℕ) → same_device d d ≡ true
same_device_self none = refl
same_device_self (some a) = ground arith

-- On a table of 16 handlers, hooking a free slot below 16 and freeing it with the same device both
-- succeed and restore the table, and the interrupt is enabled on neither edge.
free_irq-hook_irq :
    (idx fn : ℕ) (devid : Option ℕ) (u : Ucb)
    → length u.irq_handler ≡ 16
    → idx < 16
    → get_or u.irq_handler idx no_hook ≡ no_hook
    → let (hooked, u') = ucb1x00_hook_irq idx fn devid u in
      let (freed, u'') = ucb1x00_free_irq idx devid u' in
      (hooked ≡ ok)
      × (freed ≡ ok)
      × (u''.irq_handler ≡ u.irq_handler)
      × (bit u''.irq_ris_enbl idx ≡ false)
      × (bit u''.irq_fal_enbl idx ≡ false)
unfolding ucb1x00_hook_irq ucb1x00_free_irq
free_irq-hook_irq idx fn devid u size h free =
    let hook : Hook = record { fn = some fn; devid = devid } in
    let inside = lt→ltb idx 16 h in
    let read = get_or-set_self u.irq_handler idx hook no_hook (omega (arith, h, size)) in
    let back =
      set-set u.irq_handler idx hook no_hook
      ∙ ap (set u.irq_handler idx) (sym free)
      ∙ set-get_or u.irq_handler idx no_hook in
    rw (inside, free, read, same_device_self devid)
      (refl, refl, back, bit-clear_self u.irq_ris_enbl idx, bit-clear_self u.irq_fal_enbl idx)

-- A free answers an error and changes nothing where the index is too high or the device another
-- one; else it leaves the handlers and the enables of the other interrupts as they were.
free_irq_lem :
    (idx j : ℕ) (devid : Option ℕ) (u : Ucb)
    → let (ret, u') = ucb1x00_free_irq idx devid u in
      ((ret ≡ einval) × (16 ≤ idx) × (u' ≡ u))
      ⊎ ((ret ≡ enoent)
          × (same_device (get_or u.irq_handler idx no_hook).devid devid ≡ false)
          × (u' ≡ u))
      ⊎ ((ret ≡ ok)
          × (idx < 16)
          × ((idx ≡ j)
              ⊎ ((get_or u'.irq_handler j no_hook ≡ get_or u.irq_handler j no_hook)
                  × (bit u'.irq_ris_enbl j ≡ bit u.irq_ris_enbl j)
                  × (bit u'.irq_fal_enbl j ≡ bit u.irq_fal_enbl j))))
unfolding ucb1x00_free_irq
free_irq_lem idx j devid u = elim (Bool-cases (ltb idx 16)) [
  | inr e ↦ rw e (inl (refl, ground (arith, e), refl))
  | inl e ↦ elim (Bool-cases (same_device (get_or u.irq_handler idx no_hook).devid devid)) [
    | inr d ↦ rw (e, d) (inr (inl (refl, refl, refl)))
    | inl d ↦
        rw (e, d)
          (inr (
            inr (
              refl,
              ground (arith, e),
              elim (Bool-cases (idx == j)) [
                | inl s ↦ inl (ground (arith, s))
                | inr s ↦
                    let ne : idx ≢ j = ground (arith, s) in
                    inr (
                      get_or-set_ne u.irq_handler no_hook no_hook ne,
                      bit-clear_ne u.irq_ris_enbl idx j ne,
                      bit-clear_ne u.irq_fal_enbl idx j ne,
                    )
              ],
            )))
  ]
]
