-- ===== src/Psmouse/Connect.antt =====
-- What holds after a mouse of psmouse-base.c was connected, reconnected or disconnected.
use jornada.Common.{
  ℕ, ◌+◌, ◌≡◌, ◌≢◌, ◌⊎◌, Bool, true, false, Option, none, some, List, [], ◌∷◌, arith, refl, inl,
  inr, Bool-cases, Option-cases, ◌==◌, ◌&&◌, ap,
}
use jornada.Psmouse.Stream.{
  initializing, cmd_mode, activated, Mouse, Input, Handler, psmouse_interrupt, run,
  psmouse_set_state,
}
use jornada.Psmouse.Packet.{ps2}
use jornada.Psmouse.Command.{Cmd, Answer, Others, psmouse_probe}
use jornada.Psmouse.Extensions.{number, psmouse_extensions}
use jornada.Psmouse.Life.{
  Psmouse, Port, Defaults, set_up, psmouse_connect, psmouse_reconnect, reconnected,
  psmouse_disconnect, psmouse_initialize, on_parent, psmouse_activate, psmouse_deactivate,
  parent_pt, blank, kmalloc, serio_set_drvdata, not_opened, not_found, completed,
}

-- Nothing is held.
abbrev pub IsFree : {Dev : Type 0} → Port Dev → Type 0
IsFree p =
    (p.drvdata ≡ none) × (p.is_open ≡ false) × (p.registered ≡ false) × (p.attributes ≡ false)

-- A mouse that reports its packets, and has no byte of one yet.
abbrev pub IsActive : {Dev : Type 0} → Psmouse Dev → Type 0
IsActive m = (m.mouse.state ≡ activated) × (m.mouse.pktcnt ≡ 0)

-- A parent that is there reports its packets.
abbrev pub IsReporting : {Dev : Type 0} → Option (Psmouse Dev) → Type 0
IsReporting {Dev} parent = (parent ≡ none) ⊎ ((m : Psmouse Dev) × (parent ≡ some m) × IsActive m)

module _ {Dev : Type 0} (ps2_command : Dev → Cmd → List ℕ → Answer Dev) (others : Others Dev)
    (pt_activate pt_deactivate : Dev → Dev) where
  -- The end of both functions, where the parent is activated.
  activated-IsReporting :
      (p : Port Dev)
      → IsReporting
          (on_parent ps2_command others pt_activate pt_deactivate
            (psmouse_activate ps2_command others pt_activate pt_deactivate)
            p).parent
  unfolding psmouse_set_state
  activated-IsReporting p = elim (Option-cases p.parent) [
    | inl e ↦ rw e (inl refl)
    | inr (m, e) ↦ rw e (inr (_, refl, (refl, refl)))
  ]

  -- When nothing is held for a port, with error codes that are not 0: a connect that fails,
  -- whichever step fails, leaves nothing held, neither the driver data nor the open port, and gives
  -- back the memory of its structure; one that succeeds has opened the port, holds one structure
  -- more and has an active mouse with no byte of a packet, and a disconnect gives all of that back.
  -- Either way the parent of a pass-through port is active at the end.
  pub psmouse_connect_lem :
      (enomem enodev : ℕ) (k : Defaults) (got_memory : Bool) (open_ret : ℕ) (p : Port Dev)
      → enomem ≢ 0
      → enodev ≢ 0
      → IsFree p
      → let (ret, p') =
          psmouse_connect ps2_command others pt_activate pt_deactivate enomem enodev k got_memory
            open_ret p in
        let p'' = psmouse_disconnect ps2_command others pt_activate pt_deactivate p' in
        (((ret ≢ 0) × IsFree p' × (p'.structures ≡ p.structures))
          ⊎ ((ret ≡ 0)
              × ((m : Psmouse Dev) × (p'.drvdata ≡ some m) × IsActive m)
              × (p'.is_open ≡ true)
              × (p'.structures ≡ p.structures + 1)
              × IsFree p''
              × (p''.structures ≡ p.structures)))
        × IsReporting p'.parent
  unfolding psmouse_connect psmouse_disconnect set_up psmouse_set_state
  psmouse_connect_lem enomem enodev k got open_ret p hm hd free =
      let p₁ : Port Dev =
        on_parent ps2_command others pt_activate pt_deactivate
          (psmouse_deactivate ps2_command others pt_activate pt_deactivate) p in
      let p₂ : Port Dev = serio_set_drvdata (some (blank p₁.device)) (kmalloc p₁) in
      let p₃ : Port Dev = record p₂ { is_open = true } in
      let found = psmouse_probe ps2_command p₁.device in
      let p₄ : Port Dev = record p₃ { device = found.1 } in
      let m = set_up ps2_command others pt_activate pt_deactivate k found.1 in
      elim (Bool-cases got) [
        | inr e ↦ rw e (inl (hm, free, refl), activated-IsReporting p₁)
        | inl e ↦ elim (Bool-cases (open_ret == 0)) [
          | inr o ↦
              rw (e, o)
                (
                  inl (ground (arith, o), (refl, free.1, free.2, free.3), omega arith),
                  activated-IsReporting
                      (not_opened ps2_command others pt_activate pt_deactivate p₂),
                )
          | inl o ↦ elim (Bool-cases found.0) [
            | inr f ↦
                rw (e, o, f)
                  (
                    inl (hd, (refl, refl, free.2, free.3), omega arith),
                    activated-IsReporting
                        (not_found ps2_command others pt_activate pt_deactivate p₄),
                  )
            | inl f ↦
                rw (e, o, f)
                  (
                    inr (
                      refl,
                      (m, refl, (refl, refl)),
                      refl,
                      refl,
                      (refl, refl, refl, refl),
                      omega arith,
                    ),
                    activated-IsReporting
                        (completed ps2_command others pt_activate pt_deactivate k found.1 p₄),
                  )
          ]
        ]
      ]

  silent_step :
      (h : Handler) (m : Mouse) (i : Input)
      → m.state ≡ initializing
      → let (m', e) = psmouse_interrupt h m i in (m' ≡ m) × (e.reported ≡ [])
  unfolding psmouse_interrupt
  silent_step h m i e = elim (Bool-cases i.damaged) [
    | inl d ↦ rw (e, d) (refl, refl)
    | inr d ↦ elim (Bool-cases (m.expecting && i.taken)) [
      | inl t ↦ rw (e, d, t) (refl, refl)
      | inr t ↦ rw (e, d, t) (refl, refl)
    ]
  ]

  -- A mouse that is being initialised reports nothing and does not change.
  silent :
      (h : Handler) (m : Mouse) (is : List Input) → m.state ≡ initializing → run h m is ≡ (m, [])
  unfolding run psmouse_interrupt
  silent h m [] e = refl
  silent h m (i ∷ is) e =
      let (same, quiet) = silent_step h m i e in rw (same, quiet, silent h m is e) refl

  -- The commands leave the state of the driver.
  pub initialize-keeps :
      (max_proto : ℕ) (m : Psmouse Dev)
      → (psmouse_initialize ps2_command others pt_activate pt_deactivate max_proto m).mouse
        ≡ m.mouse
  unfolding psmouse_initialize
  initialize-keeps max_proto m = elim (Bool-cases (max_proto == number ps2)) [
    | inl e ↦ rw e refl
    | inr e ↦ rw e refl
  ]

  -- Whether the mouse is active after the reconnect, or still being initialised.
  reconnected_lem :
      (k : Defaults) (m : Psmouse Dev)
      → let (good, m') = reconnected ps2_command others pt_activate pt_deactivate k m in
        ((good ≡ true)
          × (m'.mouse.state ≡ activated)
          × (m'.mouse.pktcnt ≡ 0)
          × (m'.mouse.type ≡ m.mouse.type))
        ⊎ ((good ≡ false) × (m'.mouse.state ≡ initializing))
  unfolding reconnected psmouse_set_state
  reconnected_lem k m =
      let starting = psmouse_set_state m.mouse initializing in
      let found = psmouse_probe ps2_command m.dev in
      let d = psmouse_extensions ps2_command others false k.max_proto m.props found.1 in
      let ready : Psmouse Dev = record m {
        mouse = psmouse_set_state starting cmd_mode;
        dev = d.dev;
        props = d.props;
      } in
      elim (Bool-cases found.0) [
        | inr f ↦ rw f (inr (refl, refl))
        | inl f ↦ elim (Bool-cases (number m.mouse.type == number d.proto)) [
          | inr t ↦ rw (f, t) (inr (refl, refl))
          | inl t ↦
              rw (f, t)
                (inl (
                  refl,
                  refl,
                  refl,
                  ap (λ (x : Mouse). x.type) (initialize-keeps k.max_proto ready),
                ))
        ]
      ]

  -- A reconnect of a port with a mouse, whose protocol has no reconnect of its own, either succeeds
  -- with the mouse active, without a byte of a packet and of the type that it had; or it fails and
  -- the mouse, whatever bytes arrive, does not change and reports nothing. Either way the parent of
  -- a pass-through port is active at the end.
  pub psmouse_reconnect_lem :
      (k : Defaults) (p : Port Dev) (m : Psmouse Dev) (h : Handler) (is : List Input)
      → p.drvdata ≡ some m
      → let (good, p') = psmouse_reconnect ps2_command others pt_activate pt_deactivate k p in
        ((m' : Psmouse Dev) × (p'.drvdata ≡ some m')
          × (((good ≡ true) × IsActive m' × (m'.mouse.type ≡ m.mouse.type))
              ⊎ ((good ≡ false) × (run h m'.mouse is ≡ (m'.mouse, [])))))
        × IsReporting p'.parent
  unfolding psmouse_reconnect reconnected psmouse_set_state
  psmouse_reconnect_lem k p m h is e =
      let p₁ : Port Dev =
        on_parent ps2_command others pt_activate pt_deactivate
          (psmouse_deactivate ps2_command others pt_activate pt_deactivate) p in
      let r = reconnected ps2_command others pt_activate pt_deactivate k m in
      let p₂ : Port Dev = record p₁ { drvdata = some r.1 } in
      let passed : Port Dev =
        on_parent ps2_command others pt_activate pt_deactivate
          (parent_pt ps2_command others pt_activate pt_deactivate pt_activate) p₂ in
      elim (reconnected_lem k m) [
        | inl (g, active, empty, same) ↦
            rw (e, g) ((r.1, refl, inl (refl, (active, empty), same)), activated-IsReporting passed)
        | inr (g, starting) ↦
            rw (e, g)
              ((r.1, refl, inr (refl, silent h r.1.mouse is starting)), activated-IsReporting p₂)
      ]
