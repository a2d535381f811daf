-- ===== src/Psmouse/Extensions.antt =====
-- `psmouse_extensions` of psmouse-base.c: the order in which the protocols are tried.
use jornada.Common.{
  ℕ, ◌≤◌, ◌<◌, ◌⊎◌, inr, Bool, true, false, not, List, [], if◌then◌else◌, ltb, arith, max,
}
use jornada.Psmouse.Packet.{Protocol, ps2, ps2pp, thinkps, genps, imps, imex, synaptics, alps}
use jornada.Psmouse.Command.{
  Cmd, reset_dis, Props, Answer, Found, Others, psmouse_reset, genius_detect, intellimouse_detect,
  im_explorer_detect, thinking_detect, ps2bare_detect,
}

-- The protocols' numbers, from the order of `psmouse_protocols`.
unfoldable pub number : Protocol → ℕ
number ps2 = 1
number ps2pp = 2
number thinkps = 3
number genps = 4
number imps = 5
number imex = 6
number synaptics = 7
number alps = 8

pub record Detected (Dev : Type 0) : Type 0 where
  pub proto : Protocol
  pub props : Props
  pub dev : Dev

module _ {Dev : Type 0} (ps2_command : Dev → Cmd → List ℕ → Answer Dev) (others : Others Dev) where
  open others use {
    synaptics_detect, synaptics_init, synaptics_reset, alps_detect, alps_init, ps2pp_init,
  }

  abbrev pub as_proto : Protocol → Found Dev → Detected Dev
  as_proto proto f = record { proto = proto; props = f.props; dev = f.dev }

  abbrev pub reset_disable : Dev → Dev
  reset_disable dev = (ps2_command dev reset_dis []).dev

  -- From "Okay, all failed": a standard mouse.
  unfoldable pub try_bare : Bool → Props → Dev → Detected Dev
  try_bare hardware p dev =
      let dev' = if hardware then reset_disable (psmouse_reset ps2_command dev).1 else dev in
      record { proto = ps2; props = ps2bare_detect p; dev = dev' }

  -- From "Reset to defaults".
  unfoldable pub try_imps : Bool → Bool → ℕ → Props → Dev → Detected Dev
  try_imps set_properties hardware max_proto p dev =
      let i = intellimouse_detect ps2_command set_properties p dev in
      if ltb max_proto 5
      then try_bare hardware p dev
      else if i.found
      then as_proto imps i
      else try_bare hardware i.props i.dev

  unfoldable pub try_imex : Bool → Bool → ℕ → Props → Dev → Detected Dev
  try_imex set_properties hardware max_proto p dev0 =
      let dev = reset_disable dev0 in
      let e = im_explorer_detect ps2_command set_properties p dev in
      if ltb max_proto 6
      then try_imps set_properties hardware max_proto p dev
      else if e.found
      then as_proto imex e
      else try_imps set_properties hardware max_proto e.props e.dev

  unfoldable pub try_ps2pp : Bool → Bool → ℕ → Props → Dev → Detected Dev
  try_ps2pp set_properties hardware max_proto p dev =
      let g = genius_detect ps2_command set_properties p dev in
      let l = ps2pp_init set_properties g.props g.dev in
      if ltb 6 max_proto
      then (if g.found
          then as_proto genps g
          else if l.found
          then as_proto ps2pp l
          else try_imex set_properties hardware max_proto l.props l.dev)
      else try_imex set_properties hardware max_proto p dev

  unfoldable pub try_alps : Bool → Bool → ℕ → Props → Dev → Detected Dev
  try_alps set_properties hardware max_proto p dev =
      let a = alps_detect set_properties p (reset_disable dev) in
      let i = alps_init a.props a.dev in
      if ltb 6 max_proto
      then (if a.found
          then (if not set_properties
              then as_proto alps a
              else if i.found
              then as_proto alps i
              else try_ps2pp set_properties hardware 6 i.props i.dev)
          else try_ps2pp set_properties hardware max_proto a.props a.dev)
      else try_ps2pp set_properties hardware max_proto p dev

  unfoldable pub try_synaptics : Bool → ℕ → Props → Dev → Detected Dev
  try_synaptics set_properties max_proto p dev =
      let s = synaptics_detect set_properties p dev in
      let i = synaptics_init s.props s.dev in
      if ltb 1 max_proto
      then (if s.found
          then (if ltb 6 max_proto
              then (if not set_properties
                  then as_proto synaptics s
                  else if i.found
                  then as_proto synaptics i
                  else try_alps set_properties true 6 i.props (synaptics_reset i.dev))
              else try_alps set_properties true max_proto s.props (synaptics_reset s.dev))
          else try_alps set_properties false max_proto s.props s.dev)
      else try_alps set_properties false max_proto p dev

  unfoldable pub psmouse_extensions : Bool → ℕ → Props → Dev → Detected Dev
  psmouse_extensions set_properties max_proto p dev =
      let t = thinking_detect ps2_command set_properties p dev in
      if ltb 6 max_proto
      then (if t.found
          then as_proto thinkps t
          else try_synaptics set_properties max_proto t.props t.dev)
      else try_synaptics set_properties max_proto p dev

  -- What a limit on the protocol admits: a limit above 6 is none.
  abbrev pub Allowed : ℕ → Protocol → Type 0
  Allowed max_proto r = (6 < max_proto) ⊎ (number r ≤ max max_proto 1)

  bare-Allowed : (h : Bool) (m : ℕ) (p : Props) (d : Dev) → Allowed m (try_bare h p d).proto
  unfolding try_bare number
  bare-Allowed h m p d = inr (omega arith)

  imps-Allowed : (s h : Bool) (m : ℕ) (p : Props) (d : Dev) → Allowed m (try_imps s h m p d).proto
  unfolding try_imps number
  imps-Allowed s h m p d =
      let i : Found Dev = intellimouse_detect ps2_command s p d in
      ground (arith, bare-Allowed h m p d, bare-Allowed h m i.props i.dev)

  imex-Allowed : (s h : Bool) (m : ℕ) (p : Props) (d : Dev) → Allowed m (try_imex s h m p d).proto
  unfolding try_imex number
  imex-Allowed s h m p d =
      let d' : Dev = reset_disable d in
      let e : Found Dev = im_explorer_detect ps2_command s p d' in
      ground (arith, imps-Allowed s h m p d', imps-Allowed s h m e.props e.dev)

  ps2pp-Allowed : (s h : Bool) (m : ℕ) (p : Props) (d : Dev) → Allowed m (try_ps2pp s h m p d).proto
  unfolding try_ps2pp number
  ps2pp-Allowed s h m p d = ground (arith, imex-Allowed s h m p d)

  alps-Allowed : (s h : Bool) (m : ℕ) (p : Props) (d : Dev) → Allowed m (try_alps s h m p d).proto
  unfolding try_alps number
  alps-Allowed s h m p d = ground (arith, ps2pp-Allowed s h m p d)

  synaptics-Allowed :
      (s : Bool) (m : ℕ) (p : Props) (d : Dev) → Allowed m (try_synaptics s m p d).proto
  unfolding try_synaptics number
  synaptics-Allowed s m p d =
      let f : Found Dev = synaptics_detect s p d in
      ground (
        arith,
        alps-Allowed s false m p d,
        alps-Allowed s false m f.props f.dev,
        alps-Allowed s true m f.props (synaptics_reset f.dev),
      )

  -- A limit on the protocol, up to the number of the Explorer mouse, is kept whatever the devices
  -- answer; a plain mouse is found at least.
  pub psmouse_extensions-le :
      (set_properties : Bool) (max_proto : ℕ) (p : Props) (dev : Dev)
      → max_proto ≤ 6
      → number (psmouse_extensions set_properties max_proto p dev).proto ≤ max max_proto 1
  unfolding psmouse_extensions
  psmouse_extensions-le s m p d le = ground (arith, synaptics-Allowed s m p d)
