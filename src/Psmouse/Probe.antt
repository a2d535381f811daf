-- ===== src/Psmouse/Probe.antt =====
-- What the commands of psmouse-base.c carry, and which answers they accept.
use jornada.Common.{
  ℕ, ◌+◌, ◌*◌, ◌/◌, ◌%◌, ◌<◌, ◌≡◌, ◌↔◌, ◌⊎◌, true, false, List, [], ◌∷◌, if◌then◌else◌, get_or,
  arith,
}
use jornada.Psmouse.Command.{
  Cmd, setscale11, setres, reset_bat, getid, reset_dis, Answer, send_slices, psmouse_sliced_command,
  psmouse_reset, psmouse_probe,
}

module _ {Dev : Type 0} (ps2_command : Dev → Cmd → List ℕ → Answer Dev) where
  abbrev pub after : Dev → Cmd → List ℕ → Dev
  after dev c ps = (ps2_command dev c ps).dev

  -- A sliced command of one byte to a device that accepts every command sends the scale and then
  -- four resolutions of two bits each, most significant first, which make up that byte.
  pub psmouse_sliced_command_lem :
      (command : ℕ) (dev : Dev)
      → command < 256
      → ((d : Dev) (c : Cmd) (ps : List ℕ) → (ps2_command d c ps).ok ≡ true)
      → (r s t u : ℕ) × (psmouse_sliced_command ps2_command command dev ≡ (
        true,
        after
            (after
              (after (after (after dev setscale11 []) setres (r ∷ [])) setres (s ∷ []))
              setres
              (t ∷ []))
            setres
            (u ∷ []),
      ))
        × (r < 4)
        × (s < 4)
        × (t < 4)
        × (u < 4)
        × (r * 64 + s * 16 + t * 4 + u ≡ command)
  unfolding psmouse_sliced_command send_slices
  psmouse_sliced_command_lem command dev lt ok = (
    command / 64 % 4,
    command / 16 % 4,
    command / 4 % 4,
    command / 1 % 4,
    simp ok,
    omega arith,
    omega arith,
    omega arith,
    omega arith,
    omega arith,
  )

  -- A sliced command that the device does not accept fails, and the slices stop there.
  pub psmouse_sliced_command-fails :
      (command : ℕ) (dev : Dev)
      → (ps2_command dev setscale11 []).ok ≡ false
      → psmouse_sliced_command ps2_command command dev ≡ (false, after dev setscale11 [])
  unfolding psmouse_sliced_command
  psmouse_sliced_command-fails command dev e = rw e

  -- The probe succeeds exactly when the identity is answered and is one of the five known ones; in
  -- that case a reset with disabling is sent after it, and otherwise nothing more.
  pub psmouse_probe_lem :
      (dev : Dev)
      → let a = ps2_command dev getid (0xa5 ∷ 0 ∷ []) in
        let id = get_or a.params 0 0 in
        let r = psmouse_probe ps2_command dev in
        ((r.0 ≡ true)
          ↔ ((a.ok ≡ true) × ((id ≡ 0x00) ⊎ (id ≡ 0x03) ⊎ (id ≡ 0x04) ⊎ (id ≡ 0xff) ⊎ (id ≡ 0x0d))))
        × (r.1 ≡ (if r.0 then after a.dev reset_dis [] else a.dev))
  unfolding psmouse_probe
  psmouse_probe_lem dev = ((λ h. ground arith, λ h. ground arith), ground arith)

  -- A reset of the mouse is taken for successful exactly when it is answered and one of the two
  -- bytes of the answer is right, the other one may be wrong.
  pub psmouse_reset_lem :
      (dev : Dev)
      → let a = ps2_command dev reset_bat (0 ∷ 0 ∷ []) in
        ((psmouse_reset ps2_command dev).0 ≡ true)
        ↔ ((a.ok ≡ true) × ((get_or a.params 0 0 ≡ 0xaa) ⊎ (get_or a.params 1 0 ≡ 0x00)))
  unfolding psmouse_reset
  psmouse_reset_lem dev = (λ h. ground arith, λ h. ground arith)
