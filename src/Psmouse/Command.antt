-- ===== src/Psmouse/Command.antt =====
-- The commands that psmouse-base.c sends: the sliced command, reset, the probe and the detection of
-- protocol extensions. `ps2_command` is in libps2, which is not in the repository: it is a parameter
-- that takes the device, the command and the parameter bytes, and gives back whether it succeeded, the
-- parameter bytes with any reply, and the device. The Synaptics, ALPS and PS2++ drivers are parameters
-- too.
use jornada.Common.{
  ℕ, ◌/◌, ◌%◌, ◌^◌, Bool, true, false, not, ◌&&◌, ◌||◌, List, [], ◌∷◌, if◌then◌else◌, ◌==◌, get_or,
  Option, none, some,
}
use jornada.Psmouse.Stream.{Handler, ret_bat, ret_id}

pub data Cmd : Type 0 where
  setscale11 setres getinfo setstream getid setrate enable disable reset_dis reset_bat : Cmd

-- The strings that `vendor` and `name` point to.
pub data Vendor : Type 0 where
  genius generic kensington : Vendor

pub data Name : Type 0 where
  wheel_mouse explorer_mouse thinking_mouse mouse : Name

-- The fields of `struct psmouse` that detection sets: the drivers of the extensions may replace the handler of the bytes.
pub record Props : Type 0 where
  pub vendor : Option Vendor
  pub name : Option Name
  pub pktsize : ℕ
  pub has_side : Bool
  pub has_extra : Bool
  pub has_wheel : Bool
  pub protocol_handler : Handler

abbrev pub or_else {ℓ} : {A : Type ℓ} → Option A → A → Option A
or_else none a = some a
or_else (some b) _ = some b

pub record Answer (Dev : Type 0) : Type 0 where
  pub ok : Bool
  pub params : List ℕ
  pub dev : Dev

-- Nothing was found: a plain mouse. Always succeeds.
unfoldable pub ps2bare_detect : Props → Props
ps2bare_detect p = record p { vendor = or_else p.vendor generic; name = or_else p.name mouse }

-- Whether a detection found its device, the properties it set, and the device after it.
pub record Found (Dev : Type 0) : Type 0 where
  pub found : Bool
  pub props : Props
  pub dev : Dev

-- The drivers of the other extensions, as `psmouse_extensions` calls them.
pub record Others (Dev : Type 0) : Type 0 where
  pub synaptics_detect : Bool → Props → Dev → Found Dev
  pub synaptics_init : Props → Dev → Found Dev
  pub synaptics_reset : Dev → Dev
  pub alps_detect : Bool → Props → Dev → Found Dev
  pub alps_init : Props → Dev → Found Dev
  pub ps2pp_init : Bool → Props → Dev → Found Dev

module _ {Dev : Type 0} (ps2_command : Dev → Cmd → List ℕ → Answer Dev) where
  -- `rr`, `ss`, `tt` and `uu` of the comment: the bits of the command from `i` on.
  abbrev pub slice : ℕ → ℕ → ℕ
  slice command i = command / 2 ^ i % 4

  -- The loop over the shifts that are left.
  unfoldable pub send_slices : ℕ → List ℕ → Dev → Bool × Dev
  send_slices command [] dev = (true, dev)
  send_slices command (i ∷ is) dev =
      let a = ps2_command dev setres (slice command i ∷ []) in
      let rest = send_slices command is a.dev in if a.ok then rest else (false, a.dev)

  unfoldable pub psmouse_sliced_command : ℕ → Dev → Bool × Dev
  unfolding send_slices
  psmouse_sliced_command command dev =
      let a = ps2_command dev setscale11 [] in
      if a.ok then send_slices command (6 ∷ 4 ∷ 2 ∷ 0 ∷ []) a.dev else (false, a.dev)

  unfoldable pub psmouse_reset : Dev → Bool × Dev
  psmouse_reset dev =
      let a = ps2_command dev reset_bat (0 ∷ 0 ∷ []) in
      (
        a.ok && not (not (get_or a.params 0 0 == ret_bat) && not (get_or a.params 1 0 == ret_id)),
        a.dev,
      )

  -- The identities that the probe accepts; 0x0d is the trackpad of the Jornada 820.
  abbrev pub known_id : ℕ → Bool
  known_id i = i == 0x00 || i == 0x03 || i == 0x04 || i == 0xff || i == 0x0d

  unfoldable pub psmouse_probe : Dev → Bool × Dev
  psmouse_probe dev =
      let a = ps2_command dev getid (0xa5 ∷ 0 ∷ []) in
      if not a.ok
      then (false, a.dev)
      else if known_id (get_or a.params 0 0)
      then (true, (ps2_command a.dev reset_dis []).dev)
      else (false, a.dev)

  -- Commands whose answers are not looked at.
  abbrev pub send : Dev → Cmd → List ℕ → Dev
  send dev c params = (ps2_command dev c params).dev

  abbrev pub send_rates : Dev → List ℕ → Dev
  send_rates dev [] = dev
  send_rates dev (r ∷ rs) = send_rates (send dev setrate (r ∷ [])) rs

  unfoldable pub genius_detect : Bool → Props → Dev → Found Dev
  genius_detect set_properties p dev =
      let d1 = send dev setres (3 ∷ 0 ∷ 0 ∷ 0 ∷ []) in
      let d2 = send (send (send d1 setscale11 []) setscale11 []) setscale11 [] in
      let a = ps2_command d2 getinfo (3 ∷ 0 ∷ 0 ∷ 0 ∷ []) in
      let hit =
        get_or a.params 0 0 == 0x00 && get_or a.params 1 0 == 0x33 && get_or a.params 2 0 == 0x55 in
      let p' = record p {
        vendor = some genius;
        name = some wheel_mouse;
        pktsize = 4;
        has_side = true;
        has_extra = true;
        has_wheel = true;
      } in
      record { found = hit; props = if hit && set_properties then p' else p; dev = a.dev }

  unfoldable pub intellimouse_detect : Bool → Props → Dev → Found Dev
  intellimouse_detect set_properties p dev =
      let a = ps2_command (send_rates dev (200 ∷ 100 ∷ 80 ∷ [])) getid (80 ∷ 0 ∷ []) in
      let hit = get_or a.params 0 0 == 3 in
      let p' = record p {
        vendor = or_else p.vendor generic;
        name = or_else p.name wheel_mouse;
        pktsize = 4;
        has_wheel = true;
      } in
      record { found = hit; props = if hit && set_properties then p' else p; dev = a.dev }

  unfoldable pub im_explorer_detect : Bool → Props → Dev → Found Dev
  im_explorer_detect set_properties p dev =
      let d = (intellimouse_detect false p dev).dev in
      let a = ps2_command (send_rates d (200 ∷ 200 ∷ 80 ∷ [])) getid (80 ∷ 0 ∷ []) in
      let hit = get_or a.params 0 0 == 4 in
      let p' = record p {
        vendor = or_else p.vendor generic;
        name = or_else p.name explorer_mouse;
        pktsize = 4;
        has_side = true;
        has_extra = true;
        has_wheel = true;
      } in
      record { found = hit; props = if hit && set_properties then p' else p; dev = a.dev }

  unfoldable pub thinking_detect : Bool → Props → Dev → Found Dev
  thinking_detect set_properties p dev =
      let d1 = send (send dev setrate (10 ∷ 0 ∷ [])) setres (0 ∷ 0 ∷ []) in
      let d2 = send_rates d1 (20 ∷ 60 ∷ 40 ∷ 20 ∷ 20 ∷ 60 ∷ 40 ∷ 20 ∷ 20 ∷ []) in
      let a = ps2_command d2 getid (0 ∷ 0 ∷ []) in
      let hit = get_or a.params 0 0 == 2 in
      let p' = record p {
        vendor = some kensington;
        name = some thinking_mouse;
        has_extra = true;
      } in
      record { found = hit; props = if hit && set_properties then p' else p; dev = a.dev }
