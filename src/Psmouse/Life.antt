-- ===== src/Psmouse/Life.antt =====
-- The life of a mouse in psmouse-base.c: connecting, reconnecting and disconnecting a port, with the parent of a
-- pass-through port. What memory and `serio_open` answer are arguments; the calls of `pt_activate` and
-- `pt_deactivate` are functions on the parent's device, which do nothing where the parent has none.
use jornada.Common.{
  ℕ, ◌+◌, ◌-◌, ◌==◌, Bool, true, false, not, Option, none, some, List, [], ◌∷◌, if◌then◌else◌,
  replicate,
}
use jornada.Psmouse.Stream.{
  byte_handler, initializing, cmd_mode, activated, Mouse, psmouse_set_state,
}
use jornada.Psmouse.Packet.{ps2}
use jornada.Psmouse.Command.{
  Cmd, setscale11, setres, setstream, setrate, Props, Answer, Others, psmouse_probe, send,
}
use jornada.Psmouse.Command.{enable, disable}
use jornada.Psmouse.Extensions.{number, psmouse_extensions}
use jornada.Psmouse.Settings.{psmouse_set_rate, psmouse_set_resolution}

-- `struct psmouse` with its device.
pub record Psmouse (Dev : Type 0) : Type 0 where
  pub mouse : Mouse
  pub rate : ℕ
  pub resolution : ℕ
  pub props : Props
  pub dev : Dev

-- A port: how many structures of the driver are allocated for it, its driver's data, whether it is open, whether the input device is registered and the attributes exist,
-- its device, and the parent of a pass-through port.
pub record Port (Dev : Type 0) : Type 0 where
  pub structures : ℕ
  pub drvdata : Option (Psmouse Dev)
  pub is_open : Bool
  pub registered : Bool
  pub attributes : Bool
  pub device : Dev
  pub parent : Option (Psmouse Dev)

-- The parameters of the module.
pub record Defaults : Type 0 where
  pub max_proto : ℕ
  pub default_rate : ℕ
  pub default_resolution : ℕ
  pub default_resetafter : ℕ

abbrev pub no_props : Props
no_props = record {
  vendor = none;
  name = none;
  pktsize = 3;
  has_side = false;
  has_extra = false;
  has_wheel = false;
  protocol_handler = byte_handler;
}

-- `psmouse->packet` has 8 bytes.
abbrev pub cleared : Mouse
cleared = record {
  state = initializing;
  type = ps2;
  pktsize = 3;
  pktcnt = 0;
  packet = replicate 8 0;
  out_of_sync = 0;
  resetafter = 0;
  expecting = false;
}

-- The structure after the `memset`, in PSMOUSE_INITIALIZING.
abbrev pub blank : {Dev : Type 0} → Dev → Psmouse Dev
blank dev = record {
  mouse = record cleared { pktsize = 0 };
  rate = 0;
  resolution = 0;
  props = record no_props { pktsize = 0 };
  dev = dev;
}

-- The steps of a connect and of a disconnect, each on the port that the ones before it left.
module _ {Dev : Type 0} where
  abbrev pub kmalloc : Port Dev → Port Dev
  kmalloc p = record p { structures = p.structures + 1 }

  abbrev pub kfree : Port Dev → Port Dev
  kfree p = record p { structures = p.structures - 1 }

  abbrev pub serio_set_drvdata : Option (Psmouse Dev) → Port Dev → Port Dev
  serio_set_drvdata m p = record p { drvdata = m }

  -- `ret` is its answer; the port is open where that is 0.
  abbrev pub serio_open : (ret : ℕ) → Port Dev → Port Dev
  serio_open ret p = if ret == 0 then record p { is_open = true } else p

  abbrev pub serio_close : Port Dev → Port Dev
  serio_close p = record p { is_open = false }

  abbrev pub input_register_device : Port Dev → Port Dev
  input_register_device p = record p { registered = true }

  abbrev pub input_unregister_device : Port Dev → Port Dev
  input_unregister_device p = record p { registered = false }

  abbrev pub device_create_file : Port Dev → Port Dev
  device_create_file p = record p { attributes = true }

  abbrev pub device_remove_file : Port Dev → Port Dev
  device_remove_file p = record p { attributes = false }

module _ {Dev : Type 0} (ps2_command : Dev → Cmd → List ℕ → Answer Dev) (others : Others Dev)
    (pt_activate pt_deactivate : Dev → Dev) where
  unfoldable pub psmouse_initialize : ℕ → Psmouse Dev → Psmouse Dev
  psmouse_initialize max_proto m =
      let streaming = send ps2_command m.dev setstream [] in
      let rate = psmouse_set_rate m.rate in
      let (resolution, byte) = psmouse_set_resolution m.resolution in
      let rated = send ps2_command streaming setrate (rate ∷ []) in
      let resolved = send ps2_command rated setres (byte ∷ []) in
      if not (max_proto == number ps2)
      then record m {
        rate = rate;
        resolution = resolution;
        dev = send ps2_command resolved setscale11 [];
      }
      else record m { dev = streaming }

  abbrev pub psmouse_activate : Psmouse Dev → Psmouse Dev
  psmouse_activate m = record m {
    dev = send ps2_command m.dev enable [];
    mouse = psmouse_set_state m.mouse activated;
  }

  abbrev pub psmouse_deactivate : Psmouse Dev → Psmouse Dev
  psmouse_deactivate m = record m {
    dev = send ps2_command m.dev disable [];
    mouse = psmouse_set_state m.mouse cmd_mode;
  }

  abbrev pub on_parent : (Psmouse Dev → Psmouse Dev) → Port Dev → Port Dev
  on_parent f p = record p { parent = elim p.parent [ none ↦ none | some m ↦ some (f m) ] }

  abbrev pub parent_pt : (Dev → Dev) → Psmouse Dev → Psmouse Dev
  parent_pt f m = record m { dev = f m.dev }

  -- From "psmouse->rate = psmouse_rate" to the activation, with the device that the probe left.
  unfoldable pub set_up : Defaults → Dev → Psmouse Dev
  set_up k dev =
      let e = psmouse_extensions ps2_command others true k.max_proto no_props dev in
      let mouse : Mouse = record cleared {
        type = e.proto;
        pktsize = e.props.pktsize;
        resetafter = k.default_resetafter;
      } in
      let m : Psmouse Dev = record {
        mouse = psmouse_set_state mouse cmd_mode;
        rate = k.default_rate;
        resolution = k.default_resolution;
        props = e.props;
        dev = e.dev;
      } in
      psmouse_activate (psmouse_initialize k.max_proto m)

  -- The two error paths after the structure is there.
  abbrev pub not_opened : Port Dev → Port Dev
  not_opened p = kfree (serio_set_drvdata none p)

  abbrev pub not_found : Port Dev → Port Dev
  not_found p = kfree (serio_set_drvdata none (serio_close p))

  -- From "psmouse->rate = psmouse_rate" on, for the device that the probe left.
  abbrev pub completed : Defaults → Dev → Port Dev → Port Dev
  completed k dev p = device_create_file (
      on_parent (parent_pt pt_activate)
        (input_register_device (serio_set_drvdata (some (set_up k dev)) p)))

  -- `enomem` and `enodev` are the errors; the answer is 0 for success.
  unfoldable pub psmouse_connect : ℕ → ℕ → Defaults → Bool → ℕ → Port Dev → ℕ × Port Dev
  psmouse_connect enomem enodev k got_memory open_ret port =
      let p = on_parent psmouse_deactivate port in
      let p₁ = serio_set_drvdata (some (blank p.device)) (kmalloc p) in
      let p₂ = serio_open open_ret p₁ in
      let (found, dev) = psmouse_probe ps2_command p₂.device in
      let p₃ = record p₂ { device = dev } in
      let (ret, end) : ℕ × Port Dev =
        if not got_memory
        then (enomem, p)
        else if not (open_ret == 0)
        then (open_ret, not_opened p₂)
        else if not found
        then (enodev, not_found p₃)
        else (0, completed k dev p₃) in
      (ret, on_parent psmouse_activate end)

  -- The part of a reconnect after the parent was deactivated, for a mouse whose protocol has no reconnect of its own:
  -- whether the mouse is the one that was there, and the mouse.
  unfoldable pub reconnected : Defaults → Psmouse Dev → Bool × Psmouse Dev
  reconnected k m =
      let starting = psmouse_set_state m.mouse initializing in
      let (found, dev) = psmouse_probe ps2_command m.dev in
      let e = psmouse_extensions ps2_command others false k.max_proto m.props dev in
      let ready = record m {
        mouse = psmouse_set_state starting cmd_mode;
        dev = e.dev;
        props = e.props;
      } in
      if not found
      then (false, record m { mouse = starting; dev = dev })
      else if not (number m.mouse.type == number e.proto)
      then (false, record m { mouse = starting; dev = e.dev; props = e.props })
      else (true, psmouse_activate (psmouse_initialize k.max_proto ready))

  -- The answer is false for -1.
  unfoldable pub psmouse_reconnect : Defaults → Port Dev → Bool × Port Dev
  psmouse_reconnect k port =
      let p = on_parent psmouse_deactivate port in
      elim port.drvdata [
        | none ↦ (false, port)
        | some m ↦
            let r = reconnected k m in
            let p' = record p { drvdata = some r.1 } in
            (
              r.0,
              on_parent psmouse_activate (if r.0 then on_parent (parent_pt pt_activate) p' else p'),
            )
      ]

  unfoldable pub psmouse_disconnect : Port Dev → Port Dev
  psmouse_disconnect p = kfree (
      serio_set_drvdata none (
        serio_close
          (input_unregister_device (on_parent (parent_pt pt_deactivate) (device_remove_file p)))))
