-- ===== src/Psmouse/Tests.antt =====
-- Runs of psmouse-base.c: packets of a plain mouse, and a device that accepts every command.
use jornada.Common.{
  ℕ, ◌+◌, ◌≡◌, ◌⊎◌, true, false, none, some, refl, ◌≢◌, List, [], ◌∷◌, arith, leb, if◌then◌else◌,
}
use jornada.Common.Int.{pos, negsuc}
use jornada.Psmouse.Stream.{Handler, byte_handler, run}
use jornada.Psmouse.Packet.{good_data, full_packet}
use jornada.Psmouse.Invariant.{gathered, Sample, InRange, encode, decoded, run-encode}
use jornada.Psmouse.Command.{Cmd, Props, Answer, Found, Others}
use jornada.Psmouse.Life.{
  Psmouse, Port, Defaults, set_up, psmouse_connect, psmouse_reconnect, psmouse_disconnect,
}
use jornada.Psmouse.Connect.{
  IsFree, IsActive, IsReporting, psmouse_connect_lem, psmouse_reconnect_lem,
}

-- A click, and a motion.
abbrev samples : List Sample
samples =
    record { left = true; right = false; middle = false; x = pos 0; y = pos 0 }
    ∷ record { left = false; right = false; middle = false; x = negsuc 9; y = pos 255 }
    ∷ []

samples-InRange : InRange samples
samples-InRange = (
  (omega arith, omega arith, omega arith, omega arith),
  ((omega arith, omega arith, omega arith, omega arith), tt),
)

run-encode_example :
    (run byte_handler (gathered 0 0 0 0 (0 ∷ []) 0 0) (encode samples)).1 ≡ decoded samples
run-encode_example = run-encode samples 0 0 0 (0 ∷ []) 0 0 samples-InRange

-- A device that counts its commands, and answers a wheel mouse's identity to each.
abbrev count_command : ℕ → Cmd → List ℕ → Answer ℕ
count_command n c params = record { ok = true; params = 3 ∷ 0 ∷ []; dev = n + 1 }

abbrev not_found : Props → ℕ → Found ℕ
not_found p dev = record { found = false; props = p; dev = dev }

abbrev no_others : Others ℕ
no_others = record {
  synaptics_detect = λ s p dev. not_found p dev;
  synaptics_init = not_found;
  synaptics_reset = λ dev. dev;
  alps_detect = λ s p dev. not_found p dev;
  alps_init = not_found;
  ps2pp_init = λ s p dev. not_found p dev;
}

abbrev plain : Props
plain = record {
  vendor = none;
  name = none;
  pktsize = 3;
  has_side = false;
  has_extra = false;
  has_wheel = false;
  protocol_handler = byte_handler;
}

abbrev same : ℕ → ℕ
same n = n

abbrev defaults : Defaults
defaults = record {
  max_proto = 7;
  default_rate = 100;
  default_resolution = 200;
  default_resetafter = 5;
}

-- A pass-through port without a driver, whose parent is a mouse.
abbrev parent_mouse : Psmouse ℕ
parent_mouse = set_up count_command no_others same same defaults 0

abbrev free_port : Port ℕ
free_port = record {
  structures = 0;
  drvdata = none;
  is_open = false;
  registered = false;
  attributes = false;
  device = 0;
  parent = some parent_mouse;
}

psmouse_connect_lem_example :
    let (ret, p') =
      psmouse_connect count_command no_others same same 12 19 defaults true 0 free_port in
    let p'' = psmouse_disconnect count_command no_others same same p' in
    (((ret ≢ 0) × IsFree p' × (p'.structures ≡ 0))
      ⊎ ((ret ≡ 0)
          × ((m : Psmouse ℕ) × (p'.drvdata ≡ some m) × IsActive m)
          × (p'.is_open ≡ true)
          × (p'.structures ≡ 1)
          × IsFree p''
          × (p''.structures ≡ 0)))
    × IsReporting p'.parent
psmouse_connect_lem_example =
    psmouse_connect_lem count_command no_others same same 12 19 defaults true 0 free_port
      (λ e. omega (arith, e)) (λ e. omega (arith, e)) (refl, refl, refl, refl)

psmouse_reconnect_lem_example :
    let (good, p') =
      psmouse_reconnect count_command no_others same same defaults
        (record free_port { drvdata = some parent_mouse }) in
    ((m' : Psmouse ℕ) × (p'.drvdata ≡ some m')
      × (((good ≡ true) × IsActive m' × (m'.mouse.type ≡ parent_mouse.mouse.type))
          ⊎ ((good ≡ false) × (run byte_handler m'.mouse (encode samples) ≡ (m'.mouse, [])))))
    × IsReporting p'.parent
psmouse_reconnect_lem_example =
    psmouse_reconnect_lem count_command no_others same same defaults
      (record free_port { drvdata = some parent_mouse }) parent_mouse byte_handler (encode samples)
      refl

-- A handler that the driver of an extension may install: six bytes make a packet, and it counts the reports by itself.
abbrev six_bytes : Handler
six_bytes m =
    if leb m.pktsize m.pktcnt then (full_packet, [], m.packet) else (good_data, [], m.packet)

-- A Synaptics driver that finds its device, and sets the size and the handler.
abbrev synaptics : Others ℕ
synaptics = record no_others {
  synaptics_detect = λ s p dev. record { found = true; props = p; dev = dev };
  synaptics_init = λ p dev. record {
    found = true;
    props = record p { pktsize = 6; protocol_handler = six_bytes };
    dev = dev;
  };
}
