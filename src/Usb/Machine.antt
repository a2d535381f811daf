-- ===== src/Usb/Machine.antt =====
-- The state machine of usb_ctl.c: `device_state_machine`, `sm_state_to_device_state` and
-- `usbctl_next_state_on_event`.
use jornada.Common.{Bool, true, false, not, ◌&&◌, Option, none, some, List, [], ◌∷◌, if◌then◌else◌}

-- kStateZombie to kStateConfigSuspend
pub data SmState : Type 0 where
  zombie zombie_suspend default default_suspend addr addr_suspend config config_suspend : SmState

-- The columns of the table: kEvSuspend, kEvReset, kEvResume, kEvAddress, kEvConfig, kEvDeConfig.
pub data Event : Type 0 where
  suspend reset resume address configure deconfigure : Event

-- `none` is kError.
unfoldable pub device_state_machine : SmState → Event → Option SmState
device_state_machine zombie suspend = some zombie_suspend
device_state_machine zombie reset = some default
device_state_machine zombie_suspend reset = some default
device_state_machine zombie_suspend resume = some zombie
device_state_machine default suspend = some default_suspend
device_state_machine default resume = some default
device_state_machine default address = some addr
device_state_machine default_suspend reset = some default
device_state_machine default_suspend resume = some default
device_state_machine addr suspend = some addr_suspend
device_state_machine addr reset = some default
device_state_machine addr configure = some config
device_state_machine addr_suspend reset = some default
device_state_machine addr_suspend resume = some addr
device_state_machine config suspend = some config_suspend
device_state_machine config reset = some default
device_state_machine config deconfigure = some addr
device_state_machine config_suspend reset = some default
device_state_machine config_suspend resume = some config
device_state_machine _ _ = none

-- The USB_STATE_ values that the driver uses.
pub data DeviceState : Type 0 where
  powered defaulted addressed configured suspended : DeviceState

DeviceState-discrete : Discrete DeviceState
DeviceState-discrete = hlevel

unfoldable pub sm_state_to_device_state : SmState → DeviceState
sm_state_to_device_state zombie = powered
sm_state_to_device_state zombie_suspend = suspended
sm_state_to_device_state default = defaulted
sm_state_to_device_state default_suspend = suspended
sm_state_to_device_state addr = addressed
sm_state_to_device_state addr_suspend = suspended
sm_state_to_device_state config = configured
sm_state_to_device_state config_suspend = suspended

-- `sm_state`, `usbd_info.state`, and whether a client has set `configured_callback`.
pub record Core : Type 0 where
  pub sm_state : SmState
  pub state : DeviceState
  pub has_callback : Bool

-- What the core tells others: the callback, and the state passed to both endpoints.
pub data Note : Type 0 where
  callback : Note
  endpoints : DeviceState → Note

abbrev pub is_same : DeviceState → DeviceState → Bool
is_same powered powered = true
is_same defaulted defaulted = true
is_same addressed addressed = true
is_same configured configured = true
is_same suspended suspended = true
is_same _ _ = false

-- The new core, what it announced, and whether the event was accepted.
pub record Reaction : Type 0 where
  pub core : Core
  pub notes : List Note
  pub next : Option SmState

-- The table's answer, carried out.
unfoldable pub enter : Core → SmState → Reaction
enter c next =
    let device = sm_state_to_device_state next in
    let moved = record c { sm_state = next } in
    let told =
      if c.has_callback && is_same device configured && not (is_same c.state suspended)
      then callback ∷ endpoints device ∷ []
      else endpoints device ∷ [] in
    if is_same c.state device
    then record { core = moved; notes = []; next = some next }
    else record { core = record moved { state = device }; notes = told; next = some next }

unfoldable pub usbctl_next_state_on_event : Core → Event → Reaction
usbctl_next_state_on_event c e = elim (device_state_machine c.sm_state e) [
  | none ↦ record { core = c; notes = []; next = none }
  | some next ↦ enter c next
]

-- The state that `sa1100_usb_open` sets up: zombie and suspended.
abbrev pub opened : Bool → Core
opened cb = record { sm_state = zombie_suspend; state = suspended; has_callback = cb }
