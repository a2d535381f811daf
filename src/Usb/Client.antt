-- ===== src/Usb/Client.antt =====
-- The public interface of usb_ctl.c: opening and closing, the callback, the string descriptors, and
-- the resources of module initialisation. A client's name and a descriptor are numbers that stand for
-- their addresses.
use jornada.Common.{
  ℕ, ◌<◌, ◌≡◌, ◌≢◌, ◌↔◌, refl, Bool, true, false, not, Option, none, some, List, arith,
  if◌then◌else◌, ◌==◌, ltb, length, get_or, set, replicate, get_or-set_self, get_or-set_ne,
}
use jornada.Common.Int.{ℤ, pos, negsuc}
use jornada.Usb.Machine.{Core, opened, sm_state_to_device_state}
use jornada.Usb.Trace.{Agrees}

-- `usbd_info.client_name`, the machine, `configured_callback` and `string_desc_array`.
pub record Driver : Type 0 where
  pub client_name : Option ℕ
  pub core : Core
  pub configured_callback : Option ℕ
  pub strings : List (Option ℕ)

pub data Status : Type 0 where
  ok ebusy eperm einval : Status

abbrev pub max_string_desc : ℕ
max_string_desc = 8

abbrev pub is_set : Option ℕ → Bool
is_set none = false
is_set (some _) = true

-- What a write to the array of string descriptors comes to: `out_of_bounds` is an index that passes the
-- test `i < MAX_STRING_DESC` and lies before the array.
pub data Access (A : Type 0) : Type 0 where
  done : A → Access A
  out_of_bounds : Access A

unfoldable pub sa1100_usb_set_string_descriptor : Driver → ℤ → Option ℕ → Access (Status × Driver)
sa1100_usb_set_string_descriptor d (negsuc _) p = out_of_bounds
sa1100_usb_set_string_descriptor d (pos i) p =
    if ltb i max_string_desc
    then done (ok, record d { strings = set d.strings i p })
    else done (einval, d)

unfoldable pub sa1100_usb_get_string_descriptor : Driver → ℤ → Access (Option ℕ)
sa1100_usb_get_string_descriptor d (negsuc _) = out_of_bounds
sa1100_usb_get_string_descriptor d (pos i) =
    if ltb i max_string_desc then done (get_or d.strings i none) else done none

-- `sd_zero` is the descriptor of the language codes, which goes to index 0.
unfoldable pub sa1100_usb_open : Driver → ℕ → ℕ → Status × Driver
sa1100_usb_open d client sd_zero = if is_set d.client_name then (ebusy, d) else (
  ok,
  record d {
    client_name = some client;
    core = opened (is_set d.configured_callback);
    strings = set (replicate max_string_desc none) 0 (some sd_zero);
  },
)

unfoldable pub sa1100_usb_close : Driver → Status × Driver
sa1100_usb_close d =
    if is_set d.client_name then (ok, record d { client_name = none }) else (eperm, d)

-- The previous callback is returned.
unfoldable pub sa1100_set_configured_callback : Driver → Option ℕ → Option ℕ × Driver
sa1100_set_configured_callback d func = (
  d.configured_callback,
  record d { configured_callback = func; core = record d.core { has_callback = is_set func } },
)

-- What `usbctl_init` holds.
pub record Held : Type 0 where
  pub proc_entry : Bool
  pub rx_dma : Bool
  pub tx_dma : Bool
  pub irq : Bool

abbrev pub nothing : Held
nothing = record { proc_entry = false; rx_dma = false; tx_dma = false; irq = false }

-- The error paths, from the last: `err_irq`, `err_tx_dma`, `err_rx_dma`.
abbrev pub err_rx_dma : ℕ → Held → ℕ × Held
err_rx_dma retval h = (retval, h)

abbrev pub err_tx_dma : ℕ → Held → ℕ × Held
err_tx_dma retval h = err_rx_dma retval (record h { rx_dma = false })

abbrev pub err_irq : ℕ → Held → ℕ × Held
err_irq retval h = err_tx_dma retval (record h { tx_dma = false })

-- The arguments are what the three requests return, 0 for success.
unfoldable pub usbctl_init : ℕ → ℕ → ℕ → ℕ × Held
usbctl_init rx tx irq =
    let h0 = record nothing { proc_entry = true } in
    let h1 = record h0 { rx_dma = true } in
    let h2 = record h1 { tx_dma = true } in
    if not (rx == 0)
    then err_rx_dma rx h0
    else if not (tx == 0)
    then err_tx_dma tx h1
    else if not (irq == 0)
    then err_irq irq h2
    else (0, record h2 { irq = true })

unfoldable pub usbctl_exit : Held → Held
usbctl_exit h = record h { proc_entry = false; tx_dma = false; rx_dma = false; irq = false }

-- The array has its length, and a core that is open was opened by this interface.
pub record IsValid (d : Driver) : Type 0 where
  pub room : length d.strings ≡ max_string_desc
  pub callback_known : d.core.has_callback ≡ is_set d.configured_callback

-- A descriptor that is stored is read back, and every other index reads as before.
get-set_string :
    (d : Driver) (i j : ℕ) (p : Option ℕ)
    → IsValid d
    → i < 8
    → j < 8
    → (d' : Driver) × (sa1100_usb_set_string_descriptor d (pos i) p ≡ done (ok, d'))
      × (sa1100_usb_get_string_descriptor d' (pos j)
          ≡ (if i == j then done p else sa1100_usb_get_string_descriptor d (pos j)))
unfolding sa1100_usb_set_string_descriptor sa1100_usb_get_string_descriptor
get-set_string d i j p v hi hj = (
  record d { strings = set d.strings i p },
  ground arith,
  ground (
    arith,
    v.room,
    get_or-set_self d.strings i p none,
    get_or-set_ne d.strings {i = i} {j = j} p none,
  ),
)

-- An access before the array is reached exactly by the negative indices, which pass the test of the
-- bound.
set_string-bounds :
    (d : Driver) (i : ℤ) (p : Option ℕ)
    → (sa1100_usb_set_string_descriptor d i p ≡ out_of_bounds) ↔ ((n : ℕ) × (i ≡ negsuc n))
unfolding sa1100_usb_set_string_descriptor
set_string-bounds d (pos i) p = (λ e. ground arith, λ e. cc (e.1))
set_string-bounds d (negsuc i) p = (λ e. (i, refl), λ e. refl)

-- On a controller without a client an open succeeds and sets up a machine whose device state is
-- announced; a second open is refused as busy and changes nothing; and after a close, which
-- succeeds, an open succeeds again.
open-open :
    (d : Driver) (c c' z z' : ℕ)
    → d.client_name ≡ none
    → let (s, d') = sa1100_usb_open d c z in
      (s ≡ ok)
      × Agrees d'.core
      × (sa1100_usb_open d' c' z' ≡ (ebusy, d'))
      × ((sa1100_usb_close d').0 ≡ ok)
      × ((sa1100_usb_open (sa1100_usb_close d').1 c' z').0 ≡ ok)
unfolding sa1100_usb_open sa1100_usb_close sm_state_to_device_state
open-open d c c' z z' e = rw e (refl, refl, refl, refl, refl)

-- An initialisation that fails gives back what it took of both DMA channels and the interrupt, and
-- leaves the /proc entry behind.
usbctl_init-fails :
    (rx tx irq : ℕ)
    → (usbctl_init rx tx irq).0 ≢ 0
    → (usbctl_init rx tx irq).1 ≡ record nothing { proc_entry = true }
unfolding usbctl_init
usbctl_init-fails rx tx irq h = ground arith
