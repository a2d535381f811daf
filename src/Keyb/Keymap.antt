-- ===== src/Keyb/Keymap.antt =====
-- The key map of j820_keyb.c: the 128 scan codes of the keyboard and the key of each.
use jornada.Common.{ℕ, Bool, List, [], ◌∷◌, ◌==◌, get_or, set, map, u8}
use jornada.Common.Bits.{land}

-- The keys of the map, by the names of linux/input.h.
pub data Key : Type 0 where
  key_reserved : Key
  key_f1 : Key
  key_1 : Key
  key_q : Key
  key_a : Key
  key_z : Key
  key_tab : Key
  key_f2 : Key
  key_2 : Key
  key_w : Key
  key_s : Key
  key_x : Key
  key_leftshift : Key
  key_f3 : Key
  key_3 : Key
  key_e : Key
  key_d : Key
  key_c : Key
  key_leftalt : Key
  key_leftmeta : Key
  key_f4 : Key
  key_4 : Key
  key_r : Key
  key_f : Key
  key_v : Key
  key_grave : Key
  key_f5 : Key
  key_5 : Key
  key_t : Key
  key_g : Key
  key_b : Key
  key_space : Key
  key_f6 : Key
  key_6 : Key
  key_y : Key
  key_h : Key
  key_n : Key
  key_rightalt : Key
  key_f7 : Key
  key_7 : Key
  key_u : Key
  key_j : Key
  key_m : Key
  key_comma : Key
  key_delete : Key
  key_f8 : Key
  key_8 : Key
  key_i : Key
  key_k : Key
  key_semicolon : Key
  key_dot : Key
  key_f9 : Key
  key_9 : Key
  key_o : Key
  key_l : Key
  key_apostrophe : Key
  key_slash : Key
  key_up : Key
  key_down : Key
  key_f10 : Key
  key_0 : Key
  key_p : Key
  key_leftbrace : Key
  key_rightbrace : Key
  key_enter : Key
  key_left : Key
  key_right : Key
  key_sysrq : Key
  key_minus : Key
  key_equal : Key
  key_backspace : Key
  key_backslash : Key
  key_rightshift : Key
  key_esc : Key
  key_leftctrl : Key
  key_power : Key

-- The map as it is when the driver starts, eight scan codes to a line.
abbrev pub kbmap : List Key
kbmap =
    key_reserved ∷ key_f1 ∷ key_1 ∷ key_q ∷ key_a ∷ key_z ∷ key_tab ∷ key_reserved ∷ key_reserved
    ∷ key_f2 ∷ key_2 ∷ key_w ∷ key_s ∷ key_x ∷ key_leftshift ∷ key_reserved ∷ key_reserved ∷ key_f3
    ∷ key_3 ∷ key_e ∷ key_d ∷ key_c ∷ key_reserved ∷ key_leftalt ∷ key_leftmeta ∷ key_f4 ∷ key_4
    ∷ key_r ∷ key_f ∷ key_v ∷ key_reserved ∷ key_grave ∷ key_reserved ∷ key_f5 ∷ key_5 ∷ key_t
    ∷ key_g ∷ key_b ∷ key_reserved ∷ key_reserved ∷ key_space ∷ key_f6 ∷ key_6 ∷ key_y ∷ key_h
    ∷ key_n ∷ key_reserved ∷ key_reserved ∷ key_rightalt ∷ key_f7 ∷ key_7 ∷ key_u ∷ key_j ∷ key_m
    ∷ key_comma ∷ key_reserved ∷ key_delete ∷ key_f8 ∷ key_8 ∷ key_i ∷ key_k ∷ key_semicolon
    ∷ key_dot ∷ key_reserved ∷ key_reserved ∷ key_f9 ∷ key_9 ∷ key_o ∷ key_l ∷ key_apostrophe
    ∷ key_slash ∷ key_up ∷ key_down ∷ key_f10 ∷ key_0 ∷ key_p ∷ key_leftbrace ∷ key_rightbrace
    ∷ key_enter ∷ key_left ∷ key_right ∷ key_sysrq ∷ key_minus ∷ key_equal ∷ key_backspace
    ∷ key_backslash ∷ key_rightshift ∷ key_reserved ∷ key_reserved ∷ key_reserved ∷ key_reserved
    ∷ key_reserved ∷ key_reserved ∷ key_reserved ∷ key_reserved ∷ key_reserved ∷ key_esc
    ∷ key_reserved ∷ key_reserved ∷ key_reserved ∷ key_reserved ∷ key_reserved ∷ key_reserved
    ∷ key_reserved ∷ key_leftctrl ∷ key_reserved ∷ key_reserved ∷ key_reserved ∷ key_reserved
    ∷ key_reserved ∷ key_reserved ∷ key_reserved ∷ key_power ∷ key_reserved ∷ key_reserved
    ∷ key_reserved ∷ key_reserved ∷ key_reserved ∷ key_reserved ∷ key_reserved ∷ key_reserved
    ∷ key_reserved ∷ key_reserved ∷ key_reserved ∷ key_reserved ∷ key_reserved ∷ key_reserved
    ∷ key_reserved ∷ []

-- The map's bytes, where `code` gives the number of a key.
unfoldable pub initial_map : (Key → ℕ) → List ℕ
initial_map code = map (λ key. u8 (code key)) kbmap

unfoldable pub j820_kbd_setkeycode : ℕ → ℕ → List ℕ → List ℕ
j820_kbd_setkeycode scancode keycode kb = set kb (land 32 scancode 127) (u8 keycode)

unfoldable pub j820_kbd_getkeycode : ℕ → List ℕ → ℕ
j820_kbd_getkeycode scancode kb = get_or kb (land 32 scancode 127) 0

-- The key code that it stores, and its answer.
unfoldable pub j820_kbd_translate : ℕ → List ℕ → ℕ × ℕ
j820_kbd_translate scancode kb = (get_or kb (land 32 scancode 127) 0, 1)

-- `handle_scancode(scancode, (scancode & 0x80) ? 0 : 1)`: the scan code, and whether the key is down.
unfoldable pub j820_kbd_irq : ℕ → ℕ × Bool
j820_kbd_irq scancode = (scancode, land 32 scancode 128 == 0)
