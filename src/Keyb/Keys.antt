-- ===== src/Keyb/Keys.antt =====
-- What the key map of j820_keyb.c answers: a code that was set is found again, and each key of the
-- map stands at one place.
use jornada.Common.{
  &&_true, ℕ, zero, suc, ◌+◌, ◌<◌, ◌≡◌, refl, Bool, true, false, ◌&&◌, ◌||◌, List, [], ◌∷◌,
  if◌then◌else◌, ◌==◌, get_or, length, ◌%◌, u8, arith, Bool-cases, inl, inr, sym, ap, ◌∙◌,
  get_or-set_self, get_or-set_ne, ==_iff,
}
use jornada.Common.Bits.{land, land-low_mask}
use jornada.Keyb.Keymap.{
  Key, kbmap, j820_kbd_setkeycode, j820_kbd_getkeycode, j820_kbd_translate, key_reserved, key_f1,
  key_1, key_q, key_a, key_z, key_tab, key_f2, key_2, key_w, key_s, key_x, key_leftshift, key_f3,
  key_3, key_e, key_d, key_c, key_leftalt, key_leftmeta, key_f4, key_4, key_r, key_f, key_v,
  key_grave, key_f5, key_5, key_t, key_g, key_b, key_space, key_f6, key_6, key_y, key_h, key_n,
  key_rightalt, key_f7, key_7, key_u, key_j, key_m, key_comma, key_delete, key_f8, key_8, key_i,
  key_k, key_semicolon, key_dot, key_f9, key_9, key_o, key_l, key_apostrophe, key_slash, key_up,
  key_down, key_f10, key_0, key_p, key_leftbrace, key_rightbrace, key_enter, key_left, key_right,
  key_sysrq, key_minus, key_equal, key_backspace, key_backslash, key_rightshift, key_esc,
  key_leftctrl, key_power,
}

masked : (s : ℕ) → land 32 s 127 ≡ s % 128
masked s = land-low_mask 32 7 s (omega arith)

-- In a map of 128 bytes, the code that was set for a scan code, cut to a byte, is what a key with
-- the same low seven bits yields, and every other scan code yields what it did before.
j820_kbd_translate-setkeycode :
    (kb : List ℕ) (s t c : ℕ)
    → length kb ≡ 128
    → (j820_kbd_translate t (j820_kbd_setkeycode s c kb)).0
      ≡ (if s % 128 == t % 128 then u8 c else j820_kbd_getkeycode t kb)
unfolding j820_kbd_translate j820_kbd_getkeycode j820_kbd_setkeycode
j820_kbd_translate-setkeycode kb s t c len = elim (Bool-cases (s % 128 == t % 128)) [
  | inl e ↦
      let same = (==_iff (s % 128) (t % 128)).0 e in
      rw (e, masked s, masked t, same) (get_or-set_self kb (t % 128) (u8 c) 0 (omega (arith, len)))
  | inr e ↦ rw (e, masked s, masked t) (get_or-set_ne kb (u8 c) 0 (λ h. ground (arith, h, e)))
]

-- Where a key stands in the map.
abbrev place : Key → ℕ
place key_reserved = 0
place key_f1 = 1
place key_1 = 2
place key_q = 3
place key_a = 4
place key_z = 5
place key_tab = 6
place key_f2 = 9
place key_2 = 10
place key_w = 11
place key_s = 12
place key_x = 13
place key_leftshift = 14
place key_f3 = 17
place key_3 = 18
place key_e = 19
place key_d = 20
place key_c = 21
place key_leftalt = 23
place key_leftmeta = 24
place key_f4 = 25
place key_4 = 26
place key_r = 27
place key_f = 28
place key_v = 29
place key_grave = 31
place key_f5 = 33
place key_5 = 34
place key_t = 35
place key_g = 36
place key_b = 37
place key_space = 40
place key_f6 = 41
place key_6 = 42
place key_y = 43
place key_h = 44
place key_n = 45
place key_rightalt = 48
place key_f7 = 49
place key_7 = 50
place key_u = 51
place key_j = 52
place key_m = 53
place key_comma = 54
place key_delete = 56
place key_f8 = 57
place key_8 = 58
place key_i = 59
place key_k = 60
place key_semicolon = 61
place key_dot = 62
place key_f9 = 65
place key_9 = 66
place key_o = 67
place key_l = 68
place key_apostrophe = 69
place key_slash = 70
place key_up = 71
place key_down = 72
place key_f10 = 73
place key_0 = 74
place key_p = 75
place key_leftbrace = 76
place key_rightbrace = 77
place key_enter = 78
place key_left = 79
place key_right = 80
place key_sysrq = 81
place key_minus = 82
place key_equal = 83
place key_backspace = 84
place key_backslash = 85
place key_rightshift = 86
place key_esc = 96
place key_leftctrl = 104
place key_power = 112

abbrev is_reserved : Key → Bool
is_reserved key_reserved = true
is_reserved key_f1 = false
is_reserved key_1 = false
is_reserved key_q = false
is_reserved key_a = false
is_reserved key_z = false
is_reserved key_tab = false
is_reserved key_f2 = false
is_reserved key_2 = false
is_reserved key_w = false
is_reserved key_s = false
is_reserved key_x = false
is_reserved key_leftshift = false
is_reserved key_f3 = false
is_reserved key_3 = false
is_reserved key_e = false
is_reserved key_d = false
is_reserved key_c = false
is_reserved key_leftalt = false
is_reserved key_leftmeta = false
is_reserved key_f4 = false
is_reserved key_4 = false
is_reserved key_r = false
is_reserved key_f = false
is_reserved key_v = false
is_reserved key_grave = false
is_reserved key_f5 = false
is_reserved key_5 = false
is_reserved key_t = false
is_reserved key_g = false
is_reserved key_b = false
is_reserved key_space = false
is_reserved key_f6 = false
is_reserved key_6 = false
is_reserved key_y = false
is_reserved key_h = false
is_reserved key_n = false
is_reserved key_rightalt = false
is_reserved key_f7 = false
is_reserved key_7 = false
is_reserved key_u = false
is_reserved key_j = false
is_reserved key_m = false
is_reserved key_comma = false
is_reserved key_delete = false
is_reserved key_f8 = false
is_reserved key_8 = false
is_reserved key_i = false
is_reserved key_k = false
is_reserved key_semicolon = false
is_reserved key_dot = false
is_reserved key_f9 = false
is_reserved key_9 = false
is_reserved key_o = false
is_reserved key_l = false
is_reserved key_apostrophe = false
is_reserved key_slash = false
is_reserved key_up = false
is_reserved key_down = false
is_reserved key_f10 = false
is_reserved key_0 = false
is_reserved key_p = false
is_reserved key_leftbrace = false
is_reserved key_rightbrace = false
is_reserved key_enter = false
is_reserved key_left = false
is_reserved key_right = false
is_reserved key_sysrq = false
is_reserved key_minus = false
is_reserved key_equal = false
is_reserved key_backspace = false
is_reserved key_backslash = false
is_reserved key_rightshift = false
is_reserved key_esc = false
is_reserved key_leftctrl = false
is_reserved key_power = false

abbrev is_placed : ℕ → List Key → Bool
is_placed i [] = true
is_placed i (key ∷ ks) = (is_reserved key || (place key == i)) && is_placed (suc i) ks

is_placed-get_or :
    (i j : ℕ) (ks : List Key)
    → is_placed i ks ≡ true
    → j < length ks
    → is_reserved (get_or ks j key_reserved) ≡ false
    → place (get_or ks j key_reserved) ≡ i + j
is_placed-get_or i j [] h lt r = absurd (omega arith)
is_placed-get_or i zero (key ∷ ks) h lt r =
    let (here, rest) = &&_true (is_reserved key || (place key == i)) (is_placed (suc i) ks) h in
    omega (arith, (==_iff (place key) i).0 (rw r at here))
is_placed-get_or i (suc j) (key ∷ ks) h lt r =
    let (here, rest) = &&_true (is_reserved key || (place key == i)) (is_placed (suc i) ks) h in
    omega (arith, is_placed-get_or (suc i) j ks rest (omega (arith, lt)) r)

-- Two scan codes below 128 that the initial map gives one key, other than KEY_RESERVED, are the same.
kbmap-injective :
    (i j : ℕ)
    → i < 128
    → j < 128
    → is_reserved (get_or kbmap i key_reserved) ≡ false
    → get_or kbmap i key_reserved ≡ get_or kbmap j key_reserved
    → i ≡ j
kbmap-injective i j il jl r e =
    let at_i = is_placed-get_or 0 i kbmap refl il r in
    let at_j = is_placed-get_or 0 j kbmap refl jl (ap is_reserved (sym e) ∙ r) in
    omega (arith, at_i, ap place e, at_j)
