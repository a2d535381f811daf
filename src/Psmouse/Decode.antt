-- ===== src/Psmouse/Decode.antt =====
-- What the reports of a packet of psmouse-base.c mean, against the PS/2 packet format.
use jornada.Common.{
  ℕ, suc, ◌+◌, ◌-◌, ◌<◌, ◌≡◌, Bool, true, false, List, [], ◌∷◌, arith, if◌then◌else◌,
}
use jornada.Common.Int.{ℤ, pos, negsuc, sub_ℕ, ◌≤ℤ◌}
use jornada.Common.Bits.{bit}
use jornada.Psmouse.Packet.{
  ps2, imps, rel, key, rel_x, rel_y, rel_wheel, btn_left, btn_middle, btn_right, motion_x, motion_y,
  minus_signed_char, reports,
}

-- The bytes that a mouse sends for its buttons and its motion: 9-bit two's complement along each
-- axis, the sign bits in the first byte, whose bit 3 is always set.
abbrev pub byte_of : ℤ → ℕ
byte_of (pos n) = n
byte_of (negsuc n) = 255 - n

abbrev pub is_negative : ℤ → Bool
is_negative (pos _) = false
is_negative (negsuc _) = true

abbrev weight : Bool → ℕ → ℕ
weight b w = if b then w else 0

abbrev pub flags : Bool → Bool → Bool → Bool → Bool → ℕ
flags left right middle sx sy =
    weight left 1 + weight right 2 + weight middle 4 + 8 + weight sx 16 + weight sy 32

abbrev pub first_byte : Bool → Bool → Bool → ℤ → ℤ → ℕ
first_byte left right middle x y = flags left right middle (is_negative x) (is_negative y)

-- -z
abbrev pub negate : ℤ → ℤ
negate (pos n) = sub_ℕ 0 n
negate (negsuc n) = pos (suc n)

bits_of :
    (l r m sx sy : Bool)
    → let b = flags l r m sx sy in
      (bit b 0 ≡ l) × (bit b 1 ≡ r) × (bit b 2 ≡ m) × (bit b 4 ≡ sx) × (bit b 5 ≡ sy)
bits_of l r m sx sy = ground arith

pub first_byte_small : (l r m : Bool) (x y : ℤ) → first_byte l r m x y < 64
first_byte_small l r m x y = ground arith

first_byte_bits :
    (l r m : Bool) (x y : ℤ)
    → let b = first_byte l r m x y in
      (bit b 0 ≡ l)
      × (bit b 1 ≡ r)
      × (bit b 2 ≡ m)
      × (bit b 4 ≡ is_negative x)
      × (bit b 5 ≡ is_negative y)
first_byte_bits l r m x y = bits_of l r m (is_negative x) (is_negative y)

motion_x_lem :
    (b : ℕ) (x : ℤ)
    → bit b 4 ≡ is_negative x
    → negsuc 254 ≤ℤ x
    → x ≤ℤ pos 255
    → motion_x b (byte_of x) ≡ x
motion_x_lem b x s lo hi = ground arith

motion_y_lem :
    (b : ℕ) (y : ℤ)
    → bit b 5 ≡ is_negative y
    → negsuc 254 ≤ℤ y
    → y ≤ℤ pos 255
    → motion_y b (byte_of y) ≡ negate y
motion_y_lem b y s lo hi = ground arith

-- For a motion within 255 steps along each axis, a packet of a plain mouse whose three bytes are
-- those of the PS/2 format is reported as its three buttons and its motion, with the y axis turned
-- round.
pub reports-three :
    (l r m : Bool) (x y : ℤ) (rest : List ℕ)
    → negsuc 254 ≤ℤ x
    → x ≤ℤ pos 255
    → negsuc 254 ≤ℤ y
    → y ≤ℤ pos 255
    → reports ps2 (first_byte l r m x y ∷ byte_of x ∷ byte_of y ∷ rest)
      ≡ key btn_left l
        ∷ key btn_middle m
        ∷ key btn_right r
        ∷ rel rel_x x
        ∷ rel rel_y (negate y)
        ∷ []
unfolding reports
reports-three l r m x y rest x1 x2 y1 y2 =
    let (bl, br, bm, bx, by) = first_byte_bits l r m x y in
    let mx : motion_x (first_byte l r m x y) (byte_of x) ≡ x =
      motion_x_lem (first_byte l r m x y) x bx x1 x2 in
    let my : motion_y (first_byte l r m x y) (byte_of y) ≡ negate y =
      motion_y_lem (first_byte l r m x y) y by y1 y2 in
    cc (bl, br, bm, mx, my)

-- For a turn of the wheel within 127 steps, an IntelliMouse packet whose fourth byte is the turn is
-- reported as the turn with its sign changed, and then as the packet of a plain mouse.
reports-wheel :
    (l r m : Bool) (x y z : ℤ) (rest : List ℕ)
    → negsuc 127 ≤ℤ z
    → z ≤ℤ pos 127
    → reports imps (first_byte l r m x y ∷ byte_of x ∷ byte_of y ∷ byte_of z ∷ rest)
      ≡ rel rel_wheel (negate z)
        ∷ reports ps2 (first_byte l r m x y ∷ byte_of x ∷ byte_of y ∷ byte_of z ∷ rest)
unfolding reports
reports-wheel l r m x y z rest z1 z2 = cc (turn z z1 z2)
  where
    turn : (z : ℤ) → negsuc 127 ≤ℤ z → z ≤ℤ pos 127 → minus_signed_char (byte_of z) ≡ negate z
    turn z lo hi = ground arith
