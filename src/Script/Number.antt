-- ===== src/Script/Number.antt =====
-- `strtoul` of haret-j820gnu/src/script.cpp, for the tokens that `get_expression` gives it: their first
-- byte is a digit, and the base is 0.
use jornada.Common.{
  ℕ, ◌+◌, ◌-◌, ◌*◌, ◌/◌, ◌%◌, ◌^◌, ◌≡◌, ◌≤◌, ◌<◌, Bool, true, false, ◌&&◌, ◌||◌, List, [], ◌∷◌,
  lt→leb_false, min, if◌then◌else◌, ◌==◌, ltb, leb, arith, Bool-cases, inl, inr, refl, ap, u8, u32,
  map,
}
use native.Mathlib.Nat.{mul-le-mul_left, add-mul, mul_assoc, mul_comm}
use jornada.Script.Text.{isxdigit}

-- The value of a digit, as an `unsigned char`.
unfoldable pub digit : ℕ → ℕ
digit c =
    if leb b'a' c
    then c - b'a' + 10
    else if leb b'A' c
    then c - b'A' + 10
    else if leb c b'9'
    then u8 (c + 256 - b'0')
    else 0xff

-- One turn: the bytes of the product are put together, so that an overflow is seen.
unfoldable pub turn : ℕ → ℕ → ℕ × Bool → ℕ × Bool
turn base d (v, overflow) =
    let x = v % 256 * base + d in
    let w = v / 256 * base + x / 256 in (u32 (w * 256 + x % 256), overflow || ltb (2 ^ 24 - 1) w)

-- The loop: the value with its overflow, and the bytes that are left.
unfoldable pub scan : ℕ → List ℕ → ℕ × Bool → (ℕ × Bool) × List ℕ
unfolding digit turn
scan base [] acc = (acc, [])
scan base (c ∷ s) acc =
    let rest = scan base s (turn base (digit c) acc) in
    if leb base (digit c) then (acc, c ∷ s) else rest

-- The base, and the bytes from the first digit on.
unfoldable pub prefix : List ℕ → ℕ × List ℕ
unfolding isxdigit
prefix (zero_digit ∷ x ∷ h ∷ s) =
    if zero_digit == b'0'
    then (if (x == b'x' || x == b'X') && isxdigit h
        then (16, h ∷ s)
        else (8, zero_digit ∷ x ∷ h ∷ s))
    else (10, zero_digit ∷ x ∷ h ∷ s)
prefix (zero_digit ∷ s) = if zero_digit == b'0' then (8, zero_digit ∷ s) else (10, zero_digit ∷ s)
prefix [] = (10, [])

-- The number with what is left of the token.
unfoldable pub strtoul : List ℕ → ℕ × List ℕ
unfolding prefix scan
strtoul tok =
    let (base, s) = prefix tok in
    let ((v, overflow), err) = scan base s (0, false) in (if overflow then 2 ^ 32 - 1 else v, err)

-- The value of digits after a value, with no bound.
abbrev pub value : ℕ → List ℕ → ℕ → ℕ
value base [] v = v
value base (d ∷ ds) v = value base ds (v * base + d)

le-mul : (base v : ℕ) → 1 ≤ base → v ≤ v * base
le-mul base v h = omega (arith, mul-le-mul_left v h)

value-le : (base : ℕ) (ds : List ℕ) (v : ℕ) → 1 ≤ base → v ≤ value base ds v
value-le base [] v h = omega arith
value-le base (d ∷ ds) v h = omega (arith, le-mul base v h, value-le base ds (v * base + d) h)

scaled : (q base : ℕ) → q * 256 * base ≡ q * base * 256
scaled q base = omega (
  arith,
  mul_assoc q 256 base,
  mul_assoc q base 256,
  mul_comm base 256,
  ap (λ (t : ℕ). q * t) (mul_comm base 256),
)

turn_exact :
    (base d v : ℕ)
    → v < 2 ^ 32
    → turn base d (v, false) ≡ (u32 (v * base + d), leb (2 ^ 32) (v * base + d))
unfolding turn
turn_exact base d v h =
    let q : ℕ = v / 256 * base in
    let r : ℕ = v % 256 * base in
    let parts : v * base ≡ q * 256 + r =
      let whole : v ≡ v / 256 * 256 + v % 256 = omega arith in
      omega (
        arith,
        ap (λ (t : ℕ). t * base) whole,
        add-mul (v / 256 * 256) (v % 256) base,
        scaled (v / 256) base,
      ) in
    ground (arith, parts)

-- Each byte is a digit in the base.
abbrev pub AreDigits : ℕ → List ℕ → Type 0
AreDigits base [] = Unit {0}
AreDigits base (c ∷ s) = (digit c < base) × AreDigits base s

scan-overflow :
    (base : ℕ) (s : List ℕ) (v : ℕ)
    → AreDigits base s
    → ((scan base s (v, true)).0.1 ≡ true) × ((scan base s (v, true)).1 ≡ [])
unfolding scan turn
scan-overflow base [] v h = (refl, refl)
scan-overflow base (c ∷ s) v (d, h) = rw (lt→leb_false base (digit c) d) (scan-overflow base s _ h)

-- The answer from the value and its overflow.
abbrev pub saturate : ℕ × Bool → ℕ
saturate (v, overflow) = if overflow then 2 ^ 32 - 1 else v

scan-value :
    (base : ℕ) (s : List ℕ) (v : ℕ)
    → 1 ≤ base
    → AreDigits base s
    → v < 2 ^ 32
    → (saturate (scan base s (v, false)).0 ≡ min (value base (map digit s) v) (2 ^ 32 - 1))
      × ((scan base s (v, false)).1 ≡ [])
unfolding scan
scan-value base [] v b h lt = (omega arith, refl)
scan-value base (c ∷ s) v b (d, h) lt =
    let n : ℕ = v * base + digit c in
    let le = value-le base (map digit s) n b in
    elim (Bool-cases (leb (2 ^ 32) n)) [
      | inl past ↦
          let (over, ends) = scan-overflow base s (u32 n) h in
          rw (lt→leb_false base (digit c) d, turn_exact base (digit c) v lt, past)
            (rw over (ground (arith, le, past)), ends)
      | inr within ↦
          rw (lt→leb_false base (digit c) d, turn_exact base (digit c) v lt, within)
            (let small : u32 n ≡ n = ground (arith, within) in
              rw small (scan-value base s n b h (ground (arith, within))))
    ]

prefix-decimal : (c : ℕ) (s : List ℕ) → (c == b'0') ≡ false → prefix (c ∷ s) ≡ (10, c ∷ s)
unfolding prefix
prefix-decimal c [] e = rw e refl
prefix-decimal c (x ∷ []) e = rw e refl
prefix-decimal c (x ∷ y ∷ s) e = rw e refl

-- A token of decimal digits that does not begin with 0 is read to its end, as its value, or as the
-- largest word where the value does not fit one.
pub strtoul-decimal :
    (c : ℕ) (s : List ℕ)
    → (c == b'0') ≡ false
    → AreDigits 10 (c ∷ s)
    → strtoul (c ∷ s) ≡ (min (value 10 (map digit (c ∷ s)) 0) (2 ^ 32 - 1), [])
unfolding strtoul
strtoul-decimal c s nonzero h =
    let start : prefix (c ∷ s) ≡ (10, c ∷ s) = prefix-decimal c s nonzero in
    let (v, ends) = scan-value 10 (c ∷ s) 0 (omega arith) h (omega arith) in
    rw (start, v, ends) refl
