-- ===== src/Common/Bits.antt =====
-- Single bits of a machine word, and `&` with a mask of a fixed width. Each operation goes down the
-- binary digits, so that its laws hold at variables.
use Prim.Native.Nat.{ℕ, zero, suc, ◌+◌, ◌-◌, ◌*◌, ◌/◌, ◌%◌, ◌^◌, ◌≤◌, ◌<◌, min, max}
use mathlib.Core.Path.{◌≡◌, refl, ap, sym}
use mathlib.Core.Logic.{◌≢◌}
use mathlib.Core.Bool.{Bool, true, false, not, ◌&&◌, ◌||◌}
use native.Mathlib.Omega.{arith}
use native.Mathlib.Nat.{
  pow-suc, pow-le-pow_right, mod-eq-sub-div-mul, div-div-eq-div-mul, div-mul-le_self,
}
use jornada.Common.Tests.{◌==◌}

-- `(w >> k) & 1` as a truth value.
abbrev pub bit : ℕ → ℕ → Bool
bit w zero = w % 2 == 1
bit w (suc k) = bit (w / 2) k

-- `w | (1 << k)`
abbrev pub set_bit : ℕ → ℕ → ℕ
set_bit w zero = w / 2 * 2 + 1
set_bit w (suc k) = set_bit (w / 2) k * 2 + w % 2

-- `w & ~(1 << k)`
abbrev pub clear_bit : ℕ → ℕ → ℕ
clear_bit w zero = w / 2 * 2
clear_bit w (suc k) = clear_bit (w / 2) k * 2 + w % 2

pub bit-set_self : (w k : ℕ) → bit (set_bit w k) k ≡ true
bit-set_self w zero = ground arith
bit-set_self w (suc k) =
    let e : set_bit w (suc k) / 2 ≡ set_bit (w / 2) k = omega arith in rw e (bit-set_self (w / 2) k)

pub bit-clear_self : (w k : ℕ) → bit (clear_bit w k) k ≡ false
bit-clear_self w zero = ground arith
bit-clear_self w (suc k) =
    let e : clear_bit w (suc k) / 2 ≡ clear_bit (w / 2) k = omega arith in
    rw e (bit-clear_self (w / 2) k)

pub bit-set_ne : (w k j : ℕ) → k ≢ j → bit (set_bit w k) j ≡ bit w j
bit-set_ne w zero zero h = absurd (h refl)
bit-set_ne w zero (suc j) h = let e : (w / 2 * 2 + 1) / 2 ≡ w / 2 = omega arith in rw e
bit-set_ne w (suc k) zero h = ground arith
bit-set_ne w (suc k) (suc j) h =
    let e : set_bit w (suc k) / 2 ≡ set_bit (w / 2) k = omega arith in
    rw e (bit-set_ne (w / 2) k j (λ p. h (ap suc p)))

pub bit-clear_ne : (w k j : ℕ) → k ≢ j → bit (clear_bit w k) j ≡ bit w j
bit-clear_ne w zero zero h = absurd (h refl)
bit-clear_ne w zero (suc j) h = let e : (w / 2 * 2) / 2 ≡ w / 2 = omega arith in rw e
bit-clear_ne w (suc k) zero h = ground arith
bit-clear_ne w (suc k) (suc j) h =
    let e : clear_bit w (suc k) / 2 ≡ clear_bit (w / 2) k = omega arith in
    rw e (bit-clear_ne (w / 2) k j (λ p. h (ap suc p)))

-- Setting a bit that was cleared gives the word back, if the bit was set.
pub set_bit-clear_bit : (w k : ℕ) → bit w k ≡ true → set_bit (clear_bit w k) k ≡ w
set_bit-clear_bit w zero h = ground arith
set_bit-clear_bit w (suc k) h =
    let e : clear_bit w (suc k) / 2 ≡ clear_bit (w / 2) k = omega arith in
    rw e (omega (arith, set_bit-clear_bit (w / 2) k h))

pub bit-zero : (j : ℕ) → bit 0 j ≡ false
bit-zero zero = refl
bit-zero (suc j) = bit-zero j

pub clear_bit-le : (w k : ℕ) → clear_bit w k ≤ w
clear_bit-le w zero = omega arith
clear_bit-le w (suc k) = omega (arith, clear_bit-le (w / 2) k)

-- `a & b` for words of `n` bits
abbrev pub land : ℕ → ℕ → ℕ → ℕ
land zero a b = 0
land (suc n) a b = land n (a / 2) (b / 2) * 2 + min (a % 2) (b % 2)

pub pow_two-suc : (k : ℕ) → 2 ^ suc k ≡ 2 * 2 ^ k
pow_two-suc k = omega (arith, pow-suc 2 k)

pub pow_two-pos : (k : ℕ) → 0 < 2 ^ k
pow_two-pos zero = omega arith
pow_two-pos (suc k) = omega (arith, pow_two-suc k, pow_two-pos k)

mod_double : (m a : ℕ) → a % (2 * m) ≡ a / 2 % m * 2 + a % 2
mod_double m a = omega (
  arith,
  mod-eq-sub-div-mul a (2 * m),
  mod-eq-sub-div-mul (a / 2) m,
  div-div-eq-div-mul a 2 m,
  div-mul-le_self (a / 2) m,
  div-mul-le_self a (2 * m),
  ap (λ (t : ℕ). t * m) (div-div-eq-div-mul a 2 m),
)

div_double : (m a : ℕ) → a / (2 * m) * (2 * m) ≡ a / 2 / m * m * 2
div_double m a = omega (arith, ap (λ (t : ℕ). t * m) (div-div-eq-div-mul a 2 m))

-- `a & ((1 << k) - 1)` is `a % (1 << k)`.
pub land-low_mask : (n k a : ℕ) → k ≤ n → land n a (2 ^ k - 1) ≡ a % 2 ^ k
land-low_mask zero zero a h = omega arith
land-low_mask zero (suc k) a h = absurd (omega arith)
land-low_mask (suc n) zero a h = omega (arith, land-low_mask n zero (a / 2) (omega arith))
land-low_mask (suc n) (suc k) a h =
    let half : (2 ^ suc k - 1) / 2 ≡ 2 ^ k - 1 = omega (arith, pow_two-suc k, pow_two-pos k) in
    let odd : (2 ^ suc k - 1) % 2 ≡ 1 = omega (arith, pow_two-suc k, pow_two-pos k) in
    rw (half, odd, pow_two-suc k)
      (omega (arith, mod_double (2 ^ k) a, land-low_mask n k (a / 2) (omega arith)))

-- `a & ~((1 << k) - 1)` on words of `n` bits clears the low `k` bits.
pub land-high_mask : (n k a : ℕ) → k ≤ n → a < 2 ^ n → land n a (2 ^ n - 2 ^ k) ≡ a / 2 ^ k * 2 ^ k
land-high_mask zero zero a h lt = omega arith
land-high_mask zero (suc k) a h lt = absurd (omega arith)
land-high_mask (suc n) zero a h lt =
    let half : (2 ^ suc n - 1) / 2 ≡ 2 ^ n - 1 = omega (arith, pow_two-suc n, pow_two-pos n) in
    let odd : (2 ^ suc n - 1) % 2 ≡ 1 = omega (arith, pow_two-suc n, pow_two-pos n) in
    rw (half, odd)
      (omega (arith, land-high_mask n 0 (a / 2) (omega arith) (omega (arith, pow_two-suc n))))
land-high_mask (suc n) (suc k) a h lt =
    let half : (2 ^ suc n - 2 ^ suc k) / 2 ≡ 2 ^ n - 2 ^ k =
      omega (arith, pow_two-suc n, pow_two-suc k) in
    let even : (2 ^ suc n - 2 ^ suc k) % 2 ≡ 0 = omega (arith, pow_two-suc n, pow_two-suc k) in
    rw (half, even, pow_two-suc k)
      (omega (
        arith,
        div_double (2 ^ k) a,
        land-high_mask n k (a / 2) (omega arith) (omega (arith, pow_two-suc n)),
      ))

pub set_bit-lt : (n w k : ℕ) → w < 2 ^ n → k < n → set_bit w k < 2 ^ n
set_bit-lt zero w k h lt = absurd (omega arith)
set_bit-lt (suc n) w zero h lt = omega (arith, pow_two-suc n)
set_bit-lt (suc n) w (suc k) h lt =
    omega
      (arith, pow_two-suc n, set_bit-lt n (w / 2) k (omega (arith, pow_two-suc n)) (omega arith))

-- `a | b` and `a & ~b`, on words of `n` bits.
abbrev pub lor : ℕ → ℕ → ℕ → ℕ
lor zero a b = 0
lor (suc n) a b = lor n (a / 2) (b / 2) * 2 + max (a % 2) (b % 2)

abbrev pub but_not : ℕ → ℕ → ℕ → ℕ
but_not zero a b = 0
but_not (suc n) a b = but_not n (a / 2) (b / 2) * 2 + (a % 2 - b % 2)

pub bit-land : (n a b j : ℕ) → j < n → bit (land n a b) j ≡ (bit a j && bit b j)
bit-land zero a b j h = absurd (omega arith)
bit-land (suc n) a b zero h = ground arith
bit-land (suc n) a b (suc j) h =
    let half : land (suc n) a b / 2 ≡ land n (a / 2) (b / 2) = omega arith in
    rw half (bit-land n (a / 2) (b / 2) j (omega (arith, h)))

pub bit-lor : (n a b j : ℕ) → j < n → bit (lor n a b) j ≡ (bit a j || bit b j)
bit-lor zero a b j h = absurd (omega arith)
bit-lor (suc n) a b zero h = ground arith
bit-lor (suc n) a b (suc j) h =
    let half : lor (suc n) a b / 2 ≡ lor n (a / 2) (b / 2) = omega arith in
    rw half (bit-lor n (a / 2) (b / 2) j (omega (arith, h)))

pub bit-but_not : (n a b j : ℕ) → j < n → bit (but_not n a b) j ≡ (bit a j && not (bit b j))
bit-but_not zero a b j h = absurd (omega arith)
bit-but_not (suc n) a b zero h = ground arith
bit-but_not (suc n) a b (suc j) h =
    let half : but_not (suc n) a b / 2 ≡ but_not n (a / 2) (b / 2) = omega arith in
    rw half (bit-but_not n (a / 2) (b / 2) j (omega (arith, h)))

-- Shifts of words: a bound on `x << o`, and one on `a >> d`.
pub shift_left-lt : (n o l x : ℕ) → o + l ≤ n → x < 2 ^ l → x * 2 ^ o < 2 ^ n
shift_left-lt n zero l x h lt =
    let le : 2 ^ l ≤ 2 ^ n = pow-le-pow_right (omega arith) (omega (arith, h)) in
    omega (arith, le, lt)
shift_left-lt zero (suc o) l x h lt = absurd (omega arith)
shift_left-lt (suc n) (suc o) l x h lt =
    let half = shift_left-lt n o l x (omega (arith, h)) lt in
    let e : x * 2 ^ suc o ≡ x * 2 ^ o * 2 = rw (pow_two-suc o) (omega arith) in
    omega (arith, half, e, pow_two-suc n)

pub shift_right-lt : (d l n a : ℕ) → d + l ≡ n → a < 2 ^ n → a / 2 ^ d < 2 ^ l
shift_right-lt zero l n a h lt = let e : l ≡ n = omega arith in rw e (omega (arith, lt))
shift_right-lt (suc d) l zero a h lt = absurd (omega arith)
shift_right-lt (suc d) l (suc n) a h lt =
    let half = shift_right-lt d l n (a / 2) (omega (arith, h)) (omega (arith, lt, pow_two-suc n)) in
    let e : a / 2 ^ suc d ≡ a / 2 / 2 ^ d =
      rw (pow_two-suc d) (sym (div-div-eq-div-mul a 2 (2 ^ d))) in
    rw e half

-- `a ^ b`, on words of `n` bits.
abbrev pub lxor : ℕ → ℕ → ℕ → ℕ
lxor zero a b = 0
lxor (suc n) a b = lxor n (a / 2) (b / 2) * 2 + (a % 2 + b % 2) % 2
