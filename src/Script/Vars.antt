-- ===== src/Script/Vars.antt =====
-- The variables of haret-j820gnu/src/script.cpp: their kinds, the bit sets, and the search by name.
use jornada.Common.{
  ℕ, ◌/◌, ◌%◌, ◌≡◌, ◌≢◌, ◌<◌, Bool, true, false, List, [], ◌∷◌, Option, none, some, if◌then◌else◌,
  ◌==◌, length, arith, Bool-cases, inl, inr, refl, get_or, set, get_or-set_self, get_or-set_ne,
}
use jornada.Common.Bits.{
  bit, set_bit, clear_bit, bit-set_self, bit-clear_self, bit-set_ne, bit-clear_ne,
}
use jornada.Script.Text.{same_name}

-- `varType` with the value that the descriptor points to. A function is seen as its answers to reads.
pub data Kind : Type 0 where
  var_integer : ℕ → Kind
  var_string : ℕ → Kind
  var_bit_set : List ℕ → ℕ → Kind
  var_ro_func : (List ℕ → ℕ) → ℕ → Kind
  var_rw_func : (List ℕ → ℕ) → ℕ → Kind

-- A descriptor: the name and the rest. The text of the description is left out.
pub record VarDescriptor : Type 0 where
  pub name : List ℕ
  pub kind : Kind

unfoldable pub bit_set : List ℕ → ℕ → Bool → List ℕ
bit_set bs num state =
    let w = get_or bs (num / 32) 0 in
    set bs (num / 32) (if state then set_bit w (num % 32) else clear_bit w (num % 32))

unfoldable pub bit_get : List ℕ → ℕ → Bool
bit_get bs num = bit (get_or bs (num / 32) 0) (num % 32)

unfoldable pub find_var : List ℕ → List VarDescriptor → Option Kind
unfolding same_name
find_var vn [] = none
find_var vn (d ∷ vars) = if same_name vn d.name then some d.kind else find_var vn vars

-- `NewVar`, for an integer variable: it goes to the end of the table with the value 0.
unfoldable pub new_var : List ℕ → List VarDescriptor → List VarDescriptor
new_var vn [] = record { name = vn; kind = var_integer 0 } ∷ []
new_var vn (d ∷ vars) = d ∷ new_var vn vars

-- `w` with bit `a` as the state says.
abbrev pub with_bit : ℕ → ℕ → Bool → ℕ
with_bit w a state = if state then set_bit w a else clear_bit w a

bit-with_bit_self : (w a : ℕ) (state : Bool) → bit (with_bit w a state) a ≡ state
bit-with_bit_self w a true = bit-set_self w a
bit-with_bit_self w a false = bit-clear_self w a

bit-with_bit_ne : (w a b : ℕ) (state : Bool) → a ≢ b → bit (with_bit w a state) b ≡ bit w b
bit-with_bit_ne w a b true e = bit-set_ne w a b e
bit-with_bit_ne w a b false e = bit-clear_ne w a b e

bit-with_bit :
    (w a b : ℕ) (state : Bool) → bit (with_bit w a state) b ≡ (if a == b then state else bit w b)
bit-with_bit w a b state = elim (Bool-cases (a == b)) [
  | inl e ↦ let same : b ≡ a = ground (arith, e) in rw (e, same) (bit-with_bit_self w a state)
  | inr e ↦ let apart : a ≢ b = ground (arith, e) in rw e (bit-with_bit_ne w a b state apart)
]

-- Writing a bit of a bit set changes that bit and no other.
bit_get-bit_set :
    (bs : List ℕ) (i j : ℕ) (state : Bool)
    → i / 32 < length bs
    → bit_get (bit_set bs i state) j ≡ (if i == j then state else bit_get bs j)
unfolding bit_get bit_set
bit_get-bit_set bs i j state within = elim (Bool-cases (i / 32 == j / 32)) [
  | inr e ↦
      let apart : i / 32 ≢ j / 32 = ground (arith, e) in
      let other : (i == j) ≡ false = ground (arith, e) in
      rw (get_or-set_ne bs (with_bit (get_or bs (i / 32) 0) (i % 32) state) 0 apart, other) refl
  | inl e ↦
      let same : j / 32 ≡ i / 32 = ground (arith, e) in
      let tests : (i % 32 == j % 32) ≡ (i == j) = ground (arith, e) in
      let w = get_or bs (i / 32) 0 in
      rw (same, get_or-set_self bs (i / 32) (with_bit w (i % 32) state) 0 within, ← tests)
        (bit-with_bit w (i % 32) (j % 32) state)
]
