-- ===== src/Script/Keywords.antt =====
-- The abbreviated keywords of haret-j820gnu/src/script.cpp: what `IsToken` accepts.
use jornada.Common.{ℕ, ◌≡◌, Bool, true, false, ◌&&◌, List, [], ◌∷◌, ◌++◌, map, ◌==◌, arith, refl}
use jornada.Script.Text.{toupper, in_suffix, is_token}

-- The second text begins with the first.
abbrev pub is_prefix : List ℕ → List ℕ → Bool
is_prefix [] ys = true
is_prefix (x ∷ xs) [] = false
is_prefix (x ∷ xs) (y ∷ ys) = x == y && is_prefix xs ys

abbrev pub upper : List ℕ → List ℕ
upper = map toupper

-- No byte is the bar.
abbrev pub HasNoBar : List ℕ → Type 0
HasNoBar [] = Unit {0}
HasNoBar (c ∷ s) = ((c == 124) ≡ false) × HasNoBar s

in_suffix_lem : (tok mask : List ℕ) → in_suffix tok mask ≡ is_prefix (upper tok) mask
unfolding in_suffix
in_suffix_lem [] mask = refl
in_suffix_lem (t ∷ tok) [] = refl
in_suffix_lem (t ∷ tok) (m ∷ mask) = ground (arith, in_suffix_lem tok mask)

-- A keyword.
is_token_lem :
    (tok must may : List ℕ)
    → HasNoBar (upper tok)
    → HasNoBar must
    → is_token tok (must ++ (124 ∷ may))
      ≡ (is_prefix must (upper tok) && is_prefix (upper tok) (must ++ may))
unfolding is_token
is_token_lem [] [] may t m = refl
is_token_lem [] (c ∷ must) may t (bar, m) = rw bar refl
is_token_lem (t ∷ tok) [] may (bar, ts) m = rw bar (in_suffix_lem (t ∷ tok) may)
is_token_lem (t ∷ tok) (c ∷ must) may (bar, ts) (bar', m) =
    ground (arith, is_token_lem tok must may ts m, bar')
