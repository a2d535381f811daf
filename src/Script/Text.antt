-- ===== src/Script/Text.antt =====
-- The text of a script line in haret-j820gnu/src/script.cpp: the classes of characters, `get_token`,
-- `peek_char` and `IsToken`. A text is the list of its bytes before the closing zero.
use jornada.Common.{
  ℕ, zero, suc, ◌-◌, Bool, true, false, not, ◌&&◌, ◌||◌, List, [], ◌∷◌, ◌++◌, if◌then◌else◌, ◌==◌,
  ltb, leb, length,
}

unfoldable pub isspace : ℕ → Bool
isspace c = leb c 13 || c == 32

unfoldable pub isdigit : ℕ → Bool
isdigit c = leb b'0' c && leb c b'9'

unfoldable pub isalpha : ℕ → Bool
isalpha c = (leb b'A' c && leb c b'Z') || (leb b'a' c && leb c b'z')

unfoldable pub isalnum : ℕ → Bool
unfolding isalpha isdigit
isalnum c = isalpha c || isdigit c

unfoldable pub isxdigit : ℕ → Bool
isxdigit c =
    (leb b'0' c && leb c b'9') || ((leb b'A' c && leb c b'F') || (leb b'a' c && leb c b'f'))

-- The C library's, for ASCII.
unfoldable pub toupper : ℕ → ℕ
toupper c = if leb b'a' c && leb c b'z' then c - 32 else c

-- `quotes`
unfoldable pub is_quote : ℕ → Bool
is_quote c = c == 34 || c == 39

-- The loop that skips spaces, which is the whole of `peek_char`.
unfoldable pub peek_char : List ℕ → List ℕ
unfolding isspace
peek_char [] = []
peek_char (c ∷ s) = if isspace c then peek_char s else c ∷ s

-- The bytes up to the first that fails the test, and the others.
unfoldable pub span : (ℕ → Bool) → List ℕ → List ℕ × List ℕ
span p [] = ([], [])
span p (c ∷ s) = let (t, r) = span p s in if p c then (c ∷ t, r) else ([], c ∷ s)

-- The first `n` bytes, and the others.
unfoldable pub split_at : ℕ → List ℕ → List ℕ × List ℕ
split_at zero s = ([], s)
split_at (suc n) [] = ([], [])
split_at (suc n) (c ∷ s) = let (t, r) = split_at n s in (c ∷ t, r)

-- A token that does not fit the storage of 1000 bytes is cut.
unfoldable pub cut_at : ℕ → List ℕ × List ℕ → List ℕ × List ℕ
unfolding split_at
cut_at n (t, r) = let (t', r') = split_at n t in if ltb n (length t) then (t', r' ++ r) else (t, r)

unfoldable pub cut : List ℕ × List ℕ → List ℕ × List ℕ
unfolding cut_at
cut = cut_at 999

abbrev pub drop_one : List ℕ → List ℕ
drop_one [] = []
drop_one (_ ∷ s) = s

-- What follows the spaces, for a text that was `s`.
unfoldable pub token_at : List ℕ → List ℕ → List ℕ × List ℕ
unfolding is_quote cut isalnum span
token_at s [] = ([], s)
token_at s (q ∷ x) =
    let (t, r) = cut (span (λ c. not (c == q)) x) in
    if is_quote q then (t, drop_one r) else cut (span isalnum (q ∷ x))

-- The token, and what is left of the text.
unfoldable pub get_token : List ℕ → List ℕ × List ℕ
unfolding peek_char token_at
get_token s = token_at s (peek_char s)

-- The second half of `IsToken`: the optional suffix.
unfoldable pub in_suffix : List ℕ → List ℕ → Bool
unfolding toupper
in_suffix [] mask = true
in_suffix (t ∷ tok) [] = false
in_suffix (t ∷ tok) (m ∷ mask) = if toupper t == m then in_suffix tok mask else false

-- 124 is the bar that ends the mandatory part.
unfoldable pub is_token : List ℕ → List ℕ → Bool
unfolding toupper in_suffix
is_token [] [] = true
is_token (t ∷ tok) [] = false
is_token [] (m ∷ mask) = m == 124
is_token (t ∷ tok) (m ∷ mask) =
    if toupper t == m
    then is_token tok mask
    else if m == 124
    then in_suffix (t ∷ tok) mask
    else false

-- `_stricmp`, as a test.
unfoldable pub same_name : List ℕ → List ℕ → Bool
unfolding toupper
same_name [] [] = true
same_name [] (b ∷ bs) = false
same_name (a ∷ as') [] = false
same_name (a ∷ as') (b ∷ bs) = if toupper a == toupper b then same_name as' bs else false
