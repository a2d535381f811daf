-- ===== src/Script/Chain.antt =====
-- The order in which the evaluator of haret-j820gnu/src/script.cpp applies operators of one priority.
use jornada.Common.{
  ℕ, zero, suc, ◌+◌, ◌-◌, ◌*◌, ◌^◌, ◌≡◌, ◌≤◌, ◌<◌, Bool, true, false, List, [], ◌∷◌, ◌++◌, min, map,
  ◌==◌, length, arith, refl, ap, Option, none, some, length-append, le→ltb, ◌∙◌,
}
use mathlib.Core.List.{append-nil}
use jornada.Script.Text.{
  get_token, token_at, cut, cut_at, span, peek_char, isspace, isdigit, isalnum, is_quote,
}
use jornada.Script.Number.{digit, value, AreDigits, strtoul-decimal}
use jornada.Script.Vars.{VarDescriptor}
use jornada.Script.Expression.{
  Evaluator, Outcome, ok, crashed, and_then, number, operand_at, operand, priority_of, apply_op,
  operate, start, operators, run, get_expression,
}

-- A decimal number that does not begin with 0: its first digit and the others.
pub record Decimal : Type 0 where
  pub first : ℕ
  pub others : List ℕ

abbrev pub token : Decimal → List ℕ
token n = n.first ∷ n.others

-- It fits the storage of a token.
pub record IsDecimal (n : Decimal) : Type 0 where
  pub nonzero : (n.first == b'0') ≡ false
  pub digits : AreDigits 10 (token n)
  pub fits : length (token n) ≤ 999

abbrev pub word : Decimal → ℕ
word n = min (value 10 (map digit (token n)) 0) (2 ^ 32 - 1)

-- A number, and then operators of one priority with a number after each, as text.
abbrev pub show_chain : Decimal → List (ℕ × Decimal) → List ℕ
show_chain n [] = token n
show_chain n ((op, m) ∷ rest) = token n ++ (op ∷ show_chain m rest)

-- The value where the operators are applied from the last one to the first. None for a division by 0.
abbrev pub from_right : Decimal → List (ℕ × Decimal) → Option ℕ
from_right n [] = some (word n)
from_right n ((op, m) ∷ rest) = elim (from_right m rest) [
  | none ↦ none
  | some b ↦ apply_op op (word n) b
]

abbrev pub last_number : Decimal → List (ℕ × Decimal) → Decimal
last_number n [] = n
last_number n ((op, m) ∷ rest) = last_number m rest

abbrev pub IsChain : ℕ → Decimal → List (ℕ × Decimal) → Type 0
IsChain q n [] = IsDecimal n
IsChain q n ((op, m) ∷ rest) = IsDecimal n × (priority_of op ≡ q) × IsChain q m rest

-- The text ends a token.
abbrev Stops : List ℕ → Type 0
Stops [] = Unit {0}
Stops (c ∷ s) = isalnum c ≡ false

digit-isalnum :
    (c : ℕ)
    → digit c < 10
    → (isalnum c ≡ true) × (isdigit c ≡ true) × (isspace c ≡ false) × (is_quote c ≡ false)
unfolding digit isalnum isdigit isspace is_quote
digit-isalnum c h = ground arith

span-digits : (s r : List ℕ) → AreDigits 10 s → Stops r → span isalnum (s ++ r) ≡ (s, r)
unfolding span
span-digits [] [] h stop = refl
span-digits [] (c ∷ r) h stop = rw stop refl
span-digits (c ∷ s) r (d, h) stop = rw ((digit-isalnum c d).0, span-digits s r h stop) refl

get_token-token :
    (n : Decimal) (r : List ℕ) → IsDecimal n → Stops r → get_token (token n ++ r) ≡ (token n, r)
unfolding get_token token_at peek_char cut cut_at
get_token-token n r v stop =
    let (_, _, space, quote) = digit-isalnum n.first v.digits.0 in
    rw (space, quote, span-digits (token n) r v.digits stop, le→ltb 999 (length (token n)) v.fits)
      refl

number-token :
    (expr : Evaluator) (r : List ℕ) (n : Decimal)
    → IsDecimal n
    → number expr r (token n) ≡ ok (word n) r (token n)
unfolding number
number-token expr r n v = rw (strtoul-decimal n.first n.others v.nonzero v.digits) refl

operand-token :
    (expr : Evaluator) (script user : List VarDescriptor) (expect : Bool) (n : Decimal) (r : List ℕ)
    → IsDecimal n
    → Stops r
    → operand expr script user expect (token n ++ r) ≡ ok (word n) r (token n)
unfolding operand operand_at
operand-token expr script user expect n r v stop =
    rw (get_token-token n r v stop, (digit-isalnum n.first v.digits.0).1) (number-token expr r n v)

-- How an evaluation of a whole text ends.
abbrev pub answer : Option ℕ → List ℕ → Outcome ℕ
answer none x = crashed
answer (some v) x = ok v [] x

-- An operator is itself what `peek_char` finds, and ends a number.
operator_lem :
    (op : ℕ) → (priority_of op == 0) ≡ false → (isspace op ≡ false) × (isalnum op ≡ false)
unfolding priority_of isspace isalnum
operator_lem op h = ground arith

-- The value so far, and what the rest of the chain gives.
abbrev combine : ℕ → ℕ → Option ℕ → Option ℕ
combine op v none = none
combine op v (some b) = apply_op op v b

combine-elim :
    (op v : ℕ) (o : Option ℕ) → combine op v o ≡ (elim o [ none ↦ none | some b ↦ apply_op op v b ])
combine-elim op v none = refl
combine-elim op v (some b) = refl

abbrev go_on : (ℕ → List ℕ → List ℕ → Outcome ℕ) → List ℕ → Option ℕ → Outcome ℕ
go_on again y none = crashed
go_on again y (some v) = again v [] y

elim-go_on :
    (again : ℕ → List ℕ → List ℕ → Outcome ℕ) (y : List ℕ) (o : Option ℕ)
    → (elim o [ none ↦ crashed | some v' ↦ again v' [] y ]) ≡ go_on again y o
elim-go_on again y none = refl
elim-go_on again y (some w) = refl

combined :
    (again : ℕ → List ℕ → List ℕ → Outcome ℕ) (op v : ℕ) (y : List ℕ) (o : Option ℕ)
    → and_then
        (answer o y)
        (λ b r z. elim (apply_op op v b) [ none ↦ crashed | some v' ↦ again v' r z ])
      ≡ go_on again y (combine op v o)
combined again op v y none = refl
combined again op v y (some b) = elim-go_on again y (apply_op op v b)

operate-op :
    (expr : Evaluator) (again : ℕ → List ℕ → List ℕ → Outcome ℕ) (p q op v : ℕ) (s x y : List ℕ)
    (o : Option ℕ)
    → priority_of op ≡ q
    → 1 ≤ q
    → p ≤ q
    → expr q false false s ≡ answer o y
    → operate expr again p false false v (op ∷ s) x ≡ go_on again y (combine op v o)
unfolding operate
operate-op expr again p q op v s x y o e hq hp inner =
    let binary : (q == 0) ≡ false = ground (arith, hq) in
    rw (e, binary, le→ltb q p hp, inner) (combined again op v y o)

module _ (script user : List VarDescriptor) where
  run-start :
      (f p : ℕ) (n : Decimal) (r : List ℕ)
      → IsDecimal n
      → Stops r
      → run script user (suc f) start p false false (token n ++ r)
        ≡ run script user f (operators (word n) (token n)) p false false r
  unfolding run
  run-start f p n r v stop =
      rw (operand-token (run script user f start) script user false n r v stop) refl

  run-end :
      (f p v : ℕ) (x : List ℕ)
      → run script user (suc f) (operators v x) p false false [] ≡ ok v [] x
  unfolding run operate peek_char
  run-end f p v x = refl

  ended :
      (f p : ℕ) (y : List ℕ) (o : Option ℕ)
      → go_on (λ v r z. run script user (suc f) (operators v z) p false false r) y o ≡ answer o y
  ended f p y none = refl
  ended f p y (some v) = run-end f p v y

  -- After an operator, the answer for the rest of the text decides.
  run-operator :
      (f p q op v : ℕ) (s x y : List ℕ) (o : Option ℕ)
      → priority_of op ≡ q
      → 1 ≤ q
      → p ≤ q
      → run script user (suc f) start q false false s ≡ answer o y
      → run script user (suc (suc f)) (operators v x) p false false (op ∷ s)
        ≡ answer (combine op v o) y
  unfolding run peek_char
  run-operator f p q op v s x y o e hq hp inner =
      let binary : (priority_of op == 0) ≡ false = rw e (ground (arith, hq)) in
      let again =
        λ (v' : ℕ) (r y' : List ℕ). run script user (suc f) (operators v' y') p false false r in
      rw (operator_lem op binary).0 (
        operate-op (run script user (suc f) start) again p q op v s x y o e hq hp inner
        ∙ ended f p y (combine op v o))

  run-chain :
      (f p q : ℕ) (n : Decimal) (rest : List (ℕ × Decimal))
      → 1 ≤ q
      → p ≤ q
      → IsChain q n rest
      → 2 * length (show_chain n rest) + 2 ≤ f
      → run script user f start p false false (show_chain n rest)
        ≡ answer (from_right n rest) (token (last_number n rest))
  run-chain zero p q n rest hq hp v enough = absurd (omega arith)
  run-chain (suc zero) p q n rest hq hp v enough = absurd (omega arith)
  run-chain (suc (suc f)) p q n [] hq hp v enough =
      let whole = run-start (suc f) p n [] v tt ∙ run-end f p (word n) (token n) in
      rw (append-nil (token n)) at whole
  run-chain (suc (suc zero)) p q n ((op, m) ∷ rest) hq hp (d, e, v) enough = absurd (omega (arith))
  run-chain (suc (suc (suc f))) p q n ((op, m) ∷ rest) hq hp (d, e, v) enough =
      let binary : (priority_of op == 0) ≡ false = rw e (ground (arith, hq)) in
      let text = show_chain m rest in
      let len = length-append {0} n.others (op ∷ text) in
      let inner = run-chain (suc f) q q m rest hq (omega arith) v (omega arith) in
      let y = token (last_number m rest) in
      run-start (suc (suc f)) p n (op ∷ text) d (operator_lem op binary).1
      ∙ run-operator f p q op (word n) text (token n) y (from_right m rest) e hq hp inner
      ∙ ap (λ o. answer o y) (combine-elim op (word n) (from_right m rest))

-- A text of decimal numbers, none of which begins with 0 and each of which fits a word, joined by
-- binary operators of one priority, has the value that comes of applying the operators from the last
-- to the first, with the last number in the storage of the token; a division by 0 among them ends
-- the program.
pub get_expression-chain :
    (script user : List VarDescriptor) (p q : ℕ) (n : Decimal) (rest : List (ℕ × Decimal))
    → 1 ≤ q
    → p ≤ q
    → IsChain q n rest
    → get_expression script user p false false (show_chain n rest)
      ≡ answer (from_right n rest) (token (last_number n rest))
unfolding get_expression
get_expression-chain script user p q n rest hq hp v =
    run-chain script user (2 * length (show_chain n rest) + 2) p q n rest hq hp v (omega arith)
