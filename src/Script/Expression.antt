-- ===== src/Script/Expression.antt =====
-- The evaluator of haret-j820gnu/src/script.cpp: `get_expression`, `GetVar` and `get_args`.
use jornada.Common.{
  ℕ, zero, suc, ◌+◌, ◌-◌, ◌*◌, ◌/◌, ◌%◌, ◌^◌, Bool, true, false, not, ◌||◌, List, [], ◌∷◌,
  if◌then◌else◌, ◌==◌, ltb, length, Option, none, some, u32, get_or,
}
use jornada.Common.Bits.{land, lor, lxor}
use jornada.Script.Text.{get_token, peek_char, isdigit}
use jornada.Script.Number.{strtoul}
use jornada.Script.Vars.{
  Kind, VarDescriptor, var_integer, var_string, var_bit_set, var_ro_func, var_rw_func, bit_get,
  find_var,
}

-- How a routine ends: with an answer or a complaint, each with the text that is left and the token in
-- the storage of `get_token`; by a division by 0; by a complaint that takes a character for the address of a text; or
-- for want of fuel.
pub data Outcome (A : Type 0) : Type 0 where
  ok : A → List ℕ → List ℕ → Outcome A
  failed : List ℕ → List ℕ → Outcome A
  crashed : Outcome A
  wild : Outcome A
  spent : Outcome A

abbrev pub and_then : {A B : Type 0} → Outcome A → (A → List ℕ → List ℕ → Outcome B) → Outcome B
and_then (ok a s x) f = f a s x
and_then (failed s x) f = failed s x
and_then crashed f = crashed
and_then wild f = wild
and_then spent f = spent

-- `get_expression` as its callers see it: the priority, PAREN_EXPECT, PAREN_EAT and the text.
abbrev pub Evaluator : Type 0
Evaluator = ℕ → Bool → Bool → List ℕ → Outcome ℕ

-- The text after the character `c`, if it begins with it.
abbrev pub after : ℕ → List ℕ → Option (List ℕ)
after c [] = none
after c (d ∷ s) = if d == c then some s else none

module _ (expr : Evaluator) where
  -- The loop of `get_args`.
  unfoldable pub args_from : ℕ → List ℕ → List ℕ → Outcome (List ℕ)
  unfolding peek_char
  args_from zero s x = ok [] s x
  args_from (suc zero) s x = and_then (expr 0 true true s) (λ v r y. ok (v ∷ []) r y)
  args_from (suc (suc n)) s x = and_then (expr 0 false false s) (λ v r y.
      elim (after b',' (peek_char r)) [
        | none ↦ failed (peek_char r) y
        | some r' ↦ and_then (args_from (suc n) r' y) (λ vs q z. ok (v ∷ vs) q z)
      ])

  unfoldable pub get_args : ℕ → List ℕ → List ℕ → Outcome (List ℕ)
  unfolding args_from
  get_args count s x = if count == 0 then ok [] s x else elim (after b'(' (peek_char s)) [
    | none ↦ failed (peek_char s) x
    | some r ↦ args_from count r x
  ]

  unfoldable pub read_var : Kind → List ℕ → List ℕ → Outcome ℕ
  unfolding get_args bit_get
  read_var (var_integer v) s x = ok v s x
  read_var (var_string address) s x = ok address s x
  read_var (var_bit_set bs size) s x = and_then (get_args 1 s x) (λ vs r y.
      let i = get_or vs 0 0 in
      if ltb size i then failed r y else ok (if bit_get bs i then 1 else 0) r y)
  read_var (var_ro_func f count) s x = and_then (get_args count s x) (λ vs r y. ok (u32 (f vs)) r y)
  read_var (var_rw_func f count) s x = and_then (get_args count s x) (λ vs r y. ok (u32 (f vs)) r y)

  unfoldable pub get_var : List VarDescriptor → List ℕ → List ℕ → Outcome ℕ
  unfolding find_var read_var
  get_var vars s x = elim (find_var x vars) [ none ↦ failed s x | some k ↦ read_var k s x ]

  -- The table of the script, and then that of the user: for the token that is then in the storage.
  unfoldable pub get_either : List VarDescriptor → List VarDescriptor → List ℕ → List ℕ → Outcome ℕ
  unfolding get_var
  get_either script user s x = elim (get_var script s x) [
    | ok v r y ↦ ok v r y
    | failed r y ↦ get_var user r y
    | crashed ↦ crashed
    | wild ↦ wild
    | spent ↦ spent
  ]

  -- The unary operators and the opening parenthesis, for the text that `peek_char` leaves.
  unfoldable pub unary : Bool → List ℕ → List ℕ → Outcome ℕ
  unary expect [] x = failed [] x
  unary expect (c ∷ s) x =
      if c == b'('
      then expr 0 true true s
      else if c == b'+'
      then expr 3 expect false s
      else if c == b'-'
      then and_then (expr 3 expect false s) (λ v r y. ok (u32 (2 ^ 32 - v)) r y)
      else if c == b'~'
      then and_then (expr 3 expect false s) (λ v r y. ok (2 ^ 32 - 1 - v) r y)
      else failed (c ∷ s) x

  -- The complaint on a number with other characters after it is given the first of these as the address of a text.
  unfoldable pub number : List ℕ → List ℕ → Outcome ℕ
  number s x = let (v, err) = strtoul x in if length err == 0 then ok v s x else wild

  -- The first half of `get_expression`, with the token and what follows it.
  unfoldable pub operand_at :
      List VarDescriptor → List VarDescriptor → Bool → List ℕ → List ℕ → Outcome ℕ
  unfolding unary get_either isdigit
  operand_at script user expect s [] = unary expect (peek_char s) []
  operand_at script user expect s (c ∷ x) =
      if isdigit c then number s (c ∷ x) else get_either script user s (c ∷ x)

  unfoldable pub operand : List VarDescriptor → List VarDescriptor → Bool → List ℕ → Outcome ℕ
  unfolding operand_at get_token
  operand script user expect s = let (x, r) = get_token s in operand_at script user expect r x

-- The priority of a binary operator, 0 for another character.
unfoldable pub priority_of : ℕ → ℕ
priority_of op =
    if op == b'+' || op == b'-' || op == b'|' || op == b'^'
    then 1
    else if op == b'*' || op == b'/' || op == b'%' || op == b'&'
    then 2
    else 0

-- The effect of an operator on words of 32 bits. None for a division by 0.
unfoldable pub apply_op : ℕ → ℕ → ℕ → Option ℕ
apply_op op v b =
    if op == b'+'
    then some (u32 (v + b))
    else if op == b'-'
    then some (u32 (v + 2 ^ 32 - b))
    else if op == b'|'
    then some (lor 32 v b)
    else if op == b'^'
    then some (lxor 32 v b)
    else if op == b'*'
    then some (u32 (v * b))
    else if op == b'&'
    then some (land 32 v b)
    else if b == 0
    then none
    else if op == b'/'
    then some (v / b)
    else some (v % b)

-- One turn of the loop over the operators, for the text that `peek_char` leaves; `again` is the next turn.
unfoldable pub operate :
    Evaluator
    → (ℕ → List ℕ → List ℕ → Outcome ℕ)
    → (priority : ℕ) (expect eat : Bool) (v : ℕ) (s x : List ℕ) → Outcome ℕ
unfolding priority_of apply_op
operate expr again priority expect eat v [] x = if expect then failed [] x else ok v [] x
operate expr again priority expect eat v (op ∷ s) x =
    let p = priority_of op in
    if not (p == 0)
    then (if ltb p priority
        then ok v (op ∷ s) x
        else and_then (expr p expect false s)
            (λ b r y. elim (apply_op op v b) [ none ↦ crashed | some v' ↦ again v' r y ]))
    else if op == b')'
    then (if not expect then failed (op ∷ s) x else ok v (if eat then s else op ∷ s) x)
    else if expect
    then failed (op ∷ s) x
    else ok v (op ∷ s) x

-- Where the routine is: at its operand, or in its loop with a value and the token.
pub data Place : Type 0 where
  start : Place
  operators : ℕ → List ℕ → Place

unfoldable pub run : List VarDescriptor → List VarDescriptor → ℕ → Place → Evaluator
unfolding operand operate peek_char number strtoul
run script user zero place p expect eat s = spent
run script user (suc f) start p expect eat s =
    and_then (operand (run script user f start) script user expect s)
      (λ v r x. run script user f (operators v x) p expect eat r)
run script user (suc f) (operators v x) p expect eat s =
    operate (run script user f start) (λ v' r y. run script user f (operators v' y) p expect eat r)
      p expect eat v (peek_char s) x

unfoldable pub get_expression : List VarDescriptor → List VarDescriptor → Evaluator
unfolding run
get_expression script user p expect eat s = run script user (2 * length s + 2) start p expect eat s
