-- ===== src/Script/Total.antt =====
-- The evaluator of haret-j820gnu/src/script.cpp ends: its fuel is enough for every text.
use jornada.Common.{
  ℕ, zero, suc, ◌+◌, ◌*◌, ◌≡◌, ◌≤◌, ◌<◌, ◌⊎◌, Bool, true, false, not, List, [], ◌∷◌, ◌==◌, ltb,
  length, arith, Bool-cases, inl, inr, refl, Option, none, some, get_or, length-append,
}
use jornada.Script.Text.{
  get_token, token_at, cut, cut_at, split_at, span, peek_char, isdigit, drop_one, isalnum,
}
use jornada.Script.Number.{strtoul}
use jornada.Script.Vars.{
  Kind, VarDescriptor, var_integer, var_string, var_bit_set, var_ro_func, var_rw_func, find_var,
}
use jornada.Script.Expression.{
  Outcome, ok, failed, crashed, wild, spent, and_then, Evaluator, after, args_from, get_args,
  read_var, get_var, get_either, unary, number, operand_at, operand, priority_of, apply_op, operate,
  Place, start, operators, run, get_expression,
}

peek_char-le : (s : List ℕ) → length (peek_char s) ≤ length s
unfolding peek_char
peek_char-le [] = omega arith
peek_char-le (c ∷ s) = ground (arith, peek_char-le s)

length-span : (p : ℕ → Bool) (s : List ℕ) → length (span p s).0 + length (span p s).1 ≡ length s
unfolding span
length-span p [] = refl
length-span p (c ∷ s) = ground (arith, length-span p s)

length-split_at :
    (n : ℕ) (s : List ℕ) → length (split_at n s).0 + length (split_at n s).1 ≡ length s
unfolding split_at
length-split_at zero s = omega arith
length-split_at (suc n) [] = refl
length-split_at (suc n) (c ∷ s) = omega (arith, length-split_at n s)

length-cut_at :
    (n : ℕ) (p : List ℕ × List ℕ)
    → length (cut_at n p).0 + length (cut_at n p).1 ≡ length p.0 + length p.1
unfolding cut_at
length-cut_at n (t, r) = ground (arith, length-split_at n t, length-append {0} (split_at n t).1 r)

length-cut : (p : List ℕ × List ℕ) → length (cut p).0 + length (cut p).1 ≡ length p.0 + length p.1
unfolding cut
length-cut p = length-cut_at 999 p

drop_one-le : (s : List ℕ) → length (drop_one s) ≤ length s
drop_one-le [] = omega arith
drop_one-le (c ∷ s) = omega arith

length-token_at :
    (s x : List ℕ)
    → length x ≤ length s
    → length (token_at s x).0 + length (token_at s x).1 ≤ length s
unfolding token_at
length-token_at s [] h = omega arith
length-token_at s (q ∷ x) h =
    let quoted = span (λ c. not (c == q)) x in
    let word = span isalnum (q ∷ x) in
    ground (
      arith,
      length-cut quoted,
      length-cut word,
      length-span (λ (c : ℕ). not (c == q)) x,
      length-span isalnum (q ∷ x),
      drop_one-le (cut quoted).1,
    )

-- A token and what is left of the text are no longer than the text.
length-get_token : (s : List ℕ) → length (get_token s).0 + length (get_token s).1 ≤ length s
unfolding get_token
length-get_token s = length-token_at s (peek_char s) (peek_char-le s)

-- The text that an outcome leaves is no longer than `n`, and the fuel did not run out.
abbrev pub Ends : {A : Type 0} → ℕ → Outcome A → Type 0
Ends n (ok a r x) = length r ≤ n
Ends n (failed r x) = length r ≤ n
Ends n crashed = Unit {0}
Ends n wild = Unit {0}
Ends n spent = ⊥

Ends-le : {A : Type 0} {m n : ℕ} (o : Outcome A) → m ≤ n → Ends m o → Ends n o
Ends-le (ok a r x) le h = omega arith
Ends-le (failed r x) le h = omega arith
Ends-le crashed le h = tt
Ends-le wild le h = tt
Ends-le spent le h = h

and_then-Ends :
    {A B : Type 0} {n : ℕ} (o : Outcome A) (f : A → List ℕ → List ℕ → Outcome B)
    → Ends n o
    → ((a : A) (r x : List ℕ) → length r ≤ n → Ends n (f a r x))
    → Ends n (and_then o f)
and_then-Ends (ok a r x) f h k = k a r x h
and_then-Ends (failed r x) f h k = h
and_then-Ends crashed f h k = tt
and_then-Ends wild f h k = tt
and_then-Ends spent f h k = h

after-lt :
    (c : ℕ) (s : List ℕ)
    → (after c s ≡ none) ⊎ ((r : List ℕ) × (after c s ≡ some r) × (length s ≡ suc (length r)))
after-lt c [] = inl refl
after-lt c (d ∷ s) = elim (Bool-cases (d == c)) [
  | inl e ↦ inr (s, rw e refl, refl)
  | inr e ↦ inl (rw e refl)
]

-- The evaluator ends on the texts that are shorter than `n`.
abbrev pub EndsBelow : ℕ → Evaluator → Type 0
EndsBelow n expr =
    (p : ℕ) (expect eat : Bool) (s : List ℕ) → length s < n → Ends (length s) (expr p expect eat s)

module _ (expr : Evaluator) {n : ℕ} (below : EndsBelow n expr) where
  args_from-Ends :
      (count : ℕ) (s x : List ℕ) → length s < n → Ends (length s) (args_from expr count s x)
  unfolding args_from
  args_from-Ends zero s x h = omega arith
  args_from-Ends (suc zero) s x h =
      and_then-Ends (expr 0 true true s) (λ v r y. ok (v ∷ []) r y) (below 0 true true s h)
        (λ v r y le. le)
  args_from-Ends (suc (suc count)) s x h =
      and_then-Ends (expr 0 false false s) _ (below 0 false false s h) (λ v r y le.
        let peek = peek_char-le r in
        elim (after-lt b',' (peek_char r)) [
          | inl e ↦ rw e (omega arith)
          | inr (q, e, shorter) ↦ rw e (
              and_then-Ends (args_from expr (suc count) q y) (λ vs r' z. ok (v ∷ vs) r' z)
                (Ends-le (args_from expr (suc count) q y) (omega arith)
                  (args_from-Ends (suc count) q y (omega arith)))
                (λ vs r' z le'. le'))
        ])

  get_args-Ends :
      (count : ℕ) (s x : List ℕ) → length s < n → Ends (length s) (get_args expr count s x)
  unfolding get_args
  get_args-Ends count s x h = elim (Bool-cases (count == 0)) [
    | inl e ↦ rw e (omega arith)
    | inr more ↦
        let peek = peek_char-le s in
        elim (after-lt b'(' (peek_char s)) [
          | inl e ↦ rw (more, e) peek
          | inr (q, e, shorter) ↦
              rw (more, e)
                (Ends-le (args_from expr count q x) (omega arith)
                  (args_from-Ends count q x (omega arith)))
        ]
  ]

  read_var-Ends : (k : Kind) (s x : List ℕ) → length s < n → Ends (length s) (read_var expr k s x)
  unfolding read_var
  read_var-Ends (var_integer v) s x h = omega arith
  read_var-Ends (var_string a) s x h = omega arith
  read_var-Ends (var_bit_set bs size) s x h =
      and_then-Ends (get_args expr 1 s x) _ (get_args-Ends 1 s x h) (λ vs r y le.
        elim (Bool-cases (ltb size (get_or vs 0 0))) [ inl e ↦ rw e le | inr e ↦ rw e le ])
  read_var-Ends (var_ro_func f c) s x h =
      and_then-Ends (get_args expr c s x) _ (get_args-Ends c s x h) (λ vs r y le. le)
  read_var-Ends (var_rw_func f c) s x h =
      and_then-Ends (get_args expr c s x) _ (get_args-Ends c s x h) (λ vs r y le. le)

  found-Ends :
      (found : Option Kind) (s x : List ℕ)
      → length s < n
      → Ends (length s) (elim found [ none ↦ failed s x | some k ↦ read_var expr k s x ])
  found-Ends none s x h = omega arith
  found-Ends (some k) s x h = read_var-Ends k s x h

  get_var-Ends :
      (vars : List VarDescriptor) (s x : List ℕ)
      → length s < n
      → Ends (length s) (get_var expr vars s x)
  unfolding get_var
  get_var-Ends vars s x h = found-Ends (find_var x vars) s x h

  -- The second table is searched where the first gives a complaint.
  or_else-Ends :
      (user : List VarDescriptor) (m : ℕ) (o : Outcome ℕ)
      → m < n
      → Ends m o
      → Ends m (elim o [
        | ok v r y ↦ ok v r y
        | failed r y ↦ get_var expr user r y
        | crashed ↦ crashed
        | wild ↦ wild
        | spent ↦ spent
      ])
  or_else-Ends user m (ok v r y) h e = e
  or_else-Ends user m (failed r y) h e =
      Ends-le (get_var expr user r y) e (get_var-Ends user r y (omega arith))
  or_else-Ends user m crashed h e = tt
  or_else-Ends user m wild h e = tt
  or_else-Ends user m spent h e = e

  get_either-Ends :
      (script user : List VarDescriptor) (s x : List ℕ)
      → length s < n
      → Ends (length s) (get_either expr script user s x)
  unfolding get_either
  get_either-Ends script user s x h =
      or_else-Ends user (length s) (get_var expr script s x) h (get_var-Ends script s x h)

  unary-Ends :
      (expect : Bool) (s x : List ℕ) → length s ≤ n → Ends (length s) (unary expr expect s x)
  unfolding unary
  unary-Ends expect [] x h = omega arith
  unary-Ends expect (c ∷ s) x h =
      let inner : (p : ℕ) (e t : Bool) → Ends (suc (length s)) (expr p e t s) =
        λ p e t. Ends-le (expr p e t s) (omega arith) (below p e t s (omega arith)) in
      elim (Bool-cases (c == b'(')) [
        | inl e ↦ rw e (inner 0 true true)
        | inr e ↦ elim (Bool-cases (c == b'+')) [
          | inl e' ↦ rw (e, e') (inner 3 expect false)
          | inr e' ↦ elim (Bool-cases (c == b'-')) [
            | inl f ↦
                rw (e, e', f)
                  (and_then-Ends (expr 3 expect false s) _ (inner 3 expect false) (λ v r y le. le))
            | inr f ↦ elim (Bool-cases (c == b'~')) [
              | inl f' ↦
                  rw (e, e', f, f')
                    (and_then-Ends (expr 3 expect false s) _ (inner 3 expect false)
                      (λ v r y le. le))
              | inr f' ↦ rw (e, e', f, f') (omega arith)
            ]
          ]
        ]
      ]

  operand_at-Ends :
      (script user : List VarDescriptor) (expect : Bool) (s x : List ℕ)
      → length x + length s ≤ n
      → Ends (length s) (operand_at expr script user expect s x)
  unfolding operand_at number
  operand_at-Ends script user expect s [] h =
      let peek = peek_char-le s in
      Ends-le (unary expr expect (peek_char s) []) peek
        (unary-Ends expect (peek_char s) [] (omega arith))
  operand_at-Ends script user expect s (c ∷ x) h = elim (Bool-cases (isdigit c)) [
    | inl e ↦ elim (Bool-cases (length (strtoul (c ∷ x)).1 == 0)) [
      | inl e' ↦ rw (e, e') (omega arith)
      | inr e' ↦ rw (e, e') (omega arith)
    ]
    | inr e ↦ rw e (get_either-Ends script user s (c ∷ x) (omega arith))
  ]

  operand-Ends :
      (script user : List VarDescriptor) (expect : Bool) (s : List ℕ)
      → length s ≤ n
      → Ends (length s) (operand expr script user expect s)
  unfolding operand
  operand-Ends script user expect s h =
      let fits = length-get_token s in
      Ends-le (operand_at expr script user expect (get_token s).1 (get_token s).0) (omega arith)
        (operand_at-Ends script user expect (get_token s).1 (get_token s).0 (omega arith))

  -- The turn after an operator: the value of the operation, if there is one.
  applied-Ends :
      (again : ℕ → List ℕ → List ℕ → Outcome ℕ) (o : Option ℕ) (r y : List ℕ) (m : ℕ)
      → ((v : ℕ) → Ends m (again v r y))
      → Ends m (elim o [ none ↦ crashed | some v ↦ again v r y ])
  applied-Ends again none r y m h = tt
  applied-Ends again (some v) r y m h = h v

  operate-Ends :
      (again : ℕ → List ℕ → List ℕ → Outcome ℕ)
      → ((v : ℕ) (s x : List ℕ) → length s < n → Ends (length s) (again v s x))
      → (p : ℕ) (expect eat : Bool) (v : ℕ) (s x : List ℕ) → length s ≤ n
      → Ends (length s) (operate expr again p expect eat v s x)
  unfolding operate
  operate-Ends again k p expect eat v [] x h = elim (Bool-cases expect) [
    | inl e ↦ rw e (omega arith)
    | inr e ↦ rw e (omega arith)
  ]
  operate-Ends again k p expect eat v (op ∷ s) x h = elim (Bool-cases (priority_of op == 0)) [
    | inr binary ↦ elim (Bool-cases (ltb (priority_of op) p)) [
      | inl e ↦ rw (binary, e) (omega arith)
      | inr e ↦
          let next : ℕ → List ℕ → List ℕ → Outcome ℕ =
            λ b r y. elim (apply_op op v b) [ none ↦ crashed | some v' ↦ again v' r y ] in
          let inner = expr (priority_of op) expect false s in
          let tight : Ends (length s) (and_then inner next) =
            and_then-Ends inner next (below (priority_of op) expect false s (omega arith))
              (λ b r y le.
                applied-Ends again (apply_op op v b) r y (length s)
                  (λ v'. Ends-le (again v' r y) le (k v' r y (omega arith)))) in
          rw (binary, e) (Ends-le (and_then inner next) (omega arith) tight)
    ]
    | inl other ↦ ground (arith, other)
  ]

-- What a run costs from a place, for a text of length `n`.
abbrev pub cost : Place → ℕ → ℕ
cost start n = 2 * n + 2
cost (operators v x) n = 2 * n + 1

run-Ends :
    (script user : List VarDescriptor) (f : ℕ) (place : Place) (p : ℕ) (expect eat : Bool)
    (s : List ℕ)
    → cost place (length s) ≤ f
    → Ends (length s) (run script user f place p expect eat s)
unfolding run
run-Ends script user zero start p expect eat s h = absurd (omega arith)
run-Ends script user zero (operators v x) p expect eat s h = absurd (omega arith)
run-Ends script user (suc f) start p expect eat s h =
    let expr = run script user f start in
    let below : EndsBelow (length s) expr =
      λ p' e t r lt. run-Ends script user f start p' e t r (omega arith) in
    and_then-Ends (operand expr script user expect s) _
      (operand-Ends expr below script user expect s (omega arith))
      (λ v r x le.
        Ends-le (run script user f (operators v x) p expect eat r) le
          (run-Ends script user f (operators v x) p expect eat r (omega arith)))
run-Ends script user (suc f) (operators v x) p expect eat s h =
    let expr = run script user f start in
    let peek = peek_char-le s in
    let below : EndsBelow (length s) expr =
      λ p' e t r lt. run-Ends script user f start p' e t r (omega arith) in
    Ends-le
      (operate expr (λ v' r y. run script user f (operators v' y) p expect eat r) p expect eat v
        (peek_char s) x)
      peek
      (operate-Ends expr below (λ v' r y. run script user f (operators v' y) p expect eat r)
        (λ v' r y lt. run-Ends script user f (operators v' y) p expect eat r (omega arith)) p expect
        eat v (peek_char s) x (omega arith))

-- Whatever the text, the variables and the flags, the evaluator ends before its fuel does: with a
-- value and no more text left than it was given, with a complaint, with a division by 0, or, at a
-- malformed number, with a complaint that takes a character for the address of a text.
pub get_expression-Ends :
    (script user : List VarDescriptor) (p : ℕ) (expect eat : Bool) (s : List ℕ)
    → Ends (length s) (get_expression script user p expect eat s)
unfolding get_expression
get_expression-Ends script user p expect eat s =
    run-Ends script user (2 * length s + 2) start p expect eat s (omega arith)
