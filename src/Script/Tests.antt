-- ===== src/Script/Tests.antt =====
-- Runs of the evaluator, and the theorems at concrete texts.
use jornada.Common.{ℕ, ◌≡◌, ◌*◌, List, [], ◌∷◌, refl, true, false, arith, length}
use jornada.Script.Number.{AreDigits, strtoul, strtoul-decimal, digit}
use jornada.Script.Vars.{VarDescriptor, var_integer, var_rw_func}
use jornada.Script.Expression.{priority_of, get_expression, ok, failed, crashed, wild}
use jornada.Script.Total.{Ends, get_expression-Ends}
use jornada.Script.Chain.{
  IsDecimal, IsChain, Decimal, show_chain, from_right, answer, last_number, token,
  get_expression-chain,
}
use jornada.Script.Text.{is_token}
use Prim.Native.String.{String}
use Prim.Native.Char.{code}

abbrev codes : String → List ℕ
codes String.[] = []
codes (String.◌∷◌ c s) = code c ∷ codes s

abbrev ten : Decimal
ten = record { first = 49; others = 48 ∷ [] }

abbrev three : Decimal
three = record { first = 51; others = [] }

abbrev two : Decimal
two = record { first = 50; others = [] }

-- A function of two arguments, and a variable.
abbrev vars : List VarDescriptor
vars =
    record { name = codes "CP"; kind = var_rw_func (λ args. length args * 100) 2 }
    ∷ record { name = codes "Size"; kind = var_integer 5 }
    ∷ []

ten_valid : IsDecimal ten
unfolding digit
ten_valid = record { nonzero = refl; digits = omega arith; fits = omega arith }

three_valid : IsDecimal three
unfolding digit
three_valid = record { nonzero = refl; digits = omega arith; fits = omega arith }

two_valid : IsDecimal two
unfolding digit
two_valid = record { nonzero = refl; digits = omega arith; fits = omega arith }

minus_fits : IsChain 1 ten ((45, three) ∷ (45, two) ∷ [])
unfolding priority_of
minus_fits = (ten_valid, refl, (three_valid, refl, two_valid))

digits_valid : AreDigits 10 (codes "4294967299")
unfolding digit
digits_valid = omega arith

-- "10-3-2" is 9.
minus_twice : get_expression [] [] 0 false false (codes "10-3-2") ≡ ok 9 [] (codes "2")
unfolding get_expression
minus_twice = refl

-- A complaint on a parenthesis that nothing opens.
brackets :
    get_expression [] [] 0 false false (codes " 0x10 * (010+~0) / 7 )")
    ≡ failed (codes ")") (codes "7")
unfolding get_expression
brackets = refl

function_call :
    get_expression vars [] 0 false false (codes "cp(1, size+2)-SIZE") ≡ ok 195 [] (codes "SIZE")
unfolding get_expression
function_call = refl

by_zero : get_expression [] [] 0 false false (codes "8/(2-2)") ≡ crashed
unfolding get_expression
by_zero = refl

-- The complaint on "12x" is given the character x as the address of a text.
malformed : get_expression [] [] 0 false false (codes "12x") ≡ wild
unfolding get_expression
malformed = refl

short_command : is_token (codes "me") (codes "ME|SSAGE") ≡ true
unfolding is_token
short_command = refl

wrong_command : is_token (codes "mesh") (codes "ME|SSAGE") ≡ false
unfolding is_token
wrong_command = refl

get_expression-chain_example :
    get_expression [] [] 0 false false (show_chain ten ((45, three) ∷ (45, two) ∷ []))
    ≡ answer
        (from_right ten ((45, three) ∷ (45, two) ∷ []))
        (token (last_number ten ((45, three) ∷ (45, two) ∷ [])))
get_expression-chain_example =
    get_expression-chain [] [] 0 1 ten ((45, three) ∷ (45, two) ∷ []) (omega arith) (omega arith)
      minus_fits

get_expression-Ends_example :
    Ends (length (codes "cp(1, size")) (get_expression vars [] 0 false false (codes "cp(1, size"))
get_expression-Ends_example = get_expression-Ends vars [] 0 false false (codes "cp(1, size")

strtoul-decimal_example : strtoul (codes "4294967299") ≡ (4294967295, [])
unfolding digit
strtoul-decimal_example = strtoul-decimal 52 (codes "294967299") refl digits_valid
