-- ===== src/Tests/Calculator.antt =====
-- A calculator over whole numbers below 1,000 and an infinity.
use agent_force.Prelude.{
  ℕ, zero, suc, ◌*◌, ◌/◌, leb, Bool, true, false, not, String, some, [], ◌∷◌, str_eq, ◌≡◌, refl,
  inl, inr, subst, arith, Bool-cases, if◌then◌else◌,
}
use agent_force.Prelude.Text.{show_nat}
use agent_force.Errors.{Exc, other}
use agent_force.Effects.{Result, ok, err}
use agent_force.Effects.Prog.{Call}
use agent_force.Json.{string, end}
use agent_force.Tools.Spec.{ToolSpec, InputModel, valid}
use agent_force.Tools.Registry.{Registry, lookup, names}
use agent_force.Tools.Calculator.{
  BinaryOp, add, sub, mult, div, floor_div, modulo, pow, other_binary, Expr, constant, bin_op,
  Arithmetic, evaluate, finite, combine, caught_arithmetic, arithmetic_error,
}
use agent_force.Tools.Answers.{IsArithmetic, IsArithmeticError}
use agent_force.Tools.Builtin.{Python, build_default_registry}
use agent_force.Tools.Default.{IsReply, build_default_registry-IsReply}

pub data Number : Type 0 where
  whole : ℕ → Number
  infinite : Number

abbrev overflow : Exc
overflow = other "OverflowError" "int too large to convert to float"

abbrev is_small : Number → Result Bool
is_small (whole n) = if leb n 999 then ok true else err overflow
is_small infinite = ok false

abbrev printed : Number → String
printed (whole n) = show_nat n
printed infinite = "inf"

abbrev exceeds : Number → ℕ → Bool
exceeds (whole n) m = not (leb n m)
exceeds infinite m = true

abbrev times : Number → Number → Result Number
times (whole n) (whole m) = ok (whole (n * m))
times a b = ok infinite

abbrev divided : Number → Number → Result Number
divided (whole n) (whole zero) =
    err (other "ZeroDivisionError" "integer division or modulo by zero")
divided (whole n) (whole (suc m)) = ok (whole (n / suc m))
divided a b = ok infinite

-- Products and quotients; the other operators overflow.
abbrev operate : BinaryOp → Number → Number → Result Number
operate mult a b = times a b
operate floor_div a b = divided a b
operate op a b = err overflow

abbrev numbers : Arithmetic Number
numbers = record {
  is_number = λ v. true;
  is_finite = is_small;
  abs_exceeds = exceeds;
  str = printed;
  repr = printed;
  apply_unary = λ op v. ok v;
  apply_binary = operate;
}

overflow-IsArithmeticError : IsArithmeticError overflow
unfolding arithmetic_error
overflow-IsArithmeticError = (_, refl)

raised :
    {A : Type 0} (x e : Exc)
    → (let r : Result A = err x in r ≡ err e)
    → IsArithmeticError x
    → IsArithmeticError e
raised x e h p = subst (λ y. IsArithmeticError y) (ground arith) p

is_small_error : (v : Number) (e : Exc) → is_small v ≡ err e → IsArithmeticError e
is_small_error infinite e h = absurd (ground arith)
is_small_error (whole n) e h = elim (Bool-cases (leb n 999)) [
  | inl b ↦ let c : ok true ≡ err e = rw b at h in absurd (ground arith)
  | inr b ↦ raised {A = Bool} overflow e (rw b at h) overflow-IsArithmeticError
]

divided_error : (a b : Number) (e : Exc) → divided a b ≡ err e → IsArithmeticError e
unfolding arithmetic_error
divided_error (whole n) (whole zero) e h = raised _ e h (_, refl)
divided_error (whole n) (whole (suc m)) e h = absurd (ground arith)
divided_error (whole n) infinite e h = absurd (ground arith)
divided_error infinite b e h = absurd (ground arith)

operate_error :
    (op : BinaryOp) (a b : Number) (e : Exc) → operate op a b ≡ err e → IsArithmeticError e
operate_error add a b e h = raised overflow e h overflow-IsArithmeticError
operate_error sub a b e h = raised overflow e h overflow-IsArithmeticError
operate_error mult (whole n) (whole m) e h = absurd (ground arith)
operate_error mult (whole n) infinite e h = absurd (ground arith)
operate_error mult infinite b e h = absurd (ground arith)
operate_error div a b e h = raised overflow e h overflow-IsArithmeticError
operate_error floor_div a b e h = divided_error a b e h
operate_error modulo a b e h = raised overflow e h overflow-IsArithmeticError
operate_error pow a b e h = raised overflow e h overflow-IsArithmeticError
operate_error (other_binary name) a b e h = raised overflow e h overflow-IsArithmeticError

numbers-IsArithmetic : IsArithmetic numbers
numbers-IsArithmetic = record {
  unary_small = λ op v known small. (v, refl, small);
  binary_error = operate_error;
  finite_error = is_small_error;
}

abbrev two_times_three : Expr Number
two_times_three = bin_op mult (constant (whole 2)) (constant (whole 3))

abbrev pub python : Python
python = record {
  V = Number;
  arithmetic = numbers;
  parse = λ text.
      if str_eq text "2 * 3"
      then ok two_times_three
      else err (other "SyntaxError" "invalid syntax");
  syntax_error = λ e. some "invalid syntax";
  CalculatorInput = record {
    model_json_schema = end;
    model_validate = λ raw. valid (string "2 * 3");
  };
  expression = λ payload. "2 * 3";
}

abbrev pub no_input : InputModel
no_input = record { model_json_schema = end; model_validate = λ raw. valid (string "") }

abbrev noon : Call ℕ String
noon w = (ok "2025-01-01T12:00:00+00:00", w)

build_default_registry-IsReply_example :
    (r : Registry ℕ) × (calculator : ToolSpec ℕ) × (reply : Result String) × (build_default_registry
        python no_input noon
      ≡ ok r)
    × (names r ≡ "calculator" ∷ "now" ∷ [])
    × (lookup r "calculator" ≡ ok calculator)
    × (calculator.handler (string "2 * 3") 0 ≡ (reply, 0))
    × IsReply python (ok two_times_three) reply
build_default_registry-IsReply_example =
    build_default_registry-IsReply python no_input noon (string "2 * 3") 0 numbers-IsArithmetic
      ((true, refl), (true, refl))

-- Six is answered, a division by zero is an error of the tool, and an infinite literal is answered too.
evaluates_six : evaluate numbers two_times_three ≡ ok (whole 6)
unfolding evaluate combine finite caught_arithmetic
evaluates_six = refl

evaluates_infinite : evaluate numbers (constant infinite) ≡ ok infinite
unfolding evaluate
evaluates_infinite = refl
