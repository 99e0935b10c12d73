-- ===== src/Tools/Calculator.antt =====
-- app/core/tools/builtin/calculator.py. The parser of the `ast` module and the arithmetic of Python's
-- numbers are given: the nodes are data, and the operators a record over a type of values.
use agent_force.Prelude.{
  ℕ, Bool, true, false, not, ◌&&◌, String, Option, none, some, str_eq, if◌then◌else◌,
}
use agent_force.Prelude.Text.{◌&◌, repr, show_nat}
use agent_force.Errors.{Exc, tool_execution_failed, other}
use agent_force.Effects.{Result, ok, err, ◌>>=◌}

-- The operators that the tables name, and the class of any other.
pub data UnaryOp : Type 0 where
  u_add u_sub : UnaryOp
  other_unary : String → UnaryOp

pub data BinaryOp : Type 0 where
  add sub mult div floor_div modulo pow : BinaryOp
  other_binary : String → BinaryOp

pub data Expr (V : Type 0) : Type 0 where
  constant : V → Expr V
  unary_op : UnaryOp → Expr V → Expr V
  bin_op : BinaryOp → Expr V → Expr V → Expr V
  other_node : String → Expr V

-- What the code uses of a value: `isinstance(value, int | float)` with a `bool` excluded,
-- `math.isfinite`, `abs(value) > n`, `str`, `repr` and the operators, which may raise.
pub record Arithmetic (V : Type 0) : Type 0 where
  pub is_number : V → Bool
  pub is_finite : V → Result Bool
  pub abs_exceeds : V → ℕ → Bool
  pub str : V → String
  pub repr : V → String
  pub apply_unary : UnaryOp → V → Result V
  pub apply_binary : BinaryOp → V → V → Result V

abbrev pub max_exponent : ℕ
max_exponent = 64

-- `type(node.op).__name__` of an operator that a table does not have
abbrev pub unsupported_unary : UnaryOp → Option String
unsupported_unary (other_unary name) = some name
unsupported_unary op = none

abbrev pub unsupported_binary : BinaryOp → Option String
unsupported_binary (other_binary name) = some name
unsupported_binary op = none

abbrev pub is_pow : BinaryOp → Bool
is_pow pow = true
is_pow op = false

-- `except ZeroDivisionError` and `except OverflowError`
unfoldable pub arithmetic_error : Exc → Option String
arithmetic_error (other name text) =
    if str_eq name "ZeroDivisionError"
    then some "Division by zero."
    else if str_eq name "OverflowError"
    then some "The result is too large to represent."
    else none
arithmetic_error e = none

abbrev pub refuse : {A : Type 0} → String → Result A
refuse message = err (tool_execution_failed message)

unfoldable pub caught_arithmetic : {V : Type 0} → Result V → Result V
unfolding arithmetic_error
caught_arithmetic (ok v) = ok v
caught_arithmetic (err e) = elim (arithmetic_error e) [ none ↦ err e | some text ↦ refuse text ]

module _ {V : Type 0} (py : Arithmetic V) where
  -- `_finite`
  unfoldable pub finite : V → Result V
  finite value =
      if not (py.is_number value)
      then refuse "The result is not a real number."
      else (py.is_finite value >>= λ b.
          if b then ok value else refuse "The result is not a finite number.")

  -- The branch of a binary operator, on the values of its operands.
  unfoldable pub combine : BinaryOp → V → V → Result V
  unfolding finite caught_arithmetic
  combine op left right =
      if is_pow op && py.abs_exceeds right max_exponent
      then refuse
          ("Exponent " & py.str right & " exceeds the limit of " & show_nat max_exponent & ".")
      else caught_arithmetic (py.apply_binary op left right >>= finite)

  -- `_evaluate`
  unfoldable pub evaluate : Expr V → Result V
  unfolding finite combine
  evaluate (constant value) =
      if py.is_number value then ok value else refuse (py.repr value & " is not a number.")
  evaluate (unary_op op operand) = elim (unsupported_unary op) [
    | some name ↦ refuse (name & " is not a supported operator.")
    | none ↦ evaluate operand >>= λ v. py.apply_unary op v >>= finite
  ]
  evaluate (bin_op op left right) = elim (unsupported_binary op) [
    | some name ↦ refuse (name & " is not a supported operator.")
    | none ↦ evaluate left >>= λ a. evaluate right >>= λ b. combine op a b
  ]
  evaluate (other_node name) =
      refuse (name & " is not allowed here — this tool evaluates arithmetic only.")

  -- `_calculate`: what `ast.parse` gives is a body, or the message of a `SyntaxError`.
  unfoldable pub calculate :
      (String → Result (Expr V)) → (Exc → Option String) → String → Result String
  unfolding evaluate
  calculate parse syntax_error expression = elim (parse expression) [
    | ok body ↦ evaluate body >>= λ v. ok (py.str v)
    | err e ↦ elim (syntax_error e) [
      | none ↦ err e
      | some message ↦ refuse (repr expression & " is not a valid expression: " & message & ".")
    ]
  ]
