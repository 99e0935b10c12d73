-- ===== src/Tools/Default.antt =====
-- What the registry that every process uses does with a call of the calculator.
use agent_force.Prelude.{String, some, [], ◌∷◌, ◌≡◌, refl, inl, inr}
use agent_force.Errors.{tool_execution_failed}
use agent_force.Effects.{Result, ok, err, ◌>>=◌, Result-cases}
use agent_force.Effects.Prog.{Call}
use agent_force.Json.{Json}
use agent_force.Tools.Spec.{
  ToolSpec, InputModel, post_init, matches_tool_name, name_rest, is_name_char, is_blank, is_space,
}
use agent_force.Tools.Registry.{Registry, register, contains, lookup, names, sorted, insert_sorted}
use agent_force.Tools.Calculator.{Expr, calculate, evaluate}
use agent_force.Tools.Answers.{IsArithmetic, HasSmallLiterals, IsAnswer, evaluate-IsAnswer}
use agent_force.Tools.Builtin.{Python, build_default_registry}

-- What the parser gives: an expression whose literals are small, or a `SyntaxError`.
abbrev pub IsParsed : (py : Python) → Result (Expr py.V) → Type 0
IsParsed py (ok body) = HasSmallLiterals py.arithmetic body
IsParsed py (err e) = (message : String) × (py.syntax_error e ≡ some message)

-- The text of the expression's answer, or an error that the model can read.
abbrev pub IsReply : (py : Python) → Result (Expr py.V) → Result String → Type 0
IsReply py (ok body) (ok text) =
    (v : py.V) × (text ≡ py.arithmetic.str v) × IsAnswer py.arithmetic body (ok v)
IsReply py (err e) (ok text) = ⊥
IsReply py parsed (err x) = (text : String) × (x ≡ tool_execution_failed text)

module _ (py : Python) where
  printed-IsReply :
      (e : Expr py.V) (r : Result py.V)
      → IsAnswer py.arithmetic e r
      → IsReply py (ok e) (r >>= λ v. ok (py.arithmetic.str v))
  printed-IsReply e (ok v) answer = (v, refl, answer)
  printed-IsReply e (err x) answer = answer

  calculate-IsReply :
      IsArithmetic py.arithmetic
      → (text : String) → IsParsed py (py.parse text)
      → IsReply py (py.parse text) (calculate py.arithmetic py.parse py.syntax_error text)
  unfolding calculate
  calculate-IsReply laws text parses = elim (Result-cases (py.parse text)) [
    | inl (body, h) ↦
        rw (h, calculate)
          (printed-IsReply body (evaluate py.arithmetic body)
            (evaluate-IsAnswer py.arithmetic laws body (rw h at parses)))
    | inr (e, h) ↦
        let refused : (message : String) × (py.syntax_error e ≡ some message) = rw h at parses in
        rw (h, calculate, refused.1, IsReply) (_, refl)
  ]

-- The registry that every process uses is built without an error, lists the calculator and the clock, and
-- gives the calculator for its name. A call of it leaves the world as it was, and replies to a text that
-- parses with the value of the expression, which is a number and finite unless the expression is a
-- literal, or with an error of the tool and its message.
pub build_default_registry-IsReply :
    {W : Type 0} (py : Python) (now_input : InputModel) (now : Call W String) (payload : Json)
    (w : W)
    → IsArithmetic py.arithmetic
    → IsParsed py (py.parse (py.expression payload))
    → (r : Registry W) × (calculator : ToolSpec W) × (reply : Result String)
      × (build_default_registry py now_input now ≡ ok r)
      × (names r ≡ "calculator" ∷ "now" ∷ [])
      × (lookup r "calculator" ≡ ok calculator)
      × (calculator.handler payload w ≡ (reply, w))
      × IsReply py (py.parse (py.expression payload)) reply
unfolding build_default_registry post_init matches_tool_name name_rest is_name_char is_blank
    is_space register contains names sorted insert_sorted lookup
build_default_registry-IsReply py now_input now payload w laws parses =
    (_, _, _, refl, refl, refl, refl, calculate-IsReply py laws (py.expression payload) parses)
