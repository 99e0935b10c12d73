-- ===== src/Tools/Builtin.antt =====
-- app/core/tools/builtin: the two tools and the registry that every process uses. The clock's
-- `now().isoformat()`, the two pydantic models and a payload's `expression` are given.
use agent_force.Prelude.{String, Option, []}
use agent_force.Errors.{Exc}
use agent_force.Effects.{Result, ◌>>=◌}
use agent_force.Effects.Prog.{Call}
use agent_force.Json.{Json}
use agent_force.Tools.Spec.{ToolSpec, InputModel, read_only, inline, post_init}
use agent_force.Tools.Registry.{Registry, register}
use agent_force.Tools.Calculator.{Expr, Arithmetic, calculate}

-- What the calculator uses of the `ast` module, of Python's numbers and of its payload.
pub record Python : Type 1 where
  pub V : Type 0
  pub arithmetic : Arithmetic V
  pub parse : String → Result (Expr V)
  pub syntax_error : Exc → Option String
  pub CalculatorInput : InputModel
  pub expression : Json → String

module _ {W : Type 0} where
  unfoldable pub calculator_tool : Python → Result (ToolSpec W)
  unfolding post_init calculate
  calculator_tool py = post_init (record {
    name = "calculator";
    description =
        "Evaluate an arithmetic expression and return the result. Use this instead of doing arithmetic yourself whenever precision matters.";
    input_model = py.CalculatorInput;
    handler =
        λ payload w. (calculate py.arithmetic py.parse py.syntax_error (py.expression payload), w);
    effect_class = read_only;
    execution = inline;
  })

  unfoldable pub clock_tool : InputModel → Call W String → Result (ToolSpec W)
  unfolding post_init
  clock_tool now_input now = post_init (record {
    name = "now";
    description =
        "Return the current date and time in UTC, as an RFC 3339 timestamp. Use this whenever the answer depends on what time it is.";
    input_model = now_input;
    handler = λ payload w. now w;
    effect_class = read_only;
    execution = inline;
  })

  unfoldable pub build_default_registry : Python → InputModel → Call W String → Result (Registry W)
  unfolding calculator_tool clock_tool register
  build_default_registry py now_input now = calculator_tool py >>= λ calculator.
      register (record { tools = [] }) calculator >>= λ registry.
      clock_tool now_input now >>= λ clock. register registry clock
