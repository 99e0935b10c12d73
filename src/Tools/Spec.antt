-- ===== src/Tools/Spec.antt =====
-- app/core/tools/base.py. A handler and a pydantic model are given from outside; the model's values
-- are JSON.
use Prim.Native.Char.{code}
use agent_force.Prelude.{
  ℕ, zero, suc, Bool, true, false, not, ◌&&◌, ◌||◌, String, List, map, leb, nat_eq, if◌then◌else◌,
}
use agent_force.Prelude.Text.{◌&◌, join, repr}
use agent_force.Errors.{invalid_tool_spec, tool_input_invalid}
use agent_force.Effects.{Result, ok, err}
use agent_force.Effects.Prog.{Call}
use agent_force.Json.{Json, Fields}
use agent_force.Messages.{ToolSchema}

pub data EffectClass : Type 0 where
  read_only idempotent_write unsafe : EffectClass

pub data ExecutionMode : Type 0 where
  inline durable : ExecutionMode

-- One entry of `ValidationError.errors()`.
pub record FieldError : Type 0 where
  pub loc : List String
  pub msg : String

pub data Validation : Type 0 where
  valid : Json → Validation
  invalid : List FieldError → Validation

pub record InputModel : Type 0 where
  pub model_json_schema : Fields
  pub model_validate : Fields → Validation

pub record ToolSpec (W : Type 0) : Type 0 where
  pub name : String
  pub description : String
  pub input_model : InputModel
  pub handler : Json → Call W String
  pub effect_class : EffectClass
  pub execution : ExecutionMode

-- `[a-zA-Z0-9_-]`
unfoldable pub is_name_char : ℕ → Bool
is_name_char c =
    (leb 97 c && leb c 122)
    || (leb 65 c && leb c 90)
    || (leb 48 c && leb c 57)
    || nat_eq c 95
    || nat_eq c 45

-- The rest of a name after `seen` characters: up to 64 of the class, and then `$`, which holds at
-- the end of the text and also before a line feed that ends the text.
unfoldable pub name_rest : ℕ → String → Bool
unfolding is_name_char
name_rest n String.[] = true
name_rest zero (String.◌∷◌ c String.[]) = nat_eq (code c) 10
name_rest zero (String.◌∷◌ c (String.◌∷◌ d s)) = false
name_rest (suc n) (String.◌∷◌ c String.[]) = is_name_char (code c) || nat_eq (code c) 10
name_rest (suc n) (String.◌∷◌ c (String.◌∷◌ d s)) =
    is_name_char (code c) && name_rest n (String.◌∷◌ d s)

-- `_TOOL_NAME.match(name)`
unfoldable pub matches_tool_name : String → Bool
unfolding name_rest
matches_tool_name String.[] = false
matches_tool_name (String.◌∷◌ c s) = is_name_char (code c) && name_rest 63 s

-- What `str.strip` takes off.
unfoldable pub is_space : ℕ → Bool
is_space c =
    (leb 9 c && leb c 13)
    || (leb 28 c && leb c 32)
    || nat_eq c 133
    || nat_eq c 160
    || nat_eq c 0x1680
    || (leb 0x2000 c && leb c 0x200a)
    || (leb 0x2028 c && leb c 0x2029)
    || nat_eq c 0x202f
    || nat_eq c 0x205f
    || nat_eq c 0x3000

-- `not text.strip()`
unfoldable pub is_blank : String → Bool
unfolding is_space
is_blank String.[] = true
is_blank (String.◌∷◌ c s) = is_space (code c) && is_blank s

module _ {W : Type 0} where
  -- A specification with the given fields, as `ToolSpec.__post_init__` lets it through.
  unfoldable pub post_init : ToolSpec W → Result (ToolSpec W)
  unfolding matches_tool_name is_blank
  post_init spec =
      if not (matches_tool_name spec.name)
      then err (
          invalid_tool_spec (
            "Tool name "
            & repr spec.name
            & " must match ^[a-zA-Z0-9_-]{1,64}$ — the API rejects anything else."))
      else if is_blank spec.description
      then err (invalid_tool_spec ("Tool " & repr spec.name & " has no description."))
      else ok spec

  unfoldable pub to_schema : ToolSpec W → ToolSchema
  to_schema spec = record {
    name = spec.name;
    description = spec.description;
    input_schema = spec.input_model.model_json_schema;
  }

or_root : String → String
or_root String.[] = "<root>"
or_root s = s

explain_one : FieldError → String
unfolding or_root join
explain_one e = or_root (join "." e.loc) & ": " & e.msg

-- `_explain`
unfoldable pub explain : List FieldError → String
unfolding explain_one
explain es = join "; " (map explain_one es)

module _ {W : Type 0} where
  unfoldable pub validate_input : ToolSpec W → Fields → Result Json
  unfolding explain
  validate_input spec raw = elim (spec.input_model.model_validate raw) [
    | valid payload ↦ ok payload
    | invalid es ↦ err (tool_input_invalid spec.name (explain es))
  ]
