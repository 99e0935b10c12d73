-- ===== src/Tools/Registry.antt =====
-- app/core/tools/registry.py: the tools by name, in the order of their registration.
use Prim.Native.String
use text.Mathlib.Text.{is_le}
use agent_force.Prelude.{
  ℕ, Bool, true, false, String, none, some, List, [], ◌∷◌, length, string_Eq, if◌then◌else◌,
}
use agent_force.Prelude.Dict.{Dict, get, put}
use agent_force.Prelude.Text.{◌&◌, repr}
use agent_force.Errors.{tool_not_found, duplicate_tool_name}
use agent_force.Effects.{Result, ok, err}
use agent_force.Messages.{ToolSchema}
use agent_force.Tools.Spec.{ToolSpec, to_schema}

pub record Registry (W : Type 0) : Type 0 where
  pub tools : Dict String (ToolSpec W)

-- `sorted`, by insertion.
unfoldable pub insert_sorted : String → List String → List String
insert_sorted x [] = x ∷ []
insert_sorted x (y ∷ r) = if is_le (String.compare x y) then x ∷ y ∷ r else y ∷ insert_sorted x r

unfoldable pub sorted : List String → List String
unfolding insert_sorted
sorted [] = []
sorted (x ∷ r) = insert_sorted x (sorted r)

abbrev pub keys {ℓ} : {V : Type ℓ} → Dict String V → List String
keys [] = []
keys ((k, v) ∷ d) = k ∷ keys d

module _ {W : Type 0} where
  unfoldable pub contains : Registry W → String → Bool
  unfolding get
  contains r name = elim (get r.tools name) [ none ↦ false | some spec ↦ true ]

  -- `self._tools[spec.name] = spec`, where the name is new
  unfoldable pub register : Registry W → ToolSpec W → Result (Registry W)
  unfolding contains put
  register r spec =
      if contains r spec.name
      then err (duplicate_tool_name ("A tool named " & repr spec.name & " is already registered."))
      else ok (record { tools = put r.tools spec.name spec })

  unfoldable pub names : Registry W → List String
  unfolding sorted
  names r = sorted (keys r.tools)

  unfoldable pub lookup : Registry W → String → Result (ToolSpec W)
  unfolding get names
  lookup r name = elim (get r.tools name) [
    | none ↦ err (tool_not_found name (names r))
    | some spec ↦ ok spec
  ]

  -- One schema for each name that `names` lists; all are registered.
  unfoldable pub schemas_of : Registry W → List String → List ToolSchema
  unfolding get to_schema
  schemas_of r [] = []
  schemas_of r (n ∷ ns) = elim (get r.tools n) [
    | none ↦ schemas_of r ns
    | some spec ↦ to_schema spec ∷ schemas_of r ns
  ]

  unfoldable pub schemas : Registry W → List ToolSchema
  unfolding schemas_of names
  schemas r = schemas_of r (names r)

  unfoldable pub size : Registry W → ℕ
  size r = length r.tools
