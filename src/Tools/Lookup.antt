-- ===== src/Tools/Lookup.antt =====
-- How the lookup of a tool and the validation of its arguments end.
use agent_force.Prelude.{◌≡◌, refl, ◌⊎◌, inl, inr, String, List, Option-cases, string_Eq}
use agent_force.Prelude.Dict.{get}
use agent_force.Errors.{tool_not_found, tool_input_invalid}
use agent_force.Effects.{ok, err}
use agent_force.Json.{Json, Fields}
use agent_force.Tools.Spec.{
  ToolSpec, FieldError, Validation, valid, invalid, validate_input, explain,
}
use agent_force.Tools.Registry.{Registry, lookup, names}

Validation-cases :
    (v : Validation) → ((p : Json) × (v ≡ valid p)) ⊎ ((es : List FieldError) × (v ≡ invalid es))
Validation-cases (valid p) = inl (p, refl)
Validation-cases (invalid es) = inr (es, refl)

module _ {W : Type 0} where
  pub lookup-cases :
      (r : Registry W) (name : String)
      → (lookup r name ≡ err (tool_not_found name (names r)))
        ⊎ ((spec : ToolSpec W) × (lookup r name ≡ ok spec))
  unfolding lookup
  lookup-cases r name = elim (Option-cases (get r.tools name)) [
    | inl e ↦ inl (rw (e, lookup) refl)
    | inr (spec, e) ↦ inr (spec, rw (e, lookup) refl)
  ]

  pub validate_input-cases :
      (spec : ToolSpec W) (args : Fields)
      → ((detail : String) × (validate_input spec args ≡ err (tool_input_invalid spec.name detail)))
        ⊎ ((p : Json) × (validate_input spec args ≡ ok p))
  unfolding validate_input
  validate_input-cases spec args = elim (Validation-cases (spec.input_model.model_validate args)) [
    | inl (p, e) ↦ inr (p, rw (e, validate_input) refl)
    | inr (es, e) ↦ inl (explain es, rw (e, validate_input) refl)
  ]
