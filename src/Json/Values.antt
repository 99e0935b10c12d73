-- ===== src/Json/Values.antt =====
-- A JSON value as `json.loads` gives it. A number is kept as the text that Python prints for it.
use agent_force.Prelude.{String, Bool, true, false, Option, none, some, str_eq, if◌then◌else◌}
use agent_force.Prelude.Text.{◌&◌, repr}

mutual
  pub data Json : Type 0 where
    null : Json
    bool : Bool → Json
    num : String → Json
    string : String → Json
    arr : Items → Json
    obj : Fields → Json

  pub data Items : Type 0 where
    nil : Items
    cons : Json → Items → Items

  pub data Fields : Type 0 where
    end : Fields
    field : String → Json → Fields → Fields

-- `d.get(key)`
unfoldable pub field? : Fields → String → Option Json
field? end k = none
field? (field j v fs) k = if str_eq j k then some v else field? fs k

-- `bool(value)`
unfoldable pub truthy : Json → Bool
truthy null = false
truthy (bool b) = b
truthy (num t) =
    if str_eq t "0"
    then false
    else if str_eq t "0.0"
    then false
    else if str_eq t "-0.0"
    then false
    else true
truthy (string t) = if str_eq t "" then false else true
truthy (arr nil) = false
truthy (arr (cons x xs)) = true
truthy (obj end) = false
truthy (obj (field k v fs)) = true

unfoldable mutual
  pub repr_json : Json → String
  repr_json null = "None"
  repr_json (bool true) = "True"
  repr_json (bool false) = "False"
  repr_json (num t) = t
  repr_json (string t) = repr t
  repr_json (arr xs) = "[" & repr_items xs & "]"
  repr_json (obj fs) = "{" & repr_fields fs & "}"

  pub repr_items : Items → String
  repr_items nil = ""
  repr_items (cons x nil) = repr_json x
  repr_items (cons x (cons y xs)) = repr_json x & ", " & repr_items (cons y xs)

  pub repr_fields : Fields → String
  repr_fields end = ""
  repr_fields (field k v end) = repr k & ": " & repr_json v
  repr_fields (field k v (field j w fs)) =
      repr k & ": " & repr_json v & ", " & repr_fields (field j w fs)

-- `str(value)`
unfoldable pub str_json : Json → String
unfolding repr_json
str_json (string t) = t
str_json j = repr_json j
