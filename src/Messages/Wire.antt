-- ===== src/Messages/Wire.antt =====
-- `block_from_dict` and `blocks_to_wire`.
use agent_force.Prelude.{
  Bool, false, String, Option, none, some, List, [], ◌∷◌, map, str_eq, if◌then◌else◌,
}
use agent_force.Errors.{key_error, validation_error}
use agent_force.Effects.{Result, ok, err, ◌>>=◌}
use agent_force.Json.{Json, null, bool, string, obj, Fields, end, field, field?, truthy}
use agent_force.Messages.{ContentBlock, text_block, tool_use_block, tool_result_block, opaque_block}

-- `raw[key]`
unfoldable pub required : Fields → String → Result Json
required raw key = elim (field? raw key) [ none ↦ err (key_error key) | some v ↦ ok v ]

-- pydantic's check of a field that is declared `str`, and of one that is declared `dict`
unfoldable pub as_str : Json → Result String
as_str (string t) = ok t
as_str _ = err (validation_error "Input should be a valid string")

unfoldable pub as_dict : Json → Result Fields
as_dict (obj fs) = ok fs
as_dict _ = err (validation_error "Input should be a valid dictionary")

-- The fields other than `type`, which `extra="allow"` keeps as they are.
unfoldable pub without_type : Fields → Fields
without_type end = end
without_type (field k v fs) =
    let rest = without_type fs in if str_eq k "type" then rest else field k v rest

unfoldable pub opaque_from_dict : Fields → Result ContentBlock
unfolding required as_str without_type
opaque_from_dict raw = elim (field? raw "type") [
  | none ↦ err (validation_error "Field required")
  | some j ↦ (do kind ← as_str j; ok (opaque_block kind (without_type raw)))
]

-- `bool(raw.get("is_error", False))`
unfoldable pub flag : Option Json → Bool
flag none = false
flag (some j) = truthy j

unfoldable pub typed_from_dict : String → Fields → Result ContentBlock
unfolding required as_str as_dict opaque_from_dict flag truthy
typed_from_dict kind raw =
    if str_eq kind "text"
    then (do t ← required raw "text"; s ← as_str t; ok (text_block s))
    else if str_eq kind "tool_use"
    then (do
      i ← required raw "id"
      n ← required raw "name"
      d ← required raw "input"
      i' ← as_str i
      n' ← as_str n
      d' ← as_dict d
      ok (tool_use_block i' n' d'))
    else if str_eq kind "tool_result"
    then (do
      i ← required raw "tool_use_id"
      c ← required raw "content"
      i' ← as_str i
      c' ← as_str c
      ok (tool_result_block i' c' (flag (field? raw "is_error"))))
    else opaque_from_dict raw

-- The `match raw.get("type")`: a value that is no text equals none of the three.
unfoldable pub block_from_dict : Fields → Result ContentBlock
unfolding typed_from_dict field?
block_from_dict raw = elim (field? raw "type") [
  | some (string kind) ↦ typed_from_dict kind raw
  | _ ↦ opaque_from_dict raw
]

-- `exclude_none=True`: a field of the model whose value is null is left out.
unfoldable pub without_null : Fields → Fields
without_null end = end
without_null (field k null fs) = without_null fs
without_null (field k v fs) = field k v (without_null fs)

-- `block.model_dump(exclude_none=True)`
unfoldable pub block_to_wire : ContentBlock → Fields
unfolding without_null
block_to_wire (text_block t) = field "type" (string "text") (field "text" (string t) end)
block_to_wire (tool_use_block i n d) =
    field "type" (string "tool_use")
      (field "id" (string i) (field "name" (string n) (field "input" (obj d) end)))
block_to_wire (tool_result_block i c e) =
    field "type" (string "tool_result")
      (field "tool_use_id" (string i) (field "content" (string c) (field "is_error" (bool e) end)))
block_to_wire (opaque_block kind extra) = field "type" (string kind) (without_null extra)

unfoldable pub blocks_to_wire : List ContentBlock → List Fields
unfolding block_to_wire
blocks_to_wire bs = map block_to_wire bs

-- `[block_from_dict(block) for block in raw]`
unfoldable pub blocks_from_wire : List Fields → Result (List ContentBlock)
unfolding block_from_dict
blocks_from_wire [] = ok []
blocks_from_wire (r ∷ rs) = do b ← block_from_dict r; bs ← blocks_from_wire rs; ok (b ∷ bs)
