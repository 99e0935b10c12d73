-- ===== src/Llm/Translation.antt =====
-- A live response of the model and its replay: app/adapters/llm/anthropic_client.py and
-- `block_from_dict` of app/core/runtime/messages.py.
use agent_force.Prelude.{◌≡◌, refl, false, String, Option, none, some, List, [], ◌∷◌, All, str_eq}
use agent_force.Json.{Json, null, bool, num, string, arr, obj, Fields, field?}
use agent_force.Messages.Wire.{block_from_dict, typed_from_dict, blocks_from_wire}
use agent_force.Llm.Anthropic.{block_of, blocks_of, structured}

-- The block is none that answers a tool call: the model does not send those.
abbrev pub IsNoResult : Option Json → Type 0
IsNoResult (some (string kind)) = str_eq kind "tool_result" ≡ false
IsNoResult type = Unit

structured-typed :
    (kind : String) (payload : Fields)
    → str_eq kind "tool_result" ≡ false
    → structured kind payload ≡ typed_from_dict kind payload
unfolding structured typed_from_dict
structured-typed kind payload h = rw h refl

block_of-type :
    (payload : Fields) (type : Option Json)
    → field? payload "type" ≡ type
    → IsNoResult type
    → block_of payload ≡ block_from_dict payload
unfolding block_of block_from_dict
block_of-type payload none e h = rw (e, block_of, block_from_dict) refl
block_of-type payload (some (string kind)) e h =
    rw (e, block_of, block_from_dict) (structured-typed kind payload h)
block_of-type payload (some null) e h = rw (e, block_of, block_from_dict) refl
block_of-type payload (some (bool b)) e h = rw (e, block_of, block_from_dict) refl
block_of-type payload (some (num t)) e h = rw (e, block_of, block_from_dict) refl
block_of-type payload (some (arr xs)) e h = rw (e, block_of, block_from_dict) refl
block_of-type payload (some (obj fs)) e h = rw (e, block_of, block_from_dict) refl

-- The client reads the blocks of a live response exactly as a stored conversation is read back, with
-- the same results and the same errors, if none of them is a tool's result.
pub blocks_of-blocks_from_wire :
    (payloads : List Fields)
    → All (λ p. IsNoResult (field? p "type")) payloads
    → blocks_of payloads ≡ blocks_from_wire payloads
unfolding blocks_of blocks_from_wire
blocks_of-blocks_from_wire [] h = refl
blocks_of-blocks_from_wire (p ∷ ps) (h, hs) =
    rw (block_of-type p (field? p "type") refl h, blocks_of-blocks_from_wire ps hs) refl
