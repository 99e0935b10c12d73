-- ===== src/Tests/Llm.antt =====
-- A scripted model and a live response.
use agent_force.Prelude.{◌≡◌, refl, List, [], ◌∷◌}
use agent_force.Prelude.Int.{pos}
use agent_force.Errors.{script_exhausted}
use agent_force.Effects.{Result, ok, err}
use agent_force.Json.{Fields, string, end, field, field?}
use agent_force.Messages.{low, LlmResponse}
use agent_force.Messages.Wire.{blocks_from_wire}
use agent_force.Ports.{Request}
use agent_force.Llm.Anthropic.{blocks_of}
use agent_force.Llm.Fake.{complete, says, exhausted}
use agent_force.Llm.Script.{play, plays_in_order}
use agent_force.Llm.Translation.{blocks_of-blocks_from_wire}

abbrev ask : Request
ask = record { messages = []; system = "s"; tools = []; max_tokens = pos 100; effort = low }

abbrev hello : Result LlmResponse
hello = ok (says "hello" 100 10)

plays_in_order_example :
    (play (ask ∷ []) (record { script = hello ∷ hello ∷ []; calls = [] })
      ≡ (hello ∷ [], record { script = hello ∷ hello ∷ []; calls = ask ∷ [] }))
    × (complete ask (play (ask ∷ []) (record { script = hello ∷ []; calls = [] })).1 ≡ (
      err (script_exhausted (exhausted 2 1)),
      record { script = hello ∷ []; calls = ask ∷ ask ∷ [] },
    ))
plays_in_order_example = plays_in_order (hello ∷ []) (hello ∷ []) (ask ∷ []) ask refl

abbrev payloads : List Fields
payloads =
    field "type" (string "thinking") (field "signature" (string "sig") end)
    ∷ field "type" (string "text") (field "text" (string "42") end)
    ∷ []

blocks_of-blocks_from_wire_example : blocks_of payloads ≡ blocks_from_wire payloads
unfolding field?
blocks_of-blocks_from_wire_example = blocks_of-blocks_from_wire payloads (refl, (refl, tt))
