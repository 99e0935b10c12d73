-- ===== src/Tests/Values.antt =====
-- Messages, limits and backoff at concrete values.
use agent_force.Prelude.{ℕ, ◌+◌, ◌*◌, ◌<◌, ◌≤◌, ◌≡◌, ◌↔◌, refl, min, List, [], ◌∷◌, arith}
use agent_force.Prelude.{String, leb, ◌&&◌, true, false, ◌≢◌, ap, str_eq}
use agent_force.Prelude.Text.{count}
use agent_force.Tools.Spec.{matches_tool_name, name_rest, is_name_char}
use agent_force.Tools.Names.{is_plain, chomp, matches_tool_name-eq}
use agent_force.Prelude.Int.{pos}
use agent_force.Effects.{ok}
use agent_force.Json.{string, end, field}
use agent_force.Json.Reordered.{swapped}
use agent_force.Idempotency.Key.{invocation_key}
use agent_force.Idempotency.Canonical.{invocation_key-Reordered}
use agent_force.Messages.{ContentBlock, text_block, tool_use_block, opaque_block}
use agent_force.Messages.Wire.{blocks_from_wire, blocks_to_wire}
use agent_force.Messages.RoundTrip.{blocks_from_wire-blocks_to_wire}
use agent_force.State.{RunUsage, default_limits, total_tokens}
use agent_force.Policy.{check, max_tokens_for_next_step, min_viable_output_tokens}
use agent_force.Policy.Bounds.{check-eq-ok_iff, max_tokens_affordable}
use agent_force.Retry.{ceiling, delay_for, default_backoff, random_steps}
use agent_force.Retry.Jitter.{delay_for-lt-ceiling}

abbrev blocks : List ContentBlock
blocks =
    text_block "hello"
    ∷ tool_use_block "t1" "send" end
    ∷ opaque_block "thinking" (field "signature" (string "s") end)
    ∷ []

abbrev half_used : RunUsage
half_used = record { steps = 5; input_tokens = 90000; output_tokens = 20000; cache_read_tokens = 0 }

authorised : check default_limits half_used ≡ ok tt
unfolding check total_tokens
authorised = refl

blocks_from_wire-blocks_to_wire_example : blocks_from_wire (blocks_to_wire blocks) ≡ ok blocks
blocks_from_wire-blocks_to_wire_example =
    blocks_from_wire-blocks_to_wire blocks (tt, (tt, ((refl, refl, refl, (refl, tt)), tt)))

check-eq-ok_iff_example : (check default_limits half_used ≡ ok tt) ↔ (
    (half_used.steps < default_limits.max_steps)
    × (total_tokens half_used + min_viable_output_tokens ≤ default_limits.token_budget))
check-eq-ok_iff_example = check-eq-ok_iff default_limits half_used

max_tokens_affordable_example :
    (m : ℕ) × (max_tokens_for_next_step default_limits half_used ≡ pos m)
    × (m ≤ default_limits.max_output_tokens)
    × (total_tokens half_used + m ≤ default_limits.token_budget)
    × (min min_viable_output_tokens default_limits.max_output_tokens ≤ m)
max_tokens_affordable_example = max_tokens_affordable default_limits half_used authorised

delay_for-lt-ceiling_example :
    (delay_for default_backoff 4 77 < ceiling default_backoff 4 * random_steps)
    × (ceiling default_backoff 4 ≤ default_backoff.max_delay)
    × (0 < ceiling default_backoff 4)
delay_for-lt-ceiling_example =
    delay_for-lt-ceiling default_backoff 4 77 (omega arith) (omega arith) (omega arith)
      (omega arith)

-- A name that ends in a line feed.
matches_tool_name-eq_example : matches_tool_name "send\n" ≡ (
    leb 1 (count (chomp "send\n"))
    && (is_plain (chomp "send\n") && leb (count (chomp "send\n")) 64))
matches_tool_name-eq_example = matches_tool_name-eq "send\n"

accepts_line_feed : matches_tool_name "send\n" ≡ true
unfolding matches_tool_name name_rest is_name_char
accepts_line_feed = refl

to_not_body : (let s : String = "to" in s ≢ "body")
to_not_body e = let wrong : false ≡ true = ap (λ s. str_eq s "body") e in ground arith

-- Two fields change places.
invocation_key-Reordered_example :
    invocation_key (λ t. t) 7 2 "send" (field "to" (string "ann") (field "body" (string "hi") end))
    ≡ invocation_key
        (λ t. t)
        7
        2
        "send"
        (field "body" (string "hi") (field "to" (string "ann") end))
invocation_key-Reordered_example =
    invocation_key-Reordered (λ t. t) 7 2 "send"
      (swapped "to" "body" (string "ann") (string "hi") end to_not_body)
