-- ===== src/Store/Postgres/Reads.antt =====
-- What is read back from the rows that the PostgreSQL store has written.
use agent_force.Prelude.{
  ℕ, suc, ◌≡◌, refl, sym, ap, ◌∙◌, Option, none, some, String, List, [], ◌∷◌, ◌++◌, map, length,
  All,
}
use agent_force.Effects.{ok, bind-ok, ok-injective}
use agent_force.Messages.{Message}
use agent_force.Messages.Wire.{blocks_from_wire}
use agent_force.Messages.RoundTrip.{IsReplayable, blocks_from_wire-blocks_to_wire}
use agent_force.State.{StepRecord, ToolCallRecord}
use agent_force.Database.Numbering.{IsNumbered}
use agent_force.Store.Postgres.Models.{StepRow, MessageRow}
use agent_force.Store.Postgres.Records.{
  as_optional, optional, tool_call_to_wire, tool_call_from_wire, tool_calls_from_wire, step_row,
  step_from_row, steps_from_rows, message_rows, messages_from_rows,
}

as_optional-optional : (d : Option String) → as_optional (some (optional d)) ≡ ok d
unfolding as_optional
as_optional-optional none = refl
as_optional-optional (some t) = refl

tool_call_from_wire-tool_call_to_wire :
    (call : ToolCallRecord) → tool_call_from_wire (tool_call_to_wire call) ≡ ok call
unfolding tool_call_from_wire tool_call_to_wire
tool_call_from_wire-tool_call_to_wire call = rw (as_optional-optional call.detail) refl

tool_calls-wire :
    (calls : List ToolCallRecord) → tool_calls_from_wire (map tool_call_to_wire calls) ≡ ok calls
unfolding tool_calls_from_wire
tool_calls-wire [] = refl
tool_calls-wire (c ∷ cs) =
    rw (tool_call_from_wire-tool_call_to_wire c) (rw (tool_calls-wire cs) refl)

-- A step as the columns keep it: the tokens that created the cache have none.
abbrev pub without_creation : StepRecord → StepRecord
without_creation step = record step {
  usage = record step.usage { cache_creation_input_tokens = 0 };
}

pub step_from_row-step_row :
    (step : StepRecord) → step_from_row (step_row step) ≡ ok (without_creation step)
unfolding step_from_row step_row
step_from_row-step_row step = rw (tool_calls-wire step.tool_calls) refl

pub steps_from_rows-snoc :
    (rows : List StepRow) (steps : List StepRecord) (step : StepRecord)
    → steps_from_rows rows ≡ ok steps
    → steps_from_rows (rows ++ step_row step ∷ []) ≡ ok (steps ++ without_creation step ∷ [])
unfolding steps_from_rows
steps_from_rows-snoc [] steps step h =
    rw (step_from_row-step_row step)
      (ap (λ xs. ok (xs ++ without_creation step ∷ [])) (ok-injective h))
steps_from_rows-snoc (r ∷ rs) steps step h =
    let (x, e, k) = bind-ok (step_from_row r) _ _ h in
    let (xs, e', k') = bind-ok (steps_from_rows rs) _ _ k in
    rw (e, steps_from_rows-snoc rs xs step e')
      (ap (λ ys. ok (ys ++ without_creation step ∷ [])) (ok-injective k'))

pub length-steps_from_rows :
    (rows : List StepRow) (steps : List StepRecord)
    → steps_from_rows rows ≡ ok steps
    → length steps ≡ length rows
unfolding steps_from_rows
length-steps_from_rows [] steps h = ap length (sym (ok-injective h))
length-steps_from_rows (r ∷ rs) steps h =
    let (x, e, k) = bind-ok (step_from_row r) _ _ h in
    let (xs, e', k') = bind-ok (steps_from_rows rs) _ _ k in
    ap length (sym (ok-injective k')) ∙ ap suc (length-steps_from_rows rs xs e')

pub messages_from_rows-message_rows :
    (step_idx n : ℕ) (ms : List Message)
    → All (λ m. All IsReplayable m.content) ms
    → messages_from_rows (message_rows step_idx n ms) ≡ ok ms
unfolding messages_from_rows message_rows
messages_from_rows-message_rows step_idx n [] h = refl
messages_from_rows-message_rows step_idx n (m ∷ ms) (h, hs) =
    rw (blocks_from_wire-blocks_to_wire m.content h)
      (rw (messages_from_rows-message_rows step_idx (suc n) ms hs) refl)

pub messages_from_rows-append :
    (xs ys : List MessageRow) (ms ns : List Message)
    → messages_from_rows xs ≡ ok ms
    → messages_from_rows ys ≡ ok ns
    → messages_from_rows (xs ++ ys) ≡ ok (ms ++ ns)
unfolding messages_from_rows
messages_from_rows-append [] ys ms ns h g = g ∙ ap (λ zs. ok (zs ++ ns)) (ok-injective h)
messages_from_rows-append (x ∷ xs) ys ms ns h g =
    let (c, e, k) = bind-ok (blocks_from_wire x.content) _ _ h in
    let (zs, e', k') = bind-ok (messages_from_rows xs) _ _ k in
    rw (e, messages_from_rows-append xs ys zs ns e' g) (ap (λ us. ok (us ++ ns)) (ok-injective k'))

pub message_rows-IsNumbered :
    (step_idx n : ℕ) (ms : List Message) → IsNumbered (λ r. r.idx) n (message_rows step_idx n ms)
unfolding message_rows
message_rows-IsNumbered step_idx n [] = tt
message_rows-IsNumbered step_idx n (m ∷ ms) = (refl, message_rows-IsNumbered step_idx (suc n) ms)
