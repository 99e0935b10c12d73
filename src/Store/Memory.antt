-- ===== src/Store/Memory.antt =====
-- `InMemoryRunStore` of app/adapters/db/memory.py. `datetime.now` and the new UUID are arguments.
use agent_force.Prelude.{
  ℕ, ◌+◌, ◌-◌, Bool, true, false, not, ◌&&◌, String, Option, none, some, List, [], ◌∷◌, ◌++◌, any,
  nat_Eq, string_Eq, ltb, nat_eq, str_eq, if◌then◌else◌, ◌||◌,
}
use agent_force.Prelude.Dict.{put}
use agent_force.Prelude.Text.{◌&◌, show_uuid, show_nat}
use agent_force.Errors.{Exc, step_already_committed}
use agent_force.Effects.{Result, ok, err, ◌>>=◌}
use agent_force.Messages.{Message}
use agent_force.Messages.Wire.{blocks_to_wire, blocks_from_wire}
use agent_force.State.{
  RunStatus, running, is_terminal, NewRun, RunRecord, RunOutcome, StepRecord, plus,
}
use agent_force.Store.Records.{
  MemoryStore, StoredRun, existing_run, find, insert_new, or_same, pair_Eq, save, seconds,
  stored_at,
}

unfoldable pub create : NewRun → ℕ → MemoryStore → Result RunRecord × MemoryStore
unfolding insert_new existing_run stored_at
create spec id s = elim (existing_run spec s) [
  | none ↦ insert_new spec id s
  | some run_id ↦ or_same s (do stored ← stored_at s run_id; ok (stored.run, s))
]

unfoldable pub load : ℕ → MemoryStore → Result RunRecord
unfolding find
load run_id s = do stored ← find s run_id; ok stored.run

-- The messages rebuilt from their wire form.
unfoldable pub rehydrate : List Message → Result (List Message)
unfolding blocks_to_wire blocks_from_wire
rehydrate [] = ok []
rehydrate (m ∷ ms) = do
  content ← blocks_from_wire (blocks_to_wire m.content)
  rest ← rehydrate ms
  ok ((record m { content = content }) ∷ rest)

unfoldable pub is_committed : ℕ → List StepRecord → Bool
is_committed idx steps = any (λ step. nat_eq step.idx idx) steps

unfoldable pub already_committed : ℕ → ℕ → Exc
already_committed run_id idx =
    step_already_committed
      ("Step " & show_nat idx & " of run " & show_uuid run_id & " is already committed.")

unfoldable pub append_step : RunRecord → StepRecord → List Message → RunRecord
unfolding plus
append_step r step replayed = record r {
  status = running;
  steps = r.steps ++ step ∷ [];
  messages = r.messages ++ replayed;
  usage = plus r.usage step.usage;
}

unfoldable pub commit_step :
    ℕ → StepRecord → List Message → MemoryStore → Result (Unit {0}) × MemoryStore
unfolding find is_committed already_committed rehydrate append_step put
commit_step run_id step messages s = or_same s (do
  stored ← find s run_id
  if is_committed step.idx stored.run.steps then err (already_committed run_id step.idx) else (do
    replayed ← rehydrate messages
    ok (tt, save s run_id (record stored { run = append_step stored.run step replayed }))))

unfoldable pub finish : ℕ → RunOutcome → MemoryStore → Result (Unit {0}) × MemoryStore
unfolding stored_at put
finish run_id outcome s = or_same s (do
  stored ← stored_at s run_id
  ok (
    tt,
    save s run_id (record {
      run = record stored.run {
        status = outcome.status;
        answer = outcome.answer;
        error_code = outcome.error_code;
        error_message = outcome.error_message;
        lease_owner = none;
        lease_expires_at = none;
      };
      owner = none;
      expires = none;
    }),
  ))

unfoldable pub record_retry : ℕ → MemoryStore → Result ℕ × MemoryStore
unfolding stored_at put
record_retry run_id s = or_same s (do
  stored ← stored_at s run_id
  let total = stored.run.retries_used + 1
  ok (total, save s run_id (record stored { run = record stored.run { retries_used = total } })))

-- `stored.lease_expires_at is not None and stored.lease_expires_at > now`
unfoldable pub is_held : StoredRun → ℕ → Bool
is_held stored now = elim stored.expires [ none ↦ false | some at ↦ ltb now at ]

unfoldable pub owned_by : StoredRun → String → Bool
owned_by stored owner = elim stored.owner [ none ↦ false | some holder ↦ str_eq holder owner ]

unfoldable pub take_lease : StoredRun → String → ℕ → ℕ → StoredRun
take_lease stored owner ttl now = record {
  run = record stored.run { status = running; lease_owner = some owner };
  owner = some owner;
  expires = some (now + seconds ttl);
}

unfoldable pub claim : ℕ → String → ℕ → ℕ → MemoryStore → Result (Option RunRecord) × MemoryStore
unfolding find is_held owned_by take_lease put is_terminal
claim run_id owner ttl now s = or_same s (do
  stored ← find s run_id
  if is_terminal stored.run.status || (is_held stored now && not (owned_by stored owner))
      then ok (none, s)
      else (do
        let taken = take_lease stored owner ttl now
        ok (some taken.run, save s run_id taken)))

-- The first run, in the order of creation, that is not terminal and whose lease is not live.
unfoldable pub first_reclaimable : ℕ → List (ℕ × StoredRun) → Option ℕ
unfolding is_terminal is_held
first_reclaimable now [] = none
first_reclaimable now ((run_id, stored) ∷ rest) =
    if is_terminal stored.run.status || is_held stored now
    then first_reclaimable now rest
    else some run_id

unfoldable pub claim_next_reclaimable :
    String → ℕ → ℕ → MemoryStore → Result (Option RunRecord) × MemoryStore
unfolding first_reclaimable claim
claim_next_reclaimable owner ttl now s = elim (first_reclaimable now s.runs) [
  | none ↦ (ok none, s)
  | some run_id ↦ claim run_id owner ttl now s
]

unfoldable pub renew : ℕ → String → ℕ → ℕ → MemoryStore → Result Bool × MemoryStore
unfolding stored_at owned_by is_held put
renew run_id owner ttl now s = or_same s (do
  stored ← stored_at s run_id
  if owned_by stored owner && is_held stored now
      then ok (true, save s run_id (record stored { expires = some (now + seconds ttl) }))
      else ok (false, s))

unfoldable pub release : ℕ → String → RunStatus → MemoryStore → Result (Unit {0}) × MemoryStore
unfolding stored_at owned_by put
release run_id owner status s = or_same s (do
  stored ← stored_at s run_id
  if owned_by stored owner
      then ok (
        tt,
        save s run_id (record {
          run = record stored.run { status = status; lease_owner = none };
          owner = none;
          expires = none;
        }),
      )
      else ok (tt, s))

-- `expire_lease`, a test affordance: the lease ended a second ago.
unfoldable pub expire_lease : ℕ → ℕ → MemoryStore → Result (Unit {0}) × MemoryStore
unfolding stored_at put
expire_lease run_id now s = or_same s (do
  stored ← stored_at s run_id
  ok (tt, save s run_id (record stored { expires = some (now - seconds 1) })))
