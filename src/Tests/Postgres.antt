-- ===== src/Tests/Postgres.antt =====
-- The PostgreSQL adapters over tables of lists.
use agent_force.Prelude.{
  ◌+◌, ◌≡◌, ◌≢◌, refl, true, false, String, none, some, [], nat_Eq, string_Eq, arith, str_eq_iff,
}
use agent_force.Prelude.Dict.{Dict, get, put}
use agent_force.Effects.{ok, err}
use agent_force.State.{RunRecord, RunOutcome, completed, no_usage, next_step_idx}
use agent_force.Tools.Spec.{unsafe}
use agent_force.Idempotency.{decision, execute}
use agent_force.Ledger.Memory as Memory
use agent_force.Ledger.Memory.{empty_ledger}
use agent_force.Ledger.Postgres as Ledger
use agent_force.Ledger.Postgres.{ToolInvocation, pending_row}
use agent_force.Ledger.Refinement.{Represents, operations-Represents}
use agent_force.Ledger.Races.{begin-executes_once, here, after, completes}
use agent_force.Database.Rows.{insert_row, update_row, first_row, add_row, run_rows, earlier}
use agent_force.Store.Memory.{already_committed}
use agent_force.Store.Records.{seconds}
use agent_force.Store.Contract.{IsLeaseStore, Others-keeps, and_claim, and_finish, nothing}
use agent_force.Store.Contract.Postgres.{lease_at, lease_store, postgres-IsLeaseStore}
use agent_force.Store.Postgres.Models.{RunRow}
use agent_force.Store.Postgres.Records.{record_of, new_row}
use agent_force.Store.Postgres.Runs.{create, load, commit_step, finish, record_retry}
use agent_force.Store.Postgres.Leases.{
  claim, claim_next_reclaimable, lease_row, is_candidate, is_open, is_free,
}
use agent_force.Store.Postgres.Commits.{IsDense, with_step, commit_step-replays}
use agent_force.Store.Postgres.Kept.{finishes, and_then}
use agent_force.Store.Postgres.Kept as Kept
use agent_force.Store.Postgres.Duplicates.{commit_step-no_duplicate}
use agent_force.Store.Postgres.Abandoned.{IsKept}
use agent_force.Store.Postgres.Recovery.{claim_next_complete}
use agent_force.Store.Postgres.Outcomes.{closed, lent, finish-closes, record_retry-charges}
use agent_force.Tests.Fixtures.{question, answer_step, turn}
use agent_force.Tests.Tables.{
  invocations, invocations-IsTable, tables, tables-IsSchema, Db, created,
}

empty-Represents : Represents invocations [] empty_ledger
unfolding get
empty-Represents = record { at_key = λ key. refl }

abbrev begun : Dict String ToolInvocation
begun = (Ledger.begin invocations 7 0 "send" unsafe "k" []).1

operations-Represents_example :
    ((Ledger.begin invocations 7 0 "send" unsafe "k" []).0
      ≡ ok (Memory.begin unsafe "k" empty_ledger).0)
    × Represents invocations begun (Memory.begin unsafe "k" empty_ledger).1
    × (Ledger.lookup invocations "j" begun
        ≡ Memory.lookup "j" (Memory.begin unsafe "k" empty_ledger).1)
    × ((Memory.complete "k" "sent" false (Memory.begin unsafe "k" empty_ledger).1).0 ≡ ok tt)
    × Represents invocations
        (Ledger.complete invocations "k" "sent" false 9 begun)
        (Memory.complete "k" "sent" false (Memory.begin unsafe "k" empty_ledger).1).1
    × ((Memory.mark_needs_review "k" "sent" (Memory.begin unsafe "k" empty_ledger).1).0 ≡ ok tt)
    × Represents invocations
        (Ledger.mark_needs_review invocations "k" "sent" 9 begun)
        (Memory.mark_needs_review "k" "sent" (Memory.begin unsafe "k" empty_ledger).1).1
operations-Represents_example =
    operations-Represents invocations invocations-IsTable 7 0 "send" unsafe "k" "j" "sent" false 9
      [] empty_ledger refl empty-Represents

begins : Ledger.begin invocations 7 0 "send" unsafe "k" [] ≡ (ok (decision execute), begun)
unfolding Ledger.begin insert_row get put
begins = refl

begin-executes_once_example :
    (Ledger.begin invocations 7 0 "send" unsafe "k"
      (Ledger.complete invocations "k" "sent" false 9 begun)).0
    ≢ ok (decision execute)
begin-executes_once_example =
    begin-executes_once invocations invocations-IsTable 7 0 "send" unsafe "k" [] begun _ 7 0 "send"
      unsafe begins (after here (completes "k" "sent" false 9 begun))

abbrev asked : RunRecord
asked = record_of 7 (new_row question 5) [] []

loads : load tables 7 created ≡ ok asked
unfolding create load insert_row get put new_row run_rows
loads = refl

created-IsDense : IsDense tables 7 created
unfolding create insert_row get put new_row run_rows
created-IsDense = record { steps = tt; messages = tt }

abbrev committed : Db
committed = (commit_step tables 7 answer_step turn 6 created).1

commits : commit_step tables 7 answer_step turn 6 created ≡ (ok tt, committed)
unfolding create insert_row get put new_row run_rows commit_step add_row
commits = refl

postgres-IsLeaseStore_example : IsLeaseStore (lease_store tables)
postgres-IsLeaseStore_example = postgres-IsLeaseStore tables tables-IsSchema

commit_step-replays_example :
    ((commit_step tables 7 answer_step turn 6 created).0 ≡ ok tt)
    × (load tables 7 (commit_step tables 7 answer_step turn 6 created).1
        ≡ ok (with_step asked answer_step turn))
    × IsDense tables 7 (commit_step tables 7 answer_step turn 6 created).1
unfolding next_step_idx
commit_step-replays_example =
    commit_step-replays tables tables-IsSchema 7 answer_step turn 6 created asked created-IsDense
      loads refl ((tt, tt), tt)

abbrev done : RunOutcome
done = record {
  status = completed;
  usage = no_usage;
  messages = [];
  steps = [];
  answer = some "42";
  error_code = none;
  error_message = none;
}

-- The run was finished, and the scan found nothing, before the second commit.
abbrev moved_on : Db
moved_on =
    (claim_next_reclaimable tables (λ id. false) "b" 30 9 (finish tables 7 done 8 committed).1).1

commit_step-no_duplicate_example :
    commit_step tables 7 answer_step [] 10 moved_on ≡ (err (already_committed 7 0), moved_on)
commit_step-no_duplicate_example =
    commit_step-no_duplicate tables tables-IsSchema 7 answer_step answer_step turn [] 6 10 created
      committed moved_on commits
      (and_then (and_then Kept.nothing (finishes 7 done 8)) (Kept.reclaims (λ id. false) "b" 30 9))
      refl

finish-closes_example :
    ((finish tables 7 done 9 created).0 ≡ ok tt)
    × (load tables 7 (finish tables 7 done 9 created).1 ≡ ok (closed done (some "42") asked))
finish-closes_example = finish-closes tables tables-IsSchema 7 done 9 created asked loads

record_retry-charges_example :
    ((record_retry tables 7 created).0 ≡ ok 1)
    × (load tables 7 (record_retry tables 7 created).1 ≡ ok (record asked { retries_used = 1 }))
unfolding new_row
record_retry-charges_example = record_retry-charges tables tables-IsSchema 7 created asked loads

abbrev reclaimed : Db
reclaimed = (claim_next_reclaimable tables (λ id. false) "a" 30 9 created).1

reclaims :
    claim_next_reclaimable tables (λ id. false) "a" 30 9 created
    ≡ (ok (some (lent "a" 30 9 asked)), reclaimed)
unfolding create insert_row get put new_row claim_next_reclaimable first_row earlier is_candidate
    is_open is_free update_row lease_row load run_rows
reclaims = refl

nothing_left : claim_next_reclaimable tables (λ id. false) "b" 30 9 reclaimed ≡ (ok none, reclaimed)
unfolding create insert_row get put new_row claim_next_reclaimable first_row earlier is_candidate
    is_open is_free update_row lease_row load run_rows
nothing_left = refl

abbrev lent_row : RunRow
lent_row = lease_row "a" 30 9 (new_row question 5)

claim_next_complete_example : (reclaimed ≡ reclaimed) × IsKept (λ id. false) 9 7 lent_row
unfolding create insert_row get put new_row claim_next_reclaimable first_row earlier is_candidate
    is_open is_free update_row lease_row
claim_next_complete_example =
    claim_next_complete tables tables-IsSchema (λ id. false) "b" 30 9 reclaimed reclaimed 7 lent_row
      nothing_left refl

strangers : ◌≢◌ {A = String} "b" "a"
strangers = λ e. let h : false ≡ true = (str_eq_iff "b" "a").1 e in ground arith

holds : lease_at tables 7 reclaimed ≡ some ("a", 9 + seconds 30)
unfolding create insert_row get put new_row claim_next_reclaimable first_row earlier is_candidate
    is_open is_free update_row lease_row
holds = refl

Others-keeps_example :
    lease_at tables 7 (finish tables 8 done 11 (claim tables 7 "b" 30 10 reclaimed).1).1
    ≡ some ("a", 9 + seconds 30)
Others-keeps_example =
    Others-keeps (lease_store tables) (postgres-IsLeaseStore tables tables-IsSchema) 7 "a"
      (9 + seconds 30) holds
      (and_finish 8 done 11 (and_claim 7 "b" 30 10 nothing strangers (omega arith)) refl)
