-- ===== src/Tests/Leases.antt =====
-- A run of the in-memory store: created, claimed by two workers, and committed to.
use agent_force.Prelude.{
  ◌≡◌, ◌≢◌, refl, true, false, String, some, [], ◌∷◌, ◌++◌, nat_Eq, string_Eq, arith, str_eq_iff,
}
use agent_force.Prelude.Dict.{get, put}
use agent_force.Effects.{ok}
use agent_force.State.{RunRecord, running, plus, is_terminal}
use agent_force.Store.Memory.{
  create, claim, commit_step, load, is_held, owned_by, take_lease, is_committed, rehydrate,
}
use agent_force.Store.Records.{
  MemoryStore, empty_store, insert_new, new_record, keep_key, existing_run, find, pair_Eq,
}
use agent_force.Store.Commits.{commit_step-appends}
use agent_force.Store.Creation.{create-once}
use agent_force.Store.Steps.{started, after, creates, claims}
use agent_force.Store.Invariant.{IsValid}
use agent_force.Store.Histories.{Reached-IsValid}
use agent_force.Tests.Fixtures.{question, answer_step, turn}

abbrev created : MemoryStore
created = (create question 7 empty_store).1

abbrev asked : RunRecord
asked = new_record question 7

abbrev mine : RunRecord
mine = record asked { status = running; lease_owner = some "a" }

abbrev claimed : MemoryStore
claimed = (claim 7 "a" 30 100 created).1

abbrev committed : MemoryStore
committed = (commit_step 7 answer_step turn created).1

creates_run : create question 7 empty_store ≡ (ok asked, created)
unfolding create existing_run insert_new
creates_run = refl

claims_run : claim 7 "a" 30 100 created ≡ (ok (some mine), claimed)
unfolding create existing_run insert_new new_record keep_key claim find get put is_terminal is_held
    owned_by take_lease
claims_run = refl

strangers : ◌≢◌ {A = String} "a" "b"
strangers = λ e. let h : false ≡ true = (str_eq_iff "a" "b").1 e in ground arith

loads : load 7 created ≡ ok asked
unfolding create existing_run insert_new keep_key load find get put new_record
loads = refl

commits : commit_step 7 answer_step turn created ≡ (ok tt, committed)
unfolding create existing_run insert_new keep_key commit_step find get put new_record is_committed
    rehydrate
commits = refl

commit_step-appends_example :
    ((commit_step 7 answer_step turn created).0 ≡ ok tt)
    × (load 7 (commit_step 7 answer_step turn created).1
        ≡ ok (record asked {
          status = running;
          steps = asked.steps ++ answer_step ∷ [];
          messages = asked.messages ++ turn;
          usage = plus asked.usage answer_step.usage;
        }))
unfolding new_record is_committed
commit_step-appends_example =
    commit_step-appends 7 answer_step turn created asked loads refl ((tt, tt), tt)

create-once_example : create question 8 created ≡ (ok asked, created)
create-once_example =
    create-once question question 7 8 "k" empty_store created asked creates_run refl refl refl

Reached-IsValid_example : IsValid claimed
Reached-IsValid_example =
    Reached-IsValid claimed (after (after started (creates question 7)) (claims 7 "a" 30 100))
