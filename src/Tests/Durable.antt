-- ===== src/Tests/Durable.antt =====
-- A run that the model answers in two steps, and what the stores hold of it.
use agent_force.Prelude.{
  ℕ, zero, suc, ◌≡◌, refl, subst, sym, String, nat_Eq, string_Eq, arith, All, ◌⊎◌, some,
}
use agent_force.Prelude.Dict.{get}
use agent_force.Effects.{ok, ok-injective}
use agent_force.Effects.Ensures.{Ensures}
use agent_force.Json.{Json}
use agent_force.Messages.{LlmResponse}
use agent_force.Messages.RoundTrip.{IsReplayable}
use agent_force.State.{default_limits, is_terminal, RunRecord, RunOutcome}
use agent_force.Tools.Spec.{ToolSpec}
use agent_force.Tools.Registry.{lookup}
use agent_force.World.{World}
use agent_force.Store.Records.{MemoryStore, new_record}
use agent_force.Ledger.Memory.{begin, complete}
use agent_force.Store.Memory.{create, claim, commit_step, renew, finish, is_held}
use agent_force.Store.Port.{store_port}
use agent_force.Store.Durable.{
  MemoryHolds, MemoryClosed, MemoryFree, memory-StoresRun, memory-lends,
}
use agent_force.Store.Postgres.Port as Postgres
use agent_force.Store.Postgres.Reads.{without_creation}
use agent_force.Store.Postgres.Durable.{PostgresHolds, PostgresClosed, postgres-StoresRun}
use agent_force.Tests.Tables.{tables, tables-IsSchema}
use agent_force.Loop.History.{History, history_of, IsConsistent, StoresRun}
use agent_force.Loop.Tracking.{Extends}
use agent_force.Loop.Untouched.{LeavesAlone}
use agent_force.Loop.Durable.{Left, Reported}
use agent_force.Loop.Durability.{RepliesReplayably, run-Durable}
use agent_force.Loop.Resumed.{TakenUp, not_yet, runs, TakenUp-Left}
use agent_force.Loop.Drive.{run}
use agent_force.Tests.Fixtures.{tools, question}
use agent_force.Tests.Runs.{deps, asked, claimed, claimed_run, claims_run, replies, after_run}

memory-StoresRun_example :
    StoresRun (store_port {E = ℕ}) 7 "a" 30 (λ step. step) (MemoryHolds 7) (MemoryClosed 7)
memory-StoresRun_example = memory-StoresRun 7 "a" 30

postgres-StoresRun_example :
    StoresRun
      (Postgres.store_port {E = ℕ} tables)
      7
      "a"
      30
      without_creation
      (PostgresHolds tables 7)
      (PostgresClosed tables 7)
postgres-StoresRun_example = postgres-StoresRun tables 7 tables-IsSchema "a" 30

-- What a tool of the test does not touch.
tools_keep_store :
    (name : String) (spec : ToolSpec (World ℕ)) (payload : Json) (w : World ℕ)
    → lookup tools name ≡ ok spec
    → (spec.handler payload w).1.store ≡ w.store
unfolding lookup get
tools_keep_store name spec payload w h = ground arith

deps-LeavesAlone : (h : History) → LeavesAlone deps (MemoryHolds 7 h)
deps-LeavesAlone h = record {
  asks = λ request w p. p;
  runs_tool = λ name spec payload found w p.
      subst (Kept h) (sym (tools_keep_store name spec payload w found)) p;
  begins = λ run_id step_idx tool effect key w p. p;
  looks_up = λ key w p. p;
  reviews = λ key reason w p. p;
  completes = λ key result is_error w p. p;
  enqueues = λ queue run_id step_idx name input key found. absurd (ground arith);
  sleeps = λ d w p. p;
  reads = λ w p. p;
  draws = λ w p. p;
  enters = λ d w p. p;
  leaves = λ w p. p;
}
  where
    Kept : History → MemoryStore → Type 0
    Kept h s = MemoryHolds 7 h (record asked { store = s })

replies-All : (n : ℕ) → All IsReplayable (replies n).content
replies-All zero = (tt, tt)
replies-All (suc n) = (tt, tt)

deps-RepliesReplayably : RepliesReplayably deps
deps-RepliesReplayably request response w h =
    subst (λ (r : LlmResponse). All IsReplayable r.content) (ok-injective h) (replies-All w.env)

abbrev asked_history : History
asked_history = history_of (new_record question 7)

asked-Holds : MemoryHolds 7 asked_history asked
unfolding create new_record get is_terminal
asked-Holds = (_, refl, refl, refl)

asked-IsConsistent : IsConsistent default_limits asked_history
unfolding new_record
asked-IsConsistent = record { numbered = tt; counted = refl; capped = omega arith }

run-Durable_example :
    Ensures
      (Reported (λ step. step) (MemoryHolds 7) (MemoryClosed 7) default_limits asked_history)
      (Left (λ step. step) (MemoryHolds 7) (MemoryClosed 7) default_limits asked_history)
      (run deps 7 "a" asked)
unfolding new_record
run-Durable_example =
    run-Durable deps 7 "a" (λ step. step) (MemoryHolds 7) (MemoryClosed 7)
      (memory-StoresRun 7 "a" 30) deps-LeavesAlone deps-RepliesReplayably asked_history claimed_run
      asked claimed asked-Holds claims_run asked-IsConsistent

-- The run is taken up once.
taken_up : TakenUp deps 7 (MemoryHolds 7) (MemoryClosed 7) asked after_run
taken_up = runs "a" claimed_run claimed not_yet claims_run

-- The lease of the first worker has ended with the run.
after_run-Free : MemoryFree 7 "b" after_run
unfolding run begin complete claim create commit_step renew finish get is_held
after_run-Free = (_, refl, refl)

TakenUp-Left_example :
    (g : History) × IsConsistent default_limits g
    × Extends asked_history g
    × (((r : RunRecord) × (u : World ℕ) × (deps.store.claim 7 "b" 30 after_run ≡ (ok (some r), u))
          × (history_of r ≡ g))
        ⊎ ((o : RunOutcome) × MemoryClosed 7 o g after_run))
unfolding new_record
TakenUp-Left_example =
    TakenUp-Left (λ step. step) (MemoryHolds 7) (MemoryClosed 7) deps 7
      (λ owner. memory-StoresRun 7 owner 30) deps-LeavesAlone deps-RepliesReplayably
      (MemoryFree 7 "b") "b" (memory-lends 7 "b" 30) asked_history asked after_run asked-Holds
      asked-IsConsistent taken_up after_run-Free
