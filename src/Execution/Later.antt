-- ===== src/Execution/Later.antt =====
-- An invocation that is attempted again, after whatever other invocations there were in between.
use agent_force.Prelude.{
  ◌≡◌, sym, subst, ap, ◌∙◌, ℕ, Bool, false, String, some, string_Eq, ◌==◌, inl, inr, Option-cases,
}
use agent_force.Prelude.Dict.{get, get-put_ne}
use agent_force.Effects.Prog.{Run, returns}
use agent_force.Json.{Fields}
use agent_force.Tools.Spec.{EffectClass}
use agent_force.Tools.Registry.{Registry}
use agent_force.Idempotency.{InvocationOutcome}
use agent_force.World.{World}
use agent_force.Ledger.Memory.{Ledger, Invocation, begin, complete, mark_needs_review}
use agent_force.Ledger.Port.{ledger_port}
use agent_force.Ledger.Rows.{
  IsWellFormed, lookup-inv, lookup-some, begin-some, begin-none, complete-some,
  mark_needs_review-some,
}
use agent_force.Execution.Untouched.{execute_invocation-Keeps}
use agent_force.Execution.Once.{KeepsLedger, execution, execute_invocation-Recorded}
use agent_force.Execution.Replay.{replays_from}

-- The row of a key is what it was.
abbrev HasRow : String → Invocation → Ledger → Type 0
HasRow key row l = get l.rows key ≡ some row

module _ (key other : String) (row : Invocation) (apart : (other == key) ≡ false) where
  begin-HasRow :
      (effect : EffectClass) (l : Ledger)
      → HasRow key row l
      → HasRow key row (begin effect other l).1
  begin-HasRow effect l h = elim (Option-cases (get l.rows other)) [
    | inl n ↦ rw (begin-none effect other l n) (get-put_ne l.rows other key _ apart ∙ h)
    | inr (r, n) ↦ rw (begin-some effect other r l n) h
  ]

  complete-HasRow :
      (result : String) (is_error : Bool) (l : Ledger)
      → HasRow key row l
      → HasRow key row (complete other result is_error l).1
  unfolding complete
  complete-HasRow result is_error l h = elim (Option-cases (get l.rows other)) [
    | inl n ↦ rw (n, complete) h
    | inr (r, n) ↦
        rw (complete-some other result is_error r l n) (get-put_ne l.rows other key _ apart ∙ h)
  ]

  mark_needs_review-HasRow :
      (reason : String) (l : Ledger)
      → HasRow key row l
      → HasRow key row (mark_needs_review other reason l).1
  unfolding mark_needs_review
  mark_needs_review-HasRow reason l h = elim (Option-cases (get l.rows other)) [
    | inl n ↦ rw (n, mark_needs_review) h
    | inr (r, n) ↦
        rw (mark_needs_review-some other reason r l n) (get-put_ne l.rows other key _ apart ∙ h)
  ]

  -- An invocation under another key.
  execution-HasRow :
      {E : Type 0} (registry : Registry (World E)) (run_id step_idx : ℕ) (tool_name : String)
      (args : Fields) (w : World E)
      → KeepsLedger E registry
      → HasRow key row w.ledger
      → HasRow key row (execution registry run_id step_idx tool_name args other w).1.ledger
  execution-HasRow registry run_id step_idx tool_name args w keeps =
      execute_invocation-Keeps registry ledger_port tool_name other (λ u. HasRow key row u.ledger)
        (record {
          runs_tool = λ name spec payload found u h.
              subst (HasRow key row) (sym (keeps.at_tool name spec payload u found)) h;
          begins = λ r i tool effect u. begin-HasRow effect u.ledger;
          reviews = λ reason u. mark_needs_review-HasRow reason u.ledger;
          completes = λ result is_error u. complete-HasRow result is_error u.ledger;
        })
        run_id step_idx args w

module _ {E : Type 0} (registry : Registry (World E)) (run_id step_idx : ℕ) (tool_name : String)
    (args : Fields) (key : String) where
  abbrev attempt : World E → Run InvocationOutcome × World E
  attempt = execution registry run_id step_idx tool_name args key

  -- What may lie between two attempts: other attempts, invocations under other keys, of any tools that do
  -- not write to the ledger, and anything else that leaves the ledger as it is.
  pub data Later (w : World E) : World E → Type 0 where
    at_once : Later w w
    and_again : {v : World E} → Later w v → Later w (attempt v).1
    and_other :
        {v : World E} (others : Registry (World E)) (run idx : ℕ) (tool : String) (given : Fields)
        (other : String)
        → Later w v
        → KeepsLedger E others
        → (other == key) ≡ false
        → Later w (execution others run idx tool given other v).1
    and_elsewhere : {v : World E} (u : World E) → Later w v → u.ledger ≡ v.ledger → Later w u

  Later-HasRow :
      (row : Invocation) (o : InvocationOutcome) (w v : World E)
      → ((u : World E) → HasRow key row u.ledger → attempt u ≡ (returns o, u))
      → HasRow key row w.ledger
      → Later w v
      → HasRow key row v.ledger
  Later-HasRow row o w v replays h at_once = h
  Later-HasRow row o w v replays h (and_again {v = u} l) =
      let there = Later-HasRow row o w u replays h l in
      subst (λ (x : Run InvocationOutcome × World E). HasRow key row x.1.ledger)
        (sym (replays u there)) there
  Later-HasRow row o w v replays h
        (and_other {v = u} others run idx tool given other l keeps apart) =
      execution-HasRow key other row apart others run idx tool given u keeps
        (Later-HasRow row o w u replays h l)
  Later-HasRow row o w v replays h (and_elsewhere {v = x} u l same) =
      subst (HasRow key row) (sym same) (Later-HasRow row o w x replays h l)

  -- Over the in-memory ledger, if it is coherent, with handlers that do not write to it: once an
  -- invocation has returned an outcome, an attempt with the same key, tool and arguments returns that
  -- outcome and changes nothing at all, so the handler is not run again; also where there were other
  -- attempts in between, invocations under other keys, and anything that leaves the ledger as it is, in
  -- any order.
  pub execute_not_repeated :
      (w w' v : World E) (o : InvocationOutcome)
      → IsWellFormed w.ledger
      → KeepsLedger E registry
      → attempt w ≡ (returns o, w')
      → Later w' v
      → attempt v ≡ (returns o, v)
  execute_not_repeated w w' v o well keeps ran later =
      let done =
        rw ran at
          (execute_invocation-Recorded registry run_id step_idx tool_name args key w well keeps) in
      let (row, there, is) = lookup-inv key w'.ledger done.0 in
      let replays = λ (u : World E) (h : HasRow key row u.ledger).
        replays_from registry run_id step_idx tool_name args key w _ ran u o (λ x e n. cc)
          (lookup-some key row u.ledger h ∙ ap some is) done.1 in
      replays v (Later-HasRow row o w' v replays there later)
