-- ===== src/Ledger/Races.antt =====
-- Several workers at one PostgreSQL ledger: each call is one transaction, in any order.
use agent_force.Prelude.{
  ℕ, ◌≡◌, ◌≢◌, refl, sym, ap, subst, ◌∙◌, Bool, String, some, string_Eq, ◌==◌, arith, Option-cases,
  Bool-cases, inl, inr, if◌then◌else◌,
}
use agent_force.Prelude.Dict.{beq_self}
use agent_force.Errors.{other}
use agent_force.Effects.{Result, ok, err, Result-cases}
use agent_force.Tools.Spec.{EffectClass, read_only, idempotent_write, unsafe}
use agent_force.Idempotency.{
  InvocationStatus, InvocationAction, InvocationDecision, decision, review, execute, pending,
  succeeded, failed, needs_review, resolve_pending,
}
use agent_force.Database.Tables.{Table, IsTable, is_integrity_error}
use agent_force.Ledger.Postgres.{
  ToolInvocation, pending_row, decide_from_row, begin, complete, mark_needs_review,
  decide_from_existing,
}
use agent_force.Ledger.Refinement.{begin-some}

resolve_pending-never : (effect : EffectClass) → resolve_pending effect ≢ execute
unfolding resolve_pending
resolve_pending-never read_only h = ground arith
resolve_pending-never idempotent_write h = ground arith
resolve_pending-never unsafe h = ground arith

-- A row that is there is never a reason to execute for the first time.
decide_from_row-never :
    (effect : EffectClass) (row : ToolInvocation) (st : InvocationStatus)
    → row.status ≡ st
    → (decide_from_row effect row).action ≢ execute
unfolding decide_from_row
decide_from_row-never effect row pending h = rw (h, decide_from_row) (resolve_pending-never effect)
decide_from_row-never effect row succeeded h = rw (h, decide_from_row) (λ q. ground arith)
decide_from_row-never effect row failed h = rw (h, decide_from_row) (λ q. ground arith)
decide_from_row-never effect row needs_review h = rw (h, decide_from_row) (λ q. ground arith)

action_of : Result InvocationDecision → InvocationAction
action_of (ok a) = a.action
action_of (err e) = review

never-ok :
    (effect : EffectClass) (row : ToolInvocation)
    → ok (decide_from_row effect row) ≢ ok (decision execute)
unfolding action_of
never-ok effect row q = decide_from_row-never effect row row.status refl (ap action_of q)

module _ {T : Type 0} (t : Table String ToolInvocation T) where
  -- One call of one worker.
  pub data Step : T → T → Type 0 where
    begins :
        (run_id step_idx : ℕ) (name : String) (effect : EffectClass) (key : String) (d : T)
        → Step d (begin t run_id step_idx name effect key d).1
    completes :
        (key result : String) (is_error : Bool) (now : ℕ) (d : T)
        → Step d (complete t key result is_error now d)
    reviews :
        (key reason : String) (now : ℕ) (d : T) → Step d (mark_needs_review t key reason now d)

  pub data Reached (d : T) : T → Type 0 where
    here : Reached d d
    after : {d' d'' : T} → Reached d d' → Step d' d'' → Reached d d''

module _ {T : Type 0} (t : Table String ToolInvocation T) (laws : IsTable t) where
  IsThere : String → T → Type 0
  IsThere key d = (row : ToolInvocation) × (t.select key d ≡ some row)

  update-IsThere :
      (key written : String) (f : ToolInvocation → ToolInvocation) (d : T)
      → IsThere key d
      → IsThere key (t.update written f d)
  unfolding IsThere
  update-IsThere key written f d (row, h) = elim (Bool-cases (written == key)) [
    | inl b ↦ (f row, rw (laws.select_update written key f d, b, h) refl)
    | inr b ↦ (row, rw (laws.select_update written key f d, b) h)
  ]

  insert-IsThere :
      (key written : String) (r : ToolInvocation) (d d' : T)
      → t.insert written r d ≡ ok d'
      → IsThere key d
      → IsThere key d'
  unfolding IsThere
  insert-IsThere key written r d d' q (row, h) = elim (Bool-cases (written == key)) [
    | inl b ↦ (r, rw (laws.select_insert written key r d d' q, b) refl)
    | inr b ↦ (row, rw (laws.select_insert written key r d d' q, b) h)
  ]

  begin-IsThere :
      (run_id step_idx : ℕ) (name : String) (effect : EffectClass) (key written : String) (d : T)
      → IsThere written d
      → IsThere written (begin t run_id step_idx name effect key d).1
  unfolding begin
  begin-IsThere run_id step_idx name effect key written d h =
      elim (Result-cases (t.insert key (pending_row run_id step_idx name effect) d)) [
        | inl (d', q) ↦ rw (q, begin) (insert-IsThere written key _ d d' q h)
        | inr (e, q) ↦ rw (q, begin) h
      ]

  -- No call takes a row away.
  Step-IsThere : (key : String) {d d' : T} → Step t d d' → IsThere key d → IsThere key d'
  unfolding complete mark_needs_review
  Step-IsThere key (begins run_id step_idx name effect written d) h =
      begin-IsThere run_id step_idx name effect written key d h
  Step-IsThere key (completes written result is_error now d) h = update-IsThere key written _ d h
  Step-IsThere key (reviews written reason now d) h = update-IsThere key written _ d h

  Reached-IsThere : (key : String) {d d' : T} → Reached t d d' → IsThere key d → IsThere key d'
  Reached-IsThere key here h = h
  Reached-IsThere key (after r s) h = Step-IsThere key s (Reached-IsThere key r h)

  -- Whoever is told to execute has inserted the row.
  begin-executes :
      (run_id step_idx : ℕ) (name : String) (effect : EffectClass) (key : String) (d d' : T)
      → begin t run_id step_idx name effect key d ≡ (ok (decision execute), d')
      → IsThere key d'
  unfolding begin decide_from_existing IsThere
  begin-executes run_id step_idx name effect key d d' h =
      elim (Result-cases (t.insert key (pending_row run_id step_idx name effect) d)) [
        | inl (d'', q) ↦
            let b : begin t run_id step_idx name effect key d ≡ (ok (decision execute), d'') =
              rw (q, begin) refl in
            let same : d'' ≡ d' = ap (λ x. x.1) (sym b ∙ h) in
            let s = laws.select_insert key key (pending_row run_id step_idx name effect) d d'' q in
            subst (IsThere key) same
              (pending_row run_id step_idx name effect, rw (s, beq_self key) refl)
        | inr (e, q) ↦ elim (Option-cases (t.select key d)) [
          | inl n ↦
              let b : (begin t run_id step_idx name effect key d).0 ≡ (
                  if is_integrity_error e
                  then err (other "NoResultFound" "No row was found when one was required")
                  else err e) =
                rw (q, begin, n, decide_from_existing) refl in
              let executes : (begin t run_id step_idx name effect key d).0 ≡ ok (decision execute) =
                ap (λ x. x.0) h in
              absurd (ground arith)
          | inr (row, m) ↦ absurd (
              never-ok effect row (
                ap (λ x. x.0)
                  (sym (begin-some t laws run_id step_idx name effect key d row m) ∙ h)))
        ]
      ]

  -- The tool is executed for the first time by one worker only: once a `begin` has told one to
  -- execute, no later `begin` with that key tells another, whatever calls the workers make between
  -- the two and in whatever order.
  pub begin-executes_once :
      (run_id step_idx : ℕ) (name : String) (effect : EffectClass) (key : String) (d d' d'' : T)
      (run_id' step_idx' : ℕ) (name' : String) (effect' : EffectClass)
      → begin t run_id step_idx name effect key d ≡ (ok (decision execute), d')
      → Reached t d' d''
      → (begin t run_id' step_idx' name' effect' key d'').0 ≢ ok (decision execute)
  unfolding IsThere
  begin-executes_once run_id step_idx name effect key d d' d'' run_id' step_idx' name' effect' h r
        q =
      let (row, e) =
        Reached-IsThere key r (begin-executes run_id step_idx name effect key d d' h) in
      never-ok effect' row
        (ap (λ x. x.0) (sym (begin-some t laws run_id' step_idx' name' effect' key d'' row e)) ∙ q)
