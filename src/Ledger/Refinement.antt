-- ===== src/Ledger/Refinement.antt =====
-- The PostgreSQL ledger against the in-memory one: the two agree on every answer.
use agent_force.Prelude.{
  ℕ, ◌≡◌, ap, sym, ◌∙◌, refl, Bool, true, false, String, Option, none, some, List, string_Eq, ◌==◌,
  arith, Option-cases, Bool-cases, inl, inr,
}
use agent_force.Prelude.Dict.{get, put, get-put, beq_self}
use agent_force.Effects.{ok}
use agent_force.Tools.Spec.{EffectClass}
use agent_force.Idempotency.{
  InvocationStatus, decision, execute, pending, succeeded, failed, needs_review,
}
use agent_force.Database.Tables.{Table, IsTable}
use agent_force.Ledger.Memory as Memory
use agent_force.Ledger.Memory.{Ledger, Invocation, decide, done_status, new_invocation}
use agent_force.Ledger.Rows as Rows
use agent_force.Ledger.Rows.{completed, reviewed}
use agent_force.Ledger.Postgres.{
  ToolInvocation, pending_row, decide_from_row, outcome_of_row, finished_row, reviewed_row, begin,
  lookup, complete, mark_needs_review, decide_from_existing,
}

-- What the in-memory ledger keeps of a row.
abbrev pub forget : ToolInvocation → Invocation
forget row = record {
  status = row.status;
  effect_class = row.effect_class;
  result = row.result;
  is_error = row.is_error;
}

abbrev pub forget_option : Option ToolInvocation → Option Invocation
forget_option none = none
forget_option (some row) = some (forget row)

module _ {T : Type 0} (t : Table String ToolInvocation T) where
  -- The two hold the same rows.
  pub record Represents (d : T) (l : Ledger) : Type 0 where
    pub at_key : (key : String) → forget_option (t.select key d) ≡ get l.rows key

module _ {T : Type 0} (t : Table String ToolInvocation T) (laws : IsTable t) where
  -- A row that is there answers.
  pub begin-some :
      (run_id step_idx : ℕ) (name : String) (effect : EffectClass) (key : String) (d : T)
      (row : ToolInvocation)
      → t.select key d ≡ some row
      → begin t run_id step_idx name effect key d ≡ (ok (decide_from_row effect row), d)
  unfolding begin decide_from_existing
  begin-some run_id step_idx name effect key d row h =
      let (e, q, i) = laws.insert_taken key (pending_row run_id step_idx name effect) row d h in
      rw (q, begin, i, h, decide_from_existing) refl

  pub begin-none :
      (run_id step_idx : ℕ) (name : String) (effect : EffectClass) (key : String) (d : T)
      → t.select key d ≡ none
      → t.refuses (pending_row run_id step_idx name effect) d ≡ false
      → (d' : T) × (t.insert key (pending_row run_id step_idx name effect) d ≡ ok d')
        × (begin t run_id step_idx name effect key d ≡ (ok (decision execute), d'))
  unfolding begin
  begin-none run_id step_idx name effect key d h a =
      let (d', q) = laws.insert_new key (pending_row run_id step_idx name effect) d h a in
      (d', q, rw (q, begin) refl)

  lookup-some :
      (key : String) (d : T) (row : ToolInvocation)
      → t.select key d ≡ some row
      → lookup t key d ≡ some (outcome_of_row row)
  unfolding lookup
  lookup-some key d row h = rw (h, lookup) refl

  lookup-none : (key : String) (d : T) → t.select key d ≡ none → lookup t key d ≡ none
  unfolding lookup
  lookup-none key d h = rw (h, lookup) refl

-- The two ledgers read a row alike.
decide-forget :
    (effect : EffectClass) (row : ToolInvocation) (st : InvocationStatus)
    → row.status ≡ st
    → decide effect (forget row) ≡ decide_from_row effect row
unfolding decide decide_from_row
decide-forget effect row pending h = rw (h, decide, decide_from_row) refl
decide-forget effect row succeeded h = rw (h, decide, decide_from_row) refl
decide-forget effect row failed h = rw (h, decide, decide_from_row) refl
decide-forget effect row needs_review h = rw (h, decide, decide_from_row) refl

module _ {T : Type 0} (t : Table String ToolInvocation T) (laws : IsTable t) where
  get-none :
      (d : T) (l : Ledger) (key : String)
      → Represents t d l
      → t.select key d ≡ none
      → get l.rows key ≡ none
  get-none d l key r h = sym (r.at_key key) ∙ ap forget_option h

  get-some :
      (d : T) (l : Ledger) (key : String) (row : ToolInvocation)
      → Represents t d l
      → t.select key d ≡ some row
      → get l.rows key ≡ some (forget row)
  get-some d l key row r h = sym (r.at_key key) ∙ ap forget_option h

  begin-Represents :
      (run_id step_idx : ℕ) (name : String) (effect : EffectClass) (key : String) (d : T)
      (l : Ledger)
      → t.refuses (pending_row run_id step_idx name effect) d ≡ false
      → Represents t d l
      → ((begin t run_id step_idx name effect key d).0 ≡ ok (Memory.begin effect key l).0)
        × Represents t (begin t run_id step_idx name effect key d).1 (Memory.begin effect key l).1
  begin-Represents run_id step_idx name effect key d l a r = elim (Option-cases (t.select key d)) [
    | inl e ↦
        let (d', q, b) = begin-none t laws run_id step_idx name effect key d e a in
        rw (b, Rows.begin-none effect key l (get-none d l key r e))
          (
            refl,
            record {
              at_key = λ j. ground (
                arith,
                laws.select_insert key j (pending_row run_id step_idx name effect) d d' q,
                get-put l.rows key j (new_invocation effect),
                r.at_key j,
              );
            },
          )
    | inr (row, e) ↦
        rw
          (
            begin-some t laws run_id step_idx name effect key d row e,
            Rows.begin-some effect key (forget row) l (get-some d l key row r e),
            decide-forget effect row row.status refl,
          )
          (refl, r)
  ]

  lookup-Represents :
      (key : String) (d : T) (l : Ledger) → Represents t d l → lookup t key d ≡ Memory.lookup key l
  lookup-Represents key d l r = elim (Option-cases (t.select key d)) [
    | inl e ↦ lookup-none t laws key d e ∙ sym (Rows.lookup-none key l (get-none d l key r e))
    | inr (row, e) ↦
        lookup-some t laws key d row e
        ∙ sym (Rows.lookup-some key (forget row) l (get-some d l key row r e))
  ]

  update-Represents :
      (key : String) (f : ToolInvocation → ToolInvocation) (kept : Invocation) (log : List String)
      (d : T) (l : Ledger) (row : ToolInvocation)
      → t.select key d ≡ some row
      → forget (f row) ≡ kept
      → Represents t d l
      → Represents t (t.update key f d) (record { rows = put l.rows key kept; executions = log })
  update-Represents key f kept log d l row h k r = record {
    at_key = λ j. elim (Bool-cases (key == j)) [
      | inl b ↦
          let q : key ≡ j = (string_Eq.beq_iff key j).0 b in
          let m : t.select j d ≡ some row = ap (λ i. t.select i d) (sym q) ∙ h in
          rw (laws.select_update key j f d, get-put l.rows key j kept, b, m) (ap some k)
      | inr b ↦ rw (laws.select_update key j f d, get-put l.rows key j kept, b) (r.at_key j)
    ];
  }

  finished_row-forget :
      (result : String) (is_error : Bool) (now : ℕ) (row : ToolInvocation)
      → forget (finished_row result is_error now row) ≡ record (forget row) {
        status = done_status is_error;
        result = some result;
        is_error = is_error;
      }
  finished_row-forget result true now row = refl
  finished_row-forget result false now row = refl

  complete-Represents :
      (key result : String) (is_error : Bool) (now : ℕ) (d : T) (l : Ledger) (row : ToolInvocation)
      → t.select key d ≡ some row
      → Represents t d l
      → ((Memory.complete key result is_error l).0 ≡ ok tt)
        × Represents t
            (complete t key result is_error now d)
            (Memory.complete key result is_error l).1
  unfolding complete
  complete-Represents key result is_error now d l row h r =
      rw (Rows.complete-some key result is_error (forget row) l (get-some d l key row r h)) (
        refl,
        update-Represents key (finished_row result is_error now) _ _ d l row h
            (finished_row-forget result is_error now row) r,
      )

  mark_needs_review-Represents :
      (key reason : String) (now : ℕ) (d : T) (l : Ledger) (row : ToolInvocation)
      → t.select key d ≡ some row
      → Represents t d l
      → ((Memory.mark_needs_review key reason l).0 ≡ ok tt)
        × Represents t
            (mark_needs_review t key reason now d)
            (Memory.mark_needs_review key reason l).1
  unfolding mark_needs_review
  mark_needs_review-Represents key reason now d l row h r =
      rw (Rows.mark_needs_review-some key reason (forget row) l (get-some d l key row r h))
        (refl, update-Represents key (reviewed_row reason now) _ _ d l row h refl r)

  begin-present :
      (run_id step_idx : ℕ) (name : String) (effect : EffectClass) (key : String) (d : T)
      → t.refuses (pending_row run_id step_idx name effect) d ≡ false
      → (row : ToolInvocation) × (t.select key (begin t run_id step_idx name effect key d).1
          ≡ some row)
  begin-present run_id step_idx name effect key d a = elim (Option-cases (t.select key d)) [
    | inl e ↦
        let (d', q, b) = begin-none t laws run_id step_idx name effect key d e a in
        let s = laws.select_insert key key (pending_row run_id step_idx name effect) d d' q in
        rw b (pending_row run_id step_idx name effect, ground (arith, s, beq_self key))
    | inr (row, e) ↦ rw (begin-some t laws run_id step_idx name effect key d row e) (row, e)
  ]

  -- Two ledgers that hold the same rows give the same answers: to `begin`, to `lookup`, and to the
  -- `complete` or the `needs_review` that follows a `begin`; and after each they hold the same rows
  -- again. The new row's other constraints admit it.
  pub operations-Represents :
      (run_id step_idx : ℕ) (name : String) (effect : EffectClass) (key other text : String)
      (is_error : Bool) (now : ℕ) (d : T) (l : Ledger)
      → t.refuses (pending_row run_id step_idx name effect) d ≡ false
      → Represents t d l
      → let (answer, d') = begin t run_id step_idx name effect key d in
        let (decided, l') = Memory.begin effect key l in
        let (completed, l_completed) = Memory.complete key text is_error l' in
        let (marked, l_marked) = Memory.mark_needs_review key text l' in
        (answer ≡ ok decided)
        × Represents t d' l'
        × (lookup t other d' ≡ Memory.lookup other l')
        × (completed ≡ ok tt)
        × Represents t (complete t key text is_error now d') l_completed
        × (marked ≡ ok tt)
        × Represents t (mark_needs_review t key text now d') l_marked
  operations-Represents run_id step_idx name effect key other text is_error now d l a r =
      let (same, r') = begin-Represents run_id step_idx name effect key d l a r in
      let (row, h) = begin-present run_id step_idx name effect key d a in
      let (c, rc) = complete-Represents key text is_error now _ _ row h r' in
      let (m, rm) = mark_needs_review-Represents key text now _ _ row h r' in
      (same, r', lookup-Represents other _ _ r', c, rc, m, rm)
