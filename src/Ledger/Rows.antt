-- ===== src/Ledger/Rows.antt =====
-- What each ledger operation does to its row and to the others, and the invariant of the rows.
use agent_force.Prelude.{
  ◌≡◌, refl, Bool, true, false, String, none, some, [], ◌∷◌, ◌++◌, string_Eq, arith, Option-cases,
  inl, inr,
}
use agent_force.Prelude.Dict.{get, put, get-put, get-put_self}
use agent_force.Effects.{ok}
use agent_force.Tools.Spec.{EffectClass}
use agent_force.Idempotency.{
  execute, decision, InvocationOutcome, pending, succeeded, failed, needs_review,
}
use agent_force.Ledger.Memory.{
  Ledger, Invocation, begin, decide, lookup, outcome_of, complete, mark_needs_review, done_status,
  new_invocation,
}

-- The error flag of a finished row agrees with its status.
abbrev pub IsCoherent : Invocation → Type 0
IsCoherent row = elim row.status [
  | pending ↦ Unit
  | succeeded ↦ row.is_error ≡ false
  | failed ↦ row.is_error ≡ true
  | needs_review ↦ row.is_error ≡ true
]

pub record IsWellFormed (l : Ledger) : Type 0 where
  pub at_key : (key : String) (row : Invocation) → get l.rows key ≡ some row → IsCoherent row

begin-IsWellFormed :
    (effect : EffectClass) (key : String) (l : Ledger)
    → IsWellFormed l
    → IsWellFormed (begin effect key l).1
unfolding begin
begin-IsWellFormed effect key l v = record {
  at_key = λ j row h. ground (arith, v.at_key j row, get-put l.rows key j (new_invocation effect));
}

-- `complete` where the row is there.
abbrev pub completed : String → String → Bool → Invocation → Ledger → Ledger
completed key result is_error row l = record {
  rows =
      put l.rows key
        (record row { status = done_status is_error; result = some result; is_error = is_error });
  executions = l.executions ++ key ∷ [];
}

abbrev pub reviewed : String → String → Invocation → Ledger → Ledger
reviewed key reason row l = record l {
  rows =
      put l.rows key (record row { status = needs_review; result = some reason; is_error = true });
}

pub complete-some :
    (key result : String) (is_error : Bool) (row : Invocation) (l : Ledger)
    → get l.rows key ≡ some row
    → complete key result is_error l ≡ (ok tt, completed key result is_error row l)
unfolding complete
complete-some key result is_error row l h = rw (h, complete) refl

pub mark_needs_review-some :
    (key reason : String) (row : Invocation) (l : Ledger)
    → get l.rows key ≡ some row
    → mark_needs_review key reason l ≡ (ok tt, reviewed key reason row l)
unfolding mark_needs_review
mark_needs_review-some key reason row l h = rw (h, mark_needs_review) refl

pub lookup-some :
    (key : String) (row : Invocation) (l : Ledger)
    → get l.rows key ≡ some row
    → lookup key l ≡ some (outcome_of row)
unfolding lookup
lookup-some key row l h = rw (h, lookup) refl

pub lookup-none : (key : String) (l : Ledger) → get l.rows key ≡ none → lookup key l ≡ none
unfolding lookup
lookup-none key l h = rw (h, lookup) refl

-- A finished row reads back as it was written.
pub lookup-completed :
    (key result : String) (is_error : Bool) (row : Invocation) (l : Ledger)
    → lookup key (completed key result is_error row l)
      ≡ some (record { status = done_status is_error; result = some result; is_error = is_error })
lookup-completed key result is_error row l = lookup-some key _ _ (get-put_self l.rows key _)

pub lookup-reviewed :
    (key reason : String) (row : Invocation) (l : Ledger)
    → lookup key (reviewed key reason row l)
      ≡ some (record { status = needs_review; result = some reason; is_error = true })
lookup-reviewed key reason row l = lookup-some key _ _ (get-put_self l.rows key _)

complete-IsWellFormed :
    (key result : String) (is_error : Bool) (l : Ledger)
    → IsWellFormed l
    → IsWellFormed (complete key result is_error l).1
unfolding complete
complete-IsWellFormed key result is_error l v = elim (Option-cases (get l.rows key)) [
  | inl e ↦ rw (e, complete) v
  | inr (row, e) ↦
      rw (e, complete)
        (record {
          at_key = λ j r h. ground (
            arith,
            v.at_key j r,
            get-put l.rows key j (record row {
              status = done_status is_error;
              result = some result;
              is_error = is_error;
            }),
          );
        })
]

mark_needs_review-IsWellFormed :
    (key reason : String) (l : Ledger)
    → IsWellFormed l
    → IsWellFormed (mark_needs_review key reason l).1
unfolding mark_needs_review
mark_needs_review-IsWellFormed key reason l v = elim (Option-cases (get l.rows key)) [
  | inl e ↦ rw (e, mark_needs_review) v
  | inr (row, e) ↦
      rw (e, mark_needs_review)
        (record {
          at_key = λ j r h. ground (
            arith,
            v.at_key j r,
            get-put l.rows key j
                (record row { status = needs_review; result = some reason; is_error = true }),
          );
        })
]

-- Every operation of the ledger keeps its rows coherent: the flag of a finished row says whether it
-- failed, and a row that awaits a review counts as an error.
pub operations-IsWellFormed :
    (effect : EffectClass) (key text : String) (is_error : Bool) (l : Ledger)
    → IsWellFormed l
    → IsWellFormed (begin effect key l).1
      × IsWellFormed (complete key text is_error l).1
      × IsWellFormed (mark_needs_review key text l).1
operations-IsWellFormed effect key text is_error l v = (
  begin-IsWellFormed effect key l v,
  complete-IsWellFormed key text is_error l v,
  mark_needs_review-IsWellFormed key text l v,
)

pub lookup-inv :
    (key : String) (l : Ledger) {o : InvocationOutcome}
    → lookup key l ≡ some o
    → (row : Invocation) × (get l.rows key ≡ some row) × (outcome_of row ≡ o)
unfolding lookup
lookup-inv key l h = elim (Option-cases (get l.rows key)) [
  | inl e ↦ absurd (ground arith)
  | inr (row, e) ↦ (row, e, ground arith)
]

pub begin-some :
    (effect : EffectClass) (key : String) (row : Invocation) (l : Ledger)
    → get l.rows key ≡ some row
    → begin effect key l ≡ (decide effect row, l)
unfolding begin
begin-some effect key row l h = rw (h, begin) refl

pub begin-none :
    (effect : EffectClass) (key : String) (l : Ledger)
    → get l.rows key ≡ none
    → begin effect key l
      ≡ (decision execute, record l { rows = put l.rows key (new_invocation effect) })
unfolding begin
begin-none effect key l h = rw (h, begin) refl
