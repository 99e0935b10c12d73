-- ===== src/Store/Postgres/Abandoned.antt =====
-- Which runs the scan of `claim_next_reclaimable` in app/adapters/db/run_store.py is for.
use agent_force.Prelude.{
  ℕ, ◌≤◌, ◌<◌, ◌≡◌, refl, ◌⊎◌, inl, inr, Bool, true, false, ltb, String, none, some, arith,
  Option-cases, Bool-cases,
}
use agent_force.State.{RunStatus, queued, running, paused, completed, failed}
use agent_force.Store.Postgres.Models.{RunRow}
use agent_force.Store.Postgres.Leases.{is_candidate, is_open, is_free}

-- An abandoned run: no other transaction has its row, it is queued, running or paused, and it has no owner,
-- or one whose lease ended before now.
abbrev pub IsAbandoned : (ℕ → Bool) → ℕ → ℕ → RunRow → Type 0
IsAbandoned locked now id run =
    (locked id ≡ false)
    × ((run.status ≡ queued) ⊎ ((run.status ≡ running) ⊎ (run.status ≡ paused)))
    × ((run.lease_owner ≡ none) ⊎ ((at : ℕ) × (run.lease_expires_at ≡ some at) × (at < now)))

-- What keeps a run from the scan: a lock, an end, or an owner whose lease has not ended before now.
abbrev pub IsKept : (ℕ → Bool) → ℕ → ℕ → RunRow → Type 0
IsKept locked now id run =
    (locked id ≡ true)
    ⊎ (((run.status ≡ completed) ⊎ (run.status ≡ failed))
        ⊎ ((owner : String) × (run.lease_owner ≡ some owner)
            × ((run.lease_expires_at ≡ none)
                ⊎ ((at : ℕ) × (run.lease_expires_at ≡ some at) × (now ≤ at)))))

open_statuses :
    (status : RunStatus)
    → is_open status ≡ true
    → (status ≡ queued) ⊎ ((status ≡ running) ⊎ (status ≡ paused))
unfolding is_open
open_statuses queued h = inl refl
open_statuses running h = inr (inl refl)
open_statuses paused h = inr (inr refl)
open_statuses completed h = absurd (ground arith)
open_statuses failed h = absurd (ground arith)

closed_statuses :
    (status : RunStatus) → is_open status ≡ false → (status ≡ completed) ⊎ (status ≡ failed)
unfolding is_open
closed_statuses queued h = absurd (ground arith)
closed_statuses running h = absurd (ground arith)
closed_statuses paused h = absurd (ground arith)
closed_statuses completed h = inl refl
closed_statuses failed h = inr refl

-- Lease columns that leave a run free, and those that do not.
free_lease :
    (now : ℕ) (run : RunRow)
    → is_free run now ≡ true
    → (run.lease_owner ≡ none) ⊎ ((at : ℕ) × (run.lease_expires_at ≡ some at) × (at < now))
unfolding is_free
free_lease now run h = elim (Option-cases run.lease_owner) [
  | inl n ↦ inl n
  | inr (owner, o) ↦ elim (Option-cases run.lease_expires_at) [
    | inl n ↦ absurd (let b : false ≡ true = rw (o, n, is_free) at h in ground arith)
    | inr (at, e) ↦ let b : ltb at now ≡ true = rw (o, e, is_free) at h in inr (at, e, ground arith)
  ]
]

live_lease :
    (now : ℕ) (run : RunRow)
    → is_free run now ≡ false
    → (owner : String) × (run.lease_owner ≡ some owner)
      × ((run.lease_expires_at ≡ none) ⊎ ((at : ℕ) × (run.lease_expires_at ≡ some at) × (now ≤ at)))
unfolding is_free
live_lease now run h = elim (Option-cases run.lease_owner) [
  | inl n ↦ absurd (let b : true ≡ false = rw (n, is_free) at h in ground arith)
  | inr (owner, o) ↦ elim (Option-cases run.lease_expires_at) [
    | inl n ↦ (owner, o, inl n)
    | inr (at, e) ↦
        let b : ltb at now ≡ false = rw (o, e, is_free) at h in
        (owner, o, inr (at, e, ground arith))
  ]
]

pub candidate-Abandoned :
    (locked : ℕ → Bool) (now id : ℕ) (run : RunRow)
    → is_candidate locked now id run ≡ true
    → IsAbandoned locked now id run
unfolding is_candidate
candidate-Abandoned locked now id run h =
    let a : locked id ≡ false = ground arith in
    let b : is_open run.status ≡ true = ground arith in
    let c : is_free run now ≡ true = ground arith in
    (a, open_statuses run.status b, free_lease now run c)

pub not_candidate-Kept :
    (locked : ℕ → Bool) (now id : ℕ) (run : RunRow)
    → is_candidate locked now id run ≡ false
    → IsKept locked now id run
unfolding is_candidate
not_candidate-Kept locked now id run h = elim (Bool-cases (locked id)) [
  | inl a ↦ inl a
  | inr a ↦ elim (Bool-cases (is_open run.status)) [
    | inr b ↦ inr (inl (closed_statuses run.status b))
    | inl b ↦ let c : is_free run now ≡ false = ground arith in inr (inr (live_lease now run c))
  ]
]

is_open-Abandoned :
    (status : RunStatus)
    → (status ≡ queued) ⊎ ((status ≡ running) ⊎ (status ≡ paused))
    → is_open status ≡ true
unfolding is_open
is_open-Abandoned status (inl e) = rw e refl
is_open-Abandoned status (inr (inl e)) = rw e refl
is_open-Abandoned status (inr (inr e)) = rw e refl

is_free-Abandoned :
    (now : ℕ) (run : RunRow)
    → (run.lease_owner ≡ none) ⊎ ((at : ℕ) × (run.lease_expires_at ≡ some at) × (at < now))
    → is_free run now ≡ true
unfolding is_free
is_free-Abandoned now run (inl n) = rw (n, is_free) refl
is_free-Abandoned now run (inr (at, e, before)) = elim (Option-cases run.lease_owner) [
  | inl n ↦ rw (n, is_free) refl
  | inr (owner, o) ↦ rw (o, e, is_free) (ground arith)
]

-- The scan overlooks no abandoned run.
pub Abandoned-candidate :
    (locked : ℕ → Bool) (now id : ℕ) (run : RunRow)
    → IsAbandoned locked now id run
    → is_candidate locked now id run ≡ true
unfolding is_candidate
Abandoned-candidate locked now id run (a, b, c) =
    rw (a, is_open-Abandoned run.status b, is_free-Abandoned now run c, is_candidate) refl
