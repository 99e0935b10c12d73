-- ===== src/Store/Leases.antt =====
-- The leases of app/adapters/db/memory.py: who may work on a run, and until when.
use agent_force.Prelude.{
  ℕ, ◌+◌, ◌≡◌, refl, true, false, not, ◌&&◌, ◌||◌, String, none, some, nat_Eq, arith, Option-cases,
  inl, inr, if◌then◌else◌,
}
use agent_force.Prelude.Dict.{get}
use agent_force.Prelude.Text.{show_uuid}
use agent_force.Errors.{key_error}
use agent_force.Effects.{ok, err}
use agent_force.State.{RunStatus, RunRecord, is_terminal}
use agent_force.Store.Memory.{is_held, owned_by, take_lease, claim, renew, release}
use agent_force.Store.Records.{StoredRun, MemoryStore, save, seconds, find, stored_at, no_run}

pub find-some :
    (s : MemoryStore) (run_id : ℕ) (stored : StoredRun)
    → get s.runs run_id ≡ some stored
    → find s run_id ≡ ok stored
unfolding find
find-some s run_id stored h = rw (h, find) refl

pub find-none :
    (s : MemoryStore) (run_id : ℕ) → get s.runs run_id ≡ none → find s run_id ≡ no_run run_id
unfolding find
find-none s run_id h = rw (h, find) refl

pub stored_at-some :
    (s : MemoryStore) (run_id : ℕ) (stored : StoredRun)
    → get s.runs run_id ≡ some stored
    → stored_at s run_id ≡ ok stored
unfolding stored_at
stored_at-some s run_id stored h = rw (h, stored_at) refl

pub stored_at-none :
    (s : MemoryStore) (run_id : ℕ)
    → get s.runs run_id ≡ none
    → stored_at s run_id ≡ err (key_error (show_uuid run_id))
unfolding stored_at
stored_at-none s run_id h = rw (h, stored_at) refl

pub claim-some :
    (run_id : ℕ) (owner : String) (ttl now : ℕ) (s : MemoryStore) (stored : StoredRun)
    → get s.runs run_id ≡ some stored
    → claim run_id owner ttl now s ≡ (
        if is_terminal stored.run.status || (is_held stored now && not (owned_by stored owner))
        then (ok none, s)
        else (
          ok (some (take_lease stored owner ttl now).run),
          save s run_id (take_lease stored owner ttl now),
        ))
unfolding claim
claim-some run_id owner ttl now s stored h = rw (find-some s run_id stored h, claim) (ground arith)

pub claim-none :
    (run_id : ℕ) (owner : String) (ttl now : ℕ) (s : MemoryStore)
    → get s.runs run_id ≡ none
    → claim run_id owner ttl now s ≡ (no_run run_id, s)
unfolding claim
claim-none run_id owner ttl now s h = rw (find-none s run_id h, claim) refl

pub renew-some :
    (run_id : ℕ) (owner : String) (ttl now : ℕ) (s : MemoryStore) (stored : StoredRun)
    → get s.runs run_id ≡ some stored
    → renew run_id owner ttl now s ≡ (
        if owned_by stored owner && is_held stored now
        then (ok true, save s run_id (record stored { expires = some (now + seconds ttl) }))
        else (ok false, s))
unfolding renew
renew-some run_id owner ttl now s stored h =
    rw (stored_at-some s run_id stored h, renew) (ground arith)

pub release-stranger :
    (run_id : ℕ) (owner : String) (status : RunStatus) (s : MemoryStore) (stored : StoredRun)
    → get s.runs run_id ≡ some stored
    → owned_by stored owner ≡ false
    → release run_id owner status s ≡ (ok tt, s)
unfolding release
release-stranger run_id owner status s stored h o =
    rw (stored_at-some s run_id stored h, release) (ground arith)

pub release-owner :
    (run_id : ℕ) (owner : String) (status : RunStatus) (s : MemoryStore) (stored : StoredRun)
    → get s.runs run_id ≡ some stored
    → owned_by stored owner ≡ true
    → release run_id owner status s ≡ (
      ok tt,
      save s run_id (record {
        run = record stored.run { status = status; lease_owner = none };
        owner = none;
        expires = none;
      }),
    )
unfolding release
release-owner run_id owner status s stored h o =
    rw (stored_at-some s run_id stored h, release) (ground arith)

pub release-none :
    (run_id : ℕ) (owner : String) (status : RunStatus) (s : MemoryStore)
    → get s.runs run_id ≡ none
    → release run_id owner status s ≡ (err (key_error (show_uuid run_id)), s)
unfolding release
release-none run_id owner status s h = rw (stored_at-none s run_id h, release) refl

pub renew-none :
    (run_id : ℕ) (owner : String) (ttl now : ℕ) (s : MemoryStore)
    → get s.runs run_id ≡ none
    → renew run_id owner ttl now s ≡ (err (key_error (show_uuid run_id)), s)
unfolding renew
renew-none run_id owner ttl now s h = rw (stored_at-none s run_id h, renew) refl

-- What a claim that gives a run has done.
pub claim-inv :
    (run_id : ℕ) (owner : String) (ttl now : ℕ) (s s' : MemoryStore) (r : RunRecord)
    → claim run_id owner ttl now s ≡ (ok (some r), s')
    → (stored : StoredRun) × (get s.runs run_id ≡ some stored)
      × (is_terminal stored.run.status ≡ false)
      × (is_held stored now && not (owned_by stored owner) ≡ false)
      × (s' ≡ save s run_id (take_lease stored owner ttl now))
claim-inv run_id owner ttl now s s' r h = elim (Option-cases (get s.runs run_id)) [
  | inl e ↦ absurd (ground (arith, claim-none run_id owner ttl now s e))
  | inr (stored, e) ↦ (
    stored,
    e,
    ground (arith, claim-some run_id owner ttl now s stored e),
    ground (arith, claim-some run_id owner ttl now s stored e),
    ground (arith, claim-some run_id owner ttl now s stored e),
  )
]
