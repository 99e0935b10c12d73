-- ===== src/Store/Creation.antt =====
-- The idempotency keys of app/adapters/db/memory.py.
use agent_force.Prelude.{
  ℕ, ◌≡◌, refl, String, none, some, nat_Eq, string_Eq, arith, Option-cases, inl, inr, ap, ◌∙◌, sym,
}
use agent_force.Prelude.Dict.{get, get-put_self}
use agent_force.Prelude.Text.{show_uuid}
use agent_force.Errors.{key_error}
use agent_force.Effects.{ok, err, ◌>>=◌}
use agent_force.State.{RunRecord, NewRun}
use agent_force.Store.Memory.{create}
use agent_force.Store.Records.{
  StoredRun, MemoryStore, existing_run, insert_new, keep_key, new_record, pair_Eq, stored_at,
  or_same,
}
use agent_force.Store.Leases.{stored_at-some, stored_at-none}

-- `create` where the key is known.
pub create-existing :
    (spec : NewRun) (id run_id : ℕ) (s : MemoryStore)
    → existing_run spec s ≡ some run_id
    → create spec id s ≡ or_same s (stored_at s run_id >>= λ stored. ok (stored.run, s))
unfolding create
create-existing spec id run_id s h = rw (h, create) refl

pub create-new :
    (spec : NewRun) (id : ℕ) (s : MemoryStore)
    → existing_run spec s ≡ none
    → create spec id s ≡ insert_new spec id s
unfolding create
create-new spec id s h = rw (h, create) refl

existing_run-key :
    (spec : NewRun) (key : String) (s : MemoryStore)
    → spec.idempotency_key ≡ some key
    → existing_run spec s ≡ get s.by_key (spec.tenant_id, key)
unfolding existing_run
existing_run-key spec key s k = rw (k, existing_run) refl

insert_new-key :
    (spec : NewRun) (id : ℕ) (key : String) (s : MemoryStore)
    → spec.idempotency_key ≡ some key
    → (get (insert_new spec id s).1.by_key (spec.tenant_id, key) ≡ some id)
      × (get (insert_new spec id s).1.runs id
          ≡ some (record { run = new_record spec id; owner = none; expires = none }))
unfolding insert_new keep_key
insert_new-key spec id key s k =
    rw (k, insert_new, keep_key)
      (get-put_self s.by_key (spec.tenant_id, key) id, get-put_self s.runs id _)

create-known :
    (spec : NewRun) (id run_id : ℕ) (key : String) (s : MemoryStore) (stored : StoredRun)
    → spec.idempotency_key ≡ some key
    → get s.by_key (spec.tenant_id, key) ≡ some run_id
    → get s.runs run_id ≡ some stored
    → create spec id s ≡ (ok stored.run, s)
create-known spec id run_id key s stored k g h =
    create-existing spec id run_id s (existing_run-key spec key s k ∙ g)
    ∙ rw (stored_at-some s run_id stored h) refl

no_lost_run :
    (spec : NewRun) (id run_id : ℕ) (s s' : MemoryStore) (r : RunRecord)
    → existing_run spec s ≡ some run_id
    → get s.runs run_id ≡ none
    → create spec id s ≡ (ok r, s')
    → ⊥
no_lost_run spec id run_id s s' r e f h =
    let q : create spec id s ≡ (err (key_error (show_uuid run_id)), s) =
      create-existing spec id run_id s e ∙ rw (stored_at-none s run_id f) refl in
    ground arith

-- Where a creation leaves the key of its run.
create-inv :
    (spec : NewRun) (id : ℕ) (key : String) (s s' : MemoryStore) (r : RunRecord)
    → create spec id s ≡ (ok r, s')
    → spec.idempotency_key ≡ some key
    → (run_id : ℕ) × (stored : StoredRun) × (get s'.by_key (spec.tenant_id, key) ≡ some run_id)
      × (get s'.runs run_id ≡ some stored)
      × (stored.run ≡ r)
unfolding insert_new
create-inv spec id key s s' r h k = elim (Option-cases (existing_run spec s)) [
  | inl e ↦
      let q = create-new spec id s e in
      let i = insert_new-key spec id key s k in
      let w : (insert_new spec id s).1 ≡ s' = ap (λ p. p.1) (sym q ∙ h) in
      (
        id,
        (record { run = new_record spec id; owner = none; expires = none }),
        rw w at i.0,
        rw w at i.1,
        ground arith,
      )
  | inr (run_id, e) ↦ elim (Option-cases (get s.runs run_id)) [
    | inl f ↦ absurd (no_lost_run spec id run_id s s' r e f h)
    | inr (stored, f) ↦
        let q : create spec id s ≡ (ok stored.run, s) =
          create-existing spec id run_id s e ∙ rw (stored_at-some s run_id stored f) refl in
        let w : s ≡ s' = ground arith in
        (run_id, stored, rw w at (sym (existing_run-key spec key s k) ∙ e), rw w at f, ground arith)
  ]
]

-- A key creates one run: creating again with the tenant and the key of a run that was created, with
-- whatever other fields and new id, gives the run that is there and leaves the store as it was.
pub create-once :
    (spec again : NewRun) (id id' : ℕ) (key : String) (s s' : MemoryStore) (r : RunRecord)
    → create spec id s ≡ (ok r, s')
    → spec.idempotency_key ≡ some key
    → again.idempotency_key ≡ some key
    → again.tenant_id ≡ spec.tenant_id
    → create again id' s' ≡ (ok r, s')
create-once spec again id id' key s s' r h k k' t =
    let (run_id, stored, g, f, e) = create-inv spec id key s s' r h k in
    create-known again id' run_id key s' stored k' (ap (λ x. get s'.by_key (x, key)) t ∙ g) f
    ∙ ap (λ r. (ok r, s')) e
