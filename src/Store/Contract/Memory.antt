-- ===== src/Store/Contract/Memory.antt =====
-- The in-memory store keeps the contract on leases.
use agent_force.Prelude.{
  ℕ, ◌+◌, ◌≡◌, refl, sym, ap, subst, ◌∙◌, Bool, true, false, not, ◌&&◌, ◌||◌, String, Option, none,
  some, nat_Eq, ◌==◌, arith, Option-cases, Bool-cases, inl, inr, str_eq, str_eq_iff, nat_eq_iff,
  ltb, ltb→ge, ltb→lt,
}
use agent_force.Prelude.Dict.{get, get-put, get-put_ne}
use agent_force.State.{RunStatus, RunOutcome, is_terminal}
use agent_force.Store.Contract.{
  Lease, lease_of, Moves, keeps, takes, extends, gives_up, LeaseStore, IsLeaseStore,
}
use agent_force.Store.Records.{StoredRun, MemoryStore, save, seconds, stored_at}
use agent_force.Store.Memory.{
  claim, claim_next_reclaimable, renew, release, finish, take_lease, is_held, owned_by,
  first_reclaimable,
}
use agent_force.Store.Leases.{
  claim-some, claim-none, renew-some, renew-none, release-stranger, release-owner, release-none,
}

abbrev pub stored_lease : Option StoredRun → Lease
stored_lease none = none
stored_lease (some stored) = lease_of stored.owner stored.expires

abbrev pub lease_at : ℕ → MemoryStore → Lease
lease_at run_id s = stored_lease (get s.runs run_id)

abbrev pub lease_store : LeaseStore MemoryStore
lease_store = record {
  lease = lease_at;
  claim = λ run_id owner ttl now s. (claim run_id owner ttl now s).1;
  claim_next = λ skipped owner ttl now s. (claim_next_reclaimable owner ttl now s).1;
  renew = λ run_id owner ttl now s. (renew run_id owner ttl now s).1;
  release = λ run_id owner status s. (release run_id owner status s).1;
  finish = λ run_id outcome now s. (finish run_id outcome s).1;
}

save-Moves :
    (run_id j now : ℕ) (who : String) (s : MemoryStore) (before after : StoredRun)
    → get s.runs run_id ≡ some before
    → Moves now who (stored_lease (some before)) (stored_lease (some after))
    → Moves now who (lease_at j s) (lease_at j (save s run_id after))
save-Moves run_id j now who s before after h m =
    rw (get-put s.runs run_id j after) (elim (Bool-cases (run_id == j)) [
      | inl b ↦
          let n : get s.runs j ≡ some before =
            subst (λ i. get s.runs i ≡ some before) ((nat_eq_iff run_id j).0 b) h in
          rw (b, n) m
      | inr b ↦ rw b (keeps _)
    ])

-- What `owned_by` and `is_held` say of the lease.
owner-owned_by :
    (stored : StoredRun) (owner : String) → owned_by stored owner ≡ true → stored.owner ≡ some owner
unfolding owned_by
owner-owned_by stored owner h = elim (Option-cases stored.owner) [
  | inl e ↦ let b : false ≡ true = rw (e, owned_by) at h in absurd (ground arith)
  | inr (a, e) ↦
      let b : str_eq a owner ≡ true = rw (e, owned_by) at h in
      e ∙ ap some ((str_eq_iff a owner).0 b)
]

renewed-Moves :
    (stored : StoredRun) (owner : String) (now until : ℕ)
    → owned_by stored owner ≡ true
    → is_held stored now ≡ true
    → Moves now owner (lease_of stored.owner stored.expires) (some (owner, until))
unfolding is_held
renewed-Moves stored owner now until o h = elim (Option-cases stored.expires) [
  | inl e ↦ let b : false ≡ true = rw (e, is_held) at h in absurd (ground arith)
  | inr (u, e) ↦
      rw (owner-owned_by stored owner o, e) (extends u until (ltb→lt now u (rw (e, is_held) at h)))
]

free-Moves :
    (stored : StoredRun) (owner : String) (now until : ℕ)
    → is_held stored now ≡ false
    → Moves now owner (lease_of stored.owner stored.expires) (some (owner, until))
unfolding is_held
free-Moves stored owner now until h = takes _ until (elim (Option-cases stored.owner) [
  | inl e ↦ rw e tt
  | inr (a, e) ↦ elim (Option-cases stored.expires) [
    | inl n ↦ rw (e, n) tt
    | inr (u, n) ↦ let b : ltb now u ≡ false = rw (n, is_held) at h in rw (e, n) (ltb→ge now u b)
  ]
])

claim-Moves :
    (run_id : ℕ) (owner : String) (ttl now j : ℕ) (s : MemoryStore)
    → Moves now owner (lease_at j s) (lease_at j (claim run_id owner ttl now s).1)
unfolding take_lease
claim-Moves run_id owner ttl now j s = elim (Option-cases (get s.runs run_id)) [
  | inl e ↦ rw (claim-none run_id owner ttl now s e) (keeps _)
  | inr (stored, e) ↦
      rw (claim-some run_id owner ttl now s stored e)
        (elim (Bool-cases
          (is_terminal stored.run.status || (is_held stored now && not (owned_by stored owner)))) [
            | inl b ↦ rw b (keeps _)
            | inr b ↦ rw b (
                save-Moves run_id j now owner s stored (take_lease stored owner ttl now) e
                  (elim (Bool-cases (is_held stored now)) [
                    | inl held ↦ renewed-Moves stored owner now _ (ground arith) held
                    | inr free ↦ free-Moves stored owner now _ free
                  ]))
          ])
]

claim_next_reclaimable-Moves :
    (skipped : ℕ → Bool) (owner : String) (ttl now j : ℕ) (s : MemoryStore)
    → Moves now owner (lease_at j s) (lease_at j (claim_next_reclaimable owner ttl now s).1)
unfolding claim_next_reclaimable
claim_next_reclaimable-Moves skipped owner ttl now j s =
    elim (Option-cases (first_reclaimable now s.runs)) [
      | inl e ↦ rw (e, claim_next_reclaimable) (keeps _)
      | inr (run_id, e) ↦ rw (e, claim_next_reclaimable) (claim-Moves run_id owner ttl now j s)
    ]

renew-Moves :
    (run_id : ℕ) (owner : String) (ttl now j : ℕ) (s : MemoryStore)
    → Moves now owner (lease_at j s) (lease_at j (renew run_id owner ttl now s).1)
renew-Moves run_id owner ttl now j s = elim (Option-cases (get s.runs run_id)) [
  | inl e ↦ rw (renew-none run_id owner ttl now s e) (keeps _)
  | inr (stored, e) ↦
      rw (renew-some run_id owner ttl now s stored e)
        (elim (Bool-cases (owned_by stored owner && is_held stored now)) [
          | inl b ↦
              let o : owned_by stored owner ≡ true = ground arith in
              rw b (
                save-Moves run_id j now owner s stored _ e (
                  subst
                    (λ holder.
                      Moves now owner (lease_of stored.owner stored.expires)
                        (lease_of holder (some (now + seconds ttl))))
                    (sym (owner-owned_by stored owner o))
                    (renewed-Moves stored owner now (now + seconds ttl) o (ground arith))))
          | inr b ↦ rw b (keeps _)
        ])
]

released-Moves :
    (stored : StoredRun) (owner : String) (now : ℕ)
    → owned_by stored owner ≡ true
    → Moves now owner (lease_of stored.owner stored.expires) none
released-Moves stored owner now h =
    rw (owner-owned_by stored owner h) (elim (Option-cases stored.expires) [
      | inl e ↦ rw e (keeps none)
      | inr (u, e) ↦ rw e (gives_up u)
    ])

release-Moves :
    (run_id : ℕ) (owner : String) (status : RunStatus) (now j : ℕ) (s : MemoryStore)
    → Moves now owner (lease_at j s) (lease_at j (release run_id owner status s).1)
release-Moves run_id owner status now j s = elim (Option-cases (get s.runs run_id)) [
  | inl e ↦ rw (release-none run_id owner status s e) (keeps _)
  | inr (stored, e) ↦ elim (Bool-cases (owned_by stored owner)) [
    | inl b ↦
        rw (release-owner run_id owner status s stored e b)
          (save-Moves run_id j now owner s stored _ e (released-Moves stored owner now b))
    | inr b ↦ rw (release-stranger run_id owner status s stored e b) (keeps _)
  ]
]

finish-others :
    (run_id : ℕ) (outcome : RunOutcome) (now j : ℕ) (s : MemoryStore)
    → (run_id == j) ≡ false
    → lease_at j (finish run_id outcome s).1 ≡ lease_at j s
unfolding finish stored_at
finish-others run_id outcome now j s n = elim (Option-cases (get s.runs run_id)) [
  | inl e ↦ rw (e, finish, stored_at) refl
  | inr (stored, e) ↦ rw (e, finish, stored_at) (ap stored_lease (get-put_ne s.runs run_id j _ n))
]

-- Each of the four operations, as the in-memory store runs it, moves the leases as the contract of
-- the store allows: a lease is taken where it is free, extended while it is live or given up by its
-- worker, or left alone; and `finish` leaves the leases of other runs alone.
pub memory-IsLeaseStore : IsLeaseStore lease_store
memory-IsLeaseStore = record {
  claims = claim-Moves;
  claims_next = claim_next_reclaimable-Moves;
  renews = renew-Moves;
  releases = release-Moves;
  finishes_others = finish-others;
}
