-- ===== src/Store/Exclusion.antt =====
-- A live lease keeps every other worker away from its run.
use agent_force.Prelude.{
  ℕ, ◌+◌, ◌<◌, ◌≤◌, ◌≡◌, ◌≢◌, refl, true, false, String, none, some, nat_Eq, arith, Bool-cases, inl,
  inr, str_eq, str_eq_iff, ltb, ◌∙◌, sym,
}
use agent_force.Prelude.Dict.{get, put, get-put_self}
use agent_force.Effects.{ok}
use agent_force.State.{RunStatus, RunRecord, is_terminal}
use agent_force.Store.Memory.{is_held, owned_by, take_lease, claim, renew, release}
use agent_force.Store.Records.{StoredRun, MemoryStore, save, seconds}
use agent_force.Store.Leases.{claim-some, renew-some, release-stranger, claim-inv}

-- The run has a lease of the owner until the given time, and is running.
abbrev pub IsLeased : StoredRun → String → ℕ → Type 0
IsLeased stored owner until =
    (stored.owner ≡ some owner)
    × (stored.expires ≡ some until)
    × (is_terminal stored.run.status ≡ false)

stranger : (a b : String) → a ≢ b → str_eq a b ≡ false
stranger a b n = elim (Bool-cases (str_eq a b)) [
  | inl e ↦ absurd (n ((str_eq_iff a b).0 e))
  | inr e ↦ e
]

take_lease-IsLeased :
    (stored : StoredRun) (owner : String) (ttl now : ℕ)
    → IsLeased (take_lease stored owner ttl now) owner (now + seconds ttl)
unfolding take_lease is_terminal
take_lease-IsLeased stored owner ttl now = (refl, refl, refl)

leased-owned_by :
    (stored : StoredRun) (a b : String) (until : ℕ)
    → IsLeased stored a until
    → owned_by stored b ≡ str_eq a b
unfolding owned_by
leased-owned_by stored a b until (o, e, t) = rw (o, owned_by) refl

leased-is_held :
    (stored : StoredRun) (a : String) (until now : ℕ)
    → IsLeased stored a until
    → is_held stored now ≡ ltb now until
unfolding is_held
leased-is_held stored a until now (o, e, t) = rw (e, is_held) refl

module _ (run_id : ℕ) (a b : String) (until : ℕ) (s : MemoryStore) (stored : StoredRun) where
  -- While the lease is live, another worker can neither take, nor extend, nor give back the run.
  leased-excludes :
      (ttl t : ℕ) (status : RunStatus)
      → get s.runs run_id ≡ some stored
      → IsLeased stored a until
      → a ≢ b
      → t < until
      → (claim run_id b ttl t s ≡ (ok none, s))
        × (renew run_id b ttl t s ≡ (ok false, s))
        × (release run_id b status s ≡ (ok tt, s))
  leased-excludes ttl t status h l n live =
      let o = leased-owned_by stored a b until l ∙ stranger a b n in
      let e = leased-is_held stored a until t l in
      (
        claim-some run_id b ttl t s stored h ∙ ground arith,
        renew-some run_id b ttl t s stored h ∙ ground arith,
        release-stranger run_id b status s stored h o,
      )

-- Once a worker has claimed a run, then until its lease ends no other worker can claim the run,
-- renew the lease or release it: each attempt is answered so, and leaves the store as it was.
pub claim-excludes :
    (run_id : ℕ) (a b : String) (ttl now : ℕ) (s s' : MemoryStore) (r : RunRecord)
    → claim run_id a ttl now s ≡ (ok (some r), s')
    → a ≢ b
    → (ttl' t : ℕ) (status : RunStatus) → t < now + seconds ttl
    → (claim run_id b ttl' t s' ≡ (ok none, s'))
      × (renew run_id b ttl' t s' ≡ (ok false, s'))
      × (release run_id b status s' ≡ (ok tt, s'))
claim-excludes run_id a b ttl now s s' r h n ttl' t status live =
    let (stored, g, nt, f, e) = claim-inv run_id a ttl now s s' r h in
    rw e (
      leased-excludes run_id a b (now + seconds ttl) _ (take_lease stored a ttl now) ttl' t status
        (get-put_self s.runs run_id _) (take_lease-IsLeased stored a ttl now) n live)

-- A worker that renews its lease in time keeps the run: until the renewed lease ends, no other
-- worker can claim the run, renew the lease or release it.
renew-excludes :
    (run_id : ℕ) (a b : String) (ttl now : ℕ) (s s' : MemoryStore) (r : RunRecord)
    → claim run_id a ttl now s ≡ (ok (some r), s')
    → a ≢ b
    → (ttl' t : ℕ) → t < now + seconds ttl
    → (s'' : MemoryStore) × (renew run_id a ttl' t s' ≡ (ok true, s''))
      × ((ttl'' u : ℕ) (status : RunStatus)
          → u < t + seconds ttl'
          → (claim run_id b ttl'' u s'' ≡ (ok none, s''))
            × (renew run_id b ttl'' u s'' ≡ (ok false, s''))
            × (release run_id b status s'' ≡ (ok tt, s'')))
renew-excludes run_id a b ttl now s s' r h n ttl' t live =
    let (stored, g, nt, f, e) = claim-inv run_id a ttl now s s' r h in
    let taken = take_lease stored a ttl now in
    let l = take_lease-IsLeased stored a ttl now in
    let kept = record taken { expires = some (t + seconds ttl') } in
    let o = leased-owned_by taken a a _ l ∙ (str_eq_iff a a).1 refl in
    let d = leased-is_held taken a _ t l in
    rw e (
      save (save s run_id taken) run_id kept,
      renew-some run_id a ttl' t (save s run_id taken) taken (get-put_self s.runs run_id taken)
          ∙ ground arith,
      λ ttl'' u status until.
          leased-excludes run_id a b (t + seconds ttl') _ kept ttl'' u status
            (get-put_self (put s.runs run_id taken) run_id kept) (l.0, refl, l.2) n until,
    )

-- Once the lease of a claimed run has ended, its worker can no longer renew it, another worker can
-- claim the run, and after that the first worker's release does nothing.
pub claim-takes_over :
    (run_id : ℕ) (a b : String) (ttl now : ℕ) (s s' : MemoryStore) (r : RunRecord)
    → claim run_id a ttl now s ≡ (ok (some r), s')
    → a ≢ b
    → (ttl' t : ℕ) (status : RunStatus) → now + seconds ttl ≤ t
    → (renew run_id a ttl' t s' ≡ (ok false, s'))
      × ((r' : RunRecord) × (s'' : MemoryStore) × (claim run_id b ttl' t s' ≡ (ok (some r'), s''))
          × (release run_id a status s'' ≡ (ok tt, s'')))
claim-takes_over run_id a b ttl now s s' r h n ttl' t status over =
    let (stored, g, nt, f, e) = claim-inv run_id a ttl now s s' r h in
    let taken = take_lease stored a ttl now in
    let l = take_lease-IsLeased stored a ttl now in
    let next = take_lease taken b ttl' t in
    let d = leased-is_held taken a _ t l in
    let nt' = l.2 in
    let here = get-put_self s.runs run_id taken in
    rw e (
      renew-some run_id a ttl' t (save s run_id taken) taken here ∙ ground arith,
      (
        next.run,
        save (save s run_id taken) run_id next,
        claim-some run_id b ttl' t (save s run_id taken) taken here ∙ ground arith,
        release-stranger run_id a status _ next (get-put_self (put s.runs run_id taken) run_id next)
            (leased-owned_by next b a _ (take_lease-IsLeased taken b ttl' t)
              ∙ stranger b a (λ q. n (sym q))),
      ),
    )
