-- ===== src/Store/Contract.antt =====
-- What app/core/ports.py promises of the leases of a `RunStore`: a live lease is its worker's, until
-- the run is finished, which takes no worker and may be done by any. The
-- stores fill the interface, and what follows from it holds of each.
pub mod Memory
pub mod Postgres
use agent_force.Prelude.{
  ℕ, ◌≡◌, ◌≢◌, ◌≤◌, ◌<◌, ◌∙◌, Bool, false, String, Option, none, some, arith, nat_Eq, ◌==◌,
}
use agent_force.State.{RunStatus, RunOutcome}

-- The worker of a run, and until when.
abbrev pub Lease : Type 0
Lease = Option (String × ℕ)

-- A lease is there where its worker and its end both are.
abbrev pub lease_of : Option String → Option ℕ → Lease
lease_of none until = none
lease_of (some owner) none = none
lease_of (some owner) (some until) = some (owner, until)

abbrev pub IsFree : ℕ → Lease → Type 0
IsFree now none = Unit
IsFree now (some (owner, until)) = until ≤ now

-- What one worker may do to a lease at one time.
pub data Moves (now : ℕ) (who : String) : Lease → Lease → Type 0 where
  keeps : (l : Lease) → Moves now who l l
  takes : (l : Lease) (until : ℕ) → IsFree now l → Moves now who l (some (who, until))
  extends : (u until : ℕ) → now < u → Moves now who (some (who, u)) (some (who, until))
  gives_up : (u : ℕ) → Moves now who (some (who, u)) none

-- The operations on leases, as changes of the store; `skipped` says which runs a scan passes over.
pub record LeaseStore (W : Type 0) : Type 0 where
  pub lease : ℕ → W → Lease
  pub claim : ℕ → String → ℕ → ℕ → W → W
  pub claim_next : (ℕ → Bool) → String → ℕ → ℕ → W → W
  pub renew : ℕ → String → ℕ → ℕ → W → W
  pub release : ℕ → String → RunStatus → W → W
  pub finish : ℕ → RunOutcome → ℕ → W → W

pub record IsLeaseStore {W : Type 0} (p : LeaseStore W) : Type 0 where
  pub claims :
      (run_id : ℕ) (owner : String) (ttl now j : ℕ) (w : W)
      → Moves now owner (p.lease j w) (p.lease j (p.claim run_id owner ttl now w))
  pub claims_next :
      (skipped : ℕ → Bool) (owner : String) (ttl now j : ℕ) (w : W)
      → Moves now owner (p.lease j w) (p.lease j (p.claim_next skipped owner ttl now w))
  pub renews :
      (run_id : ℕ) (owner : String) (ttl now j : ℕ) (w : W)
      → Moves now owner (p.lease j w) (p.lease j (p.renew run_id owner ttl now w))
  pub releases :
      (run_id : ℕ) (owner : String) (status : RunStatus) (now j : ℕ) (w : W)
      → Moves now owner (p.lease j w) (p.lease j (p.release run_id owner status w))
  pub finishes_others :
      (run_id : ℕ) (outcome : RunOutcome) (now j : ℕ) (w : W)
      → (run_id == j) ≡ false
      → p.lease j (p.finish run_id outcome now w) ≡ p.lease j w

-- A worker that does not hold a live lease cannot change it.
Moves-live :
    (now until : ℕ) (who holder : String) {l l' : Lease}
    → Moves now who l l'
    → l ≡ some (holder, until)
    → now < until
    → who ≢ holder
    → l' ≡ some (holder, until)
Moves-live now until who holder (keeps l) h live n = h
Moves-live now until who holder (takes none u f) h live n = absurd (ground arith)
Moves-live now until who holder (takes (some (o, v)) u f) h live n = absurd (ground arith)
Moves-live now until who holder (extends u v g) h live n = absurd (n (ground arith))
Moves-live now until who holder (gives_up u) h live n = absurd (n (ground arith))

module _ {W : Type 0} (p : LeaseStore W) where
  -- Calls of workers other than the holder of a run's lease, each before the lease ends, in any order:
  -- claims, scans, renewals and releases of any run, and the end of any other run. `finish` of the run
  -- itself is left out: it takes no worker, and clears whatever lease there is.
  pub data Others (run : ℕ) (holder : String) (until : ℕ) (w : W) : W → Type 0 where
    nothing : Others run holder until w w
    and_claim :
        {v : W} (run_id : ℕ) (who : String) (ttl now : ℕ)
        → Others run holder until w v
        → who ≢ holder
        → now < until
        → Others run holder until w (p.claim run_id who ttl now v)
    and_claim_next :
        {v : W} (skipped : ℕ → Bool) (who : String) (ttl now : ℕ)
        → Others run holder until w v
        → who ≢ holder
        → now < until
        → Others run holder until w (p.claim_next skipped who ttl now v)
    and_renew :
        {v : W} (run_id : ℕ) (who : String) (ttl now : ℕ)
        → Others run holder until w v
        → who ≢ holder
        → now < until
        → Others run holder until w (p.renew run_id who ttl now v)
    and_release :
        {v : W} (run_id : ℕ) (who : String) (status : RunStatus) (now : ℕ)
        → Others run holder until w v
        → who ≢ holder
        → now < until
        → Others run holder until w (p.release run_id who status v)
    and_finish :
        {v : W} (run_id : ℕ) (outcome : RunOutcome) (now : ℕ)
        → Others run holder until w v
        → (run_id == run) ≡ false
        → Others run holder until w (p.finish run_id outcome now v)

module _ {W : Type 0} (p : LeaseStore W) (laws : IsLeaseStore p) where
  -- In any store that keeps the contract, a lease that is live stays its worker's, with the same end,
  -- through every sequence of claims, scans, renewals and releases that other workers make before it
  -- ends and of other runs that are finished. That `finish` is called for the run itself is excluded.
  pub Others-keeps :
      (run_id : ℕ) (holder : String) (until : ℕ) {w v : W}
      → p.lease run_id w ≡ some (holder, until)
      → Others p run_id holder until w v
      → p.lease run_id v ≡ some (holder, until)
  Others-keeps j holder until h nothing = h
  Others-keeps j holder until h (and_claim {v} run_id who ttl now o n live) =
      Moves-live now until who holder (laws.claims run_id who ttl now j v)
        (Others-keeps j holder until h o) live n
  Others-keeps j holder until h (and_claim_next {v} skipped who ttl now o n live) =
      Moves-live now until who holder (laws.claims_next skipped who ttl now j v)
        (Others-keeps j holder until h o) live n
  Others-keeps j holder until h (and_renew {v} run_id who ttl now o n live) =
      Moves-live now until who holder (laws.renews run_id who ttl now j v)
        (Others-keeps j holder until h o) live n
  Others-keeps j holder until h (and_release {v} run_id who status now o n live) =
      Moves-live now until who holder (laws.releases run_id who status now j v)
        (Others-keeps j holder until h o) live n
  Others-keeps j holder until h (and_finish {v} run_id outcome now o n) =
      laws.finishes_others run_id outcome now j v n ∙ Others-keeps j holder until h o
