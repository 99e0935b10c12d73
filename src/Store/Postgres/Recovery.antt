-- ===== src/Store/Postgres/Recovery.antt =====
-- `claim_next_reclaimable` of app/adapters/db/run_store.py: the scan that recovers abandoned runs.
use agent_force.Prelude.{
  ℕ, ◌≡◌, refl, sym, ap, ◌∙◌, Bool, String, none, some, arith, nat_Eq, Option-cases, inl, inr,
}
use agent_force.Effects.{ok, ◌>>=◌, bind-ok}
use agent_force.Store.Postgres.Models.{RunRow, Schema, Stored, IsSchema}
use agent_force.Store.Postgres.Runs.{load}
use agent_force.Store.Postgres.Leases.{lease_row, is_candidate, claim_next_reclaimable}
use agent_force.Store.Postgres.Abandoned.{IsKept, not_candidate-Kept}

module _ {R S M : Type 0} (q : Schema R S M) where
  abbrev leased : ℕ → String → ℕ → ℕ → Stored R S M → Stored R S M
  leased id owner ttl now db = record db {
    runs = q.runs.update id (lease_row owner ttl now) db.runs;
  }

  claim_next-some :
      (locked : ℕ → Bool) (owner : String) (ttl now id : ℕ) (run : RunRow) (db : Stored R S M)
      → q.runs.first (is_candidate locked now) (λ row. row.created_at) db.runs ≡ some (id, run)
      → claim_next_reclaimable q locked owner ttl now db ≡ (
        load q id (leased id owner ttl now db) >>= (λ r. ok (some r)),
        leased id owner ttl now db,
      )
  unfolding claim_next_reclaimable
  claim_next-some locked owner ttl now id run db h = rw (h, claim_next_reclaimable) refl

  claim_next-none :
      (locked : ℕ → Bool) (owner : String) (ttl now : ℕ) (db : Stored R S M)
      → q.runs.first (is_candidate locked now) (λ row. row.created_at) db.runs ≡ none
      → claim_next_reclaimable q locked owner ttl now db ≡ (ok none, db)
  unfolding claim_next_reclaimable
  claim_next-none locked owner ttl now db h = rw (h, claim_next_reclaimable) refl

module _ {R S M : Type 0} (q : Schema R S M) (laws : IsSchema q) where
  -- The scan overlooks nothing: where it answers that there is no run to take, nothing has changed, and
  -- every run is completed or failed, is locked by another transaction, or has an owner whose lease has no
  -- end or one that is not before now.
  pub claim_next_complete :
      (locked : ℕ → Bool) (owner : String) (ttl now : ℕ) (db db' : Stored R S M) (j : ℕ)
      (run : RunRow)
      → claim_next_reclaimable q locked owner ttl now db ≡ (ok none, db')
      → q.runs.select j db.runs ≡ some run
      → (db' ≡ db) × IsKept locked now j run
  claim_next_complete locked owner ttl now db db' j run h a =
      elim (Option-cases (q.runs.first (is_candidate locked now) (λ row. row.created_at) db.runs)) [
        | inl n ↦ (
          ap (λ x. x.1) (sym h ∙ claim_next-none q locked owner ttl now db n),
          not_candidate-Kept locked now j run (
              laws.runs.first_none (is_candidate locked now) (λ row. row.created_at) j run db.runs n
                a),
        )
        | inr ((id, row), n) ↦
            let answer =
              ap (λ x. x.0) (sym (claim_next-some q locked owner ttl now id row db n) ∙ h) in
            let (r', loads, k) = bind-ok (load q id (leased q id owner ttl now db)) _ none answer in
            absurd (let b : ok (some r') ≡ ok none = k in ground arith)
      ]
