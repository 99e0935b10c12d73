-- ===== src/Store/Postgres/Updates.antt =====
-- What an UPDATE with a condition does to the rows.
use agent_force.Prelude.{
  ◌≡◌, refl, subst, Bool, none, some, nat_Eq, Eq, ◌==◌, Option-cases, Bool-cases, inl, inr,
  if◌then◌else◌,
}
use agent_force.Database.Tables.{Table, IsTable, mapped}
use agent_force.Store.Postgres.Runs.{update_where}

module _ {K R T : Type 0} ⦃e : Eq K⦄ (t : Table K R T) (laws : IsTable t) where
  pub update_where-none :
      (k : K) (test : R → Bool) (f : R → R) (d : T)
      → t.select k d ≡ none
      → update_where t k test f d ≡ (none, d)
  unfolding update_where
  update_where-none k test f d h = rw (h, update_where) refl

  pub update_where-some :
      (k : K) (test : R → Bool) (f : R → R) (d : T) (r : R)
      → t.select k d ≡ some r
      → update_where t k test f d ≡ (if test r then (some (f r), t.update k f d) else (none, d))
  unfolding update_where
  update_where-some k test f d r h = rw (h, update_where) refl

  -- The row of the key is rewritten where the test holds, and no other row is.
  pub select-update_where :
      (k j : K) (test : R → Bool) (f : R → R) (d : T)
      → t.select j (update_where t k test f d).1
        ≡ (if k == j then mapped (λ r. if test r then f r else r) (t.select j d) else t.select j d)
  select-update_where k j test f d = elim (Option-cases (t.select k d)) [
    | inl h ↦ rw (update_where-none k test f d h) (elim (Bool-cases (k == j)) [
      | inl b ↦
          let m : t.select j d ≡ none = subst (λ i. t.select i d ≡ none) ((e.beq_iff k j).0 b) h in
          rw (b, m) refl
      | inr b ↦ rw b refl
    ])
    | inr (r, h) ↦ rw (update_where-some k test f d r h) (elim (Bool-cases (test r)) [
      | inl y ↦ elim (Bool-cases (k == j)) [
        | inl b ↦
            let m : t.select j d ≡ some r =
              subst (λ i. t.select i d ≡ some r) ((e.beq_iff k j).0 b) h in
            rw (y, laws.select_update k j f d, b, m, y) refl
        | inr b ↦ rw (y, laws.select_update k j f d, b) refl
      ]
      | inr n ↦ elim (Bool-cases (k == j)) [
        | inl b ↦
            let m : t.select j d ≡ some r =
              subst (λ i. t.select i d ≡ some r) ((e.beq_iff k j).0 b) h in
            rw (n, b, m, n) refl
        | inr b ↦ rw (n, b) refl
      ]
    ])
  ]
