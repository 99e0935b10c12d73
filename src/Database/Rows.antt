-- ===== src/Database/Rows.antt =====
-- A database in memory that keeps the laws: the tables as lists of rows.
use agent_force.Prelude.{
  ℕ, ◌≡◌, refl, sym, subst, ◌∙◌, ◌≤◌, Bool, true, false, not, ◌&&◌, Option, none, some, List, [],
  ◌∷◌, nat_Eq, leb, Eq, ◌==◌, if◌then◌else◌, arith, Option-cases, Bool-cases, inl, inr,
}
use agent_force.Prelude.Dict.{Dict, get, put, get-put, beq_self}
use agent_force.Errors.{Exc, integrity_error}
use agent_force.Effects.{Result, ok, err}
use agent_force.Database.Tables.{
  Table, IsTable, Children, IsChildren, place, has_index, mapped, is_integrity_error,
}

abbrev pub violated : Exc
violated = integrity_error "duplicate key value violates unique constraint"

abbrev pub violation : {T : Type 0} → Result T
violation = err violated

module _ {K R : Type 0} ⦃e : Eq K⦄ where
  -- The row of the two that comes first, where the one before is the same.
  unfoldable pub earlier : (R → ℕ) → K × R → Option (K × R) → K × R
  earlier by (k, r) none = (k, r)
  earlier by (k, r) (some (j, s)) = if leb (by r) (by s) then (k, r) else (j, s)

  -- A row whose key stands before it is not read.
  unfoldable pub first_row : (K → R → Bool) → (R → ℕ) → Dict K R → Option (K × R)
  unfolding earlier
  first_row p by [] = none
  first_row p by ((k, r) ∷ d) =
      let rest = first_row (λ j s. not (k == j) && p j s) by d in
      if p k r then some (earlier by (k, r) rest) else rest

  unfoldable pub insert_row : (R → Dict K R → Bool) → K → R → Dict K R → Result (Dict K R)
  unfolding get put
  insert_row refuses k r d = elim (get d k) [
    | none ↦ (if refuses r d then violation else ok (put d k r))
    | some s ↦ violation
  ]

  unfoldable pub update_row : K → (R → R) → Dict K R → Dict K R
  unfolding get put
  update_row k f [] = []
  update_row k f ((j, r) ∷ d) = if j == k then (j, f r) ∷ d else (j, r) ∷ update_row k f d

  abbrev pub dict_table : (R → Dict K R → Bool) → Table K R (Dict K R)
  dict_table refuses = record {
    select = λ k d. get d k;
    first = first_row;
    refuses = refuses;
    insert = insert_row refuses;
    update = update_row;
  }

  insert_row-none :
      (refuses : R → Dict K R → Bool) (k : K) (r : R) (d : Dict K R)
      → get d k ≡ none
      → insert_row refuses k r d ≡ (if refuses r d then violation else ok (put d k r))
  unfolding insert_row
  insert_row-none refuses k r d h = rw (h, insert_row) refl

  insert_row-some :
      (refuses : R → Dict K R → Bool) (k : K) (r s : R) (d : Dict K R)
      → get d k ≡ some s
      → insert_row refuses k r d ≡ violation
  unfolding insert_row
  insert_row-some refuses k r s d h = rw (h, insert_row) refl

  get-update_row :
      (k j : K) (f : R → R) (d : Dict K R)
      → get (update_row k f d) j ≡ (if k == j then mapped f (get d j) else get d j)
  unfolding get update_row
  get-update_row k j f [] = ground arith
  get-update_row k j f ((i, r) ∷ d) =
      ground (arith, e.beq_iff i k, e.beq_iff i j, e.beq_iff k j, get-update_row k j f d)

  first_row-some :
      (p : K → R → Bool) (by : R → ℕ) (k : K) (r : R) (d : Dict K R)
      → first_row p by d ≡ some (k, r)
      → (get d k ≡ some r) × (p k r ≡ true)
  unfolding get first_row
  first_row-some p by k r [] h = ground arith
  first_row-some p by k r ((j, s) ∷ d) h =
      elim (Option-cases (first_row (λ i t. not (j == i) && p i t) by d)) [
        | inl q ↦ ground (arith, beq_self j)
        | inr ((i, t), q) ↦
            let found = first_row-some (λ i t. not (j == i) && p i t) by i t d q in
            let there : get d i ≡ some t = found.0 in
            let meets : (not (j == i) && p i t) ≡ true = found.1 in ground (arith, beq_self j)
      ]

  first_row-none :
      (p : K → R → Bool) (by : R → ℕ) (k : K) (r : R) (d : Dict K R)
      → first_row p by d ≡ none
      → get d k ≡ some r
      → p k r ≡ false
  unfolding get first_row
  first_row-none p by k r [] h g = ground arith
  first_row-none p by k r ((j, s) ∷ d) h g =
      ground (arith, e.beq_iff j k, first_row-none (λ i t. not (j == i) && p i t) by k r d)

  first_row-least :
      (p : K → R → Bool) (by : R → ℕ) (k : K) (r : R) (j : K) (s : R) (d : Dict K R)
      → first_row p by d ≡ some (k, r)
      → get d j ≡ some s
      → p j s ≡ true
      → by r ≤ by s
  unfolding get first_row
  first_row-least p by k r j s [] h g q = ground arith
  first_row-least p by k r j s ((i, t) ∷ d) h g q =
      elim (Option-cases (first_row (λ a b. not (i == a) && p a b) by d)) [
        | inl n ↦
            ground (arith, e.beq_iff i j, first_row-none (λ a b. not (i == a) && p a b) by j s d n)
        | inr ((k', r'), n) ↦
            ground (
              arith,
              e.beq_iff i j,
              first_row-least (λ a b. not (i == a) && p a b) by k' r' j s d n,
            )
      ]

  insert_row-refused :
      (refuses : R → Dict K R → Bool) (k : K) (r : R) (d : Dict K R)
      → refuses r d ≡ true
      → insert_row refuses k r d ≡ violation
  unfolding insert_row
  insert_row-refused refuses k r d h = elim (Option-cases (get d k)) [
    | inl n ↦ rw (n, insert_row, h) refl
    | inr (s, n) ↦ rw (n, insert_row) refl
  ]

  get-insert_row :
      (refuses : R → Dict K R → Bool) (k j : K) (r : R) (d d' : Dict K R)
      → insert_row refuses k r d ≡ ok d'
      → get d' j ≡ (if k == j then some r else get d j)
  unfolding insert_row
  get-insert_row refuses k j r d d' h = elim (Option-cases (get d k)) [
    | inl n ↦
        let q : (if refuses r d then violation else ok (put d k r)) ≡ ok d' =
          sym (insert_row-none refuses k r d n) ∙ h in
        ground (arith, get-put d k j r)
    | inr (s, n) ↦
        let q : violation ≡ ok d' = sym (insert_row-some refuses k r s d n) ∙ h in ground arith
  ]

  pub dict_table-IsTable : (refuses : R → Dict K R → Bool) → IsTable (dict_table refuses)
  unfolding is_integrity_error
  dict_table-IsTable refuses = record {
    insert_new = λ k r d n a. (put d k r, rw (insert_row-none refuses k r d n, a) refl);
    insert_taken = λ k r s d h. (violated, insert_row-some refuses k r s d h, refl);
    insert_refused = λ k r d h. (violated, insert_row-refused refuses k r d h, refl);
    select_insert = get-insert_row refuses;
    select_update = get-update_row;
    first_some = first_row-some;
    first_least = first_row-least;
    first_none = first_row-none;
  }

module _ {R : Type 0} (at : R → ℕ) where
  unfoldable pub run_rows : ℕ → List (ℕ × R) → List R
  unfolding place
  run_rows run [] = []
  run_rows run ((owner, r) ∷ d) =
      let rest = run_rows run d in if owner == run then place at r rest else rest

  unfoldable pub add_row : ℕ → R → List (ℕ × R) → Result (List (ℕ × R))
  unfolding run_rows
  add_row run r d = if has_index at (at r) (run_rows run d) then violation else ok ((run, r) ∷ d)

  abbrev pub list_children : Children R (List (ℕ × R))
  list_children = record { rows = run_rows; add = add_row }

  run_rows-add_row :
      (run other : ℕ) (r : R) (d d' : List (ℕ × R))
      → add_row run r d ≡ ok d'
      → run_rows other d'
        ≡ (if run == other then place at r (run_rows other d) else run_rows other d)
  unfolding add_row
  run_rows-add_row run other r d d' h = elim (Bool-cases (has_index at (at r) (run_rows run d))) [
    | inl b ↦
        let q : violation ≡ ok d' =
          subst (λ c. (if c then violation else ok ((run, r) ∷ d)) ≡ ok d') b h in
        ground arith
    | inr b ↦
        let q : (run, r) ∷ d ≡ d' = ground arith in
        subst
          (λ x.
            run_rows other x
            ≡ (if run == other then place at r (run_rows other d) else run_rows other d))
          q refl
  ]

  pub list_children-IsChildren : IsChildren at list_children
  unfolding is_integrity_error add_row
  list_children-IsChildren = record {
    add_new = λ run r d h. ((run, r) ∷ d, rw (h, add_row) refl);
    add_taken = λ run r d h. (violated, rw (h, add_row) refl, refl);
    rows_add = run_rows-add_row;
  }
