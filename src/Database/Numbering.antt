-- ===== src/Database/Numbering.antt =====
-- The rows of a run that are numbered without gaps, and what adding to them does.
use agent_force.Prelude.{
  ℕ, suc, ◌+◌, ◌≡◌, ◌≤◌, refl, sym, ap, subst, ◌∙◌, true, false, List, [], ◌∷◌, ◌++◌, length,
  length-snoc, nat_Eq, ◌==◌, arith, inl, inr, nat_eq_iff,
}
use mathlib.Core.List.{append-nil, append_assoc}
use agent_force.Prelude.Dict.{beq_self}
use agent_force.Effects.{ok, err, ◌>>=◌, Result-cases}
use agent_force.Database.Tables.{Children, IsChildren, place, has_index, add_all}

module _ {R : Type 0} (at : R → ℕ) where
  -- The indices are n, n + 1, and so on.
  abbrev pub IsNumbered : ℕ → List R → Type 0
  IsNumbered n [] = Unit
  IsNumbered n (r ∷ rs) = (at r ≡ n) × IsNumbered (suc n) rs

  IsNumbered-append :
      (n : ℕ) (xs ys : List R)
      → IsNumbered n xs
      → IsNumbered (n + length xs) ys
      → IsNumbered n (xs ++ ys)
  IsNumbered-append n [] ys h g = subst (λ m. IsNumbered m ys) (omega arith) g
  IsNumbered-append n (x ∷ xs) ys (e, h) g =
      (e, IsNumbered-append (suc n) xs ys h (subst (λ m. IsNumbered m ys) (omega arith) g))

  -- The next index is not taken, and its row goes to the end.
  has_index-next :
      (n i : ℕ) (xs : List R) → IsNumbered n xs → n + length xs ≤ i → has_index at i xs ≡ false
  has_index-next n i [] h e = refl
  has_index-next n i (x ∷ xs) (q, h) e =
      ground (arith, nat_eq_iff (at x) i, has_index-next (suc n) i xs h (omega arith))

  place-next :
      (n : ℕ) (r : R) (xs : List R)
      → IsNumbered n xs
      → n + length xs ≤ at r
      → place at r xs ≡ xs ++ r ∷ []
  unfolding place
  place-next n r [] h e = refl
  place-next n r (x ∷ xs) (q, h) e = ground (arith, place-next (suc n) r xs h (omega arith))

  -- A row that has been placed is found by its index.
  pub has_index-place :
      (r : R) (i : ℕ) (xs : List R) → at r ≡ i → has_index at i (place at r xs) ≡ true
  unfolding place
  has_index-place r i [] e = ground (arith, nat_eq_iff (at r) i)
  has_index-place r i (x ∷ xs) e = ground (arith, nat_eq_iff (at r) i, has_index-place r i xs e)

  -- Placing another row hides none.
  pub has_index-place_more :
      (r : R) (i : ℕ) (xs : List R)
      → has_index at i xs ≡ true
      → has_index at i (place at r xs) ≡ true
  unfolding place
  has_index-place_more r i [] e = absurd (ground arith)
  has_index-place_more r i (x ∷ xs) e = ground (arith, has_index-place_more r i xs)

module _ {R T : Type 0} (at : R → ℕ) (c : Children R T) (laws : IsChildren at c) where
  -- The row with the next index is added, at the end of its run's, and no other run's rows change.
  pub add-next :
      (run : ℕ) (r : R) (d : T)
      → IsNumbered at 0 (c.rows run d)
      → at r ≡ length (c.rows run d)
      → (d' : T) × (c.add run r d ≡ ok d')
        × (c.rows run d' ≡ c.rows run d ++ r ∷ [])
        × IsNumbered at 0 (c.rows run d')
  add-next run r d h e =
      let (d', q) =
        laws.add_new run r d (has_index-next at 0 (at r) (c.rows run d) h (omega arith)) in
      let w : c.rows run d' ≡ c.rows run d ++ r ∷ [] =
        rw (laws.rows_add run run r d d' q, beq_self run)
          (place-next at 0 r (c.rows run d) h (omega arith)) in
      (
        d',
        q,
        w,
        subst (IsNumbered at 0) (sym w)
            (IsNumbered-append at 0 (c.rows run d) (r ∷ []) h (omega arith, tt)),
      )

  pub rows-add :
      (run other : ℕ) (r : R) (d d' : T)
      → c.add run r d ≡ ok d'
      → (run == other) ≡ false
      → c.rows other d' ≡ c.rows other d
  rows-add run other r d d' q n = rw (laws.rows_add run other r d d' q, n) refl

  pub add_all-next :
      (run : ℕ) (rs : List R) (d : T)
      → IsNumbered at 0 (c.rows run d)
      → IsNumbered at (length (c.rows run d)) rs
      → (d' : T) × (add_all c run rs d ≡ ok d')
        × (c.rows run d' ≡ c.rows run d ++ rs)
        × IsNumbered at 0 (c.rows run d')
  unfolding add_all
  add_all-next run [] d h g = (d, refl, sym (append-nil _), h)
  add_all-next run (r ∷ rs) d h (e, g) =
      let (d', q, w, numbered) = add-next run r d h e in
      let more =
        subst (λ n. IsNumbered at n rs) (sym (ap length w ∙ length-snoc (c.rows run d) r)) g in
      let (d'', q', w', k) = add_all-next run rs d' numbered more in
      (
        d'',
        rw (q, q') refl,
        w' ∙ ap (λ xs. xs ++ rs) w ∙ append_assoc (c.rows run d) (r ∷ []) rs,
        k,
      )

  pub rows-add_all :
      (run other : ℕ) (rs : List R) (d d' : T)
      → add_all c run rs d ≡ ok d'
      → (run == other) ≡ false
      → c.rows other d' ≡ c.rows other d
  unfolding add_all
  rows-add_all run other [] d d' q n =
      let same : d ≡ d' = ground arith in ap (c.rows other) (sym same)
  rows-add_all run other (r ∷ rs) d d' q n = elim (Result-cases (c.add run r d)) [
    | inl (d'', e) ↦
        let rest : add_all c run rs d'' ≡ ok d' =
          sym (ap (λ x. x >>= λ y. add_all c run rs y) e) ∙ q in
        rows-add_all run other rs d'' d' rest n ∙ rows-add run other r d d'' e n
    | inr (x, e) ↦ absurd (
        let b : err x ≡ ok d' = sym (ap (λ y. y >>= λ z. add_all c run rs z) e) ∙ q in ground arith)
  ]
