-- ===== src/Prelude/Dict.antt =====
-- Python's `dict`, in insertion order: a write to a key that is there keeps its place.
use mathlib.Core.Path.{◌≡◌, refl}
use mathlib.Core.Bool.{true, false}
use mathlib.Core.Option.{Option, none, some}
use mathlib.Core.List.{List, [], ◌∷◌}
use native.Mathlib.Omega.{arith}
use agent_force.Prelude.Tests.{Eq, ◌==◌, if◌then◌else◌}

abbrev pub Dict {ℓ κ} : Type ℓ → Type κ → Type (ℓ ⊔ κ)
Dict K V = List (K × V)

pub beq_self {ℓ} : {K : Type ℓ} ⦃e : Eq K⦄ (k : K) → (k == k) ≡ true
beq_self ⦃e⦄ k = (e.beq_iff k k).1 refl

module _ {ℓ κ} {K : Type ℓ} {V : Type κ} ⦃e : Eq K⦄ where
  -- `d.get(k)`
  unfoldable pub get : Dict K V → K → Option V
  get [] k = none
  get ((j, v) ∷ d) k = if j == k then some v else get d k

  -- `d[k] = v`
  unfoldable pub put : Dict K V → K → V → Dict K V
  put [] k v = (k, v) ∷ []
  put ((j, w) ∷ d) k v = if j == k then (j, v) ∷ d else (j, w) ∷ put d k v

  pub get-put :
      (d : Dict K V) (k j : K) (v : V) → get (put d k v) j ≡ (if k == j then some v else get d j)
  unfolding get put
  get-put [] k j v = refl
  get-put ((i, w) ∷ d) k j v =
      ground (arith, e.beq_iff i k, e.beq_iff i j, e.beq_iff k j, get-put d k j v)

  pub get-put_self : (d : Dict K V) (k : K) (v : V) → get (put d k v) k ≡ some v
  get-put_self d k v = ground (arith, get-put d k k v, beq_self k)

  pub get-put_ne : (d : Dict K V) (k j : K) (v : V) → (k == j) ≡ false → get (put d k v) j ≡ get d j
  get-put_ne d k j v h = ground (arith, get-put d k j v)

  -- Writing the value that is there changes nothing.
  pub put-get : (d : Dict K V) (k : K) (v : V) → get d k ≡ some v → put d k v ≡ d
  unfolding get put
  put-get [] k v h = cc
  put-get ((j, w) ∷ d) k v h = ground (arith, put-get d k v)

  -- A second write takes the place of the first.
  pub put-put : (d : Dict K V) (k : K) (v w : V) → put (put d k v) k w ≡ put d k w
  unfolding put
  put-put [] k v w = ground (arith, beq_self k)
  put-put ((j, u) ∷ d) k v w = ground (arith, put-put d k v w)
