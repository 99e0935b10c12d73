-- ===== src/Loop/Routing.antt =====
-- What the constructor of AgentLoop makes sure of.
use agent_force.Prelude.{
  ◌≡◌, refl, sym, ◌∙◌, inl, inr, Bool, true, false, ◌||◌, String, none, some, List, [], ◌∷◌, any,
  is_empty, string_Eq, str_eq, str_eq_iff, arith, Bool-cases, Option-cases,
}
use agent_force.Prelude.Dict.{Dict, get}
use agent_force.Effects.{ok}
use agent_force.Tools.Spec.{ToolSpec, ExecutionMode, inline, durable}
use agent_force.Tools.Registry.{Registry, insert_sorted, sorted, keys, names, lookup}
use agent_force.Loop.Deps.{Deps, is_durable, durable_among, unroutable_error, init}

abbrev has : String → List String → Bool
has name = any (λ other. str_eq other name)

has-insert_sorted :
    (name x : String) (r : List String)
    → has name (insert_sorted x r) ≡ (str_eq x name || has name r)
unfolding insert_sorted
has-insert_sorted name x [] = ground arith
has-insert_sorted name x (y ∷ r) = ground (arith, has-insert_sorted name x r)

has-sorted : (name : String) (l : List String) → has name (sorted l) ≡ has name l
unfolding sorted
has-sorted name [] = refl
has-sorted name (x ∷ l) = ground (arith, has-insert_sorted name x (sorted l), has-sorted name l)

has-keys :
    {V : Type 0} (d : Dict String V) (name : String) (v : V)
    → get d name ≡ some v
    → has name (keys d) ≡ true
unfolding get
has-keys [] name v h = absurd (ground arith)
has-keys ((k, w) ∷ d) name v h = elim (Bool-cases (str_eq k name)) [
  | inl e ↦ ground arith
  | inr e ↦ ground (arith, has-keys d name v (ground arith))
]

module _ {W : Type 0} where
  durable_among-has :
      (r : Registry W) (name : String) (ns : List String)
      → has name ns ≡ true
      → is_durable r name ≡ true
      → is_empty (durable_among r ns) ≡ false
  unfolding durable_among
  durable_among-has r name [] h d = absurd (ground arith)
  durable_among-has r name (n ∷ ns) h d = elim (Bool-cases (is_durable r n)) [
    | inl e ↦ rw (e, durable_among) refl
    | inr e ↦
        rw (e, durable_among) (durable_among-has r name ns (ground (arith, str_eq_iff n name)) d)
  ]

  lookup-registered :
      (r : Registry W) (name : String) (spec : ToolSpec W)
      → lookup r name ≡ ok spec
      → has name (names r) ≡ true
  unfolding lookup names
  lookup-registered r name spec h = elim (Option-cases (get r.tools name)) [
    | inl e ↦ absurd (let q = rw (e, lookup) at h in ground arith)
    | inr (found, e) ↦ has-sorted name (keys r.tools) ∙ has-keys r.tools name found e
  ]

  durable-is_durable :
      (r : Registry W) (name : String) (spec : ToolSpec W)
      → lookup r name ≡ ok spec
      → spec.execution ≡ durable
      → is_durable r name ≡ true
  unfolding is_durable
  durable-is_durable r name spec h e = rw (h, is_durable) (rw e refl)

  unroutable_error-some :
      (ns : List String) (deps ready : Deps W)
      → is_empty ns ≡ false
      → unroutable_error ns deps ≡ ok ready
      → ⊥
  unfolding unroutable_error
  unroutable_error-some [] deps ready e h = ground arith
  unroutable_error-some (n ∷ ns) deps ready e h = ground arith

  init-no_queue :
      (deps : Deps W)
      → deps.queue ≡ none
      → init deps ≡ unroutable_error (durable_among deps.registry (names deps.registry)) deps
  unfolding init
  init-no_queue deps q = ground arith

  mode-cases :
      (deps ready : Deps W) (name : String) (spec : ToolSpec W) (mode : ExecutionMode)
      → spec.execution ≡ mode
      → init deps ≡ ok ready
      → deps.queue ≡ none
      → lookup deps.registry name ≡ ok spec
      → spec.execution ≡ inline
  mode-cases deps ready name spec inline e h q l = e
  mode-cases deps ready name spec durable e h q l =
      let r = deps.registry in
      absurd (
        unroutable_error-some (durable_among r (names r)) deps ready
          (durable_among-has r name (names r) (lookup-registered r name spec l)
            (durable-is_durable r name spec l e))
          (sym (init-no_queue deps q) ∙ h))

  -- A loop that was constructed without a queue has no durable tool in its registry: every tool that
  -- a lookup finds runs inline, so the refusal of a durable call for want of a queue is not reached.
  pub init-routable :
      (deps ready : Deps W) (name : String) (spec : ToolSpec W)
      → init deps ≡ ok ready
      → deps.queue ≡ none
      → lookup deps.registry name ≡ ok spec
      → spec.execution ≡ inline
  init-routable deps ready name spec = mode-cases deps ready name spec spec.execution refl
