-- ===== src/Prompts/Cache.antt =====
-- A prompt stays what it was when the process first loaded it.
use agent_force.Prelude.{
  ℕ, ◌≡◌, refl, sym, ap, ◌∙◌, String, Option, none, some, List, [], ◌∷◌, inl, inr, Option-cases,
  Bool-cases, arith, Eq, ◌==◌,
}
use agent_force.Prelude.Dict.{get, put, Dict, get-put_ne, get-put_self}
use agent_force.Effects.Prog.{Run, returns, raises, out_of_fuel, continue}
use agent_force.Effects.Ensures.{Ensures, Ensures-bind, both-Ensures}
use agent_force.Effects.Keeps.{Keeps, Keeps-then}
use agent_force.Prompts.{
  PromptsDir, Loader, key_Eq, outside, normalised, file_name, load_prompt, read_prompt, keep,
}

-- A write to a key that is missing leaves what another key has.
get-put_missing {ℓ κ} :
    {K : Type ℓ} {V : Type κ} ⦃e : Eq K⦄ (d : Dict K V) (j k : K) (new v : V)
    → get d j ≡ none
    → get d k ≡ some v
    → get (put d j new) k ≡ some v
get-put_missing ⦃e⦄ d j k new v missing has = elim (Bool-cases (j == k)) [
  | inl b ↦
      let clash = sym missing ∙ (ap (get d) ((e.beq_iff j k).0 b) ∙ has) in absurd (ground arith)
  | inr b ↦ get-put_ne d j k new b ∙ has
]

module _ {W : Type 0} (dir : PromptsDir W) where
  -- Another load, or a change of the files and the rest of the world.
  pub data Event : Type 0 where
    loads : String → ℕ → Event
    changes : (W → W) → Event

  abbrev happens : Event → Loader W → Loader W
  happens (loads name version) p = (load_prompt dir name version p).1
  happens (changes f) p = record p { world = f p.world }

  abbrev pub after : List Event → Loader W → Loader W
  after [] p = p
  after (event ∷ events) p = after events (happens event p)

  normalised-Keeps :
      (c : Dict (String × ℕ) String) (path : String) (found : Option String)
      → Keeps (λ q. q.cache ≡ c) (normalised dir path found)
  normalised-Keeps c path (some raw) = λ w h. h
  normalised-Keeps c path none =
      Keeps-then (λ q. q.cache ≡ c) (outside dir dir.glob) _ (λ w h. h) (λ found w h. h)

  read_prompt-Keeps :
      (c : Dict (String × ℕ) String) (name : String) (version : ℕ)
      → Keeps (λ q. q.cache ≡ c) (read_prompt dir name version)
  unfolding read_prompt
  read_prompt-Keeps c name version =
      Keeps-then (λ q. q.cache ≡ c) (outside dir (dir.read_text (file_name name version))) _
        (λ w h. h) (normalised-Keeps c (file_name name version))

  module _ (key : String × ℕ) (text : String) where
    abbrev HasText : Loader W → Type 0
    HasText p = get p.cache key ≡ some text

    continue-HasText :
        (other : String × ℕ) (r : Run String) (q : Loader W)
        → get q.cache other ≡ none
        → HasText q
        → HasText (continue r (keep dir other) q).1
    continue-HasText other (returns t) q missing h =
        get-put_missing q.cache other key t text missing h
    continue-HasText other (raises x) q missing h = h
    continue-HasText other out_of_fuel q missing h = h

    load_prompt-HasText :
        (name : String) (version : ℕ) (p : Loader W)
        → HasText p
        → HasText (load_prompt dir name version p).1
    unfolding load_prompt
    load_prompt-HasText name version p h = elim (Option-cases (get p.cache (name, version))) [
      | inr (t, e) ↦ rw (e, load_prompt) h
      | inl e ↦
          let same = read_prompt-Keeps p.cache name version p refl in
          rw (e, load_prompt)
            (continue-HasText (name, version) (read_prompt dir name version p).0
              (read_prompt dir name version p).1 (rw same e) (rw same h))
    ]

    after-HasText : (events : List Event) (p : Loader W) → HasText p → HasText (after events p)
    after-HasText [] p h = h
    after-HasText (loads name version ∷ events) p h =
        after-HasText events (load_prompt dir name version p).1
          (load_prompt-HasText name version p h)
    after-HasText (changes f ∷ events) p h = after-HasText events (record p { world = f p.world }) h

  -- What a load returns is in the cache.
  load_prompt-caches :
      (name : String) (version : ℕ) (p : Loader W)
      → Ensures (HasText (name, version)) (λ q. Unit) (load_prompt dir name version p)
  unfolding load_prompt
  load_prompt-caches name version p = elim (Option-cases (get p.cache (name, version))) [
    | inr (t, e) ↦ rw (e, load_prompt) e
    | inl e ↦
        rw (e, load_prompt)
          (Ensures-bind (HasText (name, version)) (λ q. Unit) (λ t q. Unit) (λ q. Unit)
            (read_prompt dir name version) _ p (both-Ensures (λ q. Unit) _ _ tt) (λ u q. tt)
            (λ t u q. get-put_self u.cache (name, version) t))
  ]

  -- Once a prompt was loaded, every later load of it returns that text and reads nothing, whatever other
  -- prompts were loaded, and however the files changed, in between.
  pub load_prompt-stays :
      (name : String) (version : ℕ) (p q : Loader W) (text : String) (events : List Event)
      → load_prompt dir name version p ≡ (returns text, q)
      → load_prompt dir name version (after events q) ≡ (returns text, after events q)
  unfolding load_prompt
  load_prompt-stays name version p q text events h =
      let kept : get q.cache (name, version) ≡ some text =
        rw h at (load_prompt-caches name version p) in
      rw (after-HasText (name, version) text events q kept, load_prompt) refl
