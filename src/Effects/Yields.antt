-- ===== src/Effects/Yields.antt =====
-- Rules for what holds of a value that a program returns, and of the world it leaves.
use agent_force.Prelude.{◌≡◌, refl, Bool, true, false, if◌then◌else◌}
use agent_force.Effects.{Result, ok, err}
use agent_force.Effects.Prog.{
  Run, Prog, Call, returns, raises, out_of_fuel, call, lift, as_run, continue, ◌>>=◌,
}

-- If the run returned, `P` holds of the value and of the world.
abbrev pub Yields : {W A : Type 0} → (A → W → Type 0) → Run A × W → Type 0
Yields P (returns a, w) = P a w
Yields P (raises e, w) = Unit
Yields P (out_of_fuel, w) = Unit

module _ {W A : Type 0} where
  pub Yields-if :
      (P : A → W → Type 0) (b : Bool) (m n : Prog W A) (w : W)
      → (b ≡ true → Yields P (m w))
      → (b ≡ false → Yields P (n w))
      → Yields P ((if b then m else n) w)
  Yields-if P true m n w hm hn = hm refl
  Yields-if P false m n w hm hn = hn refl

module _ {W A B : Type 0} (P : B → W → Type 0) where
  pub Yields-continue :
      (r : Run A) (f : A → Prog W B) (w : W)
      → ((a : A) → r ≡ returns a → Yields P (f a w))
      → Yields P (continue r f w)
  Yields-continue (returns a) f w h = h a refl
  Yields-continue (raises e) f w h = tt
  Yields-continue out_of_fuel f w h = tt

  pub Yields-bind :
      (m : Prog W A) (f : A → Prog W B) (w : W)
      → ((a : A) → (m w).0 ≡ returns a → Yields P (f a (m w).1))
      → Yields P ((m >>= f) w)
  Yields-bind m f w = Yields-continue (m w).0 f (m w).1

  pub Yields-then :
      (c : Call W A) (f : A → Prog W B) (w : W)
      → ((a : A) → Yields P (f a (c w).1))
      → Yields P ((call c >>= f) w)
  Yields-then c f w h = Yields-continue (as_run (c w).0) f (c w).1 (λ a _. h a)

  pub Yields-lift_then :
      (r : Result A) (f : A → Prog W B) (w : W)
      → ((a : A) → r ≡ ok a → Yields P (f a w))
      → Yields P ((lift r >>= f) w)
  Yields-lift_then (ok a) f w h = h a refl
  Yields-lift_then (err e) f w h = tt

  Yields-continue_by :
      (Q : A → W → Type 0) (r : Run A) (f : A → Prog W B) (w : W)
      → Yields Q (r, w)
      → ((a : A) → Q a w → Yields P (f a w))
      → Yields P (continue r f w)
  Yields-continue_by Q (returns a) f w q h = h a q
  Yields-continue_by Q (raises e) f w q h = tt
  Yields-continue_by Q out_of_fuel f w q h = tt

  -- The first part establishes `Q`, from which the rest establishes `P`.
  pub Yields-bind_by :
      (Q : A → W → Type 0) (m : Prog W A) (f : A → Prog W B) (w : W)
      → Yields Q (m w)
      → ((a : A) → Q a (m w).1 → Yields P (f a (m w).1))
      → Yields P ((m >>= f) w)
  Yields-bind_by Q m f w = Yields-continue_by Q (m w).0 f (m w).1
