-- ===== src/Effects/Ensures.antt =====
-- Rules for what a program establishes: of a value that it returns and the world that it leaves then, and of
-- the world that it leaves otherwise.
use agent_force.Prelude.{◌≡◌, refl, Bool, true, false, if◌then◌else◌}
use agent_force.Effects.{Result, ok, err}
use agent_force.Effects.Prog.{
  Run, Prog, Call, returns, raises, out_of_fuel, call, as_run, lift, continue, ◌>>=◌,
}

abbrev pub Ensures : {W A : Type 0} → (A → W → Type 0) → (W → Type 0) → Run A × W → Type 0
Ensures P Q (returns a, w) = P a w
Ensures P Q (raises e, w) = Q w
Ensures P Q (out_of_fuel, w) = Q w

module _ {W A B : Type 0} (P : B → W → Type 0) (Q : W → Type 0) where
  continue-Ensures :
      (P' : A → W → Type 0) (Q' : W → Type 0) (r : Run A) (f : A → Prog W B) (w : W)
      → Ensures P' Q' (r, w)
      → ((u : W) → Q' u → Q u)
      → ((a : A) (u : W) → P' a u → Ensures P Q (f a u))
      → Ensures P Q (continue r f w)
  continue-Ensures P' Q' (returns a) f w h weaken next = next a w h
  continue-Ensures P' Q' (raises e) f w h weaken next = weaken w h
  continue-Ensures P' Q' out_of_fuel f w h weaken next = weaken w h

  pub Ensures-bind :
      (P' : A → W → Type 0) (Q' : W → Type 0) (m : Prog W A) (f : A → Prog W B) (w : W)
      → Ensures P' Q' (m w)
      → ((u : W) → Q' u → Q u)
      → ((a : A) (u : W) → P' a u → Ensures P Q (f a u))
      → Ensures P Q ((m >>= f) w)
  Ensures-bind P' Q' m f w = continue-Ensures P' Q' (m w).0 f (m w).1

  after-Ensures :
      (r : Result A) (f : A → Prog W B) (u : W)
      → Q u
      → ((a : A) → r ≡ ok a → Ensures P Q (f a u))
      → Ensures P Q (continue (as_run r) f u)
  after-Ensures (ok a) f u h next = next a refl
  after-Ensures (err e) f u h next = h

  -- A call of the outside world that leaves `Q`.
  pub Ensures-then :
      (c : Call W A) (f : A → Prog W B) (w : W)
      → Q (c w).1
      → ((a : A) → (c w).0 ≡ ok a → Ensures P Q (f a (c w).1))
      → Ensures P Q ((call c >>= f) w)
  Ensures-then c f w = after-Ensures (c w).0 f (c w).1

  pub Ensures-lift_then :
      (r : Result A) (f : A → Prog W B) (w : W)
      → Q w
      → ((a : A) → Ensures P Q (f a w))
      → Ensures P Q ((lift r >>= f) w)
  Ensures-lift_then r f w h next = after-Ensures r f w h (λ a _. next a)

module _ {W A : Type 0} (P : A → W → Type 0) (Q : W → Type 0) where
  pub Ensures-if :
      (b : Bool) (m n : Prog W A) (w : W)
      → Ensures P Q (m w)
      → Ensures P Q (n w)
      → Ensures P Q ((if b then m else n) w)
  Ensures-if true m n w hm hn = hm
  Ensures-if false m n w hm hn = hn

module _ {W A : Type 0} (P : W → Type 0) where
  pub both-Ensures : (r : Run A) (w : W) → P w → Ensures (λ a. P) P (r, w)
  both-Ensures (returns a) w h = h
  both-Ensures (raises e) w h = h
  both-Ensures out_of_fuel w h = h

  pub Ensures-both : (r : Run A) (w : W) → Ensures (λ a. P) P (r, w) → P w
  Ensures-both (returns a) w h = h
  Ensures-both (raises e) w h = h
  Ensures-both out_of_fuel w h = h
