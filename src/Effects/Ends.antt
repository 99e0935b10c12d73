-- ===== src/Effects/Ends.antt =====
-- Rules for a run that ends, by a return or by a raise: one for each way to build a program.
use agent_force.Prelude.{◌≡◌, ◌≢◌, refl, Bool, true, false, if◌then◌else◌}
use agent_force.Errors.{Exc}
use agent_force.Effects.{Result, ok, err}
use agent_force.Effects.Prog.{
  Run, Prog, Call, returns, raises, out_of_fuel, pure, raise, call, lift, as_run, continue, handle,
  try_except, ◌>>=◌,
}

-- The run ended.
abbrev pub Ends : {W A : Type 0} → Run A × W → Type 0
Ends end = end.0 ≢ out_of_fuel

module _ {W A : Type 0} where
  pub Ends-pure : (a : A) (w : W) → Ends (pure a w)
  Ends-pure a w h = cc

  pub Ends-raise : (e : Exc) (w : W) → Ends (raise {A = A} e w)
  Ends-raise e w h = cc

  pub Ends-lift : (r : Result A) (w : W) → Ends (lift r w)
  Ends-lift (ok a) w h = cc
  Ends-lift (err e) w h = cc

  pub Ends-call : (c : Call W A) (w : W) → Ends (call c w)
  Ends-call c w = Ends-lift (c w).0 (c w).1

  pub Ends-if :
      (b : Bool) (m n : Prog W A) (w : W) → Ends (m w) → Ends (n w) → Ends ((if b then m else n) w)
  Ends-if true m n w hm hn = hm
  Ends-if false m n w hm hn = hn

  handle-Ends :
      (r : Run A) (h : Exc → Prog W A) (w : W)
      → r ≢ out_of_fuel
      → ((e : Exc) → Ends (h e w))
      → Ends (handle r h w)
  handle-Ends (returns a) h w hr hh = λ q. cc
  handle-Ends (raises e) h w hr hh = hh e
  handle-Ends out_of_fuel h w hr hh = absurd (hr refl)

  pub Ends-try :
      (m : Prog W A) (h : Exc → Prog W A) (w : W)
      → Ends (m w)
      → ((e : Exc) → Ends (h e (m w).1))
      → Ends (try_except m h w)
  Ends-try m h w = handle-Ends (m w).0 h (m w).1

module _ {W A B : Type 0} where
  continue-Ends :
      (r : Run A) (f : A → Prog W B) (w : W)
      → r ≢ out_of_fuel
      → ((a : A) → Ends (f a w))
      → Ends (continue r f w)
  continue-Ends (returns a) f w hr hf = hf a
  continue-Ends (raises e) f w hr hf = λ q. cc
  continue-Ends out_of_fuel f w hr hf = absurd (hr refl)

  pub Ends-bind :
      (m : Prog W A) (f : A → Prog W B) (w : W)
      → Ends (m w)
      → ((a : A) → Ends (f a (m w).1))
      → Ends ((m >>= f) w)
  Ends-bind m f w = continue-Ends (m w).0 f (m w).1

  returned-Ends :
      (r : Result A) (f : A → Prog W B) (w : W)
      → ((a : A) → r ≡ ok a → Ends (f a w))
      → Ends (continue (as_run r) f w)
  returned-Ends (ok a) f w h = h a refl
  returned-Ends (err e) f w h = λ q. cc

  -- What follows a call is asked only where the call returns.
  pub Ends-then_ok :
      (c : Call W A) (f : A → Prog W B) (w : W)
      → ((a : A) → (c w).0 ≡ ok a → Ends (f a (c w).1))
      → Ends ((call c >>= f) w)
  Ends-then_ok c f w = returned-Ends (c w).0 f (c w).1

  -- A call of the outside world ends.
  pub Ends-then :
      (c : Call W A) (f : A → Prog W B) (w : W)
      → ((a : A) → Ends (f a (c w).1))
      → Ends ((call c >>= f) w)
  Ends-then c f w = continue-Ends (as_run (c w).0) f (c w).1 (Ends-call c w)

  pub Ends-lift_then :
      (r : Result A) (f : A → Prog W B) (w : W) → ((a : A) → Ends (f a w)) → Ends ((lift r >>= f) w)
  Ends-lift_then r f w = continue-Ends (as_run r) f w (Ends-lift r w)

pub as_run-ends {ℓ} : {A : Type ℓ} (r : Result A) → as_run r ≢ out_of_fuel
as_run-ends (ok a) h = cc
as_run-ends (err e) h = cc
