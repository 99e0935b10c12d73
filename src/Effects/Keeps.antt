-- ===== src/Effects/Keeps.antt =====
-- Rules for what a program leaves as it was, however it ends.
use agent_force.Prelude.{◌≡◌, refl, Bool, true, false, if◌then◌else◌}
use agent_force.Errors.{Exc}
use agent_force.Effects.{Result, ok, err}
use agent_force.Effects.Prog.{
  Run, Prog, Call, returns, raises, out_of_fuel, call, lift, as_run, continue, handle, try_except,
  ◌>>=◌,
}

module _ {W : Type 0} (P : W → Type 0) where
  -- What holds of the world before a call of the outside world holds after it.
  abbrev pub CallKeeps : {A : Type 0} → Call W A → Type 0
  CallKeeps c = (w : W) → P w → P (c w).1

  abbrev pub Keeps : {A : Type 0} → Prog W A → Type 0
  Keeps m = (w : W) → P w → P (m w).1

  pub Keeps-if :
      {A : Type 0} (b : Bool) (m n : Prog W A) → Keeps m → Keeps n → Keeps (if b then m else n)
  Keeps-if true m n hm hn = hm
  Keeps-if false m n hm hn = hn

  handle-Keeps :
      {A : Type 0} (r : Run A) (h : Exc → Prog W A) (w : W)
      → ((e : Exc) → Keeps (h e))
      → P w
      → P (handle r h w).1
  handle-Keeps (returns a) h w k p = p
  handle-Keeps (raises e) h w k p = k e w p
  handle-Keeps out_of_fuel h w k p = p

  pub Keeps-try :
      {A : Type 0} (m : Prog W A) (h : Exc → Prog W A)
      → Keeps m
      → ((e : Exc) → Keeps (h e))
      → Keeps (try_except m h)
  Keeps-try m h km kh w p = handle-Keeps (m w).0 h (m w).1 kh (km w p)

  continue-Keeps :
      {A B : Type 0} (r : Run A) (f : A → Prog W B) (w : W)
      → ((a : A) → Keeps (f a))
      → P w
      → P (continue r f w).1
  continue-Keeps (returns a) f w k p = k a w p
  continue-Keeps (raises e) f w k p = p
  continue-Keeps out_of_fuel f w k p = p

  pub Keeps-bind :
      {A B : Type 0} (m : Prog W A) (f : A → Prog W B)
      → Keeps m
      → ((a : A) → Keeps (f a))
      → Keeps (m >>= f)
  Keeps-bind m f km kf w p = continue-Keeps (m w).0 f (m w).1 kf (km w p)

  pub Keeps-then :
      {A B : Type 0} (c : Call W A) (f : A → Prog W B)
      → CallKeeps c
      → ((a : A) → Keeps (f a))
      → Keeps (call c >>= f)
  Keeps-then c f kc kf w p = continue-Keeps (as_run (c w).0) f (c w).1 kf (kc w p)

  pub Keeps-lift_then :
      {A B : Type 0} (r : Result A) (f : A → Prog W B)
      → ((a : A) → r ≡ ok a → Keeps (f a))
      → Keeps (lift r >>= f)
  Keeps-lift_then (ok a) f kf w p = kf a refl w p
  Keeps-lift_then (err e) f kf w p = p
