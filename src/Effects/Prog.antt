-- ===== src/Effects/Prog.antt =====
-- Code that runs against the outside world. A raise keeps what the world has become, and so does a
-- loop whose fuel ran out, which is told apart from both.
use agent_force.Errors.{Exc}
use agent_force.Effects.{Result, ok, err}

-- What the program is given: one call of the outside world.
abbrev pub Call : Type 0 → Type 0 → Type 0
Call W A = W → Result A × W

pub data Run {ℓ} (A : Type ℓ) : Type ℓ where
  returns : A → Run A
  raises : Exc → Run A
  out_of_fuel : Run A

abbrev pub Prog : Type 0 → Type 0 → Type 0
Prog W A = W → Run A × W

abbrev pub as_run {ℓ} : {A : Type ℓ} → Result A → Run A
as_run (ok a) = returns a
as_run (err e) = raises e

module _ {W A : Type 0} where
  abbrev pub pure : A → Prog W A
  pure a w = (returns a, w)

  abbrev pub raise : Exc → Prog W A
  raise e w = (raises e, w)

  abbrev pub diverge : Prog W A
  diverge w = (out_of_fuel, w)

  abbrev pub call : Call W A → Prog W A
  call c w = let (r, w') = c w in (as_run r, w')

  abbrev pub lift : Result A → Prog W A
  lift r w = (as_run r, w)

  abbrev pub handle : Run A → (Exc → Prog W A) → Prog W A
  handle (returns a) h w = (returns a, w)
  handle (raises e) h w = h e w
  handle out_of_fuel h w = (out_of_fuel, w)

  -- `try: m except ...: h`, where `h` raises again what it does not catch
  abbrev pub try_except : Prog W A → (Exc → Prog W A) → Prog W A
  try_except m h w = let (r, w') = m w in handle r h w'

module _ {W A B : Type 0} where
  abbrev pub continue : Run A → (A → Prog W B) → Prog W B
  continue (returns a) f w = f a w
  continue (raises e) f w = (raises e, w)
  continue out_of_fuel f w = (out_of_fuel, w)

  infixl 5 ◌>>=◌
  abbrev pub ◌>>=◌ : Prog W A → (A → Prog W B) → Prog W B
  ◌>>=◌ m f w = let (r, w') = m w in continue r f w'

infixl 5 ◌>>◌
abbrev pub ◌>>◌ : {W B : Type 0} → Prog W (Unit {0}) → Prog W B → Prog W B
m >> k = m >>= λ _. k
