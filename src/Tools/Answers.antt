-- ===== src/Tools/Answers.antt =====
-- What the calculator can answer.
use agent_force.Prelude.{
  ◌≡◌, refl, ap, ◌∙◌, ◌⊎◌, inl, inr, Bool, true, ◌&&◌, String, none, some, Option-cases, Bool-cases,
}
use agent_force.Errors.{Exc, tool_execution_failed}
use agent_force.Effects.{Result, ok, err, ◌>>=◌, Result-cases}
use agent_force.Tools.Calculator.{
  UnaryOp, BinaryOp, Expr, constant, unary_op, bin_op, other_node, Arithmetic, unsupported_unary,
  unsupported_binary, is_pow, max_exponent, arithmetic_error, caught_arithmetic, finite, combine,
  evaluate,
}

-- An error of Python's numbers.
abbrev pub IsArithmeticError : Exc → Type 0
IsArithmeticError e = (text : String) × (arithmetic_error e ≡ some text)

-- The value is small enough for `math.isfinite`, which turns it into a float.
abbrev pub IsSmall : {V : Type 0} → Arithmetic V → V → Type 0
IsSmall py v = (b : Bool) × (py.is_finite v ≡ ok b)

-- What the code relies on: the operators raise `ZeroDivisionError` and `OverflowError` only, and a sign
-- never fails nor makes a small value too large.
pub record IsArithmetic {V : Type 0} (py : Arithmetic V) : Type 0 where
  pub unary_small :
      (op : UnaryOp) (v : V)
      → unsupported_unary op ≡ none
      → IsSmall py v
      → (u : V) × (py.apply_unary op v ≡ ok u) × IsSmall py u
  pub binary_error :
      (op : BinaryOp) (a b : V) (e : Exc) → py.apply_binary op a b ≡ err e → IsArithmeticError e
  pub finite_error : (v : V) (e : Exc) → py.is_finite v ≡ err e → IsArithmeticError e

-- The literals of the expression are small, as they are in a text of at most 200 characters, which is
-- what `CalculatorInput` accepts.
abbrev pub HasSmallLiterals : {V : Type 0} → Arithmetic V → Expr V → Type 0
HasSmallLiterals py (constant v) = IsSmall py v
HasSmallLiterals py (unary_op op e) = HasSmallLiterals py e
HasSmallLiterals py (bin_op op e f) = HasSmallLiterals py e × HasSmallLiterals py f
HasSmallLiterals py (other_node name) = Unit

abbrev pub IsLiteral : {V : Type 0} → Expr V → Type 0
IsLiteral (constant v) = Unit
IsLiteral e = ⊥

-- What an expression means: the value of a literal, or what the operator gives for the values of the
-- operands, in their order.
abbrev pub HasValue : {V : Type 0} → Arithmetic V → Expr V → V → Type 0
HasValue py (constant u) v = u ≡ v
HasValue {V} py (unary_op op e) v = (a : V) × HasValue py e a × (py.apply_unary op a ≡ ok v)
HasValue {V} py (bin_op op e f) v =
    (a : V) × (b : V) × HasValue py e a × HasValue py f b × (py.apply_binary op a b ≡ ok v)
HasValue py (other_node name) v = ⊥

-- The value of the expression, a number, finite unless the whole expression is a literal; or an error that the model can read.
abbrev pub IsAnswer : {V : Type 0} → Arithmetic V → Expr V → Result V → Type 0
IsAnswer py e (ok v) =
    HasValue py e v
    × (py.is_number v ≡ true)
    × IsSmall py v
    × (IsLiteral e ⊎ (py.is_finite v ≡ ok true))
IsAnswer py e (err x) = (text : String) × (x ≡ tool_execution_failed text)

module _ {V : Type 0} (py : Arithmetic V) (laws : IsArithmetic py) where
  -- What `_finite` does with a small value.
  finite-small : (e : Expr V) (v : V) → HasValue py e v → IsSmall py v → IsAnswer py e (finite py v)
  unfolding finite
  finite-small e v value (b, h) = elim (Bool-cases (py.is_number v)) [
    | inl n ↦ elim (Bool-cases b) [
      | inl t ↦ rw (n, h, t) (value, n, (b, h), inr (h ∙ ap ok t))
      | inr f ↦ rw (n, h, f) ("The result is not a finite number.", refl)
    ]
    | inr n ↦ rw n ("The result is not a real number.", refl)
  ]

  -- An answer passes the two handlers, and an error of the numbers becomes one there.
  caught-IsAnswer :
      (e : Expr V) (r : Result V) → IsAnswer py e r → IsAnswer py e (caught_arithmetic r)
  unfolding caught_arithmetic arithmetic_error
  caught-IsAnswer e (ok v) p = p
  caught-IsAnswer e (err x) (text, h) = rw h (text, refl)

  caught_error-IsAnswer :
      (e : Expr V) (x : Exc) → IsArithmeticError x → IsAnswer py e (caught_arithmetic (err x))
  unfolding caught_arithmetic
  caught_error-IsAnswer e x (text, h) = rw (h, IsAnswer) (text, refl)

  caught_finite-IsAnswer :
      (e : Expr V) (v : V) → HasValue py e v → IsAnswer py e (caught_arithmetic (finite py v))
  unfolding finite
  caught_finite-IsAnswer e v value = elim (Result-cases (py.is_finite v)) [
    | inl (b, h) ↦ caught-IsAnswer e (finite py v) (finite-small e v value (b, h))
    | inr (x, h) ↦ elim (Bool-cases (py.is_number v)) [
      | inl n ↦ rw (n, h) (caught_error-IsAnswer e x (laws.finite_error v x h))
      | inr n ↦ rw n (
          caught-IsAnswer e (err (tool_execution_failed "The result is not a real number."))
            ("The result is not a real number.", refl))
    ]
  ]

  combine-IsAnswer :
      (e : Expr V) (op : BinaryOp) (a b : V)
      → ((v : V) → py.apply_binary op a b ≡ ok v → HasValue py e v)
      → IsAnswer py e (combine py op a b)
  unfolding combine
  combine-IsAnswer e op a b value = elim (Bool-cases (is_pow op && py.abs_exceeds b max_exponent)) [
    | inl p ↦ rw p (_, refl)
    | inr p ↦ elim (Result-cases (py.apply_binary op a b)) [
      | inl (v, h) ↦ rw (p, h) (caught_finite-IsAnswer e v (value v h))
      | inr (x, h) ↦ rw (p, h) (caught_error-IsAnswer e x (laws.binary_error op a b x h))
    ]
  ]

  -- What is done with an answer is an answer when it is one for each small value.
  bind-IsAnswer :
      (e d : Expr V) (r : Result V) (f : V → Result V)
      → IsAnswer py d r
      → ((v : V) → HasValue py d v → IsSmall py v → IsAnswer py e (f v))
      → IsAnswer py e (r >>= f)
  bind-IsAnswer e d (ok v) f (value, n, small, either) k = k v value small
  bind-IsAnswer e d (err x) f p k = p

  signed-IsAnswer :
      (e : Expr V) (op : UnaryOp) (v : V)
      → unsupported_unary op ≡ none
      → HasValue py e v
      → IsSmall py v
      → IsAnswer py (unary_op op e) (py.apply_unary op v >>= finite py)
  signed-IsAnswer e op v known value small =
      let found : (u : V) × (py.apply_unary op v ≡ ok u) × IsSmall py u =
        laws.unary_small op v known small in
      rw (found.1) (finite-small (unary_op op e) (found.0) (v, value, found.1) (found.2))

  -- An expression whose literals are small evaluates to its value, a number, which is finite unless the expression is
  -- a literal itself, or to an error of the tool with a message: no other exception leaves `_evaluate`.
  pub evaluate-IsAnswer : (e : Expr V) → HasSmallLiterals py e → IsAnswer py e (evaluate py e)
  unfolding evaluate
  evaluate-IsAnswer (constant v) small = elim (Bool-cases (py.is_number v)) [
    | inl n ↦ rw n (refl, n, small, inl tt)
    | inr n ↦ rw n (_, refl)
  ]
  evaluate-IsAnswer (unary_op op e) small = elim (Option-cases (unsupported_unary op)) [
    | inr (name, h) ↦ rw (h, IsAnswer, evaluate) (_, refl)
    | inl h ↦
        rw (h, evaluate)
          (bind-IsAnswer (unary_op op e) e (evaluate py e) (λ v. py.apply_unary op v >>= finite py)
            (evaluate-IsAnswer e small) (λ v value s. signed-IsAnswer e op v h value s))
  ]
  evaluate-IsAnswer (bin_op op e f) (small, small') = elim (Option-cases (unsupported_binary op)) [
    | inr (name, h) ↦ rw (h, IsAnswer, evaluate) (_, refl)
    | inl h ↦
        rw (h, evaluate)
          (bind-IsAnswer (bin_op op e f) e (evaluate py e)
            (λ a. evaluate py f >>= λ b. combine py op a b) (evaluate-IsAnswer e small)
            (λ a value s.
              bind-IsAnswer (bin_op op e f) f (evaluate py f) (λ b. combine py op a b)
                (evaluate-IsAnswer f small')
                (λ b value' t.
                  combine-IsAnswer (bin_op op e f) op a b (λ v h. (a, b, value, value', h)))))
  ]
  evaluate-IsAnswer (other_node name) small = (_, refl)
