-- ===== src/Json/Order.antt =====
-- The order of texts that sorts the keys of an object.
use Prim.Native.Char.{Char, code}
use Prim.Native.Nat.compare as numbers
use Prim.Native.Nat.{Ordering, compare}
use Prim.Native.String.compare as texts
use Prim.Native.String
use text.Mathlib.Text.{is_le}
use text.Mathlib.TextEquality.{Char-path}
use agent_force.Prelude.{
  ℕ, zero, suc, ◌<◌, Bool, true, false, String, ◌≡◌, refl, sym, ◌∙◌, ◌⊎◌, inl, inr, arith,
}

abbrev pub text_le : String → String → Bool
text_le s t = is_le (String.compare s t)

-- How two numbers compare, both ways.
abbrev Comparison : ℕ → ℕ → Type 0
Comparison m n =
    ((m < n) × (compare m n ≡ Ordering.lt) × (compare n m ≡ Ordering.gt))
    ⊎ (((m ≡ n) × (compare m n ≡ Ordering.eq) × (compare n m ≡ Ordering.eq))
        ⊎ ((n < m) × (compare m n ≡ Ordering.gt) × (compare n m ≡ Ordering.lt)))

compare-Comparison : (m n : ℕ) → Comparison m n
compare-Comparison zero zero = inr (inl (refl, numbers.zero-zero, numbers.zero-zero))
compare-Comparison zero (suc n) = inl (omega arith, numbers.zero-suc n, numbers.suc-zero n)
compare-Comparison (suc m) zero = inr (inr (omega arith, numbers.suc-zero m, numbers.zero-suc m))
compare-Comparison (suc m) (suc n) = elim (compare-Comparison m n) [
  | inl (l, p, q) ↦ inl (omega arith, numbers.suc-suc m n ∙ p, numbers.suc-suc n m ∙ q)
  | inr (inl (e, p, q)) ↦ inr (inl (omega arith, numbers.suc-suc m n ∙ p, numbers.suc-suc n m ∙ q))
  | inr (inr (g, p, q)) ↦ inr (inr (omega arith, numbers.suc-suc m n ∙ p, numbers.suc-suc n m ∙ q))
]

module _ (c d : Char) (s t : String) where
  -- The order is that of the first characters, then that of the rest.
  text_le-cons :
      text_le (String.◌∷◌ c s) (String.◌∷◌ d t) ≡ true
      → (code c < code d) ⊎ ((code c ≡ code d) × (text_le s t ≡ true))
  text_le-cons h = elim (compare-Comparison (code c) (code d)) [
    | inl (l, p, q) ↦ inl l
    | inr (inl (e, p, q)) ↦ inr (e, rw (texts.cons-cons c d s t, p) at h)
    | inr (inr (g, p, q)) ↦
        let wrong : false ≡ true = rw (texts.cons-cons c d s t, p) at h in absurd (ground arith)
  ]

  text_le-lt : code c < code d → text_le (String.◌∷◌ c s) (String.◌∷◌ d t) ≡ true
  text_le-lt l = elim (compare-Comparison (code c) (code d)) [
    | inl (l', p, q) ↦ rw (texts.cons-cons c d s t, p) refl
    | inr (inl (e, p, q)) ↦ absurd (omega arith)
    | inr (inr (g, p, q)) ↦ absurd (omega arith)
  ]

  text_le-eq :
      code c ≡ code d → text_le s t ≡ true → text_le (String.◌∷◌ c s) (String.◌∷◌ d t) ≡ true
  text_le-eq e h = elim (compare-Comparison (code c) (code d)) [
    | inl (l, p, q) ↦ absurd (omega arith)
    | inr (inl (e', p, q)) ↦ rw (texts.cons-cons c d s t, p) h
    | inr (inr (g, p, q)) ↦ absurd (omega arith)
  ]

nil-text_le : (t : String) → text_le String.[] t ≡ true
nil-text_le String.[] = refl
nil-text_le (String.◌∷◌ d t) = rw (texts.nil-cons d t) refl

cons_le_nil : (c : Char) (s : String) → text_le (String.◌∷◌ c s) String.[] ≡ true → ⊥
cons_le_nil c s h = let wrong : false ≡ true = rw (texts.cons-nil c s) at h in ground arith

pub text_le_total : (s t : String) → (text_le s t ≡ true) ⊎ (text_le t s ≡ true)
text_le_total String.[] t = inl (nil-text_le t)
text_le_total (String.◌∷◌ c s) String.[] = inr (nil-text_le (String.◌∷◌ c s))
text_le_total (String.◌∷◌ c s) (String.◌∷◌ d t) = elim (compare-Comparison (code c) (code d)) [
  | inl (l, p, q) ↦ inl (text_le-lt c d s t l)
  | inr (inl (e, p, q)) ↦ elim (text_le_total s t) [
    | inl h ↦ inl (text_le-eq c d s t e h)
    | inr h ↦ inr (text_le-eq d c t s (sym e) h)
  ]
  | inr (inr (g, p, q)) ↦ inr (text_le-lt d c t s g)
]

pub text_le_antisym : (s t : String) → text_le s t ≡ true → text_le t s ≡ true → s ≡ t
text_le_antisym String.[] String.[] h k = refl
text_le_antisym String.[] (String.◌∷◌ d t) h k = absurd (cons_le_nil d t k)
text_le_antisym (String.◌∷◌ c s) String.[] h k = absurd (cons_le_nil c s h)
text_le_antisym (String.◌∷◌ c s) (String.◌∷◌ d t) h k = elim (text_le-cons c d s t h) [
  | inl l ↦ elim (text_le-cons d c t s k) [
    | inl g ↦ absurd (omega arith)
    | inr (e, k') ↦ absurd (omega arith)
  ]
  | inr (e, h') ↦ elim (text_le-cons d c t s k) [
    | inl g ↦ absurd (omega arith)
    | inr (e', k') ↦ rw (Char-path c d e, text_le_antisym s t h' k') refl
  ]
]

pub text_le_trans : (s t u : String) → text_le s t ≡ true → text_le t u ≡ true → text_le s u ≡ true
text_le_trans String.[] t u h k = nil-text_le u
text_le_trans (String.◌∷◌ c s) String.[] u h k = absurd (cons_le_nil c s h)
text_le_trans (String.◌∷◌ c s) (String.◌∷◌ d t) String.[] h k = absurd (cons_le_nil d t k)
text_le_trans (String.◌∷◌ c s) (String.◌∷◌ d t) (String.◌∷◌ e u) h k =
    elim (text_le-cons c d s t h) [
      | inl l ↦ elim (text_le-cons d e t u k) [
        | inl g ↦ text_le-lt c e s u (omega arith)
        | inr (q, k') ↦ text_le-lt c e s u (omega arith)
      ]
      | inr (p, h') ↦ elim (text_le-cons d e t u k) [
        | inl g ↦ text_le-lt c e s u (omega arith)
        | inr (q, k') ↦ text_le-eq c e s u (p ∙ q) (text_le_trans s t u h' k')
      ]
    ]
