-- ===== src/Tools/Names.antt =====
-- Which tool names the pattern of app/core/tools/base.py accepts.
use Prim.Native.Char.{Char, code}
use Prim.Native.String.count as counted
use agent_force.Prelude.{
  ℕ, zero, suc, ◌≡◌, refl, Bool, true, false, ◌&&◌, String, arith, leb, nat_eq, if◌then◌else◌,
  Bool-cases, inl, inr, sym, ap, ◌∙◌,
}
use agent_force.Prelude.Text.{count}
use agent_force.Tools.Spec.{is_name_char, name_rest, matches_tool_name}

-- All characters are letters, digits, `_` or `-`.
pub is_plain : String → Bool
is_plain String.[] = true
is_plain (String.◌∷◌ c s) = is_name_char (code c) && is_plain s

-- The text without one line feed at its end.
pub chomp : String → String
chomp String.[] = String.[]
chomp (String.◌∷◌ c String.[]) = if nat_eq (code c) 10 then String.[] else String.◌∷◌ c String.[]
chomp (String.◌∷◌ c (String.◌∷◌ d s)) = String.◌∷◌ c (chomp (String.◌∷◌ d s))

-- Plain, and at most `n` characters.
abbrev fits : ℕ → String → Bool
fits n s = is_plain s && leb (count s) n

fits-cons :
    (n : ℕ) (c : Char) (s : String)
    → fits (suc n) (String.◌∷◌ c s) ≡ (is_name_char (code c) && fits n s)
unfolding is_plain
fits-cons n c s = ground (arith, counted.cons c s)

fits-zero : (c : Char) (s : String) → fits zero (String.◌∷◌ c s) ≡ false
fits-zero c s = ground (arith, counted.cons c s)

chomp-last :
    (n : ℕ) (c : Char)
    → fits n (chomp (String.◌∷◌ c String.[]))
      ≡ (if nat_eq (code c) 10 then true else fits n (String.◌∷◌ c String.[]))
unfolding is_plain chomp
chomp-last n c = elim (Bool-cases (nat_eq (code c) 10)) [
  | inl e ↦ rw e (ground arith)
  | inr e ↦ rw e refl
]

fits-empty : (n : ℕ) → fits n String.[] ≡ true
unfolding is_plain
fits-empty n = ground arith

fits-one : (n : ℕ) (c : Char) → fits (suc n) (String.◌∷◌ c String.[]) ≡ is_name_char (code c)
fits-one n c = fits-cons n c String.[] ∙ ground (arith, fits-empty n)

line_feed : (c : Char) → nat_eq (code c) 10 ≡ true → is_name_char (code c) ≡ false
unfolding is_name_char
line_feed c h = ground arith

name_rest-chomp : (n : ℕ) (s : String) → name_rest n s ≡ fits n (chomp s)
unfolding name_rest chomp
name_rest-chomp n String.[] = sym (fits-empty n)
name_rest-chomp zero (String.◌∷◌ c String.[]) =
    sym (chomp-last zero c ∙ ground (arith, fits-zero c String.[]))
name_rest-chomp zero (String.◌∷◌ c (String.◌∷◌ d s)) = sym (fits-zero c (chomp (String.◌∷◌ d s)))
name_rest-chomp (suc n) (String.◌∷◌ c String.[]) =
    sym (chomp-last (suc n) c ∙ ground (arith, fits-one n c))
name_rest-chomp (suc n) (String.◌∷◌ c (String.◌∷◌ d s)) =
    ap (λ b. is_name_char (code c) && b) (name_rest-chomp n (String.◌∷◌ d s))
    ∙ sym (fits-cons n c (chomp (String.◌∷◌ d s)))

one_or_more : (c : Char) (s : String) (b : Bool) → b ≡ (leb 1 (count (String.◌∷◌ c s)) && b)
one_or_more c s b = ground (arith, counted.cons c s)

-- The pattern of tool names accepts exactly the texts that, without one line feed at their end, are
-- 1 to 64 letters, digits, `_` and `-`.
pub matches_tool_name-eq :
    (s : String)
    → matches_tool_name s
      ≡ (leb 1 (count (chomp s)) && (is_plain (chomp s) && leb (count (chomp s)) 64))
unfolding matches_tool_name chomp
matches_tool_name-eq String.[] = ground arith
matches_tool_name-eq (String.◌∷◌ c String.[]) = elim (Bool-cases (nat_eq (code c) 10)) [
  | inl e ↦ rw e (ground (arith, line_feed c e))
  | inr e ↦ rw e (
      ground (
        arith,
        fits-one 63 c,
        counted.cons c String.[],
        name_rest-chomp 63 String.[],
        fits-empty 63,
      ))
]
matches_tool_name-eq (String.◌∷◌ c (String.◌∷◌ d s)) =
    ap (λ b. is_name_char (code c) && b) (name_rest-chomp 63 (String.◌∷◌ d s))
    ∙ sym (fits-cons 63 c (chomp (String.◌∷◌ d s)))
    ∙ one_or_more c (chomp (String.◌∷◌ d s)) (fits 64 (String.◌∷◌ c (chomp (String.◌∷◌ d s))))
