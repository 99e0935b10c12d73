-- ===== src/Prelude/Text.antt =====
-- What the program uses of Python's text: `len`, slicing, joining, and the printing of numbers and
-- of quoted names in f-strings.
use Prim.Native.Nat.{ℕ, zero, suc, ◌/◌, ◌%◌, ◌^◌, ◌≤◌}
use Prim.Native.Char.{code}
use Prim.Native.String.{String, ◌++◌}
pub use Prim.Native.String.{count}
use Prim.Native.String.count as counted
use mathlib.Core.Path.{◌≡◌, refl}
use mathlib.Core.Bool.{Bool, false, ◌&&◌, ◌||◌, not}
use mathlib.Core.List.{List, [], ◌∷◌}
use native.Mathlib.Omega.{arith}
use agent_force.Prelude.Tests.{if◌then◌else◌, ltb, nat_eq}

-- `a + b` on texts.
infixr 65 ◌&◌
abbrev pub ◌&◌ : String → String → String
s & t = s ++ t

-- `sep.join(parts)`
unfoldable pub join : String → List String → String
join sep [] = ""
join sep (s ∷ []) = s
join sep (s ∷ t ∷ r) = s & sep & join sep (t ∷ r)

-- `s[:n]`
unfoldable pub take_chars : ℕ → String → String
take_chars zero s = ""
take_chars (suc n) String.[] = ""
take_chars (suc n) (String.◌∷◌ c s) = String.◌∷◌ c (take_chars n s)

unfoldable pub hex_digit : ℕ → String
hex_digit n = pick n (
    "0" ∷ "1" ∷ "2" ∷ "3" ∷ "4" ∷ "5" ∷ "6" ∷ "7" ∷ "8" ∷ "9" ∷ "a" ∷ "b" ∷ "c" ∷ "d" ∷ "e" ∷ "f"
    ∷ [])
  where
    pick : ℕ → List String → String
    pick n [] = ""
    pick zero (d ∷ ds) = d
    pick (suc n) (d ∷ ds) = pick n ds

-- The digits of `n` in base `b`, the last of them in front of `rest`.
digits_before : ℕ → ℕ → ℕ → String → String
digits_before zero b n rest = rest
digits_before (suc fuel) b n rest =
    let here = hex_digit (n % b) & rest in
    let more = digits_before fuel b (n / b) here in if ltb n b then here else more

-- `str(n)` of a natural number; `n` halves at the least, so `n` rounds are enough.
unfoldable pub show_nat : ℕ → String
unfolding digits_before hex_digit
show_nat n = digits_before (suc n) 10 n ""

-- The last `width` hexadecimal digits of `n`, with leading zeros.
unfoldable pub show_hex : ℕ → ℕ → String
unfolding hex_digit
show_hex zero n = ""
show_hex (suc width) n = show_hex width (n / 16) & hex_digit (n % 16)

-- `str(uuid)`, of the UUID with this number.
unfoldable pub show_uuid : ℕ → String
unfolding show_hex
show_uuid n =
    show_hex 8 (n / 2 ^ 96)
    & "-"
    & show_hex 4 (n / 2 ^ 80)
    & "-"
    & show_hex 4 (n / 2 ^ 64)
    & "-"
    & show_hex 4 (n / 2 ^ 48)
    & "-"
    & show_hex 12 n

unfoldable pub contains : ℕ → String → Bool
contains c String.[] = false
contains c (String.◌∷◌ d s) = nat_eq (code d) c || contains c s

escaped_char : ℕ → ℕ → String → String
escaped_char quote c s =
    if nat_eq c quote || nat_eq c 92
    then "\\" & s
    else if nat_eq c 10
    then "\\n"
    else if nat_eq c 13
    then "\\r"
    else if nat_eq c 9
    then "\\t"
    else if ltb c 32 || nat_eq c 127
    then "\\x" & show_hex 2 c
    else s

escape : ℕ → String → String
escape quote String.[] = ""
escape quote (String.◌∷◌ c s) = escaped_char quote (code c) (String.◌∷◌ c "") & escape quote s

-- `repr(s)`, of a text that holds no unprintable character beyond ASCII: in single quotes, or in
-- double quotes if it holds single ones and no double ones.
unfoldable pub repr : String → String
unfolding contains escape escaped_char show_hex
repr s =
    if contains 39 s && not (contains 34 s)
    then "\"" & escape 34 s & "\""
    else "'" & escape 39 s & "'"

count-take_chars : (n : ℕ) (s : String) → count (take_chars n s) ≤ n
unfolding take_chars
count-take_chars zero s = omega arith
count-take_chars (suc n) String.[] = omega arith
count-take_chars (suc n) (String.◌∷◌ c s) =
    omega (arith, count-take_chars n s, counted.cons c (take_chars n s))

show_nat_test : show_nat 1203 ≡ "1203"
unfolding show_nat
show_nat_test = refl

repr_test : repr "it's \n" ≡ "\"it's \\n\""
unfolding repr
repr_test = refl
