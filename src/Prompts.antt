-- ===== src/Prompts.antt =====
-- app/adapters/prompts.py: the prompt files, by name and version. The file system is given. The cache of
-- `load_prompt` is a field of the process.
pub mod Cache
use Prim.Native.Char.{code}
use agent_force.Prelude.{
  ℕ, Bool, true, ◌≡◌, ◌↔◌, ◌||◌, ◌&&◌, String, Option, none, some, List, [], ◌∷◌, Eq, if◌then◌else◌,
  nat_eq, nat_eq_iff, str_eq, str_eq_iff, arith, refl,
}
use agent_force.Prelude.Dict.{Dict, get, put}
use agent_force.Prelude.Text.{◌&◌, join, show_nat, contains}
use agent_force.Errors.{Exc, prompt_not_found}
use agent_force.Effects.Prog.{Prog, Call, pure, raise, call, ◌>>=◌, ◌>>◌}
use agent_force.Tools.Registry.{sorted}

pub key_beq : String × ℕ → String × ℕ → Bool
key_beq (a, n) (b, m) = str_eq a b && nat_eq n m

pub key_beq_iff : (p q : String × ℕ) → (key_beq p q ≡ true) ↔ (p ≡ q)
unfolding key_beq
key_beq_iff (a, n) (b, m) = ground (arith, str_eq_iff a b, nat_eq_iff n m)

instance abbrev pub key_Eq : Eq (String × ℕ)
key_Eq = record { beq = key_beq; beq_iff = key_beq_iff }

-- The directory of the prompts: `read_text` gives none where it raises `FileNotFoundError`, and the
-- text with its line ends already translated, as `Path.read_text` is documented to do; `glob` gives
-- the names that end in ".txt".
pub record PromptsDir (W : Type 0) : Type 0 where
  pub read_text : String → Call W (Option String)
  pub glob : Call W (List String)

pub record Loader (W : Type 0) : Type 0 where
  pub cache : Dict (String × ℕ) String
  pub world : W

-- `raw.replace("\r\n", "\n")`
unfoldable pub replace_crlf : String → String
replace_crlf String.[] = ""
replace_crlf (String.◌∷◌ c String.[]) = String.◌∷◌ c ""
replace_crlf (String.◌∷◌ c (String.◌∷◌ d s)) =
    let rest = replace_crlf (String.◌∷◌ d s) in
    if nat_eq (code c) 13 && nat_eq (code d) 10 then rest else String.◌∷◌ c rest

-- `Path(s).name`, where the text does not end in a slash
unfoldable pub path_name : String → String
unfolding contains
path_name String.[] = ""
path_name (String.◌∷◌ c s) =
    let rest = path_name s in if nat_eq (code c) 47 || contains 47 s then rest else String.◌∷◌ c s

unfoldable pub file_name : String → ℕ → String
unfolding show_nat
file_name name version = name & ".v" & show_nat version & ".txt"

-- `', '.join(available) or '(none)'`
unfoldable pub listed : List String → String
unfolding join
listed available = let text = join ", " available in if str_eq text "" then "(none)" else text

unfoldable pub not_found : String → List String → Exc
unfolding listed path_name sorted
not_found path found =
    prompt_not_found ("No prompt at " & path_name path & ". Available: " & listed (sorted found))

module _ {W : Type 0} (dir : PromptsDir W) where
  -- A call of the file system, which does not reach the cache.
  abbrev pub outside : {A : Type 0} → Call W A → Call (Loader W) A
  outside c p = let (r, w) = c p.world in (r, record p { world = w })

  abbrev pub normalised : String → Option String → Prog (Loader W) String
  normalised path (some raw) = pure (replace_crlf raw)
  normalised path none = do found ← call (outside dir.glob); raise (not_found path found)

  -- The body, without the cache.
  unfoldable pub read_prompt : String → ℕ → Prog (Loader W) String
  unfolding file_name replace_crlf not_found
  read_prompt name version =
      let path = file_name name version in call (outside (dir.read_text path)) >>= normalised path

  abbrev pub keep : String × ℕ → String → Prog (Loader W) String
  keep key text p = pure text (record p { cache = put p.cache key text })

  unfoldable pub load_prompt : String → ℕ → Prog (Loader W) String
  unfolding read_prompt get put
  load_prompt name version p = elim (get p.cache (name, version)) [
    | none ↦ (read_prompt name version >>= keep (name, version)) p
    | some text ↦ pure text p
  ]

crlf_test : replace_crlf "a\r\n\r\r\nb\r" ≡ "a\n\r\nb\r"
unfolding replace_crlf
crlf_test = refl

not_found_test :
    not_found (file_name "dir/system" 3) ("b.v1.txt" ∷ "a.v2.txt" ∷ [])
    ≡ prompt_not_found "No prompt at system.v3.txt. Available: a.v2.txt, b.v1.txt"
unfolding not_found file_name
not_found_test = refl
