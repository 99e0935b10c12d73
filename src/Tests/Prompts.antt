-- ===== src/Tests/Prompts.antt =====
-- A directory of one prompt.
use agent_force.Prelude.{◌≡◌, refl, String, Option, none, some, [], ◌∷◌, str_eq, if◌then◌else◌}
use agent_force.Effects.{ok}
use agent_force.Effects.Prog.{returns, raises}
use agent_force.Errors.{prompt_not_found}
use agent_force.Prompts.{PromptsDir, Loader, key_Eq, load_prompt, read_prompt}
use agent_force.Prompts.Cache.{loads, changes, after, load_prompt-stays}

-- The world is what the file holds.
abbrev found : String → String → Option String
found path text = if str_eq path "system.v1.txt" then some text else none

abbrev prompts : PromptsDir String
prompts = record {
  read_text = λ path w. (ok (found path w), w);
  glob = λ w. (ok ("system.v1.txt" ∷ []), w);
}

abbrev fresh : Loader String
fresh = record { cache = []; world = "Be brief.\nCite.\n" }

abbrev loaded : Loader String
loaded = record { cache = (("system", 1), "Be brief.\nCite.\n") ∷ []; world = "Be brief.\nCite.\n" }

load_prompt-stays_example :
    let q = after prompts (changes (λ w. "New.\n") ∷ loads "system" 2 ∷ []) loaded in
    load_prompt prompts "system" 1 q ≡ (returns "Be brief.\nCite.\n", q)
unfolding load_prompt read_prompt
load_prompt-stays_example =
    load_prompt-stays prompts "system" 1 fresh loaded "Be brief.\nCite.\n"
      (changes (λ w. "New.\n") ∷ loads "system" 2 ∷ []) refl

missing_prompt :
    load_prompt prompts "critic" 2 fresh
    ≡ (raises (prompt_not_found "No prompt at critic.v2.txt. Available: system.v1.txt"), fresh)
unfolding load_prompt read_prompt
missing_prompt = refl
