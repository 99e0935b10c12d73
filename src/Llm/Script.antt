-- ===== src/Llm/Script.antt =====
-- What a scripted model answers, call by call.
use agent_force.Prelude.{
  suc, ◌+◌, ◌-◌, ◌≡◌, refl, sym, ap, ◌∙◌, true, false, List, [], ◌∷◌, ◌++◌, length, length-append,
  length-snoc, get_elem?, some, ltb, arith,
}
use mathlib.Core.List.{append-nil, append_assoc}
use agent_force.Effects.{Result, err}
use agent_force.Messages.{LlmResponse}
use agent_force.Ports.{Request}
use agent_force.Errors.{script_exhausted}
use agent_force.Llm.Fake.{FakeLlm, complete, entry, exhausted}

-- The calls one after the other, with what each answers.
unfoldable pub play : List Request → FakeLlm → List (Result LlmResponse) × FakeLlm
unfolding complete
play [] llm = ([], llm)
play (r ∷ rs) llm =
    let (answer, llm') = complete r llm in
    let (answers, last) = play rs llm' in (answer ∷ answers, last)

get_elem?-append :
    {A : Type 0} (xs : List A) (y : A) (ys : List A) → get_elem? (xs ++ y ∷ ys) (length xs) ≡ some y
get_elem?-append [] y ys = refl
get_elem?-append (x ∷ xs) y ys = get_elem?-append xs y ys

-- The call after the first `length before`.
complete-next :
    (script before : List (Result LlmResponse)) (x : Result LlmResponse)
    (after : List (Result LlmResponse)) (cs : List Request) (r : Request)
    → script ≡ before ++ x ∷ after
    → length cs ≡ length before
    → complete r (record { script = script; calls = cs })
      ≡ (x, record { script = script; calls = cs ++ r ∷ [] })
unfolding complete entry
complete-next script before x after cs r s h =
    let long : length script ≡ length before + suc (length after) =
      ap length s ∙ length-append before (x ∷ after) in
    let made : length (cs ++ r ∷ []) ≡ suc (length cs) = length-snoc cs r in
    let within : ltb (length script) (length (cs ++ r ∷ [])) ≡ false = ground arith in
    let at : length (cs ++ r ∷ []) - 1 ≡ length before = omega arith in
    let found : get_elem? script (length before) ≡ some x =
      ap (λ xs. get_elem? xs (length before)) s ∙ get_elem?-append before x after in
    rw (within, at, entry, found) refl

play-cons :
    (r : Request) (rs : List Request) (llm llm' : FakeLlm) (answer : Result LlmResponse)
    → complete r llm ≡ (answer, llm')
    → play (r ∷ rs) llm ≡ (answer ∷ (play rs llm').0, (play rs llm').1)
unfolding play
play-cons r rs llm llm' answer h = ap (λ p. (p.0 ∷ (play rs p.1).0, (play rs p.1).1)) h

play-script :
    (script before xs after : List (Result LlmResponse)) (cs rs : List Request)
    → script ≡ before ++ (xs ++ after)
    → length cs ≡ length before
    → length rs ≡ length xs
    → play rs (record { script = script; calls = cs })
      ≡ (xs, record { script = script; calls = cs ++ rs })
unfolding play
play-script script before [] after cs [] s h g =
    ap (λ ys. ([], record { script = script; calls = ys })) (sym (append-nil cs))
play-script script before [] after cs (r ∷ rs) s h g = absurd (omega arith)
play-script script before (x ∷ xs) after cs [] s h g = absurd (omega arith)
play-script script before (x ∷ xs) after cs (r ∷ rs) s h g =
    play-cons r rs _ _ x (complete-next script before x (xs ++ after) cs r s h)
    ∙ ap (λ p. (x ∷ p.0, p.1))
        (play-script script (before ++ x ∷ []) xs after (cs ++ r ∷ []) rs
          (s ∙ sym (append_assoc before (x ∷ []) (xs ++ after)))
          (length-snoc cs r ∙ ap suc h ∙ sym (length-snoc before x)) (omega arith))
    ∙ ap (λ ys. (x ∷ xs, record { script = script; calls = ys })) (append_assoc cs (r ∷ []) rs)

complete-exhausted :
    (script : List (Result LlmResponse)) (cs : List Request) (r : Request)
    → length cs ≡ length script
    → complete r (record { script = script; calls = cs }) ≡ (
      err (script_exhausted (exhausted (suc (length script)) (length script))),
      record { script = script; calls = cs ++ r ∷ [] },
    )
unfolding complete
complete-exhausted script cs r h =
    let made : length (cs ++ r ∷ []) ≡ suc (length script) = length-snoc cs r ∙ ap suc h in
    let beyond : ltb (length script) (suc (length script)) ≡ true = ground arith in
    rw (made, beyond) refl

-- A scripted model plays its script in order: as many calls as a first part of the script has entries
-- answer with those entries, one each, and the calls are recorded as they were made; once the script
-- is played, the next call is told that it is exhausted.
pub plays_in_order :
    (xs after : List (Result LlmResponse)) (rs : List Request) (r : Request)
    → length rs ≡ length xs
    → (play rs (record { script = xs ++ after; calls = [] })
        ≡ (xs, record { script = xs ++ after; calls = rs }))
      × (complete r (play rs (record { script = xs; calls = [] })).1 ≡ (
        err (script_exhausted (exhausted (suc (length xs)) (length xs))),
        record { script = xs; calls = rs ++ r ∷ [] },
      ))
plays_in_order xs after rs r h = (
  play-script (xs ++ after) [] xs after [] rs refl refl h,
  ap (λ p. complete r p.1) (play-script xs [] xs [] [] rs (sym (append-nil xs)) refl h)
      ∙ complete-exhausted xs rs r h,
)
