-- ===== src/Loop/Tracking.antt =====
-- The local variables of `run` against the history that the store holds of the run.
use mathlib.Core.List.{append-nil, append_assoc, map-append}
use agent_force.Prelude.{
  ◌<◌, ◌≡◌, refl, sym, ap, ap₂, ◌∙◌, List, [], ◌∷◌, ◌++◌, All, map, length, length-snoc, is_empty,
  arith, suc, if◌then◌else◌,
}
use agent_force.Messages.{Message, ToolResultBlock}
use agent_force.Messages.RoundTrip.{IsReplayable}
use agent_force.State.{RunLimits, RunUsage, plus, StepRecord, RunRecord}
use agent_force.Loop.Blocks.{result_blocks}
use agent_force.Loop.Turns.{LoopState, initial, conversation, opening}
use agent_force.Loop.Sound.{AreNumbered-snoc}
use agent_force.Loop.History.{History, history_of, conversation_of, with_step, IsConsistent}

-- The messages that no commit has stored yet when a run starts or resumes.
abbrev pub unstored : History → List Message
unstored h = if is_empty h.messages then conversation_of h else []

-- A history that goes on from another one: nothing of that is lost.
pub record Extends (old h : History) : Type 0 where
  pub same_input : h.input ≡ old.input
  pub same_limits : h.limits ≡ old.limits
  pub added : (steps : List StepRecord) × (h.steps ≡ old.steps ++ steps)
  pub said : (turns : List Message) × (conversation_of h ≡ conversation_of old ++ turns)

-- The local variables are what a worker would start from that resumes the run from the store now; only
-- the usage is left open. `start` is the history that the run was claimed with.
pub record Tracks (kept : StepRecord → StepRecord) (limits : RunLimits) (start : History)
    (s : LoopState) (h : History) : Type 0 where
  pub steps : map kept s.steps ≡ map kept h.steps
  pub messages : s.messages ≡ conversation_of h
  pub pending : s.pending ≡ unstored h
  pub consistent : IsConsistent limits h
  pub extends : Extends start h

pub Extends-refl : (h : History) → Extends h h
Extends-refl h = record {
  same_input = refl;
  same_limits = refl;
  added = ([], sym (append-nil h.steps));
  said = ([], sym (append-nil (conversation_of h)));
}

-- What goes on from a history that goes on from another one goes on from that.
pub Extends-trans : (a b c : History) → Extends a b → Extends b c → Extends a c
Extends-trans a b c p q = record {
  same_input = q.same_input ∙ p.same_input;
  same_limits = q.same_limits ∙ p.same_limits;
  added = (
    p.added.0 ++ q.added.0,
    q.added.1 ∙ ap (λ xs. xs ++ q.added.0) p.added.1 ∙ append_assoc a.steps p.added.0 q.added.0,
  );
  said = (
    p.said.0 ++ q.said.0,
    q.said.1
        ∙ ap (λ xs. xs ++ q.said.0) p.said.1
        ∙ append_assoc (conversation_of a) p.said.0 q.said.0,
  );
}

pub initial-Tracks :
    (kept : StepRecord → StepRecord) (limits : RunLimits) (r : RunRecord)
    → IsConsistent limits (history_of r)
    → Tracks kept limits (history_of r) (initial r) (history_of r)
unfolding initial conversation opening
initial-Tracks kept limits r h = record {
  steps = refl;
  messages = refl;
  pending = refl;
  consistent = h;
  extends = Extends-refl (history_of r);
}

-- A conversation to which turns are added, with what was not stored yet.
conversation_of-with_step :
    (h : History) (step stored : StepRecord) (t : Message) (ts : List Message)
    → conversation_of (with_step h step stored (unstored h ++ t ∷ ts)) ≡ conversation_of h ++ t ∷ ts
conversation_of-with_step h step stored t ts = ground arith

unstored-with_step :
    (h : History) (step stored : StepRecord) (t : Message) (ts : List Message)
    → unstored (with_step h step stored (unstored h ++ t ∷ ts)) ≡ []
unstored-with_step h step stored t ts = ground arith

pub unstored-AllReplayable :
    (h : History) (ts : List Message)
    → All (λ m. All IsReplayable m.content) ts
    → All (λ m. All IsReplayable m.content) (unstored h ++ ts)
unstored-AllReplayable h ts all = go h.messages
  where
    go :
        (ms : List Message)
        → All
            (λ m. All IsReplayable m.content)
            ((if is_empty ms then conversation_of (record h { messages = ms }) else []) ++ ts)
    go [] = ((tt, tt), all)
    go (m ∷ ms) = all

pub result_blocks-AllReplayable : (rs : List ToolResultBlock) → All IsReplayable (result_blocks rs)
unfolding result_blocks
result_blocks-AllReplayable [] = tt
result_blocks-AllReplayable (r ∷ rs) = (tt, result_blocks-AllReplayable rs)

length-map {ℓ κ} :
    {A : Type ℓ} {B : Type κ} (f : A → B) (xs : List A) → length (map f xs) ≡ length xs
length-map f [] = refl
length-map f (x ∷ xs) = ap suc (length-map f xs)

module _ (kept : StepRecord → StepRecord) (limits : RunLimits) (start : History)
    (kept_idx : (step : StepRecord) → (kept step).idx ≡ step.idx)
    (kept_again : (step : StepRecord) → kept (kept step) ≡ kept step) where
  pub length-tracked :
      (s : LoopState) (h : History) → Tracks kept limits start s h → length s.steps ≡ length h.steps
  length-tracked s h t = sym (length-map kept s.steps) ∙ ap length t.steps ∙ length-map kept h.steps

  -- A step that is committed with what was not stored yet, and listed, is tracked.
  pub step-Tracks :
      (s : LoopState) (h : History) (step : StepRecord) (usage : RunUsage) (m : Message)
      (ms : List Message)
      → Tracks kept limits start s h
      → step.idx ≡ length s.steps
      → h.usage.steps < limits.max_steps
      → Tracks kept limits start
          (record {
            usage = usage;
            messages = s.messages ++ m ∷ ms;
            pending = [];
            steps = s.steps ++ step ∷ [];
          })
          (with_step h step (kept step) (s.pending ++ m ∷ ms))
  unfolding plus
  step-Tracks s h step usage m ms t e below = rw t.pending (record {
    steps =
        map-append kept s.steps (step ∷ [])
        ∙ ap₂ (λ xs x. xs ++ x ∷ []) t.steps (sym (kept_again step))
        ∙ sym (map-append kept h.steps (kept step ∷ []));
    messages =
        ap (λ ts. ts ++ m ∷ ms) t.messages
        ∙ sym (conversation_of-with_step h step (kept step) m ms);
    pending = sym (unstored-with_step h step (kept step) m ms);
    consistent = record {
      numbered =
          AreNumbered-snoc 0 h.steps (kept step) t.consistent.numbered
            (omega (arith, kept_idx step, e, length-tracked s h t));
      counted = omega (arith, t.consistent.counted, length-snoc h.steps (kept step));
      capped = omega arith;
    };
    extends = Extends-trans start h _ t.extends (record {
      same_input = refl;
      same_limits = refl;
      added = (kept step ∷ [], refl);
      said = (m ∷ ms, conversation_of-with_step h step (kept step) m ms);
    });
  })
