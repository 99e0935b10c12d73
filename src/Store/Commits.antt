-- ===== src/Store/Commits.antt =====
-- A step is committed once, and a key creates one run.
use agent_force.Prelude.{
  ℕ, ◌≡◌, refl, Bool, true, false, none, some, List, [], ◌∷◌, ◌++◌, any, All, nat_Eq, string_Eq,
  arith, Option-cases, inl, inr, if◌then◌else◌, nat_eq, nat_eq_iff, ap, ◌∙◌, sym,
}
use agent_force.Prelude.Dict.{get, get-put_self}
use agent_force.Effects.{Result-cases, ok, err}
use agent_force.Messages.{Message}
use agent_force.Messages.RoundTrip.{blocks_from_wire-blocks_to_wire, IsReplayable}
use agent_force.State.{RunRecord, StepRecord, plus, running}
use agent_force.Store.Memory.{
  commit_step, is_committed, already_committed, rehydrate, append_step, load,
}
use agent_force.Store.Records.{StoredRun, MemoryStore, save, no_run}
use agent_force.Store.Leases.{find-some, find-none}

any-snoc {ℓ} :
    {A : Type ℓ} (p : A → Bool) (xs : List A) (x : A) → p x ≡ true → any p (xs ++ x ∷ []) ≡ true
any-snoc p [] x h = ground arith
any-snoc p (y ∷ ys) x h = ground (arith, any-snoc p ys x h)

is_committed-append_step :
    (r : RunRecord) (step again : StepRecord) (ms : List Message)
    → again.idx ≡ step.idx
    → is_committed again.idx (append_step r step ms).steps ≡ true
unfolding is_committed append_step
is_committed-append_step r step again ms i =
    any-snoc (λ other. nat_eq other.idx again.idx) r.steps step
      ((nat_eq_iff step.idx again.idx).1 (sym i))

-- `commit_step` on a run that is there.
pub commit_step-some :
    (run_id : ℕ) (step : StepRecord) (ms : List Message) (s : MemoryStore) (stored : StoredRun)
    → get s.runs run_id ≡ some stored
    → commit_step run_id step ms s ≡ (
        if is_committed step.idx stored.run.steps
        then (err (already_committed run_id step.idx), s)
        else elim (rehydrate ms) [
          | ok replayed ↦
              (ok tt, save s run_id (record stored { run = append_step stored.run step replayed }))
          | err e ↦ (err e, s)
        ])
unfolding commit_step
commit_step-some run_id step ms s stored h = elim (Result-cases (rehydrate ms)) [
  | inl (replayed, e) ↦ rw (find-some s run_id stored h, e, commit_step) (ground arith)
  | inr (x, e) ↦ rw (find-some s run_id stored h, e, commit_step) (ground arith)
]

pub commit_step-none :
    (run_id : ℕ) (step : StepRecord) (ms : List Message) (s : MemoryStore)
    → get s.runs run_id ≡ none
    → commit_step run_id step ms s ≡ (no_run run_id, s)
unfolding commit_step
commit_step-none run_id step ms s h = rw (find-none s run_id h, commit_step) refl

-- What a commit that succeeds has done.
commit_step-inv :
    (run_id : ℕ) (step : StepRecord) (ms : List Message) (s s' : MemoryStore)
    → commit_step run_id step ms s ≡ (ok tt, s')
    → (stored : StoredRun) × (replayed : List Message) × (get s.runs run_id ≡ some stored)
      × (is_committed step.idx stored.run.steps ≡ false)
      × (rehydrate ms ≡ ok replayed)
      × (s' ≡ save s run_id (record stored { run = append_step stored.run step replayed }))
commit_step-inv run_id step ms s s' h = elim (Option-cases (get s.runs run_id)) [
  | inl e ↦ absurd (ground (arith, commit_step-none run_id step ms s e))
  | inr (stored, e) ↦ elim (Result-cases (rehydrate ms)) [
    | inl (replayed, q) ↦
        let f = commit_step-some run_id step ms s stored e in
        (stored, replayed, e, ground arith, q, ground arith)
    | inr (x, q) ↦ let f = commit_step-some run_id step ms s stored e in absurd (ground arith)
  ]
]

pub rehydrate-same :
    (ms : List Message) → All (λ m. All IsReplayable m.content) ms → rehydrate ms ≡ ok ms
unfolding rehydrate
rehydrate-same [] h = refl
rehydrate-same (m ∷ ms) h =
    rw (blocks_from_wire-blocks_to_wire m.content h.0) (rw (rehydrate-same ms h.1) refl)

-- A step is committed once: after a commit that succeeds, every further commit of a step with its
-- index, with whatever messages, is refused as already committed and leaves the store as it was.
pub commit_step-once :
    (run_id : ℕ) (step : StepRecord) (ms : List Message) (s s' : MemoryStore)
    → commit_step run_id step ms s ≡ (ok tt, s')
    → (again : StepRecord) (others : List Message) → again.idx ≡ step.idx
    → commit_step run_id again others s' ≡ (err (already_committed run_id step.idx), s')
commit_step-once run_id step ms s s' h again others i =
    let (stored, replayed, g, f, q, e) = commit_step-inv run_id step ms s s' h in
    let kept = record stored { run = append_step stored.run step replayed } in
    rw e (
      commit_step-some run_id again others (save s run_id kept) kept
        (get-put_self s.runs run_id kept)
      ∙ ground (arith, is_committed-append_step stored.run step again replayed i))

-- A step with a new index, whose messages can be read back, is committed: the run then holds the
-- step, and its messages just as they were given, at the end of what it held, with the step's
-- tokens counted once.
pub commit_step-appends :
    (run_id : ℕ) (step : StepRecord) (ms : List Message) (s : MemoryStore) (r : RunRecord)
    → load run_id s ≡ ok r
    → is_committed step.idx r.steps ≡ false
    → All (λ m. All IsReplayable m.content) ms
    → ((commit_step run_id step ms s).0 ≡ ok tt)
      × (load run_id (commit_step run_id step ms s).1
          ≡ ok (record r {
            status = running;
            steps = r.steps ++ step ∷ [];
            messages = r.messages ++ ms;
            usage = plus r.usage step.usage;
          }))
unfolding load append_step
commit_step-appends run_id step ms s r h f rs = elim (Option-cases (get s.runs run_id)) [
  | inl e ↦ absurd (let q = rw (find-none s run_id e, load) at h in ground arith)
  | inr (stored, e) ↦
      let q = rw (find-some s run_id stored e, load) at h in
      let w : stored.run ≡ r = ground arith in
      let kept = record stored { run = append_step stored.run step ms } in
      let g : commit_step run_id step ms s ≡ (ok tt, save s run_id kept) =
        commit_step-some run_id step ms s stored e ∙ ground (arith, rehydrate-same ms rs) in
      rw g (
        refl,
        rw (find-some (save s run_id kept) run_id kept (get-put_self s.runs run_id kept), load)
            (ap (λ u. ok (append_step u step ms)) w),
      )
]
