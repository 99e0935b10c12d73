-- ===== src/Idempotency.antt =====
-- app/core/runtime/idempotency.py: what a ledger row says, and the key of a tool call.
pub mod Key
pub mod Canonical
use agent_force.Prelude.{ℕ, Bool, true, false, String, Option, none}
use agent_force.Tools.Spec.{EffectClass, read_only, idempotent_write, unsafe}

pub data InvocationStatus : Type 0 where
  pending succeeded failed needs_review : InvocationStatus

pub data InvocationAction : Type 0 where
  execute replay re_execute review : InvocationAction

pub record InvocationDecision : Type 0 where
  pub action : InvocationAction
  pub result : Option String
  pub is_error : Bool

-- A decision that carries no recorded result.
abbrev pub decision : InvocationAction → InvocationDecision
decision a = record { action = a; result = none; is_error = false }

pub record InvocationOutcome : Type 0 where
  pub status : InvocationStatus
  pub result : Option String
  pub is_error : Bool

unfoldable pub is_terminal : InvocationOutcome → Bool
is_terminal o = elim o.status [ pending ↦ false | _ ↦ true ]

unfoldable pub resolve_pending : EffectClass → InvocationAction
resolve_pending read_only = re_execute
resolve_pending idempotent_write = re_execute
resolve_pending unsafe = review
