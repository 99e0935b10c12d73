-- ===== src/Ledger/Port.antt =====
-- The in-memory ledger as the loop and the workers see it.
use agent_force.Effects.{ok}
use agent_force.Ports.{ToolLedger}
use agent_force.World.{World}
use agent_force.Ledger.Memory.{begin, lookup, complete, mark_needs_review}

-- `abbrev`, so that its fields compute in statements and in proofs.
abbrev pub ledger_port : {E : Type 0} → ToolLedger (World E)
ledger_port = record {
  begin = λ run_id step_idx tool_name effect key w.
      let (d, l) = begin effect key w.ledger in (ok d, record w { ledger = l });
  lookup = λ key w. (ok (lookup key w.ledger), w);
  needs_review = λ key reason w.
      let (r, l) = mark_needs_review key reason w.ledger in (r, record w { ledger = l });
  complete = λ key result is_error w.
      let (r, l) = complete key result is_error w.ledger in (r, record w { ledger = l });
}
