-- ===== src/Risk/Audit.antt =====
-- core-exchange/pre-trade-risk-engine/pre_trade_risk_engine.cpp: the audit queue and history.
-- `none` is the exception, or the end of the fuel.
use collections.Prelude.{ℕ, zero, suc, ◌+◌, Option, none, some, List, [], ◌∷◌, ◌++◌, if◌then◌else◌}
use collections.Ring.{Ring, push, try_pop}
use collections.Risk.Types.{RiskDecision, RiskEngine}

-- The loop of `flush_audit_queue`.
unfoldable pub flush_loop :
    ℕ → Ring RiskDecision → List RiskDecision → Option (Ring RiskDecision × List RiskDecision)
flush_loop zero queue history = none
flush_loop (suc fuel) queue history =
    let popped = try_pop queue in
    elim popped.1 [
      | none ↦ some (popped.0, history)
      | some decision ↦ flush_loop fuel popped.0 (history ++ decision ∷ [])
    ]

-- One round for each slot of the queue, and one that finds it empty.
unfoldable pub flush_audit_queue : RiskEngine → Option RiskEngine
unfolding flush_loop
flush_audit_queue r = elim (flush_loop (r.audit_queue.capacity + 1) r.audit_queue r.audit_history) [
  | none ↦ none
  | some (queue, history) ↦ some (record r { audit_queue = queue; audit_history = history })
]

-- The second attempt, whose refusal throws.
abbrev pub push_again : RiskDecision → RiskEngine → Option RiskEngine
push_again decision r =
    let pushed = push decision r.audit_queue in
    if pushed.1 then some (record r { audit_queue = pushed.0 }) else none

unfoldable pub enqueue_audit : RiskDecision → RiskEngine → Option RiskEngine
enqueue_audit decision r =
    let pushed = push decision r.audit_queue in
    if pushed.1
    then some (record r { audit_queue = pushed.0 })
    else elim (flush_audit_queue r) [ none ↦ none | some flushed ↦ push_again decision flushed ]

unfoldable pub finalize_decision : RiskDecision → RiskEngine → Option (RiskEngine × RiskDecision)
unfolding flush_audit_queue
finalize_decision decision r = elim (enqueue_audit decision r) [
  | none ↦ none
  | some queued ↦ elim (flush_audit_queue queued) [
    | none ↦ none
    | some flushed ↦ some (flushed, decision)
  ]
]
