-- ===== src/Risk/AuditLaws.antt =====
-- core-exchange/pre-trade-risk-engine: every evaluation is in the audit history.
use collections.Prelude.{
  ℕ, suc, ◌+◌, ◌-◌, ◌≡◌, refl, sym, ◌∙◌, ap, false, Bool-cases, Option, none, some, Option-cases,
  List, [], ◌∷◌, ◌++◌, append_assoc, append-nil, string_eq, inl, inr, arith,
}
use collections.Prelude.Dict.{lookup}
use collections.Prelude.Double.{Fpu}
use collections.Ring.{Ring, try_pop}
use collections.Ring.Drained.{
  IsDrained, one_in, taken_out, push-IsDrained, pop-one_in, taken_out-IsDrained, pop-IsDrained,
}
use collections.Risk.Types.{RiskRequest, RiskDecision, RiskEngine, invalid_request, unknown_symbol}
use collections.Risk.Rules.{make_decision, has_bad_shape}
use collections.Risk.Audit.{flush_loop, flush_audit_queue, enqueue_audit, finalize_decision}
use collections.Risk.Evaluate.{evaluate, market_decision, note_request}

flush_loop-next :
    (fuel : ℕ) (q q' : Ring RiskDecision) (v : RiskDecision) (history : List RiskDecision)
    → try_pop q ≡ (q', some v)
    → flush_loop (suc fuel) q history ≡ flush_loop fuel q' (history ++ v ∷ [])
unfolding flush_loop
flush_loop-next fuel q q' v history e =
    rw (e, flush_loop)
      (ap (λ (x : Ring RiskDecision × Option RiskDecision). flush_loop fuel x.0 (history ++ v ∷ []))
        e)

flush_loop-stop :
    (fuel : ℕ) (q q' : Ring RiskDecision) (history : List RiskDecision)
    → try_pop q ≡ (q', none)
    → flush_loop (suc fuel) q history ≡ some (q', history)
unfolding flush_loop
flush_loop-stop fuel q q' history e =
    rw (e, flush_loop) (ap (λ (x : Ring RiskDecision × Option RiskDecision). some (x.0, history)) e)

-- Two rounds take out one element.
flush_loop-one :
    (fuel : ℕ) (v : RiskDecision) (q : Ring RiskDecision) (history : List RiskDecision)
    → IsDrained q
    → flush_loop (suc (suc fuel)) (one_in v q) history ≡ some (taken_out v q, history ++ v ∷ [])
flush_loop-one fuel v q history d =
    flush_loop-next (suc fuel) (one_in v q) (taken_out v q) v history (pop-one_in v q d)
    ∙ flush_loop-stop fuel (taken_out v q) (taken_out v q) (history ++ v ∷ [])
        (pop-IsDrained (taken_out v q) (taken_out-IsDrained v q d))

-- The engine with one more decision in its history.
abbrev pub audited : RiskDecision → RiskEngine → RiskEngine
audited decision r = record r {
  audit_queue = taken_out decision r.audit_queue;
  audit_history = r.audit_history ++ decision ∷ [];
}

flush_one :
    (decision : RiskDecision) (r : RiskEngine)
    → IsDrained r.audit_queue
    → flush_audit_queue (record r { audit_queue = one_in decision r.audit_queue })
      ≡ some (audited decision r)
unfolding flush_audit_queue one_in
flush_one decision r d =
    let room = d.roomy in
    let rounds : r.audit_queue.capacity + 1 ≡ suc (suc (r.audit_queue.capacity - 1)) =
      omega (arith, room) in
    rw
      (
        rounds,
        flush_loop-one (r.audit_queue.capacity - 1) decision r.audit_queue r.audit_history d,
        flush_audit_queue,
      )
      refl

pub finalize_decision-audited :
    (decision : RiskDecision) (r : RiskEngine)
    → IsDrained r.audit_queue
    → finalize_decision decision r ≡ some (audited decision r, decision)
unfolding finalize_decision enqueue_audit
finalize_decision-audited decision r d =
    rw (push-IsDrained decision r.audit_queue d, enqueue_audit, finalize_decision)
      (rw (flush_one decision r d, finalize_decision) refl)

-- Orders evaluated one after the other, with the decisions.
unfoldable pub evaluate_all :
    Fpu → List RiskRequest → RiskEngine → Option (RiskEngine × List RiskDecision)
evaluate_all fpu [] r = some (r, [])
evaluate_all fpu (request ∷ requests) r = elim (evaluate fpu request r) [
  | none ↦ none
  | some (r', decision) ↦ elim (evaluate_all fpu requests r') [
    | none ↦ none
    | some (r'', decisions) ↦ some (r'', decision ∷ decisions)
  ]
]

-- What an evaluation returns, and that it is the entry of the history.
abbrev pub Audits : RiskEngine → RiskEngine → List RiskDecision → Type 0
Audits r r' decisions =
    (r'.audit_history ≡ r.audit_history ++ decisions)
    × IsDrained r'.audit_queue
    × (r'.markets ≡ r.markets)

pub evaluate-Audits :
    (fpu : Fpu) (request : RiskRequest) (r : RiskEngine)
    → IsDrained r.audit_queue
    → (r' : RiskEngine) × (decision : RiskDecision) × (evaluate fpu request r ≡ some (r', decision))
      × Audits r r' (decision ∷ [])
unfolding evaluate note_request
evaluate-Audits fpu request r d = elim (Bool-cases (has_bad_shape request)) [
  | inl bad ↦
      let decision = make_decision fpu request false invalid_request "request_shape" r in
      (
        audited decision r,
        decision,
        rw (bad, evaluate) (finalize_decision-audited decision r d),
        (refl, taken_out-IsDrained decision r.audit_queue d, refl),
      )
  | inr good ↦ elim (Option-cases (lookup request.symbol r.markets)) [
    | inl gone ↦
        let decision = make_decision fpu request false unknown_symbol "symbol_configured" r in
        (
          audited decision r,
          decision,
          rw (good, gone, evaluate) (finalize_decision-audited decision r d),
          (refl, taken_out-IsDrained decision r.audit_queue d, refl),
        )
    | inr at ↦
        let decision = market_decision fpu request at.0 r in
        let noted = note_request request at.0 r in
        (
          audited decision noted,
          decision,
          rw (good, at.1, evaluate) (finalize_decision-audited decision noted d),
          (refl, taken_out-IsDrained decision r.audit_queue d, refl),
        )
  ]
]

-- Orders evaluated one after the other by an engine whose audit queue is empty: every evaluation
-- returns, with no exception and no flush that goes on for ever, the decisions are appended to the
-- audit history in their order, the queue is empty again, and the markets are what they were.
pub evaluate_all-Audits :
    (fpu : Fpu) (requests : List RiskRequest) (r : RiskEngine)
    → IsDrained r.audit_queue
    → (r' : RiskEngine) × (decisions : List RiskDecision) × (evaluate_all fpu requests r
        ≡ some (r', decisions))
      × Audits r r' decisions
unfolding evaluate_all
evaluate_all-Audits fpu [] r d = (r, [], refl, (sym (append-nil r.audit_history), d, refl))
evaluate_all-Audits fpu (request ∷ requests) r d =
    let (r₁, decision, run, a) = evaluate-Audits fpu request r d in
    let (r₂, decisions, runs, b) = evaluate_all-Audits fpu requests r₁ a.1 in
    (
      r₂,
      decision ∷ decisions,
      rw (run, runs, evaluate_all) refl,
      (rw (b.0, a.0) (append_assoc r.audit_history (decision ∷ []) decisions), b.1, b.2 ∙ a.2),
    )
