-- ===== src/Risk/Admission.antt =====
-- core-exchange/pre-trade-risk-engine: which orders are accepted.
use collections.Prelude.{
  ◌<◌, ◌≡◌, refl, sym, ◌∙◌, subst, true, false, Bool-cases, ◌&&◌, not, some, Option-cases, List,
  length, leb, string_eq, inl, inr, ◌⊎◌, ◌↔◌, arith,
}
use collections.Prelude.Int.{ℤ, ◌≤ℤ◌, ltb_ℤ, ltb_ℤ→≤ℤ, ≤ℤ→ltb_ℤ}
use collections.Prelude.Dict.{lookup}
use collections.Prelude.Double.{Fpu}
use collections.Ring.Drained.{IsDrained}
use collections.Risk.Types.{
  RiskSide, buy, sell, RiskRequest, AccountRiskState, RiskDecision, MarketState, RiskEngine,
  invalid_request, unknown_symbol,
}
use collections.Risk.Markets.{reference_price, resting_orders_for}
use collections.Risk.Rules.{
  is_buy, make_decision, has_bad_shape, would_self_trade, outside_band, evaluate_market_rules,
}
use collections.Risk.Rulebook.{
  HasShape, InBand, Affordable, NoSelfTrade, has_bad_shape_iff, outside_band_iff, no_self_trade,
}
use collections.Risk.AuditLaws.{finalize_decision-audited, audited}
use collections.Risk.Evaluate.{current_window, account_of, market_decision, note_request, evaluate}

-- What the market asks of an order: the limits on quantity and notional, the price band, the
-- balance, the number of requests in the window and self trades.
pub record Admissible (fpu : Fpu) (request : RiskRequest) (at : MarketState) (r : RiskEngine)
    : Type 0 where
  pub quantity_ok : request.quantity ≤ℤ at.config.max_order_quantity
  pub notional_ok :
      fpu.mul (reference_price fpu at request) request.quantity ≤ℤ at.config.max_order_notional
  pub band_ok : InBand fpu at request (reference_price fpu at request)
  pub balance_ok :
      Affordable request.side
        (account_of request r)
        (fpu.mul (reference_price fpu at request) request.quantity)
        request.quantity
  pub rate_ok : length (current_window request at r) < at.config.max_requests_per_window
  pub self_trade_ok :
      NoSelfTrade request at.config.enable_self_trade_prevention
        (resting_orders_for request.symbol r)

-- The two tests of the balance, of which a side takes one.
affordable :
    (side : RiskSide) (account : AccountRiskState) (notional quantity : ℤ)
    → is_buy side && ltb_ℤ account.quote_balance notional ≡ false
    → not (is_buy side) && ltb_ℤ account.base_position quantity ≡ false
    → Affordable side account notional quantity
affordable buy account notional quantity h k = ltb_ℤ→≤ℤ account.quote_balance notional h
affordable sell account notional quantity h k = ltb_ℤ→≤ℤ account.base_position quantity k

no_short_quote :
    (side : RiskSide) (account : AccountRiskState) (notional quantity : ℤ)
    → is_buy side && ltb_ℤ account.quote_balance notional ≡ true
    → Affordable side account notional quantity
    → ⊥
no_short_quote buy account notional quantity h k =
    absurd (cc (h, ≤ℤ→ltb_ℤ account.quote_balance notional k))
no_short_quote sell account notional quantity h k = absurd (cc h)

no_short_base :
    (side : RiskSide) (account : AccountRiskState) (notional quantity : ℤ)
    → not (is_buy side) && ltb_ℤ account.base_position quantity ≡ true
    → Affordable side account notional quantity
    → ⊥
no_short_base buy account notional quantity h k = absurd (cc h)
no_short_base sell account notional quantity h k =
    absurd (cc (h, ≤ℤ→ltb_ℤ account.base_position quantity k))

Verdict : Fpu → RiskRequest → MarketState → RiskEngine → Type 0
Verdict fpu request at r =
    (((market_decision fpu request at r).is_accepted ≡ false) × ¬ Admissible fpu request at r)
    ⊎ (((market_decision fpu request at r).is_accepted ≡ true) × Admissible fpu request at r)

module _ (fpu : Fpu) (request : RiskRequest) (at : MarketState) (r : RiskEngine) where
  ref_price : ℤ
  ref_price = reference_price fpu at request

  notional : ℤ
  notional = fpu.mul ref_price request.quantity

  -- The last two rules, for an order that passed the others.
  after_balance :
      ltb_ℤ at.config.max_order_quantity request.quantity ≡ false
      → ltb_ℤ at.config.max_order_notional notional ≡ false
      → outside_band fpu at request ref_price ≡ false
      → is_buy request.side && ltb_ℤ (account_of request r).quote_balance notional ≡ false
      → not (is_buy request.side) && ltb_ℤ (account_of request r).base_position request.quantity
        ≡ false
      → Verdict fpu request at r
  unfolding market_decision evaluate_market_rules make_decision Verdict ref_price notional
  after_balance a b c d e =
      let own = resting_orders_for request.symbol r in
      let stp = at.config.enable_self_trade_prevention in
      let window = current_window request at r in
      elim (Bool-cases (leb at.config.max_requests_per_window (length window))) [
        | inl f ↦ inl (rw (a, b, c, d, e, f) refl, λ ok. full window f ok.rate_ok)
        | inr f ↦ elim (Bool-cases (stp && would_self_trade request own)) [
          | inl g ↦ inl (
            rw (a, b, c, d, e, f, g) refl,
            λ ok. absurd (cc (g, (no_self_trade request stp own).1 ok.self_trade_ok)),
          )
          | inr g ↦ inr (
            rw (a, b, c, d, e, f, g) refl,
            record {
              quantity_ok = ltb_ℤ→≤ℤ at.config.max_order_quantity request.quantity a;
              notional_ok = ltb_ℤ→≤ℤ at.config.max_order_notional notional b;
              band_ok = (outside_band_iff fpu at request ref_price).0 c;
              balance_ok =
                  affordable request.side (account_of request r) notional request.quantity d e;
              rate_ok = room window f;
              self_trade_ok = (no_self_trade request stp own).0 g;
            },
          )
        ]
      ]
    where
      full :
          (window : List ℤ)
          → leb at.config.max_requests_per_window (length window) ≡ true
          → length window < at.config.max_requests_per_window
          → ⊥
      full window h k = ground (arith, h, k)

      room :
          (window : List ℤ)
          → leb at.config.max_requests_per_window (length window) ≡ false
          → length window < at.config.max_requests_per_window
      room window h = ground (arith, h)

  market_decision-Verdict : Verdict fpu request at r
  unfolding market_decision evaluate_market_rules make_decision Verdict ref_price notional
  market_decision-Verdict =
      let account = account_of request r in
      let own = resting_orders_for request.symbol r in
      elim (Bool-cases (ltb_ℤ at.config.max_order_quantity request.quantity)) [
        | inl a ↦ inl (
          rw (a) refl,
          λ ok.
              absurd
                (cc (a, ≤ℤ→ltb_ℤ at.config.max_order_quantity request.quantity ok.quantity_ok)),
        )
        | inr a ↦ elim (Bool-cases (ltb_ℤ at.config.max_order_notional notional)) [
          | inl b ↦ inl (
            rw (a, b) refl,
            λ ok. absurd (cc (b, ≤ℤ→ltb_ℤ at.config.max_order_notional notional ok.notional_ok)),
          )
          | inr b ↦ elim (Bool-cases (outside_band fpu at request ref_price)) [
            | inl c ↦ inl (
              rw (a, b, c) refl,
              λ ok. absurd (cc (c, (outside_band_iff fpu at request ref_price).1 ok.band_ok)),
            )
            | inr c ↦
                elim (Bool-cases (is_buy request.side && ltb_ℤ account.quote_balance notional)) [
                  | inl d ↦ inl (
                    rw (a, b, c, d) refl,
                    λ ok.
                        no_short_quote request.side account notional request.quantity d
                          ok.balance_ok,
                  )
                  | inr d ↦
                      elim (Bool-cases (
                        not (is_buy request.side)
                        && ltb_ℤ account.base_position request.quantity)) [
                          | inl e ↦ inl (
                            rw (a, b, c, d, e) refl,
                            λ ok.
                                no_short_base request.side account notional request.quantity e
                                  ok.balance_ok,
                          )
                          | inr e ↦ after_balance a b c d e
                        ]
                ]
          ]
        ]
      ]

-- What an evaluation answers, and when it accepts.
abbrev pub Accepts : Fpu → RiskRequest → RiskEngine → Type 0
Accepts fpu request r =
    HasShape request
    × ((at : MarketState) × (lookup request.symbol r.markets ≡ some at)
        × Admissible fpu request at r)

answer_of_verdict :
    (fpu : Fpu) (request : RiskRequest) (at : MarketState) (r : RiskEngine)
    → has_bad_shape request ≡ false
    → lookup request.symbol r.markets ≡ some at
    → ((market_decision fpu request at r).is_accepted ≡ true) ↔ Accepts fpu request r
unfolding Verdict
answer_of_verdict fpu request at r good found = elim (market_decision-Verdict fpu request at r) [
  | inl no_way ↦ (
    λ h. absurd (cc (h, no_way.0)),
    λ (shape, (there, same, ok)).
        absurd
          (no_way.1 (subst (λ x. Admissible fpu request x r) (some_path (sym same ∙ found)) ok)),
  )
  | inr fine ↦ (λ h. ((has_bad_shape_iff request).0 good, (at, found, fine.1)), λ ok. fine.0)
]
  where
    some_path : {x y : MarketState} → some x ≡ some y → x ≡ y
    some_path e = cc e

-- An engine whose audit queue is empty answers every order, and accepts exactly the orders that
-- have an id, a user, a symbol, a source, a quantity and a time above zero, a market that is configured, and
-- nothing against the rules of that market: a quantity and a notional within its limits, for a limit
-- order a price that is off the reference price by no more than the ratio, if there is one, a balance that
-- pays for it, a free place in the window of requests, and, where the market prevents self trades, no
-- resting order of the same user on the other side at a price that it would trade with.
pub evaluate-Accepts :
    (fpu : Fpu) (request : RiskRequest) (r : RiskEngine)
    → IsDrained r.audit_queue
    → (r' : RiskEngine) × (decision : RiskDecision) × (evaluate fpu request r ≡ some (r', decision))
      × ((decision.is_accepted ≡ true) ↔ Accepts fpu request r)
unfolding evaluate make_decision note_request
evaluate-Accepts fpu request r d = elim (Bool-cases (has_bad_shape request)) [
  | inl bad ↦
      let decision = make_decision fpu request false invalid_request "request_shape" r in
      (
        audited decision r,
        decision,
        rw (bad, evaluate) (finalize_decision-audited decision r d),
        (λ h. absurd (cc h), λ ok. absurd (cc (bad, (has_bad_shape_iff request).1 ok.0))),
      )
  | inr good ↦ elim (Option-cases (lookup request.symbol r.markets)) [
    | inl gone ↦
        let decision = make_decision fpu request false unknown_symbol "symbol_configured" r in
        (
          audited decision r,
          decision,
          rw (good, gone, evaluate) (finalize_decision-audited decision r d),
          (λ h. absurd (cc h), λ ok. absurd (cc (gone, ok.1.1))),
        )
    | inr at ↦
        let decision = market_decision fpu request at.0 r in
        let noted = note_request request at.0 r in
        (
          audited decision noted,
          decision,
          rw (good, at.1, evaluate) (finalize_decision-audited decision noted d),
          answer_of_verdict fpu request at.0 r good at.1,
        )
  ]
]
