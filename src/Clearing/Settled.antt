-- ===== src/Clearing/Settled.antt =====
-- core-exchange/account-clearing-system: when a trade is settled, and what that does.
use collections.Prelude.{
  ◌≡◌, refl, sym, ◌∙◌, ap, subst, false, Bool-cases, Option, none, some, Option-cases, option_map,
  if◌then◌else◌, string_eq, ◌==◌, eq→≡, ◌⊎◌, inl, inr,
}
use collections.Prelude.Int.{pos, ltb_ℤ, ltb_ℤ→≤ℤ, ≤ℤ→ltb_ℤ, ltb_ℤ→<ℤ, <ℤ→ltb_ℤ}
use collections.Prelude.Dict.{
  lookup, insert, lookup-insert, contains, contains-insert_self, contains→none,
}
use collections.Prelude.Double.{Fpu}
use collections.Consistency.Outbox.{append_message}
use collections.Clearing.Types.{
  quote, base, AccountSnapshot, Accounts, ClearingStatus, FeeSchedule, TradeFill, SettlementResult,
  only_status, ClearingSystem,
}
use collections.Clearing.Amounts.{calculate_settlement_amounts, fee_amount}
use collections.Clearing.Settle.{
  has_valid_trade_fill, validate_balance_coverage, validate_hold_coverage, settlement_checks,
  is_quote, is_base, consume_hold_amount, settle_holds, append_settlement_journal,
  enqueue_settlement_outbox, settle_spot_trade, bought, sold,
}
use collections.Clearing.Holds.{append_journal}
use collections.Clearing.Outcome.{
  SettlementApplied, settle_spot_trade_cases, settled_state, settled_result, is_applied,
  checks-cases, known_applied,
}
use Prim.Native.String.{String}
use collections.Clearing.Contract.{
  charge, Settleable, charged, paid, settled_account, spent, Settled,
}
use collections.Clearing.Spending.{
  lookup-consume, right_quote, right_base, and_true, covers_iff, checked_parts,
}

module _ (fpu : Fpu) (fill : TradeFill) (fees : FeeSchedule) (s : ClearingSystem) where
  -- A trade that can be settled passes all the tests.
  Settleable-applied : Settleable fpu fill fees s → SettlementApplied fpu fill fees s
  unfolding calculate_settlement_amounts fee_amount has_valid_trade_fill settlement_checks
      validate_balance_coverage validate_hold_coverage
  Settleable-applied x =
      let amounts = calculate_settlement_amounts fpu fill fees x.seller in
      let p = ≤ℤ→ltb_ℤ x.buyer.frozen_quote amounts.buyer_consumed_quote x.quote_ok in
      let q = ≤ℤ→ltb_ℤ x.seller.frozen_base amounts.seller_consumed_base x.base_ok in
      let b =
        (covers_iff fill.buyer_hold_id fill.buyer_account_id is_quote quote right_quote
            amounts.buyer_consumed_quote s.holds).1
          x.buyer_hold_ok in
      let t =
        (covers_iff fill.seller_hold_id fill.seller_account_id is_base base right_base
            amounts.seller_consumed_base s.holds).1
          x.seller_hold_ok in
      known_applied fpu fill fees s x.buyer x.seller (rw (x.fresh, contains) refl) x.buyer_found
        x.seller_found
        (rw
          (
            <ℤ→ltb_ℤ (pos 0) fill.price x.price_ok,
            <ℤ→ltb_ℤ (pos 0) fill.quantity x.quantity_ok,
            <ℤ→ltb_ℤ (pos 0) fill.timestamp_ms x.time_ok,
          )
          refl)
        (elim (checks-cases fill amounts x.buyer x.seller s.holds) [
          | inr passed ↦ passed
          | inl refused ↦ absurd (cc (rw (p, q, b, t) at refused.1))
        ])

  -- A trade that was settled could be.
  applied-Settleable :
      (a : SettlementApplied fpu fill fees s)
      → (able : Settleable fpu fill fees s) × (a.seller ≡ able.seller)
  unfolding calculate_settlement_amounts fee_amount has_valid_trade_fill
  applied-Settleable a =
      let amounts = calculate_settlement_amounts fpu fill fees a.seller in
      let (p, q, b, t) = checked_parts fill amounts a.buyer a.seller s.holds a.checked in
      let (price_ok, quantity_ok, time_ok) =
        and_true (ltb_ℤ (pos 0) fill.price) (ltb_ℤ (pos 0) fill.quantity)
          (ltb_ℤ (pos 0) fill.timestamp_ms) a.valid in
      (
        record {
          buyer = a.buyer;
          seller = a.seller;
          fresh = contains→none fill.trade_id s.settled_trade_ids a.fresh;
          buyer_found = a.buyer_found;
          seller_found = a.seller_found;
          price_ok = ltb_ℤ→<ℤ (pos 0) fill.price price_ok;
          quantity_ok = ltb_ℤ→<ℤ (pos 0) fill.quantity quantity_ok;
          time_ok = ltb_ℤ→<ℤ (pos 0) fill.timestamp_ms time_ok;
          quote_ok = ltb_ℤ→≤ℤ a.buyer.frozen_quote amounts.buyer_consumed_quote p;
          base_ok = ltb_ℤ→≤ℤ a.seller.frozen_base amounts.seller_consumed_base q;
          buyer_hold_ok =
              (covers_iff fill.buyer_hold_id fill.buyer_account_id is_quote quote right_quote
                  amounts.buyer_consumed_quote s.holds).0
                b;
          seller_hold_ok =
              (covers_iff fill.seller_hold_id fill.seller_account_id is_base base right_base
                  amounts.seller_consumed_base s.holds).0
                t;
        },
        refl,
      )

  accounts_after :
      (a : SettlementApplied fpu fill fees s) (id : String)
      → lookup id
          (settled_state fill
            (calculate_settlement_amounts fpu fill fees a.seller)
            a.buyer
            a.seller'
            a.holds'
            s).accounts
        ≡ option_map (settled_account fpu fill fees a.seller id) (lookup id s.accounts)
  unfolding calculate_settlement_amounts fee_amount append_journal append_settlement_journal
      enqueue_settlement_outbox
  accounts_after a id =
      let amounts = calculate_settlement_amounts fpu fill fees a.seller in
      let one = bought fill amounts a.buyer in
      let two = sold fill amounts a.seller' in
      let first =
        written fill.buyer_account_id id a.buyer one (charged fpu fill fees) s.accounts
          a.buyer_found refl in
      let accounts = insert fill.buyer_account_id one s.accounts in
      written fill.seller_account_id id a.seller' two (paid fpu fill fees a.seller) accounts
        a.seller_again refl
      ∙ ap
          (option_map
            (λ b. if fill.seller_account_id == id then paid fpu fill fees a.seller b else b))
          first
      ∙ map_both (lookup id s.accounts)
    where
      map_id : (o : Option AccountSnapshot) → option_map (λ b. b) o ≡ o
      map_id none = refl
      map_id (some b) = refl

      written :
          (k id : String) (old new : AccountSnapshot) (f : AccountSnapshot → AccountSnapshot)
          (accounts : Accounts)
          → lookup k accounts ≡ some old
          → new ≡ f old
          → lookup id (insert k new accounts)
            ≡ option_map (λ b. if k == id then f b else b) (lookup id accounts)
      written k id old new f accounts found moved = elim (Bool-cases (k == id)) [
        | inl e ↦
            let here : lookup id accounts ≡ some old =
              ap (λ n. lookup n accounts) (sym (eq→≡ k id e)) ∙ found in
            rw (lookup-insert k id new accounts, e, here) (ap some moved)
        | inr e ↦ rw (lookup-insert k id new accounts, e) (sym (map_id (lookup id accounts)))
      ]

      map_both :
          (o : Option AccountSnapshot)
          → option_map
              (λ b. if fill.seller_account_id == id then paid fpu fill fees a.seller b else b)
              (option_map
                (λ b. if fill.buyer_account_id == id then charged fpu fill fees b else b)
                o)
            ≡ option_map (settled_account fpu fill fees a.seller id) o
      map_both none = refl
      map_both (some b) = refl

  holds_after :
      (a : SettlementApplied fpu fill fees s) (id : String)
      → lookup id a.holds'
        ≡ spent fill.seller_hold_id fill.quantity id
            (spent fill.buyer_hold_id (charge fpu fill fees) id (lookup id s.holds))
  unfolding calculate_settlement_amounts fee_amount settle_holds
  holds_after a id =
      let first =
        Option-cases (consume_hold_amount fill.buyer_hold_id (charge fpu fill fees) s.holds) in
      elim first [
        | inl gone ↦ absurd (cc (rw (gone, settle_holds) at a.consumed))
        | inr held ↦
            lookup-consume fill.seller_hold_id id fill.quantity held.0 a.holds'
              (rw (held.1, settle_holds) at a.consumed)
            ∙ ap (spent fill.seller_hold_id fill.quantity id)
                (lookup-consume fill.buyer_hold_id id (charge fpu fill fees) s.holds held.0 held.1)
      ]

  applied-Settled :
      (a : SettlementApplied fpu fill fees s)
      → Settled fpu fill fees a.seller s
          (settled_state fill
            (calculate_settlement_amounts fpu fill fees a.seller)
            a.buyer
            a.seller'
            a.holds'
            s)
          (settled_result (calculate_settlement_amounts fpu fill fees a.seller))
  unfolding calculate_settlement_amounts fee_amount append_journal append_settlement_journal
      enqueue_settlement_outbox append_message
  applied-Settled a = record {
    status_eq = refl;
    notional_eq = refl;
    buyer_fee_eq = refl;
    seller_fee_eq = refl;
    profit_eq = refl;
    accounts_eq = accounts_after a;
    holds_eq = holds_after a;
    known = contains-insert_self fill.trade_id tt s.settled_trade_ids;
    told = refl;
  }

  -- A settlement refuses a trade exactly if it cannot be settled: then it answers a status other than
  -- `applied` and no amounts, and the system is as it was. A trade can be settled if its id is new, its
  -- accounts are there, its price, quantity and time are above zero, the frozen quote of the buyer
  -- covers the notional and the fee and the frozen base of the seller the quantity, and so do the holds
  -- that are named. Then the result has the notional, the fees of taker and maker and the profit of the
  -- seller; the accounts of the two, or the one account of both, have paid and received these, and no
  -- other account is different; the holds that are named are less by what was spent of them, or gone if
  -- no more than the tolerance is left, and no other hold is different; the id is known, and a message
  -- stands at the end of the outbox.
  pub settle_spot_trade-outcome :
      ((status : ClearingStatus) × (settle_spot_trade fpu fill fees s
          ≡ some (s, only_status status))
        × (is_applied status ≡ false)
        × ¬ Settleable fpu fill fees s)
      ⊎ ((able : Settleable fpu fill fees s) × (s' : ClearingSystem) × (result : SettlementResult)
          × (settle_spot_trade fpu fill fees s ≡ some (s', result))
          × Settled fpu fill fees able.seller s s' result)
  settle_spot_trade-outcome = elim (settle_spot_trade_cases fpu fill fees s) [
    | inl (status, run, refused) ↦
        inl (status, run, refused, λ able. not_both status run refused (Settleable-applied able))
    | inr a ↦
        let amounts = calculate_settlement_amounts fpu fill fees a.seller in
        let (able, same) = applied-Settleable a in
        let after = settled_state fill amounts a.buyer a.seller' a.holds' s in
        let result = settled_result amounts in
        inr (
          able,
          after,
          result,
          a.runs,
          subst (λ seller. Settled fpu fill fees seller s after result) same (applied-Settled a),
        )
  ]
    where
      some_path : {x y : ClearingSystem × SettlementResult} → some x ≡ some y → x ≡ y
      some_path e = cc e

      not_both :
          (status : ClearingStatus)
          → settle_spot_trade fpu fill fees s ≡ some (s, only_status status)
          → is_applied status ≡ false
          → SettlementApplied fpu fill fees s
          → ⊥
      not_both status run refused a =
          let same = some_path (sym run ∙ a.runs) in
          absurd (
            cc
              (refused, ap (λ (x : ClearingSystem × SettlementResult). is_applied x.1.status) same))
