-- ===== src/Clearing/Settle.antt =====
-- core-exchange/account-clearing-system/account_clearing_system.cpp: the settlement of a spot trade.
-- `none` is undefined behaviour: an end iterator that is followed.
use collections.Prelude.{
  Bool, true, false, ◌&&◌, not, Option, none, some, if◌then◌else◌, string_eq, ◌==◌,
}
use collections.Prelude.Text.{◌<>◌}
use collections.Prelude.Int.{ℤ, pos, ◌+ℤ◌, ◌-ℤ◌, neg_ℤ, ltb_ℤ}
use collections.Prelude.Dict.{lookup, insert, erase, contains}
use collections.Prelude.Double.{Fpu}
use collections.Consistency.Outbox.{pending, append_message}
use collections.Clearing.Types.{
  HoldAsset, quote, base, AccountSnapshot, ClearingStatus, applied, duplicate, invalid_input,
  account_not_found, buyer_frozen_quote_insufficient, seller_frozen_base_insufficient,
  buyer_hold_insufficient, seller_hold_insufficient, FeeSchedule, TradeFill, SettlementResult,
  only_status, settled_ok, JournalEntry, Holds, ClearingSystem,
}
use collections.Clearing.Amounts.{SettlementAmounts, is_zero, calculate_settlement_amounts}
use collections.Clearing.Holds.{append_journal}
use Prim.Native.String.{String}

unfoldable pub has_valid_trade_fill : TradeFill → Bool
has_valid_trade_fill fill =
    ltb_ℤ (pos 0) fill.price && ltb_ℤ (pos 0) fill.quantity && ltb_ℤ (pos 0) fill.timestamp_ms

unfoldable pub validate_balance_coverage :
    AccountSnapshot → AccountSnapshot → ℤ → ℤ → ClearingStatus
validate_balance_coverage buyer seller buyer_consumed_quote seller_consumed_base =
    if ltb_ℤ buyer.frozen_quote buyer_consumed_quote
    then buyer_frozen_quote_insufficient
    else if ltb_ℤ seller.frozen_base seller_consumed_base
    then seller_frozen_base_insufficient
    else applied

abbrev pub is_quote : HoldAsset → Bool
is_quote quote = true
is_quote base = false

abbrev pub is_base : HoldAsset → Bool
is_base quote = false
is_base base = true

-- The test of one hold. An empty id stands for no hold.
unfoldable pub covers : String → String → (HoldAsset → Bool) → ℤ → Holds → Bool
covers hold_id account_id right_asset amount holds =
    if hold_id == "" then true else elim (lookup hold_id holds) [
      | none ↦ false
      | some hold ↦
          hold.account_id == account_id && right_asset hold.asset && not (ltb_ℤ hold.amount amount)
    ]

unfoldable pub validate_hold_coverage : TradeFill → ℤ → ℤ → Holds → ClearingStatus
validate_hold_coverage fill buyer_consumed_quote seller_consumed_base holds =
    if not (covers fill.buyer_hold_id fill.buyer_account_id is_quote buyer_consumed_quote holds)
    then buyer_hold_insufficient
    else if not
        (covers fill.seller_hold_id fill.seller_account_id is_base seller_consumed_base holds)
    then seller_hold_insufficient
    else applied

unfoldable pub consume_hold_amount : String → ℤ → Holds → Option Holds
consume_hold_amount hold_id amount holds =
    if hold_id == "" then some holds else elim (lookup hold_id holds) [
      | none ↦ none
      | some hold ↦
          let left = hold.amount -ℤ amount in
          some (
            if is_zero left
            then erase hold_id holds
            else insert hold_id (record hold { amount = left }) holds)
    ]

abbrev pub buy_entry : TradeFill → SettlementAmounts → JournalEntry
buy_entry fill amounts = record {
  account_id = fill.buyer_account_id;
  event_id = fill.trade_id;
  operation = "spot_trade_buy";
  delta_available_quote = pos 0;
  delta_frozen_quote = neg_ℤ (amounts.notional +ℤ amounts.buyer_fee);
  delta_available_base = fill.quantity;
  delta_frozen_base = pos 0;
  delta_base_cost = amounts.notional +ℤ amounts.buyer_fee;
  delta_realized_pnl = pos 0;
  timestamp_ms = fill.timestamp_ms;
}

abbrev pub sell_entry : TradeFill → SettlementAmounts → JournalEntry
sell_entry fill amounts = record {
  account_id = fill.seller_account_id;
  event_id = fill.trade_id;
  operation = "spot_trade_sell";
  delta_available_quote = amounts.notional -ℤ amounts.seller_fee;
  delta_frozen_quote = pos 0;
  delta_available_base = pos 0;
  delta_frozen_base = neg_ℤ fill.quantity;
  delta_base_cost = neg_ℤ amounts.seller_cost_released;
  delta_realized_pnl = amounts.seller_realized_pnl;
  timestamp_ms = fill.timestamp_ms;
}

unfoldable pub append_settlement_journal :
    TradeFill → SettlementAmounts → ClearingSystem → ClearingSystem
append_settlement_journal fill amounts s =
    append_journal (sell_entry fill amounts) (append_journal (buy_entry fill amounts) s)

unfoldable pub enqueue_settlement_outbox : TradeFill → ClearingSystem → ClearingSystem
enqueue_settlement_outbox fill s = record s {
  outbox =
      append_message
        (record {
          id = fill.trade_id;
          topic = "clearing.settlement";
          payload = fill.symbol <> ":" <> fill.buyer_account_id <> ":" <> fill.seller_account_id;
          state = pending;
        })
        s.outbox;
}

abbrev pub bought : TradeFill → SettlementAmounts → AccountSnapshot → AccountSnapshot
bought fill amounts buyer = record buyer {
  frozen_quote = buyer.frozen_quote -ℤ amounts.buyer_consumed_quote;
  available_base = buyer.available_base +ℤ fill.quantity;
  base_cost = buyer.base_cost +ℤ amounts.buyer_consumed_quote;
}

abbrev pub sold : TradeFill → SettlementAmounts → AccountSnapshot → AccountSnapshot
sold fill amounts seller = record seller {
  frozen_base = seller.frozen_base -ℤ amounts.seller_consumed_base;
  available_quote = seller.available_quote +ℤ (amounts.notional -ℤ amounts.seller_fee);
  base_cost = seller.base_cost -ℤ amounts.seller_cost_released;
  realized_pnl = seller.realized_pnl +ℤ amounts.seller_realized_pnl;
}

-- The tests after the look-ups, in their order.
unfoldable pub settlement_checks :
    TradeFill → SettlementAmounts → AccountSnapshot → AccountSnapshot → Holds → ClearingStatus
settlement_checks fill amounts buyer seller holds =
    let balance_check =
      validate_balance_coverage buyer seller amounts.buyer_consumed_quote
        amounts.seller_consumed_base in
    if not (settled_ok balance_check)
    then balance_check
    else validate_hold_coverage fill amounts.buyer_consumed_quote amounts.seller_consumed_base holds

-- The update of the two accounts, which may be one: the seller is read again after the buyer.
unfoldable pub settle_accounts :
    TradeFill → SettlementAmounts → AccountSnapshot → ClearingSystem → Option ClearingSystem
settle_accounts fill amounts buyer s =
    let accounts = insert fill.buyer_account_id (bought fill amounts buyer) s.accounts in
    elim (lookup fill.seller_account_id accounts) [
      | none ↦ none
      | some seller ↦ some (record s {
        accounts = insert fill.seller_account_id (sold fill amounts seller) accounts;
      })
    ]

unfoldable pub settle_holds : TradeFill → SettlementAmounts → Holds → Option Holds
settle_holds fill amounts holds =
    elim (consume_hold_amount fill.buyer_hold_id amounts.buyer_consumed_quote holds) [
      | none ↦ none
      | some holds' ↦ consume_hold_amount fill.seller_hold_id amounts.seller_consumed_base holds'
    ]

-- The code after the last check.
unfoldable pub apply_settlement :
    TradeFill
    → SettlementAmounts
    → AccountSnapshot
    → ClearingSystem
    → Option (ClearingSystem × SettlementResult)
apply_settlement fill amounts buyer s = elim (settle_accounts fill amounts buyer s) [
  | none ↦ none
  | some s' ↦ elim (settle_holds fill amounts s'.holds) [
    | none ↦ none
    | some holds ↦
        let s'' =
          enqueue_settlement_outbox fill
            (append_settlement_journal fill amounts (record s' { holds = holds })) in
        some (
          record s'' { settled_trade_ids = insert fill.trade_id tt s''.settled_trade_ids },
          record {
            status = applied;
            notional = amounts.notional;
            buyer_fee = amounts.buyer_fee;
            seller_fee = amounts.seller_fee;
            seller_realized_pnl = amounts.seller_realized_pnl;
          },
        )
  ]
]

abbrev pub settle_known :
    Fpu
    → TradeFill
    → FeeSchedule
    → AccountSnapshot
    → AccountSnapshot
    → ClearingSystem
    → Option (ClearingSystem × SettlementResult)
settle_known fpu fill fee_schedule buyer seller s =
    if not (has_valid_trade_fill fill)
    then some (s, only_status invalid_input)
    else let amounts = calculate_settlement_amounts fpu fill fee_schedule seller in
      let check = settlement_checks fill amounts buyer seller s.holds in
      if not (settled_ok check)
      then some (s, only_status check)
      else apply_settlement fill amounts buyer s

unfoldable pub settle_spot_trade :
    Fpu → TradeFill → FeeSchedule → ClearingSystem → Option (ClearingSystem × SettlementResult)
settle_spot_trade fpu fill fee_schedule s =
    if contains fill.trade_id s.settled_trade_ids
    then some (s, only_status duplicate)
    else elim (lookup fill.buyer_account_id s.accounts) [
      | none ↦ some (s, only_status account_not_found)
      | some buyer ↦ elim (lookup fill.seller_account_id s.accounts) [
        | none ↦ some (s, only_status account_not_found)
        | some seller ↦ settle_known fpu fill fee_schedule buyer seller s
      ]
    ]
