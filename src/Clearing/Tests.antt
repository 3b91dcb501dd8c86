-- ===== src/Clearing/Tests.antt =====
-- The theorems of the clearing system at concrete values.
use collections.Prelude.{◌≡◌, refl, true, false, some, Option, none, ◌⊎◌}
use collections.Prelude.Int.{ℤ, pos, ◌+ℤ◌, ◌-ℤ◌, neg_ℤ}
use collections.Prelude.Dict.{lookup, insert, erase}
use collections.Prelude.Double.{Fpu, whole, epsilon}
use collections.Clearing.Types.{
  AccountSnapshot, FeeSchedule, TradeFill, ClearingSystem, SettlementResult, quote, empty_system,
  only_status, duplicate, applied, ClearingStatus,
}
use collections.Clearing.Amounts.{is_zero, fee_amount, calculate_settlement_amounts}
use collections.Consistency.Outbox.{append_message}
use collections.Clearing.Holds.{
  upsert_account, append_journal, journal_of, freeze_quote, freeze_base, release_hold,
}
use collections.Clearing.Settle.{
  settle_spot_trade, has_valid_trade_fill, settlement_checks, validate_balance_coverage,
  validate_hold_coverage, covers, apply_settlement, settle_accounts, settle_holds,
  consume_hold_amount, append_settlement_journal, enqueue_settlement_outbox,
}
use collections.Clearing.Journal.{Explained}
use collections.Clearing.Explained.{
  freeze_quote-Explained, freeze_base-Explained, release_hold-Explained,
}
use collections.Clearing.SettlementJournal.{settle_spot_trade-Explained, settle_spot_trade_once}
use collections.Clearing.Outcome.{is_applied}
use collections.Clearing.Contract.{Settleable, Settled}
use collections.Clearing.Settled.{settle_spot_trade-outcome}
use collections.Clearing.Release.{freeze, release_hold-freeze, GivenBack}

-- A processor for the tests: any price times any quantity is 20, and a quotient is 1.
abbrev test_fpu : Fpu
test_fpu = record { mul = λ a b. pos 20; div = λ a b. pos 1 }

abbrev holding : ℤ → ℤ → AccountSnapshot
holding cash coins = record {
  available_quote = cash;
  frozen_quote = pos 0;
  available_base = coins;
  frozen_base = pos 0;
  base_cost = pos 0;
  realized_pnl = pos 0;
}

abbrev two_accounts : ClearingSystem
two_accounts =
    upsert_account "b" (holding (pos 100) (pos 0))
      (upsert_account "s" (holding (pos 0) (pos 9)) empty_system)

abbrev with_quote_hold : ClearingSystem
with_quote_hold = (freeze_quote "b" "hb" (pos 50) (pos 1) two_accounts).0

abbrev with_holds : ClearingSystem
with_holds = (freeze_base "s" "hs" (pos 5) (pos 2) with_quote_hold).0

abbrev test_fill : TradeFill
test_fill = record {
  trade_id = "t1";
  symbol = "X";
  buyer_account_id = "b";
  seller_account_id = "s";
  buyer_hold_id = "hb";
  seller_hold_id = "hs";
  price = pos 10;
  quantity = pos 2;
  buyer_is_taker = true;
  timestamp_ms = pos 3;
}

abbrev test_fees : FeeSchedule
test_fees = record { maker_fee_bps = pos 1; taker_fee_bps = pos 2 }

abbrev result_or : Option (ClearingSystem × SettlementResult) → ClearingSystem × SettlementResult
result_or o = elim o [ some r ↦ r | none ↦ (empty_system, only_status duplicate) ]

abbrev test_outcome : ClearingSystem × SettlementResult
test_outcome = result_or (settle_spot_trade test_fpu test_fill test_fees with_holds)

freeze_quote-Explained_example : Explained two_accounts with_quote_hold
freeze_quote-Explained_example = freeze_quote-Explained "b" "hb" (pos 50) (pos 1) two_accounts

freeze_base-Explained_example : Explained with_quote_hold with_holds
freeze_base-Explained_example = freeze_base-Explained "s" "hs" (pos 5) (pos 2) with_quote_hold

release_hold-Explained_example : Explained with_holds (release_hold "hb" (pos 4) with_holds).0
release_hold-Explained_example = release_hold-Explained "hb" (pos 4) with_holds

settle_spot_trade-Explained_example :
    (r : ClearingSystem × SettlementResult) × (settle_spot_trade test_fpu test_fill test_fees
        with_holds
      ≡ some r)
    × Explained with_holds r.0
settle_spot_trade-Explained_example =
    settle_spot_trade-Explained test_fpu test_fill test_fees with_holds

settle_spot_trade-outcome_example :
    ((status : ClearingStatus) × (settle_spot_trade test_fpu test_fill test_fees with_holds
        ≡ some (with_holds, only_status status))
      × (is_applied status ≡ false)
      × ¬ Settleable test_fpu test_fill test_fees with_holds)
    ⊎ ((able : Settleable test_fpu test_fill test_fees with_holds) × (s' : ClearingSystem)
        × (result : SettlementResult) × (settle_spot_trade test_fpu test_fill test_fees with_holds
            ≡ some (s', result))
        × Settled test_fpu test_fill test_fees able.seller with_holds s' result)
settle_spot_trade-outcome_example =
    settle_spot_trade-outcome test_fpu test_fill test_fees with_holds

test_settles : settle_spot_trade test_fpu test_fill test_fees with_holds ≡ some test_outcome
unfolding settle_spot_trade freeze_base freeze_quote lookup upsert_account insert empty_system
    append_journal has_valid_trade_fill settlement_checks validate_balance_coverage ◌+ℤ◌
    calculate_settlement_amounts validate_hold_coverage covers apply_settlement settle_accounts
    settle_holds consume_hold_amount is_zero fee_amount journal_of append_settlement_journal
    enqueue_settlement_outbox append_message erase epsilon whole neg_ℤ ◌-ℤ◌
test_settles = refl

test_settles_applied : is_applied test_outcome.1.status ≡ true
unfolding settle_spot_trade freeze_base freeze_quote lookup upsert_account insert empty_system
    append_journal has_valid_trade_fill settlement_checks validate_balance_coverage ◌+ℤ◌
    calculate_settlement_amounts validate_hold_coverage covers apply_settlement settle_accounts
    settle_holds consume_hold_amount is_zero fee_amount journal_of append_settlement_journal
    enqueue_settlement_outbox append_message erase epsilon whole neg_ℤ ◌-ℤ◌
test_settles_applied = refl

settle_spot_trade_once_example :
    settle_spot_trade test_fpu test_fill test_fees test_outcome.0
    ≡ some (test_outcome.0, only_status duplicate)
settle_spot_trade_once_example =
    settle_spot_trade_once test_fpu test_fill test_fill test_fees test_fees with_holds test_outcome
      test_settles test_settles_applied refl

test_freezes : is_applied (freeze quote "b" "hb" (pos 50) (pos 1) two_accounts).1 ≡ true
unfolding settle_spot_trade freeze_base freeze_quote lookup upsert_account insert empty_system
    append_journal has_valid_trade_fill settlement_checks validate_balance_coverage ◌+ℤ◌
    calculate_settlement_amounts validate_hold_coverage covers apply_settlement settle_accounts
    settle_holds consume_hold_amount is_zero fee_amount journal_of append_settlement_journal
    enqueue_settlement_outbox append_message erase epsilon whole neg_ℤ ◌-ℤ◌
test_freezes = refl

release_hold-freeze_example :
    ((release_hold "hb" (pos 4) with_quote_hold).1 ≡ applied)
    × GivenBack quote "b" (pos 50) two_accounts (release_hold "hb" (pos 4) with_quote_hold).0
release_hold-freeze_example =
    release_hold-freeze quote "b" "hb" (pos 50) (pos 1) (pos 4) two_accounts test_freezes
