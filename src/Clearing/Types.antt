-- ===== src/Clearing/Types.antt =====
-- The types of core-exchange/account-clearing-system, and the state of the system. A journal entry
-- is never written again, so a pointer to one is kept as the entry.
use collections.Prelude.{Bool, true, false, List, []}
use collections.Prelude.Int.{ℤ, pos}
use collections.Prelude.Dict.{Dict}
use collections.Consistency.Outbox.{OutboxStore}
use Prim.Native.String.{String}

pub data HoldAsset : Type 0 where
  quote base : HoldAsset

pub record AccountSnapshot : Type 0 where
  pub available_quote : ℤ
  pub frozen_quote : ℤ
  pub available_base : ℤ
  pub frozen_base : ℤ
  pub base_cost : ℤ
  pub realized_pnl : ℤ

pub record FeeSchedule : Type 0 where
  pub maker_fee_bps : ℤ
  pub taker_fee_bps : ℤ

pub data ClearingStatus : Type 0 where
  applied duplicate invalid_input account_not_found hold_already_exists : ClearingStatus
  hold_not_found insufficient_quote_balance insufficient_base_position : ClearingStatus
  buyer_frozen_quote_insufficient seller_frozen_base_insufficient : ClearingStatus
  buyer_hold_insufficient seller_hold_insufficient outbox_message_not_found : ClearingStatus
  invariant_violation : ClearingStatus

pub record TradeFill : Type 0 where
  pub trade_id : String
  pub symbol : String
  pub buyer_account_id : String
  pub seller_account_id : String
  pub buyer_hold_id : String
  pub seller_hold_id : String
  pub price : ℤ
  pub quantity : ℤ
  pub buyer_is_taker : Bool
  pub timestamp_ms : ℤ

pub record SettlementResult : Type 0 where
  pub status : ClearingStatus
  pub notional : ℤ
  pub buyer_fee : ℤ
  pub seller_fee : ℤ
  pub seller_realized_pnl : ℤ

-- `SettlementResult{.status = …}`
abbrev pub only_status : ClearingStatus → SettlementResult
only_status s = record {
  status = s;
  notional = pos 0;
  buyer_fee = pos 0;
  seller_fee = pos 0;
  seller_realized_pnl = pos 0;
}

-- `SettlementResult::ok`
abbrev pub settled_ok : ClearingStatus → Bool
settled_ok applied = true
settled_ok duplicate = true
settled_ok _ = false

pub record JournalEntry : Type 0 where
  pub account_id : String
  pub event_id : String
  pub operation : String
  pub delta_available_quote : ℤ
  pub delta_frozen_quote : ℤ
  pub delta_available_base : ℤ
  pub delta_frozen_base : ℤ
  pub delta_base_cost : ℤ
  pub delta_realized_pnl : ℤ
  pub timestamp_ms : ℤ

pub record HoldRecord : Type 0 where
  pub account_id : String
  pub asset : HoldAsset
  pub amount : ℤ

abbrev pub Accounts : Type 0
Accounts = Dict String AccountSnapshot

abbrev pub Holds : Type 0
Holds = Dict String HoldRecord

pub record ClearingSystem : Type 0 where
  pub accounts : Accounts
  pub holds : Holds
  pub journals : Dict String (List JournalEntry)
  pub settled_trade_ids : Dict String (Unit {0})
  pub journal_storage : List JournalEntry
  pub outbox : OutboxStore

unfoldable pub empty_system : ClearingSystem
empty_system = record {
  accounts = [];
  holds = [];
  journals = [];
  settled_trade_ids = [];
  journal_storage = [];
  outbox = [];
}
