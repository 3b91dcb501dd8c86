-- ===== src/Clearing/Messages.antt =====
-- core-exchange/account-clearing-system/account_clearing_system.cpp: the names of the statuses.
use collections.Prelude.{Bool, true, false}
use collections.Clearing.Types.{
  ClearingStatus, applied, duplicate, invalid_input, account_not_found, hold_already_exists,
  hold_not_found, insufficient_quote_balance, insufficient_base_position,
  buyer_frozen_quote_insufficient, seller_frozen_base_insufficient, buyer_hold_insufficient,
  seller_hold_insufficient, outbox_message_not_found, invariant_violation,
}
use Prim.Native.String.{String}

-- `ClearingOperationResult::ok`
abbrev pub operation_ok : ClearingStatus → Bool
operation_ok applied = true
operation_ok _ = false

unfoldable pub status_message : ClearingStatus → String
status_message applied = "applied"
status_message duplicate = "duplicate"
status_message invalid_input = "invalid_input"
status_message account_not_found = "account_not_found"
status_message hold_already_exists = "hold_already_exists"
status_message hold_not_found = "hold_not_found"
status_message insufficient_quote_balance = "insufficient_quote_balance"
status_message insufficient_base_position = "insufficient_base_position"
status_message buyer_frozen_quote_insufficient = "buyer_frozen_quote_insufficient"
status_message seller_frozen_base_insufficient = "seller_frozen_base_insufficient"
status_message buyer_hold_insufficient = "buyer_hold_insufficient"
status_message seller_hold_insufficient = "seller_hold_insufficient"
status_message outbox_message_not_found = "outbox_message_not_found"
status_message invariant_violation = "invariant_violation"
