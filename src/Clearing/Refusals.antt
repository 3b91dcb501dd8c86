-- ===== src/Clearing/Refusals.antt =====
-- core-exchange/account-clearing-system: a freeze that is refused changes nothing.
use collections.Prelude.{◌≡◌, false, string_eq, arith}
use collections.Prelude.Int.{ℤ}
use collections.Clearing.Types.{ClearingSystem}
use collections.Clearing.Holds.{freeze_quote, freeze_base}
use collections.Clearing.Messages.{operation_ok}
use Prim.Native.String.{String}

pub freeze_quote-refused :
    (account_id hold_id : String) (amount timestamp_ms : ℤ) (s : ClearingSystem)
    → operation_ok (freeze_quote account_id hold_id amount timestamp_ms s).1 ≡ false
    → (freeze_quote account_id hold_id amount timestamp_ms s).0 ≡ s
unfolding freeze_quote
freeze_quote-refused account_id hold_id amount timestamp_ms s h = ground arith

pub freeze_base-refused :
    (account_id hold_id : String) (amount timestamp_ms : ℤ) (s : ClearingSystem)
    → operation_ok (freeze_base account_id hold_id amount timestamp_ms s).1 ≡ false
    → (freeze_base account_id hold_id amount timestamp_ms s).0 ≡ s
unfolding freeze_base
freeze_base-refused account_id hold_id amount timestamp_ms s h = ground arith
