-- ===== src/Consistency/Tests.antt =====
-- The theorems of the outbox and the wallet at concrete values.
use collections.Consistency.Outbox.{
  OutboxState, pending, dispatched, OutboxMessage, OutboxStore, pending_batch,
}
use collections.Consistency.Batches.{pending_batch-take, pending_batch-zero}
use collections.Consistency.Saga.{SagaStep, success, permanent_failure, execute_saga}
use collections.Consistency.SagaLaws.{Ended, execute_saga-Ended}
use Prim.Native.String.{String}
use collections.Prelude.{
  ℕ, ◌+◌, ◌-◌, ◌≤◌, leb, if◌then◌else◌, ◌≡◌, refl, true, false, List, [], ◌∷◌, arith,
}
use collections.Prelude.Int.{pos, ◌+ℤ◌, ◌-ℤ◌, ◌≤ℤ◌, leb_ℤ, ≤ℤ→leb_ℤ}
use collections.Prelude.Dict.{lookup, insert, emplace}
use collections.Consistency.Wallet.{TccWallet, make_wallet, try_reserve, confirm, cancel}
use collections.Consistency.WalletLaws.{
  WalletCall, reserve_call, confirm_call, cancel_call, call_all, Balanced,
}
use collections.Consistency.WalletRuns.{call_all-Balanced}
use collections.Prelude.Double.{Sums, exact, IsExactOn}
use collections.Consistency.WalletEnds.{by_confirm, confirm_or_cancel}

-- An outbox with a message that was dispatched between two that wait.
abbrev message : String → OutboxState → OutboxMessage
message id state = record { id = id; topic = "t"; payload = "p"; state = state }

abbrev test_outbox : OutboxStore
test_outbox = message "2" dispatched ∷ message "3" pending ∷ message "4" pending ∷ []

one_le_two : 1 ≤ 2
one_le_two = omega arith

pending_batch-take_example :
    pending_batch 2 test_outbox ≡ message "3" pending ∷ message "4" pending ∷ []
pending_batch-take_example = pending_batch-take 2 test_outbox one_le_two

pending_batch-zero_example :
    pending_batch 0 (message "1" pending ∷ test_outbox)
    ≡ message "1" pending ∷ message "3" pending ∷ message "4" pending ∷ []
pending_batch-zero_example = pending_batch-zero (message "1" pending) test_outbox refl

-- A step that adds its number to the context, and takes it back; from 3 on it fails.
abbrev adding : String → ℕ → SagaStep ℕ
adding name n = record {
  name = name;
  action = λ total. (total + n, if leb 3 n then permanent_failure else success);
  compensation = λ total. total - n;
}

abbrev test_saga : List (SagaStep ℕ)
test_saga = adding "a" 1 ∷ adding "b" 2 ∷ adding "c" 3 ∷ adding "d" 1 ∷ []

execute_saga-Ended_example : Ended test_saga 0 (execute_saga test_saga 0)
execute_saga-Ended_example = execute_saga-Ended test_saga 0

abbrev test_calls : List WalletCall
test_calls =
    reserve_call "a" (pos 30)
    ∷ reserve_call "b" (pos 20)
    ∷ confirm_call "a"
    ∷ cancel_call "b"
    ∷ cancel_call "a"
    ∷ []

not_negative : pos 0 ≤ℤ pos 100
not_negative = omega arith

-- A processor that has no number above 100.
abbrev small : Sums
small = record {
  add = λ a b. if leb_ℤ (a +ℤ b) (pos 100) then a +ℤ b else pos 100;
  sub = λ a b. a -ℤ b;
}

small-IsExactOn : IsExactOn small (λ a. Unit) (pos 100)
small-IsExactOn = record {
  zero_ok = tt;
  add_ok = λ a b g h p q r. (rw (≤ℤ→leb_ℤ (a +ℤ b) (pos 100) r) refl, tt);
  sub_ok = λ a b g h p q r. (refl, tt);
}

call_all-Balanced_example : Balanced (pos 100) (call_all small test_calls (make_wallet (pos 100)))
call_all-Balanced_example =
    call_all-Balanced (λ a. Unit) small test_calls (pos 100) small-IsExactOn tt
      (tt, (tt, (tt, (tt, (tt, tt))))) not_negative

abbrev test_wallet : TccWallet
test_wallet = (try_reserve exact "a" (pos 30) (make_wallet (pos 100))).0

test_confirms : (confirm exact "a" test_wallet).1 ≡ true
unfolding confirm try_reserve make_wallet lookup insert emplace ◌-ℤ◌ ◌+ℤ◌
test_confirms = refl

confirm_or_cancel_example :
    cancel exact "a" (confirm exact "a" test_wallet).0 ≡ ((confirm exact "a" test_wallet).0, false)
confirm_or_cancel_example = confirm_or_cancel by_confirm exact "a" test_wallet test_confirms
