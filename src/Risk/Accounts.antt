-- ===== src/Risk/Accounts.antt =====
-- core-exchange/pre-trade-risk-engine: the key of an account does not tell the user from the symbol.
use collections.Prelude.{◌≡◌, refl, ◌∙◌, ap, some, string_eq}
use collections.Prelude.Dict.{lookup, lookup-insert_self}
use collections.Prelude.Text.{◌<>◌}
use collections.Risk.Types.{AccountRiskState, RiskEngine, RiskRequest}
use collections.Risk.Markets.{account_key, set_account_state}
use collections.Risk.Evaluate.{account_of}
use text.Mathlib.TextLemmas.{append_assoc}
use Prim.Native.String.{String}

account_key-shift : (u v s : String) → account_key (u <> "|" <> v) s ≡ account_key u (v <> "|" <> s)
unfolding account_key
account_key-shift u v s =
    append_assoc u ("|" <> v) ("|" <> s) ∙ ap (λ x. u <> x) (append_assoc "|" v ("|" <> s))

-- The state of the account of one user for one symbol is taken for that of another user for another
-- symbol: for `u`, `v` and `s`, what is set for the user `u` on the symbol `v|s` is what an order
-- of the user `u|v` on the symbol `s` is checked against.
pub set_account_state-collides :
    (u v s : String) (state : AccountRiskState) (r : RiskEngine) (request : RiskRequest)
    → request.user_id ≡ u <> "|" <> v
    → request.symbol ≡ s
    → account_of request (set_account_state u (v <> "|" <> s) state r) ≡ state
unfolding account_of set_account_state
set_account_state-collides u v s state r request user symbol =
    let one_key : account_key request.user_id request.symbol ≡ account_key u (v <> "|" <> s) =
      cc (user, symbol, account_key-shift u v s) in
    let found : lookup (account_key request.user_id request.symbol)
          (set_account_state u (v <> "|" <> s) state r).risk_accounts
        ≡ some state =
      ap (λ k. lookup k (set_account_state u (v <> "|" <> s) state r).risk_accounts) one_key
      ∙ lookup-insert_self (account_key u (v <> "|" <> s)) state r.risk_accounts in
    rw (found, account_of) refl
