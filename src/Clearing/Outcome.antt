-- ===== src/Clearing/Outcome.antt =====
-- core-exchange/account-clearing-system: the two ways a settlement ends, refused without a trace or
-- applied in full.
use collections.Prelude.{
  ◌≡◌, refl, Bool, true, false, Bool-cases, some, Option-cases, string_eq, ◌==◌, ◌⊎◌, inl, inr,
}
use collections.Prelude.Int.{ltb_ℤ}
use collections.Prelude.Dict.{lookup, insert, contains, lookup-insert}
use collections.Prelude.Double.{Fpu}
use collections.Clearing.Types.{
  AccountSnapshot, Accounts, ClearingStatus, applied, duplicate, invalid_input, account_not_found,
  FeeSchedule, TradeFill, SettlementResult, only_status, settled_ok, Holds, ClearingSystem,
}
use collections.Clearing.Amounts.{SettlementAmounts, calculate_settlement_amounts}
use collections.Clearing.Settle.{
  has_valid_trade_fill, validate_balance_coverage, validate_hold_coverage, settlement_checks,
  covers, is_quote, is_base, settle_holds, settle_accounts, append_settlement_journal,
  enqueue_settlement_outbox, apply_settlement, settle_spot_trade, bought, sold,
}
use collections.Clearing.Coverage.{Found, covers-Found, settle_holds_defined}
use Prim.Native.String.{String}

abbrev pub is_applied : ClearingStatus → Bool
is_applied applied = true
is_applied _ = false

-- The state and the result that an applied settlement leaves, with the seller as read after the
-- buyer is written.
abbrev pub settled_state :
    TradeFill
    → SettlementAmounts
    → AccountSnapshot
    → AccountSnapshot
    → Holds
    → ClearingSystem
    → ClearingSystem
settled_state fill amounts buyer seller holds s =
    let s'' = enqueue_settlement_outbox fill (
      append_settlement_journal fill amounts (record s {
        accounts =
            insert fill.seller_account_id (sold fill amounts seller)
              (insert fill.buyer_account_id (bought fill amounts buyer) s.accounts);
        holds = holds;
      })) in
    record s'' { settled_trade_ids = insert fill.trade_id tt s''.settled_trade_ids }

abbrev pub settled_result : SettlementAmounts → SettlementResult
settled_result amounts = record {
  status = applied;
  notional = amounts.notional;
  buyer_fee = amounts.buyer_fee;
  seller_fee = amounts.seller_fee;
  seller_realized_pnl = amounts.seller_realized_pnl;
}

-- What an applied settlement found and did.
pub record SettlementApplied (fpu : Fpu) (fill : TradeFill) (fees : FeeSchedule)
    (s : ClearingSystem) : Type 0 where
  pub buyer : AccountSnapshot
  pub seller : AccountSnapshot
  pub seller' : AccountSnapshot
  pub holds' : Holds
  pub fresh : contains fill.trade_id s.settled_trade_ids ≡ false
  pub valid : has_valid_trade_fill fill ≡ true
  pub checked :
      settlement_checks fill
        (calculate_settlement_amounts fpu fill fees seller)
        buyer
        seller
        s.holds
      ≡ applied
  pub consumed :
      settle_holds fill (calculate_settlement_amounts fpu fill fees seller) s.holds ≡ some holds'
  pub buyer_found : lookup fill.buyer_account_id s.accounts ≡ some buyer
  pub seller_found : lookup fill.seller_account_id s.accounts ≡ some seller
  pub seller_again :
      lookup fill.seller_account_id (
        insert fill.buyer_account_id
          (bought fill (calculate_settlement_amounts fpu fill fees seller) buyer)
          s.accounts)
      ≡ some seller'
  pub quote_covered :
      ltb_ℤ buyer.frozen_quote
        (calculate_settlement_amounts fpu fill fees seller).buyer_consumed_quote
      ≡ false
  pub base_covered :
      ltb_ℤ seller.frozen_base
        (calculate_settlement_amounts fpu fill fees seller).seller_consumed_base
      ≡ false
  pub runs :
      settle_spot_trade fpu fill fees s
      ≡ some (
        settled_state fill
            (calculate_settlement_amounts fpu fill fees seller)
            buyer
            seller'
            holds'
            s,
        settled_result (calculate_settlement_amounts fpu fill fees seller),
      )

abbrev pub SettlementRefused : Fpu → TradeFill → FeeSchedule → ClearingSystem → Type 0
SettlementRefused fpu fill fees s =
    (status : ClearingStatus) × (settle_spot_trade fpu fill fees s ≡ some (s, only_status status))
    × (is_applied status ≡ false)

-- An account that is there is there after another is written.
lookup-insert-some :
    (k j : String) (v w : AccountSnapshot) (d : Accounts)
    → lookup j d ≡ some w
    → (w' : AccountSnapshot) × (lookup j (insert k v d) ≡ some w')
lookup-insert-some k j v w d h = elim (Bool-cases (k == j)) [
  | inl e ↦ (v, rw (lookup-insert k j v d, e) refl)
  | inr e ↦ (w, rw (lookup-insert k j v d, e) h)
]

apply_settlement_lem :
    (fill : TradeFill) (amounts : SettlementAmounts) (buyer seller' : AccountSnapshot)
    (holds' : Holds) (s : ClearingSystem)
    → lookup fill.seller_account_id
        (insert fill.buyer_account_id (bought fill amounts buyer) s.accounts)
      ≡ some seller'
    → settle_holds fill amounts s.holds ≡ some holds'
    → apply_settlement fill amounts buyer s
      ≡ some (settled_state fill amounts buyer seller' holds' s, settled_result amounts)
unfolding apply_settlement settle_accounts
apply_settlement_lem fill amounts buyer seller' holds' s h k =
    rw (h, k, apply_settlement, settle_accounts) refl

abbrev pub Passed :
    TradeFill → SettlementAmounts → AccountSnapshot → AccountSnapshot → Holds → Type 0
Passed fill amounts buyer seller holds =
    (ltb_ℤ buyer.frozen_quote amounts.buyer_consumed_quote ≡ false)
    × (ltb_ℤ seller.frozen_base amounts.seller_consumed_base ≡ false)
    × Found fill.buyer_hold_id is_quote holds
    × Found fill.seller_hold_id is_base holds
    × (settlement_checks fill amounts buyer seller holds ≡ applied)

pub checks-cases :
    (fill : TradeFill) (amounts : SettlementAmounts) (buyer seller : AccountSnapshot)
    (holds : Holds)
    → ((settled_ok (settlement_checks fill amounts buyer seller holds) ≡ false)
        × (is_applied (settlement_checks fill amounts buyer seller holds) ≡ false))
      ⊎ Passed fill amounts buyer seller holds
unfolding settlement_checks validate_balance_coverage validate_hold_coverage
checks-cases fill amounts buyer seller holds =
    let quote_test = Bool-cases (ltb_ℤ buyer.frozen_quote amounts.buyer_consumed_quote) in
    let base_test = Bool-cases (ltb_ℤ seller.frozen_base amounts.seller_consumed_base) in
    let buyer_test = Bool-cases (
      covers fill.buyer_hold_id fill.buyer_account_id is_quote amounts.buyer_consumed_quote
        holds) in
    let seller_test = Bool-cases (
      covers fill.seller_hold_id fill.seller_account_id is_base amounts.seller_consumed_base
        holds) in
    elim quote_test [
      | inl p ↦ inl (rw (p) (refl, refl))
      | inr p ↦ elim base_test [
        | inl q ↦ inl (rw (p, q) (refl, refl))
        | inr q ↦ elim buyer_test [
          | inr b ↦ inl (rw (p, q, b) (refl, refl))
          | inl b ↦ elim seller_test [
            | inr t ↦ inl (rw (p, q, b, t) (refl, refl))
            | inl t ↦ inr (
              p,
              q,
              covers-Found fill.buyer_hold_id fill.buyer_account_id is_quote
                  amounts.buyer_consumed_quote holds b,
              covers-Found fill.seller_hold_id fill.seller_account_id is_base
                  amounts.seller_consumed_base holds t,
              rw (p, q, b, t) refl,
            )
          ]
        ]
      ]
    ]

pub known_applied :
    (fpu : Fpu) (fill : TradeFill) (fees : FeeSchedule) (s : ClearingSystem)
    (buyer seller : AccountSnapshot)
    → contains fill.trade_id s.settled_trade_ids ≡ false
    → lookup fill.buyer_account_id s.accounts ≡ some buyer
    → lookup fill.seller_account_id s.accounts ≡ some seller
    → has_valid_trade_fill fill ≡ true
    → Passed fill (calculate_settlement_amounts fpu fill fees seller) buyer seller s.holds
    → SettlementApplied fpu fill fees s
unfolding settle_spot_trade
known_applied fpu fill fees s buyer seller c b l v (p, q, x, y, ok) =
    let amounts = calculate_settlement_amounts fpu fill fees seller in
    let again =
      lookup-insert-some fill.buyer_account_id fill.seller_account_id (bought fill amounts buyer)
        seller s.accounts l in
    let holds' = settle_holds_defined fill amounts s.holds x y in
    record {
      buyer = buyer;
      seller = seller;
      seller' = again.0;
      holds' = holds'.0;
      fresh = c;
      valid = v;
      checked = ok;
      consumed = holds'.1;
      buyer_found = b;
      seller_found = l;
      seller_again = again.1;
      quote_covered = p;
      base_covered = q;
      runs =
          rw (c, b, l, v, ok, settle_spot_trade)
            (apply_settlement_lem fill amounts buyer again.0 holds'.0 s again.1 holds'.1);
    }

-- It refuses and leaves the system as it was, or it has checked and settled the trade.
pub settle_spot_trade_cases :
    (fpu : Fpu) (fill : TradeFill) (fees : FeeSchedule) (s : ClearingSystem)
    → SettlementRefused fpu fill fees s ⊎ SettlementApplied fpu fill fees s
unfolding settle_spot_trade
settle_spot_trade_cases fpu fill fees s =
    elim (Bool-cases (contains fill.trade_id s.settled_trade_ids)) [
      | inl c ↦ inl (duplicate, rw (c, settle_spot_trade) refl, refl)
      | inr c ↦ elim (Option-cases (lookup fill.buyer_account_id s.accounts)) [
        | inl b ↦ inl (account_not_found, rw (c, b, settle_spot_trade) refl, refl)
        | inr b ↦ elim (Option-cases (lookup fill.seller_account_id s.accounts)) [
          | inl l ↦ inl (account_not_found, rw (c, b.1, l, settle_spot_trade) refl, refl)
          | inr l ↦ elim (Bool-cases (has_valid_trade_fill fill)) [
            | inr v ↦ inl (invalid_input, rw (c, b.1, l.1, v, settle_spot_trade) refl, refl)
            | inl v ↦
                let amounts = calculate_settlement_amounts fpu fill fees l.0 in
                elim (checks-cases fill amounts b.0 l.0 s.holds) [
                  | inl r ↦ inl (
                    settlement_checks fill amounts b.0 l.0 s.holds,
                    rw (c, b.1, l.1, v, r.0, settle_spot_trade) refl,
                    r.1,
                  )
                  | inr p ↦ inr (known_applied fpu fill fees s b.0 l.0 c b.1 l.1 v p)
                ]
          ]
        ]
      ]
    ]

-- No hold or account that a settlement follows is missing.
pub settle_spot_trade-returns :
    (fpu : Fpu) (fill : TradeFill) (fees : FeeSchedule) (s : ClearingSystem)
    → (r : ClearingSystem × SettlementResult) × (settle_spot_trade fpu fill fees s ≡ some r)
settle_spot_trade-returns fpu fill fees s = elim (settle_spot_trade_cases fpu fill fees s) [
  | inl (status, run, refused) ↦ ((s, only_status status), run)
  | inr a ↦ (_, a.runs)
]
