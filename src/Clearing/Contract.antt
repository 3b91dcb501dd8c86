-- ===== src/Clearing/Contract.antt =====
-- core-exchange/account-clearing-system: what a settlement promises, independently of its code.
use collections.Prelude.{
  ◌≡◌, true, Option, none, some, option_map, [], ◌∷◌, ◌++◌, if◌then◌else◌, string_eq, ◌==◌, ◌⊎◌,
}
use collections.Prelude.Int.{ℤ, pos, ◌+ℤ◌, ◌-ℤ◌, ◌≤ℤ◌, ◌<ℤ◌, ltb_ℤ, leb_ℤ}
use collections.Prelude.Dict.{lookup, contains}
use collections.Prelude.Double.{Fpu, whole, epsilon, fabs}
use collections.Prelude.Text.{◌<>◌}
use collections.Consistency.Outbox.{pending}
use collections.Clearing.Types.{
  HoldAsset, quote, base, AccountSnapshot, applied, FeeSchedule, TradeFill, SettlementResult,
  HoldRecord, Holds, ClearingSystem,
}
use Prim.Native.String.{String}

-- A hold that is named covers an amount: it is there, for the account and the asset.
abbrev pub HoldCovers : String → String → HoldAsset → ℤ → Holds → Type 0
HoldCovers hold_id account_id asset amount holds =
    (hold_id ≡ "")
    ⊎ ((hold : HoldRecord) × (lookup hold_id holds ≡ some hold)
        × (hold.account_id ≡ account_id)
        × (hold.asset ≡ asset)
        × (amount ≤ℤ hold.amount))

module _ (fpu : Fpu) (fill : TradeFill) (fees : FeeSchedule) where
  abbrev pub notional : ℤ
  notional = fpu.mul fill.price fill.quantity

  abbrev pub fee : ℤ → ℤ
  fee bps = fpu.div (fpu.mul notional bps) (whole 10000)

  -- The fee of the one who takes and of the one who makes.
  abbrev pub buyer_fee : ℤ
  buyer_fee = fee (if fill.buyer_is_taker then fees.taker_fee_bps else fees.maker_fee_bps)

  abbrev pub seller_fee : ℤ
  seller_fee = fee (if fill.buyer_is_taker then fees.maker_fee_bps else fees.taker_fee_bps)

  abbrev pub charge : ℤ
  charge = notional +ℤ buyer_fee

  -- What a trade needs to be settled.
  pub record Settleable (s : ClearingSystem) : Type 0 where
    pub buyer : AccountSnapshot
    pub seller : AccountSnapshot
    pub fresh : lookup fill.trade_id s.settled_trade_ids ≡ none
    pub buyer_found : lookup fill.buyer_account_id s.accounts ≡ some buyer
    pub seller_found : lookup fill.seller_account_id s.accounts ≡ some seller
    pub price_ok : pos 0 <ℤ fill.price
    pub quantity_ok : pos 0 <ℤ fill.quantity
    pub time_ok : pos 0 <ℤ fill.timestamp_ms
    pub quote_ok : charge ≤ℤ buyer.frozen_quote
    pub base_ok : fill.quantity ≤ℤ seller.frozen_base
    pub buyer_hold_ok : HoldCovers fill.buyer_hold_id fill.buyer_account_id quote charge s.holds
    pub seller_hold_ok :
        HoldCovers fill.seller_hold_id fill.seller_account_id base fill.quantity s.holds

  -- The cost of what the seller gives away.
  abbrev pub cost : AccountSnapshot → ℤ
  cost seller =
      let position = seller.available_base +ℤ seller.frozen_base in
      fpu.mul (if ltb_ℤ (pos 0) position then fpu.div seller.base_cost position else pos 0)
        fill.quantity

  abbrev pub profit : AccountSnapshot → ℤ
  profit seller = notional -ℤ seller_fee -ℤ cost seller

  abbrev pub charged : AccountSnapshot → AccountSnapshot
  charged a = record {
    available_quote = a.available_quote;
    frozen_quote = a.frozen_quote -ℤ charge;
    available_base = a.available_base +ℤ fill.quantity;
    frozen_base = a.frozen_base;
    base_cost = a.base_cost +ℤ charge;
    realized_pnl = a.realized_pnl;
  }

  abbrev pub paid : AccountSnapshot → AccountSnapshot → AccountSnapshot
  paid seller a = record {
    available_quote = a.available_quote +ℤ (notional -ℤ seller_fee);
    frozen_quote = a.frozen_quote;
    available_base = a.available_base;
    frozen_base = a.frozen_base -ℤ fill.quantity;
    base_cost = a.base_cost -ℤ cost seller;
    realized_pnl = a.realized_pnl +ℤ profit seller;
  }

  -- What the settlement makes of the account of an id.
  abbrev pub settled_account : AccountSnapshot → String → AccountSnapshot → AccountSnapshot
  settled_account seller id a =
      let b = if fill.buyer_account_id == id then charged a else a in
      if fill.seller_account_id == id then paid seller b else b

-- A hold of which an amount is spent is gone if no more than the tolerance is left.
abbrev pub reduced : ℤ → Option HoldRecord → Option HoldRecord
reduced amount none = none
reduced amount (some hold) =
    if leb_ℤ (fabs (hold.amount -ℤ amount)) epsilon
    then none
    else some (record hold { amount = hold.amount -ℤ amount })

-- The hold of an id, after an amount of a named hold is spent.
abbrev pub spent : String → ℤ → String → Option HoldRecord → Option HoldRecord
spent hold_id amount id hold =
    if hold_id == "" then hold else if hold_id == id then reduced amount hold else hold

-- What a settlement leaves and answers.
pub record Settled (fpu : Fpu) (fill : TradeFill) (fees : FeeSchedule) (seller : AccountSnapshot)
    (s s' : ClearingSystem) (result : SettlementResult) : Type 0 where
  pub status_eq : result.status ≡ applied
  pub notional_eq : result.notional ≡ notional fpu fill fees
  pub buyer_fee_eq : result.buyer_fee ≡ buyer_fee fpu fill fees
  pub seller_fee_eq : result.seller_fee ≡ seller_fee fpu fill fees
  pub profit_eq : result.seller_realized_pnl ≡ profit fpu fill fees seller
  pub accounts_eq :
      (id : String)
      → lookup id s'.accounts
        ≡ option_map (settled_account fpu fill fees seller id) (lookup id s.accounts)
  pub holds_eq :
      (id : String)
      → lookup id s'.holds
        ≡ spent fill.seller_hold_id fill.quantity id
            (spent fill.buyer_hold_id (charge fpu fill fees) id (lookup id s.holds))
  pub known : contains fill.trade_id s'.settled_trade_ids ≡ true
  pub told :
      s'.outbox
      ≡ s.outbox
        ++ (record {
          id = fill.trade_id;
          topic = "clearing.settlement";
          payload = fill.symbol <> ":" <> fill.buyer_account_id <> ":" <> fill.seller_account_id;
          state = pending;
        })
          ∷ []
