-- ===== src/Clearing/Amounts.antt =====
-- core-exchange/account-clearing-system/account_clearing_system.cpp: the amounts of a settlement.
-- Products and quotients are the processor's.
use collections.Prelude.{Bool, if◌then◌else◌}
use collections.Prelude.Int.{ℤ, pos, ◌+ℤ◌, ◌-ℤ◌, neg_ℤ, ltb_ℤ, leb_ℤ}
use collections.Prelude.{◌&&◌}
use collections.Prelude.Double.{Fpu, whole, epsilon}
use collections.Clearing.Types.{AccountSnapshot, FeeSchedule, TradeFill}

pub record SettlementAmounts : Type 0 where
  pub notional : ℤ
  pub buyer_fee : ℤ
  pub seller_fee : ℤ
  pub buyer_consumed_quote : ℤ
  pub seller_consumed_base : ℤ
  pub seller_cost_released : ℤ
  pub seller_realized_pnl : ℤ

unfoldable pub fee_amount : Fpu → ℤ → ℤ → ℤ
fee_amount fpu notional fee_bps = fpu.div (fpu.mul notional fee_bps) (whole 10000)

unfoldable pub is_zero : ℤ → Bool
is_zero value = leb_ℤ (neg_ℤ epsilon) value && leb_ℤ value epsilon

unfoldable pub calculate_settlement_amounts :
    Fpu → TradeFill → FeeSchedule → AccountSnapshot → SettlementAmounts
unfolding fee_amount
calculate_settlement_amounts fpu fill fee_schedule seller =
    let notional = fpu.mul fill.price fill.quantity in
    let buyer_fee =
      fee_amount fpu notional
        (if fill.buyer_is_taker then fee_schedule.taker_fee_bps else fee_schedule.maker_fee_bps) in
    let seller_fee =
      fee_amount fpu notional
        (if fill.buyer_is_taker then fee_schedule.maker_fee_bps else fee_schedule.taker_fee_bps) in
    let seller_total_base_before = seller.available_base +ℤ seller.frozen_base in
    let seller_cost_per_unit =
      if ltb_ℤ (pos 0) seller_total_base_before
      then fpu.div seller.base_cost seller_total_base_before
      else pos 0 in
    let seller_cost_released = fpu.mul seller_cost_per_unit fill.quantity in
    record {
      notional = notional;
      buyer_fee = buyer_fee;
      seller_fee = seller_fee;
      buyer_consumed_quote = notional +ℤ buyer_fee;
      seller_consumed_base = fill.quantity;
      seller_cost_released = seller_cost_released;
      seller_realized_pnl = notional -ℤ seller_fee -ℤ seller_cost_released;
    }
