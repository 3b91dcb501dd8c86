-- ===== src/MarketData/CandleLaws.antt =====
-- infrastructure/market-data-push-system/candle_aggregator.hpp: a candle sums up the trades of its
-- interval.
use collections.Prelude.{
  ◌≡◌, refl, sym, ap, subst, Option, none, some, List, [], ◌∷◌, ◌++◌, All, All-append, nat_eq,
  string_eq, map, arith, if_both,
}
use collections.Prelude.Int.{ℤ, pos, ◌≤ℤ◌, ◌+ℤ◌, ltb_ℤ, int_laws}
use collections.MarketData.Candles.{
  MarketTrade, Candle, CandleAggregator, max_ℤ, min_ℤ, new_candle, extend,
}
use Prim.Native.String.{String}
use mathlib.Core.List.{Memᴰ}
use mathlib.Core.List.Memᴰ

abbrev pub first_price : List MarketTrade → Option ℤ
first_price [] = none
first_price (trade ∷ trades) = some trade.price

abbrev pub last_price : List MarketTrade → Option ℤ
last_price [] = none
last_price (trade ∷ trades) = elim (last_price trades) [ none ↦ some trade.price | some p ↦ some p ]

abbrev pub prices : List MarketTrade → List ℤ
prices trades = map (λ (trade : MarketTrade). trade.price) trades

abbrev pub first_symbol : List MarketTrade → Option String
first_symbol [] = none
first_symbol (trade ∷ trades) = some trade.symbol

-- Quantities added up, one after the other.
abbrev pub volume_from : ℤ → List MarketTrade → ℤ
volume_from volume [] = volume
volume_from volume (trade ∷ trades) = volume_from (volume +ℤ trade.quantity) trades

abbrev pub traded_volume : List MarketTrade → ℤ
traded_volume [] = pos 0
traded_volume (trade ∷ trades) = volume_from trade.quantity trades

-- The candle says the symbol, the first, highest, lowest and last price, and the sum of the quantities
-- in the order of the trades.
pub record IsCandleOf (trades : List MarketTrade) (candle : Candle) : Type 0 where
  pub named : first_symbol trades ≡ some candle.symbol
  pub opened : first_price trades ≡ some candle.open_price
  pub closed : last_price trades ≡ some candle.close_price
  pub above : All (λ trade. trade.price ≤ℤ candle.high) trades
  pub below : All (λ trade. candle.low ≤ℤ trade.price) trades
  pub high_traded : Memᴰ candle.high (prices trades)
  pub low_traded : Memᴰ candle.low (prices trades)
  pub summed : candle.volume ≡ traded_volume trades

pub new_candle-IsCandleOf :
    (trade : MarketTrade) (c : CandleAggregator) → IsCandleOf (trade ∷ []) (new_candle trade c)
unfolding new_candle
new_candle-IsCandleOf trade c = record {
  named = refl;
  opened = refl;
  closed = refl;
  above = (omega arith, tt);
  below = (omega arith, tt);
  high_traded = Memᴰ.head refl;
  low_traded = Memᴰ.head refl;
  summed = refl;
}

first_price-append :
    (trades : List MarketTrade) (trade : MarketTrade) (price : ℤ)
    → first_price trades ≡ some price
    → first_price (trades ++ trade ∷ []) ≡ some price
first_price-append [] trade price h = absurd (cc h)
first_price-append (t ∷ trades) trade price h = h

last_price-append :
    (trades : List MarketTrade) (trade : MarketTrade)
    → last_price (trades ++ trade ∷ []) ≡ some trade.price
last_price-append [] trade = refl
last_price-append (t ∷ trades) trade = rw (last_price-append trades trade) refl

first_symbol-append :
    (trades : List MarketTrade) (trade : MarketTrade) (symbol : String)
    → first_symbol trades ≡ some symbol
    → first_symbol (trades ++ trade ∷ []) ≡ some symbol
first_symbol-append [] trade symbol h = absurd (cc h)
first_symbol-append (t ∷ trades) trade symbol h = h

volume_from-append :
    (volume : ℤ) (trades : List MarketTrade) (trade : MarketTrade)
    → volume_from volume (trades ++ trade ∷ []) ≡ volume_from volume trades +ℤ trade.quantity
volume_from-append volume [] trade = refl
volume_from-append volume (t ∷ trades) trade =
    volume_from-append (volume +ℤ t.quantity) trades trade

traded_volume-append :
    (trades : List MarketTrade) (trade : MarketTrade)
    → traded_volume (trades ++ trade ∷ []) ≡ traded_volume trades +ℤ trade.quantity
traded_volume-append [] trade = omega int_laws
traded_volume-append (t ∷ trades) trade = volume_from-append t.quantity trades trade

-- A bound that is moved outwards still bounds.
module _ (a b : ℤ) where
  ≤-max : a ≤ℤ max_ℤ a b
  unfolding max_ℤ
  ≤-max = ground arith

  new-≤-max : b ≤ℤ max_ℤ a b
  unfolding max_ℤ
  new-≤-max = ground arith

  min-≤ : min_ℤ a b ≤ℤ a
  unfolding min_ℤ
  min-≤ = ground arith

  min-≤-new : min_ℤ a b ≤ℤ b
  unfolding min_ℤ
  min-≤-new = ground arith

  max_either : (P : ℤ → Type 0) → P a → P b → P (max_ℤ a b)
  unfolding max_ℤ
  max_either P p q = if_both P (ltb_ℤ a b) b a q p

  min_either : (P : ℤ → Type 0) → P a → P b → P (min_ℤ a b)
  unfolding min_ℤ
  min_either P p q = if_both P (ltb_ℤ b a) b a q p

above-moved :
    (high new : ℤ) (trades : List MarketTrade)
    → All (λ trade. trade.price ≤ℤ high) trades
    → All (λ trade. trade.price ≤ℤ max_ℤ high new) trades
above-moved high new [] h = tt
above-moved high new (trade ∷ trades) h =
    (omega (arith, h.0, ≤-max high new), above-moved high new trades h.1)

below-moved :
    (low new : ℤ) (trades : List MarketTrade)
    → All (λ trade. low ≤ℤ trade.price) trades
    → All (λ trade. min_ℤ low new ≤ℤ trade.price) trades
below-moved low new [] h = tt
below-moved low new (trade ∷ trades) h =
    (omega (arith, h.0, min-≤ low new), below-moved low new trades h.1)

prices-append :
    (trades : List MarketTrade) (trade : MarketTrade)
    → prices (trades ++ trade ∷ []) ≡ prices trades ++ trade.price ∷ []
prices-append [] trade = refl
prices-append (t ∷ trades) trade = ap (λ l. t.price ∷ l) (prices-append trades trade)

pub extend-IsCandleOf :
    (trades : List MarketTrade) (trade : MarketTrade) (candle : Candle)
    → IsCandleOf trades candle
    → IsCandleOf (trades ++ trade ∷ []) (extend trade candle)
unfolding extend
extend-IsCandleOf trades trade candle h =
    let grown = prices-append trades trade in
    let old = λ (p : ℤ) (m : Memᴰ p (prices trades)).
      subst (Memᴰ p) (sym grown) (Memᴰ.append_left (trade.price ∷ []) m) in
    let new =
      subst (Memᴰ trade.price) (sym grown) (Memᴰ.append_right (prices trades) (Memᴰ.head refl)) in
    record {
      named = first_symbol-append trades trade candle.symbol h.named;
      opened = first_price-append trades trade candle.open_price h.opened;
      closed = last_price-append trades trade;
      above =
          All-append (λ t. t.price ≤ℤ max_ℤ candle.high trade.price) trades (trade ∷ [])
            (above-moved candle.high trade.price trades h.above)
            (new-≤-max candle.high trade.price, tt);
      below =
          All-append (λ t. min_ℤ candle.low trade.price ≤ℤ t.price) trades (trade ∷ [])
            (below-moved candle.low trade.price trades h.below)
            (min-≤-new candle.low trade.price, tt);
      high_traded =
          max_either candle.high trade.price (λ p. Memᴰ p (prices (trades ++ trade ∷ [])))
            (old candle.high h.high_traded) new;
      low_traded =
          min_either candle.low trade.price (λ p. Memᴰ p (prices (trades ++ trade ∷ [])))
            (old candle.low h.low_traded) new;
      summed = rw (h.summed) (sym (traded_volume-append trades trade));
    }
