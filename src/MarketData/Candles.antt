-- ===== src/MarketData/Candles.antt =====
-- infrastructure/market-data-push-system/candle_aggregator.hpp: trades summed up by intervals.
use collections.Prelude.{
  ℕ, ◌+◌, ◌-◌, ◌*◌, ◌/◌, ◌%◌, ◌^◌, Option, none, some, [], if◌then◌else◌, ◌==◌, nat_eq, string_eq,
}
use collections.Prelude.Int.{ℤ, ◌+ℤ◌, ltb_ℤ}
use collections.Prelude.Dict.{Dict, lookup, insert, emplace}
use collections.Prelude.Text.{◌<>◌}
use collections.Prelude.Double.{Ostream}
use Prim.Native.String.{String}

pub record MarketTrade : Type 0 where
  pub symbol : String
  pub price : ℤ
  pub quantity : ℤ
  pub event_time_ms : ℕ

pub record Candle : Type 0 where
  pub symbol : String
  pub open_time_ms : ℕ
  pub close_time_ms : ℕ
  pub open_price : ℤ
  pub high : ℤ
  pub low : ℤ
  pub close_price : ℤ
  pub volume : ℤ

pub record CandleAggregator : Type 0 where
  pub interval_ms : ℕ
  pub candles : Dict String Candle

-- `none` is the exception.
unfoldable pub make_aggregator : ℕ → Option CandleAggregator
make_aggregator interval_ms =
    if interval_ms == 0 then none else some (record { interval_ms = interval_ms; candles = [] })

-- The interval is not zero; the product is no greater than the time and does not wrap.
unfoldable pub bucket_open_time : ℕ → CandleAggregator → ℕ
bucket_open_time event_time_ms c = event_time_ms / c.interval_ms * c.interval_ms

-- `std::to_string` is the stream's printing of a count.
unfoldable pub make_key : Ostream → String → ℕ → String
make_key out symbol open_time_ms = symbol <> ":" <> out.print_size open_time_ms

unfoldable pub max_ℤ : ℤ → ℤ → ℤ
max_ℤ a b = if ltb_ℤ a b then b else a

unfoldable pub min_ℤ : ℤ → ℤ → ℤ
min_ℤ a b = if ltb_ℤ b a then b else a

unfoldable pub new_candle : MarketTrade → CandleAggregator → Candle
unfolding bucket_open_time
new_candle trade c = record {
  symbol = trade.symbol;
  open_time_ms = bucket_open_time trade.event_time_ms c;
  close_time_ms = (bucket_open_time trade.event_time_ms c + c.interval_ms + (2 ^ 64 - 1)) % 2 ^ 64;
  open_price = trade.price;
  high = trade.price;
  low = trade.price;
  close_price = trade.price;
  volume = trade.quantity;
}

unfoldable pub extend : MarketTrade → Candle → Candle
unfolding max_ℤ min_ℤ
extend trade candle = record candle {
  high = max_ℤ candle.high trade.price;
  low = min_ℤ candle.low trade.price;
  close_price = trade.price;
  volume = candle.volume +ℤ trade.quantity;
}

unfoldable pub trade_key : Ostream → MarketTrade → CandleAggregator → String
unfolding make_key bucket_open_time
trade_key out trade c = make_key out trade.symbol (bucket_open_time trade.event_time_ms c)

unfoldable pub add_trade : Ostream → MarketTrade → CandleAggregator → CandleAggregator × Candle
unfolding trade_key new_candle extend
add_trade out trade c =
    let key = trade_key out trade c in
    elim (lookup key c.candles) [
      | none ↦
          let candle = new_candle trade c in
          (record c { candles = emplace key candle c.candles }, candle)
      | some old ↦
          let candle = extend trade old in
          (record c { candles = insert key candle c.candles }, candle)
    ]

unfoldable pub latest : Ostream → String → ℕ → CandleAggregator → Option Candle
unfolding make_key bucket_open_time
latest out symbol event_time_ms c =
    lookup (make_key out symbol (bucket_open_time event_time_ms c)) c.candles
