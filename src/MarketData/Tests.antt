-- ===== src/MarketData/Tests.antt =====
-- The theorem of the broadcaster at concrete values.

use collections.Prelude.Int.{pos}
use collections.Prelude.Double.{Ostream}
use collections.MarketData.Candles.{MarketTrade, CandleAggregator, make_aggregator, latest}
use collections.MarketData.CandleSums.{own_trades, SumsUp, add_all, latest-SumsUp}
use collections.MarketData.Keys.{IsDecimal, has_code}
use text.Mathlib.TextLemmas.{length-nil, length-cons}
use collections.Prelude.{
  ℕ, zero, suc, sym, ◌∙◌, ap, false, ◌≤◌, List, [], ◌∷◌, ◌++◌, ◌≡◌, refl, some, arith, length, ◌⊎◌,
  nat_eq, string_eq,
}
use collections.Prelude.Dict.{lookup, insert, emplace}
use collections.MarketData.Types.{BroadcastMessage}
use collections.MarketData.Broadcaster.{
  Broadcaster, SubscriptionState, empty_broadcaster, next_u64, subscribe, publish, topic_history,
  poll,
}
use collections.MarketData.Delivery.{Increasing, unread, poll_splits_unread}
use Prim.Native.String.{String, count}

abbrev third : Broadcaster
third =
    (publish "t" "three"
      (publish "u" "two" (publish "t" "one" (subscribe "t" empty_broadcaster).0).0).0).0

abbrev reader : SubscriptionState
reader = record { topic = "t"; next_sequence = 1 }

abbrev numbered : ℕ → String → BroadcastMessage
numbered sequence payload = record { sequence = sequence; topic = "t"; payload = payload }

abbrev sent : List BroadcastMessage
sent = numbered 1 "one" ∷ numbered 3 "three" ∷ []

reader_known : lookup 1 third.subscribers ≡ some reader
unfolding subscribe publish next_u64 topic_history empty_broadcaster lookup insert emplace
reader_known = refl

sent_known : lookup "t" third.history ≡ some sent
unfolding subscribe publish next_u64 topic_history empty_broadcaster lookup insert emplace
sent_known = refl

sent_grows : Increasing 0 sent
sent_grows = (omega arith, omega arith, (omega arith, omega arith, tt))

one_asked : 1 ≤ 1
one_asked = omega arith

poll_splits_unread_example :
    ((poll 1 1 third).1 ++ unread 1 sent (poll 1 1 third).0 ≡ unread 1 sent third)
    × (length (poll 1 1 third).1 ≤ 1)
    × ((length (poll 1 1 third).1 ≡ 1) ⊎ (unread 1 sent (poll 1 1 third).0 ≡ []))
    × ((poll 1 1 third).0.history ≡ third.history)
poll_splits_unread_example =
    poll_splits_unread 1 1 third reader sent reader_known sent_known sent_grows one_asked

-- A count as that many strokes.
unfoldable strokes : ℕ → String
strokes zero = ""
strokes (suc n) = String.◌∷◌ "1" (strokes n)

abbrev printing : Ostream
unfolding strokes
printing = record { print_double = λ x. ""; print_size = strokes }

strokes-length : (n : ℕ) → count (strokes n) ≡ n
unfolding strokes
strokes-length zero = length-nil
strokes-length (suc n) = length-cons "1" (strokes n) ∙ ap suc (strokes-length n)

strokes-no_colon : (n : ℕ) → has_code 58 (strokes n) ≡ false
unfolding strokes has_code
strokes-no_colon zero = refl
strokes-no_colon (suc n) = strokes-no_colon n

printing-IsDecimal : IsDecimal printing
unfolding printing
printing-IsDecimal = record {
  injective = λ m n same. sym (strokes-length m) ∙ ap count same ∙ strokes-length n;
  no_colon = strokes-no_colon;
}

abbrev traded_at : String → ℕ → ℕ → ℕ → MarketTrade
traded_at symbol price quantity time = record {
  symbol = symbol;
  price = pos price;
  quantity = pos quantity;
  event_time_ms = time;
}

abbrev five_trades : List MarketTrade
five_trades =
    traded_at "A" 5 1 2
    ∷ traded_at "A" 9 2 3
    ∷ traded_at "B" 1 1 4
    ∷ traded_at "A" 4 3 9
    ∷ traded_at "A" 6 1 12
    ∷ []

abbrev by_ten : CandleAggregator
by_ten = record { interval_ms = 10; candles = [] }

latest-SumsUp_example :
    SumsUp
      (own_trades 10 "A" 7 five_trades)
      (latest printing "A" 7 (add_all printing five_trades by_ten))
unfolding make_aggregator
latest-SumsUp_example = latest-SumsUp printing 10 five_trades "A" 7 by_ten printing-IsDecimal refl
