-- ===== src/MarketData/CandleSums.antt =====
-- infrastructure/market-data-push-system/candle_aggregator.hpp: what is looked up is the sum of the
-- trades of the interval.
use collections.Prelude.{
  ℕ, ◌*◌, ◌/◌, ◌<◌, ◌≡◌, refl, sym, ◌∙◌, ap, ap₂, subst, Bool, true, false, Bool-cases, ◌&&◌, arith,
  Option, none, some, Option-cases, List, [], ◌∷◌, ◌++◌, append_assoc, append-nil, keep_if,
  keep_if-append, ◌==◌, nat_eq, eq→≡, eq_self, string_eq, inl, inr,
}
use collections.Prelude.Dict.{
  Dict, lookup, insert, lookup-insert_self, lookup-insert_other, emplace_new,
}
use collections.Prelude.Double.{Ostream}
use collections.MarketData.Candles.{
  MarketTrade, Candle, CandleAggregator, make_aggregator, bucket_open_time, make_key, new_candle,
  extend, trade_key, add_trade, latest,
}
use collections.MarketData.Keys.{IsDecimal, make_key_injective, same_bucket}
use collections.MarketData.CandleLaws.{IsCandleOf, new_candle-IsCandleOf, extend-IsCandleOf}
use Prim.Native.String.{String}

-- The trades of a key.
unfoldable pub trades_under :
    Ostream → CandleAggregator → String → List MarketTrade → List MarketTrade
trades_under out c key trades = keep_if (λ trade. trade_key out trade c == key) trades

-- There is a candle of the trades, if there are any.
abbrev pub SumsUp : List MarketTrade → Option Candle → Type 0
SumsUp trades none = trades ≡ []
SumsUp trades (some candle) = IsCandleOf trades candle

-- Trades added one after the other.
unfoldable pub add_all : Ostream → List MarketTrade → CandleAggregator → CandleAggregator
add_all out [] c = c
add_all out (trade ∷ trades) c = add_all out trades (add_trade out trade c).0

-- The aggregator with one candle written.
with_candle : String → Candle → CandleAggregator → CandleAggregator
with_candle key candle c = record c { candles = insert key candle c.candles }

add_trade-cases :
    (out : Ostream) (trade : MarketTrade) (c : CandleAggregator) (before : List MarketTrade)
    → SumsUp before (lookup (trade_key out trade c) c.candles)
    → (candle : Candle) × ((add_trade out trade c).0 ≡ with_candle (trade_key out trade c) candle c)
      × IsCandleOf (before ++ trade ∷ []) candle
unfolding add_trade with_candle
add_trade-cases out trade c before h =
    elim (Option-cases (lookup (trade_key out trade c) c.candles)) [
      | inl gone ↦
          let nothing : before ≡ [] = subst (SumsUp before) gone h in
          (
            new_candle trade c,
            rw (gone, add_trade)
                (ap (λ d. record c { candles = d })
                  (emplace_new (trade_key out trade c) (new_candle trade c) c.candles gone)),
            rw (nothing) (new_candle-IsCandleOf trade c),
          )
      | inr there ↦ (
        extend trade there.0,
        rw (there.1, add_trade) refl,
        extend-IsCandleOf before trade there.0 (subst (SumsUp before) there.1 h),
      )
    ]

module _ (out : Ostream) (interval_ms : ℕ) where
  -- Two aggregators of one interval have the same keys.
  empty : CandleAggregator
  empty = record { interval_ms = interval_ms; candles = [] }

  step :
      (trade : MarketTrade) (key : String) (before : List MarketTrade)
      (candles : Dict String Candle)
      → ((k : String) → SumsUp (trades_under out empty k before) (lookup k candles))
      → SumsUp (trades_under out empty key (before ++ trade ∷ [])) (
          lookup key
            (add_trade out trade
              (record { interval_ms = interval_ms; candles = candles })).0.candles)
  unfolding trades_under empty with_candle trade_key
  step trade key before candles h =
      let c : CandleAggregator = record { interval_ms = interval_ms; candles = candles } in
      let own = trade_key out trade empty in
      let (candle, same, sums) =
        add_trade-cases out trade c (trades_under out empty own before) (h own) in
      rw (same, keep_if-append (λ t. trade_key out t empty == key) before (trade ∷ []))
        (elim (Bool-cases (own == key)) [
          | inl here ↦
              subst
                (λ k.
                  SumsUp
                    (keep_if (λ t. trade_key out t empty == k) before
                      ++ keep_if (λ t. trade_key out t empty == k) (trade ∷ []))
                    (lookup k (insert own candle candles)))
                (eq→≡ own key here) (rw (eq_self own, lookup-insert_self own candle candles) sums)
          | inr there ↦
              rw
                (
                  there,
                  lookup-insert_other own key candle candles there,
                  append-nil (keep_if (λ t. trade_key out t empty == key) before),
                )
                (h key)
        ])

  sums_from :
      (trades : List MarketTrade) (key : String) (before : List MarketTrade)
      (candles : Dict String Candle)
      → ((k : String) → SumsUp (trades_under out empty k before) (lookup k candles))
      → SumsUp (trades_under out empty key (before ++ trades)) (
          lookup key
            (add_all out trades (record { interval_ms = interval_ms; candles = candles })).candles)
  unfolding add_all empty with_candle trade_key
  sums_from [] key before candles h = rw (append-nil before) (h key)
  sums_from (trade ∷ trades) key before candles h =
      let c : CandleAggregator = record { interval_ms = interval_ms; candles = candles } in
      let own = trade_key out trade empty in
      let (candle, same, sums) =
        add_trade-cases out trade c (trades_under out empty own before) (h own) in
      subst
        (λ l.
          SumsUp (trades_under out empty key l)
            (lookup key (add_all out (trade ∷ trades) c).candles))
        (append_assoc before (trade ∷ []) trades)
        (subst
          (λ d.
            SumsUp (trades_under out empty key ((before ++ trade ∷ []) ++ trades))
              (lookup key (add_all out trades d).candles))
          (sym same)
          (sums_from trades key (before ++ trade ∷ []) (insert own candle candles) (λ k.
            subst
              (λ d. SumsUp (trades_under out empty k (before ++ trade ∷ [])) (lookup k d.candles))
              same (step trade k before candles h))))

  made-empty : (c : CandleAggregator) → make_aggregator interval_ms ≡ some c → empty ≡ c
  unfolding make_aggregator empty
  made-empty c made = elim (Bool-cases (interval_ms == 0)) [
    | inl e ↦ absurd (cc (rw (e, make_aggregator) at made))
    | inr e ↦ some_path (rw (e, make_aggregator) at made)
  ]
    where
      some_path : {x y : CandleAggregator} → some x ≡ some y → x ≡ y
      some_path e = cc e

add_trade-interval :
    (out : Ostream) (trade : MarketTrade) (c : CandleAggregator)
    → (add_trade out trade c).0.interval_ms ≡ c.interval_ms
unfolding add_trade
add_trade-interval out trade c = elim (Option-cases (lookup (trade_key out trade c) c.candles)) [
  | inl gone ↦ rw (gone, add_trade) refl
  | inr there ↦ rw (there.1, add_trade) refl
]

add_all-interval :
    (out : Ostream) (trades : List MarketTrade) (c : CandleAggregator)
    → (add_all out trades c).interval_ms ≡ c.interval_ms
unfolding add_all
add_all-interval out [] c = refl
add_all-interval out (trade ∷ trades) c =
    add_all-interval out trades (add_trade out trade c).0 ∙ add_trade-interval out trade c

latest-lookup :
    (out : Ostream) (symbol : String) (time : ℕ) (c d : CandleAggregator)
    → d.interval_ms ≡ c.interval_ms
    → latest out symbol time d ≡ lookup (make_key out symbol (bucket_open_time time c)) d.candles
unfolding latest bucket_open_time
latest-lookup out symbol time c d same =
    ap (λ i. lookup (make_key out symbol (time / i * i)) d.candles) same

-- What is looked up is of the trades with the key.
latest-under :
    (out : Ostream) (interval_ms : ℕ) (trades : List MarketTrade) (symbol : String) (time : ℕ)
    (c : CandleAggregator)
    → make_aggregator interval_ms ≡ some c
    → SumsUp
        (trades_under out c (make_key out symbol (bucket_open_time time c)) trades)
        (latest out symbol time (add_all out trades c))
unfolding trades_under lookup empty
latest-under out interval_ms trades symbol time c made =
    let key = make_key out symbol (bucket_open_time time c) in
    rw (latest-lookup out symbol time c (add_all out trades c) (add_all-interval out trades c)) (
      subst
        (λ d. SumsUp (trades_under out d key trades) (lookup key (add_all out trades d).candles))
        (made-empty out interval_ms c made)
        (sums_from out interval_ms trades key [] [] (λ k. refl)))

-- The trades of a symbol in the interval of a time.
abbrev pub is_own : ℕ → String → ℕ → MarketTrade → Bool
is_own interval_ms symbol time trade =
    trade.symbol == symbol && trade.event_time_ms / interval_ms == time / interval_ms

abbrev pub own_trades : ℕ → String → ℕ → List MarketTrade → List MarketTrade
own_trades interval_ms symbol time trades = keep_if (is_own interval_ms symbol time) trades

keep_if-same :
    (p q : MarketTrade → Bool)
    → ((trade : MarketTrade) → p trade ≡ q trade)
    → (trades : List MarketTrade) → keep_if p trades ≡ keep_if q trades
keep_if-same p q h [] = refl
keep_if-same p q h (trade ∷ trades) = rw (h trade, keep_if-same p q h trades) refl

bool_same : (a b : Bool) → (a ≡ true → b ≡ true) → (b ≡ true → a ≡ true) → a ≡ b
bool_same true true f g = refl
bool_same false false f g = refl
bool_same true false f g = sym (f refl)
bool_same false true f g = g refl

both_true : (a b : Bool) → a && b ≡ true → (a ≡ true) × (b ≡ true)
both_true true true h = (refl, refl)
both_true true false h = absurd (cc h)
both_true false b h = absurd (cc h)

trade_key-own :
    (out : Ostream) (interval_ms : ℕ) (symbol : String) (time : ℕ) (trade : MarketTrade)
    → IsDecimal out
    → 0 < interval_ms
    → (make_key out trade.symbol (trade.event_time_ms / interval_ms * interval_ms)
        == make_key out symbol (time / interval_ms * interval_ms))
      ≡ is_own interval_ms symbol time trade
trade_key-own out interval_ms symbol time trade decimal some_time =
    let m = trade.event_time_ms / interval_ms in
    let n = time / interval_ms in
    let key = make_key out trade.symbol (m * interval_ms) in
    let other = make_key out symbol (n * interval_ms) in
    bool_same (key == other) (is_own interval_ms symbol time trade)
      (λ h.
        let (same, opened) =
          make_key_injective out trade.symbol symbol (m * interval_ms) (n * interval_ms) decimal
            (eq→≡ key other h) in
        let times = same_bucket interval_ms trade.event_time_ms time some_time opened in
        rw ((string_eq.same_iff trade.symbol symbol).1 same, (nat_eq.same_iff m n).1 times) refl)
      (λ h.
        let (same, times) = both_true (trade.symbol == symbol) (m == n) h in
        (string_eq.same_iff key other).1 (
          ap₂ (λ s k. make_key out s (k * interval_ms)) (eq→≡ trade.symbol symbol same)
            (eq→≡ m n times)))

-- Of trades that are added to a new aggregator, one after the other, where counts are printed in
-- decimal: what is looked up for a symbol and a time is a candle of the trades of that symbol in the
-- interval of the time: the symbol, their first and last price, a highest and a lowest price that occur,
-- and the sum of their quantities, added up in their order; there is none exactly if there are no such
-- trades.
pub latest-SumsUp :
    (out : Ostream) (interval_ms : ℕ) (trades : List MarketTrade) (symbol : String) (time : ℕ)
    (c : CandleAggregator)
    → IsDecimal out
    → make_aggregator interval_ms ≡ some c
    → SumsUp
        (own_trades interval_ms symbol time trades)
        (latest out symbol time (add_all out trades c))
unfolding trades_under trade_key bucket_open_time make_aggregator
latest-SumsUp out interval_ms trades symbol time c decimal made =
    elim (Bool-cases (interval_ms == 0)) [
      | inl e ↦ absurd (cc (rw (e, make_aggregator) at made))
      | inr e ↦
          let new : CandleAggregator = record { interval_ms = interval_ms; candles = [] } in
          let same : new ≡ c = some_path (rw (e, make_aggregator) at made) in
          subst
            (λ d.
              SumsUp (own_trades interval_ms symbol time trades)
                (latest out symbol time (add_all out trades d)))
            same
            (subst (λ l. SumsUp l (latest out symbol time (add_all out trades new)))
              (keep_if-same
                (λ trade.
                  trade_key out trade new == make_key out symbol (bucket_open_time time new))
                (is_own interval_ms symbol time)
                (λ trade.
                  trade_key-own out interval_ms symbol time trade decimal (above interval_ms e))
                trades)
              (latest-under out interval_ms trades symbol time new (rw (e, make_aggregator) refl)))
    ]
  where
    some_path : {x y : CandleAggregator} → some x ≡ some y → x ≡ y
    some_path e = cc e

    above : (n : ℕ) → (n == 0) ≡ false → 0 < n
    above n e = ground (arith, e)
