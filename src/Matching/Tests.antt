-- ===== src/Matching/Tests.antt =====
-- Runs of the matching engine, and its theorems at concrete books.
use collections.Prelude.{
  ℕ, ◌+◌, ◌≤◌, true, false, Option, none, some, List, [], ◌∷◌, ◌++◌, ◌≡◌, ◌⊎◌, refl, arith, All, ap,
  ◌==◌, if◌then◌else◌, string_eq, map,
}
use collections.Prelude.Int.{ℤ, pos, ◌+ℤ◌, ◌≤ℤ◌, ◌<ℤ◌, ◌-ℤ◌, neg_ℤ}
use collections.Prelude.Double.{Ostream, whole, epsilon, fabs}
use collections.Prelude.Dict.{lookup, insert, erase, emplace}
use collections.Prelude.OrderedMap.{find, assign, erase_key}
use collections.MarketData.DepthBook.{empty_book}
use collections.MarketData.Broadcaster.{empty_broadcaster}
use collections.Ring.{make_ring, normalize_capacity, bit_ceil_loop}
use collections.Matching.Reachable.{submit_all, submit_all_returns}
use collections.Matching.Types.{
  Side, buy, sell, limit, gtc, fok, OrderRequest, OrderType, TimeInForce, Trade, MatchResult,
  RestingOrder, Engine, make_engine, filled, no_reason, order_not_found,
}
use collections.Matching.Events.{emit_order_event, emit_trade_event, emit_depth_event}
use collections.Matching.Book.{
  add_resting_order, aggregate_quantity, before, remove_resting_order, remove_from_book,
  remove_first, is_zero, update_depth,
}
use collections.Matching.Match.{
  Progress, match_request, match_fuel, match_against, match_best, fill_front, fill_maker,
  settle_maker, beyond_limit, order_count,
}
use collections.Matching.Engine.{
  submit, handle_limit_order, handle_market_order, kills, execute, finalize_limit_result,
  finalize_market_result, make_accepted_result, make_rejected_result,
}
use collections.Matching.Offers.{offers}
use collections.Matching.TakeLaws.{ticket}
use collections.Matching.Wellformed.{IsWellformed}
use collections.Matching.Submit.{SameBooks, resting, start}
use collections.Matching.Refine.{match_against-Refines}
use collections.Matching.Round.{Refines, outcome}
use collections.Matching.Finalize.{rests}
use collections.Matching.Trades.{
  submit_returns, submit_conserves, submit_respects_limit, submit_takes_in_order, left_after,
  maker_of, Acceptable,
}
use collections.Matching.Policies.{submit_fill_or_kill, submit-rests}
use collections.Matching.DepthOverwrite.{depth_shows_last_order, depth_levels}
use Prim.Native.String.{String}

abbrev quiet : Ostream
quiet = record { print_double = λ x. ""; print_size = λ n. "" }

abbrev ask : String → ℕ → ℕ → RestingOrder
ask id price quantity = record {
  order_id = id;
  side = sell;
  price = whole price;
  open_quantity = whole quantity;
  timestamp = 1;
}

-- Two asks of 5 and 2 at the price 10.
abbrev book : Engine
book = record {
  symbol = "BTCUSDT";
  ostream = quiet;
  bids = [];
  asks = (whole 10, "a" ∷ "b" ∷ []) ∷ [];
  live_orders = ("a", ask "a" 10 5) ∷ ("b", ask "b" 10 2) ∷ [];
  depth_book = empty_book "BTCUSDT";
  broadcaster = empty_broadcaster;
  event_queue = record { capacity = 8; buffer = λ i. none; head = 0; tail = 0 };
}

abbrev order : Side → OrderType → TimeInForce → ℕ → ℕ → OrderRequest
order side kind tif price quantity = record {
  order_id = "new";
  side = side;
  order_type = kind;
  tif = tif;
  price = whole price;
  quantity = whole quantity;
  timestamp = 2;
}

book-IsWellformed : IsWellformed book
unfolding lookup whole epsilon
book-IsWellformed = record {
  bids_ok = tt;
  asks_ok = (
    record {
      occupied = refl;
      owned = (
        record {
          order = ask "a" 10 5;
          at = refl;
          named = refl;
          sided = refl;
          priced = refl;
          large = omega arith;
        },
        (
          record {
            order = ask "b" 10 2;
            at = refl;
            named = refl;
            sided = refl;
            priced = refl;
            large = omega arith;
          },
          tt,
        ),
      );
      distinct = (((λ e. cc (ap (λ s. s == "a") e)), tt), (tt, tt));
      ordered = tt;
    },
    tt,
  );
}

abbrev engine_of : Option (Engine × MatchResult) → Engine
engine_of none = book
engine_of (some (e, r)) = e

abbrev result_of : Option (Engine × MatchResult) → MatchResult
result_of none = make_rejected_result order_not_found (pos 0)
result_of (some (e, r)) = r

answered :
    (request : OrderRequest)
    → submit request book ≡ some (engine_of (submit request book), result_of (submit request book))
answered request =
    let (e', r, run, w) = submit_returns request book book-IsWellformed in rw run refl

-- The buyer at 11 takes the 5 of "a" and 1 of "b", at 10.
abbrev bid : OrderRequest
bid = order buy limit gtc 11 6

abbrev bid_result : MatchResult
bid_result = record {
  is_accepted = true;
  final_status = filled;
  reject_reason = no_reason;
  executed_quantity = whole 6;
  remaining_quantity = pos 0;
  trades =
      record { maker_order_id = "a"; taker_order_id = "new"; price = whole 10; quantity = whole 5 }
      ∷ record {
        maker_order_id = "b";
        taker_order_id = "new";
        price = whole 10;
        quantity = whole 1;
      }
      ∷ [];
}

bid_run : submit bid book ≡ some (engine_of (submit bid book), bid_result)
unfolding submit handle_limit_order handle_market_order kills execute match_request match_fuel
    match_against match_best fill_front fill_maker settle_maker beyond_limit order_count lookup
    insert erase emplace find assign erase_key remove_resting_order remove_from_book remove_first
    aggregate_quantity finalize_limit_result finalize_market_result make_accepted_result is_zero
    fabs whole epsilon ◌-ℤ◌ ◌+ℤ◌ neg_ℤ emit_order_event emit_trade_event emit_depth_event
    update_depth
bid_run = refl

-- The theorems at these books.
submit_returns_example :
    (e' : Engine) × (r : MatchResult) × (submit bid book ≡ some (e', r)) × IsWellformed e'
submit_returns_example = submit_returns bid book book-IsWellformed

submit_conserves_example :
    (bid_result.remaining_quantity ≡ left_after bid.quantity bid_result.trades)
    × (bid_result.executed_quantity ≡ bid.quantity -ℤ left_after bid.quantity bid_result.trades)
submit_conserves_example =
    submit_conserves bid book (engine_of (submit bid book)) bid_result book-IsWellformed bid_run

submit_respects_limit_example :
    All
      (λ (trade : Trade).
        Acceptable buy (whole 11) trade.price
        × (pos 0 <ℤ trade.quantity)
        × (trade.taker_order_id ≡ "new"))
      bid_result.trades
submit_respects_limit_example =
    submit_respects_limit bid book (engine_of (submit bid book)) bid_result book-IsWellformed refl
      bid_run

submit_takes_in_order_example :
    (later : List (String × ℤ)) × (map ticket (offers book.live_orders book.asks)
      ≡ map maker_of bid_result.trades ++ later)
submit_takes_in_order_example =
    submit_takes_in_order bid book (engine_of (submit bid book)) bid_result book-IsWellformed
      bid_run

-- No 20 are for sale.
abbrev greedy : OrderRequest
greedy = order buy limit fok 11 20

submit_fill_or_kill_example :
    let r = result_of (submit greedy book) in
    ((r.is_accepted ≡ false)
      × (r.trades ≡ [])
      × (r.executed_quantity ≡ pos 0)
      × SameBooks book (engine_of (submit greedy book)))
    ⊎ (r.remaining_quantity ≤ℤ epsilon)
submit_fill_or_kill_example =
    submit_fill_or_kill greedy book (engine_of (submit greedy book))
      (result_of (submit greedy book)) book-IsWellformed refl (answered greedy)

-- The bid at 9 rests, and so does the post-only one.
abbrev low : TimeInForce → OrderRequest
low tif = order buy limit tif 9 4

submit-rests_example :
    let r = result_of (submit (low gtc) book) in
    let e' = engine_of (submit (low gtc) book) in
    ((r.is_accepted ≡ false) × (r.trades ≡ []) × SameBooks book e')
    ⊎ (lookup "new" e'.live_orders ≡ (
        if rests (low gtc) r.remaining_quantity
        then some (resting (low gtc) r.remaining_quantity)
        else none))
submit-rests_example =
    submit-rests (low gtc) book (engine_of (submit (low gtc) book))
      (result_of (submit (low gtc) book)) book-IsWellformed (answered (low gtc))

-- A third ask of 3 at 10: the level holds 10, and the depth book shows 3.
abbrev third : OrderRequest
third = order sell limit gtc 10 3

depth_shows_last_order_example :
    let e' = add_resting_order third (whole 3) book in
    (find (before sell) (whole 10) e'.asks ≡ some ("a" ∷ "b" ∷ "new" ∷ []))
    × (aggregate_quantity e'.live_orders (pos 0) ("a" ∷ "b" ∷ "new" ∷ [])
        ≡ some (whole 7 +ℤ whole 3))
    × (find (before sell) (whole 10) (depth_levels sell e'.depth_book) ≡ some (whole 3))
unfolding lookup find whole epsilon aggregate_quantity ◌+ℤ◌
depth_shows_last_order_example =
    depth_shows_last_order third (whole 3) (whole 7) ("a" ∷ "b" ∷ []) book book-IsWellformed refl
      (omega arith) refl refl

four_rounds : order_count book.asks + 2 ≤ 4
unfolding order_count
four_rounds = omega arith

-- The loop on the asks of the book, on fuel 4 for its two orders.
match_against-Refines_example :
    (s : Progress) × (match_against 4 sell bid (start bid book) ≡ some s)
    × Refines sell bid (outcome sell bid (start bid book) book.asks) (start bid book) s
match_against-Refines_example =
    match_against-Refines 4 sell bid (start bid book) book.asks refl book-IsWellformed.asks_ok
      book-IsWellformed.bids_ok four_rounds

-- The engine that the constructor makes, which the empty symbol would not give.
abbrev new_engine : Engine
new_engine = elim (make_engine quiet "BTCUSDT" 8) [ none ↦ book | some e ↦ e ]

engine_made : make_engine quiet "BTCUSDT" 8 ≡ some new_engine
unfolding make_engine make_ring normalize_capacity bit_ceil_loop
engine_made = refl

submit_all_returns_example :
    (e' : Engine) × (submit_all
        (order sell limit gtc 10 5 ∷ order buy limit gtc 11 2 ∷ [])
        new_engine
      ≡ some e')
    × IsWellformed e'
submit_all_returns_example =
    submit_all_returns (order sell limit gtc 10 5 ∷ order buy limit gtc 11 2 ∷ []) quiet "BTCUSDT" 8
      new_engine engine_made
