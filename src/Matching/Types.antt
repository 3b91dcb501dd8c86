-- ===== src/Matching/Types.antt =====
-- The types of core-exchange/orderbook-matching-engine, and the state of the engine.
--
-- A `RestingOrder *` is kept as the order's id: the engine makes an object for an id only when no
-- live object has that id, and destroys it when it takes the id out of `live_orders_`. So
-- `live_orders` is the store of the objects, and the queues of the two books hold references.
use collections.Prelude.{ℕ, Bool, List, [], if◌then◌else◌, Option, none, some}
use collections.Prelude.Int.{ℤ}
use collections.Prelude.Double.{Ostream}
use collections.Prelude.Dict.{Dict}
use collections.Prelude.Text.{is_empty}
use collections.Prelude.OrderedMap.{OrderedMap}
use collections.MarketData.DepthBook.{DepthBook, empty_book}
use collections.MarketData.Broadcaster.{Broadcaster, empty_broadcaster}
use collections.Ring.{Ring, make_ring}
use Prim.Native.String.{String}

pub data Side : Type 0 where
  buy sell : Side

pub data OrderType : Type 0 where
  limit market : OrderType

pub data TimeInForce : Type 0 where
  gtc ioc fok gtx : TimeInForce

pub data OrderStatus : Type 0 where
  accepted partially_filled filled cancelled rejected : OrderStatus

pub data RejectReason : Type 0 where
  no_reason duplicate_order_id would_cross_post_only insufficient_liquidity : RejectReason
  market_order_would_rest order_not_found : RejectReason

pub record OrderRequest : Type 0 where
  pub order_id : String
  pub side : Side
  pub order_type : OrderType
  pub tif : TimeInForce
  pub price : ℤ
  pub quantity : ℤ
  pub timestamp : ℕ

pub record Trade : Type 0 where
  pub maker_order_id : String
  pub taker_order_id : String
  pub price : ℤ
  pub quantity : ℤ

pub record MatchResult : Type 0 where
  pub is_accepted : Bool
  pub final_status : OrderStatus
  pub reject_reason : RejectReason
  pub executed_quantity : ℤ
  pub remaining_quantity : ℤ
  pub trades : List Trade

pub record RestingOrderView : Type 0 where
  pub order_id : String
  pub side : Side
  pub price : ℤ
  pub open_quantity : ℤ

pub record EngineEvent : Type 0 where
  pub topic : String
  pub payload : String

pub record RestingOrder : Type 0 where
  pub order_id : String
  pub side : Side
  pub price : ℤ
  pub open_quantity : ℤ
  pub timestamp : ℕ

-- The levels of one side, best price first; the orders of a level, oldest first.
abbrev pub Levels : Type 0
Levels = OrderedMap (List String)

abbrev pub LiveOrders : Type 0
LiveOrders = Dict String RestingOrder

pub record Engine : Type 0 where
  pub symbol : String
  pub ostream : Ostream
  pub bids : Levels
  pub asks : Levels
  pub live_orders : LiveOrders
  pub depth_book : DepthBook
  pub broadcaster : Broadcaster
  pub event_queue : Ring EngineEvent

-- The constructor; `none` is the exception for an empty symbol or a capacity below 2.
unfoldable pub make_engine : Ostream → String → ℕ → Option Engine
make_engine ostream symbol event_queue_capacity =
    elim (make_ring {A = EngineEvent} event_queue_capacity) [
      | none ↦ none
      | some queue ↦
          if is_empty symbol
          then none
          else some (record {
            symbol = symbol;
            ostream = ostream;
            bids = [];
            asks = [];
            live_orders = [];
            depth_book = empty_book symbol;
            broadcaster = empty_broadcaster;
            event_queue = queue;
          })
    ]
