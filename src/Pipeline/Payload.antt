-- ===== src/Pipeline/Payload.antt =====
-- integration/exchange-pipeline/exchange_pipeline.cpp: how a payload is read. A delimiter is one byte,
-- so that looking for it goes by characters as well.
use collections.Prelude.{
  ℕ, zero, suc, ◌+◌, true, false, ◌||◌, not, Option, none, some, [], if◌then◌else◌, ◌==◌, nat_eq,
  string_eq, option_map,
}
use collections.Prelude.Int.{ℤ, pos}
use collections.Prelude.Dict.{Dict, lookup, emplace}
use collections.Prelude.Text.{is_empty}
use collections.Matching.Types.{
  Side, buy, sell, OrderType, limit, market, TimeInForce, gtc, ioc, fok, gtx,
}
use collections.Risk.{
  RiskSide, buy as risk_buy, sell as risk_sell, RiskOrderType, limit_order, market_order,
}
use collections.Gateway.{ForwardedRequest}
use collections.Pipeline.Types.{ParsedOrder, Platform}
use Prim.Native.Char.{code}
use Prim.Native.String.{String, len, count}

-- `find` and the two `substr`: the text before the first delimiter and the text after it, or
-- `none` for `npos`.
unfoldable pub cut : ℕ → String → Option (String × String)
cut delimiter String.[] = none
cut delimiter (String.◌∷◌ c text) =
    let rest = cut delimiter text in
    if code c == delimiter
    then some (String.[], text)
    else option_map (λ (halves : String × String). (String.◌∷◌ c halves.0, halves.1)) rest

-- A token without `=` is passed over, and the first of two equal keys counts.
unfoldable pub add_token : String → Dict String String → Dict String String
unfolding cut
add_token token values = elim (cut 61 token) [
  | none ↦ values
  | some (key, value) ↦ emplace key value values
]

-- The loop, on what is left of the payload. `none` is the end of the fuel.
unfoldable pub key_values_loop : ℕ → String → Dict String String → Option (Dict String String)
unfolding add_token
key_values_loop zero text values = none
key_values_loop (suc fuel) text values = elim (is_empty text) [
  | true ↦ some values
  | false ↦ elim (cut 59 text) [
    | none ↦ some (add_token text values)
    | some (token, rest) ↦ key_values_loop fuel rest (add_token token values)
  ]
]

-- Each round but the last takes a delimiter.
unfoldable pub parse_key_values : String → Option (Dict String String)
unfolding key_values_loop
parse_key_values payload = key_values_loop (count payload + 1) payload []

unfoldable pub parse_matching_side : String → Option Side
parse_matching_side value =
    if value == "buy" then some buy else if value == "sell" then some sell else none

unfoldable pub parse_risk_side : String → Option RiskSide
parse_risk_side value =
    if value == "buy" then some risk_buy else if value == "sell" then some risk_sell else none

unfoldable pub parse_matching_type : String → Option OrderType
parse_matching_type value =
    if value == "limit" then some limit else if value == "market" then some market else none

unfoldable pub parse_risk_type : String → Option RiskOrderType
parse_risk_type value =
    if value == "limit"
    then some limit_order
    else if value == "market"
    then some market_order
    else none

unfoldable pub parse_tif : String → Option TimeInForce
parse_tif value =
    if value == "gtc"
    then some gtc
    else if value == "ioc"
    then some ioc
    else if value == "fok"
    then some fok
    else if value == "gtx"
    then some gtx
    else none

unfoldable pub parse_decimal : Platform → String → Option ℤ
parse_decimal platform value =
    let result = platform.strtod value in
    if is_empty value
    then none
    else if result.is_out_of_range || not (result.bytes_read == len value)
    then none
    else result.parsed

infixl 20 ◌>>=◌
-- An absent value ends the reading.
abbrev pub ◌>>=◌ {ℓ κ} : {A : Type ℓ} {B : Type κ} → Option A → (A → Option B) → Option B
none >>= f = none
some x >>= f = f x

unfoldable pub parse_price : Platform → Dict String String → Option ℤ
unfolding parse_decimal
parse_price platform values = elim (lookup "price" values) [
  | none ↦ some (pos 0)
  | some text ↦ parse_decimal platform text
]

-- `parse_order`, after the payload is taken apart.
unfoldable pub parse_fields : Platform → ForwardedRequest → Dict String String → Option ParsedOrder
unfolding parse_matching_side parse_risk_side parse_matching_type parse_risk_type parse_tif
    parse_decimal parse_price
parse_fields platform request values = lookup "side" values >>= λ side.
    lookup "type" values >>= λ kind. lookup "tif" values >>= λ policy.
    lookup "order_id" values >>= λ order_id. lookup "symbol" values >>= λ symbol.
    lookup "source_ip" values >>= λ source_ip. lookup "quantity" values >>= λ amount.
    parse_matching_side side >>= λ matching_side. parse_risk_side side >>= λ risk_side.
    parse_matching_type kind >>= λ matching_type. parse_risk_type kind >>= λ risk_type.
    parse_tif policy >>= λ tif. parse_decimal platform amount >>= λ quantity.
    parse_price platform values >>= λ price. some (record {
      order_id = order_id;
      user_id = request.user_id;
      symbol = symbol;
      source_ip = source_ip;
      matching_side = matching_side;
      risk_side = risk_side;
      matching_type = matching_type;
      risk_type = risk_type;
      tif = tif;
      price = price;
      quantity = quantity;
      timestamp_ms = request.timestamp_ms;
    })

-- The outer `none` is the end of the fuel.
unfoldable pub parse_order : Platform → ForwardedRequest → Option (Option ParsedOrder)
unfolding parse_key_values parse_fields
parse_order platform request =
    option_map (parse_fields platform request) (parse_key_values request.payload)
