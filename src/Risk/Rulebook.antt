-- ===== src/Risk/Rulebook.antt =====
-- core-exchange/pre-trade-risk-engine: the rules in words of their own, and that the tests decide them.
use collections.Prelude.{
  ◌≡◌, ◌≢◌, refl, Bool, true, false, Bool-cases, ◌||◌, ◌&&◌, not, List, [], ◌∷◌, All, string_eq,
  inl, inr, ◌⊎◌, ◌↔◌, if◌then◌else◌, ◌==◌, eq→≡,
}
use collections.Prelude.Int.{
  ℤ, pos, ◌-ℤ◌, ◌≤ℤ◌, ◌<ℤ◌, leb_ℤ, ltb_ℤ, ltb_ℤ→≤ℤ, ≤ℤ→ltb_ℤ, leb_ℤ→<ℤ, <ℤ→leb_ℤ, leb_ℤ→≤ℤ,
  ≤ℤ→leb_ℤ,
}
use collections.Prelude.Double.{Fpu, fabs}
use collections.Prelude.Text.{is_empty}
use collections.Risk.Types.{
  RiskSide, buy, sell, RiskOrderType, limit_order, market_order, RiskRequest, AccountRiskState,
  RiskRestingOrder, MarketState,
}
use collections.Risk.Rules.{
  is_limit, is_buy, same_side, has_bad_shape, crosses_own, would_self_trade, outside_band,
}
use Prim.Native.String.{String}

-- The account can pay for the order.
abbrev pub Affordable : RiskSide → AccountRiskState → ℤ → ℤ → Type 0
Affordable buy account notional quantity = notional ≤ℤ account.quote_balance
Affordable sell account notional quantity = quantity ≤ℤ account.base_position

-- The request has all it needs.
pub record HasShape (request : RiskRequest) : Type 0 where
  pub order_id_ok : request.order_id ≢ ""
  pub user_id_ok : request.user_id ≢ ""
  pub symbol_ok : request.symbol ≢ ""
  pub source_ok : request.source_ip ≢ ""
  pub quantity_ok : pos 0 <ℤ request.quantity
  pub time_ok : pos 0 <ℤ request.timestamp_ms

-- The distance of two prices.
abbrev pub distance : ℤ → ℤ → ℤ
distance a b = fabs (a -ℤ b)

-- The price of a limit order is near the reference price, if there is one.
abbrev pub InBand : Fpu → MarketState → RiskRequest → ℤ → Type 0
InBand fpu at request ref_price =
    (request.order_type ≡ market_order)
    ⊎ (ref_price ≤ℤ pos 0)
    ⊎ (fpu.div (distance request.price ref_price) ref_price ≤ℤ at.config.max_price_deviation_ratio)

-- Two sides that trade with each other, at prices that meet.
abbrev pub Meets : RiskSide → RiskSide → ℤ → ℤ → Type 0
Meets buy sell own resting = resting ≤ℤ own
Meets sell buy own resting = own ≤ℤ resting
Meets _ _ own resting = ⊥

abbrev pub AreOpposite : RiskSide → RiskSide → Type 0
AreOpposite buy sell = Unit
AreOpposite sell buy = Unit
AreOpposite _ _ = ⊥

-- The request would trade with a resting order of its own user.
pub record TradesWith (request : RiskRequest) (order : RiskRestingOrder) : Type 0 where
  pub same_user : order.user_id ≡ request.user_id
  pub is_open : pos 0 <ℤ order.quantity
  pub opposite : AreOpposite request.side order.side
  pub meets :
      (request.order_type ≡ market_order) ⊎ Meets request.side order.side request.price order.price

-- No resting order of the user would trade with it, unless the market allows that.
abbrev pub NoSelfTrade : RiskRequest → Bool → List RiskRestingOrder → Type 0
NoSelfTrade request is_enabled orders =
    (is_enabled ≡ false) ⊎ All (λ order. ¬ TradesWith request order) orders

not_empty : (s : String) → (is_empty s ≡ false) ↔ (s ≢ "")
not_empty s = elim (Bool-cases (s == "")) [
  | inl e ↦ (λ h. absurd (cc (e, h)), λ h. absurd (h (eq→≡ s "" e)))
  | inr e ↦ (λ h. λ same. absurd (cc (e, (string_eq.same_iff s "").1 same)), λ h. e)
]

above_zero : (a : ℤ) → (leb_ℤ a (pos 0) ≡ false) ↔ (pos 0 <ℤ a)
above_zero a = (leb_ℤ→<ℤ a (pos 0), <ℤ→leb_ℤ a (pos 0))

all_false :
    (a b c d e f : Bool)
    → a || b || c || d || e || f ≡ false
    → (a ≡ false) × (b ≡ false) × (c ≡ false) × (d ≡ false) × (e ≡ false) × (f ≡ false)
all_false false false false false false false h = (refl, refl, refl, refl, refl, refl)
all_false true b c d e f h = absurd (cc h)
all_false false true c d e f h = absurd (cc h)
all_false false false true d e f h = absurd (cc h)
all_false false false false true e f h = absurd (cc h)
all_false false false false false true f h = absurd (cc h)
all_false false false false false false true h = absurd (cc h)

pub has_bad_shape_iff : (request : RiskRequest) → (has_bad_shape request ≡ false) ↔ HasShape request
unfolding has_bad_shape
has_bad_shape_iff request =
    let r = request in
    (
      λ h.
          let (a, b, c, d, e, f) =
            all_false (is_empty r.order_id) (is_empty r.user_id) (is_empty r.symbol)
              (leb_ℤ r.quantity (pos 0)) (leb_ℤ r.timestamp_ms (pos 0)) (is_empty r.source_ip) h in
          record {
            order_id_ok = (not_empty r.order_id).0 a;
            user_id_ok = (not_empty r.user_id).0 b;
            symbol_ok = (not_empty r.symbol).0 c;
            source_ok = (not_empty r.source_ip).0 f;
            quantity_ok = (above_zero r.quantity).0 d;
            time_ok = (above_zero r.timestamp_ms).0 e;
          },
      λ h.
          rw
            (
              (not_empty r.order_id).1 h.order_id_ok,
              (not_empty r.user_id).1 h.user_id_ok,
              (not_empty r.symbol).1 h.symbol_ok,
              (above_zero r.quantity).1 h.quantity_ok,
              (above_zero r.timestamp_ms).1 h.time_ok,
              (not_empty r.source_ip).1 h.source_ok,
            )
            refl,
    )

pub outside_band_iff :
    (fpu : Fpu) (at : MarketState) (request : RiskRequest) (ref_price : ℤ)
    → (outside_band fpu at request ref_price ≡ false) ↔ InBand fpu at request ref_price
unfolding outside_band
outside_band_iff fpu at request ref_price =
    let ratio = fpu.div (distance request.price ref_price) ref_price in
    go request.order_type refl ratio refl
  where
    go :
        (kind : RiskOrderType)
        → request.order_type ≡ kind
        → (ratio : ℤ) → fpu.div (distance request.price ref_price) ref_price ≡ ratio
        → (is_limit kind
              && ltb_ℤ (pos 0) ref_price
              && ltb_ℤ at.config.max_price_deviation_ratio ratio
            ≡ false)
          ↔ ((kind ≡ market_order)
              ⊎ (ref_price ≤ℤ pos 0)
              ⊎ (ratio ≤ℤ at.config.max_price_deviation_ratio))
    go market_order e ratio f = (λ h. inl refl, λ h. refl)
    go limit_order e ratio f = elim (Bool-cases (ltb_ℤ (pos 0) ref_price)) [
      | inr g ↦ (λ h. inr (inl (ltb_ℤ→≤ℤ (pos 0) ref_price g)), λ h. rw (g) refl)
      | inl g ↦ (
        λ h. inr (inr (ltb_ℤ→≤ℤ at.config.max_price_deviation_ratio ratio (rw (g) at h))),
        λ h. elim h [
          | inl is_market ↦ absurd (cc is_market)
          | inr (inl low) ↦ absurd (cc (g, ≤ℤ→ltb_ℤ (pos 0) ref_price low))
          | inr (inr near) ↦ rw (g, ≤ℤ→ltb_ℤ at.config.max_price_deviation_ratio ratio near) refl
        ],
      )
    ]

-- Two sides and prices, as the lambda tests them.
meeting : RiskOrderType → RiskSide → ℤ → ℤ → Bool
meeting kind side own resting =
    if not (is_limit kind)
    then true
    else if is_buy side
    then leb_ℤ resting own
    else leb_ℤ own resting

meeting_iff :
    (kind : RiskOrderType) (side other : RiskSide) (own resting : ℤ)
    → AreOpposite side other
    → (meeting kind side own resting ≡ true)
      ↔ ((kind ≡ market_order) ⊎ Meets side other own resting)
unfolding meeting
meeting_iff market_order side other own resting h = (λ k. inl refl, λ k. refl)
meeting_iff limit_order buy sell own resting h = (
  λ k. inr (leb_ℤ→≤ℤ resting own k),
  λ k. elim k [ inl e ↦ absurd (cc e) | inr e ↦ ≤ℤ→leb_ℤ resting own e ],
)
meeting_iff limit_order sell buy own resting h = (
  λ k. inr (leb_ℤ→≤ℤ own resting k),
  λ k. elim k [ inl e ↦ absurd (cc e) | inr e ↦ ≤ℤ→leb_ℤ own resting e ],
)
meeting_iff limit_order buy buy own resting h = absurd h
meeting_iff limit_order sell sell own resting h = absurd h

opposite_iff : (side other : RiskSide) → (same_side other side ≡ false) ↔ AreOpposite side other
opposite_iff buy buy = (λ h. absurd (cc h), λ h. absurd h)
opposite_iff buy sell = (λ h. tt, λ h. refl)
opposite_iff sell buy = (λ h. tt, λ h. refl)
opposite_iff sell sell = (λ h. absurd (cc h), λ h. absurd h)

crosses_own-trades :
    (request : RiskRequest) (order : RiskRestingOrder)
    → (crosses_own request order ≡ true) ↔ TradesWith request order
unfolding crosses_own meeting
crosses_own-trades request order = elim (Bool-cases (order.user_id == request.user_id)) [
  | inr a ↦ (
    λ h. absurd (cc (rw (a, crosses_own) at h)),
    λ t. absurd (cc (a, (string_eq.same_iff order.user_id request.user_id).1 t.same_user)),
  )
  | inl a ↦ elim (Bool-cases (leb_ℤ order.quantity (pos 0))) [
    | inl b ↦ (
      λ h. absurd (cc (rw (a, b, crosses_own) at h)),
      λ t. absurd (cc (b, (above_zero order.quantity).1 t.is_open)),
    )
    | inr b ↦ elim (Bool-cases (same_side order.side request.side)) [
      | inl c ↦ (
        λ h. absurd (cc (rw (a, b, c, crosses_own) at h)),
        λ t. absurd (cc (c, (opposite_iff request.side order.side).1 t.opposite)),
      )
      | inr c ↦
          let apart = (opposite_iff request.side order.side).0 c in
          let same =
            meeting_iff request.order_type request.side order.side request.price order.price
              apart in
          rw (a, b, c, crosses_own)
            (
              λ h. record {
                same_user = eq→≡ order.user_id request.user_id a;
                is_open = (above_zero order.quantity).0 b;
                opposite = apart;
                meets = same.0 h;
              },
              λ t. same.1 t.meets,
            )
    ]
  ]
]

would_self_trade_iff :
    (request : RiskRequest) (orders : List RiskRestingOrder)
    → (would_self_trade request orders ≡ false) ↔ All (λ order. ¬ TradesWith request order) orders
unfolding would_self_trade
would_self_trade_iff request [] = (λ h. tt, λ h. refl)
would_self_trade_iff request (order ∷ orders) = elim (Bool-cases (crosses_own request order)) [
  | inl e ↦ rw (e) (λ h. absurd (cc h), λ h. absurd (h.0 ((crosses_own-trades request order).0 e)))
  | inr e ↦
      let ih = would_self_trade_iff request orders in
      rw (e)
        (λ h. (λ t. absurd (cc (e, (crosses_own-trades request order).1 t)), ih.0 h), λ h. ih.1 h.1)
]

pub no_self_trade :
    (request : RiskRequest) (is_enabled : Bool) (orders : List RiskRestingOrder)
    → (is_enabled && would_self_trade request orders ≡ false)
      ↔ NoSelfTrade request is_enabled orders
no_self_trade request false orders = (λ h. inl refl, λ h. refl)
no_self_trade request true orders =
    let same = would_self_trade_iff request orders in
    (λ h. inr (same.0 h), λ h. elim h [ inl e ↦ absurd (cc e) | inr all ↦ same.1 all ])
