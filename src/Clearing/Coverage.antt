-- ===== src/Clearing/Coverage.antt =====
-- core-exchange/account-clearing-system: holds that cover a settlement can be consumed.
use collections.Prelude.{
  ◌≡◌, refl, sym, ◌∙◌, ap, subst, Bool, true, false, Bool-cases, ◌&&◌, not, none, some,
  Option-cases, if◌then◌else◌, string_eq, eq→≡, ◌==◌, ◌⊎◌, inl, inr, arith,
}
use collections.Prelude.Int.{ℤ, ◌-ℤ◌, ltb_ℤ}
use collections.Prelude.Dict.{lookup, insert, erase, lookup-insert, lookup-erase}
use collections.Clearing.Types.{HoldAsset, quote, base, TradeFill, HoldRecord, Holds}
use collections.Clearing.Amounts.{SettlementAmounts, is_zero}
use collections.Clearing.Settle.{covers, is_quote, is_base, consume_hold_amount, settle_holds}
use Prim.Native.String.{String}

covers-none :
    (id account_id : String) (asset : HoldAsset → Bool) (amount : ℤ) (holds : Holds)
    → (id == "") ≡ false
    → lookup id holds ≡ none
    → covers id account_id asset amount holds ≡ false
unfolding covers
covers-none id account_id asset amount holds e l = rw (e, l, covers) refl

covers-some :
    (id account_id : String) (asset : HoldAsset → Bool) (amount : ℤ) (holds : Holds)
    (hold : HoldRecord)
    → (id == "") ≡ false
    → lookup id holds ≡ some hold
    → covers id account_id asset amount holds
      ≡ (hold.account_id == account_id && asset hold.asset && not (ltb_ℤ hold.amount amount))
unfolding covers
covers-some id account_id asset amount holds hold e l = rw (e, l, covers) refl

and_middle : (a b c : Bool) → (a && b && c) ≡ true → b ≡ true
and_middle true b true h = ground arith
and_middle true b false h = ground arith
and_middle false b c h = absurd (cc h)

-- What a passed test of a hold says: there is no id, or the hold is there and has the asset.
unfoldable pub Found : String → (HoldAsset → Bool) → Holds → Type 0
Found id asset holds =
    ((id == "") ≡ true)
    ⊎ ((hold : HoldRecord) × ((id == "") ≡ false)
        × (lookup id holds ≡ some hold)
        × (asset hold.asset ≡ true))

pub covers-Found :
    (id account_id : String) (asset : HoldAsset → Bool) (amount : ℤ) (holds : Holds)
    → covers id account_id asset amount holds ≡ true
    → Found id asset holds
unfolding Found
covers-Found id account_id asset amount holds h = elim (Bool-cases (id == "")) [
  | inl e ↦ inl e
  | inr e ↦ elim (Option-cases (lookup id holds)) [
    | inl l ↦ absurd (cc (h, covers-none id account_id asset amount holds e l))
    | inr l ↦ inr (
      l.0,
      e,
      l.1,
      and_middle _ _ _ (sym (covers-some id account_id asset amount holds l.0 e l.1) ∙ h),
    )
  ]
]

consume-empty :
    (id : String) (amount : ℤ) (holds : Holds)
    → (id == "") ≡ true
    → consume_hold_amount id amount holds ≡ some holds
unfolding consume_hold_amount
consume-empty id amount holds e = rw (e, consume_hold_amount) refl

-- The holds after some of one is consumed.
consumed : String → ℤ → HoldRecord → Holds → Holds
consumed id amount hold holds =
    if is_zero (hold.amount -ℤ amount)
    then erase id holds
    else insert id (record hold { amount = hold.amount -ℤ amount }) holds

consume-some :
    (id : String) (amount : ℤ) (holds : Holds) (hold : HoldRecord)
    → (id == "") ≡ false
    → lookup id holds ≡ some hold
    → consume_hold_amount id amount holds ≡ some (consumed id amount hold holds)
unfolding consume_hold_amount consumed
consume-some id amount holds hold e l = rw (e, l, consume_hold_amount) refl

consume_defined :
    (id : String) (asset : HoldAsset → Bool) (amount : ℤ) (holds : Holds)
    → Found id asset holds
    → (holds' : Holds) × (consume_hold_amount id amount holds ≡ some holds')
unfolding Found
consume_defined id asset amount holds (inl e) = (holds, consume-empty id amount holds e)
consume_defined id asset amount holds (inr (hold, e, l, a)) =
    (consumed id amount hold holds, consume-some id amount holds hold e l)

lookup-consumed :
    (id j : String) (amount : ℤ) (hold : HoldRecord) (holds : Holds)
    → (id == j) ≡ false
    → lookup j (consumed id amount hold holds) ≡ lookup j holds
unfolding consumed
lookup-consumed id j amount hold holds ne = elim (Bool-cases (is_zero (hold.amount -ℤ amount))) [
  | inl z ↦ rw (z, lookup-erase id j holds, ne) refl
  | inr z ↦
      rw (z, lookup-insert id j (record hold { amount = hold.amount -ℤ amount }) holds, ne) refl
]

both_assets : (x : HoldAsset) → is_quote x ≡ true → is_base x ≡ true → ⊥
both_assets quote p q = cc q
both_assets base p q = cc p

apart_assets :
    (i j : String) (holds : Holds) (h k : HoldRecord)
    → lookup i holds ≡ some h
    → lookup j holds ≡ some k
    → is_quote h.asset ≡ true
    → is_base k.asset ≡ true
    → (i == j) ≡ false
apart_assets i j holds h k p q a b = elim (Bool-cases (i == j)) [
  | inr ne ↦ ne
  | inl e ↦
      let same : k ≡ h = cc (p, q, ap (λ n. lookup n holds) (eq→≡ i j e)) in
      absurd (both_assets h.asset a (subst (λ (o : HoldRecord). is_base o.asset ≡ true) same b))
]

-- The seller's hold is still there after the buyer's is consumed.
Found-consume :
    (i j : String) (amount : ℤ) (holds : Holds) (b : Found i is_quote holds)
    → Found j is_base holds
    → Found j is_base (consume_defined i is_quote amount holds b).0
unfolding Found consume_defined
Found-consume i j amount holds (inl e) s = s
Found-consume i j amount holds (inr b) (inl e) = inl e
Found-consume i j amount holds (inr (h, e, l, a)) (inr (k, f, m, c)) =
    inr (k, f, lookup-consumed i j amount h holds (apart_assets i j holds h k l m a c) ∙ m, c)

-- Both tests passed, so both holds can be consumed.
pub settle_holds_defined :
    (fill : TradeFill) (amounts : SettlementAmounts) (holds : Holds)
    → Found fill.buyer_hold_id is_quote holds
    → Found fill.seller_hold_id is_base holds
    → (holds' : Holds) × (settle_holds fill amounts holds ≡ some holds')
unfolding settle_holds Found
settle_holds_defined fill amounts holds b s =
    let first = consume_defined fill.buyer_hold_id is_quote amounts.buyer_consumed_quote holds b in
    let second = consume_defined fill.seller_hold_id is_base amounts.seller_consumed_base first.0 (
      Found-consume fill.buyer_hold_id fill.seller_hold_id amounts.buyer_consumed_quote holds b
        s) in
    (second.0, rw (first.1, settle_holds) second.1)
