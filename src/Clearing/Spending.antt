-- ===== src/Clearing/Spending.antt =====
-- core-exchange/account-clearing-system: the tests of the holds, and what is spent of them.
use collections.Prelude.{
  ◌≡◌, refl, sym, ◌∙◌, ap, Bool, true, false, Bool-cases, ◌&&◌, not, none, some, Option-cases,
  if◌then◌else◌, string_eq, ◌==◌, eq→≡, inl, inr, ◌↔◌, arith,
}
use collections.Prelude.Int.{
  ℤ, pos, ◌-ℤ◌, ◌≤ℤ◌, ltb_ℤ, leb_ℤ, ltb_ℤ→≤ℤ, ≤ℤ→ltb_ℤ, neg_ℤ, neg_ℤ_parts,
}
use collections.Prelude.Dict.{lookup, insert, erase, lookup-insert, lookup-erase}
use collections.Prelude.Double.{epsilon, epsilon-pos, fabs}
use collections.Clearing.Types.{
  HoldAsset, quote, base, AccountSnapshot, applied, TradeFill, HoldRecord, Holds,
}
use collections.Clearing.Amounts.{SettlementAmounts, is_zero}
use collections.Clearing.Settle.{
  validate_balance_coverage, validate_hold_coverage, settlement_checks, covers, is_quote, is_base,
  consume_hold_amount,
}
use Prim.Native.String.{String}
use collections.Clearing.Contract.{HoldCovers, reduced, spent}

pub negligible : (v : ℤ) → is_zero v ≡ leb_ℤ (fabs v) epsilon
unfolding is_zero fabs
negligible v = go epsilon (above_one epsilon-pos)
  where
    above_one : pos 1 ≤ℤ epsilon → pos 0 ≤ℤ epsilon
    above_one h = omega (arith, h)

    go :
        (e : ℤ)
        → pos 0 ≤ℤ e
        → leb_ℤ (neg_ℤ e) v && leb_ℤ v e ≡ leb_ℤ (if ltb_ℤ v (pos 0) then neg_ℤ v else v) e
    go e h = ground (arith, neg_ℤ_parts e, neg_ℤ_parts v, h)

pub lookup-consume :
    (hold_id id : String) (amount : ℤ) (holds holds' : Holds)
    → consume_hold_amount hold_id amount holds ≡ some holds'
    → lookup id holds' ≡ spent hold_id amount id (lookup id holds)
unfolding consume_hold_amount
lookup-consume hold_id id amount holds holds' run = elim (Bool-cases (hold_id == "")) [
  | inl e ↦
      let same : holds ≡ holds' = some_path (rw (e, consume_hold_amount) at run) in
      rw (e) (ap (λ h. lookup id h) (sym same))
  | inr e ↦ elim (Option-cases (lookup hold_id holds)) [
    | inl gone ↦ absurd (cc (rw (e, gone, consume_hold_amount) at run))
    | inr hold ↦
        let left : HoldRecord = record (hold.0) { amount = hold.0.amount -ℤ amount } in
        let same : (if is_zero (hold.0.amount -ℤ amount)
              then erase hold_id holds
              else insert hold_id left holds)
            ≡ holds' =
          some_path (rw (e, hold.1, consume_hold_amount) at run) in
        rw (e) (ap (λ h. lookup id h) (sym same) ∙ after hold.0 hold.1 (hold_id == id) refl)
  ]
]
  where
    some_path : {x y : Holds} → some x ≡ some y → x ≡ y
    some_path e = cc e

    found_at :
        (hold : HoldRecord)
        → lookup hold_id holds ≡ some hold
        → (hold_id == id) ≡ true
        → lookup id holds ≡ some hold
    found_at hold there e = ap (λ n. lookup n holds) (sym (eq→≡ hold_id id e)) ∙ there

    gone :
        (hold : HoldRecord)
        → lookup hold_id holds ≡ some hold
        → (here : Bool) → (hold_id == id) ≡ here
        → is_zero (hold.amount -ℤ amount) ≡ true
        → (if hold_id == id then none else lookup id holds)
          ≡ (if here then reduced amount (lookup id holds) else lookup id holds)
    gone hold there true e z =
        rw (e, found_at hold there e, sym (negligible (hold.amount -ℤ amount)), z) refl
    gone hold there false e z = rw (e) refl

    kept :
        (hold : HoldRecord)
        → lookup hold_id holds ≡ some hold
        → (here : Bool) → (hold_id == id) ≡ here
        → is_zero (hold.amount -ℤ amount) ≡ false
        → (if hold_id == id
            then some (record hold { amount = hold.amount -ℤ amount })
            else lookup id holds)
          ≡ (if here then reduced amount (lookup id holds) else lookup id holds)
    kept hold there true e z =
        rw (e, found_at hold there e, sym (negligible (hold.amount -ℤ amount)), z) refl
    kept hold there false e z = rw (e) refl

    after :
        (hold : HoldRecord)
        → lookup hold_id holds ≡ some hold
        → (here : Bool) → (hold_id == id) ≡ here
        → lookup id (
            if is_zero (hold.amount -ℤ amount)
            then erase hold_id holds
            else insert hold_id (record hold { amount = hold.amount -ℤ amount }) holds)
          ≡ (if here then reduced amount (lookup id holds) else lookup id holds)
    after hold there here where_eq = elim (Bool-cases (is_zero (hold.amount -ℤ amount))) [
      | inl z ↦ rw (z, lookup-erase hold_id id holds) (gone hold there here where_eq z)
      | inr z ↦
          rw (z, lookup-insert hold_id id (record hold { amount = hold.amount -ℤ amount }) holds)
            (kept hold there here where_eq z)
    ]

pub right_quote : (x : HoldAsset) → (is_quote x ≡ true) ↔ (x ≡ quote)
right_quote quote = (λ h. refl, λ h. refl)
right_quote base = (λ h. absurd (cc h), λ h. absurd (cc h))

pub right_base : (x : HoldAsset) → (is_base x ≡ true) ↔ (x ≡ base)
right_base quote = (λ h. absurd (cc h), λ h. absurd (cc h))
right_base base = (λ h. refl, λ h. refl)

pub and_true : (a b c : Bool) → a && b && c ≡ true → (a ≡ true) × (b ≡ true) × (c ≡ true)
and_true true true true h = (refl, refl, refl)
and_true true true false h = absurd (cc h)
and_true true false c h = absurd (cc h)
and_true false b c h = absurd (cc h)

pub covers_iff :
    (hold_id account_id : String) (right : HoldAsset → Bool) (asset : HoldAsset)
    → ((x : HoldAsset) → (right x ≡ true) ↔ (x ≡ asset))
    → (amount : ℤ) (holds : Holds)
    → (covers hold_id account_id right amount holds ≡ true)
      ↔ HoldCovers hold_id account_id asset amount holds
unfolding covers
covers_iff hold_id account_id right asset same amount holds = elim (Bool-cases (hold_id == "")) [
  | inl e ↦ (λ h. inl (eq→≡ hold_id "" e), λ h. rw (e, covers) refl)
  | inr e ↦ (
    λ h. elim (Option-cases (lookup hold_id holds)) [
      | inl gone ↦ absurd (cc (rw (e, gone, covers) at h))
      | inr hold ↦
          let (a, b, c) =
            and_true (hold.0.account_id == account_id) (right hold.0.asset)
              (not (ltb_ℤ hold.0.amount amount)) (rw (e, hold.1, covers) at h) in
          inr (
            hold.0,
            hold.1,
            eq→≡ hold.0.account_id account_id a,
            (same hold.0.asset).0 b,
            ltb_ℤ→≤ℤ hold.0.amount amount (not_true (ltb_ℤ hold.0.amount amount) c),
          )
    ],
    λ h. elim h [
      | inl empty ↦ absurd (cc (e, (string_eq.same_iff hold_id "").1 empty))
      | inr (hold, there, a, b, c) ↦
          rw (e, there, covers)
            (rw
              (
                (string_eq.same_iff hold.account_id account_id).1 a,
                (same hold.asset).1 b,
                ≤ℤ→ltb_ℤ hold.amount amount c,
              )
              refl)
    ],
  )
]
  where
    not_true : (a : Bool) → not a ≡ true → a ≡ false
    not_true true h = absurd (cc h)
    not_true false h = refl

-- The checks that were passed.
pub checked_parts :
    (fill : TradeFill) (amounts : SettlementAmounts) (buyer seller : AccountSnapshot)
    (holds : Holds)
    → settlement_checks fill amounts buyer seller holds ≡ applied
    → (ltb_ℤ buyer.frozen_quote amounts.buyer_consumed_quote ≡ false)
      × (ltb_ℤ seller.frozen_base amounts.seller_consumed_base ≡ false)
      × (covers fill.buyer_hold_id fill.buyer_account_id is_quote amounts.buyer_consumed_quote holds
          ≡ true)
      × (covers fill.seller_hold_id fill.seller_account_id is_base amounts.seller_consumed_base
            holds
          ≡ true)
unfolding settlement_checks validate_balance_coverage validate_hold_coverage
checked_parts fill amounts buyer seller holds =
    elim (Bool-cases (ltb_ℤ buyer.frozen_quote amounts.buyer_consumed_quote)) [
      | inl p ↦ rw (p) (λ h. absurd (cc h))
      | inr p ↦ elim (Bool-cases (ltb_ℤ seller.frozen_base amounts.seller_consumed_base)) [
        | inl q ↦ rw (p, q) (λ h. absurd (cc h))
        | inr q ↦
            elim (Bool-cases (
              covers fill.buyer_hold_id fill.buyer_account_id is_quote amounts.buyer_consumed_quote
                holds)) [
                  | inr b ↦ rw (p, q, b) (λ h. absurd (cc h))
                  | inl b ↦
                      elim (Bool-cases (
                        covers fill.seller_hold_id fill.seller_account_id is_base
                          amounts.seller_consumed_base holds)) [
                            | inr t ↦ rw (p, q, b, t) (λ h. absurd (cc h))
                            | inl t ↦ rw (p, q, b, t) (λ h. (refl, refl, refl, refl))
                          ]
                ]
      ]
    ]
