-- ===== src/Pipeline/PayloadLaws.antt =====
-- integration/exchange-pipeline: what is printed as fields is read as fields.
use collections.Prelude.{
  ℕ, zero, suc, ◌+◌, ◌<◌, ◌≡◌, refl, sym, ◌∙◌, ap, true, false, Bool-cases, Option, none, some,
  subst, Option-cases, [], ◌==◌, nat_eq, string_eq, option_map, inl, inr, arith,
}
use collections.Prelude.Dict.{Dict, lookup}
use collections.Prelude.Text.{◌<>◌, is_empty}
use collections.Gateway.{ForwardedRequest}
use collections.Pipeline.Types.{ParsedOrder, Platform}
use collections.Pipeline.Payload.{
  cut, add_token, key_values_loop, parse_key_values, parse_fields, ◌>>=◌, parse_matching_side,
  parse_risk_side, parse_matching_type, parse_risk_type, parse_tif, parse_decimal, parse_price,
}
use text.Mathlib.TextLemmas.{cons-append, nil-append, length-cons}
use Prim.Native.Char.{Char, code}
use Prim.Native.String.{String, count}

cut_here :
    (d : ℕ) (c : Char) (s : String)
    → (code c == d) ≡ true
    → cut d (String.◌∷◌ c s) ≡ some (String.[], s)
unfolding cut
cut_here d c s e = rw (e) refl

cut_on :
    (d : ℕ) (c : Char) (s : String)
    → (code c == d) ≡ false
    → cut d (String.◌∷◌ c s)
      ≡ option_map (λ (halves : String × String). (String.◌∷◌ c halves.0, halves.1)) (cut d s)
unfolding cut
cut_on d c s e = rw (e) refl

-- What a text without the delimiter says of its parts.
cut-none :
    (d : ℕ) (c : Char) (s : String)
    → cut d (String.◌∷◌ c s) ≡ none
    → ((code c == d) ≡ false) × (cut d s ≡ none)
cut-none d c s h = elim (Bool-cases (code c == d)) [
  | inl e ↦ absurd (cc (sym (cut_here d c s e) ∙ h))
  | inr e ↦ elim (Option-cases (cut d s)) [
    | inl gone ↦ (e, gone)
    | inr there ↦ absurd (
        cc (
          sym h
          ∙ cut_on d c s e
          ∙ ap (option_map (λ (halves : String × String). (String.◌∷◌ c halves.0, halves.1)))
              there.1))
  ]
]

-- A text without the delimiter is what comes before it.
cut-found :
    (d : ℕ) (c : Char) (s t : String)
    → (code c == d) ≡ true
    → cut d s ≡ none
    → cut d (s <> String.◌∷◌ c t) ≡ some (s, t)
cut-found d c String.[] t e h = rw (nil-append (String.◌∷◌ c t)) (cut_here d c t e)
cut-found d c (String.◌∷◌ x s) t e h =
    let clean = cut-none d x s h in
    rw
      (
        cons-append x s (String.◌∷◌ c t),
        cut_on d x (s <> String.◌∷◌ c t) clean.0,
        cut-found d c s t e clean.1,
      )
      refl

pub cut-found_text :
    (d : ℕ) (c : Char) (s t : String)
    → (code c == d) ≡ true
    → cut d s ≡ none
    → cut d (s <> (String.◌∷◌ c String.[] <> t)) ≡ some (s, t)
cut-found_text d c s t e h =
    ap (λ r. cut d (s <> r)) (cons-append c String.[] t ∙ ap (λ r. String.◌∷◌ c r) (nil-append t))
    ∙ cut-found d c s t e h

-- Texts without a delimiter, one after the other.
pub cut-none-append :
    (d : ℕ) (s t : String) → cut d s ≡ none → cut d t ≡ none → cut d (s <> t) ≡ none
cut-none-append d String.[] t h k = rw (nil-append t) k
cut-none-append d (String.◌∷◌ x s) t h k =
    let clean = cut-none d x s h in
    rw (cons-append x s t, cut_on d x (s <> t) clean.0, cut-none-append d s t clean.1 k) refl

-- Each cut leaves less.
pub cut-shorter : (d : ℕ) (s a b : String) → cut d s ≡ some (a, b) → count b < count s
unfolding cut
cut-shorter d String.[] a b h = absurd (cc h)
cut-shorter d (String.◌∷◌ x s) a b h = elim (Bool-cases (code x == d)) [
  | inl f ↦
      let same : s ≡ b = cc (sym (cut_here d x s f) ∙ h) in
      let longer = length-cons x s in omega (arith, ap count same, longer)
  | inr f ↦
      let onward = sym h ∙ cut_on d x s f in
      elim (Option-cases (cut d s)) [
        | inl gone ↦ absurd (
            cc (
              onward
              ∙ ap (option_map (λ (halves : String × String). (String.◌∷◌ x halves.0, halves.1)))
                  gone))
        | inr there ↦
            let same : there.0.1 ≡ b = cc (
              onward
              ∙ ap (option_map (λ (halves : String × String). (String.◌∷◌ x halves.0, halves.1)))
                  there.1) in
            let longer = length-cons x s in
            let ih = cut-shorter d s there.0.0 there.0.1 there.1 in
            omega (arith, ap count same, longer, ih)
      ]
]

pub key_values_loop-returns :
    (fuel : ℕ) (text : String) (values : Dict String String)
    → count text < fuel
    → (result : Dict String String) × (key_values_loop fuel text values ≡ some result)
unfolding key_values_loop
key_values_loop-returns zero text values h = absurd (omega (arith, h))
key_values_loop-returns (suc fuel) text values h = elim (Bool-cases (is_empty text)) [
  | inl e ↦ (values, rw (e, key_values_loop) refl)
  | inr e ↦ elim (Option-cases (cut 59 text)) [
    | inl gone ↦ (add_token text values, rw (e, gone, key_values_loop) refl)
    | inr there ↦
        let shorter = cut-shorter 59 text there.0.0 there.0.1 there.1 in
        let (result, runs) =
          key_values_loop-returns fuel there.0.1 (add_token there.0.0 values)
            (omega (arith, h, shorter)) in
        (result, rw (e, there.1, key_values_loop) runs)
  ]
]

pub parse_key_values-returns :
    (payload : String) → (result : Dict String String) × (parse_key_values payload ≡ some result)
unfolding parse_key_values
parse_key_values-returns payload =
    key_values_loop-returns (count payload + 1) payload [] (omega arith)

-- What holds of a value, if there is one.
abbrev IfSome {ℓ} : {A : Type ℓ} → (A → Type 0) → Option A → Type 0
IfSome P none = Unit
IfSome P (some x) = P x

bind-IfSome :
    {A B : Type 0} (P : B → Type 0) (o : Option A) (f : A → Option B)
    → ((x : A) → IfSome P (f x))
    → IfSome P (o >>= f)
bind-IfSome P none f h = tt
bind-IfSome P (some x) f h = h x

-- An order that is read has the time of the request.
pub parse_fields-timestamp :
    (platform : Platform) (request : ForwardedRequest) (values : Dict String String)
    (order : ParsedOrder)
    → parse_fields platform request values ≡ some order
    → order.timestamp_ms ≡ request.timestamp_ms
unfolding parse_fields
parse_fields-timestamp platform request values order h = subst (IfSome keeps) h (
    bind_keeps (lookup "side" values) _ (λ side. bind_keeps (lookup "type" values) _ (λ kind.
      bind_keeps (lookup "tif" values) _ (λ policy.
        bind_keeps (lookup "order_id" values) _ (λ order_id.
          bind_keeps (lookup "symbol" values) _ (λ symbol.
            bind_keeps (lookup "source_ip" values) _ (λ source_ip.
              bind_keeps (lookup "quantity" values) _ (λ amount.
                bind_keeps (parse_matching_side side) _ (λ matching_side.
                  bind_keeps (parse_risk_side side) _ (λ risk_side.
                    bind_keeps (parse_matching_type kind) _ (λ matching_type.
                      bind_keeps (parse_risk_type kind) _ (λ risk_type.
                        bind_keeps (parse_tif policy) _ (λ tif.
                          bind_keeps (parse_decimal platform amount) _ (λ quantity.
                            bind_keeps (parse_price platform values) _ (λ price. refl)))))))))))))))
  where
    keeps : ParsedOrder → Type 0
    keeps o = o.timestamp_ms ≡ request.timestamp_ms

    bind_keeps :
        {A : Type 0} (o : Option A) (f : A → Option ParsedOrder)
        → ((x : A) → IfSome keeps (f x))
        → IfSome keeps (o >>= f)
    bind_keeps = bind-IfSome keeps
