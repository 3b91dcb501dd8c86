-- ===== src/MarketData/Keys.antt =====
-- infrastructure/market-data-push-system/candle_aggregator.hpp: a key is of one symbol and one time.
use collections.Prelude.{
  ℕ, ◌<◌, ◌*◌, ◌/◌, ◌≡◌, refl, sym, ◌∙◌, ap, ap₂, Bool, true, false, if◌then◌else◌, ◌==◌, nat_eq,
}
use collections.Prelude.Text.{◌<>◌}
use collections.Prelude.Double.{Ostream}
use collections.MarketData.Candles.{make_key}
use text.Mathlib.TextLemmas.{cons-append, nil-append, tail-eq_of_cons-eq, head-eq_of_cons-eq}
use native.Mathlib.Nat.{mul-div_cancel}
use Prim.Native.Char.{Char, code}
use Prim.Native.String.{String}

unfoldable pub has_code : ℕ → String → Bool
has_code d String.[] = false
has_code d (String.◌∷◌ c s) = let rest = has_code d s in if code c == d then true else rest

-- Counts are printed without a colon, and different ones differently.
pub record IsDecimal (out : Ostream) : Type 0 where
  pub injective : (m n : ℕ) → out.print_size m ≡ out.print_size n → m ≡ n
  pub no_colon : (n : ℕ) → has_code 58 (out.print_size n) ≡ false

colon_in :
    (c : Char) (s t : String) → (code c == 58) ≡ true → has_code 58 (s <> String.◌∷◌ c t) ≡ true
unfolding has_code
colon_in c String.[] t e = rw (nil-append (String.◌∷◌ c t), has_code, e) refl
colon_in c (String.◌∷◌ x s) t e =
    rw (cons-append x s (String.◌∷◌ c t), has_code, colon_in c s t e) (either (code x == 58))
  where
    either : (b : Bool) → (if b then true else true) ≡ true
    either true = refl
    either false = refl

-- The last colon splits a text in one way.
split_once :
    (c : Char) (s t p q : String)
    → (code c == 58) ≡ true
    → has_code 58 p ≡ false
    → has_code 58 q ≡ false
    → s <> String.◌∷◌ c p ≡ t <> String.◌∷◌ c q
    → (s ≡ t) × (p ≡ q)
split_once c String.[] String.[] p q e a b h =
    (refl, tail-eq_of_cons-eq (sym (nil-append (String.◌∷◌ c p)) ∙ h ∙ nil-append (String.◌∷◌ c q)))
split_once c String.[] (String.◌∷◌ y t) p q e a b h =
    let same : p ≡ t <> String.◌∷◌ c q =
      tail-eq_of_cons-eq
        (sym (nil-append (String.◌∷◌ c p)) ∙ h ∙ cons-append y t (String.◌∷◌ c q)) in
    absurd (cc (a, ap (has_code 58) same, colon_in c t q e))
split_once c (String.◌∷◌ x s) String.[] p q e a b h =
    let same : q ≡ s <> String.◌∷◌ c p =
      tail-eq_of_cons-eq
        (sym (nil-append (String.◌∷◌ c q)) ∙ sym h ∙ cons-append x s (String.◌∷◌ c p)) in
    absurd (cc (b, ap (has_code 58) same, colon_in c s p e))
split_once c (String.◌∷◌ x s) (String.◌∷◌ y t) p q e a b h =
    let both = sym (cons-append x s (String.◌∷◌ c p)) ∙ h ∙ cons-append y t (String.◌∷◌ c q) in
    let (rest, tails) = split_once c s t p q e a b (tail-eq_of_cons-eq both) in
    (ap₂ (λ u v. String.◌∷◌ u v) (head-eq_of_cons-eq both) rest, tails)

-- Different symbols or times have different keys.
pub make_key_injective :
    (out : Ostream) (symbol other : String) (m n : ℕ)
    → IsDecimal out
    → make_key out symbol m ≡ make_key out other n
    → (symbol ≡ other) × (m ≡ n)
unfolding make_key
make_key_injective out symbol other m n d h =
    let (same, printed) =
      split_once ":" symbol other (out.print_size m) (out.print_size n) refl (d.no_colon m)
        (d.no_colon n)
        (sym (as_cons symbol (out.print_size m)) ∙ h ∙ as_cons other (out.print_size n)) in
    (same, d.injective m n printed)
  where
    as_cons : (s t : String) → s <> ":" <> t ≡ s <> String.◌∷◌ ":" t
    as_cons s t =
        ap (λ r. s <> r) (cons-append ":" String.[] t ∙ ap (λ r. String.◌∷◌ ":" r) (nil-append t))

-- Two times of one interval.
pub same_bucket :
    (interval m n : ℕ)
    → 0 < interval
    → m / interval * interval ≡ n / interval * interval
    → m / interval ≡ n / interval
same_bucket interval m n h e =
    sym (mul-div_cancel (m / interval) h)
    ∙ ap (λ x. x / interval) e
    ∙ mul-div_cancel (n / interval) h
