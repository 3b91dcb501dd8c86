-- ===== src/Pipeline/Printing.antt =====
-- integration/exchange-pipeline: a payload is read as the fields that were written.
use collections.Prelude.{
  ℕ, zero, suc, ◌+◌, ◌<◌, ◌≡◌, refl, sym, ◌∙◌, ap, false, Bool-cases, none, some, List, [], ◌∷◌,
  All, nat_eq, string_eq, eq→≡, inl, inr, arith,
}
use collections.Prelude.Dict.{Dict, emplace}
use collections.Prelude.Text.{◌<>◌, is_empty}
use collections.Pipeline.Payload.{cut, add_token, key_values_loop, parse_key_values}
use collections.Pipeline.PayloadLaws.{cut-found_text, cut-none-append, cut-shorter}
use text.Mathlib.TextLemmas.{append-nil, length-append}
use Prim.Native.String.{String, count}

unfoldable pub print_field : String × String → String
print_field (key, value) = key <> "=" <> value

-- Fields with a semicolon between them.
unfoldable pub print_fields : List (String × String) → String
unfolding print_field
print_fields [] = ""
print_fields (field ∷ []) = print_field field
print_fields (field ∷ other ∷ fields) = print_field field <> ";" <> print_fields (other ∷ fields)

-- No semicolon in a field, and no equals sign in its key.
abbrev pub IsPlain : String × String → Type 0
IsPlain (key, value) = (cut 61 key ≡ none) × (cut 59 key ≡ none) × (cut 59 value ≡ none)

-- Of two fields with one key the first counts.
unfoldable pub first_of_each : List (String × String) → Dict String String → Dict String String
first_of_each [] values = values
first_of_each ((key, value) ∷ fields) values = first_of_each fields (emplace key value values)

add_token-field :
    (key value : String) (values : Dict String String)
    → cut 61 key ≡ none
    → add_token (print_field (key, value)) values ≡ emplace key value values
unfolding add_token print_field
add_token-field key value values h = rw (cut-found_text 61 "=" key value refl h, add_token) refl

field-plain : (key value : String) → IsPlain (key, value) → cut 59 (print_field (key, value)) ≡ none
unfolding print_field cut
field-plain key value (a, b, c) =
    cut-none-append 59 key ("=" <> value) b (cut-none-append 59 "=" value refl c)

not_empty : (s : String) (n : ℕ) → count s ≡ suc n → is_empty s ≡ false
not_empty s n h = elim (Bool-cases (is_empty s)) [
  | inl e ↦ let bare = ap count (eq→≡ s "" e) in absurd (omega (arith, bare, h))
  | inr e ↦ e
]

field-not_empty :
    (field : String × String) (rest : String) → is_empty (print_field field <> rest) ≡ false
unfolding print_field
field-not_empty (key, value) rest =
    not_empty ((key <> "=" <> value) <> rest) (count key + count value + count rest) (
      long (length-append (key <> "=" <> value) rest) (length-append key ("=" <> value))
        (length-append "=" value))
  where
    long :
        count ((key <> "=" <> value) <> rest) ≡ count (key <> "=" <> value) + count rest
        → count (key <> "=" <> value) ≡ count key + count ("=" <> value)
        → count ("=" <> value) ≡ 1 + count value
        → count ((key <> "=" <> value) <> rest) ≡ suc (count key + count value + count rest)
    long a b c = omega (arith, a, b, c)

last_field :
    (fuel : ℕ) (key value : String) (values : Dict String String)
    → IsPlain (key, value)
    → key_values_loop (suc fuel) (print_field (key, value)) values ≡ some (emplace key value values)
unfolding key_values_loop
last_field fuel key value values plain =
    let full : is_empty (print_field (key, value)) ≡ false =
      ap is_empty (sym (append-nil (print_field (key, value)))) ∙ field-not_empty (key, value) "" in
    rw (full, field-plain key value plain, key_values_loop)
      (ap (λ x. some x) (add_token-field key value values plain.0))

next_field :
    (fuel : ℕ) (key value rest : String) (values : Dict String String)
    → IsPlain (key, value)
    → key_values_loop (suc fuel) (print_field (key, value) <> ";" <> rest) values
      ≡ key_values_loop fuel rest (emplace key value values)
unfolding key_values_loop
next_field fuel key value rest values plain =
    let found : cut 59 (print_field (key, value) <> ";" <> rest)
        ≡ some (print_field (key, value), rest) =
      cut-found_text 59 ";" (print_field (key, value)) rest refl (field-plain key value plain) in
    rw (field-not_empty (key, value) (";" <> rest), found, key_values_loop)
      (ap (key_values_loop fuel rest) (add_token-field key value values plain.0))

read_fields :
    (fuel : ℕ) (fields : List (String × String)) (values : Dict String String)
    → All IsPlain fields
    → count (print_fields fields) < fuel
    → key_values_loop fuel (print_fields fields) values ≡ some (first_of_each fields values)
unfolding print_fields first_of_each key_values_loop
read_fields zero fields values plain h = absurd (omega (arith, h))
read_fields (suc fuel) [] values plain h = refl
read_fields (suc fuel) ((key, value) ∷ []) values plain h = last_field fuel key value values plain.0
read_fields (suc fuel) ((key, value) ∷ other ∷ fields) values plain h =
    let rest = print_fields (other ∷ fields) in
    let found : cut 59 (print_field (key, value) <> ";" <> rest)
        ≡ some (print_field (key, value), rest) =
      cut-found_text 59 ";" (print_field (key, value)) rest refl (field-plain key value plain.0) in
    let shorter =
      cut-shorter 59 (print_field (key, value) <> ";" <> rest) (print_field (key, value)) rest
        found in
    next_field fuel key value rest values plain.0
    ∙ read_fields fuel (other ∷ fields) (emplace key value values) plain.1
        (omega (arith, h, shorter))

-- Fields printed with semicolons between them are read again, to the first value of each key, where
-- no field has a semicolon and no key an equals sign.
pub parse_key_values-print_fields :
    (fields : List (String × String))
    → All IsPlain fields
    → parse_key_values (print_fields fields) ≡ some (first_of_each fields [])
unfolding parse_key_values
parse_key_values-print_fields fields plain =
    read_fields (count (print_fields fields) + 1) fields [] plain (omega arith)
