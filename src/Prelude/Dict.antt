-- ===== src/Prelude/Dict.antt =====
-- `std::unordered_map` as an association list with one entry for a key.
use collections.Prelude.Tests.{Eq, ◌==◌, if◌then◌else◌, eq→≡, eq_self, Bool-cases, Option-cases}
use mathlib.Core.Path.{◌≡◌, refl, ap, sym, ◌∙◌}
use mathlib.Core.Logic.{inl, inr}
use mathlib.Core.Bool.{Bool, true, false}
use mathlib.Core.Option.{Option, none, some}
use mathlib.Core.List.{List, [], ◌∷◌}
use native.Mathlib.Omega.{arith}
use collections.Prelude.Int.{ℤ, pos, ◌+ℤ◌, int_laws, pos_part, neg_part}

abbrev pub Dict {ℓ κ} : Type ℓ → Type κ → Type (ℓ ⊔ κ)
Dict K V = List (K × V)

module _ {ℓ κ} {K : Type ℓ} {V : Type κ} ⦃e : Eq K⦄ where
  -- `find`
  unfoldable pub lookup : K → Dict K V → Option V
  lookup k [] = none
  lookup k ((j, v) ∷ d) = if j == k then some v else lookup k d

  -- `contains`
  abbrev pub contains : K → Dict K V → Bool
  contains k d = elim (lookup k d) [ none ↦ false | some v ↦ true ]

  -- `d[k] = v`, `insert_or_assign`
  unfoldable pub insert : K → V → Dict K V → Dict K V
  insert k v [] = (k, v) ∷ []
  insert k v ((j, w) ∷ d) = if j == k then (j, v) ∷ d else (j, w) ∷ insert k v d

  -- `emplace`: an entry that is there stays.
  unfoldable pub emplace : K → V → Dict K V → Dict K V
  emplace k v d = elim (lookup k d) [ none ↦ insert k v d | some w ↦ d ]

  -- `erase`
  unfoldable pub erase : K → Dict K V → Dict K V
  erase k [] = []
  erase k ((j, w) ∷ d) = if j == k then erase k d else (j, w) ∷ erase k d

  pub lookup-insert :
      (k j : K) (v : V) (d : Dict K V)
      → lookup j (insert k v d) ≡ (if k == j then some v else lookup j d)
  unfolding lookup insert
  lookup-insert k j v [] = refl
  lookup-insert k j v ((i, w) ∷ d) =
      ground (arith, e.same_iff k j, e.same_iff i k, e.same_iff i j, lookup-insert k j v d)

  pub lookup-erase :
      (k j : K) (d : Dict K V) → lookup j (erase k d) ≡ (if k == j then none else lookup j d)
  unfolding lookup erase
  lookup-erase k j [] = ground arith
  lookup-erase k j ((i, w) ∷ d) =
      ground (arith, e.same_iff k j, e.same_iff i k, e.same_iff i j, lookup-erase k j d)

  pub lookup-insert_self : (k : K) (v : V) (d : Dict K V) → lookup k (insert k v d) ≡ some v
  lookup-insert_self k v d = rw (lookup-insert k k v d, eq_self k)

  pub lookup-insert_other :
      (k j : K) (v : V) (d : Dict K V) → (k == j) ≡ false → lookup j (insert k v d) ≡ lookup j d
  lookup-insert_other k j v d h = rw (lookup-insert k j v d, h) refl

  pub emplace_new :
      (k : K) (v : V) (d : Dict K V) → lookup k d ≡ none → emplace k v d ≡ insert k v d
  unfolding emplace
  emplace_new k v d h = rw (h, emplace) refl

  pub lookup-emplace :
      (k j : K) (v : V) (d : Dict K V)
      → lookup k d ≡ none
      → lookup j (emplace k v d) ≡ (if k == j then some v else lookup j d)
  unfolding emplace
  lookup-emplace k j v d h = rw (h, emplace) (lookup-insert k j v d)

  -- An entry written twice, the second time back to what it was.
  pub lookup-restored :
      (k j : K) (v w : V) (d : Dict K V)
      → lookup k d ≡ some v
      → lookup j (insert k v (insert k w d)) ≡ lookup j d
  lookup-restored k j v w d h = elim (Bool-cases (k == j)) [
    | inl t ↦ rw (lookup-insert k j v (insert k w d), t) (sym h ∙ ap (λ i. lookup i d) (eq→≡ k j t))
    | inr t ↦ rw (lookup-insert k j v (insert k w d), t) (lookup-insert_other k j w d t)
  ]

  -- A new entry, erased again.
  pub lookup-erased :
      (k j : K) (w : V) (d : Dict K V)
      → lookup k d ≡ none
      → lookup j (erase k (insert k w d)) ≡ lookup j d
  lookup-erased k j w d h = elim (Bool-cases (k == j)) [
    | inl t ↦ rw (lookup-erase k j (insert k w d), t) (sym h ∙ ap (λ i. lookup i d) (eq→≡ k j t))
    | inr t ↦ rw (lookup-erase k j (insert k w d), t) (lookup-insert_other k j w d t)
  ]

  contains-some : (k : K) (v : V) (d : Dict K V) → lookup k d ≡ some v → contains k d ≡ true
  contains-some k v d h = rw (h, contains) refl

  pub contains→none : (k : K) (d : Dict K V) → contains k d ≡ false → lookup k d ≡ none
  contains→none k d h = elim (Option-cases (lookup k d)) [
    | inl e ↦ e
    | inr e ↦ absurd (cc (h, contains-some k e.0 d e.1))
  ]

  pub contains-insert_self : (k : K) (v : V) (d : Dict K V) → contains k (insert k v d) ≡ true
  contains-insert_self k v d = rw (lookup-insert_self k v d, contains) refl

  lookup_here : (k j : K) (w : V) (d : Dict K V) → (j == k) ≡ true → lookup k ((j, w) ∷ d) ≡ some w
  unfolding lookup
  lookup_here k j w d t = rw (t) refl

  lookup_there :
      (k j : K) (w : V) (d : Dict K V) → (j == k) ≡ false → lookup k ((j, w) ∷ d) ≡ lookup k d
  unfolding lookup
  lookup_there k j w d t = rw (t) refl

  -- The sum of a measure over the entries.
  unfoldable pub total : (V → ℤ) → Dict K V → ℤ
  total f [] = pos 0
  total f ((k, v) ∷ d) = f v +ℤ total f d

  pub total-insert :
      (f : V → ℤ) (k : K) (old v : V) (d : Dict K V)
      → lookup k d ≡ some old
      → total f (insert k v d) +ℤ f old ≡ total f d +ℤ f v
  unfolding total lookup insert
  total-insert f k old v [] h = absurd (cc h)
  total-insert f k old v ((j, w) ∷ d) h = elim (Bool-cases (j == k)) [
    | inl t ↦
        let same : w ≡ old = cc (lookup_here k j w d t, h) in rw (t) (rw (same) (omega int_laws))
    | inr t ↦
        let ih = total-insert f k old v d (sym (lookup_there k j w d t) ∙ h) in
        rw (t) (omega (int_laws, ap pos_part ih, ap neg_part ih))
  ]

  pub total-insert_new :
      (f : V → ℤ) (k : K) (v : V) (d : Dict K V)
      → lookup k d ≡ none
      → total f (insert k v d) ≡ total f d +ℤ f v
  unfolding total insert
  total-insert_new f k v [] h = omega int_laws
  total-insert_new f k v ((j, w) ∷ d) h = elim (Bool-cases (j == k)) [
    | inl t ↦ absurd (cc (lookup_here k j w d t, h))
    | inr t ↦
        let ih = total-insert_new f k v d (sym (lookup_there k j w d t) ∙ h) in
        rw (t) (omega (int_laws, ap pos_part ih, ap neg_part ih))
  ]
