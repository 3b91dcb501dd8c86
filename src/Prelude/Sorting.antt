-- ===== src/Prelude/Sorting.antt =====
-- `std::sort` by a test. Which of the orders of equal elements it leaves is not said, so that the
-- sort is a parameter; `insertion` is one.
use Prim.Native.Nat.{ℕ}
use mathlib.Core.Path.{◌≡◌, refl, subst, ◌∙◌}
use mathlib.Core.Logic.{inl, inr}
use mathlib.Core.Bool.{Bool, true, false}
use mathlib.Core.List.{List, [], ◌∷◌, Permᴰ, Memᴰ}
use mathlib.Core.List.Permᴰ
use native.Mathlib.Omega.{arith}
use collections.Prelude.Tests.{if◌then◌else◌, ltb, Bool-cases}
use collections.Prelude.Lists.{All}

pub record Sort {ℓ} (A : Type ℓ) : Type ℓ where
  pub sort : (A → A → Bool) → List A → List A

module _ {ℓ} {A : Type ℓ} where
  -- No element comes before one that belongs before it.
  abbrev pub Ordered : (A → A → Bool) → List A → Type ℓ
  Ordered less [] = Unit
  Ordered less (x ∷ xs) = All (λ y. less y x ≡ false) xs × Ordered less xs

  pub record IsSort (less : A → A → Bool) (s : Sort A) : Type ℓ where
    pub same_elements : (xs : List A) → Permᴰ (s.sort less xs) xs
    pub in_order : (xs : List A) → Ordered less (s.sort less xs)

  unfoldable pub put_in : (A → A → Bool) → A → List A → List A
  put_in less x [] = x ∷ []
  put_in less x (y ∷ ys) = if less x y then x ∷ y ∷ ys else y ∷ put_in less x ys

  unfoldable pub sort_by : (A → A → Bool) → List A → List A
  unfolding put_in
  sort_by less [] = []
  sort_by less (x ∷ xs) = put_in less x (sort_by less xs)

  abbrev pub insertion : Sort A
  insertion = record { sort = sort_by }

  put_in-elements : (less : A → A → Bool) (x : A) (ys : List A) → Permᴰ (put_in less x ys) (x ∷ ys)
  unfolding put_in
  put_in-elements less x [] = Permᴰ.cons refl Permᴰ.nil
  put_in-elements less x (y ∷ ys) = elim (Bool-cases (less x y)) [
    | inl e ↦ rw (e) (Permᴰ.cons refl (Permᴰ.refl (y ∷ ys)))
    | inr e ↦
        rw (e) (Permᴰ.trans (Permᴰ.cons refl (put_in-elements less x ys)) (Permᴰ.swap refl refl))
  ]

  sort_by-elements : (less : A → A → Bool) (xs : List A) → Permᴰ (sort_by less xs) xs
  unfolding sort_by
  sort_by-elements less [] = Permᴰ.nil
  sort_by-elements less (x ∷ xs) =
      Permᴰ.trans (put_in-elements less x (sort_by less xs))
        (Permᴰ.cons refl (sort_by-elements less xs))

  pub All-perm {κ} : (P : A → Type κ) {xs ys : List A} → Permᴰ xs ys → All P xs → All P ys
  All-perm P Permᴰ.nil h = h
  All-perm P (Permᴰ.cons e p) h = (subst P e h.0, All-perm P p h.1)
  All-perm P (Permᴰ.swap e f) h = (subst P f h.1.0, (subst P e h.0, h.1.1))
  All-perm P (Permᴰ.trans p q) h = All-perm P q (All-perm P p h)

  pub mem_perm : {x : A} {xs ys : List A} → Permᴰ xs ys → Memᴰ x xs → Memᴰ x ys
  mem_perm Permᴰ.nil m = m
  mem_perm (Permᴰ.cons e p) (Memᴰ.head f) = Memᴰ.head (f ∙ e)
  mem_perm (Permᴰ.cons e p) (Memᴰ.tail m) = Memᴰ.tail (mem_perm p m)
  mem_perm (Permᴰ.swap e f) (Memᴰ.head g) = Memᴰ.tail (Memᴰ.head (g ∙ e))
  mem_perm (Permᴰ.swap e f) (Memᴰ.tail (Memᴰ.head g)) = Memᴰ.head (g ∙ f)
  mem_perm (Permᴰ.swap e f) (Memᴰ.tail (Memᴰ.tail m)) = Memᴰ.tail (Memᴰ.tail m)
  mem_perm (Permᴰ.trans p q) m = mem_perm q (mem_perm p m)

-- Larger measures first.
module _ {ℓ} {A : Type ℓ} (f : A → ℕ) where
  abbrev pub larger : A → A → Bool
  larger x y = ltb (f y) (f x)

  All-larger :
      (x y : A) (ys : List A)
      → larger x y ≡ true
      → All (λ z. larger z y ≡ false) ys
      → All (λ z. larger z x ≡ false) ys
  All-larger x y [] e h = tt
  All-larger x y (z ∷ zs) e h = (ground (arith, e, h.0), All-larger x y zs e h.1)

  put_in-Ordered : (x : A) (ys : List A) → Ordered larger ys → Ordered larger (put_in larger x ys)
  unfolding put_in
  put_in-Ordered x [] h = (tt, tt)
  put_in-Ordered x (y ∷ ys) h = elim (Bool-cases (larger x y)) [
    | inl e ↦ rw (e) ((ground (arith, e), All-larger x y ys e h.0), h)
    | inr e ↦ rw (e) (
      All-perm (λ z. larger z y ≡ false) (Permᴰ.symm (put_in-elements larger x ys)) (e, h.0),
      put_in-Ordered x ys h.1,
    )
  ]

  sort_by-Ordered : (xs : List A) → Ordered larger (sort_by larger xs)
  unfolding sort_by
  sort_by-Ordered [] = tt
  sort_by-Ordered (x ∷ xs) = put_in-Ordered x (sort_by larger xs) (sort_by-Ordered xs)

  pub insertion-IsSort : IsSort larger insertion
  insertion-IsSort = record { same_elements = sort_by-elements larger; in_order = sort_by-Ordered }
