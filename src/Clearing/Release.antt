-- ===== src/Clearing/Release.antt =====
-- core-exchange/account-clearing-system: a hold that is frozen and released again.
use collections.Prelude.{
  ◌≡◌, refl, sym, ◌∙◌, ap, true, Bool-cases, Option, none, some, Option-cases, inl, inr, string_eq,
  option_map, if◌then◌else◌, ◌==◌, eq→≡,
}
use collections.Prelude.Int.{ℤ, pos, ◌+ℤ◌, ◌-ℤ◌, ltb_ℤ, leb_ℤ}
use collections.Prelude.Dict.{
  lookup, insert, erase, contains, lookup-insert_self, lookup-insert, lookup-erased, contains→none,
}
use collections.Clearing.Types.{
  HoldAsset, quote, base, Accounts, AccountSnapshot, HoldRecord, ClearingSystem, ClearingStatus,
  applied,
}
use collections.Clearing.Holds.{append_journal, freeze_quote, freeze_base, release_hold, released}
use collections.Clearing.Outcome.{is_applied}
use Prim.Native.String.{String}

-- `freeze_quote` and `freeze_base` by the asset.
abbrev pub freeze :
    HoldAsset → String → String → ℤ → ℤ → ClearingSystem → ClearingSystem × ClearingStatus
freeze quote = freeze_quote
freeze base = freeze_base

-- An amount is taken from what is free and given back, and the other way round for what is frozen.
abbrev pub there_and_back : HoldAsset → ℤ → AccountSnapshot → AccountSnapshot
there_and_back quote amount a = record a {
  available_quote = a.available_quote -ℤ amount +ℤ amount;
  frozen_quote = a.frozen_quote +ℤ amount -ℤ amount;
}
there_and_back base amount a = record a {
  available_base = a.available_base -ℤ amount +ℤ amount;
  frozen_base = a.frozen_base +ℤ amount -ℤ amount;
}

-- The same holds under every id, and the same accounts, but for the amount that one of them gave and
-- got back.
abbrev pub GivenBack : HoldAsset → String → ℤ → ClearingSystem → ClearingSystem → Type 0
GivenBack asset account_id amount s s' =
    ((id : String)
      → lookup id s'.accounts
        ≡ option_map (λ a. if account_id == id then there_and_back asset amount a else a)
            (lookup id s.accounts))
    × ((id : String) → lookup id s'.holds ≡ lookup id s.holds)

frozen : HoldAsset → ℤ → AccountSnapshot → AccountSnapshot
frozen quote amount a = record a {
  available_quote = a.available_quote -ℤ amount;
  frozen_quote = a.frozen_quote +ℤ amount;
}
frozen base amount a = record a {
  available_base = a.available_base -ℤ amount;
  frozen_base = a.frozen_base +ℤ amount;
}

released-frozen :
    (asset : HoldAsset) (amount : ℤ) (a : AccountSnapshot)
    → released asset amount (frozen asset amount a) ≡ there_and_back asset amount a
unfolding frozen
released-frozen quote amount a = refl
released-frozen base amount a = refl

-- One account written twice.
lookup-written :
    (k j : String) (old middle last : AccountSnapshot) (f : AccountSnapshot → AccountSnapshot)
    (accounts : Accounts)
    → lookup k accounts ≡ some old
    → last ≡ f old
    → lookup j (insert k last (insert k middle accounts))
      ≡ option_map (λ a. if k == j then f a else a) (lookup j accounts)
lookup-written k j old middle last f accounts found moved = elim (Bool-cases (k == j)) [
  | inl e ↦
      let here : lookup j accounts ≡ some old =
        ap (λ n. lookup n accounts) (sym (eq→≡ k j e)) ∙ found in
      rw (lookup-insert k j last (insert k middle accounts), e, here) (ap some moved)
  | inr e ↦
      rw (lookup-insert k j last (insert k middle accounts), lookup-insert k j middle accounts, e)
        (sym (map_id (lookup j accounts)))
]
  where
    map_id : (o : Option AccountSnapshot) → option_map (λ a. a) o ≡ o
    map_id none = refl
    map_id (some a) = refl

abbrev new_hold : HoldAsset → String → ℤ → HoldRecord
new_hold asset id amount = record { account_id = id; asset = asset; amount = amount }

-- What an applied freeze did.
abbrev Frozen : HoldAsset → String → String → ℤ → ClearingSystem → ClearingSystem → Type 0
Frozen asset id hold_id amount s s' =
    (a : AccountSnapshot) × (lookup id s.accounts ≡ some a)
    × (lookup hold_id s.holds ≡ none)
    × (s'.accounts ≡ insert id (frozen asset amount a) s.accounts)
    × (s'.holds ≡ insert hold_id (new_hold asset id amount) s.holds)

freeze_quote-Frozen :
    (id hold_id : String) (amount t : ℤ) (s : ClearingSystem)
    → is_applied (freeze_quote id hold_id amount t s).1 ≡ true
    → Frozen quote id hold_id amount s (freeze_quote id hold_id amount t s).0
unfolding append_journal freeze_quote frozen
freeze_quote-Frozen id hold_id amount t s = elim (Option-cases (lookup id s.accounts)) [
  | inl h ↦ rw (h, freeze_quote) (λ e. absurd (cc e))
  | inr h ↦ elim (Bool-cases (leb_ℤ amount (pos 0))) [
    | inl b ↦ rw (h.1, freeze_quote, b) (λ e. absurd (cc e))
    | inr b ↦ elim (Bool-cases (contains hold_id s.holds)) [
      | inl c ↦ rw (h.1, freeze_quote, b, c) (λ e. absurd (cc e))
      | inr c ↦ elim (Bool-cases (ltb_ℤ h.0.available_quote amount)) [
        | inl d ↦ rw (h.1, freeze_quote, b, c, d) (λ e. absurd (cc e))
        | inr d ↦
            rw (h.1, freeze_quote, b, c, d)
              (λ e. (h.0, refl, contains→none hold_id s.holds c, refl, refl))
      ]
    ]
  ]
]

freeze_base-Frozen :
    (id hold_id : String) (amount t : ℤ) (s : ClearingSystem)
    → is_applied (freeze_base id hold_id amount t s).1 ≡ true
    → Frozen base id hold_id amount s (freeze_base id hold_id amount t s).0
unfolding append_journal freeze_base frozen
freeze_base-Frozen id hold_id amount t s = elim (Option-cases (lookup id s.accounts)) [
  | inl h ↦ rw (h, freeze_base) (λ e. absurd (cc e))
  | inr h ↦ elim (Bool-cases (leb_ℤ amount (pos 0))) [
    | inl b ↦ rw (h.1, freeze_base, b) (λ e. absurd (cc e))
    | inr b ↦ elim (Bool-cases (contains hold_id s.holds)) [
      | inl c ↦ rw (h.1, freeze_base, b, c) (λ e. absurd (cc e))
      | inr c ↦ elim (Bool-cases (ltb_ℤ h.0.available_base amount)) [
        | inl d ↦ rw (h.1, freeze_base, b, c, d) (λ e. absurd (cc e))
        | inr d ↦
            rw (h.1, freeze_base, b, c, d)
              (λ e. (h.0, refl, contains→none hold_id s.holds c, refl, refl))
      ]
    ]
  ]
]

freeze-Frozen :
    (asset : HoldAsset) (id hold_id : String) (amount t : ℤ) (s : ClearingSystem)
    → is_applied (freeze asset id hold_id amount t s).1 ≡ true
    → Frozen asset id hold_id amount s (freeze asset id hold_id amount t s).0
freeze-Frozen quote = freeze_quote-Frozen
freeze-Frozen base = freeze_base-Frozen

release-Frozen :
    (asset : HoldAsset) (id hold_id : String) (amount t : ℤ) (s s' : ClearingSystem)
    → Frozen asset id hold_id amount s s'
    → ((release_hold hold_id t s').1 ≡ applied)
      × GivenBack asset id amount s (release_hold hold_id t s').0
unfolding append_journal release_hold
release-Frozen asset id hold_id amount t s s' (a, found, fresh, accounts, holds) =
    let hold = new_hold asset id amount in
    let h : lookup hold_id s'.holds ≡ some hold =
      ap (λ d. lookup hold_id d) holds ∙ lookup-insert_self hold_id hold s.holds in
    let k : lookup id s'.accounts ≡ some (frozen asset amount a) =
      ap (λ d. lookup id d) accounts ∙ lookup-insert_self id (frozen asset amount a) s.accounts in
    rw (h, k, release_hold)
      (
        refl,
        (
          (λ j.
              ap (λ d. lookup j (insert id (released asset amount (frozen asset amount a)) d))
                accounts
              ∙ lookup-written id j a (frozen asset amount a)
                  (released asset amount (frozen asset amount a)) (there_and_back asset amount)
                  s.accounts found (released-frozen asset amount a)),
          (λ j.
              ap (λ d. lookup j (erase hold_id d)) holds
              ∙ lookup-erased hold_id j hold s.holds fresh),
        ),
      )

-- A hold that was frozen can be released, and then every hold is as before the freeze, and so is every
-- account but for the amount, which was taken from what is free in one account and added again, and
-- added to what is frozen and taken away again. This is stated of a freeze, of either asset, that was
-- applied.
pub release_hold-freeze :
    (asset : HoldAsset) (id hold_id : String) (amount t t' : ℤ) (s : ClearingSystem)
    → is_applied (freeze asset id hold_id amount t s).1 ≡ true
    → ((release_hold hold_id t' (freeze asset id hold_id amount t s).0).1 ≡ applied)
      × GivenBack asset id amount s
          (release_hold hold_id t' (freeze asset id hold_id amount t s).0).0
release_hold-freeze asset id hold_id amount t t' s h =
    release-Frozen asset id hold_id amount t' s (freeze asset id hold_id amount t s).0
      (freeze-Frozen asset id hold_id amount t s h)
