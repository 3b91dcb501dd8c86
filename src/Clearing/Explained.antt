-- ===== src/Clearing/Explained.antt =====
-- core-exchange/account-clearing-system: every operation against the journal it writes.
use collections.Prelude.{
  ◌≡◌, refl, Bool-cases, option_map, [], ◌∷◌, string_eq, inl, inr, Option-cases, subst,
}
use collections.Prelude.Int.{ℤ, pos, ◌+ℤ◌, ◌-ℤ◌, neg_ℤ, leb_ℤ, ltb_ℤ}
use collections.Prelude.Dict.{lookup, insert, contains}
use collections.Clearing.Types.{AccountSnapshot, ClearingSystem, HoldAsset, quote, base}
use collections.Clearing.Holds.{
  append_journal, quote_entry, base_entry, released, release_entry, freeze_quote, freeze_base,
  release_hold,
}
use collections.Clearing.Journal.{
  Explained, Explained-same, explained, journal_of-append, apply_entry, replay,
  lookup-insert-replay, snapshot_ext, plus_zero, plus_neg,
}
use Prim.Native.String.{String}

-- The entries of the holds tell what the accounts get.
quote_entry_moves :
    (id event op : String) (amount t : ℤ) (a : AccountSnapshot)
    → record a {
      available_quote = a.available_quote -ℤ amount;
      frozen_quote = a.frozen_quote +ℤ amount;
    }
      ≡ apply_entry (quote_entry id event op (neg_ℤ amount) amount t) a
unfolding apply_entry
quote_entry_moves id event op amount t a =
    snapshot_ext _ _ (plus_neg a.available_quote amount) refl (plus_zero a.available_base)
      (plus_zero a.frozen_base) (plus_zero a.base_cost) (plus_zero a.realized_pnl)

base_entry_moves :
    (id event op : String) (amount t : ℤ) (a : AccountSnapshot)
    → record a {
      available_base = a.available_base -ℤ amount;
      frozen_base = a.frozen_base +ℤ amount;
    }
      ≡ apply_entry (base_entry id event op (neg_ℤ amount) amount t) a
unfolding apply_entry
base_entry_moves id event op amount t a =
    snapshot_ext _ _ (plus_zero a.available_quote) (plus_zero a.frozen_quote)
      (plus_neg a.available_base amount) refl (plus_zero a.base_cost) (plus_zero a.realized_pnl)

release_entry_moves :
    (asset : HoldAsset) (id event : String) (amount t : ℤ) (a : AccountSnapshot)
    → released asset amount a ≡ apply_entry (release_entry asset id event amount t) a
unfolding apply_entry
release_entry_moves quote id event amount t a =
    snapshot_ext _ _ refl (plus_neg a.frozen_quote amount) (plus_zero a.available_base)
      (plus_zero a.frozen_base) (plus_zero a.base_cost) (plus_zero a.realized_pnl)
release_entry_moves base id event amount t a =
    snapshot_ext _ _ (plus_zero a.available_quote) (plus_zero a.frozen_quote) refl
      (plus_neg a.frozen_base amount) (plus_zero a.base_cost) (plus_zero a.realized_pnl)

release_entry_names :
    (asset : HoldAsset) (id event : String) (amount t : ℤ)
    → (release_entry asset id event amount t).account_id ≡ id
release_entry_names quote id event amount t = refl
release_entry_names base id event amount t = refl

-- `freeze_quote` appends to the journal of each account, as it is read, exactly what it does to the
-- balances of that account, and leaves what was there; on every branch.
pub freeze_quote-Explained :
    (id hold_id : String) (amount t : ℤ) (s : ClearingSystem)
    → Explained s (freeze_quote id hold_id amount t s).0
unfolding append_journal freeze_quote
freeze_quote-Explained id hold_id amount t s = elim (Option-cases (lookup id s.accounts)) [
  | inl h ↦ rw (h, freeze_quote) (Explained-same s)
  | inr h ↦ elim (Bool-cases (leb_ℤ amount (pos 0))) [
    | inl b ↦ rw (h.1, freeze_quote, b) (Explained-same s)
    | inr b ↦ elim (Bool-cases (contains hold_id s.holds)) [
      | inl c ↦ rw (h.1, freeze_quote, b, c) (Explained-same s)
      | inr c ↦ elim (Bool-cases (ltb_ℤ h.0.available_quote amount)) [
        | inl d ↦ rw (h.1, freeze_quote, b, c, d) (Explained-same s)
        | inr d ↦
            let e = quote_entry id hold_id "freeze_quote" (neg_ℤ amount) amount t in
            rw (h.1, freeze_quote, b, c, d)
              (explained (e ∷ []) s _ refl (λ other. journal_of-append other e s)
                (lookup-insert-replay h.0 _ e s.accounts h.1
                  (quote_entry_moves id hold_id "freeze_quote" amount t h.0)))
      ]
    ]
  ]
]

-- `freeze_base` appends to the journal of each account, as it is read, exactly what it does to the
-- balances of that account, and leaves what was there; on every branch.
pub freeze_base-Explained :
    (id hold_id : String) (amount t : ℤ) (s : ClearingSystem)
    → Explained s (freeze_base id hold_id amount t s).0
unfolding append_journal freeze_base
freeze_base-Explained id hold_id amount t s = elim (Option-cases (lookup id s.accounts)) [
  | inl h ↦ rw (h, freeze_base) (Explained-same s)
  | inr h ↦ elim (Bool-cases (leb_ℤ amount (pos 0))) [
    | inl b ↦ rw (h.1, freeze_base, b) (Explained-same s)
    | inr b ↦ elim (Bool-cases (contains hold_id s.holds)) [
      | inl c ↦ rw (h.1, freeze_base, b, c) (Explained-same s)
      | inr c ↦ elim (Bool-cases (ltb_ℤ h.0.available_base amount)) [
        | inl d ↦ rw (h.1, freeze_base, b, c, d) (Explained-same s)
        | inr d ↦
            let e = base_entry id hold_id "freeze_base" (neg_ℤ amount) amount t in
            rw (h.1, freeze_base, b, c, d)
              (explained (e ∷ []) s _ refl (λ other. journal_of-append other e s)
                (lookup-insert-replay h.0 _ e s.accounts h.1
                  (base_entry_moves id hold_id "freeze_base" amount t h.0)))
      ]
    ]
  ]
]

-- `release_hold` appends to the journal of each account, as it is read, exactly what it does to the
-- balances of that account, and leaves what was there; on every branch.
pub release_hold-Explained :
    (hold_id : String) (t : ℤ) (s : ClearingSystem) → Explained s (release_hold hold_id t s).0
unfolding append_journal release_hold
release_hold-Explained hold_id t s = elim (Option-cases (lookup hold_id s.holds)) [
  | inl h ↦ rw (h, release_hold) (Explained-same s)
  | inr h ↦ elim (Option-cases (lookup h.0.account_id s.accounts)) [
    | inl k ↦ rw (h.1, k, release_hold) (Explained-same s)
    | inr k ↦
        let e = release_entry h.0.asset h.0.account_id hold_id h.0.amount t in
        rw (h.1, k.1, release_hold)
          (explained (e ∷ []) s _ refl (λ other. journal_of-append other e s)
            (subst
              (λ (name : String).
                (id : String)
                → lookup id (insert name (released h.0.asset h.0.amount k.0) s.accounts)
                  ≡ option_map (replay id (e ∷ [])) (lookup id s.accounts))
              (release_entry_names h.0.asset h.0.account_id hold_id h.0.amount t)
              (lookup-insert-replay k.0 _ e s.accounts
                (rw (release_entry_names h.0.asset h.0.account_id hold_id h.0.amount t) k.1)
                (release_entry_moves h.0.asset h.0.account_id hold_id h.0.amount t k.0))))
  ]
]
