-- ===== src/Clearing/Holds.antt =====
-- core-exchange/account-clearing-system/account_clearing_system.cpp: accounts, holds and the journal.
use collections.Prelude.{
  ℕ, Bool, false, ◌&&◌, Option, none, some, List, [], ◌∷◌, ◌++◌, if◌then◌else◌, string_eq,
}
use collections.Prelude.Int.{ℤ, pos, ◌+ℤ◌, ◌-ℤ◌, neg_ℤ, ltb_ℤ, leb_ℤ}
use collections.Prelude.Dict.{lookup, insert, erase, contains}
use collections.Consistency.Outbox.{OutboxMessage, pending_batch, mark_dispatched}
use collections.Clearing.Types.{
  HoldAsset, quote, base, AccountSnapshot, ClearingStatus, applied, invalid_input,
  account_not_found, hold_already_exists, hold_not_found, insufficient_quote_balance,
  insufficient_base_position, outbox_message_not_found, invariant_violation, JournalEntry,
  ClearingSystem,
}
use Prim.Native.String.{String}

-- `journals_[account_id]`
unfoldable pub journal_of : String → ClearingSystem → List JournalEntry
journal_of account_id s = elim (lookup account_id s.journals) [ none ↦ [] | some entries ↦ entries ]

unfoldable pub append_journal : JournalEntry → ClearingSystem → ClearingSystem
unfolding journal_of
append_journal entry s = record s {
  journal_storage = s.journal_storage ++ entry ∷ [];
  journals = insert entry.account_id (journal_of entry.account_id s ++ entry ∷ []) s.journals;
}

unfoldable pub upsert_account : String → AccountSnapshot → ClearingSystem → ClearingSystem
upsert_account account_id snapshot s = record s { accounts = insert account_id snapshot s.accounts }

-- The journal entries of the holds.
abbrev pub quote_entry : String → String → String → ℤ → ℤ → ℤ → JournalEntry
quote_entry account_id event_id operation available frozen timestamp_ms = record {
  account_id = account_id;
  event_id = event_id;
  operation = operation;
  delta_available_quote = available;
  delta_frozen_quote = frozen;
  delta_available_base = pos 0;
  delta_frozen_base = pos 0;
  delta_base_cost = pos 0;
  delta_realized_pnl = pos 0;
  timestamp_ms = timestamp_ms;
}

abbrev pub base_entry : String → String → String → ℤ → ℤ → ℤ → JournalEntry
base_entry account_id event_id operation available frozen timestamp_ms = record {
  account_id = account_id;
  event_id = event_id;
  operation = operation;
  delta_available_quote = pos 0;
  delta_frozen_quote = pos 0;
  delta_available_base = available;
  delta_frozen_base = frozen;
  delta_base_cost = pos 0;
  delta_realized_pnl = pos 0;
  timestamp_ms = timestamp_ms;
}

unfoldable pub freeze_quote :
    String → String → ℤ → ℤ → ClearingSystem → ClearingSystem × ClearingStatus
freeze_quote account_id hold_id amount timestamp_ms s = elim (lookup account_id s.accounts) [
  | none ↦ (s, account_not_found)
  | some snapshot ↦
      if leb_ℤ amount (pos 0)
      then (s, invalid_input)
      else if contains hold_id s.holds
      then (s, hold_already_exists)
      else if ltb_ℤ snapshot.available_quote amount
      then (s, insufficient_quote_balance)
      else (
        append_journal
            (quote_entry account_id hold_id "freeze_quote" (neg_ℤ amount) amount timestamp_ms)
            (record s {
              accounts =
                  insert account_id
                    (record snapshot {
                      available_quote = snapshot.available_quote -ℤ amount;
                      frozen_quote = snapshot.frozen_quote +ℤ amount;
                    })
                    s.accounts;
              holds =
                  insert hold_id
                    (record { account_id = account_id; asset = quote; amount = amount }) s.holds;
            }),
        applied,
      )
]

unfoldable pub freeze_base :
    String → String → ℤ → ℤ → ClearingSystem → ClearingSystem × ClearingStatus
freeze_base account_id hold_id amount timestamp_ms s = elim (lookup account_id s.accounts) [
  | none ↦ (s, account_not_found)
  | some snapshot ↦
      if leb_ℤ amount (pos 0)
      then (s, invalid_input)
      else if contains hold_id s.holds
      then (s, hold_already_exists)
      else if ltb_ℤ snapshot.available_base amount
      then (s, insufficient_base_position)
      else (
        append_journal
            (base_entry account_id hold_id "freeze_base" (neg_ℤ amount) amount timestamp_ms)
            (record s {
              accounts =
                  insert account_id
                    (record snapshot {
                      available_base = snapshot.available_base -ℤ amount;
                      frozen_base = snapshot.frozen_base +ℤ amount;
                    })
                    s.accounts;
              holds =
                  insert hold_id (record { account_id = account_id; asset = base; amount = amount })
                    s.holds;
            }),
        applied,
      )
]

abbrev pub released : HoldAsset → ℤ → AccountSnapshot → AccountSnapshot
released quote amount snapshot = record snapshot {
  frozen_quote = snapshot.frozen_quote -ℤ amount;
  available_quote = snapshot.available_quote +ℤ amount;
}
released base amount snapshot = record snapshot {
  frozen_base = snapshot.frozen_base -ℤ amount;
  available_base = snapshot.available_base +ℤ amount;
}

abbrev pub release_entry : HoldAsset → String → String → ℤ → ℤ → JournalEntry
release_entry quote account_id hold_id amount timestamp_ms =
    quote_entry account_id hold_id "release_quote" amount (neg_ℤ amount) timestamp_ms
release_entry base account_id hold_id amount timestamp_ms =
    base_entry account_id hold_id "release_base" amount (neg_ℤ amount) timestamp_ms

unfoldable pub release_hold : String → ℤ → ClearingSystem → ClearingSystem × ClearingStatus
release_hold hold_id timestamp_ms s = elim (lookup hold_id s.holds) [
  | none ↦ (s, hold_not_found)
  | some hold ↦ elim (lookup hold.account_id s.accounts) [
    | none ↦ (s, invariant_violation)
    | some snapshot ↦
        let booked =
          append_journal (release_entry hold.asset hold.account_id hold_id hold.amount timestamp_ms)
            (record s {
              accounts =
                  insert hold.account_id (released hold.asset hold.amount snapshot) s.accounts;
            }) in
        (record booked { holds = erase hold_id booked.holds }, applied)
  ]
]

unfoldable pub account : String → ClearingSystem → Option AccountSnapshot
account account_id s = lookup account_id s.accounts

unfoldable pub hold_amount : String → ClearingSystem → Option ℤ
hold_amount hold_id s = elim (lookup hold_id s.holds) [ none ↦ none | some hold ↦ some hold.amount ]

unfoldable pub reconcile_account : String → ClearingSystem → Bool
reconcile_account account_id s = elim (lookup account_id s.accounts) [
  | none ↦ false
  | some snapshot ↦
      leb_ℤ (pos 0) snapshot.available_quote
      && leb_ℤ (pos 0) snapshot.frozen_quote
      && leb_ℤ (pos 0) snapshot.available_base
      && leb_ℤ (pos 0) snapshot.frozen_base
      && leb_ℤ (pos 0) snapshot.base_cost
]

unfoldable pub pending_outbox : ℕ → ClearingSystem → List OutboxMessage
pending_outbox max_items s = pending_batch max_items s.outbox

unfoldable pub mark_outbox_dispatched : String → ClearingSystem → ClearingSystem × ClearingStatus
mark_outbox_dispatched message_id s =
    let (outbox, found) = mark_dispatched message_id s.outbox in
    (record s { outbox = outbox }, if found then applied else outbox_message_not_found)
