-- ===== src/Clearing/Journal.antt =====
-- core-exchange/account-clearing-system: the journal against the balances. Replaying the entries
-- that an operation appends gives the balances it leaves.
use collections.Prelude.{
  ◌≡◌, refl, sym, ◌∙◌, Bool-cases, ap, Option, none, some, option_map, List, [], ◌∷◌, ◌++◌,
  append-nil, if◌then◌else◌, string_eq, eq→≡, ◌==◌, inl, inr, keep_if, subst,
}
use collections.Prelude.Int.{ℤ, pos, ◌+ℤ◌, ◌-ℤ◌, neg_ℤ, int_laws}
use collections.Prelude.Dict.{
  lookup, insert, lookup-insert, lookup-insert_self, lookup-insert_other,
}
use collections.Clearing.Types.{AccountSnapshot, Accounts, JournalEntry, ClearingSystem}
use collections.Clearing.Holds.{journal_of, append_journal}
use Prim.Native.String.{String}

-- One entry, taken into the account it names.
unfoldable pub apply_entry : JournalEntry → AccountSnapshot → AccountSnapshot
apply_entry entry a = record {
  available_quote = a.available_quote +ℤ entry.delta_available_quote;
  frozen_quote = a.frozen_quote +ℤ entry.delta_frozen_quote;
  available_base = a.available_base +ℤ entry.delta_available_base;
  frozen_base = a.frozen_base +ℤ entry.delta_frozen_base;
  base_cost = a.base_cost +ℤ entry.delta_base_cost;
  realized_pnl = a.realized_pnl +ℤ entry.delta_realized_pnl;
}

-- The entries of one account.
abbrev pub entries_of : String → List JournalEntry → List JournalEntry
entries_of id entries = keep_if (λ entry. entry.account_id == id) entries

-- Entries of one account, replayed from the oldest.
abbrev pub replay_own : List JournalEntry → AccountSnapshot → AccountSnapshot
replay_own [] a = a
replay_own (entry ∷ entries) a = replay_own entries (apply_entry entry a)

-- The entries of one account among others, replayed from the oldest.
unfoldable pub replay : String → List JournalEntry → AccountSnapshot → AccountSnapshot
replay id [] a = a
replay id (entry ∷ entries) a =
    replay id entries (if entry.account_id == id then apply_entry entry a else a)

-- What an operation does to an account is what it appends to the journal of the account, which it
-- otherwise leaves as it was.
unfoldable pub Explained : ClearingSystem → ClearingSystem → Type 0
Explained s s' =
    (new : List JournalEntry) × (s'.journal_storage ≡ s.journal_storage ++ new)
    × ((id : String)
        → (journal_of id s' ≡ journal_of id s ++ entries_of id new)
          × (lookup id s'.accounts
              ≡ option_map (replay_own (entries_of id new)) (lookup id s.accounts)))

replay-entries_of :
    (id : String) (entries : List JournalEntry) (a : AccountSnapshot)
    → replay id entries a ≡ replay_own (entries_of id entries) a
unfolding replay
replay-entries_of id [] a = refl
replay-entries_of id (entry ∷ entries) a = elim (Bool-cases (entry.account_id == id)) [
  | inl e ↦ rw (e, replay) (replay-entries_of id entries (apply_entry entry a))
  | inr e ↦ rw (e, replay) (replay-entries_of id entries a)
]

map-entries_of :
    (id : String) (entries : List JournalEntry) (o : Option AccountSnapshot)
    → option_map (replay id entries) o ≡ option_map (replay_own (entries_of id entries)) o
map-entries_of id entries none = refl
map-entries_of id entries (some a) = ap some (replay-entries_of id entries a)

-- One more entry in the journals.
pub journal_of-append :
    (id : String) (entry : JournalEntry) (s : ClearingSystem)
    → journal_of id (append_journal entry s) ≡ journal_of id s ++ entries_of id (entry ∷ [])
unfolding append_journal journal_of
journal_of-append id entry s = elim (Bool-cases (entry.account_id == id)) [
  | inl e ↦
      subst
        (λ name.
          elim (lookup id (insert name (journal_of name s ++ entry ∷ []) s.journals)) [
            | none ↦ []
            | some entries ↦ entries
          ]
          ≡ journal_of id s ++ entries_of id (entry ∷ []))
        (sym (eq→≡ entry.account_id id e))
        (rw (lookup-insert_self id (journal_of id s ++ entry ∷ []) s.journals, e, journal_of) refl)
  | inr e ↦
      ap (λ o. elim o [ none ↦ [] | some entries ↦ entries ])
        (lookup-insert_other entry.account_id id (journal_of entry.account_id s ++ entry ∷ [])
          s.journals e)
      ∙ rw (e) (sym (append-nil (journal_of id s)))
]

-- An operation whose entries are told by each account's journal and by the balances.
pub explained :
    (new : List JournalEntry) (s s' : ClearingSystem)
    → s'.journal_storage ≡ s.journal_storage ++ new
    → ((id : String) → journal_of id s' ≡ journal_of id s ++ entries_of id new)
    → ((id : String) → lookup id s'.accounts ≡ option_map (replay id new) (lookup id s.accounts))
    → Explained s s'
unfolding Explained
explained new s s' stored told moved =
    (new, stored, λ id. (told id, moved id ∙ map-entries_of id new (lookup id s.accounts)))

pub snapshot_ext :
    (a b : AccountSnapshot)
    → a.available_quote ≡ b.available_quote
    → a.frozen_quote ≡ b.frozen_quote
    → a.available_base ≡ b.available_base
    → a.frozen_base ≡ b.frozen_base
    → a.base_cost ≡ b.base_cost
    → a.realized_pnl ≡ b.realized_pnl
    → a ≡ b
snapshot_ext a b p q r s t u = λ i. record {
  available_quote = p i;
  frozen_quote = q i;
  available_base = r i;
  frozen_base = s i;
  base_cost = t i;
  realized_pnl = u i;
}

pub plus_zero : (a : ℤ) → a ≡ a +ℤ pos 0
plus_zero a = omega int_laws

pub plus_neg : (a b : ℤ) → a -ℤ b ≡ a +ℤ neg_ℤ b
plus_neg a b = omega int_laws

replay-append :
    (id : String) (es fs : List JournalEntry) (a : AccountSnapshot)
    → replay id (es ++ fs) a ≡ replay id fs (replay id es a)
unfolding replay
replay-append id [] fs a = refl
replay-append id (e ∷ es) fs a =
    replay-append id es fs (if e.account_id == id then apply_entry e a else a)

-- A function that changes nothing changes no option.
map-same :
    (f : AccountSnapshot → AccountSnapshot)
    → ((a : AccountSnapshot) → f a ≡ a)
    → (o : Option AccountSnapshot) → option_map f o ≡ o
map-same f h none = refl
map-same f h (some a) = ap some (h a)

pub map-replay :
    (id : String) (es fs : List JournalEntry) (o : Option AccountSnapshot)
    → option_map (replay id (es ++ fs)) o ≡ option_map (replay id fs) (option_map (replay id es) o)
map-replay id es fs none = refl
map-replay id es fs (some a) = ap some (replay-append id es fs a)

pub Explained-same : (s : ClearingSystem) → Explained s s
unfolding replay
Explained-same s =
    explained [] s s (sym (append-nil s.journal_storage)) (λ id. sym (append-nil (journal_of id s)))
      (λ id. sym (map-same (replay id []) (λ a. refl) (lookup id s.accounts)))

-- One account rewritten, and one entry for it.
pub lookup-insert-replay :
    (old new : AccountSnapshot) (e : JournalEntry) (accounts : Accounts)
    → lookup e.account_id accounts ≡ some old
    → new ≡ apply_entry e old
    → (id : String)
    → lookup id (insert e.account_id new accounts)
      ≡ option_map (replay id (e ∷ [])) (lookup id accounts)
unfolding replay
lookup-insert-replay old new e accounts found moves id = elim (Bool-cases (e.account_id == id)) [
  | inl t ↦
      let here : lookup id accounts ≡ some old =
        ap (λ j. lookup j accounts) (sym (eq→≡ e.account_id id t)) ∙ found in
      let one : replay id (e ∷ []) old ≡ apply_entry e old = rw (t, replay) refl in
      rw (lookup-insert e.account_id id new accounts, t, moves)
        (ap some (sym one) ∙ ap (option_map (replay id (e ∷ []))) (sym here))
  | inr t ↦
      rw (lookup-insert e.account_id id new accounts, t)
        (sym (map-same (replay id (e ∷ [])) (λ a. rw (t, replay) refl) (lookup id accounts)))
]
