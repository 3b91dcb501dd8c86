-- ===== src/Clearing/SettlementJournal.antt =====
-- core-exchange/account-clearing-system: a settlement against the journal it writes, and a second
-- settlement of the same trade.
use collections.Prelude.{
  ◌≡◌, refl, sym, ◌∙◌, ap, true, Option, none, some, option_map, [], ◌∷◌, append_assoc, inl, inr,
  string_eq, subst, List, ◌++◌, keep_if-append, ◌==◌,
}
use collections.Prelude.Dict.{lookup, insert, contains-insert_self, contains}
use collections.Prelude.Double.{Fpu}
use collections.Clearing.Types.{
  AccountSnapshot, FeeSchedule, TradeFill, SettlementResult, ClearingSystem, only_status, duplicate,
  Holds, JournalEntry,
}
use collections.Clearing.Amounts.{SettlementAmounts, calculate_settlement_amounts}
use collections.Clearing.Holds.{append_journal, journal_of}
use collections.Clearing.Settle.{
  settle_spot_trade, bought, sold, buy_entry, sell_entry, append_settlement_journal,
  enqueue_settlement_outbox,
}
use Prim.Native.String.{String}
use collections.Clearing.Journal.{
  Explained, Explained-same, explained, journal_of-append, entries_of, map-replay, apply_entry,
  replay, lookup-insert-replay, snapshot_ext, plus_zero, plus_neg,
}
use collections.Clearing.Outcome.{
  SettlementApplied, settle_spot_trade_cases, settled_state, settled_result, is_applied,
}

buy_entry_moves :
    (fpu : Fpu) (fill : TradeFill) (fees : FeeSchedule) (seller a : AccountSnapshot)
    → bought fill (calculate_settlement_amounts fpu fill fees seller) a
      ≡ apply_entry (buy_entry fill (calculate_settlement_amounts fpu fill fees seller)) a
unfolding calculate_settlement_amounts apply_entry
buy_entry_moves fpu fill fees seller a =
    snapshot_ext _ _ (plus_zero a.available_quote) (plus_neg a.frozen_quote _) refl
      (plus_zero a.frozen_base) refl (plus_zero a.realized_pnl)

sell_entry_moves :
    (fpu : Fpu) (fill : TradeFill) (fees : FeeSchedule) (seller a : AccountSnapshot)
    → sold fill (calculate_settlement_amounts fpu fill fees seller) a
      ≡ apply_entry (sell_entry fill (calculate_settlement_amounts fpu fill fees seller)) a
unfolding calculate_settlement_amounts apply_entry
sell_entry_moves fpu fill fees seller a =
    snapshot_ext _ _ refl (plus_zero a.frozen_quote) (plus_zero a.available_base)
      (plus_neg a.frozen_base _) (plus_neg a.base_cost _) refl

-- The state after a call, which is the state before where the call is undefined.
abbrev pub state_after :
    Option (ClearingSystem × SettlementResult) → ClearingSystem → ClearingSystem
state_after none s = s
state_after (some r) s = r.0

-- The accounts and holds are written, the journal not yet.
abbrev settled_before :
    TradeFill
    → SettlementAmounts
    → AccountSnapshot
    → AccountSnapshot
    → Holds
    → ClearingSystem
    → ClearingSystem
settled_before fill amounts buyer seller holds s = record s {
  accounts =
      insert fill.seller_account_id (sold fill amounts seller)
        (insert fill.buyer_account_id (bought fill amounts buyer) s.accounts);
  holds = holds;
}

both_entries :
    (id : String) (e f : JournalEntry) (l : List JournalEntry)
    → (l ++ entries_of id (e ∷ [])) ++ entries_of id (f ∷ []) ≡ l ++ entries_of id (e ∷ f ∷ [])
both_entries id e f l =
    append_assoc l (entries_of id (e ∷ [])) (entries_of id (f ∷ []))
    ∙ ap (λ x. l ++ x) (sym (keep_if-append (λ x. x.account_id == id) (e ∷ []) (f ∷ [])))

-- A settlement returns, and appends to the journal of each account, as it is read, exactly what it
-- does to the balances of that account, and leaves what was there; on every branch, also when the
-- buyer and the seller are one account.
pub settle_spot_trade-Explained :
    (fpu : Fpu) (fill : TradeFill) (fees : FeeSchedule) (s : ClearingSystem)
    → (r : ClearingSystem × SettlementResult) × (settle_spot_trade fpu fill fees s ≡ some r)
      × Explained s r.0
unfolding append_journal append_settlement_journal enqueue_settlement_outbox replay
settle_spot_trade-Explained fpu fill fees s = elim (settle_spot_trade_cases fpu fill fees s) [
  | inl refused ↦ (_, refused.1, Explained-same s)
  | inr a ↦
      let amounts = calculate_settlement_amounts fpu fill fees a.seller in
      let buy = buy_entry fill amounts in
      let sell = sell_entry fill amounts in
      let before : ClearingSystem = settled_before fill amounts a.buyer a.seller' a.holds' s in
      (
        _,
        a.runs,
        explained (buy ∷ sell ∷ []) s _ (append_assoc s.journal_storage (buy ∷ []) (sell ∷ []))
            (λ id.
              journal_of-append id sell (append_journal buy before)
              ∙ ap (λ l. l ++ entries_of id (sell ∷ [])) (journal_of-append id buy before)
              ∙ both_entries id buy sell (journal_of id s))
            (λ id.
              lookup-insert-replay a.seller' _ sell _ a.seller_again
                (sell_entry_moves fpu fill fees a.seller a.seller') id
              ∙ ap (option_map (replay id (sell ∷ []))) (
                  lookup-insert-replay a.buyer _ buy s.accounts a.buyer_found
                    (buy_entry_moves fpu fill fees a.seller a.buyer) id)
              ∙ sym (map-replay id (buy ∷ []) (sell ∷ []) (lookup id s.accounts))),
      )
]

-- `settled_trade_ids_` after a settlement.
settled_is_known :
    (fill : TradeFill) (amounts : SettlementAmounts) (buyer seller : AccountSnapshot)
    (holds : Holds) (s : ClearingSystem)
    → contains fill.trade_id (settled_state fill amounts buyer seller holds s).settled_trade_ids
      ≡ true
unfolding append_journal append_settlement_journal enqueue_settlement_outbox
settled_is_known fill amounts buyer seller holds s =
    contains-insert_self fill.trade_id tt s.settled_trade_ids

some_injective : {A : Type 0} (x y : A) → some x ≡ some y → x ≡ y
some_injective x y h = cc h

-- What stands behind a result with the status `applied`.
pub applied_settlement :
    (fpu : Fpu) (fill : TradeFill) (fees : FeeSchedule) (s : ClearingSystem)
    (r : ClearingSystem × SettlementResult)
    → settle_spot_trade fpu fill fees s ≡ some r
    → is_applied r.1.status ≡ true
    → (a : SettlementApplied fpu fill fees s) × ((
      settled_state fill
          (calculate_settlement_amounts fpu fill fees a.seller)
          a.buyer
          a.seller'
          a.holds'
          s,
      settled_result (calculate_settlement_amounts fpu fill fees a.seller),
    )
        ≡ r)
applied_settlement fpu fill fees s r h ok = elim (settle_spot_trade_cases fpu fill fees s) [
  | inl refused ↦
      let e = some_injective _ _ (sym refused.1 ∙ h) in
      absurd (
        cc (ok, refused.2, ap (λ (x : ClearingSystem × SettlementResult). is_applied x.1.status) e))
  | inr a ↦ (a, some_injective _ _ (sym a.runs ∙ h))
]

-- A trade is settled once: after an applied settlement, any fill with the same trade id, under any
-- fees, is answered `duplicate` and changes nothing.
pub settle_spot_trade_once :
    (fpu : Fpu) (fill again : TradeFill) (fees fees' : FeeSchedule) (s : ClearingSystem)
    (r : ClearingSystem × SettlementResult)
    → settle_spot_trade fpu fill fees s ≡ some r
    → is_applied r.1.status ≡ true
    → again.trade_id ≡ fill.trade_id
    → settle_spot_trade fpu again fees' r.0 ≡ some (r.0, only_status duplicate)
unfolding settle_spot_trade
settle_spot_trade_once fpu fill again fees fees' s r h ok same =
    let a = applied_settlement fpu fill fees s r h ok in
    let known =
      settled_is_known fill (calculate_settlement_amounts fpu fill fees a.0.seller) a.0.buyer
        a.0.seller' a.0.holds' s in
    subst
      (λ (x : ClearingSystem × SettlementResult).
        settle_spot_trade fpu again fees' x.0 ≡ some (x.0, only_status duplicate))
      a.1 (rw (same, known, settle_spot_trade) refl)
