-- ===== src/Consistency/WalletRuns.antt =====
-- infrastructure/distributed-consistency/tcc_wallet.hpp: a run on amounts whose sums are not rounded.
use collections.Prelude.{
  ◌≡◌, refl, sym, ap, subst, Bool-cases, some, Option-cases, List, [], ◌∷◌, All, inl, inr,
  string_eq, ◌==◌,
}
use collections.Prelude.Int.{
  ℤ, pos, ◌≤ℤ◌, ltb_ℤ, leb_ℤ, int_laws, pos_part, neg_part, ltb_ℤ→≤ℤ, leb_ℤ→<ℤ,
}
use collections.Prelude.Dict.{Dict, lookup, insert, emplace_new}
use collections.Prelude.Double.{Sums, exact, IsExactOn}
use collections.Consistency.Wallet.{
  reserved, confirmed, cancelled, ReservationRecord, TccWallet, make_wallet, try_reserve, confirm,
  cancel,
}
use collections.Consistency.WalletLaws.{
  Balanced, WalletCall, reserve_call, confirm_call, cancel_call, call_wallet, call_all,
  make_wallet-Balanced, call_wallet-Balanced, state-cases,
}
use collections.Consistency.WalletSums.{reserved-InRange, balances-above}
use Prim.Native.String.{String}

module _ (IsAmount : ℤ → Type 0) where
  AreAmounts : Dict String ReservationRecord → Type 0
  AreAmounts d = All (λ (entry : String × ReservationRecord). IsAmount entry.1.amount) d

  AreAmounts-insert :
      (id : String) (new : ReservationRecord) (d : Dict String ReservationRecord)
      → AreAmounts d
      → IsAmount new.amount
      → AreAmounts (insert id new d)
  unfolding insert AreAmounts
  AreAmounts-insert id new [] all h = (h, tt)
  AreAmounts-insert id new ((j, r) ∷ d) all h = elim (Bool-cases (j == id)) [
    | inl t ↦ rw (t) (h, all.1)
    | inr t ↦ rw (t) (all.0, AreAmounts-insert id new d all.1 h)
  ]

  AreAmounts-lookup :
      (id : String) (r : ReservationRecord) (d : Dict String ReservationRecord)
      → AreAmounts d
      → lookup id d ≡ some r
      → IsAmount r.amount
  unfolding lookup AreAmounts
  AreAmounts-lookup id r [] all h = absurd (cc h)
  AreAmounts-lookup id r ((j, x) ∷ d) all h = elim (Bool-cases (j == id)) [
    | inl t ↦
        let same : x ≡ r = cc (rw t at h) in
        subst (λ (y : ReservationRecord). IsAmount y.amount) same all.0
    | inr t ↦ AreAmounts-lookup id r d all.1 (rw t at h)
  ]

  -- Every number of the wallet is an amount.
  record InAmounts (w : TccWallet) : Type 0 where
    available_ok : IsAmount w.available
    held_ok : IsAmount w.held
    committed_ok : IsAmount w.committed
    records_ok : AreAmounts w.reservations

  -- A wallet, as it is with rounding and without.
  abbrev Agrees : TccWallet → TccWallet → Type 0
  Agrees rounded w = (rounded ≡ w) × InAmounts w

  -- The amounts of the calls.
  abbrev pub GivesAmounts : WalletCall → Type 0
  GivesAmounts (reserve_call id amount) = IsAmount amount
  GivesAmounts _ = Unit

  module _ (sums : Sums) (balance : ℤ) (ok : IsExactOn sums IsAmount balance) where
    confirm-Agrees :
        (id : String) (w : TccWallet)
        → Balanced balance w
        → InAmounts w
        → Agrees (confirm sums id w).0 (confirm exact id w).0
    unfolding confirm
    confirm-Agrees id w b a = elim (Option-cases (lookup id w.reservations)) [
      | inl h ↦ rw (h, confirm) (refl, a)
      | inr (old, h) ↦ elim (state-cases old.state) [
        | inr (inl e) ↦ rw (h, e, confirm) (refl, a)
        | inr (inr e) ↦ rw (h, e, confirm) (refl, a)
        | inl e ↦
            let range = reserved-InRange balance id old w b h e in
            let amount_ok = AreAmounts-lookup id old w.reservations a.records_ok h in
            let (less, less_ok) =
              ok.sub_ok w.held old.amount a.held_ok amount_ok range.not_below range.covered
                range.held_in in
            let (more, more_ok) =
              ok.add_ok w.committed old.amount a.committed_ok amount_ok range.committed_above
                range.not_below range.committed_in in
            rw (h, e, confirm)
              (rw (less, more)
                (
                  refl,
                  record {
                    available_ok = a.available_ok;
                    held_ok = less_ok;
                    committed_ok = more_ok;
                    records_ok =
                        AreAmounts-insert id (record old { state = confirmed }) w.reservations
                          a.records_ok amount_ok;
                  },
                ))
      ]
    ]

    cancel-Agrees :
        (id : String) (w : TccWallet)
        → Balanced balance w
        → InAmounts w
        → Agrees (cancel sums id w).0 (cancel exact id w).0
    unfolding cancel
    cancel-Agrees id w b a = elim (Option-cases (lookup id w.reservations)) [
      | inl h ↦ rw (h, cancel) (refl, a)
      | inr (old, h) ↦ elim (state-cases old.state) [
        | inr (inl e) ↦ rw (h, e, cancel) (refl, a)
        | inr (inr e) ↦ rw (h, e, cancel) (refl, a)
        | inl e ↦
            let range = reserved-InRange balance id old w b h e in
            let amount_ok = AreAmounts-lookup id old w.reservations a.records_ok h in
            let (less, less_ok) =
              ok.sub_ok w.held old.amount a.held_ok amount_ok range.not_below range.covered
                range.held_in in
            let (more, more_ok) =
              ok.add_ok w.available old.amount a.available_ok amount_ok b.solvent range.not_below
                range.available_in in
            rw (h, e, cancel)
              (rw (less, more)
                (
                  refl,
                  record {
                    available_ok = more_ok;
                    held_ok = less_ok;
                    committed_ok = a.committed_ok;
                    records_ok =
                        AreAmounts-insert id (record old { state = cancelled }) w.reservations
                          a.records_ok amount_ok;
                  },
                ))
      ]
    ]

    try_reserve-Agrees :
        (id : String) (amount : ℤ) (w : TccWallet)
        → IsAmount amount
        → Balanced balance w
        → InAmounts w
        → Agrees (try_reserve sums id amount w).0 (try_reserve exact id amount w).0
    unfolding try_reserve
    try_reserve-Agrees id amount w amount_ok b a = elim (Option-cases (lookup id w.reservations)) [
      | inr h ↦ rw (h.1, try_reserve) (refl, a)
      | inl h ↦ elim (Bool-cases (leb_ℤ amount (pos 0))) [
        | inl p ↦ rw (h, p, try_reserve) (refl, a)
        | inr p ↦ elim (Bool-cases (ltb_ℤ w.available amount)) [
          | inl q ↦ rw (h, p, q, try_reserve) (refl, a)
          | inr q ↦
              let above = leb_ℤ→<ℤ amount (pos 0) p in
              let enough = ltb_ℤ→≤ℤ w.available amount q in
              let (held_above, committed_above) = balances-above balance w b in
              let whole = b.whole_sum in
              let not_below : pos 0 ≤ℤ amount = omega (int_laws, above) in
              let new : ReservationRecord = record {
                reservation_id = id;
                amount = amount;
                state = reserved;
              } in
              let (less, less_ok) =
                ok.sub_ok w.available amount a.available_ok amount_ok not_below enough (
                  omega (
                    int_laws,
                    ap pos_part whole,
                    ap neg_part whole,
                    held_above,
                    committed_above,
                  )) in
              let (more, more_ok) =
                ok.add_ok w.held amount a.held_ok amount_ok held_above not_below (
                  omega
                    (int_laws, ap pos_part whole, ap neg_part whole, enough, committed_above)) in
              rw (h, p, q, try_reserve)
                (rw (emplace_new id new w.reservations h, less, more)
                  (
                    refl,
                    record {
                      available_ok = less_ok;
                      held_ok = more_ok;
                      committed_ok = a.committed_ok;
                      records_ok = AreAmounts-insert id new w.reservations a.records_ok amount_ok;
                    },
                  ))
        ]
      ]
    ]

    call_wallet-Agrees :
        (c : WalletCall) (w : TccWallet)
        → GivesAmounts c
        → Balanced balance w
        → InAmounts w
        → Agrees (call_wallet sums c w) (call_wallet exact c w)
    unfolding call_wallet
    call_wallet-Agrees (reserve_call id amount) w g b a = try_reserve-Agrees id amount w g b a
    call_wallet-Agrees (confirm_call id) w g b a = confirm-Agrees id w b a
    call_wallet-Agrees (cancel_call id) w g b a = cancel-Agrees id w b a

    call_all-keeps :
        (cs : List WalletCall) (w : TccWallet)
        → All GivesAmounts cs
        → Balanced balance w
        → InAmounts w
        → Balanced balance (call_all sums cs w)
    unfolding call_all
    call_all-keeps [] w g b a = b
    call_all-keeps (c ∷ cs) w g b a =
        let (same, still) = call_wallet-Agrees c w g.0 b a in
        subst (λ x. Balanced balance (call_all sums cs x)) (sym same)
          (call_all-keeps cs (call_wallet exact c w) g.1 (call_wallet-Balanced c balance w b) still)

-- From an opening balance that is not below zero, whatever calls are made and in whatever order, the
-- books of the wallet balance: the three balances add up to the opening one, `reserved_` and
-- `committed_` are the sums over the records in those states, and `available_` is not below zero. This
-- is stated of an opening balance, and of amounts that are reserved, on which sums and differences
-- between zero and the opening balance are not rounded.
pub call_all-Balanced :
    (IsAmount : ℤ → Type 0) (sums : Sums) (cs : List WalletCall) (balance : ℤ)
    → IsExactOn sums IsAmount balance
    → IsAmount balance
    → All (GivesAmounts IsAmount) cs
    → pos 0 ≤ℤ balance
    → Balanced balance (call_all sums cs (make_wallet balance))
unfolding make_wallet AreAmounts
call_all-Balanced IsAmount sums cs balance ok opening given h =
    call_all-keeps IsAmount sums balance ok cs (make_wallet balance) given
      (make_wallet-Balanced balance h)
      (record {
        available_ok = opening;
        held_ok = ok.zero_ok;
        committed_ok = ok.zero_ok;
        records_ok = tt;
      })
