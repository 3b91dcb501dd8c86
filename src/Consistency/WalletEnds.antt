-- ===== src/Consistency/WalletEnds.antt =====
-- infrastructure/distributed-consistency/tcc_wallet.hpp: how a reservation ends.
use collections.Prelude.{◌≡◌, refl, Bool, true, false, Option-cases, inl, inr, string_eq}
use collections.Prelude.Dict.{lookup, lookup-insert_self}
use collections.Prelude.Double.{Sums}
use collections.Consistency.Wallet.{
  confirmed, cancelled, ReservationRecord, TccWallet, confirm, cancel,
}
use collections.Consistency.WalletLaws.{state-cases}
use Prim.Native.String.{String}

after_confirm :
    (sums : Sums) (id : String) (w : TccWallet)
    → (confirm sums id w).1 ≡ true
    → cancel sums id (confirm sums id w).0 ≡ ((confirm sums id w).0, false)
unfolding confirm cancel
after_confirm sums id w = elim (Option-cases (lookup id w.reservations)) [
  | inl h ↦ rw (h, confirm) (λ e. absurd (cc e))
  | inr (old, h) ↦ elim (state-cases old.state) [
    | inl e ↦
        let new : ReservationRecord = record old { state = confirmed } in
        rw (h, e, confirm) (λ _. rw (lookup-insert_self id new w.reservations, cancel) refl)
    | inr (inl e) ↦ rw (h, e, confirm) (λ _. rw (h, e, cancel) refl)
    | inr (inr e) ↦ rw (h, e, confirm) (λ f. absurd (cc f))
  ]
]

after_cancel :
    (sums : Sums) (id : String) (w : TccWallet)
    → (cancel sums id w).1 ≡ true
    → confirm sums id (cancel sums id w).0 ≡ ((cancel sums id w).0, false)
unfolding confirm cancel
after_cancel sums id w = elim (Option-cases (lookup id w.reservations)) [
  | inl h ↦ rw (h, cancel) (λ e. absurd (cc e))
  | inr (old, h) ↦ elim (state-cases old.state) [
    | inl e ↦
        let new : ReservationRecord = record old { state = cancelled } in
        rw (h, e, cancel) (λ _. rw (lookup-insert_self id new w.reservations, confirm) refl)
    | inr (inl e) ↦ rw (h, e, cancel) (λ f. absurd (cc f))
    | inr (inr e) ↦ rw (h, e, cancel) (λ _. rw (h, e, confirm) refl)
  ]
]

-- The two calls that end a reservation.
pub data Ending : Type 0 where
  by_confirm by_cancel : Ending

abbrev pub end_by : Ending → Sums → String → TccWallet → TccWallet × Bool
end_by by_confirm = confirm
end_by by_cancel = cancel

abbrev pub other_end : Ending → Ending
other_end by_confirm = by_cancel
other_end by_cancel = by_confirm

-- A reservation ends one way: after a confirmation that answered true a cancellation answers false
-- and changes nothing, and after a cancellation that answered true a confirmation does.
pub confirm_or_cancel :
    (first : Ending) (sums : Sums) (id : String) (w : TccWallet)
    → (end_by first sums id w).1 ≡ true
    → end_by (other_end first) sums id (end_by first sums id w).0
      ≡ ((end_by first sums id w).0, false)
confirm_or_cancel by_confirm = after_confirm
confirm_or_cancel by_cancel = after_cancel
