-- ===== src/Consistency/Wallet.antt =====
-- infrastructure/distributed-consistency/tcc_wallet.hpp: reservations that are confirmed or
-- cancelled. Each method holds the mutex throughout, so it is one step. Sums and differences of amounts
-- are the processor's, which rounds them.
use collections.Prelude.{Bool, true, false, ◌&&◌, ◌||◌, none, some, [], if◌then◌else◌, string_eq}
use collections.Prelude.Int.{ℤ, pos, ltb_ℤ, leb_ℤ, eqb_ℤ}
use collections.Prelude.Double.{Sums}
use collections.Prelude.Dict.{Dict, lookup, insert, emplace}
use Prim.Native.String.{String}

pub data ReservationState : Type 0 where
  reserved confirmed cancelled : ReservationState

pub record ReservationRecord : Type 0 where
  pub reservation_id : String
  pub amount : ℤ
  pub state : ReservationState

pub record TccWallet : Type 0 where
  pub available : ℤ
  pub held : ℤ
  pub committed : ℤ
  pub reservations : Dict String ReservationRecord

unfoldable pub make_wallet : ℤ → TccWallet
make_wallet balance = record {
  available = balance;
  held = pos 0;
  committed = pos 0;
  reservations = [];
}

abbrev pub is_reserved : ReservationState → Bool
is_reserved reserved = true
is_reserved _ = false

unfoldable pub try_reserve : Sums → String → ℤ → TccWallet → TccWallet × Bool
try_reserve sums reservation_id amount w = elim (lookup reservation_id w.reservations) [
  | some old ↦ (w, is_reserved old.state && eqb_ℤ old.amount amount)
  | none ↦ if leb_ℤ amount (pos 0) || ltb_ℤ w.available amount then (w, false) else (
    record w {
      available = sums.sub w.available amount;
      held = sums.add w.held amount;
      reservations =
          emplace reservation_id
            (record { reservation_id = reservation_id; amount = amount; state = reserved })
            w.reservations;
    },
    true,
  )
]

unfoldable pub confirm : Sums → String → TccWallet → TccWallet × Bool
confirm sums reservation_id w = elim (lookup reservation_id w.reservations) [
  | none ↦ (w, false)
  | some old ↦ elim old.state [
    | confirmed ↦ (w, true)
    | cancelled ↦ (w, false)
    | reserved ↦ (
      record w {
        held = sums.sub w.held old.amount;
        committed = sums.add w.committed old.amount;
        reservations = insert reservation_id (record old { state = confirmed }) w.reservations;
      },
      true,
    )
  ]
]

unfoldable pub cancel : Sums → String → TccWallet → TccWallet × Bool
cancel sums reservation_id w = elim (lookup reservation_id w.reservations) [
  | none ↦ (w, false)
  | some old ↦ elim old.state [
    | cancelled ↦ (w, true)
    | confirmed ↦ (w, false)
    | reserved ↦ (
      record w {
        held = sums.sub w.held old.amount;
        available = sums.add w.available old.amount;
        reservations = insert reservation_id (record old { state = cancelled }) w.reservations;
      },
      true,
    )
  ]
]
