-- ===== src/Consistency/WalletLaws.antt =====
-- infrastructure/distributed-consistency/tcc_wallet.hpp: the wallet's books balance where nothing is
-- rounded.
use collections.Prelude.{
  ◌≡◌, refl, ap, subst, false, Bool-cases, none, some, Option-cases, List, [], ◌∷◌, All, inl, inr,
  ◌⊎◌, string_eq, ◌==◌,
}
use collections.Prelude.Int.{
  ℤ, pos, ◌+ℤ◌, ◌-ℤ◌, ◌≤ℤ◌, ltb_ℤ, leb_ℤ, int_laws, pos_part, neg_part, ltb_ℤ→≤ℤ, leb_ℤ→<ℤ,
}
use collections.Prelude.Dict.{
  lookup, insert, total, total-insert, total-insert_new, emplace_new, Dict,
}
use collections.Prelude.Double.{Sums, exact}
use collections.Consistency.Wallet.{
  ReservationState, reserved, confirmed, cancelled, ReservationRecord, TccWallet, make_wallet,
  try_reserve, confirm, cancel,
}
use Prim.Native.String.{String}

-- What a reservation counts for in `reserved_` and in `committed_`.
unfoldable pub held_amount : ReservationRecord → ℤ
held_amount r = elim r.state [ reserved ↦ r.amount | confirmed ↦ pos 0 | cancelled ↦ pos 0 ]

unfoldable pub committed_amount : ReservationRecord → ℤ
committed_amount r = elim r.state [ reserved ↦ pos 0 | confirmed ↦ r.amount | cancelled ↦ pos 0 ]

abbrev pub Positive : String × ReservationRecord → Type 0
Positive entry = pos 0 ≤ℤ entry.1.amount

-- The books balance: the three balances add up to the opening one, `reserved_` and `committed_` are
-- the sums over the records in those states, and nothing is below zero.
pub record Balanced (balance : ℤ) (w : TccWallet) : Type 0 where
  pub whole_sum : w.available +ℤ w.held +ℤ w.committed ≡ balance
  pub held_sum : w.held ≡ total held_amount w.reservations
  pub committed_sum : w.committed ≡ total committed_amount w.reservations
  pub solvent : pos 0 ≤ℤ w.available
  pub positive : All Positive w.reservations

-- The calls of the wallet.
pub data WalletCall : Type 0 where
  reserve_call : String → ℤ → WalletCall
  confirm_call cancel_call : String → WalletCall

unfoldable pub call_wallet : Sums → WalletCall → TccWallet → TccWallet
call_wallet sums (reserve_call id amount) w = (try_reserve sums id amount w).0
call_wallet sums (confirm_call id) w = (confirm sums id w).0
call_wallet sums (cancel_call id) w = (cancel sums id w).0

unfoldable pub call_all : Sums → List WalletCall → TccWallet → TccWallet
call_all sums [] w = w
call_all sums (c ∷ cs) w = call_all sums cs (call_wallet sums c w)

pub make_wallet-Balanced : (balance : ℤ) → pos 0 ≤ℤ balance → Balanced balance (make_wallet balance)
unfolding make_wallet total lookup
make_wallet-Balanced balance h = record {
  whole_sum = omega int_laws;
  held_sum = refl;
  committed_sum = refl;
  solvent = h;
  positive = tt;
}

pub Positive-insert :
    (id : String) (new : ReservationRecord) (d : Dict String ReservationRecord)
    → All Positive d
    → pos 0 ≤ℤ new.amount
    → All Positive (insert id new d)
unfolding insert
Positive-insert id new [] all h = (h, tt)
Positive-insert id new ((j, r) ∷ d) all h = elim (Bool-cases (j == id)) [
  | inl t ↦ rw (t) (h, all.1)
  | inr t ↦ rw (t) (all.0, Positive-insert id new d all.1 h)
]

pub Positive-lookup :
    (id : String) (r : ReservationRecord) (d : Dict String ReservationRecord)
    → All Positive d
    → lookup id d ≡ some r
    → pos 0 ≤ℤ r.amount
unfolding lookup
Positive-lookup id r [] all h = absurd (cc h)
Positive-lookup id r ((j, x) ∷ d) all h = elim (Bool-cases (j == id)) [
  | inl t ↦
      let same : x ≡ r = cc (rw t at h) in
      subst (λ (y : ReservationRecord). pos 0 ≤ℤ y.amount) same all.0
  | inr t ↦ Positive-lookup id r d all.1 (rw t at h)
]

-- A reservation leaves the state `reserved`.
abbrev moved : ReservationState → ReservationRecord → TccWallet → String → TccWallet
moved confirmed old w id = record w {
  held = w.held -ℤ old.amount;
  committed = w.committed +ℤ old.amount;
  reservations = insert id (record old { state = confirmed }) w.reservations;
}
moved cancelled old w id = record w {
  held = w.held -ℤ old.amount;
  available = w.available +ℤ old.amount;
  reservations = insert id (record old { state = cancelled }) w.reservations;
}
moved reserved old w id = w

moved-Balanced :
    (state : ReservationState) (old : ReservationRecord) (w : TccWallet) (id : String) (balance : ℤ)
    → Balanced balance w
    → lookup id w.reservations ≡ some old
    → held_amount old ≡ old.amount
    → committed_amount old ≡ pos 0
    → Balanced balance (moved state old w id)
unfolding held_amount committed_amount
moved-Balanced reserved old w id balance b h p q = b
moved-Balanced confirmed old w id balance b h p q =
    let new = record old { state = confirmed } in
    let t = total-insert held_amount id old new w.reservations h in
    let u = total-insert committed_amount id old new w.reservations h in
    record {
      whole_sum = omega (int_laws, ap pos_part b.whole_sum, ap neg_part b.whole_sum);
      held_sum = omega (
        int_laws,
        ap pos_part t,
        ap neg_part t,
        ap pos_part b.held_sum,
        ap neg_part b.held_sum,
        ap pos_part p,
        ap neg_part p,
      );
      committed_sum = omega (
        int_laws,
        ap pos_part u,
        ap neg_part u,
        ap pos_part b.committed_sum,
        ap neg_part b.committed_sum,
        ap pos_part q,
        ap neg_part q,
      );
      solvent = b.solvent;
      positive =
          Positive-insert id new w.reservations b.positive
            (Positive-lookup id old w.reservations b.positive h);
    }
moved-Balanced cancelled old w id balance b h p q =
    let new = record old { state = cancelled } in
    let t = total-insert held_amount id old new w.reservations h in
    let u = total-insert committed_amount id old new w.reservations h in
    let enough = Positive-lookup id old w.reservations b.positive h in
    let had = b.solvent in
    record {
      whole_sum = omega (int_laws, ap pos_part b.whole_sum, ap neg_part b.whole_sum);
      held_sum = omega (
        int_laws,
        ap pos_part t,
        ap neg_part t,
        ap pos_part b.held_sum,
        ap neg_part b.held_sum,
        ap pos_part p,
        ap neg_part p,
      );
      committed_sum = omega (
        int_laws,
        ap pos_part u,
        ap neg_part u,
        ap pos_part b.committed_sum,
        ap neg_part b.committed_sum,
        ap pos_part q,
        ap neg_part q,
      );
      solvent = omega (int_laws, enough, had);
      positive =
          Positive-insert id new w.reservations b.positive
            (Positive-lookup id old w.reservations b.positive h);
    }

pub held_as_reserved : (r : ReservationRecord) → r.state ≡ reserved → held_amount r ≡ r.amount
unfolding held_amount
held_as_reserved r h = rw (h, held_amount) refl

uncommitted_as_reserved : (r : ReservationRecord) → r.state ≡ reserved → committed_amount r ≡ pos 0
unfolding committed_amount
uncommitted_as_reserved r h = rw (h, committed_amount) refl

pub state-cases : (x : ReservationState) → (x ≡ reserved) ⊎ ((x ≡ confirmed) ⊎ (x ≡ cancelled))
state-cases reserved = inl refl
state-cases confirmed = inr (inl refl)
state-cases cancelled = inr (inr refl)

confirm-Balanced :
    (id : String) (balance : ℤ) (w : TccWallet)
    → Balanced balance w
    → Balanced balance (confirm exact id w).0
unfolding confirm
confirm-Balanced id balance w b = elim (Option-cases (lookup id w.reservations)) [
  | inl h ↦ rw (h, confirm) b
  | inr (old, h) ↦ elim (state-cases old.state) [
    | inl e ↦
        rw (h, e, confirm)
          (moved-Balanced confirmed old w id balance b h (held_as_reserved old e)
            (uncommitted_as_reserved old e))
    | inr (inl e) ↦ rw (h, e, confirm) b
    | inr (inr e) ↦ rw (h, e, confirm) b
  ]
]

cancel-Balanced :
    (id : String) (balance : ℤ) (w : TccWallet)
    → Balanced balance w
    → Balanced balance (cancel exact id w).0
unfolding cancel
cancel-Balanced id balance w b = elim (Option-cases (lookup id w.reservations)) [
  | inl h ↦ rw (h, cancel) b
  | inr (old, h) ↦ elim (state-cases old.state) [
    | inl e ↦
        rw (h, e, cancel)
          (moved-Balanced cancelled old w id balance b h (held_as_reserved old e)
            (uncommitted_as_reserved old e))
    | inr (inl e) ↦ rw (h, e, cancel) b
    | inr (inr e) ↦ rw (h, e, cancel) b
  ]
]

-- `try_reserve` once its tests have passed.
reserved_wallet : String → ℤ → TccWallet → TccWallet
reserved_wallet id amount w = record w {
  available = w.available -ℤ amount;
  held = w.held +ℤ amount;
  reservations =
      insert id (record { reservation_id = id; amount = amount; state = reserved }) w.reservations;
}

reserved_wallet-Balanced :
    (id : String) (amount balance : ℤ) (w : TccWallet)
    → Balanced balance w
    → lookup id w.reservations ≡ none
    → leb_ℤ amount (pos 0) ≡ false
    → ltb_ℤ w.available amount ≡ false
    → Balanced balance (reserved_wallet id amount w)
unfolding reserved_wallet held_amount committed_amount
reserved_wallet-Balanced id amount balance w b h p q =
    let new : ReservationRecord = record {
      reservation_id = id;
      amount = amount;
      state = reserved;
    } in
    let t = total-insert_new held_amount id new w.reservations h in
    let u = total-insert_new committed_amount id new w.reservations h in
    let above = leb_ℤ→<ℤ amount (pos 0) p in
    let enough = ltb_ℤ→≤ℤ w.available amount q in
    record {
      whole_sum = omega (int_laws, ap pos_part b.whole_sum, ap neg_part b.whole_sum);
      held_sum =
          omega (
            int_laws,
            ap pos_part t,
            ap neg_part t,
            ap pos_part b.held_sum,
            ap neg_part b.held_sum,
          );
      committed_sum = omega (
        int_laws,
        ap pos_part u,
        ap neg_part u,
        ap pos_part b.committed_sum,
        ap neg_part b.committed_sum,
      );
      solvent = omega (int_laws, enough);
      positive = Positive-insert id new w.reservations b.positive (omega (int_laws, above));
    }

try_reserve-Balanced :
    (id : String) (amount balance : ℤ) (w : TccWallet)
    → Balanced balance w
    → Balanced balance (try_reserve exact id amount w).0
unfolding try_reserve reserved_wallet
try_reserve-Balanced id amount balance w b = elim (Option-cases (lookup id w.reservations)) [
  | inr h ↦ rw (h.1, try_reserve) b
  | inl h ↦ elim (Bool-cases (leb_ℤ amount (pos 0))) [
    | inl p ↦ rw (h, p, try_reserve) b
    | inr p ↦ elim (Bool-cases (ltb_ℤ w.available amount)) [
      | inl q ↦ rw (h, p, q, try_reserve) b
      | inr q ↦
          let new : ReservationRecord = record {
            reservation_id = id;
            amount = amount;
            state = reserved;
          } in
          rw (h, p, q, try_reserve)
            (rw (emplace_new id new w.reservations h)
              (reserved_wallet-Balanced id amount balance w b h p q))
    ]
  ]
]

pub call_wallet-Balanced :
    (c : WalletCall) (balance : ℤ) (w : TccWallet)
    → Balanced balance w
    → Balanced balance (call_wallet exact c w)
unfolding call_wallet
call_wallet-Balanced (reserve_call id amount) balance w b =
    try_reserve-Balanced id amount balance w b
call_wallet-Balanced (confirm_call id) balance w b = confirm-Balanced id balance w b
call_wallet-Balanced (cancel_call id) balance w b = cancel-Balanced id balance w b
