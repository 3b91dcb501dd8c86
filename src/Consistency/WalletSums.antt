-- ===== src/Consistency/WalletSums.antt =====
-- infrastructure/distributed-consistency/tcc_wallet.hpp: on amounts whose sums are not rounded the wallet
-- does what it does without rounding.
use collections.Prelude.{◌≡◌, sym, ap, subst, some, [], ◌∷◌, All, inl, inr, string_eq}
use collections.Prelude.Int.{ℤ, pos, ◌+ℤ◌, ◌≤ℤ◌, int_laws, pos_part, neg_part}
use collections.Prelude.Dict.{Dict, lookup, insert, total, total-insert}
use collections.Consistency.Wallet.{reserved, cancelled, ReservationRecord, TccWallet}
use collections.Consistency.WalletLaws.{
  held_amount, committed_amount, Positive, Balanced, Positive-insert, Positive-lookup,
  held_as_reserved, state-cases,
}
use Prim.Native.String.{String}

total-above :
    (f : ReservationRecord → ℤ) (d : Dict String ReservationRecord)
    → ((r : ReservationRecord) → pos 0 ≤ℤ r.amount → pos 0 ≤ℤ f r)
    → All Positive d
    → pos 0 ≤ℤ total f d
unfolding total
total-above f [] h all = omega int_laws
total-above f ((id, r) ∷ d) h all =
    let here = h r all.0 in let rest = total-above f d h all.1 in omega (int_laws, here, rest)

held-above : (r : ReservationRecord) → pos 0 ≤ℤ r.amount → pos 0 ≤ℤ held_amount r
unfolding held_amount
held-above r h = elim (state-cases r.state) [
  | inl e ↦ rw (e, held_amount) h
  | inr (inl e) ↦ rw (e, held_amount) (omega int_laws)
  | inr (inr e) ↦ rw (e, held_amount) (omega int_laws)
]

committed-above : (r : ReservationRecord) → pos 0 ≤ℤ r.amount → pos 0 ≤ℤ committed_amount r
unfolding committed_amount
committed-above r h = elim (state-cases r.state) [
  | inl e ↦ rw (e, committed_amount) (omega int_laws)
  | inr (inl e) ↦ rw (e, committed_amount) h
  | inr (inr e) ↦ rw (e, committed_amount) (omega int_laws)
]

-- The bounds that a reservation is in.
pub record InRange (balance : ℤ) (old : ReservationRecord) (w : TccWallet) : Type 0 where
  pub not_below : pos 0 ≤ℤ old.amount
  pub covered : old.amount ≤ℤ w.held
  pub held_in : w.held ≤ℤ balance
  pub held_above : pos 0 ≤ℤ w.held
  pub committed_above : pos 0 ≤ℤ w.committed
  pub committed_in : w.committed +ℤ old.amount ≤ℤ balance
  pub available_in : w.available +ℤ old.amount ≤ℤ balance

pub balances-above :
    (balance : ℤ) (w : TccWallet) → Balanced balance w → (pos 0 ≤ℤ w.held) × (pos 0 ≤ℤ w.committed)
balances-above balance w b = (
  subst (λ x. pos 0 ≤ℤ x) (sym b.held_sum)
      (total-above held_amount w.reservations held-above b.positive),
  subst (λ x. pos 0 ≤ℤ x) (sym b.committed_sum)
      (total-above committed_amount w.reservations committed-above b.positive),
)

pub reserved-InRange :
    (balance : ℤ) (id : String) (old : ReservationRecord) (w : TccWallet)
    → Balanced balance w
    → lookup id w.reservations ≡ some old
    → old.state ≡ reserved
    → InRange balance old w
unfolding held_amount
reserved-InRange balance id old w b there e =
    let gone : ReservationRecord = record old { state = cancelled } in
    let amount_ok = Positive-lookup id old w.reservations b.positive there in
    let less = total-insert held_amount id old gone w.reservations there in
    let rest =
      total-above held_amount (insert id gone w.reservations) held-above
        (Positive-insert id gone w.reservations b.positive amount_ok) in
    let here = held_as_reserved old e in
    let sum = b.held_sum in
    let (held_ok, committed_ok) = balances-above balance w b in
    let whole = b.whole_sum in
    let solvent = b.solvent in
    let covered : old.amount ≤ℤ w.held = omega (
      int_laws,
      ap pos_part less,
      ap neg_part less,
      rest,
      ap pos_part here,
      ap neg_part here,
      ap pos_part sum,
      ap neg_part sum,
    ) in
    record {
      not_below = amount_ok;
      covered = covered;
      held_in = omega (int_laws, ap pos_part whole, ap neg_part whole, solvent, committed_ok);
      held_above = held_ok;
      committed_above = committed_ok;
      committed_in = omega (int_laws, ap pos_part whole, ap neg_part whole, solvent, covered);
      available_in = omega (int_laws, ap pos_part whole, ap neg_part whole, committed_ok, covered);
    }
