-- ===== src/Observability/Calls.antt =====
-- tooling/observability-stack: whatever is called, the history is no longer than its limit.
use collections.Prelude.{
  ℕ, ◌+◌, ◌≤◌, ◌<◌, ◌≡◌, refl, subst, false, Bool-cases, ◌||◌, Option, none, some, Option-cases,
  List, [], ◌∷◌, length, ◌==◌, nat_eq, string_eq, inl, inr, arith,
}
use collections.Prelude.Int.{ℤ}
use collections.Prelude.Text.{is_empty}
use collections.Ring.{push, make_ring}
use collections.Observability.Types.{
  MetricPoint, TraceSpan, AlertRule, Envelope, metric_envelope, span_envelope, Observability,
  make_stack,
}
use collections.Observability.Stack.{
  publish_envelope, publish_metric, publish_span, register_rule, flush,
}
use collections.Observability.History.{IsBounded, drain_loop-returns}
use collections.Ring.Sized.{push-IsSized, make_ring-IsSized}

-- A call of the stack.
pub data Call : Type 0 where
  metric : MetricPoint → Call
  span : TraceSpan → Call
  rule : AlertRule → Call
  flushing : Call

-- The state after a call; `none` is an exception, or a flush that does not end.
unfoldable pub call : (ℤ → ℤ) → Call → Observability → Option Observability
call to_double (metric point) o = some (publish_metric point o).0
call to_double (span s) o = some (publish_span s o).0
call to_double (rule r) o = register_rule r o
call to_double flushing o = elim (flush to_double o) [ none ↦ none | some (o', n) ↦ some o' ]

unfoldable pub call_all : (ℤ → ℤ) → List Call → Observability → Option Observability
unfolding call
call_all to_double [] o = some o
call_all to_double (c ∷ calls) o = elim (call to_double c o) [
  | none ↦ none
  | some o' ↦ call_all to_double calls o'
]

-- If there is a state, it is bounded.
abbrev IsSafe : Option Observability → Type 0
IsSafe none = Unit
IsSafe (some o) = IsBounded o

publish_envelope-IsBounded :
    (envelope : Envelope) (o : Observability)
    → IsBounded o
    → IsBounded (publish_envelope envelope o).0
unfolding publish_envelope
publish_envelope-IsBounded envelope o b =
    let pushed = push-IsSized envelope o.queue b.sized in
    elim (Bool-cases (push envelope o.queue).1) [
      | inl e ↦
          rw (e, publish_envelope)
            (record { within = b.within; positive = b.positive; sized = pushed })
      | inr e ↦
          rw (e, publish_envelope)
            (record { within = b.within; positive = b.positive; sized = b.sized })
    ]

flush-returns :
    (to_double : ℤ → ℤ) (o : Observability)
    → IsBounded o
    → (o' : Observability) × (processed : ℕ) × (flush to_double o ≡ some (o', processed))
      × IsBounded o'
unfolding flush
flush-returns to_double o b =
    let fits = b.sized.fits in
    drain_loop-returns to_double (o.queue.capacity + 1) 0 o b (omega (arith, fits))

flush-IsSafe :
    (to_double : ℤ → ℤ) (o : Observability) → IsBounded o → IsSafe (call to_double flushing o)
unfolding call
flush-IsSafe to_double o b =
    let (o', processed, run, safe) = flush-returns to_double o b in rw (run, call) safe

call-IsSafe :
    (to_double : ℤ → ℤ) (c : Call) (o : Observability) → IsBounded o → IsSafe (call to_double c o)
unfolding call publish_metric publish_span register_rule
call-IsSafe to_double (metric point) o b = publish_envelope-IsBounded (metric_envelope point) o b
call-IsSafe to_double (span s) o b = publish_envelope-IsBounded (span_envelope s) o b
call-IsSafe to_double flushing o b = flush-IsSafe to_double o b
call-IsSafe to_double (rule r) o b =
    elim (Bool-cases
      (is_empty r.rule_id || is_empty r.metric_name || r.consecutive_breaches == 0)) [
        | inl e ↦ rw (e, register_rule) tt
        | inr e ↦
            rw (e, register_rule)
              (record { within = b.within; positive = b.positive; sized = b.sized })
      ]

call_all-IsSafe :
    (to_double : ℤ → ℤ) (calls : List Call) (o : Observability)
    → IsBounded o
    → IsSafe (call_all to_double calls o)
unfolding call_all
call_all-IsSafe to_double [] o b = b
call_all-IsSafe to_double (c ∷ calls) o b =
    go (call to_double c o) refl (call-IsSafe to_double c o b) (call_all-IsSafe to_double calls)
  where
    go :
        (answer : Option Observability)
        → call to_double c o ≡ answer
        → IsSafe answer
        → ((o' : Observability) → IsBounded o' → IsSafe (call_all to_double calls o'))
        → IsSafe (call_all to_double (c ∷ calls) o)
    go none run safe onward = rw (run, call_all) tt
    go (some o') run safe onward = rw (run, call_all) (onward o' safe)

make_stack-IsBounded :
    (capacity limit : ℕ) (o : Observability) → make_stack capacity limit ≡ some o → IsBounded o
unfolding make_stack
make_stack-IsBounded capacity limit o made =
    elim (Option-cases (make_ring {A = Envelope} capacity)) [
      | inl gone ↦ absurd (cc (rw (gone, make_stack) at made))
      | inr queue ↦ elim (Bool-cases (limit == 0)) [
        | inl e ↦ absurd (cc (rw (queue.1, e, make_stack) at made))
        | inr e ↦ subst IsBounded (some_path (rw (queue.1, e, make_stack) at made)) (record {
          within = omega arith;
          positive = above limit e;
          sized = make_ring-IsSized capacity queue.0 queue.1;
        })
      ]
    ]
  where
    some_path : {x y : Observability} → some x ≡ some y → x ≡ y
    some_path e = cc e

    above : (n : ℕ) → (n == 0) ≡ false → 0 < n
    above n e = ground (arith, e)

-- After any calls of a new stack the history is no longer than its limit, and a flush ends.
pub call_all-bounded :
    (to_double : ℤ → ℤ) (calls : List Call) (capacity limit : ℕ) (o o' : Observability)
    → make_stack capacity limit ≡ some o
    → call_all to_double calls o ≡ some o'
    → (length o'.history ≤ o'.history_limit)
      × ((o'' : Observability) × (processed : ℕ) × (flush to_double o' ≡ some (o'', processed))
          × (length o''.history ≤ o''.history_limit))
call_all-bounded to_double calls capacity limit o o' made run =
    let b : IsBounded o' =
      subst IsSafe run
        (call_all-IsSafe to_double calls o (make_stack-IsBounded capacity limit o made)) in
    let (o'', processed, ends, safe) = flush-returns to_double o' b in
    (b.within, (o'', processed, ends, safe.within))
