-- ===== src/Observability/History.antt =====
-- tooling/observability-stack: the history is no longer than its limit.
use collections.Prelude.{
  ℕ, zero, suc, ◌+◌, ◌-◌, ◌%◌, ◌^◌, ◌≤◌, ◌<◌, ◌≡◌, refl, ◌∙◌, ap, false, Bool-cases, not, some,
  Option-cases, List, [], ◌∷◌, ◌++◌, length, length-append, ltb, if◌then◌else◌, if_both, ◌==◌,
  nat_eq, string_eq, inl, inr, arith,
}
use collections.Prelude.Int.{ℤ, leb_ℤ}
use collections.Prelude.Dict.{Dict, insert}
use collections.Ring.{try_pop, size_approx}
use collections.Ring.Sized.{IsSized, pop-IsSized, size-pop}
use collections.Observability.Types.{
  MetricPoint, AlertRule, TelemetryEvent, Envelope, metric_envelope, span_envelope, Observability,
}
use collections.Observability.Stack.{
  pop_front, record_event, notification_of, alert_event_of, metric_event_of, span_event_of,
  emit_alert, breach_count, set_count, note_breach, evaluate_rule, evaluate_rules, accumulate,
  accumulator_of, process_metric, process_span, process, drain_loop,
}
use Prim.Native.String.{String}

pub record IsBounded (o : Observability) : Type 0 where
  pub within : length o.history ≤ o.history_limit
  pub positive : 0 < o.history_limit
  pub sized : IsSized o.queue

length-pop_front : (events : List TelemetryEvent) → length (pop_front events) ≡ length events - 1
length-pop_front [] = omega arith
length-pop_front (event ∷ events) = omega arith

record_event-IsBounded :
    (event : TelemetryEvent) (o : Observability) → IsBounded o → IsBounded (record_event event o)
unfolding record_event
record_event-IsBounded event o b = record {
  within = elim (Bool-cases (length o.history == o.history_limit)) [
    | inl e ↦ rw (e) (
        full (length o.history) o.history_limit (length (pop_front o.history ++ event ∷ []))
          (length (pop_front o.history)) b.within b.positive
          (length-append (pop_front o.history) (event ∷ [])) (length-pop_front o.history))
    | inr e ↦ rw (e) (
        room (length o.history) o.history_limit (length (o.history ++ event ∷ [])) b.within e
          (length-append o.history (event ∷ [])))
  ];
  positive = b.positive;
  sized = b.sized;
}
  where
    full : (n m k j : ℕ) → n ≤ m → 0 < m → k ≡ j + 1 → j ≡ n - 1 → k ≤ m
    full n m k j a b c d = omega (arith, a, b, c, d)

    room : (n m k : ℕ) → n ≤ m → (n == m) ≡ false → k ≡ n + 1 → k ≤ m
    room n m k a b c = ground (arith, a, b, c)

evaluate_rule-IsBounded :
    (rule_id : String) (rule : AlertRule) (point : MetricPoint) (o : Observability)
    → IsBounded o
    → IsBounded (evaluate_rule rule_id rule point o)
unfolding evaluate_rule note_breach emit_alert
evaluate_rule-IsBounded rule_id rule point o b =
    let count = (breach_count rule_id o + 1) % 2 ^ 64 in
    let told = if count == rule.consecutive_breaches then emit_alert rule point count o else o in
    let capped = if ltb rule.consecutive_breaches count then rule.consecutive_breaches else count in
    let kept : IsBounded told =
      if_both IsBounded (count == rule.consecutive_breaches) (emit_alert rule point count o) o
        (record_event-IsBounded (alert_event_of rule point)
          (record o { alerts = o.alerts ++ notification_of rule point count ∷ [] })
          (record { within = b.within; positive = b.positive; sized = b.sized }))
        b in
    if_both IsBounded (not (rule.metric_name == point.name)) o
      (if leb_ℤ rule.threshold point.value
        then set_count rule_id capped told
        else set_count rule_id 0 o)
      b
      (if_both IsBounded (leb_ℤ rule.threshold point.value) (set_count rule_id capped told)
        (set_count rule_id 0 o)
        (record { within = kept.within; positive = kept.positive; sized = kept.sized })
        (record { within = b.within; positive = b.positive; sized = b.sized }))

evaluate_rules-IsBounded :
    (rules : Dict String AlertRule) (point : MetricPoint) (o : Observability)
    → IsBounded o
    → IsBounded (evaluate_rules rules point o)
unfolding evaluate_rules
evaluate_rules-IsBounded [] point o b = b
evaluate_rules-IsBounded ((rule_id, rule) ∷ rules) point o b =
    evaluate_rules-IsBounded rules point (evaluate_rule rule_id rule point o)
      (evaluate_rule-IsBounded rule_id rule point o b)

process-IsBounded :
    (to_double : ℤ → ℤ) (envelope : Envelope) (o : Observability)
    → IsBounded o
    → IsBounded (process to_double envelope o)
unfolding process process_metric process_span
process-IsBounded to_double (span_envelope span) o b =
    record_event-IsBounded (span_event_of to_double span) o b
process-IsBounded to_double (metric_envelope point) o b =
    let counted : Observability = record o {
      metrics = insert point.name (accumulate point (accumulator_of point.name o)) o.metrics;
    } in
    let noted = record_event (metric_event_of point) counted in
    evaluate_rules-IsBounded noted.rules point noted (
      record_event-IsBounded (metric_event_of point) counted
        (record { within = b.within; positive = b.positive; sized = b.sized }))

-- The events leave the queue as it is.
evaluate_rule-queue :
    (rule_id : String) (rule : AlertRule) (point : MetricPoint) (o : Observability)
    → (evaluate_rule rule_id rule point o).queue ≡ o.queue
unfolding evaluate_rule note_breach emit_alert record_event
evaluate_rule-queue rule_id rule point o =
    let Same = λ (x : Observability). x.queue ≡ o.queue in
    let count = (breach_count rule_id o + 1) % 2 ^ 64 in
    let told = if count == rule.consecutive_breaches then emit_alert rule point count o else o in
    let capped = if ltb rule.consecutive_breaches count then rule.consecutive_breaches else count in
    let kept : told.queue ≡ o.queue =
      if_both Same (count == rule.consecutive_breaches) (emit_alert rule point count o) o refl
        refl in
    if_both Same (not (rule.metric_name == point.name)) o
      (if leb_ℤ rule.threshold point.value
        then set_count rule_id capped told
        else set_count rule_id 0 o)
      refl
      (if_both Same (leb_ℤ rule.threshold point.value) (set_count rule_id capped told)
        (set_count rule_id 0 o) kept refl)

evaluate_rules-queue :
    (rules : Dict String AlertRule) (point : MetricPoint) (o : Observability)
    → (evaluate_rules rules point o).queue ≡ o.queue
unfolding evaluate_rules
evaluate_rules-queue [] point o = refl
evaluate_rules-queue ((rule_id, rule) ∷ rules) point o =
    evaluate_rules-queue rules point (evaluate_rule rule_id rule point o)
    ∙ evaluate_rule-queue rule_id rule point o

process-queue :
    (to_double : ℤ → ℤ) (envelope : Envelope) (o : Observability)
    → (process to_double envelope o).queue ≡ o.queue
unfolding process process_metric process_span record_event
process-queue to_double (span_envelope span) o = refl
process-queue to_double (metric_envelope point) o =
    let counted : Observability = record o {
      metrics = insert point.name (accumulate point (accumulator_of point.name o)) o.metrics;
    } in
    let noted = record_event (metric_event_of point) counted in
    evaluate_rules-queue noted.rules point noted

popped-IsBounded :
    (o : Observability) → IsBounded o → IsBounded (record o { queue = (try_pop o.queue).0 })
popped-IsBounded o b = record {
  within = b.within;
  positive = b.positive;
  sized = pop-IsSized o.queue b.sized;
}

-- With a round for each event of the queue and one more the loop ends, with as much of the history
-- as may be.
pub drain_loop-returns :
    (to_double : ℤ → ℤ) (fuel processed : ℕ) (o : Observability)
    → IsBounded o
    → size_approx o.queue < fuel
    → (o' : Observability) × (n : ℕ) × (drain_loop to_double fuel processed o ≡ some (o', n))
      × IsBounded o'
unfolding drain_loop
drain_loop-returns to_double zero processed o b h = absurd (omega (arith, h))
drain_loop-returns to_double (suc fuel) processed o b h =
    let next : Observability = record o { queue = (try_pop o.queue).0 } in
    let still : IsBounded next = popped-IsBounded o b in
    elim (Option-cases (try_pop o.queue).1) [
      | inl gone ↦ (next, processed, rw (gone, drain_loop) refl, still)
      | inr there ↦
          let fewer = size-pop o.queue there.0 b.sized there.1 in
          let same = ap size_approx (process-queue to_double there.0 next) in
          let (o', n, run, safe) =
            drain_loop-returns to_double fuel (suc processed) (process to_double there.0 next)
              (process-IsBounded to_double there.0 next still) (omega (arith, h, fewer, same)) in
          (o', n, rw (there.1, drain_loop) run, safe)
    ]
