-- ===== src/Observability/Tests.antt =====
-- Runs of the observability stack, and its theorems at concrete stacks.
use collections.Prelude.{
  ℕ, ◌+◌, ◌≤◌, ◌≡◌, refl, arith, true, Option, none, some, List, [], ◌∷◌, length, string_eq, nat_eq,
}
use collections.Prelude.Int.{ℤ, pos}
use collections.Prelude.Dict.{lookup, insert, erase}
use collections.Ring.{
  make_ring, normalize_capacity, bit_ceil_loop, push, try_pop, slot_of, size_approx, set_slot,
}
use collections.Observability.Types.{
  counter, warning, TraceContext, MetricPoint, TraceSpan, AlertRule, Observability, make_stack,
}
use collections.Observability.Stack.{
  publish_envelope, publish_metric, publish_span, register_rule, record_event, notification_of,
  alert_event_of, emit_alert, breach_count, note_breach, evaluate_rule, evaluate_rules,
  accumulator_of, accumulate, metric_event_of, process_metric, span_event_of, process_span, process,
  drain_loop, flush,
}
use collections.Observability.Streaks.{least, watch, times_reached, final_streak, watch-alerts}
use collections.Observability.Calls.{
  Call, metric, span, rule, flushing, call, call_all, call_all-bounded,
}

abbrev context : TraceContext
context = record { trace_id = "t"; span_id = "s"; parent_span_id = ""; component = "book" }

abbrev latency : ℤ → MetricPoint
latency value = record {
  name = "latency";
  value = value;
  timestamp = pos 1;
  metric_type = counter;
  trace_context = context;
}

abbrev submission : TraceSpan
submission = record {
  context = context;
  operation = "submit";
  start_timestamp = pos 1;
  end_timestamp = pos 4;
  is_success = true;
}

abbrev slow : AlertRule
slow = record {
  rule_id = "slow";
  metric_name = "latency";
  threshold = pos 10;
  consecutive_breaches = 2;
  severity = warning;
}

abbrev unmade : Observability
unmade = record {
  history_limit = 1;
  queue = record { capacity = 1; buffer = λ i. none; head = 0; tail = 0 };
  metrics = [];
  rules = [];
  breach_counts = [];
  alerts = [];
  history = [];
  dropped_events = 0;
}

abbrev or_unmade : Option Observability → Observability
or_unmade none = unmade
or_unmade (some o) = o

abbrev new_stack : Observability
new_stack = or_unmade (make_stack 4 2)

abbrev calls : List Call
calls =
    rule slow
    ∷ metric (latency (pos 12))
    ∷ span submission
    ∷ metric (latency (pos 15))
    ∷ flushing
    ∷ metric (latency (pos 3))
    ∷ []

abbrev used_stack : Observability
used_stack = or_unmade (call_all (λ x. x) calls new_stack)

-- Two streaks of breaches, the first one longer than the limit.
abbrev values : List MetricPoint
values =
    latency (pos 12)
    ∷ latency (pos 15)
    ∷ latency (pos 16)
    ∷ latency (pos 3)
    ∷ latency (pos 11)
    ∷ latency (pos 10)
    ∷ []

watch-alerts_example :
    (length (watch "slow" slow values new_stack).alerts
      ≡ length new_stack.alerts + times_reached (pos 10) 2 values 0)
    × (breach_count "slow" (watch "slow" slow values new_stack)
        ≡ least (final_streak (pos 10) values 0) 2)
unfolding make_stack make_ring normalize_capacity bit_ceil_loop breach_count lookup
watch-alerts_example =
    watch-alerts "slow" slow values 0 new_stack (refl, (refl, (refl, (refl, (refl, (refl, tt))))))
      (omega arith) (omega arith) refl

two_alerts : times_reached (pos 10) 2 values 0 ≡ 2
two_alerts = refl

call_all-bounded_example :
    (length used_stack.history ≤ used_stack.history_limit)
    × ((o'' : Observability) × (processed : ℕ) × (flush (λ x. x) used_stack ≡ some (o'', processed))
        × (length o''.history ≤ o''.history_limit))
unfolding make_stack make_ring normalize_capacity bit_ceil_loop call_all call publish_metric
    publish_span publish_envelope register_rule flush drain_loop process process_metric process_span
    accumulator_of accumulate metric_event_of span_event_of evaluate_rules evaluate_rule note_breach
    emit_alert record_event notification_of alert_event_of breach_count push try_pop slot_of
    size_approx set_slot lookup insert erase
call_all-bounded_example = call_all-bounded (λ x. x) calls 4 2 new_stack used_stack refl refl
