-- ===== src/Observability/Stack.antt =====
-- tooling/observability-stack/observability_stack.cpp: the operations. `none` is an exception or the end
-- of the fuel of a flush.
use collections.Prelude.{
  ℕ, zero, suc, ◌+◌, ◌%◌, ◌^◌, true, false, ◌||◌, not, Option, none, some, List, [], ◌∷◌, ◌++◌,
  length, ltb, if◌then◌else◌, ◌==◌, nat_eq, string_eq,
}
use collections.Prelude.Int.{ℤ, pos, ◌+ℤ◌, ◌-ℤ◌, leb_ℤ}
use collections.Prelude.Dict.{Dict, lookup, insert, erase}
use collections.Prelude.Double.{Ostream}
use collections.Prelude.Text.{is_empty, ◌<>◌}
use collections.MarketData.Candles.{max_ℤ, min_ℤ}
use collections.Ring.{push, try_pop, size_approx}
use collections.Observability.Types.{
  metric_event, span_event, alert_event, counter, info, TraceContext, MetricPoint, TraceSpan,
  AlertRule, AlertNotification, MetricSnapshot, TelemetryEvent, PublishStatus, enqueued, queue_full,
  Envelope, metric_envelope, span_envelope, MetricAccumulator, Observability,
}
use Prim.Native.String.{String}

-- `publish_metric` and `publish_span`, which differ in the envelope they make.
unfoldable pub publish_envelope : Envelope → Observability → Observability × PublishStatus
publish_envelope envelope o =
    let pushed = push envelope o.queue in
    if pushed.1
    then (record o { queue = pushed.0 }, enqueued)
    else (record o { dropped_events = (o.dropped_events + 1) % 2 ^ 64 }, queue_full)

unfoldable pub publish_metric : MetricPoint → Observability → Observability × PublishStatus
unfolding publish_envelope
publish_metric point o = publish_envelope (metric_envelope point) o

unfoldable pub publish_span : TraceSpan → Observability → Observability × PublishStatus
unfolding publish_envelope
publish_span span o = publish_envelope (span_envelope span) o

unfoldable pub register_rule : AlertRule → Observability → Option Observability
register_rule rule o =
    if is_empty rule.rule_id || is_empty rule.metric_name || rule.consecutive_breaches == 0
    then none
    else some (record o {
      breach_counts = erase rule.rule_id o.breach_counts;
      rules = insert rule.rule_id rule o.rules;
    })

abbrev pub pop_front : List TelemetryEvent → List TelemetryEvent
pop_front [] = []
pop_front (event ∷ events) = events

unfoldable pub record_event : TelemetryEvent → Observability → Observability
record_event event o =
    let kept = if length o.history == o.history_limit then pop_front o.history else o.history in
    record o { history = kept ++ event ∷ [] }

unfoldable pub notification_of : AlertRule → MetricPoint → ℕ → AlertNotification
notification_of rule point breach_count = record {
  rule_id = rule.rule_id;
  metric_name = rule.metric_name;
  observed_value = point.value;
  threshold = rule.threshold;
  breach_count = breach_count;
  timestamp = point.timestamp;
  severity = rule.severity;
  trace_context = point.trace_context;
}

unfoldable pub alert_event_of : AlertRule → MetricPoint → TelemetryEvent
alert_event_of rule point = record {
  kind = alert_event;
  name = rule.rule_id;
  component = point.trace_context.component;
  trace_id = point.trace_context.trace_id;
  value = point.value;
  timestamp = point.timestamp;
  is_success = false;
  severity = rule.severity;
}

unfoldable pub emit_alert : AlertRule → MetricPoint → ℕ → Observability → Observability
unfolding record_event notification_of alert_event_of
emit_alert rule point breach_count o =
    record_event (alert_event_of rule point)
      (record o { alerts = o.alerts ++ notification_of rule point breach_count ∷ [] })

-- `breach_counts_[rule_id]`
unfoldable pub breach_count : String → Observability → ℕ
breach_count rule_id o = elim (lookup rule_id o.breach_counts) [ none ↦ 0 | some count ↦ count ]

abbrev pub set_count : String → ℕ → Observability → Observability
set_count rule_id count o = record o { breach_counts = insert rule_id count o.breach_counts }

-- A value that breaches: the count goes up, and an alert is sent as it reaches the limit.
unfoldable pub note_breach : String → AlertRule → MetricPoint → Observability → Observability
unfolding emit_alert breach_count
note_breach rule_id rule point o =
    let count = (breach_count rule_id o + 1) % 2 ^ 64 in
    let told = if count == rule.consecutive_breaches then emit_alert rule point count o else o in
    let capped = if ltb rule.consecutive_breaches count then rule.consecutive_breaches else count in
    set_count rule_id capped told

-- One round of the loop of `evaluate_rules`.
unfoldable pub evaluate_rule : String → AlertRule → MetricPoint → Observability → Observability
unfolding note_breach
evaluate_rule rule_id rule point o =
    if not (rule.metric_name == point.name)
    then o
    else if leb_ℤ rule.threshold point.value
    then note_breach rule_id rule point o
    else set_count rule_id 0 o

unfoldable pub evaluate_rules : Dict String AlertRule → MetricPoint → Observability → Observability
unfolding evaluate_rule
evaluate_rules [] point o = o
evaluate_rules ((rule_id, rule) ∷ rules) point o =
    evaluate_rules rules point (evaluate_rule rule_id rule point o)

-- `metrics_[name]`
unfoldable pub accumulator_of : String → Observability → MetricAccumulator
accumulator_of name o = elim (lookup name o.metrics) [
  | some accumulator ↦ accumulator
  | none ↦ record {
    metric_type = counter;
    samples = 0;
    sum = pos 0;
    last_value = pos 0;
    min_value = pos 0;
    max_value = pos 0;
  }
]

unfoldable pub accumulate : MetricPoint → MetricAccumulator → MetricAccumulator
accumulate point a =
    let is_first = a.samples == 0 in
    record {
      metric_type = if is_first then point.metric_type else a.metric_type;
      samples = (a.samples + 1) % 2 ^ 64;
      sum = a.sum +ℤ point.value;
      last_value = point.value;
      min_value = if is_first then point.value else min_ℤ a.min_value point.value;
      max_value = if is_first then point.value else max_ℤ a.max_value point.value;
    }

unfoldable pub metric_event_of : MetricPoint → TelemetryEvent
metric_event_of point = record {
  kind = metric_event;
  name = point.name;
  component = point.trace_context.component;
  trace_id = point.trace_context.trace_id;
  value = point.value;
  timestamp = point.timestamp;
  is_success = true;
  severity = info;
}

unfoldable pub process_metric : MetricPoint → Observability → Observability
unfolding accumulator_of accumulate record_event metric_event_of evaluate_rules
process_metric point o =
    let noted = record_event (metric_event_of point) (record o {
      metrics = insert point.name (accumulate point (accumulator_of point.name o)) o.metrics;
    }) in
    evaluate_rules noted.rules point noted

-- The conversion of the duration to a double is a parameter.
unfoldable pub span_event_of : (ℤ → ℤ) → TraceSpan → TelemetryEvent
span_event_of to_double span = record {
  kind = span_event;
  name = span.operation;
  component = span.context.component;
  trace_id = span.context.trace_id;
  value = to_double (span.end_timestamp -ℤ span.start_timestamp);
  timestamp = span.end_timestamp;
  is_success = span.is_success;
  severity = info;
}

unfoldable pub process_span : (ℤ → ℤ) → TraceSpan → Observability → Observability
unfolding record_event span_event_of
process_span to_double span o = record_event (span_event_of to_double span) o

unfoldable pub process : (ℤ → ℤ) → Envelope → Observability → Observability
unfolding process_metric process_span
process to_double (metric_envelope point) o = process_metric point o
process to_double (span_envelope span) o = process_span to_double span o

-- The loop of `flush`.
unfoldable pub drain_loop : (ℤ → ℤ) → ℕ → ℕ → Observability → Option (Observability × ℕ)
unfolding process
drain_loop to_double zero processed o = none
drain_loop to_double (suc fuel) processed o =
    let popped = try_pop o.queue in
    let next : Observability = record o { queue = popped.0 } in
    elim popped.1 [
      | none ↦ some (next, processed)
      | some envelope ↦ drain_loop to_double fuel (suc processed) (process to_double envelope next)
    ]

-- One round for each slot of the queue, and one that finds it empty.
unfoldable pub flush : (ℤ → ℤ) → Observability → Option (Observability × ℕ)
unfolding drain_loop
flush to_double o = drain_loop to_double (o.queue.capacity + 1) 0 o

unfoldable pub metric_snapshot : String → Observability → Option MetricSnapshot
metric_snapshot metric_name o = elim (lookup metric_name o.metrics) [
  | none ↦ none
  | some a ↦ some (record {
    name = metric_name;
    metric_type = a.metric_type;
    samples = a.samples;
    sum = a.sum;
    last_value = a.last_value;
    min_value = a.min_value;
    max_value = a.max_value;
  })
]

unfoldable pub pending_events : Observability → ℕ
pending_events o = size_approx o.queue

unfoldable pub child_context : Ostream → TraceContext → String → ℕ → TraceContext
child_context out parent component sequence =
    let suffix = out.print_size sequence in
    record {
      trace_id =
          if is_empty parent.trace_id then component <> "-trace-" <> suffix else parent.trace_id;
      span_id =
          if is_empty parent.span_id
          then component <> "-span-" <> suffix
          else parent.span_id <> "." <> suffix;
      parent_span_id = parent.span_id;
      component = component;
    }
