-- ===== src/Observability/Types.antt =====
-- The types of tooling/observability-stack, and the state of the stack. An envelope is written once, so
-- that a pointer to one of the pool is kept as the envelope.
use collections.Prelude.{ℕ, Bool, Option, none, some, List, [], if◌then◌else◌, ◌==◌, nat_eq}
use collections.Prelude.Int.{ℤ}
use collections.Prelude.Dict.{Dict}
use collections.Ring.{Ring, make_ring}
use Prim.Native.String.{String}

pub data EventKind : Type 0 where
  metric_event span_event alert_event : EventKind

pub data MetricType : Type 0 where
  counter gauge histogram : MetricType

pub data AlertSeverity : Type 0 where
  info warning critical : AlertSeverity

pub record TraceContext : Type 0 where
  pub trace_id : String
  pub span_id : String
  pub parent_span_id : String
  pub component : String

pub record MetricPoint : Type 0 where
  pub name : String
  pub value : ℤ
  pub timestamp : ℤ
  pub metric_type : MetricType
  pub trace_context : TraceContext

pub record TraceSpan : Type 0 where
  pub context : TraceContext
  pub operation : String
  pub start_timestamp : ℤ
  pub end_timestamp : ℤ
  pub is_success : Bool

pub record AlertRule : Type 0 where
  pub rule_id : String
  pub metric_name : String
  pub threshold : ℤ
  pub consecutive_breaches : ℕ
  pub severity : AlertSeverity

pub record AlertNotification : Type 0 where
  pub rule_id : String
  pub metric_name : String
  pub observed_value : ℤ
  pub threshold : ℤ
  pub breach_count : ℕ
  pub timestamp : ℤ
  pub severity : AlertSeverity
  pub trace_context : TraceContext

pub record MetricSnapshot : Type 0 where
  pub name : String
  pub metric_type : MetricType
  pub samples : ℕ
  pub sum : ℤ
  pub last_value : ℤ
  pub min_value : ℤ
  pub max_value : ℤ

pub record TelemetryEvent : Type 0 where
  pub kind : EventKind
  pub name : String
  pub component : String
  pub trace_id : String
  pub value : ℤ
  pub timestamp : ℤ
  pub is_success : Bool
  pub severity : AlertSeverity

pub data PublishStatus : Type 0 where
  enqueued queue_full : PublishStatus

-- An envelope of each kind that is made; the member that is not of the kind is never read.
pub data Envelope : Type 0 where
  metric_envelope : MetricPoint → Envelope
  span_envelope : TraceSpan → Envelope

pub record MetricAccumulator : Type 0 where
  pub metric_type : MetricType
  pub samples : ℕ
  pub sum : ℤ
  pub last_value : ℤ
  pub min_value : ℤ
  pub max_value : ℤ

pub record Observability : Type 0 where
  pub history_limit : ℕ
  pub queue : Ring Envelope
  pub metrics : Dict String MetricAccumulator
  pub rules : Dict String AlertRule
  pub breach_counts : Dict String ℕ
  pub alerts : List AlertNotification
  pub history : List TelemetryEvent
  pub dropped_events : ℕ

-- The constructor; `none` is an exception.
unfoldable pub make_stack : ℕ → ℕ → Option Observability
make_stack queue_capacity history_limit = elim (make_ring {A = Envelope} queue_capacity) [
  | none ↦ none
  | some queue ↦
      if history_limit == 0
      then none
      else some (record {
        history_limit = history_limit;
        queue = queue;
        metrics = [];
        rules = [];
        breach_counts = [];
        alerts = [];
        history = [];
        dropped_events = 0;
      })
]
