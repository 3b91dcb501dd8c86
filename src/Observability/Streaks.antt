-- ===== src/Observability/Streaks.antt =====
-- tooling/observability-stack: a rule alerts once for each streak of breaches that is long enough.
use collections.Prelude.{
  ℕ, suc, ◌+◌, ◌%◌, ◌^◌, ◌<◌, ◌≡◌, refl, ◌∙◌, ap, Bool, true, false, Bool-cases, List, [], ◌∷◌, All,
  length, length-append, ltb, if◌then◌else◌, ◌==◌, nat_eq, string_eq, inl, inr, arith,
}
use collections.Prelude.Int.{ℤ, leb_ℤ}
use collections.Prelude.Dict.{lookup-insert_self}
use collections.Observability.Types.{MetricPoint, AlertRule, Observability}
use collections.Observability.Stack.{
  record_event, notification_of, emit_alert, breach_count, set_count, note_breach, evaluate_rule,
}
use Prim.Native.String.{String}

abbrev pub one_if : Bool → ℕ
one_if true = 1
one_if false = 0

module _ (threshold : ℤ) where
  -- The length of the streak of breaches that a value leaves.
  abbrev pub next_streak : ℤ → ℕ → ℕ
  next_streak value streak = if leb_ℤ threshold value then suc streak else 0

  abbrev pub final_streak : List MetricPoint → ℕ → ℕ
  final_streak [] streak = streak
  final_streak (point ∷ points) streak = final_streak points (next_streak point.value streak)

  -- How often the streak is of a length, after a value.
  abbrev pub times_reached : ℕ → List MetricPoint → ℕ → ℕ
  times_reached n [] streak = 0
  times_reached n (point ∷ points) streak =
      one_if (next_streak point.value streak == n)
      + times_reached n points (next_streak point.value streak)

abbrev pub least : ℕ → ℕ → ℕ
least a b = if ltb b a then b else a

-- The points that one rule is shown.
unfoldable pub watch : String → AlertRule → List MetricPoint → Observability → Observability
watch rule_id rule [] o = o
watch rule_id rule (point ∷ points) o =
    watch rule_id rule points (evaluate_rule rule_id rule point o)

set_count_self :
    (rule_id : String) (count : ℕ) (o : Observability)
    → breach_count rule_id (set_count rule_id count o) ≡ count
unfolding breach_count
set_count_self rule_id count o =
    rw (lookup-insert_self rule_id count o.breach_counts, breach_count) refl

note_breach-count :
    (rule_id : String) (rule : AlertRule) (point : MetricPoint) (o : Observability)
    → let count = (breach_count rule_id o + 1) % 2 ^ 64 in
      breach_count rule_id (note_breach rule_id rule point o)
      ≡ (if ltb rule.consecutive_breaches count then rule.consecutive_breaches else count)
unfolding note_breach
note_breach-count rule_id rule point o =
    let count = (breach_count rule_id o + 1) % 2 ^ 64 in
    set_count_self rule_id
      (if ltb rule.consecutive_breaches count then rule.consecutive_breaches else count)
      (if count == rule.consecutive_breaches then emit_alert rule point count o else o)

note_breach-alerts :
    (rule_id : String) (rule : AlertRule) (point : MetricPoint) (o : Observability)
    → length (note_breach rule_id rule point o).alerts
      ≡ length o.alerts
        + one_if ((breach_count rule_id o + 1) % 2 ^ 64 == rule.consecutive_breaches)
unfolding note_breach emit_alert record_event
note_breach-alerts rule_id rule point o =
    let count = (breach_count rule_id o + 1) % 2 ^ 64 in
    elim (Bool-cases (count == rule.consecutive_breaches)) [
      | inl e ↦ rw (e) (length-append o.alerts (notification_of rule point count ∷ []))
      | inr e ↦ rw (e) (omega arith)
    ]

-- What the count and the alerts are after one point.
record Noted (rule_id : String) (rule : AlertRule) (point : MetricPoint) (streak : ℕ)
    (o : Observability) : Type 0 where
  count_eq :
      breach_count rule_id (evaluate_rule rule_id rule point o)
      ≡ least (next_streak rule.threshold point.value streak) rule.consecutive_breaches
  alerts_eq :
      length (evaluate_rule rule_id rule point o).alerts
      ≡ length o.alerts
        + one_if (next_streak rule.threshold point.value streak == rule.consecutive_breaches)

one_point :
    (rule_id : String) (rule : AlertRule) (point : MetricPoint) (streak : ℕ) (o : Observability)
    → rule.metric_name ≡ point.name
    → 0 < rule.consecutive_breaches
    → rule.consecutive_breaches + 1 < 2 ^ 64
    → breach_count rule_id o ≡ least streak rule.consecutive_breaches
    → Noted rule_id rule point streak o
unfolding evaluate_rule note_breach emit_alert record_event
one_point rule_id rule point streak o same some_limit small counted =
    let named = (string_eq.same_iff rule.metric_name point.name).1 same in
    let n = rule.consecutive_breaches in
    elim (Bool-cases (leb_ℤ rule.threshold point.value)) [
      | inr e ↦ record {
        count_eq = rw (named, e, evaluate_rule) (set_count_self rule_id 0 o ∙ nothing n some_limit);
        alerts_eq = rw (named, e, evaluate_rule) (none_sent (length o.alerts) n some_limit);
      }
      | inl e ↦ record {
        count_eq =
            rw (named, e, evaluate_rule)
              (note_breach-count rule_id rule point o
                ∙ capped (breach_count rule_id o) streak n counted small);
        alerts_eq =
            rw (named, e, evaluate_rule)
              (note_breach-alerts rule_id rule point o
                ∙ ap (λ x. length o.alerts + x)
                    (sent (breach_count rule_id o) streak n counted small));
      }
    ]
  where
    nothing : (n : ℕ) → 0 < n → 0 ≡ least 0 n
    nothing n h = ground (arith, h)

    none_sent : (k n : ℕ) → 0 < n → k ≡ k + one_if (0 == n)
    none_sent k n h = ground (arith, h)

    capped :
        (b s n : ℕ)
        → b ≡ least s n
        → n + 1 < 2 ^ 64
        → (if ltb n ((b + 1) % 2 ^ 64) then n else (b + 1) % 2 ^ 64) ≡ least (suc s) n
    capped b s n h k = ground (arith, h, k)

    sent :
        (b s n : ℕ)
        → b ≡ least s n
        → n + 1 < 2 ^ 64
        → one_if ((b + 1) % 2 ^ 64 == n) ≡ one_if (suc s == n)
    sent b s n h k = ground (arith, h, k)

-- A rule that is shown points of its metric, one after the other, from a count that is the streak so
-- far or the limit if that is less: it sends one alert each time the streak of breaches reaches the
-- limit, however long the streak goes on, and the count is the streak, or the limit if that is less.
pub watch-alerts :
    (rule_id : String) (rule : AlertRule) (points : List MetricPoint) (streak : ℕ)
    (o : Observability)
    → All (λ point. rule.metric_name ≡ point.name) points
    → 0 < rule.consecutive_breaches
    → rule.consecutive_breaches + 1 < 2 ^ 64
    → breach_count rule_id o ≡ least streak rule.consecutive_breaches
    → (length (watch rule_id rule points o).alerts
        ≡ length o.alerts + times_reached rule.threshold rule.consecutive_breaches points streak)
      × (breach_count rule_id (watch rule_id rule points o)
          ≡ least (final_streak rule.threshold points streak) rule.consecutive_breaches)
unfolding watch
watch-alerts rule_id rule [] streak o named some_limit small counted = (omega arith, counted)
watch-alerts rule_id rule (point ∷ points) streak o named some_limit small counted =
    let next = next_streak rule.threshold point.value streak in
    let noted = one_point rule_id rule point streak o named.0 some_limit small counted in
    let (alerts, count) =
      watch-alerts rule_id rule points next (evaluate_rule rule_id rule point o) named.1 some_limit
        small noted.count_eq in
    let first = noted.alerts_eq in (omega (arith, alerts, first), count)
