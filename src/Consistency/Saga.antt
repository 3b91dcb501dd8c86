-- ===== src/Consistency/Saga.antt =====
-- infrastructure/distributed-consistency/saga.hpp: steps that run in order, and are compensated in
-- the opposite order when one fails. An action and a compensation are functions that the caller
-- gives; what they do to the context is returned.
use collections.Prelude.{
  Bool, true, false, Option, none, some, List, [], ◌∷◌, ◌++◌, if◌then◌else◌, string_eq, ◌==◌,
  reverse,
}
use Prim.Native.String.{String}

pub data StepResult : Type 0 where
  success retryable_failure permanent_failure : StepResult

pub record SagaExecutionReport : Type 0 where
  pub committed : Bool
  pub completed_steps : List String
  pub compensated_steps : List String
  pub failed_step : Option String

abbrev pub empty_report : SagaExecutionReport
empty_report = record {
  committed = false;
  completed_steps = [];
  compensated_steps = [];
  failed_step = none;
}

pub record SagaStep {ℓ} (Context : Type ℓ) : Type ℓ where
  pub name : String
  pub action : Context → Context × StepResult
  pub compensation : Context → Context

abbrev pub is_success : StepResult → Bool
is_success success = true
is_success _ = false

module _ {ℓ} {Context : Type ℓ} where
  unfoldable pub add_step : SagaStep Context → List (SagaStep Context) → List (SagaStep Context)
  add_step step steps = steps ++ step ∷ []

  -- `std::find_if` by the name.
  unfoldable pub find_step : String → List (SagaStep Context) → Option (SagaStep Context)
  find_step name [] = none
  find_step name (step ∷ steps) = if step.name == name then some step else find_step name steps

  -- The loop over the completed steps, last first.
  unfoldable pub compensate_loop :
      List (SagaStep Context)
      → List String
      → Context
      → SagaExecutionReport
      → Context × SagaExecutionReport
  compensate_loop steps [] context report = (context, report)
  compensate_loop steps (name ∷ names) context report = elim (find_step name steps) [
    | none ↦ compensate_loop steps names context report
    | some step ↦
        compensate_loop steps names (step.compensation context)
          (record report { compensated_steps = report.compensated_steps ++ step.name ∷ [] })
  ]

  unfoldable pub compensate :
      List (SagaStep Context) → Context → SagaExecutionReport → Context × SagaExecutionReport
  unfolding compensate_loop
  compensate steps context report =
      compensate_loop steps (reverse report.completed_steps) context report

  -- The loop of `execute`: all the steps, and those that are left.
  unfoldable pub execute_loop :
      List (SagaStep Context)
      → List (SagaStep Context)
      → Context
      → SagaExecutionReport
      → Context × SagaExecutionReport
  unfolding compensate
  execute_loop all [] context report = (context, record report { committed = true })
  execute_loop all (step ∷ steps) context report =
      let outcome = step.action context in
      elim (is_success outcome.1) [
        | true ↦
            execute_loop all steps outcome.0
              (record report { completed_steps = report.completed_steps ++ step.name ∷ [] })
        | false ↦ compensate all outcome.0 (record report { failed_step = some step.name })
      ]

  unfoldable pub execute_saga : List (SagaStep Context) → Context → Context × SagaExecutionReport
  unfolding execute_loop
  execute_saga steps context = execute_loop steps steps context empty_report
