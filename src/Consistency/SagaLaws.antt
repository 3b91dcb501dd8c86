-- ===== src/Consistency/SagaLaws.antt =====
-- infrastructure/distributed-consistency/saga.hpp: what the report of a run says.
use collections.Prelude.{
  true, false, Bool-cases, none, some, List, [], ◌∷◌, ◌++◌, ◌≡◌, ◌≢◌, subst, ap₂, refl, sym, ◌∙◌,
  ap, string_eq, ◌==◌, eq→≡, eq_self, reverse, map, append_assoc, append-nil, inl, inr, ◌⊎◌, All,
  All-append, subst₂,
}
use collections.Consistency.Saga.{
  SagaStep, SagaExecutionReport, empty_report, is_success, find_step, compensate_loop, compensate,
  execute_loop, execute_saga, StepResult, success, retryable_failure, permanent_failure,
}
use mathlib.Core.List.{reverse-cons}
use Prim.Native.String.{String}

All-reverse {ℓ} : (P : String → Type ℓ) (xs : List String) → All P xs → All P (reverse xs)
All-reverse P [] h = tt
All-reverse P (x ∷ xs) h =
    rw (reverse-cons x xs) (All-append P (reverse xs) (x ∷ []) (All-reverse P xs h.1) (h.0, tt))

no_success : (x : StepResult) → is_success x ≡ false → x ≢ success
no_success success h = absurd (cc h)
no_success retryable_failure h = λ e. absurd (cc e)
no_success permanent_failure h = λ e. absurd (cc e)

one_success : (x : StepResult) → is_success x ≡ true → x ≡ success
one_success success h = refl
one_success retryable_failure h = absurd (cc h)
one_success permanent_failure h = absurd (cc h)

module _ {ℓ} {Context : Type ℓ} where
  abbrev pub step_names : List (SagaStep Context) → List String
  step_names = map (λ (step : SagaStep Context). step.name)

  -- A step of the name is there.
  Known : List (SagaStep Context) → String → Type ℓ
  Known steps name =
      (step : SagaStep Context) × (find_step name steps ≡ some step) × (step.name ≡ name)

  find_step-Known :
      (before : List (SagaStep Context)) (step : SagaStep Context) (after : List (SagaStep Context))
      → Known (before ++ step ∷ after) step.name
  unfolding find_step Known
  find_step-Known [] step after = (step, rw (eq_self step.name) refl, refl)
  find_step-Known (first ∷ before) step after = elim (Bool-cases (first.name == step.name)) [
    | inl t ↦ (first, rw (t) refl, eq→≡ first.name step.name t)
    | inr t ↦
        let (found, at, named) = find_step-Known before step after in (found, rw (t) at, named)
  ]

  compensate_loop-names :
      (steps : List (SagaStep Context)) (names : List String) (context : Context)
      (report : SagaExecutionReport)
      → All (Known steps) names
      → (compensate_loop steps names context report).1
        ≡ record report { compensated_steps = report.compensated_steps ++ names }
  unfolding compensate_loop Known
  compensate_loop-names steps [] context report h =
      ap (λ (done : List String). record report { compensated_steps = done })
        (sym (append-nil report.compensated_steps))
  compensate_loop-names steps (name ∷ names) context report h =
      let (step, at, named) = h.0 in
      rw (at, compensate_loop, named)
        (compensate_loop-names steps names (step.compensation context)
            (record report { compensated_steps = report.compensated_steps ++ name ∷ [] }) h.1
          ∙ ap (λ (done : List String). record report { compensated_steps = done })
              (append_assoc report.compensated_steps (name ∷ []) names))

  Known-cons :
      (first : SagaStep Context) (steps : List (SagaStep Context)) (name : String)
      → Known steps name
      → Known (first ∷ steps) name
  unfolding find_step Known
  Known-cons first steps name (step, at, named) = elim (Bool-cases (first.name == name)) [
    | inl t ↦ (first, rw (t) refl, eq→≡ first.name name t)
    | inr t ↦ (step, rw (t) at, named)
  ]

  All-Known_cons :
      (first : SagaStep Context) (steps : List (SagaStep Context)) (names : List String)
      → All (Known steps) names
      → All (Known (first ∷ steps)) names
  All-Known_cons first steps [] h = tt
  All-Known_cons first steps (name ∷ names) h =
      (Known-cons first steps name h.0, All-Known_cons first steps names h.1)

  All-Known :
      (before rest : List (SagaStep Context)) → All (Known (before ++ rest)) (step_names before)
  All-Known [] rest = tt
  All-Known (step ∷ before) rest = (
    find_step-Known [] step (before ++ rest),
    All-Known_cons step (before ++ rest) (step_names before) (All-Known before rest),
  )

  -- A step that is the first of its name.
  abbrev pub IsFirst : List (SagaStep Context) → SagaStep Context → Type ℓ
  IsFirst steps step =
      (before : List (SagaStep Context)) × (after : List (SagaStep Context)) × (steps
        ≡ before ++ step ∷ after)
      × All (λ (other : SagaStep Context). (other.name == step.name) ≡ false) before

  -- Steps that all succeed lead from one context to another.
  abbrev pub Ran : List (SagaStep Context) → Context → Context → Type ℓ
  Ran [] context last = context ≡ last
  Ran (step ∷ steps) context last =
      ((step.action context).1 ≡ success) × Ran steps (step.action context).0 last

  -- The compensations of steps, one after the other.
  abbrev pub undo : List (SagaStep Context) → Context → Context
  undo [] context = context
  undo (step ∷ steps) context = undo steps (step.compensation context)

  -- How a run ends: every step succeeded, and the context is what their actions made of it; or one
  -- step failed after those before it had succeeded, and the context is what the compensations of
  -- the first steps of their names, last first, made of the one it left.
  pub record Committed (steps : List (SagaStep Context)) (context : Context) (last : Context)
      (report : SagaExecutionReport) : Type ℓ where
    pub ran : Ran steps context last
    pub committed_eq : report.committed ≡ true
    pub completed_eq : report.completed_steps ≡ step_names steps
    pub compensated_eq : report.compensated_steps ≡ []
    pub failed_eq : report.failed_step ≡ none

  pub record RolledBack (steps : List (SagaStep Context)) (context : Context) (last : Context)
      (report : SagaExecutionReport) : Type ℓ where
    pub before : List (SagaStep Context)
    pub failing : SagaStep Context
    pub after : List (SagaStep Context)
    pub steps_eq : steps ≡ before ++ failing ∷ after
    pub middle : Context
    pub ran : Ran before context middle
    pub failed : (failing.action middle).1 ≢ success
    pub undone : List (SagaStep Context)
    pub undone_names : step_names undone ≡ reverse (step_names before)
    pub undone_first : All (IsFirst steps) undone
    pub last_eq : last ≡ undo undone (failing.action middle).0
    pub committed_eq : report.committed ≡ false
    pub completed_eq : report.completed_steps ≡ step_names before
    pub compensated_eq : report.compensated_steps ≡ reverse (step_names before)
    pub failed_eq : report.failed_step ≡ some failing.name

  abbrev pub Ended : List (SagaStep Context) → Context → Context × SagaExecutionReport → Type ℓ
  Ended steps context (last, report) =
      Committed steps context last report ⊎ RolledBack steps context last report

  find_step-IsFirst :
      (steps : List (SagaStep Context)) (name : String) (step : SagaStep Context)
      → find_step name steps ≡ some step
      → step.name ≡ name
      → IsFirst steps step
  unfolding find_step
  find_step-IsFirst [] name step h named = absurd (cc h)
  find_step-IsFirst (first ∷ steps) name step h named = elim (Bool-cases (first.name == name)) [
    | inl t ↦
        let same : first ≡ step = some_step (rw (t, find_step) at h) in
        subst (IsFirst (first ∷ steps)) same ([], steps, refl, tt)
    | inr t ↦
        let (before, after, same, others) =
          find_step-IsFirst steps name step (rw (t, find_step) at h) named in
        (first ∷ before, after, ap (λ l. first ∷ l) same, (rw (named) t, others))
  ]
    where
      some_step : {x y : SagaStep Context} → some x ≡ some y → x ≡ y
      some_step e = cc e

  compensate_loop-undo :
      (steps : List (SagaStep Context)) (names : List String) (context : Context)
      (report : SagaExecutionReport)
      → All (Known steps) names
      → (undone : List (SagaStep Context)) × (step_names undone ≡ names)
        × All (IsFirst steps) undone
        × ((compensate_loop steps names context report).0 ≡ undo undone context)
  unfolding compensate_loop Known
  compensate_loop-undo steps [] context report h = ([], refl, tt, refl)
  compensate_loop-undo steps (name ∷ names) context report h =
      let (step, at, named) = h.0 in
      let (undone, told, first, same) =
        compensate_loop-undo steps names (step.compensation context)
          (record report { compensated_steps = report.compensated_steps ++ step.name ∷ [] }) h.1 in
      (
        step ∷ undone,
        ap₂ (λ x xs. x ∷ xs) named told,
        (find_step-IsFirst steps name step at named, first),
        rw (at, compensate_loop) same,
      )

  abbrev running : List (SagaStep Context) → SagaExecutionReport
  running before = record empty_report { completed_steps = step_names before }

  failed-RolledBack :
      (before : List (SagaStep Context)) (failing : SagaStep Context)
      (after : List (SagaStep Context)) (context middle : Context)
      → Ran before context middle
      → is_success (failing.action middle).1 ≡ false
      → Ended (before ++ failing ∷ after) context (
          compensate
            (before ++ failing ∷ after)
            (failing.action middle).0
            (record (running before) { failed_step = some failing.name }))
  unfolding compensate
  failed-RolledBack before failing after context middle ran failed =
      let report : SagaExecutionReport = record (running before) {
        failed_step = some failing.name;
      } in
      let steps = before ++ failing ∷ after in
      let names = reverse (step_names before) in
      let known =
        All-reverse (Known steps) (step_names before) (All-Known before (failing ∷ after)) in
      let (undone, named, first, same) =
        compensate_loop-undo steps names (failing.action middle).0 report known in
      let told = compensate_loop-names steps names (failing.action middle).0 report known in
      inr (record {
        before = before;
        failing = failing;
        after = after;
        steps_eq = refl;
        middle = middle;
        ran = ran;
        failed = no_success (failing.action middle).1 failed;
        undone = undone;
        undone_names = named;
        undone_first = first;
        last_eq = same;
        committed_eq = ap (λ r. r.committed) told;
        completed_eq = ap (λ r. r.completed_steps) told;
        compensated_eq = ap (λ r. r.compensated_steps) told;
        failed_eq = ap (λ r. r.failed_step) told;
      })

  step_names-snoc :
      (before : List (SagaStep Context)) (step : SagaStep Context)
      → step_names before ++ step.name ∷ [] ≡ step_names (before ++ step ∷ [])
  step_names-snoc [] step = refl
  step_names-snoc (first ∷ before) step = ap (λ xs. first.name ∷ xs) (step_names-snoc before step)

  Ran-snoc :
      (before : List (SagaStep Context)) (step : SagaStep Context) (context middle : Context)
      → Ran before context middle
      → (step.action middle).1 ≡ success
      → Ran (before ++ step ∷ []) context (step.action middle).0
  Ran-snoc [] step context middle ran ok =
      subst (λ c. ((step.action c).1 ≡ success) × ((step.action c).0 ≡ (step.action middle).0))
        (sym ran) (ok, refl)
  Ran-snoc (first ∷ before) step context middle ran ok =
      (ran.0, Ran-snoc before step (first.action context).0 middle ran.1 ok)

  execute_loop-Ended :
      (before steps : List (SagaStep Context)) (context middle : Context)
      → Ran before context middle
      → Ended
          (before ++ steps)
          context
          (execute_loop (before ++ steps) steps middle (running before))
  unfolding execute_loop
  execute_loop-Ended before [] context middle ran = inl (record {
    ran = rw (append-nil before) ran;
    committed_eq = refl;
    completed_eq = ap step_names (sym (append-nil before));
    compensated_eq = refl;
    failed_eq = refl;
  })
  execute_loop-Ended before (step ∷ steps) context middle ran =
      elim (Bool-cases (is_success (step.action middle).1)) [
        | inr h ↦ rw (h, execute_loop) (failed-RolledBack before step steps context middle ran h)
        | inl h ↦
            rw (h, execute_loop)
              (subst₂
                (λ (all : List (SagaStep Context)) (names : List String). Ended all context (
                  execute_loop all steps (step.action middle).0
                    (record empty_report { completed_steps = names })))
                (append_assoc before (step ∷ []) steps) (sym (step_names-snoc before step))
                (execute_loop-Ended (before ++ step ∷ []) steps context (step.action middle).0
                  (Ran-snoc before step context middle ran (one_success (step.action middle).1 h))))
      ]

  -- A run of a saga commits after every step has succeeded, with nothing compensated, and the
  -- context is what the actions made of it; or it names the first step that did not succeed, after
  -- those before it did, and compensates those, each once and last first: the context is what the
  -- compensations made of the one that the failed step left, where the compensation for a name is
  -- that of the first step of the name. The report says which.
  pub execute_saga-Ended :
      (steps : List (SagaStep Context)) (context : Context)
      → Ended steps context (execute_saga steps context)
  unfolding execute_saga
  execute_saga-Ended steps context = execute_loop-Ended [] steps context context refl
