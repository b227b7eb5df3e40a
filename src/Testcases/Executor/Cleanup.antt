-- ===== src/Testcases/Executor/Cleanup.antt =====
-- Which steps of a testcase are started, whatever fails.
use aqualinkd_validator.Prelude.{
  ℕ, ◌+◌, String, ◌≡◌, refl, ap, sym, ◌∙◌, Option, none, some, List, [], ◌∷◌, ◌++◌, append_assoc,
  append-nil, ◌⊎◌, inl, inr,
}
use aqualinkd_validator.Testcases.Model.Steps.{TestcaseStep, keyword, TestcaseDefinition}
use aqualinkd_validator.Testcases.Keywords.{Error, Result, ok, err}
use aqualinkd_validator.Testcases.Executor.{
  steps, finally, StepExecution, Run, Executor, execute_step, run_steps, run_finally, settle,
  execute, read_clock,
}
use aqualinkd_validator.Testcases.Executor.Notices.{started, started-execute_step}

-- Index and keyword of each step, from an index on.
abbrev pub numbered : ℕ → List TestcaseStep → List (ℕ × String)
numbered index [] = []
numbered index (step ∷ rest) = (index, keyword step) ∷ numbered (index + 1) rest

pub Result-cases {ℓ} :
    {A : Type ℓ} (r : Result A) → ((a : A) × (r ≡ ok a)) ⊎ ((e : Error) × (r ≡ err e))
Result-cases (ok a) = inl (a, refl)
Result-cases (err e) = inr (e, refl)

module _ {S : Type 0} (x : Executor S) (testcase_id : String) where
  started-run_finally :
      (index : ℕ) (todo : List TestcaseStep) (run : Run S)
      → started finally (run_finally x testcase_id index todo run).1.notices
        ≡ started finally run.notices ++ numbered index todo
  unfolding run_finally
  started-run_finally index [] run = sym (append-nil _)
  started-run_finally index (step ∷ rest) run =
      let after = execute_step x testcase_id finally index step run in
      elim (Result-cases after.0) [
        | inl (execution, e) ↦
            rw (e, run_finally)
              (started-run_finally (index + 1) rest after.1
                ∙ rw started-execute_step (simp append_assoc))
        | inr (error, e) ↦
            rw (e, run_finally)
              (started-run_finally (index + 1) rest after.1
                ∙ rw started-execute_step (simp append_assoc))
      ]

  started_finally-run_steps :
      (index : ℕ) (todo : List TestcaseStep) (run : Run S)
      → started finally (run_steps x testcase_id index todo run).1.notices
        ≡ started finally run.notices
  unfolding run_steps
  started_finally-run_steps index [] run = refl
  started_finally-run_steps index (step ∷ rest) run =
      let after = execute_step x testcase_id steps index step run in
      let kept : started finally after.1.notices ≡ started finally run.notices =
        started-execute_step x testcase_id index step run finally steps
        ∙ append-nil (started finally run.notices) in
      elim (Result-cases after.0) [
        | inl (execution, e) ↦
            rw (e, run_steps) (started_finally-run_steps (index + 1) rest after.1 ∙ kept)
        | inr (error, e) ↦ rw (e, run_steps) kept
      ]

  pub notices-settle :
      (since : ℕ) (executions : List StepExecution) (primary : Option Error) (errors : List Error)
      (run : Run S)
      → (settle x testcase_id since executions primary errors run).1.notices ≡ run.notices
  unfolding settle
  notices-settle since executions (some error) (e ∷ es) run = refl
  notices-settle since executions (some error) [] run = refl
  notices-settle since executions none (e ∷ []) run = refl
  notices-settle since executions none (e ∷ e' ∷ es) run = refl
  notices-settle since executions none [] run = refl

-- Every `finally` step is started, once and in order, whatever the keywords raise: the observer
-- has seen them start after what it had seen before the run.
pub started_finally-execute :
    {S : Type 0} (x : Executor S) (testcase : TestcaseDefinition) (run : Run S)
    → started finally (execute x testcase run).1.notices
      ≡ started finally run.notices ++ numbered 0 testcase.finally_steps
unfolding execute
started_finally-execute x testcase run =
    let id = testcase.identifier in
    let before = (read_clock x run).1 in
    let (body, middle) = run_steps x id 0 testcase.steps before in
    let (cleanup, after) = run_finally x id 0 testcase.finally_steps middle in
    ap (started finally)
      (notices-settle x id (read_clock x run).0 (body.0 ++ cleanup.0) body.1 cleanup.1 after)
    ∙ (started-run_finally x id 0 testcase.finally_steps middle
        ∙ ap (λ (seen : List (ℕ × String)). seen ++ numbered 0 testcase.finally_steps)
            (started_finally-run_steps x id 0 testcase.steps before))
