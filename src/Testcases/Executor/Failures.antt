-- ===== src/Testcases/Executor/Failures.antt =====
-- How the outcome of a run counts the steps that failed.
use aqualinkd_validator.Prelude.{
  ℕ, suc, ◌+◌, String, ◌≡◌, refl, ap, ◌∙◌, Option, none, some, Bool, true, false, ◌==◌, List, [],
  ◌∷◌, ◌++◌, arith, append-nil, length, length-append, inl, inr,
}
use aqualinkd_validator.Testcases.Model.Steps.{TestcaseStep, TestcaseDefinition}
use aqualinkd_validator.Testcases.Keywords.{Error}
use aqualinkd_validator.Testcases.Executor.{
  Section, steps, finally, StepState, running, passed, failed, StepExecution, Run, Executor,
  execute_step, run_steps, run_finally, settle, execute, Notice, read_clock, Outcome, finished,
  raised,
}
use aqualinkd_validator.Testcases.Executor.Notices.{ended, ended-nil, verdict, ended-execute_step}
use aqualinkd_validator.Testcases.Executor.Cleanup.{Result-cases, notices-settle}
use aqualinkd_validator.Testcases.Executor.Stops.{started_steps-run_finally}
use aqualinkd_validator.Testcases.Executor.Errors.{outcome_errors, option_list, errors-settle}

abbrev pub count_failed : List StepState → ℕ
count_failed [] = 0
count_failed (failed ∷ rest) = suc (count_failed rest)
count_failed (_ ∷ rest) = count_failed rest

count_failed-append :
    (xs ys : List StepState) → count_failed (xs ++ ys) ≡ count_failed xs + count_failed ys
count_failed-append [] ys = omega arith
count_failed-append (running ∷ xs) ys = count_failed-append xs ys
count_failed-append (passed ∷ xs) ys = count_failed-append xs ys
count_failed-append (failed ∷ xs) ys = omega (arith, count_failed-append xs ys)

-- The steps of a section that the observer saw fail.
abbrev pub failures : Section → List Notice → ℕ
failures section notices = count_failed (ended section notices)

abbrev pub is_finished : Outcome → Bool
is_finished (finished execution) = true
is_finished (raised r) = false

module _ {S : Type 0} (x : Executor S) (id : String) where
  failures-execute_step :
      (own : Section) (index : ℕ) (step : TestcaseStep) (run : Run S)
      → let after = execute_step x id own index step run in
        failures own after.1.notices
        ≡ failures own run.notices + count_failed (verdict after.0 ∷ [])
  failures-execute_step steps index step run =
      ap count_failed (ended-execute_step x id index step run steps steps)
      ∙ count_failed-append (ended steps run.notices)
          (verdict (execute_step x id steps index step run).0 ∷ [])
  failures-execute_step finally index step run =
      ap count_failed (ended-execute_step x id index step run finally finally)
      ∙ count_failed-append (ended finally run.notices)
          (verdict (execute_step x id finally index step run).0 ∷ [])

  failures-run_steps :
      (index : ℕ) (todo : List TestcaseStep) (run : Run S)
      → let ((_, error), after) = run_steps x id index todo run in
        (failures steps after.notices ≡ failures steps run.notices + length (option_list error))
        × (failures finally after.notices ≡ failures finally run.notices)
  unfolding run_steps
  failures-run_steps index [] run = (omega arith, refl)
  failures-run_steps index (step ∷ rest) run =
      let after = execute_step x id steps index step run in
      let counted = failures-execute_step steps index step run in
      let kept : failures finally after.1.notices ≡ failures finally run.notices = ap count_failed (
        ended-execute_step x id index step run finally steps
        ∙ append-nil (ended finally run.notices)) in
      let (here, there) = failures-run_steps (index + 1) rest after.1 in
      elim (Result-cases after.0) [
        | inl (execution, e) ↦
            let counted' = rw e at counted in
            (rw (e, run_steps) (omega arith), rw (e, run_steps) (omega arith))
        | inr (error, e) ↦
            let counted' = rw e at counted in
            (rw (e, run_steps) (omega arith), rw (e, run_steps) (omega arith))
      ]

  failures-run_finally :
      (index : ℕ) (todo : List TestcaseStep) (run : Run S)
      → let ((_, errors), after) = run_finally x id index todo run in
        failures finally after.notices ≡ failures finally run.notices + length errors
  unfolding run_finally
  failures-run_finally index [] run = omega arith
  failures-run_finally index (step ∷ rest) run =
      let after = execute_step x id finally index step run in
      let counted = failures-execute_step finally index step run in
      let here = failures-run_finally (index + 1) rest after.1 in
      elim (Result-cases after.0) [
        | inl (execution, e) ↦ let counted' = rw e at counted in rw (e, run_finally) (omega arith)
        | inr (error, e) ↦ let counted' = rw e at counted in rw (e, run_finally) (omega arith)
      ]

  is_finished-settle :
      (since : ℕ) (executions : List StepExecution) (primary : Option Error) (errors : List Error)
      (run : Run S)
      → is_finished (settle x id since executions primary errors run).0
        ≡ (length (option_list primary ++ errors) == 0)
  unfolding settle
  is_finished-settle since executions (some error) (e ∷ es) run = ground arith
  is_finished-settle since executions (some error) [] run = ground arith
  is_finished-settle since executions none (e ∷ []) run = ground arith
  is_finished-settle since executions none (e ∷ e' ∷ es) run = ground arith
  is_finished-settle since executions none [] run = ground arith

-- From a fresh observer, `execute` raises as many errors as steps of either section failed, and
-- it returns an execution exactly if none did.
pub execute-failures :
    {S : Type 0} (x : Executor S) (testcase : TestcaseDefinition) (run : Run S)
    → run.notices ≡ []
    → let (outcome, after) = execute x testcase run in
      let failed_steps = failures steps after.notices + failures finally after.notices in
      (length (outcome_errors outcome) ≡ failed_steps) × (is_finished outcome ≡ (failed_steps == 0))
unfolding execute
execute-failures x testcase run fresh =
    let id = testcase.identifier in
    let before = (read_clock x run).1 in
    let (body, middle) = run_steps x id 0 testcase.steps before in
    let (cleanup, after) = run_finally x id 0 testcase.finally_steps middle in
    let (body_steps, body_finally) = failures-run_steps x id 0 testcase.steps before in
    let cleanup_finally = failures-run_finally x id 0 testcase.finally_steps middle in
    let cleanup_steps =
      ap count_failed (started_steps-run_finally x id 0 testcase.finally_steps middle).1 in
    let quiet : (section : Section) → failures section run.notices ≡ 0 =
      λ section. rw fresh (rw (ended-nil section)) in
    let quiet_steps = quiet steps in
    let quiet_finally = quiet finally in
    let counted : length (option_list body.1 ++ cleanup.1)
        ≡ failures steps after.notices + failures finally after.notices =
      omega (arith, length-append (option_list body.1) cleanup.1) in
    rw (errors-settle, is_finished-settle, notices-settle, counted) (refl, refl)
