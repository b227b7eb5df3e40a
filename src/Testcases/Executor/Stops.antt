-- ===== src/Testcases/Executor/Stops.antt =====
-- The steps of a testcase up to its first failure.
use aqualinkd_validator.Prelude.{
  ℕ, suc, ◌+◌, ◌<◌, String, ◌≡◌, refl, sym, ◌∙◌, List, [], ◌∷◌, ◌++◌, arith, append_assoc,
  append-nil, length, ◌⊎◌, inl, inr, take, replicate,
}
use aqualinkd_validator.Testcases.Model.Steps.{TestcaseStep, keyword, TestcaseDefinition}
use aqualinkd_validator.Testcases.Executor.{
  steps, finally, passed, failed, Run, Executor, execute_step, run_steps, run_finally, execute,
  Notice, read_clock,
}
use aqualinkd_validator.Testcases.Executor.Notices.{
  started, ended, started-execute_step, ended-execute_step,
}
use aqualinkd_validator.Testcases.Executor.Cleanup.{numbered, Result-cases, notices-settle}

-- From `before` to `after` all the steps were started and passed, or those up to one that failed.
abbrev pub Stops : List (ℕ × String) → List Notice → List Notice → Type 0
Stops todo before after =
    (started steps after ≡ started steps before ++ todo)
      × (ended steps after ≡ ended steps before ++ replicate (length todo) passed)
    ⊎ ((k : ℕ) × (k < length todo)
        × (started steps after ≡ started steps before ++ take (suc k) todo)
        × (ended steps after ≡ ended steps before ++ (replicate k passed ++ failed ∷ [])))

Stops-cons :
    (first : ℕ × String) (todo : List (ℕ × String)) (before middle after : List Notice)
    → started steps middle ≡ started steps before ++ first ∷ []
    → ended steps middle ≡ ended steps before ++ passed ∷ []
    → Stops todo middle after
    → Stops (first ∷ todo) before after
Stops-cons first todo before middle after s e (inl (s', e')) =
    inl (s' ∙ rw s (simp append_assoc), e' ∙ rw e (simp append_assoc))
Stops-cons first todo before middle after s e (inr (k, h, s', e')) =
    inr (suc k, omega arith, s' ∙ rw s (simp append_assoc), e' ∙ rw e (simp append_assoc))

module _ {S : Type 0} (x : Executor S) (testcase_id : String) where
  run_steps-Stops :
      (index : ℕ) (todo : List TestcaseStep) (run : Run S)
      → Stops (numbered index todo) run.notices (run_steps x testcase_id index todo run).1.notices
  unfolding run_steps
  run_steps-Stops index [] run = inl (sym (append-nil _), sym (append-nil _))
  run_steps-Stops index (step ∷ rest) run =
      let after = execute_step x testcase_id steps index step run in
      let starts = started-execute_step x testcase_id index step run steps steps in
      let ends = ended-execute_step x testcase_id index step run steps steps in
      elim (Result-cases after.0) [
        | inl (execution, e) ↦
            rw (e, run_steps)
              (Stops-cons (index, keyword step) (numbered (index + 1) rest) run.notices
                after.1.notices (run_steps x testcase_id (index + 1) rest after.1).1.notices starts
                (ends ∙ rw e) (run_steps-Stops (index + 1) rest after.1))
        | inr (error, e) ↦ rw (e, run_steps) (inr (0, omega arith, starts, ends ∙ rw e))
      ]

  pub started_steps-run_finally :
      (index : ℕ) (todo : List TestcaseStep) (run : Run S)
      → (started steps (run_finally x testcase_id index todo run).1.notices
          ≡ started steps run.notices)
        × (ended steps (run_finally x testcase_id index todo run).1.notices
            ≡ ended steps run.notices)
  unfolding run_finally
  started_steps-run_finally index [] run = (refl, refl)
  started_steps-run_finally index (step ∷ rest) run =
      let after = execute_step x testcase_id finally index step run in
      let starts = started-execute_step x testcase_id index step run steps finally ∙ append-nil _ in
      let ends = ended-execute_step x testcase_id index step run steps finally ∙ append-nil _ in
      let (starts', ends') = started_steps-run_finally (index + 1) rest after.1 in
      elim (Result-cases after.0) [
        | inl (execution, e) ↦
            (rw (e, run_finally) (starts' ∙ starts), rw (e, run_finally) (ends' ∙ ends))
        | inr (error, e) ↦
            (rw (e, run_finally) (starts' ∙ starts), rw (e, run_finally) (ends' ∙ ends))
      ]

-- The steps are started in order up to the first one that fails, and none after it: either all
-- were started and passed, or the first `k` passed, the next one failed and the rest were not
-- started.
pub execute-Stops :
    {S : Type 0} (x : Executor S) (testcase : TestcaseDefinition) (run : Run S)
    → Stops (numbered 0 testcase.steps) run.notices (execute x testcase run).1.notices
unfolding execute
execute-Stops x testcase run =
    let id = testcase.identifier in
    let before = (read_clock x run).1 in
    let (body, middle) = run_steps x id 0 testcase.steps before in
    let (cleanup, after) = run_finally x id 0 testcase.finally_steps middle in
    let (starts, ends) = started_steps-run_finally x id 0 testcase.finally_steps middle in
    rw (notices-settle, starts, ends) (run_steps-Stops x id 0 testcase.steps before)
