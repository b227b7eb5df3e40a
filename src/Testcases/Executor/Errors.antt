-- ===== src/Testcases/Executor/Errors.antt =====
-- What `execute` raises, and when.
use aqualinkd_validator.Prelude.{
  ℕ, ◌+◌, String, ◌≡◌, refl, Option, none, some, List, [], ◌∷◌, ◌++◌, inl, inr, All, All-map, ap,
  subst, length, arith, ◌⊎◌,
}
use aqualinkd_validator.Testcases.Model.Steps.{TestcaseStep, TestcaseDefinition, keyword}
use aqualinkd_validator.Testcases.Keywords.{
  dispatch, Error, Result, ok, err, cancelled, keyboard_interrupt, system_exit, other, step_failure,
  TestcaseKeywords,
}
use aqualinkd_validator.Testcases.Executor.{
  Section, steps, finally, StepExecution, Run, Executor, execute_step, run_steps, run_finally,
  settle, execute, read_clock, wrap, section_name, conclude, start_event, tell, Raised, single,
  group, Outcome, finished, raised,
}
use aqualinkd_validator.Testcases.Executor.Notices.{started}
use aqualinkd_validator.Testcases.Executor.Cleanup.{Result-cases}

-- How an exception leaves a step: the ones that end the work as they were raised, any other as the
-- failure of the step, which names it and holds what was raised.
abbrev pub LeavesAs : String → String → ℕ → String → Error → Error → Type 0
LeavesAs id section index name cancelled e = e ≡ cancelled
LeavesAs id section index name keyboard_interrupt e = e ≡ keyboard_interrupt
LeavesAs id section index name system_exit e = e ≡ system_exit
LeavesAs id section index name (other kind text) e =
    e ≡ step_failure id section index name (other kind text)
LeavesAs id section index name (step_failure i s n k cause) e =
    e ≡ step_failure id section index name (step_failure i s n k cause)

-- A step of a list, and a state of the keywords in which it raised an exception that left it as `e`.
pub record IsReport {S : Type 0} (keywords : TestcaseKeywords S) (id section : String) (start : ℕ)
    (todo : List TestcaseStep) (e : Error) : Type 0 where
  pub earlier : List TestcaseStep
  pub step : TestcaseStep
  pub later : List TestcaseStep
  pub place : todo ≡ earlier ++ step ∷ later
  pub world : S
  pub cause : Error
  pub thrown : (dispatch keywords step world).0 ≡ err cause
  pub left : LeavesAs id section (start + length earlier) (keyword step) cause e

abbrev pub IsReportIf :
    {S : Type 0}
    → TestcaseKeywords S
    → String
    → String
    → ℕ
    → TestcaseStep
    → Result StepExecution
    → Type 0
IsReportIf keywords id section index step (ok a) = Unit
IsReportIf {S} keywords id section index step (err e) =
    (world : S) × (cause : Error) × ((dispatch keywords step world).0 ≡ err cause)
    × LeavesAs id section index (keyword step) cause e

abbrev pub raised_errors : Raised → List Error
raised_errors (single error) = error ∷ []
raised_errors (group message errors) = errors

abbrev pub outcome_errors : Outcome → List Error
outcome_errors (finished execution) = []
outcome_errors (raised r) = raised_errors r

abbrev pub option_list {ℓ} : {A : Type ℓ} → Option A → List A
option_list none = []
option_list (some a) = a ∷ []

wrap-LeavesAs :
    (id : String) (section : Section) (index : ℕ) (name : String) (error : Error)
    → LeavesAs id (section_name section) index name error (wrap id section index name error)
unfolding wrap
wrap-LeavesAs id section index name cancelled = refl
wrap-LeavesAs id section index name keyboard_interrupt = refl
wrap-LeavesAs id section index name system_exit = refl
wrap-LeavesAs id section index name (other _ _) = refl
wrap-LeavesAs id section index name (step_failure _ _ _ _ _) = refl

All-append : {A : Type 0} (P : A → Type 0) (xs ys : List A) → All P xs → All P ys → All P (xs ++ ys)
All-append P [] ys p q = q
All-append P (x ∷ xs) ys (p, ps) q = (p, All-append P xs ys ps q)

module _ {S : Type 0} (x : Executor S) (id : String) where
  conclude-IsReport :
      (section : Section) (index : ℕ) (step : TestcaseStep) (since : ℕ) (world : S)
      (result : Result (Unit {0})) (run : Run S)
      → (dispatch x.keywords step world).0 ≡ result
      → IsReportIf x.keywords id
          (section_name section)
          index
          step
          (conclude x (start_event id section index step) since result run).0
  conclude-IsReport section index step since world (ok r) run h = tt
  conclude-IsReport section index step since world (err e) run h =
      (world, e, h, wrap-LeavesAs id section index (keyword step) e)

  execute_step-IsReport :
      (section : Section) (index : ℕ) (step : TestcaseStep) (run : Run S)
      → IsReportIf x.keywords id
          (section_name section)
          index
          step
          (execute_step x id section index step run).0
  unfolding execute_step
  execute_step-IsReport section index step run =
      let (started, run') = read_clock x run in
      let told = tell x (start_event id section index step) run' in
      let (result, world) = dispatch x.keywords step told.world in
      conclude-IsReport section index step started told.world result (record told { world = world })
        refl

  abbrev Reported : Section → ℕ → List TestcaseStep → Error → Type 0
  Reported section = IsReport x.keywords id (section_name section)

  Reported-head :
      (section : Section) (index : ℕ) (step : TestcaseStep) (rest : List TestcaseStep) (e : Error)
      → IsReportIf x.keywords id (section_name section) index step (err e)
      → Reported section index (step ∷ rest) e
  Reported-head section index step rest e (world, cause, thrown, left) =
      let same : index ≡ index + 0 = omega arith in
      record {
        earlier = [];
        step = step;
        later = rest;
        place = refl;
        world = world;
        cause = cause;
        thrown = thrown;
        left = subst (λ n. LeavesAs id (section_name section) n (keyword step) cause e) same left;
      }

  Reported-tail :
      (section : Section) (index : ℕ) (step : TestcaseStep) (rest : List TestcaseStep) (e : Error)
      → Reported section (index + 1) rest e
      → Reported section index (step ∷ rest) e
  Reported-tail section index step rest e r =
      let same : index + 1 + length r.earlier ≡ index + length (step ∷ r.earlier) = omega arith in
      record {
        earlier = step ∷ r.earlier;
        step = r.step;
        later = r.later;
        place = ap (λ steps. step ∷ steps) r.place;
        world = r.world;
        cause = r.cause;
        thrown = r.thrown;
        left =
            subst (λ n. LeavesAs id (section_name section) n (keyword r.step) r.cause e) same
              r.left;
      }

  run_steps-Reported :
      (index : ℕ) (todo : List TestcaseStep) (run : Run S)
      → All (Reported steps index todo) (option_list (run_steps x id index todo run).0.1)
  unfolding run_steps
  run_steps-Reported index [] run = tt
  run_steps-Reported index (step ∷ rest) run =
      let after = execute_step x id steps index step run in
      let reported = execute_step-IsReport steps index step run in
      elim (Result-cases after.0) [
        | inl (execution, e) ↦
            rw (e, run_steps)
              (All-map (Reported steps (index + 1) rest) (Reported steps index (step ∷ rest))
                (Reported-tail steps index step rest)
                (option_list (run_steps x id (index + 1) rest after.1).0.1)
                (run_steps-Reported (index + 1) rest after.1))
        | inr (error, e) ↦
            rw (e, run_steps) (Reported-head steps index step rest error (rw e at reported), tt)
      ]

  run_finally-Reported :
      (index : ℕ) (todo : List TestcaseStep) (run : Run S)
      → All (Reported finally index todo) (run_finally x id index todo run).0.1
  unfolding run_finally
  run_finally-Reported index [] run = tt
  run_finally-Reported index (step ∷ rest) run =
      let after = execute_step x id finally index step run in
      let reported = execute_step-IsReport finally index step run in
      let others =
        All-map (Reported finally (index + 1) rest) (Reported finally index (step ∷ rest))
          (Reported-tail finally index step rest) (run_finally x id (index + 1) rest after.1).0.1
          (run_finally-Reported (index + 1) rest after.1) in
      elim (Result-cases after.0) [
        | inl (execution, e) ↦ rw (e, run_finally) others
        | inr (error, e) ↦
            rw (e, run_finally)
              (Reported-head finally index step rest error (rw e at reported), others)
      ]

  -- What is raised: the error of the steps first, then those of the cleanup.
  pub errors-settle :
      (since : ℕ) (executions : List StepExecution) (primary : Option Error) (errors : List Error)
      (run : Run S)
      → outcome_errors (settle x id since executions primary errors run).0
        ≡ option_list primary ++ errors
  unfolding settle
  errors-settle since executions (some error) (e ∷ es) run = refl
  errors-settle since executions (some error) [] run = refl
  errors-settle since executions none (e ∷ []) run = refl
  errors-settle since executions none (e ∷ e' ∷ es) run = refl
  errors-settle since executions none [] run = refl

-- Each thing that `execute` raises was raised by a step of the testcase or of its cleanup, in some
-- state of the keywords: a cancellation, an interrupt or an exit is raised as it was; anything else
-- is raised as the failure of that step, which names the testcase, the section, the step's place in
-- it and its keyword, and holds what the step raised.
pub execute_errors :
    {S : Type 0} (x : Executor S) (testcase : TestcaseDefinition) (run : Run S)
    → All
        (λ e.
          IsReport x.keywords testcase.identifier "steps" 0 testcase.steps e
          ⊎ IsReport x.keywords testcase.identifier "finally" 0 testcase.finally_steps e)
        (outcome_errors (execute x testcase run).0)
unfolding execute
execute_errors {S} x testcase run =
    let id = testcase.identifier in
    let before = (read_clock x run).1 in
    let (body, middle) = run_steps x id 0 testcase.steps before in
    let (cleanup, after) = run_finally x id 0 testcase.finally_steps middle in
    rw errors-settle (
      All-append Either (option_list body.1) cleanup.1
        (All-map Body Either (λ e h. inl h) (option_list body.1)
          (run_steps-Reported x id 0 testcase.steps before))
        (All-map Cleanup Either (λ e h. inr h) cleanup.1
          (run_finally-Reported x id 0 testcase.finally_steps middle)))
  where
    Body : Error → Type 0
    Body = IsReport x.keywords testcase.identifier "steps" 0 testcase.steps

    Cleanup : Error → Type 0
    Cleanup = IsReport x.keywords testcase.identifier "finally" 0 testcase.finally_steps

    Either : Error → Type 0
    Either e = Body e ⊎ Cleanup e
