-- ===== src/Testcases/Executor.antt =====
-- `TestcaseExecutor` of aqualinkd_validator/testcases/executor.py.
pub mod Cleanup
pub mod Failures
pub mod Errors
pub mod Stops
pub mod Notices
use aqualinkd_validator.Prelude.{
  ℕ, ◌+◌, ◌-◌, String, ◌<>◌, ◌≡◌, refl, Option, none, some, Bool, List, [], ◌∷◌, ◌++◌, arith,
}
use aqualinkd_validator.Testcases.Model.Steps.{TestcaseStep, keyword, TestcaseDefinition}
use aqualinkd_validator.Testcases.Keywords.{
  Error, cancelled, keyboard_interrupt, system_exit, other, step_failure, Result, ok, err, Action,
  TestcaseKeywords, dispatch,
}

pub data Section : Type 0 where
  steps finally : Section

abbrev pub section_name : Section → String
section_name steps = "steps"
section_name finally = "finally"

pub data StepState : Type 0 where
  running passed failed : StepState

pub record StepExecution : Type 0 where
  pub section : Section
  pub index : ℕ
  pub keyword_name : String
  pub duration_seconds : ℕ

pub record StepProgress : Type 0 where
  pub testcase_id : String
  pub section : Section
  pub index : ℕ
  pub keyword_name : String
  pub state : StepState
  pub duration_seconds : Option ℕ
  pub error : Option Error

pub record TestcaseExecution : Type 0 where
  pub identifier : String
  pub steps : List StepExecution
  pub duration_seconds : ℕ

-- A line for the `progress` callback shows what the event for the `observer` holds.
pub data Notice : Type 0 where
  progress observed : StepProgress → Notice

-- The state of the runtime, and the notices so far, the latest last.
pub record Run (S : Type 0) : Type 0 where
  pub world : S
  pub notices : List Notice

-- The arguments of the constructor: the keywords, and the clock, which moves the runtime on.
pub record Executor (S : Type 0) : Type 0 where
  pub keywords : TestcaseKeywords S
  pub clock : S → ℕ × S

-- What `execute` raises: an error, or a `BaseExceptionGroup`.
pub data Raised : Type 0 where
  single : Error → Raised
  group : String → List Error → Raised

pub data Outcome : Type 0 where
  finished : TestcaseExecution → Outcome
  raised : Raised → Outcome

-- The exceptions that `_execute_step` raises again as they are.
unfoldable pub wrap : String → Section → ℕ → String → Error → Error
wrap testcase_id section index name cancelled = cancelled
wrap testcase_id section index name keyboard_interrupt = keyboard_interrupt
wrap testcase_id section index name system_exit = system_exit
wrap testcase_id section index name error =
    step_failure testcase_id (section_name section) index name error

-- The event that announces a step.
abbrev pub start_event : String → Section → ℕ → TestcaseStep → StepProgress
start_event testcase_id section index step = record {
  testcase_id = testcase_id;
  section = section;
  index = index;
  keyword_name = keyword step;
  state = running;
  duration_seconds = none;
  error = none;
}

module _ {S : Type 0} (x : Executor S) where
  abbrev pub tell : StepProgress → Run S → Run S
  tell event run = record run { notices = run.notices ++ (progress event ∷ observed event ∷ []) }

  abbrev pub read_clock : Run S → ℕ × Run S
  read_clock run = let (now, world) = x.clock run.world in (now, record run { world = world })

  -- What follows the keyword's end.
  abbrev pub conclude : StepProgress → ℕ → Result (Unit {0}) → Run S → Result StepExecution × Run S
  conclude event started (ok _) run =
      let (now, run') = read_clock run in
      (
        ok (record {
          section = event.section;
          index = event.index;
          keyword_name = event.keyword_name;
          duration_seconds = now - started;
        }),
        tell (record event { state = passed; duration_seconds = some (now - started) }) run',
      )
  conclude event started (err error) run =
      let (now, run') = read_clock run in
      (
        err (wrap event.testcase_id event.section event.index event.keyword_name error),
        tell
            (record event {
              state = failed;
              duration_seconds = some (now - started);
              error = some error;
            })
            run',
      )

  -- `_execute_step`.
  unfoldable pub execute_step :
      String → Section → ℕ → TestcaseStep → Run S → Result StepExecution × Run S
  execute_step testcase_id section index step run =
      let (started, run') = read_clock run in
      let event = start_event testcase_id section index step in
      let told = tell event run' in
      let (result, world) = dispatch x.keywords step told.world in
      conclude event started result (record told { world = world })

  -- The loop over `steps`: it ends at the first error.
  unfoldable pub run_steps :
      String → ℕ → List TestcaseStep → Run S → (List StepExecution × Option Error) × Run S
  run_steps testcase_id index [] run = (([], none), run)
  run_steps testcase_id index (step ∷ rest) run =
      let (result, run') = execute_step testcase_id steps index step run in
      elim result [
        | ok execution ↦
            let ((executions, error), run'') = run_steps testcase_id (index + 1) rest run' in
            ((execution ∷ executions, error), run'')
        | err error ↦ (([], some error), run')
      ]

  -- The loop over `finally_steps`: it goes on after an error.
  unfoldable pub run_finally :
      String → ℕ → List TestcaseStep → Run S → (List StepExecution × List Error) × Run S
  run_finally testcase_id index [] run = (([], []), run)
  run_finally testcase_id index (step ∷ rest) run =
      let (result, run') = execute_step testcase_id finally index step run in
      elim result [
        | ok execution ↦
            let ((executions, errors), run'') = run_finally testcase_id (index + 1) rest run' in
            ((execution ∷ executions, errors), run'')
        | err error ↦
            let ((executions, errors), run'') = run_finally testcase_id (index + 1) rest run' in
            ((executions, error ∷ errors), run'')
      ]

  -- The end of `execute`: what is raised, or the execution.
  unfoldable pub settle :
      String → ℕ → List StepExecution → Option Error → List Error → Run S → Outcome × Run S
  settle testcase_id started executions (some error) (e ∷ es) run =
      (raised (group (testcase_id <> " failed and cleanup also failed") (error ∷ e ∷ es)), run)
  settle testcase_id started executions (some error) [] run = (raised (single error), run)
  settle testcase_id started executions none (e ∷ []) run = (raised (single e), run)
  settle testcase_id started executions none (e ∷ e' ∷ es) run =
      (raised (group (testcase_id <> " cleanup failed") (e ∷ e' ∷ es)), run)
  settle testcase_id started executions none [] run =
      let (now, run') = read_clock run in
      (
        finished (record {
          identifier = testcase_id;
          steps = executions;
          duration_seconds = now - started;
        }),
        run',
      )

  -- `execute`.
  unfoldable pub execute : TestcaseDefinition → Run S → Outcome × Run S
  execute testcase run =
      let (started, run₀) = read_clock run in
      let ((executions, primary), run₁) = run_steps testcase.identifier 0 testcase.steps run₀ in
      let ((cleaned, errors), run₂) =
        run_finally testcase.identifier 0 testcase.finally_steps run₁ in
      settle testcase.identifier started (executions ++ cleaned) primary errors run₂
