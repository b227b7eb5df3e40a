-- ===== src/Testcases/Lifecycle.antt =====
-- `DeclarativeScenarioRunner` of aqualinkd_validator/testcases/lifecycle.py. Console output and the
-- files of the recorder are left out; events of the timeline are kept.
pub mod Sequence
pub mod Verdicts
use aqualinkd_validator.Prelude.{
  ℕ, String, Bool, true, false, not, ◌&&◌, Option, none, some, List, [], ◌∷◌, ◌++◌, if◌then◌else◌,
}
use aqualinkd_validator.Testcases.Model.Steps.{TestcaseDefinition}
use aqualinkd_validator.Testcases.Keywords.{Error, cancelled, Result, ok, err, TestcaseKeywords}
use aqualinkd_validator.Testcases.Executor.{
  TestcaseExecution, Notice, Run, Executor, Raised, single, group, Outcome, finished, raised,
  execute,
}

pub data Status : Type 0 where
  passed failed : Status

pub data Reason : Type 0 where
  scenario_completed scenario_cancelled testcase_failed restoration_failed : Reason

pub record ScenarioOutcome : Type 0 where
  pub status : Status
  pub reason : Reason

-- What the report shows as an error: the texts of the restoration, or what the testcase raised.
pub data ReportedError : Type 0 where
  restoration_errors : List String → ReportedError
  testcase_error : Raised → ReportedError

pub record Case : Type 0 where
  pub id : String
  pub name : String
  pub status : Status
  pub error : Option Raised
  pub restoration : String

pub data Event : Type 0 where
  scenario_started : String → Event
  scenario_finished : String → Status → Reason → Event

pub record Report : Type 0 where
  pub executions : List TestcaseExecution
  pub cases : List Case
  pub error : Option ReportedError
  pub safe_to_continue : Bool
  pub outcome : ScenarioOutcome
  pub testcase : Option String

-- The runtime, the report, the timeline, and the notices of the executors.
pub record Scenario (S : Type 0) : Type 0 where
  pub world : S
  pub report : Report
  pub timeline : List Event
  pub notices : List Notice

-- The arguments of the constructor. `pending` is `has_pending_mutations` of the session that the
-- runtime shares with the keywords, `restore` the callback, which may raise.
pub record Runner (S : Type 0) : Type 0 where
  pub keywords : String → TestcaseKeywords S
  pub clock : S → ℕ × S
  pub pending : S → Bool
  pub restore : S → Result (List String) × S
  pub initialized : S → Bool
  pub restoration_status : S → String

-- What `_run_testcase` does in the end: return, raise `CancelledError`, or raise what the
-- restoration callback raised.
pub data End : Type 0 where
  returned : ScenarioOutcome → End
  cancelled_end : End
  escaped : Error → End

-- The verdict on an execution before the restoration, by the `except` clause that catches.
abbrev pub verdict : Outcome → ScenarioOutcome
verdict (finished execution) = record { status = passed; reason = scenario_completed }
verdict (raised (single cancelled)) = record { status = failed; reason = scenario_cancelled }
verdict (raised r) = record { status = failed; reason = testcase_failed }

abbrev pub is_cancelled : Outcome → Bool
is_cancelled (finished execution) = false
is_cancelled (raised (single cancelled)) = true
is_cancelled (raised r) = false

abbrev pub raised_of : Outcome → Option Raised
raised_of (finished execution) = none
raised_of (raised r) = some r

abbrev pub executions_of : Outcome → List TestcaseExecution
executions_of (finished execution) = execution ∷ []
executions_of (raised r) = []

-- Restoration errors replace the verdict.
abbrev pub judge : List String → ScenarioOutcome → ScenarioOutcome
judge [] outcome = outcome
judge (e ∷ es) outcome = record { status = failed; reason = restoration_failed }

abbrev pub error_of : List String → Option Raised → Option ReportedError → Option ReportedError
error_of (e ∷ es) raised' old = some (restoration_errors (e ∷ es))
error_of [] (some r) old = some (testcase_error r)
error_of [] none old = old

abbrev pub is_restoration_failed : Reason → Bool
is_restoration_failed restoration_failed = true
is_restoration_failed _ = false

abbrev pub is_pass : Status → Bool
is_pass passed = true
is_pass failed = false

-- After a testcase: the loop goes on only if it passed.
abbrev pub proceed :
    {S : Type 0} → Scenario S → (ScenarioOutcome → End × Scenario S) → End → End × Scenario S
proceed s later cancelled_end = (cancelled_end, s)
proceed s later (escaped e) = (escaped e, s)
proceed s later (returned outcome) =
    if is_pass outcome.status then later outcome else (returned outcome, s)

module _ {S : Type 0} (x : Runner S) where
  abbrev pub executor : String → Executor S
  executor id = record { keywords = x.keywords id; clock = x.clock }

  -- `if has_pending_mutations: restoration_errors = await restore(...)`
  unfoldable pub final_restoration : S → Result (List String) × S
  final_restoration world = if x.pending world then x.restore world else (ok [], world)

  -- What follows the restoration.
  unfoldable pub conclude_case :
      TestcaseDefinition → Outcome → Result (List String) → Scenario S → End × Scenario S
  conclude_case testcase execution (err e) s = (escaped e, s)
  conclude_case testcase execution (ok errors) s =
      let outcome = judge errors (verdict execution) in
      let stopped = is_cancelled execution in
      let case_report : Case = record {
        id = testcase.identifier;
        name = testcase.description;
        status = outcome.status;
        error = raised_of execution;
        restoration = x.restoration_status s.world;
      } in
      let report : Report = record {
        executions = s.report.executions;
        cases = s.report.cases ++ case_report ∷ [];
        error = error_of errors (raised_of execution) s.report.error;
        safe_to_continue =
            x.initialized s.world && not stopped && not (is_restoration_failed outcome.reason);
        outcome = outcome;
        testcase = some testcase.identifier;
      } in
      (
        if stopped then cancelled_end else returned outcome,
        record s {
          report = report;
          timeline =
              s.timeline
              ++ scenario_finished testcase.identifier outcome.status outcome.reason ∷ [];
        },
      )

  -- `_run_testcase`.
  unfoldable pub run_testcase : TestcaseDefinition → Scenario S → End × Scenario S
  unfolding final_restoration conclude_case
  run_testcase testcase s =
      let (execution, run) =
        execute (executor testcase.identifier) testcase
          (record { world = s.world; notices = s.notices }) in
      let (errors, world) = final_restoration run.world in
      conclude_case testcase execution errors (record s {
        world = world;
        report = record s.report { executions = s.report.executions ++ executions_of execution };
        timeline = s.timeline ++ scenario_started testcase.identifier ∷ [];
        notices = run.notices;
      })

  -- `run`: the loop over the testcases with the outcome so far; it ends at the first that did not
  -- pass, or where one raises.
  unfoldable pub run_testcases :
      List TestcaseDefinition → ScenarioOutcome → Scenario S → End × Scenario S
  unfolding run_testcase
  run_testcases [] outcome s = (returned outcome, s)
  run_testcases (testcase ∷ rest) outcome s =
      let (end, s') = run_testcase testcase s in
      proceed s' (λ outcome'. run_testcases rest outcome' s') end

  -- `run`, up to the summary that it writes for several testcases.
  unfoldable pub run : List TestcaseDefinition → Scenario S → End × Scenario S
  unfolding run_testcases
  run testcases s =
      run_testcases testcases (record { status = passed; reason = scenario_completed }) s
