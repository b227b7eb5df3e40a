-- ===== src/Tests/Scenarios.antt =====
-- Tests of the executor and of the runner of scenarios.
use aqualinkd_validator.Prelude.{
  ℕ, ◌+◌, ◌==◌, ◌≡◌, refl, Bool, true, false, none, [], ◌∷◌, ◌++◌, ◌⊎◌, inl, All, length,
}
use aqualinkd_validator.Testcases.Model.{physical_panel, read_only, read_write, pda}
use aqualinkd_validator.Testcases.Model.Steps.{
  TestcaseStep, wait_for, return_pda_home, TestcaseDefinition,
}
use aqualinkd_validator.Testcases.Keywords.{ok, TestcaseKeywords, unsupported_keywords, dispatch}
use aqualinkd_validator.Testcases.Executor.{
  steps, finally, Run, Executor, execute, run_steps, run_finally, execute_step, settle,
}
use aqualinkd_validator.Testcases.Executor.Notices.{started}
use aqualinkd_validator.Testcases.Executor.Cleanup.{started_finally-execute}
use aqualinkd_validator.Testcases.Executor.Failures.{failures, is_finished, execute-failures}
use aqualinkd_validator.Testcases.Executor.Stops.{Stops, execute-Stops}
use aqualinkd_validator.Testcases.Executor.Errors.{IsReport, outcome_errors, execute_errors}
use aqualinkd_validator.Testcases.Lifecycle.{
  passed, scenario_completed, Scenario, Runner, returned, run_testcase, run,
}
use aqualinkd_validator.Testcases.Lifecycle.Verdicts.{run_testcase-Clean}
use aqualinkd_validator.Testcases.Lifecycle.Sequence.{Sequence, run-Sequence}

-- The world is a clock and whether a mutation is pending. `wait_for` passes, and leaves one.
record World : Type 0 where
  time : ℕ
  pending : Bool

abbrev keywords : TestcaseKeywords World
keywords = record (unsupported_keywords World) {
  on_wait_for = λ step w. (ok tt, record w { pending = true });
}

abbrev tick : World → ℕ × World
tick w = (w.time, record w { time = w.time + 1 })

abbrev executor : Executor World
executor = record { keywords = keywords; clock = tick }

abbrev waits : TestcaseStep
waits = wait_for (record { condition = "pda_ready"; timeout_seconds = 5 })

abbrev home : TestcaseStep
home = return_pda_home (record { timeout_seconds = 5 })

-- The second step fails, and both cleanup steps too but for the last.
abbrev testcase : TestcaseDefinition
testcase = record {
  schema = 1;
  mode = physical_panel;
  access = read_write;
  requirements = record { protocol = pda };
  fixture = none;
  identifier = "spa";
  description = "Spa mode";
  steps = waits ∷ home ∷ waits ∷ [];
  finally_steps = home ∷ waits ∷ [];
}

abbrev begin : Run World
begin = record { world = record { time = 0; pending = false }; notices = [] }

started_finally-execute_example :
    started finally (execute executor testcase begin).1.notices
    ≡ started finally [] ++ (0, "return_pda_home") ∷ (1, "wait_for") ∷ []
started_finally-execute_example = started_finally-execute executor testcase begin

execute-failures_example :
    let (outcome, after) = execute executor testcase begin in
    let failed_steps = failures steps after.notices + failures finally after.notices in
    (length (outcome_errors outcome) ≡ failed_steps) × (is_finished outcome ≡ (failed_steps == 0))
execute-failures_example = execute-failures executor testcase begin refl

execute-Stops_example :
    Stops
      ((0, "wait_for") ∷ (1, "return_pda_home") ∷ (2, "wait_for") ∷ [])
      []
      (execute executor testcase begin).1.notices
execute-Stops_example = execute-Stops executor testcase begin

execute_errors_example :
    All
      (λ e.
        IsReport keywords "spa" "steps" 0 testcase.steps e
        ⊎ IsReport keywords "spa" "finally" 0 testcase.finally_steps e)
      (outcome_errors (execute executor testcase begin).0)
execute_errors_example = execute_errors executor testcase begin

-- A restoration that always restores.
abbrev runner : Runner World
runner = record {
  keywords = λ id. keywords;
  clock = tick;
  pending = λ w. w.pending;
  restore = λ w. (ok [], record w { pending = false });
  initialized = λ w. true;
  restoration_status = λ w. "passed";
}

abbrev scenario : Scenario World
scenario = record {
  world = begin.world;
  report = record {
    executions = [];
    cases = [];
    error = none;
    safe_to_continue = false;
    outcome = record { status = passed; reason = scenario_completed };
    testcase = none;
  };
  timeline = [];
  notices = [];
}

-- Passes.
abbrev short : TestcaseDefinition
short = record {
  schema = 1;
  mode = physical_panel;
  access = read_only;
  requirements = record { protocol = pda };
  fixture = none;
  identifier = "ready";
  description = "Ready";
  steps = waits ∷ [];
  finally_steps = [];
}

ends :
    (run_testcase runner short scenario).0
    ≡ returned (record { status = passed; reason = scenario_completed })
unfolding run_testcase execute run_steps run_finally execute_step settle dispatch
    unsupported_keywords
ends = refl

run_testcase-Clean_example : (run_testcase runner short scenario).1.world.pending ≡ false
run_testcase-Clean_example =
    run_testcase-Clean runner (λ w h. refl) short scenario
      (record { status = passed; reason = scenario_completed }) ends (inl refl)

run-Sequence_example :
    let (end, after) = run runner (short ∷ testcase ∷ short ∷ []) scenario in
    Sequence (short ∷ testcase ∷ short ∷ []) [] after.report.cases end
run-Sequence_example = run-Sequence runner (short ∷ testcase ∷ short ∷ []) scenario
