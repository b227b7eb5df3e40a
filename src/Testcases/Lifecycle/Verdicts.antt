-- ===== src/Testcases/Lifecycle/Verdicts.antt =====
-- What a verdict on a testcase says of the panel.
use aqualinkd_validator.Prelude.{
  String, ◌≡◌, refl, ap, ◌∙◌, ◌⊎◌, inl, inr, Bool, true, false, not, ◌&&◌, List, [], ◌∷◌, ◌++◌,
  if◌then◌else◌, Bool-cases,
}
use aqualinkd_validator.Testcases.Model.Steps.{TestcaseDefinition}
use aqualinkd_validator.Testcases.Keywords.{Result, ok, err}
use aqualinkd_validator.Testcases.Executor.{Outcome, execute}
use aqualinkd_validator.Testcases.Lifecycle.{
  passed, failed, ScenarioOutcome, Report, Scenario, Runner, returned, cancelled_end,
  final_restoration, conclude_case, run_testcase, executor, is_cancelled, restoration_failed,
  executions_of, scenario_started,
}

-- A restoration that reports no error leaves nothing pending.
abbrev pub Restores : {S : Type 0} → Runner S → Type 0
Restores x = (w : _) → (x.restore w).0 ≡ ok [] → x.pending (x.restore w).1 ≡ false

-- The testcase passed, or the report allows to go on.
abbrev pub Good : ScenarioOutcome → Report → Type 0
Good o report = (o.status ≡ passed) ⊎ (report.safe_to_continue ≡ true)

status_of : {a b : ScenarioOutcome} → returned a ≡ returned b → a.status ≡ b.status
status_of h = cc

-- A failed restoration is neither a pass nor safe.
refused :
    (stopped ready : Bool) (o : ScenarioOutcome)
    → (if stopped
        then cancelled_end
        else returned (record { status = failed; reason = restoration_failed }))
      ≡ returned o
    → (o.status ≡ passed) ⊎ ((ready && not stopped && false) ≡ true)
    → ⊥
refused true ready o h g = cc h
refused false ready o h (inl e) =
    let same : failed ≡ o.status = status_of h in absurd (cc (same, e))
refused false true o h (inr e) = cc e
refused false false o h (inr e) = cc e

module _ {S : Type 0} (x : Runner S) where
  final_restoration-Clean :
      Restores x
      → (w : S) → (final_restoration x w).0 ≡ ok []
      → x.pending (final_restoration x w).1 ≡ false
  unfolding final_restoration
  final_restoration-Clean law w h = elim (Bool-cases (x.pending w)) [
    | inl e ↦ rw e (law w (rw e at h))
    | inr e ↦ rw e e
  ]

  conclude_case-Good :
      (testcase : TestcaseDefinition) (execution : Outcome) (r : Result (List String))
      (s : Scenario S) (o : ScenarioOutcome)
      → (conclude_case x testcase execution r s).0 ≡ returned o
      → Good o (conclude_case x testcase execution r s).1.report
      → (r ≡ ok []) × ((conclude_case x testcase execution r s).1.world ≡ s.world)
  unfolding conclude_case
  conclude_case-Good testcase execution (err e) s o h g = absurd (cc h)
  conclude_case-Good testcase execution (ok []) s o h g = (refl, refl)
  conclude_case-Good testcase execution (ok (e ∷ es)) s o h g =
      absurd (refused (is_cancelled execution) (x.initialized s.world) o h g)

-- If a testcase ends with an outcome, and it passed or the report allows to go on, then no
-- mutation of the panel is left pending, over a restoration that leaves none when it reports no
-- error.
pub run_testcase-Clean :
    {S : Type 0} (x : Runner S)
    → Restores x
    → (testcase : TestcaseDefinition) (s : Scenario S) (o : ScenarioOutcome)
    → (run_testcase x testcase s).0 ≡ returned o
    → Good o (run_testcase x testcase s).1.report
    → x.pending (run_testcase x testcase s).1.world ≡ false
unfolding run_testcase
run_testcase-Clean x law testcase s o h g =
    let (execution, run) =
      execute (executor x testcase.identifier) testcase
        (record { world = s.world; notices = s.notices }) in
    let restored = final_restoration x run.world in
    let before : Scenario _ = record s {
      world = restored.1;
      report = record s.report { executions = s.report.executions ++ executions_of execution };
      timeline = s.timeline ++ scenario_started testcase.identifier ∷ [];
      notices = run.notices;
    } in
    let (clean, same) = conclude_case-Good x testcase execution restored.0 before o h g in
    ap x.pending same ∙ final_restoration-Clean x law run.world clean
