-- ===== src/Testcases/Lifecycle/Sequence.antt =====
-- The testcases of a scenario in their order.
use aqualinkd_validator.Prelude.{
  String, ◌≡◌, refl, sym, ap, ◌∙◌, ◌⊎◌, inl, inr, Bool, true, false, List, [], ◌∷◌, ◌++◌,
  append_assoc, append-nil,
}
use aqualinkd_validator.Testcases.Model.Steps.{TestcaseDefinition}
use aqualinkd_validator.Testcases.Keywords.{Result, ok, err, cancelled}
use aqualinkd_validator.Testcases.Executor.{Outcome, execute, finished, raised, single}
use aqualinkd_validator.Testcases.Lifecycle.{
  Status, passed, failed, ScenarioOutcome, Case, Scenario, Runner, End, returned, cancelled_end,
  escaped, final_restoration, conclude_case, run_testcase, run_testcases, run, executor, is_pass,
  proceed, scenario_completed, executions_of, scenario_started,
}

-- The cases of a report, with their statuses.
abbrev pub summary : List Case → List (String × Status)
summary [] = []
summary (c ∷ cases) = (c.id, c.status) ∷ summary cases

abbrev pub all_passed : List TestcaseDefinition → List (String × Status)
all_passed [] = []
all_passed (t ∷ todo) = (t.identifier, passed) ∷ all_passed todo

-- The case that a testcase leaves, by its end.
abbrev pub last_case : End → String → List (String × Status)
last_case (returned outcome) id = (id, outcome.status) ∷ []
last_case cancelled_end id = (id, failed) ∷ []
last_case (escaped e) id = []

abbrev pub passes : End → Bool
passes (returned outcome) = is_pass outcome.status
passes cancelled_end = false
passes (escaped e) = false

-- All the testcases passed, or those before one that did not, which was the last.
abbrev pub Sequence : List TestcaseDefinition → List Case → List Case → End → Type 0
Sequence todo before after end =
    ((summary after ≡ summary before ++ all_passed todo) × (passes end ≡ true))
    ⊎ ((done : List TestcaseDefinition) × (t : TestcaseDefinition) × (rest : List
          TestcaseDefinition)
        × (todo ≡ done ++ t ∷ rest)
        × (summary after ≡ summary before ++ (all_passed done ++ last_case end t.identifier))
        × (passes end ≡ false))

summary-append : (xs ys : List Case) → summary (xs ++ ys) ≡ summary xs ++ summary ys
summary-append [] ys = refl
summary-append (c ∷ xs) ys = ap (λ zs. (c.id, c.status) ∷ zs) (summary-append xs ys)

proceed_stop :
    {S : Type 0} (s : Scenario S) (later : ScenarioOutcome → End × Scenario S) (end : End)
    → passes end ≡ false
    → proceed s later end ≡ (end, s)
proceed_stop s later cancelled_end h = refl
proceed_stop s later (escaped e) h = refl
proceed_stop s later (returned o) h = rw h refl

proceed_pass :
    {S : Type 0} (s : Scenario S) (later : ScenarioOutcome → End × Scenario S) (end : End)
    (o : ScenarioOutcome)
    → end ≡ returned o
    → o.status ≡ passed
    → proceed s later end ≡ later o
proceed_pass s later end o e h = rw (e, h) refl

Status-cases : (s : Status) → (s ≡ passed) ⊎ (s ≡ failed)
Status-cases passed = inl refl
Status-cases failed = inr refl

module _ {S : Type 0} (x : Runner S) where
  conclude_case-summary :
      (t : TestcaseDefinition) (execution : Outcome) (r : Result (List String)) (s : Scenario S)
      → let (end, after) = conclude_case x t execution r s in
        summary after.report.cases ≡ summary s.report.cases ++ last_case end t.identifier
  unfolding conclude_case
  conclude_case-summary t execution (err e) s = sym (append-nil _)
  conclude_case-summary t (finished _) (ok []) s = summary-append s.report.cases _
  conclude_case-summary t (finished _) (ok (e ∷ es)) s = summary-append s.report.cases _
  conclude_case-summary t (raised (single cancelled)) (ok []) s = summary-append s.report.cases _
  conclude_case-summary t (raised (single cancelled)) (ok (e ∷ es)) s =
      summary-append s.report.cases _
  conclude_case-summary t (raised r) (ok []) s = summary-append s.report.cases _
  conclude_case-summary t (raised r) (ok (e ∷ es)) s = summary-append s.report.cases _

  run_testcase-summary :
      (t : TestcaseDefinition) (s : Scenario S)
      → summary (run_testcase x t s).1.report.cases
        ≡ summary s.report.cases ++ last_case (run_testcase x t s).0 t.identifier
  unfolding run_testcase
  run_testcase-summary t s =
      let (execution, run) =
        execute (executor x t.identifier) t (record { world = s.world; notices = s.notices }) in
      let restored = final_restoration x run.world in
      conclude_case-summary t execution restored.0 (record s {
        world = restored.1;
        report = record s.report { executions = s.report.executions ++ executions_of execution };
        timeline = s.timeline ++ scenario_started t.identifier ∷ [];
        notices = run.notices;
      })

  -- What a testcase that ended as `end` makes of the rest.
  End-cases :
      (end : End)
      → ((o : ScenarioOutcome) × (end ≡ returned o) × (o.status ≡ passed)) ⊎ (passes end ≡ false)
  End-cases (returned o) = elim (Status-cases o.status) [
    | inl e ↦ inl (o, refl, e)
    | inr e ↦ inr (ap is_pass e)
  ]
  End-cases cancelled_end = inr refl
  End-cases (escaped e) = inr refl

  Sequence-cons :
      (t : TestcaseDefinition) (todo : List TestcaseDefinition) (before middle after : List Case)
      (end : End)
      → summary middle ≡ summary before ++ (t.identifier, passed) ∷ []
      → Sequence todo middle after end
      → Sequence (t ∷ todo) before after end
  Sequence-cons t todo before middle after end first (inl (same, good)) = inl (
    same
        ∙ ap (λ zs. zs ++ all_passed todo) first
        ∙ append_assoc (summary before) ((t.identifier, passed) ∷ []) (all_passed todo),
    good,
  )
  Sequence-cons t todo before middle after end first (inr (done, u, rest, place, same, bad)) =
      let tail = all_passed done ++ last_case end u.identifier in
      inr (
        t ∷ done,
        u,
        rest,
        ap (λ zs. t ∷ zs) place,
        same
            ∙ ap (λ zs. zs ++ tail) first
            ∙ append_assoc (summary before) ((t.identifier, passed) ∷ []) tail,
        bad,
      )

  run_testcases-Sequence :
      (todo : List TestcaseDefinition) (outcome : ScenarioOutcome) (s : Scenario S)
      → outcome.status ≡ passed
      → let (end, after) = run_testcases x todo outcome s in
        Sequence todo s.report.cases after.report.cases end
  unfolding run_testcases
  run_testcases-Sequence [] outcome s good = inl (sym (append-nil _), ap is_pass good)
  run_testcases-Sequence (t ∷ todo) outcome s good =
      let (end, after) = run_testcase x t s in
      let first = run_testcase-summary t s in
      elim (End-cases end) [
        | inl (o, e, ok') ↦
            let case_of : summary after.report.cases
                ≡ summary s.report.cases ++ (t.identifier, passed) ∷ [] =
              first
              ∙ ap (λ z. summary s.report.cases ++ last_case z t.identifier) e
              ∙ ap (λ z. summary s.report.cases ++ (t.identifier, z) ∷ []) ok' in
            let later = run_testcases-Sequence todo o after ok' in
            rw (proceed_pass after (λ o'. run_testcases x todo o' after) end o e ok') (
              Sequence-cons t todo s.report.cases after.report.cases
                (run_testcases x todo o after).1.report.cases (run_testcases x todo o after).0
                case_of later)
        | inr bad ↦
            rw (proceed_stop after (λ o'. run_testcases x todo o' after) end bad)
              (inr ([], t, todo, refl, first, bad))
      ]

-- A scenario runs its testcases in order and ends at the first that does not pass: the new cases of
-- the report are all the testcases, each passed, and the scenario passed; or they are those before
-- one testcase, each passed, and then that one, failed, or without a case if the restoration
-- raised, and the scenario did not pass.
pub run-Sequence :
    {S : Type 0} (x : Runner S) (testcases : List TestcaseDefinition) (s : Scenario S)
    → let (end, after) = run x testcases s in
      Sequence testcases s.report.cases after.report.cases end
unfolding run
run-Sequence x testcases s =
    run_testcases-Sequence x testcases (record { status = passed; reason = scenario_completed }) s
      refl
