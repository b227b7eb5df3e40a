-- ===== src/Testcases/Executor/Notices.antt =====
-- What the observer of a run has seen, step by step.
use aqualinkd_validator.Prelude.{
  ℕ, String, ◌≡◌, refl, sym, Bool, true, false, List, [], ◌∷◌, ◌++◌, append_assoc, append-nil,
  if◌then◌else◌,
}
use aqualinkd_validator.Testcases.Model.Steps.{TestcaseStep, keyword}
use aqualinkd_validator.Testcases.Keywords.{Result, ok, err}
use aqualinkd_validator.Testcases.Executor.{
  Section, steps, finally, StepState, running, passed, failed, StepProgress, Notice, progress,
  observed, Run, Executor, execute_step, conclude,
}

-- The events of one kind that the observer got, in order.
pub collect {ℓ} : {B : Type ℓ} → (StepProgress → List B) → List Notice → List B
collect pick [] = []
collect pick (progress event ∷ notices) = collect pick notices
collect pick (observed event ∷ notices) = pick event ++ collect pick notices

pub collect-append {ℓ} :
    {B : Type ℓ} (pick : StepProgress → List B) (ns ms : List Notice)
    → collect pick (ns ++ ms) ≡ collect pick ns ++ collect pick ms
unfolding collect
collect-append pick [] ms = refl
collect-append pick (progress event ∷ ns) ms = collect-append pick ns ms
collect-append pick (observed event ∷ ns) ms =
    rw (collect-append pick ns ms)
      (sym (append_assoc (pick event) (collect pick ns) (collect pick ms)))

abbrev pub same_section : Section → Section → Bool
same_section steps steps = true
same_section finally finally = true
same_section _ _ = false

-- The steps of a section that were started: index and keyword.
abbrev pub pick_started : Section → StepProgress → List (ℕ × String)
pick_started section event = elim event.state [
  | running ↦
      if same_section event.section section then (event.index, event.keyword_name) ∷ [] else []
  | _ ↦ []
]

-- The states in which the steps of a section ended.
abbrev pub pick_ended : Section → StepProgress → List StepState
pick_ended section event = elim event.state [
  | running ↦ []
  | ended ↦ if same_section event.section section then ended ∷ [] else []
]

pub started : Section → List Notice → List (ℕ × String)
started section = collect (pick_started section)

pub ended : Section → List Notice → List StepState
ended section = collect (pick_ended section)

pub ended-nil : (section : Section) → ended section [] ≡ []
unfolding ended collect
ended-nil section = refl

abbrev pub verdict {ℓ} : {A : Type ℓ} → Result A → StepState
verdict (ok a) = passed
verdict (err e) = failed

module _ {S : Type 0} (x : Executor S) (section : Section) (event : StepProgress) (since : ℕ) where
  started-conclude :
      (result : Result (Unit {0})) (run : Run S)
      → started section (conclude x event since result run).1.notices ≡ started section run.notices
  unfolding started collect
  started-conclude (ok r) run = simp (collect-append, append-nil)
  started-conclude (err e) run = simp (collect-append, append-nil)

  ended-conclude :
      (result : Result (Unit {0})) (run : Run S)
      → ended section (conclude x event since result run).1.notices
        ≡ ended section run.notices
          ++ (if same_section event.section section
              then verdict (conclude x event since result run).0 ∷ []
              else [])
  unfolding ended collect
  ended-conclude (ok r) run = simp (collect-append, append-nil)
  ended-conclude (err e) run = simp (collect-append, append-nil)

module _ {S : Type 0} (x : Executor S) (testcase_id : String) (index : ℕ) (step : TestcaseStep)
    (run : Run S) where
  pub started-execute_step :
      (section own : Section)
      → started section (execute_step x testcase_id own index step run).1.notices
        ≡ started section run.notices
          ++ (if same_section own section then (index, keyword step) ∷ [] else [])
  unfolding execute_step
  started-execute_step section own =
      rw started-conclude (unfold started collect in simp (collect-append, append-nil))

  pub ended-execute_step :
      (section own : Section)
      → ended section (execute_step x testcase_id own index step run).1.notices
        ≡ ended section run.notices
          ++ (if same_section own section
              then verdict (execute_step x testcase_id own index step run).0 ∷ []
              else [])
  unfolding execute_step
  ended-execute_step section own =
      rw ended-conclude (unfold ended collect in simp (collect-append, append-nil))
