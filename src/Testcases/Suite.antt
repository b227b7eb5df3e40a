-- ===== src/Testcases/Suite.antt =====
-- Suites of testcases, in aqualinkd_validator/testcases/model.py.
use aqualinkd_validator.Prelude.{
  ℕ, String, Bool, true, false, List, [], ◌∷◌, any, insert, ◌≡◌, refl, Bool-cases, inl, inr, arith,
}
use aqualinkd_validator.Testcases.Model.{
  TestcaseMode, TestcaseAccess, read_only, read_write, TestcaseRequirements,
}
use aqualinkd_validator.Testcases.Model.Steps.{
  TestcaseStep, exercise_discovered_devices, exercise_status_retry, exercise_probe_transition,
  TestcaseDefinition,
}

pub data ExecutionRole : Type 0 where
  single awake sleep : ExecutionRole

pub record TestcaseSuiteConfig : Type 0 where
  pub aqualinkd_args : List String
  pub overrides : List (String × String)
  pub execution_role : ExecutionRole

-- `dict(pairs)`: a later pair replaces the value of an earlier one with its key.
dict_from : List (String × String) → List (String × String) → List (String × String)
dict_from [] items = items
dict_from ((key, value) ∷ pairs) items = dict_from pairs (insert key value items)

pub override_map : TestcaseSuiteConfig → List (String × String)
override_map config = dict_from config.overrides []

pub record TestcaseSuiteMember : Type 0 where
  pub source : String
  pub testcase : TestcaseDefinition

pub record TestcaseSuiteDefinition : Type 0 where
  pub schema : ℕ
  pub identifier : String
  pub description : String
  pub mode : TestcaseMode
  pub access : TestcaseAccess
  pub requirements : TestcaseRequirements
  pub config : TestcaseSuiteConfig
  pub members : List TestcaseSuiteMember

abbrev is_read_write : TestcaseAccess → Bool
is_read_write read_only = false
is_read_write read_write = true

pub mutates_panel : TestcaseSuiteDefinition → Bool
mutates_panel suite = any (λ member. is_read_write member.testcase.access) suite.members

abbrev is_discovered_exercise : TestcaseStep → Bool
is_discovered_exercise (exercise_discovered_devices step) = true
is_discovered_exercise _ = false

pub exercises_discovered_devices : TestcaseSuiteDefinition → Bool
exercises_discovered_devices suite =
    any (λ member. any is_discovered_exercise member.testcase.steps) suite.members

abbrev is_selected_device_step : TestcaseStep → Bool
is_selected_device_step (exercise_discovered_devices step) = true
is_selected_device_step (exercise_status_retry step) = true
is_selected_device_step (exercise_probe_transition step) = true
is_selected_device_step _ = false

pub uses_selected_devices : TestcaseSuiteDefinition → Bool
uses_selected_devices suite =
    any (λ member. any is_selected_device_step member.testcase.steps) suite.members

any_mono :
    {A : Type 0} (p q : A → Bool) (xs : List A)
    → ((x : A) → p x ≡ true → q x ≡ true)
    → any p xs ≡ true
    → any q xs ≡ true
any_mono p q [] f h = h
any_mono p q (x ∷ xs) f h = elim (Bool-cases (p x)) [
  | inl e ↦ rw (f x e) refl
  | inr e ↦ ground (arith, any_mono p q xs f (rw e at h))
]

is_discovered_exercise-selected :
    (step : TestcaseStep) → is_discovered_exercise step ≡ true → is_selected_device_step step ≡ true
is_discovered_exercise-selected (exercise_discovered_devices step) h = refl
is_discovered_exercise-selected _ h = absurd (cc h)

-- A suite that exercises the discovered devices uses the selected devices.
pub exercises-uses_selected_devices :
    (suite : TestcaseSuiteDefinition)
    → exercises_discovered_devices suite ≡ true
    → uses_selected_devices suite ≡ true
unfolding exercises_discovered_devices uses_selected_devices
exercises-uses_selected_devices suite h =
    any_mono (λ member. any is_discovered_exercise member.testcase.steps)
      (λ member. any is_selected_device_step member.testcase.steps) suite.members
      (λ member.
        any_mono is_discovered_exercise is_selected_device_step member.testcase.steps
          is_discovered_exercise-selected)
      h
