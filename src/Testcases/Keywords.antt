-- ===== src/Testcases/Keywords.antt =====
-- The keyword interface of aqualinkd_validator/testcases/executor.py and its dispatch.
use aqualinkd_validator.Prelude.{ℕ, String}
use aqualinkd_validator.Testcases.Model.{
  WaitForStep, ReturnPdaHomeStep, SetPowerCenterModeStep, SetPowerCenterTemperatureStep,
  SerialSendStep, ExpectSerialStep, HttpRequestStep, WaitHttpJsonStep, ExpectPanelCommandStep,
  SetDeviceStep, SetSetpointStep, ExerciseHeaterStep, ExerciseSpaHeatingStep, AssertDeviceStep,
  AssertDeviceValueStep, AssertLogStep, AssertNoLogStep, WaitForStableEquipmentStep,
  RestoreOriginalStateStep, VerifyEquipmentStatusStep, ExerciseDiscoveredDevicesStep,
  ObserveSleepCycleStep, ExerciseStatusRetryStep, ExerciseProbeTransitionStep,
}
use aqualinkd_validator.Testcases.Model.Steps.{
  TestcaseStep, wait_for, return_pda_home, set_power_center_mode, set_power_center_temperature,
  serial_send, expect_serial, http_request, wait_http_json, expect_panel_command, set_device,
  set_setpoint, exercise_heater, exercise_spa_heating, assert_device, assert_device_value,
  assert_log, assert_no_log, wait_for_stable_equipment, restore_original_state,
  verify_equipment_status, exercise_discovered_devices, observe_sleep_cycle, exercise_status_retry,
  exercise_probe_transition,
}

-- What a keyword raises: the three exceptions that end a run, or another one with the name of
-- its class and its text. `step_failure` is `TestcaseExecutionFailure`, with the parts of its
-- message and the error that it is raised from.
pub data Error : Type 0 where
  cancelled keyboard_interrupt system_exit : Error
  other : String → String → Error
  step_failure : String → String → ℕ → String → Error → Error

pub data Result {ℓ} (A : Type ℓ) : Type ℓ where
  ok : A → Result A
  err : Error → Result A

-- A keyword runs in the state `S` of its runtime.
abbrev pub Action : Type 0 → Type 0 → Type 0
Action S A = S → Result A × S

-- `TestcaseKeywords`.
pub record TestcaseKeywords (S : Type 0) : Type 0 where
  pub on_wait_for : WaitForStep → Action S (Unit {0})
  pub on_return_pda_home : ReturnPdaHomeStep → Action S (Unit {0})
  pub on_set_power_center_mode : SetPowerCenterModeStep → Action S (Unit {0})
  pub on_set_power_center_temperature : SetPowerCenterTemperatureStep → Action S (Unit {0})
  pub on_serial_send : SerialSendStep → Action S (Unit {0})
  pub on_expect_serial : ExpectSerialStep → Action S (Unit {0})
  pub on_http_request : HttpRequestStep → Action S (Unit {0})
  pub on_wait_http_json : WaitHttpJsonStep → Action S (Unit {0})
  pub on_expect_panel_command : ExpectPanelCommandStep → Action S (Unit {0})
  pub on_set_device : SetDeviceStep → Action S (Unit {0})
  pub on_set_setpoint : SetSetpointStep → Action S (Unit {0})
  pub on_exercise_heater : ExerciseHeaterStep → Action S (Unit {0})
  pub on_exercise_spa_heating : ExerciseSpaHeatingStep → Action S (Unit {0})
  pub on_assert_device : AssertDeviceStep → Action S (Unit {0})
  pub on_assert_device_value : AssertDeviceValueStep → Action S (Unit {0})
  pub on_assert_log : AssertLogStep → Action S (Unit {0})
  pub on_assert_no_log : AssertNoLogStep → Action S (Unit {0})
  pub on_wait_for_stable_equipment : WaitForStableEquipmentStep → Action S (Unit {0})
  pub on_restore_original_state : RestoreOriginalStateStep → Action S (Unit {0})
  pub on_verify_equipment_status : VerifyEquipmentStatusStep → Action S (Unit {0})
  pub on_exercise_discovered_devices : ExerciseDiscoveredDevicesStep → Action S (Unit {0})
  pub on_observe_sleep_cycle : ObserveSleepCycleStep → Action S (Unit {0})
  pub on_exercise_status_retry : ExerciseStatusRetryStep → Action S (Unit {0})
  pub on_exercise_probe_transition : ExerciseProbeTransitionStep → Action S (Unit {0})

-- `_unsupported`.
pub unsupported : {S : Type 0} → String → Action S (Unit {0})
unsupported name s = (err (other "TestcaseExecutionFailure" name), s)

-- `UnsupportedTestcaseKeywords`.
unfoldable pub unsupported_keywords : (S : Type 0) → TestcaseKeywords S
unsupported_keywords S = record {
  on_wait_for = λ step. unsupported "wait_for";
  on_return_pda_home = λ step. unsupported "return_pda_home";
  on_set_power_center_mode = λ step. unsupported "set_power_center_mode";
  on_set_power_center_temperature = λ step. unsupported "set_power_center_temperature";
  on_serial_send = λ step. unsupported "serial_send";
  on_expect_serial = λ step. unsupported "expect_serial";
  on_http_request = λ step. unsupported "http_request";
  on_wait_http_json = λ step. unsupported "wait_http_json";
  on_expect_panel_command = λ step. unsupported "expect_panel_command";
  on_set_device = λ step. unsupported "set_device";
  on_set_setpoint = λ step. unsupported "set_setpoint";
  on_exercise_heater = λ step. unsupported "exercise_heater";
  on_exercise_spa_heating = λ step. unsupported "exercise_spa_heating";
  on_assert_device = λ step. unsupported "assert_device";
  on_assert_device_value = λ step. unsupported "assert_device_value";
  on_assert_log = λ step. unsupported "assert_log";
  on_assert_no_log = λ step. unsupported "assert_no_log";
  on_wait_for_stable_equipment = λ step. unsupported "wait_for_stable_equipment";
  on_restore_original_state = λ step. unsupported "restore_original_state";
  on_verify_equipment_status = λ step. unsupported "verify_equipment_status";
  on_exercise_discovered_devices = λ step. unsupported "exercise_discovered_devices";
  on_observe_sleep_cycle = λ step. unsupported "observe_sleep_cycle";
  on_exercise_status_retry = λ step. unsupported "exercise_status_retry";
  on_exercise_probe_transition = λ step. unsupported "exercise_probe_transition";
}

-- `_dispatch`.
unfoldable pub dispatch : {S : Type 0} → TestcaseKeywords S → TestcaseStep → Action S (Unit {0})
dispatch keywords (wait_for step) = keywords.on_wait_for step
dispatch keywords (return_pda_home step) = keywords.on_return_pda_home step
dispatch keywords (set_power_center_mode step) = keywords.on_set_power_center_mode step
dispatch keywords (set_power_center_temperature step) =
    keywords.on_set_power_center_temperature step
dispatch keywords (serial_send step) = keywords.on_serial_send step
dispatch keywords (expect_serial step) = keywords.on_expect_serial step
dispatch keywords (http_request step) = keywords.on_http_request step
dispatch keywords (wait_http_json step) = keywords.on_wait_http_json step
dispatch keywords (expect_panel_command step) = keywords.on_expect_panel_command step
dispatch keywords (set_device step) = keywords.on_set_device step
dispatch keywords (set_setpoint step) = keywords.on_set_setpoint step
dispatch keywords (exercise_heater step) = keywords.on_exercise_heater step
dispatch keywords (exercise_spa_heating step) = keywords.on_exercise_spa_heating step
dispatch keywords (assert_device step) = keywords.on_assert_device step
dispatch keywords (assert_device_value step) = keywords.on_assert_device_value step
dispatch keywords (assert_log step) = keywords.on_assert_log step
dispatch keywords (assert_no_log step) = keywords.on_assert_no_log step
dispatch keywords (wait_for_stable_equipment step) = keywords.on_wait_for_stable_equipment step
dispatch keywords (restore_original_state step) = keywords.on_restore_original_state step
dispatch keywords (verify_equipment_status step) = keywords.on_verify_equipment_status step
dispatch keywords (exercise_discovered_devices step) = keywords.on_exercise_discovered_devices step
dispatch keywords (observe_sleep_cycle step) = keywords.on_observe_sleep_cycle step
dispatch keywords (exercise_status_retry step) = keywords.on_exercise_status_retry step
dispatch keywords (exercise_probe_transition step) = keywords.on_exercise_probe_transition step
