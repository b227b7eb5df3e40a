-- ===== src/Testcases/Model/Steps.antt =====
-- The unions and definitions of aqualinkd_validator/testcases/model.py.
use aqualinkd_validator.Prelude.{ℕ, String, Option, List}
use aqualinkd_validator.Testcases.Model.{
  TestcaseMode, TestcaseAccess, TestcaseRequirements, PanelFixtureDefinition, WaitForStep,
  ReturnPdaHomeStep, SetPowerCenterModeStep, SetPowerCenterTemperatureStep, SerialSendStep,
  ExpectSerialStep, HttpRequestStep, WaitHttpJsonStep, ExpectPanelCommandStep, SetDeviceStep,
  SetSetpointStep, ExerciseHeaterStep, ExerciseSpaHeatingStep, AssertDeviceStep,
  AssertDeviceValueStep, AssertLogStep, AssertNoLogStep, WaitForStableEquipmentStep,
  RestoreOriginalStateStep, VerifyEquipmentStatusStep, ExerciseDiscoveredDevicesStep,
  ObserveSleepCycleStep, ExerciseStatusRetryStep, ExerciseProbeTransitionStep,
}

pub data TestcaseStep : Type 0 where
  wait_for : WaitForStep → TestcaseStep
  return_pda_home : ReturnPdaHomeStep → TestcaseStep
  set_power_center_mode : SetPowerCenterModeStep → TestcaseStep
  set_power_center_temperature : SetPowerCenterTemperatureStep → TestcaseStep
  serial_send : SerialSendStep → TestcaseStep
  expect_serial : ExpectSerialStep → TestcaseStep
  http_request : HttpRequestStep → TestcaseStep
  wait_http_json : WaitHttpJsonStep → TestcaseStep
  expect_panel_command : ExpectPanelCommandStep → TestcaseStep
  set_device : SetDeviceStep → TestcaseStep
  set_setpoint : SetSetpointStep → TestcaseStep
  exercise_heater : ExerciseHeaterStep → TestcaseStep
  exercise_spa_heating : ExerciseSpaHeatingStep → TestcaseStep
  assert_device : AssertDeviceStep → TestcaseStep
  assert_device_value : AssertDeviceValueStep → TestcaseStep
  assert_log : AssertLogStep → TestcaseStep
  assert_no_log : AssertNoLogStep → TestcaseStep
  wait_for_stable_equipment : WaitForStableEquipmentStep → TestcaseStep
  restore_original_state : RestoreOriginalStateStep → TestcaseStep
  verify_equipment_status : VerifyEquipmentStatusStep → TestcaseStep
  exercise_discovered_devices : ExerciseDiscoveredDevicesStep → TestcaseStep
  observe_sleep_cycle : ObserveSleepCycleStep → TestcaseStep
  exercise_status_retry : ExerciseStatusRetryStep → TestcaseStep
  exercise_probe_transition : ExerciseProbeTransitionStep → TestcaseStep

-- The class attribute `keyword`, which no instance overrides.
abbrev pub keyword : TestcaseStep → String
keyword (wait_for step) = "wait_for"
keyword (return_pda_home step) = "return_pda_home"
keyword (set_power_center_mode step) = "set_power_center_mode"
keyword (set_power_center_temperature step) = "set_power_center_temperature"
keyword (serial_send step) = "serial_send"
keyword (expect_serial step) = "expect_serial"
keyword (http_request step) = "http_request"
keyword (wait_http_json step) = "wait_http_json"
keyword (expect_panel_command step) = "expect_panel_command"
keyword (set_device step) = "set_device"
keyword (set_setpoint step) = "set_setpoint"
keyword (exercise_heater step) = "exercise_heater"
keyword (exercise_spa_heating step) = "exercise_spa_heating"
keyword (assert_device step) = "assert_device"
keyword (assert_device_value step) = "assert_device_value"
keyword (assert_log step) = "assert_log"
keyword (assert_no_log step) = "assert_no_log"
keyword (wait_for_stable_equipment step) = "wait_for_stable_equipment"
keyword (restore_original_state step) = "restore_original_state"
keyword (verify_equipment_status step) = "verify_equipment_status"
keyword (exercise_discovered_devices step) = "exercise_discovered_devices"
keyword (observe_sleep_cycle step) = "observe_sleep_cycle"
keyword (exercise_status_retry step) = "exercise_status_retry"
keyword (exercise_probe_transition step) = "exercise_probe_transition"

pub record TestcaseDefinition : Type 0 where
  pub schema : ℕ
  pub identifier : String
  pub description : String
  pub mode : TestcaseMode
  pub access : TestcaseAccess
  pub requirements : TestcaseRequirements
  pub steps : List TestcaseStep
  pub finally_steps : List TestcaseStep
  pub fixture : Option PanelFixtureDefinition
