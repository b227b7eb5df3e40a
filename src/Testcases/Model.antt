-- ===== src/Testcases/Model.antt =====
-- Step classes of aqualinkd_validator/testcases/model.py. A float of seconds is a whole number of
-- nanoseconds, and a float among the JSON scalars is left out.
pub mod Steps
use aqualinkd_validator.Prelude.{ℕ, String, Bool, Option, List, Bytes}
use aqualinkd_validator.Equipment.{ℤ}

abbrev pub Seconds : Type 0
Seconds = ℕ

pub data HttpMethod : Type 0 where
  get put : HttpMethod

pub data JsonScalar : Type 0 where
  null : JsonScalar
  text : String → JsonScalar
  int : ℤ → JsonScalar
  bool : Bool → JsonScalar

pub data DeviceTargetState : Type 0 where
  on off original opposite_of_original requested : DeviceTargetState

pub data SetpointTarget : Type 0 where
  value : ℤ → SetpointTarget
  original_value : SetpointTarget

pub data PowerCenterMode : Type 0 where
  auto service timeout : PowerCenterMode

pub data PowerCenterTemperatureSensor : Type 0 where
  air water solar : PowerCenterTemperatureSensor

pub data TestcaseMode : Type 0 where
  physical_panel rs485_panel_emulator : TestcaseMode

pub data TestcaseAccess : Type 0 where
  read_only read_write : TestcaseAccess

pub data TestcaseProtocol : Type 0 where
  pda rs485 : TestcaseProtocol

pub data PanelDriver : Type 0 where
  raw allbutton : PanelDriver

pub record TestcaseRequirements : Type 0 where
  pub protocol : TestcaseProtocol

pub record PanelFixtureDefinition : Type 0 where
  pub panel_type : String
  pub device_id : String
  pub rssa_device_id : Option String
  pub extended_device_id : Option String
  pub overrides : List (String × String)
  pub driver : PanelDriver

pub record WaitForStep : Type 0 where
  pub condition : String
  pub timeout_seconds : Seconds

pub record ReturnPdaHomeStep : Type 0 where
  pub timeout_seconds : Seconds

pub record SetPowerCenterModeStep : Type 0 where
  pub mode : PowerCenterMode
  pub timeout_seconds : Seconds

pub record SetPowerCenterTemperatureStep : Type 0 where
  pub sensor : PowerCenterTemperatureSensor
  pub value : ℤ
  pub timeout_seconds : Seconds

pub record SerialSendStep : Type 0 where
  pub payload : Bytes
  pub timeout_seconds : Seconds

pub record ExpectSerialStep : Type 0 where
  pub payload : Bytes
  pub timeout_seconds : Seconds

pub record HttpRequestStep : Type 0 where
  pub method : HttpMethod
  pub path : String
  pub value : Option String
  pub timeout_seconds : Seconds

pub record WaitHttpJsonStep : Type 0 where
  pub path : String
  pub pointer : String
  pub expected : JsonScalar
  pub timeout_seconds : Seconds
  pub poll_seconds : Seconds
  pub request_timeout_seconds : Seconds

pub record ExpectPanelCommandStep : Type 0 where
  pub command : ℕ
  pub timeout_seconds : Seconds

pub record SetDeviceStep : Type 0 where
  pub identifier : String
  pub state : DeviceTargetState
  pub activation_timeout_seconds : Seconds
  pub completion_timeout_seconds : Seconds
  pub convergence_timeout_seconds : Seconds

pub record SetSetpointStep : Type 0 where
  pub identifier : String
  pub value : SetpointTarget
  pub activation_timeout_seconds : Seconds
  pub completion_timeout_seconds : Seconds
  pub convergence_timeout_seconds : Seconds

pub record ExerciseHeaterStep : Type 0 where
  pub identifier : String
  pub optional : Bool
  pub activation_timeout_seconds : Seconds
  pub completion_timeout_seconds : Seconds
  pub convergence_timeout_seconds : Seconds

pub record ExerciseSpaHeatingStep : Type 0 where
  pub timeout_seconds : Seconds

pub record AssertDeviceStep : Type 0 where
  pub identifier : String
  pub state : DeviceTargetState
  pub timeout_seconds : Seconds

pub record AssertDeviceValueStep : Type 0 where
  pub identifier : String
  pub value : ℤ
  pub timeout_seconds : Seconds

pub record AssertLogStep : Type 0 where
  pub contains : String
  pub timeout_seconds : Seconds

pub record AssertNoLogStep : Type 0 where
  pub contains : Option String
  pub level : Option String
  pub duration_seconds : Seconds

pub record WaitForStableEquipmentStep : Type 0 where
  pub identifiers : List String
  pub timeout_seconds : Seconds

pub record RestoreOriginalStateStep : Type 0 where
  pub timeout_seconds : Seconds

pub record VerifyEquipmentStatusStep : Type 0 where
  pub timeout_seconds : Seconds

pub record ExerciseDiscoveredDevicesStep : Type 0 where
  pub timeout_seconds : Seconds

pub record ObserveSleepCycleStep : Type 0 where
  pub timeout_seconds : Seconds

pub record ExerciseStatusRetryStep : Type 0 where
  pub timeout_seconds : Seconds

pub record ExerciseProbeTransitionStep : Type 0 where
  pub timeout_seconds : Seconds
