-- ===== src/Pda/Restoration.antt =====
-- `PdaRestorationService` of aqualinkd_validator/protocols/pda/restoration.py, bound to the
-- equipment actions as `PdaRestorationCoordinator` (protocols/pda/restoration_coordinator.py) and
-- `PdaEquipmentController` (protocols/pda/equipment_control.py) bind it.
pub mod Sending
pub mod Once
pub mod Retaining
pub mod Pending
use aqualinkd_validator.Prelude.{
  ℕ, ◌==◌, String, Bool, true, false, not, Option, none, some, List, [], ◌∷◌, ◌<>◌, if◌then◌else◌,
  lookup,
}
use aqualinkd_validator.Equipment.{
  ℤ, no_markers, Res, ok, failed, DeviceState, enabled, transitioning, requested_state_label,
  EquipmentSnapshot, require_device,
}
use aqualinkd_validator.Engine.Restoration.Action.{
  RestorationSession, State, Callbacks, M, pure, lift, get, ◌>>=◌, ◌>>◌,
}
use aqualinkd_validator.Engine.Restoration.{
  same_object, capture_initial, requested_state, mark_requested_state, RestorationResult,
}
use aqualinkd_validator.Engine.Restoration.Restore.{restore}
use aqualinkd_validator.Engine.Runtime.{EquipmentRuntime, on_session}
use aqualinkd_validator.Engine.Actions.{
  Timeouts, eq_Bool, set_device, set_setpoint, wait_for_device_state,
}
use aqualinkd_validator.Pda.Programmer.{ProgrammerMarkers}

-- What is told on the console while a device is restored.
pub data Progress : Type 0 where
  transition_pending : String → ℕ → Progress
  request_already_sent : String → ℕ → Progress
  completed_transition : (id label : String) → Progress

pub record PdaRestorationService (W : Type 0) : Type 0 where
  pub devices : M W EquipmentSnapshot
  pub timeout_seconds : ℕ
  pub set_device : String → Bool → String → ℕ → M W (Unit {0})
  pub set_setpoint : String → ℤ → M W (Unit {0})
  pub wait_for_stable : List String → String → ℕ → EquipmentSnapshot → M W EquipmentSnapshot
  pub wait_for_device_state : String → Bool → ℕ → M W (Unit {0})
  pub progress : Progress → M W (Unit {0})

-- `requested == expected`
abbrev pub is_requested : Bool → Option Bool → Bool
is_requested expected none = false
is_requested expected (some on) = eq_Bool on expected

module _ {W : Type 0} (service : PdaRestorationService W) where
  -- The end of `_restore_device`: a command, or a wait for one that was sent before.
  unfoldable pub command_device : String → Bool → DeviceState → Option Bool → M W (Unit {0})
  command_device id expected device requested =
      if is_requested expected requested
      then (do
        service.progress (request_already_sent id service.timeout_seconds)
        service.wait_for_device_state id expected service.timeout_seconds
        service.progress (completed_transition id (requested_state_label device expected)))
      else (do
        on_session (λ session. ok (mark_requested_state id expected session))
        service.set_device id expected "restoration.device" service.timeout_seconds)

  unfoldable pub finish_device : String → Bool → DeviceState → Option Bool → M W (Unit {0})
  finish_device id expected device requested = do
    now ← lift (enabled device)
    if eq_Bool now expected then pure tt else command_device id expected device requested

  -- A transition is waited out before the device is looked at again.
  unfoldable pub await_transition :
      String → Bool → DeviceState → EquipmentSnapshot → M W DeviceState
  await_transition id expected device snapshot = do
    service.progress (transition_pending id service.timeout_seconds)
    stable ←
        service.wait_for_stable (id ∷ []) ("restoration." <> id <> ".pending_transition")
          service.timeout_seconds snapshot
    lift (require_device stable id)

  unfoldable pub after_transition :
      String → Bool → DeviceState → DeviceState → Option Bool → M W (Unit {0})
  after_transition id expected before device requested = do
    now ← lift (enabled device)
    if eq_Bool now expected
        then service.progress (completed_transition id (requested_state_label before expected))
        else finish_device id expected device requested

  unfoldable pub restore_device : String → Bool → M W (Unit {0})
  restore_device id expected = do
    snapshot ← service.devices
    device ← lift (require_device snapshot id)
    now ← get
    moving ← lift (transitioning device)
    if moving
        then (do
          settled ← await_transition id expected device snapshot
          after_transition id expected device settled (requested_state id now.session))
        else finish_device id expected device (requested_state id now.session)

  abbrev pub callbacks : Callbacks W
  callbacks = record {
    read_snapshot = service.devices;
    restore_setpoint = service.set_setpoint;
    restore_device = restore_device;
  }

  unfoldable pub restore_service : EquipmentSnapshot → M W RestorationResult
  restore_service initial = do
    now ← get
    if same_object initial now.session.initial_snapshot
        then pure tt
        else on_session (capture_initial initial)
    restore callbacks

pub record PdaRestorationCoordinatorConfig : Type 0 where
  pub timeout_seconds : ℕ
  pub device_markers : ProgrammerMarkers
  pub setpoint_markers : List (String × ProgrammerMarkers)

-- An action whose convergence alone has a timeout of its own, or none.
abbrev pub converging : Option ℕ → Timeouts
converging n = record { activation = none; completion = none; convergence = n }

module _ {W : Type 0} (rt : EquipmentRuntime W) (progress : Progress → M W (Unit {0})) (fuel : ℕ)
    (config : PdaRestorationCoordinatorConfig) where
  unfoldable pub restore_setpoint_by : Option ProgrammerMarkers → String → ℤ → M W (Unit {0})
  restore_setpoint_by none id n = lift (failed (no_markers id))
  restore_setpoint_by (some markers) id n =
      set_setpoint rt fuel id n "restoration.setpoint" "restoration" markers (converging none)

  unfoldable pub pda_service : PdaRestorationService W
  pda_service = record {
    devices = rt.devices;
    timeout_seconds = config.timeout_seconds;
    set_device = λ id on phase timeout.
        set_device rt fuel id on phase config.device_markers (converging (some timeout));
    set_setpoint = λ id n. restore_setpoint_by (lookup id config.setpoint_markers) id n;
    wait_for_stable = λ ids phase timeout initial. rt.wait_for_stable ids phase initial timeout;
    wait_for_device_state =
        λ id on timeout. (wait_for_device_state rt fuel id on timeout >>= λ _. pure tt);
    progress = progress;
  }

  unfoldable pub coordinator_restore : EquipmentSnapshot → M W RestorationResult
  coordinator_restore initial = restore_service pda_service initial
