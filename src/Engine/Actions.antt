-- ===== src/Engine/Actions.antt =====
-- `EquipmentActions` of aqualinkd_validator/engine/equipment_actions.py. A poll loop has as many
-- rounds as it is given fuel.
pub mod Keeps
pub mod Performing
pub mod Commands
pub mod Tracking
pub mod Outcome
pub mod Termination
use aqualinkd_validator.Prelude.{
  ℕ, zero, suc, ◌+◌, String, Bool, true, false, not, ◌&&◌, Option, none, some, [], ◌∷◌, ◌⊎◌, inl,
  inr, ◌<>◌, str_eq, if◌then◌else◌, ltb,
}
use text.Mathlib.Text.{starts_with}
use aqualinkd_validator.Equipment.{
  ℤ, eq_ℤ, Failure, not_converged, out_of_fuel, Res, ok, failed, cancelled, Setpoint, missing,
  invalid, value, DeviceState, enabled, transitioning, setpoint, requested_state_label,
  EquipmentSnapshot, require_device,
}
use aqualinkd_validator.Monitor.{LineEvent}
use aqualinkd_validator.Engine.Restoration.Action.{State, M, pure, lift, ◌>>=◌, ◌>>◌}
use aqualinkd_validator.Engine.Restoration.{touch_device, touch_setpoint, forget_requested_state}
use aqualinkd_validator.Engine.Runtime.{
  Requested, switch_to, setpoint_of, elapsed, scenario_action_started, scenario_http_acknowledged,
  scenario_action_finished, Name, device_name, setpoint_name, Measurement, EquipmentRuntime, ensure,
  on_session,
}
use aqualinkd_validator.Pda.Programmer.{
  ProgrammerMarkers, wait_for_active, wait_for_completion, wait_for_state_or_error,
}

-- `convergence_timeout_seconds if … is not None else …`
abbrev pub or_default : Option ℕ → ℕ → ℕ
or_default none default = default
or_default (some n) default = n

-- The optional timeouts of an action.
pub record Timeouts : Type 0 where
  pub activation : Option ℕ
  pub completion : Option ℕ
  pub convergence : Option ℕ

abbrev pub eq_Bool : Bool → Bool → Bool
eq_Bool a b = if a then b else not b

abbrev pub is_value : ℤ → Setpoint → Bool
is_value n (value m) = eq_ℤ m n
is_value n _ = false

abbrev pub is_setpoint : ℤ → Option ℤ → Bool
is_setpoint n none = false
is_setpoint n (some m) = eq_ℤ m n

-- What `_record_action_measurement` records.
unfoldable pub measurement :
    Name
    → String
    → String
    → String
    → Requested
    → ℕ
    → ℕ
    → LineEvent
    → LineEvent
    → Option ℕ
    → Measurement
measurement name category phase target requested started acknowledged active completed observed =
    let final = or_default observed completed.offset_ns in
    record {
      name = name;
      category = category;
      status = elim observed [ none ↦ "failed" | some n ↦ "passed" ];
      phase = phase;
      target = target;
      requested_value = requested;
      start_offset_ns = started;
      api_ack_offset_ns = acknowledged;
      task_active_offset_ns = active.offset_ns;
      log_completion_offset_ns = completed.offset_ns;
      state_observed_offset_ns = observed;
      completed_offset_ns = final;
      duration = elapsed final started;
      api_ack = elapsed acknowledged started;
      activation = elapsed active.offset_ns started;
      programmer_duration = elapsed completed.offset_ns active.offset_ns;
      state_convergence = elim observed [
        | none ↦ none
        | some n ↦ some (elapsed n completed.offset_ns)
      ];
    }

abbrev pub is_restoration : String → Bool
is_restoration phase = starts_with phase "restoration."

abbrev pub forget : {W : Type 0} → String → String → M W (Unit {0})
forget phase id =
    if is_restoration phase
    then pure tt
    else on_session (λ session. ok (forget_requested_state id session))

module _ {W : Type 0} (rt : EquipmentRuntime W) where
  -- The `while` loop of the waits: `interrupt` is what another task may raise into a sleep.
  unfoldable pub poll : ℕ → M W (Unit {0}) → ℕ → M W Bool → Failure → M W ℕ
  poll zero interrupt deadline check failure = lift (failed out_of_fuel)
  poll (suc fuel) interrupt deadline check failure = do
    now ← rt.time
    if ltb now deadline
        then (do
          seen ← check
          if seen then rt.offset_ns else (do
            rt.sleep rt.poll_seconds
            interrupt
            poll fuel interrupt deadline check failure))
        else lift (failed failure)

  unfoldable pub read_device : String → M W DeviceState
  read_device id = do snapshot ← rt.devices; lift (require_device snapshot id)

  unfoldable pub has_state : String → Bool → M W Bool
  has_state id on = do
    device ← read_device id
    moving ← lift (transitioning device)
    if moving then pure false else (do now ← lift (enabled device); pure (eq_Bool now on))

  unfoldable pub has_value : String → ℤ → M W Bool
  has_value id n = do device ← read_device id; pure (is_value n device.raw_value)

  unfoldable pub has_setpoint : String → ℤ → M W Bool
  has_setpoint id n = do
    device ← read_device id
    now ← lift (setpoint device)
    pure (is_setpoint n now)

  -- The device before the action, when it is no longer in transition.
  unfoldable pub settled_device : String → String → M W DeviceState
  settled_device id phase = do
    snapshot ← rt.devices
    device ← lift (require_device snapshot id)
    moving ← lift (transitioning device)
    if moving
        then (do
          stable ←
              rt.wait_for_stable (id ∷ []) (phase <> "." <> id <> ".precondition") snapshot
                rt.timeouts.stabilization_seconds
          lift (require_device stable id))
        else pure device

  module _ (fuel : ℕ) where
    unfoldable pub wait_until : M W (Unit {0}) → ℕ → M W Bool → Failure → M W ℕ
    wait_until interrupt timeout check failure = do
      now ← rt.time
      poll fuel interrupt (now + timeout) check failure

    unfoldable pub wait_for_device_state : String → Bool → ℕ → M W ℕ
    wait_for_device_state id on timeout =
        wait_until (pure tt) timeout (has_state id on) (not_converged id)

    unfoldable pub wait_for_device_value : String → ℤ → ℕ → M W ℕ
    wait_for_device_value id n timeout =
        wait_until (pure tt) timeout (has_value id n) (not_converged id)

    -- The common part of both actions, from the log cursor on.
    unfoldable pub perform :
        Name
        → String
        → String
        → String
        → String
        → Requested
        → ProgrammerMarkers
        → Timeouts
        → M W (Unit {0})
        → M W Bool
        → M W ℕ
    perform name category phase action id requested markers times command check = do
      cursor ← rt.cursor
      started ← rt.offset_ns
      rt.write (scenario_action_started phase action id requested)
      command
      acknowledged ← rt.offset_ns
      rt.write (scenario_http_acknowledged phase action id requested started)
      active ←
          wait_for_active rt markers.task_name markers.active cursor started
            (or_default times.activation rt.timeouts.activation_seconds)
      completed ←
          wait_for_completion rt markers.task_name markers.completed active
            (or_default times.completion rt.timeouts.completion_seconds)
      ensure
          (wait_for_state_or_error rt markers.task_name active.sequence (λ interrupt.
            wait_until interrupt (or_default times.convergence rt.timeouts.convergence_seconds)
              check (not_converged id)))
          (λ observed. rt.record_measurement (
            measurement name category phase id requested started acknowledged active completed
              observed))

    unfoldable pub change_device :
        String → Bool → String → ProgrammerMarkers → Timeouts → String → M W (Unit {0})
    change_device id on phase markers times label = do
      perform (device_name phase id label) "device" phase "set_device" id (switch_to on) markers
          times (rt.switch id on) (has_state id on)
      rt.write (scenario_action_finished phase "set_device" id (switch_to on) "passed")

    unfoldable pub set_device :
        String → Bool → String → ProgrammerMarkers → Timeouts → M W (Unit {0})
    set_device id on phase markers times = do
      on_session (touch_device id)
      forget phase id
      device ← settled_device id phase
      now ← lift (enabled device)
      let label = requested_state_label device on in
          if eq_Bool now on
          then rt.record_skip (phase <> "." <> id <> "." <> label)
              "Device is already in the requested state"
          else change_device id on phase markers times label

    unfoldable pub set_setpoint :
        String → ℤ → String → String → ProgrammerMarkers → Timeouts → M W (Unit {0})
    set_setpoint id n phase category markers times = do
      on_session (touch_setpoint id)
      perform (setpoint_name phase n) category phase "set_setpoint" id (setpoint_of n) markers times
          (rt.write_setpoint id n) (has_setpoint id n)
      pure tt
