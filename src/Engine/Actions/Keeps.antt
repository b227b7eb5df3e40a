-- ===== src/Engine/Actions/Keeps.antt =====
-- What the calls of the runtime keep, the parts of an action keep.
use aqualinkd_validator.Prelude.{ℕ, String, Bool, false, List, [], ◌∷◌, if◌then◌else◌}
use aqualinkd_validator.Equipment.{
  ℤ, EquipmentSnapshot, require_device, transitioning, enabled, setpoint,
}
use aqualinkd_validator.Monitor.{LineEvent}
use aqualinkd_validator.Engine.Restoration.Action.{State}
use aqualinkd_validator.Engine.Restoration.Logic.{Triple}
use aqualinkd_validator.Engine.Restoration.Keeping.{
  Keeping, keep_pure, keep_lift, keep_bind, keep_if,
}
use aqualinkd_validator.Engine.Runtime.{TimelineEvent, Measurement, EquipmentRuntime}
use aqualinkd_validator.Pda.Programmer.{
  Marker, single, one_of, wait_for_marker, wait_for_active, wait_for_completion, check_errors,
  raise_event, or_raise,
}
use aqualinkd_validator.Engine.Actions.{read_device, has_state, has_setpoint, settled_device}

-- The calls of the runtime that send no command keep `I`, however they end.
pub record Keeps {W : Type 0} (I : State W → Type 0) (rt : EquipmentRuntime W) : Type 0 where
  pub devices : Keeping I rt.devices
  pub cursor : Keeping I rt.cursor
  pub wait_for : (text : String) (after timeout : ℕ) → Keeping I (rt.wait_for text after timeout)
  pub wait_for_any :
      (texts : List String) (after timeout : ℕ) → Keeping I (rt.wait_for_any texts after timeout)
  pub done_waiting : (text : String) (after : ℕ) → Keeping I (rt.done_waiting text after)
  pub offset_ns : Keeping I rt.offset_ns
  pub write : (event : TimelineEvent) → Keeping I (rt.write event)
  pub time : Keeping I rt.time
  pub sleep : (n : ℕ) → Keeping I (rt.sleep n)
  pub wait_for_stable :
      (ids : List String) (phase : String) (snapshot : EquipmentSnapshot) (timeout : ℕ)
      → Keeping I (rt.wait_for_stable ids phase snapshot timeout)
  pub record_measurement : (m : Measurement) → Keeping I (rt.record_measurement m)
  pub record_skip : (name reason : String) → Keeping I (rt.record_skip name reason)

-- What an action calls after its last look at the equipment keeps `Q`, or leaves `J`.
pub record Concludes {W : Type 0} (Q J : State W → Type 0) (rt : EquipmentRuntime W) : Type 0 where
  pub weaker : (s : State W) → Q s → J s
  pub offset_ns : Triple Q rt.offset_ns (λ _. Q) J
  pub done_waiting : (text : String) (after : ℕ) → Triple Q (rt.done_waiting text after) (λ _. Q) J
  pub record_measurement : (m : Measurement) → Triple Q (rt.record_measurement m) (λ _. Q) J
  pub write : (event : TimelineEvent) → Triple Q (rt.write event) (λ _. Q) J
  pub record_skip : (name reason : String) → Triple Q (rt.record_skip name reason) (λ _. Q) J

-- A check that is true only where `Q` holds.
abbrev pub Shows : {W : Type 0} → (State W → Type 0) → (State W → Type 0) → Bool → State W → Type 0
Shows Q J seen s = if seen then Q s else J s

module _ {W : Type 0} {I : State W → Type 0} (rt : EquipmentRuntime W) (keeps : Keeps I rt) where
  wait_for_marker-keeps :
      (m : Marker) (after timeout : ℕ) → Keeping I (wait_for_marker rt m after timeout)
  unfolding wait_for_marker
  wait_for_marker-keeps (single text) after timeout = keeps.wait_for text after timeout
  wait_for_marker-keeps (one_of []) after timeout = keep_lift _
  wait_for_marker-keeps (one_of (t ∷ ts)) after timeout = keeps.wait_for_any (t ∷ ts) after timeout

  pub wait_for_active-keeps :
      (task : String) (m : Marker) (after requested timeout : ℕ)
      → Keeping I (wait_for_active rt task m after requested timeout)
  unfolding wait_for_active
  wait_for_active-keeps task m after requested timeout =
      keep_bind (wait_for_marker-keeps m after timeout) λ found.
        keep_bind (keep_lift (or_raise _ found))
          λ active. keep_bind (keeps.write _) λ _. keep_pure active

  pub wait_for_completion-keeps :
      (task : String) (m : Marker) (active : LineEvent) (timeout : ℕ)
      → Keeping I (wait_for_completion rt task m active timeout)
  unfolding wait_for_completion
  wait_for_completion-keeps task m active timeout =
      keep_bind (wait_for_marker-keeps m active.sequence timeout) λ found.
        keep_bind (keep_lift (or_raise _ found))
          λ completed. keep_bind (keeps.write _) λ _. keep_pure completed

  pub check_errors-keeps : (task : String) (after : ℕ) → Keeping I (check_errors rt task after)
  unfolding check_errors
  check_errors-keeps task after =
      keep_bind (keeps.done_waiting _ after) λ found. keep_lift (raise_event found)

  pub read_device-keeps : (id : String) → Keeping I (read_device rt id)
  unfolding read_device
  read_device-keeps id = keep_bind keeps.devices λ snapshot. keep_lift (require_device snapshot id)

  pub has_state-keeps : (id : String) (on : Bool) → Keeping I (has_state rt id on)
  unfolding has_state
  has_state-keeps id on = keep_bind (read_device-keeps id) λ device.
      keep_bind (keep_lift (transitioning device)) λ moving.
        keep_if moving (keep_pure false) (keep_bind (keep_lift (enabled device)) λ now. keep_pure _)

  pub has_setpoint-keeps : (id : String) (n : ℤ) → Keeping I (has_setpoint rt id n)
  unfolding has_setpoint
  has_setpoint-keeps id n =
      keep_bind (read_device-keeps id)
        λ device. keep_bind (keep_lift (setpoint device)) λ now. keep_pure _

  pub settled_device-keeps : (id phase : String) → Keeping I (settled_device rt id phase)
  unfolding settled_device
  settled_device-keeps id phase = keep_bind keeps.devices λ snapshot.
      keep_bind (keep_lift (require_device snapshot id)) λ device.
        keep_bind (keep_lift (transitioning device)) λ moving.
          keep_if moving
            (keep_bind (keeps.wait_for_stable (id ∷ []) _ snapshot _)
              λ stable. keep_lift (require_device stable id))
            (keep_pure device)
