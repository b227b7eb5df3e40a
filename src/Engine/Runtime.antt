-- ===== src/Engine/Runtime.antt =====
-- What equipment actions depend on (`EquipmentActions.__init__` of
-- aqualinkd_validator/engine/equipment_actions.py and its interfaces): each call may change the
-- world, and may raise or be cancelled.
use aqualinkd_validator.Prelude.{ℕ, ◌-◌, String, Bool, Option, none, some, List, if◌then◌else◌, leb}
use aqualinkd_validator.Equipment.{ℤ, pos, negsuc, Res, ok, failed, cancelled, EquipmentSnapshot}
use aqualinkd_validator.Monitor.{LineEvent}
use aqualinkd_validator.Engine.Restoration.Action.{RestorationSession, State, M, lift, ◌>>=◌}

-- `int | bool`
pub data Requested : Type 0 where
  switch_to : Bool → Requested
  setpoint_of : ℤ → Requested

-- The difference of two offsets.
unfoldable pub elapsed : ℕ → ℕ → ℤ
elapsed end start = if leb start end then pos (end - start) else negsuc (start - end - 1)

-- What is written to the timeline; durations are in nanoseconds, not rounded.
pub data TimelineEvent : Type 0 where
  scenario_action_started : (phase action target : String) (requested : Requested) → TimelineEvent
  scenario_http_acknowledged :
      (phase action target : String) (requested : Requested) (requested_offset_ns : ℕ)
      → TimelineEvent
  scenario_programmer_active : (task : String) (activation_ns : ℤ) → TimelineEvent
  scenario_programmer_finished : (task : String) (programmer_ns : ℤ) → TimelineEvent
  scenario_action_finished :
      (phase action target : String) (requested : Requested) (status : String) → TimelineEvent

-- The parts of a measurement's name.
pub data Name : Type 0 where
  device_name : (phase target state : String) → Name
  setpoint_name : String → ℤ → Name

pub record Measurement : Type 0 where
  pub name : Name
  pub category : String
  pub status : String
  pub phase : String
  pub target : String
  pub requested_value : Requested
  pub start_offset_ns : ℕ
  pub api_ack_offset_ns : ℕ
  pub task_active_offset_ns : ℕ
  pub log_completion_offset_ns : ℕ
  pub state_observed_offset_ns : Option ℕ
  pub completed_offset_ns : ℕ
  pub duration : ℤ
  pub api_ack : ℤ
  pub activation : ℤ
  pub programmer_duration : ℤ
  pub state_convergence : Option ℤ

pub record EquipmentActionTimeouts : Type 0 where
  pub activation_seconds : ℕ
  pub completion_seconds : ℕ
  pub convergence_seconds : ℕ
  pub stabilization_seconds : ℕ

-- The interfaces, the event loop and the constants of an `EquipmentActions`.
pub record EquipmentRuntime (W : Type 0) : Type 0 where
  -- AqualinkApi
  pub devices : M W EquipmentSnapshot
  pub switch : String → Bool → M W (Unit {0})
  pub write_setpoint : String → ℤ → M W (Unit {0})
  -- OrderedLogEvents: a wait gives `none` where it raises `TimeoutError`
  pub cursor : M W ℕ
  pub wait_for : String → ℕ → ℕ → M W (Option LineEvent)
  pub wait_for_any : List String → ℕ → ℕ → M W (Option LineEvent)
  -- whether a wait in another task has ended with an event by now
  pub done_waiting : String → ℕ → M W (Option LineEvent)
  -- EventTimeline
  pub offset_ns : M W ℕ
  pub write : TimelineEvent → M W (Unit {0})
  -- the event loop
  pub time : M W ℕ
  pub sleep : ℕ → M W (Unit {0})
  -- the services
  pub wait_for_stable : List String → String → EquipmentSnapshot → ℕ → M W EquipmentSnapshot
  pub record_measurement : Measurement → M W (Unit {0})
  pub record_skip : String → String → M W (Unit {0})
  pub timeouts : EquipmentActionTimeouts
  pub poll_seconds : ℕ

-- The value that a `finally` clause sees.
abbrev pub value_of : {A : Type 0} → Res A → Option A
value_of (ok a) = some a
value_of (failed f) = none
value_of cancelled = none

module _ {W A : Type 0} where
  -- `try … finally`: what the last clause raises takes the place of the end of the first.
  unfoldable pub ensure : M W A → (Option A → M W (Unit {0})) → M W A
  ensure m last s = let (r, s') = m s in (last (value_of r) >>= λ _. lift r) s'

-- A method of the session.
module _ {W : Type 0} where
  abbrev updated : Res RestorationSession → State W → Res (Unit {0}) × State W
  updated (ok session) s = (ok tt, record s { session = session })
  updated (failed f) s = (failed f, s)
  updated cancelled s = (cancelled, s)

  unfoldable pub on_session : (RestorationSession → Res RestorationSession) → M W (Unit {0})
  on_session update s = updated (update s.session) s
