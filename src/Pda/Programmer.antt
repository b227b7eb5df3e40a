-- ===== src/Pda/Programmer.antt =====
-- `PdaProgrammerObserver` of aqualinkd_validator/protocols/pda/programmer.py.
use aqualinkd_validator.Prelude.{
  ℕ, String, Option, none, some, List, [], ◌⊎◌, inl, inr, ◌<>◌, strip,
}
use aqualinkd_validator.Equipment.{
  Failure, not_active, not_completed, no_markers, programmer_error, failed, ok, Res,
}
use aqualinkd_validator.Monitor.{LineEvent}
use aqualinkd_validator.Engine.Restoration.Action.{M, pure, lift, attempt, ◌>>=◌, ◌>>◌}
use aqualinkd_validator.Engine.Runtime.{
  EquipmentRuntime, elapsed, scenario_programmer_active, scenario_programmer_finished,
}

-- `str | tuple[str, ...]`
pub data Marker : Type 0 where
  single : String → Marker
  one_of : List String → Marker

pub record ProgrammerMarkers : Type 0 where
  pub task_name : String
  pub active : Marker
  pub completed : Marker

abbrev pub or_raise : Failure → Option LineEvent → Res LineEvent
or_raise f none = failed f
or_raise f (some event) = ok event

abbrev pub raise_event : Option LineEvent → Res (Unit {0})
raise_event none = ok tt
raise_event (some event) = failed (programmer_error (strip event.text))

module _ {W : Type 0} (rt : EquipmentRuntime W) where
  unfoldable pub wait_for_marker : Marker → ℕ → ℕ → M W (Option LineEvent)
  wait_for_marker (single text) after timeout = rt.wait_for text after timeout
  wait_for_marker (one_of []) after timeout = lift (failed (no_markers "markers"))
  wait_for_marker (one_of texts) after timeout = rt.wait_for_any texts after timeout

  unfoldable pub wait_for_active : String → Marker → ℕ → ℕ → ℕ → M W LineEvent
  wait_for_active task marker after requested_offset_ns timeout = do
    found ← wait_for_marker marker after timeout
    active ← lift (or_raise (not_active task) found)
    rt.write (scenario_programmer_active task (elapsed active.offset_ns requested_offset_ns))
    pure active

  unfoldable pub wait_for_completion : String → Marker → LineEvent → ℕ → M W LineEvent
  wait_for_completion task marker active timeout = do
    found ← wait_for_marker marker active.sequence timeout
    completed ← lift (or_raise (not_completed task) found)
    rt.write (scenario_programmer_finished task (elapsed completed.offset_ns active.offset_ns))
    pure completed

  abbrev pub error_text : String → String
  error_text task = "PDA Device programmer '" <> task <> "' didn't find"

  -- What the error task tells while the state task waits: it raises its event once it has one.
  unfoldable pub check_errors : String → ℕ → M W (Unit {0})
  check_errors task after = do
    found ← rt.done_waiting (error_text task) after
    lift (raise_event found)

  abbrev pub result_of : {A : Type 0} → A ⊎ Failure → Res A
  result_of (inl a) = ok a
  result_of (inr f) = failed f

  -- The state task, which looks for the error task's event wherever it sleeps; an event that has
  -- come by its end takes the place of its result.
  unfoldable pub wait_for_state_or_error : String → ℕ → (M W (Unit {0}) → M W ℕ) → M W ℕ
  wait_for_state_or_error task after state_wait = do
    observed ← attempt (state_wait (check_errors task after))
    check_errors task after
    lift (result_of observed)
