-- ===== src/Pda/Sleep.antt =====
-- `PdaSleepWakeService` of aqualinkd_validator/protocols/pda/sleep.py. Delays and durations are
-- whole nanoseconds, not rounded; the shares of a cycle in percent are left to its reader.
pub mod Logged
pub mod Replay
pub mod Cycle
use aqualinkd_validator.Prelude.{
  ℕ, zero, suc, ◌+◌, ◌-◌, String, Bool, true, false, not, ◌&&◌, ◌||◌, Option, none, some, List, [],
  ◌∷◌, ◌⊎◌, inl, inr, if◌then◌else◌, ltb, leb, any, select, length, ◌==◌,
}
use aqualinkd_validator.Equipment.{ℤ, Failure, callback, Res, ok, failed, has_part}
use aqualinkd_validator.Monitor.{LineEvent}
use aqualinkd_validator.Engine.Restoration.Action.{M, pure, lift, ◌>>=◌, ◌>>◌}
use aqualinkd_validator.Engine.Runtime.{EquipmentRuntime, elapsed}
use aqualinkd_validator.Pda.Programmer.{single, or_raise, wait_for_active, wait_for_completion}

abbrev pub pda_sleeping : String
pda_sleeping = "PDA Aqualink daemon in sleep mode"

abbrev pub pda_waking : String
pda_waking = "PDA Aqualink daemon waking from sleep mode"

abbrev pub pda_address_status : String
pda_address_status = "To 0x60 of type           Status"

abbrev pub pda_address_probe : String
pda_address_probe = "To 0x60 of type            Probe"

abbrev pub wake_init_active : String
wake_init_active = "is active (PDA init after wake)"

abbrev pub wake_init_finished : String
wake_init_finished = "(PDA init after wake) finished"

-- The failures of this service.
abbrev pub no_sleep : Failure
no_sleep = callback "PDA did not return to sleep"

abbrev pub no_sleep_event : Failure
no_sleep_event = callback "TimeoutError"

abbrev pub probe_too_early : Failure
probe_too_early = callback "PDA address probing began before the STATUS-retry command was sent"

abbrev pub no_status_retry : Failure
no_status_retry = callback "No repeated PDA STATUS packet was observed"

abbrev pub no_probe : Failure
no_probe = callback "Panel did not begin probing PDA address 0x60 after sleep"

pub record PdaSleepWakeConfig : Type 0 where
  pub sleep_timeout : ℕ
  pub action_timeout : ℕ
  pub status_retry_delay : ℕ
  pub probe_command_min_delay : ℕ

-- The arguments of a recorded measurement that differ from one to another.
pub record SleepMeasurement : Type 0 where
  pub name : String
  pub category : String
  pub phase : String
  pub target : String
  pub start_offset_ns : ℕ
  pub log_completion_offset_ns : ℕ
  pub task_active_offset_ns : Option ℕ

-- The report of a cycle.
pub record SleepCycle : Type 0 where
  pub sleep : ℤ
  pub status_refresh : ℤ
  pub return_to_sleep : ℤ
  pub awake : ℤ
  pub cycle : ℤ

pub record PdaStatusRetryWindow : Type 0 where
  pub sleep_event : LineEvent
  pub retry_count : ℕ

pub record PdaProbeWindow : Type 0 where
  pub sleep_event : LineEvent
  pub probe_event : LineEvent
  pub probe_delay : ℤ

pub record PdaSleepWakeService (W : Type 0) : Type 0 where
  pub runtime : EquipmentRuntime W
  pub recent_events : M W (List LineEvent)
  pub record_measurement : SleepMeasurement → M W (Unit {0})
  pub config : PdaSleepWakeConfig

abbrev pub is_sleeping : LineEvent → Bool
is_sleeping event = has_part pda_sleeping event.text

abbrev pub is_waking : LineEvent → Bool
is_waking event = has_part pda_waking event.text || has_part wake_init_active event.text

-- `next((x for x in reversed(xs) if p(x)), None)`
abbrev pub last {ℓ} : {A : Type ℓ} → (A → Bool) → List A → Option A
last p [] = none
last p (x ∷ xs) = elim (last p xs) [ some y ↦ some y | none ↦ if p x then some x else none ]

abbrev pub is_after : LineEvent → LineEvent → Bool
is_after earlier event = ltb earlier.sequence event.sequence

abbrev pub unless_woken : List LineEvent → Option LineEvent → Option LineEvent
unless_woken events none = none
unless_woken events (some sleeping) =
    if any (λ event. is_after sleeping event && is_waking event) events then none else some sleeping

unfoldable pub current_sleep_event : List LineEvent → Option LineEvent
current_sleep_event events = unless_woken events (last is_sleeping events)

-- `max(0.0, minimum - delay)`
abbrev pub remaining_delay : ℕ → ℤ → ℕ
remaining_delay minimum (ℤ.pos n) = minimum - n
remaining_delay minimum (ℤ.negsuc n) = minimum + n + 1

abbrev pub measured : String → String → String → String → ℕ → ℕ → Option ℕ → SleepMeasurement
measured name category phase target started completed active = record {
  name = name;
  category = category;
  phase = phase;
  target = target;
  start_offset_ns = started;
  log_completion_offset_ns = completed;
  task_active_offset_ns = active;
}

abbrev pub is_probe : LineEvent → Bool
is_probe event = has_part pda_address_probe event.text

abbrev pub is_status : LineEvent → Bool
is_status event = has_part pda_address_status event.text

-- What the events after the sleep tell of its STATUS retries.
unfoldable pub retry_window : LineEvent → List LineEvent → Res PdaStatusRetryWindow
retry_window entered recent =
    let events = select (is_after entered) recent in
    let retries = length (select is_status events) in
    if any is_probe events
    then failed probe_too_early
    else if retries == 0
    then failed no_status_retry
    else ok (record { sleep_event = entered; retry_count = retries })

module _ {W : Type 0} (service : PdaSleepWakeService W) where
  abbrev rt : EquipmentRuntime W
  rt = service.runtime

  -- The event, and the offset at which its measurement starts.
  unfoldable pub sleep_or_wait : ℕ → ℕ → Option LineEvent → M W (LineEvent × ℕ)
  sleep_or_wait cursor started (some event) = pure (event, event.offset_ns)
  sleep_or_wait cursor started none = do
    found ← rt.wait_for pda_sleeping cursor service.config.sleep_timeout
    event ← lift (or_raise no_sleep_event found)
    pure (event, started)

  unfoldable pub wait_for_sleep : String → String → M W LineEvent
  wait_for_sleep phase name = do
    cursor ← rt.cursor
    started ← rt.offset_ns
    recent ← service.recent_events
    entered ← sleep_or_wait cursor started (current_sleep_event recent)
    service.record_measurement
        (measured name "state_wait" phase "pda_sleep" entered.1 entered.0.offset_ns none)
    pure entered.0

  unfoldable pub record_cycle : LineEvent → LineEvent → LineEvent → LineEvent → M W (Unit {0})
  record_cycle entered active finished returned = do
    service.record_measurement (
        measured "pda.sleep.duration" "sleep_cycle" "devices.sleeping" "pda_sleep" entered.offset_ns
          active.offset_ns none)
    service.record_measurement (
        measured "pda.after_wake.status_refresh" "sleep_cycle" "devices.sleeping" "pda_status"
          active.offset_ns finished.offset_ns (some active.offset_ns))
    service.record_measurement (
        measured "pda.after_wake.return_to_sleep" "sleep_cycle" "devices.sleeping" "pda_sleep"
          finished.offset_ns returned.offset_ns none)
    service.record_measurement (
        measured "pda.wake.duration" "sleep_cycle" "devices.sleeping" "pda_awake" active.offset_ns
          returned.offset_ns none)
    service.record_measurement (
        measured "pda.sleep_wake.cycle" "sleep_cycle" "devices.sleeping" "pda_sleep_wake_cycle"
          entered.offset_ns returned.offset_ns none)

  unfoldable pub observe_natural_cycle : M W SleepCycle
  observe_natural_cycle = do
    entered ← wait_for_sleep "devices.sleeping" "pda.sleep.enter"
    active ←
        wait_for_active rt "PDA init after wake" (single wake_init_active) entered.sequence
          entered.offset_ns service.config.sleep_timeout
    finished ←
        wait_for_completion rt "PDA init after wake" (single wake_init_finished) active
          service.config.action_timeout
    found ← rt.wait_for pda_sleeping finished.sequence service.config.sleep_timeout
    returned ← lift (or_raise no_sleep found)
    record_cycle entered active finished returned
    pure (record {
      sleep = elapsed active.offset_ns entered.offset_ns;
      status_refresh = elapsed finished.offset_ns active.offset_ns;
      return_to_sleep = elapsed returned.offset_ns finished.offset_ns;
      awake = elapsed returned.offset_ns active.offset_ns;
      cycle = elapsed returned.offset_ns entered.offset_ns;
    })

  unfoldable pub wait_for_status_retry_window : M W PdaStatusRetryWindow
  wait_for_status_retry_window = do
    entered ← wait_for_sleep "devices.sleep.status_retry" "pda.sleep.status_retry.command_ready"
    rt.sleep service.config.status_retry_delay
    recent ← service.recent_events
    lift (retry_window entered recent)

  unfoldable pub delay_command : ℕ → M W (Unit {0})
  delay_command zero = pure tt
  delay_command (suc n) = rt.sleep (suc n)

  unfoldable pub wait_for_probe_window : M W PdaProbeWindow
  wait_for_probe_window = do
    entered ← wait_for_sleep "devices.sleep.probing" "pda.sleep.probe.command_ready"
    found ← rt.wait_for pda_address_probe entered.sequence service.config.sleep_timeout
    probe ← lift (or_raise no_probe found)
    let delay = elapsed probe.offset_ns entered.offset_ns in
        do
          delay_command (remaining_delay service.config.probe_command_min_delay delay)
          pure (record { sleep_event = entered; probe_event = probe; probe_delay = delay })
