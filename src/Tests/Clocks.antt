-- ===== src/Tests/Clocks.antt =====
-- A panel's clock near midnight, and its restoration.
use aqualinkd_validator.Prelude.{ℕ, ◌*◌, ◌≡◌, refl, true, false, none, some, [], arith}
use aqualinkd_validator.Equipment.{pos, ok, failed, callback}
use aqualinkd_validator.Monitor.{LineEvent}
use aqualinkd_validator.Engine.Restoration.Action.{State}
use aqualinkd_validator.Engine.Restoration.Logic.{Post}
use aqualinkd_validator.Engine.Runtime.{EquipmentRuntime}
use aqualinkd_validator.Pda.Programmer.{single}
use aqualinkd_validator.TimeSync.{
  Clock, minutes, panel_time_difference, Controlled, PanelTimeSyncValidator, restore,
}
use aqualinkd_validator.TimeSync.Distance.{seconds, around, difference-around}
use aqualinkd_validator.TimeSync.Restore.{At, LeavesController, restore-At}

abbrev time_of_day : ℕ → ℕ → ℕ → Clock
time_of_day h m s = record { hour = h; minute = m; second = s; microsecond = 0 }

difference-around_example :
    panel_time_difference (time_of_day 0 1 0) (time_of_day 23 58 30)
    ≡ around (minutes (time_of_day 0 1 0) * 60) (seconds (time_of_day 23 58 30))
difference-around_example =
    difference-around (time_of_day 0 1 0) (time_of_day 23 58 30)
      (omega arith, omega arith, omega arith, omega arith)
      (omega arith, omega arith, omega arith, omega arith) refl

-- The event that every wait gives.
abbrev event : LineEvent
event = record { sequence = 1; offset_ns = 5; stream = "stdout"; text = "done" }

abbrev runtime : EquipmentRuntime (Controlled (Unit {0}))
runtime = record {
  devices = λ s. (failed (callback "no devices"), s);
  switch = λ id on s. (ok tt, s);
  write_setpoint = λ id n s. (ok tt, s);
  cursor = λ s. (ok 0, s);
  wait_for = λ text after timeout s. (ok (some event), s);
  wait_for_any = λ texts after timeout s. (ok none, s);
  done_waiting = λ text after s. (ok none, s);
  offset_ns = λ s. (ok 7, s);
  write = λ e s. (ok tt, s);
  time = λ s. (ok 0, s);
  sleep = λ n s. (ok tt, s);
  wait_for_stable = λ ids phase snapshot timeout s. (ok snapshot, s);
  record_measurement = λ m s. (ok tt, s);
  record_skip = λ name reason s. (ok tt, s);
  timeouts = record {
    activation_seconds = 10;
    completion_seconds = 10;
    convergence_seconds = 10;
    stabilization_seconds = 10;
  };
  poll_seconds = 1;
}

abbrev validator : PanelTimeSyncValidator (Unit {0})
validator = record {
  runtime = runtime;
  config = record {
    task_name = "Set Time";
    active_marker = single "active";
    finished_marker = single "finished";
    poll_seconds = 1;
    convergence_tolerance_seconds = 60;
    activation_timeout_seconds = 10;
    action_timeout_seconds = 10;
  };
  panel_time = λ s. (ok (time_of_day 12 0 0), s);
  set_date_time = λ s. (ok tt, s);
  now = λ offset s. (ok (time_of_day 12 0 30), s);
}

validator-Leaves : LeavesController validator
validator-Leaves = record {
  runtime = λ offset mark. record {
    devices = record { at = λ s h. h };
    cursor = record { at = λ s h. h };
    wait_for = λ text after timeout. record { at = λ s h. h };
    wait_for_any = λ texts after timeout. record { at = λ s h. h };
    done_waiting = λ text after. record { at = λ s h. h };
    offset_ns = record { at = λ s h. h };
    write = λ e. record { at = λ s h. h };
    time = record { at = λ s h. h };
    sleep = λ n. record { at = λ s h. h };
    wait_for_stable = λ ids phase snapshot timeout. record { at = λ s h. h };
    record_measurement = λ m. record { at = λ s h. h };
    record_skip = λ name reason. record { at = λ s h. h };
  };
  panel_time = λ offset mark. record { at = λ s h. h };
  set_date_time = λ offset mark. record { at = λ s h. h };
  now = λ by offset mark. record { at = λ s h. h };
}

abbrev ahead : State (Controlled (Unit {0}))
ahead = record {
  session = record {
    initial_snapshot = none;
    touched_devices = [];
    touched_setpoints = [];
    requested_states = [];
  };
  world = record { offset_seconds = pos 3600; panel_requires_restore = true; panel = tt };
}

restore-At_example :
    Post (λ _. At validator (pos 0) false) (At validator (pos 0) true) (restore validator 3 ahead)
restore-At_example = restore-At validator validator-Leaves 3 ahead
