-- ===== src/Tests/Sleeping.antt =====
-- A PDA that falls asleep, wakes and falls asleep again.
use aqualinkd_validator.Prelude.{ℕ, String, ◌≡◌, refl, subst, first, All, none, List, [], ◌∷◌}
use aqualinkd_validator.Equipment.{pos, ok, failed, callback}
use aqualinkd_validator.Monitor.{
  LineEvent, Line, new_monitor, publish_all, recent_events, keep_last,
}
use aqualinkd_validator.Monitor.Log.{number, publish_all-IsLogOf, new_monitor-IsLogOf}
use aqualinkd_validator.Engine.Restoration.Action.{State, ◌>>=◌}
use aqualinkd_validator.Engine.Restoration.Logic.{Post}
use aqualinkd_validator.Pda.Programmer.{wait_for_active, wait_for_marker, wait_for_completion}
use aqualinkd_validator.Engine.Runtime.{EquipmentRuntime, elapsed}
use aqualinkd_validator.Pda.Sleep.{
  wake_init_active, wake_init_finished, pda_sleeping, pda_waking, PdaSleepWakeService,
  current_sleep_event, observe_natural_cycle, wait_for_sleep, sleep_or_wait, record_cycle,
}
use aqualinkd_validator.Pda.Sleep.Replay.{replay, current_sleep-replays}
use aqualinkd_validator.Pda.Sleep.Logged.{Has, IsLogged, answers, IsCycle}
use aqualinkd_validator.Pda.Sleep.Cycle.{observe_natural_cycle-IsCycle}

abbrev line : ℕ → String → Line
line offset_ns text = record { offset_ns = offset_ns; stream = "stdout"; text = text }

abbrev lines : List Line
lines = line 1 pda_sleeping ∷ line 2 pda_waking ∷ line 3 pda_sleeping ∷ []

current_sleep-replays_example :
    current_sleep_event (recent_events none (publish_all lines (new_monitor 2)))
    ≡ replay none (keep_last (publish_all lines (new_monitor 2)).history_size (number 0 lines))
current_sleep-replays_example =
    current_sleep-replays lines (publish_all lines (new_monitor 2))
      (publish_all-IsLogOf [] lines (new_monitor 2) (new_monitor-IsLogOf 2))

-- A log of one cycle.
abbrev event : ℕ → ℕ → String → LineEvent
event sequence offset_ns text = record {
  sequence = sequence;
  offset_ns = offset_ns;
  stream = "stdout";
  text = text;
}

abbrev asleep : LineEvent
asleep = event 1 100 pda_sleeping

abbrev log : List LineEvent
log =
    asleep
    ∷ event 2 300 pda_waking
    ∷ event 3 310 wake_init_active
    ∷ event 4 350 wake_init_finished
    ∷ event 5 700 pda_sleeping
    ∷ []

-- A panel whose waits look for their text in the log.
abbrev panel : EquipmentRuntime (Unit {0})
panel = record {
  devices = λ s. (failed (callback "no devices"), s);
  switch = λ id on s. (ok tt, s);
  write_setpoint = λ id n s. (ok tt, s);
  cursor = λ s. (ok 0, s);
  wait_for = λ text after timeout s. (ok (first (answers text after) log), s);
  wait_for_any = λ texts after timeout s. (ok none, s);
  done_waiting = λ text after s. (ok none, s);
  offset_ns = λ s. (ok 7, s);
  write = λ e s. (ok tt, s);
  time = λ s. (ok 0, s);
  sleep = λ n s. (ok tt, s);
  wait_for_stable = λ ids phase snapshot timeout s. (ok snapshot, s);
  record_measurement = λ m s. (ok tt, s);
  record_skip = λ name reason s. (ok tt, s);
  timeouts = record {
    activation_seconds = 10;
    completion_seconds = 10;
    convergence_seconds = 10;
    stabilization_seconds = 10;
  };
  poll_seconds = 1;
}

abbrev service : PdaSleepWakeService (Unit {0})
service = record {
  runtime = panel;
  recent_events = λ s. (ok (asleep ∷ []), s);
  record_measurement = λ m s. (ok tt, s);
  config = record {
    sleep_timeout = 10;
    action_timeout = 10;
    status_retry_delay = 1;
    probe_command_min_delay = 1;
  };
}

abbrev idle : State (Unit {0})
idle = record {
  session = record {
    initial_snapshot = none;
    touched_devices = [];
    touched_setpoints = [];
    requested_states = [];
  };
  world = tt;
}

service-IsLogged : IsLogged log service
service-IsLogged = record {
  waits = λ text after timeout s e h. cc h;
  recent = λ s events h. subst (All (Has log)) (seen h) (known, tt);
}
  where
    seen : {a b : List LineEvent} → ok a ≡ ok b → a ≡ b
    seen h = cc

    known : Has log asleep
    known = record {
      earlier = [];
      later =
          event 2 300 pda_waking
          ∷ event 3 310 wake_init_active
          ∷ event 4 350 wake_init_finished
          ∷ event 5 700 pda_sleeping
          ∷ [];
      place = refl;
    }

cycle_reported :
    (observe_natural_cycle service idle).0
    ≡ ok (record {
      sleep = pos 210;
      status_refresh = pos 40;
      return_to_sleep = pos 350;
      awake = pos 390;
      cycle = pos 600;
    })
unfolding observe_natural_cycle ◌>>=◌ wait_for_sleep sleep_or_wait current_sleep_event
    wait_for_active wait_for_marker wait_for_completion record_cycle elapsed
cycle_reported = refl

observe_natural_cycle-IsCycle_example :
    Post (λ report _. IsCycle log report) (λ _. Unit) (observe_natural_cycle service idle)
observe_natural_cycle-IsCycle_example =
    observe_natural_cycle-IsCycle log service service-IsLogged idle
