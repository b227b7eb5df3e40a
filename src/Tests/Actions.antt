-- ===== src/Tests/Actions.antt =====
-- Tests of the output monitor, of equipment actions and of the restoration of a PDA panel.
use aqualinkd_validator.Prelude.{
  strip, ℕ, ◌+◌, ◌≤◌, String, ◌≡◌, refl, ap, ◌∙◌, arith, Bool, true, false, none, some, List, [],
  ◌∷◌, ◌⊎◌, ◌==◌, inl, inr, if◌then◌else◌, first,
}
use aqualinkd_validator.Equipment.{ℤ, callback, ok, failed, require_device}
use aqualinkd_validator.Monitor.{
  LineEvent, Line, new_monitor, publish, publish_all, wait_for_match, passes,
}
use aqualinkd_validator.Monitor.Log.{number, publish_all-IsLogOf, new_monitor-IsLogOf}
use aqualinkd_validator.Monitor.Waiting.{wait_for_match_refines}
use aqualinkd_validator.Engine.Restoration.Action.{State, M}
use aqualinkd_validator.Engine.Restoration.Logic.{Post}
use aqualinkd_validator.Engine.Runtime.{EquipmentRuntime}
use aqualinkd_validator.Engine.Actions.{set_device, set_setpoint, wait_for_device_state}
use aqualinkd_validator.Engine.Actions.Commands.{Command, switched, written, Leaves, IsRecorded, On}
use aqualinkd_validator.Engine.Actions.Tracking.{Tracked, actions-Tracked}
use aqualinkd_validator.Engine.Actions.Outcome.{IsFaithful, set_device-Is}
use aqualinkd_validator.Engine.Actions.Termination.{ran_out, IsTimed, wait_for_device_state-Ends}
use aqualinkd_validator.Pda.Programmer.{single, one_of, ProgrammerMarkers}
use aqualinkd_validator.Pda.Restoration.{
  Progress, PdaRestorationCoordinatorConfig, converging, restore_device, pda_service, callbacks,
}
use aqualinkd_validator.Pda.Restoration.Sending.{switches}
use aqualinkd_validator.Pda.Restoration.Retaining.{Retains}
use aqualinkd_validator.Pda.Restoration.Pending.{restore-Settled}
use aqualinkd_validator.Engine.Restoration.Pending.{Settled}
use aqualinkd_validator.Engine.Restoration.Restore.{restore}
use aqualinkd_validator.Pda.Restoration.Once.{tries, restore_device-switches}
use aqualinkd_validator.Tests.Panels.{snapshot_of, is_pool_heater, read_heater, initial}

abbrev line : ℕ → String → Line
line offset_ns text = record { offset_ns = offset_ns; stream = "stdout"; text = text }

abbrev is_ready : LineEvent → Bool
is_ready event = event.sequence == 3

-- Two events are kept; the third line comes while the wait sleeps.
wait_for_match_refines_example :
    (wait_for_match is_ready 1
      (publish_all (line 1 "a" ∷ line 2 "b" ∷ []) (new_monitor 2))
      ((line 3 "ready" ∷ []) ∷ [])).0
    ≡ first (passes is_ready 1) (number 0 (line 1 "a" ∷ line 2 "b" ∷ line 3 "ready" ∷ []))
unfolding publish_all publish
wait_for_match_refines_example =
    wait_for_match_refines is_ready 1 (line 1 "a" ∷ line 2 "b" ∷ [])
      (publish_all (line 1 "a" ∷ line 2 "b" ∷ []) (new_monitor 2)) ((line 3 "ready" ∷ []) ∷ [])
      (publish_all-IsLogOf [] (line 1 "a" ∷ line 2 "b" ∷ []) (new_monitor 2)
        (new_monitor-IsLogOf 2))
      (omega arith) (omega arith, tt)

-- A panel with one heater that obeys at once, and the commands that it got.
record World : Type 0 where
  on : Bool
  sent : List Command

abbrev does : {A : Type 0} → A → M World A
does a s = (ok a, s)

abbrev switch : Bool → String → Bool → M World (Unit {0})
switch true id on s =
    (ok tt, record s { world = record s.world { on = on; sent = switched id on ∷ s.world.sent } })
switch false id on s = (failed (callback id), s)

abbrev event : LineEvent
event = record { sequence = 1; offset_ns = 5; stream = "stdout"; text = "done" }

abbrev runtime : EquipmentRuntime World
runtime = record {
  devices = λ s. (ok (snapshot_of s.world.on), s);
  switch = λ id on. switch (is_pool_heater id) id on;
  write_setpoint =
      λ id n s. (ok tt, record s { world = record s.world { sent = written id n ∷ s.world.sent } });
  cursor = does 0;
  wait_for = λ text after timeout. does (some event);
  wait_for_any = λ texts after timeout. does (some event);
  done_waiting = λ text after. does none;
  offset_ns = does 7;
  write = λ e. does tt;
  time = does 0;
  sleep = λ n. does tt;
  wait_for_stable = λ ids phase snapshot timeout s. (ok (snapshot_of s.world.on), s);
  record_measurement = λ m. does tt;
  record_skip = λ name reason. does tt;
  timeouts = record {
    activation_seconds = 10;
    completion_seconds = 10;
    convergence_seconds = 10;
    stabilization_seconds = 10;
  };
  poll_seconds = 1;
}

abbrev is_on : World → String → Bool
is_on w id = if is_pool_heater id then w.on else false

abbrev sent : World → List Command
sent w = w.sent

leaves : {A : Type 0} (m : M World A) → ((s : State World) → (m s).1 ≡ s) → Leaves sent m
leaves m e = record { session = λ s. rw (e s) refl; sent = λ s. rw (e s) refl }

ok_eq : {A : Type 0} {a b : A} → ok a ≡ ok b → a ≡ b
ok_eq h = cc

runtime-IsFaithful : IsFaithful is_on runtime
runtime-IsFaithful = record {
  devices = λ s snapshot id device on h h' e.
      read_heater s.world.on id device on (ap (λ z. require_device z id) (ok_eq h) ∙ h') e;
  wait_for_stable = λ ids phase old timeout s snapshot id device on h h' e.
      read_heater s.world.on id device on (ap (λ z. require_device z id) (ok_eq h) ∙ h') e;
  done_waiting = λ text after s id. refl;
  offset_ns = λ s id. refl;
  write = λ event s id. refl;
  record_measurement = λ m s id. refl;
  record_skip = λ name reason s id. refl;
}

strip_error : strip "  PDA error \n" ≡ "PDA error"
strip_error = refl

abbrev markers : ProgrammerMarkers
markers = record {
  task_name = "PDA Device on/off";
  active = single "active";
  completed = one_of ("complete" ∷ "finished" ∷ []);
}

abbrev start : State World
start = record {
  session = record {
    initial_snapshot = some initial;
    touched_devices = [];
    touched_setpoints = [];
    requested_states = [];
  };
  world = record { on = false; sent = [] };
}

set_device-Is_example :
    Post
      (λ _ t. is_on t.world "Pool_Heater" ≡ true)
      (λ _. Unit)
      (set_device runtime 3 "Pool_Heater" true "heater.on" markers (converging none) start)
set_device-Is_example =
    set_device-Is is_on runtime runtime-IsFaithful 3 "Pool_Heater" true "heater.on" markers
      (converging none) start

runtime-IsRecorded : IsRecorded sent runtime
runtime-IsRecorded = record {
  devices = leaves _ (λ s. refl);
  cursor = leaves _ (λ s. refl);
  wait_for = λ text after timeout. leaves _ (λ s. refl);
  wait_for_any = λ texts after timeout. leaves _ (λ s. refl);
  done_waiting = λ text after. leaves _ (λ s. refl);
  offset_ns = leaves _ (λ s. refl);
  write = λ e. leaves _ (λ s. refl);
  time = leaves _ (λ s. refl);
  sleep = λ n. leaves _ (λ s. refl);
  wait_for_stable = λ ids phase snapshot timeout. leaves _ (λ s. refl);
  record_measurement = λ m. leaves _ (λ s. refl);
  record_skip = λ name reason. leaves _ (λ s. refl);
  switch = λ id on. record {
    session = λ s. switch_session (is_pool_heater id) id on s;
    sent = λ s. switch_sent (is_pool_heater id) id on s;
  };
  write_setpoint = λ id n. record { session = λ s. refl; sent = λ s. inr refl };
}
  where
    switch_session :
        (b : Bool) (id : String) (on : Bool) (s : State World)
        → (switch b id on s).1.session ≡ s.session
    switch_session true id on s = refl
    switch_session false id on s = refl

    switch_sent :
        (b : Bool) (id : String) (on : Bool) (s : State World)
        → (sent (switch b id on s).1.world ≡ sent s.world)
          ⊎ (sent (switch b id on s).1.world ≡ switched id on ∷ sent s.world)
    switch_sent true id on s = inr refl
    switch_sent false id on s = inl refl

actions-Tracked_example :
    ((on : Bool)
      → On sent Tracked
          (set_device runtime 3 "Pool_Heater" on "heater.on" markers (converging none) start).1)
    × ((n : ℤ)
        → On sent Tracked
            (set_setpoint runtime 3 "Pool_Heater" n "heater.on" "heater" markers
              (converging none)
              start).1)
actions-Tracked_example =
    actions-Tracked sent runtime runtime-IsRecorded 3 "Pool_Heater" "heater.on" "heater" markers
      (converging none) start tt

abbrev config : PdaRestorationCoordinatorConfig
config = record { timeout_seconds = 20; device_markers = markers; setpoint_markers = [] }

abbrev quiet : Progress → M World (Unit {0})
quiet p = does tt

restore_device-switches_example :
    switches "Pool_Heater" true (
      sent
        (tries 3
          (restore_device (pda_service runtime quiet 3 config) "Pool_Heater" true)
          start).world)
    ≤ 1
restore_device-switches_example =
    restore_device-switches sent runtime quiet config runtime-IsRecorded (λ p. leaves _ (λ s. refl))
      3 "Pool_Heater" true 3 start

abbrev changed : State World
changed = record start {
  session = record start.session { touched_devices = "Pool_Heater" ∷ [] };
  world = record { on = true; sent = [] };
}

restore-Settled_example :
    Post
      (Settled
        (λ t. Retains changed.session t.session)
        (callbacks (pda_service runtime quiet 3 config)))
      (λ t. Retains changed.session t.session)
      (restore (callbacks (pda_service runtime quiet 3 config)) changed)
restore-Settled_example =
    restore-Settled sent runtime quiet config runtime-IsRecorded (λ p. leaves _ (λ s. refl)) 3
      changed initial refl

-- The same panel with a clock, whose heater stays off.
record Timed : Type 0 where
  clock : ℕ

abbrev timed : EquipmentRuntime Timed
timed = record {
  devices = λ s. (ok (snapshot_of false), s);
  switch = λ id on s. (ok tt, s);
  write_setpoint = λ id n s. (ok tt, s);
  cursor = λ s. (ok 0, s);
  wait_for = λ text after timeout s. (ok (some event), s);
  wait_for_any = λ texts after timeout s. (ok (some event), s);
  done_waiting = λ text after s. (ok none, s);
  offset_ns = λ s. (ok s.world.clock, s);
  write = λ e s. (ok tt, s);
  time = λ s. (ok s.world.clock, s);
  sleep = λ n s. (ok tt, record s { world = record { clock = s.world.clock + n } });
  wait_for_stable = λ ids phase snapshot timeout s. (ok snapshot, s);
  record_measurement = λ m s. (ok tt, s);
  record_skip = λ name reason s. (ok tt, s);
  timeouts = runtime.timeouts;
  poll_seconds = 2;
}

timed-IsTimed : IsTimed (λ w. w.clock) timed
timed-IsTimed = record {
  later = λ c. record {
    devices = record { at = λ s h. h };
    cursor = record { at = λ s h. h };
    wait_for = λ text after timeout. record { at = λ s h. h };
    wait_for_any = λ texts after timeout. record { at = λ s h. h };
    done_waiting = λ text after. record { at = λ s h. h };
    offset_ns = record { at = λ s h. h };
    write = λ e. record { at = λ s h. h };
    time = record { at = λ s h. h };
    sleep = λ n. record { at = λ s h. omega (arith, h) };
    wait_for_stable = λ ids phase snapshot timeout. record { at = λ s h. h };
    record_measurement = λ m. record { at = λ s h. h };
    record_skip = λ name reason. record { at = λ s h. h };
  };
  time_now = λ s now e. let same = nat_eq e in (omega (arith, same), omega (arith, same));
  sleep_on = λ s n e. omega arith;
  time_ends = λ s. refl;
  sleep_ends = λ n s. refl;
  offset_ends = λ s. refl;
  devices_end = λ s. refl;
}
  where
    nat_eq : {a b : ℕ} → ok a ≡ ok b → a ≡ b
    nat_eq h = cc

abbrev noon : State Timed
noon = record { session = start.session; world = record { clock = 12 } }

wait_for_device_state-Ends_example :
    ran_out (wait_for_device_state timed 6 "Pool_Heater" true 10 noon).0 ≡ false
wait_for_device_state-Ends_example =
    wait_for_device_state-Ends (λ w. w.clock) timed timed-IsTimed 5 10 "Pool_Heater" true
      (omega arith) noon
