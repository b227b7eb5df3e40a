-- ===== src/Supervisor.antt =====
-- `supervise` of aqualinkd_validator/adapters/process.py. The process, the tasks and the signals
-- are a host, whose calls may raise or be cancelled; a write to the timeline appends and returns.
-- The task that waits for the process and the handles of files are left out: nothing is read of
-- them once the first task has ended.
pub mod Verdict
pub mod Ending
use aqualinkd_validator.Prelude.{
  ℕ, String, Bool, true, false, not, ◌&&◌, Option, none, some, List, [], ◌∷◌, ◌⊎◌, inl, inr,
  if◌then◌else◌,
}
use aqualinkd_validator.Equipment.{ℤ, pos, eq_ℤ, Failure, Res, ok, failed, cancelled}
use aqualinkd_validator.Engine.Restoration.Action.{Act, pure, lift, get, attempt, ◌>>=◌, ◌>>◌}

pub data RunStatus : Type 0 where
  run_passed run_failed : RunStatus

pub data Reason : Type 0 where
  startup_failed scenario_timed_out child_exit_during_scenario scenario_raised : Reason
  child_exit child_exit_before_duration duration_over interrupted : Reason
  reader_failed observer_close_failed : Reason
  -- the reason of a scenario's outcome
  reported : String → Reason

pub data Signal : Type 0 where
  sigterm sigkill : Signal

-- The timeline's events, without their fields for the command, the pid and the duration.
pub data Event : Type 0 where
  process_starting process_started scenario_timeout duration_elapsed : Event
  scenario_error output_reader_error output_observer_close_error : Failure → Event
  process_signal : Signal → Event
  process_finished : RunStatus → Reason → Option ℤ → Event

pub record ScenarioOutcome : Type 0 where
  pub status : RunStatus
  pub reason : String

-- Which of the process and the scenario ended first; the process, if both did.
pub data First : Type 0 where
  neither scenario_first : First
  process_first : ℤ → First

pub record Host (W : Type 0) : Type 0 where
  pub spawn : Act W (Unit {0})
  -- `process.returncode`
  pub returncode : W → Option ℤ
  pub wait_process : Act W ℤ
  -- `none` on a timeout
  pub wait_process_for : ℕ → Act W (Option ℤ)
  pub kill : Signal → Act W (Unit {0})
  pub wait_first : Option ℕ → Act W First
  pub scenario_done : W → Bool
  pub scenario_result : Act W ScenarioOutcome
  -- cancels the scenario and waits for it, for some time
  pub stop_scenario : ℕ → Act W (Unit {0})
  pub stop_sampler : Act W (Unit {0})
  -- what the readers of the two streams raised
  pub reader_results : Act W (List (Option Failure))
  pub close_observers : List (Act W (Unit {0}))

pub record Config : Type 0 where
  pub has_scenario : Bool
  pub duration_seconds : Option ℕ
  pub terminate_grace_seconds : ℕ
  pub scenario_cleanup_seconds : ℕ

-- The local variables, the timeline, its latest event first, and the host.
pub record Run (W : Type 0) : Type 0 where
  pub started : Bool
  pub scenario_task : Bool
  pub status : RunStatus
  pub reason : Reason
  pub returncode : Option ℤ
  pub events : List Event
  pub world : W

pub record RunResult : Type 0 where
  pub status : RunStatus
  pub reason : Reason
  pub child_returncode : Option ℤ

abbrev pub new_run : {W : Type 0} → W → Run W
new_run world = record {
  started = false;
  scenario_task = false;
  status = run_failed;
  reason = startup_failed;
  returncode = none;
  events = [];
  world = world;
}

abbrev pub exit_status : ℤ → RunStatus
exit_status code = if eq_ℤ code (pos 0) then run_passed else run_failed

abbrev pub is_running : Option ℤ → Bool
is_running none = true
is_running (some code) = false

module _ {W : Type 0} where
  -- Assignments and writes.
  abbrev pub assign : (Run W → Run W) → Act (Run W) (Unit {0})
  assign f s = (ok tt, f s)

  abbrev pub write : Event → Act (Run W) (Unit {0})
  write event = assign (λ s. record s { events = event ∷ s.events })

  abbrev pub verdict : RunStatus → Reason → Act (Run W) (Unit {0})
  verdict status reason = assign (λ s. record s { status = status; reason = reason })

  abbrev pub set_returncode : Option ℤ → Act (Run W) (Unit {0})
  set_returncode code = assign (λ s. record s { returncode = code })

  abbrev pub on_world : {A : Type 0} → Act W A → Act (Run W) A
  on_world m s = let (r, w) = m s.world in (r, record s { world = w })

module _ {W : Type 0} (host : Host W) (config : Config) where
  unfoldable pub kill_process : Act (Run W) (Unit {0})
  kill_process = do
    write (process_signal sigkill)
    on_world (host.kill sigkill)
    code ← on_world host.wait_process
    pure tt

  unfoldable pub after_grace : Option ℤ → Act (Run W) (Unit {0})
  after_grace (some code) = pure tt
  after_grace none = kill_process

  unfoldable pub terminate : Act (Run W) (Unit {0})
  terminate = do
    write (process_signal sigterm)
    on_world (host.kill sigterm)
    code ← on_world (host.wait_process_for config.terminate_grace_seconds)
    after_grace code

  abbrev pub stop_unless : Option ℤ → Act (Run W) (Unit {0})
  stop_unless (some code) = pure tt
  stop_unless none = terminate

  -- `_stop_process`
  unfoldable pub stop_process : Act (Run W) (Unit {0})
  stop_process = do now ← get; stop_unless (host.returncode now.world)

  -- `_stop_process` and the assignment of its `returncode`.
  unfoldable pub stop_and_note : Act (Run W) (Unit {0})
  stop_and_note = do stop_process; now ← get; set_returncode (host.returncode now.world)

  -- `_cancel_task`
  unfoldable pub cancel_scenario : ℕ → Act (Run W) (Unit {0})
  cancel_scenario seconds = do
    now ← get
    if host.scenario_done now.world then pure tt else on_world (host.stop_scenario seconds)

  abbrev pub conclude_scenario : ScenarioOutcome ⊎ Failure → Act (Run W) (Unit {0})
  conclude_scenario (inl outcome) = verdict outcome.status (reported outcome.reason)
  conclude_scenario (inr f) = verdict run_failed scenario_raised >> write (scenario_error f)

  unfoldable pub after_first : First → Act (Run W) (Unit {0})
  after_first neither = do
    verdict run_failed scenario_timed_out
    write scenario_timeout
    cancel_scenario config.scenario_cleanup_seconds
    stop_and_note
  after_first (process_first code) = do
    set_returncode (some code)
    verdict run_failed child_exit_during_scenario
    cancel_scenario config.terminate_grace_seconds
  after_first scenario_first = do
    outcome ← attempt (on_world host.scenario_result)
    conclude_scenario outcome
    stop_and_note

  unfoldable pub run_scenario : Act (Run W) (Unit {0})
  run_scenario = do
    assign (λ s. record s { scenario_task = true })
    first ← on_world (host.wait_first config.duration_seconds)
    after_first first

  unfoldable pub after_duration : Option ℤ → Act (Run W) (Unit {0})
  after_duration (some code) = do
    set_returncode (some code)
    verdict run_failed child_exit_before_duration
  after_duration none = do verdict run_passed duration_over; write duration_elapsed; stop_and_note

  unfoldable pub run_process : Option ℕ → Act (Run W) (Unit {0})
  run_process none = do
    code ← on_world host.wait_process
    set_returncode (some code)
    verdict (exit_status code) child_exit
  run_process (some seconds) = do
    code ← on_world (host.wait_process_for seconds)
    after_duration code

  -- The `try` block.
  unfoldable pub body : Act (Run W) (Unit {0})
  body = do
    write process_starting
    on_world host.spawn
    assign (λ s. record s { started = true })
    write process_started
    if config.has_scenario then run_scenario else run_process config.duration_seconds

  abbrev pub cancel_pending : Run W → Act (Run W) (Unit {0})
  cancel_pending now =
      if now.scenario_task then cancel_scenario config.scenario_cleanup_seconds else pure tt

  -- `except asyncio.CancelledError`
  unfoldable pub interrupt : Act (Run W) (Unit {0})
  interrupt = do
    verdict run_failed interrupted
    now ← get
    cancel_pending now
    if now.started then stop_and_note else pure tt

  -- The `finally` block: the process, the readers, the observers and the last event.
  unfoldable pub stop_leftover : Act (Run W) (Unit {0})
  stop_leftover = do
    now ← get
    if now.started && is_running (host.returncode now.world)
        then (cancel_pending now >> stop_and_note)
        else pure tt

  unfoldable pub note_readers : List (Option Failure) → Act (Run W) (Unit {0})
  note_readers [] = pure tt
  note_readers (none ∷ results) = note_readers results
  note_readers (some f ∷ results) = do
    verdict run_failed reader_failed
    write (output_reader_error f)
    note_readers results

  unfoldable pub join_readers : Act (Run W) (Unit {0})
  join_readers = do
    now ← get
    if now.started
        then (do
          on_world host.stop_sampler
          results ← on_world host.reader_results
          note_readers results)
        else pure tt

  abbrev pub note_close : Unit {0} ⊎ Failure → Act (Run W) (Unit {0})
  note_close (inl u) = pure tt
  note_close (inr f) =
      verdict run_failed observer_close_failed >> write (output_observer_close_error f)

  unfoldable pub close_all : List (Act W (Unit {0})) → Act (Run W) (Unit {0})
  close_all [] = pure tt
  close_all (close ∷ rest) = do closed ← attempt (on_world close); note_close closed; close_all rest

  unfoldable pub finish : Act (Run W) (Unit {0})
  finish = do now ← get; write (process_finished now.status now.reason now.returncode)

  unfoldable pub conclude : Act (Run W) (Unit {0})
  conclude = do stop_leftover; join_readers; close_all host.close_observers; finish

  -- What the handler leaves to be raised.
  abbrev pub handled : Res (Unit {0}) × Run W → Res (Unit {0}) × Run W
  handled (ok u, s) = (ok u, s)
  handled (failed f, s) = (failed f, s)
  handled (cancelled, s) = (interrupt >> lift cancelled) s

  abbrev pub result : Act (Run W) RunResult
  result s =
      (ok (record { status = s.status; reason = s.reason; child_returncode = s.returncode }), s)

  abbrev pub concluded : Res (Unit {0}) × Run W → Res RunResult × Run W
  concluded (r, s) = (conclude >> (lift r >> result)) s

  unfoldable pub supervise : W → Res RunResult × Run W
  supervise world = concluded (handled (body (new_run world)))
