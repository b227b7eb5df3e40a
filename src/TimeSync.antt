-- ===== src/TimeSync.antt =====
-- The clock arithmetic and the synchronisation of aqualinkd_validator/protocols/time_sync.py.
-- Times of a day are in microseconds; the parsing of panel times and the dates are the library's.
pub mod Distance
pub mod Restore
use aqualinkd_validator.Prelude.{
  ℕ, zero, suc, ◌+◌, ◌-◌, ◌*◌, ◌/◌, ◌%◌, String, Bool, true, false, not, ◌||◌, ◌&&◌, Option, none,
  some, if◌then◌else◌, ltb, leb, ◌==◌,
}
use aqualinkd_validator.Equipment.{ℤ, pos, Failure, callback, out_of_fuel, Res, ok, failed}
use aqualinkd_validator.Engine.Restoration.Action.{State, M, pure, lift, get, ◌>>=◌, ◌>>◌}
use aqualinkd_validator.Engine.Runtime.{EquipmentRuntime}
use aqualinkd_validator.Pda.Programmer.{Marker, wait_for_active, wait_for_completion}

-- What a `datetime` has of a day.
pub record Clock : Type 0 where
  pub hour : ℕ
  pub minute : ℕ
  pub second : ℕ
  pub microsecond : ℕ

abbrev pub minutes : Clock → ℕ
minutes c = c.hour * 60 + c.minute

-- `(panel_minutes - expected_minutes + 720) % 1440`, a day added so that it is not negative.
abbrev pub shifted_delta : ℕ → ℕ → ℕ
shifted_delta panel expected = (panel + 720 + 1440 - expected) % 1440

abbrev pub distance : ℕ → ℕ → ℕ
distance a b = if leb a b then b - a else a - b

-- `abs(_boundary_error_seconds(…))`, in microseconds.
unfoldable pub boundary_error : Clock → Clock → ℕ
boundary_error panel expected =
    let delta = shifted_delta (minutes panel) (minutes expected) in
    let past = expected.second * 1000000 + expected.microsecond in
    if leb 720 delta
    then distance past ((delta - 720) * 60000000)
    else past + (720 - delta) * 60000000

-- `round`, in seconds: a half goes to the even side.
abbrev pub round_seconds : ℕ → ℕ
round_seconds n =
    let q = n / 1000000 in
    let r = n % 1000000 in if ltb 500000 r || r == 500000 && q % 2 == 1 then q + 1 else q

unfoldable pub panel_time_difference : Clock → Clock → ℕ
panel_time_difference panel expected =
    let difference = round_seconds (boundary_error panel expected) in
    let rest = 86400 - difference in if leb difference rest then difference else rest

-- `ProcessTimeController`, and the world behind it.
pub record Controlled (V : Type 0) : Type 0 where
  pub offset_seconds : ℤ
  pub panel_requires_restore : Bool
  pub panel : V

pub record PanelTimeSyncConfig : Type 0 where
  pub task_name : String
  pub active_marker : Marker
  pub finished_marker : Marker
  pub poll_seconds : ℕ
  pub convergence_tolerance_seconds : ℕ
  pub activation_timeout_seconds : ℕ
  pub action_timeout_seconds : ℕ

-- The API, the clocks and the log.
pub record PanelTimeSyncValidator (V : Type 0) : Type 0 where
  pub runtime : EquipmentRuntime (Controlled V)
  pub config : PanelTimeSyncConfig
  -- `/api/status`, as far as its panel time could be read
  pub panel_time : M (Controlled V) Clock
  -- `PUT /api/set_date_time`
  pub set_date_time : M (Controlled V) (Unit {0})
  -- `datetime.now(timezone) + timedelta(seconds=offset_seconds)`
  pub now : ℤ → M (Controlled V) Clock

unfoldable pub set_offset : {V : Type 0} → ℤ → M (Controlled V) (Unit {0})
set_offset seconds s = (ok tt, record s { world = record s.world { offset_seconds = seconds } })

unfoldable pub mark_panel_restored : {V : Type 0} → M (Controlled V) (Unit {0})
mark_panel_restored s =
    (ok tt, record s { world = record s.world { panel_requires_restore = false } })

abbrev pub not_converged_time : Failure
not_converged_time = callback "Panel clock did not converge to the expected process time"

module _ {V : Type 0} (validator : PanelTimeSyncValidator V) where
  unfoldable pub read_difference : ℤ → M (Controlled V) ℕ
  read_difference offset = do
    panel ← validator.panel_time
    expected ← validator.now offset
    pure (panel_time_difference panel expected)

  -- The `while True` of `_wait_for_time`.
  unfoldable pub poll_time : ℕ → ℤ → ℕ → M (Controlled V) ℕ
  poll_time zero offset deadline = lift (failed out_of_fuel)
  poll_time (suc fuel) offset deadline = do
    difference ← read_difference offset
    if leb difference validator.config.convergence_tolerance_seconds then pure difference else (do
      time ← validator.runtime.time
      if leb deadline time then lift (failed not_converged_time) else (do
        validator.runtime.sleep validator.config.poll_seconds
        poll_time fuel offset deadline))

  unfoldable pub wait_for_time : ℕ → ℤ → M (Controlled V) ℕ
  wait_for_time fuel offset = do
    start ← validator.runtime.time
    poll_time fuel offset (start + validator.config.action_timeout_seconds)

  -- The panel's difference at the end.
  unfoldable pub force_sync : ℕ → M (Controlled V) ℕ
  force_sync fuel = do
    requested ← validator.runtime.offset_ns
    cursor ← validator.runtime.cursor
    validator.set_date_time
    active ←
        wait_for_active validator.runtime validator.config.task_name validator.config.active_marker
          cursor requested validator.config.activation_timeout_seconds
    completed ←
        wait_for_completion validator.runtime validator.config.task_name
          validator.config.finished_marker active validator.config.action_timeout_seconds
    wait_for_time fuel (pos 0)

  unfoldable pub restore : ℕ → M (Controlled V) (Unit {0})
  restore fuel = do
    set_offset (pos 0)
    now ← get
    if now.world.panel_requires_restore
        then (do difference ← force_sync fuel; mark_panel_restored)
        else pure tt
