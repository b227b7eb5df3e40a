-- ===== src/Pda/Restoration/Pending.antt =====
-- Which mutations are still pending after a restoration of a PDA panel.
use aqualinkd_validator.Prelude.{ℕ, String, Bool, ◌≡◌, none, some, List, [], ◌∷◌, lookup, Option}
use aqualinkd_validator.Equipment.{
  ℤ, ok, DeviceState, enabled, transitioning, EquipmentSnapshot, require_device,
}
use aqualinkd_validator.Engine.Restoration.Action.{RestorationSession, State, M, pure}
use aqualinkd_validator.Engine.Restoration.{
  touch_device, touch_setpoint, forget_requested_state, mark_requested_state,
}
use aqualinkd_validator.Engine.Restoration.Restore.{restore}
use aqualinkd_validator.Engine.Restoration.Pending.{Preserves, Settled, restore_lem}
use aqualinkd_validator.Engine.Restoration.Logic.{Post}
use aqualinkd_validator.Engine.Restoration.Keeping.{
  Keeping, keep_pure, keep_lift, keep_bind, keep_if,
}
use aqualinkd_validator.Engine.Runtime.{EquipmentRuntime, on_session}
use aqualinkd_validator.Pda.Programmer.{ProgrammerMarkers}
use aqualinkd_validator.Engine.Actions.{
  Timeouts, eq_Bool, is_restoration, has_state, has_setpoint, change_device, set_device,
  set_setpoint, wait_for_device_state,
}
use aqualinkd_validator.Engine.Actions.Keeps.{
  Keeps, has_state-keeps, has_setpoint-keeps, settled_device-keeps,
}
use aqualinkd_validator.Engine.Actions.Performing.{
  Keeps-Concludes, keeps-Shows, perform_lem, on_session_lem, wait_until_lem,
}
use aqualinkd_validator.Engine.Actions.Commands.{
  Command, Leaves, Leaves-keeps, IsRecorded, Sends_lem, IsRecorded-Keeps,
}
use aqualinkd_validator.Pda.Restoration.{
  Progress, PdaRestorationService, PdaRestorationCoordinatorConfig, is_requested, command_device,
  finish_device, await_transition, after_transition, restore_device, restore_setpoint_by, callbacks,
  pda_service,
}
use aqualinkd_validator.Pda.Restoration.Retaining.{
  Retains, Retains-refl, touch_device-Retains, touch_setpoint-Retains, requests-Retains,
  forget-Retains, mark-Retains,
}

module _ {W : Type 0} (commands : W → List Command) (rt : EquipmentRuntime W)
    (law : IsRecorded commands rt) (fuel : ℕ) (before : RestorationSession)
    (progress : Progress → M W (Unit {0})) (quiet : (p : Progress) → Leaves commands (progress p))
    (config : PdaRestorationCoordinatorConfig) where
  abbrev P : RestorationSession → List Command → Type 0
  P session cs = Retains before session

  abbrev I : State W → Type 0
  I s = Retains before s.session

  keeps : Keeps I rt
  keeps = IsRecorded-Keeps commands P law

  abbrev service : PdaRestorationService W
  service = pda_service rt progress fuel config

  update :
      (f : RestorationSession → RestorationSession)
      → ((s : RestorationSession) → Retains before s → Retains before (f s))
      → Keeping I (on_session (λ session. ok (f session)))
  update f still' =
      on_session_lem I I (λ session. ok (f session))
        (λ s next e h. requests-Retains before s.session next f e still' h)

  change_device-keeps :
      (id : String) (on : Bool) (phase : String) (markers : ProgrammerMarkers) (times : Timeouts)
      (label : String)
      → Keeping I (change_device rt fuel id on phase markers times label)
  unfolding change_device
  change_device-keeps id on phase markers times label =
      keep_bind
        (perform_lem rt keeps keeps (Keeps-Concludes keeps) (λ s h. h) fuel _ _ phase _ id _ markers
          times (rt.switch id on) (has_state rt id on)
          (Sends_lem commands P P (law.switch id on) (λ session cs h. h) (λ session cs h. h))
          (keeps-Shows (has_state-keeps rt keeps id on)))
        λ _. keeps.write _

  set_device-keeps :
      (id : String) (on : Bool) (phase : String) (markers : ProgrammerMarkers) (times : Timeouts)
      → Keeping I (set_device rt fuel id on phase markers times)
  unfolding set_device
  set_device-keeps id on phase markers times =
      keep_bind
        (on_session_lem I I (touch_device id)
          (λ s next e h. touch_device-Retains before id s.session next e h))
        λ _.
          keep_bind
            (keep_if (is_restoration phase) (keep_pure tt)
              (update (forget_requested_state id) (forget-Retains before id)))
            λ _. keep_bind (settled_device-keeps rt keeps id phase) λ device.
              keep_bind (keep_lift (enabled device)) λ now.
                keep_if (eq_Bool now on) (keeps.record_skip _ _)
                  (change_device-keeps id on phase markers times _)

  set_setpoint-keeps :
      (id : String) (n : ℤ) (phase category : String) (markers : ProgrammerMarkers)
      (times : Timeouts)
      → Keeping I (set_setpoint rt fuel id n phase category markers times)
  unfolding set_setpoint
  set_setpoint-keeps id n phase category markers times =
      keep_bind
        (on_session_lem I I (touch_setpoint id)
          (λ s next e h. touch_setpoint-Retains before id s.session next e h))
        λ _.
          keep_bind
            (perform_lem rt keeps keeps (Keeps-Concludes keeps) (λ s h. h) fuel _ _ phase _ id _
              markers times (rt.write_setpoint id n) (has_setpoint rt id n)
              (Sends_lem commands P P (law.write_setpoint id n) (λ session cs h. h)
                (λ session cs h. h))
              (keeps-Shows (has_setpoint-keeps rt keeps id n)))
            λ _. keep_pure tt

  tell : (p : Progress) → Keeping I (progress p)
  tell p = Leaves-keeps commands P (quiet p)

  finish_device-keeps :
      (id : String) (on : Bool) (device : DeviceState) (r : Option Bool)
      → Keeping I (finish_device service id on device r)
  unfolding finish_device command_device pda_service wait_for_device_state
  finish_device-keeps id on device r = keep_bind (keep_lift (enabled device)) λ now.
      keep_if (eq_Bool now on) (keep_pure tt) (
        keep_if (is_requested on r)
          (keep_bind (tell _) λ _.
            keep_bind
              (keep_bind
                (wait_until_lem rt keeps (Keeps-Concludes keeps) fuel (pure tt)
                  config.timeout_seconds (has_state rt id on) _ (keep_pure tt)
                  (keeps-Shows (has_state-keeps rt keeps id on)))
                λ _. keep_pure tt)
              λ _. tell _)
          (keep_bind (update (mark_requested_state id on) (mark-Retains before id on))
            λ _. set_device-keeps id on _ config.device_markers _))

  restore_device-keeps : (id : String) (on : Bool) → Keeping I (restore_device service id on)
  unfolding restore_device await_transition after_transition pda_service
  restore_device-keeps id on = keep_bind keeps.devices λ snapshot.
      keep_bind (keep_lift (require_device snapshot id)) λ device.
        keep_bind (record { at = λ s h. h })
          λ now. keep_bind (keep_lift (transitioning device)) λ moving.
            keep_if moving
              (keep_bind
                (keep_bind (tell _) λ _.
                  keep_bind (keeps.wait_for_stable (id ∷ []) _ snapshot _)
                    λ stable. keep_lift (require_device stable id))
                λ settled.
                  keep_bind (keep_lift (enabled settled)) λ now'.
                    keep_if (eq_Bool now' on) (tell _) (finish_device-keeps id on settled _))
              (finish_device-keeps id on device _)

  restore_setpoint-keeps :
      (id : String) (n : ℤ) (markers : Option ProgrammerMarkers)
      → Keeping I (restore_setpoint_by rt progress fuel config markers id n)
  unfolding restore_setpoint_by
  restore_setpoint-keeps id n none = keep_lift _
  restore_setpoint-keeps id n (some markers) = set_setpoint-keeps id n _ _ markers _

  callbacks-Preserves : Preserves I (callbacks service)
  unfolding pda_service
  callbacks-Preserves = record {
    read = keeps.devices;
    write = λ id n. restore_setpoint-keeps id n (lookup id config.setpoint_markers);
    switch = restore_device-keeps;
  }

-- After the restoration of a PDA panel by its own actions, over an API and a console that leave the
-- session alone: if it returned no error, nothing is pending; if it returned an error, raised or
-- was cancelled, every device and setpoint that was touched before is still touched, and the
-- initial snapshot is the same, so that it can be tried again. (A session has an initial snapshot
-- when something was touched.)
pub restore-Settled :
    {W : Type 0} (commands : W → List Command) (rt : EquipmentRuntime W)
    (progress : Progress → M W (Unit {0})) (config : PdaRestorationCoordinatorConfig)
    → IsRecorded commands rt
    → ((p : Progress) → Leaves commands (progress p))
    → (fuel : ℕ) (s : State W) (snapshot : EquipmentSnapshot)
    → s.session.initial_snapshot ≡ some snapshot
    → Post
        (Settled
          (λ t. Retains s.session t.session)
          (callbacks (pda_service rt progress fuel config)))
        (λ t. Retains s.session t.session)
        (restore (callbacks (pda_service rt progress fuel config)) s)
restore-Settled commands rt progress config law quiet fuel s snapshot e =
    restore_lem (λ t. Retains s.session t.session) (callbacks (pda_service rt progress fuel config))
      (callbacks-Preserves commands rt law fuel s.session progress quiet config) s snapshot e
      (Retains-refl s.session)
