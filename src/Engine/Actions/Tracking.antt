-- ===== src/Engine/Actions/Tracking.antt =====
-- The session knows every device and every setpoint that an action asked the API to change.
use aqualinkd_validator.Prelude.{
  ℕ, String, Bool, true, ◌≡◌, List, ◌∷◌, inl, inr, All, All-map, subst, contains, add_key,
  contains-add_key, contains-add_key_self,
}
use aqualinkd_validator.Equipment.{ℤ, ok, failed, cancelled, enabled, Res-cases}
use aqualinkd_validator.Engine.Restoration.Action.{RestorationSession, State}
use aqualinkd_validator.Engine.Restoration.{
  touch_device, touch_setpoint, forget_requested_state, require_initial_device,
}
use aqualinkd_validator.Engine.Restoration.Logic.{Post-any, Triple, Triple-bind}
use aqualinkd_validator.Engine.Restoration.Keeping.{
  Keeping, keep_pure, keep_lift, keep_bind, keep_if, keep_weaken,
}
use aqualinkd_validator.Engine.Runtime.{EquipmentRuntime, on_session}
use aqualinkd_validator.Pda.Programmer.{ProgrammerMarkers}
use aqualinkd_validator.Engine.Actions.{
  Timeouts, eq_Bool, forget, is_restoration, has_state, has_setpoint, change_device, set_device,
  set_setpoint,
}
use aqualinkd_validator.Engine.Actions.Keeps.{
  Keeps, has_state-keeps, has_setpoint-keeps, settled_device-keeps,
}
use aqualinkd_validator.Engine.Actions.Performing.{
  Keeps-Concludes, keeps-Shows, perform_lem, on_session_lem,
}
use aqualinkd_validator.Engine.Actions.Commands.{
  Command, switched, written, IsRecorded, On, Sends_lem, IsRecorded-Keeps,
}

abbrev pub IsTouched : RestorationSession → Command → Type 0
IsTouched session (switched id on) = contains session.touched_devices id ≡ true
IsTouched session (written id n) = contains session.touched_setpoints id ≡ true

-- Every command was for something that the session knows to be touched.
abbrev pub Tracked : RestorationSession → List Command → Type 0
Tracked session commands = All (IsTouched session) commands

-- The same, where this one is touched.
abbrev Ready : Command → RestorationSession → List Command → Type 0
Ready command session commands = Tracked session commands × IsTouched session command

ok_inj : {A : Type 0} {a b : A} → ok a ≡ ok b → a ≡ b
ok_inj h = cc

abbrev with_device : String → RestorationSession → RestorationSession
with_device id session = record session { touched_devices = add_key session.touched_devices id }

abbrev with_setpoint : String → RestorationSession → RestorationSession
with_setpoint id session = record session {
  touched_setpoints = add_key session.touched_setpoints id;
}

touch_device-Ready :
    (id : String) (on : Bool) (session next : RestorationSession) (cs : List Command)
    → touch_device id session ≡ ok next
    → Tracked session cs
    → Ready (switched id on) next cs
unfolding touch_device
touch_device-Ready id on session next cs e h =
    elim (Res-cases (require_initial_device session id)) [
      | inl (device, r) ↦
          let same : ok (with_device id session) ≡ ok next = rw (r, touch_device) at e in
          subst (λ next'. Ready (switched id on) next' cs) (ok_inj same)
            (
              All-map (IsTouched session) (IsTouched (with_device id session)) still cs h,
              contains-add_key_self session.touched_devices id,
            )
      | inr (inl (f, r)) ↦ let q : failed f ≡ ok next = rw (r, touch_device) at e in absurd (cc q)
      | inr (inr r) ↦ let q : cancelled ≡ ok next = rw (r, touch_device) at e in absurd (cc q)
    ]
  where
    still : (c : Command) → IsTouched session c → IsTouched (with_device id session) c
    still (switched k on) t = contains-add_key session.touched_devices id k t
    still (written k n) t = t

touch_setpoint-Ready :
    (id : String) (n : ℤ) (session next : RestorationSession) (cs : List Command)
    → touch_setpoint id session ≡ ok next
    → Tracked session cs
    → Ready (written id n) next cs
unfolding touch_setpoint
touch_setpoint-Ready id n session next cs e h =
    elim (Res-cases (require_initial_device session id)) [
      | inl (device, r) ↦
          let same : ok (with_setpoint id session) ≡ ok next = rw (r, touch_setpoint) at e in
          subst (λ next'. Ready (written id n) next' cs) (ok_inj same)
            (
              All-map (IsTouched session) (IsTouched (with_setpoint id session)) still cs h,
              contains-add_key_self session.touched_setpoints id,
            )
      | inr (inl (f, r)) ↦ let q : failed f ≡ ok next = rw (r, touch_setpoint) at e in absurd (cc q)
      | inr (inr r) ↦ let q : cancelled ≡ ok next = rw (r, touch_setpoint) at e in absurd (cc q)
    ]
  where
    still : (c : Command) → IsTouched session c → IsTouched (with_setpoint id session) c
    still (switched k on) t = t
    still (written k m) t = contains-add_key session.touched_setpoints id k t

module _ {W : Type 0} (commands : W → List Command) (rt : EquipmentRuntime W)
    (law : IsRecorded commands rt) where
  abbrev AtReady : Command → State W → Type 0
  AtReady command = On commands (Ready command)

  ready-Keeps : (command : Command) → Keeps (AtReady command) rt
  ready-Keeps command = IsRecorded-Keeps commands (Ready command) law

  forget-Ready :
      (phase id : String) (command : Command) → Keeping (AtReady command) (forget phase id)
  unfolding on_session forget_requested_state
  forget-Ready phase id command =
      keep_if (is_restoration phase) (keep_pure tt) (record { at = λ s h. same command s h })
    where
      same_All :
          (session : RestorationSession) (cs : List Command)
          → Tracked session cs
          → Tracked (forget_requested_state id session) cs
      same_All session cs h =
          All-map (IsTouched session) (IsTouched (forget_requested_state id session)) same_one cs h
        where
          same_one :
              (c : Command) → IsTouched session c → IsTouched (forget_requested_state id session) c
          same_one (switched k on) t = t
          same_one (written k n) t = t

      same :
          (command : Command) (s : State W)
          → AtReady command s
          → AtReady command (record s { session = forget_requested_state id s.session })
      same (switched k on) s (h, t) = (same_All s.session (commands s.world) h, t)
      same (written k n) s (h, t) = (same_All s.session (commands s.world) h, t)

  send_Ready :
      (session : RestorationSession) (command : Command) (cs : List Command)
      → Ready command session cs
      → Ready command session (command ∷ cs)
  send_Ready session command cs (h, t) = ((t, h), t)

  change_device-Ready :
      (fuel : ℕ) (id : String) (on : Bool) (phase : String) (markers : ProgrammerMarkers)
      (times : Timeouts) (label : String)
      → Keeping (AtReady (switched id on)) (change_device rt fuel id on phase markers times label)
  unfolding change_device
  change_device-Ready fuel id on phase markers times label =
      let keeps = ready-Keeps (switched id on) in
      keep_bind
        (perform_lem rt keeps keeps (Keeps-Concludes keeps) (λ s h. h) fuel _ _ phase _ id _ markers
          times (rt.switch id on) (has_state rt id on)
          (Sends_lem commands (Ready (switched id on)) (Ready (switched id on)) (law.switch id on)
            (λ session cs h. h) (λ session cs h. send_Ready session (switched id on) cs h))
          (keeps-Shows (has_state-keeps rt keeps id on)))
        λ _. keeps.write _

  set_device-Ready :
      (fuel : ℕ) (id : String) (on : Bool) (phase : String) (markers : ProgrammerMarkers)
      (times : Timeouts)
      → Triple
          (On commands Tracked)
          (set_device rt fuel id on phase markers times)
          (λ _. On commands Tracked)
          (On commands Tracked)
  unfolding set_device
  set_device-Ready fuel id on phase markers times =
      let keeps = ready-Keeps (switched id on) in
      Triple-bind (λ _. AtReady (switched id on))
        (on_session_lem (On commands Tracked) (AtReady (switched id on)) (touch_device id)
          (λ s next e h. touch_device-Ready id on s.session next (commands s.world) e h))
        λ _.
          keep_weaken (λ s h. h.0)
            (keep_bind (forget-Ready phase id (switched id on)) λ _.
              keep_bind (settled_device-keeps rt keeps id phase) λ device.
                keep_bind (keep_lift (enabled device)) λ now.
                  keep_if (eq_Bool now on) (keeps.record_skip _ _)
                    (change_device-Ready fuel id on phase markers times _))

  set_setpoint-Ready :
      (fuel : ℕ) (id : String) (n : ℤ) (phase category : String) (markers : ProgrammerMarkers)
      (times : Timeouts)
      → Triple
          (On commands Tracked)
          (set_setpoint rt fuel id n phase category markers times)
          (λ _. On commands Tracked)
          (On commands Tracked)
  unfolding set_setpoint
  set_setpoint-Ready fuel id n phase category markers times =
      let keeps = ready-Keeps (written id n) in
      Triple-bind (λ _. AtReady (written id n))
        (on_session_lem (On commands Tracked) (AtReady (written id n)) (touch_setpoint id)
          (λ s next e h. touch_setpoint-Ready id n s.session next (commands s.world) e h))
        λ _.
          keep_weaken (λ s h. h.0)
            (keep_bind
              (perform_lem rt keeps keeps (Keeps-Concludes keeps) (λ s h. h) fuel _ _ phase _ id _
                markers times (rt.write_setpoint id n) (has_setpoint rt id n)
                (Sends_lem commands (Ready (written id n)) (Ready (written id n))
                  (law.write_setpoint id n) (λ session cs h. h)
                  (λ session cs h. send_Ready session (written id n) cs h))
                (keeps-Shows (has_setpoint-keeps rt keeps id n)))
              λ _. keep_pure tt)

  -- Over an API whose commands are recorded, an action that starts when every command so far was
  -- for something touched ends so, whether it returns, raises or is cancelled.
  pub actions-Tracked :
      (fuel : ℕ) (id : String) (phase category : String) (markers : ProgrammerMarkers)
      (times : Timeouts) (s : State W)
      → On commands Tracked s
      → ((on : Bool) → On commands Tracked (set_device rt fuel id on phase markers times s).1)
        × ((n : ℤ)
            → On commands Tracked (set_setpoint rt fuel id n phase category markers times s).1)
  actions-Tracked fuel id phase category markers times s h = (
    λ on.
        Post-any (On commands Tracked) (set_device rt fuel id on phase markers times s)
          ((set_device-Ready fuel id on phase markers times).at s h),
    λ n.
        Post-any (On commands Tracked) (set_setpoint rt fuel id n phase category markers times s)
          ((set_setpoint-Ready fuel id n phase category markers times).at s h),
  )
