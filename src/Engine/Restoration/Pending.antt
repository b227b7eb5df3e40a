-- ===== src/Engine/Restoration/Pending.antt =====
-- What a restoration keeps, and what it leaves pending.
use aqualinkd_validator.Prelude.{
  String, ◌≡◌, refl, sym, subst, Bool, true, false, not, ◌&&◌, none, some, [], map, if◌then◌else◌,
  contains, text_le,
}
use aqualinkd_validator.Prelude.Sorting.{sort}
use aqualinkd_validator.Equipment.{ℤ, enabled, setpoint, EquipmentSnapshot, require_device}
use aqualinkd_validator.Engine.Restoration.Action.{
  RestorationSession, State, Callbacks, pure, ◌>>=◌,
}
use aqualinkd_validator.Engine.Restoration.{
  initial_device_enabled, require_original_setpoint, keys_of, key_le, RestorationResult, begin_case,
}
use aqualinkd_validator.Engine.Restoration.Restore.{
  same_setpoint, Progress, no_progress, heaters_of, disable_heater, after_disable, safety_step,
  write_setpoint, after_setpoint, setpoint_step, write_state, after_state, state_step, clear,
  no_errors, key_id, restore_states, restore_setpoints, restore_all, restore_from, restore,
}
use aqualinkd_validator.Engine.Restoration.Keeping.{
  Keeping, keep_pure, keep_lift, keep_bind, keep_try, keep_if,
}
use aqualinkd_validator.Engine.Restoration.Logic.{Post, Triple, Triple-bind, Triple-for_each}

-- The callbacks keep `I`, however they end.
pub record Preserves {W : Type 0} (I : State W → Type 0) (cb : Callbacks W) : Type 0 where
  pub read : Triple I cb.read_snapshot (λ _. I) I
  pub write : (id : String) (n : ℤ) → Triple I (cb.restore_setpoint id n) (λ _. I) I
  pub switch : (id : String) (on : Bool) → Triple I (cb.restore_device id on) (λ _. I) I

-- The loops of a restoration keep what the callbacks keep.
module _ {W : Type 0} (I : State W → Type 0) (cb : Callbacks W) (keeps : Preserves I cb) where
  safety_step-keeps : (id : String) (p : Progress) → Keeping I (safety_step cb id p)
  unfolding safety_step disable_heater
  safety_step-keeps id p = keep_try (after_disable cb id p) (
      keep_bind keeps.read λ snapshot. keep_bind (keep_lift (require_device snapshot id)) λ device.
        keep_bind (keep_lift (enabled device)) λ on.
          keep_if on (keep_bind (keeps.switch id false) (λ _. keep_pure true)) (keep_pure false))

  setpoint_step-keeps : (id : String) (p : Progress) → Keeping I (setpoint_step cb id p)
  unfolding setpoint_step write_setpoint
  setpoint_step-keeps id p = keep_if (contains p.unsafe id) (keep_pure p) (
      keep_try (after_setpoint cb id p) (
        keep_bind (record { at = λ s h. h })
          λ now. keep_bind (keep_lift (require_original_setpoint now.session id)) λ original.
            keep_bind keeps.read λ snapshot.
              keep_bind (keep_lift (require_device snapshot id)) λ device.
                keep_bind (keep_lift (setpoint device)) λ current.
                  keep_if (same_setpoint original current) (keep_pure original)
                    (keep_bind (keeps.write id original) (λ _. keep_pure original))))

  state_step-keeps : (id : String) (p : Progress) → Keeping I (state_step cb id p)
  unfolding state_step write_state
  state_step-keeps id p = keep_try (after_state cb id p) (
      keep_bind (record { at = λ s h. h })
        λ now. keep_bind (keep_lift (initial_device_enabled now.session id)) λ expected.
          keep_if (contains p.predisabled id && not expected) (keep_pure none)
            (keep_bind (keeps.switch id expected) (λ _. keep_pure (some expected))))

-- No mutation is pending.
pub record IsSettled (session : RestorationSession) : Type 0 where
  pub devices : session.touched_devices ≡ []
  pub setpoints : session.touched_setpoints ≡ []

begin_case-IsSettled : (session : RestorationSession) → IsSettled (begin_case session)
unfolding begin_case
begin_case-IsSettled session = record { devices = refl; setpoints = refl }

-- A restoration that returned a result: nothing is pending if there was no error.
abbrev pub Settled :
    {W : Type 0} → (State W → Type 0) → Callbacks W → RestorationResult → State W → Type 0
Settled I cb r s = if no_errors cb r.errors then IsSettled s.session else I s

module _ {W : Type 0} (I : State W → Type 0) (cb : Callbacks W) (keeps : Preserves I cb) where
  finish :
      (done : Bool) (r : RestorationResult)
      → no_errors cb r.errors ≡ done
      → Triple I ((if done then clear cb else pure tt) >>= λ _. pure r) (Settled I cb) I
  unfolding ◌>>=◌
  finish true r e = record { at = λ s h. rw e (begin_case-IsSettled s.session) }
  finish false r e = record { at = λ s h. rw e h }

  restore_states_lem : (p : Progress) → Triple I (restore_states cb p) (Settled I cb) I
  unfolding restore_states
  restore_states_lem p =
      Triple-bind (λ _. I) (record { at = λ s h. h })
        λ s₃.
          Triple-bind (λ _. I) (keep_lift (keys_of s₃.session s₃.session.touched_devices))
            λ keys.
              Triple-bind (λ _. I)
                (Triple-for_each (λ _. I) (state_step-keeps I cb keeps)
                  (map (key_id cb) (sort key_le keys)) p)
                λ p₃.
                  finish (no_errors cb p₃.errors)
                    (record { actions = p₃.actions; errors = p₃.errors }) refl

  restore_all_lem : Triple I (restore_all cb) (Settled I cb) I
  unfolding restore_all restore_setpoints
  restore_all_lem =
      Triple-bind (λ _. I) (record { at = λ s h. h })
        λ s₁.
          Triple-bind (λ _. I)
            (Triple-for_each (λ _. I) (safety_step-keeps I cb keeps)
              (sort text_le (heaters_of s₁.session.touched_setpoints)) no_progress)
            λ p₁.
              Triple-bind (λ _. I) (record { at = λ s h. h })
                λ s₂.
                  Triple-bind (λ _. I)
                    (Triple-for_each (λ _. I) (setpoint_step-keeps I cb keeps)
                      (sort text_le s₂.session.touched_setpoints) p₁)
                    λ p₂. restore_states_lem p₂

  -- Over callbacks that keep a condition, a restoration of a captured session keeps it, but for
  -- what it clears at its end where there was no error.
  pub restore_lem :
      (s : State W) (snapshot : EquipmentSnapshot)
      → s.session.initial_snapshot ≡ some snapshot
      → I s
      → Post (Settled I cb) I (restore cb s)
  unfolding restore
  restore_lem s snapshot e h =
      subst (λ o. Post (Settled I cb) I (restore_from cb o s)) (sym e) (restore_all_lem.at s h)
