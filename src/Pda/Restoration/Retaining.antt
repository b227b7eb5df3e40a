-- ===== src/Pda/Restoration/Retaining.antt =====
-- What a session retains of an earlier one: its initial snapshot and what was touched.
use aqualinkd_validator.Prelude.{
  String, Bool, ◌≡◌, refl, List, [], ◌∷◌, All, All-map, inl, inr, subst, contains, add_key,
  contains-add_key, true, arith,
}
use aqualinkd_validator.Equipment.{ok, failed, cancelled, Res-cases}
use aqualinkd_validator.Engine.Restoration.Action.{RestorationSession}
use aqualinkd_validator.Engine.Restoration.{
  touch_device, touch_setpoint, forget_requested_state, mark_requested_state,
  require_initial_device,
}
use text.Mathlib.TextPositions.{eq_refl}

-- A later session knows what an earlier one knew to be touched, and has its initial snapshot.
pub record Retains (before now : RestorationSession) : Type 0 where
  pub initial : now.initial_snapshot ≡ before.initial_snapshot
  pub devices : All (λ id. contains now.touched_devices id ≡ true) before.touched_devices
  pub setpoints : All (λ id. contains now.touched_setpoints id ≡ true) before.touched_setpoints

contains-All :
    (earlier keys : List String)
    → ((id : String) → contains earlier id ≡ true → contains keys id ≡ true)
    → All (λ id. contains keys id ≡ true) earlier
contains-All [] keys h = tt
contains-All (id ∷ ids) keys h =
    (h id (ground (arith, eq_refl id)), contains-All ids keys (λ k c. h k (ground arith)))

pub Retains-refl : (session : RestorationSession) → Retains session session
Retains-refl session = record {
  initial = refl;
  devices = contains-All session.touched_devices session.touched_devices (λ id h. h);
  setpoints = contains-All session.touched_setpoints session.touched_setpoints (λ id h. h);
}

ok_inj : {A : Type 0} {a b : A} → ok a ≡ ok b → a ≡ b
ok_inj h = cc

still :
    (id : String) (keys earlier : List String)
    → All (λ k. contains keys k ≡ true) earlier
    → All (λ k. contains (add_key keys id) k ≡ true) earlier
still id keys earlier h =
    All-map (λ k. contains keys k ≡ true) (λ k. contains (add_key keys id) k ≡ true)
      (λ k t. contains-add_key keys id k t) earlier h

module _ (before : RestorationSession) where
  pub touch_device-Retains :
      (id : String) (session next : RestorationSession)
      → touch_device id session ≡ ok next
      → Retains before session
      → Retains before next
  unfolding touch_device
  touch_device-Retains id session next e h = elim (Res-cases (require_initial_device session id)) [
    | inl (device, r) ↦
        let touched : RestorationSession = record session {
          touched_devices = add_key session.touched_devices id;
        } in
        let same : ok touched ≡ ok next = rw (r, touch_device) at e in
        subst (Retains before) (ok_inj same) (record {
          initial = h.initial;
          devices = still id session.touched_devices before.touched_devices h.devices;
          setpoints = h.setpoints;
        })
    | inr (inl (f, r)) ↦ let q : failed f ≡ ok next = rw (r, touch_device) at e in absurd (cc q)
    | inr (inr r) ↦ let q : cancelled ≡ ok next = rw (r, touch_device) at e in absurd (cc q)
  ]

  pub touch_setpoint-Retains :
      (id : String) (session next : RestorationSession)
      → touch_setpoint id session ≡ ok next
      → Retains before session
      → Retains before next
  unfolding touch_setpoint
  touch_setpoint-Retains id session next e h =
      elim (Res-cases (require_initial_device session id)) [
        | inl (device, r) ↦
            let touched : RestorationSession = record session {
              touched_setpoints = add_key session.touched_setpoints id;
            } in
            let same : ok touched ≡ ok next = rw (r, touch_setpoint) at e in
            subst (Retains before) (ok_inj same) (record {
              initial = h.initial;
              devices = h.devices;
              setpoints = still id session.touched_setpoints before.touched_setpoints h.setpoints;
            })
        | inr (inl (f, r)) ↦
            let q : failed f ≡ ok next = rw (r, touch_setpoint) at e in absurd (cc q)
        | inr (inr r) ↦ let q : cancelled ≡ ok next = rw (r, touch_setpoint) at e in absurd (cc q)
      ]

  -- What is requested does not matter.
  pub requests-Retains :
      (session next : RestorationSession) (f : RestorationSession → RestorationSession)
      → ok (f session) ≡ ok next
      → ((s : RestorationSession) → Retains before s → Retains before (f s))
      → Retains before session
      → Retains before next
  requests-Retains session next f e keeps h = subst (Retains before) (ok_inj e) (keeps session h)

  pub forget-Retains :
      (id : String) (s : RestorationSession)
      → Retains before s
      → Retains before (forget_requested_state id s)
  unfolding forget_requested_state
  forget-Retains id s h = record {
    initial = h.initial;
    devices = h.devices;
    setpoints = h.setpoints;
  }

  pub mark-Retains :
      (id : String) (on : Bool) (s : RestorationSession)
      → Retains before s
      → Retains before (mark_requested_state id on s)
  unfolding mark_requested_state
  mark-Retains id on s h = record {
    initial = h.initial;
    devices = h.devices;
    setpoints = h.setpoints;
  }
