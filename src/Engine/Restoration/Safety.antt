-- ===== src/Engine/Restoration/Safety.antt =====
-- A restoration never writes a heater's setpoint while the heater is on.
use aqualinkd_validator.Prelude.{
  String, ◌≡◌, refl, ◌∙◌, sym, ap, subst, Bool, true, false, ◌&&◌, List, [], ◌∷◌, ◌⊎◌, inl, inr,
  if◌then◌else◌, contains, contains-add_key, contains-add_key_self, add_key, All, Bool-cases,
  str_eq, eq_iff,
}
use aqualinkd_validator.Equipment.{
  ℤ, Failure, Res, ok, failed, cancelled, DeviceState, enabled, setpoint, EquipmentSnapshot,
  require_device,
}
use aqualinkd_validator.Engine.Restoration.Action.{State, Callbacks, pure, lift, ◌>>◌}
use aqualinkd_validator.Engine.Restoration.{is_heater, require_original_setpoint}
use aqualinkd_validator.Engine.Restoration.Restore.{
  Progress, for_each, same_setpoint, disable_heater, after_disable, safety_step, write_setpoint,
}
use aqualinkd_validator.Engine.Restoration.Logic.{
  Post-intro, Attempted, Triple-weaken, Triple, Triple-pure, Triple-lift, Triple-attempt,
  Triple-bind,
}
use aqualinkd_validator.Engine.Restoration.Panel.{Panel, IsLawful}

-- The items of a list that a loop has gone through, before those done already.
abbrev pub onto {ℓ} : {A : Type ℓ} → List A → List A → List A
onto [] done = done
onto (x ∷ xs) done = onto xs (x ∷ done)

pub All-onto {ℓ κ} :
    {A : Type ℓ} (P : A → Type κ) (xs done : List A) → All P (onto xs done) → All P xs × All P done
All-onto P [] done h = (tt, h)
All-onto P (x ∷ xs) done h = let (ps, qs) = All-onto P xs (x ∷ done) h in ((qs.0, ps), qs.1)

unit_eq : (u : Unit {0}) → tt ≡ u
unit_eq tt = refl

module _ {W : Type 0} (panel : Panel W) (cb : Callbacks W) (law : IsLawful panel cb) where
  abbrev pub Calm : State W → Type 0
  Calm s = panel.hazard s.world ≡ false

  -- The heater is off, or its setpoint will be left alone.
  abbrev pub Covered : List String → State W → String → Type 0
  Covered unsafe s id = (contains unsafe id ≡ true) ⊎ (panel.is_on s.world id ≡ false)

  -- What a call about one device leaves as it was.
  abbrev Same : String → State W → State W → Type 0
  Same id s s' =
      (panel.hazard s'.world ≡ panel.hazard s.world)
      × (s'.session.touched_setpoints ≡ s.session.touched_setpoints)
      × ((other : String)
          → str_eq id other ≡ false
          → panel.is_on s'.world other ≡ panel.is_on s.world other)

  Same-of_eq : (id : String) (s s' : State W) → s' ≡ s → Same id s s'
  Same-of_eq id s s' e = rw e (refl, refl, λ other h. refl)

  Same-switch :
      (id : String) (on : Bool) (s s' : State W) → s' ≡ s → Same id s (cb.restore_device id on s').1
  Same-switch id on s s' e =
      rw e (law.device_hazard s id on, law.device_touched s id on, law.device_others s id on)

  -- What the first part of `disable_heater` found out.
  abbrev Read : State W → EquipmentSnapshot → String → DeviceState → Bool → State W → Type 0
  Read s₀ snapshot id device on s =
      (((s ≡ s₀) × ((cb.read_snapshot s₀).0 ≡ ok snapshot))
        × (require_device snapshot id ≡ ok device))
      × (enabled device ≡ ok on)

  abbrev Off : String → State W → Bool → State W → Type 0
  Off id s₀ _ s = Same id s₀ s × (panel.is_on s.world id ≡ false)

  switch-Off :
      (id : String) (s₀ : State W) (snapshot : EquipmentSnapshot) (device : DeviceState) (on : Bool)
      → Triple
          (Read s₀ snapshot id device on)
          (if on then (cb.restore_device id false >> pure true) else pure false)
          (Off id s₀)
          (Same id s₀)
  switch-Off id s₀ snapshot device true =
      Triple-bind (λ _. Off id s₀ true)
        (record {
          at = λ s h.
              Post-intro (λ _. Off id s₀ true) (Same id s₀) (cb.restore_device id false s)
                (λ u r. (
                  Same-switch id false s₀ s h.0.0.0,
                  law.device_sets s id false (r ∙ ap ok (sym (unit_eq u))),
                ))
                (Same-switch id false s₀ s h.0.0.0);
        })
        λ u. Triple-pure true (Off id s₀) (λ s h. h)
  switch-Off id s₀ snapshot device false = Triple-pure false (Off id s₀) λ s h. (
    Same-of_eq id s₀ s h.0.0.0,
    rw h.0.0.0 (law.read_true s₀ snapshot id device false h.0.0.1 h.0.1 h.1),
  )

  disable_heater_lem :
      (id : String) (s₀ : State W)
      → Triple (λ s. s ≡ s₀) (disable_heater cb id) (Off id s₀) (Same id s₀)
  unfolding disable_heater
  disable_heater_lem id s₀ =
      Triple-bind (λ snapshot s. (s ≡ s₀) × ((cb.read_snapshot s₀).0 ≡ ok snapshot))
        (record {
          at = λ s e.
              Post-intro (λ snapshot s. (s ≡ s₀) × ((cb.read_snapshot s₀).0 ≡ ok snapshot))
                (Same id s₀) (cb.read_snapshot s)
                (λ snapshot r.
                  (law.read_world s ∙ e, ap (λ (t : State W). (cb.read_snapshot t).0) (sym e) ∙ r))
                (Same-of_eq id s₀ (cb.read_snapshot s).1 (law.read_world s ∙ e));
        })
        λ snapshot.
          Triple-bind
            (λ device s.
              ((s ≡ s₀) × ((cb.read_snapshot s₀).0 ≡ ok snapshot))
              × (require_device snapshot id ≡ ok device))
            (Triple-lift (require_device snapshot id) (λ s h. Same-of_eq id s₀ s h.0))
            λ device.
              Triple-bind (λ on s. Read s₀ snapshot id device on s)
                (Triple-lift (enabled device) (λ s h. Same-of_eq id s₀ s h.0.0))
                λ on. switch-Off id s₀ snapshot device on

  cover_step :
      (unsafe unsafe' : List String) (s s' : State W) (id : String)
      → ((j : String) → contains unsafe j ≡ true → contains unsafe' j ≡ true)
      → Covered unsafe' s' id
      → Same id s s'
      → (done : List String) → All (Covered unsafe s) done
      → All (Covered unsafe' s') done
  cover_step unsafe unsafe' s s' id sub now same [] h = tt
  cover_step unsafe unsafe' s s' id sub now same (j ∷ done) (c, h) = (
    elim (Bool-cases (str_eq id j)) [
      | inl e ↦ subst (Covered unsafe' s') ((eq_iff id j).0 e) now
      | inr e ↦ elim c [ inl u ↦ inl (sub j u) | inr off ↦ inr (same.2 j e ∙ off) ]
    ],
    cover_step unsafe unsafe' s s' id sub now same done h,
  )

  -- After the first loop has gone through `done`.
  abbrev pub Disabled : List String → List String → Progress → State W → Type 0
  Disabled touched done p s =
      Calm s × (s.session.touched_setpoints ≡ touched) × All (Covered p.unsafe s) done

  after_disable-Disabled :
      (touched done : List String) (id : String) (p : Progress) (s s' : State W)
      (o : Bool ⊎ Failure)
      → Disabled touched done p s
      → Attempted (Off id s) (Same id s) o s'
      → Disabled touched (id ∷ done) (after_disable cb id p o) s'
  after_disable-Disabled touched done id p s s' (inl true) (calm, same, covered) (kept, off) = (
    kept.0 ∙ calm,
    kept.1 ∙ same,
    (inr off, cover_step p.unsafe p.unsafe s s' id (λ j u. u) (inr off) kept done covered),
  )
  after_disable-Disabled touched done id p s s' (inl false) (calm, same, covered) (kept, off) = (
    kept.0 ∙ calm,
    kept.1 ∙ same,
    (inr off, cover_step p.unsafe p.unsafe s s' id (λ j u. u) (inr off) kept done covered),
  )
  after_disable-Disabled touched done id p s s' (inr f) (calm, same, covered) kept =
      let listed : Covered (add_key p.unsafe id) s' id = inl (contains-add_key_self p.unsafe id) in
      (
        kept.0 ∙ calm,
        kept.1 ∙ same,
        (
          listed,
          cover_step p.unsafe (add_key p.unsafe id) s s' id (contains-add_key p.unsafe id) listed
              kept done covered,
        ),
      )

  safety_step_lem :
      (touched done : List String) (id : String) (p : Progress)
      → Triple (Disabled touched done p) (safety_step cb id p) (Disabled touched (id ∷ done)) Calm
  unfolding safety_step
  safety_step_lem touched done id p = record {
    at = λ s h.
        (Triple-bind (Attempted (Off id s) (Same id s))
            (Triple-weaken (λ s' k. k.0 ∙ h.0) (Triple-attempt (disable_heater_lem id s)))
            (λ o.
              Triple-pure (after_disable cb id p o) (Disabled touched (id ∷ done))
                (λ s' k. after_disable-Disabled touched done id p s s' o h k))).at
          s refl;
  }

  pub safety_loop :
      (touched done ids : List String) (p : Progress)
      → Triple
          (Disabled touched done p)
          (for_each (safety_step cb) ids p)
          (Disabled touched (onto ids done))
          Calm
  unfolding for_each
  safety_loop touched done [] p = Triple-pure p (Disabled touched done) (λ s h. h)
  safety_loop touched done (id ∷ ids) p =
      Triple-bind (Disabled touched (id ∷ done)) (safety_step_lem touched done id p)
        (λ p'. safety_loop touched (id ∷ done) ids p')

  -- A setpoint is written at most once, and nothing is switched.
  abbrev pub Kept : String → State W → State W → Type 0
  Kept id s s' =
      ((other : String) → panel.is_on s'.world other ≡ panel.is_on s.world other)
      × ((is_heater id && panel.is_on s.world id) ≡ false → Calm s → Calm s')

  Kept-of_eq : (id : String) (s s' : State W) → s' ≡ s → Kept id s s'
  Kept-of_eq id s s' e = rw e (λ other. refl, λ h c. c)

  Kept-write :
      (id : String) (n : ℤ) (s s' : State W) → s' ≡ s → Kept id s (cb.restore_setpoint id n s').1
  Kept-write id n s s' e =
      rw e (law.setpoint_others s id n, λ h c. law.setpoint_hazard s id n ∙ rw (c, h) refl)

  write_branch :
      (id : String) (n : ℤ) (s₀ : State W) (same : Bool)
      → Triple
          (λ s. s ≡ s₀)
          (if same then pure n else (cb.restore_setpoint id n >> pure n))
          (λ _. Kept id s₀)
          (Kept id s₀)
  write_branch id n s₀ true = Triple-pure n (λ _. Kept id s₀) (Kept-of_eq id s₀)
  write_branch id n s₀ false =
      Triple-bind (λ _. Kept id s₀)
        (record {
          at = λ s e.
              Post-intro (λ _. Kept id s₀) (Kept id s₀) (cb.restore_setpoint id n s)
                (λ u r. Kept-write id n s₀ s e) (Kept-write id n s₀ s e);
        })
        (λ u. Triple-pure n (λ _. Kept id s₀) (λ s h. h))

  pub write_setpoint_lem :
      (id : String) (s₀ : State W)
      → Triple (λ s. s ≡ s₀) (write_setpoint cb id) (λ _. Kept id s₀) (Kept id s₀)
  unfolding write_setpoint
  write_setpoint_lem id s₀ =
      Triple-bind (λ now s. s ≡ s₀) (record { at = λ s e. e })
        λ now.
          Triple-bind (λ original s. s ≡ s₀) (same_lift (require_original_setpoint now.session id))
            λ original.
              Triple-bind (λ snapshot s. s ≡ s₀)
                (record {
                  at = λ s e.
                      Post-intro (λ snapshot t. t ≡ s₀) (Kept id s₀) (cb.read_snapshot s)
                        (λ snapshot r. law.read_world s ∙ e)
                        (Kept-of_eq id s₀ (cb.read_snapshot s).1 (law.read_world s ∙ e));
                })
                λ snapshot.
                  Triple-bind (λ device s. s ≡ s₀) (same_lift (require_device snapshot id))
                    λ device.
                      Triple-bind (λ current s. s ≡ s₀) (same_lift (setpoint device))
                        λ current. write_branch id original s₀ (same_setpoint original current)
    where
      same_lift :
          {A : Type 0} (r : Res A) → Triple (λ s. s ≡ s₀) (lift r) (λ _ s. s ≡ s₀) (Kept id s₀)
      same_lift (ok a) = record { at = λ s e. e }
      same_lift (failed f) = record { at = λ s e. Kept-of_eq id s₀ s e }
      same_lift cancelled = record { at = λ s e. Kept-of_eq id s₀ s e }
