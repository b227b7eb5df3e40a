-- ===== src/Engine/Restoration/Hazard.antt =====
-- A whole restoration writes no heater's setpoint while the heater is on.
use aqualinkd_validator.Prelude.{
  String, ◌≡◌, refl, ◌∙◌, Bool, true, false, not, ◌&&◌, Option, none, some, List, [], ◌∷◌, ◌⊎◌, inl,
  inr, map, if◌then◌else◌, contains, text_le, All, Bool-cases,
}
use aqualinkd_validator.Prelude.Sorting.{sort, All-sort, All-sort_inv}
use aqualinkd_validator.Equipment.{ℤ, Failure, Res, ok, failed, cancelled, EquipmentSnapshot}
use aqualinkd_validator.Engine.Restoration.Action.{
  State, Callbacks, pure, lift, attempt, ◌>>=◌, ◌>>◌,
}
use aqualinkd_validator.Engine.Restoration.{is_heater, initial_device_enabled, keys_of, key_le}
use aqualinkd_validator.Engine.Restoration.Restore.{
  Progress, no_progress, for_each, heaters_of, write_setpoint, after_setpoint, setpoint_step,
  write_state, after_state, state_step, clear, no_errors, key_id, restore_states, restore_setpoints,
  restore_all, restore_from, restore,
}
use aqualinkd_validator.Engine.Restoration.Logic.{
  Post-any, Post-intro, Attempted, Triple, Triple-weaken, Triple-pure, Triple-attempt, Triple-bind,
  Triple-for_each,
}
use aqualinkd_validator.Engine.Restoration.Panel.{Panel, IsLawful}
use aqualinkd_validator.Engine.Restoration.Safety.{
  onto, All-onto, Calm, Covered, Disabled, Kept, safety_loop, write_setpoint_lem,
}

-- What holds of the heaters of a list holds of each of its items that is a heater.
All-heaters_of :
    (P : String → Type 0) (ids : List String)
    → All P (heaters_of ids)
    → All (λ id. is_heater id ≡ true → P id) ids
All-heaters_of P [] h = tt
All-heaters_of P (id ∷ ids) h = elim (Bool-cases (is_heater id)) [
  | inl e ↦
      let h' : P id × All P (heaters_of ids) = rw e at h in ((λ _. h'.0), All-heaters_of P ids h'.1)
  | inr e ↦ ((λ e'. absurd (cc e)), All-heaters_of P ids (rw e at h))
]

module _ {W : Type 0} (panel : Panel W) (cb : Callbacks W) (law : IsLawful panel cb) where
  abbrev Quiet : State W → Type 0
  Quiet = Calm panel cb law

  -- A heater of the list is off, or its setpoint will be left alone.
  abbrev Ready : List String → State W → String → Type 0
  Ready unsafe s id = is_heater id ≡ true → Covered panel cb law unsafe s id

  no_hazard :
      (unsafe : List String) (s : State W) (id : String)
      → contains unsafe id ≡ false
      → Ready unsafe s id
      → (is_heater id && panel.is_on s.world id) ≡ false
  no_hazard unsafe s id fresh ready = elim (Bool-cases (is_heater id)) [
    | inl e ↦ elim (ready e) [ inl u ↦ absurd (cc (fresh, u)) | inr off ↦ rw (e, off) ]
    | inr e ↦ rw e
  ]

  Ready-Kept :
      (unsafe : List String) (s s' : State W) (id : String) (ids : List String)
      → Kept panel cb law id s s'
      → All (Ready unsafe s) ids
      → All (Ready unsafe s') ids
  Ready-Kept unsafe s s' id [] kept h = tt
  Ready-Kept unsafe s s' id (j ∷ ids) kept (h, hs) = (
    (λ e. elim (h e) [ inl u ↦ inl u | inr off ↦ inr (kept.0 j ∙ off) ]),
    Ready-Kept unsafe s s' id ids kept hs,
  )

  unsafe-after_setpoint :
      (id : String) (p : Progress) (o : ℤ ⊎ Failure) → (after_setpoint cb id p o).unsafe ≡ p.unsafe
  unsafe-after_setpoint id p (inl n) = refl
  unsafe-after_setpoint id p (inr f) = refl

  Kept-either :
      (id : String) (s s' : State W) (o : ℤ ⊎ Failure)
      → Attempted (λ _. Kept panel cb law id s) (Kept panel cb law id s) o s'
      → Kept panel cb law id s s'
  Kept-either id s s' (inl n) k = k
  Kept-either id s s' (inr f) k = k

  setpoint_branch :
      (id : String) (ids : List String) (p : Progress) (skip : Bool)
      → contains p.unsafe id ≡ skip
      → Triple
          (λ s. Quiet s × All (Ready p.unsafe s) (id ∷ ids))
          (if skip
            then pure p
            else (attempt (write_setpoint cb id) >>= λ r. pure (after_setpoint cb id p r)))
          (λ p' s. Quiet s × All (Ready p'.unsafe s) ids)
          Quiet
  setpoint_branch id ids p true e =
      Triple-pure p (λ p' s. Quiet s × All (Ready p'.unsafe s) ids) (λ s h. (h.0, h.1.1))
  setpoint_branch id ids p false e = record {
    at = λ s h.
        let safe = no_hazard p.unsafe s id e h.1.0 in
        (Triple-bind (Attempted (λ _. Kept panel cb law id s) (Kept panel cb law id s))
            (Triple-weaken (λ s' k. k.1 safe h.0)
              (Triple-attempt (write_setpoint_lem panel cb law id s)))
            (λ o.
              Triple-pure (after_setpoint cb id p o)
                (λ p' s'. Quiet s' × All (Ready p'.unsafe s') ids)
                (λ s' k.
                  let kept = Kept-either id s s' o k in
                  (
                    kept.1 safe h.0,
                    rw (unsafe-after_setpoint id p o) (Ready-Kept p.unsafe s s' id ids kept h.1.1),
                  )))).at
          s refl;
  }

  setpoint_step_lem :
      (id : String) (ids : List String) (p : Progress)
      → Triple
          (λ s. Quiet s × All (Ready p.unsafe s) (id ∷ ids))
          (setpoint_step cb id p)
          (λ p' s. Quiet s × All (Ready p'.unsafe s) ids)
          Quiet
  unfolding setpoint_step
  setpoint_step_lem id ids p = setpoint_branch id ids p (contains p.unsafe id) refl

  setpoint_loop :
      (ids : List String) (p : Progress)
      → Triple
          (λ s. Quiet s × All (Ready p.unsafe s) ids)
          (for_each (setpoint_step cb) ids p)
          (λ _. Quiet)
          Quiet
  unfolding for_each
  setpoint_loop [] p = Triple-pure p (λ _. Quiet) (λ s h. h.0)
  setpoint_loop (id ∷ ids) p =
      Triple-bind (λ p' s. Quiet s × All (Ready p'.unsafe s) ids) (setpoint_step_lem id ids p)
        (λ p'. setpoint_loop ids p')

  switch_branch :
      (id : String) (on skip : Bool)
      → Triple Quiet
          (if skip then pure none else (cb.restore_device id on >> pure (some on)))
          (λ _. Quiet)
          Quiet
  switch_branch id on true = Triple-pure none (λ _. Quiet) (λ s h. h)
  switch_branch id on false =
      Triple-bind (λ _. Quiet)
        (record {
          at = λ s h.
              let kept = law.device_hazard s id on ∙ h in
              Post-intro (λ _. Quiet) Quiet (cb.restore_device id on s) (λ u r. kept) kept;
        })
        (λ u. Triple-pure (some on) (λ _. Quiet) (λ s h. h))

  Quiet-lift : {A : Type 0} (r : Res A) → Triple Quiet (lift r) (λ _. Quiet) Quiet
  Quiet-lift (ok a) = record { at = λ s h. h }
  Quiet-lift (failed f) = record { at = λ s h. h }
  Quiet-lift cancelled = record { at = λ s h. h }

  Quiet-either :
      (o : Option Bool ⊎ Failure) (s : State W) → Attempted (λ _. Quiet) Quiet o s → Quiet s
  Quiet-either (inl n) s k = k
  Quiet-either (inr f) s k = k

  state_step_lem :
      (id : String) (p : Progress) → Triple Quiet (state_step cb id p) (λ _. Quiet) Quiet
  unfolding state_step write_state
  state_step_lem id p =
      Triple-bind (Attempted (λ _. Quiet) Quiet)
        (Triple-attempt (
          Triple-bind (λ _. Quiet) (record { at = λ s h. h })
            λ now.
              Triple-bind (λ _. Quiet) (Quiet-lift (initial_device_enabled now.session id))
                λ expected. switch_branch id expected (contains p.predisabled id && not expected)))
        λ o. Triple-pure (after_state cb id p o) (λ _. Quiet) (Quiet-either o)

  abbrev Shielded : List String → Progress → State W → Type 0
  Shielded touched p s =
      Quiet s
      × (s.session.touched_setpoints ≡ touched)
      × All (Ready p.unsafe s) (sort text_le touched)

  -- After the first loop.
  shielded :
      (touched : List String) (p : Progress) (s : State W)
      → Disabled panel cb law touched (onto (sort text_le (heaters_of touched)) []) p s
      → Shielded touched p s
  shielded touched p s (calm_now, same, covered) =
      let (first, _) =
        All-onto (Covered panel cb law p.unsafe s) (sort text_le (heaters_of touched)) [] covered in
      let heaters =
        All-sort_inv text_le (Covered panel cb law p.unsafe s) (heaters_of touched) first in
      (
        calm_now,
        same,
        All-sort text_le (Ready p.unsafe s) touched
            (All-heaters_of (Covered panel cb law p.unsafe s) touched heaters),
      )

  clear_branch :
      (done : Bool) → Triple Quiet (if done then clear cb else pure tt) (λ _. Quiet) Quiet
  clear_branch true = record { at = λ s h. h }
  clear_branch false = record { at = λ s h. h }

  restore_states_lem : (p : Progress) → Triple Quiet (restore_states cb p) (λ _. Quiet) Quiet
  unfolding restore_states
  restore_states_lem p =
      Triple-bind (λ _. Quiet) (record { at = λ s h. h })
        λ s₃.
          Triple-bind (λ _. Quiet) (Quiet-lift (keys_of s₃.session s₃.session.touched_devices))
            λ keys.
              Triple-bind (λ _. Quiet)
                (Triple-for_each (λ _. Quiet) state_step_lem (map (key_id cb) (sort key_le keys)) p)
                λ p₃.
                  Triple-bind (λ _. Quiet) (clear_branch (no_errors cb p₃.errors))
                    λ _. record { at = λ s h. h }

  restore_setpoints_lem :
      (touched : List String) (p : Progress)
      → Triple (Shielded touched p) (restore_setpoints cb p) (λ _. Quiet) Quiet
  unfolding restore_setpoints
  restore_setpoints_lem touched p =
      Triple-bind
        (λ s₂ s. Quiet s × All (Ready p.unsafe s) (sort text_le s₂.session.touched_setpoints))
        (record { at = λ s h. (h.0, rw h.1 h.2) })
        λ s₂.
          Triple-bind (λ _. Quiet) (setpoint_loop (sort text_le s₂.session.touched_setpoints) p)
            λ p₂. restore_states_lem p₂

  restore_all_lem :
      (s₀ : State W) → Triple (λ s. Quiet s × (s ≡ s₀)) (restore_all cb) (λ _. Quiet) Quiet
  unfolding restore_all
  restore_all_lem s₀ =
      Triple-bind
        (λ s₁ s. Quiet s × (s.session.touched_setpoints ≡ s₁.session.touched_setpoints) × Unit {0})
        (record { at = λ s h. (h.0, refl, tt) })
        λ s₁.
          let touched = s₁.session.touched_setpoints in
          Triple-bind (Disabled panel cb law touched (onto (sort text_le (heaters_of touched)) []))
            (safety_loop panel cb law touched [] (sort text_le (heaters_of touched)) no_progress)
            λ p₁. record {
              at = λ s h. (restore_setpoints_lem touched p₁).at s (shielded touched p₁ s h);
            }

  restore_from-Quiet :
      (snapshot : Option EquipmentSnapshot) (s : State W)
      → Quiet s
      → Quiet (restore_from cb snapshot s).1
  restore_from-Quiet none s h = h
  restore_from-Quiet (some snapshot) s h =
      Post-any Quiet (restore_all cb s) ((restore_all_lem s).at s (h, refl))

-- Over a panel whose callbacks do what they report, a restoration writes no heater's setpoint while
-- that heater is on: whatever fails or is cancelled on the way, and whatever was touched, no hazard
-- arises if there was none.
pub restore-hazard :
    {W : Type 0} (panel : Panel W) (cb : Callbacks W)
    → IsLawful panel cb
    → (s : State W) → panel.hazard s.world ≡ false
    → panel.hazard (restore cb s).1.world ≡ false
unfolding restore
restore-hazard panel cb law s h = restore_from-Quiet panel cb law s.session.initial_snapshot s h
