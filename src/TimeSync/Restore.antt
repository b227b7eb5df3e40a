-- ===== src/TimeSync/Restore.antt =====
-- What a restoration of the panel's clock leaves.
use aqualinkd_validator.Prelude.{
  ℕ, zero, suc, ◌≤◌, ◌≡◌, refl, ap, ◌∙◌, Bool, true, false, if◌then◌else◌, leb, arith, Bool-cases,
  inl, inr,
}
use aqualinkd_validator.Equipment.{ℤ, pos}
use aqualinkd_validator.Engine.Restoration.Action.{State, pure, ◌>>=◌}
use aqualinkd_validator.Engine.Restoration.Logic.{Post, Triple, Triple-bind}
use aqualinkd_validator.Engine.Restoration.Keeping.{Keeping, keep_pure, keep_bind}
use aqualinkd_validator.Engine.Actions.Keeps.{
  Keeps, wait_for_active-keeps, wait_for_completion-keeps,
}
use aqualinkd_validator.TimeSync.{
  Controlled, PanelTimeSyncValidator, set_offset, mark_panel_restored, read_difference, poll_time,
  wait_for_time, force_sync, restore,
}

module _ {V : Type 0} (validator : PanelTimeSyncValidator V) where
  -- The controller's offset and its mark.
  abbrev pub At : ℤ → Bool → State (Controlled V) → Type 0
  At offset mark s = (s.world.offset_seconds ≡ offset) × (s.world.panel_requires_restore ≡ mark)

  -- No call changes the controller.
  pub record LeavesController : Type 0 where
    pub runtime : (offset : ℤ) (mark : Bool) → Keeps (At offset mark) validator.runtime
    pub panel_time : (offset : ℤ) (mark : Bool) → Keeping (At offset mark) validator.panel_time
    pub set_date_time :
        (offset : ℤ) (mark : Bool) → Keeping (At offset mark) validator.set_date_time
    pub now : (by : ℤ) (offset : ℤ) (mark : Bool) → Keeping (At offset mark) (validator.now by)

  module _ (law : LeavesController) (offset : ℤ) (mark : Bool) where
    abbrev I : State (Controlled V) → Type 0
    I = At offset mark

    read_difference-At : (by : ℤ) → Keeping I (read_difference validator by)
    unfolding read_difference
    read_difference-At by =
        keep_bind (law.panel_time offset mark)
          λ panel. keep_bind (law.now by offset mark) λ expected. keep_pure _

    -- A wait that returns gives a difference within the tolerance.
    abbrev Near : ℕ → State (Controlled V) → Type 0
    Near difference s = I s × (difference ≤ validator.config.convergence_tolerance_seconds)

    poll_time-Near :
        (fuel : ℕ) (by : ℤ) (deadline : ℕ) → Triple I (poll_time validator fuel by deadline) Near I
    unfolding poll_time
    poll_time-Near zero by deadline = record { at = λ s h. h }
    poll_time-Near (suc fuel) by deadline =
        Triple-bind (λ _. I) (read_difference-At by)
          λ difference.
            elim (Bool-cases (leb difference validator.config.convergence_tolerance_seconds)) [
              | inl near ↦ rw near (record { at = λ s h. (h, ground arith) })
              | inr far ↦ rw far (
                  Triple-bind (λ _. I) ((law.runtime offset mark).time)
                    λ time. elim (Bool-cases (leb deadline time)) [
                      | inl late ↦ rw late (record { at = λ s h. h })
                      | inr early ↦ rw early (
                          Triple-bind (λ _. I) ((law.runtime offset mark).sleep _)
                            λ _. poll_time-Near fuel by deadline)
                    ])
            ]

    force_sync-Near : (fuel : ℕ) → Triple I (force_sync validator fuel) Near I
    unfolding force_sync wait_for_time
    force_sync-Near fuel =
        let keeps = law.runtime offset mark in
        Triple-bind (λ _. I) keeps.offset_ns
          λ requested.
            Triple-bind (λ _. I) keeps.cursor
              λ cursor.
                Triple-bind (λ _. I) (law.set_date_time offset mark)
                  λ _.
                    Triple-bind (λ _. I) (wait_for_active-keeps validator.runtime keeps _ _ _ _ _)
                      λ active.
                        Triple-bind (λ _. I)
                          (wait_for_completion-keeps validator.runtime keeps _ _ active _)
                          λ _.
                            Triple-bind (λ _. I) keeps.time λ start. poll_time-Near fuel (pos 0) _

  finish :
      (law : LeavesController) (fuel : ℕ) (mark : Bool)
      → Triple
          (At (pos 0) mark)
          (if mark
            then (force_sync validator fuel >>= λ difference. mark_panel_restored)
            else pure tt)
          (λ _. At (pos 0) false)
          (At (pos 0) mark)
  unfolding mark_panel_restored
  finish law fuel true =
      Triple-bind (Near law (pos 0) true) (force_sync-Near law (pos 0) true fuel)
        λ difference. record { at = λ s h. (h.0.0, refl) }
  finish law fuel false = record { at = λ s h. h }

  restore_lem :
      (law : LeavesController) (fuel : ℕ) (mark : Bool)
      → Triple
          (λ s. s.world.panel_requires_restore ≡ mark)
          (restore validator fuel)
          (λ _. At (pos 0) false)
          (At (pos 0) mark)
  unfolding restore set_offset
  restore_lem law fuel mark =
      Triple-bind (λ _. At (pos 0) mark) (record { at = λ s h. (refl, h) })
        λ _.
          Triple-bind (λ now s. At (pos 0) mark s × (now ≡ s)) (record { at = λ s h. (h, refl) })
            λ now. record {
              at = λ s h.
                  let same : now.world.panel_requires_restore ≡ mark =
                    ap (λ t. t.world.panel_requires_restore) h.1 ∙ h.0.1 in
                  rw same ((finish law fuel mark).at s h.0);
            }

  -- Where no call changes the controller: a restoration sets its offset to 0; one that returns has
  -- cleared the mark of a panel that needs it, and one that raises or is cancelled keeps the mark
  -- as it was, so that it can be tried again.
  pub restore-At :
      (law : LeavesController) (fuel : ℕ) (s : State (Controlled V))
      → Post
          (λ _. At (pos 0) false)
          (At (pos 0) s.world.panel_requires_restore)
          (restore validator fuel s)
  restore-At law fuel s = (restore_lem law fuel s.world.panel_requires_restore).at s refl
