-- ===== src/Pda/Restoration/Once.antt =====
-- A restoration that is tried again sends no second command for the same state.
use aqualinkd_validator.Prelude.{
  ℕ, zero, suc, ◌+◌, ◌≤◌, String, Bool, true, false, ◌≡◌, refl, sym, ap, ◌∙◌, Option, some, List,
  [], ◌∷◌, inl, inr, if◌then◌else◌, arith, Bool-cases,
}
use aqualinkd_validator.Equipment.{
  requested_state_label, ok, DeviceState, enabled, transitioning, EquipmentSnapshot, require_device,
}
use aqualinkd_validator.Engine.Restoration.Action.{RestorationSession, State, M, pure, ◌>>=◌}
use aqualinkd_validator.Engine.Restoration.{requested_state, mark_requested_state}
use aqualinkd_validator.Engine.Restoration.Logic.{Post-any, Triple, Triple-bind, Triple-weaken}
use aqualinkd_validator.Engine.Restoration.Keeping.{
  Keeping, keep_pure, keep_lift, keep_bind, keep_weaken,
}
use aqualinkd_validator.Engine.Runtime.{EquipmentRuntime}
use aqualinkd_validator.Engine.Actions.{eq_Bool, has_state, wait_for_device_state}
use aqualinkd_validator.Engine.Actions.Keeps.{Keeps, has_state-keeps}
use aqualinkd_validator.Engine.Actions.Performing.{
  Keeps-Concludes, keeps-Shows, on_session_lem, wait_until_lem,
}
use aqualinkd_validator.Engine.Actions.Commands.{
  Command, Leaves, Leaves-keeps, IsRecorded, On, IsRecorded-Keeps,
}
use aqualinkd_validator.Pda.Restoration.{
  Progress, PdaRestorationService, PdaRestorationCoordinatorConfig, converging, is_requested,
  command_device, finish_device, await_transition, after_transition, restore_device,
  completed_transition, pda_service,
}
use aqualinkd_validator.Pda.Restoration.Sending.{
  switches, AtMostOne, Before, After, is_requested_self, requested_mark, set_device-Once,
}

module _ {W : Type 0} (commands : W → List Command) (rt : EquipmentRuntime W)
    (law : IsRecorded commands rt) (fuel : ℕ) (id : String) (on : Bool) (n : ℕ)
    (progress : Progress → M W (Unit {0})) (quiet : (p : Progress) → Leaves commands (progress p))
    (config : PdaRestorationCoordinatorConfig) where
  abbrev Start : State W → Type 0
  Start = Before commands rt law fuel id on n

  abbrev Sent : State W → Type 0
  Sent = After commands rt law fuel id on n

  abbrev service : PdaRestorationService W
  service = pda_service rt progress fuel config

  abbrev Once : State W → Type 0
  Once = On commands (AtMostOne id on n)

  -- While the request is known.
  abbrev Known : Option Bool → RestorationSession → List Command → Type 0
  Known r session cs = AtMostOne id on n session cs × (requested_state id session ≡ r)

  abbrev Linked : Option Bool → State W → Type 0
  Linked r = On commands (Known r)

  linked : (r : Option Bool) → Keeps (Linked r) rt
  linked r = IsRecorded-Keeps commands (Known r) law

  tell : (r : Option Bool) (p : Progress) → Keeping (Linked r) (progress p)
  tell r p = Leaves-keeps commands (Known r) (quiet p)

  wait_for_device_state-Linked :
      (r : Option Bool) (timeout : ℕ)
      → Keeping (Linked r) (wait_for_device_state rt fuel id on timeout)
  unfolding wait_for_device_state
  wait_for_device_state-Linked r timeout =
      wait_until_lem rt (linked r) (Keeps-Concludes (linked r)) fuel (pure tt) timeout
        (has_state rt id on) _ (keep_pure tt) (keeps-Shows (has_state-keeps rt (linked r) id on))

  -- Where no request is known, nothing was sent yet.
  unsent :
      (r : Option Bool) (s : State W)
      → is_requested on r ≡ false
      → Linked r s
      → switches id on (commands s.world) ≤ n
  unsent r s e (inl h, q) = h
  unsent r s e (inr (known, h), q) =
      let both : some on ≡ r = sym known ∙ q in
      let yes : is_requested on r ≡ true = ap (is_requested on) (sym both) ∙ is_requested_self on in
      absurd (cc (yes, e))

  after-Once : (s : State W) → Sent s → Once s
  after-Once s h = inr h

  linked-Once : (r : Option Bool) (s : State W) → Linked r s → Once s
  linked-Once r s h = h.0

  command_device-Once :
      (device : DeviceState) (r : Option Bool)
      → Triple (Linked r) (command_device service id on device r) (λ _. Once) Once
  unfolding command_device pda_service
  command_device-Once device r = elim (Bool-cases (is_requested on r)) [
    | inl e ↦ rw e (
        keep_weaken (linked-Once r) (
          keep_bind (tell r _) λ _.
            keep_bind
              (keep_bind (wait_for_device_state-Linked r config.timeout_seconds) λ _. keep_pure tt)
              λ _. tell r _))
    | inr e ↦ rw e (
        Triple-bind (λ _. Start)
          (Triple-weaken (linked-Once r) (
            on_session_lem (Linked r) Start (λ session. ok (mark_requested_state id on session))
              (λ s next e' h. (
                ap (requested_state id) (marked next s.session e') ∙ requested_mark id on s.session,
                unsent r s e h,
              ))))
          λ _. keep_weaken after-Once (
            set_device-Once commands rt law fuel id on n config.device_markers
              (converging (some config.timeout_seconds))))
  ]
    where
      marked :
          (next session : RestorationSession)
          → ok (mark_requested_state id on session) ≡ ok next
          → next ≡ mark_requested_state id on session
      marked next session e = cc

  finish_device-Once :
      (device : DeviceState) (r : Option Bool)
      → Triple (Linked r) (finish_device service id on device r) (λ _. Once) Once
  unfolding finish_device
  finish_device-Once device r =
      Triple-bind (λ _. Linked r) (Triple-weaken (linked-Once r) (keep_lift (enabled device)))
        λ now. pass_or (eq_Bool now on)
    where
      pass_or :
          (b : Bool)
          → Triple
              (Linked r)
              (if b then pure tt else command_device service id on device r)
              (λ _. Once)
              Once
      pass_or true = record { at = linked-Once r }
      pass_or false = command_device-Once device r

  await_transition-Linked :
      (device : DeviceState) (snapshot : EquipmentSnapshot) (r : Option Bool)
      → Keeping (Linked r) (await_transition service id on device snapshot)
  unfolding await_transition pda_service
  await_transition-Linked device snapshot r = keep_bind (tell r _) λ _.
      keep_bind ((linked r).wait_for_stable (id ∷ []) _ snapshot _)
        λ stable. keep_lift (require_device stable id)

  after_transition-Once :
      (old device : DeviceState) (r : Option Bool)
      → Triple (Linked r) (after_transition service id on old device r) (λ _. Once) Once
  unfolding after_transition pda_service
  after_transition-Once old device r =
      Triple-bind (λ _. Linked r) (Triple-weaken (linked-Once r) (keep_lift (enabled device)))
        λ now. told_or (eq_Bool now on)
    where
      told_or :
          (b : Bool)
          → Triple
              (Linked r)
              (if b
                then service.progress (completed_transition id (requested_state_label old on))
                else finish_device service id on device r)
              (λ _. Once)
              Once
      told_or true = keep_weaken (linked-Once r) (tell r _)
      told_or false = finish_device-Once device r

  restore_from-Once :
      (snapshot : EquipmentSnapshot) (device : DeviceState) (r : Option Bool) (moving : Bool)
      → Triple
          (Linked r)
          (if moving
            then (await_transition service id on device snapshot >>= λ settled.
                after_transition service id on device settled r)
            else finish_device service id on device r)
          (λ _. Once)
          Once
  restore_from-Once snapshot device r true =
      Triple-bind (λ _. Linked r)
        (Triple-weaken (linked-Once r) (await_transition-Linked device snapshot r))
        λ settled. after_transition-Once device settled r
  restore_from-Once snapshot device r false = finish_device-Once device r

  restore_device-Once : Keeping Once (restore_device service id on)
  unfolding restore_device pda_service
  restore_device-Once =
      let keeps = IsRecorded-Keeps commands (AtMostOne id on n) law in
      Triple-bind (λ _. Once) keeps.devices
        λ snapshot.
          Triple-bind (λ _. Once) (keep_lift (require_device snapshot id))
            λ device.
              Triple-bind (λ now. Linked (requested_state id now.session))
                (record { at = λ s h. (h, refl) })
                λ now.
                  let r = requested_state id now.session in
                  Triple-bind (λ _. Linked r)
                    (Triple-weaken (linked-Once r) (keep_lift (transitioning device)))
                    (restore_from-Once snapshot device r)

-- An action that is tried some times, however each try ends.
abbrev pub tries : {W A : Type 0} → ℕ → M W A → State W → State W
tries zero m s = s
tries (suc k) m s = tries k m (m s).1

tries-keeps :
    {W A : Type 0} {I : State W → Type 0} {m : M W A} (k : ℕ)
    → Keeping I m
    → (s : State W) → I s
    → I (tries k m s)
tries-keeps zero t s h = h
tries-keeps {I} {m} (suc k) t s h = tries-keeps k t (m s).1 (Post-any I (m s) (t.at s h))

-- However often the restoration of a device to one state is tried, and however each try ends, the
-- API is asked at most once to switch the device to that state.
pub restore_device-switches :
    {W : Type 0} (commands : W → List Command) (rt : EquipmentRuntime W)
    (progress : Progress → M W (Unit {0})) (config : PdaRestorationCoordinatorConfig)
    → IsRecorded commands rt
    → ((p : Progress) → Leaves commands (progress p))
    → (fuel : ℕ) (id : String) (on : Bool) (k : ℕ) (s : State W)
    → switches id on
        (commands (tries k (restore_device (pda_service rt progress fuel config) id on) s).world)
      ≤ switches id on (commands s.world) + 1
restore_device-switches commands rt progress config law quiet fuel id on k s =
    let n = switches id on (commands s.world) in
    elim (tries-keeps k (restore_device-Once commands rt law fuel id on n progress quiet config) s
      (inl (omega arith))) [ inl h ↦ omega arith | inr h ↦ h.1 ]
