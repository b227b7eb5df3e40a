-- ===== src/Engine/Actions/Outcome.antt =====
-- What an action that returned leaves the equipment in.
use aqualinkd_validator.Prelude.{
  ℕ, String, List, [], ◌∷◌, Bool, true, false, ◌≡◌, refl, sym, ◌∙◌, Bool-cases, ◌<>◌, inl, inr,
  if◌then◌else◌,
}
use aqualinkd_validator.Equipment.{
  Res, ok, DeviceState, enabled, transitioning, EquipmentSnapshot, require_device,
}
use aqualinkd_validator.Engine.Restoration.Action.{State, M, pure, lift, ◌>>=◌}
use aqualinkd_validator.Engine.Restoration.Logic.{Post, Post-intro, Triple, Triple-bind}
use aqualinkd_validator.Engine.Runtime.{TimelineEvent, Measurement, EquipmentRuntime, on_session}
use aqualinkd_validator.Pda.Programmer.{ProgrammerMarkers}
use aqualinkd_validator.Engine.Actions.{
  Timeouts, eq_Bool, forget, read_device, has_state, settled_device, change_device, set_device,
}
use aqualinkd_validator.Engine.Actions.Keeps.{Keeps, Concludes, Shows}
use aqualinkd_validator.Engine.Actions.Performing.{perform_lem}

eq_Bool_eq : (a b : Bool) → eq_Bool a b ≡ true → a ≡ b
eq_Bool_eq true b h = sym h
eq_Bool_eq false true h = absurd (cc h)
eq_Bool_eq false false h = refl

module _ {W : Type 0} (is_on : W → String → Bool) where
  -- A reading that shows a device on or off is true of the equipment when it returns.
  abbrev pub Reads : M W EquipmentSnapshot → Type 0
  Reads m =
      (s : State W) (snapshot : EquipmentSnapshot) (id : String) (device : DeviceState) (on : Bool)
      → (m s).0 ≡ ok snapshot
      → require_device snapshot id ≡ ok device
      → enabled device ≡ ok on
      → is_on (m s).1.world id ≡ on

  -- A call during which no equipment is switched.
  abbrev pub Still : {A : Type 0} → M W A → Type 0
  Still m = (s : State W) (id : String) → is_on (m s).1.world id ≡ is_on s.world id

  -- The readings are true, and bookkeeping switches nothing. Nothing is asked of the commands and
  -- of the waits.
  pub record IsFaithful (rt : EquipmentRuntime W) : Type 0 where
    pub devices : Reads rt.devices
    pub wait_for_stable :
        (ids : List String) (phase : String) (snapshot : EquipmentSnapshot) (timeout : ℕ)
        → Reads (rt.wait_for_stable ids phase snapshot timeout)
    pub done_waiting : (text : String) (after : ℕ) → Still (rt.done_waiting text after)
    pub offset_ns : Still rt.offset_ns
    pub write : (event : TimelineEvent) → Still (rt.write event)
    pub record_measurement : (m : Measurement) → Still (rt.record_measurement m)
    pub record_skip : (name reason : String) → Still (rt.record_skip name reason)

  abbrev Is : String → Bool → State W → Type 0
  Is id on s = is_on s.world id ≡ on

  -- The device as it was read is true of the equipment.
  abbrev True : String → DeviceState → State W → Type 0
  True id device s = (on : Bool) → enabled device ≡ ok on → Is id on s

  abbrev Any : State W → Type 0
  Any s = Unit {0}

  Any_lem : {P : State W → Type 0} {A : Type 0} (m : M W A) → Triple P m (λ _. Any) Any
  Any_lem m = record { at = λ s h. Post-intro (λ _. Any) Any (m s) (λ a e. tt) tt }

  Still-Is :
      {A : Type 0} (m : M W A) (id : String) (on : Bool)
      → Still m
      → Triple (Is id on) m (λ _. Is id on) Any
  Still-Is m id on still = record {
    at = λ s h. Post-intro (λ _. Is id on) Any (m s) (λ a e. still s id ∙ h) tt;
  }

  -- Every device of a snapshot is true.
  abbrev TrueIn : String → EquipmentSnapshot → State W → Type 0
  TrueIn id snapshot s =
      (device : DeviceState) → require_device snapshot id ≡ ok device → True id device s

  read-TrueIn :
      {P : State W → Type 0} (m : M W EquipmentSnapshot) (id : String)
      → Reads m
      → Triple P m (TrueIn id) Any
  read-TrueIn m id reads = record {
    at = λ s p.
        Post-intro (TrueIn id) Any (m s)
          (λ snapshot e device f on g. reads s snapshot id device on e f g) tt;
  }

  require-True :
      (id : String) (snapshot : EquipmentSnapshot)
      → Triple (TrueIn id snapshot) (lift (require_device snapshot id)) (True id) Any
  require-True id snapshot = record {
    at = λ s h. Post-intro (True id) Any (require_device snapshot id, s) h tt;
  }

  -- A step that leaves the state alone.
  lift-True :
      {A : Type 0} (id : String) (device : DeviceState) (r : Res A)
      → Triple (True id device) (lift r) (λ _. True id device) Any
  lift-True id device r = record {
    at = λ s h. Post-intro (λ _. True id device) Any (r, s) (λ a e. h) tt;
  }

  enabled-True :
      (id : String) (device : DeviceState)
      → Triple (True id device) (lift (enabled device)) (λ now s. Is id now s) Any
  enabled-True id device = record {
    at = λ s h. Post-intro (λ now. Is id now) Any (enabled device, s) h tt;
  }

  module _ (rt : EquipmentRuntime W) (law : IsFaithful rt) where
    read_device-True :
        {P : State W → Type 0} (id : String) → Triple P (read_device rt id) (True id) Any
    unfolding read_device
    read_device-True id =
        Triple-bind (TrueIn id) (read-TrueIn rt.devices id law.devices) (require-True id)

    compare_state :
        (id : String) (on now : Bool)
        → Triple (Is id now) (pure (eq_Bool now on)) (Shows (Is id on) Any) Any
    compare_state id on now = record {
      at = λ s h. elim (Bool-cases (eq_Bool now on)) [
        | inl e ↦ rw e (h ∙ eq_Bool_eq now on e)
        | inr e ↦ rw e tt
      ];
    }

    has_state-Shows :
        (id : String) (on : Bool) → Triple Any (has_state rt id on) (Shows (Is id on) Any) Any
    unfolding has_state
    has_state-Shows id on = Triple-bind (True id) (read_device-True id) λ device.
        Triple-bind (λ _. True id device) (lift-True id device (transitioning device))
          (after device)
      where
        after :
            (device : DeviceState) (moving : Bool)
            → Triple
                (True id device)
                (if moving
                  then pure false
                  else (lift (enabled device) >>= λ now. pure (eq_Bool now on)))
                (Shows (Is id on) Any)
                Any
        after device true = record { at = λ s h. tt }
        after device false =
            Triple-bind (λ now. Is id now) (enabled-True id device) (compare_state id on)

    settled_device-True :
        (id phase : String) → Triple Any (settled_device rt id phase) (True id) Any
    unfolding settled_device
    settled_device-True id phase =
        Triple-bind (TrueIn id) (read-TrueIn rt.devices id law.devices) λ snapshot.
          Triple-bind (True id) (require-True id snapshot) λ device.
            Triple-bind (λ _. True id device) (lift-True id device (transitioning device))
              (after snapshot device)
      where
        after :
            (snapshot : EquipmentSnapshot) (device : DeviceState) (moving : Bool)
            → Triple
                (True id device)
                (if moving
                  then (rt.wait_for_stable
                        (id ∷ [])
                        (phase <> "." <> id <> ".precondition")
                        snapshot
                        rt.timeouts.stabilization_seconds
                      >>= λ stable. lift (require_device stable id))
                  else pure device)
                (True id)
                Any
        after snapshot device true =
            Triple-bind (TrueIn id) (read-TrueIn _ id (law.wait_for_stable (id ∷ []) _ snapshot _))
              (require-True id)
        after snapshot device false = record { at = λ s h. h }

    Any-Keeps : Keeps Any rt
    Any-Keeps = record {
      devices = Any_lem _;
      cursor = Any_lem _;
      wait_for = λ text after timeout. Any_lem _;
      wait_for_any = λ texts after timeout. Any_lem _;
      done_waiting = λ text after. Any_lem _;
      offset_ns = Any_lem _;
      write = λ event. Any_lem _;
      time = Any_lem _;
      sleep = λ n. Any_lem _;
      wait_for_stable = λ ids phase snapshot timeout. Any_lem _;
      record_measurement = λ m. Any_lem _;
      record_skip = λ name reason. Any_lem _;
    }

    Is-Concludes : (id : String) (on : Bool) → Concludes (Is id on) Any rt
    Is-Concludes id on = record {
      weaker = λ s h. tt;
      offset_ns = Still-Is _ id on law.offset_ns;
      done_waiting = λ text after. Still-Is _ id on (law.done_waiting text after);
      record_measurement = λ m. Still-Is _ id on (law.record_measurement m);
      write = λ event. Still-Is _ id on (law.write event);
      record_skip = λ name reason. Still-Is _ id on (law.record_skip name reason);
    }

    change_device-Is :
        (fuel : ℕ) (id : String) (on : Bool) (phase : String) (markers : ProgrammerMarkers)
        (times : Timeouts) (label : String)
        → Triple Any (change_device rt fuel id on phase markers times label) (λ _. Is id on) Any
    unfolding change_device
    change_device-Is fuel id on phase markers times label =
        let ends = Is-Concludes id on in
        Triple-bind (λ _. Is id on)
          (perform_lem rt Any-Keeps Any-Keeps ends (λ s h. h) fuel _ _ phase _ id _ markers times
            (rt.switch id on) (has_state rt id on) (Any_lem (rt.switch id on))
            (has_state-Shows id on))
          λ _. ends.write _

    skip_or_change :
        (fuel : ℕ) (id : String) (on now : Bool) (phase : String) (markers : ProgrammerMarkers)
        (times : Timeouts) (name reason label : String)
        → Triple
            (Is id now)
            (if eq_Bool now on
              then rt.record_skip name reason
              else change_device rt fuel id on phase markers times label)
            (λ _. Is id on)
            Any
    skip_or_change fuel id on now phase markers times name reason label = record {
      at = λ s h. elim (Bool-cases (eq_Bool now on)) [
        | inl e ↦
            rw e (((Is-Concludes id on).record_skip name reason).at s (h ∙ eq_Bool_eq now on e))
        | inr e ↦ rw e ((change_device-Is fuel id on phase markers times label).at s tt)
      ];
    }

    -- Where readings are true and bookkeeping switches nothing, a `set_device` that returns leaves
    -- its device in the requested state.
    pub set_device-Is :
        (fuel : ℕ) (id : String) (on : Bool) (phase : String) (markers : ProgrammerMarkers)
        (times : Timeouts) (s : State W)
        → Post (λ _ t. is_on t.world id ≡ on) Any (set_device rt fuel id on phase markers times s)
    unfolding set_device
    set_device-Is fuel id on phase markers times s =
        (Triple-bind {P = Any} (λ _. Any) (Any_lem (on_session _))
            λ _.
              Triple-bind (λ _. Any) (Any_lem (forget phase id))
                λ _. Triple-bind (True id) (settled_device-True id phase) λ device.
                  Triple-bind (λ now. Is id now) (enabled-True id device)
                    λ now. skip_or_change fuel id on now phase markers times _ _ _).at
          s tt
