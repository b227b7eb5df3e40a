-- ===== src/Engine/Actions/Commands.antt =====
-- What the API is asked to change, and which calls ask for it.
use aqualinkd_validator.Prelude.{ℕ, String, Bool, ◌≡◌, List, ◌∷◌, ◌⊎◌, inl, inr}
use aqualinkd_validator.Equipment.{ℤ, EquipmentSnapshot}
use aqualinkd_validator.Engine.Restoration.Action.{RestorationSession, State, M}
use aqualinkd_validator.Engine.Restoration.Logic.{Post-intro, Triple}
use aqualinkd_validator.Engine.Restoration.Keeping.{Keeping}
use aqualinkd_validator.Engine.Runtime.{TimelineEvent, Measurement, EquipmentRuntime}
use aqualinkd_validator.Engine.Actions.Keeps.{Keeps}

pub data Command : Type 0 where
  switched : String → Bool → Command
  written : String → ℤ → Command

module _ {W : Type 0} (commands : W → List Command) where
  -- A call that sends no command and leaves the session alone.
  pub record Leaves {A : Type 0} (m : M W A) : Type 0 where
    pub session : (s : State W) → (m s).1.session ≡ s.session
    pub sent : (s : State W) → commands (m s).1.world ≡ commands s.world

  -- A call that sends this command, or fails to; it leaves the session alone.
  pub record Sends {A : Type 0} (command : Command) (m : M W A) : Type 0 where
    pub session : (s : State W) → (m s).1.session ≡ s.session
    pub sent :
        (s : State W)
        → (commands (m s).1.world ≡ commands s.world)
          ⊎ (commands (m s).1.world ≡ command ∷ commands s.world)

  -- The world records the commands that reach the API, the latest first.
  pub record IsRecorded (rt : EquipmentRuntime W) : Type 0 where
    pub devices : Leaves rt.devices
    pub cursor : Leaves rt.cursor
    pub wait_for : (text : String) (after timeout : ℕ) → Leaves (rt.wait_for text after timeout)
    pub wait_for_any :
        (texts : List String) (after timeout : ℕ) → Leaves (rt.wait_for_any texts after timeout)
    pub done_waiting : (text : String) (after : ℕ) → Leaves (rt.done_waiting text after)
    pub offset_ns : Leaves rt.offset_ns
    pub write : (event : TimelineEvent) → Leaves (rt.write event)
    pub time : Leaves rt.time
    pub sleep : (n : ℕ) → Leaves (rt.sleep n)
    pub wait_for_stable :
        (ids : List String) (phase : String) (snapshot : EquipmentSnapshot) (timeout : ℕ)
        → Leaves (rt.wait_for_stable ids phase snapshot timeout)
    pub record_measurement : (m : Measurement) → Leaves (rt.record_measurement m)
    pub record_skip : (name reason : String) → Leaves (rt.record_skip name reason)
    pub switch : (id : String) (on : Bool) → Sends (switched id on) (rt.switch id on)
    pub write_setpoint : (id : String) (n : ℤ) → Sends (written id n) (rt.write_setpoint id n)

  -- A condition on the session and the commands so far.
  abbrev pub On : (RestorationSession → List Command → Type 0) → State W → Type 0
  On P s = P s.session (commands s.world)

  pub Leaves-keeps :
      {A : Type 0} {m : M W A} (P : RestorationSession → List Command → Type 0)
      → Leaves m
      → Keeping (On P) m
  Leaves-keeps {m} P calm = record {
    at = λ s h.
        let after : On P (m s).1 = rw (calm.session s, calm.sent s) h in
        Post-intro (λ _. On P) (On P) (m s) (λ a e. after) after;
  }

  pub Sends_lem :
      {A : Type 0} {command : Command} {m : M W A}
      (P R : RestorationSession → List Command → Type 0)
      → Sends command m
      → ((session : RestorationSession) (cs : List Command) → P session cs → R session cs)
      → ((session : RestorationSession) (cs : List Command)
          → P session cs
          → R session (command ∷ cs))
      → Triple (On P) m (λ _. On R) (On R)
  Sends_lem {m} P R sends stays steps = record {
    at = λ s h.
        let after : On R (m s).1 = elim (sends.sent s) [
          | inl e ↦ rw (sends.session s, e) (stays s.session (commands s.world) h)
          | inr e ↦ rw (sends.session s, e) (steps s.session (commands s.world) h)
        ] in
        Post-intro (λ _. On R) (On R) (m s) (λ a e. after) after;
  }

  pub IsRecorded-Keeps :
      {rt : EquipmentRuntime W} (P : RestorationSession → List Command → Type 0)
      → IsRecorded rt
      → Keeps (On P) rt
  IsRecorded-Keeps P law = record {
    devices = Leaves-keeps P law.devices;
    cursor = Leaves-keeps P law.cursor;
    wait_for = λ text after timeout. Leaves-keeps P (law.wait_for text after timeout);
    wait_for_any = λ texts after timeout. Leaves-keeps P (law.wait_for_any texts after timeout);
    done_waiting = λ text after. Leaves-keeps P (law.done_waiting text after);
    offset_ns = Leaves-keeps P law.offset_ns;
    write = λ event. Leaves-keeps P (law.write event);
    time = Leaves-keeps P law.time;
    sleep = λ n. Leaves-keeps P (law.sleep n);
    wait_for_stable = λ ids phase snapshot timeout.
        Leaves-keeps P (law.wait_for_stable ids phase snapshot timeout);
    record_measurement = λ m. Leaves-keeps P (law.record_measurement m);
    record_skip = λ name reason. Leaves-keeps P (law.record_skip name reason);
  }
