-- ===== src/Engine/Restoration/Panel.antt =====
-- What a restoration assumes of the panel behind its callbacks, and a panel that meets it.
use aqualinkd_validator.Prelude.{String, ◌≡◌, Bool, false, ◌||◌, ◌&&◌, str_eq}
use aqualinkd_validator.Equipment.{ℤ, ok, DeviceState, enabled, EquipmentSnapshot, require_device}
use aqualinkd_validator.Engine.Restoration.Action.{State, Callbacks}
use aqualinkd_validator.Engine.Restoration.{is_heater}

-- What is true of the equipment, whether or not a callback reports it.
pub record Panel (W : Type 0) : Type 0 where
  pub is_on : W → String → Bool
  -- a heater's setpoint was written while the heater was on
  pub hazard : W → Bool

-- A reading is true and changes nothing; a switch that succeeds switches its device; no switch
-- touches another device; a setpoint is written where it stands.
pub record IsLawful {W : Type 0} (panel : Panel W) (cb : Callbacks W) : Type 0 where
  pub read_world : (s : State W) → (cb.read_snapshot s).1 ≡ s
  pub read_true :
      (s : State W) (snapshot : EquipmentSnapshot) (id : String) (device : DeviceState) (on : Bool)
      → (cb.read_snapshot s).0 ≡ ok snapshot
      → require_device snapshot id ≡ ok device
      → enabled device ≡ ok on
      → panel.is_on s.world id ≡ on
  pub device_sets :
      (s : State W) (id : String) (on : Bool)
      → (cb.restore_device id on s).0 ≡ ok tt
      → panel.is_on (cb.restore_device id on s).1.world id ≡ on
  pub device_others :
      (s : State W) (id : String) (on : Bool) (other : String)
      → str_eq id other ≡ false
      → panel.is_on (cb.restore_device id on s).1.world other ≡ panel.is_on s.world other
  pub device_hazard :
      (s : State W) (id : String) (on : Bool)
      → panel.hazard (cb.restore_device id on s).1.world ≡ panel.hazard s.world
  pub device_touched :
      (s : State W) (id : String) (on : Bool)
      → (cb.restore_device id on s).1.session.touched_setpoints ≡ s.session.touched_setpoints
  pub setpoint_others :
      (s : State W) (id : String) (n : ℤ) (other : String)
      → panel.is_on (cb.restore_setpoint id n s).1.world other ≡ panel.is_on s.world other
  pub setpoint_hazard :
      (s : State W) (id : String) (n : ℤ)
      → panel.hazard (cb.restore_setpoint id n s).1.world
        ≡ (panel.hazard s.world || is_heater id && panel.is_on s.world id)
