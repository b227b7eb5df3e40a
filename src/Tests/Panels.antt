-- ===== src/Tests/Panels.antt =====
-- Tests of restoration and of stability.
use aqualinkd_validator.Prelude.{
  String, ◌≡◌, refl, ap, ◌∙◌, arith, Bool, true, false, ◌||◌, ◌&&◌, none, some, List, [], ◌∷◌, inl,
  inr, if◌then◌else◌, str_eq, eq_iff, Bool-cases, All, map,
}
use mathlib.Core.List.{Perm}
use aqualinkd_validator.Prelude.Sorting.{sort, Ascending}
use aqualinkd_validator.Equipment.{
  pos, Failure, callback, ok, failed, missing, value, DeviceState, enabled, EquipmentSnapshot,
  require_device,
}
use aqualinkd_validator.Engine.Restoration.Action.{RestorationSession, State, Callbacks, M}
use aqualinkd_validator.Engine.Restoration.{
  is_heater, Key, key_le, keys_of, restoration_order, initial_device_enabled, restoration_rank,
}
use aqualinkd_validator.Engine.Restoration.Restore.{restore}
use aqualinkd_validator.Engine.Restoration.Panel.{Panel, IsLawful}
use aqualinkd_validator.Engine.Restoration.Hazard.{restore-hazard}
use aqualinkd_validator.Engine.Restoration.Order.{moment, sort-keys_of}
use aqualinkd_validator.Engine.Stability.{Reading, waiting, wait}
use aqualinkd_validator.Engine.Stability.Lasting.{Lasting}
use aqualinkd_validator.Engine.Stability.Deadline.{wait-Ends}

-- A panel with one heater, and whether its setpoint was written while it was on.
record World : Type 0 where
  on : Bool
  hazard : Bool

abbrev pub heater : Bool → DeviceState
heater on = record {
  id = some "Pool_Heater";
  name = "Pool Heat";
  kind = "setpoint_thermo";
  raw_int_status = some (if on then pos 1 else pos 0);
  state = "";
  status = "";
  raw_setpoint = value (pos 80);
  raw_value = missing;
}

abbrev pub snapshot_of : Bool → EquipmentSnapshot
snapshot_of on = record { object = 1; temp_units = "f"; devices = ("Pool_Heater", heater on) ∷ [] }

abbrev pub is_pool_heater : String → Bool
is_pool_heater id = str_eq "Pool_Heater" id

abbrev panel : Panel World
panel = record { is_on = λ w id. if is_pool_heater id then w.on else false; hazard = λ w. w.hazard }

abbrev switch : Bool → String → Bool → M World (Unit {0})
switch true id on s = (ok tt, record s { world = record s.world { on = on } })
switch false id on s = (failed (callback id), s)

abbrev callbacks : Callbacks World
callbacks = record {
  read_snapshot = λ s. (ok (snapshot_of s.world.on), s);
  restore_setpoint = λ id n s. (
    ok tt,
    record s {
      world = record s.world { hazard = s.world.hazard || is_heater id && panel.is_on s.world id };
    },
  );
  restore_device = λ id on. switch (is_pool_heater id) id on;
}

enabled-heater : (on on' : Bool) → enabled (heater on) ≡ ok on' → on ≡ on'
unfolding enabled
enabled-heater true true h = refl
enabled-heater true false h = absurd (cc h)
enabled-heater false true h = absurd (cc h)
enabled-heater false false h = refl

pub read_heater :
    (on : Bool) (id : String) (device : DeviceState) (on' : Bool)
    → require_device (snapshot_of on) id ≡ ok device
    → enabled device ≡ ok on'
    → (if is_pool_heater id then on else false) ≡ on'
unfolding require_device
read_heater on id device on' h e = elim (Bool-cases (is_pool_heater id)) [
  | inl same ↦
      let q : ok (heater on) ≡ ok device = rw (same, require_device) at h in
      let q' : heater on ≡ device = device_of q in
      rw same (enabled-heater on on' (ap enabled q' ∙ e))
  | inr other ↦
      let q : failed (Failure.absent id) ≡ ok device = rw (other, require_device) at h in
      absurd (cc q)
]
  where
    device_of : {a b : DeviceState} → ok a ≡ ok b → a ≡ b
    device_of h = cc

switch_sets :
    (b : Bool) (id : String) (on : Bool) (s : State World)
    → (switch b id on s).0 ≡ ok tt
    → is_pool_heater id ≡ b
    → panel.is_on (switch b id on s).1.world id ≡ on
switch_sets true id on s h e = rw e refl
switch_sets false id on s h e = absurd (cc h)

switch_others :
    (b : Bool) (id : String) (on : Bool) (other : String) (s : State World)
    → is_pool_heater id ≡ b
    → str_eq id other ≡ false
    → panel.is_on (switch b id on s).1.world other ≡ panel.is_on s.world other
switch_others false id on other s e h = refl
switch_others true id on other s e h =
    let (same, _) = eq_iff "Pool_Heater" id in
    let not_heater : is_pool_heater other ≡ false = ap (λ k. str_eq k other) (same e) ∙ h in
    rw not_heater refl

switch_keeps :
    (b : Bool) (id : String) (on : Bool) (s : State World)
    → ((switch b id on s).1.world.hazard ≡ s.world.hazard)
      × ((switch b id on s).1.session ≡ s.session)
switch_keeps true id on s = (refl, refl)
switch_keeps false id on s = (refl, refl)

panel-IsLawful : IsLawful panel callbacks
panel-IsLawful = record {
  read_world = λ s. refl;
  read_true = λ s snapshot id device on h h' e.
      read_heater s.world.on id device on (ap (λ z. require_device z id) (snapshot_eq h) ∙ h') e;
  device_sets = λ s id on h. switch_sets (is_pool_heater id) id on s h refl;
  device_others = λ s id on other h. switch_others (is_pool_heater id) id on other s refl h;
  device_hazard = λ s id on. (switch_keeps (is_pool_heater id) id on s).0;
  device_touched =
      λ s id on. ap (λ z. z.touched_setpoints) (switch_keeps (is_pool_heater id) id on s).1;
  setpoint_others = λ s id n other. refl;
  setpoint_hazard = λ s id n. refl;
}
  where
    snapshot_eq : {a b : EquipmentSnapshot} → ok a ≡ ok b → a ≡ b
    snapshot_eq h = cc

-- The heater was off at 70 at first, and is on at 80 now.
abbrev pub initial : EquipmentSnapshot
initial = record {
  object = 0;
  temp_units = "f";
  devices = ("Pool_Heater", record (heater false) { raw_setpoint = value (pos 70) }) ∷ [];
}

abbrev touched : State World
touched = record {
  session = record {
    initial_snapshot = some initial;
    touched_devices = "Pool_Heater" ∷ [];
    touched_setpoints = "Pool_Heater" ∷ [];
    requested_states = [];
  };
  world = record { on = true; hazard = false };
}

restore-hazard_example : (restore callbacks touched).1.world.hazard ≡ false
restore-hazard_example = restore-hazard panel callbacks panel-IsLawful touched refl

-- A session that touched a heater that was off and a pump that was on.
abbrev two_touched : RestorationSession
two_touched = record {
  initial_snapshot = some (record {
    object = 0;
    temp_units = "f";
    devices = ("Pool_Heater", heater false) ∷ ("Filter_Pump", heater true) ∷ [];
  });
  touched_devices = "Filter_Pump" ∷ "Pool_Heater" ∷ [];
  touched_setpoints = [];
  requested_states = [];
}

abbrev keys : List Key
keys =
    record { on = true; rank = 0; id = "Filter_Pump" }
    ∷ record { on = false; rank = 0; id = "Pool_Heater" }
    ∷ []

keys_of_touched : keys_of two_touched ("Filter_Pump" ∷ "Pool_Heater" ∷ []) ≡ ok keys
unfolding keys_of restoration_order initial_device_enabled require_device enabled restoration_rank
keys_of_touched = refl

sort-keys_of_example :
    Ascending moment (sort key_le keys)
    × All (λ k. initial_device_enabled two_touched k.id ≡ ok k.on) (sort key_le keys)
    × Perm (map (λ k. k.id) (sort key_le keys)) ("Filter_Pump" ∷ "Pool_Heater" ∷ [])
sort-keys_of_example =
    sort-keys_of two_touched ("Filter_Pump" ∷ "Pool_Heater" ∷ []) keys keys_of_touched

-- Readings at the times 0, 300 and 600 with the heater on.
abbrev readings : List Reading
readings =
    record { checked = 0; fetched = ok (snapshot_of true); now = 10 }
    ∷ record { checked = 300; fetched = ok (snapshot_of true); now = 310 }
    ∷ record { checked = 600; fetched = ok (snapshot_of true); now = 610 }
    ∷ []

wait-Ends_example : ¬ (
    (wait (record { stable_seconds = 900 }) ("Pool_Heater" ∷ []) 0 500 none readings).0 ≡ waiting)
wait-Ends_example =
    wait-Ends (record { stable_seconds = 900 }) ("Pool_Heater" ∷ []) 0 500 none readings
      (inr (inr (inl (omega arith))))
