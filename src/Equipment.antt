-- ===== src/Equipment.antt =====
-- domain/equipment.py: the typed reading of one entry of `/api/devices`, and a snapshot.
-- `DeviceState` holds the outcome of reading each raw field: a number that `int(...)` and
-- `round(float(...))` give, and texts as `strip` and `casefold` give them.
use aqualinkd_validator.Prelude.{
  ◌≡◌, refl, ◌⊎◌, inl, inr, ℕ, String, Bool, false, not, ◌||◌, Option, none, some, List, ◌==◌,
  str_eq, if◌then◌else◌, lookup,
}
use text.Mathlib.Text.{starts_with}

-- Python's int.
pub data ℤ : Type 0 where
  pos : ℕ → ℤ
  negsuc : ℕ → ℤ

abbrev pub eq_ℤ : ℤ → ℤ → Bool
eq_ℤ (pos a) (pos b) = a == b
eq_ℤ (negsuc a) (negsuc b) = a == b
eq_ℤ _ _ = false

-- What the model's code raises: `EquipmentStateError`, `RuntimeError`, or what a callback raised.
pub data Failure : Type 0 where
  no_identifier not_captured pending_mutations : Failure
  invalid_status invalid_setpoint absent no_setpoint : String → Failure
  callback : String → Failure
  -- raised by equipment actions and the observer of programmer tasks
  not_converged not_active not_completed no_markers : String → Failure
  programmer_error : String → Failure
  no_log_marker out_of_fuel : Failure

-- A call that may raise an `Exception`, or be cancelled.
pub data Res {ℓ} (A : Type ℓ) : Type ℓ where
  ok : A → Res A
  failed : Failure → Res A
  cancelled : Res A

pub data Setpoint : Type 0 where
  missing invalid : Setpoint
  value : ℤ → Setpoint

pub record DeviceState : Type 0 where
  pub id : Option String
  pub name : String
  pub kind : String
  pub raw_int_status : Option ℤ
  pub state : String
  pub status : String
  pub raw_setpoint : Setpoint
  pub raw_value : Setpoint

abbrev shown_id : DeviceState → String
shown_id device = elim device.id [ none ↦ "<unknown>" | some id ↦ id ]

unfoldable pub identifier : DeviceState → Res String
identifier device = elim device.id [
  | none ↦ failed no_identifier
  | some id ↦ if str_eq id "" then failed no_identifier else ok id
]

unfoldable pub int_status : DeviceState → Res ℤ
int_status device = elim device.raw_int_status [
  | none ↦ failed (invalid_status (shown_id device))
  | some n ↦ ok n
]

unfoldable pub enabled : DeviceState → Res Bool
unfolding int_status
enabled device = elim (int_status device) [
  | ok n ↦ ok (not (eq_ℤ n (pos 0)))
  | failed f ↦ failed f
  | cancelled ↦ cancelled
]

unfoldable pub active : DeviceState → Res Bool
unfolding int_status
active device = elim (int_status device) [
  | ok n ↦ ok (eq_ℤ n (pos 1))
  | failed f ↦ failed f
  | cancelled ↦ cancelled
]

-- `part in text`
abbrev pub has_part : String → String → Bool
has_part part String.[] = starts_with String.[] part
has_part part (String.◌∷◌ c s) = starts_with (String.◌∷◌ c s) part || has_part part s

abbrev in_transition : ℤ → String → String → Bool
in_transition n state status =
    eq_ℤ n (pos 2)
    || eq_ℤ n (pos 4)
    || has_part "***" state
    || has_part "***" status
    || str_eq status "flash"
    || str_eq status "flashing"
    || str_eq status "pending"
    || str_eq status "unknown"

unfoldable pub transitioning : DeviceState → Res Bool
unfolding int_status
transitioning device = elim (int_status device) [
  | ok n ↦ ok (in_transition n device.state device.status)
  | failed f ↦ failed f
  | cancelled ↦ cancelled
]

unfoldable pub setpoint : DeviceState → Res (Option ℤ)
setpoint device = elim device.raw_setpoint [
  | missing ↦ ok none
  | invalid ↦ failed (invalid_setpoint (shown_id device))
  | value n ↦ ok (some n)
]

unfoldable pub requested_state_label : DeviceState → Bool → String
requested_state_label device on =
    if str_eq device.kind "setpoint_thermo"
    then if on then "enabled" else "disabled"
    else if on
    then "on"
    else "off"

-- A snapshot is an object: `is` compares `object`.
pub record EquipmentSnapshot : Type 0 where
  pub object : ℕ
  pub temp_units : String
  pub devices : List (String × DeviceState)

unfoldable pub require_device : EquipmentSnapshot → String → Res DeviceState
require_device snapshot id = elim (lookup id snapshot.devices) [
  | none ↦ failed (absent id)
  | some device ↦ ok device
]

-- The result of `device_state_details`.
pub record Details : Type 0 where
  pub shown_status : ℤ
  pub shown_state : String
  pub status_text : String
  pub is_enabled : Bool
  pub is_active : Bool
  pub is_transitioning : Bool

unfoldable pub device_state_details : DeviceState → Res Details
unfolding int_status
device_state_details device = elim (int_status device) [
  | ok n ↦ ok (record {
    shown_status = n;
    shown_state = device.state;
    status_text = device.status;
    is_enabled = not (eq_ℤ n (pos 0));
    is_active = eq_ℤ n (pos 1);
    is_transitioning = in_transition n device.state device.status;
  })
  | failed f ↦ failed f
  | cancelled ↦ cancelled
]

pub Res-cases {ℓ} :
    {A : Type ℓ} (r : Res A)
    → ((a : A) × (r ≡ ok a)) ⊎ ((f : Failure) × (r ≡ failed f)) ⊎ (r ≡ cancelled)
Res-cases (ok a) = inl (a, refl)
Res-cases (failed f) = inr (inl (f, refl))
Res-cases cancelled = inr (inr refl)
