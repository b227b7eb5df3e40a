-- ===== src/Engine/Restoration.antt =====
-- `RestorationSession` of aqualinkd_validator/engine/restoration.py.
pub mod Action
pub mod Restore
pub mod Logic
pub mod Keeping
pub mod Panel
pub mod Safety
pub mod Hazard
pub mod Order
pub mod Pending
use aqualinkd_validator.Prelude.{
  ℕ, ◌+◌, ◌*◌, String, Bool, true, false, not, ◌||◌, ◌&&◌, Option, none, some, List, [], ◌∷◌, ◌++◌,
  ◌==◌, str_eq, if◌then◌else◌, lookup, insert, remove, contains, add_key, text_le, ltb,
}
use mathlib.Core.List.{filter}
use aqualinkd_validator.Prelude.Sorting.{sort}
use aqualinkd_validator.Equipment.{
  ℤ, eq_ℤ, Failure, not_captured, pending_mutations, absent, no_setpoint, Res, ok, failed,
  cancelled, DeviceState, enabled, setpoint, EquipmentSnapshot, require_device,
}
use Action.{RestorationSession, State, Callbacks, M, pure, lift, get, attempt, ◌>>=◌, ◌>>◌}

abbrev pub is_heater : String → Bool
is_heater id = str_eq id "Pool_Heater" || str_eq id "Spa_Heater" || str_eq id "Solar_Heater"

abbrev pub is_spa_mode : String → Bool
is_spa_mode id = str_eq id "Spa" || str_eq id "Spa_Mode"

abbrev pub is_filter_pump : String → Bool
is_filter_pump id = str_eq id "Filter_Pump"

-- What was restored: a state, or a setpoint.
pub data Restored : Type 0 where
  state : Bool → Restored
  setpoint_value : ℤ → Restored

pub record RestorationAction : Type 0 where
  pub target : String
  pub restored : Restored
  pub status : String

-- The parts of an error's text.
pub data RestorationError : Type 0 where
  safety_disable_error setpoint_error state_error : String → Failure → RestorationError

pub record RestorationResult : Type 0 where
  pub actions : List RestorationAction
  pub errors : List RestorationError

unfoldable pub empty_session : RestorationSession
empty_session = record {
  initial_snapshot = none;
  touched_devices = [];
  touched_setpoints = [];
  requested_states = [];
}

abbrev is_empty : List String → Bool
is_empty [] = true
is_empty (k ∷ ks) = false

unfoldable pub has_pending_mutations : RestorationSession → Bool
has_pending_mutations s = not (is_empty s.touched_devices && is_empty s.touched_setpoints)

abbrev pub same_object : EquipmentSnapshot → Option EquipmentSnapshot → Bool
same_object snapshot none = false
same_object snapshot (some other) = snapshot.object == other.object

unfoldable pub capture_initial : EquipmentSnapshot → RestorationSession → Res RestorationSession
unfolding has_pending_mutations
capture_initial snapshot s =
    if has_pending_mutations s && not (same_object snapshot s.initial_snapshot)
    then failed pending_mutations
    else ok (record s { initial_snapshot = some snapshot })

unfoldable pub begin_case : RestorationSession → RestorationSession
begin_case s = record s { touched_devices = []; touched_setpoints = [] }

unfoldable pub require_initial_device : RestorationSession → String → Res DeviceState
require_initial_device s id = elim s.initial_snapshot [
  | none ↦ failed not_captured
  | some snapshot ↦ require_device snapshot id
]

unfoldable pub touch_device : String → RestorationSession → Res RestorationSession
unfolding require_initial_device
touch_device id s = elim (require_initial_device s id) [
  | ok device ↦ ok (record s { touched_devices = add_key s.touched_devices id })
  | failed f ↦ failed f
  | cancelled ↦ cancelled
]

unfoldable pub touch_setpoint : String → RestorationSession → Res RestorationSession
unfolding require_initial_device
touch_setpoint id s = elim (require_initial_device s id) [
  | ok device ↦ ok (record s { touched_setpoints = add_key s.touched_setpoints id })
  | failed f ↦ failed f
  | cancelled ↦ cancelled
]

unfoldable pub forget_requested_state : String → RestorationSession → RestorationSession
forget_requested_state id s = record s { requested_states = remove id s.requested_states }

unfoldable pub requested_state : String → RestorationSession → Option Bool
requested_state id s = lookup id s.requested_states

unfoldable pub mark_requested_state : String → Bool → RestorationSession → RestorationSession
mark_requested_state id on s = record s { requested_states = insert id on s.requested_states }

unfoldable pub initial_device_enabled : RestorationSession → String → Res Bool
unfolding require_initial_device
initial_device_enabled s id = elim (require_initial_device s id) [
  | ok device ↦ enabled device
  | failed f ↦ failed f
  | cancelled ↦ cancelled
]

abbrev original_of : String → Res (Option ℤ) → Res ℤ
original_of id (ok none) = failed (no_setpoint id)
original_of id (ok (some n)) = ok n
original_of id (failed f) = failed f
original_of id cancelled = cancelled

unfoldable pub require_original_setpoint : RestorationSession → String → Res ℤ
unfolding require_initial_device
require_original_setpoint s id = elim (require_initial_device s id) [
  | ok device ↦ original_of id (setpoint device)
  | failed f ↦ failed f
  | cancelled ↦ cancelled
]

-- `_restoration_order`: whether the original state was on, and the rank.
unfoldable pub restoration_rank : Bool → String → ℕ
restoration_rank false id =
    if is_heater id then 0 else if is_spa_mode id then 2 else if is_filter_pump id then 3 else 1
restoration_rank true id =
    if is_filter_pump id then 0 else if is_spa_mode id then 1 else if is_heater id then 3 else 2

-- A sort key: the original state, the rank and the identifier.
pub record Key : Type 0 where
  pub on : Bool
  pub rank : ℕ
  pub id : String

abbrev pub group : Bool → ℕ
group on = if on then 1 else 0

-- The order of the tuples.
unfoldable pub key_le : Key → Key → Bool
key_le a b =
    if ltb (group a.on) (group b.on)
    then true
    else if ltb (group b.on) (group a.on)
    then false
    else if ltb a.rank b.rank
    then true
    else if ltb b.rank a.rank
    then false
    else text_le a.id b.id

abbrev pub key_of : String → Res Bool → Res Key
key_of id (ok on) = ok (record { on = on; rank = restoration_rank on id; id = id })
key_of id (failed f) = failed f
key_of id cancelled = cancelled

unfoldable pub restoration_order : RestorationSession → String → Res Key
restoration_order s id = key_of id (initial_device_enabled s id)

abbrev pub cons_key : Res Key → Res (List Key) → Res (List Key)
cons_key (ok k) (ok ks) = ok (k ∷ ks)
cons_key (ok k) r = r
cons_key (failed f) r = failed f
cons_key cancelled r = cancelled

-- The keys of a set; a key that cannot be computed ends the sort.
unfoldable pub keys_of : RestorationSession → List String → Res (List Key)
keys_of s [] = ok []
keys_of s (id ∷ ids) = cons_key (restoration_order s id) (keys_of s ids)
