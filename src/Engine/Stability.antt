-- ===== src/Engine/Stability.antt =====
-- `EquipmentStabilityService.wait` of aqualinkd_validator/engine/equipment_stability.py. The rounds
-- of its loop are a list: what the clock and the API give in each, in the order of the calls.
pub mod Lasting
pub mod Deadline
use aqualinkd_validator.Prelude.{
  ℕ, ◌+◌, ◌-◌, String, Bool, true, false, not, ◌&&◌, ◌||◌, Option, none, some, List, [], ◌∷◌, ◌++◌,
  str_eq, if◌then◌else◌, ltb, leb,
}
use aqualinkd_validator.Equipment.{
  ℤ, eq_ℤ, Failure, Res, ok, failed, cancelled, DeviceState, EquipmentSnapshot, require_device,
  Details, device_state_details,
}

-- Times in one unit.
pub record EquipmentStabilityConfig : Type 0 where
  pub stable_seconds : ℕ

-- A round: the time of the loop's test, what `self._api.devices()` gives, and the time `now`.
pub record Reading : Type 0 where
  pub checked : ℕ
  pub fetched : Res EquipmentSnapshot
  pub now : ℕ

pub record Entry : Type 0 where
  pub id : String
  pub details : Details

pub record Observation : Type 0 where
  pub stable : Bool
  pub pending : List String
  pub states : List Entry

-- The variables of the loop, and what was recorded, the latest last.
pub record Watch : Type 0 where
  pub stable_since : Option ℕ
  pub previous_signature : Option (List Entry)
  pub recorded_signature : Option (List Entry)
  pub observations : List Observation

-- The keys of a dict that is filled in this order: each at its first place.
without : String → List String → List String
without id [] = []
without id (k ∷ ks) = let rest = without id ks in if str_eq k id then rest else k ∷ rest

unfoldable pub unique : List String → List String
unfolding without
unique [] = []
unique (id ∷ ids) = id ∷ without id (unique ids)

abbrev pub details_of : Res DeviceState → Res Details
details_of (ok device) = device_state_details device
details_of (failed f) = failed f
details_of cancelled = cancelled

abbrev pub cons_entry : String → Res Details → Res (List Entry) → Res (List Entry)
cons_entry id (ok details) (ok rest) = ok (record { id = id; details = details } ∷ rest)
cons_entry id (ok details) (failed f) = failed f
cons_entry id (ok details) cancelled = cancelled
cons_entry id (failed f) rest = failed f
cons_entry id cancelled rest = cancelled

-- The dict `states`.
unfoldable pub states_of : EquipmentSnapshot → List String → Res (List Entry)
states_of snapshot [] = ok []
states_of snapshot (id ∷ ids) =
    cons_entry id (details_of (require_device snapshot id)) (states_of snapshot ids)

-- Signatures are equal if they show the same identifiers, numbers and texts.
abbrev same_entry : Entry → Entry → Bool
same_entry a b =
    str_eq a.id b.id
    && eq_ℤ a.details.shown_status b.details.shown_status
    && str_eq a.details.shown_state b.details.shown_state
    && str_eq a.details.status_text b.details.status_text

unfoldable pub same_signature : List Entry → List Entry → Bool
same_signature [] [] = true
same_signature (a ∷ as') (b ∷ bs) = same_entry a b && same_signature as' bs
same_signature _ _ = false

abbrev pub matches : List Entry → Option (List Entry) → Bool
matches signature none = false
matches signature (some previous) = same_signature signature previous

unfoldable pub pending_of : List Entry → List String
pending_of [] = []
pending_of (e ∷ es) =
    let rest = pending_of es in if e.details.is_transitioning then e.id ∷ rest else rest

abbrev pub is_empty {ℓ} : {A : Type ℓ} → List A → Bool
is_empty [] = true
is_empty (x ∷ xs) = false

-- The new `stable_since`.
unfoldable pub since : Bool → Bool → ℕ → Option ℕ → Option ℕ
since quiet same now old =
    if not quiet || not same
    then if quiet then some now else none
    else elim old [ none ↦ some now | some t ↦ some t ]

abbrev pub has_lasted : ℕ → ℕ → Option ℕ → Bool
has_lasted stable_seconds now none = false
has_lasted stable_seconds now (some t) = leb stable_seconds (now - t)

pub record Verdict : Type 0 where
  pub watch : Watch
  pub stable : Bool

-- A round once its states are known.
unfoldable pub observe : EquipmentStabilityConfig → List Entry → ℕ → Watch → Verdict
unfolding pending_of since same_signature
observe config states now watch =
    let pending = pending_of states in
    let quiet = is_empty pending in
    let stable_since =
      since quiet (matches states watch.previous_signature) now watch.stable_since in
    let done = quiet && has_lasted config.stable_seconds now stable_since in
    let changed =
      if matches states watch.recorded_signature
      then []
      else record { stable = false; pending = pending; states = states } ∷ [] in
    let settled =
      if done then record { stable = true; pending = []; states = states } ∷ [] else [] in
    record {
      watch = record {
        stable_since = stable_since;
        previous_signature = some states;
        recorded_signature = some states;
        observations = watch.observations ++ changed ++ settled;
      };
      stable = done;
    }

-- `timed_out` is the failure after the loop; `waiting` if the rounds end before the loop does.
pub data Waited : Type 0 where
  stable : EquipmentSnapshot → Waited
  timed_out waiting interrupted : Waited
  unusable : Failure → Waited

abbrev pub either : Option EquipmentSnapshot → Res EquipmentSnapshot → Res EquipmentSnapshot
either none fetched = fetched
either (some snapshot) fetched = ok snapshot

unfoldable pub rounds :
    EquipmentStabilityConfig
    → List String
    → ℕ
    → Option EquipmentSnapshot
    → List Reading
    → Watch
    → Waited × Watch
unfolding unique
rounds config selected deadline initial [] watch = (waiting, watch)
rounds config selected deadline initial (r ∷ rs) watch = elim (ltb r.checked deadline) [
  | false ↦ (timed_out, watch)
  | true ↦ elim (either initial r.fetched) [
    | failed f ↦ (unusable f, watch)
    | cancelled ↦ (interrupted, watch)
    | ok snapshot ↦ elim (states_of snapshot (unique selected)) [
      | failed f ↦ (unusable f, watch)
      | cancelled ↦ (interrupted, watch)
      | ok states ↦
          let verdict = observe config states r.now watch in
          let later = rounds config selected deadline none rs verdict.watch in
          elim verdict.stable [ true ↦ (stable snapshot, verdict.watch) | false ↦ later ]
    ]
  ]
]

abbrev pub fresh_watch : Watch
fresh_watch = record {
  stable_since = none;
  previous_signature = none;
  recorded_signature = none;
  observations = [];
}

-- `wait`, called at the time `start`.
unfoldable pub wait :
    EquipmentStabilityConfig
    → List String
    → ℕ
    → ℕ
    → Option EquipmentSnapshot
    → List Reading
    → Waited × Watch
unfolding rounds
wait config selected start timeout_seconds initial readings =
    rounds config selected (start + timeout_seconds) initial readings fresh_watch
