-- ===== src/Engine/Stability/Lasting.antt =====
-- What a stable result of `wait` rests on.
use aqualinkd_validator.Prelude.{
  ℕ, ◌-◌, ◌≤◌, String, ◌≡◌, true, Option, none, some, List, [], ◌∷◌, ◌++◌,
}
use aqualinkd_validator.Equipment.{ok, EquipmentSnapshot}
use aqualinkd_validator.Engine.Stability.{
  EquipmentStabilityConfig, Reading, Entry, unique, states_of, same_signature, pending_of,
}

-- A round that got a snapshot with readable states of all selected devices.
pub record Poll (selected : List String) : Type 0 where
  pub reading : Reading
  pub snapshot : EquipmentSnapshot
  pub states : List Entry
  pub gives : reading.fetched ≡ ok snapshot
  pub shows : states_of snapshot (unique selected) ≡ ok states

-- The rounds, where the first one has the initial snapshot.
abbrev pub effective : Option EquipmentSnapshot → List Reading → List Reading
effective none readings = readings
effective (some snapshot) [] = []
effective (some snapshot) (r ∷ rs) = record r { fetched = ok snapshot } ∷ rs

module _ (config : EquipmentStabilityConfig) (selected : List String) where
  -- The readings of some polls, the latest first, before others.
  abbrev pub unwind : List (Poll selected) → List Reading → List Reading
  unwind [] later = later
  unwind (p ∷ ps) later = unwind ps (p.reading ∷ later)

  -- Nothing is pending in any of the polls, and each shows the signature of the one before it.
  abbrev pub Steady : Poll selected → List (Poll selected) → Type 0
  Steady p [] = pending_of p.states ≡ []
  Steady p (q ∷ qs) =
      (pending_of p.states ≡ []) × (same_signature p.states q.states ≡ true) × Steady q qs

  abbrev pub oldest : Poll selected → List (Poll selected) → ℕ
  oldest p [] = p.reading.now
  oldest p (q ∷ qs) = oldest q qs

  pub record Lasting (readings : List Reading) (result : EquipmentSnapshot) : Type 0 where
    pub latest : Poll selected
    pub others : List (Poll selected)
    pub older : List (Poll selected)
    pub later : List Reading
    pub place : readings ≡ unwind (latest ∷ (others ++ older)) later
    pub steady : Steady latest others
    pub result_of_latest : latest.snapshot ≡ result
    pub span : config.stable_seconds ≤ latest.reading.now - oldest latest others

  -- Where `stable_since` comes from.
  abbrev Backed : List (Poll selected) → Option ℕ → Option (List Entry) → Type 0
  Backed past none previous = Unit
  Backed past (some t) previous =
      (p : Poll selected) × (ps : List (Poll selected)) × (older : List (Poll selected)) × (past
        ≡ p ∷ (ps ++ older))
      × (previous ≡ some p.states)
      × Steady p ps
      × (oldest p ps ≡ t)
