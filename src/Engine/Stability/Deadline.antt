-- ===== src/Engine/Stability/Deadline.antt =====
-- The end of `wait`.
use aqualinkd_validator.Prelude.{
  ℕ, ◌+◌, ◌≤◌, String, ◌≡◌, true, Bool-cases, Option, none, List, [], ◌∷◌, ltb, arith, ◌⊎◌, inl,
  inr,
}
use aqualinkd_validator.Equipment.{Res-cases, EquipmentSnapshot}
use aqualinkd_validator.Engine.Stability.{
  EquipmentStabilityConfig, Reading, Watch, waiting, rounds, wait, fresh_watch, stable, timed_out,
  unusable, interrupted, either, states_of, unique, observe,
}

-- Some round begins at or after the deadline.
abbrev pub Ends : ℕ → List Reading → Type 0
Ends deadline [] = ⊥
Ends deadline (r ∷ rs) = (deadline ≤ r.checked) ⊎ Ends deadline rs

rounds-Ends :
    (config : EquipmentStabilityConfig) (selected : List String) (deadline : ℕ)
    (initial : Option EquipmentSnapshot) (rs : List Reading) (watch : Watch)
    → Ends deadline rs
    → ¬ ((rounds config selected deadline initial rs watch).0 ≡ waiting)
unfolding rounds
rounds-Ends config selected deadline initial [] watch ends h = ends
rounds-Ends config selected deadline initial (r ∷ rs) watch ends h =
    elim (Bool-cases (ltb r.checked deadline)) [
      | inr late ↦ let q : timed_out ≡ waiting = rw (late, rounds) at h in absurd (cc q)
      | inl early ↦
          let ends' : Ends deadline rs = later_end early ends in
          elim (Res-cases (either initial r.fetched)) [
            | inr (inl (f, e)) ↦
                let q : unusable f ≡ waiting = rw (early, e, rounds) at h in absurd (cc q)
            | inr (inr e) ↦
                let q : interrupted ≡ waiting = rw (early, e, rounds) at h in absurd (cc q)
            | inl (snapshot, gives) ↦ elim (Res-cases (states_of snapshot (unique selected))) [
              | inr (inl (f, e)) ↦
                  let q : unusable f ≡ waiting = rw (early, gives, e, rounds) at h in absurd (cc q)
              | inr (inr e) ↦
                  let q : interrupted ≡ waiting = rw (early, gives, e, rounds) at h in absurd (cc q)
              | inl (states, shows) ↦
                  let verdict = observe config states r.now watch in
                  let h' = rw (early, gives, shows, rounds) at h in
                  elim (Bool-cases verdict.stable) [
                    | inl done ↦ let q : stable snapshot ≡ waiting = rw done at h' in absurd (cc q)
                    | inr more ↦
                        rounds-Ends config selected deadline none rs verdict.watch ends'
                          (rw more at h')
                  ]
            ]
          ]
    ]
  where
    later_end :
        ltb r.checked deadline ≡ true → (deadline ≤ r.checked) ⊎ Ends deadline rs → Ends deadline rs
    later_end early (inl late) = absurd (ground arith)
    later_end early (inr ends') = ends'

-- `wait` ends: if some round begins at or after the deadline, then it has returned or raised.
pub wait-Ends :
    (config : EquipmentStabilityConfig) (selected : List String) (start timeout_seconds : ℕ)
    (initial : Option EquipmentSnapshot) (readings : List Reading)
    → Ends (start + timeout_seconds) readings
    → ¬ ((wait config selected start timeout_seconds initial readings).0 ≡ waiting)
unfolding wait
wait-Ends config selected start timeout_seconds initial readings ends =
    rounds-Ends config selected (start + timeout_seconds) initial readings fresh_watch ends
