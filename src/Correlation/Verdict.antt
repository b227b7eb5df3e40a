-- ===== src/Correlation/Verdict.antt =====
-- The counts and the status of a correlation.
use aqualinkd_validator.Prelude.{
  suc, ◌+◌, ◌<◌, ◌≡◌, ◌↔◌, refl, Bool, true, false, List, [], ◌∷◌, length, arith, All, all,
  Bool-cases, inl, inr, if◌then◌else◌, ap, select,
}
use aqualinkd_validator.Correlation.{
  Event, Packet, ActionResult, passed, failed, not_applicable, correlate_action, correlate_actions,
  is_passed, is_failed, overall, correlate, is_kind, action_started, http_acknowledged,
  action_finished, no_error,
}

-- An action either passed or failed.
abbrev Judged : ActionResult → Type 0
Judged r = r.status ≡ (if no_error r.errors then passed else failed)

count_split :
    (rs : List ActionResult)
    → All Judged rs
    → length (select is_passed rs) + length (select is_failed rs) ≡ length rs
count_split [] h = omega arith
count_split (r ∷ rs) (j, js) = ground (arith, count_split rs js)

all_passed :
    (rs : List ActionResult)
    → All Judged rs
    → (all is_passed rs ≡ true) ↔ (length (select is_failed rs) ≡ 0)
all_passed [] h = ((λ _. refl), (λ _. refl))
all_passed (r ∷ rs) (j, js) = let (to, from) = all_passed rs js in (ground arith, ground arith)

module _ (acknowledgements finished : List Event) (packets : List Packet) where
  correlate_actions-Judged :
      (actions : List Event)
      → All Judged (correlate_actions acknowledgements finished packets actions)
  unfolding correlate_actions correlate_action
  correlate_actions-Judged [] = tt
  correlate_actions-Judged (action ∷ actions) = (refl, correlate_actions-Judged actions)

  length-correlate_actions :
      (actions : List Event)
      → length (correlate_actions acknowledgements finished packets actions) ≡ length actions
  unfolding correlate_actions
  length-correlate_actions [] = refl
  length-correlate_actions (action ∷ actions) = ap suc (length-correlate_actions actions)

overall_lem :
    (rs : List ActionResult)
    → All Judged rs
    → ((overall rs ≡ passed) ↔ (0 < length rs) × (length (select is_failed rs) ≡ 0))
      × ((overall rs ≡ not_applicable) ↔ (length rs ≡ 0))
unfolding overall
overall_lem [] h = ((ground arith, ground arith), (ground arith, ground arith))
overall_lem (r ∷ rs) h =
    let (to, from) = all_passed (r ∷ rs) h in
    let no_length : ¬ (length (r ∷ rs) ≡ 0) = omega arith in
    let some_result : 0 < length (r ∷ rs) = omega arith in
    elim (Bool-cases (all is_passed (r ∷ rs))) [
      | inl e ↦ (
        ((λ _. (some_result, to e)), (λ _. rw e refl)),
        ((λ q. absurd (not_both e q)), (λ q. absurd (no_length q))),
      )
      | inr e ↦ (
        ((λ q. absurd (not_false e q)), (λ (_, none_failed). absurd (clash e (from none_failed)))),
        ((λ q. absurd (not_either e q)), (λ q. absurd (no_length q))),
      )
    ]
  where
    not_both : {b : Bool} → b ≡ true → (if b then passed else failed) ≡ not_applicable → ⊥
    not_both {b} e q = ground arith

    not_either : {b : Bool} → b ≡ false → (if b then passed else failed) ≡ not_applicable → ⊥
    not_either {b} e q = ground arith

    not_false : {b : Bool} → b ≡ false → (if b then passed else failed) ≡ passed → ⊥
    not_false {b} e q = ground arith

    clash : {b : Bool} → b ≡ false → b ≡ true → ⊥
    clash {b} e q = ground arith

-- The report of a correlation has one result for each started action; the passed and the failed
-- ones add up to all; it has passed exactly if there was an action and none failed, and it does not
-- apply exactly if there was none.
pub correlate_counts :
    (timeline : List Event) (log : List Packet)
    → let c = correlate timeline log in
      (c.action_count ≡ length (select (λ event. is_kind event.kind action_started) timeline))
      × (c.passed_count + c.failed_count ≡ c.action_count)
      × ((c.status ≡ passed) ↔ (0 < c.action_count) × (c.failed_count ≡ 0))
      × ((c.status ≡ not_applicable) ↔ (c.action_count ≡ 0))
unfolding correlate
correlate_counts timeline log =
    let acknowledgements = select (λ event. is_kind event.kind http_acknowledged) timeline in
    let finished = select (λ event. is_kind event.kind action_finished) timeline in
    let packets = select (λ packet. packet.valid) log in
    let actions = select (λ event. is_kind event.kind action_started) timeline in
    let results = correlate_actions acknowledgements finished packets actions in
    let judged = correlate_actions-Judged acknowledgements finished packets actions in
    let (when_passed, when_none) = overall_lem results judged in
    (
      length-correlate_actions acknowledgements finished packets actions,
      count_split results judged,
      when_passed,
      when_none,
    )
