-- ===== src/Tests/Reports.antt =====
-- Tests of the correlation.
use aqualinkd_validator.Prelude.{
  ℕ, ◌+◌, ◌<◌, ◌≡◌, ◌↔◌, refl, true, none, some, List, [], ◌∷◌, length, select,
}
use aqualinkd_validator.Correlation.{
  Kind, action_started, http_acknowledged, action_finished, Event, panel_to_aqualinkd,
  aqualinkd_to_panel, Packet, codes, passed, not_applicable, correlate_action, correlate, is_kind,
  same_identity, is_outbound_command, command_byte,
}
use aqualinkd_validator.Correlation.Matching.{Evidence, correlate_action-Evidence}
use aqualinkd_validator.Correlation.Verdict.{correlate_counts}

abbrev event : Kind → ℕ → Event
event kind offset_ns = record {
  kind = kind;
  phase = some "case";
  action = some "set_device";
  target = some "Spa";
  offset_ns = offset_ns;
}

abbrev command : Packet
command = record {
  valid = true;
  offset_ns = 30;
  direction = some aqualinkd_to_panel;
  packet_type = codes "Ack w/ Command";
  payload_text = some (codes "10 02 00 01 00 40 53 10 03");
}

abbrev answer : Packet
answer = record {
  valid = true;
  offset_ns = 40;
  direction = some panel_to_aqualinkd;
  packet_type = codes "Probe";
  payload_text = none;
}

abbrev timeline : List Event
timeline =
    event action_started 10
    ∷ event http_acknowledged 20
    ∷ event action_finished 50
    ∷ event action_started 60
    ∷ []

result :
    (correlate_action
      (event http_acknowledged 20 ∷ [])
      (event action_finished 50 ∷ [])
      (command ∷ answer ∷ [])
      (event action_started 10)
      (some 60)).status
    ≡ passed
unfolding correlate_action same_identity is_outbound_command command_byte
result = refl

correlate_action-Evidence_example :
    Evidence
      (event http_acknowledged 20 ∷ [])
      (event action_finished 50 ∷ [])
      (command ∷ answer ∷ [])
      (event action_started 10)
      (some 60)
correlate_action-Evidence_example =
    correlate_action-Evidence (event http_acknowledged 20 ∷ []) (event action_finished 50 ∷ [])
      (command ∷ answer ∷ []) (event action_started 10) (some 60) result

correlate_counts_example :
    let c = correlate timeline (command ∷ answer ∷ []) in
    (c.action_count ≡ length (select (λ e. is_kind e.kind action_started) timeline))
    × (c.passed_count + c.failed_count ≡ c.action_count)
    × ((c.status ≡ passed) ↔ (0 < c.action_count) × (c.failed_count ≡ 0))
    × ((c.status ≡ not_applicable) ↔ (c.action_count ≡ 0))
correlate_counts_example = correlate_counts timeline (command ∷ answer ∷ [])
