-- ===== src/Correlation/Matching.antt =====
-- What a passed action of a correlation is evidence of.
use aqualinkd_validator.Prelude.{
  ℕ, ◌≡◌, refl, ap, sym, ◌∙◌, Option, List, Option-cases, inl, inr, first,
}
use aqualinkd_validator.Correlation.{
  Event, Packet, passed, in_window, first_matching, is_outbound, is_inbound, window_end,
  inbound_for, or_value, offset_of, correlate_action,
}
use aqualinkd_validator.Correlation.Conditions.{
  IsFirst, first-IsFirst, not-first, all_found, Belongs, IsEnd, IsSent, IsAnswer, window_iff,
  outbound_iff, inbound_iff, completed, open_ended,
}

module _ (acknowledgements finished : List Event) (packets : List Packet) (action : Event)
    (next_start : Option ℕ) where
  window_end-IsEnd :
      IsEnd finished action next_start
        (window_end acknowledgements finished packets action next_start)
  unfolding window_end first_matching
  window_end-IsEnd =
      let p = in_window action action.offset_ns next_start in
      let tells = window_iff action next_start in
      elim (Option-cases (first p finished)) [
        | inl e ↦ open_ended (not-first p (Belongs action next_start) tells finished e) (rw e refl)
        | inr (x, e) ↦
            completed x (first-IsFirst p (Belongs action next_start) tells finished x e) (rw e refl)
      ]

  -- The acknowledgement, the command that followed it and the packet that answered.
  pub record Evidence : Type 0 where
    pub acknowledgement : Event
    pub command : Packet
    pub answer : Packet
    pub end : Option ℕ
    pub ends : IsEnd finished action next_start end
    pub acknowledged : IsFirst (Belongs action next_start) acknowledgements acknowledgement
    pub sent : IsFirst (IsSent acknowledgement.offset_ns end) packets command
    pub answered : IsFirst (IsAnswer command.offset_ns end) packets answer

  -- An action that passed has an acknowledgement with its phase, name and target, at or after its
  -- start and before the start of the next action; a command packet that AqualinkD sent to the panel
  -- from that time on, with a sixth byte that is not zero; and a packet of the panel after that
  -- command. Both packets lie no later than the first completion of the action, or where there is
  -- none no later than the start of the next action; and each of the three is the first of its kind.
  pub correlate_action-Evidence :
      (correlate_action acknowledgements finished packets action next_start).status ≡ passed
      → Evidence
  unfolding correlate_action first_matching
  correlate_action-Evidence h =
      let start = action.offset_ns in
      let window = in_window action start next_start in
      let end = window_end acknowledgements finished packets action next_start in
      let commands =
        λ (ack : Option Event). first (is_outbound (or_value (offset_of ack) start) end) packets in
      let acknowledged = first_matching acknowledgements action start next_start in
      let (a, o, i, ea, eo, ei) =
        all_found acknowledged (commands acknowledged)
          (inbound_for packets end (commands acknowledged)) h in
      record {
        acknowledgement = a;
        command = o;
        answer = i;
        end = end;
        ends = window_end-IsEnd;
        acknowledged =
            first-IsFirst window (Belongs action next_start) (window_iff action next_start)
              acknowledgements a ea;
        sent =
            first-IsFirst (is_outbound a.offset_ns end) (IsSent a.offset_ns end)
              (outbound_iff a.offset_ns end) packets o (sym (ap commands ea) ∙ eo);
        answered =
            first-IsFirst (is_inbound o.offset_ns end) (IsAnswer o.offset_ns end)
              (inbound_iff o.offset_ns end) packets i (sym (ap (inbound_for packets end) eo) ∙ ei);
      }
