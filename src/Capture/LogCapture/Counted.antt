-- ===== src/Capture/LogCapture/Counted.antt =====
-- The counts of a capture against what it has written.
use aqualinkd_validator.Prelude.{
  ℕ, ◌+◌, ◌≤◌, ◌≡◌, refl, Bool, true, false, Option, none, some, List, [], ◌∷◌, ◌++◌, if◌then◌else◌,
  length, length-append, arith,
}
use aqualinkd_validator.Monitor.{LineEvent}
use aqualinkd_validator.Capture.Pcapng.{
  Direction, panel_to_aqualinkd, aqualinkd_to_panel, PcapngSerialWriter, write_frame,
}
use aqualinkd_validator.Capture.LogCapture.{
  Protocol, jandy, pentair, LogicalSerialPacket, Parsed, packet, unparsed, Grammar, Counts, Record,
  valid_record, invalid_record, LogicalSerialLogCapture, new_capture, count_direction,
  count_protocol, count_bad, count_packet, save_packet, observe_result, observe_parsed, observe,
  observe_more, observe_all, parse_packet_log_line, log_flags,
}

-- How many records hold a packet.
abbrev pub valid_records : List Record → ℕ
valid_records [] = 0
valid_records (valid_record event p ∷ records) = 1 + valid_records records
valid_records (invalid_record event error ∷ records) = valid_records records

-- The totals agree with each other and with the lines of serial.jsonl.
pub record IsCounted (t : LogicalSerialLogCapture) : Type 0 where
  pub lines : length t.jsonl ≡ t.counts.candidates
  pub kinds : t.counts.packets + t.counts.unparsed ≡ t.counts.candidates
  pub valid : valid_records t.jsonl ≡ t.counts.packets
  pub directions : t.counts.from_panel + t.counts.from_aqualinkd ≡ t.counts.packets
  pub protocols : t.counts.jandy + t.counts.pentair ≡ t.counts.packets
  pub bad : t.counts.bad_packets ≤ t.counts.packets

valid_records-append :
    (xs : List Record) (x : Record)
    → valid_records (xs ++ x ∷ []) ≡ valid_records xs + valid_records (x ∷ [])
valid_records-append [] x = omega arith
valid_records-append (valid_record event p ∷ xs) x = omega (arith, valid_records-append xs x)
valid_records-append (invalid_record event error ∷ xs) x = omega (arith, valid_records-append xs x)

-- What a packet adds to the counts.
abbrev Added : Counts → Counts → Type 0
Added c c' =
    (c'.candidates ≡ c.candidates + 1)
    × (c'.packets ≡ c.packets + 1)
    × (c'.unparsed ≡ c.unparsed)
    × (c'.from_panel + c'.from_aqualinkd ≡ c.from_panel + c.from_aqualinkd + 1)
    × (c'.jandy + c'.pentair ≡ c.jandy + c.pentair + 1)
    × (c'.bad_packets ≤ c.bad_packets + 1)

added :
    (d : Direction) (q : Protocol) (b : Bool) (c : Counts)
    → Added c (
        count_bad b (
          count_protocol q (
            count_direction d
              (record c { candidates = c.candidates + 1; packets = c.packets + 1 }))))
added panel_to_aqualinkd jandy true c = ground arith
added panel_to_aqualinkd jandy false c = ground arith
added panel_to_aqualinkd pentair true c = ground arith
added panel_to_aqualinkd pentair false c = ground arith
added aqualinkd_to_panel jandy true c = ground arith
added aqualinkd_to_panel jandy false c = ground arith
added aqualinkd_to_panel pentair true c = ground arith
added aqualinkd_to_panel pentair false c = ground arith

packet-IsCounted :
    (event : LineEvent) (p : LogicalSerialPacket) (t : LogicalSerialLogCapture) (c : Counts)
    → Added t.counts c
    → IsCounted t
    → IsCounted (record t { counts = c; jsonl = t.jsonl ++ valid_record event p ∷ [] })
packet-IsCounted event p t c (e₁, e₂, e₃, e₄, e₅, e₆) h = record {
  lines = omega (arith, e₁, h.lines, length-append t.jsonl (valid_record event p ∷ []));
  kinds = omega (arith, e₁, e₂, e₃, h.kinds);
  valid = omega (arith, e₂, h.valid, valid_records-append t.jsonl (valid_record event p));
  directions = omega (arith, e₂, e₄, h.directions);
  protocols = omega (arith, e₂, e₅, h.protocols);
  bad = omega (arith, e₂, e₆, h.bad);
}

saved-IsCounted :
    (event : LineEvent) (p : LogicalSerialPacket) (t : LogicalSerialLogCapture)
    (o : Option PcapngSerialWriter)
    → IsCounted t
    → IsCounted (save_packet event p t o).1
saved-IsCounted event p t none h = h
saved-IsCounted event p t (some pcap) h = record {
  lines = h.lines;
  kinds = h.kinds;
  valid = h.valid;
  directions = h.directions;
  protocols = h.protocols;
  bad = h.bad;
}

observe_result-IsCounted :
    (event : LineEvent) (r : Parsed) (t : LogicalSerialLogCapture)
    → IsCounted t
    → IsCounted (observe_result event r t).1
unfolding observe_result
observe_result-IsCounted event (unparsed error) t h = record {
  lines = omega (arith, h.lines, length-append t.jsonl (invalid_record event error ∷ []));
  kinds = omega (arith, h.kinds);
  valid = omega (arith, h.valid, valid_records-append t.jsonl (invalid_record event error));
  directions = h.directions;
  protocols = h.protocols;
  bad = h.bad;
}
observe_result-IsCounted event (packet p) t h =
    saved-IsCounted event p _ (write_frame t.pcap p.payload p.direction event.offset_ns log_flags) (
      packet-IsCounted event p t (count_packet p t.counts)
        (added p.direction p.protocol p.bad_packet t.counts) h)

observe-IsCounted :
    (grammar : Grammar) (event : LineEvent) (t : LogicalSerialLogCapture)
    → IsCounted t
    → IsCounted (observe grammar event t).1
unfolding observe
observe-IsCounted grammar event t h = parsed (parse_packet_log_line grammar event.text)
  where
    parsed : (o : Option Parsed) → IsCounted (observe_parsed event o t).1
    parsed none = h
    parsed (some r) = unless_closed t.closed
      where
        unless_closed : (b : Bool) → IsCounted (if b then (true, t) else observe_result event r t).1
        unless_closed true = h
        unless_closed false = observe_result-IsCounted event r t h

-- Whatever lines a capture observes, up to an error of the writer or not: serial.jsonl has one line
-- for each candidate and one with a packet for each packet, the candidates are the packets and what
-- could not be parsed, and the packets are those of both directions, and those of both protocols.
pub observe_all-IsCounted :
    (grammar : Grammar) (events : List LineEvent) (t : LogicalSerialLogCapture)
    → IsCounted t
    → IsCounted (observe_all grammar events t).1
unfolding observe_all
observe_all-IsCounted grammar [] t h = h
observe_all-IsCounted grammar (event ∷ events) t h =
    more (observe grammar event t) (observe-IsCounted grammar event t h)
      (λ t' h'. observe_all-IsCounted grammar events t' h')
  where
    more :
        (r : Bool × LogicalSerialLogCapture)
        → IsCounted r.1
        → ((t' : LogicalSerialLogCapture)
            → IsCounted t'
            → IsCounted (observe_all grammar events t').1)
        → IsCounted (observe_more (observe_all grammar events) r).1
    more (true, t') h' rest = rest t' h'
    more (false, t') h' rest = h'

pub new_capture-IsCounted : (pcap : PcapngSerialWriter) → IsCounted (new_capture pcap)
new_capture-IsCounted pcap = record {
  lines = refl;
  kinds = refl;
  valid = refl;
  directions = refl;
  protocols = refl;
  bad = omega arith;
}
