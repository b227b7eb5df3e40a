-- ===== src/Tests/Logs.antt =====
-- A capture of three log lines.
use aqualinkd_validator.Prelude.{
  String, true, false, none, some, List, [], ◌∷◌, str_eq, if◌then◌else◌,
}
use aqualinkd_validator.Monitor.{LineEvent}
use aqualinkd_validator.Capture.Pcapng.{PcapngSerialWriter}
use aqualinkd_validator.Capture.LogCapture.{byte, Groups, Grammar, new_capture, observe_all}
use aqualinkd_validator.Capture.LogCapture.Counted.{
  IsCounted, observe_all-IsCounted, new_capture-IsCounted,
}

abbrev groups : Groups
groups = record {
  is_read = true;
  is_pentair = false;
  destination = 96;
  packet_type = "Probe";
  tokens = byte 16 ∷ byte 2 ∷ byte 96 ∷ [];
  bad = false;
}

-- The line "probe" has a packet, and every line but "other" is a candidate.
abbrev grammar : Grammar
grammar = record {
  has_marker = λ line. if str_eq line "other" then false else true;
  packet_line = λ line. if str_eq line "probe" then some groups else none;
}

abbrev event : String → LineEvent
event text = record { sequence = 1; offset_ns = 5; stream = "stdout"; text = text }

abbrev events : List LineEvent
events = event "probe" ∷ event "other" ∷ event "broken" ∷ []

abbrev pcap : PcapngSerialWriter
pcap = record { written = []; wall_start_ns = 0; capture_point = 2 }

observe_all-IsCounted_example : IsCounted (observe_all grammar events (new_capture pcap)).1
observe_all-IsCounted_example =
    observe_all-IsCounted grammar events (new_capture pcap) (new_capture-IsCounted pcap)
