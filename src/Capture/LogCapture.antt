-- ===== src/Capture/LogCapture.antt =====
-- `parse_packet_log_line` of aqualinkd_validator/protocols/rs485/log_capture.py and
-- `LogicalSerialLogCapture` of aqualinkd_validator/adapters/log_capture.py. The regular expressions
-- are a parameter: what they capture of a line. A `false` result is a `struct.error` of the writer.
pub mod Counted
use aqualinkd_validator.Prelude.{
  ℕ, ◌+◌, String, Bool, true, false, Option, none, some, List, [], ◌∷◌, ◌++◌, ◌⊎◌, inl, inr,
  if◌then◌else◌, Bytes,
}
use aqualinkd_validator.Monitor.{LineEvent}
use aqualinkd_validator.Capture.Pcapng.{
  Direction, panel_to_aqualinkd, aqualinkd_to_panel, Flags, PcapngSerialWriter, write_frame,
}

pub data Protocol : Type 0 where
  jandy pentair : Protocol

pub record LogicalSerialPacket : Type 0 where
  pub direction : Direction
  pub protocol : Protocol
  pub destination : ℕ
  pub packet_type : String
  pub payload : Bytes
  pub bad_packet : Bool
  pub raw_line : String

pub data ParseError : Type 0 where
  no_structure no_payload : ParseError
  bad_token : String → ParseError

-- A result has a packet or an error.
pub data Parsed : Type 0 where
  packet : LogicalSerialPacket → Parsed
  unparsed : ParseError → Parsed

-- A token of the payload that is not empty: a byte, or a text that is none.
pub data Token : Type 0 where
  byte : ℕ → Token
  malformed : String → Token

-- The groups of `_PACKET_LINE`, the payload split into its tokens.
pub record Groups : Type 0 where
  pub is_read : Bool
  pub is_pentair : Bool
  pub destination : ℕ
  pub packet_type : String
  pub tokens : List Token
  pub bad : Bool

pub record Grammar : Type 0 where
  -- `_PACKET_MARKER` and `_PACKET_LINE`
  pub has_marker : String → Bool
  pub packet_line : String → Option Groups

abbrev pub prepend_byte : ℕ → ParseError ⊎ Bytes → ParseError ⊎ Bytes
prepend_byte n (inl error) = inl error
prepend_byte n (inr bytes) = inr (n ∷ bytes)

-- The bytes, or the first token that is none.
unfoldable pub bytes_of : List Token → ParseError ⊎ Bytes
bytes_of [] = inr []
bytes_of (byte n ∷ tokens) = prepend_byte n (bytes_of tokens)
bytes_of (malformed text ∷ tokens) = inl (bad_token text)

abbrev pub packet_of : String → Groups → ParseError ⊎ Bytes → Parsed
packet_of line groups (inl error) = unparsed error
packet_of line groups (inr payload) = packet (record {
  direction = if groups.is_read then panel_to_aqualinkd else aqualinkd_to_panel;
  protocol = if groups.is_pentair then pentair else jandy;
  destination = groups.destination;
  packet_type = groups.packet_type;
  payload = payload;
  bad_packet = groups.bad;
  raw_line = line;
})

abbrev pub parse_tokens : String → Groups → List Token → Parsed
parse_tokens line groups [] = unparsed no_payload
parse_tokens line groups (t ∷ ts) = packet_of line groups (bytes_of (t ∷ ts))

abbrev pub parse_match : String → Option Groups → Parsed
parse_match line none = unparsed no_structure
parse_match line (some groups) = parse_tokens line groups groups.tokens

unfoldable pub parse_packet_log_line : Grammar → String → Option Parsed
parse_packet_log_line grammar line =
    if grammar.has_marker line then some (parse_match line (grammar.packet_line line)) else none

pub record Counts : Type 0 where
  pub candidates : ℕ
  pub unparsed : ℕ
  pub packets : ℕ
  pub bad_packets : ℕ
  pub from_panel : ℕ
  pub from_aqualinkd : ℕ
  pub jandy : ℕ
  pub pentair : ℕ

-- A line of serial.jsonl.
pub data Record : Type 0 where
  invalid_record : LineEvent → ParseError → Record
  valid_record : LineEvent → LogicalSerialPacket → Record

pub data TimelineEvent : Type 0 where
  serial_packet_log_unparsed : LineEvent → ParseError → TimelineEvent
  serial_frame : LineEvent → LogicalSerialPacket → TimelineEvent

pub record LogicalSerialLogCapture : Type 0 where
  pub counts : Counts
  pub jsonl : List Record
  pub pcap : PcapngSerialWriter
  pub timeline : List TimelineEvent
  pub closed : Bool

abbrev pub new_capture : PcapngSerialWriter → LogicalSerialLogCapture
new_capture pcap = record {
  counts = record {
    candidates = 0;
    unparsed = 0;
    packets = 0;
    bad_packets = 0;
    from_panel = 0;
    from_aqualinkd = 0;
    jandy = 0;
    pentair = 0;
  };
  jsonl = [];
  pcap = pcap;
  timeline = [];
  closed = false;
}

abbrev pub count_direction : Direction → Counts → Counts
count_direction panel_to_aqualinkd c = record c { from_panel = c.from_panel + 1 }
count_direction aqualinkd_to_panel c = record c { from_aqualinkd = c.from_aqualinkd + 1 }

abbrev pub count_protocol : Protocol → Counts → Counts
count_protocol jandy c = record c { jandy = c.jandy + 1 }
count_protocol pentair c = record c { pentair = c.pentair + 1 }

abbrev pub count_bad : Bool → Counts → Counts
count_bad true c = record c { bad_packets = c.bad_packets + 1 }
count_bad false c = c

abbrev pub count_packet : LogicalSerialPacket → Counts → Counts
count_packet p c = count_bad p.bad_packet (
    count_protocol p.protocol (
      count_direction p.direction
        (record c { candidates = c.candidates + 1; packets = c.packets + 1 })))

abbrev pub log_flags : Flags
log_flags = record {
  complete = true;
  framing_exact = true;
  direction_exact = true;
  timing_exact = false;
}

-- The end of `observe`: the frame was written, or was not.
abbrev pub save_packet :
    LineEvent
    → LogicalSerialPacket
    → LogicalSerialLogCapture
    → Option PcapngSerialWriter
    → Bool × LogicalSerialLogCapture
save_packet event p t none = (false, t)
save_packet event p t (some pcap) =
    (true, record t { pcap = pcap; timeline = t.timeline ++ serial_frame event p ∷ [] })

unfoldable pub observe_result :
    LineEvent → Parsed → LogicalSerialLogCapture → Bool × LogicalSerialLogCapture
observe_result event (unparsed error) t = (
  true,
  record t {
    counts = record t.counts {
      candidates = t.counts.candidates + 1;
      unparsed = t.counts.unparsed + 1;
    };
    jsonl = t.jsonl ++ invalid_record event error ∷ [];
    timeline = t.timeline ++ serial_packet_log_unparsed event error ∷ [];
  },
)
observe_result event (packet p) t =
    save_packet event p
      (record t { counts = count_packet p t.counts; jsonl = t.jsonl ++ valid_record event p ∷ [] })
      (write_frame t.pcap p.payload p.direction event.offset_ns log_flags)

abbrev pub observe_parsed :
    LineEvent → Option Parsed → LogicalSerialLogCapture → Bool × LogicalSerialLogCapture
observe_parsed event none t = (true, t)
observe_parsed event (some result) t = if t.closed then (true, t) else observe_result event result t

unfoldable pub observe :
    Grammar → LineEvent → LogicalSerialLogCapture → Bool × LogicalSerialLogCapture
observe grammar event t = observe_parsed event (parse_packet_log_line grammar event.text) t

unfoldable pub close : LogicalSerialLogCapture → LogicalSerialLogCapture
close t = record t { closed = true }

-- The lines of a process, up to an error.
abbrev pub observe_more :
    (LogicalSerialLogCapture → Bool × LogicalSerialLogCapture)
    → Bool × LogicalSerialLogCapture
    → Bool × LogicalSerialLogCapture
observe_more rest (true, t) = rest t
observe_more rest (false, t) = (false, t)

unfoldable pub observe_all :
    Grammar → List LineEvent → LogicalSerialLogCapture → Bool × LogicalSerialLogCapture
observe_all grammar [] t = (true, t)
observe_all grammar (event ∷ events) t =
    observe_more (observe_all grammar events) (observe grammar event t)
