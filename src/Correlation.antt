-- ===== src/Correlation.antt =====
-- correlation.py: HTTP actions against the packets of the serial log. A record holds the fields
-- that the code reads; texts of a packet are lists of code points, and only ASCII letters fold.
pub mod Conditions
pub mod Matching
pub mod Verdict
use Prim.Native.Char.{code}
use Prim.Native.String
use aqualinkd_validator.Prelude.{
  ℕ, zero, suc, ◌+◌, ◌-◌, ◌*◌, String, Bool, true, false, not, ◌&&◌, ◌||◌, Option, none, some, List,
  [], ◌∷◌, ◌++◌, ◌==◌, str_eq, leb, ltb, if◌then◌else◌, Bytes, length, all, first, select,
}

abbrev pub Text : Type 0
Text = List ℕ

abbrev pub codes : String → Text
codes String.[] = []
codes (String.◌∷◌ c s) = code c ∷ codes s

-- `casefold` on ASCII.
pub casefold : Text → Text
casefold [] = []
casefold (c ∷ s) = (if leb b'A' c && leb c b'Z' then c + 32 else c) ∷ casefold s

pub text_eq : Text → Text → Bool
text_eq [] [] = true
text_eq (a ∷ as') (b ∷ bs) = a == b && text_eq as' bs
text_eq _ _ = false

hex_digit : ℕ → Option ℕ
hex_digit c =
    if leb b'0' c && leb c b'9'
    then some (c - 48)
    else if leb b'a' c && leb c b'f'
    then some (c - 87)
    else if leb b'A' c && leb c b'F'
    then some (c - 55)
    else none

is_space : ℕ → Bool
is_space c = c == 32 || leb 9 c && leb c 13

abbrev cons_byte : Option ℕ → Option ℕ → Option Bytes → Option Bytes
cons_byte (some h) (some l) (some rest) = some ((16 * h + l) ∷ rest)
cons_byte _ _ _ = none

-- `bytes.fromhex`: pairs of digits, with spaces between the pairs.
pub from_hex : Text → Option Bytes
from_hex [] = some []
from_hex (c ∷ []) = if is_space c then some [] else none
from_hex (c ∷ d ∷ s) =
    let tail = from_hex (d ∷ s) in
    let rest = from_hex s in if is_space c then tail else cons_byte (hex_digit c) (hex_digit d) rest

pub data Kind : Type 0 where
  action_started http_acknowledged action_finished other_kind : Kind

-- An event of the timeline.
pub record Event : Type 0 where
  pub kind : Kind
  pub phase : Option String
  pub action : Option String
  pub target : Option String
  pub offset_ns : ℕ

pub data Direction : Type 0 where
  panel_to_aqualinkd aqualinkd_to_panel : Direction

-- A record of the serial log.
pub record Packet : Type 0 where
  pub valid : Bool
  pub offset_ns : ℕ
  pub direction : Option Direction
  pub packet_type : Text
  pub payload_text : Option Text

abbrev pub option_eq : Option String → Option String → Bool
option_eq none none = true
option_eq (some s) (some t) = str_eq s t
option_eq _ _ = false

-- `_identity(event) == identity`
unfoldable pub same_identity : Event → Event → Bool
same_identity a b =
    option_eq a.phase b.phase && option_eq a.action b.action && option_eq a.target b.target

abbrev pub is_kind : Kind → Kind → Bool
is_kind action_started action_started = true
is_kind http_acknowledged http_acknowledged = true
is_kind action_finished action_finished = true
is_kind other_kind other_kind = true
is_kind _ _ = false

abbrev pub before_end : ℕ → Option ℕ → Bool
before_end t none = true
before_end t (some end) = ltb t end

abbrev pub up_to_end : ℕ → Option ℕ → Bool
up_to_end t none = true
up_to_end t (some end) = leb t end

-- The test of `_first_matching`.
abbrev pub in_window : Event → ℕ → Option ℕ → Event → Bool
in_window action start end event =
    same_identity event action && leb start event.offset_ns && before_end event.offset_ns end

unfoldable pub first_matching : List Event → Event → ℕ → Option ℕ → Option Event
first_matching events action start end = first (in_window action start end) events

abbrev sixth : Bytes → Option ℕ
sixth (a ∷ b ∷ c ∷ d ∷ e ∷ f ∷ rest) = some f
sixth _ = none

abbrev pub bytes_command : Option Bytes → Option ℕ
bytes_command none = none
bytes_command (some payload) = sixth payload

-- `_command_byte`: a missing or malformed text has none.
unfoldable pub command_byte : Packet → Option ℕ
unfolding from_hex hex_digit is_space
command_byte packet = elim packet.payload_text [
  | none ↦ none
  | some text ↦ bytes_command (from_hex text)
]

abbrev pub is_command : Option ℕ → Bool
is_command none = false
is_command (some c) = not (c == 0)

abbrev pub is_direction : Direction → Option Direction → Bool
is_direction panel_to_aqualinkd (some panel_to_aqualinkd) = true
is_direction aqualinkd_to_panel (some aqualinkd_to_panel) = true
is_direction _ _ = false

-- A nonzero PDA command from AqualinkD.
unfoldable pub is_outbound_command : Packet → Bool
unfolding casefold text_eq
is_outbound_command packet =
    is_direction aqualinkd_to_panel packet.direction
    && text_eq (casefold packet.packet_type) (codes "ack w/ command")
    && is_command (command_byte packet)

abbrev pub is_outbound : ℕ → Option ℕ → Packet → Bool
is_outbound start end packet =
    leb start packet.offset_ns && up_to_end packet.offset_ns end && is_outbound_command packet

abbrev pub is_inbound : ℕ → Option ℕ → Packet → Bool
is_inbound after end packet =
    ltb after packet.offset_ns
    && up_to_end packet.offset_ns end
    && is_direction panel_to_aqualinkd packet.direction

pub data CorrelationError : Type 0 where
  no_acknowledgement no_outbound no_inbound : CorrelationError

pub data Status : Type 0 where
  not_applicable passed failed : Status

pub record ActionResult : Type 0 where
  pub request : Event
  pub acknowledged : Option Event
  pub outbound : Option Packet
  pub inbound : Option Packet
  pub errors : List CorrelationError
  pub status : Status

abbrev pub offset_of : Option Event → Option ℕ
offset_of none = none
offset_of (some event) = some event.offset_ns

abbrev pub or_else : Option ℕ → Option ℕ → Option ℕ
or_else none b = b
or_else (some a) b = some a

abbrev pub or_value : Option ℕ → ℕ → ℕ
or_value none b = b
or_value (some a) b = a

abbrev pub inbound_for : List Packet → Option ℕ → Option Packet → Option Packet
inbound_for packets end none = none
inbound_for packets end (some outbound) = first (is_inbound outbound.offset_ns end) packets

abbrev pub errors_of : Option Event → Option Packet → Option Packet → List CorrelationError
errors_of none none _ = no_acknowledgement ∷ no_outbound ∷ []
errors_of none (some o) none = no_acknowledgement ∷ no_inbound ∷ []
errors_of none (some o) (some i) = no_acknowledgement ∷ []
errors_of (some a) none _ = no_outbound ∷ []
errors_of (some a) (some o) none = no_inbound ∷ []
errors_of (some a) (some o) (some i) = []

abbrev pub no_error : List CorrelationError → Bool
no_error [] = true
no_error (e ∷ es) = false

module _ (acknowledgements finished : List Event) (packets : List Packet) where
  -- The last moment for an action: its completion, or the start of the next one.
  unfoldable pub window_end : Event → Option ℕ → Option ℕ
  unfolding first_matching
  window_end action next_start =
      or_else (offset_of (first_matching finished action action.offset_ns next_start)) next_start

  -- The body of the loop, with the start of the next action.
  unfoldable pub correlate_action : Event → Option ℕ → ActionResult
  unfolding first_matching window_end
  correlate_action action next_start =
      let start = action.offset_ns in
      let acknowledged = first_matching acknowledgements action start next_start in
      let end = window_end action next_start in
      let outbound = first (is_outbound (or_value (offset_of acknowledged) start) end) packets in
      let inbound = inbound_for packets end outbound in
      let errors = errors_of acknowledged outbound inbound in
      record {
        request = action;
        acknowledged = acknowledged;
        outbound = outbound;
        inbound = inbound;
        errors = errors;
        status = if no_error errors then passed else failed;
      }

  abbrev next_offset : List Event → Option ℕ
  next_offset [] = none
  next_offset (action ∷ actions) = some action.offset_ns

  unfoldable pub correlate_actions : List Event → List ActionResult
  correlate_actions [] = []
  correlate_actions (action ∷ actions) =
      correlate_action action (next_offset actions) ∷ correlate_actions actions

pub record Correlation : Type 0 where
  pub status : Status
  pub action_count : ℕ
  pub passed_count : ℕ
  pub failed_count : ℕ
  pub actions : List ActionResult

abbrev pub is_passed : ActionResult → Bool
is_passed r = elim r.status [ passed ↦ true | _ ↦ false ]

abbrev pub is_failed : ActionResult → Bool
is_failed r = elim r.status [ failed ↦ true | _ ↦ false ]

unfoldable pub overall : List ActionResult → Status
overall [] = not_applicable
overall (r ∷ rs) = if all is_passed (r ∷ rs) then passed else failed

-- `correlate_http_actions_with_serial`, on the records that the two files hold.
unfoldable pub correlate : List Event → List Packet → Correlation
unfolding correlate_actions overall
correlate timeline log =
    let results =
      correlate_actions (select (λ event. is_kind event.kind http_acknowledged) timeline)
        (select (λ event. is_kind event.kind action_finished) timeline)
        (select (λ packet. packet.valid) log)
        (select (λ event. is_kind event.kind action_started) timeline) in
    record {
      status = overall results;
      action_count = length results;
      passed_count = length (select is_passed results);
      failed_count = length (select is_failed results);
      actions = results;
    }
