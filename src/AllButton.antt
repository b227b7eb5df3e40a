-- ===== src/AllButton.antt =====
-- `AllButtonPanelDriver` of aqualinkd_validator/protocols/rs485/allbutton.py: its packets, and its
-- task `_run` over what each exchange gives. Starting, stopping and waiting for commands are left
-- out.
pub mod Keys
pub mod Status
use aqualinkd_validator.Prelude.{
  ℕ, ◌+◌, ◌-◌, ◌%◌, Bool, true, false, not, ◌&&◌, ◌||◌, List, [], ◌∷◌, ◌++◌, ◌==◌, leb, ltb,
  if◌then◌else◌, Bytes, Option, none, some, sum, length, take, drop,
}
use aqualinkd_validator.Capture.Frames.{dle, stx, etx}

-- `_frame`.
unfoldable pub frame : ℕ → ℕ → Bytes → Bytes
frame destination command payload =
    let packet = dle ∷ stx ∷ destination ∷ command ∷ payload in
    packet ++ (sum packet % 256 ∷ dle ∷ etx ∷ [])

-- The byte at a position that lies in the frame.
abbrev pub first_byte : Bytes → ℕ
first_byte [] = 0
first_byte (b ∷ bs) = b

abbrev pub byte_at : ℕ → Bytes → ℕ
byte_at n bs = first_byte (drop n bs)

-- `_valid_checksum`.
unfoldable pub valid_checksum : Bytes → Bool
valid_checksum packet =
    leb 7 (length packet)
    && sum (take (length packet - 3) packet) % 256 == byte_at (length packet - 3) packet

-- What an exchange gives after the packet: no room to send it, no answer in time, or a frame.
pub data Response : Type 0 where
  send_timed_out read_timed_out : Response
  received : Bytes → Response

-- How the task stands: it waits for the next exchange, or `PanelDriverFailure` ended it.
pub data Task : Type 0 where
  running send_failure read_failure unexpected_frame invalid_checksum : Task

pub data Ack : Type 0 where
  ack : Bytes → Ack
  failure : Task → Ack

pub record AllButtonPanelDriver : Type 0 where
  pub device_id : ℕ
  pub status : Bytes
  pub commands : List ℕ
  pub ready : Bool
  pub sent : List Bytes

-- The checks of `_exchange`.
unfoldable pub check_ack : Bytes → Ack
check_ack incoming =
    if ltb (length incoming) 9 || not (byte_at 2 incoming == 0) || not (byte_at 3 incoming == 1)
    then failure unexpected_frame
    else if not (valid_checksum incoming)
    then failure invalid_checksum
    else ack incoming

abbrev pub send : Bytes → AllButtonPanelDriver → AllButtonPanelDriver
send outgoing d = record d { sent = d.sent ++ outgoing ∷ [] }

-- The packet of a status exchange.
abbrev pub status_frame : AllButtonPanelDriver → Bytes
status_frame d = frame d.device_id 2 d.status

-- `_exchange` of a status packet.
unfoldable pub exchange : Response → AllButtonPanelDriver → Ack × AllButtonPanelDriver
exchange send_timed_out d = (failure send_failure, d)
exchange read_timed_out d = (failure read_failure, send (status_frame d) d)
exchange (received incoming) d = (check_ack incoming, send (status_frame d) d)

-- `status[0] ^= 0x01`
abbrev pub flip : Bytes → Bytes
flip [] = []
flip (s ∷ rest) = (if s % 2 == 0 then s + 1 else s - 1) ∷ rest

-- What a command does: a zero byte is none, and key 2 is the filter pump.
unfoldable pub receive : ℕ → AllButtonPanelDriver → AllButtonPanelDriver
receive command d = if command == 0 then d else record d {
  commands = d.commands ++ command ∷ [];
  status = if command == 2 then flip d.status else d.status;
}

-- The endless loop of `_run`, as far as the responses go.
unfoldable pub poll : List Response → AllButtonPanelDriver → Task × AllButtonPanelDriver
unfolding exchange receive
poll [] d = (running, d)
poll (r ∷ rs) d =
    let (result, d') = exchange r d in
    elim result [
      | failure task ↦ (task, d')
      | ack incoming ↦ poll rs (receive (byte_at 5 incoming) d')
    ]

-- After the first exchange: the driver is ready.
abbrev pub then_poll : List Response → Ack × AllButtonPanelDriver → Task × AllButtonPanelDriver
then_poll rs (failure task, d) = (task, d)
then_poll rs (ack incoming, d) = poll rs (record d { ready = true })

-- `_run`, where the probe could be sent or not.
unfoldable pub run : Bool → List Response → AllButtonPanelDriver → Task × AllButtonPanelDriver
unfolding poll
run false rs d = (send_failure, d)
run true [] d = (running, send (frame d.device_id 0 []) d)
run true (r ∷ rs) d = then_poll rs (exchange r (send (frame d.device_id 0 []) d))

-- The fields of a new driver.
abbrev pub fresh_driver : ℕ → AllButtonPanelDriver
fresh_driver device_id = record {
  device_id = device_id;
  status = 0 ∷ 0 ∷ 0 ∷ 0 ∷ 0 ∷ [];
  commands = [];
  ready = false;
  sent = [];
}

-- `__init__`: an identifier out of 0x08 to 0x0b raises `ValueError`.
abbrev pub new_driver : ℕ → Option AllButtonPanelDriver
new_driver device_id =
    if leb 0x08 device_id && leb device_id 0x0b then some (fresh_driver device_id) else none
