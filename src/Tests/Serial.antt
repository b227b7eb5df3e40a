-- ===== src/Tests/Serial.antt =====
-- Tests of the serial capture.
use aqualinkd_validator.Prelude.{
  none, ℕ, ◌%◌, ◌≡◌, refl, arith, true, some, List, [], ◌∷◌, ◌++◌, Bytes, All,
}
use aqualinkd_validator.AllButton.{
  Response, received, read_timed_out, run, new_driver, fresh_driver, AllButtonPanelDriver,
  check_ack, valid_checksum,
}
use aqualinkd_validator.AllButton.Keys.{keys}
use aqualinkd_validator.AllButton.Status.{IsSound, IsReported, run-IsSound}
use aqualinkd_validator.Capture.Frames.{feed, drain}
use aqualinkd_validator.Capture.Frames.Stream.{feed-append, drain_rounds}
use aqualinkd_validator.Capture.Frames.Shape.{IsFrame, feed-IsFrame, frame_of, feed-frame_of}
use aqualinkd_validator.Capture.Pcapng.{
  Direction, panel_to_aqualinkd, aqualinkd_to_panel, PcapngSerialWriter, write_frame,
}
use aqualinkd_validator.Capture.Transport.{new_transport, record_all, frame_flags}
use aqualinkd_validator.Capture.Pcapng.Fits.{write_frame-fits}
use aqualinkd_validator.Capture.Transport.Saved.{FitsClock, transport-saves}
use aqualinkd_validator.Capture.Transport.Exact.{Exact, transferred, transport-Exact}

-- Two frames between other bytes; the second has a doubled DLE.
abbrev line : Bytes
line =
    0x07 ∷ 0x10 ∷ 0x02 ∷ 0x01 ∷ 0x10 ∷ 0x03 ∷ 0x55 ∷ 0x10 ∷ 0x02 ∷ 0x10 ∷ 0x10 ∷ 0x03 ∷ 0x10 ∷ 0x03
    ∷ 0x10 ∷ []

feed-line : feed [] line ≡ (
  (0x10 ∷ 0x02 ∷ 0x01 ∷ 0x10 ∷ 0x03 ∷ [])
      ∷ (0x10 ∷ 0x02 ∷ 0x10 ∷ 0x10 ∷ 0x03 ∷ 0x10 ∷ 0x03 ∷ [])
      ∷ [],
  0x10 ∷ [],
)
unfolding feed
feed-line = refl

feed-append_example :
    feed [] (line ++ line)
    ≡ ((feed [] line).0 ++ (feed (feed [] line).1 line).0, (feed (feed [] line).1 line).1)
feed-append_example = feed-append [] line line

feed-IsFrame_example : All IsFrame (feed (0x10 ∷ []) line).0
feed-IsFrame_example = feed-IsFrame (0x10 ∷ []) line

feed-frame_of_example :
    feed [] (frame_of (0x10 ∷ 0x03 ∷ []) ++ line)
    ≡ (frame_of (0x10 ∷ 0x03 ∷ []) ∷ (feed [] line).0, (feed [] line).1)
feed-frame_of_example = feed-frame_of (0x10 ∷ 0x03 ∷ []) line

drain_rounds_example : drain 16 line ≡ drain 40 line
drain_rounds_example = drain_rounds 16 40 line (omega arith) (omega arith)

abbrev writer : PcapngSerialWriter
writer = record { written = []; wall_start_ns = 5000000000; capture_point = 1 }

abbrev packet : Bytes
packet = 0x10 ∷ 0x02 ∷ 0x01 ∷ 0x10 ∷ 0x03 ∷ []

-- What the writer has after one frame.
abbrev next_writer : PcapngSerialWriter
next_writer = record {
  written =
      6 ∷ 0 ∷ 0 ∷ 0 ∷ 52 ∷ 0 ∷ 0 ∷ 0 ∷ 0 ∷ 0 ∷ 0 ∷ 0 ∷ 1 ∷ 0 ∷ 0 ∷ 0 ∷ 7 ∷ 242 ∷ 5 ∷ 42 ∷ 17 ∷ 0 ∷ 0
      ∷ 0 ∷ 17 ∷ 0 ∷ 0 ∷ 0 ∷ 65 ∷ 81 ∷ 86 ∷ 49 ∷ 1 ∷ 2 ∷ 1 ∷ 15 ∷ 5 ∷ 0 ∷ 0 ∷ 0 ∷ 16 ∷ 2 ∷ 1 ∷ 16
      ∷ 3 ∷ 0 ∷ 0 ∷ 0 ∷ 52 ∷ 0 ∷ 0 ∷ 0 ∷ [];
  wall_start_ns = 5000000000;
  capture_point = 1;
}

abbrev chunks : List (Direction × Bytes)
chunks =
    (panel_to_aqualinkd, line)
    ∷ (aqualinkd_to_panel, 0x10 ∷ 0x02 ∷ [])
    ∷ (panel_to_aqualinkd, 0x02 ∷ 0x10 ∷ 0x03 ∷ [])
    ∷ []

recorded : (record_all (λ n. n) chunks (new_transport writer)).0 ≡ true
unfolding record_all feed write_frame
recorded = refl

transport-Exact_example :
    Exact panel_to_aqualinkd
      (line ++ 0x02 ∷ 0x10 ∷ 0x03 ∷ [])
      (record_all (λ n. n) chunks (new_transport writer)).1
transport-Exact_example = transport-Exact (λ n. n) writer chunks recorded panel_to_aqualinkd

write_frame-fits_example :
    (writer' : PcapngSerialWriter) × (write_frame writer packet aqualinkd_to_panel 7
        (frame_flags true)
      ≡ some writer')
write_frame-fits_example =
    write_frame-fits writer packet aqualinkd_to_panel 7 (frame_flags true) (omega arith)
      (omega arith) (omega arith)

-- A clock that starts again every million.
abbrev clock : ℕ → ℕ
clock k = k % 1000000

clock_fits : FitsClock clock writer
clock_fits = record { point = omega arith; time = λ k. omega arith }

transport-saves_example :
    ((record_all clock chunks (new_transport writer)).0 ≡ true)
    × ((d : Direction)
        → Exact d (transferred d chunks) (record_all clock chunks (new_transport writer)).1)
transport-saves_example = transport-saves clock writer chunks (omega arith) clock_fits

-- An answer of AqualinkD with the filter pump's key.
abbrev pressed : Response
pressed = received (0x10 ∷ 0x02 ∷ 0x00 ∷ 0x01 ∷ 0x00 ∷ 0x02 ∷ 0x15 ∷ 0x10 ∷ 0x03 ∷ [])

abbrev panel : AllButtonPanelDriver
panel = fresh_driver 8

three_pressed :
    (run true (pressed ∷ pressed ∷ pressed ∷ pressed ∷ []) panel).1.status ≡ 1 ∷ 0 ∷ 0 ∷ 0 ∷ 0 ∷ []
unfolding run check_ack valid_checksum
three_pressed = refl

other_identifier : new_driver 12 ≡ none
other_identifier = refl

run-IsSound_example :
    IsSound (run true (pressed ∷ pressed ∷ read_timed_out ∷ pressed ∷ []) panel).1
    × IsReported
        (keys (pressed ∷ read_timed_out ∷ pressed ∷ []))
        (run true (pressed ∷ pressed ∷ read_timed_out ∷ pressed ∷ []) panel)
run-IsSound_example =
    run-IsSound 8 panel true (pressed ∷ pressed ∷ read_timed_out ∷ pressed ∷ []) refl
