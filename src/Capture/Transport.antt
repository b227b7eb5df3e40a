-- ===== src/Capture/Transport.antt =====
-- `CapturedSerialTransport` of aqualinkd_validator/capture.py. The clock of the timeline is a
-- function of the number of the event; a `false` result is a `struct.error` of the writer.
pub mod Exact
pub mod Saved
use aqualinkd_validator.Prelude.{
  ℕ, Bool, true, false, Option, none, some, List, [], ◌∷◌, ◌++◌, Bytes, length,
}
use aqualinkd_validator.Capture.Frames.{feed, flush}
use aqualinkd_validator.Capture.Pcapng.{
  Direction, panel_to_aqualinkd, aqualinkd_to_panel, Flags, PcapngSerialWriter, write_frame,
}

-- The events `serial_bytes` and `serial_frame`, the latter with whether its framing is exact.
pub data Event : Type 0 where
  serial_bytes : Direction → Bytes → Event
  serial_frame : Direction → Bool → Bytes → Event

pub record CapturedSerialTransport : Type 0 where
  pub from_panel : Bytes
  pub from_aqualinkd : Bytes
  pub events : List Event
  pub writer : PcapngSerialWriter
  pub closed : Bool
  pub writer_closed : Bool
  pub transport_closed : Bool

abbrev pub buffer : Direction → CapturedSerialTransport → Bytes
buffer panel_to_aqualinkd t = t.from_panel
buffer aqualinkd_to_panel t = t.from_aqualinkd

abbrev pub set_buffer : Direction → Bytes → CapturedSerialTransport → CapturedSerialTransport
set_buffer panel_to_aqualinkd bytes t = record t { from_panel = bytes }
set_buffer aqualinkd_to_panel bytes t = record t { from_aqualinkd = bytes }

abbrev pub add_event : Event → CapturedSerialTransport → CapturedSerialTransport
add_event event t = record t { events = t.events ++ event ∷ [] }

abbrev pub frame_flags : Bool → Flags
frame_flags complete = record {
  complete = complete;
  framing_exact = true;
  direction_exact = true;
  timing_exact = true;
}

module _ (clock : ℕ → ℕ) where
  -- A frame goes to the timeline and then, with the offset of that event, to the writer.
  abbrev pub save_writer :
      CapturedSerialTransport → Option PcapngSerialWriter → Bool × CapturedSerialTransport
  save_writer t none = (false, t)
  save_writer t (some writer) = (true, record t { writer = writer })

  unfoldable pub record_frame :
      Direction → Bool → Bytes → CapturedSerialTransport → Bool × CapturedSerialTransport
  record_frame direction exact frame t =
      let offset = clock (length t.events) in
      let t' = add_event (serial_frame direction exact frame) t in
      save_writer t' (write_frame t'.writer frame direction offset (frame_flags exact))

  -- The loop over the frames of a chunk.
  unfoldable pub record_frames :
      Direction → List Bytes → CapturedSerialTransport → Bool × CapturedSerialTransport
  unfolding record_frame
  record_frames direction [] t = (true, t)
  record_frames direction (frame ∷ frames) t =
      let (saved, t') = record_frame direction true frame t in
      let rest = record_frames direction frames t' in
      elim saved [ true ↦ rest | false ↦ (false, t') ]

  -- `_record`: an empty payload leaves no trace.
  unfoldable pub record_bytes :
      Direction → Bytes → CapturedSerialTransport → Bool × CapturedSerialTransport
  unfolding record_frames
  record_bytes direction [] t = (true, t)
  record_bytes direction (b ∷ bs) t =
      let t' = add_event (serial_bytes direction (b ∷ bs)) t in
      let (frames, rest) = feed (buffer direction t') (b ∷ bs) in
      record_frames direction frames (set_buffer direction rest t')

  -- The calls of `read` and `write` in their order, up to one that raises.
  unfoldable pub record_all :
      List (Direction × Bytes) → CapturedSerialTransport → Bool × CapturedSerialTransport
  unfolding record_bytes
  record_all [] t = (true, t)
  record_all (chunk ∷ chunks) t =
      let (saved, t') = record_bytes chunk.0 chunk.1 t in
      let rest = record_all chunks t' in elim saved [ true ↦ rest | false ↦ (false, t') ]

  -- A direction's part of `close`.
  abbrev pub flush_rest :
      Direction → Bytes × Bytes → CapturedSerialTransport → Bool × CapturedSerialTransport
  flush_rest direction ([], rest) t = (true, set_buffer direction rest t)
  flush_rest direction (b ∷ bs, rest) t =
      record_frame direction false (b ∷ bs) (set_buffer direction rest t)

  unfoldable pub close : CapturedSerialTransport → Bool × CapturedSerialTransport
  unfolding record_frame
  close t =
      let (saved, t₁) =
        flush_rest panel_to_aqualinkd (flush t.from_panel) (record t { closed = true }) in
      let (saved', t₂) = flush_rest aqualinkd_to_panel (flush t₁.from_aqualinkd) t₁ in
      let shut : CapturedSerialTransport → CapturedSerialTransport =
        λ u. record u { writer_closed = true; transport_closed = true } in
      elim t.closed [
        | true ↦ (true, t)
        | false ↦ elim saved [ true ↦ (saved', shut t₂) | false ↦ (false, shut t₁) ]
      ]

-- `__init__`, with a writer whose headers are written.
abbrev pub new_transport : PcapngSerialWriter → CapturedSerialTransport
new_transport writer = record {
  from_panel = [];
  from_aqualinkd = [];
  events = [];
  writer = writer;
  closed = false;
  writer_closed = false;
  transport_closed = false;
}
