-- ===== src/Capture/Transport/Saved.antt =====
-- When a transport records everything.
use aqualinkd_validator.Prelude.{
  ℕ, ◌+◌, ◌/◌, ◌<◌, ◌≤◌, ◌≡◌, refl, sym, ap, true, Option, none, some, List, [], ◌∷◌, Bytes, length,
  arith, All,
}
use aqualinkd_validator.Capture.Frames.{feed}
use aqualinkd_validator.Capture.Frames.Bounds.{feed-lengths}
use aqualinkd_validator.Capture.Pcapng.{
  Direction, panel_to_aqualinkd, aqualinkd_to_panel, PcapngSerialWriter, write_frame, Flags,
  frame_block,
}
use aqualinkd_validator.Capture.Pcapng.RoundTrip.{bind_inv, some_inv}
use aqualinkd_validator.Capture.Pcapng.Fits.{write_frame-fits}
use aqualinkd_validator.Capture.Transport.{
  serial_bytes, serial_frame, CapturedSerialTransport, buffer, set_buffer, add_event, frame_flags,
  save_writer, record_frame, record_frames, record_bytes, record_all, new_transport,
}
use aqualinkd_validator.Capture.Transport.Exact.{Exact, transferred, transport-Exact}

write_frame_keeps :
    (w w' : PcapngSerialWriter) (payload : Bytes) (d : Direction) (offset : ℕ) (flags : Flags)
    → write_frame w payload d offset flags ≡ some w'
    → (w'.wall_start_ns ≡ w.wall_start_ns) × (w'.capture_point ≡ w.capture_point)
unfolding write_frame
write_frame_keeps w w' payload d offset flags h =
    let (bytes, _, h') =
      bind_inv (frame_block w.wall_start_ns w.capture_point payload d offset flags) _ w' h in
    let same = sym (some_inv h') in (ap (λ v. v.wall_start_ns) same, ap (λ v. v.capture_point) same)

-- All the bytes that are transferred, in both directions.
abbrev pub total : List (Direction × Bytes) → ℕ
total [] = 0
total (chunk ∷ chunks) = length chunk.1 + total chunks

-- The numbers of a writer's blocks fit at every time of the clock.
pub record FitsClock (clock : ℕ → ℕ) (writer : PcapngSerialWriter) : Type 0 where
  pub point : writer.capture_point < 256
  pub time : (k : ℕ) → (writer.wall_start_ns + clock k) / 4294967296 < 4294967296

module _ (clock : ℕ → ℕ) where
  -- The writer is still sound, and at most `n` bytes wait in each buffer.
  record Ready (n : ℕ) (t : CapturedSerialTransport) : Type 0 where
    fits : FitsClock clock t.writer
    panel : length t.from_panel ≤ n
    aqualinkd : length t.from_aqualinkd ≤ n

  Ready-saved :
      (n : ℕ) (t : CapturedSerialTransport) (w : PcapngSerialWriter)
      → Ready n t
      → (w.wall_start_ns ≡ t.writer.wall_start_ns) × (w.capture_point ≡ t.writer.capture_point)
      → Ready n (record t { writer = w })
  Ready-saved n t w r (wall, point) = record {
    fits = record { point = rw point r.fits.point; time = λ k. rw wall (r.fits.time k) };
    panel = r.panel;
    aqualinkd = r.aqualinkd;
  }

  Saved-writer :
      (n : ℕ) (t : CapturedSerialTransport) (o : Option PcapngSerialWriter) (w : PcapngSerialWriter)
      → o ≡ some w
      → Ready n (record t { writer = w })
      → ((save_writer clock t o).0 ≡ true) × Ready n (save_writer clock t o).1
  Saved-writer n t none w h r = absurd (cc h)
  Saved-writer n t (some v) w h r = let same : w ≡ v = sym (some_inv h) in rw (← same) (refl, r)

  record_frame-Ready :
      (n : ℕ) (e : Direction) (frame : Bytes) (t : CapturedSerialTransport)
      → n + 47 < 4294967296
      → length frame ≤ n
      → Ready n t
      → ((record_frame clock e true frame t).0 ≡ true)
        × Ready n (record_frame clock e true frame t).1
  unfolding record_frame
  record_frame-Ready n e frame t small short r =
      let offset = clock (length t.events) in
      let t' = add_event (serial_frame e true frame) t in
      let r' : Ready n t' = record { fits = r.fits; panel = r.panel; aqualinkd = r.aqualinkd } in
      let (w, eq) =
        write_frame-fits t.writer frame e offset (frame_flags true) r.fits.point (omega arith)
          (r.fits.time (length t.events)) in
      Saved-writer n t' (write_frame t.writer frame e offset (frame_flags true)) w eq
        (Ready-saved n t' w r' (write_frame_keeps t.writer w frame e offset (frame_flags true) eq))

  record_frames-Ready :
      (n : ℕ) (e : Direction) (fs : List Bytes) (t : CapturedSerialTransport)
      → n + 47 < 4294967296
      → All (λ f. length f ≤ n) fs
      → Ready n t
      → ((record_frames clock e fs t).0 ≡ true) × Ready n (record_frames clock e fs t).1
  unfolding record_frames
  record_frames-Ready n e [] t small short r = (refl, r)
  record_frames-Ready n e (f ∷ fs) t small (short, shorts) r =
      let (saved, ready) = record_frame-Ready n e f t small short r in
      rw (saved, record_frames)
        (record_frames-Ready n e fs (record_frame clock e true f t).1 small shorts ready)

  Ready-chunk :
      (n m : ℕ) (e : Direction) (payload : Bytes) (t : CapturedSerialTransport)
      → n + length payload ≤ m
      → Ready n t
      → All (λ f. length f ≤ m) (feed (buffer e t) payload).0
        × Ready m (set_buffer e (feed (buffer e t) payload).1 t)
  Ready-chunk n m panel_to_aqualinkd payload t h r =
      let (fs, left) = feed-lengths t.from_panel payload m (omega (arith, r.panel)) in
      (fs, record { fits = r.fits; panel = left; aqualinkd = omega (arith, r.aqualinkd) })
  Ready-chunk n m aqualinkd_to_panel payload t h r =
      let (fs, left) = feed-lengths t.from_aqualinkd payload m (omega (arith, r.aqualinkd)) in
      (fs, record { fits = r.fits; panel = omega (arith, r.panel); aqualinkd = left })

  record_bytes-Ready :
      (n : ℕ) (e : Direction) (payload : Bytes) (t : CapturedSerialTransport)
      → n + length payload + 47 < 4294967296
      → Ready n t
      → ((record_bytes clock e payload t).0 ≡ true)
        × Ready (n + length payload) (record_bytes clock e payload t).1
  unfolding record_bytes
  record_bytes-Ready n e [] t small r = (
    refl,
    record {
      fits = r.fits;
      panel = omega (arith, r.panel);
      aqualinkd = omega (arith, r.aqualinkd);
    },
  )
  record_bytes-Ready n e (b ∷ bs) t small r =
      let payload = b ∷ bs in
      let t₁ = add_event (serial_bytes e payload) t in
      let r₁ : Ready n t₁ = record { fits = r.fits; panel = r.panel; aqualinkd = r.aqualinkd } in
      let fed = feed (buffer e t₁) payload in
      let (shorts, ready) = Ready-chunk n (n + length payload) e payload t₁ (omega arith) r₁ in
      record_frames-Ready (n + length payload) e fed.0 (set_buffer e fed.1 t₁) small shorts ready

  record_all-Ready :
      (n : ℕ) (chunks : List (Direction × Bytes)) (t : CapturedSerialTransport)
      → n + total chunks + 47 < 4294967296
      → Ready n t
      → (record_all clock chunks t).0 ≡ true
  unfolding record_all
  record_all-Ready n [] t small r = refl
  record_all-Ready n (chunk ∷ chunks) t small r =
      let (saved, ready) = record_bytes-Ready n chunk.0 chunk.1 t (omega arith) r in
      rw (saved, record_all)
        (record_all-Ready (n + length chunk.1) chunks (record_bytes clock chunk.0 chunk.1 t).1
          (omega arith) ready)

-- Where all the bytes of both directions, and 47 more, fit in 32 bits, the capture point in a byte
-- and every time of the clock in 64 bits, no read or write raises an error of the writer; and the
-- timeline then holds, for each direction, exactly the bytes that were transferred and as frames
-- those of that whole stream, with the rest in the direction's buffer.
pub transport-saves :
    (clock : ℕ → ℕ) (writer : PcapngSerialWriter) (chunks : List (Direction × Bytes))
    → total chunks + 47 < 4294967296
    → FitsClock clock writer
    → ((record_all clock chunks (new_transport writer)).0 ≡ true)
      × ((d : Direction)
          → Exact d (transferred d chunks) (record_all clock chunks (new_transport writer)).1)
transport-saves clock writer chunks small fits =
    let saved =
      record_all-Ready clock 0 chunks (new_transport writer) (omega arith)
        (record { fits = fits; panel = omega arith; aqualinkd = omega arith }) in
    (saved, transport-Exact clock writer chunks saved)
