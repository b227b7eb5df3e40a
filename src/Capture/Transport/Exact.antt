-- ===== src/Capture/Transport/Exact.antt =====
-- The timeline against the bytes that were transferred.
use aqualinkd_validator.Prelude.{
  ℕ, ◌≡◌, refl, sym, ap, ◌∙◌, true, false, Option, none, some, List, [], ◌∷◌, ◌++◌, Bytes, length,
  append_assoc, append-nil, Bool-cases, inl, inr,
}
use aqualinkd_validator.Capture.Frames.{feed}
use aqualinkd_validator.Capture.Frames.Stream.{feed-append}
use aqualinkd_validator.Capture.Pcapng.{
  Direction, panel_to_aqualinkd, aqualinkd_to_panel, PcapngSerialWriter, write_frame,
}
use aqualinkd_validator.Capture.Transport.{
  Event, serial_bytes, serial_frame, CapturedSerialTransport, buffer, set_buffer, add_event,
  frame_flags, save_writer, record_frame, record_frames, record_bytes, record_all, new_transport,
}

-- An item for one direction only.
abbrev pub only {ℓ} : {A : Type ℓ} → Direction → Direction → List A → List A
only panel_to_aqualinkd panel_to_aqualinkd xs = xs
only panel_to_aqualinkd aqualinkd_to_panel xs = []
only aqualinkd_to_panel panel_to_aqualinkd xs = []
only aqualinkd_to_panel aqualinkd_to_panel xs = xs

-- The bytes that the calls transfer in a direction.
abbrev pub transferred : Direction → List (Direction × Bytes) → Bytes
transferred direction [] = []
transferred direction (chunk ∷ chunks) =
    only direction chunk.0 chunk.1 ++ transferred direction chunks

-- The bytes and the frames of a direction that the timeline holds.
abbrev pub stream : Direction → List Event → Bytes
stream direction [] = []
stream direction (serial_bytes d bytes ∷ events) = only direction d bytes ++ stream direction events
stream direction (serial_frame d exact frame ∷ events) = stream direction events

abbrev pub frames : Direction → List Event → List Bytes
frames direction [] = []
frames direction (serial_bytes d bytes ∷ events) = frames direction events
frames direction (serial_frame d exact frame ∷ events) =
    only direction d (frame ∷ []) ++ frames direction events

stream-append :
    (d : Direction) (xs ys : List Event) → stream d (xs ++ ys) ≡ stream d xs ++ stream d ys
stream-append d [] ys = refl
stream-append d (serial_bytes e bytes ∷ xs) ys =
    ap (λ zs. only d e bytes ++ zs) (stream-append d xs ys)
    ∙ sym (append_assoc (only d e bytes) (stream d xs) (stream d ys))
stream-append d (serial_frame e exact frame ∷ xs) ys = stream-append d xs ys

frames-append :
    (d : Direction) (xs ys : List Event) → frames d (xs ++ ys) ≡ frames d xs ++ frames d ys
frames-append d [] ys = refl
frames-append d (serial_bytes e bytes ∷ xs) ys = frames-append d xs ys
frames-append d (serial_frame e exact frame ∷ xs) ys =
    ap (λ zs. only d e (frame ∷ []) ++ zs) (frames-append d xs ys)
    ∙ sym (append_assoc (only d e (frame ∷ [])) (frames d xs) (frames d ys))

-- The timeline holds the bytes, the frames that the whole stream has, and the rest is buffered.
pub record Exact (d : Direction) (bytes : Bytes) (t : CapturedSerialTransport) : Type 0 where
  pub streamed : stream d t.events ≡ bytes
  pub framed : frames d t.events ≡ (feed [] bytes).0
  pub buffered : buffer d t ≡ (feed [] bytes).1

-- What the frames of a chunk change.
record Added (d e : Direction) (fs : List Bytes) (t t' : CapturedSerialTransport) : Type 0 where
  streamed : stream d t'.events ≡ stream d t.events
  framed : frames d t'.events ≡ frames d t.events ++ only d e fs
  buffered : buffer d t' ≡ buffer d t

only-nil {ℓ} : {A : Type ℓ} (d e : Direction) → only {A = A} d e [] ≡ []
only-nil panel_to_aqualinkd panel_to_aqualinkd = refl
only-nil panel_to_aqualinkd aqualinkd_to_panel = refl
only-nil aqualinkd_to_panel panel_to_aqualinkd = refl
only-nil aqualinkd_to_panel aqualinkd_to_panel = refl

only-append {ℓ} :
    {A : Type ℓ} (d e : Direction) (xs ys : List A)
    → only d e xs ++ only d e ys ≡ only d e (xs ++ ys)
only-append panel_to_aqualinkd panel_to_aqualinkd xs ys = refl
only-append panel_to_aqualinkd aqualinkd_to_panel xs ys = refl
only-append aqualinkd_to_panel panel_to_aqualinkd xs ys = refl
only-append aqualinkd_to_panel aqualinkd_to_panel xs ys = refl

events-set_buffer :
    (d : Direction) (bytes : Bytes) (t : CapturedSerialTransport)
    → (set_buffer d bytes t).events ≡ t.events
events-set_buffer panel_to_aqualinkd bytes t = refl
events-set_buffer aqualinkd_to_panel bytes t = refl

-- Feeding a chunk of the same direction goes on with the stream, and one of the other leaves it.
feed_step :
    (d e : Direction) (past payload : Bytes) (t : CapturedSerialTransport)
    → buffer d t ≡ (feed [] past).1
    → ((feed [] past).0 ++ only d e (feed (buffer e t) payload).0
        ≡ (feed [] (past ++ only d e payload)).0)
      × (buffer d (set_buffer e (feed (buffer e t) payload).1 t)
          ≡ (feed [] (past ++ only d e payload)).1)
feed_step panel_to_aqualinkd panel_to_aqualinkd past payload t h = rw (feed-append, h) (refl, refl)
feed_step panel_to_aqualinkd aqualinkd_to_panel past payload t h =
    rw (append-nil, append-nil) (refl, h)
feed_step aqualinkd_to_panel panel_to_aqualinkd past payload t h =
    rw (append-nil, append-nil) (refl, h)
feed_step aqualinkd_to_panel aqualinkd_to_panel past payload t h = rw (feed-append, h) (refl, refl)

module _ (clock : ℕ → ℕ) (d e : Direction) where
  save_writer-events :
      (t : CapturedSerialTransport) (w : Option PcapngSerialWriter)
      → ((save_writer clock t w).1.events ≡ t.events)
        × (buffer d (save_writer clock t w).1 ≡ buffer d t)
  save_writer-events t none = (refl, refl)
  save_writer-events t (some w) = (refl, same d)
    where
      same : (c : Direction) → buffer c (record t { writer = w }) ≡ buffer c t
      same panel_to_aqualinkd = refl
      same aqualinkd_to_panel = refl

  buffer-add_event :
      (c : Direction) (event : Event) (t : CapturedSerialTransport)
      → buffer c (add_event event t) ≡ buffer c t
  buffer-add_event panel_to_aqualinkd event t = refl
  buffer-add_event aqualinkd_to_panel event t = refl

  record_frame-Added :
      (frame : Bytes) (t : CapturedSerialTransport)
      → Added d e (frame ∷ []) t (record_frame clock e true frame t).1
  unfolding record_frame
  record_frame-Added frame t =
      let t₁ = add_event (serial_frame e true frame) t in
      let (same, same') =
        save_writer-events t₁
          (write_frame t₁.writer frame e (clock (length t.events)) (frame_flags true)) in
      record {
        streamed =
            ap (stream d) same
            ∙ stream-append d t.events (serial_frame e true frame ∷ [])
            ∙ append-nil (stream d t.events);
        framed =
            ap (frames d) same
            ∙ frames-append d t.events (serial_frame e true frame ∷ [])
            ∙ ap (λ zs. frames d t.events ++ zs) (append-nil (only d e (frame ∷ [])));
        buffered = same' ∙ buffer-add_event d (serial_frame e true frame) t;
      }

  record_frames-Added :
      (fs : List Bytes) (t : CapturedSerialTransport)
      → (record_frames clock e fs t).0 ≡ true
      → Added d e fs t (record_frames clock e fs t).1
  unfolding record_frames
  record_frames-Added [] t h = record {
    streamed = refl;
    framed =
        sym (ap (λ zs. frames d t.events ++ zs) (only-nil d e) ∙ append-nil (frames d t.events));
    buffered = refl;
  }
  record_frames-Added (f ∷ fs) t h =
      let after = record_frame clock e true f t in
      let first = record_frame-Added f t in
      elim (Bool-cases after.0) [
        | inr failed ↦ let q : false ≡ true = rw (failed, record_frames) at h in absurd (cc q)
        | inl saved ↦
            let rest = record_frames-Added fs after.1 (rw (saved, record_frames) at h) in
            let added : Added d e (f ∷ fs) t (record_frames clock e fs after.1).1 = record {
              streamed = rest.streamed ∙ first.streamed;
              framed =
                  rest.framed
                  ∙ ap (λ zs. zs ++ only d e fs) first.framed
                  ∙ append_assoc (frames d t.events) (only d e (f ∷ [])) (only d e fs)
                  ∙ ap (λ zs. frames d t.events ++ zs) (only-append d e (f ∷ []) fs);
              buffered = rest.buffered ∙ first.buffered;
            } in
            rw (saved, record_frames) added
      ]

  record_bytes-Exact :
      (payload past : Bytes) (t : CapturedSerialTransport)
      → Exact d past t
      → (record_bytes clock e payload t).0 ≡ true
      → Exact d (past ++ only d e payload) (record_bytes clock e payload t).1
  unfolding record_bytes
  record_bytes-Exact [] past t x h = rw (only-nil d e, append-nil) x
  record_bytes-Exact (b ∷ bs) past t x h =
      let payload = b ∷ bs in
      let t₁ = add_event (serial_bytes e payload) t in
      let fed = feed (buffer e t₁) payload in
      let t₂ = set_buffer e fed.1 t₁ in
      let added = record_frames-Added fed.0 t₂ h in
      let (whole, rest) =
        feed_step d e past payload t₁
          (buffer-add_event d (serial_bytes e payload) t ∙ x.buffered) in
      let same = events-set_buffer e fed.1 t₁ in
      record {
        streamed =
            added.streamed
            ∙ ap (stream d) same
            ∙ stream-append d t.events (serial_bytes e payload ∷ [])
            ∙ ap (λ zs. zs ++ (only d e payload ++ [])) x.streamed
            ∙ ap (λ zs. past ++ zs) (append-nil (only d e payload));
        framed =
            added.framed
            ∙ ap (λ zs. frames d zs ++ only d e fed.0) same
            ∙ ap (λ zs. zs ++ only d e fed.0)
                (frames-append d t.events (serial_bytes e payload ∷ [])
                  ∙ append-nil (frames d t.events)
                  ∙ x.framed)
            ∙ whole;
        buffered = added.buffered ∙ rest;
      }

record_all-Exact :
    (clock : ℕ → ℕ) (chunks : List (Direction × Bytes)) (past : Bytes) (t : CapturedSerialTransport)
    (d : Direction)
    → Exact d past t
    → (record_all clock chunks t).0 ≡ true
    → Exact d (past ++ transferred d chunks) (record_all clock chunks t).1
unfolding record_all
record_all-Exact clock [] past t d x h = rw append-nil x
record_all-Exact clock (chunk ∷ chunks) past t d x h =
    let after = record_bytes clock chunk.0 chunk.1 t in
    elim (Bool-cases after.0) [
      | inr failed ↦ let q : false ≡ true = rw (failed, record_all) at h in absurd (cc q)
      | inl saved ↦
          let first = record_bytes-Exact clock d chunk.0 chunk.1 past t x saved in
          let rest =
            record_all-Exact clock chunks (past ++ only d chunk.0 chunk.1) after.1 d first
              (rw (saved, record_all) at h) in
          rw
            (saved, record_all, ← append_assoc past (only d chunk.0 chunk.1) (transferred d chunks))
            rest
    ]

-- After any reads and writes that the writer could record, the timeline holds for each direction
-- exactly the bytes that were transferred, and as frames those of the whole stream, however it was
-- cut into calls; what is left of the stream is in that direction's buffer.
pub transport-Exact :
    (clock : ℕ → ℕ) (writer : PcapngSerialWriter) (chunks : List (Direction × Bytes))
    → (record_all clock chunks (new_transport writer)).0 ≡ true
    → (d : Direction)
    → Exact d (transferred d chunks) (record_all clock chunks (new_transport writer)).1
unfolding feed
transport-Exact clock writer chunks h d =
    record_all-Exact clock chunks [] (new_transport writer) d (fresh d) h
  where
    fresh : (d : Direction) → Exact d [] (new_transport writer)
    fresh panel_to_aqualinkd = record { streamed = refl; framed = refl; buffered = refl }
    fresh aqualinkd_to_panel = record { streamed = refl; framed = refl; buffered = refl }
