-- ===== src/Capture/Frames/Shape.antt =====
-- Which byte strings `feed` reports as frames.
use aqualinkd_validator.Prelude.{
  ℕ, zero, suc, ◌+◌, ◌-◌, ◌≡◌, ◌∙◌, ap, refl, [], ◌∷◌, ◌++◌, arith, append_assoc, Bytes, length,
  length-append, take, drop, inl, inr, Option-cases, some, All, ◌==◌, if◌then◌else◌, false,
  Bool-cases, take-append, drop-append,
}
use aqualinkd_validator.Capture.Frames.{
  dle, stx, etx, found, seek, scan_end, frame_end, next_frame, drain, feed,
}
use aqualinkd_validator.Capture.Frames.Steps.{seek_shape, scan_end_bounds}
use aqualinkd_validator.Capture.Frames.Stream.{
  push_frame, drain_rounds, Round-cases, drain_of_found,
}

-- DLE STX, a body, DLE ETX.
pub record IsFrame (frame : Bytes) : Type 0 where
  pub body : Bytes
  pub shape : frame ≡ dle ∷ stx ∷ (body ++ dle ∷ etx ∷ [])

-- The bytes before the end that `_frame_end` finds close with DLE ETX.
scan_end_close :
    (index : ℕ) (bs : Bytes) (k : ℕ)
    → scan_end index bs ≡ some (k + 2 + index)
    → take (suc (suc k)) bs ≡ take k bs ++ dle ∷ etx ∷ []
unfolding scan_end
scan_end_close index [] k h = cc
scan_end_close index (a ∷ []) k h = cc
scan_end_close index (a ∷ b ∷ bs) zero h = ground (
  arith,
  scan_end_bounds (index + 1) (b ∷ bs) (2 + index),
  scan_end_bounds (index + 2) bs (2 + index),
)
scan_end_close index (a ∷ b ∷ bs) (suc zero) h =
    ground
      (arith, scan_end_close (index + 1) (b ∷ bs) zero, scan_end_bounds (index + 2) bs (3 + index))
scan_end_close index (a ∷ b ∷ bs) (suc (suc k)) h =
    ground (arith, scan_end_close (index + 1) (b ∷ bs) (suc k), scan_end_close (index + 2) bs k)

IsFrame-at_end :
    (start : Bytes) (end : ℕ)
    → start ≡ dle ∷ stx ∷ drop 2 start
    → frame_end start ≡ some end
    → IsFrame (take end start)
unfolding frame_end
IsFrame-at_end start end shape h =
    let (low, _) = scan_end_bounds 2 (drop 2 start) end h in
    let split : end ≡ suc (suc (suc (suc (end - 4)))) = omega arith in
    let close = scan_end_close 2 (drop 2 start) (end - 4) (h ∙ ap some (omega arith)) in
    record {
      body = take (end - 4) (drop 2 start);
      shape =
          ap (λ (n : ℕ). take n start) split
          ∙ (ap (take (suc (suc (suc (suc (end - 4)))))) shape
              ∙ ap (λ (t : Bytes). dle ∷ stx ∷ t) close);
    }

next_frame-IsFrame : (bs frame rest : Bytes) → next_frame bs ≡ found frame rest → IsFrame frame
unfolding next_frame frame_end
next_frame-IsFrame bs frame rest h = elim (Option-cases (seek bs)) [
  | inl e ↦ absurd (ground arith)
  | inr (start, e) ↦ elim (Option-cases (frame_end start)) [
    | inl e' ↦ absurd (ground arith)
    | inr (end, e') ↦ ground (arith, IsFrame-at_end start end (seek_shape bs start e).0 e')
  ]
]

drain-IsFrame : (n : ℕ) (bs : Bytes) → All IsFrame (drain n bs).0
unfolding drain
drain-IsFrame zero bs = tt
drain-IsFrame (suc n) bs = elim (Round-cases (next_frame bs)) [
  | inl (rest, e) ↦ rw (e, drain) tt
  | inr (frame, rest, e) ↦ rw (e, drain) (next_frame-IsFrame bs frame rest e, drain-IsFrame n rest)
]

-- Every byte string that `feed` reports is DLE STX, a body, DLE ETX.
pub feed-IsFrame : (buffer payload : Bytes) → All IsFrame (feed buffer payload).0
unfolding feed
feed-IsFrame buffer payload = drain-IsFrame (suc (length (buffer ++ payload))) (buffer ++ payload)

-- Doubling each DLE of a payload, as a sender does that frames arbitrary bytes.
pub stuff : Bytes → Bytes
stuff [] = []
stuff (b ∷ bs) = if b == dle then dle ∷ dle ∷ stuff bs else b ∷ stuff bs

abbrev pub frame_of : Bytes → Bytes
frame_of payload = dle ∷ stx ∷ (stuff payload ++ dle ∷ etx ∷ [])

scan_end_plain :
    (index b : ℕ) (bs : Bytes)
    → (b == dle) ≡ false
    → scan_end index (b ∷ bs) ≡ scan_end (index + 1) bs
unfolding scan_end
scan_end_plain index b [] h = refl
scan_end_plain index b (c ∷ bs) h = rw h

scan_end_escaped :
    (index : ℕ) (bs : Bytes) → scan_end index (dle ∷ dle ∷ bs) ≡ scan_end (index + 2) bs
unfolding scan_end
scan_end_escaped index bs = refl

scan_end-stuff :
    (index : ℕ) (payload rest : Bytes)
    → scan_end index (stuff payload ++ dle ∷ etx ∷ rest) ≡ some (index + length (stuff payload) + 2)
unfolding stuff
scan_end-stuff index [] rest = unfold scan_end in ground arith
scan_end-stuff index (b ∷ bs) rest = elim (Bool-cases (b == dle)) [
  | inl e ↦
      rw e (scan_end_escaped index _ ∙ (scan_end-stuff (index + 2) bs rest ∙ ap some (omega arith)))
  | inr e ↦
      rw e
        (scan_end_plain index b _ e ∙ (scan_end-stuff (index + 1) bs rest ∙ ap some (omega arith)))
]

next_frame-frame_of :
    (payload rest : Bytes) → next_frame (frame_of payload ++ rest) ≡ found (frame_of payload) rest
unfolding next_frame seek frame_end
next_frame-frame_of payload rest =
    let tail = stuff payload ++ dle ∷ etx ∷ [] in
    let end : scan_end 2 (tail ++ rest) ≡ some (length (frame_of payload)) =
      rw (append_assoc (stuff payload) (dle ∷ etx ∷ []) rest) (
        scan_end-stuff 2 payload rest
        ∙ ap some (omega (arith, length-append (stuff payload) (dle ∷ etx ∷ [])))) in
    ground (arith, end, take-append (frame_of payload) rest, drop-append (frame_of payload) rest)

-- A payload, with each DLE doubled and put between DLE STX and DLE ETX, is read from an empty
-- buffer as one frame, whatever follows it; what follows is read as it would be alone.
pub feed-frame_of :
    (payload rest : Bytes)
    → feed [] (frame_of payload ++ rest) ≡ (frame_of payload ∷ (feed [] rest).0, (feed [] rest).1)
unfolding feed
feed-frame_of payload rest =
    drain_of_found (length (frame_of payload ++ rest)) (frame_of payload ++ rest) (frame_of payload)
      rest (next_frame-frame_of payload rest)
    ∙ ap (push_frame (frame_of payload)) (
        drain_rounds (length (frame_of payload ++ rest)) (suc (length rest)) rest
          (omega (arith, length-append (frame_of payload) rest)) (omega arith))
