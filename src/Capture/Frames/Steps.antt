-- ===== src/Capture/Frames/Steps.antt =====
-- One round of `feed` on a buffer to which bytes are appended.
use aqualinkd_validator.Prelude.{
  ℕ, zero, suc, ◌+◌, ◌≤◌, ◌<◌, ◌≡◌, ap, refl, none, some, [], ◌∷◌, ◌++◌, arith, Bytes, length, take,
  drop, length-drop, Option-cases, inl, inr,
}
use aqualinkd_validator.Capture.Frames.{
  dle, stx, seek, residue, scan_end, frame_end, idle, found, next_frame,
}

seek-append : (bs cs start : Bytes) → seek bs ≡ some start → seek (bs ++ cs) ≡ some (start ++ cs)
unfolding seek
seek-append [] cs start h = cc
seek-append (a ∷ []) cs start h = cc
seek-append (a ∷ b ∷ bs) cs start h = ground (arith, seek-append (b ∷ bs) cs start)

-- A buffer without DLE STX may be cut down to its residue.
seek-residue : (bs cs : Bytes) → seek bs ≡ none → seek (bs ++ cs) ≡ seek (residue bs ++ cs)
unfolding seek residue
seek-residue [] cs h = refl
seek-residue (a ∷ []) [] h = ground arith
seek-residue (a ∷ []) (c ∷ cs) h = ground arith
seek-residue (a ∷ b ∷ bs) cs h = ground (arith, seek-residue (b ∷ bs) cs)

residue-residue : (bs cs : Bytes) → residue (bs ++ cs) ≡ residue (residue bs ++ cs)
unfolding residue
residue-residue [] cs = refl
residue-residue (a ∷ []) [] = ground arith
residue-residue (a ∷ []) (c ∷ cs) = ground arith
residue-residue (a ∷ b ∷ bs) cs = residue-residue (b ∷ bs) cs

length-residue : (bs : Bytes) → length (residue bs) ≤ length bs
unfolding residue
length-residue [] = omega arith
length-residue (a ∷ []) = ground arith
length-residue (a ∷ b ∷ bs) = omega (arith, length-residue (b ∷ bs))

-- What `seek` finds begins with DLE STX and is no longer than the buffer.
pub seek_shape :
    (bs start : Bytes)
    → seek bs ≡ some start
    → (start ≡ dle ∷ stx ∷ drop 2 start) × (length start ≤ length bs)
unfolding seek
seek_shape [] start h = cc
seek_shape (a ∷ []) start h = cc
seek_shape (a ∷ b ∷ bs) start h = ground (arith, seek_shape (b ∷ bs) start)

seek_idem : (bs cs start : Bytes) → seek bs ≡ some start → seek (start ++ cs) ≡ some (start ++ cs)
unfolding seek
seek_idem bs cs start h = let (shape, _) = seek_shape bs start h in rw shape refl

scan_end-append :
    (index : ℕ) (bs cs : Bytes) (end : ℕ)
    → scan_end index bs ≡ some end
    → scan_end index (bs ++ cs) ≡ some end
unfolding scan_end
scan_end-append index [] cs end h = cc
scan_end-append index (a ∷ []) cs end h = cc
scan_end-append index (a ∷ b ∷ bs) cs end h =
    ground
      (arith, scan_end-append (index + 1) (b ∷ bs) cs end, scan_end-append (index + 2) bs cs end)

pub scan_end_bounds :
    (index : ℕ) (bs : Bytes) (end : ℕ)
    → scan_end index bs ≡ some end
    → (index + 2 ≤ end) × (end ≤ index + length bs)
unfolding scan_end
scan_end_bounds index [] end h = cc
scan_end_bounds index (a ∷ []) end h = cc
scan_end_bounds index (a ∷ b ∷ bs) end h =
    ground (arith, scan_end_bounds (index + 1) (b ∷ bs) end, scan_end_bounds (index + 2) bs end)

take-append_le : (n : ℕ) (bs cs : Bytes) → n ≤ length bs → take n (bs ++ cs) ≡ take n bs
take-append_le zero bs cs h = refl
take-append_le (suc n) [] cs h = absurd (omega arith)
take-append_le (suc n) (b ∷ bs) cs h = rw (take-append_le n bs cs (omega arith))

drop-append_le : (n : ℕ) (bs cs : Bytes) → n ≤ length bs → drop n (bs ++ cs) ≡ drop n bs ++ cs
drop-append_le zero bs cs h = refl
drop-append_le (suc n) [] cs h = absurd (omega arith)
drop-append_le (suc n) (b ∷ bs) cs h = drop-append_le n bs cs (omega arith)

two_of_shape : (start : Bytes) → start ≡ dle ∷ stx ∷ drop 2 start → 2 ≤ length start
two_of_shape start h = omega (arith, ap length h)

-- The end of a frame lies in the buffer, and stays where it is when bytes arrive.
frame_end_facts :
    (start cs : Bytes) (end : ℕ)
    → 2 ≤ length start
    → frame_end start ≡ some end
    → (4 ≤ end) × (end ≤ length start) × (frame_end (start ++ cs) ≡ some end)
unfolding frame_end
frame_end_facts start cs end two h =
    let (low, high) = scan_end_bounds 2 (drop 2 start) end h in
    (
      omega arith,
      omega (arith, length-drop 2 start),
      rw (drop-append_le 2 start cs two) (scan_end-append 2 (drop 2 start) cs end h),
    )

-- A round that cuts off a frame cuts off the same one when more bytes have arrived.
pub next_frame-found :
    (bs cs frame rest : Bytes)
    → next_frame bs ≡ found frame rest
    → (next_frame (bs ++ cs) ≡ found frame (rest ++ cs)) × (length rest < length bs)
unfolding next_frame
next_frame-found bs cs frame rest h = elim (Option-cases (seek bs)) [
  | inl e ↦ absurd (ground arith)
  | inr (start, e) ↦ elim (Option-cases (frame_end start)) [
    | inl e' ↦ absurd (ground arith)
    | inr (end, e') ↦
        let (shape, shorter) = seek_shape bs start e in
        let (low, high, kept) = frame_end_facts start cs end (two_of_shape start shape) e' in
        ground (
          arith,
          seek-append bs cs start e,
          kept,
          take-append_le end start cs high,
          drop-append_le end start cs high,
          length-drop end start,
          shorter,
        )
  ]
]

-- A round that breaks leaves a buffer that stands for the one before.
pub next_frame-idle :
    (bs cs rest : Bytes)
    → next_frame bs ≡ idle rest
    → (next_frame (bs ++ cs) ≡ next_frame (rest ++ cs)) × (length rest ≤ length bs)
unfolding next_frame
next_frame-idle bs cs rest h = elim (Option-cases (seek bs)) [
  | inl e ↦ ground (arith, seek-residue bs cs e, residue-residue bs cs, length-residue bs)
  | inr (start, e) ↦ elim (Option-cases (frame_end start)) [
    | inl e' ↦
        ground (arith, seek-append bs cs start e, seek_idem bs cs start e, seek_shape bs start e)
    | inr (end, e') ↦ absurd (ground arith)
  ]
]
