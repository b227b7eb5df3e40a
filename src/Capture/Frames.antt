-- ===== src/Capture/Frames.antt =====
-- `JandyFrameBuffer` of aqualinkd_validator/capture.py: frames between DLE STX and DLE ETX.
pub mod Steps
pub mod Shape
pub mod Stream
pub mod Bounds
use aqualinkd_validator.Prelude.{
  ℕ, zero, suc, ◌+◌, ◌-◌, ◌≤◌, ◌<◌, ◌≡◌, refl, Option, none, some, List, [], ◌∷◌, ◌++◌, arith,
  Bytes, length, take, drop, length-drop, ◌==◌, ◌&&◌, if◌then◌else◌, Option-cases, inl, inr,
}

-- DLE, STX and ETX.
abbrev pub dle : ℕ
dle = 0x10

abbrev pub stx : ℕ
stx = 0x02

abbrev pub etx : ℕ
etx = 0x03

-- The buffer from its first DLE STX on, `None` where it has none. (`find` and `del`.)
pub seek : Bytes → Option Bytes
seek (a ∷ b ∷ bs) =
    let rest = seek (b ∷ bs) in if a == dle && b == stx then some (a ∷ b ∷ bs) else rest
seek _ = none

-- What is kept of a buffer without DLE STX: a DLE at its end.
pub residue : Bytes → Bytes
residue [] = []
residue (a ∷ []) = if a == dle then dle ∷ [] else []
residue (a ∷ b ∷ bs) = residue (b ∷ bs)

-- The loop of `_frame_end`, over the bytes from `index` on.
pub scan_end : ℕ → Bytes → Option ℕ
scan_end index (a ∷ b ∷ bs) =
    let next = scan_end (index + 1) (b ∷ bs) in
    let escaped = scan_end (index + 2) bs in
    if a == dle
    then if b == dle then escaped else if b == etx then some (index + 2) else next
    else next
scan_end index _ = none

pub frame_end : Bytes → Option ℕ
frame_end buffer = scan_end 2 (drop 2 buffer)

-- One round of the loop of `feed`: it breaks and leaves a buffer, or cuts off a frame.
pub data Round : Type 0 where
  idle : Bytes → Round
  found : Bytes → Bytes → Round

pub next_frame : Bytes → Round
next_frame buffer = elim (seek buffer) [
  | none ↦ idle (residue buffer)
  | some start ↦ elim (frame_end start) [
    | none ↦ idle start
    | some end ↦ found (take end start) (drop end start)
  ]
]

-- The loop. A round that goes on shortens the buffer.
pub drain : ℕ → Bytes → List Bytes × Bytes
drain zero buffer = ([], buffer)
drain (suc rounds) buffer = elim (next_frame buffer) [
  | idle rest ↦ ([], rest)
  | found frame rest ↦ let (frames, left) = drain rounds rest in (frame ∷ frames, left)
]

-- `feed`, with the buffer before and after.
unfoldable pub feed : Bytes → Bytes → List Bytes × Bytes
unfolding drain next_frame seek residue scan_end frame_end
feed buffer payload = drain (suc (length (buffer ++ payload))) (buffer ++ payload)

-- `flush`: what was left, and the buffer after.
unfoldable pub flush : Bytes → Bytes × Bytes
flush buffer = (buffer, [])
