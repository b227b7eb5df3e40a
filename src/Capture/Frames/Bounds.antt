-- ===== src/Capture/Frames/Bounds.antt =====
-- The lengths of the frames.
use aqualinkd_validator.Prelude.{
  ℕ, zero, suc, ◌+◌, ◌≤◌, ◌≡◌, List, [], ◌∷◌, ◌++◌, arith, Bytes, length, take, drop, length-append,
  Option-cases, inl, inr, All,
}
use aqualinkd_validator.Capture.Frames.{seek, frame_end, found, next_frame, drain, feed}
use aqualinkd_validator.Capture.Frames.Steps.{seek_shape, next_frame-idle}
use aqualinkd_validator.Capture.Frames.Stream.{Round-cases}

length-take-drop : (n : ℕ) (xs : Bytes) → length (take n xs) + length (drop n xs) ≡ length xs
length-take-drop zero xs = omega arith
length-take-drop (suc n) [] = omega arith
length-take-drop (suc n) (x ∷ xs) = omega (arith, length-take-drop n xs)

next_frame-lengths :
    (bs frame rest : Bytes)
    → next_frame bs ≡ found frame rest
    → length frame + length rest ≤ length bs
unfolding next_frame
next_frame-lengths bs frame rest h = elim (Option-cases (seek bs)) [
  | inl e ↦ absurd (ground arith)
  | inr (start, e) ↦ elim (Option-cases (frame_end start)) [
    | inl e' ↦ absurd (ground arith)
    | inr (end, e') ↦ ground (arith, length-take-drop end start, seek_shape bs start e)
  ]
]

All-le :
    (n m : ℕ) (fs : List Bytes) → n ≤ m → All (λ f. length f ≤ n) fs → All (λ f. length f ≤ m) fs
All-le n m [] h p = tt
All-le n m (f ∷ fs) h (p, ps) = (omega arith, All-le n m fs h ps)

drain-lengths :
    (n : ℕ) (bs : Bytes)
    → All (λ f. length f ≤ length bs) (drain n bs).0 × (length (drain n bs).1 ≤ length bs)
unfolding drain
drain-lengths zero bs = (tt, omega arith)
drain-lengths (suc n) bs = elim (Round-cases (next_frame bs)) [
  | inl (rest, e) ↦ let (_, short) = next_frame-idle bs [] rest e in rw (e, drain) (tt, short)
  | inr (frame, rest, e) ↦
      let short = next_frame-lengths bs frame rest e in
      let (fs, left) = drain-lengths n rest in
      rw (e, drain)
        (
          (omega arith, All-le (length rest) (length bs) (drain n rest).0 (omega arith) fs),
          omega arith,
        )
]

-- No frame of a chunk, nor what is left, is longer than the buffer and the chunk.
pub feed-lengths :
    (buffer payload : Bytes) (n : ℕ)
    → length buffer + length payload ≤ n
    → All (λ f. length f ≤ n) (feed buffer payload).0 × (length (feed buffer payload).1 ≤ n)
unfolding feed
feed-lengths buffer payload n h =
    let bs = buffer ++ payload in
    let (fs, left) = drain-lengths (suc (length bs)) bs in
    let fits : length bs ≤ n = omega (arith, length-append buffer payload) in
    (All-le (length bs) n (drain (suc (length bs)) bs).0 fits fs, omega arith)
