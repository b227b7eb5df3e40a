-- ===== src/Capture/Frames/Stream.antt =====
-- What `feed` makes of a stream of chunks.
use aqualinkd_validator.Prelude.{
  ℕ, zero, suc, ◌<◌, ◌≡◌, ap, refl, List, [], ◌∷◌, ◌++◌, arith, append_assoc, Bytes, length,
  length-append, inl, inr, ◌⊎◌,
}
use aqualinkd_validator.Capture.Frames.{Round, idle, found, next_frame, drain, feed}
use aqualinkd_validator.Capture.Frames.Steps.{next_frame-found, next_frame-idle}

pub Round-cases :
    (r : Round)
    → ((rest : Bytes) × (r ≡ idle rest)) ⊎ ((frame rest : Bytes) × (r ≡ found frame rest))
Round-cases (idle rest) = inl (rest, refl)
Round-cases (found frame rest) = inr (frame, rest, refl)

-- Rounds beyond the length of the buffer change nothing: the loop ends by its own break.
pub drain_rounds : (n m : ℕ) (bs : Bytes) → length bs < n → length bs < m → drain n bs ≡ drain m bs
unfolding drain
drain_rounds zero m bs h k = absurd (omega arith)
drain_rounds (suc n) zero bs h k = absurd (omega arith)
drain_rounds (suc n) (suc m) bs h k = elim (Round-cases (next_frame bs)) [
  | inl (rest, e) ↦ ground (arith, e)
  | inr (frame, rest, e) ↦
      let (_, shorter) = next_frame-found bs [] frame rest e in
      rw (e, drain) (rw (drain_rounds n m rest (omega arith) (omega arith)))
]

abbrev pub push_frame : Bytes → List Bytes × Bytes → List Bytes × Bytes
push_frame frame (frames, left) = (frame ∷ frames, left)

pub drain_of_idle :
    (n : ℕ) (bs rest : Bytes) → next_frame bs ≡ idle rest → drain (suc n) bs ≡ ([], rest)
unfolding drain
drain_of_idle n bs rest e = rw (e, drain)

pub drain_of_found :
    (n : ℕ) (bs frame rest : Bytes)
    → next_frame bs ≡ found frame rest
    → drain (suc n) bs ≡ push_frame frame (drain n rest)
unfolding drain
drain_of_found n bs frame rest e = rw (e, drain)

abbrev then_drain : ℕ → List Bytes × Bytes → Bytes → List Bytes × Bytes
then_drain k (frames, rest) cs = (frames ++ (drain k (rest ++ cs)).0, (drain k (rest ++ cs)).1)

drain-append :
    (n m k : ℕ) (bs cs : Bytes)
    → length bs < n
    → length (bs ++ cs) < m
    → length ((drain n bs).1 ++ cs) < k
    → drain m (bs ++ cs) ≡ then_drain k (drain n bs) cs
unfolding drain
drain-append zero m k bs cs h p q = absurd (omega arith)
drain-append (suc n) zero k bs cs h p q = absurd (omega arith)
drain-append (suc n) (suc m) k bs cs h p q = elim (Round-cases (next_frame bs)) [
  | inl (rest, e) ↦
      let left_length = λ (d : List Bytes × Bytes). length (d.1 ++ cs) in
      let (same, shorter) = next_frame-idle bs cs rest e in
      let fits : length (rest ++ cs) < suc m =
        omega (arith, length-append rest cs, length-append bs cs) in
      let room : length (rest ++ cs) < k =
        omega (arith, ap left_length (drain_of_idle n bs rest e)) in
      rw (e, same, drain) (drain_rounds (suc m) k (rest ++ cs) fits room)
  | inr (frame, rest, e) ↦
      let left_length = λ (d : List Bytes × Bytes). length (d.1 ++ cs) in
      let (same, shorter) = next_frame-found bs cs frame rest e in
      let fits : length (rest ++ cs) < m =
        omega (arith, length-append rest cs, length-append bs cs) in
      let room : length ((drain n rest).1 ++ cs) < k =
        omega (arith, ap left_length (drain_of_found n bs frame rest e)) in
      rw (e, same, drain)
        (ap (push_frame frame) (drain-append n m k rest cs (omega arith) fits room))
]

-- Feeding two chunks one after the other gives the frames, and leaves the buffer, of feeding
-- their concatenation: how the transport cuts the stream into chunks does not matter.
pub feed-append :
    (buffer xs ys : Bytes)
    → feed buffer (xs ++ ys)
      ≡ ((feed buffer xs).0 ++ (feed (feed buffer xs).1 ys).0, (feed (feed buffer xs).1 ys).1)
unfolding feed
feed-append buffer xs ys = rw (← append_assoc buffer xs ys) (
    drain-append (suc (length (buffer ++ xs))) (suc (length (buffer ++ xs ++ ys)))
      (suc (length ((feed buffer xs).1 ++ ys))) (buffer ++ xs) ys (omega arith) (omega arith)
      (omega arith))
