-- ===== src/AllButton/Keys.antt =====
-- The keys that a panel is told, and the status that they give.
use aqualinkd_validator.Prelude.{
  ℕ, ◌+◌, ◌-◌, ◌%◌, ◌≡◌, ap, List, [], ◌∷◌, ◌++◌, ◌==◌, if◌then◌else◌, Bytes, arith,
}
use aqualinkd_validator.AllButton.{
  byte_at, Response, send_timed_out, read_timed_out, received, flip,
}

-- How often the filter pump's key, key 2, is among some keys.
abbrev pub presses : List ℕ → ℕ
presses [] = 0
presses (command ∷ commands) = (if command == 2 then 1 else 0) + presses commands

pub presses-snoc :
    (xs : List ℕ) (x : ℕ) → presses (xs ++ x ∷ []) ≡ presses xs + (if x == 2 then 1 else 0)
presses-snoc [] x = ground arith
presses-snoc (y ∷ ys) x = omega (arith, presses-snoc ys x)

-- The keys that some responses hold: the sixth byte of each frame, where it is not zero.
abbrev pub keys : List Response → List ℕ
keys [] = []
keys (send_timed_out ∷ rs) = keys rs
keys (read_timed_out ∷ rs) = keys rs
keys (received incoming ∷ rs) =
    let more = keys rs in if byte_at 5 incoming == 0 then more else byte_at 5 incoming ∷ more

-- The status where the pump was switched `n` times: it is on after an odd number.
abbrev pub pump_status : ℕ → Bytes
pump_status n = n % 2 ∷ 0 ∷ 0 ∷ 0 ∷ 0 ∷ []

pub flip-pump_status : (n : ℕ) → flip (pump_status n) ≡ pump_status (n + 1)
flip-pump_status n = ap (λ k. k ∷ 0 ∷ 0 ∷ 0 ∷ 0 ∷ []) (parity n)
  where
    parity : (n : ℕ) → (if n % 2 % 2 == 0 then n % 2 + 1 else n % 2 - 1) ≡ (n + 1) % 2
    parity n = ground arith
