-- ===== src/Capture/Pcapng/RoundTrip.antt =====
-- The blocks of the writer, read back.
use aqualinkd_validator.Prelude.{ℕ, ◌+◌, ◌*◌, ◌/◌, ◌%◌, ◌≡◌, refl, Option, none, some, Bytes}
use aqualinkd_validator.Capture.Pcapng.{bind, Direction, direction_value, Flags, flags_value}
use aqualinkd_validator.Capture.Pcapng.Reader.{Packet}

pub bind_inv :
    {A B : Type 0} (o : Option A) (f : A → Option B) (b : B)
    → bind o f ≡ some b
    → (a : A) × (o ≡ some a) × (f a ≡ some b)
bind_inv none f b h = absurd (cc)
bind_inv (some a) f b h = (a, refl, h)

pub some_inv : {A : Type 0} {a b : A} → some a ≡ some b → a ≡ b
some_inv h = cc

abbrev value : ℕ → ℕ
value n =
    n % 256 + 256 * (n / 256 % 256) + 65536 * (n / 65536 % 256) + 16777216 * (n / 16777216 % 256)

-- The packet that a frame becomes.
abbrev pub packet_of : ℕ → ℕ → Bytes → Direction → Flags → Packet
packet_of timestamp_ns capture_point payload direction flags = record {
  timestamp_ns = timestamp_ns;
  direction = direction_value direction;
  capture_point = capture_point;
  flags = flags_value flags;
  payload = payload;
}
