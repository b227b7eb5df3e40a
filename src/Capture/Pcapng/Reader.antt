-- ===== src/Capture/Pcapng/Reader.antt =====
-- A reader of PCAPNG blocks and of AQV1 packets, after the format's description.
use aqualinkd_validator.Prelude.{
  ℕ, ◌+◌, ◌-◌, ◌*◌, ◌&&◌, Option, none, some, ◌∷◌, if◌then◌else◌, leb, ◌==◌, Bytes, take, drop,
}
use aqualinkd_validator.Capture.Pcapng.{bind}

abbrev pub read_u32 : Bytes → Option (ℕ × Bytes)
read_u32 (a ∷ b ∷ c ∷ d ∷ rest) = some (a + 256 * b + 65536 * c + 16777216 * d, rest)
read_u32 _ = none

pub record Block : Type 0 where
  pub kind : ℕ
  pub body : Bytes
  pub rest : Bytes

-- The end of a block, if its two lengths agree.
abbrev pub close_block : ℕ → ℕ → Bytes → ℕ × Bytes → Option Block
close_block kind size body size' =
    if leb 12 size && size == size'.0
    then some (record { kind = kind; body = body; rest = size'.1 })
    else none

abbrev pub after_size : ℕ → ℕ × Bytes → Option Block
after_size kind size =
    bind (read_u32 (drop (size.0 - 12) size.1))
      (close_block kind size.0 (take (size.0 - 12) size.1))

abbrev pub after_type : ℕ × Bytes → Option Block
after_type kind = bind (read_u32 kind.1) (after_size kind.0)

-- A block: its type, its length, its body, and its length again.
unfoldable pub read_block : Bytes → Option Block
read_block bytes = bind (read_u32 bytes) after_type

pub record Packet : Type 0 where
  pub timestamp_ns : ℕ
  pub direction : ℕ
  pub capture_point : ℕ
  pub flags : ℕ
  pub payload : Bytes

-- The pseudo-header and the frame.
abbrev pub read_pseudo : ℕ → Bytes → Option Packet
read_pseudo timestamp_ns (m₀ ∷ m₁ ∷ m₂ ∷ m₃ ∷ version ∷ direction ∷ point ∷ flags ∷ bytes) =
    if m₀ == 65 && m₁ == 81 && m₂ == 86 && m₃ == 49 && version == 1
    then bind (read_u32 bytes) (λ size. some (record {
      timestamp_ns = timestamp_ns;
      direction = direction;
      capture_point = point;
      flags = flags;
      payload = take size.0 size.1;
    }))
    else none
read_pseudo timestamp_ns _ = none

-- The body of an enhanced packet block.
unfoldable pub read_packet : Bytes → Option Packet
read_packet bytes = bind (read_u32 bytes) λ interface. bind (read_u32 interface.1) λ high.
    bind (read_u32 high.1) λ low. bind (read_u32 low.1) λ captured.
      bind (read_u32 captured.1)
        λ original. read_pseudo (high.0 * 4294967296 + low.0) (take captured.0 original.1)
