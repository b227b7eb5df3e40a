-- ===== src/Capture/Pcapng/Fits.antt =====
-- When the writer succeeds.
use aqualinkd_validator.Prelude.{
  ℕ, zero, suc, ◌+◌, ◌-◌, ◌/◌, ◌%◌, ◌<◌, ◌≤◌, ◌≡◌, refl, ap, some, [], ◌∷◌, ◌++◌, Bytes, length,
  arith, length-append, replicate,
}
use aqualinkd_validator.Capture.Pcapng.{
  u32, pack_u8, pack_u32, Direction, direction_value, Flags, flags_value, padding, block,
  pseudo_header, packet_fields, frame_block, PcapngSerialWriter, write_frame,
}

pack_u8-fits : (n : ℕ) → n < 256 → pack_u8 n ≡ some (n ∷ [])
pack_u8-fits n h = ground arith

pack_u32-fits : (n : ℕ) → n < 4294967296 → pack_u32 n ≡ some (u32 n)
pack_u32-fits n h = ground arith

pseudo_header-fits :
    (direction : Direction) (point flags size : ℕ)
    → point < 256
    → size < 4294967296
    → pseudo_header direction point flags size
      ≡ some (65 ∷ 81 ∷ 86 ∷ 49 ∷ 1 ∷ direction_value direction ∷ point ∷ flags ∷ u32 size)
unfolding pseudo_header
pseudo_header-fits direction point flags size h h' =
    rw (pack_u8-fits point h, pack_u32-fits size h') refl

packet_fields-fits :
    (timestamp_ns size : ℕ)
    → timestamp_ns / 4294967296 < 4294967296
    → size < 4294967296
    → packet_fields timestamp_ns size
      ≡ some (
          u32 0
          ++ u32 (timestamp_ns / 4294967296)
          ++ u32 (timestamp_ns % 4294967296)
          ++ u32 size
          ++ u32 size)
unfolding packet_fields
packet_fields-fits timestamp_ns size h h' =
    rw (pack_u32-fits (timestamp_ns / 4294967296) h, pack_u32-fits size h') refl

block-fits :
    (kind : ℕ) (body : Bytes)
    → kind < 4294967296
    → 12 + length body < 4294967296
    → block kind body ≡ some (u32 kind ++ u32 (12 + length body) ++ body ++ u32 (12 + length body))
unfolding block
block-fits kind body h h' = rw (pack_u32-fits kind h, pack_u32-fits (12 + length body) h') refl

length-replicate : (n : ℕ) (b : ℕ) → length (replicate n b) ≡ n
length-replicate zero b = refl
length-replicate (suc n) b = ap suc (length-replicate n b)

length-padding : (n : ℕ) → length (padding n) ≤ 3
length-padding n = omega (arith, length-replicate ((4 - n % 4) % 4) 0)

frame_block-fits :
    (wall_start_ns point : ℕ) (payload : Bytes) (direction : Direction) (offset_ns : ℕ)
    (flags : Flags)
    → point < 256
    → length payload + 47 < 4294967296
    → (wall_start_ns + offset_ns) / 4294967296 < 4294967296
    → (bytes : Bytes) × (frame_block wall_start_ns point payload direction offset_ns flags
        ≡ some bytes)
unfolding frame_block
frame_block-fits wall_start_ns point payload direction offset_ns flags p l t =
    let size = length payload in
    let header =
      65 ∷ 81 ∷ 86 ∷ 49 ∷ 1 ∷ direction_value direction ∷ point ∷ flags_value flags ∷ u32 size in
    let packet = header ++ payload in
    let now = wall_start_ns + offset_ns in
    let fields =
      u32 0
      ++ u32 (now / 4294967296)
      ++ u32 (now % 4294967296)
      ++ u32 (length packet)
      ++ u32 (length packet) in
    let body = fields ++ packet ++ padding (length packet) in
    let short : 12 + length body < 4294967296 =
      omega
        (arith, length-append payload (padding (length packet)), length-padding (length packet)) in
    (
      u32 6 ++ u32 (12 + length body) ++ body ++ u32 (12 + length body),
      rw (pseudo_header-fits direction point (flags_value flags) size p (omega arith)) (
          rw (packet_fields-fits now (length packet) t (omega arith))
            (block-fits 6 body (omega arith) short)),
    )

-- `write_frame` writes whenever the numbers fit: the capture point a byte, the timestamp 64 bits,
-- and the block's length, at most 47 more than the frame's, 32 bits.
pub write_frame-fits :
    (writer : PcapngSerialWriter) (payload : Bytes) (direction : Direction) (offset_ns : ℕ)
    (flags : Flags)
    → writer.capture_point < 256
    → length payload + 47 < 4294967296
    → (writer.wall_start_ns + offset_ns) / 4294967296 < 4294967296
    → (writer' : PcapngSerialWriter) × (write_frame writer payload direction offset_ns flags
        ≡ some writer')
unfolding write_frame
write_frame-fits writer payload direction offset_ns flags p l t =
    let (bytes, e) =
      frame_block-fits writer.wall_start_ns writer.capture_point payload direction offset_ns flags p
        l t in
    (record writer { written = writer.written ++ bytes }, rw e refl)
