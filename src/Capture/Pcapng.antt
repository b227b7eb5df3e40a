-- ===== src/Capture/Pcapng.antt =====
-- `PcapngSerialWriter` of aqualinkd_validator/capture.py. `none` is what `struct.error` leaves: a
-- number does not fit its field, and nothing of the block was written.
pub mod Reader
pub mod RoundTrip
pub mod Fits
use Prim.Native.Char.{code}
use Prim.Native.String
use aqualinkd_validator.Prelude.{
  String, ℕ, ◌+◌, ◌-◌, ◌*◌, ◌/◌, ◌%◌, Bool, true, false, Option, none, some, List, [], ◌∷◌, ◌++◌,
  if◌then◌else◌, ltb, Bytes, length, replicate,
}

-- Names of the fields of struct's formats, little-endian.
abbrev pub u16 : ℕ → Bytes
u16 n = n % 256 ∷ n / 256 % 256 ∷ []

abbrev pub u32 : ℕ → Bytes
u32 n = n % 256 ∷ n / 256 % 256 ∷ n / 65536 % 256 ∷ n / 16777216 % 256 ∷ []

-- `bind o f`: the error of `o`, or what `f` makes of its result.
abbrev pub bind {ℓ κ} : {A : Type ℓ} {B : Type κ} → Option A → (A → Option B) → Option B
bind none f = none
bind (some a) f = f a

abbrev pub guard {ℓ} : {A : Type ℓ} → Bool → A → Option A
guard fits a = if fits then some a else none

-- `pack("B")`, `pack("<H")` and `pack("<I")`.
abbrev pub pack_u8 : ℕ → Option Bytes
pack_u8 n = guard (ltb n 256) (n ∷ [])

abbrev pub pack_u16 : ℕ → Option Bytes
pack_u16 n = guard (ltb n 65536) (u16 n)

abbrev pub pack_u32 : ℕ → Option Bytes
pack_u32 n = guard (ltb n 4294967296) (u32 n)

pub data Direction : Type 0 where
  panel_to_aqualinkd aqualinkd_to_panel : Direction

abbrev pub direction_value : Direction → ℕ
direction_value panel_to_aqualinkd = 1
direction_value aqualinkd_to_panel = 2

pub record Flags : Type 0 where
  pub complete : Bool
  pub framing_exact : Bool
  pub direction_exact : Bool
  pub timing_exact : Bool

abbrev flag : Bool → ℕ → ℕ
flag set bit = if set then bit else 0

-- The bits are distinct, so `|` adds them.
unfoldable pub flags_value : Flags → ℕ
flags_value f =
    flag f.complete 1 + flag f.framing_exact 2 + flag f.direction_exact 4 + flag f.timing_exact 8

-- The writer, with what its handle has received.
pub record PcapngSerialWriter : Type 0 where
  pub written : Bytes
  pub wall_start_ns : ℕ
  pub capture_point : ℕ

-- `(-length) % 4` zeros.
abbrev pub padding : ℕ → Bytes
padding n = replicate ((4 - n % 4) % 4) 0

-- `_write_block`: what it appends.
unfoldable pub block : ℕ → Bytes → Option Bytes
block block_type body =
    let total_length = 12 + length body in
    bind (pack_u32 block_type)
      λ kind. bind (pack_u32 total_length) (λ size. some (kind ++ size ++ body ++ size))

abbrev append_block : PcapngSerialWriter → ℕ → Bytes → Option PcapngSerialWriter
append_block writer block_type body =
    bind (block block_type body) λ bytes. some (record writer { written = writer.written ++ bytes })

-- `_PSEUDO_HEADER.pack`, with the magic "AQV1" and the version.
unfoldable pub pseudo_header : Direction → ℕ → ℕ → ℕ → Option Bytes
pseudo_header direction capture_point flags size = bind (pack_u8 capture_point) λ point.
    bind (pack_u32 size)
      λ bytes. some (65 ∷ 81 ∷ 86 ∷ 49 ∷ 1 ∷ direction_value direction ∷ (point ++ flags ∷ bytes))

-- The fields before the packet: interface, timestamp, and the two lengths.
unfoldable pub packet_fields : ℕ → ℕ → Option Bytes
packet_fields timestamp_ns size = bind (pack_u32 (timestamp_ns / 4294967296)) λ high.
    bind (pack_u32 size)
      λ bytes. some (u32 0 ++ high ++ u32 (timestamp_ns % 4294967296) ++ bytes ++ bytes)

-- `write_frame`: what it appends.
unfoldable pub frame_block : ℕ → ℕ → Bytes → Direction → ℕ → Flags → Option Bytes
unfolding pseudo_header packet_fields block flags_value
frame_block wall_start_ns capture_point payload direction offset_ns flags =
    bind (pseudo_header direction capture_point (flags_value flags) (length payload)) λ header.
      let packet = header ++ payload in
      bind (packet_fields (wall_start_ns + offset_ns) (length packet))
        λ fields. block 6 (fields ++ packet ++ padding (length packet))

unfoldable pub write_frame :
    PcapngSerialWriter → Bytes → Direction → ℕ → Flags → Option PcapngSerialWriter
unfolding frame_block
write_frame writer payload direction offset_ns flags =
    bind (frame_block writer.wall_start_ns writer.capture_point payload direction offset_ns flags)
      λ bytes. some (record writer { written = writer.written ++ bytes })

-- `_option`.
abbrev option : ℕ → Bytes → Option Bytes
option code value = bind (pack_u16 code) λ kind.
    bind (pack_u16 (length value)) λ size. some (kind ++ size ++ value ++ padding (length value))

-- `_write_headers`: the section header and the description of the interface.
unfoldable pub write_headers : PcapngSerialWriter → Bytes → Bytes → Option PcapngSerialWriter
unfolding block
write_headers writer interface_name interface_description =
    bind (append_block writer 168627466 (u32 439041101 ++ u16 1 ++ u16 0 ++ replicate 8 255))
      λ writer'. bind (option 2 interface_name) λ name.
        bind (option 3 interface_description) λ description. bind (option 9 (9 ∷ [])) λ resolution.
          append_block writer' 1 (
            u16 147
            ++ u16 0
            ++ u32 4294967295
            ++ (name ++ description ++ resolution ++ u16 0 ++ u16 0))

-- `__init__`, with an empty handle.
unfoldable pub open_writer : ℕ → ℕ → Bytes → Bytes → Option PcapngSerialWriter
unfolding write_headers
open_writer wall_start_ns capture_point interface_name interface_description =
    write_headers
      (record { written = []; wall_start_ns = wall_start_ns; capture_point = capture_point })
      interface_name interface_description

-- A text's bytes.
abbrev encode : String → Bytes
encode String.[] = []
encode (String.◌∷◌ c s) = code c ∷ encode s

-- The writer that the capturing transport opens.
unfoldable pub pty_writer : ℕ → Option PcapngSerialWriter
unfolding open_writer
pty_writer wall_start_ns =
    open_writer wall_start_ns 1 (encode "aqualinkd-validator PTY")
      (encode "AQV1 pseudo-header followed by unmodified RS485 frame bytes")

unfoldable pub logical_packet_log_writer : ℕ → Option PcapngSerialWriter
unfolding open_writer
logical_packet_log_writer wall_start_ns =
    open_writer wall_start_ns 2 (encode "aqualinkd-validator logical packet log")
      (encode "AQV1 pseudo-header followed by AqualinkD-logged RS485 packet bytes")
