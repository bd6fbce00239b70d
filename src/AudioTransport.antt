-- ===== src/AudioTransport.antt =====
-- firmware/components/audio_transport/audio_transport.c: how the stick packs Opus packets into one
-- notification. Version 1 carries one packet, version 2 a bundle.
pub mod Packets
pub mod Bounds
pub mod Decode
use voicestick.Prelude.{
  ℕ, suc, ◌+◌, ◌-◌, ◌/◌, ◌*◌, ◌%◌, ◌^◌, bit_or, Bool, true, false, not, ◌&&◌, ◌||◌, ◌==◌, ltb, leb,
  List, [], ◌∷◌, ◌++◌, Option, none, some, if◌then◌else◌, take,
}
use voicestick.Prelude.Texts.{Bytes}
use voicestick.ByteUtils.{u8, u16, u32}

abbrev pub type_audio : ℕ
type_audio = 0x01

abbrev pub version_1 : ℕ
version_1 = 1

abbrev pub version_2 : ℕ
version_2 = 2

abbrev pub header_size : ℕ
header_size = 16

abbrev pub att_overhead : ℕ
att_overhead = 3

-- `payload` may be a null pointer; it points to `len` bytes at least.
pub record Packet : Type 0 where
  pub seq : ℕ  -- uint32
  pub flags : ℕ  -- uint8
  pub payload : Option Bytes
  pub len : ℕ  -- uint16

-- `audio_transport_result_t`, with the bytes written where the call succeeds.
pub data Result {ℓ} (A : Type ℓ) : Type ℓ where
  ok : A → Result A
  invalid_argument buffer_too_small packet_too_large noncontiguous_sequence : Result A

unfoldable pub write_le16 : ℕ → Bytes
write_le16 value = u8 value ∷ u8 (value / 2 ^ 8) ∷ []

unfoldable pub write_le32 : ℕ → Bytes
write_le32 value = u8 value ∷ u8 (value / 2 ^ 8) ∷ u8 (value / 2 ^ 16) ∷ u8 (value / 2 ^ 24) ∷ []

unfoldable pub att_payload_capacity : ℕ → ℕ
att_payload_capacity att_mtu = if ltb att_overhead att_mtu then att_mtu - att_overhead else 0

unfoldable pub v2_packet_budget : ℕ → ℕ → ℕ
v2_packet_budget att_mtu packet_count =
    if packet_count == 0
    then 0
    else let att_payload = att_payload_capacity att_mtu in
      let framing = header_size + packet_count in
      if leb att_payload framing then 0 else (att_payload - framing) / packet_count

unfoldable pub is_null : Option Bytes → Bool
is_null none = true
is_null (some p) = false

-- The first loop of `audio_transport_encode`, from `index` on: it checks the packets and adds up
-- `payload_len` and `flags`. The list is what is left of the first `packet_count` packets.
unfoldable pub check_packets :
    (version first_seq index payload_len flags : ℕ) → List Packet → Result (ℕ × ℕ)
check_packets version first_seq index payload_len flags [] = ok (payload_len, flags)
check_packets version first_seq index payload_len flags (p ∷ ps) =
    let rest =
      check_packets version first_seq (suc index) (payload_len + p.len) (bit_or flags p.flags) ps in
    if not (p.seq == u32 (first_seq + index))
    then noncontiguous_sequence
    else if ltb 0 p.len && is_null p.payload
    then invalid_argument
    else if version == version_2 && ltb 255 p.len
    then packet_too_large
    else rest

abbrev pub bytes_of : Option Bytes → Bytes
bytes_of none = []
bytes_of (some p) = p

-- The second loop: what it writes behind the header.
unfoldable pub write_packets : ℕ → List Packet → Bytes
write_packets version [] = []
write_packets version (p ∷ ps) =
    (if version == version_2 then u8 p.len ∷ [] else [])
    ++ ((if ltb 0 p.len then take p.len (bytes_of p.payload) else []) ++ write_packets version ps)

unfoldable pub header : (version session_id first_seq flags count payload_len : ℕ) → Bytes
unfolding write_le16 write_le32
header version session_id first_seq flags count payload_len =
    (version ∷ type_audio ∷ [])
    ++ (write_le16 header_size
        ++ (write_le32 session_id
            ++ (write_le32 first_seq ++ ((flags ∷ count ∷ []) ++ write_le16 (u16 payload_len)))))

-- What follows the first loop: the frame, unless it does not fit.
unfoldable pub write_frame :
    (version session_id first_seq count output_capacity : ℕ)
    → List Packet
    → Result (ℕ × ℕ)
    → Result Bytes
write_frame version session_id first_seq count output_capacity packets (ok (payload_len, flags)) =
    if ltb 65535 payload_len || ltb output_capacity (header_size + payload_len)
    then buffer_too_small
    else ok (
        header version session_id first_seq flags count payload_len
        ++ write_packets version packets)
write_frame _ _ _ _ _ _ invalid_argument = invalid_argument
write_frame _ _ _ _ _ _ buffer_too_small = buffer_too_small
write_frame _ _ _ _ _ _ packet_too_large = packet_too_large
write_frame _ _ _ _ _ _ noncontiguous_sequence = noncontiguous_sequence

-- Everything behind the tests of the arguments.
unfoldable pub encode_packets :
    (version session_id first_seq envelope_flags : ℕ)
    → List Packet
    → (packet_count output_capacity : ℕ) → Result Bytes
encode_packets version session_id first_seq envelope_flags packets packet_count output_capacity =
    let count = if version == version_2 then packet_count else 0 in
    write_frame version session_id first_seq count output_capacity packets
      (check_packets version first_seq 0 count envelope_flags packets)

is_none : Option (List Packet) → Bool
is_none none = true
is_none (some ps) = false

abbrev pub packets_of : Option (List Packet) → List Packet
packets_of none = []
packets_of (some ps) = ps

-- `output` and `output_len` say whether these pointers are set.
unfoldable pub encode :
    (version session_id first_seq envelope_flags : ℕ)
    → Option (List Packet)
    → (packet_count : ℕ) → Bool
    → (output_capacity : ℕ) → Bool
    → Result Bytes
unfolding is_none
encode version session_id first_seq envelope_flags packets packet_count output output_capacity
      output_len =
    if not output || not output_len || ltb output_capacity header_size
    then invalid_argument
    else if ltb 0 packet_count && is_none packets
    then invalid_argument
    else if version == version_1 && not (packet_count == 1)
    then invalid_argument
    else if not (version == version_1) && not (version == version_2)
    then invalid_argument
    else encode_packets version session_id first_seq envelope_flags
        (take packet_count (packets_of packets)) packet_count output_capacity
