-- ===== src/AudioTransport/Packets.antt =====
-- The two loops over the packets.
use voicestick.Prelude.{
  false, ℕ, suc, ◌<◌, ◌+◌, ◌≤◌, ◌≡◌, refl, bit_or, List, [], ◌∷◌, arith, length, length-append,
  take, length-take_le,
}
use voicestick.Prelude.Texts.{Bytes}
use voicestick.ByteUtils.{u32}
use voicestick.AudioTransport.{Packet, ok, check_packets, write_packets, bytes_of, is_null}

-- A packet's pointer is set and covers its length, unless it has none.
abbrev pub IsBacked : Packet → Type 0
IsBacked p = p.len ≤ length (bytes_of p.payload)

abbrev pub AreBacked : List Packet → Type 0
AreBacked [] = Unit {0}
AreBacked (p ∷ ps) = IsBacked p × AreBacked ps

-- The bytes that a packet stands for.
abbrev pub contents : Packet → Bytes
contents p = take p.len (bytes_of p.payload)

abbrev pub total_len : List Packet → ℕ
total_len [] = 0
total_len (p ∷ ps) = p.len + total_len ps

abbrev pub all_flags : ℕ → List Packet → ℕ
all_flags flags [] = flags
all_flags flags (p ∷ ps) = all_flags (bit_or flags p.flags) ps

-- The sequence numbers count up from `first_seq`, modulo 2 ^ 32.
abbrev pub AreContiguous : ℕ → ℕ → List Packet → Type 0
AreContiguous first_seq index [] = Unit {0}
AreContiguous first_seq index (p ∷ ps) =
    (p.seq ≡ u32 (first_seq + index)) × AreContiguous first_seq (suc index) ps

abbrev pub AreShort : List Packet → Type 0
AreShort [] = Unit {0}
AreShort (p ∷ ps) = (p.len ≤ 255) × AreShort ps

-- What the first loop has checked when it succeeds, and what it has added up.
pub check_packets_ok :
    (version first_seq index payload_len flags : ℕ) (ps : List Packet) (total all : ℕ)
    → check_packets version first_seq index payload_len flags ps ≡ ok (total, all)
    → AreContiguous first_seq index ps
      × (version ≡ 2 → AreShort ps)
      × (total ≡ payload_len + total_len ps)
      × (all ≡ all_flags flags ps)
unfolding check_packets
check_packets_ok version first_seq index payload_len flags [] total all h =
    (tt, λ _. tt, ground arith, ground arith)
check_packets_ok version first_seq index payload_len flags (p ∷ ps) total all h =
    let ih =
      check_packets_ok version first_seq (suc index) (payload_len + p.len) (bit_or flags p.flags) ps
        total all in
    (ground (arith, ih), λ v. ground (arith, ih), ground (arith, ih), ground (arith, ih))

-- The second loop writes one length byte for each packet of a bundle, and the packets.
pub length-write_packets_v2 :
    (ps : List Packet) → AreBacked ps → length (write_packets 2 ps) ≡ length ps + total_len ps
unfolding write_packets
length-write_packets_v2 [] b = refl
length-write_packets_v2 (p ∷ ps) b = ground (
  arith,
  length-append (take p.len (bytes_of p.payload)) (write_packets 2 ps),
  length-take_le p.len (bytes_of p.payload),
  length-write_packets_v2 ps b.1,
)

-- A packet with a length has its pointer set.
backed-not_null : (p : Packet) → IsBacked p → 0 < p.len → is_null p.payload ≡ false
unfolding is_null
backed-not_null p b h = ground arith

-- The first loop accepts every run of packets that meets these conditions.
pub check_packets_accepts :
    (version first_seq index payload_len flags : ℕ) (ps : List Packet)
    → AreBacked ps
    → AreContiguous first_seq index ps
    → (version ≡ 2 → AreShort ps)
    → check_packets version first_seq index payload_len flags ps
      ≡ ok (payload_len + total_len ps, all_flags flags ps)
unfolding check_packets
check_packets_accepts version first_seq index payload_len flags [] b c s = ground arith
check_packets_accepts version first_seq index payload_len flags (p ∷ ps) b c s = ground (
  arith,
  s,
  backed-not_null p b.0,
  check_packets_accepts version first_seq (suc index) (payload_len + p.len) (bit_or flags p.flags)
      ps b.1 c.1 (λ v. (s v).1),
)
