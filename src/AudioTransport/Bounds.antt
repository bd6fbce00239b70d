-- ===== src/AudioTransport/Bounds.antt =====
-- The size of frames, against the buffer and a notification.
use native.Mathlib.Nat.{mul-div-le}
use voicestick.AudioTransport.Decode.{unbundle-encode}
use voicestick.Prelude.{
  ◌==◌, if◌then◌else◌, ℕ, zero, suc, ◌+◌, ◌-◌, ◌*◌, ◌≤◌, ◌<◌, ◌≡◌, refl, Bool, true, List, [], ◌∷◌,
  ◌++◌, Option, some, arith, length, length-append, take, length-take_le,
}
use voicestick.Prelude.Texts.{Bytes}
use voicestick.AudioTransport.{
  Packet, Result, ok, header, encode, encode_packets, write_packets, bytes_of, packets_of,
  v2_packet_budget, att_payload_capacity, write_frame,
}
use voicestick.AudioTransport.Packets.{
  AreBacked, total_len, AreContiguous, AreShort, check_packets_ok,
}

length-header :
    (version session_id first_seq flags count payload_len : ℕ)
    → length (header version session_id first_seq flags count payload_len) ≡ 16
unfolding header
length-header version session_id first_seq flags count payload_len = refl

-- What the second loop writes: a length byte for each packet of a bundle, and the packets.
length-write_packets :
    (version : ℕ) (ps : List Packet)
    → AreBacked ps
    → length (write_packets version ps) ≡ (if version == 2 then length ps else 0) + total_len ps
unfolding write_packets
length-write_packets version [] b = ground arith
length-write_packets version (p ∷ ps) b = ground (
  arith,
  length-append (take p.len (bytes_of p.payload)) (write_packets version ps),
  length-take_le p.len (bytes_of p.payload),
  length-write_packets version ps b.1,
)

take-AreBacked : (n : ℕ) (ps : List Packet) → AreBacked ps → AreBacked (take n ps)
take-AreBacked zero ps b = tt
take-AreBacked (suc n) [] b = tt
take-AreBacked (suc n) (p ∷ ps) b = (b.0, take-AreBacked n ps b.1)

length-take-le : (n : ℕ) (ps : List Packet) → length (take n ps) ≤ n
length-take-le zero ps = omega arith
length-take-le (suc n) [] = omega arith
length-take-le (suc n) (p ∷ ps) = omega (arith, length-take-le n ps)

module _ (version session_id first_seq n capacity : ℕ) (ps : List Packet) (frame : Bytes) where
  -- A frame that is written has passed the first loop and the test of the capacity.
  abbrev pub Written : Result (ℕ × ℕ) → Type 0
  Written r =
      (total : ℕ) × (all : ℕ) × (r ≡ ok (total, all))
      × (total ≤ 65535)
      × (16 + total ≤ capacity)
      × (frame ≡ header version session_id first_seq all n total ++ write_packets version ps)

  write_frame-inv :
      (r : Result (ℕ × ℕ))
      → write_frame version session_id first_seq n capacity ps r ≡ ok frame
      → Written r
  unfolding write_frame
  write_frame-inv (ok (total, all)) h = (total, all, refl, ground arith, ground arith, ground arith)
  write_frame-inv Result.invalid_argument h = absurd (cc)
  write_frame-inv Result.buffer_too_small h = absurd (cc)
  write_frame-inv Result.packet_too_large h = absurd (cc)
  write_frame-inv Result.noncontiguous_sequence h = absurd (cc)

module _ (version session_id first_seq flags n capacity : ℕ) (ps : List Packet)
    (frame : Bytes) where
  length-encode_packets :
      AreBacked ps
      → length ps ≤ n
      → encode_packets version session_id first_seq flags ps n capacity ≡ ok frame
      → length frame ≤ capacity
  unfolding encode_packets
  length-encode_packets b l h =
      let count : ℕ = if version == 2 then n else 0 in
      let (total, all, e, small, fits, shape) =
        write_frame-inv version session_id first_seq count capacity ps frame _ h in
      ground (
        arith,
        check_packets_ok version first_seq 0 count flags ps total all e,
        length-append (header version session_id first_seq all count total)
            (write_packets version ps),
        length-header version session_id first_seq all count total,
        length-write_packets version ps b,
      )

-- If every packet's pointer covers its length, a frame that `encode` returns fits the output
-- buffer, whatever the other arguments.
pub length-encode :
    (version session_id first_seq envelope_flags : ℕ) (packets : Option (List Packet))
    (packet_count capacity : ℕ) (output output_len : Bool) (frame : Bytes)
    → AreBacked (packets_of packets)
    → encode version session_id first_seq envelope_flags packets packet_count output capacity
        output_len
      ≡ ok frame
    → length frame ≤ capacity
unfolding encode
length-encode version session_id first_seq envelope_flags packets packet_count capacity output
      output_len frame b h =
    length-encode_packets version session_id first_seq envelope_flags packet_count capacity
      (take packet_count (packets_of packets)) frame
      (take-AreBacked packet_count (packets_of packets) b)
      (length-take-le packet_count (packets_of packets)) (ground arith)

abbrev pub AreWithin : ℕ → List Packet → Type 0
AreWithin budget [] = Unit {0}
AreWithin budget (p ∷ ps) = (p.len ≤ budget) × AreWithin budget ps

pub total_len-le :
    (budget : ℕ) (ps : List Packet) → AreWithin budget ps → total_len ps ≤ length ps * budget
total_len-le budget [] w = omega arith
total_len-le budget (p ∷ ps) w = grind (arith, total_len-le budget ps w.1)

pub AreWithin-AreShort :
    (budget : ℕ) (ps : List Packet) → budget ≤ 255 → AreWithin budget ps → AreShort ps
AreWithin-AreShort budget [] b w = tt
AreWithin-AreShort budget (p ∷ ps) b w = (omega arith, AreWithin-AreShort budget ps b w.1)

pub att_payload_capacity-le : (m : ℕ) → m ≤ 65535 → att_payload_capacity m ≤ 65535
unfolding att_payload_capacity
att_payload_capacity-le m h = ground arith

-- The packet count times the budget, with the framing, is within the payload of a notification.
pub budget_fits :
    (att_mtu n : ℕ)
    → 0 < v2_packet_budget att_mtu n
    → 16 + n + n * v2_packet_budget att_mtu n ≤ att_payload_capacity att_mtu
unfolding v2_packet_budget
budget_fits att_mtu n h = ground (arith, mul-div-le (att_payload_capacity att_mtu - (16 + n)) n)

-- Fewer than 256 consecutive packets of at most 255 bytes, with pointers that cover their lengths,
-- that keep to the budget of a negotiated MTU, where this is not 0, are always encoded, and the
-- bundle fits one notification on that MTU.
pub encode-v2_packet_budget :
    (att_mtu session_id first_seq envelope_flags : ℕ) (ps : List Packet)
    → att_mtu ≤ 65535
    → 0 < v2_packet_budget att_mtu (length ps)
    → AreWithin (v2_packet_budget att_mtu (length ps)) ps
    → AreShort ps
    → AreBacked ps
    → AreContiguous first_seq 0 ps
    → length ps < 256
    → (frame : Bytes) × (encode 2 session_id first_seq envelope_flags
          (some ps)
          (length ps)
          true
          (att_payload_capacity att_mtu)
          true
        ≡ ok frame)
      × (length frame ≤ att_payload_capacity att_mtu)
encode-v2_packet_budget att_mtu session_id first_seq envelope_flags ps m p w s b c n =
    let budget : ℕ = v2_packet_budget att_mtu (length ps) in
    let room : length ps + total_len ps ≤ att_payload_capacity att_mtu - 16 =
      omega (arith, total_len-le budget ps w, budget_fits att_mtu (length ps) p) in
    let small : att_payload_capacity att_mtu ≤ 65535 = att_payload_capacity-le att_mtu m in
    let some_room : 16 ≤ att_payload_capacity att_mtu =
      omega (arith, budget_fits att_mtu (length ps) p) in
    let (frame, e, _, _) =
      unbundle-encode session_id first_seq envelope_flags (att_payload_capacity att_mtu) ps b s c n
        (omega arith) (omega arith) in
    (
      frame,
      e,
      length-encode 2 session_id first_seq envelope_flags (some ps) (length ps)
          (att_payload_capacity att_mtu) true true frame b e,
    )
