-- ===== src/AudioTransport/Decode.antt =====
-- What a receiver makes of the frames: the desktop's parser for version 1, and the layout of a
-- bundle for version 2.
use mathlib.Core.Option
use voicestick.Prelude.{
  map, take, drop, take-length, drop-length, length-append, ℕ, zero, suc, ◌+◌, ◌^◌, ◌≤◌, ◌<◌, ◌≡◌,
  refl, bit_or, true, List, [], ◌∷◌, ◌++◌, Option, none, some, arith, length, take, drop,
  append-nil, take_all, Bool-cases, inl, inr, ltb, sym, length-take_le, if◌then◌else◌, false,
}
use voicestick.Prelude.Texts.{Bytes}
use voicestick.ByteUtils.{u16, byte_at}
use voicestick.ByteUtils.RoundTrip.{read_le16_bytes, read_le32_bytes}
use voicestick.BleProtocol.{parse_audio_frame}
use voicestick.AudioTransport.{
  Packet, ok, header, encode, write_packets, check_packets, bytes_of, encode_packets, write_frame,
}
use voicestick.AudioTransport.Packets.{
  IsBacked, contents, check_packets_accepts, AreBacked, AreShort, AreContiguous, total_len,
  all_flags,
}

module _ (version session_id first_seq flags count payload_len : ℕ) (body : Bytes) where
  -- The desktop reads back the fields of a version 1 header.
  parse_audio_frame-header :
      version ≡ 1
      → session_id < 2 ^ 32
      → first_seq < 2 ^ 32
      → payload_len ≡ length body
      → payload_len < 2 ^ 16
      → parse_audio_frame (header version session_id first_seq flags count payload_len ++ body)
        ≡ some (record { session_id = session_id; seq = first_seq; flags = flags; payload = body })
  unfolding parse_audio_frame header
  parse_audio_frame-header v s q l b = ground (
    arith,
    read_le16_bytes 16 [],
    read_le16_bytes (u16 payload_len) [],
    read_le32_bytes session_id [],
    read_le32_bytes first_seq [],
    take_all payload_len body,
  )

-- One packet: its checks succeed.
one_packet :
    (version first_seq flags : ℕ) (p : Packet)
    → IsBacked p
    → p.seq ≡ first_seq
    → first_seq < 2 ^ 32
    → (version ≡ 2 → p.len ≤ 255)
    → check_packets version first_seq 0 0 flags (p ∷ []) ≡ ok (p.len, bit_or flags p.flags)
one_packet version first_seq flags p b s q v = ground (
  arith,
  check_packets_accepts version first_seq 0 0 flags (p ∷ []) (b, tt) (omega arith, tt)
      (λ e. (v e, tt)),
)

write_packets-one : (p : Packet) → IsBacked p → write_packets 1 (p ∷ []) ≡ contents p
unfolding write_packets
write_packets-one p b = elim (Bool-cases (ltb 0 p.len)) [
  | inl t ↦ rw t (append-nil (contents p))
  | inr f ↦ ground arith
]

-- A version 1 frame of one packet, with the frame's sequence number and a pointer that covers its
-- length, is encoded if it fits the buffer, and the desktop's parser reads it as the same session,
-- sequence number and payload, with the packet's flags joined to the envelope's.
pub parse_audio_frame-encode :
    (session_id first_seq envelope_flags capacity : ℕ) (p : Packet)
    → session_id < 2 ^ 32
    → first_seq < 2 ^ 32
    → p.seq ≡ first_seq
    → p.len < 2 ^ 16
    → IsBacked p
    → 16 + p.len ≤ capacity
    → (frame : Bytes) × (encode 1 session_id first_seq envelope_flags
          (some (p ∷ []))
          1
          true
          capacity
          true
        ≡ ok frame)
      × (parse_audio_frame frame
          ≡ some (record {
            session_id = session_id;
            seq = first_seq;
            flags = bit_or envelope_flags p.flags;
            payload = contents p;
          }))
unfolding encode encode_packets write_frame
parse_audio_frame-encode session_id first_seq envelope_flags capacity p s q e l b c = (
  header 1 session_id first_seq (bit_or envelope_flags p.flags) 0 p.len ++ contents p,
  ground (
    arith,
    one_packet 1 first_seq envelope_flags p b e q (λ (n : 1 ≡ 2). absurd (omega arith)),
    write_packets-one p b,
  ),
  parse_audio_frame-header 1 session_id first_seq (bit_or envelope_flags p.flags) 0 p.len
      (contents p) refl s q (sym (length-take_le p.len (bytes_of p.payload) b)) l,
)

-- The layout of a bundle: for each packet its length in one byte, then its bytes.
pub unbundle : ℕ → Bytes → Option (List Bytes)
unbundle zero bytes = some []
unbundle (suc n) [] = none
unbundle (suc n) (len ∷ bytes) =
    let rest = unbundle n (drop len bytes) in
    if ltb (length bytes) len then none else Option.map (λ ps. take len bytes ∷ ps) rest

not_short : (packet bytes : Bytes) → ltb (length (packet ++ bytes)) (length packet) ≡ false
not_short packet bytes = ground (arith, length-append packet bytes)

unbundle-packet :
    (n len : ℕ) (packet bytes : Bytes) {rest : List Bytes}
    → length packet ≡ len
    → unbundle n bytes ≡ some rest
    → unbundle (suc n) (len ∷ (packet ++ bytes)) ≡ some (packet ∷ rest)
unfolding unbundle
unbundle-packet n len packet bytes {rest} l h = rw (← l) (
    rw (drop-length packet bytes)
      (rw h (rw (take-length packet bytes) (rw (not_short packet bytes)))))

write_packets_bundle :
    (p : Packet) (ps : List Packet)
    → p.len ≤ 255
    → write_packets 2 (p ∷ ps) ≡ p.len ∷ (contents p ++ write_packets 2 ps)
unfolding write_packets
write_packets_bundle p ps s = ground arith

unbundle-write_packets :
    (ps : List Packet)
    → AreBacked ps
    → AreShort ps
    → unbundle (length ps) (write_packets 2 ps) ≡ some (map contents ps)
unbundle-write_packets [] b s = unfold unbundle write_packets in refl
unbundle-write_packets (p ∷ ps) b s = rw (write_packets_bundle p ps s.0) (
    unbundle-packet (length ps) p.len (contents p) (write_packets 2 ps)
      (length-take_le p.len (bytes_of p.payload) b.0) (unbundle-write_packets ps b.1 s.1))

module _ (session_id first_seq envelope_flags capacity : ℕ) (ps : List Packet) where
  drop-header :
      (flags count payload_len : ℕ) (body : Bytes)
      → (drop 16 (header 2 session_id first_seq flags count payload_len ++ body) ≡ body)
        × (byte_at (header 2 session_id first_seq flags count payload_len ++ body) 13 ≡ count)
  unfolding header
  drop-header flags count payload_len body = (refl, refl)

  -- A bundle of fewer than 256 consecutive packets of at most 255 bytes, with pointers that cover
  -- their lengths, is encoded if it fits the buffer and its length field; its header counts the
  -- packets, and a receiver that follows the layout gets back every packet's bytes.
  pub unbundle-encode :
      AreBacked ps
      → AreShort ps
      → AreContiguous first_seq 0 ps
      → length ps < 256
      → length ps + total_len ps ≤ 65535
      → 16 + length ps + total_len ps ≤ capacity
      → (frame : Bytes) × (encode 2 session_id first_seq envelope_flags
            (some ps)
            (length ps)
            true
            capacity
            true
          ≡ ok frame)
        × (byte_at frame 13 ≡ length ps)
        × (unbundle (length ps) (drop 16 frame) ≡ some (map contents ps))
  unfolding encode encode_packets write_frame
  unbundle-encode b s c n l k =
      let total : ℕ = length ps + total_len ps in
      let flags : ℕ = all_flags envelope_flags ps in
      let body : Bytes = write_packets 2 ps in
      let (behind, count) = drop-header flags (length ps) total body in
      (
        header 2 session_id first_seq flags (length ps) total ++ body,
        ground (
          arith,
          take_all (length ps) ps,
          check_packets_accepts 2 first_seq 0 (length ps) envelope_flags ps b c (λ v. s),
        ),
        count,
        rw behind (unbundle-write_packets ps b s),
      )
