-- ===== src/AudioPipeline.antt =====
-- firmware/components/audio_pipeline/audio_pipeline.c: from Opus packets to notifications. The codec
-- and the encoder are hardware and a library; what Opus makes of a frame is an argument.
pub mod Bundles
pub mod Laws
pub mod Order
use voicestick.Prelude.{
  ℕ, zero, suc, ◌+◌, ◌-◌, ◌*◌, ◌/◌, ◌==◌, ltb, leb, Bool, true, false, not, ◌&&◌, ◌||◌, List, [],
  ◌∷◌, ◌++◌, Option, none, some, map, length, if◌then◌else◌,
}
use voicestick.Prelude.Texts.{Bytes}
use voicestick.ByteUtils.{u16, u32}
use voicestick.AudioTransport.{Packet, v2_packet_budget}
use voicestick.VoiceBle.Ota.{err_invalid_arg, esp_ok}
use voicestick.VoiceBle.Link.{Link, Answers, wait_for_audio_window, send_audio_packets, send_audio}

abbrev pub opus_max_packet_size : ℕ
opus_max_packet_size = 220

abbrev pub tx_queue_depth : ℕ
tx_queue_depth = 24

abbrev pub tx_max_retries : ℕ
tx_max_retries = 8

abbrev pub tx_ack_timeout_ms : ℕ
tx_ack_timeout_ms = 100

abbrev pub tx_v2_max_bundle : ℕ
tx_v2_max_bundle = 4

-- `audio_transport_profile_t`
pub record Profile : Type 0 where
  pub version : ℕ
  pub bundle_size : ℕ
  pub packet_budget : ℕ
  pub opus_bitrate : ℕ
  pub max_inflight_frames : ℕ

-- `audio_packet_t`; `bytes` are the first `len` of `data`.
pub record AudioPacket : Type 0 where
  pub session_id : ℕ  -- uint32
  pub seq : ℕ  -- uint32
  pub flags : ℕ  -- uint8
  pub len : ℕ  -- uint16
  pub bytes : Bytes

abbrev pub v1_profile : Profile
v1_profile = record {
  version = 1;
  bundle_size = 1;
  packet_budget = opus_max_packet_size;
  opus_bitrate = 20000;
  max_inflight_frames = 1;
}

-- The bitrate that fills a budget with frames of 60 ms.
unfoldable pub bitrate_of : ℕ → ℕ
bitrate_of budget = u32 ((budget - 1) * 8 * 1000) / 60

-- The loop over the sizes of a bundle, from this one down to 2.
unfoldable pub choose_profile : (mtu bundle : ℕ) → Profile
choose_profile mtu zero = v1_profile
choose_profile mtu (suc smaller) =
    let bundle = suc smaller in
    let budget = v2_packet_budget mtu bundle in
    let rest = choose_profile mtu smaller in
    if ltb bundle 2
    then v1_profile
    else if ltb budget 2 || ltb 255 budget
    then rest
    else if ltb (bitrate_of budget) 7000
    then rest
    else record {
      version = 2;
      bundle_size = bundle;
      packet_budget = u16 budget;
      opus_bitrate = if ltb (bitrate_of budget) 12000 then bitrate_of budget else 12000;
      max_inflight_frames = bundle * 2;
    }

-- The profile, and whether the connection is told to go back to version 1.
unfoldable pub configure_transport_profile : (version mtu : ℕ) → Profile × Bool
configure_transport_profile version mtu =
    if ltb version 2
    then (v1_profile, false)
    else let profile = choose_profile mtu tx_v2_max_bundle in (profile, not (profile.version == 2))

-- What the capturing task changes: `s_seq`, the queue, oldest first, and the dropped packets.
pub record Capture : Type 0 where
  pub session_id : ℕ  -- uint32
  pub seq : ℕ  -- uint32
  -- Whether `audio_task` has left its loop and queued the end of the session.
  pub ended : Bool
  pub queue : List AudioPacket
  pub dropped : ℕ

abbrev pub packet_of : Capture → Bytes → AudioPacket
packet_of c encoded = record {
  session_id = c.session_id;
  seq = c.seq;
  flags = if c.seq == 0 then 0x01 else 0x00;
  len = length encoded;
  bytes = encoded;
}

abbrev pub without_oldest : List AudioPacket → List AudioPacket
without_oldest [] = []
without_oldest (p ∷ ps) = ps

-- One round of `audio_task` once Opus has encoded a frame, to at most `packet_budget` bytes. Where
-- the queue is full the oldest packet is received before the new one is sent; what `tx_task` receives
-- between the two it receives as well behind both.
unfoldable pub capture_frame : Bytes → Capture → Capture
capture_frame encoded c =
    let pkt = packet_of c encoded in
    if c.ended
    then c
    else if ltb (length c.queue) tx_queue_depth
    then record c { seq = u32 (c.seq + 1); queue = c.queue ++ (pkt ∷ []) }
    else record c {
      seq = u32 (c.seq + 1);
      queue = without_oldest c.queue ++ (pkt ∷ []);
      dropped = u32 (c.dropped + 1);
    }

abbrev pub flag_end : ℕ
flag_end = 0x02

abbrev pub sentinel_of : Capture → AudioPacket
sentinel_of c = record {
  session_id = c.session_id;
  seq = c.seq;
  flags = flag_end;
  len = 0;
  bytes = [];
}

-- The end of `audio_task` once it is stopped: the sentinel, which waits for room in the queue.
unfoldable pub end_capture : Capture → Capture
end_capture c =
    if c.ended
    then c
    else if ltb (length c.queue) tx_queue_depth
    then record c { ended = true; queue = c.queue ++ (sentinel_of c ∷ []) }
    else c

-- `tx_task` takes the oldest packet.
unfoldable pub take_packet : Capture → Capture
take_packet c = record c { queue = without_oldest c.queue }

abbrev pub is_sentinel : AudioPacket → Bool
is_sentinel p = p.flags == flag_end && p.len == 0

-- `tx_task` fills a bundle with what the queue gives in turn, `none` where the wait for it has timed
-- out; the bundle, and the sequence number of the end if it came.
unfoldable pub collect :
    (room : ℕ) → List AudioPacket → List (Option AudioPacket) → List AudioPacket × Option ℕ
collect zero bundle received = (bundle, none)
collect (suc room) bundle [] = (bundle, none)
collect (suc room) bundle (none ∷ received) = (bundle, none)
collect (suc room) bundle (some next ∷ received) =
    let more = collect room (bundle ++ (next ∷ [])) received in
    if is_sentinel next then (bundle, some next.seq) else more

abbrev pub transport_packet : AudioPacket → Packet
transport_packet p = record { seq = p.seq; flags = p.flags; payload = some p.bytes; len = p.len }

abbrev pub last_seq : ℕ → List AudioPacket → ℕ
last_seq seq [] = seq
last_seq seq (p ∷ ps) = last_seq p.seq ps

-- `rounds` is what the wait for the window meets; the connection after it is `l`. The result is
-- `none` where the wait is not over after the rounds.
unfoldable pub send_audio_bundle :
    Profile → Answers → List (Link × ℕ) → Link → List AudioPacket → Option (Link × ℕ)
send_audio_bundle profile n rounds l [] = some (l, err_invalid_arg)
send_audio_bundle profile n rounds l (p ∷ ps) =
    if ltb tx_v2_max_bundle (suc (length ps))
    then some (l, err_invalid_arg)
    else if profile.version == 1
    then some (send_audio n p.session_id p.seq p.flags (some p.bytes) p.len l)
    else let next_seq = u32 (last_seq p.seq ps + 1) in
      elim (wait_for_audio_window l p.session_id next_seq profile.max_inflight_frames
        tx_ack_timeout_ms rounds) [
          | none ↦ none
          | some err ↦
              if not (err == esp_ok)
              then some (l, err)
              else some (
                  send_audio_packets n p.session_id p.seq 0 (some (map transport_packet (p ∷ ps)))
                    (suc (length ps)) l)
        ]

-- The loop around `send_audio_bundle`: `sends` says whether the attempt after that many failed ones
-- succeeds. The result is whether the bundle was sent, and how often it was tried.
unfoldable pub attempts : (ℕ → Bool) → (fuel tried : ℕ) → Bool × ℕ
attempts sends zero tried = (false, tried)
attempts sends (suc fuel) tried =
    let more = attempts sends fuel (suc tried) in if sends tried then (true, suc tried) else more

-- A bundle is given up after `TX_MAX_RETRIES` attempts.
unfoldable pub send_with_retries : (ℕ → Bool) → Bool × ℕ
send_with_retries sends = attempts sends tx_max_retries 0
