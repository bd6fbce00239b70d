-- ===== src/VoiceBle/Link/Window.antt =====
-- The window of audio frames: how far the stick runs ahead of the desktop, and what it sends.
use voicestick.Prelude.{
  ℕ, ◌+◌, ◌≤◌, ◌≡◌, ◌⊎◌, inl, inr, ◌==◌, leb, true, List, [], ◌∷◌, Option, none, some, arith, refl,
  length, Bool-cases, ◌&&◌, ◌≢◌, Bool,
}
use voicestick.Prelude.Texts.{Bytes}
use voicestick.AudioTransport.{
  Packet, Result, ok, encode, packets_of, att_payload_capacity, bytes_of,
}
use voicestick.AudioTransport.Packets.{AreBacked}
use voicestick.AudioTransport.Bounds.{length-encode}
use voicestick.VoiceBle.Ota.{esp_ok}
use voicestick.VoiceBle.Link.{
  Link, Answers, window_rounds, wait_for_audio_window, send_audio_packets, send_audio, notified,
  is_ready, notify_audio, preferred_mtu, send_packets_to, control_access_cb, read_le32, subspan,
}

-- Some round, with its ticks.
abbrev pub Some : (Link × ℕ → Type 0) → List (Link × ℕ) → Type 0
Some P [] = ⊥
Some P (r ∷ rs) = P r ⊎ Some P rs

module _ (session_id next_seq max_inflight_frames timeout : ℕ) where
  -- The connection is up, the session is still this one, and at most `max_inflight_frames` frames
  -- before `next_seq` are not acknowledged.
  abbrev pub IsOpen : Link × ℕ → Type 0
  IsOpen r =
      (is_ready r.0 ≡ true)
      × (r.0.audio_session_id ≡ session_id)
      × (next_seq ≤ r.0.audio_acked_seq + max_inflight_frames)

  window_rounds-IsOpen :
      (rounds : List (Link × ℕ))
      → window_rounds session_id next_seq max_inflight_frames timeout rounds ≡ some esp_ok
      → Some IsOpen rounds
  unfolding window_rounds
  window_rounds-IsOpen [] h = absurd (ground arith)
  window_rounds-IsOpen ((l, elapsed) ∷ rs) h = ground (arith, window_rounds-IsOpen rs)

  window_rounds-returns :
      (rounds : List (Link × ℕ))
      → Some (λ r. timeout ≤ r.1) rounds
      → window_rounds session_id next_seq max_inflight_frames timeout rounds ≢ none
  unfolding window_rounds
  window_rounds-returns [] h = absurd h
  window_rounds-returns ((l, elapsed) ∷ rs) h = ground (arith, window_rounds-returns rs)

  -- The wait before a frame ends, with an answer, where some round finds its time to be up, whatever
  -- the connection is like at the call and in the rounds.
  pub wait_for_audio_window-returns :
      (now : Link) (rounds : List (Link × ℕ))
      → Some (λ r. timeout ≤ r.1) rounds
      → wait_for_audio_window now session_id next_seq max_inflight_frames timeout rounds ≢ none
  unfolding wait_for_audio_window
  wait_for_audio_window-returns now rounds h = ground (arith, window_rounds-returns rounds h)

  -- Where the wait before a frame answers success and version 2 was chosen at the call, it has met a
  -- round in which the stick was ready, the session was the frame's own, and at most
  -- `max_inflight_frames` frames before this one were not acknowledged.
  pub wait_for_audio_window-IsOpen :
      (now : Link) (rounds : List (Link × ℕ))
      → 2 ≤ now.audio_transport_version
      → wait_for_audio_window now session_id next_seq max_inflight_frames timeout rounds
        ≡ some esp_ok
      → Some IsOpen rounds
  unfolding wait_for_audio_window
  wait_for_audio_window-IsOpen now rounds v e = window_rounds-IsOpen rounds (ground arith)

notified-log :
    (n : Answers) (handle : ℕ) (r : Result Bytes) (l : Link)
    → ((notified n handle r l).0.log ≡ l.log)
      ⊎ ((frame : Bytes) × (r ≡ ok frame)
          × ((notified n handle r l).0.log ≡ notify_audio handle frame ∷ l.log))
unfolding notified
notified-log n handle (ok frame) l = elim (Bool-cases (n.has_mbuf && n.notify_rc == 0)) [
  | inl sent ↦ inr (frame, refl, ground arith)
  | inr not_sent ↦ inl (ground arith)
]
notified-log n handle r l = inl refl

-- What one call sends: nothing, or one frame to the connection, while the stick is ready.
pub SendsWithin : Link → Link → Type 0
SendsWithin l k =
    (k.log ≡ l.log)
    ⊎ ((handle : ℕ) × (frame : Bytes) × (k.log ≡ notify_audio handle frame ∷ l.log)
        × (l.conn_handle ≡ some handle)
        × (is_ready l ≡ true)
        × (length frame ≤ att_payload_capacity l.att_mtu)
        × (length frame ≤ preferred_mtu))

notified-SendsWithin :
    (n : Answers) (handle : ℕ) (r : Result Bytes) (l : Link)
    → ((frame : Bytes) → r ≡ ok frame → length frame ≤ att_payload_capacity l.att_mtu)
    → l.conn_handle ≡ some handle
    → is_ready l ≡ true
    → att_payload_capacity l.att_mtu ≤ preferred_mtu
    → SendsWithin l (notified n handle r l).0
unfolding SendsWithin
notified-SendsWithin n handle r l fits c d m = elim (notified-log n handle r l) [
  | inl same ↦ inl same
  | inr (frame, e, sent) ↦
      inr (handle, frame, sent, c, d, fits frame e, omega (arith, fits frame e, m))
]

packets_to-SendsWithin :
    (n : Answers) (handle : Option ℕ) (session_id first_seq flags : ℕ)
    (packets : Option (List Packet)) (packet_count : ℕ) (l : Link)
    → AreBacked (packets_of packets)
    → l.conn_handle ≡ handle
    → SendsWithin l (send_packets_to n handle session_id first_seq flags packets packet_count l).0
unfolding SendsWithin send_packets_to
packets_to-SendsWithin n none session_id first_seq flags packets packet_count l b c = inl refl
packets_to-SendsWithin n (some handle) session_id first_seq flags packets packet_count l b c =
    elim (Bool-cases (is_ready l && leb (att_payload_capacity l.att_mtu) preferred_mtu)) [
      | inl up ↦
          let frames =
            notified-SendsWithin n handle
              (encode l.audio_transport_version session_id first_seq flags packets packet_count true
                (att_payload_capacity l.att_mtu) true)
              l
              (λ frame e.
                length-encode l.audio_transport_version session_id first_seq flags packets
                  packet_count (att_payload_capacity l.att_mtu) true true frame b e)
              c (ground arith) (ground arith) in
          ground (arith, frames)
      | inr down ↦ inl (ground arith)
    ]

send_packets-SendsWithin :
    (n : Answers) (session_id first_seq flags : ℕ) (packets : Option (List Packet))
    (packet_count : ℕ) (l : Link)
    → AreBacked (packets_of packets)
    → SendsWithin l (send_audio_packets n session_id first_seq flags packets packet_count l).0
unfolding send_audio_packets
send_packets-SendsWithin n session_id first_seq flags packets packet_count l b =
    packets_to-SendsWithin n l.conn_handle session_id first_seq flags packets packet_count l b refl

-- Where the pointer covers the length: a call for one packet sends nothing, or one frame over the
-- connection while the stick is ready; the frame fits a notification on the negotiated MTU and the
-- buffer that it is built in.
pub send_audio-SendsWithin :
    (n : Answers) (session_id seq flags : ℕ) (opus_payload : Option Bytes) (len : ℕ) (l : Link)
    → len ≤ length (bytes_of opus_payload)
    → SendsWithin l (send_audio n session_id seq flags opus_payload len l).0
unfolding send_audio SendsWithin
send_audio-SendsWithin n session_id seq flags opus_payload len l b = ground (
  arith,
  send_packets-SendsWithin n session_id seq flags none 0 l tt,
  send_packets-SendsWithin n session_id seq 0
      (some (record { seq = seq; flags = flags; payload = opus_payload; len = len } ∷ [])) 1 l
      (b, tt),
)

-- Whatever is written to the control characteristic, the count of acknowledged frames never falls,
-- and it moves only to a number that the message names for the session that is open.
pub control_access_cb-acked :
    (is_write is_copied : Bool) (raw : Bytes) (l : Link)
    → let k = (control_access_cb is_write is_copied raw l).0 in
      (l.audio_acked_seq ≤ k.audio_acked_seq)
      × ((k.audio_acked_seq ≡ l.audio_acked_seq)
          ⊎ ((read_le32 (subspan raw 4 4) ≡ l.audio_session_id)
              × (read_le32 (subspan raw 8 4) ≡ k.audio_acked_seq)))
      × (k.audio_session_id ≡ l.audio_session_id)
unfolding control_access_cb
control_access_cb-acked is_write is_copied raw l = ground arith
