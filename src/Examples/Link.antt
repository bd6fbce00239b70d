-- ===== src/Examples/Link.antt =====
-- The stick's connection, its messages and its audio, at concrete values.
use voicestick.Prelude.{
  ℕ, ◌≡◌, ◌≢◌, ◌≤◌, ◌⊎◌, inl, inr, true, false, List, [], ◌∷◌, none, some, Option, refl, arith,
  length,
}
use voicestick.Prelude.Texts.{Bytes}
use voicestick.ByteUtils.{read_le32, subspan}
use voicestick.BleProtocol.{parse_state_event}
use voicestick.AudioTransport.{
  Packet, ok, encode, att_payload_capacity, v2_packet_budget, encode_packets, check_packets,
  write_frame, is_null,
}
use voicestick.VoiceBle.Link.{
  Link, Answers, GapEvent, init, control_access_cb, wait_for_audio_window, send_audio,
  window_rounds, is_ready, send_audio_packets, send_packets_to, notified,
}
use voicestick.VoiceBle.Link.Laws.{IsLinked, LinkMove, link_moves, link_moves-IsLinked}
use voicestick.VoiceBle.Link.Window.{
  Some, IsOpen, SendsWithin, wait_for_audio_window-returns, wait_for_audio_window-IsOpen,
  send_audio-SendsWithin, control_access_cb-acked,
}
use voicestick.VoiceBle.Notify.{json_frame, button_down_json, button_up_json, button_click_json}
use voicestick.VoiceBle.Notify.Heads.{Kind, button_name, button_event}
use voicestick.VoiceBle.Notify.RoundTrip.{told, parse_state_event-buttons}
use voicestick.AudioPipeline.{
  Profile, AudioPacket, configure_transport_profile, collect, send_audio_bundle, choose_profile,
  bitrate_of,
}
use voicestick.AudioPipeline.Bundles.{until_end, next_end, collect-until_end}
use voicestick.AudioPipeline.Laws.{
  Fits, configure_transport_profile-Fits, configure_transport_profile-bundle,
}
use voicestick.AudioPipeline.Order.{
  QueueMove, queue_moves, new_session, IsOrdered, IsUnsent, queue_moves-IsOrdered,
  send_audio_bundle-gap,
}

abbrev willing : Answers
willing = record {
  adv_active = false;
  adv_fields_rc = 0;
  adv_rsp_fields_rc = 0;
  adv_start_rc = 0;
  update_params_rc = 0;
  has_mbuf = true;
  notify_rc = 0;
}

abbrev linked : Link
linked = record (init 16 19) {
  connected = true;
  audio_subscribed = true;
  state_subscribed = true;
  conn_handle = some 1;
  att_mtu = 247;
  audio_transport_version = 2;
  audio_session_id = 7;
  audio_acked_seq = 2;
}

abbrev ack : Bytes
ack = 2 ∷ 2 ∷ 12 ∷ 0 ∷ 7 ∷ 0 ∷ 0 ∷ 0 ∷ 5 ∷ 0 ∷ 0 ∷ 0 ∷ []

abbrev life : List LinkMove
life =
    LinkMove.gap willing (GapEvent.connect 0 1)
    ∷ LinkMove.gap willing (GapEvent.subscribe 1 16 true)
    ∷ LinkMove.choose_version 2
    ∷ LinkMove.begin_session 7
    ∷ LinkMove.control_write true true ack
    ∷ LinkMove.gap willing GapEvent.disconnect
    ∷ []

link_moves-IsLinked_example : IsLinked (link_moves life (init 16 19))
link_moves-IsLinked_example = link_moves-IsLinked life 16 19

wait_for_audio_window-returns_example :
    wait_for_audio_window linked 7 12 8 100 ((linked, 0) ∷ (linked, 100) ∷ []) ≢ none
wait_for_audio_window-returns_example =
    wait_for_audio_window-returns 7 12 8 100 linked ((linked, 0) ∷ (linked, 100) ∷ [])
      (inr (inl (omega arith)))

wait_for_audio_window-IsOpen_example : Some (IsOpen 7 9 8 100) ((linked, 0) ∷ [])
unfolding wait_for_audio_window window_rounds is_ready
wait_for_audio_window-IsOpen_example =
    wait_for_audio_window-IsOpen 7 9 8 100 linked ((linked, 0) ∷ []) (omega arith) refl

send_audio-SendsWithin_example :
    SendsWithin linked (send_audio willing 7 3 1 (some (10 ∷ 20 ∷ [])) 2 linked).0
send_audio-SendsWithin_example =
    send_audio-SendsWithin willing 7 3 1 (some (10 ∷ 20 ∷ [])) 2 linked (omega arith)

control_access_cb-acked_example :
    let k = (control_access_cb true true ack linked).0 in
    (2 ≤ k.audio_acked_seq)
    × ((k.audio_acked_seq ≡ 2)
        ⊎ ((read_le32 (subspan ack 4 4) ≡ 7) × (read_le32 (subspan ack 8 4) ≡ k.audio_acked_seq)))
    × (k.audio_session_id ≡ 7)
control_access_cb-acked_example = control_access_cb-acked true true ack linked

parse_state_event-buttons_example :
    (parse_state_event (json_frame (button_down_json (button_name true) 7))
      ≡ some (button_event Kind.down true (told 7) none))
    × (parse_state_event (json_frame (button_up_json (button_name true) 1500 7))
        ≡ some (button_event Kind.up true (told 7) (some 1500)))
    × (parse_state_event (json_frame (button_click_json (button_name true) 1500 7))
        ≡ some (button_event Kind.click true (told 7) (some 1500)))
parse_state_event-buttons_example =
    parse_state_event-buttons true 1500 7 (omega arith) (omega arith)

configure_transport_profile-Fits_example : Fits 247 (configure_transport_profile 2 247).0
configure_transport_profile-Fits_example = configure_transport_profile-Fits 2 247

abbrev packets : List Packet
packets =
    record { seq = 4; flags = 0; payload = some (10 ∷ 20 ∷ []); len = 2 }
    ∷ record { seq = 5; flags = 0; payload = some (30 ∷ []); len = 1 }
    ∷ []

configure_transport_profile-bundle_example :
    (frame : Bytes) × (encode 2 7 4 0 (some packets) 2 true (att_payload_capacity 247) true
      ≡ ok frame)
    × (length frame ≤ att_payload_capacity 247)
unfolding configure_transport_profile choose_profile bitrate_of v2_packet_budget
    att_payload_capacity
configure_transport_profile-bundle_example =
    configure_transport_profile-bundle 2 247 7 4 packets (omega arith) refl (omega arith)
      (omega arith, (omega arith, tt)) (omega arith, (omega arith, tt)) (refl, (refl, tt))

queue_moves-IsOrdered_example : IsOrdered (
    queue_moves
      (QueueMove.captured (10 ∷ [])
        ∷ QueueMove.captured (20 ∷ [])
        ∷ QueueMove.stopped
        ∷ QueueMove.taken
        ∷ [])
      (new_session 7))
queue_moves-IsOrdered_example =
    queue_moves-IsOrdered
      (QueueMove.captured (10 ∷ [])
        ∷ QueueMove.captured (20 ∷ [])
        ∷ QueueMove.stopped
        ∷ QueueMove.taken
        ∷ [])
      7

abbrev packet : ℕ → AudioPacket
packet seq = record { session_id = 7; seq = seq; flags = 0; len = 1; bytes = seq ∷ [] }

abbrev received : List (Option AudioPacket)
received = some (packet 5) ∷ some (record (packet 6) { flags = 2; len = 0 }) ∷ some (packet 7) ∷ []

collect-until_end_example :
    ((collect 3 (packet 4 ∷ []) received).0 ≡ packet 4 ∷ packet 5 ∷ [])
    × ((collect 3 (packet 4 ∷ []) received).1 ≡ some 6)
unfolding until_end next_end
collect-until_end_example = collect-until_end 3 (packet 4 ∷ []) received

abbrev pair : Profile
pair = record {
  version = 2;
  bundle_size = 2;
  packet_budget = 100;
  opus_bitrate = 12000;
  max_inflight_frames = 4;
}

send_audio_bundle-gap_example : IsUnsent linked (linked, 0x102)
unfolding send_audio_bundle wait_for_audio_window window_rounds is_ready send_audio_packets
    send_packets_to att_payload_capacity notified encode encode_packets check_packets write_frame
    is_null
send_audio_bundle-gap_example =
    send_audio_bundle-gap pair willing ((linked, 0) ∷ []) linked (packet 3) (packet 5) []
      (linked, 0x102) refl refl (λ e. omega arith) refl
