-- ===== src/Examples/Stick.antt =====
-- The stick's packets and its firmware update, at concrete values.
use voicestick.AudioTransport.Bounds.{encode-v2_packet_budget, length-encode}
use voicestick.AudioTransport.Packets.{contents}
use voicestick.AudioTransport.Decode.{unbundle, parse_audio_frame-encode, unbundle-encode}
use voicestick.VoiceBle.Ota.Transfer.{Holds, data_message}
use voicestick.VoiceBle.Ota.Invariant.{HasSmallPartitions, IsValid, ota_access_cb-IsValid}
use voicestick.ByteUtils.{byte_at, append_le32}
use voicestick.BleProtocol.{parse_audio_frame, ota_data_payload}
use voicestick.Prelude.{◌≡◌, ◌∷◌, ◌≤◌, List, [], some, true, refl, length, drop, map, arith, bit_or}
use voicestick.Prelude.Texts.{Bytes}
use voicestick.AudioTransport.{
  Packet, encode, ok, encode_packets, v2_packet_budget, check_packets, att_payload_capacity,
  write_packets, write_frame, header, write_le16, write_le32, is_null,
}
use voicestick.VoiceBle.Ota.{Platform, Device, Partition, cleared, ota_access_cb, esp_ota_write}

abbrev first_packet : Packet
first_packet = record { seq = 5; flags = 1; payload = some (10 ∷ 20 ∷ []); len = 2 }

abbrev second_packet : Packet
second_packet = record { seq = 6; flags = 2; payload = some (30 ∷ 40 ∷ 50 ∷ []); len = 2 }

abbrev two_packets : List Packet
two_packets = first_packet ∷ second_packet ∷ []

abbrev bundle : Bytes
bundle =
    2 ∷ 1 ∷ 16 ∷ 0 ∷ 9 ∷ 0 ∷ 0 ∷ 0 ∷ 5 ∷ 0 ∷ 0 ∷ 0 ∷ 3 ∷ 2 ∷ 6 ∷ 0 ∷ 2 ∷ 10 ∷ 20 ∷ 2 ∷ 30 ∷ 40 ∷ []

parse_audio_frame-encode_example :
    (frame : Bytes) × (encode 1 9 5 0 (some (first_packet ∷ [])) 1 true 64 true ≡ ok frame)
    × (parse_audio_frame frame
        ≡ some (record {
          session_id = 9;
          seq = 5;
          flags = bit_or 0 1;
          payload = contents first_packet;
        }))
parse_audio_frame-encode_example =
    parse_audio_frame-encode 9 5 0 64 first_packet (omega arith) (omega arith) refl (omega arith)
      (omega arith) (omega arith)

unbundle-encode_example :
    (frame : Bytes) × (encode 2 9 5 0 (some two_packets) 2 true 64 true ≡ ok frame)
    × (byte_at frame 13 ≡ 2)
    × (unbundle 2 (drop 16 frame) ≡ some (map contents two_packets))
unbundle-encode_example =
    unbundle-encode 9 5 0 64 two_packets (ground arith) (ground arith) (ground arith) (omega arith)
      (omega arith) (omega arith)

length-encode_example : length bundle ≤ 64
unfolding encode encode_packets check_packets write_packets write_frame header write_le16 write_le32
    is_null
length-encode_example =
    length-encode 2 9 5 0 (some two_packets) 2 64 true true bundle (ground arith) refl

encode-v2_packet_budget_example :
    (frame : Bytes) × (encode 2 9 5 0 (some two_packets) 2 true (att_payload_capacity 247) true
      ≡ ok frame)
    × (length frame ≤ att_payload_capacity 247)
unfolding v2_packet_budget att_payload_capacity
encode-v2_packet_budget_example =
    encode-v2_packet_budget 247 9 5 0 two_packets (omega arith) (omega arith) (ground arith)
      (ground arith) (ground arith) (ground arith) (omega arith)

abbrev pub app_partition : Partition
app_partition = record { address = 0x10000; size = 0x200000; label = [] }

-- A platform that fails at nothing.
abbrev pub stick_platform : Platform
stick_platform = record {
  next_update_partition = some app_partition;
  ota_begin_answer = λ q size. (0, 1);
  ota_write_answer = λ handle bytes. 0;
  ota_end_answer = λ handle. 0;
  set_boot_answer = λ o. 0;
  malloc_answer = true;
  mbuf_to_flat_answer = 0;
  notify_mbuf = true;
  notify_append = true;
}

abbrev pub stick : Device
stick = record {
  connected = true;
  has_conn_handle = true;
  ota_state_attr_handle = 3;
  has_ota_cb = true;
  ota = cleared;
  log = [];
}

-- In the transfer 7 of an image of 4 bytes, with 2 bytes written.
abbrev updating : Device
updating = record stick {
  ota = record cleared { active = true; transfer_id = 7; image_size = 4; written = 2; handle = 1 };
  log = esp_ota_write 1 (8 ∷ 9 ∷ []) 0 ∷ [];
}

small_partitions : HasSmallPartitions stick_platform
small_partitions = λ q e. ground arith

ota_access_cb-IsValid_example :
    IsValid (ota_access_cb stick_platform true (ota_data_payload 7 2 (5 ∷ 6 ∷ [])) updating).0
unfolding ota_data_payload append_le32
ota_access_cb-IsValid_example =
    ota_access_cb-IsValid stick_platform true (ota_data_payload 7 2 (5 ∷ 6 ∷ [])) updating
      small_partitions (ground arith) (omega arith)

data_message_example :
    Holds 7 4
      (8 ∷ 9 ∷ 5 ∷ 6 ∷ [])
      (ota_access_cb stick_platform true (ota_data_payload 7 2 (5 ∷ 6 ∷ [])) updating).0
data_message_example =
    data_message stick_platform app_partition (ground arith) 7 4 (8 ∷ 9 ∷ []) (5 ∷ 6 ∷ []) updating
      (ground arith) (omega arith) (omega arith) (omega arith) (omega arith)
