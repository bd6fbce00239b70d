-- ===== src/BleProtocol.antt =====
-- desktop/windows/src/ble_protocol.h and ble_protocol.cc: what the desktop reads from a stick's
-- notifications and what it writes to it. The JSON fields are in `Json`, the device names in
-- `DeviceId`.
mod Json
mod DeviceId
pub mod Laws
unfoldable pub use Json.{
  quote, quoted_key, is_space, is_digit, strip_prefix, after_first, unescape, scan_string,
  json_string_value, span_digits, skip_spaces, decimal_value, json_u32_value, escape_byte,
  json_escape,
}
unfoldable pub use DeviceId.{
  trim, to_upper, uppercase, is_hex, is_hex4, device_id_from_name, normalize_device_id,
}
use voicestick.Prelude.{
  ℕ, ◌+◌, bit_and, Bool, not, ◌||◌, ◌==◌, List, [], ◌∷◌, ◌++◌, Option, none, some, if◌then◌else◌,
  ltb, length,
}
use voicestick.Prelude.Texts.{Bytes, Text, text, is_empty}
use voicestick.ByteUtils.{byte_at, subspan, read_le16, read_le32, append_le32}

pub record AudioFrame : Type 0 where
  pub session_id : ℕ  -- uint32
  pub seq : ℕ  -- uint32
  pub flags : ℕ  -- uint8
  pub payload : Bytes

unfoldable pub is_start : AudioFrame → Bool
is_start frame = not (bit_and frame.flags 0x01 == 0)

unfoldable pub is_end : AudioFrame → Bool
is_end frame = not (bit_and frame.flags 0x02 == 0)

pub record StateEvent : Type 0 where
  pub event : Text
  pub button : Text
  pub session_id : Option ℕ
  pub duration_ms : Option ℕ
  pub hardware : Text
  pub firmware_version : Text

pub record FirmwareOtaStateEvent : Type 0 where
  pub event : Text
  pub transfer_id : Option ℕ
  pub written : Option ℕ
  pub size : Option ℕ
  pub code : Text
  pub reboot_ms : Option ℕ

abbrev pub ota_type_begin : ℕ
ota_type_begin = 0x20

abbrev pub ota_type_data : ℕ
ota_type_data = 0x21

abbrev pub ota_type_end : ℕ
ota_type_end = 0x22

abbrev pub ota_type_abort : ℕ
ota_type_abort = 0x23

abbrev pub ota_type_state : ℕ
ota_type_state = 0x30

unfoldable pub parse_audio_frame : Bytes → Option AudioFrame
parse_audio_frame bytes =
    if ltb (length bytes) 16 || not (byte_at bytes 0 == 1) || not (byte_at bytes 1 == 0x01)
    then none
    else let header_len = read_le16 (subspan bytes 2 2) in
      if not (header_len == 16) || ltb (length bytes) header_len
      then none
      else let payload_len = read_le16 (subspan bytes 14 2) in
        if ltb (length bytes) (16 + payload_len)
        then none
        else some (record {
          session_id = read_le32 (subspan bytes 4 4);
          seq = read_le32 (subspan bytes 8 4);
          flags = byte_at bytes 12;
          payload = subspan bytes 16 payload_len;
        })

state_event_of : Text → Option StateEvent
state_event_of json =
    if is_empty (json_string_value json (text "event"))
    then none
    else some (record {
      event = json_string_value json (text "event");
      button = json_string_value json (text "button");
      session_id = json_u32_value json (text "session_id");
      duration_ms = json_u32_value json (text "duration_ms");
      hardware = json_string_value json (text "hardware");
      firmware_version = json_string_value json (text "firmware_version");
    })

ota_state_event_of : Text → Option FirmwareOtaStateEvent
ota_state_event_of json =
    if is_empty (json_string_value json (text "event"))
    then none
    else some (record {
      event = json_string_value json (text "event");
      transfer_id = json_u32_value json (text "transfer_id");
      written = json_u32_value json (text "written");
      size = json_u32_value json (text "size");
      code = json_string_value json (text "code");
      reboot_ms = json_u32_value json (text "reboot_ms");
    })

-- The frame of both kinds of state notification: version 1, a type, the length of the JSON.
abbrev pub json_of_frame : ℕ → Bytes → Option Text
json_of_frame kind bytes =
    if ltb (length bytes) 4 || not (byte_at bytes 0 == 1) || not (byte_at bytes 1 == kind)
    then none
    else let payload_len = read_le16 (subspan bytes 2 2) in
      if ltb (length bytes) (4 + payload_len) then none else some (subspan bytes 4 payload_len)

unfoldable pub parse_state_event : Bytes → Option StateEvent
unfolding state_event_of
parse_state_event bytes = elim (json_of_frame 0x10 bytes) [
  | none ↦ none
  | some json ↦ state_event_of json
]

unfoldable pub parse_firmware_ota_state_event : Bytes → Option FirmwareOtaStateEvent
unfolding ota_state_event_of
parse_firmware_ota_state_event bytes = elim (json_of_frame ota_type_state bytes) [
  | none ↦ none
  | some json ↦ ota_state_event_of json
]

unfoldable pub ui_state_payload : Text → Text → Bytes
ui_state_payload state label =
    text "{\"event\":\"ui_state\",\"state\":\""
    ++ (json_escape state ++ (text "\",\"text\":\"" ++ (json_escape label ++ text "\"}")))

unfoldable pub interaction_mode_payload : Text → Bytes
interaction_mode_payload mode =
    text "{\"event\":\"interaction_mode\",\"mode\":\"" ++ (json_escape mode ++ text "\"}")

unfoldable pub ota_begin_payload : ℕ → ℕ → Bytes
ota_begin_payload image_size transfer_id =
    append_le32 (append_le32 (1 ∷ ota_type_begin ∷ 12 ∷ 0 ∷ []) image_size) transfer_id

unfoldable pub ota_data_payload : ℕ → ℕ → Bytes → Bytes
ota_data_payload transfer_id offset chunk =
    append_le32 (append_le32 (1 ∷ ota_type_data ∷ 12 ∷ 0 ∷ []) transfer_id) offset ++ chunk

unfoldable pub ota_end_payload : ℕ → ℕ → Bytes
ota_end_payload transfer_id image_size =
    append_le32 (append_le32 (1 ∷ ota_type_end ∷ 12 ∷ 0 ∷ []) transfer_id) image_size

unfoldable pub ota_abort_payload : ℕ → Bytes
ota_abort_payload transfer_id = append_le32 (1 ∷ ota_type_abort ∷ 8 ∷ 0 ∷ []) transfer_id
