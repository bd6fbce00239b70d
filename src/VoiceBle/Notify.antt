-- ===== src/VoiceBle/Notify.antt =====
-- What voice_ble.c tells the desktop over the state characteristic: the JSON of a button or of the
-- device in a frame of four more bytes. `snprintf` keeps what fits its buffer.
pub mod Search
pub mod Heads
pub mod RoundTrip
use voicestick.Prelude.{
  ℕ, ◌==◌, ◌/◌, ◌^◌, ltb, Bool, not, ◌||◌, ◌∷◌, ◌++◌, Option, none, some, if◌then◌else◌, length,
  take,
}
use voicestick.Prelude.Texts.{Bytes, Text, text}
use voicestick.ByteUtils.{u8, u16}
use voicestick.VoiceBle.Ota.{decimal, err_no_mem, err_invalid_state, esp_ok}
use voicestick.VoiceBle.Link.{Link, Answers, esp_fail}

-- The frame of a notification.
unfoldable pub json_frame : Text → Bytes
json_frame json =
    let json_len = u16 (length json) in 1 ∷ 0x10 ∷ u8 json_len ∷ u8 (json_len / 2 ^ 8) ∷ json

-- The frame that is notified, and the result of the call. `can_append` is whether NimBLE has room
-- for the text.
unfoldable pub send_state_json : Answers → (can_append : Bool) → Text → Link → Option Bytes × ℕ
send_state_json n can_append json l = elim l.conn_handle [
  | none ↦ (none, err_invalid_state)
  | some handle ↦
      if not l.connected || not l.state_subscribed
      then (none, err_invalid_state)
      else if not n.has_mbuf
      then (none, err_no_mem)
      else if not can_append || not (n.notify_rc == 0)
      then (none, esp_fail)
      else (some (json_frame json), esp_ok)
]

unfoldable pub device_info_json : Text → Text
device_info_json version = take 279 (
    text "{\"event\":\"device_info\",\"hardware\":\"stick_s3\",\"firmware_version\":\""
    ++ (version
        ++ text
            "\",\"buttons\":[\"primary\",\"secondary\"],\"interaction_modes\":[\"hold_to_talk\",\"click_to_talk\"],\"ui_states\":[\"ready\",\"recording\",\"thinking\",\"pending_confirmation\",\"error\"]}"))

unfoldable pub button_down_json : Text → ℕ → Text
button_down_json button session_id =
    if ltb 0 session_id
    then take 95 (
        text "{\"event\":\"button_down\",\"button\":\""
        ++ (button ++ (text "\",\"session_id\":" ++ (decimal session_id ++ text "}"))))
    else take 95 (text "{\"event\":\"button_down\",\"button\":\"" ++ (button ++ text "\"}"))

unfoldable pub button_up_json : Text → ℕ → ℕ → Text
button_up_json button duration_ms session_id =
    if ltb 0 session_id
    then take 127 (
        text "{\"event\":\"button_up\",\"button\":\""
        ++ (button
            ++ (text "\",\"duration_ms\":"
                ++ (decimal duration_ms
                    ++ (text ",\"session_id\":" ++ (decimal session_id ++ text "}"))))))
    else take 127 (
        text "{\"event\":\"button_up\",\"button\":\""
        ++ (button ++ (text "\",\"duration_ms\":" ++ (decimal duration_ms ++ text "}"))))

unfoldable pub button_click_json : Text → ℕ → ℕ → Text
button_click_json button duration_ms session_id =
    if ltb 0 session_id
    then take 127 (
        text "{\"event\":\"button_click\",\"button\":\""
        ++ (button
            ++ (text "\",\"duration_ms\":"
                ++ (decimal duration_ms
                    ++ (text ",\"session_id\":" ++ (decimal session_id ++ text "}"))))))
    else if ltb 0 duration_ms
    then take 127 (
        text "{\"event\":\"button_click\",\"button\":\""
        ++ (button ++ (text "\",\"duration_ms\":" ++ (decimal duration_ms ++ text "}"))))
    else take 127 (text "{\"event\":\"button_click\",\"button\":\"" ++ (button ++ text "\"}"))

unfoldable pub send_device_info : Answers → Bool → Option Text → Link → Option Bytes × ℕ
send_device_info n can_append version l =
    send_state_json n can_append
      (device_info_json (elim version [ none ↦ text "unknown" | some v ↦ v ])) l

unfoldable pub send_button_down : Answers → Bool → Text → ℕ → Link → Option Bytes × ℕ
send_button_down n can_append button session_id l =
    send_state_json n can_append (button_down_json button session_id) l

unfoldable pub send_button_up : Answers → Bool → Text → ℕ → ℕ → Link → Option Bytes × ℕ
send_button_up n can_append button duration_ms session_id l =
    send_state_json n can_append (button_up_json button duration_ms session_id) l

unfoldable pub send_button_click : Answers → Bool → Text → ℕ → ℕ → Link → Option Bytes × ℕ
send_button_click n can_append button duration_ms session_id l =
    send_state_json n can_append (button_click_json button duration_ms session_id) l
