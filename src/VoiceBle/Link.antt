-- ===== src/VoiceBle/Link.antt =====
-- The connection in voice_ble.c: GAP events, advertising, the interval of the connection, the
-- acknowledged window of audio frames, and the sending of audio. `Answers` is what NimBLE returns.
pub mod Laws
pub mod Window
use voicestick.Prelude.{
  ℕ, ◌-◌, ◌==◌, ltb, leb, Bool, true, false, not, ◌&&◌, ◌||◌, List, [], ◌∷◌, Option, none, some,
  bit_and, length, take, if◌then◌else◌,
}
use voicestick.Prelude.Texts.{Bytes, Text}
use voicestick.ByteUtils.{byte_at, subspan, read_le16, read_le32}
use voicestick.AudioTransport.{
  Packet, Result, encode, ok, buffer_too_small, packet_too_large, att_payload_capacity,
}
use voicestick.VoiceBle.Ota.{
  OtaState, cleared, err_no_mem, err_invalid_arg, err_invalid_state, err_invalid_size, esp_ok,
  AttResult, unlikely, success,
}

pub data IntervalTarget : Type 0 where
  no_target fast slow : IntervalTarget

pub data LinkEffect : Type 0 where
  exchange_mtu : ℕ → LinkEffect
  adv_start adv_retry adv_stop : LinkEffect
  connection_callback : Bool → LinkEffect
  control_callback : Bytes → LinkEffect
  ota_abort : ℕ → LinkEffect
  ota_aborted : LinkEffect
  send_device_info : LinkEffect
  update_params : (handle itvl_min itvl_max latency supervision_timeout : ℕ) → LinkEffect
  notify_audio : ℕ → Bytes → LinkEffect

-- The static variables that concern the connection. `conn_handle` is `none` where the code has
-- `BLE_HS_CONN_HANDLE_NONE`.
pub record Link : Type 0 where
  pub connected : Bool
  pub audio_subscribed : Bool
  pub state_subscribed : Bool
  pub conn_handle : Option ℕ
  pub audio_attr_handle : ℕ
  pub state_attr_handle : ℕ
  pub att_mtu : ℕ  -- uint16
  pub audio_transport_version : ℕ
  pub audio_session_id : ℕ  -- uint32
  pub audio_acked_seq : ℕ  -- uint32
  pub itvl_target : IntervalTarget
  pub itvl_update_pending : Bool
  pub ota : OtaState
  -- Newest first.
  pub log : List LinkEffect

pub record Answers : Type 0 where
  pub adv_active : Bool
  pub adv_fields_rc : ℕ
  pub adv_rsp_fields_rc : ℕ
  pub adv_start_rc : ℕ
  pub update_params_rc : ℕ
  pub has_mbuf : Bool
  pub notify_rc : ℕ

-- `BLE_HS_EALREADY` and `BLE_HS_ENOMEM` of NimBLE, and `ESP_FAIL` as the bits of -1
abbrev pub hs_already : ℕ
hs_already = 2

abbrev pub hs_no_mem : ℕ
hs_no_mem = 6

abbrev pub esp_fail : ℕ
esp_fail = 0xffffffff

abbrev pub default_mtu : ℕ
default_mtu = 23

abbrev pub tell : LinkEffect → Link → Link
tell e l = record l { log = e ∷ l.log }

abbrev pub init : ℕ → ℕ → Link
init audio_attr_handle state_attr_handle = record {
  connected = false;
  audio_subscribed = false;
  state_subscribed = false;
  conn_handle = none;
  audio_attr_handle = audio_attr_handle;
  state_attr_handle = state_attr_handle;
  att_mtu = default_mtu;
  audio_transport_version = 1;
  audio_session_id = 0;
  audio_acked_seq = 0;
  itvl_target = no_target;
  itvl_update_pending = false;
  ota = cleared;
  log = [];
}

unfoldable pub is_ready : Link → Bool
is_ready l = l.connected && l.audio_subscribed && l.state_subscribed

unfoldable pub start_advertising : Answers → Link → Link
start_advertising n l =
    if l.connected || n.adv_active
    then l
    else if not (n.adv_fields_rc == 0) || not (n.adv_rsp_fields_rc == 0)
    then l
    else if not (n.adv_start_rc == 0)
    then tell adv_retry l
    else tell adv_start l

unfoldable pub stop_advertising : Answers → Link → Link
stop_advertising n l = if n.adv_active then tell adv_stop l else l

unfoldable pub adv_retry_callout_cb : Answers → Link → Link
adv_retry_callout_cb n l = if not l.connected && not n.adv_active then start_advertising n l else l

-- The answer to `ble_gap_update_params`: the state, and the result of the call.
unfoldable pub params_answered : Answers → Link → Link × ℕ
params_answered n l =
    if n.update_params_rc == hs_already
    then (record l { itvl_update_pending = true }, esp_ok)
    else if not (n.update_params_rc == 0)
    then (l, esp_fail)
    else (record l { itvl_update_pending = false }, esp_ok)

unfoldable pub request_fast_interval : Answers → Link → Link × ℕ
request_fast_interval n l = elim l.conn_handle [
  | none ↦ (l, err_invalid_state)
  | some handle ↦
      if not l.connected
      then (l, err_invalid_state)
      else params_answered n
          (tell (update_params handle 12 24 0 200) (record l { itvl_target = fast }))
]

unfoldable pub request_slow_interval : Answers → Link → Link × ℕ
request_slow_interval n l = elim l.conn_handle [
  | none ↦ (l, err_invalid_state)
  | some handle ↦
      if not l.connected
      then (l, err_invalid_state)
      else params_answered n
          (tell (update_params handle 40 160 4 500) (record l { itvl_target = slow }))
]

-- What a new connection and the loss of one both clear.
unfoldable pub reset_audio : Link → Link
reset_audio l = record l {
  audio_subscribed = false;
  state_subscribed = false;
  att_mtu = default_mtu;
  audio_transport_version = 1;
  audio_session_id = 0;
  audio_acked_seq = 0;
}

unfoldable pub abort_update : Link → Link
abort_update l =
    if l.ota.active
    then tell ota_aborted (record (tell (ota_abort l.ota.handle) l) { ota = cleared })
    else l

unfoldable pub deferred_interval : Answers → Link → Link
deferred_interval n l = elim l.itvl_target [
  | no_target ↦ l
  | fast ↦ (request_fast_interval n l).0
  | slow ↦ (request_slow_interval n l).0
]

-- `struct ble_gap_event`, with what the handler reads of it.
pub data GapEvent : Type 0 where
  connect : (status handle : ℕ) → GapEvent
  disconnect : GapEvent
  subscribe : (handle attr_handle : ℕ) → Bool → GapEvent
  conn_update : GapEvent
  mtu : ℕ → GapEvent

unfoldable pub is_handle : Option ℕ → ℕ → Bool
is_handle none h = false
is_handle (some c) h = c == h

unfoldable pub subscribed : ℕ → Bool → Link → Link
subscribed attr_handle cur_notify l =
    if attr_handle == l.audio_attr_handle
    then record l { audio_subscribed = cur_notify }
    else if attr_handle == l.state_attr_handle
    then (let l1 = record l { state_subscribed = cur_notify } in
        if cur_notify then tell send_device_info l1 else l1)
    else l

unfoldable pub gap_event_cb : Answers → GapEvent → Link → Link
gap_event_cb n (connect status handle) l =
    if status == 0
    then (let l1 = reset_audio (record l { connected = true; conn_handle = some handle }) in
        tell (connection_callback true) (tell (exchange_mtu handle) (stop_advertising n l1)))
    else tell (connection_callback false) (start_advertising n l)
gap_event_cb n disconnect l =
    let l1 = reset_audio (record (abort_update l) { connected = false; conn_handle = none }) in
    let l2 = record l1 { itvl_target = no_target; itvl_update_pending = false } in
    tell (connection_callback false) (start_advertising n l2)
gap_event_cb n (subscribe handle attr_handle cur_notify) l =
    if not l.connected || not (is_handle l.conn_handle handle)
    then subscribed attr_handle cur_notify
        (record l { connected = true; conn_handle = some handle })
    else subscribed attr_handle cur_notify l
gap_event_cb n conn_update l =
    if l.itvl_update_pending
    then deferred_interval n (record l { itvl_update_pending = false })
    else l
gap_event_cb n (mtu value) l = record l { att_mtu = value }

-- A C string ends before its first zero byte.
unfoldable pub c_string : Bytes → Bytes
c_string [] = []
c_string (byte ∷ bytes) = let rest = c_string bytes in if byte == 0 then [] else byte ∷ rest

-- A write to the control characteristic; `is_write` is the operation that NimBLE names, and
-- `is_copied` whether `ble_hs_mbuf_to_flat` succeeds.
unfoldable pub control_access_cb : (is_write is_copied : Bool) → Bytes → Link → Link × AttResult
control_access_cb is_write is_copied raw l =
    if not is_write || not is_copied
    then (l, unlikely)
    else if length raw == 12
        && byte_at raw 0 == 2
        && byte_at raw 1 == 2
        && read_le16 (subspan raw 2 2) == 12
    then (let session_id = read_le32 (subspan raw 4 4) in
        let next_seq = read_le32 (subspan raw 8 4) in
        if session_id == l.audio_session_id && leb l.audio_acked_seq next_seq
        then (record l { audio_acked_seq = next_seq }, success)
        else (l, success))
    else (tell (control_callback (c_string (take 511 raw))) l, success)

unfoldable pub set_audio_transport_version : ℕ → Link → Link × ℕ
set_audio_transport_version version l =
    if not (version == 1) && not (version == 2) then (l, err_invalid_arg) else (
      record l { audio_transport_version = version; audio_session_id = 0; audio_acked_seq = 0 },
      esp_ok,
    )

unfoldable pub begin_audio_session : ℕ → Link → Link
begin_audio_session session_id l = record l { audio_session_id = session_id; audio_acked_seq = 0 }

abbrev pub err_timeout : ℕ
err_timeout = 0x107

-- One round of the wait: the connection as it is then, and the ticks since the wait began. Where
-- the rounds end the wait goes on.
unfoldable pub window_rounds :
    (session_id next_seq max_inflight_frames timeout : ℕ) → List (Link × ℕ) → Option ℕ
window_rounds session_id next_seq max_inflight_frames timeout [] = none
window_rounds session_id next_seq max_inflight_frames timeout ((l, elapsed) ∷ rounds) =
    let rest = window_rounds session_id next_seq max_inflight_frames timeout rounds in
    if not (is_ready l)
    then some err_invalid_state
    else if not (session_id == l.audio_session_id)
    then some err_invalid_state
    else if leb next_seq l.audio_acked_seq || leb (next_seq - l.audio_acked_seq) max_inflight_frames
    then some esp_ok
    else if leb timeout elapsed
    then some err_timeout
    else rest

-- `now` is the connection at the call.
unfoldable pub wait_for_audio_window :
    (now : Link) (session_id next_seq max_inflight_frames timeout : ℕ) → List (Link × ℕ) → Option ℕ
wait_for_audio_window now session_id next_seq max_inflight_frames timeout rounds =
    if ltb now.audio_transport_version 2
    then some esp_ok
    else window_rounds session_id next_seq max_inflight_frames timeout rounds

-- The notification of an encoded frame: the state, and the result of the call.
unfoldable pub notified : Answers → ℕ → Result Bytes → Link → Link × ℕ
notified n handle (ok frame) l =
    if not n.has_mbuf
    then (l, err_no_mem)
    else if n.notify_rc == 0
    then (tell (notify_audio handle frame) l, esp_ok)
    else (l, if n.notify_rc == hs_no_mem then err_no_mem else esp_fail)
notified n handle buffer_too_small l = (l, err_invalid_size)
notified n handle packet_too_large l = (l, err_invalid_size)
notified n handle r l = (l, err_invalid_arg)

-- `CONFIG_BT_NIMBLE_ATT_PREFERRED_MTU`
abbrev pub preferred_mtu : ℕ
preferred_mtu = 247

unfoldable pub send_packets_to :
    Answers
    → Option ℕ
    → (session_id first_seq flags : ℕ) → Option (List Packet)
    → (packet_count : ℕ) → Link
    → Link × ℕ
send_packets_to n none session_id first_seq flags packets packet_count l = (l, err_invalid_state)
send_packets_to n (some handle) session_id first_seq flags packets packet_count l =
    if not (is_ready l)
    then (l, err_invalid_state)
    else if ltb preferred_mtu (att_payload_capacity l.att_mtu)
    then (l, err_invalid_size)
    else notified n handle
        (encode l.audio_transport_version session_id first_seq flags packets packet_count true
          (att_payload_capacity l.att_mtu) true)
        l

unfoldable pub send_audio_packets :
    Answers
    → (session_id first_seq flags : ℕ) → Option (List Packet)
    → (packet_count : ℕ) → Link
    → Link × ℕ
send_audio_packets n session_id first_seq flags packets packet_count l =
    send_packets_to n l.conn_handle session_id first_seq flags packets packet_count l

-- An end without audio is an empty bundle in version 2.
unfoldable pub send_audio :
    Answers → (session_id seq flags : ℕ) → Option Bytes → (len : ℕ) → Link → Link × ℕ
send_audio n session_id seq flags opus_payload len l =
    if ltb 65535 len
    then (l, err_invalid_size)
    else if l.audio_transport_version == 2 && len == 0 && not (bit_and flags 0x02 == 0)
    then send_audio_packets n session_id seq flags none 0 l
    else send_audio_packets n session_id seq 0
        (some (record { seq = seq; flags = flags; payload = opus_payload; len = len } ∷ [])) 1 l
