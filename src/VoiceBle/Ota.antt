-- ===== src/VoiceBle/Ota.antt =====
-- The firmware update of voice_ble.c: `ota_access_cb` and what it calls. ESP-IDF and NimBLE are a
-- `Platform`, whose answers a call takes as an argument; the calls made are kept in `log`, newest
-- first.
mod Messages
pub mod Invariant
pub mod Reports
pub mod Booting
pub mod Transfer
unfoldable pub use Messages.{
  decimal_digits, decimal, int_text, error_json, ready_json, progress_json, done_json, aborted_json,
  state_frame,
}
use voicestick.Prelude.{
  ℕ, zero, suc, ◌+◌, ◌-◌, ◌%◌, ◌^◌, Bool, true, false, not, ◌&&◌, ◌||◌, ◌==◌, ltb, leb, List, [],
  ◌∷◌, Option, none, some, if◌then◌else◌, length, drop,
}
use voicestick.Prelude.Texts.{Bytes, Text, text}
use voicestick.ByteUtils.{byte_at, subspan, u32}
use voicestick.ByteUtils.{read_le16 as read_le16, read_le32 as read_le32}

abbrev pub progress_notify_bytes : ℕ
progress_notify_bytes = 32768

-- `esp_err_t` is a 32-bit int, here as its bit pattern; `ESP_OK` is 0.
abbrev pub esp_ok : ℕ
esp_ok = 0

abbrev pub err_no_mem : ℕ
err_no_mem = 0x101

abbrev pub err_invalid_arg : ℕ
err_invalid_arg = 0x102

abbrev pub err_invalid_state : ℕ
err_invalid_state = 0x103

abbrev pub err_invalid_size : ℕ
err_invalid_size = 0x104

abbrev pub err_not_found : ℕ
err_not_found = 0x105

-- `esp_partition_t`
pub record Partition : Type 0 where
  pub address : ℕ
  pub size : ℕ
  pub label : Text

-- `voice_ble_ota_state_t`
pub record OtaState : Type 0 where
  pub active : Bool
  pub transfer_id : ℕ  -- uint32
  pub image_size : ℕ  -- uint32
  pub written : ℕ  -- uint32
  pub next_progress : ℕ  -- uint32
  pub handle : ℕ
  pub partition : Option Partition

pub data OtaEvent : Type 0 where
  begin progress finished failed aborted : OtaEvent

pub data Effect : Type 0 where
  esp_ota_begin : Partition → ℕ → Effect
  -- The handle, the bytes and the answer.
  esp_ota_write : ℕ → Bytes → ℕ → Effect
  esp_ota_end : ℕ → ℕ → Effect
  esp_ota_set_boot_partition : Option Partition → ℕ → Effect
  esp_ota_abort : ℕ → Effect
  notify : Bytes → Effect
  ota_callback : OtaEvent → ℕ → ℕ → Effect
  request_fast_interval request_slow_interval esp_restart : Effect

-- What ESP-IDF and NimBLE answer during one call.
pub record Platform : Type 0 where
  pub next_update_partition : Option Partition
  pub ota_begin_answer : Partition → ℕ → ℕ × ℕ
  pub ota_write_answer : ℕ → Bytes → ℕ
  pub ota_end_answer : ℕ → ℕ
  pub set_boot_answer : Option Partition → ℕ
  pub malloc_answer : Bool
  pub mbuf_to_flat_answer : ℕ
  -- Whether there is an mbuf for a notification, and whether the text could be appended.
  pub notify_mbuf : Bool
  pub notify_append : Bool

pub record Device : Type 0 where
  pub connected : Bool
  pub has_conn_handle : Bool
  pub ota_state_attr_handle : ℕ
  pub has_ota_cb : Bool
  pub ota : OtaState
  pub log : List Effect

pub data AttResult : Type 0 where
  success unlikely invalid_attr_value_len insufficient_res invalid_offset : AttResult

abbrev pub emit : Effect → Device → Device
emit e d = record d { log = e ∷ d.log }

abbrev pub cleared : OtaState
cleared = record {
  active = false;
  transfer_id = 0;
  image_size = 0;
  written = 0;
  next_progress = 0;
  handle = 0;
  partition = none;
}

unfoldable pub ota_clear_state : Device → Device
ota_clear_state d = record d { ota = cleared }

unfoldable pub ota_send_state_json : Platform → Text → Device → Device
ota_send_state_json p json d =
    if not d.connected || not d.has_conn_handle || d.ota_state_attr_handle == 0
    then d
    else if not p.notify_mbuf || not p.notify_append
    then d
    else emit (notify (state_frame json)) d

unfoldable pub callback : OtaEvent → ℕ → ℕ → Device → Device
callback event written size d = if d.has_ota_cb then emit (ota_callback event written size) d else d

unfoldable pub ota_send_error : Platform → Text → ℕ → Device → Device
ota_send_error p code err d =
    let d1 = ota_send_state_json p (error_json code err) d in
    emit request_slow_interval (callback failed d1.ota.written d1.ota.image_size d1)

unfoldable pub abort_active : Device → Device
abort_active d = if d.ota.active then ota_clear_state (emit (esp_ota_abort d.ota.handle) d) else d

unfoldable pub started : ℕ → ℕ → ℕ → Partition → OtaState
started transfer_id image_size handle partition = record {
  active = true;
  transfer_id = transfer_id;
  image_size = image_size;
  written = 0;
  next_progress = progress_notify_bytes;
  handle = handle;
  partition = some partition;
}

-- `ota_begin` behind the choice of a partition.
unfoldable pub begin_in : Platform → ℕ → ℕ → Partition → Device → Device × AttResult
begin_in p transfer_id image_size partition d =
    if image_size == 0 || ltb partition.size image_size
    then (ota_send_error p (text "bad_size") err_invalid_size d, invalid_attr_value_len)
    else let (err, handle) = p.ota_begin_answer partition image_size in
      let d1 = emit (esp_ota_begin partition image_size) d in
      if not (err == esp_ok)
      then (ota_send_error p (text "begin_failed") err d1, unlikely)
      else let d2 = record d1 { ota = started transfer_id image_size handle partition } in
        let d3 = emit request_fast_interval d2 in
        let d4 = ota_send_state_json p (ready_json transfer_id image_size partition.label) d3 in
        (callback begin 0 image_size d4, success)

unfoldable pub ota_begin : Platform → ℕ → ℕ → Device → Device × AttResult
ota_begin p transfer_id image_size d = elim p.next_update_partition [
  | none ↦ (ota_send_error p (text "no_partition") err_not_found (abort_active d), unlikely)
  | some partition ↦ begin_in p transfer_id image_size partition (abort_active d)
]

-- `while (s_ota.written >= s_ota.next_progress) s_ota.next_progress += OTA_PROGRESS_NOTIFY_BYTES;`
unfoldable pub advance : ℕ → ℕ → ℕ → ℕ
advance zero written next_progress = next_progress
advance (suc fuel) written next_progress = elim (leb next_progress written) [
  | true ↦ advance fuel written (u32 (next_progress + progress_notify_bytes))
  | false ↦ next_progress
]

-- The report behind a write, with the fuel of its loop.
unfoldable pub report_progress : Platform → Device → Device
report_progress p d =
    if leb d.ota.next_progress d.ota.written || d.ota.written == d.ota.image_size
    then (let d1 =
          ota_send_state_json p (progress_json d.ota.transfer_id d.ota.written d.ota.image_size)
            d in
        let d2 = callback progress d1.ota.written d1.ota.image_size d1 in
        let s = d2.ota in
        record d2 {
          ota = record s { next_progress = advance (suc s.written) s.written s.next_progress };
        })
    else d

unfoldable pub ota_write_data : Platform → ℕ → ℕ → Bytes → Device → Device × AttResult
ota_write_data p transfer_id offset payload d =
    let s = d.ota in
    if not s.active || not (transfer_id == s.transfer_id)
    then (ota_send_error p (text "not_active") err_invalid_state d, unlikely)
    else if not (offset == s.written)
        || length payload == 0
        || ltb s.image_size (u32 (s.written + length payload))
    then (ota_send_error p (text "bad_offset") err_invalid_arg d, invalid_offset)
    else let err = p.ota_write_answer s.handle payload in
      let d1 = emit (esp_ota_write s.handle payload err) d in
      if not (err == esp_ok) then (ota_send_error p (text "write_failed") err d1, unlikely) else (
        report_progress p
            (record d1 { ota = record s { written = u32 (s.written + length payload) } }),
        success,
      )

unfoldable pub ota_finish : Platform → ℕ → ℕ → Device → Device × AttResult
ota_finish p transfer_id image_size d =
    let s = d.ota in
    if not s.active || not (transfer_id == s.transfer_id)
    then (ota_send_error p (text "not_active") err_invalid_state d, unlikely)
    else if not (image_size == s.image_size) || not (s.written == s.image_size)
    then (ota_send_error p (text "incomplete") err_invalid_size d, unlikely)
    else let err = p.ota_end_answer s.handle in
      let d1 = emit (esp_ota_end s.handle err) d in
      if not (err == esp_ok)
      then (ota_send_error p (text "end_failed") err (ota_clear_state d1), unlikely)
      else let err2 = p.set_boot_answer s.partition in
        let d2 = emit (esp_ota_set_boot_partition s.partition err2) d1 in
        if not (err2 == esp_ok)
        then (ota_send_error p (text "set_boot_failed") err2 (ota_clear_state d2), unlikely)
        else let d3 = ota_send_state_json p (done_json transfer_id) d2 in
          let d4 = callback finished d3.ota.written d3.ota.image_size d3 in
          (emit esp_restart (ota_clear_state d4), success)

unfoldable pub ota_abort : Platform → ℕ → Device → Device × AttResult
ota_abort p transfer_id d =
    let d1 =
      if d.ota.active && transfer_id == d.ota.transfer_id
      then emit (esp_ota_abort d.ota.handle) d
      else d in
    let d2 = ota_send_state_json p aborted_json (ota_clear_state d1) in
    (emit request_slow_interval (callback aborted 0 0 d2), success)

-- The `switch` on the type of a message.
unfoldable pub dispatch : Platform → (kind header_len : ℕ) → Bytes → Device → Device × AttResult
dispatch p kind header_len buffer d =
    if kind == 0x20
    then if not (header_len == 12)
      then (d, invalid_attr_value_len)
      else ota_begin p (read_le32 (subspan buffer 8 4)) (read_le32 (subspan buffer 4 4)) d
    else if kind == 0x21
    then if not (header_len == 12)
      then (d, invalid_attr_value_len)
      else ota_write_data p (read_le32 (subspan buffer 4 4)) (read_le32 (subspan buffer 8 4))
          (drop header_len buffer) d
    else if kind == 0x22
    then if not (header_len == 12)
      then (d, invalid_attr_value_len)
      else ota_finish p (read_le32 (subspan buffer 4 4)) (read_le32 (subspan buffer 8 4)) d
    else if kind == 0x23
    then if not (header_len == 8)
      then (d, invalid_attr_value_len)
      else ota_abort p (read_le32 (subspan buffer 4 4)) d
    else (d, unlikely)

-- One write to the characteristic; `is_write` is `ctxt->op == BLE_GATT_ACCESS_OP_WRITE_CHR`.
unfoldable pub ota_access_cb : Platform → Bool → Bytes → Device → Device × AttResult
ota_access_cb p is_write buffer d =
    if not is_write
    then (d, unlikely)
    else if ltb (length buffer) 4
    then (d, invalid_attr_value_len)
    else if not p.malloc_answer
    then (ota_send_error p (text "no_mem") err_no_mem d, insufficient_res)
    else if not (p.mbuf_to_flat_answer == 0)
    then (d, unlikely)
    else let header_len = read_le16 (subspan buffer 2 2) in
      if not (byte_at buffer 0 == 1) || ltb (length buffer) header_len
      then (d, unlikely)
      else dispatch p (byte_at buffer 1) header_len buffer d
