-- ===== src/Examples/Desktop.antt =====
-- The desktop's update loop, Ogg pages and messages, at concrete values.
use voicestick.VoiceBle.Ota.Booting.{begin-IsReporting}
use voicestick.VoiceBle.Ota.Reports.{boots, IsHeard, HasTold}
use voicestick.Ogg.Page.{clear_crc, seal_page_verifies}
use voicestick.BleProtocol.Laws.{device_id_from_name-normalize_device_id, normalize_device_id_idem}
use voicestick.BleCentral.Update.{rounds, update_installs, fresh, begin-InStep}
use voicestick.BleProtocol.{
  device_id_from_name, normalize_device_id, ota_begin_payload, trim, ota_end_payload, skip_spaces,
  is_space, uppercase, to_upper, strip_prefix, is_hex4, is_hex, ota_data_payload,
}
use voicestick.ByteUtils.{read_le32, subspan, u32, append_le32, read_le16, byte_at}
use voicestick.Ogg.{seal_page, raw_page, checksum}
use voicestick.BleCentral.Progress.{rounds_complete, update_finishes, fresh-IsGoing, AreServed}
use voicestick.VoiceBle.Ota.Invariant.{flashed}
use voicestick.VoiceBle.Ota.Transfer.{IsWilling}
use voicestick.Prelude.{
  ◌≡◌, ◌∷◌, List, [], some, true, false, refl, length, take, arith, ℕ, ◌≤◌, ◌≢◌, ap, inl, subst,
}
use voicestick.Prelude.Texts.{Bytes, text}
use voicestick.BleCentral.{Round, Upload, upload_round, send_chunk, chunk_size}
use voicestick.VoiceBle.Ota.{
  ota_access_cb, success, Device, AttResult, dispatch, ota_begin, begin_in, started, abort_active,
  callback, ota_send_state_json, state_frame, ready_json, Effect, progress_json, OtaEvent,
  ota_write_data, report_progress,
}
use voicestick.Examples.Stick.{stick_platform, stick, app_partition}

abbrev image : Bytes
image = 8 ∷ 9 ∷ 5 ∷ 1 ∷ 2 ∷ 3 ∷ 4 ∷ 5 ∷ 6 ∷ 7 ∷ 8 ∷ 9 ∷ 5 ∷ 1 ∷ 2 ∷ 3 ∷ 4 ∷ 5 ∷ 6 ∷ 7 ∷ 11 ∷ 12 ∷ []

abbrev calm : Round
calm = record { cancel_requested = false; device_confirmed_written = 0; write_succeeds = true }

abbrev two_rounds : List Round
two_rounds = calm ∷ calm ∷ []

abbrev upload : Upload
upload = fresh 7 image 20 true

abbrev after_begin : Device
after_begin = (ota_access_cb stick_platform true (ota_begin_payload 22 7) stick).0

abbrev after_rounds : Upload × Device
after_rounds = rounds stick_platform two_rounds upload after_begin

abbrev after_end : Device × AttResult
after_end = ota_access_cb stick_platform true (ota_end_payload 7 22) after_rounds.1

willing : IsWilling stick_platform app_partition
willing = ground arith

update_installs_example :
    (flashed after_rounds.1.log ≡ take after_rounds.0.offset image)
    × (boots after_rounds.1.log ≡ boots stick.log)
    × (after_rounds.0.offset ≡ 22
        → (boots after_end.0.log ≡ some app_partition ∷ boots stick.log)
          × (flashed after_end.0.log ≡ image)
          × (after_end.1 ≡ success)
          × (after_end.0.ota.active ≡ false))
update_installs_example =
    update_installs stick_platform app_partition 7 20 image true two_rounds stick willing
      (omega arith) (omega arith) (omega arith) (omega arith)

heard : IsHeard stick_platform stick
heard = ground arith

abbrev log_of_begin : List Effect
log_of_begin =
    Effect.ota_callback OtaEvent.begin 0 22
    ∷ Effect.notify (state_frame (ready_json 7 22 app_partition.label))
    ∷ Effect.request_fast_interval
    ∷ Effect.esp_ota_begin app_partition 22
    ∷ []

begin_log : after_begin.log ≡ log_of_begin
unfolding ota_access_cb dispatch ota_begin begin_in ota_begin_payload append_le32 read_le32
    read_le16 started abort_active callback ota_send_state_json
begin_log = refl

abbrev after_one : Upload × Device
after_one = rounds stick_platform (calm ∷ []) upload after_begin

one_log : after_one.1.log ≡ Effect.esp_ota_write 1 (take 20 image) 0 ∷ log_of_begin
unfolding ota_access_cb dispatch ota_begin begin_in ota_begin_payload append_le32 read_le32
    read_le16 started abort_active callback ota_send_state_json rounds upload_round send_chunk
    chunk_size ota_data_payload ota_write_data report_progress
one_log = refl

-- The tenth character of the text in a notification, which tells a report of the readiness from one
-- of the progress.
abbrev kind_byte : Effect → ℕ
kind_byte (Effect.notify bytes) = byte_at bytes 14
kind_byte e = 0

not_progress :
    (k : ℕ)
    → Effect.notify (state_frame (ready_json 7 22 app_partition.label))
      ≢ Effect.notify (state_frame (progress_json 7 k 22))
unfolding state_frame ready_json progress_json text
not_progress k e = let differ : 114 ≡ 112 = ap kind_byte e in absurd (omega (arith, differ))

untold : (k : ℕ) → HasTold 7 22 k log_of_begin → k ≤ 0
unfolding HasTold
untold k h = ground (arith, not_progress k)

untold_one :
    (k : ℕ) → HasTold 7 22 k (Effect.esp_ota_write 1 (take 20 image) 0 ∷ log_of_begin) → k ≤ 0
unfolding HasTold
untold_one k h = ground (arith, not_progress k)

served : AreServed stick_platform 7 22 2 two_rounds upload after_begin
unfolding rounds
served = (
  ground arith,
  inl (
    (λ k b h. untold k (subst (HasTold 7 22 k) begin_log h)),
    (
      1,
      refl,
      (
        ground arith,
        inl ((λ k b h. untold_one k (subst (HasTold 7 22 k) one_log h)), (0, refl, refl)),
      ),
    ),
  ),
)

rounds_complete_example : after_rounds.0.offset ≡ 22
rounds_complete_example =
    rounds_complete stick_platform app_partition willing (boots stick.log) 7 22 2 two_rounds upload
      after_begin (fresh-IsGoing 7 20 image true)
      (begin-InStep stick_platform app_partition 7 20 image true stick willing (omega arith)
        (omega arith) (omega arith) (omega arith))
      (begin-IsReporting stick_platform app_partition willing 7 22 stick (omega arith) (omega arith)
        (omega arith) (omega arith) heard)
      served (omega arith)

update_finishes_example :
    (boots after_end.0.log ≡ some app_partition ∷ boots stick.log)
    × (flashed after_end.0.log ≡ image)
    × (after_end.1 ≡ success)
    × (after_end.0.ota.active ≡ false)
update_finishes_example =
    update_finishes stick_platform app_partition 7 20 2 image true two_rounds stick willing
      (omega arith) (omega arith) (omega arith) (omega arith) heard served (omega arith)

abbrev page : Bytes
page = seal_page (raw_page 2880 0 2 (3 ∷ []) (1 ∷ 2 ∷ 3 ∷ []))

seal_page_verifies_example : read_le32 (subspan page 22 4) ≡ u32 (checksum (clear_crc page))
seal_page_verifies_example = seal_page_verifies 2880 0 2 (3 ∷ []) (1 ∷ 2 ∷ 3 ∷ [])

named : device_id_from_name (text "VS-4F2A") ≡ some (text "4F2A")
unfolding device_id_from_name text trim skip_spaces is_space uppercase to_upper strip_prefix is_hex4
    is_hex
named = refl

device_id_from_name-normalize_device_id_example :
    (normalize_device_id (text "4F2A") ≡ text "4F2A") × (length (text "4F2A") ≡ 4)
device_id_from_name-normalize_device_id_example =
    device_id_from_name-normalize_device_id (text "VS-4F2A") (text "4F2A") named

normalize_device_id_idem_example :
    normalize_device_id (normalize_device_id (text " vs-4f2a"))
    ≡ normalize_device_id (text " vs-4f2a")
normalize_device_id_idem_example = normalize_device_id_idem (text " vs-4f2a")
