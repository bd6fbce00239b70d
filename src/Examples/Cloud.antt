-- ===== src/Examples/Cloud.antt =====
-- Firmware, settings and the recognizer's protocol, at concrete values.
use voicestick.BleProtocol.{trim, skip_spaces, is_space, is_digit, decimal_value}
use voicestick.Prelude.{
  ◌≡◌, ◌<◌, ◌^◌, inl, true, false, [], ◌∷◌, none, some, refl, arith, length, if◌then◌else◌, List,
}
use voicestick.Prelude.Texts.{Bytes, Text, text, text_eq}
use voicestick.Firmware.{
  Value, FirmwareManifest, is_older_than, parse_version, fetch_manifest_sync,
  parse_firmware_manifest, with_fields, manifest_of, string_value, u32_value, download_ota_sync,
  parsed_less, version_numbers, split_first, put_first, part_value, are_digits, version_less,
  numbers_less, with_suffix, suffix_less,
}
use voicestick.Firmware.Order.{is_older_than_trans}
use voicestick.Firmware.Download.{download_ota_sync-checked}
use voicestick.AppConfig.{member, parse_device_id_list, remove_paired_device}
use voicestick.AppConfig.Laws.{AreDistinct, parse_device_id_list-AreDistinct}
use voicestick.AppConfig.Pairing.{
  PairingMove, pairing_moves, no_pairings, IsPaired, pairing_moves-IsPaired,
}
use voicestick.AsrProtocol.{
  AsrEvent, Result, parse_event_response, event_number, extract_new_definite_segments,
}
use voicestick.AsrProtocol.Frames.{parse_event_response-server_frame, server_frame}
use voicestick.AsrProtocol.Segments.{AreFresh, extract_new_definite_segments-once}

is_older_than_trans_example :
    (is_older_than (text "1.2-rc1") (text "1.10") ≡ true)
    × (is_older_than (text "1.2.0") (text "1.2-rc1") ≡ false)
unfolding is_older_than parse_version trim text parsed_less skip_spaces is_space version_numbers
    split_first put_first part_value are_digits is_digit decimal_value version_less numbers_less
    with_suffix suffix_less
is_older_than_trans_example =
    is_older_than_trans (text "1.2-rc1") (text "1.2.0") (text "1.10") refl refl

parse_device_id_list-AreDistinct_example :
    AreDistinct (parse_device_id_list (text "VS-12ab, 12AB,34cd"))
parse_device_id_list-AreDistinct_example =
    parse_device_id_list-AreDistinct (text "VS-12ab, 12AB,34cd")

abbrev paired : List PairingMove
paired =
    PairingMove.save_info (text "12AB") (text "stick_s3") (text "1.0")
    ∷ PairingMove.save_info (text "12AB") [] (text "1.1")
    ∷ PairingMove.remove (text "34CD")
    ∷ []

pairing_moves-IsPaired_example :
    let p = pairing_moves paired no_pairings in
    IsPaired p
    × (member (text "12AB") (remove_paired_device (text "12AB") p).paired_device_ids ≡ false)
pairing_moves-IsPaired_example = pairing_moves-IsPaired paired (text "12AB")

abbrev fields : Text → Value
fields key = if text_eq key (text "ota_size") then Value.number 3 false else Value.string (text "x")

abbrev image : Bytes
image = 1 ∷ 2 ∷ 3 ∷ []

abbrev manifest : FirmwareManifest
manifest = record {
  hardware = text "x";
  version = text "x";
  ota_url = text "x";
  ota_sha256 = text "x";
  ota_size = 3;
  merged_url = text "x";
  merged_sha256 = text "x";
  merged_size = 0;
}

download_ota_sync-checked_example :
    (length image ≡ 3) × (text "x" ≡ text "x") × (0 < length image) × (length image < 2 ^ 32)
unfolding fetch_manifest_sync parse_firmware_manifest with_fields manifest_of string_value u32_value
    download_ota_sync text_eq text
download_ota_sync-checked_example =
    download_ota_sync-checked (λ json. some fields) (λ bytes. text "x") (λ url. (image, []))
      (text "u") manifest image refl refl

parse_event_response-server_frame_example :
    parse_event_response
      (server_frame 0x09 1 (event_number AsrEvent.session_started) (text "s1") (text "{}"))
    ≡ some (record {
      event_id = event_number AsrEvent.session_started;
      event = some AsrEvent.session_started;
      session_id = text "s1";
      payload_text = text "{}";
    })
unfolding text
parse_event_response-server_frame_example =
    parse_event_response-server_frame 0x09 1 AsrEvent.session_started (text "s1") (text "{}")
      (inl refl) (omega arith) (omega arith)

abbrev heard : Result
heard = Result.object (
    some (
      some (record {
        label = some (text "hello");
        definite = true;
        start_time = some 0;
        end_time = some 900;
      })
      ∷ none
      ∷ []))

extract_new_definite_segments-once_example :
    let (segments, known) = extract_new_definite_segments (λ json. some heard) (text "{}") [] in
    AreFresh segments []
    × (extract_new_definite_segments (λ json. some heard) (text "{}") known ≡ ([], known))
extract_new_definite_segments-once_example =
    extract_new_definite_segments-once (λ json. some heard) (text "{}") []
