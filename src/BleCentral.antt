-- ===== src/BleCentral.antt =====
-- desktop/windows/src/ble_central_win.cc: the sending half of a firmware update. Connections,
-- scanning and WinRT are not modelled.
pub mod Update
pub mod Progress
use voicestick.Prelude.{
  ℕ, ◌+◌, ◌-◌, ◌*◌, min, max, Bool, true, false, not, ◌&&◌, ltb, List, [], ◌∷◌, Option, none, some,
  if◌then◌else◌, length, take, drop,
}
use voicestick.Prelude.Texts.{Bytes}
use voicestick.ByteUtils.{u32}
use voicestick.BleProtocol.{ota_data_payload}

-- How much of the image goes into one data message, from the size of a PDU.
unfoldable pub chunk_size : ℕ → ℕ
chunk_size max_pdu = max 20 (min (if ltb 15 max_pdu then max_pdu - 15 else 20) 244)

abbrev pub max_in_flight : ℕ
max_in_flight = 48 * 1024

pub data Phase : Type 0 where
  sending all_sent cancelled failed : Phase

-- The variables of the loop in `UpdateFirmwareAsync`.
pub record Upload : Type 0 where
  pub transfer_id : ℕ
  pub image : Bytes
  pub chunk : ℕ
  pub write_without_response : Bool
  pub offset : ℕ
  pub phase : Phase

-- What a round of the loop meets: a cancelled session, the bytes that the stick has confirmed, and
-- whether the write succeeds.
pub record Round : Type 0 where
  pub cancel_requested : Bool
  pub device_confirmed_written : ℕ
  pub write_succeeds : Bool

-- The write at the end of a round, and what follows from its status.
unfoldable pub send_chunk : Round → Upload → Upload × Option Bytes
send_chunk r u =
    let end = min (u.offset + u.chunk) (length u.image) in
    let payload =
      ota_data_payload u.transfer_id (u32 u.offset)
        (take (end - u.offset) (drop u.offset u.image)) in
    if r.write_succeeds
    then (record u { offset = end }, some payload)
    else (record u { phase = failed }, none)

-- One round of `while (offset < image.size())`.
unfoldable pub upload_round : Round → Upload → Upload × Option Bytes
upload_round r u = elim u.phase [
  | sending ↦
      if not (ltb u.offset (length u.image))
      then (record u { phase = all_sent }, none)
      else if r.cancel_requested
      then (record u { phase = cancelled }, none)
      else if u.write_without_response && ltb (r.device_confirmed_written + max_in_flight) u.offset
      then (u, none)
      else send_chunk r u
  | _ ↦ (u, none)
]
