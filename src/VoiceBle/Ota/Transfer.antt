-- ===== src/VoiceBle/Ota/Transfer.antt =====
-- What the stick makes of the three messages of an update that the desktop writes.
use voicestick.ByteUtils.{append_le32}
use voicestick.Prelude.{
  ℕ, ◌+◌, ◌≤◌, ◌<◌, ◌^◌, ◌≡◌, true, false, [], ◌∷◌, ◌++◌, Option, some, arith, length,
  length-append,
}
use voicestick.Prelude.Texts.{Bytes}
use voicestick.ByteUtils.RoundTrip.{read_le32_bytes, read_le16_bytes}
use voicestick.BleProtocol.{ota_begin_payload, ota_data_payload, ota_end_payload}
use voicestick.VoiceBle.Ota.{
  Platform, Device, Partition, success, ota_begin, begin_in, started, abort_active, ota_write_data,
  ota_finish, dispatch, ota_access_cb, ota_clear_state,
}
use voicestick.VoiceBle.Ota.Invariant.{
  flashed, restarts, send_json-IsQuiet, report_progress-IsReport, callback-IsQuiet,
}

-- A platform that fails at nothing, for one partition.
pub record IsWilling (p : Platform) (q : Partition) : Type 0 where
  pub partition : p.next_update_partition ≡ some q
  pub begins : (size : ℕ) → (p.ota_begin_answer q size).0 ≡ 0
  pub writes : (handle : ℕ) (bytes : Bytes) → p.ota_write_answer handle bytes ≡ 0
  pub ends : (handle : ℕ) → p.ota_end_answer handle ≡ 0
  pub boots : (o : Option Partition) → p.set_boot_answer o ≡ 0
  pub malloc : p.malloc_answer ≡ true
  pub flat : p.mbuf_to_flat_answer ≡ 0

-- The stick is in the transfer, and its flash holds these bytes.
pub record Holds (transfer_id image_size : ℕ) (bytes : Bytes) (d : Device) : Type 0 where
  pub active : d.ota.active ≡ true
  pub transfer : d.ota.transfer_id ≡ transfer_id
  pub size : d.ota.image_size ≡ image_size
  pub written : d.ota.written ≡ length bytes
  pub flash : flashed d.log ≡ bytes

module _ (p : Platform) (q : Partition) (w : IsWilling p q) where
  pub dispatch_message :
      (kind a b c e f g h i : ℕ) (chunk : Bytes) (d : Device)
      → ota_access_cb p true (1 ∷ kind ∷ 12 ∷ 0 ∷ a ∷ b ∷ c ∷ e ∷ f ∷ g ∷ h ∷ i ∷ chunk) d
        ≡ dispatch p kind 12 (1 ∷ kind ∷ 12 ∷ 0 ∷ a ∷ b ∷ c ∷ e ∷ f ∷ g ∷ h ∷ i ∷ chunk) d
  unfolding ota_access_cb
  dispatch_message kind a b c e f g h i chunk d =
      ground (arith, w.malloc, w.flat, read_le16_bytes 12 [])

  begin_in-Holds :
      (transfer_id image_size : ℕ) (d : Device)
      → 0 < image_size
      → image_size ≤ q.size
      → Holds transfer_id image_size [] (begin_in p transfer_id image_size q d).0
  unfolding begin_in started
  begin_in-Holds transfer_id image_size d z s =
      grind (arith, w.begins image_size, send_json-IsQuiet, callback-IsQuiet)

  ota_begin-Holds :
      (transfer_id image_size : ℕ) (d : Device)
      → 0 < image_size
      → image_size ≤ q.size
      → Holds transfer_id image_size [] (ota_begin p transfer_id image_size d).0
  unfolding ota_begin
  ota_begin-Holds transfer_id image_size d z s =
      rw (w.partition, ota_begin) (begin_in-Holds transfer_id image_size (abort_active d) z s)

  ota_write_data-Holds :
      (transfer_id image_size : ℕ) (bytes payload : Bytes) (d : Device)
      → Holds transfer_id image_size bytes d
      → 0 < length payload
      → length bytes + length payload ≤ image_size
      → image_size < 2 ^ 31
      → Holds transfer_id image_size
          (bytes ++ payload)
          (ota_write_data p transfer_id (length bytes) payload d).0
  unfolding ota_write_data
  ota_write_data-Holds transfer_id image_size bytes payload d v z s b =
      grind (
        arith,
        w.writes d.ota.handle payload,
        report_progress-IsReport,
        length-append bytes payload,
      )

  ota_finish-Holds :
      (transfer_id : ℕ) (bytes : Bytes) (d : Device)
      → Holds transfer_id (length bytes) bytes d
      → (restarts (ota_finish p transfer_id (length bytes) d).0.log ≡ restarts d.log + 1)
        × (flashed (ota_finish p transfer_id (length bytes) d).0.log ≡ bytes)
        × ((ota_finish p transfer_id (length bytes) d).1 ≡ success)
        × ((ota_finish p transfer_id (length bytes) d).0.ota.active ≡ false)
  unfolding ota_finish ota_clear_state
  ota_finish-Holds transfer_id bytes d v =
      grind
        (arith, w.ends d.ota.handle, w.boots d.ota.partition, send_json-IsQuiet, callback-IsQuiet)

  -- A begin message starts a transfer with empty flash, whatever went on before.
  pub begin_message :
      (transfer_id image_size : ℕ) (d : Device)
      → transfer_id < 2 ^ 32
      → 0 < image_size
      → image_size ≤ q.size
      → image_size < 2 ^ 32
      → Holds transfer_id image_size []
          (ota_access_cb p true (ota_begin_payload image_size transfer_id) d).0
  unfolding ota_begin_payload append_le32 dispatch
  begin_message transfer_id image_size d t z s b = rw (dispatch_message 0x20 _ _ _ _ _ _ _ _ [] d) (
      rw (read_le32_bytes transfer_id [] t, read_le32_bytes image_size [] b)
        (ota_begin-Holds transfer_id image_size d z s))

  -- Where the platform fails at nothing and the stick is in a transfer of less than 2 GiB, a data
  -- message of at least one byte at the offset that is reached, and within the image, adds its
  -- bytes to the flash and keeps the transfer.
  pub data_message :
      (transfer_id image_size : ℕ) (bytes chunk : Bytes) (d : Device)
      → Holds transfer_id image_size bytes d
      → transfer_id < 2 ^ 32
      → 0 < length chunk
      → length bytes + length chunk ≤ image_size
      → image_size < 2 ^ 31
      → Holds transfer_id image_size
          (bytes ++ chunk)
          (ota_access_cb p true (ota_data_payload transfer_id (length bytes) chunk) d).0
  unfolding ota_data_payload append_le32 dispatch
  data_message transfer_id image_size bytes chunk d v t z s b =
      rw (dispatch_message 0x21 _ _ _ _ _ _ _ _ chunk d) (
        rw (read_le32_bytes transfer_id [] t, read_le32_bytes (length bytes) [] (omega arith))
          (ota_write_data-Holds transfer_id image_size bytes chunk d v z s b))

  -- An end message restarts the stick on the whole image.
  pub end_message :
      (transfer_id : ℕ) (bytes : Bytes) (d : Device)
      → Holds transfer_id (length bytes) bytes d
      → transfer_id < 2 ^ 32
      → length bytes < 2 ^ 32
      → let r = ota_access_cb p true (ota_end_payload transfer_id (length bytes)) d in
        (restarts r.0.log ≡ restarts d.log + 1)
        × (flashed r.0.log ≡ bytes)
        × (r.1 ≡ success)
        × (r.0.ota.active ≡ false)
  unfolding ota_end_payload append_le32 dispatch
  end_message transfer_id bytes d v t b = rw (dispatch_message 0x22 _ _ _ _ _ _ _ _ [] d) (
      rw (read_le32_bytes transfer_id [] t, read_le32_bytes (length bytes) [] b)
        (ota_finish-Holds transfer_id bytes d v))
