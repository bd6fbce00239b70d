-- ===== src/VoiceBle/Ota/Invariant.antt =====
-- What the stick's update state and the flash agree on, whatever is written to the characteristic
-- and whatever the platform answers.
use voicestick.Prelude.{
  ℕ, ◌+◌, ◌≤◌, ◌<◌, ◌≡◌, true, ◌==◌, List, [], ◌∷◌, ◌++◌, arith, length, if◌then◌else◌, false, ◌^◌,
  length-append, some, Option-cases, length-drop_le, Bool, drop, inl, inr,
}
use voicestick.Prelude.Texts.{Bytes, Text, text}
use voicestick.VoiceBle.Ota.{
  Platform, Device, Effect, esp_ota_begin, esp_ota_write, OtaEvent, ota_clear_state,
  ota_send_state_json, callback, ota_send_error, abort_active, report_progress, begin_in,
  ota_write_data, started, Partition, ota_finish, ota_abort, ota_begin, dispatch, ota_access_cb,
  read_le32, subspan, err_no_mem, byte_at, read_le16,
}

-- The bytes that the flash has accepted since the last `esp_ota_begin`.
abbrev pub flashed : List Effect → Bytes
flashed [] = []
flashed (esp_ota_begin partition size ∷ log) = []
flashed (esp_ota_write handle bytes err ∷ log) =
    if err == 0 then flashed log ++ bytes else flashed log
flashed (e ∷ log) = flashed log

-- How often the stick has restarted into a new image.
abbrev pub restarts : List Effect → ℕ
restarts [] = 0
restarts (Effect.esp_restart ∷ log) = restarts log + 1
restarts (e ∷ log) = restarts log

-- While a transfer is active its image is not empty and of a size that no flash passes, and `written` counts what the flash holds.
pub record IsValid (d : Device) : Type 0 where
  pub within : d.ota.active ≡ true → d.ota.written ≤ d.ota.image_size
  pub not_empty : d.ota.active ≡ true → 0 < d.ota.image_size
  pub small : d.ota.active ≡ true → d.ota.image_size < 2 ^ 31
  pub counted : d.ota.active ≡ true → length (flashed d.log) ≡ d.ota.written

-- Only what concerns the flash: equal states, equal contents, as many restarts.
pub record IsQuiet (d e : Device) : Type 0 where
  pub same_ota : e.ota ≡ d.ota
  pub same_flash : flashed e.log ≡ flashed d.log
  pub same_restarts : restarts e.log ≡ restarts d.log

module _ (p : Platform) where
  pub send_json-IsQuiet : (json : Text) (d : Device) → IsQuiet d (ota_send_state_json p json d)
  unfolding ota_send_state_json
  send_json-IsQuiet json d = ground arith

  pub callback-IsQuiet : (e : OtaEvent) (w s : ℕ) (d : Device) → IsQuiet d (callback e w s d)
  unfolding callback
  callback-IsQuiet e w s d = ground arith

  pub send_error-IsQuiet :
      (code : Text) (err : ℕ) (d : Device) → IsQuiet d (ota_send_error p code err d)
  unfolding ota_send_error
  send_error-IsQuiet code err d = grind (arith, send_json-IsQuiet, callback-IsQuiet)

  IsQuiet-IsValid : (d e : Device) → IsQuiet d e → IsValid d → IsValid e
  IsQuiet-IsValid d e q v = ground arith

  abort_active-IsValid : (d : Device) → IsValid d → IsValid (abort_active d)
  unfolding abort_active ota_clear_state
  abort_active-IsValid d v = ground arith

  -- The report changes the state in `next_progress` only.
  pub record IsReport (d e : Device) : Type 0 where
    pub active : e.ota.active ≡ d.ota.active
    pub transfer_id : e.ota.transfer_id ≡ d.ota.transfer_id
    pub image_size : e.ota.image_size ≡ d.ota.image_size
    pub written : e.ota.written ≡ d.ota.written
    pub handle : e.ota.handle ≡ d.ota.handle
    pub partition : e.ota.partition ≡ d.ota.partition
    pub flash : flashed e.log ≡ flashed d.log
    pub restart : restarts e.log ≡ restarts d.log

  pub report_progress-IsReport : (d : Device) → IsReport d (report_progress p d)
  unfolding report_progress
  report_progress-IsReport d = grind (arith, send_json-IsQuiet, callback-IsQuiet)

  begin_in-IsValid :
      (transfer_id image_size : ℕ) (partition : Partition) (d : Device)
      → d.ota.active ≡ false
      → partition.size < 2 ^ 31
      → IsValid (begin_in p transfer_id image_size partition d).0
  unfolding begin_in started
  begin_in-IsValid transfer_id image_size partition d v s =
      grind (arith, send_json-IsQuiet, callback-IsQuiet, send_error-IsQuiet)

  ota_write_data-IsValid :
      (transfer_id offset : ℕ) (payload : Bytes) (d : Device)
      → IsValid d
      → length payload < 2 ^ 16
      → IsValid (ota_write_data p transfer_id offset payload d).0
  unfolding ota_write_data
  ota_write_data-IsValid transfer_id offset payload d v s =
      grind (arith, report_progress-IsReport, send_error-IsQuiet, length-append)

  ota_finish-IsValid :
      (transfer_id image_size : ℕ) (d : Device)
      → IsValid d
      → IsValid (ota_finish p transfer_id image_size d).0
  unfolding ota_finish ota_clear_state
  ota_finish-IsValid transfer_id image_size d v =
      grind (arith, send_json-IsQuiet, callback-IsQuiet, send_error-IsQuiet)

  ota_abort-IsValid : (transfer_id : ℕ) (d : Device) → IsValid (ota_abort p transfer_id d).0
  unfolding ota_abort ota_clear_state
  ota_abort-IsValid transfer_id d = grind (arith, send_json-IsQuiet, callback-IsQuiet)

  abort_active-inactive : (d : Device) → (abort_active d).ota.active ≡ false
  unfolding abort_active ota_clear_state
  abort_active-inactive d = ground arith

  -- Every partition that the platform offers is smaller than 2 GiB, as every flash of the stick is.
  abbrev pub HasSmallPartitions : Type 0
  HasSmallPartitions = (q : Partition) → p.next_update_partition ≡ some q → q.size < 2 ^ 31

  inactive-IsValid : (d : Device) → d.ota.active ≡ false → IsValid d
  inactive-IsValid d h = ground arith

  no_partition-IsValid :
      (code : Text) (err : ℕ) (d : Device) → IsValid d → IsValid (ota_send_error p code err d)
  no_partition-IsValid code err d v = IsQuiet-IsValid d _ (send_error-IsQuiet code err d) v

  ota_begin-IsValid :
      (transfer_id image_size : ℕ) (d : Device)
      → HasSmallPartitions
      → IsValid (ota_begin p transfer_id image_size d).0
  unfolding ota_begin
  ota_begin-IsValid transfer_id image_size d s = elim (Option-cases p.next_update_partition) [
    | inl e ↦
        rw (e, ota_begin)
          (no_partition-IsValid _ _ (abort_active d) (inactive-IsValid _ (abort_active-inactive d)))
    | inr (q, e) ↦
        rw (e, ota_begin)
          (begin_in-IsValid transfer_id image_size q (abort_active d) (abort_active-inactive d)
            (s q e))
  ]

  dispatch-IsValid :
      (kind header_len : ℕ) (buffer : Bytes) (d : Device)
      → HasSmallPartitions
      → IsValid d
      → length buffer < 2 ^ 16
      → IsValid (dispatch p kind header_len buffer d).0
  unfolding dispatch
  dispatch-IsValid kind header_len buffer d s v l = ground (
    arith,
    length-drop_le header_len buffer,
    ota_begin-IsValid (read_le32 (subspan buffer 8 4)) (read_le32 (subspan buffer 4 4)) d s,
    ota_write_data-IsValid (read_le32 (subspan buffer 4 4)) (read_le32 (subspan buffer 8 4))
        (drop header_len buffer) d v,
    ota_finish-IsValid (read_le32 (subspan buffer 4 4)) (read_le32 (subspan buffer 8 4)) d v,
    ota_abort-IsValid (read_le32 (subspan buffer 4 4)) d,
  )

  -- If every partition that the platform offers is smaller than 2 GiB, a message of less than 64
  -- KiB keeps the invariant, whatever it holds and whatever the platform answers: while a transfer
  -- is active its image is not empty and smaller than 2 GiB, it has taken no more than its image,
  -- and its counter is the number of bytes in the flash.
  pub ota_access_cb-IsValid :
      (is_write : Bool) (buffer : Bytes) (d : Device)
      → HasSmallPartitions
      → IsValid d
      → length buffer < 2 ^ 16
      → IsValid (ota_access_cb p is_write buffer d).0
  unfolding ota_access_cb
  ota_access_cb-IsValid is_write buffer d s v l = ground (
    arith,
    no_partition-IsValid (text "no_mem") err_no_mem d v,
    dispatch-IsValid (byte_at buffer 1) (read_le16 (subspan buffer 2 2)) buffer d s v l,
  )
