-- ===== src/VoiceBle/Ota/Booting.antt =====
-- An update from the begin to the end message: its reports, its partition, and the boot behind it.
use voicestick.Prelude.{
  ℕ, ◌+◌, ◌≤◌, ◌<◌, ◌^◌, ◌≡◌, true, [], ◌∷◌, some, arith, length, refl, subst, sym, ◌∙◌, List,
  Option,
}
use voicestick.ByteUtils.{append_le32}
use voicestick.ByteUtils.RoundTrip.{read_le32_bytes}
use voicestick.Prelude.Texts.{Bytes, Text}
use voicestick.BleProtocol.{ota_begin_payload, ota_data_payload, ota_end_payload}
use voicestick.VoiceBle.Ota.{
  Platform, Device, Partition, OtaEvent, Effect, ota_begin, begin_in, started, abort_active,
  ota_write_data, ota_finish, ota_access_cb, ota_clear_state, ota_send_state_json, callback,
  report_progress, u32, AttResult, dispatch,
}
use voicestick.VoiceBle.Ota.Invariant.{
  send_json-IsQuiet, report_progress-IsReport, callback-IsQuiet,
}
use voicestick.VoiceBle.Ota.Transfer.{IsWilling, Holds, dispatch_message}
use voicestick.VoiceBle.Ota.Reports.{
  IsHeard, IsRecent, HasTold, report_progress-IsRecent, boots, boot_partition,
}

-- What the stick does beside the update: the connection stays, and nothing is booted.
pub record IsAside (d e : Device) : Type 0 where
  pub connected : e.connected ≡ d.connected
  pub handle : e.has_conn_handle ≡ d.has_conn_handle
  pub subscribed : e.ota_state_attr_handle ≡ d.ota_state_attr_handle
  pub boot : boot_partition e.log ≡ boot_partition d.log
  pub booted : boots e.log ≡ boots d.log

module _ (p : Platform) where
  json-IsAside : (json : Text) (d : Device) → IsAside d (ota_send_state_json p json d)
  unfolding ota_send_state_json boots boot_partition
  json-IsAside json d = ground arith

  callback-IsAside : (e : OtaEvent) (w s : ℕ) (d : Device) → IsAside d (callback e w s d)
  unfolding callback boots boot_partition
  callback-IsAside e w s d = ground arith

  report-IsAside : (d : Device) → IsAside d (report_progress p d)
  unfolding report_progress
  report-IsAside d = grind (arith, json-IsAside, callback-IsAside)

  abort-IsAside : (d : Device) → IsAside d (abort_active d)
  unfolding abort_active ota_clear_state boots boot_partition
  abort-IsAside d = ground arith

  IsAside-IsHeard : (d e : Device) → IsAside d e → IsHeard p d → IsHeard p e
  IsAside-IsHeard d e a h = ground arith

-- The transfer goes to this partition, and the stick has restarted into these so far.
pub record IsAimed (q : Partition) (before : List (Option Partition)) (d : Device) : Type 0 where
  pub target : d.ota.partition ≡ some q
  pub booted : boots d.log ≡ before

-- The reports of the transfer reach the desktop, and they keep up with what is written.
pub record IsReporting (p : Platform) (transfer_id image_size : ℕ) (d : Device) : Type 0 where
  pub heard : IsHeard p d
  pub ahead : d.ota.written < d.ota.next_progress
  pub recent : IsRecent transfer_id image_size d.ota.next_progress d.log

module _ (p : Platform) (q : Partition) (w : IsWilling p q) where
  begin_in-IsReporting :
      (transfer_id image_size : ℕ) (d : Device)
      → 0 < image_size
      → image_size ≤ q.size
      → IsHeard p d
      → IsReporting p transfer_id image_size (begin_in p transfer_id image_size q d).0
  unfolding begin_in started
  begin_in-IsReporting transfer_id image_size d z s h = grind (
    arith,
    w.begins image_size,
    send_json-IsQuiet,
    callback-IsQuiet,
    json-IsAside,
    callback-IsAside,
  )

  begin-partition :
      (transfer_id image_size : ℕ) (d : Device)
      → ota_begin p transfer_id image_size d ≡ begin_in p transfer_id image_size q (abort_active d)
  unfolding ota_begin
  begin-partition transfer_id image_size d = ground (arith, w.partition)

  ota_begin-IsReporting :
      (transfer_id image_size : ℕ) (d : Device)
      → 0 < image_size
      → image_size ≤ q.size
      → IsHeard p d
      → IsReporting p transfer_id image_size (ota_begin p transfer_id image_size d).0
  ota_begin-IsReporting transfer_id image_size d z s h =
      subst (λ (x : Device × AttResult). IsReporting p transfer_id image_size x.0)
        (sym (begin-partition transfer_id image_size d))
        (begin_in-IsReporting transfer_id image_size (abort_active d) z s
          (IsAside-IsHeard p d (abort_active d) (abort-IsAside p d) h))

  begin_in-IsAimed :
      (transfer_id image_size : ℕ) (d : Device)
      → 0 < image_size
      → image_size ≤ q.size
      → IsAimed q (boots d.log) (begin_in p transfer_id image_size q d).0
  unfolding begin_in started boots boot_partition
  begin_in-IsAimed transfer_id image_size d z s = grind (
    arith,
    w.begins image_size,
    send_json-IsQuiet,
    callback-IsQuiet,
    json-IsAside,
    callback-IsAside,
  )

  ota_begin-IsAimed :
      (transfer_id image_size : ℕ) (d : Device)
      → 0 < image_size
      → image_size ≤ q.size
      → IsAimed q (boots d.log) (ota_begin p transfer_id image_size d).0
  ota_begin-IsAimed transfer_id image_size d z s =
      subst (λ (x : Device × AttResult). IsAimed q (boots d.log) x.0)
        (sym (begin-partition transfer_id image_size d))
        (subst
          (λ (x : List (Option Partition)).
            IsAimed q x (begin_in p transfer_id image_size q (abort_active d)).0)
          ((abort-IsAside p d).booted)
          (begin_in-IsAimed transfer_id image_size (abort_active d) z s))

  -- The state behind a write, before the report.
  abbrev written_to : Bytes → Device → Device
  written_to payload d = record d {
    ota = record d.ota { written = u32 (d.ota.written + length payload) };
    log =
        Effect.esp_ota_write d.ota.handle payload (p.ota_write_answer d.ota.handle payload) ∷ d.log;
  }

  write-report :
      (transfer_id image_size : ℕ) (bytes payload : Bytes) (d : Device)
      → Holds transfer_id image_size bytes d
      → 0 < length payload
      → length bytes + length payload ≤ image_size
      → image_size < 2 ^ 31
      → (ota_write_data p transfer_id (length bytes) payload d).0
        ≡ report_progress p (written_to payload d)
  unfolding ota_write_data
  write-report transfer_id image_size bytes payload d v z s b =
      ground (arith, w.writes d.ota.handle payload)

  written-IsRecent :
      (transfer_id image_size next : ℕ) (payload : Bytes) (d : Device)
      → IsRecent transfer_id image_size next d.log
      → IsRecent transfer_id image_size next (written_to payload d).log
  unfolding HasTold
  written-IsRecent transfer_id image_size next payload d r = ground arith

  written-boots : (payload : Bytes) (d : Device) → boots (written_to payload d).log ≡ boots d.log
  unfolding boots
  written-boots payload d = refl

  ota_write_data-IsAimed :
      (transfer_id image_size : ℕ) (bytes payload : Bytes) (before : List (Option Partition))
      (d : Device)
      → Holds transfer_id image_size bytes d
      → 0 < length payload
      → length bytes + length payload ≤ image_size
      → image_size < 2 ^ 31
      → IsAimed q before d
      → IsAimed q before (ota_write_data p transfer_id (length bytes) payload d).0
  ota_write_data-IsAimed transfer_id image_size bytes payload before d v z s b a =
      let d1 = written_to payload d in
      subst (λ (x : Device). IsAimed q before x)
        (sym (write-report transfer_id image_size bytes payload d v z s b))
        (record {
          target = (report_progress-IsReport p d1).partition ∙ a.target;
          booted = (report-IsAside p d1).booted ∙ written-boots payload d ∙ a.booted;
        })

  IsRecent-cast :
      (t u s v next : ℕ) (log : List Effect)
      → t ≡ u
      → s ≡ v
      → IsRecent t s next log
      → IsRecent u v next log
  IsRecent-cast t u s v next log e f r =
      subst (λ (x : ℕ). IsRecent x v next log) e (subst (λ (x : ℕ). IsRecent t x next log) f r)

  ota_write_data-IsReporting :
      (transfer_id image_size : ℕ) (bytes payload : Bytes) (d : Device)
      → Holds transfer_id image_size bytes d
      → 0 < length payload
      → length bytes + length payload ≤ image_size
      → image_size < 2 ^ 31
      → IsReporting p transfer_id image_size d
      → IsReporting p transfer_id image_size
          (ota_write_data p transfer_id (length bytes) payload d).0
  ota_write_data-IsReporting transfer_id image_size bytes payload d v z s b r =
      let d1 = written_to payload d in
      let heard : IsHeard p d1 = ground (arith, r.heard) in
      let next = d.ota.next_progress in
      let (recent, ahead) = report_progress-IsRecent p d1 heard (omega (arith, v.written)) (
        IsRecent-cast transfer_id d.ota.transfer_id image_size d.ota.image_size next d1.log
          (sym v.transfer) (sym v.size)
          (written-IsRecent transfer_id image_size next payload d r.recent)) in
      let same = report_progress-IsReport p d1 in
      subst (λ (x : Device). IsReporting p transfer_id image_size x)
        (sym (write-report transfer_id image_size bytes payload d v z s b))
        (record {
          heard = IsAside-IsHeard p d1 (report_progress p d1) (report-IsAside p d1) heard;
          ahead = omega (arith, same.written, ahead);
          recent =
              IsRecent-cast d.ota.transfer_id transfer_id d.ota.image_size image_size _ _ v.transfer
                v.size recent;
        })

  pub begin-IsAimed :
      (transfer_id image_size : ℕ) (d : Device)
      → transfer_id < 2 ^ 32
      → 0 < image_size
      → image_size ≤ q.size
      → image_size < 2 ^ 32
      → IsAimed q
          (boots d.log)
          (ota_access_cb p true (ota_begin_payload image_size transfer_id) d).0
  unfolding ota_begin_payload append_le32 dispatch
  begin-IsAimed transfer_id image_size d t z s b =
      rw (dispatch_message p q w 0x20 _ _ _ _ _ _ _ _ [] d) (
        rw (read_le32_bytes transfer_id [] t, read_le32_bytes image_size [] b)
          (ota_begin-IsAimed transfer_id image_size d z s))

  pub data-IsAimed :
      (transfer_id image_size : ℕ) (bytes chunk : Bytes) (before : List (Option Partition))
      (d : Device)
      → Holds transfer_id image_size bytes d
      → transfer_id < 2 ^ 32
      → 0 < length chunk
      → length bytes + length chunk ≤ image_size
      → image_size < 2 ^ 31
      → IsAimed q before d
      → IsAimed q before
          (ota_access_cb p true (ota_data_payload transfer_id (length bytes) chunk) d).0
  unfolding ota_data_payload append_le32 dispatch
  data-IsAimed transfer_id image_size bytes chunk before d v t z s b a =
      rw (dispatch_message p q w 0x21 _ _ _ _ _ _ _ _ chunk d) (
        rw (read_le32_bytes transfer_id [] t, read_le32_bytes (length bytes) [] (omega arith))
          (ota_write_data-IsAimed transfer_id image_size bytes chunk before d v z s b a))

  pub begin-IsReporting :
      (transfer_id image_size : ℕ) (d : Device)
      → transfer_id < 2 ^ 32
      → 0 < image_size
      → image_size ≤ q.size
      → image_size < 2 ^ 32
      → IsHeard p d
      → IsReporting p transfer_id image_size
          (ota_access_cb p true (ota_begin_payload image_size transfer_id) d).0
  unfolding ota_begin_payload append_le32 dispatch
  begin-IsReporting transfer_id image_size d t z s b h =
      rw (dispatch_message p q w 0x20 _ _ _ _ _ _ _ _ [] d) (
        rw (read_le32_bytes transfer_id [] t, read_le32_bytes image_size [] b)
          (ota_begin-IsReporting transfer_id image_size d z s h))

  pub data-IsReporting :
      (transfer_id image_size : ℕ) (bytes chunk : Bytes) (d : Device)
      → Holds transfer_id image_size bytes d
      → transfer_id < 2 ^ 32
      → 0 < length chunk
      → length bytes + length chunk ≤ image_size
      → image_size < 2 ^ 31
      → IsReporting p transfer_id image_size d
      → IsReporting p transfer_id image_size
          (ota_access_cb p true (ota_data_payload transfer_id (length bytes) chunk) d).0
  unfolding ota_data_payload append_le32 dispatch
  data-IsReporting transfer_id image_size bytes chunk d v t z s b r =
      rw (dispatch_message p q w 0x21 _ _ _ _ _ _ _ _ chunk d) (
        rw (read_le32_bytes transfer_id [] t, read_le32_bytes (length bytes) [] (omega arith))
          (ota_write_data-IsReporting transfer_id image_size bytes chunk d v z s b r))

  -- The partition of the transfer is set for the next boot before the restart.
  ota_finish-boots :
      (transfer_id : ℕ) (bytes : Bytes) (d : Device)
      → Holds transfer_id (length bytes) bytes d
      → d.ota.partition ≡ some q
      → boots (ota_finish p transfer_id (length bytes) d).0.log ≡ some q ∷ boots d.log
  unfolding ota_finish ota_clear_state boots boot_partition
  ota_finish-boots transfer_id bytes d v e =
      grind (arith, w.ends d.ota.handle, w.boots d.ota.partition, json-IsAside, callback-IsAside)

  pub end-boots :
      (transfer_id : ℕ) (bytes : Bytes) (d : Device)
      → Holds transfer_id (length bytes) bytes d
      → transfer_id < 2 ^ 32
      → length bytes < 2 ^ 32
      → d.ota.partition ≡ some q
      → boots (ota_access_cb p true (ota_end_payload transfer_id (length bytes)) d).0.log
        ≡ some q ∷ boots d.log
  unfolding ota_end_payload append_le32 dispatch
  end-boots transfer_id bytes d v t b e = rw (dispatch_message p q w 0x22 _ _ _ _ _ _ _ _ [] d) (
      rw (read_le32_bytes transfer_id [] t, read_le32_bytes (length bytes) [] b)
        (ota_finish-boots transfer_id bytes d v e))
