-- ===== src/VoiceBle/Ota/Reports.antt =====
-- The reports of an update that voice_ble.c notifies, and the partition that the stick boots.
use voicestick.VoiceBle.Ota.Invariant.{send_json-IsQuiet, callback-IsQuiet}
use voicestick.Prelude.{
  ℕ, suc, zero, ◌+◌, ◌*◌, ◌≤◌, ◌<◌, ◌^◌, ◌≡◌, ◌≢◌, ◌⊎◌, inl, inr, true, false, ◌==◌, List, [], ◌∷◌,
  Option, none, arith, if◌then◌else◌, leb, ◌||◌, refl, subst, sym, Bool-cases, leb→le, Bool,
}
use voicestick.VoiceBle.Ota.Invariant.{send_json-IsQuiet, callback-IsQuiet}
use voicestick.VoiceBle.Ota.{
  Platform, Device, Effect, Partition, OtaEvent, advance, report_progress, ota_send_state_json,
  callback, progress_json, state_frame, u32,
}

-- The partition that was last chosen for the next boot.
unfoldable pub boot_partition : List Effect → Option Partition
boot_partition [] = none
boot_partition (Effect.esp_ota_set_boot_partition partition err ∷ log) =
    let before = boot_partition log in if err == 0 then partition else before
boot_partition (e ∷ log) = boot_partition log

-- The partitions that the stick has restarted into, the last one first.
unfoldable pub boots : List Effect → List (Option Partition)
unfolding boot_partition
boots [] = []
boots (Effect.esp_restart ∷ log) = boot_partition log ∷ boots log
boots (e ∷ log) = boots log

-- Since the transfer began the stick has notified that so many bytes are written.
unfoldable pub HasTold : (transfer_id image_size written : ℕ) → List Effect → Type 0
HasTold transfer_id image_size written [] = ⊥
HasTold transfer_id image_size written (Effect.esp_ota_begin partition size ∷ log) = ⊥
HasTold transfer_id image_size written (e ∷ log) =
    (e ≡ Effect.notify (state_frame (progress_json transfer_id written image_size)))
    ⊎ HasTold transfer_id image_size written log

-- The loop over the next report ends behind what is written, and no more than one step behind it.
advance-due :
    (fuel written next_progress : ℕ)
    → leb next_progress written ≡ true
    → u32 (next_progress + 32768) ≡ next_progress + 32768
    → advance (suc fuel) written next_progress ≡ advance fuel written (next_progress + 32768)
unfolding advance
advance-due fuel written next_progress e same = ground (arith, same, e)

advance_lem :
    (fuel written next_progress : ℕ)
    → written < 2 ^ 31
    → written < next_progress + fuel * 32768
    → (written < advance fuel written next_progress)
      × ((advance fuel written next_progress ≤ next_progress)
          ⊎ (advance fuel written next_progress ≤ written + 32768))
unfolding advance
advance_lem zero written next_progress b h = (omega arith, inl (omega arith))
advance_lem (suc fuel) written next_progress b h =
    let more = advance_lem fuel written (next_progress + 32768) b (omega arith) in
    elim (Bool-cases (leb next_progress written)) [
      | inl e ↦
          let same : u32 (next_progress + 32768) ≡ next_progress + 32768 = ground arith in
          rw (advance-due fuel written next_progress e same)
            (more.0, inr (omega (arith, more.1, leb→le next_progress written e)))
      | inr e ↦ ground (arith, e)
    ]

-- Whether a state message reaches the desktop.
pub record IsHeard (p : Platform) (d : Device) : Type 0 where
  pub mbuf : p.notify_mbuf ≡ true
  pub append : p.notify_append ≡ true
  pub connected : d.connected ≡ true
  pub handle : d.has_conn_handle ≡ true
  pub subscribed : d.ota_state_attr_handle ≢ 0

-- How far the reports are behind what is written: the next one is due at most one step behind the
-- last one, or behind the beginning.
pub record IsRecent (transfer_id image_size next_progress : ℕ) (log : List Effect) : Type 0 where
  pub recent :
      (next_progress ≤ 32768)
      ⊎ ((k : ℕ) × (k < 2 ^ 32)
          × HasTold transfer_id image_size k log
          × (next_progress ≤ k + 32768))

-- A report is due behind a step, and at the end of the image.
abbrev is_due : Device → Bool
is_due d = leb d.ota.next_progress d.ota.written || d.ota.written == d.ota.image_size

report-not_due : (p : Platform) (d : Device) → is_due d ≡ false → report_progress p d ≡ d
unfolding report_progress
report-not_due p d e = ground (arith, e)

report-next :
    (p : Platform) (d : Device)
    → is_due d ≡ true
    → (report_progress p d).ota.next_progress
      ≡ advance (suc d.ota.written) d.ota.written d.ota.next_progress
unfolding report_progress
report-next p d e = grind (arith, e, send_json-IsQuiet, callback-IsQuiet)

callback-HasTold :
    (transfer_id image_size k written size : ℕ) (event : OtaEvent) (d : Device)
    → HasTold transfer_id image_size k d.log
    → HasTold transfer_id image_size k (callback event written size d).log
unfolding callback HasTold
callback-HasTold transfer_id image_size k written size event d h = ground arith

report-log :
    (p : Platform) (d : Device)
    → is_due d ≡ true
    → let d1 =
        ota_send_state_json p (progress_json d.ota.transfer_id d.ota.written d.ota.image_size) d in
      (report_progress p d).log
      ≡ (callback OtaEvent.progress d1.ota.written d1.ota.image_size d1).log
unfolding report_progress
report-log p d e = ground (arith, e)

json-HasTold :
    (p : Platform) (d : Device) (transfer_id image_size written k : ℕ)
    → IsHeard p d
    → (k ≡ written) ⊎ HasTold transfer_id image_size k d.log
    → HasTold transfer_id image_size k
        (ota_send_state_json p (progress_json transfer_id written image_size) d).log
unfolding ota_send_state_json HasTold
json-HasTold p d transfer_id image_size written k h t = ground arith

report-HasTold :
    (p : Platform) (d : Device) (k : ℕ)
    → IsHeard p d
    → is_due d ≡ true
    → (k ≡ d.ota.written) ⊎ HasTold d.ota.transfer_id d.ota.image_size k d.log
    → HasTold d.ota.transfer_id d.ota.image_size k (report_progress p d).log
report-HasTold p d k h e t =
    subst (λ (x : List Effect). HasTold d.ota.transfer_id d.ota.image_size k x)
      (sym (report-log p d e))
      (callback-HasTold d.ota.transfer_id d.ota.image_size k _ _ OtaEvent.progress _
        (json-HasTold p d d.ota.transfer_id d.ota.image_size d.ota.written k h t))

-- A report is told where it is due, and the next one is then due behind what is written.
pub report_progress-IsRecent :
    (p : Platform) (d : Device)
    → IsHeard p d
    → d.ota.written < 2 ^ 31
    → IsRecent d.ota.transfer_id d.ota.image_size d.ota.next_progress d.log
    → let e = report_progress p d in
      IsRecent d.ota.transfer_id d.ota.image_size e.ota.next_progress e.log
      × (d.ota.written < e.ota.next_progress)
report_progress-IsRecent p d h b r = elim (Bool-cases (is_due d)) [
  | inl e ↦
      let (behind, near) =
        advance_lem (suc d.ota.written) d.ota.written d.ota.next_progress b (omega arith) in
      let n = report-next p d e in
      let now = report-HasTold p d d.ota.written h e (inl refl) in
      (
        record {
          recent = elim near [
            | inl old ↦ elim r.recent [
              | inl first ↦ inl (omega (arith, n, old, first))
              | inr (k, small, told, l) ↦
                  inr (k, small, report-HasTold p d k h e (inr told), omega (arith, n, old, l))
            ]
            | inr new ↦ inr (d.ota.written, omega arith, now, omega (arith, n, new))
          ];
        },
        omega (arith, n, behind),
      )
  | inr e ↦ rw (report-not_due p d e) (r, ground (arith, e))
]
