-- ===== src/BleCentral/Progress.antt =====
-- The end of the desktop's update loop, with the flow control between desktop and stick.
use voicestick.VoiceBle.Ota.Invariant.{flashed}
use voicestick.BleProtocol.{ota_begin_payload, ota_end_payload}
use voicestick.VoiceBle.Ota.Reports.{HasTold, IsHeard, boots}
use voicestick.VoiceBle.Ota.Booting.{IsReporting, begin-IsReporting}
use voicestick.VoiceBle.Ota.Transfer.{IsWilling}
use voicestick.Prelude.{
  refl, inl, inl, inr, ℕ, suc, ◌+◌, ◌-◌, ◌≤◌, ◌<◌, ◌≡◌, true, false, List, [], ◌∷◌, Option, arith,
  length, ◌⊎◌, min, length-take_le, subst, sym, Bool, ◌^◌, some, ◌*◌,
}
use voicestick.BleCentral.{
  Upload, Round, sending, all_sent, send_chunk, upload_round, max_in_flight, Bytes,
}
use voicestick.BleCentral.Update.{
  deliver, InStep, chunk-IsReporting, rounds, upload_round-InStep, fresh, chunk_size-lower,
  update_installs, begin-InStep,
}
use voicestick.VoiceBle.Ota.{Platform, Device, Partition, ota_access_cb, success}

-- A round in which the session is not cancelled and the write, if there is one, succeeds.
pub record IsCalm (r : Round) : Type 0 where
  pub not_cancelled : r.cancel_requested ≡ false
  pub writes : r.write_succeeds ≡ true

-- The desktop has taken in what the stick has told of this transfer so far.
abbrev pub IsUpToDate : (transfer_id size : ℕ) → Round → Device → Type 0
IsUpToDate transfer_id size r d =
    (k : ℕ) → k < 2 ^ 32 → HasTold transfer_id size k d.log → k ≤ r.device_confirmed_written

-- Calm rounds, in `n` of which the desktop is up to date; in the others the reports of the stick may
-- be late by any number of rounds.
abbrev pub AreServed : Platform → (transfer_id size n : ℕ) → List Round → Upload → Device → Type 0
AreServed p transfer_id size n [] u d = n ≡ 0
AreServed p transfer_id size n (r ∷ rs) u d =
    IsCalm r
    × ((IsUpToDate transfer_id size r d
          × ((m : ℕ) × (n ≡ suc m)
              × AreServed p transfer_id size m rs (upload_round r u).0
                  (deliver p (upload_round r u).1 d)))
        ⊎ AreServed p transfer_id size n rs (upload_round r u).0 (deliver p (upload_round r u).1 d))

-- The loop is under way, or has sent everything.
pub record IsGoing (transfer_id size : ℕ) (u : Upload) : Type 0 where
  pub of_transfer : u.transfer_id ≡ transfer_id
  pub of_size : length u.image ≡ size
  pub within : u.offset ≤ size
  pub chunk : 20 ≤ u.chunk
  pub phase : (u.phase ≡ sending) ⊎ ((u.phase ≡ all_sent) × (u.offset ≡ size))

calm-IsGoing :
    (transfer_id size : ℕ) (r : Round) (u : Upload)
    → IsCalm r
    → IsGoing transfer_id size u
    → IsGoing transfer_id size (upload_round r u).0 × (u.offset ≤ (upload_round r u).0.offset)
unfolding upload_round send_chunk
calm-IsGoing transfer_id size r u h g = ground arith

open-IsGoing :
    (transfer_id size : ℕ) (r : Round) (u : Upload)
    → IsCalm r
    → u.offset ≤ r.device_confirmed_written + max_in_flight
    → IsGoing transfer_id size u
    → (u.offset + 20 ≤ (upload_round r u).0.offset) ⊎ ((upload_round r u).0.offset ≡ size)
unfolding upload_round send_chunk
open-IsGoing transfer_id size r u h o g = ground arith

module _ (p : Platform) (q : Partition) (w : IsWilling p q) (before : List (Option Partition)) where
  -- Where the desktop is up to date the window of 48 KiB is open: the stick reports every 32 KiB.
  window-open :
      (r : Round) (u : Upload) (d : Device)
      → InStep q before u d
      → IsReporting p u.transfer_id (length u.image) d
      → IsUpToDate u.transfer_id (length u.image) r d
      → u.offset ≤ r.device_confirmed_written + max_in_flight
  window-open r u d s t h =
      let reached : d.ota.written ≡ u.offset =
        omega (arith, s.holds.written, s.within, length-take_le u.offset u.image s.within) in
      elim t.recent.recent [
        | inl first ↦ omega (arith, reached, t.ahead, first)
        | inr (k, small, told, l) ↦ omega (arith, reached, t.ahead, l, h k small told)
      ]

  send_chunk-IsReporting :
      (r : Round) (u : Upload) (d : Device)
      → u.offset < length u.image
      → InStep q before u d
      → IsReporting p u.transfer_id (length u.image) d
      → IsReporting p u.transfer_id (length u.image) (deliver p (send_chunk r u).1 d)
  unfolding send_chunk
  send_chunk-IsReporting r u d o s t =
      let end : ℕ = min (u.offset + u.chunk) (length u.image) in
      ground (
        arith,
        chunk-IsReporting p q w u.transfer_id u.image u.offset (end - u.offset) d s.transfer s.small
            (omega (arith, s.positive)) (omega arith) s.holds t,
      )

  upload_round-IsReporting :
      (r : Round) (u : Upload) (d : Device)
      → InStep q before u d
      → IsReporting p u.transfer_id (length u.image) d
      → IsReporting p u.transfer_id (length u.image) (deliver p (upload_round r u).1 d)
  unfolding upload_round
  upload_round-IsReporting r u d s t = ground (arith, send_chunk-IsReporting r u d)

  -- One calm round of a loop that is in step with a stick whose reports arrive.
  served :
      (transfer_id size : ℕ) (r : Round) (u : Upload) (d : Device)
      → IsGoing transfer_id size u
      → InStep q before u d
      → IsReporting p transfer_id size d
      → IsReporting p transfer_id size (deliver p (upload_round r u).1 d)
        × (IsUpToDate transfer_id size r d → u.offset ≤ r.device_confirmed_written + max_in_flight)
  served transfer_id size r u d g s t =
      subst
        (λ (i : ℕ).
          IsReporting p i size (deliver p (upload_round r u).1 d)
          × (IsUpToDate i size r d → u.offset ≤ r.device_confirmed_written + max_in_flight))
        g.of_transfer
        (subst
          (λ (n : ℕ).
            IsReporting p u.transfer_id n (deliver p (upload_round r u).1 d)
            × (IsUpToDate u.transfer_id n r d
                → u.offset ≤ r.device_confirmed_written + max_in_flight))
          g.of_size (upload_round-IsReporting r u d s here, window-open r u d s here))
    where
      here : IsReporting p u.transfer_id (length u.image) d
      here =
          subst (λ (i : ℕ). IsReporting p i (length u.image) d) (sym g.of_transfer)
            (subst (λ (n : ℕ). IsReporting p transfer_id n d) (sym g.of_size) t)

  -- Where the stick's platform fails at nothing and its reports reach the desktop: from any point of
  -- a loop that is under way and in step with the stick, calm rounds send all of the image once the
  -- desktop is up to date in one of them for every 20 bytes that are left, however late the reports
  -- are in the others.
  pub rounds_complete :
      (transfer_id size n : ℕ) (rs : List Round) (u : Upload) (d : Device)
      → IsGoing transfer_id size u
      → InStep q before u d
      → IsReporting p transfer_id size d
      → AreServed p transfer_id size n rs u d
      → size ≤ u.offset + 20 * n
      → (rounds p rs u d).0.offset ≡ size
  unfolding rounds
  rounds_complete transfer_id size n [] u d g s t h l = omega (arith, g.within, h)
  rounds_complete transfer_id size n (r ∷ rs) u d g s t h l =
      let (g', kept) = calm-IsGoing transfer_id size r u h.0 g in
      let s' = upload_round-InStep p q w before r u d s in
      let (t', window) = served transfer_id size r u d g s t in
      let u' = (upload_round r u).0 in
      let d' = deliver p (upload_round r u).1 d in
      elim h.1 [
        | inl (told, (m, e, more)) ↦
            rounds_complete transfer_id size m rs u' d' g' s' t' more
              (omega (arith, e, g'.within, open-IsGoing transfer_id size r u h.0 (window told) g))
        | inr more ↦ rounds_complete transfer_id size n rs u' d' g' s' t' more (omega (arith, kept))
      ]

pub fresh-IsGoing :
    (transfer_id max_pdu : ℕ) (image : Bytes) (without_response : Bool)
    → IsGoing transfer_id (length image) (fresh transfer_id image max_pdu without_response)
fresh-IsGoing transfer_id max_pdu image without_response = record {
  of_transfer = refl;
  of_size = refl;
  within = omega arith;
  chunk = chunk_size-lower max_pdu;
  phase = inl refl;
}

-- Where the stick's platform fails at nothing and its reports reach the desktop, for an image of at
-- least one byte that fits the partition and is smaller than 2 GiB: calm rounds of the desktop's
-- loop between the begin and the end message, with one for every 20 bytes in which the desktop has
-- taken in all reports, however late they are in the others, leave exactly the image in the flash,
-- no active transfer, and one restart, into the partition of the transfer.
pub update_finishes :
    (p : Platform) (q : Partition) (transfer_id max_pdu n : ℕ) (image : Bytes)
    (without_response : Bool) (rs : List Round) (d : Device)
    → IsWilling p q
    → transfer_id < 2 ^ 32
    → 0 < length image
    → length image ≤ q.size
    → length image < 2 ^ 31
    → IsHeard p d
    → let d1 = (ota_access_cb p true (ota_begin_payload (length image) transfer_id) d).0 in
      let u = fresh transfer_id image max_pdu without_response in
      AreServed p transfer_id (length image) n rs u d1
      → length image ≤ 20 * n
      → let r = rounds p rs u d1 in
        let e = ota_access_cb p true (ota_end_payload transfer_id (length image)) r.1 in
        (boots e.0.log ≡ some q ∷ boots d.log)
        × (flashed e.0.log ≡ image)
        × (e.1 ≡ success)
        × (e.0.ota.active ≡ false)
update_finishes p q transfer_id max_pdu n image without_response rs d w t z s b h served l =
    let u = fresh transfer_id image max_pdu without_response in
    let d1 = (ota_access_cb p true (ota_begin_payload (length image) transfer_id) d).0 in
    let (flash, still, installed) =
      update_installs p q transfer_id max_pdu image without_response rs d w t z s b in
    installed (
      rounds_complete p q w (boots d.log) transfer_id (length image) n rs u d1
        (fresh-IsGoing transfer_id max_pdu image without_response)
        (begin-InStep p q transfer_id max_pdu image without_response d w t z s b)
        (begin-IsReporting p q w transfer_id (length image) d t z s (omega arith) h) served
        (omega arith))
