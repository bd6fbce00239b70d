-- ===== src/BleCentral/Update.antt =====
-- A firmware update: the desktop's loop and the stick together.
use voicestick.VoiceBle.Ota.Invariant.{flashed}
use voicestick.VoiceBle.Ota.Reports.{boots}
use voicestick.VoiceBle.Ota.Booting.{
  IsAimed, IsReporting, begin-IsAimed, data-IsAimed, data-IsReporting, end-boots,
}
use voicestick.Prelude.{
  refl, ◌∙◌, ℕ, ◌+◌, ◌-◌, ◌≤◌, ◌<◌, ◌^◌, ◌≡◌, min, true, List, [], ◌∷◌, Option, none, some, arith,
  length, take, drop, take-add, length-drop, length-take_le, Bool-cases, inl, inr, subst, Bool,
  false, ap, take_all,
}
use voicestick.Prelude.Texts.{Bytes}
use voicestick.BleCentral.{Upload, Round, send_chunk, upload_round, u32, chunk_size, sending}
use voicestick.BleProtocol.{ota_data_payload, ota_begin_payload, ota_end_payload}
use voicestick.VoiceBle.Ota.{Platform, Device, Partition, ota_access_cb, success}
use voicestick.VoiceBle.Ota.Transfer.{IsWilling, Holds, data_message, begin_message, end_message}

-- The stick handles what the desktop has written, if anything.
abbrev pub deliver : Platform → Option Bytes → Device → Device
deliver p none d = d
deliver p (some message) d = (ota_access_cb p true message d).0

unfoldable pub rounds : Platform → List Round → Upload → Device → Upload × Device
rounds p [] u d = (u, d)
rounds p (r ∷ rs) u d = let (u', message) = upload_round r u in rounds p rs u' (deliver p message d)

-- The stick holds exactly what the desktop has sent.
pub record InStep (q : Partition) (before : List (Option Partition)) (u : Upload) (d : Device)
    : Type 0 where
  pub transfer : u.transfer_id < 2 ^ 32
  pub small : length u.image < 2 ^ 31
  pub within : u.offset ≤ length u.image
  pub positive : 0 < u.chunk
  pub holds : Holds u.transfer_id (length u.image) (take u.offset u.image) d
  pub aimed : IsAimed q before d

module _ (p : Platform) (q : Partition) (w : IsWilling p q) where
  -- The message of a chunk, at the offset that the stick has reached.
  chunk_message :
      (transfer_id : ℕ) (image : Bytes) (offset k : ℕ)
      → length image < 2 ^ 31
      → offset + k ≤ length image
      → (length (take offset image) ≡ offset)
        × (length (take k (drop offset image)) ≡ k)
        × (u32 offset ≡ length (take offset image))
  chunk_message transfer_id image offset k b l =
      let front : length (take offset image) ≡ offset = length-take_le offset image (omega arith) in
      (
        front,
        length-take_le k (drop offset image) (omega (arith, length-drop offset image)),
        omega (arith, front),
      )

  chunk-Holds :
      (transfer_id : ℕ) (image : Bytes) (offset k : ℕ) (d : Device)
      → transfer_id < 2 ^ 32
      → length image < 2 ^ 31
      → 0 < k
      → offset + k ≤ length image
      → Holds transfer_id (length image) (take offset image) d
      → Holds transfer_id
          (length image)
          (take (offset + k) image)
          (ota_access_cb p true
            (ota_data_payload transfer_id (u32 offset) (take k (drop offset image)))
            d).0
  chunk-Holds transfer_id image offset k d t b z l v =
      let (front, back, same) = chunk_message transfer_id image offset k b l in
      rw (take-add offset k image) (
        rw same (
          data_message p q w transfer_id (length image) (take offset image)
            (take k (drop offset image)) d v t (omega (arith, back)) (omega (arith, front, back))
            b))

  chunk-IsAimed :
      (before : List (Option Partition)) (transfer_id : ℕ) (image : Bytes) (offset k : ℕ)
      (d : Device)
      → transfer_id < 2 ^ 32
      → length image < 2 ^ 31
      → 0 < k
      → offset + k ≤ length image
      → Holds transfer_id (length image) (take offset image) d
      → IsAimed q before d
      → IsAimed q before
          (ota_access_cb p true
            (ota_data_payload transfer_id (u32 offset) (take k (drop offset image)))
            d).0
  chunk-IsAimed before transfer_id image offset k d t b z l v a =
      let (front, back, same) = chunk_message transfer_id image offset k b l in
      rw same (
        data-IsAimed p q w transfer_id (length image) (take offset image)
          (take k (drop offset image)) before d v t (omega (arith, back))
          (omega (arith, front, back)) b a)

  pub chunk-IsReporting :
      (transfer_id : ℕ) (image : Bytes) (offset k : ℕ) (d : Device)
      → transfer_id < 2 ^ 32
      → length image < 2 ^ 31
      → 0 < k
      → offset + k ≤ length image
      → Holds transfer_id (length image) (take offset image) d
      → IsReporting p transfer_id (length image) d
      → IsReporting p transfer_id
          (length image)
          (ota_access_cb p true
            (ota_data_payload transfer_id (u32 offset) (take k (drop offset image)))
            d).0
  chunk-IsReporting transfer_id image offset k d t b z l v r =
      let (front, back, same) = chunk_message transfer_id image offset k b l in
      rw same (
        data-IsReporting p q w transfer_id (length image) (take offset image)
          (take k (drop offset image)) d v t (omega (arith, back)) (omega (arith, front, back)) b r)

  send_chunk-InStep :
      (before : List (Option Partition)) (r : Round) (u : Upload) (d : Device)
      → u.offset < length u.image
      → InStep q before u d
      → InStep q before (send_chunk r u).0 (deliver p (send_chunk r u).1 d)
  unfolding send_chunk
  send_chunk-InStep before r u d o s = elim (Bool-cases r.write_succeeds) [
    | inl e ↦ rw e (record {
      transfer = s.transfer;
      small = s.small;
      within = omega arith;
      positive = s.positive;
      holds =
          let end : ℕ = min (u.offset + u.chunk) (length u.image) in
          let split : u.offset + (end - u.offset) ≡ end = sent_part u o s in
          subst
            (λ (x : ℕ).
              Holds u.transfer_id (length u.image) (take x u.image)
                (ota_access_cb p true
                  (ota_data_payload u.transfer_id (u32 u.offset)
                    (take (end - u.offset) (drop u.offset u.image)))
                  d).0)
            split
            (chunk-Holds u.transfer_id u.image u.offset (end - u.offset) d s.transfer s.small
              (omega (arith, s.positive)) (omega (arith, split)) s.holds);
      aimed =
          let end : ℕ = min (u.offset + u.chunk) (length u.image) in
          chunk-IsAimed before u.transfer_id u.image u.offset (end - u.offset) d s.transfer s.small
            (omega (arith, s.positive)) (omega arith) s.holds s.aimed;
    })
    | inr e ↦ rw e (record {
      transfer = s.transfer;
      small = s.small;
      within = s.within;
      positive = s.positive;
      holds = s.holds;
      aimed = s.aimed;
    })
  ]
    where
      sent_part :
          (u : Upload)
          → u.offset < length u.image
          → InStep q before u d
          → u.offset + (min (u.offset + u.chunk) (length u.image) - u.offset)
            ≡ min (u.offset + u.chunk) (length u.image)
      sent_part u o s = omega arith

  pub upload_round-InStep :
      (before : List (Option Partition)) (r : Round) (u : Upload) (d : Device)
      → InStep q before u d
      → InStep q before (upload_round r u).0 (deliver p (upload_round r u).1 d)
  unfolding upload_round
  upload_round-InStep before r u d s = ground (arith, send_chunk-InStep before r u d)

  pub rounds-InStep :
      (before : List (Option Partition)) (rs : List Round) (u : Upload) (d : Device)
      → InStep q before u d
      → InStep q before (rounds p rs u d).0 (rounds p rs u d).1
  unfolding rounds
  rounds-InStep before [] u d s = s
  rounds-InStep before (r ∷ rs) u d s =
      rounds-InStep before rs (upload_round r u).0 (deliver p (upload_round r u).1 d)
        (upload_round-InStep before r u d s)

  pub upload_round_keeps :
      (r : Round) (u : Upload)
      → ((upload_round r u).0.image ≡ u.image) × ((upload_round r u).0.transfer_id ≡ u.transfer_id)
  unfolding upload_round send_chunk
  upload_round_keeps r u = ground arith

  rounds_keep :
      (rs : List Round) (u : Upload) (d : Device)
      → ((rounds p rs u d).0.image ≡ u.image) × ((rounds p rs u d).0.transfer_id ≡ u.transfer_id)
  unfolding rounds
  rounds_keep [] u d = (refl, refl)
  rounds_keep (r ∷ rs) u d = ground (
    arith,
    rounds_keep rs (upload_round r u).0 (deliver p (upload_round r u).1 d),
    upload_round_keeps r u,
  )

  -- After any rounds, cancelled, delayed or failing ones included, the stick's flash holds the first
  -- `offset` bytes of the image.
  after_rounds :
      (before : List (Option Partition)) (rs : List Round) (u : Upload) (d : Device)
      → InStep q before u d
      → Holds u.transfer_id
          (length u.image)
          (take (rounds p rs u d).0.offset u.image)
          (rounds p rs u d).1
  after_rounds before rs u d s =
      let (i, t) = rounds_keep rs u d in
      subst
        (λ (x : Bytes).
          Holds u.transfer_id (length x) (take (rounds p rs u d).0.offset x) (rounds p rs u d).1)
        i
        (subst
          (λ (x : ℕ).
            Holds x (length (rounds p rs u d).0.image)
              (take (rounds p rs u d).0.offset (rounds p rs u d).0.image) (rounds p rs u d).1)
          t ((rounds-InStep before rs u d s).holds))

abbrev pub fresh : ℕ → Bytes → ℕ → Bool → Upload
fresh transfer_id image max_pdu without_response = record {
  transfer_id = transfer_id;
  image = image;
  chunk = chunk_size max_pdu;
  write_without_response = without_response;
  offset = 0;
  phase = sending;
}

pub chunk_size-lower : (max_pdu : ℕ) → 20 ≤ chunk_size max_pdu
unfolding chunk_size
chunk_size-lower max_pdu = omega arith

-- After the begin message the loop is in step with the stick.
pub begin-InStep :
    (p : Platform) (q : Partition) (transfer_id max_pdu : ℕ) (image : Bytes)
    (without_response : Bool) (d : Device)
    → IsWilling p q
    → transfer_id < 2 ^ 32
    → 0 < length image
    → length image ≤ q.size
    → length image < 2 ^ 31
    → InStep q
        (boots d.log)
        (fresh transfer_id image max_pdu without_response)
        (ota_access_cb p true (ota_begin_payload (length image) transfer_id) d).0
begin-InStep p q transfer_id max_pdu image without_response d w t z s b = record {
  transfer = t;
  small = b;
  within = omega arith;
  positive = omega (arith, chunk_size-lower max_pdu);
  holds = begin_message p q w transfer_id (length image) d t z s (omega arith);
  aimed = begin-IsAimed p q w transfer_id (length image) d t z s (omega arith);
}

-- Where the stick's platform fails at nothing, for an image of at least one byte that fits the
-- partition and is smaller than 2 GiB: after the begin message and any rounds of the desktop's
-- loop, the flash holds exactly the bytes sent so far and the stick has not restarted; and once all
-- are sent, the end message succeeds, ends the transfer, and leaves the whole image in the flash and
-- one restart, into the partition of the transfer.
pub update_installs :
    (p : Platform) (q : Partition) (transfer_id max_pdu : ℕ) (image : Bytes)
    (without_response : Bool) (rs : List Round) (d : Device)
    → IsWilling p q
    → transfer_id < 2 ^ 32
    → 0 < length image
    → length image ≤ q.size
    → length image < 2 ^ 31
    → let d1 = (ota_access_cb p true (ota_begin_payload (length image) transfer_id) d).0 in
      let r = rounds p rs (fresh transfer_id image max_pdu without_response) d1 in
      let e = ota_access_cb p true (ota_end_payload transfer_id (length image)) r.1 in
      (flashed r.1.log ≡ take r.0.offset image)
      × (boots r.1.log ≡ boots d.log)
      × (r.0.offset ≡ length image
          → (boots e.0.log ≡ some q ∷ boots d.log)
            × (flashed e.0.log ≡ image)
            × (e.1 ≡ success)
            × (e.0.ota.active ≡ false))
update_installs p q transfer_id max_pdu image without_response rs d w t z s b =
    let u = fresh transfer_id image max_pdu without_response in
    let d1 = (ota_access_cb p true (ota_begin_payload (length image) transfer_id) d).0 in
    let start = begin-InStep p q transfer_id max_pdu image without_response d w t z s b in
    let h = after_rounds p q w (boots d.log) rs u d1 start in
    let aimed = (rounds-InStep p q w (boots d.log) rs u d1 start).aimed in
    (
      h.flash,
      aimed.booted,
      λ all.
          let whole =
            subst (λ (x : Bytes). Holds transfer_id (length image) x (rounds p rs u d1).1)
              (ap (λ (k : ℕ). take k image) all ∙ take_all (length image) image (omega arith)) h in
          let (restarted, flash, answer, inactive) =
            end_message p q w transfer_id image (rounds p rs u d1).1 whole t (omega arith) in
          (
            end-boots p q w transfer_id image (rounds p rs u d1).1 whole t (omega arith)
                  aimed.target
                ∙ ap (◌∷◌ (some q)) aimed.booted,
            flash,
            answer,
            inactive,
          ),
    )
