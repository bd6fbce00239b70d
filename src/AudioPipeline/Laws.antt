-- ===== src/AudioPipeline/Laws.antt =====
-- The profile of the stick's audio, and what it lets a bundle hold.
use voicestick.Prelude.{
  if◌then◌else◌, ◌||◌, ℕ, zero, suc, ◌+◌, ◌-◌, ◌*◌, ◌≤◌, ◌<◌, ◌≡◌, ◌⊎◌, inl, inr, ltb, Bool, true,
  false, List, some, length, arith, refl, ap,
}
use voicestick.Prelude.Texts.{Bytes}
use voicestick.AudioTransport.{Packet, ok, encode, v2_packet_budget, att_payload_capacity}
use voicestick.AudioTransport.Packets.{AreBacked, AreContiguous, total_len}
use voicestick.AudioTransport.Bounds.{
  AreWithin, total_len-le, AreWithin-AreShort, att_payload_capacity-le, budget_fits, length-encode,
}
use voicestick.AudioTransport.Decode.{unbundle-encode}
use voicestick.AudioPipeline.{
  Profile, choose_profile, configure_transport_profile, bitrate_of, v1_profile, u16,
}

-- A profile of version 2 that keeps to a connection.
pub record IsFitting (mtu : ℕ) (p : Profile) : Type 0 where
  pub version : p.version ≡ 2
  pub bundle : (2 ≤ p.bundle_size) × (p.bundle_size ≤ 4)
  pub budget : p.packet_budget ≡ v2_packet_budget mtu p.bundle_size
  pub byte : (2 ≤ p.packet_budget) × (p.packet_budget ≤ 255)
  pub bitrate : (7000 ≤ p.opus_bitrate) × (p.opus_bitrate ≤ 12000)
  pub speech : p.opus_bitrate * 60 ≤ (p.packet_budget - 1) * 8 * 1000
  pub window : p.max_inflight_frames ≡ 2 * p.bundle_size

-- The profile of version 1, or one that keeps to the connection.
abbrev pub Fits : ℕ → Profile → Type 0
Fits mtu p = (p ≡ v1_profile) ⊎ IsFitting mtu p

if-Fits :
    (mtu : ℕ) (b : Bool) (p q : Profile)
    → Fits mtu p
    → (b ≡ false → Fits mtu q)
    → Fits mtu (if b then p else q)
if-Fits mtu true p q f g = f
if-Fits mtu false p q f g = g refl

chosen-IsFitting :
    (mtu bundle : ℕ)
    → ltb bundle 2 ≡ false
    → bundle ≤ 4
    → (ltb (v2_packet_budget mtu bundle) 2 || ltb 255 (v2_packet_budget mtu bundle)) ≡ false
    → ltb (bitrate_of (v2_packet_budget mtu bundle)) 7000 ≡ false
    → let budget = v2_packet_budget mtu bundle in
      IsFitting mtu (record {
        version = 2;
        bundle_size = bundle;
        packet_budget = u16 budget;
        opus_bitrate = if ltb (bitrate_of budget) 12000 then bitrate_of budget else 12000;
        max_inflight_frames = bundle * 2;
      })
unfolding bitrate_of
chosen-IsFitting mtu bundle two four byte rate = record {
  version = refl;
  bundle = (ground arith, four);
  budget = ground arith;
  byte = (ground arith, ground arith);
  bitrate = (ground arith, ground arith);
  speech = ground arith;
  window = omega arith;
}

choose-Fits : (mtu bundle : ℕ) → bundle ≤ 4 → Fits mtu (choose_profile mtu bundle)
unfolding choose_profile
choose-Fits mtu zero h = inl refl
choose-Fits mtu (suc smaller) h =
    let bundle = suc smaller in
    let budget = v2_packet_budget mtu bundle in
    let rest = choose-Fits mtu smaller (omega arith) in
    if-Fits mtu (ltb bundle 2) _ _ (inl refl) (λ two.
      if-Fits mtu (ltb budget 2 || ltb 255 budget) _ _ rest (λ byte.
        if-Fits mtu (ltb (bitrate_of budget) 7000) _ _ rest
          (λ rate. inr (chosen-IsFitting mtu bundle two h byte rate))))

-- The profile for a connection is the one of version 1, or one of version 2 with 2 to 4 packets in a
-- bundle, a budget of 2 to 255 bytes for each, a bitrate of 7000 to 12000 that the budget can carry,
-- and a window of two bundles.
pub configure_transport_profile-Fits :
    (version mtu : ℕ) → Fits mtu (configure_transport_profile version mtu).0
unfolding configure_transport_profile
configure_transport_profile-Fits version mtu = ground (arith, choose-Fits mtu 4 (omega arith))

share_le : (n m k : ℕ) → n ≤ m → n * k ≤ m * k
share_le zero m k h = omega arith
share_le (suc n) zero k h = absurd (omega arith)
share_le (suc n) (suc m) k h = omega (arith, share_le n m k (omega arith))

fitting-bundle :
    (mtu session_id first_seq : ℕ) (profile : Profile) (ps : List Packet)
    → IsFitting mtu profile
    → mtu ≤ 65535
    → length ps ≤ profile.bundle_size
    → AreWithin profile.packet_budget ps
    → AreBacked ps
    → AreContiguous first_seq 0 ps
    → (frame : Bytes) × (encode 2 session_id first_seq 0
          (some ps)
          (length ps)
          true
          (att_payload_capacity mtu)
          true
        ≡ ok frame)
      × (length frame ≤ att_payload_capacity mtu)
fitting-bundle mtu session_id first_seq profile ps f m n w b c =
    let size = profile.bundle_size in
    let budget = v2_packet_budget mtu size in
    let capacity = att_payload_capacity mtu in
    let same : budget ≡ profile.packet_budget = ground (arith, f.budget) in
    let positive : 0 < budget = omega (arith, same, f.byte.0) in
    let fit : 16 + size + size * profile.packet_budget ≤ capacity =
      rw f.budget (budget_fits mtu size positive) in
    let room : length ps + total_len ps ≤ capacity - 16 = omega (
      arith,
      fit,
      n,
      total_len-le profile.packet_budget ps w,
      share_le (length ps) size profile.packet_budget n,
    ) in
    let small : capacity ≤ 65535 = att_payload_capacity-le mtu m in
    let some_room : 16 ≤ capacity = omega (arith, budget_fits mtu size positive) in
    let (frame, e, _, _) =
      unbundle-encode session_id first_seq 0 capacity ps b
        (AreWithin-AreShort profile.packet_budget ps f.byte.1 w) c (omega (arith, n, f.bundle.1))
        (omega arith) (omega arith) in
    (
      frame,
      e,
      length-encode 2 session_id first_seq 0 (some ps) (length ps) capacity true true frame b e,
    )

-- On an MTU below 65536, with a profile of version 2 that was chosen for it: every bundle of at most
-- as many consecutive packets as the profile has in a bundle, with pointers that cover their lengths,
-- that keep to the budget of a packet, is encoded, into a frame that fits one notification.
pub configure_transport_profile-bundle :
    (version mtu session_id first_seq : ℕ) (ps : List Packet)
    → mtu ≤ 65535
    → (configure_transport_profile version mtu).0.version ≡ 2
    → length ps ≤ (configure_transport_profile version mtu).0.bundle_size
    → AreWithin (configure_transport_profile version mtu).0.packet_budget ps
    → AreBacked ps
    → AreContiguous first_seq 0 ps
    → (frame : Bytes) × (encode 2 session_id first_seq 0
          (some ps)
          (length ps)
          true
          (att_payload_capacity mtu)
          true
        ≡ ok frame)
      × (length frame ≤ att_payload_capacity mtu)
configure_transport_profile-bundle version mtu session_id first_seq ps m v n w b c =
    elim (configure_transport_profile-Fits version mtu) [
      | inl old ↦ absurd (omega (arith, v, ap (λ (p : Profile). p.version) old))
      | inr fits ↦
          fitting-bundle mtu session_id first_seq (configure_transport_profile version mtu).0 ps
            fits m n w b c
    ]
