-- ===== src/AppConfig/Pairing.antt =====
-- The paired devices of the settings, through any saves and removals.
use voicestick.Prelude.{
  ◌≡◌, true, false, List, [], ◌∷◌, ◌++◌, arith, refl, ap, ◌∙◌, Bool-cases, inl, inr,
}
use voicestick.Prelude.Texts.{Text, text_eq, text_eq→eq}
use voicestick.AppConfig.{
  Pairings, PairedDeviceEntry, member, with_id, replace_entry, save_entry, save_paired_device,
  save_paired_device_info, remove_paired_device, without_entry, without_id,
}
use voicestick.AppConfig.Laws.{
  AreDistinct, AreListed, with_id-member, with_id-distinct, with_id-listed,
}

listed-snoc :
    (es : List PairedDeviceEntry) (ids : List Text) (e : PairedDeviceEntry)
    → AreListed es ids
    → member e.device_id ids ≡ true
    → AreListed (es ++ (e ∷ [])) ids
unfolding AreListed
listed-snoc [] ids e h m = (m, tt)
listed-snoc (d ∷ es) ids e h m = (h.0, listed-snoc es ids e h.1 m)

module _ (id : Text) (f : PairedDeviceEntry → PairedDeviceEntry)
    (same : (e : PairedDeviceEntry) → e.device_id ≡ id → (f e).device_id ≡ id) where
  replace-listed :
      (es : List PairedDeviceEntry) (ids : List Text)
      → member id ids ≡ true
      → AreListed es ids
      → AreListed (replace_entry id f es).0 ids
  unfolding AreListed replace_entry
  replace-listed [] ids m h = tt
  replace-listed (e ∷ es) ids m h = elim (Bool-cases (text_eq e.device_id id)) [
    | inl found ↦
        rw found
          (ap (λ (t : Text). member t ids) (same e (text_eq→eq e.device_id id found)) ∙ m, h.1)
    | inr other ↦ rw other (h.0, replace-listed es ids m h.1)
  ]

-- No device is paired twice, and every entry's device is paired.
pub record IsPaired (p : Pairings) : Type 0 where
  pub distinct : AreDistinct p.paired_device_ids
  pub listed : AreListed p.paired_devices p.paired_device_ids

save-IsPaired :
    (id : Text) (f : PairedDeviceEntry → PairedDeviceEntry) (fresh : PairedDeviceEntry)
    (p : Pairings)
    → ((e : PairedDeviceEntry) → e.device_id ≡ id → (f e).device_id ≡ id)
    → fresh.device_id ≡ id
    → IsPaired p
    → IsPaired (save_entry id f fresh p)
unfolding save_entry
save-IsPaired id f fresh p same named v =
    let ids = with_id id p.paired_device_ids in
    let before = with_id-listed id p.paired_device_ids p.paired_devices v.listed in
    let known = with_id-member id p.paired_device_ids in
    record {
      distinct = with_id-distinct id p.paired_device_ids v.distinct;
      listed = ground (
        arith,
        replace-listed id f same p.paired_devices ids known before,
        listed-snoc p.paired_devices ids fresh before
            (ap (λ (t : Text). member t ids) named ∙ known),
      );
    }

without-member :
    (x id : Text) (ids : List Text) → member x ids ≡ false → member x (without_id id ids) ≡ false
unfolding member without_id
without-member x id [] h = refl
without-member x id (i ∷ ids) h = ground (arith, without-member x id ids)

without-distinct : (id : Text) (ids : List Text) → AreDistinct ids → AreDistinct (without_id id ids)
unfolding AreDistinct without_id
without-distinct id [] h = tt
without-distinct id (i ∷ ids) h =
    ground (arith, without-distinct id ids h.1, without-member i id ids h.0)

without-keeps :
    (x id : Text) (ids : List Text)
    → member x ids ≡ true
    → text_eq x id ≡ false
    → member x (without_id id ids) ≡ true
unfolding member without_id
without-keeps x id [] h e = cc
without-keeps x id (i ∷ ids) h e =
    ground (arith, without-keeps x id ids, text_eq→eq i x, ap (λ (t : Text). text_eq t id))

without-listed :
    (id : Text) (es : List PairedDeviceEntry) (ids : List Text)
    → AreListed es ids
    → AreListed (without_entry id es) (without_id id ids)
unfolding AreListed without_entry
without-listed id [] ids h = tt
without-listed id (e ∷ es) ids h =
    ground (arith, without-listed id es ids h.1, without-keeps e.device_id id ids h.0)

gone : (id : Text) (ids : List Text) → member id (without_id id ids) ≡ false
unfolding member without_id
gone id [] = refl
gone id (i ∷ ids) = ground (arith, gone id ids)

pub data PairingMove : Type 0 where
  save : PairedDeviceEntry → PairingMove
  save_info : Text → Text → Text → PairingMove
  remove : Text → PairingMove

unfoldable pub pairing_move : PairingMove → Pairings → Pairings
pairing_move (save entry) p = save_paired_device entry p
pairing_move (save_info id hardware version) p = save_paired_device_info id hardware version p
pairing_move (remove id) p = remove_paired_device id p

unfoldable pub pairing_moves : List PairingMove → Pairings → Pairings
pairing_moves [] p = p
pairing_moves (m ∷ ms) p = pairing_moves ms (pairing_move m p)

move-IsPaired : (m : PairingMove) (p : Pairings) → IsPaired p → IsPaired (pairing_move m p)
unfolding pairing_move save_paired_device save_paired_device_info remove_paired_device
move-IsPaired (save entry) p v =
    save-IsPaired entry.device_id (λ e. entry) entry p (λ e h. refl) refl v
move-IsPaired (save_info id hardware version) p v = save-IsPaired id _ _ p (λ e h. h) refl v
move-IsPaired (remove id) p v = record {
  distinct = without-distinct id p.paired_device_ids v.distinct;
  listed = without-listed id p.paired_devices p.paired_device_ids v.listed;
}

moves-IsPaired : (ms : List PairingMove) (p : Pairings) → IsPaired p → IsPaired (pairing_moves ms p)
unfolding pairing_moves
moves-IsPaired [] p v = v
moves-IsPaired (m ∷ ms) p v = moves-IsPaired ms (pairing_move m p) (move-IsPaired m p v)

abbrev pub no_pairings : Pairings
no_pairings = record { paired_device_ids = []; paired_devices = [] }

-- After any saves and removals from no pairings: no device is paired twice, and the device of every
-- entry is paired; and once a device is removed it is paired no more.
pub pairing_moves-IsPaired :
    (ms : List PairingMove) (id : Text)
    → let p = pairing_moves ms no_pairings in
      IsPaired p × (member id (remove_paired_device id p).paired_device_ids ≡ false)
unfolding remove_paired_device AreDistinct AreListed
pairing_moves-IsPaired ms id = (
  moves-IsPaired ms no_pairings (record { distinct = tt; listed = tt }),
  gone id (pairing_moves ms no_pairings).paired_device_ids,
)
