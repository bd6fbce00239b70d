-- ===== src/Firmware/Download.antt =====
-- What a firmware image has passed before it is sent to a stick.
use voicestick.Prelude.{◌<◌, ◌≡◌, Option, some, arith, length, Option-cases, inl, inr, ◌^◌}
use voicestick.Prelude.Texts.{Bytes, Text, text, text_eq→eq}
use voicestick.Firmware.{
  Value, FirmwareManifest, manifest_of, u32_value, parse_firmware_manifest, fetch_manifest_sync,
  download_ota_sync, with_fields,
}

u32_value-lt : (v : Value) → u32_value v < 2 ^ 32
unfolding u32_value
u32_value-lt (Value.string s) = omega arith
u32_value-lt (Value.number whole has_fraction) = ground arith
u32_value-lt Value.other = omega arith

-- An image that is handed on has the size and the digest of the manifest.
download-checked :
    (sha256_hex : Bytes → Text) (download : Text → Text × Text) (m : FirmwareManifest)
    (image : Bytes)
    → (download_ota_sync sha256_hex download m).0 ≡ some image
    → (length image ≡ m.ota_size) × (sha256_hex image ≡ m.ota_sha256)
unfolding download_ota_sync
download-checked sha256_hex download m image h =
    ground (arith, text_eq→eq (sha256_hex (download m.ota_url).0) m.ota_sha256)

fields-checked :
    (fields m : FirmwareManifest)
    → fields.ota_size < 2 ^ 32
    → with_fields fields ≡ some m
    → (0 < m.ota_size) × (m.ota_size < 2 ^ 32)
unfolding with_fields
fields-checked fields m small h = ground arith

manifest-checked :
    (parse : Text → Option (Text → Value)) (json : Text) (m : FirmwareManifest)
    → parse_firmware_manifest parse json ≡ some m
    → (0 < m.ota_size) × (m.ota_size < 2 ^ 32)
unfolding parse_firmware_manifest manifest_of
manifest-checked parse json m h = elim (Option-cases (parse json)) [
  | inl e ↦ absurd (ground (arith, e))
  | inr (root, e) ↦
      fields-checked (manifest_of root) m (u32_value-lt (root (text "ota_size")))
        (ground (arith, e))
]

-- Whatever the server sends, cJSON reads and SHA-256 computes: an image that is downloaded by a
-- manifest that was fetched has the size and the digest that the manifest names, and the size is not
-- 0 and is a uint32.
pub download_ota_sync-checked :
    (parse : Text → Option (Text → Value)) (sha256_hex : Bytes → Text)
    (download : Text → Text × Text) (manifest_url : Text) (m : FirmwareManifest) (image : Bytes)
    → (fetch_manifest_sync parse download manifest_url).0 ≡ some m
    → (download_ota_sync sha256_hex download m).0 ≡ some image
    → (length image ≡ m.ota_size)
      × (sha256_hex image ≡ m.ota_sha256)
      × (0 < length image)
      × (length image < 2 ^ 32)
unfolding fetch_manifest_sync
download_ota_sync-checked parse sha256_hex download manifest_url m image f d =
    let checked = download-checked sha256_hex download m image d in
    elim (Option-cases (parse_firmware_manifest parse (download manifest_url).0)) [
      | inl e ↦ absurd (ground (arith, e))
      | inr (found, e) ↦
          let same : parse_firmware_manifest parse (download manifest_url).0 ≡ some m =
            ground (arith, e) in
          let named = manifest-checked parse (download manifest_url).0 m same in
          (
            checked.0,
            checked.1,
            omega (arith, checked.0, named.0),
            omega (arith, checked.0, named.1),
          )
    ]
