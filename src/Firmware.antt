-- ===== src/Firmware.antt =====
-- desktop/windows/src/firmware_manifest.h and firmware_manifest.cc: versions, the manifest and the
-- download of a firmware image. WinHTTP, cJSON and SHA-256 are parameters.
pub mod Order
pub mod Download
use voicestick.Prelude.{
  ℕ, ◌^◌, ◌==◌, ltb, Bool, true, false, not, ◌&&◌, ◌||◌, List, [], ◌∷◌, Option, none, some, length,
  if◌then◌else◌, ◌++◌, leb, ◌+◌,
}
use voicestick.Prelude.Texts.{Bytes, Text, text, text_eq, is_empty}
use voicestick.BleProtocol.{trim, is_digit, decimal_value}

-- `ParsedVersion`
pub record Version : Type 0 where
  pub numbers : List ℕ
  pub suffix : Text
  pub has_suffix : Bool

-- What is in front of the first `c`, and what is behind it, if it occurs.
unfoldable pub split_first : ℕ → Text → Text × Option Text
split_first c [] = ([], none)
split_first c (d ∷ s) =
    let (before, behind) = split_first c s in if d == c then ([], some s) else (d ∷ before, behind)

unfoldable pub are_digits : Text → Bool
are_digits [] = true
are_digits (c ∷ s) = is_digit c && are_digits s

-- `std::from_chars` of a whole part into an int. A part holds no minus, which ends the numbers.
unfoldable pub part_value : Text → Option ℕ
part_value part =
    if is_empty part || not (are_digits part)
    then none
    else if ltb (decimal_value 0 part) (2 ^ 31)
    then some (decimal_value 0 part)
    else none

unfoldable pub put_first : Option ℕ → Option (List ℕ) → Option (List ℕ)
put_first (some n) (some ns) = some (n ∷ ns)
put_first _ _ = none

-- The loop over the parts between the dots: `part` is what has been read of the part.
unfoldable pub version_numbers : (part : Text) → Text → Option (List ℕ)
version_numbers part [] = put_first (part_value part) (some [])
version_numbers part (c ∷ s) =
    let rest = version_numbers [] s in
    let more = version_numbers (part ++ (c ∷ [])) s in
    if c == b'.' then put_first (part_value part) rest else more

unfoldable pub with_suffix : Option Text → List ℕ → Version
with_suffix none numbers = record { numbers = numbers; suffix = []; has_suffix = false }
with_suffix (some suffix) numbers = record { numbers = numbers; suffix = suffix; has_suffix = true }

unfoldable pub parse_version : Text → Option Version
parse_version label =
    let trimmed = trim label in
    if is_empty trimmed
    then none
    else let (number_text, suffix) = split_first b'-' trimmed in
      elim (version_numbers [] number_text) [
        | none ↦ none
        | some numbers ↦ some (with_suffix suffix numbers)
      ]

-- The loop over the numbers, a missing one counts as 0: the answer at the first difference.
unfoldable pub numbers_less : List ℕ → List ℕ → Option Bool
numbers_less [] [] = none
numbers_less [] (r ∷ rs) = let rest = numbers_less [] rs in if r == 0 then rest else some true
numbers_less (l ∷ ls) [] = let rest = numbers_less ls [] in if l == 0 then rest else some false
numbers_less (l ∷ ls) (r ∷ rs) =
    let rest = numbers_less ls rs in if l == r then rest else some (ltb l r)

-- `operator<` of `std::string`
unfoldable pub text_less : Text → Text → Bool
text_less s [] = false
text_less [] (b ∷ t) = true
text_less (a ∷ s) (b ∷ t) = let rest = text_less s t in if a == b then rest else ltb a b

unfoldable pub suffix_less : Version → Version → Bool
suffix_less left right =
    if left.has_suffix && not right.has_suffix
    then true
    else if not left.has_suffix && right.has_suffix
    then false
    else if left.has_suffix && right.has_suffix
    then text_less left.suffix right.suffix
    else false

unfoldable pub version_less : Version → Version → Bool
version_less left right = elim (numbers_less left.numbers right.numbers) [
  | some answer ↦ answer
  | none ↦ suffix_less left right
]

-- A version that cannot be read is neither older nor newer.
unfoldable pub parsed_less : Option Version → Option Version → Bool
parsed_less (some current) (some latest) = version_less current latest
parsed_less _ _ = false

unfoldable pub is_older_than : Text → Text → Bool
is_older_than current latest = parsed_less (parse_version current) (parse_version latest)

unfoldable pub is_alnum : ℕ → Bool
is_alnum c = is_digit c || (leb b'A' c && leb c b'Z') || (leb b'a' c && leb c b'z')

unfoldable pub to_lower : ℕ → ℕ
to_lower c = if leb b'A' c && leb c b'Z' then c + 32 else c

unfoldable pub normalized_hardware_name : Text → Text
normalized_hardware_name [] = []
normalized_hardware_name (c ∷ s) =
    let rest = normalized_hardware_name s in if is_alnum c then to_lower c ∷ rest else rest

unfoldable pub is_firmware_hardware_compatible : (device_hardware manifest_hardware : Text) → Bool
is_firmware_hardware_compatible device_hardware manifest_hardware =
    if is_empty device_hardware
    then true
    else text_eq (normalized_hardware_name device_hardware)
        (normalized_hardware_name manifest_hardware)

-- What cJSON finds under a key: a string, a number that is not negative, by its whole part and
-- whether it has a fraction, or anything else.
pub data Value : Type 0 where
  string : Text → Value
  number : (whole : ℕ) → (has_fraction : Bool) → Value
  other : Value

unfoldable pub string_value : Value → Text
string_value (string s) = s
string_value _ = []

unfoldable pub u32_value : Value → ℕ
u32_value (number whole has_fraction) =
    if ltb 4294967295 whole || (whole == 4294967295 && has_fraction) then 0 else whole
u32_value _ = 0

pub record FirmwareManifest : Type 0 where
  pub hardware : Text
  pub version : Text
  pub ota_url : Text
  pub ota_sha256 : Text
  pub ota_size : ℕ  -- uint32
  pub merged_url : Text
  pub merged_sha256 : Text
  pub merged_size : ℕ  -- uint32

unfoldable pub manifest_of : (Text → Value) → FirmwareManifest
manifest_of root = record {
  hardware = string_value (root (text "hardware"));
  version = string_value (root (text "version"));
  ota_url = string_value (root (text "ota_url"));
  ota_sha256 = string_value (root (text "ota_sha256"));
  ota_size = u32_value (root (text "ota_size"));
  merged_url = string_value (root (text "merged_url"));
  merged_sha256 = string_value (root (text "merged_sha256"));
  merged_size = u32_value (root (text "merged_size"));
}

unfoldable pub with_fields : FirmwareManifest → Option FirmwareManifest
with_fields m =
    if is_empty m.hardware
      || is_empty m.version
      || is_empty m.ota_url
      || is_empty m.ota_sha256
      || m.ota_size == 0
    then none
    else some m

-- `cJSON_Parse` is a parameter.
unfoldable pub parse_firmware_manifest :
    (Text → Option (Text → Value)) → Text → Option FirmwareManifest
parse_firmware_manifest parse json = elim (parse json) [
  | none ↦ none
  | some root ↦ with_fields (manifest_of root)
]

-- `DownloadText` is a parameter: what is at a URL, and an error, empty where there is none.
unfoldable pub fetch_manifest_sync :
    (Text → Option (Text → Value)) → (Text → Text × Text) → Text → Option FirmwareManifest × Text
fetch_manifest_sync parse download manifest_url =
    let (body, error) = download manifest_url in
    if not (is_empty error) then (none, error) else elim (parse_firmware_manifest parse body) [
      | none ↦ (none, text "Firmware update server returned an invalid manifest.")
      | some m ↦ (some m, error)
    ]

-- `Sha256Hex` is a parameter, empty where it fails.
unfoldable pub download_ota_sync :
    (Bytes → Text) → (Text → Text × Text) → FirmwareManifest → Option Bytes × Text
download_ota_sync sha256_hex download manifest =
    let (image, error) = download manifest.ota_url in
    if not (is_empty error)
    then (none, error)
    else if not (length image == manifest.ota_size)
    then (none, text "Firmware size did not match the manifest.")
    else if is_empty (sha256_hex image) || not (text_eq (sha256_hex image) manifest.ota_sha256)
    then (none, text "Firmware checksum did not match the manifest.")
    else (some image, error)
