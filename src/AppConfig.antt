-- ===== src/AppConfig.antt =====
-- desktop/windows/src/app_config.h and app_config.cc: how settings are written and read. The TOML
-- reader and the file system are not modelled. A map is a list of pairs in the order of its keys.
pub mod Laws
pub mod Pairing
use voicestick.Prelude.{
  ℕ, zero, suc, ◌+◌, ◌-◌, ◌==◌, leb, Bool, true, false, not, ◌&&◌, ◌||◌, List, [], ◌∷◌, ◌++◌,
  Option, none, some, length, if◌then◌else◌,
}
use voicestick.Prelude.Texts.{Text, text, text_eq, is_empty}
use voicestick.BleProtocol.{trim, normalize_device_id}
use voicestick.Firmware.{to_lower, split_first}
use voicestick.Coordinator.State.{InteractionMode, OutputTarget, TextTransform, OutputProfile}

pub data AsrProvider : Type 0 where
  voicestick_cloud volcengine : AsrProvider

pub data OverlayThemeColor : Type 0 where
  white pink green yellow blue purple : OverlayThemeColor

pub data OverlayPosition : Type 0 where
  center top_left top_right bottom_left bottom_right : OverlayPosition

unfoldable pub asr_provider_name : AsrProvider → Text
asr_provider_name voicestick_cloud = text "voicestick_cloud"
asr_provider_name volcengine = text "volcengine"

unfoldable pub asr_provider_from_name : Text → AsrProvider
asr_provider_from_name name =
    if text_eq name (text "voicestick_cloud") then voicestick_cloud else volcengine

unfoldable pub interaction_mode_name : InteractionMode → Text
interaction_mode_name InteractionMode.click_to_talk = text "click_to_talk"
interaction_mode_name InteractionMode.hold_to_talk = text "hold_to_talk"

unfoldable pub interaction_mode_from_name : Text → InteractionMode
interaction_mode_from_name name =
    if text_eq name (text "click_to_talk")
    then InteractionMode.click_to_talk
    else InteractionMode.hold_to_talk

unfoldable pub overlay_theme_color_name : OverlayThemeColor → Text
overlay_theme_color_name pink = text "pink"
overlay_theme_color_name green = text "green"
overlay_theme_color_name yellow = text "yellow"
overlay_theme_color_name blue = text "blue"
overlay_theme_color_name purple = text "purple"
overlay_theme_color_name white = text "white"

unfoldable pub overlay_theme_color_from_name : Text → OverlayThemeColor
overlay_theme_color_from_name name =
    if text_eq name (text "pink")
    then pink
    else if text_eq name (text "green")
    then green
    else if text_eq name (text "yellow")
    then yellow
    else if text_eq name (text "blue")
    then blue
    else if text_eq name (text "purple")
    then purple
    else white

unfoldable pub overlay_position_name : OverlayPosition → Text
overlay_position_name top_left = text "top_left"
overlay_position_name top_right = text "top_right"
overlay_position_name bottom_left = text "bottom_left"
overlay_position_name bottom_right = text "bottom_right"
overlay_position_name center = text "center"

unfoldable pub overlay_position_from_name : Text → OverlayPosition
overlay_position_from_name name =
    if text_eq name (text "top_left")
    then top_left
    else if text_eq name (text "top_right")
    then top_right
    else if text_eq name (text "bottom_left")
    then bottom_left
    else if text_eq name (text "bottom_right")
    then bottom_right
    else center

unfoldable pub output_target_name : OutputTarget → Text
output_target_name OutputTarget.subtitle = text "subtitle"
output_target_name OutputTarget.focused_app = text "focused_app"

unfoldable pub output_target_from_name : Text → OutputTarget
output_target_from_name name =
    if text_eq name (text "subtitle") then OutputTarget.subtitle else OutputTarget.focused_app

unfoldable pub text_transform_name : TextTransform → Text
text_transform_name TextTransform.translate = text "translate"
text_transform_name TextTransform.original = text "original"

unfoldable pub text_transform_from_name : Text → TextTransform
text_transform_from_name name =
    if text_eq name (text "translate") then TextTransform.translate else TextTransform.original

unfoldable pub toml_escape : Text → Text
toml_escape [] = []
toml_escape (ch ∷ s) =
    let rest = ch ∷ toml_escape s in if ch == 92 || ch == 34 then 92 ∷ rest else rest

-- The loop of `Unquote`.
unfoldable pub unescaped : (escaped : Bool) → Text → Text
unescaped escaped [] = []
unescaped true (ch ∷ s) = ch ∷ unescaped false s
unescaped false (ch ∷ s) =
    let in_escape = unescaped true s in
    let more = ch ∷ unescaped false s in if ch == 92 then in_escape else more

unfoldable pub ends_in_quote : Text → Bool
ends_in_quote [] = false
ends_in_quote (c ∷ []) = c == 34
ends_in_quote (c ∷ d ∷ s) = ends_in_quote (d ∷ s)

unfoldable pub without_last : Text → Text
without_last [] = []
without_last (c ∷ []) = []
without_last (c ∷ d ∷ s) = c ∷ without_last (d ∷ s)

-- A value in quotes of at least two characters loses them.
unfoldable pub inner : Text → Text
inner [] = []
inner (c ∷ []) = c ∷ []
inner (c ∷ d ∷ s) = if c == 34 && ends_in_quote (d ∷ s) then without_last (d ∷ s) else c ∷ d ∷ s

unfoldable pub unquote : Text → Text
unquote value = unescaped false (inner (trim value))

unfoldable pub lower : Text → Text
lower [] = []
lower (c ∷ s) = to_lower c ∷ lower s

unfoldable pub bool_value : Text → Bool → Bool
bool_value value fallback =
    let l = lower value in
    if text_eq l (text "true")
      || text_eq l (text "yes")
      || text_eq l (text "1")
      || text_eq l (text "on")
    then true
    else if text_eq l (text "false")
        || text_eq l (text "no")
        || text_eq l (text "0")
        || text_eq l (text "off")
    then false
    else fallback

unfoldable pub member : Text → List Text → Bool
member x [] = false
member x (y ∷ ys) = let rest = member x ys in if text_eq y x then true else rest

-- The parts of a text at the commas; a text has one at least.
unfoldable pub parts_from : (part : Text) → Text → List Text
parts_from part [] = part ∷ []
parts_from part (c ∷ s) =
    let rest = parts_from [] s in
    let more = parts_from (part ++ (c ∷ [])) s in if c == b',' then part ∷ rest else more

unfoldable pub split_commas : Text → List Text
split_commas s = parts_from [] s

-- The loop of `ParseDeviceIdList` over the parts that are left.
unfoldable pub add_ids : List Text → (ids : List Text) → List Text
add_ids [] ids = ids
add_ids (part ∷ parts) ids =
    let id = normalize_device_id part in
    let added = add_ids parts (ids ++ (id ∷ [])) in
    let skipped = add_ids parts ids in
    if not (is_empty id) && not (member id ids) then added else skipped

unfoldable pub parse_device_id_list : Text → List Text
parse_device_id_list s = add_ids (split_commas s) []

-- The same at commas and line ends.
unfoldable pub word_parts : (part : Text) → Text → List Text
word_parts part [] = part ∷ []
word_parts part (c ∷ s) =
    let rest = word_parts [] s in
    let more = word_parts (part ++ (c ∷ [])) s in
    if c == b',' || c == 13 || c == 10 then part ∷ rest else more

unfoldable pub add_words : List Text → (words : List Text) → List Text
add_words [] words = words
add_words (part ∷ parts) words =
    let word = trim part in
    let added = add_words parts (words ++ (word ∷ [])) in
    let skipped = add_words parts words in
    if not (is_empty word) && not (member word words) then added else skipped

unfoldable pub parse_hotword_list : Text → List Text
parse_hotword_list s = add_words (word_parts [] s) []

-- `result[key] = value`
unfoldable pub put {ℓ} : {A : Type ℓ} → Text → A → List (Text × A) → List (Text × A)
put key value [] = (key, value) ∷ []
put key value ((k, v) ∷ m) =
    let rest = put key value m in if text_eq k key then (k, value) ∷ m else (k, v) ∷ rest

unfoldable pub add_values {ℓ} :
    {A : Type ℓ} → (Text → A) → List Text → List (Text × A) → List (Text × A)
add_values parse_value [] result = result
add_values parse_value (part ∷ parts) result =
    let (before, behind) = split_first b':' part in
    let skipped = add_values parse_value parts result in
    elim behind [
      | none ↦ skipped
      | some rest ↦
          let device_id = normalize_device_id before in
          let value = lower (trim rest) in
          let added = add_values parse_value parts (put device_id (parse_value value) result) in
          if length device_id == 4 && not (is_empty value) then added else skipped
    ]

unfoldable pub parse_device_value_map {ℓ} : {A : Type ℓ} → (Text → A) → Text → List (Text × A)
parse_device_value_map parse_value s = add_values parse_value (split_commas s) []

pub data BluetoothAddressKind : Type 0 where
  unspecified public random : BluetoothAddressKind

pub record PairedDeviceEntry : Type 0 where
  pub device_id : Text
  pub bluetooth_address : ℕ  -- uint64
  pub address_kind : BluetoothAddressKind
  pub name : Text
  pub hardware : Text
  pub firmware_version : Text

-- What the paired devices of `AppConfig` are.
pub record Pairings : Type 0 where
  pub paired_device_ids : List Text
  pub paired_devices : List PairedDeviceEntry

-- The loop that replaces the first entry of the device; whether it has found one.
unfoldable pub replace_entry :
    Text
    → (PairedDeviceEntry → PairedDeviceEntry)
    → List PairedDeviceEntry
    → List PairedDeviceEntry × Bool
replace_entry device_id f [] = ([], false)
replace_entry device_id f (e ∷ es) =
    let (rest, found) = replace_entry device_id f es in
    if text_eq e.device_id device_id then (f e ∷ es, true) else (e ∷ rest, found)

unfoldable pub with_id : Text → List Text → List Text
with_id id ids = if member id ids then ids else ids ++ (id ∷ [])

unfoldable pub save_entry :
    Text → (PairedDeviceEntry → PairedDeviceEntry) → PairedDeviceEntry → Pairings → Pairings
save_entry device_id change fresh p =
    let (entries, found) = replace_entry device_id change p.paired_devices in
    record {
      paired_device_ids = with_id device_id p.paired_device_ids;
      paired_devices = if found then entries else p.paired_devices ++ (fresh ∷ []);
    }

unfoldable pub save_paired_device : PairedDeviceEntry → Pairings → Pairings
save_paired_device entry p = save_entry entry.device_id (λ e. entry) entry p

unfoldable pub save_paired_device_info :
    (device_id hardware firmware_version : Text) → Pairings → Pairings
save_paired_device_info device_id hardware firmware_version p =
    save_entry device_id
      (λ e. record e {
        hardware = if is_empty hardware then e.hardware else hardware;
        firmware_version =
            if is_empty firmware_version then e.firmware_version else firmware_version;
      })
      (record {
        device_id = device_id;
        bluetooth_address = 0;
        address_kind = unspecified;
        name = [];
        hardware = hardware;
        firmware_version = firmware_version;
      })
      p

unfoldable pub without_entry : Text → List PairedDeviceEntry → List PairedDeviceEntry
without_entry device_id [] = []
without_entry device_id (e ∷ es) =
    let rest = without_entry device_id es in
    if text_eq e.device_id device_id then rest else e ∷ rest

unfoldable pub without_id : Text → List Text → List Text
without_id id [] = []
without_id id (i ∷ ids) = let rest = without_id id ids in if text_eq i id then rest else i ∷ rest

-- `RemovePairedDevice` without its last lines, which erase the device from the three maps of colours,
-- positions and profiles and write the settings file.
unfoldable pub remove_paired_device : Text → Pairings → Pairings
remove_paired_device device_id p = record {
  paired_device_ids = without_id device_id p.paired_device_ids;
  paired_devices = without_entry device_id p.paired_devices;
}
