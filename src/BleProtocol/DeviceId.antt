-- ===== src/BleProtocol/DeviceId.antt =====
-- Device names and ids in ble_protocol.cc: `VS-` and four hexadecimal digits.
use mathlib.Core.List.{reverse}
use voicestick.Prelude.{
  ℕ, ◌-◌, Bool, true, ◌&&◌, ◌||◌, ◌==◌, leb, [], ◌∷◌, Option, none, some, map, if◌then◌else◌,
  length, take,
}
use voicestick.Prelude.Texts.{Text, text}
use voicestick.BleProtocol.Json.{skip_spaces, strip_prefix}

-- White space is dropped from the front, then from the back.
unfoldable pub trim : Text → Text
trim s = reverse (skip_spaces (reverse (skip_spaces s)))

-- `std::toupper` in the C locale
unfoldable pub to_upper : ℕ → ℕ
to_upper c = if leb b'a' c && leb c b'z' then c - 32 else c

unfoldable pub uppercase : Text → Text
uppercase = map to_upper

unfoldable pub is_hex : ℕ → Bool
is_hex c = leb b'0' c && leb c b'9' || leb b'a' c && leb c b'f' || leb b'A' c && leb c b'F'

all_hex : Text → Bool
all_hex [] = true
all_hex (c ∷ s) = is_hex c && all_hex s

unfoldable pub is_hex4 : Text → Bool
unfolding all_hex
is_hex4 s = length s == 4 && all_hex s

unfoldable pub device_id_from_name : Text → Option Text
device_id_from_name name = elim (strip_prefix (text "VS-") (uppercase (trim name))) [
  | none ↦ none
  | some rest ↦ let value = take 4 rest in if is_hex4 value then some value else none
]

-- `if (value.starts_with("VS-")) value = value.substr(3);`
unfoldable pub without_prefix : Text → Text
without_prefix value = elim (strip_prefix (text "VS-") value) [ none ↦ value | some rest ↦ rest ]

unfoldable pub normalize_device_id : Text → Text
normalize_device_id s =
    let value = take 4 (without_prefix (uppercase (trim s))) in if is_hex4 value then value else []
