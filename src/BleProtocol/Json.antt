-- ===== src/BleProtocol/Json.antt =====
-- The JSON helpers of ble_protocol.cc: a search for a key, not a parser. A position in the text is
-- the rest of the text from there on.
use voicestick.Prelude.{
  ℕ, ◌+◌, ◌-◌, ◌*◌, ◌^◌, Bool, true, false, ◌&&◌, ◌||◌, ◌==◌, leb, ltb, [], ◌∷◌, ◌++◌, Option, none,
  some, if◌then◌else◌,
}
use voicestick.Prelude.Texts.{Text, is_empty}

abbrev pub backslash : ℕ
backslash = 92

abbrev pub quote : ℕ
quote = 34

-- `std::isspace` and `std::isdigit` in the C locale
unfoldable pub is_space : ℕ → Bool
is_space c = c == 32 || leb 9 c && leb c 13

unfoldable pub is_digit : ℕ → Bool
is_digit c = leb b'0' c && leb c b'9'

unfoldable pub strip_prefix : Text → Text → Option Text
strip_prefix [] s = some s
strip_prefix (n ∷ needle) [] = none
strip_prefix (n ∷ needle) (c ∷ s) = if n == c then strip_prefix needle s else none

-- `json.find(needle)`: what follows the first occurrence.
unfoldable pub after_first : Text → Text → Option Text
unfolding strip_prefix
after_first needle [] = strip_prefix needle []
after_first needle (c ∷ s) = elim (strip_prefix needle (c ∷ s)) [
  | some rest ↦ some rest
  | none ↦ after_first needle s
]

-- The `switch` on the character behind a backslash.
unfoldable pub unescape : ℕ → ℕ
unescape ch =
    if ch == b'b'
    then 8
    else if ch == b'f'
    then 12
    else if ch == b'n'
    then 10
    else if ch == b'r'
    then 13
    else if ch == b't'
    then 9
    else ch

-- The loop behind the first quote: `escaped`, `out`, what is not read yet. A string without a
-- closing quote counts as empty.
unfoldable pub scan_string : Bool → Text → Text → Text
unfolding unescape
scan_string escaped out [] = []
scan_string true out (ch ∷ s) = scan_string false (out ++ (unescape ch ∷ [])) s
scan_string false out (ch ∷ s) =
    let in_escape = scan_string true out s in
    let more = scan_string false (out ++ (ch ∷ [])) s in
    if ch == backslash then in_escape else if ch == quote then out else more

abbrev pub quoted_key : Text → Text
quoted_key key = quote ∷ (key ++ (quote ∷ []))

unfoldable pub json_string_value : Text → Text → Text
unfolding after_first scan_string
json_string_value json key = elim (after_first (quoted_key key) json) [
  | none ↦ []
  | some tail ↦ elim (after_first (b':' ∷ []) tail) [
    | none ↦ []
    | some value ↦ elim (after_first (quote ∷ []) value) [
      | none ↦ []
      | some s ↦ scan_string false [] s
    ]
  ]
]

unfoldable pub skip_spaces : Text → Text
skip_spaces [] = []
skip_spaces (c ∷ s) = if is_space c then skip_spaces s else c ∷ s

unfoldable pub span_digits : Text → Text
span_digits [] = []
span_digits (c ∷ s) = if is_digit c then c ∷ span_digits s else []

-- The number that decimal digits stand for.
unfoldable pub decimal_value : ℕ → Text → ℕ
decimal_value acc [] = acc
decimal_value acc (c ∷ s) = decimal_value (acc * 10 + (c - b'0')) s

-- `std::from_chars` into a uint32 refuses what does not fit.
unfoldable pub json_u32_value : Text → Text → Option ℕ
unfolding after_first skip_spaces span_digits decimal_value
json_u32_value json key = elim (after_first (quoted_key key) json) [
  | none ↦ none
  | some tail ↦ elim (after_first (b':' ∷ []) tail) [
    | none ↦ none
    | some value ↦
        let digits = span_digits (skip_spaces value) in
        if is_empty digits
        then none
        else if ltb (decimal_value 0 digits) (2 ^ 32)
        then some (decimal_value 0 digits)
        else none
  ]
]

unfoldable pub escape_byte : ℕ → Text
escape_byte ch =
    if ch == backslash
    then backslash ∷ backslash ∷ []
    else if ch == quote
    then backslash ∷ quote ∷ []
    else if ch == 10
    then backslash ∷ b'n' ∷ []
    else if ch == 13
    then backslash ∷ b'r' ∷ []
    else if ch == 9
    then backslash ∷ b't' ∷ []
    else ch ∷ []

unfoldable pub json_escape : Text → Text
unfolding escape_byte
json_escape [] = []
json_escape (ch ∷ s) = escape_byte ch ++ json_escape s
