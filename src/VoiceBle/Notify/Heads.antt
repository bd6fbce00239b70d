-- ===== src/VoiceBle/Notify/Heads.antt =====
-- The beginning of the stick's messages about buttons, as the desktop searches it.
use voicestick.Prelude.{
  ℕ, ◌^◌, ◌<◌, ◌≤◌, ◌≡◌, refl, Bool, true, false, [], ◌∷◌, ◌++◌, Option, none, some, arith, length,
  take_all,
}
use voicestick.Prelude.Texts.{Text, text, is_empty}
use voicestick.ByteUtils.{u16}
use voicestick.ByteUtils.RoundTrip.{read_le16_bytes}
use voicestick.BleProtocol.{
  StateEvent, parse_state_event, json_of_frame, json_string_value, json_u32_value, after_first,
  strip_prefix, scan_string, quoted_key, quote,
}
use voicestick.VoiceBle.Notify.{json_frame}

-- The two buttons of main.c.
abbrev pub button_name : Bool → Text
button_name true = text "primary"
button_name false = text "secondary"

-- The desktop finds the text in the frame.
pub json_of_frame-json_frame :
    (json : Text) → length json < 2 ^ 16 → json_of_frame 0x10 (json_frame json) ≡ some json
unfolding json_frame
json_of_frame-json_frame json h =
    let small : u16 (length json) ≡ length json = omega arith in
    let size = read_le16_bytes (u16 (length json)) [] (omega arith) in
    ground (arith, small, size, take_all (u16 (length json)) json (omega arith))

module _ (json event button hardware version : Text) (session_id duration_ms : Option ℕ) where
  pub parse-json_frame :
      length json < 2 ^ 16
      → is_empty event ≡ false
      → json_string_value json (text "event") ≡ event
      → json_string_value json (text "button") ≡ button
      → json_u32_value json (text "session_id") ≡ session_id
      → json_u32_value json (text "duration_ms") ≡ duration_ms
      → json_string_value json (text "hardware") ≡ hardware
      → json_string_value json (text "firmware_version") ≡ version
      → parse_state_event (json_frame json)
        ≡ some (record {
          event = event;
          button = button;
          session_id = session_id;
          duration_ms = duration_ms;
          hardware = hardware;
          firmware_version = version;
        })
  unfolding parse_state_event
  parse-json_frame small filled e b s d h v = ground (arith, json_of_frame-json_frame json small)

-- The messages about buttons by their event.
pub data Kind : Type 0 where
  down up click : Kind

abbrev pub kind_name : Kind → Text
kind_name down = text "button_down"
kind_name up = text "button_up"
kind_name click = text "button_click"

-- What the desktop makes of a button's message.
abbrev pub button_event : Kind → Bool → Option ℕ → Option ℕ → StateEvent
button_event kind is_primary session_id duration_ms = record {
  event = kind_name kind;
  button = button_name is_primary;
  session_id = session_id;
  duration_ms = duration_ms;
  hardware = [];
  firmware_version = [];
}

-- A message up to the quote behind the button's name.
unfoldable pub head : Kind → Bool → Text
head kind is_primary =
    text "{\"event\":\""
    ++ (kind_name kind ++ (text "\",\"button\":\"" ++ (button_name is_primary ++ (quote ∷ []))))

-- The search for a key passes over the head and the comma behind it, and fails where the message
-- ends there.
unfoldable pub Passes : Text → Text → Type 0
Passes key h =
    ((rest : Text)
      → after_first (quoted_key key) (h ++ (b',' ∷ rest)) ≡ after_first (quoted_key key) rest)
    × (after_first (quoted_key key) (h ++ (b'}' ∷ [])) ≡ none)

-- What the desktop finds in a head, whatever follows.
pub record IsHead (kind : Kind) (is_primary : Bool) : Type 0 where
  pub event :
      (rest : Text)
      → json_string_value (head kind is_primary ++ rest) (text "event") ≡ kind_name kind
  pub button :
      (rest : Text)
      → json_string_value (head kind is_primary ++ rest) (text "button") ≡ button_name is_primary
  pub no_session : Passes (text "session_id") (head kind is_primary)
  pub no_duration : Passes (text "duration_ms") (head kind is_primary)
  pub no_hardware : Passes (text "hardware") (head kind is_primary)
  pub no_version : Passes (text "firmware_version") (head kind is_primary)
  pub filled : is_empty (kind_name kind) ≡ false
  pub short : length (head kind is_primary) ≤ 45

pub head_lem : (kind : Kind) (is_primary : Bool) → IsHead kind is_primary
unfolding head Passes text after_first strip_prefix scan_string json_string_value
head_lem down true = record {
  event = λ rest. refl;
  button = λ rest. refl;
  no_session = (λ rest. refl, refl);
  no_duration = (λ rest. refl, refl);
  no_hardware = (λ rest. refl, refl);
  no_version = (λ rest. refl, refl);
  filled = refl;
  short = omega arith;
}
head_lem down false = record {
  event = λ rest. refl;
  button = λ rest. refl;
  no_session = (λ rest. refl, refl);
  no_duration = (λ rest. refl, refl);
  no_hardware = (λ rest. refl, refl);
  no_version = (λ rest. refl, refl);
  filled = refl;
  short = omega arith;
}
head_lem up true = record {
  event = λ rest. refl;
  button = λ rest. refl;
  no_session = (λ rest. refl, refl);
  no_duration = (λ rest. refl, refl);
  no_hardware = (λ rest. refl, refl);
  no_version = (λ rest. refl, refl);
  filled = refl;
  short = omega arith;
}
head_lem up false = record {
  event = λ rest. refl;
  button = λ rest. refl;
  no_session = (λ rest. refl, refl);
  no_duration = (λ rest. refl, refl);
  no_hardware = (λ rest. refl, refl);
  no_version = (λ rest. refl, refl);
  filled = refl;
  short = omega arith;
}
head_lem click true = record {
  event = λ rest. refl;
  button = λ rest. refl;
  no_session = (λ rest. refl, refl);
  no_duration = (λ rest. refl, refl);
  no_hardware = (λ rest. refl, refl);
  no_version = (λ rest. refl, refl);
  filled = refl;
  short = omega arith;
}
head_lem click false = record {
  event = λ rest. refl;
  button = λ rest. refl;
  no_session = (λ rest. refl, refl);
  no_duration = (λ rest. refl, refl);
  no_hardware = (λ rest. refl, refl);
  no_version = (λ rest. refl, refl);
  filled = refl;
  short = omega arith;
}
