-- ===== src/VoiceBle/Notify/RoundTrip.antt =====
-- What the stick tells of its buttons, at the desktop.
use voicestick.Prelude.{
  ℕ, ◌^◌, ◌<◌, ◌≤◌, ◌≡◌, ◌∙◌, refl, ltb, Bool, true, false, [], ◌∷◌, ◌++◌, Option, none, some,
  if◌then◌else◌, arith, length, length-append, take, take_all, Bool-cases, inl, inr,
}
use voicestick.Prelude.Texts.{Text, text}
use voicestick.BleProtocol.{
  parse_state_event, after_first, strip_prefix, quoted_key, quote, is_digit, is_space,
}
use voicestick.VoiceBle.Ota.{decimal}
use voicestick.VoiceBle.Notify.{json_frame, button_down_json, button_up_json, button_click_json}
use voicestick.VoiceBle.Notify.Search.{
  decimal-AreDigits, length-decimal, AreDigits-unquoted, after_first-skip, json_u32_value-decimal,
  json_u32_value-missing, json_string_value-missing,
}
use voicestick.VoiceBle.Notify.Heads.{
  button_name, parse-json_frame, Kind, button_event, head, Passes, IsHead, head_lem,
}

-- The search for a key passes over a number.
skip-decimal :
    (key rest : Text) (n : ℕ)
    → after_first (quoted_key key) (decimal n ++ rest) ≡ after_first (quoted_key key) rest
skip-decimal key rest n =
    after_first-skip (key ++ (quote ∷ [])) (decimal n) rest quote
      (AreDigits-unquoted (decimal n) (decimal-AreDigits n))

-- The rest of a message: a duration and a session, where they are told.
tail : Option ℕ → Option ℕ → Text
tail none none = text "}"
tail none (some s) = text ",\"session_id\":" ++ (decimal s ++ text "}")
tail (some d) none = text ",\"duration_ms\":" ++ (decimal d ++ text "}")
tail (some d) (some s) =
    text ",\"duration_ms\":" ++ (decimal d ++ (text ",\"session_id\":" ++ (decimal s ++ text "}")))

abbrev pub IsSmall : Option ℕ → Type 0
IsSmall none = Unit {0}
IsSmall (some n) = n < 2 ^ 32

length-tail : (duration_ms session_id : Option ℕ) → length (tail duration_ms session_id) ≤ 50
unfolding tail text
length-tail none none = omega arith
length-tail none (some s) = omega (arith, length-append (decimal s) (b'}' ∷ []), length-decimal s)
length-tail (some d) none = omega (arith, length-append (decimal d) (b'}' ∷ []), length-decimal d)
length-tail (some d) (some s) = omega (
  arith,
  length-append (decimal d) (text ",\"session_id\":" ++ (decimal s ++ text "}")),
  length-decimal d,
  length-append (decimal s) (b'}' ∷ []),
  length-decimal s,
)

short-message :
    (kind : Kind) (b : Bool) (duration_ms session_id : Option ℕ)
    → IsHead kind b
    → length (head kind b ++ tail duration_ms session_id) < 2 ^ 16
short-message kind b duration_ms session_id h = omega (
  arith,
  length-append (head kind b) (tail duration_ms session_id),
  h.short,
  length-tail duration_ms session_id,
)

parse-tail :
    (kind : Kind) (b : Bool) (duration_ms session_id : Option ℕ)
    → IsHead kind b
    → IsSmall duration_ms
    → IsSmall session_id
    → parse_state_event (json_frame (head kind b ++ tail duration_ms session_id))
      ≡ some (button_event kind b session_id duration_ms)
unfolding tail text Passes after_first strip_prefix is_digit is_space
parse-tail kind b none none h u v =
    parse-json_frame (head kind b ++ tail none none) _ _ _ _ _ _ (short-message kind b none none h)
      h.filled (h.event _) (h.button _) (json_u32_value-missing _ _ h.no_session.1)
      (json_u32_value-missing _ _ h.no_duration.1) (json_string_value-missing _ _ h.no_hardware.1)
      (json_string_value-missing _ _ h.no_version.1)
parse-tail kind b none (some s) h u v =
    parse-json_frame (head kind b ++ tail none (some s)) _ _ _ _ _ _
      (short-message kind b none (some s) h) h.filled (h.event _) (h.button _)
      (json_u32_value-decimal _ _ _ [] s b'}' (h.no_session.0 _) refl refl refl v)
      (json_u32_value-missing _ _ (h.no_duration.0 _ ∙ skip-decimal (text "duration_ms") _ s))
      (json_string_value-missing _ _ (h.no_hardware.0 _ ∙ skip-decimal (text "hardware") _ s))
      (json_string_value-missing _ _
        (h.no_version.0 _ ∙ skip-decimal (text "firmware_version") _ s))
parse-tail kind b (some d) none h u v =
    parse-json_frame (head kind b ++ tail (some d) none) _ _ _ _ _ _
      (short-message kind b (some d) none h) h.filled (h.event _) (h.button _)
      (json_u32_value-missing _ _ (h.no_session.0 _ ∙ skip-decimal (text "session_id") _ d))
      (json_u32_value-decimal _ _ _ [] d b'}' (h.no_duration.0 _) refl refl refl u)
      (json_string_value-missing _ _ (h.no_hardware.0 _ ∙ skip-decimal (text "hardware") _ d))
      (json_string_value-missing _ _
        (h.no_version.0 _ ∙ skip-decimal (text "firmware_version") _ d))
parse-tail kind b (some d) (some s) h u v =
    parse-json_frame (head kind b ++ tail (some d) (some s)) _ _ _ _ _ _
      (short-message kind b (some d) (some s) h) h.filled (h.event _) (h.button _)
      (json_u32_value-decimal _ _ _ [] s b'}'
        (h.no_session.0 _ ∙ skip-decimal (text "session_id") _ d) refl refl refl v)
      (json_u32_value-decimal _ _ _ _ d b',' (h.no_duration.0 _) refl refl refl u)
      (json_string_value-missing _ _ (
        h.no_hardware.0 _
        ∙ skip-decimal (text "hardware") _ d
        ∙ skip-decimal (text "hardware") _ s))
      (json_string_value-missing _ _ (
        h.no_version.0 _
        ∙ skip-decimal (text "firmware_version") _ d
        ∙ skip-decimal (text "firmware_version") _ s))

-- A number that the messages leave out when it is 0.
abbrev pub told : ℕ → Option ℕ
told n = if ltb 0 n then some n else none

cut :
    (limit : ℕ) (kind : Kind) (b : Bool) (duration_ms session_id : Option ℕ)
    → 95 ≤ limit
    → take limit (head kind b ++ tail duration_ms session_id)
      ≡ head kind b ++ tail duration_ms session_id
cut limit kind b duration_ms session_id h = take_all limit _ (
    omega (
      arith,
      h,
      length-append (head kind b) (tail duration_ms session_id),
      (head_lem kind b).short,
      length-tail duration_ms session_id,
    ))

down-tail :
    (b : Bool) (s : ℕ) → button_down_json (button_name b) s ≡ head Kind.down b ++ tail none (told s)
unfolding button_down_json head tail text
down-tail true s = elim (Bool-cases (ltb 0 s)) [
  | inl some_session ↦ rw some_session (cut 95 Kind.down true none (some s) (omega arith))
  | inr no_session ↦ rw no_session (cut 95 Kind.down true none none (omega arith))
]
down-tail false s = elim (Bool-cases (ltb 0 s)) [
  | inl some_session ↦ rw some_session (cut 95 Kind.down false none (some s) (omega arith))
  | inr no_session ↦ rw no_session (cut 95 Kind.down false none none (omega arith))
]

up-tail :
    (b : Bool) (d s : ℕ)
    → button_up_json (button_name b) d s ≡ head Kind.up b ++ tail (some d) (told s)
unfolding button_up_json head tail text
up-tail true d s = elim (Bool-cases (ltb 0 s)) [
  | inl some_session ↦ rw some_session (cut 127 Kind.up true (some d) (some s) (omega arith))
  | inr no_session ↦ rw no_session (cut 127 Kind.up true (some d) none (omega arith))
]
up-tail false d s = elim (Bool-cases (ltb 0 s)) [
  | inl some_session ↦ rw some_session (cut 127 Kind.up false (some d) (some s) (omega arith))
  | inr no_session ↦ rw no_session (cut 127 Kind.up false (some d) none (omega arith))
]

click-tail :
    (b : Bool) (d s : ℕ)
    → button_click_json (button_name b) d s
      ≡ head Kind.click b ++ tail (if ltb 0 s then some d else told d) (told s)
unfolding button_click_json head tail text
click-tail true d s = elim (Bool-cases (ltb 0 s)) [
  | inl some_session ↦ rw some_session (cut 127 Kind.click true (some d) (some s) (omega arith))
  | inr no_session ↦ elim (Bool-cases (ltb 0 d)) [
    | inl some_time ↦
        rw no_session (rw some_time (cut 127 Kind.click true (some d) none (omega arith)))
    | inr no_time ↦ rw no_session (rw no_time (cut 127 Kind.click true none none (omega arith)))
  ]
]
click-tail false d s = elim (Bool-cases (ltb 0 s)) [
  | inl some_session ↦ rw some_session (cut 127 Kind.click false (some d) (some s) (omega arith))
  | inr no_session ↦ elim (Bool-cases (ltb 0 d)) [
    | inl some_time ↦
        rw no_session (rw some_time (cut 127 Kind.click false (some d) none (omega arith)))
    | inr no_time ↦ rw no_session (rw no_time (cut 127 Kind.click false none none (omega arith)))
  ]
]

told-IsSmall : (n : ℕ) → n < 2 ^ 32 → IsSmall (told n)
told-IsSmall n h = elim (Bool-cases (ltb 0 n)) [ inl e ↦ rw e h | inr e ↦ rw e tt ]

-- For both buttons, and for times and sessions that are uint32: the desktop reads the three button
-- messages of the stick as the event, the button, the session unless it is 0, and the time in
-- milliseconds, which a click without a session leaves out where it is 0; it finds neither hardware
-- nor version.
pub parse_state_event-buttons :
    (b : Bool) (d s : ℕ)
    → d < 2 ^ 32
    → s < 2 ^ 32
    → (parse_state_event (json_frame (button_down_json (button_name b) s))
        ≡ some (button_event Kind.down b (told s) none))
      × (parse_state_event (json_frame (button_up_json (button_name b) d s))
          ≡ some (button_event Kind.up b (told s) (some d)))
      × (parse_state_event (json_frame (button_click_json (button_name b) d s))
          ≡ some (button_event Kind.click b (told s) (if ltb 0 s then some d else told d)))
parse_state_event-buttons b d s h k =
    let small = told-IsSmall s k in
    (
      rw (down-tail b s) (parse-tail Kind.down b none (told s) (head_lem Kind.down b) tt small),
      rw (up-tail b d s) (parse-tail Kind.up b (some d) (told s) (head_lem Kind.up b) h small),
      rw (click-tail b d s) (
          parse-tail Kind.click b (if ltb 0 s then some d else told d) (told s)
            (head_lem Kind.click b)
            (elim (Bool-cases (ltb 0 s)) [ inl e ↦ rw e h | inr e ↦ rw e (told-IsSmall d h) ])
            small),
    )
