-- ===== src/AsrProtocol.antt =====
-- desktop/windows/src/asr_protocol.h and asr_protocol.cc: the frames of the speech recognizer and what
-- is read from its answers. cJSON is a parameter. `std::to_string` of a uint32 is `decimal`.
pub mod Frames
pub mod Segments
use voicestick.Prelude.{
  ℕ, ◌+◌, ◌*◌, ◌/◌, ◌%◌, ◌^◌, ◌==◌, ltb, leb, Bool, true, false, not, ◌&&◌, ◌||◌, List, [], ◌∷◌,
  ◌++◌, Option, none, some, length, if◌then◌else◌,
}
use voicestick.Prelude.Texts.{Bytes, Text, text, text_eq, is_empty}
use voicestick.ByteUtils.{u8, u32, byte_at, subspan, read_be32, append_be32}
use voicestick.BleProtocol.{json_escape, after_first, quoted_key, quote}
use voicestick.Coordinator.State.{AsrResultType, AsrSessionOptions}
use voicestick.VoiceBle.Ota.{decimal, int_text}

-- The loop behind the first quote: unlike the reader of the stick's messages it takes an escaped
-- character as it is.
unfoldable pub scan_quoted : (escaped : Bool) → (out : Text) → Text → Text
scan_quoted escaped out [] = []
scan_quoted true out (ch ∷ s) = scan_quoted false (out ++ (ch ∷ [])) s
scan_quoted false out (ch ∷ s) =
    let in_escape = scan_quoted true out s in
    let more = scan_quoted false (out ++ (ch ∷ [])) s in
    if ch == 92 then in_escape else if ch == quote then out else more

unfoldable pub quoted_value : Text → Text → Text
quoted_value json key = elim (after_first (quoted_key key) json) [
  | none ↦ []
  | some tail ↦ elim (after_first (b':' ∷ []) tail) [
    | none ↦ []
    | some value ↦ elim (after_first (quote ∷ []) value) [
      | none ↦ []
      | some s ↦ scan_quoted false [] s
    ]
  ]
]

-- What the frames use of `AppConfig`.
pub record AsrConfig : Type 0 where
  pub resource_id : Text
  pub asr_hotwords : List Text

unfoldable pub effective_hotwords : AsrConfig → AsrSessionOptions → List Text
effective_hotwords config options =
    if is_empty options.hotwords then config.asr_hotwords else options.hotwords

unfoldable pub hotword_list : List Text → Text
hotword_list [] = []
hotword_list (w ∷ []) = text "{\"word\":\"" ++ (json_escape w ++ text "\"}")
hotword_list (w ∷ v ∷ ws) =
    text "{\"word\":\"" ++ (json_escape w ++ (text "\"}," ++ hotword_list (v ∷ ws)))

unfoldable pub hotwords_corpus_json : AsrConfig → AsrSessionOptions → Text
hotwords_corpus_json config options =
    if is_empty (effective_hotwords config options)
    then []
    else text ",\"corpus\":{\"context\":\""
      ++ (json_escape (
            text "{\"hotwords\":["
            ++ (hotword_list (effective_hotwords config options) ++ text "]}"))
          ++ text "\"}")

unfoldable pub result_type_name : AsrResultType → Text
result_type_name AsrResultType.single = text "single"
result_type_name AsrResultType.full = text "full"

unfoldable pub session_payload : AsrConfig → AsrSessionOptions → Text
session_payload config options =
    text
      "{\"user\":{\"uid\":\"voice-stick-local\"},\"audio\":{\"format\":\"ogg\",\"codec\":\"opus\",\"rate\":16000,\"bits\":16,\"channel\":1},\"request\":{\"model_name\":\"bigmodel\",\"enable_nonstream\":true,\"show_utterances\":"
    ++ ((if options.show_utterances then text "true" else text "false")
        ++ (text ",\"result_type\":\""
            ++ (result_type_name options.result_type
                ++ (text "\",\"enable_ddc\":true,\"resource_id\":\""
                    ++ (json_escape config.resource_id
                        ++ (text "\"" ++ (hotwords_corpus_json config options ++ text "}}")))))))

unfoldable pub connection_payload : AsrConfig → AsrSessionOptions → Text
connection_payload config options =
    text "{\"namespace\":\"BidirectionalASR\",\"event\":0,\"req_params\":"
    ++ (session_payload config options ++ text "}")

pub data AsrEvent : Type 0 where
  start_connection finish_connection connection_started connection_failed : AsrEvent
  connection_finished start_session cancel_session finish_session session_started : AsrEvent
  session_canceled session_finished usage_response task_request asr_info : AsrEvent
  asr_response asr_end : AsrEvent

unfoldable pub event_number : AsrEvent → ℕ
event_number start_connection = 1
event_number finish_connection = 2
event_number connection_started = 50
event_number connection_failed = 51
event_number connection_finished = 52
event_number start_session = 100
event_number cancel_session = 101
event_number finish_session = 102
event_number session_started = 150
event_number session_canceled = 151
event_number session_finished = 152
event_number usage_response = 154
event_number task_request = 200
event_number asr_info = 450
event_number asr_response = 451
event_number asr_end = 459

-- The `switch` of `ParseEventResponse`.
unfoldable pub event_of : ℕ → Option AsrEvent
event_of n =
    if n == 1
    then some start_connection
    else if n == 2
    then some finish_connection
    else if n == 50
    then some connection_started
    else if n == 51
    then some connection_failed
    else if n == 52
    then some connection_finished
    else if n == 100
    then some start_session
    else if n == 101
    then some cancel_session
    else if n == 102
    then some finish_session
    else if n == 150
    then some session_started
    else if n == 151
    then some session_canceled
    else if n == 152
    then some session_finished
    else if n == 154
    then some usage_response
    else if n == 200
    then some task_request
    else if n == 450
    then some asr_info
    else if n == 451
    then some asr_response
    else if n == 459
    then some asr_end
    else none

-- The session id in a frame, with its length, where there is one.
unfoldable pub session_field : Text → Bytes
session_field session_id =
    if is_empty session_id then [] else append_be32 [] (u32 (length session_id)) ++ session_id

-- The flag 0x04 and the nibble in front of it share no bit.
unfoldable pub make_event_frame :
    (message_type : ℕ) → AsrEvent → Text → (serialization : ℕ) → Bytes → Bytes
make_event_frame message_type event session_id serialization payload =
    0x11
    ∷ u8 (message_type * 2 ^ 4 + 0x04)
    ∷ u8 (serialization * 2 ^ 4)
    ∷ 0x00
    ∷ (append_be32 [] (event_number event)
        ++ (session_field session_id ++ (append_be32 [] (u32 (length payload)) ++ payload)))

unfoldable pub make_start_connection_frame : AsrConfig → AsrSessionOptions → Bytes
make_start_connection_frame config options =
    make_event_frame 0x01 start_connection [] 0x01 (connection_payload config options)

unfoldable pub make_finish_connection_frame : AsrConfig → AsrSessionOptions → Bytes
make_finish_connection_frame config options =
    make_event_frame 0x01 finish_connection [] 0x01 (connection_payload config options)

unfoldable pub make_start_session_frame : AsrConfig → Text → AsrSessionOptions → Bytes
make_start_session_frame config session_id options =
    make_event_frame 0x01 start_session session_id 0x01 (session_payload config options)

unfoldable pub make_finish_session_frame : AsrConfig → Text → AsrSessionOptions → Bytes
make_finish_session_frame config session_id options =
    make_event_frame 0x01 finish_session session_id 0x01 (connection_payload config options)

unfoldable pub make_cancel_session_frame : AsrConfig → Text → AsrSessionOptions → Bytes
make_cancel_session_frame config session_id options =
    make_event_frame 0x01 cancel_session session_id 0x01 (connection_payload config options)

unfoldable pub make_task_request_frame : Bytes → Text → Bytes
make_task_request_frame ogg_data session_id =
    make_event_frame 0x02 task_request session_id 0x00 ogg_data

pub record AsrEventResponse : Type 0 where
  pub event_id : ℕ  -- uint32
  pub event : Option AsrEvent
  pub session_id : Text
  pub payload_text : Text

-- A field with its length at an offset: its bytes and the offset behind it, both empty where there
-- is no room for a length; `none` where the field is cut off.
unfoldable pub sized_field : Bytes → (offset : ℕ) → Option (Bytes × ℕ)
sized_field bytes offset =
    if ltb (length bytes) (offset + 4)
    then some ([], offset)
    else let size = read_be32 (subspan bytes offset 4) in
      if ltb (length bytes) (offset + 4 + size)
      then none
      else some (subspan bytes (offset + 4) size, offset + 4 + size)

unfoldable pub with_payload : ℕ → Text → Option (Bytes × ℕ) → Option AsrEventResponse
with_payload event_id session_id none = none
with_payload event_id session_id (some (payload, offset)) = some (record {
  event_id = event_id;
  event = event_of event_id;
  session_id = session_id;
  payload_text = payload;
})

unfoldable pub with_session : Bytes → ℕ → Option (Bytes × ℕ) → Option AsrEventResponse
with_session bytes event_id none = none
with_session bytes event_id (some (session_id, offset)) =
    with_payload event_id session_id (sized_field bytes offset)

unfoldable pub parse_event_response : Bytes → Option AsrEventResponse
parse_event_response bytes =
    let message_type = byte_at bytes 1 / 2 ^ 4 in
    let offset = byte_at bytes 0 % 2 ^ 4 * 4 in
    if ltb (length bytes) 4
    then none
    else if not (message_type == 0x09) && not (message_type == 0x0b)
    then none
    else if not (byte_at bytes 1 % 2 ^ 4 == 0x04) || not (byte_at bytes 2 % 2 ^ 4 == 0x00)
    then none
    else if ltb (length bytes) (offset + 4)
    then none
    else with_session bytes (read_be32 (subspan bytes offset 4)) (sized_field bytes (offset + 4))

unfoldable pub extract_transcript : Text → Text
extract_transcript json_or_text =
    let result_text = quoted_value json_or_text (text "text") in
    if not (is_empty result_text)
    then result_text
    else elim (after_first (b'{' ∷ []) json_or_text) [ none ↦ json_or_text | some rest ↦ [] ]

pub record AsrResponse : Type 0 where
  pub is_error : Bool
  pub is_final : Bool
  pub label : Text
  pub upgrade_url : Option Text

unfoldable pub error_response : ℕ → Text → AsrResponse
error_response code message =
    let detail = quoted_value message (text "message") in
    let error = quoted_value message (text "error") in
    let url = quoted_value message (text "upgrade_url") in
    record {
      is_error = true;
      is_final = false;
      label =
          text "ASR "
          ++ (decimal code
              ++ (text ": "
                  ++ (if not (is_empty detail)
                      then detail
                      else if not (is_empty error)
                      then error
                      else message)));
      upgrade_url = if is_empty url then none else some url;
    }

-- The transcript behind the sequence number that some flags announce.
unfoldable pub parse_transcript : Bytes → (flags offset : ℕ) → Option AsrResponse
parse_transcript bytes flags offset =
    if ltb (length bytes) (offset + 4)
    then none
    else let payload_size = read_be32 (subspan bytes offset 4) in
      if ltb (length bytes) (offset + 4 + payload_size)
      then none
      else some (record {
        is_error = false;
        is_final = flags == 0x03;
        label = extract_transcript (subspan bytes (offset + 4) payload_size);
        upgrade_url = none;
      })

unfoldable pub parse_error : Bytes → (offset : ℕ) → Option AsrResponse
parse_error bytes offset =
    if ltb (length bytes) (offset + 8)
    then none
    else let message_size = read_be32 (subspan bytes (offset + 4) 4) in
      if ltb (length bytes) (offset + 8 + message_size)
      then none
      else some (
          error_response (read_be32 (subspan bytes offset 4))
            (subspan bytes (offset + 8) message_size))

unfoldable pub parse_response : Bytes → Option AsrResponse
parse_response bytes =
    let message_type = byte_at bytes 1 / 2 ^ 4 in
    let flags = byte_at bytes 1 % 2 ^ 4 in
    let offset = byte_at bytes 0 % 2 ^ 4 * 4 in
    if ltb (length bytes) 4 || ltb (length bytes) offset
    then none
    else if message_type == 0x09
    then (if flags == 0x01 || flags == 0x03
        then (if ltb (length bytes) (offset + 4)
            then none
            else parse_transcript bytes flags (offset + 4))
        else parse_transcript bytes flags offset)
    else if message_type == 0x0f
    then parse_error bytes offset
    else none

pub record AsrSegment : Type 0 where
  pub label : Text
  pub definite : Bool
  pub start_time : Option ℕ  -- the bits of an int
  pub end_time : Option ℕ

-- What cJSON finds in the recognizer's JSON: an utterance by its fields, where it is an object, a
-- list of utterances, where it is an array, and the `result`.
pub record Utterance : Type 0 where
  pub label : Option Text
  pub definite : Bool
  pub start_time : Option ℕ
  pub end_time : Option ℕ

abbrev pub Utterances : Type 0
Utterances = Option (List (Option Utterance))

pub data Result : Type 0 where
  object : Utterances → Result
  array : List (Option Utterances) → Result
  other : Result

unfoldable pub utterance_segments : List (Option Utterance) → List AsrSegment
utterance_segments [] = []
utterance_segments (none ∷ us) = utterance_segments us
utterance_segments (some u ∷ us) =
    let rest = utterance_segments us in
    elim u.label [
      | none ↦ rest
      | some label ↦
          if is_empty label
          then rest
          else record {
            label = label;
            definite = u.definite;
            start_time = u.start_time;
            end_time = u.end_time;
          }
            ∷ rest
    ]

unfoldable pub append_utterance_segments : Utterances → List AsrSegment → List AsrSegment
append_utterance_segments none segments = segments
append_utterance_segments (some us) segments = segments ++ utterance_segments us

unfoldable pub array_segments : List (Option Utterances) → List AsrSegment → List AsrSegment
array_segments [] segments = segments
array_segments (none ∷ items) segments = array_segments items segments
array_segments (some us ∷ items) segments =
    array_segments items (append_utterance_segments us segments)

unfoldable pub result_segments : Result → List AsrSegment
result_segments (object us) = append_utterance_segments us []
result_segments (array items) = array_segments items []
result_segments other = []

unfoldable pub extract_segments : (Text → Option Result) → Text → List AsrSegment
extract_segments parse json_or_text = elim (parse json_or_text) [
  | none ↦ []
  | some result ↦ result_segments result
]

unfoldable pub time_text : Option ℕ → Text
time_text none = text "-1"
time_text (some n) = int_text n

unfoldable pub segment_key : AsrSegment → Text
segment_key s = time_text s.start_time ++ (b':' ∷ (time_text s.end_time ++ (b':' ∷ s.label)))

unfoldable pub contains : Text → List Text → Bool
contains key [] = false
contains key (k ∷ keys) = let rest = contains key keys in if text_eq key k then true else rest

-- The new definite segments, and the set of keys after the call, where there is a set.
unfoldable pub new_segments : List AsrSegment → List Text → List AsrSegment × List Text
new_segments [] keys = ([], keys)
new_segments (s ∷ segments) keys =
    let (skipped, skipped_keys) = new_segments segments keys in
    let (taken, taken_keys) = new_segments segments (segment_key s ∷ keys) in
    if not s.definite || contains (segment_key s) keys
    then (skipped, skipped_keys)
    else (s ∷ taken, taken_keys)

-- With a set of keys; without one, which no caller asks for, the code hands on every definite segment.
unfoldable pub extract_new_definite_segments :
    (Text → Option Result) → Text → List Text → List AsrSegment × List Text
extract_new_definite_segments parse json_or_text keys =
    new_segments (extract_segments parse json_or_text) keys
