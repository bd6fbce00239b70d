-- ===== src/AsrProtocol/Frames.antt =====
-- Frames of the recognizer's protocol, written and read.
use voicestick.Prelude.{
  ℕ, ◌+◌, ◌*◌, ◌/◌, ◌^◌, ◌<◌, ◌≡◌, ◌⊎◌, [], ◌∷◌, ◌++◌, some, arith, refl, length, length-append,
  drop-length, take-length, drop, take, ap, ◌∙◌, suc, append_assoc, append-nil, sym,
}
use voicestick.Prelude.Texts.{Bytes, Text}
use voicestick.ByteUtils.{u8, u32, subspan, read_be32, append_be32}
use voicestick.ByteUtils.RoundTrip.{read_be32_bytes}
use voicestick.AsrProtocol.{
  AsrEvent, event_number, event_of, sized_field, with_payload, with_session, parse_event_response,
}

event_of-event_number : (e : AsrEvent) → event_of (event_number e) ≡ some e
unfolding event_of event_number
event_of-event_number AsrEvent.start_connection = refl
event_of-event_number AsrEvent.finish_connection = refl
event_of-event_number AsrEvent.connection_started = refl
event_of-event_number AsrEvent.connection_failed = refl
event_of-event_number AsrEvent.connection_finished = refl
event_of-event_number AsrEvent.start_session = refl
event_of-event_number AsrEvent.cancel_session = refl
event_of-event_number AsrEvent.finish_session = refl
event_of-event_number AsrEvent.session_started = refl
event_of-event_number AsrEvent.session_canceled = refl
event_of-event_number AsrEvent.session_finished = refl
event_of-event_number AsrEvent.usage_response = refl
event_of-event_number AsrEvent.task_request = refl
event_of-event_number AsrEvent.asr_info = refl
event_of-event_number AsrEvent.asr_response = refl
event_of-event_number AsrEvent.asr_end = refl

event_number-lt : (e : AsrEvent) → event_number e < 2 ^ 32
unfolding event_number
event_number-lt e = ground arith

length-sized :
    (front field rest : Bytes) (a b c d : ℕ)
    → length (front ++ (a ∷ b ∷ c ∷ d ∷ (field ++ rest)))
      ≡ length front + 4 + (length field + length rest)
length-sized front field rest a b c d =
    omega (arith, length-append front (a ∷ b ∷ c ∷ d ∷ (field ++ rest)), length-append field rest)

drop_four :
    (front tail : Bytes) (a b c d : ℕ)
    → drop (length front + 4) (front ++ (a ∷ b ∷ c ∷ d ∷ tail)) ≡ tail
drop_four [] tail a b c d = refl
drop_four (f ∷ front) tail a b c d =
    let e : suc (length front) + 4 ≡ suc (length front + 4) = omega arith in
    rw e (drop_four front tail a b c d)

-- A field behind any bytes is read back, with the offset behind it.
sized_field-append :
    (front field rest : Bytes)
    → length field < 2 ^ 32
    → sized_field (front ++ (append_be32 [] (u32 (length field)) ++ (field ++ rest))) (length front)
      ≡ some (field, length front + 4 + length field)
unfolding sized_field append_be32
sized_field-append front field rest h =
    let v = length field in
    let same : u32 v ≡ v = omega arith in
    let bytes =
      front
      ++ (u8 (u32 v / 2 ^ 24)
          ∷ u8 (u32 v / 2 ^ 16)
          ∷ u8 (u32 v / 2 ^ 8)
          ∷ u8 (u32 v)
          ∷ (field ++ rest)) in
    let total =
      length-sized front field rest (u8 (u32 v / 2 ^ 24)) (u8 (u32 v / 2 ^ 16)) (u8 (u32 v / 2 ^ 8))
        (u8 (u32 v)) in
    let behind =
      drop_four front (field ++ rest) (u8 (u32 v / 2 ^ 24)) (u8 (u32 v / 2 ^ 16))
        (u8 (u32 v / 2 ^ 8)) (u8 (u32 v)) in
    let size : read_be32 (subspan bytes (length front) 4) ≡ v =
      ap (λ (t : Bytes). read_be32 (take 4 t)) (drop-length front _)
      ∙ read_be32_bytes (u32 v) [] (omega arith)
      ∙ same in
    let value : subspan bytes (length front + 4) v ≡ field =
      ap (take v) behind ∙ take-length field rest in
    ground (arith, total, size, value)

-- Two fields behind any bytes are read back.
two_fields :
    (front : Bytes) (event_id : ℕ) (session_id : Text) (payload : Bytes)
    → length session_id < 2 ^ 32
    → length payload < 2 ^ 32
    → let behind = append_be32 [] (u32 (length payload)) ++ payload in
      let bytes = front ++ (append_be32 [] (u32 (length session_id)) ++ (session_id ++ behind)) in
      with_session bytes event_id (sized_field bytes (length front))
      ≡ some (record {
        event_id = event_id;
        event = event_of event_id;
        session_id = session_id;
        payload_text = payload;
      })
unfolding with_session with_payload append_be32
two_fields front event_id session_id payload n m =
    let behind = append_be32 [] (u32 (length payload)) ++ payload in
    let field = append_be32 [] (u32 (length session_id)) ++ session_id in
    let bytes = front ++ (append_be32 [] (u32 (length session_id)) ++ (session_id ++ behind)) in
    let first = sized_field-append front session_id behind n in
    let second = sized_field-append (front ++ field) payload [] m in
    let whole : (front ++ field) ++ (append_be32 [] (u32 (length payload)) ++ (payload ++ []))
        ≡ front ++ (append_be32 [] (u32 (length session_id)) ++ (session_id ++ behind)) =
      simp (append_assoc, append-nil) in
    let size : length (front ++ field) ≡ length front + 4 + length session_id =
      omega (arith, length-append front field) in
    let at : sized_field bytes (length front + 4 + length session_id)
        ≡ some (payload, length (front ++ field) + 4 + length payload) =
      sym (ap (λ (t : Bytes). sized_field t (length front + 4 + length session_id)) whole)
      ∙ sym (
          ap
            (sized_field
              ((front ++ field) ++ (append_be32 [] (u32 (length payload)) ++ (payload ++ []))))
            size)
      ∙ second in
    ground (arith, first, at)

abbrev header : (message_type serialization event_id : ℕ) → Bytes
header message_type serialization event_id =
    0x11
    ∷ u8 (message_type * 2 ^ 4 + 0x04)
    ∷ u8 (serialization * 2 ^ 4)
    ∷ 0x00
    ∷ u8 (event_id / 2 ^ 24)
    ∷ u8 (event_id / 2 ^ 16)
    ∷ u8 (event_id / 2 ^ 8)
    ∷ u8 event_id
    ∷ []

-- A message of the recognizer, by its layout: the header of four bytes, the number of the event, and
-- the session id and the payload, each behind its length in four bytes.
abbrev pub server_frame : (message_type serialization event_id : ℕ) → Text → Bytes → Bytes
server_frame message_type serialization event_id session_id payload =
    header message_type serialization event_id
    ++ (append_be32 [] (u32 (length session_id))
        ++ (session_id ++ (append_be32 [] (u32 (length payload)) ++ payload)))

-- The tests of the header, in front of what is read behind it.
parse-header :
    (message_type serialization event_id : ℕ) (behind : Bytes)
    → (message_type ≡ 0x09) ⊎ (message_type ≡ 0x0b)
    → event_id < 2 ^ 32
    → let bytes = header message_type serialization event_id ++ behind in
      parse_event_response bytes ≡ with_session bytes event_id (sized_field bytes 8)
unfolding parse_event_response
parse-header message_type serialization event_id behind t h =
    ground (arith, t, read_be32_bytes event_id [] h)

-- A message of the recognizer, of type 9 or 11, in the layout of such messages, with a known event,
-- and with a session id and a payload of less than 4 GiB, either of which may be empty: the parser
-- reads the event, the session id and the payload.
pub parse_event_response-server_frame :
    (message_type serialization : ℕ) (event : AsrEvent) (session_id : Text) (payload : Bytes)
    → (message_type ≡ 0x09) ⊎ (message_type ≡ 0x0b)
    → length session_id < 2 ^ 32
    → length payload < 2 ^ 32
    → parse_event_response
        (server_frame message_type serialization (event_number event) session_id payload)
      ≡ some (record {
        event_id = event_number event;
        event = some event;
        session_id = session_id;
        payload_text = payload;
      })
parse_event_response-server_frame message_type serialization event session_id payload t n m =
    let id = event_number event in
    let read = two_fields (header message_type serialization id) id session_id payload n m in
    let known = event_of-event_number event in
    parse-header message_type serialization id _ t (event_number-lt event) ∙ read ∙ cc
