-- ===== src/VoiceBle/Ota/Messages.antt =====
-- The JSON that the stick notifies during an update. `snprintf` keeps what fits the buffer.
use voicestick.Prelude.{
  ℕ, zero, suc, ◌+◌, ◌-◌, ◌/◌, ◌%◌, ◌^◌, ltb, [], ◌∷◌, ◌++◌, if◌then◌else◌, length, take,
}
use voicestick.Prelude.Texts.{Bytes, Text, text}
use voicestick.ByteUtils.{u8, u16}

-- `%u`, with fuel for the digits.
unfoldable pub decimal_digits : ℕ → ℕ → Text
decimal_digits zero n = []
decimal_digits (suc fuel) n =
    let more = decimal_digits fuel (n / 10) in
    if ltb n 10 then (b'0' + n) ∷ [] else more ++ ((b'0' + n % 10) ∷ [])

-- A uint32 has at most ten digits.
unfoldable pub decimal : ℕ → Text
unfolding decimal_digits
decimal n = decimal_digits 10 n

-- `%d` of an int, from its bit pattern.
unfoldable pub int_text : ℕ → Text
int_text n = if ltb n (2 ^ 31) then decimal n else b'-' ∷ decimal (2 ^ 32 - n)

unfoldable pub error_json : Text → ℕ → Text
error_json code err = take 127 (
    text "{\"event\":\"error\",\"code\":\""
    ++ (code ++ (text "\",\"esp_err\":" ++ (int_text err ++ text "}"))))

unfoldable pub ready_json : ℕ → ℕ → Text → Text
ready_json transfer_id image_size label = take 159 (
    text "{\"event\":\"ready\",\"transfer_id\":"
    ++ (decimal transfer_id
        ++ (text ",\"size\":"
            ++ (decimal image_size ++ (text ",\"partition\":\"" ++ (label ++ text "\"}"))))))

unfoldable pub progress_json : ℕ → ℕ → ℕ → Text
progress_json transfer_id written image_size = take 127 (
    text "{\"event\":\"progress\",\"transfer_id\":"
    ++ (decimal transfer_id
        ++ (text ",\"written\":"
            ++ (decimal written ++ (text ",\"size\":" ++ (decimal image_size ++ text "}"))))))

unfoldable pub done_json : ℕ → Text
done_json transfer_id = take 127 (
    text "{\"event\":\"done\",\"transfer_id\":"
    ++ (decimal transfer_id ++ text ",\"reboot_ms\":500}"))

abbrev pub aborted_json : Text
aborted_json = text "{\"event\":\"aborted\"}"

-- The notification: four bytes, then the text.
unfoldable pub state_frame : Text → Bytes
state_frame json =
    let json_len = u16 (length json) in 1 ∷ 0x30 ∷ u8 json_len ∷ u8 (json_len / 2 ^ 8) ∷ json
