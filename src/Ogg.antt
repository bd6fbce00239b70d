-- ===== src/Ogg.antt =====
-- desktop/windows/src/ogg_crc.cc and ogg_opus_muxer.cc: Opus packets wrapped into an Ogg stream.
pub mod Page
use mathlib.Core.List.{foldl}
use voicestick.Prelude.{
  ℕ, zero, suc, ◌+◌, ◌*◌, ◌/◌, ◌%◌, ◌^◌, bit_and, bit_xor, Bool, true, false, ◌==◌, ltb, List, [],
  ◌∷◌, ◌++◌, Option, none, some, if◌then◌else◌, length, get_or, set,
}
use voicestick.Prelude.Texts.{Bytes, text, is_empty}
use voicestick.ByteUtils.{u8, u32, u64, append_le16, append_le32, append_le64, append_ascii}

-- `r` after `bit` more rounds of the table's inner loop.
unfoldable pub crc_bits : ℕ → ℕ → ℕ
crc_bits zero r = r
crc_bits (suc bit) r =
    crc_bits bit
      (if bit_and r 0x80000000 == 0 then u32 (r * 2) else bit_xor (u32 (r * 2)) 0x04c11db7)

-- The entry of the table at `i`.
unfoldable pub crc_entry : ℕ → ℕ
unfolding crc_bits
crc_entry i = crc_bits 8 (u32 (i * 2 ^ 24))

unfoldable pub crc_step : ℕ → ℕ → ℕ
unfolding crc_entry
crc_step crc byte =
    bit_xor (u32 (crc * 2 ^ 8)) (crc_entry (bit_xor (bit_and (crc / 2 ^ 24) 0xff) byte))

unfoldable pub checksum : Bytes → ℕ
checksum = foldl crc_step 0

abbrev pub serial : ℕ
serial = 0x5653544b

pub record Muxer : Type 0 where
  pub sample_rate : ℕ
  pub channels : ℕ
  pub wrote_headers : Bool
  pub sequence : ℕ  -- uint32
  pub granule_position : ℕ  -- uint64

abbrev pub new_muxer : ℕ → ℕ → Muxer
new_muxer sample_rate channels = record {
  sample_rate = sample_rate;
  channels = channels;
  wrote_headers = false;
  sequence = 0;
  granule_position = 0;
}

unfoldable pub reset : Muxer → Muxer
reset m = record m { wrote_headers = false; sequence = 0; granule_position = 0 }

unfoldable pub opus_head : Muxer → Bytes
opus_head m =
    append_le16
      (append_le32 (append_le16 (append_ascii [] (text "OpusHead") ++ (1 ∷ u8 m.channels ∷ [])) 312)
        (u32 m.sample_rate))
      0
    ++ (0 ∷ [])

unfoldable pub opus_tags : Bytes
opus_tags =
    append_le32
      (append_ascii (append_le32 (append_ascii [] (text "OpusTags")) 10) (text "VoiceStick")) 0

-- A page before its checksum is filled in; `segments` is the lacing table with its count.
unfoldable pub raw_page : ℕ → ℕ → ℕ → Bytes → Bytes → Bytes
raw_page granule header_type sequence segments packet =
    append_le32
      (append_le32
        (append_le32
          (append_le64 (append_ascii [] (text "OggS") ++ (0 ∷ u8 header_type ∷ [])) granule) serial)
        sequence)
      0
    ++ (segments ++ packet)

-- `page[22] = crc & 0xff` and the three that follow.
unfoldable pub fill_crc : ℕ → Bytes → Bytes
fill_crc crc page =
    set (set (set (set page 22 (u8 crc)) 23 (u8 (crc / 2 ^ 8))) 24 (u8 (crc / 2 ^ 16))) 25
      (u8 (crc / 2 ^ 24))

unfoldable pub seal_page : Bytes → Bytes
seal_page page = fill_crc (checksum page) page

-- `none` is the exception for a packet of more than one lacing segment.
unfoldable pub make_page : Bytes → ℕ → ℕ → Muxer → Muxer × Option Bytes
make_page packet granule header_type m = if ltb 255 (length packet) then (m, none) else (
  record m { sequence = u32 (m.sequence + 1) },
  some (seal_page (raw_page granule header_type m.sequence (1 ∷ u8 (length packet) ∷ []) packet)),
)

unfoldable pub make_empty_page : ℕ → ℕ → Muxer → Muxer × Bytes
make_empty_page granule header_type m = (
  record m { sequence = u32 (m.sequence + 1) },
  seal_page (raw_page granule header_type m.sequence (0 ∷ []) []),
)

abbrev pub bytes_or_none : Option Bytes → Bytes
bytes_or_none none = []
bytes_or_none (some b) = b

-- The two header pages, once for each stream; both are far below 255 bytes.
unfoldable pub write_headers : Muxer → Muxer × Bytes
write_headers m =
    if m.wrote_headers
    then (m, [])
    else let (m1, head) = make_page (opus_head m) 0 0x02 m in
      let (m2, tags) = make_page opus_tags 0 0x00 m1 in
      (record m2 { wrote_headers = true }, bytes_or_none head ++ bytes_or_none tags)

-- 960 samples at the stream's rate, counted at 48 kHz.
abbrev pub granule_step : Muxer → ℕ
granule_step m = u64 (960 * 48000 / m.sample_rate)

-- `none` is an exception, of an empty packet or of `make_page`.
unfoldable pub append : Bytes → Bool → Muxer → Muxer × Option Bytes
append opus_payload is_last m =
    if is_empty opus_payload
    then (m, none)
    else let (m1, headers) = write_headers m in
      let m2 = record m1 { granule_position = u64 (m1.granule_position + granule_step m1) } in
      let (m3, page) =
        make_page opus_payload m2.granule_position (if is_last then 0x04 else 0x00) m2 in
      (m3, elim page [ none ↦ none | some bytes ↦ some (headers ++ bytes) ])

unfoldable pub finish : Muxer → Muxer × Bytes
finish m =
    let (m1, headers) = write_headers m in
    let (m2, page) = make_empty_page m1.granule_position 0x04 m1 in (m2, headers ++ page)
