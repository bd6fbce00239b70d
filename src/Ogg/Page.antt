-- ===== src/Ogg/Page.antt =====
-- The checksum of a page.
use voicestick.Prelude.{ℕ, ◌^◌, ◌≡◌, [], ◌∷◌, arith, set, ◌/◌}
use voicestick.Prelude.Texts.{Bytes}
use voicestick.ByteUtils.{u8, u32, subspan, read_le32, append_ascii, append_le32, append_le64}
use voicestick.Prelude.Texts.{text}
use voicestick.ByteUtils.RoundTrip.{read_le32_value}
use voicestick.Ogg.{
  raw_page, fill_crc, seal_page, checksum, append_ascii, append_le32, append_le64, text,
}

-- What a reader checks: the page with the checksum's four bytes set to zero.
pub clear_crc : Bytes → Bytes
clear_crc page = set (set (set (set page 22 0) 23 0) 24 0) 25 0

-- The bytes of a checksum read back.
crc_field :
    (crc : ℕ)
    → read_le32 (u8 crc ∷ u8 (crc / 2 ^ 8) ∷ u8 (crc / 2 ^ 16) ∷ u8 (crc / 2 ^ 24) ∷ []) ≡ u32 crc
crc_field crc = omega (
  arith,
  read_le32_value (u8 crc) (u8 (crc / 2 ^ 8)) (u8 (crc / 2 ^ 16)) (u8 (crc / 2 ^ 24)) []
      (omega arith) (omega arith) (omega arith) (omega arith),
)

-- The checksum field of a data page, and of the empty page that ends a stream, is the checksum of
-- the page with that field cleared.
pub seal_page_verifies :
    (granule header_type sequence : ℕ) (segments packet : Bytes)
    → let page = seal_page (raw_page granule header_type sequence segments packet) in
      read_le32 (subspan page 22 4) ≡ u32 (checksum (clear_crc page))
unfolding seal_page raw_page fill_crc clear_crc append_ascii append_le32 append_le64 text
seal_page_verifies granule header_type sequence segments packet = crc_field (checksum page)
  where
    page : Bytes
    page = raw_page granule header_type sequence segments packet
