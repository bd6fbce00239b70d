-- ===== src/ByteUtils.antt =====
-- desktop/windows/src/byte_utils.h: fixed-width integers in byte vectors.
-- A byte vector is a list of numbers below 256; a conversion to a w-bit type is `% 2 ^ w`.
pub mod RoundTrip
use voicestick.Prelude.{
  ℕ, ◌*◌, ◌/◌, ◌%◌, ◌^◌, ◌<◌, bit_or, List, [], ◌∷◌, ◌++◌, get_or, take, drop, All,
}
use voicestick.Prelude.Texts.{Bytes, Text}

abbrev pub u8 : ℕ → ℕ
u8 n = n % 2 ^ 8

abbrev pub u16 : ℕ → ℕ
u16 n = n % 2 ^ 16

abbrev pub u32 : ℕ → ℕ
u32 n = n % 2 ^ 32

abbrev pub u64 : ℕ → ℕ
u64 n = n % 2 ^ 64

abbrev pub AreBytes : Bytes → Type 0
AreBytes = All (λ b. b < 256)

-- `data[i]`. Every read of the program is behind a test of the size.
abbrev pub byte_at : Bytes → ℕ → ℕ
byte_at bytes i = get_or bytes i 0

-- `data.subspan(offset, count)`
abbrev pub subspan : Bytes → ℕ → ℕ → Bytes
subspan bytes offset count = take count (drop offset bytes)

unfoldable pub read_le16 : Bytes → ℕ
read_le16 bytes = u16 (bit_or (byte_at bytes 0) (byte_at bytes 1 * 2 ^ 8))

unfoldable pub read_le32 : Bytes → ℕ
read_le32 bytes =
    bit_or
      (bit_or (bit_or (byte_at bytes 0) (u32 (byte_at bytes 1 * 2 ^ 8)))
        (u32 (byte_at bytes 2 * 2 ^ 16)))
      (u32 (byte_at bytes 3 * 2 ^ 24))

unfoldable pub read_be32 : Bytes → ℕ
read_be32 bytes =
    bit_or
      (bit_or (bit_or (u32 (byte_at bytes 0 * 2 ^ 24)) (u32 (byte_at bytes 1 * 2 ^ 16)))
        (u32 (byte_at bytes 2 * 2 ^ 8)))
      (byte_at bytes 3)

-- The cast to a byte keeps the low eight bits, so the mask `& 0xff` before it changes nothing.
unfoldable pub append_le16 : Bytes → ℕ → Bytes
append_le16 out value = out ++ (u8 value ∷ u8 (value / 2 ^ 8) ∷ [])

unfoldable pub append_le32 : Bytes → ℕ → Bytes
append_le32 out value =
    out ++ (u8 value ∷ u8 (value / 2 ^ 8) ∷ u8 (value / 2 ^ 16) ∷ u8 (value / 2 ^ 24) ∷ [])

unfoldable pub append_le64 : Bytes → ℕ → Bytes
append_le64 out value =
    out
    ++ (u8 value
        ∷ u8 (value / 2 ^ 8)
        ∷ u8 (value / 2 ^ 16)
        ∷ u8 (value / 2 ^ 24)
        ∷ u8 (value / 2 ^ 32)
        ∷ u8 (value / 2 ^ 40)
        ∷ u8 (value / 2 ^ 48)
        ∷ u8 (value / 2 ^ 56)
        ∷ [])

unfoldable pub append_be32 : Bytes → ℕ → Bytes
append_be32 out value =
    out ++ (u8 (value / 2 ^ 24) ∷ u8 (value / 2 ^ 16) ∷ u8 (value / 2 ^ 8) ∷ u8 value ∷ [])

unfoldable pub append_ascii : Bytes → Text → Bytes
append_ascii out text = out ++ text
