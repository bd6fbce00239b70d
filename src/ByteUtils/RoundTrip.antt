-- ===== src/ByteUtils/RoundTrip.antt =====
-- Reading back what was appended.
use voicestick.Prelude.{ℕ, ◌+◌, ◌*◌, ◌/◌, ◌^◌, ◌<◌, ◌≡◌, [], ◌∷◌, ◌++◌, arith}
use voicestick.Prelude.Bits.{bit_or_fields, bit_or_comm}
use voicestick.Prelude.Texts.{Bytes}
use voicestick.ByteUtils.{u8, read_le16, read_le32, append_le16, append_le32, read_be32}

-- The value of four bytes, lowest first.
pub read_le32_value :
    (a b c d : ℕ) (rest : Bytes)
    → a < 256
    → b < 256
    → c < 256
    → d < 256
    → read_le32 (a ∷ b ∷ c ∷ d ∷ rest) ≡ a + b * 2 ^ 8 + c * 2 ^ 16 + d * 2 ^ 24
unfolding read_le32
read_le32_value a b c d rest ha hb hc hd = ground (
  arith,
  bit_or_fields 8 a b,
  bit_or_fields 16 (a + b * 2 ^ 8) c,
  bit_or_fields 24 (a + b * 2 ^ 8 + c * 2 ^ 16) d,
)

pub read_le16_value :
    (a b : ℕ) (rest : Bytes) → a < 256 → b < 256 → read_le16 (a ∷ b ∷ rest) ≡ a + b * 2 ^ 8
unfolding read_le16
read_le16_value a b rest ha hb = ground (arith, bit_or_fields 8 a b)

pub read_le16-append_le16 :
    (v : ℕ) (rest : Bytes) → v < 2 ^ 16 → read_le16 (append_le16 [] v ++ rest) ≡ v
unfolding append_le16
read_le16-append_le16 v rest h = ground (arith, read_le16_value (u8 v) (u8 (v / 2 ^ 8)) rest)

pub read_le32-append_le32 :
    (v : ℕ) (rest : Bytes) → v < 2 ^ 32 → read_le32 (append_le32 [] v ++ rest) ≡ v
unfolding append_le32
read_le32-append_le32 v rest h = omega (
  arith,
  read_le32_value (u8 v) (u8 (v / 2 ^ 8)) (u8 (v / 2 ^ 16)) (u8 (v / 2 ^ 24)) rest (omega arith)
      (omega arith) (omega arith) (omega arith),
)

-- The same for the bytes of a number, written out.
pub read_le32_bytes :
    (v : ℕ) (rest : Bytes)
    → v < 2 ^ 32
    → read_le32 (u8 v ∷ u8 (v / 2 ^ 8) ∷ u8 (v / 2 ^ 16) ∷ u8 (v / 2 ^ 24) ∷ rest) ≡ v
unfolding append_le32
read_le32_bytes v rest h = read_le32-append_le32 v rest h

pub read_le16_bytes :
    (v : ℕ) (rest : Bytes) → v < 2 ^ 16 → read_le16 (u8 v ∷ u8 (v / 2 ^ 8) ∷ rest) ≡ v
unfolding append_le16
read_le16_bytes v rest h = read_le16-append_le16 v rest h

-- The value of four bytes, highest first.
pub read_be32_value :
    (a b c d : ℕ) (rest : Bytes)
    → a < 256
    → b < 256
    → c < 256
    → d < 256
    → read_be32 (a ∷ b ∷ c ∷ d ∷ rest) ≡ a * 2 ^ 24 + b * 2 ^ 16 + c * 2 ^ 8 + d
unfolding read_be32
read_be32_value a b c d rest ha hb hc hd = ground (
  arith,
  bit_or_comm 32 (a * 2 ^ 24) (b * 2 ^ 16) (omega arith) (omega arith),
  bit_or_fields 24 (b * 2 ^ 16) a,
  bit_or_comm 32 (b * 2 ^ 16 + a * 2 ^ 24) (c * 2 ^ 8) (omega arith) (omega arith),
  bit_or_fields 16 (c * 2 ^ 8) (b + a * 2 ^ 8),
  bit_or_comm 32 (c * 2 ^ 8 + (b + a * 2 ^ 8) * 2 ^ 16) d (omega arith) (omega arith),
  bit_or_fields 8 d (c + (b + a * 2 ^ 8) * 2 ^ 8),
)

pub read_be32_bytes :
    (v : ℕ) (rest : Bytes)
    → v < 2 ^ 32
    → read_be32 (u8 (v / 2 ^ 24) ∷ u8 (v / 2 ^ 16) ∷ u8 (v / 2 ^ 8) ∷ u8 v ∷ rest) ≡ v
read_be32_bytes v rest h = omega (
  arith,
  read_be32_value (u8 (v / 2 ^ 24)) (u8 (v / 2 ^ 16)) (u8 (v / 2 ^ 8)) (u8 v) rest (omega arith)
      (omega arith) (omega arith) (omega arith),
)
