-- ===== src/Prelude/Bits.antt =====
-- `|` of fields that share no bit, as a sum.
use Prim.Native.Nat.{
  ℕ, zero, suc, ◌+◌, ◌*◌, ◌/◌, ◌%◌, ◌^◌, ◌≤◌, ◌<◌, max, digits, bit_or, bit_or-bitwise,
}
use mathlib.Core.Path.{◌≡◌, refl, ap}
use native.Mathlib.Nat.{pow-suc}
use native.Mathlib.Omega.{arith}

abbrev or_digits : ℕ → ℕ → ℕ → ℕ
or_digits n a b = digits (λ b. b) max n a b

-- More fuel than the first number needs changes nothing.
or_digits_enough : (n m a b : ℕ) → a ≤ n → a ≤ m → or_digits n a b ≡ or_digits m a b
or_digits_enough zero zero a b h k = refl
or_digits_enough (suc n) zero zero b h k = refl
or_digits_enough (suc n) zero (suc a) b h k = absurd (omega arith)
or_digits_enough zero (suc m) zero b h k = refl
or_digits_enough zero (suc m) (suc a) b h k = absurd (omega arith)
or_digits_enough (suc n) (suc m) zero b h k = refl
or_digits_enough (suc n) (suc m) (suc a) b h k =
    omega (arith, or_digits_enough n m (suc a / 2) (b / 2) (omega arith) (omega arith))

zero-bit_or : (b : ℕ) → bit_or 0 b ≡ b
zero-bit_or b = bit_or-bitwise 0 b

bit_or_halves : (a b : ℕ) → bit_or a b ≡ bit_or (a / 2) (b / 2) * 2 + max (a % 2) (b % 2)
bit_or_halves zero b = omega (arith, zero-bit_or b, zero-bit_or (b / 2))
bit_or_halves (suc a) b = omega (
  arith,
  bit_or-bitwise (suc a) b,
  bit_or-bitwise (suc a / 2) (b / 2),
  or_digits_enough a (suc a / 2) (suc a / 2) (b / 2) (omega arith) (omega arith),
)

shift_suc : (b k : ℕ) → b * 2 ^ suc k ≡ 2 * (b * 2 ^ k)
shift_suc b k = omega (arith, ap (λ (t : ℕ). b * t) (pow-suc 2 k))

-- `a | (b << k)` where `a` fits `k` bits.
pub bit_or_fields : (k a b : ℕ) → a < 2 ^ k → bit_or a (b * 2 ^ k) ≡ a + b * 2 ^ k
bit_or_fields zero zero b h = omega (arith, zero-bit_or (b * 1))
bit_or_fields zero (suc a) b h = absurd (omega arith)
bit_or_fields (suc k) a b h =
    ground (
      arith,
      bit_or_halves a (b * 2 ^ suc k),
      shift_suc b k,
      pow-suc 2 k,
      bit_or_fields k (a / 2) b,
    )

-- The `|` of two bytes is a byte.
bit_or_lt_pow : (k a b : ℕ) → a < 2 ^ k → b < 2 ^ k → bit_or a b < 2 ^ k
bit_or_lt_pow zero zero b h g = omega (arith, zero-bit_or b)
bit_or_lt_pow zero (suc a) b h g = absurd (omega arith)
bit_or_lt_pow (suc k) a b h g =
    ground (arith, bit_or_halves a b, pow-suc 2 k, bit_or_lt_pow k (a / 2) (b / 2))

pub bit_or_byte : (a b : ℕ) → a < 256 → b < 256 → bit_or a b < 256
bit_or_byte a b h g = bit_or_lt_pow 8 a b h g

-- Of numbers of `k` bits.
pub bit_or_comm : (k a b : ℕ) → a < 2 ^ k → b < 2 ^ k → bit_or a b ≡ bit_or b a
bit_or_comm zero zero zero h g = refl
bit_or_comm zero (suc a) b h g = absurd (omega arith)
bit_or_comm zero zero (suc b) h g = absurd (omega arith)
bit_or_comm (suc k) a b h g = omega (
  arith,
  bit_or_halves a b,
  bit_or_halves b a,
  pow-suc 2 k,
  bit_or_comm k (a / 2) (b / 2) (omega (arith, pow-suc 2 k)) (omega (arith, pow-suc 2 k)),
)
