-- ===== src/VoiceBle/Notify/Search.antt =====
-- Decimal numbers in JSON texts: they are read back, and the search for a key passes over them.
use voicestick.BleProtocol.{quote, quoted_key}
use voicestick.Prelude.{
  ℕ, zero, suc, ◌+◌, ◌-◌, ◌*◌, ◌/◌, ◌%◌, ◌^◌, ◌≤◌, ◌<◌, ◌≡◌, ◌≢◌, ◌∙◌, ap, refl, ◌==◌, ltb, false,
  [], ◌∷◌, ◌++◌, none, some, arith, length, length-append, All, Bool-cases, inl, ltb→lt, inr,
}
use voicestick.Prelude.Texts.{Text, is_empty}
use voicestick.BleProtocol.{
  is_digit, is_space, span_digits, skip_spaces, decimal_value, after_first, strip_prefix,
  json_u32_value, json_string_value,
}
use voicestick.VoiceBle.Ota.{decimal, decimal_digits}
use native.Mathlib.Nat.{pow-suc}

abbrev pub AreDigits : Text → Type 0
AreDigits = All (λ c. (48 ≤ c) × (c ≤ 57))

AreDigits-append : (s t : Text) → AreDigits s → AreDigits t → AreDigits (s ++ t)
AreDigits-append [] t p q = q
AreDigits-append (c ∷ s) t p q = (p.0, AreDigits-append s t p.1 q)

digits-AreDigits : (fuel n : ℕ) → AreDigits (decimal_digits fuel n)
unfolding decimal_digits
digits-AreDigits zero n = tt
digits-AreDigits (suc fuel) n = elim (Bool-cases (ltb n 10)) [
  | inl one ↦ rw one ((omega (arith, ltb→lt n 10 one), omega (arith, ltb→lt n 10 one)), tt)
  | inr more ↦ rw more (
      AreDigits-append (decimal_digits fuel (n / 10)) ((48 + n % 10) ∷ [])
        (digits-AreDigits fuel (n / 10)) ((omega arith, omega arith), tt))
]

value-append :
    (acc c : ℕ) (s : Text) → decimal_value acc (s ++ (c ∷ [])) ≡ decimal_value acc s * 10 + (c - 48)
unfolding decimal_value
value-append acc c [] = refl
value-append acc c (d ∷ s) = value-append (acc * 10 + (d - 48)) c s

value-digits : (fuel n : ℕ) → n < 10 ^ fuel → decimal_value 0 (decimal_digits fuel n) ≡ n
unfolding decimal_digits decimal_value
value-digits zero n h = omega arith
value-digits (suc fuel) n h = ground (
  arith,
  pow-suc 10 fuel,
  value-digits fuel (n / 10),
  value-append 0 (48 + n % 10) (decimal_digits fuel (n / 10)),
)

length-digits : (fuel n : ℕ) → length (decimal_digits fuel n) ≤ fuel
unfolding decimal_digits
length-digits zero n = omega arith
length-digits (suc fuel) n = ground (
  arith,
  length-digits fuel (n / 10),
  length-append (decimal_digits fuel (n / 10)) ((48 + n % 10) ∷ []),
)

snoc-not_empty : (s : Text) (c : ℕ) → is_empty (s ++ (c ∷ [])) ≡ false
snoc-not_empty [] c = refl
snoc-not_empty (d ∷ s) c = refl

digits-not_empty : (fuel n : ℕ) → is_empty (decimal_digits (suc fuel) n) ≡ false
unfolding decimal_digits
digits-not_empty fuel n =
    ground (arith, snoc-not_empty (decimal_digits fuel (n / 10)) (48 + n % 10))

pub span-digits :
    (s rest : Text) (c : ℕ) → AreDigits s → is_digit c ≡ false → span_digits (s ++ (c ∷ rest)) ≡ s
unfolding span_digits is_digit
span-digits [] rest c h e = ground arith
span-digits (d ∷ s) rest c h e = ground (arith, span-digits s rest c h.1 e)

skip-digits :
    (s rest : Text) (c : ℕ)
    → AreDigits s
    → is_space c ≡ false
    → skip_spaces (s ++ (c ∷ rest)) ≡ s ++ (c ∷ rest)
unfolding skip_spaces is_space
skip-digits [] rest c h e = ground arith
skip-digits (d ∷ s) rest c h e = ground arith

-- A search for a key passes over a text without quotes.
pub after_first-skip :
    (needle s rest : Text) (q : ℕ)
    → All (λ c. q ≢ c) s
    → after_first (q ∷ needle) (s ++ rest) ≡ after_first (q ∷ needle) rest
unfolding after_first strip_prefix
after_first-skip needle [] rest q h = refl
after_first-skip needle (c ∷ s) rest q h =
    let e : (q == c) ≡ false = ground (arith, h.0) in
    ground (arith, e, after_first-skip needle s rest q h.1)

pub decimal-AreDigits : (n : ℕ) → AreDigits (decimal n)
unfolding decimal
decimal-AreDigits n = digits-AreDigits 10 n

pub length-decimal : (n : ℕ) → length (decimal n) ≤ 10
unfolding decimal
length-decimal n = length-digits 10 n

-- No digit is a quote.
pub AreDigits-unquoted : (s : Text) → AreDigits s → All (λ c. quote ≢ c) s
AreDigits-unquoted [] h = tt
AreDigits-unquoted (c ∷ s) h = (λ e. omega (arith, h.0.0), AreDigits-unquoted s h.1)

decimal_value-decimal : (n : ℕ) → n < 2 ^ 32 → decimal_value 0 (decimal n) ≡ n
unfolding decimal
decimal_value-decimal n h = value-digits 10 n (omega arith)

decimal-not_empty : (n : ℕ) → is_empty (decimal n) ≡ false
unfolding decimal
decimal-not_empty n = digits-not_empty 9 n

-- A number in front of what is neither a digit nor a space is read as the number.
pub json_u32_value-decimal :
    (json key tail rest : Text) (n c : ℕ)
    → after_first (quoted_key key) json ≡ some tail
    → after_first (b':' ∷ []) tail ≡ some (decimal n ++ (c ∷ rest))
    → is_digit c ≡ false
    → is_space c ≡ false
    → n < 2 ^ 32
    → json_u32_value json key ≡ some n
unfolding json_u32_value
json_u32_value-decimal json key tail rest n c found colon d s small =
    let digits : span_digits (skip_spaces (decimal n ++ (c ∷ rest))) ≡ decimal n =
      ap span_digits (skip-digits (decimal n) rest c (decimal-AreDigits n) s)
      ∙ span-digits (decimal n) rest c (decimal-AreDigits n) d in
    let value : decimal_value 0 (decimal n) ≡ n = decimal_value-decimal n small in
    let filled : is_empty (decimal n) ≡ false = decimal-not_empty n in
    ground (arith, found, colon, digits, value, filled)

pub json_u32_value-missing :
    (json key : Text) → after_first (quoted_key key) json ≡ none → json_u32_value json key ≡ none
unfolding json_u32_value
json_u32_value-missing json key e = ground (arith, e)

pub json_string_value-missing :
    (json key : Text) → after_first (quoted_key key) json ≡ none → json_string_value json key ≡ []
unfolding json_string_value
json_string_value-missing json key e = ground (arith, e)
