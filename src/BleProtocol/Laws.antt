-- ===== src/BleProtocol/Laws.antt =====
-- What the parsers of ble_protocol.cc accept, and the normal form of a device id.
use voicestick.Prelude.{
  ℕ, zero, suc, true, false, ◌≡◌, refl, [], ◌∷◌, none, some, if◌then◌else◌, arith, ◌==◌, inl, inr,
  All, take, length, Bool-cases, Option-cases,
}
use voicestick.Prelude.Texts.{Text, text}
use voicestick.BleProtocol.Json.{strip_prefix, is_space, skip_spaces}
use voicestick.BleProtocol.DeviceId.{
  trim, to_upper, uppercase, is_hex, is_hex4, without_prefix, device_id_from_name,
  normalize_device_id,
}

abbrev AreUpper : Text → Type 0
AreUpper = All (λ c. to_upper c ≡ c)

uppercase-AreUpper : (s : Text) → AreUpper (uppercase s)
unfolding uppercase to_upper
uppercase-AreUpper [] = tt
uppercase-AreUpper (c ∷ s) = (ground arith, uppercase-AreUpper s)

take-AreUpper : (n : ℕ) (s : Text) → AreUpper s → AreUpper (take n s)
take-AreUpper zero s h = tt
take-AreUpper (suc n) [] h = tt
take-AreUpper (suc n) (c ∷ s) h = (h.0, take-AreUpper n s h.1)

strip_prefix-AreUpper :
    (p s : Text) {r : Text} → AreUpper s → strip_prefix p s ≡ some r → AreUpper r
unfolding strip_prefix
strip_prefix-AreUpper [] s h e = ground arith
strip_prefix-AreUpper (n ∷ p) [] h e = cc
strip_prefix-AreUpper (n ∷ p) (c ∷ s) {r} h e = elim (Bool-cases (n == c)) [
  | inl t ↦ strip_prefix-AreUpper p s h.1 (rw t at e)
  | inr f ↦ absurd (cc (rw f at e))
]

without_prefix-AreUpper : (s : Text) → AreUpper s → AreUpper (without_prefix s)
unfolding without_prefix
without_prefix-AreUpper s h = elim (Option-cases (strip_prefix (text "VS-") s)) [
  | inl e ↦ rw (e, without_prefix) h
  | inr (r, e) ↦ rw (e, without_prefix) (strip_prefix-AreUpper (text "VS-") s h e)
]

hex-not_space : (c : ℕ) → is_hex c ≡ true → is_space c ≡ false
unfolding is_hex is_space
hex-not_space c h = ground arith

module _ (a b c d : ℕ) where
  hex4_parts :
      is_hex4 (a ∷ b ∷ c ∷ d ∷ []) ≡ true
      → (is_hex a ≡ true) × (is_hex b ≡ true) × (is_hex c ≡ true) × (is_hex d ≡ true)
  unfolding is_hex4
  hex4_parts h = ground arith

  trim_fixed : is_hex a ≡ true → is_hex d ≡ true → trim (a ∷ b ∷ c ∷ d ∷ []) ≡ a ∷ b ∷ c ∷ d ∷ []
  unfolding trim skip_spaces
  trim_fixed ha hd = rw (hex-not_space a ha) (rw (hex-not_space d hd) refl)

  strip_prefix-hex : is_hex a ≡ true → strip_prefix (text "VS-") (a ∷ b ∷ c ∷ d ∷ []) ≡ none
  unfolding strip_prefix text is_hex
  strip_prefix-hex ha = ground arith

  without_prefix_fixed : is_hex a ≡ true → without_prefix (a ∷ b ∷ c ∷ d ∷ []) ≡ a ∷ b ∷ c ∷ d ∷ []
  unfolding without_prefix
  without_prefix_fixed ha = rw (strip_prefix-hex ha, without_prefix)

  uppercase_fixed :
      AreUpper (a ∷ b ∷ c ∷ d ∷ []) → uppercase (a ∷ b ∷ c ∷ d ∷ []) ≡ a ∷ b ∷ c ∷ d ∷ []
  unfolding uppercase
  uppercase_fixed u = cc

  -- Four upper-case hexadecimal digits are their own normal form.
  digits_fixed :
      is_hex4 (a ∷ b ∷ c ∷ d ∷ []) ≡ true
      → AreUpper (a ∷ b ∷ c ∷ d ∷ [])
      → normalize_device_id (a ∷ b ∷ c ∷ d ∷ []) ≡ a ∷ b ∷ c ∷ d ∷ []
  unfolding normalize_device_id
  digits_fixed h u =
      let p = hex4_parts h in
      rw (trim_fixed p.0 p.3) (rw (uppercase_fixed u) (rw (without_prefix_fixed p.0) (rw h)))

hex4-length : (v : Text) → is_hex4 v ≡ true → length v ≡ 4
unfolding is_hex4
hex4-length v h = ground arith

normalize_device_id_fixed : (v : Text) → is_hex4 v ≡ true → AreUpper v → normalize_device_id v ≡ v
normalize_device_id_fixed [] h u = absurd (omega (arith, hex4-length [] h))
normalize_device_id_fixed (a ∷ []) h u = absurd (omega (arith, hex4-length (a ∷ []) h))
normalize_device_id_fixed (a ∷ b ∷ []) h u = absurd (omega (arith, hex4-length (a ∷ b ∷ []) h))
normalize_device_id_fixed (a ∷ b ∷ c ∷ []) h u =
    absurd (omega (arith, hex4-length (a ∷ b ∷ c ∷ []) h))
normalize_device_id_fixed (a ∷ b ∷ c ∷ d ∷ []) h u = digits_fixed a b c d h u
normalize_device_id_fixed (a ∷ b ∷ c ∷ d ∷ e ∷ v) h u =
    absurd (omega (arith, hex4-length (a ∷ b ∷ c ∷ d ∷ e ∷ v) h))

-- The candidate that `normalize_device_id` tests.
candidate-AreUpper : (s : Text) → AreUpper (take 4 (without_prefix (uppercase (trim s))))
candidate-AreUpper s =
    take-AreUpper 4 (without_prefix (uppercase (trim s)))
      (without_prefix-AreUpper (uppercase (trim s)) (uppercase-AreUpper (trim s)))

module _ (s : Text) where
  normalize_device_id_hit :
      is_hex4 (take 4 (without_prefix (uppercase (trim s)))) ≡ true
      → normalize_device_id s ≡ take 4 (without_prefix (uppercase (trim s)))
  unfolding normalize_device_id
  normalize_device_id_hit t = rw t

  normalize_device_id_miss :
      is_hex4 (take 4 (without_prefix (uppercase (trim s)))) ≡ false → normalize_device_id s ≡ []
  unfolding normalize_device_id
  normalize_device_id_miss f = rw f

normalize_device_id-nil : normalize_device_id [] ≡ []
unfolding normalize_device_id without_prefix strip_prefix text trim skip_spaces uppercase is_hex4
normalize_device_id-nil = refl

-- Normalizing a device id twice is normalizing it once.
pub normalize_device_id_idem :
    (s : Text) → normalize_device_id (normalize_device_id s) ≡ normalize_device_id s
normalize_device_id_idem s =
    elim (Bool-cases (is_hex4 (take 4 (without_prefix (uppercase (trim s)))))) [
      | inl t ↦
          let e = normalize_device_id_hit s t in
          rw e (normalize_device_id_fixed _ t (candidate-AreUpper s))
      | inr f ↦ rw (normalize_device_id_miss s f) normalize_device_id-nil
    ]

named_id :
    (r id : Text)
    → AreUpper r
    → (if is_hex4 (take 4 r) then some (take 4 r) else none) ≡ some id
    → (normalize_device_id id ≡ id) × (length id ≡ 4)
named_id r id u h = elim (Bool-cases (is_hex4 (take 4 r))) [
  | inl t ↦
      let t' : some (take 4 r) ≡ some id = rw t at h in
      let e : take 4 r ≡ id = cc in
      rw (← e)
        (normalize_device_id_fixed (take 4 r) t (take-AreUpper 4 r u), hex4-length (take 4 r) t)
  | inr f ↦ absurd (cc (rw f at h))
]

-- An id taken from an advertised name is in normal form: four upper-case hexadecimal digits.
pub device_id_from_name-normalize_device_id :
    (name id : Text)
    → device_id_from_name name ≡ some id
    → (normalize_device_id id ≡ id) × (length id ≡ 4)
unfolding device_id_from_name
device_id_from_name-normalize_device_id name id h =
    elim (Option-cases (strip_prefix (text "VS-") (uppercase (trim name)))) [
      | inl e ↦ absurd (cc (rw (e, device_id_from_name) at h))
      | inr (r, e) ↦
          named_id r id (strip_prefix-AreUpper _ _ (uppercase-AreUpper (trim name)) e)
            (rw (e, device_id_from_name) at h)
    ]
