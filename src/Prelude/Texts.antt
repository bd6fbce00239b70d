-- ===== src/Prelude/Texts.antt =====
-- A `std::string` is the list of its bytes. `text "..."` is an ASCII literal.
use Prim.Native.Nat.{ℕ}
use Prim.Native.Char.{code}
use Prim.Native.String.{String}
use mathlib.Core.Path.{◌≡◌, refl}
use mathlib.Core.Bool.{Bool, true, false, ◌&&◌}
use mathlib.Core.Option.{Option, none, some}
use mathlib.Core.List.{List, [], ◌∷◌}
use native.Mathlib.Omega.{arith}
use voicestick.Prelude.Tests.{◌==◌}

abbrev pub Bytes : Type 0
Bytes = List ℕ

abbrev pub Text : Type 0
Text = List ℕ

abbrev codes : String → Text
codes String.[] = []
codes (String.◌∷◌ c s) = code c ∷ codes s

-- Shut, so that literals stay short in goals; a test unfolds it.
unfoldable pub text : String → Text
text s = codes s

abbrev pub is_empty {ℓ} : {A : Type ℓ} → List A → Bool
is_empty [] = true
is_empty (x ∷ xs) = false

unfoldable pub text_eq : Text → Text → Bool
text_eq [] [] = true
text_eq [] (b ∷ bs) = false
text_eq (a ∷ as') [] = false
text_eq (a ∷ as') (b ∷ bs) = a == b && text_eq as' bs

pub text_eq_refl : (a : Text) → text_eq a a ≡ true
unfolding text_eq
text_eq_refl [] = refl
text_eq_refl (a ∷ as') = ground (arith, text_eq_refl as')

pub text_eq→eq : (a b : Text) → text_eq a b ≡ true → a ≡ b
unfolding text_eq
text_eq→eq [] [] h = refl
text_eq→eq [] (b ∷ bs) h = cc
text_eq→eq (a ∷ as') [] h = cc
text_eq→eq (a ∷ as') (b ∷ bs) h = ground (arith, text_eq→eq as' bs)

-- `std::optional<std::string> == std::string`
unfoldable pub is_device : Option Text → Text → Bool
is_device none d = false
is_device (some c) d = text_eq c d

pub is_device→eq : (o : Option Text) (d : Text) → is_device o d ≡ true → o ≡ some d
unfolding is_device
is_device→eq none d h = cc
is_device→eq (some c) d h = ground (arith, text_eq→eq c d)

pub is_device_refl : (d : Text) → is_device (some d) d ≡ true
unfolding is_device
is_device_refl d = text_eq_refl d
