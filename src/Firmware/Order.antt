-- ===== src/Firmware/Order.antt =====
-- The order of firmware versions.
use voicestick.Prelude.{ℕ, ◌≡◌, Bool, true, false, List, [], ◌∷◌, Option, none, some, arith, refl}
use voicestick.Prelude.Texts.{Text}
use voicestick.Firmware.{
  Version, numbers_less, text_less, suffix_less, version_less, parse_version, is_older_than,
  parsed_less,
}

-- Steps of two comparisons: smaller, or smaller after equal.
record Chains (a b c : Option Bool) : Type 0 where
  pub lt_lt : a ≡ some true → b ≡ some true → c ≡ some true
  pub lt_eq : a ≡ some true → b ≡ none → c ≡ some true
  pub eq_lt : a ≡ none → b ≡ some true → c ≡ some true
  pub eq_eq : a ≡ none → b ≡ none → c ≡ none

numbers-Chains : (x y z : List ℕ) → Chains (numbers_less x y) (numbers_less y z) (numbers_less x z)
unfolding numbers_less
numbers-Chains [] [] z = record {
  lt_lt = λ p q. q;
  lt_eq = λ p q. ground arith;
  eq_lt = λ p q. q;
  eq_eq = λ p q. q;
}
numbers-Chains [] (b ∷ y) [] = ground (arith, numbers-Chains [] y [])
numbers-Chains [] (b ∷ y) (c ∷ z) = ground (arith, numbers-Chains [] y z)
numbers-Chains (a ∷ x) [] [] = ground (arith, numbers-Chains x [] [])
numbers-Chains (a ∷ x) [] (c ∷ z) = ground (arith, numbers-Chains x [] z)
numbers-Chains (a ∷ x) (b ∷ y) [] = ground (arith, numbers-Chains x y [])
numbers-Chains (a ∷ x) (b ∷ y) (c ∷ z) = ground (arith, numbers-Chains x y z)

numbers-same : (x : List ℕ) → numbers_less x x ≡ none
unfolding numbers_less
numbers-same [] = refl
numbers-same (a ∷ x) = ground (arith, numbers-same x)

text_less_irrefl : (s : Text) → text_less s s ≡ false
unfolding text_less
text_less_irrefl [] = refl
text_less_irrefl (a ∷ s) = ground (arith, text_less_irrefl s)

text_less_trans :
    (s t u : Text) → text_less s t ≡ true → text_less t u ≡ true → text_less s u ≡ true
unfolding text_less
text_less_trans s t [] p q = q
text_less_trans s [] (c ∷ u) p q = cc
text_less_trans [] (b ∷ t) (c ∷ u) p q = refl
text_less_trans (a ∷ s) (b ∷ t) (c ∷ u) p q = ground (arith, text_less_trans s t u)

suffix_less_irrefl : (v : Version) → suffix_less v v ≡ false
unfolding suffix_less
suffix_less_irrefl v = ground (arith, text_less_irrefl v.suffix)

suffix_less_trans :
    (u v w : Version) → suffix_less u v ≡ true → suffix_less v w ≡ true → suffix_less u w ≡ true
unfolding suffix_less
suffix_less_trans u v w p q = ground (arith, text_less_trans u.suffix v.suffix w.suffix)

version_less_irrefl : (v : Version) → version_less v v ≡ false
unfolding version_less
version_less_irrefl v = ground (arith, numbers-same v.numbers, suffix_less_irrefl v)

version_less_trans :
    (u v w : Version) → version_less u v ≡ true → version_less v w ≡ true → version_less u w ≡ true
unfolding version_less
version_less_trans u v w p q =
    ground (arith, numbers-Chains u.numbers v.numbers w.numbers, suffix_less_trans u v w)

parsed_irrefl : (u : Option Version) → parsed_less u u ≡ false
unfolding parsed_less
parsed_irrefl none = refl
parsed_irrefl (some u) = version_less_irrefl u

parsed_trans :
    (u v w : Option Version)
    → parsed_less u v ≡ true
    → parsed_less v w ≡ true
    → parsed_less u w ≡ true
unfolding parsed_less
parsed_trans none v w p q = cc
parsed_trans (some u) none w p q = cc
parsed_trans (some u) (some v) none p q = cc
parsed_trans (some u) (some v) (some w) p q = version_less_trans u v w p q

-- No version is older than itself, whatever the text.
pub is_older_than_irrefl : (current : Text) → is_older_than current current ≡ false
unfolding is_older_than
is_older_than_irrefl current = parsed_irrefl (parse_version current)

-- A version that is older than a second one, which is older than a third one, is older than the
-- third one, and the second one is not older than it.
pub is_older_than_trans :
    (a b c : Text)
    → is_older_than a b ≡ true
    → is_older_than b c ≡ true
    → (is_older_than a c ≡ true) × (is_older_than b a ≡ false)
unfolding is_older_than
is_older_than_trans a b c p q =
    let u = parse_version a in
    let v = parse_version b in
    (parsed_trans u v (parse_version c) p q, ground (arith, parsed_trans u v u p, parsed_irrefl u))
