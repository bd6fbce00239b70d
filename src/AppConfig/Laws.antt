-- ===== src/AppConfig/Laws.antt =====
-- The lists of devices in the settings.
use voicestick.Prelude.{◌≡◌, true, false, List, [], ◌∷◌, ◌++◌, arith, refl}
use voicestick.Prelude.Texts.{Text, text_eq, text_eq_refl}
use voicestick.BleProtocol.{normalize_device_id}
use voicestick.AppConfig.{
  member, add_ids, split_commas, parse_device_id_list, PairedDeviceEntry, with_id,
}

pub text_eq_sym : (a b : Text) → text_eq a b ≡ text_eq b a
unfolding text_eq
text_eq_sym [] [] = refl
text_eq_sym [] (b ∷ bs) = refl
text_eq_sym (a ∷ s) [] = refl
text_eq_sym (a ∷ s) (b ∷ t) = ground (arith, text_eq_sym s t)

-- No text occurs twice.
unfoldable pub AreDistinct : List Text → Type 0
AreDistinct [] = Unit {0}
AreDistinct (x ∷ xs) = (member x xs ≡ false) × AreDistinct xs

member-snoc :
    (x y : Text) (xs : List Text)
    → member x xs ≡ false
    → text_eq y x ≡ false
    → member x (xs ++ (y ∷ [])) ≡ false
unfolding member
member-snoc x y [] h e = ground (arith, e)
member-snoc x y (z ∷ xs) h e = ground (arith, e, member-snoc x y xs)

distinct-snoc :
    (xs : List Text) (y : Text)
    → AreDistinct xs
    → member y xs ≡ false
    → AreDistinct (xs ++ (y ∷ []))
unfolding AreDistinct member
distinct-snoc [] y h e = (refl, tt)
distinct-snoc (x ∷ xs) y h e = (
  member-snoc x y xs h.0 (ground (arith, e, text_eq_sym x y)),
  distinct-snoc xs y h.1 (ground (arith, e)),
)

add-distinct : (parts ids : List Text) → AreDistinct ids → AreDistinct (add_ids parts ids)
unfolding add_ids
add-distinct [] ids h = h
add-distinct (part ∷ parts) ids h =
    let id = normalize_device_id part in
    ground (
      arith,
      add-distinct parts ids h,
      distinct-snoc ids id h,
      add-distinct parts (ids ++ (id ∷ [])),
    )

-- The list of paired devices that is read from the settings holds no device twice, whatever the text.
pub parse_device_id_list-AreDistinct : (s : Text) → AreDistinct (parse_device_id_list s)
unfolding parse_device_id_list AreDistinct
parse_device_id_list-AreDistinct s = add-distinct (split_commas s) [] tt

-- The device of every entry is in the list.
unfoldable pub AreListed : List PairedDeviceEntry → List Text → Type 0
AreListed [] ids = Unit {0}
AreListed (e ∷ es) ids = (member e.device_id ids ≡ true) × AreListed es ids

member-append :
    (x y : Text) (xs : List Text) → member x xs ≡ true → member x (xs ++ (y ∷ [])) ≡ true
unfolding member
member-append x y [] h = cc
member-append x y (z ∷ xs) h = ground (arith, member-append x y xs)

member-last : (x : Text) (xs : List Text) → member x (xs ++ (x ∷ [])) ≡ true
unfolding member
member-last x [] = ground (arith, text_eq_refl x)
member-last x (z ∷ xs) = ground (arith, member-last x xs)

pub listed-append :
    (es : List PairedDeviceEntry) (ids : List Text) (y : Text)
    → AreListed es ids
    → AreListed es (ids ++ (y ∷ []))
unfolding AreListed
listed-append [] ids y h = tt
listed-append (e ∷ es) ids y h = (member-append e.device_id y ids h.0, listed-append es ids y h.1)

pub with_id-member : (id : Text) (ids : List Text) → member id (with_id id ids) ≡ true
unfolding with_id
with_id-member id ids = ground (arith, member-last id ids)

pub with_id-distinct :
    (id : Text) (ids : List Text) → AreDistinct ids → AreDistinct (with_id id ids)
unfolding with_id
with_id-distinct id ids h = ground (arith, h, distinct-snoc ids id h)

pub with_id-listed :
    (id : Text) (ids : List Text) (es : List PairedDeviceEntry)
    → AreListed es ids
    → AreListed es (with_id id ids)
unfolding with_id
with_id-listed id ids es h = ground (arith, h, listed-append es ids id h)
