-- ===== src/AsrProtocol/Segments.antt =====
-- The definite segments that the recognizer hands on.
use voicestick.Prelude.{
  ◌≡◌, true, false, not, ◌||◌, List, [], ◌∷◌, Option, arith, refl, Bool-cases, inl, inr,
}
use voicestick.Prelude.Texts.{Text, text_eq_refl}
use voicestick.AsrProtocol.{
  AsrSegment, Result, segment_key, contains, new_segments, extract_segments,
  extract_new_definite_segments,
}

-- Keys are only added.
contains-new :
    (segments : List AsrSegment) (key : Text) (keys : List Text)
    → contains key keys ≡ true
    → contains key (new_segments segments keys).1 ≡ true
unfolding new_segments contains
contains-new [] key keys h = h
contains-new (s ∷ segments) key keys h =
    let later : contains key (segment_key s ∷ keys) ≡ true = ground (arith, h) in
    ground (
      arith,
      contains-new segments key keys h,
      contains-new segments key (segment_key s ∷ keys) later,
    )

-- Segments whose keys are known, where they are definite, give nothing.
AreKnown : List AsrSegment → List Text → Type 0
AreKnown [] keys = Unit {0}
AreKnown (s ∷ segments) keys =
    (s.definite ≡ true → contains (segment_key s) keys ≡ true) × AreKnown segments keys

known-none :
    (segments : List AsrSegment) (keys : List Text)
    → AreKnown segments keys
    → new_segments segments keys ≡ ([], keys)
unfolding new_segments AreKnown
known-none [] keys h = refl
known-none (s ∷ segments) keys h = ground (arith, known-none segments keys h.1)

new-AreKnown :
    (segments : List AsrSegment) (keys : List Text)
    → AreKnown segments (new_segments segments keys).1
unfolding new_segments AreKnown contains
new-AreKnown [] keys = tt
new-AreKnown (s ∷ segments) keys =
    elim (Bool-cases (not s.definite || contains (segment_key s) keys)) [
      | inl skip ↦ rw skip (
        λ definite. contains-new segments (segment_key s) keys (ground (arith, skip)),
        new-AreKnown segments keys,
      )
      | inr new ↦ rw new (
        λ definite.
            contains-new segments (segment_key s) (segment_key s ∷ keys)
              (ground (arith, text_eq_refl (segment_key s))),
        new-AreKnown segments (segment_key s ∷ keys),
      )
    ]

-- Definite segments whose keys are new, also among themselves.
pub AreFresh : List AsrSegment → List Text → Type 0
AreFresh [] keys = Unit {0}
AreFresh (s ∷ segments) keys =
    (s.definite ≡ true)
    × (contains (segment_key s) keys ≡ false)
    × AreFresh segments (segment_key s ∷ keys)

new-AreFresh :
    (segments : List AsrSegment) (keys : List Text) → AreFresh (new_segments segments keys).0 keys
unfolding new_segments AreFresh
new-AreFresh [] keys = tt
new-AreFresh (s ∷ segments) keys =
    elim (Bool-cases (not s.definite || contains (segment_key s) keys)) [
      | inl skip ↦ rw skip (new-AreFresh segments keys)
      | inr new ↦
          rw new
            (ground (arith, new), ground (arith, new), new-AreFresh segments (segment_key s ∷ keys))
    ]

-- Whatever cJSON reads: the segments that a call hands on are definite and have keys that are neither
-- in the set before the call nor equal to one another; and the same message with the set that the call
-- leaves hands on nothing and leaves the set.
pub extract_new_definite_segments-once :
    (parse : Text → Option Result) (json : Text) (keys : List Text)
    → let (segments, known) = extract_new_definite_segments parse json keys in
      AreFresh segments keys × (extract_new_definite_segments parse json known ≡ ([], known))
unfolding extract_new_definite_segments
extract_new_definite_segments-once parse json keys =
    let segments = extract_segments parse json in
    (new-AreFresh segments keys, known-none segments _ (new-AreKnown segments keys))
