-- ===== src/AudioPipeline/Bundles.antt =====
-- The bundles of `tx_task`: the loop that fills one against a description without its state.
use voicestick.Prelude.{
  ℕ, zero, suc, ◌≡◌, ltb, List, [], ◌∷◌, ◌++◌, Option, none, some, length, take, drop, append-nil,
  append_assoc, if◌then◌else◌, arith, Bool-cases, inl, inr, ◌∙◌,
}
use voicestick.AudioPipeline.{AudioPacket, collect, is_sentinel}

-- The packets that come before the first wait that times out and before the end of the session.
unfoldable pub until_end : List (Option AudioPacket) → List AudioPacket
until_end [] = []
until_end (none ∷ received) = []
until_end (some p ∷ received) =
    let rest = until_end received in if is_sentinel p then [] else p ∷ rest

-- The number of the end of the session, where it comes next.
unfoldable pub next_end : List (Option AudioPacket) → Option ℕ
next_end [] = none
next_end (none ∷ received) = none
next_end (some p ∷ received) = some p.seq

ltb-suc : (n m : ℕ) → ltb (suc n) (suc m) ≡ ltb n m
ltb-suc n m = ground arith

-- A bundle with room for `room` more packets takes the first of those that come before a wait times
-- out or the session ends, at most as many as there is room for, in their order; and it reports the
-- end of the session, by its number, exactly where the room is not used up and the end is what
-- comes next.
pub collect-until_end :
    (room : ℕ) (bundle : List AudioPacket) (received : List (Option AudioPacket))
    → let before = until_end received in
      ((collect room bundle received).0 ≡ bundle ++ take room before)
      × ((collect room bundle received).1
          ≡ (if ltb (length before) room then next_end (drop (length before) received) else none))
unfolding collect until_end next_end
collect-until_end zero bundle received = ground (arith, append-nil bundle)
collect-until_end (suc room) bundle [] = ground (arith, append-nil bundle)
collect-until_end (suc room) bundle (none ∷ received) = ground (arith, append-nil bundle)
collect-until_end (suc room) bundle (some p ∷ received) = elim (Bool-cases (is_sentinel p)) [
  | inl e ↦ rw e ground (arith, append-nil bundle)
  | inr e ↦
      let more = collect-until_end room (bundle ++ (p ∷ [])) received in
      rw e (
        more.0 ∙ append_assoc bundle (p ∷ []) (take room (until_end received)),
        rw (ltb-suc (length (until_end received)) room) more.1,
      )
]
