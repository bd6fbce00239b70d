-- ===== src/Coordinator/Cycles.antt =====
-- The maps of subtitle mode in voice_stick_coordinator.cc: `subtitle_cycles_` by device and session,
-- `active_subtitle_sessions_` by device. A key stands at most once;
-- a list keeps the order of insertion, where the maps of the source are sorted by key.
use voicestick.Prelude.{
  ℕ, ◌==◌, Bool, true, false, not, ◌&&◌, List, [], ◌∷◌, Option, none, some, if◌then◌else◌, ◌||◌,
}
use voicestick.Prelude.Texts.{Text, text_eq}
use voicestick.Coordinator.State.{Coordinator, SubtitleCycle}

abbrev pub has_key : Text → ℕ → SubtitleCycle → Bool
has_key device_id session_id cycle =
    text_eq cycle.device_id device_id && cycle.session_id == session_id

unfoldable pub find_cycle : Text → ℕ → List SubtitleCycle → Option SubtitleCycle
find_cycle device_id session_id [] = none
find_cycle device_id session_id (y ∷ ys) =
    if has_key device_id session_id y then some y else find_cycle device_id session_id ys

unfoldable pub erase_cycle : Text → ℕ → List SubtitleCycle → List SubtitleCycle
erase_cycle device_id session_id [] = []
erase_cycle device_id session_id (y ∷ ys) =
    let rest = erase_cycle device_id session_id ys in
    if has_key device_id session_id y then rest else y ∷ rest

-- A write through a pointer into the map.
unfoldable pub set_cycle : SubtitleCycle → List SubtitleCycle → List SubtitleCycle
set_cycle cycle [] = []
set_cycle cycle (y ∷ ys) =
    let rest = set_cycle cycle ys in
    if has_key cycle.device_id cycle.session_id y then cycle ∷ rest else y ∷ rest

unfoldable pub find_active : Text → List (Text × ℕ) → Option ℕ
find_active device_id [] = none
find_active device_id ((key, session_id) ∷ m) =
    if text_eq key device_id then some session_id else find_active device_id m

unfoldable pub erase_active : Text → List (Text × ℕ) → List (Text × ℕ)
erase_active device_id [] = []
erase_active device_id ((key, session_id) ∷ m) =
    let rest = erase_active device_id m in
    if text_eq key device_id then rest else (key, session_id) ∷ rest

-- `active_subtitle_sessions_[device_id] = session_id`
unfoldable pub set_active : Text → ℕ → List (Text × ℕ) → List (Text × ℕ)
unfolding erase_active
set_active device_id session_id m = (device_id, session_id) ∷ erase_active device_id m

unfoldable pub find_subtitle_cycle : Text → ℕ → Coordinator → Option SubtitleCycle
find_subtitle_cycle device_id session_id c = find_cycle device_id session_id c.subtitle_cycles

unfoldable pub find_active_subtitle_cycle : Text → Coordinator → Option SubtitleCycle
find_active_subtitle_cycle device_id c = elim (find_active device_id c.active_subtitle_sessions) [
  | none ↦ none
  | some session_id ↦ find_cycle device_id session_id c.subtitle_cycles
]

abbrev pub is_session : Option ℕ → ℕ → Bool
is_session none session_id = false
is_session (some s) session_id = s == session_id

unfoldable pub is_active_subtitle_cycle : Text → ℕ → Coordinator → Bool
is_active_subtitle_cycle device_id session_id c =
    is_session (find_active device_id c.active_subtitle_sessions) session_id

abbrev pub is_set {ℓ} : {A : Type ℓ} → Option A → Bool
is_set none = false
is_set (some a) = true

unfoldable pub has_active_subtitle_session : Text → Coordinator → Bool
has_active_subtitle_session device_id c = is_set (find_active device_id c.active_subtitle_sessions)

unfoldable pub clear_active_subtitle_session : Text → ℕ → Coordinator → Coordinator
clear_active_subtitle_session device_id session_id c =
    if is_session (find_active device_id c.active_subtitle_sessions) session_id
    then record c { active_subtitle_sessions = erase_active device_id c.active_subtitle_sessions }
    else c

unfoldable pub should_hide_overlay_for_finished : Text → ℕ → Coordinator → Bool
should_hide_overlay_for_finished device_id session_id c =
    is_active_subtitle_cycle device_id session_id c || not (has_active_subtitle_session device_id c)

unfoldable pub can_update_overlay : Text → ℕ → Coordinator → Bool
can_update_overlay device_id session_id c =
    elim (find_active device_id c.active_subtitle_sessions) [
      | none ↦ true
      | some s ↦ s == session_id
    ]

unfoldable pub should_send_subtitle_partial : SubtitleCycle → Coordinator → Bool
should_send_subtitle_partial cycle c =
    is_active_subtitle_cycle cycle.device_id cycle.session_id c && cycle.sent_final_audio_chunk

unfoldable pub put_cycle : SubtitleCycle → Coordinator → Coordinator
put_cycle cycle c = record c { subtitle_cycles = set_cycle cycle c.subtitle_cycles }

unfoldable pub remove_cycle : Text → ℕ → Coordinator → Coordinator
remove_cycle device_id session_id c = record c {
  subtitle_cycles = erase_cycle device_id session_id c.subtitle_cycles;
}
