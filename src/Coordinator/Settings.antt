-- ===== src/Coordinator/Settings.antt =====
-- New settings and forgotten devices in voice_stick_coordinator.cc, `UpdateConfig` and
-- `RemovePairedDevice`, without the check for new firmware.
use voicestick.Prelude.{Bool, true, false, not, ◌&&◌, ◌||◌, List, [], ◌∷◌, none, if◌then◌else◌}
use voicestick.Prelude.Texts.{Text, text, text_eq, is_empty, is_device}
use voicestick.Coordinator.State.{
  Coordinator, AppConfig, SubtitleCycle, Effect, emit, no_paste, new_recorder, is_idle,
}
use voicestick.Coordinator.Enter.{enter_ready, finish_recognition_cycle}
use voicestick.Coordinator.Audio.{discard_debug_audio}
use voicestick.Coordinator.Cycles.{is_set}

-- The recognizers of all cycles are cancelled.
unfoldable pub cancel_cycles : List SubtitleCycle → Coordinator → Coordinator
cancel_cycles [] c = c
cancel_cycles (y ∷ ys) c =
    cancel_cycles ys (emit (Effect.subtitle_asr_cancel y.device_id y.session_id) c)

unfoldable pub was_recognizing : Coordinator → Bool
was_recognizing c =
    c.asr_started
    || is_set c.active_session_id
    || not (is_idle c.pending_paste_state.kind)
    || not (is_empty c.subtitle_cycles)

unfoldable pub stop_recognizing : Coordinator → Coordinator
stop_recognizing c =
    let c1 = cancel_cycles c.subtitle_cycles (emit Effect.asr_cancel c) in
    let c2 = record (emit Effect.hide_subtitles c1) {
      subtitle_cycles = [];
      active_subtitle_sessions = [];
      active_session_id = none;
      pending_paste_state = no_paste;
    } in
    enter_ready true (finish_recognition_cycle (discard_debug_audio c2))

unfoldable pub same_ids : List Text → List Text → Bool
same_ids [] [] = true
same_ids (x ∷ xs) (y ∷ ys) = text_eq x y && same_ids xs ys
same_ids _ _ = false

unfoldable pub update_config : AppConfig → Coordinator → Coordinator
update_config config c =
    let c1 = if was_recognizing c then stop_recognizing c else c in
    let c2 = record (emit (Effect.send_interaction_mode config.interaction_mode) c1) {
      config = config;
      debug_audio_recorder = new_recorder config.debug_audio_cache;
    } in
    let ids = config.paired_device_ids in
    if same_ids c2.paired_device_ids ids
    then c2
    else emit (Effect.update_paired_device_ids ids)
        (emit (Effect.set_paired_device_ids ids) (record c2 { paired_device_ids = ids }))

-- The list without the first occurrence of an id.
unfoldable pub erase_id : Text → List Text → List Text
erase_id id [] = []
erase_id id (x ∷ xs) = if text_eq x id then xs else x ∷ erase_id id xs

unfoldable pub has_id : Text → List Text → Bool
has_id id [] = false
has_id id (x ∷ xs) = text_eq x id || has_id id xs

-- What ends when the active device is forgotten.
unfoldable pub forget_active : Coordinator → Coordinator
forget_active c =
    let c1 = discard_debug_audio (emit Effect.asr_cancel c) in
    enter_ready true (
      finish_recognition_cycle
        (record c1 { active_session_id = none; pending_paste_state = no_paste }))

unfoldable pub remove_paired_device : Text → Coordinator → Coordinator
remove_paired_device device_id c =
    if not (has_id device_id c.paired_device_ids)
    then c
    else let ids = erase_id device_id c.paired_device_ids in
      let c1 = record c {
        paired_device_ids = ids;
        config = record c.config { paired_device_ids = ids };
      } in
      let c2 = if is_device c1.active_device_id device_id then forget_active c1 else c1 in
      let c3 =
        emit (Effect.update_paired_device_ids ids) (emit (Effect.set_paired_device_ids ids) c2) in
      emit (Effect.set_status (if is_empty ids then text "Pair a VoiceStick" else text "Ready")) c3
