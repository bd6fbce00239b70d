-- ===== src/Coordinator/Subtitle.antt =====
-- Subtitle mode in voice_stick_coordinator.cc: the ways in which a cycle ends, and the wait for the
-- last frame.
use voicestick.Prelude.{ℕ, ◌+◌, Bool, true, false, not, List, [], ◌∷◌, none, some, if◌then◌else◌}
use voicestick.Prelude.Texts.{Text, text, text_eq}
use voicestick.ByteUtils.{u64}
use voicestick.Coordinator.State.{Coordinator, SubtitleCycle, Effect, emit, is_click_to_talk}
use voicestick.Coordinator.Cycles.{
  find_subtitle_cycle, find_active_subtitle_cycle, erase_active, has_active_subtitle_session,
  clear_active_subtitle_session, put_cycle, remove_cycle,
}

abbrev pub tell : Text → Text → Coordinator → Coordinator
tell state device_id = emit (Effect.send_ui_state state [] (some device_id))

unfoldable pub cancel_subtitle_audio_end_timeout : SubtitleCycle → SubtitleCycle
cancel_subtitle_audio_end_timeout y = record y {
  waiting_for_audio_end = false;
  audio_end_wait_generation = u64 (y.audio_end_wait_generation + 1);
}

unfoldable pub finish_subtitle_cycle_with_error : Text → ℕ → Text → Coordinator → Coordinator
finish_subtitle_cycle_with_error device_id session_id message c =
    elim (find_subtitle_cycle device_id session_id c) [
      | none ↦ c
      | some y ↦
          let c1 = emit (Effect.subtitle_asr_cancel device_id session_id) c in
          let c2 = clear_active_subtitle_session device_id session_id c1 in
          remove_cycle device_id session_id (emit (Effect.show_error message (some device_id)) c2)
    ]

unfoldable pub cancel_subtitle_cycle : Text → Coordinator → Coordinator
cancel_subtitle_cycle device_id c = elim (find_active_subtitle_cycle device_id c) [
  | none ↦ c
  | some y ↦
      let c1 = emit (Effect.subtitle_asr_cancel device_id y.session_id) c in
      let c2 = tell (text "ready") device_id (emit Effect.hide_overlay c1) in
      remove_cycle device_id y.session_id (clear_active_subtitle_session device_id y.session_id c2)
]

unfoldable pub finish_subtitle_cycle : Text → ℕ → Bool → Coordinator → Coordinator
finish_subtitle_cycle device_id session_id hide_overlay c =
    elim (find_subtitle_cycle device_id session_id c) [
      | none ↦ c
      | some y ↦
          let c1 = if hide_overlay then emit Effect.hide_overlay c else c in
          let c2 = clear_active_subtitle_session device_id session_id c1 in
          let c3 =
            if not (has_active_subtitle_session device_id c2)
            then tell (text "ready") device_id (emit (Effect.set_status (text "Ready")) c2)
            else c2 in
          remove_cycle device_id session_id c3
    ]

-- The loop of `CancelSubtitleCyclesForDevice`.
unfoldable pub cancel_cycles_of : Text → List SubtitleCycle → Coordinator → Coordinator
cancel_cycles_of device_id [] c = c
cancel_cycles_of device_id (y ∷ ys) c = cancel_cycles_of device_id ys (
    if text_eq y.device_id device_id
    then remove_cycle y.device_id y.session_id
        (emit (Effect.subtitle_asr_cancel y.device_id y.session_id) c)
    else c)

unfoldable pub cancel_subtitle_cycles_for_device : Text → Coordinator → Coordinator
cancel_subtitle_cycles_for_device device_id c =
    let c1 = record c {
      active_subtitle_sessions = erase_active device_id c.active_subtitle_sessions;
    } in
    tell (text "ready") device_id
      (emit Effect.hide_overlay (cancel_cycles_of device_id c1.subtitle_cycles c1))

unfoldable pub finish_subtitle_audio_input : SubtitleCycle → Coordinator → Coordinator
finish_subtitle_audio_input y c =
    if not (is_click_to_talk c.config.interaction_mode)
    then tell (text "ready") y.device_id (clear_active_subtitle_session y.device_id y.session_id c)
    else tell (text "thinking") y.device_id (emit (Effect.set_status (text "Processing")) c)

unfoldable pub schedule_subtitle_audio_end_timeout : Text → ℕ → Coordinator → Coordinator
schedule_subtitle_audio_end_timeout device_id session_id c =
    elim (find_subtitle_cycle device_id session_id c) [
      | none ↦ c
      | some y ↦
          let generation = u64 (y.audio_end_wait_generation + 1) in
          emit (Effect.start_subtitle_timer generation device_id session_id)
            (put_cycle (record y { audio_end_wait_generation = generation }) c)
    ]

unfoldable pub begin_waiting_for_subtitle_audio_end : SubtitleCycle → Coordinator → Coordinator
begin_waiting_for_subtitle_audio_end y c =
    if y.waiting_for_audio_end
    then c
    else let c1 = put_cycle (record y { waiting_for_audio_end = true }) c in
      let c2 =
        if is_click_to_talk c.config.interaction_mode
        then tell (text "thinking") y.device_id (emit (Effect.set_status (text "Processing")) c1)
        else c1 in
      schedule_subtitle_audio_end_timeout y.device_id y.session_id c2
