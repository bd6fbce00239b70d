-- ===== src/Coordinator/Events.antt =====
-- What the coordinator is called with: the callbacks that `Start`, `ConfigureAsrCallbacks` and
-- `ConfigureSubtitleAsrCallbacks` install, the timers, and the completions of the window and of the
-- translator. `device_info` only concerns firmware and is left out.
use voicestick.Coordinator.Settings
use voicestick.Prelude.{
  ℕ, ◌==◌, Bool, true, false, not, ◌&&◌, ◌||◌, List, [], ◌∷◌, Option, none, some, if◌then◌else◌,
}
use voicestick.Prelude.Texts.{Text, text, text_eq, is_empty}
use voicestick.BleProtocol.{AudioFrame, StateEvent}
use voicestick.Coordinator.State.{
  AppConfig, Coordinator, World, Effect, emit, output_profile_for_device,
  should_use_definite_segments, is_translate,
}
use voicestick.Coordinator.Enter.{send_ui_state_for_active_device}
use voicestick.Coordinator.Audio.{
  finish_with_asr_error, current_recording_duration, send_final_ogg_chunk_if_needed,
}
use voicestick.Coordinator.Cycles.{
  find_subtitle_cycle, is_active_subtitle_cycle, put_cycle, should_hide_overlay_for_finished,
  can_update_overlay, should_send_subtitle_partial,
}
use voicestick.Coordinator.Subtitle.{tell, finish_subtitle_cycle_with_error, finish_subtitle_cycle}
use voicestick.Coordinator.SubtitleAudio.{send_subtitle_final_ogg_chunk_if_needed}
use voicestick.Coordinator.Dictation.{
  show_subtitle_text, begin_subtitle_text, recover_from_asr_error, finish_with_final_text,
  handle_definite_segment, translated, commit_pending_paste, restore_last_input_confirmation,
  cancel_active_cycle_if_device_disconnected,
}
use voicestick.Coordinator.Buttons.{
  handle_button_down, handle_button_up, handle_button_click, handle_audio_frame,
}

unfoldable pub handle_state_event : World → StateEvent → Text → Coordinator → Coordinator
handle_state_event w event device_id c =
    if text_eq event.event (text "button_down")
    then handle_button_down w event device_id c
    else if text_eq event.event (text "button_up")
    then handle_button_up w event device_id c
    else if text_eq event.event (text "button_click")
    then handle_button_click w event device_id c
    else c

unfoldable pub on_partial : Text → Coordinator → Coordinator
on_partial label c =
    let c1 = emit (Effect.show_partial label c.active_device_id) c in
    if c1.sent_final_audio_chunk
    then send_ui_state_for_active_device (text "thinking") label c1
    else c1

unfoldable pub on_upgrade_url : Text → Text → Coordinator → Coordinator
on_upgrade_url url message c =
    emit (Effect.show_cloud_upgrade message url c.active_device_id) (recover_from_asr_error false c)

-- Whether two optional values agree, as `!=` of `std::optional` tests it.
unfoldable pub same_session : Option ℕ → Option ℕ → Bool
same_session none none = true
same_session (some a) (some b) = a == b
same_session _ _ = false

unfoldable pub same_device : Option Text → Option Text → Bool
same_device none none = true
same_device (some a) (some b) = text_eq a b
same_device _ _ = false

-- Whether the timer that wakes up is not the one that the coordinator waits for.
unfoldable pub is_stale : ℕ → Option ℕ → Option Text → Coordinator → Bool
is_stale generation session_id device_id c =
    not (c.audio_end_wait_generation == generation)
    || not c.waiting_for_audio_end
    || not (same_session c.active_session_id session_id)
    || not (same_device c.active_device_id device_id)

-- The thread of `ScheduleAudioEndTimeout` when it wakes up.
unfoldable pub audio_end_timeout : World → ℕ → Option ℕ → Option Text → Coordinator → Coordinator
audio_end_timeout w generation session_id device_id c =
    if is_stale generation session_id device_id c
    then c
    else send_final_ogg_chunk_if_needed w (current_recording_duration w c) c

-- The thread of `ScheduleSubtitleAudioEndTimeout` when it wakes up.
unfoldable pub subtitle_audio_end_timeout : World → ℕ → Text → ℕ → Coordinator → Coordinator
subtitle_audio_end_timeout w generation device_id session_id c =
    elim (find_subtitle_cycle device_id session_id c) [
      | none ↦ c
      | some y ↦
          if not y.waiting_for_audio_end || not (y.audio_end_wait_generation == generation)
          then c
          else send_subtitle_final_ogg_chunk_if_needed w device_id session_id c
    ]

unfoldable pub on_subtitle_partial : Text → ℕ → Text → Coordinator → Coordinator
on_subtitle_partial device_id session_id label c =
    elim (find_subtitle_cycle device_id session_id c) [
      | none ↦ c
      | some y ↦
          if not (can_update_overlay device_id session_id c)
          then c
          else let c1 = emit (Effect.show_partial label (some device_id)) c in
            if should_send_subtitle_partial y c1
            then emit (Effect.send_ui_state (text "thinking") label (some device_id)) c1
            else c1
    ]

unfoldable pub handle_subtitle_definite_segment : Text → Bool → Text → Coordinator → Coordinator
handle_subtitle_definite_segment label definite device_id c =
    let profile = output_profile_for_device c.config (some device_id) in
    if not definite || not (should_use_definite_segments c.config profile)
    then c
    else begin_subtitle_text label profile device_id (emit Effect.hide_overlay c)

unfoldable pub on_subtitle_segment : Text → ℕ → Text → Bool → Coordinator → Coordinator
on_subtitle_segment device_id session_id label definite c =
    if not (is_active_subtitle_cycle device_id session_id c)
    then c
    else handle_subtitle_definite_segment label definite device_id c

-- The completion that `FinishSubtitleCycleWithFinalText` gives to `ShowSubtitleText`.
unfoldable pub finish_shown : Text → ℕ → Bool → Coordinator → Coordinator
finish_shown device_id session_id did_show_subtitle c =
    finish_subtitle_cycle device_id session_id
      (did_show_subtitle && should_hide_overlay_for_finished device_id session_id c) c

unfoldable pub subtitle_final_translated : Text → ℕ → Bool → Text → Coordinator → Coordinator
subtitle_final_translated device_id session_id succeeded result c =
    finish_shown device_id session_id succeeded (show_subtitle_text succeeded result device_id c)

unfoldable pub finish_subtitle_cycle_with_final_text : Text → ℕ → Text → Coordinator → Coordinator
finish_subtitle_cycle_with_final_text device_id session_id label c =
    elim (find_subtitle_cycle device_id session_id c) [
      | none ↦ c
      | some y ↦
          if y.finished_final_text
          then c
          else let c1 = put_cycle (record y { finished_final_text = true }) c in
            let profile = output_profile_for_device c1.config (some device_id) in
            if is_empty label
            then finish_shown device_id session_id true c1
            else if is_translate profile.transform
            then emit
                (Effect.translate_subtitle_final label profile.translation_target device_id
                  session_id)
                c1
            else subtitle_final_translated device_id session_id true label c1
    ]

pub data Event : Type 0 where
  state_event : Text → StateEvent → Event
  audio_frame : Text → AudioFrame → Event
  asr_partial : Text → Event
  asr_segment : Text → Bool → Event
  asr_final : Text → Event
  asr_error : Text → Event
  asr_upgrade_url : Text → Text → Event
  audio_end_timer : ℕ → Option ℕ → Option Text → Event
  text_translated : Bool → Text → Event
  countdown_over : Text → Event
  overlay_hidden : Text → Event
  error_shown : Event
  subtitle_partial : Text → ℕ → Text → Event
  subtitle_segment : Text → ℕ → Text → Bool → Event
  subtitle_final : Text → ℕ → Text → Event
  subtitle_error : Text → ℕ → Text → Event
  subtitle_upgrade_url : Text → Text → Text → Event
  subtitle_timer : ℕ → Text → ℕ → Event
  subtitle_translated : Bool → Text → Text → Event
  subtitle_cycle_translated : Text → ℕ → Bool → Text → Event
  subtitle_error_shown : Text → Event
  connection_change : (Text → Bool) → Event
  restore_last_input : Event
  update_config : AppConfig → Event
  remove_paired_device : Text → Event

-- One event. Of `on_connection_change` it is the end of the cycle whose device is lost; the list and
-- the status that the window is given, and the mode that is sent to the sticks, are left out.
unfoldable pub step : World → Event → Coordinator → Coordinator
step w (state_event device_id event) c = handle_state_event w event device_id c
step w (audio_frame device_id frame) c = handle_audio_frame w frame device_id c
step w (asr_partial label) c = on_partial label c
step w (asr_segment label definite) c = handle_definite_segment label definite c
step w (asr_final label) c = finish_with_final_text label c
step w (asr_error message) c = finish_with_asr_error message c
step w (asr_upgrade_url url message) c = on_upgrade_url url message c
step w (audio_end_timer generation session_id device_id) c =
    audio_end_timeout w generation session_id device_id c
step w (text_translated succeeded result) c = translated succeeded result c
step w (countdown_over label) c = commit_pending_paste label c
step w (overlay_hidden label) c = commit_pending_paste label c
step w error_shown c = recover_from_asr_error false c
step w (subtitle_partial device_id session_id label) c =
    on_subtitle_partial device_id session_id label c
step w (subtitle_segment device_id session_id label definite) c =
    on_subtitle_segment device_id session_id label definite c
step w (subtitle_final device_id session_id label) c =
    finish_subtitle_cycle_with_final_text device_id session_id label c
step w (subtitle_error device_id session_id message) c =
    finish_subtitle_cycle_with_error device_id session_id message c
step w (subtitle_upgrade_url device_id url message) c =
    emit (Effect.show_cloud_upgrade message url (some device_id)) (tell (text "ready") device_id c)
step w (subtitle_timer generation device_id session_id) c =
    subtitle_audio_end_timeout w generation device_id session_id c
step w (subtitle_translated succeeded result device_id) c =
    show_subtitle_text succeeded result device_id c
step w (subtitle_cycle_translated device_id session_id succeeded result) c =
    subtitle_final_translated device_id session_id succeeded result c
step w (subtitle_error_shown device_id) c = tell (text "ready") device_id c
step w (connection_change is_connected) c =
    cancel_active_cycle_if_device_disconnected w is_connected c
step w restore_last_input c = (restore_last_input_confirmation c.last_recoverable_device_id c).0
step w (Event.update_config config) c = Settings.update_config config c
step w (Event.remove_paired_device device_id) c = Settings.remove_paired_device device_id c

unfoldable pub run : List (World × Event) → Coordinator → Coordinator
run [] c = c
run ((w, event) ∷ rest) c = run rest (step w event c)
