-- ===== src/Coordinator/Dictation.antt =====
-- The rest of a dictation in voice_stick_coordinator.cc: final texts, the confirmation before the
-- paste, cancelling, and lost devices.
use voicestick.Prelude.{
  Bool, true, false, not, ◌||◌, List, [], ◌∷◌, Option, none, some, if◌then◌else◌,
}
use voicestick.Prelude.Texts.{Text, text, text_eq, is_empty, is_device}
use voicestick.Coordinator.State.{
  Coordinator, World, SubtitleCycle, Effect, emit, SessionState, ready, PendingPasteKind,
  waiting_to_paste, no_paste, is_idle, OutputProfile, output_profile_for_device,
  should_use_definite_segments, is_subtitle, is_translate,
}
use voicestick.Coordinator.Enter.{
  enter_ready, enter_pending_confirmation, enter_paused_confirmation, refresh_device_ui_state,
  cancel_audio_end_timeout, finish_recognition_cycle,
}
use voicestick.Coordinator.Audio.{
  discard_debug_audio, finish_with_asr_error, send_final_ogg_chunk_if_needed,
  current_recording_duration,
}
use voicestick.Coordinator.Cycles.{has_active_subtitle_session, remove_cycle, erase_active, is_set}

abbrev pub is_ready : SessionState → Bool
is_ready ready = true
is_ready _ = false

abbrev pub is_finalizing : SessionState → Bool
is_finalizing SessionState.finalizing = true
is_finalizing _ = false

abbrev pub is_recording : SessionState → Bool
is_recording SessionState.recording = true
is_recording _ = false

abbrev pub is_waiting_to_paste : PendingPasteKind → Bool
is_waiting_to_paste waiting_to_paste = true
is_waiting_to_paste _ = false

-- What `ShowSubtitleText` does once the text is there.
unfoldable pub show_subtitle_text : Bool → Text → Text → Coordinator → Coordinator
show_subtitle_text succeeded result device_id c =
    if succeeded
    then emit (Effect.show_subtitle result device_id)
        (if has_active_subtitle_session device_id c then c else emit Effect.hide_overlay c)
    else emit (Effect.show_error result (some device_id)) c

-- `ShowSubtitleText` without a completion: a translation comes back through `subtitle_translated`.
unfoldable pub begin_subtitle_text : Text → OutputProfile → Text → Coordinator → Coordinator
begin_subtitle_text label profile device_id c =
    if is_translate profile.transform
    then emit (Effect.translate_subtitle label profile.translation_target device_id) c
    else show_subtitle_text true label device_id c

unfoldable pub recover_from_asr_error : Bool → Coordinator → Coordinator
recover_from_asr_error hide_overlay c =
    if not c.is_showing_asr_error
    then c
    else enter_ready hide_overlay (record c { is_showing_asr_error = false })

-- The text is kept for a later restore and shown for confirmation.
unfoldable pub offer_text : Text → Coordinator → Coordinator
offer_text label c = enter_pending_confirmation label (
    emit (Effect.set_has_recoverable_input true) (record c {
      last_recoverable_text = some label;
      last_recoverable_device_id = c.active_device_id;
    }))

unfoldable pub finish_subtitle_final : Text → OutputProfile → Coordinator → Coordinator
finish_subtitle_final label profile c =
    let c1 : Coordinator = elim c.active_device_id [
      | none ↦ c
      | some device_id ↦ if is_empty label then c else begin_subtitle_text label profile device_id c
    ] in
    enter_ready true (finish_recognition_cycle (record c1 { pending_paste_state = no_paste }))

unfoldable pub finish_with_final_text : Text → Coordinator → Coordinator
finish_with_final_text label c =
    if c.pasted_final_text
    then c
    else let c1 = record c { pasted_final_text = true } in
      let profile = output_profile_for_device c1.config c1.active_device_id in
      if is_subtitle profile.target
      then finish_subtitle_final label profile c1
      else if is_empty label
      then enter_ready false (
          emit Effect.hide_overlay
            (finish_recognition_cycle (record c1 { pending_paste_state = no_paste })))
      else if is_translate profile.transform
      then emit (Effect.translate_text label profile.translation_target)
          (emit (Effect.set_status (text "Translating")) c1)
      else offer_text label c1

-- The completion of a translation that `finish_with_final_text` has asked for.
unfoldable pub translated : Bool → Text → Coordinator → Coordinator
translated succeeded result c =
    if succeeded then offer_text result c else finish_with_asr_error result c

unfoldable pub handle_definite_segment : Text → Bool → Coordinator → Coordinator
handle_definite_segment label definite c = elim c.active_device_id [
  | none ↦ c
  | some device_id ↦
      let profile = output_profile_for_device c.config (some device_id) in
      if not definite || not (should_use_definite_segments c.config profile)
      then c
      else begin_subtitle_text label profile device_id (emit Effect.hide_overlay c)
]

unfoldable pub complete_pending_paste : Text → Coordinator → Coordinator
complete_pending_paste label c =
    let c1 = finish_recognition_cycle (record c { pending_paste_state = no_paste }) in
    emit (Effect.paste label c.config.auto_enter) (enter_ready false c1)

unfoldable pub commit_pending_paste : Text → Coordinator → Coordinator
commit_pending_paste label c =
    if text_eq c.pending_paste_state.label label then complete_pending_paste label c else c

-- `RestoreLastInputConfirmation` behind its tests.
unfoldable pub restore_text : Option Text → Option Text → Coordinator → Coordinator × Bool
restore_text device_id none c = (c, false)
restore_text device_id (some label) c =
    (enter_paused_confirmation label (record c { active_device_id = device_id }), true)

unfoldable pub restore_last_input_confirmation : Option Text → Coordinator → Coordinator × Bool
restore_last_input_confirmation device_id c =
    if not (is_idle c.pending_paste_state.kind)
      || not (is_ready c.session_state)
      || is_set c.active_session_id
    then (c, false)
    else restore_text device_id c.last_recoverable_text c

-- The state after the call, and whether the button was for the pending paste.
unfoldable pub handle_front_button_during_pending_paste : Text → Coordinator → Coordinator × Bool
handle_front_button_during_pending_paste device_id c =
    let pending = c.pending_paste_state in
    if is_idle pending.kind
    then (c, false)
    else if not (is_device c.active_device_id device_id)
    then (c, true)
    else if is_waiting_to_paste pending.kind
    then (enter_paused_confirmation pending.label c, true)
    else (emit (Effect.hide_overlay_then_commit pending.label) c, true)

unfoldable pub cancel_recognition_in_progress : Coordinator → Coordinator
cancel_recognition_in_progress c =
    let c1 = record c { active_session_id = none; active_session_started_at = 0 } in
    let c2 = emit Effect.asr_cancel (cancel_audio_end_timeout c1) in
    enter_ready true (finish_recognition_cycle (record c2 { pending_paste_state = no_paste }))

unfoldable pub cancel_pending_paste : Text → Coordinator → Coordinator
cancel_pending_paste device_id c =
    let mine = is_device c.active_device_id device_id in
    if is_set c.active_session_id
    then (if mine then cancel_recognition_in_progress c else c)
    else if is_finalizing c.session_state
    then (if mine then cancel_recognition_in_progress c else refresh_device_ui_state device_id c)
    else if is_idle c.pending_paste_state.kind
    then (restore_last_input_confirmation (some device_id) c).0
    else if not mine
    then c
    else enter_ready true (finish_recognition_cycle (record c { pending_paste_state = no_paste }))

-- The loop over the subtitle cycles in `CancelActiveCycleIfDeviceDisconnected`.
unfoldable pub drop_disconnected : (Text → Bool) → List SubtitleCycle → Coordinator → Coordinator
drop_disconnected is_connected [] c = c
drop_disconnected is_connected (y ∷ ys) c = drop_disconnected is_connected ys (
    if is_connected y.device_id
    then c
    else let c1 =
        emit Effect.hide_overlay (emit (Effect.subtitle_asr_cancel y.device_id y.session_id) c) in
      remove_cycle y.device_id y.session_id (record c1 {
        active_subtitle_sessions = erase_active y.device_id c1.active_subtitle_sessions;
      }))

unfoldable pub cancel_active_cycle_if_device_disconnected :
    World → (Text → Bool) → Coordinator → Coordinator
cancel_active_cycle_if_device_disconnected w is_connected c =
    let c1 = drop_disconnected is_connected c.subtitle_cycles c in
    elim c1.active_device_id [
      | none ↦ c1
      | some device_id ↦
          if is_connected device_id
          then c1
          else if c1.waiting_for_audio_end
          then send_final_ogg_chunk_if_needed w (current_recording_duration w c1) c1
          else let c2 = record (emit Effect.asr_cancel c1) {
            pending_paste_state = no_paste;
            active_session_id = none;
          } in
            enter_ready true (finish_recognition_cycle (discard_debug_audio c2))
    ]
