-- ===== src/Coordinator/Buttons.antt =====
-- The handlers of voice_stick_coordinator.cc for a stick's buttons and audio frames, and the timeout
-- of the last frame.
use voicestick.Prelude.{
  ℕ, ◌+◌, ◌==◌, ltb, leb, Bool, true, false, not, ◌&&◌, ◌||◌, List, [], ◌∷◌, Option, none, some,
  if◌then◌else◌,
}
use voicestick.Prelude.Texts.{Text, text, text_eq, is_empty, is_device, Bytes}
use voicestick.BleProtocol.{AudioFrame, StateEvent, is_end}
use voicestick.Ogg.{append, reset, Muxer}
use voicestick.Coordinator.State.{
  Coordinator, World, SubtitleCycle, Effect, emit, recording, no_paste, is_subtitle,
  is_click_to_talk, record_audio, start_recorder,
}
use voicestick.Coordinator.Enter.{
  set_session_state, enter_finalizing, refresh_device_ui_state, send_ui_state_for_active_device,
  cancel_audio_end_timeout,
}
use voicestick.Coordinator.Audio.{
  minimum_recording, current_recording_duration, cancel_short_recording,
  begin_waiting_for_audio_end, send_or_buffer_ogg_chunk, send_final_ogg_chunk_if_needed,
  finish_debug_audio,
}
use voicestick.Coordinator.Cycles.{
  has_active_subtitle_session, find_subtitle_cycle, is_set, is_session,
}
use voicestick.Coordinator.Subtitle.{tell, cancel_subtitle_cycle, cancel_subtitle_cycles_for_device}
use voicestick.Coordinator.SubtitleAudio.{
  handle_subtitle_primary_button_down, handle_subtitle_primary_button_up,
  handle_subtitle_audio_frame,
}
use voicestick.Coordinator.Dictation.{
  is_ready, is_recording, is_finalizing, handle_front_button_during_pending_paste,
  cancel_pending_paste,
}

-- The start of a recording.
unfoldable pub begin_recording : World → ℕ → Text → Coordinator → Coordinator
begin_recording w session_id device_id c =
    let c1 = record c {
      active_session_id = some session_id;
      active_device_id = some device_id;
      active_session_started_at = w.now;
      received_audio_frames = 0;
      last_audio_seq = none;
      buffered_ogg_chunks = [];
      asr_started = false;
      sent_final_audio_chunk = false;
      pasted_final_text = false;
      pending_paste_state = no_paste;
      is_showing_asr_error = false;
      ogg_muxer = reset c.ogg_muxer;
      debug_audio_recorder = start_recorder device_id session_id c.debug_audio_recorder;
    } in
    let c2 = set_session_state recording c1 in
    send_ui_state_for_active_device (text "recording") []
      (emit (Effect.show_listening c2.active_device_id) c2)

unfoldable pub begin_recording_if_any : World → Option ℕ → Text → Coordinator → Coordinator
begin_recording_if_any w none device_id c = tell (text "ready") device_id c
begin_recording_if_any w (some session_id) device_id c =
    if session_id == 0
    then tell (text "ready") device_id c
    else begin_recording w session_id device_id c

unfoldable pub handle_primary_button_down : World → Option ℕ → Text → Coordinator → Coordinator
handle_primary_button_down w session_id device_id c =
    if is_subtitle c.config.default_output_profile.target
    then handle_subtitle_primary_button_down w session_id device_id c
    else let (c1, handled) = handle_front_button_during_pending_paste device_id c in
      if handled
      then c1
      else if not (is_ready c1.session_state) || is_set c1.active_device_id
      then refresh_device_ui_state device_id c1
      else begin_recording_if_any w session_id device_id c1

unfoldable pub handle_primary_button_up : World → Text → Coordinator → Coordinator
handle_primary_button_up w device_id c =
    if has_active_subtitle_session device_id c
    then handle_subtitle_primary_button_up w device_id c
    else if not (is_set c.active_session_id) || not (is_device c.active_device_id device_id)
    then c
    else if ltb (current_recording_duration w c) minimum_recording
    then cancel_short_recording c
    else begin_waiting_for_audio_end c

unfoldable pub has_cycle_of : Text → List SubtitleCycle → Bool
has_cycle_of device_id [] = false
has_cycle_of device_id (y ∷ ys) = text_eq y.device_id device_id || has_cycle_of device_id ys

unfoldable pub handle_secondary_button_click : Text → Coordinator → Coordinator
handle_secondary_button_click device_id c =
    if has_active_subtitle_session device_id c
    then cancel_subtitle_cycle device_id c
    else if has_cycle_of device_id c.subtitle_cycles
    then cancel_subtitle_cycles_for_device device_id c
    else cancel_pending_paste device_id c

-- A click of the front button.
unfoldable pub handle_primary_click : World → Option ℕ → Text → Coordinator → Coordinator
handle_primary_click w session_id device_id c =
    if is_subtitle c.config.default_output_profile.target
    then (if not (is_click_to_talk c.config.interaction_mode)
        then tell (text "ready") device_id c
        else if has_active_subtitle_session device_id c
        then handle_subtitle_primary_button_up w device_id c
        else handle_subtitle_primary_button_down w session_id device_id c)
    else let (c1, handled) = handle_front_button_during_pending_paste device_id c in
      if handled
      then c1
      else if not (is_click_to_talk c1.config.interaction_mode)
      then tell (text "ready") device_id c1
      else if is_recording c1.session_state && is_device c1.active_device_id device_id
      then handle_primary_button_up w device_id c1
      else if is_finalizing c1.session_state && is_device c1.active_device_id device_id
      then tell (text "thinking") device_id c1
      else handle_primary_button_down w session_id device_id c1

unfoldable pub handle_button_down : World → StateEvent → Text → Coordinator → Coordinator
handle_button_down w event device_id c =
    if text_eq event.button (text "primary")
    then handle_primary_button_down w event.session_id device_id c
    else c

unfoldable pub handle_button_up : World → StateEvent → Text → Coordinator → Coordinator
handle_button_up w event device_id c =
    if text_eq event.button (text "primary")
    then handle_primary_button_up w device_id c
    else if text_eq event.button (text "secondary")
    then handle_secondary_button_click device_id c
    else c

unfoldable pub handle_button_click : World → StateEvent → Text → Coordinator → Coordinator
handle_button_click w event device_id c =
    if text_eq event.button (text "primary")
    then handle_primary_click w event.session_id device_id c
    else if text_eq event.button (text "secondary")
    then handle_secondary_button_click device_id c
    else c

-- What `HandleAudioFrame` does once `Append` has returned, or thrown.
unfoldable pub handle_chunk : World → AudioFrame → Muxer → Option Bytes → Coordinator → Coordinator
handle_chunk w frame muxer none c = emit Effect.exception (record c {
  last_audio_seq = some frame.seq;
  received_audio_frames = c.received_audio_frames + 1;
  ogg_muxer = muxer;
})
handle_chunk w frame muxer (some ogg_chunk) c =
    let c1 = record c {
      last_audio_seq = some frame.seq;
      received_audio_frames = c.received_audio_frames + 1;
      ogg_muxer = muxer;
      debug_audio_recorder = record_audio ogg_chunk c.debug_audio_recorder;
    } in
    let long_enough = leb minimum_recording (current_recording_duration w c1) in
    let c2 =
      send_or_buffer_ogg_chunk w ogg_chunk (is_end frame)
        (long_enough && (not c1.waiting_for_audio_end || is_end frame)) c1 in
    if is_end frame
    then enter_finalizing (
        finish_debug_audio (record (cancel_audio_end_timeout c2) {
          sent_final_audio_chunk = true;
          active_session_id = none;
        }))
    else c2

-- A frame that carries audio.
unfoldable pub handle_audio : World → AudioFrame → Coordinator → Coordinator
handle_audio w frame c =
    let (muxer, chunk) = append frame.payload (is_end frame) c.ogg_muxer in
    handle_chunk w frame muxer chunk c

unfoldable pub handle_audio_frame : World → AudioFrame → Text → Coordinator → Coordinator
handle_audio_frame w frame device_id c =
    if is_set (find_subtitle_cycle device_id frame.session_id c)
    then handle_subtitle_audio_frame w frame device_id c
    else if not (is_session c.active_session_id frame.session_id)
        || not (is_device c.active_device_id device_id)
    then c
    else if is_end frame && is_empty frame.payload
    then (let c1 = cancel_audio_end_timeout c in
        send_final_ogg_chunk_if_needed w (current_recording_duration w c1) c1)
    else if is_empty frame.payload
    then c
    else handle_audio w frame c
