-- ===== src/Coordinator/Enter.antt =====
-- The transitions of the session state in voice_stick_coordinator.cc, `SetSessionState` to
-- `SendUiStateForActiveDevice`, and the end of a cycle. The log lines are left out.
use voicestick.Prelude.{◌+◌, Bool, true, false, [], none, some, if◌then◌else◌}
use voicestick.Prelude.Texts.{Text, text, is_device}
use voicestick.ByteUtils.{u64}
use voicestick.Coordinator.State.{
  Coordinator, SessionState, ready, recording, finalizing, pending_confirmation,
  paused_confirmation, error, PendingPasteState, waiting_to_paste, paused, Effect, emit,
}

-- The test for a change only saves a log line.
unfoldable pub set_session_state : SessionState → Coordinator → Coordinator
set_session_state state c = record c { session_state = state }

unfoldable pub send_ui_state_for_active_device : Text → Text → Coordinator → Coordinator
send_ui_state_for_active_device state label c =
    emit (Effect.send_ui_state state label c.active_device_id) c

unfoldable pub enter_ready : Bool → Coordinator → Coordinator
enter_ready hide_overlay c =
    let c1 = emit (Effect.set_status (text "Ready")) (set_session_state ready c) in
    let c2 = send_ui_state_for_active_device (text "ready") [] c1 in
    let c3 = if hide_overlay then emit Effect.hide_overlay c2 else c2 in
    record c3 { active_device_id = none }

unfoldable pub enter_finalizing : Coordinator → Coordinator
enter_finalizing c =
    send_ui_state_for_active_device (text "thinking") []
      (emit (Effect.set_status (text "Processing")) (set_session_state finalizing c))

unfoldable pub enter_pending_confirmation : Text → Coordinator → Coordinator
enter_pending_confirmation label c =
    let c1 = record c { pending_paste_state = record { kind = waiting_to_paste; label = label } } in
    let c2 = set_session_state pending_confirmation c1 in
    send_ui_state_for_active_device (text "pending_confirmation") label
      (emit (Effect.show_final_countdown label c2.active_device_id) c2)

unfoldable pub enter_paused_confirmation : Text → Coordinator → Coordinator
enter_paused_confirmation label c =
    let c1 = record c { pending_paste_state = record { kind = paused; label = label } } in
    let c2 = set_session_state paused_confirmation c1 in
    send_ui_state_for_active_device (text "pending_confirmation") label
      (emit (Effect.show_paused_final label c2.active_device_id) c2)

unfoldable pub enter_error : Text → Coordinator → Coordinator
enter_error message c =
    let c1 = set_session_state error (record c { is_showing_asr_error = true }) in
    let c2 = send_ui_state_for_active_device (text "error") message c1 in
    emit (Effect.show_error message c2.active_device_id) c2

-- What `RefreshDeviceUiState` tells the device, by the session state.
unfoldable pub ui_state_of : SessionState → Bool → PendingPasteState → Text × Text
ui_state_of recording mine pending = (if mine then text "recording" else text "ready", [])
ui_state_of finalizing mine pending = (if mine then text "thinking" else text "ready", [])
ui_state_of pending_confirmation mine pending =
    if mine then (text "pending_confirmation", pending.label) else (text "ready", [])
ui_state_of paused_confirmation mine pending =
    if mine then (text "pending_confirmation", pending.label) else (text "ready", [])
ui_state_of error mine pending = (if mine then text "error" else text "ready", [])
ui_state_of ready mine pending = (text "ready", [])

unfoldable pub refresh_device_ui_state : Text → Coordinator → Coordinator
refresh_device_ui_state device_id c =
    let (state, label) =
      ui_state_of c.session_state (is_device c.active_device_id device_id) c.pending_paste_state in
    emit (Effect.send_ui_state state label (some device_id)) c

unfoldable pub cancel_audio_end_timeout : Coordinator → Coordinator
cancel_audio_end_timeout c = record c {
  waiting_for_audio_end = false;
  audio_end_wait_generation = u64 (c.audio_end_wait_generation + 1);
}

unfoldable pub finish_recognition_cycle : Coordinator → Coordinator
unfolding cancel_audio_end_timeout
finish_recognition_cycle c =
    let c1 = cancel_audio_end_timeout c in
    record c1 {
      asr_started = false;
      sent_final_audio_chunk = false;
      pasted_final_text = false;
      buffered_ogg_chunks = [];
    }
