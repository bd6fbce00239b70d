-- ===== src/StickApp/Recording.antt =====
-- The start and the end of a recording in main.c, and what the host's display messages do.
use voicestick.Prelude.{
  ℕ, ◌+◌, ◌-◌, ◌/◌, ◌==◌, leb, Bool, true, false, not, ◌&&◌, ◌||◌, [], if◌then◌else◌,
}
use voicestick.Prelude.Texts.{Text, text, text_eq, is_empty}
use voicestick.ByteUtils.{u32}
use voicestick.StickApp.State.{App, World, Effect, UiState, InteractionMode, emit}
use voicestick.StickApp.Power.{
  acquire_recording_pm_locks, release_recording_pm_locks, restart_display_dim_timer,
  restart_deep_sleep_timer, note_activity, stop_host_response_timer,
}

abbrev pub is_pending_confirmation : UiState → Bool
is_pending_confirmation UiState.pending_confirmation = true
is_pending_confirmation _ = false

abbrev pub is_ready : UiState → Bool
is_ready UiState.ready = true
is_ready _ = false

abbrev pub is_click_to_talk : InteractionMode → Bool
is_click_to_talk InteractionMode.click_to_talk = true
is_click_to_talk InteractionMode.hold_to_talk = false

unfoldable pub app_ui_allows_recording_start : App → Bool
app_ui_allows_recording_start a = not (is_pending_confirmation a.app_ui_state)

-- `start_recording` behind its first test and with the lock held.
unfoldable pub start_audio : World → ℕ → App → App × ℕ
start_audio w session_id a =
    let a1 = emit Effect.suspend_rolls (emit (Effect.show_recording session_id) a) in
    let a2 = emit (Effect.audio_start session_id) (emit Effect.play_start a1) in
    if not (w.audio_start_err == 0)
    then (
      emit (Effect.show_error (text "Audio start failed"))
          (release_recording_pm_locks (emit Effect.resume_rolls a2)),
      0,
    )
    else (
      restart_deep_sleep_timer (
          restart_display_dim_timer
            (record a2 { recording = true; app_ui_state = UiState.recording })),
      session_id,
    )

-- The state after the call, and the session that has begun, or 0.
unfoldable pub start_recording : World → App → App × ℕ
start_recording w a =
    if a.recording
      || a.ota_updating
      || w.ble_ota_is_active
      || not w.ble_is_ready
      || not (app_ui_allows_recording_start a)
    then (a, 0)
    else let session_id = a.session_id in
      let a1 = record a { session_id = u32 (a.session_id + 1) } in
      let (a2, locked) = acquire_recording_pm_locks w a1 in
      if not locked
      then (emit (Effect.show_error (text "Power lock failed")) a2, 0)
      else start_audio w session_id a2

-- The state after the call, and the session that has ended, or 0.
unfoldable pub stop_recording : World → App → App × ℕ
stop_recording w a =
    if not a.recording
    then (a, 0)
    else let a1 = emit Effect.audio_stop (record a { recording = false }) in
      let a2 = if w.wait_stopped_err == 0 then emit Effect.play_end a1 else a1 in
      let a3 = emit (Effect.show_partial_text []) (emit Effect.resume_rolls a2) in
      (
        restart_deep_sleep_timer (restart_display_dim_timer (release_recording_pm_locks a3)),
        w.audio_session_id,
      )

-- In milliseconds; a clock that is behind counts as no time.
unfoldable pub elapsed_button_ms : World → ℕ → ℕ
elapsed_button_ms w down_us = if down_us == 0 then 0 else u32 ((w.now_us - down_us) / 1000)

unfoldable pub apply_ready : World → App → App
apply_ready w a =
    if a.recording
    then a
    else let a1 =
        note_activity w (emit Effect.show_idle (record a { app_ui_state = UiState.ready })) in
      if leb 2 w.transport_version
      then emit Effect.request_fast_interval a1
      else emit Effect.request_slow_interval a1

unfoldable pub apply_app_ui_state : World → Text → Text → App → App
apply_app_ui_state w state label a =
    let a1 = stop_host_response_timer a in
    if text_eq state (text "ready")
    then apply_ready w a1
    else if text_eq state (text "recording")
    then (let a2 = record a1 { app_ui_state = UiState.recording } in
        if not a2.recording then emit (Effect.show_recording 0) a2 else a2)
    else if text_eq state (text "thinking")
    then emit (Effect.show_partial_text []) (record a1 { app_ui_state = UiState.thinking })
    else if text_eq state (text "pending_confirmation")
    then emit (Effect.show_partial_text (text "Confirm or cancel"))
        (record a1 { app_ui_state = UiState.pending_confirmation })
    else if text_eq state (text "error")
    then emit (Effect.show_error (if is_empty label then text "Unknown error" else label))
        (record a1 { app_ui_state = UiState.error })
    else a1

unfoldable pub apply_interaction_mode : InteractionMode → App → App
apply_interaction_mode mode a =
    let a1 =
      emit
        (Effect.show_idle_hint
          (if is_click_to_talk mode then text "Click to Talk" else text "Hold to Talk"))
        (record a { interaction_mode = mode }) in
    if is_ready a1.app_ui_state && not a1.recording then emit Effect.show_idle a1 else a1
