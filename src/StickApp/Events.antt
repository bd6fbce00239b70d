-- ===== src/StickApp/Events.antt =====
-- `app_event_task` in main.c: what the application does with one event of its queue.
use voicestick.Prelude.{ℕ, ◌==◌, Bool, true, false, not, ◌&&◌, List, [], ◌∷◌, if◌then◌else◌}
use voicestick.Prelude.Texts.{Text, text}
use voicestick.StickApp.State.{App, AppEvent, World, Effect, UiState, emit}
use voicestick.StickApp.Power.{
  note_activity, stop_host_response_timer, release_recording_pm_locks, release_ota_pm_locks,
  acquire_ota_pm_locks, update_battery_status, enter_deep_sleep,
}
use voicestick.StickApp.Recording.{
  start_recording, stop_recording, elapsed_button_ms, apply_app_ui_state, is_click_to_talk,
  is_pending_confirmation,
}

abbrev pub primary : Text
primary = text "primary"

-- The end of a press: what could not be sent takes the display back, and the press is forgotten.
unfoldable pub end_press : World → ℕ → App → App
end_press w session_id a =
    let a1 =
      if not (session_id == 0) && not (w.send_err == 0)
      then apply_app_ui_state w (text "ready") [] a
      else a in
    record a1 { primary_down_us = 0; primary_session_id = 0 }

-- The second click of the click mode ends the recording.
unfoldable pub click_stop : World → App → App
click_stop w a =
    let duration_ms = elapsed_button_ms w a.primary_down_us in
    let (a1, session_id) = stop_recording w a in
    end_press w session_id (emit (Effect.send_button_click primary duration_ms session_id) a1)

-- A new recording is told to the host; where that fails, the recording ends at once.
unfoldable pub announce : World → ℕ → App → App
announce w session_id a =
    let a1 =
      if is_click_to_talk a.interaction_mode
      then emit (Effect.send_button_click primary 0 session_id) a
      else emit (Effect.send_button_down primary session_id) a in
    if not (w.send_err == 0)
    then apply_app_ui_state w (text "ready") []
        (record (stop_recording w a1).0 { primary_session_id = 0 })
    else a1

unfoldable pub press : World → App → App
press w a =
    let a1 = record a { primary_down_us = w.now_us } in
    if is_pending_confirmation a1.app_ui_state
    then emit (Effect.send_button_click primary 0 0) (record a1 { primary_session_id = 0 })
    else let (a2, session_id) = start_recording w a1 in
      let a3 = record a2 { primary_session_id = session_id } in
      if session_id == 0 then record a3 { primary_down_us = 0 } else announce w session_id a3

unfoldable pub front_down : World → App → App
front_down w a =
    let a1 = note_activity w a in
    if is_click_to_talk a1.interaction_mode && a1.recording then click_stop w a1 else press w a1

-- The session that a release ends: the one recorded, if any.
unfoldable pub stop_if_recording : World → App → App × ℕ
stop_if_recording w a = if a.recording then stop_recording w a else (a, a.primary_session_id)

unfoldable pub front_up : World → App → App
front_up w a =
    let a1 = note_activity w a in
    if is_click_to_talk a1.interaction_mode
    then a1
    else if not a1.recording && a1.primary_session_id == 0 && a1.primary_down_us == 0
    then a1
    else let duration_ms = elapsed_button_ms w a1.primary_down_us in
      let (a2, session_id) = stop_if_recording w a1 in
      end_press w session_id (emit (Effect.send_button_up primary duration_ms session_id) a2)

unfoldable pub side_up : World → App → App
side_up w a =
    let a1 = note_activity w a in
    record (emit
      (Effect.send_button_click (text "secondary") (elapsed_button_ms w a1.secondary_down_us) 0)
      a1) { secondary_down_us = 0 }

unfoldable pub disconnected : App → App
disconnected a =
    let a1 = record a { recording = false; ota_updating = false; app_ui_state = UiState.ready } in
    let a2 = emit Effect.resume_rolls (emit Effect.audio_stop (stop_host_response_timer a1)) in
    emit Effect.show_pairing (release_ota_pm_locks (release_recording_pm_locks a2))

-- A firmware update ends the recording that is under way.
unfoldable pub ota_begins : World → ℕ → ℕ → App → App
ota_begins w written size a =
    let a1 = record a { ota_updating = true } in
    let a2 : App =
      if a1.recording
      then (let (b, session_id) = stop_recording w a1 in
          emit (Effect.send_button_up primary (elapsed_button_ms w b.primary_down_us) session_id) b)
      else a1 in
    emit (Effect.show_ota_progress written size) (note_activity w (acquire_ota_pm_locks w a2))

unfoldable pub ota_ends : World → App → App
ota_ends w a =
    let a1 = release_ota_pm_locks (record a { ota_updating = false }) in
    let a2 = stop_host_response_timer (record a1 { app_ui_state = UiState.ready }) in
    note_activity w (emit Effect.show_idle a2)

abbrev pub waits_for_host : UiState → Bool
waits_for_host UiState.recording = true
waits_for_host UiState.thinking = true
waits_for_host _ = false

unfoldable pub handle : World → AppEvent → App → App
handle w AppEvent.front_down a = front_down w a
handle w AppEvent.front_up a = front_up w a
handle w AppEvent.side_down a = record (note_activity w a) { secondary_down_us = w.now_us }
handle w AppEvent.side_up a = side_up w a
handle w (AppEvent.ui_state state label) a = apply_app_ui_state w state label a
handle w AppEvent.ble_connected a =
    note_activity w (emit Effect.show_idle (record a { app_ui_state = UiState.ready }))
handle w AppEvent.ble_disconnected a = disconnected a
handle w AppEvent.power_irq a = update_battery_status w (emit Effect.gpio_intr_enable a)
handle w AppEvent.battery_refresh a = update_battery_status w a
handle w AppEvent.enter_deep_sleep a = enter_deep_sleep w a
handle w (AppEvent.ota_begin written size) a = ota_begins w written size a
handle w (AppEvent.ota_progress written size) a =
    emit (Effect.show_ota_progress written size) (record a { ota_updating = true })
handle w AppEvent.ota_done a = emit Effect.show_ota_rebooting a
handle w AppEvent.ota_end a = ota_ends w a
handle w AppEvent.host_response_timeout a =
    if not a.recording && waits_for_host a.app_ui_state
    then apply_app_ui_state w (text "ready") [] a
    else a

unfoldable pub run : List (World × AppEvent) → App → App
run [] a = a
run ((w, event) ∷ rest) a = run rest (handle w event a)
