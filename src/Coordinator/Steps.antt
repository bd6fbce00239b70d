-- ===== src/Coordinator/Steps.antt =====
-- The events of the coordinator: its invariant, and what pastes.
use voicestick.Coordinator.Handlers.{
  tell-IsQuiet, state_event-Keeps, audio_frame-Keeps, partial-Keeps, upgrade-Keeps, timeout-Keeps,
  subtitle_timeout-Keeps, subtitle_partial-Keeps, subtitle_segment-Keeps, translated_final-IsQuiet,
  subtitle_final_text-Keeps,
}
use voicestick.Coordinator.SettingsSafety.{update_config-Keeps, remove_device-Keeps}
use voicestick.Coordinator.Enter.{
  send_ui_state_for_active_device, cancel_audio_end_timeout, finish_recognition_cycle,
  set_session_state, enter_ready,
}
use voicestick.Coordinator.Safety.{
  recover-Keeps, segment-Keeps, show_text-IsQuiet, final_text-Keeps, translated-Keeps,
  disconnect-Keeps, restore-Keeps,
}
use voicestick.Coordinator.Dictation.{commit_pending_paste, complete_pending_paste}
use voicestick.Coordinator.Subtitle.{tell}
use voicestick.Prelude.{
  ◌≡◌, ◌∷◌, ◌++◌, Bool, true, List, [], refl, if◌then◌else◌, false, arith, some,
}
use voicestick.Prelude.Texts.{Text, text_eq, text}
use voicestick.Coordinator.State.{Coordinator, World, AppConfig, initial, emit, Effect}
use voicestick.Coordinator.Frame.{pastes, IsQuiet, finish_error-IsQuiet}
use voicestick.Coordinator.Invariant.{IsValid, Keeps, IsQuiet-Keeps, asr_error-Keeps}
use voicestick.Coordinator.Events.{Event, step, run}

commit-IsValid :
    (label : Text) (c : Coordinator) → IsValid c → IsValid (commit_pending_paste label c)
unfolding commit_pending_paste complete_pending_paste finish_recognition_cycle
    cancel_audio_end_timeout enter_ready set_session_state send_ui_state_for_active_device
commit-IsValid label c v = ground arith

-- What a confirmation pastes: the text on show, if it is the one that has been confirmed.
unfoldable pub confirmed : Text → Coordinator → List Text
confirmed label c = if text_eq c.pending_paste_state.label label then label ∷ [] else []

unfoldable pub pasted_by : Event → Coordinator → List Text
pasted_by (Event.countdown_over label) c = confirmed label c
pasted_by (Event.overlay_hidden label) c = confirmed label c
pasted_by e c = []

commit-pastes :
    (label : Text) (c : Coordinator)
    → pastes (commit_pending_paste label c).log ≡ confirmed label c ++ pastes c.log
unfolding commit_pending_paste complete_pending_paste finish_recognition_cycle confirmed
    cancel_audio_end_timeout enter_ready set_session_state send_ui_state_for_active_device pastes
commit-pastes label c = ground arith

upgrade-IsQuiet :
    (device_id url message : Text) (c : Coordinator)
    → IsQuiet c (
        emit
          (Effect.show_cloud_upgrade message url (some device_id))
          (tell (text "ready") device_id c))
unfolding pastes
upgrade-IsQuiet device_id url message c = ground arith

unfoldable is_confirmation : Event → Bool
is_confirmation (Event.countdown_over label) = true
is_confirmation (Event.overlay_hidden label) = true
is_confirmation e = false

step-Keeps :
    (w : World) (e : Event) (c : Coordinator) → is_confirmation e ≡ false → Keeps c (step w e c)
unfolding step is_confirmation
step-Keeps w (Event.state_event d e) c h = state_event-Keeps w e d c
step-Keeps w (Event.audio_frame d f) c h = audio_frame-Keeps w f d c
step-Keeps w (Event.asr_partial l) c h = partial-Keeps l c
step-Keeps w (Event.asr_segment l b) c h = segment-Keeps l b c
step-Keeps w (Event.asr_final l) c h = final_text-Keeps l c
step-Keeps w (Event.asr_error m) c h = asr_error-Keeps m c
step-Keeps w (Event.asr_upgrade_url u m) c h = upgrade-Keeps u m c
step-Keeps w (Event.audio_end_timer g s d) c h = timeout-Keeps w g s d c
step-Keeps w (Event.text_translated b r) c h = translated-Keeps b r c
step-Keeps w (Event.countdown_over l) c h = ground arith
step-Keeps w (Event.overlay_hidden l) c h = ground arith
step-Keeps w (Event.error_shown) c h = recover-Keeps false c
step-Keeps w (Event.subtitle_partial d s l) c h = subtitle_partial-Keeps d s l c
step-Keeps w (Event.subtitle_segment d s l b) c h = subtitle_segment-Keeps d s l b c
step-Keeps w (Event.subtitle_final d s l) c h = subtitle_final_text-Keeps d s l c
step-Keeps w (Event.subtitle_error d s m) c h = IsQuiet-Keeps c _ (finish_error-IsQuiet d s m c)
step-Keeps w (Event.subtitle_upgrade_url d u m) c h = IsQuiet-Keeps c _ (upgrade-IsQuiet d u m c)
step-Keeps w (Event.subtitle_timer g d s) c h = subtitle_timeout-Keeps w g d s c
step-Keeps w (Event.subtitle_translated b r d) c h = IsQuiet-Keeps c _ (show_text-IsQuiet b r d c)
step-Keeps w (Event.subtitle_cycle_translated d s b r) c h =
    IsQuiet-Keeps c _ (translated_final-IsQuiet d s b r c)
step-Keeps w (Event.subtitle_error_shown d) c h = IsQuiet-Keeps c _ (tell-IsQuiet _ d c)
step-Keeps w (Event.connection_change f) c h = disconnect-Keeps w f c
step-Keeps w (Event.restore_last_input) c h = restore-Keeps _ c
step-Keeps w (Event.update_config config) c h = update_config-Keeps config c
step-Keeps w (Event.remove_paired_device device_id) c h = remove_device-Keeps device_id c

-- One event keeps the invariant.
pub step-IsValid : (w : World) (e : Event) (c : Coordinator) → IsValid c → IsValid (step w e c)
unfolding step is_confirmation
step-IsValid w (Event.countdown_over label) c v = commit-IsValid label c v
step-IsValid w (Event.overlay_hidden label) c v = commit-IsValid label c v
step-IsValid w e c v = (step-Keeps w e c refl).valid v

run_on-IsValid :
    (events : List (World × Event)) (c : Coordinator) → IsValid c → IsValid (run events c)
unfolding run
run_on-IsValid [] c v = v
run_on-IsValid ((w, e) ∷ rest) c v = run_on-IsValid rest (step w e c) (step-IsValid w e c v)

initial-IsValid : (config : AppConfig) → IsValid (initial config)
initial-IsValid config = ground arith

-- After any sequence of events from the start, with any recognizer: in the ready state no device is
-- active, the wait for the last frame belongs to an open session, no chunk is left in the buffer once
-- the recognizer has started, and a paste that is not pending has no text.
pub run-IsValid :
    (events : List (World × Event)) (config : AppConfig) → IsValid (run events (initial config))
run-IsValid events config = run_on-IsValid events _ (initial-IsValid config)

-- What one event pastes: nothing, unless it confirms the text of the pending paste, at the end of the
-- countdown or when the overlay has been hidden; then it pastes that text, once.
pub pastes-step :
    (w : World) (e : Event) (c : Coordinator)
    → pastes (step w e c).log ≡ pasted_by e c ++ pastes c.log
unfolding step pasted_by is_confirmation
pastes-step w (Event.countdown_over label) c = commit-pastes label c
pastes-step w (Event.overlay_hidden label) c = commit-pastes label c
pastes-step w e c = (step-Keeps w e c refl).same_pastes
