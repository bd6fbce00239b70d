-- ===== src/Coordinator/Safety.antt =====
-- The operations of a dictation: the invariant of the coordinator, and pastes.
use voicestick.Ogg.{Muxer}
use voicestick.Coordinator.Cycles.{remove_cycle}
use voicestick.Coordinator.Buttons.{begin_recording}
use voicestick.Coordinator.Dictation.{
  show_subtitle_text, begin_subtitle_text, recover_from_asr_error, offer_text,
  finish_subtitle_final, finish_with_final_text, translated, handle_definite_segment,
  restore_last_input_confirmation, handle_front_button_during_pending_paste,
  cancel_recognition_in_progress, cancel_pending_paste, drop_disconnected,
  cancel_active_cycle_if_device_disconnected, restore_text,
}
use voicestick.Coordinator.Audio.{
  finish_with_asr_error, finish_debug_audio, send_final_ogg_chunk_if_needed, discard_debug_audio,
}
use voicestick.Coordinator.Enter.{
  cancel_audio_end_timeout, finish_recognition_cycle, refresh_device_ui_state, enter_error,
  enter_ready, enter_pending_confirmation, enter_paused_confirmation, set_session_state,
  send_ui_state_for_active_device,
}
use voicestick.Prelude.{refl, ℕ, ◌≡◌, ◌∷◌, Bool, true, List, [], Option, none, arith, false, some}
use voicestick.Prelude.Texts.{Text, text}
use voicestick.Coordinator.State.{
  Coordinator, SubtitleCycle, World, emit, finish_recorder, OutputProfile, Effect, Recorder,
  no_paste,
}
use voicestick.Coordinator.Frame.{pastes, IsQuiet, IsQuiet-trans}
use voicestick.Coordinator.Invariant.{
  Keeps, if-Keeps, asr_error-Keeps, Keeps-refl, Keeps-trans, IsQuiet-Keeps, cancel_short-Keeps,
  send_or_buffer-Keeps, enter_finalizing-Keeps,
}

mark_sent-Keeps :
    (c : Coordinator)
    → Keeps c (cancel_audio_end_timeout (record c { sent_final_audio_chunk = true }))
unfolding cancel_audio_end_timeout
mark_sent-Keeps c = record { valid = λ v. ground arith; same_pastes = refl }

no_audio-Keeps :
    (message : Text) (c : Coordinator)
    → Keeps c (finish_with_asr_error message (record c { active_session_id = none }))
unfolding finish_with_asr_error cancel_audio_end_timeout enter_error finish_recognition_cycle
    discard_debug_audio set_session_state send_ui_state_for_active_device pastes
no_audio-Keeps message c = record { valid = λ v. ground arith; same_pastes = ground arith }

-- The session closes once nothing waits for its audio.
close-Keeps :
    (muxer : Muxer) (recorder : Recorder) (c : Coordinator)
    → c.waiting_for_audio_end ≡ false
    → Keeps c
        (record (finish_debug_audio
          (record c { ogg_muxer = muxer; debug_audio_recorder = recorder })) {
            active_session_id = none;
          })
unfolding finish_debug_audio finish_recorder pastes
close-Keeps muxer recorder c h = record { valid = λ v. ground arith; same_pastes = ground arith }

pub send_final-Keeps :
    (w : World) (duration : ℕ) (c : Coordinator)
    → Keeps c (send_final_ogg_chunk_if_needed w duration c)
unfolding send_final_ogg_chunk_if_needed cancel_audio_end_timeout
send_final-Keeps w duration c = if-Keeps _ c _ _ (Keeps-refl c) (
    Keeps-trans c _ _ (mark_sent-Keeps c) (
      if-Keeps _ _ _ _ (cancel_short-Keeps _) (
        if-Keeps _ _ _ _ (no_audio-Keeps _ _) (
          Keeps-trans _ _ _ (close-Keeps _ _ _ refl) (
            Keeps-trans _ _ _ (send_or_buffer-Keeps w _ true true _) (enter_finalizing-Keeps _))))))

pub show_text-IsQuiet :
    (ok : Bool) (result device_id : Text) (c : Coordinator)
    → IsQuiet c (show_subtitle_text ok result device_id c)
unfolding show_subtitle_text pastes
show_text-IsQuiet ok result device_id c = ground arith

pub begin_text-IsQuiet :
    (label : Text) (profile : OutputProfile) (device_id : Text) (c : Coordinator)
    → IsQuiet c (begin_subtitle_text label profile device_id c)
unfolding begin_subtitle_text pastes
begin_text-IsQuiet label profile device_id c = grind (arith, show_text-IsQuiet)

pub recover-Keeps : (hide : Bool) (c : Coordinator) → Keeps c (recover_from_asr_error hide c)
unfolding recover_from_asr_error pastes enter_ready set_session_state
    send_ui_state_for_active_device
recover-Keeps hide c = record { valid = λ v. ground arith; same_pastes = ground arith }

offer-Keeps : (label : Text) (c : Coordinator) → Keeps c (offer_text label c)
unfolding offer_text enter_pending_confirmation set_session_state send_ui_state_for_active_device
    pastes
offer-Keeps label c = record { valid = λ v. ground arith; same_pastes = ground arith }

subtitle_final-Keeps :
    (label : Text) (profile : OutputProfile) (c : Coordinator)
    → Keeps c (finish_subtitle_final label profile c)
unfolding finish_subtitle_final finish_recognition_cycle cancel_audio_end_timeout pastes enter_ready
    set_session_state send_ui_state_for_active_device
subtitle_final-Keeps label profile c = record {
  valid = λ v. grind (arith, begin_text-IsQuiet);
  same_pastes = grind (arith, begin_text-IsQuiet);
}

hide_ready-Keeps :
    (hide : Bool) (c : Coordinator)
    → Keeps c
        (enter_ready hide (finish_recognition_cycle (record c { pending_paste_state = no_paste })))
unfolding finish_recognition_cycle cancel_audio_end_timeout pastes enter_ready set_session_state
    send_ui_state_for_active_device
hide_ready-Keeps hide c = record { valid = λ v. ground arith; same_pastes = ground arith }

hidden_ready-Keeps :
    (c : Coordinator)
    → Keeps c (
        enter_ready false (
          emit Effect.hide_overlay
            (finish_recognition_cycle (record c { pending_paste_state = no_paste }))))
unfolding finish_recognition_cycle cancel_audio_end_timeout pastes enter_ready set_session_state
    send_ui_state_for_active_device
hidden_ready-Keeps c = record { valid = λ v. ground arith; same_pastes = ground arith }

translating-Keeps :
    (label target : Text) (c : Coordinator)
    → Keeps
        (record c { pasted_final_text = true })
        (emit
          (Effect.translate_text label target)
          (emit (Effect.set_status (text "Translating")) (record c { pasted_final_text = true })))
unfolding pastes
translating-Keeps label target c = record { valid = λ v. ground arith; same_pastes = refl }

mark-IsQuiet : (c : Coordinator) → IsQuiet c (record c { pasted_final_text = true })
mark-IsQuiet c = ground arith

pub final_text-Keeps : (label : Text) (c : Coordinator) → Keeps c (finish_with_final_text label c)
unfolding finish_with_final_text
final_text-Keeps label c = if-Keeps _ c _ _ (Keeps-refl c) (
    Keeps-trans c _ _ (IsQuiet-Keeps c _ (mark-IsQuiet c)) (
      if-Keeps _ _ _ _ (subtitle_final-Keeps label _ _) (
        if-Keeps _ _ _ _ (hidden_ready-Keeps _)
          (if-Keeps _ _ _ _ (translating-Keeps label _ c) (offer-Keeps label _)))))

pub translated-Keeps :
    (ok : Bool) (result : Text) (c : Coordinator) → Keeps c (translated ok result c)
unfolding translated
translated-Keeps ok result c = record {
  valid = λ v. grind (arith, asr_error-Keeps, offer-Keeps);
  same_pastes = grind (arith, asr_error-Keeps, offer-Keeps);
}

pub segment-Keeps :
    (label : Text) (definite : Bool) (c : Coordinator)
    → Keeps c (handle_definite_segment label definite c)
unfolding handle_definite_segment pastes
segment-Keeps label definite c = record {
  valid = λ v. grind (arith, begin_text-IsQuiet);
  same_pastes = grind (arith, begin_text-IsQuiet);
}

pub restore-Keeps :
    (device_id : Option Text) (c : Coordinator)
    → Keeps c ((restore_last_input_confirmation device_id c).0)
unfolding restore_last_input_confirmation restore_text enter_paused_confirmation set_session_state
    send_ui_state_for_active_device pastes
restore-Keeps device_id c = record { valid = λ v. ground arith; same_pastes = ground arith }

pub front_button-Keeps :
    (device_id : Text) (c : Coordinator)
    → Keeps c ((handle_front_button_during_pending_paste device_id c).0)
unfolding handle_front_button_during_pending_paste enter_paused_confirmation set_session_state
    send_ui_state_for_active_device pastes
front_button-Keeps device_id c = record { valid = λ v. ground arith; same_pastes = ground arith }

pub refresh-IsQuiet :
    (device_id : Text) (c : Coordinator) → IsQuiet c (refresh_device_ui_state device_id c)
unfolding refresh_device_ui_state pastes
refresh-IsQuiet device_id c = ground arith

cancel_recognition-Keeps : (c : Coordinator) → Keeps c (cancel_recognition_in_progress c)
unfolding cancel_recognition_in_progress finish_recognition_cycle cancel_audio_end_timeout pastes
    enter_ready set_session_state send_ui_state_for_active_device
cancel_recognition-Keeps c = record { valid = λ v. ground arith; same_pastes = ground arith }

pub cancel_pending-Keeps :
    (device_id : Text) (c : Coordinator) → Keeps c (cancel_pending_paste device_id c)
unfolding cancel_pending_paste
cancel_pending-Keeps device_id c = ground (
  arith,
  Keeps-refl c,
  cancel_recognition-Keeps c,
  IsQuiet-Keeps c _ (refresh-IsQuiet device_id c),
  restore-Keeps (some device_id) c,
  hide_ready-Keeps true c,
)

drop_disconnected-IsQuiet :
    (is_connected : Text → Bool) (ys : List SubtitleCycle) (c : Coordinator)
    → IsQuiet c (drop_disconnected is_connected ys c)
unfolding drop_disconnected remove_cycle pastes
drop_disconnected-IsQuiet is_connected [] c = ground arith
drop_disconnected-IsQuiet is_connected (y ∷ ys) c =
    IsQuiet-trans c _ _ (ground arith) (drop_disconnected-IsQuiet is_connected ys _)

pub disconnect-Keeps :
    (w : World) (is_connected : Text → Bool) (c : Coordinator)
    → Keeps c (cancel_active_cycle_if_device_disconnected w is_connected c)
unfolding cancel_active_cycle_if_device_disconnected finish_recognition_cycle
    cancel_audio_end_timeout discard_debug_audio pastes enter_ready set_session_state
    send_ui_state_for_active_device
disconnect-Keeps w is_connected c = record {
  valid = λ v. grind (arith, drop_disconnected-IsQuiet, send_final-Keeps);
  same_pastes = grind (arith, drop_disconnected-IsQuiet, send_final-Keeps);
}

pub begin_recording-Keeps :
    (w : World) (session_id : ℕ) (device_id : Text) (c : Coordinator)
    → Keeps c (begin_recording w session_id device_id c)
unfolding begin_recording set_session_state send_ui_state_for_active_device pastes
begin_recording-Keeps w session_id device_id c = record {
  valid = λ v. ground arith;
  same_pastes = ground arith;
}
