-- ===== src/Coordinator/Handlers.antt =====
-- The handlers of buttons, audio frames, timers and callbacks: the invariant of the coordinator, and
-- pastes.
use voicestick.Coordinator.Cycles.{is_set, put_cycle, find_subtitle_cycle}
use voicestick.Coordinator.Enter.{
  send_ui_state_for_active_device, enter_finalizing, cancel_audio_end_timeout, set_session_state,
}
use voicestick.Coordinator.Safety.{
  begin_recording-Keeps, recover-Keeps, send_final-Keeps, begin_text-IsQuiet, show_text-IsQuiet,
  cancel_pending-Keeps, front_button-Keeps, refresh-IsQuiet,
}
use voicestick.Coordinator.Dictation.{handle_front_button_during_pending_paste}
use voicestick.Ogg.{Muxer}
use voicestick.Coordinator.Subtitle.{tell}
use voicestick.Coordinator.Audio.{
  begin_waiting_for_audio_end, finish_debug_audio, schedule_audio_end_timeout,
}
use voicestick.Coordinator.Buttons.{
  begin_recording_if_any, handle_primary_button_down, handle_primary_button_up,
  handle_secondary_button_click, handle_primary_click, handle_chunk, handle_audio,
  handle_audio_frame, handle_button_down, handle_button_up, handle_button_click,
}
use voicestick.Prelude.{ℕ, ◌≡◌, Bool, true, Option, none, arith, some, ◌+◌}
use voicestick.Prelude.Texts.{Bytes, Text, text}
use voicestick.BleProtocol.{AudioFrame, StateEvent}
use voicestick.Coordinator.State.{
  Coordinator, World, emit, finish_recorder, Recorder, Effect, is_subtitle,
}
use voicestick.Coordinator.Frame.{
  pastes, IsQuiet, button_up-IsQuiet, cancel-IsQuiet, send_final_if_needed-IsQuiet,
  cancel_device-IsQuiet, button_down-IsQuiet, finish-IsQuiet, audio_frame-IsQuiet,
}
use voicestick.Coordinator.Invariant.{
  Keeps, if-Keeps, Keeps-trans, cancel_short-Keeps, IsQuiet-Keeps, send_or_buffer-Keeps, Keeps-refl,
  cancel_timeout-Keeps,
}
use voicestick.Coordinator.Events.{
  handle_state_event, on_partial, on_upgrade_url, audio_end_timeout, subtitle_audio_end_timeout,
  on_subtitle_partial, on_subtitle_segment, subtitle_final_translated,
  finish_subtitle_cycle_with_final_text, handle_subtitle_definite_segment, finish_shown,
}

begin_if_any-Keeps :
    (w : World) (session_id : Option ℕ) (device_id : Text) (c : Coordinator)
    → Keeps c (begin_recording_if_any w session_id device_id c)
unfolding begin_recording_if_any pastes
begin_if_any-Keeps w session_id device_id c = record {
  valid = λ v. grind (arith, begin_recording-Keeps);
  same_pastes = grind (arith, begin_recording-Keeps);
}

primary_down-Keeps :
    (w : World) (session_id : Option ℕ) (device_id : Text) (c : Coordinator)
    → Keeps c (handle_primary_button_down w session_id device_id c)
unfolding handle_primary_button_down
primary_down-Keeps w session_id device_id c =
    if-Keeps (is_subtitle c.config.default_output_profile.target) c _ _
      (IsQuiet-Keeps c _ (button_down-IsQuiet w session_id device_id c))
      (Keeps-trans c _ _ (front_button-Keeps device_id c) (
        if-Keeps (handle_front_button_during_pending_paste device_id c).1 _ _ _ (Keeps-refl _) (
          if-Keeps _ _ _ _ (IsQuiet-Keeps _ _ (refresh-IsQuiet device_id _))
            (begin_if_any-Keeps w session_id device_id _))))

begin_waiting-Keeps :
    (c : Coordinator) → is_set c.active_session_id ≡ true → Keeps c (begin_waiting_for_audio_end c)
unfolding begin_waiting_for_audio_end schedule_audio_end_timeout enter_finalizing set_session_state
    send_ui_state_for_active_device pastes
begin_waiting-Keeps c h = record { valid = λ v. ground arith; same_pastes = ground arith }

primary_up-Keeps :
    (w : World) (device_id : Text) (c : Coordinator)
    → Keeps c (handle_primary_button_up w device_id c)
unfolding handle_primary_button_up
primary_up-Keeps w device_id c = record {
  valid = λ v. grind (arith, button_up-IsQuiet, cancel_short-Keeps, begin_waiting-Keeps);
  same_pastes = grind (arith, button_up-IsQuiet, cancel_short-Keeps, begin_waiting-Keeps);
}

secondary-Keeps :
    (device_id : Text) (c : Coordinator) → Keeps c (handle_secondary_button_click device_id c)
unfolding handle_secondary_button_click
secondary-Keeps device_id c = record {
  valid = λ v. grind (arith, cancel-IsQuiet, cancel_device-IsQuiet, cancel_pending-Keeps);
  same_pastes = grind (arith, cancel-IsQuiet, cancel_device-IsQuiet, cancel_pending-Keeps);
}

pub tell-IsQuiet : (state device_id : Text) (c : Coordinator) → IsQuiet c (tell state device_id c)
unfolding pastes
tell-IsQuiet state device_id c = ground arith

click-Keeps :
    (w : World) (session_id : Option ℕ) (device_id : Text) (c : Coordinator)
    → Keeps c (handle_primary_click w session_id device_id c)
unfolding handle_primary_click
click-Keeps w session_id device_id c =
    if-Keeps (is_subtitle c.config.default_output_profile.target) c _ _
      (ground (
        arith,
        IsQuiet-Keeps c _ (tell-IsQuiet (text "ready") device_id c),
        IsQuiet-Keeps c _ (button_up-IsQuiet w device_id c),
        IsQuiet-Keeps c _ (button_down-IsQuiet w session_id device_id c),
      ))
      (Keeps-trans c (handle_front_button_during_pending_paste device_id c).0 _
        (front_button-Keeps device_id c)
        (ground (
          arith,
          Keeps-refl (handle_front_button_during_pending_paste device_id c).0,
          IsQuiet-Keeps (handle_front_button_during_pending_paste device_id c).0 _
              (tell-IsQuiet (text "ready") device_id _),
          IsQuiet-Keeps (handle_front_button_during_pending_paste device_id c).0 _
              (tell-IsQuiet (text "thinking") device_id _),
          primary_up-Keeps w device_id (handle_front_button_during_pending_paste device_id c).0,
          primary_down-Keeps w session_id device_id
              (handle_front_button_during_pending_paste device_id c).0,
        )))

pub state_event-Keeps :
    (w : World) (event : StateEvent) (device_id : Text) (c : Coordinator)
    → Keeps c (handle_state_event w event device_id c)
unfolding handle_state_event handle_button_down handle_button_up handle_button_click
state_event-Keeps w event device_id c = record {
  valid = λ v. grind (arith, primary_down-Keeps, primary_up-Keeps, secondary-Keeps, click-Keeps);
  same_pastes = grind (arith, primary_down-Keeps, primary_up-Keeps, secondary-Keeps, click-Keeps);
}

finish_audio-Keeps :
    (c : Coordinator)
    → Keeps c (
        enter_finalizing (
          finish_debug_audio (record (cancel_audio_end_timeout c) {
            sent_final_audio_chunk = true;
            active_session_id = none;
          })))
unfolding finish_debug_audio finish_recorder cancel_audio_end_timeout enter_finalizing
    set_session_state send_ui_state_for_active_device pastes
finish_audio-Keeps c = record { valid = λ v. ground arith; same_pastes = ground arith }

-- The frame is counted and its page recorded.
count-IsQuiet :
    (frame : AudioFrame) (muxer : Muxer) (recorder : Recorder) (c : Coordinator)
    → IsQuiet c (record c {
      last_audio_seq = some frame.seq;
      received_audio_frames = c.received_audio_frames + 1;
      ogg_muxer = muxer;
      debug_audio_recorder = recorder;
    })
count-IsQuiet frame muxer recorder c = ground arith

throw-IsQuiet : (c : Coordinator) → IsQuiet c (emit Effect.exception c)
unfolding pastes
throw-IsQuiet c = ground arith

-- What follows the append, by its result.
after_append-Keeps :
    (w : World) (frame : AudioFrame) (muxer : Muxer) (chunk : Option Bytes) (c : Coordinator)
    → Keeps c (handle_chunk w frame muxer chunk c)
unfolding handle_chunk
after_append-Keeps w frame muxer none c =
    Keeps-trans c _ _ (IsQuiet-Keeps c _ (count-IsQuiet frame muxer c.debug_audio_recorder c))
      (IsQuiet-Keeps _ _ (throw-IsQuiet _))
after_append-Keeps w frame muxer (some chunk) c =
    Keeps-trans c _ _ (IsQuiet-Keeps c _ (count-IsQuiet frame muxer _ c)) (
      Keeps-trans _ _ _ (send_or_buffer-Keeps w chunk _ _ _)
        (if-Keeps _ _ _ _ (finish_audio-Keeps _) (Keeps-refl _)))

audio-Keeps : (w : World) (frame : AudioFrame) (c : Coordinator) → Keeps c (handle_audio w frame c)
unfolding handle_audio
audio-Keeps w frame c = after_append-Keeps w frame _ _ c

pub audio_frame-Keeps :
    (w : World) (frame : AudioFrame) (device_id : Text) (c : Coordinator)
    → Keeps c (handle_audio_frame w frame device_id c)
unfolding handle_audio_frame
audio_frame-Keeps w frame device_id c =
    if-Keeps (is_set (find_subtitle_cycle device_id frame.session_id c)) c _ _
      (IsQuiet-Keeps c _ (audio_frame-IsQuiet w frame device_id c))
      (if-Keeps _ c _ _ (Keeps-refl c) (
        if-Keeps _ c _ _ (Keeps-trans c _ _ (cancel_timeout-Keeps c) (send_final-Keeps w _ _))
          (if-Keeps _ c _ _ (Keeps-refl c) (audio-Keeps w frame c))))

pub partial-Keeps : (label : Text) (c : Coordinator) → Keeps c (on_partial label c)
unfolding on_partial send_ui_state_for_active_device pastes
partial-Keeps label c = record { valid = λ v. ground arith; same_pastes = ground arith }

pub upgrade-Keeps : (url message : Text) (c : Coordinator) → Keeps c (on_upgrade_url url message c)
unfolding on_upgrade_url pastes
upgrade-Keeps url message c = record {
  valid = λ v. grind (arith, recover-Keeps);
  same_pastes = grind (arith, recover-Keeps);
}

pub timeout-Keeps :
    (w : World) (generation : ℕ) (session_id : Option ℕ) (device_id : Option Text) (c : Coordinator)
    → Keeps c (audio_end_timeout w generation session_id device_id c)
unfolding audio_end_timeout
timeout-Keeps w generation session_id device_id c = record {
  valid = λ v. grind (arith, send_final-Keeps);
  same_pastes = grind (arith, send_final-Keeps);
}

pub subtitle_timeout-Keeps :
    (w : World) (generation : ℕ) (device_id : Text) (session_id : ℕ) (c : Coordinator)
    → Keeps c (subtitle_audio_end_timeout w generation device_id session_id c)
unfolding subtitle_audio_end_timeout
subtitle_timeout-Keeps w generation device_id session_id c = record {
  valid = λ v. grind (arith, send_final_if_needed-IsQuiet);
  same_pastes = grind (arith, send_final_if_needed-IsQuiet);
}

pub subtitle_partial-Keeps :
    (device_id : Text) (session_id : ℕ) (label : Text) (c : Coordinator)
    → Keeps c (on_subtitle_partial device_id session_id label c)
unfolding on_subtitle_partial pastes
subtitle_partial-Keeps device_id session_id label c = record {
  valid = λ v. ground arith;
  same_pastes = ground arith;
}

pub subtitle_segment-Keeps :
    (device_id : Text) (session_id : ℕ) (label : Text) (definite : Bool) (c : Coordinator)
    → Keeps c (on_subtitle_segment device_id session_id label definite c)
unfolding on_subtitle_segment handle_subtitle_definite_segment pastes
subtitle_segment-Keeps device_id session_id label definite c = record {
  valid = λ v. grind (arith, begin_text-IsQuiet);
  same_pastes = grind (arith, begin_text-IsQuiet);
}

pub translated_final-IsQuiet :
    (device_id : Text) (session_id : ℕ) (ok : Bool) (result : Text) (c : Coordinator)
    → IsQuiet c (subtitle_final_translated device_id session_id ok result c)
unfolding subtitle_final_translated finish_shown
translated_final-IsQuiet device_id session_id ok result c =
    grind (arith, show_text-IsQuiet, finish-IsQuiet)

pub subtitle_final_text-Keeps :
    (device_id : Text) (session_id : ℕ) (label : Text) (c : Coordinator)
    → Keeps c (finish_subtitle_cycle_with_final_text device_id session_id label c)
unfolding finish_subtitle_cycle_with_final_text finish_shown put_cycle pastes
subtitle_final_text-Keeps device_id session_id label c = record {
  valid = λ v. grind (arith, translated_final-IsQuiet, finish-IsQuiet);
  same_pastes = grind (arith, translated_final-IsQuiet, finish-IsQuiet);
}
