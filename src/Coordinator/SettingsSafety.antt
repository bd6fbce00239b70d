-- ===== src/Coordinator/SettingsSafety.antt =====
-- New settings and forgotten devices: the invariant of the coordinator, and pastes.
use voicestick.Coordinator.Settings.{
  update_config, remove_paired_device, was_recognizing, cancel_cycles, stop_recognizing,
  forget_active, erase_id,
}
use voicestick.Coordinator.Enter.{
  send_ui_state_for_active_device, cancel_audio_end_timeout, finish_recognition_cycle,
  set_session_state, enter_ready,
}
use voicestick.Coordinator.Audio.{discard_debug_audio}
use voicestick.Prelude.{◌∷◌, true, List, [], none, refl, arith}
use voicestick.Prelude.Texts.{Text, is_device}
use voicestick.Coordinator.State.{
  Coordinator, AppConfig, emit, Effect, new_recorder, SubtitleCycle, no_paste,
}
use voicestick.Coordinator.Frame.{pastes, IsQuiet, IsQuiet-trans}
use voicestick.Coordinator.Invariant.{Keeps, if-Keeps, Keeps-trans, IsQuiet-Keeps, Keeps-refl}

cancel_cycles-IsQuiet : (ys : List SubtitleCycle) (c : Coordinator) → IsQuiet c (cancel_cycles ys c)
unfolding cancel_cycles pastes
cancel_cycles-IsQuiet [] c = ground arith
cancel_cycles-IsQuiet (y ∷ ys) c = IsQuiet-trans c _ _ (ground arith) (cancel_cycles-IsQuiet ys _)

asr_cancel-IsQuiet : (c : Coordinator) → IsQuiet c (emit Effect.asr_cancel c)
unfolding pastes
asr_cancel-IsQuiet c = ground arith

-- The end of `stop_recognizing`.
stopped-Keeps :
    (c : Coordinator)
    → Keeps c (
        enter_ready true (
          finish_recognition_cycle (
            discard_debug_audio (record (emit Effect.hide_subtitles c) {
              subtitle_cycles = [];
              active_subtitle_sessions = [];
              active_session_id = none;
              pending_paste_state = no_paste;
            }))))
unfolding finish_recognition_cycle discard_debug_audio cancel_audio_end_timeout pastes enter_ready
    set_session_state send_ui_state_for_active_device
stopped-Keeps c = record { valid = λ v. ground arith; same_pastes = ground arith }

stop-Keeps : (c : Coordinator) → Keeps c (stop_recognizing c)
unfolding stop_recognizing
stop-Keeps c = Keeps-trans c _ _ (IsQuiet-Keeps c _ (asr_cancel-IsQuiet c)) (
    Keeps-trans _ _ _ (IsQuiet-Keeps _ _ (cancel_cycles-IsQuiet c.subtitle_cycles _))
      (stopped-Keeps _))

-- The settings themselves are no part of the invariant.
settings-Keeps :
    (config : AppConfig) (c d : Coordinator)
    → Keeps c d
    → Keeps c (record (emit (Effect.send_interaction_mode config.interaction_mode) d) {
      config = config;
      debug_audio_recorder = new_recorder config.debug_audio_cache;
    })
unfolding pastes
settings-Keeps config c d k = record {
  valid = λ v. ground (arith, k.valid v);
  same_pastes = k.same_pastes;
}

pair-Keeps :
    (ids : List Text) (c : Coordinator)
    → Keeps c (
        emit
          (Effect.update_paired_device_ids ids)
          (emit (Effect.set_paired_device_ids ids) (record c { paired_device_ids = ids })))
unfolding pastes
pair-Keeps ids c = record { valid = λ v. ground arith; same_pastes = ground arith }

pub update_config-Keeps : (config : AppConfig) (c : Coordinator) → Keeps c (update_config config c)
unfolding update_config
update_config-Keeps config c =
    Keeps-trans c _ _
      (settings-Keeps config c _ (if-Keeps (was_recognizing c) c _ _ (stop-Keeps c) (Keeps-refl c)))
      (if-Keeps _ _ _ _ (Keeps-refl _) (pair-Keeps config.paired_device_ids _))

forget-Keeps : (c : Coordinator) → Keeps c (forget_active c)
unfolding forget_active finish_recognition_cycle discard_debug_audio cancel_audio_end_timeout
    enter_ready set_session_state send_ui_state_for_active_device pastes
forget-Keeps c = record { valid = λ v. ground arith; same_pastes = ground arith }

unpair-Keeps :
    (ids : List Text) (c : Coordinator)
    → Keeps c
        (record c { paired_device_ids = ids; config = record c.config { paired_device_ids = ids } })
unpair-Keeps ids c = record { valid = λ v. ground arith; same_pastes = refl }

announce-Keeps :
    (ids : List Text) (status : Text) (c : Coordinator)
    → Keeps c (
        emit
          (Effect.set_status status)
          (emit (Effect.update_paired_device_ids ids) (emit (Effect.set_paired_device_ids ids) c)))
unfolding pastes
announce-Keeps ids status c = record { valid = λ v. ground arith; same_pastes = refl }

pub remove_device-Keeps :
    (device_id : Text) (c : Coordinator) → Keeps c (remove_paired_device device_id c)
unfolding remove_paired_device
remove_device-Keeps device_id c = if-Keeps _ c _ _ (Keeps-refl c) (
    Keeps-trans c _ _ (unpair-Keeps (erase_id device_id c.paired_device_ids) c) (
      Keeps-trans _ _ _
        (if-Keeps (is_device c.active_device_id device_id) _ _ _ (forget-Keeps _) (Keeps-refl _))
        (announce-Keeps _ _ _)))
