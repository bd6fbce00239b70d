-- ===== src/Coordinator/Invariant.antt =====
-- What holds of the coordinator after every event, and what may paste.
use voicestick.Coordinator.Enter.{
  cancel_audio_end_timeout, enter_error, enter_ready, finish_recognition_cycle, set_session_state,
  send_ui_state_for_active_device, enter_finalizing,
}
use voicestick.Coordinator.Audio.{
  finish_debug_audio, finish_with_asr_error, cancel_short_recording, send_buffered, call_asr_start,
  start_asr_and_flush_buffered_chunks, discard_debug_audio, send_or_buffer_ogg_chunk,
}
use voicestick.Coordinator.Cycles.{is_set}
use voicestick.Prelude.{
  refl, false, ◌≡◌, Bool, true, List, [], ◌∷◌, none, ◌∙◌, arith, if◌then◌else◌,
}
use voicestick.Prelude.Texts.{Bytes, Text}
use voicestick.Coordinator.State.{Coordinator, World, StartAnswer, ready, is_idle, finish_recorder}
use voicestick.Coordinator.Frame.{pastes, IsQuiet, IsQuiet-trans}

-- A ready coordinator has no active device; it only waits for the last frame of an open session; a
-- started recognizer leaves no chunk in the buffer; and a paste that is not pending has no text.
pub record IsValid (c : Coordinator) : Type 0 where
  pub free : c.session_state ≡ ready → c.active_device_id ≡ none
  pub waits : c.waiting_for_audio_end ≡ true → is_set c.active_session_id ≡ true
  pub flushed : c.asr_started ≡ true → c.buffered_ogg_chunks ≡ []
  pub unlabelled : is_idle c.pending_paste_state.kind ≡ true → c.pending_paste_state.label ≡ []

-- The invariant is kept, and nothing is pasted.
pub record Keeps (c d : Coordinator) : Type 0 where
  pub valid : IsValid c → IsValid d
  pub same_pastes : pastes d.log ≡ pastes c.log

pub Keeps-refl : (c : Coordinator) → Keeps c c
Keeps-refl c = record { valid = λ v. v; same_pastes = refl }

pub if-Keeps :
    (b : Bool) (c d e : Coordinator) → Keeps c d → Keeps c e → Keeps c (if b then d else e)
if-Keeps true c d e p q = p
if-Keeps false c d e p q = q

pub Keeps-trans : (c d e : Coordinator) → Keeps c d → Keeps d e → Keeps c e
Keeps-trans c d e p q = record {
  valid = λ v. q.valid (p.valid v);
  same_pastes = q.same_pastes ∙ p.same_pastes;
}

pub IsQuiet-Keeps : (c d : Coordinator) → IsQuiet c d → Keeps c d
IsQuiet-Keeps c d q = record { valid = λ v. ground arith; same_pastes = q.same_pastes }

pub finish_debug-IsQuiet : (c : Coordinator) → IsQuiet c (finish_debug_audio c)
unfolding finish_debug_audio finish_recorder pastes
finish_debug-IsQuiet c = ground arith

pub asr_error-Keeps : (message : Text) (c : Coordinator) → Keeps c (finish_with_asr_error message c)
unfolding finish_with_asr_error cancel_audio_end_timeout enter_error finish_recognition_cycle
    discard_debug_audio set_session_state send_ui_state_for_active_device pastes
asr_error-Keeps message c = record { valid = λ v. ground arith; same_pastes = ground arith }

pub cancel_short-Keeps : (c : Coordinator) → Keeps c (cancel_short_recording c)
unfolding cancel_short_recording cancel_audio_end_timeout enter_ready finish_recognition_cycle
    discard_debug_audio set_session_state send_ui_state_for_active_device pastes
cancel_short-Keeps c = record { valid = λ v. ground arith; same_pastes = ground arith }

-- The chunks only go into the log.
pub send_buffered-IsQuiet :
    (chunks : List Bytes) (final : Bool) (c : Coordinator)
    → IsQuiet c (send_buffered chunks final c)
unfolding send_buffered pastes
send_buffered-IsQuiet [] final c = ground arith
send_buffered-IsQuiet (chunk ∷ chunks) final c =
    IsQuiet-trans c _ _ (ground arith) (send_buffered-IsQuiet chunks final _)

call_start-Keeps : (a : StartAnswer) (c : Coordinator) → Keeps c (call_asr_start a c)
unfolding call_asr_start pastes
call_start-Keeps a c = record {
  valid = λ v. grind (arith, asr_error-Keeps);
  same_pastes = grind (arith, asr_error-Keeps);
}

start-Keeps :
    (w : World) (final : Bool) (c : Coordinator)
    → Keeps c ((start_asr_and_flush_buffered_chunks w final c).0)
unfolding start_asr_and_flush_buffered_chunks
start-Keeps w final c = record {
  valid = λ v. grind (arith, call_start-Keeps, send_buffered-IsQuiet);
  same_pastes = grind (arith, call_start-Keeps, send_buffered-IsQuiet);
}

pub send_or_buffer-Keeps :
    (w : World) (chunk : Bytes) (is_last can_start : Bool) (c : Coordinator)
    → Keeps c (send_or_buffer_ogg_chunk w chunk is_last can_start c)
unfolding send_or_buffer_ogg_chunk pastes
send_or_buffer-Keeps w chunk is_last can_start c = record {
  valid = λ v. grind (arith, start-Keeps, asr_error-Keeps);
  same_pastes = grind (arith, start-Keeps, asr_error-Keeps);
}

pub enter_finalizing-Keeps : (c : Coordinator) → Keeps c (enter_finalizing c)
unfolding enter_finalizing set_session_state send_ui_state_for_active_device pastes
enter_finalizing-Keeps c = record { valid = λ v. ground arith; same_pastes = ground arith }

pub cancel_timeout-Keeps : (c : Coordinator) → Keeps c (cancel_audio_end_timeout c)
unfolding cancel_audio_end_timeout
cancel_timeout-Keeps c = record { valid = λ v. ground arith; same_pastes = ground arith }
