-- ===== src/Coordinator/Frame.antt =====
-- Subtitle mode and the dictation: the fields of the coordinator that a dictation uses.
use voicestick.BleProtocol.{AudioFrame}
use voicestick.Coordinator.SubtitleAudio.{
  send_subtitle_buffered, flush_subtitle, start_subtitle_asr_and_flush_buffered_chunks,
  send_or_buffer_subtitle_ogg_chunk, finish_cycle_audio, drop_short_subtitle_cycle,
  send_subtitle_final_ogg_chunk, send_subtitle_final_ogg_chunk_if_needed,
  handle_subtitle_primary_button_down, handle_subtitle_primary_button_up, end_subtitle_audio,
  handle_subtitle_audio, handle_subtitle_audio_frame, clear_subtitle_buffer, begin_subtitle_cycle,
}
use voicestick.Coordinator.Cycles.{clear_active_subtitle_session, remove_cycle, put_cycle}
use voicestick.Prelude.{ℕ, ◌≡◌, Bool, List, [], ◌∷◌, Option, arith}
use voicestick.Prelude.Texts.{Bytes, Text}
use voicestick.Coordinator.State.{Coordinator, SubtitleCycle, Effect, World, finish_recorder}
use voicestick.Coordinator.Subtitle.{
  cancel_cycles_of, finish_subtitle_cycle_with_error, cancel_subtitle_cycle, finish_subtitle_cycle,
  cancel_subtitle_cycles_for_device, finish_subtitle_audio_input,
  begin_waiting_for_subtitle_audio_end, schedule_subtitle_audio_end_timeout,
}

-- The texts that have been pasted, the newest first.
unfoldable pub pastes : List Effect → List Text
pastes [] = []
pastes (Effect.paste label auto_enter ∷ log) = label ∷ pastes log
pastes (e ∷ log) = pastes log

pub record IsQuiet (c d : Coordinator) : Type 0 where
  pub same_config : d.config ≡ c.config
  pub same_state : d.session_state ≡ c.session_state
  pub same_device : d.active_device_id ≡ c.active_device_id
  pub same_session : d.active_session_id ≡ c.active_session_id
  pub same_waiting : d.waiting_for_audio_end ≡ c.waiting_for_audio_end
  pub same_asr : d.asr_started ≡ c.asr_started
  pub same_buffer : d.buffered_ogg_chunks ≡ c.buffered_ogg_chunks
  pub same_pending : d.pending_paste_state ≡ c.pending_paste_state
  pub same_text : d.last_recoverable_text ≡ c.last_recoverable_text
  pub same_pastes : pastes d.log ≡ pastes c.log

pub IsQuiet-refl : (c : Coordinator) → IsQuiet c c
IsQuiet-refl c = ground arith

pub IsQuiet-trans : (c d e : Coordinator) → IsQuiet c d → IsQuiet d e → IsQuiet c e
IsQuiet-trans c d e p q = ground arith

pub clear-IsQuiet :
    (device_id : Text) (session_id : ℕ) (c : Coordinator)
    → IsQuiet c (clear_active_subtitle_session device_id session_id c)
unfolding clear_active_subtitle_session
clear-IsQuiet device_id session_id c = ground arith

pub finish_error-IsQuiet :
    (device_id : Text) (session_id : ℕ) (message : Text) (c : Coordinator)
    → IsQuiet c (finish_subtitle_cycle_with_error device_id session_id message c)
unfolding finish_subtitle_cycle_with_error clear_active_subtitle_session remove_cycle pastes
finish_error-IsQuiet device_id session_id message c = ground arith

pub cancel-IsQuiet :
    (device_id : Text) (c : Coordinator) → IsQuiet c (cancel_subtitle_cycle device_id c)
unfolding cancel_subtitle_cycle clear_active_subtitle_session remove_cycle pastes
cancel-IsQuiet device_id c = ground arith

pub finish-IsQuiet :
    (device_id : Text) (session_id : ℕ) (hide : Bool) (c : Coordinator)
    → IsQuiet c (finish_subtitle_cycle device_id session_id hide c)
unfolding finish_subtitle_cycle clear_active_subtitle_session remove_cycle pastes
finish-IsQuiet device_id session_id hide c = ground arith

cancel_cycles-IsQuiet :
    (device_id : Text) (ys : List SubtitleCycle) (c : Coordinator)
    → IsQuiet c (cancel_cycles_of device_id ys c)
unfolding cancel_cycles_of remove_cycle pastes
cancel_cycles-IsQuiet device_id [] c = ground arith
cancel_cycles-IsQuiet device_id (y ∷ ys) c =
    IsQuiet-trans c _ _ (ground arith) (cancel_cycles-IsQuiet device_id ys _)

pub cancel_device-IsQuiet :
    (device_id : Text) (c : Coordinator) → IsQuiet c (cancel_subtitle_cycles_for_device device_id c)
unfolding cancel_subtitle_cycles_for_device pastes
cancel_device-IsQuiet device_id c = grind (arith, cancel_cycles-IsQuiet)

pub finish_input-IsQuiet :
    (y : SubtitleCycle) (c : Coordinator) → IsQuiet c (finish_subtitle_audio_input y c)
unfolding finish_subtitle_audio_input clear_active_subtitle_session pastes
finish_input-IsQuiet y c = ground arith

pub begin_waiting-IsQuiet :
    (y : SubtitleCycle) (c : Coordinator) → IsQuiet c (begin_waiting_for_subtitle_audio_end y c)
unfolding begin_waiting_for_subtitle_audio_end schedule_subtitle_audio_end_timeout put_cycle pastes
begin_waiting-IsQuiet y c = ground arith

send_buffered-IsQuiet :
    (device_id : Text) (session_id : ℕ) (chunks : List Bytes) (final : Bool) (c : Coordinator)
    → IsQuiet c (send_subtitle_buffered device_id session_id chunks final c)
unfolding send_subtitle_buffered pastes
send_buffered-IsQuiet device_id session_id [] final c = ground arith
send_buffered-IsQuiet device_id session_id (chunk ∷ chunks) final c =
    IsQuiet-trans c _ _ (ground arith) (send_buffered-IsQuiet device_id session_id chunks final _)

flush-IsQuiet :
    (device_id : Text) (session_id : ℕ) (final : Bool) (c : Coordinator)
    → IsQuiet c (flush_subtitle device_id session_id final c).0
unfolding flush_subtitle put_cycle
flush-IsQuiet device_id session_id final c = grind (arith, send_buffered-IsQuiet)

start-IsQuiet :
    (w : World) (y : SubtitleCycle) (final : Bool) (c : Coordinator)
    → IsQuiet c (start_subtitle_asr_and_flush_buffered_chunks w y final c).0
unfolding start_subtitle_asr_and_flush_buffered_chunks clear_subtitle_buffer put_cycle pastes
start-IsQuiet w y final c = grind (arith, flush-IsQuiet, finish_error-IsQuiet)

send_or_buffer-IsQuiet :
    (w : World) (y : SubtitleCycle) (chunk : Bytes) (is_last can_start : Bool) (c : Coordinator)
    → IsQuiet c (send_or_buffer_subtitle_ogg_chunk w y chunk is_last can_start c)
unfolding send_or_buffer_subtitle_ogg_chunk put_cycle pastes
send_or_buffer-IsQuiet w y chunk is_last can_start c =
    grind (arith, start-IsQuiet, finish_error-IsQuiet)

finish_audio-IsQuiet : (y : SubtitleCycle) (c : Coordinator) → IsQuiet c (finish_cycle_audio y c)
unfolding finish_cycle_audio finish_recorder put_cycle pastes
finish_audio-IsQuiet y c = ground arith

drop_short-IsQuiet :
    (device_id : Text) (session_id : ℕ) (c : Coordinator)
    → IsQuiet c (drop_short_subtitle_cycle device_id session_id c)
unfolding drop_short_subtitle_cycle clear_active_subtitle_session remove_cycle pastes
drop_short-IsQuiet device_id session_id c = ground arith

send_final-IsQuiet :
    (w : World) (y : SubtitleCycle) (c : Coordinator)
    → IsQuiet c (send_subtitle_final_ogg_chunk w y c)
unfolding send_subtitle_final_ogg_chunk
send_final-IsQuiet w y c = grind (arith, finish_audio-IsQuiet, send_or_buffer-IsQuiet)

pub send_final_if_needed-IsQuiet :
    (w : World) (device_id : Text) (session_id : ℕ) (c : Coordinator)
    → IsQuiet c (send_subtitle_final_ogg_chunk_if_needed w device_id session_id c)
unfolding send_subtitle_final_ogg_chunk_if_needed put_cycle
send_final_if_needed-IsQuiet w device_id session_id c =
    grind (arith, drop_short-IsQuiet, finish_error-IsQuiet, send_final-IsQuiet)

pub button_down-IsQuiet :
    (w : World) (session_id : Option ℕ) (device_id : Text) (c : Coordinator)
    → IsQuiet c (handle_subtitle_primary_button_down w session_id device_id c)
unfolding handle_subtitle_primary_button_down begin_subtitle_cycle clear_active_subtitle_session
    pastes
button_down-IsQuiet w session_id device_id c = ground arith

pub button_up-IsQuiet :
    (w : World) (device_id : Text) (c : Coordinator)
    → IsQuiet c (handle_subtitle_primary_button_up w device_id c)
unfolding handle_subtitle_primary_button_up
button_up-IsQuiet w device_id c =
    grind (arith, cancel-IsQuiet, begin_waiting-IsQuiet, finish_input-IsQuiet)

end_audio-IsQuiet : (y : SubtitleCycle) (c : Coordinator) → IsQuiet c (end_subtitle_audio y c)
unfolding end_subtitle_audio pastes
end_audio-IsQuiet y c = grind (arith, finish_audio-IsQuiet, finish_input-IsQuiet)

audio-IsQuiet :
    (w : World) (frame : AudioFrame) (y : SubtitleCycle) (c : Coordinator)
    → IsQuiet c (handle_subtitle_audio w frame y c)
unfolding handle_subtitle_audio put_cycle pastes
audio-IsQuiet w frame y c = grind (arith, send_or_buffer-IsQuiet, end_audio-IsQuiet)

pub audio_frame-IsQuiet :
    (w : World) (frame : AudioFrame) (device_id : Text) (c : Coordinator)
    → IsQuiet c (handle_subtitle_audio_frame w frame device_id c)
unfolding handle_subtitle_audio_frame put_cycle
audio_frame-IsQuiet w frame device_id c = grind (arith, send_final_if_needed-IsQuiet, audio-IsQuiet)
