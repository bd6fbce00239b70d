-- ===== src/Coordinator/Audio.antt =====
-- The audio of a dictation on its way to the recognizer, in voice_stick_coordinator.cc: buffering,
-- the late start of the recognizer, the wait for the last frame, and the ways in which it ends.
use voicestick.Prelude.{
  ℕ, ◌+◌, ◌-◌, ◌==◌, ltb, Bool, true, false, not, ◌&&◌, ◌||◌, List, [], ◌∷◌, ◌++◌, Option, none,
  some, if◌then◌else◌,
}
use voicestick.Prelude.Texts.{Bytes, Text, text, is_empty}
use voicestick.ByteUtils.{u64}
use voicestick.Ogg.{finish}
use voicestick.Coordinator.State.{
  Coordinator, World, StartAnswer, AsrSessionOptions, session_options, Effect, emit, discard,
  record_audio, finish_recorder, no_paste, output_profile_for_device, should_use_definite_segments,
}
use voicestick.Coordinator.Enter.{
  enter_ready, enter_finalizing, enter_error, cancel_audio_end_timeout, finish_recognition_cycle,
}

-- `kMinimumRecordingDurationSeconds`, in nanoseconds.
abbrev pub minimum_recording : ℕ
minimum_recording = 500000000

unfoldable pub current_recording_duration : World → Coordinator → ℕ
current_recording_duration w c = w.now - c.active_session_started_at

unfoldable pub discard_debug_audio : Coordinator → Coordinator
discard_debug_audio c = record c { debug_audio_recorder = discard c.debug_audio_recorder }

unfoldable pub finish_debug_audio : Coordinator → Coordinator
finish_debug_audio c =
    let (r, file) = finish_recorder c.debug_audio_recorder in
    let c1 = record c { debug_audio_recorder = r } in
    elim file [ none ↦ c1 | some bytes ↦ emit (Effect.write_debug_audio bytes) c1 ]

unfoldable pub finish_with_asr_error : Text → Coordinator → Coordinator
finish_with_asr_error message c =
    let c1 = emit Effect.asr_cancel (cancel_audio_end_timeout c) in
    let c2 = record c1 { pending_paste_state = no_paste; active_session_id = none } in
    enter_error message (finish_recognition_cycle (discard_debug_audio c2))

unfoldable pub cancel_short_recording : Coordinator → Coordinator
cancel_short_recording c =
    let c1 = record c { active_session_id = none; active_session_started_at = 0 } in
    let c2 = record (cancel_audio_end_timeout c1) { buffered_ogg_chunks = [] } in
    enter_ready true (finish_recognition_cycle (discard_debug_audio (emit Effect.asr_cancel c2)))

-- The loop over the buffered chunks; only the last one may be the final one.
unfoldable pub send_buffered : List Bytes → Bool → Coordinator → Coordinator
send_buffered [] last_chunk_is_final c = c
send_buffered (chunk ∷ chunks) last_chunk_is_final c =
    send_buffered chunks last_chunk_is_final
      (emit (Effect.asr_send chunk (is_empty chunks && last_chunk_is_final)) c)

abbrev pub asr_options : Coordinator → AsrSessionOptions
asr_options c =
    session_options c.config.asr_hotwords (
      should_use_definite_segments c.config (output_profile_for_device c.config c.active_device_id))

-- The call of `asr_->Start`, with the `on_error` that it may make before it returns.
unfoldable pub call_asr_start : StartAnswer → Coordinator → Coordinator
call_asr_start a c =
    let c1 = emit (Effect.asr_start (asr_options c)) c in
    elim a.reported [ none ↦ c1 | some message ↦ finish_with_asr_error message c1 ]

unfoldable pub start_asr_and_flush_buffered_chunks : World → Bool → Coordinator → Coordinator × Bool
start_asr_and_flush_buffered_chunks w last_chunk_is_final c =
    if c.asr_started
    then (c, true)
    else let a = w.start (asr_options c) in
      let c1 = call_asr_start a c in
      if not a.started
      then (record c1 { buffered_ogg_chunks = [] }, false)
      else let c2 =
          send_buffered c1.buffered_ogg_chunks last_chunk_is_final
            (record c1 { asr_started = true }) in
        (record c2 { buffered_ogg_chunks = [] }, true)

abbrev pub start_failure_message : StartAnswer → Text
start_failure_message a =
    if is_empty a.last_start_error then text "Failed to start ASR" else a.last_start_error

unfoldable pub send_or_buffer_ogg_chunk : World → Bytes → Bool → Bool → Coordinator → Coordinator
send_or_buffer_ogg_chunk w chunk is_last can_start_asr c =
    if c.asr_started
    then emit (Effect.asr_send chunk is_last) c
    else let c1 = record c { buffered_ogg_chunks = c.buffered_ogg_chunks ++ (chunk ∷ []) } in
      if not can_start_asr
      then c1
      else let (c2, started) = start_asr_and_flush_buffered_chunks w is_last c1 in
        if started || c2.is_showing_asr_error
        then c2
        else finish_with_asr_error (start_failure_message (w.start (asr_options c1))) c2

unfoldable pub send_final_ogg_chunk_if_needed : World → ℕ → Coordinator → Coordinator
send_final_ogg_chunk_if_needed w recording_duration c =
    if c.sent_final_audio_chunk
    then c
    else let c1 = cancel_audio_end_timeout (record c { sent_final_audio_chunk = true }) in
      if not c1.asr_started && ltb recording_duration minimum_recording
      then cancel_short_recording c1
      else if c1.received_audio_frames == 0
      then finish_with_asr_error (text "No audio frames from device")
          (record c1 { active_session_id = none })
      else let (muxer, final_chunk) = finish c1.ogg_muxer in
        let c2 = record c1 {
          ogg_muxer = muxer;
          debug_audio_recorder = record_audio final_chunk c1.debug_audio_recorder;
        } in
        let c3 = record (finish_debug_audio c2) { active_session_id = none } in
        enter_finalizing (send_or_buffer_ogg_chunk w final_chunk true true c3)

-- Starts the thread of the timeout; what it does when it wakes up is `audio_end_timeout`.
unfoldable pub schedule_audio_end_timeout : Option ℕ → Option Text → Coordinator → Coordinator
schedule_audio_end_timeout session_id device_id c =
    let generation = u64 (c.audio_end_wait_generation + 1) in
    emit (Effect.start_audio_end_timer generation session_id device_id)
      (record c { audio_end_wait_generation = generation })

unfoldable pub begin_waiting_for_audio_end : Coordinator → Coordinator
begin_waiting_for_audio_end c =
    if c.waiting_for_audio_end
    then c
    else let c1 = enter_finalizing (record c { waiting_for_audio_end = true }) in
      schedule_audio_end_timeout c1.active_session_id c1.active_device_id c1
