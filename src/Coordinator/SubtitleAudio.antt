-- ===== src/Coordinator/SubtitleAudio.antt =====
-- The audio of a subtitle cycle in voice_stick_coordinator.cc: the buttons, the frames, and the
-- recognizer that starts late. A cycle is found again by its key after every call that may have
-- removed it, as in the source.
use voicestick.Prelude.{
  ℕ, ◌+◌, ◌-◌, ◌==◌, ltb, leb, Bool, true, false, not, ◌&&◌, ◌||◌, List, [], ◌∷◌, ◌++◌, Option,
  none, some, if◌then◌else◌,
}
use voicestick.Prelude.Texts.{Bytes, Text, text, is_empty}
use voicestick.BleProtocol.{AudioFrame, is_end}
use voicestick.Ogg.{append, finish, new_muxer}
use voicestick.Coordinator.State.{
  Coordinator, World, SubtitleCycle, Effect, emit, new_recorder, start_recorder, record_audio,
  finish_recorder, output_profile_for_device, should_use_definite_segments, AsrSessionOptions,
  session_options,
}
use voicestick.Coordinator.Audio.{minimum_recording, start_failure_message}
use voicestick.Coordinator.Cycles.{
  find_subtitle_cycle, find_active_subtitle_cycle, find_active, set_active,
  is_active_subtitle_cycle, clear_active_subtitle_session, put_cycle, remove_cycle, is_set,
}
use voicestick.Coordinator.Subtitle.{
  tell, cancel_subtitle_audio_end_timeout, finish_subtitle_cycle_with_error, cancel_subtitle_cycle,
  finish_subtitle_audio_input, begin_waiting_for_subtitle_audio_end,
}

unfoldable pub send_subtitle_buffered : Text → ℕ → List Bytes → Bool → Coordinator → Coordinator
send_subtitle_buffered device_id session_id [] last_chunk_is_final c = c
send_subtitle_buffered device_id session_id (chunk ∷ chunks) last_chunk_is_final c =
    send_subtitle_buffered device_id session_id chunks last_chunk_is_final (
      emit
        (Effect.subtitle_asr_send device_id session_id chunk
          (is_empty chunks && last_chunk_is_final))
        c)

abbrev pub subtitle_options : Text → Coordinator → AsrSessionOptions
subtitle_options device_id c =
    session_options c.config.asr_hotwords
      (should_use_definite_segments c.config (output_profile_for_device c.config (some device_id)))

unfoldable pub clear_subtitle_buffer : Text → ℕ → Coordinator → Coordinator
clear_subtitle_buffer device_id session_id c = elim (find_subtitle_cycle device_id session_id c) [
  | none ↦ c
  | some y ↦ put_cycle (record y { buffered_ogg_chunks = [] }) c
]

unfoldable pub flush_subtitle : Text → ℕ → Bool → Coordinator → Coordinator × Bool
flush_subtitle device_id session_id last_chunk_is_final c =
    elim (find_subtitle_cycle device_id session_id c) [
      | none ↦ (c, false)
      | some y ↦
          let c1 = put_cycle (record y { asr_started = true; buffered_ogg_chunks = [] }) c in
          (
            send_subtitle_buffered device_id session_id y.buffered_ogg_chunks last_chunk_is_final
                c1,
            true,
          )
    ]

unfoldable pub start_subtitle_asr_and_flush_buffered_chunks :
    World → SubtitleCycle → Bool → Coordinator → Coordinator × Bool
start_subtitle_asr_and_flush_buffered_chunks w y last_chunk_is_final c =
    if y.asr_started
    then (c, true)
    else let options = subtitle_options y.device_id c in
      let a = w.start options in
      let c1 = emit (Effect.subtitle_asr_start y.device_id y.session_id options) c in
      let c2 : Coordinator = elim a.reported [
        | none ↦ c1
        | some message ↦ finish_subtitle_cycle_with_error y.device_id y.session_id message c1
      ] in
      if not a.started
      then (clear_subtitle_buffer y.device_id y.session_id c2, false)
      else flush_subtitle y.device_id y.session_id last_chunk_is_final c2

unfoldable pub send_or_buffer_subtitle_ogg_chunk :
    World → SubtitleCycle → Bytes → Bool → Bool → Coordinator → Coordinator
send_or_buffer_subtitle_ogg_chunk w y chunk is_last can_start_asr c =
    if y.asr_started
    then emit (Effect.subtitle_asr_send y.device_id y.session_id chunk is_last) c
    else let y1 = record y { buffered_ogg_chunks = y.buffered_ogg_chunks ++ (chunk ∷ []) } in
      let c1 = put_cycle y1 c in
      if not can_start_asr
      then c1
      else let (c2, started) = start_subtitle_asr_and_flush_buffered_chunks w y1 is_last c1 in
        if started
        then c2
        else let message =
            if is_set (find_subtitle_cycle y.device_id y.session_id c2)
            then start_failure_message (w.start (subtitle_options y.device_id c))
            else text "Failed to start ASR" in
          finish_subtitle_cycle_with_error y.device_id y.session_id message c2

-- What is left of a recording that was too short.
unfoldable pub drop_short_subtitle_cycle : Text → ℕ → Coordinator → Coordinator
drop_short_subtitle_cycle device_id session_id c =
    let was_active = is_active_subtitle_cycle device_id session_id c in
    let c1 = clear_active_subtitle_session device_id session_id c in
    let c2 =
      remove_cycle device_id session_id
        (emit (Effect.subtitle_asr_cancel device_id session_id) c1) in
    if was_active
    then tell (text "ready") device_id
        (emit (Effect.set_status (text "Ready")) (emit Effect.hide_overlay c2))
    else c2

-- `Finish` of a cycle's recorder, with the file that it writes.
unfoldable pub finish_cycle_audio : SubtitleCycle → Coordinator → Coordinator
finish_cycle_audio y c =
    let (r, file) = finish_recorder y.debug_audio_recorder in
    let c1 = put_cycle (record y { debug_audio_recorder = r }) c in
    elim file [ none ↦ c1 | some bytes ↦ emit (Effect.write_debug_audio bytes) c1 ]

unfoldable pub send_subtitle_final_ogg_chunk : World → SubtitleCycle → Coordinator → Coordinator
send_subtitle_final_ogg_chunk w y c =
    let (muxer, final_chunk) = finish y.ogg_muxer in
    let y1 = record y {
      ogg_muxer = muxer;
      debug_audio_recorder = record_audio final_chunk y.debug_audio_recorder;
    } in
    let c1 = finish_cycle_audio y1 c in
    let y2 = record y1 { debug_audio_recorder = (finish_recorder y1.debug_audio_recorder).0 } in
    send_or_buffer_subtitle_ogg_chunk w y2 final_chunk true true c1

unfoldable pub send_subtitle_final_ogg_chunk_if_needed :
    World → Text → ℕ → Coordinator → Coordinator
send_subtitle_final_ogg_chunk_if_needed w device_id session_id c =
    elim (find_subtitle_cycle device_id session_id c) [
      | none ↦ c
      | some y ↦
          if y.sent_final_audio_chunk
          then c
          else let y1 =
              cancel_subtitle_audio_end_timeout (record y { sent_final_audio_chunk = true }) in
            let c1 = put_cycle y1 c in
            if not y1.asr_started && ltb (w.now - y1.started_at) minimum_recording
            then drop_short_subtitle_cycle device_id session_id c1
            else if y1.received_audio_frames == 0
            then finish_subtitle_cycle_with_error device_id session_id
                (text "No audio frames from device") c1
            else send_subtitle_final_ogg_chunk w y1 c1
    ]

abbrev pub new_cycle : World → Text → ℕ → Coordinator → SubtitleCycle
new_cycle w device_id session_id c = record {
  device_id = device_id;
  session_id = session_id;
  started_at = w.now;
  ogg_muxer = new_muxer 16000 1;
  debug_audio_recorder =
      start_recorder device_id session_id (new_recorder c.config.debug_audio_cache);
  received_audio_frames = 0;
  last_audio_seq = none;
  buffered_ogg_chunks = [];
  asr_started = false;
  sent_final_audio_chunk = false;
  finished_final_text = false;
  waiting_for_audio_end = false;
  audio_end_wait_generation = 0;
}

-- `HandleSubtitlePrimaryButtonDown` behind the tests of the session.
unfoldable pub begin_subtitle_cycle : World → ℕ → Text → Coordinator → Coordinator
begin_subtitle_cycle w session_id device_id c =
    if is_active_subtitle_cycle device_id session_id c
      || is_set (find_subtitle_cycle device_id session_id c)
    then c
    else let c1 : Coordinator = elim (find_active device_id c.active_subtitle_sessions) [
      | none ↦ c
      | some previous ↦ clear_active_subtitle_session device_id previous c
    ] in
      if not c1.has_asr_factory
      then emit (Effect.show_error (text "Subtitle ASR is not available") (some device_id)) c1
      else let c2 = record c1 {
        subtitle_cycles = new_cycle w device_id session_id c1 ∷ c1.subtitle_cycles;
        active_subtitle_sessions = set_active device_id session_id c1.active_subtitle_sessions;
      } in
        tell (text "recording") device_id (emit (Effect.show_listening (some device_id)) c2)

unfoldable pub handle_subtitle_primary_button_down :
    World → Option ℕ → Text → Coordinator → Coordinator
handle_subtitle_primary_button_down w none device_id c = tell (text "ready") device_id c
handle_subtitle_primary_button_down w (some session_id) device_id c =
    if session_id == 0
    then tell (text "ready") device_id c
    else begin_subtitle_cycle w session_id device_id c

unfoldable pub handle_subtitle_primary_button_up : World → Text → Coordinator → Coordinator
handle_subtitle_primary_button_up w device_id c = elim (find_active_subtitle_cycle device_id c) [
  | none ↦ c
  | some y ↦
      if ltb (w.now - y.started_at) minimum_recording
      then cancel_subtitle_cycle device_id c
      else finish_subtitle_audio_input y (begin_waiting_for_subtitle_audio_end y c)
]

-- The end of a frame that carries audio, if the frame is the last one. The source goes on with the
-- pointer that it had before the chunk was sent: where the cycle is gone by now, that pointer dangles.
unfoldable pub end_subtitle_audio : SubtitleCycle → Coordinator → Coordinator
end_subtitle_audio y c = elim (find_subtitle_cycle y.device_id y.session_id c) [
  | none ↦ emit Effect.use_after_free c
  | some y1 ↦
      let y2 = record (cancel_subtitle_audio_end_timeout y1) { sent_final_audio_chunk = true } in
      finish_subtitle_audio_input y2 (finish_cycle_audio y2 c)
]

unfoldable pub handle_subtitle_audio :
    World → AudioFrame → SubtitleCycle → Coordinator → Coordinator
handle_subtitle_audio w frame y c =
    let y1 = record y {
      last_audio_seq = some frame.seq;
      received_audio_frames = y.received_audio_frames + 1;
    } in
    let (muxer, chunk) = append frame.payload (is_end frame) y1.ogg_muxer in
    elim chunk [
      | none ↦ emit Effect.exception (put_cycle (record y1 { ogg_muxer = muxer }) c)
      | some ogg_chunk ↦
          let y2 = record y1 {
            ogg_muxer = muxer;
            debug_audio_recorder = record_audio ogg_chunk y1.debug_audio_recorder;
          } in
          let long_enough = leb minimum_recording (w.now - y2.started_at) in
          let c1 =
            send_or_buffer_subtitle_ogg_chunk w y2 ogg_chunk (is_end frame)
              (long_enough && (not y2.waiting_for_audio_end || is_end frame)) (put_cycle y2 c) in
          if is_end frame then end_subtitle_audio y2 c1 else c1
    ]

unfoldable pub handle_subtitle_audio_frame : World → AudioFrame → Text → Coordinator → Coordinator
handle_subtitle_audio_frame w frame device_id c =
    elim (find_subtitle_cycle device_id frame.session_id c) [
      | none ↦ c
      | some y ↦
          if is_end frame && is_empty frame.payload
          then send_subtitle_final_ogg_chunk_if_needed w device_id frame.session_id
              (put_cycle (cancel_subtitle_audio_end_timeout y) c)
          else if is_empty frame.payload
          then c
          else handle_subtitle_audio w frame y c
    ]
