-- ===== src/Coordinator/Flow.antt =====
-- The audio of a dictation on its way to the recognizer, and the wait for its end.
use voicestick.Coordinator.Events.{audio_end_timeout}
use voicestick.Coordinator.Enter.{
  enter_finalizing, cancel_audio_end_timeout, enter_error, enter_ready, set_session_state,
  finish_recognition_cycle, send_ui_state_for_active_device,
}
use voicestick.Prelude.{
  ℕ, ◌≡◌, ◌++◌, Bool, true, false, List, [], ◌∷◌, none, refl, append-nil, append_assoc, sym, ◌∙◌,
  arith, if◌then◌else◌, ◌+◌, ◌≤◌, ◌⊎◌, suc, Option,
}
use voicestick.Prelude.Texts.{Bytes, Text}
use voicestick.Coordinator.State.{Coordinator, World, Effect, StartAnswer, emit}
use voicestick.Coordinator.Audio.{
  send_buffered, asr_options, send_or_buffer_ogg_chunk, send_final_ogg_chunk_if_needed,
  start_asr_and_flush_buffered_chunks, call_asr_start, finish_with_asr_error,
  cancel_short_recording, finish_debug_audio, discard_debug_audio, current_recording_duration,
}

-- The chunks that the recognizer was given, in the order in which they were sent.
unfoldable pub sends : List Effect → List Bytes
sends [] = []
sends (Effect.asr_send chunk is_last ∷ log) = sends log ++ (chunk ∷ [])
sends (e ∷ log) = sends log

-- What was sent, and behind it what is still in the buffer.
abbrev pub stream : Coordinator → List Bytes
stream c = sends c.log ++ c.buffered_ogg_chunks

sends-send_buffered :
    (chunks : List Bytes) (final : Bool) (c : Coordinator)
    → sends (send_buffered chunks final c).log ≡ sends c.log ++ chunks
unfolding send_buffered sends
sends-send_buffered [] final c = sym (append-nil (sends c.log))
sends-send_buffered (chunk ∷ chunks) final c =
    sends-send_buffered chunks final _ ∙ append_assoc (sends c.log) (chunk ∷ []) chunks

-- The recognizer starts at once and reports no error.
pub record IsWilling (w : World) (c : Coordinator) : Type 0 where
  pub quiet : (w.start (asr_options c)).reported ≡ none
  pub starts : (w.start (asr_options c)).started ≡ true

-- With a recognizer that starts and reports no error, and no chunk in the buffer once it has
-- started, a chunk goes to the end of the stream whichever way it takes: sent at once, kept in the
-- buffer, or sent behind the whole buffer when the recognizer starts.
pub stream-send_or_buffer_ogg_chunk :
    (w : World) (chunk : Bytes) (is_last can_start : Bool) (c : Coordinator)
    → IsWilling w c
    → (c.asr_started ≡ true → c.buffered_ogg_chunks ≡ [])
    → stream (send_or_buffer_ogg_chunk w chunk is_last can_start c) ≡ stream c ++ (chunk ∷ [])
unfolding send_or_buffer_ogg_chunk start_asr_and_flush_buffered_chunks call_asr_start sends
stream-send_or_buffer_ogg_chunk w chunk is_last can_start c h v =
    grind (arith, sends-send_buffered, append-nil, append_assoc)

-- How many of the chunks that the recognizer was given were marked as the last one.
unfoldable pub finals : List Effect → ℕ
finals [] = 0
finals (Effect.asr_send chunk is_last ∷ log) =
    let before = finals log in if is_last then suc before else before
finals (e ∷ log) = finals log

-- The final chunks that the dictation may still send.
abbrev pub unsent : Coordinator → ℕ
unsent c = if c.sent_final_audio_chunk then 0 else 1

-- No more is sent than may be.
pub record IsOnce (c d : Coordinator) : Type 0 where
  pub once : finals d.log + unsent d ≤ finals c.log + unsent c

finals-send_buffered :
    (chunks : List Bytes) (final : Bool) (c : Coordinator)
    → finals (send_buffered chunks final c).log ≤ finals c.log + 1
unfolding send_buffered finals
finals-send_buffered [] final c = omega arith
finals-send_buffered (chunk ∷ []) final c = ground arith
finals-send_buffered (chunk ∷ next ∷ chunks) final c =
    finals-send_buffered (next ∷ chunks) final (emit (Effect.asr_send chunk false) c)

sent-send_buffered :
    (chunks : List Bytes) (final : Bool) (c : Coordinator)
    → (send_buffered chunks final c).sent_final_audio_chunk ≡ c.sent_final_audio_chunk
unfolding send_buffered
sent-send_buffered [] final c = refl
sent-send_buffered (chunk ∷ chunks) final c = sent-send_buffered chunks final _

finals-flush_none :
    (chunks : List Bytes) (final : Bool) (c : Coordinator)
    → chunks ≡ []
    → finals (send_buffered chunks final c).log ≡ finals c.log
unfolding send_buffered
finals-flush_none [] final c e = refl
finals-flush_none (chunk ∷ chunks) final c e = absurd (ground arith)

finals-error :
    (message : Text) (c : Coordinator)
    → (finals (finish_with_asr_error message c).log ≡ finals c.log)
      × ((finish_with_asr_error message c).buffered_ogg_chunks ≡ [])
unfolding finish_with_asr_error enter_error finish_recognition_cycle cancel_audio_end_timeout
    set_session_state send_ui_state_for_active_device discard_debug_audio finals
finals-error message c = ground arith

finals-short : (c : Coordinator) → finals (cancel_short_recording c).log ≡ finals c.log
unfolding cancel_short_recording enter_ready finish_recognition_cycle cancel_audio_end_timeout
    set_session_state send_ui_state_for_active_device discard_debug_audio finals
finals-short c = ground arith

finals-debug :
    (c : Coordinator)
    → (finals (finish_debug_audio c).log ≡ finals c.log)
      × ((finish_debug_audio c).sent_final_audio_chunk ≡ c.sent_final_audio_chunk)
unfolding finish_debug_audio finals
finals-debug c = ground arith

finals-finalizing :
    (c : Coordinator)
    → (finals (enter_finalizing c).log ≡ finals c.log)
      × ((enter_finalizing c).sent_final_audio_chunk ≡ c.sent_final_audio_chunk)
unfolding enter_finalizing set_session_state send_ui_state_for_active_device finals
finals-finalizing c = ground arith

-- The start of the recognizer: where it reports an error nothing is left to send.
finals-start :
    (a : StartAnswer) (c : Coordinator)
    → (finals (call_asr_start a c).log ≡ finals c.log)
      × (((call_asr_start a c).sent_final_audio_chunk ≡ c.sent_final_audio_chunk)
          ⊎ ((call_asr_start a c).buffered_ogg_chunks ≡ []))
unfolding call_asr_start finals
finals-start a c = grind (arith, finals-error)

finals-flush :
    (w : World) (c : Coordinator)
    → c.sent_final_audio_chunk ≡ true
    → let (d, started) = start_asr_and_flush_buffered_chunks w true c in
      (finals d.log + unsent d ≤ finals c.log + 1) × (started ≡ false → finals d.log ≡ finals c.log)
unfolding start_asr_and_flush_buffered_chunks
finals-flush w c s =
    grind (arith, finals-start, finals-send_buffered, sent-send_buffered, finals-flush_none)

finals-chunk :
    (w : World) (chunk : Bytes) (c : Coordinator)
    → c.sent_final_audio_chunk ≡ true
    → let d = send_or_buffer_ogg_chunk w chunk true true c in
      finals d.log + unsent d ≤ finals c.log + 1
unfolding send_or_buffer_ogg_chunk finals
finals-chunk w chunk c s = grind (arith, finals-flush, finals-error)

finals-send_final :
    (w : World) (duration : ℕ) (c : Coordinator)
    → IsOnce c (send_final_ogg_chunk_if_needed w duration c)
unfolding send_final_ogg_chunk_if_needed cancel_audio_end_timeout
finals-send_final w duration c =
    grind (arith, finals-short, finals-error, finals-debug, finals-finalizing, finals-chunk)

-- What ends the audio: the wait for the last frame is over, or an empty last frame or the loss of the
-- device calls `SendFinalOggChunkIfNeeded`.
pub data Ending : Type 0 where
  woken : World → (generation : ℕ) → Option ℕ → Option Text → Ending
  asked : World → (recording_duration : ℕ) → Ending

unfoldable pub ending : Ending → Coordinator → Coordinator
ending (woken w generation session_id device_id) c =
    audio_end_timeout w generation session_id device_id c
ending (asked w duration) c = send_final_ogg_chunk_if_needed w duration c

unfoldable pub endings : List Ending → Coordinator → Coordinator
endings [] c = c
endings (e ∷ rest) c = endings rest (ending e c)

ending-IsOnce : (e : Ending) (c : Coordinator) → IsOnce c (ending e c)
unfolding ending audio_end_timeout
ending-IsOnce (woken w g s d) c =
    ground (arith, finals-send_final w (current_recording_duration w c) c)
ending-IsOnce (asked w duration) c = finals-send_final w duration c

endings-IsOnce : (es : List Ending) (c : Coordinator) → IsOnce c (endings es c)
unfolding endings
endings-IsOnce [] c = record { once = omega arith }
endings-IsOnce (e ∷ es) c = record {
  once = omega (arith, (ending-IsOnce e c).once, (endings-IsOnce es (ending e c)).once);
}

-- However often the audio of one dictation is ended, by wake-ups of the wait for its last frame and by
-- the calls that an empty last frame and a lost device make, in any order, with nothing else between
-- them and with whatever recognizer: the recognizer gets at most one chunk that is marked as the last
-- one, and none where the final chunk counts as sent.
pub finals-endings :
    (es : List Ending) (c : Coordinator)
    → (finals (endings es c).log ≤ finals c.log + 1)
      × (c.sent_final_audio_chunk ≡ true → finals (endings es c).log ≤ finals c.log)
finals-endings es c = ground (arith, endings-IsOnce es c)
