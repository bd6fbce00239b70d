-- ===== src/Examples/Dictation.antt =====
-- Dictations of the coordinator, at concrete values.
use voicestick.Coordinator.Invariant.{IsValid}
use voicestick.Coordinator.Frame.{pastes}
use voicestick.Coordinator.Steps.{pasted_by, run-IsValid, pastes-step}
use voicestick.Coordinator.Audio.{send_or_buffer_ogg_chunk}
use voicestick.Coordinator.Flow.{
  stream, finals, Ending, endings, finals-endings, stream-send_or_buffer_ogg_chunk,
}
use voicestick.Prelude.{ℕ, ◌≡◌, ◌∷◌, ◌++◌, List, [], none, some, true, false, refl, arith, ◌≤◌, ◌+◌}
use voicestick.Prelude.Texts.{Text, text}
use voicestick.BleProtocol.{StateEvent, AudioFrame}
use voicestick.Coordinator.State.{
  AppConfig, World, Coordinator, initial, finalizing, waiting_to_paste, recording, hold_to_talk,
  pending_confirmation, focused_app, original,
}
use voicestick.Coordinator.Events.{Event, run, step}

abbrev config : AppConfig
config = record {
  interaction_mode = hold_to_talk;
  asr_hotwords = [];
  paired_device_ids = [];
  default_output_profile = record {
    target = focused_app;
    transform = original;
    translation_target = [];
  };
  device_output_profiles = [];
  auto_enter = true;
  debug_audio_cache = false;
}

-- A recognizer that starts, at this time of the clock.
abbrev at : ℕ → World
at now = record {
  now = now;
  start = λ o. record { reported = none; started = true; last_start_error = [] };
}

abbrev device : Text
device = 52 ∷ 70 ∷ 50 ∷ 65 ∷ []

abbrev button : Text → StateEvent
button event = record {
  event = event;
  button = text "primary";
  session_id = some 9;
  duration_ms = none;
  hardware = [];
  firmware_version = [];
}

abbrev frame : ℕ → ℕ → AudioFrame
frame seq flags = record { session_id = 9; seq = seq; flags = flags; payload = 1 ∷ 2 ∷ 3 ∷ [] }

-- A dictation: the button goes down, two frames come, the button goes up, the last frame comes, then
-- the text, and the countdown ends.
abbrev dictation : List (World × Event)
dictation =
    (at 0, Event.state_event device (button (text "button_down")))
    ∷ (at 100000000, Event.audio_frame device (frame 0 1))
    ∷ (at 700000000, Event.audio_frame device (frame 1 0))
    ∷ (at 800000000, Event.state_event device (button (text "button_up")))
    ∷ (at 900000000, Event.audio_frame device (frame 2 2))
    ∷ (at 1900000000, Event.asr_final (104 ∷ 105 ∷ []))
    ∷ (at 3900000000, Event.countdown_over (104 ∷ 105 ∷ []))
    ∷ []

run-IsValid_example : IsValid (run dictation (initial config))
run-IsValid_example = run-IsValid dictation config

-- The text is on show.
abbrev confirming : Coordinator
confirming = record (initial config) {
  session_state = pending_confirmation;
  active_device_id = some device;
  pending_paste_state = record { kind = waiting_to_paste; label = 104 ∷ 105 ∷ [] };
}

pastes-step_example :
    pastes (step (at 5) (Event.countdown_over (104 ∷ 105 ∷ [])) confirming).log
    ≡ pasted_by (Event.countdown_over (104 ∷ 105 ∷ [])) confirming ++ pastes confirming.log
pastes-step_example = pastes-step (at 5) (Event.countdown_over (104 ∷ 105 ∷ [])) confirming

-- Recording, with two chunks in the buffer.
abbrev buffering : Coordinator
buffering = record (initial config) {
  session_state = recording;
  active_session_id = some 9;
  active_device_id = some device;
  received_audio_frames = 2;
  buffered_ogg_chunks = (1 ∷ []) ∷ (2 ∷ []) ∷ [];
}

stream-send_or_buffer_ogg_chunk_example :
    stream (send_or_buffer_ogg_chunk (at 700000000) (3 ∷ []) false true buffering)
    ≡ stream buffering ++ ((3 ∷ []) ∷ [])
stream-send_or_buffer_ogg_chunk_example =
    stream-send_or_buffer_ogg_chunk (at 700000000) (3 ∷ []) false true buffering
      (record { quiet = refl; starts = refl }) (λ h. ground arith)

-- Waiting for the last frame, with generation 1.
abbrev waiting : Coordinator
waiting = record buffering {
  session_state = finalizing;
  waiting_for_audio_end = true;
  audio_end_wait_generation = 1;
}

abbrev ends : List Ending
ends =
    Ending.woken (at 1900000000) 1 (some 9) (some device)
    ∷ Ending.asked (at 1950000000) 1450000000
    ∷ Ending.woken (at 2000000000) 1 (some 9) (some device)
    ∷ []

finals-endings_example :
    (finals (endings ends waiting).log ≤ finals waiting.log + 1)
    × (waiting.sent_final_audio_chunk ≡ true
        → finals (endings ends waiting).log ≤ finals waiting.log)
finals-endings_example = finals-endings ends waiting
