-- ===== src/Coordinator/State.antt =====
-- The state of `VoiceStickCoordinator` (voice_stick_coordinator.h), the settings that it reads
-- (app_config.h, app_config.cc), its debug recorder (debug_audio_recorder.cc) and what it does to the
-- rest of the program.
use voicestick.Prelude.{
  ℕ, Bool, true, false, not, ◌||◌, List, [], ◌∷◌, ◌++◌, Option, none, some, if◌then◌else◌, ◌&&◌,
}
use voicestick.Prelude.Texts.{Bytes, Text, text_eq, is_empty}
use voicestick.BleProtocol.{normalize_device_id}
use voicestick.Ogg.{Muxer, new_muxer}

pub data InteractionMode : Type 0 where
  hold_to_talk click_to_talk : InteractionMode

pub data OutputTarget : Type 0 where
  focused_app subtitle : OutputTarget

pub data TextTransform : Type 0 where
  original translate : TextTransform

pub record OutputProfile : Type 0 where
  pub target : OutputTarget
  pub transform : TextTransform
  pub translation_target : Text

-- The fields of `AppConfig` that the coordinator reads.
pub record AppConfig : Type 0 where
  pub interaction_mode : InteractionMode
  pub asr_hotwords : List Text
  pub paired_device_ids : List Text
  pub default_output_profile : OutputProfile
  pub device_output_profiles : List (Text × OutputProfile)
  pub auto_enter : Bool
  pub debug_audio_cache : Bool

pub find_profile : Text → List (Text × OutputProfile) → Option OutputProfile
find_profile id [] = none
find_profile id ((key, profile) ∷ m) = if text_eq key id then some profile else find_profile id m

-- `AppConfig::OutputProfileForDevice`: a device chooses its transform, never its target.
unfoldable pub output_profile_for_device : AppConfig → Option Text → OutputProfile
output_profile_for_device c none = c.default_output_profile
output_profile_for_device c (some id) =
    elim (find_profile (normalize_device_id id) c.device_output_profiles) [
      | none ↦ c.default_output_profile
      | some profile ↦ record profile { target = c.default_output_profile.target }
    ]

abbrev pub is_subtitle : OutputTarget → Bool
is_subtitle subtitle = true
is_subtitle focused_app = false

abbrev pub is_translate : TextTransform → Bool
is_translate translate = true
is_translate original = false

abbrev pub is_click_to_talk : InteractionMode → Bool
is_click_to_talk click_to_talk = true
is_click_to_talk hold_to_talk = false

unfoldable pub should_use_definite_segments : AppConfig → OutputProfile → Bool
should_use_definite_segments c profile =
    is_subtitle profile.target && is_click_to_talk c.interaction_mode

pub data AsrResultType : Type 0 where
  full single : AsrResultType

pub record AsrSessionOptions : Type 0 where
  pub hotwords : List Text
  pub show_utterances : Bool
  pub result_type : AsrResultType

abbrev pub session_options : List Text → Bool → AsrSessionOptions
session_options hotwords use_definite_segments = record {
  hotwords = hotwords;
  show_utterances = use_definite_segments;
  result_type = if use_definite_segments then single else full;
}

-- `DebugAudioRecorder`, without the clock time that names its file.
pub record Recorder : Type 0 where
  pub enabled : Bool
  pub device_id : Option Text
  pub session_id : Option ℕ
  pub audio : Bytes

abbrev pub new_recorder : Bool → Recorder
new_recorder enabled = record { enabled = enabled; device_id = none; session_id = none; audio = [] }

unfoldable pub discard : Recorder → Recorder
discard r = new_recorder r.enabled

unfoldable pub start_recorder : Text → ℕ → Recorder → Recorder
start_recorder device_id session_id r =
    if r.enabled
    then record r { device_id = some device_id; session_id = some session_id; audio = [] }
    else r

unfoldable pub record_audio : Bytes → Recorder → Recorder
record_audio bytes r =
    if not r.enabled || is_empty bytes then r else record r { audio = r.audio ++ bytes }

-- The recorder after `Finish`, and the file that it has written.
unfoldable pub finish_recorder : Recorder → Recorder × Option Bytes
finish_recorder r =
    if not r.enabled || is_empty r.audio then (discard r, none) else (discard r, some r.audio)

pub data SessionState : Type 0 where
  ready recording finalizing pending_confirmation paused_confirmation error : SessionState

pub data PendingPasteKind : Type 0 where
  idle waiting_to_paste paused : PendingPasteKind

pub record PendingPasteState : Type 0 where
  pub kind : PendingPasteKind
  pub label : Text

abbrev pub no_paste : PendingPasteState
no_paste = record { kind = idle; label = [] }

abbrev pub is_idle : PendingPasteKind → Bool
is_idle idle = true
is_idle _ = false

-- Calls of the user interface, the Bluetooth central, the recognizer and the input injector.
pub data Effect : Type 0 where
  send_ui_state : Text → Text → Option Text → Effect
  set_status : Text → Effect
  show_listening : Option Text → Effect
  show_partial : Text → Option Text → Effect
  -- When the countdown is over the window calls back with `countdown_over`.
  show_final_countdown : Text → Option Text → Effect
  show_paused_final : Text → Option Text → Effect
  -- When the error has been shown the window calls back with `error_shown`.
  show_error : Text → Option Text → Effect
  show_cloud_upgrade : Text → Text → Option Text → Effect
  hide_overlay : Effect
  -- When the overlay is hidden the window calls back with `overlay_hidden`.
  hide_overlay_then_commit : Text → Effect
  set_has_recoverable_input : Bool → Effect
  show_subtitle : Text → Text → Effect
  asr_start : AsrSessionOptions → Effect
  asr_send : Bytes → Bool → Effect
  asr_cancel : Effect
  translate_text : Text → Text → Effect
  paste : Text → Bool → Effect
  write_debug_audio : Bytes → Effect
  -- Starts the thread that waits for the last audio, with its generation.
  start_audio_end_timer : ℕ → Option ℕ → Option Text → Effect
  hide_subtitles : Effect
  send_interaction_mode : InteractionMode → Effect
  -- The window's list, and the Bluetooth central's.
  set_paired_device_ids update_paired_device_ids : List Text → Effect
  subtitle_asr_start : Text → ℕ → AsrSessionOptions → Effect
  subtitle_asr_send : Text → ℕ → Bytes → Bool → Effect
  subtitle_asr_cancel : Text → ℕ → Effect
  start_subtitle_timer : ℕ → Text → ℕ → Effect
  translate_subtitle : Text → Text → Text → Effect
  translate_subtitle_final : Text → Text → Text → ℕ → Effect
  -- A C++ exception leaves the handler.
  exception : Effect
  -- A read or write through a pointer to a cycle that has been erased.
  use_after_free : Effect

-- One session of subtitle mode. Its recognizer comes from the factory, which returns one.
pub record SubtitleCycle : Type 0 where
  pub device_id : Text
  pub session_id : ℕ
  pub started_at : ℕ
  pub ogg_muxer : Muxer
  pub debug_audio_recorder : Recorder
  pub received_audio_frames : ℕ
  pub last_audio_seq : Option ℕ
  pub buffered_ogg_chunks : List Bytes
  pub asr_started : Bool
  pub sent_final_audio_chunk : Bool
  pub finished_final_text : Bool
  pub waiting_for_audio_end : Bool
  pub audio_end_wait_generation : ℕ  -- uint64

pub record Coordinator : Type 0 where
  pub config : AppConfig
  pub paired_device_ids : List Text
  pub session_state : SessionState
  pub active_session_id : Option ℕ
  pub active_device_id : Option Text
  pub active_session_started_at : ℕ  -- nanoseconds of the steady clock
  pub received_audio_frames : ℕ
  pub last_audio_seq : Option ℕ
  pub buffered_ogg_chunks : List Bytes
  pub asr_started : Bool
  pub sent_final_audio_chunk : Bool
  pub pasted_final_text : Bool
  pub waiting_for_audio_end : Bool
  pub audio_end_wait_generation : ℕ  -- uint64
  pub pending_paste_state : PendingPasteState
  pub last_recoverable_text : Option Text
  pub last_recoverable_device_id : Option Text
  pub is_showing_asr_error : Bool
  pub ogg_muxer : Muxer
  pub debug_audio_recorder : Recorder
  pub has_asr_factory : Bool
  -- The maps of subtitle mode, by device and session, and by device.
  pub subtitle_cycles : List SubtitleCycle
  pub active_subtitle_sessions : List (Text × ℕ)
  -- Newest first.
  pub log : List Effect

-- What a call of `asr_->Start` does: it may report an error through `on_error` before it returns.
pub record StartAnswer : Type 0 where
  pub reported : Option Text
  pub started : Bool
  pub last_start_error : Text

-- What a handler meets: the steady clock, and the recognizer.
pub record World : Type 0 where
  pub now : ℕ
  pub start : AsrSessionOptions → StartAnswer

abbrev pub emit : Effect → Coordinator → Coordinator
emit e c = record c { log = e ∷ c.log }

abbrev pub initial : AppConfig → Coordinator
initial config = record {
  config = config;
  paired_device_ids = config.paired_device_ids;
  session_state = ready;
  active_session_id = none;
  active_device_id = none;
  active_session_started_at = 0;
  received_audio_frames = 0;
  last_audio_seq = none;
  buffered_ogg_chunks = [];
  asr_started = false;
  sent_final_audio_chunk = false;
  pasted_final_text = false;
  waiting_for_audio_end = false;
  audio_end_wait_generation = 0;
  pending_paste_state = no_paste;
  last_recoverable_text = none;
  last_recoverable_device_id = none;
  is_showing_asr_error = false;
  ogg_muxer = new_muxer 16000 1;
  debug_audio_recorder = new_recorder config.debug_audio_cache;
  has_asr_factory = true;
  subtitle_cycles = [];
  active_subtitle_sessions = [];
  log = [];
}
