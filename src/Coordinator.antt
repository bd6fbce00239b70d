-- ===== src/Coordinator.antt =====
-- desktop/windows/src/voice_stick_coordinator.cc: one dictation from the button to the paste.
pub mod State
pub mod Enter
pub mod Audio
pub mod Cycles
pub mod Subtitle
pub mod SubtitleAudio
pub mod Dictation
pub mod Buttons
pub mod Settings
pub mod Events
pub mod Frame
pub mod Invariant
pub mod Flow
pub mod Safety
pub mod Handlers
pub mod SettingsSafety
pub mod Steps
