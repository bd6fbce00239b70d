-- ===== src/Lib.antt =====
-- VoiceStick: a stick with a microphone and two buttons, and a desktop program that turns what is
-- said into text and pastes it. The stick records Opus packets and sends them over Bluetooth; the
-- desktop wraps them into an Ogg stream, feeds a speech recognizer, shows the text for confirmation
-- and pastes it, or shows it as subtitles. The desktop also updates the stick's firmware.
--
-- The parts, and the files that they are modelled by:
-- - ByteUtils: desktop/windows/src/byte_utils.h, fixed-width integers in byte strings.
-- - BleProtocol: desktop/windows/src/ble_protocol.cc, the messages between stick and desktop. `Json`
--   holds the hand-written JSON reader and writer, `DeviceId` the names of devices.
-- - AudioTransport: firmware/components/audio_transport/audio_transport.c, how the stick packs audio.
-- - VoiceBle: firmware/components/voice_ble/voice_ble.c. `Ota` is the firmware update that
--   `ota_access_cb` serves, with ESP-IDF and NimBLE as a record `Platform` of answers and their calls in
--   a log; `Reports` and `Booting` follow its reports and the partition that it boots. `Link` is the
--   connection: `gap_event_cb`, advertising, connection intervals, the control characteristic, the
--   acknowledged window and the sending of audio, with a record `Answers` of what NimBLE returns; the
--   rounds of the wait for the window are a list of what each of them finds.
--   `Notify` is the JSON of the buttons and of the device.
-- - AudioPipeline: firmware/components/audio_pipeline/audio_pipeline.c, the choice of a profile, the
--   queue between `audio_task` and `tx_task`, bundles and their sending. A bundle is tried at most eight
--   times, which is the fuel of `attempts`.
-- - StickApp: firmware/main/main.c. `State` has the static variables, the events and `World`, the answers
--   that the code meets while it handles one event; `Power`, `Recording`, `Events` and `Queue` have a
--   function for each function of the file, and one for each longer case of `app_event_task`. Effects are
--   kept in a log, newest first. A `Move` is an event that arrives, a control message, or a turn of the
--   task, so that a list of moves is an interleaving of the tasks.
-- - BleCentral: the loop of `UpdateFirmwareAsync` in desktop/windows/src/ble_central_win.cc. A `Round`
--   is what one turn of the loop meets, with the bytes that the desktop takes for confirmed; `Update`
--   runs it against the stick of VoiceBle, which gets a message in the round that sends it.
-- - Ogg: desktop/windows/src/ogg_crc.cc and ogg_opus_muxer.cc.
-- - Coordinator: desktop/windows/src/voice_stick_coordinator.cc, with debug_audio_recorder.cc and what
--   it reads of app_config.cc. `State` has the fields of the class; `Enter`, `Audio`, `Cycles`,
--   `Subtitle`, `SubtitleAudio`, `Dictation` and `Buttons` have a function for each member function,
--   with its name in lower case, from coordinator to coordinator; `Settings` has `UpdateConfig`
--   and `RemovePairedDevice`, `Events` the callbacks and `step`. Calls of the window, the Bluetooth
--   central, the recognizer and the injector go into a log; what comes back from them is an event. The
--   recognizer's answer to `Start` is a parameter, `World`, as is the clock, in nanoseconds. A handler
--   runs to its end before the next event. In the source `audio_mutex_` sees to it for the buttons,
--   the audio frames and the last wait of a dictation; the callbacks of the recognizer, the handlers
--   of subtitles, `CancelPendingPaste` and `UpdateConfig` take no lock, and their overlap with another
--   thread is not modelled.
-- - Firmware: desktop/windows/src/firmware_manifest.cc, versions, the manifest and the download. WinHTTP,
--   cJSON and SHA-256 are parameters.
-- - AsrProtocol: desktop/windows/src/asr_protocol.cc, the frames of the recognizer and what is read from
--   its answers. cJSON is a parameter.
-- - AppConfig: desktop/windows/src/app_config.cc, names of settings, lists, escapes and pairings.
--
-- Bytes and texts are lists of numbers. A machine integer is a number with its wrap-around written out
-- as `u8` to `u64` where the code computes; a counter of frames that the code keeps as `int` is not
-- wrapped. Loops over lists are recursions on the list; a `uint32` is printed with fuel for ten
-- digits, which its ten digits at most never exceed.
--
-- Not modelled: the macOS program, windows and drawing; the web socket of the recognizer and the
-- translation client; the TOML reader and the settings file; scanning and connecting on the desktop;
-- new pairings, firmware availability, the window's list of connected devices and `Shutdown` in the
-- coordinator; the GATT tables and the start of NimBLE; the initialization in main.c and the drivers
-- of codec, Opus, board and display, which drive hardware; and the third-party cJSON and toml++. Log
-- lines are left out everywhere.
mod Prelude
pub mod ByteUtils
pub mod BleProtocol
pub mod AudioTransport
pub mod VoiceBle
pub mod BleCentral
pub mod Ogg
pub mod Coordinator
pub mod AudioPipeline
pub mod AsrProtocol
pub mod AppConfig
pub mod Firmware
pub mod StickApp
pub mod Examples
