-- ===== src/Examples/App.antt =====
-- The stick's application, at concrete values.
use voicestick.Prelude.{◌≡◌, true, false, [], ◌∷◌, none, refl, arith, ◌+◌}
use voicestick.Prelude.Texts.{text}
use voicestick.ByteUtils.{u32}
use voicestick.StickApp.State.{AppEvent, World, Effect, boot}
use voicestick.StickApp.Recording.{elapsed_button_ms}
use voicestick.StickApp.Events.{handle, run, front_down, primary}
use voicestick.StickApp.Queue.{Move, moves}
use voicestick.StickApp.Locks.{sleeps, held}
use voicestick.StickApp.Safety.{falls_asleep, sleeps-handle}
use voicestick.StickApp.Tasks.{IsSound, start, moves-start-IsSound}
use voicestick.StickApp.Sessions.{sent, run-hold_to_talk, front_down-unsent}

abbrev calm : World
calm = record {
  now_us = 5000000;
  ble_is_ready = true;
  ble_ota_is_active = false;
  transport_version = 2;
  pm_acquire_err = 0;
  brightness_err = 0;
  audio_start_err = 0;
  audio_session_id = 1;
  wait_stopped_err = 0;
  send_err = 0;
  battery_level_err = 0;
  battery_level = 80;
  charging_err = 0;
  charging = false;
  usb_err = 0;
  usb = false;
  wake_gpio_is_valid = true;
  wake_err = 0;
  gpio_is_high = true;
  settles = true ∷ [];
}

abbrev later : World
later = record calm { now_us = 7000000 }

abbrev silent : World
silent = record calm { send_err = 0xffffffff }

sleeps-handle_example :
    sleeps (handle calm AppEvent.enter_deep_sleep boot).log
    ≡ sleeps boot.log + held (falls_asleep calm AppEvent.enter_deep_sleep boot)
sleeps-handle_example = sleeps-handle calm AppEvent.enter_deep_sleep boot

moves-start-IsSound_example : IsSound (
    moves
      (λ json. none)
      (Move.arrive AppEvent.front_down
        ∷ Move.control_message (text "{}")
        ∷ Move.turn calm
        ∷ Move.arrive AppEvent.ble_disconnected
        ∷ Move.turn later
        ∷ [])
      start)
moves-start-IsSound_example =
    moves-start-IsSound (λ json. none)
      (Move.arrive AppEvent.front_down
        ∷ Move.control_message (text "{}")
        ∷ Move.turn calm
        ∷ Move.arrive AppEvent.ble_disconnected
        ∷ Move.turn later
        ∷ [])

run-hold_to_talk_example :
    let b = run ((calm, AppEvent.front_down) ∷ (later, AppEvent.front_up) ∷ []) boot in
    (sent b.log
      ≡ Effect.send_button_up primary (elapsed_button_ms later 5000000) 1
        ∷ Effect.send_button_down primary 1
        ∷ sent [])
    × (b.session_id ≡ u32 (1 + 1))
    × (b.recording ≡ false)
    × (b.recording_pm_locked ≡ false)
    × (b.primary_down_us ≡ 0)
    × (b.primary_session_id ≡ 0)
run-hold_to_talk_example =
    run-hold_to_talk calm later boot
      (record {
        idle = refl;
        no_update = refl;
        no_transfer = refl;
        linked = refl;
        not_pending = refl;
        acquires = refl;
        begins = refl;
      })
      refl (λ e. omega arith) refl

front_down-unsent_example :
    let b = front_down silent boot in
    (b.recording ≡ false) × (b.recording_pm_locked ≡ false) × (b.primary_session_id ≡ 0)
front_down-unsent_example =
    front_down-unsent silent boot (λ e. omega arith) refl refl (λ e. omega arith)
