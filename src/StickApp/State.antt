-- ===== src/StickApp/State.antt =====
-- The state of the stick's application (firmware/main/main.c), what its event task meets while it
-- handles one event, and what it does to the rest of the firmware.
use voicestick.Prelude.{ℕ, Bool, List, [], ◌∷◌, false}
use voicestick.Prelude.Texts.{Text}

pub data UiState : Type 0 where
  ready recording thinking pending_confirmation error : UiState

pub data InteractionMode : Type 0 where
  hold_to_talk click_to_talk : InteractionMode

-- `app_event_t`, with the fields that the event's type uses.
pub data AppEvent : Type 0 where
  front_down front_up side_down side_up : AppEvent
  ui_state : Text → Text → AppEvent
  ble_connected ble_disconnected power_irq battery_refresh enter_deep_sleep : AppEvent
  ota_begin ota_progress : ℕ → ℕ → AppEvent
  ota_done ota_end host_response_timeout : AppEvent

pub data Timer : Type 0 where
  display_dim deep_sleep host_response : Timer

-- Calls of the other components, of ESP-IDF and of FreeRTOS that change something.
pub data Effect : Type 0 where
  pm_lock_acquire pm_lock_release : Effect
  timer_stop : Timer → Effect
  timer_start_once : Timer → ℕ → Effect
  set_brightness : ℕ → Effect
  set_idle_dimmed : Bool → Effect
  show_recording : ℕ → Effect
  show_idle show_pairing show_ota_rebooting : Effect
  show_error : Text → Effect
  show_partial_text : Text → Effect
  show_idle_hint : Text → Effect
  show_battery : ℕ → Bool → Bool → Effect
  show_ota_progress : ℕ → ℕ → Effect
  suspend_rolls resume_rolls play_start play_end : Effect
  audio_start : ℕ → Effect
  audio_stop : Effect
  send_button_down : Text → ℕ → Effect
  send_button_up : Text → ℕ → ℕ → Effect
  send_button_click : Text → ℕ → ℕ → Effect
  request_fast_interval request_slow_interval : Effect
  set_transport_version : ℕ → Effect
  clear_power_irqs gpio_intr_enable prepare_deep_sleep disable_wakeup_sources : Effect
  deep_sleep_start : Effect

-- The static variables of main.c. A button's time is in microseconds, 0 where it is not down.
pub record App : Type 0 where
  pub recording : Bool
  pub ota_updating : Bool
  pub display_dimmed : Bool
  pub recording_pm_locked : Bool
  pub ota_pm_locked : Bool
  pub battery_charging : Bool
  pub usb_powered : Bool
  pub has_display_dim_timer : Bool
  pub has_deep_sleep_timer : Bool
  pub has_host_response_timer : Bool
  pub session_id : ℕ  -- uint32
  pub primary_down_us : ℕ
  pub secondary_down_us : ℕ
  pub primary_session_id : ℕ  -- uint32
  pub app_ui_state : UiState
  pub interaction_mode : InteractionMode
  -- Newest first.
  pub log : List Effect

-- What the handler of one event is answered. An error of ESP-IDF is a number, `ESP_OK` is 0.
pub record World : Type 0 where
  pub now_us : ℕ
  pub ble_is_ready : Bool
  pub ble_ota_is_active : Bool
  pub transport_version : ℕ
  pub pm_acquire_err : ℕ
  pub brightness_err : ℕ
  pub audio_start_err : ℕ
  pub audio_session_id : ℕ
  pub wait_stopped_err : ℕ
  pub send_err : ℕ
  pub battery_level_err : ℕ
  pub battery_level : ℕ
  pub charging_err : ℕ
  pub charging : Bool
  pub usb_err : ℕ
  pub usb : Bool
  pub wake_gpio_is_valid : Bool
  pub wake_err : ℕ
  -- Whether the front button's pin is high at the first test before sleeping, and at the later
  -- readings in turn; a reading that is not given is low.
  pub gpio_is_high : Bool
  pub settles : List Bool

abbrev pub emit : Effect → App → App
emit e a = record a { log = e ∷ a.log }

-- The static initializers.
abbrev pub boot : App
boot = record {
  recording = false;
  ota_updating = false;
  display_dimmed = false;
  recording_pm_locked = false;
  ota_pm_locked = false;
  battery_charging = false;
  usb_powered = false;
  has_display_dim_timer = false;
  has_deep_sleep_timer = false;
  has_host_response_timer = false;
  session_id = 1;
  primary_down_us = 0;
  secondary_down_us = 0;
  primary_session_id = 0;
  app_ui_state = ready;
  interaction_mode = hold_to_talk;
  log = [];
}
