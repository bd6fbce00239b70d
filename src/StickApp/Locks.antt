-- ===== src/StickApp/Locks.antt =====
-- What holds of the application between two events: the lock on the clock, and recordings.
use voicestick.Prelude.{ℕ, ◌+◌, ◌≡◌, Bool, true, false, List, [], ◌∷◌, arith}
use voicestick.Prelude.Texts.{Text}
use voicestick.StickApp.State.{App, World, Effect, InteractionMode}
use voicestick.StickApp.Power.{
  restart_display_dim_timer, restart_deep_sleep_timer, brighten, note_activity,
  stop_host_response_timer, update_battery_status,
}
use voicestick.StickApp.Recording.{apply_ready, apply_app_ui_state, apply_interaction_mode}

-- How often the lock was taken and given back; it counts its holders.
unfoldable pub acquired : List Effect → ℕ
acquired [] = 0
acquired (Effect.pm_lock_acquire ∷ log) = acquired log + 1
acquired (e ∷ log) = acquired log

unfoldable pub released : List Effect → ℕ
released [] = 0
released (Effect.pm_lock_release ∷ log) = released log + 1
released (e ∷ log) = released log

abbrev pub held : Bool → ℕ
held true = 1
held false = 0

unfoldable pub sleeps : List Effect → ℕ
sleeps [] = 0
sleeps (Effect.deep_sleep_start ∷ log) = sleeps log + 1
sleeps (e ∷ log) = sleeps log

-- A recording holds the lock; and the lock has as many holders as the two flags say.
pub record IsValid (a : App) : Type 0 where
  pub locked : a.recording ≡ true → a.recording_pm_locked ≡ true
  pub balanced : acquired a.log ≡ released a.log + held a.recording_pm_locked + held a.ota_pm_locked

-- The recordings and the locks are as before.
pub record IsQuiet (a b : App) : Type 0 where
  pub same_recording : b.recording ≡ a.recording
  pub same_recording_lock : b.recording_pm_locked ≡ a.recording_pm_locked
  pub same_ota_lock : b.ota_pm_locked ≡ a.ota_pm_locked
  pub same_ota : b.ota_updating ≡ a.ota_updating
  pub same_session : b.session_id ≡ a.session_id
  pub same_acquired : acquired b.log ≡ acquired a.log
  pub same_released : released b.log ≡ released a.log
  pub same_sleeps : sleeps b.log ≡ sleeps a.log

pub IsQuiet-refl : (a : App) → IsQuiet a a
IsQuiet-refl a = ground arith

pub IsQuiet-trans : (a b c : App) → IsQuiet a b → IsQuiet b c → IsQuiet a c
IsQuiet-trans a b c p q = ground arith

dim_timer-IsQuiet : (a : App) → IsQuiet a (restart_display_dim_timer a)
unfolding restart_display_dim_timer acquired released sleeps
dim_timer-IsQuiet a = ground arith

pub sleep_timer-IsQuiet : (a : App) → IsQuiet a (restart_deep_sleep_timer a)
unfolding restart_deep_sleep_timer acquired released sleeps
sleep_timer-IsQuiet a = ground arith

pub timers-IsQuiet : (a : App) → IsQuiet a (restart_deep_sleep_timer (restart_display_dim_timer a))
timers-IsQuiet a =
    IsQuiet-trans a _ _ (dim_timer-IsQuiet a) (sleep_timer-IsQuiet (restart_display_dim_timer a))

brighten-IsQuiet : (w : World) (a : App) → IsQuiet a (brighten w a)
unfolding brighten acquired released sleeps
brighten-IsQuiet w a = ground arith

pub activity-IsQuiet : (w : World) (a : App) → IsQuiet a (note_activity w a)
unfolding note_activity
activity-IsQuiet w a = IsQuiet-trans a _ _ (brighten-IsQuiet w a) (timers-IsQuiet (brighten w a))

pub stop_timer-IsQuiet : (a : App) → IsQuiet a (stop_host_response_timer a)
unfolding stop_host_response_timer acquired released sleeps
stop_timer-IsQuiet a = ground arith

apply_ready-IsQuiet : (w : World) (a : App) → IsQuiet a (apply_ready w a)
unfolding apply_ready acquired released sleeps
apply_ready-IsQuiet w a = grind (arith, activity-IsQuiet)

pub ui_state-IsQuiet :
    (w : World) (state label : Text) (a : App) → IsQuiet a (apply_app_ui_state w state label a)
unfolding apply_app_ui_state acquired released sleeps
ui_state-IsQuiet w state label a = grind (arith, stop_timer-IsQuiet, apply_ready-IsQuiet)

pub battery-IsQuiet : (w : World) (a : App) → IsQuiet a (update_battery_status w a)
unfolding update_battery_status acquired released sleeps
battery-IsQuiet w a = grind (arith, sleep_timer-IsQuiet)

pub mode-IsQuiet : (mode : InteractionMode) (a : App) → IsQuiet a (apply_interaction_mode mode a)
unfolding apply_interaction_mode acquired released sleeps
mode-IsQuiet mode a = ground arith
