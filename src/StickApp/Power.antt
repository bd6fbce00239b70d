-- ===== src/StickApp/Power.antt =====
-- Power in main.c: the lock on the processor's clock, the timers of display and deep sleep, the
-- battery, and deep sleep itself.
use voicestick.Prelude.{
  ℕ, suc, zero, ◌*◌, ◌==◌, Bool, true, false, not, ◌&&◌, ◌||◌, List, [], ◌∷◌, if◌then◌else◌,
}
use voicestick.StickApp.State.{
  App, World, Effect, Timer, emit, set_brightness, timer_stop, timer_start_once,
}

abbrev pub display_dim_timeout_us : ℕ
display_dim_timeout_us = 30 * 1000 * 1000

abbrev pub deep_sleep_timeout_us : ℕ
deep_sleep_timeout_us = 5 * 60 * 1000 * 1000

abbrev pub display_active_brightness : ℕ
display_active_brightness = 128

abbrev pub display_dim_brightness : ℕ
display_dim_brightness = 32

unfoldable pub is_external_powered : App → Bool
is_external_powered a = a.battery_charging || a.usb_powered

-- The state after the call, and whether it succeeds.
unfoldable pub acquire_recording_pm_locks : World → App → App × Bool
acquire_recording_pm_locks w a =
    if a.recording_pm_locked
    then (a, true)
    else if not (w.pm_acquire_err == 0)
    then (a, false)
    else (emit Effect.pm_lock_acquire (record a { recording_pm_locked = true }), true)

unfoldable pub release_recording_pm_locks : App → App
release_recording_pm_locks a =
    if not a.recording_pm_locked
    then a
    else emit Effect.pm_lock_release (record a { recording_pm_locked = false })

unfoldable pub acquire_ota_pm_locks : World → App → App
acquire_ota_pm_locks w a =
    if a.ota_pm_locked
    then a
    else if not (w.pm_acquire_err == 0)
    then a
    else emit Effect.pm_lock_acquire (record a { ota_pm_locked = true })

unfoldable pub release_ota_pm_locks : App → App
release_ota_pm_locks a =
    if not a.ota_pm_locked
    then a
    else emit Effect.pm_lock_release (record a { ota_pm_locked = false })

unfoldable pub restart_display_dim_timer : App → App
restart_display_dim_timer a =
    if not a.has_display_dim_timer
    then a
    else let a1 = emit (timer_stop Timer.display_dim) a in
      if not a1.recording && not a1.ota_updating
      then emit (timer_start_once Timer.display_dim display_dim_timeout_us) a1
      else a1

unfoldable pub restart_deep_sleep_timer : App → App
restart_deep_sleep_timer a =
    if not a.has_deep_sleep_timer
    then a
    else let a1 = emit (timer_stop Timer.deep_sleep) a in
      if not a1.recording && not a1.ota_updating && not (is_external_powered a1)
      then emit (timer_start_once Timer.deep_sleep deep_sleep_timeout_us) a1
      else a1

unfoldable pub brighten : World → App → App
brighten w a =
    if not a.display_dimmed
    then a
    else let a1 = emit (set_brightness display_active_brightness) a in
      if not (w.brightness_err == 0)
      then a1
      else emit (Effect.set_idle_dimmed false) (record a1 { display_dimmed = false })

unfoldable pub note_activity : World → App → App
note_activity w a = restart_deep_sleep_timer (restart_display_dim_timer (brighten w a))

unfoldable pub stop_host_response_timer : App → App
stop_host_response_timer a =
    if a.has_host_response_timer then emit (timer_stop Timer.host_response) a else a

-- The fresh reading of the power sources before sleeping: `none` of both where it fails.
unfoldable pub fresh_power : World → Bool
fresh_power w = w.charging_err == 0 && w.usb_err == 0 && (w.charging || w.usb)

-- The wait for the pin to be high again, at most 20 rounds of 10 ms: the readings that are left.
unfoldable pub wait_high : ℕ → List Bool → List Bool
wait_high rounds [] = []
wait_high zero (level ∷ levels) = levels
wait_high (suc rounds) (level ∷ levels) =
    let rest = wait_high rounds levels in if level then levels else rest

abbrev pub is_high : List Bool → Bool
is_high [] = false
is_high (level ∷ levels) = level

-- The end of `enter_deep_sleep`, once nothing speaks against sleeping.
unfoldable pub go_to_sleep : World → App → App
unfolding wait_high
go_to_sleep w a =
    let a1 = emit (set_brightness 0) (release_recording_pm_locks a) in
    let a2 = emit Effect.disable_wakeup_sources (emit Effect.prepare_deep_sleep a1) in
    if not (w.wake_err == 0)
    then restart_deep_sleep_timer a2
    else if not (is_high (wait_high 20 w.settles))
    then restart_deep_sleep_timer a2
    else emit Effect.deep_sleep_start a2

unfoldable pub enter_deep_sleep : World → App → App
enter_deep_sleep w a =
    if a.recording || a.ota_updating || w.ble_ota_is_active
    then restart_deep_sleep_timer a
    else if is_external_powered a
    then restart_deep_sleep_timer a
    else if fresh_power w
    then restart_deep_sleep_timer (record a { battery_charging = w.charging; usb_powered = w.usb })
    else if not w.wake_gpio_is_valid
    then restart_deep_sleep_timer a
    else if not w.gpio_is_high
    then restart_deep_sleep_timer a
    else go_to_sleep w a

unfoldable pub same_bool : Bool → Bool → Bool
same_bool true b = b
same_bool false b = not b

unfoldable pub update_battery_status : World → App → App
update_battery_status w a =
    let a1 = emit Effect.clear_power_irqs a in
    if w.battery_level_err == 0 && w.charging_err == 0 && w.usb_err == 0
    then (let changed =
          not (same_bool w.charging a1.battery_charging) || not (same_bool w.usb a1.usb_powered) in
        let a2 =
          emit (Effect.show_battery w.battery_level w.charging w.usb)
            (record a1 { battery_charging = w.charging; usb_powered = w.usb }) in
        if changed then restart_deep_sleep_timer a2 else a2)
    else a1

-- The display's timer, in the task of the timers.
unfoldable pub display_dim_timer_cb : World → App → App
display_dim_timer_cb w a =
    if not a.display_dimmed && not a.recording && not a.ota_updating
    then (let a1 = emit (set_brightness display_dim_brightness) a in
        if w.brightness_err == 0
        then emit (Effect.set_idle_dimmed true) (record a1 { display_dimmed = true })
        else a1)
    else a
