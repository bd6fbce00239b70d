-- ===== src/StickApp/Safety.antt =====
-- The events of the stick's application: its locks, and when it sleeps.
use voicestick.Prelude.{
  ◌+◌, ◌≡◌, Bool, true, false, not, ◌&&◌, ◌||◌, ◌==◌, [], if◌then◌else◌, arith, refl,
}
use voicestick.Prelude.Texts.{text}
use voicestick.StickApp.State.{App, AppEvent, World, Effect, emit}
use voicestick.StickApp.Power.{
  go_to_sleep, enter_deep_sleep, is_external_powered, fresh_power, is_high, wait_high,
  restart_deep_sleep_timer,
}
use voicestick.StickApp.Events.{handle}
use voicestick.StickApp.Locks.{
  IsValid, IsQuiet, IsQuiet-refl, IsQuiet-trans, activity-IsQuiet, ui_state-IsQuiet,
  battery-IsQuiet, sleep_timer-IsQuiet, acquired, released, held, sleeps,
}
use voicestick.StickApp.Keeping.{
  Keeps, Keeps-trans, IsQuiet-Keeps, release-Keeps, front_down-Keeps, front_up-Keeps, side_up-Keeps,
  disconnected-Keeps, updating-Keeps, shown-IsQuiet, ota_begins-Keeps, idle-IsQuiet, ready-IsQuiet,
  ota_ends-Keeps,
}

-- When a sleep request is granted.
unfoldable pub falls_asleep : World → AppEvent → App → Bool
falls_asleep w AppEvent.enter_deep_sleep a =
    not (a.recording || a.ota_updating || w.ble_ota_is_active)
    && (not (is_external_powered a)
        && (not (fresh_power w)
            && (w.wake_gpio_is_valid
                && (w.gpio_is_high && (w.wake_err == 0 && is_high (wait_high 20 w.settles))))))
falls_asleep w e a = false

prepared-IsQuiet :
    (a : App)
    → IsQuiet a (
        emit Effect.disable_wakeup_sources
          (emit Effect.prepare_deep_sleep (emit (Effect.set_brightness 0) a)))
unfolding acquired released sleeps
prepared-IsQuiet a = ground arith

asleep-IsValid : (a : App) → IsValid a → IsValid (emit Effect.deep_sleep_start a)
unfolding acquired released
asleep-IsValid a v = ground arith

asleep-sleeps : (a : App) → sleeps (emit Effect.deep_sleep_start a).log ≡ sleeps a.log + 1
unfolding sleeps
asleep-sleeps a = refl

-- The end of `go_to_sleep`, where nothing wakes the stick at once and where something does.
record Sleeps (a b : App) (asleep : Bool) : Type 0 where
  pub valid : IsValid a → IsValid b
  pub counted : sleeps b.log ≡ sleeps a.log + held asleep

Keeps-Sleeps : (a b : App) → Keeps a b → Sleeps a b false
Keeps-Sleeps a b k = record { valid = k.valid; counted = ground (arith, k.awake) }

restarted-Sleeps : (a : App) → Sleeps a (restart_deep_sleep_timer a) false
restarted-Sleeps a = Keeps-Sleeps a _ (IsQuiet-Keeps a _ (sleep_timer-IsQuiet a))

last_step-Sleeps :
    (a : App) (b c : Bool)
    → Sleeps a
        (if not b
          then restart_deep_sleep_timer a
          else if not c
          then restart_deep_sleep_timer a
          else emit Effect.deep_sleep_start a)
        (b && c)
last_step-Sleeps a true true = record { valid = asleep-IsValid a; counted = asleep-sleeps a }
last_step-Sleeps a true false = restarted-Sleeps a
last_step-Sleeps a false c = restarted-Sleeps a

Keeps-Sleeps-trans :
    (a b c : App) (asleep : Bool) → Keeps a b → Sleeps b c asleep → Sleeps a c asleep
Keeps-Sleeps-trans a b c asleep k s = record {
  valid = λ v. s.valid (k.valid v);
  counted = omega (arith, k.awake, s.counted);
}

guard-Sleeps :
    (b c : Bool) (a d e : App)
    → Sleeps a d false
    → (b ≡ false → Sleeps a e c)
    → Sleeps a (if b then d else e) (not b && c)
guard-Sleeps true c a d e p q = p
guard-Sleeps false c a d e p q = q refl

unless-Sleeps :
    (b c : Bool) (a d e : App)
    → Sleeps a d false
    → Sleeps a e c
    → Sleeps a (if not b then d else e) (b && c)
unless-Sleeps true c a d e p q = q
unless-Sleeps false c a d e p q = p

power-Sleeps :
    (charging usb : Bool) (a : App)
    → Sleeps a
        (restart_deep_sleep_timer (record a { battery_charging = charging; usb_powered = usb }))
        false
power-Sleeps charging usb a =
    Keeps-Sleeps-trans a _ _ _ (record { valid = λ v. ground arith; awake = refl })
      (restarted-Sleeps _)

go_to_sleep-Sleeps :
    (w : World) (a : App)
    → a.recording ≡ false
    → Sleeps a (go_to_sleep w a) (w.wake_err == 0 && is_high (wait_high 20 w.settles))
unfolding go_to_sleep
go_to_sleep-Sleeps w a h =
    Keeps-Sleeps-trans a _ _ _
      (Keeps-trans a _ _ (release-Keeps a h) (IsQuiet-Keeps _ _ (prepared-IsQuiet _)))
      (last_step-Sleeps _ (w.wake_err == 0) (is_high (wait_high 20 w.settles)))

sleep-Sleeps :
    (w : World) (a : App)
    → Sleeps a (enter_deep_sleep w a) (falls_asleep w AppEvent.enter_deep_sleep a)
unfolding enter_deep_sleep falls_asleep
sleep-Sleeps w a =
    let stays = restarted-Sleeps a in
    guard-Sleeps (a.recording || a.ota_updating || w.ble_ota_is_active) _ a _ _ stays (λ idle.
      guard-Sleeps (is_external_powered a) _ a _ _ stays (λ battery.
        guard-Sleeps (fresh_power w) _ a _ _ (power-Sleeps w.charging w.usb a) (λ fresh.
          unless-Sleeps w.wake_gpio_is_valid _ a _ _ stays
            (unless-Sleeps w.gpio_is_high _ a _ _ stays (go_to_sleep-Sleeps w a (ground arith))))))

intr-IsQuiet : (a : App) → IsQuiet a (emit Effect.gpio_intr_enable a)
unfolding acquired released sleeps
intr-IsQuiet a = ground arith

unfoldable is_sleep : AppEvent → Bool
is_sleep AppEvent.enter_deep_sleep = true
is_sleep e = false

handle-Keeps : (w : World) (e : AppEvent) (a : App) → is_sleep e ≡ false → Keeps a (handle w e a)
unfolding handle is_sleep acquired released sleeps
handle-Keeps w AppEvent.front_down a h = front_down-Keeps w a
handle-Keeps w AppEvent.front_up a h = front_up-Keeps w a
handle-Keeps w AppEvent.side_down a h = IsQuiet-Keeps a _ (ground (arith, activity-IsQuiet w a))
handle-Keeps w AppEvent.side_up a h = side_up-Keeps w a
handle-Keeps w (AppEvent.ui_state state label) a h =
    IsQuiet-Keeps a _ (ui_state-IsQuiet w state label a)
handle-Keeps w AppEvent.ble_connected a h = IsQuiet-Keeps a _ (
    IsQuiet-trans _ _ _ (ready-IsQuiet a)
      (IsQuiet-trans _ _ _ (idle-IsQuiet _) (activity-IsQuiet w _)))
handle-Keeps w AppEvent.ble_disconnected a h = disconnected-Keeps a
handle-Keeps w AppEvent.power_irq a h =
    IsQuiet-Keeps a _ (IsQuiet-trans _ _ _ (intr-IsQuiet a) (battery-IsQuiet w _))
handle-Keeps w AppEvent.battery_refresh a h = IsQuiet-Keeps a _ (battery-IsQuiet w a)
handle-Keeps w AppEvent.enter_deep_sleep a h = absurd (ground arith)
handle-Keeps w (AppEvent.ota_begin written size) a h = ota_begins-Keeps w written size a
handle-Keeps w (AppEvent.ota_progress written size) a h =
    Keeps-trans a _ _ (updating-Keeps true a) (IsQuiet-Keeps _ _ (shown-IsQuiet written size _))
handle-Keeps w AppEvent.ota_done a h = record { valid = λ v. ground arith; awake = refl }
handle-Keeps w AppEvent.ota_end a h = ota_ends-Keeps w a
handle-Keeps w AppEvent.host_response_timeout a h =
    IsQuiet-Keeps a _ (ground (arith, ui_state-IsQuiet w (text "ready") [] a, IsQuiet-refl a))

handle-Sleeps : (w : World) (e : AppEvent) (a : App) → Sleeps a (handle w e a) (falls_asleep w e a)
unfolding handle is_sleep falls_asleep
handle-Sleeps w AppEvent.enter_deep_sleep a = sleep-Sleeps w a
handle-Sleeps w e a = Keeps-Sleeps a _ (handle-Keeps w e a refl)

-- One event puts the stick to sleep, once, exactly where it is the request to sleep, no recording
-- and no firmware update is under way, no external power is known or found, the pin that wakes it can
-- do so and is released, and ESP-IDF accepts it; otherwise the stick stays awake.
pub sleeps-handle :
    (w : World) (e : AppEvent) (a : App)
    → sleeps (handle w e a).log ≡ sleeps a.log + held (falls_asleep w e a)
sleeps-handle w e a = (handle-Sleeps w e a).counted

pub handle-IsValid : (w : World) (e : AppEvent) (a : App) → IsValid a → IsValid (handle w e a)
handle-IsValid w e a v = (handle-Sleeps w e a).valid v
