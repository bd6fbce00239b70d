-- ===== src/StickApp/Keeping.antt =====
-- What each handler of the stick's application does to its locks and its sleep.
use voicestick.Prelude.{ℕ, ◌≡◌, Bool, true, false, ◌==◌, [], if◌then◌else◌, arith, refl}
use voicestick.Prelude.Texts.{text}
use voicestick.StickApp.State.{App, World, Effect, emit, UiState}
use voicestick.StickApp.Power.{
  release_recording_pm_locks, release_ota_pm_locks, acquire_recording_pm_locks,
  acquire_ota_pm_locks, restart_deep_sleep_timer, restart_display_dim_timer, note_activity,
}
use voicestick.StickApp.Recording.{start_audio, start_recording, stop_recording, elapsed_button_ms}
use voicestick.StickApp.Events.{
  end_press, click_stop, announce, press, front_down, stop_if_recording, front_up, side_up,
  disconnected, ota_begins, ota_ends, primary,
}
use voicestick.StickApp.Locks.{
  IsValid, IsQuiet, IsQuiet-refl, IsQuiet-trans, activity-IsQuiet, ui_state-IsQuiet, timers-IsQuiet,
  stop_timer-IsQuiet, acquired, released, sleeps,
}

-- The invariant is kept, and the stick does not sleep.
pub record Keeps (a b : App) : Type 0 where
  pub valid : IsValid a → IsValid b
  pub awake : sleeps b.log ≡ sleeps a.log

pub Keeps-trans : (a b c : App) → Keeps a b → Keeps b c → Keeps a c
Keeps-trans a b c p q = record {
  valid = λ v. q.valid (p.valid v);
  awake = omega (arith, p.awake, q.awake);
}

pub IsQuiet-Keeps : (a b : App) → IsQuiet a b → Keeps a b
IsQuiet-Keeps a b q = record { valid = λ v. ground arith; awake = q.same_sleeps }

Keeps-refl : (a : App) → Keeps a a
Keeps-refl a = IsQuiet-Keeps a a (IsQuiet-refl a)

pub release-Keeps : (a : App) → a.recording ≡ false → Keeps a (release_recording_pm_locks a)
unfolding release_recording_pm_locks acquired released sleeps
release-Keeps a h = record { valid = λ v. ground arith; awake = ground arith }

release_ota-Keeps : (a : App) → Keeps a (release_ota_pm_locks a)
unfolding release_ota_pm_locks acquired released sleeps
release_ota-Keeps a = record { valid = λ v. ground arith; awake = ground arith }

acquire-Keeps : (w : World) (a : App) → Keeps a (acquire_recording_pm_locks w a).0
unfolding acquire_recording_pm_locks acquired released sleeps
acquire-Keeps w a = record { valid = λ v. ground arith; awake = ground arith }

acquire-held :
    (w : World) (a : App)
    → (acquire_recording_pm_locks w a).1 ≡ true
    → (acquire_recording_pm_locks w a).0.recording_pm_locked ≡ true
unfolding acquire_recording_pm_locks
acquire-held w a h = ground arith

acquire_ota-Keeps : (w : World) (a : App) → Keeps a (acquire_ota_pm_locks w a)
unfolding acquire_ota_pm_locks acquired released sleeps
acquire_ota-Keeps w a = record { valid = λ v. ground arith; awake = ground arith }

-- The audio begins with the lock held and no recording.
start_audio-Keeps :
    (w : World) (session_id : ℕ) (a : App)
    → a.recording ≡ false
    → a.recording_pm_locked ≡ true
    → Keeps a (start_audio w session_id a).0
unfolding start_audio release_recording_pm_locks acquired released sleeps
start_audio-Keeps w session_id a h k = record {
  valid = λ v. grind (arith, timers-IsQuiet);
  awake = grind (arith, timers-IsQuiet);
}

acquire-recording :
    (w : World) (a : App) → (acquire_recording_pm_locks w a).0.recording ≡ a.recording
unfolding acquire_recording_pm_locks
acquire-recording w a = ground arith

start-Keeps : (w : World) (a : App) → Keeps a (start_recording w a).0
unfolding start_recording acquired released sleeps
start-Keeps w a =
    grind (arith, acquire-Keeps, acquire-held, acquire-recording, start_audio-Keeps, Keeps-refl)

stopped-Keeps :
    (a : App)
    → a.recording ≡ false
    → Keeps a (restart_deep_sleep_timer (restart_display_dim_timer (release_recording_pm_locks a)))
stopped-Keeps a h =
    Keeps-trans a _ _ (release-Keeps a h)
      (IsQuiet-Keeps _ _ (timers-IsQuiet (release_recording_pm_locks a)))

stop_audio-Keeps :
    (a : App) (b : Bool)
    → let a1 = emit Effect.audio_stop (record a { recording = false }) in
      let a2 = if b then emit Effect.play_end a1 else a1 in
      let a3 = emit (Effect.show_partial_text []) (emit Effect.resume_rolls a2) in
      Keeps a (restart_deep_sleep_timer (restart_display_dim_timer (release_recording_pm_locks a3)))
unfolding acquired released sleeps
stop_audio-Keeps a true =
    Keeps-trans a _ _ (record { valid = λ v. ground arith; awake = ground arith })
      (stopped-Keeps _ refl)
stop_audio-Keeps a false =
    Keeps-trans a _ _ (record { valid = λ v. ground arith; awake = ground arith })
      (stopped-Keeps _ refl)

stop-Keeps : (w : World) (a : App) → Keeps a (stop_recording w a).0
unfolding stop_recording
stop-Keeps w a = ground (arith, Keeps-refl a, stop_audio-Keeps a (w.wait_stopped_err == 0))

end_press-Keeps : (w : World) (session_id : ℕ) (a : App) → Keeps a (end_press w session_id a)
unfolding end_press
end_press-Keeps w session_id a =
    IsQuiet-Keeps a _ (ground (arith, ui_state-IsQuiet w (text "ready") [] a, IsQuiet-refl a))

click_stop-Keeps : (w : World) (a : App) → Keeps a (click_stop w a)
unfolding click_stop acquired released sleeps
click_stop-Keeps w a = Keeps-trans a _ _ (stop-Keeps w a) (
    Keeps-trans _
      (emit
        (Effect.send_button_click primary (elapsed_button_ms w a.primary_down_us)
          (stop_recording w a).1)
        (stop_recording w a).0)
      _ (record { valid = λ v. ground arith; awake = refl }) (end_press-Keeps w _ _))

announce-Keeps : (w : World) (session_id : ℕ) (a : App) → Keeps a (announce w session_id a)
unfolding announce acquired released sleeps
announce-Keeps w session_id a = grind (arith, ui_state-IsQuiet, stop-Keeps)

down-IsQuiet : (n : ℕ) (a : App) → IsQuiet a (record a { primary_down_us = n })
down-IsQuiet n a = ground arith

session-IsQuiet : (n : ℕ) (a : App) → IsQuiet a (record a { primary_session_id = n })
session-IsQuiet n a = ground arith

up-IsQuiet : (n k : ℕ) (a : App) → IsQuiet a (emit (Effect.send_button_up primary n k) a)
unfolding acquired released sleeps
up-IsQuiet n k a = ground arith

up-Keeps : (n k : ℕ) (a b : App) → Keeps a b → Keeps a (emit (Effect.send_button_up primary n k) b)
up-Keeps n k a b p = Keeps-trans a b _ p (IsQuiet-Keeps b _ (up-IsQuiet n k b))

started-Keeps :
    (w : World) (a : App) (n : ℕ)
    → Keeps a (
        let b = record (start_recording w a).0 { primary_session_id = n } in
        if n == 0 then record b { primary_down_us = 0 } else announce w n b)
started-Keeps w a n = Keeps-trans a _ _ (start-Keeps w a) (
    Keeps-trans _ _ _ (IsQuiet-Keeps _ _ (session-IsQuiet n (start_recording w a).0)) (
      ground (
        arith,
        announce-Keeps w n (record (start_recording w a).0 { primary_session_id = n }),
        IsQuiet-Keeps _ _
            (down-IsQuiet 0 (record (start_recording w a).0 { primary_session_id = n })),
      )))

confirm-IsQuiet :
    (a : App)
    → IsQuiet a (emit (Effect.send_button_click primary 0 0) (record a { primary_session_id = 0 }))
unfolding acquired released sleeps
confirm-IsQuiet a = ground arith

press-Keeps : (w : World) (a : App) → Keeps a (press w a)
unfolding press
press-Keeps w a =
    let b = record a { primary_down_us = w.now_us } in
    Keeps-trans a b _ (IsQuiet-Keeps a b (down-IsQuiet w.now_us a)) (
      ground
        (arith, IsQuiet-Keeps b _ (confirm-IsQuiet b), started-Keeps w b (start_recording w b).1))

pub front_down-Keeps : (w : World) (a : App) → Keeps a (front_down w a)
unfolding front_down
front_down-Keeps w a =
    Keeps-trans a _ _ (IsQuiet-Keeps a _ (activity-IsQuiet w a))
      (ground (arith, press-Keeps w (note_activity w a), click_stop-Keeps w (note_activity w a)))

stop_if-Keeps : (w : World) (a : App) → Keeps a (stop_if_recording w a).0
unfolding stop_if_recording
stop_if-Keeps w a = ground (arith, stop-Keeps w a, Keeps-refl a)

release_press-Keeps :
    (w : World) (n k : ℕ) (a : App)
    → Keeps a (end_press w k (emit (Effect.send_button_up primary n k) (stop_if_recording w a).0))
release_press-Keeps w n k a =
    Keeps-trans a _ _ (up-Keeps n k a _ (stop_if-Keeps w a)) (end_press-Keeps w k _)

pub front_up-Keeps : (w : World) (a : App) → Keeps a (front_up w a)
unfolding front_up
front_up-Keeps w a =
    let b = note_activity w a in
    Keeps-trans a b _ (IsQuiet-Keeps a b (activity-IsQuiet w a)) (
      ground (
        arith,
        Keeps-refl b,
        release_press-Keeps w (elapsed_button_ms w b.primary_down_us) (stop_if_recording w b).1 b,
      ))

pub side_up-Keeps : (w : World) (a : App) → Keeps a (side_up w a)
unfolding side_up acquired released sleeps
side_up-Keeps w a = IsQuiet-Keeps a _ (ground (arith, activity-IsQuiet w a))

off-Keeps :
    (a : App)
    → Keeps a (record a { recording = false; ota_updating = false; app_ui_state = UiState.ready })
off-Keeps a = record { valid = λ v. ground arith; awake = refl }

audio_stop-IsQuiet : (a : App) → IsQuiet a (emit Effect.resume_rolls (emit Effect.audio_stop a))
unfolding acquired released sleeps
audio_stop-IsQuiet a = ground arith

pairing-IsQuiet : (a : App) → IsQuiet a (emit Effect.show_pairing a)
unfolding acquired released sleeps
pairing-IsQuiet a = ground arith

pub disconnected-Keeps : (a : App) → Keeps a (disconnected a)
unfolding disconnected
disconnected-Keeps a =
    let b = record a { recording = false; ota_updating = false; app_ui_state = UiState.ready } in
    let stopped = stop_timer-IsQuiet b in
    Keeps-trans a b _ (off-Keeps a) (
      Keeps-trans b _ _ (IsQuiet-Keeps b _ (IsQuiet-trans b _ _ stopped (audio_stop-IsQuiet _))) (
        Keeps-trans _ _ _ (release-Keeps _ stopped.same_recording)
          (Keeps-trans _ _ _ (release_ota-Keeps _) (IsQuiet-Keeps _ _ (pairing-IsQuiet _)))))

button_up_if-Keeps :
    (w : World) (a : App) (b : Bool)
    → Keeps a (
        if b
        then emit
            (Effect.send_button_up primary
              (elapsed_button_ms w (stop_recording w a).0.primary_down_us)
              (stop_recording w a).1)
            (stop_recording w a).0
        else a)
button_up_if-Keeps w a true = up-Keeps _ _ a _ (stop-Keeps w a)
button_up_if-Keeps w a false = Keeps-refl a

pub updating-Keeps : (b : Bool) (a : App) → Keeps a (record a { ota_updating = b })
updating-Keeps b a = record { valid = λ v. ground arith; awake = refl }

pub shown-IsQuiet :
    (written size : ℕ) (a : App) → IsQuiet a (emit (Effect.show_ota_progress written size) a)
unfolding acquired released sleeps
shown-IsQuiet written size a = ground arith

pub ota_begins-Keeps :
    (w : World) (written size : ℕ) (a : App) → Keeps a (ota_begins w written size a)
unfolding ota_begins
ota_begins-Keeps w written size a =
    let a1 = record a { ota_updating = true } in
    Keeps-trans a a1 _ (updating-Keeps true a) (
      Keeps-trans a1 _ _ (button_up_if-Keeps w a1 a1.recording) (
        Keeps-trans _ _ _ (acquire_ota-Keeps w _) (
          Keeps-trans _ _ _ (IsQuiet-Keeps _ _ (activity-IsQuiet w _))
            (IsQuiet-Keeps _ _ (shown-IsQuiet written size _)))))

pub idle-IsQuiet : (a : App) → IsQuiet a (emit Effect.show_idle a)
unfolding acquired released sleeps
idle-IsQuiet a = ground arith

pub ready-IsQuiet : (a : App) → IsQuiet a (record a { app_ui_state = UiState.ready })
ready-IsQuiet a = ground arith

pub ota_ends-Keeps : (w : World) (a : App) → Keeps a (ota_ends w a)
unfolding ota_ends
ota_ends-Keeps w a = Keeps-trans a _ _ (updating-Keeps false a) (
    Keeps-trans _ _ _ (release_ota-Keeps _) (
      IsQuiet-Keeps _ _ (
        IsQuiet-trans _ _ _ (ready-IsQuiet _) (
          IsQuiet-trans _ _ _ (stop_timer-IsQuiet _)
            (IsQuiet-trans _ _ _ (idle-IsQuiet _) (activity-IsQuiet w _))))))
