-- ===== src/StickApp/Sessions.antt =====
-- Recordings of main.c as the host sees them: what a press and its release send, and what is left of
-- a press that cannot be sent.
use voicestick.Prelude.{
  ℕ, ◌+◌, ◌≡◌, ◌==◌, true, false, List, [], ◌∷◌, arith, ◌≢◌, ◌⊎◌, Bool-cases, inl, inr,
  if◌then◌else◌, not,
}
use voicestick.Prelude.Texts.{text, text_eq, text_eq_refl}
use voicestick.ByteUtils.{u32}
use voicestick.StickApp.State.{App, AppEvent, World, Effect, emit}
use voicestick.StickApp.Power.{
  acquire_recording_pm_locks, release_recording_pm_locks, restart_display_dim_timer,
  restart_deep_sleep_timer, brighten, note_activity, stop_host_response_timer,
}
use voicestick.StickApp.Recording.{
  is_click_to_talk, is_pending_confirmation, app_ui_allows_recording_start, start_audio,
  start_recording, stop_recording, elapsed_button_ms, apply_ready, apply_app_ui_state,
}
use voicestick.StickApp.Events.{
  primary, end_press, announce, press, front_down, stop_if_recording, front_up, run, handle,
}

-- The messages to the host about buttons, the newest first.
unfoldable pub sent : List Effect → List Effect
sent [] = []
sent (Effect.send_button_down b s ∷ log) = Effect.send_button_down b s ∷ sent log
sent (Effect.send_button_up b d s ∷ log) = Effect.send_button_up b d s ∷ sent log
sent (Effect.send_button_click b d s ∷ log) = Effect.send_button_click b d s ∷ sent log
sent (e ∷ log) = sent log

-- The press, the recording and what was sent are as before; the display may not be.
record IsIdleWork (a b : App) : Type 0 where
  pub same_recording : b.recording ≡ a.recording
  pub same_lock : b.recording_pm_locked ≡ a.recording_pm_locked
  pub same_ota : b.ota_updating ≡ a.ota_updating
  pub same_session : b.session_id ≡ a.session_id
  pub same_down : b.primary_down_us ≡ a.primary_down_us
  pub same_primary : b.primary_session_id ≡ a.primary_session_id
  pub same_mode : b.interaction_mode ≡ a.interaction_mode
  pub same_ui : b.app_ui_state ≡ a.app_ui_state
  pub same_sent : sent b.log ≡ sent a.log

IsIdleWork-trans : (a b c : App) → IsIdleWork a b → IsIdleWork b c → IsIdleWork a c
IsIdleWork-trans a b c p q = ground arith

dim-IsIdleWork : (a : App) → IsIdleWork a (restart_display_dim_timer a)
unfolding restart_display_dim_timer sent
dim-IsIdleWork a = ground arith

sleep-IsIdleWork : (a : App) → IsIdleWork a (restart_deep_sleep_timer a)
unfolding restart_deep_sleep_timer sent
sleep-IsIdleWork a = ground arith

brighten-IsIdleWork : (w : World) (a : App) → IsIdleWork a (brighten w a)
unfolding brighten sent
brighten-IsIdleWork w a = ground arith

timers-IsIdleWork :
    (a : App) → IsIdleWork a (restart_deep_sleep_timer (restart_display_dim_timer a))
timers-IsIdleWork a = IsIdleWork-trans a _ _ (dim-IsIdleWork a) (sleep-IsIdleWork _)

activity-IsIdleWork : (w : World) (a : App) → IsIdleWork a (note_activity w a)
unfolding note_activity
activity-IsIdleWork w a =
    IsIdleWork-trans a _ _ (brighten-IsIdleWork w a) (timers-IsIdleWork (brighten w a))

-- What a successful start leaves.
record HasStarted (w : World) (a : App) (r : App × ℕ) : Type 0 where
  pub recording : r.0.recording ≡ true
  pub locked : r.0.recording_pm_locked ≡ true
  pub session : r.1 ≡ a.session_id
  pub next : r.0.session_id ≡ u32 (a.session_id + 1)
  pub same_down : r.0.primary_down_us ≡ a.primary_down_us
  pub same_mode : r.0.interaction_mode ≡ a.interaction_mode
  pub same_sent : sent r.0.log ≡ sent a.log

-- Nothing speaks against a recording, and every call that begins one succeeds.
pub record CanStart (w : World) (a : App) : Type 0 where
  pub idle : a.recording ≡ false
  pub no_update : a.ota_updating ≡ false
  pub no_transfer : w.ble_ota_is_active ≡ false
  pub linked : w.ble_is_ready ≡ true
  pub not_pending : is_pending_confirmation a.app_ui_state ≡ false
  pub acquires : w.pm_acquire_err ≡ 0
  pub begins : w.audio_start_err ≡ 0

-- The audio has begun as the session `n`.
record HasBegun (a : App) (n : ℕ) (r : App × ℕ) : Type 0 where
  pub recording : r.0.recording ≡ true
  pub same_lock : r.0.recording_pm_locked ≡ a.recording_pm_locked
  pub session : r.1 ≡ n
  pub next : r.0.session_id ≡ a.session_id
  pub same_down : r.0.primary_down_us ≡ a.primary_down_us
  pub same_mode : r.0.interaction_mode ≡ a.interaction_mode
  pub same_sent : sent r.0.log ≡ sent a.log

start_audio-HasBegun :
    (w : World) (n : ℕ) (a : App) → w.audio_start_err ≡ 0 → HasBegun a n (start_audio w n a)
unfolding start_audio sent
start_audio-HasBegun w n a h = grind (arith, timers-IsIdleWork)

start-HasStarted : (w : World) (a : App) → CanStart w a → HasStarted w a (start_recording w a)
unfolding start_recording acquire_recording_pm_locks app_ui_allows_recording_start sent
start-HasStarted w a c = grind (arith, start_audio-HasBegun)

-- What the end of a recording leaves.
record HasStopped (w : World) (a : App) (r : App × ℕ) : Type 0 where
  pub recording : r.0.recording ≡ false
  pub locked : r.0.recording_pm_locked ≡ false
  pub session : r.1 ≡ w.audio_session_id
  pub next : r.0.session_id ≡ a.session_id
  pub same_primary : r.0.primary_session_id ≡ a.primary_session_id
  pub same_mode : r.0.interaction_mode ≡ a.interaction_mode
  pub same_sent : sent r.0.log ≡ sent a.log

stop-HasStopped : (w : World) (a : App) → a.recording ≡ true → HasStopped w a (stop_recording w a)
unfolding stop_recording release_recording_pm_locks sent
stop-HasStopped w a h = grind (arith, timers-IsIdleWork)

-- A press in the mode hold to talk has begun a recording and has told the host.
record HasPressed (w : World) (a b : App) : Type 0 where
  pub recording : b.recording ≡ true
  pub next : b.session_id ≡ u32 (a.session_id + 1)
  pub down : b.primary_down_us ≡ w.now_us
  pub mode : b.interaction_mode ≡ a.interaction_mode
  pub messages : sent b.log ≡ Effect.send_button_down primary a.session_id ∷ sent a.log

press-HasPressed :
    (w : World) (a : App)
    → CanStart w a
    → is_click_to_talk a.interaction_mode ≡ false
    → a.session_id ≢ 0
    → w.send_err ≡ 0
    → HasPressed w a (press w a)
unfolding press announce sent
press-HasPressed w a c h k e = ground (
  arith,
  start-HasStarted w (record a { primary_down_us = w.now_us })
      (record {
        idle = c.idle;
        no_update = c.no_update;
        no_transfer = c.no_transfer;
        linked = c.linked;
        not_pending = c.not_pending;
        acquires = c.acquires;
        begins = c.begins;
      }),
)

front_down-HasPressed :
    (w : World) (a : App)
    → CanStart w a
    → is_click_to_talk a.interaction_mode ≡ false
    → a.session_id ≢ 0
    → w.send_err ≡ 0
    → HasPressed w a (front_down w a)
unfolding front_down
front_down-HasPressed w a c h k e =
    ground (arith, activity-IsIdleWork w a, press-HasPressed w (note_activity w a))

-- A release has ended the recording and has told the host.
record HasReleased (w : World) (a b : App) : Type 0 where
  pub recording : b.recording ≡ false
  pub locked : b.recording_pm_locked ≡ false
  pub next : b.session_id ≡ a.session_id
  pub down : b.primary_down_us ≡ 0
  pub primary_session : b.primary_session_id ≡ 0
  pub messages :
      sent b.log
      ≡ Effect.send_button_up primary (elapsed_button_ms w a.primary_down_us) w.audio_session_id
        ∷ sent a.log

-- The recording and the messages are as before; the display may not be.
record IsDisplayWork (a b : App) : Type 0 where
  pub same_recording : b.recording ≡ a.recording
  pub same_lock : b.recording_pm_locked ≡ a.recording_pm_locked
  pub same_session : b.session_id ≡ a.session_id
  pub same_primary : b.primary_session_id ≡ a.primary_session_id
  pub same_sent : sent b.log ≡ sent a.log

IsDisplayWork-trans : (a b c : App) → IsDisplayWork a b → IsDisplayWork b c → IsDisplayWork a c
IsDisplayWork-trans a b c p q = ground arith

apply_ready-IsDisplayWork : (w : World) (a : App) → IsDisplayWork a (apply_ready w a)
unfolding apply_ready sent
apply_ready-IsDisplayWork w a = grind (arith, activity-IsIdleWork)

stop_timer-IsDisplayWork : (a : App) → IsDisplayWork a (stop_host_response_timer a)
unfolding stop_host_response_timer sent
stop_timer-IsDisplayWork a = ground arith

ui_ready-IsDisplayWork :
    (w : World) (a : App) → IsDisplayWork a (apply_app_ui_state w (text "ready") [] a)
unfolding apply_app_ui_state
ui_ready-IsDisplayWork w a =
    let e : text_eq (text "ready") (text "ready") ≡ true = text_eq_refl (text "ready") in
    IsDisplayWork-trans a _ _ (stop_timer-IsDisplayWork a)
      (ground (arith, e, apply_ready-IsDisplayWork w (stop_host_response_timer a)))

end_press-IsDisplayWork :
    (w : World) (session_id : ℕ) (a : App)
    → let b = end_press w session_id a in
      (b.recording ≡ a.recording)
      × (b.recording_pm_locked ≡ a.recording_pm_locked)
      × (b.session_id ≡ a.session_id)
      × (sent b.log ≡ sent a.log)
      × (b.primary_down_us ≡ 0)
      × (b.primary_session_id ≡ 0)
unfolding end_press
end_press-IsDisplayWork w session_id a = ground (arith, ui_ready-IsDisplayWork w a)

front_up-HasReleased :
    (w : World) (a : App)
    → a.recording ≡ true
    → is_click_to_talk a.interaction_mode ≡ false
    → HasReleased w a (front_up w a)
unfolding front_up stop_if_recording sent
front_up-HasReleased w a h k = ground (
  arith,
  activity-IsIdleWork w a,
  stop-HasStopped w (note_activity w a),
  end_press-IsDisplayWork w (stop_recording w (note_activity w a)).1 (
      emit
        (Effect.send_button_up primary (elapsed_button_ms w (note_activity w a).primary_down_us)
          (stop_recording w (note_activity w a)).1)
        (stop_recording w (note_activity w a)).0),
)

-- Where nothing speaks against a recording and every call succeeds at the press, in the mode hold to
-- talk and with a session number that is not 0: a press and its release, whatever the release meets,
-- take a new session number, send the host the button going down with the old one and then up with
-- the time between and the session that the audio reports, and leave no recording, no lock and no
-- press.
pub run-hold_to_talk :
    (w v : World) (a : App)
    → CanStart w a
    → is_click_to_talk a.interaction_mode ≡ false
    → a.session_id ≢ 0
    → w.send_err ≡ 0
    → let b = run ((w, AppEvent.front_down) ∷ (v, AppEvent.front_up) ∷ []) a in
      (sent b.log
        ≡ Effect.send_button_up primary (elapsed_button_ms v w.now_us) v.audio_session_id
          ∷ Effect.send_button_down primary a.session_id
          ∷ sent a.log)
      × (b.session_id ≡ u32 (a.session_id + 1))
      × (b.recording ≡ false)
      × (b.recording_pm_locked ≡ false)
      × (b.primary_down_us ≡ 0)
      × (b.primary_session_id ≡ 0)
unfolding run handle
run-hold_to_talk w v a c h k e =
    ground (arith, front_down-HasPressed w a c h k e, front_up-HasReleased v (front_down w a))

-- Either the session `n` is being recorded, or there is no session and no lock.
StartsOrNot : ℕ → App × ℕ → Type 0
StartsOrNot n r =
    ((r.0.recording ≡ true) × (r.1 ≡ n))
    ⊎ ((r.1 ≡ 0) × (r.0.recording ≡ false) × (r.0.recording_pm_locked ≡ false))

start_audio-StartsOrNot :
    (w : World) (n : ℕ) (a : App) → a.recording ≡ false → StartsOrNot n (start_audio w n a)
unfolding StartsOrNot start_audio release_recording_pm_locks
start_audio-StartsOrNot w n a h = elim (Bool-cases (w.audio_start_err == 0)) [
  | inl ok ↦ inl (grind (arith, timers-IsIdleWork))
  | inr bad ↦ inr (ground arith)
]

-- The lock is either held or not.
acquire-recording :
    (w : World) (a : App)
    → a.recording_pm_locked ≡ false
    → let r = acquire_recording_pm_locks w a in
      (r.0.recording ≡ a.recording) × (r.1 ≡ r.0.recording_pm_locked)
unfolding acquire_recording_pm_locks
acquire-recording w a h = ground arith

locked-StartsOrNot :
    (w : World) (n : ℕ) (a : App)
    → a.recording ≡ false
    → StartsOrNot n (
        if not a.recording_pm_locked
        then (emit (Effect.show_error (text "Power lock failed")) a, 0)
        else start_audio w n a)
unfolding StartsOrNot
locked-StartsOrNot w n a h = ground (arith, start_audio-StartsOrNot w n a h)

start-StartsOrNot :
    (w : World) (a : App)
    → a.recording ≡ false
    → a.recording_pm_locked ≡ false
    → StartsOrNot a.session_id (start_recording w a)
unfolding start_recording StartsOrNot
start-StartsOrNot w a h k =
    let b = record a { session_id = u32 (a.session_id + 1) } in
    let q = acquire-recording w b k in
    ground (arith, q, locked-StartsOrNot w a.session_id (acquire_recording_pm_locks w b).0)

announce-unsent :
    (w : World) (n : ℕ) (a : App)
    → w.send_err ≢ 0
    → a.recording ≡ true
    → let b = announce w n a in
      (b.recording ≡ false) × (b.recording_pm_locked ≡ false) × (b.primary_session_id ≡ 0)
unfolding announce
announce-unsent w n a e h = grind (arith, ui_ready-IsDisplayWork, stop-HasStopped)

press-unsent :
    (w : World) (a : App)
    → w.send_err ≢ 0
    → a.recording ≡ false
    → a.recording_pm_locked ≡ false
    → a.session_id ≢ 0
    → let b = press w a in
      (b.recording ≡ false) × (b.recording_pm_locked ≡ false) × (b.primary_session_id ≡ 0)
unfolding press StartsOrNot
press-unsent w a e h k n =
    let b = record a { primary_down_us = w.now_us } in
    let r = start_recording w b in
    ground (
      arith,
      start-StartsOrNot w b h k,
      announce-unsent w r.1 (record r.0 { primary_session_id = r.1 }) e,
    )

-- A press whose message cannot be sent, where no recording is under way, no lock is held for
-- one and the next session number is not 0: whatever else the press meets, it leaves no recording, no lock and no session to release.
pub front_down-unsent :
    (w : World) (a : App)
    → w.send_err ≢ 0
    → a.recording ≡ false
    → a.recording_pm_locked ≡ false
    → a.session_id ≢ 0
    → let b = front_down w a in
      (b.recording ≡ false) × (b.recording_pm_locked ≡ false) × (b.primary_session_id ≡ 0)
unfolding front_down
front_down-unsent w a e h k n =
    ground (arith, activity-IsIdleWork w a, press-unsent w (note_activity w a) e)
