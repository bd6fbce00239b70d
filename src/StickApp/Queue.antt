-- ===== src/StickApp/Queue.antt =====
-- The queue of main.c before `app_event_task`, and the callbacks that fill it: buttons, connection,
-- control messages, firmware update and timers. Texts hold no zero byte.
use voicestick.Prelude.{
  ℕ, ◌%◌, ◌^◌, ◌==◌, ltb, leb, Bool, true, false, not, ◌&&◌, List, [], ◌∷◌, ◌++◌, Option, none,
  some, if◌then◌else◌, length, take,
}
use voicestick.Prelude.Texts.{Text, text, text_eq}
use voicestick.VoiceBle.Ota.{OtaEvent}
use voicestick.StickApp.State.{App, AppEvent, World, Effect, InteractionMode, emit}
use voicestick.StickApp.Recording.{apply_interaction_mode}
use voicestick.StickApp.Events.{handle}

abbrev pub queue_depth : ℕ
queue_depth = 12

-- The event task with what waits in its queue, the oldest first.
pub record Task : Type 0 where
  pub queue : List AppEvent
  pub app : App

-- `xQueueSend` without waiting: where the queue is full the event is dropped.
unfoldable pub queue_app_event : AppEvent → Task → Task
queue_app_event event t =
    if ltb (length t.queue) queue_depth then record t { queue = t.queue ++ (event ∷ []) } else t

-- `strlcpy` into the fields of the event.
unfoldable pub queue_ui_state_event : Text → Text → Task → Task
queue_ui_state_event state label t =
    queue_app_event (AppEvent.ui_state (take 31 state) (take 95 label)) t

unfoldable pub ble_connection_cb : Bool → Task → Task
ble_connection_cb connected t =
    queue_app_event (if connected then AppEvent.ble_connected else AppEvent.ble_disconnected) t

unfoldable pub ble_ota_cb : OtaEvent → ℕ → ℕ → Task → Task
ble_ota_cb OtaEvent.begin written size t = queue_app_event (AppEvent.ota_begin written size) t
ble_ota_cb OtaEvent.progress written size t = queue_app_event (AppEvent.ota_progress written size) t
ble_ota_cb OtaEvent.finished written size t = queue_app_event AppEvent.ota_done t
ble_ota_cb OtaEvent.failed written size t = queue_app_event AppEvent.ota_end t
ble_ota_cb OtaEvent.aborted written size t = queue_app_event AppEvent.ota_end t

-- What cJSON finds under a key: a string, a number as the bits of its int, or neither.
pub data Item : Type 0 where
  string : Text → Item
  number : ℕ → Item
  other : Item

abbrev pub string_of : Item → Text
string_of (string s) = s
string_of _ = []

abbrev pub is_string : Item → Bool
is_string (string s) = true
is_string _ = false

abbrev pub is_number : Item → Bool
is_number (number n) = true
is_number _ = false

abbrev pub number_of : Item → ℕ
number_of (number n) = n
number_of _ = 0

-- Whether an item is this string.
unfoldable pub is_text : Item → Text → Bool
is_text (string s) t = text_eq s t
is_text _ t = false

unfoldable pub on_app : (App → App) → Task → Task
on_app f t = record t { app = f t.app }

unfoldable pub set_mode : Text → Task → Task
set_mode mode t =
    if text_eq mode (text "click_to_talk")
    then on_app (apply_interaction_mode InteractionMode.click_to_talk) t
    else if text_eq mode (text "hold_to_talk")
    then on_app (apply_interaction_mode InteractionMode.hold_to_talk) t
    else t

-- `voice_ble_set_audio_transport_version` knows versions 1 and 2.
unfoldable pub set_transport : ℕ → Task → Task
set_transport version t =
    if not (version == 1) && not (version == 2)
    then t
    else let t1 = on_app (emit (Effect.set_transport_version version)) t in
      if leb 2 version then on_app (emit Effect.request_fast_interval) t1 else t1

-- The control message once cJSON has read it; runs in the task of NimBLE.
unfoldable pub control : (Text → Item) → Task → Task
control root t =
    let event = root (text "event") in
    if is_text event (text "ui_state") && is_string (root (text "state"))
    then queue_ui_state_event (string_of (root (text "state"))) (string_of (root (text "text"))) t
    else if is_text event (text "interaction_mode") && is_string (root (text "mode"))
    then set_mode (string_of (root (text "mode"))) t
    else if is_text event (text "audio_transport") && is_number (root (text "version"))
    then set_transport (number_of (root (text "version")) % 2 ^ 8) t
    else t

-- `cJSON_Parse` is a parameter.
unfoldable pub ble_control_cb : (Text → Option (Text → Item)) → Text → Task → Task
ble_control_cb parse json t = elim (parse json) [ none ↦ t | some root ↦ control root t ]

-- `app_event_task` takes the oldest event; it waits while there is none.
unfoldable pub take_event : World → Task → Task
take_event w t = elim t.queue [
  | [] ↦ t
  | event ∷ rest ↦ record { queue = rest; app = handle w event t.app }
]

-- What happens to the task: an event arrives, a control message, or a turn of the task.
pub data Move : Type 0 where
  arrive : AppEvent → Move
  control_message : Text → Move
  turn : World → Move

unfoldable pub move : (Text → Option (Text → Item)) → Move → Task → Task
move parse (arrive event) t = queue_app_event event t
move parse (control_message json) t = ble_control_cb parse json t
move parse (turn w) t = take_event w t

unfoldable pub moves : (Text → Option (Text → Item)) → List Move → Task → Task
moves parse [] t = t
moves parse (m ∷ ms) t = moves parse ms (move parse m t)
